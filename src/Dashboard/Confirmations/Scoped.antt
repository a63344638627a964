-- ===== src/Dashboard/Confirmations/Scoped.antt =====
-- Which calls resolve a confirmation, and which requests pass the CSRF check.
use beacon_mcp.Base.{
  ℕ, ◌<◌, String, ◌≡◌, ◌≢◌, ◌↔◌, ◌⊎◌, refl, sym, ◌∙◌, Bool, true, false, some, nat_has_eq,
  string_has_eq, arith, Option-cases, Bool-cases, inl, inr, eq_refl, eq_of_ne,
}
use beacon_mcp.Base.Dict.{lookup, insert, lookup-insert, lookup-erase}
use beacon_mcp.Dashboard.Confirmations.{
  Future, waiting, decided, cancelled, is_done, Pending, ConfirmationStore, future_at, create,
  resolve, cancel, Request, verify, blank,
}

-- `resolve` answers true just when the call is pending, for that session, and its future still waits.
pub resolve_iff :
    (call_id session_id : String) (approved : Bool) (s : ConfirmationStore)
    → ((resolve call_id session_id approved s).0 ≡ true) ↔ (
        (entry : Pending) × (lookup call_id s.pending ≡ some entry)
        × (entry.session_id ≡ session_id)
        × (is_done (future_at entry.future s.futures) ≡ false))
unfolding resolve
resolve_iff call_id session_id approved s = (
  λ h. elim (Option-cases (lookup call_id s.pending)) [
    | inl missing ↦ ground (arith, missing)
    | inr (entry, there) ↦ (
      entry,
      there,
      ground (arith, there, string_has_eq.beq_iff entry.session_id session_id),
      ground (arith, there),
    )
  ],
  λ (entry, there, own, open_still).
      ground (arith, there, string_has_eq.beq_iff entry.session_id session_id),
)

-- A future that is done keeps its outcome through every call of the store: no later resolution or
-- cancellation changes what the caller that awaits it reads. The store's futures are numbered below
-- `next`.
pub outcome_stays :
    (s : ConfirmationStore) (ref : ℕ) (outcome : Future)
    → ref < s.next
    → lookup ref s.futures ≡ some outcome
    → is_done outcome ≡ true
    → ((call_id session_id : String)
        → lookup ref (create call_id session_id s).1.futures ≡ some outcome)
      × ((call_id session_id : String) (approved : Bool)
          → lookup ref (resolve call_id session_id approved s).1.futures ≡ some outcome)
      × ((call_id : String) → lookup ref (cancel call_id s).futures ≡ some outcome)
unfolding create resolve cancel
outcome_stays s ref outcome lt found over = (
  (λ call_id session_id.
      lookup-insert s.next ref waiting s.futures
      ∙ ground (arith, found, nat_has_eq.beq_iff s.next ref)),
  (λ call_id session_id approved. elim (Option-cases (lookup call_id s.pending)) [
    | inl missing ↦ ground (arith, missing)
    | inr (entry, there) ↦ ground (
      arith,
      there,
      found,
      lookup-insert entry.future ref (decided approved) s.futures,
      nat_has_eq.beq_iff entry.future ref,
    )
  ]),
  λ call_id. elim (Option-cases (lookup call_id s.pending)) [
    | inl missing ↦ ground (arith, missing)
    | inr (entry, there) ↦ ground (
      arith,
      there,
      found,
      lookup-insert entry.future ref cancelled s.futures,
      nat_has_eq.beq_iff entry.future ref,
    )
  ],
)

-- After `create`, the call is resolved by its own session with the decision that the caller then reads,
-- and by no other session; a second resolution is refused.
pub create-resolve :
    (call_id session_id other : String) (approved again : Bool) (s : ConfirmationStore)
    → other ≢ session_id
    → let (ref, asked) = create call_id session_id s in
      let (answer, after) = resolve call_id session_id approved asked in
      (answer ≡ true)
      × (lookup ref after.futures ≡ some (decided approved))
      × ((resolve call_id other approved asked) ≡ (false, asked))
      × ((resolve call_id session_id again after).0 ≡ false)
unfolding create resolve
create-resolve call_id session_id other approved again s ne =
    let entry : Pending = record { future = s.next; session_id = session_id } in
    let there : lookup call_id (insert call_id entry s.pending) ≡ some entry =
      lookup-insert call_id call_id entry s.pending ∙ rw (eq_refl {A = String} call_id) refl in
    let waits : lookup s.next (insert s.next waiting s.futures) ≡ some waiting =
      lookup-insert s.next s.next waiting s.futures ∙ rw (eq_refl {A = ℕ} s.next) refl in
    let gone = lookup-erase call_id call_id (insert call_id entry s.pending) in
    let written =
      lookup-insert s.next s.next (decided approved) (insert s.next waiting s.futures) in
    let mine = eq_refl {A = String} session_id in
    let theirs = eq_of_ne {A = String} session_id other (λ same. ne (sym same)) in
    let key = eq_refl {A = String} call_id in
    let number = eq_refl {A = ℕ} s.next in
    (
      ground (arith, there, waits, mine),
      ground (arith, there, waits, mine, written, number),
      ground (arith, there, theirs),
      ground (arith, there, waits, mine, gone, key),
    )

matched :
    (r : Request) (token : String)
    → r.cookie ≡ some token
    → verify r ≡ true
    → (r.header ≡ some token) ⊎ ((blank r.header ≡ true) × (r.form_field ≡ some token))
unfolding verify
matched r token has_cookie h = elim (Bool-cases (blank r.header)) [
  | inl no_header ↦ elim (Option-cases r.form_field) [
    | inl no_form ↦ ground (arith, has_cookie, no_header, no_form)
    | inr (field, has_form) ↦ inr (
      no_header,
      ground (arith, has_cookie, no_header, has_form, string_has_eq.beq_iff token field),
    )
  ]
  | inr with_header ↦ elim (Option-cases r.header) [
    | inl no_header ↦ ground (arith, with_header, no_header)
    | inr (field, has_header) ↦
        inl (ground (arith, has_cookie, with_header, has_header, string_has_eq.beq_iff token field))
  ]
]

-- A request passes the check just when its cookie is a text that is not empty and that the header, or
-- the form where there is no header, repeats.
pub verify_iff :
    (r : Request)
    → (verify r ≡ true) ↔ (
        (token : String) × (r.cookie ≡ some token)
        × (token ≢ "")
        × ((r.header ≡ some token) ⊎ ((blank r.header ≡ true) × (r.form_field ≡ some token))))
unfolding verify
verify_iff r = elim (Option-cases r.cookie) [
  | inl no_cookie ↦ ground (arith, no_cookie)
  | inr (token, has_cookie) ↦ (
    λ h. (
      token,
      has_cookie,
      (λ empty. ground (arith, has_cookie, string_has_eq.beq_iff token "")),
      matched r token has_cookie h,
    ),
    λ (t, same, filled, sent).
        ground
          (arith, has_cookie, string_has_eq.beq_iff token "", string_has_eq.beq_iff token token),
  )
]
