-- ===== src/Transfers/Once.antt =====
-- Claims of an upload token, over runs of calls.
use beacon_mcp.Base.{
  ℕ, String, ◌≡◌, refl, ◌∙◌, false, none, inl, inr, arith, ◌==◌, eq_refl, Option-cases, loop-inv,
  nat_has_eq, string_has_eq,
}
use beacon_mcp.Base.Dict.{lookup, erase, lookup-insert, lookup-erase}
use beacon_mcp.Transfers.{
  UploadLink, UploadLinkStore, prune, Target, PushResult, issue, claim, finish, get, expire_link,
  forget_link, prune_entry,
}

-- What other calls lead to, none of which issues a link with this token again.
pub data Later (token : String) (s : UploadLinkStore) : UploadLinkStore → Type 0 where
  now_same : Later token s s
  then_issue :
      {s' : UploadLinkStore} (t : Target) (ttl : ℕ) (link_id other : String) (now created : ℕ)
      → (other == token) ≡ false
      → Later token s s'
      → Later token s (issue t ttl link_id other now created s').1
  then_claim :
      {s' : UploadLinkStore} (other : String) (now : ℕ)
      → Later token s s'
      → Later token s (claim other now s').1
  then_finish :
      {s' : UploadLinkStore} (ref : ℕ) (result : PushResult) (now : ℕ)
      → Later token s s'
      → Later token s (finish ref result now s')
  then_get :
      {s' : UploadLinkStore} (link_id : String) (now : ℕ)
      → Later token s s'
      → Later token s (get link_id now s').1

abbrev Spent : String → UploadLinkStore → Type 0
Spent token s = lookup token s.by_token ≡ none

module _ (token : String) where
  expire-Spent :
      (now ref : ℕ) (link : UploadLink) (s : UploadLinkStore)
      → Spent token s
      → Spent token (expire_link now ref link s)
  unfolding expire_link
  expire-Spent now ref link s gone = ground (arith, gone, lookup-erase link.token token s.by_token)

  forget-Spent :
      (now : ℕ) (link_id : String) (link : UploadLink) (s : UploadLinkStore)
      → Spent token s
      → Spent token (forget_link now link_id link s)
  unfolding forget_link
  forget-Spent now link_id link s gone =
      ground (arith, gone, lookup-erase link.token token s.by_token)

  entry-Spent :
      (now : ℕ) (s : UploadLinkStore) (entry : String × ℕ)
      → Spent token s
      → Spent token (prune_entry now s entry)
  unfolding prune_entry
  entry-Spent now s (link_id, ref) gone = elim (Option-cases (lookup ref s.objects)) [
    | inl missing ↦ rw (missing, prune_entry) gone
    | inr (link, found) ↦
        let s1 = expire_link now ref link s in
        let gone1 = expire-Spent now ref link s gone in
        rw (found, prune_entry)
          (elim (Option-cases (lookup ref s1.objects)) [
            | inl missing ↦ rw missing gone1
            | inr (link1, found1) ↦ rw found1 (forget-Spent now link_id link1 s1 gone1)
          ])
  ]

  prune-Spent : (now : ℕ) (s : UploadLinkStore) → Spent token s → Spent token (prune now s)
  unfolding prune
  prune-Spent now s gone = loop-inv (Spent token) (prune_entry now) (entry-Spent now) s s.by_id gone

  claim-tokens :
      (other : String) (now : ℕ) (s : UploadLinkStore)
      → (claim other now s).1.by_token ≡ erase other (prune now s).by_token
  unfolding claim
  claim-tokens other now s = ground arith

  claim-Spent : (now : ℕ) (s : UploadLinkStore) → Spent token (claim token now s).1
  claim-Spent now s =
      rw (claim-tokens token now s)
        (lookup-erase token token _ ∙ rw (eq_refl {A = String} token) refl)

  Later-Spent : {s s' : UploadLinkStore} → Later token s s' → Spent token s → Spent token s'
  unfolding finish get issue
  Later-Spent now_same gone = gone
  Later-Spent (then_issue {s'} t ttl link_id other now created ne l) gone =
      let before = prune-Spent now s' (Later-Spent l gone) in
      ground (arith, before, lookup-insert other token (prune now s').next (prune now s').by_token)
  Later-Spent (then_claim {s'} other now l) gone =
      rw (claim-tokens other now s')
        (lookup-erase other token _ ∙ ground (arith, prune-Spent now s' (Later-Spent l gone)))
  Later-Spent (then_finish {s'} ref result now l) gone = ground (arith, Later-Spent l gone)
  Later-Spent (then_get {s'} link_id now l) gone = prune-Spent now s' (Later-Spent l gone)

  -- A token is claimed at most once: whatever the first claim of it answered, after any calls that do
  -- not issue a link with the same token again, a further claim answers nothing.
  pub claim-once :
      (s s' : UploadLinkStore) (first again : ℕ)
      → Later token (claim token first s).1 s'
      → (claim token again s').0 ≡ none
  unfolding claim
  claim-once s s' first again l =
      ground (arith, prune-Spent again s' (Later-Spent l (claim-Spent first s)))
