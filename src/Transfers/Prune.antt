-- ===== src/Transfers/Prune.antt =====
-- `_prune` of the upload links as a whole.
use beacon_mcp.Base.{
  ℕ, ◌≤◌, ◌<◌, String, ◌≡◌, refl, sym, subst, ◌∙◌, true, some, [], ◌∷◌, inl, inr, arith,
  Option-cases, loop, loop-inv, nat_has_eq, string_has_eq,
}
use native.Mathlib.Nat.{le_refl}
use beacon_mcp.Base.Dict.{
  Dict, lookup, count, Every, count-erase-le, Every-lookup, Every-self, Every-all, count_mono,
}
use beacon_mcp.Transfers.{
  UploadLink, UploadLinkStore, is_pending, pending_at, expire_link, forget_link, prune_entry, prune,
  count_pending,
}
use beacon_mcp.Transfers.Inv.{
  IsValid, Pruned, Fresh, Fresh-Keeps, expire-Keeps, expire-Fresh, expire-Pruned, kept_waiting,
  forget-Pruned, forget-Fresh,
}

module _ (now : ℕ) {s0 : UploadLinkStore} (v : IsValid s0) where
  -- One round of the loop: what was fresh stays so, and the entry becomes so.
  abbrev Round : ℕ → UploadLinkStore → UploadLinkStore → Type 0
  Round ref s s' = Pruned s0 s' × ((j : ℕ) → Fresh now s j → Fresh now s' j) × Fresh now s' ref

  entry-Round :
      (s : UploadLinkStore) (link_id : String) (ref : ℕ)
      → Pruned s0 s
      → lookup link_id s0.by_id ≡ some ref
      → Round ref s (prune_entry now s (link_id, ref))
  unfolding prune_entry
  entry-Round s link_id ref p own = elim (Option-cases (lookup ref s.objects)) [
    | inl missing ↦ rw (missing, prune_entry) (p, (λ j h. h), λ l found waits. cc)
    | inr (link, found) ↦
        let s1 = expire_link now ref link s in
        let p1 = expire-Pruned now ref link s found v p in
        let keeps = expire-Keeps now ref link s found in
        let mine = expire-Fresh now ref link s found in
        rw (found, prune_entry)
          (elim (Option-cases (lookup ref s1.objects)) [
            | inl missing ↦ rw missing (p1, (λ j h. Fresh-Keeps now s s1 j keeps h), mine)
            | inr (link1, found1) ↦ rw found1 (
              forget-Pruned now link_id ref link1 found1 v p1 own,
              (λ j h. forget-Fresh now link_id link1 s1 j (Fresh-Keeps now s s1 j keeps h)),
              forget-Fresh now link_id link1 s1 ref mine,
            )
          ])
  ]

  abbrev Known : Dict String ℕ → Type 0
  Known entries = Every (λ link_id ref. lookup link_id s0.by_id ≡ some ref) entries

  loop-Round :
      (entries : Dict String ℕ) (s : UploadLinkStore)
      → Known entries
      → Pruned s0 s
      → Pruned s0 (loop (prune_entry now) s entries)
        × ((j : ℕ) → Fresh now s j → Fresh now (loop (prune_entry now) s entries) j)
        × Every (λ _ ref. Fresh now (loop (prune_entry now) s entries) ref) entries
  loop-Round [] s known p = (p, (λ j h. h), tt)
  loop-Round ((link_id, ref) ∷ entries) s known p =
      let (p1, keeps, mine) = entry-Round s link_id ref p known.0 in
      let (p2, later, others) = loop-Round entries (prune_entry now s (link_id, ref)) known.1 p1 in
      (p2, (λ j h. later j (keeps j h)), (later ref mine, others))

  prune-start : Pruned s0 s0
  prune-start = record {
    same_next = refl;
    dict = v.keys;
    kept_objects = λ ref waits. refl;
    kept_tokens = λ token. inr refl;
    kept_ids = λ link_id ref known waits. known;
    below = v.ids;
  }

  pub prune-Pruned : Pruned s0 (prune now s0)
  unfolding prune
  prune-Pruned = (loop-Round s0.by_id s0 (Every-self s0.by_id v.keys) prune-start).0

  -- After `_prune`, a link that is pending and that `_by_id` held has not expired.
  pub prune-Fresh :
      (link_id : String) (ref : ℕ)
      → lookup link_id s0.by_id ≡ some ref
      → Fresh now (prune now s0) ref
  unfolding prune
  prune-Fresh link_id ref known =
      Every-lookup (λ _ j. Fresh now (loop (prune_entry now) s0 s0.by_id) j) link_id ref s0.by_id
        (loop-Round s0.by_id s0 (Every-self s0.by_id v.keys) prune-start).2 known

  waits_at :
      (ref : ℕ) (link : UploadLink)
      → lookup ref (prune now s0).objects ≡ some link
      → is_pending link.status ≡ true
      → pending_at (prune now s0).objects ref ≡ true
  unfolding pending_at
  waits_at ref link found waits = rw (found, pending_at) waits

  pub was_pending :
      (ref : ℕ) → pending_at (prune now s0).objects ref ≡ true → pending_at s0.objects ref ≡ true
  unfolding pending_at
  was_pending ref waits = ground (arith, prune-Pruned.kept_objects ref waits)

  pub prune-IsValid : IsValid (prune now s0)
  prune-IsValid = record {
    keys = prune-Pruned.dict;
    ids =
        subst (λ n. Every (λ _ j. j < n) (prune now s0).by_id) (sym prune-Pruned.same_next)
          prune-Pruned.below;
    tokens = λ token ref h.
        ground (arith, v.tokens token ref, prune-Pruned.kept_tokens token, prune-Pruned.same_next);
    unfinished = λ ref link found waits.
        v.unfinished ref link
          (sym (prune-Pruned.kept_objects ref (waits_at ref link found waits)) ∙ found) waits;
    listed = λ token ref h waits.
        let (link_id, known) =
          v.listed token ref (ground (arith, prune-Pruned.kept_tokens token))
            (was_pending ref waits) in
        (link_id, prune-Pruned.kept_ids link_id ref known waits);
  }

expire-ids :
    (now ref : ℕ) (link : UploadLink) (s : UploadLinkStore)
    → (expire_link now ref link s).by_id ≡ s.by_id
unfolding expire_link
expire-ids now ref link s = ground arith

expire-count :
    (now ref : ℕ) (link : UploadLink) (s : UploadLinkStore)
    → lookup ref s.objects ≡ some link
    → count_pending (expire_link now ref link s) ≤ count_pending s
unfolding count_pending
expire-count now ref link s found = rw (expire-ids now ref link s) (
    count_mono _ (pending_at s.objects) s.by_id
      (Every-all _ s.by_id (λ _ j. kept_waiting now ref link s found j)))

forget-count :
    (now : ℕ) (link_id : String) (link : UploadLink) (s : UploadLinkStore)
    → count_pending (forget_link now link_id link s) ≤ count_pending s
unfolding count_pending forget_link
forget-count now link_id link s = ground (
  arith,
  count-erase-le (pending_at s.objects) link_id s.by_id,
  le_refl (count (pending_at s.objects) s.by_id),
)

entry-count :
    (now : ℕ) (s : UploadLinkStore) (entry : String × ℕ)
    → count_pending (prune_entry now s entry) ≤ count_pending s
unfolding prune_entry
entry-count now s (link_id, ref) = elim (Option-cases (lookup ref s.objects)) [
  | inl missing ↦ rw (missing, prune_entry) (le_refl (count_pending s))
  | inr (link, found) ↦
      let s1 = expire_link now ref link s in
      let first = expire-count now ref link s found in
      rw (found, prune_entry)
        (elim (Option-cases (lookup ref s1.objects)) [
          | inl missing ↦ rw missing first
          | inr (link1, found1) ↦
              rw found1 (omega (arith, first, forget-count now link_id link1 s1))
        ])
]

-- `_prune` never adds to the pending links.
pub prune-count : (now : ℕ) (s : UploadLinkStore) → count_pending (prune now s) ≤ count_pending s
unfolding prune
prune-count now s =
    loop-inv (λ s'. count_pending s' ≤ count_pending s) (prune_entry now)
      (λ s' entry h. omega (arith, h, entry-count now s' entry)) s s.by_id
      (le_refl (count_pending s))
