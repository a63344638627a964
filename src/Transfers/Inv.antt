-- ===== src/Transfers/Inv.antt =====
-- What holds of the store of upload links between calls, and what `_prune` does to it.
use beacon_mcp.Base.{
  ℕ, ◌<◌, String, ◌≡◌, sym, ap, subst, ◌∙◌, true, false, none, some, ◌⊎◌, inl, inr, arith,
  Bool-cases, nat_has_eq, string_has_eq,
}
use beacon_mcp.Base.Dict.{
  lookup, Every, IsDict, lookup-insert, lookup-erase, IsDict-erase, Every-erase,
}
use beacon_mcp.Transfers.{
  UploadLink, UploadLinkStore, is_pending, expired, pending_at, expire_link, is_stale, forget_link,
}

pub record IsValid (s : UploadLinkStore) : Type 0 where
  pub keys : IsDict s.by_id
  pub ids : Every (λ _ ref. ref < s.next) s.by_id
  pub tokens : (token : String) (ref : ℕ) → lookup token s.by_token ≡ some ref → ref < s.next
  -- A pending link has no outcome yet.
  pub unfinished :
      (ref : ℕ) (link : UploadLink)
      → lookup ref s.objects ≡ some link
      → is_pending link.status ≡ true
      → link.finished_at ≡ none
  -- A pending link that a token reaches stands in `_by_id`, where `_prune` finds it.
  pub listed :
      (token : String) (ref : ℕ)
      → lookup token s.by_token ≡ some ref
      → pending_at s.objects ref ≡ true
      → (link_id : String) × (lookup link_id s.by_id ≡ some ref)

-- What `_prune` may have done so far to the store `s`.
pub record Pruned (s0 s : UploadLinkStore) : Type 0 where
  pub same_next : s.next ≡ s0.next
  pub dict : IsDict s.by_id
  pub kept_objects :
      (ref : ℕ) → pending_at s.objects ref ≡ true → lookup ref s.objects ≡ lookup ref s0.objects
  pub kept_tokens :
      (token : String)
      → (lookup token s.by_token ≡ none) ⊎ (lookup token s.by_token ≡ lookup token s0.by_token)
  pub kept_ids :
      (link_id : String) (ref : ℕ)
      → lookup link_id s0.by_id ≡ some ref
      → pending_at s.objects ref ≡ true
      → lookup link_id s.by_id ≡ some ref
  pub below : Every (λ _ ref. ref < s0.next) s.by_id

-- A link that is still pending has not expired.
abbrev pub Fresh : ℕ → UploadLinkStore → ℕ → Type 0
Fresh now s ref =
    (link : UploadLink)
    → lookup ref s.objects ≡ some link
    → is_pending link.status ≡ true
    → now < link.expires_at

-- An object that is pending after `_prune` has changed something was pending, and the same, before.
abbrev pub Keeps : UploadLinkStore → UploadLinkStore → Type 0
Keeps s s' =
    (ref : ℕ) → pending_at s'.objects ref ≡ true → lookup ref s'.objects ≡ lookup ref s.objects

pub Fresh-Keeps :
    (now : ℕ) (s s' : UploadLinkStore) (ref : ℕ) → Keeps s s' → Fresh now s ref → Fresh now s' ref
unfolding pending_at
Fresh-Keeps now s s' ref keeps fresh link found waits =
    fresh link (sym (keeps ref (rw (found, pending_at) waits)) ∙ found) waits

module _ (now : ℕ) (ref : ℕ) (link : UploadLink) (s : UploadLinkStore)
    (found : lookup ref s.objects ≡ some link) where
  pub expire-Keeps : Keeps s (expire_link now ref link s)
  unfolding expire_link pending_at
  expire-Keeps j = ground (
    arith,
    lookup-insert ref j (record link { status = expired; finished_at = some now }) s.objects,
    nat_has_eq.beq_iff ref j,
  )

  pub expire-Fresh : Fresh now (expire_link now ref link s) ref
  unfolding expire_link pending_at
  expire-Fresh l = ground (
    arith,
    lookup-insert ref ref (record link { status = expired; finished_at = some now }) s.objects,
    nat_has_eq.beq_iff ref ref,
  )

  module _ {s0 : UploadLinkStore} (v : IsValid s0) (p : Pruned s0 s) where
    still_kept : Keeps s0 (expire_link now ref link s)
    unfolding pending_at
    still_kept j waits =
        let same = expire-Keeps j waits in
        same
        ∙ p.kept_objects j
            (ap (λ o. elim o [ none ↦ false | some l ↦ is_pending l.status ]) (sym same) ∙ waits)

    same_by_id : (expire_link now ref link s).by_id ≡ s.by_id
    unfolding expire_link
    same_by_id = ground arith

    kept_pending :
        (j : ℕ)
        → pending_at (expire_link now ref link s).objects j ≡ true
        → pending_at s.objects j ≡ true
    unfolding pending_at
    kept_pending j waits = ground (arith, expire-Keeps j waits)

    pub expire-Pruned : Pruned s0 (expire_link now ref link s)
    unfolding expire_link
    expire-Pruned = record {
      same_next = ground (arith, p.same_next);
      dict = ground (arith, p.dict);
      kept_objects = still_kept;
      kept_tokens =
          λ token. ground (arith, p.kept_tokens token, lookup-erase link.token token s.by_token);
      kept_ids = λ link_id j known waits.
          ap (lookup link_id) same_by_id ∙ p.kept_ids link_id j known (kept_pending j waits);
      below = subst (Every (λ _ j. j < s0.next)) (sym same_by_id) p.below;
    }

pub kept_waiting :
    (now ref : ℕ) (link : UploadLink) (s : UploadLinkStore)
    → lookup ref s.objects ≡ some link
    → (j : ℕ) → pending_at (expire_link now ref link s).objects j ≡ true
    → pending_at s.objects j ≡ true
unfolding pending_at
kept_waiting now ref link s found j waits =
    ground (arith, expire-Keeps now ref link s found j waits)

module _ (now : ℕ) (link_id : String) (ref : ℕ) (link : UploadLink) {s0 s : UploadLinkStore}
    (found : lookup ref s.objects ≡ some link) (v : IsValid s0) (p : Pruned s0 s)
    (own : lookup link_id s0.by_id ≡ some ref) where
  forget-objects : (forget_link now link_id link s).objects ≡ s.objects
  unfolding forget_link
  forget-objects = ground arith

  -- A stale link is not pending, since a pending one has no outcome.
  stale-settled : is_stale now link ≡ true → is_pending link.status ≡ false
  unfolding is_stale pending_at
  stale-settled old = elim (Bool-cases (is_pending link.status)) [
    | inr settles ↦ settles
    | inl waits ↦ ground (
      arith,
      v.unfinished ref link (sym (p.kept_objects ref (rw (found, pending_at) waits)) ∙ found) waits,
    )
  ]

  forget-ids :
      (j : String) (r : ℕ)
      → lookup j s0.by_id ≡ some r
      → pending_at s.objects r ≡ true
      → lookup j (forget_link now link_id link s).by_id ≡ some r
  unfolding forget_link pending_at
  forget-ids j r known waits = ground (
    arith,
    p.kept_ids j r known waits,
    lookup-erase link_id j s.by_id,
    string_has_eq.beq_iff link_id j,
    stale-settled,
  )

  forget-below : Every (λ _ j. j < s0.next) (forget_link now link_id link s).by_id
  unfolding forget_link is_stale
  forget-below = elim (Bool-cases (is_stale now link)) [
    | inl old ↦ rw old (Every-erase _ link_id s.by_id p.below)
    | inr young ↦ rw young p.below
  ]

  pub forget-Pruned : Pruned s0 (forget_link now link_id link s)
  unfolding forget_link
  forget-Pruned = record {
    same_next = ground (arith, p.same_next);
    dict = ground (arith, p.dict, IsDict-erase link_id s.by_id p.dict);
    kept_objects = λ j.
        subst (λ o. pending_at o j ≡ true → lookup j o ≡ lookup j s0.objects) (sym forget-objects)
          (p.kept_objects j);
    kept_tokens =
        λ token. ground (arith, p.kept_tokens token, lookup-erase link.token token s.by_token);
    kept_ids = λ j r known waits.
        forget-ids j r known (subst (λ o. pending_at o r ≡ true) forget-objects waits);
    below = forget-below;
  }

pub forget-Fresh :
    (now : ℕ) (link_id : String) (link : UploadLink) (s : UploadLinkStore) (j : ℕ)
    → Fresh now s j
    → Fresh now (forget_link now link_id link s) j
unfolding forget_link
forget-Fresh now link_id link s j fresh l found waits = fresh l (ground (arith, found)) waits
