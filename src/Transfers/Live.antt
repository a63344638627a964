-- ===== src/Transfers/Live.antt =====
-- A claim of an upload link after its issue.
use beacon_mcp.Base.{
  ℕ, ◌<◌, String, ◌≡◌, refl, true, false, none, some, arith, ◌==◌, inl, inr, Option-cases, loop-inv,
  nat_has_eq, string_has_eq, ok, eq_refl,
}
use beacon_mcp.Base.Dict.{lookup, lookup-insert, lookup-erase}
use beacon_mcp.Transfers.{
  UploadLink, UploadLinkStore, Target, uploading, expired, is_pending, expire_link, forget_link,
  prune_entry, prune, new_link, issue, claim,
}

module _ (token : String) (ref : ℕ) (link : UploadLink) (now : ℕ)
    (waits : is_pending link.status ≡ true) (unfinished : link.finished_at ≡ none)
    (early : now < link.expires_at) where
  -- The token leads to the link, and no other object carries the token.
  record Holds (s : UploadLinkStore) : Type 0 where
    pub leads : lookup token s.by_token ≡ some ref
    pub found : lookup ref s.objects ≡ some link
    pub alone :
        (j : ℕ) (l : UploadLink)
        → lookup j s.objects ≡ some l
        → (j == ref) ≡ false
        → (l.token == token) ≡ false

  module _ (s : UploadLinkStore) (h : Holds s) where
    expire-Holds :
        (j : ℕ) (l : UploadLink) → lookup j s.objects ≡ some l → Holds (expire_link now j l s)
    unfolding expire_link
    expire-Holds j l there =
        let after = record l { status = expired; finished_at = some now } in
        let other = h.alone j l there in
        record {
          leads = ground (
            arith,
            h.leads,
            h.found,
            other,
            lookup-erase l.token token s.by_token,
            nat_has_eq.beq_iff j ref,
          );
          found =
              ground
                (arith, h.found, lookup-insert j ref after s.objects, nat_has_eq.beq_iff j ref);
          alone = λ k m at_k ne. ground (
            arith,
            h.alone k m,
            other,
            lookup-insert j k after s.objects,
            nat_has_eq.beq_iff j k,
          );
        }

    forget-Holds :
        (link_id : String) (j : ℕ) (l : UploadLink)
        → lookup j s.objects ≡ some l
        → Holds (forget_link now link_id l s)
    unfolding forget_link
    forget-Holds link_id j l there = record {
      leads = ground (
        arith,
        h.leads,
        h.found,
        h.alone j l there,
        lookup-erase l.token token s.by_token,
        nat_has_eq.beq_iff j ref,
      );
      found = ground (arith, h.found);
      alone = λ k m at_k ne. h.alone k m (ground (arith, at_k)) ne;
    }

  entry-Holds :
      (s : UploadLinkStore) (entry : String × ℕ) → Holds s → Holds (prune_entry now s entry)
  unfolding prune_entry
  entry-Holds s (link_id, j) h = elim (Option-cases (lookup j s.objects)) [
    | inl missing ↦ rw (missing, prune_entry) h
    | inr (l, there) ↦
        let s1 = expire_link now j l s in
        let h1 = expire-Holds s h j l there in
        rw (there, prune_entry)
          (elim (Option-cases (lookup j s1.objects)) [
            | inl missing ↦ rw missing h1
            | inr (l1, there1) ↦ rw there1 (forget-Holds s1 h1 link_id j l1 there1)
          ])
  ]

  prune-Holds : (s : UploadLinkStore) → Holds s → Holds (prune now s)
  unfolding prune
  prune-Holds s h = loop-inv Holds (prune_entry now) entry-Holds s s.by_id h

  claim-Holds :
      (s : UploadLinkStore)
      → Holds s
      → (claim token now s).0 ≡ some (ref, record link { status = uploading })
  unfolding claim
  claim-Holds s h = let p = prune-Holds s h in rw (p.leads, claim) (rw (p.found) (rw waits refl))

-- A link that `issue` answers, with a random token that no object of the store carries, is given to the
-- first claim of its token at any time before it expires, whatever the asked time to live was.
pub issue-claim :
    (t : Target) (ttl : ℕ) (link_id token : String) (now created later : ℕ) (s : UploadLinkStore)
    (link : UploadLink)
    → ((j : ℕ) (l : UploadLink)
        → lookup j (prune now s).objects ≡ some l
        → (l.token == token) ≡ false)
    → (issue t ttl link_id token now created s).0 ≡ ok link
    → later < link.expires_at
    → (claim token later (issue t ttl link_id token now created s).1).0
      ≡ some ((prune now s).next, record link { status = uploading })
unfolding issue new_link
issue-claim t ttl link_id token now created later s link fresh h early =
    let r = prune now s in
    let new = new_link t ttl link_id token now created in
    claim-Holds token r.next link later (ground (arith, h)) (ground (arith, h)) early
      (issue t ttl link_id token now created s).1
      (record {
        leads =
            ground
              (arith, h, lookup-insert token token r.next r.by_token, eq_refl {A = String} token);
        found =
            ground (arith, h, lookup-insert r.next r.next new r.objects, eq_refl {A = ℕ} r.next);
        alone = λ j l at_j ne. ground (
          arith,
          h,
          fresh j l,
          lookup-insert r.next j new r.objects,
          nat_has_eq.beq_iff j r.next,
          nat_has_eq.beq_iff r.next j,
        );
      })
