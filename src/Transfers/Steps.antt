-- ===== src/Transfers/Steps.antt =====
-- What each call on the upload links preserves, and what a claim answers, case by case.
use beacon_mcp.Base.{
  ℕ, ◌+◌, ◌≤◌, ◌<◌, String, ◌≡◌, refl, sym, ap, subst, ◌∙◌, true, false, Option, none, some, inl,
  inr, arith, leb, ◌==◌, Option-cases, Bool-cases, nat_has_eq, string_has_eq,
}
use native.Mathlib.Nat.{le_refl}
use beacon_mcp.Base.Dict.{
  lookup, insert, erase, lookup-insert, lookup-erase, IsDict-insert, count-insert-le, count_mono,
  Every-insert, Every-map, Every-all,
}
use beacon_mcp.Transfers.{
  UploadLink, UploadLinkStore, uploading, is_pending, pending_at, prune, count_pending, Target,
  PushResult, issue, claim, finish, new_link, settled, max_pending_links,
}
use beacon_mcp.Transfers.Inv.{IsValid}
use beacon_mcp.Transfers.Prune.{prune-IsValid, prune-count, prune-Fresh, prune-Pruned, was_pending}

module _ (s : UploadLinkStore) (v : IsValid s) where
  -- A link is replaced by one that is not pending.
  module _ (ref : ℕ) (link : UploadLink) (done : is_pending link.status ≡ false) where
    put_waiting :
        (j : ℕ) → pending_at (insert ref link s.objects) j ≡ true → pending_at s.objects j ≡ true
    unfolding pending_at
    put_waiting j waits =
        ground (arith, lookup-insert ref j link s.objects, nat_has_eq.beq_iff ref j)

    put-IsValid : IsValid (record s { objects = insert ref link s.objects })
    put-IsValid = record {
      keys = v.keys;
      ids = v.ids;
      tokens = v.tokens;
      unfinished =
          λ j l found waits. ground (arith, v.unfinished j l, lookup-insert ref j link s.objects);
      listed = λ token j h waits. v.listed token j h (put_waiting j waits);
    }

    put-count : count_pending (record s { objects = insert ref link s.objects }) ≤ count_pending s
    unfolding count_pending
    put-count =
        count_mono _ (pending_at s.objects) s.by_id (Every-all _ s.by_id (λ _ j. put_waiting j))

  pop-IsValid : (token : String) → IsValid (record s { by_token = erase token s.by_token })
  pop-IsValid token = record {
    keys = v.keys;
    ids = v.ids;
    tokens = λ t ref h. v.tokens t ref (ground (arith, lookup-erase token t s.by_token));
    unfinished = v.unfinished;
    listed =
        λ t ref h waits. v.listed t ref (ground (arith, lookup-erase token t s.by_token)) waits;
  }

  -- A new object is added, under an id that is new.
  module _ (link_id token : String) (link : UploadLink) (fresh : lookup link_id s.by_id ≡ none)
      (clean : link.finished_at ≡ none) where
    abbrev added : UploadLinkStore
    added = record {
      objects = insert s.next link s.objects;
      next = s.next + 1;
      by_token = insert token s.next s.by_token;
      by_id = insert link_id s.next s.by_id;
    }

    add_same :
        (j : ℕ) → j < s.next → pending_at (insert s.next link s.objects) j ≡ pending_at s.objects j
    unfolding pending_at
    add_same j lt =
        ground (arith, lookup-insert s.next j link s.objects, nat_has_eq.beq_iff s.next j)

    add_listed :
        (t : String) (ref : ℕ)
        → lookup t added.by_token ≡ some ref
        → pending_at added.objects ref ≡ true
        → (j : String) × (lookup j added.by_id ≡ some ref)
    add_listed t ref h waits = elim (Bool-cases (token == t)) [
      | inl hit ↦ (
        link_id,
        ground (
          arith,
          lookup-insert token t s.next s.by_token,
          lookup-insert link_id link_id s.next s.by_id,
          string_has_eq.beq_iff link_id link_id,
        ),
      )
      | inr miss ↦
          let before : lookup t s.by_token ≡ some ref =
            ground (arith, lookup-insert token t s.next s.by_token) in
          let (j, known) =
            v.listed t ref before (sym (add_same ref (v.tokens t ref before)) ∙ waits) in
          (
            j,
            ground (
              arith,
              known,
              lookup-insert link_id j s.next s.by_id,
              string_has_eq.beq_iff link_id j,
            ),
          )
    ]

    add-IsValid : IsValid added
    add-IsValid = record {
      keys = IsDict-insert link_id s.next s.by_id v.keys;
      ids =
          Every-insert _ link_id s.next s.by_id (λ j same. omega arith)
            (Every-map _ _ s.by_id (λ j ref lt. omega arith) v.ids);
      tokens = λ t ref h. ground (arith, v.tokens t ref, lookup-insert token t s.next s.by_token);
      unfinished = λ j l found waits.
          ground (arith, v.unfinished j l, lookup-insert s.next j link s.objects);
      listed = add_listed;
    }

    add-count : count_pending added ≤ count_pending s + 1
    unfolding count_pending
    add-count =
        let old =
          count_mono (pending_at added.objects) (pending_at s.objects) s.by_id
            (Every-map _ _ s.by_id (λ j ref lt waits. sym (add_same ref lt) ∙ waits) v.ids) in
        ground (arith, old, count-insert-le (pending_at added.objects) link_id s.next s.by_id)

settled_done : (r : PushResult) → is_pending (settled r) ≡ false
settled_done r = ground arith

module _ (s0 : UploadLinkStore) (v0 : IsValid s0) where
  pub issue-IsValid :
      (t : Target) (ttl : ℕ) (link_id token : String) (now created : ℕ)
      → lookup link_id (prune now s0).by_id ≡ none
      → IsValid (issue t ttl link_id token now created s0).1
  unfolding issue new_link
  issue-IsValid t ttl link_id token now created fresh =
      let s = prune now s0 in
      let v = prune-IsValid now v0 in
      elim (Bool-cases (leb max_pending_links (count_pending s))) [
        | inl full ↦ rw (full, issue) v
        | inr room ↦
            rw (room, issue)
              (add-IsValid s v link_id token (new_link t ttl link_id token now created) fresh refl)
      ]

  pub issue-count :
      (t : Target) (ttl : ℕ) (link_id token : String) (now created : ℕ)
      → lookup link_id (prune now s0).by_id ≡ none
      → count_pending s0 ≤ max_pending_links
      → count_pending (issue t ttl link_id token now created s0).1 ≤ max_pending_links
  unfolding issue new_link
  issue-count t ttl link_id token now created fresh le =
      let s = prune now s0 in
      let v = prune-IsValid now v0 in
      let link = new_link t ttl link_id token now created in
      let pruned = prune-count now s0 in
      let grown = add-count s v link_id token link fresh refl in
      elim (Bool-cases (leb max_pending_links (count_pending s))) [
        | inl full ↦ rw (full, issue) (omega arith)
        | inr room ↦ rw (room, issue) (few (count_pending s) _ room grown)
      ]
    where
      few : (n m : ℕ) → leb max_pending_links n ≡ false → m ≤ n + 1 → m ≤ max_pending_links
      few n m room grown = ground arith

  pub finish-IsValid :
      (ref : ℕ) (result : PushResult) (now : ℕ) → IsValid (finish ref result now s0)
  unfolding finish
  finish-IsValid ref result now = elim (Option-cases (lookup ref s0.objects)) [
    | inl missing ↦ rw (missing, finish) v0
    | inr (link, found) ↦ rw (found, finish) (put-IsValid s0 v0 ref _ (settled_done result))
  ]

  pub finish-count :
      (ref : ℕ) (result : PushResult) (now : ℕ)
      → count_pending (finish ref result now s0) ≤ count_pending s0
  unfolding finish
  finish-count ref result now = elim (Option-cases (lookup ref s0.objects)) [
    | inl missing ↦ rw (missing, finish) (le_refl (count_pending s0))
    | inr (link, found) ↦ rw (found, finish) (put-count s0 v0 ref _ (settled_done result))
  ]

  module _ (token : String) (now : ℕ) where
    abbrev pruned : UploadLinkStore
    pruned = prune now s0

    abbrev popped : UploadLinkStore
    popped = record pruned { by_token = erase token pruned.by_token }

    popped-IsValid : IsValid popped
    popped-IsValid = pop-IsValid pruned (prune-IsValid now v0) token

    popped-count : count_pending popped ≤ count_pending s0
    unfolding count_pending
    popped-count = prune-count now s0

    -- What a claim answers and leaves, case by case.
    pub data Claimed : Option (ℕ × UploadLink) × UploadLinkStore → Type 0 where
      refused : Claimed (none, popped)
      given :
          (ref : ℕ) (link : UploadLink)
          → lookup token pruned.by_token ≡ some ref
          → lookup ref pruned.objects ≡ some link
          → is_pending link.status ≡ true
          → Claimed (
            some (ref, record link { status = uploading }),
            record popped {
              objects = insert ref (record link { status = uploading }) pruned.objects;
            },
          )

    pub claim-cases : Claimed (claim token now s0)
    unfolding claim
    claim-cases = elim (Option-cases (lookup token pruned.by_token)) [
      | inl missing ↦ rw (missing, claim) refused
      | inr (ref, known) ↦
          rw (known, claim)
            (elim (Option-cases (lookup ref pruned.objects)) [
              | inl missing ↦ rw missing refused
              | inr (link, found) ↦ rw found (elim (Bool-cases (is_pending link.status)) [
                | inl waits ↦ rw waits (given ref link known found waits)
                | inr settles ↦ rw settles refused
              ])
            ])
    ]

    pub Claimed-IsValid :
        (r : Option (ℕ × UploadLink) × UploadLinkStore)
        → Claimed r
        → IsValid r.1 × (count_pending r.1 ≤ count_pending s0)
    Claimed-IsValid r refused = (popped-IsValid, popped-count)
    Claimed-IsValid r (given ref link known found waits) = (
      put-IsValid popped popped-IsValid ref (record link { status = uploading }) refl,
      omega (
        arith,
        popped-count,
        put-count popped popped-IsValid ref (record link { status = uploading }) refl,
      ),
    )

    waits_at :
        (ref : ℕ) (link : UploadLink)
        → lookup ref pruned.objects ≡ some link
        → is_pending link.status ≡ true
        → pending_at pruned.objects ref ≡ true
    unfolding pending_at
    waits_at ref link found waits = ground (arith, found)

    given-fresh :
        (ref : ℕ) (link : UploadLink)
        → lookup token pruned.by_token ≡ some ref
        → lookup ref pruned.objects ≡ some link
        → is_pending link.status ≡ true
        → now < link.expires_at
    given-fresh ref link known found waits =
        let before : lookup token s0.by_token ≡ some ref =
          ground (arith, known, (prune-Pruned now v0).kept_tokens token) in
        let (link_id, listed) =
          v0.listed token ref before (was_pending now v0 ref (waits_at ref link found waits)) in
        prune-Fresh now v0 link_id ref listed link found waits

    pub Claimed-fresh :
        (r : Option (ℕ × UploadLink) × UploadLinkStore)
        → Claimed r
        → (ref : ℕ) (link : UploadLink) → r.0 ≡ some (ref, link)
        → now < link.expires_at
    Claimed-fresh r refused ref link h = cc
    Claimed-fresh r (given ref' link' known found waits) ref link h =
        subst (λ t. now < t) (ap expiry h) (given-fresh ref' link' known found waits)
      where
        expiry : Option (ℕ × UploadLink) → ℕ
        expiry none = 0
        expiry (some (j, l)) = l.expires_at
