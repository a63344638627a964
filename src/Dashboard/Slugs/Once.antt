-- ===== src/Dashboard/Slugs/Once.antt =====
-- Claims of a slug, over runs of calls of `DynamicSlugStore`.
use beacon_mcp.Base.{
  ℕ, ◌<◌, String, ◌≡◌, ap, ◌↔◌, true, not, none, some, List, [], ◌∷◌, arith, is_some, string_has_eq,
  ok, err, Option-cases, inl, inr,
}
use beacon_mcp.Base.Dict.{
  lookup, IsDict, IsDict-insert, IsDict-erase, IsDict-retain, lookup-insert, lookup-erase,
  lookup-retain,
}
use beacon_mcp.Dashboard.Slugs.{
  DynamicSlug, Table, new_slug, already_consumed, mint, claimed, consume, delete_unused, is_rotten,
  prune_expired,
}

-- A call of the store.
pub data Call : Type 0 where
  minting : String → String → String → ℕ → Call
  consuming : String → String → ℕ → Call
  deleting : String → String → Call
  pruning : ℕ → Call

pub call : Call → Table → Table
unfolding mint consume delete_unused prune_expired
call (minting slug owner label now) table = (mint slug owner label now table).1
call (consuming slug client now) table = (consume slug client now table).1
call (deleting slug owner) table = (delete_unused slug owner table).1
call (pruning now) table = (prune_expired now table).1

pub calls : List Call → Table → Table
unfolding call
calls [] table = table
calls (c ∷ cs) table = calls cs (call c table)

consume-IsDict :
    (slug client : String) (now : ℕ) (table : Table)
    → IsDict table
    → IsDict (consume slug client now table).1
unfolding consume
consume-IsDict slug client now table d = elim (Option-cases (lookup slug table)) [
  | inl missing ↦ ground (arith, missing, d)
  | inr (row, there) ↦ ground (arith, there, d, IsDict-insert slug (claimed now client row) table d)
]

call-IsDict : (c : Call) (table : Table) → IsDict table → IsDict (call c table)
unfolding call
call-IsDict (minting s owner label now) table d =
    ground (arith, d, IsDict-insert s (new_slug s owner label now) table d)
call-IsDict (consuming s client now) table d = consume-IsDict s client now table d
call-IsDict (deleting s owner) table d = ground (arith, d, IsDict-erase s table d)
call-IsDict (pruning now) table d = IsDict-retain (λ row. not (is_rotten now row)) table d

-- The row of a slug once it is used: it never changes again.
call-keeps :
    (c : Call) (table : Table) (slug : String) (row : DynamicSlug)
    → IsDict table
    → lookup slug table ≡ some row
    → is_some row.used_at ≡ true
    → lookup slug (call c table) ≡ some row
unfolding call
call-keeps (minting s owner label now) table slug row d found used = ground (
  arith,
  found,
  lookup-insert s slug (new_slug s owner label now) table,
  string_has_eq.beq_iff s slug,
)
call-keeps (consuming s client now) table slug row d found used =
    elim (Option-cases (lookup s table)) [
      | inl missing ↦ rw (missing, call, consume) found
      | inr (old, there) ↦
          rw (there, call, consume)
            (ground (
              arith,
              found,
              there,
              lookup-insert s slug (claimed now client old) table,
              string_has_eq.beq_iff s slug,
            ))
    ]
call-keeps (deleting s owner) table slug row d found used =
    ground (arith, found, lookup-erase s slug table, string_has_eq.beq_iff s slug)
call-keeps (pruning now) table slug row d found used =
    ground (arith, found, lookup-retain slug (λ r. not (is_rotten now r)) table d)

calls-keep :
    (cs : List Call) (table : Table) (slug : String) (row : DynamicSlug)
    → IsDict table
    → lookup slug table ≡ some row
    → is_some row.used_at ≡ true
    → lookup slug (calls cs table) ≡ some row
unfolding calls
calls-keep [] table slug row d found used = found
calls-keep (c ∷ cs) table slug row d found used =
    calls-keep cs (call c table) slug row (call-IsDict c table d)
      (call-keeps c table slug row d found used) used

-- `consume` answers a row just when the slug is there, has not been used and has not expired, and the
-- row then carries the time and the new client.
pub slug-consume_iff :
    (slug client : String) (now : ℕ) (table : Table) (row : DynamicSlug)
    → ((consume slug client now table).0 ≡ ok row) ↔ (
        (old : DynamicSlug) × (lookup slug table ≡ some old)
        × (old.used_at ≡ none)
        × (now < old.expires_at)
        × (row ≡ claimed now client old))
unfolding consume
slug-consume_iff slug client now table row = (
  λ h. elim (Option-cases (lookup slug table)) [
    | inl missing ↦ ground (arith, missing)
    | inr (old, there) ↦
        (old, there, ground (arith, there), ground (arith, there), ground (arith, there))
  ],
  λ (old, there, unused, open_still, same). ground (arith, there),
)

consume-used :
    (slug client : String) (now : ℕ) (table : Table) (row : DynamicSlug)
    → lookup slug table ≡ some row
    → is_some row.used_at ≡ true
    → (consume slug client now table).0 ≡ err (already_consumed slug)
unfolding consume
consume-used slug client now table row found used = ground (arith, found)

-- Once a slug is consumed, on a table whose keys are distinct, whatever mints, claims, deletions and
-- prunings follow, the row stays as the claim left it, and a further claim of the slug is refused.
pub slug-consume_once :
    (slug client again : String) (now later : ℕ) (table : Table) (row : DynamicSlug)
    (cs : List Call)
    → IsDict table
    → (consume slug client now table).0 ≡ ok row
    → let after = calls cs (consume slug client now table).1 in
      (lookup slug after ≡ some row)
      × ((consume slug again later after).0 ≡ err (already_consumed slug))
unfolding consume
slug-consume_once slug client again now later table row cs d h =
    let (old, there, unused, open_still, same) = (slug-consume_iff slug client now table row).0 h in
    let new = claimed now client old in
    let d' = consume-IsDict slug client now table d in
    let used : is_some row.used_at ≡ true = ap (λ r. is_some r.used_at) same in
    let written : lookup slug (consume slug client now table).1 ≡ some row =
      ground (arith, there, lookup-insert slug slug new table, string_has_eq.beq_iff slug slug) in
    let stays = calls-keep cs (consume slug client now table).1 slug row d' written used in
    (
      stays,
      consume-used slug again later (calls cs (consume slug client now table).1) row stays used,
    )
