-- ===== src/Dashboard/Slugs.antt =====
-- `DynamicSlugStore` of dashboard/dyn_reg.py: single-use slugs for registering a dynamic client.
pub mod Once
use beacon_mcp.Base.{
  ℕ, ◌+◌, String, Bool, true, false, ◌&&◌, not, Option, none, some, List, [], ◌∷◌, ltb, leb,
  is_some, is_some_of, if◌then◌else◌, string_has_eq, Result, ok, err, ◌==◌,
}
use beacon_mcp.Base.Dict.{Dict, lookup, insert, erase, retain, count, values}
use beacon_mcp.Clock.{seconds}

pub record DynamicSlug : Type 0 where
  pub slug : String
  pub label : String
  pub owner_client_id : String
  pub created_at : ℕ
  pub expires_at : ℕ
  pub used_at : Option ℕ
  pub resulting_client_id : Option String

-- The table `oauth_dynamic_slugs`, by its primary key.
abbrev pub Table : Type 0
Table = Dict String DynamicSlug

abbrev pub slug_ttl : ℕ
slug_ttl = seconds 900

pub data SlugError : Type 0 where
  integrity_error : SlugError
  already_consumed : String → SlugError

abbrev pub new_slug : String → String → String → ℕ → DynamicSlug
new_slug slug owner label now = record {
  slug = slug;
  label = label;
  owner_client_id = owner;
  created_at = now;
  expires_at = now + slug_ttl;
  used_at = none;
  resulting_client_id = none;
}

-- `mint`: the random slug is a primary key, so inserting one that is there raises.
pub mint : String → String → String → ℕ → Table → Result SlugError DynamicSlug × Table
mint slug owner label now table =
    if is_some (lookup slug table)
    then (err integrity_error, table)
    else (ok (new_slug slug owner label now), insert slug (new_slug slug owner label now) table)

-- `WHERE used_at IS NULL AND expires_at > now`
abbrev pub is_open : ℕ → DynamicSlug → Bool
is_open now row = not (is_some row.used_at) && ltb now row.expires_at

abbrev pub claimed : ℕ → String → DynamicSlug → DynamicSlug
claimed now client row = record row { used_at = some now; resulting_client_id = some client }

-- `consume`
unfoldable pub consume : String → String → ℕ → Table → Result SlugError DynamicSlug × Table
consume slug client now table = elim (lookup slug table) [
  | none ↦ (err (already_consumed slug), table)
  | some row ↦
      if is_open now row
      then (ok (claimed now client row), insert slug (claimed now client row) table)
      else (err (already_consumed slug), table)
]

-- `load`
abbrev pub load : String → Table → Option DynamicSlug
load slug table = lookup slug table

-- `delete_unused`
pub delete_unused : String → String → Table → Bool × Table
delete_unused slug owner table = elim (lookup slug table) [
  | none ↦ (false, table)
  | some row ↦
      if string_has_eq.beq row.owner_client_id owner && not (is_some row.used_at)
      then (true, erase slug table)
      else (false, table)
]

-- `WHERE used_at IS NULL AND expires_at < now`
abbrev pub is_rotten : ℕ → DynamicSlug → Bool
is_rotten now row = not (is_some row.used_at) && ltb row.expires_at now

-- `prune_expired`
pub prune_expired : ℕ → Table → ℕ × Table
prune_expired now table =
    (count (is_rotten now) table, retain (λ row. not (is_rotten now row)) table)

-- `find_by_client`: the first row that the client came from.
pub find_by_client : String → Table → Option DynamicSlug
find_by_client client [] = none
find_by_client client ((slug, row) ∷ table) =
    let rest = find_by_client client table in
    if is_some_of row.resulting_client_id client then some row else rest
