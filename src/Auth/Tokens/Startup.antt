-- ===== src/Auth/Tokens/Startup.antt =====
-- `TokenStore.__init__`, `_init_db` and `_bound_legacy_sessions`: what a restart reads back.
use beacon_mcp.Base.{
  ℕ, ◌+◌, min, String, Bool, true, not, ◌&&◌, Option, none, some, List, [], ◌∷◌, map, ltb, leb,
  if◌then◌else◌, ◌==◌, string_has_eq, select, Result, ok, err,
}
use beacon_mcp.Base.Dict.{Dict, retain, map_values, values}
use beacon_mcp.Clock.{seconds, Deadline, at, never}
use beacon_mcp.Auth.Tokens.Types.{
  AccessToken, RefreshToken, RefreshRow, Db, TokenStore, session_lifetime, default_named_token_ttl,
  default_refresh_token_ttl,
}

-- `MIN(...)` of a column: NULL when no row matches.
unfoldable pub least : List ℕ → Option ℕ
least [] = none
least (n ∷ ns) = elim (least ns) [ none ↦ some n | some m ↦ some (min n m) ]

abbrev in_family : String → RefreshRow → Bool
in_family f r = r.family_id == f

-- The first UPDATE: a row with no session end gets that of its family's first token.
unfoldable pub bound_legacy_row : List RefreshRow → RefreshRow → RefreshRow
unfolding least
bound_legacy_row rows r = elim r.family_expires_at [
  | some t ↦ r
  | none ↦
      let first = least (map (λ q. q.created_at) (select (in_family r.family_id) rows)) in
      record r {
        family_expires_at = elim first [
          | none ↦ none
          | some t ↦ some (seconds session_lifetime + t)
        ];
      }
]

-- The second UPDATE; `MIN(x, NULL)` is NULL, and no row has NULL after the first.
unfoldable pub cap_refresh_row : RefreshRow → RefreshRow
cap_refresh_row r = elim r.family_expires_at [
  | none ↦ r
  | some t ↦ record r { expires_at = min r.expires_at t }
]

abbrev row_ends : List RefreshRow → List ℕ
row_ends [] = []
row_ends (r ∷ rs) = elim r.family_expires_at [ none ↦ row_ends rs | some t ↦ t ∷ row_ends rs ]

unfoldable pub sooner_of : Deadline → Option ℕ → Deadline
sooner_of d none = d
sooner_of (at t) (some e) = at (min t e)
sooner_of never (some e) = at e

-- The third UPDATE.
unfoldable pub cap_oauth_row : List RefreshRow → AccessToken → AccessToken
unfolding least sooner_of
cap_oauth_row rows a = elim a.family_id [
  | none ↦ a
  | some f ↦ record a {
    expires_at = sooner_of a.expires_at (least (row_ends (select (in_family f) rows)));
  }
]

unfoldable pub bound_legacy_sessions : Db → Db
unfolding bound_legacy_row cap_refresh_row cap_oauth_row
bound_legacy_sessions d =
    let rows = map_values (bound_legacy_row (values d.refresh)) d.refresh in
    let capped = map_values cap_refresh_row rows in
    record d { refresh = capped; oauth = map_values (cap_oauth_row (values capped)) d.oauth }

-- `WHERE expires_at > now`
unfoldable pub unexpired : ℕ → AccessToken → Bool
unexpired now a = elim a.expires_at [ at t ↦ ltb now t | never ↦ true ]

-- A row read back; a row with no session end cannot occur here.
unfoldable pub load_row : RefreshRow → RefreshToken
load_row r = record {
  token_hash = r.token_hash;
  client_id = r.client_id;
  family_id = r.family_id;
  expires_at = r.expires_at;
  created_at = r.created_at;
  family_expires_at = elim r.family_expires_at [ none ↦ 0 | some t ↦ t ];
  used = r.used;
  used_at = 0;
  replay = none;
}

unfoldable pub load_rows : Dict String RefreshRow → Dict String RefreshToken
unfolding load_row
load_rows [] = []
load_rows ((k, r) ∷ rows) = (k, load_row r) ∷ load_rows rows

-- `_init_db` at the reading `now`, over a file that opens.
unfoldable pub init_db : ℕ → Db → TokenStore → TokenStore
unfolding bound_legacy_sessions unexpired load_rows
init_db now file s =
    let bounded = bound_legacy_sessions file in
    let kept : Db = record {
      named = retain (unexpired now) bounded.named;
      oauth = retain (unexpired now) bounded.oauth;
      refresh = retain (λ r. ltb now r.expires_at) bounded.refresh;
    } in
    record s {
      tokens = kept.named;
      oauth_tokens = kept.oauth;
      refresh_tokens = load_rows kept.refresh;
      db = some kept;
    }

pub data ValueError : Type 0 where
  bad_refresh_token_ttl : ValueError

abbrev pub or_default : Option ℕ → ℕ → ℕ
or_default none d = d
or_default (some n) d = n

-- The fields that `__init__` sets.
abbrev pub empty_store : ℕ → ℕ → TokenStore
empty_store named_ttl refresh_ttl = record {
  tokens = [];
  oauth_tokens = [];
  refresh_tokens = [];
  db = none;
  named_token_ttl = named_ttl;
  refresh_token_ttl = refresh_ttl;
}

-- The rows of the file, if there is one.
unfoldable pub open_store : Option Db → ℕ → TokenStore → TokenStore
unfolding init_db
open_store none now s = s
open_store (some d) now s = init_db now d s

-- `__init__`: with a file, `now` is the reading of `_init_db`.
unfoldable pub init : Option Db → Option ℕ → Option ℕ → ℕ → Result ValueError TokenStore
init file named_token_ttl refresh_token_ttl now =
    let named_ttl = or_default named_token_ttl default_named_token_ttl in
    let refresh_ttl = or_default refresh_token_ttl default_refresh_token_ttl in
    if not (ltb 0 refresh_ttl && leb refresh_ttl session_lifetime)
    then err bad_refresh_token_ttl
    else ok (open_store file now (empty_store named_ttl refresh_ttl))
