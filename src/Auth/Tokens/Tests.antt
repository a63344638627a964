-- ===== src/Auth/Tokens/Tests.antt =====
-- The token store of auth.py at concrete inputs.
use beacon_mcp.Base.{
  String, ◌≡◌, ◌≢◌, refl, true, false, none, some, [], ◌∷◌, arith, ok, err, inl, string_has_eq,
  ne_of_false,
}
use Prim.Native.String.{◌++◌ as joined}
use beacon_mcp.Base.Dict.{lookup, Every}
use beacon_mcp.Clock.{at, seconds}
use beacon_mcp.Auth.Tokens.Types.{AccessToken, RefreshToken, Db, TokenStore, OauthGrant, reused}
use beacon_mcp.Auth.Tokens.Oauth.{refresh, validate, revoke}
use beacon_mcp.Auth.Tokens.Startup.{init_db}
use beacon_mcp.Auth.Tokens.Reuse.{refresh-reuse, FamilyGone}
use beacon_mcp.Auth.Tokens.Rotation.{refresh-single_use, refresh-pair_works}
use beacon_mcp.Auth.Tokens.Revocation.{revoke-restart, revoke-ends_family, NoRefreshRows}

abbrev digest : String → String
digest token = joined "#" token

abbrev fresh_token : RefreshToken
fresh_token = record {
  token_hash = "#old";
  client_id = "claude";
  family_id = "family";
  expires_at = seconds 900;
  created_at = 0;
  family_expires_at = seconds 86400;
  used = false;
  used_at = 0;
  replay = none;
}

abbrev used_token : RefreshToken
used_token = record fresh_token { used = true; used_at = seconds 10 }

abbrev bearer : AccessToken
bearer = record {
  token = "#bearer";
  client_id = "claude";
  expires_at = at (seconds 900);
  name = none;
  created_at = 0;
  family_id = some "family";
}

abbrev empty_file : Db
empty_file = record { named = []; oauth = []; refresh = [] }

abbrev store_of : RefreshToken → TokenStore
store_of r = record {
  tokens = [];
  oauth_tokens = ("#bearer", bearer) ∷ [];
  refresh_tokens = ("#old", r) ∷ [];
  db = some empty_file;
  named_token_ttl = 2592000;
  refresh_token_ttl = 86400;
}

refresh-reuse_example :
    let (result, s') =
      refresh digest "old" "claude" "access" "new"
        (seconds 80)
        (seconds 80)
        (seconds 80)
        (store_of used_token) in
    (result ≡ err (reused "family")) × FamilyGone "family" s'
unfolding lookup
refresh-reuse_example =
    refresh-reuse digest "old" "claude" "access" "new" (seconds 80) (seconds 80) (seconds 80)
      (store_of used_token) used_token refl refl refl (omega arith) (inl refl)

refresh-single_use_example :
    let s' =
      (refresh digest "old" "claude" "access" "new"
        (seconds 80)
        (seconds 80)
        (seconds 80)
        (store_of fresh_token)).1 in
    let (result, s'') =
      refresh digest "old" "claude" "access2" "new2" (seconds 200) (seconds 200) (seconds 200) s' in
    (result ≡ err (reused "family")) × FamilyGone "family" s''
unfolding lookup
refresh-single_use_example =
    refresh-single_use digest "old" "claude" "access" "new" (seconds 80) (seconds 80) (seconds 80)
      (store_of fresh_token) fresh_token (refl, tt) (ne_of_false {A = String} "#new" "#old" refl)
      (omega arith) refl refl refl (omega arith) (omega arith) "access2" "new2" (seconds 200)
      (seconds 200) (seconds 200) (omega arith) (omega arith) (omega arith)

refresh-pair_works_example :
    let (result, s') =
      refresh digest "old" "claude" "access" "new"
        (seconds 80)
        (seconds 80)
        (seconds 80)
        (store_of fresh_token) in
    (g : OauthGrant) × (next : OauthGrant) × (result ≡ ok g)
    × (g.access_token ≡ "access")
    × (g.refresh_token ≡ some "new")
    × ((validate digest "access" (seconds 300) s').0 ≡ some "claude")
    × ((refresh digest "new" "claude" "access2" "new2"
          (seconds 200)
          (seconds 200)
          (seconds 200)
          s').0
        ≡ ok next)
unfolding lookup
refresh-pair_works_example =
    refresh-pair_works digest "old" "claude" "access" "new" (seconds 80) (seconds 80) (seconds 80)
      (store_of fresh_token) fresh_token (refl, tt) (ne_of_false {A = String} "#new" "#old" refl)
      (omega arith) refl refl refl (omega arith) (omega arith) "access2" "new2" (seconds 200)
      (seconds 200) (seconds 200) (seconds 300) (refl, tt) refl (omega arith) (omega arith)
      (omega arith) (omega arith) (omega arith)

revoke-restart_example :
    let s' = (revoke digest "bearer" (seconds 50) (store_of fresh_token)).1 in
    (d' : Db) × (s'.db ≡ some d')
    × ((validate digest "bearer" (seconds 52) (init_db (seconds 51) d' s')).0 ≡ none)
unfolding lookup
revoke-restart_example =
    revoke-restart digest "bearer" (seconds 50) (seconds 51) (seconds 52) (store_of fresh_token)
      bearer empty_file refl refl refl refl

revoke-ends_family_example :
    let (found, s') = revoke digest "bearer" (seconds 50) (store_of fresh_token) in
    (found ≡ true)
    × Every (λ _ r. r.family_id ≢ "family") s'.refresh_tokens
    × NoRefreshRows "family" s'.db
unfolding lookup
revoke-ends_family_example =
    revoke-ends_family digest "bearer" "family" (seconds 50) (store_of fresh_token) bearer refl refl
      refl
