-- ===== src/Auth/Tokens/Histories.antt =====
-- Histories of calls of the token store of auth.py, at concrete inputs.
use beacon_mcp.Base.{ℕ, ◌≤◌, String, refl, false, none, some, [], ◌∷◌, arith, string_has_eq}
use beacon_mcp.Base.Dict.{lookup, insert, retain, count}
use beacon_mcp.Clock.{at, seconds}
use beacon_mcp.Auth.Tokens.Types.{AccessToken, RefreshToken, TokenStore}
use beacon_mcp.Auth.Tokens.Store.{issue, issue_token, cleanup, count_named, persist}
use beacon_mcp.Auth.Tokens.Oauth.{validate_oauth, issue_oauth, mint_oauth, prune_unknown_clients}
use beacon_mcp.Auth.Tokens.Calls.{none_yet, then_call, issues, signs_in}
use beacon_mcp.Auth.Tokens.Cap.{IsCapped, Calls-IsCapped}
use beacon_mcp.Auth.Tokens.Prune.{OnlyKnown, prune-OnlyKnown}
use beacon_mcp.Auth.Tokens.Startup.{init, open_store}
use beacon_mcp.Auth.Tokens.Bounds.Runs.{here, next, calls, validate_oauth-within_session}

abbrev plain : String → String
plain token = token

-- Every sign-in here starts at 0.
abbrev one_day : String → ℕ
one_day f = seconds 86400

abbrev started : TokenStore
started = record {
  tokens = [];
  oauth_tokens = [];
  refresh_tokens = [];
  db = none;
  named_token_ttl = 2592000;
  refresh_token_ttl = 86400;
}

abbrev signed_in : TokenStore
signed_in = (issue_oauth plain "claude" (some "family") "access" "refresh" 0 0 0 started).1

abbrev named_once : TokenStore
named_once = (issue "claude" (some "laptop") "bearer" 0 0 0 started).1

prune-OnlyKnown_example :
    OnlyKnown ("chatgpt" ∷ []) (prune_unknown_clients ("chatgpt" ∷ []) signed_in).1
prune-OnlyKnown_example = prune-OnlyKnown ("chatgpt" ∷ []) signed_in

Calls-IsCapped_example : IsCapped named_once
unfolding count
Calls-IsCapped_example =
    Calls-IsCapped {hash = plain} {ends = one_day} {s = started} {t = named_once}
      (then_call none_yet (issues "claude" (some "laptop") "bearer" 0 0 0 started))
      (λ client. omega arith)

abbrev access_token : AccessToken
access_token = record {
  token = "access";
  client_id = "claude";
  expires_at = at (seconds 86400);
  name = none;
  created_at = 0;
  family_id = some "family";
}

abbrev refresh_token : RefreshToken
refresh_token = record {
  token_hash = "refresh";
  client_id = "claude";
  family_id = "family";
  expires_at = seconds 86400;
  created_at = 0;
  family_expires_at = seconds 86400;
  used = false;
  used_at = 0;
  replay = none;
}

validate_oauth-within_session_example : seconds 60 ≤ one_day "family"
unfolding lookup insert retain init issue_oauth validate_oauth cleanup open_store
    beacon_mcp.Auth.Tokens.Store.cleanup_refresh beacon_mcp.Auth.Tokens.Store.cleanup_oauth
    beacon_mcp.Auth.Tokens.Store.cleanup_tokens mint_oauth
validate_oauth-within_session_example =
    validate_oauth-within_session plain one_day none none none 0 {s = started} {t = signed_in}
      "access" (seconds 60) access_token "family" "claude" tt refl
      (next here (calls (signs_in "claude" "family" "access" "refresh" 0 0 0 started refl))) refl
      refl refl
