-- ===== src/Oauth/Tests.antt =====
-- A sign-in through the endpoints of __main__.py, up to the tokens.
use beacon_mcp.Auth.Codes.{issue, consume, verify_pkce, cleanup}
use beacon_mcp.Auth.Clients.File.{maybe_reload}
use beacon_mcp.Base.{◌≤◌, ◌≡◌, refl, true, false, none, some, [], ◌∷◌, length}
use beacon_mcp.Base.Dict.{lookup, contains, insert, retain, erase}
use beacon_mcp.Base.Text.{codes, same_text}
use beacon_mcp.Clock.{seconds}
use beacon_mcp.Auth.Clients.Types.{Client, FileSig}
use beacon_mcp.Auth.Clients.Store.{
  check_totp, check_code, seed_of, matched_step, spend_step, verify,
}
use beacon_mcp.Auth.Tokens.Types.{TokenStore}
use beacon_mcp.Limits.Window.{RateLimiter, check, prune_bucket, get_bucket}
use beacon_mcp.Limits.Lockout.{default_lockout, locked}
use beacon_mcp.Dashboard.Passkeys.Service.{WebAuthn}
use beacon_mcp.Oauth.{AuthorizeParams, validate_authorize_params, consume_pending, issue_pending}
use beacon_mcp.Oauth.Server.{External, Server, approved, exists, reload}
use beacon_mcp.Oauth.Authorize.{
  Readings, AuthorizeRequest, authorize_post, authorize_finalize, known_client,
}
use beacon_mcp.Oauth.Grant.{TokenBody, Draws, TokenReadings, oauth_token}
use beacon_mcp.Oauth.Exchange.{exchanged}
use beacon_mcp.Oauth.Vetted.{IsVetted}
use beacon_mcp.Oauth.Approved.{Accepted, authorize_post-approved}
use beacon_mcp.Oauth.Factors.{totp_accepted}
use beacon_mcp.Oauth.Flow.{Log, InLog, Run, started, posted, finalized, asked, counted, noted}
use beacon_mcp.Oauth.Flow.Exchanges.{exchanges-le-approvals, exchange-approved}

abbrev no_webauthn : WebAuthn
no_webauthn = record {
  verify_registration_response = λ r e. none;
  verify_authentication_response = λ r e k n. none;
}

abbrev external : External
external = record {
  hash = λ s. s;
  s256 = λ s. some s;
  totp_verify = λ seed code now. true;
  isdigit = λ s. true;
  urlparse = λ t. some (record {
    scheme = codes "https";
    netloc = codes "a.io";
    hostname = some (codes "a.io");
    has_query = false;
  });
  webauthn = no_webauthn;
  allowed_origins = codes "https://a.io" ∷ [];
}

abbrev client : Client
client = record {
  client_id = "c";
  client_secret_hash = "sec";
  name = "C";
  created_at = 0;
  totp_secret = "seed";
  owner_client_id = none;
  registration_source = none;
  logo_uri = none;
  client_uri = none;
}

abbrev limiter : RateLimiter
limiter = record { limit = 10; window = seconds 60; buckets = []; last_gc = 0 }

abbrev tokens : TokenStore
tokens = record {
  tokens = [];
  oauth_tokens = [];
  refresh_tokens = [];
  db = none;
  named_token_ttl = 0;
  refresh_token_ttl = 86400;
}

abbrev server : Server
server = record {
  clients = record {
    store = record { clients = ("c", client) ∷ []; disk_sig = none; last_totp_step = [] };
    file = none;
  };
  login_limiter = limiter;
  token_limiter = limiter;
  lockout = default_lockout;
  codes = [];
  tokens = tokens;
  pending = [];
  passkeys = record { installed = false; store = none; challenges = [] };
}

abbrev params : AuthorizeParams
params = record {
  response_type = "code";
  client_id = "c";
  redirect_uri = "https://a.io/cb";
  state = "xyz";
  code_challenge = "v";
  code_challenge_method = "S256";
}

abbrev request : AuthorizeRequest
request = record { params = params; totp = "123456"; ip = "1.2.3.4" }

abbrev clock : Readings
clock = record {
  limiter = seconds 100;
  retry = seconds 100;
  retried = seconds 100;
  lock = seconds 100;
  totp = seconds 100;
  strike = seconds 100;
  relock = seconds 100;
  prune = seconds 100;
  issue = seconds 100;
}

abbrev sig : FileSig
sig = record { mtime_ns = 1; size = 1; inode = 1 }

abbrev after_post : Server
after_post = (authorize_post external request "ticket" clock sig server).1

approves :
    (authorize_post external request "ticket" clock sig server).0 ≡ approved "ticket" (seconds 700)
unfolding authorize_post validate_authorize_params exists contains maybe_reload same_text check
    prune_bucket get_bucket insert locked check_totp check_code seed_of matched_step spend_step
approves = refl

abbrev after_finalize : Server
after_finalize =
    (authorize_finalize "ticket" "code" (seconds 110) (seconds 110) (seconds 110) (seconds 110)
      after_post).1

abbrev body : TokenBody
body = record {
  grant_type = "authorization_code";
  client_id = "c";
  client_secret = "sec";
  totp = "";
  code = "code";
  redirect_uri = "https://a.io/cb";
  code_verifier = "v";
  refresh_token = "";
}

abbrev draws : Draws
draws = record { access = "access"; refresh = "refresh"; family = "family" }

abbrev token_clock : TokenReadings
token_clock = record {
  limiter = seconds 120;
  retry = seconds 120;
  retried = seconds 120;
  lock = seconds 120;
  check = seconds 120;
  strike = seconds 120;
  issue = seconds 120;
  mint = seconds 120;
  cleanup = seconds 120;
}

exchanges :
    exchanged
      (some body)
      (oauth_token external (some body) "1.2.3.4" draws token_clock sig after_finalize).0
    ≡ true
unfolding authorize_post validate_authorize_params exists contains maybe_reload same_text check
    prune_bucket get_bucket insert locked check_totp check_code seed_of matched_step spend_step
    authorize_finalize oauth_token lookup retain erase issue consume verify_pkce cleanup
    consume_pending issue_pending reload verify
exchanges = refl

abbrev log : Log
log = noted (totp_accepted external request clock sig server) (some params) []

run : Run external log 0 after_finalize
run =
    finalized "ticket" "code" (seconds 110) (seconds 110) (seconds 110) (seconds 110)
      (posted request "ticket" clock sig (started server refl refl))

exchange-approved_example :
    (p : AuthorizeParams) × InLog p log
    × ("c" ≡ p.client_id)
    × ("https://a.io/cb" ≡ p.redirect_uri)
    × (some "v" ≡ some p.code_challenge)
exchange-approved_example =
    exchange-approved external body "1.2.3.4" draws token_clock sig run exchanges

exchanges-le-approvals_example :
    counted
      (exchanged
        (some body)
        (oauth_token external (some body) "1.2.3.4" draws token_clock sig after_finalize).0)
      0
    ≤ length log
exchanges-le-approvals_example =
    exchanges-le-approvals external (asked (some body) "1.2.3.4" draws token_clock sig run)

authorize_post-approved_example :
    let (known, s') = known_client external params sig server in
    (known ≡ true)
    × IsVetted external.urlparse external.allowed_origins params
    × Accepted external request params clock sig s'
authorize_post-approved_example =
    authorize_post-approved external request "ticket" "ticket" (seconds 700) clock sig server
      approves
