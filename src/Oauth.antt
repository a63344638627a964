-- ===== src/Oauth.antt =====
-- The OAuth endpoints that `_run_http` of __main__.py puts over the stores of auth.py: the parameters
-- of an authorization and the approvals that wait for their code. A page and its JSON form are one
-- answer.
pub mod Server
pub mod Authorize
pub mod Passkey
pub mod Grant
pub mod Vetted
pub mod Approved
pub mod Ceremony
pub mod Factors
pub mod Exchange
pub mod Flow
pub mod Bearer
mod Tests
use beacon_mcp.Base.{
  ℕ, ◌+◌, String, Bool, true, false, not, ◌&&◌, ◌||◌, Option, none, some, List, [], ◌∷◌, ◌++◌,
  Result, ok, err, ltb, leb, if◌then◌else◌, ◌==◌, string_has_eq, is_some,
}
use beacon_mcp.Base.Dict.{Dict, lookup, contains, insert, erase, retain}
use beacon_mcp.Base.Text.{Text, text_has_eq, codes, nonempty, strip, lower, starts_with, ends_with}
use beacon_mcp.Clock.{seconds}

-- What `urlparse` of the standard library reads in an address.
pub record ParsedUrl : Type 0 where
  pub scheme : Text
  pub netloc : Text
  pub hostname : Option Text
  pub has_query : Bool

abbrev pub is_loopback : Text → Bool
is_loopback host = host == codes "localhost" || host == codes "127.0.0.1" || host == codes "::1"

-- `any(redirect_uri.startswith(p) for p in TRUSTED_CUSTOM_SCHEME_PREFIXES)`
unfoldable pub is_custom_scheme : Text → Bool
unfolding starts_with
is_custom_scheme uri =
    starts_with (codes "vscode://") uri
    || starts_with (codes "vscode-insiders://") uri
    || starts_with (codes "cursor://") uri

-- `origin if origin.endswith("/") else origin + "/"`
unfoldable pub origin_prefix : Text → Text
unfolding ends_with
origin_prefix origin = if ends_with (codes "/") origin then origin else origin ++ codes "/"

-- The loop over the allowed origins.
unfoldable pub has_allowed_origin : Text → List Text → Bool
unfolding origin_prefix strip starts_with
has_allowed_origin uri [] = false
has_allowed_origin uri (origin ∷ origins) =
    (nonempty (strip origin) && starts_with (origin_prefix (strip origin)) uri)
    || has_allowed_origin uri origins

abbrev pub host_of : ParsedUrl → Text
host_of url = elim url.hostname [ none ↦ [] | some h ↦ h ]

-- The parameters of an authorization request, "" where one is missing.
pub record AuthorizeParams : Type 0 where
  pub response_type : String
  pub client_id : String
  pub redirect_uri : String
  pub state : String
  pub code_challenge : String
  pub code_challenge_method : String

pub data ParamError : Type 0 where
  unsupported_response_type : ParamError
  unauthorized_client : ParamError
  not_absolute : ParamError
  not_https : ParamError
  untrusted_origin : ParamError
  pkce_required : ParamError
  url_error : ParamError  -- the ValueError of `urlparse`, which the handler lets through

module _ (urlparse : Text → Option ParsedUrl) (allowed_origins : List Text) where
  -- `is_trusted_redirect_uri` of auth.py
  unfoldable pub is_trusted_redirect_uri : String → Bool
  unfolding strip is_custom_scheme has_allowed_origin lower
  is_trusted_redirect_uri redirect_uri =
      let uri = strip (codes redirect_uri) in
      if not (nonempty uri)
      then false
      else if is_custom_scheme uri
      then true
      else elim (urlparse uri) [
        | none ↦ false
        | some parsed ↦
            if parsed.scheme == codes "http"
            then is_loopback (lower (strip (host_of parsed)))
            else has_allowed_origin uri allowed_origins
      ]

  -- `_validate_authorize_params` from the parsed redirect address on.
  unfoldable pub validate_redirect : AuthorizeParams → ParsedUrl → Result ParamError AuthorizeParams
  unfolding is_trusted_redirect_uri
  validate_redirect params parsed =
      if not (parsed.scheme == codes "https" || parsed.scheme == codes "http")
        || not (nonempty parsed.netloc)
      then err not_absolute
      else if parsed.scheme == codes "http" && not (is_loopback (host_of parsed))
      then err not_https
      else if not (is_trusted_redirect_uri params.redirect_uri)
      then err untrusted_origin
      else if params.code_challenge == "" || not (params.code_challenge_method == "S256")
      then err pkce_required
      else ok params

  -- `_validate_authorize_params`, where `known` is what `exists` answers.
  unfoldable pub validate_authorize_params :
      AuthorizeParams → Bool → Result ParamError AuthorizeParams
  unfolding validate_redirect
  validate_authorize_params params known =
      if not (params.response_type == "code")
      then err unsupported_response_type
      else if params.client_id == "" || not known
      then err unauthorized_client
      else elim (urlparse (codes params.redirect_uri)) [
        | none ↦ err url_error
        | some parsed ↦ validate_redirect params parsed
      ]

-- `pending_authorizations`: the approvals that cleared the second factor, by ticket.
abbrev pub PendingAuthorizations : Type 0
PendingAuthorizations = Dict String (AuthorizeParams × ℕ)

abbrev pub pending_authorization_ttl : ℕ
pending_authorization_ttl = 600

-- `_prune_pending`
unfoldable pub prune_pending : ℕ → PendingAuthorizations → PendingAuthorizations
prune_pending now pending = retain (λ entry. not (ltb entry.1 now)) pending

-- `_issue_pending`; `ticket` is the value drawn.
unfoldable pub issue_pending :
    AuthorizeParams → String → ℕ → ℕ → PendingAuthorizations → PendingAuthorizations
unfolding prune_pending
issue_pending params ticket t0 t1 pending =
    insert ticket (params, t1 + seconds pending_authorization_ttl) (prune_pending t0 pending)

abbrev pub unless_late : ℕ → Option (AuthorizeParams × ℕ) → Option AuthorizeParams
unless_late now none = none
unless_late now (some (params, expires_at)) = if leb now expires_at then some params else none

-- `_consume_pending`
unfoldable pub consume_pending :
    String → ℕ → ℕ → PendingAuthorizations → Option AuthorizeParams × PendingAuthorizations
unfolding prune_pending
consume_pending ticket t0 t1 pending =
    let pruned = prune_pending t0 pending in
    (unless_late t1 (lookup ticket pruned), erase ticket pruned)

-- `_peek_pending`
unfoldable pub peek_pending :
    String → ℕ → ℕ → PendingAuthorizations → Option AuthorizeParams × PendingAuthorizations
unfolding prune_pending
peek_pending ticket t0 t1 pending =
    let pruned = prune_pending t0 pending in (unless_late t1 (lookup ticket pruned), pruned)
