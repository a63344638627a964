-- ===== src/Oauth/Approved.antt =====
-- What an approval on the authorize page of __main__.py took, and what the endpoints change.
use beacon_mcp.Base.{
  ℕ, ◌+◌, String, ◌≡◌, refl, ap, subst, ◌∙◌, ◌⊎◌, inl, inr, true, false, some, Result, ok, err,
  arith, Bool-cases, string_has_eq,
}
use beacon_mcp.Clock.{seconds}
use beacon_mcp.Auth.Clients.Types.{FileSig}
use beacon_mcp.Auth.Clients.Store.{TotpResult, valid, wrong, replay, check_totp}
use beacon_mcp.Limits.Window.{check}
use beacon_mcp.Limits.Lockout.{locked}
use beacon_mcp.Oauth.{
  AuthorizeParams, ParamError, validate_authorize_params, issue_pending, pending_authorization_ttl,
}
use beacon_mcp.Oauth.Server.{External, Server, Response, approved, reload, exists, seed_owner}
use beacon_mcp.Oauth.Authorize.{
  Readings, AuthorizeRequest, authorize_approved, authorize_failed, after_totp, try_totp,
  known_client, after_validation, authorize_post,
}
use beacon_mcp.Oauth.Vetted.{IsVetted, validate-IsVetted}

-- Approvals and codes are as they were.
abbrev pub Untouched : Server → Server → Type 0
Untouched s t = (t.pending ≡ s.pending) × (t.codes ≡ s.codes)

pub reload-Untouched : (sig : FileSig) (s : Server) → Untouched s (reload sig s)
unfolding reload
reload-Untouched sig s = ground arith

pub known_client-Untouched :
    (external : External) (p : AuthorizeParams) (sig : FileSig) (s : Server)
    → Untouched s (known_client external p sig s).1
unfolding known_client exists
known_client-Untouched external p sig s = ground (arith, reload-Untouched sig s)

-- Either the answer is no approval and nothing is pending that was not, or it is one, for `p`.
abbrev pub Decides : AuthorizeParams → String → Readings → Server → Response × Server → Type 0
Decides p ticket clock s (r, t) =
    (t.codes ≡ s.codes)
    × ((t.pending ≡ s.pending)
        ⊎ ((r ≡ approved ticket (clock.issue + seconds pending_authorization_ttl))
            × (t.pending ≡ issue_pending p ticket clock.prune clock.issue s.pending)))

pub after_totp-Decides :
    (result : TotpResult) (p : AuthorizeParams) (ip ticket : String) (clock : Readings) (s : Server)
    → Decides p ticket clock s (after_totp result p ip ticket clock s)
unfolding after_totp authorize_approved authorize_failed
after_totp-Decides valid p ip ticket clock s = (refl, inr (refl, refl))
after_totp-Decides wrong p ip ticket clock s = (refl, inl refl)
after_totp-Decides replay p ip ticket clock s = (refl, inl refl)

after_totp-approved :
    (result : TotpResult) (p : AuthorizeParams) (ip ticket k : String) (e : ℕ) (clock : Readings)
    (s : Server)
    → (after_totp result p ip ticket clock s).0 ≡ approved k e
    → result ≡ valid
unfolding after_totp authorize_failed
after_totp-approved valid p ip ticket k e clock s h = refl
after_totp-approved wrong p ip ticket k e clock s h = cc
after_totp-approved replay p ip ticket k e clock s h = cc

module _ (external : External) where
  open external use {totp_verify, isdigit, urlparse, allowed_origins, webauthn}

  try_totp-Decides :
      (request : AuthorizeRequest) (p : AuthorizeParams) (ticket : String) (clock : Readings)
      (sig : FileSig) (s : Server)
      → Decides p ticket clock s (try_totp external request p ticket clock sig s)
  unfolding try_totp
  try_totp-Decides request p ticket clock sig s =
      let (free, limiter) = check request.ip clock.limiter s.login_limiter in
      let s1 = record s { login_limiter = limiter } in
      let (is_locked, lockout) =
        locked (seed_owner p.client_id s1.clients) (some request.ip) clock.lock s1.lockout in
      let (result, world) =
        check_totp totp_verify isdigit p.client_id request.totp clock.totp sig s.clients in
      elim (Bool-cases free) [
        | inr busy ↦ rw busy (refl, inl refl)
        | inl go ↦ rw go (elim (Bool-cases is_locked) [
          | inl out ↦ rw out (refl, inl refl)
          | inr open_ ↦ rw open_ (
              after_totp-Decides result p request.ip ticket clock
                (record s1 { lockout = lockout; clients = world }))
        ])
      ]

  after_validation-Decides :
      (checked : Result ParamError AuthorizeParams) (request : AuthorizeRequest) (ticket : String)
      (clock : Readings) (sig : FileSig) (s0 s : Server)
      → ((q : AuthorizeParams) → checked ≡ ok q → q ≡ request.params)
      → Untouched s0 s
      → Decides request.params ticket clock s0
          (after_validation external checked request ticket clock sig s)
  unfolding after_validation
  after_validation-Decides (err e) request ticket clock sig s0 s own same = (same.1, inl same.0)
  after_validation-Decides (ok p) request ticket clock sig s0 s own same =
      let decided = try_totp-Decides request p ticket clock sig s in
      (
        decided.0 ∙ same.1,
        elim decided.1 [
          | inl kept ↦ inl (kept ∙ same.0)
          | inr (answer, added) ↦ inr (
            answer,
            added
                ∙ ap (λ q. issue_pending q ticket clock.prune clock.issue s.pending) (own p refl)
                ∙ ap (issue_pending request.params ticket clock.prune clock.issue) same.0,
          )
        ],
      )

  -- `authorize_post` changes the approvals by an approval for its own parameters, and no codes.
  pub authorize_post-Decides :
      (request : AuthorizeRequest) (ticket : String) (clock : Readings) (sig : FileSig) (s : Server)
      → Decides request.params ticket clock s (authorize_post external request ticket clock sig s)
  unfolding authorize_post
  authorize_post-Decides request ticket clock sig s =
      let (known, s') = known_client external request.params sig s in
      after_validation-Decides
        (validate_authorize_params urlparse allowed_origins request.params known) request ticket
        clock sig s s'
        (λ q h. (validate-IsVetted urlparse allowed_origins request.params q known h).0)
        (known_client-Untouched external request.params sig s)

  -- The checks that a code passes: the limit of the address, the lockout, and the code itself.
  abbrev pub Accepted : AuthorizeRequest → AuthorizeParams → Readings → FileSig → Server → Type 0
  Accepted request p clock sig s =
      ((check request.ip clock.limiter s.login_limiter).0 ≡ true)
      × ((locked (seed_owner p.client_id s.clients) (some request.ip) clock.lock s.lockout).0
          ≡ false)
      × ((check_totp totp_verify isdigit p.client_id request.totp clock.totp sig s.clients).0
          ≡ valid)

  try_totp-approved :
      (request : AuthorizeRequest) (p : AuthorizeParams) (ticket k : String) (e : ℕ)
      (clock : Readings) (sig : FileSig) (s : Server)
      → (try_totp external request p ticket clock sig s).0 ≡ approved k e
      → Accepted request p clock sig s
  unfolding try_totp
  try_totp-approved request p ticket k e clock sig s h =
      let (free, limiter) = check request.ip clock.limiter s.login_limiter in
      let s1 = record s { login_limiter = limiter } in
      let (is_locked, lockout) =
        locked (seed_owner p.client_id s.clients) (some request.ip) clock.lock s.lockout in
      let (result, world) =
        check_totp totp_verify isdigit p.client_id request.totp clock.totp sig s.clients in
      ground (
        arith,
        after_totp-approved result p request.ip ticket k e clock
            (record s1 { lockout = lockout; clients = world }),
      )

  after_validation-approved :
      (checked : Result ParamError AuthorizeParams) (request : AuthorizeRequest) (ticket k : String)
      (e : ℕ) (clock : Readings) (sig : FileSig) (s : Server)
      → (after_validation external checked request ticket clock sig s).0 ≡ approved k e
      → (p : AuthorizeParams) × (checked ≡ ok p) × Accepted request p clock sig s
  unfolding after_validation
  after_validation-approved (err e') request ticket k e clock sig s h = cc
  after_validation-approved (ok p) request ticket k e clock sig s h =
      (p, refl, try_totp-approved request p ticket k e clock sig s h)

  -- The authorize page approves only valid parameters of a known client, when the address is within
  -- its limit, the client is not locked out and the code is accepted.
  pub authorize_post-approved :
      (request : AuthorizeRequest) (ticket k : String) (e : ℕ) (clock : Readings) (sig : FileSig)
      (s : Server)
      → (authorize_post external request ticket clock sig s).0 ≡ approved k e
      → let (known, s') = known_client external request.params sig s in
        (known ≡ true)
        × IsVetted urlparse allowed_origins request.params
        × Accepted request request.params clock sig s'
  unfolding authorize_post
  authorize_post-approved request ticket k e clock sig s h =
      let (known, s') = known_client external request.params sig s in
      let checked = validate_authorize_params urlparse allowed_origins request.params known in
      let (p, good, accepted) =
        after_validation-approved checked request ticket k e clock sig s' h in
      let (own, there, named, vetted) =
        validate-IsVetted urlparse allowed_origins request.params p known good in
      (there, vetted, subst (λ q. Accepted request q clock sig s') own accepted)
