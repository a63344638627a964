-- ===== src/Oauth/Flow/Exchanges.antt =====
-- Codes exchanged for tokens by `oauth_token` of __main__.py, against the accepted second factors.
use beacon_mcp.Base.{
  ℕ, ◌+◌, ◌≤◌, String, ◌≡◌, sym, ap, subst, ◌∙◌, inl, inr, true, none, some, [], arith,
  Option-cases, string_has_eq, length,
}
use beacon_mcp.Base.Dict.{Every-lookup}
use beacon_mcp.Clock.{seconds}
use beacon_mcp.Auth.Clients.Types.{FileSig}
use beacon_mcp.Oauth.{AuthorizeParams, pending_authorization_ttl}
use beacon_mcp.Oauth.Server.{External, Server, Response}
use beacon_mcp.Oauth.Authorize.{Readings, authorize_post}
use beacon_mcp.Oauth.Passkey.{PasskeyRequest, CeremonyReadings, passkey_verify}
use beacon_mcp.Oauth.Grant.{TokenBody, Draws, TokenReadings, oauth_token}
use beacon_mcp.Oauth.Approved.{authorize_post-Decides}
use beacon_mcp.Oauth.Ceremony.{passkey_verify-Decides, passkey_verify-none}
use beacon_mcp.Oauth.Factors.{
  totp_accepted, passkey_accepted, authorize_post-accepted, passkey_verify-accepted,
}
use beacon_mcp.Oauth.Exchange.{exchanged, Spends, oauth_token-codes, oauth_token-none}
use beacon_mcp.Auth.Codes.Once.{consume_iff}
use beacon_mcp.Oauth.Flow.{
  Log, InLog, noted, counted, Run, started, posted, verified, finalized, peeked, asked, elsewhere,
  IsIssued, Backed, IsBacked,
}
use beacon_mcp.Oauth.Flow.Keeps.{
  finalize-Backed, peek-Backed, Decides-Backed, Untouched-Backed, Backed-grow, Backed-spend,
}

module _ (external : External) where
  asked-Backed :
      (body : TokenBody) (clock : TokenReadings) (log : Log) (n : ℕ) (s t : Server) (r : Response)
      → Spends external body clock s (r, t)
      → IsBacked log n s
      → IsBacked log (counted (exchanged (some body) r) n) t
  asked-Backed body clock log n s t r (kept, inl (same, idle)) b =
      subst (λ x. IsBacked log (counted x n) t) (sym idle)
        (Untouched-Backed log n s t (kept, same) b)
  asked-Backed body clock log n s t r (kept, inr (spent, only)) b =
      let exchange = exchanged (some body) r in
      subst (λ d. Backed log (counted exchange n) d t.codes) (sym kept)
        (subst (λ c. Backed log (counted exchange n) s.pending c) (sym spent)
          (Backed-spend body.code exchange log n s.pending s.codes
            (λ h.
              let granted_ =
                (consume_iff external.s256 body.code body.client_id body.redirect_uri
                    body.code_verifier clock.check s.codes).0
                  (only h) in
              (granted_.0, granted_.1))
            b))

  verified-Backed :
      (request : PasskeyRequest) (ticket : String) (clock : Readings) (ceremony : CeremonyReadings)
      (sig : FileSig) (log : Log) (n : ℕ) (s : Server)
      → IsBacked log n s
      → IsBacked
          (noted (passkey_accepted external request clock ceremony sig s) request.params log)
          n
          (passkey_verify external request ticket clock ceremony sig s).1
  verified-Backed request ticket clock ceremony sig log n s b =
      let (r, t) = passkey_verify external request ticket clock ceremony sig s in
      let accepted = passkey_accepted external request clock ceremony sig s in
      elim (Option-cases request.params) [
        | inl missing ↦ Backed-grow accepted request.params log n t.pending t.codes (
            Untouched-Backed log n s t
              (passkey_verify-none external request ticket clock ceremony sig s missing) b)
        | inr (p, there) ↦
            subst (λ o. IsBacked (noted accepted o log) n t) (sym there)
              (Decides-Backed p ticket clock accepted log n s t r
                (passkey_verify-accepted external request ticket ticket
                  (clock.issue + seconds pending_authorization_ttl) clock ceremony sig s)
                (passkey_verify-Decides external request p ticket clock ceremony sig s there) b)
      ]

  Run-Backed : {log : Log} {n : ℕ} {s : Server} → Run external log n s → IsBacked log n s
  Run-Backed (started s no_pending no_codes) =
      subst (λ d. Backed [] 0 d s.codes) (sym no_pending)
        (subst (λ c. Backed [] 0 [] c) (sym no_codes)
          (record { approvals = tt; issued = tt; room = omega arith }))
  Run-Backed (posted {log} {n} {s} request ticket clock sig run) =
      let (r, t) = authorize_post external request ticket clock sig s in
      Decides-Backed request.params ticket clock (totp_accepted external request clock sig s) log n
        s t r
        (authorize_post-accepted external request ticket ticket
          (clock.issue + seconds pending_authorization_ttl) clock sig s)
        (authorize_post-Decides external request ticket clock sig s) (Run-Backed run)
  Run-Backed (verified {log} {n} {s} request ticket clock ceremony sig run) =
      verified-Backed request ticket clock ceremony sig log n s (Run-Backed run)
  Run-Backed (finalized {log} {n} {s} ticket code p0 p1 t0 t1 run) =
      finalize-Backed ticket code p0 p1 t0 t1 log n s (Run-Backed run)
  Run-Backed (peeked {log} {n} {s} ticket p0 p1 run) =
      peek-Backed ticket p0 p1 log n s (Run-Backed run)
  Run-Backed (asked {log} {n} {s} none ip draws clock sig run) =
      Untouched-Backed log n s (oauth_token external none ip draws clock sig s).1
        (oauth_token-none external ip draws clock sig s) (Run-Backed run)
  Run-Backed (asked {log} {n} {s} (some body) ip draws clock sig run) =
      let (r, t) = oauth_token external (some body) ip draws clock sig s in
      asked-Backed body clock log n s t r (oauth_token-codes external body ip draws clock sig s)
        (Run-Backed run)
  Run-Backed (elsewhere {log} {n} {s} t same run) = Untouched-Backed log n s t same (Run-Backed run)

  -- Over any history of requests no more codes are exchanged for tokens than second factors were
  -- accepted, be they valid TOTP codes or passkey ceremonies of the owner of the client's seed.
  pub exchanges-le-approvals :
      {log : Log} {n : ℕ} {s : Server} → Run external log n s → n ≤ length log
  exchanges-le-approvals run = omega (arith, (Run-Backed run).room)

  -- After any history of requests, a code is exchanged for tokens only by the client of a request
  -- that a second factor was accepted for (a valid TOTP code, with the address within its limit and
  -- the client not locked out for it, or a passkey ceremony with a passkey of the owner of the
  -- client's seed), with the redirect address of that request and with the verifier of its
  -- challenge.
  pub exchange-approved :
      {log : Log} {n : ℕ} {s : Server} (body : TokenBody) (ip : String) (draws : Draws)
      (clock : TokenReadings) (sig : FileSig)
      → Run external log n s
      → exchanged (some body) (oauth_token external (some body) ip draws clock sig s).0 ≡ true
      → (p : AuthorizeParams) × InLog p log
        × (body.client_id ≡ p.client_id)
        × (body.redirect_uri ≡ p.redirect_uri)
        × (external.s256 body.code_verifier ≡ some p.code_challenge)
  exchange-approved {log} {n} {s} body ip draws clock sig run h =
      let b = Run-Backed run in
      elim (oauth_token-codes external body ip draws clock sig s).1 [
        | inl (same, idle) ↦ absurd (ground (arith, idle, h))
        | inr (spent, only) ↦
            let (c, found, live, client, uri, method, verifier, challenge, proper) =
              (consume_iff external.s256 body.code body.client_id body.redirect_uri
                  body.code_verifier clock.check s.codes).0
                (only h) in
            let (p, there, (own, same_uri, same_challenge, same_method)) =
              Every-lookup (IsIssued log) body.code c s.codes b.issued found in
            (p, there, sym client ∙ own, sym uri ∙ same_uri, proper ∙ ap some same_challenge)
      ]
