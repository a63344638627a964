-- ===== src/Oauth/Exchange.antt =====
-- What `oauth_token` of __main__.py does to the codes.
use beacon_mcp.Base.{
  String, ◌≡◌, refl, ap, subst, eq_of_true, ◌∙◌, ◌⊎◌, inl, inr, Bool, true, false, Option, none,
  some, Result, ok, err, arith, Bool-cases, string_has_eq, ◌==◌,
}
use beacon_mcp.Base.Dict.{erase}
use beacon_mcp.Auth.Clients.Types.{FileSig}
use beacon_mcp.Auth.Clients.Store.{TotpResult, valid, wrong, replay, check_totp, verify}
use beacon_mcp.Auth.Codes as Codes
use beacon_mcp.Auth.Codes.{AuthCode, UnicodeEncodeError}
use beacon_mcp.Limits.Window.{check}
use beacon_mcp.Limits.Lockout.{locked}
use beacon_mcp.Oauth.Server.{External, Server, Response, granted, reload, seed_owner}
use beacon_mcp.Oauth.Grant.{
  TokenBody, Draws, TokenReadings, issue_grant, after_code, client_credentials, after_consume,
  authorization_code, refresh_token, grant, token_with_body, oauth_token,
}
use beacon_mcp.Oauth.Approved.{Untouched, reload-Untouched}

-- A code was exchanged for tokens.
abbrev pub exchanged : Option TokenBody → Response → Bool
exchanged (some body) (granted g) = body.grant_type == "authorization_code"
exchanged _ _ = false

module _ (external : External) where
  open external use {s256, totp_verify, isdigit}

  -- What is left of the codes. Tokens are issued for a code only if `consume` grants it.
  abbrev pub Spends : TokenBody → TokenReadings → Server → Response × Server → Type 0
  Spends body clock s (r, t) =
      (t.pending ≡ s.pending)
      × (((t.codes ≡ s.codes) × (exchanged (some body) r ≡ false))
          ⊎ ((t.codes ≡ erase body.code s.codes)
              × (exchanged (some body) r ≡ true
                  → (Codes.consume s256 body.code body.client_id body.redirect_uri
                      body.code_verifier clock.check s.codes).0
                    ≡ ok true)))

  after_code-Untouched :
      (result : TotpResult) (body : TokenBody) (ip : String) (draws : Draws) (clock : TokenReadings)
      (s : Server)
      → Untouched s (after_code external result body ip draws clock s).1
  unfolding after_code issue_grant
  after_code-Untouched valid body ip draws clock s = (refl, refl)
  after_code-Untouched wrong body ip draws clock s = (refl, refl)
  after_code-Untouched replay body ip draws clock s = (refl, refl)

  client_credentials-Untouched :
      (body : TokenBody) (ip : String) (draws : Draws) (clock : TokenReadings) (sig : FileSig)
      (s : Server)
      → Untouched s (client_credentials external body ip draws clock sig s).1
  unfolding client_credentials
  client_credentials-Untouched body ip draws clock sig s =
      let (is_locked, lockout) =
        locked (seed_owner body.client_id s.clients) (some ip) clock.lock s.lockout in
      let (result, world) =
        check_totp totp_verify isdigit body.client_id body.totp clock.check sig s.clients in
      elim (Bool-cases is_locked) [
        | inl out ↦ rw out (refl, refl)
        | inr go ↦ rw go (
            after_code-Untouched result body ip draws clock
              (record s { lockout = lockout; clients = world }))
      ]

  refresh_token-Untouched :
      (body : TokenBody) (draws : Draws) (clock : TokenReadings) (s : Server)
      → Untouched s (refresh_token external body draws clock s).1
  unfolding refresh_token
  refresh_token-Untouched body draws clock s = ground arith

  after_consume-Spends :
      (result : Result UnicodeEncodeError Bool) (body : TokenBody) (draws : Draws)
      (clock : TokenReadings) (s : Server)
      → let (r, t) = after_consume external result body draws clock s in
        (t.pending ≡ s.pending)
        × (t.codes ≡ s.codes)
        × (exchanged (some body) r ≡ true → result ≡ ok true)
  unfolding after_consume issue_grant
  after_consume-Spends (err e) body draws clock s = (refl, refl, λ h. cc)
  after_consume-Spends (ok false) body draws clock s = (refl, refl, λ h. cc)
  after_consume-Spends (ok true) body draws clock s = (refl, refl, λ h. refl)

  authorization_code-Spends :
      (body : TokenBody) (draws : Draws) (clock : TokenReadings) (s : Server)
      → Spends body clock s (authorization_code external body draws clock s)
  unfolding authorization_code Codes.consume
  authorization_code-Spends body draws clock s =
      let (result, codes) =
        Codes.consume s256 body.code body.client_id body.redirect_uri body.code_verifier clock.check
          s.codes in
      let (kept, same, spent) =
        after_consume-Spends result body draws clock (record s { codes = codes }) in
      (kept, inr (same, spent))

  not_exchanged :
      (body : TokenBody) (r : Response)
      → (body.grant_type == "authorization_code") ≡ false
      → exchanged (some body) r ≡ false
  not_exchanged body (granted g) h = h
  not_exchanged body _ h = refl

  grant-Spends :
      (body : TokenBody) (ip : String) (draws : Draws) (clock : TokenReadings) (sig : FileSig)
      (s : Server)
      → Spends body clock s (grant external body ip draws clock sig s)
  unfolding grant
  grant-Spends body ip draws clock sig s =
      let kept = client_credentials-Untouched body ip draws clock sig s in
      let kept' = refresh_token-Untouched body draws clock s in
      elim (Bool-cases (body.grant_type == "client_credentials")) [
        | inl first ↦
            let other =
              ap (λ g. g == "authorization_code")
                (eq_of_true body.grant_type "client_credentials" first) in
            rw first (kept.0, inl (kept.1, not_exchanged body _ other))
        | inr not_first ↦
            rw not_first (elim (Bool-cases (body.grant_type == "authorization_code")) [
              | inl second ↦ rw second (authorization_code-Spends body draws clock s)
              | inr other ↦ rw other (elim (Bool-cases (body.grant_type == "refresh_token")) [
                | inl third ↦ rw third (kept'.0, inl (kept'.1, not_exchanged body _ other))
                | inr none_of_them ↦ rw none_of_them (refl, inl (refl, refl))
              ])
            ])
      ]

  token_with_body-Spends :
      (body : TokenBody) (ip : String) (draws : Draws) (clock : TokenReadings) (sig : FileSig)
      (s : Server)
      → Spends body clock s (token_with_body external (some body) ip draws clock sig s)
  unfolding token_with_body
  token_with_body-Spends body ip draws clock sig s =
      let s' = reload sig s in
      let same = reload-Untouched sig s in
      let (kept, spent) = grant-Spends body ip draws clock sig s' in
      elim (Bool-cases (verify external.hash body.client_id body.client_secret sig s'.clients).0) [
        | inr stranger ↦ rw stranger (same.0, inl (same.1, refl))
        | inl known ↦ rw known (
          kept ∙ same.0,
          elim spent [
            | inl (codes, idle) ↦ inl (codes ∙ same.1, idle)
            | inr (codes, only) ↦ inr (
              codes ∙ ap (erase body.code) same.1,
              subst
                  (λ d.
                    exchanged (some body) (grant external body ip draws clock sig s').0 ≡ true
                    → (Codes.consume s256 body.code body.client_id body.redirect_uri
                        body.code_verifier clock.check d).0
                      ≡ ok true)
                  same.1 only,
            )
          ],
        )
      ]

  -- `oauth_token` leaves approvals alone. It leaves the codes alone too and exchanges none, or it takes
  -- the presented code away, and then it exchanges that only if `consume` grants it.
  pub oauth_token-codes :
      (body : TokenBody) (ip : String) (draws : Draws) (clock : TokenReadings) (sig : FileSig)
      (s : Server)
      → Spends body clock s (oauth_token external (some body) ip draws clock sig s)
  unfolding oauth_token
  oauth_token-codes body ip draws clock sig s =
      let (free, limiter) = check ip clock.limiter s.token_limiter in
      elim (Bool-cases free) [
        | inr busy ↦ rw busy (refl, inl (refl, refl))
        | inl go ↦
            rw go (
              token_with_body-Spends body ip draws clock sig (record s { token_limiter = limiter }))
      ]

  pub oauth_token-none :
      (ip : String) (draws : Draws) (clock : TokenReadings) (sig : FileSig) (s : Server)
      → Untouched s (oauth_token external none ip draws clock sig s).1
  unfolding oauth_token token_with_body
  oauth_token-none ip draws clock sig s = ground arith
