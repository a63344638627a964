-- ===== src/Oauth/Flow.antt =====
-- The way from a second factor to a token through the endpoints of __main__.py, over any history of
-- requests.
pub mod Keeps
pub mod Exchanges
use beacon_mcp.Base.{
  ℕ, zero, suc, ◌+◌, ◌≤◌, String, ◌≡◌, ◌≢◌, refl, sym, ap, subst, ◌∙◌, ◌⊎◌, inl, inr, Bool, true,
  false, not, Option, none, some, List, [], ◌∷◌, Result, ok, err, arith, Option-cases, Bool-cases,
  string_has_eq, ◌==◌, length, if◌then◌else◌, ltb, leb,
}
use beacon_mcp.Base.Dict.{
  Dict, lookup, insert, erase, retain, Every, Every-map, Every-insert, Every-erase, Every-retain,
  Every-lookup, Every-all, length-insert-le, length-erase-le, length-retain-le, length-erase_found,
}
use beacon_mcp.Clock.{seconds}
use beacon_mcp.Auth.Clients.Types.{FileSig}
use beacon_mcp.Auth.Codes as Codes
use beacon_mcp.Auth.Codes.{AuthCode}
use beacon_mcp.Oauth.{
  AuthorizeParams, PendingAuthorizations, consume_pending, peek_pending, issue_pending,
  prune_pending, unless_late, pending_authorization_ttl,
}
use beacon_mcp.Oauth.Server.{External, Server, Response, approved, granted}
use beacon_mcp.Oauth.Authorize.{
  Readings, AuthorizeRequest, authorize_post, authorize_finalize, finalize_with, authorize_redirect,
}
use beacon_mcp.Oauth.Passkey.{PasskeyRequest, CeremonyReadings, passkey_verify}
use beacon_mcp.Oauth.Grant.{TokenBody, Draws, TokenReadings, oauth_token}
use beacon_mcp.Oauth.Approved.{Untouched, Decides, authorize_post-Decides}
use beacon_mcp.Oauth.Ceremony.{passkey_verify-Decides, passkey_verify-none}
use beacon_mcp.Oauth.Factors.{totp_accepted, passkey_accepted}
use beacon_mcp.Oauth.Exchange.{exchanged, Spends, oauth_token-codes, oauth_token-none}
use beacon_mcp.Auth.Codes.Once.{consume_iff}

-- The parameters that a second factor was accepted for so far, the last first.
abbrev pub Log : Type 0
Log = List AuthorizeParams

abbrev pub InLog : AuthorizeParams → Log → Type 0
InLog p [] = ⊥
InLog p (q ∷ log) = (p ≡ q) ⊎ InLog p log

abbrev pub noted : Bool → Option AuthorizeParams → Log → Log
noted true (some p) log = p ∷ log
noted _ _ log = log

abbrev pub counted : Bool → ℕ → ℕ
counted true n = suc n
counted false n = n

-- The requests to a server: the second factors that were accepted, whatever was answered, and how many
-- codes it exchanged. `elsewhere`
-- stands for everything else, which leaves approvals and codes alone.
pub data Run (external : External) : Log → ℕ → Server → Type 0 where
  started : (s : Server) → s.pending ≡ [] → s.codes ≡ [] → Run external [] 0 s
  posted :
      {log : Log} {n : ℕ} {s : Server} (request : AuthorizeRequest) (ticket : String)
      (clock : Readings) (sig : FileSig)
      → Run external log n s
      → Run external
          (noted (totp_accepted external request clock sig s) (some request.params) log)
          n
          (authorize_post external request ticket clock sig s).1
  verified :
      {log : Log} {n : ℕ} {s : Server} (request : PasskeyRequest) (ticket : String)
      (clock : Readings) (ceremony : CeremonyReadings) (sig : FileSig)
      → Run external log n s
      → Run external
          (noted (passkey_accepted external request clock ceremony sig s) request.params log)
          n
          (passkey_verify external request ticket clock ceremony sig s).1
  finalized :
      {log : Log} {n : ℕ} {s : Server} (ticket code : String) (p0 p1 t0 t1 : ℕ)
      → Run external log n s
      → Run external log n (authorize_finalize ticket code p0 p1 t0 t1 s).1
  peeked :
      {log : Log} {n : ℕ} {s : Server} (ticket : String) (p0 p1 : ℕ)
      → Run external log n s
      → Run external log n (record s { pending = (peek_pending ticket p0 p1 s.pending).1 })
  asked :
      {log : Log} {n : ℕ} {s : Server} (body : Option TokenBody) (ip : String) (draws : Draws)
      (clock : TokenReadings) (sig : FileSig)
      → Run external log n s
      → Run external log
          (counted (exchanged body (oauth_token external body ip draws clock sig s).0) n)
          (oauth_token external body ip draws clock sig s).1
  elsewhere :
      {log : Log} {n : ℕ} {s : Server} (t : Server)
      → Untouched s t
      → Run external log n s
      → Run external log n t

-- A code was issued for these parameters.
abbrev pub IsFor : AuthCode → AuthorizeParams → Type 0
IsFor c p =
    (c.client_id ≡ p.client_id)
    × (c.redirect_uri ≡ p.redirect_uri)
    × (c.code_challenge ≡ p.code_challenge)
    × (c.code_challenge_method ≡ p.code_challenge_method)

abbrev pub IsIssued : Log → String → AuthCode → Type 0
IsIssued log k c = (p : AuthorizeParams) × InLog p log × IsFor c p

-- Approvals and codes stem from the log, and there are no more of them than it has entries.
pub record Backed (log : Log) (n : ℕ) (pending : PendingAuthorizations)
    (codes : Dict String AuthCode) : Type 0 where
  pub approvals : Every (λ _ entry. InLog entry.0 log) pending
  pub issued : Every (IsIssued log) codes
  pub room : length pending + length codes + n ≤ length log

abbrev pub IsBacked : Log → ℕ → Server → Type 0
IsBacked log n s = Backed log n s.pending s.codes
