-- ===== src/Auth/Codes.antt =====
-- `CodeStore` and `verify_pkce` of auth.py: single-use authorization codes bound to a challenge.
pub mod Once
mod Tests
use beacon_mcp.Base.{
  ℕ, ◌+◌, String, Bool, true, false, not, ◌||◌, Option, none, some, if◌then◌else◌, ◌==◌,
  string_has_eq, ltb, Result, ok, err,
}
use beacon_mcp.Base.Dict.{Dict, lookup, insert, erase, retain}
use beacon_mcp.Clock.{seconds}

pub record AuthCode : Type 0 where
  pub code : String
  pub client_id : String
  pub redirect_uri : String
  pub code_challenge : String
  pub code_challenge_method : String
  pub expires_at : ℕ

pub data UnicodeEncodeError : Type 0 where
  not_ascii : UnicodeEncodeError

abbrev pub code_ttl : ℕ
code_ttl = 60

module _ (s256 : String → Option String) where
  -- `verify_pkce`. `s256` is the unpadded URL-safe base64 of the SHA-256 of an ASCII verifier; on any
  -- other verifier `encode("ascii")` raises.
  unfoldable pub verify_pkce : String → String → String → Result UnicodeEncodeError Bool
  verify_pkce code_verifier code_challenge method =
      if not (method == "S256")
      then ok false
      else if code_verifier == "" || code_challenge == ""
      then ok false
      else elim (s256 code_verifier) [
        | none ↦ err not_ascii
        | some computed ↦ ok (computed == code_challenge)
      ]

  -- `consume`: the code is popped whatever comes of it.
  unfoldable pub consume :
      String
      → String
      → String
      → String
      → ℕ
      → Dict String AuthCode
      → Result UnicodeEncodeError Bool × Dict String AuthCode
  consume code client_id redirect_uri code_verifier now codes = (
    elim (lookup code codes) [
      | none ↦ ok false
      | some auth_code ↦
          if ltb auth_code.expires_at now
          then ok false
          else if not (auth_code.client_id == client_id)
          then ok false
          else if not (auth_code.redirect_uri == redirect_uri)
          then ok false
          else verify_pkce code_verifier auth_code.code_challenge auth_code.code_challenge_method
    ],
    erase code codes,
  )

-- `_cleanup`
unfoldable pub cleanup : ℕ → Dict String AuthCode → Dict String AuthCode
cleanup now = retain (λ c. not (ltb c.expires_at now))

-- `issue`: `code` is the random value drawn; the readings are that of the expiry and of `_cleanup`.
unfoldable pub issue :
    String
    → String
    → String
    → String
    → String
    → ℕ
    → ℕ
    → Dict String AuthCode
    → String × Dict String AuthCode
unfolding cleanup
issue client_id redirect_uri code_challenge method code t0 t1 codes =
    let entry : AuthCode = record {
      code = code;
      client_id = client_id;
      redirect_uri = redirect_uri;
      code_challenge = code_challenge;
      code_challenge_method = method;
      expires_at = t0 + seconds code_ttl;
    } in
    (code, cleanup t1 (insert code entry codes))
