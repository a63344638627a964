-- ===== src/Auth/Codes/Tests.antt =====
-- The authorization codes of auth.py at concrete inputs.
use beacon_mcp.Base.{
  ◌≤◌, String, ◌≡◌, ◌≢◌, ◌↔◌, true, false, Option, some, [], ◌∷◌, ok, string_has_eq, arith,
}
use Prim.Native.String.{◌++◌ as joined}
use beacon_mcp.Base.Dict.{Dict, lookup}
use beacon_mcp.Clock.{seconds}
use text.Mathlib.TextEquality.{eq_iff}
use beacon_mcp.Auth.Codes.{AuthCode, consume, issue}
use beacon_mcp.Auth.Codes.Once.{Calls, none_yet, then_call, issues, consume-once, consume_iff}

abbrev challenge_of : String → Option String
challenge_of verifier = some (joined "#" verifier)

abbrev one_code : Dict String AuthCode
one_code =
    (
      "code",
      record {
        code = "code";
        client_id = "claude";
        redirect_uri = "https://claude.ai/cb";
        code_challenge = "#verifier";
        code_challenge_method = "S256";
        expires_at = seconds 60;
      },
    )
    ∷ []

abbrev used : Dict String AuthCode
used =
    (consume challenge_of "code" "claude" "https://claude.ai/cb" "verifier" (seconds 5) one_code).1

abbrev reissued : Dict String AuthCode
reissued =
    (issue "claude" "https://claude.ai/cb" "#verifier" "S256" "other" (seconds 6) (seconds 6)
      used).1

run : Calls challenge_of "code" used reissued
run = then_call none_yet (
    issues "claude" "https://claude.ai/cb" "#verifier" "S256" "other" (seconds 6) (seconds 6) used
      (λ e. absurd (ground (arith, e, (eq_iff "other" "code").1 e))))

consume-once_example :
    (consume challenge_of "code" "claude" "https://claude.ai/cb" "verifier" (seconds 7) reissued).0
    ≡ ok false
consume-once_example =
    consume-once challenge_of "code" "claude" "claude" "https://claude.ai/cb" "https://claude.ai/cb"
      "verifier" "verifier" (seconds 5) (seconds 7) one_code reissued run

consume_iff_example :
    ((consume challenge_of "code" "claude" "https://claude.ai/cb" "verifier" (seconds 5) one_code).0
      ≡ ok true)
    ↔ ((c : AuthCode) × (lookup "code" one_code ≡ some c)
        × (seconds 5 ≤ c.expires_at)
        × (c.client_id ≡ "claude")
        × (c.redirect_uri ≡ "https://claude.ai/cb")
        × (c.code_challenge_method ≡ "S256")
        × (◌≢◌ {A = String} "verifier" "")
        × (c.code_challenge ≢ "")
        × (challenge_of "verifier" ≡ some c.code_challenge))
consume_iff_example =
    consume_iff challenge_of "code" "claude" "https://claude.ai/cb" "verifier" (seconds 5) one_code
