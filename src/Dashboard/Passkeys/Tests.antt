-- ===== src/Dashboard/Passkeys/Tests.antt =====
-- A client that signs in with a passkey, as in dashboard/passkeys.py.
use beacon_mcp.Base.{
  ◌+◌, ◌≤◌, ◌≡◌, ◌≢◌, refl, true, false, none, some, ok, [], ◌∷◌, string_has_eq, ◌==◌,
  if◌then◌else◌,
}
use beacon_mcp.Base.Dict.{lookup, retain, contains}
use beacon_mcp.Dashboard.Passkeys.{
  PasskeyRecord, PasskeyStore, Challenge, register, authenticate, count_for_client, consume, add,
}
use beacon_mcp.Dashboard.Passkeys.Service.{
  WebAuthn, Site, Credential, text, falsy, PasskeyService, require, verify_registration,
  verify_authentication, authenticate_credential, answer_challenge, credential_id, accept_assertion,
  register_credential,
}
use beacon_mcp.Dashboard.Passkeys.Bound.{Signed, verify_authentication-Signed}
use beacon_mcp.Dashboard.Passkeys.Once.{none_yet, sign_in-once}
use beacon_mcp.Dashboard.Passkeys.Count.{verify_registration-counts}

-- A library that accepts a response equal to the challenge, with a counter that grows.
abbrev library : WebAuthn
library = record {
  verify_registration_response = λ response e.
      if response == e.challenge
      then some (record {
        credential_id = "new";
        credential_public_key = "key2";
        sign_count = 0;
        credential_backed_up = false;
      })
      else none;
  verify_authentication_response =
      λ response e key n. if response == e.challenge then some (n + 1) else none;
}

abbrev site : Site
site = record { rp_id = "beacon.example"; origin = "https://beacon.example" }

abbrev key : PasskeyRecord
key = record {
  credential_id = "cred";
  client_id = "owner";
  public_key = "key1";
  sign_count = 4;
  transports = [];
  label = "Mac";
  created_at = 0;
  last_used_at = none;
  backed_up = false;
}

abbrev challenge : Challenge
challenge = record {
  purpose = authenticate;
  challenge = "nonce";
  client_id = "owner";
  session_id = none;
  expires_at = 180000000;
}

abbrev enrolment : Challenge
enrolment = record {
  purpose = register;
  challenge = "nonce";
  client_id = "owner";
  session_id = none;
  expires_at = 180000000;
}

abbrev service : PasskeyService
service = record {
  installed = true;
  store = some (("cred", key) ∷ []);
  challenges = ("st", challenge) ∷ ("reg", enrolment) ∷ [];
}

abbrev credential : Credential
credential = record { id = text "cred"; raw_id = falsy; transports = []; response = "nonce" }

abbrev used_key : PasskeyRecord
used_key = record key { sign_count = 5; last_used_at = some 8 }

signs_in : (verify_authentication library site "st" credential 5 6 7 8 service).0 ≡ ok used_key
unfolding verify_authentication require authenticate_credential consume lookup retain
    answer_challenge credential_id accept_assertion
signs_in = refl

verify_authentication-Signed_example :
    (table : PasskeyStore) × (c : Challenge) × (service.store ≡ some table)
    × (lookup "st" service.challenges ≡ some c)
    × (c.purpose ≡ authenticate)
    × (6 ≤ c.expires_at)
    × Signed library c site credential table used_key
unfolding verify_authentication lookup
verify_authentication-Signed_example =
    verify_authentication-Signed library site "st" credential 5 6 7 8 service used_key
      (refl, (refl, tt)) signs_in

sign_in-once_example :
    (verify_authentication library site "st" credential 9 9 9 9
      (verify_authentication library site "st" credential 5 6 7 8 service).1).0
    ≢ ok used_key
sign_in-once_example =
    sign_in-once library site site "st" credential credential 5 6 7 8 9 9 9 9 service
      (verify_authentication library site "st" credential 5 6 7 8 service).1 used_key refl refl
      none_yet

abbrev new_key : PasskeyRecord
new_key = record {
  credential_id = "new";
  client_id = "owner";
  public_key = "key2";
  sign_count = 0;
  transports = [];
  label = "Phone";
  created_at = 7;
  last_used_at = none;
  backed_up = false;
}

registers :
    (verify_registration library site "reg" credential "Phone" none 5 6 7 service).0 ≡ ok new_key
unfolding verify_registration require register_credential consume lookup retain add contains
registers = refl

verify_registration-counts_example :
    let done = verify_registration library site "reg" credential "Phone" none 5 6 7 service in
    (c : Challenge) × (table : PasskeyStore) × (table' : PasskeyStore) × (lookup "reg"
        service.challenges
      ≡ some c)
    × (c.purpose ≡ register)
    × (6 ≤ c.expires_at)
    × (new_key.client_id ≡ c.client_id)
    × (service.store ≡ some table)
    × (done.1.store ≡ some table')
    × (count_for_client c.client_id table' ≡ count_for_client c.client_id table + 1)
unfolding lookup
verify_registration-counts_example =
    verify_registration-counts library site "reg" credential "Phone" none 5 6 7 service new_key
      (refl, (refl, tt)) registers
