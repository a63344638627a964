-- ===== src/Dashboard/Passkeys/Service.antt =====
-- `PasskeyService` of dashboard/passkeys.py: the ceremonies of registration and of signing in.
use beacon_mcp.Base.{
  ℕ, String, Bool, true, false, not, Option, none, some, List, Result, ok, err, leb, nat_eq,
  if◌then◌else◌, ◌==◌, string_has_eq, length, map, is_some, ◌&&◌,
}
use beacon_mcp.Base.Dict.{lookup}
use beacon_mcp.Dashboard.Passkeys.{
  PasskeyRecord, PasskeyStore, ChallengeStore, Challenge, register, authenticate, issue, consume,
  add, touch, list_for_client,
}

pub data PasskeyError : Type 0 where
  not_installed unavailable too_many expired other_session rejected already_registered :
      PasskeyError
  none_registered malformed unknown other_client : PasskeyError

-- The source lets an IntegrityError of the table through.
pub data Failure : Type 0 where
  passkey_error : PasskeyError → Failure
  integrity_error : Failure

-- A key of the credential that the browser sends.
pub data Field : Type 0 where
  falsy : Field  -- missing, null or empty
  text : String → Field
  other : Field

pub record Credential : Type 0 where
  pub id : Field
  pub raw_id : Field
  pub transports : List String  -- the texts of response.transports, none if it is no list
  pub response : String  -- what the library reads

-- `credential.get("id") or credential.get("rawId")`, where it is a text that is not empty.
unfoldable pub credential_id : Credential → Option String
credential_id c = elim c.id [
  | text s ↦ some s
  | other ↦ none
  | falsy ↦ elim c.raw_id [ text s ↦ some s | other ↦ none | falsy ↦ none ]
]

pub record VerifiedRegistration : Type 0 where
  pub credential_id : String
  pub credential_public_key : String
  pub sign_count : ℕ
  pub credential_backed_up : Bool

-- What a response must match: the challenge, the relying party and the origin.
pub record Expected : Type 0 where
  pub challenge : String
  pub rp_id : String
  pub origin : String

-- The `webauthn` package: `verify_registration_response` and `verify_authentication_response`, with
-- `none` for an exception. The second is given the public key and the counter of the record.
pub record WebAuthn : Type 0 where
  pub verify_registration_response : String → Expected → Option VerifiedRegistration
  pub verify_authentication_response : String → Expected → String → ℕ → Option ℕ

pub record PasskeyService : Type 0 where
  pub installed : Bool
  pub store : Option PasskeyStore
  pub challenges : ChallengeStore

-- What `rp_id_for` and `origin_for` find in the request.
pub record Site : Type 0 where
  pub rp_id : String
  pub origin : String

abbrev pub expected : String → Site → Expected
expected challenge site = record { challenge = challenge; rp_id = site.rp_id; origin = site.origin }

abbrev pub max_passkeys_per_client : ℕ
max_passkeys_per_client = 10

-- `available`
unfoldable pub available : PasskeyService → Bool
available s = s.installed && is_some s.store

-- The options that the browser is given.
pub record Options : Type 0 where
  pub challenge : String
  pub rp_id : String
  pub credentials : List String

-- `_require`, and the store behind it.
unfoldable pub require : PasskeyService → Result PasskeyError PasskeyStore
require s =
    if not s.installed
    then err not_installed
    else elim s.store [ none ↦ err unavailable | some table ↦ ok table ]

abbrev pub ids : List PasskeyRecord → List String
ids = map (λ r. r.credential_id)

-- `registration_options`; `challenge` is the library's, `state` the value drawn.
unfoldable pub registration_options :
    Site
    → String
    → Option String
    → String
    → String
    → ℕ
    → ℕ
    → PasskeyService
    → Result PasskeyError (Options × String) × PasskeyService
registration_options site client_id session_id challenge state t0 t1 s = elim (require s) [
  | err e ↦ (err e, s)
  | ok table ↦
      let existing = list_for_client client_id table in
      if leb max_passkeys_per_client (length existing) then (err too_many, s) else (
        ok (
          record { challenge = challenge; rp_id = site.rp_id; credentials = ids existing },
          state,
        ),
        record s {
          challenges = (issue register challenge client_id session_id state t0 t1 s.challenges).1;
        },
      )
]

-- `authentication_options`
unfoldable pub authentication_options :
    Site
    → String
    → String
    → String
    → ℕ
    → ℕ
    → PasskeyService
    → Result PasskeyError (Options × String) × PasskeyService
authentication_options site client_id challenge state t0 t1 s = elim (require s) [
  | err e ↦ (err e, s)
  | ok table ↦
      let credentials = list_for_client client_id table in
      if nat_eq (length credentials) 0 then (err none_registered, s) else (
        ok (
          record { challenge = challenge; rp_id = site.rp_id; credentials = ids credentials },
          state,
        ),
        record s {
          challenges = (issue authenticate challenge client_id none state t0 t1 s.challenges).1;
        },
      )
]

-- `pending.session_id is not None and pending.session_id != session_id`
abbrev pub wrong_session : Option String → Option String → Bool
wrong_session none given = false
wrong_session (some owner) none = true
wrong_session (some owner) (some given) = not (owner == given)

module _ (webauthn : WebAuthn) where
  open webauthn use {verify_registration_response, verify_authentication_response}

  -- `verify_registration` from the consumed challenge on. `label` is the name that the passkey gets.
  unfoldable pub register_credential :
      Option Challenge
      → Site
      → Credential
      → String
      → Option String
      → ℕ
      → PasskeyStore
      → Result Failure PasskeyRecord × PasskeyStore
  register_credential none site credential label session_id now table =
      (err (passkey_error expired), table)
  register_credential (some pending) site credential label session_id now table =
      if wrong_session pending.session_id session_id
      then (err (passkey_error other_session), table)
      else elim (verify_registration_response credential.response
          (expected pending.challenge site)) [
            | none ↦ (err (passkey_error rejected), table)
            | some verified ↦
                let r : PasskeyRecord = record {
                  credential_id = verified.credential_id;
                  client_id = pending.client_id;
                  public_key = verified.credential_public_key;
                  sign_count = verified.sign_count;
                  transports = credential.transports;
                  label = label;
                  created_at = now;
                  last_used_at = none;
                  backed_up = verified.credential_backed_up;
                } in
                let (added, table') = add r table in
                if is_some (lookup verified.credential_id table)
                then (err (passkey_error already_registered), table)
                else (elim added [ err e ↦ err integrity_error | ok r' ↦ ok r' ], table')
          ]

  -- `verify_registration`
  unfoldable pub verify_registration :
      Site
      → String
      → Credential
      → String
      → Option String
      → ℕ
      → ℕ
      → ℕ
      → PasskeyService
      → Result Failure PasskeyRecord × PasskeyService
  verify_registration site state credential label session_id t0 t1 now s = elim (require s) [
    | err e ↦ (err (passkey_error e), s)
    | ok table ↦
        let (pending, challenges) = consume state register t0 t1 s.challenges in
        let (result, table') =
          register_credential pending site credential label session_id now table in
        (result, record s { store = some table'; challenges = challenges })
  ]

  -- The end of `verify_authentication`, for a record that the challenge may be answered with.
  unfoldable pub accept_assertion :
      Option ℕ
      → PasskeyRecord
      → ℕ
      → ℕ
      → PasskeyStore
      → Result PasskeyError PasskeyRecord × PasskeyStore
  accept_assertion none r t2 t3 table = (err rejected, table)
  accept_assertion (some new_sign_count) r t2 t3 table = (
    ok (record r { sign_count = new_sign_count; last_used_at = some t3 }),
    touch r.credential_id new_sign_count t2 table,
  )

  -- The credential that answers the challenge, by its id.
  unfoldable pub answer_challenge :
      Option String
      → Challenge
      → Site
      → Credential
      → ℕ
      → ℕ
      → PasskeyStore
      → Result PasskeyError PasskeyRecord × PasskeyStore
  answer_challenge none pending site credential t2 t3 table = (err malformed, table)
  answer_challenge (some id) pending site credential t2 t3 table = elim (lookup id table) [
    | none ↦ (err unknown, table)
    | some r ↦
        if not (r.client_id == pending.client_id)
        then (err other_client, table)
        else accept_assertion
            (verify_authentication_response credential.response (expected pending.challenge site)
              r.public_key r.sign_count)
            r t2 t3 table
  ]

  -- `verify_authentication` from the consumed challenge on.
  unfoldable pub authenticate_credential :
      Option Challenge
      → Site
      → Credential
      → ℕ
      → ℕ
      → PasskeyStore
      → Result PasskeyError PasskeyRecord × PasskeyStore
  authenticate_credential none site credential t2 t3 table = (err expired, table)
  authenticate_credential (some pending) site credential t2 t3 table =
      answer_challenge (credential_id credential) pending site credential t2 t3 table

  -- `verify_authentication`
  unfoldable pub verify_authentication :
      Site
      → String
      → Credential
      → ℕ
      → ℕ
      → ℕ
      → ℕ
      → PasskeyService
      → Result PasskeyError PasskeyRecord × PasskeyService
  verify_authentication site state credential t0 t1 t2 t3 s = elim (require s) [
    | err e ↦ (err e, s)
    | ok table ↦
        let (pending, challenges) = consume state authenticate t0 t1 s.challenges in
        let (result, table') = authenticate_credential pending site credential t2 t3 table in
        (result, record s { store = some table'; challenges = challenges })
  ]
