-- ===== src/Dashboard/Passkeys.antt =====
-- dashboard/passkeys.py: the table of credentials, the single-use challenges, and the two ceremonies
-- over them. The WebAuthn library is a parameter of the ceremonies.
pub mod Service
pub mod Once
pub mod Bound
pub mod Count
mod Tests
use beacon_mcp.Base.{
  ℕ, ◌+◌, String, Bool, true, false, not, Option, none, some, List, [], ◌∷◌, Result, ok, err, ltb,
  leb, nat_eq, if◌then◌else◌, ◌==◌, string_has_eq, select, length,
}
use beacon_mcp.Base.Dict.{Dict, lookup, contains, insert, erase, retain, count, values}
use beacon_mcp.Clock.{seconds}

-- A public key is known by a text that stands for its bytes, and so is a challenge.
pub record PasskeyRecord : Type 0 where
  pub credential_id : String
  pub client_id : String
  pub public_key : String
  pub sign_count : ℕ
  pub transports : List String
  pub label : String
  pub created_at : ℕ
  pub last_used_at : Option ℕ
  pub backed_up : Bool

-- The table `passkeys` by its primary key.
abbrev pub PasskeyStore : Type 0
PasskeyStore = Dict String PasskeyRecord

pub data IntegrityError : Type 0 where
  not_unique : IntegrityError

-- `add`
unfoldable pub add :
    PasskeyRecord → PasskeyStore → Result IntegrityError PasskeyRecord × PasskeyStore
add r table =
    if contains r.credential_id table
    then (err not_unique, table)
    else (ok r, insert r.credential_id r table)

abbrev pub is_of : String → PasskeyRecord → Bool
is_of client_id r = r.client_id == client_id

-- `list_for_client`, in the order of the table; the source sorts it by age.
unfoldable pub list_for_client : String → PasskeyStore → List PasskeyRecord
list_for_client client_id table = select (is_of client_id) (values table)

-- `count_for_client`
unfoldable pub count_for_client : String → PasskeyStore → ℕ
count_for_client client_id table = count (is_of client_id) table

-- `touch`
unfoldable pub touch : String → ℕ → ℕ → PasskeyStore → PasskeyStore
touch credential_id sign_count now table = elim (lookup credential_id table) [
  | none ↦ table
  | some r ↦
      insert credential_id (record r { sign_count = sign_count; last_used_at = some now }) table
]

-- `delete`
unfoldable pub delete : String → String → PasskeyStore → Bool × PasskeyStore
delete credential_id client_id table = elim (lookup credential_id table) [
  | none ↦ (false, table)
  | some r ↦ if r.client_id == client_id then (true, erase credential_id table) else (false, table)
]

-- `delete_all_for_client`
unfoldable pub delete_all_for_client : String → PasskeyStore → ℕ × PasskeyStore
delete_all_for_client client_id table =
    (count (is_of client_id) table, retain (λ r. not (is_of client_id r)) table)

pub data Purpose : Type 0 where
  register : Purpose
  authenticate : Purpose

abbrev pub same_purpose : Purpose → Purpose → Bool
same_purpose register register = true
same_purpose authenticate authenticate = true
same_purpose register authenticate = false
same_purpose authenticate register = false

pub record Challenge : Type 0 where
  pub purpose : Purpose
  pub challenge : String
  pub client_id : String
  pub session_id : Option String
  pub expires_at : ℕ

abbrev pub ChallengeStore : Type 0
ChallengeStore = Dict String Challenge

abbrev pub challenge_ttl : ℕ
challenge_ttl = 180

-- `_prune_locked`
unfoldable pub prune : ℕ → ChallengeStore → ChallengeStore
prune now items = retain (λ c. not (ltb c.expires_at now)) items

-- `ChallengeStore.issue`; `state` is the value drawn, `t0` the reading of `_prune_locked`.
unfoldable pub issue :
    Purpose
    → String
    → String
    → Option String
    → String
    → ℕ
    → ℕ
    → ChallengeStore
    → String × ChallengeStore
unfolding prune
issue purpose challenge client_id session_id state t0 t1 items =
    let c : Challenge = record {
      purpose = purpose;
      challenge = challenge;
      client_id = client_id;
      session_id = session_id;
      expires_at = t1 + seconds challenge_ttl;
    } in
    (state, insert state c (prune t0 items))

-- `ChallengeStore.consume`: the challenge is popped whatever it was for.
unfoldable pub consume :
    String → Purpose → ℕ → ℕ → ChallengeStore → Option Challenge × ChallengeStore
unfolding prune
consume state purpose t0 t1 items =
    let pruned = prune t0 items in
    (
      elim (lookup state pruned) [
        | none ↦ none
        | some c ↦
            if not (same_purpose c.purpose purpose)
            then none
            else if ltb c.expires_at t1
            then none
            else some c
      ],
      erase state pruned,
    )
