-- ===== src/Dashboard/Sessions.antt =====
-- `SessionStore` of dashboard/session.py: dashboard sessions, with an encrypted client secret.
pub mod Secrets
use beacon_mcp.Base.{
  ℕ, zero, suc, ◌+◌, String, Bool, true, false, ◌&&◌, not, Option, none, some, List, [], ◌∷◌, ◌++◌,
  ltb, leb, length, is_some, if◌then◌else◌, string_has_eq, ◌==◌,
}
use beacon_mcp.Base.Dict.{Dict, lookup, insert, erase, retain, count}
use beacon_mcp.Clock.{seconds}

abbrev pub Bytes : Type 0
Bytes = List ℕ

-- A row of the table `sessions`.
pub record SessionRow : Type 0 where
  pub client_id : String
  pub client_secret_enc : Bytes
  pub mcp_bearer : Option String
  pub mcp_bearer_expires_at : Option ℕ
  pub created_at : ℕ
  pub last_seen_at : ℕ
  pub expires_at : ℕ
  pub user_agent : Option String

-- `Session`
pub record Session : Type 0 where
  pub session_id : String
  pub client_id : String
  pub mcp_bearer : Option String
  pub mcp_bearer_expires_at : Option ℕ
  pub created_at : ℕ
  pub last_seen_at : ℕ
  pub expires_at : ℕ

abbrev pub Table : Type 0
Table = Dict String SessionRow

-- 90 days
abbrev pub session_ttl : ℕ
session_ttl = seconds 7776000

-- `is_expired`
abbrev pub is_expired : ℕ → Session → Bool
is_expired now s = leb s.expires_at now

-- `bearer_valid`: an empty bearer and a zero time count as absent.
pub bearer_valid : ℕ → Session → Bool
bearer_valid now s = elim s.mcp_bearer [
  | none ↦ false
  | some bearer ↦ elim s.mcp_bearer_expires_at [
    | none ↦ false
    | some t ↦ not (bearer == "") && (ltb 0 t && ltb now t)
  ]
]

pub session_of : String → SessionRow → Session
session_of session_id row = record {
  session_id = session_id;
  client_id = row.client_id;
  mcp_bearer = row.mcp_bearer;
  mcp_bearer_expires_at = row.mcp_bearer_expires_at;
  created_at = row.created_at;
  last_seen_at = row.last_seen_at;
  expires_at = row.expires_at;
}

-- `blob[:n]` and `blob[n:]`
pub split : ℕ → Bytes → Bytes × Bytes
split zero blob = ([], blob)
split (suc n) [] = ([], [])
split (suc n) (b ∷ blob) = let (front, back) = split n blob in (b ∷ front, back)

-- AES-GCM of the library, under the session key: `seal nonce plaintext`, and `unseal nonce ciphertext`,
-- which refuses what was not sealed with this key.
module _ (seal : Bytes → String → Bytes) (unseal : Bytes → Bytes → Option String) where
  -- `_encrypt`, with a random nonce of 12 bytes.
  pub encrypt : Bytes → String → Bytes
  encrypt nonce plaintext = nonce ++ seal nonce plaintext

  -- `_decrypt`, which raises on a blob that is too short.
  pub decrypt : Bytes → Option String
  unfolding split
  decrypt blob = if ltb (length blob) 28 then none else unseal (split 12 blob).0 (split 12 blob).1

  -- `create`, at `now`
  unfoldable pub create :
      String → Bytes → String → String → String → ℕ → Option String → ℕ → Table → Session × Table
  unfolding encrypt session_of
  create session_id nonce client_id secret bearer bearer_ttl user_agent now table =
      let row : SessionRow = record {
        client_id = client_id;
        client_secret_enc = encrypt nonce secret;
        mcp_bearer = some bearer;
        mcp_bearer_expires_at = some (now + seconds bearer_ttl);
        created_at = now;
        last_seen_at = now;
        expires_at = now + session_ttl;
        user_agent = user_agent;
      } in
      (session_of session_id row, insert session_id row table)

  -- `get_client_secret`
  pub get_client_secret : String → Table → Option String
  unfolding decrypt
  get_client_secret session_id table = elim (lookup session_id table) [
    | none ↦ none
    | some row ↦ decrypt row.client_secret_enc
  ]

-- `delete`: the bearer that was attached.
pub delete : String → Table → Option String × Table
delete session_id table = elim (lookup session_id table) [
  | none ↦ (none, table)
  | some row ↦ (row.mcp_bearer, erase session_id table)
]

-- `load`
pub load : String → ℕ → Table → Option Session × Table
unfolding session_of delete
load session_id now table =
    if session_id == "" then (none, table) else elim (lookup session_id table) [
      | none ↦ (none, table)
      | some row ↦
          if is_expired now (session_of session_id row)
          then (none, (delete session_id table).1)
          else (some (session_of session_id row), table)
    ]

-- `update_bearer`, with its two readings of the clock.
pub update_bearer : String → String → ℕ → ℕ → ℕ → Table → Table
update_bearer session_id bearer bearer_ttl t0 t1 table = elim (lookup session_id table) [
  | none ↦ table
  | some row ↦
      insert session_id
        (record row {
          mcp_bearer = some bearer;
          mcp_bearer_expires_at = some (t0 + seconds bearer_ttl);
          last_seen_at = t1;
        })
        table
]

-- `touch`
pub touch : String → ℕ → Table → Table
touch session_id now table = elim (lookup session_id table) [
  | none ↦ table
  | some row ↦ insert session_id (record row { last_seen_at = now }) table
]

-- `if row["mcp_bearer"]`
abbrev pub add_bearer : Option String → List String → List String
add_bearer none bearers = bearers
add_bearer (some bearer) bearers = if bearer == "" then bearers else bearer ∷ bearers

pub bearers_of : String → Table → List String
bearers_of client_id [] = []
bearers_of client_id ((session_id, row) ∷ table) =
    let rest = bearers_of client_id table in
    if row.client_id == client_id then add_bearer row.mcp_bearer rest else rest

-- `delete_all_for_client`
pub delete_all_for_client : String → Table → List String × Table
unfolding bearers_of
delete_all_for_client client_id table =
    (bearers_of client_id table, retain (λ row. not (row.client_id == client_id)) table)

-- `cleanup_expired`
pub cleanup_expired : ℕ → Table → ℕ × Table
cleanup_expired now table = (
  count (λ row. ltb row.expires_at now) table,
  retain (λ row. not (ltb row.expires_at now)) table,
)
