-- ===== src/Auth/Tokens/Calls.antt =====
-- The calls of `TokenStore` as a step relation.
use beacon_mcp.Base.{ℕ, ◌+◌, String, ◌≡◌, Option, none, some, List}
use beacon_mcp.Clock.{seconds}
use beacon_mcp.Auth.Tokens.Types.{TokenStore, session_lifetime}
use beacon_mcp.Auth.Tokens.Store.{cleanup, issue, revoke_family}
use beacon_mcp.Auth.Tokens.Oauth.{
  issue_oauth, refresh, validate, revoke, revoke_named, revoke_client, prune_unknown_clients,
}

-- One call of a public method. `ends` says when the sign-in of each
-- family ends: family ids are random, so that none is drawn for two sign-ins.
pub data Call (hash : String → String) (ends : String → ℕ) : TokenStore → TokenStore → Type 0 where
  issues :
      (client : String) (name : Option String) (token : String) (t0 t1 t2 : ℕ) (s : TokenStore)
      → Call hash ends s (issue client name token t0 t1 t2 s).1
  signs_in :
      (client f access fresh : String) (t0 t1 t2 : ℕ) (s : TokenStore)
      → ends f ≡ t0 + seconds session_lifetime
      → Call hash ends s (issue_oauth hash client (some f) access fresh t0 t1 t2 s).1
  grants :
      (client access fresh : String) (t0 t1 t2 : ℕ) (s : TokenStore)
      → Call hash ends s (issue_oauth hash client none access fresh t0 t1 t2 s).1
  refreshes :
      (token client access fresh : String) (t0 t1 t2 : ℕ) (s : TokenStore)
      → Call hash ends s (refresh hash token client access fresh t0 t1 t2 s).1
  validates :
      (token : String) (now : ℕ) (s : TokenStore) → Call hash ends s (validate hash token now s).1
  revokes :
      (token : String) (now : ℕ) (s : TokenStore) → Call hash ends s (revoke hash token now s).1
  revokes_named :
      (prefix client : String) (now : ℕ) (s : TokenStore)
      → Call hash ends s (revoke_named hash prefix client now s).1
  revokes_family : (f : String) (s : TokenStore) → Call hash ends s (revoke_family f s)
  revokes_client : (client : String) (s : TokenStore) → Call hash ends s (revoke_client client s).1
  prunes :
      (known : List String) (s : TokenStore) → Call hash ends s (prune_unknown_clients known s).1
  lists : (now : ℕ) (s : TokenStore) → Call hash ends s (cleanup now s)

-- A run of calls in one process.
pub data Calls (hash : String → String) (ends : String → ℕ) (s : TokenStore)
    : TokenStore → Type 0 where
  none_yet : Calls hash ends s s
  then_call : {t u : TokenStore} → Calls hash ends s t → Call hash ends t u → Calls hash ends s u
