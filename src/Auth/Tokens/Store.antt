-- ===== src/Auth/Tokens/Store.antt =====
-- `TokenStore` of auth.py: the writes to the SQLite file, `_cleanup`, and the named tokens.
use beacon_mcp.Base.{
  ℕ, ◌+◌, ◌-◌, String, Bool, not, ◌&&◌, Option, none, some, ltb, leb, nat_eq, if◌then◌else◌, ◌==◌,
  string_has_eq, is_some, is_some_of, Result, ok, err,
}
use beacon_mcp.Base.Dict.{insert, erase, retain, count, keys, erase_keys, map_values}
use beacon_mcp.Auth.Tokens.Types.{
  AccessToken, RefreshToken, Db, TokenStore, TokenCapExceeded, cap_exceeded, token_ttl,
  refresh_reuse_grace, named_token_cap, map_db, row_of,
}
use beacon_mcp.Clock.{seconds, at, never, past}

-- One write to the file, if there is one. A write is taken to succeed.
abbrev pub db_write : (Db → Db) → TokenStore → TokenStore
db_write f s = record s { db = map_db f s.db }

-- `_persist`: named tokens only.
unfoldable pub persist : AccessToken → TokenStore → TokenStore
persist token s =
    if is_some token.name
    then db_write (λ d. record d { named = insert token.token token d.named }) s
    else s

-- `_unpersist`
unfoldable pub unpersist : String → TokenStore → TokenStore
unpersist token = db_write (λ d. record d { named = erase token d.named })

-- `_persist_oauth`
unfoldable pub persist_oauth : AccessToken → TokenStore → TokenStore
persist_oauth token = db_write (λ d. record d { oauth = insert token.token token d.oauth })

-- `_persist_refresh`
unfoldable pub persist_refresh : RefreshToken → TokenStore → TokenStore
persist_refresh token =
    db_write (λ d. record d { refresh = insert token.token_hash (row_of token) d.refresh })

-- `_drop_refresh`
unfoldable pub drop_refresh : String → TokenStore → TokenStore
drop_refresh h s =
    db_write (λ d. record d { refresh = erase h d.refresh })
      (record s { refresh_tokens = erase h s.refresh_tokens })

-- `_drop_oauth`
unfoldable pub drop_oauth : String → TokenStore → TokenStore
drop_oauth h s =
    db_write (λ d. record d { oauth = erase h d.oauth })
      (record s { oauth_tokens = erase h s.oauth_tokens })

abbrev pub is_live : ℕ → AccessToken → Bool
is_live now token = not (past now token.expires_at)

abbrev pub is_live_refresh : ℕ → RefreshToken → Bool
is_live_refresh now token = not (ltb token.expires_at now)

-- The first loop of `_cleanup`: bearers of the dashboard and named tokens.
unfoldable pub cleanup_tokens : ℕ → TokenStore → TokenStore
cleanup_tokens now s =
    let expired = keys (retain (λ t. past now t.expires_at && is_some t.name) s.tokens) in
    db_write (λ d. record d { named = erase_keys expired d.named })
      (record s { tokens = retain (is_live now) s.tokens })

-- The second loop: `_drop_oauth` for each that has expired.
unfoldable pub cleanup_oauth : ℕ → TokenStore → TokenStore
cleanup_oauth now s =
    let expired = keys (retain (λ t. past now t.expires_at) s.oauth_tokens) in
    db_write (λ d. record d { oauth = erase_keys expired d.oauth })
      (record s { oauth_tokens = retain (is_live now) s.oauth_tokens })

-- The third loop: `_drop_refresh` for each that has expired.
unfoldable pub cleanup_refresh : ℕ → TokenStore → TokenStore
cleanup_refresh now s =
    let expired = keys (retain (λ t. ltb t.expires_at now) s.refresh_tokens) in
    db_write (λ d. record d { refresh = erase_keys expired d.refresh })
      (record s { refresh_tokens = retain (is_live_refresh now) s.refresh_tokens })

-- The pair that a rotation minted is forgotten once the retry grace is over.
unfoldable pub forget_replay : ℕ → RefreshToken → RefreshToken
forget_replay now token =
    if is_some token.replay && ltb refresh_reuse_grace (now - token.used_at)
    then record token { replay = none }
    else token

-- `_cleanup`
unfoldable pub cleanup : ℕ → TokenStore → TokenStore
cleanup now s =
    let s' = cleanup_refresh now (cleanup_oauth now (cleanup_tokens now s)) in
    record s' { refresh_tokens = map_values (forget_replay now) s'.refresh_tokens }

abbrev pub is_named_of : String → AccessToken → Bool
is_named_of client_id token = token.client_id == client_id && is_some token.name

-- `count_named`
unfoldable pub count_named : ℕ → String → TokenStore → ℕ × TokenStore
count_named now client_id s =
    let s' = cleanup now s in (count (is_named_of client_id) s'.tokens, s')

-- The entry that `issue` makes; a named lifetime of 0 means that it never expires.
unfoldable pub new_token : String → Option String → String → ℕ → ℕ → AccessToken
new_token client_id name token now ttl = record {
  token = token;
  client_id = client_id;
  expires_at = if is_some name && nat_eq ttl 0 then never else at (now + seconds ttl);
  name = name;
  created_at = now;
  family_id = none;
}

-- The body of `issue` once the cap is passed: `now`, then the reading of `_cleanup`.
unfoldable pub issue_token :
    String → Option String → String → ℕ → ℕ → TokenStore → (String × ℕ) × TokenStore
unfolding new_token
issue_token client_id name token now t2 s =
    let ttl = if is_some name then s.named_token_ttl else token_ttl in
    let entry = new_token client_id name token now ttl in
    ((token, ttl), cleanup t2 (persist entry (record s { tokens = insert token entry s.tokens })))

-- `issue`: the readings are those of `count_named`, `now` and `_cleanup`.
unfoldable pub issue :
    String
    → Option String
    → String
    → ℕ
    → ℕ
    → ℕ
    → TokenStore
    → Result TokenCapExceeded (String × ℕ) × TokenStore
issue client_id none token t0 now t2 s =
    let (r, s') = issue_token client_id none token now t2 s in (ok r, s')
issue client_id (some name) token t0 now t2 s =
    let (n, s₁) = count_named t0 client_id s in
    let (r, s₂) = issue_token client_id (some name) token now t2 s₁ in
    if leb named_token_cap n then (err cap_exceeded, s₁) else (ok r, s₂)

-- `revoke_family`
unfoldable pub revoke_family : String → TokenStore → TokenStore
revoke_family family_id s =
    db_write
      (λ d. record d {
        refresh = retain (λ r. not (r.family_id == family_id)) d.refresh;
        oauth = retain (λ a. not (is_some_of a.family_id family_id)) d.oauth;
      })
      (record s {
        refresh_tokens = retain (λ r. not (r.family_id == family_id)) s.refresh_tokens;
        oauth_tokens = retain (λ a. not (is_some_of a.family_id family_id)) s.oauth_tokens;
      })
