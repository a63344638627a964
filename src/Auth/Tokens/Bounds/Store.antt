-- ===== src/Auth/Tokens/Bounds/Store.antt =====
-- The bounds of the sign-ins across `_cleanup`, `issue` and the revocations.
use beacon_mcp.Base.{
  ℕ, String, Bool, Option, none, some, arith, string_has_eq, is_some, inl, inr, Bool-cases,
}
use beacon_mcp.Base.Dict.{
  Dict, retain, IsDict, Every-erase, Every-erase_keys, Every-retain, Every-map_values,
  IsDict-insert, IsDict-erase, IsDict-erase_keys, IsDict-retain, IsDict-map_values,
}
use beacon_mcp.Auth.Tokens.Types.{AccessToken, RefreshToken, RefreshRow, Db, TokenStore, map_db}
use beacon_mcp.Auth.Tokens.Store.{
  db_write, unpersist, persist, drop_oauth, drop_refresh, cleanup, cleanup_tokens, cleanup_oauth,
  cleanup_refresh, forget_replay, count_named, issue_token, issue, revoke_family,
}
use beacon_mcp.Auth.Tokens.Bounds.Inv.{
  BoundedAccess, BoundedRefresh, BoundedRow, BoundedDb, BoundedFile, Bounded,
}

module _ (ends : String → ℕ) where
  pub map_db-Bounded :
      (f : Db → Db) (o : Option Db)
      → ((d : Db) → BoundedDb ends d → BoundedDb ends (f d))
      → BoundedFile ends o
      → BoundedFile ends (map_db f o)
  map_db-Bounded f none keep h = tt
  map_db-Bounded f (some d) keep h = keep d h

  cleanup_tokens-Bounded :
      (now : ℕ) (s : TokenStore) → Bounded ends s → Bounded ends (cleanup_tokens now s)
  unfolding cleanup_tokens
  cleanup_tokens-Bounded now s b = record {
    tokens_keys = IsDict-retain _ _ b.tokens_keys;
    oauth_keys = b.oauth_keys;
    refresh_keys = b.refresh_keys;
    access = b.access;
    refresh = b.refresh;
    file =
        map_db-Bounded _ s.db
          (λ d h. record {
            named_keys = IsDict-erase_keys _ _ h.named_keys;
            oauth_keys = h.oauth_keys;
            refresh_keys = h.refresh_keys;
            access = h.access;
            refresh = h.refresh;
          })
          b.file;
  }

  cleanup_oauth-Bounded :
      (now : ℕ) (s : TokenStore) → Bounded ends s → Bounded ends (cleanup_oauth now s)
  unfolding cleanup_oauth
  cleanup_oauth-Bounded now s b = record {
    tokens_keys = b.tokens_keys;
    oauth_keys = IsDict-retain _ _ b.oauth_keys;
    refresh_keys = b.refresh_keys;
    access = Every-retain (BoundedAccess ends) _ _ b.access;
    refresh = b.refresh;
    file =
        map_db-Bounded _ s.db
          (λ d h. record {
            named_keys = h.named_keys;
            oauth_keys = IsDict-erase_keys _ _ h.oauth_keys;
            refresh_keys = h.refresh_keys;
            access = Every-erase_keys (BoundedAccess ends) _ _ h.access;
            refresh = h.refresh;
          })
          b.file;
  }

  cleanup_refresh-Bounded :
      (now : ℕ) (s : TokenStore) → Bounded ends s → Bounded ends (cleanup_refresh now s)
  unfolding cleanup_refresh
  cleanup_refresh-Bounded now s b = record {
    tokens_keys = b.tokens_keys;
    oauth_keys = b.oauth_keys;
    refresh_keys = IsDict-retain _ _ b.refresh_keys;
    access = b.access;
    refresh = Every-retain (BoundedRefresh ends) _ _ b.refresh;
    file =
        map_db-Bounded _ s.db
          (λ d h. record {
            named_keys = h.named_keys;
            oauth_keys = h.oauth_keys;
            refresh_keys = IsDict-erase_keys _ _ h.refresh_keys;
            access = h.access;
            refresh = Every-erase_keys (BoundedRow ends) _ _ h.refresh;
          })
          b.file;
  }

  forget_replay-Bounded :
      (now : ℕ) (k : String) (r : RefreshToken)
      → BoundedRefresh ends k r
      → BoundedRefresh ends k (forget_replay now r)
  unfolding forget_replay
  forget_replay-Bounded now k r h = ground arith

  pub cleanup-Bounded : (now : ℕ) (s : TokenStore) → Bounded ends s → Bounded ends (cleanup now s)
  unfolding cleanup
  cleanup-Bounded now s b = record {
    tokens_keys = c.tokens_keys;
    oauth_keys = c.oauth_keys;
    refresh_keys = IsDict-map_values _ _ c.refresh_keys;
    access = c.access;
    refresh = Every-map_values (BoundedRefresh ends) _ _ (forget_replay-Bounded now) c.refresh;
    file = c.file;
  }
    where
      c : Bounded ends (cleanup_refresh now (cleanup_oauth now (cleanup_tokens now s)))
      c =
          cleanup_refresh-Bounded now _
            (cleanup_oauth-Bounded now _ (cleanup_tokens-Bounded now s b))

  pub unpersist-Bounded :
      (t : String) (s : TokenStore) → Bounded ends s → Bounded ends (unpersist t s)
  unfolding unpersist
  unpersist-Bounded t s b = record {
    tokens_keys = b.tokens_keys;
    oauth_keys = b.oauth_keys;
    refresh_keys = b.refresh_keys;
    access = b.access;
    refresh = b.refresh;
    file =
        map_db-Bounded _ s.db
          (λ d h. record {
            named_keys = IsDict-erase _ _ h.named_keys;
            oauth_keys = h.oauth_keys;
            refresh_keys = h.refresh_keys;
            access = h.access;
            refresh = h.refresh;
          })
          b.file;
  }

  persist-Bounded : (a : AccessToken) (s : TokenStore) → Bounded ends s → Bounded ends (persist a s)
  unfolding persist
  persist-Bounded a s b = elim (Bool-cases (is_some a.name)) [
    | inl named ↦
        rw (named, persist)
          (record {
            tokens_keys = b.tokens_keys;
            oauth_keys = b.oauth_keys;
            refresh_keys = b.refresh_keys;
            access = b.access;
            refresh = b.refresh;
            file =
                map_db-Bounded _ s.db
                  (λ d h. record {
                    named_keys = IsDict-insert _ _ _ h.named_keys;
                    oauth_keys = h.oauth_keys;
                    refresh_keys = h.refresh_keys;
                    access = h.access;
                    refresh = h.refresh;
                  })
                  b.file;
          })
    | inr internal ↦ rw (internal, persist) b
  ]

  -- A change of the bearers alone.
  pub tokens-Bounded :
      (s : TokenStore) (ts : Dict String AccessToken)
      → Bounded ends s
      → IsDict ts
      → Bounded ends (record s { tokens = ts })
  tokens-Bounded s ts b h = record {
    tokens_keys = h;
    oauth_keys = b.oauth_keys;
    refresh_keys = b.refresh_keys;
    access = b.access;
    refresh = b.refresh;
    file = b.file;
  }

  issue_token-Bounded :
      (client : String) (name : Option String) (token : String) (t1 t2 : ℕ) (s : TokenStore)
      → Bounded ends s
      → Bounded ends (issue_token client name token t1 t2 s).1
  unfolding issue_token
  issue_token-Bounded client name token t1 t2 s b =
      cleanup-Bounded t2 _
        (persist-Bounded _ _ (tokens-Bounded s _ b (IsDict-insert _ _ _ b.tokens_keys)))

  pub issue-Bounded :
      (client : String) (name : Option String) (token : String) (t0 t1 t2 : ℕ) (s : TokenStore)
      → Bounded ends s
      → Bounded ends (issue client name token t0 t1 t2 s).1
  unfolding issue count_named
  issue-Bounded client none token t0 t1 t2 s b = issue_token-Bounded client none token t1 t2 s b
  issue-Bounded client (some n) token t0 t1 t2 s b = ground (
    arith,
    cleanup-Bounded t0 s b,
    issue_token-Bounded client (some n) token t1 t2 (cleanup t0 s),
  )

  pub drop_oauth-Bounded :
      (h : String) (s : TokenStore) → Bounded ends s → Bounded ends (drop_oauth h s)
  unfolding drop_oauth
  drop_oauth-Bounded k s b = record {
    tokens_keys = b.tokens_keys;
    oauth_keys = IsDict-erase _ _ b.oauth_keys;
    refresh_keys = b.refresh_keys;
    access = Every-erase (BoundedAccess ends) _ _ b.access;
    refresh = b.refresh;
    file =
        map_db-Bounded _ s.db
          (λ d h. record {
            named_keys = h.named_keys;
            oauth_keys = IsDict-erase _ _ h.oauth_keys;
            refresh_keys = h.refresh_keys;
            access = Every-erase (BoundedAccess ends) _ _ h.access;
            refresh = h.refresh;
          })
          b.file;
  }

  pub drop_refresh-Bounded :
      (h : String) (s : TokenStore) → Bounded ends s → Bounded ends (drop_refresh h s)
  unfolding drop_refresh
  drop_refresh-Bounded k s b = record {
    tokens_keys = b.tokens_keys;
    oauth_keys = b.oauth_keys;
    refresh_keys = IsDict-erase _ _ b.refresh_keys;
    access = b.access;
    refresh = Every-erase (BoundedRefresh ends) _ _ b.refresh;
    file =
        map_db-Bounded _ s.db
          (λ d h. record {
            named_keys = h.named_keys;
            oauth_keys = h.oauth_keys;
            refresh_keys = IsDict-erase _ _ h.refresh_keys;
            access = h.access;
            refresh = Every-erase (BoundedRow ends) _ _ h.refresh;
          })
          b.file;
  }

  -- Dropping the OAuth tokens and rows that fail tests, as the revocations do.
  pub retain-Bounded :
      (pa qa : AccessToken → Bool) (pr : RefreshToken → Bool) (qr : RefreshRow → Bool)
      (s : TokenStore)
      → Bounded ends s
      → Bounded ends (
          db_write
            (λ d. record d { oauth = retain qa d.oauth; refresh = retain qr d.refresh })
            (record s {
              oauth_tokens = retain pa s.oauth_tokens;
              refresh_tokens = retain pr s.refresh_tokens;
            }))
  retain-Bounded pa qa pr qr s b = record {
    tokens_keys = b.tokens_keys;
    oauth_keys = IsDict-retain _ _ b.oauth_keys;
    refresh_keys = IsDict-retain _ _ b.refresh_keys;
    access = Every-retain (BoundedAccess ends) _ _ b.access;
    refresh = Every-retain (BoundedRefresh ends) _ _ b.refresh;
    file =
        map_db-Bounded _ s.db
          (λ d h. record {
            named_keys = h.named_keys;
            oauth_keys = IsDict-retain _ _ h.oauth_keys;
            refresh_keys = IsDict-retain _ _ h.refresh_keys;
            access = Every-retain (BoundedAccess ends) _ _ h.access;
            refresh = Every-retain (BoundedRow ends) _ _ h.refresh;
          })
          b.file;
  }

  pub revoke_family-Bounded :
      (f : String) (s : TokenStore) → Bounded ends s → Bounded ends (revoke_family f s)
  unfolding revoke_family
  revoke_family-Bounded f s b = retain-Bounded _ _ _ _ s b
