-- ===== src/Auth/Tokens/Bounds/Startup.antt =====
-- The bounds of the sign-ins across a reading of the file.
use beacon_mcp.Base.{
  ℕ, String, ◌≡◌, refl, subst, Option, none, some, List, arith, string_has_eq, [], ◌∷◌, inl, inr,
  Option-cases, ok,
}
use beacon_mcp.Base.Dict.{
  Dict, lookup, Every, IsDict, Every-retain, Every-map_values, IsDict-retain, IsDict-map_values,
}
use beacon_mcp.Clock.{Deadline, at, never}
use beacon_mcp.Auth.Tokens.Types.{
  AccessToken, RefreshRow, Db, TokenStore, default_named_token_ttl, default_refresh_token_ttl,
}
use beacon_mcp.Auth.Tokens.Startup.{
  bound_legacy_row, cap_refresh_row, sooner_of, cap_oauth_row, bound_legacy_sessions, load_row,
  load_rows, init_db, open_store, init, empty_store, or_default,
}
use beacon_mcp.Auth.Tokens.Bounds.Inv.{
  Within, BoundedAccess, BoundedRefresh, BoundedRow, BoundedDb, BoundedFile, Bounded,
}

module _ (ends : String → ℕ) where
  bound_legacy_row-Bounded :
      (rows : List RefreshRow) (k : String) (r : RefreshRow)
      → BoundedRow ends k r
      → BoundedRow ends k (bound_legacy_row rows r)
  unfolding bound_legacy_row
  bound_legacy_row-Bounded rows k r h = rw (h.1, bound_legacy_row) h

  cap_refresh_row-Bounded :
      (k : String) (r : RefreshRow) → BoundedRow ends k r → BoundedRow ends k (cap_refresh_row r)
  unfolding cap_refresh_row
  cap_refresh_row-Bounded k r h = rw (h.1, cap_refresh_row) (h.0, h.1, omega (arith, h.2))

  sooner_of-Within :
      (f : Option String) (d : Deadline) (o : Option ℕ)
      → Within ends f d
      → Within ends f (sooner_of d o)
  unfolding sooner_of
  sooner_of-Within none d o h = tt
  sooner_of-Within (some f) d none h = h
  sooner_of-Within (some f) (at t) (some e) h = omega arith
  sooner_of-Within (some f) never (some e) h = absurd h

  cap_oauth_row-Bounded :
      (rows : List RefreshRow) (k : String) (a : AccessToken)
      → BoundedAccess ends k a
      → BoundedAccess ends k (cap_oauth_row rows a)
  unfolding cap_oauth_row
  cap_oauth_row-Bounded rows k a h = elim (Option-cases a.family_id) [
    | inl alone ↦ rw (alone, cap_oauth_row) h
    | inr (f, e) ↦ rw (e, cap_oauth_row) (h.0, sooner_of-Within a.family_id a.expires_at _ h.1)
  ]

  bound_legacy_sessions-Bounded :
      (d : Db) → BoundedDb ends d → BoundedDb ends (bound_legacy_sessions d)
  unfolding bound_legacy_sessions
  bound_legacy_sessions-Bounded d h = record {
    named_keys = h.named_keys;
    oauth_keys = IsDict-map_values _ _ h.oauth_keys;
    refresh_keys = IsDict-map_values _ _ (IsDict-map_values _ _ h.refresh_keys);
    access =
        Every-map_values (BoundedAccess ends) _ _ (λ k a. cap_oauth_row-Bounded _ k a) h.access;
    refresh =
        Every-map_values (BoundedRow ends) _ _ cap_refresh_row-Bounded (
          Every-map_values (BoundedRow ends) _ _ (λ k r. bound_legacy_row-Bounded _ k r) h.refresh);
  }

  load_row-Bounded :
      (k : String) (r : RefreshRow) → BoundedRow ends k r → BoundedRefresh ends k (load_row r)
  unfolding load_row
  load_row-Bounded k r h = rw (h.1, load_row) (h.0, refl, h.2)

  load_rows-Bounded :
      (rows : Dict String RefreshRow)
      → Every (BoundedRow ends) rows
      → Every (BoundedRefresh ends) (load_rows rows)
  unfolding load_rows
  load_rows-Bounded [] h = tt
  load_rows-Bounded ((k, r) ∷ rows) h = (load_row-Bounded k r h.0, load_rows-Bounded rows h.1)

  lookup-load_rows-none :
      (k : String) (rows : Dict String RefreshRow)
      → lookup k rows ≡ none
      → lookup k (load_rows rows) ≡ none
  unfolding load_rows lookup
  lookup-load_rows-none k [] h = refl
  lookup-load_rows-none k ((j, r) ∷ rows) h = ground (arith, lookup-load_rows-none k rows)

  load_rows-IsDict : (rows : Dict String RefreshRow) → IsDict rows → IsDict (load_rows rows)
  unfolding load_rows
  load_rows-IsDict [] h = tt
  load_rows-IsDict ((k, r) ∷ rows) h = (lookup-load_rows-none k rows h.0, load_rows-IsDict rows h.1)

  pub init_db-Bounded :
      (now : ℕ) (d : Db) (s : TokenStore) → BoundedDb ends d → Bounded ends (init_db now d s)
  unfolding init_db
  init_db-Bounded now d s h = record {
    tokens_keys = IsDict-retain _ _ b.named_keys;
    oauth_keys = IsDict-retain _ _ b.oauth_keys;
    refresh_keys = load_rows-IsDict _ (IsDict-retain _ _ b.refresh_keys);
    access = Every-retain (BoundedAccess ends) _ _ b.access;
    refresh = load_rows-Bounded _ (Every-retain (BoundedRow ends) _ _ b.refresh);
    file = record {
      named_keys = IsDict-retain _ _ b.named_keys;
      oauth_keys = IsDict-retain _ _ b.oauth_keys;
      refresh_keys = IsDict-retain _ _ b.refresh_keys;
      access = Every-retain (BoundedAccess ends) _ _ b.access;
      refresh = Every-retain (BoundedRow ends) _ _ b.refresh;
    };
  }
    where
      b : BoundedDb ends (bound_legacy_sessions d)
      b = bound_legacy_sessions-Bounded d h

  open_store-Bounded :
      (file : Option Db) (n r now : ℕ)
      → BoundedFile ends file
      → Bounded ends (open_store file now (empty_store n r))
  unfolding open_store
  open_store-Bounded none n r now h = record {
    tokens_keys = tt;
    oauth_keys = tt;
    refresh_keys = tt;
    access = tt;
    refresh = tt;
    file = tt;
  }
  open_store-Bounded (some d) n r now h = init_db-Bounded now d (empty_store n r) h

  -- A new store is bounded if its file is.
  pub init-Bounded :
      (file : Option Db) (named_ttl refresh_ttl : Option ℕ) (now : ℕ) {s : TokenStore}
      → BoundedFile ends file
      → init file named_ttl refresh_ttl now ≡ ok s
      → Bounded ends s
  unfolding init
  init-Bounded file n r now {s} h made = subst (Bounded ends) (ground arith) (
      open_store-Bounded file (or_default n default_named_token_ttl)
        (or_default r default_refresh_token_ttl) now h)
