-- ===== src/Auth/Tokens/Bounds/Inv.antt =====
-- The invariant of the store, relative to a table of the ends of all sign-ins.
use beacon_mcp.Base.{ℕ, ◌≤◌, String, ◌≡◌, Option, none, some, string_has_eq}
use beacon_mcp.Base.Dict.{Every, IsDict}
use beacon_mcp.Clock.{Deadline, at, never}
use beacon_mcp.Auth.Tokens.Types.{AccessToken, RefreshToken, RefreshRow, Db, TokenStore}

module _ (ends : String → ℕ) where
  -- A token of a family ends no later than the family does.
  abbrev pub Within : Option String → Deadline → Type 0
  Within none d = Unit
  Within (some f) (at t) = t ≤ ends f
  Within (some f) never = ⊥

  abbrev pub BoundedAccess : String → AccessToken → Type 0
  BoundedAccess k a = (a.token ≡ k) × Within a.family_id a.expires_at

  abbrev pub BoundedRefresh : String → RefreshToken → Type 0
  BoundedRefresh k r =
      (r.token_hash ≡ k)
      × (r.family_expires_at ≡ ends r.family_id)
      × (r.expires_at ≤ ends r.family_id)

  abbrev pub BoundedRow : String → RefreshRow → Type 0
  BoundedRow k r =
      (r.token_hash ≡ k)
      × (r.family_expires_at ≡ some (ends r.family_id))
      × (r.expires_at ≤ ends r.family_id)

  pub record BoundedDb (d : Db) : Type 0 where
    pub named_keys : IsDict d.named
    pub oauth_keys : IsDict d.oauth
    pub refresh_keys : IsDict d.refresh
    pub access : Every BoundedAccess d.oauth
    pub refresh : Every BoundedRow d.refresh

  abbrev pub BoundedFile : Option Db → Type 0
  BoundedFile none = Unit
  BoundedFile (some d) = BoundedDb d

  pub record Bounded (s : TokenStore) : Type 0 where
    pub tokens_keys : IsDict s.tokens
    pub oauth_keys : IsDict s.oauth_tokens
    pub refresh_keys : IsDict s.refresh_tokens
    pub access : Every BoundedAccess s.oauth_tokens
    pub refresh : Every BoundedRefresh s.refresh_tokens
    pub file : BoundedFile s.db
