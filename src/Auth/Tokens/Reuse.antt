-- ===== src/Auth/Tokens/Reuse.antt =====
-- `refresh` of `TokenStore` on a token that was already exchanged.
use beacon_mcp.Base.{
  ℕ, ◌+◌, ◌≤◌, ◌<◌, String, ◌≡◌, ◌≢◌, refl, ap, true, false, not, Option, none, some, arith,
  string_has_eq, ◌⊎◌, ◌==◌, is_some_of, eq_refl, eq_of_ne, ok, err,
}
use beacon_mcp.Base.Dict.{
  lookup, retain, Every, IsDict, Every-retain_passes, Every-map, lookup-retain,
}
use beacon_mcp.Auth.Tokens.Types.{
  AccessToken, RefreshToken, Db, TokenStore, OauthGrant, reused, map_db, refresh_reuse_grace,
}
use beacon_mcp.Auth.Tokens.Store.{revoke_family}
use beacon_mcp.Auth.Tokens.Oauth.{refresh, replayed, rotate}

abbrev pub NoRows : String → Option Db → Type 0
NoRows f none = Unit
NoRows f (some d) =
    Every (λ _ a. a.family_id ≢ some f) d.oauth × Every (λ _ r. r.family_id ≢ f) d.refresh

-- Nothing is left of a family: no access token, no refresh token, no row of the file.
abbrev pub FamilyGone : String → TokenStore → Type 0
FamilyGone f s =
    Every (λ _ a. a.family_id ≢ some f) s.oauth_tokens
    × Every (λ _ r. r.family_id ≢ f) s.refresh_tokens
    × NoRows f s.db

other_family : (f : String) (o : Option String) → not (is_some_of o f) ≡ true → o ≢ some f
other_family f none h e = cc
other_family f (some g) h e = ground (arith, eq_refl {A = String} f)

is_some_of-ne : (o : Option String) (f : String) → o ≢ some f → is_some_of o f ≡ false
is_some_of-ne none f h = refl
is_some_of-ne (some g) f h = eq_of_ne {A = String} g f (λ e. h (ap some e))

pub other_refresh : (f g : String) → not (g == f) ≡ true → g ≢ f
other_refresh f g h e = ground (arith, eq_refl {A = String} f)

NoRows-revoke_family :
    (f : String) (o : Option Db)
    → NoRows f (
        map_db
          (λ d. record d {
            refresh = retain (λ r. not (r.family_id == f)) d.refresh;
            oauth = retain (λ a. not (is_some_of a.family_id f)) d.oauth;
          })
          o)
NoRows-revoke_family f none = tt
NoRows-revoke_family f (some d) = (
  Every-map _ _ _ (λ _ a h. other_family f a.family_id h) (Every-retain_passes _ d.oauth),
  Every-map _ _ _ (λ _ r h. other_refresh f r.family_id h) (Every-retain_passes _ d.refresh),
)

pub revoke_family-FamilyGone : (f : String) (s : TokenStore) → FamilyGone f (revoke_family f s)
unfolding revoke_family
revoke_family-FamilyGone f s = (
  Every-map _ _ _ (λ _ a h. other_family f a.family_id h) (Every-retain_passes _ s.oauth_tokens),
  Every-map _ _ _ (λ _ r h. other_refresh f r.family_id h) (Every-retain_passes _ s.refresh_tokens),
  NoRows-revoke_family f s.db,
)

-- A bearer of another family outlives the revocation.
pub revoke_family-spares :
    (f k : String) (a : AccessToken) (s : TokenStore)
    → IsDict s.oauth_tokens
    → lookup k s.oauth_tokens ≡ some a
    → a.family_id ≢ some f
    → lookup k (revoke_family f s).oauth_tokens ≡ some a
unfolding revoke_family
revoke_family-spares f k a s d found other =
    rw (lookup-retain k (λ b. not (is_some_of b.family_id f)) s.oauth_tokens d)
      (ground (arith, is_some_of-ne a.family_id f other))

module _ (hash : String → String) (token client access fresh : String) (now t1 t2 : ℕ)
    (s : TokenStore) (r : RefreshToken) (found : lookup (hash token) s.refresh_tokens ≡ some r)
    (own : r.client_id ≡ client) where
  refresh-eq_replayed :
      r.used ≡ true
      → now < r.family_expires_at
      → refresh hash token client access fresh now t1 t2 s ≡ replayed r now s
  unfolding refresh
  refresh-eq_replayed spent alive =
      rw (found, refresh) (ground (arith, own, eq_refl {A = String} client))

  pub refresh-eq_rotate :
      r.used ≡ false
      → now ≤ r.expires_at
      → now < r.family_expires_at
      → refresh hash token client access fresh now t1 t2 s ≡ (
        ok (rotate hash r token client access fresh now t1 t2 s).0,
        (rotate hash r token client access fresh now t1 t2 s).1,
      )
  unfolding refresh
  refresh-eq_rotate unspent idle alive =
      rw (found, refresh) (ground (arith, own, eq_refl {A = String} client))

  refresh-eq_reuse :
      r.used ≡ true
      → now < r.family_expires_at
      → (r.replay ≡ none) ⊎ (r.used_at + refresh_reuse_grace < now)
      → refresh hash token client access fresh now t1 t2 s
        ≡ (err (reused r.family_id), revoke_family r.family_id s)
  unfolding replayed
  refresh-eq_reuse spent alive late = rw (refresh-eq_replayed spent alive, replayed) (ground arith)

  pub refresh-eq_retry :
      {g : OauthGrant}
      → r.used ≡ true
      → now < r.family_expires_at
      → r.replay ≡ some g
      → now ≤ r.used_at + refresh_reuse_grace
      → refresh hash token client access fresh now t1 t2 s ≡ (ok g, s)
  unfolding replayed
  refresh-eq_retry spent alive kept soon =
      rw (refresh-eq_replayed spent alive, replayed) (ground arith)

  -- A refresh token that was already exchanged comes back from its own client, before the end of
  -- its sign-in, and either with no pair kept for a retry or after the grace: the call fails as
  -- reuse, and nothing is left of the family, in memory or in the file.
  pub refresh-reuse :
      r.used ≡ true
      → now < r.family_expires_at
      → (r.replay ≡ none) ⊎ (r.used_at + refresh_reuse_grace < now)
      → let (result, s') = refresh hash token client access fresh now t1 t2 s in
        (result ≡ err (reused r.family_id)) × FamilyGone r.family_id s'
  refresh-reuse spent alive late =
      rw (refresh-eq_reuse spent alive late) (refl, revoke_family-FamilyGone r.family_id s)
