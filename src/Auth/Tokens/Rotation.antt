-- ===== src/Auth/Tokens/Rotation.antt =====
-- An exchange of a refresh token: what it leaves behind, and what a retry of the call gets.
use beacon_mcp.Base.{
  ℕ, ◌+◌, ◌≤◌, ◌<◌, min, String, ◌≡◌, ◌≢◌, refl, sym, ap, ◌∙◌, true, false, none, some, arith,
  string_has_eq, inr, eq_refl, eq_of_ne, ok, err,
}
use beacon_mcp.Base.Dict.{lookup, IsDict, lookup-insert, IsDict-insert}
use beacon_mcp.Clock.{at, seconds}
use beacon_mcp.Auth.Tokens.Types.{
  AccessToken, RefreshToken, TokenStore, OauthGrant, reused, refresh_reuse_grace, token_ttl,
}
use beacon_mcp.Auth.Tokens.Store.{persist_refresh, persist_oauth, forget_replay}
use beacon_mcp.Auth.Tokens.Oauth.{refresh, rotate, mint_oauth, validate}
use beacon_mcp.Auth.Tokens.Lookups.{
  lookup-cleanup_refresh, lookup-cleanup_oauth, lookup-cleanup-none, validate-of_oauth, answer,
}
use beacon_mcp.Auth.Tokens.Reuse.{refresh-eq_rotate, refresh-eq_retry, refresh-reuse, FamilyGone}

module _ (hash : String → String) (token client access fresh : String) (now t1 t2 : ℕ)
    (s : TokenStore) (r : RefreshToken) (dict : IsDict s.refresh_tokens)
    (apart : hash fresh ≢ hash token) (in_session : t2 ≤ r.family_expires_at) where
  abbrev exchanged : OauthGrant × TokenStore
  exchanged = rotate hash r token client access fresh now t1 t2 s

  -- The presented token as the exchange leaves it: spent until the sign-in ends, with the pair.
  abbrev spent : RefreshToken
  spent = record r {
    expires_at = r.family_expires_at;
    used = true;
    used_at = now;
    replay = some exchanged.0;
  }

  -- The refresh token that it mints.
  abbrev minted : RefreshToken
  minted = record {
    token_hash = hash fresh;
    client_id = client;
    family_id = r.family_id;
    expires_at = min (t1 + seconds s.refresh_token_ttl) r.family_expires_at;
    created_at = t1;
    family_expires_at = r.family_expires_at;
    used = false;
    used_at = 0;
    replay = none;
  }

  -- The access token that it mints.
  abbrev minted_access : AccessToken
  minted_access = record {
    token = hash access;
    client_id = client;
    expires_at = at (min (t1 + seconds token_ttl) r.family_expires_at);
    name = none;
    created_at = t1;
    family_id = some r.family_id;
  }

  forget_replay-spent : t2 ≤ now + refresh_reuse_grace → forget_replay t2 spent ≡ spent
  unfolding forget_replay
  forget_replay-spent soon = ground arith

  pub lookup-exchanged_spent :
      t2 ≤ now + refresh_reuse_grace → lookup (hash token) exchanged.1.refresh_tokens ≡ some spent
  unfolding rotate mint_oauth persist_refresh persist_oauth
  lookup-exchanged_spent soon =
      lookup-cleanup_refresh (hash token) t2 _ spent
        (IsDict-insert _ _ _ (IsDict-insert _ _ _ (IsDict-insert _ _ _ dict)))
        (rw (lookup-insert, eq_refl {A = String} (hash token))) (ground arith)
      ∙ ap some (forget_replay-spent soon)

  pub lookup-exchanged_minted :
      t2 ≤ t1 + seconds s.refresh_token_ttl
      → lookup (hash fresh) exchanged.1.refresh_tokens ≡ some minted
  unfolding rotate mint_oauth persist_refresh persist_oauth forget_replay
  lookup-exchanged_minted lasting =
      lookup-cleanup_refresh (hash fresh) t2 _ minted
        (IsDict-insert _ _ _ (IsDict-insert _ _ _ (IsDict-insert _ _ _ dict)))
        (simp (
          lookup-insert,
          eq_refl {A = String} (hash fresh),
          eq_of_ne {A = String} (hash token) (hash fresh) (λ e. apart (sym e)),
        ))
        (ground arith)

  lookup-exchanged_access :
      IsDict s.oauth_tokens
      → t2 ≤ t1 + seconds token_ttl
      → lookup (hash access) exchanged.1.oauth_tokens ≡ some minted_access
  unfolding rotate mint_oauth persist_refresh persist_oauth
  lookup-exchanged_access keys lasting =
      lookup-cleanup_oauth (hash access) t2 _ _ (IsDict-insert _ _ _ keys)
        (rw (lookup-insert, eq_refl {A = String} (hash access))) (ground arith)

  lookup-exchanged_tokens :
      (k : String) → lookup k s.tokens ≡ none → lookup k exchanged.1.tokens ≡ none
  unfolding rotate mint_oauth persist_refresh persist_oauth
  lookup-exchanged_tokens k h = lookup-cleanup-none k t2 _ h

  exchanged_access : exchanged.0.access_token ≡ access
  unfolding rotate mint_oauth
  exchanged_access = refl

  exchanged_refresh : exchanged.0.refresh_token ≡ some fresh
  unfolding rotate mint_oauth
  exchanged_refresh = refl

  module _ (found : lookup (hash token) s.refresh_tokens ≡ some r) (own : r.client_id ≡ client)
      (unspent : r.used ≡ false) (idle : now ≤ r.expires_at)
      (alive : now < r.family_expires_at) where
    refresh-eq_exchanged :
        refresh hash token client access fresh now t1 t2 s ≡ (ok exchanged.0, exchanged.1)
    refresh-eq_exchanged =
        refresh-eq_rotate hash token client access fresh now t1 t2 s r found own unspent idle alive

    -- An unspent refresh token is exchanged by its client before it idles out and before its
    -- sign-in ends. The same call again, within the grace of a minute and before the sign-in ends,
    -- gets the same pair and changes nothing.
    pub refresh-retry :
        (access' fresh' : String) (now' t1' t2' : ℕ)
        → t2 ≤ now + refresh_reuse_grace
        → now' ≤ now + refresh_reuse_grace
        → now' < r.family_expires_at
        → let (result, s') = refresh hash token client access fresh now t1 t2 s in
          refresh hash token client access' fresh' now' t1' t2' s' ≡ (result, s')
    refresh-retry access' fresh' now' t1' t2' soon soon' alive' = rw refresh-eq_exchanged (
        refresh-eq_retry hash token client access' fresh' now' t1' t2' exchanged.1 spent
          (lookup-exchanged_spent soon) own refl alive' refl soon')

    -- The same call once the grace is over, while the sign-in lasts, is a reuse: it fails, and
    -- nothing is left of the family that the first call continued.
    pub refresh-single_use :
        (access' fresh' : String) (now' t1' t2' : ℕ)
        → t2 ≤ now + refresh_reuse_grace
        → now + refresh_reuse_grace < now'
        → now' < r.family_expires_at
        → let s' = (refresh hash token client access fresh now t1 t2 s).1 in
          let (result, s'') = refresh hash token client access' fresh' now' t1' t2' s' in
          (result ≡ err (reused r.family_id)) × FamilyGone r.family_id s''
    refresh-single_use access' fresh' now' t1' t2' soon late alive' = rw refresh-eq_exchanged (
        refresh-reuse hash token client access' fresh' now' t1' t2' exchanged.1 spent
          (lookup-exchanged_spent soon) own refl alive' (inr late))

    -- The pair that an exchange returns works: its access token is the client's until a day after
    -- the minting or the end of the sign-in, and its refresh token can be exchanged in turn.
    pub refresh-pair_works :
        (access' fresh' : String) (now' t1' t2' later : ℕ)
        → IsDict s.oauth_tokens
        → lookup access s.tokens ≡ none
        → t2 ≤ t1 + seconds token_ttl
        → t2 ≤ t1 + seconds s.refresh_token_ttl
        → later ≤ min (t1 + seconds token_ttl) r.family_expires_at
        → now' ≤ t1 + seconds s.refresh_token_ttl
        → now' < r.family_expires_at
        → let (result, s') = refresh hash token client access fresh now t1 t2 s in
          (g : OauthGrant) × (next : OauthGrant) × (result ≡ ok g)
          × (g.access_token ≡ access)
          × (g.refresh_token ≡ some fresh)
          × ((validate hash access later s').0 ≡ some client)
          × ((refresh hash fresh client access' fresh' now' t1' t2' s').0 ≡ ok next)
    refresh-pair_works access' fresh' now' t1' t2' later keys distinct lasting idle' live idle''
          alive' =
        let answer_live : answer later minted_access ≡ some client = ground arith in
        let next = rotate hash minted fresh client access' fresh' now' t1' t2' exchanged.1 in
        let again =
          refresh-eq_rotate hash fresh client access' fresh' now' t1' t2' exchanged.1 minted
            (lookup-exchanged_minted idle') refl refl (omega arith) alive' in
        let valid =
          validate-of_oauth hash access later exchanged.1 _
            (lookup-exchanged_tokens access distinct) (lookup-exchanged_access keys lasting)
          ∙ answer_live in
        rw refresh-eq_exchanged (
          exchanged.0,
          next.0,
          refl,
          exchanged_access,
          exchanged_refresh,
          valid,
          ap (λ p. p.0) again,
        )
