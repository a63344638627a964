-- ===== src/Dashboard/Sessions/Secrets.antt =====
-- The client secret of a session, and which sessions load.
use beacon_mcp.Base.{
  ℕ, ◌+◌, ◌≤◌, ◌<◌, String, ◌≡◌, ◌≢◌, refl, ap, subst, ◌∙◌, false, not, Option, some, [], ◌∷◌, ◌++◌,
  ltb, length, length-append, string_has_eq, ◌==◌, arith, Option-cases, inl, inr, ◌↔◌, eq_refl,
}
use beacon_mcp.Base.Dict.{lookup, IsDict, lookup-insert, lookup-retain, retain-passes}
use beacon_mcp.Clock.{seconds}
use beacon_mcp.Dashboard.Sessions.{
  Bytes, SessionRow, Session, Table, session_ttl, session_of, split, encrypt, decrypt, create,
  get_client_secret, load, update_bearer, delete_all_for_client,
}

split-append : (front back : Bytes) → split (length front) (front ++ back) ≡ (front, back)
unfolding split
split-append [] back = refl
split-append (b ∷ front) back = ap (λ parts. (b ∷ parts.0, parts.1)) (split-append front back)

split-nonce : (front back : Bytes) → length front ≡ 12 → split 12 (front ++ back) ≡ (front, back)
split-nonce front back twelve =
    subst (λ n. split n (front ++ back) ≡ (front, back)) twelve (split-append front back)

long : (blob : Bytes) → 28 ≤ length blob → ltb (length blob) 28 ≡ false
long blob le = ground arith

enough :
    (nonce sealed : Bytes) → length nonce ≡ 12 → 16 ≤ length sealed → 28 ≤ length (nonce ++ sealed)
enough nonce sealed twelve tagged = omega (arith, length-append nonce sealed)

module _ (seal : Bytes → String → Bytes) (unseal : Bytes → Bytes → Option String) where
  decrypt-encrypt :
      (nonce : Bytes) (p : String)
      → length nonce ≡ 12
      → 16 ≤ length (seal nonce p)
      → unseal nonce (seal nonce p) ≡ some p
      → decrypt seal unseal (encrypt seal unseal nonce p) ≡ some p
  unfolding decrypt encrypt
  decrypt-encrypt nonce p twelve tagged opens =
      rw
        (
          long (nonce ++ seal nonce p) (enough nonce (seal nonce p) twelve tagged),
          split-nonce nonce (seal nonce p) twelve,
        )
        opens

  get-found :
      (session_id : String) (table : Table) (row : SessionRow)
      → lookup session_id table ≡ some row
      → get_client_secret seal unseal session_id table ≡ decrypt seal unseal row.client_secret_enc
  unfolding get_client_secret
  get-found session_id table row found = rw (found, get_client_secret) refl

  update-found :
      (session_id bearer : String) (ttl t0 t1 : ℕ) (table : Table) (row : SessionRow)
      → lookup session_id table ≡ some row
      → lookup session_id (update_bearer session_id bearer ttl t0 t1 table)
        ≡ some (record row {
          mcp_bearer = some bearer;
          mcp_bearer_expires_at = some (t0 + seconds ttl);
          last_seen_at = t1;
        })
  unfolding update_bearer
  update-found session_id bearer ttl t0 t1 table row found =
      rw (found, update_bearer)
        (lookup-insert session_id session_id _ table ∙ rw (eq_refl {A = String} session_id) refl)

  -- With a nonce of 12 bytes, and an AES-GCM that opens what it sealed of the secret and adds a tag of 16
  -- bytes to it, the client secret of a session that `create` made is the one that it was given, also
  -- once `update_bearer` has replaced the session's bearer.
  pub create-get_client_secret :
      (session_id client_id secret bearer : String) (nonce : Bytes) (bearer_ttl : ℕ)
      (user_agent : Option String) (now : ℕ) (table : Table) (bearer' : String) (ttl' t0 t1 : ℕ)
      → length nonce ≡ 12
      → 16 ≤ length (seal nonce secret)
      → unseal nonce (seal nonce secret) ≡ some secret
      → get_client_secret seal unseal session_id (
          update_bearer session_id bearer' ttl' t0 t1
            (create seal unseal session_id nonce client_id secret bearer bearer_ttl user_agent now
              table).1)
        ≡ some secret
  unfolding get_client_secret update_bearer create
  create-get_client_secret session_id client_id secret bearer nonce bearer_ttl user_agent now table
        bearer' ttl' t0 t1 twelve tagged opens =
      let created : SessionRow = record {
        client_id = client_id;
        client_secret_enc = encrypt seal unseal nonce secret;
        mcp_bearer = some bearer;
        mcp_bearer_expires_at = some (now + seconds bearer_ttl);
        created_at = now;
        last_seen_at = now;
        expires_at = now + session_ttl;
        user_agent = user_agent;
      } in
      let there =
        lookup-insert session_id session_id created table
        ∙ rw (eq_refl {A = String} session_id) refl in
      get-found session_id _ _ (update-found session_id bearer' ttl' t0 t1 _ created there)
      ∙ decrypt-encrypt nonce secret twelve tagged opens

-- `load` answers a session just when the id is not empty and the table has its row, not yet expired.
pub load_iff :
    (session_id : String) (now : ℕ) (table : Table) (s : Session)
    → ((load session_id now table).0 ≡ some s) ↔ (
        (session_id ≢ "")
        × ((row : SessionRow) × (lookup session_id table ≡ some row)
            × (now < row.expires_at)
            × (s ≡ session_of session_id row)))
unfolding load session_of
load_iff session_id now table s = (
  λ h. elim (Option-cases (lookup session_id table)) [
    | inl missing ↦ ground (arith, missing)
    | inr (row, there) ↦ (
      λ empty. ground (arith, there, string_has_eq.beq_iff session_id ""),
      (row, there, ground (arith, there), ground (arith, there)),
    )
  ],
  λ (named, (row, there, alive, same)). ground (arith, there, string_has_eq.beq_iff session_id ""),
)

-- After `delete_all_for_client`, on a table whose keys are distinct, no session of the client can be
-- loaded at any time, and each session of another client is loaded as before.
pub delete_all-loads :
    (client_id session_id : String) (now : ℕ) (table : Table)
    → IsDict table
    → let after = (delete_all_for_client client_id table).1 in
      ((s : Session) → (load session_id now after).0 ≡ some s → s.client_id ≢ client_id)
      × ((s : Session)
          → (load session_id now table).0 ≡ some s
          → s.client_id ≢ client_id
          → (load session_id now after).0 ≡ some s)
unfolding delete_all_for_client session_of
delete_all-loads client_id session_id now table d =
    let kept = lookup-retain session_id (λ row. not (row.client_id == client_id)) table d in
    (
      (λ s h own.
          let (named, (row, there, alive, same)) =
            (load_iff session_id now (delete_all_for_client client_id table).1 s).0 h in
          ground (
            arith,
            retain-passes session_id (λ r. not (r.client_id == client_id)) table row there,
            string_has_eq.beq_iff row.client_id client_id,
          )),
      (λ s h other.
          let (named, (row, there, alive, same)) = (load_iff session_id now table s).0 h in
          let client : s.client_id ≡ row.client_id = ap (λ x. x.client_id) same in
          (load_iff session_id now (delete_all_for_client client_id table).1 s).1 (
            named,
            (
              row,
              ground (arith, client, kept, there, string_has_eq.beq_iff row.client_id client_id),
              alive,
              same,
            ),
          )),
    )
