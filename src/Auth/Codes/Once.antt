-- ===== src/Auth/Codes/Once.antt =====
-- `consume`, `issue` and `verify_pkce` of auth.py against what a code was issued for.
use beacon_mcp.Base.{
  ℕ, ◌+◌, ◌≤◌, String, ◌≡◌, ◌≢◌, refl, ◌↔◌, ◌∙◌, true, false, not, Option, none, some, arith,
  string_has_eq, inl, inr, Option-cases, eq_refl, eq_of_true, ltb, ok,
}
use beacon_mcp.Base.Dict.{
  Dict, lookup, insert, IsDict, IsDict-insert, lookup-insert, lookup-erase, lookup-retain,
  lookup-retain-none,
}
use beacon_mcp.Clock.{seconds}
use text.Mathlib.TextEquality.{eq_iff}
use beacon_mcp.Auth.Codes.{AuthCode, verify_pkce, consume, cleanup, issue, code_ttl}

module _ (s256 : String → Option String) where
  -- A call of the store that draws no `code`.
  pub data Call (code : String) : Dict String AuthCode → Dict String AuthCode → Type 0 where
    issues :
        (client uri challenge method other : String) (t0 t1 : ℕ) (codes : Dict String AuthCode)
        → other ≢ code
        → Call code codes (issue client uri challenge method other t0 t1 codes).1
    consumes :
        (other client uri verifier : String) (now : ℕ) (codes : Dict String AuthCode)
        → Call code codes (consume s256 other client uri verifier now codes).1

  pub data Calls (code : String) (codes : Dict String AuthCode)
      : Dict String AuthCode → Type 0 where
    none_yet : Calls code codes codes
    then_call :
        {codes' codes'' : Dict String AuthCode}
        → Calls code codes codes'
        → Call code codes' codes''
        → Calls code codes codes''

  -- The code is not in the store.
  abbrev IsSpent : String → Dict String AuthCode → Type 0
  IsSpent code codes = lookup code codes ≡ none

  Call-IsSpent :
      (code : String) {codes codes' : Dict String AuthCode}
      → Call code codes codes'
      → IsSpent code codes
      → IsSpent code codes'
  unfolding issue cleanup consume
  Call-IsSpent code (issues client uri challenge method other t0 t1 codes fresh) h =
      let entry : AuthCode = record {
        code = other;
        client_id = client;
        redirect_uri = uri;
        code_challenge = challenge;
        code_challenge_method = method;
        expires_at = t0 + seconds code_ttl;
      } in
      lookup-retain-none code (λ (c : AuthCode). not (ltb c.expires_at t1))
        (insert other entry codes)
        (ground (arith, lookup-insert other code entry codes, eq_iff other code))
  Call-IsSpent code (consumes other client uri verifier now codes) h =
      ground (arith, lookup-erase other code codes)

  Calls-IsSpent :
      (code : String) {codes codes' : Dict String AuthCode}
      → IsSpent code codes
      → Calls code codes codes'
      → IsSpent code codes'
  Calls-IsSpent code h none_yet = h
  Calls-IsSpent code h (then_call run c) = Call-IsSpent code c (Calls-IsSpent code h run)

  consume-IsSpent :
      (code client uri verifier : String) (now : ℕ) (codes : Dict String AuthCode)
      → IsSpent code (consume s256 code client uri verifier now codes).1
  unfolding consume
  consume-IsSpent code client uri verifier now codes =
      ground (arith, lookup-erase code code codes, eq_refl {A = String} code)

  -- Presenting a code, with whatever else, uses it up: after any further calls of the store that do
  -- not draw the same code again, a request with it is refused.
  pub consume-once :
      (code client client' uri uri' verifier verifier' : String) (now later : ℕ)
      (codes codes' : Dict String AuthCode)
      → Calls code (consume s256 code client uri verifier now codes).1 codes'
      → (consume s256 code client' uri' verifier' later codes').0 ≡ ok false
  unfolding consume
  consume-once code client client' uri uri' verifier verifier' now later codes codes' run =
      ground (arith, Calls-IsSpent code (consume-IsSpent code client uri verifier now codes) run)

  -- The check of PKCE passes exactly for the S256 method, a verifier and a challenge that are not
  -- empty, and the challenge that the verifier has.
  verify_pkce_iff :
      (verifier challenge method : String)
      → (verify_pkce s256 verifier challenge method ≡ ok true)
        ↔ (method ≡ "S256") × (verifier ≢ "") × (challenge ≢ "") × (s256 verifier ≡ some challenge)
  unfolding verify_pkce
  verify_pkce_iff verifier challenge method = (
    λ h. (
      ground (arith, eq_iff method "S256"),
      λ e. ground (arith, eq_iff method "S256", eq_iff verifier ""),
      λ e. ground (arith, eq_iff method "S256", eq_iff verifier "", eq_iff challenge ""),
      elim (Option-cases (s256 verifier)) [
        | inl raises ↦ ground (arith, raises)
        | inr (c, known) ↦ known ∙ ground (arith, known, eq_iff c challenge)
      ],
    ),
    λ h. ground (
      arith,
      eq_iff method "S256",
      eq_iff verifier "",
      eq_iff challenge "",
      eq_refl {A = String} challenge,
    ),
  )

  -- A request is granted exactly if the code is known and not older than a minute, and the client,
  -- the redirect address and the verifier are those that it was issued for.
  pub consume_iff :
      (code client uri verifier : String) (now : ℕ) (codes : Dict String AuthCode)
      → ((consume s256 code client uri verifier now codes).0 ≡ ok true) ↔ (
          (c : AuthCode) × (lookup code codes ≡ some c)
          × (now ≤ c.expires_at)
          × (c.client_id ≡ client)
          × (c.redirect_uri ≡ uri)
          × (c.code_challenge_method ≡ "S256")
          × (verifier ≢ "")
          × (c.code_challenge ≢ "")
          × (s256 verifier ≡ some c.code_challenge))
  unfolding consume
  consume_iff code client uri verifier now codes = (
    λ h. elim (Option-cases (lookup code codes)) [
      | inl missing ↦ ground arith
      | inr (c, found) ↦
          let pkce =
            (verify_pkce_iff verifier c.code_challenge c.code_challenge_method).0 (ground arith) in
          (
            c,
            found,
            ground arith,
            eq_of_true {A = String} c.client_id client (ground arith),
            eq_of_true {A = String} c.redirect_uri uri (ground arith),
            pkce.0,
            pkce.1,
            pkce.2,
            pkce.3,
          )
    ],
    λ (c, found, live, own, same, method, some_v, some_c, known). ground (
      arith,
      eq_iff c.client_id client,
      eq_iff c.redirect_uri uri,
      (verify_pkce_iff verifier c.code_challenge c.code_challenge_method).1
          (method, some_v, some_c, known),
    ),
  )

  -- A code that is issued for a proper verifier is good for a minute, and no other code is touched.
  pub issue-consume :
      (client uri challenge verifier code : String) (t0 t1 now : ℕ) (codes : Dict String AuthCode)
      → IsDict codes
      → s256 verifier ≡ some challenge
      → verifier ≢ ""
      → challenge ≢ ""
      → t1 ≤ t0 + seconds code_ttl
      → now ≤ t0 + seconds code_ttl
      → let (code', codes') = issue client uri challenge "S256" code t0 t1 codes in
        (consume s256 code' client uri verifier now codes').0 ≡ ok true
  unfolding issue cleanup
  issue-consume client uri challenge verifier code t0 t1 now codes d proper some_v some_c soon
        soon' =
      let entry : AuthCode = record {
        code = code;
        client_id = client;
        redirect_uri = uri;
        code_challenge = challenge;
        code_challenge_method = "S256";
        expires_at = t0 + seconds code_ttl;
      } in
      let kept =
        lookup-retain code (λ c. not (ltb c.expires_at t1)) (insert code entry codes)
          (IsDict-insert code entry codes d) in
      (consume_iff code client uri verifier now _).1 (
        entry,
        kept ∙ rw (lookup-insert, eq_refl {A = String} code) (ground arith),
        soon',
        refl,
        refl,
        refl,
        some_v,
        some_c,
        proper,
      )
