-- ===== src/Oauth/Vetted.antt =====
-- Which authorization requests `_validate_authorize_params` of __main__.py lets through.
use beacon_mcp.Base.{
  String, ◌≡◌, ◌≢◌, ◌⊎◌, inl, inr, Bool, true, Option, some, List, ok, arith, Option-cases,
  Bool-cases, string_has_eq, ◌==◌,
}
use beacon_mcp.Base.Text.{Text, text_has_eq, codes, strip, lower, same_text_iff}
use text.Mathlib.TextEquality.{eq_iff}
use beacon_mcp.Oauth.{
  ParsedUrl, AuthorizeParams, is_loopback, host_of, has_allowed_origin, is_custom_scheme,
  is_trusted_redirect_uri, validate_redirect, validate_authorize_params,
}

module _ (urlparse : Text → Option ParsedUrl) (allowed_origins : List Text) where
  -- An address that a code may be sent to.
  pub record IsVetted (p : AuthorizeParams) : Type 0 where
    pub parsed : ParsedUrl
    pub parses : urlparse (codes p.redirect_uri) ≡ some parsed
    pub absolute : (parsed.scheme ≡ codes "https") ⊎ (parsed.scheme ≡ codes "http")
    pub local : parsed.scheme ≡ codes "http" → is_loopback (host_of parsed) ≡ true
    pub trusted : is_trusted_redirect_uri urlparse allowed_origins p.redirect_uri ≡ true
    pub challenged : p.code_challenge ≢ ""
    pub s256 : p.code_challenge_method ≡ "S256"

  -- Parameters that pass are those given; their client is known, their redirect address is an https
  -- address or a loopback one and is trusted, and they carry an S256 challenge.
  pub validate-IsVetted :
      (p q : AuthorizeParams) (known : Bool)
      → validate_authorize_params urlparse allowed_origins p known ≡ ok q
      → (q ≡ p) × (known ≡ true) × (p.client_id ≢ "") × IsVetted p
  unfolding validate_authorize_params validate_redirect
  validate-IsVetted p q known h = elim (Option-cases (urlparse (codes p.redirect_uri))) [
    | inl bad ↦ absurd (ground (arith, bad))
    | inr (parsed, good) ↦ (
      ground (arith, good),
      ground (arith, good),
      λ e. ground (arith, good, eq_iff p.client_id ""),
      record {
        parsed = parsed;
        parses = good;
        absolute = ground (
          arith,
          good,
          same_text_iff parsed.scheme (codes "https"),
          same_text_iff parsed.scheme (codes "http"),
        );
        local = λ e. ground (arith, good, same_text_iff parsed.scheme (codes "http"));
        trusted = ground (arith, good);
        challenged = λ e. ground (arith, good, eq_iff p.code_challenge "");
        s256 = ground (arith, good, eq_iff p.code_challenge_method "S256");
      },
    )
  ]

  -- A trusted address that a browser would fetch over plain http is a loopback address; any other
  -- trusted one has the scheme of a desktop editor or starts with an allowed origin.
  pub trusted-origin :
      (uri : String)
      → is_trusted_redirect_uri urlparse allowed_origins uri ≡ true
      → (is_custom_scheme (strip (codes uri)) ≡ true)
        ⊎ ((parsed : ParsedUrl) × (urlparse (strip (codes uri)) ≡ some parsed)
            × (((parsed.scheme ≡ codes "http")
                  × (is_loopback (lower (strip (host_of parsed))) ≡ true))
                ⊎ ((parsed.scheme ≢ codes "http")
                    × (has_allowed_origin (strip (codes uri)) allowed_origins ≡ true))))
  unfolding is_trusted_redirect_uri
  trusted-origin uri h =
      let text = strip (codes uri) in
      elim (Bool-cases (is_custom_scheme text)) [
        | inl custom ↦ inl custom
        | inr plain ↦ elim (Option-cases (urlparse text)) [
          | inl bad ↦ absurd (ground (arith, plain, bad))
          | inr (parsed, good) ↦
              let http = same_text_iff parsed.scheme (codes "http") in
              elim (Bool-cases (parsed.scheme == codes "http")) [
                | inl is_http ↦
                    inr
                      (parsed, good, inl (ground (arith, http), ground (arith, plain, good, http)))
                | inr other ↦ inr (
                  parsed,
                  good,
                  inr (λ e. ground (arith, http), ground (arith, plain, good, http)),
                )
              ]
        ]
      ]
