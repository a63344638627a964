-- ===== src/Peers/HostGuard.antt =====
-- What the host guard lets through.
use beacon_mcp.Base.{
  String, ◌≡◌, ◌≢◌, ◌⊎◌, ◌↔◌, refl, sym, ap, subst, ◌∙◌, Bool, true, false, ◌&&◌, ◌||◌, not, none,
  some, List, [], ◌∷◌, if◌then◌else◌, string_has_eq, ◌==◌, arith, Option-cases, Bool-cases, inl,
  inr, member, eq_of_true, ne_of_false, eq_of_ne, is_some,
}
use beacon_mcp.Peers.{
  Rule, Request, HostGuardMiddleware, passed_on, rejected, listed, guard, host_allowed, any_port,
  is_trusted_proxy, forwarded_host, peer_is_trusted, host_header, last_of,
}

allowed_by :
    (host : String) (hosts : List String)
    → host_allowed (some host) hosts ≡ true
    → (host ≢ "")
      × ((allowed : String) × (member allowed hosts ≡ true)
          × ((host ≡ allowed) ⊎ (any_port allowed host ≡ true)))
unfolding host_allowed member
allowed_by host [] h = cc
allowed_by host (a ∷ hosts) h = elim (Bool-cases (host == "")) [
  | inl empty ↦ ground arith
  | inr filled ↦ elim (Bool-cases (host == a)) [
    | inl same ↦ (
      ne_of_false {A = String} host "" filled,
      (a, ground (arith, string_has_eq.beq_iff a a), inl (eq_of_true {A = String} host a same)),
    )
    | inr other ↦ elim (Bool-cases (any_port a host)) [
      | inl ported ↦ (
        ne_of_false {A = String} host "" filled,
        (a, ground (arith, string_has_eq.beq_iff a a), inr ported),
      )
      | inr unported ↦
          let (ne, (allowed, there, fits)) = allowed_by host hosts (ground arith) in
          (ne, (allowed, ground arith, fits))
    ]
  ]
]

test :
    (e s p rest : Bool)
    → e ≡ false
    → (s ≡ true) ⊎ ((p ≡ true) ⊎ (rest ≡ true))
    → (if e then false else if s then true else p || rest) ≡ true
test e s p rest filled found = ground arith

later : (a b : Bool) → a ≡ false → (a || b) ≡ true → b ≡ true
later a b miss there = ground arith

allows :
    (host allowed : String) (hosts : List String)
    → host ≢ ""
    → member allowed hosts ≡ true
    → (host ≡ allowed) ⊎ (any_port allowed host ≡ true)
    → host_allowed (some host) hosts ≡ true
unfolding host_allowed member
allows host allowed [] ne there fits = cc
allows host allowed (a ∷ hosts) ne there fits =
    let filled = eq_of_ne {A = String} host "" ne in
    test (host == "") (host == a) (any_port a host) (host_allowed (some host) hosts) filled
      (elim (Bool-cases (a == allowed)) [
        | inl hit ↦
            let fits_a =
              subst (λ b. (host ≡ b) ⊎ (any_port b host ≡ true))
                (sym (eq_of_true {A = String} a allowed hit)) fits in
            elim fits_a [
              | inl same ↦ inl ((string_has_eq.beq_iff host a).1 same)
              | inr ported ↦ inr (inl ported)
            ]
        | inr miss ↦ inr (
            inr (
              allows host allowed hosts ne (later (a == allowed) (member allowed hosts) miss there)
                fits))
      ])

-- A host is allowed just when it is not empty and equals an entry of the list, or has the form that an
-- entry with any port asks for.
pub host_allowed_iff :
    (host : String) (hosts : List String)
    → (host_allowed (some host) hosts ≡ true) ↔ (
        (host ≢ "")
        × ((allowed : String) × (member allowed hosts ≡ true)
            × ((host ≡ allowed) ⊎ (any_port allowed host ≡ true))))
host_allowed_iff host hosts = (
  allowed_by host hosts,
  λ (filled, (allowed, there, fits)). allows host allowed hosts filled there fits,
)

-- The tests of the guard, one after the other.
gate :
    (enabled exempt ok_host forwarded ok_forwarded : Bool)
    → enabled ≡ true
    → exempt ≡ false
    → (if not true || (not enabled || exempt)
        then passed_on
        else if not ok_host
        then rejected
        else if forwarded && not ok_forwarded
        then rejected
        else passed_on)
      ≡ passed_on
    → (ok_host ≡ true) × (forwarded ≡ true → ok_forwarded ≡ true)
gate enabled exempt ok_host forwarded ok_forwarded on not_exempt through =
    (ground arith, λ holds. ground arith)

-- A missing or empty host is not allowed, so a default never stands in for it.
no_default :
    {Ip : Type 0} (trusted : Ip → Bool) (fallback : String) (r : Request Ip) (hosts : List String)
    → host_allowed r.host hosts ≡ true
    → some (host_header trusted fallback r) ≡ r.host
unfolding host_allowed
no_default trusted fallback r hosts ok = elim (Option-cases r.host) [
  | inl missing ↦ no_host hosts (subst (λ h. host_allowed h hosts ≡ true) missing ok)
  | inr (host, there) ↦
      let allowed = subst (λ h. host_allowed h hosts ≡ true) there ok in
      let filled = eq_of_ne {A = String} host "" (allowed_by host hosts allowed).0 in
      rw there (rw filled refl)
]
  where
    no_host :
        (hosts : List String)
        → host_allowed none hosts ≡ true
        → some (host_header trusted fallback r) ≡ r.host
    no_host hosts h = cc

own_host :
    {Ip : Type 0} (trusted : Ip → Bool) (fallback : String) (r : Request Ip)
    → (r.forwarded_host ≡ none) ⊎ (peer_is_trusted trusted r ≡ false)
    → forwarded_host trusted fallback r ≡ host_header trusted fallback r
unfolding forwarded_host
own_host trusted fallback r why = elim (Option-cases r.forwarded_host) [
  | inl missing ↦ ground (arith, missing)
  | inr (parts, there) ↦ ground (arith, there)
]

same_forwarded :
    {Ip : Type 0} (trusted : Ip → Bool) (one other : String) (r : Request Ip)
    → some (host_header trusted one r) ≡ some (host_header trusted other r)
    → forwarded_host trusted one r ≡ forwarded_host trusted other r
unfolding forwarded_host
same_forwarded trusted one other r same =
    ap
      (λ o. elim o [
        | none ↦ ""
        | some h ↦ elim r.forwarded_host [
          | none ↦ h
          | some parts ↦ if peer_is_trusted trusted r then last_of trusted h parts else h
        ]
      ])
      same

-- A peer is trusted only where trusted proxies are declared.
declared :
    {Ip : Type 0} (same_ip : Ip → Ip → Bool) (rules : List (Rule Ip)) (r : Request Ip) (b : Bool)
    → peer_is_trusted (is_trusted_proxy same_ip rules) r ≡ true
    → elim rules [ [] ↦ false | _ ∷ _ ↦ b ] ≡ b
unfolding is_trusted_proxy
declared same_ip [] r b vouched = ground arith
declared same_ip (rule ∷ rules) r b vouched = refl

module _ {Ip : Type 0} (same_ip : Ip → Ip → Bool) (g : HostGuardMiddleware Ip) where
  -- Of the HTTP requests for a path that is not exempt, an enabled guard lets through only those whose
  -- `Host` is allowed, and whose host as the application will take it, with the same trusted proxies, is
  -- allowed too.
  pub guard_sound :
      (path fallback : String) (r : Request Ip)
      → g.enabled ≡ true
      → listed path g.exempt_paths ≡ false
      → guard same_ip g true path r ≡ passed_on
      → (host_allowed r.host g.allowed_hosts ≡ true)
        × (host_allowed
              (some (forwarded_host (is_trusted_proxy same_ip g.trusted_proxies) fallback r))
              g.allowed_hosts
            ≡ true)
  unfolding guard
  guard_sound path fallback r on not_exempt through =
      let t = is_trusted_proxy same_ip g.trusted_proxies in
      let hosts = g.allowed_hosts in
      let (ok_host, ok_forwarded) =
        gate g.enabled (listed path g.exempt_paths) (host_allowed r.host hosts)
          (elim g.trusted_proxies as (λ _. Bool) [ [] ↦ false | _ ∷ _ ↦ is_some r.forwarded_host ])
          (host_allowed (some (forwarded_host t "localhost" r)) hosts) on not_exempt through in
      let own : (name : String) → host_allowed (some (host_header t name r)) hosts ≡ true = λ name.
        subst (λ h. host_allowed h hosts ≡ true) (sym (no_default t name r hosts ok_host))
          ok_host in
      (
        ok_host,
        elim (Option-cases r.forwarded_host) [
          | inl missing ↦
              subst (λ h. host_allowed (some h) hosts ≡ true)
                (sym (own_host t fallback r (inl missing))) (own fallback)
          | inr (parts, there) ↦ elim (Bool-cases (peer_is_trusted t r)) [
            | inr stranger ↦
                subst (λ h. host_allowed (some h) hosts ≡ true)
                  (sym (own_host t fallback r (inr stranger))) (own fallback)
            | inl vouched ↦
                subst (λ h. host_allowed (some h) hosts ≡ true)
                  (same_forwarded t "localhost" fallback r (
                    no_default t "localhost" r hosts ok_host
                    ∙ sym (no_default t fallback r hosts ok_host)))
                  (ok_forwarded (
                    declared same_ip g.trusted_proxies r (is_some r.forwarded_host) vouched
                    ∙ ap is_some there))
          ]
        ],
      )
