-- ===== src/Peers/Hops.antt =====
-- Which hop of `X-Forwarded-For` is taken for the client of a request.
use beacon_mcp.Base.{
  ◌≡◌, ◌≢◌, refl, sym, ap, ◌∙◌, ◌⊎◌, Bool, true, false, Option, none, some, List, [], ◌∷◌, ◌++◌,
  string_has_eq, arith, Bool-cases, Option-cases, inl, inr, All, if◌then◌else◌,
}
use beacon_mcp.Peers.{
  Request, ip, readable, reversed, first_untrusted, own_peer, forwarded_hop, client_ip,
}

module _ {Ip : Type 0} (trusted : Ip → Bool) where
  -- An entry of `X-Forwarded-For` is no address, or that of a trusted proxy.
  abbrev pub IsTrustedEntry : Option Ip → Type 0
  IsTrustedEntry none = Unit
  IsTrustedEntry (some a) = trusted a ≡ true

  abbrev or_first : Option Ip → Ip → Option Ip
  or_first (some hop) a = some hop
  or_first none a = if trusted a then none else some a

  first_untrusted-snoc :
      (hops : List Ip) (a : Ip)
      → first_untrusted trusted (hops ++ (a ∷ [])) ≡ or_first (first_untrusted trusted hops) a
  unfolding first_untrusted
  first_untrusted-snoc [] a = refl
  first_untrusted-snoc (b ∷ hops) a = ground (arith, first_untrusted-snoc hops a)

  forwarded_hop-cons :
      (direct a : Ip) (parts : List (Option Ip))
      → forwarded_hop trusted direct (some a ∷ parts)
        ≡ or_first (forwarded_hop trusted direct parts) a
  unfolding forwarded_hop readable reversed
  forwarded_hop-cons direct a parts =
      first_untrusted-snoc (reversed (readable parts ++ (direct ∷ []))) a

  forwarded_hop-skip :
      (direct : Ip) (parts : List (Option Ip))
      → forwarded_hop trusted direct (none ∷ parts) ≡ forwarded_hop trusted direct parts
  unfolding forwarded_hop readable
  forwarded_hop-skip direct parts = refl

  -- What stands to the left of the hop does not change it.
  forwarded_hop-append :
      (direct hop : Ip) (left parts : List (Option Ip))
      → forwarded_hop trusted direct parts ≡ some hop
      → forwarded_hop trusted direct (left ++ parts) ≡ some hop
  forwarded_hop-append direct hop [] parts h = h
  forwarded_hop-append direct hop (none ∷ left) parts h =
      forwarded_hop-skip direct (left ++ parts) ∙ forwarded_hop-append direct hop left parts h
  forwarded_hop-append direct hop (some a ∷ left) parts h =
      forwarded_hop-cons direct a (left ++ parts)
      ∙ rw (forwarded_hop-append direct hop left parts h) refl

  forwarded_hop-direct_none :
      (direct : Ip) → forwarded_hop trusted direct [] ≡ none → trusted direct ≡ true
  unfolding forwarded_hop first_untrusted readable reversed
  forwarded_hop-direct_none direct h = ground arith

  forwarded_hop-direct_some :
      (direct hop : Ip)
      → forwarded_hop trusted direct [] ≡ some hop
      → (trusted hop ≡ false) × (hop ≡ direct)
  unfolding forwarded_hop first_untrusted readable reversed
  forwarded_hop-direct_some direct hop h = elim (Bool-cases (trusted direct)) [
    | inl close ↦ absurd (ground (arith, close))
    | inr stranger ↦
        let same : direct ≡ hop = ground (arith, stranger) in
        (ap trusted (sym same) ∙ stranger, sym same)
  ]

  or_first-none : (o : Option Ip) (a : Ip) → or_first o a ≡ none → (trusted a ≡ true) × (o ≡ none)
  or_first-none none a h = (ground arith, refl)
  or_first-none (some b) a h = absurd (ground (arith, h))

  or_first-some :
      (o : Option Ip) (a hop : Ip)
      → or_first o a ≡ some hop
      → (o ≡ some hop) ⊎ ((o ≡ none) × (trusted a ≡ false) × (a ≡ hop))
  or_first-some none a hop h = elim (Bool-cases (trusted a)) [
    | inl close ↦ absurd (ground (arith, close))
    | inr stranger ↦ inr (refl, stranger, ground (arith, stranger))
  ]
  or_first-some (some b) a hop h = inl h

  forwarded_hop-none :
      (direct : Ip) (parts : List (Option Ip))
      → forwarded_hop trusted direct parts ≡ none
      → (trusted direct ≡ true) × All IsTrustedEntry parts
  forwarded_hop-none direct [] h = (forwarded_hop-direct_none direct h, tt)
  forwarded_hop-none direct (none ∷ parts) h =
      let (close, all) =
        forwarded_hop-none direct parts (sym (forwarded_hop-skip direct parts) ∙ h) in
      (close, (tt, all))
  forwarded_hop-none direct (some a ∷ parts) h =
      let (vouched, missing) =
        or_first-none (forwarded_hop trusted direct parts) a
          (sym (forwarded_hop-cons direct a parts) ∙ h) in
      let (close, all) = forwarded_hop-none direct parts missing in (close, (vouched, all))

  -- The hop is in the header, untrusted, and the last such.
  abbrev pub Names : Ip → List (Option Ip) → Ip → Type 0
  Names direct parts hop =
      (trusted direct ≡ true)
      × (left : List (Option Ip)) × (right : List (Option Ip)) × (parts
          ≡ left ++ (some hop ∷ right))
      × All IsTrustedEntry right
      × (forwarded_hop trusted direct (some hop ∷ right) ≡ some hop)

  Names-cons :
      (part : Option Ip) (direct : Ip) (parts : List (Option Ip)) (hop : Ip)
      → (hop ≡ direct) ⊎ Names direct parts hop
      → (hop ≡ direct) ⊎ Names direct (part ∷ parts) hop
  Names-cons part direct parts hop (inl own) = inl own
  Names-cons part direct parts hop (inr (close, left, right, same, all, found)) =
      inr (close, part ∷ left, right, ap (λ l. part ∷ l) same, all, found)

  forwarded_hop-Names :
      (direct : Ip) (parts : List (Option Ip)) (hop : Ip)
      → forwarded_hop trusted direct parts ≡ some hop
      → (trusted hop ≡ false) × ((hop ≡ direct) ⊎ Names direct parts hop)
  forwarded_hop-Names direct [] hop h =
      let (stranger, own) = forwarded_hop-direct_some direct hop h in (stranger, inl own)
  forwarded_hop-Names direct (none ∷ parts) hop h =
      let (stranger, found) =
        forwarded_hop-Names direct parts hop (sym (forwarded_hop-skip direct parts) ∙ h) in
      (stranger, Names-cons none direct parts hop found)
  forwarded_hop-Names direct (some a ∷ parts) hop h =
      elim (or_first-some (forwarded_hop trusted direct parts) a hop
        (sym (forwarded_hop-cons direct a parts) ∙ h)) [
          | inl right ↦
              let (stranger, found) = forwarded_hop-Names direct parts hop right in
              (stranger, Names-cons (some a) direct parts hop found)
          | inr (missing, stranger, same) ↦
              let (close, all) = forwarded_hop-none direct parts missing in
              (
                ap trusted (sym same) ∙ stranger,
                inr (
                  close,
                  [],
                  parts,
                  ap (λ b. some b ∷ parts) same,
                  all,
                  ap (λ b. forwarded_hop trusted direct (some b ∷ parts)) (sym same) ∙ h,
                ),
              )
        ]

  client_ip-cases :
      (r : Request Ip) (hop : Ip)
      → client_ip trusted r ≡ ip hop
      → (r.direct_ip ≡ some hop)
        ⊎ ((direct : Ip) × (parts : List (Option Ip)) × (r.direct_ip ≡ some direct)
            × (r.forwarded_for ≡ some parts)
            × (forwarded_hop trusted direct parts ≡ some hop))
  unfolding client_ip own_peer
  client_ip-cases r hop h = elim (Option-cases r.direct_ip) [
    | inl unnamed ↦ absurd (ground (arith, unnamed))
    | inr (direct, named) ↦ elim (Bool-cases (trusted direct)) [
      | inr stranger ↦ inl (ground (arith, named, stranger))
      | inl close ↦ elim (Option-cases r.forwarded_for) [
        | inl absent ↦ inl (ground (arith, named, close, absent))
        | inr (parts, there) ↦ elim (Option-cases (forwarded_hop trusted direct parts)) [
          | inl nobody ↦ inl (ground (arith, named, close, there, nobody))
          | inr (a, found) ↦ inr (
            direct,
            parts,
            named,
            there,
            found ∙ ap some (ground (arith, named, close, there, found)),
          )
        ]
      ]
    ]
  ]

  client_ip-takes :
      (r : Request Ip) (direct hop : Ip) (parts : List (Option Ip))
      → r.direct_ip ≡ some direct
      → trusted direct ≡ true
      → forwarded_hop trusted direct parts ≡ some hop
      → client_ip trusted (record r { forwarded_for = some parts }) ≡ ip hop
  unfolding client_ip
  client_ip-takes r direct hop parts named close found = ground (arith, named, close, found)

  -- An address that is not the peer's own is only taken from X-Forwarded-For of a trusted peer. It
  -- is no trusted proxy, every entry to its right that can be read as an address is a trusted
  -- proxy, and putting anything else to its left does not change it.
  pub client_ip-vouched :
      (r : Request Ip) (hop : Ip)
      → client_ip trusted r ≡ ip hop
      → r.direct_ip ≢ some hop
      → (direct : Ip) × (left : List (Option Ip)) × (right : List (Option Ip)) × (r.direct_ip
          ≡ some direct)
        × (trusted direct ≡ true)
        × (r.forwarded_for ≡ some (left ++ (some hop ∷ right)))
        × (trusted hop ≡ false)
        × All IsTrustedEntry right
        × ((left' : List (Option Ip))
            → client_ip trusted (record r { forwarded_for = some (left' ++ (some hop ∷ right)) })
              ≡ ip hop)
  client_ip-vouched r hop h foreign = elim (client_ip-cases r hop h) [
    | inl own ↦ absurd (foreign own)
    | inr (direct, parts, named, there, found) ↦
        let (stranger, place) = forwarded_hop-Names direct parts hop found in
        elim place [
          | inl own ↦ absurd (foreign (named ∙ ap some (sym own)))
          | inr (close, left, right, same, all, last) ↦ (
            direct,
            left,
            right,
            named,
            close,
            there ∙ ap some same,
            stranger,
            all,
            λ left'.
                client_ip-takes r direct hop (left' ++ (some hop ∷ right)) named close
                  (forwarded_hop-append direct hop left' (some hop ∷ right) last),
          )
        ]
  ]
