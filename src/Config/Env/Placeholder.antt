-- ===== src/Config/Env/Placeholder.antt =====
-- `_ENV_REF` of config.py against the texts that it means.
use beacon_mcp.Base.{
  ◌≡◌, refl, sym, ap, subst, nat_eq_iff, ◌∙◌, ◌↔◌, ◌⊎◌, inl, inr, true, false, ◌||◌, some, [], ◌∷◌,
  ◌++◌, ◌≤◌, nat_eq, ℕ, arith, All, Bool-cases, Option-cases,
}
use beacon_mcp.Base.Text.{Text, is_digit}
use beacon_mcp.Config.Env.{name_rest, env_ref, is_capital, at_end}

abbrev pub IsFirst : ℕ → Type 0
IsFirst c = ((b'A' ≤ c) × (c ≤ b'Z')) ⊎ (c ≡ b'_')

abbrev pub IsLater : ℕ → Type 0
IsLater c = IsFirst c ⊎ ((b'0' ≤ c) × (c ≤ b'9'))

-- Capitals, digits and underscores, of which a digit is not the first.
abbrev pub IsName : Text → Type 0
IsName [] = ⊥
IsName (c ∷ name) = IsFirst c × All IsLater name

-- The text is `${NAME}`, perhaps with a newline at its end.
abbrev pub Names : Text → Text → Type 0
Names name s =
    IsName name
    × ((s ≡ b'$' ∷ b'{' ∷ (name ++ (b'}' ∷ []))) ⊎ (s ≡ b'$' ∷ b'{' ∷ (name ++ (b'}' ∷ 10 ∷ []))))

abbrev Closes : Text → Text → Type 0
Closes name s = All IsLater name × ((s ≡ name ++ (b'}' ∷ [])) ⊎ (s ≡ name ++ (b'}' ∷ 10 ∷ [])))

is_capital_iff : (c : ℕ) → (is_capital c ≡ true) ↔ IsFirst c
is_capital_iff c = ground arith

IsLater-iff : (c : ℕ) → (is_capital c || is_digit c ≡ true) ↔ IsLater c
unfolding is_digit
IsLater-iff c = ground arith

is_later : (c : ℕ) → IsLater c → (nat_eq c b'}' ≡ false) × (is_capital c || is_digit c ≡ true)
unfolding is_digit
is_later c h = ground arith

name_rest-plain : (name : Text) → All IsLater name → name_rest (name ++ (b'}' ∷ [])) ≡ some name
unfolding name_rest
name_rest-plain [] h = refl
name_rest-plain (c ∷ name) (first, rest) =
    ground (arith, is_later c first, name_rest-plain name rest)

name_rest-newline :
    (name : Text) → All IsLater name → name_rest (name ++ (b'}' ∷ 10 ∷ [])) ≡ some name
unfolding name_rest
name_rest-newline [] h = refl
name_rest-newline (c ∷ name) (first, rest) =
    ground (arith, is_later c first, name_rest-newline name rest)

at_end-cases : (s : Text) → at_end s ≡ true → (s ≡ []) ⊎ (s ≡ 10 ∷ [])
at_end-cases [] h = inl refl
at_end-cases (c ∷ []) h = inr (ap (λ d. d ∷ []) ((nat_eq_iff c 10).0 h))
at_end-cases (c ∷ d ∷ s) h = absurd (ground (arith, h))

end-Closes : (c : ℕ) (s : Text) → c ≡ b'}' → at_end s ≡ true → Closes [] (c ∷ s)
end-Closes c s brace over = elim (at_end-cases s over) [
  | inl nothing ↦ (tt, inl (ap (λ d. d ∷ s) brace ∙ ap (λ t. b'}' ∷ t) nothing))
  | inr newline ↦ (tt, inr (ap (λ d. d ∷ s) brace ∙ ap (λ t. b'}' ∷ t) newline))
]

Closes-cons : (c : ℕ) (s name : Text) → IsLater c → Closes name s → Closes (c ∷ name) (c ∷ s)
Closes-cons c s name later (all, inl plain) = ((later, all), inl (ap (λ t. c ∷ t) plain))
Closes-cons c s name later (all, inr newline) = ((later, all), inr (ap (λ t. c ∷ t) newline))

name_rest-Closes : (s name : Text) → name_rest s ≡ some name → Closes name s
unfolding name_rest
name_rest-Closes [] name h = absurd (ground (arith, h))
name_rest-Closes (c ∷ s) name h = elim (Bool-cases (nat_eq c b'}')) [
  | inl brace ↦ elim (Bool-cases (at_end s)) [
    | inr goes_on ↦ absurd (ground (arith, h, brace, goes_on))
    | inl over ↦
        let none_left : [] ≡ name = ground (arith, h, brace, over) in
        subst (λ n. Closes n (c ∷ s)) none_left (end-Closes c s ((nat_eq_iff c b'}').0 brace) over)
  ]
  | inr other ↦ elim (Bool-cases (is_capital c || is_digit c)) [
    | inr foreign ↦ absurd (ground (arith, h, other, foreign))
    | inl later ↦ elim (Option-cases (name_rest s)) [
      | inl stuck ↦ absurd (ground (arith, h, other, later, stuck))
      | inr (rest, found) ↦
          let same : c ∷ rest ≡ name = ground (arith, h, other, later, found) in
          subst (λ n. Closes n (c ∷ s)) same
            (Closes-cons c s rest ((IsLater-iff c).0 later) (name_rest-Closes s rest found))
    ]
  ]
]

name_rest_iff : (s name : Text) → (name_rest s ≡ some name) ↔ Closes name s
name_rest_iff s name = (
  name_rest-Closes s name,
  λ (all, how). elim how [
    | inl plain ↦ ap name_rest plain ∙ name_rest-plain name all
    | inr newline ↦ ap name_rest newline ∙ name_rest-newline name all
  ],
)

env_ref-start :
    (d o c : ℕ) (s name : Text)
    → env_ref (d ∷ o ∷ c ∷ s) ≡ some name
    → (d ≡ b'$')
      × (o ≡ b'{')
      × IsFirst c
      × (rest : Text) × (name ≡ c ∷ rest)
      × (name_rest s ≡ some rest)
unfolding env_ref
env_ref-start d o c s name h = elim (Option-cases (name_rest s)) [
  | inl stuck ↦ absurd (ground (arith, h, stuck))
  | inr (rest, found) ↦ (
    ground (arith, h),
    ground (arith, h),
    ground (arith, h, is_capital_iff c),
    rest,
    ground (arith, h, found),
    found,
  )
]

env_ref-Names : (s name : Text) → env_ref s ≡ some name → Names name s
env_ref-Names [] name h = unfold env_ref in absurd (ground (arith, h))
env_ref-Names (d ∷ []) name h = unfold env_ref in absurd (ground (arith, h))
env_ref-Names (d ∷ o ∷ []) name h = unfold env_ref in absurd (ground (arith, h))
env_ref-Names (d ∷ o ∷ c ∷ s) name h =
    let (dollar, brace, first, rest, same, found) = env_ref-start d o c s name h in
    subst (λ n. Names n (d ∷ o ∷ c ∷ s)) (sym same)
      (subst (λ x. Names (c ∷ rest) (x ∷ o ∷ c ∷ s)) (sym dollar)
        (subst (λ x. Names (c ∷ rest) (b'$' ∷ x ∷ c ∷ s)) (sym brace)
          (start-Names c s rest first (name_rest-Closes s rest found))))
  where
    start-Names :
        (c : ℕ) (s rest : Text) → IsFirst c → Closes rest s → Names (c ∷ rest) (b'$' ∷ b'{' ∷ c ∷ s)
    start-Names c s rest first (all, inl plain) =
        ((first, all), inl (ap (λ t. b'$' ∷ b'{' ∷ c ∷ t) plain))
    start-Names c s rest first (all, inr newline) =
        ((first, all), inr (ap (λ t. b'$' ∷ b'{' ∷ c ∷ t) newline))

env_ref-placeholder :
    (c : ℕ) (s rest : Text)
    → IsFirst c
    → Closes rest s
    → env_ref (b'$' ∷ b'{' ∷ c ∷ s) ≡ some (c ∷ rest)
unfolding env_ref
env_ref-placeholder c s rest first closes =
    ground (arith, (is_capital_iff c).1 first, (name_rest_iff s rest).1 closes)

Names-env_ref : (s name : Text) → Names name s → env_ref s ≡ some name
Names-env_ref s [] named = absurd named.0
Names-env_ref s (c ∷ rest) ((first, all), inl plain) =
    ap env_ref plain ∙ env_ref-placeholder c (rest ++ (b'}' ∷ [])) rest first (all, inl refl)
Names-env_ref s (c ∷ rest) ((first, all), inr newline) =
    ap env_ref newline ∙ env_ref-placeholder c (rest ++ (b'}' ∷ 10 ∷ [])) rest first (all, inr refl)

pub env_ref_iff : (s name : Text) → (env_ref s ≡ some name) ↔ Names name s
env_ref_iff s name = (env_ref-Names s name, Names-env_ref s name)
