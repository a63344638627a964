-- ===== src/Config/Proxies.antt =====
-- `_parse_trusted_proxies` of config.py, and what it comes to.
use beacon_mcp.Base.{
  ◌≡◌, refl, sym, ap, ◌∙◌, true, not, ◌&&◌, Option, none, some, List, [], ◌∷◌, ◌++◌, Result, ok,
  err, ◌>>=◌, if◌then◌else◌, ◌==◌, member, select, select-ext, select-select, select-true, loop,
  loop-append, fold, eq_of_true, arith, Bool-cases, Option-cases, inl, inr,
}
use mathlib.Core.List.{append-nil, append_assoc}
use beacon_mcp.Base.Text.{Text, text_has_eq, codes, nonempty, strip, lower}
use beacon_mcp.Config.Values.{
  Value, null, str, list, list_items, ConfigError, not_a_list, not_a_text,
}

abbrev pub cloudflare_proxy_cidrs : List Text
cloudflare_proxy_cidrs =
    codes "173.245.48.0/20"
    ∷ codes "103.21.244.0/22"
    ∷ codes "103.22.200.0/22"
    ∷ codes "103.31.4.0/22"
    ∷ codes "141.101.64.0/18"
    ∷ codes "108.162.192.0/18"
    ∷ codes "190.93.240.0/20"
    ∷ codes "188.114.96.0/20"
    ∷ codes "197.234.240.0/22"
    ∷ codes "198.41.128.0/17"
    ∷ codes "162.158.0.0/15"
    ∷ codes "104.16.0.0/13"
    ∷ codes "104.24.0.0/14"
    ∷ codes "172.64.0.0/13"
    ∷ codes "131.0.72.0/22"
    ∷ codes "2400:cb00::/32"
    ∷ codes "2606:4700::/32"
    ∷ codes "2803:f800::/32"
    ∷ codes "2405:b500::/32"
    ∷ codes "2405:8100::/32"
    ∷ codes "2a06:98c0::/29"
    ∷ codes "2c0f:f248::/32"
    ∷ []

-- The variables `out` and `seen` of the loop.
pub record Proxies : Type 0 where
  pub out : List Text
  pub seen : List Text

-- `if token not in seen: out.append(token); seen.add(token)`
unfoldable pub add_new : Proxies → Text → Proxies
unfolding member
add_new p token =
    if member token p.seen then p else record { out = p.out ++ token ∷ []; seen = token ∷ p.seen }

-- What the loop does for a stripped token.
unfoldable pub add_token : Proxies → Text → Proxies
unfolding add_new lower
add_token p token =
    if not (nonempty token)
    then p
    else if lower token == codes "cloudflare"
    then loop add_new p cloudflare_proxy_cidrs
    else add_new p token

-- One round of the loop.
unfoldable pub add_item : Proxies → Value → Result ConfigError Proxies
unfolding add_token strip
add_item p (str s) = ok (add_token p (strip s))
add_item p v = err not_a_text

-- `_parse_trusted_proxies`
unfoldable pub parse_trusted_proxies : Value → Result ConfigError (List Text)
unfolding fold add_item list_items
parse_trusted_proxies null = ok []
parse_trusted_proxies (list vs) = do
  p ← fold add_item (record { out = []; seen = [] }) (list_items vs)
  ok p.out
parse_trusted_proxies v = err not_a_list

-- The addresses that a token stands for.
abbrev pub expand : Text → List Text
expand token =
    if not (nonempty token)
    then []
    else if lower token == codes "cloudflare"
    then cloudflare_proxy_cidrs
    else token ∷ []

-- The texts of a list, each stripped and expanded; `none` where something else stands in it.
abbrev pub expansion : List Value → Option (List Text)
expansion [] = some []
expansion (str s ∷ vs) = elim (expansion vs) [
  | none ↦ none
  | some tokens ↦ some (expand (strip s) ++ tokens)
]
expansion (v ∷ vs) = none

-- Each text at its first place only.
abbrev pub distinct : List Text → List Text
distinct [] = []
distinct (x ∷ xs) = x ∷ select (λ y. not (x == y)) (distinct xs)

abbrev pub answer : Option (List Text) → Result ConfigError (List Text)
answer none = err not_a_text
answer (some tokens) = ok (distinct tokens)

-- What the field means: no value is the empty list, and a list of texts is the addresses that they
-- stand for, each once, in their order.
abbrev pub trusted : Value → Result ConfigError (List Text)
trusted null = ok []
trusted (list vs) = answer (expansion (list_items vs))
trusted v = err not_a_list

fresh : List Text → List Text → List Text
unfolding member
fresh seen xs = select (λ y. not (member y seen)) (distinct xs)

-- What was seen already is not added again, so leaving it out first changes nothing.
fresh-old :
    (x : Text) (seen ys : List Text)
    → member x seen ≡ true
    → select (λ y. not (member y seen)) (select (λ y. not (x == y)) ys)
      ≡ select (λ y. not (member y seen)) ys
fresh-old x seen ys h =
    select-select (λ y. not (member y seen)) (λ y. not (x == y)) ys
    ∙ select-ext (λ y. not (x == y) && not (member y seen)) (λ y. not (member y seen)) ys
        λ y. ground (arith, eq_of_true x y, h)

-- What is new stands first, and is left out of the rest.
fresh-new :
    (x : Text) (seen ys : List Text)
    → select (λ y. not (member y seen)) (select (λ y. not (x == y)) ys)
      ≡ select (λ y. not (member y (x ∷ seen))) ys
unfolding member
fresh-new x seen ys =
    select-select (λ y. not (member y seen)) (λ y. not (x == y)) ys
    ∙ select-ext (λ y. not (x == y) && not (member y seen)) (λ y. not (member y (x ∷ seen))) ys
        λ y. ground arith

fresh-cons :
    (x : Text) (seen xs : List Text)
    → fresh seen (x ∷ xs) ≡ (if member x seen then fresh seen xs else x ∷ fresh (x ∷ seen) xs)
unfolding fresh
fresh-cons x seen xs = elim (Bool-cases (member x seen)) [
  | inl old ↦ rw (old) (fresh-old x seen (distinct xs) old)
  | inr new ↦ rw (new) (ap (λ ys. x ∷ ys) (fresh-new x seen (distinct xs)))
]

add_new-fresh : (p : Proxies) (xs : List Text) → (loop add_new p xs).out ≡ p.out ++ fresh p.seen xs
unfolding add_new fresh
add_new-fresh p [] = sym (append-nil p.out)
add_new-fresh p (x ∷ xs) =
    let tail : Proxies → List Text = λ q. (loop add_new q xs).out in
    elim (Bool-cases (member x p.seen)) [
      | inl old ↦
          let same : add_new p x ≡ p = ground (arith, old) in
          rw (fresh-cons x p.seen xs, old) (ap tail same ∙ add_new-fresh p xs)
      | inr new ↦
          let q : Proxies = record { out = p.out ++ x ∷ []; seen = x ∷ p.seen } in
          let same : add_new p x ≡ q = ground (arith, new) in
          rw (fresh-cons x p.seen xs, new)
            (ap tail same
              ∙ add_new-fresh q xs
              ∙ append_assoc p.out (x ∷ []) (fresh (x ∷ p.seen) xs))
    ]

fresh-nil : (ts : List Text) → fresh [] ts ≡ distinct ts
unfolding fresh member
fresh-nil ts = select-true (distinct ts)

add_token-loop : (p : Proxies) (token : Text) → add_token p token ≡ loop add_new p (expand token)
unfolding add_token
add_token-loop p token = ground arith

fold-loop :
    (p : Proxies) (vs : List Value)
    → fold add_item p vs
      ≡ elim (expansion vs) [ none ↦ err not_a_text | some ts ↦ ok (loop add_new p ts) ]
unfolding fold add_item
fold-loop p [] = refl
fold-loop p (str s ∷ vs) =
    fold-loop (add_token p (strip s)) vs ∙ elim (Option-cases (expansion vs)) [
      | inl bad ↦ rw (bad)
      | inr (ts, good) ↦ rw (good) (
          ap ok (
            ap (λ q. loop add_new q ts) (add_token-loop p (strip s))
            ∙ sym (loop-append add_new p (expand (strip s)) ts)))
    ]
fold-loop p (v ∷ vs) = refl

-- The list that the field gives is what it means: `cloudflare` stands for Cloudflare's networks, blank
-- texts for nothing, and every address comes once, at its first place; and the error is the same.
pub parse_trusted_proxies-trusted : (v : Value) → parse_trusted_proxies v ≡ trusted v
unfolding parse_trusted_proxies
parse_trusted_proxies-trusted null = refl
parse_trusted_proxies-trusted (list vs) =
    let start : Proxies = record { out = []; seen = [] } in
    elim (Option-cases (expansion (list_items vs))) [
      | inl bad ↦ rw (fold-loop start (list_items vs), bad)
      | inr (ts, good) ↦
          rw (fold-loop start (list_items vs), good) (ap ok (add_new-fresh start ts ∙ fresh-nil ts))
    ]
parse_trusted_proxies-trusted v = refl
