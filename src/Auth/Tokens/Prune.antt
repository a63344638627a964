-- ===== src/Auth/Tokens/Prune.antt =====
-- `prune_unknown_clients` of `TokenStore`.
use beacon_mcp.Base.{
  String, ◌≡◌, Bool, true, false, not, ◌||◌, List, [], ◌∷◌, ◌++◌, map, arith, string_has_eq, inl,
  inr, Bool-cases, ◌==◌, eq_refl, member, loop, member-append, member-select,
}
use text.Mathlib.TextEquality.{eq_iff}
use beacon_mcp.Base.Dict.{Dict, values, retain, Every, Every-map}
use beacon_mcp.Auth.Tokens.Types.{TokenStore}
use beacon_mcp.Auth.Tokens.Oauth.{revoke_client, distinct, stale_clients, prune_unknown_clients}

-- Every client that is not known stands in the list of those still to be revoked.
abbrev Covered : List String → List String → TokenStore → Type 0
Covered known ks s =
    Every (λ _ a. not (member a.client_id known) ≡ true → member a.client_id ks ≡ true)
      s.oauth_tokens
    × Every (λ _ r. not (member r.client_id known) ≡ true → member r.client_id ks ≡ true)
        s.refresh_tokens

-- An OAuth token of a client that is not in the list is gone.
abbrev pub OnlyKnown : List String → TokenStore → Type 0
OnlyKnown known s =
    Every (λ _ a. member a.client_id known ≡ true) s.oauth_tokens
    × Every (λ _ r. member r.client_id known ≡ true) s.refresh_tokens

or_left : (a b : Bool) → a ≡ true → (a || b) ≡ true
or_left a b h = ground arith

or_right : (a b : Bool) → b ≡ true → (a || b) ≡ true
or_right a b h = ground arith

known_of :
    (c : String) (known : List String)
    → (not (member c known) ≡ true → false ≡ true)
    → member c known ≡ true
known_of c known h = elim (Bool-cases (member c known)) [
  | inl there ↦ there
  | inr missing ↦ cc (h (rw missing))
]

Every-retain_both {ℓ κ ι} :
    {V : Type ℓ} (P : String → V → Type κ) (Q : String → V → Type ι) (p : V → Bool)
    (d : Dict String V)
    → ((k : String) (v : V) → p v ≡ true → P k v → Q k v)
    → Every P d
    → Every Q (retain p d)
unfolding retain
Every-retain_both P Q p [] keep h = tt
Every-retain_both P Q p ((j, w) ∷ d) keep h = elim (Bool-cases (p w)) [
  | inl kept ↦ rw (kept, retain) (keep j w kept h.0, Every-retain_both P Q p d keep h.1)
  | inr dropped ↦ rw (dropped, retain) (Every-retain_both P Q p d keep h.1)
]

step_covered :
    (c k : String) (known ks : List String)
    → not (c == k) ≡ true
    → (not (member c known) ≡ true → member c (k ∷ ks) ≡ true)
    → not (member c known) ≡ true
    → member c ks ≡ true
unfolding member
step_covered c k known ks ne h unknown =
    ground (arith, h unknown, eq_refl {A = String} c, eq_iff c k, eq_iff k c)

loop-OnlyKnown :
    (known ks : List String) (s : TokenStore)
    → Covered known ks s
    → OnlyKnown known (loop (λ s' c. (revoke_client c s').1) s ks)
unfolding revoke_client member
loop-OnlyKnown known [] s h = (
  Every-map _ _ _ (λ _ a f. known_of a.client_id known f) h.0,
  Every-map _ _ _ (λ _ r f. known_of r.client_id known f) h.1,
)
loop-OnlyKnown known (k ∷ ks) s h = loop-OnlyKnown known ks (revoke_client k s).1 (
  Every-retain_both _ _ _ _ (λ _ a ne f. step_covered a.client_id k known ks ne f) h.0,
  Every-retain_both _ _ _ _ (λ _ r ne f. step_covered r.client_id k known ks ne f) h.1,
)

member-distinct :
    (c : String) (ks : List String) → member c ks ≡ true → member c (distinct ks) ≡ true
unfolding distinct member
member-distinct c [] h = h
member-distinct c (k ∷ ks) h = ground (arith, eq_iff k c, member-distinct c ks)

Every-member {ℓ} :
    {V : Type ℓ} (client : V → String) (d : Dict String V)
    → Every (λ _ v. member (client v) (map client (values d)) ≡ true) d
unfolding values member
Every-member client [] = tt
Every-member client ((j, w) ∷ d) = (
  ground (arith, eq_refl {A = String} (client w)),
  Every-map _ _ _ (λ _ v h. ground (arith, h)) (Every-member client d),
)

-- After a pruning every access and refresh token belongs to one of the known clients, whichever
-- clients the store held tokens of before.
pub prune-OnlyKnown :
    (known : List String) (s : TokenStore) → OnlyKnown known (prune_unknown_clients known s).1
unfolding prune_unknown_clients stale_clients
prune-OnlyKnown known s = loop-OnlyKnown known (stale_clients known s) s (
  Every-map _ _ _ (λ _ a h unknown. in_stale a.client_id unknown (rw member-append (or_left _ _ h)))
      (Every-member (λ a. a.client_id) s.oauth_tokens),
  Every-map _ _ _
      (λ _ r h unknown. in_stale r.client_id unknown (rw member-append (or_right _ _ h)))
      (Every-member (λ r. r.client_id) s.refresh_tokens),
)
  where
    in_stale :
        (c : String)
        → not (member c known) ≡ true
        → member c (
            map (λ a. a.client_id) (values s.oauth_tokens)
            ++ map (λ r. r.client_id) (values s.refresh_tokens))
          ≡ true
        → member c (stale_clients known s) ≡ true
    in_stale c unknown there =
        member-select (λ k. not (member k known)) c _ unknown (member-distinct c _ there)
