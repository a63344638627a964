-- ===== src/Auth/Clients/Cascade.antt =====
-- `remove_client`, the cascade of `ClientStore.revoke`: which clients are left.
use beacon_mcp.Base.{
  String, ◌≡◌, ◌≢◌, refl, sym, ap, ◌∙◌, Bool, true, false, Option, none, some, List, [], ◌∷◌, map,
  arith, string_has_eq, inl, inr, Bool-cases, ◌==◌, eq_refl, eq_of_true, eq_of_ne, is_some_of,
  is_some, select, member, loop,
}
use beacon_mcp.Base.Dict.{
  Dict, lookup, erase, erase_keys, values, Every, IsDict, Every-map, lookup-erase, Every-erase,
  Every-erase_covered, lookup-erase_keys, lookup-erase_keys-none, IsDict-erase,
}
use beacon_mcp.Auth.Clients.Types.{Client}
use beacon_mcp.Auth.Clients.Store.{remove_client}

-- Every client stands under its own id.
abbrev pub IsKeyed : Dict String Client → Type 0
IsKeyed clients = Every (λ k c. c.client_id ≡ k) clients

module _ (p : Client → Bool) where
  abbrev selected : Dict String Client → List String
  selected d = map (λ c. c.client_id) (select p (values d))

  covered_more :
      (j : String) (w : Client) (d : Dict String Client) (k : String)
      → member k (selected d) ≡ true
      → member k (selected ((j, w) ∷ d)) ≡ true
  unfolding values member
  covered_more j w d k h = ground arith

  selected-covered :
      (d : Dict String Client)
      → IsKeyed d
      → Every (λ k c. p c ≡ true → member k (selected d) ≡ true) d
  unfolding values member
  selected-covered [] h = tt
  selected-covered ((j, w) ∷ d) h = (
    λ t. ground (arith, h.0, eq_refl {A = String} j),
    Every-map _ _ d (λ k c f t. covered_more j w d k (f t)) (selected-covered d h.1),
  )

  absent :
      (d : Dict String Client) (k : String)
      → IsKeyed d
      → lookup k d ≡ none
      → member k (selected d) ≡ false
  unfolding values member lookup
  absent [] k keyed missing = refl
  absent ((j, w) ∷ d) k keyed missing = ground (arith, keyed.0, absent d k keyed.1)

  -- A client that the test does not select is not among the selected ids.
  not_selected :
      (d : Dict String Client) (k : String) (c : Client)
      → IsKeyed d
      → IsDict d
      → lookup k d ≡ some c
      → p c ≡ false
      → member k (selected d) ≡ false
  unfolding values member lookup
  not_selected [] k c keyed dict found f = refl
  not_selected ((j, w) ∷ d) k c keyed dict found f = elim (Bool-cases (j == k)) [
    | inl hit ↦
        let same = eq_of_true {A = String} j k hit in
        ground
          (arith, hit, keyed.0, absent d j keyed.1 dict.0, absent d k keyed.1 (rw (← same) dict.0))
    | inr miss ↦ ground (arith, miss, keyed.0, not_selected d k c keyed.1 dict.1)
  ]

loop-erase_keys :
    (ks : List String) (d : Dict String Client) → loop (λ d' k. erase k d') d ks ≡ erase_keys ks d
unfolding erase_keys
loop-erase_keys [] d = refl
loop-erase_keys (k ∷ ks) d = loop-erase_keys ks (erase k d)

is_some_of-ne : (o : Option String) (f : String) → o ≢ some f → is_some_of o f ≡ false
is_some_of-ne none f h = refl
is_some_of-ne (some g) f h = eq_of_ne {A = String} g f (λ e. h (ap some e))

is_some_of-false : (o : Option String) (f : String) → is_some_of o f ≡ false → o ≢ some f
is_some_of-false none f h e = cc
is_some_of-false (some g) f h e = ground (arith, eq_refl {A = String} f)

-- Once an owner is removed it is gone, and no client is left that would need its second factor.
pub remove_client-cascades :
    (client_id : String) (client : Client) (clients : Dict String Client)
    → IsKeyed clients
    → client.owner_client_id ≡ none
    → let rest = remove_client client_id client clients in
      (lookup client_id rest ≡ none) × Every (λ _ c. c.owner_client_id ≢ some client_id) rest
unfolding remove_client
remove_client-cascades client_id client clients keyed owner =
    rw (owner, remove_client)
      (rw (loop-erase_keys _ (erase client_id clients)) (
        lookup-erase_keys-none client_id _ _
            (rw (lookup-erase client_id client_id clients, eq_refl {A = String} client_id)),
        Every-map _ _ _ (λ _ c h. is_some_of-false c.owner_client_id client_id h)
            (Every-erase_covered _ _ _ (
              selected-covered _ (erase client_id clients)
                (Every-erase _ client_id clients keyed))),
      ))

-- A client that is neither the removed one nor derived from it stays.
pub remove_client-spares :
    (client_id k : String) (client c : Client) (clients : Dict String Client)
    → IsKeyed clients
    → IsDict clients
    → lookup k clients ≡ some c
    → k ≢ client_id
    → c.owner_client_id ≢ some client_id
    → lookup k (remove_client client_id client clients) ≡ some c
unfolding remove_client
remove_client-spares client_id k client c clients keyed dict found ne stranger =
    let rest = erase client_id clients in
    let kept : lookup k rest ≡ some c =
      lookup-erase client_id k clients
      ∙ rw (eq_of_ne {A = String} client_id k (λ e. ne (sym e))) found in
    elim (Bool-cases (is_some client.owner_client_id)) [
      | inl derived ↦ rw (derived, remove_client) kept
      | inr owner ↦
          rw (owner, remove_client)
            (rw (loop-erase_keys _ rest) (
              lookup-erase_keys k _ rest (
                not_selected _ rest k c (Every-erase _ client_id clients keyed)
                  (IsDict-erase client_id clients dict) kept
                  (is_some_of-ne c.owner_client_id client_id stranger))
              ∙ kept))
    ]
