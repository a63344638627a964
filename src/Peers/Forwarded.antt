-- ===== src/Peers/Forwarded.antt =====
-- What forwarded headers change when the peer that sends them is not trusted.
use beacon_mcp.Base.{
  String, ◌≡◌, refl, Bool, true, false, Option, some, List, [], ◌∷◌, string_has_eq, arith,
  Option-cases, inl, inr, All,
}
use beacon_mcp.Peers.{
  Rule, network, address, unreadable, is_trusted_proxy, Request, own_peer, client_ip,
  forwarded_host,
}

module _ {Ip : Type 0} (same_ip : Ip → Ip → Bool) where
  -- A rule of `trusted_proxies` covers an address.
  abbrev pub Covers : Ip → Rule Ip → Type 0
  Covers a (network contains) = contains a ≡ true
  Covers a (address b) = same_ip a b ≡ true
  Covers a unreadable = ⊥

  not-is_trusted_proxy :
      (rules : List (Rule Ip)) (a : Ip)
      → All (λ rule. ¬ Covers a rule) rules
      → is_trusted_proxy same_ip rules a ≡ false
  unfolding is_trusted_proxy
  not-is_trusted_proxy [] a h = refl
  not-is_trusted_proxy (network contains ∷ rules) a (out, rest) =
      ground (arith, not-is_trusted_proxy rules a rest, out)
  not-is_trusted_proxy (address b ∷ rules) a (out, rest) =
      ground (arith, not-is_trusted_proxy rules a rest, out)
  not-is_trusted_proxy (unreadable ∷ rules) a (out, rest) = not-is_trusted_proxy rules a rest

  -- A request whose forwarded headers are replaced.
  abbrev pub forged : Request Ip → Option (List (Option Ip)) → Option (List String) → Request Ip
  forged r addresses hosts = record r { forwarded_for = addresses; forwarded_host = hosts }

  -- Two requests that differ only in their forwarded addresses and hosts are taken for the same
  -- client and the same host, if no rule of trusted_proxies covers the peer that sends them.
  pub untrusted-ignored :
      (rules : List (Rule Ip)) (r : Request Ip) (addresses addresses' : Option (List (Option Ip)))
      (hosts hosts' : Option (List String)) (fallback : String)
      → ((a : Ip) → r.direct_ip ≡ some a → All (λ rule. ¬ Covers a rule) rules)
      → let trusted = is_trusted_proxy same_ip rules in
        (client_ip trusted (forged r addresses hosts)
          ≡ client_ip trusted (forged r addresses' hosts'))
        × (forwarded_host trusted fallback (forged r addresses hosts)
            ≡ forwarded_host trusted fallback (forged r addresses' hosts'))
  unfolding client_ip own_peer forwarded_host
  untrusted-ignored rules r addresses addresses' hosts hosts' fallback outside =
      elim (Option-cases r.direct_ip) [
        | inl unnamed ↦ (ground (arith, unnamed), ground (arith, unnamed))
        | inr (a, named) ↦
            let stranger = not-is_trusted_proxy rules a (outside a named) in
            (ground (arith, named, stranger), ground (arith, named, stranger))
      ]
