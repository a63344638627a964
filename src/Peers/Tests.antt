-- ===== src/Peers/Tests.antt =====
-- Forwarded headers and the host guard at concrete inputs.
use beacon_mcp.Base.{
  ℕ, String, ◌≡◌, refl, Bool, true, false, Option, arith, none, some, List, [], ◌∷◌, ◌++◌, nat_eq,
  All, string_has_eq,
}
use beacon_mcp.Peers.{
  Rule, address, ip, Request, client_ip, forwarded_host, is_trusted_proxy, HostGuardMiddleware,
  guard, listed, host_allowed,
}
use beacon_mcp.Peers.Forwarded.{Covers, forged, untrusted-ignored}
use beacon_mcp.Peers.Hops.{IsTrustedEntry, client_ip-vouched}
use beacon_mcp.Peers.HostGuard.{guard_sound}

-- Addresses as numbers, of which 1 is the proxy.
abbrev proxy : ℕ → Bool
proxy a = nat_eq a 1

abbrev direct : Request ℕ
direct = record {
  direct_peer = some "10.0.0.7";
  direct_ip = some 7;
  forwarded_for = some (some 99 ∷ []);
  host = some "mcp.example.org";
  forwarded_host = some ("evil.example.org" ∷ []);
  forwarded_proto = none;
  scheme = "http";
}

abbrev rules : List (Rule ℕ)
rules = address 1 ∷ []

outside : (a : ℕ) → direct.direct_ip ≡ some a → All (λ rule. ¬ Covers nat_eq a rule) rules
outside a named = (λ covered. absurd (ground (arith, named, covered)), tt)

untrusted-ignored_example :
    (client_ip (is_trusted_proxy nat_eq rules) (forged nat_eq direct (some (some 42 ∷ [])) none)
      ≡ client_ip (is_trusted_proxy nat_eq rules) (forged nat_eq direct none (some ("a" ∷ []))))
    × (forwarded_host
          (is_trusted_proxy nat_eq rules)
          "localhost"
          (forged nat_eq direct (some (some 42 ∷ [])) none)
        ≡ forwarded_host
            (is_trusted_proxy nat_eq rules)
            "localhost"
            (forged nat_eq direct none (some ("a" ∷ []))))
untrusted-ignored_example =
    untrusted-ignored nat_eq rules direct (some (some 42 ∷ [])) none none (some ("a" ∷ []))
      "localhost" outside

-- A request through the proxy, with a chain that its client began with an address of its own.
abbrev through : Request ℕ
through = record direct {
  direct_peer = some "10.0.0.1";
  direct_ip = some 1;
  forwarded_for = some (some 42 ∷ some 7 ∷ none ∷ []);
}

client_ip-vouched_example :
    (peer : ℕ) × (left : List (Option ℕ)) × (right : List (Option ℕ)) × (through.direct_ip
      ≡ some peer)
    × (proxy peer ≡ true)
    × (through.forwarded_for ≡ some (left ++ (some 7 ∷ right)))
    × (proxy 7 ≡ false)
    × All (IsTrustedEntry proxy) right
    × ((left' : List (Option ℕ))
        → client_ip proxy (record through { forwarded_for = some (left' ++ (some 7 ∷ right)) })
          ≡ ip 7)
unfolding client_ip
client_ip-vouched_example = client_ip-vouched proxy through 7 refl (λ e. absurd (ground (arith, e)))

abbrev hosts : List String
hosts = "mcp.example.org" ∷ "127.0.0.1:*" ∷ []

abbrev watch : HostGuardMiddleware ℕ
watch = record {
  allowed_hosts = hosts;
  trusted_proxies = address 1 ∷ [];
  enabled = true;
  exempt_paths = "/health" ∷ [];
}

guard_sound_example :
    (host_allowed direct.host hosts ≡ true)
    × (host_allowed
          (some (forwarded_host (is_trusted_proxy nat_eq watch.trusted_proxies) "localhost" direct))
          hosts
        ≡ true)
unfolding guard listed
guard_sound_example = guard_sound nat_eq watch "/mcp" "localhost" direct refl refl refl
