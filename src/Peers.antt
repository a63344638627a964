-- ===== src/Peers.antt =====
-- Who a request comes from, and under which name: `client_ip`, `forwarded_host` and `forwarded_scheme` of
-- ratelimit.py, and the host check of hostguard.py. Addresses and header entries come parsed.
pub mod Forwarded
pub mod Hops
pub mod HostGuard
mod Tests
use beacon_mcp.Base.{
  ℕ, ◌+◌, ◌-◌, String, Bool, true, false, ◌&&◌, ◌||◌, not, Option, none, some, List, [], ◌∷◌, ◌++◌,
  if◌then◌else◌, string_has_eq, ◌==◌, is_some,
}
use Prim.Native.String.{len, slice, ◌++◌ as joined}
use text.Mathlib.Text.{starts_with}

-- A rule of `trusted_proxies` as `_is_trusted_proxy` reads it: a network, by its membership test, an
-- address, or what cannot be read.
pub data Rule (Ip : Type 0) : Type 0 where
  network : (Ip → Bool) → Rule Ip
  address : Ip → Rule Ip
  unreadable : Rule Ip

module _ {Ip : Type 0} (same_ip : Ip → Ip → Bool) where
  abbrev pub matches : Ip → Rule Ip → Bool
  matches ip (network contains) = contains ip
  matches ip (address a) = same_ip ip a
  matches ip unreadable = false

  -- The loop of `_is_trusted_proxy`, for an address that could be read.
  pub is_trusted_proxy : List (Rule Ip) → Ip → Bool
  is_trusted_proxy [] ip = false
  is_trusted_proxy (rule ∷ rules) ip = matches ip rule || is_trusted_proxy rules ip

-- What the three functions read of a request. A header that is absent or empty is `none`.
pub record Request (Ip : Type 0) : Type 0 where
  -- The host of the peer, and the address that `_coerce_ip` reads in it.
  pub direct_peer : Option String
  pub direct_ip : Option Ip
  -- The parts of `X-Forwarded-For` as `_coerce_ip` reads them.
  pub forwarded_for : Option (List (Option Ip))
  pub host : Option String
  -- The stripped parts of `X-Forwarded-Host` that are not empty.
  pub forwarded_host : Option (List String)
  -- The stripped first part of `X-Forwarded-Proto`.
  pub forwarded_proto : Option String
  pub scheme : String

-- What `client_ip` answers: an address, the peer's own host where it is no address, or "unknown".
pub data Peer (Ip : Type 0) : Type 0 where
  ip : Ip → Peer Ip
  raw : String → Peer Ip
  unknown : Peer Ip

-- `[ip for ip in ... if ip is not None]`
pub readable {ℓ} : {Ip : Type ℓ} → List (Option Ip) → List Ip
readable [] = []
readable (none ∷ parts) = readable parts
readable (some a ∷ parts) = a ∷ readable parts

pub reversed {ℓ} : {A : Type ℓ} → List A → List A
reversed [] = []
reversed (a ∷ rest) = reversed rest ++ (a ∷ [])

module _ {Ip : Type 0} (trusted : Ip → Bool) where
  -- `_peer_is_trusted`
  abbrev pub peer_is_trusted : Request Ip → Bool
  peer_is_trusted r = elim r.direct_ip [ none ↦ false | some a ↦ trusted a ]

  -- `for hop in ...: if not trusted: return hop`
  pub first_untrusted : List Ip → Option Ip
  first_untrusted [] = none
  first_untrusted (hop ∷ hops) =
      let rest = first_untrusted hops in if trusted hop then rest else some hop

  -- What `client_ip` falls back to.
  pub own_peer : Request Ip → Peer Ip
  own_peer r = elim r.direct_ip [
    | some a ↦ ip a
    | none ↦ elim r.direct_peer [
      | none ↦ unknown
      | some host ↦ if host == "" then unknown else raw host
    ]
  ]

  -- The hop that the chain of `X-Forwarded-For`, with the peer at its end, gives.
  pub forwarded_hop : Ip → List (Option Ip) → Option Ip
  unfolding first_untrusted readable reversed
  forwarded_hop direct parts = first_untrusted (reversed (readable parts ++ (direct ∷ [])))

  -- `client_ip`
  pub client_ip : Request Ip → Peer Ip
  unfolding own_peer forwarded_hop
  client_ip r = elim r.direct_ip [
    | none ↦ own_peer r
    | some direct ↦
        if trusted direct
        then elim r.forwarded_for [
          | none ↦ own_peer r
          | some parts ↦ elim (forwarded_hop direct parts) [ none ↦ own_peer r | some hop ↦ ip hop ]
        ]
        else own_peer r
  ]

  -- `parts[-1]`
  abbrev pub last_of : String → List String → String
  last_of host [] = host
  last_of host (part ∷ parts) = last_of part parts

  -- `headers.get("host") or default`
  abbrev pub host_header : String → Request Ip → String
  host_header fallback r = elim r.host [
    | none ↦ fallback
    | some host ↦ if host == "" then fallback else host
  ]

  -- `forwarded_host`
  pub forwarded_host : String → Request Ip → String
  forwarded_host fallback r = elim r.forwarded_host [
    | none ↦ host_header fallback r
    | some parts ↦
        if peer_is_trusted r then last_of (host_header fallback r) parts else host_header fallback r
  ]

  -- `forwarded_scheme`, where `declared` tells whether trusted proxies are, and `is_local` is
  -- `_is_local_peer`.
  pub forwarded_scheme : Bool → (Ip → Bool) → Request Ip → String
  forwarded_scheme declared is_local r = elim r.forwarded_proto [
    | none ↦ r.scheme
    | some proto ↦
        if declared
          && (not (peer_is_trusted r)
              && not (elim r.direct_ip [ none ↦ false | some a ↦ is_local a ]))
        then r.scheme
        else if proto == ""
        then r.scheme
        else proto
  ]

-- `allowed.endswith(":*") and host.startswith(allowed[:-2] + ":")`
abbrev pub any_port : String → String → Bool
any_port allowed host =
    (slice allowed (len allowed - 2) (len allowed) == ":*")
    && starts_with host (joined (slice allowed 0 (len allowed - 2)) ":")

-- `host_allowed`
pub host_allowed : Option String → List String → Bool
host_allowed none hosts = false
host_allowed (some host) [] = false
host_allowed (some host) (allowed ∷ hosts) =
    let rest = host_allowed (some host) hosts in
    if host == "" then false else if host == allowed then true else any_port allowed host || rest

pub record HostGuardMiddleware (Ip : Type 0) : Type 0 where
  pub allowed_hosts : List String
  pub trusted_proxies : List (Rule Ip)
  pub enabled : Bool
  pub exempt_paths : List String

pub data Answer : Type 0 where
  passed_on : Answer
  rejected : Answer

pub listed : String → List String → Bool
listed path [] = false
listed path (p ∷ paths) = (p == path) || listed path paths

-- `__call__`: whether the request reaches the application, or is answered by 421.
pub guard :
    {Ip : Type 0} → (Ip → Ip → Bool) → HostGuardMiddleware Ip → Bool → String → Request Ip → Answer
unfolding is_trusted_proxy forwarded_host host_allowed listed
guard same_ip g is_http path r =
    if not is_http || (not g.enabled || listed path g.exempt_paths)
    then passed_on
    else if not (host_allowed r.host g.allowed_hosts)
    then rejected
    else if elim g.trusted_proxies [ [] ↦ false | _ ∷ _ ↦ is_some r.forwarded_host ]
        && not (
            host_allowed
              (some (forwarded_host (is_trusted_proxy same_ip g.trusted_proxies) "localhost" r))
              g.allowed_hosts)
    then rejected
    else passed_on
