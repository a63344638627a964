-- ===== src/Config/Hosts.antt =====
-- What the section `ssh` of config.py guarantees of its hosts.
use mathlib.Core.List.{map-append}
use beacon_mcp.Base.{
  ◌≡◌, refl, sym, ◌∙◌, subst, Bool, true, false, not, ◌||◌, Option, none, some, List, [], ◌∷◌, ◌++◌,
  member, member-append, map, arith, All, All-append, loop, loop-inv, is_some, eq_refl, inl, inr,
  Bool-cases,
}
use beacon_mcp.Base.Text.{Text, text_has_eq, same_text_iff}
use beacon_mcp.Config.Types.{PveNode, SshHost, SshDefaults, SshConfig}
use beacon_mcp.Config.Ssh.{Hosts, no_ssh_hosts, one_of, inherit_node, inherit_nodes}

-- No text stands twice.
abbrev pub Distinct : List Text → Type 0
Distinct [] = Unit
Distinct (x ∷ xs) = (member x xs ≡ false) × Distinct xs

pub Distinct-append :
    (xs : List Text) (x : Text) → Distinct xs → member x xs ≡ false → Distinct (xs ++ x ∷ [])
unfolding member
Distinct-append [] x d new = (refl, tt)
Distinct-append (y ∷ xs) x (first, rest) new = (
  ground (arith, first, new, member-append y xs (x ∷ []), same_text_iff x y, same_text_iff y x),
  Distinct-append xs x rest (ground (arith, new)),
)

abbrev pub names : List SshHost → List Text
names hosts = map (λ h. h.name) hosts

abbrev pub addresses : List SshHost → List Text
addresses hosts = map (λ h. h.host) hosts

abbrev pub HasOneCredential : SshHost → Type 0
HasOneCredential h = one_of h.password h.key_file ≡ true

-- The loop's sets hold the names and addresses of its hosts.
pub record HostsOk (s : Hosts) : Type 0 where
  pub distinct : Distinct (names s.ssh_hosts)
  pub named : (x : Text) → member x s.seen_names ≡ member x (names s.ssh_hosts)
  pub addressed : (x : Text) → member x s.seen_addresses ≡ member x (addresses s.ssh_hosts)
  pub credentials : All HasOneCredential s.ssh_hosts

pub seen-append {ℓ} :
    {A : Type ℓ} (f : A → Text) (x : Text) (seen : List Text) (hosts : List A) (h : A)
    → member x seen ≡ member x (map f hosts)
    → member x (f h ∷ seen) ≡ member x (map f (hosts ++ h ∷ []))
unfolding member
seen-append f x seen hosts h same =
    rw (map-append f hosts (h ∷ []), member-append x (map f hosts) (f h ∷ []), same) (ground arith)

pub HostsOk-append :
    (s : Hosts) (h : SshHost)
    → HostsOk s
    → member h.name s.seen_names ≡ false
    → HasOneCredential h
    → HostsOk (record {
      ssh_hosts = s.ssh_hosts ++ h ∷ [];
      seen_names = h.name ∷ s.seen_names;
      seen_addresses = h.host ∷ s.seen_addresses;
    })
HostsOk-append s h inv new one = record {
  distinct =
      subst Distinct (sym (map-append (λ g. g.name) s.ssh_hosts (h ∷ [])))
        (Distinct-append (names s.ssh_hosts) h.name inv.distinct (sym (inv.named h.name) ∙ new));
  named = λ x. seen-append (λ g. g.name) x s.seen_names s.ssh_hosts h (inv.named x);
  addressed = λ x. seen-append (λ g. g.host) x s.seen_addresses s.ssh_hosts h (inv.addressed x);
  credentials = All-append HasOneCredential s.ssh_hosts h inv.credentials one;
}

-- The node has its name or its address among the hosts.
abbrev Covered : Hosts → PveNode → Type 0
Covered s n = (member n.name s.seen_names || member n.host s.seen_addresses) ≡ true

abbrev pub HasCredential : Option SshDefaults → Type 0
HasCredential none = Unit
HasCredential (some d) = one_of d.password d.key_file ≡ true

module _ (d : SshDefaults) where
  inherit_node-HostsOk :
      (s : Hosts) (n : PveNode)
      → one_of d.password d.key_file ≡ true
      → HostsOk s
      → HostsOk (inherit_node d s n)
  unfolding inherit_node
  inherit_node-HostsOk s n one inv =
      elim (Bool-cases (member n.name s.seen_names || member n.host s.seen_addresses)) [
        | inl there ↦ rw (there) inv
        | inr new ↦ rw (new) (HostsOk-append s _ inv (ground (arith, new)) one)
      ]

  inherit_node-keeps : (s : Hosts) (m n : PveNode) → Covered s n → Covered (inherit_node d s m) n
  unfolding inherit_node member
  inherit_node-keeps s m n h = ground (arith, h)

  inherit_node-Covered : (s : Hosts) (n : PveNode) → Covered (inherit_node d s n) n
  unfolding inherit_node member
  inherit_node-Covered s n = ground (arith, eq_refl n.name)

  All-Covered :
      (s : Hosts) (nodes : List PveNode) → All (Covered (loop (inherit_node d) s nodes)) nodes
  All-Covered s [] = tt
  All-Covered s (n ∷ nodes) = (
    loop-inv (λ t. Covered t n) (inherit_node d) (λ t m h. inherit_node-keeps t m n h)
        (inherit_node d s n) nodes (inherit_node-Covered s n),
    All-Covered (inherit_node d s n) nodes,
  )

inherit_nodes-HostsOk :
    (inherit : Bool) (defaults : Option SshDefaults) (nodes : List PveNode) (s : Hosts)
    → HasCredential defaults
    → HostsOk s
    → HostsOk (inherit_nodes inherit defaults nodes s)
unfolding inherit_nodes
inherit_nodes-HostsOk true (some d) nodes s one inv =
    loop-inv HostsOk (inherit_node d) (λ t n. inherit_node-HostsOk d t n one) s nodes inv
inherit_nodes-HostsOk true none nodes s one inv = inv
inherit_nodes-HostsOk false defaults nodes s one inv = inv

inherit_nodes-Covered :
    (inherit : Bool) (defaults : Option SshDefaults) (nodes : List PveNode) (s : Hosts)
    → (not inherit || is_some defaults) ≡ true
    → inherit ≡ true
    → All (Covered (inherit_nodes inherit defaults nodes s)) nodes
unfolding inherit_nodes
inherit_nodes-Covered true (some d) nodes s given on = All-Covered d s nodes
inherit_nodes-Covered true none nodes s given on = cc
inherit_nodes-Covered false defaults nodes s given on = cc

-- Names are unique, every host has exactly one credential, and with `inherit_proxmox_nodes` every node
-- has its name or its address among the hosts.
pub record AreSound (nodes : List PveNode) (inherit : Bool) (hosts : List SshHost) : Type 0 where
  pub distinct : Distinct (names hosts)
  pub credentials : All HasOneCredential hosts
  pub covers :
      inherit ≡ true
      → All (λ n. (member n.name (names hosts) || member n.host (addresses hosts)) ≡ true) nodes

abbrev pub IsSshSound : List PveNode → SshConfig → Type 0
IsSshSound nodes ssh = AreSound nodes ssh.inherit_proxmox_nodes ssh.hosts

All-map {ℓ κ ι} :
    {A : Type ℓ} (P : A → Type κ) (Q : A → Type ι) (xs : List A)
    → ((x : A) → P x → Q x)
    → All P xs
    → All Q xs
All-map P Q [] f h = tt
All-map P Q (x ∷ xs) f h = (f x h.0, All-map P Q xs f h.1)

pub no_ssh_hosts-HostsOk : HostsOk no_ssh_hosts
unfolding member
no_ssh_hosts-HostsOk = record {
  distinct = tt;
  named = λ x. refl;
  addressed = λ x. refl;
  credentials = tt;
}

pub inherit_nodes-AreSound :
    (inherit : Bool) (defaults : Option SshDefaults) (nodes : List PveNode) (s : Hosts)
    → HasCredential defaults
    → (not inherit || is_some defaults) ≡ true
    → HostsOk s
    → AreSound nodes inherit (inherit_nodes inherit defaults nodes s).ssh_hosts
inherit_nodes-AreSound inherit defaults nodes s one given inv =
    let t : Hosts = inherit_nodes inherit defaults nodes s in
    let ok_t : HostsOk t = inherit_nodes-HostsOk inherit defaults nodes s one inv in
    record {
      distinct = ok_t.distinct;
      credentials = ok_t.credentials;
      covers = λ on.
          All-map (Covered t)
            (λ n.
              (member n.name (names t.ssh_hosts) || member n.host (addresses t.ssh_hosts)) ≡ true)
            nodes (λ n h. rw (← ok_t.named n.name, ← ok_t.addressed n.host) h)
            (inherit_nodes-Covered inherit defaults nodes s given on);
    }
