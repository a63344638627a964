-- ===== src/Config/SshSound.antt =====
-- The section `ssh` of config.py gives sound hosts.

use beacon_mcp.Base.{
  ◌≡◌, Bool, true, false, not, ◌||◌, Option, none, some, List, ok, ◌>>=◌, if◌then◌else◌, member,
  fold, fold-inv, arith, Ensures, holds, Ensures-ok, Ensures-bind, Ensures-guard, is_some,
}
use beacon_mcp.Base.Text.{text_has_eq, codes}
use beacon_mcp.Config.Values.{
  Value, not_a_mapping, duplicate_host, not_one_credential, Python, is_mapping, or_none, get,
  get_or, required, converted, int, pos, truthy, legacy_shape, no_defaults, no_hosts, not_a_list,
  to_bool, bool, list, nil, or_else, list_of, is_list,
}
use beacon_mcp.Config.Types.{PveNode, SshDefaults}
use beacon_mcp.Config.Ssh.{
  Hosts, no_ssh_hosts, one_of, named_host, add_host, ssh_with, build_ssh, ssh_defaults,
  ssh_defaults_of, is_legacy,
}
use beacon_mcp.Config.Hosts.{
  HostsOk, HostsOk-append, HasCredential, IsSshSound, no_ssh_hosts-HostsOk, inherit_nodes-AreSound,
}

module _ (python : Python) where
  add_host-HostsOk : (s : Hosts) (raw : Value) → HostsOk s → Ensures HostsOk (add_host python s raw)
  unfolding add_host named_host
  add_host-HostsOk s raw inv = Ensures-guard (is_mapping raw) not_a_mapping λ _.
      Ensures-bind (required python (codes "name") raw) λ name _.
        Ensures-guard (not (member name s.seen_names)) (duplicate_host name) λ new.
          Ensures-bind (get (codes "password") raw) λ password _.
            Ensures-bind (get (codes "key_file") raw) λ key_file _.
              Ensures-guard (one_of (or_none password) (or_none key_file)) not_one_credential λ one.
                Ensures-bind (required python (codes "host") raw) λ address _.
                  Ensures-bind (get (codes "strict_host_key_checking") raw) λ strict _.
                    Ensures-bind (required python (codes "user") raw) λ user _.
                      Ensures-bind (get_or (int (pos 22)) (codes "port") raw) λ port _.
                        Ensures-bind (converted (python.int_of port)) λ number _.
                          Ensures-bind (get (codes "known_hosts") raw) λ known_hosts _.
                            holds (HostsOk-append s _ inv (ground (arith, new)) one)

  ssh_defaults_of-one :
      (raw : Value)
      → Ensures (λ d. one_of d.password d.key_file ≡ true) (ssh_defaults_of python raw)
  unfolding ssh_defaults_of
  ssh_defaults_of-one raw = Ensures-guard (is_mapping raw) not_a_mapping λ _.
      Ensures-bind (get (codes "password") raw) λ password _.
        Ensures-bind (get (codes "key_file") raw) λ key_file _.
          Ensures-guard (one_of (or_none password) (or_none key_file)) not_one_credential λ one.
            Ensures-bind (required python (codes "user") raw) λ user _.
              Ensures-bind (get_or (int (pos 22)) (codes "port") raw)
                λ port _. Ensures-bind (converted (python.int_of port)) λ number _. holds one

  ssh_defaults-HasCredential : (raw : Value) → Ensures HasCredential (ssh_defaults python raw)
  unfolding ssh_defaults ssh_defaults_of
  ssh_defaults-HasCredential raw = Ensures-bind (get (codes "defaults") raw) λ d _.
      elim (truthy d)
        as (λ b.
          Ensures HasCredential
            (if b then (do x ← ssh_defaults_of python d; ok (some x)) else ok none)) [
              | true ↦
                  Ensures-bind (ssh_defaults_of python d)
                    λ x e. holds (Ensures-ok (ssh_defaults_of-one d) e)
              | false ↦ holds tt
            ]

  ssh_with-IsSshSound :
      (defaults : Option SshDefaults) (inherit : Bool) (raw : Value) (nodes : List PveNode)
      → HasCredential defaults
      → (not inherit || is_some defaults) ≡ true
      → Ensures (IsSshSound nodes) (ssh_with python defaults inherit raw nodes)
  unfolding ssh_with
  ssh_with-IsSshSound defaults inherit raw nodes one given =
      Ensures-bind (get (codes "hosts") raw) λ hosts _.
        Ensures-guard (is_list (or_else (list nil) hosts)) not_a_list λ _.
          Ensures-guard (truthy hosts || inherit) no_hosts λ _.
            Ensures-bind (list_of (or_else (list nil) hosts)) λ raws _.
              Ensures-bind (fold (add_host python) no_ssh_hosts raws) λ declared e.
                Ensures-bind (get (codes "vmid_to_ip") raw) λ _ _.
                  Ensures-bind (get (codes "known_hosts") raw) λ _ _.
                    Ensures-bind (get (codes "strict_host_key_checking") raw) λ _ _. holds (
                      inherit_nodes-AreSound inherit defaults nodes declared one given (
                        Ensures-ok
                          (fold-inv HostsOk (add_host python) add_host-HostsOk no_ssh_hosts raws
                            no_ssh_hosts-HostsOk)
                          e))

  pub build_ssh-IsSshSound :
      (raw : Value) (nodes : List PveNode) → Ensures (IsSshSound nodes) (build_ssh python raw nodes)
  unfolding build_ssh
  build_ssh-IsSshSound raw nodes = Ensures-bind (is_legacy raw) λ legacy _.
      Ensures-guard (not legacy) legacy_shape λ _.
        Ensures-bind (ssh_defaults python raw) λ defaults e.
          Ensures-bind (get_or (bool false) (codes "inherit_proxmox_nodes") raw) λ flag _.
            Ensures-guard (not (to_bool python flag) || is_some defaults) no_defaults λ given.
              ssh_with-IsSshSound defaults (to_bool python flag) raw nodes
                (Ensures-ok (ssh_defaults-HasCredential raw) e) given
