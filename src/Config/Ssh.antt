-- ===== src/Config/Ssh.antt =====
-- The section `ssh` of `Config._build` in config.py.
use beacon_mcp.Base.{
  Bool, true, false, not, ◌||◌, ◌&&◌, Option, none, some, List, [], ◌∷◌, ◌++◌, Result, ok, ◌>>=◌,
  ◌>>◌, guard, if◌then◌else◌, member, fold, is_some, loop,
}
use beacon_mcp.Base.Text.{Text, text_has_eq, codes}
use beacon_mcp.Config.Values.{
  pos, Value, null, bool, int, list, nil, ConfigError, not_a_mapping, not_one_credential,
  duplicate_host, legacy_shape, no_defaults, no_hosts, not_a_list, Python, truthy, or_else, or_none,
  has_key, get, get_or, list_of, is_mapping, is_list, converted, required, to_bool,
}
use beacon_mcp.Config.Types.{PveNode, SshHost, SshDefaults, SshConfig}

-- The variables of the loop over `ssh.hosts`.
pub record Hosts : Type 0 where
  pub ssh_hosts : List SshHost
  pub seen_names : List Text
  pub seen_addresses : List Text

abbrev pub no_ssh_hosts : Hosts
no_ssh_hosts = record { ssh_hosts = []; seen_names = []; seen_addresses = [] }

-- `bool(password) != bool(key_file)`
abbrev pub one_of {ℓ} : {A : Type ℓ} → Option A → Option A → Bool
one_of (some a) none = true
one_of none (some b) = true
one_of _ _ = false

-- One round of the loop over the Proxmox nodes, with the defaults.
unfoldable pub inherit_node : SshDefaults → Hosts → PveNode → Hosts
inherit_node defaults s node =
    if member node.name s.seen_names || member node.host s.seen_addresses then s else record {
      ssh_hosts =
          s.ssh_hosts
          ++ record {
            name = node.name;
            host = node.host;
            user = defaults.user;
            port = defaults.port;
            password = defaults.password;
            key_file = defaults.key_file;
            known_hosts = none;
            strict_host_key_checking = none;
          }
            ∷ [];
      seen_names = node.name ∷ s.seen_names;
      seen_addresses = node.host ∷ s.seen_addresses;
    }

unfoldable pub inherit_nodes : Bool → Option SshDefaults → List PveNode → Hosts → Hosts
unfolding inherit_node
inherit_nodes true (some defaults) nodes s = loop (inherit_node defaults) s nodes
inherit_nodes _ _ nodes s = s

-- The legacy shape is refused.
unfoldable pub is_legacy : Value → Result ConfigError Bool
is_legacy ssh_raw = do
  hosts ← has_key (codes "hosts") ssh_raw
  defaults ← has_key (codes "defaults") ssh_raw
  user ← has_key (codes "user") ssh_raw
  password ← has_key (codes "password") ssh_raw
  ok (not hosts && not defaults && (user || password))

module _ (python : Python) where
  open python use {int_of}

  -- `None if v is None else _bool(v)`
  abbrev pub optional_bool : Value → Option Bool
  optional_bool null = none
  optional_bool v = some (to_bool python v)

  unfoldable pub ssh_defaults_of : Value → Result ConfigError SshDefaults
  ssh_defaults_of raw = do
    guard (is_mapping raw) not_a_mapping
    password ← get (codes "password") raw
    key_file ← get (codes "key_file") raw
    guard (one_of (or_none password) (or_none key_file)) not_one_credential
    user ← required python (codes "user") raw
    port ← get_or (int (pos 22)) (codes "port") raw
    number ← converted (int_of port)
    ok record {
      user = user;
      port = number;
      password = or_none password;
      key_file = or_none key_file;
    }

  -- `ssh.defaults`
  unfoldable pub ssh_defaults : Value → Result ConfigError (Option SshDefaults)
  unfolding ssh_defaults_of
  ssh_defaults ssh_raw = do
    raw ← get (codes "defaults") ssh_raw
    if truthy raw then (do d ← ssh_defaults_of raw; ok (some d)) else ok none

  -- One round of the loop over `ssh.hosts`, from the name on.
  unfoldable pub named_host : Text → Value → Hosts → Result ConfigError Hosts
  named_host name h s = do
    guard (not (member name s.seen_names)) (duplicate_host name)
    password ← get (codes "password") h
    key_file ← get (codes "key_file") h
    guard (one_of (or_none password) (or_none key_file)) not_one_credential
    address ← required python (codes "host") h
    strict ← get (codes "strict_host_key_checking") h
    user ← required python (codes "user") h
    port ← get_or (int (pos 22)) (codes "port") h
    number ← converted (int_of port)
    known_hosts ← get (codes "known_hosts") h
    ok record {
      ssh_hosts =
          s.ssh_hosts
          ++ record {
            name = name;
            host = address;
            user = user;
            port = number;
            password = or_none password;
            key_file = or_none key_file;
            known_hosts = or_none known_hosts;
            strict_host_key_checking = optional_bool strict;
          }
            ∷ [];
      seen_names = name ∷ s.seen_names;
      seen_addresses = address ∷ s.seen_addresses;
    }

  unfoldable pub add_host : Hosts → Value → Result ConfigError Hosts
  unfolding named_host
  add_host s h = do
    guard (is_mapping h) not_a_mapping
    name ← required python (codes "name") h
    named_host name h s

  -- From `ssh.hosts` on.
  unfoldable pub ssh_with :
      Option SshDefaults → Bool → Value → List PveNode → Result ConfigError SshConfig
  unfolding inherit_nodes
  ssh_with defaults inherit ssh_raw nodes = do
    hosts ← get (codes "hosts") ssh_raw
    guard (is_list (or_else (list nil) hosts)) not_a_list
    guard (truthy hosts || inherit) no_hosts
    raws ← list_of (or_else (list nil) hosts)
    declared ← fold add_host no_ssh_hosts raws
    vmid_to_ip ← get (codes "vmid_to_ip") ssh_raw
    known_hosts ← get (codes "known_hosts") ssh_raw
    strict ← get (codes "strict_host_key_checking") ssh_raw
    ok record {
      hosts = (inherit_nodes inherit defaults nodes declared).ssh_hosts;
      vmid_to_ip = vmid_to_ip;
      defaults = defaults;
      inherit_proxmox_nodes = inherit;
      known_hosts = or_none known_hosts;
      strict_host_key_checking = optional_bool strict;
    }

  -- The section `ssh`, where the file has one.
  unfoldable pub build_ssh : Value → List PveNode → Result ConfigError SshConfig
  unfolding is_legacy ssh_defaults ssh_with
  build_ssh ssh_raw nodes = do
    legacy ← is_legacy ssh_raw
    guard (not legacy) legacy_shape
    defaults ← ssh_defaults ssh_raw
    flag ← get_or (bool false) (codes "inherit_proxmox_nodes") ssh_raw
    guard (not (to_bool python flag) || is_some defaults) no_defaults
    ssh_with defaults (to_bool python flag) ssh_raw nodes
