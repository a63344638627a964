-- ===== src/Config/Build.antt =====
-- `Config._build` of config.py, section by section.
use beacon_mcp.Base.{
  Bool, true, false, not, ◌||◌, ◌&&◌, Option, none, some, List, [], ◌∷◌, ◌++◌, Result, ok, err,
  ◌>>=◌, ◌>>◌, guard, if◌then◌else◌, member, fold, map,
}
use beacon_mcp.Base.Text.{Text, text_has_eq, codes}
use beacon_mcp.Config.Values.{
  Value, bool, str, list, mapping, ConfigError, crashed, duplicate_device, no_capability,
  unknown_jump_host, Python, truthy, get, get_or, list_of, required, to_bool, verify_ssl,
}
use beacon_mcp.Config.Types.{PveNode, BmcDevice, SshHost, SshConfig, Config}
use beacon_mcp.Config.Ssh.{build_ssh}
use beacon_mcp.Config.Sections.{or_mapping, or_list, build_server, build_features}

-- The variables of the loop over `bmc.devices`.
pub record Devices : Type 0 where
  pub bmc_devices : List BmcDevice
  pub seen_ids : List Text

abbrev pub ssh_hosts_of : Option SshConfig → List SshHost
ssh_hosts_of none = []
ssh_hosts_of (some ssh) = ssh.hosts

abbrev pub nonempty_list {ℓ} : {A : Type ℓ} → List A → Bool
nonempty_list [] = false
nonempty_list (x ∷ xs) = true

-- `d.jump_host and d.jump_host not in ssh_host_names` raises; a list or a mapping is unhashable.
unfoldable pub check_jump_host : List Text → Value → Result ConfigError (Unit {0})
check_jump_host names (str s) =
    if truthy (str s) && not (member s names) then err unknown_jump_host else ok tt
check_jump_host names (list vs) = if truthy (list vs) then err crashed else ok tt
check_jump_host names (mapping fs) = if truthy (mapping fs) then err crashed else ok tt
check_jump_host names v = if truthy v then err unknown_jump_host else ok tt

unfoldable pub check_jump_hosts : List Text → List BmcDevice → Result ConfigError (Unit {0})
unfolding check_jump_host
check_jump_hosts names [] = ok tt
check_jump_hosts names (d ∷ ds) = do check_jump_host names d.jump_host; check_jump_hosts names ds

abbrev pub no_devices : Devices
no_devices = record { bmc_devices = []; seen_ids = [] }

abbrev pub is_capable : List PveNode → List BmcDevice → Option SshConfig → Bool
is_capable nodes devices ssh =
    nonempty_list nodes || nonempty_list devices || nonempty_list (ssh_hosts_of ssh)

module _ (python : Python) where
  unfoldable pub pve_node : List PveNode → Value → Result ConfigError (List PveNode)
  pve_node nodes n = do
    name ← required python (codes "name") n
    host ← required python (codes "host") n
    token_id ← required python (codes "token_id") n
    token_secret ← required python (codes "token_secret") n
    ok (
        nodes
        ++ record { name = name; host = host; token_id = token_id; token_secret = token_secret }
          ∷ [])

  -- One round of the loop over `bmc.devices`.
  unfoldable pub add_device : Devices → Value → Result ConfigError Devices
  add_device s d = do
    id ← required python (codes "id") d
    guard (not (member id s.seen_ids)) (duplicate_device id)
    kind ← required python (codes "type") d
    host ← required python (codes "host") d
    user ← required python (codes "user") d
    password ← required python (codes "password") d
    jump_host ← get (codes "jump_host") d
    verify_tls ← get_or (bool false) (codes "verify_tls") d
    ok record {
      bmc_devices =
          s.bmc_devices
          ++ record {
            id = id;
            kind = kind;
            host = host;
            user = user;
            password = password;
            jump_host = jump_host;
            verify_tls = to_bool python verify_tls;
          }
            ∷ [];
      seen_ids = id ∷ s.seen_ids;
    }

  abbrev pub optional_ssh : Value → List PveNode → Result ConfigError (Option SshConfig)
  optional_ssh ssh_raw nodes =
      if truthy ssh_raw then (do ssh ← build_ssh python ssh_raw nodes; ok (some ssh)) else ok none

  -- `Config._build`
  unfoldable pub build : Value → Result ConfigError Config
  unfolding pve_node add_device check_jump_hosts
  build raw = do
    proxmox ← get (codes "proxmox") raw
    nodes ← get (codes "nodes") (or_mapping proxmox)
    node_items ← list_of (or_list nodes)
    pve_nodes ← fold pve_node [] node_items
    bmc ← get (codes "bmc") raw
    devices ← get (codes "devices") (or_mapping bmc)
    device_items ← list_of (or_list devices)
    bmcs ← fold add_device no_devices device_items
    ssh_raw ← get (codes "ssh") raw
    ssh ← optional_ssh ssh_raw pve_nodes
    srv_raw ← get (codes "server") raw
    server ← build_server python (or_mapping srv_raw)
    feat_raw ← get (codes "features") raw
    features ← build_features python (or_mapping feat_raw)
    guard (is_capable pve_nodes bmcs.bmc_devices ssh) no_capability
    check_jump_hosts (map (λ h. h.name) (ssh_hosts_of ssh)) bmcs.bmc_devices
    verify_raw ← get_or (bool false) (codes "verify_ssl") (or_mapping proxmox)
    verify ← verify_ssl python verify_raw
    infrastructure ← get (codes "infrastructure") raw
    ok record {
      server = server;
      pve_nodes = pve_nodes;
      bmc_devices = bmcs.bmc_devices;
      ssh = ssh;
      features = features;
      verify_ssl = verify;
      infrastructure = or_mapping infrastructure;
    }
