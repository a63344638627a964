-- ===== src/Config/Sound.antt =====
-- What `Config._build` of config.py guarantees of a configuration that it returns.
use mathlib.Core.List.{map-append}
use beacon_mcp.Base.{
  ℕ, ◌≡◌, refl, sym, ◌∙◌, subst, ◌≤◌, true, false, not, Option, none, some, List, [], ◌∷◌, ◌++◌, ok,
  ◌>>=◌, if◌then◌else◌, member, fold, fold-inv, map, arith, All, Ensures, holds, Ensures-ok,
  Ensures-bind, Ensures-guard, Ensures-map,
}
use beacon_mcp.Base.Text.{Text, text_has_eq, codes}
use beacon_mcp.Config.Values.{
  ℤ, pos, negsuc, Value, null, bool, int, float, str, list, mapping, duplicate_device,
  bad_token_ttl, no_capability, Python, truthy, get, get_or, list_of, required, verify_ssl,
}
use beacon_mcp.Config.Types.{PveNode, BmcDevice, SshHost, SshConfig, Config}
use beacon_mcp.Config.Ssh.{build_ssh}
use beacon_mcp.Config.Hosts.{Distinct, Distinct-append, names, seen-append, IsSshSound}
use beacon_mcp.Config.SshSound.{build_ssh-IsSshSound}
use beacon_mcp.Config.Sections.{
  or_mapping, or_list, is_named_ttl, is_refresh_ttl, build_server, build_features, server_config,
}
use beacon_mcp.Config.Build.{
  Devices, no_devices, is_capable, pve_node, add_device, ssh_hosts_of, check_jump_host,
  check_jump_hosts, build, optional_ssh,
}

-- A refresh lifetime that is given lies between a second and 24 hours.
abbrev pub IsBounded : Option ℤ → Type 0
IsBounded ttl = (n : ℤ) → ttl ≡ some n → (k : ℕ) × (n ≡ pos k) × (1 ≤ k) × (k ≤ 86400)

-- A jump host that is given is the name of an SSH host.
abbrev pub JumpsTo : List SshHost → BmcDevice → Type 0
JumpsTo hosts d =
    truthy d.jump_host ≡ true → (s : Text) × (d.jump_host ≡ str s) × (member s (names hosts) ≡ true)

record DevicesOk (s : Devices) : Type 0 where
  distinct : Distinct (map (λ d. d.id) s.bmc_devices)
  seen : (x : Text) → member x s.seen_ids ≡ member x (map (λ d. d.id) s.bmc_devices)

pub record IsSound (c : Config) : Type 0 where
  pub ssh : (s : SshConfig) → c.ssh ≡ some s → IsSshSound c.pve_nodes s
  pub devices : Distinct (map (λ d. d.id) c.bmc_devices)
  pub jumps : All (JumpsTo (ssh_hosts_of c.ssh)) c.bmc_devices
  pub ttl : IsBounded c.server.refresh_token_ttl
  pub capable : is_capable c.pve_nodes c.bmc_devices c.ssh ≡ true

DevicesOk-append :
    (s : Devices) (d : BmcDevice)
    → DevicesOk s
    → member d.id s.seen_ids ≡ false
    → DevicesOk (record { bmc_devices = s.bmc_devices ++ d ∷ []; seen_ids = d.id ∷ s.seen_ids })
DevicesOk-append s d inv new = record {
  distinct = subst Distinct (sym (map-append (λ e. e.id) s.bmc_devices (d ∷ []))) (
      Distinct-append (map (λ e. e.id) s.bmc_devices) d.id inv.distinct
        (sym (inv.seen d.id) ∙ new));
  seen = λ x. seen-append (λ e. e.id) x s.seen_ids s.bmc_devices d (inv.seen x);
}

is_refresh_ttl-IsBounded : (ttl : Option ℤ) → is_refresh_ttl ttl ≡ true → IsBounded ttl
is_refresh_ttl-IsBounded none h n e = cc
is_refresh_ttl-IsBounded (some (pos k)) h n e = (k, cc, ground (arith, h), ground (arith, h))
is_refresh_ttl-IsBounded (some (negsuc k)) h n e = absurd (ground (arith, h))

jumps :
    (known : List Text) (jump_host : Value) {u : Unit {0}}
    → check_jump_host known jump_host ≡ ok u
    → truthy jump_host ≡ true
    → (s : Text) × (jump_host ≡ str s) × (member s known ≡ true)
unfolding check_jump_host
jumps known (str s) h t = (s, refl, ground (arith, h, t))
jumps known (list vs) h t = absurd (ground (arith, h, t))
jumps known (mapping fs) h t = absurd (ground (arith, h, t))
jumps known null h t = absurd (ground (arith, h, t))
jumps known (bool b) h t = absurd (ground (arith, h, t))
jumps known (int n) h t = absurd (ground (arith, h, t))
jumps known (float b s) h t = absurd (ground (arith, h, t))

check_jump_host-JumpsTo :
    (hosts : List SshHost) (d : BmcDevice) {u : Unit {0}}
    → check_jump_host (names hosts) d.jump_host ≡ ok u
    → JumpsTo hosts d
check_jump_host-JumpsTo hosts d h = jumps (names hosts) d.jump_host h

check_jump_hosts-JumpsTo :
    (hosts : List SshHost) (ds : List BmcDevice)
    → Ensures (λ u. All (JumpsTo hosts) ds) (check_jump_hosts (names hosts) ds)
unfolding check_jump_hosts
check_jump_hosts-JumpsTo hosts [] = holds tt
check_jump_hosts-JumpsTo hosts (d ∷ ds) =
    Ensures-bind (check_jump_host (names hosts) d.jump_host) λ _ e.
      let here : JumpsTo hosts d = check_jump_host-JumpsTo hosts d e in
      Ensures-map (λ _ there. (here, there)) (check_jump_hosts-JumpsTo hosts ds)

module _ (python : Python) where
  add_device-DevicesOk :
      (s : Devices) (raw : Value) → DevicesOk s → Ensures DevicesOk (add_device python s raw)
  unfolding add_device
  add_device-DevicesOk s raw inv = Ensures-bind (required python (codes "id") raw) λ id _.
      Ensures-guard (not (member id s.seen_ids)) (duplicate_device id) λ new.
        Ensures-bind (required python (codes "type") raw) λ kind _.
          Ensures-bind (required python (codes "host") raw) λ host _.
            Ensures-bind (required python (codes "user") raw) λ user _.
              Ensures-bind (required python (codes "password") raw) λ password _.
                Ensures-bind (get (codes "jump_host") raw) λ jump_host _.
                  Ensures-bind (get_or (bool false) (codes "verify_tls") raw)
                    λ verify_tls _. holds (DevicesOk-append s _ inv (ground (arith, new)))

  devices-DevicesOk :
      (items : List Value) → Ensures DevicesOk (fold (add_device python) no_devices items)
  devices-DevicesOk items =
      fold-inv DevicesOk (add_device python) add_device-DevicesOk no_devices items
        (record { distinct = tt; seen = λ x. refl })

  build_server-IsBounded :
      (raw : Value)
      → Ensures (λ server. IsBounded server.refresh_token_ttl) (build_server python raw)
  unfolding build_server
  build_server-IsBounded raw = Ensures-bind (server_config python raw) λ server _.
      Ensures-guard (is_named_ttl server.named_token_ttl) bad_token_ttl λ _.
        Ensures-guard (is_refresh_ttl server.refresh_token_ttl) bad_token_ttl
          λ bounded. holds (is_refresh_ttl-IsBounded server.refresh_token_ttl bounded)

  optional_ssh-IsSshSound :
      (raw : Value) (nodes : List PveNode)
      → Ensures
          (λ ssh. (s : SshConfig) → ssh ≡ some s → IsSshSound nodes s)
          (optional_ssh python raw nodes)
  optional_ssh-IsSshSound raw nodes =
      elim (truthy raw)
        as (λ b.
          Ensures (λ ssh. (s : SshConfig) → ssh ≡ some s → IsSshSound nodes s)
            (if b then (do x ← build_ssh python raw nodes; ok (some x)) else ok none)) [
              | true ↦ Ensures-bind (build_ssh python raw nodes) λ x e. holds λ s same.
                  let here : x ≡ s = cc in
                  subst (IsSshSound nodes) here
                    (Ensures-ok (build_ssh-IsSshSound python raw nodes) e)
              | false ↦ holds λ s same. cc
            ]

  all-Sound : (raw : Value) → Ensures IsSound (build python raw)
  unfolding build
  all-Sound raw = Ensures-bind (get (codes "proxmox") raw) λ proxmox _.
      Ensures-bind (get (codes "nodes") (or_mapping proxmox)) λ nodes _.
        Ensures-bind (list_of (or_list nodes)) λ node_items _.
          Ensures-bind (fold (pve_node python) [] node_items) λ pve_nodes _.
            Ensures-bind (get (codes "bmc") raw) λ bmc _.
              Ensures-bind (get (codes "devices") (or_mapping bmc)) λ devices _.
                Ensures-bind (list_of (or_list devices)) λ device_items _.
                  Ensures-bind (fold (add_device python) no_devices device_items) λ bmcs fold_ok.
                    Ensures-bind (get (codes "ssh") raw) λ ssh_raw _.
                      Ensures-bind (optional_ssh python ssh_raw pve_nodes) λ ssh ssh_ok.
                        Ensures-bind (get (codes "server") raw) λ srv_raw _.
                          Ensures-bind (build_server python (or_mapping srv_raw))
                            λ server server_ok.
                              Ensures-bind (get (codes "features") raw) λ feat_raw _.
                                Ensures-bind (build_features python (or_mapping feat_raw))
                                  λ features _.
                                    Ensures-guard (is_capable pve_nodes bmcs.bmc_devices ssh)
                                      no_capability
                                      λ capable.
                                        Ensures-bind
                                          (check_jump_hosts (names (ssh_hosts_of ssh))
                                            bmcs.bmc_devices)
                                          λ _ jump_ok.
                                            Ensures-bind
                                              (get_or (bool false) (codes "verify_ssl")
                                                (or_mapping proxmox))
                                              λ verify_raw _.
                                                Ensures-bind (verify_ssl python verify_raw)
                                                  λ verify _.
                                                    Ensures-bind (get (codes "infrastructure") raw)
                                                      λ infrastructure _. holds record {
                                                        ssh =
                                                            Ensures-ok
                                                            (optional_ssh-IsSshSound ssh_raw
                                                            pve_nodes)
                                                            ssh_ok;
                                                        devices =
                                                            (Ensures-ok
                                                            (devices-DevicesOk device_items)
                                                            fold_ok).distinct;
                                                        jumps =
                                                            Ensures-ok
                                                            (check_jump_hosts-JumpsTo
                                                            (ssh_hosts_of ssh) bmcs.bmc_devices)
                                                            jump_ok;
                                                        ttl =
                                                            Ensures-ok
                                                            (build_server-IsBounded
                                                            (or_mapping srv_raw))
                                                            server_ok;
                                                        capable = capable;
                                                      }

  -- A configuration that _build returns has unique device ids and SSH host names; every SSH host
  -- has exactly one credential and, with inherit_proxmox_nodes, every node its name or address
  -- among the SSH hosts; every jump host is an SSH host; a refresh lifetime is between a second
  -- and 24 hours; and there is at least one node, device or SSH host.
  pub build-IsSound : (raw : Value) (c : Config) → build python raw ≡ ok c → IsSound c
  build-IsSound raw c h = Ensures-ok (all-Sound raw) h
