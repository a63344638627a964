-- ===== src/Config/Tests.antt =====
-- Configurations built from concrete values.
use beacon_mcp.Base.{
  ◌≡◌, ◌↔◌, refl, true, false, Option, none, some, [], ◌∷◌, ok, err, fold, member,
}
use beacon_mcp.Base.Dict.{Dict}
use beacon_mcp.Base.Text.{Text, codes, same_text}
use beacon_mcp.Config.Values.{
  ℤ, pos, Value, null, bool, int, float, str, list, mapping, nil, cons, end, field, flag,
  unknown_jump_host, empty_variable, Python, get_or, truthy, list_of, required, to_bool, verify_ssl,
}
use beacon_mcp.Config.Env.{resolve}
use beacon_mcp.Config.Env.Resolves.{Resolves, resolve_iff}
use beacon_mcp.Config.Types.{Config}
use beacon_mcp.Config.Proxies.{parse_trusted_proxies, parse_trusted_proxies-trusted, trusted}
use beacon_mcp.Config.Ssh.{build_ssh}
use beacon_mcp.Config.Sections.{build_server, build_features}
use beacon_mcp.Config.Build.{build}
use beacon_mcp.Config.Sound.{IsSound, build-IsSound}

abbrev int_of : Value → Option ℤ
int_of (int n) = some n
int_of v = none

abbrev float_of : Value → Option Value
float_of (float b s) = some (float b s)
float_of v = none

abbrev python : Python
python = record {
  print = λ v. codes "0";
  int_of = int_of;
  float_of = float_of;
  expanduser = λ s. s;
  is_path = λ s. false;
}

abbrev pve1 : Value
pve1 = mapping (
    field (codes "name") (str (codes "pve1")) (
      field (codes "host") (str (codes "10.0.0.1")) (
        field (codes "token_id") (str (codes "root@pam!t"))
          (field (codes "token_secret") (str (codes "s")) end))))

abbrev ilo : Text → Value
ilo jump_host = mapping (
    field (codes "id") (str (codes "ilo")) (
      field (codes "type") (str (codes "hp_ilo")) (
        field (codes "host") (str (codes "10.0.0.9")) (
          field (codes "user") (str (codes "u")) (
            field (codes "password") (str (codes "p"))
              (field (codes "jump_host") (str jump_host) end))))))

abbrev ssh_section : Value
ssh_section = mapping (
    field (codes "defaults")
      (mapping (
        field (codes "user") (str (codes "root")) (field (codes "password") (str (codes "p")) end)))
      (field (codes "inherit_proxmox_nodes") (bool true) end))

abbrev file : Text → Value
file jump_host = mapping (
    field (codes "proxmox") (mapping (field (codes "nodes") (list (cons pve1 nil)) end)) (
      field (codes "bmc") (mapping (field (codes "devices") (list (cons (ilo jump_host) nil)) end))
        (field (codes "ssh") ssh_section end)))

-- The jump host is the host that the node is inherited as.
abbrev config : Config
config = record {
  server = record {
    host = str (codes "0.0.0.0");
    port = pos 8420;
    allowed_hosts = [];
    allowed_origins = [];
    trusted_proxies = [];
    clients_file = codes "/opt/beaconmcp/clients.json";
    session_key = null;
    allow_dynamic_registration = false;
    transfers_dir = codes "~/.cache/beaconmcp/transfers";
    transfers_max_mb = pos 500;
    tokens_db = none;
    audit_log = none;
    named_token_ttl = none;
    refresh_token_ttl = none;
    confirm_tools = none;
  };
  pve_nodes =
      record {
        name = codes "pve1";
        host = codes "10.0.0.1";
        token_id = codes "root@pam!t";
        token_secret = codes "s";
      }
      ∷ [];
  bmc_devices =
      record {
        id = codes "ilo";
        kind = codes "hp_ilo";
        host = codes "10.0.0.9";
        user = codes "u";
        password = codes "p";
        jump_host = str (codes "pve1");
        verify_tls = false;
      }
      ∷ [];
  ssh = some record {
    hosts =
        record {
          name = codes "pve1";
          host = codes "10.0.0.1";
          user = codes "root";
          port = pos 22;
          password = some (str (codes "p"));
          key_file = none;
          known_hosts = none;
          strict_host_key_checking = none;
        }
        ∷ [];
    vmid_to_ip = null;
    defaults = some record {
      user = codes "root";
      port = pos 22;
      password = some (str (codes "p"));
      key_file = none;
    };
    inherit_proxmox_nodes = true;
    known_hosts = none;
    strict_host_key_checking = none;
  };
  features = record {
    dashboard = record {
      enabled = true;
      gemini_api_key = str [];
      limit_5h_usd = float true (codes "2.0");
      limit_week_usd = float true (codes "10.0");
      public_url = null;
      mcp_mode = codes "local";
    };
    ssh_enabled = true;
    updates = record {
      enabled = true;
      allow_self_update = true;
      channel = codes "branch";
      require_signed = false;
    };
  };
  verify_ssl = flag false;
  infrastructure = mapping end;
}

build-inherited : build python (file (codes "pve1")) ≡ ok config
unfolding build same_text get_or truthy list_of fold required member build_ssh to_bool
    parse_trusted_proxies verify_ssl build_server build_features
build-inherited = refl

build-unknown_jump_host : build python (file (codes "pve2")) ≡ err unknown_jump_host
unfolding build same_text get_or truthy list_of fold required member build_ssh to_bool
    parse_trusted_proxies verify_ssl build_server build_features
build-unknown_jump_host = refl

build-IsSound_example : IsSound config
build-IsSound_example = build-IsSound python (file (codes "pve1")) config build-inherited

parse_trusted_proxies-dedup :
    parse_trusted_proxies (
      list (
        cons
          (str (codes " 10.0.0.1 "))
          (cons (str (codes " ")) (cons (str (codes "10.0.0.1")) nil))))
    ≡ ok (codes "10.0.0.1" ∷ [])
unfolding parse_trusted_proxies same_text
parse_trusted_proxies-dedup = refl

resolve-empty :
    resolve ((codes "PW", []) ∷ []) (str (codes "${PW}")) ≡ err (empty_variable (codes "PW"))
unfolding resolve same_text
resolve-empty = refl

abbrev proxies : Value
proxies = list (
    cons (str (codes "10.0.0.1"))
      (cons (str (codes " CloudFlare ")) (cons (str (codes "10.0.0.1")) nil)))

parse_trusted_proxies-trusted_example : parse_trusted_proxies proxies ≡ trusted proxies
parse_trusted_proxies-trusted_example = parse_trusted_proxies-trusted proxies

abbrev environ : Dict Text Text
environ = (codes "PW", codes "hunter2") ∷ []

abbrev secret : Value
secret = mapping (field (codes "password") (str (codes "${PW}")) end)

abbrev resolved_secret : Value
resolved_secret = mapping (field (codes "password") (str (codes "hunter2")) end)

resolve-secret : resolve environ secret ≡ ok resolved_secret
unfolding resolve same_text
resolve-secret = refl

resolve_iff_example :
    (resolve environ secret ≡ ok resolved_secret) ↔ Resolves environ secret resolved_secret
resolve_iff_example = resolve_iff environ secret resolved_secret
