-- ===== src/Config/Sections.antt =====
-- The sections `server` and `features` of `Config._build` in config.py.
use beacon_mcp.Base.{
  ℕ, Bool, true, false, ◌&&◌, Option, none, some, List, [], ◌∷◌, Result, ok, err, ◌>>=◌, ◌>>◌,
  guard, if◌then◌else◌, member, map, ltb, leb, ◌*◌,
}
use beacon_mcp.Base.Text.{Text, text_has_eq, codes, strip, lower}
use beacon_mcp.Config.Values.{
  ℤ, pos, negsuc, Value, null, bool, int, float, str, list, mapping, nil, end, ConfigError, crashed,
  bad_token_ttl, bad_channel, Python, truthy, or_else, get, get_or, list_of, converted, to_str,
  to_bool,
}
use beacon_mcp.Config.Types.{ServerConfig, DashboardConfig, UpdatesConfig, FeaturesConfig}
use beacon_mcp.Config.Proxies.{parse_trusted_proxies}

-- `v or {}` and `v or []`
abbrev pub or_mapping : Value → Value
or_mapping v = or_else (mapping end) v

abbrev pub or_list : Value → Value
or_list v = or_else (list nil) v

abbrev pub max_refresh_token_ttl : ℕ
max_refresh_token_ttl = 3600 * 24

-- `0 < ttl <= MAX_REFRESH_TOKEN_TTL`, where one is given
abbrev pub is_refresh_ttl : Option ℤ → Bool
is_refresh_ttl none = true
is_refresh_ttl (some (pos n)) = ltb 0 n && leb n max_refresh_token_ttl
is_refresh_ttl (some (negsuc n)) = false

abbrev pub is_named_ttl : Option ℤ → Bool
is_named_ttl (some (negsuc n)) = false
is_named_ttl _ = true

abbrev pub update_channels : List Text
update_channels = codes "branch" ∷ codes "release" ∷ []

module _ (python : Python) where
  open python use {int_of, float_of, expanduser}

  -- `int(v) if v is not None else None`
  abbrev pub optional_int : Value → Result ConfigError (Option ℤ)
  optional_int null = ok none
  optional_int v = do n ← converted (int_of v); ok (some n)

  -- `str(v) if v else None`
  abbrev optional_str : Value → Option Text
  optional_str v = if truthy v then some (to_str python v) else none

  -- `os.path.expanduser`, `Path` and `strip`, which take a text only
  abbrev pub path_text : Value → Result ConfigError Text
  path_text (str s) = ok s
  path_text v = err crashed

  abbrev expanded : Option Text → Option Text
  expanded none = none
  expanded (some s) = some (expanduser s)

  abbrev pub tool_names : Value → Result ConfigError (Option (List Text))
  tool_names (list vs) = do items ← list_of (list vs); ok (some (map (to_str python) items))
  tool_names v = ok none

  unfoldable pub server_config : Value → Result ConfigError ServerConfig
  server_config srv_raw = do
    host ← get_or (str (codes "0.0.0.0")) (codes "host") srv_raw
    port ← get_or (int (pos 8420)) (codes "port") srv_raw
    port_number ← converted (int_of port)
    hosts ← get (codes "allowed_hosts") srv_raw
    allowed_hosts ← list_of (or_list hosts)
    origins ← get (codes "allowed_origins") srv_raw
    allowed_origins ← list_of (or_list origins)
    proxies ← get (codes "trusted_proxies") srv_raw
    trusted_proxies ← parse_trusted_proxies proxies
    clients ← get_or (str (codes "/opt/beaconmcp/clients.json")) (codes "clients_file") srv_raw
    clients_file ← path_text clients
    session_key ← get (codes "session_key") srv_raw
    dynamic ← get_or (bool false) (codes "allow_dynamic_registration") srv_raw
    transfers ← get (codes "transfers_dir") srv_raw
    transfers_dir ← path_text (or_else (str (codes "~/.cache/beaconmcp/transfers")) transfers)
    max_mb ← get_or (int (pos 500)) (codes "transfers_max_mb") srv_raw
    transfers_max_mb ← converted (int_of max_mb)
    tokens_db ← get (codes "tokens_db") srv_raw
    audit_log ← get (codes "audit_log") srv_raw
    named ← get (codes "named_token_ttl") srv_raw
    named_token_ttl ← optional_int named
    idle ← get (codes "refresh_token_ttl") srv_raw
    refresh_token_ttl ← optional_int idle
    tools ← get (codes "confirm_tools") srv_raw
    confirm_tools ← tool_names tools
    ok record {
      host = host;
      port = port_number;
      allowed_hosts = allowed_hosts;
      allowed_origins = allowed_origins;
      trusted_proxies = trusted_proxies;
      clients_file = clients_file;
      session_key = session_key;
      allow_dynamic_registration = to_bool python dynamic;
      transfers_dir = expanduser transfers_dir;
      transfers_max_mb = transfers_max_mb;
      tokens_db = expanded (optional_str tokens_db);
      audit_log = optional_str audit_log;
      named_token_ttl = named_token_ttl;
      refresh_token_ttl = refresh_token_ttl;
      confirm_tools = confirm_tools;
    }

  -- The section `server`.
  unfoldable pub build_server : Value → Result ConfigError ServerConfig
  unfolding server_config
  build_server srv_raw = do
    server ← server_config srv_raw
    guard (is_named_ttl server.named_token_ttl) bad_token_ttl
    guard (is_refresh_ttl server.refresh_token_ttl) bad_token_ttl
    ok server

  unfoldable pub build_dashboard : Value → Result ConfigError DashboardConfig
  build_dashboard dash_raw = do
    limits ← get (codes "limits") dash_raw
    enabled ← get_or (bool true) (codes "enabled") dash_raw
    key ← get (codes "gemini_api_key") dash_raw
    per_5h ← get_or (float true (codes "2.0")) (codes "per_5h_usd") (or_mapping limits)
    limit_5h ← converted (float_of per_5h)
    per_week ← get_or (float true (codes "10.0")) (codes "per_week_usd") (or_mapping limits)
    limit_week ← converted (float_of per_week)
    public_url ← get (codes "public_url") dash_raw
    mode ← get (codes "mcp_mode") dash_raw
    mcp_mode ← path_text (or_else (str (codes "local")) mode)
    ok record {
      enabled = to_bool python enabled;
      gemini_api_key = or_else (str []) key;
      limit_5h_usd = limit_5h;
      limit_week_usd = limit_week;
      public_url = public_url;
      mcp_mode = lower (strip mcp_mode);
    }

  unfoldable pub build_updates : Text → Value → Result ConfigError UpdatesConfig
  build_updates channel updates_raw = do
    enabled ← get_or (bool true) (codes "enabled") updates_raw
    self_update ← get_or (bool true) (codes "allow_self_update") updates_raw
    require_signed ← get_or (bool false) (codes "require_signed") updates_raw
    ok record {
      enabled = to_bool python enabled;
      allow_self_update = to_bool python self_update;
      channel = channel;
      require_signed = to_bool python require_signed;
    }

  -- The section `features`.
  unfoldable pub build_features : Value → Result ConfigError FeaturesConfig
  unfolding build_dashboard build_updates
  build_features feat_raw = do
    dash_raw ← get (codes "dashboard") feat_raw
    dashboard ← build_dashboard (or_mapping dash_raw)
    updates_raw ← get (codes "updates") feat_raw
    raw_channel ← get (codes "channel") (or_mapping updates_raw)
    let channel = lower (strip (to_str python (or_else (str (codes "branch")) raw_channel)))
    guard (member channel update_channels) bad_channel
    ssh_raw ← get (codes "ssh") feat_raw
    ssh_enabled ← get_or (bool true) (codes "enabled") (or_mapping ssh_raw)
    updates ← build_updates channel (or_mapping updates_raw)
    ok record { dashboard = dashboard; ssh_enabled = to_bool python ssh_enabled; updates = updates }
