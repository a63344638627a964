-- ===== src/Config/Types.antt =====
-- The dataclasses of config.py. A field that takes a value of the file as it stands is a `Value`, and
-- `None` there is `none`.
use beacon_mcp.Base.{Bool, Option, List}
use beacon_mcp.Base.Text.{Text}
use beacon_mcp.Config.Values.{ℤ, Value, Verify}

pub record PveNode : Type 0 where
  pub name : Text
  pub host : Text
  pub token_id : Text
  pub token_secret : Text

pub record BmcDevice : Type 0 where
  pub id : Text
  pub kind : Text  -- `type`
  pub host : Text
  pub user : Text
  pub password : Text
  pub jump_host : Value
  pub verify_tls : Bool

pub record SshHost : Type 0 where
  pub name : Text
  pub host : Text
  pub user : Text
  pub port : ℤ
  pub password : Option Value
  pub key_file : Option Value
  pub known_hosts : Option Value
  pub strict_host_key_checking : Option Bool

pub record SshDefaults : Type 0 where
  pub user : Text
  pub port : ℤ
  pub password : Option Value
  pub key_file : Option Value

pub record SshConfig : Type 0 where
  pub hosts : List SshHost
  pub vmid_to_ip : Value
  pub defaults : Option SshDefaults
  pub inherit_proxmox_nodes : Bool
  pub known_hosts : Option Value
  pub strict_host_key_checking : Option Bool

pub record ServerConfig : Type 0 where
  pub host : Value
  pub port : ℤ
  pub allowed_hosts : List Value
  pub allowed_origins : List Value
  pub trusted_proxies : List Text
  pub clients_file : Text
  pub session_key : Value
  pub allow_dynamic_registration : Bool
  pub transfers_dir : Text
  pub transfers_max_mb : ℤ
  pub tokens_db : Option Text
  pub audit_log : Option Text
  pub named_token_ttl : Option ℤ
  pub refresh_token_ttl : Option ℤ
  pub confirm_tools : Option (List Text)

pub record DashboardConfig : Type 0 where
  pub enabled : Bool
  pub gemini_api_key : Value
  pub limit_5h_usd : Value
  pub limit_week_usd : Value
  pub public_url : Value
  pub mcp_mode : Text

pub record UpdatesConfig : Type 0 where
  pub enabled : Bool
  pub allow_self_update : Bool
  pub channel : Text
  pub require_signed : Bool

pub record FeaturesConfig : Type 0 where
  pub dashboard : DashboardConfig
  pub ssh_enabled : Bool
  pub updates : UpdatesConfig

pub record Config : Type 0 where
  pub server : ServerConfig
  pub pve_nodes : List PveNode
  pub bmc_devices : List BmcDevice
  pub ssh : Option SshConfig
  pub features : FeaturesConfig
  pub verify_ssl : Verify
  pub infrastructure : Value
