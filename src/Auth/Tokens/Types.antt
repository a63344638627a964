-- ===== src/Auth/Tokens/Types.antt =====
-- The data of auth.py's token store, its constants, and the rows of its tables.
use beacon_mcp.Base.{ℕ, String, Bool, Option, none, some}
use beacon_mcp.Base.Dict.{Dict}
use beacon_mcp.Clock.{Deadline, seconds}

pub record AccessToken : Type 0 where
  pub token : String
  pub client_id : String
  pub expires_at : Deadline
  pub name : Option String
  pub created_at : ℕ
  pub family_id : Option String

pub record OauthGrant : Type 0 where
  pub access_token : String
  pub expires_in : ℕ
  pub refresh_token : Option String

pub record RefreshToken : Type 0 where
  pub token_hash : String
  pub client_id : String
  pub family_id : String
  pub expires_at : ℕ
  pub created_at : ℕ
  pub family_expires_at : ℕ
  pub used : Bool
  pub used_at : ℕ
  pub replay : Option OauthGrant

-- A row of `refresh_tokens`. `family_expires_at` is NULL in a file of an older build.
pub record RefreshRow : Type 0 where
  pub token_hash : String
  pub client_id : String
  pub family_id : String
  pub expires_at : ℕ
  pub created_at : ℕ
  pub used : Bool
  pub family_expires_at : Option ℕ

-- A row of `named_tokens` or `oauth_tokens` is the token that it was written from.
pub record Db : Type 0 where
  pub named : Dict String AccessToken
  pub oauth : Dict String AccessToken
  pub refresh : Dict String RefreshRow

pub record TokenStore : Type 0 where
  pub tokens : Dict String AccessToken
  pub oauth_tokens : Dict String AccessToken
  pub refresh_tokens : Dict String RefreshToken
  pub db : Option Db
  pub named_token_ttl : ℕ
  pub refresh_token_ttl : ℕ

pub data TokenCapExceeded : Type 0 where
  cap_exceeded : TokenCapExceeded

-- The reasons of `RefreshTokenError`, with the family where it carries one.
pub data RefreshTokenError : Type 0 where
  invalid : RefreshTokenError
  expired : String → RefreshTokenError
  reused : String → RefreshTokenError

abbrev pub token_ttl : ℕ
token_ttl = 86400

abbrev pub default_named_token_ttl : ℕ
default_named_token_ttl = 2592000

abbrev pub session_lifetime : ℕ
session_lifetime = 86400

abbrev pub default_refresh_token_ttl : ℕ
default_refresh_token_ttl = session_lifetime

abbrev pub refresh_reuse_grace : ℕ
refresh_reuse_grace = seconds 60

abbrev pub named_token_cap : ℕ
named_token_cap = 3

abbrev pub revoke_grace : ℕ
revoke_grace = seconds 8

abbrev pub map_db : (Db → Db) → Option Db → Option Db
map_db f none = none
map_db f (some d) = some (f d)

abbrev pub row_of : RefreshToken → RefreshRow
row_of t = record {
  token_hash = t.token_hash;
  client_id = t.client_id;
  family_id = t.family_id;
  expires_at = t.expires_at;
  created_at = t.created_at;
  used = t.used;
  family_expires_at = some t.family_expires_at;
}
