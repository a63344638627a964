-- ===== src/Auth/Clients/Types.antt =====
-- The data of auth.py's client store: clients, the rows of clients.json, and the file.
use beacon_mcp.Base.{
  ℕ, String, Bool, false, ◌&&◌, Option, none, some, List, nat_eq, ◌==◌, string_has_eq, not,
}
use beacon_mcp.Base.Dict.{Dict}

pub record Client : Type 0 where
  pub client_id : String
  pub client_secret_hash : String
  pub name : String
  pub created_at : ℕ
  pub totp_secret : String
  pub owner_client_id : Option String
  pub registration_source : Option String
  pub logo_uri : Option String
  pub client_uri : Option String

-- An entry of the list in the file, in which any key may be missing. A key with the value null is
-- taken as missing where the code reads it by `get`.
pub record ClientRow : Type 0 where
  pub client_id : Option String
  pub client_secret_hash : Option String
  pub name : Option String
  pub created_at : Option ℕ
  pub totp_secret : Option String
  pub owner_client_id : Option String
  pub registration_source : Option String
  pub logo_uri : Option String
  pub client_uri : Option String

-- `(st_mtime_ns, st_size, st_ino)`
pub record FileSig : Type 0 where
  pub mtime_ns : ℕ
  pub size : ℕ
  pub inode : ℕ

abbrev pub same_sig : FileSig → FileSig → Bool
same_sig a b = nat_eq a.mtime_ns b.mtime_ns && nat_eq a.size b.size && nat_eq a.inode b.inode

-- `sig == self._disk_sig`
abbrev pub is_disk_sig : FileSig → Option FileSig → Bool
is_disk_sig a none = false
is_disk_sig a (some b) = same_sig a b

-- The file as `stat` and `read_text` show it. `rows` is `none` if it cannot be read or is no JSON.
pub record ClientFile : Type 0 where
  pub sig : FileSig
  pub rows : Option (List ClientRow)

pub record ClientStore : Type 0 where
  pub clients : Dict String Client
  pub disk_sig : Option FileSig
  pub last_totp_step : Dict String ℕ

-- The process and the file that it shares with the command line; no file is `none`.
pub record World : Type 0 where
  pub store : ClientStore
  pub file : Option ClientFile

-- `bool(x)` of an optional text
abbrev pub truthy : Option String → Bool
truthy none = false
truthy (some s) = not (s == "")
