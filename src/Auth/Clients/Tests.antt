-- ===== src/Auth/Clients/Tests.antt =====
-- The client store of auth.py at concrete inputs.
use beacon_mcp.Base.{
  ℕ, String, ◌≡◌, ◌≢◌, refl, Bool, true, Option, none, some, List, [], ◌∷◌, arith, ok, inl, inr,
  string_has_eq, ◌==◌, nat_eq, ◌&&◌,
}
use beacon_mcp.Base.Dict.{Dict, lookup, insert, contains}
use beacon_mcp.Clock.{seconds}
use beacon_mcp.Auth.Clients.Types.{Client, ClientRow, ClientStore, FileSig, World}
use beacon_mcp.Auth.Clients.File.{load, save}
use beacon_mcp.Auth.Clients.Store.{valid, check_code, seed_of, matched_step, spend_step}
use beacon_mcp.Auth.Clients.Totp.{Attempt, attempts, totp-no_replay}
use beacon_mcp.Auth.Clients.Reload.{save-load}

abbrev owner : Client
owner = record {
  client_id = "owner";
  client_secret_hash = "hash";
  name = "Laptop";
  created_at = 0;
  totp_secret = "SEED";
  owner_client_id = none;
  registration_source = none;
  logo_uri = none;
  client_uri = none;
}

abbrev derived : Client
derived = record owner { client_id = "derived"; totp_secret = ""; owner_client_id = some "owner" }

abbrev other : Client
other = record owner { client_id = "other"; totp_secret = "OTHER" }

abbrev three : Dict String Client
three = ("owner", owner) ∷ ("derived", derived) ∷ ("other", other) ∷ []

abbrev first_sig : FileSig
first_sig = record { mtime_ns = 1; size = 10; inode = 3 }

abbrev next_sig : FileSig
next_sig = record { mtime_ns = 2; size = 11; inode = 3 }

abbrev store : ClientStore
store = record { clients = three; disk_sig = some first_sig; last_totp_step = [] }

abbrev world_with : Option (List ClientRow) → World
world_with rows = record { store = store; file = some (record { sig = next_sig; rows = rows }) }

-- A code of the seed at a moment: the number of the time step.
abbrev good_code : String → String → ℕ → Bool
good_code seed code now = (seed == "SEED") && ((code == "000100") && nat_eq now (seconds 3000))

abbrev any_text : String → Bool
any_text code = true

save-load_example :
    load next_sig (record {
      store = record store { clients = [] };
      file = (save next_sig (world_with none)).file;
    })
    ≡ ok (record {
      store = record store { clients = three; disk_sig = some next_sig };
      file = (save next_sig (world_with none)).file;
    })
unfolding lookup
save-load_example =
    save-load (world_with none) (record store { clients = [] }) next_sig (refl, (refl, (refl, tt)))
      (refl, (refl, (refl, tt)))
      ((inl refl, refl, refl), ((inr refl, refl, refl), ((inl refl, refl, refl), tt)))

abbrev by_owner : Attempt
by_owner = record { client_id = "owner"; code = "000100"; time = seconds 3000 }

abbrev by_derived : Attempt
by_derived = record { client_id = "derived"; code = "000100"; time = seconds 3000 }

totp-no_replay_example :
    (check_code good_code any_text "derived" "000100" (seconds 3000) (
      attempts good_code any_text
        (by_owner ∷ [])
        (check_code good_code any_text "owner" "000100" (seconds 3000) store).1)).0
    ≢ valid
unfolding lookup insert contains check_code seed_of matched_step spend_step
totp-no_replay_example =
    totp-no_replay good_code any_text by_owner by_derived (by_owner ∷ []) store "SEED" "owner" 100
      100 refl refl refl refl refl (omega arith)
