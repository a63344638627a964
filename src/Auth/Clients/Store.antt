-- ===== src/Auth/Clients/Store.antt =====
-- The methods of `ClientStore`. Each begins with `_maybe_reload`; the signatures that the saves of
-- the reload and of the method leave are arguments.
use Prim.Native.String
use beacon_mcp.Base.{
  ℕ, ◌+◌, ◌-◌, ◌/◌, String, Bool, true, false, not, ◌||◌, Option, none, some, List, map,
  if◌then◌else◌, ◌==◌, string_has_eq, select, leb, nat_eq, is_some, is_some_of, Result, ok, err,
  loop,
}
use beacon_mcp.Base.Dict.{Dict, lookup, insert, erase, contains, values}
use beacon_mcp.Clock.{seconds}
use beacon_mcp.Auth.Clients.Types.{Client, FileSig, ClientStore, World}
use beacon_mcp.Auth.Clients.File.{save, maybe_reload}

abbrev set_clients : Dict String Client → World → World
set_clients clients w = record w { store = record store { clients = clients } }
  where
    open w use {store}

-- `create`: the drawn id, the hash of the drawn secret, the drawn seed and the clock.
unfoldable pub create : String → String → String → String → ℕ → FileSig → FileSig → World → World
create name client_id secret_hash totp_secret now reload_sig save_sig w =
    let w' = (maybe_reload reload_sig w).0 in
    let client : Client = record {
      client_id = client_id;
      client_secret_hash = secret_hash;
      name = name;
      created_at = now;
      totp_secret = totp_secret;
      owner_client_id = none;
      registration_source = none;
      logo_uri = none;
      client_uri = none;
    } in
    save save_sig (set_clients (insert client_id client w'.store.clients) w')

-- `verify`
unfoldable pub verify : (String → String) → String → String → FileSig → World → Bool × World
verify hash client_id client_secret sig w =
    let w' = (maybe_reload sig w).0 in
    (
      elim (lookup client_id w'.store.clients) [
        | none ↦ false
        | some client ↦ client.client_secret_hash == hash client_secret
      ],
      w',
    )

-- `list_derived`
unfoldable pub list_derived : String → FileSig → World → List Client × World
list_derived owner sig w =
    let w' = (maybe_reload sig w).0 in
    (select (λ c. is_some_of c.owner_client_id owner) (values w'.store.clients), w')

-- The part of `revoke` that removes a client: an owner takes its derived clients along.
unfoldable pub remove_client : String → Client → Dict String Client → Dict String Client
remove_client client_id client clients =
    let rest = erase client_id clients in
    let derived =
      map (λ c. c.client_id) (select (λ c. is_some_of c.owner_client_id client_id) (values rest)) in
    if is_some client.owner_client_id then rest else loop (λ d cid. erase cid d) rest derived

-- `revoke`
unfoldable pub revoke : String → FileSig → FileSig → World → Bool × World
revoke client_id reload_sig save_sig w =
    let w' = (maybe_reload reload_sig w).0 in
    elim (lookup client_id w'.store.clients) [
      | none ↦ (false, w')
      | some client ↦
          (true, save save_sig (set_clients (remove_client client_id client w'.store.clients) w'))
    ]

pub data ValueError : Type 0 where
  unknown_owner : ValueError

-- `create_dynamic`
unfoldable pub create_dynamic :
    String
    → String
    → String
    → Option String
    → Option String
    → String
    → String
    → ℕ
    → FileSig
    → FileSig
    → World
    → Result ValueError String × World
create_dynamic owner name source logo_uri client_uri client_id secret_hash now reload_sig save_sig
      w =
    let w' = (maybe_reload reload_sig w).0 in
    let client : Client = record {
      client_id = client_id;
      client_secret_hash = secret_hash;
      name = name;
      created_at = now;
      totp_secret = "";
      owner_client_id = some owner;
      registration_source = some source;
      logo_uri = logo_uri;
      client_uri = client_uri;
    } in
    if not (contains owner w'.store.clients)
    then (err unknown_owner, w')
    else (ok client_id, save save_sig (set_clients (insert client_id client w'.store.clients) w'))

pub data TotpResult : Type 0 where
  valid wrong replay : TotpResult

-- The seed and the replay key of a client: its own, or those of its owner.
unfoldable pub seed_of : String → Dict String Client → Option (String × String)
seed_of client_id clients = elim (lookup client_id clients) [
  | none ↦ none
  | some client ↦ elim client.owner_client_id [
    | none ↦ if client.totp_secret == "" then none else some (client.totp_secret, client_id)
    | some owner_id ↦ elim (lookup owner_id clients) [
      | none ↦ none
      | some owner ↦ if owner.totp_secret == "" then none else some (owner.totp_secret, owner_id)
    ]
  ]
]

abbrev pub interval : ℕ
interval = 30

-- The end of `check_totp`: the step must be newer than the last one of the same seed.
unfoldable pub spend_step : String → ℕ → ClientStore → TotpResult × ClientStore
spend_step key step s =
    let spent = record s { last_totp_step = insert key step s.last_totp_step } in
    elim (lookup key s.last_totp_step) [
      | none ↦ (valid, spent)
      | some last ↦ if leb step last then (replay, s) else (valid, spent)
    ]

-- `pyotp.TOTP(seed).verify(code, for_time)`, and `str.isdigit`.
module _ (totp_verify : String → String → ℕ → Bool) (isdigit : String → Bool) where
  -- The time step that a code matches, out of the last, the current and the next one.
  unfoldable pub matched_step : String → String → ℕ → Option ℕ
  matched_step seed code now =
      let current_step = now / seconds interval in
      if totp_verify seed code (now - seconds interval)
      then some (current_step - 1)
      else if totp_verify seed code now
      then some current_step
      else if totp_verify seed code (now + seconds interval)
      then some (current_step + 1)
      else none

  -- `check_totp` after the reload.
  unfoldable pub check_code : String → String → ℕ → ClientStore → TotpResult × ClientStore
  check_code client_id code now s =
      if not (contains client_id s.clients)
      then (wrong, s)
      else if code == "" || not (isdigit code) || not (nat_eq (String.count code) 6)
      then (wrong, s)
      else elim (seed_of client_id s.clients) [
        | none ↦ (wrong, s)
        | some (seed, key) ↦ elim (matched_step seed code now) [
          | none ↦ (wrong, s)
          | some step ↦ spend_step key step s
        ]
      ]

  -- `check_totp`
  unfoldable pub check_totp : String → String → ℕ → FileSig → World → TotpResult × World
  check_totp client_id code now sig w =
      let w' = (maybe_reload sig w).0 in
      let (result, store) = check_code client_id code now w'.store in
      (result, record w' { store = store })
