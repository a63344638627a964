-- ===== src/Auth/Clients/File.antt =====
-- `_load`, `_save` and `_maybe_reload`.
use beacon_mcp.Base.{
  String, Bool, true, false, not, ◌&&◌, Option, none, some, List, [], ◌∷◌, map, if◌then◌else◌,
  string_has_eq, select, Result, ok, err,
}
use beacon_mcp.Base.Dict.{Dict, insert, contains, keys, values}
use beacon_mcp.Auth.Clients.Types.{Client, ClientRow, FileSig, World, truthy, is_disk_sig}

abbrev or_empty : Option String → String
or_empty none = ""
or_empty (some s) = s

-- A row that `_load` keeps: it has a seed of its own or an owner, and no required key is missing.
unfoldable pub parse_row : ClientRow → Option Client
parse_row r =
    if not (truthy r.totp_secret) && not (truthy r.owner_client_id)
    then none
    else elim r.client_id [
      | none ↦ none
      | some client_id ↦ elim r.client_secret_hash [
        | none ↦ none
        | some secret ↦ elim r.name [
          | none ↦ none
          | some name ↦ elim r.created_at [
            | none ↦ none
            | some created_at ↦ some (record {
              client_id = client_id;
              client_secret_hash = secret;
              name = name;
              created_at = created_at;
              totp_secret = or_empty r.totp_secret;
              owner_client_id = r.owner_client_id;
              registration_source = r.registration_source;
              logo_uri = r.logo_uri;
              client_uri = r.client_uri;
            })
          ]
        ]
      ]
    ]

-- The loop of `_load` over the rows: the clients, and whether a row was revoked.
unfoldable pub load_rows : List ClientRow → Dict String Client → Bool → Dict String Client × Bool
unfolding parse_row
load_rows [] clients revoked = (clients, revoked)
load_rows (r ∷ rs) clients revoked =
    let client = parse_row r in
    load_rows rs (elim client [ none ↦ clients | some c ↦ insert c.client_id c clients ])
      (elim client [ none ↦ true | some _ ↦ revoked ])

-- `logo_uri` and `client_uri` are left out of the file unless they hold a text.
abbrev pub unless_empty : Option String → Option String
unless_empty o = if truthy o then o else none

abbrev pub row_of : Client → ClientRow
row_of c = record {
  client_id = some c.client_id;
  client_secret_hash = some c.client_secret_hash;
  name = some c.name;
  created_at = some c.created_at;
  totp_secret = some c.totp_secret;
  owner_client_id = c.owner_client_id;
  registration_source = c.registration_source;
  logo_uri = unless_empty c.logo_uri;
  client_uri = unless_empty c.client_uri;
}

-- `_save`: `sig` is the signature that the written file gets.
unfoldable pub save : FileSig → World → World
save sig w = record {
  store = record store { disk_sig = some sig };
  file = some (record { sig = sig; rows = some (map row_of (values store.clients)) });
}
  where
    open w use {store}

-- `JSONDecodeError` or `OSError`
pub data LoadError : Type 0 where
  unreadable : LoadError

-- `_load`, which saves at once if it revoked a row.
unfoldable pub load : FileSig → World → Result LoadError World
unfolding load_rows save
load sig w = elim w.file [
  | none ↦ ok (record w { store = record store { disk_sig = none } })
  | some file ↦ elim file.rows [
    | none ↦ err unreadable
    | some rows ↦
        let (clients, revoked) = load_rows rows [] false in
        let w' = record w {
          store = record store { clients = clients; disk_sig = some file.sig };
        } in
        ok (if revoked then save sig w' else w')
  ]
]
  where
    open w use {store}

-- The keys of the first dict that the second lacks.
unfoldable pub removed : Dict String Client → Dict String Client → List String
removed before after = select (λ k. not (contains k after)) (keys before)

-- `_maybe_reload`, with the ids that `on_clients_removed` is called with, if it is called.
unfoldable pub maybe_reload : FileSig → World → World × Option (List String)
maybe_reload sig w = elim w.file [
  | none ↦ (w, none)
  | some file ↦ if is_disk_sig file.sig store.disk_sig then (w, none) else elim (load sig w) [
    | err _ ↦ (record w { store = record store { disk_sig = some file.sig } }, none)
    | ok w' ↦ (
      w',
      elim (removed store.clients w'.store.clients) [
        | [] ↦ none
        | _ ∷ _ ↦ some (keys w'.store.clients)
      ],
    )
  ]
]
  where
    open w use {store}
