-- ===== src/Auth/Clients/Reload.antt =====
-- `_save`, `_load` and `_maybe_reload` of `ClientStore` against each other.
use beacon_mcp.Base.{
  String, ◌≡◌, refl, ap, ◌∙◌, Bool, true, false, none, some, List, [], ◌∷◌, ◌++◌, map, arith,
  string_has_eq, if◌then◌else◌, ◌==◌, ◌⊎◌, ok,
}
use mathlib.Core.List.{append_assoc, append-nil}
use text.Mathlib.TextEquality.{eq_iff}
use beacon_mcp.Base.Dict.{Dict, lookup, insert, values, keys, Every, IsDict}
use beacon_mcp.Auth.Clients.Types.{
  Client, ClientRow, FileSig, ClientFile, ClientStore, World, truthy, is_disk_sig, same_sig,
}
use beacon_mcp.Auth.Clients.File.{
  parse_row, load_rows, row_of, unless_empty, save, load, maybe_reload, removed,
}
use beacon_mcp.Auth.Clients.Cascade.{IsKeyed}

-- A client as `create` and `create_dynamic` make them: with a seed or an owner, and without an
-- empty text in the two fields for display.
abbrev pub IsProper : Client → Type 0
IsProper c =
    ((truthy (some c.totp_secret) ≡ true) ⊎ (truthy c.owner_client_id ≡ true))
    × (unless_empty c.logo_uri ≡ c.logo_uri)
    × (unless_empty c.client_uri ≡ c.client_uri)

parse_row-row_of : (c : Client) → IsProper c → parse_row (row_of c) ≡ some c
unfolding parse_row
parse_row-row_of c h = ground arith

insert_new :
    (k : String) (c : Client) (d : Dict String Client)
    → lookup k d ≡ none
    → insert k c d ≡ d ++ ((k, c) ∷ [])
unfolding insert lookup
insert_new k c [] h = refl
insert_new k c ((j, w) ∷ d) h = ground (arith, insert_new k c d)

-- No key of the second dict stands in the first.
abbrev IsApart : Dict String Client → Dict String Client → Type 0
IsApart acc d = Every (λ k _. lookup k acc ≡ none) d

lookup-append_one :
    (k j : String) (c : Client) (acc : Dict String Client)
    → lookup k (acc ++ ((j, c) ∷ []))
      ≡ elim (lookup k acc) [ some x ↦ some x | none ↦ if j == k then some c else none ]
unfolding lookup
lookup-append_one k j c [] = refl
lookup-append_one k j c ((i, w) ∷ acc) = ground (arith, lookup-append_one k j c acc)

IsApart-next :
    (acc : Dict String Client) (j : String) (c : Client) (d : Dict String Client)
    → IsApart acc d
    → lookup j d ≡ none
    → IsApart (acc ++ ((j, c) ∷ [])) d
unfolding lookup
IsApart-next acc j c [] h e = tt
IsApart-next acc j c ((k, w) ∷ d) h e = (
  rw (lookup-append_one k j c acc, h.0) (ground (arith, eq_iff j k, eq_iff k j)),
  IsApart-next acc j c d h.1 (ground (arith, eq_iff j k, eq_iff k j)),
)

load_rows-row_of :
    (acc d : Dict String Client)
    → IsDict d
    → IsKeyed d
    → Every (λ _ c. IsProper c) d
    → IsApart acc d
    → load_rows (map row_of (values d)) acc false ≡ (acc ++ d, false)
unfolding load_rows values
load_rows-row_of acc [] dict keyed proper apart = rw append-nil
load_rows-row_of acc ((k, c) ∷ d) dict keyed proper apart =
    let added : insert c.client_id c acc ≡ acc ++ ((k, c) ∷ []) =
      ap (λ j. insert j c acc) keyed.0 ∙ insert_new k c acc apart.0 in
    rw (parse_row-row_of c proper.0, load_rows)
      (rw added (
        load_rows-row_of (acc ++ ((k, c) ∷ [])) d dict.1 keyed.1 proper.1
          (IsApart-next acc k c d apart.1 dict.0)
        ∙ ap (λ (x : Dict String Client). (x, false)) (append_assoc acc ((k, c) ∷ []) d)))

IsApart-of_empty : (d : Dict String Client) → IsApart [] d
unfolding lookup
IsApart-of_empty [] = tt
IsApart-of_empty ((k, c) ∷ d) = (refl, IsApart-of_empty d)

-- What one process saves another that reads the file has, none of the clients taken for a row to
-- revoke, where no id stands twice, every client stands under its own id and every client has a
-- seed or an owner.
pub save-load :
    (w : World) (other : ClientStore) (sig : FileSig)
    → IsDict w.store.clients
    → IsKeyed w.store.clients
    → Every (λ _ c. IsProper c) w.store.clients
    → load sig (record { store = other; file = (save sig w).file })
      ≡ ok (record {
        store = record other { clients = w.store.clients; disk_sig = some sig };
        file = (save sig w).file;
      })
unfolding save load
save-load w other sig dict keyed proper =
    rw (load_rows-row_of [] w.store.clients dict keyed proper (IsApart-of_empty w.store.clients))

same_sig_refl : (a : FileSig) → same_sig a a ≡ true
same_sig_refl a = ground arith

-- A process does not read back its own save, nor a file that has not changed since.
pub maybe_reload-saved :
    (w : World) (sig sig' : FileSig) → maybe_reload sig' (save sig w) ≡ (save sig w, none)
unfolding maybe_reload save
maybe_reload-saved w sig sig' = rw (same_sig_refl sig)

abbrev pub is_empty : List String → Bool
is_empty [] = true
is_empty (k ∷ ks) = false

report_lem :
    (gone ids : List String)
    → elim gone [ [] ↦ none | _ ∷ _ ↦ some ids ] ≡ (if is_empty gone then none else some ids)
report_lem [] ids = refl
report_lem (k ∷ ks) ids = refl

module _ (w : World) (sig : FileSig) (file : ClientFile) (there : w.file ≡ some file)
    (changed : is_disk_sig file.sig w.store.disk_sig ≡ false) where
  -- A file that changed but cannot be read, or holds no JSON, changes no client, and is not read
  -- again until it changes once more.
  pub maybe_reload-broken :
      file.rows ≡ none
      → let (w', reported) = maybe_reload sig w in
        (w'.store.clients ≡ w.store.clients)
        × (reported ≡ none)
        × (maybe_reload sig w' ≡ (w', none))
  unfolding maybe_reload load
  maybe_reload-broken broken = (ground arith, ground arith, ground (arith, same_sig_refl file.sig))

  load-readable :
      (rows : List ClientRow)
      → file.rows ≡ some rows
      → (w' : World) × (load sig w ≡ ok w') × (w'.store.clients ≡ (load_rows rows [] false).0)
  unfolding load save
  load-readable rows readable =
      let clients = (load_rows rows [] false).0 in
      let store = record (w.store) { clients = clients; disk_sig = some file.sig } in
      let w' = record w { store = store } in
      let revoked = (load_rows rows [] false).1 in
      (if revoked then save sig w' else w', ground arith, ground arith)

  -- A file that changed and can be read takes effect at once: the clients are those of its rows,
  -- and the ids of these are reported exactly if a client that was known before is gone.
  pub maybe_reload-changed :
      (rows : List ClientRow)
      → file.rows ≡ some rows
      → let (w', reported) = maybe_reload sig w in
        (w'.store.clients ≡ (load_rows rows [] false).0)
        × (reported ≡ (
            if is_empty (removed w.store.clients w'.store.clients)
            then none
            else some (keys w'.store.clients)))
  unfolding maybe_reload
  maybe_reload-changed rows readable =
      let (w', loaded, clients) = load-readable rows readable in
      rw (there, maybe_reload) (rw changed (rw loaded (clients, report_lem _ _)))
