-- ===== src/Transfers.antt =====
-- The one-shot upload links of transfers.py: `UploadLinkStore` and the upload endpoint.
pub mod Inv
pub mod Prune
pub mod Steps
pub mod Runs
pub mod Once
pub mod Live
pub mod Upload
mod Tests
use beacon_mcp.Base.{
  ℕ, ◌+◌, min, max, String, Bool, true, false, ◌&&◌, Option, none, some, List, [], ◌∷◌, leb, ltb,
  if◌then◌else◌, nat_has_eq, string_has_eq, loop, Result, ok, err, is_some,
}
use beacon_mcp.Base.Dict.{Dict, lookup, insert, erase, count, values}
use beacon_mcp.Clock.{seconds}

pub data Status : Type 0 where
  pending : Status
  uploading : Status
  success : Status
  error : Status
  expired : Status

abbrev pub is_pending : Status → Bool
is_pending pending = true
is_pending uploading = false
is_pending success = false
is_pending error = false
is_pending expired = false

-- The dict a push answers, as far as the code reads it: its `status`, whether it has a
-- `guest_status`, and its `bytes`.
pub record PushResult : Type 0 where
  pub status : Option String
  pub guest_status : Bool
  pub bytes : Option ℕ

pub record UploadLink : Type 0 where
  pub link_id : String
  pub token : String
  pub node : String
  pub vmid : ℕ
  pub dest : String
  pub max_bytes : ℕ
  pub verify_checksum : Bool
  pub expires_at : ℕ
  pub created_at : ℕ
  pub status : Status
  pub result : Option PushResult
  pub finished_at : Option ℕ

-- What `issue` is asked for.
pub record Target : Type 0 where
  pub node : String
  pub vmid : ℕ
  pub dest : String
  pub max_bytes : ℕ
  pub verify_checksum : Bool

-- The two dicts share their objects: each holds the number of an object, and `objects` what it holds.
pub record UploadLinkStore : Type 0 where
  pub objects : Dict ℕ UploadLink
  pub next : ℕ
  pub by_token : Dict String ℕ
  pub by_id : Dict String ℕ

abbrev pub empty_store : UploadLinkStore
empty_store = record { objects = []; next = 0; by_token = []; by_id = [] }

abbrev pub min_ttl : ℕ
min_ttl = 60

abbrev pub max_ttl : ℕ
max_ttl = 3600

abbrev pub max_pending_links : ℕ
max_pending_links = 50

abbrev pub result_ttl : ℕ
result_ttl = seconds 3600

-- `link.status == "pending"` of the object `ref`.
pub pending_at : Dict ℕ UploadLink → ℕ → Bool
pending_at objects ref = elim (lookup ref objects) [
  | none ↦ false
  | some link ↦ is_pending link.status
]

-- The first `if` of `_prune`: a pending link that has expired.
pub expire_link : ℕ → ℕ → UploadLink → UploadLinkStore → UploadLinkStore
expire_link now ref link s =
    if is_pending link.status && leb link.expires_at now
    then record s {
      objects = insert ref (record link { status = expired; finished_at = some now }) s.objects;
      by_token = erase link.token s.by_token;
    }
    else s

-- `link.finished_at is not None and now - link.finished_at > _RESULT_TTL`
pub is_stale : ℕ → UploadLink → Bool
is_stale now link = elim link.finished_at [ none ↦ false | some t ↦ ltb (t + result_ttl) now ]

-- The second `if` of `_prune`: a result that was kept long enough.
pub forget_link : ℕ → String → UploadLink → UploadLinkStore → UploadLinkStore
unfolding is_stale
forget_link now link_id link s =
    if is_stale now link
    then record s { by_id = erase link_id s.by_id; by_token = erase link.token s.by_token }
    else s

-- The body of the loop of `_prune`, for one entry of `_by_id`.
pub prune_entry : ℕ → UploadLinkStore → String × ℕ → UploadLinkStore
unfolding expire_link forget_link
prune_entry now s (link_id, ref) = elim (lookup ref s.objects) [
  | none ↦ s
  | some link ↦
      let s = expire_link now ref link s in
      elim (lookup ref s.objects) [ none ↦ s | some link ↦ forget_link now link_id link s ]
]

-- `_prune`
pub prune : ℕ → UploadLinkStore → UploadLinkStore
unfolding prune_entry
prune now s = loop (prune_entry now) s s.by_id

-- `max(MIN_TTL, min(int(ttl), MAX_TTL))`
pub clamp_ttl : ℕ → ℕ
clamp_ttl ttl = max min_ttl (min ttl max_ttl)

-- `sum(1 for link in self._by_id.values() if link.status == "pending")`
pub count_pending : UploadLinkStore → ℕ
unfolding pending_at
count_pending s = count (pending_at s.objects) s.by_id

pub data TooManyPending : Type 0 where
  too_many_pending : ℕ → TooManyPending

-- The link that `issue` makes from the random `link_id` and `token`; its `created_at` is read last.
pub new_link : Target → ℕ → String → String → ℕ → ℕ → UploadLink
unfolding clamp_ttl
new_link t ttl link_id token now created = record {
  link_id = link_id;
  token = token;
  node = t.node;
  vmid = t.vmid;
  dest = t.dest;
  max_bytes = t.max_bytes;
  verify_checksum = t.verify_checksum;
  expires_at = now + seconds (clamp_ttl ttl);
  created_at = created;
  status = pending;
  result = none;
  finished_at = none;
}

-- `issue`
pub issue :
    Target
    → ℕ
    → String
    → String
    → ℕ
    → ℕ
    → UploadLinkStore
    → Result TooManyPending UploadLink × UploadLinkStore
unfolding prune count_pending new_link
issue t ttl link_id token now created s0 =
    let s = prune now s0 in
    if leb max_pending_links (count_pending s)
    then (err (too_many_pending (count_pending s)), s)
    else let link = new_link t ttl link_id token now created in
      (
        ok link,
        record {
          objects = insert s.next link s.objects;
          next = s.next + 1;
          by_token = insert token s.next s.by_token;
          by_id = insert link_id s.next s.by_id;
        },
      )

-- `claim`: the claimed object, with its number.
pub claim : String → ℕ → UploadLinkStore → Option (ℕ × UploadLink) × UploadLinkStore
unfolding prune
claim token now s0 =
    let s = prune now s0 in
    let popped = record s { by_token = erase token s.by_token } in
    elim (lookup token s.by_token) [
      | none ↦ (none, popped)
      | some ref ↦ elim (lookup ref s.objects) [
        | none ↦ (none, popped)
        | some link ↦
            if is_pending link.status
            then (let link = record link { status = uploading } in
                (some (ref, link), record popped { objects = insert ref link s.objects }))
            else (none, popped)
      ]
    ]

-- `"success" if result.get("status") == "success" else "error"`
abbrev pub settled : PushResult → Status
settled r = elim r.status [
  | none ↦ error
  | some word ↦ if string_has_eq.beq word "success" then success else error
]

-- `finish`, for the object `ref`.
pub finish : ℕ → PushResult → ℕ → UploadLinkStore → UploadLinkStore
finish ref result now s = elim (lookup ref s.objects) [
  | none ↦ s
  | some link ↦
      let link = record link {
        status = settled result;
        result = some result;
        finished_at = some now;
      } in
      record s { objects = insert ref link s.objects }
]

-- `get`
pub get : String → ℕ → UploadLinkStore → Option UploadLink × UploadLinkStore
unfolding prune
get link_id now s0 =
    let s = prune now s0 in
    (elim (lookup link_id s.by_id) [ none ↦ none | some ref ↦ lookup ref s.objects ], s)
