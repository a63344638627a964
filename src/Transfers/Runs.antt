-- ===== src/Transfers/Runs.antt =====
-- The upload links over any run of calls.
use beacon_mcp.Base.{
  ℕ, ◌+◌, ◌≤◌, ◌<◌, String, ◌≡◌, none, some, arith, nat_has_eq, string_has_eq, ok,
}
use beacon_mcp.Clock.{seconds}
use beacon_mcp.Base.Dict.{lookup, count, lookup-insert}
use beacon_mcp.Transfers.{
  UploadLink, UploadLinkStore, prune, count_pending, Target, PushResult, empty_store, issue, claim,
  finish, get, new_link, clamp_ttl, max_pending_links,
}
use beacon_mcp.Transfers.Inv.{IsValid}
use beacon_mcp.Transfers.Prune.{prune-IsValid, prune-count}
use beacon_mcp.Transfers.Steps.{
  issue-IsValid, issue-count, finish-IsValid, finish-count, Claimed-IsValid, claim-cases,
  Claimed-fresh,
}

-- The stores that calls lead to from an empty one, where the random id of a new link is not one that
-- the store holds.
pub data Reached : UploadLinkStore → Type 0 where
  start : Reached empty_store
  by_issue :
      {s : UploadLinkStore} (t : Target) (ttl : ℕ) (link_id token : String) (now created : ℕ)
      → lookup link_id (prune now s).by_id ≡ none
      → Reached s
      → Reached (issue t ttl link_id token now created s).1
  by_claim :
      {s : UploadLinkStore} (token : String) (now : ℕ) → Reached s → Reached (claim token now s).1
  by_finish :
      {s : UploadLinkStore} (ref : ℕ) (result : PushResult) (now : ℕ)
      → Reached s
      → Reached (finish ref result now s)
  by_get :
      {s : UploadLinkStore} (link_id : String) (now : ℕ) → Reached s → Reached (get link_id now s).1

empty-IsValid : IsValid empty_store
unfolding lookup
empty-IsValid = record {
  keys = tt;
  ids = tt;
  tokens = λ token ref h. cc;
  unfinished = λ ref link h waits. cc;
  listed = λ token ref h waits. cc;
}

none_pending : count_pending empty_store ≤ max_pending_links
unfolding count_pending count
none_pending = ground arith

Reached-IsValid :
    {s : UploadLinkStore} → Reached s → IsValid s × (count_pending s ≤ max_pending_links)
unfolding get
Reached-IsValid start = (empty-IsValid, none_pending)
Reached-IsValid (by_issue {s} t ttl link_id token now created fresh r) =
    let (v, le) = Reached-IsValid r in
    (
      issue-IsValid s v t ttl link_id token now created fresh,
      issue-count s v t ttl link_id token now created fresh le,
    )
Reached-IsValid (by_claim {s} token now r) =
    let (v, le) = Reached-IsValid r in
    let (v', le') = Claimed-IsValid s v token now (claim token now s) (claim-cases s v token now) in
    (v', omega arith)
Reached-IsValid (by_finish {s} ref result now r) =
    let (v, le) = Reached-IsValid r in
    (finish-IsValid s v ref result now, omega (arith, finish-count s v ref result now))
Reached-IsValid (by_get {s} link_id now r) =
    let (v, le) = Reached-IsValid r in (prune-IsValid now v, omega (arith, prune-count now s))

-- In every store that calls lead to from an empty one, where no two links share an id, no more links
-- are pending than the cap.
pub Reached-capped : {s : UploadLinkStore} → Reached s → count_pending s ≤ max_pending_links
Reached-capped r = (Reached-IsValid r).1

-- In such a store, a link that a claim answers at `now` has not expired then.
pub claim-unexpired :
    {s : UploadLinkStore} (r : Reached s) (token : String) (now ref : ℕ) (link : UploadLink)
    → (claim token now s).0 ≡ some (ref, link)
    → now < link.expires_at
claim-unexpired {s} r token now ref link h =
    let v = (Reached-IsValid r).0 in
    Claimed-fresh s v token now (claim token now s) (claim-cases s v token now) ref link h

-- A link that `issue` answers expires between one minute and one hour after the call, whatever time to
-- live it was asked for, and it is one that waits under its token.
pub issue-ttl :
    (t : Target) (ttl : ℕ) (link_id token : String) (now created : ℕ) (s : UploadLinkStore)
    (link : UploadLink)
    → (issue t ttl link_id token now created s).0 ≡ ok link
    → (now + seconds 60 ≤ link.expires_at)
      × (link.expires_at ≤ now + seconds 3600)
      × (lookup token (issue t ttl link_id token now created s).1.by_token
          ≡ some (prune now s).next)
      × (lookup (prune now s).next (issue t ttl link_id token now created s).1.objects ≡ some link)
unfolding issue new_link clamp_ttl
issue-ttl t ttl link_id token now created s link h =
    let r = prune now s in
    let new = new_link t ttl link_id token now created in
    ground (
      arith,
      lookup-insert token token r.next r.by_token,
      lookup-insert r.next r.next new r.objects,
      string_has_eq.beq_iff token token,
      nat_has_eq.beq_iff r.next r.next,
    )
