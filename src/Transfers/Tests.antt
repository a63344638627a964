-- ===== src/Transfers/Tests.antt =====
-- Upload links at concrete inputs.
use beacon_mcp.Base.{
  ℕ, ◌+◌, ◌≤◌, ◌<◌, String, ◌≡◌, refl, false, true, Option, none, some, List, [], ◌∷◌, arith,
  Result, ok, nat_has_eq, string_has_eq,
}
use beacon_mcp.Base.Dict.{lookup, insert, erase}
use beacon_mcp.Clock.{seconds}
use beacon_mcp.Transfers.{
  UploadLink, UploadLinkStore, Target, PushResult, empty_store, issue, claim, count_pending,
  max_pending_links, prune, uploading, new_link,
}
use beacon_mcp.Transfers.Runs.{Reached, start, by_issue, Reached-capped}
use beacon_mcp.Transfers.Once.{now_same, claim-once}
use beacon_mcp.Transfers.Live.{issue-claim}
use beacon_mcp.Transfers.Upload.{Request}

abbrev target : Target
target = record {
  node = "pve";
  vmid = 100;
  dest = "/tmp/file";
  max_bytes = 1000;
  verify_checksum = true;
}

abbrev one_link : UploadLinkStore
one_link = (issue target 600 "id" "token" (seconds 5) (seconds 5) empty_store).1

abbrev link : UploadLink
link = new_link target 600 "id" "token" (seconds 5) (seconds 5)

one_link-Reached : Reached one_link
unfolding lookup prune
one_link-Reached = by_issue target 600 "id" "token" (seconds 5) (seconds 5) refl start

Reached-capped_example : count_pending one_link ≤ max_pending_links
Reached-capped_example = Reached-capped {s = one_link} one_link-Reached

claim-once_example : (claim "token" (seconds 10) (claim "token" (seconds 9) one_link).1).0 ≡ none
claim-once_example =
    claim-once "token" one_link (claim "token" (seconds 9) one_link).1 (seconds 9) (seconds 10)
      now_same

abbrev done : PushResult
done = record { status = some "success"; guest_status = false; bytes = none }

abbrev accept : ℕ → Result String PushResult
accept n = ok done

abbrev upload : Request
upload = record { multipart = false; declared = some 30; chunks = 10 ∷ 20 ∷ [] }

issue-claim_example :
    (claim "token" (seconds 100) one_link).0
    ≡ some ((prune (seconds 5) empty_store).next, record link { status = uploading })
unfolding lookup prune issue new_link count_pending beacon_mcp.Base.Dict.count
issue-claim_example =
    issue-claim target 600 "id" "token" (seconds 5) (seconds 5) (seconds 100) empty_store link
      (λ j l there. cc) refl (omega arith)
