-- ===== src/Dashboard/Tests.antt =====
-- The stores of the dashboard at concrete inputs.
use beacon_mcp.Base.{
  String, ◌≡◌, refl, false, true, Option, none, some, [], ◌∷◌, arith, err, string_has_eq,
  nat_has_eq, ne_of_false,
}
use beacon_mcp.Base.Dict.{lookup, insert}
use beacon_mcp.Clock.{seconds}
use beacon_mcp.Dashboard.Slugs.{Table, new_slug, claimed, consume, already_consumed}
use beacon_mcp.Dashboard.Slugs.Once.{pruning, deleting, calls, slug-consume_once}
use beacon_mcp.Dashboard.Usage.{UsageEvent, UsageStore, Budget, SessionRow, record_turn}
use beacon_mcp.Dashboard.Usage.Ledger.{start, turn, RowAgrees, Recorded-agrees}
use beacon_mcp.Dashboard.Sessions as Sessions
use beacon_mcp.Dashboard.Sessions.{
  Bytes, create, update_bearer, get_client_secret, delete_all_for_client, load, Session,
}
use beacon_mcp.Dashboard.Sessions.Secrets.{create-get_client_secret}
use beacon_mcp.Dashboard.Confirmations.{ConfirmationStore, decided, Request, verify, blank}
use beacon_mcp.Dashboard.Confirmations as Confirmations
use beacon_mcp.Dashboard.Confirmations.Scoped.{create-resolve}

abbrev slugs : Table
slugs = ("slug", new_slug "slug" "owner" "ChatGPT" 0) ∷ []

slug-consume_once_example :
    let after =
      calls
        (pruning (seconds 9000) ∷ deleting "slug" "owner" ∷ [])
        (consume "slug" "client" (seconds 5) slugs).1 in
    (lookup "slug" after
      ≡ some (claimed (seconds 5) "client" (new_slug "slug" "owner" "ChatGPT" 0)))
    × ((consume "slug" "again" (seconds 6) after).0 ≡ err (already_consumed "slug"))
unfolding lookup consume
slug-consume_once_example =
    slug-consume_once "slug" "client" "again" (seconds 5) (seconds 6) slugs
      (claimed (seconds 5) "client" (new_slug "slug" "owner" "ChatGPT" 0))
      (pruning (seconds 9000) ∷ deleting "slug" "owner" ∷ []) (refl, tt) refl

abbrev caps : Budget
caps = record { limit_5h_usd = 100; limit_week_usd = 1000 }

abbrev no_turns : UsageStore
no_turns = record { budget = caps; usage_events = []; usage_5h_sessions = [] }

abbrev first_turn : UsageEvent
first_turn = record {
  id = "a";
  client_id = "claude";
  ts = seconds 10;
  model = "gemini-2.5-pro";
  cost_usd = 40;
}

abbrev first_row : SessionRow
first_row = record { started_at = seconds 10; last_event_at = seconds 10; cost_usd = 40 }

abbrev one_turn : UsageStore
one_turn = record no_turns {
  usage_events = first_turn ∷ [];
  usage_5h_sessions = ("claude", first_row) ∷ [];
}

Recorded-agrees_example :
    RowAgrees "claude"
      (seconds 10)
      (first_turn ∷ [])
      (lookup {K = String} "claude" (("claude", first_row) ∷ []))
unfolding lookup insert record_turn
Recorded-agrees_example =
    Recorded-agrees {budget = caps} {last = seconds 10} {s = one_turn}
      (turn {s = no_turns} {s' = one_turn} first_turn (omega arith) refl start) "claude"

abbrev nonce : Bytes
nonce = 1 ∷ 2 ∷ 3 ∷ 4 ∷ 5 ∷ 6 ∷ 7 ∷ 8 ∷ 9 ∷ 10 ∷ 11 ∷ 12 ∷ []

-- A cipher of one message, which is 16 bytes long.
abbrev seal : Bytes → String → Bytes
seal n p = 0 ∷ 0 ∷ 0 ∷ 0 ∷ 0 ∷ 0 ∷ 0 ∷ 0 ∷ 0 ∷ 0 ∷ 0 ∷ 0 ∷ 0 ∷ 0 ∷ 0 ∷ 0 ∷ []

abbrev unseal : Bytes → Bytes → Option String
unseal n blob = some "secret"

abbrev sessions : Sessions.Table
sessions = (create seal unseal "session" nonce "claude" "secret" "bearer" 60 none (seconds 5) []).1

abbrev approval : ConfirmationStore
approval = record { futures = []; next = 0; pending = [] }

create-resolve_example :
    let (ref, asked) = Confirmations.create "call" "mine" approval in
    let (answer, after) = Confirmations.resolve "call" "mine" true asked in
    (answer ≡ true)
    × (lookup ref after.futures ≡ some (decided true))
    × (Confirmations.resolve "call" "theirs" true asked ≡ (false, asked))
    × ((Confirmations.resolve "call" "mine" false after).0 ≡ false)
create-resolve_example =
    create-resolve "call" "mine" "theirs" true false approval
      (ne_of_false {A = String} "theirs" "mine" refl)

create-get_client_secret_example :
    get_client_secret seal unseal "session" (
      update_bearer "session" "bearer2" 60
        (seconds 7)
        (seconds 7)
        (create seal unseal "session" nonce "claude" "secret" "bearer" 60 none (seconds 5) []).1)
    ≡ some "secret"
create-get_client_secret_example =
    create-get_client_secret seal unseal "session" "claude" "secret" "bearer" nonce 60 none
      (seconds 5) [] "bearer2" 60 (seconds 7) (seconds 7) refl (omega arith) refl
