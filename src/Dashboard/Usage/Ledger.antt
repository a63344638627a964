-- ===== src/Dashboard/Usage/Ledger.antt =====
-- `usage_5h_sessions` against `usage_events`, over runs of recorded turns.
use beacon_mcp.Base.{
  ℕ, ◌+◌, ◌≤◌, ◌<◌, String, ◌≡◌, refl, sym, ap, subst, ◌∙◌, true, false, ◌&&◌, Option, none, some,
  List, [], ◌∷◌, ◌++◌, leb, if◌then◌else◌, string_has_eq, Bool-cases, inl, inr, arith, All,
  eq_of_true, ok, ◌==◌,
}
use beacon_mcp.Base.Dict.{Dict, lookup, lookup-insert}
use beacon_mcp.Dashboard.Usage.{
  UsageEvent, SessionRow, UsageStore, Budget, next_row, apply_to_session, record_turn, five_hours,
}

-- The sum of what a client spent from `since` on.
pub spent_since : String → ℕ → List UsageEvent → ℕ
spent_since client_id since [] = 0
spent_since client_id since (ev ∷ events) =
    let rest = spent_since client_id since events in
    if (ev.client_id == client_id) && leb since ev.ts then ev.cost_usd + rest else rest

-- The stores that turns lead to from an empty one, recorded in the order of their times.
pub data Recorded (budget : Budget) : ℕ → UsageStore → Type 0 where
  start : Recorded budget 0 (record { budget = budget; usage_events = []; usage_5h_sessions = [] })
  turn :
      {last : ℕ} {s s' : UsageStore} (ev : UsageEvent)
      → last ≤ ev.ts
      → record_turn ev s ≡ ok s'
      → Recorded budget last s
      → Recorded budget ev.ts s'

-- The row of a client: its window began no later than its last turn, which fell inside the window and
-- is the client's last in the ledger, and it holds what the client spent since the window began. A
-- client without a row has no turn.
abbrev pub RowAgrees : String → ℕ → List UsageEvent → Option SessionRow → Type 0
RowAgrees c last events none = All (λ ev. (ev.client_id == c) ≡ false) events
RowAgrees c last events (some row) =
    (row.started_at ≤ row.last_event_at)
    × (row.last_event_at < row.started_at + five_hours)
    × (row.last_event_at ≤ last)
    × (row.cost_usd ≡ spent_since c row.started_at events)
    × All (λ ev. (ev.client_id == c) ≡ true → ev.ts ≤ row.last_event_at) events

spent-snoc :
    (c : String) (since : ℕ) (events : List UsageEvent) (ev : UsageEvent)
    → spent_since c since (events ++ (ev ∷ []))
      ≡ spent_since c since events
        + (if (ev.client_id == c) && leb since ev.ts then ev.cost_usd else 0)
unfolding spent_since
spent-snoc c since [] ev = ground arith
spent-snoc c since (e ∷ events) ev = ground (arith, spent-snoc c since events ev)

-- Nothing was spent after the client's last turn.
spent-future :
    (c : String) (last since : ℕ) (events : List UsageEvent)
    → All (λ ev. (ev.client_id == c) ≡ true → ev.ts ≤ last) events
    → last < since
    → spent_since c since events ≡ 0
unfolding spent_since
spent-future c last since [] h lt = refl
spent-future c last since (ev ∷ events) h lt =
    ground (arith, h.0, spent-future c last since events h.1 lt)

spent-none :
    (c : String) (since : ℕ) (events : List UsageEvent)
    → All (λ ev. (ev.client_id == c) ≡ false) events
    → spent_since c since events ≡ 0
unfolding spent_since
spent-none c since [] h = refl
spent-none c since (ev ∷ events) h = ground (arith, h.0, spent-none c since events h.1)

All-snoc :
    (P : UsageEvent → Type 0) (events : List UsageEvent) (ev : UsageEvent)
    → All P events
    → P ev
    → All P (events ++ (ev ∷ []))
All-snoc P [] ev h p = (p, tt)
All-snoc P (e ∷ events) ev h p = (h.0, All-snoc P events ev h.1 p)

All-later :
    (c : String) (events : List UsageEvent) (n m : ℕ)
    → n ≤ m
    → All (λ ev. (ev.client_id == c) ≡ true → ev.ts ≤ n) events
    → All (λ ev. (ev.client_id == c) ≡ true → ev.ts ≤ m) events
All-later c [] n m le h = tt
All-later c (e ∷ events) n m le h = (λ own. ground (arith, h.0 own), All-later c events n m le h.1)

All-vacuous :
    (c : String) (events : List UsageEvent) (m : ℕ)
    → All (λ ev. (ev.client_id == c) ≡ false) events
    → All (λ ev. (ev.client_id == c) ≡ true → ev.ts ≤ m) events
All-vacuous c [] m h = tt
All-vacuous c (e ∷ events) m h = (λ own. ground (arith, h.0), All-vacuous c events m h.1)

-- A turn of the client itself.
own-turn :
    (c : String) (last : ℕ) (events : List UsageEvent) (ev : UsageEvent) (row : Option SessionRow)
    → last ≤ ev.ts
    → (ev.client_id == c) ≡ true
    → RowAgrees c last events row
    → RowAgrees c ev.ts (events ++ (ev ∷ [])) (some (next_row row ev.ts ev.cost_usd))
unfolding next_row
own-turn c last events ev none le own h = (
  omega arith,
  omega arith,
  omega arith,
  ground (arith, spent-snoc c ev.ts events ev, spent-none c ev.ts events h),
  All-snoc _ events ev (All-vacuous c events ev.ts h) (λ _. omega arith),
)
own-turn c last events ev (some row) le own h =
    elim (Bool-cases (leb (row.started_at + five_hours) ev.ts)) [
      | inl closed ↦
          rw (closed, next_row)
            (
              omega arith,
              omega arith,
              omega arith,
              ground (
                arith,
                spent-snoc c ev.ts events ev,
                spent-future c row.last_event_at ev.ts events h.4,
                h.1,
              ),
              All-snoc _ events ev
                  (All-later c events row.last_event_at ev.ts (omega (arith, h.2)) h.4)
                  (λ _. omega arith),
            )
      | inr open_still ↦
          rw (open_still, next_row)
            (
              omega (arith, h.0, h.2),
              ground arith,
              omega arith,
              ground (arith, spent-snoc c row.started_at events ev, h.0, h.2, h.3),
              All-snoc _ events ev
                  (All-later c events row.last_event_at ev.ts (omega (arith, h.2)) h.4)
                  (λ _. omega arith),
            )
    ]

other-turn :
    (c : String) (last : ℕ) (events : List UsageEvent) (ev : UsageEvent) (row : Option SessionRow)
    → last ≤ ev.ts
    → (ev.client_id == c) ≡ false
    → RowAgrees c last events row
    → RowAgrees c ev.ts (events ++ (ev ∷ [])) row
other-turn c last events ev none le other h = All-snoc _ events ev h other
other-turn c last events ev (some row) le other h =
    let (a, b, d, cost, all) = h in
    (
      a,
      b,
      omega arith,
      cost ∙ ground (arith, spent-snoc c row.started_at events ev),
      All-snoc _ events ev all (λ own. ground arith),
    )

-- What a turn that is recorded leaves.
recorded :
    (ev : UsageEvent) (s s' : UsageStore)
    → record_turn ev s ≡ ok s'
    → (s'.usage_events ≡ s.usage_events ++ (ev ∷ []))
      × (s'.usage_5h_sessions ≡ apply_to_session ev.client_id ev.ts ev.cost_usd s.usage_5h_sessions)
unfolding record_turn
recorded ev s s' h = (ground arith, ground arith)

module _ (c : String) (ev : UsageEvent) (sessions : Dict String SessionRow) where
  own_row :
      (ev.client_id == c) ≡ true
      → lookup c (apply_to_session ev.client_id ev.ts ev.cost_usd sessions)
        ≡ some (next_row (lookup c sessions) ev.ts ev.cost_usd)
  unfolding apply_to_session
  own_row own =
      lookup-insert ev.client_id c _ sessions
      ∙ rw own (
          ap (λ k. some (next_row (lookup k sessions) ev.ts ev.cost_usd))
            (eq_of_true {A = String} ev.client_id c own))

  other_row :
      (ev.client_id == c) ≡ false
      → lookup c (apply_to_session ev.client_id ev.ts ev.cost_usd sessions) ≡ lookup c sessions
  unfolding apply_to_session
  other_row other = lookup-insert ev.client_id c _ sessions ∙ rw other refl

-- In every store that turns lead to, recorded in the order of their times, the session row of each client
-- agrees with the ledger: its cost is the sum of the client's turns since the window began, and all the
-- client's turns of the last window fell within five hours of its start.
pub Recorded-agrees :
    {budget : Budget} {last : ℕ} {s : UsageStore} (r : Recorded budget last s) (client_id : String)
    → RowAgrees client_id last s.usage_events (lookup client_id s.usage_5h_sessions)
unfolding lookup
Recorded-agrees start client_id = tt
Recorded-agrees (turn {last} {s} {s'} ev le h r) client_id =
    let (ledger, rows) = recorded ev s s' h in
    let before = Recorded-agrees r client_id in
    let row = lookup client_id s.usage_5h_sessions in
    rw (ledger, rows)
      (elim (Bool-cases (ev.client_id == client_id)) [
        | inl own ↦
            subst (RowAgrees client_id ev.ts (s.usage_events ++ (ev ∷ [])))
              (sym (own_row client_id ev s.usage_5h_sessions own))
              (own-turn client_id last s.usage_events ev row le own before)
        | inr other ↦
            subst (RowAgrees client_id ev.ts (s.usage_events ++ (ev ∷ [])))
              (sym (other_row client_id ev s.usage_5h_sessions other))
              (other-turn client_id last s.usage_events ev row le other before)
      ])
