-- ===== src/Dashboard/Confirmations.antt =====
-- `ConfirmationStore` of dashboard/confirmations.py, and the token check of dashboard/csrf.py.
pub mod Scoped
use beacon_mcp.Base.{
  ℕ, ◌+◌, String, Bool, true, false, ◌&&◌, ◌||◌, not, Option, none, some, List, [], ◌∷◌,
  if◌then◌else◌, nat_has_eq, string_has_eq, ◌==◌,
}
use beacon_mcp.Base.Dict.{Dict, lookup, insert, erase}

pub data Future : Type 0 where
  waiting : Future
  decided : Bool → Future
  cancelled : Future

abbrev pub is_done : Future → Bool
is_done waiting = false
is_done (decided b) = true
is_done cancelled = true

pub record Pending : Type 0 where
  pub future : ℕ
  pub session_id : String

-- The futures are shared with the callers that await them, so they live in a store of their own.
pub record ConfirmationStore : Type 0 where
  pub futures : Dict ℕ Future
  pub next : ℕ
  pub pending : Dict String Pending

abbrev pub future_at : ℕ → Dict ℕ Future → Future
future_at ref futures = elim (lookup ref futures) [ none ↦ cancelled | some f ↦ f ]

-- `create`: the number of the new future.
pub create : String → String → ConfirmationStore → ℕ × ConfirmationStore
create call_id session_id s = (
  s.next,
  record {
    futures = insert s.next waiting s.futures;
    next = s.next + 1;
    pending = insert call_id (record { future = s.next; session_id = session_id }) s.pending;
  },
)

-- `resolve`
pub resolve : String → String → Bool → ConfirmationStore → Bool × ConfirmationStore
resolve call_id session_id approved s = elim (lookup call_id s.pending) [
  | none ↦ (false, s)
  | some entry ↦
      if not (entry.session_id == session_id)
      then (false, s)
      else if is_done (future_at entry.future s.futures)
      then (false, s)
      else (
        true,
        record s {
          futures = insert entry.future (decided approved) s.futures;
          pending = erase call_id s.pending;
        },
      )
]

-- `cancel`
pub cancel : String → ConfirmationStore → ConfirmationStore
cancel call_id s = elim (lookup call_id s.pending) [
  | none ↦ s
  | some entry ↦
      if is_done (future_at entry.future s.futures)
      then record s { pending = erase call_id s.pending }
      else record s {
        futures = insert entry.future cancelled s.futures;
        pending = erase call_id s.pending;
      }
]

pub waiting_ids : String → Dict String Pending → List String
waiting_ids session_id [] = []
waiting_ids session_id ((call_id, entry) ∷ pending) =
    let rest = waiting_ids session_id pending in
    if entry.session_id == session_id then call_id ∷ rest else rest

-- `pending_for`
pub pending_for : String → ConfirmationStore → List String
unfolding waiting_ids
pending_for session_id s = waiting_ids session_id s.pending

-- What `verify` of csrf.py reads of a request: the cookie, the header, and the field of the form where
-- the content type is that of a form and the field is a string.
pub record Request : Type 0 where
  pub cookie : Option String
  pub header : Option String
  pub form_field : Option String

abbrev pub blank : Option String → Bool
blank none = true
blank (some text) = text == ""

abbrev pub same_text : Option String → Option String → Bool
same_text none b = false
same_text (some a) none = false
same_text (some a) (some b) = a == b

-- `verify`
pub verify : Request → Bool
verify r =
    if blank r.cookie
    then false
    else let submitted = if blank r.header then r.form_field else r.header in
      if blank submitted then false else same_text r.cookie submitted
