-- ===== src/Updates/Watchdog.antt =====
-- _WATCHDOG_SCRIPT of updates.py: the shell script that restarts the service and takes the update
-- back if the new process is not healthy. Its log lines are left out.
pub mod Ends
use beacon_mcp.Base.{
  ℕ, zero, suc, ◌+◌, Bool, true, false, not, Option, none, some, Result, ok, err, ◌>>=◌, ltb, leb,
  if◌then◌else◌, ◌==◌,
}
use beacon_mcp.Base.Text.{Text, text_has_eq}

pub data Outcome : Type 0 where
  healthy : Outcome
  superseded : Outcome
  rolled_back : Outcome
  rollback_unhealthy : Outcome
  rollback_failed : Outcome

-- Why the script would not come to its end: a program that it called does not return, or a loop has used
-- up its rounds.
pub data Endless : Type 0 where
  no_return : Endless
  out_of_fuel : Endless

-- What the script calls, over the state of the machine; `none` is a program that does not return. `date`
-- is in seconds. The request of `healthy` bounds each wait for the socket by three seconds, and not the
-- whole answer.
pub record Machine (W : Type 0) : Type 0 where
  pub date : W → ℕ
  pub sleep : ℕ → W → W
  pub answers : W → Option (Bool × W)  -- `healthy`: one request of /health
  pub ident : W → Option (Text × W)  -- MainPID and NRestarts
  pub restart : W → Option W
  pub rev_parse_head : W → Text
  pub reset_hard : Text → W → Option (Bool × W)
  pub change_dir : W → Bool
  pub pip_install : W → Option W  -- a failure is only logged
  pub write_status : Outcome → W → W

abbrev pub called {ℓ} : {A : Type ℓ} → Option A → Result Endless A
called none = err no_return
called (some a) = ok a

-- The arguments of the script.
pub record Arguments : Type 0 where
  pub delay : ℕ
  pub from : Text
  pub to : Text
  pub wait : ℕ
  pub settle : ℕ

module _ {W : Type 0} (machine : Machine W) (arguments : Arguments) where
  open machine use {
    date, sleep, answers, ident, restart, rev_parse_head, reset_hard, change_dir, pip_install,
    write_status,
  }
  open arguments use {delay, from, to, wait, settle}

  -- `stable`
  unfoldable pub stable : Text → W → Result Endless (Bool × W)
  stable first w = called (answers w) >>= λ (up, w1).
      if up then (do (now, w2) ← called (ident w1); ok (now == first, w2)) else ok (false, w1)

  -- `while [ "$waited" -lt "$settle" ] && stable`
  unfoldable pub settling : ℕ → Text → ℕ → W → Result Endless (ℕ × W)
  unfolding stable
  settling zero first waited w = err out_of_fuel
  settling (suc fuel) first waited w =
      let again = λ (w1 : W). settling fuel first (waited + 2) (sleep 2 w1) in
      if not (ltb waited settle)
      then ok (waited, w)
      else stable first w >>= λ (steady, w1). if steady then again w1 else ok (waited, w1)

  -- The end of a round that had an answer.
  unfoldable pub settled : Text → ℕ × W → Result Endless (Bool × W)
  unfolding stable
  settled first (waited, w) = if leb settle waited then stable first w else ok (false, w)

  -- One round of `wait_healthy`, up to its return or its last `sleep`.
  unfoldable pub attempt : W → Result Endless (Bool × W)
  unfolding settling settled
  attempt w = called (answers w) >>= λ (up, w1).
      if up
      then (do
        (first, w2) ← called (ident w1)
        r ← settling (suc settle) first 0 w2
        settled first r)
      else ok (false, w1)

  -- A round returns, or the next one follows.
  unfoldable pub unless_healthy :
      Bool × W → (W → Result Endless (Bool × W)) → Result Endless (Bool × W)
  unless_healthy (true, w) again = ok (true, w)
  unless_healthy (false, w) again = again (sleep 2 w)

  -- The loop of `wait_healthy`.
  unfoldable pub poll : ℕ → ℕ → W → Result Endless (Bool × W)
  unfolding attempt unless_healthy
  poll zero end w = err out_of_fuel
  poll (suc fuel) end w =
      let again = λ (w' : W). poll fuel end w' in
      if ltb (date w) end then (attempt w >>= λ r. unless_healthy r again) else ok (false, w)

  -- `wait_healthy`: each round takes two seconds at least, so `wait` and one rounds are enough.
  unfoldable pub wait_healthy : W → Result Endless (Bool × W)
  unfolding poll
  wait_healthy w = poll (suc wait) (date w + wait) w

  -- The second wait, once the checkout and its dependencies are back.
  unfoldable pub after_rollback : Bool × W → Option Outcome × W
  after_rollback (true, w) = (some rolled_back, write_status rolled_back w)
  after_rollback (false, w) = (some rollback_unhealthy, write_status rollback_unhealthy w)

  -- The checkout is back at `from`. With no way into the directory the script ends and writes nothing.
  unfoldable pub reinstall : W → Result Endless (Option Outcome × W)
  unfolding wait_healthy after_rollback
  reinstall w =
      if change_dir w
      then (do
        w1 ← called (pip_install w)
        w2 ← called (restart w1)
        r ← wait_healthy w2
        ok (after_rollback r))
      else ok (none, w)

  -- The way back.
  unfoldable pub take_back : W → Result Endless (Option Outcome × W)
  unfolding reinstall
  take_back w =
      if not (rev_parse_head w == to)
      then ok (some superseded, write_status superseded w)
      else called (reset_hard from w) >>= λ (reset, w1).
          if not reset
          then ok (some rollback_failed, write_status rollback_failed w1)
          else reinstall w1

  unfoldable pub after_restart : Bool × W → Result Endless (Option Outcome × W)
  unfolding take_back
  after_restart (true, w) = ok (some healthy, write_status healthy w)
  after_restart (false, w) = take_back w

  -- The script.
  unfoldable pub watchdog : W → Result Endless (Option Outcome × W)
  unfolding after_restart wait_healthy
  watchdog w = do w1 ← called (restart (sleep delay w)); r ← wait_healthy w1; after_restart r
