-- ===== src/Updates/Apply.antt =====
-- `apply_update` of updates.py: the two gates before the restart, and the way back.
use beacon_mcp.Base.{
  ℕ, ◌+◌, ◌*◌, ◌-◌, Bool, true, false, not, ◌&&◌, ◌||◌, Option, none, some, List, [], ◌∷◌, ◌++◌,
  nat_eq, if◌then◌else◌, ◌==◌, ok, err, leb, ltb, is_some,
}
use beacon_mcp.Base.Text.{Text, text_has_eq, codes, take}
use beacon_mcp.Clock.{seconds}
use beacon_mcp.Updates.{
  Host, git, pip_install, check_startup, systemd_run, popen_restart, write_status, rev_parse_head,
  merge_ff, reset_hard, Status, Target, TargetKind, TargetError, resolve_target, verify_signature,
  ahead_behind, working_tree_dirty,
}

pub data InstallKind : Type 0 where
  git_checkout : InstallKind
  pip : InstallKind
  docker : InstallKind
  unknown : InstallKind

pub record Installation : Type 0 where
  pub kind : InstallKind
  pub root : Option Text
  pub under_systemd : Bool
  pub service : Option Text

-- `UpdatesConfig` and the `health_url` of `_Runtime`.
pub record Settings : Type 0 where
  pub channel : TargetKind
  pub require_signed : Bool
  pub health_url : Option Text

pub data Blocker : Type 0 where
  no_checkout : InstallKind → Blocker
  no_git : Blocker
  dirty : Blocker

pub data StepName : Type 0 where
  preflight read_head fetch compare signature git_update rollback rollback_pip_install : StepName
  dependencies startup restart : StepName

pub record UpdateStep : Type 0 where
  pub name : StepName
  pub passed : Bool

-- Why an update goes no further. The texts of the program's outputs are left out.
pub data Message : Type 0 where
  busy : Message
  refused : List Blocker → Message
  in_flight : Message
  no_revision : Message
  no_target : TargetError → Message
  not_comparable : Message
  up_to_date : Message
  unsigned : Message
  not_fast_forward : Message
  install_failed : Message
  startup_failed : Message
  updated : Message

pub record UpdateResult : Type 0 where
  pub succeeded : Bool
  pub steps : List UpdateStep
  pub from_ref : Option Text
  pub to_ref : Option Text
  pub rolled_back : Bool
  pub restart_scheduled : Bool
  pub restart_in_seconds : ℕ
  pub message : Message

pub data RestartMode : Type 0 where
  watched : RestartMode
  unwatched : RestartMode
  unscheduled : RestartMode

abbrev pub step : StepName → Bool → UpdateStep
step name passed = record { name = name; passed = passed }

abbrev pub add : StepName → Bool → UpdateResult → UpdateResult
add name passed r = record r { steps = r.steps ++ step name passed ∷ [] }

abbrev pub stop : StepName → Message → UpdateResult → UpdateResult
stop name message r = record r { steps = r.steps ++ step name false ∷ []; message = message }

-- `UpdateResult(ok=False)`
unfoldable pub new_result : UpdateResult
new_result = record {
  succeeded = false;
  steps = [];
  from_ref = none;
  to_ref = none;
  rolled_back = false;
  restart_scheduled = false;
  restart_in_seconds = 0;
  message = busy;
}

-- `_WATCHDOG_WINDOW_SECONDS`
abbrev pub watchdog_window : ℕ
watchdog_window = seconds (2 * (90 + 30 + 15) + 900 + 60)

-- `_watchdog_in_flight`, of the last status.
unfoldable pub watchdog_in_flight : Option Status → ℕ → Bool
watchdog_in_flight none now = false
watchdog_in_flight (some status) now =
    status.outcome == codes "pending"
    && elim status.at [ none ↦ false | some at ↦ leb at now && ltb (now - at) watchdog_window ]

abbrev pub is_git : InstallKind → Bool
is_git git_checkout = true
is_git _ = false

module _ {W : Type 0} (host : Host W) (settings : Settings) where
  open host use {exec, which, read_status}
  open settings use {channel, require_signed, health_url}

  -- `_self_update_blockers`
  unfoldable pub self_update_blockers : Installation → W → List Blocker × W
  self_update_blockers install w =
      if not (is_git install.kind) || not (is_some install.root)
      then (no_checkout install.kind ∷ [], w)
      else let (uncommitted, w') = working_tree_dirty host w in
        (
          (if which (codes "git") w then [] else no_git ∷ [])
              ++ (if uncommitted then dirty ∷ [] else []),
          w',
        )

  -- `_schedule_restart`, with the watchdog's two revisions if there is one.
  unfoldable pub schedule_restart : Option (Text × Text) → W → RestartMode × W
  schedule_restart watchdog w =
      let (popen, popen_w) = exec popen_restart w in
      let unwatched_restart : RestartMode × W =
        if popen.succeeded then (unwatched, popen_w) else (unscheduled, popen_w) in
      if not (which (codes "systemctl") w) then (unscheduled, w) else elim watchdog [
        | none ↦ unwatched_restart
        | some (from, to) ↦
            let (run, run_w) = exec (systemd_run from to) w in
            let (popen', popen_w') = exec popen_restart run_w in
            if not (which (codes "systemd-run") w)
            then unwatched_restart
            else if run.succeeded
            then (watched, run_w)
            else if popen'.succeeded
            then (unwatched, popen_w')
            else (unscheduled, popen_w')
      ]

  -- `_rollback`
  unfoldable pub roll_back : Text → Message → UpdateResult → W → UpdateResult × W
  roll_back from reason r w =
      let (reset, w1) = exec (git (reset_hard from)) w in
      let (reinstalled, w2) = exec pip_install w1 in
      let r' = add rollback reset.succeeded r in
      if reset.succeeded
      then (
        record (add rollback_pip_install reinstalled.succeeded r') {
          succeeded = false;
          rolled_back = true;
          message = reason;
        },
        w2,
      )
      else (record r' { succeeded = false; rolled_back = false; message = reason }, w1)

  -- The status that is written for a scheduled restart.
  abbrev pub scheduled_status : Text → Text → RestartMode → ℕ → Status
  scheduled_status from to mode now = record {
    at = some now;
    from = from;
    to = to;
    outcome = elim mode [ watched ↦ codes "pending" | _ ↦ codes "unwatched" ];
  }

  abbrev pub is_scheduled : RestartMode → Bool
  is_scheduled unscheduled = false
  is_scheduled _ = true

  -- The restart at the end of the update.
  unfoldable pub restart_service :
      Installation → Bool → ℕ → ℕ → Text → Text → UpdateResult → W → UpdateResult × W
  unfolding schedule_restart
  restart_service install wanted delay now from to r w =
      let watchdog = if is_some health_url then some (from, to) else none in
      let (mode, w1) = schedule_restart watchdog w in
      let (_, w2) = exec (write_status (scheduled_status from to mode now)) w1 in
      let done = record r { succeeded = true; message = updated } in
      if wanted && is_some install.service && install.under_systemd
      then if is_scheduled mode
        then (
          record (add restart true done) { restart_scheduled = true; restart_in_seconds = delay },
          w2,
        )
        else (add restart false done, w1)
      else (done, w)

  -- From the dependencies on: both gates may send the checkout back.
  unfoldable pub install_and_check :
      Installation → Bool → ℕ → ℕ → Text → Text → UpdateResult → W → UpdateResult × W
  unfolding roll_back restart_service
  install_and_check install wanted delay now from to r w =
      let (installed, w1) = exec pip_install w in
      let (started, w2) = exec check_startup w1 in
      let r1 = add dependencies true r in
      if not installed.succeeded
      then roll_back from install_failed (add dependencies false r) w1
      else if not started.succeeded
      then roll_back from startup_failed (add startup false r1) w2
      else restart_service install wanted delay now from to (add startup true r1) w2

  -- The fast-forward to the very commit that was resolved and verified.
  unfoldable pub fast_forward :
      Installation → Bool → ℕ → ℕ → Text → Target → UpdateResult → W → UpdateResult × W
  unfolding install_and_check
  fast_forward install wanted delay now from target r w =
      let (merged, w1) = exec (git (merge_ff target.sha)) w in
      let (parsed, w2) = exec (git rev_parse_head) w1 in
      let to = if parsed.succeeded then parsed.out else target.sha in
      if not merged.succeeded
      then (stop git_update not_fast_forward r, w1)
      else install_and_check install wanted delay now from to
          (record (add git_update true r) { to_ref = some (take 12 to) }) w2

  -- What follows from the comparison with the target: the check of its signature and the move.
  unfoldable pub verify_and_move :
      Option (ℕ × ℕ)
      → Installation
      → Bool
      → ℕ
      → ℕ
      → Text
      → Target
      → UpdateResult
      → W
      → UpdateResult × W
  unfolding fast_forward
  verify_and_move none install wanted delay now from target r w = (stop compare not_comparable r, w)
  verify_and_move (some (ahead, behind)) install wanted delay now from target r w =
      let (signed, w') = verify_signature host target w in
      if nat_eq behind 0
      then (record r { succeeded = true; to_ref = r.from_ref; message = up_to_date }, w)
      else if require_signed
      then if signed
        then fast_forward install wanted delay now from target (add signature true r) w'
        else (stop signature unsigned r, w')
      else fast_forward install wanted delay now from target r w

  -- The comparison with the target.
  unfoldable pub compare_and_verify :
      Installation → Bool → ℕ → ℕ → Text → Target → UpdateResult → W → UpdateResult × W
  unfolding verify_and_move
  compare_and_verify install wanted delay now from target r w =
      let (compared, w') = ahead_behind host target.sha w in
      verify_and_move compared install wanted delay now from target r w'

  -- From the current revision to the target.
  unfoldable pub find_target : Installation → Bool → ℕ → ℕ → UpdateResult → W → UpdateResult × W
  unfolding compare_and_verify
  find_target install wanted delay now r w =
      let (head, w1) = exec (git rev_parse_head) w in
      let (found, w2) = resolve_target host channel w1 in
      let r1 = record r { from_ref = some (take 12 head.out) } in
      if not head.succeeded then (stop read_head no_revision r, w1) else elim found [
        | err e ↦ (stop fetch (no_target e) r1, w2)
        | ok target ↦
            compare_and_verify install wanted delay now head.out target (add fetch true r1) w2
      ]

  -- From the blockers on, with a host that has none.
  unfoldable pub update_unless_blocked :
      List Blocker → Installation → Bool → ℕ → ℕ → ℕ → W → UpdateResult × W
  unfolding find_target watchdog_in_flight new_result
  update_unless_blocked (b ∷ bs) install wanted delay t0 t1 w =
      (stop preflight (refused (b ∷ bs)) new_result, w)
  update_unless_blocked [] install wanted delay t0 t1 w =
      if watchdog_in_flight (read_status w) t0
      then (stop preflight in_flight new_result, w)
      else find_target install wanted delay t1 (add preflight true new_result) w

  -- `_apply_update_locked`; `t0` is the reading of `_watchdog_in_flight`, `t1` that of the status.
  unfoldable pub apply_update_locked : Installation → Bool → ℕ → ℕ → ℕ → W → UpdateResult × W
  unfolding self_update_blockers update_unless_blocked
  apply_update_locked install wanted delay t0 t1 w =
      let (blockers, w1) = self_update_blockers install w in
      update_unless_blocked blockers install wanted delay t0 t1 w1

  -- `apply_update`: whether another update holds the lock is `locked`.
  unfoldable pub apply_update : Bool → Installation → Bool → ℕ → ℕ → ℕ → W → UpdateResult × W
  unfolding apply_update_locked
  apply_update locked install wanted delay t0 t1 w =
      if locked
      then (stop preflight busy new_result, w)
      else apply_update_locked install wanted delay t0 t1 w
