-- ===== src/Updates/Tests.antt =====
-- updates.py on a host whose new revision does not start.
use beacon_mcp.Base.{
  ok, err, inl, sym, ◌==◌, eq_of_true, ℕ, ◌+◌, Bool, true, false, ◌≡◌, refl, ◌⊎◌, Option, none,
  some, [], arith,
}
use beacon_mcp.Base.Text.{Text, text_has_eq, codes, same_text}
use beacon_mcp.Updates.{
  Command, GitCommand, Host, Ran, git, systemd_run, popen_restart, check_startup, merge_ff,
  reset_hard, rev_parse_head, rev_parse_branch, rev_list, verify_commit, branch, working_tree_dirty,
  resolve_target, resolve_branch, ahead_behind, verify_signature,
}
use beacon_mcp.Updates.Git.{GitLaws, moves_head, restarts_service}
use beacon_mcp.Updates.Apply.{Installation, Settings, git_checkout, apply_update, step, rollback}
use beacon_mcp.Updates.Rollback.{last_step, apply_update-failed}
use beacon_mcp.Updates.Resolved.{SignatureLaws}
use beacon_mcp.Updates.Signed.{Vouched, apply_update-signed}
use beacon_mcp.Updates.Watchdog.{
  Machine, Arguments, Outcome, no_return, watchdog, rollback_unhealthy,
}
use beacon_mcp.Updates.Watchdog.Ends.{MachineLaws, watchdog_ends}

record Box : Type 0 where
  head : Text
  restarts : ℕ

abbrev says : Text → Box → Ran × Box
says out w = (record { succeeded = true; out = out }, w)

-- One commit, 2, is ahead of the checkout at 1, and it alone is signed. `starts` says whether it starts.
abbrev run_git : GitCommand → Box → Ran × Box
run_git rev_parse_head w = says w.head w
run_git (merge_ff sha) w = says [] (record w { head = sha })
run_git (reset_hard sha) w = says [] (record w { head = sha })
run_git (rev_list sha) w = says (codes "0 1") w
run_git (rev_parse_branch name) w = says (codes "2") w
run_git (verify_commit sha) w = (record { succeeded = sha == codes "2"; out = [] }, w)
run_git _ w = says [] w

abbrev run : Bool → Command → Box → Ran × Box
run starts (git c) w = run_git c w
run starts (systemd_run from to) w = says [] (record w { restarts = w.restarts + 1 })
run starts popen_restart w = says [] (record w { restarts = w.restarts + 1 })
run starts check_startup w = (record { succeeded = starts; out = [] }, w)
run starts _ w = says [] w

abbrev host : Bool → Host Box
host starts = record { exec = run starts; which = λ name w. true; read_status = λ w. none }

run-head :
    (starts : Bool) (c : Command) (w : Box)
    → moves_head c ≡ false
    → (run starts c w).1.head ≡ w.head
run-head starts (git (merge_ff sha)) w h = cc
run-head starts (git (reset_hard sha)) w h = cc
run-head starts (git _) w h = refl
run-head starts _ w h = refl

run_git-restarts : (c : GitCommand) (w : Box) → (run_git c w).1.restarts ≡ w.restarts
run_git-restarts (merge_ff sha) w = refl
run_git-restarts (reset_hard sha) w = refl
run_git-restarts _ w = refl

run-restarts :
    (starts : Bool) (c : Command) (w : Box)
    → restarts_service c ≡ false
    → (run starts c w).1.restarts ≡ w.restarts
run-restarts starts (git c) w h = run_git-restarts c w
run-restarts starts (systemd_run from to) w h = cc
run-restarts starts popen_restart w h = cc
run-restarts starts _ w h = refl

never : {A : Type 0} → true ≡ false → A
never h = absurd (ground (arith, h))

abbrev laws : (starts : Bool) → GitLaws (host starts)
laws starts = record {
  head = λ w. w.head;
  restarts = λ w. w.restarts;
  stays = run-head starts;
  no_restart = run-restarts starts;
  reads = λ w h. refl;
  merges = λ sha w h. inl refl;
  merge_refused = λ sha w h. never h;
  resets = λ sha w h. refl;
  reset_refused = λ sha w h. never h;
}

abbrev checkout : Box
checkout = record { head = codes "1"; restarts = 0 }

abbrev installation : Installation
installation = record {
  kind = git_checkout;
  root = some (codes "/opt/beaconmcp");
  under_systemd = true;
  service = some (codes "beaconmcp");
}

abbrev settings : Settings
settings = record { channel = branch; require_signed = true; health_url = some (codes "http") }

broken_update_rolls_back :
    let (r, w) = apply_update (host false) settings false installation true 5 0 0 checkout in
    (r.succeeded ≡ false) × (r.rolled_back ≡ true) × (w ≡ checkout)
unfolding apply_update working_tree_dirty resolve_target resolve_branch ahead_behind
    verify_signature same_text
broken_update_rolls_back = (refl, refl, refl)

good_update_restarts :
    let (r, w) = apply_update (host true) settings false installation true 5 0 0 checkout in
    (r.succeeded ≡ true) × (w ≡ record { head = codes "2"; restarts = 1 })
unfolding apply_update working_tree_dirty resolve_target resolve_branch ahead_behind
    verify_signature same_text
good_update_restarts = (refl, refl)

apply_update-failed_example :
    let (r, w) = apply_update (host false) settings false installation true 5 0 0 checkout in
    (w.restarts ≡ 0) × ((w.head ≡ codes "1") ⊎ (last_step r.steps ≡ some (step rollback false)))
apply_update-failed_example =
    apply_update-failed (host false) (laws false) settings false installation true 5 0 0 checkout
      broken_update_rolls_back.0

signatures : SignatureLaws (host true)
signatures = record {
  SignedCommit = λ sha. sha ≡ codes "2";
  SignedTag = λ tag sha. tag ≡ [];
  tag_target = λ tag w. [];
  tag_stays = λ c tag w h. refl;
  tag_parsed = λ tag w h. refl;
  commit_checked = λ sha w h. eq_of_true sha (codes "2") h;
  tag_checked = λ tag w own h. sym own;
}

apply_update-signed_example :
    Vouched
      (host true)
      (laws true)
      signatures
      branch
      checkout
      (apply_update (host true) settings false installation true 5 0 0 checkout).1
apply_update-signed_example =
    apply_update-signed (host true) (laws true) signatures settings false installation true 5 0 0
      checkout refl

-- A machine whose service never answers.
record Server : Type 0 where
  time : ℕ
  revision : Text
  status : Option Outcome

abbrev silent : Machine Server
silent = record {
  date = λ w. w.time;
  sleep = λ n w. record w { time = w.time + n };
  answers = λ w. some (false, w);
  ident = λ w. some ([], w);
  restart = λ w. some w;
  rev_parse_head = λ w. w.revision;
  reset_hard = λ sha w. some (true, record w { revision = sha });
  change_dir = λ w. true;
  pip_install = λ w. some w;
  write_status = λ o w. record w { status = some o };
}

silent_laws : MachineLaws silent
silent_laws = record {
  slept = λ n w. omega arith;
  answered = λ w. (_, refl, omega arith);
  identified = λ w. (_, refl, omega arith);
  restarted = λ w. (_, refl);
  reset = λ sha w. (_, refl);
  installed = λ w. (_, refl);
}

abbrev arguments : Arguments
arguments = record { delay = 5; from = codes "1"; to = codes "2"; wait = 4; settle = 2 }

abbrev restarting : Server
restarting = record { time = 0; revision = codes "2"; status = none }

silent_rolls_back :
    watchdog silent arguments restarting
    ≡ ok (
      some rollback_unhealthy,
      record { time = 13; revision = codes "1"; status = some rollback_unhealthy },
    )
unfolding watchdog same_text
silent_rolls_back = refl

watchdog_ends_example :
    (o : Option Outcome × Server) × (watchdog silent arguments restarting ≡ ok o)
watchdog_ends_example = watchdog_ends silent silent_laws arguments restarting

-- A service that never finishes its answer keeps the script from taking the update back.
abbrev dripping : Machine Server
dripping = record silent { answers = λ w. none }

dripping_never_ends : watchdog dripping arguments restarting ≡ err no_return
unfolding watchdog
dripping_never_ends = refl
