-- ===== src/Updates/Rollback.antt =====
-- `apply_update` of updates.py on its failing branches.
use beacon_mcp.Base.{
  ℕ, Bool, true, false, ◌≡◌, refl, sym, ◌∙◌, ◌⊎◌, inl, inr, Option, none, some, List, [], ◌∷◌, ◌++◌,
  arith, nat_eq, Bool-cases, Result-cases, if◌then◌else◌,
}
use beacon_mcp.Base.Text.{Text, take}
use beacon_mcp.Updates.{
  Host, Target, git, resolve_target, verify_signature, ahead_behind, rev_parse_head, pip_install,
  check_startup, merge_ff, reset_hard,
}
use beacon_mcp.Updates.Git.{GitLaws}
use beacon_mcp.Updates.Quiet.{
  Quiet, exec-Quiet, Quiet-trans, resolve_target-Quiet, verify_signature-Quiet, ahead_behind-Quiet,
  self_update_blockers-Quiet,
}
use beacon_mcp.Updates.Apply.{
  Installation, Settings, UpdateStep, UpdateResult, Message, step, rollback, add, dependencies,
  startup, signature, preflight, git_update, fetch, Blocker, update_unless_blocked, install_failed,
  startup_failed, watchdog_in_flight, self_update_blockers, roll_back, restart_service,
  install_and_check, fast_forward, verify_and_move, compare_and_verify, find_target,
  apply_update_locked, apply_update, new_result,
}

-- `steps[-1]`
unfoldable pub last_step : List UpdateStep → Option UpdateStep
last_step [] = none
last_step (s ∷ []) = some s
last_step (s ∷ t ∷ steps) = last_step (t ∷ steps)

last_step-append : (steps : List UpdateStep) (s : UpdateStep) → last_step (steps ++ s ∷ []) ≡ some s
unfolding last_step
last_step-append [] s = refl
last_step-append (t ∷ []) s = refl
last_step-append (t ∷ u ∷ steps) s = last_step-append (u ∷ steps) s

module _ {W : Type 0} (host : Host W) (laws : GitLaws host) where
  open host use {exec}
  open laws use {head, restarts}

  -- What a failed update leaves behind, seen from the state at its start.
  abbrev Unharmed : W → UpdateResult × W → Type 0
  Unharmed w (r, w') =
      r.succeeded ≡ false
      → (restarts w' ≡ restarts w)
        × ((head w' ≡ head w) ⊎ (last_step r.steps ≡ some (step rollback false)))

  roll_back-Unharmed :
      (settings : Settings) (from : Text) (m : Message) (r : UpdateResult) (w0 w : W)
      → head w0 ≡ from
      → restarts w ≡ restarts w0
      → Unharmed w0 (roll_back host settings from m r w)
  unfolding roll_back
  roll_back-Unharmed settings from m r w0 w h k =
      let (reset, w1) = exec (git (reset_hard from)) w in
      ground (
        arith,
        laws.resets from w,
        laws.no_restart (git (reset_hard from)) w refl,
        exec-Quiet host laws pip_install w1 refl refl,
        last_step-append r.steps (step rollback false),
      )

  restart_service-succeeded :
      (settings : Settings) (i : Installation) (wanted : Bool) (delay now : ℕ) (from to : Text)
      (r : UpdateResult) (w : W)
      → (restart_service host settings i wanted delay now from to r w).0.succeeded ≡ true
  unfolding restart_service
  restart_service-succeeded settings i wanted delay now from to r w = ground arith

  install_and_check-Unharmed :
      (settings : Settings) (i : Installation) (wanted : Bool) (delay now : ℕ) (from to : Text)
      (r : UpdateResult) (w0 w : W)
      → head w0 ≡ from
      → restarts w ≡ restarts w0
      → Unharmed w0 (install_and_check host settings i wanted delay now from to r w)
  unfolding install_and_check
  install_and_check-Unharmed settings i wanted delay now from to r w0 w h k =
      let (installed, w1) = exec pip_install w in
      let (started, w2) = exec check_startup w1 in
      let quiet = exec-Quiet host laws pip_install w refl refl in
      let quiet' = exec-Quiet host laws check_startup w1 refl refl in
      let r1 = add dependencies true r in
      elim (Bool-cases installed.succeeded) [
        | inr failed ↦ rw failed (
            roll_back-Unharmed settings from install_failed (add dependencies false r) w0 w1 h
              (quiet.1 ∙ k))
        | inl good ↦ rw good (elim (Bool-cases started.succeeded) [
          | inr failed ↦ rw failed (
              roll_back-Unharmed settings from startup_failed (add startup false r1) w0 w2 h
                (quiet'.1 ∙ quiet.1 ∙ k))
          | inl good' ↦ rw good' (λ e. ground (
            arith,
            restart_service-succeeded settings i wanted delay now from to (add startup true r1) w2,
          ))
        ])
      ]

  fast_forward-Unharmed :
      (settings : Settings) (i : Installation) (wanted : Bool) (delay now : ℕ) (from : Text)
      (t : Target) (r : UpdateResult) (w0 w : W)
      → head w0 ≡ from
      → Quiet host laws w0 w
      → Unharmed w0 (fast_forward host settings i wanted delay now from t r w)
  unfolding fast_forward
  fast_forward-Unharmed settings i wanted delay now from t r w0 w h q =
      let (merged, w1) = exec (git (merge_ff t.sha)) w in
      let (parsed, w2) = exec (git rev_parse_head) w1 in
      let to = if parsed.succeeded then parsed.out else t.sha in
      let quiet = exec-Quiet host laws (git rev_parse_head) w1 refl refl in
      let kept = laws.no_restart (git (merge_ff t.sha)) w refl in
      elim (Bool-cases merged.succeeded) [
        | inr failed ↦ rw failed (λ e. (kept ∙ q.1, inl (laws.merge_refused t.sha w failed ∙ q.0)))
        | inl good ↦ rw good (
            install_and_check-Unharmed settings i wanted delay now from to
              (record (add git_update true r) { to_ref = some (take 12 to) }) w0 w2 h
              (quiet.1 ∙ kept ∙ q.1))
      ]

  verify_and_move-Unharmed :
      (settings : Settings) (compared : Option (ℕ × ℕ)) (i : Installation) (wanted : Bool)
      (delay now : ℕ) (from : Text) (t : Target) (r : UpdateResult) (w0 w : W)
      → head w0 ≡ from
      → Quiet host laws w0 w
      → Unharmed w0 (verify_and_move host settings compared i wanted delay now from t r w)
  unfolding verify_and_move
  verify_and_move-Unharmed settings none i wanted delay now from t r w0 w h q = λ _. (q.1, inl q.0)
  verify_and_move-Unharmed settings (some (ahead, behind)) i wanted delay now from t r w0 w h q =
      let (signed, w') = verify_signature host t w in
      let q' = Quiet-trans host laws w0 w w' q (verify_signature-Quiet host laws t w) in
      elim (Bool-cases (nat_eq behind 0)) [
        | inl same ↦ rw same (λ f. ground arith)
        | inr more ↦ rw more (elim (Bool-cases settings.require_signed) [
          | inr free ↦ rw free (fast_forward-Unharmed settings i wanted delay now from t r w0 w h q)
          | inl must ↦ rw must (elim (Bool-cases signed) [
            | inr bad ↦ rw bad (λ _. (q'.1, inl q'.0))
            | inl good ↦ rw good (
                fast_forward-Unharmed settings i wanted delay now from t (add signature true r) w0
                  w' h q')
          ])
        ])
      ]

  compare_and_verify-Unharmed :
      (settings : Settings) (i : Installation) (wanted : Bool) (delay now : ℕ) (from : Text)
      (t : Target) (r : UpdateResult) (w0 w : W)
      → head w0 ≡ from
      → Quiet host laws w0 w
      → Unharmed w0 (compare_and_verify host settings i wanted delay now from t r w)
  unfolding compare_and_verify
  compare_and_verify-Unharmed settings i wanted delay now from t r w0 w h q =
      let (compared, w') = ahead_behind host t.sha w in
      verify_and_move-Unharmed settings compared i wanted delay now from t r w0 w' h
        (Quiet-trans host laws w0 w w' q (ahead_behind-Quiet host laws t.sha w))

  find_target-Unharmed :
      (settings : Settings) (i : Installation) (wanted : Bool) (delay now : ℕ) (r : UpdateResult)
      (w0 w : W)
      → Quiet host laws w0 w
      → Unharmed w0 (find_target host settings i wanted delay now r w)
  unfolding find_target
  find_target-Unharmed settings i wanted delay now r w0 w q =
      let (head_ran, w1) = exec (git rev_parse_head) w in
      let (found, w2) = resolve_target host settings.channel w1 in
      let q1 =
        Quiet-trans host laws w0 w w1 q (exec-Quiet host laws (git rev_parse_head) w refl refl) in
      let q2 =
        Quiet-trans host laws w0 w1 w2 q1 (resolve_target-Quiet host laws settings.channel w1) in
      elim (Bool-cases head_ran.succeeded) [
        | inr bad ↦ rw bad (λ _. (q1.1, inl q1.0))
        | inl good ↦ rw good (elim (Result-cases found) [
          | inr (e, missing) ↦ rw missing (λ _. (q2.1, inl q2.0))
          | inl (t, known) ↦ rw known (
              compare_and_verify-Unharmed settings i wanted delay now head_ran.out t
                (add fetch true (record r { from_ref = some (take 12 head_ran.out) })) w0 w2
                (sym (laws.reads w good ∙ q.0)) q2)
        ])
      ]

  update_unless_blocked-Unharmed :
      (settings : Settings) (blockers : List Blocker) (i : Installation) (wanted : Bool)
      (delay t0 t1 : ℕ) (w0 w : W)
      → Quiet host laws w0 w
      → Unharmed w0 (update_unless_blocked host settings blockers i wanted delay t0 t1 w)
  unfolding update_unless_blocked
  update_unless_blocked-Unharmed settings (b ∷ bs) i wanted delay t0 t1 w0 w q = λ _. (q.1, inl q.0)
  update_unless_blocked-Unharmed settings [] i wanted delay t0 t1 w0 w q =
      elim (Bool-cases (watchdog_in_flight (host.read_status w) t0)) [
        | inl flying ↦ rw flying (λ _. (q.1, inl q.0))
        | inr free ↦
            rw free (
              find_target-Unharmed settings i wanted delay t1 (add preflight true new_result) w0 w
                q)
      ]

  -- As long as only merges and resets that succeed move HEAD, an update that does not succeed
  -- restarts nothing, and HEAD is where it was unless its last step is a rollback that failed.
  pub apply_update-failed :
      (settings : Settings) (locked : Bool) (i : Installation) (wanted : Bool) (delay t0 t1 : ℕ)
      (w : W)
      → (apply_update host settings locked i wanted delay t0 t1 w).0.succeeded ≡ false
      → let (r, w') = apply_update host settings locked i wanted delay t0 t1 w in
        (restarts w' ≡ restarts w)
        × ((head w' ≡ head w) ⊎ (last_step r.steps ≡ some (step rollback false)))
  unfolding apply_update apply_update_locked
  apply_update-failed settings true i wanted delay t0 t1 w = λ _. (refl, inl refl)
  apply_update-failed settings false i wanted delay t0 t1 w =
      let (blockers, w1) = self_update_blockers host settings i w in
      update_unless_blocked-Unharmed settings blockers i wanted delay t0 t1 w w1
        (self_update_blockers-Quiet host laws settings i w)
