-- ===== src/Updates/Signed.antt =====
-- `require_signed` of updates.py: where HEAD can come to be.
use beacon_mcp.Base.{
  ℕ, Bool, true, false, ◌≡◌, refl, sym, ◌∙◌, ◌⊎◌, inl, inr, Option, none, some, List, [], ◌∷◌,
  arith, nat_eq, Bool-cases, Result-cases, if◌then◌else◌, is_some,
}
use beacon_mcp.Base.Text.{Text, text_has_eq, take}
use beacon_mcp.Updates.{
  Host, Target, TargetKind, git, rev_parse_head, pip_install, check_startup, merge_ff, reset_hard,
  resolve_target, verify_signature, ahead_behind, popen_restart, systemd_run, write_status,
}
use beacon_mcp.Updates.Git.{GitLaws}
use beacon_mcp.Updates.Quiet.{
  exec-Quiet, resolve_target-Quiet, verify_signature-Quiet, ahead_behind-Quiet,
  self_update_blockers-Quiet,
}
use beacon_mcp.Updates.Resolved.{
  SignatureLaws, IsTrusted, Points, resolve_target-Points, ahead_behind-Points,
  verify_signature-IsTrusted,
}
use beacon_mcp.Updates.Apply.{
  Installation, Settings, Blocker, UpdateResult, Message, scheduled_status, self_update_blockers,
  schedule_restart, roll_back, restart_service, install_and_check, fast_forward, verify_and_move,
  compare_and_verify, find_target, update_unless_blocked, apply_update_locked, apply_update,
  new_result, watchdog_in_flight, add, signature, dependencies, startup, git_update, fetch,
  preflight, install_failed, startup_failed,
}

module _ {W : Type 0} (host : Host W) (laws : GitLaws host) (signatures : SignatureLaws host) where
  open host use {exec}
  open laws use {head}

  -- HEAD is the one of `w0` or the target's commit.
  abbrev Lands : W → Text → W → Type 0
  Lands w0 sha w = (head w ≡ head w0) ⊎ (head w ≡ sha)

  Lands-step :
      (w0 : W) (sha : Text) (w w' : W) → head w' ≡ head w → Lands w0 sha w → Lands w0 sha w'
  Lands-step w0 sha w w' same (inl back) = inl (same ∙ back)
  Lands-step w0 sha w w' same (inr there) = inr (same ∙ there)

  roll_back-Lands :
      (settings : Settings) (from sha : Text) (m : Message) (r : UpdateResult) (w0 w : W)
      → head w0 ≡ from
      → Lands w0 sha w
      → Lands w0 sha (roll_back host settings from m r w).1
  unfolding roll_back
  roll_back-Lands settings from sha m r w0 w h k =
      let w1 = (exec (git (reset_hard from)) w).1 in
      ground (
        arith,
        laws.resets from w,
        laws.reset_refused from w,
        exec-Quiet host laws pip_install w1 refl refl,
      )

  schedule_restart-head :
      (settings : Settings) (watchdog : Option (Text × Text)) (w : W)
      → head (schedule_restart host settings watchdog w).1 ≡ head w
  unfolding schedule_restart
  schedule_restart-head settings none w = ground (arith, laws.stays popen_restart w refl)
  schedule_restart-head settings (some (from, to)) w =
      let run_w = (exec (systemd_run from to) w).1 in
      ground (
        arith,
        laws.stays popen_restart w refl,
        laws.stays (systemd_run from to) w refl,
        laws.stays popen_restart run_w refl,
      )

  restart_service-head :
      (settings : Settings) (i : Installation) (wanted : Bool) (delay now : ℕ) (from to : Text)
      (r : UpdateResult) (w : W)
      → head (restart_service host settings i wanted delay now from to r w).1 ≡ head w
  unfolding restart_service
  restart_service-head settings i wanted delay now from to r w =
      let watchdog : Option (Text × Text) =
        if is_some settings.health_url then some (from, to) else none in
      let (mode, w1) = schedule_restart host settings watchdog w in
      ground (
        arith,
        schedule_restart-head settings watchdog w,
        laws.stays (write_status (scheduled_status host settings from to mode now)) w1 refl,
      )

  install_and_check-Lands :
      (settings : Settings) (i : Installation) (wanted : Bool) (delay now : ℕ) (from to sha : Text)
      (r : UpdateResult) (w0 w : W)
      → head w0 ≡ from
      → Lands w0 sha w
      → Lands w0 sha (install_and_check host settings i wanted delay now from to r w).1
  unfolding install_and_check
  install_and_check-Lands settings i wanted delay now from to sha r w0 w h k =
      let w1 = (exec pip_install w).1 in
      let w2 = (exec check_startup w1).1 in
      let r1 = add dependencies true r in
      let q1 = exec-Quiet host laws pip_install w refl refl in
      let q2 = exec-Quiet host laws check_startup w1 refl refl in
      ground (
        arith,
        q1,
        q2,
        roll_back-Lands settings from sha install_failed (add dependencies false r) w0 w1 h
            (Lands-step w0 sha w w1 q1.0 k),
        roll_back-Lands settings from sha startup_failed (add startup false r1) w0 w2 h
            (Lands-step w0 sha w w2 (q2.0 ∙ q1.0) k),
        restart_service-head settings i wanted delay now from to (add startup true r1) w2,
      )

  fast_forward-Lands :
      (settings : Settings) (i : Installation) (wanted : Bool) (delay now : ℕ) (from : Text)
      (t : Target) (r : UpdateResult) (w0 w : W)
      → head w0 ≡ from
      → head w ≡ head w0
      → Lands w0 t.sha (fast_forward host settings i wanted delay now from t r w).1
  unfolding fast_forward
  fast_forward-Lands settings i wanted delay now from t r w0 w h k =
      let (merged, w1) = exec (git (merge_ff t.sha)) w in
      let (parsed, w2) = exec (git rev_parse_head) w1 in
      let to = if parsed.succeeded then parsed.out else t.sha in
      elim (Bool-cases merged.succeeded) [
        | inr failed ↦ rw failed (inl (laws.merge_refused t.sha w failed ∙ k))
        | inl good ↦ rw good (
            install_and_check-Lands settings i wanted delay now from to t.sha
              (record (add git_update true r) { to_ref = some (take 12 to) }) w0 w2 h
              (Lands-step w0 t.sha w1 w2 (laws.stays (git rev_parse_head) w1 refl)
                (elim (laws.merges t.sha w good) [
                  | inl there ↦ inr there
                  | inr idle ↦ inl (idle ∙ k)
                ])))
      ]

  -- HEAD is where it was, or the commit of a target on the channel that a trusted key vouches for.
  abbrev pub Vouched : TargetKind → W → W → Type 0
  Vouched channel w0 w =
      (head w ≡ head w0)
      ⊎ ((t : Target) × (t.kind ≡ channel) × IsTrusted host signatures t × (head w ≡ t.sha))

  verify_and_move-Vouched :
      (settings : Settings) (compared : Option (ℕ × ℕ)) (i : Installation) (wanted : Bool)
      (delay now : ℕ) (from : Text) (t : Target) (r : UpdateResult) (w0 w : W)
      → settings.require_signed ≡ true
      → head w0 ≡ from
      → head w ≡ head w0
      → t.kind ≡ settings.channel
      → Points host signatures t w
      → Vouched settings.channel w0
          (verify_and_move host settings compared i wanted delay now from t r w).1
  unfolding verify_and_move
  verify_and_move-Vouched settings none i wanted delay now from t r w0 w must h k on points = inl k
  verify_and_move-Vouched settings (some (ahead, behind)) i wanted delay now from t r w0 w must h k
        on points =
      let (signed, w') = verify_signature host t w in
      let k' = (verify_signature-Quiet host laws t w).0 ∙ k in
      rw must (elim (Bool-cases (nat_eq behind 0)) [
        | inl same ↦ rw same (inl k)
        | inr more ↦ rw more (elim (Bool-cases signed) [
          | inr bad ↦ rw bad (inl k')
          | inl good ↦
              rw good
                (elim (fast_forward-Lands settings i wanted delay now from t (add signature true r)
                  w0 w' h k') [
                    | inl back ↦ inl back
                    | inr there ↦ inr (
                      t,
                      on,
                      verify_signature-IsTrusted host signatures t.kind t.name t.sha w points good,
                      there,
                    )
                  ])
        ])
      ])

  find_target-Vouched :
      (settings : Settings) (i : Installation) (wanted : Bool) (delay now : ℕ) (r : UpdateResult)
      (w0 w : W)
      → settings.require_signed ≡ true
      → head w ≡ head w0
      → Vouched settings.channel w0 (find_target host settings i wanted delay now r w).1
  unfolding find_target compare_and_verify
  find_target-Vouched settings i wanted delay now r w0 w must k =
      let (head_ran, w1) = exec (git rev_parse_head) w in
      let (found, w2) = resolve_target host settings.channel w1 in
      let k1 = laws.stays (git rev_parse_head) w refl ∙ k in
      let k2 = (resolve_target-Quiet host laws settings.channel w1).0 ∙ k1 in
      elim (Bool-cases head_ran.succeeded) [
        | inr bad ↦ rw bad (inl k1)
        | inl good ↦ rw good (elim (Result-cases found) [
          | inr (e, missing) ↦ rw missing (inl k2)
          | inl (t, known) ↦ rw known (
              let (compared, w3) = ahead_behind host t.sha w2 in
              let (on, points) =
                resolve_target-Points host signatures settings.channel w1 t known in
              verify_and_move-Vouched settings compared i wanted delay now head_ran.out t
                (add fetch true (record r { from_ref = some (take 12 head_ran.out) })) w0 w3 must
                (sym (laws.reads w good ∙ k)) ((ahead_behind-Quiet host laws t.sha w2).0 ∙ k2) on
                (ahead_behind-Points host signatures t.kind t.name t.sha w2 points))
        ])
      ]

  update_unless_blocked-Vouched :
      (settings : Settings) (blockers : List Blocker) (i : Installation) (wanted : Bool)
      (delay t0 t1 : ℕ) (w0 w : W)
      → settings.require_signed ≡ true
      → head w ≡ head w0
      → Vouched settings.channel w0
          (update_unless_blocked host settings blockers i wanted delay t0 t1 w).1
  unfolding update_unless_blocked
  update_unless_blocked-Vouched settings (b ∷ bs) i wanted delay t0 t1 w0 w must k = inl k
  update_unless_blocked-Vouched settings [] i wanted delay t0 t1 w0 w must k =
      elim (Bool-cases (watchdog_in_flight (host.read_status w) t0)) [
        | inl flying ↦ rw flying (inl k)
        | inr free ↦ rw free (
            find_target-Vouched settings i wanted delay t1 (add preflight true new_result) w0 w must
              k)
      ]

  -- As long as only merges and resets that succeed move HEAD, only a fetch of tags moves tags, and
  -- what git verifies is signed by a trusted key, an update with require_signed leaves HEAD,
  -- however it ends, where it was or at a commit that is vouched for on the channel of the
  -- settings: on the branch channel a commit that a trusted key signed, on the release channel the
  -- commit that a tag points to which a trusted key signed under that very name.
  pub apply_update-signed :
      (settings : Settings) (locked : Bool) (i : Installation) (wanted : Bool) (delay t0 t1 : ℕ)
      (w : W)
      → settings.require_signed ≡ true
      → Vouched settings.channel w (apply_update host settings locked i wanted delay t0 t1 w).1
  unfolding apply_update apply_update_locked
  apply_update-signed settings true i wanted delay t0 t1 w must = inl refl
  apply_update-signed settings false i wanted delay t0 t1 w must =
      let (blockers, w1) = self_update_blockers host settings i w in
      update_unless_blocked-Vouched settings blockers i wanted delay t0 t1 w w1 must
        (self_update_blockers-Quiet host laws settings i w).0
