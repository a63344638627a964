-- ===== src/Updates/Quiet.antt =====
-- The parts of updates.py that only read the checkout.
use beacon_mcp.Base.{false, ◌≡◌, refl, ◌∙◌, inl, inr, arith, Option-cases}
use beacon_mcp.Base.Text.{Text}
use beacon_mcp.Updates.{
  Host, Target, TargetKind, release, branch, git, Command, default_branch, resolve_release,
  resolve_branch, resolve_target, verify_signature, ahead_behind, working_tree_dirty, symbolic_ref,
  remote_show, fetch_tags, list_tags, rev_parse_tag, fetch_branch, rev_parse_branch,
  tag_object_name, verify_tag, verify_commit, rev_list, status_porcelain, first_release, splitlines,
}
use beacon_mcp.Updates.Git.{GitLaws, moves_head, restarts_service}
use beacon_mcp.Updates.Apply.{Installation, Settings, self_update_blockers}

module _ {W : Type 0} (host : Host W) (laws : GitLaws host) where
  open host use {exec}
  open laws use {head, restarts}

  -- Nothing of interest happened between two states.
  abbrev pub Quiet : W → W → Type 0
  Quiet w w' = (head w' ≡ head w) × (restarts w' ≡ restarts w)

  pub exec-Quiet :
      (c : Command) (w : W)
      → moves_head c ≡ false
      → restarts_service c ≡ false
      → Quiet w (exec c w).1
  exec-Quiet c w h r = (laws.stays c w h, laws.no_restart c w r)

  pub Quiet-trans : (u v w : W) → Quiet u v → Quiet v w → Quiet u w
  Quiet-trans u v w p q = (q.0 ∙ p.0, q.1 ∙ p.1)

  default_branch-Quiet : (w : W) → Quiet w (default_branch host w).1
  unfolding default_branch
  default_branch-Quiet w =
      let w1 = (exec (git symbolic_ref) w).1 in
      ground (
        arith,
        exec-Quiet (git symbolic_ref) w refl refl,
        exec-Quiet (git remote_show) w1 refl refl,
      )

  resolve_branch-Quiet : (w : W) → Quiet w (resolve_branch host w).1
  unfolding resolve_branch
  resolve_branch-Quiet w =
      let (name, w1) = default_branch host w in
      let w2 = (exec (git (fetch_branch name)) w1).1 in
      ground (
        arith,
        default_branch-Quiet w,
        exec-Quiet (git (fetch_branch name)) w1 refl refl,
        exec-Quiet (git (rev_parse_branch name)) w2 refl refl,
      )

  resolve_release-Quiet : (w : W) → Quiet w (resolve_release host w).1
  unfolding resolve_release
  resolve_release-Quiet w =
      let w1 = (exec (git fetch_tags) w).1 in
      let (listed, w2) = exec (git list_tags) w1 in
      let parse = λ (tag : Text). exec-Quiet (git (rev_parse_tag tag)) w2 refl refl in
      elim (Option-cases (first_release (splitlines listed.out))) [
        | inl no_tag ↦ rw no_tag (
            ground (
              arith,
              exec-Quiet (git fetch_tags) w refl refl,
              exec-Quiet (git list_tags) w1 refl refl,
            ))
        | inr (tag, found) ↦ rw found (
            ground (
              arith,
              exec-Quiet (git fetch_tags) w refl refl,
              exec-Quiet (git list_tags) w1 refl refl,
              parse tag,
            ))
      ]

  pub resolve_target-Quiet : (c : TargetKind) (w : W) → Quiet w (resolve_target host c w).1
  unfolding resolve_target
  resolve_target-Quiet release w = resolve_release-Quiet w
  resolve_target-Quiet branch w = resolve_branch-Quiet w

  pub verify_signature-Quiet : (t : Target) (w : W) → Quiet w (verify_signature host t w).1
  unfolding verify_signature
  verify_signature-Quiet t w =
      let w1 = (exec (git (tag_object_name t.name)) w).1 in
      ground (
        arith,
        exec-Quiet (git (tag_object_name t.name)) w refl refl,
        exec-Quiet (git (verify_tag t.name)) w1 refl refl,
        exec-Quiet (git (verify_commit t.sha)) w refl refl,
      )

  pub ahead_behind-Quiet : (sha : Text) (w : W) → Quiet w (ahead_behind host sha w).1
  unfolding ahead_behind
  ahead_behind-Quiet sha w = exec-Quiet (git (rev_list sha)) w refl refl

  pub self_update_blockers-Quiet :
      (settings : Settings) (i : Installation) (w : W)
      → Quiet w (self_update_blockers host settings i w).1
  unfolding self_update_blockers working_tree_dirty
  self_update_blockers-Quiet settings i w =
      ground (arith, exec-Quiet (git status_porcelain) w refl refl)
