-- ===== src/Updates/Resolved.antt =====
-- The target of `_resolve_target` and the check of its signature in updates.py: the commit that is
-- merged is the one that the signed tag names.
use beacon_mcp.Base.{
  Bool, true, false, ◌≡◌, refl, ◌∙◌, inl, inr, ok, subst, arith, Bool-cases, Option-cases, ◌==◌,
  eq_of_true,
}
use beacon_mcp.Base.Text.{Text, text_has_eq}
use beacon_mcp.Updates.{
  Host, Target, TargetKind, release, branch, git, Command, fetch_tags, list_tags, rev_parse_tag,
  rev_list, tag_object_name, verify_tag, verify_commit, first_release, splitlines, resolve_release,
  resolve_branch, resolve_target, verify_signature, ahead_behind,
}

abbrev pub moves_tags : Command → Bool
moves_tags (git fetch_tags) = true
moves_tags _ = false

-- `tag_target` is the commit that a tag under refs/beaconmcp/tags points to, which only a fetch of the
-- tags changes and rev-parse reads. What the exit status of the signature checks means: a key that the
-- host trusts signed the commit, or signed that the tag of that very name points to its target.
pub record SignatureLaws {W : Type 0} (host : Host W) : Type 1 where
  pub SignedCommit : Text → Type 0
  pub SignedTag : Text → Text → Type 0
  pub tag_target : Text → W → Text
  pub tag_stays :
      (c : Command) (tag : Text) (w : W)
      → moves_tags c ≡ false
      → tag_target tag (host.exec c w).1 ≡ tag_target tag w
  pub tag_parsed :
      (tag : Text) (w : W)
      → (host.exec (git (rev_parse_tag tag)) w).0.succeeded ≡ true
      → (host.exec (git (rev_parse_tag tag)) w).0.out ≡ tag_target tag w
  pub commit_checked :
      (sha : Text) (w : W)
      → (host.exec (git (verify_commit sha)) w).0.succeeded ≡ true
      → SignedCommit sha
  pub tag_checked :
      (tag : Text) (w : W)
      → (host.exec (git (tag_object_name tag)) w).0.out ≡ tag
      → (host.exec (git (verify_tag tag)) (host.exec (git (tag_object_name tag)) w).1).0.succeeded
        ≡ true
      → SignedTag tag (tag_target tag w)

module _ {W : Type 0} (host : Host W) (signatures : SignatureLaws host) where
  open host use {exec}
  open signatures use {tag_target, tag_stays}

  -- A trusted key signed the target's commit, or a tag of its name that points to this commit.
  abbrev pub IsTrusted : Target → Type 0
  IsTrusted t = elim t.kind as (λ _. Type 0) [
    | branch ↦ signatures.SignedCommit t.sha
    | release ↦ signatures.SignedTag t.name t.sha
  ]

  -- A release has the commit that its tag points to.
  abbrev pub Points : Target → W → Type 0
  Points t w = elim t.kind as (λ _. Type 0) [
    | branch ↦ Unit
    | release ↦ tag_target t.name w ≡ t.sha
  ]

  resolve_release-Points :
      (w : W) (t : Target)
      → (resolve_release host w).0 ≡ ok t
      → (t.kind ≡ release) × (tag_target t.name (resolve_release host w).1 ≡ t.sha)
  unfolding resolve_release
  resolve_release-Points w t =
      let w1 = (exec (git fetch_tags) w).1 in
      let (listed, w2) = exec (git list_tags) w1 in
      elim (Option-cases (first_release (splitlines listed.out))) [
        | inl no_tag ↦ rw no_tag (λ h. ground (arith, h))
        | inr (tag, found) ↦ rw found (λ h.
            ground (
              arith,
              signatures.tag_parsed tag w2,
              tag_stays (git (rev_parse_tag tag)) tag w2 refl,
            ))
      ]

  resolve_branch-branch : (w : W) (t : Target) → (resolve_branch host w).0 ≡ ok t → t.kind ≡ branch
  unfolding resolve_branch
  resolve_branch-branch w t h = ground arith

  pub resolve_target-Points :
      (c : TargetKind) (w : W) (t : Target)
      → (resolve_target host c w).0 ≡ ok t
      → (t.kind ≡ c) × Points t (resolve_target host c w).1
  unfolding resolve_target
  resolve_target-Points release w t h =
      let (is_release, points) = resolve_release-Points w t h in (is_release, rw is_release points)
  resolve_target-Points branch w t h =
      let is_branch = resolve_branch-branch w t h in (is_branch, rw is_branch tt)

  pub ahead_behind-Points :
      (kind : TargetKind) (name sha : Text) (w : W)
      → let t : Target = record { kind = kind; name = name; sha = sha } in
        Points t w → Points t (ahead_behind host sha w).1
  unfolding ahead_behind
  ahead_behind-Points branch name sha w h = tt
  ahead_behind-Points release name sha w h = tag_stays (git (rev_list sha)) name w refl ∙ h

  pub verify_signature-IsTrusted :
      (kind : TargetKind) (name sha : Text) (w : W)
      → let t : Target = record { kind = kind; name = name; sha = sha } in
        Points t w → (verify_signature host t w).0 ≡ true → IsTrusted t
  unfolding verify_signature
  verify_signature-IsTrusted branch name sha w points h = signatures.commit_checked sha w h
  verify_signature-IsTrusted release name sha w points h =
      let own = (exec (git (tag_object_name name)) w).0.out in
      elim (Bool-cases (own == name)) [
        | inl same ↦
            subst (signatures.SignedTag name) points
              (signatures.tag_checked name w (eq_of_true own name same) (ground (arith, same)))
        | inr other ↦ absurd (ground (arith, other))
      ]
