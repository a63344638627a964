-- ===== src/Updates.antt =====
-- updates.py: what an update would move to. Command names each external program that the module
-- runs, Host is those programs, and the stages up to the choice of the target are here.
pub mod Git
pub mod Quiet
pub mod Apply
pub mod Watchdog
pub mod Rollback
pub mod Resolved
pub mod Signed
mod Tests
use beacon_mcp.Base.{
  ℕ, ◌+◌, ◌*◌, ◌-◌, Bool, true, false, not, ◌&&◌, ◌||◌, Option, none, some, List, [], ◌∷◌, nat_eq,
  if◌then◌else◌, ◌==◌, Result, ok, err, leb, ltb, ◌≡◌, ◌≢◌,
}
use beacon_mcp.Base.Text.{
  Text, text_has_eq, codes, nonempty, is_blank, is_digit, lstrip, strip, split, split_on, isdigit,
  to_nat, starts_with, drop,
}
use beacon_mcp.Clock.{seconds}

-- The calls of `_git`, by their arguments.
pub data GitCommand : Type 0 where
  rev_parse_head : GitCommand  -- rev-parse HEAD
  merge_ff : Text → GitCommand  -- merge --ff-only SHA
  reset_hard : Text → GitCommand  -- reset --hard SHA
  rev_list : Text → GitCommand  -- rev-list --left-right --count HEAD...SHA
  status_porcelain : GitCommand  -- status --porcelain --untracked-files=no
  symbolic_ref : GitCommand  -- symbolic-ref --short refs/remotes/origin/HEAD
  remote_show : GitCommand  -- remote show origin
  fetch_tags : GitCommand  -- fetch ... +refs/tags/v*:refs/beaconmcp/tags/v*
  list_tags : GitCommand  -- for-each-ref --sort=-v:refname --format=%(refname:strip=3)
  rev_parse_tag : Text → GitCommand  -- rev-parse refs/beaconmcp/tags/TAG^{commit}
  fetch_branch : Text → GitCommand  -- fetch --quiet origin BRANCH
  rev_parse_branch : Text → GitCommand  -- rev-parse origin/BRANCH
  tag_object_name : Text → GitCommand  -- for-each-ref --format=%(tag) refs/beaconmcp/tags/TAG
  verify_tag : Text → GitCommand  -- verify-tag refs/beaconmcp/tags/TAG
  verify_commit : Text → GitCommand  -- verify-commit SHA

-- What `_write_status` writes.
pub record Status : Type 0 where
  pub at : Option ℕ  -- none if it is no number
  pub from : Text
  pub to : Text
  pub outcome : Text

pub data Command : Type 0 where
  git : GitCommand → Command
  pip_install : Command
  check_startup : Command
  systemd_run : Text → Text → Command  -- the watchdog, from and to
  popen_restart : Command
  write_status : Status → Command

-- The end of a program: whether its exit status is 0, and its stripped output.
pub record Ran : Type 0 where
  pub succeeded : Bool
  pub out : Text

-- The programs of the host, over its state. `_git` and `_run` never raise.
pub record Host (W : Type 0) : Type 0 where
  pub exec : Command → W → Ran × W
  pub which : Text → W → Bool  -- `shutil.which`
  pub read_status : W → Option Status  -- STATUS_FILE as a JSON object

pub data TargetKind : Type 0 where
  branch : TargetKind
  release : TargetKind

pub record Target : Type 0 where
  pub kind : TargetKind
  pub name : Text
  pub sha : Text

pub data TargetError : Type 0 where
  no_remote : TargetError
  no_tag_list : TargetError
  no_release : TargetError
  unresolved : TargetError

-- `_RELEASE_TAG` after the `v`: digits, in groups between single dots.
unfoldable pub is_version : Bool → Text → Bool
unfolding is_digit
is_version started [] = started
is_version started (c ∷ t) = (is_digit c || (nat_eq c b'.' && started)) && is_version (is_digit c) t

unfoldable pub is_release_tag : Text → Bool
unfolding is_version
is_release_tag [] = false
is_release_tag (c ∷ t) = nat_eq c b'v' && is_version false t

-- `[t for t in out.splitlines() if _RELEASE_TAG.match(t.strip())][0].strip()`
unfoldable pub first_release : List Text → Option Text
unfolding is_release_tag strip
first_release [] = none
first_release (t ∷ lines) = if is_release_tag (strip t) then some (strip t) else first_release lines

unfoldable pub splitlines : Text → List Text
unfolding split_on
splitlines out = split_on (λ c. nat_eq c 10) out

-- The text up to the next blank.
unfoldable pub word : Text → Text
unfolding is_blank
word [] = []
word (c ∷ t) = if is_blank c then [] else c ∷ word t

-- `re.search(r"HEAD branch:\s*(\S+)", out)`
unfoldable pub search_head_branch : Text → Option Text
unfolding starts_with drop lstrip word
search_head_branch [] = none
search_head_branch (c ∷ t) =
    let found = word (lstrip (drop 12 (c ∷ t))) in
    if starts_with (codes "HEAD branch:") (c ∷ t) && nonempty found
    then some found
    else search_head_branch t

-- The two numbers of the output of `rev-list --count`.
unfoldable pub counts : List Text → Option (ℕ × ℕ)
unfolding isdigit to_nat
counts (a ∷ b ∷ []) = if isdigit a && isdigit b then some (to_nat a, to_nat b) else none
counts _ = none

module _ {W : Type 0} (host : Host W) where
  open host use {exec, which, read_status}

  -- `_default_branch`
  unfoldable pub default_branch : W → Text × W
  unfolding starts_with drop search_head_branch
  default_branch w =
      let (head, w1) = exec (git symbolic_ref) w in
      if head.succeeded && starts_with (codes "origin/") head.out
      then (drop 7 head.out, w1)
      else let (shown, w2) = exec (git remote_show) w1 in
        if shown.succeeded
        then (elim (search_head_branch shown.out) [ none ↦ codes "main" | some found ↦ found ], w2)
        else (codes "main", w2)

  -- `working_tree_dirty`
  unfoldable pub working_tree_dirty : W → Bool × W
  working_tree_dirty w =
      let (status, w') = exec (git status_porcelain) w in
      (status.succeeded && nonempty status.out, w')

  -- The release channel of `_resolve_target`.
  unfoldable pub resolve_release : W → Result TargetError Target × W
  unfolding first_release splitlines
  resolve_release w =
      let (fetched, w1) = exec (git fetch_tags) w in
      let (listed, w2) = exec (git list_tags) w1 in
      if not fetched.succeeded
      then (err no_remote, w1)
      else if not listed.succeeded
      then (err no_tag_list, w2)
      else elim (first_release (splitlines listed.out)) [
        | none ↦ (err no_release, w2)
        | some tag ↦
            let (parsed, w3) = exec (git (rev_parse_tag tag)) w2 in
            if not parsed.succeeded
            then (err unresolved, w3)
            else (ok (record { kind = release; name = tag; sha = parsed.out }), w3)
      ]

  -- The branch channel of `_resolve_target`; the target is called `origin/BRANCH`.
  unfoldable pub resolve_branch : W → Result TargetError Target × W
  unfolding default_branch
  resolve_branch w =
      let (name, w1) = default_branch w in
      let (fetched, w2) = exec (git (fetch_branch name)) w1 in
      let (parsed, w3) = exec (git (rev_parse_branch name)) w2 in
      if not fetched.succeeded
      then (err no_remote, w2)
      else if not parsed.succeeded
      then (err unresolved, w3)
      else (ok (record { kind = branch; name = name; sha = parsed.out }), w3)

  -- `_resolve_target`
  unfoldable pub resolve_target : TargetKind → W → Result TargetError Target × W
  resolve_target release w = resolve_release w
  resolve_target branch w = resolve_branch w

  -- `_verify_signature`
  unfoldable pub verify_signature : Target → W → Bool × W
  verify_signature target w = elim target.kind [
    | release ↦
        let (own, w1) = exec (git (tag_object_name target.name)) w in
        let (verified, w2) = exec (git (verify_tag target.name)) w1 in
        if not (own.out == target.name) then (false, w1) else (verified.succeeded, w2)
    | branch ↦
        let (verified, w1) = exec (git (verify_commit target.sha)) w in (verified.succeeded, w1)
  ]

  -- `_ahead_behind`
  unfoldable pub ahead_behind : Text → W → Option (ℕ × ℕ) × W
  unfolding split counts
  ahead_behind sha w =
      let (counted, w') = exec (git (rev_list sha)) w in
      (if counted.succeeded then counts (split counted.out) else none, w')
