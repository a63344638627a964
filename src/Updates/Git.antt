-- ===== src/Updates/Git.antt =====
-- What updates.py relies on of git and systemd: which commands move HEAD, and where to, and which
-- restart the service.
use beacon_mcp.Base.{◌⊎◌, ℕ, Bool, true, false, ◌≡◌}
use beacon_mcp.Base.Text.{Text}
use beacon_mcp.Updates.{
  Host, Command, git, systemd_run, popen_restart, merge_ff, reset_hard, rev_parse_head,
}

abbrev pub moves_head : Command → Bool
moves_head (git (merge_ff sha)) = true
moves_head (git (reset_hard sha)) = true
moves_head _ = false

abbrev pub restarts_service : Command → Bool
restarts_service (systemd_run from to) = true
restarts_service popen_restart = true
restarts_service _ = false

-- `head` is the full commit of HEAD, and `restarts` counts the restarts asked for. A merge that succeeds
-- leaves HEAD alone where HEAD has the commit already.
pub record GitLaws {W : Type 0} (host : Host W) : Type 0 where
  pub head : W → Text
  pub restarts : W → ℕ
  pub stays : (c : Command) (w : W) → moves_head c ≡ false → head (host.exec c w).1 ≡ head w
  pub no_restart :
      (c : Command) (w : W) → restarts_service c ≡ false → restarts (host.exec c w).1 ≡ restarts w
  pub reads :
      (w : W)
      → (host.exec (git rev_parse_head) w).0.succeeded ≡ true
      → (host.exec (git rev_parse_head) w).0.out ≡ head w
  pub merges :
      (sha : Text) (w : W)
      → (host.exec (git (merge_ff sha)) w).0.succeeded ≡ true
      → (head (host.exec (git (merge_ff sha)) w).1 ≡ sha)
        ⊎ (head (host.exec (git (merge_ff sha)) w).1 ≡ head w)
  pub merge_refused :
      (sha : Text) (w : W)
      → (host.exec (git (merge_ff sha)) w).0.succeeded ≡ false
      → head (host.exec (git (merge_ff sha)) w).1 ≡ head w
  pub resets :
      (sha : Text) (w : W)
      → (host.exec (git (reset_hard sha)) w).0.succeeded ≡ true
      → head (host.exec (git (reset_hard sha)) w).1 ≡ sha
  pub reset_refused :
      (sha : Text) (w : W)
      → (host.exec (git (reset_hard sha)) w).0.succeeded ≡ false
      → head (host.exec (git (reset_hard sha)) w).1 ≡ head w
