-- ===== src/Limits/Lockout/Tests.antt =====
-- The lockout of ratelimit.py at concrete inputs.
use beacon_mcp.Base.{
  ℕ, ◌≤◌, String, ◌≡◌, refl, false, not, ◌||◌, ◌&&◌, none, some, List, [], ◌∷◌, ◌++◌, arith, leb,
  length,
}
use beacon_mcp.Base.Dict.{lookup}
use beacon_mcp.Clock.{seconds}
use beacon_mcp.Limits.Lockout.{
  by_client, TotpLockout, default_lockout, memory_cap, src_key, is_known_good, locked,
  record_success,
}
use beacon_mcp.Limits.Lockout.Spec.{failed, passed, History, streak, after}
use beacon_mcp.Limits.Lockout.Known.{passes, passed_lately, locked-passed_lately}
use beacon_mcp.Limits.Lockout.Memory.{others-cannot_lock}

abbrev two_wrong : History
two_wrong =
    (seconds 20, failed "owner" (some "1.2.3.4"))
    ∷ (seconds 10, failed "owner" (some "1.2.3.4"))
    ∷ []

abbrev came_in : History
came_in = (seconds 5, passed "owner" (some "5.6.7.8")) ∷ []

locked-passed_lately_example :
    (locked "owner" (some "5.6.7.8") (seconds 30) (after default_lockout (two_wrong ++ came_in))).0
    ≡ (leb 5 (
          streak
            (seconds 300)
            (src_key "owner" (some "5.6.7.8"))
            (seconds 30)
            (two_wrong ++ came_in))
        || (not (
              passed_lately
                (seconds 2592000)
                (src_key "owner" (some "5.6.7.8"))
                (seconds 30)
                (two_wrong ++ came_in))
            && leb 10
                (streak (seconds 300) (by_client "owner") (seconds 30) (two_wrong ++ came_in))))
unfolding passes
locked-passed_lately_example =
    locked-passed_lately default_lockout refl refl "owner" (some "5.6.7.8") (seconds 30)
      (two_wrong ++ came_in) (refl, (refl, (refl, tt))) (omega arith)

others-cannot_lock_example :
    (locked "owner" (some "5.6.7.8") (seconds 30) (after default_lockout (two_wrong ++ came_in))).0
    ≡ false
unfolding lookup beacon_mcp.Limits.Lockout.same_key src_key after beacon_mcp.Base.Dict.insert streak
others-cannot_lock_example =
    others-cannot_lock default_lockout "owner" (some "5.6.7.8") (seconds 30) came_in
      (seconds 2592005) two_wrong refl (refl, (refl, tt)) (refl, (refl, (refl, tt))) (omega arith)
      refl (omega arith)
