-- ===== src/ReversibleApply/Tests.antt =====
-- Concrete runs of anima/kernel/reversible_apply.py.
use anima.ReversibleApply.Rollback.{Ended, IsApplyHost, reversible_apply_keeps_or_reverts}
use anima.Python.{ok, raised, Action, other_error, Outcome}
use anima.Prelude.{refl, true, false, arith, String, ◌≡◌, ℕ, sym, ap}
use anima.ReversibleApply.{
  rev_parse, ApplyHost, BashResult, reversible_apply, reverted, not_healthy, gate, after_merge,
  rollback, gate_round, GitCommand, merge_ff_only, reset_hard,
}
use anima.ReversibleApply.Gate.{gate_enough_fuel}

-- The state is the commit that is checked out; the fix is the commit "fix".
abbrev done : String → BashResult
done out = record { exit_code = 0; stdout = out; stderr = "" }

abbrev git : GitCommand → String → Action String BashResult
git rev_parse root head = (ok (done head), head)
git (merge_ff_only branch) root head = (ok (done ""), branch)
git (reset_hard sha) root head = (ok (done ""), sha)

abbrev sick_host : ApplyHost String
sick_host = record {
  supports_reversible_apply = true;
  is_anima_source_tree = λ root w. (ok false, w);
  run_bash = git;
  restart = λ s w. (ok true, w);
  health_check = λ w. (raised other_error, w);
  stripped = λ s. s;
}

unhealthy_run :
    reversible_apply sick_host 3 1 "/srv" "fix" "web" "old"
    ≡ (ok (reverted "old" "fix" not_healthy), "old")
unfolding reversible_apply after_merge rollback gate gate_round
unhealthy_run = refl

gate_enough_fuel_example : gate sick_host 3 1 3 0 "fix" ≡ gate sick_host 3 1 7 0 "fix"
gate_enough_fuel_example = gate_enough_fuel sick_host 3 1 3 7 0 "fix" (omega arith) (omega arith)

sick-IsApplyHost : IsApplyHost sick_host "/srv" "fix" "web"
sick-IsApplyHost = record {
  head = λ w. w;
  tree_keeps = λ w. refl;
  rev_parse_keeps = λ w. refl;
  rev_parse_ok = λ w w' r h good. ground (arith, h);
  merge_failed = λ w w' r h bad. absurd (bad (sym (ap exit_of h)));
  reset_ok = λ w w' r sha h good. sym (ap (λ x. x.1) h);
  restart_keeps = λ w. refl;
}
  where
    exit_of : Outcome BashResult × String → ℕ
    exit_of (ok r, s) = r.exit_code
    exit_of (raised e, s) = 1

reversible_apply_keeps_or_reverts_example :
    Ended sick_host 3 1 "/srv" "fix" "web" sick-IsApplyHost
      (λ w sha. (done "", refl, refl))
      (reverted "old" "fix" not_healthy)
      (sick-IsApplyHost.head "old")
      "old"
reversible_apply_keeps_or_reverts_example =
    reversible_apply_keeps_or_reverts sick_host 3 1 "/srv" "fix" "web" sick-IsApplyHost
      (λ w sha. (done "", refl, refl)) "old" "old" (reverted "old" "fix" not_healthy) unhealthy_run
