-- ===== src/SelfReload/Tests.antt =====
-- Concrete reloads of anima/kernel/self_reload.py: from commit "a" to commit "b".
use anima.AuditChain.Log.{chain_written}
use anima.Systemd.{stopped}
use mathlib.Core.Path.{subst}
use anima.TrackRecord.{update_operator_track_record, get_operator_track_record}
use anima.SelfReload.Earned.{committed_rows, self_reload_graduation_is_earned}
use anima.SelfReload.Lifecycle.{System}
use anima.SelfReload.Lifecycle.Recovery.{self_reload_is_recoverable}
use anima.AuditChain.Log.{append}
use anima.SelfReload.Preflight.{preflight_stage}
use anima.Python.{ok, Outcome}
use anima.Prelude.{
  ℕ, Bool, String, [], refl, true, false, none, some, leb, ◌+◌, ◌*◌, ◌≡◌, ◌⊎◌, zero, suc, arith,
  ◌≤◌, ◌≢◌, ◌∷◌, List, map, ◌∙◌, ap, sym,
}
use anima.AuditChain.Crypto.{Crypto}
use anima.SelfReload.Preflight.{nonblank_lines, touches_tier0}
use anima.SelfReload.Host.{whole, ReloadHost, Repo, Pending, RevertCommand, SelfReloadSnapshot}
use anima.SelfReload.Swap.{
  SwapRun, written, reset_failed, reset_done, execute_owner_self_reload, arm_and_swap,
}
use anima.SelfReload.Boot.{BootRun, committed, boot_liveness_commit, probe_loop}
use anima.SelfReload.Boot.Outcome.{Resurrected, Committed, LivenessFailed, boot_liveness_commit_lem}
use anima.SelfReload.Earned.{
  Reach as EarnedReach, next as earned_next, start as fresh_tables, host as host_changes,
  boot as boots,
}
use anima.SelfReload.Lifecycle.{Reach, next, start, reload}
use anima.TrackRecord.Stored.{record_outcomes, six_verified_graduate}
use anima.SelfReload.Gate.{
  ReloadKernel, GateRun, TaskRun, self_reload_boot_commit_task, self_reload_graduated, resolution,
  self_reload_boot_commit_task_lem,
}

abbrev plain : Crypto
plain = record {
  Json = String;
  text = λ s. s;
  canonical = λ seq ts prev payload. prev;
  hash_bytes = λ s. s;
  sign_hex = λ s. s;
  fromhex = λ s. some [];
  verify_sig = λ s b. true;
}

abbrev as_flag : Bool → String
as_flag b = "flag"

abbrev small_repo : Repo
small_repo = record {
  rev_parse_fails = λ ref. false;
  master = "b";
  is_ancestor = λ old new. true;
  diff = λ old new path. some [];
  show = λ sha path. some "";
  digest = λ s. s;
  worktree_fails = λ sha. false;
  imports = λ sha. true;
  smoke_tests = λ sha. true;
}

abbrev idle_host : ReloadHost plain
idle_host = record {
  head = "a";
  pending = none;
  armed = none;
  worktrees = [];
  chain = record { file = none; last_hash = ""; seq = 0; last_ts_ms = 0 };
}

abbrev smooth : SwapRun
smooth = record {
  autonomous = true;
  armed_at = 100;
  write = written;
  arm_raises = false;
  audit_ms = 5;
  audit_write = chain_written;
  reset = reset_done;
  disarm = stopped;
}

abbrev stuck_reset : SwapRun
stuck_reset = record smooth { reset = reset_failed }

abbrev reload_with : SwapRun → Outcome Unit × ReloadHost plain
reload_with run = execute_owner_self_reload as_flag small_repo "b" "id" run idle_host

abbrev trial_host : ReloadHost plain
trial_host = (reload_with smooth).1

abbrev trial : Pending
trial = record { old_sha = "a"; new_sha = "b"; state_id = "id"; armed_at = 100; autonomous = true }

abbrev at_first : SelfReloadSnapshot
at_first = record { old_sha = "a"; new_sha = "b"; state_id = "id" }

-- It answers in the second round.
abbrev healthy : BootRun
healthy = record { probe = λ i. leb 1 i; clock = λ i. 101 + i * 2; disarm = stopped; fuel = 100 }

abbrev kernel_of : ReloadHost plain → ReloadKernel plain
kernel_of h = record { host = h; managed_self_reload = []; operator_track_record = λ _ _ _. none }

smooth_reload : (reload_with smooth).0 ≡ ok tt
unfolding execute_owner_self_reload preflight_stage arm_and_swap append nonblank_lines touches_tier0
smooth_reload = refl

trial_runs : (trial_host.head ≡ "b") × (trial_host.pending ≡ some (whole trial))
unfolding execute_owner_self_reload preflight_stage arm_and_swap append nonblank_lines touches_tier0
trial_runs = (refl, refl)

-- The new version is running, on trial.
abbrev ready_host : ReloadHost plain
ready_host = record idle_host {
  head = "b";
  pending = some (whole trial);
  armed = some (record { old_sha = "a"; state_id = "id" });
}

abbrev settled_host : ReloadHost plain
settled_host = record idle_host { head = "b" }

boot_commits : boot_liveness_commit small_repo healthy ready_host ≡ (ok committed, settled_host)
unfolding boot_liveness_commit probe_loop
boot_commits = refl

clock_ticks : (n : ℕ) → healthy.clock n + 2 ≤ healthy.clock (suc n)
clock_ticks n = omega arith

boot_liveness_commit_lem_example :
    Resurrected healthy trial committed ready_host settled_host
    ⊎ Committed healthy trial committed ready_host settled_host
    ⊎ LivenessFailed healthy trial committed ready_host settled_host
boot_liveness_commit_lem_example =
    boot_liveness_commit_lem small_repo healthy trial ready_host settled_host committed clock_ticks
      (omega arith) (omega arith) refl boot_commits

abbrev gate_run : GateRun
gate_run = record {
  self_reload_enabled = true;
  source_root = "/srv";
  state_id = "id";
  swap = smooth;
}

abbrev task_run : TaskRun
task_run = record { boot = healthy; ledger_raises = false; track_raises = false; now = 7 }

abbrev on_trial : ReloadKernel plain → ReloadKernel plain
on_trial s = record s { host = ready_host }

abbrev commit_once : ReloadKernel plain → ReloadKernel plain
commit_once s =
    (self_reload_boot_commit_task as_flag small_repo task_run "owner" "/srv" (on_trial s)).1

sevens : ℕ → List ℕ
sevens zero = []
sevens (suc n) = 7 ∷ sevens n

commit_all : ℕ → ReloadKernel plain → ReloadKernel plain
commit_all zero s = s
commit_all (suc n) s = commit_all n (commit_once s)

commit_once-track :
    (s : ReloadKernel plain)
    → (commit_once s).operator_track_record
      ≡ (update_operator_track_record s.operator_track_record "owner" "self_reload" "/srv" true 7).0
unfolding resolution
commit_once-track s =
    ap (λ r. r.1.operator_track_record)
      (self_reload_boot_commit_task_lem as_flag small_repo task_run "owner" "/srv" trial
        (on_trial s) refl refl refl committed settled_host "committed" boot_commits refl)

six_commits : ReloadKernel plain
unfolding commit_all
six_commits = commit_all 6 (kernel_of idle_host)

commit_all-track :
    (n : ℕ) (s : ReloadKernel plain)
    → (commit_all n s).operator_track_record
      ≡ record_outcomes s.operator_track_record "owner" "self_reload" "/srv"
          (map (λ (t : ℕ). (true, t)) (sevens n))
unfolding commit_all record_outcomes sevens
commit_all-track zero s = refl
commit_all-track (suc n) s = commit_all-track n (commit_once s) ∙ rw (commit_once-track s) refl

commit_all-Reach :
    (n : ℕ) (s : ReloadKernel plain)
    → EarnedReach as_flag small_repo "owner" "/srv" s
    → EarnedReach as_flag small_repo "owner" "/srv" (commit_all n s)
unfolding commit_all
commit_all-Reach zero s r = r
commit_all-Reach (suc n) s r =
    commit_all-Reach n (commit_once s)
      (earned_next _ _ (earned_next _ _ r (host_changes ready_host s)) (boots task_run _ refl))

six_commits_graduate : self_reload_graduated as_flag small_repo six_commits "owner" "/srv" ≡ true
unfolding six_commits sevens
six_commits_graduate =
    subst (λ t. (get_operator_track_record t "owner" "self_reload" "/srv").graduated ≡ true)
      (sym (commit_all-track 6 (kernel_of idle_host)))
      (six_verified_graduate (λ _ _ _. none) "owner" "self_reload" "/srv" 7 7 7 7 7 7)

self_reload_graduation_is_earned_example : 6 ≤ committed_rows six_commits.managed_self_reload
unfolding six_commits
self_reload_graduation_is_earned_example =
    self_reload_graduation_is_earned as_flag small_repo "owner" "/srv"
      (commit_all 6 (kernel_of idle_host))
      (commit_all-Reach 6 (kernel_of idle_host) (fresh_tables idle_host)) six_commits_graduate

abbrev trial_system : System plain
trial_system = record { host = trial_host; proven = "a" }

trial-Reach : Reach as_flag small_repo trial_system
trial-Reach = next _ _ (start idle_host refl refl) (reload "b" "id" smooth _ (λ e. cc))

self_reload_is_recoverable_example :
    ((c : RevertCommand) → trial_host.armed ≡ some c → c.old_sha ≡ "a")
    × ((trial_host.head ≡ "a") ⊎ (trial_host.armed ≢ none))
self_reload_is_recoverable_example =
    self_reload_is_recoverable as_flag small_repo trial_system trial-Reach
