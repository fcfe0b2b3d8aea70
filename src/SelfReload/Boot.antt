-- ===== src/SelfReload/Boot.antt =====
-- `boot_liveness_commit` of anima/kernel/self_reload.py. The liveness probe and the clock are
-- sequences, by the round of the loop; the loop runs on fuel.
pub mod Probe
pub mod Outcome
use anima.Systemd.{Stop, stopped, stop_ignored, stop_raises, after_stop, systemctl_stop}
use anima.Python.{◌>>=◌, ◌>>◌, Action, pure, gets, raise, value_error, ok, raised, Exn}
use anima.Prelude.{
  true, false, none, some, zero, suc, ℕ, Option, Bool, ◌+◌, if◌then◌else◌, ◌≤◌, ◌-◌, leb, str_eq,
  ◌≡◌, ◌<◌, not, inl, inr, arith, Bool-cases, ◌⊎◌, ◌≢◌, eq_of_str_eq, ne_of_str_eq,
}
use native.Mathlib.Decide.{ℕ_discrete}
use anima.AuditChain.Crypto.{Crypto}
use anima.SelfReload.Host.{
  Pending, PendingFile, whole, broken, ReloadHost, Repo, git_head, disarm, unlink,
}

-- What the function returns. `still_waiting` is out of fuel.
pub data ReloadOutcome : Type 0 where
  no_pending committed resurrected liveness_failed still_waiting : ReloadOutcome

pub record BootRun : Type 0 where
  pub probe : ℕ → Bool
  pub clock : ℕ → ℕ
  pub disarm : Stop
  pub fuel : ℕ

abbrev pub deadman_delay_s : ℕ
deadman_delay_s = 180

abbrev pub liveness_margin_s : ℕ
liveness_margin_s = 30

abbrev pub deadline_of : Pending → ℕ
deadline_of p = p.armed_at + deadman_delay_s - liveness_margin_s

-- The `while` loop from a round: whether the probe passed, if that was decided.
unfoldable pub probe_loop : BootRun → ℕ → ℕ → ℕ → Option Bool
probe_loop run deadline zero i = none
probe_loop run deadline (suc fuel) i =
    let rest = probe_loop run deadline fuel (suc i) in
    if run.probe i then some true else if leb deadline (run.clock i) then some false else rest

module _ {k : Crypto} (repo : Repo) (run : BootRun) where
  abbrev pub resolve : ReloadOutcome → Action (ReloadHost k) ReloadOutcome
  resolve outcome = do disarm run.disarm; unlink; pure outcome

  abbrev pub judge : Option Bool → Action (ReloadHost k) ReloadOutcome
  judge none = pure still_waiting
  judge (some true) = resolve committed
  judge (some false) = pure liveness_failed

  abbrev boot_pending : Pending → Action (ReloadHost k) ReloadOutcome
  boot_pending p = do
    current_head ← git_head repo
    if str_eq current_head p.old_sha
        then resolve resurrected
        else if not (str_eq current_head p.new_sha)
        then pure liveness_failed
        else judge (probe_loop run (deadline_of p) run.fuel 0)

  abbrev boot_file : Option PendingFile → Action (ReloadHost k) ReloadOutcome
  boot_file none = pure no_pending
  boot_file (some broken) = raise value_error
  boot_file (some (whole p)) = boot_pending p

  unfoldable pub boot_liveness_commit : Action (ReloadHost k) ReloadOutcome
  boot_liveness_commit = do file ← gets (λ h. h.pending); boot_file file
