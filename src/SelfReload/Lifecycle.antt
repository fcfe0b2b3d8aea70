-- ===== src/SelfReload/Lifecycle.antt =====
-- Reloads, boots and the revert timer of anima/kernel/self_reload.py over time. The timer's command
-- `rawos-selfreload-revert` is not in the repository: it checks out the commit that it is given,
-- and the timer is then spent.
pub mod Recovery
use anima.Systemd.{Stop, stopped, stop_ignored, stop_raises, after_stop}
use anima.SelfReload.Boot.{committed}
use anima.Python.{ok, raised, Exn, Outcome-cases}
use anima.Prelude.{
  ℕ, Bool, String, none, some, suc, ◌+◌, ◌≢◌, ◌≡◌, ◌⊎◌, ◌≤◌, ◌<◌, refl, inl, inr, arith, ap, ◌∙◌,
  sym,
}
use anima.AuditChain.Crypto.{Crypto}
use anima.SelfReload.Host.{
  file-cases, whole, broken, ReloadHost, Repo, Pending, RevertCommand, SelfReloadSnapshot,
}
use anima.SelfReload.Swap.{
  SwapRun, left_partial, execute_owner_self_reload, execute-parts, Swapped, Left, pending_of,
  arm_and_swap-pending, arm_and_swap-ok, arm_and_swap-raised,
}
use anima.SelfReload.Boot.{BootRun, ReloadOutcome, committed, boot_liveness_commit, deadline_of}
use anima.SelfReload.Boot.Outcome.{
  boot_liveness_commit-none, boot_liveness_commit_lem, boot_liveness_commit-raised,
}

-- The host beside the commit that was last known to serve: the one checked out at first, and then
-- the one of each reload that was committed.
pub record System (k : Crypto) : Type 0 where
  pub host : ReloadHost k
  pub proven : String

abbrev pub proven_after : ReloadOutcome → String → String → String
proven_after committed head proven = head
proven_after _ head proven = proven

-- The clock and the fuel of a boot, as `boot_liveness_commit` needs them.
pub record Paced (run : BootRun) (p : Pending) : Type 0 where
  pub ticks : (n : ℕ) → run.clock n + 2 ≤ run.clock (suc n)
  pub some_fuel : 0 < run.fuel
  pub enough : deadline_of p + 2 ≤ run.fuel + run.fuel + run.clock 0

module _ {k : Crypto} (flag : Bool → k.Json) (repo : Repo) where
  -- A reload may end in any way but with a state file that was written in part. A boot and the
  -- timer may come at any time, in any order, and each call of `systemctl stop` may stop the timer,
  -- raise, or fail unnoticed, but for that of a boot that commits, which does not fail unnoticed.
  pub data Step : System k → System k → Type 0 where
    reload :
        (new_sha state_id : String) (run : SwapRun) (s : System k)
        → run.write ≢ left_partial
        → Step s (record s {
          host = (execute_owner_self_reload flag repo new_sha state_id run s.host).1;
        })
    boot :
        (run : BootRun) (s : System k) (o : ReloadOutcome) (h : ReloadHost k)
        → ((p : Pending) → s.host.pending ≡ some (whole p) → Paced run p)
        → (o ≡ committed → run.disarm ≢ stop_ignored)
        → boot_liveness_commit repo run s.host ≡ (ok o, h)
        → Step s (record { host = h; proven = proven_after o s.host.head s.proven })
    boot_raised :
        (run : BootRun) (s : System k) (x : Exn) (h : ReloadHost k)
        → boot_liveness_commit repo run s.host ≡ (raised x, h)
        → Step s (record s { host = h })
    fire :
        (command : RevertCommand) (s : System k)
        → s.host.armed ≡ some command
        → Step s (record s { host = record s.host { head = command.old_sha; armed = none } })

  pub data Reach : System k → Type 0 where
    start :
        (h : ReloadHost k)
        → h.pending ≡ none
        → h.armed ≡ none
        → Reach (record { host = h; proven = h.head })
    next : (s s' : System k) → Reach s → Step s s' → Reach s'

-- A reload that is under way: the new commit runs, and the timer that goes back is armed.
pub record Trial {k : Crypto} (s : System k) (p : Pending) : Type 0 where
  pub pending : s.host.pending ≡ some (whole p)
  pub old : p.old_sha ≡ s.proven
  pub new : s.host.head ≡ p.new_sha
  pub armed : s.host.armed ≡ some (record { old_sha = s.proven; state_id = p.state_id })

-- Otherwise the proven commit runs, and what is left of an earlier reload goes back to it.
pub record Settled {k : Crypto} (s : System k) : Type 0 where
  pub head : s.host.head ≡ s.proven
  pub whole_file : s.host.pending ≢ some broken
  pub pending : (p : Pending) → s.host.pending ≡ some (whole p) → p.old_sha ≡ s.proven
  pub armed : (c : RevertCommand) → s.host.armed ≡ some c → c.old_sha ≡ s.proven

abbrev pub Safe : {k : Crypto} → System k → Type 0
Safe s = Settled s ⊎ ((p : Pending) × Trial s p)
