-- ===== src/SelfReload/Boot/Outcome.antt =====
-- What `boot_liveness_commit` of anima/kernel/self_reload.py returns and leaves.
use anima.Systemd.{Stop, stopped, stop_ignored, stop_raises, after_stop}
use anima.Python.{ok, raised, Exn}
use anima.Prelude.{
  true, false, none, some, suc, ℕ, Option, Bool, ◌+◌, ◌≤◌, str_eq, ◌≡◌, ◌<◌, inl, inr, arith,
  Bool-cases, ◌⊎◌, ◌≢◌, eq_of_str_eq, ne_of_str_eq, refl,
}
use anima.AuditChain.Crypto.{Crypto}
use anima.SelfReload.Host.{Pending, whole, broken, ReloadHost, Repo}
use anima.SelfReload.Boot.{
  resolve, BootRun, probe_loop, deadline_of, ReloadOutcome, no_pending, committed, resurrected,
  liveness_failed, judge, boot_liveness_commit,
}
use anima.SelfReload.Boot.Probe.{PassedAt, FailedAt, Decided, probe_loop-Decided}

-- What `boot_liveness_commit` can end in at a pending reload `p`.
abbrev pub Resurrected :
    {k : Crypto} → BootRun → Pending → ReloadOutcome → ReloadHost k → ReloadHost k → Type 0
Resurrected run p o h h' =
    (o ≡ resurrected)
    × (h.head ≡ p.old_sha)
    × (run.disarm ≢ stop_raises)
    × (h' ≡ record h { pending = none; armed = after_stop run.disarm h.armed })

abbrev pub Committed :
    {k : Crypto} → BootRun → Pending → ReloadOutcome → ReloadHost k → ReloadHost k → Type 0
Committed run p o h h' =
    (o ≡ committed)
    × (h.head ≢ p.old_sha)
    × (h.head ≡ p.new_sha)
    × ((j : ℕ) × PassedAt run (deadline_of p) 0 j)
    × (run.disarm ≢ stop_raises)
    × (h' ≡ record h { pending = none; armed = after_stop run.disarm h.armed })

abbrev pub LivenessFailed :
    {k : Crypto} → BootRun → Pending → ReloadOutcome → ReloadHost k → ReloadHost k → Type 0
LivenessFailed run p o h h' =
    (o ≡ liveness_failed)
    × (h.head ≢ p.old_sha)
    × ((h.head ≢ p.new_sha) ⊎ ((j : ℕ) × FailedAt run (deadline_of p) 0 j))
    × (h' ≡ h)

resolve-ok :
    {k : Crypto} (repo : Repo) (run : BootRun) (outcome : ReloadOutcome) (h h' : ReloadHost k)
    (o : ReloadOutcome)
    → resolve repo run outcome h ≡ (ok o, h')
    → (o ≡ outcome)
      × (run.disarm ≢ stop_raises)
      × (h' ≡ record h { pending = none; armed = after_stop run.disarm h.armed })
resolve-ok repo run outcome h h' o e = stop run.disarm refl
  where
    stop :
        (how : Stop)
        → run.disarm ≡ how
        → (o ≡ outcome)
          × (run.disarm ≢ stop_raises)
          × (h' ≡ record h { pending = none; armed = after_stop run.disarm h.armed })
    stop stopped is = (ground (arith, is, e), λ r. ground (arith, is, r), ground (arith, is, e))
    stop stop_ignored is =
        (ground (arith, is, e), λ r. ground (arith, is, r), ground (arith, is, e))
    stop stop_raises is = ground (arith, is, e)

judge-cases :
    {k : Crypto} (repo : Repo) (run : BootRun) (p : Pending) (h h' : ReloadHost k)
    (o : ReloadOutcome) (decision : Option Bool)
    → Decided run (deadline_of p) 0 decision
    → h.head ≢ p.old_sha
    → h.head ≡ p.new_sha
    → judge repo run decision h ≡ (ok o, h')
    → Committed run p o h h' ⊎ LivenessFailed run p o h h'
judge-cases repo run p h h' o none d not_old new e = elim d [ ]
judge-cases repo run p h h' o (some true) d not_old new e =
    let (named, how, left) = resolve-ok repo run committed h h' o e in
    inl (named, not_old, new, d, how, left)
judge-cases repo run p h h' o (some false) d not_old new e =
    inr (ground (arith, e), not_old, inr d, ground (arith, e))

-- With a clock that goes on by two seconds or more in each round of the probe loop, and fuel up to
-- the deadline, a `boot_liveness_commit` that returns at a pending reload has decided it. It returns
-- "resurrected" exactly if the old commit is checked out; "committed" only if the new one is and the
-- probe passed in time; and "liveness_failed" only if a third one is or the probe failed up to the
-- deadline. The first two clear the state file, and the timer unless `systemctl stop` fails unnoticed;
-- the last keeps both, and the source stays as it is.
pub boot_liveness_commit_lem :
    {k : Crypto} (repo : Repo) (run : BootRun) (p : Pending) (h h' : ReloadHost k)
    (o : ReloadOutcome)
    → ((n : ℕ) → run.clock n + 2 ≤ run.clock (suc n))
    → 0 < run.fuel
    → deadline_of p + 2 ≤ run.fuel + run.fuel + run.clock 0
    → h.pending ≡ some (whole p)
    → boot_liveness_commit repo run h ≡ (ok o, h')
    → Resurrected run p o h h' ⊎ Committed run p o h h' ⊎ LivenessFailed run p o h h'
unfolding boot_liveness_commit
boot_liveness_commit_lem repo run p h h' o ticks some_fuel enough has e =
    elim (Bool-cases (str_eq h.head p.old_sha)) [
      | inl old ↦
          let (named, how, left) =
            resolve-ok repo run resurrected h h' o (ground (arith, old, e, has)) in
          inl (named, eq_of_str_eq old, how, left)
      | inr not_old ↦ elim (Bool-cases (str_eq h.head p.new_sha)) [
        | inr neither ↦ inr (
            inr (
              ground (arith, not_old, neither, e, has),
              ne_of_str_eq not_old,
              inl (ne_of_str_eq neither),
              ground (arith, not_old, neither, e, has),
            ))
        | inl new ↦ inr (
            judge-cases repo run p h h' o (probe_loop run (deadline_of p) run.fuel 0)
              (probe_loop-Decided run (deadline_of p) run.fuel 0 ticks some_fuel enough)
              (ne_of_str_eq not_old) (eq_of_str_eq new) (ground (arith, not_old, new, e, has)))
      ]
    ]

module _ {k : Crypto} (repo : Repo) (run : BootRun) (h h' : ReloadHost k) where
  pub boot_liveness_commit-raised :
      (x : Exn) → boot_liveness_commit repo run h ≡ (raised x, h') → h' ≡ h
  unfolding boot_liveness_commit
  boot_liveness_commit-raised x e = ground (arith, e)

  pub boot_liveness_commit-none :
      (o : ReloadOutcome)
      → h.pending ≡ none
      → boot_liveness_commit repo run h ≡ (ok o, h')
      → (o ≡ no_pending) × (h' ≡ h)
  unfolding boot_liveness_commit
  boot_liveness_commit-none o free e = (ground (arith, free, e), ground (arith, free, e))

  pub boot_liveness_commit-broken :
      (o : ReloadOutcome) → h.pending ≡ some broken → boot_liveness_commit repo run h ≢ (ok o, h')
  unfolding boot_liveness_commit
  boot_liveness_commit-broken o torn e = ground (arith, torn, e)
