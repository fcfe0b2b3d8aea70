-- ===== src/SelfReload/Gate.antt =====
-- `operate_on_self_reload` of anima/kernel/self_reload.py, and what runs at boot: the task
-- `_self_reload_boot_commit_task` of anima/api/app.py, with the two tables it writes.
use anima.SelfReload.Preflight.{Accepts}
use anima.Python.{
  Action, ◌>>=◌, ◌>>◌, pure, raise, gets, other_error, try_except, modify, ok, Outcome,
}
use anima.Prelude.{
  Bool, String, Option, List, ℕ, ◌∷◌, true, false, none, some, if◌then◌else◌, str_eq, ◌≡◌, ◌⊎◌, ◌≢◌,
  refl, inl, inr, arith, Bool-cases, ne_of_str_eq,
}
use anima.Table.{Table}
use anima.TrackRecord.{OperatorRow, get_operator_track_record, update_operator_track_record}
use anima.AuditChain.Crypto.{Crypto}
use anima.SelfReload.Host.{
  PendingFile, whole, broken, Pending, ReloadHost, Repo, git_head, git_master, PendingFile, whole,
}
use anima.SelfReload.Swap.{execute-parts, SwapRun, execute_owner_self_reload}
use anima.SelfReload.Boot.{
  committed, resurrected, liveness_failed, ReloadOutcome, BootRun, boot_liveness_commit,
}

-- A row of `managed_self_reload`.
pub record ReloadRow : Type 0 where
  pub old_sha : String
  pub new_sha : String
  pub outcome : String
  pub autonomous : Bool

-- The host and the tables; the ledger is newest first.
pub record ReloadKernel (k : Crypto) : Type 0 where
  pub operator_track_record : Table OperatorRow
  pub managed_self_reload : List ReloadRow
  pub host : ReloadHost k

pub record SelfReloadOperateOutcome : Type 0 where
  pub auto_applied : Bool
  pub proposed : Bool
  pub new_sha : Option String
  pub reason : String

abbrev reload_proposal : String → String → SelfReloadOperateOutcome
reload_proposal sha reason = record {
  auto_applied = false;
  proposed = true;
  new_sha = some sha;
  reason = reason;
}

abbrev pub ledger_row : Pending → String → ReloadRow
ledger_row p outcome = record {
  old_sha = p.old_sha;
  new_sha = p.new_sha;
  outcome = outcome;
  autonomous = p.autonomous;
}

-- The settings and the names that a call runs under; `state_id` is the fresh uuid.
pub record GateRun : Type 0 where
  pub self_reload_enabled : Bool
  pub source_root : String
  pub state_id : String
  pub swap : SwapRun

-- What can go wrong in the boot task beside the resolution itself.
pub record TaskRun : Type 0 where
  pub boot : BootRun
  pub ledger_raises : Bool
  pub track_raises : Bool
  pub now : ℕ

-- The names that the outcomes have in the ledger; the task records nothing for the others.
unfoldable pub resolution : ReloadOutcome → Option String
resolution committed = some "committed"
resolution resurrected = some "resurrected"
resolution liveness_failed = some "liveness_failed"
resolution _ = none

abbrev autonomous_run : SwapRun → SwapRun
autonomous_run run = record run { autonomous = true }

module _ {k : Crypto} (flag : Bool → k.Json) (repo : Repo) where
  abbrev on_reload_host : {A : Type 0} → Action (ReloadHost k) A → Action (ReloadKernel k) A
  on_reload_host m s = let (r, h) = m s.host in (r, record s { host = h })

  abbrev pub self_reload_graduated : ReloadKernel k → String → String → Bool
  self_reload_graduated s user_id source_root =
      (get_operator_track_record s.operator_track_record user_id "self_reload"
        source_root).graduated

  module _ (run : GateRun) (user_id : String) where
    abbrev reload_when_graduated : String → Bool → Action (ReloadKernel k) SelfReloadOperateOutcome
    reload_when_graduated sha false =
        pure (reload_proposal sha "self_reload operation class not yet graduated")
    reload_when_graduated sha true = do
      on_reload_host
          (execute_owner_self_reload flag repo sha run.state_id (autonomous_run run.swap))
      pure (record {
        auto_applied = true;
        proposed = false;
        new_sha = some sha;
        reason = "armed and swapped to master HEAD (autonomous)";
      })

    abbrev reload_when_enabled : String → Bool → Action (ReloadKernel k) SelfReloadOperateOutcome
    reload_when_enabled sha false = pure (reload_proposal sha "self_reload_enabled=False")
    reload_when_enabled sha true = do
      track ← gets (λ s. self_reload_graduated s user_id run.source_root)
      reload_when_graduated sha track

    unfoldable pub operate_on_self_reload : Action (ReloadKernel k) SelfReloadOperateOutcome
    operate_on_self_reload = do
      old_sha ← on_reload_host (git_head repo)
      new_sha ← on_reload_host (git_master repo)
      if str_eq new_sha old_sha
          then pure (record {
            auto_applied = false;
            proposed = false;
            new_sha = none;
            reason = "master HEAD == current HEAD; nothing to reload";
          })
          else reload_when_enabled new_sha run.self_reload_enabled

  -- `db.record_self_reload_outcome` and the update of the track record, each of which is only
  -- logged if it raises.
  abbrev record_ledger : Bool → Pending → String → Action (ReloadKernel k) Unit
  record_ledger true p outcome = raise other_error
  record_ledger false p outcome =
      modify λ s. record s { managed_self_reload = ledger_row p outcome ∷ s.managed_self_reload }

  abbrev record_track : Bool → String → String → String → ℕ → Action (ReloadKernel k) Unit
  record_track true entity source_root outcome now = raise other_error
  record_track false entity source_root outcome now = modify λ s. record s {
    operator_track_record =
        (update_operator_track_record s.operator_track_record entity "self_reload" source_root
          (str_eq outcome "committed") now).0;
  }

  module _ (run : TaskRun) (entity source_root : String) where
    abbrev pub record_resolution : Pending → Option String → Action (ReloadKernel k) Unit
    record_resolution p none = pure tt
    record_resolution p (some outcome) = do
      try_except (record_ledger run.ledger_raises p outcome) (λ e. pure tt)
      try_except (record_track run.track_raises entity source_root outcome run.now) (λ e. pure tt)

    abbrev task_file : Option PendingFile → Action (ReloadKernel k) Unit
    task_file none = pure tt
    task_file (some broken) = pure tt
    task_file (some (whole p)) = do
      outcome ←
          try_except
            (on_reload_host (boot_liveness_commit repo run.boot) >>= λ o. pure (resolution o))
            (λ e. pure none)
      record_resolution p outcome

    unfoldable pub self_reload_boot_commit_task : Action (ReloadKernel k) Unit
    unfolding resolution
    self_reload_boot_commit_task = do file ← gets (λ s. s.host.pending); task_file file

  -- A call of the gate leaves tables and host as they are unless self-reload is switched on, the
  -- class is graduated, master is another commit than the one checked out and preflight accepts it.
  pub operate_on_self_reload_acts_only_if :
      (run : GateRun) (user_id : String) (s s' : ReloadKernel k)
      (r : Outcome SelfReloadOperateOutcome)
      → operate_on_self_reload run user_id s ≡ (r, s')
      → (s' ≡ s)
        ⊎ ((run.self_reload_enabled ≡ true)
            × (self_reload_graduated s user_id run.source_root ≡ true)
            × (repo.master ≢ s.host.head)
            × Accepts repo s.host.head repo.master)
  unfolding operate_on_self_reload
  operate_on_self_reload_acts_only_if run user_id s s' r e =
      let call =
        execute_owner_self_reload flag repo repo.master run.state_id (autonomous_run run.swap)
          s.host in
      elim (Bool-cases run.self_reload_enabled) [
        | inr off ↦ inl (ground (arith, off, e))
        | inl on ↦ elim (Bool-cases (self_reload_graduated s user_id run.source_root)) [
          | inr ungraduated ↦ inl (ground (arith, on, ungraduated, e))
          | inl graduated ↦ elim (Bool-cases (str_eq repo.master s.host.head)) [
            | inl same ↦ inl (ground (arith, same, e))
            | inr ahead ↦
                elim (execute-parts flag repo repo.master run.state_id (autonomous_run run.swap)
                  s.host call.1 call.0 refl) [
                    | inr (accepted, swapped) ↦ inr (on, graduated, ne_of_str_eq ahead, accepted)
                    | inl (x, failed, kept) ↦
                        inl (ground (arith, on, graduated, ahead, failed, kept, e))
                  ]
          ]
        ]
      ]

  -- Where `boot_liveness_commit` decides a pending reload and both tables can be written, the boot
  -- task ends with the host that it left, one more row, with the reload and its outcome, and an
  -- update of the track record that is verified for "committed" only.
  pub self_reload_boot_commit_task_lem :
      (run : TaskRun) (entity source_root : String) (p : Pending) (s : ReloadKernel k)
      → s.host.pending ≡ some (whole p)
      → run.ledger_raises ≡ false
      → run.track_raises ≡ false
      → (o : ReloadOutcome) (h : ReloadHost k) (outcome : String)
      → boot_liveness_commit repo run.boot s.host ≡ (ok o, h)
      → resolution o ≡ some outcome
      → self_reload_boot_commit_task run entity source_root s ≡ (
        ok tt,
        record {
          host = h;
          managed_self_reload = ledger_row p outcome ∷ s.managed_self_reload;
          operator_track_record =
              (update_operator_track_record s.operator_track_record entity "self_reload" source_root
                (str_eq outcome "committed")
                run.now).0;
        },
      )
  unfolding self_reload_boot_commit_task
  self_reload_boot_commit_task_lem run entity source_root p s has l t o h outcome boots named =
      ground (arith, has, l, t, boots, named)
