-- ===== src/SelfReload/Earned.antt =====
-- How the class "self_reload" graduates: the ledger and the track record over any sequence of gate
-- calls and boots.
use anima.TrackRecord.Stored.{update-get_operator_track_record}
use mathlib.Core.Path.{subst}
use anima.Python.{Outcome-cases}
use anima.SelfReload.Boot.{boot_liveness_commit}
use anima.Table.{same_key}
use anima.SelfReload.Host.{file-cases, Repo, ReloadHost, Pending}
use anima.TrackRecord.{
  advance_state, operator_cycle, update_operator_track_record, get_operator_track_record,
}
use anima.TrackRecord.State.{TrackRecordState}
use anima.SelfReload.Gate.{
  ReloadRow, ReloadKernel, GateRun, operate_on_self_reload, TaskRun, self_reload_boot_commit_task,
  ledger_row, record_resolution, resolution, self_reload_graduated,
}
use anima.Prelude.{
  ℕ, Bool, String, [], ◌∷◌, true, false, none, suc, arith, List, str_eq, if◌then◌else◌, ◌+◌, ◌≤◌,
  is_none, ◌≡◌, ◌⊎◌, refl, some, inl, inr, Option, Bool-cases, ◌∙◌,
}
use anima.AuditChain.Crypto.{Crypto}

abbrev pub is_committed : ReloadRow → Bool
is_committed row = str_eq row.outcome "committed"

unfoldable pub committed_rows : List ReloadRow → ℕ
committed_rows [] = 0
committed_rows (row ∷ rows) =
    if is_committed row then suc (committed_rows rows) else committed_rows rows

-- Two verified outcomes in a row make one verified success; the first of them is pending.
abbrev outcomes_counted : TrackRecordState → ℕ
outcomes_counted s =
    s.verified_successes + s.verified_successes + (if is_none s.pending_since then 0 else 1)

record Earned (s : TrackRecordState) (n : ℕ) : Type 0 where
  counted : outcomes_counted s ≤ n
  graduated : s.graduated ≡ true → 6 ≤ n
  no_branch : s.last_fix_branch ≡ none

Earned-verified :
    (s : TrackRecordState) (now n : ℕ)
    → Earned s n
    → Earned (advance_state s (operator_cycle true now)) (suc n)
unfolding advance_state
Earned-verified s now n e = record {
  counted = ground (arith, e.counted, e.no_branch);
  graduated = λ g. ground (arith, e.counted, e.graduated, e.no_branch, g);
  no_branch = ground (arith, e.no_branch);
}

Earned-failed :
    (s : TrackRecordState) (now n : ℕ)
    → Earned s n
    → Earned (advance_state s (operator_cycle false now)) n
unfolding advance_state
Earned-failed s now n e = record {
  counted = ground (arith, e.counted);
  graduated = λ g. ground (arith, e.graduated, g);
  no_branch = ground (arith, e.no_branch);
}

Earned-more : (s : TrackRecordState) (n m : ℕ) → Earned s n → n ≤ m → Earned s m
Earned-more s n m e more = record {
  counted = omega (arith, e.counted, more);
  graduated = λ g. omega (arith, e.graduated g, more);
  no_branch = e.no_branch;
}

module _ {k : Crypto} (flag : Bool → k.Json) (repo : Repo) (entity source_root : String) where
  -- What can happen to tables and host: a call of the gate, a boot whose ledger can be written, the
  -- update of another class, and anything that changes the host only.
  pub data Step : ReloadKernel k → ReloadKernel k → Type 0 where
    gate :
        (run : GateRun) (s : ReloadKernel k)
        → Step s (operate_on_self_reload flag repo run entity s).1
    boot :
        (run : TaskRun) (s : ReloadKernel k)
        → run.ledger_raises ≡ false
        → Step s (self_reload_boot_commit_task flag repo run entity source_root s).1
    other_class :
        (user_id operation_class target : String) (verified : Bool) (now : ℕ) (s : ReloadKernel k)
        → same_key user_id operation_class target entity "self_reload" source_root ≡ false
        → Step s (record s {
          operator_track_record =
              (update_operator_track_record s.operator_track_record user_id operation_class target
                verified now).0;
        })
    host : (h : ReloadHost k) (s : ReloadKernel k) → Step s (record s { host = h })

  pub data Reach : ReloadKernel k → Type 0 where
    start :
        (h : ReloadHost k)
        → Reach
            (record { host = h; managed_self_reload = []; operator_track_record = λ _ _ _. none })
    next : (s s' : ReloadKernel k) → Reach s → Step s s' → Reach s'

  track : ReloadKernel k → TrackRecordState
  track s = get_operator_track_record s.operator_track_record entity "self_reload" source_root

  gate-tables :
      (run : GateRun) (s : ReloadKernel k)
      → let s' = (operate_on_self_reload flag repo run entity s).1 in
        (s'.operator_track_record ≡ s.operator_track_record)
        × (s'.managed_self_reload ≡ s.managed_self_reload)
  unfolding operate_on_self_reload
  gate-tables run s = ground arith

  -- A boot whose ledger can be written leaves both tables, or writes a row and then records its
  -- outcome or fails to.
  Recorded : TaskRun → ReloadKernel k → ReloadKernel k → Type 0
  Recorded run s s' =
      ((s'.operator_track_record ≡ s.operator_track_record)
        × (s'.managed_self_reload ≡ s.managed_self_reload))
      ⊎ ((p : Pending) × (outcome : String) × (s'.managed_self_reload
            ≡ ledger_row p outcome ∷ s.managed_self_reload)
          × ((s'.operator_track_record ≡ s.operator_track_record)
              ⊎ (s'.operator_track_record
                  ≡ (update_operator_track_record s.operator_track_record entity "self_reload"
                      source_root (str_eq outcome "committed") run.now).0)))

  record_resolution-Recorded :
      (run : TaskRun) (s : ReloadKernel k) (h : ReloadHost k) (p : Pending) (o : Option String)
      → run.ledger_raises ≡ false
      → Recorded run s
          (record_resolution flag repo run entity source_root p o (record s { host = h })).1
  unfolding Recorded
  record_resolution-Recorded run s h p none l = inl (refl, refl)
  record_resolution-Recorded run s h p (some outcome) l = inr (
    p,
    outcome,
    ground (arith, l),
    elim (Bool-cases run.track_raises) [
      | inl raises ↦ inl (ground (arith, l, raises))
      | inr writes ↦ inr (ground (arith, l, writes))
    ],
  )

  boot-Recorded :
      (run : TaskRun) (s : ReloadKernel k)
      → run.ledger_raises ≡ false
      → Recorded run s (self_reload_boot_commit_task flag repo run entity source_root s).1
  unfolding self_reload_boot_commit_task
  boot-Recorded run s l =
      let idle : (h : ReloadHost k) → Recorded run s (record s { host = h }) =
        λ h. unfold Recorded in inl (refl, refl) in
      let task = self_reload_boot_commit_task flag repo run entity source_root s in
      let call = boot_liveness_commit repo run.boot s.host in
      let land : (t : ReloadKernel k) → t ≡ task.1 → Recorded run s t → Recorded run s task.1 =
        λ t e d. subst (Recorded run s) e d in
      elim (file-cases s.host.pending) [
        | inl absent ↦ land s (ground (arith, absent)) (idle s.host)
        | inr (inl torn) ↦ land s (ground (arith, torn)) (idle s.host)
        | inr (inr (p, whole_file)) ↦ elim (Outcome-cases call.0) [
          | inl (o, returned) ↦
              land _ (rw whole_file (ground (arith, returned)))
                (record_resolution-Recorded run s call.1 p (resolution o) l)
          | inr (x, failed) ↦ land _ (rw whole_file (ground (arith, failed))) (idle call.1)
        ]
      ]

  Earned-at : ReloadKernel k → Type 0
  Earned-at s = Earned (track s) (committed_rows s.managed_self_reload)

  Earned-tables :
      (s s' : ReloadKernel k)
      → s'.operator_track_record ≡ s.operator_track_record
      → s'.managed_self_reload ≡ s.managed_self_reload
      → Earned-at s
      → Earned-at s'
  unfolding Earned-at track
  Earned-tables s s' same_track same_ledger e = rw (same_track, same_ledger) e

  Earned-updated :
      (s s' : ReloadKernel k) (p : Pending) (outcome : String) (now : ℕ)
      → s'.managed_self_reload ≡ ledger_row p outcome ∷ s.managed_self_reload
      → s'.operator_track_record
        ≡ (update_operator_track_record s.operator_track_record entity "self_reload" source_root
            (str_eq outcome "committed")
            now).0
      → Earned-at s
      → Earned-at s'
  unfolding Earned-at track committed_rows
  Earned-updated s s' p outcome now ledger table e =
      let step =
        update-get_operator_track_record s.operator_track_record entity "self_reload" source_root
          (str_eq outcome "committed") now in
      let read : track s'
          ≡ advance_state (track s) (operator_cycle (str_eq outcome "committed") now) =
        rw table (step.1 ∙ step.0) in
      rw (read, ledger)
        (elim (Bool-cases (str_eq outcome "committed")) [
          | inl committed ↦ rw committed (Earned-verified (track s) now _ e)
          | inr failed ↦ rw failed (Earned-failed (track s) now _ e)
        ])

  Earned-kept :
      (s s' : ReloadKernel k) (p : Pending) (outcome : String)
      → s'.managed_self_reload ≡ ledger_row p outcome ∷ s.managed_self_reload
      → s'.operator_track_record ≡ s.operator_track_record
      → Earned-at s
      → Earned-at s'
  unfolding Earned-at track committed_rows
  Earned-kept s s' p outcome ledger table e =
      rw (ledger, table) (Earned-more (track s) _ _ e (ground arith))

  Earned-Step : (s s' : ReloadKernel k) → Step s s' → Earned-at s → Earned-at s'
  unfolding Recorded
  Earned-Step _ _ (gate run s) e =
      let (same_track, same_ledger) = gate-tables run s in
      Earned-tables s _ same_track same_ledger e
  Earned-Step _ _ (boot run s l) e = elim (boot-Recorded run s l) [
    | inl (same_track, same_ledger) ↦ Earned-tables s _ same_track same_ledger e
    | inr (p, outcome, ledger, inl same_track) ↦ Earned-kept s _ p outcome ledger same_track e
    | inr (p, outcome, ledger, inr table) ↦ Earned-updated s _ p outcome run.now ledger table e
  ]
  Earned-Step _ _ (other_class u c t verified now s other) e =
      let step = update-get_operator_track_record s.operator_track_record u c t verified now in
      unfold Earned-at track in rw (step.2 entity "self_reload" source_root other) e
  Earned-Step _ _ (host h s) e = Earned-tables s _ refl refl e

  Earned-Reach : (s : ReloadKernel k) → Reach s → Earned-at s
  unfolding Earned-at track committed_rows get_operator_track_record
  Earned-Reach _ (start h) = record {
    counted = omega arith;
    graduated = λ g. ground (arith, g);
    no_branch = refl;
  }
  Earned-Reach _ (next s0 s r step) = Earned-Step s0 s step (Earned-Reach s0 r)

  -- After any sequence of gate calls, boots whose ledger can be written, updates of other classes
  -- and changes of the host, starting with empty tables, self-reload is graduated only if the ledger
  -- holds at least six reloads that were committed.
  pub self_reload_graduation_is_earned :
      (s : ReloadKernel k)
      → Reach s
      → self_reload_graduated flag repo s entity source_root ≡ true
      → 6 ≤ committed_rows s.managed_self_reload
  unfolding track Earned-at
  self_reload_graduation_is_earned s r g = (Earned-Reach s r).graduated g
