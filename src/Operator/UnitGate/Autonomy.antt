-- ===== src/Operator/UnitGate/Autonomy.antt =====
-- When the unit topology gate of anima/kernel/operator.py acts by itself, and its floor.
use anima.Python.{
  ok, Action, ◌>>=◌, pure, raised, map-ok, Exn, Outcome-cases, unit_topology_error,
  unit_topology_refusal,
}
use anima.Prelude.{
  true, false, some, String, List, Option, ℕ, ◌≡◌, Bool, inl, inr, arith, sym, ◌≢◌, or_default, ap,
  ◌⊎◌, ◌∙◌, Option-cases,
}
use anima.Arch.{UnitTopologyManager}
use anima.Operator.Contract.{OperationResult, ReversibleOperation}
use anima.Operator.UnitTopology.{
  unit_action, unit_op, author, delete, enable, disable, set_default, UnitSnapshot,
}
use anima.Operator.UnitTopology.Floor.{is_floor_protected}
use anima.Operator.Kernel.{Kernel, Environment, run_and_record}
use anima.Operator.Kernel.Recording.{Recorded, run_and_record-ok}
use anima.Operator.UnitGate.{
  UnitTopologyOutcome, operate_on_unit_topology, execute_approved_unit_action, unit_may_auto_apply,
  change_and_record, change_on_host, new_action, applied_unit_outcome, unit_class, String, List,
  Option, ℕ, Action, Bool, pure, or_default, UnitSnapshot,
}

module _ {W : Type 0} (env : Environment W) (user_id unit_name op : String) (floor : List String)
    (mgr : Option (UnitTopologyManager W)) (unit_content target_name : Option String)
    (now : Option ℕ) where
  abbrev operate : Action (Kernel W) UnitTopologyOutcome
  operate = operate_on_unit_topology env user_id unit_name op floor mgr unit_content target_name now

  abbrev execute : Action (Kernel W) OperationResult
  execute =
      execute_approved_unit_action env user_id unit_name op floor mgr unit_content target_name now

  abbrev allowed : Kernel W → Bool
  allowed = unit_may_auto_apply env user_id unit_name op floor mgr unit_content target_name now

  abbrev construct : Action W (ReversibleOperation W UnitSnapshot)
  construct = new_action env user_id unit_name op floor mgr unit_content target_name now

  -- The constructor leaves the host alone.
  construct-state : (w : W) → (construct w).1 ≡ w
  unfolding unit_action
  construct-state w = ground arith

  construct-cases :
      (w : W)
      → ((a : ReversibleOperation W UnitSnapshot) × (construct w ≡ (ok a, w)))
        ⊎ ((e : Exn) × (construct w ≡ (raised e, w)))
  construct-cases w = elim (Outcome-cases (construct w).0) [
    | inl (a, h) ↦ inl (a, ground (arith, h, construct-state w))
    | inr (e, h) ↦ inr (e, ground (arith, h, construct-state w))
  ]

  abbrev change : Action (Kernel W) OperationResult
  change = change_and_record env user_id unit_name op floor mgr unit_content target_name now

  -- Without permission the gate changes nothing, whether it proposes or refuses.
  unit_gate_idle :
      (k : Kernel W)
      → allowed k ≡ false
      → ((operate k).1 ≡ k)
        × ((o : UnitTopologyOutcome)
            → (operate k).0 ≡ ok o
            → (o.auto_applied ≡ false) × (o.proposed ≡ true) × (o.proposed_op ≡ some op))
  unfolding operate_on_unit_topology
  unit_gate_idle k h = elim (construct-cases k.host) [
    | inl (a, c) ↦ (
      ground (arith, c, h),
      λ o e. (ground (arith, c, h, e), ground (arith, c, h, e), ground (arith, c, h, e)),
    )
    | inr (x, c) ↦ (
      ground (arith, c, h),
      λ o e. (ground (arith, c, h, e), ground (arith, c, h, e), ground (arith, c, h, e)),
    )
  ]

  unit_gate_runs :
      (k k' : Kernel W) (o : UnitTopologyOutcome)
      → operate k ≡ (ok o, k')
      → allowed k ≡ true
      → (change >>= λ r. pure (applied_unit_outcome r)) k ≡ (ok o, k')
  unfolding operate_on_unit_topology
  unit_gate_runs k k' o h e = elim (construct-cases k.host) [
    | inl (a, c) ↦ ground (arith, c, h, e)
    | inr (x, c) ↦ ground (arith, c, h, e)
  ]

  -- Unless the operation is no boot-graph one, the unit operator is enabled, the unit is allowlisted
  -- and the operation has graduated, `operate_on_unit_topology` changes nothing, and what it returns
  -- is a proposal of the operation: a boot-graph operation is never applied by itself.
  pub operate_on_unit_topology_proposes :
      (k k' : Kernel W) (o : UnitTopologyOutcome)
      → operate k ≡ (ok o, k')
      → allowed k ≡ false
      → (k' ≡ k) × (o.auto_applied ≡ false) × (o.proposed ≡ true) × (o.proposed_op ≡ some op)
  operate_on_unit_topology_proposes k k' o h e =
      let (same, what) = unit_gate_idle k e in
      let (not_applied, proposes, named) = what o (ap (λ x. x.0) h) in
      (sym (ap (λ x. x.1) h) ∙ same, not_applied, proposes, named)

  -- With all four conditions, a call of `operate_on_unit_topology` that returns has applied the
  -- operation, reports its result, and has advanced the track record of the operation by it.
  pub operate_on_unit_topology_records :
      (k k' : Kernel W) (o : UnitTopologyOutcome)
      → operate k ≡ (ok o, k')
      → allowed k ≡ true
      → (o.auto_applied ≡ true)
        × (o.proposed ≡ false)
        × (r : OperationResult) × (o.operation_result ≡ some r)
        × Recorded user_id (unit_class op) unit_name (or_default now env.clock) k k' r.verified
  operate_on_unit_topology_records k k' o h e =
      let (r, ran, done) = map-ok change applied_unit_outcome k k' o (unit_gate_runs k k' o h e) in
      (
        ap (λ (x : UnitTopologyOutcome). x.auto_applied) done,
        ap (λ (x : UnitTopologyOutcome). x.proposed) done,
        r,
        ap (λ (x : UnitTopologyOutcome). x.operation_result) done,
        (run_and_record-ok user_id (unit_class op) unit_name (or_default now env.clock)
            (change_on_host env user_id unit_name op floor mgr unit_content target_name now) k k' r
            ran).1,
      )

  construct-refused :
      (w : W)
      → is_floor_protected unit_name floor ≡ true
      → unit_op op ≢ some set_default
      → (e : Exn) × (construct w ≡ (raised e, w))
  unfolding unit_action
  construct-refused w protected other = elim (Option-cases (unit_op op)) [
    | inl e ↦ (unit_topology_error, rw e)
    | inr (author, e) ↦ (unit_topology_refusal, ground (arith, e, protected))
    | inr (delete, e) ↦ (unit_topology_refusal, ground (arith, e, protected))
    | inr (enable, e) ↦ (unit_topology_refusal, ground (arith, e, protected))
    | inr (disable, e) ↦ (unit_topology_refusal, ground (arith, e, protected))
    | inr (set_default, e) ↦ absurd (other e)
  ]

  -- A unit in the floor closure is never touched: whatever is enabled, allowlisted and graduated,
  -- the autonomous gate and the owner-approved path leave the host and the database as they were,
  -- and neither returns a result. (The name given to "set_default" is a target, with an allowlist of
  -- its own.)
  pub floor_unit_untouched :
      (k : Kernel W)
      → is_floor_protected unit_name floor ≡ true
      → unit_op op ≢ some set_default
      → ((operate k).1 ≡ k)
        × ((execute k).1 ≡ k)
        × ((o : UnitTopologyOutcome) → (operate k).0 ≡ ok o → o.auto_applied ≡ false)
        × ((r : OperationResult) → (execute k).0 ≢ ok r)
  unfolding operate_on_unit_topology execute_approved_unit_action run_and_record change_on_host
  floor_unit_untouched k protected other =
      let (e, c) = construct-refused k.host protected other in
      (
        ground (arith, c),
        ground (arith, c),
        λ o h. ground (arith, c, h),
        λ r h. ground (arith, c, h),
      )
