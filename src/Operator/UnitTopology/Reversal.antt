-- ===== src/Operator/UnitTopology/Reversal.antt =====
-- What a unit topology action of anima/kernel/unit_topology.py leaves behind.
use anima.Python.{ok, bind-ok, map-ok}
use anima.Prelude.{
  true, false, none, some, String, Option, ◌≡◌, Bool, inl, inr, arith, ap, Bool-cases, ◌⊎◌, ◌∙◌,
  refl, ◌≢◌, sym,
}
use anima.Arch.{UnitTopologyManager}
use anima.Operator.Contract.{
  OperationResult, kept, rolled_back, run_reversible_operation, run_contract-Ran,
}
use anima.Operator.UnitTopology.{
  UnitOp, author, delete, enable, disable, set_default, UnitSnapshot, unit_operation, capture_unit,
  apply_unit, verify_unit, restore_unit, put_content_back, String, Option, Bool,
}

-- The contract of `UnitTopologyManager`: what a unit file holds, whether the unit is enabled, and
-- the default target; queries, `daemon_reload` and `analyze_verify` change none of them.
pub record IsUnitTopologyManager {W : Type 0} (m : UnitTopologyManager W) : Type 0 where
  pub content : W → String → Option String
  pub enabled : W → String → Bool
  pub default_target : W → String
  pub read_unit_ok : (w : W) (u : String) → m.read_unit u w ≡ (ok (content w u), w)
  pub is_enabled_ok : (w : W) (u : String) → m.is_enabled u w ≡ (ok (enabled w u), w)
  pub get_default_ok : (w : W) → m.get_default w ≡ (ok (default_target w), w)
  -- Whether `systemctl enable` has something to do for the unit: its file lies in a unit directory
  -- and has an `[Install]` section. Enabling and disabling do not change that.
  pub can_enable : W → String → Bool
  pub enable_keeps : (w : W) (u : String) → can_enable (m.enable u w).1 u ≡ can_enable w u
  pub disable_keeps : (w : W) (u : String) → can_enable (m.disable u w).1 u ≡ can_enable w u
  pub author_ok :
      (w w' : W) (u c : String) → m.author_unit u c w ≡ (ok tt, w') → content w' u ≡ some c
  pub delete_ok : (w w' : W) (u : String) → m.delete_unit u w ≡ (ok tt, w') → content w' u ≡ none
  pub enable_ok :
      (w w' : W) (u : String)
      → can_enable w u ≡ true
      → m.enable u w ≡ (ok tt, w')
      → enabled w' u ≡ true
  pub disable_ok : (w w' : W) (u : String) → m.disable u w ≡ (ok tt, w') → enabled w' u ≡ false
  pub set_default_ok :
      (w w' : W) (t : String) → m.set_default t w ≡ (ok tt, w') → default_target w' ≡ t
  pub reload_keeps : (w : W) (u : String) → content (m.daemon_reload w).1 u ≡ content w u
  pub analyze_keeps :
      (w : W) (u : String)
      → (content (m.analyze_verify w).1 u ≡ content w u)
        × (enabled (m.analyze_verify w).1 u ≡ enabled w u)
        × (can_enable (m.analyze_verify w).1 u ≡ can_enable w u)
        × (default_target (m.analyze_verify w).1 ≡ default_target w)

-- The part of the host that an operation is about.
pub data Concern : Type 0 where
  content_is : Option String → Concern
  enabled_is : Bool → Concern
  default_is : String → Concern

-- What the operation is to bring about.
abbrev pub wanted : UnitOp → String → String → Concern
wanted author content target = content_is (some content)
wanted delete content target = content_is none
wanted enable content target = enabled_is true
wanted disable content target = enabled_is false
wanted set_default content target = default_is target

-- The operations that enable the unit, or enable it again when they are rolled back.
abbrev pub rests_on_enable : UnitOp → Bool
rests_on_enable enable = true
rests_on_enable disable = true
rests_on_enable op = false

module _ {W : Type 0} (m : UnitTopologyManager W) (law : IsUnitTopologyManager m)
    (unit_name : String) where
  abbrev pub concern : UnitOp → W → Concern
  concern author w = content_is (law.content w unit_name)
  concern delete w = content_is (law.content w unit_name)
  concern enable w = enabled_is (law.enabled w unit_name)
  concern disable w = enabled_is (law.enabled w unit_name)
  concern set_default w = default_is (law.default_target w)

  -- What a snapshot says of it.
  abbrev captured_concern : UnitOp → UnitSnapshot → Concern
  captured_concern author s = content_is s.prior_content
  captured_concern delete s = content_is s.prior_content
  captured_concern enable s = enabled_is s.prior_enabled
  captured_concern disable s = enabled_is s.prior_enabled
  captured_concern set_default s = default_is s.prior_default_target

  apply-wanted :
      (op : UnitOp) (content target : String) (w w' : W)
      → (rests_on_enable op ≡ true → law.can_enable w unit_name ≡ true)
      → apply_unit m unit_name op content target w ≡ (ok tt, w')
      → concern op w' ≡ wanted op content target
  apply-wanted author content target w w' can h =
      let (u, t, did, after) =
        bind-ok (m.author_unit unit_name content) (λ _. m.daemon_reload) w h in
      let wrote = law.author_ok w t unit_name content did in
      ap content_is (ground (arith, law.reload_keeps t unit_name, after, wrote))
  apply-wanted delete content target w w' can h =
      let (u, t, did, after) = bind-ok (m.delete_unit unit_name) (λ _. m.daemon_reload) w h in
      let gone = law.delete_ok w t unit_name did in
      ap content_is (ground (arith, law.reload_keeps t unit_name, after, gone))
  apply-wanted enable content target w w' can h =
      ap enabled_is (law.enable_ok w w' unit_name (can refl) h)
  apply-wanted disable content target w w' can h = ap enabled_is (law.disable_ok w w' unit_name h)
  apply-wanted set_default content target w w' can h =
      ap default_is (law.set_default_ok w w' target h)

  apply-can_enable :
      (op : UnitOp) (content target : String) (w : W)
      → rests_on_enable op ≡ true
      → law.can_enable (apply_unit m unit_name op content target w).1 unit_name
        ≡ law.can_enable w unit_name
  apply-can_enable author content target w e = ground (arith, e)
  apply-can_enable delete content target w e = ground (arith, e)
  apply-can_enable enable content target w e = law.enable_keeps w unit_name
  apply-can_enable disable content target w e = law.disable_keeps w unit_name
  apply-can_enable set_default content target w e = ground (arith, e)

  verify_unit-passed :
      (w w' : W)
      → verify_unit m unit_name w ≡ (ok true, w')
      → (output : String) × ((m.analyze_verify w).0 ≡ ok (true, output))
  verify_unit-passed w w' h =
      let (r, ran, good) = map-ok m.analyze_verify (λ r. r.0) w w' true h in
      (r.1, ap (λ x. x.0) ran ∙ ap (λ a. ok (a, r.1)) (sym good))

  passed-verify_unit :
      (w : W) (output : String)
      → (m.analyze_verify w).0 ≡ ok (true, output)
      → verify_unit m unit_name w ≡ (ok true, (verify_unit m unit_name w).1)
  passed-verify_unit w output h = ground (arith, h)

  verify_unit-state : (w : W) → (verify_unit m unit_name w).1 ≡ (m.analyze_verify w).1
  verify_unit-state w = ground arith

  verify-keeps : (op : UnitOp) (w : W) → concern op (verify_unit m unit_name w).1 ≡ concern op w
  verify-keeps op w = rw verify_unit-state (same op)
    where
      same : (op : UnitOp) → concern op (m.analyze_verify w).1 ≡ concern op w
      same author = ap content_is (law.analyze_keeps w unit_name).0
      same delete = ap content_is (law.analyze_keeps w unit_name).0
      same enable = ap enabled_is (law.analyze_keeps w unit_name).1
      same disable = ap enabled_is (law.analyze_keeps w unit_name).1
      same set_default = ap default_is (law.analyze_keeps w unit_name).3

  capture-snapshot :
      (w w' : W) (s : UnitSnapshot)
      → capture_unit m unit_name w ≡ (ok s, w')
      → (s.prior_content ≡ law.content w unit_name)
        × (s.prior_enabled ≡ law.enabled w unit_name)
        × (s.prior_default_target ≡ law.default_target w)
        × (w' ≡ w)
  capture-snapshot w w' s h =
      ground
        (arith, law.read_unit_ok w unit_name, law.is_enabled_ok w unit_name, law.get_default_ok w)

  capture-concern :
      (op : UnitOp) (w w' : W) (s : UnitSnapshot)
      → capture_unit m unit_name w ≡ (ok s, w')
      → captured_concern op s ≡ concern op w
  capture-concern author w w' s h = ap content_is (capture-snapshot w w' s h).0
  capture-concern delete w w' s h = ap content_is (capture-snapshot w w' s h).0
  capture-concern enable w w' s h = ap enabled_is (capture-snapshot w w' s h).1
  capture-concern disable w w' s h = ap enabled_is (capture-snapshot w w' s h).1
  capture-concern set_default w w' s h = ap default_is (capture-snapshot w w' s h).2

  put_content_back-content :
      (c : Option String) (w w' : W)
      → put_content_back m unit_name c w ≡ (ok tt, w')
      → content_is (law.content w' unit_name) ≡ content_is c
  put_content_back-content none w w' h = apply-wanted delete "" "" w w' (λ e. ground (arith, e)) h
  put_content_back-content (some c) w w' h =
      apply-wanted author c "" w w' (λ e. ground (arith, e)) h

  restore-concern :
      (op : UnitOp) (content target : String) (w w' : W) (s : UnitSnapshot)
      → restore_unit m unit_name op s w ≡ (ok tt, w')
      → concern op w ≡ wanted op content target
      → (rests_on_enable op ≡ true → law.can_enable w unit_name ≡ true)
      → concern op w' ≡ captured_concern op s
  restore-concern author c t w w' s h e can = put_content_back-content s.prior_content w w' h
  restore-concern delete c t w w' s h e can = put_content_back-content s.prior_content w w' h
  restore-concern enable c t w w' s h e can = elim (Bool-cases s.prior_enabled) [
    | inl on ↦ ground (arith, on, h, e)
    | inr off ↦ ap enabled_is (law.disable_ok w w' unit_name (ground (arith, off, h)) ∙ sym off)
  ]
  restore-concern disable c t w w' s h e can = elim (Bool-cases s.prior_enabled) [
    | inl on ↦
        ap enabled_is (law.enable_ok w w' unit_name (can refl) (ground (arith, on, h)) ∙ sym on)
    | inr off ↦ ground (arith, off, h, e)
  ]
  restore-concern set_default c t w w' s h e can =
      ap default_is (law.set_default_ok w w' s.prior_default_target h)

  -- What the analysis of the whole configuration said when the operation had been carried out: the
  -- action is kept if it passed, and rolled back if it did not.
  abbrev pub Analysed : UnitOp → String → String → OperationResult → Type 0
  Analysed op content target r =
      (v : W) × (concern op v ≡ wanted op content target)
      × (((r ≡ kept) × ((output : String) × ((m.analyze_verify v).0 ≡ ok (true, output))))
          ⊎ ((r ≡ rolled_back) × ((output : String) → (m.analyze_verify v).0 ≢ ok (true, output))))

  -- With a unit manager that keeps its contract, and a unit that can be enabled where the operation
  -- enables or disables it, a unit topology action that returns has either brought about what the
  -- operation is for, or was rolled back, and what the operation is about (the unit file, whether
  -- the unit is enabled, the default target) is as it was before; it was kept exactly if the whole
  -- configuration, with the operation carried out, passed its analysis.
  pub unit_action_keeps_or_restores :
      (op : UnitOp) (content target : String) (w w' : W) (r : OperationResult)
      → (rests_on_enable op ≡ true → law.can_enable w unit_name ≡ true)
      → run_reversible_operation (unit_operation m unit_name op content target) w ≡ (ok r, w')
      → (((r ≡ kept) × (concern op w' ≡ wanted op content target))
          ⊎ ((r ≡ rolled_back) × (concern op w' ≡ concern op w)))
        × Analysed op content target r
  unfolding run_reversible_operation
  unit_action_keeps_or_restores op content target w w' r can h =
      let ran =
        run_contract-Ran (capture_unit m unit_name) (apply_unit m unit_name op content target)
          (verify_unit m unit_name) (restore_unit m unit_name op) w w' r h in
      let start = (capture-snapshot w ran.captured ran.snapshot ran.capture_ran).3 in
      let can_apply : rests_on_enable op ≡ true → law.can_enable ran.captured unit_name ≡ true =
        λ e. ap (λ x. law.can_enable x unit_name) start ∙ can e in
      let done = apply-wanted op content target ran.captured ran.changed can_apply ran.apply_ran in
      let can_undo : rests_on_enable op ≡ true → law.can_enable ran.checked unit_name ≡ true = λ e.
        ap (λ x. law.can_enable x unit_name) (ran.verify_ran ∙ verify_unit-state ran.changed)
        ∙ (law.analyze_keeps ran.changed unit_name).2
        ∙ ap (λ x. law.can_enable x.1 unit_name) (sym ran.apply_ran)
        ∙ apply-can_enable op content target ran.captured e
        ∙ can_apply e in
      let checked = ap (concern op) ran.verify_ran ∙ verify-keeps op ran.changed ∙ done in
      elim ran.how [
        | inl (rk, good, e) ↦ (
          inl (rk, ap (concern op) e ∙ checked),
          (ran.changed, done, inl (rk, verify_unit-passed ran.changed ran.checked good)),
        )
        | inr (rr, bad, undone) ↦ (
          inr (
            rr,
            restore-concern op content target ran.checked w' ran.snapshot undone checked can_undo
                ∙ capture-concern op w ran.captured ran.snapshot ran.capture_ran,
          ),
          (
            ran.changed,
            done,
            inr (
              rr,
              λ output p. bad (
                  passed-verify_unit ran.changed output p
                  ∙ ap (λ x. (ok true, x)) (sym ran.verify_ran)),
            ),
          ),
        )
      ]
