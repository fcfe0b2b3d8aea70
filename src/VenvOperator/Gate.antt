-- ===== src/VenvOperator/Gate.antt =====
-- What the two entry points of anima/kernel/venv_operator.py do to the live environment.
use anima.Python.{
  ok, raised, Outcome, Exn, Action, ◌>>◌, ◌>>=◌, pure, bind-of-ok, bind-of-raised,
  venv_preflight_error, os_error,
}
use anima.Prelude.{
  true, some, String, ◌≡◌, ◌⊎◌, ap, ◌∙◌, ◌∷◌, refl, false, inl, inr, arith, eq_refl, Bool,
  Bool-cases, sym, none,
}
use mathlib.Core.Path.{subst}
use anima.VenvOperator.{
  VenvHost, VenvRun, VenvSnapshot, VenvDepSpec, VenvOperateOutcome, VenvRow, live_venv, old_venv,
  put, intact, snapshot_of, operate_on_venv, execute_approved_venv_op, preflight_venv,
  record_outcome, applied_row, arm_and_swap_venv, exited,
}
use anima.VenvOperator.Preflight.{Proven, preflight_venv_is_isolated}
use anima.VenvOperator.Swap.{Swapped, NotSwapped, arm_and_swap_venv-Ends}

module _ {V : Type 0} (run : VenvRun V) (dep_spec : VenvDepSpec) (h : VenvHost V) where
  -- The new live environment has imported the application and passed the smoke tests, the former one
  -- is kept, and the timer that brings it back is armed with its state on disk.
  pub record Live (h' : VenvHost V) : Type 0 where
    pub imported : V
    pub imports : run.check_import ≡ exited 0 imported
    pub tested : V
    pub passes : run.smoke ≡ exited 0 tested
    pub live : h'.places live_venv ≡ some tested
    pub old : h'.places (old_venv run.state_id) ≡ h.places live_venv
    pub armed : h'.armed ≡ some run.state_id
    pub before : String
    pub after : String
    pub state : h'.state_file ≡ intact (snapshot_of run.state_id before after)

  -- The live environment is as it was, or nothing is live, the second rename failed, and it is kept
  -- as the old one.
  abbrev pub Kept : VenvHost V → Type 0
  Kept h' =
      (h'.places live_venv ≡ h.places live_venv)
      ⊎ ((run.second_rename_raises ≡ true)
          × (h'.places (old_venv run.state_id) ≡ h.places live_venv))

  abbrev pub Result : {A : Type 0} → Outcome A × VenvHost V → Type 0
  Result {A} result =
      (((o : A) × (result.0 ≡ ok o)) × Live result.1)
      ⊎ (((e : Exn) × (result.0 ≡ raised e)) × Kept result.1)

  Swapped-Live :
      (before after : String) (g h' : VenvHost V)
      → g.places live_venv ≡ h.places live_venv
      → Proven run g
      → Swapped run run.state_id before after g h'
      → Live h'
  unfolding put
  Swapped-Live before after g h' same proven s = record {
    imported = proven.imported;
    imports = proven.imports;
    tested = proven.tested;
    passes = proven.passes;
    live = ap (λ p. p live_venv) s.places ∙ proven.stands;
    old = ap (λ p. p (old_venv run.state_id)) s.places ∙ rw (eq_refl run.state_id) same;
    armed = s.armed;
    before = before;
    after = after;
    state = s.state;
  }

  NotSwapped-Kept :
      (before after : String) (g h' : VenvHost V)
      → g.places live_venv ≡ h.places live_venv
      → Proven run g
      → NotSwapped run run.state_id before after g h'
      → Kept h'
  unfolding put
  NotSwapped-Kept before after g h' same proven s = elim s.left [
    | inl left ↦ inl (ap (λ p. p live_venv) left ∙ same)
    | inr (gone, inl raises) ↦
        inr (raises, ap (λ p. p (old_venv run.state_id)) gone ∙ rw (eq_refl run.state_id) same)
    | inr (gone, inr missing) ↦ ground (arith, missing, proven.stands)
  ]

  swap-Result :
      (before after : String) (g : VenvHost V)
      → g.places live_venv ≡ h.places live_venv
      → Proven run g
      → Result (arm_and_swap_venv run (snapshot_of run.state_id before after) g)
  swap-Result before after g same proven =
      elim (arm_and_swap_venv-Ends run run.state_id before after g) [
        | inl (returned, s) ↦ inl ((tt, returned), Swapped-Live before after g _ same proven s)
        | inr (e, failed, s) ↦ inr ((e, failed), NotSwapped-Kept before after g _ same proven s)
      ]

  then-Result :
      {A B : Type 0} (m : Action (VenvHost V) A) (f : A → B) (g : VenvHost V)
      → Result (m g)
      → Result ((m >>= λ a. pure (f a)) g)
  then-Result m f g (inl ((a, returned), live)) =
      subst Result
        (sym
          (bind-of-ok m (λ a. pure (f a)) {s = g} {s' = (m g).1} (ap (λ o. (o, (m g).1)) returned)))
        (inl ((f a, refl), live))
  then-Result m f g (inr ((e, failed), kept)) =
      subst Result
        (sym (
          bind-of-raised m (λ a. pure (f a)) {s = g} {s' = (m g).1}
            (ap (λ o. (o, (m g).1)) failed)))
        (inr ((e, refl), kept))

  -- Writing the ledger moves nothing.
  recorded-Result :
      (row : VenvRow) (outcome : VenvOperateOutcome) (before after : String) (g : VenvHost V)
      → g.places live_venv ≡ h.places live_venv
      → Proven run g
      → Result (
          (record_outcome run row
              >> (arm_and_swap_venv run (snapshot_of run.state_id before after) >> pure outcome))
            g)
  recorded-Result row outcome before after g same proven =
      let swap = arm_and_swap_venv run (snapshot_of run.state_id before after) in
      let last : Action (VenvHost V) VenvOperateOutcome = swap >> pure outcome in
      elim (Bool-cases run.ledger_raises) [
        | inl fails ↦
            subst Result
              (sym
                (bind-of-ok (record_outcome run row) (λ _. last) {s = g} {s' = g} (rw fails refl)))
              (then-Result swap (λ _. outcome) g (swap-Result before after g same proven))
        | inr works ↦
            let g1 = record g { ledger = row ∷ g.ledger } in
            subst Result
              (sym
                (bind-of-ok (record_outcome run row) (λ _. last) {s = g} {s' = g1} (rw works refl)))
              (then-Result swap (λ _. outcome) g1
                (swap-Result before after g1 same (record {
                  imported = proven.imported;
                  imports = proven.imports;
                  tested = proven.tested;
                  passes = proven.passes;
                  stands = proven.stands;
                })))
      ]

  -- An approved update that returns has put a candidate live that imports the application and passed
  -- the smoke tests, with the former environment kept and the timer that brings it back armed with
  -- its state on disk. One that raises leaves the live environment as it was, unless the second of
  -- the two renames fails: then the former one is kept as the old one.
  pub execute_approved_venv_op_is_recoverable :
      (autonomous : Bool) → Result (execute_approved_venv_op run dep_spec autonomous h)
  unfolding execute_approved_venv_op
  execute_approved_venv_op_is_recoverable autonomous =
      let preflight = preflight_venv run dep_spec in
      let g = (preflight h).1 in
      let outcome : VenvSnapshot → VenvOperateOutcome = λ snap. record {
        auto_applied = true;
        proposed = false;
        reason = "preflight passed; armed and swapped (owner-approved)";
        frozen_hash_after = some snap.frozen_hash_after;
      } in
      let rest : VenvSnapshot → Action (VenvHost V) VenvOperateOutcome = λ snap.
        record_outcome run (applied_row run dep_spec snap autonomous)
        >> (arm_and_swap_venv run snap >> pure (outcome snap)) in
      let (ends, staged) = preflight_venv_is_isolated run dep_spec h in
      let same = staged.elsewhere live_venv refl in
      elim ends [
        | inl (before, after, returned, proven) ↦
            let snap = snapshot_of run.state_id before after in
            subst Result
              (sym (bind-of-ok preflight rest {s = h} {s' = g} (ap (λ o. (o, g)) returned)))
              (recorded-Result (applied_row run dep_spec snap autonomous) (outcome snap) before
                after g same proven)
        | inr (inl (failed, _)) ↦
            subst Result
              (sym (bind-of-raised preflight rest {s = h} {s' = g} (ap (λ o. (o, g)) failed)))
              (inr ((venv_preflight_error, refl), inl same))
        | inr (inr (failed, _)) ↦
            subst Result
              (sym (bind-of-raised preflight rest {s = h} {s' = g} (ap (λ o. (o, g)) failed)))
              (inr ((os_error, refl), inl same))
      ]

  abbrev autonomous_outcome : VenvOperateOutcome → VenvOperateOutcome
  autonomous_outcome outcome = record {
    auto_applied = true;
    proposed = false;
    reason = "preflight passed; armed and swapped to candidate venv (autonomous)";
    frozen_hash_after = none;
  }

  -- The autonomous gate leaves the host as it is, unless it is switched on and its class has
  -- graduated. Then one that returns has put a candidate live that imports the application and passed
  -- the smoke tests, with the former environment kept and the timer that brings it back armed with
  -- its state on disk; one that raises leaves the live environment as it was, unless the second of
  -- the two renames fails: then the former one is kept as the old one.
  pub operate_on_venv_acts_only_if :
      (enabled graduated : Bool)
      → let result = operate_on_venv run enabled graduated dep_spec h in
        (result.1 ≡ h) ⊎ ((enabled ≡ true) × (graduated ≡ true) × Result result)
  unfolding operate_on_venv
  operate_on_venv_acts_only_if false graduated = inl refl
  operate_on_venv_acts_only_if true false = inl refl
  operate_on_venv_acts_only_if true true = inr (
    refl,
    refl,
    then-Result (execute_approved_venv_op run dep_spec true) autonomous_outcome h
        (execute_approved_venv_op_is_recoverable true),
  )
