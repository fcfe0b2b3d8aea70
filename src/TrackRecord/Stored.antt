-- ===== src/TrackRecord/Stored.antt =====
-- The persisted track record: `get_track_record` and `update_track_record` of
-- anima/kernel/track_record.py, and their operator versions in anima/db/__init__.py.
use anima.Prelude.{
  refl, true, false, inl, inr, Bool, String, ◌≡◌, Bool-cases, sym, [], ◌∷◌, none, some, arith, ℕ,
  List, map, ◌∙◌, ap,
}
use anima.Table.{Table, same_key, upsert_self, upsert_other}
use anima.TrackRecord.{
  Cycle, Row, OperatorRow, advance_state, advance_all, operator_cycle, get_track_record,
  update_track_record, get_operator_track_record, update_operator_track_record, row_of_state,
  operator_row_of_state, state_of_operator_row, row_to_state, int_of_bool, bool_of_int,
}
use anima.TrackRecord.State.{TrackRecordState, state_eq, state_eq_sound}
use anima.TrackRecord.Window.{two_verified, advance_state-no_branch}

bool_of_int-int_of_bool : (b : Bool) → bool_of_int (int_of_bool b) ≡ b
bool_of_int-int_of_bool true = refl
bool_of_int-int_of_bool false = refl

row_to_state-row_of_state : (s : TrackRecordState) (now : ℕ) → row_to_state (row_of_state s now) ≡ s
unfolding row_to_state
row_to_state-row_of_state s now = ground (arith, bool_of_int-int_of_bool s.graduated)

-- `update_track_record` returns the advanced state of its class, a later `get_track_record` reads
-- that state back, and the record of every other class is as before.
pub update-get_track_record :
    (db : Table Row) (user_id repo_root domain : String) (c : Cycle)
    → let (db', next) = update_track_record db user_id repo_root domain c in
      (next ≡ advance_state (get_track_record db user_id repo_root domain) c)
      × (get_track_record db' user_id repo_root domain ≡ next)
      × ((u r d : String)
          → same_key user_id repo_root domain u r d ≡ false
          → get_track_record db' u r d ≡ get_track_record db u r d)
unfolding update_track_record
update-get_track_record db user_id repo_root domain c =
    let current = get_track_record db user_id repo_root domain in
    let next = advance_state current c in
    elim (Bool-cases (state_eq next current)) [
      | inl e ↦ rw e (refl, sym (state_eq_sound next current e), λ u r d other. refl)
      | inr e ↦ rw e (
        refl,
        rw upsert_self (row_to_state-row_of_state next c.now),
        λ u r d other.
            rw (upsert_other db user_id repo_root domain (row_of_state next c.now) u r d other),
      )
    ]

operator_row-round_trip :
    (s : TrackRecordState) (now : ℕ)
    → s.last_fix_branch ≡ none
    → state_of_operator_row (some (operator_row_of_state s now)) ≡ s
operator_row-round_trip s now h = ground (arith, bool_of_int-int_of_bool s.graduated)

pub operator_record_no_branch :
    (db : Table OperatorRow) (user_id operation_class target : String)
    → (get_operator_track_record db user_id operation_class target).last_fix_branch ≡ none
unfolding get_operator_track_record
operator_record_no_branch db u c t = ground arith

-- `update_operator_track_record` returns the state of its class advanced by the outcome (it loses
-- nothing although its table has no branch column), a later `get_operator_track_record` reads it
-- back, and the record of every other class is as before.
pub update-get_operator_track_record :
    (db : Table OperatorRow) (user_id operation_class target : String) (verified : Bool) (now : ℕ)
    → let (db', next) =
        update_operator_track_record db user_id operation_class target verified now in
      (next
        ≡ advance_state
            (get_operator_track_record db user_id operation_class target)
            (operator_cycle verified now))
      × (get_operator_track_record db' user_id operation_class target ≡ next)
      × ((u c t : String)
          → same_key user_id operation_class target u c t ≡ false
          → get_operator_track_record db' u c t ≡ get_operator_track_record db u c t)
update-get_operator_track_record db user_id operation_class target verified now =
    let current = get_operator_track_record db user_id operation_class target in
    let no_branch = operator_record_no_branch db user_id operation_class target in
    let next = advance_state current (operator_cycle verified now) in
    let kept = advance_state-no_branch current verified now no_branch in
    unfold update_operator_track_record in
    elim (Bool-cases (state_eq next current)) [
      | inl e ↦ rw e (refl, sym (state_eq_sound next current e), λ u c t other. refl)
      | inr e ↦ rw e (
        refl,
        rw upsert_self (operator_row-round_trip next now kept),
        λ u c t other. rw (
            upsert_other db user_id operation_class target (operator_row_of_state next now) u c t
              other),
      )
    ]

-- Any operation outcomes of one class, in order, each with its time.
unfoldable pub record_outcomes :
    Table OperatorRow → String → String → String → List (Bool × ℕ) → Table OperatorRow
record_outcomes db user_id operation_class target [] = db
record_outcomes db user_id operation_class target ((verified, now) ∷ rest) =
    record_outcomes (update_operator_track_record db user_id operation_class target verified now).0
      user_id operation_class target rest

-- The stored record follows the pure ladder: after any outcomes it is the advanced state.
pub record_outcomes-advance_all :
    (db : Table OperatorRow) (user_id operation_class target : String) (os : List (Bool × ℕ))
    → get_operator_track_record
        (record_outcomes db user_id operation_class target os)
        user_id
        operation_class
        target
      ≡ advance_all
          (get_operator_track_record db user_id operation_class target)
          (map (λ o. operator_cycle o.0 o.1) os)
unfolding record_outcomes advance_all
record_outcomes-advance_all db user_id operation_class target [] = refl
record_outcomes-advance_all db user_id operation_class target ((verified, now) ∷ rest) =
    let step = update-get_operator_track_record db user_id operation_class target verified now in
    let db' = (update_operator_track_record db user_id operation_class target verified now).0 in
    record_outcomes-advance_all db' user_id operation_class target rest
    ∙ ap (λ s. advance_all s (map (λ o. operator_cycle o.0 o.1) rest)) (step.1 ∙ step.0)

six_verified :
    (s : TrackRecordState) (a b c d e f : ℕ)
    → s.last_fix_branch ≡ none
    → (advance_all s (map (operator_cycle true) (a ∷ b ∷ c ∷ d ∷ e ∷ f ∷ []))).graduated ≡ true
unfolding advance_all
six_verified s a b c d e f h =
    let s2 = advance_state (advance_state s (operator_cycle true a)) (operator_cycle true b) in
    let s4 = advance_state (advance_state s2 (operator_cycle true c)) (operator_cycle true d) in
    let h2 = two_verified s a b h in
    let h4 = two_verified s2 c d h2.1 in
    let h6 = two_verified s4 e f h4.1 in ground (arith, h2, h4, h6)

-- Six verified outcomes in a row graduate a class, whatever its record was and at whatever times.
pub six_verified_graduate :
    (db : Table OperatorRow) (user_id operation_class target : String) (a b c d e f : ℕ)
    → (get_operator_track_record
        (record_outcomes db user_id operation_class target
          (map (λ (t : ℕ). (true, t)) (a ∷ b ∷ c ∷ d ∷ e ∷ f ∷ [])))
        user_id
        operation_class
        target).graduated
      ≡ true
six_verified_graduate db user_id operation_class target a b c d e f =
    rw record_outcomes-advance_all (
      six_verified (get_operator_track_record db user_id operation_class target) a b c d e f
        (operator_record_no_branch db user_id operation_class target))
