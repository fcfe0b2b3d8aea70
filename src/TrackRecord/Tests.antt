-- ===== src/TrackRecord/Tests.antt =====
-- Concrete runs of the ladder of anima/kernel/track_record.py.
use anima.TrackRecord.{
  Cycle, operator_cycle, advance_all, advance_state, get_operator_track_record, Row, OperatorRow,
}
use anima.TrackRecord.State.{fresh, TrackRecordState, option_str_eq}
use anima.TrackRecord.Window.{graduation_is_earned, resolved_count}
use anima.TrackRecord.Stored.{record_outcomes, record_outcomes-advance_all, six_verified_graduate}
use anima.Table.{Table}
use anima.Prelude.{map, [], ◌∷◌, refl, true, false, none, some, ℕ, List, ◌≡◌, ◌≤◌, ◌↔◌, Bool}

abbrev at_time : ℕ → Cycle
at_time t = operator_cycle true t

abbrev six_cycles : List Cycle
six_cycles = at_time 1 ∷ at_time 2 ∷ at_time 3 ∷ at_time 4 ∷ at_time 5 ∷ at_time 6 ∷ []

abbrev regressed_cycles : List Cycle
regressed_cycles = operator_cycle false 7 ∷ operator_cycle false 8 ∷ []

abbrev veteran : TrackRecordState
veteran = record {
  verified_successes = 3;
  graduated = true;
  last_outcome = some "merged_resolved";
  last_fix_branch = none;
  last_fix_sha = none;
  pending_since = none;
}

abbrev no_rows : Table Row
no_rows a b c = none

abbrev no_operator_rows : Table OperatorRow
no_operator_rows a b c = none

six_cycles_graduate : (advance_all fresh six_cycles).graduated ≡ true
unfolding advance_all advance_state option_str_eq
six_cycles_graduate = refl

graduation_is_earned_example :
    (((advance_all fresh six_cycles).graduated ≡ true)
      ↔ (3 ≤ (advance_all fresh six_cycles).verified_successes))
    × ((advance_all fresh six_cycles).graduated ≡ true → 6 ≤ resolved_count six_cycles)
graduation_is_earned_example = graduation_is_earned six_cycles

abbrev mixed_outcomes : List (Bool × ℕ)
mixed_outcomes = (true, 1) ∷ (false, 2) ∷ (true, 3) ∷ []

record_outcomes-advance_all_example :
    get_operator_track_record
      (record_outcomes no_operator_rows "owner" "file_edit" "/etc/motd" mixed_outcomes)
      "owner"
      "file_edit"
      "/etc/motd"
    ≡ advance_all
        (get_operator_track_record no_operator_rows "owner" "file_edit" "/etc/motd")
        (map (λ o. operator_cycle o.0 o.1) mixed_outcomes)
record_outcomes-advance_all_example =
    record_outcomes-advance_all no_operator_rows "owner" "file_edit" "/etc/motd" mixed_outcomes

six_verified_graduate_example :
    (get_operator_track_record
      (record_outcomes no_operator_rows "owner" "file_edit" "/etc/motd"
        (map (λ (t : ℕ). (true, t)) (1 ∷ 2 ∷ 3 ∷ 4 ∷ 5 ∷ 6 ∷ [])))
      "owner"
      "file_edit"
      "/etc/motd").graduated
    ≡ true
six_verified_graduate_example =
    six_verified_graduate no_operator_rows "owner" "file_edit" "/etc/motd" 1 2 3 4 5 6
