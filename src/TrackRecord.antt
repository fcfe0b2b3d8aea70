-- ===== src/TrackRecord.antt =====
-- anima/kernel/track_record.py and the operator track record of anima/db/__init__.py: the earned
-- ladder. A class of operations starts untrusted and graduates after three verified successes.
-- A database table with a primary key of three columns is a function of the key (`Table`).
pub mod State
pub mod Window
pub mod Stored
mod Tests
pub use State.*
use anima.Table.{Table, upsert}
use anima.Prelude.{
  ℕ, ◌+◌, String, Bool, true, false, not, ◌&&◌, ◌||◌, Option, none, some, ◌==◌, leb, is_none, ltb,
  if◌then◌else◌, List, [], ◌∷◌,
}

abbrev pub graduation_threshold : ℕ
graduation_threshold = 3

-- What one scan cycle observed: the keyword arguments of `_advance_state`.
pub record Cycle : Type 0 where
  pub anomaly_present : Bool
  pub branch_merged : Bool
  pub fix_branch : Option String
  pub fix_sha : Option String
  pub now : ℕ

-- `_advance_state`
unfoldable pub advance_state : TrackRecordState → Cycle → TrackRecordState
advance_state s c =
    if not c.branch_merged
    then s
    else if c.anomaly_present
    then record s {
      pending_since = none;
      last_outcome = some "merged_regressed";
      last_fix_branch = c.fix_branch;
      last_fix_sha = c.fix_sha;
    }
    else if is_none s.pending_since || not (option_str_eq s.last_fix_branch c.fix_branch)
    then record s {
      pending_since = some c.now;
      last_fix_branch = c.fix_branch;
      last_fix_sha = c.fix_sha;
      last_outcome = some "merged_pending_stability";
    }
    else let verified = s.verified_successes + 1 in
      record s {
        verified_successes = verified;
        graduated = s.graduated || leb graduation_threshold verified;
        pending_since = none;
        last_outcome = some "merged_resolved";
      }

-- A row of `autonomy_track_record`; SQLite stores the flag as an integer.
pub record Row : Type 0 where
  pub verified_successes : ℕ
  pub graduated : ℕ
  pub last_outcome : Option String
  pub last_fix_branch : Option String
  pub last_fix_sha : Option String
  pub pending_since : Option ℕ
  pub updated_at : ℕ

-- `int(flag)` and `bool(number)`
abbrev pub int_of_bool : Bool → ℕ
int_of_bool true = 1
int_of_bool false = 0

abbrev pub bool_of_int : ℕ → Bool
bool_of_int n = ltb 0 n

-- `_row_to_state`
unfoldable pub row_to_state : Row → TrackRecordState
row_to_state row = record {
  verified_successes = row.verified_successes;
  graduated = bool_of_int row.graduated;
  last_outcome = row.last_outcome;
  last_fix_branch = row.last_fix_branch;
  last_fix_sha = row.last_fix_sha;
  pending_since = row.pending_since;
}

abbrev pub state_of_row : Option Row → TrackRecordState
state_of_row none = fresh
state_of_row (some row) = row_to_state row

unfoldable pub get_track_record : Table Row → String → String → String → TrackRecordState
unfolding row_to_state
get_track_record db user_id repo_root domain = state_of_row (db user_id repo_root domain)

-- The row that the `INSERT … ON CONFLICT DO UPDATE` of `update_track_record` leaves.
abbrev pub row_of_state : TrackRecordState → ℕ → Row
row_of_state s now = record {
  verified_successes = s.verified_successes;
  graduated = int_of_bool s.graduated;
  last_outcome = s.last_outcome;
  last_fix_branch = s.last_fix_branch;
  last_fix_sha = s.last_fix_sha;
  pending_since = s.pending_since;
  updated_at = now;
}

-- The new table beside the state that the function returns.
unfoldable pub update_track_record :
    Table Row → String → String → String → Cycle → Table Row × TrackRecordState
unfolding get_track_record advance_state
update_track_record db user_id repo_root domain c =
    let current = get_track_record db user_id repo_root domain in
    let next = advance_state current c in
    if state_eq next current
    then (db, next)
    else (upsert db user_id repo_root domain (row_of_state next c.now), next)

-- A row of `operator_track_record`: it has no branch column.
pub record OperatorRow : Type 0 where
  pub verified_successes : ℕ
  pub graduated : ℕ
  pub last_outcome : Option String
  pub last_target_sha : Option String
  pub pending_since : Option ℕ
  pub updated_at : ℕ

abbrev pub state_of_operator_row : Option OperatorRow → TrackRecordState
state_of_operator_row none = fresh
state_of_operator_row (some row) = record {
  verified_successes = row.verified_successes;
  graduated = bool_of_int row.graduated;
  last_outcome = row.last_outcome;
  last_fix_branch = none;
  last_fix_sha = row.last_target_sha;
  pending_since = row.pending_since;
}

unfoldable pub get_operator_track_record :
    Table OperatorRow → String → String → String → TrackRecordState
get_operator_track_record db user_id operation_class target =
    state_of_operator_row (db user_id operation_class target)

abbrev pub operator_row_of_state : TrackRecordState → ℕ → OperatorRow
operator_row_of_state s now = record {
  verified_successes = s.verified_successes;
  graduated = int_of_bool s.graduated;
  last_outcome = s.last_outcome;
  last_target_sha = s.last_fix_sha;
  pending_since = s.pending_since;
  updated_at = now;
}

-- The cycle that one operation outcome counts as.
abbrev pub operator_cycle : Bool → ℕ → Cycle
operator_cycle verified now = record {
  anomaly_present = not verified;
  branch_merged = true;
  fix_branch = none;
  fix_sha = none;
  now = now;
}

unfoldable pub update_operator_track_record :
    Table OperatorRow → String → String → String → Bool → ℕ → Table OperatorRow × TrackRecordState
unfolding get_operator_track_record advance_state
update_operator_track_record db user_id operation_class target verified now =
    let current = get_operator_track_record db user_id operation_class target in
    let next = advance_state current (operator_cycle verified now) in
    if state_eq next current
    then (db, next)
    else (upsert db user_id operation_class target (operator_row_of_state next now), next)

-- One class of operations over a sequence of scan cycles.
unfoldable pub advance_all : TrackRecordState → List Cycle → TrackRecordState
advance_all s [] = s
advance_all s (c ∷ cs) = advance_all (advance_state s c) cs
