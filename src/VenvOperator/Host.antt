-- ===== src/VenvOperator/Host.antt =====
-- The state that anima/kernel/venv_operator.py works on, and what can go wrong in a call.
use anima.Systemd.{Stop}
use anima.Prelude.{true, false, String, Bool, Option, ℕ, List, str_eq}

-- `venv`, `.venvs/old-<id>` and `.venvs/candidate-<id>`.
pub data Place : Type 0 where
  live_venv : Place
  old_venv candidate_venv : String → Place

abbrev pub place_eq : Place → Place → Bool
place_eq live_venv live_venv = true
place_eq (old_venv a) (old_venv b) = str_eq a b
place_eq (candidate_venv a) (candidate_venv b) = str_eq a b
place_eq _ _ = false

abbrev pub Places : Type 0 → Type 0
Places V = Place → Option V

pub record VenvSnapshot : Type 0 where
  pub state_id : String
  pub old_place : Place
  pub candidate : Place
  pub frozen_hash_before : String
  pub frozen_hash_after : String

-- The places of one state.
abbrev pub snapshot_of : String → String → String → VenvSnapshot
snapshot_of state_id before after = record {
  state_id = state_id;
  old_place = old_venv state_id;
  candidate = candidate_venv state_id;
  frozen_hash_before = before;
  frozen_hash_after = after;
}

-- `state.json`: none, one that was written in full, or one in part.
pub data StateFile : Type 0 where
  absent torn : StateFile
  intact : VenvSnapshot → StateFile

pub record VenvRow : Type 0 where
  pub op_type : String
  pub frozen_hash_before : String
  pub frozen_hash_after : String
  pub outcome : String
  pub autonomous : Bool

-- The environments by place, the state file, the state that the timer `rawos-venv-revert` goes back
-- from, and the ledger, newest first.
pub record VenvHost (V : Type 0) : Type 0 where
  pub places : Places V
  pub state_file : StateFile
  pub armed : Option String
  pub ledger : List VenvRow

-- How a command on the candidate ends: its exit status and what it leaves, or it cannot be run.
pub data Command (V : Type 0) : Type 0 where
  exited : ℕ → V → Command V
  not_run : Command V

pub data Write : Type 0 where
  written write_fails write_tears : Write

pub record VenvRun (V : Type 0) : Type 0 where
  pub state_id : String
  pub frozen_before : Option String
  pub staging_raises : Bool
  pub create : Command V
  pub install : Command V
  pub check_import : Command V
  pub smoke : Command V
  pub frozen_after : Option String
  pub ledger_raises : Bool
  pub state_dir_raises : Bool
  pub write : Write
  pub arm_raises : Bool
  pub old_dir_raises : Bool
  pub first_rename_raises : Bool
  pub second_rename_raises : Bool
  pub disarm : Stop
  pub candidate_left : Option V
  pub unlink_raises : Bool
  pub reap_raises : Bool
  pub probe : Bool

pub record VenvDepSpec : Type 0 where
  pub requirements : List String
  pub op_type : String

pub record VenvOperateOutcome : Type 0 where
  pub auto_applied : Bool
  pub proposed : Bool
  pub reason : String
  pub frozen_hash_after : Option String

abbrev pub is_pending : StateFile → Bool
is_pending absent = false
is_pending _ = true
