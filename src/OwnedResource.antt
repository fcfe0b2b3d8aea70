-- ===== src/OwnedResource.antt =====
-- anima/kernel/owned_resource.py: the operator of the own namespace. Paths are resolved by
-- `realpath`; a manifest is written as text by `dumps` and read by `loads`. `os.rename` acts on the
-- entry that a path names, so paths that are moved have no link above their last part.
pub mod Disk
pub mod Trash
pub mod Below
pub mod Reaping
pub mod Confined
pub mod Safety
pub mod Restoring
mod Tests
use anima.TrackRecord.State.{TrackRecordState}
use anima.Python.{
  ok, ◌>>=◌, ◌>>◌, Action, raise_if, raise, modify, gets, pure, value_error, owned_resource_refusal,
  os_error, key_error,
}
use anima.Prelude.{
  [], ◌∷◌, true, false, none, some, String, Bool, Option, List, ◌++◌, contains, ℕ, if◌then◌else◌,
  ◌||◌, concat, ◌&&◌, or_default, not, str_eq, ltb, is_none, ◌+◌, ◌*◌,
}
unfoldable pub use Disk.*
unfoldable pub use Trash.*

pub record OwnedOpSpec : Type 0 where
  pub op_type : String
  pub target_path : FilePath
  pub trash_root : Option FilePath

pub record OwnedOpOutcome : Type 0 where
  pub auto_applied : Bool
  pub proposed : Bool
  pub reason : String
  pub trash_path : Option FilePath

pub record OwnedApplyResult : Type 0 where
  pub applied : Bool
  pub trash_path : Option FilePath
  pub reason : String

abbrev pub protected_db_filenames : List String
protected_db_filenames = "rawos.db" ∷ "rawos.db-wal" ∷ "rawos.db-shm" ∷ []

-- `"/".join`: the root `rawos_source_root/data`
abbrev pub data_dir : Roots → FilePath
data_dir roots = roots.rawos_source_root ++ "data" ∷ []

-- `_inner_floor_check`
unfoldable pub inner_floor_check : Roots → (FilePath → Bool) → FilePath → Bool × String
unfolding contains name_of below
inner_floor_check roots active_workspace_dirs real =
    if contains protected_db_filenames (name_of real)
    then (true, "protected: live DB file")
    else if contains real ".git"
    then (true, "protected: .git directory")
    else if is_within roots.rawos_source_root real && not (is_within (data_dir roots) real)
    then (true, "protected: anima source code (use R1/self-reload surfaces)")
    else if active_workspace_dirs real
    then (true, "active intent bound to workspace — cannot GC")
    else (false, "")

unfoldable pub in_roots : Roots → FilePath → Bool
unfolding below
in_roots roots real =
    is_within roots.workspaces_root real
    || is_within roots.rawos_source_root real
    || is_within roots.worktree_root real

-- `_op_class_and_target`
unfoldable pub op_class_and_target : Roots → OwnedOpSpec → Action Tree (String × String)
unfolding posix
op_class_and_target roots op_spec =
    if str_eq op_spec.op_type "workspace_gc"
    then pure ("owned_workspace_gc", posix roots.workspaces_root)
    else if str_eq op_spec.op_type "db_vacuum"
    then pure ("owned_db_vacuum", posix roots.rawos_source_root)
    else raise value_error

-- `realpath` is `none` where it raises.
module _ (roots : Roots) (realpath : FilePath → Option FilePath) where
  abbrev within_roots : Option FilePath → Bool
  within_roots none = false
  within_roots (some real) = in_roots roots real

  unfoldable pub is_owned_path : FilePath → Bool
  unfolding in_roots
  is_owned_path p = within_roots (realpath p)

  abbrev pub assert_owned : FilePath → Action Tree Unit
  assert_owned p = raise_if (not (is_owned_path p)) owned_resource_refusal

  unfoldable pub assert_owned_and_not_floored : (FilePath → Bool) → FilePath → Action Tree Unit
  unfolding is_owned_path inner_floor_check
  assert_owned_and_not_floored active_workspace_dirs p = do
    assert_owned p
    elim (realpath p) [
      | none ↦ raise os_error
      | some real ↦
          raise_if (inner_floor_check roots active_workspace_dirs real).0 owned_resource_refusal
    ]

module _ (roots : Roots) (run : TrashRun) (vacuum_db : FilePath → Action Tree Unit) where
  abbrev pub apply_gc : OwnedOpSpec → Action Tree OwnedApplyResult
  unfolding gc_workspace_to_trash
  apply_gc op_spec = do
    result ← gc_workspace_to_trash roots run op_spec.target_path op_spec.trash_root
    pure (record { applied = true; trash_path = some result.trash_path; reason = "" })

  abbrev pub apply_vacuum : OwnedOpSpec → Action Tree OwnedApplyResult
  apply_vacuum op_spec = do
    vacuum_db op_spec.target_path
    pure (record { applied = true; trash_path = none; reason = "VACUUM+ANALYZE done" })

  -- `_apply_op`
  unfoldable pub apply_op : OwnedOpSpec → Action Tree OwnedApplyResult
  apply_op op_spec =
      if str_eq op_spec.op_type "workspace_gc"
      then apply_gc op_spec
      else if str_eq op_spec.op_type "db_vacuum"
      then apply_vacuum op_spec
      else raise value_error

  -- `track` is the state of the operator's track record for a class and a target.
  module _ (track : String → String → TrackRecordState) (op_spec : OwnedOpSpec) where
    abbrev pub proposal : String → OwnedOpOutcome
    proposal reason = record {
      auto_applied = false;
      proposed = true;
      reason = reason;
      trash_path = none;
    }

    abbrev pub auto_apply : Action Tree OwnedOpOutcome
    auto_apply = do
      result ← apply_op op_spec
      pure (record {
        auto_applied = true;
        proposed = false;
        reason = "auto-applied (owned, enabled, graduated)";
        trash_path = result.trash_path;
      })

    abbrev pub apply_when_graduated : String × String → Action Tree OwnedOpOutcome
    apply_when_graduated (op_class, target) =
        if (track op_class target).graduated
        then auto_apply
        else pure (proposal (concat op_class " operation class not yet graduated"))

    unfoldable pub apply_when_enabled : Bool → Action Tree OwnedOpOutcome
    unfolding op_class_and_target
    apply_when_enabled enabled =
        if enabled
        then op_class_and_target roots op_spec >>= apply_when_graduated
        else pure (proposal "operator_owned_enabled=False")

  module _ (realpath : FilePath → Option FilePath) (active_workspace_dirs : FilePath → Bool)
      (op_spec : OwnedOpSpec) where
    unfoldable pub operate_on_owned_resource :
        Bool → (String → String → TrackRecordState) → Action Tree OwnedOpOutcome
    unfolding assert_owned_and_not_floored apply_when_enabled
    operate_on_owned_resource enabled track = do
      assert_owned_and_not_floored roots realpath active_workspace_dirs op_spec.target_path
      apply_when_enabled track op_spec enabled

    unfoldable pub execute_approved_owned_op : Action Tree OwnedApplyResult
    unfolding assert_owned_and_not_floored apply_op
    execute_approved_owned_op = do
      assert_owned_and_not_floored roots realpath active_workspace_dirs op_spec.target_path
      apply_op op_spec
