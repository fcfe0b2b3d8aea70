-- ===== src/Operator/UnitTopology.antt =====
-- anima/kernel/unit_topology.py: the floor of units that are never touched, and
-- `ReversibleUnitTopologyAction`.
pub mod Floor
pub mod Listing
pub mod Listed
pub mod BootConfig
pub mod Reversal
use anima.Python.{
  ◌>>=◌, ◌>>◌, Action, pure, raise, unit_topology_error, raise_if, unit_topology_refusal,
}
use anima.Prelude.{
  [], ◌∷◌, true, false, none, some, List, String, Option, if◌then◌else◌, Bool, contains, str_eq,
  or_default, not,
}
use anima.Arch.{UnitTopologyManager}
use anima.Operator.Contract.{ReversibleOperation}
use anima.Operator.UnitTopology.Floor.{is_floor_protected}

abbrev pub allowed_default_targets : List String
allowed_default_targets = "multi-user.target" ∷ "graphical.target" ∷ []

-- `_ALL_OPS`
pub data UnitOp : Type 0 where
  author delete enable disable set_default : UnitOp

-- `op in _ALL_OPS`, and which of them it is.
unfoldable pub unit_op : String → Option UnitOp
unit_op op =
    if str_eq op "author"
    then some author
    else if str_eq op "delete"
    then some delete
    else if str_eq op "enable"
    then some enable
    else if str_eq op "disable"
    then some disable
    else if str_eq op "set_default"
    then some set_default
    else none

-- `not text`
abbrev pub is_blank : Option String → Bool
is_blank none = true
is_blank (some s) = str_eq s ""

-- `target_name or unit_name`
abbrev pub or_name : Option String → String → String
or_name target_name unit_name =
    if is_blank target_name then unit_name else or_default target_name unit_name

pub record UnitSnapshot : Type 0 where
  pub unit_name : String
  pub prior_content : Option String
  pub prior_enabled : Bool
  pub prior_default_target : String

module _ {W : Type 0} (m : UnitTopologyManager W) (unit_name : String) where
  abbrev pub capture_unit : Action W UnitSnapshot
  capture_unit = do
    content ← m.read_unit unit_name
    enabled ← m.is_enabled unit_name
    target ← m.get_default
    pure (record {
      unit_name = unit_name;
      prior_content = content;
      prior_enabled = enabled;
      prior_default_target = target;
    })

  abbrev pub apply_unit : UnitOp → String → String → Action W Unit
  apply_unit author content target = do m.author_unit unit_name content; m.daemon_reload
  apply_unit delete content target = do m.delete_unit unit_name; m.daemon_reload
  apply_unit enable content target = m.enable unit_name
  apply_unit disable content target = m.disable unit_name
  apply_unit set_default content target = m.set_default target

  abbrev pub verify_unit : Action W Bool
  verify_unit = do result ← m.analyze_verify; pure result.0

  abbrev pub put_content_back : Option String → Action W Unit
  put_content_back none = do m.delete_unit unit_name; m.daemon_reload
  put_content_back (some content) = do m.author_unit unit_name content; m.daemon_reload

  abbrev pub restore_unit : UnitOp → UnitSnapshot → Action W Unit
  restore_unit author s = put_content_back s.prior_content
  restore_unit delete s = put_content_back s.prior_content
  restore_unit enable s = if s.prior_enabled then pure tt else m.disable unit_name
  restore_unit disable s = if s.prior_enabled then m.enable unit_name else pure tt
  restore_unit set_default s = m.set_default s.prior_default_target

  -- The object; the constructor made sure that "author" has its content.
  abbrev pub unit_operation : UnitOp → String → String → ReversibleOperation W UnitSnapshot
  unit_operation op content target = record {
    capture = some capture_unit;
    apply = apply_unit op content target;
    verify = verify_unit;
    restore = some (restore_unit op);
  }

  module _ (floor : List String) (content target_name : Option String) where
    -- The guard of the constructor: the unit, or the default target, may be changed.
    abbrev pub refuses : UnitOp → Bool
    refuses set_default = not (contains allowed_default_targets (or_name target_name unit_name))
    refuses op = is_floor_protected unit_name floor

    abbrev needs_content : UnitOp → Bool
    needs_content author = is_blank content
    needs_content op = false

    abbrev unit_action_of : Option UnitOp → Action W (ReversibleOperation W UnitSnapshot)
    unit_action_of none = raise unit_topology_error
    unit_action_of (some op) = do
      raise_if (refuses op) unit_topology_refusal
      raise_if (needs_content op) unit_topology_error
      pure (unit_operation op (or_default content "") (or_name target_name unit_name))

    -- The constructor.
    unfoldable pub unit_action : String → Action W (ReversibleOperation W UnitSnapshot)
    unit_action op = unit_action_of (unit_op op)
