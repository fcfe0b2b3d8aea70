-- ===== src/Operator/Tests/UnitRuns.antt =====
-- Concrete runs of the unit topology gate of anima/kernel/operator.py.
use anima.Operator.Tests.{
  new_kernel, String, ap, Files, Bool, environment, good_shell, trusted_kernel,
}
use anima.Operator.UnitGate.{
  UnitTopologyOutcome, operate_on_unit_topology, is_boot_graph_op, unit_proposal,
  unit_may_auto_apply, change_on_host, applied_unit_outcome, execute_approved_unit_action,
}
use anima.TrackRecord.{get_operator_track_record}
use anima.Operator.Kernel.{Kernel, run_and_record}
use anima.Python.{ok, Action}
use anima.Prelude.{
  [], ◌∷◌, refl, true, false, none, some, Option, sym, ◌≡◌, contains, ◌≢◌, ◌++◌, String, ap, ◌⊎◌,
  Bool, List,
}
use anima.Arch.{UnitTopologyManager}
use anima.Operator.Contract.{
  OperationResult, kept, rolled_back, run_reversible_operation, run_contract,
}
use anima.Operator.UnitTopology.{unit_op, set_default, author, unit_action, unit_operation}
use anima.Operator.UnitTopology.Listing.{
  listed_units, is_tree_char, is_unit_char, is_lower, strip_tree_prefix, compute_floor_closure,
}
use anima.Operator.UnitTopology.Listed.{joined, unit_of, all_chars, listed_unit_is_protected}
use anima.Operator.UnitTopology.Floor.{floor_unit_seed, is_floor_protected, bare, before_last_dot}
use anima.Operator.UnitTopology.Reversal.{
  IsUnitTopologyManager, content_is, Analysed, unit_action_keeps_or_restores,
}
use anima.Operator.UnitGate.Autonomy.{floor_unit_untouched}

-- One unit with its file, whether it is enabled, and the default target; the analysis finds a fault.
abbrev OneUnit : Type 0
OneUnit = Option String × Bool × String

abbrev one_unit : UnitTopologyManager OneUnit
one_unit = record {
  author_unit = λ u c (f, e, t). (ok tt, (some c, e, t));
  delete_unit = λ u (f, e, t). (ok tt, (none, e, t));
  read_unit = λ u (f, e, t). (ok f, (f, e, t));
  enable = λ u (f, e, t). (ok tt, (f, true, t));
  disable = λ u (f, e, t). (ok tt, (f, false, t));
  is_enabled = λ u (f, e, t). (ok e, (f, e, t));
  set_default = λ t (f, e, t'). (ok tt, (f, e, t));
  get_default = λ (f, e, t). (ok t, (f, e, t));
  daemon_reload = λ w. (ok tt, w);
  analyze_verify = λ w. (ok (false, "bad"), w);
}

abbrev one_unit-IsUnitTopologyManager : IsUnitTopologyManager one_unit
one_unit-IsUnitTopologyManager = record {
  content = λ w u. w.0;
  enabled = λ w u. w.1;
  default_target = λ w. w.2;
  read_unit_ok = λ w u. refl;
  is_enabled_ok = λ w u. refl;
  get_default_ok = λ w. refl;
  author_ok = λ w w' u c h. sym (ap (λ x. x.1.0) h);
  delete_ok = λ w w' u h. sym (ap (λ x. x.1.0) h);
  can_enable = λ w u. true;
  enable_keeps = λ w u. refl;
  disable_keeps = λ w u. refl;
  enable_ok = λ w w' u can h. sym (ap (λ x. x.1.1) h);
  disable_ok = λ w w' u h. sym (ap (λ x. x.1.1) h);
  set_default_ok = λ w w' t h. sym (ap (λ x. x.1.2) h);
  reload_keeps = λ w u. refl;
  analyze_keeps = λ w u. (refl, refl, refl, refl);
}

abbrev old_unit : OneUnit
old_unit = (some "[Unit] old", true, "graphical.target")

author_rolls_back :
    run_reversible_operation
      (unit_operation one_unit "kiosk.service" author "[Unit] new" "")
      old_unit
    ≡ (ok rolled_back, old_unit)
unfolding run_reversible_operation run_contract
author_rolls_back = refl

unit_action_keeps_or_restores_example :
    (((rolled_back ≡ kept) × (content_is (some "[Unit] old") ≡ content_is (some "[Unit] new")))
      ⊎ ((rolled_back ≡ rolled_back)
          × (content_is (some "[Unit] old") ≡ content_is (some "[Unit] old"))))
    × Analysed one_unit one_unit-IsUnitTopologyManager "kiosk.service" author "[Unit] new" ""
        rolled_back
unit_action_keeps_or_restores_example =
    unit_action_keeps_or_restores one_unit one_unit-IsUnitTopologyManager "kiosk.service" author
      "[Unit] new" "" old_unit old_unit rolled_back (λ e. refl) author_rolls_back

dbus_is_in_seed : contains (floor_unit_seed ++ "lightdm.service" ∷ []) "lightdm.service" ≡ true
unfolding contains
dbus_is_in_seed = refl

abbrev author_kiosk : Action (Kernel Files) UnitTopologyOutcome
author_kiosk =
    operate_on_unit_topology (environment good_shell) "owner" "kiosk.service" "author" ("sshd" ∷ [])
      none (some "[Unit]") none none

abbrev author_allowed : Kernel Files → Bool
author_allowed =
    unit_may_auto_apply (environment good_shell) "owner" "kiosk.service" "author" ("sshd" ∷ []) none
      (some "[Unit]") none none

new_author_not_allowed : author_allowed new_kernel ≡ false
unfolding get_operator_track_record is_boot_graph_op contains
new_author_not_allowed = refl

trusted_author_allowed : author_allowed trusted_kernel ≡ true
unfolding get_operator_track_record is_boot_graph_op contains
trusted_author_allowed = refl

abbrev new_author_outcome : UnitTopologyOutcome
new_author_outcome =
    unit_proposal "author" "operation (unit_topology_author, 'kiosk.service') not yet graduated"

new_author_runs : author_kiosk new_kernel ≡ (ok new_author_outcome, new_kernel)
unfolding operate_on_unit_topology is_boot_graph_op contains unit_action unit_op is_floor_protected
    get_operator_track_record
new_author_runs = refl

abbrev authored_kernel : Kernel Files
authored_kernel = (author_kiosk trusted_kernel).1

trusted_author_runs :
    author_kiosk trusted_kernel ≡ (ok (applied_unit_outcome kept), authored_kernel)
unfolding operate_on_unit_topology is_boot_graph_op contains unit_action unit_op is_floor_protected
    get_operator_track_record run_and_record change_on_host run_reversible_operation run_contract
trusted_author_runs = refl

sshd_is_protected : is_floor_protected "sshd.service" ("sshd" ∷ []) ≡ true
unfolding is_floor_protected bare before_last_dot contains
sshd_is_protected = refl

author_is_not_set_default : unit_op "author" ≢ some set_default
unfolding unit_op
author_is_not_set_default h = cc

floor_unit_untouched_example :
    let gate =
      operate_on_unit_topology
        (environment good_shell)
        "owner"
        "sshd.service"
        "author"
        ("sshd" ∷ [])
        none
        (some "[Unit]")
        none
        none in
    let path =
      execute_approved_unit_action
        (environment good_shell)
        "owner"
        "sshd.service"
        "author"
        ("sshd" ∷ [])
        none
        (some "[Unit]")
        none
        none in
    ((gate trusted_kernel).1 ≡ trusted_kernel)
    × ((path trusted_kernel).1 ≡ trusted_kernel)
    × ((o : UnitTopologyOutcome) → (gate trusted_kernel).0 ≡ ok o → o.auto_applied ≡ false)
    × ((r : OperationResult) → (path trusted_kernel).0 ≢ ok r)
floor_unit_untouched_example =
    floor_unit_untouched (environment good_shell) "owner" "sshd.service" "author" ("sshd" ∷ []) none
      (some "[Unit]") none none trusted_kernel sshd_is_protected author_is_not_set_default

abbrev listing : List String
listing =
    "anima.service" ∷ "● ├─dbus-org.x@1.service loaded" ∷ "●   └─nginx.service" ∷ "  \\.slice"
    ∷ ".slice" ∷ "a.B" ∷ []

units_listed :
    listed_units (λ c. false) listing
    ≡ "anima.service" ∷ "dbus-org.x@1.service" ∷ "nginx.service" ∷ "\\.slice" ∷ []
unfolding listed_units
units_listed = refl

nginx_line :
    (contains listing (joined "●   └─" (unit_of "nginx" "service")) ≡ true)
    × (all_chars is_tree_char "●   └─" ≡ true)
    × (all_chars (is_unit_char (λ c. false)) "nginx" ≡ true)
    × (all_chars is_lower "service" ≡ true)
    × (strip_tree_prefix (unit_of "nginx" "service") ≡ unit_of "nginx" "service")
unfolding contains all_chars is_tree_char is_unit_char strip_tree_prefix
nginx_line = (refl, refl, refl, refl, refl)

listed_unit_is_protected_example :
    (is_floor_protected "nginx.service" (compute_floor_closure (λ c. false) listing) ≡ true)
    × (is_floor_protected "nginx" (compute_floor_closure (λ c. false) listing) ≡ true)
listed_unit_is_protected_example =
    listed_unit_is_protected (λ c. false) listing "●   └─" "nginx" "service" nginx_line.0
      nginx_line.1 nginx_line.2 refl nginx_line.3 refl nginx_line.4
