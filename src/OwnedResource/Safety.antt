-- ===== src/OwnedResource/Safety.antt =====
-- Which operations of anima/kernel/owned_resource.py go through, and what they can change.
use anima.OwnedResource.Disk.{posix}
use anima.TrackRecord.State.{TrackRecordState}
use anima.Python.{
  ok, raised, Action, owned_resource_refusal, map-Keeps, bind-of-raised, Exn, bind-of-ok,
  value_error,
}
use anima.Prelude.{
  refl, true, false, some, inl, inr, Option, Bool, ◌≡◌, or_default, str_eq, ◌⊎◌, Option-cases,
  Bool-cases, String, ap, sym,
}
use mathlib.Core.Path.{subst}
use anima.OwnedResource.{
  FilePath, Tree, Roots, TrashRun, OwnedOpSpec, in_roots, inner_floor_check,
  assert_owned_and_not_floored, is_owned_path, apply_when_enabled, op_class_and_target,
  operate_on_owned_resource, execute_approved_owned_op, apply_op, gc_workspace_to_trash,
  trash_entry_of, default_trash_root, Option, Bool, Action, owned_resource_refusal, or_default,
  str_eq, String, TrackRecordState, apply_when_graduated, posix, value_error,
}
use anima.OwnedResource.Confined.{Same, trash_into-Same}

module _ (roots : Roots) (realpath : FilePath → Option FilePath)
    (active_workspace_dirs : FilePath → Bool) where
  -- The path resolves to one in an owned root, and the inner floor lets it pass.
  pub record Cleared (target : FilePath) : Type 0 where
    pub real : FilePath
    pub resolved : realpath target ≡ some real
    pub owned : in_roots roots real ≡ true
    pub not_floored : (inner_floor_check roots active_workspace_dirs real).0 ≡ false

  assert-cases :
      (target : FilePath) (s : Tree)
      → (assert_owned_and_not_floored roots realpath active_workspace_dirs target s
          ≡ (raised owned_resource_refusal, s))
        ⊎ ((assert_owned_and_not_floored roots realpath active_workspace_dirs target s ≡ (ok tt, s))
            × Cleared target)
  unfolding assert_owned_and_not_floored is_owned_path
  assert-cases target s = elim (Option-cases (realpath target)) [
    | inl nothing ↦ inl (rw nothing refl)
    | inr (real, found) ↦ elim (Bool-cases (in_roots roots real)) [
      | inr outside ↦ inl (rw (found, outside) refl)
      | inl inside ↦ elim (Bool-cases (inner_floor_check roots active_workspace_dirs real).0) [
        | inl floored ↦ inl (rw (found, inside, floored) refl)
        | inr free ↦ inr (
          rw (found, inside, free) refl,
          record { real = real; resolved = found; owned = inside; not_floored = free },
        )
      ]
    ]
  ]

  module _ (run : TrashRun) (vacuum_db : FilePath → Action Tree Unit) (op_spec : OwnedOpSpec)
      (s : Tree) where
    abbrev pub entry : FilePath
    entry =
        trash_entry_of run (or_default op_spec.trash_root (default_trash_root roots))
          op_spec.target_path

    -- What an applied operation leaves: a collection changes a file only below the workspace, below
    -- its trash entry, or on the way there.
    abbrev pub Applied : Tree → Type 0
    Applied s' =
        (s' ≡ (apply_op roots run vacuum_db op_spec s).1)
        × (str_eq op_spec.op_type "workspace_gc" ≡ true → Same op_spec.target_path entry s s')

    apply_op-Applied : Applied (apply_op roots run vacuum_db op_spec s).1
    unfolding apply_op gc_workspace_to_trash
    apply_op-Applied = (
      refl,
      λ gc. rw gc (
          map-Keeps (Same op_spec.target_path entry s)
            (gc_workspace_to_trash roots run op_spec.target_path op_spec.trash_root) _ s
            (trash_into-Same op_spec.target_path entry run s)),
    )

    -- The owner's approval does not lift the boundary or the floor: an operation on a path that does
    -- not clear both is refused with the files as they were. One that clears them is applied, and a
    -- collection changes a file only below the workspace, below its trash entry, or on the way there,
    -- however it ends.
    pub execute_approved_owned_op_safe :
        let result =
          execute_approved_owned_op roots run vacuum_db realpath active_workspace_dirs op_spec s in
        (result ≡ (raised owned_resource_refusal, s))
        ⊎ (Cleared op_spec.target_path × Applied result.1)
    unfolding execute_approved_owned_op
    execute_approved_owned_op_safe =
        let guard =
          assert_owned_and_not_floored roots realpath active_workspace_dirs op_spec.target_path in
        let apply = apply_op roots run vacuum_db op_spec in
        elim (assert-cases op_spec.target_path s) [
          | inl refused ↦ inl (bind-of-raised guard (λ _. apply) refused)
          | inr (passed, cleared) ↦ inr (
            cleared,
            subst (λ r. Applied r.1) (sym (bind-of-ok guard (λ _. apply) passed)) apply_op-Applied,
          )
        ]

    -- The gate is authorised: switched on, and the class of the operation has graduated.
    pub record Authorised (enabled : Bool) (track : String → String → TrackRecordState)
        : Type 0 where
      pub switched_on : enabled ≡ true
      pub op_class : String
      pub target : String
      pub looked_up : op_class_and_target roots op_spec s ≡ (ok (op_class, target), s)
      pub graduated : (track op_class target).graduated ≡ true

    apply_when_graduated-cases :
        (enabled : Bool) (track : String → String → TrackRecordState) (op_class target : String)
        → enabled ≡ true
        → op_class_and_target roots op_spec s ≡ (ok (op_class, target), s)
        → let result =
            apply_when_graduated roots run vacuum_db track op_spec (op_class, target) s in
          (result.1 ≡ s) ⊎ (Authorised enabled track × Applied result.1)
    apply_when_graduated-cases enabled track op_class target on looked_up =
        elim (Bool-cases (track op_class target).graduated) [
          | inr young ↦ inl (rw young refl)
          | inl graduated ↦ inr (
            record {
              switched_on = on;
              op_class = op_class;
              target = target;
              looked_up = looked_up;
              graduated = graduated;
            },
            rw graduated
                (map-Keeps Applied (apply_op roots run vacuum_db op_spec) _ s apply_op-Applied),
          )
        ]

    op_class_and_target-cases :
        ((e : Exn) × (op_class_and_target roots op_spec s ≡ (raised e, s)))
        ⊎ ((found : String × String) × (op_class_and_target roots op_spec s ≡ (ok found, s)))
    unfolding op_class_and_target
    op_class_and_target-cases = elim (Bool-cases (str_eq op_spec.op_type "workspace_gc")) [
      | inl gc ↦ inr (("owned_workspace_gc", posix roots.workspaces_root), rw gc refl)
      | inr other ↦ elim (Bool-cases (str_eq op_spec.op_type "db_vacuum")) [
        | inl vacuum ↦
            inr (("owned_db_vacuum", posix roots.rawos_source_root), rw (other, vacuum) refl)
        | inr unknown ↦ inl (value_error, rw (other, unknown) refl)
      ]
    ]

    apply_when_enabled-cases :
        (enabled : Bool) (track : String → String → TrackRecordState)
        → let result = apply_when_enabled roots run vacuum_db track op_spec enabled s in
          (result.1 ≡ s) ⊎ (Authorised enabled track × Applied result.1)
    unfolding apply_when_enabled
    apply_when_enabled-cases false track = inl refl
    apply_when_enabled-cases true track =
        let look = op_class_and_target roots op_spec in
        let go_on = apply_when_graduated roots run vacuum_db track op_spec in
        elim op_class_and_target-cases [
          | inl (e, unknown) ↦ inl (ap (λ r. r.1) (bind-of-raised look go_on unknown))
          | inr (found, looked_up) ↦
              subst (λ r. (r.1 ≡ s) ⊎ (Authorised true track × Applied r.1))
                (sym (bind-of-ok look go_on looked_up))
                (apply_when_graduated-cases true track found.0 found.1 refl looked_up)
        ]

    -- The autonomous gate, however it ends, leaves every file as it was, or the target resolves into
    -- an owned root and clears the floor, the gate is switched on, the operation's class has
    -- graduated, and the operation was applied, of which a collection changes a file only below the
    -- workspace, below its trash entry, or on the way there.
    pub operate_on_owned_resource_safe :
        (enabled : Bool) (track : String → String → TrackRecordState)
        → let result =
            operate_on_owned_resource roots run vacuum_db realpath active_workspace_dirs op_spec
              enabled track s in
          (result.1 ≡ s)
          ⊎ (Cleared op_spec.target_path × Authorised enabled track × Applied result.1)
    unfolding operate_on_owned_resource apply_when_enabled
    operate_on_owned_resource_safe enabled track =
        let guard =
          assert_owned_and_not_floored roots realpath active_workspace_dirs op_spec.target_path in
        let apply = apply_when_enabled roots run vacuum_db track op_spec enabled in
        elim (assert-cases op_spec.target_path s) [
          | inl refused ↦ inl (ap (λ r. r.1) (bind-of-raised guard (λ _. apply) refused))
          | inr (passed, cleared) ↦
              let same = sym (bind-of-ok guard (λ _. apply) passed) in
              elim (apply_when_enabled-cases enabled track) [
                | inl left ↦ inl (subst (λ r. r.1 ≡ s) same left)
                | inr (allowed, done) ↦ inr (cleared, allowed, subst (λ r. Applied r.1) same done)
              ]
        ]
