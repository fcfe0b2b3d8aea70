-- ===== src/OwnedResource/Tests.antt =====
-- Concrete runs of anima/kernel/owned_resource.py below /w and /a.
use anima.TrackRecord.State.{fresh}
use anima.OwnedResource.Trash.{is_overdue, number, object, not_json, Loaded}
use anima.Python.{ok, raised, Action, pure, owned_resource_refusal}
use anima.Prelude.{
  [], ◌∷◌, refl, true, false, none, some, ◌≡◌, Bool, if◌then◌else◌, List, ◌++◌, Option, ◌⊎◌, ◌&&◌,
  ◌||◌, ℕ, String,
}
use anima.OwnedResource.{
  parent_of, is_blocked, FilePath, Tree, directory, text_file, Manifest, TrashRun, Roots,
  OwnedOpSpec, trash_into, restore_from_trash, reap_trash, operate_on_owned_resource,
  execute_approved_owned_op, is_within, name_of, Bool, List, Option, is_overdue, Action, ℕ, String,
  pure, owned_resource_refusal,
}
use anima.OwnedResource.Reaping.{AllRead, reap_trash_is_exact, reaped, is_removed, Distinct, NotIn}
use anima.OwnedResource.Restoring.{restore-trash_into, Collectable}
use anima.OwnedResource.Safety.{
  execute_approved_owned_op_safe, operate_on_owned_resource_safe, Cleared, Applied, Authorised,
}

abbrev roots : Roots
roots = record {
  workspaces_root = "w" ∷ [];
  rawos_source_root = "a" ∷ [];
  worktree_root = "t" ∷ [];
}

abbrev trash : FilePath
trash = "a" ∷ "data" ∷ ".trash" ∷ []

abbrev same_path : FilePath → FilePath → Bool
same_path p q = is_within p q && is_within q p

-- A workspace /w/one with a file, and a trash with an old entry.
abbrev disk : Tree
disk q =
    if same_path ("w" ∷ []) q
      || same_path ("w" ∷ "one" ∷ []) q
      || is_within q trash
      || same_path (trash ++ "old" ∷ []) q
    then some directory
    else if same_path ("w" ∷ "one" ∷ "notes" ∷ []) q
        || same_path (trash ++ "old" ∷ "manifest.json" ∷ []) q
    then some (text_file (7 ∷ []))
    else none

abbrev one : Manifest
one = record {
  original_path = some ("w" ∷ "one" ∷ []);
  trashed_at = some (number 9000000);
  contents_dir = some "one";
}

abbrev decode : List ℕ → Loaded
decode [] = object one
decode (_ ∷ _) = not_json

abbrev run : TrashRun
run = record {
  stamp = "20260101T000000";
  now = 9000000;
  dumps = λ manifest. [];
  loads = decode;
  stays = λ q. false;
}

abbrev entry : FilePath
entry = trash ++ "20260101T000000_one" ∷ []

nothing_there : (q : FilePath) → disk (entry ++ q) ≡ none
unfolding is_within
nothing_there q = refl

collectable : Collectable run entry "w" ("one" ∷ []) disk
unfolding is_within parent_of name_of is_blocked
collectable = record {
  stands = refl;
  in_dir = refl;
  not_manifest = refl;
  apart = refl;
  no_entry = nothing_there;
  room = refl;
  loads_dumps = refl;
}

restore-trash_into_example :
    (collected restored : Tree) × (trash_into run entry ("w" ∷ "one" ∷ []) disk
      ≡ (ok (record { original_path = "w" ∷ "one" ∷ []; trash_path = entry }), collected))
    × (restore_from_trash run entry collected ≡ (ok tt, restored))
    × ((q : FilePath)
        → is_within q entry ≡ false
        → (is_within entry q && false) ≡ false
        → restored q ≡ disk q)
restore-trash_into_example = restore-trash_into run entry "w" ("one" ∷ []) disk collectable

abbrev names : List String
names = "old" ∷ "20260101T000000_one" ∷ []

names-Distinct : Distinct names
unfolding Distinct NotIn
names-Distinct = ((refl, tt), (tt, tt))

abbrev no_mtime : FilePath → Option ℕ
no_mtime p = none

readable : AllRead run no_mtime 30 trash disk names
unfolding is_within AllRead is_overdue
readable = ((true, refl), ((false, refl), tt))

reap_trash_is_exact_example :
    (s' : Tree) × (reap_trash roots run no_mtime 30 none names disk
      ≡ (ok (reaped roots run no_mtime 30 none names disk), s'))
    × ((q : FilePath)
        → s' q ≡ (
            if is_removed (reaped roots run no_mtime 30 none names disk) q && true
            then none
            else disk q))
unfolding is_within
reap_trash_is_exact_example =
    reap_trash_is_exact roots run no_mtime 30 none names disk names-Distinct refl readable

-- The manifest of the old entry is not JSON, so its age is that of 1970.
torn_is_reaped : reaped roots run no_mtime 30 none names disk ≡ (trash ++ "old" ∷ []) ∷ []
unfolding is_overdue is_within
torn_is_reaped = refl

abbrev no_vacuum : FilePath → Action Tree Unit
no_vacuum p = pure tt

abbrev gc_one : OwnedOpSpec
gc_one = record { op_type = "workspace_gc"; target_path = "w" ∷ "one" ∷ []; trash_root = none }

abbrev itself : FilePath → Option FilePath
itself p = some p

abbrev inactive : FilePath → Bool
inactive p = false

execute_approved_owned_op_safe_example :
    let result = execute_approved_owned_op roots run no_vacuum itself inactive gc_one disk in
    (result ≡ (raised owned_resource_refusal, disk))
    ⊎ (Cleared roots itself inactive ("w" ∷ "one" ∷ [])
        × Applied roots itself inactive run no_vacuum gc_one disk result.1)
execute_approved_owned_op_safe_example =
    execute_approved_owned_op_safe roots itself inactive run no_vacuum gc_one disk

operate_on_owned_resource_safe_example :
    let result =
      operate_on_owned_resource roots run no_vacuum itself inactive gc_one true
        (λ op_class target. record fresh { graduated = true })
        disk in
    (result.1 ≡ disk)
    ⊎ (Cleared roots itself inactive ("w" ∷ "one" ∷ [])
        × Authorised roots itself inactive run no_vacuum gc_one disk true
            (λ op_class target. record fresh { graduated = true })
        × Applied roots itself inactive run no_vacuum gc_one disk result.1)
operate_on_owned_resource_safe_example =
    operate_on_owned_resource_safe roots itself inactive run no_vacuum gc_one disk true
      (λ op_class target. record fresh { graduated = true })
