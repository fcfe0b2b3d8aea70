-- ===== src/OwnedResource/Trash.antt =====
-- The trash of anima/kernel/owned_resource.py: a workspace goes in, comes back, or is reaped.
use anima.Python.{
  ok, raised, Outcome, type_error, other_error, ◌>>=◌, ◌>>◌, Action, raise, gets, pure, value_error,
  key_error, raise_if, os_error, modify,
}
use anima.Prelude.{
  [], ◌∷◌, none, some, Option, ◌++◌, String, ℕ, concat, or_default, List, Bool, is_none,
  if◌then◌else◌, ltb, ◌+◌, ◌*◌, false,
}
use anima.OwnedResource.Disk.{
  FilePath, Tree, Node, text_file, name_of, is_dir, exists, make_dirs, with_dirs, is_blocked,
  write_text, with_text, move, remove_tree,
}

pub record Roots : Type 0 where
  pub workspaces_root : FilePath
  pub rawos_source_root : FilePath
  pub worktree_root : FilePath

pub record GcResult : Type 0 where
  pub original_path : FilePath
  pub trash_path : FilePath

-- The value of `trashed_at`: a number, or another value of JSON (null, a string), which cannot be
-- compared with one.
pub data Stamp : Type 0 where
  number : ℕ → Stamp
  other_value : Stamp

-- `manifest.json`; a field that a reader asks for may be missing.
pub record Manifest : Type 0 where
  pub original_path : Option FilePath
  pub trashed_at : Option Stamp
  pub contents_dir : Option String

-- `_default_trash_root`
abbrev pub default_trash_root : Roots → FilePath
default_trash_root roots = roots.rawos_source_root ++ "data" ∷ ".trash" ∷ []

-- What a text is to `json.loads(….decode("utf-8"))`
pub data Loaded : Type 0 where
  not_utf8 not_json not_object : Loaded
  object : Manifest → Loaded

-- The clock of one call, the library's code for `manifest.json`, and the paths that a removal does
-- not manage to remove.
pub record TrashRun : Type 0 where
  pub stamp : String
  pub now : ℕ
  pub dumps : Manifest → List ℕ
  pub loads : List ℕ → Loaded
  pub stays : FilePath → Bool

module _ (run : TrashRun) where
  abbrev pub trash_entry_of : FilePath → FilePath → FilePath
  trash_entry_of trash_root ws = trash_root ++ concat run.stamp (concat "_" (name_of ws)) ∷ []

  abbrev pub manifest_of : FilePath → Manifest
  manifest_of ws = record {
    original_path = some ws;
    trashed_at = some (number run.now);
    contents_dir = some (name_of ws);
  }

  -- `UnicodeDecodeError` and `JSONDecodeError` are of the class `ValueError`.
  abbrev pub loaded : Loaded → Action Tree Manifest
  loaded not_utf8 = raise value_error
  loaded not_json = raise value_error
  loaded not_object = raise type_error
  loaded (object manifest) = pure manifest

  -- `json.loads(manifest_file.read_text())`
  abbrev pub read_manifest : Option Node → Action Tree Manifest
  read_manifest (some (text_file text)) = loaded (run.loads text)
  read_manifest _ = raise os_error

  abbrev pub original_of : Manifest → Action Tree FilePath
  original_of manifest = elim manifest.original_path [ none ↦ raise key_error | some p ↦ pure p ]

  unfoldable pub restore_from_trash : FilePath → Action Tree Unit
  unfolding name_of move remove_tree
  restore_from_trash trash_entry = do
    node ← gets (λ files. files (trash_entry ++ "manifest.json" ∷ []))
    raise_if (is_none node) os_error
    manifest ← read_manifest node
    dest ← original_of manifest
    taken ← gets (λ files. exists files dest)
    raise_if taken os_error
    move (trash_entry ++ or_default manifest.contents_dir (name_of dest) ∷ []) dest
    modify (remove_tree run.stays trash_entry)

  -- The time of an entry for `reap_trash`. A text that is not JSON counts as 1970; one that is not
  -- UTF-8, that holds no object, or whose time is no number, raises, and the raise ends the reaper.
  abbrev pub stamp_of : Option Stamp → Outcome ℕ
  stamp_of none = ok 0
  stamp_of (some (number t)) = ok t
  stamp_of (some other_value) = raised type_error

  abbrev pub age_of_text : Loaded → Outcome ℕ
  age_of_text not_utf8 = raised value_error
  age_of_text not_json = ok 0
  age_of_text not_object = raised other_error
  age_of_text (object manifest) = stamp_of manifest.trashed_at

  -- `mtime` is `none` where `stat` raises.
  abbrev pub trashed_at_of : Option Node → Option ℕ → Outcome ℕ
  trashed_at_of none mtime = ok (or_default mtime 0)
  trashed_at_of (some (text_file text)) mtime = age_of_text (run.loads text)
  trashed_at_of (some _) mtime = ok 0

  -- `trashed_at < now - retention_days * 86400`
  abbrev pub is_before : ℕ → Outcome ℕ → Outcome Bool
  is_before retention_days (ok t) = ok (ltb (t + retention_days * 86400) run.now)
  is_before retention_days (raised e) = raised e

  -- Whether an entry is a directory that is to be removed
  unfoldable pub is_overdue : (FilePath → Option ℕ) → ℕ → Tree → FilePath → Outcome Bool
  is_overdue mtime retention_days files entry =
      if is_dir files entry
      then is_before retention_days
          (trashed_at_of (files (entry ++ "manifest.json" ∷ [])) (mtime entry))
      else ok false

  -- The loop over the names that `iterdir` gives.
  unfoldable pub reap_entries :
      (FilePath → Option ℕ) → ℕ → FilePath → List String → Action Tree (List FilePath)
  unfolding is_overdue remove_tree
  reap_entries mtime retention_days trash_dir [] = pure []
  reap_entries mtime retention_days trash_dir (name ∷ names) = do
    let entry = trash_dir ++ name ∷ []
    overdue ← (λ files. (is_overdue mtime retention_days files entry, files))
    modify (λ files. if overdue then remove_tree run.stays entry files else files)
    reaped ← reap_entries mtime retention_days trash_dir names
    pure (if overdue then entry ∷ reaped else reaped)

  unfoldable pub trash_into : FilePath → FilePath → Action Tree GcResult
  unfolding is_blocked with_dirs move with_text name_of
  trash_into trash_entry ws = do
    make_dirs trash_entry
    move ws (trash_entry ++ name_of ws ∷ [])
    write_text (trash_entry ++ "manifest.json" ∷ []) (run.dumps (manifest_of ws))
    pure (record { original_path = ws; trash_path = trash_entry })

module _ (roots : Roots) (run : TrashRun) where
  unfoldable pub gc_workspace_to_trash : FilePath → Option FilePath → Action Tree GcResult
  unfolding trash_into
  gc_workspace_to_trash ws trash_root =
      trash_into run (trash_entry_of run (or_default trash_root (default_trash_root roots)) ws) ws

  unfoldable pub reap_trash :
      (FilePath → Option ℕ) → ℕ → Option FilePath → List String → Action Tree (List FilePath)
  unfolding reap_entries
  reap_trash mtime retention_days trash_root names files =
      let trash_dir = or_default trash_root (default_trash_root roots) in
      if exists files trash_dir
      then reap_entries run mtime retention_days trash_dir names files
      else (ok [], files)
