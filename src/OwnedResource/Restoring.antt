-- ===== src/OwnedResource/Restoring.antt =====
-- A collection of anima/kernel/owned_resource.py and the restore that undoes it.
use anima.OwnedResource.Trash.{GcResult, object}
use anima.OwnedResource.Disk.{directory, text_file, renamed, node_is_dir, write_text, make_dirs}
use anima.Python.{ok, bind-of-ok, Action, modify, pure, ◌>>◌}
use anima.Prelude.{
  [], ◌∷◌, true, false, none, some, inl, inr, String, ◌++◌, ◌≡◌, Bool-cases, str_eq, ◌&&◌, refl,
  arith, ap, ◌∙◌, not, is_none, sym, Option-cases, eq_iff, eq_of_str_eq,
}
use mathlib.Core.Path.{subst}
use mathlib.Core.List.{append_assoc, append-nil}
use anima.Python.{ok}
use anima.OwnedResource.{
  FilePath, Tree, TrashRun, is_dir, exists, is_blocked, is_within, below, name_of, parent_of,
  trash_into, manifest_of, restore_from_trash, with_dirs, with_text, rename, remove_tree, move,
  String, str_eq, directory, text_file, renamed, node_is_dir, not, is_none, Action, GcResult,
  modify, pure, write_text, make_dirs,
}
use anima.OwnedResource.Below.{
  below-append, within-cancel, not-within-shorter, not-within-longer, not-below, within_self,
  within_parent, within-rest, parent-append, below-cancel, below-some,
}

move-ok :
    (src dest : FilePath) (files : Tree)
    → exists files dest ≡ false
    → is_within src dest ≡ false
    → exists files src ≡ true
    → is_dir files (parent_of dest) ≡ true
    → move src dest files ≡ (ok tt, rename src dest files)
unfolding move
move-ok src dest files new apart stands in_dir =
    let free : is_dir files dest ≡ false = ground (arith, new) in
    rw (free, new, apart, stands, in_dir) refl

longer-not-above : (r : FilePath) (x : String) (q : FilePath) → is_within (r ++ x ∷ q) r ≡ false
unfolding is_within
longer-not-above r x q =
    subst (λ z. is_within (r ++ x ∷ q) z ≡ false) (append-nil r) (within-cancel r (x ∷ q) [])

module _ (run : TrashRun) (entry : FilePath) (root_part : String) (rest_part : FilePath)
    (files : Tree) where
  abbrev pub ws : FilePath
  ws = root_part ∷ rest_part

  abbrev contents : FilePath
  contents = entry ++ name_of ws ∷ []

  abbrev manifest_file : FilePath
  manifest_file = entry ++ "manifest.json" ∷ []

  -- What the collection finds: a workspace in a directory, a free place in the trash that is not
  -- below the workspace, and a library that reads the manifest that it writes.
  pub record Collectable : Type 0 where
    pub stands : exists files ws ≡ true
    pub in_dir : is_dir files (parent_of ws) ≡ true
    pub not_manifest : str_eq "manifest.json" (name_of ws) ≡ false
    pub apart : is_within ws (entry ++ name_of ws ∷ []) ≡ false
    pub no_entry : (q : FilePath) → files (entry ++ q) ≡ none
    pub room : is_blocked files [] entry ≡ false
    pub loads_dumps : run.loads (run.dumps (manifest_of run ws)) ≡ object (manifest_of run ws)

  abbrev dirs : Tree
  dirs = with_dirs entry files

  abbrev moved : Tree
  moved = rename ws contents dirs

  abbrev collected : Tree
  collected = with_text manifest_file (run.dumps (manifest_of run ws)) moved

  abbrev restored : Tree
  restored = remove_tree run.stays entry (rename contents ws collected)

  module _ (c : Collectable) where
    -- What stands somewhere does not stand in the entry.
    outside : (q : FilePath) → exists files q ≡ true → is_within entry q ≡ false
    outside q there = elim (Bool-cases (is_within entry q)) [
      | inr off ↦ off
      | inl inside ↦
          let (t, same) : (t : FilePath) × (q ≡ entry ++ t) = within-rest entry q inside in
          let gone : files q ≡ none = ap files same ∙ c.no_entry t in ground (arith, gone, there)
    ]

    dirs-exists : (q : FilePath) → exists files q ≡ true → dirs q ≡ files q
    unfolding with_dirs
    dirs-exists q there = ground (arith, there)

    dirs-aside : (q : FilePath) → is_within q entry ≡ false → dirs q ≡ files q
    unfolding with_dirs
    dirs-aside q aside = ground (arith, aside)

    dirs-in : (x : String) (q : FilePath) → dirs (entry ++ x ∷ q) ≡ none
    unfolding with_dirs
    dirs-in x q = rw (c.no_entry (x ∷ q), longer-not-above entry x q) refl

    dirs-entry : dirs entry ≡ some directory
    unfolding with_dirs
    dirs-entry =
        rw (subst (λ z. files z ≡ none) (append-nil entry) (c.no_entry []), within_self entry) refl

    is_dir-exists : (f : Tree) (q : FilePath) → is_dir f q ≡ true → exists f q ≡ true
    is_dir-exists f q there = ground (arith, there)

    moves : move ws contents dirs ≡ (ok tt, moved)
    moves =
        move-ok ws contents dirs (ap (λ o. not (is_none o)) (dirs-in (name_of ws) [])) c.apart
          (ap (λ o. not (is_none o)) (dirs-exists ws c.stands) ∙ c.stands)
          (ap (λ q. is_dir dirs q) (parent-append entry (name_of ws)) ∙ ap node_is_dir dirs-entry)

    other_name : below (name_of ws ∷ []) ("manifest.json" ∷ []) ≡ none
    unfolding below
    other_name = elim (Bool-cases (str_eq (name_of ws) "manifest.json")) [
      | inl same ↦
          ground (
            arith,
            c.not_manifest,
            (eq_iff "manifest.json" (name_of ws)).1 (sym (eq_of_str_eq same)),
          )
      | inr other ↦ rw other refl
    ]

    moved_manifest : moved manifest_file ≡ none
    unfolding rename
    moved_manifest =
        rw (below-cancel entry (name_of ws ∷ []) ("manifest.json" ∷ []), other_name)
          (elim (Bool-cases (is_within ws manifest_file)) [
            | inl inside ↦ rw inside refl
            | inr aside ↦ rw aside (dirs-in "manifest.json" [])
          ])

    trash_into-ok :
        trash_into run entry ws files
        ≡ (ok (record { original_path = ws; trash_path = entry }), collected)
    unfolding trash_into
    trash_into-ok =
        let done : Action Tree GcResult =
          pure (record { original_path = ws; trash_path = entry }) in
        let into = move ws contents in
        let write = write_text manifest_file (run.dumps (manifest_of run ws)) in
        let makes : make_dirs entry files ≡ (ok tt, dirs) = rw c.room refl in
        let writes : write moved ≡ (ok tt, collected) = rw moved_manifest refl in
        bind-of-ok (make_dirs entry) (λ _. into >> (write >> done)) makes
        ∙ bind-of-ok into (λ _. write >> done) {s = dirs} moves
        ∙ bind-of-ok write (λ _. done) {s = moved} writes

    collected_manifest : collected manifest_file ≡ some (text_file (run.dumps (manifest_of run ws)))
    unfolding with_text
    collected_manifest = rw (within_self manifest_file) refl

    collected-outside :
        (q : FilePath) → is_within entry q ≡ false → collected q ≡ renamed ws dirs q none
    unfolding with_text rename
    collected-outside q off =
        rw
          (
            not-within-shorter entry ("manifest.json" ∷ []) q off,
            not-below contents q (not-within-shorter entry (name_of ws ∷ []) q off),
          )
          refl

    moved-contents : (rest : FilePath) → moved (contents ++ rest) ≡ files (ws ++ rest)
    unfolding rename
    moved-contents rest =
        let aside = not-within-longer ws entry (name_of ws ∷ []) c.apart in
        rw (below-append contents rest)
          (dirs-aside (ws ++ rest) (not-within-shorter ws rest entry aside))

    collected-contents : (rest : FilePath) → collected (contents ++ rest) ≡ files (ws ++ rest)
    unfolding with_text rename
    collected-contents rest =
        rw
          (
            append_assoc entry (name_of ws ∷ []) rest,
            within-cancel entry ("manifest.json" ∷ []) (name_of ws ∷ rest),
            c.not_manifest,
          )
          (subst (λ z. moved z ≡ files (ws ++ rest)) (append_assoc entry (name_of ws ∷ []) rest)
            (moved-contents rest))

    collected-ws : collected ws ≡ none
    collected-ws = collected-outside ws (outside ws c.stands) ∙ rw (within_self ws) refl

    collected_parent : collected (parent_of ws) ≡ files (parent_of ws)
    collected_parent =
        let there = is_dir-exists files (parent_of ws) c.in_dir in
        collected-outside (parent_of ws) (outside (parent_of ws) there)
        ∙ rw (within_parent root_part rest_part) (dirs-exists (parent_of ws) there)

    moves_back : move contents ws collected ≡ (ok tt, rename contents ws collected)
    moves_back =
        move-ok contents ws collected (ap (λ o. not (is_none o)) collected-ws)
          (not-within-shorter entry (name_of ws ∷ []) ws (outside ws c.stands))
          (subst (λ q. exists collected q ≡ true) (append-nil contents)
            (ap (λ o. not (is_none o)) (collected-contents [] ∙ ap files (append-nil ws))
              ∙ c.stands))
          (ap node_is_dir collected_parent ∙ c.in_dir)

    restore-ok : restore_from_trash run entry collected ≡ (ok tt, restored)
    unfolding restore_from_trash
    restore-ok =
        rw (collected_manifest, c.loads_dumps, collected-ws)
          (bind-of-ok (move contents ws) (λ _. modify (remove_tree run.stays entry)) {s = collected}
            moves_back)

    restored-lem :
        (q : FilePath)
        → is_within q entry ≡ false
        → (is_within entry q && run.stays q) ≡ false
        → restored q ≡ files q
    unfolding remove_tree rename is_within
    restored-lem q aside gone = elim (Bool-cases (is_within entry q)) [
      | inl inside ↦
          let (t, same) : (t : FilePath) × (q ≡ entry ++ t) = within-rest entry q inside in
          let removed : run.stays q ≡ false = ground (arith, inside, gone) in
          rw (inside, removed) (sym (ap files same ∙ c.no_entry t))
      | inr off ↦ elim (Option-cases (below ws q)) [
        | inl aside_ws ↦
            rw (off, aside_ws, not-within-shorter entry (name_of ws ∷ []) q off)
              (collected-outside q off
                ∙ rw (ap (λ o. not (is_none o)) aside_ws) (dirs-aside q aside))
        | inr (t, found) ↦
            rw (off, found) (collected-contents t ∙ sym (ap files (below-some ws q t found)))
      ]
    ]

  -- Where the workspace can be collected, the collection returns, and the restore of its entry, in
  -- the state that the collection leaves, returns too: every path is as it was before the two,
  -- except for directories that now lead to the trash, and for what the last `rmtree` could not
  -- remove of the entry.
  pub restore-trash_into :
      Collectable
      → (collected restored : Tree) × (trash_into run entry ws files
          ≡ (ok (record { original_path = ws; trash_path = entry }), collected))
        × (restore_from_trash run entry collected ≡ (ok tt, restored))
        × ((q : FilePath)
            → is_within q entry ≡ false
            → (is_within entry q && run.stays q) ≡ false
            → restored q ≡ files q)
  restore-trash_into c = (collected, restored, trash_into-ok c, restore-ok c, restored-lem c)
