-- ===== src/OwnedResource/Confined.antt =====
-- What `gc_workspace_to_trash` of anima/kernel/owned_resource.py can change.
use anima.OwnedResource.Trash.{trash_into}
use anima.OwnedResource.Disk.{move_onto}
use anima.Python.{Outcome, ◌>>◌, pure, bind-Keeps, Action}
use anima.Prelude.{
  [], ◌∷◌, refl, false, arith, ◌≡◌, ◌∙◌, ◌++◌, List, ℕ, inl, inr, Bool-cases, ◌⊎◌, ap, sym, Bool,
  true, if◌then◌else◌,
}
use mathlib.Core.Path.{subst}
use mathlib.Core.List.{append_assoc, append-nil}
use anima.Python.{Outcome}
use anima.OwnedResource.{
  FilePath, Tree, TrashRun, GcResult, rename, move, with_dirs, with_text, is_within, make_dirs,
  write_text, is_blocked, name_of, manifest_of, is_dir, exists, List, ℕ, move_onto, Bool, pure,
  trash_into, Action,
}
use anima.OwnedResource.Below.{not-within-shorter, not-below}

-- Two trees agree but at `src`, at `entry`, and on the way to `entry`.
pub Same : FilePath → FilePath → Tree → Tree → Type 0
Same src entry files files' =
    (q : FilePath)
    → is_within src q ≡ false
    → is_within entry q ≡ false
    → is_within q entry ≡ false
    → files' q ≡ files q

-- How a move ends: nothing has changed, or the tree stands at the destination or in it.
pub MoveEnds : FilePath → FilePath → Tree → Outcome Unit × Tree → Type 0
MoveEnds src dest files result =
    (result.1 ≡ files) ⊎ ((rest : FilePath) × (result.1 ≡ rename src (dest ++ rest) files))

move_onto-lem :
    (taken : Bool) (src real_dest : FilePath) (files : Tree)
    → ((move_onto taken src real_dest files).1 ≡ files)
      ⊎ ((move_onto taken src real_dest files).1 ≡ rename src real_dest files)
unfolding move_onto
move_onto-lem taken src real_dest files = ground arith

pub move-MoveEnds :
    (src dest : FilePath) (files : Tree) → MoveEnds src dest files (move src dest files)
unfolding MoveEnds move
move-MoveEnds src dest files =
    let inside = dest ++ name_of src ∷ [] in
    elim (Bool-cases (is_dir files dest)) [
      | inl there ↦ elim (move_onto-lem (exists files inside) src inside files) [
        | inl same ↦ inl (ap (λ x. x.1) (chosen true there) ∙ same)
        | inr moved ↦ inr (name_of src ∷ [], ap (λ x. x.1) (chosen true there) ∙ moved)
      ]
      | inr free ↦ elim (move_onto-lem false src dest files) [
        | inl same ↦ inl (ap (λ x. x.1) (chosen false free) ∙ same)
        | inr moved ↦ inr (
          [],
          ap (λ x. x.1) (chosen false free)
              ∙ moved
              ∙ ap (λ d. rename src d files) (sym (append-nil dest)),
        )
      ]
    ]
  where
    chosen :
        (b : Bool)
        → is_dir files dest ≡ b
        → move src dest files ≡ (
            if b
            then move_onto
                (exists files (dest ++ name_of src ∷ []))
                src
                (dest ++ name_of src ∷ [])
                files
            else move_onto false src dest files)
    chosen b e =
        ap
          (λ b.
            if b
            then move_onto (exists files (dest ++ name_of src ∷ [])) src (dest ++ name_of src ∷ [])
                files
            else move_onto false src dest files)
          e

module _ (src entry : FilePath) where
  Same-refl : (files : Tree) → Same src entry files files
  unfolding Same
  Same-refl files q off aside above = refl

  rename-Same :
      (rest : FilePath) (files : Tree) → Same src entry files (rename src (entry ++ rest) files)
  unfolding Same rename
  rename-Same rest files q off aside above =
      rw (not-below (entry ++ rest) q (not-within-shorter entry rest q aside), not-below src q off)
        refl

  with_text-Same :
      (rest : FilePath) (text : List ℕ) (files : Tree)
      → Same src entry files (with_text (entry ++ rest) text files)
  unfolding Same with_text
  with_text-Same rest text files q off aside above = rw (not-within-shorter entry rest q aside) refl

  with_dirs-Same : (files : Tree) → Same src entry files (with_dirs entry files)
  unfolding Same with_dirs
  with_dirs-Same files q off aside above = ground (arith, above)

  make_dirs-Same : (files : Tree) → Same src entry files (make_dirs entry files).1
  make_dirs-Same files = elim (Bool-cases (is_blocked files [] entry)) [
    | inl blocked ↦ rw blocked (Same-refl files)
    | inr free ↦ rw free (with_dirs-Same files)
  ]

  write_text-Same :
      (rest : FilePath) (text : List ℕ) (files : Tree)
      → Same src entry files (write_text (entry ++ rest) text files).1
  write_text-Same rest text files = elim (Bool-cases (is_dir files (entry ++ rest))) [
    | inl taken ↦ rw taken (Same-refl files)
    | inr free ↦ rw free (with_text-Same rest text files)
  ]

  Same-trans : (a b c : Tree) → Same src entry a b → Same src entry b c → Same src entry a c
  unfolding Same
  Same-trans a b c ab bc q off aside above = bc q off aside above ∙ ab q off aside above

  move-Same :
      (dest : FilePath) (rest : FilePath) (files : Tree)
      → dest ≡ entry ++ rest
      → Same src entry files (move src dest files).1
  unfolding MoveEnds
  move-Same dest rest files e = elim (move-MoveEnds src dest files) [
    | inl same ↦ subst (Same src entry files) (sym same) (Same-refl files)
    | inr (more, moved) ↦
        subst (Same src entry files)
          (sym (
            moved
            ∙ ap (λ d. rename src d files) (ap (λ d. d ++ more) e ∙ append_assoc entry rest more)))
          (rename-Same (rest ++ more) files)
  ]

  -- However the collection ends.
  pub trash_into-Same :
      (run : TrashRun) (files : Tree) → Same src entry files (trash_into run entry src files).1
  unfolding trash_into
  trash_into-Same run files =
      let into = move src (entry ++ name_of src ∷ []) in
      let text = run.dumps (manifest_of run src) in
      let write = write_text (entry ++ "manifest.json" ∷ []) text in
      let done : Action Tree GcResult = pure (record { original_path = src; trash_path = entry }) in
      let keep = Same src entry files in
      bind-Keeps keep (make_dirs entry) (λ _. into >> (write >> done)) files (make_dirs-Same files)
        (λ _ t h.
          bind-Keeps keep into (λ _. write >> done) t
            (Same-trans files t _ h (move-Same _ (name_of src ∷ []) t refl))
            (λ _ u k.
              bind-Keeps keep write (λ _. done) u
                (Same-trans files u _ k (write_text-Same ("manifest.json" ∷ []) text u))
                (λ _ v l. l)))
