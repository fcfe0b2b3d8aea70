-- ===== src/OwnedResource/Reaping.antt =====
-- `reap_trash` of anima/kernel/owned_resource.py, the only hard delete of the trash.
use anima.OwnedResource.Disk.{below}
use anima.Python.{ok, raised, Outcome, bind-of-ok, pure, modify, ◌>>=◌}
use anima.Prelude.{
  [], ◌∷◌, refl, false, none, String, List, Option, str_eq, ℕ, ◌≡◌, ◌++◌, if◌then◌else◌, Bool, ◌∙◌,
  ◌||◌, ◌&&◌, not, sym, true, arith, ap, or_default,
}
use mathlib.Core.List.{append_assoc}
use anima.OwnedResource.{
  FilePath, Tree, TrashRun, is_overdue, reap_entries, reap_trash, remove_tree, is_within,
  default_trash_root, Roots, exists, String, List, Option, str_eq, ℕ, below, Bool, or_default, pure,
}
use anima.OwnedResource.Below.{within-cancel}

-- `iterdir` gives a name once.
unfoldable pub NotIn : String → List String → Type 0
NotIn name [] = Unit
NotIn name (other ∷ names) = (str_eq name other ≡ false) × NotIn name names

unfoldable pub Distinct : List String → Type 0
Distinct [] = Unit
Distinct (name ∷ names) = NotIn name names × Distinct names

abbrev pub is_removed : List FilePath → FilePath → Bool
is_removed [] q = false
is_removed (entry ∷ entries) q = is_within entry q || is_removed entries q

abbrev pub without : (FilePath → Bool) → List FilePath → Tree → Tree
without stays entries files q = if is_removed entries q && not (stays q) then none else files q

without_more :
    (stays : FilePath → Bool) (entry : FilePath) (entries : List FilePath) (files : Tree)
    (q : FilePath)
    → without stays entries (remove_tree stays entry files) q
      ≡ without stays (entry ∷ entries) files q
unfolding remove_tree
without_more stays entry entries files q = ground arith

module _ (run : TrashRun) (mtime : FilePath → Option ℕ) (retention_days : ℕ)
    (trash_dir : FilePath) where
  abbrev pub entry_of : String → FilePath
  entry_of name = trash_dir ++ name ∷ []

  abbrev said : Outcome Bool → Bool
  said (ok b) = b
  said (raised e) = false

  -- No look at an entry raises.
  unfoldable pub AllRead : Tree → List String → Type 0
  AllRead files [] = Unit
  AllRead files (name ∷ names) =
      ((b : Bool) × (is_overdue run mtime retention_days files (entry_of name) ≡ ok b))
      × AllRead files names

  -- The entries that are directories and older than the retention, by the files as they are.
  abbrev pub overdue_entries : Tree → List String → List FilePath
  overdue_entries files [] = []
  overdue_entries files (name ∷ names) =
      if said (is_overdue run mtime retention_days files (entry_of name))
      then entry_of name ∷ overdue_entries files names
      else overdue_entries files names

  beside :
      (a b : String) (rest : FilePath)
      → str_eq a b ≡ false
      → is_within (entry_of a) (trash_dir ++ b ∷ rest) ≡ false
  unfolding is_within below
  beside a b rest other = within-cancel trash_dir (a ∷ []) (b ∷ rest) ∙ rw other refl

  kept :
      (a b : String) (rest : FilePath) (files : Tree)
      → str_eq a b ≡ false
      → remove_tree run.stays (entry_of a) files (trash_dir ++ b ∷ rest)
        ≡ files (trash_dir ++ b ∷ rest)
  unfolding remove_tree
  kept a b rest files other = rw (beside a b rest other) refl

  overdue-removed :
      (a b : String) (files : Tree)
      → str_eq a b ≡ false
      → is_overdue run mtime retention_days (remove_tree run.stays (entry_of a) files) (entry_of b)
        ≡ is_overdue run mtime retention_days files (entry_of b)
  unfolding is_overdue
  overdue-removed a b files other =
      rw
        (
          append_assoc trash_dir (b ∷ []) ("manifest.json" ∷ []),
          kept a b [] files other,
          kept a b ("manifest.json" ∷ []) files other,
        )
        refl

  entries-removed :
      (a : String) (names : List String) (files : Tree)
      → NotIn a names
      → overdue_entries (remove_tree run.stays (entry_of a) files) names
        ≡ overdue_entries files names
  unfolding NotIn
  entries-removed a [] files apart = refl
  entries-removed a (b ∷ names) files (other, apart) =
      rw (overdue-removed a b files other, entries-removed a names files apart) refl

  read-removed :
      (a : String) (names : List String) (files : Tree)
      → NotIn a names
      → AllRead files names
      → AllRead (remove_tree run.stays (entry_of a) files) names
  unfolding NotIn AllRead
  read-removed a [] files apart read = tt
  read-removed a (b ∷ names) files (other, apart) ((v, looked), read) =
      ((v, overdue-removed a b files other ∙ looked), read-removed a names files apart read)

  abbrev Reaped : List String → Tree → Type 0
  Reaped names files =
      (s' : Tree) × (reap_entries run mtime retention_days trash_dir names files
        ≡ (ok (overdue_entries files names), s'))
      × ((q : FilePath) → s' q ≡ without run.stays (overdue_entries files names) files q)

  reap-start :
      (name : String) (names : List String) (files : Tree) (old : Bool)
      → is_overdue run mtime retention_days files (entry_of name) ≡ ok old
      → reap_entries run mtime retention_days trash_dir (name ∷ names) files
        ≡ (reap_entries run mtime retention_days trash_dir names >>= λ reaped.
              pure (if old then entry_of name ∷ reaped else reaped))
            (if old then remove_tree run.stays (entry_of name) files else files)
  unfolding reap_entries
  reap-start name names files old looked =
      ap
        (λ (seen : Outcome Bool).
          ((λ (files : Tree). (seen, files)) >>= λ overdue.
          modify (λ files. if overdue then remove_tree run.stays (entry_of name) files else files)
          >>= λ _. reap_entries run mtime retention_days trash_dir names >>= λ reaped.
              pure (if overdue then entry_of name ∷ reaped else reaped))
            files)
        looked

  reap-next :
      (name : String) (names : List String) (files : Tree) (old : Bool)
      → is_overdue run mtime retention_days files (entry_of name) ≡ ok old
      → NotIn name names
      → Reaped names (if old then remove_tree run.stays (entry_of name) files else files)
      → Reaped (name ∷ names) files
  reap-next name names files true looked fresh (s', ran, same) =
      let files1 = remove_tree run.stays (entry_of name) files in
      let rest = entries-removed name names files fresh in
      let ran1 : reap_entries run mtime retention_days trash_dir names files1
          ≡ (ok (overdue_entries files names), s') =
        ran ∙ ap (λ l. (ok l, s')) rest in
      let all : overdue_entries files (name ∷ names) ≡ entry_of name ∷ overdue_entries files names =
        rw looked refl in
      (
        s',
        reap-start name names files true looked
            ∙ bind-of-ok (reap_entries run mtime retention_days trash_dir names)
                (λ x. pure (entry_of name ∷ x)) ran1
            ∙ ap (λ l. (ok l, s')) (sym all),
        λ q.
            same q
            ∙ ap (λ l. without run.stays l files1 q) rest
            ∙ without_more run.stays (entry_of name) (overdue_entries files names) files q
            ∙ ap (λ l. without run.stays l files q) (sym all),
      )
  reap-next name names files false looked fresh (s', ran, same) =
      let all : overdue_entries files (name ∷ names) ≡ overdue_entries files names =
        rw looked refl in
      (
        s',
        reap-start name names files false looked
            ∙ bind-of-ok (reap_entries run mtime retention_days trash_dir names) (λ x. pure x) ran
            ∙ ap (λ l. (ok l, s')) (sym all),
        λ q. same q ∙ ap (λ l. without run.stays l files q) (sym all),
      )

  pub reap_entries_lem :
      (names : List String) (files : Tree)
      → Distinct names
      → AllRead files names
      → Reaped names files
  unfolding Distinct AllRead reap_entries
  reap_entries_lem [] files apart read = (files, refl, λ q. refl)
  reap_entries_lem (name ∷ names) files (fresh, apart) ((true, looked), read) =
      reap-next name names files true looked fresh (
        reap_entries_lem names (remove_tree run.stays (entry_of name) files) apart
          (read-removed name names files fresh read))
  reap_entries_lem (name ∷ names) files (fresh, apart) ((false, looked), read) =
      reap-next name names files false looked fresh (reap_entries_lem names files apart read)

module _ (roots : Roots) (run : TrashRun) (mtime : FilePath → Option ℕ) (retention_days : ℕ)
    (trash_root : Option FilePath) (names : List String) (files : Tree) where
  abbrev pub trash_dir : FilePath
  trash_dir = or_default trash_root (default_trash_root roots)

  abbrev pub reaped : List FilePath
  reaped = overdue_entries run mtime retention_days trash_dir files names

  -- Where the trash directory exists, `iterdir` gives each name once, and no look at an entry raises
  -- (each manifest that can be read is UTF-8, and an object with a number as its time, or no JSON),
  -- the reaper returns exactly the entries that are directories with an age over the retention when
  -- it starts, whatever the order; of what is below them only what `rmtree` could not remove is left,
  -- and no other path is touched.
  pub reap_trash_is_exact :
      Distinct names
      → exists files trash_dir ≡ true
      → AllRead run mtime retention_days trash_dir files names
      → (s' : Tree) × (reap_trash roots run mtime retention_days trash_root names files
          ≡ (ok reaped, s'))
        × ((q : FilePath)
            → s' q ≡ (if is_removed reaped q && not (run.stays q) then none else files q))
  unfolding reap_trash
  reap_trash_is_exact apart there read =
      rw there (reap_entries_lem run mtime retention_days trash_dir names files apart read)
