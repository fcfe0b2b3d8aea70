-- ===== src/OwnedResource/Disk.antt =====
-- The file system under anima/kernel/owned_resource.py: what `Path`, `shutil` and `os` do there. A
-- path is the list of its parts; a tree is a map of paths, so that a move takes what is below along.
use anima.Python.{◌>>=◌, ◌>>◌, Action, gets, raise_if, other_error, os_error, modify, ok, raised}
use anima.Prelude.{
  String, List, Option, Bool, ℕ, [], ◌∷◌, none, some, true, false, if◌then◌else◌, not, concat, ◌++◌,
  str_eq, is_none, ◌&&◌, ◌||◌,
}

abbrev pub FilePath : Type 0
FilePath = List String

pub data Node : Type 0 where
  directory unreadable : Node
  text_file : List ℕ → Node

abbrev pub Tree : Type 0
Tree = FilePath → Option Node

-- The rest of a path below `root`: `some []` at the root itself.
unfoldable pub below : FilePath → FilePath → Option FilePath
below [] q = some q
below (x ∷ root) [] = none
below (x ∷ root) (y ∷ q) = if str_eq x y then below root q else none

-- `real == root or real.startswith(root + os.sep)`
unfoldable pub is_within : FilePath → FilePath → Bool
unfolding below
is_within root q = not (is_none (below root q))

-- `path.name`
unfoldable pub name_of : FilePath → String
name_of [] = ""
name_of (x ∷ []) = x
name_of (x ∷ y ∷ q) = name_of (y ∷ q)

unfoldable pub parent_of : FilePath → FilePath
parent_of [] = []
parent_of (x ∷ []) = []
parent_of (x ∷ y ∷ q) = x ∷ parent_of (y ∷ q)

-- `str(path)`
unfoldable pub posix : FilePath → String
posix [] = ""
posix (x ∷ q) = concat "/" (concat x (posix q))

abbrev pub exists : Tree → FilePath → Bool
exists files p = not (is_none (files p))

abbrev pub node_is_dir : Option Node → Bool
node_is_dir (some directory) = true
node_is_dir _ = false

abbrev pub is_dir : Tree → FilePath → Bool
is_dir files p = node_is_dir (files p)

-- A file stands where `mkdir` wants a directory, at `done` or on the way down from it.
unfoldable pub is_blocked : Tree → FilePath → FilePath → Bool
is_blocked files done [] = exists files done && not (is_dir files done)
is_blocked files done (x ∷ q) =
    exists files done && not (is_dir files done) || is_blocked files (done ++ x ∷ []) q

unfoldable pub with_dirs : FilePath → Tree → Tree
unfolding is_within
with_dirs p files q = if is_none (files q) && is_within q p then some directory else files q

-- `path.mkdir(parents=True, exist_ok=True)`
abbrev pub make_dirs : FilePath → Action Tree Unit
make_dirs p = do
  blocked ← gets (λ files. is_blocked files [] p)
  raise_if blocked os_error
  modify (with_dirs p)

unfoldable pub with_text : FilePath → List ℕ → Tree → Tree
unfolding is_within
with_text p text files q = if is_within p q && is_within q p then some (text_file text) else files q

-- `path.write_text(…)`
abbrev pub write_text : FilePath → List ℕ → Action Tree Unit
write_text p text = do
  taken ← gets (λ files. is_dir files p)
  raise_if taken os_error
  modify (with_text p text)

abbrev pub renamed : FilePath → Tree → FilePath → Option FilePath → Option Node
renamed src files q none = if is_within src q then none else files q
renamed src files q (some rest) = files (src ++ rest)

-- `os.rename` of a tree
unfoldable pub rename : FilePath → FilePath → Tree → Tree
unfolding below is_within
rename src dest files q = renamed src files q (below dest q)

-- `shutil.rmtree(…, ignore_errors=True)`: what cannot be removed stays, and nobody is told.
unfoldable pub remove_tree : (FilePath → Bool) → FilePath → Tree → Tree
unfolding is_within
remove_tree stays p files q = if is_within p q && not (stays q) then none else files q

-- A directory goes onto a file, which neither `os.rename` nor `copytree` does.
abbrev pub is_onto_file : FilePath → FilePath → Tree → Bool
is_onto_file src real_dest files =
    exists files real_dest && (not (is_dir files real_dest) && is_dir files src)

unfoldable pub move_onto : Bool → FilePath → FilePath → Action Tree Unit
unfolding rename is_within parent_of
move_onto taken src real_dest files =
    if taken || is_within src real_dest
    then (raised other_error, files)
    else if is_onto_file src real_dest files
    then (raised os_error, files)
    else if not (exists files src) || not (is_dir files (parent_of real_dest))
    then (raised os_error, files)
    else (ok tt, rename src real_dest files)

-- `shutil.move` within one file system: into `dest` when that is a directory. What it cannot move
-- raises. A copy to another file system, which can break off half way, is not modelled.
unfoldable pub move : FilePath → FilePath → Action Tree Unit
unfolding move_onto name_of
move src dest files =
    let inside = dest ++ name_of src ∷ [] in
    if is_dir files dest
    then move_onto (exists files inside) src inside files
    else move_onto false src dest files
