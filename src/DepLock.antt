-- ===== src/DepLock.antt =====
-- anima/kernel/dep_lock.py: the installed packages against requirements.lock. Texts are lists of code
-- points, of which only the letters of ASCII are lowered; a file is the list of its lines.
pub mod Drift
mod Tests
use anima.Python.{ok}
use anima.Prelude.{
  [], ◌∷◌, true, false, none, some, List, codes_eq, if◌then◌else◌, strip, ℕ, Option, Bool, String,
  ◌==◌, lower, is_none, not, ◌&&◌, codes, ◌||◌, ◌++◌, or_default,
}

abbrev pub Text : Type 0
Text = List ℕ

-- A `dict`, its keys in the order of their insertion.
abbrev pub Packages : Type 0
Packages = List (Text × Text)

unfoldable pub version_of : Packages → Text → Option Text
unfolding codes_eq
version_of [] n = none
version_of ((m, v) ∷ pkgs) n = if codes_eq m n then some v else version_of pkgs n

abbrev pub names_of : Packages → List Text
names_of [] = []
names_of ((m, v) ∷ pkgs) = m ∷ names_of pkgs

-- `pkgs[name] = version`
unfoldable pub set_version : Text → Text → Packages → Packages
unfolding codes_eq
set_version n v [] = (n, v) ∷ []
set_version n v ((m, w) ∷ pkgs) =
    if codes_eq m n then (m, v) ∷ pkgs else (m, w) ∷ set_version n v pkgs

-- `.replace("-", "_")`
unfoldable pub underscored : Text → Text
underscored [] = []
underscored (c ∷ text) = (if c == b'-' then b'_' else c) ∷ underscored text

unfoldable pub normalise : Text → Text
unfolding strip lower underscored
normalise name = underscored (lower (strip name))

abbrev pub before_text : ℕ → Option (Text × Text) → Option (Text × Text)
before_text c none = none
before_text c (some (name, version)) = some (c ∷ name, version)

-- `line.partition("==")`, where the line has one
unfoldable pub partition : Text → Option (Text × Text)
partition [] = none
partition (a ∷ []) = none
partition (a ∷ b ∷ line) =
    if a == b'=' && b == b'=' then some ([], line) else before_text a (partition (b ∷ line))

abbrev pub is_skipped : Text → Bool
is_skipped [] = true
is_skipped (c ∷ line) = c == b'#' || c == b'-'

abbrev pub set_pin : Option (Text × Text) → Packages → Packages
set_pin none pkgs = pkgs
set_pin (some (name, version)) pkgs = set_version (normalise name) (strip version) pkgs

unfoldable pub parse_line : Text → Packages → Packages
unfolding strip partition set_version normalise
parse_line line pkgs =
    let stripped = strip line in
    if is_skipped stripped then pkgs else set_pin (partition stripped) pkgs

unfoldable pub parse_lines : List Text → Packages → Packages
unfolding parse_line
parse_lines [] pkgs = pkgs
parse_lines (line ∷ lines) pkgs = parse_lines lines (parse_line line pkgs)

-- `_parse_freeze`
unfoldable pub parse_freeze : List Text → Packages
unfolding parse_lines
parse_freeze lines = parse_lines lines []

-- The lock file, and what `pip freeze` gives: lines, or what is reported in their place.
pub data LockFile : Type 0 where
  missing : LockFile
  read_error : Text → LockFile
  lock_lines : List Text → LockFile

pub data Freeze : Type 0 where
  freeze_failed : Text → Freeze
  freeze_lines : List Text → Freeze

pub record DepDriftResult : Type 0 where
  pub ok : Bool
  pub added : List Text
  pub removed : List Text
  pub changed : List Text

-- The names of `pkgs` that the other packages lack.
unfoldable pub lacking : Packages → List Text → List Text
unfolding version_of
lacking others [] = []
lacking others (n ∷ names) =
    let rest = lacking others names in if is_none (version_of others n) then n ∷ rest else rest

abbrev pub differ : Option Text → Option Text → Bool
differ (some v) (some w) = not (codes_eq v w)
differ _ _ = false

unfoldable pub differing : Packages → Packages → List Text → List Text
unfolding version_of codes_eq
differing lock env [] = []
differing lock env (n ∷ names) =
    let rest = differing lock env names in
    if differ (version_of lock n) (version_of env n) then n ∷ rest else rest

abbrev pub is_empty : List Text → Bool
is_empty [] = true
is_empty (n ∷ names) = false

-- f"{n}=={pkgs[n]}"
unfoldable pub pins : Packages → List Text → List Text
unfolding version_of
pins pkgs [] = []
pins pkgs (n ∷ names) = (n ++ codes "==" ++ or_default (version_of pkgs n) []) ∷ pins pkgs names

-- f"{n}: lock={lock_pkgs[n]} env={env_pkgs[n]}"
unfoldable pub changes : Packages → Packages → List Text → List Text
unfolding version_of
changes lock env [] = []
changes lock env (n ∷ names) =
    (n
      ++ codes ": lock="
      ++ or_default (version_of lock n) []
      ++ codes " env="
      ++ or_default (version_of env n) [])
    ∷ changes lock env names

-- `sorted` is the library's.
module _ (sorted : List Text → List Text) where
  unfoldable pub drift : Packages → Packages → DepDriftResult
  unfolding lacking differing pins changes
  drift lock env =
      let added = sorted (pins env (lacking lock (names_of env))) in
      let removed = sorted (pins lock (lacking env (names_of lock))) in
      let changed = sorted (changes lock env (differing lock env (names_of lock))) in
      record {
        ok = is_empty added && is_empty removed && is_empty changed;
        added = added;
        removed = removed;
        changed = changed;
      }

  abbrev pub failed : Text → DepDriftResult
  failed why = record { ok = false; added = []; removed = []; changed = why ∷ [] }

  unfoldable pub verify_dep_lock : LockFile → Freeze → DepDriftResult
  unfolding drift parse_freeze
  verify_dep_lock missing freeze = failed (codes "lock file missing")
  verify_dep_lock (read_error why) freeze = failed why
  verify_dep_lock (lock_lines lines) (freeze_failed why) = failed why
  verify_dep_lock (lock_lines lines) (freeze_lines installed) =
      drift (parse_freeze lines) (parse_freeze installed)
