-- ===== src/Arch.antt =====
-- anima/kernel/arch/base.py: the protocols through which the kernel reaches its host, over the
-- states `W` of the host. `arch/linux.py`'s file operator is in the child `LinuxFiles`.
pub mod Paths
pub mod LinuxFiles
use anima.Python.{ok, Action}
use anima.Prelude.{none, some, List, String, Option, ℕ, Bool, if◌then◌else◌, ◌≡◌, ◌≢◌}

-- The content of a file.
abbrev pub Bytes : Type 0
Bytes = List ℕ

pub record FileSnapshot : Type 0 where
  pub path : String
  pub existed : Bool
  pub content : Option Bytes

pub record FileOperator (W : Type 0) : Type 0 where
  pub read : String → Action W (Option Bytes)
  pub write : String → Bytes → Action W Unit
  pub exists : String → Action W Bool
  pub backup : String → Action W FileSnapshot
  pub restore : FileSnapshot → Action W Unit

-- The part of `ServiceManager` that the operators call.
pub record ServiceManager (W : Type 0) : Type 0 where
  pub is_active : String → Action W Bool
  pub restart : String → Action W Bool
  pub start : String → Action W Bool
  pub stop : String → Action W Bool

-- The part of `UnitTopologyManager` that the operators call.
pub record UnitTopologyManager (W : Type 0) : Type 0 where
  pub author_unit : String → String → Action W Unit
  pub delete_unit : String → Action W Unit
  pub read_unit : String → Action W (Option String)
  pub enable : String → Action W Unit
  pub disable : String → Action W Unit
  pub is_enabled : String → Action W Bool
  pub set_default : String → Action W Unit
  pub get_default : Action W String
  pub daemon_reload : Action W Unit
  pub analyze_verify : Action W (Bool × String)

-- What a snapshot says that the file at its path held.
abbrev pub snapshot_content : FileSnapshot → Option Bytes
snapshot_content s = if s.existed then s.content else none

-- The contract of `FileOperator`, as its docstrings state it: `content w p` is what the path `p`
-- holds, and `file_of` tells which file a path names.
pub record IsFileOperator {W : Type 0} (f : FileOperator W) : Type 0 where
  pub content : W → String → Option Bytes
  pub file_of : String → String
  pub content_of_file : (w : W) (p q : String) → file_of p ≡ file_of q → content w p ≡ content w q
  pub backup_ok :
      (w w' : W) (p : String) (s : FileSnapshot)
      → f.backup p w ≡ (ok s, w')
      → (w' ≡ w) × (s.path ≡ p) × (snapshot_content s ≡ content w p)
  pub write_ok :
      (w w' : W) (p : String) (b : Bytes)
      → f.write p b w ≡ (ok tt, w')
      → (content w' p ≡ some b)
        × ((q : String) → file_of q ≢ file_of p → content w' q ≡ content w q)
  pub restore_ok :
      (w w' : W) (s : FileSnapshot)
      → f.restore s w ≡ (ok tt, w')
      → (content w' s.path ≡ snapshot_content s)
        × ((q : String) → file_of q ≢ file_of s.path → content w' q ≡ content w q)
