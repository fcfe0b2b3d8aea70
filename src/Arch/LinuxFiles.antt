-- ===== src/Arch/LinuxFiles.antt =====
-- `LinuxFileOperator` of anima/kernel/arch/linux.py. How the operating system resolves a path
-- (symbolic links, for instance) and when a system call fails are parameters.
pub mod Protection
mod Tests
use text.Mathlib.Text.{starts_with}
use anima.Python.{
  ok, raised, Action, raise_if, file_operator_refusal, os_error, ◌>>=◌, ◌>>◌, pure, raise,
  type_error,
}
use anima.Prelude.{
  true, false, none, some, String, Option, Bool, str_eq, not, if◌then◌else◌, ◌||◌, is_none, concat,
  ap, arith, ◌≡◌, eq_refl, ◌≢◌, eq_iff, refl, ◌&&◌, sym, ◌∙◌,
}
use anima.Arch.{
  Bytes, FileSnapshot, FileOperator, IsFileOperator, snapshot_content, String, Option, Bool, Action,
}
use anima.Arch.Paths.{normpath}

abbrev rawos_unit_file : String
rawos_unit_file = "/etc/systemd/system/anima.service"

abbrev rawos_frontdoor_sshd_config : String
rawos_frontdoor_sshd_config = "/etc/ssh/sshd_config.d/50-anima-frontdoor.conf"

-- The content of each file, by the name that the operating system resolves a path to.
pub record Disk : Type 0 where
  pub file : String → Option Bytes

-- The operating system: path resolution, whether a path is itself a symbolic link and what removing
-- it then does, and the calls that fail with `OSError`.
pub record Os : Type 0 where
  pub resolve : String → String
  pub is_link : String → Bool
  pub without_link : Disk → String → Disk
  pub read_fails : Disk → String → Bool
  pub write_fails : Disk → String → Bool

-- The test of `_refuse_if_protected`
unfoldable pub is_self_protected : String → String → Bool
is_self_protected source_root path =
    let normalized = normpath path in
    let root = normpath source_root in
    str_eq normalized rawos_unit_file
    || str_eq normalized rawos_frontdoor_sshd_config
    || (str_eq normalized root || starts_with normalized (concat root "/"))

abbrev set_file : Disk → String → Option Bytes → Disk
set_file d name b = record { file = λ n. if str_eq n name then b else d.file n }

module _ (os : Os) (source_root : String) where
  refuse_if_protected : String → Action Disk Unit
  refuse_if_protected path = raise_if (is_self_protected source_root path) file_operator_refusal

  read : String → Action Disk (Option Bytes)
  read path d =
      if os.read_fails d path then (raised os_error, d) else (ok (d.file (os.resolve path)), d)

  -- `mkdir` of the parents and `write_bytes`
  pub put : String → Option Bytes → Action Disk Unit
  put path b d =
      if os.write_fails d path
      then (raised os_error, d)
      else (ok tt, set_file d (os.resolve path) b)

  -- `unlink`, which accepts a missing file, and removes a link and not the file that it leads to
  pub unlink : String → Action Disk Unit
  unfolding put
  unlink path d =
      if os.is_link path && not (os.write_fails d path)
      then (ok tt, os.without_link d path)
      else put path none d

  write : String → Bytes → Action Disk Unit
  unfolding refuse_if_protected put
  write path content = do refuse_if_protected path; put path (some content)

  exists : String → Action Disk Bool
  exists path d = (ok (not (is_none (d.file (os.resolve path)))), d)

  abbrev snapshot_of : String → Option Bytes → FileSnapshot
  snapshot_of path none = record { path = path; existed = false; content = none }
  snapshot_of path (some b) = record { path = path; existed = true; content = some b }

  backup : String → Action Disk FileSnapshot
  unfolding read
  backup path = do content ← read path; pure (snapshot_of path content)

  -- `write_bytes(None)` is a `TypeError`.
  restore_content : String → Bool → Option Bytes → Action Disk Unit
  unfolding put unlink
  restore_content path true none = raise type_error
  restore_content path true (some b) = put path (some b)
  restore_content path false content = unlink path

  restore : FileSnapshot → Action Disk Unit
  unfolding refuse_if_protected restore_content
  restore snapshot = do
    refuse_if_protected snapshot.path
    restore_content snapshot.path snapshot.existed snapshot.content

  unfoldable pub linux_file_operator : FileOperator Disk
  unfolding read write exists backup restore
  linux_file_operator = record {
    read = read;
    write = write;
    exists = exists;
    backup = backup;
    restore = restore;
  }

  abbrev Wrote : Disk → Disk → String → Option Bytes → Type 0
  Wrote d d' path b =
      (d'.file (os.resolve path) ≡ b)
      × ((q : String)
          → os.resolve q ≢ os.resolve path
          → d'.file (os.resolve q) ≡ d.file (os.resolve q))

  put-Wrote :
      (path : String) (b : Option Bytes) (d d' : Disk)
      → put path b d ≡ (ok tt, d')
      → Wrote d d' path b
  unfolding put
  put-Wrote path b d d' h = (
    ground (arith, eq_refl (os.resolve path)),
    λ q ne. ground (arith, ne, eq_iff (os.resolve q) (os.resolve path)),
  )

  write-Wrote :
      (path : String) (b : Bytes) (d d' : Disk)
      → write path b d ≡ (ok tt, d')
      → Wrote d d' path (some b)
  unfolding write
  write-Wrote path b d d' h = put-Wrote path (some b) d d' (ground arith)

  pub unlink-put :
      (path : String) (d : Disk) → os.is_link path ≡ false → unlink path d ≡ put path none d
  unfolding unlink
  unlink-put path d h = rw h refl

  restore_content-Wrote :
      (no_links : (p : String) → os.is_link p ≡ false) (path : String) (existed : Bool)
      (content : Option Bytes) (d d' : Disk)
      → restore_content path existed content d ≡ (ok tt, d')
      → Wrote d d' path (if existed then content else none)
  unfolding restore_content
  restore_content-Wrote no_links path true none d d' h = cc
  restore_content-Wrote no_links path true (some b) d d' h = put-Wrote path (some b) d d' h
  restore_content-Wrote no_links path false content d d' h =
      put-Wrote path none d d' (sym (unlink-put path d (no_links path)) ∙ h)

  restore-Wrote :
      (no_links : (p : String) → os.is_link p ≡ false) (s : FileSnapshot) (d d' : Disk)
      → restore s d ≡ (ok tt, d')
      → Wrote d d' s.path (snapshot_content s)
  unfolding restore
  restore-Wrote no_links s d d' h =
      restore_content-Wrote no_links s.path s.existed s.content d d' (ground arith)

  backup-captures :
      (path : String) (d d' : Disk) (s : FileSnapshot)
      → backup path d ≡ (ok s, d')
      → (d' ≡ d) × (s.path ≡ path) × (snapshot_content s ≡ d.file (os.resolve path))
  unfolding backup
  backup-captures path d d' s h = ground arith

  pub linux-IsFileOperator :
      ((p : String) → os.is_link p ≡ false) → IsFileOperator linux_file_operator
  unfolding linux_file_operator
  linux-IsFileOperator no_links = record {
    content = λ w p. w.file (os.resolve p);
    file_of = os.resolve;
    content_of_file = λ w p q e. ap w.file e;
    backup_ok = λ w w' p s h. backup-captures p w w' s h;
    write_ok = λ w w' p b h. write-Wrote p b w w' h;
    restore_ok = λ w w' s h. restore-Wrote no_links s w w' h;
  }
