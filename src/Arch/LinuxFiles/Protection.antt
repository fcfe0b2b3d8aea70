-- ===== src/Arch/LinuxFiles/Protection.antt =====
-- The lockout floor of `LinuxFileOperator` (anima/kernel/arch/linux.py): which files its writes and
-- restores can reach.
use text.Mathlib.Text.{starts_with}
use anima.Python.{Outcome}
use anima.Arch.LinuxFiles.{unlink-put, ap, not}
use anima.Prelude.{
  [], ◌∷◌, refl, true, false, none, some, arith, String, List, Option, Bool, ◌≢◌, ◌≡◌, eq_iff, inl,
  inr, Bool-cases, sym, ◌∙◌, ◌&&◌, ap, not,
}
use anima.Arch.{Bytes, FileSnapshot, String, List, Option, Bool}
use anima.Arch.LinuxFiles.{
  Disk, Os, is_self_protected, put, write, restore_content, restore, refuse_if_protected, eq_iff,
  normpath,
}

-- The calls that change files.
pub data FileCall : Type 0 where
  write_call : String → Bytes → FileCall
  restore_call : FileSnapshot → FileCall

abbrev pub target : FileCall → String
target (write_call path b) = path
target (restore_call s) = s.path

-- An absolute path with one leading slash: `normpath` keeps two of them, and Linux takes them for one.
abbrev pub is_plain : String → Bool
is_plain p = starts_with p "/" && not (starts_with p "//")

abbrev pub all_plain : List FileCall → Bool
all_plain [] = true
all_plain (c ∷ cs) = is_plain (target c) && all_plain cs

module _ (os : Os) (source_root : String) where
  -- One call, its exception dropped.
  pub perform : Disk → FileCall → Disk
  unfolding write restore
  perform d (write_call path b) = (write os source_root path b d).1
  perform d (restore_call s) = (restore os source_root s d).1

  pub perform_all : Disk → List FileCall → Disk
  perform_all d [] = d
  perform_all d (c ∷ cs) = perform_all (perform d c) cs

  put_elsewhere :
      (path : String) (b : Option Bytes) (d : Disk) (name : String)
      → name ≢ os.resolve path
      → (put os source_root path b d).1.file name ≡ d.file name
  unfolding put
  put_elsewhere path b d name ne = ground (arith, ne, eq_iff name (os.resolve path))

  restore_content_elsewhere :
      (no_links : (p : String) → os.is_link p ≡ false) (path : String) (existed : Bool)
      (content : Option Bytes) (d : Disk) (name : String)
      → name ≢ os.resolve path
      → (restore_content os source_root path existed content d).1.file name ≡ d.file name
  unfolding restore_content
  restore_content_elsewhere no_links path true none d name ne = refl
  restore_content_elsewhere no_links path true (some b) d name ne =
      put_elsewhere path (some b) d name ne
  restore_content_elsewhere no_links path false content d name ne =
      ap (λ (r : Outcome Unit × Disk). r.1.file name)
        (unlink-put os source_root path d (no_links path))
      ∙ put_elsewhere path none d name ne

  perform_elsewhere :
      (no_links : (p : String) → os.is_link p ≡ false) (c : FileCall) (d : Disk) (name : String)
      → name ≢ os.resolve (target c)
      → (perform d c).file name ≡ d.file name
  unfolding perform
  perform_elsewhere no_links (write_call path b) d name ne =
      ground (arith, put_elsewhere path (some b) d name ne)
  perform_elsewhere no_links (restore_call s) d name ne =
      ground (arith, restore_content_elsewhere no_links s.path s.existed s.content d name ne)

  -- A call at a protected path is refused before anything is touched.
  perform_refused :
      (c : FileCall) (d : Disk) → is_self_protected source_root (target c) ≡ true → perform d c ≡ d
  unfolding perform refuse_if_protected
  perform_refused (write_call path b) d h = ground arith
  perform_refused (restore_call s) d h = ground arith

  is_self_protected_of_file :
      (p q : String)
      → normpath p ≡ normpath q
      → is_self_protected source_root p ≡ is_self_protected source_root q
  unfolding is_self_protected
  is_self_protected_of_file p q e = rw e

  module _ (no_links : (p : String) → os.is_link p ≡ false)
      (lexical : (p : String) → is_plain p ≡ true → os.resolve p ≡ normpath p) where
    perform_protected :
        (c : FileCall) (d : Disk) (q : String)
        → is_plain (target c) ≡ true
        → is_self_protected source_root q ≡ true
        → (perform d c).file (normpath q) ≡ d.file (normpath q)
    perform_protected c d q plain protected =
        elim (Bool-cases (is_self_protected source_root (target c))) [
          | inl e ↦ rw (perform_refused c d e)
          | inr e ↦ perform_elsewhere no_links c d (normpath q) λ same. cc (
            e,
            protected,
            is_self_protected_of_file (target c) q (sym (lexical (target c) plain) ∙ sym same),
          )
        ]

    -- Where there are no symbolic links, and the system resolves a path with exactly one leading slash
    -- as `normpath` does, no sequence of writes and restores at such paths changes a self-protected
    -- file, however its path is spelled.
    pub protected_files_unchanged :
        (cs : List FileCall) (d : Disk) (q : String)
        → all_plain cs ≡ true
        → is_self_protected source_root q ≡ true
        → (perform_all d cs).file (normpath q) ≡ d.file (normpath q)
    unfolding perform_all
    protected_files_unchanged [] d q plain protected = refl
    protected_files_unchanged (c ∷ cs) d q plain protected =
        protected_files_unchanged cs (perform d c) q (ground (arith, plain)) protected
        ∙ perform_protected c d q (ground (arith, plain)) protected

  -- The guard compares the normalised spelling and not the resolved file: a path that passes it and
  -- that the system resolves to another file, a self-protected one too, is written through.
  pub alias_is_written :
      (p q : String) (b : Bytes) (d : Disk)
      → is_self_protected source_root p ≡ false
      → os.resolve p ≡ os.resolve q
      → os.write_fails d p ≡ false
      → (perform d (write_call p b)).file (os.resolve q) ≡ some b
  unfolding perform put refuse_if_protected
  alias_is_written p q b d e same works = ground (arith, eq_iff (os.resolve q) (os.resolve p))
