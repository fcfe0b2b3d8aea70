-- ===== src/Arch/LinuxFiles/Tests.antt =====
-- Concrete runs of the file operator of anima/kernel/arch/linux.py.
use anima.Prelude.{[], ◌∷◌, refl, true, false, none, if◌then◌else◌, List, ◌≡◌, str_eq}
use anima.Arch.{IsFileOperator, List}
use anima.Arch.Paths.{normpath}
use anima.Arch.LinuxFiles.{
  Disk, Os, is_self_protected, linux_file_operator, linux-IsFileOperator, str_eq,
}
use anima.Arch.LinuxFiles.Protection.{
  FileCall, write_call, restore_call, perform_all, protected_files_unchanged,
}

abbrev plain_os : Os
plain_os = record {
  resolve = normpath;
  is_link = λ p. false;
  without_link = λ d p. d;
  read_fails = λ d p. false;
  write_fails = λ d p. false;
}

-- `/tmp/link` is a symbolic link to the unit file of the service.
abbrev linked_os : Os
linked_os = record {
  resolve = λ p. if str_eq p "/tmp/link" then "/etc/systemd/system/anima.service" else p;
  read_fails = λ d p. false;
  write_fails = λ d p. false;
  is_link = λ p. str_eq p "/tmp/link";
  without_link = λ d p. d;
}

abbrev empty_disk : Disk
empty_disk = record { file = λ name. none }

linux-IsFileOperator_example : IsFileOperator (linux_file_operator plain_os "/opt/anima")
linux-IsFileOperator_example = linux-IsFileOperator plain_os "/opt/anima" (λ p. refl)

abbrev some_calls : List FileCall
some_calls =
    write_call "/opt/anima/../anima/main.py" (1 ∷ [])
    ∷ write_call "/etc/motd" (2 ∷ [])
    ∷ restore_call (record { path = "/opt//anima/main.py"; existed = false; content = none })
    ∷ []

main_is_protected : is_self_protected "/opt/anima" "/opt/anima/./main.py" ≡ true
unfolding is_self_protected normpath
main_is_protected = refl

protected_files_unchanged_example :
    (perform_all plain_os "/opt/anima" empty_disk some_calls).file (normpath "/opt/anima/./main.py")
    ≡ empty_disk.file (normpath "/opt/anima/./main.py")
protected_files_unchanged_example =
    protected_files_unchanged plain_os "/opt/anima" (λ p. refl) (λ p plain. refl) some_calls
      empty_disk "/opt/anima/./main.py" refl main_is_protected

link_is_not_protected : is_self_protected "/opt/anima" "/tmp/link" ≡ false
unfolding is_self_protected normpath
link_is_not_protected = refl
