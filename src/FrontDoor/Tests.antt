-- ===== src/FrontDoor/Tests.antt =====
-- Concrete logins and installations for anima/kernel/frontdoor.py.
use anima.Python.{ok, raised, other_error, front_door_install_error, Outcome}
use anima.Prelude.{refl, true, false, none, some, arith, ◌≡◌, String, Bool, Option, if◌then◌else◌}
use anima.FrontDoor.Entry.{LoginContext}
use anima.FrontDoor.Install.{
  FrontDoorArch, DeadmanSystemd, IsFrontDoorHost, install_with_deadman, revert_command,
}
use anima.FrontDoor.Install.Safety.{install_with_deadman_is_safe}

abbrev login : LoginContext
login = record { ssh_original_command = none; anima_healthy = some true; has_token = some true }

-- The configuration, the armed command, and the saved configuration.
record Door : Type 0 where
  config : String
  armed : Option String
  saved : String

abbrev door_arch : Bool → Bool → FrontDoorArch Door
door_arch installs restores = record {
  snapshot = λ d. (ok "snap", record d { saved = d.config });
  install = λ c d. (if installs then ok tt else raised other_error, record d { config = c });
  validate = λ d. (ok false, d);
  reload = λ d. (ok tt, d);
  restore =
      λ s d. if restores then (ok tt, record d { config = d.saved }) else (raised other_error, d);
}

abbrev timer : DeadmanSystemd Door
timer = record {
  arm = λ u n c d. (ok tt, record d { armed = some c });
  disarm = λ u d. (ok tt, record d { armed = none });
}

door_host : (installs restores : Bool) → IsFrontDoorHost (door_arch installs restores) timer
door_host installs restores = record {
  Config = String;
  config = λ d. d.config;
  saved = λ d s. d.saved;
  armed = λ d. d.armed;
  snapshot_ok = λ w w' s h. ground arith;
  arm_ok = λ w w' n c h. (ground arith, ground arith, λ s. ground arith);
  disarm_ok = λ w w' h. ground arith;
  disarm_keeps = λ w s. refl;
  restore_ok = λ w w' s h. ground arith;
  restore_keeps = λ w s t. ground arith;
  install_keeps = λ w e s. (refl, refl);
  validate_keeps = λ w s. (refl, refl);
  reload_keeps = λ w s. (refl, refl);
  own_error = λ w c s n. ground arith;
}

abbrev old_door : Door
old_door = record { config = "plain"; armed = none; saved = "" }

-- Validation fails, and the old configuration comes back.
abbrev rejected_door : Door
rejected_door = record { config = "plain"; armed = none; saved = "plain" }

rejected_install :
    install_with_deadman (door_arch true true) timer "chat" 300 old_door
    ≡ (raised front_door_install_error, rejected_door)
unfolding install_with_deadman
rejected_install = refl

install_with_deadman_is_safe_example :
    let law = door_host true true in
    (◌≡◌ {A = Outcome Unit} (raised front_door_install_error) (ok tt)
      → (snap : String) × (law.armed rejected_door ≡ some (revert_command snap))
        × (law.saved rejected_door snap ≡ law.config old_door))
    × (◌≡◌ {A = Outcome Unit} (raised front_door_install_error) (raised front_door_install_error)
        → law.config rejected_door ≡ law.config old_door)
install_with_deadman_is_safe_example =
    install_with_deadman_is_safe (door_arch true true) timer (door_host true true) "chat" 300
      old_door rejected_door (raised front_door_install_error) rejected_install
