-- ===== src/FrontDoor/Install.antt =====
-- `install_with_deadman` and `commit` of anima/kernel/frontdoor.py. The arch backend and the systemd
-- helper are interfaces to a host with states `W`.
pub mod Safety
use anima.Python.{ok, raised, ◌>>=◌, ◌>>◌, Action, Exn, raise, try_except, front_door_install_error}
use anima.Prelude.{true, false, none, some, String, Bool, ℕ, concat, Option, ◌≡◌, ◌≢◌}

pub record FrontDoorArch (W : Type 0) : Type 0 where
  pub snapshot : Action W String
  pub install : String → Action W Unit
  pub validate : Action W Bool
  pub reload : Action W Unit
  pub restore : String → Action W Unit

pub record DeadmanSystemd (W : Type 0) : Type 0 where
  pub arm : String → ℕ → String → Action W Unit
  pub disarm : String → Action W Unit

abbrev pub deadman_unit : String
deadman_unit = "anima-frontdoor-revert"

abbrev pub revert_command : String → String
revert_command snap = concat "anima frontdoor _revert " snap

module _ {W : Type 0} (arch : FrontDoorArch W) (sd : DeadmanSystemd W) where
  -- Step 4 and 5.
  abbrev pub finish : String → Bool → Action W Unit
  finish snap true = arch.reload
  finish snap false = do sd.disarm deadman_unit; arch.restore snap; raise front_door_install_error

  abbrev pub try_install : String → String → Action W Unit
  try_install entry_command snap = do
    arch.install entry_command
    valid ← arch.validate
    finish snap valid

  -- The `except` clauses.
  abbrev pub abort : String → Exn → Action W Unit
  abort snap front_door_install_error = raise front_door_install_error
  abort snap e = do sd.disarm deadman_unit; arch.restore snap; raise front_door_install_error

  unfoldable pub install_with_deadman : String → ℕ → Action W Unit
  install_with_deadman entry_command revert_after_s = do
    snap ← arch.snapshot
    sd.arm deadman_unit revert_after_s (revert_command snap)
    try_except (try_install entry_command snap) (abort snap)

  unfoldable pub commit : Action W Unit
  commit = sd.disarm deadman_unit

  -- What the docstrings of the two interfaces say, of the configuration and the armed command. A
  -- call that raises may have changed the configuration, but neither the timer nor a snapshot, and
  -- no call raises the installer's own error.
  pub record IsFrontDoorHost : Type 1 where
    pub Config : Type 0
    pub config : W → Config
    pub saved : W → String → Config
    pub armed : W → Option String
    pub snapshot_ok :
        (w w' : W) (s : String)
        → arch.snapshot w ≡ (ok s, w')
        → (config w' ≡ config w) × (saved w' s ≡ config w)
    pub arm_ok :
        (w w' : W) (n : ℕ) (c : String)
        → sd.arm deadman_unit n c w ≡ (ok tt, w')
        → (armed w' ≡ some c) × (config w' ≡ config w) × ((s : String) → saved w' s ≡ saved w s)
    pub disarm_ok : (w w' : W) → sd.disarm deadman_unit w ≡ (ok tt, w') → armed w' ≡ none
    pub disarm_keeps : (w : W) (s : String) → saved (sd.disarm deadman_unit w).1 s ≡ saved w s
    pub restore_ok :
        (w w' : W) (s : String) → arch.restore s w ≡ (ok tt, w') → config w' ≡ saved w s
    pub restore_keeps :
        (w : W) (s t : String)
        → (armed (arch.restore s w).1 ≡ armed w) × (saved (arch.restore s w).1 t ≡ saved w t)
    pub install_keeps :
        (w : W) (e s : String)
        → (armed (arch.install e w).1 ≡ armed w) × (saved (arch.install e w).1 s ≡ saved w s)
    pub validate_keeps :
        (w : W) (s : String)
        → (armed (arch.validate w).1 ≡ armed w) × (saved (arch.validate w).1 s ≡ saved w s)
    pub reload_keeps :
        (w : W) (s : String)
        → (armed (arch.reload w).1 ≡ armed w) × (saved (arch.reload w).1 s ≡ saved w s)
    pub own_error :
        (w : W) (c s : String) (n : ℕ)
        → ((arch.snapshot w).0 ≢ raised front_door_install_error)
          × ((sd.arm deadman_unit n c w).0 ≢ raised front_door_install_error)
          × ((sd.disarm deadman_unit w).0 ≢ raised front_door_install_error)
          × ((arch.install c w).0 ≢ raised front_door_install_error)
          × ((arch.validate w).0 ≢ raised front_door_install_error)
          × ((arch.reload w).0 ≢ raised front_door_install_error)
          × ((arch.restore s w).0 ≢ raised front_door_install_error)
