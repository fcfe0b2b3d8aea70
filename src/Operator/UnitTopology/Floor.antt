-- ===== src/Operator/UnitTopology/Floor.antt =====
-- The floor closure of anima/kernel/unit_topology.py.
use anima.Prelude.{
  [], ◌∷◌, true, false, none, some, arith, List, String, Option, contains, if◌then◌else◌, ◌++◌,
  Bool, ◌≡◌, ◌==◌, str_eq, ◌||◌, is_none, ◌&&◌, concat, refl,
}
use Prim.Native.Char.{code}

abbrev pub floor_unit_seed : List String
floor_unit_seed =
    "sshd.service" ∷ "sshd" ∷ "ssh.service" ∷ "ssh" ∷ "systemd" ∷ "init"
    ∷ "systemd-networkd.service" ∷ "systemd-networkd" ∷ "NetworkManager.service" ∷ "NetworkManager"
    ∷ "network.target" ∷ "network" ∷ "network-online.target" ∷ "network-online" ∷ "anima.service"
    ∷ "anima" ∷ "rawos-bpf-lsm-holder.service" ∷ "rawos-bpf-lsm-holder"
    ∷ "rawos-bpf-lsm-revert.service" ∷ "rawos-bpf-lsm-revert" ∷ "anima-pam-revert.service"
    ∷ "anima-pam-revert" ∷ "anima-unit-topology-revert.service" ∷ "anima-unit-topology-revert"
    ∷ "rawos-venv-revert.service" ∷ "rawos-venv-revert" ∷ "systemd-logind.service"
    ∷ "systemd-logind" ∷ "getty@.service" ∷ "getty@tty1.service" ∷ "getty@"
    ∷ "anima-frontdoor.service" ∷ "anima-frontdoor" ∷ "basic.target" ∷ "sysinit.target"
    ∷ "multi-user.target" ∷ "default.target" ∷ "graphical.target" ∷ "dbus.service" ∷ "dbus"
    ∷ "systemd-journald.service" ∷ "systemd-journald" ∷ []

-- `unit[:unit.rfind(".")]`, where there is a dot.
unfoldable pub before_last_dot : String → Option String
before_last_dot String.[] = none
before_last_dot (String.◌∷◌ c s) = elim (before_last_dot s) [
  | some bare ↦ some (String.◌∷◌ c bare)
  | none ↦ if code c == b'.' then some "" else none
]

-- As a list: empty where the dot is missing or at the start (`dot_pos > 0`).
abbrev nonempty : Option String → List String
nonempty none = []
nonempty (some s) = if str_eq s "" then [] else s ∷ []

unfoldable pub bare : String → List String
unfolding before_last_dot
bare unit = nonempty (before_last_dot unit)

unfoldable pub bares : List String → List String
bares [] = []
bares (u ∷ us) = bare u ++ bares us

-- `compute_floor_closure`, from the unit names that its two patterns find in the listing.
unfoldable pub floor_closure : List String → List String
unfolding bares
floor_closure units = let found = floor_unit_seed ++ units ++ bares units in found ++ bares found

abbrev has_any : List String → List String → Bool
has_any floor [] = false
has_any floor (u ∷ us) = contains floor u || has_any floor us

unfoldable pub is_floor_protected : String → List String → Bool
unfolding bare contains before_last_dot
is_floor_protected unit_name floor =
    contains floor unit_name
    || (has_any floor (bare unit_name)
        || (is_none (before_last_dot unit_name) && contains floor (concat unit_name ".service")))

pub contains-append :
    (xs ys : List String) (u : String) → contains (xs ++ ys) u ≡ (contains xs u || contains ys u)
unfolding contains
contains-append [] ys u = refl
contains-append (x ∷ xs) ys u = ground (arith, contains-append xs ys u)

pub contains-closed :
    (seed units more last : List String) (u : String)
    → contains (seed ++ units) u ≡ true
    → contains (seed ++ units ++ more ++ last) u ≡ true
contains-closed seed units more last u h =
    ground (
      arith,
      contains-append (seed ++ units) more u,
      contains-append (seed ++ units ++ more) last u,
    )

pub is_floor_protected-contains :
    (u : String) (floor : List String) → contains floor u ≡ true → is_floor_protected u floor ≡ true
unfolding is_floor_protected
is_floor_protected-contains u floor h = rw h

-- Whatever dependencies are listed, each unit of the seed and each listed unit is protected.
pub floor_closure_protects :
    (units : List String) (u : String)
    → contains (floor_unit_seed ++ units) u ≡ true
    → is_floor_protected u (floor_closure units) ≡ true
unfolding floor_closure
floor_closure_protects units u h = is_floor_protected-contains u (floor_closure units) (
    contains-closed floor_unit_seed units (bares units)
      (bares (floor_unit_seed ++ units ++ bares units)) u h)
