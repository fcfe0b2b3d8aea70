-- ===== src/Operator/UnitTopology/BootConfig.antt =====
-- The check at boot of anima/kernel/unit_topology.py: is systemd there, and is the default target safe?
use anima.Prelude.{
  true, false, none, some, arith, strip, contains_codes, Bool, Option, ◌≡◌, List, not, ℕ, refl, inl,
  inr, Bool-cases, if◌then◌else◌, ap, ◌∙◌, sym,
}
use anima.Python.{
  Action, Exn, unit_topology_unsupported, unit_topology_error, file_not_found, timeout_expired, ok,
  ◌>>=◌, ◌>>◌, raise_if, modify, gets, pure, raise, try_except, bind-ok, Outcome-cases,
  try_except-ok, try_except-raised,
}
use anima.Operator.UnitTopology.{
  allowed_default_targets, Bool, Option, raise_if, List, pure, raise, not,
}

-- `systemctl --version` and whether it returned 0, `/run/systemd`, and `systemctl get-default`.
pub record SystemdHost (W : Type 0) : Type 0 where
  pub version_ok : Action W Bool
  pub run_systemd_is_dir : Action W Bool
  pub get_default : Action W (List ℕ)

-- The module's `_support_cache` beside the host.
pub record TopologyState (W : Type 0) : Type 0 where
  pub support_cache : Option Bool
  pub host : W

-- `except (FileNotFoundError, subprocess.TimeoutExpired)`
abbrev is_missing : Exn → Bool
is_missing file_not_found = true
is_missing timeout_expired = true
is_missing e = false

module _ {W : Type 0} (systemd : SystemdHost W) where
  abbrev on_host : {A : Type 0} → Action W A → Action (TopologyState W) A
  on_host m s = let (r, w) = m s.host in (r, record s { host = w })

  abbrev remember : Bool → Action (TopologyState W) Bool
  remember b = do modify (λ s. record s { support_cache = some b }); pure b

  abbrev is_dir_too : Bool → Action (TopologyState W) Bool
  is_dir_too false = pure false
  is_dir_too true = on_host systemd.run_systemd_is_dir

  abbrev unsupported_if_missing : Exn → Action (TopologyState W) Bool
  unsupported_if_missing e = if is_missing e then remember false else raise e

  abbrev probe_unless : Option Bool → Action (TopologyState W) Bool
  probe_unless (some b) = pure b
  probe_unless none =
      try_except
        (do version_ok ← on_host systemd.version_ok; there ← is_dir_too version_ok; remember there)
        unsupported_if_missing

  -- `supported`
  unfoldable pub supported : Action (TopologyState W) Bool
  supported = do cached ← gets (λ s. s.support_cache); probe_unless cached

  -- `_get_default_target`
  unfoldable pub get_default_target : Action (TopologyState W) (List ℕ)
  unfolding strip
  get_default_target = do out ← on_host systemd.get_default; pure (strip out)

  abbrev check_target : Action (TopologyState W) Unit
  check_target = do
    default_target ← get_default_target
    raise_if (not (contains_codes allowed_default_targets default_target)) unit_topology_error

  -- `validate_boot_config`
  unfoldable pub validate_boot_config : Bool → Action (TopologyState W) Unit
  unfolding supported get_default_target contains_codes
  validate_boot_config false = pure tt
  validate_boot_config true = do
    is_supported ← supported
    raise_if (not is_supported) unit_topology_unsupported
    check_target

  remember-caches :
      (b c : Bool) (s t : TopologyState W) → remember c s ≡ (ok b, t) → t.support_cache ≡ some b
  remember-caches b c s t h = ground (arith, h)

  probe : Action (TopologyState W) Bool
  probe = do version_ok ← on_host systemd.version_ok; there ← is_dir_too version_ok; remember there

  probe-caches : (s t : TopologyState W) (b : Bool) → probe s ≡ (ok b, t) → t.support_cache ≡ some b
  unfolding probe
  probe-caches s t b h =
      let (v, u, _, rest) =
        bind-ok (on_host systemd.version_ok) (λ v. is_dir_too v >>= remember) s h in
      let (d, x, _, last) = bind-ok (is_dir_too v) remember u rest in remember-caches b d x t last

  handled-caches :
      (e : Exn) (s t : TopologyState W) (b : Bool)
      → unsupported_if_missing e s ≡ (ok b, t)
      → t.support_cache ≡ some b
  handled-caches e s t b h = elim (Bool-cases (is_missing e)) [
    | inl m ↦ ground (arith, m, h)
    | inr m ↦ ground (arith, m, h)
  ]

  tried-caches :
      (s t : TopologyState W) (b : Bool)
      → try_except probe unsupported_if_missing s ≡ (ok b, t)
      → t.support_cache ≡ some b
  tried-caches s t b h = elim (Outcome-cases (probe s).0) [
    | inl (a, e) ↦ probe-caches s t b (
        ap (λ o. (o, (probe s).1)) e
        ∙ sym (try_except-ok probe unsupported_if_missing (ap (λ o. (o, (probe s).1)) e))
        ∙ h)
    | inr (x, e) ↦
        handled-caches x (probe s).1 t b
          (sym (try_except-raised probe unsupported_if_missing (ap (λ o. (o, (probe s).1)) e)) ∙ h)
  ]

  probe_unless-caches :
      (o : Option Bool) (s t : TopologyState W) (b : Bool)
      → s.support_cache ≡ o
      → probe_unless o s ≡ (ok b, t)
      → t.support_cache ≡ some b
  unfolding probe
  probe_unless-caches (some c) s t b e h = ground (arith, e, h)
  probe_unless-caches none s t b e h = tried-caches s t b h

  supported-cached :
      (s : TopologyState W) (b : Bool) → s.support_cache ≡ some b → supported s ≡ (ok b, s)
  unfolding supported
  supported-cached s b e = rw e refl

  -- What `supported` has once answered it answers again, without another probe.
  supported_once :
      (s t : TopologyState W) (b : Bool) → supported s ≡ (ok b, t) → supported t ≡ (ok b, t)
  unfolding supported
  supported_once s t b h = supported-cached t b (probe_unless-caches s.support_cache s t b refl h)
