-- ===== src/DepLock/Tests.antt =====
-- Concrete comparisons of anima/kernel/dep_lock.py.
use anima.Prelude.{[], ◌∷◌, refl, true, ◌≡◌, List, codes, ◌↔◌}
use anima.DepLock.{
  Text, lock_lines, freeze_lines, verify_dep_lock, parse_freeze, version_of, List, codes,
}
use anima.DepLock.Drift.{verify_dep_lock_is_exact}

abbrev as_found : List Text → List Text
as_found texts = texts

abbrev locked : List Text
locked = codes "# pinned" ∷ codes "Typing-Extensions==4.1" ∷ codes "httpx==0.26" ∷ []

abbrev installed : List Text
installed = codes "httpx == 0.26" ∷ codes "typing_extensions==4.1" ∷ []

verify_dep_lock_is_exact_example :
    ((verify_dep_lock as_found (lock_lines locked) (freeze_lines installed)).ok ≡ true) ↔ (
      (l i : List Text) × (lock_lines locked ≡ lock_lines l)
      × (freeze_lines installed ≡ freeze_lines i)
      × ((n : Text) → version_of (parse_freeze l) n ≡ version_of (parse_freeze i) n))
verify_dep_lock_is_exact_example =
    verify_dep_lock_is_exact as_found (λ texts. refl) (lock_lines locked) (freeze_lines installed)

no_drift : (verify_dep_lock as_found (lock_lines locked) (freeze_lines installed)).ok ≡ true
unfolding verify_dep_lock
no_drift = refl

-- A requirement that names a file has no "==", and its package can come and go unseen.
direct_reference_is_unseen :
    (verify_dep_lock as_found
      (lock_lines locked)
      (freeze_lines (codes "evil @ file:///tmp/evil.whl" ∷ installed))).ok
    ≡ true
unfolding verify_dep_lock
direct_reference_is_unseen = refl
