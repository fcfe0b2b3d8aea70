-- ===== src/DepLock/Drift.antt =====
-- What an answer without drift of anima/kernel/dep_lock.py says.
use anima.Prelude.{
  [], ◌∷◌, refl, true, false, none, some, inl, inr, arith, All, codes_eq, List, Option, ◌≡◌,
  Bool-cases, sym, is_none, ◌∙◌, ap, ◌↔◌, not,
}
use mathlib.Core.Path.{subst}
use anima.DepLock.{
  pins, changes, Text, Packages, version_of, names_of, lacking, differing, differ, is_empty, drift,
  LockFile, Freeze, lock_lines, freeze_lines, verify_dep_lock, parse_freeze, missing, read_error,
  freeze_failed, codes_eq, List, Option, is_none, not,
}

codes_eq_sound : (a b : Text) → codes_eq a b ≡ true → a ≡ b
unfolding codes_eq
codes_eq_sound [] [] e = refl
codes_eq_sound [] (y ∷ b) e = ground (arith, e)
codes_eq_sound (x ∷ a) [] e = ground (arith, e)
codes_eq_sound (x ∷ a) (y ∷ b) e =
    let tail : a ≡ b = codes_eq_sound a b (ground (arith, e)) in
    let head : x ≡ y = ground (arith, e) in rw (head, tail) refl

codes_eq_refl : (a : Text) → codes_eq a a ≡ true
unfolding codes_eq
codes_eq_refl [] = refl
codes_eq_refl (x ∷ a) = ground (arith, codes_eq_refl a)

lacking-empty :
    (others : Packages) (names : List Text)
    → is_empty (lacking others names) ≡ true
    → All (λ n. is_none (version_of others n) ≡ false) names
unfolding lacking
lacking-empty others [] e = tt
lacking-empty others (n ∷ names) e = elim (Bool-cases (is_none (version_of others n))) [
  | inl gone ↦ ground (arith, gone, e)
  | inr there ↦ (there, lacking-empty others names (ground (arith, there, e)))
]

differing-empty :
    (lock env : Packages) (names : List Text)
    → is_empty (differing lock env names) ≡ true
    → All (λ n. differ (version_of lock n) (version_of env n) ≡ false) names
unfolding differing
differing-empty lock env [] e = tt
differing-empty lock env (n ∷ names) e =
    elim (Bool-cases (differ (version_of lock n) (version_of env n))) [
      | inl other ↦ ground (arith, other, e)
      | inr same ↦ (same, differing-empty lock env names (ground (arith, same, e)))
    ]

-- What holds of every key holds of a name that has a version.
All-version :
    (P : Text → Type 0) (pkgs : Packages) (n v : Text)
    → All P (names_of pkgs)
    → version_of pkgs n ≡ some v
    → P n
unfolding version_of
All-version P [] n v h e = cc
All-version P ((m, w) ∷ pkgs) n v (here, there) e = elim (Bool-cases (codes_eq m n)) [
  | inl same ↦ subst P (codes_eq_sound m n same) here
  | inr other ↦ All-version P pkgs n v there (ground (arith, other, e))
]

agree :
    (a b : Option Text)
    → ((v : Text) → a ≡ some v → is_none b ≡ false)
    → ((v : Text) → b ≡ some v → is_none a ≡ false)
    → ((v : Text) → a ≡ some v → differ a b ≡ false)
    → a ≡ b
agree none none f g h = refl
agree none (some w) f g h = ground (arith, g w refl)
agree (some v) none f g h = ground (arith, f v refl)
agree (some v) (some w) f g h =
    let same : codes_eq v w ≡ true = ground (arith, h v refl) in rw (codes_eq_sound v w same) refl

All-map :
    (P Q : Text → Type 0) (names : List Text) → ((n : Text) → P n → Q n) → All P names → All Q names
All-map P Q [] f h = tt
All-map P Q (n ∷ names) f (here, there) = (f n here, All-map P Q names f there)

names-version : (pkgs : Packages) → All (λ n. is_none (version_of pkgs n) ≡ false) (names_of pkgs)
unfolding version_of
names-version [] = tt
names-version ((m, w) ∷ pkgs) = (
  rw (codes_eq_refl m) refl,
  All-map (λ n. is_none (version_of pkgs n) ≡ false) _ (names_of pkgs)
      (λ n there. ground (arith, there)) (names-version pkgs),
)

lacking-none :
    (others : Packages) (names : List Text)
    → All (λ n. is_none (version_of others n) ≡ false) names
    → is_empty (lacking others names) ≡ true
unfolding lacking
lacking-none others [] h = refl
lacking-none others (n ∷ names) (here, there) = rw here (lacking-none others names there)

differ_refl : (a : Option Text) → differ a a ≡ false
differ_refl none = refl
differ_refl (some v) = ap not (codes_eq_refl v)

differing-none :
    (lock env : Packages) (names : List Text)
    → ((n : Text) → version_of lock n ≡ version_of env n)
    → is_empty (differing lock env names) ≡ true
unfolding differing
differing-none lock env [] same = refl
differing-none lock env (n ∷ names) same =
    let equal : differ (version_of lock n) (version_of env n) ≡ false =
      subst (λ o. differ (version_of lock n) o ≡ false) (same n)
        (differ_refl (version_of lock n)) in
    rw equal (differing-none lock env names same)

pins-empty : (pkgs : Packages) (names : List Text) → is_empty (pins pkgs names) ≡ is_empty names
unfolding pins
pins-empty pkgs [] = refl
pins-empty pkgs (n ∷ names) = refl

changes-empty :
    (lock env : Packages) (names : List Text) → is_empty (changes lock env names) ≡ is_empty names
unfolding changes
changes-empty lock env [] = refl
changes-empty lock env (n ∷ names) = refl

module _ (sorted : List Text → List Text)
    (sorted-empty : (texts : List Text) → is_empty (sorted texts) ≡ is_empty texts) where
  added-empty :
      (pkgs : Packages) (names : List Text) → is_empty (sorted (pins pkgs names)) ≡ is_empty names
  added-empty pkgs names = sorted-empty (pins pkgs names) ∙ pins-empty pkgs names

  changed-empty :
      (lock env : Packages) (names : List Text)
      → is_empty (sorted (changes lock env names)) ≡ is_empty names
  changed-empty lock env names =
      sorted-empty (changes lock env names) ∙ changes-empty lock env names

  drift-agree :
      (lock env : Packages) (n : Text)
      → (drift sorted lock env).ok ≡ true
      → version_of lock n ≡ version_of env n
  unfolding drift
  drift-agree lock env n e =
      let added : is_empty (lacking lock (names_of env)) ≡ true =
        sym (added-empty env (lacking lock (names_of env))) ∙ ground (arith, e) in
      let removed : is_empty (lacking env (names_of lock)) ≡ true =
        sym (added-empty lock (lacking env (names_of lock))) ∙ ground (arith, e) in
      let changed : is_empty (differing lock env (names_of lock)) ≡ true =
        sym (changed-empty lock env (differing lock env (names_of lock))) ∙ ground (arith, e) in
      agree (version_of lock n) (version_of env n)
        (λ v found.
          All-version (λ k. is_none (version_of env k) ≡ false) lock n v
            (lacking-empty env (names_of lock) removed) found)
        (λ v found.
          All-version (λ k. is_none (version_of lock k) ≡ false) env n v
            (lacking-empty lock (names_of env) added) found)
        (λ v found.
          All-version (λ k. differ (version_of lock k) (version_of env k) ≡ false) lock n v
            (differing-empty lock env (names_of lock) changed) found)

  agree-drift :
      (lock env : Packages)
      → ((n : Text) → version_of lock n ≡ version_of env n)
      → (drift sorted lock env).ok ≡ true
  unfolding drift
  agree-drift lock env same =
      let added : is_empty (sorted (pins env (lacking lock (names_of env)))) ≡ true =
        added-empty env (lacking lock (names_of env))
        ∙ lacking-none lock (names_of env) (
            All-map (λ n. is_none (version_of env n) ≡ false) _ (names_of env)
              (λ n there. ap is_none (same n) ∙ there) (names-version env)) in
      let removed : is_empty (sorted (pins lock (lacking env (names_of lock)))) ≡ true =
        added-empty lock (lacking env (names_of lock))
        ∙ lacking-none env (names_of lock) (
            All-map (λ n. is_none (version_of lock n) ≡ false) _ (names_of lock)
              (λ n there. ap is_none (sym (same n)) ∙ there) (names-version lock)) in
      let changed : is_empty (sorted (changes lock env (differing lock env (names_of lock))))
          ≡ true =
        changed-empty lock env (differing lock env (names_of lock))
        ∙ differing-none lock env (names_of lock) same in
      ground (arith, added, removed, changed)

  -- With a `sorted` that keeps whether a list is empty: the answer is without drift exactly if the
  -- lock file was read, `pip freeze` worked, and the two pin the same version, or none, for each
  -- name.
  pub verify_dep_lock_is_exact :
      (lock : LockFile) (freeze : Freeze)
      → ((verify_dep_lock sorted lock freeze).ok ≡ true) ↔ (
          (locked installed : List Text) × (lock ≡ lock_lines locked)
          × (freeze ≡ freeze_lines installed)
          × ((n : Text)
              → version_of (parse_freeze locked) n ≡ version_of (parse_freeze installed) n))
  unfolding verify_dep_lock
  verify_dep_lock_is_exact missing freeze = (λ e. ground (arith, e), λ (l, i, e, f, s). cc)
  verify_dep_lock_is_exact (read_error why) freeze = (λ e. ground (arith, e), λ (l, i, e, f, s). cc)
  verify_dep_lock_is_exact (lock_lines lines) (freeze_failed why) =
      (λ e. ground (arith, e), λ (l, i, e, f, s). cc)
  verify_dep_lock_is_exact (lock_lines lines) (freeze_lines installed) = (
    λ e. (
      lines,
      installed,
      refl,
      refl,
      λ n. drift-agree (parse_freeze lines) (parse_freeze installed) n e,
    ),
    λ (l, i, e, f, s).
        let read : lines ≡ l = ground (arith, e) in
        let froze : installed ≡ i = ground (arith, f) in
        agree-drift (parse_freeze lines) (parse_freeze installed) (rw (read, froze) s),
  )
