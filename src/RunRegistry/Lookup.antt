-- ===== src/RunRegistry/Lookup.antt =====
-- The table of runs in anima/api/run_registry.py. The runs are shared objects, which their writers go
-- on changing, so the table holds references to them.
use mathlib.Core.Path.{subst}
use anima.Prelude.{
  ℕ, String, Bool, List, Option, [], ◌∷◌, refl, false, none, some, suc, inl, inr, ltb, ◌&&◌, ◌≡◌,
  if◌then◌else◌, ◌-◌, str_eq, ◌==◌, Bool-cases, eq_of_str_eq, ◌∙◌, sym, ap, ne_of_str_eq, eq_refl,
  true, arith,
}
use anima.RunRegistry.{Run, new_run}

-- The dict, in the order of insertion, and the objects; `next` is the first reference that is free.
pub record RunRegistry (E : Type 0) : Type 0 where
  pub runs : List (String × ℕ)
  pub objects : ℕ → Run E
  pub next : ℕ

-- The condition in `_evict_expired`, at a time on the clock in whole seconds.
abbrev pub overdue : ℕ → ℕ → Option ℕ → Bool
overdue ttl now none = false
overdue ttl now (some finished_at) = ltb ttl (now - finished_at)

unfoldable pub lookup : String → List (String × ℕ) → Option ℕ
lookup run_id [] = none
lookup run_id ((key, ref) ∷ runs) = if str_eq run_id key then some ref else lookup run_id runs

-- `self._runs[run_id] = run`
unfoldable pub set_run : String → ℕ → List (String × ℕ) → List (String × ℕ)
set_run run_id ref [] = (run_id, ref) ∷ []
set_run run_id ref ((key, old) ∷ runs) =
    if str_eq run_id key then (key, ref) ∷ runs else (key, old) ∷ set_run run_id ref runs

module _ {E : Type 0} (ttl now : ℕ) where
  abbrev pub is_expired : Run E → Bool
  is_expired run = run.done && overdue ttl now run.finished_at

  unfoldable pub unexpired : (ℕ → Run E) → List (String × ℕ) → List (String × ℕ)
  unexpired objects [] = []
  unexpired objects ((key, ref) ∷ runs) =
      if is_expired (objects ref)
      then unexpired objects runs
      else (key, ref) ∷ unexpired objects runs

  abbrev pub evict_expired : RunRegistry E → RunRegistry E
  evict_expired registry = record registry { runs = unexpired registry.objects registry.runs }

  -- `get`: the reference, and the registry after the eviction.
  unfoldable pub get : String → RunRegistry E → Option ℕ × RunRegistry E
  unfolding unexpired lookup
  get run_id registry = let kept = evict_expired registry in (lookup run_id kept.runs, kept)

  unfoldable pub create : String → String → RunRegistry E → ℕ × RunRegistry E
  unfolding unexpired set_run
  create run_id user_id registry =
      let kept = evict_expired registry in
      (
        kept.next,
        record {
          runs = set_run run_id kept.next kept.runs;
          objects = λ ref. if ref == kept.next then new_run run_id user_id else kept.objects ref;
          next = suc kept.next;
        },
      )

-- Each run id is a key once.
abbrev pub IsDict : List (String × ℕ) → Type 0
IsDict [] = Unit
IsDict ((key, ref) ∷ runs) = (lookup key runs ≡ none) × IsDict runs

module _ {E : Type 0} (ttl now : ℕ) where
  -- What a lookup shows of an entry.
  abbrev pub visible : (ℕ → Run E) → Option ℕ → Option ℕ
  visible objects none = none
  visible objects (some ref) = if is_expired ttl now (objects ref) then none else some ref

  lookup-unexpired :
      (objects : ℕ → Run E) (run_id : String) (runs : List (String × ℕ))
      → IsDict runs
      → lookup run_id (unexpired ttl now objects runs) ≡ visible objects (lookup run_id runs)
  unfolding lookup unexpired
  lookup-unexpired objects run_id [] d = refl
  lookup-unexpired objects run_id ((key, ref) ∷ runs) d =
      let rest = lookup-unexpired objects run_id runs d.1 in
      elim (Bool-cases (str_eq run_id key)) [
        | inr other ↦ elim (Bool-cases (is_expired ttl now (objects ref))) [
          | inl gone ↦ rw (gone, other) rest
          | inr kept ↦ rw (kept, other) rest
        ]
        | inl here ↦
            let same : run_id ≡ key = eq_of_str_eq here in
            elim (Bool-cases (is_expired ttl now (objects ref))) [
              | inl gone ↦
                  let absent : lookup run_id runs ≡ none =
                    subst (λ s. lookup s runs ≡ none) (sym same) d.0 in
                  rw (gone, here, gone) (rest ∙ ap (visible objects) absent)
              | inr kept ↦ rw (kept, here, kept) refl
            ]
      ]

  unexpired-absent :
      (objects : ℕ → Run E) (key : String) (runs : List (String × ℕ))
      → IsDict runs
      → lookup key runs ≡ none
      → lookup key (unexpired ttl now objects runs) ≡ none
  unexpired-absent objects key runs d absent =
      lookup-unexpired objects key runs d ∙ ap (visible objects) absent

  unexpired-IsDict :
      (objects : ℕ → Run E) (runs : List (String × ℕ))
      → IsDict runs
      → IsDict (unexpired ttl now objects runs)
  unfolding unexpired
  unexpired-IsDict objects [] d = tt
  unexpired-IsDict objects ((key, ref) ∷ runs) d =
      elim (Bool-cases (is_expired ttl now (objects ref))) [
        | inl gone ↦ rw gone (unexpired-IsDict objects runs d.1)
        | inr kept ↦
            rw kept (unexpired-absent objects key runs d.1 d.0, unexpired-IsDict objects runs d.1)
      ]

other_key : (run_id key q : String) → str_eq run_id key ≡ false → q ≡ key → str_eq q run_id ≡ false
other_key run_id key q other same = elim (Bool-cases (str_eq q run_id)) [
  | inl found ↦ absurd (ne_of_str_eq other (sym (eq_of_str_eq found) ∙ same))
  | inr missed ↦ missed
]

lookup-set_run :
    (run_id : String) (ref : ℕ) (q : String) (runs : List (String × ℕ))
    → lookup q (set_run run_id ref runs) ≡ (if str_eq q run_id then some ref else lookup q runs)
unfolding lookup set_run
lookup-set_run run_id ref q [] = refl
lookup-set_run run_id ref q ((key, old) ∷ runs) = elim (Bool-cases (str_eq run_id key)) [
  | inl here ↦
      let same : run_id ≡ key = eq_of_str_eq here in
      rw here (
        subst
          (λ k.
            lookup q ((k, ref) ∷ runs)
            ≡ (if str_eq q run_id then some ref else lookup q ((k, old) ∷ runs)))
          same
          (elim (Bool-cases (str_eq q run_id)) [
            | inl found ↦ rw found refl
            | inr missed ↦ rw missed refl
          ]))
  | inr other ↦
      let rest = lookup-set_run run_id ref q runs in
      elim (Bool-cases (str_eq q key)) [
        | inr not_key ↦ rw (other, not_key) rest
        | inl at_key ↦
            let not_id : str_eq q run_id ≡ false =
              other_key run_id key q other (eq_of_str_eq at_key) in
            rw (other, at_key, not_id) refl
      ]
]

set_run-IsDict :
    (run_id : String) (ref : ℕ) (runs : List (String × ℕ))
    → IsDict runs
    → IsDict (set_run run_id ref runs)
unfolding lookup set_run
set_run-IsDict run_id ref [] d = (refl, tt)
set_run-IsDict run_id ref ((key, old) ∷ runs) d = elim (Bool-cases (str_eq run_id key)) [
  | inl here ↦ rw here d
  | inr other ↦
      let not_id : str_eq key run_id ≡ false = other_key run_id key key other refl in
      let absent : lookup key (set_run run_id ref runs) ≡ none =
        lookup-set_run run_id ref key runs ∙ rw not_id d.0 in
      rw other (absent, set_run-IsDict run_id ref runs d.1)
]

-- After a `create` in a table with each id once, which it keeps, a `get` of the new id at any time
-- gives the new run, and a `get` of another id gives what it had, unless that run is expired by then.
pub create-get :
    {E : Type 0} (ttl now later : ℕ) (run_id user_id q : String) (registry : RunRegistry E)
    → IsDict registry.runs
    → let (ref, after) = create ttl now run_id user_id registry in
      IsDict after.runs
      × (after.objects ref ≡ new_run run_id user_id)
      × ((get ttl later run_id after).0 ≡ some ref)
      × (str_eq q run_id ≡ false
          → (get ttl later q after).0
            ≡ visible ttl later after.objects
                (visible ttl now registry.objects (lookup q registry.runs)))
unfolding create get
create-get ttl now later run_id user_id q registry d =
    let kept = evict_expired ttl now registry in
    let dict =
      set_run-IsDict run_id kept.next kept.runs
        (unexpired-IsDict ttl now registry.objects registry.runs d) in
    let objects = (create ttl now run_id user_id registry).1.objects in
    let self_eq : (kept.next == kept.next) ≡ true = ground arith in
    let fresh_run : objects kept.next ≡ new_run run_id user_id = rw self_eq refl in
    let found : lookup run_id (set_run run_id kept.next kept.runs) ≡ some kept.next =
      lookup-set_run run_id kept.next run_id kept.runs ∙ rw (eq_refl run_id) refl in
    let others : str_eq q run_id ≡ false
        → lookup q (set_run run_id kept.next kept.runs)
          ≡ visible ttl now registry.objects (lookup q registry.runs) =
      λ other.
        lookup-set_run run_id kept.next q kept.runs
        ∙ rw other (lookup-unexpired ttl now registry.objects q registry.runs d) in
    let shown : visible ttl later objects (some kept.next) ≡ some kept.next =
      ground (arith, fresh_run) in
    (
      dict,
      fresh_run,
      lookup-unexpired ttl later objects run_id _ dict
          ∙ ap (visible ttl later objects) found
          ∙ shown,
      λ other.
          lookup-unexpired ttl later objects q _ dict
          ∙ ap (visible ttl later objects) (others other),
    )
