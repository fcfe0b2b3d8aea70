-- ===== src/SelfReload/Boot/Probe.antt =====
-- The probe loop of `boot_liveness_commit` in anima/kernel/self_reload.py.
use anima.Prelude.{
  true, false, none, some, zero, suc, ℕ, Option, Bool, ◌+◌, ◌≤◌, leb, ◌≡◌, ◌<◌, inl, inr, arith,
  Bool-cases,
}
use native.Mathlib.Decide.{ℕ_discrete}
use anima.SelfReload.Boot.{BootRun, probe_loop}

-- The probe passed in round `j`, and before it the deadline had not been reached.
pub record PassedAt (run : BootRun) (deadline i j : ℕ) : Type 0 where
  pub not_before : i ≤ j
  pub passed : run.probe j ≡ true
  pub in_time : (n : ℕ) → i ≤ n → n < j → run.clock n < deadline

-- It did not pass up to round `j`, at which the deadline had come.
pub record FailedAt (run : BootRun) (deadline i j : ℕ) : Type 0 where
  pub not_before : i ≤ j
  pub late : deadline ≤ run.clock j
  pub failed : (n : ℕ) → i ≤ n → n ≤ j → run.probe n ≡ false

abbrev pub Decided : BootRun → ℕ → ℕ → Option Bool → Type 0
Decided run deadline i none = ⊥
Decided run deadline i (some true) = (j : ℕ) × PassedAt run deadline i j
Decided run deadline i (some false) = (j : ℕ) × FailedAt run deadline i j

Decided-earlier :
    (run : BootRun) (deadline i : ℕ) (o : Option Bool)
    → run.probe i ≡ false
    → run.clock i < deadline
    → Decided run deadline (suc i) o
    → Decided run deadline i o
Decided-earlier run deadline i none off early d = d
Decided-earlier run deadline i (some true) off early (j, d) = (
  j,
  record {
    not_before = omega (arith, d.not_before);
    passed = d.passed;
    in_time = λ n from to. elim (ℕ_discrete n i) [
      | yes e ↦ rw e early
      | no ne ↦ d.in_time n (omega (arith, ne, from)) to
    ];
  },
)
Decided-earlier run deadline i (some false) off early (j, d) = (
  j,
  record {
    not_before = omega (arith, d.not_before);
    late = d.late;
    failed = λ n from to. elim (ℕ_discrete n i) [
      | yes e ↦ rw e off
      | no ne ↦ d.failed n (omega (arith, ne, from)) to
    ];
  },
)

-- With a clock that goes on by the interval of two seconds in each round, the loop is decided, on
-- fuel for the time up to the deadline.
pub probe_loop-Decided :
    (run : BootRun) (deadline fuel i : ℕ)
    → ((n : ℕ) → run.clock n + 2 ≤ run.clock (suc n))
    → 0 < fuel
    → deadline + 2 ≤ fuel + fuel + run.clock i
    → Decided run deadline i (probe_loop run deadline fuel i)
unfolding probe_loop
probe_loop-Decided run deadline zero i ticks some_fuel h = elim some_fuel [ ]
probe_loop-Decided run deadline (suc fuel) i ticks some_fuel h = elim (Bool-cases (run.probe i)) [
  | inl on ↦ rw on (
    i,
    record {
      not_before = omega arith;
      passed = on;
      in_time = λ n from to. absurd (omega (arith, from, to));
    },
  )
  | inr off ↦ elim (Bool-cases (leb deadline (run.clock i))) [
    | inl late ↦
        rw (off, late)
          (
            i,
            record {
              not_before = omega arith;
              late = ground (arith, late);
              failed = λ n from to. let e : n ≡ i = omega (arith, from, to) in rw e off;
            },
          )
    | inr early ↦
        let before : run.clock i < deadline = ground (arith, early) in
        rw (off, early)
          (Decided-earlier run deadline i (probe_loop run deadline fuel (suc i)) off before (
            probe_loop-Decided run deadline fuel (suc i) ticks (omega (arith, h, before))
              (omega (arith, h, ticks i))))
  ]
]
