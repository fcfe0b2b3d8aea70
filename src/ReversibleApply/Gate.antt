-- ===== src/ReversibleApply/Gate.antt =====
-- The polling loop of anima/kernel/reversible_apply.py has enough fuel.
use anima.Python.{ok, Action}
use anima.Prelude.{
  refl, zero, suc, arith, ℕ, ◌≤◌, ◌+◌, ◌≡◌, true, none, inl, inr, Option, ltb, Bool-cases, sym,
}
use anima.ReversibleApply.{ApplyHost, gate, gate_round}

gate_round-cong :
    {W : Type 0} (host : ApplyHost W) (timeout_s poll elapsed : ℕ)
    (rest rest' : Action W (Option ℕ)) (w : W)
    → (ltb elapsed timeout_s ≡ true → (v : W) → rest v ≡ rest' v)
    → gate_round host timeout_s poll elapsed rest w ≡ gate_round host timeout_s poll elapsed rest' w
unfolding gate_round
gate_round-cong host t p e rest rest' w same = elim (Bool-cases (ltb e t)) [
  | inl on ↦ let later = same on (host.health_check w).1 in ground (arith, on, later)
  | inr off ↦ ground (arith, off)
]

gate_round-late :
    {W : Type 0} (host : ApplyHost W) (timeout_s poll elapsed : ℕ) (rest : Action W (Option ℕ))
    (w : W)
    → timeout_s ≤ elapsed
    → gate_round host timeout_s poll elapsed rest w ≡ (ok none, w)
unfolding gate_round
gate_round-late host t p e rest w h = ground (arith, h)

-- Any two amounts of fuel that cover the time that is left give the same loop. The loop of the
-- code, which has none, therefore ends, after at most `timeout_s` rounds.
pub gate_enough_fuel :
    {W : Type 0} (host : ApplyHost W) (timeout_s poll fuel more elapsed : ℕ) (w : W)
    → timeout_s ≤ fuel + elapsed
    → timeout_s ≤ more + elapsed
    → gate host timeout_s poll fuel elapsed w ≡ gate host timeout_s poll more elapsed w
unfolding gate
gate_enough_fuel host t p zero zero e w h k = refl
gate_enough_fuel host t p zero (suc more) e w h k =
    sym (gate_round-late host t p e (gate host t p more (e + suc p)) w (omega (arith, h)))
gate_enough_fuel host t p (suc fuel) zero e w h k =
    gate_round-late host t p e (gate host t p fuel (e + suc p)) w (omega (arith, k))
gate_enough_fuel host t p (suc fuel) (suc more) e w h k =
    gate_round-cong host t p e (gate host t p fuel (e + suc p)) (gate host t p more (e + suc p)) w
      λ on v.
        gate_enough_fuel host t p fuel more (e + suc p) v (omega (arith, h)) (omega (arith, k))
