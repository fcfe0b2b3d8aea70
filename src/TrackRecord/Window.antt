-- ===== src/TrackRecord/Window.antt =====
-- What the earned ladder of anima/kernel/track_record.py promises over any sequence of scan cycles.
use native.Mathlib.Nat.{add-zero}
use anima.Prelude.{suc, ◌≡◌, ◌≤◌, leb, arith, Bool-cases, true, none, inl, ◌↔◌, ◌||◌, inr, [], refl}
use anima.TrackRecord.{
  Cycle, advance_state, advance_all, operator_cycle, Bool, List, ℕ, ◌&&◌, ◌∷◌, if◌then◌else◌, ◌+◌,
  not, is_none,
}
use anima.TrackRecord.State.{TrackRecordState, fresh, option_str_eq}

-- A cycle that observes a merged fix and no anomaly.
abbrev pub is_resolved : Cycle → Bool
is_resolved c = c.branch_merged && not c.anomaly_present

abbrev pub resolved_count : List Cycle → ℕ
resolved_count [] = 0
resolved_count (c ∷ cs) = let rest = resolved_count cs in if is_resolved c then suc rest else rest

abbrev pending : TrackRecordState → ℕ
pending s = if is_none s.pending_since then 0 else 1

-- The flag follows the count, and each success was paid for by two resolved cycles out of `n`.
record Earned (s : TrackRecordState) (n : ℕ) : Type 0 where
  flag : s.graduated ≡ leb 3 s.verified_successes
  paid : s.verified_successes + s.verified_successes + pending s ≤ n

advance_state-Earned :
    (s : TrackRecordState) (c : Cycle) (n : ℕ)
    → Earned s n
    → Earned (advance_state s c) (if is_resolved c then suc n else n)
unfolding advance_state
advance_state-Earned s c n h = ground arith

advance_all-Earned :
    (s : TrackRecordState) (cs : List Cycle) (n : ℕ)
    → Earned s n
    → Earned (advance_all s cs) (n + resolved_count cs)
unfolding advance_all
advance_all-Earned s [] n h = rw add-zero h
advance_all-Earned s (c ∷ cs) n h =
    let later = advance_all-Earned (advance_state s c) cs _ (advance_state-Earned s c n h) in
    elim (Bool-cases (is_resolved c)) [
      | inl e ↦ record { flag = later.flag; paid = ground (arith, later.paid) }
      | inr e ↦ record { flag = later.flag; paid = ground (arith, later.paid) }
    ]

-- From an untrusted start, whatever the cycles: a class is graduated exactly if it has at least
-- three verified successes, and then at least six of the cycles observed a merged fix with the
-- anomaly absent.
pub graduation_is_earned :
    (cs : List Cycle)
    → let s = advance_all fresh cs in
      ((s.graduated ≡ true) ↔ (3 ≤ s.verified_successes))
      × (s.graduated ≡ true → 6 ≤ resolved_count cs)
graduation_is_earned cs =
    let h = advance_all-Earned fresh cs 0 (record { flag = refl; paid = omega arith }) in
    ground (arith, h.flag, h.paid)

advance_state_grows :
    (s : TrackRecordState) (c : Cycle)
    → (s.verified_successes ≤ (advance_state s c).verified_successes)
      × (s.graduated ≡ true → (advance_state s c).graduated ≡ true)
unfolding advance_state
advance_state_grows s c = ground arith

-- No sequence of cycles, regressions among them, lowers the count of verified successes or takes a
-- graduation back.
pub graduation_is_permanent :
    (cs : List Cycle) (s : TrackRecordState)
    → (s.verified_successes ≤ (advance_all s cs).verified_successes)
      × (s.graduated ≡ true → (advance_all s cs).graduated ≡ true)
unfolding advance_all
graduation_is_permanent [] s = ground arith
graduation_is_permanent (c ∷ cs) s =
    ground (arith, advance_state_grows s c, graduation_is_permanent cs (advance_state s c))

-- Two verified outcomes in a row, of a class without branches, are one verified success.
pub two_verified :
    (s : TrackRecordState) (t u : ℕ)
    → s.last_fix_branch ≡ none
    → let s' = advance_state (advance_state s (operator_cycle true t)) (operator_cycle true u) in
      (s'.verified_successes ≡ s.verified_successes + 1)
      × (s'.last_fix_branch ≡ none)
      × (s'.graduated ≡ (s.graduated || leb 3 (s.verified_successes + 1)))
unfolding advance_state option_str_eq
two_verified s t u b = ground arith

-- One outcome of a class without branches leaves it without one.
pub advance_state-no_branch :
    (s : TrackRecordState) (verified : Bool) (now : ℕ)
    → s.last_fix_branch ≡ none
    → (advance_state s (operator_cycle verified now)).last_fix_branch ≡ none
unfolding advance_state
advance_state-no_branch s verified now h = ground arith
