-- ===== src/TrackRecord/State.antt =====
-- `TrackRecordState` of anima/kernel/track_record.py, and the equality of a frozen dataclass.
use anima.Prelude.{
  ℕ, String, ◌≡◌, Bool, true, false, ◌&&◌, Option, none, some, ◌==◌, str_eq, arith, eq_iff, refl,
  ap,
}

pub record TrackRecordState : Type 0 where
  pub verified_successes : ℕ
  pub graduated : Bool
  pub last_outcome : Option String
  pub last_fix_branch : Option String
  pub last_fix_sha : Option String
  pub pending_since : Option ℕ

-- The field defaults: a class with no row is untrusted.
abbrev pub fresh : TrackRecordState
fresh = record {
  verified_successes = 0;
  graduated = false;
  last_outcome = none;
  last_fix_branch = none;
  last_fix_sha = none;
  pending_since = none;
}

unfoldable pub option_str_eq : Option String → Option String → Bool
option_str_eq none none = true
option_str_eq (some a) (some b) = str_eq a b
option_str_eq _ _ = false

option_nat_eq : Option ℕ → Option ℕ → Bool
option_nat_eq none none = true
option_nat_eq (some a) (some b) = a == b
option_nat_eq _ _ = false

bool_eq : Bool → Bool → Bool
bool_eq true b = b
bool_eq false true = false
bool_eq false false = true

-- `new == current`
pub state_eq : TrackRecordState → TrackRecordState → Bool
state_eq s t =
    s.verified_successes == t.verified_successes
    && (bool_eq s.graduated t.graduated
        && (option_str_eq s.last_outcome t.last_outcome
            && (option_str_eq s.last_fix_branch t.last_fix_branch
                && (option_str_eq s.last_fix_sha t.last_fix_sha
                    && option_nat_eq s.pending_since t.pending_since))))

pub option_str_eq_sound : (a b : Option String) → option_str_eq a b ≡ true → a ≡ b
unfolding option_str_eq
option_str_eq_sound none none h = refl
option_str_eq_sound none (some b) h = ground arith
option_str_eq_sound (some a) none h = ground arith
option_str_eq_sound (some a) (some b) h = ap some ((eq_iff a b).0 h)

option_nat_eq_sound : (a b : Option ℕ) → option_nat_eq a b ≡ true → a ≡ b
unfolding option_nat_eq
option_nat_eq_sound a b h = ground arith

bool_eq_sound : (a b : Bool) → bool_eq a b ≡ true → a ≡ b
unfolding bool_eq
bool_eq_sound a b h = ground arith

-- States that compare equal are equal.
pub state_eq_sound : (s t : TrackRecordState) → state_eq s t ≡ true → s ≡ t
unfolding state_eq
state_eq_sound s t h = ground (
  arith,
  bool_eq_sound s.graduated t.graduated,
  option_str_eq_sound s.last_outcome t.last_outcome,
  option_str_eq_sound s.last_fix_branch t.last_fix_branch,
  option_str_eq_sound s.last_fix_sha t.last_fix_sha,
  option_nat_eq_sound s.pending_since t.pending_since,
)
