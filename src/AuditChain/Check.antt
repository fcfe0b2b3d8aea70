-- ===== src/AuditChain/Check.antt =====
-- `verify` of anima/kernel/audit_chain.py.
use anima.AuditChain.Log.{RawRecord, Line, read_all}
use anima.AuditChain.Crypto.{Crypto, Payload}
use anima.Python.{ok, raised, Exn, key_error, Outcome}
use anima.Prelude.{
  true, false, none, some, Bool, ℕ, [], ◌∷◌, suc, String, Option, List, not, if◌then◌else◌, ◌==◌,
  str_eq, ◌+◌,
}

pub data Reason : Type 0 where
  verified empty_chain missing_field hash_mismatch chain_break : Reason
  invalid_sig_field signature_invalid seq_gap : Reason

pub record VerifyResult : Type 0 where
  pub is_ok : Bool
  pub records_verified : ℕ
  pub reason : Reason

abbrev pub failed : ℕ → Reason → VerifyResult
failed i reason = record { is_ok = false; records_verified = i; reason = reason }

abbrev pub passed : ℕ → Reason → VerifyResult
passed n reason = record { is_ok = true; records_verified = n; reason = reason }

-- What the body of the loop does with one record: it goes on with the hash and the number of the
-- record, returns, or raises.
pub data Step : Type 0 where
  next : (hash : String) (seq : ℕ) → Step
  stop : VerifyResult → Step
  crash : Exn → Step

-- The number breaks the order: `previous` is that of the record before, if there is one.
abbrev pub is_gap : Option ℕ → ℕ → Bool
is_gap none seq = false
is_gap (some before) seq = not (seq == before + 1)

module _ (k : Crypto) where
  abbrev pub sig_bytes : Option String → Option (List ℕ)
  sig_bytes none = none
  sig_bytes (some sig) = k.fromhex sig

  abbrev pub check_sig : ℕ → String → Option ℕ → ℕ → String → Option (List ℕ) → Step
  check_sig i can previous seq hash none = stop (failed i invalid_sig_field)
  check_sig i can previous seq hash (some bytes) =
      if not (k.verify_sig can bytes)
      then stop (failed i signature_invalid)
      else if is_gap previous seq
      then stop (failed i seq_gap)
      else next hash seq

  abbrev pub check_hash :
      ℕ → String → Option ℕ → String → ℕ → String → Option String → Option String → Step
  check_hash i prev_hash previous can seq rec_prev none sig = crash key_error
  check_hash i prev_hash previous can seq rec_prev (some hash) sig =
      if not (str_eq hash (k.hash_bytes can))
      then stop (failed i hash_mismatch)
      else if not (str_eq rec_prev prev_hash)
      then stop (failed i chain_break)
      else check_sig i can previous seq hash (sig_bytes sig)

  abbrev pub check_fields :
      ℕ
      → String
      → Option ℕ
      → Option ℕ
      → Option ℕ
      → Option String
      → Option (Payload k.Json)
      → Option String
      → Option String
      → Step
  check_fields i prev_hash previous (some seq) (some ts_ms) (some rec_prev) (some payload) hash
        sig =
      check_hash i prev_hash previous (k.canonical seq ts_ms rec_prev payload) seq rec_prev hash sig
  check_fields i prev_hash previous seq ts_ms rec_prev payload hash sig =
      stop (failed i missing_field)

  -- The body of the loop at record `i`, after a record with hash `prev_hash`.
  unfoldable pub check_record : ℕ → String → Option ℕ → RawRecord k → Step
  check_record i prev_hash previous r =
      check_fields i prev_hash previous r.seq r.ts_ms r.prev_hash r.payload r.hash r.sig

  unfoldable pub verify_from : ℕ → String → Option ℕ → List (RawRecord k) → Outcome VerifyResult
  unfolding check_record
  verify_from i prev_hash previous [] = ok (passed i verified)
  verify_from i prev_hash previous (r ∷ rs) = elim (check_record i prev_hash previous r) [
    | next hash seq ↦ verify_from (suc i) hash (some seq) rs
    | stop v ↦ ok v
    | crash e ↦ raised e
  ]

  abbrev pub verify_records : List (RawRecord k) → Outcome VerifyResult
  verify_records [] = ok (passed 0 empty_chain)
  verify_records (r ∷ rs) = verify_from 0 "" none (r ∷ rs)

  unfoldable pub verify : List (Line k) → Outcome VerifyResult
  unfolding verify_from
  verify file = verify_records (read_all k file)
