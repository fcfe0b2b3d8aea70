-- ===== src/AuditChain/Tests.antt =====
-- Concrete runs of the audit chain of anima/kernel/audit_chain.py, over a signer that shows the
-- fields it is given.
use anima.AuditChain.Log.{chain_written, chain_untouched}
use anima.AuditChain.Histories.{Event, run, append_event, restart, history_verifies}
use anima.AuditChain.Linked.{Linked, verify_accepts_intact}
use anima.AuditChain.Check.{VerifyResult, verify}
use anima.AuditChain.Log.{
  AuditChain, RawRecord, signed_record, Line, open_chain, lines_of, object, read_all,
}
use Prim.Native.Char.{code}
use anima.AuditChain.Crypto.{Crypto, IsSigner}
use anima.Python.{ok}
use anima.Prelude.{
  zero, suc, ℕ, String, ◌≡◌, refl, ap, [], ◌∷◌, true, none, some, ◌≢◌, List, ◌↔◌, length, arith,
  sym,
}

-- A number as a run of letters before a text.
tally : ℕ → String → String
tally zero s = String.◌∷◌ "." s
tally (suc n) s = String.◌∷◌ "1" (tally n s)

head_code : String → ℕ
head_code String.[] = 0
head_code (String.◌∷◌ c s) = code c

marks_differ : (a b : String) → String.◌∷◌ "." a ≢ String.◌∷◌ "1" b
unfolding head_code
marks_differ a b h = let same : 46 ≡ 49 = ap head_code h in omega (arith, same)

tally-injective : (n m : ℕ) (a b : String) → tally n a ≡ tally m b → (n ≡ m) × (a ≡ b)
unfolding tally
tally-injective zero zero a b h = (refl, cc)
tally-injective zero (suc m) a b h = absurd (marks_differ a (tally m b) h)
tally-injective (suc n) zero a b h = absurd (marks_differ b (tally n a) (sym h))
tally-injective (suc n) (suc m) a b h =
    let (same, rest) = tally-injective n m a b cc in (ap suc same, rest)

-- The payload is not shown; a digest has a mark in front of its text.
abbrev clear : Crypto
clear = record {
  Json = Unit;
  text = λ s. tt;
  canonical = λ seq ts prev payload. tally seq (tally ts prev);
  hash_bytes = λ s. String.◌∷◌ "#" s;
  sign_hex = λ s. "";
  fromhex = λ s. some [];
  verify_sig = λ s b. true;
}

clear-IsSigner : IsSigner clear
clear-IsSigner = record { signed = λ bytes. ([], refl, refl) }

clear_fields :
    (s t : ℕ) (p : String) (s' t' : ℕ) (p' : String)
    → tally s (tally t p) ≡ tally s' (tally t' p')
    → (s ≡ s') × (t ≡ t') × (p ≡ p')
clear_fields s t p s' t' p' h =
    let (es, rest) = tally-injective s s' (tally t p) (tally t' p') h in
    let (et, ep) = tally-injective t t' p p' rest in (es, et, ep)

hash_injective : (a b : String) → String.◌∷◌ "#" a ≡ String.◌∷◌ "#" b → a ≡ b
hash_injective a b h = cc

hash_not_empty : (a : String) → String.◌∷◌ "#" a ≢ ""
hash_not_empty a h = cc

-- Two records are written, one append fails, the process restarts, a third record is written.
abbrev busy : List (Event clear)
busy =
    append_event "start" [] 5 chain_written
    ∷ append_event "operate" [] 6 chain_written
    ∷ append_event "operate" [] 7 chain_untouched
    ∷ restart
    ∷ append_event "stop" [] 8 chain_written
    ∷ []

abbrev busy_chain : AuditChain clear
busy_chain = run clear (open_chain clear none) busy

history_verifies_example :
    (v : VerifyResult) × (verify clear (lines_of clear busy_chain.file) ≡ ok v)
    × (v.is_ok ≡ true)
    × (v.records_verified ≡ 3)
    × (busy_chain.seq ≡ 3)
history_verifies_example = history_verifies clear clear-IsSigner busy refl

abbrev first_record : RawRecord clear
first_record = signed_record clear 1 5 "" []

abbrev second_record : RawRecord clear
second_record = signed_record clear 2 6 (clear.hash_bytes (tally 1 (tally 5 ""))) []

two_records-Linked : Linked clear "" none (first_record ∷ second_record ∷ [])
two_records-Linked = (
  record {
    number = 1;
    time = 5;
    content = [];
    signature = [];
    has_seq = refl;
    has_ts_ms = refl;
    has_prev_hash = refl;
    has_payload = refl;
    has_hash = refl;
    has_sig = refl;
    is_signed = refl;
    in_order = tt;
  },
  (
    record {
      number = 2;
      time = 6;
      content = [];
      signature = [];
      has_seq = refl;
      has_ts_ms = refl;
      has_prev_hash = refl;
      has_payload = refl;
      has_hash = refl;
      has_sig = refl;
      is_signed = refl;
      in_order = refl;
    },
    tt,
  ),
)

verify_accepts_intact_example :
    let file : List (Line clear) = object first_record ∷ object second_record ∷ [] in
    (((v : VerifyResult) × (verify clear file ≡ ok v) × (v.is_ok ≡ true))
      ↔ Linked clear "" none (read_all clear file))
    × ((v : VerifyResult)
        → verify clear file ≡ ok v
        → v.is_ok ≡ true
        → v.records_verified ≡ length (read_all clear file))
verify_accepts_intact_example =
    verify_accepts_intact clear (object first_record ∷ object second_record ∷ [])
