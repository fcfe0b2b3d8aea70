-- ===== src/AuditChain/Linked.antt =====
-- An independent description of an intact chain, and that `verify` of anima/kernel/audit_chain.py
-- accepts exactly the intact chains.
use native.Mathlib.Nat.{add-zero}
use mathlib.Core.Path.{subst}
use anima.Python.{ok, Exn}
use anima.AuditChain.Log.{RawRecord, Line, read_all}
use anima.AuditChain.Check.{
  check_record, is_gap, next, check_sig, sig_bytes, check_fields, VerifyResult, Step, verify_from,
  stop, passed, crash, verified, verify, verify_records, empty_chain,
}
use anima.AuditChain.Crypto.{Crypto, Payload}
use anima.Prelude.{
  [], ◌∷◌, refl, true, false, none, some, arith, Option, ℕ, String, ◌≡◌, List, ◌+◌, eq_iff, suc,
  inl, inr, eq_refl, ◌∙◌, ap, ◌⊎◌, length, ◌↔◌,
}

abbrev pub InOrder : Option ℕ → ℕ → Type 0
InOrder none seq = Unit
InOrder (some before) seq = seq ≡ before + 1

module _ (k : Crypto) where
  -- `r` is a complete, hashed and signed record that follows a record with hash `prev_hash` and
  -- number `previous`.
  pub record Sealed (prev_hash : String) (previous : Option ℕ) (r : RawRecord k) : Type 0 where
    pub number : ℕ
    pub time : ℕ
    pub content : Payload k.Json
    pub signature : List ℕ
    pub has_seq : r.seq ≡ some number
    pub has_ts_ms : r.ts_ms ≡ some time
    pub has_prev_hash : r.prev_hash ≡ some prev_hash
    pub has_payload : r.payload ≡ some content
    pub has_hash : r.hash ≡ some (k.hash_bytes (k.canonical number time prev_hash content))
    pub has_sig : sig_bytes k r.sig ≡ some signature
    pub is_signed : k.verify_sig (k.canonical number time prev_hash content) signature ≡ true
    pub in_order : InOrder previous number

  abbrev pub canonical_of : {p : String} {n : Option ℕ} {r : RawRecord k} → Sealed p n r → String
  canonical_of {p} s = k.canonical s.number s.time p s.content

  abbrev pub hash_of : {p : String} {n : Option ℕ} {r : RawRecord k} → Sealed p n r → String
  hash_of s = k.hash_bytes (canonical_of s)

  -- Every record is sealed, and each names the hash and follows the number of the one before.
  abbrev pub Linked : String → Option ℕ → List (RawRecord k) → Type 0
  Linked prev_hash previous [] = Unit
  Linked prev_hash previous (r ∷ rs) =
      (s : Sealed prev_hash previous r) × Linked (hash_of s) (some s.number) rs

  is_gap-InOrder :
      (previous : Option ℕ) (seq : ℕ) → is_gap previous seq ≡ false → InOrder previous seq
  is_gap-InOrder none seq h = tt
  is_gap-InOrder (some before) seq h = ground arith

  InOrder-is_gap :
      (previous : Option ℕ) (seq : ℕ) → InOrder previous seq → is_gap previous seq ≡ false
  InOrder-is_gap none seq h = refl
  InOrder-is_gap (some before) seq h = ground arith

  Sealed-check_record :
      (i : ℕ) (p : String) (n : Option ℕ) (r : RawRecord k) (s : Sealed p n r)
      → check_record k i p n r ≡ next (hash_of s) s.number
  unfolding check_record
  Sealed-check_record i p n r s =
      ground (arith, eq_refl p, eq_refl (hash_of s), InOrder-is_gap n s.number s.in_order)

  check_sig-next :
      (i : ℕ) (can : String) (n : Option ℕ) (seq : ℕ) (hash : String) (bytes : Option (List ℕ))
      (hash' : String) (seq' : ℕ)
      → check_sig k i can n seq hash bytes ≡ next hash' seq'
      → (b : List ℕ) × (bytes ≡ some b)
        × (k.verify_sig can b ≡ true)
        × InOrder n seq
        × (hash' ≡ hash)
        × (seq' ≡ seq)
  check_sig-next i can n seq hash none hash' seq' h = cc
  check_sig-next i can n seq hash (some b) hash' seq' h =
      (b, refl, ground arith, is_gap-InOrder n seq (ground arith), ground arith, ground arith)

  check_fields-next :
      (i : ℕ) (p : String) (n : Option ℕ) (r : RawRecord k) (seq ts : Option ℕ)
      (prev : Option String) (x : Option (Payload k.Json)) (hash sig : Option String)
      (hash' : String) (seq' : ℕ)
      → (r.seq ≡ seq)
        × (r.ts_ms ≡ ts)
        × (r.prev_hash ≡ prev)
        × (r.payload ≡ x)
        × (r.hash ≡ hash)
        × (r.sig ≡ sig)
      → check_fields k i p n seq ts prev x hash sig ≡ next hash' seq'
      → (s : Sealed p n r) × (hash' ≡ hash_of s) × (seq' ≡ s.number)
  check_fields-next i p n r (some seq) (some ts) (some prev) (some x) (some hash) sig hash' seq' e
        h =
      let same_hash = eq_iff hash (k.hash_bytes (k.canonical seq ts prev x)) in
      let same_prev = eq_iff prev p in
      let (b, sb, signed, order, eh, es) =
        check_sig-next i (k.canonical seq ts prev x) n seq hash (sig_bytes k sig) hash' seq'
          (ground arith) in
      let ep : prev ≡ p = same_prev.0 (ground arith) in
      let ec : hash ≡ k.hash_bytes (k.canonical seq ts prev x) = same_hash.0 (ground arith) in
      (
        record {
          number = seq;
          time = ts;
          content = x;
          signature = b;
          has_seq = e.0;
          has_ts_ms = e.1;
          has_prev_hash = e.2 ∙ ap some ep;
          has_payload = e.3;
          has_hash = e.4 ∙ ap some (ec ∙ ap (λ q. k.hash_bytes (k.canonical seq ts q x)) ep);
          has_sig = ap (sig_bytes k) e.5 ∙ sb;
          is_signed = subst (λ q. k.verify_sig (k.canonical seq ts q x) b ≡ true) ep signed;
          in_order = order;
        },
        eh ∙ ec ∙ ap (λ q. k.hash_bytes (k.canonical seq ts q x)) ep,
        es,
      )
  check_fields-next i p n r (some seq) (some ts) (some prev) (some x) none sig hash' seq' e h = cc
  check_fields-next i p n r seq ts prev x hash sig hash' seq' e h = cc

  check_record-next :
      (i : ℕ) (p : String) (n : Option ℕ) (r : RawRecord k) (hash' : String) (seq' : ℕ)
      → check_record k i p n r ≡ next hash' seq'
      → (s : Sealed p n r) × (hash' ≡ hash_of s) × (seq' ≡ s.number)
  unfolding check_record
  check_record-next i p n r hash' seq' h =
      check_fields-next i p n r r.seq r.ts_ms r.prev_hash r.payload r.hash r.sig hash' seq'
        (refl, refl, refl, refl, refl, refl) h

  -- `check_record` stops only with a failure.
  check_record-stop :
      (i : ℕ) (p : String) (n : Option ℕ) (r : RawRecord k) (v : VerifyResult)
      → check_record k i p n r ≡ stop v
      → v.is_ok ≡ false
  unfolding check_record
  check_record-stop i p n r v h = ground arith

  Step-cases :
      (s : Step)
      → ((h : String) × (n : ℕ) × (s ≡ next h n))
        ⊎ ((v : VerifyResult) × (s ≡ stop v))
        ⊎ ((e : Exn) × (s ≡ crash e))
  Step-cases (next h n) = inl (h, n, refl)
  Step-cases (stop v) = inr (inl (v, refl))
  Step-cases (crash e) = inr (inr (e, refl))

  pub Linked-verify_from :
      (rs : List (RawRecord k)) (i : ℕ) (p : String) (n : Option ℕ)
      → Linked p n rs
      → verify_from k i p n rs ≡ ok (passed (i + length rs) verified)
  unfolding verify_from
  Linked-verify_from [] i p n h = rw add-zero
  Linked-verify_from (r ∷ rs) i p n h =
      rw (Sealed-check_record i p n r h.0, verify_from)
        (Linked-verify_from rs (suc i) (hash_of h.0) (some h.0.number) h.1
          ∙ ap (λ m. ok (passed m verified)) (omega arith))

  pub verify_from-Linked :
      (rs : List (RawRecord k)) (i : ℕ) (p : String) (n : Option ℕ) (v : VerifyResult)
      → verify_from k i p n rs ≡ ok v
      → v.is_ok ≡ true
      → Linked p n rs
  unfolding verify_from
  verify_from-Linked [] i p n v h good = tt
  verify_from-Linked (r ∷ rs) i p n v h good = elim (Step-cases (check_record k i p n r)) [
    | inl (hash, seq, e) ↦
        let (s, eh, es) = check_record-next i p n r hash seq e in
        let rest = verify_from-Linked rs (suc i) hash (some seq) v (ground (arith, e, h)) good in
        (
          s,
          subst (λ m. Linked (hash_of s) (some m) rs) es
              (subst (λ x. Linked x (some seq) rs) eh rest),
        )
    | inr other ↦ elim other [
      | inl (w, e) ↦ let bad = check_record-stop i p n r w e in ground (arith, e, h, bad)
      | inr (x, e) ↦ ground (arith, e, h)
    ]
  ]

  verify_from-passed :
      (rs : List (RawRecord k)) (i : ℕ) (p : String) (n : Option ℕ) (v : VerifyResult)
      → verify_from k i p n rs ≡ ok v
      → v.is_ok ≡ true
      → v ≡ passed (i + length rs) verified
  verify_from-passed rs i p n v h good =
      let whole = Linked-verify_from rs i p n (verify_from-Linked rs i p n v h good) in
      ground (arith, h, whole)

  -- `verify` accepts exactly the intact chains: it returns `ok=True` if and only if the records that
  -- `read_all` finds are linked from the empty hash, each complete, hashed, signed and numbered one
  -- after the one before. An accepted chain is counted in full.
  pub verify_accepts_intact :
      (file : List (Line k))
      → (((v : VerifyResult) × (verify k file ≡ ok v) × (v.is_ok ≡ true))
          ↔ Linked "" none (read_all k file))
        × ((v : VerifyResult)
            → verify k file ≡ ok v
            → v.is_ok ≡ true
            → v.records_verified ≡ length (read_all k file))
  unfolding verify
  verify_accepts_intact file = go (read_all k file)
    where
      go :
          (rs : List (RawRecord k))
          → (((v : VerifyResult) × (verify_records k rs ≡ ok v) × (v.is_ok ≡ true))
              ↔ Linked "" none rs)
            × ((v : VerifyResult)
                → verify_records k rs ≡ ok v
                → v.is_ok ≡ true
                → v.records_verified ≡ length rs)
      go [] = (((λ a. tt), λ l. (passed 0 empty_chain, refl, refl)), λ v h good. ground arith)
      go (r ∷ rs) = (
        (
          (λ (v, h, good). verify_from-Linked (r ∷ rs) 0 "" none v h good),
          λ l. (
            passed (0 + length (r ∷ rs)) verified,
            Linked-verify_from (r ∷ rs) 0 "" none l,
            refl,
          ),
        ),
        λ v h good.
            ap (λ (x : VerifyResult). x.records_verified)
              (verify_from-passed (r ∷ rs) 0 "" none v h good)
            ∙ omega arith,
      )
