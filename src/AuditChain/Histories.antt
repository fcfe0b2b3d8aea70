-- ===== src/AuditChain/Histories.antt =====
-- Histories of `_AuditChain` (anima/kernel/audit_chain.py): appends that may fail, and restarts.
use anima.AuditChain.Log.{ChainWrite, chain_written, chain_untouched, chain_whole, chain_cut}
use anima.AuditChain.Check.{VerifyResult, verify}
use anima.Python.{ok}
use mathlib.Core.List.{map-append}
use mathlib.Core.Path.{subst₂, subst}
use anima.AuditChain.Linked.{InOrder, Linked, Sealed, hash_of, verify_accepts_intact}
use anima.AuditChain.Log.{
  add_line, add_line-object, AuditChain, RawRecord, read_all, append, lines_of, open_chain, object,
  last_line, signed_record, full_payload, load_line,
}
use anima.AuditChain.Crypto.{Crypto, Payload, IsSigner}
use anima.Prelude.{
  [], ◌∷◌, refl, true, false, none, some, suc, String, ℕ, List, Option, Bool, or_default, ◌++◌, map,
  ◌+◌, ◌≡◌, length, ap, sym, arith, length-append, ◌∙◌, ◌&&◌,
}

-- A call of `append` with its time and whether the file can be written, or a restart of the
-- process, which reads the tail of the file again.
pub data Event (k : Crypto) : Type 0 where
  append_event : String → Payload k.Json → ℕ → ChainWrite → Event k
  restart : Event k

-- What the tail of a chain says.
record End : Type 0 where
  hash : String
  number : ℕ
  time : ℕ

abbrev start : End
start = record { hash = ""; number = 0; time = 0 }

module _ (k : Crypto) where
  pub step : AuditChain k → Event k → AuditChain k
  step c (append_event event_type payload ts_ms write) =
      (append k event_type payload ts_ms write c).1
  step c restart = open_chain k c.file

  pub run : AuditChain k → List (Event k) → AuditChain k
  run c [] = c
  run c (e ∷ es) = run (step c e) es

  -- The appends that wrote their record.
  abbrev pub written : List (Event k) → ℕ
  written [] = 0
  written (append_event event_type payload ts_ms chain_written ∷ es) = suc (written es)
  written (append_event event_type payload ts_ms _ ∷ es) = written es
  written (restart ∷ es) = written es

  -- A write that fails has left nothing.
  abbrev pub clean : Event k → Bool
  clean (append_event event_type payload ts_ms chain_written) = true
  clean (append_event event_type payload ts_ms chain_untouched) = true
  clean (append_event event_type payload ts_ms chain_whole) = false
  clean (append_event event_type payload ts_ms (chain_cut complete)) = false
  clean restart = true

  abbrev pub all_clean : List (Event k) → Bool
  all_clean [] = true
  all_clean (e ∷ es) = clean e && all_clean es

  abbrev end_record : RawRecord k → End
  end_record r = record {
    hash = or_default r.hash "";
    number = or_default r.seq 0;
    time = or_default r.ts_ms 0;
  }

  end_of : End → List (RawRecord k) → End
  end_of e [] = e
  end_of e (r ∷ rs) = end_of (end_record r) rs

  end_prev : Option ℕ → List (RawRecord k) → Option ℕ
  end_prev n [] = n
  end_prev n (r ∷ rs) = end_prev r.seq rs

  InOrder-end :
      (rs : List (RawRecord k)) (e : End) (n : Option ℕ)
      → InOrder n (e.number + 1)
      → InOrder (end_prev n rs) ((end_of e rs).number + 1)
  unfolding end_of end_prev
  InOrder-end [] e n h = h
  InOrder-end (r ∷ rs) e n h = InOrder-end rs (end_record r) r.seq (own r.seq)
    where
      own : (o : Option ℕ) → InOrder o (or_default o 0 + 1)
      own none = tt
      own (some m) = refl

  Linked-snoc :
      (rs : List (RawRecord k)) (e : End) (n : Option ℕ) (r : RawRecord k)
      → Linked k e.hash n rs
      → Sealed k (end_of e rs).hash (end_prev n rs) r
      → Linked k e.hash n (rs ++ r ∷ [])
  unfolding end_of end_prev
  Linked-snoc [] e n r l s = (s, tt)
  Linked-snoc (q ∷ rs) e n r (s, l) last =
      let eh : (end_record q).hash ≡ hash_of k s = ap (λ o. or_default o "") s.has_hash in
      (
        s,
        subst₂ (λ h m. Linked k h m (rs ++ r ∷ [])) eh s.has_seq
            (Linked-snoc rs (end_record q) q.seq r
              (subst₂ (λ h m. Linked k h m rs) (sym eh) (sym s.has_seq) l) last),
      )

  end_of-snoc :
      (rs : List (RawRecord k)) (e : End) (r : RawRecord k) → end_of e (rs ++ r ∷ []) ≡ end_record r
  unfolding end_of
  end_of-snoc [] e r = refl
  end_of-snoc (q ∷ rs) e r = end_of-snoc rs (end_record q) r

  -- The file holds an intact chain, and the object knows its end.
  record Intact (c : AuditChain k) : Type 0 where
    records : List (RawRecord k)
    file_is : lines_of k c.file ≡ map object records
    linked : Linked k "" none records
    end_is :
        end_of start records ≡ record { hash = c.last_hash; number = c.seq; time = c.last_ts_ms }
    counted : c.seq ≡ length records

  read_all-object : (rs : List (RawRecord k)) → read_all k (map object rs) ≡ rs
  unfolding read_all
  read_all-object [] = refl
  read_all-object (r ∷ rs) = ap (λ l. r ∷ l) (read_all-object rs)

  module _ (signer : IsSigner k) where
    Sealed-signed_record :
        (seq ts : ℕ) (p : String) (x : Payload k.Json) (n : Option ℕ)
        → InOrder n seq
        → Sealed k p n (signed_record k seq ts p x)
    Sealed-signed_record seq ts p x n order =
        let (b, hex, good) = signer.signed (k.canonical seq ts p x) in
        record {
          number = seq;
          time = ts;
          content = x;
          signature = b;
          has_seq = refl;
          has_ts_ms = refl;
          has_prev_hash = refl;
          has_payload = refl;
          has_hash = refl;
          has_sig = hex;
          is_signed = good;
          in_order = order;
        }

    append-Intact :
        (c : AuditChain k) (event_type : String) (payload : Payload k.Json) (ts : ℕ)
        → Intact c
        → Intact (append k event_type payload ts chain_written c).1
          × ((append k event_type payload ts chain_written c).1.seq ≡ suc c.seq)
    unfolding append
    append-Intact c event_type payload ts h =
        let full = full_payload k event_type payload in
        let rec = signed_record k (c.seq + 1) ts c.last_hash full in
        let end_hash = ap (λ (e : End). e.hash) h.end_is in
        let end_number = ap (λ (e : End). e.number) h.end_is in
        let order =
          subst (λ m. InOrder (end_prev none h.records) (m + 1)) end_number
            (InOrder-end h.records start none tt) in
        let sealed =
          subst (λ p. Sealed k p (end_prev none h.records) rec) (sym end_hash)
            (Sealed-signed_record (c.seq + 1) ts c.last_hash full (end_prev none h.records)
              order) in
        (
          record {
            records = h.records ++ rec ∷ [];
            file_is =
                ap (λ l. add_line k l (object rec)) h.file_is
                ∙ add_line-object k h.records (object rec)
                ∙ rw map-append refl;
            linked = Linked-snoc h.records start none rec h.linked sealed;
            end_is = end_of-snoc h.records start rec;
            counted = rw (length-append h.records (rec ∷ []), h.counted) refl;
          },
          omega arith,
        )

  -- Reading the tail after linked records `rs` that follow a sealed record.
  load_line-Linked :
      (rs : List (RawRecord k)) (p : String) (n : Option ℕ) (r : RawRecord k) (c : AuditChain k)
      (s : Sealed k p n r)
      → Linked k (hash_of k s) (some s.number) rs
      → load_line k (last_line k (map object rs) (some (object r))) c ≡ (
          let e = end_of (end_record r) rs in
          record c { last_hash = e.hash; seq = e.number; last_ts_ms = e.time })
  unfolding last_line end_of
  load_line-Linked [] p n r c s l = ground (arith, s.has_hash, s.has_seq, s.has_ts_ms)
  load_line-Linked (q ∷ rs) p n r c s l =
      load_line-Linked rs (hash_of k s) (some s.number) q c l.0 l.1

  -- A restart over an intact chain finds the state that the process had.
  open_chain-Intact : (c : AuditChain k) → Intact c → open_chain k c.file ≡ c
  unfolding open_chain end_of
  open_chain-Intact c h = go h.records h.file_is h.linked h.end_is
    where
      blank_state : AuditChain k
      blank_state = record { file = c.file; last_hash = ""; seq = 0; last_ts_ms = 0 }

      at_end : End → AuditChain k
      at_end e = record { file = c.file; last_hash = e.hash; seq = e.number; last_ts_ms = e.time }

      go :
          (rs : List (RawRecord k))
          → lines_of k c.file ≡ map object rs
          → Linked k "" none rs
          → end_of start rs ≡ record { hash = c.last_hash; number = c.seq; time = c.last_ts_ms }
          → load_line k (last_line k (lines_of k c.file) none) blank_state ≡ c
      go [] f l e = rw f (ap at_end e)
      go (r ∷ rs) f l e = rw f (load_line-Linked rs "" none r blank_state l.0 l.1 ∙ ap at_end e)

  empty-Intact : Intact (open_chain k none) × ((open_chain k none).seq ≡ 0)
  unfolding open_chain end_of
  empty-Intact =
      (record { records = []; file_is = refl; linked = tt; end_is = refl; counted = refl }, refl)

  module _ (signer : IsSigner k) where
    step-Intact :
        (c : AuditChain k) (e : Event k)
        → clean e ≡ true
        → Intact c
        → Intact (step c e) × ((step c e).seq ≡ c.seq + written (e ∷ []))
    unfolding step
    step-Intact c (append_event event_type payload ts chain_written) fine h =
        let (kept, more) = append-Intact signer c event_type payload ts h in
        (kept, more ∙ omega arith)
    step-Intact c (append_event event_type payload ts chain_untouched) fine h =
        (unfold append in h, unfold append in omega arith)
    step-Intact c (append_event event_type payload ts chain_whole) fine h = cc
    step-Intact c (append_event event_type payload ts (chain_cut complete)) fine h = cc
    step-Intact c restart fine h =
        let same = open_chain-Intact c h in
        (subst Intact (sym same) h, ap (λ (x : AuditChain k). x.seq) same ∙ omega arith)

    run-Intact :
        (es : List (Event k)) (c : AuditChain k)
        → all_clean es ≡ true
        → Intact c
        → Intact (run c es) × ((run c es).seq ≡ c.seq + written es)
    unfolding run
    run-Intact [] c fine h = (h, omega arith)
    run-Intact (e ∷ es) c fine h =
        let (kept, more) = step-Intact c e (ground (arith, fine)) h in
        let (last, total) = run-Intact es (step c e) (ground (arith, fine)) kept in
        (last, total ∙ counting c e es more)
      where
        counting :
            (c : AuditChain k) (e : Event k) (es : List (Event k))
            → (step c e).seq ≡ c.seq + written (e ∷ [])
            → (step c e).seq + written es ≡ c.seq + written (e ∷ es)
        counting c (append_event event_type payload ts chain_written) es h = omega arith
        counting c (append_event event_type payload ts chain_untouched) es h = omega arith
        counting c (append_event event_type payload ts chain_whole) es h = omega arith
        counting c (append_event event_type payload ts (chain_cut complete)) es h = omega arith
        counting c restart es h = omega arith

    pub history_verifies :
        (es : List (Event k))
        → all_clean es ≡ true
        → let c = run (open_chain k none) es in
          (v : VerifyResult) × (verify k (lines_of k c.file) ≡ ok v)
          × (v.is_ok ≡ true)
          × (v.records_verified ≡ written es)
          × (c.seq ≡ written es)
    history_verifies es fine =
        let c = run (open_chain k none) es in
        let (h, total) = run-Intact es (open_chain k none) fine empty-Intact.0 in
        let first : (open_chain k none).seq + written es ≡ written es =
          omega (arith, empty-Intact.1) in
        let (iff, count) = verify_accepts_intact k (lines_of k c.file) in
        let all = ap (read_all k) h.file_is ∙ read_all-object h.records in
        let (v, runs, good) = iff.1 (subst (Linked k "" none) (sym all) h.linked) in
        (
          v,
          runs,
          good,
          count v runs good ∙ ap length all ∙ sym h.counted ∙ total ∙ first,
          total ∙ first,
        )
