-- ===== src/RunRegistry/Subscribe.antt =====
-- Delivery in anima/api/run_registry.py: what a subscriber has yielded, over any interleaving with
-- the writers of its run.
use mathlib.Core.Path.{subst}
use mathlib.Core.List.{append_assoc, append-nil}
use anima.Prelude.{
  ℕ, List, [], ◌∷◌, refl, true, suc, inl, inr, arith, ◌≤◌, ◌≡◌, ◌++◌, ◌<◌, Bool-cases, ltb, ap,
  false, sym, ◌∙◌, ◌⊎◌, Bool,
}
use anima.RunRegistry.{
  Run, Frame, event_frame, keepalive_frame, Phase, scanning, waiting, keeping_alive, stopped,
  emitting, Subscriber, append_event, events_after, delivered, scan, in_phase,
}

-- The numbers go up and none is above `top`.
abbrev pub Ascending : {E : Type 0} → ℕ → List (ℕ × E) → ℕ → Type 0
Ascending below [] top = below ≤ top
Ascending below ((s, e) ∷ xs) top = (below < s) × Ascending s xs top

module _ {E : Type 0} where
  Ascending-snoc :
      (below top : ℕ) (xs : List (ℕ × E)) (e : E)
      → Ascending below xs top
      → Ascending below (xs ++ (suc top, e) ∷ []) (suc top)
  Ascending-snoc below top [] e h = (omega (arith, h), omega arith)
  Ascending-snoc below top (x ∷ xs) e h = (h.0, Ascending-snoc x.0 top xs e h.1)

  events_after-snoc :
      (n s : ℕ) (e : E) (xs : List (ℕ × E))
      → events_after n (xs ++ (s, e) ∷ []) ≡ events_after n xs ++ events_after n ((s, e) ∷ [])
  unfolding events_after
  events_after-snoc n s e [] = refl
  events_after-snoc n s e (x ∷ xs) =
      let rest = events_after-snoc n s e xs in
      elim (Bool-cases (ltb n x.0)) [
        | inl later ↦ rw later (ap (λ ys. x ∷ ys) rest)
        | inr earlier ↦ rw earlier rest
      ]

  Ascending-le : (below top : ℕ) (xs : List (ℕ × E)) → Ascending below xs top → below ≤ top
  Ascending-le below top [] h = h
  Ascending-le below top (x ∷ xs) h = omega (arith, h.0, Ascending-le x.0 top xs h.1)

  events_after-all :
      (n below top : ℕ) (xs : List (ℕ × E))
      → n ≤ below
      → Ascending below xs top
      → events_after n xs ≡ xs
  unfolding events_after
  events_after-all n below top [] le h = refl
  events_after-all n below top (x ∷ xs) le h =
      let here : ltb n x.0 ≡ true = ground (arith, h.0, le) in
      rw here (ap (λ ys. x ∷ ys) (events_after-all n x.0 top xs (omega (arith, h.0, le)) h.1))

  -- After the first event past `n`, what is past that event is the rest.
  pub events_after-next :
      (n below top : ℕ) (xs ys : List (ℕ × E)) (x : ℕ × E)
      → Ascending below xs top
      → events_after n xs ≡ x ∷ ys
      → (n < x.0) × (x.0 ≤ top) × (events_after x.0 xs ≡ ys)
  unfolding events_after
  events_after-next n below top [] ys x h e = cc
  events_after-next n below top (z ∷ xs) ys x h e = elim (Bool-cases (ltb n z.0)) [
    | inl later ↦
        let here : z ∷ events_after n xs ≡ x ∷ ys = sym (rw later refl) ∙ e in
        let same : z ≡ x = cc in
        let rest : events_after n xs ≡ ys = cc in
        let past : ltb z.0 z.0 ≡ false = ground arith in
        let after_z : events_after n xs ≡ xs =
          events_after-all n z.0 top xs (ground (arith, later)) h.1 in
        subst (λ y. (n < y.0) × (y.0 ≤ top) × (events_after y.0 (z ∷ xs) ≡ ys)) same
          (
            ground (arith, later),
            Ascending-le z.0 top xs h.1,
            rw past (events_after-all z.0 z.0 top xs (omega arith) h.1 ∙ sym after_z ∙ rest),
          )
    | inr earlier ↦
        let here : events_after n xs ≡ x ∷ ys = sym (rw earlier refl) ∙ e in
        let (past, bounded, rest) = events_after-next n z.0 top xs ys x h.1 here in
        let skip : ltb x.0 z.0 ≡ false = ground (arith, earlier, past) in
        (past, bounded, rw skip rest)
  ]

  delivered-append : (fs gs : List (Frame E)) → delivered (fs ++ gs) ≡ delivered fs ++ delivered gs
  unfolding delivered
  delivered-append [] gs = refl
  delivered-append (event_frame s e ∷ fs) gs = ap (λ ys. (s, e) ∷ ys) (delivered-append fs gs)
  delivered-append (keepalive_frame ∷ fs) gs = delivered-append fs gs

  -- What the subscriber is about to yield comes first among the events that it lacks.
  abbrev pub Pending : List (ℕ × E) → Phase E → Type 0
  Pending lacking (emitting xs) = (rest : List (ℕ × E)) × (xs ++ rest ≡ lacking)
  Pending lacking _ = Unit

  pub record Lossless (start : ℕ) (run : Run E) (sub : Subscriber E) : Type 0 where
    pub numbered : Ascending 0 run.events run.seq
    pub from : start ≤ sub.after_seq
    pub upto : (sub.after_seq ≡ start) ⊎ (sub.after_seq ≤ run.seq)
    pub pending : Pending (events_after sub.after_seq run.events) sub.phase
    pub split :
        delivered sub.frames ++ events_after sub.after_seq run.events
        ≡ events_after start run.events

  Pending-snoc :
      (lacking more : List (ℕ × E)) (p : Phase E) → Pending lacking p → Pending (lacking ++ more) p
  Pending-snoc lacking more (emitting xs) (rest, e) =
      (rest ++ more, sym (append_assoc xs rest more) ∙ ap (λ ys. ys ++ more) e)
  Pending-snoc lacking more scanning h = tt
  Pending-snoc lacking more waiting h = tt
  Pending-snoc lacking more keeping_alive h = tt
  Pending-snoc lacking more stopped h = tt

  pub append-Lossless :
      (start : ℕ) (run : Run E) (sub : Subscriber E) (e : E)
      → Lossless start run sub
      → Lossless start (append_event e run) sub
  unfolding append_event events_after
  append-Lossless start run sub e h =
      let new : List (ℕ × E) = (suc run.seq, e) ∷ [] in
      let same : events_after sub.after_seq new ≡ events_after start new =
        ground (arith, h.from, h.upto) in
      record {
        numbered = Ascending-snoc 0 run.seq run.events e h.numbered;
        from = h.from;
        upto = ground (arith, h.upto);
        pending =
            rw (events_after-snoc sub.after_seq (suc run.seq) e run.events)
              (Pending-snoc _ _ sub.phase h.pending);
        split =
            ap (λ ys. delivered sub.frames ++ ys)
              (events_after-snoc sub.after_seq (suc run.seq) e run.events)
            ∙ sym (
                append_assoc (delivered sub.frames) (events_after sub.after_seq run.events)
                  (events_after sub.after_seq new))
            ∙ ap (λ ys. ys ++ events_after sub.after_seq new) h.split
            ∙ ap (λ ys. events_after start run.events ++ ys) same
            ∙ sym (events_after-snoc start (suc run.seq) e run.events);
      }

  scan-Lossless :
      (start : ℕ) (run : Run E) (sub : Subscriber E) (xs : List (ℕ × E))
      → events_after sub.after_seq run.events ≡ xs
      → Lossless start run sub
      → Lossless start run (scan run sub xs)
  scan-Lossless start run sub [] e h = record {
    numbered = h.numbered;
    from = h.from;
    upto = h.upto;
    pending = elim (Bool-cases run.done) [ inl d ↦ rw d tt | inr d ↦ rw d tt ];
    split = h.split;
  }
  scan-Lossless start run sub (x ∷ xs) e h = record {
    numbered = h.numbered;
    from = h.from;
    upto = h.upto;
    pending = ([], ap (λ ys. x ∷ ys) (append-nil xs) ∙ sym e);
    split = h.split;
  }

  pub phase-Lossless :
      (start : ℕ) (timed_out : Bool) (run : Run E) (sub : Subscriber E) (p : Phase E)
      → sub.phase ≡ p
      → Lossless start run sub
      → Lossless start run (in_phase timed_out run sub p)
  unfolding delivered
  phase-Lossless start timed_out run sub scanning e h =
      scan-Lossless start run sub (events_after sub.after_seq run.events) refl h
  phase-Lossless start timed_out run sub (emitting []) e h = record {
    numbered = h.numbered;
    from = h.from;
    upto = h.upto;
    pending = tt;
    split = h.split;
  }
  phase-Lossless start timed_out run sub (emitting (x ∷ xs)) e h =
      let (rest, first) : (rest : List (ℕ × E)) × ((x ∷ xs) ++ rest
            ≡ events_after sub.after_seq run.events) =
        subst (Pending (events_after sub.after_seq run.events)) e h.pending in
      let (past, bounded, after) =
        events_after-next sub.after_seq 0 run.seq run.events (xs ++ rest) x h.numbered
          (sym first) in
      record {
        numbered = h.numbered;
        from = omega (arith, past, h.from);
        upto = inr bounded;
        pending = (rest, sym after);
        split =
            ap (λ ys. ys ++ events_after x.0 run.events)
              (delivered-append sub.frames (event_frame x.0 x.1 ∷ []))
            ∙ append_assoc (delivered sub.frames) (x ∷ []) (events_after x.0 run.events)
            ∙ ap (λ ys. delivered sub.frames ++ x ∷ ys) after
            ∙ ap (λ ys. delivered sub.frames ++ ys) first
            ∙ h.split;
      }
  phase-Lossless start timed_out run sub waiting e h = record {
    numbered = h.numbered;
    from = h.from;
    upto = h.upto;
    pending = elim (Bool-cases timed_out) [ inl t ↦ rw t tt | inr t ↦ rw t tt ];
    split = h.split;
  }
  phase-Lossless start timed_out run sub keeping_alive e h = record {
    numbered = h.numbered;
    from = h.from;
    upto = h.upto;
    pending = tt;
    split =
        ap (λ ys. ys ++ events_after sub.after_seq run.events)
          (delivered-append sub.frames (keepalive_frame ∷ []) ∙ append-nil (delivered sub.frames))
        ∙ h.split;
  }
  phase-Lossless start timed_out run sub stopped e h = h
