-- ===== src/RunRegistry/Ending.antt =====
-- How `subscribe` in anima/api/run_registry.py ends once its run is done.
use mathlib.Core.List.{append-nil}
use mathlib.Core.Path.{subst}
use anima.Prelude.{
  ℕ, List, [], ◌∷◌, refl, true, false, zero, suc, arith, ◌*◌, ◌≡◌, length, ◌+◌, ◌≤◌, ◌≢◌, inl, inr,
  ap, ◌⊎◌, ◌++◌, sym, ◌∙◌,
}
use anima.RunRegistry.{
  Run, Phase, scanning, waiting, keeping_alive, stopped, emitting, Subscriber, events_after,
  subscriber_step, delivered, in_phase, scan,
}
use anima.RunRegistry.Subscribe.{events_after-next, Lossless, Pending}
use anima.RunRegistry.Delivery.{Reach, Reach-Lossless, subscribe_loses_nothing}

module _ {E : Type 0} where
  -- The subscriber alone, with no wait that times out.
  unfoldable pub follow_alone : ℕ → Run E → Subscriber E → Subscriber E
  unfolding subscriber_step
  follow_alone zero run sub = sub
  follow_alone (suc n) run sub = follow_alone n run (subscriber_step false run sub)

  -- An upper bound for the steps that are left, by the events that are lacking.
  abbrev pub steps_left : ℕ → Phase E → ℕ
  steps_left lacking scanning = lacking * 3 + 1
  steps_left lacking (emitting []) = lacking * 3 + 2
  steps_left lacking (emitting (x ∷ xs)) = lacking * 3
  steps_left lacking waiting = lacking * 3 + 2
  steps_left lacking keeping_alive = lacking * 3 + 2
  steps_left lacking stopped = 0

  abbrev pub lacking : Run E → Subscriber E → List (ℕ × E)
  lacking run sub = events_after sub.after_seq run.events

  -- It returned with nothing lacking.
  record Ended (run : Run E) (sub : Subscriber E) : Type 0 where
    phase : sub.phase ≡ stopped
    complete : lacking run sub ≡ []

  -- A subscriber that returned has returned with nothing lacking.
  abbrev NotEarly : Run E → Subscriber E → Type 0
  NotEarly run sub = sub.phase ≡ stopped → lacking run sub ≡ []

  follow_alone-stopped :
      (n : ℕ) (run : Run E) (sub : Subscriber E)
      → Ended run sub
      → Ended run (follow_alone n run sub)
  unfolding follow_alone subscriber_step
  follow_alone-stopped zero run sub e = e
  follow_alone-stopped (suc n) run sub e =
      let same : subscriber_step false run sub ≡ sub = ap (in_phase false run sub) e.phase in
      rw same (follow_alone-stopped n run sub e)

  emitting-left : (k : ℕ) (xs : List (ℕ × E)) → steps_left k (emitting xs) ≤ k * 3 + 2
  emitting-left k [] = omega arith
  emitting-left k (x ∷ xs) = omega arith

  record Progress (run : Run E) (before : ℕ) (sub : Subscriber E) : Type 0 where
    less : suc (steps_left (length (lacking run sub)) sub.phase) ≤ before
    not_early : NotEarly run sub

  scan-Progress :
      (run : Run E) (sub : Subscriber E) (xs : List (ℕ × E))
      → run.done ≡ true
      → lacking run sub ≡ xs
      → Progress run (length (lacking run sub) * 3 + 1) (scan run sub xs)
  scan-Progress run sub [] done e = rw done (record { less = omega arith; not_early = λ _. e })
  scan-Progress run sub (x ∷ xs) done e = record { less = omega arith; not_early = λ h. cc }

  phase-Progress :
      (start : ℕ) (run : Run E) (sub : Subscriber E) (p : Phase E)
      → run.done ≡ true
      → Lossless start run sub
      → sub.phase ≡ p
      → p ≢ stopped
      → Progress run (steps_left (length (lacking run sub)) p) (in_phase false run sub p)
  phase-Progress start run sub scanning done h e go =
      scan-Progress run sub (lacking run sub) done refl
  phase-Progress start run sub (emitting []) done h e go = record {
    less = omega arith;
    not_early = λ h. cc;
  }
  phase-Progress start run sub (emitting (x ∷ xs)) done h e go =
      let (rest, first) : (rest : List (ℕ × E)) × ((x ∷ xs) ++ rest ≡ lacking run sub) =
        subst (Pending (lacking run sub)) e h.pending in
      let (past, bounded, after) =
        events_after-next sub.after_seq 0 run.seq run.events (xs ++ rest) x h.numbered
          (sym first) in
      let fewer : suc (length (events_after x.0 run.events)) ≡ length (lacking run sub) =
        ap (λ ys. suc (length ys)) after ∙ ap length first in
      record {
        less = omega (arith, fewer, emitting-left (length (events_after x.0 run.events)) xs);
        not_early = λ h. cc;
      }
  phase-Progress start run sub waiting done h e go = record {
    less = omega arith;
    not_early = λ h. cc;
  }
  phase-Progress start run sub keeping_alive done h e go = record {
    less = omega arith;
    not_early = λ h. cc;
  }
  phase-Progress start run sub stopped done h e go = absurd (go refl)

  steps_left-bound : (k : ℕ) (p : Phase E) → steps_left k p ≤ k * 3 + 2
  steps_left-bound k scanning = omega arith
  steps_left-bound k (emitting xs) = emitting-left k xs
  steps_left-bound k waiting = omega arith
  steps_left-bound k keeping_alive = omega arith
  steps_left-bound k stopped = omega arith

  follow_alone-Reach :
      (n start : ℕ) (run : Run E) (sub : Subscriber E)
      → Reach start run sub
      → Reach start run (follow_alone n run sub)
  unfolding follow_alone
  follow_alone-Reach zero start run sub r = r
  follow_alone-Reach (suc n) start run sub r =
      follow_alone-Reach n start run (subscriber_step false run sub) (Reach.follow false run sub r)

  stopped-cases : (p : Phase E) → (p ≡ stopped) ⊎ (p ≢ stopped)
  stopped-cases stopped = inl refl
  stopped-cases scanning = inr (λ h. cc)
  stopped-cases waiting = inr (λ h. cc)
  stopped-cases keeping_alive = inr (λ h. cc)
  stopped-cases (emitting xs) = inr (λ h. cc)

  follow_alone-Ended :
      (n start : ℕ) (run : Run E) (sub : Subscriber E)
      → run.done ≡ true
      → Reach start run sub
      → NotEarly run sub
      → steps_left (length (lacking run sub)) sub.phase ≤ n
      → Ended run (follow_alone n run sub)
  unfolding follow_alone subscriber_step
  follow_alone-Ended zero start run sub done r not_early enough = elim (stopped-cases sub.phase) [
    | inl over ↦ record { phase = over; complete = not_early over }
    | inr going ↦
        let next =
          phase-Progress start run sub sub.phase done (Reach-Lossless start run sub r) refl going in
        absurd (omega (arith, next.less, enough))
  ]
  follow_alone-Ended (suc n) start run sub done r not_early enough =
      elim (stopped-cases sub.phase) [
        | inl over ↦
            follow_alone-stopped (suc n) run sub
              (record { phase = over; complete = not_early over })
        | inr going ↦
            let next =
              phase-Progress start run sub sub.phase done (Reach-Lossless start run sub r) refl
                going in
            follow_alone-Ended n start run (subscriber_step false run sub) done
              (Reach.follow false run sub r) next.not_early (omega (arith, next.less, enough))
      ]

  -- A subscriber of a run that is done and gets no more events, and which has not returned, returns
  -- within three steps for each event that it lacks and two more; it has then yielded all events past
  -- its start, in order.
  pub subscribe_ends :
      (n start : ℕ) (run : Run E) (sub : Subscriber E)
      → run.done ≡ true
      → Reach start run sub
      → sub.phase ≢ stopped
      → length (lacking run sub) * 3 + 2 ≤ n
      → ((follow_alone n run sub).phase ≡ stopped)
        × (delivered (follow_alone n run sub).frames ≡ events_after start run.events)
  subscribe_ends n start run sub done r going enough =
      let end =
        follow_alone-Ended n start run sub done r (λ over. absurd (going over))
          (omega (arith, enough, steps_left-bound (length (lacking run sub)) sub.phase)) in
      (
        end.phase,
        sym (append-nil _)
            ∙ ap (λ ys. delivered (follow_alone n run sub).frames ++ ys) (sym end.complete)
            ∙ subscribe_loses_nothing start run (follow_alone n run sub)
                (follow_alone-Reach n start run sub r),
      )
