-- ===== src/RunRegistry/Delivery.antt =====
-- The promises of `subscribe` in anima/api/run_registry.py, over any interleaving of the subscriber
-- with the writers of its run.
use anima.Prelude.{ℕ, Bool, refl, inl, arith, String, ◌++◌, ◌≡◌}
use anima.RunRegistry.{
  Run, Subscriber, append_event, mark_done, events_after, subscriber_step, subscribe, delivered,
  new_run,
}
use anima.RunRegistry.Subscribe.{Lossless, append-Lossless, phase-Lossless}

module _ {E : Type 0} where
  -- The run beside one of its subscribers, which may take its first step at any time.
  pub data Reach (start : ℕ) : Run E → Subscriber E → Type 0 where
    create : (run_id user_id : String) → Reach start (new_run run_id user_id) (subscribe start)
    append :
        (event : E) (run : Run E) (sub : Subscriber E)
        → Reach start run sub
        → Reach start (append_event event run) sub
    finish :
        (now : ℕ) (run : Run E) (sub : Subscriber E)
        → Reach start run sub
        → Reach start (mark_done now run) sub
    follow :
        (timed_out : Bool) (run : Run E) (sub : Subscriber E)
        → Reach start run sub
        → Reach start run (subscriber_step timed_out run sub)

  pub Reach-Lossless :
      (start : ℕ) (run : Run E) (sub : Subscriber E) → Reach start run sub → Lossless start run sub
  unfolding subscriber_step delivered events_after
  Reach-Lossless start _ _ (create run_id user_id) = record {
    numbered = omega arith;
    from = omega arith;
    upto = inl refl;
    pending = tt;
    split = refl;
  }
  Reach-Lossless start _ _ (append event run sub r) =
      append-Lossless start run sub event (Reach-Lossless start run sub r)
  Reach-Lossless start _ _ (finish now run sub r) =
      let h = Reach-Lossless start run sub r in
      record {
        numbered = h.numbered;
        from = h.from;
        upto = h.upto;
        pending = h.pending;
        split = h.split;
      }
  Reach-Lossless start _ _ (follow timed_out run sub r) =
      phase-Lossless start timed_out run sub sub.phase refl (Reach-Lossless start run sub r)

  -- Whatever the interleaving: what a subscriber from `start` has yielded, followed by the events
  -- past its number, is all events past `start`, in order; so none is lost and none comes twice.
  pub subscribe_loses_nothing :
      (start : ℕ) (run : Run E) (sub : Subscriber E)
      → Reach start run sub
      → delivered sub.frames ++ events_after sub.after_seq run.events
        ≡ events_after start run.events
  subscribe_loses_nothing start run sub r = (Reach-Lossless start run sub r).split
