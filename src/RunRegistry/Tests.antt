-- ===== src/RunRegistry/Tests.antt =====
-- A concrete run of anima/api/run_registry.py with three events, which a subscriber follows from the
-- second on.
use anima.Prelude.{String, [], ◌∷◌, refl, true, false, arith, ◌≡◌, ◌++◌}
use anima.RunRegistry.{
  Run, event_frame, keepalive_frame, stopped, Subscriber, append_event, mark_done, events_after,
  subscriber_step, subscribe, delivered, new_run,
}
use anima.RunRegistry.Delivery.{Reach, create, append, finish, follow, subscribe_loses_nothing}
use anima.RunRegistry.Lookup.{RunRegistry}
use anima.RunRegistry.Ending.{follow_alone, subscribe_ends}

abbrev two_events : Run String
two_events = append_event "plan" (append_event "start" (new_run "r1" "u1"))

-- The subscriber has read the second event, waited, and timed out once.
abbrev reader : Subscriber String
reader = subscriber_step false two_events (
    subscriber_step true two_events (
      subscriber_step false two_events (
        subscriber_step false two_events
          (subscriber_step false two_events (subscriber_step false two_events (subscribe 1))))))

abbrev finished : Run String
finished = mark_done 9 (append_event "run_complete" two_events)

reader_frames : reader.frames ≡ event_frame 2 "plan" ∷ keepalive_frame ∷ []
unfolding subscriber_step append_event events_after
reader_frames = refl

reader-Reach : Reach 1 finished reader
reader-Reach = finish 9 _ _ (
    append "run_complete" _ _ (
      follow false _ _ (
        follow true _ _ (
          follow false _ _ (
            follow false _ _ (
              follow false _ _
                (follow false _ _ (append "plan" _ _ (append "start" _ _ (create "r1" "u1"))))))))))

subscribe_loses_nothing_example :
    delivered reader.frames ++ events_after reader.after_seq finished.events
    ≡ (2, "plan") ∷ (3, "run_complete") ∷ []
unfolding append_event events_after
subscribe_loses_nothing_example = subscribe_loses_nothing 1 finished reader reader-Reach

subscribe_ends_example :
    ((follow_alone 5 finished reader).phase ≡ stopped)
    × (delivered (follow_alone 5 finished reader).frames ≡ (2, "plan") ∷ (3, "run_complete") ∷ [])
unfolding append_event events_after subscriber_step
subscribe_ends_example =
    subscribe_ends 5 1 finished reader refl reader-Reach (λ h. cc) (omega arith)

-- A table with a run that was done at 5.
abbrev one_done : RunRegistry String
one_done = record {
  runs = ("r0", 0) ∷ [];
  objects = λ ref. mark_done 5 (new_run "r0" "u1");
  next = 1;
}
