-- ===== src/RunRegistry.antt =====
-- anima/api/run_registry.py: the events of an orchestration run, numbered as they come, and the
-- subscribers that replay and follow them. Coroutines alternate between the regions that hold the
-- run's condition, so each region is one step.
pub mod Subscribe
pub mod Delivery
pub mod Ending
pub mod Lookup
mod Tests
use anima.Prelude.{
  ℕ, String, Bool, Option, List, [], ◌∷◌, true, false, none, some, suc, ◌++◌, if◌then◌else◌, ltb,
}

module _ (E : Type 0) where
  pub record Run : Type 0 where
    pub run_id : String
    pub user_id : String
    pub events : List (ℕ × E)
    pub done : Bool
    pub finished_at : Option ℕ
    pub seq : ℕ

  -- What `subscribe` yields: an event with its number, or the keepalive comment.
  pub data Frame : Type 0 where
    event_frame : ℕ → E → Frame
    keepalive_frame : Frame

  -- Where a subscriber stands: at the lock, yielding what it saw pending, waiting for the condition,
  -- before a keepalive, or returned.
  pub data Phase : Type 0 where
    scanning waiting keeping_alive stopped : Phase
    emitting : List (ℕ × E) → Phase

  pub record Subscriber : Type 0 where
    pub after_seq : ℕ
    pub frames : List Frame
    pub phase : Phase

module _ {E : Type 0} where
  abbrev pub new_run : String → String → Run E
  new_run run_id user_id = record {
    run_id = run_id;
    user_id = user_id;
    events = [];
    done = false;
    finished_at = none;
    seq = 0;
  }

  -- `append`; its region also wakes the subscribers, which `subscriber_step` allows at any time.
  unfoldable pub append_event : E → Run E → Run E
  append_event event run =
      let seq = suc run.seq in record run { seq = seq; events = run.events ++ (seq, event) ∷ [] }

  -- The second region of `finish`; the first is an `append` of the event `run_complete`.
  abbrev pub mark_done : ℕ → Run E → Run E
  mark_done now run = record run { done = true; finished_at = some now }

  -- `[(s, e) for s, e in run.events if s > after_seq]`
  unfoldable pub events_after : ℕ → List (ℕ × E) → List (ℕ × E)
  events_after after [] = []
  events_after after (x ∷ xs) =
      if ltb after x.0 then x ∷ events_after after xs else events_after after xs

  abbrev pub scan : Run E → Subscriber E → List (ℕ × E) → Subscriber E
  scan run sub [] = record sub { phase = if run.done then stopped else waiting }
  scan run sub (x ∷ xs) = record sub { phase = emitting (x ∷ xs) }

  abbrev pub in_phase : Bool → Run E → Subscriber E → Phase E → Subscriber E
  in_phase timed_out run sub scanning = scan run sub (events_after sub.after_seq run.events)
  in_phase timed_out run sub (emitting []) = record sub { phase = scanning }
  in_phase timed_out run sub (emitting (x ∷ xs)) = record {
    after_seq = x.0;
    frames = sub.frames ++ event_frame x.0 x.1 ∷ [];
    phase = emitting xs;
  }
  in_phase timed_out run sub waiting = record sub {
    phase = if timed_out then keeping_alive else scanning;
  }
  in_phase timed_out run sub keeping_alive = record sub {
    frames = sub.frames ++ keepalive_frame ∷ [];
    phase = scanning;
  }
  in_phase timed_out run sub stopped = sub

  -- One step of `subscribe`; `timed_out` is how a wait ends.
  unfoldable pub subscriber_step : Bool → Run E → Subscriber E → Subscriber E
  unfolding events_after
  subscriber_step timed_out run sub = in_phase timed_out run sub sub.phase

  abbrev pub subscribe : ℕ → Subscriber E
  subscribe after_seq = record { after_seq = after_seq; frames = []; phase = scanning }

  -- The events among the frames.
  unfoldable pub delivered : List (Frame E) → List (ℕ × E)
  delivered [] = []
  delivered (event_frame s e ∷ frames) = (s, e) ∷ delivered frames
  delivered (keepalive_frame ∷ frames) = delivered frames
