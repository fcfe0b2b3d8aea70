-- ===== src/RateLimiter/Tests.antt =====
-- Concrete requests through the middleware of anima/middleware/rate_limiter.py, with a Redis that has
-- one counter.
use anima.Python.{raised, ok, other_error}
use anima.Prelude.{
  ℕ, Bool, [], ◌∷◌, refl, true, false, none, some, suc, arith, contains, ◌≡◌, ◌≤◌, if◌then◌else◌,
  str_eq, codes, ◌<◌,
}
use anima.RateLimiter.{
  Redis, check_rate_limit, dispatch, TokenReader, Limits, Request, LimiterState, too_many_requests,
  classify_endpoint, get_subject,
}
use anima.RateLimiter.Window.{IsRedis, InWindow, opened, allowed, refused, allowed_at_most_limit}

-- The counter, and whether it has a deadline.
abbrev one_counter : Redis (ℕ × Bool)
one_counter = record {
  incr_and_ttl = λ key w. (ok (suc w.0, if w.1 then some 42 else none), (suc w.0, w.1));
  expire = λ key window w. (ok tt, (w.0, true));
}

one_counter-IsRedis : IsRedis one_counter
one_counter-IsRedis = record {
  count = λ w key. w.0;
  expires = λ w key. w.1;
  incr_ok = λ w key. (if w.1 then some 42 else none, (suc w.0, w.1), refl, refl, ground arith);
  expire_ok = λ w key window positive. ((w.0, true), refl, refl, refl);
}

abbrev down : Redis Unit
down = record {
  incr_and_ttl = λ key w. (raised other_error, w);
  expire = λ key window w. (raised other_error, w);
}

abbrev limits : Limits
limits = record { rate_limit_auth_rpm = 5; rate_limit_intent_rpm = 10; rate_limit_api_rpm = 120 }

abbrev reader : TokenReader
reader token = if str_eq token "t1" then some (some "u1") else none

abbrev intent_request : Request
intent_request = record {
  path = "/intent/run";
  authorization = "Bearer t1";
  forwarded_for = some " 10.0.0.1 , 10.0.0.2";
  client_host = none;
}

intent_group : classify_endpoint intent_request.path ≡ "intent"
unfolding classify_endpoint contains
intent_group = refl

subjects :
    (get_subject reader intent_request "intent" ≡ codes "u1")
    × (get_subject reader intent_request "auth" ≡ codes "10.0.0.1")
unfolding get_subject
subjects = (refl, refl)

abbrev exhausted_state : LimiterState (ℕ × Bool)
exhausted_state = record { redis = (10, true); hits = [] }

the_eleventh :
    dispatch one_counter reader limits false intent_request exhausted_state
    ≡ (ok (too_many_requests 42), record { redis = (11, true); hits = "intent" ∷ [] })
unfolding dispatch
the_eleventh = refl

-- Two requests at a limit of one.
two_requests : InWindow one_counter one_counter-IsRedis [] 1 60 (2, true) 1 1
unfolding check_rate_limit one_counter-IsRedis
two_requests =
    refused (1, true) (2, true) 1 0 42
      (allowed (0, false) (1, true) 0 0 0 (opened (0, false) refl) refl) refl

abbrev one_request : ℕ
one_request = 1

allowed_at_most_limit_example : (one_request ≤ 1) × (0 < one_request → one_request ≡ 1)
allowed_at_most_limit_example =
    allowed_at_most_limit one_counter one_counter-IsRedis [] 1 60 (2, true) 1 1 (omega arith)
      two_requests
