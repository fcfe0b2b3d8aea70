-- ===== src/RateLimiter/Answers.antt =====
-- What `dispatch` of anima/middleware/rate_limiter.py answers.
use anima.RateLimiter.Window.{IsRedis, check_rate_limit-Counted}
use anima.Python.{ok, raised, Exn}
use anima.Prelude.{
  ℕ, Bool, List, ◌∷◌, true, false, ◌||◌, ◌≡◌, contains, if◌then◌else◌, str_eq, arith, refl, suc,
  inl, inr, ◌<◌, ◌⊎◌, Bool-cases, ◌≤◌, ap, ltb, max, ◌∙◌,
}
use anima.RateLimiter.{
  Redis, check_rate_limit, dispatch, TokenReader, Limits, Request, LimiterState, call_next,
  too_many_requests, classify_endpoint, get_subject, get_limit, limit_key, exempt_paths,
}

-- The requests that are not counted.
abbrev pub is_exempt : Bool → Request → Bool
is_exempt testing request =
    testing
    || (contains exempt_paths request.path || str_eq (classify_endpoint request.path) "exempt")

abbrev pub key_of : TokenReader → Request → List ℕ
key_of decode request =
    let group = classify_endpoint request.path in limit_key group (get_subject decode request group)

abbrev pub limit_of : Limits → Request → ℕ
limit_of limits request = (get_limit limits (classify_endpoint request.path)).0

abbrev pub window_of : Limits → Request → ℕ
window_of limits request = (get_limit limits (classify_endpoint request.path)).1

module _ {W : Type 0} (redis : Redis W) (decode : TokenReader) (limits : Limits) (testing : Bool)
    (request : Request) where
  dispatch-exempt :
      (s : LimiterState W)
      → is_exempt testing request ≡ true
      → dispatch redis decode limits testing request s ≡ (ok call_next, s)
  unfolding dispatch
  dispatch-exempt s e = ground (arith, e)

  dispatch-counted :
      (s : LimiterState W) (b : Bool) (r : ℕ) (w : W)
      → is_exempt testing request ≡ false
      → check_rate_limit redis
          (key_of decode request)
          (limit_of limits request)
          (window_of limits request)
          s.redis
        ≡ (ok (b, r), w)
      → dispatch redis decode limits testing request s ≡ (
          if b then (ok call_next, record s { redis = w }) else (
            ok (too_many_requests r),
            record { redis = w; hits = classify_endpoint request.path ∷ s.hits },
          ))
  unfolding dispatch
  dispatch-counted s b r w e c = ground (arith, e, c)

  window_of-positive : 0 < window_of limits request
  window_of-positive = ground arith

  -- A request that is exempt passes and is not counted. With Redis reachable, any other is counted
  -- once at the key of its group and caller, whose counter then has a deadline. It passes if fewer
  -- than the limit of its group were counted before; else it is answered 429 with a positive time to
  -- wait, and the metric of its group goes up.
  pub dispatch_lem :
      (is : IsRedis redis) (s : LimiterState W)
      → let (result, s') = dispatch redis decode limits testing request s in
        let key = key_of decode request in
        ((is_exempt testing request ≡ true) × (result ≡ ok call_next) × (s' ≡ s))
        ⊎ ((is.count s'.redis key ≡ suc (is.count s.redis key))
            × (is.expires s'.redis key ≡ true)
            × (((is.count s.redis key < limit_of limits request)
                  × (result ≡ ok call_next)
                  × (s'.hits ≡ s.hits))
                ⊎ ((limit_of limits request ≤ is.count s.redis key)
                    × ((r : ℕ) × (0 < r) × (result ≡ ok (too_many_requests r)))
                    × (s'.hits ≡ classify_endpoint request.path ∷ s.hits))))
  dispatch_lem is s =
      let key = key_of decode request in
      let limit = limit_of limits request in
      elim (Bool-cases (is_exempt testing request)) [
        | inl exempt ↦ rw (dispatch-exempt s exempt) (inl (exempt, refl, refl))
        | inr counts ↦
            let c =
              check_rate_limit-Counted redis is key limit (window_of limits request) s.redis
                window_of-positive in
            elim (Bool-cases (ltb limit (suc (is.count s.redis key)))) [
              | inl full ↦
                  rw
                    (dispatch-counted s false (max c.ttl 1) c.after counts
                      (c.returned ∙ rw full refl))
                    (inr (
                      c.counted,
                      c.expires,
                      inr (ground (arith, full), (max c.ttl 1, ground arith, refl), refl),
                    ))
              | inr room ↦
                  rw (dispatch-counted s true 0 c.after counts (c.returned ∙ rw room refl))
                    (inr (c.counted, c.expires, inl (ground (arith, room), refl, refl)))
            ]
      ]

  -- While Redis raises on the counter, every request passes.
  pub dispatch_fails_open :
      ((key : List ℕ) (w : W) → (x : Exn) × (w' : W) × (redis.incr_and_ttl key w ≡ (raised x, w')))
      → (s : LimiterState W) → (dispatch redis decode limits testing request s).0 ≡ ok call_next
  dispatch_fails_open down s = elim (Bool-cases (is_exempt testing request)) [
    | inl exempt ↦ ap (λ r. r.0) (dispatch-exempt s exempt)
    | inr counts ↦
        let (x, w, failed) = down (key_of decode request) s.redis in
        ap (λ r. r.0)
          (dispatch-counted s true 0 w counts (unfold check_rate_limit in ground (arith, failed)))
  ]
