-- ===== src/RateLimiter/Window.antt =====
-- The counting of anima/middleware/rate_limiter.py within one window of Redis, and the answers of
-- `dispatch`.
use anima.Python.{ok, Outcome}
use anima.Prelude.{
  ℕ, Bool, List, Option, true, false, suc, ◌≡◌, ◌<◌, is_none, ltb, not, inl, inr, arith,
  Option-cases, if◌then◌else◌, max, Bool-cases, ◌==◌, ◌∙◌, ◌+◌, ◌≤◌, leb, sym, ap,
}
use anima.RateLimiter.{Redis, check_rate_limit}

-- What the documentation of Redis says of the three commands while it is reachable. A counter that
-- is missing or expired counts as zero and has no deadline; a counter with a deadline has a time to
-- live.
pub record IsRedis {W : Type 0} (redis : Redis W) : Type 0 where
  pub count : W → List ℕ → ℕ
  pub expires : W → List ℕ → Bool
  pub incr_ok :
      (w : W) (key : List ℕ)
      → (t : Option ℕ) × (w' : W) × (redis.incr_and_ttl key w ≡ (ok (suc (count w key), t), w'))
        × (count w' key ≡ suc (count w key))
        × (is_none t ≡ not (expires w' key))
  pub expire_ok :
      (w : W) (key : List ℕ) (window : ℕ)
      → 0 < window
      → (w' : W) × (redis.expire key window w ≡ (ok tt, w'))
        × (count w' key ≡ count w key)
        × (expires w' key ≡ true)

-- A check of a counter that reached Redis: it counts the request, leaves a deadline, and answers by
-- the counter.
abbrev pub answer : ℕ → ℕ → ℕ → Bool × ℕ
answer limit count ttl = if ltb limit count then (false, max ttl 1) else (true, 0)

pub record Counted {W : Type 0} {redis : Redis W} (is : IsRedis redis) (key : List ℕ) (limit : ℕ)
    (w : W) (result : Outcome (Bool × ℕ) × W) : Type 0 where
  pub ttl : ℕ
  pub after : W
  pub returned : result ≡ (ok (answer limit (suc (is.count w key)) ttl), after)
  pub counted : is.count after key ≡ suc (is.count w key)
  pub expires : is.expires after key ≡ true

module _ {W : Type 0} (redis : Redis W) (is : IsRedis redis) where
  pub check_rate_limit-Counted :
      (key : List ℕ) (limit window : ℕ) (w : W)
      → 0 < window
      → Counted is key limit w (check_rate_limit redis key limit window w)
  unfolding check_rate_limit
  check_rate_limit-Counted key limit window w positive =
      let (t, w1, incremented, count1, ttl1) = is.incr_ok w key in
      let (w2, expired2, count2, ttl2) = is.expire_ok w1 key window positive in
      let (w3, expired3, count3, ttl3) = is.expire_ok w2 key window positive in
      elim (Option-cases t) [
        | inl unset ↦ elim (Bool-cases (suc (is.count w key) == 1)) [
          | inl first ↦ record {
            ttl = window;
            after = w3;
            returned = ground (arith, incremented, unset, expired2, first, expired3);
            counted = count3 ∙ count2 ∙ count1;
            expires = ttl3;
          }
          | inr later ↦ record {
            ttl = window;
            after = w2;
            returned = ground (arith, incremented, unset, expired2, later);
            counted = count2 ∙ count1;
            expires = ttl2;
          }
        ]
        | inr (n, set_before) ↦ elim (Bool-cases (suc (is.count w key) == 1)) [
          | inl first ↦ record {
            ttl = window;
            after = w2;
            returned = ground (arith, incremented, set_before, expired2, first);
            counted = count2 ∙ count1;
            expires = ttl2;
          }
          | inr later ↦ record {
            ttl = n;
            after = w1;
            returned = ground (arith, incremented, set_before, later);
            counted = count1;
            expires = ground (arith, ttl1, set_before);
          }
        ]
      ]

  counted-of :
      (key : List ℕ) (limit window : ℕ) (w w' : W) (b : Bool) (r : ℕ)
      → 0 < window
      → check_rate_limit redis key limit window w ≡ (ok (b, r), w')
      → (is.count w' key ≡ suc (is.count w key)) × (b ≡ leb (suc (is.count w key)) limit)
  counted-of key limit window w w' b r positive e =
      let c = check_rate_limit-Counted key limit window w positive in
      let same = sym c.returned ∙ e in
      let after : c.after ≡ w' = ap (λ x. x.1) same in
      let out : ok (answer limit (suc (is.count w key)) c.ttl) ≡ ok (b, r) = ap (λ x. x.0) same in
      (ap (λ x. is.count x key) (sym after) ∙ c.counted, ground (arith, out))

  module _ (key : List ℕ) (limit window : ℕ) where
    -- The requests of one caller in one window: the counter starts at zero and is not reset, and
    -- what else happens leaves it. Beside the state, how many were allowed and refused.
    pub data InWindow : W → ℕ → ℕ → Type 0 where
      opened : (w : W) → is.count w key ≡ 0 → InWindow w 0 0
      allowed :
          (w w' : W) (n m r : ℕ)
          → InWindow w n m
          → check_rate_limit redis key limit window w ≡ (ok (true, r), w')
          → InWindow w' (suc n) m
      refused :
          (w w' : W) (n m r : ℕ)
          → InWindow w n m
          → check_rate_limit redis key limit window w ≡ (ok (false, r), w')
          → InWindow w' n (suc m)
      elsewhere :
          (w w' : W) (n m : ℕ) → InWindow w n m → is.count w' key ≡ is.count w key → InWindow w' n m

    record Accounted (w : W) (n m : ℕ) : Type 0 where
      total : is.count w key ≡ n + m
      bounded : n ≤ limit
      exhausted : 0 < m → n ≡ limit

    InWindow-Accounted : (w : W) (n m : ℕ) → 0 < window → InWindow w n m → Accounted w n m
    InWindow-Accounted _ _ _ positive (opened w zero_count) = record {
      total = zero_count;
      bounded = omega arith;
      exhausted = λ some_refused. omega (arith, some_refused);
    }
    InWindow-Accounted _ _ _ positive (allowed w w' n m r before e) =
        let a = InWindow-Accounted w n m positive before in
        let (count, verdict) = counted-of key limit window w w' true r positive e in
        record {
          total = omega (arith, count, a.total);
          bounded = ground (arith, verdict, a.total, a.exhausted);
          exhausted = λ some_refused. ground (arith, verdict, a.total, a.exhausted some_refused);
        }
    InWindow-Accounted _ _ _ positive (refused w w' n m r before e) =
        let a = InWindow-Accounted w n m positive before in
        let (count, verdict) = counted-of key limit window w w' false r positive e in
        record {
          total = omega (arith, count, a.total);
          bounded = a.bounded;
          exhausted = λ some_refused. ground (arith, verdict, a.total, a.bounded, a.exhausted);
        }
    InWindow-Accounted _ _ _ positive (elsewhere w w' n m before same) =
        let a = InWindow-Accounted w n m positive before in
        record { total = same ∙ a.total; bounded = a.bounded; exhausted = a.exhausted }

    -- Within one window of a counter, of positive length and with Redis reachable, at most `limit` requests are allowed, and
    -- one is refused only when that many were.
    pub allowed_at_most_limit :
        (w : W) (n m : ℕ) → 0 < window → InWindow w n m → (n ≤ limit) × (0 < m → n ≡ limit)
    allowed_at_most_limit w n m positive run =
        let a = InWindow-Accounted w n m positive run in (a.bounded, a.exhausted)
