-- ===== src/RateLimiter.antt =====
-- anima/middleware/rate_limiter.py: a counter in Redis for each group of endpoints and each caller.
-- Redis and the token library are interfaces; header values are texts.
pub mod Window
pub mod Answers
mod Tests
use text.Mathlib.Text.{starts_with}
use anima.Python.{Action, ◌>>=◌, ◌>>◌, pure, try_except, modify}
use anima.Prelude.{
  ℕ, String, Bool, List, Option, [], ◌∷◌, true, false, none, some, zero, suc, contains,
  if◌then◌else◌, codes, strip, str_eq, or_default, concat, ltb, ◌==◌, ◌++◌, max,
}

-- The pipeline of INCR and TTL, where no time to live is a negative number in Python, and EXPIRE.
pub record Redis (W : Type 0) : Type 0 where
  pub incr_and_ttl : List ℕ → Action W (ℕ × Option ℕ)
  pub expire : List ℕ → ℕ → Action W Unit

pub record Limits : Type 0 where
  pub rate_limit_auth_rpm : ℕ
  pub rate_limit_intent_rpm : ℕ
  pub rate_limit_api_rpm : ℕ

pub record Request : Type 0 where
  pub path : String
  pub authorization : String
  pub forwarded_for : Option String
  pub client_host : Option String

-- What `dispatch` answers: the response of the rest of the application, or the 429.
pub data Answer : Type 0 where
  call_next : Answer
  too_many_requests : ℕ → Answer

abbrev auth_throttled : List String
auth_throttled = "/auth/signup" ∷ "/auth/login" ∷ []

abbrev rate_limit_exempt : List String
rate_limit_exempt = "/health" ∷ "/metrics" ∷ []

abbrev pub exempt_paths : List String
exempt_paths = "/health" ∷ "/metrics" ∷ "/docs" ∷ "/openapi.json" ∷ "/billing/webhook" ∷ []

-- `_classify_endpoint`
unfoldable pub classify_endpoint : String → String
unfolding contains
classify_endpoint path =
    if contains auth_throttled path
    then "auth"
    else if starts_with path "/preview/"
    then "exempt"
    else if contains rate_limit_exempt path
    then "exempt"
    else if starts_with path "/intent"
    then "intent"
    else "api"

-- `_get_limit`
abbrev pub get_limit : Limits → String → ℕ × ℕ
get_limit limits group =
    if str_eq group "auth"
    then (limits.rate_limit_auth_rpm, 60)
    else if str_eq group "intent"
    then (limits.rate_limit_intent_rpm, 60)
    else (limits.rate_limit_api_rpm, 60)

-- `text.split(",")[0]`
before_comma : List ℕ → List ℕ
before_comma [] = []
before_comma (c ∷ cs) = if c == b',' then [] else c ∷ before_comma cs

-- `text[n:]`
drop_chars : ℕ → String → String
drop_chars zero s = s
drop_chars (suc n) String.[] = ""
drop_chars (suc n) (String.◌∷◌ c s) = drop_chars n s

-- `_client_ip`
abbrev peer : Option String → List ℕ
peer none = codes "unknown"
peer (some host) = codes host

unfoldable pub client_ip : Request → List ℕ
unfolding before_comma strip
client_ip request =
    let forwarded = or_default request.forwarded_for "" in
    if str_eq forwarded "" then peer request.client_host else strip (before_comma (codes forwarded))

-- What `jwt.decode` gives: nothing if it raises, else the claim `sub`, if there is one.
abbrev pub TokenReader : Type 0
TokenReader = String → Option (Option String)

abbrev claimed : Request → Option (Option String) → List ℕ
claimed request (some (some sub)) = codes sub
claimed request _ = client_ip request

-- `_get_subject`
unfoldable pub get_subject : TokenReader → Request → String → List ℕ
unfolding client_ip drop_chars
get_subject decode request group =
    if str_eq group "auth"
    then client_ip request
    else if starts_with request.authorization "Bearer "
    then claimed request (decode (drop_chars 7 request.authorization))
    else client_ip request

-- `f"rl:{group}:{subject}"`
abbrev pub limit_key : String → List ℕ → List ℕ
limit_key group subject = codes (concat "rl:" (concat group ":")) ++ subject

-- The metric `rate_limit_hits_total`, by group, newest first, beside Redis.
pub record LimiterState (W : Type 0) : Type 0 where
  pub redis : W
  pub hits : List String

module _ {W : Type 0} (redis : Redis W) where
  abbrev set_if_unset : List ℕ → ℕ → Option ℕ → Action W ℕ
  set_if_unset key window none = do redis.expire key window; pure window
  set_if_unset key window (some ttl) = pure ttl

  abbrev set_if_first : List ℕ → ℕ → ℕ → ℕ → Action W ℕ
  set_if_first key window count ttl =
      if count == 1 then (do redis.expire key window; pure window) else pure ttl

  -- `_check_rate_limit`
  unfoldable pub check_rate_limit : List ℕ → ℕ → ℕ → Action W (Bool × ℕ)
  check_rate_limit key limit window =
      try_except
        (do
          counted ← redis.incr_and_ttl key
          ttl ← set_if_unset key window counted.1
          ttl' ← set_if_first key window counted.0 ttl
          pure (if ltb limit counted.0 then (false, max ttl' 1) else (true, 0)))
        (λ e. pure (true, 0))

  abbrev on_redis : {A : Type 0} → Action W A → Action (LimiterState W) A
  on_redis m s = let (r, w) = m s.redis in (r, record s { redis = w })

  abbrev refuse_or_pass : String → Bool × ℕ → Action (LimiterState W) Answer
  refuse_or_pass group (true, retry_after) = pure call_next
  refuse_or_pass group (false, retry_after) = do
    modify (λ s. record s { hits = group ∷ s.hits })
    pure (too_many_requests retry_after)

  -- `dispatch`; `testing` is the environment variable `RAWOS_TESTING`.
  unfoldable pub dispatch : TokenReader → Limits → Bool → Request → Action (LimiterState W) Answer
  unfolding classify_endpoint get_subject check_rate_limit contains
  dispatch decode limits testing request =
      let group = classify_endpoint request.path in
      let subject = get_subject decode request group in
      let (limit, window) = get_limit limits group in
      if testing
      then pure call_next
      else if contains exempt_paths request.path
      then pure call_next
      else if str_eq group "exempt"
      then pure call_next
      else (do
        checked ← on_redis (check_rate_limit (limit_key group subject) limit window)
        refuse_or_pass group checked)
