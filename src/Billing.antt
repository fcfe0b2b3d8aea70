-- ===== src/Billing.antt =====
-- anima/billing.py, over the rows that the functions of anima/db/__init__.py which it calls read and
-- write. Stripe is an interface; a row's e-mail address was validated when it was stored.
pub mod Rows
pub mod Quota
pub mod Subscriptions
pub mod Handlers
pub mod Webhook
pub mod Budget
pub mod Sessions
pub mod Checkout
mod Tests
use anima.Python.{
  ok, raised, ◌>>=◌, ◌>>◌, Action, Outcome, value_error, modify, raise_if, pure, gets,
  quota_exceeded, other_error,
}
use anima.Prelude.{
  [], ◌∷◌, false, none, some, String, List, Option, contains, ℕ, if◌then◌else◌, Bool, str_eq, ◌+◌,
  ◌==◌, not, leb, is_none,
}

-- A row of `users`, and the user that is read from it.
pub record User : Type 0 where
  pub id : String
  pub email : String
  pub tier : String
  pub token_budget_daily : ℕ
  pub tokens_used_today : ℕ
  pub stripe_customer_id : Option String

pub record BillingEvent : Type 0 where
  pub user_id : String
  pub intent_id : Option String
  pub tokens : ℕ
  pub model : String
  pub event_type : String
  pub cache_hit_tokens : ℕ
  pub cache_miss_tokens : ℕ
  pub output_tokens : ℕ
  pub cost_usd_micros : Option ℕ

pub record BillingSettings : Type 0 where
  pub stripe_key : String
  pub stripe_price_pro : String
  pub stripe_price_enterprise : String
  pub stripe_webhook_secret : String
  pub free_tier_daily_tokens : ℕ
  pub pro_tier_daily_tokens : ℕ
  pub enterprise_tier_daily_tokens : ℕ

-- The database, with the newest billing event first, beside Stripe.
pub record BillingState (W : Type 0) : Type 0 where
  pub users : List User
  pub billing_events : List BillingEvent
  pub stripe : W

-- What `checkout.Session.create` is given.
pub record CheckoutSession : Type 0 where
  pub customer : String
  pub price : String
  pub success_url : String
  pub cancel_url : String
  pub client_reference_id : String
  pub metadata : List (String × String)

-- The attributes that the handlers read from an event's object: an attribute that is missing is
-- `none`, or the empty list. An item is the id of its price.
pub record StripeObject : Type 0 where
  pub client_reference_id : Option String
  pub metadata : List (String × String)
  pub customer : Option String
  pub status : Option String
  pub items : List (Option String)

pub record StripeEvent : Type 0 where
  pub kind : String
  pub object : StripeObject

pub record Stripe (W : Type 0) : Type 0 where
  pub create_customer : String → String → Action W String
  pub create_session : CheckoutSession → Action W String
  pub create_portal : String → String → Action W String
  pub construct_event : List ℕ → String → String → Action W StripeEvent

-- The values of `UserTier` and of `BillingEventType`.
abbrev pub user_tiers : List String
user_tiers = "free" ∷ "pro" ∷ "enterprise" ∷ []

abbrev pub billing_event_types : List String
billing_event_types = "intent" ∷ "manual_credit" ∷ "reset" ∷ "server_scan" ∷ "self_probe" ∷ []

-- `TIER_DAILY_LIMITS.get(tier, TIER_DAILY_LIMITS["free"])`
unfoldable pub daily_limit : String → ℕ
daily_limit tier =
    if str_eq tier "pro" then 500000 else if str_eq tier "enterprise" then 10000000 else 50000

-- `tier_budgets.get(tier, …)` in `update_user_tier`
unfoldable pub tier_budget : BillingSettings → String → ℕ
tier_budget settings tier =
    if str_eq tier "pro"
    then settings.pro_tier_daily_tokens
    else if str_eq tier "enterprise"
    then settings.enterprise_tier_daily_tokens
    else settings.free_tier_daily_tokens

-- Python's truth of a text that may be missing.
unfoldable pub truthy : Option String → Option String
truthy none = none
truthy (some s) = if str_eq s "" then none else some s

-- The first row with an id: the id is the primary key.
unfoldable pub row_of : String → List User → Option User
row_of user_id [] = none
row_of user_id (u ∷ us) = if str_eq u.id user_id then some u else row_of user_id us

abbrev is_customer : String → Option String → Bool
is_customer customer_id none = false
is_customer customer_id (some c) = str_eq c customer_id

unfoldable pub customer_row : String → List User → Option User
customer_row customer_id [] = none
customer_row customer_id (u ∷ us) =
    if is_customer customer_id u.stripe_customer_id then some u else customer_row customer_id us

-- `UPDATE users SET … WHERE id = ?`
unfoldable pub update_row : String → (User → User) → List User → List User
update_row user_id f [] = []
update_row user_id f (u ∷ us) = (if str_eq u.id user_id then f u else u) ∷ update_row user_id f us

-- `_row_to_user(row) if row else None`; the model refuses a tier that is none of the three.
unfoldable pub row_to_user : Option User → Outcome (Option User)
unfolding contains
row_to_user none = ok none
row_to_user (some u) = if contains user_tiers u.tier then ok (some u) else raised value_error

abbrev pub add_tokens : ℕ → User → User
add_tokens tokens u = record u { tokens_used_today = u.tokens_used_today + tokens }

abbrev pub usage_event : String → ℕ → String → Option String → BillingEvent
usage_event user_id tokens model intent_id = record {
  user_id = user_id;
  intent_id = intent_id;
  tokens = tokens;
  model = model;
  event_type = "intent";
  cache_hit_tokens = 0;
  cache_miss_tokens = 0;
  output_tokens = 0;
  cost_usd_micros = none;
}

module _ {W : Type 0} where
  unfoldable pub update_user : String → (User → User) → Action (BillingState W) Unit
  unfolding update_row
  update_user user_id f = modify (λ s. record s { users = update_row user_id f s.users })

  unfoldable pub get_user_by_id : String → Action (BillingState W) (Option User)
  unfolding row_of row_to_user
  get_user_by_id user_id s = (row_to_user (row_of user_id s.users), s)

  unfoldable pub get_user_by_stripe_customer_id : String → Action (BillingState W) (Option User)
  unfolding customer_row row_to_user
  get_user_by_stripe_customer_id customer_id s = (row_to_user (customer_row customer_id s.users), s)

  abbrev pub consume_tokens : String → ℕ → Action (BillingState W) Unit
  consume_tokens user_id tokens = update_user user_id (add_tokens tokens)

  abbrev pub reset_daily_budget : String → Action (BillingState W) Unit
  reset_daily_budget user_id = update_user user_id (λ u. record u { tokens_used_today = 0 })

  abbrev pub set_stripe_customer_id : String → String → Action (BillingState W) Unit
  set_stripe_customer_id user_id customer_id =
      update_user user_id (λ u. record u { stripe_customer_id = some customer_id })

  -- The foreign key refuses a user that does not exist.
  unfoldable pub create_billing_event : BillingEvent → Action (BillingState W) Unit
  unfolding contains row_of
  create_billing_event ev = do
    raise_if (not (contains billing_event_types ev.event_type)) value_error
    row ← gets (λ s. row_of ev.user_id s.users)
    raise_if (is_none row) other_error
    modify (λ s. record s { billing_events = ev ∷ s.billing_events })

  -- `check_quota`
  abbrev refuse_above : ℕ → Option User → Action (BillingState W) Unit
  refuse_above limit none = pure tt
  refuse_above limit (some u) = raise_if (leb limit u.tokens_used_today) quota_exceeded

  unfoldable pub check_quota : String → String → Action (BillingState W) Unit
  unfolding get_user_by_id daily_limit
  check_quota user_id tier = do user ← get_user_by_id user_id; refuse_above (daily_limit tier) user

  -- `record_usage`
  unfoldable pub record_usage : String → ℕ → String → Option String → Action (BillingState W) Unit
  unfolding update_user create_billing_event
  record_usage user_id tokens model intent_id =
      if tokens == 0
      then pure tt
      else consume_tokens user_id tokens
        >> create_billing_event (usage_event user_id tokens model intent_id)

  unfoldable pub update_user_tier : BillingSettings → String → String → Action (BillingState W) Unit
  unfolding update_user tier_budget
  update_user_tier settings user_id tier =
      update_user user_id
        (λ u. record u { tier = tier; token_budget_daily = tier_budget settings tier })
