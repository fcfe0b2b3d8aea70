-- ===== src/Billing/Tests.antt =====
-- Runs of anima/billing.py on two users, with a Stripe that keeps one checkout session.
use anima.Billing.Budget.{used_today_is_bounded, Reach, recorded, admitted, start}
use anima.Billing.Rows.{used_of}
use anima.Billing.Handlers.{Touched}
use anima.Billing.Sessions.{IsPaid, IsStripe}
use anima.Billing.Webhook.{webhook_changes_only_named, VerifiedFor}
use anima.Prelude.{
  [], ◌∷◌, refl, none, some, ap, ◌≡◌, Option, if◌then◌else◌, sym, String, str_eq, arith, ◌<◌, ◌+◌,
  ◌*◌,
}
use anima.Python.{ok, pure, raised, signature_error, permission_error, quota_exceeded}
use anima.Billing.{
  daily_limit, User, BillingSettings, BillingState, CheckoutSession, Stripe, StripeObject, row_of,
  check_quota, Option, String, str_eq, record_usage, StripeEvent,
}
use anima.Billing.Subscriptions.{create_checkout_session, handle_webhook_event}
use anima.Billing.Checkout.{checkout_then_webhook, upgraded}

abbrev ann : User
ann = record {
  id = "u1";
  email = "ann@example.org";
  tier = "free";
  token_budget_daily = 50000;
  tokens_used_today = 0;
  stripe_customer_id = none;
}

abbrev bob : User
bob = record {
  id = "u2";
  email = "bob@example.org";
  tier = "pro";
  token_budget_daily = 500000;
  tokens_used_today = 500000;
  stripe_customer_id = some "cus_2";
}

abbrev settings : BillingSettings
settings = record {
  stripe_key = "sk";
  stripe_price_pro = "price_pro";
  stripe_price_enterprise = "";
  stripe_webhook_secret = "whsec";
  free_tier_daily_tokens = 50000;
  pro_tier_daily_tokens = 500000;
  enterprise_tier_daily_tokens = 10000000;
}

abbrev Shop : Type 0
Shop = Option CheckoutSession

abbrev object_of : Option CheckoutSession → StripeObject
object_of none = record {
  client_reference_id = none;
  metadata = [];
  customer = some "cus_2";
  status = none;
  items = [];
}
object_of (some c) = record {
  client_reference_id = some c.client_reference_id;
  metadata = c.metadata;
  customer = some c.customer;
  status = none;
  items = [];
}

abbrev kind_of : Option CheckoutSession → String
kind_of none = "customer.subscription.deleted"
kind_of (some c) = "checkout.session.completed"

abbrev shop : Stripe Shop
shop = record {
  create_customer = λ email user_id. pure "cus_1";
  create_session = λ c w. (ok "https://pay.example", some c);
  create_portal = λ customer return_url. pure "https://portal.example";
  construct_event = λ payload sig secret w.
      if str_eq sig secret
      then (ok (record { kind = kind_of w; object = object_of w }), w)
      else (raised signature_error, w);
}

abbrev shop_law : IsStripe shop
shop_law = record { session_at = λ w url. w; create_ok = λ w w' c url h. ap (λ r. r.1) (sym h) }

abbrev at_first : BillingState Shop
at_first = record { users = ann ∷ bob ∷ []; billing_events = []; stripe = none }

abbrev session : CheckoutSession
session = record {
  customer = "cus_1";
  price = "price_pro";
  success_url = "https://ok";
  cancel_url = "https://no";
  client_reference_id = "u1";
  metadata = ("tier", "pro") ∷ ("user_id", "u1") ∷ [];
}

abbrev ann_as_customer : User
ann_as_customer = record ann { stripe_customer_id = some "cus_1" }

abbrev asked : BillingState Shop
asked = record { users = ann_as_customer ∷ bob ∷ []; billing_events = []; stripe = some session }

-- The second user has used up the day.
bob_refused : check_quota "u2" "pro" at_first ≡ (raised quota_exceeded, at_first)
unfolding check_quota
bob_refused = refl

-- A bad signature.
forged : handle_webhook_event shop settings [] "forged" asked ≡ (raised permission_error, asked)
unfolding handle_webhook_event
forged = refl

-- A verified deletion puts the second user on the free tier.
deleted :
    row_of "u2" (handle_webhook_event shop settings [] "whsec" at_first).1.users
    ≡ some (record bob { tier = "free"; token_budget_daily = 50000 })
unfolding handle_webhook_event row_of
deleted = refl

create_asked :
    create_checkout_session shop settings ann "pro" "https://ok" "https://no" at_first
    ≡ (ok "https://pay.example", asked)
unfolding create_checkout_session
create_asked = refl

row_asked : row_of "u1" asked.users ≡ some ann_as_customer
unfolding row_of
row_asked = refl

webhook_changes_only_named_example :
    Touched settings asked "u2"
      (VerifiedFor shop settings [] "whsec" asked "u2")
      (handle_webhook_event shop settings [] "whsec" asked).1
webhook_changes_only_named_example = webhook_changes_only_named shop settings [] "whsec" asked "u2"

-- Two intents of 40,000 tokens each, admitted before either is recorded.
abbrev after_two : BillingState Shop
after_two = (record_usage "u1" 40000 "m" none (record_usage "u1" 40000 "m" none at_first).1).1

two_intents : Reach shop settings "u1" "free" 2 40000 after_two 0
unfolding check_quota row_of
two_intents =
    recorded 40000 "m" none (record_usage "u1" 40000 "m" none at_first).1 0
      (recorded 40000 "m" none at_first 1
        (admitted "free" at_first at_first 1
          (admitted "free" at_first at_first 0 (start at_first refl) (omega arith) (omega arith)
            refl)
          (omega arith) (omega arith) refl)
        (omega arith))
      (omega arith)

used_today_is_bounded_example : used_of "u1" after_two.users < daily_limit "free" + 2 * 40000
used_today_is_bounded_example =
    used_today_is_bounded shop settings "u1" "free" 2 40000 after_two 0 two_intents

abbrev completed : StripeEvent
completed = record { kind = "checkout.session.completed"; object = object_of (some session) }

checkout_then_webhook_example :
    IsPaid "pro"
    × (t : BillingState Shop) × (handle_webhook_event shop settings [] "whsec" asked
        ≡ (ok "checkout.session.completed", t))
    × (row_of "u1" t.users ≡ some (upgraded settings "pro" "cus_1" ann_as_customer))
checkout_then_webhook_example =
    checkout_then_webhook shop shop_law settings ann "pro" "https://pay.example" "https://ok"
      "https://no" at_first asked create_asked [] "whsec" completed session asked (some session)
      ann_as_customer refl refl refl
      (record { kind = refl; reference = refl; metadata = refl; customer = refl }) row_asked refl
      refl
