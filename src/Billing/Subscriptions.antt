-- ===== src/Billing/Subscriptions.antt =====
-- The Stripe half of anima/billing.py: checkout, portal and webhook.
use anima.Python.{
  ◌>>=◌, ◌>>◌, Exn, Action, raise, raise_if, pure, permission_error, try_except, value_error,
  not_implemented,
}
use anima.Prelude.{[], ◌∷◌, false, none, some, String, Option, List, if◌then◌else◌, Bool, ℕ, str_eq}
use anima.Python.{signature_error}
use anima.Billing.{
  User, BillingSettings, BillingState, CheckoutSession, StripeObject, StripeEvent, Stripe, String,
  truthy, Action, Option, List, raise_if, set_stripe_customer_id, pure, update_user,
  update_user_tier, Bool, ℕ, str_eq, value_error, get_user_by_stripe_customer_id,
}

-- `d.get(key)` on a dictionary of texts.
unfoldable pub get_text : String → List (String × String) → Option String
get_text key [] = none
get_text key ((k, v) ∷ rest) = if str_eq k key then some v else get_text key rest

-- `_tier_from_price`
unfoldable pub tier_from_price : BillingSettings → String → Option String
tier_from_price settings price_id =
    if str_eq price_id settings.stripe_price_pro
    then some "pro"
    else if str_eq price_id settings.stripe_price_enterprise
    then some "enterprise"
    else none

-- `price_ids.get(tier)`, where no price and an empty one come to the same.
unfoldable pub price_of : BillingSettings → String → Option String
unfolding truthy
price_of settings tier =
    if str_eq tier "pro"
    then truthy (some settings.stripe_price_pro)
    else if str_eq tier "enterprise"
    then truthy (some settings.stripe_price_enterprise)
    else none

-- The tier of the first item that an active subscription is for, in `_on_subscription_updated`.
abbrev tier_of_price : BillingSettings → Option String → Option String
tier_of_price settings none = none
tier_of_price settings (some price_id) = tier_from_price settings price_id

abbrev pub tier_of_items : BillingSettings → List (Option String) → Option String
tier_of_items settings [] = none
tier_of_items settings (price ∷ _) = tier_of_price settings (truthy price)

abbrev pub is_status_active : Option String → Bool
is_status_active none = false
is_status_active (some status) = str_eq status "active"

abbrev pub set_customer_if : {W : Type 0} → String → Option String → Action (BillingState W) Unit
set_customer_if user_id none = pure tt
set_customer_if user_id (some c) = set_stripe_customer_id user_id c

module _ {W : Type 0} (settings : BillingSettings) where
  -- `_on_checkout_completed`
  abbrev pub complete_checkout :
      Option String → Option String → Option String → Action (BillingState W) Unit
  complete_checkout (some user_id) (some tier) customer = do
    set_customer_if user_id customer
    update_user_tier settings user_id tier
  complete_checkout _ _ customer = pure tt

  unfoldable pub on_checkout_completed : StripeObject → Action (BillingState W) Unit
  unfolding truthy update_user update_user_tier get_text
  on_checkout_completed session =
      complete_checkout (truthy session.client_reference_id)
        (truthy (get_text "tier" session.metadata)) (truthy session.customer)

  -- `_on_subscription_deleted` and, from the look-up of the user on, `_on_subscription_updated`
  abbrev pub set_tier_of : String → Option User → Action (BillingState W) Unit
  set_tier_of tier none = pure tt
  set_tier_of tier (some u) = update_user_tier settings u.id tier

  abbrev pub tier_for_customer : String → Option String → Action (BillingState W) Unit
  tier_for_customer tier none = pure tt
  tier_for_customer tier (some c) = do
    user ← get_user_by_stripe_customer_id c
    set_tier_of tier user

  unfoldable pub on_subscription_deleted : StripeObject → Action (BillingState W) Unit
  unfolding truthy update_user_tier get_user_by_stripe_customer_id
  on_subscription_deleted subscription = tier_for_customer "free" (truthy subscription.customer)

  -- `_on_subscription_updated`
  abbrev pub set_if_known : Option String → Option String → Action (BillingState W) Unit
  set_if_known customer none = pure tt
  set_if_known customer (some tier) = tier_for_customer tier customer

  unfoldable pub on_subscription_updated : StripeObject → Action (BillingState W) Unit
  unfolding truthy tier_from_price update_user_tier get_user_by_stripe_customer_id
  on_subscription_updated subscription =
      if is_status_active subscription.status
      then set_if_known (truthy subscription.customer) (tier_of_items settings subscription.items)
      else pure tt

  unfoldable pub on_event : StripeEvent → Action (BillingState W) Unit
  unfolding on_checkout_completed on_subscription_deleted on_subscription_updated
  on_event event =
      if str_eq event.kind "checkout.session.completed"
      then on_checkout_completed event.object
      else if str_eq event.kind "customer.subscription.deleted"
      then on_subscription_deleted event.object
      else if str_eq event.kind "customer.subscription.updated"
      then on_subscription_updated event.object
      else pure tt

-- The exception that `handle_webhook_event` puts for one of the verification.
abbrev pub translated : Exn → Exn
translated signature_error = permission_error
translated e = e

module _ {W : Type 0} (stripe : Stripe W) (settings : BillingSettings) where
  abbrev pub on_stripe : {A : Type 0} → Action W A → Action (BillingState W) A
  on_stripe m s = let (r, w) = m s.stripe in (r, record s { stripe = w })

  -- `_get_stripe`, where the package is installed.
  abbrev pub get_stripe : Action (BillingState W) Unit
  get_stripe = raise_if (str_eq settings.stripe_key "") not_implemented

  -- `_get_or_create_stripe_customer`
  abbrev new_customer : User → Action (BillingState W) String
  new_customer user = do
    get_stripe
    customer_id ← on_stripe (stripe.create_customer user.email user.id)
    set_stripe_customer_id user.id customer_id
    pure customer_id

  abbrev customer_or_new : User → Option String → Action (BillingState W) String
  customer_or_new user none = new_customer user
  customer_or_new user (some c) = pure c

  unfoldable pub get_or_create_stripe_customer : User → Action (BillingState W) String
  unfolding truthy update_user
  get_or_create_stripe_customer user = customer_or_new user (truthy user.stripe_customer_id)

  -- `create_checkout_session`
  abbrev pub session_of : User → String → String → String → String → String → CheckoutSession
  session_of user tier success_url cancel_url price customer_id = record {
    customer = customer_id;
    price = price;
    success_url = success_url;
    cancel_url = cancel_url;
    client_reference_id = user.id;
    metadata = ("tier", tier) ∷ ("user_id", user.id) ∷ [];
  }

  abbrev pub checkout_at :
      User → String → String → String → Option String → Action (BillingState W) String
  checkout_at user tier success_url cancel_url none = raise value_error
  checkout_at user tier success_url cancel_url (some price) = do
    customer_id ← get_or_create_stripe_customer user
    on_stripe
        (stripe.create_session (session_of user tier success_url cancel_url price customer_id))

  unfoldable pub create_checkout_session :
      User → String → String → String → Action (BillingState W) String
  unfolding price_of get_or_create_stripe_customer
  create_checkout_session user tier success_url cancel_url =
      get_stripe >> checkout_at user tier success_url cancel_url (price_of settings tier)

  -- `create_portal_session`
  abbrev portal_of : String → Option String → Action (BillingState W) String
  portal_of return_url none = raise value_error
  portal_of return_url (some c) = do get_stripe; on_stripe (stripe.create_portal c return_url)

  unfoldable pub create_portal_session : User → String → Action (BillingState W) String
  unfolding truthy
  create_portal_session user return_url = portal_of return_url (truthy user.stripe_customer_id)

  -- `handle_webhook_event`; it returns the type of the event.
  abbrev pub verified_event : List ℕ → String → Action (BillingState W) StripeEvent
  verified_event payload sig_header =
      try_except
        (on_stripe (stripe.construct_event payload sig_header settings.stripe_webhook_secret))
        (λ e. raise (translated e))

  unfoldable pub handle_webhook_event : List ℕ → String → Action (BillingState W) String
  unfolding on_event
  handle_webhook_event payload sig_header = do
    get_stripe
    event ← verified_event payload sig_header
    on_event settings event
    pure event.kind
