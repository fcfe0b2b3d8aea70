-- ===== src/Billing/Handlers.antt =====
-- What the webhook handlers of anima/billing.py may change for an event that names a user.
use anima.Prelude.{
  refl, true, none, some, inl, inr, arith, List, Option, String, Bool-cases, ◌≡◌, str_eq, ◌∙◌, ◌⊎◌,
  sym, eq_of_str_eq, ap,
}
use mathlib.Core.Path.{subst}
use anima.Python.{bind-Keeps, bind-of-ok, bind-of-raised, Outcome-cases}
use anima.Billing.{
  User, BillingSettings, BillingState, StripeObject, update_user, update_user_tier, row_of,
  customer_row, truthy, get_user_by_stripe_customer_id, row_to_user, tier_budget, List, Option,
  String, str_eq,
}
use anima.Billing.Rows.{KeepsId, KeepsUsage, used_of, row_of-update_other, update_row-KeepsUsage}
use anima.Billing.Quota.{row_to_user-ok}
use anima.Billing.Subscriptions.{
  on_event, on_checkout_completed, on_subscription_deleted, on_subscription_updated,
  complete_checkout, tier_for_customer, set_tier_of, set_customer_if, set_if_known, tier_of_items,
  is_status_active, get_text,
}

-- The event names a user by the reference of its checkout or as the holder of its customer.
pub data Named (object : StripeObject) (users : List User) (uid : String) : Type 0 where
  by_reference : object.client_reference_id ≡ some uid → Named object users uid
  by_customer :
      (c : String) (u : User)
      → object.customer ≡ some c
      → customer_row c users ≡ some u
      → u.id ≡ uid
      → Named object users uid

truthy-some : (o : Option String) (x : String) → truthy o ≡ some x → o ≡ some x
unfolding truthy
truthy-some none x h = h
truthy-some (some y) x h = ground (arith, h)

module _ {W : Type 0} (settings : BillingSettings) (s : BillingState W) (uid : String)
    (N : Type 0) where
  -- Only a named user's row has changed, and no usage or billing event.
  pub record Touched (t : BillingState W) : Type 0 where
    pub row : (row_of uid t.users ≡ row_of uid s.users) ⊎ N
    pub usage : used_of uid t.users ≡ used_of uid s.users
    pub events : t.billing_events ≡ s.billing_events

  update_user-Touched :
      (v : String) (f : User → User)
      → KeepsId f
      → KeepsUsage f
      → (str_eq v uid ≡ true → N)
      → (t : BillingState W) → Touched t
      → Touched (update_user v f t).1
  unfolding update_user
  update_user-Touched v f id same named t h = record {
    row = elim (Bool-cases (str_eq v uid)) [
      | inl e ↦ inr (named e)
      | inr d ↦ elim h.row [
        | inl e ↦ inl (row_of-update_other f id v uid t.users d ∙ e)
        | inr n ↦ inr n
      ]
    ];
    usage = update_row-KeepsUsage f id same v uid t.users ∙ h.usage;
    events = h.events;
  }

  update_user_tier-Touched :
      (v tier : String)
      → (str_eq v uid ≡ true → N)
      → (t : BillingState W) → Touched t
      → Touched (update_user_tier settings v tier t).1
  unfolding update_user_tier
  update_user_tier-Touched v tier named =
      update_user-Touched v
        (λ u. record u { tier = tier; token_budget_daily = tier_budget settings tier }) (λ u. refl)
        (λ u. refl) named

  set_customer_if-Touched :
      (v : String) (c : Option String)
      → (str_eq v uid ≡ true → N)
      → (t : BillingState W) → Touched t
      → Touched (set_customer_if v c t).1
  set_customer_if-Touched v none named t h = h
  set_customer_if-Touched v (some c) named t h =
      update_user-Touched v (λ u. record u { stripe_customer_id = some c }) (λ u. refl) (λ u. refl)
        named t h

  complete_checkout-Touched :
      (u tier c : Option String)
      → ((v : String) → u ≡ some v → str_eq v uid ≡ true → N)
      → (t : BillingState W) → Touched t
      → Touched (complete_checkout settings u tier c t).1
  complete_checkout-Touched none tier c named t h = h
  complete_checkout-Touched (some v) none c named t h = h
  complete_checkout-Touched (some v) (some tier) c named t h =
      bind-Keeps Touched (set_customer_if v c) (λ _. update_user_tier settings v tier) t
        (set_customer_if-Touched v c (named v refl) t h)
        (λ _ r k. update_user_tier-Touched v tier (named v refl) r k)

  set_tier_of-Touched :
      (tier : String) (u : Option User)
      → ((x : User) → u ≡ some x → str_eq x.id uid ≡ true → N)
      → (t : BillingState W) → Touched t
      → Touched (set_tier_of settings tier u t).1
  set_tier_of-Touched tier none named t h = h
  set_tier_of-Touched tier (some u) named t h =
      update_user_tier-Touched u.id tier (named u refl) t h

  tier_for_customer-Touched :
      (tier : String) (c : Option String) (t : BillingState W)
      → ((k : String) (x : User)
          → c ≡ some k
          → customer_row k t.users ≡ some x
          → str_eq x.id uid ≡ true
          → N)
      → Touched t
      → Touched (tier_for_customer settings tier c t).1
  unfolding get_user_by_stripe_customer_id
  tier_for_customer-Touched tier none t named h = h
  tier_for_customer-Touched tier (some c) t named h =
      elim (Outcome-cases (row_to_user (customer_row c t.users))) [
        | inl (user, e) ↦
            subst (λ r. Touched r.1)
              (sym (
                bind-of-ok (get_user_by_stripe_customer_id c)
                  (λ user. set_tier_of settings tier user) {s = t} {s' = t} (ap (λ o. (o, t)) e)))
              (set_tier_of-Touched tier user
                (λ x is. named c x refl (sym (row_to_user-ok (customer_row c t.users) user e) ∙ is))
                t h)
        | inr (x, e) ↦
            subst (λ r. Touched r.1)
              (sym (
                bind-of-raised (get_user_by_stripe_customer_id c)
                  (λ user. set_tier_of settings tier user) {s = t} {s' = t} (ap (λ o. (o, t)) e)))
              h
      ]

  -- The handlers, where a user who is named gives `N`.
  module _ (object : StripeObject) (t : BillingState W) (named : Named object t.users uid → N)
      (h : Touched t) where
    holder :
        (k : String) (x : User)
        → truthy object.customer ≡ some k
        → customer_row k t.users ≡ some x
        → str_eq x.id uid ≡ true
        → N
    holder k x c row e =
        named (by_customer k x (truthy-some object.customer k c) row (eq_of_str_eq e))

    on_checkout_completed-Touched : Touched (on_checkout_completed settings object t).1
    unfolding on_checkout_completed
    on_checkout_completed-Touched =
        complete_checkout-Touched (truthy object.client_reference_id)
          (truthy (get_text "tier" object.metadata)) (truthy object.customer)
          (λ v is e.
            named (
              by_reference
                (truthy-some object.client_reference_id v is ∙ ap some (eq_of_str_eq e))))
          t h

    on_subscription_deleted-Touched : Touched (on_subscription_deleted settings object t).1
    unfolding on_subscription_deleted
    on_subscription_deleted-Touched =
        tier_for_customer-Touched "free" (truthy object.customer) t holder h

    set_if_known-Touched :
        (tier : Option String) → Touched (set_if_known settings (truthy object.customer) tier t).1
    set_if_known-Touched none = h
    set_if_known-Touched (some tier) =
        tier_for_customer-Touched tier (truthy object.customer) t holder h

    on_subscription_updated-Touched : Touched (on_subscription_updated settings object t).1
    unfolding on_subscription_updated
    on_subscription_updated-Touched = elim (Bool-cases (is_status_active object.status)) [
      | inl e ↦ rw e (set_if_known-Touched (tier_of_items settings object.items))
      | inr e ↦ rw e h
    ]

    pub on_event-Touched :
        (kind : String) → Touched (on_event settings (record { kind = kind; object = object }) t).1
    unfolding on_event
    on_event-Touched kind = elim (Bool-cases (str_eq kind "checkout.session.completed")) [
      | inl e ↦ rw e on_checkout_completed-Touched
      | inr e ↦ elim (Bool-cases (str_eq kind "customer.subscription.deleted")) [
        | inl f ↦ rw (e, f) on_subscription_deleted-Touched
        | inr f ↦ elim (Bool-cases (str_eq kind "customer.subscription.updated")) [
          | inl g ↦ rw (e, f, g) on_subscription_updated-Touched
          | inr g ↦ rw (e, f, g) h
        ]
      ]
    ]
