-- ===== src/Billing/Sessions.antt =====
-- What a call of `create_checkout_session` of anima/billing.py that returned has made.
use anima.Prelude.{
  [], ◌∷◌, refl, false, none, some, inl, inr, arith, String, ◌≡◌, ◌⊎◌, Bool-cases, sym, ap, Option,
  str_eq, eq_of_str_eq,
}
use mathlib.Core.Path.{subst}
use anima.Python.{ok, bind-ok, Action}
use anima.Billing.{
  User, BillingSettings, BillingState, CheckoutSession, StripeEvent, Stripe, truthy, String, Option,
  str_eq,
}
use anima.Billing.Subscriptions.{
  create_checkout_session, session_of, checkout_at, get_or_create_stripe_customer, price_of,
  on_stripe, get_stripe,
}

-- The contract of `checkout.Session.create`: the session that a URL leads to is the one asked for.
pub record IsStripe {W : Type 0} (stripe : Stripe W) : Type 0 where
  pub session_at : W → String → Option CheckoutSession
  pub create_ok :
      (w w' : W) (c : CheckoutSession) (url : String)
      → stripe.create_session c w ≡ (ok url, w')
      → session_at w' url ≡ some c

-- The event that a session is completed: its object is the session.
pub record Completes (event : StripeEvent) (c : CheckoutSession) : Type 0 where
  pub kind : event.kind ≡ "checkout.session.completed"
  pub reference : event.object.client_reference_id ≡ some c.client_reference_id
  pub metadata : event.object.metadata ≡ c.metadata
  pub customer : event.object.customer ≡ some c.customer

abbrev pub IsPaid : String → Type 0
IsPaid tier = (tier ≡ "pro") ⊎ (tier ≡ "enterprise")

price_of-IsPaid :
    (settings : BillingSettings) (tier price : String)
    → price_of settings tier ≡ some price
    → IsPaid tier
unfolding price_of
price_of-IsPaid settings tier price h = elim (Bool-cases (str_eq tier "pro")) [
  | inl p ↦ inl (eq_of_str_eq p)
  | inr n ↦ elim (Bool-cases (str_eq tier "enterprise")) [
    | inl p ↦ inr (eq_of_str_eq p)
    | inr m ↦ ground (arith, n, m, h)
  ]
]

pub truthy-IsPaid : (tier : String) → IsPaid tier → truthy (some tier) ≡ some tier
unfolding truthy
truthy-IsPaid tier (inl e) = subst (λ t. truthy (some t) ≡ some t) (sym e) refl
truthy-IsPaid tier (inr e) = subst (λ t. truthy (some t) ≡ some t) (sym e) refl

pub truthy-nonempty : (x : String) → str_eq x "" ≡ false → truthy (some x) ≡ some x
unfolding truthy
truthy-nonempty x h = rw h refl

module _ {W : Type 0} (stripe : Stripe W) (law : IsStripe stripe) (settings : BillingSettings) where
  pub record Created (user : User) (tier url : String) (s' : BillingState W) : Type 0 where
    pub key : str_eq settings.stripe_key "" ≡ false
    pub paid : IsPaid tier
    pub session : CheckoutSession
    pub at : law.session_at s'.stripe url ≡ some session
    pub reference : session.client_reference_id ≡ user.id
    pub metadata : session.metadata ≡ ("tier", tier) ∷ ("user_id", user.id) ∷ []

  on_stripe-ok :
      {A : Type 0} (m : Action W A) (s s' : BillingState W) (a : A)
      → on_stripe stripe settings m s ≡ (ok a, s')
      → m s.stripe ≡ (ok a, s'.stripe)
  on_stripe-ok m s s' a h = ap (λ r. (r.0, r.1.stripe)) h

  get_stripe-ok :
      (s t : BillingState W)
      → get_stripe stripe settings s ≡ (ok tt, t)
      → str_eq settings.stripe_key "" ≡ false
  get_stripe-ok s t h = elim (Bool-cases (str_eq settings.stripe_key "")) [
    | inl e ↦ ground (arith, e, h)
    | inr e ↦ e
  ]

  module _ (user : User) (tier success cancel url : String) where
    checkout_at-Created :
        (price : Option String) (s s' : BillingState W)
        → str_eq settings.stripe_key "" ≡ false
        → price_of settings tier ≡ price
        → checkout_at stripe settings user tier success cancel price s ≡ (ok url, s')
        → Created user tier url s'
    checkout_at-Created none s s' key e h = ground (arith, h)
    checkout_at-Created (some price) s s' key e h =
        let (c, t, got, made) =
          bind-ok (get_or_create_stripe_customer stripe settings user)
            (λ c.
              on_stripe stripe settings (
                stripe.create_session
                  (session_of stripe settings user tier success cancel price c)))
            s h in
        let session = session_of stripe settings user tier success cancel price c in
        record {
          key = key;
          paid = price_of-IsPaid settings tier price e;
          session = session;
          at =
              law.create_ok t.stripe s'.stripe session url
                (on_stripe-ok (stripe.create_session session) t s' url made);
          reference = refl;
          metadata = refl;
        }

    pub create_checkout_session-Created :
        (s s' : BillingState W)
        → create_checkout_session stripe settings user tier success cancel s ≡ (ok url, s')
        → Created user tier url s'
    unfolding create_checkout_session
    create_checkout_session-Created s s' h =
        let (_, t, passed, rest) =
          bind-ok (get_stripe stripe settings)
            (λ _. checkout_at stripe settings user tier success cancel (price_of settings tier)) s
            h in
        checkout_at-Created (price_of settings tier) t s' (get_stripe-ok s t passed) refl rest
