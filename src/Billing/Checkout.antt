-- ===== src/Billing/Checkout.antt =====
-- A checkout of anima/billing.py and the webhook that completes it.
use anima.Billing.Rows.{row_of-update_self, map_row}
use anima.Prelude.{
  [], ◌∷◌, refl, false, some, String, ◌≡◌, sym, ap, str_eq, ◌∙◌, List, ℕ, or_default,
}
use mathlib.Core.Path.{subst}
use anima.Python.{
  ok, Action, ◌>>◌, pure, guard-false, not_implemented, ◌>>=◌, bind-of-ok, try_except-ok, raise,
}
use anima.Billing.{
  User, BillingSettings, BillingState, CheckoutSession, StripeEvent, Stripe, truthy, String, str_eq,
  tier_budget, update_user, row_of, update_user_tier, StripeObject, List, ℕ, update_row, pure,
}
use anima.Billing.Subscriptions.{
  create_checkout_session, on_stripe, on_event, on_checkout_completed, get_text,
  handle_webhook_event, complete_checkout, verified_event, translated,
}
use anima.Billing.Sessions.{
  Completes, Created, IsPaid, IsStripe, create_checkout_session-Created, truthy-IsPaid,
  truthy-nonempty,
}

-- The row of a user after the checkout.
abbrev pub upgraded : BillingSettings → String → String → User → User
upgraded settings tier customer u = record u {
  tier = tier;
  token_budget_daily = tier_budget settings tier;
  stripe_customer_id = some customer;
}

module _ {W : Type 0} (settings : BillingSettings) where
  complete_checkout-row :
      (uid tier customer : String) (t : BillingState W) (u : User)
      → row_of uid t.users ≡ some u
      → (t' : BillingState W) × (complete_checkout settings (some uid) (some tier) (some customer) t
          ≡ (ok tt, t'))
        × (row_of uid t'.users ≡ some (upgraded settings tier customer u))
  unfolding update_user update_user_tier
  complete_checkout-row uid tier customer t u h =
      let with_customer =
        update_row uid (λ x. record x { stripe_customer_id = some customer }) t.users in
      let f =
        λ (x : User). record x { tier = tier; token_budget_daily = tier_budget settings tier } in
      (
        record t { users = update_row uid f with_customer },
        refl,
        row_of-update_self f (λ x. refl) uid with_customer
            ∙ ap (map_row f) (
                row_of-update_self (λ x. record x { stripe_customer_id = some customer })
                  (λ x. refl) uid t.users
                ∙ ap (map_row (λ x. record x { stripe_customer_id = some customer })) h),
      )

  on_event-complete_checkout :
      (event : StripeEvent) (t : BillingState W)
      → event.kind ≡ "checkout.session.completed"
      → on_event settings event t ≡ on_checkout_completed settings event.object t
  unfolding on_event
  on_event-complete_checkout event t h = rw h refl

  on_checkout_completed-complete_checkout :
      (object : StripeObject) (uid tier customer : String) (t : BillingState W)
      → truthy object.client_reference_id ≡ some uid
      → truthy (get_text "tier" object.metadata) ≡ some tier
      → truthy object.customer ≡ some customer
      → on_checkout_completed settings object t
        ≡ complete_checkout settings (some uid) (some tier) (some customer) t
  unfolding on_checkout_completed
  on_checkout_completed-complete_checkout object uid tier customer t a b c = rw (a, b, c) refl

get_text-tier :
    (tier uid : String) → get_text "tier" (("tier", tier) ∷ ("user_id", uid) ∷ []) ≡ some tier
unfolding get_text
get_text-tier tier uid = refl

module _ {W : Type 0} (stripe : Stripe W) (settings : BillingSettings) where
  handle-event :
      (payload : List ℕ) (sig_header : String) (event : StripeEvent) (later : BillingState W)
      (w : W) (t' : BillingState W)
      → str_eq settings.stripe_key "" ≡ false
      → stripe.construct_event payload sig_header settings.stripe_webhook_secret later.stripe
        ≡ (ok event, w)
      → on_event settings event (record later { stripe = w }) ≡ (ok tt, t')
      → handle_webhook_event stripe settings payload sig_header later ≡ (ok event.kind, t')
  unfolding handle_webhook_event
  handle-event payload sig_header event later w t' key e ran =
      guard-false (str_eq settings.stripe_key "") not_implemented
        (verified_event stripe settings payload sig_header >>= answer) later key
      ∙ bind-of-ok (verified_event stripe settings payload sig_header) answer (
          try_except-ok
            (on_stripe stripe settings
              (stripe.construct_event payload sig_header settings.stripe_webhook_secret))
            (λ x. raise (translated x)) (ap (λ r. (r.0, record later { stripe = r.1 })) e))
      ∙ bind-of-ok (on_event settings event) (λ _. pure event.kind) ran
    where
      answer : StripeEvent → Action (BillingState W) String
      answer e = on_event settings e >> pure e.kind

module _ {W : Type 0} (stripe : Stripe W) (law : IsStripe stripe) (settings : BillingSettings)
    (user : User) (tier url : String) where
  on_event-Created :
      (s' t : BillingState W) (made : Created stripe law settings user tier url s')
      (event : StripeEvent) (u : User)
      → Completes event made.session
      → str_eq user.id "" ≡ false
      → str_eq made.session.customer "" ≡ false
      → row_of user.id t.users ≡ some u
      → (t' : BillingState W) × (on_event settings event t ≡ (ok tt, t'))
        × (row_of user.id t'.users ≡ some (upgraded settings tier made.session.customer u))
  on_event-Created s' t made event u done id_given customer_given h =
      let (t', ran, row) =
        complete_checkout-row settings user.id tier made.session.customer t u h in
      (
        t',
        on_event-complete_checkout settings event t done.kind
            ∙ on_checkout_completed-complete_checkout settings event.object user.id tier
                made.session.customer t
                (ap truthy (done.reference ∙ ap some made.reference)
                  ∙ truthy-nonempty user.id id_given)
                (ap (λ m. truthy (get_text "tier" m)) (done.metadata ∙ made.metadata)
                  ∙ ap truthy (get_text-tier tier user.id)
                  ∙ truthy-IsPaid tier made.paid)
                (ap truthy done.customer ∙ truthy-nonempty made.session.customer customer_given)
            ∙ ran,
        row,
      )

  -- Where Stripe keeps its contract, the webhook of a completed checkout session puts the user who
  -- asked for the session on the tier asked for, which is a paid one, with the tier's budget and the
  -- session's customer, and returns the event's type; the use of the day stays. The session is the
  -- one at the URL that `create_checkout_session` returned, whatever has happened to the database
  -- since, as long as the user is there; the ids of user and customer are not empty.
  pub checkout_then_webhook :
      (success_url cancel_url : String) (s s' : BillingState W)
      → create_checkout_session stripe settings user tier success_url cancel_url s ≡ (ok url, s')
      → (payload : List ℕ) (sig_header : String) (event : StripeEvent) (c : CheckoutSession)
      → (later : BillingState W) (w : W) (u : User)
      → law.session_at later.stripe url ≡ law.session_at s'.stripe url
      → law.session_at later.stripe url ≡ some c
      → stripe.construct_event payload sig_header settings.stripe_webhook_secret later.stripe
        ≡ (ok event, w)
      → Completes event c
      → row_of user.id later.users ≡ some u
      → str_eq user.id "" ≡ false
      → str_eq c.customer "" ≡ false
      → IsPaid tier
        × (t : BillingState W) × (handle_webhook_event stripe settings payload sig_header later
            ≡ (ok "checkout.session.completed", t))
        × (row_of user.id t.users ≡ some (upgraded settings tier c.customer u))
  checkout_then_webhook success_url cancel_url s s' h payload sig_header event c later w u kept
        at_url e done row id_given customer_given =
      let made =
        create_checkout_session-Created stripe law settings user tier success_url cancel_url url s
          s' h in
      let same : c ≡ made.session = ap (λ o. or_default o c) (sym at_url ∙ kept ∙ made.at) in
      let (t, ran, after) =
        on_event-Created s' (record later { stripe = w }) made event u
          (subst (Completes event) same done) id_given
          (subst (λ x. str_eq x.customer "" ≡ false) same customer_given) row in
      (
        made.paid,
        t,
        handle-event stripe settings payload sig_header event later w t made.key e ran
            ∙ ap (λ k. (ok k, t)) done.kind,
        after ∙ ap (λ x. some (upgraded settings tier x.customer u)) (sym same),
      )
