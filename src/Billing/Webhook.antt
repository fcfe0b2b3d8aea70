-- ===== src/Billing/Webhook.antt =====
-- What a webhook of anima/billing.py may change.
use anima.Prelude.{refl, inl, inr, List, String, Bool-cases, ◌≡◌, str_eq, sym, ap, ℕ}
use mathlib.Core.Path.{subst}
use anima.Python.{
  guard-true, guard-false, not_implemented, pure, raise, Action, ◌>>=◌, ◌>>◌, bind-of-ok,
  bind-of-raised, Outcome-cases, ok, try_except-ok, map-Keeps, try_except-raised,
}
use anima.Billing.{BillingSettings, BillingState, List, String, str_eq, Stripe, ℕ, StripeEvent}
use anima.Billing.Subscriptions.{
  on_event, handle_webhook_event, translated, on_stripe, verified_event,
}
use anima.Billing.Handlers.{Named, Touched, on_event-Touched}

module _ {W : Type 0} (stripe : Stripe W) (settings : BillingSettings) where
  -- Stripe verified the payload, and the event that it found there names the user.
  abbrev pub VerifiedFor : List ℕ → String → BillingState W → String → Type 0
  VerifiedFor payload sig_header s uid =
      (event : StripeEvent) × (w : W) × (stripe.construct_event payload sig_header
          settings.stripe_webhook_secret s.stripe
        ≡ (ok event, w))
      × Named event.object s.users uid

  module _ (payload : List ℕ) (sig_header : String) (s : BillingState W) (uid : String) where
    abbrev Harmless : BillingState W → Type 0
    Harmless t = Touched settings s uid (VerifiedFor payload sig_header s uid) t

    unchanged : (w : W) → Harmless (record s { stripe = w })
    unchanged w = record { row = inl refl; usage = refl; events = refl }

    answer : StripeEvent → Action (BillingState W) String
    answer event = on_event settings event >> pure event.kind

    after_verification : Action (BillingState W) String
    after_verification = verified_event stripe settings payload sig_header >>= answer

    after_verification-Harmless : Harmless (after_verification s).1
    unfolding after_verification answer
    after_verification-Harmless =
        let (r, w) =
          stripe.construct_event payload sig_header settings.stripe_webhook_secret s.stripe in
        elim (Outcome-cases r) [
          | inl (event, e) ↦
              subst (λ r. Harmless r.1)
                (sym (
                  bind-of-ok (verified_event stripe settings payload sig_header) answer (
                    try_except-ok call (λ x. raise (translated x))
                      (ap (λ o. (o, record s { stripe = w })) e))))
                (map-Keeps Harmless (on_event settings event) (λ _. event.kind)
                  (record s { stripe = w })
                  (on_event-Touched settings s uid (VerifiedFor payload sig_header s uid)
                    event.object (record s { stripe = w }) (λ n. (event, w, ap (λ o. (o, w)) e, n))
                    (unchanged w) event.kind))
          | inr (x, e) ↦
              subst (λ r. Harmless r.1)
                (sym (
                  bind-of-raised (verified_event stripe settings payload sig_header) answer (
                    try_except-raised call (λ x. raise (translated x))
                      (ap (λ o. (o, record s { stripe = w })) e))))
                (unchanged w)
        ]
      where
        call : Action (BillingState W) StripeEvent
        call =
            on_stripe stripe settings
              (stripe.construct_event payload sig_header settings.stripe_webhook_secret)

    -- However a webhook ends, it changes the row of a user only where Stripe verified its payload
    -- and the event names that user, by the reference of a checkout or as the holder of a customer;
    -- it never changes what a user has used today, and it writes no billing event.
    pub webhook_changes_only_named :
        Harmless (handle_webhook_event stripe settings payload sig_header s).1
    unfolding handle_webhook_event after_verification answer
    webhook_changes_only_named = elim (Bool-cases (str_eq settings.stripe_key "")) [
      | inl e ↦
          subst (λ r. Harmless r.1)
            (sym
              (guard-true (str_eq settings.stripe_key "") not_implemented after_verification s e))
            (unchanged s.stripe)
      | inr e ↦
          subst (λ r. Harmless r.1)
            (sym
              (guard-false (str_eq settings.stripe_key "") not_implemented after_verification s e))
            after_verification-Harmless
    ]
