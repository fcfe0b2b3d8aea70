-- ===== src/Billing/Budget.antt =====
-- How far a user's `tokens_used_today` can go over the daily limit of anima/billing.py: intents are
-- admitted when they start and recorded when they end, and any number may be under way between.
use anima.Python.{ok}
use anima.Prelude.{
  false, suc, inl, inr, arith, String, List, ℕ, ◌≤◌, ◌≡◌, Bool-cases, ◌<◌, ◌+◌, ◌*◌, str_eq, Option,
  refl, none, some, sym, eq_of_str_eq, ap,
}
use mathlib.Core.Path.{subst}
use native.Mathlib.Nat.{mul-le-mul_right, suc-mul}
use anima.Billing.{
  update_user, BillingSettings, BillingState, Stripe, User, daily_limit, check_quota, record_usage,
  reset_daily_budget, update_row, row_of, String, List, ℕ, str_eq, Option,
}
use anima.Billing.Rows.{used_of, map_row, usage, row_of-update_self, row_of-update_other}
use anima.Billing.Quota.{
  check_quota-ok, record_usage-at_most, record_usage-other, daily_limit-positive,
}
use anima.Billing.Subscriptions.{handle_webhook_event}
use anima.Billing.Webhook.{webhook_changes_only_named}

map_row-reset :
    (o : Option User) → usage (map_row (λ u. record u { tokens_used_today = 0 }) o) ≤ usage o
map_row-reset none = omega arith
map_row-reset (some u) = omega arith

reset-used :
    (v uid : String) (us : List User)
    → used_of uid (update_row v (λ u. record u { tokens_used_today = 0 }) us) ≤ used_of uid us
reset-used v uid us = elim (Bool-cases (str_eq v uid)) [
  | inl e ↦
      subst (λ x. used_of uid (update_row x emptied us) ≤ used_of uid us) (sym (eq_of_str_eq e))
        (subst (λ o. usage o ≤ used_of uid us) (sym (row_of-update_self emptied (λ u. refl) uid us))
          (map_row-reset (row_of uid us)))
  | inr d ↦ omega (arith, ap usage (row_of-update_other emptied (λ u. refl) v uid us d))
]
  where
    emptied : User → User
    emptied u = record u { tokens_used_today = 0 }

module _ {W : Type 0} (stripe : Stripe W) (settings : BillingSettings) (uid top : String)
    (k m : ℕ) where
  -- The database with `p` intents of the user under way: at most `k` of them at a time, each of
  -- at most `m` tokens, and admitted under a tier whose limit is at most that of `top`. Other users'
  -- intents, webhooks and the resets of the day come between.
  pub data Reach : BillingState W → ℕ → Type 0 where
    start : (s : BillingState W) → used_of uid s.users ≡ 0 → Reach s 0
    admitted :
        (tier : String) (s s' : BillingState W) (p : ℕ)
        → Reach s p
        → p < k
        → daily_limit tier ≤ daily_limit top
        → check_quota uid tier s ≡ (ok tt, s')
        → Reach s' (suc p)
    recorded :
        (n : ℕ) (model : String) (intent : Option String) (s : BillingState W) (p : ℕ)
        → Reach s (suc p)
        → n ≤ m
        → Reach (record_usage uid n model intent s).1 p
    recorded_other :
        (other : String) (n : ℕ) (model : String) (intent : Option String) (s : BillingState W)
        (p : ℕ)
        → Reach s p
        → str_eq other uid ≡ false
        → Reach (record_usage other n model intent s).1 p
    webhook :
        (payload : List ℕ) (sig_header : String) (s : BillingState W) (p : ℕ)
        → Reach s p
        → Reach (handle_webhook_event stripe settings payload sig_header s).1 p
    reset :
        (other : String) (s : BillingState W) (p : ℕ)
        → Reach s p
        → Reach (reset_daily_budget other s).1 p

  -- The tokens used, with those that the intents under way may still add.
  record Within (s : BillingState W) (p : ℕ) : Type 0 where
    count : p ≤ k
    within : used_of uid s.users + p * m < daily_limit top + k * m

  admitted-Within :
      (s : BillingState W) (p : ℕ)
      → p < k
      → used_of uid s.users < daily_limit top
      → Within s (suc p)
  admitted-Within s p room below = record {
    count = omega (arith, room);
    within = omega (arith, below, mul-le-mul_right {m = suc p} {n = k} m (omega (arith, room)));
  }

  recorded-Within :
      (s t : BillingState W) (n p : ℕ)
      → Within s (suc p)
      → n ≤ m
      → used_of uid t.users ≤ used_of uid s.users + n
      → Within t p
  recorded-Within s t n p h small grows = record {
    count = omega (arith, h.count);
    within = omega (arith, h.within, small, grows, suc-mul p m);
  }

  other-Within :
      (s t : BillingState W) (p : ℕ)
      → Within s p
      → used_of uid t.users ≤ used_of uid s.users
      → Within t p
  other-Within s t p h less = record { count = h.count; within = omega (arith, h.within, less) }

  reach-Within : (s : BillingState W) (p : ℕ) → Reach s p → Within s p
  unfolding update_user
  reach-Within _ _ (start s e) = record {
    count = omega arith;
    within = omega (arith, e, daily_limit-positive top);
  }
  reach-Within _ _ (admitted tier s s' p r room tier_ok h) =
      let (same, below) = check_quota-ok uid tier s s' h in
      subst (λ t. Within t (suc p)) (sym same)
        (admitted-Within s p room (omega (arith, below, tier_ok)))
  reach-Within _ _ (recorded n model intent s p r small) =
      recorded-Within s (record_usage uid n model intent s).1 n p (reach-Within s (suc p) r) small
        (record_usage-at_most uid n model intent s)
  reach-Within _ _ (recorded_other other n model intent s p r d) =
      other-Within s (record_usage other n model intent s).1 p (reach-Within s p r)
        (omega (arith, record_usage-other other uid n model intent s d))
  reach-Within _ _ (webhook payload sig s p r) =
      let keeps = (webhook_changes_only_named stripe settings payload sig s uid).usage in
      other-Within s (handle_webhook_event stripe settings payload sig s).1 p (reach-Within s p r)
        (omega (arith, keeps))
  reach-Within _ _ (reset other s p r) =
      other-Within s (reset_daily_budget other s).1 p (reach-Within s p r)
        (reset-used other uid s.users)

  -- If a user starts the day with nothing used, at most `k` of the user's intents are under way at a
  -- time, each records at most `m` tokens, and they are admitted under tiers with at most the limit
  -- of `top`, then what the user has used stays below that limit and `k * m` more, whatever intents
  -- of others, webhooks and resets come between.
  pub used_today_is_bounded :
      (s : BillingState W) (p : ℕ) → Reach s p → used_of uid s.users < daily_limit top + k * m
  used_today_is_bounded s p r = omega (arith, (reach-Within s p r).within)
