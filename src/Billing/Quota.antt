-- ===== src/Billing/Quota.antt =====
-- The daily quota of anima/billing.py, over intents that are admitted by `check_quota` and recorded
-- by `record_usage` when they end.
use anima.Python.{ok}
use anima.Prelude.{
  refl, none, some, inl, inr, arith, String, contains, ◌<◌, ◌≡◌, Option, Bool-cases, ◌∙◌, str_eq, ℕ,
  ◌⊎◌, ◌+◌, ◌==◌, false, ◌≤◌, ap, List, sym,
}
use anima.Billing.{
  add_tokens, usage_event, BillingEvent, User, BillingState, daily_limit, check_quota, record_usage,
  create_billing_event, row_of, update_row, refuse_above, row_to_user, user_tiers, String,
  get_user_by_id, contains, Option, str_eq, BillingEvent, ℕ, update_user, List,
}
use mathlib.Core.Path.{subst}
use anima.Python.{bind-ok}
use anima.Billing.Rows.{row_of-update_self, row_of-update_other, KeepsId, used_of, usage, map_row}

pub daily_limit-positive : (tier : String) → 0 < daily_limit tier
unfolding daily_limit
daily_limit-positive tier = elim (Bool-cases (str_eq tier "pro")) [
  | inl p ↦ rw p (omega arith)
  | inr n ↦ elim (Bool-cases (str_eq tier "enterprise")) [
    | inl p ↦ rw (n, p) (omega arith)
    | inr m ↦ rw (n, m) (omega arith)
  ]
]

pub row_to_user-ok : (row user : Option User) → row_to_user row ≡ ok user → user ≡ row
unfolding row_to_user contains
row_to_user-ok none user h = ground (arith, h)
row_to_user-ok (some u) user h = elim (Bool-cases (contains user_tiers u.tier)) [
  | inl known ↦ ground (arith, known, h)
  | inr other ↦ ground (arith, other, h)
]

module _ {W : Type 0} where
  refuse_above-ok :
      (tier : String) (user : Option User) (s s' : BillingState W)
      → refuse_above (daily_limit tier) user s ≡ (ok tt, s')
      → (s' ≡ s) × (usage user < daily_limit tier)
  refuse_above-ok tier none s s' h = (ground (arith, h), daily_limit-positive tier)
  refuse_above-ok tier (some u) s s' h = (ground (arith, h), ground (arith, h))

  pub check_quota-ok :
      (uid tier : String) (s s' : BillingState W)
      → check_quota uid tier s ≡ (ok tt, s')
      → (s' ≡ s) × (used_of uid s.users < daily_limit tier)
  unfolding check_quota get_user_by_id
  check_quota-ok uid tier s s' h =
      let (user, t, got, passed) =
        bind-ok (get_user_by_id uid) (refuse_above (daily_limit tier)) s h in
      let (same, below) = refuse_above-ok tier user t s' passed in
      let row = row_to_user-ok (row_of uid s.users) user (ground (arith, got)) in
      (same ∙ ground (arith, got), subst (λ o. usage o < daily_limit tier) row below)

  create_billing_event-keeps :
      (ev : BillingEvent) (s : BillingState W) → (create_billing_event ev s).1.users ≡ s.users
  unfolding create_billing_event
  create_billing_event-keeps ev s = ground arith

  record_usage-users :
      (uid : String) (n : ℕ) (model : String) (intent : Option String) (s : BillingState W)
      → ((record_usage uid n model intent s).1.users ≡ s.users)
        ⊎ ((record_usage uid n model intent s).1.users ≡ update_row uid (add_tokens n) s.users)
  unfolding record_usage update_user
  record_usage-users uid n model intent s = elim (Bool-cases (n == 0)) [
    | inl z ↦ inl (rw z refl)
    | inr some_tokens ↦ inr (
        rw some_tokens (
          create_billing_event-keeps (usage_event uid n model intent)
            (record s { users = update_row uid (add_tokens n) s.users })))
  ]

map_row-adds : (n : ℕ) (o : Option User) → usage (map_row (add_tokens n) o) ≤ usage o + n
map_row-adds n none = omega arith
map_row-adds n (some u) = omega arith

pub keeps_id : (n : ℕ) → KeepsId (add_tokens n)
keeps_id n u = refl

adds_at_most :
    (uid : String) (n : ℕ) (us : List User)
    → used_of uid (update_row uid (add_tokens n) us) ≤ used_of uid us + n
adds_at_most uid n us =
    subst (λ o. usage o ≤ used_of uid us + n)
      (sym (row_of-update_self (add_tokens n) (keeps_id n) uid us)) (map_row-adds n (row_of uid us))

module _ {W : Type 0} where
  pub record_usage-at_most :
      (uid : String) (n : ℕ) (model : String) (intent : Option String) (s : BillingState W)
      → used_of uid (record_usage uid n model intent s).1.users ≤ used_of uid s.users + n
  record_usage-at_most uid n model intent s = elim (record_usage-users uid n model intent s) [
    | inl e ↦ subst (λ us. used_of uid us ≤ used_of uid s.users + n) (sym e) (omega arith)
    | inr e ↦
        subst (λ us. used_of uid us ≤ used_of uid s.users + n) (sym e) (adds_at_most uid n s.users)
  ]

  pub record_usage-other :
      (v uid : String) (n : ℕ) (model : String) (intent : Option String) (s : BillingState W)
      → str_eq v uid ≡ false
      → used_of uid (record_usage v n model intent s).1.users ≡ used_of uid s.users
  record_usage-other v uid n model intent s d = elim (record_usage-users v n model intent s) [
    | inl e ↦ ap (used_of uid) e
    | inr e ↦
        ap (used_of uid) e
        ∙ ap usage (row_of-update_other (add_tokens n) (keeps_id n) v uid s.users d)
  ]
