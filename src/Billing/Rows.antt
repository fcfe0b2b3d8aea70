-- ===== src/Billing/Rows.antt =====
-- Rows of `users` that anima/billing.py looks up and updates by their id.
use anima.Prelude.{
  [], ◌∷◌, refl, true, false, none, some, inl, inr, ◌≡◌, Option, String, List, Bool-cases, ℕ,
  str_eq, ap, eq_of_str_eq, ◌∙◌, sym,
}
use anima.Billing.{User, row_of, update_row, Option, String, List, ℕ, str_eq}

-- What a column update leaves as it is: the key, or the key and the count of tokens.
abbrev pub KeepsId : (User → User) → Type 0
KeepsId f = (u : User) → (f u).id ≡ u.id

abbrev pub KeepsUsage : (User → User) → Type 0
KeepsUsage f = (u : User) → (f u).tokens_used_today ≡ u.tokens_used_today

abbrev pub usage : Option User → ℕ
usage none = 0
usage (some u) = u.tokens_used_today

-- `tokens_used_today` of a user.
abbrev pub used_of : String → List User → ℕ
used_of user_id us = usage (row_of user_id us)

abbrev pub map_row : (User → User) → Option User → Option User
map_row f none = none
map_row f (some u) = some (f u)

str_eq-of-eq : (a b c : String) → a ≡ b → str_eq a c ≡ str_eq b c
str_eq-of-eq a b c e = ap (λ x. str_eq x c) e

row_of-here :
    (u : User) (us : List User) (uid : String)
    → str_eq u.id uid ≡ true
    → row_of uid (u ∷ us) ≡ some u
unfolding row_of
row_of-here u us uid h = rw h refl

row_of-later :
    (u : User) (us : List User) (uid : String)
    → str_eq u.id uid ≡ false
    → row_of uid (u ∷ us) ≡ row_of uid us
unfolding row_of
row_of-later u us uid h = rw h refl

row_of-behind :
    (u : User) (uid : String) (xs ys : List User)
    → row_of uid xs ≡ row_of uid ys
    → row_of uid (u ∷ xs) ≡ row_of uid (u ∷ ys)
unfolding row_of
row_of-behind u uid xs ys e = rw e refl

update_row-here :
    (u : User) (us : List User) (v : String) (f : User → User)
    → str_eq u.id v ≡ true
    → update_row v f (u ∷ us) ≡ f u ∷ update_row v f us
unfolding update_row
update_row-here u us v f h = rw h refl

update_row-later :
    (u : User) (us : List User) (v : String) (f : User → User)
    → str_eq u.id v ≡ false
    → update_row v f (u ∷ us) ≡ u ∷ update_row v f us
unfolding update_row
update_row-later u us v f h = rw h refl

module _ (f : User → User) (keeps : KeepsId f) where
  pub row_of-update_self :
      (uid : String) (us : List User) → row_of uid (update_row uid f us) ≡ map_row f (row_of uid us)
  unfolding row_of update_row
  row_of-update_self uid [] = refl
  row_of-update_self uid (u ∷ us) = elim (Bool-cases (str_eq u.id uid)) [
    | inl e ↦
        ap (row_of uid) (update_row-here u us uid f e)
        ∙ row_of-here (f u) (update_row uid f us) uid (str_eq-of-eq (f u).id u.id uid (keeps u) ∙ e)
        ∙ sym (ap (map_row f) (row_of-here u us uid e))
    | inr e ↦
        ap (row_of uid) (update_row-later u us uid f e)
        ∙ row_of-later u (update_row uid f us) uid e
        ∙ row_of-update_self uid us
        ∙ sym (ap (map_row f) (row_of-later u us uid e))
  ]

  differs : (a b c : String) → str_eq a b ≡ true → str_eq b c ≡ false → str_eq a c ≡ false
  differs a b c e d = str_eq-of-eq a b c (eq_of_str_eq e) ∙ d

  pub row_of-update_other :
      (v uid : String) (us : List User)
      → str_eq v uid ≡ false
      → row_of uid (update_row v f us) ≡ row_of uid us
  unfolding row_of update_row
  row_of-update_other v uid [] d = refl
  row_of-update_other v uid (u ∷ us) d = elim (Bool-cases (str_eq u.id v)) [
    | inl e ↦
        let elsewhere = differs u.id v uid e d in
        ap (row_of uid) (update_row-here u us v f e)
        ∙ row_of-later (f u) (update_row v f us) uid
            (str_eq-of-eq (f u).id u.id uid (keeps u) ∙ elsewhere)
        ∙ row_of-update_other v uid us d
        ∙ sym (row_of-later u us uid elsewhere)
    | inr e ↦
        ap (row_of uid) (update_row-later u us v f e)
        ∙ row_of-behind u uid (update_row v f us) us (row_of-update_other v uid us d)
  ]

  map_row-usage : KeepsUsage f → (o : Option User) → usage (map_row f o) ≡ usage o
  map_row-usage k none = refl
  map_row-usage k (some u) = k u

  pub update_row-KeepsUsage :
      KeepsUsage f
      → (v uid : String) (us : List User) → used_of uid (update_row v f us) ≡ used_of uid us
  update_row-KeepsUsage k v uid us = elim (Bool-cases (str_eq v uid)) [
    | inl e ↦
        ap (λ x. used_of uid (update_row x f us)) (eq_of_str_eq e)
        ∙ ap usage (row_of-update_self uid us)
        ∙ map_row-usage k (row_of uid us)
    | inr d ↦ ap usage (row_of-update_other v uid us d)
  ]
