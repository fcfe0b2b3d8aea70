-- ===== src/OwnedResource/Below.antt =====
-- When one path stands below another, for the trees of anima/kernel/owned_resource.py.
use anima.Prelude.{
  [], ◌∷◌, refl, true, false, none, some, inl, inr, arith, ◌++◌, ◌≡◌, String, eq_refl, Bool-cases,
  ap, Option-cases, sym, str_eq, not, ◌∙◌, if◌then◌else◌, is_none, eq_of_str_eq,
}
use mathlib.Core.Path.{subst}
use mathlib.Core.List.{append_assoc, append-nil}
use anima.OwnedResource.{FilePath, below, is_within, parent_of, String, str_eq, not, is_none}

pub below-append : (r q : FilePath) → below r (r ++ q) ≡ some q
unfolding below
below-append [] q = refl
below-append (x ∷ r) q = rw (eq_refl x) (below-append r q)

pub below-some : (r q t : FilePath) → below r q ≡ some t → q ≡ r ++ t
unfolding below
below-some [] q t e = ground (arith, e)
below-some (x ∷ r) [] t e = cc
below-some (x ∷ r) (y ∷ q) t e = elim (Bool-cases (str_eq x y)) [
  | inl same ↦
      let e' : below r q ≡ some t = subst (λ b. (if b then below r q else none) ≡ some t) same e in
      let head : x ≡ y = eq_of_str_eq same in
      let tail : q ≡ r ++ t = below-some r q t e' in rw (sym head) (ap (λ z. x ∷ z) tail)
  | inr other ↦ ground (arith, other, e)
]

-- A common beginning does not matter.
pub below-cancel : (r a b : FilePath) → below (r ++ a) (r ++ b) ≡ below a b
unfolding below
below-cancel [] a b = refl
below-cancel (x ∷ r) a b = rw (eq_refl x) (below-cancel r a b)

pub within-cancel : (r a b : FilePath) → is_within (r ++ a) (r ++ b) ≡ is_within a b
unfolding is_within
within-cancel r a b = ap (λ o. not (is_none o)) (below-cancel r a b)

pub within-append : (r q : FilePath) → is_within r (r ++ q) ≡ true
unfolding is_within
within-append r q = ap (λ o. not (is_none o)) (below-append r q)

pub within_self : (r : FilePath) → is_within r r ≡ true
within_self r = subst (λ q. is_within r q ≡ true) (append-nil r) (within-append r [])

pub below_self : (r : FilePath) → below r r ≡ some []
below_self r = subst (λ q. below r q ≡ some []) (append-nil r) (below-append r [])

pub within-rest : (r q : FilePath) → is_within r q ≡ true → (t : FilePath) × (q ≡ r ++ t)
unfolding is_within
within-rest r q e = elim (Option-cases (below r q)) [
  | inl nothing ↦ ground (arith, nothing, e)
  | inr (t, found) ↦ (t, below-some r q t found)
]

-- What stands below a longer path stands below its beginning.
pub within-shorter : (r a q : FilePath) → is_within (r ++ a) q ≡ true → is_within r q ≡ true
within-shorter r a q e =
    let (t, same) : (t : FilePath) × (q ≡ (r ++ a) ++ t) = within-rest (r ++ a) q e in
    subst (λ z. is_within r z ≡ true) (sym (same ∙ append_assoc r a t)) (within-append r (a ++ t))

pub within-longer : (r q a : FilePath) → is_within r q ≡ true → is_within r (q ++ a) ≡ true
within-longer r q a e =
    let (t, same) : (t : FilePath) × (q ≡ r ++ t) = within-rest r q e in
    subst (λ z. is_within r z ≡ true) (sym (ap (λ z. z ++ a) same ∙ append_assoc r t a))
      (within-append r (t ++ a))

pub not-within-shorter : (r a q : FilePath) → is_within r q ≡ false → is_within (r ++ a) q ≡ false
not-within-shorter r a q e = elim (Bool-cases (is_within (r ++ a) q)) [
  | inl inside ↦ ground (arith, within-shorter r a q inside, e)
  | inr outside ↦ outside
]

pub not-within-longer : (r q a : FilePath) → is_within r (q ++ a) ≡ false → is_within r q ≡ false
not-within-longer r q a e = elim (Bool-cases (is_within r q)) [
  | inl inside ↦ ground (arith, within-longer r q a inside, e)
  | inr outside ↦ outside
]

pub not-below : (r q : FilePath) → is_within r q ≡ false → below r q ≡ none
unfolding is_within
not-below r q e = ground (arith, e)

-- No path stands above itself.
pub within_parent : (x : String) (q : FilePath) → is_within (x ∷ q) (parent_of (x ∷ q)) ≡ false
unfolding is_within below parent_of
within_parent x [] = refl
within_parent x (y ∷ q) = rw (eq_refl x) (within_parent y q)

pub parent-append : (r : FilePath) (x : String) → parent_of (r ++ x ∷ []) ≡ r
unfolding parent_of
parent-append [] x = refl
parent-append (y ∷ []) x = refl
parent-append (y ∷ z ∷ r) x = ap (λ t. y ∷ t) (parent-append (z ∷ r) x)
