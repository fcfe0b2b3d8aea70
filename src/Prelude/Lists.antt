-- ===== src/Prelude/Lists.antt =====
-- Lists measured by native numbers, and predicates on all members of a list.
use Prim.Native.Nat.{ℕ, zero, suc, ◌+◌, ◌≤◌, ◌<◌}
use mathlib.Core.Path.{◌≡◌, refl, ap}
use mathlib.Core.List.{List, [], ◌∷◌, ◌++◌}
use mathlib.Core.Option.{Option, none, some}
use native.Mathlib.Omega.{arith}

module _ {ℓ} {A : Type ℓ} where
  abbrev pub length : List A → ℕ
  length [] = 0
  length (_ ∷ xs) = suc (length xs)

  pub length-append : (xs ys : List A) → length (xs ++ ys) ≡ length xs + length ys
  length-append [] ys = omega arith
  length-append (x ∷ xs) ys = omega (arith, length-append xs ys)

  abbrev pub get_elem? : List A → ℕ → Option A
  get_elem? [] i = none
  get_elem? (x ∷ xs) zero = some x
  get_elem? (x ∷ xs) (suc i) = get_elem? xs i

  abbrev pub take : ℕ → List A → List A
  take zero xs = []
  take (suc n) [] = []
  take (suc n) (x ∷ xs) = x ∷ take n xs

  abbrev pub drop : ℕ → List A → List A
  drop zero xs = xs
  drop (suc n) [] = []
  drop (suc n) (x ∷ xs) = drop n xs

  -- `xs[c:t] + xs[t:]`
  pub drop-take : (c t : ℕ) (xs : List A) → c ≤ t → drop c (take t xs) ++ drop t xs ≡ drop c xs
  drop-take zero zero xs h = refl
  drop-take zero (suc t) [] h = refl
  drop-take zero (suc t) (x ∷ xs) h = ap (λ l. x ∷ l) (drop-take zero t xs (omega arith))
  drop-take (suc c) zero xs h = ground (arith, h)
  drop-take (suc c) (suc t) [] h = refl
  drop-take (suc c) (suc t) (x ∷ xs) h = drop-take c t xs (omega (arith, h))

  pub get_elem?-take : (k t : ℕ) (xs : List A) → k < t → get_elem? (take t xs) k ≡ get_elem? xs k
  get_elem?-take k zero xs h = ground (arith, h)
  get_elem?-take k (suc t) [] h = refl
  get_elem?-take zero (suc t) (x ∷ xs) h = refl
  get_elem?-take (suc k) (suc t) (x ∷ xs) h = get_elem?-take k t xs (omega (arith, h))

  pub get_elem?-beyond : (k t : ℕ) (xs : List A) → t ≤ k → get_elem? (take t xs) k ≡ none
  get_elem?-beyond k zero xs h = refl
  get_elem?-beyond k (suc t) [] h = refl
  get_elem?-beyond zero (suc t) (x ∷ xs) h = ground (arith, h)
  get_elem?-beyond (suc k) (suc t) (x ∷ xs) h = get_elem?-beyond k t xs (omega (arith, h))

  abbrev pub All {κ} : (A → Type κ) → List A → Type κ
  All P [] = Unit
  All P (x ∷ xs) = P x × All P xs

  pub All-append {κ} : (P : A → Type κ) (xs ys : List A) → All P xs → All P ys → All P (xs ++ ys)
  All-append P [] ys hx hy = hy
  All-append P (x ∷ xs) ys hx hy = (hx.0, All-append P xs ys hx.1 hy)
