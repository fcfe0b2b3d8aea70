-- ===== src/Operator/UnitTopology/Listed.antt =====
-- The units that a listing names, and the floor closure that anima/kernel/unit_topology.py makes.
use anima.Prelude.{
  refl, true, false, none, some, inl, inr, arith, ℕ, String, Bool, ◌≡◌, ◌&&◌, Bool-cases, str_eq,
  [], ◌∷◌, contains, Option, List, eq_of_str_eq, eq_refl, ◌++◌, sym, ap, ◌∙◌,
}
use mathlib.Core.Path.{subst}
use Prim.Native.Char.{Char, code}
use anima.Operator.UnitTopology.Floor.{
  floor_closure_protects, before_last_dot, bares, bare, floor_closure, contains-append,
  is_floor_protected, floor_unit_seed, is_floor_protected-contains,
}
use anima.Operator.UnitTopology.Listing.{
  add_unit, is_tree_char, is_lower, drop_tree, lower_run, suffix_match, is_unit_char, name_tail,
  match_unit_name, listed_units, strip_tree_prefix, compute_floor_closure,
}

unfoldable pub all_chars : (ℕ → Bool) → String → Bool
all_chars p String.[] = true
all_chars p (String.◌∷◌ c s) = p (code c) && all_chars p s

-- One text after another.
abbrev pub joined : String → String → String
joined String.[] t = t
joined (String.◌∷◌ c s) t = String.◌∷◌ c (joined s t)

-- `<name>.<suffix>`
abbrev pub unit_of : String → String → String
unit_of name suffix = joined name (String.◌∷◌ "." suffix)

lower_run-all : (s : String) → all_chars is_lower s ≡ true → lower_run s ≡ s
unfolding lower_run all_chars
lower_run-all String.[] h = refl
lower_run-all (String.◌∷◌ c s) h = ground (arith, lower_run-all s)

drop_tree-joined :
    (p u : String) → all_chars is_tree_char p ≡ true → drop_tree (joined p u) ≡ drop_tree u
unfolding drop_tree all_chars
drop_tree-joined String.[] u h = refl
drop_tree-joined (String.◌∷◌ c p) u h = elim (Bool-cases (is_tree_char (code c))) [
  | inl e ↦ rw e (drop_tree-joined p u (ground (arith, e, h)))
  | inr e ↦ ground (arith, e, h)
]

strip_tree_prefix-joined :
    (p u : String)
    → all_chars is_tree_char p ≡ true
    → strip_tree_prefix (joined p u) ≡ strip_tree_prefix u
unfolding strip_tree_prefix
strip_tree_prefix-joined p u h = rw (drop_tree-joined p u h) refl

before_last_dot-lower : (s : String) → all_chars is_lower s ≡ true → before_last_dot s ≡ none
unfolding before_last_dot all_chars
before_last_dot-lower String.[] h = refl
before_last_dot-lower (String.◌∷◌ c s) h = ground (arith, before_last_dot-lower s)

before_last_dot-unit :
    (name suffix : String)
    → all_chars is_lower suffix ≡ true
    → before_last_dot (unit_of name suffix) ≡ some name
unfolding before_last_dot
before_last_dot-unit String.[] suffix h = rw (before_last_dot-lower suffix h) refl
before_last_dot-unit (String.◌∷◌ c name) suffix h = rw (before_last_dot-unit name suffix h) refl

module _ (letter : ℕ → Bool) where
  lower-unit_char : (c : ℕ) → is_lower c ≡ true → is_unit_char letter c ≡ true
  unfolding is_unit_char
  lower-unit_char c h = rw h refl

  suffix_match-lower :
      (c : Char) (s : String) → is_lower (code c) ≡ true → suffix_match (String.◌∷◌ c s) ≡ none
  unfolding suffix_match
  suffix_match-lower c s h = ground (arith, h)

  name_tail-lower : (s : String) → all_chars is_lower s ≡ true → name_tail letter s ≡ none
  unfolding name_tail all_chars
  name_tail-lower String.[] h = refl
  name_tail-lower (String.◌∷◌ c s) h = elim (Bool-cases (is_lower (code c))) [
    | inl e ↦
        rw (lower-unit_char (code c) e, name_tail-lower s (ground (arith, e, h)))
          (suffix_match-lower c s e)
    | inr e ↦ ground (arith, e, h)
  ]

  module _ (suffix : String) (lower : all_chars is_lower suffix ≡ true)
      (given : str_eq suffix "" ≡ false) where
    suffix_match-dot : suffix_match (String.◌∷◌ "." suffix) ≡ some (String.◌∷◌ "." suffix)
    unfolding suffix_match
    suffix_match-dot = rw (lower_run-all suffix lower) (rw given refl)

    name_tail-unit :
        (name : String)
        → all_chars (is_unit_char letter) name ≡ true
        → name_tail letter (unit_of name suffix) ≡ some (unit_of name suffix)
    unfolding name_tail all_chars
    name_tail-unit String.[] h = rw (name_tail-lower suffix lower) suffix_match-dot
    name_tail-unit (String.◌∷◌ c name) h = elim (Bool-cases (is_unit_char letter (code c))) [
      | inl e ↦ rw (e, name_tail-unit name (ground (arith, e, h))) refl
      | inr e ↦ ground (arith, e, h)
    ]

    match_unit_name-unit :
        (name : String)
        → str_eq name "" ≡ false
        → all_chars (is_unit_char letter) name ≡ true
        → match_unit_name letter (unit_of name suffix) ≡ some (unit_of name suffix)
    unfolding match_unit_name all_chars
    match_unit_name-unit String.[] named h = ground (arith, named)
    match_unit_name-unit (String.◌∷◌ c name) named h =
        elim (Bool-cases (is_unit_char letter (code c))) [
          | inl e ↦ rw (e, name_tail-unit name (ground (arith, e, h))) refl
          | inr e ↦ ground (arith, e, h)
        ]

  add_unit-contains :
      (o : Option String) (us : List String) (u : String)
      → contains us u ≡ true
      → contains (add_unit letter o us) u ≡ true
  unfolding contains
  add_unit-contains none us u h = h
  add_unit-contains (some x) us u h = ground (arith, h)

  listed_units-contains :
      (lines : List String) (line u : String)
      → contains lines line ≡ true
      → match_unit_name letter (strip_tree_prefix line) ≡ some u
      → contains (listed_units letter lines) u ≡ true
  unfolding listed_units contains
  listed_units-contains [] line u h m = ground (arith, h)
  listed_units-contains (x ∷ lines) line u h m = elim (Bool-cases (str_eq x line)) [
    | inl e ↦ rw (eq_of_str_eq e, m) (simp eq_refl)
    | inr e ↦
        add_unit-contains (match_unit_name letter (strip_tree_prefix x)) (listed_units letter lines)
          u (listed_units-contains lines line u (ground (arith, e, h)) m)
  ]

contains-first : (b : String) (ys : List String) → contains (b ∷ ys) b ≡ true
unfolding contains
contains-first b ys = simp eq_refl

contains-bares :
    (us : List String) (u b : String)
    → contains us u ≡ true
    → bare u ≡ b ∷ []
    → contains (bares us) b ≡ true
unfolding bares contains
contains-bares [] u b h e = ground (arith, h)
contains-bares (x ∷ us) u b h e = elim (Bool-cases (str_eq x u)) [
  | inl is ↦
      subst (λ l. contains (l ++ bares us) b ≡ true) (sym (ap bare (eq_of_str_eq is) ∙ e))
        (contains-first b (bares us))
  | inr other ↦ ground (
    arith,
    contains-append (bare x) (bares us) b,
    contains-bares us u b (ground (arith, other, h)) e,
  )
]

bare-unit :
    (name suffix : String)
    → str_eq name "" ≡ false
    → all_chars is_lower suffix ≡ true
    → bare (unit_of name suffix) ≡ name ∷ []
unfolding bare
bare-unit name suffix named lower = rw (before_last_dot-unit name suffix lower) (rw named refl)

contains-second :
    (xs ys : List String) (u : String) → contains ys u ≡ true → contains (xs ++ ys) u ≡ true
contains-second xs ys u h = ground (arith, contains-append xs ys u)

contains-third :
    (seed units more last : List String) (u : String)
    → contains more u ≡ true
    → contains (seed ++ units ++ more ++ last) u ≡ true
contains-third seed units more last u h =
    ground (
      arith,
      contains-append (seed ++ units) more u,
      contains-append (seed ++ units ++ more) last u,
    )

floor_closure-listed :
    (units : List String) (u : String)
    → contains units u ≡ true
    → is_floor_protected u (floor_closure units) ≡ true
floor_closure-listed units u h =
    floor_closure_protects units u (contains-second floor_unit_seed units u h)

floor_closure-bare :
    (units : List String) (b : String)
    → contains (bares units) b ≡ true
    → is_floor_protected b (floor_closure units) ≡ true
unfolding floor_closure
floor_closure-bare units b h = is_floor_protected-contains b (floor_closure units) (
    contains-third floor_unit_seed units (bares units)
      (bares (floor_unit_seed ++ units ++ bares units)) b h)

module _ (letter : ℕ → Bool) where
  -- Whatever else the listing holds: a line that consists of tree characters and white space and
  -- of a unit's name and suffix protects the unit, with and without its suffix. The name is of the
  -- characters of a unit's name and the suffix of small letters, neither is empty, and the name
  -- does not itself begin with a character that belongs to the tree.
  pub listed_unit_is_protected :
      (lines : List String) (tree name suffix : String)
      → contains lines (joined tree (unit_of name suffix)) ≡ true
      → all_chars is_tree_char tree ≡ true
      → all_chars (is_unit_char letter) name ≡ true
      → str_eq name "" ≡ false
      → all_chars is_lower suffix ≡ true
      → str_eq suffix "" ≡ false
      → strip_tree_prefix (unit_of name suffix) ≡ unit_of name suffix
      → (is_floor_protected (unit_of name suffix) (compute_floor_closure letter lines) ≡ true)
        × (is_floor_protected name (compute_floor_closure letter lines) ≡ true)
  unfolding compute_floor_closure
  listed_unit_is_protected lines tree name suffix listed drawn unit named lower given bare_line =
      let found =
        listed_units-contains letter lines (joined tree (unit_of name suffix)) (unit_of name suffix)
          listed
          (ap (match_unit_name letter)
              (strip_tree_prefix-joined tree (unit_of name suffix) drawn ∙ bare_line)
            ∙ match_unit_name-unit letter suffix lower given name named unit) in
      (
        floor_closure-listed (listed_units letter lines) (unit_of name suffix) found,
        floor_closure-bare (listed_units letter lines) name (
            contains-bares (listed_units letter lines) (unit_of name suffix) name found
              (bare-unit name suffix named lower)),
      )
