-- ===== src/Python.antt =====
-- The part of Python that the modelled code rests on: statements that change a state and may raise.
-- What was written before a raise stays written, so the state comes back beside an exception too.
use mathlib.Core.Path.{subst}
use anima.Prelude.{ap, Bool, true, false, ◌≡◌, refl, if◌then◌else◌, ◌⊎◌, inl, inr, sym, ◌∙◌, arith}

-- The exception classes that the modelled code raises or meets; `other_error` is any other class.
pub data Exn : Type 0 where
  operator_error service_operator_refusal file_operator_refusal : Exn
  unit_topology_error unit_topology_refusal : Exn
  front_door_install_error reversible_apply_error sandbox_error : Exn
  self_reload_refusal self_reload_preflight_error self_reload_state_error : Exn
  pam_refusal pam_install_error quota_exceeded value_error permission_error not_implemented : Exn
  owned_resource_refusal venv_preflight_error venv_state_error : Exn
  unit_topology_unsupported file_not_found timeout_expired signature_error key_error type_error
        os_error other_error :
      Exn

pub data Outcome (A : Type 0) : Type 0 where
  ok : A → Outcome A
  raised : Exn → Outcome A

abbrev pub Action : Type 0 → Type 0 → Type 0
Action S A = S → Outcome A × S

module _ {S A : Type 0} where
  abbrev pub pure : A → Action S A
  pure a s = (ok a, s)

  abbrev pub raise : Exn → Action S A
  raise e s = (raised e, s)

  abbrev pub gets : (S → A) → Action S A
  gets f s = (ok (f s), s)

  -- `try: body  except Exception: handler`
  abbrev pub try_except : Action S A → (Exn → Action S A) → Action S A
  try_except body handler s =
      let (r, s') = body s in elim r [ ok a ↦ (ok a, s') | raised e ↦ handler e s' ]

abbrev pub modify : {S : Type 0} → (S → S) → Action S Unit
modify f s = (ok tt, f s)

infixl 5 ◌>>=◌ ◌>>◌
abbrev pub ◌>>=◌ : {S A B : Type 0} → Action S A → (A → Action S B) → Action S B
◌>>=◌ m f s = let (r, s') = m s in elim r [ ok a ↦ f a s' | raised e ↦ (raised e, s') ]

abbrev pub ◌>>◌ : {S A B : Type 0} → Action S A → Action S B → Action S B
m >> k = m >>= λ _. k

-- `if c: raise e`
abbrev pub raise_if : {S : Type 0} → Bool → Exn → Action S Unit
raise_if c e s = (if c then raised e else ok tt, s)

-- How a call ended, with its equation kept.
pub Outcome-cases :
    {A : Type 0} (r : Outcome A) → ((a : A) × (r ≡ ok a)) ⊎ ((e : Exn) × (r ≡ raised e))
Outcome-cases (ok a) = inl (a, refl)
Outcome-cases (raised e) = inr (e, refl)

module _ {S A B : Type 0} where
  bind_of : Outcome A × S → (A → Action S B) → Outcome B × S
  bind_of (ok a, s) f = f a s
  bind_of (raised e, s) f = (raised e, s)

  bind_of-ok :
      (o : Outcome A × S) (f : A → Action S B) {b : B} {s' : S}
      → bind_of o f ≡ (ok b, s')
      → (a : A) × (t : S) × (o ≡ (ok a, t)) × (f a t ≡ (ok b, s'))
  unfolding bind_of
  bind_of-ok (ok a, t) f h = (a, t, refl, h)
  bind_of-ok (raised e, t) f h = cc

  bind-eq-bind_of :
      (o : Outcome A × S) (f : A → Action S B)
      → (elim o.0 as (λ _. Outcome B × S) [ ok a ↦ f a o.1 | raised e ↦ (raised e, o.1) ])
        ≡ bind_of o f
  unfolding bind_of
  bind-eq-bind_of (ok a, t) f = refl
  bind-eq-bind_of (raised e, t) f = refl

  -- Inversion of a sequence that returned.
  pub bind-ok :
      (m : Action S A) (f : A → Action S B) (s : S) {b : B} {s' : S}
      → (m >>= f) s ≡ (ok b, s')
      → (a : A) × (t : S) × (m s ≡ (ok a, t)) × (f a t ≡ (ok b, s'))
  bind-ok m f s h = bind_of-ok (m s) f (sym (bind-eq-bind_of (m s) f) ∙ h)

  bind_of-Keeps :
      (R : S → Type 0) (o : Outcome A × S) (f : A → Action S B)
      → R o.1
      → ((a : A) (t : S) → R t → R (f a t).1)
      → R (bind_of o f).1
  unfolding bind_of
  bind_of-Keeps R (ok a, t) f h k = k a t h
  bind_of-Keeps R (raised e, t) f h k = h

  -- What both statements keep, the sequence keeps, however it ends.
  pub bind-Keeps :
      (R : S → Type 0) (m : Action S A) (f : A → Action S B) (s : S)
      → R (m s).1
      → ((a : A) (t : S) → R t → R (f a t).1)
      → R ((m >>= f) s).1
  bind-Keeps R m f s h k =
      subst (λ r. R r.1) (sym (bind-eq-bind_of (m s) f)) (bind_of-Keeps R (m s) f h k)

  pub map-Keeps :
      (R : S → Type 0) (m : Action S A) (f : A → B) (s : S)
      → R (m s).1
      → R ((m >>= λ a. pure (f a)) s).1
  map-Keeps R m f s h = bind-Keeps R m (λ a. pure (f a)) s h (λ a t k. k)

  -- A call whose result is only repackaged raises what the call raised.
  pub map-raised :
      (m : Action S A) (f : A → B) (s s' : S) (e : Exn)
      → (m >>= λ a. pure (f a)) s ≡ (raised e, s')
      → m s ≡ (raised e, s')
  map-raised m f s s' e h = ground arith

  pub map-ok :
      (m : Action S A) (f : A → B) (s s' : S) (b : B)
      → (m >>= λ a. pure (f a)) s ≡ (ok b, s')
      → (a : A) × (m s ≡ (ok a, s')) × (b ≡ f a)
  map-ok m f s s' b h =
      let (a, t, ran, done) = bind-ok m (λ a. pure (f a)) s h in
      (a, ground (arith, done), ground (arith, done))

  -- How a sequence goes on, by how its first statement ended.
  pub bind-of-ok :
      (m : Action S A) (f : A → Action S B) {s s' : S} {a : A}
      → m s ≡ (ok a, s')
      → (m >>= f) s ≡ f a s'
  bind-of-ok m f e =
      ap (λ r. elim r.0 as (λ _. Outcome B × S) [ ok a ↦ f a r.1 | raised x ↦ (raised x, r.1) ]) e

  pub bind-of-raised :
      (m : Action S A) (f : A → Action S B) {s s' : S} {x : Exn}
      → m s ≡ (raised x, s')
      → (m >>= f) s ≡ (raised x, s')
  bind-of-raised m f e =
      ap (λ r. elim r.0 as (λ _. Outcome B × S) [ ok a ↦ f a r.1 | raised x ↦ (raised x, r.1) ]) e

module _ {S A : Type 0} where
  pub try_except-ok :
      (body : Action S A) (handler : Exn → Action S A) {s s' : S} {a : A}
      → body s ≡ (ok a, s')
      → try_except body handler s ≡ (ok a, s')
  try_except-ok body handler e =
      ap (λ r. elim r.0 as (λ _. Outcome A × S) [ ok a ↦ (ok a, r.1) | raised x ↦ handler x r.1 ]) e

  pub try_except-raised :
      (body : Action S A) (handler : Exn → Action S A) {s s' : S} {x : Exn}
      → body s ≡ (raised x, s')
      → try_except body handler s ≡ handler x s'
  try_except-raised body handler e =
      ap (λ r. elim r.0 as (λ _. Outcome A × S) [ ok a ↦ (ok a, r.1) | raised x ↦ handler x r.1 ]) e

  -- A body that comes to another one.
  pub try_except-step :
      (body body' : Action S A) (handler : Exn → Action S A) {s s' : S}
      → body s ≡ body' s'
      → try_except body handler s ≡ try_except body' handler s'
  try_except-step body body' handler e =
      ap (λ r. elim r.0 as (λ _. Outcome A × S) [ ok a ↦ (ok a, r.1) | raised x ↦ handler x r.1 ]) e

module _ {S A : Type 0} where
  -- `if c: raise e`, and what follows it.
  pub guard-true :
      (c : Bool) (e : Exn) (k : Action S A) (s : S)
      → c ≡ true
      → (raise_if c e >> k) s ≡ (raised e, s)
  guard-true c e k s h = rw h refl

  pub guard-false :
      (c : Bool) (e : Exn) (k : Action S A) (s : S) → c ≡ false → (raise_if c e >> k) s ≡ k s
  guard-false c e k s h = rw h refl
