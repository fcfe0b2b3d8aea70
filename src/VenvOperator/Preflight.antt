-- ===== src/VenvOperator/Preflight.antt =====
-- What `preflight_venv` of anima/kernel/venv_operator.py does to the host, and what it has proven.
use mathlib.Core.Path.{subst}
use anima.Python.{
  ok, Exn, Action, os_error, bind-Keeps, bind-ok, ◌>>◌, raised, raise_if, Outcome, try_except,
  ◌>>=◌, pure, venv_preflight_error, Outcome-cases, bind-of-ok, guard-true, try_except-ok,
  guard-false, bind-of-raised, try_except-raised,
}
use anima.Prelude.{
  [], ◌∷◌, refl, false, none, some, ◌≡◌, Option, List, String, sym, ap, ◌∙◌, inl, inr, arith, not,
  ◌⊎◌, Bool-cases, ◌==◌, eq_refl,
}
use anima.VenvOperator.{
  VenvHost, VenvRun, VenvSnapshot, VenvDepSpec, snapshot_of, Place, candidate_venv, put, place_eq,
  Command, exited, not_run, prove, install_deps, build_candidate, clean_up, or_raise,
  preflight_venv,
}

module _ {V : Type 0} (run : VenvRun V) where
  abbrev candidate : Place
  candidate = candidate_venv run.state_id

  -- Nothing but the candidate has changed.
  pub record Staged (h h' : VenvHost V) : Type 0 where
    pub elsewhere : (q : Place) → place_eq candidate q ≡ false → h'.places q ≡ h.places q
    pub state_file : h'.state_file ≡ h.state_file
    pub armed : h'.armed ≡ h.armed
    pub ledger : h'.ledger ≡ h.ledger

  Staged-refl : (h : VenvHost V) → Staged h h
  Staged-refl h = record {
    elsewhere = λ q other. refl;
    state_file = refl;
    armed = refl;
    ledger = refl;
  }

  Staged-set :
      (v : Option V) (h g : VenvHost V)
      → Staged h g
      → Staged h (record g { places = put candidate v g.places })
  unfolding put
  Staged-set v h g s = record {
    elsewhere = λ q other. rw other (s.elsewhere q other);
    state_file = s.state_file;
    armed = s.armed;
    ledger = s.ledger;
  }

  prove-Staged :
      (command : Command V) (h g : VenvHost V) → Staged h g → Staged h (prove candidate command g).1
  prove-Staged not_run h g s = s
  prove-Staged (exited code v) h g s = Staged-set (some v) h g s

  install-Staged :
      (requirements : List String) (h g : VenvHost V)
      → Staged h g
      → Staged h (install_deps candidate requirements run.install g).1
  install-Staged [] h g s = s
  install-Staged (r ∷ requirements) h g s = prove-Staged run.install h g s

  or_raise-Staged :
      (hash : Option String) (e : Exn) (h g : VenvHost V)
      → Staged h g
      → Staged h (or_raise hash e g).1
  or_raise-Staged none e h g s = s
  or_raise-Staged (some hash) e h g s = s

  build-Staged :
      (requirements : List String) (h g : VenvHost V)
      → Staged h g
      → Staged h (build_candidate run requirements g).1
  unfolding build_candidate
  build-Staged requirements h g s =
      let keep = Staged h in
      let create = prove candidate run.create in
      let install = install_deps candidate requirements run.install in
      let imports = prove candidate run.check_import in
      let smoke = prove candidate run.smoke in
      let hash : Action (VenvHost V) String = or_raise run.frozen_after os_error in
      bind-Keeps keep create (λ _. install >> (imports >> (smoke >> hash))) g
        (prove-Staged run.create h g s)
        (λ _ a sa.
          bind-Keeps keep install (λ _. imports >> (smoke >> hash)) a
            (install-Staged requirements h a sa)
            (λ _ b sb.
              bind-Keeps keep imports (λ _. smoke >> hash) b (prove-Staged run.check_import h b sb)
                (λ _ c sc.
                  bind-Keeps keep smoke (λ _. hash) c (prove-Staged run.smoke h c sc)
                    (λ _ d sd. or_raise-Staged run.frozen_after os_error h d sd))))

  -- The candidate imports the application, and passed the smoke tests as it stands.
  pub record Proven (h' : VenvHost V) : Type 0 where
    pub imported : V
    pub imports : run.check_import ≡ exited 0 imported
    pub tested : V
    pub passes : run.smoke ≡ exited 0 tested
    pub stands : h'.places candidate ≡ some tested

  prove-ok :
      (command : Command V) (g g' : VenvHost V)
      → prove candidate command g ≡ (ok tt, g')
      → (v : V) × (command ≡ exited 0 v) × (g'.places candidate ≡ some v)
  unfolding put
  prove-ok not_run g g' e = cc
  prove-ok (exited code v) g g' e =
      let status : raise_if (not (code == 0)) venv_preflight_error g ≡ (ok tt, g) =
        ap (λ o. (o, g)) (ap (λ r. r.0) e) in
      let zero_code : code ≡ 0 = ground (arith, status) in
      (
        v,
        ap (λ c. exited c v) zero_code,
        sym (ap (λ r. r.1.places candidate) e) ∙ rw (eq_refl run.state_id) refl,
      )

  or_raise-ok :
      (hash : Option String) (e : Exn) (g g' : VenvHost V) (found : String)
      → or_raise hash e g ≡ (ok found, g')
      → g' ≡ g
  or_raise-ok none e g g' found h = cc
  or_raise-ok (some hash) e g g' found h = sym (ap (λ r. r.1) h)

  build-Proven :
      (requirements : List String) (g g' : VenvHost V) (hash : String)
      → build_candidate run requirements g ≡ (ok hash, g')
      → Proven g'
  unfolding build_candidate
  build-Proven requirements g g' hash e =
      let create = prove candidate run.create in
      let install = install_deps candidate requirements run.install in
      let imports = prove candidate run.check_import in
      let smoke = prove candidate run.smoke in
      let freeze : Action (VenvHost V) String = or_raise run.frozen_after os_error in
      let (_, a, _, e1) = bind-ok create (λ _. install >> (imports >> (smoke >> freeze))) g e in
      let (_, b, _, e2) = bind-ok install (λ _. imports >> (smoke >> freeze)) a e1 in
      let (_, c, imported, e3) = bind-ok imports (λ _. smoke >> freeze) b e2 in
      let (_, d, tested, e4) = bind-ok smoke (λ _. freeze) c e3 in
      let (v, is_import, _) = prove-ok run.check_import b c imported in
      let (w, is_smoke, stands) = prove-ok run.smoke c d tested in
      record {
        imported = v;
        imports = is_import;
        tested = w;
        passes = is_smoke;
        stands =
            ap (λ k. k.places candidate) (or_raise-ok run.frozen_after os_error d g' hash e4)
            ∙ stands;
      }

  -- How the preflight ends.
  abbrev pub Proves : VenvDepSpec → VenvHost V → Outcome VenvSnapshot × VenvHost V → Type 0
  Proves dep_spec h result =
      ((before after : String) × (result.0 ≡ ok (snapshot_of run.state_id before after))
        × Proven result.1)
      ⊎ ((result.0 ≡ raised venv_preflight_error)
          × (result.1.places candidate ≡ run.candidate_left))
      ⊎ ((result.0 ≡ raised os_error) × (result.1 ≡ h))

  build-Ends :
      (dep_spec : VenvDepSpec) (before : String) (h : VenvHost V)
      → let result =
          (try_except (build_candidate run dep_spec.requirements) (clean_up run) >>= λ after.
          pure (snapshot_of run.state_id before after))
            h in
        Proves dep_spec h result × Staged h result.1
  unfolding put
  build-Ends dep_spec before h =
      let build = build_candidate run dep_spec.requirements in
      let body = try_except build (clean_up run) in
      let close : String → Action (VenvHost V) VenvSnapshot =
        λ after. pure (snapshot_of run.state_id before after) in
      let g = (build h).1 in
      let staged : Staged h g = build-Staged dep_spec.requirements h h (Staged-refl h) in
      elim (Outcome-cases (build h).0) [
        | inl (after, built) ↦
            let ran : build h ≡ (ok after, g) = ap (λ o. (o, g)) built in
            subst (λ r. Proves dep_spec h r × Staged h r.1)
              (sym (
                bind-of-ok body close {s = h} {s' = g}
                  (try_except-ok build (clean_up run) {s = h} {s' = g} ran)))
              (inl (before, after, refl, build-Proven dep_spec.requirements h g after ran), staged)
        | inr (e, failed) ↦
            let ran : build h ≡ (raised e, g) = ap (λ o. (o, g)) failed in
            subst (λ r. Proves dep_spec h r × Staged h r.1)
              (sym (
                bind-of-raised body close {s = h}
                  (try_except-raised build (clean_up run) {s = h} {s' = g} ran)))
              (
                inr (inl (refl, rw (eq_refl run.state_id) refl)),
                Staged-set run.candidate_left h g staged,
              )
      ]

  -- However the preflight ends, nothing but the candidate has changed: the live environment, the old
  -- ones, the state file and the timer are as they were. One that returns has a candidate that imports
  -- the application and passed the smoke tests as it stands; one that raises has left nothing of the
  -- candidate but what could not be removed, or has not begun.
  pub preflight_venv_is_isolated :
      (dep_spec : VenvDepSpec) (h : VenvHost V)
      → let result = preflight_venv run dep_spec h in Proves dep_spec h result × Staged h result.1
  unfolding preflight_venv
  preflight_venv_is_isolated dep_spec h = frozen run.frozen_before
    where
      frozen :
          (found : Option String)
          → let result =
              (or_raise found os_error >>= λ before.
              raise_if run.staging_raises os_error
              >> (try_except (build_candidate run dep_spec.requirements) (clean_up run) >>= λ after.
                  pure (snapshot_of run.state_id before after)))
                h in
            Proves dep_spec h result × Staged h result.1
      frozen none = (inr (inr (refl, refl)), Staged-refl h)
      frozen (some before) =
          let rest : Action (VenvHost V) VenvSnapshot =
            try_except (build_candidate run dep_spec.requirements) (clean_up run) >>= λ after.
            pure (snapshot_of run.state_id before after) in
          elim (Bool-cases run.staging_raises) [
            | inl fails ↦
                subst (λ r. Proves dep_spec h r × Staged h r.1)
                  (sym (guard-true run.staging_raises os_error rest h fails))
                  (inr (inr (refl, refl)), Staged-refl h)
            | inr fine ↦
                subst (λ r. Proves dep_spec h r × Staged h r.1)
                  (sym (guard-false run.staging_raises os_error rest h fine))
                  (build-Ends dep_spec before h)
          ]
