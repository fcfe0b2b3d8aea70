-- ===== src/VenvOperator/Swap.antt =====
-- How `arm_and_swap_venv` of anima/kernel/venv_operator.py ends.
use anima.Systemd.{Stop, stopped, stop_ignored, stop_raises}
use mathlib.Core.Path.{subst}
use anima.Python.{
  ok, raised, Outcome, Exn, try_except, ◌>>◌, raise_if, os_error, other_error, venv_state_error,
  Action, modify, raise, try_except-raised, bind-of-raised, guard-true, bind-of-ok, guard-false,
  gets, try_except-ok, ◌>>=◌,
}
use anima.Prelude.{
  refl, true, none, some, inl, inr, String, ◌≡◌, Bool-cases, ◌⊎◌, ◌||◌, is_none, not, arith, Bool,
  sym, false, ◌∙◌,
}
use anima.VenvOperator.{
  VenvHost, VenvRun, VenvSnapshot, snapshot_of, Place, live_venv, old_venv, candidate_venv, Places,
  put, absent, torn, intact, Write, written, write_fails, write_tears, is_pending, write_state,
  arm_deadman, disarm_deadman, unlink_state, rename, swap_places, give_up, arm_and_swap_venv,
}

module _ {V : Type 0} (run : VenvRun V) (id before after : String) (h : VenvHost V) where
  abbrev snap : VenvSnapshot
  snap = snapshot_of id before after

  -- After the first rename alone: nothing is live.
  abbrev pub half : Places V
  half = put live_venv none (put (old_venv id) (h.places live_venv) h.places)

  -- After both.
  abbrev pub swapped : Places V
  swapped = put (candidate_venv id) none (put live_venv (half (candidate_venv id)) half)

  -- The candidate is live, the former live environment is kept, and the timer that brings it back is
  -- armed and finds its state.
  pub record Swapped (h' : VenvHost V) : Type 0 where
    pub state : h'.state_file ≡ intact snap
    pub armed : h'.armed ≡ some id
    pub places : h'.places ≡ swapped

  -- No environment has moved, or the second rename failed and nothing is live; the timer is as it
  -- was or disarmed, or it finds its state, or could not be stopped before its state was removed.
  pub record NotSwapped (h' : VenvHost V) : Type 0 where
    pub left :
        (h'.places ≡ h.places)
        ⊎ ((h'.places ≡ half)
            × ((run.second_rename_raises ≡ true) ⊎ (h.places (candidate_venv id) ≡ none)))
    pub timer :
        (h'.armed ≡ h.armed)
        ⊎ (h'.armed ≡ none)
        ⊎ ((h'.armed ≡ some id)
            × ((h'.state_file ≡ intact snap)
                ⊎ ((h'.state_file ≡ absent) × (run.disarm ≡ stop_ignored))))

  abbrev pub Ends : Outcome Unit × VenvHost V → Type 0
  Ends result =
      ((result.0 ≡ ok tt) × Swapped result.1)
      ⊎ ((e : Exn) × (result.0 ≡ raised e) × NotSwapped result.1)

  -- The state is on disk and the timer armed.
  abbrev ready : VenvHost V
  ready = record h { state_file = intact snap; armed = some id }

  rename-cases :
      (raises : Bool) (src dest : Place) (g : VenvHost V)
      → ((rename raises src dest g ≡ (raised os_error, g))
          × ((raises || is_none (g.places src) || not (is_none (g.places dest))) ≡ true))
        ⊎ (rename raises src dest g
            ≡ (ok tt, record g { places = put src none (put dest (g.places src) g.places) }))
  unfolding rename
  rename-cases raises src dest g =
      elim (Bool-cases (raises || is_none (g.places src) || not (is_none (g.places dest)))) [
        | inl fails ↦ inl (rw fails refl, fails)
        | inr works ↦ inr (rw works refl)
      ]

  abbrev Left : Places V → Type 0
  Left places =
      (places ≡ h.places)
      ⊎ ((places ≡ half)
          × ((run.second_rename_raises ≡ true) ⊎ (h.places (candidate_venv id) ≡ none)))

  unlinked-Ends :
      (e : Exn) (t : VenvHost V)
      → NotSwapped t
      → NotSwapped (record t { state_file = absent })
      → Ends ((unlink_state run >> raise e) t)
  unlinked-Ends e t stays goes =
      let clear : Action (VenvHost V) Unit = modify (λ g. record g { state_file = absent }) in
      let last : Action (VenvHost V) Unit = raise e in
      let unlink = unlink_state run in
      elim (Bool-cases run.unlink_raises) [
        | inl kept ↦
            subst Ends
              (sym (
                bind-of-raised unlink (λ _. last) {s = t}
                  (guard-true run.unlink_raises os_error clear t kept)))
              (inr (os_error, refl, stays))
        | inr gone ↦
            subst Ends
              (sym (
                bind-of-ok unlink (λ _. last) {s = t}
                  (guard-false run.unlink_raises os_error clear t gone)))
              (inr (e, refl, goes))
      ]

  give_up-Ends :
      (e : Exn) (places : Places V)
      → Left places
      → Ends (give_up run e (record ready { places = places }))
  give_up-Ends e places left = stop run.disarm refl
    where
      t : VenvHost V
      t = record ready { places = places }

      rest : Unit {0} → Action (VenvHost V) Unit
      rest _ = unlink_state run >> raise e

      stop : (how : Stop) → run.disarm ≡ how → Ends (give_up run e t)
      stop stopped is =
          subst Ends
            (sym (
              bind-of-ok (disarm_deadman run) rest {s = t} {s' = record t { armed = none }}
                (rw is refl)))
            (unlinked-Ends e (record t { armed = none })
              (record { left = left; timer = inr (inl refl) })
              (record { left = left; timer = inr (inl refl) }))
      stop stop_ignored is =
          subst Ends (sym (bind-of-ok (disarm_deadman run) rest {s = t} {s' = t} (rw is refl))) (
            unlinked-Ends e t (record { left = left; timer = inr (inr (refl, inl refl)) })
              (record { left = left; timer = inr (inr (refl, inr (refl, is))) }))
      stop stop_raises is =
          subst Ends
            (sym (
              bind-of-raised (disarm_deadman run) rest {s = t} {s' = t} {x = other_error}
                (rw is refl)))
            (inr (other_error, refl, record { left = left; timer = inr (inr (refl, inl refl)) }))

  second_fails :
      (run.second_rename_raises
          || is_none (half (candidate_venv id))
          || not (is_none (half live_venv)))
        ≡ true
      → (run.second_rename_raises ≡ true) ⊎ (h.places (candidate_venv id) ≡ none)
  unfolding put
  second_fails fails = ground (arith, fails)

  rename-Ends : Ends (try_except (swap_places run snap) (give_up run) ready)
  rename-Ends =
      let first = rename run.first_rename_raises live_venv (old_venv id) in
      let second = rename run.second_rename_raises (candidate_venv id) live_venv in
      elim (rename-cases run.first_rename_raises live_venv (old_venv id) ready) [
        | inl (fails, _) ↦
            subst Ends
              (sym (
                try_except-raised (first >> second) (give_up run) {s = ready}
                  (bind-of-raised first (λ _. second) {s = ready} fails)))
              (give_up-Ends os_error h.places (inl refl))
        | inr moved ↦
            let gone = record ready { places = half } in
            elim (rename-cases run.second_rename_raises (candidate_venv id) live_venv gone) [
              | inl (fails, why) ↦
                  subst Ends
                    (sym (
                      try_except-raised (first >> second) (give_up run) {s = ready} {s' = gone}
                        (bind-of-ok first (λ _. second) {s = ready} {s' = gone} moved ∙ fails)))
                    (give_up-Ends os_error half (inr (refl, second_fails why)))
              | inr done ↦
                  subst Ends
                    (sym (
                      try_except-ok (first >> second) (give_up run) {s = ready}
                        (bind-of-ok first (λ _. second) {s = ready} {s' = gone} moved ∙ done)))
                    (inl (refl, record { state = refl; armed = refl; places = refl }))
            ]
      ]

  abbrev kept : (g : VenvHost V) → g.places ≡ h.places → g.armed ≡ h.armed → NotSwapped g
  kept g same timer = record { left = inl same; timer = inl timer }

  abbrev try_swap : Action (VenvHost V) Unit
  try_swap = try_except (swap_places run snap) (give_up run)

  abbrev after_arm : Action (VenvHost V) Unit
  after_arm = raise_if run.old_dir_raises os_error >> try_swap

  abbrev on_disk : VenvHost V
  on_disk = record h { state_file = intact snap }

  unarmed-Ends : Ends ((arm_deadman run true id >> after_arm) on_disk)
  unarmed-Ends =
      let clear : Action (VenvHost V) Unit = modify (λ g. record g { state_file = absent }) in
      let unlink = unlink_state run in
      let arm = arm_deadman run true id in
      let last : Action (VenvHost V) Unit = raise other_error in
      elim (Bool-cases run.unlink_raises) [
        | inl stays ↦
            subst Ends
              (sym (
                bind-of-raised arm (λ _. after_arm) {s = on_disk}
                  (bind-of-raised unlink (λ _. last) {s = on_disk}
                    (guard-true run.unlink_raises os_error clear on_disk stays))))
              (inr (os_error, refl, kept _ refl refl))
        | inr gone ↦
            subst Ends
              (sym (
                bind-of-raised arm (λ _. after_arm) {s = on_disk}
                  (bind-of-ok unlink (λ _. last) {s = on_disk}
                    (guard-false run.unlink_raises os_error clear on_disk gone))))
              (inr (other_error, refl, kept (record on_disk { state_file = absent }) refl refl))
      ]

  armed-Ends : (raises : Bool) → Ends ((arm_deadman run raises id >> after_arm) on_disk)
  armed-Ends true = unarmed-Ends
  armed-Ends false = elim (Bool-cases run.old_dir_raises) [
    | inl fails ↦
        subst Ends (sym (guard-true run.old_dir_raises os_error try_swap ready fails))
          (inr (os_error, refl, record { left = inl refl; timer = inr (inr (refl, inl refl)) }))
    | inr fine ↦
        subst Ends (sym (guard-false run.old_dir_raises os_error try_swap ready fine)) rename-Ends
  ]

  write-Ends :
      (write : Write)
      → Ends ((write_state write snap >> (arm_deadman run run.arm_raises id >> after_arm)) h)
  write-Ends written = armed-Ends run.arm_raises
  write-Ends write_fails = inr (os_error, refl, kept h refl refl)
  write-Ends write_tears = inr (os_error, refl, kept (record h { state_file = torn }) refl refl)

  -- A swap that returns has moved exactly this: the candidate is live, the former live environment is
  -- kept as the old one, the state is on disk, and the timer is armed with it. One that raises has
  -- moved no environment, unless the second of the two renames could not be done; its timer is as it
  -- was, or disarmed, or armed with its state on disk, or `systemctl stop` has failed unnoticed, and
  -- the timer is armed with its state removed.
  pub arm_and_swap_venv-Ends : Ends (arm_and_swap_venv run snap h)
  unfolding arm_and_swap_venv
  arm_and_swap_venv-Ends =
      let write = write_state run.write snap >> (arm_deadman run run.arm_raises id >> after_arm) in
      let guarded : Action (VenvHost V) Unit = gets (λ g. is_pending g.state_file) >>= λ pending.
      raise_if pending venv_state_error >> write in
      elim (Bool-cases run.state_dir_raises) [
        | inl fails ↦
            subst Ends (sym (guard-true run.state_dir_raises os_error guarded h fails))
              (inr (os_error, refl, kept h refl refl))
        | inr fine ↦
            subst Ends (sym (guard-false run.state_dir_raises os_error guarded h fine))
              (elim (Bool-cases (is_pending h.state_file)) [
                | inl pending ↦
                    subst Ends
                      (sym (guard-true (is_pending h.state_file) venv_state_error write h pending))
                      (inr (venv_state_error, refl, kept h refl refl))
                | inr free ↦
                    subst Ends
                      (sym (guard-false (is_pending h.state_file) venv_state_error write h free))
                      (write-Ends run.write)
              ])
      ]
