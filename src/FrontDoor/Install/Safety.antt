-- ===== src/FrontDoor/Install/Safety.antt =====
-- How `install_with_deadman` of anima/kernel/frontdoor.py can end.
use anima.Python.{
  ok, raised, ◌>>◌, Action, Exn, Outcome-cases, bind-ok, Outcome, other_error, raise,
  front_door_install_error, try_except,
}
use anima.Prelude.{refl, none, some, inl, inr, arith, String, ◌≡◌, ◌≢◌, ℕ, ap, sym, ◌∙◌}
use anima.FrontDoor.Install.{
  FrontDoorArch, DeadmanSystemd, IsFrontDoorHost, deadman_unit, revert_command, try_install, abort,
  install_with_deadman, String, Action, Exn, ℕ, raise, front_door_install_error, try_except,
}

module _ {W : Type 0} (arch : FrontDoorArch W) (sd : DeadmanSystemd W) where
  module _ (law : IsFrontDoorHost arch sd) where
    -- Disarming and restoring, then the error.
    abbrev undo : String → Action W Unit
    undo snap = do sd.disarm deadman_unit; arch.restore snap; raise front_door_install_error

    abbrev after_disarm : W → W
    after_disarm w = (sd.disarm deadman_unit w).1

    abbrev after_install : String → W → W
    after_install c w = (arch.install c w).1

    abbrev after_validate : String → W → W
    after_validate c w = (arch.validate (after_install c w)).1

    undo-config :
        (s : String) (w w' : W)
        → undo s w ≡ (raised front_door_install_error, w')
        → law.config w' ≡ law.saved w s
    undo-config s w w' h = ground (
      arith,
      law.own_error w "" s 0,
      law.own_error (after_disarm w) "" s 0,
      law.disarm_keeps w s,
      law.restore_ok (after_disarm w) w' s,
    )

    undo-saved : (s t : String) (w : W) → law.saved (undo s w).1 t ≡ law.saved w t
    undo-saved s t w = ground (arith, law.disarm_keeps w t, law.restore_keeps (after_disarm w) s t)

    undo-not_ok : (s : String) (w w' : W) → undo s w ≢ (ok tt, w')
    undo-not_ok s w w' h = ground arith

    try_install-saved :
        (c s t : String) (w : W) → law.saved (try_install arch sd c s w).1 t ≡ law.saved w t
    try_install-saved c s t w = ground (
      arith,
      law.install_keeps w c t,
      law.validate_keeps (after_install c w) t,
      law.reload_keeps (after_validate c w) t,
      undo-saved s t (after_validate c w),
    )

    try_install-ok :
        (c s : String) (w w' : W)
        → try_install arch sd c s w ≡ (ok tt, w')
        → law.armed w' ≡ law.armed w
    try_install-ok c s w w' h = ground (
      arith,
      law.install_keeps w c s,
      law.validate_keeps (after_install c w) s,
      law.reload_keeps (after_validate c w) s,
      undo-not_ok s (after_validate c w) w',
    )

    try_install-error :
        (c s : String) (w w' : W)
        → try_install arch sd c s w ≡ (raised front_door_install_error, w')
        → law.config w' ≡ law.saved w s
    try_install-error c s w w' h = ground (
      arith,
      law.own_error w c s 0,
      law.own_error (after_install c w) c s 0,
      law.own_error (after_validate c w) c s 0,
      law.install_keeps w c s,
      law.validate_keeps (after_install c w) s,
      undo-config s (after_validate c w) w',
    )

    abort-error :
        (s : String) (e : Exn) (t w' : W) (before : law.Config)
        → (e ≡ front_door_install_error → law.config t ≡ before)
        → law.saved t s ≡ before
        → abort arch sd s e t ≡ (raised front_door_install_error, w')
        → law.config w' ≡ before
    abort-error s front_door_install_error t w' before own kept h =
        ap law.config (sym (ap (λ x. x.1) h)) ∙ own refl
    abort-error s e t w' before own kept h = undo-config s t w' h ∙ kept

    abort-not_ok : (s : String) (e : Exn) (w w' : W) → abort arch sd s e w ≢ (ok tt, w')
    abort-not_ok s e w w' h = ground arith

    -- The last statement of the function.
    abbrev guarded : String → String → Action W Unit
    guarded c snap = try_except (try_install arch sd c snap) (abort arch sd snap)

    guarded-ok :
        (c s : String) (w w' : W)
        → guarded c s w ≡ (ok tt, w')
        → (law.armed w' ≡ law.armed w) × (law.saved w' s ≡ law.saved w s)
    guarded-ok c s w w' h = elim (Outcome-cases (try_install arch sd c s w).0) [
      | inl (u, e) ↦
          let ran : try_install arch sd c s w ≡ (ok tt, w') = ground (arith, e, h) in
          (
            try_install-ok c s w w' ran,
            sym (ap (λ x. law.saved x.1 s) ran) ∙ try_install-saved c s s w,
          )
      | inr (x, e) ↦
          absurd (abort-not_ok s x (try_install arch sd c s w).1 w' (ground (arith, e, h)))
    ]

    guarded-error :
        (c s : String) (w w' : W)
        → guarded c s w ≡ (raised front_door_install_error, w')
        → law.config w' ≡ law.saved w s
    guarded-error c s w w' h = elim (Outcome-cases (try_install arch sd c s w).0) [
      | inl (u, e) ↦ ground (arith, e, h)
      | inr (x, e) ↦
          let t = (try_install arch sd c s w).1 in
          abort-error s x t w' (law.saved w s)
            (λ own. try_install-error c s w t (ap (λ y. (y, t)) (e ∙ ap raised own)))
            (try_install-saved c s s w) (ground (arith, e, h))
    ]

    install-ok :
        (c : String) (n : ℕ) (w w' : W)
        → install_with_deadman arch sd c n w ≡ (ok tt, w')
        → (snap : String) × (law.armed w' ≡ some (revert_command snap))
          × (law.saved w' snap ≡ law.config w)
    unfolding install_with_deadman
    install-ok c n w w' h =
        let (snap, w1, taken, rest) =
          bind-ok arch.snapshot (λ s. sd.arm deadman_unit n (revert_command s) >> guarded c s) w
            h in
        let (u, w2, armed, last) =
          bind-ok (sd.arm deadman_unit n (revert_command snap)) (λ _. guarded c snap) w1 rest in
        let (same_armed, same_saved) = guarded-ok c snap w2 w' last in
        let (now_armed, _, kept) = law.arm_ok w1 w2 n (revert_command snap) armed in
        (snap, same_armed ∙ now_armed, same_saved ∙ kept snap ∙ (law.snapshot_ok w w1 snap taken).1)

    install-error :
        (c : String) (n : ℕ) (w w' : W)
        → install_with_deadman arch sd c n w ≡ (raised front_door_install_error, w')
        → law.config w' ≡ law.config w
    unfolding install_with_deadman
    install-error c n w w' h = elim (Outcome-cases (arch.snapshot w).0) [
      | inr (x, e) ↦ ground (arith, e, h, law.own_error w "" "" n)
      | inl (snap, e) ↦
          let w1 = (arch.snapshot w).1 in
          let cmd = revert_command snap in
          elim (Outcome-cases (sd.arm deadman_unit n cmd w1).0) [
            | inr (x, f) ↦ ground (arith, e, f, h, law.own_error w1 cmd "" n)
            | inl (u, f) ↦
                let w2 = (sd.arm deadman_unit n cmd w1).1 in
                guarded-error c snap w2 w' (ground (arith, e, f, h))
                ∙ (law.arm_ok w1 w2 n cmd (ap (λ y. (y, w2)) f)).2 snap
                ∙ (law.snapshot_ok w w1 snap (ap (λ y. (y, w1)) e)).1
          ]
    ]

    -- However `install_with_deadman` ends: if it returns, the revert timer is armed with the command
    -- that restores a snapshot of the configuration that was there before; if it raises
    -- `FrontDoorInstallError`, that configuration is in place again.
    pub install_with_deadman_is_safe :
        (c : String) (n : ℕ) (w w' : W) (r : Outcome Unit)
        → install_with_deadman arch sd c n w ≡ (r, w')
        → (r ≡ ok tt
            → (snap : String) × (law.armed w' ≡ some (revert_command snap))
              × (law.saved w' snap ≡ law.config w))
          × (r ≡ raised front_door_install_error → law.config w' ≡ law.config w)
    install_with_deadman_is_safe c n w w' r h = (
      λ e. install-ok c n w w' (h ∙ ap (λ x. (x, w')) e),
      λ e. install-error c n w w' (h ∙ ap (λ x. (x, w')) e),
    )

  -- When the other calls work but the installation fails and so does every restoration, the call
  -- raises with no revert armed: the `except` clause stops the timer before it restores.
  pub failed_restore_stays :
      (law : IsFrontDoorHost arch sd) (c : String) (n : ℕ) (w : W)
      → ((v : W) (s : String) → (x : Exn) × ((arch.restore s v).0 ≡ raised x))
      → ((v : W) → (sd.disarm deadman_unit v).0 ≡ ok tt)
      → ((v : W) → (s : String) × ((arch.snapshot v).0 ≡ ok s))
      → ((v : W) (cmd : String) → (sd.arm deadman_unit n cmd v).0 ≡ ok tt)
      → ((v : W) → (arch.install c v).0 ≡ raised other_error)
      → (x : Exn) × ((install_with_deadman arch sd c n w).0 ≡ raised x)
        × (law.armed (install_with_deadman arch sd c n w).1 ≡ none)
  unfolding install_with_deadman
  failed_restore_stays law c n w restore_fails stops taken arms fails =
      let (snap, s) = taken w in
      let w1 = (arch.snapshot w).1 in
      let cmd = revert_command snap in
      let w2 = (sd.arm deadman_unit n cmd w1).1 in
      let w3 = (arch.install c w2).1 in
      let w4 = (sd.disarm deadman_unit w3).1 in
      let (x, r) = restore_fails w4 snap in
      (
        x,
        ground (arith, s, arms w1 cmd, fails w2, stops w3, r),
        ground (
          arith,
          s,
          arms w1 cmd,
          fails w2,
          stops w3,
          r,
          law.disarm_ok w3 w4 (ap (λ y. (y, w4)) (stops w3)),
          law.restore_keeps w4 snap "",
        ),
      )
