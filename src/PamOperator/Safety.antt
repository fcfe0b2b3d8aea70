-- ===== src/PamOperator/Safety.antt =====
-- What `install_pam_edit_with_deadman` of anima/kernel/pam_operator.py leaves, however it ends.
use anima.Systemd.{stop_ignored}
use mathlib.Core.Path.{subst}
use anima.Python.{ok, raised, Exn, pam_install_error, Outcome}
use anima.Prelude.{
  ℕ, String, List, [], false, some, ◌≡◌, str_eq, or_default, ◌⊎◌, ◌≢◌, refl, inl, inr, arith, ◌∙◌,
  none, sym, ap,
}
use anima.PamOperator.{
  written, PamHost, PamRun, install_pam_edit_with_deadman, is_protected, put, exited, str_eq,
  or_default, Exn, pam_install_error,
}
use anima.PamOperator.Install.{
  SameFiles, command_of, ready, returned, InstallEnds, install-Ends, Undone-SameFiles, saved,
}

-- The edit is in place, its backup too, and the timer that undoes it is armed.
pub record Installed (target : String → String) (run : PamRun) (pam_file : String)
    (new_content : List ℕ) (h h' : PamHost) : Type 0 where
  pub not_protected : is_protected pam_file ≡ false
  pub probed : run.ssh ≡ exited 0
  pub edited : h'.files ≡ put (target pam_file) (some new_content) h.files
  pub backup : h'.backups run.snapshot_id ≡ some (or_default (h.files (target pam_file)) [])
  pub armed : h'.armed ≡ some (record { snapshot_id = run.snapshot_id; pam_file = pam_file })

-- An error of the install beside `PamInstallError`: no other file is changed, and this one only if
-- the timer that restores it is armed or a restore has failed.
pub record Failed (target : String → String) (run : PamRun) (pam_file : String) (h h' : PamHost)
    : Type 0 where
  pub elsewhere : (q : String) → str_eq q (target pam_file) ≡ false → h'.files q ≡ h.files q
  pub covered :
      SameFiles h h'
      ⊎ (h'.armed ≡ some (command_of run pam_file))
      ⊎ (run.first_restore ≢ written)
      ⊎ (run.second_restore ≢ written)

module _ (target : String → String) (run : PamRun) (pam_file : String) (new_content : List ℕ)
    (h : PamHost) where
  -- An install that returns gives the snapshot, the name of the file, as it is spelled, is not among
  -- the protected ones (another spelling of one is let through), the probe passed, exactly this file was changed, its former text is in the backup, and the timer is armed.
  pub install_pam_edit_with_deadman_is_armed :
      (h' : PamHost) (id : String)
      → install_pam_edit_with_deadman target run pam_file new_content h ≡ (ok id, h')
      → (id ≡ run.snapshot_id) × Installed target run pam_file new_content h h'
  unfolding InstallEnds
  install_pam_edit_with_deadman_is_armed h' id e =
      elim (install-Ends target run pam_file new_content h) [
        | inl (x, g, failed, other, same) ↦
            let clash : ◌≡◌ {A = Outcome String × PamHost} (raised x, g) (ok id, h') =
              sym failed ∙ e in
            cc
        | inr (allowed, r, inl (probed, done), end) ↦
            let same : returned target run pam_file new_content h (
              ok tt,
              record (ready target run pam_file new_content h) {
                files = put (target pam_file) (some new_content) h.files;
              },
            )
                ≡ (ok id, h') =
              ap (returned target run pam_file new_content h) (sym done) ∙ sym end ∙ e in
            (
              ground (arith, same),
              subst (Installed target run pam_file new_content h) (ap (λ r. r.1) same) (record {
                not_protected = allowed;
                probed = probed;
                edited = refl;
                backup = saved target run pam_file new_content h;
                armed = refl;
              }),
            )
        | inr (allowed, r, inr (inl (g, failed, undone)), end) ↦
            let clash : returned target run pam_file new_content h (raised pam_install_error, g)
                ≡ (ok id, h') =
              ap (returned target run pam_file new_content h) (sym failed) ∙ sym end ∙ e in
            cc
        | inr (allowed, r, inr (inr (x, g, failed, other, elsewhere, covered)), end) ↦
            let clash : returned target run pam_file new_content h (raised x, g) ≡ (ok id, h') =
              ap (returned target run pam_file new_content h) (sym failed) ∙ sym end ∙ e in
            cc
      ]

  pub install_pam_edit_with_deadman_raised :
      (h' : PamHost) (x : Exn)
      → install_pam_edit_with_deadman target run pam_file new_content h ≡ (raised x, h')
      → ((x ≡ pam_install_error)
          × SameFiles h h'
          × ((h'.armed ≡ none)
              ⊎ ((h'.armed ≡ some (command_of run pam_file))
                  × ((run.first_disarm ≡ stop_ignored) ⊎ (run.second_disarm ≡ stop_ignored)))))
        ⊎ ((x ≢ pam_install_error) × Failed target run pam_file h h')
  unfolding InstallEnds
  install_pam_edit_with_deadman_raised h' x e =
      elim (install-Ends target run pam_file new_content h) [
        | inl (y, g, failed, other, same) ↦
            let both : (raised y, g) ≡ (raised x, h') = sym failed ∙ e in
            let which : y ≡ x = ground (arith, both) in
            inr (
              λ c. other (which ∙ c),
              subst (Failed target run pam_file h) (ap (λ r. r.1) both) (record {
                elsewhere = λ q off. ap (λ f. f q) same;
                covered = inl (λ q. ap (λ f. f q) same);
              }),
            )
        | inr (allowed, r, inl (probed, done), end) ↦
            let clash : returned target run pam_file new_content h (
              ok tt,
              record (ready target run pam_file new_content h) {
                files = put (target pam_file) (some new_content) h.files;
              },
            )
                ≡ (raised x, h') =
              ap (returned target run pam_file new_content h) (sym done) ∙ sym end ∙ e in
            cc
        | inr (allowed, r, inr (inl (g, failed, undone)), end) ↦
            let both : returned target run pam_file new_content h (raised pam_install_error, g)
                ≡ (raised x, h') =
              ap (returned target run pam_file new_content h) (sym failed) ∙ sym end ∙ e in
            let left : g ≡ h' = ap (λ r. r.1) both in
            inl (
              ground (arith, both),
              λ q.
                  ap (λ k. k.files q) (sym left)
                  ∙ Undone-SameFiles target run pam_file new_content h g undone q,
              elim undone.armed [
                | inl gone ↦ inl (ap (λ k. k.armed) (sym left) ∙ gone)
                | inr (same, why) ↦ inr (ap (λ k. k.armed) (sym left) ∙ same, why)
              ],
            )
        | inr (allowed, r, inr (inr (y, g, failed, other, elsewhere, covered)), end) ↦
            let both : returned target run pam_file new_content h (raised y, g) ≡ (raised x, h') =
              ap (returned target run pam_file new_content h) (sym failed) ∙ sym end ∙ e in
            let which : y ≡ x = ground (arith, both) in
            inr (
              λ c. other (which ∙ c),
              subst (Failed target run pam_file h) (ap (λ r. r.1) both)
                  (record { elsewhere = elsewhere.files; covered = inr covered }),
            )
      ]
