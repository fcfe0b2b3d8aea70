-- ===== src/PamOperator/Edit.antt =====
-- How the edit of anima/kernel/pam_operator.py ends once the timer is armed, step by step.
use anima.Systemd.{Stop, stopped, stop_ignored, stop_raises}
use mathlib.Core.Path.{subst}
use anima.Python.{
  raise, ◌>>◌, try_except-raised, try_except-step, bind-of-ok, bind-of-raised, ok, raised, Outcome,
  os_error, pam_install_error, other_error, try_except, Exn, ◌>>=◌, Action,
}
use anima.Prelude.{
  ℕ, String, List, some, ◌≡◌, refl, none, inl, inr, ◌∙◌, Bool-cases, ◌≢◌, ◌⊎◌, arith, ap, ◌==◌, sym,
  Option,
}
use anima.PamOperator.{
  PamRevert, Ssh, exited, timed_out, not_run, run_ssh_probe, settle, written, PamHost, put,
  PamSnapshot, Write, write_bytes, restore, written, os_error, pam_install_error, other_error,
  rescue, PamRun, exited, try_except, Exn, try_edit, abort, Action, Option,
}
use anima.PamOperator.Writes.{
  Elsewhere, Elsewhere-trans, put_self, put-Elsewhere, former, Ends, write_bytes-Ends, unlink-Ends,
}

module _ (target : String → String) (snap : PamSnapshot) (prior : List ℕ) where
  abbrev path : String
  path = target snap.pam_file

  restore-Ends :
      (write : Write) (h : PamHost)
      → h.backups snap.snapshot_id ≡ some prior
      → Ends path write (former snap prior) h (restore target write snap h)
  unfolding restore
  restore-Ends write h saved = elim (Bool-cases snap.was_absent) [
    | inl absent ↦ rw (saved, absent) (unlink-Ends write path h)
    | inr present ↦ rw (saved, present) (write_bytes-Ends write path prior h)
  ]

  -- The timer is gone, or as it was, with a reason.
  abbrev pub Timer : Type 0 → PamHost → PamHost → Type 0
  Timer Ignored h h' = (h'.armed ≡ none) ⊎ ((h'.armed ≡ h.armed) × Ignored)

  -- How the lines `disarm; restore; raise PamInstallError` end.
  pub record Undone (Ignored : Type 0) (h h' : PamHost) : Type 0 where
    pub elsewhere : Elsewhere path h h'
    pub file : h'.files path ≡ former snap prior
    pub armed : Timer Ignored h h'

  abbrev Rescues : Stop → Write → PamHost → Outcome Unit × PamHost → Type 0
  Rescues how write h result =
      ((h' : PamHost) × (result ≡ (raised pam_install_error, h'))
        × Undone (how ≡ stop_ignored) h h')
      ⊎ (result ≡ (raised other_error, h))
      ⊎ ((write ≢ written)
          × (h' : PamHost) × (result ≡ (raised os_error, h'))
          × Elsewhere path h h'
          × Timer (how ≡ stop_ignored) h h')

  restored-Rescues :
      (how : Stop) (timer : Option PamRevert) (write : Write) (h : PamHost)
      → h.backups snap.snapshot_id ≡ some prior
      → (timer ≡ none) ⊎ ((timer ≡ h.armed) × (how ≡ stop_ignored))
      → Rescues how write h
          ((restore target write snap >> raise pam_install_error) (record h { armed = timer }))
  restored-Rescues how timer write h saved why =
      elim (restore-Ends write (record h { armed = timer }) saved) [
        | inl (good, done) ↦ inl (
          record h { files = put path (former snap prior) h.files; armed = timer },
          bind-of-ok (restore target write snap) (λ _. raise pam_install_error) done,
          record {
            elsewhere = put-Elsewhere path (former snap prior) timer h;
            file = put_self path (former snap prior) h.files;
            armed = why;
          },
        )
        | inr (bad, h', failed, elsewhere, armed) ↦ inr (
            inr (
              bad,
              h',
              bind-of-raised (restore target write snap) (λ _. raise pam_install_error) failed,
              record { backups = elsewhere.backups; files = elsewhere.files },
              elim why [ inl gone ↦ inl (armed ∙ gone) | inr (same, is) ↦ inr (armed ∙ same, is) ],
            ))
      ]

  rescue-Rescues :
      (how : Stop) (write : Write) (h : PamHost)
      → h.backups snap.snapshot_id ≡ some prior
      → Rescues how write h (rescue target how write snap h)
  rescue-Rescues stop_raises write h saved = inr (inl refl)
  rescue-Rescues stopped write h saved = restored-Rescues stopped none write h saved (inl refl)
  rescue-Rescues stop_ignored write h saved =
      restored-Rescues stop_ignored h.armed write h saved (inr (refl, refl))

  module _ (run : PamRun) (h : PamHost) (saved : h.backups snap.snapshot_id ≡ some prior) where
    -- One of the calls of `systemctl stop` has failed unnoticed.
    abbrev pub Ignored : Type 0
    Ignored = (run.first_disarm ≡ stop_ignored) ⊎ (run.second_disarm ≡ stop_ignored)

    Timer-trans :
        {Late : Type 0} (a b : PamHost)
        → Timer Ignored h a ⊎ (a.armed ≡ h.armed)
        → Timer Late a b
        → (Late → Ignored)
        → Timer Ignored h b
    Timer-trans a b first (inl gone) late = inl gone
    Timer-trans a b (inl (inl gone)) (inr (same, is)) late = inl (same ∙ gone)
    Timer-trans a b (inl (inr (still, why))) (inr (same, is)) late = inr (same ∙ still, why)
    Timer-trans a b (inr still) (inr (same, is)) late = inr (same ∙ still, late is)

    -- How the edit and its `except` clauses end.
    abbrev pub EditEnds : List ℕ → Outcome Unit × PamHost → Type 0
    EditEnds new_content result =
        ((run.ssh ≡ exited 0)
          × (result ≡ (ok tt, record h { files = put path (some new_content) h.files })))
        ⊎ ((h' : PamHost) × (result ≡ (raised pam_install_error, h')) × Undone Ignored h h')
        ⊎ ((x : Exn) × (h' : PamHost) × (result ≡ (raised x, h'))
            × (x ≢ pam_install_error)
            × Elsewhere path h h'
            × ((h'.armed ≡ h.armed)
                ⊎ (run.first_restore ≢ written)
                ⊎ (run.second_restore ≢ written)))

    last-EditEnds :
        (new_content : List ℕ) (h1 : PamHost)
        → Elsewhere path h h1
        → (h1.armed ≡ h.armed) ⊎ ((run.first_restore ≢ written) × Timer Ignored h h1)
        → EditEnds new_content (rescue target run.second_disarm run.second_restore snap h1)
    last-EditEnds new_content h1 e armed =
        elim (rescue-Rescues run.second_disarm run.second_restore h1
          (ap (λ b. b snap.snapshot_id) e.backups ∙ saved)) [
            | inl (h', result, undone) ↦ inr (
                inl (
                  h',
                  result,
                  record {
                    elsewhere = Elsewhere-trans e undone.elsewhere;
                    file = undone.file;
                    armed =
                        Timer-trans h1 h'
                          (elim armed [ inl same ↦ inr same | inr (bad, left) ↦ inl left ])
                          undone.armed (λ is. inr is);
                  },
                ))
            | inr (inl result) ↦ inr (
                inr (
                  other_error,
                  h1,
                  result,
                  λ c. cc,
                  e,
                  elim armed [ inl same ↦ inl same | inr (bad, left) ↦ inr (inl bad) ],
                ))
            | inr (inr (bad, h', result, e', left)) ↦
                inr (inr (os_error, h', result, λ c. cc, Elsewhere-trans e e', inr (inr bad)))
          ]

    failed-EditEnds :
        (new_content : List ℕ) (h1 : PamHost)
        → Elsewhere path h h1
        → h1.armed ≡ h.armed
        → EditEnds new_content (
            try_except
              (rescue target run.first_disarm run.first_restore snap)
              (abort target run snap)
              h1)
    failed-EditEnds new_content h1 e armed =
        let first = rescue target run.first_disarm run.first_restore snap in
        let again = abort target run snap in
        elim (rescue-Rescues run.first_disarm run.first_restore h1
          (ap (λ b. b snap.snapshot_id) e.backups ∙ saved)) [
            | inl (h', result, undone) ↦ inr (
                inl (
                  h',
                  try_except-raised first again result,
                  record {
                    elsewhere = Elsewhere-trans e undone.elsewhere;
                    file = undone.file;
                    armed = Timer-trans h1 h' (inr armed) undone.armed (λ is. inl is);
                  },
                ))
            | inr (inl result) ↦
                subst (EditEnds new_content) (sym (try_except-raised first again result))
                  (last-EditEnds new_content h1 e (inl armed))
            | inr (inr (bad, h', result, e', left)) ↦
                subst (EditEnds new_content) (sym (try_except-raised first again result)) (
                  last-EditEnds new_content h' (Elsewhere-trans e e')
                    (inr (bad, Timer-trans h1 h' (inr armed) left (λ is. inl is))))
          ]

    ssh-EditEnds :
        (new_content : List ℕ) (ssh : Ssh)
        → run.ssh ≡ ssh
        → let h1 = record h { files = put path (some new_content) h.files } in
          EditEnds new_content
            (try_except (run_ssh_probe ssh >>= settle target run snap) (abort target run snap) h1)
    ssh-EditEnds new_content timed_out e =
        failed-EditEnds new_content _ (put-Elsewhere path (some new_content) h.armed h) refl
    ssh-EditEnds new_content not_run e =
        last-EditEnds new_content _ (put-Elsewhere path (some new_content) h.armed h) (inl refl)
    ssh-EditEnds new_content (exited code) e = elim (Bool-cases (code == 0)) [
      | inl zero_code ↦ rw zero_code (inl (ground (arith, e, zero_code), refl))
      | inr other_code ↦
          rw other_code
            (failed-EditEnds new_content _ (put-Elsewhere path (some new_content) h.armed h) refl)
    ]

    pub edit-EditEnds :
        (new_content : List ℕ)
        → EditEnds new_content (
            try_except
              (try_edit target run snap.pam_file new_content snap)
              (abort target run snap)
              h)
    edit-EditEnds new_content =
        let write = write_bytes run.apply path new_content in
        let probe : Unit → Action PamHost Unit =
          λ _. run_ssh_probe run.ssh >>= settle target run snap in
        let again = abort target run snap in
        elim (write_bytes-Ends run.apply path new_content h) [
          | inr (bad, h1, failed, e, armed) ↦
              subst (EditEnds new_content)
                (sym
                  (try_except-raised (write >>= probe) again (bind-of-raised write probe failed)))
                (last-EditEnds new_content h1 e (inl armed))
          | inl (good, done) ↦
              subst (EditEnds new_content)
                (sym (
                  try_except-step (write >>= probe) (probe tt) again (bind-of-ok write probe done)))
                (ssh-EditEnds new_content run.ssh refl)
        ]
