-- ===== src/SelfReload/Swap.antt =====
-- `arm_and_swap` and `execute_owner_self_reload` of anima/kernel/self_reload.py. A call that returns
-- here has ended the process (`_exit(0)`). What goes wrong in a call is its `SwapRun`.
use anima.AuditChain.Log.{ChainWrite}
use anima.Systemd.{Stop, stopped}
use mathlib.Core.Path.{subst}
use anima.Python.{
  ok, raised, ◌>>=◌, ◌>>◌, Action, Exn, modify, raise, gets, os_error, other_error,
  self_reload_state_error, raise_if, try_except, Outcome, Outcome-cases,
}
use anima.Prelude.{
  [], ◌∷◌, true, false, none, some, arith, Bool, Option, ℕ, String, ◌≡◌, ◌≢◌, ◌⊎◌, refl, inl, inr,
}
use anima.AuditChain.Crypto.{Crypto, Payload}
use anima.AuditChain.Log.{append}
use anima.SelfReload.Host.{
  SelfReloadSnapshot, Pending, PendingFile, whole, broken, RevertCommand, ReloadHost, Repo, disarm,
  unlink,
}
use anima.SelfReload.Preflight.{
  preflight_stage, Accepts, preflight_stage-state, preflight_stage-Accepts,
}

-- `state_path.write_text`: it succeeds, or raises before or after it made the file.
pub data WriteResult : Type 0 where
  written left_nothing left_partial : WriteResult

-- `git reset --hard`: it moves HEAD, or fails and leaves it.
pub data ResetResult : Type 0 where
  reset_done reset_failed reset_raised : ResetResult

pub record SwapRun : Type 0 where
  pub autonomous : Bool
  pub armed_at : ℕ
  pub write : WriteResult
  pub arm_raises : Bool
  pub audit_ms : ℕ
  pub audit_write : ChainWrite
  pub reset : ResetResult
  pub disarm : Stop

abbrev pub is_pending : Option PendingFile → Bool
is_pending none = false
is_pending (some file) = true

abbrev pub revert_of : SelfReloadSnapshot → RevertCommand
revert_of snap = record { old_sha = snap.old_sha; state_id = snap.state_id }

abbrev pub pending_of : SelfReloadSnapshot → SwapRun → Pending
pending_of snap run = record {
  old_sha = snap.old_sha;
  new_sha = snap.new_sha;
  state_id = snap.state_id;
  armed_at = run.armed_at;
  autonomous = run.autonomous;
}

abbrev pub audit_payload :
    (k : Crypto) → (Bool → k.Json) → SelfReloadSnapshot → SwapRun → Payload k.Json
audit_payload k flag snap run =
    ("old_sha", k.text snap.old_sha)
    ∷ ("new_sha", k.text snap.new_sha)
    ∷ ("state_id", k.text snap.state_id)
    ∷ ("autonomous", flag run.autonomous)
    ∷ []

-- How a swap can end, from a state `h` in which nothing was pending if it got anywhere.
pub record Swapped {k : Crypto} (snap : SelfReloadSnapshot) (run : SwapRun) (h h' : ReloadHost k)
    : Type 0 where
  pub was_free : h.pending ≡ none
  pub head : h'.head ≡ snap.new_sha
  pub pending : h'.pending ≡ some (whole (pending_of snap run))
  pub armed : h'.armed ≡ some (revert_of snap)

-- What a swap that raises can leave behind.
pub record Left {k : Crypto} (snap : SelfReloadSnapshot) (run : SwapRun) (h h' : ReloadHost k)
    : Type 0 where
  pub head : h'.head ≡ h.head
  pub pending :
      (h'.pending ≡ h.pending)
      ⊎ (h'.pending ≡ none)
      ⊎ (h'.pending ≡ some (whole (pending_of snap run)))
  pub armed : (h'.armed ≡ h.armed) ⊎ (h'.armed ≡ none) ⊎ (h'.armed ≡ some (revert_of snap))

module _ {k : Crypto} (flag : Bool → k.Json) where
  abbrev write_state : WriteResult → Pending → Action (ReloadHost k) Unit
  write_state written p = modify (λ h. record h { pending = some (whole p) })
  write_state left_nothing p = raise os_error
  write_state left_partial p = do modify (λ h. record h { pending = some broken }); raise os_error

  abbrev arm : Bool → SelfReloadSnapshot → Action (ReloadHost k) Unit
  arm true snap = raise other_error
  arm false snap = modify (λ h. record h { armed = some (revert_of snap) })

  abbrev audit_arm : SelfReloadSnapshot → SwapRun → Action (ReloadHost k) Unit
  audit_arm snap run = modify λ h. record h {
    chain =
        (append k "self_reload_arm" (audit_payload k flag snap run) run.audit_ms run.audit_write
          h.chain).1;
  }

  abbrev swap : ResetResult → String → Action (ReloadHost k) Unit
  swap reset_done sha = modify (λ h. record h { head = sha })
  swap reset_failed sha = raise self_reload_state_error
  swap reset_raised sha = raise other_error

  unfoldable pub arm_and_swap : SelfReloadSnapshot → SwapRun → Action (ReloadHost k) Unit
  arm_and_swap snap run = do
    pending ← gets (λ h. h.pending)
    raise_if (is_pending pending) self_reload_state_error
    write_state run.write (pending_of snap run)
    try_except (arm run.arm_raises snap) (λ e. do unlink; raise e)
    audit_arm snap run
    try_except (swap run.reset snap.new_sha) (λ e. do disarm run.disarm; unlink; raise e)

  unfoldable pub execute_owner_self_reload :
      Repo → String → String → SwapRun → Action (ReloadHost k) Unit
  unfolding arm_and_swap
  execute_owner_self_reload repo new_sha state_id run = do
    snap ← preflight_stage repo new_sha state_id
    arm_and_swap snap run

  pub arm_and_swap-ok :
      (snap : SelfReloadSnapshot) (run : SwapRun) (h h' : ReloadHost k)
      → arm_and_swap snap run h ≡ (ok tt, h')
      → Swapped snap run h h'
  unfolding arm_and_swap
  arm_and_swap-ok snap run h h' e = ground arith

  pub arm_and_swap-raised :
      (snap : SelfReloadSnapshot) (run : SwapRun) (h h' : ReloadHost k) (x : Exn)
      → arm_and_swap snap run h ≡ (raised x, h')
      → run.write ≢ left_partial
      → Left snap run h h'
  unfolding arm_and_swap
  arm_and_swap-raised snap run h h' x e w = record {
    head = ground (arith, e);
    pending = ground (arith, e, w);
    armed = ground (arith, e);
  }

  pub arm_and_swap-pending :
      (snap : SelfReloadSnapshot) (run : SwapRun) (h : ReloadHost k) (file : PendingFile)
      → h.pending ≡ some file
      → arm_and_swap snap run h ≡ (raised self_reload_state_error, h)
  unfolding arm_and_swap
  arm_and_swap-pending snap run h file has = ground (arith, has)

  pub arm_and_swap-clean :
      (snap : SelfReloadSnapshot) (run : SwapRun) (h h' : ReloadHost k) (x : Exn)
      → arm_and_swap snap run h ≡ (raised x, h')
      → run.write ≢ left_partial
      → run.disarm ≡ stopped
      → (h'.pending ≡ h.pending) × ((h'.armed ≡ h.armed) ⊎ (h'.armed ≡ none))
  unfolding arm_and_swap
  arm_and_swap-clean snap run h h' x e w d = ground (arith, w, d)

  pub execute-parts :
      (repo : Repo) (new_sha state_id : String) (run : SwapRun) (h h' : ReloadHost k)
      (r : Outcome Unit)
      → execute_owner_self_reload repo new_sha state_id run h ≡ (r, h')
      → ((x : Exn) × (r ≡ raised x) × (h' ≡ h))
        ⊎ (Accepts repo h.head new_sha
            × (arm_and_swap
                  (record { old_sha = h.head; new_sha = new_sha; state_id = state_id })
                  run
                  h
                ≡ (r, h')))
  unfolding execute_owner_self_reload
  execute-parts repo new_sha state_id run h h' r e =
      let same = preflight_stage-state repo new_sha state_id h in
      elim (Outcome-cases (preflight_stage repo new_sha state_id h).0) [
        | inr (x, f) ↦ inl (x, ground (arith, f, e), ground (arith, f, e, same))
        | inl (snap, f) ↦
            let (accepted, which) =
              preflight_stage-Accepts repo new_sha state_id h h snap (ground (arith, f, same)) in
            inr (
              accepted,
              subst (λ s. arm_and_swap s run h ≡ (r, h')) which (ground (arith, f, same, e)),
            )
      ]

  -- A self-reload ends the process only after preflight accepted the commit and with no reload
  -- pending; then the new commit is checked out, the state file says so, and the timer that reverts
  -- to the old one is armed.
  pub execute_owner_self_reload_is_armed :
      (repo : Repo) (new_sha state_id : String) (run : SwapRun) (h h' : ReloadHost k)
      → execute_owner_self_reload repo new_sha state_id run h ≡ (ok tt, h')
      → Accepts repo h.head new_sha
        × Swapped (record { old_sha = h.head; new_sha = new_sha; state_id = state_id }) run h h'
  execute_owner_self_reload_is_armed repo new_sha state_id run h h' e =
      elim (execute-parts repo new_sha state_id run h h' (ok tt) e) [
        | inl (x, f, same) ↦ cc
        | inr (accepted, swapped) ↦ (accepted, arm_and_swap-ok _ run h h' swapped)
      ]

  -- A self-reload that raises leaves the source on its commit. Where the state file is written whole
  -- or not at all, and the timer can be stopped, no reload is left pending that was not, and no timer
  -- is left armed that was not.
  pub execute_owner_self_reload_raised :
      (repo : Repo) (new_sha state_id : String) (run : SwapRun) (h h' : ReloadHost k) (x : Exn)
      → execute_owner_self_reload repo new_sha state_id run h ≡ (raised x, h')
      → run.write ≢ left_partial
      → run.disarm ≡ stopped
      → (h'.head ≡ h.head) × (h'.pending ≡ h.pending) × ((h'.armed ≡ h.armed) ⊎ (h'.armed ≡ none))
  execute_owner_self_reload_raised repo new_sha state_id run h h' x e w d =
      elim (execute-parts repo new_sha state_id run h h' (raised x) e) [
        | inl (y, f, same) ↦ rw same (refl, refl, inl refl)
        | inr (accepted, swapped) ↦
            let (kept, armed) = arm_and_swap-clean _ run h h' x swapped w d in
            ((arm_and_swap-raised _ run h h' x swapped w).head, kept, armed)
      ]
