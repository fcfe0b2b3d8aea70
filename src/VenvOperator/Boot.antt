-- ===== src/VenvOperator/Boot.antt =====
-- What `boot_venv_commit` of anima/kernel/venv_operator.py leaves.
use anima.Systemd.{after_stop}
use anima.Prelude.{true, false, none, String, ◌≡◌, ◌⊎◌, if◌then◌else◌, refl, inl, inr, Bool, sym}
use mathlib.Core.Path.{subst}
use anima.VenvOperator.{
  VenvHost, VenvRun, Place, Places, live_venv, old_venv, put, place_eq, absent, torn, intact,
  commit, boot_file, boot_venv_commit, snapshot_of,
}

module _ {V : Type 0} (run : VenvRun V) where
  -- A boot that commits has found the new environment healthy. It touches no environment but the old
  -- one, clears the timer and the state unless it cannot, and stays where it cannot.
  pub record Committed (id before after : String) (h h' : VenvHost V) : Type 0 where
    pub pending : h.state_file ≡ intact (snapshot_of id before after)
    pub healthy : run.probe ≡ true
    pub elsewhere : (q : Place) → place_eq (old_venv id) q ≡ false → h'.places q ≡ h.places q
    pub armed : h'.armed ≡ after_stop run.disarm h.armed
    pub state_file : h'.state_file ≡ (if run.unlink_raises then h.state_file else absent)

  abbrev pub Boots : String → String → String → VenvHost V → String × VenvHost V → Type 0
  Boots id before after h (answer, h') =
      (((answer ≡ "committed") × Committed id before after h h')
        ⊎ ((answer ≡ "liveness_failed") × (h' ≡ h))
        ⊎ ((answer ≡ "no_pending") × (h.state_file ≡ absent) × (h' ≡ h)))
      × (h'.places live_venv ≡ h.places live_venv)

  reaped :
      (raises : Bool) (id : String) (q : Place) (places : Places V)
      → place_eq (old_venv id) q ≡ false
      → (if raises then places else put (old_venv id) none places) q ≡ places q
  unfolding put
  reaped true id q places other = refl
  reaped false id q places other = rw other refl

  commit-Boots :
      (id before after : String) (h : VenvHost V)
      → h.state_file ≡ intact (snapshot_of id before after)
      → run.probe ≡ true
      → Boots id before after h ("committed", commit run (snapshot_of id before after) h)
  commit-Boots id before after h pending healthy = (
    inl (
      refl,
      record {
        pending = pending;
        healthy = healthy;
        elsewhere = λ q other. reaped run.reap_raises id q h.places other;
        armed = refl;
        state_file = refl;
      },
    ),
    reaped run.reap_raises id live_venv h.places refl,
  )

  probed-Boots :
      (id before after : String) (h : VenvHost V) (healthy : Bool)
      → h.state_file ≡ intact (snapshot_of id before after)
      → run.probe ≡ healthy
      → Boots id before after h (
          if healthy
          then ("committed", commit run (snapshot_of id before after) h)
          else ("liveness_failed", h))
  probed-Boots id before after h true pending e = commit-Boots id before after h pending e
  probed-Boots id before after h false pending e = (inr (inl (refl, refl)), refl)

  -- A boot of a host whose state file, where it is there and in full, is of a swap: it answers
  -- "committed" exactly where it has committed, and otherwise leaves the host, the timer included, as
  -- it is. The live environment is never touched.
  pub boot_venv_commit_lem :
      (id before after : String) (h : VenvHost V)
      → (h.state_file ≡ absent)
        ⊎ (h.state_file ≡ torn)
        ⊎ (h.state_file ≡ intact (snapshot_of id before after))
      → Boots id before after h (boot_venv_commit run h)
  unfolding boot_venv_commit
  boot_venv_commit_lem id before after h (inl none_there) =
      subst (λ f. Boots id before after h (boot_file run f h)) (sym none_there)
        (inr (inr (refl, none_there, refl)), refl)
  boot_venv_commit_lem id before after h (inr (inl broken)) =
      subst (λ f. Boots id before after h (boot_file run f h)) (sym broken)
        (inr (inl (refl, refl)), refl)
  boot_venv_commit_lem id before after h (inr (inr pending)) =
      subst (λ f. Boots id before after h (boot_file run f h)) (sym pending)
        (probed-Boots id before after h run.probe pending refl)
