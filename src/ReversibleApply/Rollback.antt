-- ===== src/ReversibleApply/Rollback.antt =====
-- What `reversible_apply` of anima/kernel/reversible_apply.py leaves in the repository.
use anima.Prelude.{
  String, ℕ, ◌≡◌, ◌≢◌, true, false, none, some, inl, inr, arith, ap, ◌⊎◌, Bool, Option, Bool-cases,
  ◌==◌, not, ◌∙◌, sym, zero, suc, ltb, ◌+◌, if◌then◌else◌,
}
use anima.Python.{ok, Exn, raised, bind-ok, ◌>>=◌, Outcome-cases, pure, Action}
use anima.Python.{sandbox_error, reversible_apply_error, raise_if}
use mathlib.Core.Path.{subst}
use anima.ReversibleApply.{
  check_health, gate_round, on_sandbox_error, ApplyHost, ApplyResult, BashResult, rev_parse, gate,
  rollback, restarted, settled, String, ℕ, after_merge, caught, reversible_apply, merged, parsed,
  merge_ff_only, reset_hard, GitCommand,
}

-- Git as the code relies on it: `head` is the commit that is checked out. A merge that fails leaves
-- it, and so do the calls that are not about it; one that `run_bash` cut off after its time, which it
-- reports as exit code 124, or that raised, may have moved it.
pub record IsApplyHost {W : Type 0} (host : ApplyHost W) (root branch service : String)
    : Type 0 where
  pub head : W → String
  pub tree_keeps : (w : W) → head (host.is_anima_source_tree root w).1 ≡ head w
  pub rev_parse_keeps : (w : W) → head (host.run_bash rev_parse root w).1 ≡ head w
  pub rev_parse_ok :
      (w w' : W) (r : BashResult)
      → host.run_bash rev_parse root w ≡ (ok r, w')
      → r.exit_code ≡ 0
      → host.stripped r.stdout ≡ head w
  pub merge_failed :
      (w w' : W) (r : BashResult)
      → host.run_bash (merge_ff_only branch) root w ≡ (ok r, w')
      → r.exit_code ≢ 0
      → r.exit_code ≢ 124
      → head w' ≡ head w
  pub reset_ok :
      (w w' : W) (r : BashResult) (sha : String)
      → host.run_bash (reset_hard sha) root w ≡ (ok r, w')
      → r.exit_code ≡ 0
      → head w' ≡ sha
  pub restart_keeps : (w : W) → head (host.restart service w).1 ≡ head w

module _ {W : Type 0} (host : ApplyHost W) (timeout_s poll : ℕ) (root branch service : String)
    (law : IsApplyHost host root branch service)
    (resets : (w : W) (sha : String)
      → (r : BashResult) × ((host.run_bash (reset_hard sha) root w).0 ≡ ok r)
        × (r.exit_code ≡ 0)) where
  rollback-head :
      (sha : String) (w : W)
      → law.head (rollback host timeout_s poll root branch service sha w).1 ≡ sha
  unfolding rollback
  rollback-head sha w =
      let (r, e, good) = resets w sha in
      let w1 = (host.run_bash (reset_hard sha) root w).1 in
      ground (arith, e, law.reset_ok w w1 r sha (ap (λ x. (x, w1)) e) good, law.restart_keeps w1)

  -- The last thing that was done is a health check, and it passed.
  abbrev pub FoundHealthy : W → Type 0
  FoundHealthy w' = (v : W) × (host.health_check v ≡ (ok true, w'))

  -- The last thing that was done is a merge that was cut off after its time, or that raised.
  abbrev pub CutOff : W → Type 0
  CutOff w' =
      (v : W) × (((m : BashResult) × (host.run_bash (merge_ff_only branch) root v ≡ (ok m, w'))
          × (m.exit_code ≡ 124))
        ⊎ ((x : Exn) × (host.run_bash (merge_ff_only branch) root v ≡ (raised x, w'))))

  -- The ends of a call: healthy, or unhealthy with the commit `sha` checked out, or with a merge that
  -- was cut off and not followed by anything.
  abbrev pub Ended : ApplyResult → String → W → Type 0
  Ended r sha w' =
      ((r.healthy ≡ true) × (r.applied ≡ true) × (r.rolled_back ≡ false) × FoundHealthy w')
      ⊎ ((r.healthy ≡ false) × (law.head w' ≡ sha))
      ⊎ ((r.healthy ≡ false) × (r.applied ≡ false) × CutOff w')

  check_health-true : (w t : W) → check_health host timeout_s poll w ≡ (ok true, t) → FoundHealthy t
  check_health-true w t h = elim (Outcome-cases (host.health_check w).0) [
    | inl (b, e) ↦ (w, ground (arith, e, h))
    | inr (x, e) ↦ ground (arith, e, h)
  ]

  abbrev go_on_polling : ℕ → ℕ → Bool → Action W (Option ℕ)
  go_on_polling fuel waited healthy =
      if healthy then pure (some waited) else gate host timeout_s poll fuel waited

  go_on :
      (fuel waited n : ℕ) (w t : W) (b : Bool) (v : W)
      → check_health host timeout_s poll w ≡ (ok b, v)
      → go_on_polling fuel waited b v ≡ (ok (some n), t)
      → (gate host timeout_s poll fuel waited v ≡ (ok (some n), t) → FoundHealthy t)
      → FoundHealthy t
  go_on fuel waited n w t true v checked rest again =
      subst FoundHealthy (ap (λ x. x.1) rest) (check_health-true w v checked)
  go_on fuel waited n w t false v checked rest again = again rest

  gate-FoundHealthy :
      (fuel elapsed n : ℕ) (w t : W)
      → gate host timeout_s poll fuel elapsed w ≡ (ok (some n), t)
      → FoundHealthy t
  unfolding gate gate_round
  gate-FoundHealthy zero elapsed n w t h = ground (arith, h)
  gate-FoundHealthy (suc fuel) elapsed n w t h = elim (Bool-cases (ltb elapsed timeout_s)) [
    | inr late ↦ ground (arith, late, h)
    | inl early ↦
        let ran : (check_health host timeout_s poll >>= go_on_polling fuel (elapsed + suc poll)) w
            ≡ (ok (some n), t) =
          ground (arith, early, h) in
        let (b, v, checked, rest) =
          bind-ok (check_health host timeout_s poll) (go_on_polling fuel (elapsed + suc poll)) w
            ran in
        go_on fuel (elapsed + suc poll) n w t b v checked rest
          (gate-FoundHealthy fuel (elapsed + suc poll) n v t)
  ]

  restarted-Ended :
      (before after : String) (good : Bool) (w w' : W) (r : ApplyResult)
      → restarted host timeout_s poll root branch service before after good w ≡ (ok r, w')
      → Ended r before w'
  restarted-Ended before after false w w' r h =
      inr (inl (ground (arith, h), ground (arith, h, rollback-head before w)))
  restarted-Ended before after true w w' r h =
      let (end, t, ran, rest) =
        bind-ok (gate host timeout_s poll timeout_s 0)
          (settled host timeout_s poll root branch service before after) w h in
      settled-Ended end t ran rest
    where
      settled-Ended :
          (end : Option ℕ) (t : W)
          → gate host timeout_s poll timeout_s 0 w ≡ (ok end, t)
          → settled host timeout_s poll root branch service before after end t ≡ (ok r, w')
          → Ended r before w'
      settled-Ended (some n) t ran e = inl (
        ground arith,
        ground arith,
        ground arith,
        subst FoundHealthy (ap (λ x. x.1) e) (gate-FoundHealthy timeout_s 0 n w t ran),
      )
      settled-Ended none t ran e =
          inr (inl (ground (arith, e), ground (arith, e, rollback-head before t)))

  after_merge-Ended :
      (before : String) (w w' : W) (r : ApplyResult)
      → after_merge host timeout_s poll root branch service before w ≡ (ok r, w')
      → Ended r before w'
  unfolding after_merge
  after_merge-Ended before w w' r h =
      let (a, w1, _, rest) =
        bind-ok (host.run_bash rev_parse root)
          (λ a. host.restart service >>= λ good.
            restarted host timeout_s poll root branch service before (host.stripped a.stdout) good)
          w h in
      let (good, w2, _, last) =
        bind-ok (host.restart service)
          (restarted host timeout_s poll root branch service before (host.stripped a.stdout)) w1
          rest in
      restarted-Ended before (host.stripped a.stdout) good w2 w' r last

  abbrev merge_command : GitCommand
  merge_command = merge_ff_only branch

  on_sandbox_error-ok :
      (x : Exn) (w w' : W) (m : Option BashResult)
      → on_sandbox_error (pure none) x w ≡ (ok m, w')
      → (m ≡ none) × (w ≡ w')
  on_sandbox_error-ok sandbox_error w w' m h = ground (arith, h)
  on_sandbox_error-ok x w w' m h = cc

  caught-some :
      (cmd : GitCommand) (w w' : W) (m : BashResult)
      → caught host timeout_s poll root branch service cmd w ≡ (ok (some m), w')
      → host.run_bash cmd root w ≡ (ok m, w')
  caught-some cmd w w' m h = elim (Outcome-cases (host.run_bash cmd root w).0) [
    | inl (a, e) ↦ ground (arith, e, h)
    | inr (x, e) ↦
        let none_only =
          on_sandbox_error-ok x (host.run_bash cmd root w).1 w' (some m) (ground (arith, e, h)) in
        ground (arith, none_only)
  ]

  caught-none :
      (cmd : GitCommand) (w w' : W)
      → caught host timeout_s poll root branch service cmd w ≡ (ok none, w')
      → (x : Exn) × (host.run_bash cmd root w ≡ (raised x, w'))
  caught-none cmd w w' h = elim (Outcome-cases (host.run_bash cmd root w).0) [
    | inl (a, e) ↦ absurd (ground (arith, e, h))
    | inr (x, e) ↦
        let same =
          on_sandbox_error-ok x (host.run_bash cmd root w).1 w' none (ground (arith, e, h)) in
        (x, ground (arith, e, same))
  ]

  merged-Ended :
      (before : String) (end : Option BashResult) (w t w' : W) (r : ApplyResult)
      → law.head w ≡ before
      → caught host timeout_s poll root branch service merge_command w ≡ (ok end, t)
      → merged host timeout_s poll root branch service before end t ≡ (ok r, w')
      → Ended r before w'
  merged-Ended before none w t w' r at ran h =
      let (x, e) = caught-none merge_command w t ran in
      let same : t ≡ w' = ground (arith, h) in
      inr
        (inr (ground (arith, h), ground (arith, h), (w, inr (x, e ∙ ap (λ z. (raised x, z)) same))))
  merged-Ended before (some m) w t w' r at ran h =
      let e = caught-some merge_command w t m ran in
      elim (Bool-cases (m.exit_code == 0)) [
        | inl good ↦ after_merge-Ended before t w' r (ground (arith, good, h))
        | inr bad ↦ elim (Bool-cases (m.exit_code == 124)) [
          | inl cut_off ↦ inr (
              inr (
                ground (arith, bad, h),
                ground (arith, bad, h),
                (w, inl (m, ground (arith, bad, h, e), ground (arith, cut_off))),
              ))
          | inr whole ↦
              let kept =
                law.merge_failed w t m e (λ z. ground (arith, z, bad))
                  (λ z. ground (arith, z, whole)) in
              inr (inl (ground (arith, bad, h), ground (arith, bad, h, at, kept)))
        ]
      ]

  parsed-Ended :
      (before : Option BashResult) (w t w' : W) (r : ApplyResult)
      → caught host timeout_s poll root branch service rev_parse w ≡ (ok before, t)
      → parsed host timeout_s poll root branch service before t ≡ (ok r, w')
      → Ended r (law.head w) w'
  parsed-Ended none w t w' r ran h =
      let (x, e) = caught-none rev_parse w t ran in
      inr (inl (ground (arith, h), ground (arith, h, e, law.rev_parse_keeps w)))
  parsed-Ended (some b) w t w' r ran h =
      let e = caught-some rev_parse w t b ran in
      elim (Bool-cases (b.exit_code == 0)) [
        | inr bad ↦
            inr (inl (ground (arith, bad, h), ground (arith, bad, h, e, law.rev_parse_keeps w)))
        | inl good ↦
            let sha = host.stripped b.stdout in
            let is_head = law.rev_parse_ok w t b e (ground (arith, good)) in
            let same : law.head t ≡ law.head w = ground (arith, e, law.rev_parse_keeps w) in
            let (m, t2, ran2, rest) =
              bind-ok (caught host timeout_s poll root branch service merge_command)
                (merged host timeout_s poll root branch service sha) t (ground (arith, good, h)) in
            subst (λ c. Ended r c w') is_head
              (merged-Ended sha m t t2 w' r (same ∙ sym is_head) ran2 rest)
      ]

  abbrev from_parse : Action W ApplyResult
  from_parse =
      caught host timeout_s poll root branch service rev_parse
      >>= parsed host timeout_s poll root branch service

  abbrev from_tree : Bool → Action W ApplyResult
  from_tree own = raise_if own reversible_apply_error >>= λ _. from_parse

  -- Where `git reset --hard` works, a call of `reversible_apply` that returns has either ended with a
  -- health check that passed, and says so, or left the repository at the commit that it was at before,
  -- or its merge was cut off after its time, or raised, which it reports as not applied.
  pub reversible_apply_keeps_or_reverts :
      (w w' : W) (r : ApplyResult)
      → reversible_apply host timeout_s poll root branch service w ≡ (ok r, w')
      → Ended r (law.head w) w'
  unfolding reversible_apply
  reversible_apply_keeps_or_reverts w w' r h =
      let (u, w1, first, rest) =
        bind-ok (raise_if (not host.supports_reversible_apply) reversible_apply_error)
          (λ _. host.is_anima_source_tree root >>= from_tree) w h in
      let (own, w2, asked, rest2) = bind-ok (host.is_anima_source_tree root) from_tree w1 rest in
      let (u2, w3, second, rest3) =
        bind-ok (raise_if own reversible_apply_error) (λ _. from_parse) w2 rest2 in
      let (b, w4, ran, last) =
        bind-ok (caught host timeout_s poll root branch service rev_parse)
          (parsed host timeout_s poll root branch service) w3 rest3 in
      let same : law.head w3 ≡ law.head w =
        ground (arith, first, asked, second, law.tree_keeps w1) in
      subst (λ c. Ended r c w') same (parsed-Ended b w3 w4 w' r ran last)
