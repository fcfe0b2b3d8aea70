-- ===== src/SelfReload/Lifecycle/Recovery.antt =====
-- The source of anima/kernel/self_reload.py can always go back to the commit that was last proven.
use anima.Systemd.{Stop, stopped, stop_ignored, stop_raises, after_stop}
use anima.SelfReload.Boot.{committed}
use anima.Python.{ok, Outcome-cases}
use anima.Prelude.{
  Bool, String, none, some, ◌≢◌, ◌≡◌, ◌⊎◌, refl, inl, inr, arith, ap, ◌∙◌, sym, Option,
}
use anima.AuditChain.Crypto.{Crypto}
use anima.SelfReload.Host.{
  file-cases, whole, ReloadHost, Repo, Pending, RevertCommand, SelfReloadSnapshot,
}
use anima.SelfReload.Swap.{
  SwapRun, left_partial, execute_owner_self_reload, execute-parts, Swapped, Left, pending_of,
  arm_and_swap-pending, arm_and_swap-ok, arm_and_swap-raised,
}
use anima.SelfReload.Boot.{BootRun, ReloadOutcome, boot_liveness_commit}
use anima.SelfReload.Boot.Outcome.{
  boot_liveness_commit-none, boot_liveness_commit_lem, boot_liveness_commit-raised,
}
use anima.SelfReload.Lifecycle.{
  System, proven_after, Paced, Step, reload, boot, boot_raised, fire, Reach, start, next, Trial,
  Settled, Safe,
}

-- A timer after a call of `systemctl stop`.
after_stop-back :
    (how : Stop) (timer : Option RevertCommand) (sha : String)
    → ((c : RevertCommand) → timer ≡ some c → c.old_sha ≡ sha)
    → (c : RevertCommand) → after_stop how timer ≡ some c
    → c.old_sha ≡ sha
after_stop-back stopped timer sha back c has = ground (arith, has)
after_stop-back stop_ignored timer sha back c has = back c has
after_stop-back stop_raises timer sha back c has = back c has

after_stop-gone :
    (how : Stop) (timer : Option RevertCommand)
    → how ≢ stop_raises
    → how ≢ stop_ignored
    → after_stop how timer ≡ none
after_stop-gone stopped timer a b = refl
after_stop-gone stop_ignored timer a b = absurd (b refl)
after_stop-gone stop_raises timer a b = absurd (a refl)

module _ {k : Crypto} (flag : Bool → k.Json) (repo : Repo) where
  cleared-Settled :
      (s : System k)
      → s.host.head ≡ s.proven
      → (timer : Option RevertCommand)
      → ((c : RevertCommand) → timer ≡ some c → c.old_sha ≡ s.proven)
      → Settled (record s { host = record s.host { pending = none; armed = timer } })
  cleared-Settled s same timer back = record {
    head = same;
    whole_file = λ torn. ground (arith, torn);
    pending = λ p has. ground (arith, has);
    armed = back;
  }

  Swapped-Safe :
      (s : System k) (snap : SelfReloadSnapshot) (run : SwapRun) (h : ReloadHost k)
      → snap.old_sha ≡ s.proven
      → Swapped snap run s.host h
      → Safe (record s { host = h })
  Swapped-Safe s snap run h old done = inr (
    pending_of snap run,
    record {
      pending = done.pending;
      old = old;
      new = done.head;
      armed = ground (arith, done.armed, old);
    },
  )

  Left-Settled :
      (s : System k) (snap : SelfReloadSnapshot) (run : SwapRun) (h : ReloadHost k)
      → snap.old_sha ≡ s.proven
      → Settled s
      → Left snap run s.host h
      → Settled (record s { host = h })
  Left-Settled s snap run h old settled left = record {
    head = left.head ∙ settled.head;
    whole_file = λ torn. ground (arith, left.pending, settled.whole_file, torn);
    pending = λ p has. elim left.pending [
      | inl same ↦ settled.pending p (sym same ∙ has)
      | inr (inl gone) ↦ ground (arith, gone, has)
      | inr (inr fresh_file) ↦ ground (arith, fresh_file, has, old)
    ];
    armed = λ c has. elim left.armed [
      | inl same ↦ settled.armed c (sym same ∙ has)
      | inr (inl gone) ↦ ground (arith, gone, has)
      | inr (inr fresh_timer) ↦ ground (arith, fresh_timer, has, old)
    ];
  }

  reload-Safe :
      (new_sha state_id : String) (run : SwapRun) (s : System k)
      → run.write ≢ left_partial
      → Safe s
      → Safe
          (record s { host = (execute_owner_self_reload flag repo new_sha state_id run s.host).1 })
  reload-Safe new_sha state_id run s w safe =
      let call = execute_owner_self_reload flag repo new_sha state_id run s.host in
      elim (execute-parts flag repo new_sha state_id run s.host call.1 call.0 refl) [
        | inl (x, f, same) ↦ rw same safe
        | inr (accepted, swapped) ↦ elim safe [
          | inr (p, trial) ↦
              rw
                (ap (λ r. r.1)
                  (sym swapped ∙ arm_and_swap-pending flag _ run s.host (whole p) trial.pending))
                (inr (p, trial))
          | inl settled ↦ elim (Outcome-cases call.0) [
            | inl (u, e) ↦
                Swapped-Safe s _ run call.1 settled.head
                  (arm_and_swap-ok flag _ run s.host call.1 (swapped ∙ ap (λ r. (r, call.1)) e))
            | inr (x, e) ↦ inl (
                Left-Settled s _ run call.1 settled.head settled (
                  arm_and_swap-raised flag _ run s.host call.1 x (swapped ∙ ap (λ r. (r, call.1)) e)
                    w))
          ]
        ]
      ]

  boot-Settled :
      (run : BootRun) (s : System k) (o : ReloadOutcome) (h : ReloadHost k)
      → ((p : Pending) → s.host.pending ≡ some (whole p) → Paced run p)
      → boot_liveness_commit repo run s.host ≡ (ok o, h)
      → Settled s
      → Settled (record { host = h; proven = proven_after o s.host.head s.proven })
  boot-Settled run s o h paced e settled = elim (file-cases s.host.pending) [
    | inl free ↦
        let (nothing, same) = boot_liveness_commit-none repo run s.host h o free e in
        rw (nothing, same) settled
    | inr (inl torn) ↦ absurd (settled.whole_file torn)
    | inr (inr (p, has)) ↦
        let pace = paced p has in
        let back : s.host.head ≡ p.old_sha = settled.head ∙ sym (settled.pending p has) in
        elim (boot_liveness_commit_lem repo run p s.host h o pace.ticks pace.some_fuel pace.enough
          has e) [
            | inl (named, old, how, cleared) ↦
                rw (named, cleared)
                  (cleared-Settled s settled.head (after_stop run.disarm s.host.armed)
                    (after_stop-back run.disarm s.host.armed s.proven settled.armed))
            | inr (inl (named, not_old, new, passed, how, cleared)) ↦ absurd (not_old back)
            | inr (inr (named, not_old, why, same)) ↦ absurd (not_old back)
          ]
  ]

  boot-Trial :
      (run : BootRun) (s : System k) (o : ReloadOutcome) (h : ReloadHost k) (p : Pending)
      → Paced run p
      → (o ≡ committed → run.disarm ≢ stop_ignored)
      → boot_liveness_commit repo run s.host ≡ (ok o, h)
      → Trial s p
      → Safe (record { host = h; proven = proven_after o s.host.head s.proven })
  boot-Trial run s o h p pace stops e trial =
      elim (boot_liveness_commit_lem repo run p s.host h o pace.ticks pace.some_fuel pace.enough
        trial.pending e) [
          | inl (named, old, how, cleared) ↦
              rw (named, cleared)
                (inl (
                  cleared-Settled s (old ∙ trial.old) (after_stop run.disarm s.host.armed) (
                    after_stop-back run.disarm s.host.armed s.proven
                      (λ c has. ground (arith, trial.armed, has)))))
          | inr (inl (named, not_old, new, passed, how, cleared)) ↦
              rw (named, cleared)
                (inl (
                  cleared-Settled (record s { proven = s.host.head }) refl
                    (after_stop run.disarm s.host.armed)
                    (λ c has.
                      ground
                        (arith, has, after_stop-gone run.disarm s.host.armed how (stops named)))))
          | inr (inr (named, not_old, why, same)) ↦ rw (named, same) (inr (p, trial))
        ]

  fire-Safe :
      (command : RevertCommand) (s : System k)
      → s.host.armed ≡ some command
      → Safe s
      → Safe (record s { host = record s.host { head = command.old_sha; armed = none } })
  fire-Safe command s has (inl settled) = inl (record {
    head = settled.armed command has;
    whole_file = settled.whole_file;
    pending = settled.pending;
    armed = λ c none_left. ground (arith, none_left);
  })
  fire-Safe command s has (inr (p, trial)) = inl (record {
    head = ground (arith, trial.armed, has);
    whole_file = λ torn. ground (arith, trial.pending, torn);
    pending = λ q same. ground (arith, trial.pending, trial.old, same);
    armed = λ c none_left. ground (arith, none_left);
  })

  Safe-Step : (s s' : System k) → Step flag repo s s' → Safe s → Safe s'
  Safe-Step _ _ (reload new_sha state_id run s w) safe = reload-Safe new_sha state_id run s w safe
  Safe-Step _ _ (boot run s o h paced stops e) (inl settled) =
      inl (boot-Settled run s o h paced e settled)
  Safe-Step _ _ (boot run s o h paced stops e) (inr (p, trial)) =
      boot-Trial run s o h p (paced p trial.pending) stops e trial
  Safe-Step _ _ (boot_raised run s x h e) safe =
      rw (boot_liveness_commit-raised repo run s.host h x e) safe
  Safe-Step _ _ (fire command s has) safe = fire-Safe command s has safe

  Safe-Reach : (s : System k) → Reach flag repo s → Safe s
  Safe-Reach _ (start h free unarmed) = inl (record {
    head = refl;
    whole_file = λ torn. ground (arith, free, torn);
    pending = λ p has. ground (arith, free, has);
    armed = λ c has. ground (arith, unarmed, has);
  })
  Safe-Reach _ (next s0 s r step) = Safe-Step s0 s step (Safe-Reach s0 r)

  pub self_reload_is_recoverable :
      (s : System k)
      → Reach flag repo s
      → ((c : RevertCommand) → s.host.armed ≡ some c → c.old_sha ≡ s.proven)
        × ((s.host.head ≡ s.proven) ⊎ (s.host.armed ≢ none))
  self_reload_is_recoverable s r = elim (Safe-Reach s r) [
    | inl settled ↦ (settled.armed, inl settled.head)
    | inr (p, trial) ↦ (
      λ c has. ground (arith, trial.armed, has),
      inr (λ unarmed. ground (arith, trial.armed, unarmed)),
    )
  ]
