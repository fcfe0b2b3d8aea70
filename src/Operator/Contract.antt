-- ===== src/Operator/Contract.antt =====
-- `ReversibleOperation`, `OperationResult` and `run_reversible_operation` of
-- anima/kernel/operator.py.
use anima.Python.{ok, raised, ◌>>=◌, ◌>>◌, Action, try_except, pure, raise, operator_error, bind-ok}
use anima.Prelude.{
  true, false, none, some, arith, inl, inr, Option, Bool, is_none, String, ◌||◌, ◌≡◌, ◌⊎◌, ◌≢◌,
}

-- An operation on a host with states `W`. `capture` and `restore` are options, since the code asks
-- an object whether it has them.
pub record ReversibleOperation (W Snapshot : Type 0) : Type 0 where
  pub capture : Option (Action W Snapshot)
  pub apply : Action W Unit
  pub verify : Action W Bool
  pub restore : Option (Snapshot → Action W Unit)

pub record OperationResult : Type 0 where
  pub applied : Bool
  pub verified : Bool
  pub restored : Bool
  pub detail : String

abbrev pub kept : OperationResult
kept = record { applied = true; verified = true; restored = false; detail = "applied and verified" }

abbrev pub rolled_back : OperationResult
rolled_back = record {
  applied = true;
  verified = false;
  restored = true;
  detail = "verify failed — restored to pre-apply state";
}

-- An exception in `verify` counts as a failed verification.
abbrev pub verify_or_false : {W : Type 0} → Action W Bool → Action W Bool
verify_or_false verify = try_except verify (λ e. pure false)

verify_or_false-state :
    {W : Type 0} (verify : Action W Bool) (w : W) → (verify_or_false verify w).1 ≡ (verify w).1
verify_or_false-state verify w = ground arith

verify_or_false-true :
    {W : Type 0} (verify : Action W Bool) (w w' : W)
    → verify_or_false verify w ≡ (ok true, w')
    → verify w ≡ (ok true, w')
verify_or_false-true verify w w' h = ground arith

verify_or_false-false :
    {W : Type 0} (verify : Action W Bool) (w w' : W)
    → verify_or_false verify w ≡ (ok false, w')
    → verify w ≢ (ok true, w')
verify_or_false-false verify w w' h = ground arith

module _ {W Snapshot : Type 0} where
  abbrev settle : (Snapshot → Action W Unit) → Snapshot → Bool → Action W OperationResult
  settle restore snapshot true = pure kept
  settle restore snapshot false = do restore snapshot; pure rolled_back

  -- The body of the function below its guard.
  unfoldable pub run_contract :
      Action W Snapshot
      → Action W Unit
      → Action W Bool
      → (Snapshot → Action W Unit)
      → Action W OperationResult
  run_contract capture apply verify restore = do
    snapshot ← capture
    apply
    verified ← verify_or_false verify
    settle restore snapshot verified

  abbrev guarded :
      Option (Action W Snapshot)
      → Action W Unit
      → Action W Bool
      → Option (Snapshot → Action W Unit)
      → Action W OperationResult
  guarded (some capture) apply verify (some restore) = run_contract capture apply verify restore
  guarded none apply verify restore = raise operator_error
  guarded (some capture) apply verify none = raise operator_error

  unfoldable pub run_reversible_operation :
      ReversibleOperation W Snapshot → Action W OperationResult
  unfolding run_contract
  run_reversible_operation op = guarded op.capture op.apply op.verify op.restore

  -- An operation without both `capture` and `restore` is never run: the host is as before.
  pub irreversible_floor :
      (op : ReversibleOperation W Snapshot) (w : W)
      → is_none op.capture || is_none op.restore ≡ true
      → run_reversible_operation op w ≡ (raised operator_error, w)
  unfolding run_reversible_operation
  irreversible_floor op w h = ground arith

  -- How a run that returned got there: the states between its steps.
  pub record Ran (capture : Action W Snapshot) (apply : Action W Unit) (verify : Action W Bool)
      (restore : Snapshot → Action W Unit) (w w' : W) (r : OperationResult) : Type 0 where
    pub snapshot : Snapshot
    pub captured : W
    pub changed : W
    pub checked : W
    pub capture_ran : capture w ≡ (ok snapshot, captured)
    pub apply_ran : apply captured ≡ (ok tt, changed)
    pub verify_ran : checked ≡ (verify changed).1
    pub how :
        ((r ≡ kept) × (verify changed ≡ (ok true, checked)) × (w' ≡ checked))
        ⊎ ((r ≡ rolled_back)
            × (verify changed ≢ (ok true, checked))
            × (restore snapshot checked ≡ (ok tt, w')))

  settle-how :
      (verify : Action W Bool) (restore : Snapshot → Action W Unit) (s : Snapshot) (w2 w3 w' : W)
      (v : Bool) (r : OperationResult)
      → verify_or_false verify w2 ≡ (ok v, w3)
      → settle restore s v w3 ≡ (ok r, w')
      → (w3 ≡ (verify w2).1)
        × (((r ≡ kept) × (verify w2 ≡ (ok true, w3)) × (w' ≡ w3))
            ⊎ ((r ≡ rolled_back) × (verify w2 ≢ (ok true, w3)) × (restore s w3 ≡ (ok tt, w'))))
  settle-how verify restore s w2 w3 w' true r t h =
      let same = verify_or_false-state verify w2 in
      (ground (arith, same), inl (ground arith, verify_or_false-true verify w2 w3 t, ground arith))
  settle-how verify restore s w2 w3 w' false r t h =
      let same = verify_or_false-state verify w2 in
      let (u, w4, undone, last) = bind-ok (restore s) (λ _. pure rolled_back) w3 h in
      (
        ground (arith, same),
        inr (
          ground (arith, last),
          verify_or_false-false verify w2 w3 t,
          ground (arith, undone, last),
        ),
      )

  pub run_contract-Ran :
      (capture : Action W Snapshot) (apply : Action W Unit) (verify : Action W Bool)
      (restore : Snapshot → Action W Unit) (w w' : W) (r : OperationResult)
      → run_contract capture apply verify restore w ≡ (ok r, w')
      → Ran capture apply verify restore w w' r
  unfolding run_contract
  run_contract-Ran capture apply verify restore w w' r h =
      let (s, w1, c, rest) =
        bind-ok capture (λ s. apply >> (verify_or_false verify >>= settle restore s)) w h in
      let (u, w2, a, tail) =
        bind-ok apply (λ _. verify_or_false verify >>= settle restore s) w1 rest in
      let (v, w3, t, last) = bind-ok (verify_or_false verify) (settle restore s) w2 tail in
      let (checked, how) = settle-how verify restore s w2 w3 w' v r t last in
      record {
        snapshot = s;
        captured = w1;
        changed = w2;
        checked = w3;
        capture_ran = c;
        apply_ran = a;
        verify_ran = checked;
        how = how;
      }
