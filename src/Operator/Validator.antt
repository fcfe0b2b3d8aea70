-- ===== src/Operator/Validator.antt =====
-- `run_validator` of anima/kernel/operator.py. The shell is a parameter: it runs a command on the
-- host and reports its exit code and output, or that it timed out.
use anima.Python.{ok, bind-ok, bind-of-ok, ◌>>=◌, Action, pure}
use anima.Prelude.{
  true, false, arith, ℕ, String, Bool, if◌then◌else◌, ◌==◌, ◌≡◌, concat, inl, inr, Bool-cases, ◌∙◌,
  ap,
}

pub data Completed : Type 0 where
  timed_out : Completed
  finished : (returncode : ℕ) (stdout stderr : String) → Completed

abbrev pub Shell : Type 0 → Type 0
Shell W = String → Action W Completed

pub record ValidatorResult : Type 0 where
  pub passed : Bool
  pub output : String

abbrev judge : Completed → ValidatorResult
judge timed_out = record { passed = false; output = "validator timed out" }
judge (finished code stdout stderr) =
    if code == 0
    then record { passed = true; output = "" }
    else record { passed = false; output = concat stdout stderr }

module _ {W : Type 0} (shell : Shell W) where
  -- The command, run on a host, finishes with exit code 0.
  abbrev pub Passes : String → W → Type 0
  Passes cmd w = (out err : String) × (w' : W) × (shell cmd w ≡ (ok (finished 0 out err), w'))

  unfoldable pub run_validator : String → Action W ValidatorResult
  run_validator validator_cmd = do result ← shell validator_cmd; pure (judge result)

  -- Running a validator changes what running its command changes.
  pub run_validator-state : (cmd : String) (w : W) → (run_validator cmd w).1 ≡ (shell cmd w).1
  unfolding run_validator
  run_validator-state cmd w = ground arith

  judge-passed :
      (c : Completed) → (judge c).passed ≡ true → (out err : String) × (c ≡ finished 0 out err)
  judge-passed timed_out h = ground (arith, h)
  judge-passed (finished code out err) h = elim (Bool-cases (code == 0)) [
    | inl e ↦ (out, err, ground (arith, e))
    | inr e ↦ ground (arith, e, h)
  ]

  pub run_validator-Passes :
      (cmd : String) (w w' : W) (r : ValidatorResult)
      → run_validator cmd w ≡ (ok r, w')
      → r.passed ≡ true
      → Passes cmd w
  unfolding run_validator
  run_validator-Passes cmd w w' r h good =
      let (c, t, ran, done) = bind-ok (shell cmd) (λ c. pure (judge c)) w h in
      let (out, err, e) = judge-passed c (ground (arith, done, good)) in
      (out, err, t, ran ∙ ap (λ c. (ok c, t)) e)

  pub Passes-run_validator :
      (cmd : String) (w : W) (p : Passes cmd w)
      → run_validator cmd w ≡ (ok (record { passed = true; output = "" }), p.2)
  unfolding run_validator
  Passes-run_validator cmd w (out, err, w', e) = bind-of-ok (shell cmd) (λ c. pure (judge c)) e
