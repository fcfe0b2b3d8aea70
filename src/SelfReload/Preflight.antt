-- ===== src/SelfReload/Preflight.antt =====
-- `preflight_stage` of anima/kernel/self_reload.py.
use anima.Python.{
  ok, ◌>>=◌, ◌>>◌, Action, raise, raise_if, self_reload_state_error, self_reload_preflight_error,
  pure, self_reload_refusal, modify,
}
use anima.Prelude.{
  [], ◌∷◌, true, false, none, some, arith, String, List, Option, strip, Bool, or_default, str_eq,
  ◌≡◌, codes, contains, ◌||◌, not, inl, inr, Option-cases, eq_iff,
}
use anima.AuditChain.Crypto.{Crypto}
use anima.SelfReload.Host.{SelfReloadSnapshot, ReloadHost, Repo, git_head}

abbrev dependency_file : String
dependency_file = "pyproject.toml"

abbrev pub tier0_protected_files : List String
tier0_protected_files =
    "anima/kernel/self_reload.py" ∷ "anima/kernel/operator.py" ∷ "anima/kernel/pam_operator.py" ∷ []

-- The lines that are not blank.
unfoldable pub nonblank_lines : List String → List String
nonblank_lines [] = []
nonblank_lines (l ∷ ls) =
    let rest = nonblank_lines ls in elim (strip (codes l)) [ [] ↦ rest | c ∷ cs ↦ l ∷ rest ]

unfoldable pub touches_tier0 : List String → Bool
touches_tier0 [] = false
touches_tier0 (path ∷ paths) = contains tier0_protected_files path || touches_tier0 paths

abbrev pub is_empty : List String → Bool
is_empty [] = true
is_empty (x ∷ xs) = false

-- `_dependency_hash`: a file that git does not show counts as empty.
abbrev pub dependency_hash : Repo → String → String
dependency_hash repo sha = repo.digest (or_default (repo.show sha dependency_file) "")

abbrev without_first : List String → List String
without_first [] = []
without_first (w ∷ ws) = ws

-- The refusals of the docstring, and what the worktree has to show, as one condition.
pub record Accepts (repo : Repo) (old_sha new_sha : String) : Type 0 where
  pub forward : (str_eq old_sha new_sha || repo.is_ancestor old_sha new_sha) ≡ true
  pub changed : List String
  pub migrations : List String
  pub no_migration :
      (repo.diff old_sha new_sha "migrations/" ≡ some migrations) × (nonblank_lines migrations ≡ [])
  pub no_tier0 :
      (repo.diff old_sha new_sha "" ≡ some changed)
      × (touches_tier0 (nonblank_lines changed) ≡ false)
  pub same_dependencies : dependency_hash repo old_sha ≡ dependency_hash repo new_sha
  pub runs : (repo.imports new_sha ≡ true) × (repo.smoke_tests new_sha ≡ true)

module _ {k : Crypto} (repo : Repo) where
  abbrev lines_or_raise : Option (List String) → Action (ReloadHost k) (List String)
  lines_or_raise none = raise self_reload_state_error
  lines_or_raise (some ls) = pure (nonblank_lines ls)

  abbrev diff_paths : String → String → String → Action (ReloadHost k) (List String)
  diff_paths old_sha new_sha pathspec = lines_or_raise (repo.diff old_sha new_sha pathspec)

  abbrev verify_sha_ancestry : String → Action (ReloadHost k) Unit
  verify_sha_ancestry new_sha = do
    head_sha ← git_head repo
    raise_if (not (str_eq head_sha new_sha || repo.is_ancestor head_sha new_sha))
        self_reload_refusal

  -- `_WorktreeManager`: a worktree is made, and taken away whatever its checks do.
  abbrev create_worktree : String → Action (ReloadHost k) Unit
  create_worktree sha = do
    raise_if (repo.worktree_fails sha) self_reload_preflight_error
    modify (λ h. record h { worktrees = sha ∷ h.worktrees })

  abbrev remove_worktree : ReloadHost k → ReloadHost k
  remove_worktree h = record h { worktrees = without_first h.worktrees }

  abbrev staged_checks : String → Action (ReloadHost k) Unit
  staged_checks sha = do
    raise_if (not (repo.imports sha)) self_reload_preflight_error
    raise_if (not (repo.smoke_tests sha)) self_reload_preflight_error

  -- `try: … finally: worktree.remove(wt_path)`
  abbrev check_in_worktree : String → Action (ReloadHost k) Unit
  check_in_worktree sha = do
    create_worktree sha
    λ h. let (r, h') = staged_checks sha h in (r, remove_worktree h')

  unfoldable pub preflight_stage : String → String → Action (ReloadHost k) SelfReloadSnapshot
  preflight_stage new_sha state_id = do
    old_sha ← git_head repo
    verify_sha_ancestry new_sha
    migration_delta ← diff_paths old_sha new_sha "migrations/"
    raise_if (not (is_empty migration_delta)) self_reload_refusal
    all_changed ← diff_paths old_sha new_sha ""
    raise_if (touches_tier0 all_changed) self_reload_refusal
    raise_if (not (str_eq (dependency_hash repo old_sha) (dependency_hash repo new_sha)))
        self_reload_refusal
    check_in_worktree new_sha
    pure (record { old_sha = old_sha; new_sha = new_sha; state_id = state_id })

  -- Preflight changes nothing, whether it accepts or refuses.
  pub preflight_stage-state :
      (new_sha state_id : String) (h : ReloadHost k) → (preflight_stage new_sha state_id h).1 ≡ h
  unfolding preflight_stage
  preflight_stage-state new_sha state_id h = ground arith

  pub preflight_stage-Accepts :
      (new_sha state_id : String) (h h' : ReloadHost k) (snap : SelfReloadSnapshot)
      → preflight_stage new_sha state_id h ≡ (ok snap, h')
      → Accepts repo h.head new_sha
        × (snap ≡ record { old_sha = h.head; new_sha = new_sha; state_id = state_id })
  unfolding preflight_stage
  preflight_stage-Accepts new_sha state_id h h' snap e =
      elim (Option-cases (repo.diff h.head new_sha "migrations/")) [
        | inl m ↦ absurd (ground (arith, m, e))
        | inr (migrations, m) ↦ elim (Option-cases (repo.diff h.head new_sha "")) [
          | inl c ↦ absurd (ground (arith, m, c, e))
          | inr (changed, c) ↦ (
            record {
              forward = ground (arith, m, c, e);
              migrations = migrations;
              changed = changed;
              no_migration = ground (arith, m, c, e);
              no_tier0 = ground (arith, m, c, e);
              same_dependencies =
                  (eq_iff (dependency_hash repo h.head) (dependency_hash repo new_sha)).0
                    (ground (arith, m, c, e));
              runs = ground (arith, m, c, e);
            },
            ground (arith, m, c, e),
          )
        ]
      ]
