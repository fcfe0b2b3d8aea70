-- ===== src/SelfReload/Host.antt =====
-- What anima/kernel/self_reload.py reads and changes: the commit that is checked out, the pending
-- state file, the revert timer, the worktrees of preflight and the audit chain. There is one timer,
-- since every snapshot names the same unit.
use anima.Systemd.{Stop, systemctl_stop}
use anima.Python.{◌>>◌, Action, raise_if, modify, self_reload_state_error, gets, pure}
use anima.Prelude.{none, String, Bool, ℕ, Option, List, refl, some, inl, inr, ◌≡◌, ◌⊎◌}
use anima.AuditChain.Crypto.{Crypto}
use anima.AuditChain.Log.{AuditChain}

pub record SelfReloadSnapshot : Type 0 where
  pub old_sha : String
  pub new_sha : String
  pub state_id : String

-- The record in pending.json.
pub record Pending : Type 0 where
  pub old_sha : String
  pub new_sha : String
  pub state_id : String
  pub armed_at : ℕ
  pub autonomous : Bool

-- The file: a record, or a text that is none, left by a write that failed.
pub data PendingFile : Type 0 where
  whole : Pending → PendingFile
  broken : PendingFile

pub file-cases :
    (file : Option PendingFile)
    → (file ≡ none) ⊎ (file ≡ some broken) ⊎ ((p : Pending) × (file ≡ some (whole p)))
file-cases none = inl refl
file-cases (some broken) = inr (inl refl)
file-cases (some (whole p)) = inr (inr (p, refl))

-- The command of the timer, `rawos-selfreload-revert {old_sha} {state_id}`.
pub record RevertCommand : Type 0 where
  pub old_sha : String
  pub state_id : String

pub record ReloadHost (k : Crypto) : Type 0 where
  pub head : String
  pub pending : Option PendingFile
  pub armed : Option RevertCommand
  pub worktrees : List String
  pub chain : AuditChain k

-- The git repository and the checks that run in a worktree, as far as they do not change.
pub record Repo : Type 0 where
  pub rev_parse_fails : String → Bool
  pub master : String
  pub is_ancestor : String → String → Bool
  pub diff : String → String → String → Option (List String)
  pub show : String → String → Option String
  pub digest : String → String
  pub worktree_fails : String → Bool
  pub imports : String → Bool
  pub smoke_tests : String → Bool

module _ {k : Crypto} where
  -- `_git_rev_parse` of HEAD and of master
  abbrev pub git_head : Repo → Action (ReloadHost k) String
  git_head repo = do
    raise_if (repo.rev_parse_fails "HEAD") self_reload_state_error
    gets (λ h. h.head)

  abbrev pub git_master : Repo → Action (ReloadHost k) String
  git_master repo = do
    raise_if (repo.rev_parse_fails "master") self_reload_state_error
    pure repo.master

  -- `sd.disarm`
  abbrev pub disarm : Stop → Action (ReloadHost k) Unit
  disarm = systemctl_stop (modify (λ h. record h { armed = none }))

  -- `state_path.unlink(missing_ok=True)`
  abbrev pub unlink : Action (ReloadHost k) Unit
  unlink = modify (λ h. record h { pending = none })
