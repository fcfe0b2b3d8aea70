-- ===== src/FrontDoor/Entry.antt =====
-- `decide_entry` of anima/kernel/frontdoor.py, with the audit file that it appends to.
use anima.Python.{ok, ◌>>◌, Action, modify, pure}
use anima.Prelude.{
  [], ◌∷◌, true, false, none, some, Option, String, Bool, str_eq, List, or_default, if◌then◌else◌,
  ◌≡◌, ◌++◌, not, ◌↔◌, ◌&&◌, ◌≢◌, refl, inl, inr, arith, Bool-cases, eq_refl, eq_iff,
}

pub data EntryActionKind : Type 0 where
  launch_chat passthrough fail_open_shell : EntryActionKind

pub record EntryAction : Type 0 where
  pub kind : EntryActionKind
  pub command : Option String

-- `ctx`; a missing key is `none`.
pub record LoginContext : Type 0 where
  pub ssh_original_command : Option String
  pub anima_healthy : Option Bool
  pub has_token : Option Bool

-- One JSON line.
pub data AuditLine : Type 0 where
  passed_through : String → AuditLine
  launched : AuditLine
  failed_open : (reason : String) → AuditLine

-- `_audit`: silent on failure.
abbrev audit : Bool → AuditLine → Action (List AuditLine) Unit
audit writable line = modify (λ lines. if writable then lines ++ line ∷ [] else lines)

unfoldable pub decide_entry : LoginContext → Bool → Action (List AuditLine) EntryAction
decide_entry ctx writable =
    let cmd = or_default ctx.ssh_original_command "" in
    let healthy = or_default ctx.anima_healthy false in
    let token = or_default ctx.has_token false in
    if not (str_eq cmd "")
    then (do
      audit writable (passed_through cmd)
      pure (record { kind = passthrough; command = some cmd }))
    else if healthy && token
    then (do audit writable launched; pure (record { kind = launch_chat; command = none }))
    else (do
      audit writable (failed_open (if healthy then "no_token" else "unhealthy"))
      pure (record { kind = fail_open_shell; command = none }))

-- The line that says what an action was.
abbrev pub says : AuditLine → EntryAction → Bool
says (passed_through c) a = elim a.kind [
  | passthrough ↦ str_eq c (or_default a.command "")
  | _ ↦ false
]
says launched a = elim a.kind [ launch_chat ↦ true | _ ↦ false ]
says (failed_open reason) a = elim a.kind [ fail_open_shell ↦ true | _ ↦ false ]

-- Every login gets an action, whether or not the audit file can be written: a command is passed
-- through as it is, the chat is launched exactly for an interactive login to a healthy service with
-- a token, and any other login gets a shell. One line that says so is appended to a writable audit
-- file, and an audit file that cannot be written stays as it was.
pub decide_entry_lem :
    (ctx : LoginContext) (writable : Bool) (lines : List AuditLine)
    → let cmd = or_default ctx.ssh_original_command "" in
      (a : EntryAction) × (line : AuditLine) × (decide_entry ctx writable lines
        ≡ (ok a, if writable then lines ++ line ∷ [] else lines))
      × (says line a ≡ true)
      × ((a.kind ≡ passthrough) ↔ (cmd ≢ ""))
      × ((a.kind ≡ launch_chat)
          ↔ ((cmd ≡ "") × (ctx.anima_healthy ≡ some true) × (ctx.has_token ≡ some true)))
      × ((a.kind ≡ passthrough) → a.command ≡ some cmd)
unfolding decide_entry
decide_entry_lem ctx writable lines =
    let cmd = or_default ctx.ssh_original_command "" in
    let healthy = or_default ctx.anima_healthy false in
    elim (Bool-cases (str_eq cmd "")) [
      | inr command ↦ (
        record { kind = passthrough; command = some cmd },
        passed_through cmd,
        ground (arith, command),
        eq_refl cmd,
        ground (arith, command, eq_iff cmd ""),
        ground (arith, command, eq_iff cmd ""),
        λ same. refl,
      )
      | inl interactive ↦ elim (Bool-cases (healthy && or_default ctx.has_token false)) [
        | inl ready ↦ (
          record { kind = launch_chat; command = none },
          launched,
          ground (arith, interactive, ready),
          refl,
          ground (arith, interactive, eq_iff cmd ""),
          ground (arith, interactive, ready, eq_iff cmd ""),
          λ same. cc,
        )
        | inr closed ↦ (
          record { kind = fail_open_shell; command = none },
          failed_open (if healthy then "no_token" else "unhealthy"),
          ground (arith, interactive, closed),
          refl,
          ground (arith, interactive, eq_iff cmd ""),
          ground (arith, interactive, closed, eq_iff cmd ""),
          λ same. cc,
        )
      ]
    ]
