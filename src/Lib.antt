-- ===== src/Lib.antt =====
-- The kernel of anima (anima/kernel) with the run registry and the rate limiter of its API: an
-- operator that changes its host by itself only where that was earned, only reversibly, and never
-- at the files, services and units its owner needs to get back in, and an audit chain that shows
-- tampering.
--
-- Code that changes state is a function from a state to a result and a new state (Python): what
-- was written before an exception stays written. The state is the host, whose interfaces (the
-- arch backend, the shell, git, systemd) are records of operations over any type of host states,
-- and the tables of the database, which are functions of their keys (Table). The laws that a
-- theorem needs of an interface are a record beside it.
--
-- TrackRecord is anima/kernel/track_record.py with the operator tables of anima/db/__init__.py:
-- `advance_state` is `_advance_state`, and the four get and update functions keep their names.
-- Arch is anima/kernel/arch/base.py; Arch.LinuxFiles is `LinuxFileOperator` of
-- anima/kernel/arch/linux.py over a disk, where path resolution and failing system calls are
-- parameters, and Arch.Paths is `os.path.normpath`.
-- Operator is anima/kernel/operator.py: Contract is `run_reversible_operation`; FileEdit,
-- ServiceAction and UnitTopology (anima/kernel/unit_topology.py) are the reversible operations;
-- below UnitTopology, Listing reads the unit names in the lines of a listing, Listed is about
-- them, and BootConfig is the check at boot; FileGate, ServiceGate and UnitGate are the entry
-- points `operate_on_*` and `execute_approved_*`, over the state of Operator.Kernel. A gate reads
-- the track record and, after a run of the contract, advances it.
-- AuditChain is anima/kernel/audit_chain.py: Log is the file and the object that appends to it,
-- Check is `verify`. A write that fails may leave nothing, its line, or a part of it. A field of
-- a record whose JSON is of another type than the code writes is left out of the model of a line.
-- Canonical JSON, SHA-256 and ECDSA signatures are the parameters of `Crypto`.
-- FrontDoor is anima/kernel/frontdoor.py: Entry is `decide_entry`, Install is
-- `install_with_deadman` and `commit`.
-- ReversibleApply is anima/kernel/reversible_apply.py. Its polling loop runs on fuel, `timeout_s`
-- rounds, which is enough since the poll interval is not zero.
--
-- Systemd is the `systemctl stop` of the disarm methods of SelfReload, PamOperator and
-- VenvOperator, which do not look at its exit status: it stops the timer, leaves it without a
-- word, or raises.
-- SelfReload is anima/kernel/self_reload.py: Preflight is `preflight_stage`, Swap is
-- `arm_and_swap` and `execute_owner_self_reload`, Boot is `boot_liveness_commit`, Gate is
-- `operate_on_self_reload` and the task `_self_reload_boot_commit_task` of anima/api/app.py,
-- Lifecycle and Earned are the sequences of these over time. A swap that returns has ended the
-- process. An arm that raises has armed nothing, and a failing reset has left HEAD. The probe
-- loop runs on fuel; with a clock that goes on by two seconds in each round (the interval of the
-- loop), half the seconds up to the deadline are enough.
-- PamOperator is anima/kernel/pam_operator.py: the state has the PAM files by path, and a
-- `PamRun` says how each write, the probe and systemd end. Edit follows the statements, Safety
-- has the results.
-- RunRegistry is anima/api/run_registry.py: `append_event`, `mark_done` and `subscriber_step` are
-- the regions between which coroutines change, Delivery is any interleaving of them, Ending the
-- subscriber alone. Lookup is the table of runs with `create` and `get`, in whole seconds.
-- RateLimiter is anima/middleware/rate_limiter.py over an interface to Redis, whose documented
-- behaviour is `IsRedis`.
-- AgentLoop is anima/kernel/agent_loop.py: Conversation has the messages and their compression,
-- Turns and Alternation what the cuts of the compression preserve; the generator `_run` is an
-- action on a `Session`, which keeps what was yielded and what was sent to the model, and Ending
-- and Sent are about all of a run. The model, the tools, the files and the callback are an
-- `Agent`, any of whose calls may raise. The rounds are counted down from `MAX_TOOL_ROUNDS`, so
-- that every run ends where the calls do.
-- OwnedResource is anima/kernel/owned_resource.py over a tree of files: Disk is what `Path` and
-- `shutil` do, Trash the collection, the restore and the reaper, the parent the boundary, the
-- floor and the two gates. A `TrashRun` says which paths `rmtree` fails to remove, moves stay
-- within one file system, and a path that is moved has no link above its last part.
-- VenvOperator is anima/kernel/venv_operator.py: an environment is a value at a place, a
-- `VenvRun` says how each command, rename, the ledger and systemd end, and `venv_root` and
-- `staging_root` are one directory, as by default. A removal whose errors are looked at leaves
-- all of its directory when it fails; one whose errors are ignored leaves what the run says.
-- Preflight, Swap, Boot and Gate are about the functions of these names.
-- DepLock is anima/kernel/dep_lock.py on lines of code points; Drift is about the comparison.
-- Billing is anima/billing.py with the functions of anima/db/__init__.py that it calls: the rows,
-- the quota and the recording of usage; Subscriptions has the calls of Stripe and the webhook,
-- Rows the lemmas on look-up and update of a row, Quota what one check and one record do,
-- Handlers what the handler of an event may change and Webhook what the whole call may, Budget
-- intents that overlap, Sessions what a checkout has asked for, and Checkout a checkout and its
-- webhook. Counts of tokens are natural numbers.
-- CapabilityGate is anima/kernel/capability_gate.py: `classify_tier`, and `pre_execute_gate`,
-- which appends to the audit chain.
-- Prelude has the names, Boolean tests and text functions that all parts share.
--
-- Not modelled: concurrency (each call is run to its end, but for the coroutines of the run
-- registry), the keys of the audit chain on disk, `splitlines` and the tables of Unicode (a
-- parameter says which characters beyond ASCII are letters), the argument lists of the boot
-- deadman, prices of models (they are floating-point numbers), log messages, and the other parts
-- of the repository (the HTTP routes, the tools, the database layer, the studies), which are
-- network, text and statistics or have not been reached.
pub mod Prelude
pub mod Python
pub mod Table
pub mod Systemd
pub mod TrackRecord
pub mod Arch
pub mod Operator
pub mod OwnedResource
pub mod AgentLoop
pub mod VenvOperator
pub mod DepLock
pub mod AuditChain
pub mod Billing
pub mod FrontDoor
pub mod ReversibleApply
pub mod CapabilityGate
pub mod SelfReload
pub mod RateLimiter
pub mod RunRegistry
pub mod PamOperator
