-- ===== src/Lib.antt =====
-- The core of Congeries: Runs and their state machine, the service that stores them, the call
-- context, the gateway for protected calls, the life cycle and the versions of Plugins, the Event
-- ledger, the validation and scheduling of Workflows, and the store of checkpoints.
--
-- Parts, with the code under src/congeries_core and the files here:
--   * runtime/errors.py is Runtime/Errors: `CoreError` and Python's own exceptions are values of
--     `Raised`, and a call that may raise returns a `Result`. Runtime/Outcome has the rules by which
--     proofs follow such code.
--   * runtime/scope.py is Runtime/Scope: `is_equal_or_descendant_of`, `require_narrower_than`, `depth`.
--   * runtime/run.py is Runtime/Run: the dataclasses and their `__post_init__` checks (Run, Attempts),
--     the factories (Create), and `RunStateMachine` (Machine; its methods in Machine/Phases,
--     Machine/Endings and Machine/Markers, named as in the source). Operations is the choice of a
--     method that RunService makes. History, Soundness and Lifecycle hold what is proved: the invariant
--     of a Run, the steps that are legal, and histories.
--   * runtime/context.py and runtime/control.py are Runtime/Context: `check_active`, `narrow`,
--     `for_child_run`.
--   * state/repository.py, state/service.py and state/session.py are State/Repository, State/Service
--     and State/Session. A method under a lock is one function from the state. State/Service has one
--     call from its read to its last write; State/Service/Interleaving has calls that overlap: other
--     calls run between the read and the write of each.
--   * policy/authorization.py is Policy/Access (requests, grants, decisions, `ActionRegistry`) and
--     Policy/Authorization (`AuthorizedDispatcher`, with the order of its effects).
--   * plugin/lifecycle.py is Plugin/Lifecycle (`discover`, `transition`, `mark_hook`) and
--     Plugin/Lifecycle/Leases (`acquire`, `release`), over Plugin/Model (plugin/model.py and
--     plugin/errors.py, without the order of versions). plugin/registry.py is Plugin/Registry:
--     `commit`, `unregister`.
--   * event/memory.py is Event/Memory: `InMemoryEventLedger` and `InMemoryEventSink`.
--   * workflow/model.py is Workflow/Definition and workflow/validation.py is Workflow/Validation:
--     `validate` and its steps in Nodes, Order, Reachability and Bindings, named as in the source;
--     Accepted, Whole and Driving hold what is proved of all steps. runtime/schema.py is
--     Runtime/Schema. The rounds of the two `while` loops are a fuel: the number of nodes for the
--     topological order, one more for the reachable nodes, and both are shown to be enough.
--   * workflow/scheduler.py is Workflow/Scheduler: `ready`, `next`, `mark_completed`. `drive` in
--     Workflow/Scheduler/Completion is the loop that a runtime runs around it; its count of rounds is
--     a fuel, and the number of nodes that are not completed is enough.
--   * checkpoint/model.py is Checkpoint/Model and checkpoint/store.py is Checkpoint/Store: `save`,
--     `load`, `delete`, and `list` with its cursors in Checkpoint/Store/Listing; Checkpoint/Registry is
--     `CheckpointStoreRegistry`. `all_pages` in Checkpoint/Store/Pages is a caller that follows the
--     cursors; its rounds are a fuel, and one more than there are checkpoints to list is enough.
--   * Prelude has what all share: tests on numbers, lists, equality as an interface, dictionaries.
--   * Tests has runs on concrete inputs and the theorems applied to them.
--
-- How they interact: RunService reads a Run from the repository, lets the state machine compute the
-- next one and writes it back with the version it expected. The gateway checks the call context,
-- asks the policy, and hands failures of its audits to RunService. Plugin leases and the ledger are
-- keyed by Run.
--
-- Numbers and times are natural numbers: times are only compared, versions and attempts only grow.
-- Identities are texts. Loops are structural recursion. Dictionaries are
-- association lists in insertion order.
--
-- What is a parameter: the Run publisher, the policy, the audit publisher, the handler of audit
-- failures and the protected operation (protocols that callers implement); the type of Plugin
-- manifests with its equality; the digests of leases, registrations, Events, checkpoints and
-- queries, which are hashes; the types of declarations and implementations; fresh ids and the
-- answers of the clock.
--
-- What is not modelled: to_data and from_data, the patterns that names must match, the constructor
-- checks of checkpoints, the threads behind CancellationToken, waiting (`wait_for_zero`), the
-- packages adapter, evaluation, harness, provider, skill and tool, the rest of checkpoint and of
-- workflow, the order of Plugin versions with their ranges, the resolution of Plugin dependencies,
-- the Plugin manager, and the Event dispatcher. That a Workflow is acyclic is a hypothesis on the
-- scheduler alone, which every Workflow that was validated meets.
pub mod Prelude
pub mod Runtime
pub mod State
pub mod Plugin
pub mod Policy
pub mod Event
pub mod Checkpoint
pub mod Workflow
mod Tests
