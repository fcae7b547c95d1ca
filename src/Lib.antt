-- ===== src/Lib.antt =====
-- The Foundry: a model of the parts of internal/ that decide what a delivery run may do, with the
-- theorems that make them correct.
--
-- The program takes a plan, admits it at a tier of autonomy, runs its tasks with executors under
-- leases, validates what they produce, and supervises the runs. Each decision is a pure function of
-- the kernel; the workflows, the databases and the executors around them are I/O.
--
-- * State, State/Registry (internal/state): statuses, phases, reasons and result codes are texts, as in
--   the source; `validate` is Transition.Validate, `normalize_result_code` is NormalizeResultCode.
--   State/Graph has the transition graph and histories of accepted transitions, State/Codes the codes.
-- * Plan (internal/plan/schema.go, effects.go): a parsed plan document; `validate` is
--   Document.validate. Plan/Checked says what it accepts.
-- * Admission (internal/admission) and Admission/Detect (internal/admission/detect): `from_document` is
--   FromDocument, the effects that a plan's files and commands show; `classify` is Classify, which
--   takes the plan's declared effects and the detected ones to a tier, A0 to H. Floors, Discrepancy,
--   Detect/Irreversible and Gate have the theorems, from one rule to the whole path.
-- * Capability and Capability/Health (internal/executor/capability): records of executors, eligibility,
--   and HealthTracker, the circuit breaker (Health/Breaker).
-- * Kernel/Select (internal/kernel/executor_select.go): `select` is ExecutorSelector.Select,
--   `select_candidates` is SelectCandidates; both read the plan's task, the policy's allowlist and the
--   capability registry, the second also a health snapshot. Select/Chosen, Routed and Candidates.
-- * Kernel/Lease (internal/kernel/lease.go): MemLeaseStore as a map and a run of operations, in the
--   order that its mutex gives them; Lease/Fencing and Lease/Retired have its promises,
--   Lease/Postgres the UPSERT of PGLeaseStore.Acquire beside it.
-- * Deploy/Gate and Deploy/Quota (internal/deploy/gate.go, quota.go): EvaluateGate (Gate/Exact), and the usage that
--   QuotaEnforcer keeps within the quotas of each profile (Quota/Within).
-- * Pec/Waves (internal/pec/waves.go): `propose_waves` is ProposeWaves. Waves/Fuel shows that the rounds
--   it is given are enough, Layered and Placed that the waves respect the dependencies.
-- * Verify and Verify/Runner (internal/verify): `evaluate` is Evaluate, `run_commands` is Runner.Run
--   with the allowlist; Verify/Verdict and Verify/Honest say what a pass proves.
-- * Recovery/Signature, Retry, Blocked, Liveness, Supervisor (internal/recovery): the retry policy with
--   its jittered backoff, the PROVEN_BLOCKED verdict, the liveness conditions, and the supervisor's
--   scan, which classifies, repairs and escalates; Backoff and Supervisor/Confined have the theorems.
-- * Policy (internal/policy/compiler): `compile` is Compile, which folds the layers over the platform's;
--   Policy/Merge has the merge functions, Policy/Stricter, Compiled, Merging and Overlay what they allow,
--   Policy/Org the governance pack.
-- * Ledger (internal/ledger/extops/store.go, internal/ledger/reconcile.go): the table of external
--   operations, with Reserve, MarkExecuted, Reconcile and the Reconciler's RunOnce.
-- * Kernel/ExternalOp (internal/kernel/externalop.go): WithExternalOp over the ledger; a crash is a run
--   that stops between two of its steps, and a call that others overlap is one event for each step. Once
--   and Retried say what that means for a key.
-- * Kernel/Receipts (internal/kernel/idempotency.go): withReceipt over an interface of receipt stores,
--   which the memory store and the PostgreSQL store implement (Receipts/Stores); Refines takes the
--   abstract view, a function from keys to receipts.
-- * Kernel/ChangeSet (internal/kernel/changeset.go): `topo_order` is topoOrder, ChangeSet/Saga's
--   `run_change_set` is RunChangeSet. Ends and Covers have the theorems on the order,
--   Honest, Outcome and Run those on the saga.
-- * Kernel/Integrator (internal/kernel/integrator/integrator.go, drift.go): the queue of pushes of each
--   branch (Integrator/Fifo), ProcessItem with the calls it makes, and EvaluateDrift
--   (Integrator/Pushed).
-- * Mission/Portfolio (internal/mission/portfolio.go): missions under a cap of active ones, with
--   isolated budgets (Portfolio/Valid, Charged) and the fair scheduler (Portfolio/Fair, Turns).
--
-- The modules below Scenarios run these parts on concrete inputs.
--
-- Numbers are natural numbers, and times and durations count nanoseconds; a setting that is not
-- positive reads as 0 where the code only asks whether it is positive, and the retry policy's shift
-- is taken modulo 2 ^ 64 with its sign bit. Loops are structural recursions over their lists, but for
-- the rounds of ProposeWaves and of topoOrder, which run on fuel: a round for each id or alias, enough
-- since a round of ProposeWaves places one id at least and topoOrder takes an alias off its queue at
-- most once. Go maps are association lists (Prelude/Maps), and a loop over a map is modelled only
-- where its result is sorted afterwards (Prelude/Sort, by code points, which is the order of their bytes).
--
-- Parameters, since they are not code of the repository: strings.ToLower, TrimSpace and Fields,
-- filepath.Rel, the URL pattern of the detector, rand.Int63n, the tokens and ids drawn, clocks, digests,
-- the JSON of results, and the execution of commands and of side effects; notifiers, controllers, policy
-- views, lease acquirers, pushers and receipt stores are interfaces of the source. The statements of the
-- PostgreSQL stores (ON CONFLICT DO UPDATE, ON CONFLICT DO NOTHING, UPDATE with a condition) are read as
-- PostgreSQL documents them. Budgets and ceilings count a small unit of money.
--
-- Not modelled: YAML, logging, the HTTP surface, the PostgreSQL stores but for those statements, the
-- Temporal workflows and activities, the adapters of executors and git hosts, and the commands, which
-- are I/O; plan topology, the cost ledger, notifications and the evolution budgets, which are left
-- out so far.
pub mod Prelude
pub mod State
pub mod Verify
pub mod Recovery
pub mod Plan
pub mod Admission
pub mod Capability
pub mod Deploy
pub mod Pec
pub mod Policy
pub mod Ledger
pub mod Mission
pub mod Kernel
mod Scenarios
