-- ===== src/Lib.antt =====
-- Heptalogos runs a product host over a durable work queue in PostgreSQL. This library models the
-- parts that carry its correctness: the work queue, which schedules and fences the attempts of each
-- WorkItem; the effect operations, each of them one external effect that a handler asks for and its
-- adapter performs; the runtime kernel's plans, which start and stop micro systems, and its generation
-- fence, which admits calls to a Runtime generation and retires it; the registry of Services; the
-- hints that signals carry; and the lifecycle charts that the bootstrap packages show to the other
-- processes.
-- The functions have the source's names in snake_case.
--
-- Prelude and its children hold the shared names, Boolean tests, list lemmas, text equality and
-- calls that may throw (Except).
--
-- WorkQueue is packages/execution/work-queue/src.
--   Item: contracts.ts. The record WorkItem, with the columns that are written once in WorkSpec, the
--     states, retry classes and outcomes. Identifiers, instants and JSON values are already parsed:
--     texts and numbers.
--   Catalog: the queue profile catalog of contracts.ts, with parseMicroSystemId as a parameter.
--     Limits, Lookup: the proofs.
--   Row: parsePersistedWorkItem of repository.ts, check by check; a thrown problem is an `err`.
--   Constraints: the CHECK constraints of the table work_item, from
--     packages/data/canonical-schema/src/migrations/0001-foundation-baseline.ts, but for those on the
--     shapes of identifiers and the words of enumerations, which the columns' types meet. A statement
--     that would write a row outside them is refused as a thrown problem, port_failed.
--   Store: the work_item table as a list of rows, assertGuard, updateGuard, selectById, casOutcome,
--     applyCas and mutationContext. A statement acts on the whole table at once, and a transaction
--     that throws leaves the table as it was; that is what is assumed of PostgreSQL.
--   Updates, Mutations: the SET and WHERE clauses of markRunning, markWaitingDependency,
--     wakeDependency, markRetryWait, wakeDueRetry, requestCancel, requestSupersede and
--     commitTerminal. `mutate` is one call; `run_history` is a sequence of calls, which is how
--     concurrent actors appear, since each call is one transaction.
--   Guards, Lifecycle, Coherence, History, Claims, Storable, Totality: the proofs about `mutate`.
--   Insert: insertWorkItem and findNonTerminalDedup, with the partial unique index
--     work_item_dedup_unique and the primary key of the table. Unique, Answers: the proofs.
--   Admission: admission.ts, with the port's answers as they are before they are checked.
--   Scan: fair-scan.ts with selectLaneCeiling and selectLanePage. The order of the cursors is the
--     database's order of (timestamptz, uuid), a parameter, and the rows are held in that order.
--     The fuel of `scan_cycle` is one more than the number of rows of the lane.
--
-- Attempt is packages/execution/work-queue/src/attempt-executor.ts.
--   Ports: what the executor is given. The handler lease, the classifier, the lineage service, the
--     clock and the digest of an attempt are parameters without hypotheses. Before each call of the
--     repository the other actors may have made any history of calls (`others`).
--   Failure: resultForMutation, classifyFailure, cancellationOutcome and the two hooks.
--   Settle, Executor: `execute`, cut at its branches, with the table, the handler invocations and the
--     number of held reservations as explicit state.
--   Effects, Once: the proofs.
--   The abort signal of monitorCancellation is left out: it only asks the handler to stop.
--
-- Effect is packages/execution/effect-operation/src.
--   Operation: contracts.ts. An EffectOperation, its states and outcomes, and the checks of
--     parseEffectOperationRow. Identifiers, instants, canonical JSON and Problems are texts and
--     numbers.
--   Store, Calls: repository.ts. The effect_operation table is a function of the primary key; a
--     statement acts on one row, and a transaction whose body throws leaves the table as it was.
--     `run_history` is a sequence of transactions of any actors.
--   Adapter, Ports, Program, Service: service.ts. Lineage, evidence, the clock, the parsers and the
--     adapters are parameters; before each of the service's own transactions the other actors may
--     have made any history (`others`). The body of an Activity runs as it stands.
--   Steps, Coherent, Fenced, Later, Once: the proofs about transactions. Calling, Single, Actions, Reading, Recovery,
--     Alone, Ready, Outcome: those about the service. A theorem that reads back what the service
--     wrote assumes that a parser answers the identity it accepts.
--
-- Generation is packages/runtime/runtime-kernel/src/generation/generation-fence.ts.
--   Fence: GenerationFence with the closures of its reservations as records in a list, and every
--     entry point as an event. A call that runs in a reservation begins and settles in two events.
--   Counts, Sound, Steps: the invariant. Retirement, Runs: what follows over any events.
--
-- Kernel is packages/runtime/runtime-kernel/src: reconciliation and registry, with what they read of
-- model.
--   Model: model/contracts.ts and contract-compatibility.ts.
--   Resolve: the candidates of a plan and the loop that removes the unresolvable ones. Its fuel is one
--     more than the number of candidates, each round but the last removing one.
--   Graph: runtime-graph.ts. The sorting by identities (localeCompare) and the topological sort of
--     graphlib are parameters, with the hypotheses that sorting permutes and that the topological sort
--     lists each node once.
--   Plan: RuntimeReconciler.plan of reconciler.ts, pass by pass.
--   Registry: registry-store.ts and service-registry.ts. The shape check of an implementation and the
--     states of the fences are parameters. Select, Eligible, Unique: the proofs.
--   Resolved, Covered, Constructed, Members, Passes, TwoPasses, Distinct, Execution, Executable: the
--     proofs.
--
-- Signal is packages/execution/signal/src/hint-codec.ts.
--   Codec: the encoding and decoding of a hint. Canonical JSON, JSON.parse, the compiled schema, the
--     topic's pattern and the lengths of a text are parameters. RoundTrip: the proofs, of which the
--     round trip assumes that JSON.parse reads back canonical JSON and that the schema accepts a hint
--     of a valid topic.
--
-- Lifecycle is packages/bootstrap/host-ownership/src/host-lease-machine.ts and
-- packages/bootstrap/private-postgres/src/lifecycle-machine.ts.
--   Chart: the trackers over an interpreter of statecharts. XState is a parameter, with the
--     hypotheses that `can` tells whether the chart has a transition and that `transition` takes it.
--   HostLease, PrivatePostgres: the two charts.
--
-- A number of the source is a native natural number, bounded by the checks for safe integers that the
-- source makes. Not modelled: the query for due retries, the service and the reconciler of the work
-- queue, the capability and work handler registries and the supervisor of the runtime kernel, and the packages whose
-- work is input and output (processes, files, HTTP, providers, user interfaces).
pub mod Prelude
pub mod Signal
pub mod WorkQueue
pub mod Attempt
pub mod Kernel
pub mod Lifecycle
pub mod Generation
pub mod Effect
