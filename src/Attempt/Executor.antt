-- ===== src/Attempt/Executor.antt =====
-- packages/execution/work-queue/src/attempt-executor.ts: `execute`, step by step. Each function is a
-- stretch of the source's `execute` up to its next branch; a stretch returns the shared state and
-- the result or the problem that it throws.
use heptalogos.Prelude.{
  ℕ, suc, Bool, false, not, ◌&&◌, ◌||◌, String, Option, none, some, ltb, ◌==◌, str_eq,
  if◌then◌else◌, is_some,
}
use heptalogos.WorkQueue.Item.{
  transient, invalid, WorkItemState-discrete, pending, running, is_terminal, same_state,
  WorkItemOutcome, WorkItem,
}
use heptalogos.WorkQueue.Row.{
  invalid_work_item, active_attempt_mismatch, handler_generation_missing, port_failed, Result, ok,
  err, is_positive_safe,
}
use heptalogos.WorkQueue.Store.{MutationAppliedHook, applied, stale, MutationResult, select_by_id}
use heptalogos.WorkQueue.Mutations.{
  Mutation, mark_running, mark_retry_wait, commit_terminal, run_history,
}
use heptalogos.Attempt.Ports.{
  Thrown, problem, exception, Outcome, returned, threw, Lease, Ports, read_item, wait_dependency,
  requested_commit, invalid_commit, not_due, reserve_wait, claim, raced_commit, World, perform,
}
use heptalogos.Attempt.Failure.{
  ExecutionStatus, ExecutionResult, terminal_replay, stale_noop, result_for_mutation,
  cancellation_outcome, early_activity_hook,
}
use heptalogos.Attempt.Settle.{
  Ran, perform_and_report, Attempt, expected_state_of, expected_attempt_of, wait_for_dependency,
  commit_early, run_handler, reason_of, release,
}

-- A claim that was not applied: a request that raced it ends the item, anything else is reported.
abbrev pub races : MutationResult → Option WorkItem
races r = elim r.status [
  | stale ↦ elim r.item [
    | none ↦ none
    | some w ↦ if same_state w.state pending then some w else none
  ]
  | _ ↦ none
]

unfoldable pub settle_lost_claim : Ports → MutationResult → World → Ran
unfolding perform_and_report cancellation_outcome WorkItemState-discrete
settle_lost_claim p r w = elim (races r) [
  | none ↦ (w, result_for_mutation r)
  | some row ↦ elim (cancellation_outcome row) [
    | none ↦ (w, result_for_mutation r)
    | some o ↦
        perform_and_report p raced_commit
          (commit_terminal row.work_item_id row.dispatch_revision pending none o
            (p.now raced_commit))
          (early_activity_hook p (reason_of o)) w
  ]
]

abbrev pub claimed_row : MutationResult → Option WorkItem
claimed_row r = elim r.status [ applied ↦ r.item | _ ↦ none ]

unfoldable pub settle_claimed :
    Ports → Lease → Attempt → String → MutationResult → World → Option WorkItem → Ran
unfolding run_handler settle_lost_claim
settle_claimed p l a payload r w (some row) = run_handler p l a row payload w
settle_claimed p l a payload r w none = settle_lost_claim p r (release w)

unfoldable pub settle_claim : Ports → Lease → Attempt → String → World × Result MutationResult → Ran
unfolding settle_claimed
settle_claim p l a payload (w, err e) = (release w, err e)
settle_claim p l a payload (w, ok r) = settle_claimed p l a payload r w (claimed_row r)

abbrev pub claim_of : Ports → Attempt → Mutation
claim_of p a = mark_running a.item.work_item_id a.item.dispatch_revision a.attempt (p.now claim)

abbrev pub claim_hook : Ports → MutationAppliedHook
claim_hook p row = p.retain_current

-- A recovered item keeps its claim; a pending one is claimed by markRunning.
unfoldable pub claim_and_run : Ports → Lease → Attempt → String → World → Ran
unfolding settle_claim perform
claim_and_run p l a payload w =
    if a.recovering
    then run_handler p l a a.item payload w
    else settle_claim p l a payload (perform p claim (claim_of p a) (claim_hook p) w)

abbrev pub is_retired : Thrown → Bool
is_retired (problem code) = str_eq code "runtime.generation.retired"
is_retired exception = false

-- `lease.reserveInvocation()` succeeded, or threw.
unfoldable pub settle_reservation :
    Ports → Lease → Attempt → String → World → Outcome (Unit {0}) → Ran
unfolding claim_and_run wait_for_dependency
settle_reservation p l a payload w (returned _) =
    claim_and_run p l a payload (record w { held_reservations = suc w.held_reservations })
settle_reservation p l a payload w (threw e) =
    if a.recovering
    then (w, err handler_generation_missing)
    else if is_retired e
    then wait_for_dependency p reserve_wait a w
    else (w, err port_failed)

unfoldable pub reserve_and_run : Ports → Lease → Attempt → String → World → Ran
unfolding settle_reservation
reserve_and_run p l a payload w = settle_reservation p l a payload w l.reserve_invocation

abbrev pub is_later : Option ℕ → ℕ → Option ℕ
is_later none now = none
is_later (some at) now = if ltb now at then some at else none

unfoldable pub run_when_due : Ports → Lease → Attempt → String → World → Ran
unfolding reserve_and_run perform_and_report
run_when_due p l a payload w = elim (is_later a.item.not_before (p.now not_due)) [
  | none ↦ reserve_and_run p l a payload w
  | some at ↦
      perform_and_report p not_due
        (mark_retry_wait a.item.work_item_id a.item.dispatch_revision (expected_state_of a)
          (expected_attempt_of a) transient "not-before-not-yet-due" at (p.now not_due))
        (early_activity_hook p "RETRY_WAIT") w
]

-- isPayloadDependencyProblem
abbrev pub is_payload_dependency : Thrown → Bool
is_payload_dependency (problem code) =
    str_eq code "runtime.work_handler.payload_version_unavailable"
    || str_eq code "runtime.generation.retired"
is_payload_dependency exception = false

abbrev pub payload_reason_code : Thrown → String
payload_reason_code (problem code) =
    if str_eq code "runtime.work_handler.payload_invalid"
    then code
    else "work.handler.payload_invalid"
payload_reason_code exception = "work.handler.payload_invalid"

-- A validated payload with no canonical form makes snapshotCanonicalJson throw a TypeError.
abbrev pub canonical_payload : Outcome (Option String) → Outcome String
canonical_payload (threw e) = threw e
canonical_payload (returned none) = threw exception
canonical_payload (returned (some v)) = returned v

unfoldable pub run_validated : Ports → Lease → Attempt → Outcome String → World → Ran
unfolding run_when_due wait_for_dependency commit_early
run_validated p l a (returned payload) w = run_when_due p l a payload w
run_validated p l a (threw e) w =
    if is_payload_dependency e
    then (if a.recovering
        then (w, err handler_generation_missing)
        else wait_for_dependency p wait_dependency a w)
    else commit_early p invalid_commit a (WorkItemOutcome.failed invalid (payload_reason_code e))
        (payload_reason_code e) w

-- The body of the attempt's Activity.
unfoldable pub run_activity : Ports → Option Lease → Attempt → World → Ran
unfolding run_validated commit_early wait_for_dependency cancellation_outcome
run_activity p lease a w = elim (cancellation_outcome a.item) [
  | some o ↦ commit_early p requested_commit a o (reason_of o) w
  | none ↦ elim lease [
    | none ↦ wait_for_dependency p wait_dependency a w
    | some l ↦
        run_validated p l a
          (canonical_payload (l.validate_payload a.item.handler.payload_version a.item.payload)) w
  ]
]

-- `requestedTerminal === undefined ? handlerRegistry.resolve(item.handler) : undefined`
abbrev pub leased : Ports → WorkItem → Option Lease
leased p item = elim (cancellation_outcome item) [ some o ↦ none | none ↦ p.resolve item.handler ]

abbrev pub same_text : Option String → String → Bool
same_text none s = false
same_text (some a) s = str_eq a s

abbrev pub attempt_of : Ports → WorkItem → Attempt
attempt_of p item = record {
  item = item;
  recovering = same_state item.state running;
  attempt = p.attempt_id item.work_item_id item.dispatch_revision;
}

-- A RUNNING item of another attempt.
abbrev pub is_mismatched : Attempt → Bool
is_mismatched a = a.recovering && not (same_text a.item.active_attempt_id a.attempt)

-- A RUNNING item without a request whose handler does not resolve.
abbrev pub is_unrecoverable : Ports → Attempt → Bool
is_unrecoverable p a =
    a.recovering && not (is_some (cancellation_outcome a.item)) && not (is_some (leased p a.item))

unfoldable pub run_attempt : Ports → WorkItem → World → Ran
unfolding run_activity cancellation_outcome WorkItemState-discrete
run_attempt p item w =
    let a = attempt_of p item in
    if is_mismatched a
    then (w, err active_attempt_mismatch)
    else if is_unrecoverable p a
    then (w, err handler_generation_missing)
    else run_activity p (leased p item) a w

abbrev pub replayed : WorkItem → ExecutionResult
replayed item = record { status = terminal_replay; item = some item; outcome = item.outcome }

abbrev pub outdated : WorkItem → ExecutionResult
outdated item = record { status = stale_noop; item = some item; outcome = none }

abbrev pub is_outdated : ℕ → WorkItem → Bool
is_outdated expected_revision item =
    not (item.dispatch_revision == expected_revision)
    || not (same_state item.state running || same_state item.state pending)

unfoldable pub execute_item : Ports → ℕ → WorkItem → World → Ran
unfolding run_attempt WorkItemState-discrete
execute_item p expected_revision item w =
    if is_terminal item.state
    then (w, ok (replayed item))
    else if is_outdated expected_revision item
    then (w, ok (outdated item))
    else run_attempt p item w

unfoldable pub execute_read : Ports → ℕ → Result (Option WorkItem) → World → Ran
unfolding execute_item
execute_read p rev (err e) w = (w, err e)
execute_read p rev (ok none) w =
    (w, ok (record { status = ExecutionStatus.not_found; item = none; outcome = none }))
execute_read p rev (ok (some item)) w = execute_item p rev item w

abbrev pub seen_by : Ports → World → World
seen_by p w = record w { table = run_history (p.others read_item) w.table }

unfoldable pub execute : Ports → String → ℕ → World → Ran
unfolding execute_read select_by_id
execute p id expected_revision w =
    if is_positive_safe expected_revision
    then execute_read p expected_revision (select_by_id id (seen_by p w).table) (seen_by p w)
    else (w, err invalid_work_item)
