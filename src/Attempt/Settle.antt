-- ===== src/Attempt/Settle.antt =====
-- packages/execution/work-queue/src/attempt-executor.ts: the repository calls that end an
-- attempt, and the execution of the handler with what follows it.
use Prim.Native.String.{len}
use heptalogos.Prelude.{◌-◌, Bool, String, ◌∷◌, Option, none, some, leb, if◌then◌else◌}
use heptalogos.WorkQueue.Item.{WorkItemState, pending, running, WorkItemOutcome, WorkItem}
use heptalogos.WorkQueue.Row.{Result, ◌>>=◌}
use heptalogos.WorkQueue.Store.{MutationResult, MutationAppliedHook}
use heptalogos.WorkQueue.Mutations.{
  Mutation, mark_waiting_dependency, mark_retry_wait, commit_terminal,
}
use heptalogos.Attempt.Ports.{
  Thrown, problem, Outcome, returned, threw, Lease, Ports, Site, retry_failure, commit_failure,
  commit_success, World, perform,
}
use heptalogos.Attempt.Failure.{
  ExecutionResult, result_for_mutation, classify_failure, complete_activity_hook,
  early_activity_hook, retry, terminal,
}

-- The state and the result, or the problem that was thrown.
abbrev pub Ran : Type 0
Ran = World × Result ExecutionResult

-- `resultForMutation(await options.repository.…)`
unfoldable pub report : World × Result MutationResult → Ran
report (w, r) = (w, r >>= result_for_mutation)

unfoldable pub perform_and_report : Ports → Site → Mutation → MutationAppliedHook → World → Ran
unfolding report perform
perform_and_report p site m hook w = report (perform p site m hook w)

-- What an attempt knows once its Activity runs: the item that it read, whether it recovers a RUNNING
-- item, and the attempt's identity.
pub record Attempt : Type 0 where
  pub item : WorkItem
  pub recovering : Bool
  pub attempt : String

abbrev pub expected_state_of : Attempt → WorkItemState
expected_state_of a = if a.recovering then running else pending

abbrev pub expected_attempt_of : Attempt → Option String
expected_attempt_of a = if a.recovering then some a.attempt else none

unfoldable pub wait_for_dependency : Ports → Site → Attempt → World → Ran
unfolding perform_and_report
wait_for_dependency p site a w =
    perform_and_report p site
      (mark_waiting_dependency a.item.work_item_id a.item.dispatch_revision (p.now site))
      (early_activity_hook p "WAITING_DEPENDENCY") w

unfoldable pub commit_early : Ports → Site → Attempt → WorkItemOutcome → String → World → Ran
unfolding perform_and_report
commit_early p site a o ref w =
    perform_and_report p site
      (commit_terminal a.item.work_item_id a.item.dispatch_revision (expected_state_of a)
        (expected_attempt_of a) o (p.now site))
      (early_activity_hook p ref) w

-- The `catch` around the handler's execution.
unfoldable pub settle_failure : Ports → Attempt → WorkItem → Thrown → World → Ran
unfolding perform_and_report
settle_failure p a row e w = elim (classify_failure p row e) [
  | retry class reason at ↦
      perform_and_report p retry_failure
        (mark_retry_wait row.work_item_id row.dispatch_revision running (some a.attempt) class
          reason at (p.now retry_failure))
        (complete_activity_hook p (some reason) a.recovering) w
  | terminal class reason ↦
      perform_and_report p commit_failure
        (commit_terminal row.work_item_id row.dispatch_revision running (some a.attempt)
          (WorkItemOutcome.failed class reason) (p.now commit_failure))
        (complete_activity_hook p (some reason) a.recovering) w
]

-- outputValue: no canonical form, or more bytes than allowed.
unfoldable pub output_value : Ports → Option String → Outcome String
output_value p none = threw (problem "work.outcome.invalid")
output_value p (some v) =
    if leb (len v) p.max_outcome_bytes then returned v else threw (problem "work.outcome.too_large")

unfoldable pub settle_outcome : Ports → Attempt → WorkItem → Outcome String → World → Ran
unfolding perform_and_report settle_failure
settle_outcome p a row (threw e) w = settle_failure p a row e w
settle_outcome p a row (returned v) w =
    perform_and_report p commit_success
      (commit_terminal row.work_item_id row.dispatch_revision running (some a.attempt)
        (WorkItemOutcome.succeeded v) (p.now commit_success))
      (complete_activity_hook p none a.recovering) w

abbrev pub checked_output : Ports → Outcome (Option String) → Outcome String
checked_output p (threw e) = threw e
checked_output p (returned v) = output_value p v

-- `reservation.execute` runs the handler once and settles the reservation, also when it throws.
unfoldable pub run_handler : Ports → Lease → Attempt → WorkItem → String → World → Ran
unfolding settle_outcome output_value
run_handler p l a row payload w =
    let ran =
      l.execute_handler row.work_item_id row.dispatch_revision row.handler.payload_version
        payload in
    settle_outcome p a row (checked_output p ran) (record w {
      invocations =
          record {
            work_item_id = row.work_item_id;
            dispatch_revision = row.dispatch_revision;
            attempt = a.attempt;
            payload = payload;
          }
          ∷ w.invocations;
      held_reservations = w.held_reservations - 1;
    })

abbrev pub reason_of : WorkItemOutcome → String
reason_of (WorkItemOutcome.succeeded v) = ""
reason_of (WorkItemOutcome.failed class reason) = reason
reason_of (WorkItemOutcome.cancelled reason) = reason
reason_of (WorkItemOutcome.superseded reason by) = reason

abbrev pub release : World → World
release w = record w { held_reservations = w.held_reservations - 1 }
