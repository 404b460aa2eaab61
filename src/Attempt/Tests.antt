-- ===== src/Attempt/Tests.antt =====
-- Concrete executions of an attempt, and its theorems at inputs that meet their hypotheses.
use heptalogos.Prelude.{◌≡◌, refl, inl, false, [], ◌∷◌, none, some}
use heptalogos.WorkQueue.Item.{WorkItemState, WorkItemOutcome, WorkItem}
use heptalogos.WorkQueue.Row.{ok}
use heptalogos.WorkQueue.Store.{Table, select_by_id}
use heptalogos.WorkQueue.Tests.{queued, running_cancelled, runs}
use heptalogos.Attempt.Ports.{returned, Lease, Ports, World, perform}
use heptalogos.Attempt.Failure.{
  result_for_status, result_for_mutation, classify_failure, cancellation_outcome,
  complete_activity_hook, outcome_for_activity, reached,
}
use heptalogos.Attempt.Settle.{
  report, perform_and_report, settle_outcome, settle_failure, output_value, run_handler,
}
use heptalogos.Attempt.Executor.{
  settle_claim, settle_claimed, claim_and_run, settle_reservation, reserve_and_run, run_when_due,
  run_validated, run_activity, run_attempt, execute_item, execute_read, execute, seen_by,
}
use heptalogos.Attempt.Effects.{Quiet}
use heptalogos.Attempt.Once.{ExecuteEnds, handler_once, requested_not_run}

abbrev sample_lease : Lease
sample_lease = record {
  validate_payload = λ v payload. returned (some payload);
  reserve_invocation = returned tt;
  execute_handler = λ id rev v payload. returned (some "7");
}

abbrev sample_ports : Ports
sample_ports = record {
  attempt_id = λ id rev. "a1";
  resolve = λ handler. some sample_lease;
  classify = λ w reason. none;
  is_blank = λ s. false;
  retain_current = ok tt;
  complete_current = λ outcome ref. ok tt;
  now = λ site. 150;
  others = λ site. [];
  max_outcome_bytes = 100;
}

abbrev world_of : Table → World
world_of t = record { table = t; invocations = []; held_reservations = 2 }

unfoldable executes : Unit {0}
unfolding runs execute execute_read execute_item run_attempt run_activity run_validated run_when_due
    reserve_and_run settle_reservation claim_and_run settle_claim settle_claimed run_handler
    settle_outcome settle_failure output_value perform_and_report report perform result_for_mutation
    result_for_status classify_failure cancellation_outcome complete_activity_hook
    outcome_for_activity select_by_id
executes = tt

abbrev succeeded_item : WorkItem
succeeded_item = record queued {
  state = WorkItemState.succeeded;
  outcome = some (WorkItemOutcome.succeeded "7");
  updated_at = 150;
}

-- A queued item is claimed, its handler runs once, and its outcome is committed.
queued_succeeds : execute sample_ports "w1" 1 (world_of (queued ∷ [])) ≡ (
  record {
    table = succeeded_item ∷ [];
    invocations =
        record { work_item_id = "w1"; dispatch_revision = 1; attempt = "a1"; payload = "{}" } ∷ [];
    held_reservations = 2;
  },
  ok (record {
    status = reached WorkItemState.succeeded;
    item = some succeeded_item;
    outcome = some (WorkItemOutcome.succeeded "7");
  }),
)
unfolding executes
queued_succeeds = refl

handler_once_example :
    ExecuteEnds sample_ports "w1" 1
      (world_of (queued ∷ []))
      (execute sample_ports "w1" 1 (world_of (queued ∷ [])))
handler_once_example = handler_once sample_ports "w1" 1 (world_of (queued ∷ []))

requested_found :
    select_by_id "w1" (seen_by sample_ports (world_of (running_cancelled ∷ []))).table
    ≡ ok (some running_cancelled)
unfolding executes
requested_found = refl

requested_not_run_example :
    Quiet
      (world_of (running_cancelled ∷ []))
      (execute sample_ports "w1" 1 (world_of (running_cancelled ∷ [])))
requested_not_run_example =
    requested_not_run sample_ports "w1" 1 (world_of (running_cancelled ∷ [])) requested_found
      (inl refl)
