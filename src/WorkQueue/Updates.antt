-- ===== src/WorkQueue/Updates.antt =====
-- packages/execution/work-queue/src/repository.ts: the SET lists of the eight updates of work_item,
-- column by column, each CASE as it stands in the statement.
use heptalogos.Prelude.{
  ℕ, ◌+◌, Bool, true, false, ◌&&◌, not, String, Option, none, some, is_some, leb,
}
use heptalogos.WorkQueue.Item.{
  RetryClass, WorkItemState, pending, running, waiting_dependency, retry_wait, WorkItemOutcome,
  kind, outcome_retry_class, outcome_reason, WorkItem,
}

-- CASE WHEN cancel_requested_at IS NOT NULL … WHEN superseded_by IS NOT NULL … ELSE … END
abbrev pub by_intent {ℓ} : {A : Type ℓ} → WorkItem → A → A → A → A
by_intent w on_cancel on_supersede otherwise = elim w.cancel_requested_at [
  | some _ ↦ on_cancel
  | none ↦ elim w.superseded_by [ some _ ↦ on_supersede | none ↦ otherwise ]
]

-- CASE WHEN state IN ('PENDING', 'WAITING_DEPENDENCY', 'RETRY_WAIT') THEN … ELSE … END
abbrev pub is_parked : WorkItemState → Bool
is_parked pending = true
is_parked waiting_dependency = true
is_parked retry_wait = true
is_parked _ = false

abbrev pub by_parked {ℓ} : {A : Type ℓ} → WorkItem → A → A → A
by_parked w parked otherwise = elim (is_parked w.state) [ true ↦ parked | false ↦ otherwise ]

abbrev pub coalesce {ℓ} : {A : Type ℓ} → Option A → A → A
coalesce none d = d
coalesce (some a) d = a

-- cancel_requested_at IS NULL AND superseded_by IS NULL
unfoldable pub unrequested : WorkItem → Bool
unrequested w = not (is_some w.cancel_requested_at) && not (is_some w.superseded_by)

abbrev pub cancellation_code : WorkItem → String
cancellation_code w = coalesce w.cancellation_reason_code "cancellation-requested"

abbrev pub cancelled_as_requested : WorkItem → WorkItemOutcome
cancelled_as_requested w = WorkItemOutcome.cancelled (cancellation_code w)

abbrev pub superseded_as_requested : WorkItem → WorkItemOutcome
superseded_as_requested w = WorkItemOutcome.superseded "superseded-by-request" w.superseded_by

unfoldable pub set_running : String → ℕ → WorkItem → WorkItem
set_running attempt at w = record w {
  state = running;
  active_attempt_id = some attempt;
  state_reason_code = none;
  updated_at = at;
}

unfoldable pub set_waiting_dependency : ℕ → WorkItem → WorkItem
set_waiting_dependency at w = record w {
  state = waiting_dependency;
  state_reason_code = some "handler-unavailable";
  updated_at = at;
}

unfoldable pub set_woken : ℕ → WorkItem → WorkItem
set_woken at w = record w {
  state = pending;
  dispatch_revision = w.dispatch_revision + 1;
  state_reason_code = none;
  updated_at = at;
}

unfoldable pub set_retry_wait : RetryClass → String → ℕ → ℕ → WorkItem → WorkItem
set_retry_wait class reason not_before at w = record w {
  state = by_intent w WorkItemState.cancelled WorkItemState.superseded retry_wait;
  active_attempt_id = none;
  retry_class = by_intent w none none (some class);
  state_reason_code =
      by_intent w (some (cancellation_code w)) (some "superseded-by-request") (some reason);
  not_before = by_intent w w.not_before w.not_before (some not_before);
  outcome = by_intent w (some (cancelled_as_requested w)) (some (superseded_as_requested w)) none;
  updated_at = at;
}

unfoldable pub set_due : ℕ → WorkItem → WorkItem
set_due at w = record w {
  state = pending;
  dispatch_revision = w.dispatch_revision + 1;
  active_attempt_id = none;
  retry_class = none;
  state_reason_code = none;
  updated_at = at;
}

-- not_before IS NOT NULL AND not_before <= now
unfoldable pub is_due : ℕ → WorkItem → Bool
is_due now w = elim w.not_before [ none ↦ false | some t ↦ leb t now ]

unfoldable pub set_cancel : ℕ → String → WorkItem → WorkItem
set_cancel requested_at reason w = record w {
  state = by_parked w WorkItemState.cancelled w.state;
  retry_class = by_parked w none w.retry_class;
  state_reason_code = by_parked w (some reason) w.state_reason_code;
  cancel_requested_at = some requested_at;
  cancellation_reason_code = some reason;
  outcome = by_parked w (some (WorkItemOutcome.cancelled reason)) w.outcome;
  updated_at = requested_at;
}

unfoldable pub set_supersede : ℕ → String → WorkItem → WorkItem
set_supersede requested_at by w = record w {
  state = by_parked w WorkItemState.superseded w.state;
  retry_class = by_parked w none w.retry_class;
  state_reason_code = by_parked w (some "superseded-by-request") w.state_reason_code;
  superseded_by = some by;
  outcome =
      by_parked w (some (WorkItemOutcome.superseded "superseded-by-request" (some by))) w.outcome;
  updated_at = requested_at;
}

unfoldable pub set_terminal : WorkItemOutcome → ℕ → WorkItem → WorkItem
set_terminal o at w = record w {
  state = by_intent w WorkItemState.cancelled WorkItemState.superseded (kind o);
  active_attempt_id = none;
  retry_class = by_intent w none none (outcome_retry_class o);
  state_reason_code =
      by_intent w (some (cancellation_code w)) (some "superseded-by-request") (outcome_reason o);
  outcome =
      by_intent w (some (cancelled_as_requested w)) (some (superseded_as_requested w)) (some o);
  updated_at = at;
}
