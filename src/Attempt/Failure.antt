-- ===== src/Attempt/Failure.antt =====
-- packages/execution/work-queue/src/attempt-executor.ts: how a failure of the handler is classified,
-- and how an attempt reports what the repository did.
use Prim.Native.String.{len}
use heptalogos.Prelude.{ℕ, Bool, not, ◌||◌, String, Option, none, some, leb, if◌then◌else◌}
use heptalogos.WorkQueue.Item.{
  RetryClass, invalid, permanent, external_effect_uncertain, WorkItemState, waiting_dependency,
  retry_wait, WorkItemOutcome, WorkItem,
}
use heptalogos.WorkQueue.Row.{invalid_work_item, Result, ok, err, ◌>>◌}
use heptalogos.WorkQueue.Store.{MutationStatus, applied, stale, MutationResult, MutationAppliedHook}
use heptalogos.WorkQueue.Updates.{coalesce}
use heptalogos.Attempt.Ports.{
  Thrown, problem, exception, DecisionKind, unsupported, Ports, ActivityOutcome,
}

pub data ExecutionStatus : Type 0 where
  not_found terminal_replay stale_noop : ExecutionStatus
  -- `item.state as WorkAttemptExecutionStatus`
  reached : WorkItemState → ExecutionStatus

pub record ExecutionResult : Type 0 where
  pub status : ExecutionStatus
  pub item : Option WorkItem
  pub outcome : Option WorkItemOutcome

abbrev pub outcome_of : Option WorkItem → Option WorkItemOutcome
outcome_of none = none
outcome_of (some w) = w.outcome

unfoldable pub result_for_status : MutationStatus → Option WorkItem → Result ExecutionResult
result_for_status MutationStatus.not_found item =
    ok (record { status = ExecutionStatus.not_found; item = none; outcome = none })
result_for_status stale item = ok (record { status = stale_noop; item = item; outcome = none })
result_for_status MutationStatus.terminal item =
    ok (record { status = terminal_replay; item = item; outcome = outcome_of item })
result_for_status applied none = err invalid_work_item
result_for_status applied (some w) =
    ok (record { status = reached w.state; item = some w; outcome = w.outcome })

unfoldable pub result_for_mutation : MutationResult → Result ExecutionResult
unfolding result_for_status
result_for_mutation r = result_for_status r.status r.item

abbrev pub normalize_failure : Thrown → String
normalize_failure (problem code) = code
normalize_failure exception = "work.handler.exception"

-- A checked decision of the classifier.
pub data WorkErrorDecision : Type 0 where
  retry : RetryClass → String → ℕ → WorkErrorDecision
  terminal : RetryClass → String → WorkErrorDecision

-- A non-blank text of at most 256 bytes.
unfoldable pub safe_reason_code : Ports → Option String → Option String
safe_reason_code p none = none
safe_reason_code p (some s) = if p.is_blank s || not (leb (len s) 256) then none else some s

abbrev unclassified : WorkErrorDecision
unclassified = WorkErrorDecision.terminal permanent "work.failure.unclassified"

abbrev decide_kind : DecisionKind → RetryClass → String → Option ℕ → WorkErrorDecision
decide_kind DecisionKind.retry class reason none =
    WorkErrorDecision.terminal permanent "work.retry.not_before_required"
decide_kind DecisionKind.retry class reason (some at) = WorkErrorDecision.retry class reason at
decide_kind DecisionKind.terminal class reason at = WorkErrorDecision.terminal class reason
decide_kind unsupported class reason at = unclassified

abbrev decide_class :
    Option RetryClass → Option String → DecisionKind → Option ℕ → WorkErrorDecision
decide_class (some external_effect_uncertain) reason kind at =
    WorkErrorDecision.terminal invalid "work.external_effect_uncertain_unsupported"
decide_class (some class) (some reason) kind at = decide_kind kind class reason at
decide_class _ _ kind at = unclassified

-- classifyFailure: the classifier may throw, and every incoherent answer is terminal.
unfoldable pub classify_failure : Ports → WorkItem → Thrown → WorkErrorDecision
unfolding safe_reason_code
classify_failure p w e = elim (p.classify w (normalize_failure e)) [
  | none ↦ unclassified
  | some d ↦
      decide_class d.raw_retry_class (safe_reason_code p d.raw_reason_code) d.decision_kind
        d.raw_not_before
]

unfoldable pub cancellation_outcome : WorkItem → Option WorkItemOutcome
cancellation_outcome w = elim w.cancel_requested_at [
  | some at ↦
      some
        (WorkItemOutcome.cancelled (coalesce w.cancellation_reason_code "cancellation-requested"))
  | none ↦ elim w.superseded_by [
    | some by ↦ some (WorkItemOutcome.superseded "superseded-by-request" (some by))
    | none ↦ none
  ]
]

unfoldable pub outcome_for_activity : WorkItemState → ActivityOutcome
outcome_for_activity WorkItemState.succeeded = ActivityOutcome.succeeded
outcome_for_activity WorkItemState.cancelled = ActivityOutcome.cancelled
outcome_for_activity WorkItemState.superseded = ActivityOutcome.cancelled
outcome_for_activity _ = ActivityOutcome.failed

unfoldable pub complete_activity_hook : Ports → Option String → Bool → MutationAppliedHook
unfolding outcome_for_activity
complete_activity_hook p ref retain_before w =
    (if retain_before then p.retain_current else ok tt)
    >> p.complete_current (outcome_for_activity w.state) ref

abbrev outcome_reason_or : Option WorkItemOutcome → String → String
outcome_reason_or (some (WorkItemOutcome.failed class reason)) fallback = reason
outcome_reason_or (some (WorkItemOutcome.cancelled reason)) fallback = reason
outcome_reason_or (some (WorkItemOutcome.superseded reason by)) fallback = reason
outcome_reason_or _ fallback = fallback

-- The outcome and reference with which an attempt that ends early closes its Activity.
unfoldable pub early_completion :
    WorkItemState → Option WorkItemOutcome → String → ActivityOutcome × String
early_completion waiting_dependency o fallback = (ActivityOutcome.succeeded, "WAITING_DEPENDENCY")
early_completion retry_wait o fallback = (ActivityOutcome.succeeded, "RETRY_WAIT")
early_completion WorkItemState.failed (some (WorkItemOutcome.failed class reason)) fallback =
    (ActivityOutcome.failed, reason)
early_completion WorkItemState.cancelled (some (WorkItemOutcome.cancelled reason)) fallback =
    (ActivityOutcome.cancelled, reason)
early_completion WorkItemState.cancelled (some (WorkItemOutcome.superseded reason by)) fallback =
    (ActivityOutcome.cancelled, reason)
early_completion WorkItemState.cancelled o fallback = (ActivityOutcome.cancelled, fallback)
early_completion WorkItemState.superseded (some (WorkItemOutcome.cancelled reason)) fallback =
    (ActivityOutcome.cancelled, reason)
early_completion WorkItemState.superseded (some (WorkItemOutcome.superseded reason by)) fallback =
    (ActivityOutcome.cancelled, reason)
early_completion WorkItemState.superseded o fallback = (ActivityOutcome.cancelled, fallback)
early_completion _ o fallback = (ActivityOutcome.failed, fallback)

unfoldable pub early_activity_hook : Ports → String → MutationAppliedHook
unfolding early_completion
early_activity_hook p fallback w =
    let (outcome, ref) = early_completion w.state w.outcome fallback in
    p.retain_current >> p.complete_current outcome (some ref)
