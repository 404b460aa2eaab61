-- ===== src/WorkQueue/Item.antt =====
-- packages/execution/work-queue/src/contracts.ts: the durable WorkItem, its states, retry classes
-- and outcomes. An Instant is its number of milliseconds since the epoch; identities, digests and
-- canonical JSON are texts; an optional field is an Option.
use heptalogos.Prelude.{ℕ, Bool, true, false, String, Option, none, some}

pub data RetryClass : Type 0 where
  transient rate_limited dependency_unavailable not_configured : RetryClass
  policy_blocked invalid permanent external_effect_uncertain : RetryClass

unfoldable pub RetryClass-discrete : Discrete RetryClass
RetryClass-discrete = hlevel

pub data WorkItemState : Type 0 where
  pending running waiting_dependency retry_wait : WorkItemState
  waiting_restore_reconciliation succeeded failed cancelled superseded : WorkItemState

unfoldable pub WorkItemState-discrete : Discrete WorkItemState
WorkItemState-discrete = hlevel

abbrev pub same_state : WorkItemState → WorkItemState → Bool
same_state s t = elim (WorkItemState-discrete s t) [ yes _ ↦ true | no _ ↦ false ]

-- TERMINAL_STATES of repository.ts and attempt-executor.ts.
abbrev pub is_terminal : WorkItemState → Bool
is_terminal succeeded = true
is_terminal failed = true
is_terminal cancelled = true
is_terminal superseded = true
is_terminal _ = false

pub data RestoreReplayClass : Type 0 where
  reconcile_required restore_safe : RestoreReplayClass

pub data ConfigurationBinding : Type 0 where
  latest_compatible_at_attempt : ConfigurationBinding
  config_pinned : String → ConfigurationBinding

pub data WorkItemOutcome : Type 0 where
  succeeded : String → WorkItemOutcome
  failed : RetryClass → String → WorkItemOutcome
  cancelled : String → WorkItemOutcome
  superseded : String → Option String → WorkItemOutcome

-- The discriminant `kind` of an outcome, which is also the state that it ends in.
abbrev pub kind : WorkItemOutcome → WorkItemState
kind (WorkItemOutcome.succeeded v) = WorkItemState.succeeded
kind (WorkItemOutcome.failed c r) = WorkItemState.failed
kind (WorkItemOutcome.cancelled r) = WorkItemState.cancelled
kind (WorkItemOutcome.superseded r s) = WorkItemState.superseded

abbrev pub outcome_retry_class : WorkItemOutcome → Option RetryClass
outcome_retry_class (WorkItemOutcome.failed c r) = some c
outcome_retry_class _ = none

-- `"reasonCode" in outcome ? outcome.reasonCode : null`
abbrev pub outcome_reason : WorkItemOutcome → Option String
outcome_reason (WorkItemOutcome.succeeded v) = none
outcome_reason (WorkItemOutcome.failed c r) = some r
outcome_reason (WorkItemOutcome.cancelled r) = some r
outcome_reason (WorkItemOutcome.superseded r s) = some r

pub record WorkHandlerTarget : Type 0 where
  pub product_generation_id : String
  pub micro_system_id : String
  pub contribution_id : String
  pub package_generation_id : String
  pub payload_version : ℕ

-- The fields that are written once, when the item is inserted.
pub record WorkSpec : Type 0 where
  pub work_item_id : String
  pub handler : WorkHandlerTarget
  pub payload : String
  pub queue_profile_id : String
  pub resource_admission_class : String
  pub partition_key : Option String
  pub priority : ℕ
  pub dedup_key : Option String
  pub created_continuity_epoch_id : String
  pub lineage_context_ref : String
  pub configuration_binding : ConfigurationBinding
  pub restore_replay_class : RestoreReplayClass
  pub created_at : ℕ

-- WorkItem: the fields written once, and those that the repository's updates set.
pub record WorkItem : Type 0 where
  pub spec : WorkSpec
  pub open spec use *
  pub not_before : Option ℕ
  pub dispatch_revision : ℕ
  pub active_attempt_id : Option String
  pub state : WorkItemState
  pub retry_class : Option RetryClass
  pub state_reason_code : Option String
  pub cancel_requested_at : Option ℕ
  pub cancellation_reason_code : Option String
  pub superseded_by : Option String
  pub outcome : Option WorkItemOutcome
  pub updated_at : ℕ
