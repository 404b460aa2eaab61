-- ===== src/Effect/Operation.antt =====
-- packages/execution/effect-operation/src/contracts.ts: an EffectOperation, and the checks that every
-- row read back from effect_operation passes. Identifiers, instants, canonical JSON values and Problems
-- are already parsed: texts and numbers.
use heptalogos.Prelude.{ℕ, Bool, not, ◌&&◌, String, Option, none, some, leb, is_some}
use heptalogos.Prelude.Except.{Except, return, ◌>>◌, unless_throw}

pub data EffectState : Type 0 where
  prepared dispatching succeeded failed uncertain : EffectState

pub data EffectOutcome : Type 0 where
  succeeded : Option String → EffectOutcome
  failed : String → EffectOutcome
  uncertain : Option String → EffectOutcome

-- What does not change after the preparation.
pub record EffectRequest : Type 0 where
  pub effect_operation_id : String
  pub effect_kind : String
  pub request_version : ℕ
  pub request : String

pub record EffectOperation : Type 0 where
  pub prepared_request : EffectRequest
  pub open prepared_request use *
  pub state : EffectState
  pub lineage_context_ref : String
  pub dispatch_host_ownership_token : Option String
  pub outcome : Option EffectOutcome
  pub created_at : ℕ
  pub updated_at : ℕ

pub data EffectProblem : Type 0 where
  invalid_row identity_conflict not_found invalid_transition host_fence : EffectProblem
  invalid_id invalid_kind invalid_request_version invalid_request : EffectProblem
  context_required kind_mismatch reconciliation_unsupported port_failed : EffectProblem

abbrev pub Result : Type 0 → Type 0
Result = Except EffectProblem

abbrev pub status_of : EffectOutcome → EffectState
status_of (EffectOutcome.succeeded receipt) = EffectState.succeeded
status_of (EffectOutcome.failed problem) = EffectState.failed
status_of (EffectOutcome.uncertain problem) = EffectState.uncertain

-- normalizedOutcome: an outcome of another status is read as none.
abbrev pub normalized_outcome : EffectState → Option EffectOutcome → Option EffectOutcome
normalized_outcome EffectState.succeeded (some (EffectOutcome.succeeded receipt)) =
    some (EffectOutcome.succeeded receipt)
normalized_outcome EffectState.failed (some (EffectOutcome.failed problem)) =
    some (EffectOutcome.failed problem)
normalized_outcome EffectState.uncertain (some (EffectOutcome.uncertain problem)) =
    some (EffectOutcome.uncertain problem)
normalized_outcome _ _ = none

-- The token and the normalized outcome that each state has.
abbrev pub is_fitting : EffectState → Option String → Option EffectOutcome → Bool
is_fitting prepared token outcome = not (is_some token) && not (is_some outcome)
is_fitting dispatching token outcome = is_some token && not (is_some outcome)
is_fitting _ token outcome = is_some token && is_some outcome

unfoldable pub parse_effect_operation_row : EffectOperation → Result EffectOperation
parse_effect_operation_row w =
    let outcome = normalized_outcome w.state w.outcome in
    do
      unless_throw (leb 1 w.request_version) invalid_row
      unless_throw (is_fitting w.state w.dispatch_host_ownership_token outcome) invalid_row
      return (record w { outcome = outcome })
