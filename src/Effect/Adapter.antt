-- ===== src/Effect/Adapter.antt =====
-- packages/execution/effect-operation/src/service.ts: what an adapter answers, and how it is read. An
-- answer that is no record is none; of a record, the fields that the service reads.
use heptalogos.Prelude.{String, Option, none, some, str_eq, if◌then◌else◌}
use heptalogos.Prelude.Except.{return, throw, ◌>>=◌}
use heptalogos.Effect.Operation.{EffectOutcome, invalid_row, Result}
use heptalogos.Effect.Store.{DefiniteOutcome}

-- The receipt is absent, has no canonical form, or has one.
pub data RawReceipt : Type 0 where
  absent non_canonical : RawReceipt
  canonical : String → RawReceipt

-- The problem is absent, a text that is no JSON, no Problem, or one.
pub data RawProblem : Type 0 where
  absent unreadable improper : RawProblem
  proper : String → RawProblem

pub record RawResult : Type 0 where
  pub status : Option String
  pub receipt : RawReceipt
  pub problem : RawProblem

pub data ReadReceipt : Type 0 where
  valid : Option String → ReadReceipt
  invalid : ReadReceipt

abbrev pub normalize_receipt : RawReceipt → ReadReceipt
normalize_receipt RawReceipt.absent = valid none
normalize_receipt RawReceipt.non_canonical = invalid
normalize_receipt (RawReceipt.canonical text) = valid (some text)

-- normalizeEffectProblem: `decodedJson` throws on a text that is no JSON.
abbrev pub normalize_problem : RawProblem → Result (Option String)
normalize_problem RawProblem.absent = return none
normalize_problem RawProblem.unreadable = throw invalid_row
normalize_problem RawProblem.improper = return none
normalize_problem (RawProblem.proper text) = return (some text)

-- uncertainOutcome: `problem_of` makes the problem of a detail.
abbrev pub uncertain_outcome : (String → String) → String → EffectOutcome
uncertain_outcome problem_of detail = EffectOutcome.uncertain (some (problem_of detail))

abbrev pub succeeded_outcome : (String → String) → ReadReceipt → EffectOutcome
succeeded_outcome problem_of (valid receipt) = EffectOutcome.succeeded receipt
succeeded_outcome problem_of invalid =
    uncertain_outcome problem_of "The effect adapter returned a non-canonical receipt"

abbrev pub failed_outcome : (String → String) → Option String → EffectOutcome
failed_outcome problem_of none =
    uncertain_outcome problem_of "The effect adapter did not provide definitive failure evidence"
failed_outcome problem_of (some problem) = EffectOutcome.failed problem

abbrev pub normalize_status : (String → String) → Option String → RawResult → Result EffectOutcome
normalize_status problem_of none result =
    return (uncertain_outcome problem_of "The effect adapter returned no definitive outcome")
normalize_status problem_of (some status) result =
    if str_eq status "SUCCEEDED"
    then return (succeeded_outcome problem_of (normalize_receipt result.receipt))
    else if str_eq status "FAILED"
    then (normalize_problem result.problem >>= λ problem.
        return (failed_outcome problem_of problem))
    else if str_eq status "UNCERTAIN"
    then (normalize_problem result.problem >>= λ problem. return (EffectOutcome.uncertain problem))
    else return
        (uncertain_outcome problem_of "The effect adapter returned an unsupported outcome status")

unfoldable pub normalize_dispatch_result :
    (String → String) → Option RawResult → Result EffectOutcome
normalize_dispatch_result problem_of none =
    return (uncertain_outcome problem_of "The effect adapter returned no definitive outcome")
normalize_dispatch_result problem_of (some result) =
    normalize_status problem_of result.status result

pub data EffectReconciliationResult : Type 0 where
  succeeded : Option String → EffectReconciliationResult
  failed : String → EffectReconciliationResult
  unknown : EffectReconciliationResult

abbrev pub succeeded_observation : ReadReceipt → EffectReconciliationResult
succeeded_observation (valid receipt) = EffectReconciliationResult.succeeded receipt
succeeded_observation invalid = EffectReconciliationResult.unknown

abbrev pub failed_observation : Option String → EffectReconciliationResult
failed_observation none = EffectReconciliationResult.unknown
failed_observation (some problem) = EffectReconciliationResult.failed problem

abbrev pub observe_status : Option String → RawResult → Result EffectReconciliationResult
observe_status none result = return EffectReconciliationResult.unknown
observe_status (some status) result =
    if str_eq status "UNKNOWN"
    then return EffectReconciliationResult.unknown
    else if str_eq status "SUCCEEDED"
    then return (succeeded_observation (normalize_receipt result.receipt))
    else if str_eq status "FAILED"
    then (normalize_problem result.problem >>= λ problem. return (failed_observation problem))
    else return EffectReconciliationResult.unknown

unfoldable pub normalize_reconciliation_result :
    Option RawResult → Result EffectReconciliationResult
normalize_reconciliation_result none = return EffectReconciliationResult.unknown
normalize_reconciliation_result (some result) = observe_status result.status result

abbrev pub outcome_for_reconciliation : EffectReconciliationResult → Option DefiniteOutcome
outcome_for_reconciliation (EffectReconciliationResult.succeeded receipt) =
    some (DefiniteOutcome.succeeded receipt)
outcome_for_reconciliation (EffectReconciliationResult.failed problem) =
    some (DefiniteOutcome.failed problem)
outcome_for_reconciliation EffectReconciliationResult.unknown = none
