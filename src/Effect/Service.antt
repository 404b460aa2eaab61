-- ===== src/Effect/Service.antt =====
-- packages/execution/effect-operation/src/service.ts: the operations of the service. The body of an
-- Activity runs as it stands.
use heptalogos.Prelude.{ℕ, Bool, true, false, String, ◌∷◌, Option, none, some, leb, if◌then◌else◌}
use heptalogos.Prelude.Except.{Except, return, throw, ◌>>=◌ as and_then, unless_throw}
use heptalogos.Effect.Operation.{
  EffectState, EffectOutcome, EffectRequest, EffectOperation, invalid_transition,
  invalid_request_version, invalid_request, reconciliation_unsupported, Result,
}
use heptalogos.Effect.Store.{Hit, required}
use heptalogos.Effect.Calls.{prepares, begins, completes, recovers, resolves}
use heptalogos.Effect.Adapter.{
  RawReceipt, RawProblem, RawResult, normalize_dispatch_result, EffectReconciliationResult,
  normalize_reconciliation_result, outcome_for_reconciliation,
}
use heptalogos.Effect.Ports.{
  preparing, admitting, completing, recovering, reconciling, Options, ExternalRequest,
  EffectDispatchPort, World, parsed, require_effect_operation_id, require_effect_kind,
  require_current, assert_port_kind, external_request, prepare_rest, recover_rest, begin_rest,
  complete_rest, reconcile_rest,
}
use heptalogos.Effect.Program.{Program, ◌>>=◌, lift, get, perform}

abbrev pub require_request_version : ℕ → Result (Unit {0})
require_request_version version = unless_throw (leb 1 version) invalid_request_version

-- The checks of `prepare`, in their order.
unfoldable pub prepare_input : Options → EffectRequest → Result EffectRequest
unfolding require_effect_operation_id require_effect_kind
prepare_input s input = and_then (require_effect_operation_id s input.effect_operation_id) (λ id.
    and_then (require_effect_kind s input.effect_kind) (λ kind.
      and_then (require_request_version input.request_version) (λ _.
        and_then (parsed invalid_request (s.snapshot_effect_request input.request)) (λ request.
          and_then (require_current s) (λ _. return (record {
            effect_operation_id = id;
            effect_kind = kind;
            request_version = input.request_version;
            request = request;
          }))))))

abbrev pub insert_request : Options → EffectRequest → Program Hit
insert_request s r =
    perform s preparing (prepares r s.lineage_context_ref (s.now preparing)) (prepare_rest s)

unfoldable pub prepare : Options → EffectRequest → Program Hit
unfolding prepare_input perform
prepare s input = lift (prepare_input s input) >>= insert_request s

-- Dispatch admission was durable, but the outcome was not canonically known.
abbrev pub recovery_detail : String
recovery_detail =
    "Dispatch admission was durable, but the external effect outcome was not canonically known"

abbrev pub recover_found :
    Options → String → EffectOperation → EffectState → Program EffectOperation
recover_found s id current EffectState.prepared = lift (throw invalid_transition)
recover_found s id current EffectState.dispatching = do
  recovered ←
      perform s recovering
        (recovers id (some (s.uncertain_problem recovery_detail)) (s.now recovering))
        (recover_rest s)
  lift (return recovered.operation)
recover_found s id current _ = lift (return current)

abbrev pub recovery_id : Options → String → Result String
recovery_id s effect_operation_id =
    and_then (require_effect_operation_id s effect_operation_id)
      (λ id. and_then (require_current s) (λ _. return id))

abbrev pub recover_current : Options → String → EffectOperation → Program EffectOperation
recover_current s id current = recover_found s id current current.state

abbrev pub recover_read : Options → String → Option EffectOperation → Program EffectOperation
recover_read s id found = lift (required found) >>= recover_current s id

abbrev pub recover_by : Options → String → Program EffectOperation
recover_by s id = get s id >>= recover_read s id

unfoldable pub recover_dispatch : Options → String → Program EffectOperation
unfolding require_effect_operation_id get perform
recover_dispatch s effect_operation_id = lift (recovery_id s effect_operation_id) >>= recover_by s

-- The lookup and the current-execution fence that `dispatch` and `reconcile` share.
abbrev pub check_found :
    Options
    → EffectDispatchPort
    → String
    → Option EffectOperation
    → Result (String × EffectOperation)
check_found s port id found = and_then (required found) (λ operation.
    and_then (assert_port_kind s operation port)
      (λ _. and_then (require_current s) (λ _. return (id, operation))))

unfoldable pub look_up : Options → String → EffectDispatchPort → Program (String × EffectOperation)
unfolding require_effect_operation_id get assert_port_kind
look_up s effect_operation_id port = do
  id ← lift (require_effect_operation_id s effect_operation_id)
  found ← get s id
  lift (check_found s port id found)

-- `catch`: the adapter failed after the admission.
abbrev pub caught : Options → Except (Unit {0}) (Option RawResult) → Option RawResult
caught s (return answer) = answer
caught s (throw _) = some (record {
  status = some "UNCERTAIN";
  receipt = RawReceipt.absent;
  problem =
      RawProblem.proper
        (s.uncertain_problem "The external adapter failed after dispatch admission");
})

-- The outcome of one dispatch attempt. An aborted signal concludes without a call.
unfoldable pub adapter_result :
    Options → String → EffectDispatchPort → Bool → EffectOperation → Result EffectOutcome
unfolding normalize_dispatch_result
adapter_result s id port true operation = return (EffectOutcome.failed s.aborted_problem)
adapter_result s id port false operation =
    normalize_dispatch_result s.uncertain_problem
      (caught s (port.call (external_request id operation)))

-- The call of the adapter, if it is made.
abbrev pub call_unless : Bool → ExternalRequest → World → World
call_unless true input w = w
call_unless false input w = record w { dispatches = input ∷ w.dispatches }

unfoldable pub call_adapter :
    Options → String → EffectDispatchPort → Bool → EffectOperation → Program EffectOutcome
unfolding adapter_result
call_adapter s id port aborted operation w = (
  call_unless aborted (external_request id operation) w,
  adapter_result s id port aborted operation,
)

abbrev pub outcome_status : EffectOutcome → String
outcome_status (EffectOutcome.succeeded receipt) = "SUCCEEDED"
outcome_status (EffectOutcome.failed problem) = "FAILED"
outcome_status (EffectOutcome.uncertain problem) = "UNCERTAIN"

abbrev pub dispatch_admitted :
    Options → String → EffectDispatchPort → Bool → EffectOperation → Program EffectOperation
dispatch_admitted s id port aborted operation = do
  outcome ← call_adapter s id port aborted operation
  completed ←
      perform s completing (completes (s.token completing) id outcome (s.now completing))
        (complete_rest s (outcome_status outcome))
  lift (return completed.operation)

abbrev pub dispatch_if_admitted :
    Options → String → EffectDispatchPort → Bool → Hit → Program EffectOperation
dispatch_if_admitted s id port aborted admission =
    if admission.hit
    then dispatch_admitted s id port aborted admission.operation
    else lift (return admission.operation)

abbrev pub dispatch_found :
    Options
    → String
    → EffectDispatchPort
    → Bool
    → EffectOperation
    → EffectState
    → Program EffectOperation
dispatch_found s id port aborted operation EffectState.prepared = do
  admission ← perform s admitting (begins (s.token admitting) id (s.now admitting)) (begin_rest s)
  dispatch_if_admitted s id port aborted admission
dispatch_found s id port aborted operation _ = lift (return operation)

unfoldable pub dispatch : Options → String → EffectDispatchPort → Bool → Program EffectOperation
unfolding look_up perform call_adapter
dispatch s effect_operation_id port aborted =
    look_up s effect_operation_id port >>= λ r. dispatch_found s r.0 port aborted r.1 r.1.state

-- A thrown or unreadable observation is UNKNOWN.
abbrev pub read_observation : Result EffectReconciliationResult → EffectReconciliationResult
read_observation (return observation) = observation
read_observation (throw problem) = EffectReconciliationResult.unknown

abbrev pub read_answer : Except (Unit {0}) (Option RawResult) → Result EffectReconciliationResult
read_answer (return answer) = normalize_reconciliation_result answer
read_answer (throw _) = return EffectReconciliationResult.unknown

unfoldable pub observe_effect :
    (ExternalRequest → Except (Unit {0}) (Option RawResult))
    → Bool
    → String
    → EffectOperation
    → EffectReconciliationResult
unfolding normalize_reconciliation_result
observe_effect observe true id operation = EffectReconciliationResult.unknown
observe_effect observe false id operation =
    read_observation (read_answer (observe (external_request id operation)))

abbrev pub reconcile_by :
    Options
    → String
    → Option (ExternalRequest → Except (Unit {0}) (Option RawResult))
    → Bool
    → EffectOperation
    → Program EffectOperation
reconcile_by s id none aborted operation = lift (throw reconciliation_unsupported)
reconcile_by s id (some observe) aborted operation =
    let observation = observe_effect observe aborted id operation in
    do
      resolved ←
          perform s reconciling
            (resolves id (outcome_for_reconciliation observation) (s.now reconciling))
            (reconcile_rest s observation)
      lift (return resolved.operation)

abbrev pub reconcile_found :
    Options
    → String
    → EffectDispatchPort
    → Bool
    → EffectOperation
    → EffectState
    → Program EffectOperation
reconcile_found s id port aborted operation EffectState.uncertain =
    reconcile_by s id port.observe aborted operation
reconcile_found s id port aborted operation _ = lift (return operation)

unfoldable pub reconcile : Options → String → EffectDispatchPort → Bool → Program EffectOperation
unfolding look_up perform observe_effect
reconcile s effect_operation_id port aborted =
    look_up s effect_operation_id port >>= λ r. reconcile_found s r.0 port aborted r.1 r.1.state
