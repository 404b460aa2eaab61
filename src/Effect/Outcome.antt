-- ===== src/Effect/Outcome.antt =====
-- packages/execution/effect-operation/src/service.ts: what `dispatch` leaves behind for an effect that
-- `prepare` inserted, with no other actor in between.
use heptalogos.Prelude.{◌≡◌, ap, ◌∙◌, false, ◌∷◌, some}
use heptalogos.Prelude.Except.{return, throw, ◌>>=◌ as and_then}
use heptalogos.Effect.Operation.{invalid_row}
use heptalogos.Effect.Calls.{completes}
use heptalogos.Effect.Adapter.{
  RawProblem, RawResult, normalize_problem, normalize_status, failed_outcome,
  normalize_dispatch_result,
}
use heptalogos.Effect.Ports.{
  completing, Options, EffectDispatchPort, World, external_request, complete_rest,
}
use heptalogos.Effect.Program.{proceed, ◌>>=◌, lift, perform}
use heptalogos.Effect.Service.{caught, adapter_result, outcome_status, dispatch}
use heptalogos.Effect.Once.{put_row-same}
use heptalogos.Effect.Ready.{Ready, admitted_operation, if_dispatched, called}

-- For a PREPARED effect with no other actor in between, a FAILED answer whose problem is a text that
-- is no JSON is not read as UNCERTAIN: `dispatch` throws after the adapter was called, and leaves the
-- effect DISPATCHING with no outcome.
pub dispatch_unreadable :
    (s : Options) (port : EffectDispatchPort) (w : World) (r : Ready s port w) (result : RawResult)
    → port.call (external_request r.input.effect_operation_id (admitted_operation s port w r))
      ≡ return (some result)
    → result.status ≡ some "FAILED"
    → result.problem ≡ RawProblem.unreadable
    → let ran = dispatch s r.input.effect_operation_id port false w in
      (ran.1 ≡ throw invalid_row)
      × (ran.0.table r.input.effect_operation_id ≡ some (admitted_operation s port w r))
      × (ran.0.dispatches
          ≡ external_request r.input.effect_operation_id (admitted_operation s port w r)
            ∷ w.dispatches)
unfolding adapter_result normalize_dispatch_result
dispatch_unreadable s port w r result answer status problem =
    let id = r.input.effect_operation_id in
    let e : adapter_result s id port false (admitted_operation s port w r) ≡ throw invalid_row =
      ap (λ z. normalize_dispatch_result s.uncertain_problem (caught s z)) answer
      ∙ ap (λ z. normalize_status s.uncertain_problem z result) status
      ∙ ap
          (λ z. and_then (normalize_problem z) (λ p. return (failed_outcome s.uncertain_problem p)))
          problem in
    let d =
      if_dispatched s port w r false
      ∙ ap
          (λ z.
            proceed
              (λ o.
                perform s completing (completes (s.token completing) id o (s.now completing))
                  (complete_rest s (outcome_status o))
                >>= λ h. lift (return h.operation))
              z.0 z.1)
          (called s port w r false (throw invalid_row) e) in
    (
      ap (λ z. z.1) d,
      ap (λ z. z.0.table id) d ∙ put_row-same id (admitted_operation s port w r) w.table,
      ap (λ z. z.0.dispatches) d,
    )
