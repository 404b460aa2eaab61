-- ===== src/Effect/Actions.antt =====
-- packages/execution/effect-operation/src/service.ts: runs of the service's operations, one after the
-- other, each with its own adapter, clock and other actors.
use heptalogos.Prelude.{suc, ◌+◌, ◌≤◌, Bool, String, List, [], ◌∷◌, Option, none, some, arith}
use heptalogos.Prelude.Except.{Except, return}
use heptalogos.Effect.Operation.{EffectState, EffectRequest, EffectOperation}
use heptalogos.Effect.Calls.{prepares}
use heptalogos.Effect.Store.{Hit, required}
use heptalogos.Effect.Adapter.{RawResult}
use heptalogos.Effect.Ports.{
  preparing, prepare_rest, Options, ExternalRequest, EffectDispatchPort, World,
}
use heptalogos.Effect.Program.{Program, ◌>>=◌, lift, get, perform}
use heptalogos.Effect.Service.{
  prepare_input, insert_request, prepare, recovery_id, recover_current, recover_read, recover_by,
  recover_found, recover_dispatch, dispatch, look_up, reconcile_by, reconcile_found, reconcile,
}
use heptalogos.Effect.Calling.{
  count_calls, admissions, admissions_bound, Paid, Paid-refl, Paid-trans, lift-Paid, then-Paid,
  get-Paid, perform-Paid,
}
use heptalogos.Effect.Single.{look_up-Paid, dispatch-Paid}

pub data Action : Type 0 where
  preparation : Options → EffectRequest → Action
  dispatching : Options → String → EffectDispatchPort → Bool → Action
  recovery : Options → String → Action
  reconciliation : Options → String → EffectDispatchPort → Bool → Action

unfoldable pub run_action : Action → World → World
unfolding prepare dispatch recover_dispatch reconcile
run_action (preparation s input) w = (prepare s input w).0
run_action (dispatching s id port aborted) w = (dispatch s id port aborted w).0
run_action (recovery s id) w = (recover_dispatch s id w).0
run_action (reconciliation s id port aborted) w = (reconcile s id port aborted w).0

unfoldable pub run_actions : List Action → World → World
unfolding run_action
run_actions [] w = w
run_actions (a ∷ l) w = run_actions l (run_action a w)

module _ (key : String) (s : Options) where
  prepare-Paid : (input : EffectRequest) (w : World) → Paid key w (prepare s input w).0
  unfolding prepare
  prepare-Paid input =
      then-Paid key (lift (prepare_input s input)) (insert_request s)
        (lift-Paid key (prepare_input s input))
        (λ r.
          perform-Paid key s preparing (prepares r s.lineage_context_ref (s.now preparing))
            (prepare_rest s))

  then_operation-Paid :
      (m : Program Hit)
      → ((w : World) → Paid key w (m w).0)
      → (w : World) → Paid key w ((m >>= λ h. lift (return h.operation)) w).0
  then_operation-Paid m p =
      then-Paid key m (λ h. lift (return h.operation)) p (λ h. lift-Paid key (return h.operation))

  recover_found-Paid :
      (id : String) (current : EffectOperation) (state : EffectState) (w : World)
      → Paid key w (recover_found s id current state w).0
  recover_found-Paid id current EffectState.prepared w = Paid-refl key w
  recover_found-Paid id current EffectState.dispatching w =
      then_operation-Paid (perform s _ _ _) (perform-Paid key s _ _ _) w
  recover_found-Paid id current EffectState.succeeded w = Paid-refl key w
  recover_found-Paid id current EffectState.failed w = Paid-refl key w
  recover_found-Paid id current EffectState.uncertain w = Paid-refl key w

  recover_dispatch-Paid : (id : String) (w : World) → Paid key w (recover_dispatch s id w).0
  unfolding recover_dispatch
  recover_dispatch-Paid id =
      then-Paid key (lift (recovery_id s id)) (recover_by s) (lift-Paid key (recovery_id s id))
        (λ k. then-Paid key (get s k) (recover_read s k) (get-Paid key s k) (λ found.
          then-Paid key (lift (required found)) (recover_current s k)
            (lift-Paid key (required found))
            (λ current. recover_found-Paid k current current.state)))

  reconcile_by-Paid :
      (id : String) (observe : Option (ExternalRequest → Except (Unit {0}) (Option RawResult)))
      (aborted : Bool) (operation : EffectOperation) (w : World)
      → Paid key w (reconcile_by s id observe aborted operation w).0
  reconcile_by-Paid id none aborted operation w = Paid-refl key w
  reconcile_by-Paid id (some observe) aborted operation w =
      then_operation-Paid (perform s _ _ _) (perform-Paid key s _ _ _) w

  reconcile_found-Paid :
      (id : String) (port : EffectDispatchPort) (aborted : Bool) (operation : EffectOperation)
      (state : EffectState) (w : World)
      → Paid key w (reconcile_found s id port aborted operation state w).0
  reconcile_found-Paid id port aborted operation EffectState.prepared w = Paid-refl key w
  reconcile_found-Paid id port aborted operation EffectState.dispatching w = Paid-refl key w
  reconcile_found-Paid id port aborted operation EffectState.succeeded w = Paid-refl key w
  reconcile_found-Paid id port aborted operation EffectState.failed w = Paid-refl key w
  reconcile_found-Paid id port aborted operation EffectState.uncertain w =
      reconcile_by-Paid id port.observe aborted operation w

  reconcile-Paid :
      (id : String) (port : EffectDispatchPort) (aborted : Bool) (w : World)
      → Paid key w (reconcile s id port aborted w).0
  unfolding reconcile
  reconcile-Paid id port aborted =
      then-Paid key (look_up s id port) (λ r. reconcile_found s r.0 port aborted r.1 r.1.state)
        (look_up-Paid s key id port) (λ r. reconcile_found-Paid r.0 port aborted r.1 r.1.state)

run_action-Paid : (key : String) (a : Action) (w : World) → Paid key w (run_action a w)
unfolding run_action
run_action-Paid key (preparation s input) w = prepare-Paid key s input w
run_action-Paid key (dispatching s id port aborted) w = dispatch-Paid s key id port aborted w
run_action-Paid key (recovery s id) w = recover_dispatch-Paid key s id w
run_action-Paid key (reconciliation s id port aborted) w = reconcile-Paid key s id port aborted w

run_actions-Paid : (key : String) (l : List Action) (w : World) → Paid key w (run_actions l w)
unfolding run_actions
run_actions-Paid key [] w = Paid-refl key w
run_actions-Paid key (a ∷ l) w =
    Paid-trans key w (run_action a w) (run_actions (a ∷ l) w) (run_action-Paid key a w)
      (run_actions-Paid key l (run_action a w))

-- Whatever sequence of prepare, dispatch, recoverDispatch and reconcile runs, with any adapters and
-- any other actors' transactions in between, the adapters' dispatch is called at most once for one
-- effect, and not at all if its row was past PREPARED when the sequence began.
pub run_actions_once :
    (key : String) (l : List Action) (w : World)
    → count_calls key (run_actions l w).dispatches + admissions (w.table key)
      ≤ suc (count_calls key w.dispatches)
run_actions_once key l w =
    let p = run_actions-Paid key l w in
    omega (arith, p.called, admissions_bound ((run_actions l w).table key))
