-- ===== src/Effect/Ready.antt =====
-- packages/execution/effect-operation/src/service.ts: the transactions of `dispatch` for an effect that
-- `prepare` inserted, with no other actor in between.
use heptalogos.Prelude.{
  ℕ, ◌≡◌, refl, ap, ◌∙◌, Bool, true, false, String, none, some, leb, str_eq, str_eq-true,
}
use heptalogos.Prelude.Except.{return, unless_throw, ◌>>=◌ as and_then}
use heptalogos.Effect.Operation.{
  EffectOutcome, EffectRequest, EffectOperation, invalid_id, invalid_kind, kind_mismatch,
  context_required, Result, parse_effect_operation_row,
}
use heptalogos.Effect.Store.{
  hit_by, put_row, prepared_row, admit, conclude, is_prepared, is_held, observed, begin_dispatch,
  complete_dispatch, select_existing, refuse_completion,
}
use heptalogos.Effect.Calls.{begins, completes, run_call}
use heptalogos.Effect.Ports.{
  admitting, completing, Options, EffectDispatchPort, World, require_effect_operation_id,
  require_effect_kind, require_current, assert_port_kind, external_request, begin_rest,
  complete_rest, evidence_draft, parsed,
}
use heptalogos.Effect.Program.{◌>>=◌, lift, get, perform}
use heptalogos.Effect.Service.{
  check_found, look_up, adapter_result, call_unless, call_adapter, outcome_status,
  dispatch_admitted, dispatch_if_admitted, dispatch_found, dispatch,
}
use heptalogos.Effect.Alone.{
  Alone, parse_fits, update_where_hits, perform_returns, chain_answers, get_returns,
}
use heptalogos.Effect.Once.{put_row-same}

-- An effect as `prepare` inserted it, its adapter, and a service that runs alone.
pub record Ready (s : Options) (port : EffectDispatchPort) (w : World) : Type 0 where
  pub input : EffectRequest
  pub lineage : String
  pub at : ℕ
  pub alone : Alone s
  pub known_id :
      s.parse_effect_operation_id input.effect_operation_id ≡ some input.effect_operation_id
  pub known_kind : s.parse_effect_kind_id port.effect_kind ≡ some input.effect_kind
  pub running : s.has_current ≡ true
  pub versioned : leb 1 input.request_version ≡ true
  pub inserted : w.table input.effect_operation_id ≡ some (prepared_row input lineage at)

fits_prepared :
    (input : EffectRequest) (lineage : String) (at : ℕ)
    → leb 1 input.request_version ≡ true
    → parse_effect_operation_row (prepared_row input lineage at)
      ≡ return (prepared_row input lineage at)
fits_prepared input lineage at v = parse_fits (prepared_row input lineage at) v refl refl

fits_concluded :
    (o : EffectOutcome) (at : ℕ) (token : String) (w : EffectOperation)
    → leb 1 w.request_version ≡ true
    → w.dispatch_host_ownership_token ≡ some token
    → parse_effect_operation_row (conclude o at w) ≡ return (conclude o at w)
fits_concluded (EffectOutcome.succeeded receipt) at token w v e =
    parse_fits (conclude (EffectOutcome.succeeded receipt) at w) v refl (rw e refl)
fits_concluded (EffectOutcome.failed problem) at token w v e =
    parse_fits (conclude (EffectOutcome.failed problem) at w) v refl (rw e refl)
fits_concluded (EffectOutcome.uncertain problem) at token w v e =
    parse_fits (conclude (EffectOutcome.uncertain problem) at w) v refl (rw e refl)

module _ (s : Options) (port : EffectDispatchPort) (w : World) (r : Ready s port w) where
  abbrev pub prepared_operation : EffectOperation
  prepared_operation = prepared_row r.input r.lineage r.at

  -- The row as the admission leaves it, and as an outcome concludes it.
  abbrev pub admitted_operation : EffectOperation
  admitted_operation = admit (s.token admitting) (s.now admitting) prepared_operation

  abbrev pub concluded_operation : EffectOutcome → EffectOperation
  concluded_operation o = conclude o (s.now completing) admitted_operation

  -- The state at the admission, and after the call of the adapter.
  abbrev pub admitted_world : World
  admitted_world = record w {
    table = put_row r.input.effect_operation_id admitted_operation w.table;
  }

  abbrev pub called_world : Bool → World
  called_world aborted =
      call_unless aborted (external_request r.input.effect_operation_id admitted_operation)
        admitted_world

  id_required :
      require_effect_operation_id s r.input.effect_operation_id ≡ return r.input.effect_operation_id
  unfolding require_effect_operation_id
  id_required = ap (parsed invalid_id) r.known_id

  found_checked :
      check_found s port r.input.effect_operation_id (some prepared_operation)
      ≡ return (r.input.effect_operation_id, prepared_operation)
  unfolding assert_port_kind require_effect_kind
  found_checked =
      ap
        (λ k.
          and_then
            (and_then (parsed invalid_kind k)
              (λ kind. unless_throw (str_eq kind r.input.effect_kind) kind_mismatch))
            (λ _.
              and_then (require_current s)
                (λ _. return (r.input.effect_operation_id, prepared_operation))))
        r.known_kind
      ∙ ap
          (λ b. and_then (unless_throw b kind_mismatch) (λ _.
            and_then (require_current s)
              (λ _. return (r.input.effect_operation_id, prepared_operation))))
          (str_eq-true r.input.effect_kind r.input.effect_kind refl)
      ∙ ap
          (λ b.
            and_then (unless_throw b context_required)
              (λ _. return (r.input.effect_operation_id, prepared_operation)))
          r.running

  looked_up :
      look_up s r.input.effect_operation_id port w
      ≡ (w, return (r.input.effect_operation_id, prepared_operation))
  unfolding look_up
  looked_up =
      let id = r.input.effect_operation_id in
      chain_answers (lift (require_effect_operation_id s id))
        (λ k. get s k >>= λ found. lift (check_found s port k found)) w w id
        (ap (λ z. (w, z)) id_required)
      ∙ chain_answers (get s id) (λ found. lift (check_found s port id found)) w w
          (some prepared_operation)
          (get_returns s id w prepared_operation r.alone id_required r.inserted
            (fits_prepared r.input r.lineage r.at r.versioned))
      ∙ ap (λ z. (w, z)) found_checked

  begun :
      perform s admitting
        (begins (s.token admitting) r.input.effect_operation_id (s.now admitting))
        (begin_rest s)
        w
      ≡ (admitted_world, return (hit_by admitted_operation))
  unfolding run_call begin_dispatch
  begun =
      let id = r.input.effect_operation_id in
      perform_returns s admitting (begins (s.token admitting) id (s.now admitting)) (begin_rest s) w
        (put_row id admitted_operation w.table) (hit_by admitted_operation) r.alone
        (update_where_hits id (λ x. is_prepared x.state)
          (admit (s.token admitting) (s.now admitting)) (observed id) w.table prepared_operation
          r.inserted refl (parse_fits admitted_operation r.versioned refl refl))
        (ap
            (λ z. and_then z (λ _.
              s.record_required (evidence_draft "effect.dispatch-started" admitted_operation none)))
            (r.alone.retains admitting)
          ∙ r.alone.records _)

  called_table : (aborted : Bool) → (called_world aborted).table ≡ admitted_world.table
  called_table true = refl
  called_table false = refl

  pub completed :
      (aborted : Bool) (o : EffectOutcome)
      → s.token admitting ≡ s.token completing
      → perform s completing
          (completes (s.token completing) r.input.effect_operation_id o (s.now completing))
          (complete_rest s (outcome_status o))
          (called_world aborted)
        ≡ (
          record (called_world aborted) {
            table =
                put_row r.input.effect_operation_id (concluded_operation o) admitted_world.table;
          },
          return (hit_by (concluded_operation o)),
        )
  unfolding run_call complete_dispatch
  completed aborted o same =
      let id = r.input.effect_operation_id in
      let c = concluded_operation o in
      perform_returns s completing (completes (s.token completing) id o (s.now completing))
        (complete_rest s (outcome_status o)) (called_world aborted)
        (put_row id c admitted_world.table) (hit_by c) r.alone
        (ap (λ t. run_call (completes (s.token completing) id o (s.now completing)) t)
            (called_table aborted)
          ∙ update_where_hits id (is_held (s.token completing)) (conclude o (s.now completing))
              (λ t. and_then (select_existing id t) refuse_completion) admitted_world.table
              admitted_operation (put_row-same id admitted_operation w.table)
              (str_eq-true (s.token admitting) (s.token completing) same)
              (fits_concluded o (s.now completing) (s.token admitting) admitted_operation
                r.versioned refl))
        (ap (λ z. and_then z (λ _. s.complete_current c)) (r.alone.records _) ∙ r.alone.completes c)

  pub if_dispatched :
      (aborted : Bool)
      → dispatch s r.input.effect_operation_id port aborted w
        ≡ dispatch_admitted s r.input.effect_operation_id port aborted admitted_operation
            admitted_world
  unfolding dispatch
  if_dispatched aborted =
      let id = r.input.effect_operation_id in
      chain_answers (look_up s id port) (λ q. dispatch_found s q.0 port aborted q.1 q.1.state) w w
        (id, prepared_operation) looked_up
      ∙ chain_answers
          (perform s admitting (begins (s.token admitting) id (s.now admitting)) (begin_rest s))
          (dispatch_if_admitted s id port aborted) w admitted_world (hit_by admitted_operation)
          begun

  pub called :
      (aborted : Bool) (m : Result EffectOutcome)
      → adapter_result s r.input.effect_operation_id port aborted admitted_operation ≡ m
      → call_adapter s r.input.effect_operation_id port aborted admitted_operation admitted_world
        ≡ (called_world aborted, m)
  unfolding call_adapter
  called aborted m e = ap (λ z. (called_world aborted, z)) e
