-- ===== src/Effect/Ports.antt =====
-- packages/execution/effect-operation/src/service.ts: what the service is given (lineage, evidence,
-- clock, parsers, adapter), and the state that it and the other actors share.
use heptalogos.Prelude.{ℕ, Bool, String, List, Option, none, some, str_eq, if◌then◌else◌}
use heptalogos.Prelude.Except.{Except, return, throw, ◌>>=◌, ◌>>◌, unless_throw}
use heptalogos.Effect.Operation.{
  EffectState, EffectOperation, EffectProblem, invalid_id, invalid_kind, context_required,
  kind_mismatch, Result,
}
use heptalogos.Effect.Store.{Table}
use heptalogos.Effect.Calls.{Rest, History}
use heptalogos.Effect.Adapter.{RawResult, EffectReconciliationResult}

-- The places of the service that read or write the table.
pub data Site : Type 0 where
  preparing reading admitting completing recovering reconciling : Site

pub record EvidenceDraft : Type 0 where
  pub evidence_kind : String
  pub subject_ref : String
  pub object_ref : EffectState
  pub fact_ref : Option String

abbrev pub evidence_draft : String → EffectOperation → Option String → EvidenceDraft
evidence_draft kind operation fact = record {
  evidence_kind = kind;
  subject_ref = operation.effect_operation_id;
  object_ref = operation.state;
  fact_ref = fact;
}

-- The dependencies of the service, and the other actors. `uncertain_problem` makes the problem of a
-- detail; the token is that of the host that the site's transaction runs under.
pub record Options : Type 0 where
  pub parse_effect_operation_id : String → Option String
  pub parse_effect_kind_id : String → Option String
  pub snapshot_effect_request : String → Option String
  pub has_current : Bool
  pub lineage_context_ref : String
  pub uncertain_problem : String → String
  pub aborted_problem : String
  pub token : Site → String
  pub now : Site → ℕ
  pub retain_current : Site → Result (Unit {0})
  pub record_required : EvidenceDraft → Result (Unit {0})
  pub complete_current : EffectOperation → Result (Unit {0})
  pub others : Site → History

pub record ExternalRequest : Type 0 where
  pub effect_operation_id : String
  pub external_request_key : String
  pub request_version : ℕ
  pub request : String

-- An adapter: a call throws or answers. Reconciliation is optional.
pub record EffectDispatchPort : Type 0 where
  pub effect_kind : String
  pub call : ExternalRequest → Except (Unit {0}) (Option RawResult)
  pub observe : Option (ExternalRequest → Except (Unit {0}) (Option RawResult))

-- The table, and the calls of `port.dispatch`, newest first.
pub record World : Type 0 where
  pub table : Table
  pub dispatches : List ExternalRequest

abbrev pub parsed : {A : Type 0} → EffectProblem → Option A → Result A
parsed problem none = throw problem
parsed problem (some a) = return a

unfoldable pub require_effect_operation_id : Options → String → Result String
require_effect_operation_id s id = parsed invalid_id (s.parse_effect_operation_id id)

unfoldable pub require_effect_kind : Options → String → Result String
require_effect_kind s kind = parsed invalid_kind (s.parse_effect_kind_id kind)

abbrev pub require_current : Options → Result (Unit {0})
require_current s = unless_throw s.has_current context_required

unfoldable pub assert_port_kind : Options → EffectOperation → EffectDispatchPort → Result (Unit {0})
unfolding require_effect_kind
assert_port_kind s operation port = require_effect_kind s port.effect_kind >>= λ kind.
    unless_throw (str_eq kind operation.effect_kind) kind_mismatch

abbrev pub external_request : String → EffectOperation → ExternalRequest
external_request id operation = record {
  effect_operation_id = id;
  external_request_key = id;
  request_version = operation.request_version;
  request = operation.request;
}

-- The rest of each transaction, after the call of the repository.
abbrev pub when : Bool → Result (Unit {0}) → Result (Unit {0})
when test run = if test then run else return tt

abbrev pub prepare_rest : Options → Rest
prepare_rest s h =
    s.retain_current preparing
    >> s.record_required (evidence_draft "effect.prepared" h.operation none)
    >> s.complete_current h.operation

abbrev pub recover_rest : Options → Rest
recover_rest s h =
    s.retain_current recovering
    >> when h.hit
        (s.record_required (evidence_draft "effect.outcome" h.operation (some "recovered")))
    >> s.complete_current h.operation

abbrev pub begin_rest : Options → Rest
begin_rest s h = when h.hit (
    s.retain_current admitting
    >> s.record_required (evidence_draft "effect.dispatch-started" h.operation none))

abbrev pub complete_rest : Options → String → Rest
complete_rest s status h =
    s.record_required (evidence_draft "effect.outcome" h.operation (some status))
    >> s.complete_current h.operation

abbrev pub observed_status : EffectReconciliationResult → String
observed_status (EffectReconciliationResult.succeeded receipt) = "SUCCEEDED"
observed_status (EffectReconciliationResult.failed problem) = "FAILED"
observed_status EffectReconciliationResult.unknown = "UNKNOWN"

abbrev pub reconcile_rest : Options → EffectReconciliationResult → Rest
reconcile_rest s observation h =
    s.retain_current reconciling
    >> s.record_required
        (evidence_draft "effect.reconciled" h.operation (some (observed_status observation)))
    >> s.complete_current h.operation
