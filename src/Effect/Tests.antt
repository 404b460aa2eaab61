-- ===== src/Effect/Tests.antt =====
-- Runs of the effect store and its service on small tables.
use heptalogos.Prelude.{
  suc, ◌+◌, ◌≡◌, ◌≤◌, refl, sym, true, false, List, [], ◌∷◌, Option, none, some, some_inj,
}
use heptalogos.Prelude.Except.{return, throw}
use heptalogos.Effect.Operation.{
  EffectState, EffectOutcome, EffectRequest, EffectOperation, invalid_row,
}
use heptalogos.Effect.Store.{Table, prepared_row, admit, put_row}
use heptalogos.Effect.Calls.{
  prepares, begins, completes, recovers, Rest, transact, mutate, run_call, History, run_history,
}
use heptalogos.Effect.Fenced.{complete_dispatch_fenced}
use heptalogos.Effect.Operation.{EffectProblem, parse_effect_operation_row}
use heptalogos.Effect.Steps.{Grows, transact-Grows}
use heptalogos.Effect.Later.{LaterIn, run_history-LaterIn, run_history-final}
use heptalogos.Effect.Once.{is_admitted, begin_dispatch_once}
use heptalogos.Effect.Adapter.{RawReceipt, RawProblem, RawResult}
use heptalogos.Effect.Ports.{recovering, Options, EffectDispatchPort, World, external_request}
use heptalogos.Effect.Program.{read_operation}
use heptalogos.Effect.Service.{recover_dispatch, dispatch}
use heptalogos.Effect.Calling.{count_calls}
use heptalogos.Effect.Actions.{
  Action, preparation, dispatching, recovery, run_actions, run_actions_once,
}
use heptalogos.Effect.Reading.{ParsesAsIs}
use heptalogos.Effect.Recovery.{IsKnown, recover_dispatch-IsKnown}
use heptalogos.Effect.Alone.{Alone}
use heptalogos.Effect.Ready.{Ready, admitted_operation}
use heptalogos.Effect.Outcome.{dispatch_unreadable}

abbrev mail : EffectRequest
mail = record {
  effect_operation_id = "e1";
  effect_kind = "mail.send";
  request_version = 1;
  request = "{}";
}

abbrev empty : Table
empty id = none

abbrev accepting : Rest
accepting h = return tt

abbrev mail_prepared : EffectOperation
mail_prepared = prepared_row mail "l1" 5

abbrev one_row : EffectOperation → Table
one_row w = put_row "e1" w empty

abbrev mail_sent : EffectOperation
mail_sent = record (admit "h1" 6 mail_prepared) {
  state = EffectState.succeeded;
  outcome = some (EffectOutcome.succeeded none);
}

abbrev busy : History
busy =
    (prepares mail "l1" 5, accepting)
    ∷ (begins "h1" "e1" 6, accepting)
    ∷ (completes "h2" "e1" (EffectOutcome.failed "late") 7, accepting)
    ∷ (recovers "e1" none 8, accepting)
    ∷ []

transact-Grows_example :
    Grows
      (one_row mail_prepared "e1")
      ((transact (begins "h1" "e1" 6) accepting (one_row mail_prepared)).0 "e1")
transact-Grows_example = transact-Grows (begins "h1" "e1" 6) accepting (one_row mail_prepared) "e1"

run_history-LaterIn_example :
    LaterIn (one_row mail_prepared "e1") (run_history busy (one_row mail_prepared) "e1")
run_history-LaterIn_example = run_history-LaterIn busy (one_row mail_prepared) "e1"

run_history-final_example : run_history busy (one_row mail_sent) "e1" ≡ some mail_sent
run_history-final_example = run_history-final busy (one_row mail_sent) "e1" mail_sent refl refl

begin_dispatch_once_example :
    is_admitted
      (transact
        (begins "h2" "e1" 9)
        accepting
        (run_history busy (transact (begins "h1" "e1" 6) accepting (one_row mail_prepared)).0)).1
    ≡ false
unfolding transact mutate run_call
begin_dispatch_once_example =
    begin_dispatch_once "h1" "h2" "e1" 6 9 accepting accepting busy (one_row mail_prepared) refl

-- A service that accepts all, on its own.
abbrev plain : Options
plain = record {
  parse_effect_operation_id = λ id. some id;
  parse_effect_kind_id = λ kind. some kind;
  snapshot_effect_request = λ request. some request;
  has_current = true;
  lineage_context_ref = "l1";
  uncertain_problem = λ detail. detail;
  aborted_problem = "aborted";
  token = λ site. "h1";
  now = λ site. 9;
  retain_current = λ site. return tt;
  record_required = λ draft. return tt;
  complete_current = λ operation. return tt;
  others = λ site. [];
}

-- Between its reading and its transaction the dispatch is concluded.
abbrev overtaken : Options
overtaken = record plain {
  others = λ site. elim site [
    | recovering ↦ (completes "h1" "e1" (EffectOutcome.succeeded none) 7, accepting) ∷ []
    | _ ↦ []
  ];
}

abbrev answering : Option RawResult → EffectDispatchPort
answering answer = record {
  effect_kind = "mail.send";
  call = λ request. return answer;
  observe = none;
}

abbrev sends : EffectDispatchPort
sends = answering (
    some (record {
      status = some "SUCCEEDED";
      receipt = RawReceipt.absent;
      problem = RawProblem.absent;
    }))

abbrev garbles : RawResult
garbles = record {
  status = some "FAILED";
  receipt = RawReceipt.absent;
  problem = RawProblem.unreadable;
}

abbrev ready_world : World
ready_world = record { table = one_row mail_prepared; dispatches = [] }

abbrev plain_alone : Alone plain
plain_alone = record {
  undisturbed = λ site. refl;
  retains = λ site. refl;
  records = λ draft. refl;
  completes = λ operation. refl;
}

abbrev ready :
    (port : EffectDispatchPort)
    → some port.effect_kind ≡ some "mail.send"
    → Ready plain port ready_world
ready port kind = record {
  input = mail;
  lineage = "l1";
  at = 5;
  alone = plain_alone;
  known_id = refl;
  known_kind = kind;
  running = refl;
  versioned = refl;
  inserted = refl;
}

dispatch_unreadable_example :
    let port = answering (some garbles) in
    let w = admitted_operation plain port ready_world (ready port refl) in
    let ran = dispatch plain "e1" port false ready_world in
    (ran.1 ≡ throw invalid_row)
    × (ran.0.table "e1" ≡ some w)
    × (ran.0.dispatches ≡ external_request "e1" w ∷ [])
dispatch_unreadable_example =
    dispatch_unreadable plain (answering (some garbles)) ready_world
      (ready (answering (some garbles)) refl) garbles refl refl refl

-- Two dispatches, one of them after a recovery, call the adapter once.
abbrev story : List Action
story =
    preparation plain mail
    ∷ dispatching plain "e1" sends false
    ∷ recovery plain "e1"
    ∷ dispatching plain "e1" sends false
    ∷ []

abbrev start : World
start = record { table = empty; dispatches = [] }

run_actions_once_example :
    count_calls "e1" (run_actions story start).dispatches + 0 ≤ suc (count_calls "e1" [])
run_actions_once_example = run_actions_once "e1" story start

called_in_story : count_calls "e1" (run_actions story start).dispatches ≡ 1
unfolding run_actions count_calls read_operation run_history
called_in_story = refl

as_is : ParsesAsIs plain
as_is id key e = sym (some_inj e)

overtaken_as_is : ParsesAsIs overtaken
overtaken_as_is id key e = sym (some_inj e)

abbrev open_world : World
open_world = record { table = one_row (admit "h1" 6 mail_prepared); dispatches = [] }

abbrev mail_done : EffectOperation
mail_done = record mail_sent { updated_at = 7 }

recover_dispatch-IsKnown_example : IsKnown mail_done
unfolding recover_dispatch read_operation run_history
recover_dispatch-IsKnown_example =
    recover_dispatch-IsKnown overtaken "e1" open_world mail_done overtaken_as_is refl

complete_dispatch_fenced_example :
    transact
      (completes "h2" "e1" (EffectOutcome.succeeded none) 8)
      accepting
      (one_row (admit "h1" 6 mail_prepared))
    ≡ (one_row (admit "h1" 6 mail_prepared), throw EffectProblem.host_fence)
unfolding parse_effect_operation_row
complete_dispatch_fenced_example =
    complete_dispatch_fenced "h2" "h1" "e1" (EffectOutcome.succeeded none) 8 accepting
      (one_row (admit "h1" 6 mail_prepared)) (admit "h1" 6 mail_prepared) refl refl refl refl refl
