-- ===== src/Kernel/Plan.antt =====
-- packages/runtime/runtime-kernel/src/reconciliation/reconciler.ts: `plan`.
use heptalogos.Prelude.{
  ℕ, Bool, true, false, not, ◌&&◌, ◌||◌, String, List, [], ◌∷◌, ◌++◌, Option, none, some, str_eq,
  if◌then◌else◌, is_some,
}
use heptalogos.Prelude.Except.{Except, return, ◌>>=◌}
use heptalogos.Kernel.Model.{
  MicroSystemDefinition, MicroSystemActualState, Bindings, get, set, DesiredRuntimeSnapshot, any,
  filter, has_id,
}
use heptalogos.Kernel.Resolve.{Blocked, block, is_desired, Resolution, resolution}
use heptalogos.Kernel.Graph.{
  GraphProblem, Edge, Orders, runtime_graph, RuntimeGraphPlan, graph_plan,
}

pub data ReconcileAction : Type 0 where
  quiesce stop start : String → String → ReconcileAction
  rebind_service : String → String → ReconcileAction
  rebind_capability : String → Option String → ReconcileAction

-- The registries of the source's input are not read.
pub record ReconcileInput : Type 0 where
  pub definitions : List MicroSystemDefinition
  pub desired : DesiredRuntimeSnapshot
  pub actual : String → Option MicroSystemActualState
  pub current_service_bindings : Bindings
  pub current_capability_bindings : Bindings

pub record ReconcilePlan : Type 0 where
  pub revision : ℕ
  pub actions : List ReconcileAction
  pub blocked : Blocked
  pub service_bindings : Bindings
  pub desired_service_bindings : Bindings
  pub capability_bindings : Bindings

abbrev pub runs : Option MicroSystemActualState → Bool
runs (some MicroSystemActualState.running) = true
runs _ = false

abbrev pub is_running : ReconcileInput → MicroSystemDefinition → Bool
is_running input d = runs (input.actual d.micro_system_id)

abbrev pub holds : String → List String → Bool
holds id = any (λ x. str_eq x id)

abbrev pub provides_any : Bindings → MicroSystemDefinition → Bool
provides_any current d = any (λ b. any (λ p. str_eq p.provider_id b.1) d.service_provisions) current

abbrev pub current_definitions :
    ReconcileInput → List MicroSystemDefinition → List MicroSystemDefinition
current_definitions input =
    filter (λ d. is_running input d || provides_any input.current_service_bindings d)

-- The plan of the graph of some definitions, if there are any.
abbrev pub plan_of :
    Orders → List MicroSystemDefinition → Bindings → Except GraphProblem RuntimeGraphPlan
plan_of orders [] bindings =
    return (record { start_order = []; shutdown_order = []; plan_edges = [] })
plan_of orders (d ∷ ds) bindings = runtime_graph orders (d ∷ ds) bindings >>= graph_plan orders

-- One edge selects its provider, or finds another one selected and blocks the consumer.
abbrev pub select_edge : Edge → Option String → Bindings × Blocked → Bindings × Blocked
select_edge e none (selected, blocked) = (set selected e.service_id e.provider_id, blocked)
select_edge e (some previous) (selected, blocked) =
    if str_eq previous e.provider_id
    then (set selected e.service_id e.provider_id, blocked)
    else (selected, block e.consumer.micro_system_id "runtime.service.binding_conflict" blocked)

abbrev pub select_services : List Edge → Bindings × Blocked → Bindings × Blocked
select_services [] s = s
select_services (e ∷ es) s = select_services es (select_edge e (get s.0 e.service_id) s)

abbrev pub is_bound_to : Option String → String → Bool
is_bound_to none provider = false
is_bound_to (some bound) provider = str_eq bound provider

-- changedServices
abbrev pub is_changed : Bindings → Bindings → String → Bool
is_changed current selected id =
    (is_some (get current id) && not (is_some (get selected id)))
    || any (λ b. str_eq b.0 id && not (is_bound_to (get current b.0) b.1)) selected

abbrev pub must_rebind : ReconcileInput → Bindings → MicroSystemDefinition → Bool
must_rebind input selected d =
    is_running input d
    && any (λ r. is_changed input.current_service_bindings selected r.service_id)
        d.service_requirements

-- A pass over the shutdown order: what passes the test and is not yet stopped is quiesced and stopped.
abbrev pub stop_all :
    (MicroSystemDefinition → Bool)
    → (MicroSystemDefinition → String)
    → List MicroSystemDefinition
    → List String
    → List ReconcileAction × List String
stop_all test reason [] stopped = ([], stopped)
stop_all test reason (d ∷ ds) stopped =
    let hit = test d && not (holds d.micro_system_id stopped) in
    let rest = stop_all test reason ds (if hit then d.micro_system_id ∷ stopped else stopped) in
    (
      if hit
          then quiesce d.micro_system_id (reason d) ∷ stop d.micro_system_id (reason d) ∷ rest.0
          else rest.0,
      rest.1,
    )

-- The first pass does not ask whether a definition is stopped.
abbrev pub rebind_stops :
    (MicroSystemDefinition → Bool) → List MicroSystemDefinition → List ReconcileAction × List String
rebind_stops test [] = ([], [])
rebind_stops test (d ∷ ds) =
    let rest = rebind_stops test ds in
    if test d
    then (
      quiesce d.micro_system_id "hard-service-rebind"
          ∷ stop d.micro_system_id "hard-service-rebind"
          ∷ rest.0,
      d.micro_system_id ∷ rest.1,
    )
    else rest

abbrev pub service_rebinds : Bindings → Bindings → Bindings → List ReconcileAction
service_rebinds current selected [] = []
service_rebinds current selected ((id, provider) ∷ bs) =
    let rest = service_rebinds current selected bs in
    if is_changed current selected id then rebind_service id provider ∷ rest else rest

abbrev pub capability_rebinds : Bindings → Bindings → List ReconcileAction
capability_rebinds current [] = []
capability_rebinds current ((id, provider) ∷ bs) =
    let rest = capability_rebinds current bs in
    if is_bound_to (get current id) provider
    then rest
    else rebind_capability id (some provider) ∷ rest

abbrev pub capability_releases : Bindings → Bindings → List ReconcileAction
capability_releases selected [] = []
capability_releases selected ((id, provider) ∷ bs) =
    let rest = capability_releases selected bs in
    if is_some (get selected id) then rest else rebind_capability id none ∷ rest

abbrev pub reason_or : Option String → String
reason_or none = "desired-stopped"
reason_or (some reason) = reason

-- The tests of the second and the third shutdown pass.
abbrev pub is_unwanted : ReconcileInput → Blocked → MicroSystemDefinition → Bool
is_unwanted input blocked d =
    is_running input d && (not (is_desired input.desired d) || is_some (blocked d.micro_system_id))

abbrev pub is_unresolved : ReconcileInput → Resolution → MicroSystemDefinition → Bool
is_unresolved input r d =
    is_running input d
    && (not (is_desired input.desired d) || not (has_id d.micro_system_id r.resolvable))

abbrev pub is_unexplained : ReconcileInput → Resolution → Blocked → MicroSystemDefinition → Bool
is_unexplained input r blocked d =
    is_running input d
    && is_desired input.desired d
    && not (has_id d.micro_system_id r.resolvable)
    && not (is_some (blocked d.micro_system_id))

abbrev pub block_dependents :
    ReconcileInput → Resolution → List MicroSystemDefinition → Blocked → Blocked
block_dependents input r [] blocked = blocked
block_dependents input r (d ∷ ds) blocked = block_dependents input r ds (
    if is_unexplained input r blocked d
    then block d.micro_system_id "runtime.service.blocked_dependency" blocked
    else blocked)

abbrev pub starts : ReconcileInput → List String → List MicroSystemDefinition → List ReconcileAction
starts input restart_required [] = []
starts input restart_required (d ∷ ds) =
    let rest = starts input restart_required ds in
    if not (is_running input d) || holds d.micro_system_id restart_required
    then start d.micro_system_id "desired-running" ∷ rest
    else rest

-- The actions from the two graph plans, the third pass and the marks after it included where told.
abbrev pub assemble :
    Bool
    → ReconcileInput
    → List MicroSystemDefinition
    → Resolution
    → RuntimeGraphPlan
    → RuntimeGraphPlan
    → ReconcilePlan
assemble third input definitions r next current =
    let s = select_services next.plan_edges ([], r.blocked) in
    let order = current.shutdown_order in
    let current_services = input.current_service_bindings in
    let reason = λ (d : MicroSystemDefinition). reason_or (s.1 d.micro_system_id) in
    let first = rebind_stops (must_rebind input s.0) order in
    let second = stop_all (is_unwanted input s.1) reason order first.1 in
    let last =
      if third then stop_all (is_unresolved input r) reason order second.1 else ([], second.1) in
    let wanted = input.desired.capability_bindings in
    record {
      revision = input.desired.revision;
      actions =
          first.0
          ++ (service_rebinds current_services s.0 s.0
              ++ (capability_rebinds input.current_capability_bindings wanted
                  ++ (capability_releases wanted input.current_capability_bindings
                      ++ (second.0 ++ (last.0 ++ starts input first.1 next.start_order)))));
      blocked = if third then block_dependents input r definitions s.1 else s.1;
      service_bindings = s.0;
      desired_service_bindings = input.desired.service_bindings;
      capability_bindings = wanted;
    }

unfoldable pub plan_with : Bool → Orders → ReconcileInput → Except GraphProblem ReconcilePlan
unfolding resolution runtime_graph graph_plan is_desired
plan_with third orders input =
    let definitions = orders.by_micro_system_id input.definitions in
    let r = resolution input.desired definitions in
    do
      next ← plan_of orders r.resolvable input.desired.service_bindings
      current ←
          plan_of orders (current_definitions input definitions) input.current_service_bindings
      return (assemble third input definitions r next current)

-- `plan`
unfoldable pub plan : Orders → ReconcileInput → Except GraphProblem ReconcilePlan
unfolding plan_with
plan orders input = plan_with true orders input
