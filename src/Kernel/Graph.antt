-- ===== src/Kernel/Graph.antt =====
-- packages/runtime/runtime-kernel/src/reconciliation/runtime-graph.ts: the graph of the hard Service
-- dependencies. Sorting by identities and the topological sort of graphlib are parameters.
use heptalogos.Prelude.{String, List, [], ◌∷◌, ◌++◌, Option, none, some, str_eq, if◌then◌else◌, map}
use heptalogos.Prelude.Except.{Except, return, throw, ◌>>=◌, ◌>>◌}
use heptalogos.Kernel.Model.{
  ServiceRequirement, ServiceProvision, MicroSystemDefinition, Bindings, get, filter, is_eligible,
  has_id,
}

pub data GraphProblem : Type 0 where
  duplicate_node missing explicit_unavailable ambiguous_provider hard_service_cycle : GraphProblem

pub record Edge : Type 0 where
  pub provider : MicroSystemDefinition
  pub consumer : MicroSystemDefinition
  pub service_id : String
  pub provider_id : String
  pub contract_version : String

-- `sort` with localeCompare, by the identities that it is given, and `alg.topsort` of the nodes and the
-- edges of a graph, which answers none where it throws.
pub record Orders : Type 0 where
  pub by_micro_system_id : List MicroSystemDefinition → List MicroSystemDefinition
  pub by_service_id : List ServiceRequirement → List ServiceRequirement
  pub by_ends : List Edge → List Edge
  pub topsort : List String → List (String × String) → Option (List String)

-- Each node is new.
abbrev pub set_nodes :
    List MicroSystemDefinition → List MicroSystemDefinition → Except GraphProblem (Unit {0})
set_nodes seen [] = return tt
set_nodes seen (d ∷ ds) =
    let rest = set_nodes (d ∷ seen) ds in
    if has_id d.micro_system_id seen then throw duplicate_node else rest

abbrev pub provisions_of :
    Option String
    → ServiceRequirement
    → MicroSystemDefinition
    → List (MicroSystemDefinition × ServiceProvision)
provisions_of explicit requirement provider =
    map (λ provision. (provider, provision))
      (filter (is_eligible explicit requirement) provider.service_provisions)

abbrev pub graph_candidates :
    Option String
    → ServiceRequirement
    → List MicroSystemDefinition
    → List (MicroSystemDefinition × ServiceProvision)
graph_candidates explicit requirement [] = []
graph_candidates explicit requirement (d ∷ ds) =
    provisions_of explicit requirement d ++ graph_candidates explicit requirement ds

abbrev pub edge_to :
    MicroSystemDefinition → ServiceRequirement → MicroSystemDefinition × ServiceProvision → Edge
edge_to consumer requirement c = record {
  provider = c.0;
  consumer = consumer;
  service_id = requirement.service_id;
  provider_id = c.1.provider_id;
  contract_version = c.1.contract_version;
}

abbrev pub missing_problem : Option String → GraphProblem
missing_problem none = missing
missing_problem (some explicit) = explicit_unavailable

abbrev pub sole_edge :
    MicroSystemDefinition
    → ServiceRequirement
    → Option String
    → List (MicroSystemDefinition × ServiceProvision)
    → Except GraphProblem Edge
sole_edge consumer requirement explicit [] = throw (missing_problem explicit)
sole_edge consumer requirement explicit (c ∷ []) = return (edge_to consumer requirement c)
sole_edge consumer requirement explicit (c ∷ d ∷ cs) = throw ambiguous_provider

abbrev pub edges_of_consumer :
    Bindings
    → List MicroSystemDefinition
    → MicroSystemDefinition
    → List ServiceRequirement
    → Except GraphProblem (List Edge)
edges_of_consumer bindings ordered consumer [] = return []
edges_of_consumer bindings ordered consumer (r ∷ rs) =
    let explicit = get bindings r.service_id in
    do
      e ← sole_edge consumer r explicit (graph_candidates explicit r ordered)
      es ← edges_of_consumer bindings ordered consumer rs
      return (e ∷ es)

abbrev pub edges_of :
    Orders
    → Bindings
    → List MicroSystemDefinition
    → List MicroSystemDefinition
    → Except GraphProblem (List Edge)
edges_of orders bindings ordered [] = return []
edges_of orders bindings ordered (c ∷ cs) = do
  es ← edges_of_consumer bindings ordered c (orders.by_service_id c.service_requirements)
  rest ← edges_of orders bindings ordered cs
  return (es ++ rest)

pub record RuntimeGraph : Type 0 where
  pub definitions : List MicroSystemDefinition
  pub edges : List Edge

-- The constructor.
unfoldable pub runtime_graph :
    Orders → List MicroSystemDefinition → Bindings → Except GraphProblem RuntimeGraph
unfolding is_eligible
runtime_graph orders definitions bindings =
    let ordered = orders.by_micro_system_id definitions in
    do
      set_nodes [] ordered
      edges ← edges_of orders bindings ordered ordered
      return (record { definitions = ordered; edges = edges })

pub record RuntimeGraphPlan : Type 0 where
  pub start_order : List MicroSystemDefinition
  pub shutdown_order : List MicroSystemDefinition
  pub plan_edges : List Edge

-- `this.definitions.get(id)!` for each identity.
abbrev pub definition_of : List MicroSystemDefinition → String → List MicroSystemDefinition
definition_of [] id = []
definition_of (d ∷ ds) id = if str_eq d.micro_system_id id then d ∷ [] else definition_of ds id

abbrev pub definitions_of : List MicroSystemDefinition → List String → List MicroSystemDefinition
definitions_of ds [] = []
definitions_of ds (id ∷ ids) = definition_of ds id ++ definitions_of ds ids

abbrev pub reverse_onto : {A : Type 0} → List A → List A → List A
reverse_onto [] ys = ys
reverse_onto (x ∷ xs) ys = reverse_onto xs (x ∷ ys)

abbrev pub plan_in_order :
    Orders → RuntimeGraph → Option (List String) → Except GraphProblem RuntimeGraphPlan
plan_in_order orders g none = throw hard_service_cycle
plan_in_order orders g (some ids) =
    let order = definitions_of g.definitions ids in
    return (record {
      start_order = order;
      shutdown_order = reverse_onto order [];
      plan_edges = orders.by_ends g.edges;
    })

unfoldable pub graph_plan : Orders → RuntimeGraph → Except GraphProblem RuntimeGraphPlan
graph_plan orders g = plan_in_order orders g (
    orders.topsort (map (λ d. d.micro_system_id) g.definitions)
      (map (λ e. (e.provider.micro_system_id, e.consumer.micro_system_id)) g.edges))
