-- ===== src/Kernel/Tests.antt =====
-- Plans of small sets of micro systems.
use heptalogos.Prelude.{
  true, String, if◌then◌else◌, or-false, Bool-cases, inl, inr, some_inj, subst, str_eq, ◌≡◌, ◌⊎◌,
  refl, false, List, [], ◌∷◌, none, some,
}
use mathlib.Core.List.{Permᴰ}
use heptalogos.Prelude.Except.{Except, return, throw}
use heptalogos.Kernel.Model.{
  MicroSystemDefinition, MicroSystemDesiredState, MicroSystemActualState, DesiredRuntimeSnapshot,
  has_id, is_eligible,
}
use heptalogos.Kernel.Resolve.{is_desired, resolution}
use heptalogos.Kernel.Resolved.{IsResolved, resolution-IsResolved}
use heptalogos.Kernel.Covered.{IsCovered, resolution-Covered}
use heptalogos.Kernel.Graph.{GraphProblem, duplicate_node, Orders, runtime_graph}
use heptalogos.Kernel.Constructed.{Permutes, Returns, resolution-runtime_graph}
use heptalogos.Kernel.Plan.{
  ReconcileAction, ReconcileInput, ReconcilePlan, rebind_service, quiesce, stop, start, holds,
  plan_with, plan,
}
use heptalogos.Kernel.Distinct.{Once, ListsOnce}
use heptalogos.Kernel.Execution.{is_executable}
use heptalogos.Kernel.Executable.{plan_executable}
use heptalogos.Kernel.TwoPasses.{plan_two_passes}

-- The orders as they are given, which is a topological order of the definitions below.
abbrev as_given : Orders
as_given = record {
  by_micro_system_id = λ ds. ds;
  by_service_id = λ rs. rs;
  by_ends = λ es. es;
  topsort = λ nodes edges. some nodes;
}

same : {A : Type 0} → Permutes {A = A} (λ l. l)
same [] = Permᴰ.nil
same (x ∷ xs) = Permᴰ.cons refl (same xs)

abbrev store : MicroSystemDefinition
store = record {
  micro_system_id = "store";
  operating_modes = "normal" ∷ [];
  service_requirements = [];
  service_provisions =
      record { service_id = "rows"; contract_version = "v1"; provider_id = "store.rows" } ∷ [];
}

abbrev client : MicroSystemDefinition
client = record {
  micro_system_id = "client";
  operating_modes = "normal" ∷ [];
  service_requirements = record { service_id = "rows"; contract_version = "v1" } ∷ [];
  service_provisions = [];
}

-- Nothing provides what it needs.
abbrev orphan : MicroSystemDefinition
orphan = record client {
  micro_system_id = "orphan";
  service_requirements = record { service_id = "rows"; contract_version = "v2" } ∷ [];
}

abbrev systems : List MicroSystemDefinition
systems = store ∷ client ∷ orphan ∷ []

abbrev wanted : DesiredRuntimeSnapshot
wanted = record {
  revision = 1;
  operating_mode = "normal";
  desired = λ id. some MicroSystemDesiredState.running;
  service_bindings = [];
  capability_bindings = [];
}

abbrev all_stopped : ReconcileInput
all_stopped = record {
  definitions = systems;
  desired = wanted;
  actual = λ id. none;
  current_service_bindings = [];
  current_capability_bindings = [];
}

resolution-IsResolved_example : IsResolved [] (resolution wanted systems)
resolution-IsResolved_example = resolution-IsResolved wanted systems

orphan_removed : has_id "orphan" (resolution wanted systems).resolvable ≡ false
unfolding resolution is_eligible
orphan_removed = refl

resolution-Covered_example : IsCovered "orphan" (resolution wanted systems)
unfolding is_desired
resolution-Covered_example = resolution-Covered wanted "orphan" systems refl

resolution-runtime_graph_example :
    let g = runtime_graph as_given (resolution wanted systems).resolvable [] in
    (g ≡ throw duplicate_node) ⊎ Returns g
resolution-runtime_graph_example = resolution-runtime_graph as_given wanted systems same same

plan_two_passes_example : plan as_given all_stopped ≡ plan_with false as_given all_stopped
plan_two_passes_example = plan_two_passes as_given all_stopped same

actions_of : Except GraphProblem ReconcilePlan → List ReconcileAction
actions_of (return p) = p.actions
actions_of (throw problem) = []

planned :
    actions_of (plan as_given all_stopped)
    ≡ rebind_service "rows" "store.rows"
      ∷ start "store" "desired-running"
      ∷ start "client" "desired-running"
      ∷ []
unfolding plan actions_of
planned = refl

-- The nodes without repetition.
abbrev dedupe : List String → List String
dedupe [] = []
dedupe (x ∷ xs) = if holds x xs then dedupe xs else x ∷ dedupe xs

dedupe_new : (x : String) (xs : List String) → holds x xs ≡ false → holds x (dedupe xs) ≡ false
dedupe_new x [] e = refl
dedupe_new x (y ∷ xs) e =
    let (f, g) = or-false (str_eq y x) (holds x xs) e in
    elim (holds y xs) as (λ b. holds x (if b then dedupe xs else y ∷ dedupe xs) ≡ false) [
      | true ↦ dedupe_new x xs g
      | false ↦ rw (f, dedupe_new x xs g) refl
    ]

dedupe-Once : (xs : List String) → Once (dedupe xs)
dedupe-Once [] = tt
dedupe-Once (x ∷ xs) = elim (Bool-cases (holds x xs)) [
  | inl t ↦ rw t (dedupe-Once xs)
  | inr f ↦ rw f (dedupe_new x xs f, dedupe-Once xs)
]

abbrev once_each : Orders
once_each = record as_given { topsort = λ nodes edges. some (dedupe nodes) }

once_each-ListsOnce : ListsOnce once_each
once_each-ListsOnce nodes edges ids e = subst Once (some_inj e) (dedupe-Once nodes)

-- The old store is to be replaced by the new one under a client that runs.
abbrev old_store : MicroSystemDefinition
old_store = record {
  micro_system_id = "old";
  operating_modes = "normal" ∷ [];
  service_requirements = [];
  service_provisions =
      record { service_id = "rows"; contract_version = "v1"; provider_id = "old.rows" } ∷ [];
}

abbrev replacement : ReconcileInput
replacement = record {
  definitions = store ∷ old_store ∷ client ∷ [];
  desired = record wanted {
    desired = λ id. some (
        if str_eq id "old"
        then MicroSystemDesiredState.stopped
        else MicroSystemDesiredState.running);
  };
  actual = λ id. some MicroSystemActualState.running;
  current_service_bindings = ("rows", "old.rows") ∷ [];
  current_capability_bindings = [];
}

abbrev value_of : Except GraphProblem ReconcilePlan → ReconcilePlan
value_of (return p) = p
value_of (throw problem) = record {
  revision = 0;
  actions = [];
  blocked = λ id. none;
  service_bindings = [];
  desired_service_bindings = [];
  capability_bindings = [];
}

replaced :
    (value_of (plan once_each replacement)).actions
    ≡ quiesce "client" "hard-service-rebind"
      ∷ stop "client" "hard-service-rebind"
      ∷ rebind_service "rows" "store.rows"
      ∷ quiesce "old" "desired-stopped"
      ∷ stop "old" "desired-stopped"
      ∷ start "client" "desired-running"
      ∷ []
unfolding plan is_eligible
replaced = refl

plan_executable_example :
    is_executable (λ id. true) (value_of (plan once_each replacement)).actions ≡ true
unfolding plan is_eligible
plan_executable_example =
    plan_executable once_each replacement (value_of (plan once_each replacement))
      once_each-ListsOnce refl
