-- ===== src/Kernel/Distinct.antt =====
-- packages/runtime/runtime-kernel/src/reconciliation/runtime-graph.ts: a plan's orders have each identity
-- once, if the topological sort lists each node once.
use heptalogos.Prelude.{
  ◌≡◌, refl, sym, subst, ◌∙◌, ◌⊎◌, inl, inr, true, false, String, List, [], ◌∷◌, ◌++◌, Option, none,
  some, str_eq, true-str_eq, str_eq-true, All, arith, Bool-cases, or-false,
}
use heptalogos.Prelude.Except.{return, return-injective, >>=-eq-return}
use heptalogos.Kernel.Model.{MicroSystemDefinition, Bindings}
use heptalogos.Kernel.Graph.{
  Orders, RuntimeGraph, runtime_graph, RuntimeGraphPlan, definition_of, definitions_of,
  reverse_onto, plan_in_order, graph_plan,
}
use heptalogos.Kernel.Plan.{holds, plan_of}

abbrev pub Once : List String → Type 0
Once [] = Unit {0}
Once (id ∷ ids) = (holds id ids ≡ false) × Once ids

-- A topological sort lists each node once.
abbrev pub ListsOnce : Orders → Type 0
ListsOnce orders =
    (nodes : List String) (edges : List (String × String)) (ids : List String)
    → orders.topsort nodes edges ≡ some ids
    → Once ids

abbrev pub Apart : MicroSystemDefinition → MicroSystemDefinition → Type 0
Apart d e = str_eq d.micro_system_id e.micro_system_id ≡ false

abbrev pub Distinct : List MicroSystemDefinition → Type 0
Distinct [] = Unit {0}
Distinct (d ∷ ds) = All (Apart d) ds × Distinct ds

Apart-sym : (d e : MicroSystemDefinition) → Apart d e → Apart e d
Apart-sym d e h = elim (Bool-cases (str_eq e.micro_system_id d.micro_system_id)) [
  | inl t ↦
      let c : true ≡ false =
        sym (
          str_eq-true d.micro_system_id e.micro_system_id
            (sym (true-str_eq e.micro_system_id d.micro_system_id t)))
        ∙ h in
      cc
  | inr f ↦ f
]

Distinct-reverse_onto :
    (xs ys : List MicroSystemDefinition)
    → Distinct xs
    → Distinct ys
    → All (λ x. All (Apart x) ys) xs
    → Distinct (reverse_onto xs ys)
Distinct-reverse_onto [] ys d e c = e
Distinct-reverse_onto (x ∷ xs) ys (a, d) e (h, c) =
    Distinct-reverse_onto xs (x ∷ ys) d (h, e) (crossed xs a c)
  where
    crossed :
        (zs : List MicroSystemDefinition)
        → All (Apart x) zs
        → All (λ z. All (Apart z) ys) zs
        → All (λ z. All (Apart z) (x ∷ ys)) zs
    crossed [] a c = tt
    crossed (z ∷ zs) (h, a) (k, c) = ((Apart-sym x z h, k), crossed zs a c)

Apart-from_none : (xs : List MicroSystemDefinition) → All (λ x. All (Apart x) []) xs
Apart-from_none [] = tt
Apart-from_none (x ∷ xs) = (tt, Apart-from_none xs)

definition_cases :
    (ds : List MicroSystemDefinition) (id : String)
    → (definition_of ds id ≡ [])
      ⊎ ((d : MicroSystemDefinition) × (definition_of ds id ≡ d ∷ []) × (d.micro_system_id ≡ id))
definition_cases [] id = inl refl
definition_cases (d ∷ ds) id = elim (Bool-cases (str_eq d.micro_system_id id)) [
  | inl t ↦ inr (d, rw t refl, true-str_eq d.micro_system_id id t)
  | inr f ↦ rw f (definition_cases ds id)
]

Apart-from_others :
    (ds : List MicroSystemDefinition) (d : MicroSystemDefinition) (ids : List String)
    → holds d.micro_system_id ids ≡ false
    → All (Apart d) (definitions_of ds ids)
Apart-from_others ds d [] e = tt
Apart-from_others ds d (id ∷ ids) e =
    let (f, g) = or-false (str_eq id d.micro_system_id) (holds d.micro_system_id ids) e in
    elim (definition_cases ds id) [
      | inl n ↦
          subst (λ l. All (Apart d) (l ++ definitions_of ds ids)) (sym n)
            (Apart-from_others ds d ids g)
      | inr (x, s, k) ↦
          subst (λ l. All (Apart d) (l ++ definitions_of ds ids)) (sym s)
            (
              Apart-sym x d (subst (λ z. str_eq z d.micro_system_id ≡ false) (sym k) f),
              Apart-from_others ds d ids g,
            )
    ]

Distinct-definitions_of :
    (ds : List MicroSystemDefinition) (ids : List String)
    → Once ids
    → Distinct (definitions_of ds ids)
Distinct-definitions_of ds [] o = tt
Distinct-definitions_of ds (id ∷ ids) (h, o) = elim (definition_cases ds id) [
  | inl n ↦
      subst (λ l. Distinct (l ++ definitions_of ds ids)) (sym n) (Distinct-definitions_of ds ids o)
  | inr (x, s, k) ↦
      subst (λ l. Distinct (l ++ definitions_of ds ids)) (sym s)
        (
          Apart-from_others ds x ids (subst (λ z. holds z ids ≡ false) (sym k) h),
          Distinct-definitions_of ds ids o,
        )
]

-- Both orders of a plan.
abbrev pub HasDistinctOrders : RuntimeGraphPlan → Type 0
HasDistinctOrders p = Distinct p.start_order × Distinct p.shutdown_order

in_order-HasDistinctOrders :
    (orders : Orders) (g : RuntimeGraph) (o : Option (List String)) (p : RuntimeGraphPlan)
    → ((ids : List String) → o ≡ some ids → Once ids)
    → plan_in_order orders g o ≡ return p
    → HasDistinctOrders p
in_order-HasDistinctOrders orders g none p f e = absurd (ground (arith, e))
in_order-HasDistinctOrders orders g (some ids) p f e =
    let order = definitions_of g.definitions ids in
    let d = Distinct-definitions_of g.definitions ids (f ids refl) in
    subst HasDistinctOrders (return-injective e)
      (d, Distinct-reverse_onto order [] d tt (Apart-from_none order))

pub plan_of-HasDistinctOrders :
    (orders : Orders) (ds : List MicroSystemDefinition) (bindings : Bindings) (p : RuntimeGraphPlan)
    → ListsOnce orders
    → plan_of orders ds bindings ≡ return p
    → HasDistinctOrders p
unfolding graph_plan
plan_of-HasDistinctOrders orders [] bindings p l e =
    subst HasDistinctOrders (return-injective e) (tt, tt)
plan_of-HasDistinctOrders orders (d ∷ ds) bindings p l e =
    let (g, q, r) = >>=-eq-return (runtime_graph orders (d ∷ ds) bindings) (graph_plan orders) e in
    in_order-HasDistinctOrders orders g _ p (l _ _) r
