-- ===== src/Kernel/Members.antt =====
-- packages/runtime/runtime-kernel/src/reconciliation/runtime-graph.ts: the orders of a graph's plan have
-- only definitions that it was built from.
use heptalogos.Prelude.{
  ◌≡◌, ap, subst, Bool, true, false, String, List, [], ◌∷◌, ◌++◌, Option, none, some, str_eq,
  if◌then◌else◌, All, arith,
}
use heptalogos.Prelude.Except.{return, return-injective, >>=-eq-return}
use heptalogos.Kernel.Model.{MicroSystemDefinition, Bindings, filter}
use heptalogos.Kernel.Graph.{
  Orders, set_nodes, edges_of, RuntimeGraph, runtime_graph, RuntimeGraphPlan, definition_of,
  definitions_of, reverse_onto, plan_in_order, graph_plan,
}
use heptalogos.Kernel.Constructed.{Permutes, All-Permᴰ}
use heptalogos.Kernel.Plan.{plan_of}

module _ {A : Type 0} (P : A → Type 0) where
  pub All-filter : (p : A → Bool) (xs : List A) → All P xs → All P (filter p xs)
  All-filter p [] a = tt
  All-filter p (x ∷ xs) (h, a) =
      elim (p x) as (λ b. All P (if b then x ∷ filter p xs else filter p xs)) [
        | true ↦ (h, All-filter p xs a)
        | false ↦ All-filter p xs a
      ]

  All-append : (xs ys : List A) → All P xs → All P ys → All P (xs ++ ys)
  All-append [] ys a b = b
  All-append (x ∷ xs) ys (h, a) b = (h, All-append xs ys a b)

  All-reverse_onto : (xs ys : List A) → All P xs → All P ys → All P (reverse_onto xs ys)
  All-reverse_onto [] ys a b = b
  All-reverse_onto (x ∷ xs) ys (h, a) b = All-reverse_onto xs (x ∷ ys) a (h, b)

module _ (P : MicroSystemDefinition → Type 0) where
  All-definition_of :
      (ds : List MicroSystemDefinition) (id : String) → All P ds → All P (definition_of ds id)
  All-definition_of [] id a = tt
  All-definition_of (d ∷ ds) id (h, a) =
      elim (str_eq d.micro_system_id id)
        as (λ b. All P (if b then d ∷ [] else definition_of ds id)) [
          | true ↦ (h, tt)
          | false ↦ All-definition_of ds id a
        ]

  All-definitions_of :
      (ds : List MicroSystemDefinition) (ids : List String)
      → All P ds
      → All P (definitions_of ds ids)
  All-definitions_of ds [] a = tt
  All-definitions_of ds (id ∷ ids) a =
      All-append P (definition_of ds id) (definitions_of ds ids) (All-definition_of ds id a)
        (All-definitions_of ds ids a)

  All-plan_in_order :
      (orders : Orders) (g : RuntimeGraph) (o : Option (List String)) (p : RuntimeGraphPlan)
      → All P g.definitions
      → plan_in_order orders g o ≡ return p
      → All P p.shutdown_order
  All-plan_in_order orders g none p a e = absurd (ground (arith, e))
  All-plan_in_order orders g (some ids) p a e =
      let order = definitions_of g.definitions ids in
      subst (λ z. All P z.shutdown_order) (return-injective e)
        (All-reverse_onto P order [] (All-definitions_of g.definitions ids a) tt)

  graph-definitions :
      (orders : Orders) (ds : List MicroSystemDefinition) (bindings : Bindings) (g : RuntimeGraph)
      → runtime_graph orders ds bindings ≡ return g
      → orders.by_micro_system_id ds ≡ g.definitions
  unfolding runtime_graph
  graph-definitions orders ds bindings g e =
      let ordered = orders.by_micro_system_id ds in
      let (u, p, q) = >>=-eq-return (set_nodes [] ordered) _ e in
      let (es, p', q') = >>=-eq-return (edges_of orders bindings ordered ordered) _ q in
      ap (λ z. z.definitions) (return-injective q')

  pub All-plan_of :
      (orders : Orders) (ds : List MicroSystemDefinition) (bindings : Bindings)
      (p : RuntimeGraphPlan)
      → Permutes orders.by_micro_system_id
      → All P ds
      → plan_of orders ds bindings ≡ return p
      → All P p.shutdown_order
  unfolding graph_plan
  All-plan_of orders [] bindings p s a e =
      subst (λ z. All P z.shutdown_order) (return-injective e) tt
  All-plan_of orders (d ∷ ds) bindings p s a e =
      let (g, q, r) =
        >>=-eq-return (runtime_graph orders (d ∷ ds) bindings) (graph_plan orders) e in
      let f = graph-definitions orders (d ∷ ds) bindings g q in
      All-plan_in_order orders g _ p (subst (All P) f (All-Permᴰ P (s (d ∷ ds)) a)) r
