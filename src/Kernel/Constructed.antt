-- ===== src/Kernel/Constructed.antt =====
-- packages/runtime/runtime-kernel/src/reconciliation: the RuntimeGraph of the definitions that the loop
-- of the reconciler leaves.
use heptalogos.Prelude.{
  ℕ, ◌+◌, ◌≡◌, refl, sym, ap, subst, ◌∙◌, true, false, String, List, [], ◌∷◌, ◌++◌, Option, arith,
  if◌then◌else◌, map, length, All, ◌⊎◌, inl, inr,
}
use mathlib.Core.List.{Permᴰ}
use heptalogos.Prelude.Except.{Except, return, throw, ◌>>=◌}
use heptalogos.Kernel.Model.{
  ServiceRequirement, ServiceProvision, MicroSystemDefinition, Bindings, get,
  DesiredRuntimeSnapshot, filter, count, is_eligible, has_id,
}
use heptalogos.Kernel.Resolve.{count_providers, resolution}
use heptalogos.Kernel.Resolved.{IsServed, resolution-IsResolved, All-map}
use heptalogos.Kernel.Graph.{
  GraphProblem, duplicate_node, Edge, Orders, set_nodes, provisions_of, graph_candidates, sole_edge,
  edges_of_consumer, edges_of, RuntimeGraph, runtime_graph,
}

-- Sorting permutes.
abbrev pub Permutes : {A : Type 0} → (List A → List A) → Type 0
Permutes {A} sort = (l : List A) → Permᴰ l (sort l)

pub All-Permᴰ : {A : Type 0} (P : A → Type 0) {l m : List A} → Permᴰ l m → All P l → All P m
All-Permᴰ P Permᴰ.nil a = tt
All-Permᴰ P (Permᴰ.cons e p) (h, a) = (subst P e h, All-Permᴰ P p a)
All-Permᴰ P (Permᴰ.swap e d) (h, (k, a)) = (subst P d k, (subst P e h, a))
All-Permᴰ P (Permᴰ.trans p q) a = All-Permᴰ P q (All-Permᴰ P p a)

module _ (explicit : Option String) (r : ServiceRequirement) where
  provisions_count : MicroSystemDefinition → ℕ
  provisions_count d = count (is_eligible explicit r) d.service_provisions

  count_providers-Permᴰ :
      {l m : List MicroSystemDefinition}
      → Permᴰ l m
      → count_providers explicit r l ≡ count_providers explicit r m
  unfolding count_providers provisions_count
  count_providers-Permᴰ Permᴰ.nil = refl
  count_providers-Permᴰ (Permᴰ.cons e p) =
      omega (arith, ap provisions_count e, count_providers-Permᴰ p)
  count_providers-Permᴰ (Permᴰ.swap e d) =
      omega (arith, ap provisions_count e, ap provisions_count d)
  count_providers-Permᴰ (Permᴰ.trans p q) = count_providers-Permᴰ p ∙ count_providers-Permᴰ q

length-append : {A : Type 0} (xs ys : List A) → length (xs ++ ys) ≡ length xs + length ys
length-append [] ys = omega arith
length-append (x ∷ xs) ys = let h = length-append xs ys in omega (arith, h)

module _ (explicit : Option String) (r : ServiceRequirement) where
  length-provisions :
      (d : MicroSystemDefinition) (ps : List ServiceProvision)
      → length {A = MicroSystemDefinition × ServiceProvision}
          (map (λ p. (d, p)) (filter (is_eligible explicit r) ps))
        ≡ count (is_eligible explicit r) ps
  length-provisions d [] = refl
  length-provisions d (p ∷ ps) =
      let h = length-provisions d ps in
      elim (is_eligible explicit r p)
        as (λ b.
          length {A = MicroSystemDefinition × ServiceProvision} (
            map (λ x. (d, x))
              (if b
                then p ∷ filter (is_eligible explicit r) ps
                else filter (is_eligible explicit r) ps))
          ≡ (if b then 1 else 0) + count (is_eligible explicit r) ps) [
            | true ↦ omega (arith, h)
            | false ↦ omega (arith, h)
          ]

  length-graph_candidates :
      (ds : List MicroSystemDefinition)
      → length (graph_candidates explicit r ds) ≡ count_providers explicit r ds
  unfolding count_providers
  length-graph_candidates [] = refl
  length-graph_candidates (d ∷ ds) =
      let h = length-graph_candidates ds in
      let k = length-provisions d d.service_provisions in
      let a = length-append (provisions_of explicit r d) (graph_candidates explicit r ds) in
      omega (arith, h, k, a)

-- A call that returned.
abbrev pub Returns : {E A : Type 0} → Except E A → Type 0
Returns {E} {A} m = (a : A) × (m ≡ return a)

>>=-Returns :
    {E A B : Type 0} (m : Except E A) (f : A → Except E B)
    → Returns m
    → ((a : A) → Returns (f a))
    → Returns (m >>= f)
>>=-Returns m f (a, e) g = let (b, d) = g a in (b, ap (λ z. z >>= f) e ∙ d)

sole_edge-Returns :
    (consumer : MicroSystemDefinition) (r : ServiceRequirement) (explicit : Option String)
    (cs : List (MicroSystemDefinition × ServiceProvision))
    → length cs ≡ 1
    → Returns (sole_edge consumer r explicit cs)
sole_edge-Returns consumer r explicit [] e = let c : ⊥ = omega (arith, e) in absurd c
sole_edge-Returns consumer r explicit (c ∷ []) e = (_, refl)
sole_edge-Returns consumer r explicit (c ∷ d ∷ cs) e = let c : ⊥ = omega (arith, e) in absurd c

module _ (bindings : Bindings) (ds : List MicroSystemDefinition) where
  edges_of_consumer-Returns :
      (consumer : MicroSystemDefinition) (rs : List ServiceRequirement)
      → All (λ r. count_providers (get bindings r.service_id) r ds ≡ 1) rs
      → Returns (edges_of_consumer bindings ds consumer rs)
  edges_of_consumer-Returns consumer [] a = ([], refl)
  edges_of_consumer-Returns consumer (r ∷ rs) (h, a) =
      let explicit = get bindings r.service_id in
      >>=-Returns (sole_edge consumer r explicit (graph_candidates explicit r ds)) _
        (sole_edge-Returns consumer r explicit (graph_candidates explicit r ds)
          (length-graph_candidates explicit r ds ∙ h))
        (λ e.
          >>=-Returns (edges_of_consumer bindings ds consumer rs) (λ es. return (e ∷ es))
            (edges_of_consumer-Returns consumer rs a) (λ es. (e ∷ es, refl)))

  edges_of-Returns :
      (orders : Orders) (cs : List MicroSystemDefinition)
      → Permutes orders.by_service_id
      → All (IsServed bindings ds) cs
      → Returns (edges_of orders bindings ds cs)
  edges_of-Returns orders [] p a = ([], refl)
  edges_of-Returns orders (c ∷ cs) p (h, a) =
      let rs = orders.by_service_id c.service_requirements in
      >>=-Returns (edges_of_consumer bindings ds c rs) _
        (edges_of_consumer-Returns c rs (All-Permᴰ _ (p c.service_requirements) h))
        (λ es.
          >>=-Returns (edges_of orders bindings ds cs) (λ rest. return (es ++ rest))
            (edges_of-Returns orders cs p a) (λ rest. (es ++ rest, refl)))

set_nodes_answers :
    (seen ds : List MicroSystemDefinition)
    → (set_nodes seen ds ≡ throw duplicate_node) ⊎ (set_nodes seen ds ≡ return tt)
set_nodes_answers seen [] = inr refl
set_nodes_answers seen (d ∷ ds) =
    elim (has_id d.micro_system_id seen)
      as (λ b.
        ((if b then throw duplicate_node else set_nodes (d ∷ seen) ds) ≡ throw duplicate_node)
        ⊎ ((if b then throw duplicate_node else set_nodes (d ∷ seen) ds) ≡ return tt)) [
          | true ↦ inl refl
          | false ↦ set_nodes_answers (d ∷ seen) ds
        ]

IsServed-sorted :
    (bindings : Bindings) (l m : List MicroSystemDefinition)
    → Permᴰ l m
    → All (IsServed bindings l) l
    → All (IsServed bindings m) m
IsServed-sorted bindings l m p a =
    All-map (IsServed bindings l) (IsServed bindings m) m
      (λ d h.
        All-map _ _ d.service_requirements
          (λ r e. sym (count_providers-Permᴰ (get bindings r.service_id) r p) ∙ e) h)
      (All-Permᴰ (IsServed bindings l) p a)

-- The RuntimeGraph of the definitions that the reconciler's loop leaves is built, unless an identity
-- occurs twice: no Service is missing or ambiguous in it, whatever order the sorting by identities
-- puts definitions and requirements in.
pub resolution-runtime_graph :
    (orders : Orders) (desired : DesiredRuntimeSnapshot) (definitions : List MicroSystemDefinition)
    → Permutes orders.by_micro_system_id
    → Permutes orders.by_service_id
    → let g =
        runtime_graph orders (resolution desired definitions).resolvable desired.service_bindings in
      (g ≡ throw duplicate_node) ⊎ Returns g
unfolding runtime_graph
resolution-runtime_graph orders desired definitions p q =
    let ds = (resolution desired definitions).resolvable in
    let ordered = orders.by_micro_system_id ds in
    let graph : List Edge → Except GraphProblem RuntimeGraph =
      λ edges. return (record { definitions = ordered; edges = edges }) in
    let k : Unit {0} → Except GraphProblem RuntimeGraph =
      λ _. edges_of orders desired.service_bindings ordered ordered >>= graph in
    elim (set_nodes_answers [] ordered) [
      | inl e ↦ inl (ap (λ z. z >>= k) e)
      | inr e ↦
          let (es, d) = edges_of-Returns desired.service_bindings ordered orders ordered q (
            IsServed-sorted desired.service_bindings ds ordered (p ds)
              (resolution-IsResolved desired definitions).1) in
          inr (
            record { definitions = ordered; edges = es },
            ap (λ z. z >>= k) e ∙ ap (λ z. z >>= graph) d,
          )
    ]
