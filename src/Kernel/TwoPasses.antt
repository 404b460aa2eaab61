-- ===== src/Kernel/TwoPasses.antt =====
-- packages/runtime/runtime-kernel/src/reconciliation/reconciler.ts: what the third shutdown pass and the
-- marks after it do.
use heptalogos.Prelude.{
  ◌≡◌, refl, sym, ap, ◌∙◌, Bool, true, false, not, ◌&&◌, ◌||◌, String, List, [], ◌∷◌, ◌++◌, Option,
  none, some, str_eq, str_eq-true, if◌then◌else◌, is_some, All, arith,
}
use heptalogos.Prelude.Except.{Except, return, throw, ◌>>=◌}
use heptalogos.Kernel.Model.{
  MicroSystemDefinition, Bindings, get, set, DesiredRuntimeSnapshot, has_id,
}
use heptalogos.Kernel.Resolve.{Blocked, block, is_desired, resolution}
use heptalogos.Kernel.Resolved.{All-map}
use heptalogos.Kernel.Covered.{kept, refused, still_blocked, has_desired, resolution-Covered}
use heptalogos.Kernel.Graph.{Edge, Orders, RuntimeGraphPlan}
use heptalogos.Kernel.Constructed.{Permutes}
use heptalogos.Kernel.Plan.{
  ReconcileInput, is_running, current_definitions, plan_of, select_edge, select_services,
  must_rebind, stop_all, rebind_stops, is_unwanted, is_unresolved, reason_or, block_dependents,
  service_rebinds, capability_rebinds, capability_releases, starts, assemble, plan_with, plan,
}
use heptalogos.Kernel.Members.{All-filter, All-plan_of}
use heptalogos.Kernel.Passes.{stop_all-AreStopped, stop_all_idle, block_dependents_idle}

select_edge-blocked :
    (e : Edge) (o : Option String) (s : Bindings × Blocked) (id : String)
    → is_some (s.1 id) ≡ true
    → is_some ((select_edge e o s).1 id) ≡ true
select_edge-blocked e none s id h = h
select_edge-blocked e (some previous) s id h =
    elim (str_eq previous e.provider_id)
      as (λ b.
        let z : Bindings × Blocked =
          if b
          then (set s.0 e.service_id e.provider_id, s.1)
          else (s.0, block e.consumer.micro_system_id "runtime.service.binding_conflict" s.1) in
        is_some (z.1 id) ≡ true) [
          | true ↦ h
          | false ↦ still_blocked e.consumer.micro_system_id _ s.1 id h
        ]

select_services-blocked :
    (es : List Edge) (s : Bindings × Blocked) (id : String)
    → is_some (s.1 id) ≡ true
    → is_some ((select_services es s).1 id) ≡ true
select_services-blocked [] s id h = h
select_services-blocked (e ∷ es) s id h =
    select_services-blocked es (select_edge e (get s.0 e.service_id) s) id
      (select_edge-blocked e (get s.0 e.service_id) s id h)

All-both :
    {A : Type 0} (P Q R : A → Type 0) (xs : List A)
    → ((x : A) → P x → Q x → R x)
    → All P xs
    → All Q xs
    → All R xs
All-both P Q R [] f a b = tt
All-both P Q R (x ∷ xs) f (p, a) (q, b) = (f x p q, All-both P Q R xs f a b)

module _ (input : ReconcileInput) (definitions : List MicroSystemDefinition) where
  -- A definition of the input, as far as it is desired.
  abbrev pub IsKnown : MicroSystemDefinition → Type 0
  IsKnown d =
      is_desired input.desired d ≡ true
      → has_desired input.desired d.micro_system_id definitions ≡ true

  -- A desired definition that is not resolvable is blocked when the passes run.
  blocked_by_then :
      (es : List Edge) (d : MicroSystemDefinition)
      → IsKnown d
      → is_desired input.desired d ≡ true
      → has_id d.micro_system_id (resolution input.desired definitions).resolvable ≡ false
      → is_some (
          (select_services es ([], (resolution input.desired definitions).blocked)).1
            d.micro_system_id)
        ≡ true
  blocked_by_then es d k w n =
      let r = resolution input.desired definitions in
      elim (resolution-Covered input.desired d.micro_system_id definitions (k w)) [
        | kept e ↦ let c : true ≡ false = sym e ∙ n in cc
        | refused e ↦ select_services-blocked es ([], r.blocked) d.micro_system_id e
      ]

  tests_agree :
      (run want has blocked : Bool)
      → (want ≡ true → has ≡ false → blocked ≡ true)
      → (run && (not want || not has)) ≡ true
      → (run && (not want || blocked)) ≡ true
  tests_agree false want has blocked f e = e
  tests_agree true false has blocked f e = refl
  tests_agree true true false blocked f e = f refl refl
  tests_agree true true true blocked f e = cc

  none_unexplained :
      (run want has blocked : Bool)
      → (want ≡ true → has ≡ false → blocked ≡ true)
      → (run && want && not has && not blocked) ≡ false
  none_unexplained false want has blocked f = refl
  none_unexplained true false has blocked f = refl
  none_unexplained true true true blocked f = refl
  none_unexplained true true false blocked f = rw (f refl refl) refl

  assemble_twice :
      (next current : RuntimeGraphPlan)
      → All IsKnown definitions
      → All IsKnown current.shutdown_order
      → assemble true input definitions (resolution input.desired definitions) next current
        ≡ assemble false input definitions (resolution input.desired definitions) next current
  assemble_twice next current known order_known =
      let r = resolution input.desired definitions in
      let s = select_services next.plan_edges ([], r.blocked) in
      let order = current.shutdown_order in
      let reason : MicroSystemDefinition → String = λ d. reason_or (s.1 d.micro_system_id) in
      let first = rebind_stops (must_rebind input s.0) order in
      let second = stop_all (is_unwanted input s.1) reason order first.1 in
      let then_blocked =
        λ (d : MicroSystemDefinition) (k : IsKnown d). blocked_by_then next.plan_edges d k in
      let idle : stop_all (is_unresolved input r) reason order second.1 ≡ ([], second.1) =
        stop_all_idle (is_unresolved input r) reason order second.1 (
          All-both IsKnown _ _ order
            (λ d k h e. h (
              tests_agree (is_running input d) (is_desired input.desired d)
                (has_id d.micro_system_id r.resolvable) (is_some (s.1 d.micro_system_id))
                (then_blocked d k) e))
            order_known (stop_all-AreStopped (is_unwanted input s.1) reason order first.1)) in
      let unmarked : block_dependents input r definitions s.1 ≡ s.1 =
        block_dependents_idle input r definitions s.1 (
          All-map IsKnown _ definitions
            (λ d k.
              none_unexplained (is_running input d) (is_desired input.desired d)
                (has_id d.micro_system_id r.resolvable) (is_some (s.1 d.micro_system_id))
                (then_blocked d k))
            known) in
      λ i. record (assemble false input definitions r next current) {
        actions =
            first.0
            ++ (service_rebinds input.current_service_bindings s.0 s.0
                ++ (capability_rebinds input.current_capability_bindings
                      input.desired.capability_bindings
                    ++ (capability_releases input.desired.capability_bindings
                          input.current_capability_bindings
                        ++ (second.0 ++ ((idle i).0 ++ starts input first.1 next.start_order)))));
        blocked = unmarked i;
      }

self_known :
    (desired : DesiredRuntimeSnapshot) (ds : List MicroSystemDefinition)
    → All (λ d. is_desired desired d ≡ true → has_desired desired d.micro_system_id ds ≡ true) ds
self_known desired [] = tt
self_known desired (d ∷ ds) = (
  λ e. rw (str_eq-true d.micro_system_id d.micro_system_id refl, e) refl,
  All-map _ _ ds
      (λ x h e.
        let f : has_desired desired x.micro_system_id (d ∷ ds) ≡ true = ground (arith, h e) in f)
      (self_known desired ds),
)

>>=-cong :
    {E A B : Type 0} (m : Except E A) (f g : A → Except E B)
    → ((a : A) → m ≡ return a → f a ≡ g a)
    → (m >>= f) ≡ (m >>= g)
>>=-cong (return a) f g h = h a refl
>>=-cong (throw e) f g h = refl

-- The third shutdown pass and the marks of blocked dependents after it never do anything: the plan
-- without them is the same plan, for all inputs and whichever sorting and topological sort are used.
pub plan_two_passes :
    (orders : Orders) (input : ReconcileInput)
    → Permutes orders.by_micro_system_id
    → plan orders input ≡ plan_with false orders input
unfolding plan plan_with
plan_two_passes orders input sorts =
    let definitions = orders.by_micro_system_id input.definitions in
    let r = resolution input.desired definitions in
    let known = self_known input.desired definitions in
    >>=-cong (plan_of orders r.resolvable input.desired.service_bindings) _ _ (λ next _.
      >>=-cong
        (plan_of orders (current_definitions input definitions) input.current_service_bindings) _ _
        (λ current e. ap return (
          assemble_twice input definitions next current known (
            All-plan_of (IsKnown input definitions) orders (current_definitions input definitions)
              input.current_service_bindings current sorts
              (All-filter (IsKnown input definitions) _ definitions known) e))))
