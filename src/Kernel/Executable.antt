-- ===== src/Kernel/Executable.antt =====
-- packages/runtime/runtime-kernel/src/reconciliation/reconciler.ts: a plan can be carried out as it is.
use heptalogos.Prelude.{
  ◌≡◌, refl, sym, subst, ◌∙◌, Bool, true, false, not, ◌&&◌, ◌||◌, String, List, [], ◌∷◌, ◌++◌, none,
  some, if◌then◌else◌, is_some, All, Bool-cases, inl, inr, and-true,
}
use heptalogos.Prelude.Except.{return, return-injective, >>=-eq-return}
use heptalogos.Kernel.Model.{MicroSystemDefinition, Bindings, get}
use heptalogos.Kernel.Resolve.{Resolution, resolution}
use heptalogos.Kernel.Graph.{Orders, RuntimeGraphPlan}
use heptalogos.Kernel.Distinct.{
  Apart, Distinct, ListsOnce, HasDistinctOrders, plan_of-HasDistinctOrders,
}
use heptalogos.Kernel.Passes.{stop_all_keeps}
use heptalogos.Kernel.Execution.{
  Running, after_action, is_executable, Agrees, stop_all_executable, rebind_stops_executable,
}
use heptalogos.Kernel.Plan.{
  ReconcileAction, start, rebind_service, rebind_capability, ReconcileInput, ReconcilePlan, runs,
  is_running, current_definitions, holds, plan_of, select_services, must_rebind, stop_all,
  rebind_stops, is_changed, is_bound_to, service_rebinds, capability_rebinds, capability_releases,
  reason_or, is_unwanted, is_unresolved, starts, assemble, plan_with, plan,
}

module _ (run : Running) (ys : List ReconcileAction) (k : is_executable run ys ≡ true) where
  service_rebinds_executable :
      (current selected bs : Bindings)
      → is_executable run (service_rebinds current selected bs ++ ys) ≡ true
  unfolding is_executable
  service_rebinds_executable current selected [] = k
  service_rebinds_executable current selected ((id, provider) ∷ bs) =
      let rest = service_rebinds current selected bs in
      elim (is_changed current selected id)
        as (λ b.
          is_executable run ((if b then rebind_service id provider ∷ rest else rest) ++ ys)
          ≡ true) [
            | true ↦ service_rebinds_executable current selected bs
            | false ↦ service_rebinds_executable current selected bs
          ]

  capability_rebinds_executable :
      (current bs : Bindings) → is_executable run (capability_rebinds current bs ++ ys) ≡ true
  unfolding is_executable
  capability_rebinds_executable current [] = k
  capability_rebinds_executable current ((id, provider) ∷ bs) =
      let rest = capability_rebinds current bs in
      elim (is_bound_to (get current id) provider)
        as (λ b.
          is_executable run
            ((if b then rest else rebind_capability id (some provider) ∷ rest) ++ ys)
          ≡ true) [
            | true ↦ capability_rebinds_executable current bs
            | false ↦ capability_rebinds_executable current bs
          ]

  capability_releases_executable :
      (selected bs : Bindings) → is_executable run (capability_releases selected bs ++ ys) ≡ true
  unfolding is_executable
  capability_releases_executable selected [] = k
  capability_releases_executable selected ((id, provider) ∷ bs) =
      let rest = capability_releases selected bs in
      elim (is_some (get selected id))
        as (λ b.
          is_executable run ((if b then rest else rebind_capability id none ∷ rest) ++ ys) ≡ true) [
            | true ↦ capability_releases_executable selected bs
            | false ↦ capability_releases_executable selected bs
          ]

module _ (input : ReconcileInput) (restart : List String) where
  -- What is to be started does not run.
  abbrev pub AreDown : Running → List MicroSystemDefinition → Type 0
  AreDown run = All (λ d.
      (not (is_running input d) || holds d.micro_system_id restart) ≡ true
      → run d.micro_system_id ≡ false)

  still_down :
      (d : MicroSystemDefinition) (reason : String) (run : Running)
      (ds : List MicroSystemDefinition)
      → All (Apart d) ds
      → AreDown run ds
      → AreDown (after_action run (start d.micro_system_id reason)) ds
  still_down d reason run [] p a = tt
  still_down d reason run (x ∷ ds) (h, p) (f, a) = (λ e. rw h (f e), still_down d reason run ds p a)

  start_one :
      (run : Running) (id reason : String) (ys : List ReconcileAction)
      → run id ≡ false
      → is_executable (after_action run (start id reason)) ys ≡ true
      → is_executable run (start id reason ∷ ys) ≡ true
  unfolding is_executable
  start_one run id reason ys e k = rw (e, k) refl

  starts_executable :
      (ds : List MicroSystemDefinition) (run : Running)
      → Distinct ds
      → AreDown run ds
      → is_executable run (starts input restart ds) ≡ true
  unfolding is_executable
  starts_executable [] run d a = refl
  starts_executable (d ∷ ds) run (apart, distinct) (f, a) =
      let rest = starts input restart ds in
      elim (Bool-cases (not (is_running input d) || holds d.micro_system_id restart)) [
        | inl t ↦
            subst
              (λ b.
                is_executable run
                  (if b then start d.micro_system_id "desired-running" ∷ rest else rest)
                ≡ true)
              (sym t)
              (start_one run d.micro_system_id "desired-running" rest (f t) (
                starts_executable ds (after_action run (start d.micro_system_id "desired-running"))
                  distinct (still_down d "desired-running" run ds apart a)))
        | inr u ↦
            subst
              (λ b.
                is_executable run
                  (if b then start d.micro_system_id "desired-running" ∷ rest else rest)
                ≡ true)
              (sym u) (starts_executable ds run distinct a)
      ]

  down_at_last :
      (run : Running) (stopped : List String)
      → ((id : String) → holds id restart ≡ true → holds id stopped ≡ true)
      → Agrees input run (λ j. holds j stopped)
      → (ds : List MicroSystemDefinition) → AreDown run ds
  down_at_last run stopped f a [] = tt
  down_at_last run stopped f a (d ∷ ds) = (
    λ e.
        a d.micro_system_id
        ∙ down (is_running input d) (holds d.micro_system_id restart)
            (holds d.micro_system_id stopped) (f d.micro_system_id) e,
    down_at_last run stopped f a ds,
  )
    where
      down : (r h s : Bool) → (h ≡ true → s ≡ true) → (not r || h) ≡ true → (r && not s) ≡ false
      down false h s g e = refl
      down true true s g e = rw (g refl) refl
      down true false s g e = cc

All-new : (ds : List MicroSystemDefinition) → All (λ d. holds d.micro_system_id [] ≡ false) ds
All-new [] = tt
All-new (d ∷ ds) = (refl, All-new ds)

none_stopped : (b : Bool) → b ≡ (b && true)
none_stopped true = refl
none_stopped false = refl

assemble_executable :
    (input : ReconcileInput) (definitions : List MicroSystemDefinition) (r : Resolution)
    (next current : RuntimeGraphPlan)
    → HasDistinctOrders next
    → HasDistinctOrders current
    → is_executable
        (λ id. runs (input.actual id))
        (assemble true input definitions r next current).actions
      ≡ true
assemble_executable input definitions r next current n c =
    let s = select_services next.plan_edges ([], r.blocked) in
    let order = current.shutdown_order in
    let services = input.current_service_bindings in
    let capabilities = input.current_capability_bindings in
    let wanted = input.desired.capability_bindings in
    let reason : MicroSystemDefinition → String = λ d. reason_or (s.1 d.micro_system_id) in
    let first = rebind_stops (must_rebind input s.0) order in
    let second = stop_all (is_unwanted input s.1) reason order first.1 in
    let third = stop_all (is_unresolved input r) reason order second.1 in
    let started = starts input first.1 next.start_order in
    rebind_stops_executable input (must_rebind input s.0) _
      (λ d e. (and-true (is_running input d) _ e).0) order [] (λ id. runs (input.actual id)) c.1
      (All-new order) (λ j. none_stopped (runs (input.actual j)))
      (λ run a.
        service_rebinds_executable run _
          (capability_rebinds_executable run _
            (capability_releases_executable run _
              (stop_all_executable input (is_unwanted input s.1) reason (third.0 ++ started)
                (λ d e. (and-true (is_running input d) _ e).0) order first.1 run a
                (λ run' a'.
                  stop_all_executable input (is_unresolved input r) reason started
                    (λ d e. (and-true (is_running input d) _ e).0) order second.1 run' a'
                    (λ last b. starts_executable input first.1 next.start_order last n.0 (
                      down_at_last input first.1 last third.1
                        (λ id h.
                          stop_all_keeps (is_unresolved input r) reason order second.1 id
                            (stop_all_keeps (is_unwanted input s.1) reason order first.1 id h))
                        b next.start_order))))
              wanted capabilities)
            capabilities wanted)
          services s.0 s.0)

-- The actions of a plan can be carried out in their order on the micro systems that run: none is
-- quiesced or stopped that does not run by then, and none is started that does, if the topological sort
-- lists each node once.
pub plan_executable :
    (orders : Orders) (input : ReconcileInput) (p : ReconcilePlan)
    → ListsOnce orders
    → plan orders input ≡ return p
    → is_executable (λ id. runs (input.actual id)) p.actions ≡ true
unfolding plan plan_with
plan_executable orders input p once e =
    let definitions = orders.by_micro_system_id input.definitions in
    let r = resolution input.desired definitions in
    let (next, h, k) =
      >>=-eq-return (plan_of orders r.resolvable input.desired.service_bindings) _ e in
    let now = current_definitions input definitions in
    let (current, h', k') = >>=-eq-return (plan_of orders now input.current_service_bindings) _ k in
    subst (λ z. is_executable (λ id. runs (input.actual id)) z.actions ≡ true) (return-injective k')
      (assemble_executable input definitions r next current
        (plan_of-HasDistinctOrders orders r.resolvable input.desired.service_bindings next once h)
        (plan_of-HasDistinctOrders orders now input.current_service_bindings current once h'))
