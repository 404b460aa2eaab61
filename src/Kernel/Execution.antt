-- ===== src/Kernel/Execution.antt =====
-- packages/runtime/runtime-kernel/src/reconciliation/reconciler.ts: the actions of a plan, carried out
-- one after the other.
use heptalogos.Prelude.{
  ◌≡◌, refl, sym, ap, ◌∙◌, Bool, true, false, not, ◌&&◌, ◌||◌, String, List, [], ◌∷◌, ◌++◌, str_eq,
  if◌then◌else◌, All, arith, Bool-cases, inl, inr,
}
use heptalogos.Kernel.Model.{MicroSystemDefinition}
use heptalogos.Kernel.Distinct.{Apart, Distinct}
use heptalogos.Kernel.Plan.{
  ReconcileAction, quiesce, stop, start, rebind_service, rebind_capability, ReconcileInput, runs,
  is_running, holds, stop_all, rebind_stops,
}

-- Which micro systems run.
abbrev pub Running : Type 0
Running = String → Bool

abbrev pub after_action : Running → ReconcileAction → Running
after_action run (stop id reason) j = if str_eq id j then false else run j
after_action run (start id reason) j = if str_eq id j then true else run j
after_action run (quiesce id reason) j = run j
after_action run (rebind_service id provider) j = run j
after_action run (rebind_capability id provider) j = run j

-- Only what runs is quiesced or stopped, and only what does not run is started.
abbrev pub is_fit : Running → ReconcileAction → Bool
is_fit run (quiesce id reason) = run id
is_fit run (stop id reason) = run id
is_fit run (start id reason) = not (run id)
is_fit run (rebind_service id provider) = true
is_fit run (rebind_capability id provider) = true

unfoldable pub is_executable : Running → List ReconcileAction → Bool
is_executable run [] = true
is_executable run (a ∷ l) = is_fit run a && is_executable (after_action run a) l

module _ (input : ReconcileInput) where
  -- What ran at first, without what was stopped.
  abbrev pub Agrees : Running → Running → Type 0
  Agrees run stopped = (j : String) → run j ≡ (runs (input.actual j) && not (stopped j))

  stopped_more :
      (id : String) (run : Running) (l : List String)
      → Agrees run (λ j. holds j l)
      → Agrees (after_action run (stop id "")) (λ j. holds j (id ∷ l))
  stopped_more id run l a j = elim (Bool-cases (str_eq id j)) [
    | inl t ↦ rw t (ground arith)
    | inr f ↦ rw f (a j)
  ]

  runs_still :
      (run : Running) (b h : Bool) (id : String)
      → run id ≡ (b && not h)
      → b ≡ true
      → h ≡ false
      → run id ≡ true
  runs_still run b h id e p q = e ∙ ap (λ z. z && not h) p ∙ ap not q

  shut_down :
      (run : Running) (id reason : String) (ys : List ReconcileAction)
      → run id ≡ true
      → is_executable (after_action run (stop id reason)) ys ≡ true
      → is_executable run (quiesce id reason ∷ stop id reason ∷ ys) ≡ true
  unfolding is_executable
  shut_down run id reason ys e k = rw (e, k) refl

  module _ (test : MicroSystemDefinition → Bool) (reason : MicroSystemDefinition → String)
      (ys : List ReconcileAction)
      (runs_at_first : (d : MicroSystemDefinition)
        → test d ≡ true
        → is_running input d ≡ true) where
    pub stop_all_executable :
        (ds : List MicroSystemDefinition) (stopped : List String) (run : Running)
        → Agrees run (λ j. holds j stopped)
        → ((last : Running)
            → Agrees last (λ j. holds j (stop_all test reason ds stopped).1)
            → is_executable last ys ≡ true)
        → is_executable run ((stop_all test reason ds stopped).0 ++ ys) ≡ true
    stop_all_executable [] stopped run a k = k run a
    stop_all_executable (d ∷ ds) stopped run a k =
        step (test d) (holds d.micro_system_id stopped) refl refl
          (stop_all_executable ds (d.micro_system_id ∷ stopped)) (stop_all_executable ds stopped) k
      where
        result : Bool → List ReconcileAction × List String
        result hit =
            let rest =
              stop_all test reason ds (if hit then d.micro_system_id ∷ stopped else stopped) in
            (
              if hit
                  then quiesce d.micro_system_id (reason d)
                    ∷ stop d.micro_system_id (reason d)
                    ∷ rest.0
                  else rest.0,
              rest.1,
            )

        step :
            (t h : Bool)
            → test d ≡ t
            → holds d.micro_system_id stopped ≡ h
            → ((next : Running)
                → Agrees next (λ j. holds j (d.micro_system_id ∷ stopped))
                → ((last : Running)
                    → Agrees last
                        (λ j. holds j (stop_all test reason ds (d.micro_system_id ∷ stopped)).1)
                    → is_executable last ys ≡ true)
                → is_executable next
                    ((stop_all test reason ds (d.micro_system_id ∷ stopped)).0 ++ ys)
                  ≡ true)
            → ((next : Running)
                → Agrees next (λ j. holds j stopped)
                → ((last : Running)
                    → Agrees last (λ j. holds j (stop_all test reason ds stopped).1)
                    → is_executable last ys ≡ true)
                → is_executable next ((stop_all test reason ds stopped).0 ++ ys) ≡ true)
            → ((last : Running)
                → Agrees last (λ j. holds j (result (t && not h)).1)
                → is_executable last ys ≡ true)
            → is_executable run ((result (t && not h)).0 ++ ys) ≡ true
        step true true p q hit spare last = spare run a last
        step false h p q hit spare last = spare run a last
        step true false p q hit spare last =
            shut_down run d.micro_system_id (reason d) _
              (runs_still run _ _ d.micro_system_id (a d.micro_system_id) (runs_at_first d p) q)
              (hit _ (stopped_more d.micro_system_id run stopped a) last)

  or_shuffle : (a b c : Bool) → ((a || b) || c) ≡ (b || (a || c))
  or_shuffle true true c = refl
  or_shuffle true false c = refl
  or_shuffle false true c = refl
  or_shuffle false false c = refl

  module _ (test : MicroSystemDefinition → Bool) (ys : List ReconcileAction)
      (runs_at_first : (d : MicroSystemDefinition)
        → test d ≡ true
        → is_running input d ≡ true) where
    pub rebind_stops_executable :
        (ds : List MicroSystemDefinition) (earlier : List String) (run : Running)
        → Distinct ds
        → All (λ d. holds d.micro_system_id earlier ≡ false) ds
        → Agrees run (λ j. holds j earlier)
        → ((last : Running)
            → Agrees last (λ j. holds j earlier || holds j (rebind_stops test ds).1)
            → is_executable last ys ≡ true)
        → is_executable run ((rebind_stops test ds).0 ++ ys) ≡ true
    rebind_stops_executable [] earlier run d n a k =
        k run
          (λ j. a j ∙ ap (λ z. runs (input.actual j) && not z) (sym (or_last (holds j earlier))))
      where
        or_last : (b : Bool) → (b || false) ≡ b
        or_last true = refl
        or_last false = refl
    rebind_stops_executable (d ∷ ds) earlier run (apart, distinct) (new, n) a k =
        step (test d) refl (rebind_stops_executable ds (d.micro_system_id ∷ earlier))
          (rebind_stops_executable ds earlier) k
      where
        result : Bool → List ReconcileAction × List String
        result hit =
            if hit
            then (
              quiesce d.micro_system_id "hard-service-rebind"
                  ∷ stop d.micro_system_id "hard-service-rebind"
                  ∷ (rebind_stops test ds).0,
              d.micro_system_id ∷ (rebind_stops test ds).1,
            )
            else rebind_stops test ds

        all_new :
            (l : List MicroSystemDefinition)
            → All (Apart d) l
            → All (λ x. holds x.micro_system_id earlier ≡ false) l
            → All (λ x. holds x.micro_system_id (d.micro_system_id ∷ earlier) ≡ false) l
        all_new [] p q = tt
        all_new (x ∷ l) (h, p) (g, q) = (rw (h, g) refl, all_new l p q)

        step :
            (t : Bool)
            → test d ≡ t
            → ((next : Running)
                → Distinct ds
                → All (λ x. holds x.micro_system_id (d.micro_system_id ∷ earlier) ≡ false) ds
                → Agrees next (λ j. holds j (d.micro_system_id ∷ earlier))
                → ((last : Running)
                    → Agrees last (λ j.
                      holds j (d.micro_system_id ∷ earlier) || holds j (rebind_stops test ds).1)
                    → is_executable last ys ≡ true)
                → is_executable next ((rebind_stops test ds).0 ++ ys) ≡ true)
            → ((next : Running)
                → Distinct ds
                → All (λ x. holds x.micro_system_id earlier ≡ false) ds
                → Agrees next (λ j. holds j earlier)
                → ((last : Running)
                    → Agrees last (λ j. holds j earlier || holds j (rebind_stops test ds).1)
                    → is_executable last ys ≡ true)
                → is_executable next ((rebind_stops test ds).0 ++ ys) ≡ true)
            → ((last : Running)
                → Agrees last (λ j. holds j earlier || holds j (result t).1)
                → is_executable last ys ≡ true)
            → is_executable run ((result t).0 ++ ys) ≡ true
        step false p hit spare last = spare run distinct n a last
        step true p hit spare last =
            shut_down run d.micro_system_id "hard-service-rebind" _
              (runs_still run _ _ d.micro_system_id (a d.micro_system_id) (runs_at_first d p) new)
              (hit _ distinct (all_new ds apart n) (stopped_more d.micro_system_id run earlier a)
                (λ final b. last final (λ j.
                  b j
                  ∙ ap (λ z. runs (input.actual j) && not z)
                      (or_shuffle (str_eq d.micro_system_id j) (holds j earlier)
                        (holds j (rebind_stops test ds).1)))))
