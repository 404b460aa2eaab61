-- ===== src/Kernel/Passes.antt =====
-- packages/runtime/runtime-kernel/src/reconciliation/reconciler.ts: the passes over the shutdown order.
use heptalogos.Prelude.{
  ◌≡◌, refl, ap, ◌∙◌, Bool, true, false, not, ◌&&◌, String, List, [], ◌∷◌, str_eq-true,
  if◌then◌else◌, All, arith,
}
use heptalogos.Kernel.Model.{MicroSystemDefinition}
use heptalogos.Kernel.Resolve.{Blocked, block, Resolution}
use heptalogos.Kernel.Plan.{
  ReconcileAction, quiesce, stop, ReconcileInput, holds, stop_all, is_unexplained, block_dependents,
}

-- Whatever passes the test is among the stopped.
abbrev pub AreStopped :
    (MicroSystemDefinition → Bool) → List String → List MicroSystemDefinition → Type 0
AreStopped test stopped = All (λ d. test d ≡ true → holds d.micro_system_id stopped ≡ true)

holds-cons :
    (b : Bool) (id x : String) (l : List String)
    → holds id l ≡ true
    → holds id (if b then x ∷ l else l) ≡ true
holds-cons true id x l e = ground (arith, e)
holds-cons false id x l e = e

module _ (test : MicroSystemDefinition → Bool) (reason : MicroSystemDefinition → String) where
  pub stop_all_keeps :
      (ds : List MicroSystemDefinition) (stopped : List String) (id : String)
      → holds id stopped ≡ true
      → holds id (stop_all test reason ds stopped).1 ≡ true
  stop_all_keeps [] stopped id e = e
  stop_all_keeps (d ∷ ds) stopped id e =
      stop_all_keeps ds _ id (
        holds-cons (test d && not (holds d.micro_system_id stopped)) id d.micro_system_id stopped e)

  stops_hit :
      (d : MicroSystemDefinition) (stopped : List String) (t h : Bool)
      → holds d.micro_system_id stopped ≡ h
      → t ≡ true
      → holds d.micro_system_id (if t && not h then d.micro_system_id ∷ stopped else stopped) ≡ true
  stops_hit d stopped true true e k = e
  stops_hit d stopped true false e k =
      rw (str_eq-true d.micro_system_id d.micro_system_id refl) refl
  stops_hit d stopped false h e k = cc

  pub stop_all-AreStopped :
      (ds : List MicroSystemDefinition) (stopped : List String)
      → AreStopped test (stop_all test reason ds stopped).1 ds
  stop_all-AreStopped [] stopped = tt
  stop_all-AreStopped (d ∷ ds) stopped =
      let next =
        if test d && not (holds d.micro_system_id stopped)
        then d.micro_system_id ∷ stopped
        else stopped in
      (
        λ e.
            stop_all_keeps ds next d.micro_system_id
              (stops_hit d stopped (test d) (holds d.micro_system_id stopped) refl e),
        stop_all-AreStopped ds next,
      )

  spared : (t h : Bool) → (t ≡ true → h ≡ true) → (t && not h) ≡ false
  spared true h f = rw (f refl) refl
  spared false h f = refl

  pub stop_all_idle :
      (ds : List MicroSystemDefinition) (stopped : List String)
      → AreStopped test stopped ds
      → stop_all test reason ds stopped ≡ ([], stopped)
  stop_all_idle [] stopped a = refl
  stop_all_idle (d ∷ ds) stopped (h, a) =
      let k : Bool → List ReconcileAction × List String = λ b.
        let rest = stop_all test reason ds (if b then d.micro_system_id ∷ stopped else stopped) in
        (
          if b
              then quiesce d.micro_system_id (reason d) ∷ stop d.micro_system_id (reason d) ∷ rest.0
              else rest.0,
          rest.1,
        ) in
      ap k (spared (test d) (holds d.micro_system_id stopped) h) ∙ stop_all_idle ds stopped a

pub block_dependents_idle :
    (input : ReconcileInput) (r : Resolution) (ds : List MicroSystemDefinition) (blocked : Blocked)
    → All (λ d. is_unexplained input r blocked d ≡ false) ds
    → block_dependents input r ds blocked ≡ blocked
block_dependents_idle input r [] blocked a = refl
block_dependents_idle input r (d ∷ ds) blocked (h, a) =
    ap
      (λ b. block_dependents input r ds (
        if b
        then block d.micro_system_id "runtime.service.blocked_dependency" blocked
        else blocked))
      h
    ∙ block_dependents_idle input r ds blocked a
