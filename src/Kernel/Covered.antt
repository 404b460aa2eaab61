-- ===== src/Kernel/Covered.antt =====
-- packages/runtime/runtime-kernel/src/reconciliation/reconciler.ts: a desired definition is resolvable or
-- has a reason why it is blocked.
use heptalogos.Prelude.{
  ℕ, zero, suc, ◌≡◌, refl, sym, subst, Bool, true, false, ◌&&◌, String, List, [], ◌∷◌, Option, none,
  some, arith, is_some, str_eq, true-str_eq, str_eq-true, Bool-cases, and-true, length, inl, inr,
}
use heptalogos.Kernel.Model.{MicroSystemDefinition, Bindings, DesiredRuntimeSnapshot, any, has_id}
use heptalogos.Kernel.Resolve.{
  Blocked, block, is_desired, has_mode, admit_candidate, candidates, first_unmet, Resolution,
  remove, settle_visit, visit, visit_all, round, resolve, resolution,
}

-- A definition is resolvable or blocked.
pub data Covered (id : String) (ds : List MicroSystemDefinition) (blocked : Blocked) : Type 0 where
  kept : has_id id ds ≡ true → Covered id ds blocked
  refused : is_some (blocked id) ≡ true → Covered id ds blocked

blocks : (id reason : String) (b : Blocked) → is_some (block id reason b id) ≡ true
blocks id reason b = rw (str_eq-true id id refl) refl

pub still_blocked :
    (id reason : String) (b : Blocked) (j : String)
    → is_some (b j) ≡ true
    → is_some (block id reason b j) ≡ true
still_blocked id reason b j e = elim (Bool-cases (str_eq id j)) [
  | inl t ↦ rw t refl
  | inr f ↦ rw f e
]

remove_keeps :
    (id j : String) (ds : List MicroSystemDefinition)
    → str_eq j id ≡ false
    → has_id id ds ≡ true
    → has_id id (remove j ds) ≡ true
remove_keeps id j [] f e = e
remove_keeps id j (d ∷ ds) f e = elim (Bool-cases (str_eq d.micro_system_id j)) [
  | inl t ↦
      let k = true-str_eq d.micro_system_id j t in
      let g : str_eq d.micro_system_id id ≡ false = subst (λ z. str_eq z id ≡ false) (sym k) f in
      rw t (remove_keeps id j ds f (ground (arith, e, g)))
  | inr t ↦ rw t (elim (Bool-cases (str_eq d.micro_system_id id)) [
    | inl u ↦ rw u refl
    | inr u ↦ rw u (remove_keeps id j ds f (ground (arith, e, u)))
  ])
]

remove-Covered :
    (id j reason : String) (ds : List MicroSystemDefinition) (b : Blocked)
    → Covered id ds b
    → Covered id (remove j ds) (block j reason b)
remove-Covered id j reason ds b (refused e) = refused (still_blocked j reason b id e)
remove-Covered id j reason ds b (kept e) = elim (Bool-cases (str_eq j id)) [
  | inl t ↦
      refused
        (subst (λ z. is_some (block j reason b z) ≡ true) (true-str_eq j id t) (blocks j reason b))
  | inr f ↦ kept (remove_keeps id j ds f e)
]

-- What the loop has of a definition.
abbrev pub IsCovered : String → Resolution → Type 0
IsCovered id s = Covered id s.resolvable s.blocked

settle_visit-Covered :
    (id : String) (d : MicroSystemDefinition) (o : Option String) (s : Resolution)
    → IsCovered id s
    → IsCovered id (settle_visit d o s)
settle_visit-Covered id d none s c = c
settle_visit-Covered id d (some reason) s c =
    remove-Covered id d.micro_system_id reason s.resolvable s.blocked c

visit_all-Covered :
    (id : String) (bindings : Bindings) (ds : List MicroSystemDefinition) (s : Resolution)
    → IsCovered id s
    → IsCovered id (visit_all bindings ds s)
unfolding visit_all visit
visit_all-Covered id bindings [] s c = c
visit_all-Covered id bindings (d ∷ ds) s c =
    visit_all-Covered id bindings ds (visit bindings d s)
      (settle_visit-Covered id d (first_unmet bindings s.resolvable d.service_requirements) s c)

resolve-Covered :
    (id : String) (fuel : ℕ) (bindings : Bindings) (s : Resolution)
    → IsCovered id s
    → IsCovered id (resolve fuel bindings s)
unfolding resolve round
resolve-Covered id zero bindings s c = c
resolve-Covered id (suc fuel) bindings s c =
    let r = round bindings s in
    let h = visit_all-Covered id bindings s.resolvable (record s { changed = false }) c in
    elim r.changed as (λ b. IsCovered id (elim b [ true ↦ resolve fuel bindings r | false ↦ r ])) [
      | true ↦ resolve-Covered id fuel bindings r h
      | false ↦ h
    ]

-- The definitions that should run, by identity.
abbrev pub has_desired : DesiredRuntimeSnapshot → String → List MicroSystemDefinition → Bool
has_desired desired id = any (λ d. str_eq d.micro_system_id id && is_desired desired d)

admit-same :
    (desired : Bool) (mode : Bool) (d : MicroSystemDefinition)
    (s : List MicroSystemDefinition × Blocked)
    → desired ≡ true
    → Covered d.micro_system_id
        (admit_candidate desired mode d s).0
        (admit_candidate desired mode d s).1
admit-same true true d s e = kept (rw (str_eq-true d.micro_system_id d.micro_system_id refl) refl)
admit-same true false d s e = refused (blocks d.micro_system_id _ s.1)
admit-same false mode d s e = cc

cons_keeps :
    (id : String) (d : MicroSystemDefinition) (ds : List MicroSystemDefinition)
    → has_id id ds ≡ true
    → has_id id (d ∷ ds) ≡ true
cons_keeps id d ds e = ground (arith, e)

admit-other :
    (id : String) (desired mode : Bool) (d : MicroSystemDefinition)
    (s : List MicroSystemDefinition × Blocked)
    → Covered id s.0 s.1
    → Covered id (admit_candidate desired mode d s).0 (admit_candidate desired mode d s).1
admit-other id false mode d s c = c
admit-other id true true d s (kept e) = kept (cons_keeps id d s.0 e)
admit-other id true true d s (refused e) = refused e
admit-other id true false d s (kept e) = kept e
admit-other id true false d s (refused e) = refused (still_blocked d.micro_system_id _ s.1 id e)

candidates-Covered :
    (desired : DesiredRuntimeSnapshot) (id : String) (ds : List MicroSystemDefinition)
    → has_desired desired id ds ≡ true
    → Covered id (candidates desired ds).0 (candidates desired ds).1
unfolding candidates
candidates-Covered desired id [] e = cc
candidates-Covered desired id (d ∷ ds) e =
    let s = candidates desired ds in
    elim (Bool-cases (str_eq d.micro_system_id id && is_desired desired d)) [
      | inl t ↦
          let (i, w) = and-true (str_eq d.micro_system_id id) (is_desired desired d) t in
          subst
            (λ z.
              Covered z (admit_candidate (is_desired desired d) (has_mode desired d) d s).0
                (admit_candidate (is_desired desired d) (has_mode desired d) d s).1)
            (true-str_eq d.micro_system_id id i)
            (admit-same (is_desired desired d) (has_mode desired d) d s w)
      | inr f ↦
          admit-other id (is_desired desired d) (has_mode desired d) d s
            (candidates-Covered desired id ds (ground (arith, e, f)))
    ]

-- A definition that should run is resolvable at the end of the loop, or is blocked with a reason.
pub resolution-Covered :
    (desired : DesiredRuntimeSnapshot) (id : String) (definitions : List MicroSystemDefinition)
    → has_desired desired id definitions ≡ true
    → IsCovered id (resolution desired definitions)
unfolding resolution
resolution-Covered desired id definitions e =
    let c = candidates desired definitions in
    resolve-Covered id (suc (length c.0)) desired.service_bindings
      (record { resolvable = c.0; blocked = c.1; changed = true })
      (candidates-Covered desired id definitions e)
