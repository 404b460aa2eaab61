-- ===== src/Kernel/Resolved.antt =====
-- packages/runtime/runtime-kernel/src/reconciliation/reconciler.ts: the loop on the candidates ends, and
-- what holds of the definitions that it leaves and of those that it removes.
use heptalogos.Prelude.{
  ℕ, zero, suc, ◌≡◌, ◌≤◌, ◌<◌, inl, inr, refl, sym, ap, subst, ◌∙◌, Bool, true, false, not, ◌==◌,
  ==_iff, String, List, [], ◌∷◌, Option, none, some, str_eq, str_eq-true, if◌then◌else◌, length,
  arith, All, Bool-cases,
}
use heptalogos.Kernel.Model.{
  ServiceRequirement, MicroSystemDefinition, Bindings, get, DesiredRuntimeSnapshot, filter, has_id,
}
use heptalogos.Kernel.Resolve.{
  candidates, count_providers, reason_for, first_unmet, Resolution, remove, settle_visit, visit,
  visit_all, round, resolve, resolution,
}

-- Every requirement has exactly one eligible provision.
abbrev pub IsServed : Bindings → List MicroSystemDefinition → MicroSystemDefinition → Type 0
IsServed bindings ds d =
    All (λ r. count_providers (get bindings r.service_id) r ds ≡ 1) d.service_requirements

unmet_test :
    (b : Bool) (rest : Option String) (reason : String)
    → (if b then rest else some reason) ≡ none
    → (b ≡ true) × (rest ≡ none)
unmet_test true rest reason e = (refl, e)
unmet_test false rest reason e = cc

met-All :
    (bindings : Bindings) (ds : List MicroSystemDefinition) (rs : List ServiceRequirement)
    → first_unmet bindings ds rs ≡ none
    → All (λ r. count_providers (get bindings r.service_id) r ds ≡ 1) rs
unfolding first_unmet
met-All bindings ds [] e = tt
met-All bindings ds (r ∷ rs) e =
    let n = count_providers (get bindings r.service_id) r ds in
    let (h, k) =
      unmet_test (n == 1) (first_unmet bindings ds rs) (reason_for (get bindings r.service_id) n)
        e in
    ((==_iff n 1).0 h, met-All bindings ds rs k)

length-filter :
    (p : MicroSystemDefinition → Bool) (ds : List MicroSystemDefinition)
    → length (filter p ds) ≤ length ds
length-filter p [] = omega arith
length-filter p (d ∷ ds) =
    let h = length-filter p ds in
    elim (p d) as (λ b. length (if b then d ∷ filter p ds else filter p ds) ≤ suc (length ds)) [
      | true ↦ omega (arith, h)
      | false ↦ omega (arith, h)
    ]

remove_shortens :
    (id : String) (ds : List MicroSystemDefinition)
    → has_id id ds ≡ true
    → length (remove id ds) < length ds
remove_shortens id [] e = cc
remove_shortens id (d ∷ ds) e = elim (Bool-cases (str_eq d.micro_system_id id)) [
  | inl t ↦
      let h = length-filter (λ x. not (str_eq x.micro_system_id id)) ds in rw t (omega (arith, h))
  | inr f ↦ let h = remove_shortens id ds (ground (arith, e, f)) in rw f (omega (arith, h))
]

-- A visit changes nothing and finds the definition served, or removes it.
visit_bounds :
    (bindings : Bindings) (d : MicroSystemDefinition) (o : Option String) (s : Resolution)
    → length (settle_visit d o s).resolvable ≤ length s.resolvable
visit_bounds bindings d none s = omega arith
visit_bounds bindings d (some reason) s =
    length-filter (λ x. not (str_eq x.micro_system_id d.micro_system_id)) s.resolvable

visit_all_bounds :
    (bindings : Bindings) (ds : List MicroSystemDefinition) (s : Resolution)
    → length (visit_all bindings ds s).resolvable ≤ length s.resolvable
unfolding visit_all visit
visit_all_bounds bindings [] s = omega arith
visit_all_bounds bindings (d ∷ ds) s =
    let o = first_unmet bindings s.resolvable d.service_requirements in
    omega (arith, visit_all_bounds bindings ds (visit bindings d s), visit_bounds bindings d o s)

visit_all_changed :
    (bindings : Bindings) (ds : List MicroSystemDefinition) (s : Resolution)
    → s.changed ≡ true
    → (visit_all bindings ds s).changed ≡ true
unfolding visit_all visit
visit_all_changed bindings [] s e = e
visit_all_changed bindings (d ∷ ds) s e =
    visit_all_changed bindings ds (visit bindings d s)
      (go (first_unmet bindings s.resolvable d.service_requirements))
  where
    go : (o : Option String) → (settle_visit d o s).changed ≡ true
    go none = e
    go (some reason) = refl

-- What a round over `ds` did.
data Visited (bindings : Bindings) (ds : List MicroSystemDefinition) (s r : Resolution)
    : Type 0 where
  untouched : r ≡ s → All (IsServed bindings s.resolvable) ds → Visited bindings ds s r
  removed : r.changed ≡ true → length r.resolvable < length s.resolvable → Visited bindings ds s r

Visited-cons :
    (bindings : Bindings) (d : MicroSystemDefinition) (ds : List MicroSystemDefinition)
    (s r : Resolution)
    → IsServed bindings s.resolvable d
    → Visited bindings ds s r
    → Visited bindings (d ∷ ds) s r
Visited-cons bindings d ds s r h (untouched e a) = untouched e (h, a)
Visited-cons bindings d ds s r h (removed c l) = removed c l

visit_all-Visited :
    (bindings : Bindings) (ds : List MicroSystemDefinition) (s : Resolution)
    → All (λ d. has_id d.micro_system_id s.resolvable ≡ true) ds
    → Visited bindings ds s (visit_all bindings ds s)
unfolding visit_all visit
visit_all-Visited bindings [] s a = untouched refl tt
visit_all-Visited bindings (d ∷ ds) s (h, a) =
    go (first_unmet bindings s.resolvable d.service_requirements) refl
      (visit_all-Visited bindings ds s a)
  where
    go :
        (o : Option String)
        → first_unmet bindings s.resolvable d.service_requirements ≡ o
        → Visited bindings ds s (visit_all bindings ds s)
        → Visited bindings (d ∷ ds) s (visit_all bindings ds (settle_visit d o s))
    go none e ih =
        Visited-cons bindings d ds s (visit_all bindings ds s)
          (met-All bindings s.resolvable d.service_requirements e) ih
    go (some reason) e ih =
        let v = settle_visit d (some reason) s in
        removed (visit_all_changed bindings ds v refl) (
          omega (
            arith,
            visit_all_bounds bindings ds v,
            remove_shortens d.micro_system_id s.resolvable h,
          ))

pub All-map :
    {A : Type 0} (P Q : A → Type 0) (xs : List A) → ((x : A) → P x → Q x) → All P xs → All Q xs
All-map P Q [] f a = tt
All-map P Q (x ∷ xs) f (p, a) = (f x p, All-map P Q xs f a)

self_has : (ds : List MicroSystemDefinition) → All (λ d. has_id d.micro_system_id ds ≡ true) ds
self_has [] = tt
self_has (d ∷ ds) = (
  rw (str_eq-true d.micro_system_id d.micro_system_id refl) refl,
  All-map _ _ ds (λ x e. let f : has_id x.micro_system_id (d ∷ ds) ≡ true = ground (arith, e) in f)
      (self_has ds),
)

-- The loop has ended, and every definition that is left is served by those that are left.
abbrev pub IsResolved : Bindings → Resolution → Type 0
IsResolved bindings r = (r.changed ≡ false) × All (IsServed bindings r.resolvable) r.resolvable

resolve-IsResolved :
    (fuel : ℕ) (bindings : Bindings) (s : Resolution)
    → length s.resolvable < fuel
    → IsResolved bindings (resolve fuel bindings s)
unfolding resolve round
resolve-IsResolved zero bindings s h = let c : ⊥ = omega (arith, h) in absurd c
resolve-IsResolved (suc fuel) bindings s h =
    let u = record s { changed = false } in
    after_round (resolve-IsResolved fuel bindings) (round bindings s)
      (visit_all-Visited bindings s.resolvable u (self_has s.resolvable))
  where
    branch :
        (r : Resolution) (b : Bool)
        → r.changed ≡ b
        → (b ≡ true → IsResolved bindings (resolve fuel bindings r))
        → (b ≡ false → IsResolved bindings r)
        → IsResolved bindings (elim b [ true ↦ resolve fuel bindings r | false ↦ r ])
    branch r true e f g = f refl
    branch r false e f g = g refl

    after_round :
        ((r : Resolution)
          → length r.resolvable < fuel
          → IsResolved bindings (resolve fuel bindings r))
        → (r : Resolution) → Visited bindings s.resolvable (record s { changed = false }) r
        → IsResolved bindings (elim r.changed [ true ↦ resolve fuel bindings r | false ↦ r ])
    after_round ih r (untouched e a) =
        branch r r.changed refl (λ t. let c : true ≡ false = sym t ∙ ap (λ z. z.changed) e in cc)
          (λ t. (t, subst (λ z. All (IsServed bindings z.resolvable) z.resolvable) (sym e) a))
    after_round ih r (removed c l) =
        branch r r.changed refl (λ t. ih r (omega (arith, l, h)))
          (λ t. let c : true ≡ false = sym c ∙ t in cc)

-- The loop ends, whatever the definitions and the bindings are, within one more round than there are
-- candidates, and every Service requirement of every definition that it leaves has exactly one
-- eligible provision among the definitions that it leaves.
pub resolution-IsResolved :
    (desired : DesiredRuntimeSnapshot) (definitions : List MicroSystemDefinition)
    → IsResolved desired.service_bindings (resolution desired definitions)
unfolding resolution
resolution-IsResolved desired definitions =
    let c = candidates desired definitions in
    resolve-IsResolved (suc (length c.0)) desired.service_bindings
      (record { resolvable = c.0; blocked = c.1; changed = true }) (omega arith)
