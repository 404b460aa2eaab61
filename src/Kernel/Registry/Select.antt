-- ===== src/Kernel/Registry/Select.antt =====
-- packages/runtime/runtime-kernel/src/registry/service-registry.ts: what is selected for a requirement.
use heptalogos.Prelude.{
  ◌≡◌, refl, sym, ap, subst, Bool, true, false, not, String, List, [], ◌∷◌, Option, none, some,
  str_eq, if◌then◌else◌, find, All, All-find, arith, Bool-cases, inl, inr, and-true, some_inj, ◌⊎◌,
  true-str_eq,
}
use heptalogos.Prelude.Except.{return, return-injective}
use heptalogos.Kernel.Model.{ServiceRequirement, filter, is_compatible}
use heptalogos.Kernel.Registry.{
  RegistryBinding, Registry, matches, eligible, explicit_one, select_from, select_binding,
  resolve_binding, retire_generation,
}

All-passing_on :
    (P Q : RegistryBinding → Type 0) (p : RegistryBinding → Bool) (r : Registry)
    → All Q r
    → ((b : RegistryBinding) → p b ≡ true → Q b → P b)
    → All P (filter p r)
All-passing_on P Q p [] a f = tt
All-passing_on P Q p (b ∷ r) (q, a) f = elim (Bool-cases (p b)) [
  | inl t ↦
      subst (λ x. All P (if x then b ∷ filter p r else filter p r)) (sym t)
        (f b t q, All-passing_on P Q p r a f)
  | inr u ↦
      subst (λ x. All P (if x then b ∷ filter p r else filter p r)) (sym u)
        (All-passing_on P Q p r a f)
]

-- The candidates of a selection: the one found, which an explicit binding names, or the only one.
abbrev Chosen : Option String → List RegistryBinding → RegistryBinding → Type 0
Chosen none candidates b = candidates ≡ b ∷ []
Chosen (some explicit) candidates b = b.descriptor.provider_id ≡ explicit

selected :
    (throws : Bool) (explicit : Option String) (cs : List RegistryBinding) (b : RegistryBinding)
    (P : RegistryBinding → Type 0)
    → All P cs
    → select_from throws explicit cs ≡ return (some b)
    → Chosen explicit cs b × P b
selected true none [] b P a e = absurd (ground (arith, e))
selected false none [] b P a e = absurd (ground (arith, e))
selected throws none (c ∷ []) b P (h, a) e =
    let k : c ≡ b = some_inj (return-injective e) in (ap (λ z. z ∷ []) k, subst P k h)
selected true none (c ∷ d ∷ cs) b P a e = absurd (ground (arith, e))
selected false none (c ∷ d ∷ cs) b P a e = absurd (ground (arith, e))
selected throws (some explicit) cs b P a e =
    let (p, q) =
      All-find P (λ x. str_eq x.descriptor.provider_id explicit) cs a
        (found throws (find (λ x. str_eq x.descriptor.provider_id explicit) cs) e) in
    (true-str_eq b.descriptor.provider_id explicit q, p)
  where
    found :
        (throws : Bool) (o : Option RegistryBinding)
        → explicit_one throws o ≡ return (some b)
        → o ≡ some b
    found true none e = absurd (ground (arith, e))
    found false none e = absurd (ground (arith, e))
    found throws (some x) e = return-injective e

map-All :
    {P Q : RegistryBinding → Type 0}
    → ((x : RegistryBinding) → P x → Q x)
    → (r : Registry) → All P r
    → All Q r
map-All f [] a = tt
map-All f (b ∷ r) (h, a) = (f b h, map-All f r a)

All-outside :
    (Q : RegistryBinding → Type 0) (p : RegistryBinding → Bool) (r : Registry)
    → All Q (filter p r)
    → All (λ x. Q x ⊎ (p x ≡ false)) r
All-outside Q p [] a = tt
All-outside Q p (b ∷ r) a = elim (Bool-cases (p b)) [
  | inl t ↦
      let (q, rest) = subst (λ x. All Q (if x then b ∷ filter p r else filter p r)) t a in
      (inl q, All-outside Q p r rest)
  | inr u ↦
      (inr u, All-outside Q p r (subst (λ x. All Q (if x then b ∷ filter p r else filter p r)) u a))
]

-- A binding that is not to be chosen: its generation is retired, its fence is not ACTIVE, or it is of
-- another Service or contract version.
abbrev pub IsOut : (String → Bool) → String → ServiceRequirement → RegistryBinding → Type 0
IsOut is_active fence requirement x =
    (x.fence ≡ fence)
    ⊎ (is_active x.fence ≡ false)
    ⊎ (str_eq x.descriptor.service_id requirement.service_id ≡ false)
    ⊎ (str_eq requirement.contract_version x.descriptor.contract_version ≡ false)

-- An explicit binding names its provider; without one, every other binding is out.
abbrev pub Answers :
    (String → Bool)
    → Registry
    → String
    → ServiceRequirement
    → Option String
    → RegistryBinding
    → Type 0
Answers is_active r fence requirement none b =
    All (λ x. (x ≡ b) ⊎ IsOut is_active fence requirement x) r
Answers is_active r fence requirement (some explicit) b = b.descriptor.provider_id ≡ explicit

sort-IsOut :
    (is_active : String → Bool) (fence : String) (requirement : ServiceRequirement)
    (b x : RegistryBinding)
    → ((x ≡ b) ⊎ (eligible is_active requirement x ≡ false)) ⊎ (not (str_eq x.fence fence) ≡ false)
    → (x ≡ b) ⊎ IsOut is_active fence requirement x
sort-IsOut is_active fence requirement b x (inl (inl e)) = inl e
sort-IsOut is_active fence requirement b x (inl (inr out)) = elim (Bool-cases (is_active x.fence)) [
  | inr off ↦ inr (inr (inl off))
  | inl on ↦ elim (Bool-cases (str_eq x.descriptor.service_id requirement.service_id)) [
    | inr other ↦ inr (inr (inr (inl other)))
    | inl same ↦ inr (inr (inr (inr (ground (arith, on, same, out)))))
  ]
]
sort-IsOut is_active fence requirement b x (inr gone) =
    inr (inl (true-str_eq x.fence fence (ground (arith, gone))))

chosen-Answers :
    (is_active : String → Bool) (r : Registry) (fence : String) (requirement : ServiceRequirement)
    (explicit : Option String) (b : RegistryBinding)
    → Chosen explicit
        (filter (eligible is_active requirement) (filter (λ x. not (str_eq x.fence fence)) r))
        b
    → Answers is_active r fence requirement explicit b
chosen-Answers is_active r fence requirement none b e =
    let kept = filter (λ x. not (str_eq x.fence fence)) r in
    let only : All (λ x. x ≡ b) (filter (eligible is_active requirement) kept) =
      subst (λ z. All (λ x. x ≡ b) z) (sym e) (refl, tt) in
    map-All (sort-IsOut is_active fence requirement b) r (
      All-outside (λ x. (x ≡ b) ⊎ (eligible is_active requirement x ≡ false))
        (λ x. not (str_eq x.fence fence)) r
        (All-outside (λ x. x ≡ b) (eligible is_active requirement) kept only))
chosen-Answers is_active r fence requirement (some explicit) b e = e

-- The binding is one of the registry's.
abbrev pub IsRegistered : RegistryBinding → Registry → Type 0
IsRegistered b [] = ⊥
IsRegistered b (x ∷ r) = (x ≡ b) ⊎ IsRegistered b r

All-IsRegistered :
    (r whole : Registry)
    → ((x : RegistryBinding) → IsRegistered x r → IsRegistered x whole)
    → All (λ x. IsRegistered x whole) r
All-IsRegistered [] whole f = tt
All-IsRegistered (b ∷ r) whole f = (f b (inl refl), All-IsRegistered r whole (λ x m. f x (inr m)))

-- What is resolved for a requirement, after the generation of a fence is retired, is a registered
-- provider of its Service in its contract version under an ACTIVE fence other than the retired one; it
-- is the one bound explicitly, or else every other registered binding is of the retired fence, under a
-- fence that is not ACTIVE, or of another Service or contract version.
pub resolve_binding-Answers :
    (is_active : String → Bool) (r : Registry) (fence : String) (requirement : ServiceRequirement)
    (explicit : Option String) (b : RegistryBinding)
    → resolve_binding is_active (retire_generation fence r).0 requirement explicit ≡ return (some b)
    → IsRegistered b r
      × (is_active b.fence ≡ true)
      × (b.descriptor.service_id ≡ requirement.service_id)
      × (b.descriptor.contract_version ≡ requirement.contract_version)
      × (str_eq b.fence fence ≡ false)
      × Answers is_active r fence requirement explicit b
unfolding resolve_binding select_binding retire_generation
resolve_binding-Answers is_active r fence requirement explicit b e =
    let kept = filter (λ x. not (str_eq x.fence fence)) r in
    let cs = filter (eligible is_active requirement) kept in
    let P = λ (x : RegistryBinding).
      (eligible is_active requirement x ≡ true)
      × (IsRegistered x r × (str_eq x.fence fence ≡ false)) in
    let Q = λ (x : RegistryBinding). IsRegistered x r × (str_eq x.fence fence ≡ false) in
    let unfenced : All Q kept =
      All-passing_on Q (λ x. IsRegistered x r) (λ x. not (str_eq x.fence fence)) r
        (All-IsRegistered r r (λ x m. m)) (λ x t m. (m, ground (arith, t))) in
    let all : All P cs =
      All-passing_on P Q (eligible is_active requirement) kept unfenced (λ x t q. (t, q)) in
    let (answer, (fit, (known, other))) = selected true explicit cs b P all e in
    let (active, matching) = and-true (is_active b.fence) (matches requirement b) fit in
    let (service, version) =
      and-true (str_eq b.descriptor.service_id requirement.service_id)
        (is_compatible requirement b.descriptor) matching in
    (
      known,
      active,
      true-str_eq b.descriptor.service_id requirement.service_id service,
      sym (true-str_eq requirement.contract_version b.descriptor.contract_version version),
      other,
      chosen-Answers is_active r fence requirement explicit b answer,
    )
