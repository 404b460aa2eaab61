-- ===== src/Kernel/Registry/Eligible.antt =====
-- packages/runtime/runtime-kernel/src/registry/service-registry.ts: when hasEligible holds.
use heptalogos.Prelude.{
  ◌≡◌, refl, ap, ◌∙◌, Bool, true, false, ◌&&◌, String, [], ◌∷◌, none, some, ℕ, ◌==◌, str_eq, find,
  Bool-cases, inl, inr, arith,
}
use heptalogos.Kernel.Model.{ServiceRequirement, filter, any, count}
use heptalogos.Kernel.Registry.{
  RegistryBinding, Registry, eligible, explicit_one, sole, select_binding, is_found, has_eligible,
}

count-filter :
    (p : RegistryBinding → Bool) (r : Registry)
    → is_found (sole false (filter p r)) ≡ (count p r == 1)
count-filter p r = by_size (filter p r) ∙ ap (λ n. n == 1) (size-filter r)
  where
    size : Registry → ℕ
    size = count (λ b. true)

    by_size : (cs : Registry) → is_found (sole false cs) ≡ (size cs == 1)
    by_size [] = refl
    by_size (b ∷ []) = refl
    by_size (b ∷ c ∷ cs) = ground arith

    size-filter : (r : Registry) → size (filter p r) ≡ count p r
    size-filter [] = refl
    size-filter (b ∷ r) =
        let ih = size-filter r in
        elim (Bool-cases (p b)) [ inl t ↦ rw (t, ih) | inr u ↦ rw (u, ih) (omega arith) ]

found-any :
    (p q : RegistryBinding → Bool) (r : Registry)
    → is_found (explicit_one false (find q (filter p r))) ≡ any (λ b. p b && q b) r
found-any p q [] = refl
found-any p q (b ∷ r) =
    let ih = found-any p q r in
    elim (Bool-cases (p b)) [
      | inr u ↦ rw (u, ih)
      | inl t ↦ elim (Bool-cases (q b)) [ inl v ↦ rw (t, v) | inr v ↦ rw (t, v, ih) ]
    ]

-- With no provider bound, hasEligible holds exactly if one registered binding, and no second, is of the
-- Service and contract version under an ACTIVE fence; with a provider bound, exactly if such a binding
-- is that provider's.
pub has_eligible-count :
    (is_active : String → Bool) (r : Registry) (requirement : ServiceRequirement)
    (explicit : String)
    → (has_eligible is_active r requirement none ≡ (
        count
          (λ b.
            is_active b.fence
            && (str_eq b.descriptor.service_id requirement.service_id
                && str_eq requirement.contract_version b.descriptor.contract_version))
          r
        == 1))
      × (has_eligible is_active r requirement (some explicit)
          ≡ any
              (λ b.
                (is_active b.fence
                  && (str_eq b.descriptor.service_id requirement.service_id
                      && str_eq requirement.contract_version b.descriptor.contract_version))
                && str_eq b.descriptor.provider_id explicit)
              r)
unfolding has_eligible select_binding
has_eligible-count is_active r requirement explicit = (
  count-filter (eligible is_active requirement) r,
  found-any (eligible is_active requirement) (λ b. str_eq b.descriptor.provider_id explicit) r,
)
