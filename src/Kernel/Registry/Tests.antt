-- ===== src/Kernel/Registry/Tests.antt =====
-- Small registries.
use heptalogos.Prelude.{
  ◌≡◌, refl, Bool, true, false, String, List, [], ◌∷◌, none, some, str_eq, ◌&&◌, ◌==◌,
}
use heptalogos.Kernel.Model.{ServiceRequirement, ServiceProvision, count, any}
use heptalogos.Kernel.Registry.{
  RegistryBinding, Registry, has_eligible, select_binding, resolve_binding, retire_generation,
}
use heptalogos.Kernel.Registry.Select.{IsRegistered, Answers, resolve_binding-Answers}
use heptalogos.Kernel.Registry.Eligible.{has_eligible-count}
use heptalogos.Kernel.Registry.Unique.{
  IsUnique, Event, registers, retires, run_events, run_events-IsUnique,
}

abbrev rows_by : String → ServiceProvision
rows_by provider = record { service_id = "rows"; contract_version = "v1"; provider_id = provider }

abbrev rows : ServiceRequirement
rows = record { service_id = "rows"; contract_version = "v1" }

abbrev two : Registry
two =
    record { descriptor = rows_by "a"; fence = "g1" }
    ∷ record { descriptor = rows_by "b"; fence = "g2" }
    ∷ []

abbrev all_active : String → Bool
all_active fence = true

abbrev second : RegistryBinding
second = record { descriptor = rows_by "b"; fence = "g2" }

resolve_binding-Answers_example :
    IsRegistered second two
    × (◌≡◌ {A = Bool} true true)
    × (◌≡◌ {A = String} "rows" "rows")
    × (◌≡◌ {A = String} "v1" "v1")
    × (str_eq "g2" "g1" ≡ false)
    × Answers all_active two "g1" rows none second
unfolding resolve_binding select_binding retire_generation
resolve_binding-Answers_example = resolve_binding-Answers all_active two "g1" rows none second refl

has_eligible-count_example :
    (has_eligible all_active two rows none ≡ (
      count
        (λ b.
          true
          && (str_eq b.descriptor.service_id "rows" && str_eq "v1" b.descriptor.contract_version))
        two
      == 1))
    × (has_eligible all_active two rows (some "b")
        ≡ any
            (λ b.
              (true
                && (str_eq b.descriptor.service_id "rows"
                    && str_eq "v1" b.descriptor.contract_version))
              && str_eq b.descriptor.provider_id "b")
            two)
has_eligible-count_example = has_eligible-count all_active two rows "b"

two_are_ambiguous : has_eligible all_active two rows none ≡ false
unfolding has_eligible
two_are_ambiguous = refl

abbrev twice : List Event
twice = registers true (rows_by "a") "g1" ∷ registers true (rows_by "a") "g2" ∷ retires "g2" ∷ []

run_events-IsUnique_example : IsUnique (run_events twice [])
run_events-IsUnique_example = run_events-IsUnique twice [] tt
