-- ===== src/Kernel/Registry.antt =====
-- packages/runtime/runtime-kernel/src/registry/registry-store.ts and registry/service-registry.ts: the
-- providers of Services. The check of an implementation's shape is a parameter, and so is which fences
-- are ACTIVE; a fence is told apart by a name. A key is the pair that registryBindingKey joins.
use heptalogos.Prelude.{
  Bool, true, false, not, ◌&&◌, ◌||◌, String, List, [], ◌∷◌, ◌++◌, Option, none, some, str_eq,
  if◌then◌else◌, find, map,
}
use heptalogos.Prelude.Except.{Except, return, throw, ◌>>=◌, ◌>>◌, unless_throw}
use heptalogos.Kernel.Model.{ServiceRequirement, ServiceProvision, any, filter, is_compatible}
pub mod Select
pub mod Eligible
pub mod Unique
mod Tests

pub data RegistryProblem : Type 0 where
  duplicate_provider unsupported_shape missing explicit_unavailable ambiguous_provider :
      RegistryProblem

pub record RegistryBinding : Type 0 where
  pub descriptor : ServiceProvision
  pub fence : String

-- `valuesByKey`, in the order of the registrations.
abbrev pub Registry : Type 0
Registry = List RegistryBinding

abbrev pub has_key : ServiceProvision → RegistryBinding → Bool
has_key d b =
    str_eq b.descriptor.service_id d.service_id && str_eq b.descriptor.provider_id d.provider_id

unfoldable pub register :
    Bool → ServiceProvision → String → Registry → Except RegistryProblem Registry
register is_supported d fence r = do
  unless_throw (not (any (has_key d) r)) duplicate_provider
  unless_throw is_supported unsupported_shape
  return (r ++ (record { descriptor = d; fence = fence } ∷ []))

abbrev pub matches : ServiceRequirement → RegistryBinding → Bool
matches requirement b =
    str_eq b.descriptor.service_id requirement.service_id && is_compatible requirement b.descriptor

-- activeRegistryBindings
abbrev pub eligible : (String → Bool) → ServiceRequirement → RegistryBinding → Bool
eligible is_active requirement b = is_active b.fence && matches requirement b

-- `throwOnFailure` tells whether a failure is thrown or answered as none.
abbrev pub failed : Bool → RegistryProblem → Except RegistryProblem (Option RegistryBinding)
failed true problem = throw problem
failed false problem = return none

abbrev pub sole : Bool → List RegistryBinding → Except RegistryProblem (Option RegistryBinding)
sole throws [] = failed throws missing
sole throws (b ∷ []) = return (some b)
sole throws (b ∷ c ∷ bs) = failed throws ambiguous_provider

abbrev pub explicit_one :
    Bool → Option RegistryBinding → Except RegistryProblem (Option RegistryBinding)
explicit_one throws none = failed throws explicit_unavailable
explicit_one throws (some b) = return (some b)

abbrev pub select_from :
    Bool → Option String → List RegistryBinding → Except RegistryProblem (Option RegistryBinding)
select_from throws none candidates = sole throws candidates
select_from throws (some explicit) candidates =
    explicit_one throws (find (λ b. str_eq b.descriptor.provider_id explicit) candidates)

unfoldable pub select_binding :
    (String → Bool)
    → Registry
    → ServiceRequirement
    → Option String
    → Bool
    → Except RegistryProblem (Option RegistryBinding)
select_binding is_active r requirement explicit throws =
    select_from throws explicit (filter (eligible is_active requirement) r)

abbrev pub is_found : Except RegistryProblem (Option RegistryBinding) → Bool
is_found (return (some b)) = true
is_found (return none) = false
is_found (throw problem) = false

unfoldable pub has_eligible : (String → Bool) → Registry → ServiceRequirement → Option String → Bool
unfolding select_binding
has_eligible is_active r requirement explicit =
    is_found (select_binding is_active r requirement explicit false)

-- The binding behind the proxy that `resolve` answers.
unfoldable pub resolve_binding :
    (String → Bool)
    → Registry
    → ServiceRequirement
    → Option String
    → Except RegistryProblem (Option RegistryBinding)
unfolding select_binding
resolve_binding is_active r requirement explicit =
    select_binding is_active r requirement explicit true

-- The registry without the bindings of a fence, and whether the fence is then retired.
unfoldable pub retire_generation : String → Registry → Registry × Bool
retire_generation fence r =
    (filter (λ b. not (str_eq b.fence fence)) r, any (λ b. str_eq b.fence fence) r)
