-- ===== src/Kernel/Model.antt =====
-- packages/runtime/runtime-kernel/src/model/contracts.ts and model/contract-compatibility.ts: what the
-- reconciliation reads of them. Identities and contract versions are texts; a definition stands for its
-- object, and the model tells definitions apart by their identity.
use heptalogos.Prelude.{
  ℕ, ◌+◌, Bool, true, false, ◌&&◌, ◌||◌, String, List, [], ◌∷◌, Option, none, some, str_eq,
  if◌then◌else◌,
}

-- The only kind of a contract range is "exact": its version.
pub record ServiceRequirement : Type 0 where
  pub service_id : String
  pub contract_version : String

pub record ServiceProvision : Type 0 where
  pub service_id : String
  pub contract_version : String
  pub provider_id : String

pub record MicroSystemDefinition : Type 0 where
  pub micro_system_id : String
  pub operating_modes : List String
  pub service_requirements : List ServiceRequirement
  pub service_provisions : List ServiceProvision

pub data MicroSystemDesiredState : Type 0 where
  running stopped : MicroSystemDesiredState

pub data MicroSystemActualState : Type 0 where
  stopped blocked starting running quiescing failed : MicroSystemActualState

-- A map in the order of its insertions.
abbrev pub Bindings : Type 0
Bindings = List (String × String)

-- `map.get(key)`
abbrev pub get : Bindings → String → Option String
get [] key = none
get ((k, v) ∷ m) key = if str_eq k key then some v else get m key

-- `map.set(key, value)`: a key that is there keeps its place.
abbrev pub set : Bindings → String → String → Bindings
set [] key value = (key, value) ∷ []
set ((k, v) ∷ m) key value = if str_eq k key then (k, value) ∷ m else (k, v) ∷ set m key value

pub record DesiredRuntimeSnapshot : Type 0 where
  pub revision : ℕ
  pub operating_mode : String
  pub desired : String → Option MicroSystemDesiredState
  pub service_bindings : Bindings
  pub capability_bindings : Bindings

abbrev pub any : {A : Type 0} → (A → Bool) → List A → Bool
any p [] = false
any p (x ∷ xs) = p x || any p xs

abbrev pub filter : {A : Type 0} → (A → Bool) → List A → List A
filter p [] = []
filter p (x ∷ xs) = if p x then x ∷ filter p xs else filter p xs

-- How many elements pass a test.
abbrev pub count : {A : Type 0} → (A → Bool) → List A → ℕ
count p [] = 0
count p (x ∷ xs) = (if p x then 1 else 0) + count p xs

abbrev pub is_compatible : ServiceRequirement → ServiceProvision → Bool
is_compatible requirement provision = str_eq requirement.contract_version provision.contract_version

abbrev pub is_selected : Option String → ServiceProvision → Bool
is_selected none provision = true
is_selected (some explicit) provision = str_eq provision.provider_id explicit

-- The provisions that a requirement accepts, given its explicit binding.
unfoldable pub is_eligible : Option String → ServiceRequirement → ServiceProvision → Bool
is_eligible explicit requirement provision =
    str_eq provision.service_id requirement.service_id
    && is_compatible requirement provision
    && is_selected explicit provision

abbrev pub has_id : String → List MicroSystemDefinition → Bool
has_id id = any (λ d. str_eq d.micro_system_id id)
