-- ===== src/Kernel/Resolve.antt =====
-- packages/runtime/runtime-kernel/src/reconciliation/reconciler.ts: the candidates of a plan, and the
-- loop that removes those whose Service requirements are not met. Fuel of one more round than there
-- are candidates is enough, since a round that changes anything removes a candidate.
use heptalogos.Prelude.{
  ℕ, zero, suc, ◌+◌, Bool, true, false, not, ◌==◌, String, List, [], ◌∷◌, Option, none, some,
  str_eq, if◌then◌else◌, length,
}
use heptalogos.Kernel.Model.{
  ServiceRequirement, MicroSystemDefinition, MicroSystemDesiredState, Bindings, get,
  DesiredRuntimeSnapshot, any, filter, count, is_eligible,
}

-- `new Map<MicroSystemId, string>()`, of which the order is not read.
abbrev pub Blocked : Type 0
Blocked = String → Option String

abbrev pub block : String → String → Blocked → Blocked
block id reason blocked j = if str_eq id j then some reason else blocked j

abbrev pub wants_running : Option MicroSystemDesiredState → Bool
wants_running (some MicroSystemDesiredState.running) = true
wants_running _ = false

unfoldable pub is_desired : DesiredRuntimeSnapshot → MicroSystemDefinition → Bool
is_desired desired d = wants_running (desired.desired d.micro_system_id)

unfoldable pub has_mode : DesiredRuntimeSnapshot → MicroSystemDefinition → Bool
has_mode desired d = any (λ mode. str_eq mode desired.operating_mode) d.operating_modes

abbrev pub admit_mode :
    Bool
    → MicroSystemDefinition
    → List MicroSystemDefinition × Blocked
    → List MicroSystemDefinition × Blocked
admit_mode true d (ds, blocked) = (d ∷ ds, blocked)
admit_mode false d (ds, blocked) =
    (ds, block d.micro_system_id "runtime.operating_mode.ineligible" blocked)

abbrev pub admit_candidate :
    Bool
    → Bool
    → MicroSystemDefinition
    → List MicroSystemDefinition × Blocked
    → List MicroSystemDefinition × Blocked
admit_candidate false mode d s = s
admit_candidate true mode d s = admit_mode mode d s

-- The candidates, and those that the operating mode blocks.
unfoldable pub candidates :
    DesiredRuntimeSnapshot → List MicroSystemDefinition → List MicroSystemDefinition × Blocked
unfolding is_desired has_mode
candidates desired [] = ([], λ j. none)
candidates desired (d ∷ ds) =
    admit_candidate (is_desired desired d) (has_mode desired d) d (candidates desired ds)

-- `resolvable.flatMap(…).length`: one for each eligible provision.
unfoldable pub count_providers : Option String → ServiceRequirement → List MicroSystemDefinition → ℕ
count_providers explicit requirement [] = 0
count_providers explicit requirement (d ∷ ds) =
    count (is_eligible explicit requirement) d.service_provisions
    + count_providers explicit requirement ds

abbrev pub reason_for : Option String → ℕ → String
reason_for explicit zero = "runtime.service.missing"
reason_for none (suc n) = "runtime.service.ambiguous_provider"
reason_for (some provider) (suc n) = "runtime.service.explicit_unavailable"

-- The first requirement that has not exactly one provider.
unfoldable pub first_unmet :
    Bindings → List MicroSystemDefinition → List ServiceRequirement → Option String
unfolding count_providers
first_unmet bindings resolvable [] = none
first_unmet bindings resolvable (r ∷ rs) =
    let explicit = get bindings r.service_id in
    let n = count_providers explicit r resolvable in
    let rest = first_unmet bindings resolvable rs in
    if n == 1 then rest else some (reason_for explicit n)

pub record Resolution : Type 0 where
  pub resolvable : List MicroSystemDefinition
  pub blocked : Blocked
  pub changed : Bool

abbrev pub remove : String → List MicroSystemDefinition → List MicroSystemDefinition
remove id = filter (λ d. not (str_eq d.micro_system_id id))

abbrev pub settle_visit : MicroSystemDefinition → Option String → Resolution → Resolution
settle_visit d none s = s
settle_visit d (some reason) s = record {
  resolvable = remove d.micro_system_id s.resolvable;
  blocked = block d.micro_system_id reason s.blocked;
  changed = true;
}

unfoldable pub visit : Bindings → MicroSystemDefinition → Resolution → Resolution
unfolding first_unmet
visit bindings d s = settle_visit d (first_unmet bindings s.resolvable d.service_requirements) s

-- `for (const definition of [...resolvable])`: over the definitions as the round found them.
unfoldable pub visit_all : Bindings → List MicroSystemDefinition → Resolution → Resolution
unfolding visit
visit_all bindings [] s = s
visit_all bindings (d ∷ ds) s = visit_all bindings ds (visit bindings d s)

unfoldable pub round : Bindings → Resolution → Resolution
unfolding visit_all
round bindings s = visit_all bindings s.resolvable (record s { changed = false })

unfoldable pub resolve : ℕ → Bindings → Resolution → Resolution
unfolding round
resolve zero bindings s = s
resolve (suc fuel) bindings s =
    let r = round bindings s in elim r.changed [ true ↦ resolve fuel bindings r | false ↦ r ]

-- The loop on the candidates of a desired snapshot.
unfoldable pub resolution : DesiredRuntimeSnapshot → List MicroSystemDefinition → Resolution
unfolding candidates resolve
resolution desired definitions =
    let c = candidates desired definitions in
    resolve (suc (length c.0)) desired.service_bindings
      (record { resolvable = c.0; blocked = c.1; changed = true })
