-- ===== src/Kernel/Registry/Unique.antt =====
-- packages/runtime/runtime-kernel/src/registry: a provider is registered once for a Service.
use heptalogos.Prelude.{
  ◌≡◌, refl, sym, ap, ◌∙◌, Bool, true, false, not, ◌&&◌, String, List, [], ◌∷◌, ◌++◌, str_eq,
  str_eq-true, true-str_eq, if◌then◌else◌, All, Bool-cases, inl, inr, or-false,
}
use heptalogos.Prelude.Except.{Except, return, throw, ◌>>◌, unless_throw}
use heptalogos.Kernel.Model.{ServiceProvision, any, filter}
use heptalogos.Kernel.Members.{All-filter}
use heptalogos.Kernel.Registry.{
  RegistryProblem, RegistryBinding, Registry, has_key, register, retire_generation,
}

-- No two bindings have the same key.
abbrev pub IsUnique : Registry → Type 0
IsUnique [] = Unit {0}
IsUnique (b ∷ r) = All (λ c. has_key b.descriptor c ≡ false) r × IsUnique r

-- What is done to a registry.
pub data Event : Type 0 where
  registers : Bool → ServiceProvision → String → Event
  retires : String → Event

-- A registration that is refused leaves the registry as it was.
abbrev pub or_else : Registry → Except RegistryProblem Registry → Registry
or_else r (return s) = s
or_else r (throw problem) = r

unfoldable pub run_event : Event → Registry → Registry
unfolding register retire_generation
run_event (registers is_supported d fence) r = or_else r (register is_supported d fence r)
run_event (retires fence) r = (retire_generation fence r).0

unfoldable pub run_events : List Event → Registry → Registry
unfolding run_event
run_events [] r = r
run_events (e ∷ es) r = run_events es (run_event e r)

str_eq-sym : (s t : String) → str_eq s t ≡ str_eq t s
str_eq-sym s t = elim (Bool-cases (str_eq s t)) [
  | inl e ↦ e ∙ sym (str_eq-true t s (sym (true-str_eq s t e)))
  | inr e ↦ elim (Bool-cases (str_eq t s)) [
    | inl f ↦ let c : true ≡ false = sym (str_eq-true s t (sym (true-str_eq t s f))) ∙ e in cc
    | inr f ↦ e ∙ sym f
  ]
]

has_key-sym : (b c : RegistryBinding) → has_key b.descriptor c ≡ has_key c.descriptor b
has_key-sym b c =
    ap (λ z. z && str_eq c.descriptor.provider_id b.descriptor.provider_id)
      (str_eq-sym c.descriptor.service_id b.descriptor.service_id)
    ∙ ap (λ z. str_eq b.descriptor.service_id c.descriptor.service_id && z)
        (str_eq-sym c.descriptor.provider_id b.descriptor.provider_id)

All-append_one :
    (P : RegistryBinding → Type 0) (r : Registry) (b : RegistryBinding)
    → All P r
    → P b
    → All P (r ++ (b ∷ []))
All-append_one P [] b a h = (h, tt)
All-append_one P (x ∷ r) b (p, a) h = (p, All-append_one P r b a h)

append-IsUnique :
    (r : Registry) (b : RegistryBinding)
    → IsUnique r
    → any (has_key b.descriptor) r ≡ false
    → IsUnique (r ++ (b ∷ []))
append-IsUnique [] b u e = (tt, tt)
append-IsUnique (c ∷ r) b (a, u) e =
    let (f, g) = or-false (has_key b.descriptor c) (any (has_key b.descriptor) r) e in
    (
      All-append_one (λ x. has_key c.descriptor x ≡ false) r b a (has_key-sym c b ∙ f),
      append-IsUnique r b u g,
    )

filter-IsUnique : (p : RegistryBinding → Bool) (r : Registry) → IsUnique r → IsUnique (filter p r)
filter-IsUnique p [] u = tt
filter-IsUnique p (b ∷ r) (a, u) =
    elim (p b) as (λ x. IsUnique (if x then b ∷ filter p r else filter p r)) [
      | true ↦ (All-filter (λ c. has_key b.descriptor c ≡ false) p r a, filter-IsUnique p r u)
      | false ↦ filter-IsUnique p r u
    ]

register-IsUnique :
    (is_supported : Bool) (d : ServiceProvision) (fence : String) (r : Registry)
    → IsUnique r
    → IsUnique (or_else r (register is_supported d fence r))
unfolding register
register-IsUnique is_supported d fence r u = step (any (has_key d) r) refl is_supported
  where
    b : RegistryBinding
    b = record { descriptor = d; fence = fence }

    step :
        (known : Bool)
        → any (has_key d) r ≡ known
        → (shaped : Bool)
        → IsUnique (
            or_else r (
              unless_throw (not known) RegistryProblem.duplicate_provider
              >> (unless_throw shaped RegistryProblem.unsupported_shape >> return (r ++ (b ∷ [])))))
    step true e shaped = u
    step false e true = append-IsUnique r b u e
    step false e false = u

-- Whatever is registered, refused and retired, a registry that has at most one binding for each
-- Service and provider, as the empty one does, keeps that.
pub run_events-IsUnique : (es : List Event) (r : Registry) → IsUnique r → IsUnique (run_events es r)
unfolding run_events run_event retire_generation
run_events-IsUnique [] r u = u
run_events-IsUnique (registers is_supported d fence ∷ es) r u =
    run_events-IsUnique es _ (register-IsUnique is_supported d fence r u)
run_events-IsUnique (retires fence ∷ es) r u =
    run_events-IsUnique es _ (filter-IsUnique (λ b. not (str_eq b.fence fence)) r u)
