-- ===== src/WorkQueue/Catalog/Lookup.antt =====
-- packages/execution/work-queue/src/contracts.ts: what an accepted catalog holds.
use heptalogos.Prelude.{
  ◌≡◌, refl, sym, ◌∙◌, ap, subst, Bool, true, false, inl, inr, String, List, [], ◌∷◌, ◌++◌, Option,
  none, some, arith, All, is_some, str_eq, str_eq-true, some_inj, Bool-cases,
}
use heptalogos.WorkQueue.Catalog.{
  Profile, Catalog, clone_definition, cons_clone, clone_all, lookup, register_all, catalog_of,
  register, create_work_queue_profile_catalog, get,
}
use heptalogos.WorkQueue.Catalog.Limits.{IsLimited, clone_definition-IsLimited}

append_assoc : (xs ys zs : List Profile) → (xs ++ ys) ++ zs ≡ xs ++ (ys ++ zs)
append_assoc [] ys zs = refl
append_assoc (x ∷ xs) ys zs = ap (λ ws. x ∷ ws) (append_assoc xs ys zs)

cons_clone-some :
    (a : Option Profile) (b : Option (List Profile)) {es : List Profile}
    → cons_clone a b ≡ some es
    → (d : Profile) × (ds : List Profile) × (a ≡ some d) × (b ≡ some ds) × (d ∷ ds ≡ es)
cons_clone-some none b h = absurd (ground (arith, h))
cons_clone-some (some d) none h = absurd (ground (arith, h))
cons_clone-some (some d) (some ds) h = (d, ds, refl, refl, some_inj h)

-- The copies are the definitions, each of them within its limits.
clone_all-some :
    (is_id : String → Bool) (ds : List Profile) {es : List Profile}
    → clone_all is_id ds ≡ some es
    → (ds ≡ es) × All (λ d. (is_id d.profile_id ≡ true) × IsLimited d) ds
unfolding clone_all
clone_all-some is_id [] h = (some_inj h, tt)
clone_all-some is_id (d ∷ ds) h =
    let (e, es, p, q, r) = cons_clone-some (clone_definition is_id d) (clone_all is_id ds) h in
    let (known, limited, same) = clone_definition-IsLimited is_id d p in
    let (rest, all) = clone_all-some is_id ds q in
    (ap (λ z. z ∷ ds) same ∙ ap (λ z. e ∷ z) rest ∙ r, ((known, limited), all))

append_nil : (xs : List Profile) → xs ++ [] ≡ xs
append_nil [] = refl
append_nil (x ∷ xs) = ap (λ ws. x ∷ ws) (append_nil xs)

lookup-append :
    (seen ds : List Profile) (d : Profile)
    → is_some (lookup d.profile_id seen) ≡ false
    → lookup d.profile_id (seen ++ (d ∷ ds)) ≡ some d
lookup-append [] ds d h = let e = str_eq-true d.profile_id d.profile_id refl in ground (arith, e)
lookup-append (x ∷ seen) ds d h = elim (Bool-cases (str_eq x.profile_id d.profile_id)) [
  | inl e ↦ absurd (ground (arith, e, h))
  | inr e ↦ let ih = lookup-append seen ds d (ground (arith, e, h)) in ground (arith, e, ih)
]

register_all-some :
    (seen ds : List Profile) {m : List Profile}
    → register_all seen ds ≡ some m
    → (seen ++ ds ≡ m) × All (λ d. lookup d.profile_id m ≡ some d) ds
unfolding register_all
register_all-some seen [] h = (append_nil seen ∙ some_inj h, tt)
register_all-some seen (d ∷ ds) h = elim (Bool-cases (is_some (lookup d.profile_id seen))) [
  | inl e ↦ absurd (ground (arith, e, h))
  | inr e ↦
      let (same, rest) = register_all-some (seen ++ (d ∷ [])) ds (ground (arith, e, h)) in
      let whole = sym (append_assoc seen (d ∷ []) ds) ∙ same in
      (whole, (subst (λ m. lookup d.profile_id m ≡ some d) whole (lookup-append seen ds d e), rest))
]

catalog_of-some :
    (es : List Profile) (o : Option (List Profile)) {c : Catalog}
    → catalog_of es o ≡ some c
    → (m : List Profile) × (o ≡ some m) × (c.by_id ≡ m) × (c.list ≡ es)
catalog_of-some es none h = absurd (ground (arith, h))
catalog_of-some es (some m) h =
    (m, refl, sym (ap (λ z. z.by_id) (some_inj h)), sym (ap (λ z. z.list) (some_inj h)))

register-some :
    (o : Option (List Profile)) {c : Catalog}
    → register o ≡ some c
    → (es : List Profile) × (o ≡ some es) × (catalog_of es (register_all [] es) ≡ some c)
register-some none h = absurd (ground (arith, h))
register-some (some es) h = (es, refl, h)

-- An accepted catalog lists the definitions it was given, field by field and in their order, and `get`
-- finds each of them for its identity. Each has a known identity; its limits and rates that are given
-- and its polling interval are positive safe integers; and where both are given, its worker limit is
-- at most its global one, the partition's limit at most the global one, and the partition's worker
-- limit at most the partition's, the worker and the global limit.
pub catalog_holds :
    (is_id : String → Bool) (definitions : List Profile) {c : Catalog}
    → create_work_queue_profile_catalog is_id definitions ≡ some c
    → (c.list ≡ definitions)
      × All (λ d. (is_id d.profile_id ≡ true) × IsLimited d) definitions
      × All (λ d. get d.profile_id c ≡ some d) definitions
unfolding create_work_queue_profile_catalog get
catalog_holds is_id definitions {c} h =
    let (es, p, q) = register-some (clone_all is_id definitions) h in
    let (same, valid) = clone_all-some is_id definitions p in
    let (m, r, keyed, listed) = catalog_of-some es (register_all [] es) q in
    let (_, found) = register_all-some [] es r in
    (
      listed ∙ sym same,
      valid,
      subst (λ z. All (λ d. lookup d.profile_id c.by_id ≡ some d) z) (sym same)
          (subst (λ z. All (λ d. lookup d.profile_id z ≡ some d) es) (sym keyed) found),
    )
