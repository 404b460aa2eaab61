-- ===== src/Effect/Steps.antt =====
-- packages/execution/effect-operation/src/repository.ts: what one transaction may do to a row.
use heptalogos.Prelude.{
  ℕ, ◌≡◌, ◌≢◌, refl, sym, ap, subst, ◌⊎◌, inl, inr, Bool, true, false, String, Option, none, some,
  arith, str_eq, true-str_eq, and-true, if◌then◌else◌, if_cases,
}
use heptalogos.Prelude.Except.{return, throw, unless_throw, ◌>>=◌, return-injective, >>=-eq-return}
use heptalogos.Effect.Operation.{
  EffectState, prepared, dispatching, EffectOutcome, EffectRequest, EffectOperation,
  identity_conflict, Result, status_of, parse_effect_operation_row,
}
use heptalogos.Effect.Store.{
  Table, Transaction, put_row, Hit, hit_by, missed, returning, prepared_row, insert_at, update_hit,
  update_row, same_immutable_request, insert_prepared, update_where, is_prepared, is_dispatching,
  is_uncertain, is_held, admit, conclude, observed, refuse_completion, refuse_refinement,
  select_existing, begin_dispatch, complete_dispatch, recover_dispatch_as_uncertain,
  DefiniteOutcome, outcome_of, refine_uncertain, refine_current, resolve_uncertain,
}
use heptalogos.Effect.Calls.{
  Call, prepares, begins, completes, recovers, refines, resolves, run_call, mutate, settle,
  with_rest, Rest, transact,
}

-- The state machine of an external effect.
infix 4 ◌⟶◌
pub data ◌⟶◌ : EffectState → EffectState → Type 0 where
  admission : prepared ⟶ dispatching
  completion : (o : EffectOutcome) → dispatching ⟶ status_of o
  refinement : (o : DefiniteOutcome) → EffectState.uncertain ⟶ status_of (outcome_of o)

-- A step along an edge, which keeps the request, and the token once there is one.
pub record RowStep (w v : EffectOperation) : Type 0 where
  pub edge : w.state ⟶ v.state
  pub same_request : v.prepared_request ≡ w.prepared_request
  pub token_kept :
      w.state ≢ prepared → v.dispatch_host_ownership_token ≡ w.dispatch_host_ownership_token

-- A row stays or takes a step; a new row is PREPARED; no row is lost.
abbrev pub Grows : Option EffectOperation → Option EffectOperation → Type 0
Grows none none = Unit {0}
Grows none (some v) = v.state ≡ prepared
Grows (some w) none = ⊥
Grows (some w) (some v) = (v ≡ w) ⊎ RowStep w v

Grows-refl : (o : Option EffectOperation) → Grows o o
Grows-refl none = tt
Grows-refl (some w) = inl refl

pub prepared_of : (w : EffectOperation) → is_prepared w.state ≡ true → w.state ≡ prepared
prepared_of w e = ground (arith, e)

dispatching_of : (w : EffectOperation) → is_dispatching w.state ≡ true → w.state ≡ dispatching
dispatching_of w e = ground (arith, e)

uncertain_of : (w : EffectOperation) → is_uncertain w.state ≡ true → w.state ≡ EffectState.uncertain
uncertain_of w e = ground (arith, e)

begins-RowStep :
    (token : String) (at : ℕ) (w : EffectOperation)
    → is_prepared w.state ≡ true
    → RowStep w (admit token at w)
begins-RowStep token at w e = record {
  edge = subst (λ s. s ⟶ dispatching) (sym (prepared_of w e)) admission;
  same_request = refl;
  token_kept = λ n. absurd (n (prepared_of w e));
}

concludes-RowStep :
    (o : EffectOutcome) (at : ℕ) (w : EffectOperation)
    → w.state ⟶ status_of o
    → RowStep w (conclude o at w)
concludes-RowStep o at w e = record { edge = e; same_request = refl; token_kept = λ n. refl }

dispatching-RowStep :
    (o : EffectOutcome) (at : ℕ) (w : EffectOperation)
    → is_dispatching w.state ≡ true
    → RowStep w (conclude o at w)
dispatching-RowStep o at w e =
    concludes-RowStep o at w
      (subst (λ s. s ⟶ status_of o) (sym (dispatching_of w e)) (completion o))

uncertain-RowStep :
    (o : DefiniteOutcome) (at : ℕ) (w : EffectOperation)
    → is_uncertain w.state ≡ true
    → RowStep w (conclude (outcome_of o) at w)
uncertain-RowStep o at w e =
    concludes-RowStep (outcome_of o) at w
      (subst (λ s. s ⟶ status_of (outcome_of o)) (sym (uncertain_of w e)) (refinement o))

-- A write of a row that grows is growth of the table.
put_row-Grows :
    (id : String) (v : EffectOperation) (t : Table)
    → Grows (t id) (some v)
    → (j : String) → Grows (t j) (put_row id v t j)
put_row-Grows id v t g j =
    if_cases (Grows (t j)) (str_eq id j) (some v) (t j)
      (λ e. subst (λ k. Grows (t k) (some v)) (true-str_eq id j e) g) (λ _. Grows-refl (t j))

returning-table :
    {A : Type 0} (answer : EffectOperation → A) (w : EffectOperation) (t : Table) {r : A × Table}
    → returning answer w t ≡ return r
    → t ≡ r.1
returning-table answer w t e =
    let (v, p, q) = >>=-eq-return (parse_effect_operation_row w) _ e in
    ap (λ z. z.1) (return-injective q)

-- The table that a call leaves is the one that it found, or has the row of its identity rewritten.
pub data Wrote (id : String) (t u : Table) : Type 0 where
  left : t ≡ u → Wrote id t u
  wrote : (v : EffectOperation) → Grows (t id) (some v) → put_row id v t ≡ u → Wrote id t u

Wrote-Grows : (id : String) (t u : Table) → Wrote id t u → (j : String) → Grows (t j) (u j)
Wrote-Grows id t u (left e) j = subst (λ x. Grows (t j) (x j)) e (Grows-refl (t j))
Wrote-Grows id t u (wrote v g e) j = subst (λ x. Grows (t j) (x j)) e (put_row-Grows id v t g j)

-- What runs where no row is hit does not write.
abbrev pub Reads : Transaction Hit → Type 0
Reads body = (t : Table) (s : Hit × Table) → body t ≡ return s → t ≡ s.1

pub observed-Reads : (id : String) → Reads (observed id)
observed-Reads id t s e =
    let (w, p, q) = >>=-eq-return (select_existing id t) _ e in ap (λ z. z.1) (return-injective q)

pub refuse_completion-Reads :
    (id : String) → Reads (λ t. select_existing id t >>= refuse_completion)
refuse_completion-Reads id t s e =
    let (w, p, q) = >>=-eq-return (select_existing id t) refuse_completion e in
    absurd (ground (arith, q))

pub refuse_refinement-Reads :
    (id : String) → Reads (λ t. select_existing id t >>= refuse_refinement t)
refuse_refinement-Reads id t s e =
    let (w, p, q) = >>=-eq-return (select_existing id t) (refuse_refinement t) e in
    ground (arith, q)

module _ (id : String) (p : EffectOperation → Bool) (f : EffectOperation → EffectOperation)
    (otherwise : Transaction Hit) (reads : Reads otherwise)
    (step : (w : EffectOperation) → p w ≡ true → RowStep w (f w)) where
  update_hit-Wrote :
      (w : EffectOperation) (b : Bool) (t : Table) {r : Hit × Table}
      → t id ≡ some w
      → p w ≡ b
      → update_hit id f w b otherwise t ≡ return r
      → Wrote id t r.1
  update_hit-Wrote w true t e h k =
      wrote (f w) (subst (λ o. Grows o (some (f w))) (sym e) (inr (step w h)))
        (returning-table hit_by (f w) (put_row id (f w) t) k)
  update_hit-Wrote w false t {r} e h k = left (reads t r k)

  update_row-Wrote :
      (o : Option EffectOperation) (t : Table) {r : Hit × Table}
      → t id ≡ o
      → update_row id p f otherwise o t ≡ return r
      → Wrote id t r.1
  update_row-Wrote none t {r} e k = left (reads t r k)
  update_row-Wrote (some w) t e k = update_hit-Wrote w (p w) t e refl k

  update_where-Wrote :
      (t : Table) {r : Hit × Table} → update_where id p f otherwise t ≡ return r → Wrote id t r.1
  unfolding update_where
  update_where-Wrote t k = update_row-Wrote (t id) t refl k

insert_prepared-Wrote :
    (input : EffectRequest) (lineage : String) (at : ℕ) (o : Option EffectOperation) (t : Table)
    {r : Hit × Table}
    → t input.effect_operation_id ≡ o
    → insert_at input lineage at o t ≡ return r
    → Wrote input.effect_operation_id t r.1
insert_prepared-Wrote input lineage at none t e k =
    wrote (prepared_row input lineage at)
      (subst (λ o. Grows o (some (prepared_row input lineage at))) (sym e) refl)
      (returning-table hit_by (prepared_row input lineage at) _ k)
insert_prepared-Wrote input lineage at (some existing) t e k =
    let (w, p, q) = >>=-eq-return (select_existing input.effect_operation_id t) _ k in
    let (u, p', q') =
      >>=-eq-return (unless_throw (same_immutable_request w input) identity_conflict) _ q in
    left (ap (λ z. z.1) (return-injective q'))

-- The identity that a call is about.
abbrev pub target_of : Call → String
target_of (prepares input lineage at) = input.effect_operation_id
target_of (begins token id at) = id
target_of (completes token id o at) = id
target_of (recovers id problem at) = id
target_of (refines id o at) = id
target_of (resolves id o at) = id

refine_uncertain-Wrote :
    (id : String) (o : DefiniteOutcome) (at : ℕ) (t : Table) {r : Hit × Table}
    → refine_uncertain id o at t ≡ return r
    → Wrote id t r.1
unfolding refine_uncertain
refine_uncertain-Wrote id o at t e =
    update_where-Wrote id (λ w. is_uncertain w.state) (conclude (outcome_of o) at) _
      (refuse_refinement-Reads id) (uncertain-RowStep o at) t e

refine_when-Wrote :
    (b : Bool) (id : String) (o : DefiniteOutcome) (at : ℕ) (w : EffectOperation) (t : Table)
    {r : Hit × Table}
    → (if b then refine_uncertain id o at t else return (missed w, t)) ≡ return r
    → Wrote id t r.1
refine_when-Wrote true id o at w t e = refine_uncertain-Wrote id o at t e
refine_when-Wrote false id o at w t e = left (ap (λ z. z.1) (return-injective e))

refine_current-Wrote :
    (id : String) (o : Option DefiniteOutcome) (at : ℕ) (w : EffectOperation) (t : Table)
    {r : Hit × Table}
    → refine_current id o at w t ≡ return r
    → Wrote id t r.1
refine_current-Wrote id none at w t e = left (ap (λ z. z.1) (return-injective e))
refine_current-Wrote id (some o) at w t e = refine_when-Wrote (is_uncertain w.state) id o at w t e

run_call-Wrote :
    (c : Call) (t : Table) {r : Hit × Table} → run_call c t ≡ return r → Wrote (target_of c) t r.1
unfolding run_call insert_prepared begin_dispatch complete_dispatch recover_dispatch_as_uncertain
    resolve_uncertain
run_call-Wrote (prepares input lineage at) t e =
    insert_prepared-Wrote input lineage at (t input.effect_operation_id) t refl e
run_call-Wrote (begins token id at) t e =
    update_where-Wrote id (λ w. is_prepared w.state) (admit token at) (observed id)
      (observed-Reads id) (begins-RowStep token at) t e
run_call-Wrote (completes token id o at) t e =
    update_where-Wrote id (is_held token) (conclude o at) _ (refuse_completion-Reads id)
      (λ w h. dispatching-RowStep o at w (and-true _ _ h).0) t e
run_call-Wrote (recovers id problem at) t e =
    update_where-Wrote id (λ w. is_dispatching w.state)
      (conclude (EffectOutcome.uncertain problem) at) (observed id) (observed-Reads id)
      (dispatching-RowStep (EffectOutcome.uncertain problem) at) t e
run_call-Wrote (refines id o at) t e = refine_uncertain-Wrote id o at t e
run_call-Wrote (resolves id o at) t e =
    let (w, p, q) = >>=-eq-return (select_existing id t) _ e in refine_current-Wrote id o at w t q

pub settle-Grows :
    {A : Type 0} (t : Table) (r : Result (A × Table)) (id : String)
    → ((s : A × Table) → r ≡ return s → Wrote id t s.1)
    → (j : String) → Grows (t j) ((settle t r).0 j)
settle-Grows t (return s) id w j = Wrote-Grows id t s.1 (w s refl) j
settle-Grows t (throw problem) id w j = Grows-refl (t j)

-- A transaction of the repository, whatever else its body does and whether it is thrown, leaves each
-- row as it was, takes it one step along the state machine with its request and any token kept, or
-- adds a PREPARED row. No row is removed.
pub transact-Grows :
    (c : Call) (rest : Rest) (t : Table) (id : String) → Grows (t id) ((transact c rest t).0 id)
unfolding transact mutate
transact-Grows c rest t id =
    settle-Grows t (with_rest (run_call c) rest t) (target_of c)
      (λ s e.
        let (r, p, q) = >>=-eq-return (run_call c t) _ e in
        let (u, p', q') = >>=-eq-return (rest r.0) _ q in
        subst (λ z. Wrote (target_of c) t z.1) (return-injective q') (run_call-Wrote c t p))
      id
