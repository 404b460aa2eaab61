-- ===== src/WorkQueue/Guards.antt =====
-- packages/execution/work-queue/src/repository.ts: what a guard says of the row that it matches,
-- and the two ways in which a call leaves the table: unchanged, or with the matched rows rewritten.
use text.Mathlib.TextEquality.{eq_iff}
use heptalogos.Prelude.{
  ℕ, ◌≡◌, refl, sym, ap, ◌∙◌, Bool, true, ◌&&◌, ◌⊎◌, inl, inr, ◌≢◌, subst, Option, none, some,
  arith, first?, first?-select, select, find, String, and-true,
}
use heptalogos.WorkQueue.Item.{WorkItemState, WorkItem}
use heptalogos.WorkQueue.Row.{
  Result, ok, err, ◌>>=◌, require, is_positive_safe, require-eq-ok, invalid_work_item,
  parse_persisted_work_item, port_failed,
}
use heptalogos.WorkQueue.Store.{
  Table, MutationResult, MutationAppliedHook, applied, UpdateGuard, assert_guard, update_guard,
  same_attempt, guard_clause, update_where, cas_outcome, all_meet_checks, apply_row, apply_cas,
  settle, mutation_context,
}
use heptalogos.WorkQueue.Mutations.{
  Mutation, target_id, expected_revision, expected_state, expected_attempt, extra_clause, set_list,
  mutate_within, mutate,
}

-- The guard of a call, once its arguments are accepted.
abbrev pub guard_of : Mutation → UpdateGuard
guard_of m = record {
  work_item_id = target_id m;
  expected_dispatch_revision = expected_revision m;
  expected_state = expected_state m;
  expected_active_attempt_id = expected_attempt m;
}

-- The WHERE clause of a call.
unfoldable pub where_clause : Mutation → WorkItem → Bool
where_clause m w = guard_clause (guard_of m) w && extra_clause m w

-- The attempt that a guard carries belongs to a RUNNING guard, and to no other.
abbrev pub AttemptFits : WorkItemState → Option String → Type 0
AttemptFits s a = assert_guard s a ≡ ok tt

pub guard_clause-row :
    (g : UpdateGuard) (w : WorkItem)
    → guard_clause g w ≡ true
    → (w.work_item_id ≡ g.work_item_id)
      × (w.dispatch_revision ≡ g.expected_dispatch_revision)
      × (w.state ≡ g.expected_state)
unfolding guard_clause
guard_clause-row g w h = ground (arith, eq_iff w.work_item_id g.work_item_id)

attempt_eq : (x y : Option String) (a : String) → x ≡ some a → same_attempt x y ≡ true → y ≡ some a
attempt_eq none y a e h = cc
attempt_eq (some b) none a e h = cc
attempt_eq (some b) (some c) a e h = ground (arith, eq_iff c b)

pub guard_clause-attempt :
    (g : UpdateGuard) (w : WorkItem) (a : String)
    → guard_clause g w ≡ true
    → g.expected_active_attempt_id ≡ some a
    → w.active_attempt_id ≡ some a
unfolding guard_clause
guard_clause-attempt g w a h e =
    ground (arith, attempt_eq g.expected_active_attempt_id w.active_attempt_id a)

-- What the WHERE clause of a call says of a row that it matches.
pub where_clause-row :
    (m : Mutation) (w : WorkItem)
    → where_clause m w ≡ true
    → (w.work_item_id ≡ target_id m)
      × (w.dispatch_revision ≡ expected_revision m)
      × (w.state ≡ expected_state m)
      × (extra_clause m w ≡ true)
unfolding where_clause
where_clause-row m w h =
    let (g, x) = and-true (guard_clause (guard_of m) w) (extra_clause m w) h in
    let (i, r, s) = guard_clause-row (guard_of m) w g in (i, r, s, x)

-- What a call that is not refused has checked.
pub record Accepted (m : Mutation) : Type 0 where
  pub revision : is_positive_safe (expected_revision m) ≡ true
  pub attempt : AttemptFits (expected_state m) (expected_attempt m)

pub >>=-eq-ok {ℓ κ} :
    {T : Type ℓ} {U : Type κ} (call : Result T) (next : T → Result U) {u : U}
    → (call >>= next) ≡ ok u
    → (t : T) × (call ≡ ok t) × (next t ≡ ok u)
>>=-eq-ok (err problem) next thrown = cc
>>=-eq-ok (ok t) next rest = (t, refl, rest)

pub ok-injective {ℓ} : {A : Type ℓ} {a b : A} → ok a ≡ ok b → a ≡ b
ok-injective h = cc

abbrev guard_record : String → ℕ → WorkItemState → Option String → UpdateGuard
guard_record id rev s a = record {
  work_item_id = id;
  expected_dispatch_revision = rev;
  expected_state = s;
  expected_active_attempt_id = a;
}

update_guard-eq-ok :
    (id : String) (rev : ℕ) (s : WorkItemState) (a : Option String) {g : UpdateGuard}
    → update_guard id rev s a ≡ ok g
    → (is_positive_safe rev ≡ true) × AttemptFits s a × (g ≡ guard_record id rev s a)
unfolding update_guard
update_guard-eq-ok id rev s a h =
    let (u, p, q) = >>=-eq-ok (require (is_positive_safe rev) invalid_work_item) _ h in
    let (u', p', q') = >>=-eq-ok (assert_guard s a) _ q in
    ((require-eq-ok _ _ _ h).0, p', sym (ok-injective q'))

-- The row that a call matches first, and its new version, which passes the checks of a row.
abbrev pub Applies : Mutation → Table → MutationResult → Table → Type 0
Applies m t r t' =
    (w : WorkItem) × (v : WorkItem) × (first? (select (where_clause m) t) ≡ some w)
    × (parse_persisted_work_item (set_list m w) ≡ ok v)
    × (t' ≡ update_where (where_clause m) (set_list m) t)
    × (r ≡ record { status = applied; item = some v })

-- Neither the lookup after a missed guard nor a refusal reports an applied change.
cas_outcome-ne-applied :
    (id : String) (t : Table) {r : MutationResult} → cas_outcome id t ≡ ok r → r.status ≢ applied
unfolding cas_outcome
cas_outcome-ne-applied id t h e = ground arith

abbrev Missed : Table → MutationResult → Table → Type 0
Missed t r t' = (t' ≡ t) × (r.status ≢ applied)

apply_row_cases :
    (m : Mutation) (hook : MutationAppliedHook) (t : Table) {r : MutationResult} {t' : Table}
    (o : Option WorkItem)
    → first? (select (where_clause m) t) ≡ o
    → apply_row (where_clause m) (set_list m) (target_id m) hook t o ≡ ok (r, t')
    → Missed t r t' ⊎ Applies m t r t'
unfolding apply_row
apply_row_cases m hook t none e h =
    let (x, p, q) = >>=-eq-ok (cas_outcome (target_id m) t) _ h in
    inl (
      sym (ap (λ y. y.1) (ok-injective q)),
      subst (λ z. z.status ≢ applied) (ap (λ y. y.0) (ok-injective q))
          (cas_outcome-ne-applied _ _ p),
    )
apply_row_cases m hook t (some w) e h =
    let (_, stored) =
      require-eq-ok (all_meet_checks (set_list m) (select (where_clause m) t)) port_failed _ h in
    let (v, p, q) = >>=-eq-ok (parse_persisted_work_item (set_list m w)) _ stored in
    let (u, p', q') = >>=-eq-ok (hook v) _ q in
    inr (w, v, e, p, sym (ap (λ y. y.1) (ok-injective q')), sym (ap (λ y. y.0) (ok-injective q')))

-- A call that is not refused was accepted, and missed every row or rewrote what it matched.
pub mutate_within_cases :
    (m : Mutation) (hook : MutationAppliedHook) (t : Table) {r : MutationResult} {t' : Table}
    → mutate_within m hook t ≡ ok (r, t')
    → Accepted m × (Missed t r t' ⊎ Applies m t r t')
unfolding mutate_within where_clause apply_cas
mutate_within_cases m hook t h =
    let (g, p, q) =
      >>=-eq-ok
        (update_guard (target_id m) (expected_revision m) (expected_state m) (expected_attempt m)) _
        h in
    let (a, b, c) = update_guard-eq-ok _ _ _ _ p in
    (record { revision = a; attempt = b }, apply_row_cases m hook t _ refl (rw c at q))

update_guard-Accepted :
    (m : Mutation)
    → Accepted m
    → update_guard (target_id m) (expected_revision m) (expected_state m) (expected_attempt m)
      ≡ ok (guard_of m)
unfolding update_guard
update_guard-Accepted m a = rw (a.revision, a.attempt)

-- An accepted call comes down to the first row that it matches.
pub mutate_within-Accepted :
    (m : Mutation) (hook : MutationAppliedHook) (t : Table)
    → Accepted m
    → mutate_within m hook t
      ≡ apply_row (where_clause m) (set_list m) (target_id m) hook t (find (where_clause m) t)
unfolding mutate_within where_clause apply_cas
mutate_within-Accepted m hook t a =
    ap
      (λ g. g >>= λ x.
        apply_cas (λ w. guard_clause x w && extra_clause m w) (set_list m) (target_id m) hook t)
      (update_guard-Accepted m a)
    ∙ ap (apply_row (where_clause m) (set_list m) (target_id m) hook t)
        (first?-select (where_clause m) t)

abbrev pub Left : Table → Table × Result MutationResult → Type 0
Left t out = (out.0 ≡ t) × ((r : MutationResult) → out.1 ≡ ok r → r.status ≢ applied)

abbrev pub Rewrote : Mutation → Table → Table × Result MutationResult → Type 0
Rewrote m t out = Accepted m × (r : MutationResult) × (out.1 ≡ ok r) × Applies m t r out.0

settle_cases :
    (m : Mutation) (hook : MutationAppliedHook) (t : Table) (x : Result (MutationResult × Table))
    → mutate_within m hook t ≡ x
    → Left t (settle t x) ⊎ Rewrote m t (settle t x)
unfolding settle
settle_cases m hook t (err e) h = inl (refl, λ r k. cc)
settle_cases m hook t (ok (r, t')) h = elim (mutate_within_cases m hook t h).1 [
  | inl (same, missed) ↦ inl (same, λ r' k. subst (λ z. z.status ≢ applied) (ok-injective k) missed)
  | inr a ↦ inr ((mutate_within_cases m hook t h).0, r, refl, a)
]

-- A call leaves the table as it was and reports no applied change, or it was accepted and rewrote
-- the rows that it matches.
pub mutate_cases :
    (m : Mutation) (hook : MutationAppliedHook) (t : Table)
    → Left t (mutate m hook t) ⊎ Rewrote m t (mutate m hook t)
unfolding mutate mutation_context
mutate_cases m hook t = settle_cases m hook t (mutate_within m hook t) refl
