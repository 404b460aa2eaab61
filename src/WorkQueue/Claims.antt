-- ===== src/WorkQueue/Claims.antt =====
-- packages/execution/work-queue/src/repository.ts: the fencing of attempts. A dispatch revision is
-- claimed at most once, and an attempt of an older revision cannot change its row.
use heptalogos.Prelude.{
  ℕ, ◌<◌, ◌≡◌, ◌≢◌, refl, sym, ap, subst, ◌∙◌, Bool, true, false, inl, inr, List, [], ◌∷◌, some,
  arith, Bool-cases, String, All, All-find, first?-select, find, some_inj, str_eq, str_eq-true,
  str_eq-false,
}
use heptalogos.WorkQueue.Item.{WorkItem, WorkSpec}
use heptalogos.WorkQueue.Row.{ok, parse-eq-ok}
use heptalogos.WorkQueue.Store.{Table, MutationResult, MutationAppliedHook, applied, update_where}
use heptalogos.WorkQueue.Updates.{
  set_running, set_waiting_dependency, set_woken, set_retry_wait, set_due, set_cancel,
  set_supersede, set_terminal,
}
use heptalogos.WorkQueue.Mutations.{
  Mutation, mark_running, target_id, expected_revision, set_list, mutate, run_history,
}
use heptalogos.WorkQueue.Guards.{where_clause, where_clause-row, mutate_cases, Left, ok-injective}
use heptalogos.WorkQueue.Lifecycle.{Rowwise}
use heptalogos.WorkQueue.History.{
  Later, Later-row_of, run_history-Later, mutate-Later, row_of, History, AllTyped,
}

-- work_item_id is the primary key.
abbrev pub IsKeyed : Table → Type 0
IsKeyed [] = Unit {0}
IsKeyed (w ∷ t) = All (λ v. v.work_item_id ≢ w.work_item_id) t × IsKeyed t

Rowwise-fresh :
    (id : String) (t u : Table)
    → Rowwise Later t u
    → All (λ v. v.work_item_id ≢ id) t
    → All (λ v. v.work_item_id ≢ id) u
Rowwise-fresh id [] [] r h = tt
Rowwise-fresh id [] (v ∷ u) r h = absurd r
Rowwise-fresh id (w ∷ t) [] r h = absurd r
Rowwise-fresh id (w ∷ t) (v ∷ u) r h =
    (λ e. h.0 (sym (ap (λ s. s.work_item_id) r.0.same_spec) ∙ e), Rowwise-fresh id t u r.1 h.1)

Later-IsKeyed : (t u : Table) → Rowwise Later t u → IsKeyed t → IsKeyed u
Later-IsKeyed [] [] r h = tt
Later-IsKeyed [] (v ∷ u) r h = absurd r
Later-IsKeyed (w ∷ t) [] r h = absurd r
Later-IsKeyed (w ∷ t) (v ∷ u) r h = (
  Rowwise-fresh v.work_item_id t u r.1 (rw (ap (λ s. s.work_item_id) r.0.same_spec) h.0),
  Later-IsKeyed t u r.1 h.1,
)

-- The row that a call matches is the row of its identity.
row_of-matched :
    (m : Mutation) (t : Table) {w : WorkItem}
    → IsKeyed t
    → find (where_clause m) t ≡ some w
    → (row_of (target_id m) t ≡ some w) × (where_clause m w ≡ true)
row_of-matched m [] k e = cc
row_of-matched m (x ∷ t) {w} k e = elim (Bool-cases (where_clause m x)) [
  | inl hit ↦
      let same : x ≡ w = some_inj (rw (hit, find) at e) in
      let (i, _, _, _) = where_clause-row m x hit in
      (rw (str_eq-true _ _ i, find) (ap some same), subst (λ z. where_clause m z ≡ true) same hit)
  | inr miss ↦
      let rest = rw (miss, find) at e in
      let (p, q) = row_of-matched m t k.1 rest in
      let (i, _, _, _) = where_clause-row m w q in
      let other = (All-find (λ v. v.work_item_id ≢ x.work_item_id) (where_clause m) t k.0 rest).0 in
      (rw (str_eq-false x.work_item_id (target_id m) (λ j. other (i ∙ sym j)), find) p, q)
]

-- A call whose row has another revision or state than it expects changes nothing.
pub mutate-Left :
    (m : Mutation) (hook : MutationAppliedHook) (t : Table) {w : WorkItem}
    → IsKeyed t
    → row_of (target_id m) t ≡ some w
    → where_clause m w ≡ false
    → Left t (mutate m hook t)
mutate-Left m hook t {w} k e n = elim (mutate_cases m hook t) [
  | inl left ↦ left
  | inr (acc, r, p, (x, v, f, q, u, s)) ↦
      let (i, j) = row_of-matched m t k (sym (first?-select (where_clause m) t) ∙ f) in
      let same : x ≡ w = some_inj (sym i ∙ e) in cc (subst (λ z. where_clause m z ≡ true) same j, n)
]

where_clause-revision :
    (m : Mutation) (w : WorkItem)
    → w.dispatch_revision ≢ expected_revision m
    → where_clause m w ≡ false
where_clause-revision m w n = elim (Bool-cases (where_clause m w)) [
  | inl e ↦ absurd (n (where_clause-row m w e).1)
  | inr e ↦ e
]

-- A call of an older revision is fenced for good: once the row has moved past the revision that the
-- call expects, the call leaves the table as it was and reports no applied change, after any history.
pub stale_revision_fenced :
    (ms : History) (t : Table) (m : Mutation) (hook : MutationAppliedHook) {w : WorkItem}
    → IsKeyed t
    → AllTyped ms
    → row_of (target_id m) t ≡ some w
    → expected_revision m < w.dispatch_revision
    → Left (run_history ms t) (mutate m hook (run_history ms t))
stale_revision_fenced ms t m hook k h e lt =
    let later = run_history-Later ms t h in
    let (v, p, l) = Later-row_of (target_id m) t _ later e in
    mutate-Left m hook _ (Later-IsKeyed t _ later k) p
      (where_clause-revision m v (λ same. omega (arith, l.revision_grows)))

row_of-update_where :
    (id : String) (p : WorkItem → Bool) (f : WorkItem → WorkItem) (t : Table) {w : WorkItem}
    → ((v : WorkItem) → (f v).spec ≡ v.spec)
    → row_of id t ≡ some w
    → p w ≡ true
    → row_of id (update_where p f t) ≡ some (f w)
unfolding update_where
row_of-update_where id p f [] s e h = cc
row_of-update_where id p f (x ∷ t) {w} s e h = elim (Bool-cases (str_eq x.work_item_id id)) [
  | inl hit ↦
      let same : x ≡ w = some_inj (rw (hit, find) at e) in
      let px : p x ≡ true = ap p same ∙ h in
      rw (px, ap (λ (c : WorkSpec). str_eq c.work_item_id id) (s x) ∙ hit, find)
        (rw px (ap (λ v. some (f v)) same))
  | inr miss ↦
      let rest = row_of-update_where id p f t s (rw (miss, find) at e) h in
      elim (Bool-cases (p x)) [
        | inl px ↦ rw (px, ap (λ (c : WorkSpec). str_eq c.work_item_id id) (s x) ∙ miss, find) rest
        | inr px ↦ rw (px, miss, find) rest
      ]
]

pub set_list-spec : (m : Mutation) (w : WorkItem) → (set_list m w).spec ≡ w.spec
unfolding set_list set_running set_waiting_dependency set_woken set_retry_wait set_due set_cancel
    set_supersede set_terminal
set_list-spec (mark_running id rev a at) w = refl
set_list-spec _ w = refl

pub find-true : {A : Type 0} (p : A → Bool) (xs : List A) {x : A} → find p xs ≡ some x → p x ≡ true
find-true p xs e = (All-find (λ _. Unit {0}) p xs (all_unit xs) e).1
  where
    all_unit : {A : Type 0} (ys : List A) → All (λ _. Unit {0}) ys
    all_unit [] = tt
    all_unit (y ∷ ys) = (tt, all_unit ys)

-- The item that an applied call returns is the new version of a row that it matched.
pub applied_item :
    (m : Mutation) (hook : MutationAppliedHook) (t : Table) {r : MutationResult}
    → (mutate m hook t).1 ≡ ok r
    → r.status ≡ applied
    → (w : WorkItem) × (where_clause m w ≡ true) × (r.item ≡ some (set_list m w))
applied_item m hook t e a = elim (mutate_cases m hook t) [
  | inl (same, missed) ↦ absurd (missed _ e a)
  | inr (acc, r, p, (w, v, f, q, u, s)) ↦ (
    w,
    find-true (where_clause m) t (sym (first?-select (where_clause m) t) ∙ f),
    ap (λ z. z.item) (ok-injective (sym e ∙ p) ∙ s) ∙ ap some (parse-eq-ok _ _ q).1,
  )
]

-- What an applied call leaves: the row of its identity, which its guard matched, rewritten.
pub applied_row :
    (m : Mutation) (hook : MutationAppliedHook) (t : Table) {r : MutationResult}
    → IsKeyed t
    → (mutate m hook t).1 ≡ ok r
    → r.status ≡ applied
    → (w : WorkItem) × (row_of (target_id m) t ≡ some w)
      × (where_clause m w ≡ true)
      × (row_of (target_id m) (mutate m hook t).0 ≡ some (set_list m w))
      × (r.item ≡ some (set_list m w))
applied_row m hook t k e a = elim (mutate_cases m hook t) [
  | inl (same, missed) ↦ absurd (missed _ e a)
  | inr (acc, r, p, (w, v, f, q, u, s)) ↦
      let (i, j) = row_of-matched m t k (sym (first?-select (where_clause m) t) ∙ f) in
      (
        w,
        i,
        j,
        rw u (row_of-update_where (target_id m) _ _ t (set_list-spec m) i j),
        ap (λ z. z.item) (ok-injective (sym e ∙ p) ∙ s) ∙ ap some (parse-eq-ok _ _ q).1,
      )
]

reclaim_refused :
    (id : String) (rev : ℕ) (a b : String) (at later : ℕ) (w v : WorkItem)
    → Later (set_running a at w) v
    → w.dispatch_revision ≡ rev
    → where_clause (mark_running id rev b later) v ≡ false
unfolding set_running
reclaim_refused id rev a b at later w v l e =
    elim (Bool-cases (where_clause (mark_running id rev b later) v)) [
      | inl hit ↦
          let (i, r, s, x) = where_clause-row (mark_running id rev b later) v hit in
          absurd (omega (arith, l.pending_renewed (λ p. cc) s))
      | inr miss ↦ miss
    ]

-- A revision is claimed once: after an applied claim, no later claim of the same revision is
-- applied, whatever calls were made in between, and it leaves the table as it was.
pub claim_once :
    (ms : History) (t : Table) (id : String) (rev : ℕ) (a b : String) (at later : ℕ)
    (hook hook' : MutationAppliedHook) {r : MutationResult}
    → IsKeyed t
    → AllTyped ms
    → (mutate (mark_running id rev a at) hook t).1 ≡ ok r
    → r.status ≡ applied
    → let u = run_history ms (mutate (mark_running id rev a at) hook t).0 in
      Left u (mutate (mark_running id rev b later) hook' u)
unfolding set_list
claim_once ms t id rev a b at later hook hook' k h e s =
    let first = mark_running id rev a at in
    let (w, i, j, n, it) = applied_row first hook t k e s in
    let claimed = mutate-Later first hook t tt in
    let after = run_history-Later ms _ h in
    let (v, p, l) = Later-row_of id _ _ after n in
    mutate-Left (mark_running id rev b later) hook' _
      (Later-IsKeyed _ _ after (Later-IsKeyed t _ claimed k)) p
      (reclaim_refused id rev a b at later w v l (where_clause-row first w j).1)
