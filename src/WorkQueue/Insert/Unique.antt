-- ===== src/WorkQueue/Insert/Unique.antt =====
-- packages/execution/work-queue/src/repository.ts: at most one open row has a handler's key, whatever
-- is inserted and whatever the other calls do.
use heptalogos.Prelude.{
  ◌≡◌, refl, sym, ◌∙◌, ap, subst, Bool, true, false, ◌&&◌, not, inl, inr, String, [], ◌∷◌, ◌++◌,
  Option, none, some, arith, All, is_some, find, str_eq, str_eq-true, true-str_eq, Bool-cases,
}
use heptalogos.WorkQueue.Item.{WorkItemState, is_terminal, WorkItem, WorkSpec}
use heptalogos.WorkQueue.Row.{
  Result, ok, err, port_failed, invalid_work_item, is_positive_safe, require-eq-ok,
  parse_persisted_work_item,
}
use heptalogos.WorkQueue.Constraints.{meets_checks}
use heptalogos.WorkQueue.Store.{Table, mutation_context, settle}
use heptalogos.WorkQueue.Guards.{>>=-eq-ok, ok-injective}
use heptalogos.WorkQueue.Lifecycle.{Rowwise}
use heptalogos.WorkQueue.History.{Later, History, AllTyped, run_history-Later}
use heptalogos.WorkQueue.Mutations.{run_history}
use heptalogos.WorkQueue.Insert.{
  is_open, same_key, dedup_matches, conflicts, InsertStatus, inserted, existing, InsertResult,
  InsertHook, insert_row, insert_against, insert_unkeyed, select_dedup, report_insert,
  report_existing, reconcile, settle_insert, insert_within, insert_work_item,
}

-- No two rows conflict.
abbrev pub IsDeduped : Table → Type 0
IsDeduped [] = Unit {0}
IsDeduped (w ∷ t) = All (λ v. conflicts w v ≡ false) t × IsDeduped t

same_key-sym : (a b : Option String) → same_key a b ≡ true → same_key b a ≡ true
same_key-sym none b e = absurd (ground (arith, e))
same_key-sym (some a) none e = absurd (ground (arith, e))
same_key-sym (some a) (some b) e = str_eq-true _ _ (sym (true-str_eq _ _ e))

str_eq-sym : (a b : String) → str_eq a b ≡ true → str_eq b a ≡ true
str_eq-sym a b e = str_eq-true _ _ (sym (true-str_eq _ _ e))

conflicts-sym : (w v : WorkItem) → conflicts w v ≡ true → conflicts v w ≡ true
unfolding dedup_matches
conflicts-sym w v e =
    let a = str_eq-sym w.handler.micro_system_id v.handler.micro_system_id (ground (arith, e)) in
    let b = str_eq-sym w.handler.contribution_id v.handler.contribution_id (ground (arith, e)) in
    let c = same_key-sym w.dedup_key v.dedup_key (ground (arith, e)) in ground (arith, e, a, b, c)

no_conflict-sym : (w v : WorkItem) → conflicts w v ≡ false → conflicts v w ≡ false
no_conflict-sym w v e = elim (Bool-cases (conflicts v w)) [
  | inl h ↦ let back = conflicts-sym v w h in cc
  | inr h ↦ h
]

find-none : (p : WorkItem → Bool) (t : Table) → find p t ≡ none → All (λ v. p v ≡ false) t
find-none p [] e = tt
find-none p (w ∷ t) e = elim (Bool-cases (p w)) [
  | inl h ↦ absurd (ground (arith, h, e))
  | inr h ↦ (h, find-none p t (ground (arith, h, e)))
]

IsDeduped-append :
    (item : WorkItem) (t : Table)
    → All (λ v. conflicts item v ≡ false) t
    → IsDeduped t
    → IsDeduped (t ++ (item ∷ []))
IsDeduped-append item [] h d = (tt, tt)
IsDeduped-append item (w ∷ t) h d =
    (all_append t (no_conflict-sym item w h.0) d.0, IsDeduped-append item t h.1 d.1)
  where
    all_append :
        (u : Table)
        → conflicts w item ≡ false
        → All (λ v. conflicts w v ≡ false) u
        → All (λ v. conflicts w v ≡ false) (u ++ (item ∷ []))
    all_append [] e all = (e, tt)
    all_append (x ∷ u) e all = (all.0, all_append u e all.1)

is_open-not_terminal : (s : WorkItemState) → is_open s ≡ not (is_terminal s)
is_open-not_terminal s = ground arith

Later-open : (w v : WorkItem) → Later w v → is_open v.state ≡ true → is_open w.state ≡ true
Later-open w v l e = elim (Bool-cases (is_terminal w.state)) [
  | inl done ↦ subst (λ z. is_open z.state ≡ true) (l.terminal_kept done) e
  | inr live ↦ is_open-not_terminal w.state ∙ ap not live
]

abbrev same_target : WorkSpec → WorkSpec → Bool
same_target s r =
    str_eq s.handler.micro_system_id r.handler.micro_system_id
    && str_eq s.handler.contribution_id r.handler.contribution_id
    && same_key s.dedup_key r.dedup_key

-- A row that is open was open before, and its handler and key are as before.
Later-conflicts :
    (w v w' v' : WorkItem)
    → Later w w'
    → Later v v'
    → conflicts w v ≡ false
    → conflicts w' v' ≡ false
unfolding dedup_matches
Later-conflicts w v w' v' l m e = elim (Bool-cases (conflicts w' v')) [
  | inr h ↦ h
  | inl h ↦
      let a = Later-open w w' l (ground (arith, h)) in
      let b = Later-open v v' m (ground (arith, h)) in
      let same : same_target w'.spec v'.spec ≡ true = ground (arith, h) in
      let before =
        subst (λ r. same_target w.spec r ≡ true) m.same_spec
          (subst (λ s. same_target s v'.spec ≡ true) l.same_spec same) in
      absurd (ground (arith, e, a, b, before))
]

Later-free :
    (w w' : WorkItem) (t u : Table)
    → Later w w'
    → Rowwise Later t u
    → All (λ v. conflicts w v ≡ false) t
    → All (λ v. conflicts w' v ≡ false) u
Later-free w w' [] [] l r h = tt
Later-free w w' [] (v' ∷ u) l r h = absurd r
Later-free w w' (v ∷ t) [] l r h = absurd r
Later-free w w' (v ∷ t) (v' ∷ u) l r h =
    (Later-conflicts w v w' v' l r.0 h.0, Later-free w w' t u l r.1 h.1)

Later-IsDeduped : (t u : Table) → Rowwise Later t u → IsDeduped t → IsDeduped u
Later-IsDeduped [] [] r d = tt
Later-IsDeduped [] (v ∷ u) r d = absurd r
Later-IsDeduped (w ∷ t) [] r d = absurd r
Later-IsDeduped (w ∷ t) (w' ∷ u) r d =
    (Later-free w w' t u r.0 r.1 d.0, Later-IsDeduped t u r.1 d.1)

-- What a statement of the insert leaves in the table is deduplicated.
insert_against-IsDeduped :
    (item : WorkItem) (t : Table) (o : Option WorkItem) {r : Table × Option WorkItem}
    → find (conflicts item) t ≡ o
    → insert_against item t o ≡ ok r
    → IsDeduped t
    → IsDeduped r.0
insert_against-IsDeduped item t (some w) e h d = subst IsDeduped (ap (λ z. z.0) (ok-injective h)) d
insert_against-IsDeduped item t none e h d =
    unkeyed (is_some (find (λ v. str_eq v.work_item_id item.work_item_id) t)) h
  where
    unkeyed :
        {r : Table × Option WorkItem} (b : Bool) → insert_unkeyed item t b ≡ ok r → IsDeduped r.0
    unkeyed true g = absurd (ground (arith, g))
    unkeyed false g =
        subst IsDeduped (ap (λ z. z.0) (ok-injective g))
          (IsDeduped-append item t (find-none (conflicts item) t e) d)

report_insert-table :
    (hook : InsertHook) (t : Table) (s : InsertStatus) (w : WorkItem) {r : InsertResult × Table}
    → report_insert hook t s w ≡ ok r
    → t ≡ r.1
report_insert-table hook t s w h =
    let (v, p, q) = >>=-eq-ok (parse_persisted_work_item w) _ h in
    let (u, p', q') = >>=-eq-ok (hook (record { status = s; item = v })) _ q in
    ap (λ z. z.1) (ok-injective q')

reconcile-table :
    (hook : InsertHook) (item : WorkItem) (t : Table) (k : Option String) {r : InsertResult × Table}
    → reconcile hook item t k ≡ ok r
    → t ≡ r.1
reconcile-table hook item t none h = absurd (ground (arith, h))
reconcile-table hook item t (some key) h = found (select_dedup item t) h
  where
    found :
        {r : InsertResult × Table} (o : Option WorkItem) → report_existing hook t o ≡ ok r → t ≡ r.1
    found none g = absurd (ground (arith, g))
    found (some w) g = report_insert-table hook t existing w g

settle_insert-table :
    (hook : InsertHook) (item : WorkItem) (x : Table × Option WorkItem) {r : InsertResult × Table}
    → settle_insert hook item x ≡ ok r
    → x.0 ≡ r.1
settle_insert-table hook item (t, some w) h = report_insert-table hook t inserted w h
settle_insert-table hook item (t, none) h = reconcile-table hook item t item.dedup_key h

insert_within-IsDeduped :
    (item : WorkItem) (hook : InsertHook) (t : Table) (r : Result (InsertResult × Table))
    → insert_within item hook t ≡ r
    → IsDeduped t
    → IsDeduped (settle t r).0
unfolding insert_within insert_row settle
insert_within-IsDeduped item hook t (err e) h d = d
insert_within-IsDeduped item hook t (ok r) h d =
    let (x, p, q) = >>=-eq-ok (insert_row item t) _ h in
    subst IsDeduped (settle_insert-table hook item x q) (
      insert_against-IsDeduped item t (find (conflicts item) t) refl
        (require-eq-ok (meets_checks item) port_failed _
          (require-eq-ok (is_positive_safe item.dispatch_revision) invalid_work_item _ p).1).1
        d)

-- If no two open rows of a table have the same handler and deduplication key, then an insert, whatever
-- its hook does and whether it inserts, finds an existing row or is refused, and any history of
-- well-typed calls after it leave a table of which that is true.
pub insert-IsDeduped :
    (item : WorkItem) (hook : InsertHook) (ms : History) (t : Table)
    → AllTyped ms
    → IsDeduped t
    → IsDeduped (run_history ms (insert_work_item item hook t).0)
unfolding insert_work_item mutation_context
insert-IsDeduped item hook ms t h d =
    Later-IsDeduped _ _ (run_history-Later ms _ h) (insert_within-IsDeduped item hook t _ refl d)
