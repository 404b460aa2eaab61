-- ===== src/WorkQueue/Store.antt =====
-- packages/execution/work-queue/src/repository.ts: the work_item table, the guards of its updates,
-- and the compare-and-set that every update goes through. A statement runs against the rows of the
-- table; a transaction that raises a problem leaves the table as it was.
use text.Mathlib.Text.{◌==◌ as str_eq}
use heptalogos.Prelude.{
  ℕ, Bool, true, false, ◌&&◌, not, String, List, [], ◌∷◌, Option, none, some, ◌==◌, is_some, select,
  find, first?,
}
use heptalogos.WorkQueue.Item.{
  WorkItemState, WorkItemState-discrete, running, same_state, is_terminal, WorkItem,
}
use heptalogos.WorkQueue.Row.{
  invalid_work_item, port_failed, Result, ok, err, ◌>>=◌, ◌>>◌, require, is_positive_safe,
  parse_persisted_work_item,
}
use heptalogos.WorkQueue.Constraints.{meets_checks}

abbrev pub Table : Type 0
Table = List WorkItem

pub data MutationStatus : Type 0 where
  applied stale not_found terminal : MutationStatus

pub record MutationResult : Type 0 where
  pub status : MutationStatus
  pub item : Option WorkItem

-- A hook runs in the transaction of an applied change, and may refuse it.
abbrev pub MutationAppliedHook : Type 0
MutationAppliedHook = WorkItem → Result (Unit {0})

abbrev pub no_hook : MutationAppliedHook
no_hook w = ok tt

pub record UpdateGuard : Type 0 where
  pub work_item_id : String
  pub expected_dispatch_revision : ℕ
  pub expected_state : WorkItemState
  pub expected_active_attempt_id : Option String

-- assertGuard: exactly the RUNNING guards carry an attempt.
unfoldable pub assert_guard : WorkItemState → Option String → Result (Unit {0})
assert_guard running a = require (is_some a) invalid_work_item
assert_guard _ a = require (not (is_some a)) invalid_work_item

unfoldable pub update_guard : String → ℕ → WorkItemState → Option String → Result UpdateGuard
unfolding assert_guard
update_guard id rev s a = do
  require (is_positive_safe rev) invalid_work_item
  assert_guard s a
  ok (record {
    work_item_id = id;
    expected_dispatch_revision = rev;
    expected_state = s;
    expected_active_attempt_id = a;
  })

-- `active_attempt_id = $4` is not true of a NULL column; the guard without an attempt omits it.
abbrev pub same_attempt : Option String → Option String → Bool
same_attempt none b = true
same_attempt (some a) none = false
same_attempt (some a) (some b) = str_eq b a

-- The WHERE clause of the guard.
unfoldable pub guard_clause : UpdateGuard → WorkItem → Bool
unfolding WorkItemState-discrete
guard_clause g w =
    str_eq w.work_item_id g.work_item_id
    && w.dispatch_revision == g.expected_dispatch_revision
    && same_state w.state g.expected_state
    && same_attempt g.expected_active_attempt_id w.active_attempt_id

-- UPDATE … SET f WHERE p
unfoldable pub update_where : (WorkItem → Bool) → (WorkItem → WorkItem) → Table → Table
update_where p f [] = []
update_where p f (w ∷ t) = elim (p w) [ true ↦ f w | false ↦ w ] ∷ update_where p f t

unfoldable pub select_by_id : String → Table → Result (Option WorkItem)
select_by_id id t = elim (find (λ w. str_eq w.work_item_id id) t) [
  | none ↦ ok none
  | some w ↦ parse_persisted_work_item w >>= λ v. ok (some v)
]

unfoldable pub cas_outcome : String → Table → Result MutationResult
unfolding select_by_id
cas_outcome id t = do
  found ← select_by_id id t
  ok (elim found [
    | none ↦ record { status = not_found; item = none }
    | some w ↦ record {
      status = elim (is_terminal w.state) [ true ↦ terminal | false ↦ stale ];
      item = some w;
    }
  ])

-- The rows that a statement writes all meet the constraints of the table.
unfoldable pub all_meet_checks : (WorkItem → WorkItem) → Table → Bool
all_meet_checks f [] = true
all_meet_checks f (w ∷ t) = meets_checks (f w) && all_meet_checks f t

-- What applyCas does with the first returned row, if there is one. The database refuses the statement
-- if a row that it writes does not meet a constraint.
unfoldable pub apply_row :
    (WorkItem → Bool)
    → (WorkItem → WorkItem)
    → String
    → MutationAppliedHook
    → Table
    → Option WorkItem
    → Result (MutationResult × Table)
apply_row p f id hook t none = cas_outcome id t >>= λ r. ok (r, t)
apply_row p f id hook t (some w) = do
  require (all_meet_checks f (select p t)) port_failed
  item ← parse_persisted_work_item (f w)
  hook item
  ok (record { status = applied; item = some item }, update_where p f t)

unfoldable pub apply_cas :
    (WorkItem → Bool)
    → (WorkItem → WorkItem)
    → String
    → MutationAppliedHook
    → Table
    → Result (MutationResult × Table)
unfolding apply_row
apply_cas p f id hook t = apply_row p f id hook t (first? (select p t))

-- mutationContext: a problem rolls the transaction back.
unfoldable pub settle : {A : Type 0} → Table → Result (A × Table) → Table × Result A
settle t (ok (a, t')) = (t', ok a)
settle t (err e) = (t, err e)

unfoldable pub mutation_context :
    {A : Type 0} → (Table → Result (A × Table)) → Table → Table × Result A
unfolding settle
mutation_context m t = settle t (m t)
