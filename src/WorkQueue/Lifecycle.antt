-- ===== src/WorkQueue/Lifecycle.antt =====
-- packages/execution/work-queue/src/repository.ts: the abstract lifecycle of a WorkItem, which the
-- updates refine. The diagram is written from the state's meaning, not from the statements.
use heptalogos.Prelude.{
  ℕ, suc, ◌≡◌, refl, Bool, true, false, ◌⊎◌, inl, inr, [], ◌∷◌, Option, arith, is_some, Bool-cases,
  String,
}
use heptalogos.WorkQueue.Item.{
  WorkItemState, pending, running, waiting_dependency, retry_wait, is_terminal, WorkItem,
  RetryClass, WorkItemOutcome,
}
use heptalogos.WorkQueue.Store.{Table, MutationAppliedHook, update_where}
use heptalogos.WorkQueue.Updates.{
  unrequested, set_running, set_waiting_dependency, set_woken, set_retry_wait, set_due, set_cancel,
  set_supersede, set_terminal,
}
use heptalogos.WorkQueue.Mutations.{
  Mutation, mark_running, mark_waiting_dependency, wake_dependency, mark_retry_wait, wake_due_retry,
  request_cancel, request_supersede, commit_terminal, expected_state, extra_clause, set_list,
  IsTyped, mutate,
}
use heptalogos.WorkQueue.Guards.{where_clause, where_clause-row, mutate_cases}

-- The edges of the lifecycle.
infix 40 ◌⟶◌
pub data ◌⟶◌ : WorkItemState → WorkItemState → Type 0 where
  claim : pending ⟶ running
  park : pending ⟶ waiting_dependency
  wake : waiting_dependency ⟶ pending
  due : retry_wait ⟶ pending
  delay : pending ⟶ retry_wait
  back_off : running ⟶ retry_wait
  record_intent : {s : WorkItemState} → is_terminal s ≡ false → s ⟶ s
  finish : {s t : WorkItemState} → is_terminal s ≡ false → is_terminal t ≡ true → s ⟶ t

-- What one update may do to the row that it matches.
pub record RowStep (w v : WorkItem) : Type 0 where
  -- The row was not terminal, and its state moved along an edge.
  pub edge : w.state ⟶ v.state
  -- The fields written once stay.
  pub same_spec : v.spec ≡ w.spec
  -- Only a return to PENDING takes a new revision, and it always does.
  pub revision :
      ((v.dispatch_revision ≡ w.dispatch_revision) × ((v.state ≡ pending) → (w.state ≡ pending)))
      ⊎ ((v.dispatch_revision ≡ suc w.dispatch_revision) × (v.state ≡ pending))
  -- An intent stays, and the row then only stays where it is or ends as the intent says.
  pub cancel_kept : is_some w.cancel_requested_at ≡ true → is_some v.cancel_requested_at ≡ true
  pub cancel_wins :
      is_some w.cancel_requested_at ≡ true
      → (v.state ≡ w.state) ⊎ (v.state ≡ WorkItemState.cancelled)
  pub supersede_kept : is_some w.superseded_by ≡ true → v.superseded_by ≡ w.superseded_by
  pub supersede_wins :
      is_some w.superseded_by ≡ true
      → is_some w.cancel_requested_at ≡ false
      → (v.state ≡ w.state) ⊎ (v.state ≡ WorkItemState.superseded)

ruleset edges = (claim, park, wake, due, delay, back_off, record_intent, finish)

abbrev Sets : Mutation → Type 0
Sets m =
    (w : WorkItem) → w.state ≡ expected_state m → extra_clause m w ≡ true → RowStep w (set_list m w)

mark_running_step : (id : String) (rev : ℕ) (a : String) (at : ℕ) → Sets (mark_running id rev a at)
unfolding set_list extra_clause unrequested set_running
mark_running_step id rev a at w s x = grind (arith, edges)

mark_waiting_dependency_step : (id : String) (rev at : ℕ) → Sets (mark_waiting_dependency id rev at)
unfolding set_list extra_clause unrequested set_waiting_dependency
mark_waiting_dependency_step id rev at w s x = grind (arith, edges)

wake_dependency_step : (id : String) (rev at : ℕ) → Sets (wake_dependency id rev at)
unfolding set_list extra_clause unrequested set_woken
wake_dependency_step id rev at w s x = grind (arith, edges)

wake_due_retry_step : (id : String) (rev now at : ℕ) → Sets (wake_due_retry id rev now at)
unfolding set_list extra_clause unrequested set_due
wake_due_retry_step id rev now at w s x = grind (arith, edges)

module _ (id : String) (rev : ℕ) (s : WorkItemState) (a : Option String) where
  mark_retry_wait_step :
      (c : RetryClass) (r : String) (nb at : ℕ)
      → IsTyped (mark_retry_wait id rev s a c r nb at)
      → Sets (mark_retry_wait id rev s a c r nb at)
  unfolding set_list set_retry_wait
  mark_retry_wait_step c r nb at h w e x = grind (arith, edges)

  request_cancel_step :
      (at : ℕ) (r : String)
      → IsTyped (request_cancel id rev s a at r)
      → Sets (request_cancel id rev s a at r)
  unfolding set_list extra_clause unrequested set_cancel
  request_cancel_step at r h w e x = grind (arith, edges)

  request_supersede_step :
      (at : ℕ) (by : String)
      → IsTyped (request_supersede id rev s a at by)
      → Sets (request_supersede id rev s a at by)
  unfolding set_list extra_clause unrequested set_supersede
  request_supersede_step at by h w e x = grind (arith, edges)

  commit_terminal_step :
      (o : WorkItemOutcome) (at : ℕ)
      → IsTyped (commit_terminal id rev s a o at)
      → Sets (commit_terminal id rev s a o at)
  unfolding set_list set_terminal
  commit_terminal_step o at h w e x = grind (arith, edges)

-- Every SET list refines the lifecycle on the rows that its statement matches.
pub set_list-RowStep : (m : Mutation) → IsTyped m → Sets m
set_list-RowStep (mark_running id rev a at) h = mark_running_step id rev a at
set_list-RowStep (mark_waiting_dependency id rev at) h = mark_waiting_dependency_step id rev at
set_list-RowStep (wake_dependency id rev at) h = wake_dependency_step id rev at
set_list-RowStep (mark_retry_wait id rev s a c r nb at) h =
    mark_retry_wait_step id rev s a c r nb at h
set_list-RowStep (wake_due_retry id rev now at) h = wake_due_retry_step id rev now at
set_list-RowStep (request_cancel id rev s a at r) h = request_cancel_step id rev s a at r h
set_list-RowStep (request_supersede id rev s a at by) h = request_supersede_step id rev s a at by h
set_list-RowStep (commit_terminal id rev s a o at) h = commit_terminal_step id rev s a o at h

-- Two tables with the same rows in the same order, each related to the other's.
abbrev pub Rowwise : (WorkItem → WorkItem → Type 0) → Table → Table → Type 0
Rowwise R [] [] = Unit {0}
Rowwise R [] (v ∷ u) = ⊥
Rowwise R (w ∷ t) [] = ⊥
Rowwise R (w ∷ t) (v ∷ u) = R w v × Rowwise R t u

pub Rowwise-refl :
    (R : WorkItem → WorkItem → Type 0) → ((w : WorkItem) → R w w) → (t : Table) → Rowwise R t t
Rowwise-refl R same [] = tt
Rowwise-refl R same (w ∷ t) = (same w, Rowwise-refl R same t)

update_where-Rowwise :
    (R : WorkItem → WorkItem → Type 0) (p : WorkItem → Bool) (f : WorkItem → WorkItem)
    → ((w : WorkItem) → R w w)
    → ((w : WorkItem) → p w ≡ true → R w (f w))
    → (t : Table) → Rowwise R t (update_where p f t)
unfolding update_where
update_where-Rowwise R p f same step [] = tt
update_where-Rowwise R p f same step (w ∷ t) = (
  elim (Bool-cases (p w)) [ inl e ↦ rw e (step w e) | inr e ↦ rw e (same w) ],
  update_where-Rowwise R p f same step t,
)

-- A relation that holds of a row and itself, and of a row and what any call makes of it, holds row
-- by row of a table and what any call makes of the table.
pub mutate-Rowwise :
    (R : WorkItem → WorkItem → Type 0) (m : Mutation) (hook : MutationAppliedHook) (t : Table)
    → ((w : WorkItem) → R w w)
    → ((w : WorkItem) → where_clause m w ≡ true → R w (set_list m w))
    → Rowwise R t (mutate m hook t).0
mutate-Rowwise R m hook t same step = elim (mutate_cases m hook t) [
  | inl (e, _) ↦ rw e (Rowwise-refl R same t)
  | inr (acc, r, e, (w, v, f, p, q, s)) ↦ rw q (update_where-Rowwise R _ _ same step t)
]

-- The repository's updates refine the lifecycle: a call leaves each row as it was, or takes it one
-- step, in the order of the table.
pub mutate-RowStep :
    (m : Mutation) (hook : MutationAppliedHook) (t : Table)
    → IsTyped m
    → Rowwise (λ w v. (v ≡ w) ⊎ RowStep w v) t (mutate m hook t).0
mutate-RowStep m hook t h =
    mutate-Rowwise (λ w v. (v ≡ w) ⊎ RowStep w v) m hook t (λ w. inl refl)
      λ w p. let (i, r, s, x) = where_clause-row m w p in inr (set_list-RowStep m h w s x)
