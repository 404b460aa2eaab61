-- ===== src/WorkQueue/Mutations.antt =====
-- packages/execution/work-queue/src/repository.ts: the eight guarded updates of the repository, and
-- histories of them. `Mutation` lists the calls with their inputs; a history is a list of calls.
use heptalogos.Prelude.{ℕ, ◌≡◌, Bool, true, false, ◌&&◌, String, List, [], ◌∷◌, Option, none}
use heptalogos.WorkQueue.Item.{
  RetryClass, WorkItemState, pending, running, waiting_dependency, retry_wait, is_terminal,
  WorkItemOutcome, WorkItem,
}
use heptalogos.WorkQueue.Row.{Result, ◌>>=◌}
use heptalogos.WorkQueue.Store.{
  Table, MutationResult, MutationAppliedHook, update_guard, guard_clause, apply_cas,
  mutation_context,
}
use heptalogos.WorkQueue.Updates.{
  unrequested, set_running, set_waiting_dependency, set_woken, set_retry_wait, set_due, is_due,
  set_cancel, set_supersede, set_terminal,
}

pub data Mutation : Type 0 where
  mark_running : String → ℕ → String → ℕ → Mutation
  mark_waiting_dependency : String → ℕ → ℕ → Mutation
  wake_dependency : String → ℕ → ℕ → Mutation
  mark_retry_wait :
      String → ℕ → WorkItemState → Option String → RetryClass → String → ℕ → ℕ → Mutation
  wake_due_retry : String → ℕ → ℕ → ℕ → Mutation
  request_cancel : String → ℕ → WorkItemState → Option String → ℕ → String → Mutation
  request_supersede : String → ℕ → WorkItemState → Option String → ℕ → String → Mutation
  commit_terminal : String → ℕ → WorkItemState → Option String → WorkItemOutcome → ℕ → Mutation

-- The parts of a call's statement: its guard, the further conjuncts of its WHERE, and its SET list.
abbrev pub target_id : Mutation → String
target_id (mark_running id rev a at) = id
target_id (mark_waiting_dependency id rev at) = id
target_id (wake_dependency id rev at) = id
target_id (mark_retry_wait id rev s a c r nb at) = id
target_id (wake_due_retry id rev now at) = id
target_id (request_cancel id rev s a at r) = id
target_id (request_supersede id rev s a at by) = id
target_id (commit_terminal id rev s a o at) = id

abbrev pub expected_revision : Mutation → ℕ
expected_revision (mark_running id rev a at) = rev
expected_revision (mark_waiting_dependency id rev at) = rev
expected_revision (wake_dependency id rev at) = rev
expected_revision (mark_retry_wait id rev s a c r nb at) = rev
expected_revision (wake_due_retry id rev now at) = rev
expected_revision (request_cancel id rev s a at r) = rev
expected_revision (request_supersede id rev s a at by) = rev
expected_revision (commit_terminal id rev s a o at) = rev

abbrev pub expected_state : Mutation → WorkItemState
expected_state (mark_running id rev a at) = pending
expected_state (mark_waiting_dependency id rev at) = pending
expected_state (wake_dependency id rev at) = waiting_dependency
expected_state (mark_retry_wait id rev s a c r nb at) = s
expected_state (wake_due_retry id rev now at) = retry_wait
expected_state (request_cancel id rev s a at r) = s
expected_state (request_supersede id rev s a at by) = s
expected_state (commit_terminal id rev s a o at) = s

abbrev pub expected_attempt : Mutation → Option String
expected_attempt (mark_retry_wait id rev s a c r nb at) = a
expected_attempt (request_cancel id rev s a at r) = a
expected_attempt (request_supersede id rev s a at by) = a
expected_attempt (commit_terminal id rev s a o at) = a
expected_attempt _ = none

unfoldable pub extra_clause : Mutation → WorkItem → Bool
extra_clause (mark_retry_wait id rev s a c r nb at) w = true
extra_clause (wake_due_retry id rev now at) w = unrequested w && is_due now w
extra_clause (commit_terminal id rev s a o at) w = true
extra_clause _ w = unrequested w

unfoldable pub set_list : Mutation → WorkItem → WorkItem
set_list (mark_running id rev a at) = set_running a at
set_list (mark_waiting_dependency id rev at) = set_waiting_dependency at
set_list (wake_dependency id rev at) = set_woken at
set_list (mark_retry_wait id rev s a c r nb at) = set_retry_wait c r nb at
set_list (wake_due_retry id rev now at) = set_due at
set_list (request_cancel id rev s a at r) = set_cancel at r
set_list (request_supersede id rev s a at by) = set_supersede at by
set_list (commit_terminal id rev s a o at) = set_terminal o at

-- The expected states that the inputs' types admit.
abbrev is_attemptable : WorkItemState → Bool
is_attemptable pending = true
is_attemptable running = true
is_attemptable _ = false

abbrev is_committable : WorkItemState → Bool
is_committable pending = true
is_committable running = true
is_committable retry_wait = true
is_committable waiting_dependency = true
is_committable _ = false

abbrev pub IsTyped : Mutation → Type 0
IsTyped (mark_retry_wait id rev s a c r nb at) = is_attemptable s ≡ true
IsTyped (request_cancel id rev s a at r) = is_terminal s ≡ false
IsTyped (request_supersede id rev s a at by) = is_terminal s ≡ false
IsTyped (commit_terminal id rev s a o at) = is_committable s ≡ true
IsTyped _ = Unit {0}

-- One call inside its transaction.
unfoldable pub mutate_within :
    Mutation → MutationAppliedHook → Table → Result (MutationResult × Table)
mutate_within m hook t = do
  g ← update_guard (target_id m) (expected_revision m) (expected_state m) (expected_attempt m)
  apply_cas (λ w. guard_clause g w && extra_clause m w) (set_list m) (target_id m) hook t

unfoldable pub mutate : Mutation → MutationAppliedHook → Table → Table × Result MutationResult
mutate m hook t = mutation_context (mutate_within m hook) t

-- What a history of calls leaves in the table.
unfoldable pub run_history : List (Mutation × MutationAppliedHook) → Table → Table
run_history [] t = t
run_history ((m, hook) ∷ ms) t = run_history ms (mutate m hook t).0
