-- ===== src/WorkQueue/Coherence.antt =====
-- packages/execution/work-queue/src/repository.ts: the rows stay coherent, and no accepted call on a
-- coherent table is refused by the checks that read a row back.
use heptalogos.Prelude.{
  ℕ, ◌≡◌, Bool, true, inl, inr, [], ◌∷◌, Option, some, arith, Bool-cases, String, All, All-first?,
  first?, select, sym, ◌∙◌,
}
use heptalogos.WorkQueue.Item.{
  WorkItemState, WorkItem, RetryClass, RetryClass-discrete, WorkItemOutcome, WorkItemState-discrete,
}
use heptalogos.WorkQueue.Row.{
  ok, IsCoherent, check_attempt, check_terminal, check_kind, check_failed, check_unclassified,
  check_retry_wait, check_intents, is_positive_safe, parse_persisted_work_item, parse-eq-ok,
}
use heptalogos.WorkQueue.Store.{Table, MutationAppliedHook, update_where}
use heptalogos.WorkQueue.Updates.{
  unrequested, set_running, set_waiting_dependency, set_woken, set_retry_wait, set_due, set_cancel,
  set_supersede, set_terminal,
}
use heptalogos.WorkQueue.Mutations.{
  Mutation, mark_running, mark_waiting_dependency, wake_dependency, mark_retry_wait, wake_due_retry,
  request_cancel, request_supersede, commit_terminal, expected_state, extra_clause, set_list,
  IsTyped, mutate,
}
use heptalogos.WorkQueue.Guards.{where_clause, where_clause-row, mutate_cases}

unfoldable checks_open : Unit {0}
unfolding check_attempt check_terminal check_kind check_failed check_unclassified check_retry_wait
    check_intents
checks_open = tt

-- A call keeps a matched row coherent, if the row's new revision is still a safe integer.
abbrev pub Keeps : Mutation → Type 0
Keeps m =
    (w : WorkItem)
    → IsCoherent w
    → w.state ≡ expected_state m
    → extra_clause m w ≡ true
    → is_positive_safe (set_list m w).dispatch_revision ≡ true
    → IsCoherent (set_list m w)

mark_running-Keeps :
    (id : String) (rev : ℕ) (a : String) (at : ℕ) → Keeps (mark_running id rev a at)
unfolding set_list extra_clause unrequested set_running checks_open
mark_running-Keeps id rev a at w c s x r = ground arith

mark_waiting_dependency-Keeps :
    (id : String) (rev at : ℕ) → Keeps (mark_waiting_dependency id rev at)
unfolding set_list extra_clause unrequested set_waiting_dependency checks_open
mark_waiting_dependency-Keeps id rev at w c s x r = ground arith

wake_dependency-Keeps : (id : String) (rev at : ℕ) → Keeps (wake_dependency id rev at)
unfolding set_list extra_clause unrequested set_woken checks_open
wake_dependency-Keeps id rev at w c s x r = ground arith

wake_due_retry-Keeps : (id : String) (rev now at : ℕ) → Keeps (wake_due_retry id rev now at)
unfolding set_list extra_clause unrequested set_due checks_open
wake_due_retry-Keeps id rev now at w c s x r = ground arith

module _ (id : String) (rev : ℕ) (s : WorkItemState) (a : Option String) where
  mark_retry_wait-Keeps :
      (c : RetryClass) (r : String) (nb at : ℕ)
      → IsTyped (mark_retry_wait id rev s a c r nb at)
      → Keeps (mark_retry_wait id rev s a c r nb at)
  unfolding set_list set_retry_wait checks_open WorkItemState-discrete
  mark_retry_wait-Keeps c r nb at h w k e x p = ground arith

  request_cancel-Keeps :
      (at : ℕ) (r : String)
      → IsTyped (request_cancel id rev s a at r)
      → Keeps (request_cancel id rev s a at r)
  unfolding set_list extra_clause unrequested set_cancel checks_open WorkItemState-discrete
  request_cancel-Keeps at r h w k e x p = ground arith

  request_supersede-Keeps :
      (at : ℕ) (by : String)
      → IsTyped (request_supersede id rev s a at by)
      → Keeps (request_supersede id rev s a at by)
  unfolding set_list extra_clause unrequested set_supersede checks_open WorkItemState-discrete
  request_supersede-Keeps at by h w k e x p = ground arith

  commit_terminal-Keeps :
      (o : WorkItemOutcome) (at : ℕ)
      → IsTyped (commit_terminal id rev s a o at)
      → Keeps (commit_terminal id rev s a o at)
  unfolding set_list set_terminal checks_open WorkItemState-discrete RetryClass-discrete
  commit_terminal-Keeps o at h w k e x p = ground arith

pub set_list-IsCoherent : (m : Mutation) → IsTyped m → Keeps m
set_list-IsCoherent (mark_running id rev a at) h = mark_running-Keeps id rev a at
set_list-IsCoherent (mark_waiting_dependency id rev at) h = mark_waiting_dependency-Keeps id rev at
set_list-IsCoherent (wake_dependency id rev at) h = wake_dependency-Keeps id rev at
set_list-IsCoherent (mark_retry_wait id rev s a c r nb at) h =
    mark_retry_wait-Keeps id rev s a c r nb at h
set_list-IsCoherent (wake_due_retry id rev now at) h = wake_due_retry-Keeps id rev now at
set_list-IsCoherent (request_cancel id rev s a at r) h = request_cancel-Keeps id rev s a at r h
set_list-IsCoherent (request_supersede id rev s a at by) h =
    request_supersede-Keeps id rev s a at by h
set_list-IsCoherent (commit_terminal id rev s a o at) h = commit_terminal-Keeps id rev s a o at h

-- The new revision of a row depends on its old one alone.
set_list-revision :
    (m : Mutation) (w v : WorkItem)
    → w.dispatch_revision ≡ v.dispatch_revision
    → (set_list m w).dispatch_revision ≡ (set_list m v).dispatch_revision
unfolding set_list set_running set_waiting_dependency set_woken set_retry_wait set_due set_cancel
    set_supersede set_terminal
set_list-revision (mark_running id rev a at) w v e = e
set_list-revision (wake_dependency id rev at) w v e = omega arith
set_list-revision (wake_due_retry id rev now at) w v e = omega arith
set_list-revision _ w v e = e

update_where-All :
    (Q : WorkItem → Type 0) (p : WorkItem → Bool) (f : WorkItem → WorkItem)
    → ((w : WorkItem) → Q w → p w ≡ true → Q (f w))
    → (t : Table) → All Q t
    → All Q (update_where p f t)
unfolding update_where
update_where-All Q p f keep [] h = tt
update_where-All Q p f keep (w ∷ t) h = (
  elim (Bool-cases (p w)) [ inl e ↦ rw e (keep w h.0 e) | inr e ↦ rw e h.0 ],
  update_where-All Q p f keep t h.1,
)

-- Every call, whatever its hook does and whether it is applied, stale or refused, leaves a coherent
-- table coherent.
pub mutate-IsCoherent :
    (m : Mutation) (hook : MutationAppliedHook) (t : Table)
    → IsTyped m
    → All IsCoherent t
    → All IsCoherent (mutate m hook t).0
mutate-IsCoherent m hook t h c = elim (mutate_cases m hook t) [
  | inl (e, _) ↦ rw e c
  | inr (acc, r, e, (w, v, f, p, q, s)) ↦
      rw q (update_where-All IsCoherent (where_clause m) (set_list m) (keep w (matched w f) p) t c)
]
  where
    matched : (w : WorkItem) → first? (select (where_clause m) t) ≡ some w → where_clause m w ≡ true
    matched w f = (All-first? IsCoherent (where_clause m) t c f).1

    keep :
        (w : WorkItem) {v : WorkItem}
        → where_clause m w ≡ true
        → parse_persisted_work_item (set_list m w) ≡ ok v
        → (u : WorkItem) → IsCoherent u
        → where_clause m u ≡ true
        → IsCoherent (set_list m u)
    keep w b p u k b' =
        let (i, r, s, x) = where_clause-row m w b in
        let (i', r', s', x') = where_clause-row m u b' in
        let same = set_list-revision m u w (r' ∙ sym r) in
        let safe = ((parse-eq-ok _ _ p).0).revision_safe in
        set_list-IsCoherent m h u k s' x' (rw same safe)
