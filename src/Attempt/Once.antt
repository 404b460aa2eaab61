-- ===== src/Attempt/Once.antt =====
-- packages/execution/work-queue/src/attempt-executor.ts: a whole execution. No reservation is leaked
-- on any path, and the handler is started at most once.
use heptalogos.Prelude.{
  ℕ, suc, ◌≡◌, refl, ◌⊎◌, inl, inr, String, ◌∷◌, Option, none, some, arith, ◌∙◌, sym, ap, some_inj,
  if◌then◌else◌, find, str_eq, true-str_eq, if_cases, option_cases, true, is_some,
}
use heptalogos.WorkQueue.Updates.{coalesce}
use heptalogos.WorkQueue.Item.{invalid, is_terminal, WorkItem, WorkItemOutcome}
use heptalogos.WorkQueue.Row.{
  is_positive_safe, invalid_work_item, active_attempt_mismatch, handler_generation_missing, Result,
  ok, err, ◌>>=◌, parse_persisted_work_item, parse-eq-ok,
}
use heptalogos.WorkQueue.Store.{Table, select_by_id}
use heptalogos.WorkQueue.Guards.{>>=-eq-ok, ok-injective}
use heptalogos.WorkQueue.Claims.{find-true}
use heptalogos.Attempt.Ports.{
  Outcome, returned, threw, reserve_wait, not_due, wait_dependency, invalid_commit,
  requested_commit, Lease, Ports, Invocation, World,
}
use heptalogos.Attempt.Failure.{cancellation_outcome}
use heptalogos.Attempt.Settle.{Ran, perform_and_report, Attempt, reason_of}
use heptalogos.Attempt.Executor.{
  is_retired, is_later, is_payload_dependency, payload_reason_code, canonical_payload,
  claim_and_run, settle_reservation, reserve_and_run, run_when_due, run_validated, run_activity,
  attempt_of, is_mismatched, is_unrecoverable, leased, seen_by, replayed, outdated, is_outdated,
  run_attempt, execute_item, execute_read, execute,
}
use heptalogos.Attempt.Effects.{
  Quiet, Started, Effects, wait_for_dependency-Quiet, commit_early-Quiet, claim_and_run-Effects,
}

-- What one execution does besides the table.
abbrev pub Ends : Ports → Attempt → World → Ran → Type 0
Ends p a w r = Quiet w r ⊎ Started p a w w r

module _ (p : Ports) (a : Attempt) where
  Effects-Ends :
      (l : Lease) (payload : String) (w : World) (out : Ran)
      → Effects p l a payload w (record w { held_reservations = suc w.held_reservations }) out
      → Ends p a w out
  Effects-Ends l payload w out (inl (held, inv)) = inl (omega (arith, held), inv)
  Effects-Ends l payload w out (inr (held, i, inv, e1, e2, e3, c)) =
      inr (omega (arith, held), i, inv, e1, e2, e3, c)

  settle_reservation-Ends :
      (l : Lease) (payload : String) (w : World) (o : Outcome (Unit {0}))
      → Ends p a w (settle_reservation p l a payload w o)
  unfolding settle_reservation
  settle_reservation-Ends l payload w (returned u) =
      Effects-Ends l payload w
        (claim_and_run p l a payload (record w { held_reservations = suc w.held_reservations }))
        (claim_and_run-Effects p l a payload w
          (record w { held_reservations = suc w.held_reservations }) refl)
  settle_reservation-Ends l payload w (threw e) =
      if_cases (Ends p a w) a.recovering _ _ (λ _. inl (refl, refl))
        (λ _.
          if_cases (Ends p a w) (is_retired e) _ _
            (λ _. inl (wait_for_dependency-Quiet p reserve_wait a w)) (λ _. inl (refl, refl)))

  run_when_due-Ends :
      (l : Lease) (payload : String) (w : World) → Ends p a w (run_when_due p l a payload w)
  unfolding run_when_due reserve_and_run perform_and_report
  run_when_due-Ends l payload w =
      option_cases (Ends p a w) (is_later a.item.not_before (p.now not_due)) _ _
        (λ _. settle_reservation-Ends l payload w l.reserve_invocation) (λ at _. inl (refl, refl))

  run_validated-Ends :
      (l : Lease) (o : Outcome String) (w : World) → Ends p a w (run_validated p l a o w)
  unfolding run_validated
  run_validated-Ends l (returned payload) w = run_when_due-Ends l payload w
  run_validated-Ends l (threw e) w =
      if_cases (Ends p a w) (is_payload_dependency e) _ _
        (λ _.
          if_cases (Ends p a w) a.recovering _ _ (λ _. inl (refl, refl))
            (λ _. inl (wait_for_dependency-Quiet p wait_dependency a w)))
        (λ _. inl (
          commit_early-Quiet p invalid_commit a
            (WorkItemOutcome.failed invalid (payload_reason_code e)) (payload_reason_code e) w))

  run_activity-Ends : (lease : Option Lease) (w : World) → Ends p a w (run_activity p lease a w)
  unfolding run_activity
  run_activity-Ends lease w =
      option_cases (Ends p a w) (cancellation_outcome a.item) _ _
        (λ _.
          option_cases (Ends p a w) lease _ _
            (λ _. inl (wait_for_dependency-Quiet p wait_dependency a w))
            (λ l _.
              run_validated-Ends l
                (canonical_payload
                  (l.validate_payload a.item.handler.payload_version a.item.payload))
                w))
        (λ o _. inl (commit_early-Quiet p requested_commit a o (reason_of o) w))

-- What `execute` does besides the table: nothing, or one start of the handler for the identity and
-- revision it was asked for, under the attempt of that pair.
abbrev pub ExecuteEnds : Ports → String → ℕ → World → Ran → Type 0
ExecuteEnds p id rev w r =
    Quiet w r
    ⊎ ((r.0.held_reservations ≡ w.held_reservations)
        × (i : Invocation) × (r.0.invocations ≡ i ∷ w.invocations)
        × (i.work_item_id ≡ id)
        × (i.dispatch_revision ≡ rev)
        × (i.attempt ≡ p.attempt_id id rev))

module _ (p : Ports) (id : String) (rev : ℕ) where
  Ends-ExecuteEnds :
      (a : Attempt) (w : World) (r : Ran)
      → a.item.work_item_id ≡ id
      → a.item.dispatch_revision ≡ rev
      → a.attempt ≡ p.attempt_id id rev
      → Ends p a w r
      → ExecuteEnds p id rev w r
  Ends-ExecuteEnds a w r e f g (inl quiet) = inl quiet
  Ends-ExecuteEnds a w r e f g (inr (held, i, inv, e1, e2, e3, c)) =
      inr (held, i, inv, e1 ∙ e, e2 ∙ f, e3 ∙ g)

  run_attempt-ExecuteEnds :
      (item : WorkItem) (w : World)
      → item.work_item_id ≡ id
      → item.dispatch_revision ≡ rev
      → ExecuteEnds p id rev w (run_attempt p item w)
  unfolding run_attempt
  run_attempt-ExecuteEnds item w e f =
      let a = attempt_of p item in
      if_cases (ExecuteEnds p id rev w) (is_mismatched a) (w, err active_attempt_mismatch)
        (if is_unrecoverable p a
          then (w, err handler_generation_missing)
          else run_activity p (leased p item) a w)
        (λ _. inl (refl, refl))
        (λ _.
          if_cases (ExecuteEnds p id rev w) (is_unrecoverable p a)
            (w, err handler_generation_missing) (run_activity p (leased p item) a w)
            (λ _. inl (refl, refl))
            (λ _.
              Ends-ExecuteEnds a w (run_activity p (leased p item) a w) e f
                (ap (λ z. p.attempt_id z item.dispatch_revision) e ∙ ap (p.attempt_id id) f)
                (run_activity-Ends p a (leased p item) w)))

  execute_item-ExecuteEnds :
      (item : WorkItem) (w : World)
      → item.work_item_id ≡ id
      → ExecuteEnds p id rev w (execute_item p rev item w)
  unfolding execute_item
  execute_item-ExecuteEnds item w e =
      if_cases (ExecuteEnds p id rev w) (is_terminal item.state) (w, ok (replayed item))
        (if is_outdated rev item then (w, ok (outdated item)) else run_attempt p item w)
        (λ _. inl (refl, refl))
        (λ _.
          if_cases (ExecuteEnds p id rev w) (is_outdated rev item) (w, ok (outdated item))
            (run_attempt p item w) (λ _. inl (refl, refl))
            (λ fresh. run_attempt-ExecuteEnds item w e (ground (arith, fresh))))

found_id :
    (id : String) (t : Table) {w : WorkItem} (o : Option WorkItem)
    → find (λ v. str_eq v.work_item_id id) t ≡ o
    → elim o [ none ↦ ok none | some x ↦ parse_persisted_work_item x >>= λ v. ok (some v) ]
      ≡ ok (some w)
    → w.work_item_id ≡ id
found_id id t none f e = ground arith
found_id id t {w} (some x) f e =
    let (v, p, q) = >>=-eq-ok (parse_persisted_work_item x) _ e in
    let same : w ≡ x = sym (some_inj (ok-injective q)) ∙ (parse-eq-ok x v p).1 in
    ap (λ z. z.work_item_id) same ∙ true-str_eq _ _ (find-true _ t f)

select_by_id-id :
    (id : String) (t : Table) {w : WorkItem} → select_by_id id t ≡ ok (some w) → w.work_item_id ≡ id
unfolding select_by_id
select_by_id-id id t e = found_id id t _ refl e

module _ (p : Ports) (id : String) (rev : ℕ) where
  execute_read-ExecuteEnds :
      (w : World) (r : Result (Option WorkItem))
      → select_by_id id w.table ≡ r
      → ExecuteEnds p id rev w (execute_read p rev r w)
  unfolding execute_read
  execute_read-ExecuteEnds w (err e) h = inl (refl, refl)
  execute_read-ExecuteEnds w (ok none) h = inl (refl, refl)
  execute_read-ExecuteEnds w (ok (some item)) h =
      execute_item-ExecuteEnds p id rev item w (select_by_id-id id w.table h)

  -- However the other actors change the table during it, an execution leaves as many reservations
  -- held as there were, and either starts no handler or starts it once, for the identity and the
  -- revision that it was asked for and under the attempt of that pair.
  pub handler_once : (w : World) → ExecuteEnds p id rev w (execute p id rev w)
  unfolding execute
  handler_once w =
      if_cases (ExecuteEnds p id rev w) (is_positive_safe rev)
        (execute_read p rev (select_by_id id (seen_by p w).table) (seen_by p w))
        (w, err invalid_work_item) (λ _. execute_read-ExecuteEnds (seen_by p w) _ refl)
        (λ _. inl (refl, refl))

-- An item with either request has an outcome of cancellation.
requested_outcome :
    (item : WorkItem)
    → (is_some item.cancel_requested_at ≡ true) ⊎ (is_some item.superseded_by ≡ true)
    → (o : WorkItemOutcome) × (cancellation_outcome item ≡ some o)
unfolding cancellation_outcome
requested_outcome item asked =
    by_columns item.cancel_requested_at item.superseded_by refl refl asked
  where
    by_columns :
        (c : Option ℕ) (s : Option String)
        → item.cancel_requested_at ≡ c
        → item.superseded_by ≡ s
        → (is_some c ≡ true) ⊎ (is_some s ≡ true)
        → (o : WorkItemOutcome) × (cancellation_outcome item ≡ some o)
    by_columns (some at) s e f h = (
      WorkItemOutcome.cancelled (coalesce item.cancellation_reason_code "cancellation-requested"),
      rw (e, cancellation_outcome),
    )
    by_columns none (some by) e f h = (
      WorkItemOutcome.superseded "superseded-by-request" (some by),
      rw (e, f, cancellation_outcome),
    )
    by_columns none none e f (inl h) = absurd (ground (arith, h))
    by_columns none none e f (inr h) = absurd (ground (arith, h))

module _ (p : Ports) (id : String) (rev : ℕ) where
  run_attempt-requested :
      (item : WorkItem) (o : WorkItemOutcome) (w : World)
      → cancellation_outcome item ≡ some o
      → Quiet w (run_attempt p item w)
  unfolding run_attempt run_activity
  run_attempt-requested item o w e = rw e (ground arith)

  execute_item-requested :
      (item : WorkItem) (o : WorkItemOutcome) (w : World)
      → cancellation_outcome item ≡ some o
      → Quiet w (execute_item p rev item w)
  unfolding execute_item
  execute_item-requested item o w e =
      if_cases (Quiet w) (is_terminal item.state) (w, ok (replayed item))
        (if is_outdated rev item then (w, ok (outdated item)) else run_attempt p item w)
        (λ _. (refl, refl))
        (λ _.
          if_cases (Quiet w) (is_outdated rev item) (w, ok (outdated item)) (run_attempt p item w)
            (λ _. (refl, refl)) (λ _. run_attempt-requested item o w e))

  -- An execution that reads an item with a requested cancellation or supersession starts no handler
  -- and reserves none, whatever revision it was asked for and whatever the other actors do.
  pub requested_not_run :
      (w : World) {item : WorkItem}
      → select_by_id id (seen_by p w).table ≡ ok (some item)
      → (is_some item.cancel_requested_at ≡ true) ⊎ (is_some item.superseded_by ≡ true)
      → Quiet w (execute p id rev w)
  unfolding execute execute_read
  requested_not_run w {item} e asked =
      let (o, f) = requested_outcome item asked in
      if_cases (Quiet w) (is_positive_safe rev)
        (execute_read p rev (select_by_id id (seen_by p w).table) (seen_by p w))
        (w, err invalid_work_item) (λ _. rw e (execute_item-requested item o (seen_by p w) f))
        (λ _. (refl, refl))
