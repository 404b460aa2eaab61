-- ===== src/Attempt/Effects.antt =====
-- packages/execution/work-queue/src/attempt-executor.ts: what an attempt does besides the table. This
-- file follows it from a reservation to its settlement.
use heptalogos.Prelude.{
  ◌-◌, ◌≡◌, refl, ◌⊎◌, inl, inr, true, String, ◌∷◌, Option, none, some, arith, ◌∙◌, sym, ap,
  some_inj, if_cases,
}
use heptalogos.WorkQueue.Item.{WorkItem, WorkItemOutcome}
use heptalogos.WorkQueue.Row.{Result, ok, err}
use heptalogos.WorkQueue.Store.{MutationResult, MutationAppliedHook, applied}
use heptalogos.WorkQueue.Updates.{set_running}
use heptalogos.WorkQueue.Mutations.{Mutation, set_list, mutate, run_history}
use heptalogos.WorkQueue.Guards.{where_clause-row}
use heptalogos.WorkQueue.Claims.{applied_item, set_list-spec}
use heptalogos.Attempt.Ports.{
  Thrown, Outcome, returned, threw, claim, Lease, Ports, Site, Invocation, World, perform,
}
use heptalogos.Attempt.Settle.{
  Ran, perform_and_report, Attempt, wait_for_dependency, commit_early, settle_failure,
  settle_outcome, run_handler, release,
}
use heptalogos.Attempt.Executor.{
  claim_of, claim_hook, claimed_row, settle_lost_claim, settle_claimed, settle_claim, claim_and_run,
}

-- The reservations and the invocations are as before.
abbrev pub Quiet : World → Ran → Type 0
Quiet w r = (r.0.held_reservations ≡ w.held_reservations) × (r.0.invocations ≡ w.invocations)

module _ (p : Ports) where
  perform_and_report-Quiet :
      (s : Site) (m : Mutation) (hook : MutationAppliedHook) (w : World)
      → Quiet w (perform_and_report p s m hook w)
  unfolding perform_and_report
  perform_and_report-Quiet s m hook w = (refl, refl)

  pub wait_for_dependency-Quiet :
      (s : Site) (a : Attempt) (w : World) → Quiet w (wait_for_dependency p s a w)
  unfolding wait_for_dependency
  wait_for_dependency-Quiet s a w = (refl, refl)

  pub commit_early-Quiet :
      (s : Site) (a : Attempt) (o : WorkItemOutcome) (ref : String) (w : World)
      → Quiet w (commit_early p s a o ref w)
  unfolding commit_early
  commit_early-Quiet s a o ref w = (refl, refl)

  settle_failure-Quiet :
      (a : Attempt) (row : WorkItem) (e : Thrown) (w : World) → Quiet w (settle_failure p a row e w)
  unfolding settle_failure
  settle_failure-Quiet a row e w = ground arith

  settle_outcome-Quiet :
      (a : Attempt) (row : WorkItem) (o : Outcome String) (w : World)
      → Quiet w (settle_outcome p a row o w)
  unfolding settle_outcome
  settle_outcome-Quiet a row (threw e) w = settle_failure-Quiet a row e w
  settle_outcome-Quiet a row (returned v) w = (refl, refl)

  settle_lost_claim-Quiet : (r : MutationResult) (w : World) → Quiet w (settle_lost_claim p r w)
  unfolding settle_lost_claim
  settle_lost_claim-Quiet r w = ground arith

-- The claim of the attempt was applied to the table as the other actors had left it.
abbrev pub ClaimApplied : Ports → Attempt → World → Type 0
ClaimApplied p a w =
    (r : MutationResult) × ((mutate (claim_of p a) (claim_hook p)
        (run_history (p.others claim) w.table)).1
      ≡ ok r)
    × (r.status ≡ applied)

-- The handler was started once for the attempt, which recovers a running item or has claimed it.
abbrev pub Started : Ports → Attempt → World → World → Ran → Type 0
Started p a v w r =
    (r.0.held_reservations ≡ w.held_reservations)
    × (i : Invocation) × (r.0.invocations ≡ i ∷ w.invocations)
    × (i.work_item_id ≡ a.item.work_item_id)
    × (i.dispatch_revision ≡ a.item.dispatch_revision)
    × (i.attempt ≡ a.attempt)
    × ((a.recovering ≡ true) ⊎ ClaimApplied p a v)

claimed_row_eq :
    (r : MutationResult) (row : WorkItem)
    → claimed_row r ≡ some row
    → (r.status ≡ applied) × (r.item ≡ some row)
claimed_row_eq r row e = ground arith

module _ (p : Ports) (l : Lease) (a : Attempt) (payload : String) where
  run_handler-starts :
      (row : WorkItem) (w : World)
      → row.work_item_id ≡ a.item.work_item_id
      → row.dispatch_revision ≡ a.item.dispatch_revision
      → let r = run_handler p l a row payload w in
        (r.0.held_reservations ≡ w.held_reservations - 1)
        × (i : Invocation) × (r.0.invocations ≡ i ∷ w.invocations)
        × (i.work_item_id ≡ a.item.work_item_id)
        × (i.dispatch_revision ≡ a.item.dispatch_revision)
        × (i.attempt ≡ a.attempt)
  unfolding run_handler
  run_handler-starts row w e f =
      let (held, invoked) = settle_outcome-Quiet p a row _ _ in (held, _, invoked, e, f, refl)

  claim-revision :
      (w : WorkItem) → (set_list (claim_of p a) w).dispatch_revision ≡ w.dispatch_revision
  unfolding set_list set_running
  claim-revision w = refl

  -- Either nothing was started, or the handler was started once under the applied claim.
  abbrev pub Effects : World → World → Ran → Type 0
  Effects v w out =
      ((out.0.held_reservations ≡ w.held_reservations - 1) × (out.0.invocations ≡ w.invocations))
      ⊎ Started p a v (record w { held_reservations = w.held_reservations - 1 }) out

  settle_claimed-Effects :
      (v w : World) (r : MutationResult) (o : Option WorkItem)
      → (mutate (claim_of p a) (claim_hook p) (run_history (p.others claim) v.table)).1 ≡ ok r
      → claimed_row r ≡ o
      → Effects v w (settle_claimed p l a payload r w o)
  unfolding settle_claimed
  settle_claimed-Effects v w r none h e = inl (settle_lost_claim-Quiet p r (release w))
  settle_claimed-Effects v w r (some row) h e =
      let (s, i) = claimed_row_eq r row e in
      let (x, hit, new) = applied_item (claim_of p a) (claim_hook p) _ h s in
      let (same_id, same_rev, _, _) = where_clause-row (claim_of p a) x hit in
      let is_new : row ≡ set_list (claim_of p a) x = some_inj (sym i ∙ new) in
      let (held, inv, invoked, e1, e2, e3) =
        run_handler-starts row w
          (ap (λ z. z.work_item_id) is_new
            ∙ ap (λ z. z.work_item_id) (set_list-spec (claim_of p a) x)
            ∙ same_id)
          (ap (λ z. z.dispatch_revision) is_new ∙ claim-revision x ∙ same_rev) in
      inr (held, inv, invoked, e1, e2, e3, inr (r, h, s))

  settle_claim-Effects :
      (v w : World) (r : Result MutationResult)
      → (mutate (claim_of p a) (claim_hook p) (run_history (p.others claim) v.table)).1 ≡ r
      → Effects v w (settle_claim p l a payload (w, r))
  unfolding settle_claim
  settle_claim-Effects v w (err e) h = inl (refl, refl)
  settle_claim-Effects v w (ok r) h = settle_claimed-Effects v w r (claimed_row r) h refl

  pub claim_and_run-Effects :
      (v w : World) → v.table ≡ w.table → Effects v w (claim_and_run p l a payload w)
  unfolding claim_and_run perform
  claim_and_run-Effects v w e =
      if_cases (Effects v w) a.recovering _ _
        (λ recovers.
          let (held, inv, invoked, e1, e2, e3) = run_handler-starts a.item w refl refl in
          inr (held, inv, invoked, e1, e2, e3, inl recovers))
        (λ fresh.
          settle_claim-Effects v (perform p claim (claim_of p a) (claim_hook p) w).0 _
            (ap (λ t. (mutate (claim_of p a) (claim_hook p) (run_history (p.others claim) t)).1) e))
