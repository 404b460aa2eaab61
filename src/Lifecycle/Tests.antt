-- ===== src/Lifecycle/Tests.antt =====
-- The trackers' theorems at concrete runs, with an interpreter that meets the laws.
use heptalogos.Prelude.{◌≡◌, ◌≢◌, refl, [], ◌∷◌, none, some, arith, is_some, inl}
use heptalogos.Lifecycle.Chart.{Chart, Interpreter, send, invalid_transition}
use heptalogos.Lifecycle.HostLease
use heptalogos.Lifecycle.HostLease.{
  HostLeaseDetail, HostLeaseLifecycleState, HostLeaseLifecycleEvent, host_lease_machine,
  close_requested, close_failed, lease_acquired, state_of, run-ne-active, closed_final,
}
use heptalogos.Lifecycle.PrivatePostgres
use heptalogos.Lifecycle.PrivatePostgres.{
  LifecycleDetail, LifecycleEvent, status_running_proven, stop_command_issued, start_command_issued,
  semantic_state_by_detail, IsDoubtful, doubt_needs_proof,
}

abbrev follow : {S E : Type 0} → Chart S E → S → E → S
follow c s e = elim (c s e) [ none ↦ s | some t ↦ t ]

follow_lem : {S E : Type 0} (c : Chart S E) (s t : S) (e : E) → c s e ≡ some t → follow c s e ≡ t
follow_lem c s t e h = ground arith

abbrev reference : {S E : Type 0} → Interpreter S E
reference = record {
  can = λ c s e. is_some (c s e);
  transition = follow;
  can_lem = λ c s e. refl;
  transition_lem = follow_lem;
}

run-ne-active_example :
    state_of (
      HostLease.tracker_run reference HostLeaseDetail.fenced
        (close_requested ∷ close_failed ∷ lease_acquired ∷ []))
    ≢ HostLeaseLifecycleState.active
run-ne-active_example =
    run-ne-active reference HostLeaseDetail.fenced
      (close_requested ∷ close_failed ∷ lease_acquired ∷ []) ((λ e. cc), (λ e. cc))

closed_final_example :
    let s = HostLease.tracker_run reference HostLeaseDetail.closed (lease_acquired ∷ []) in
    (state_of s ≡ HostLeaseLifecycleState.closed)
    × (send reference host_lease_machine s close_requested ≡ invalid_transition)
closed_final_example = closed_final reference (lease_acquired ∷ []) close_requested

doubt_needs_proof_example : IsDoubtful (
    PrivatePostgres.tracker_run reference LifecycleDetail.start_outcome_uncertain
      (status_running_proven ∷ stop_command_issued ∷ start_command_issued ∷ []))
doubt_needs_proof_example =
    doubt_needs_proof reference LifecycleDetail.start_outcome_uncertain
      (status_running_proven ∷ stop_command_issued ∷ start_command_issued ∷ [])
      (inl (unfold semantic_state_by_detail in refl)) refl
