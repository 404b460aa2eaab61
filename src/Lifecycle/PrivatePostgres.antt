-- ===== src/Lifecycle/PrivatePostgres.antt =====
-- packages/bootstrap/private-postgres/src/lifecycle-machine.ts: the lifecycle of the private
-- PostgreSQL cluster, in which READY stands for proven readiness and every doubt is a state.
use heptalogos.Prelude.{
  ◌≡◌, ◌⊎◌, inl, inr, Bool, true, false, List, [], ◌∷◌, none, some, arith, ◌||◌, or-false,
}
use heptalogos.Lifecycle.Chart.{Chart, Interpreter, after, after_cases, run}

pub data LifecycleState : Type 0 where
  stopped starting ready stopping uncertain : LifecycleState

pub data LifecycleDetail : Type 0 where
  stopped start_command_pending started_pending_ready ready : LifecycleDetail
  stopping start_outcome_uncertain running_observed_uncertain process_uncertain : LifecycleDetail

pub data LifecycleEvent : Type 0 where
  start_command_issued restart_command_issued start_command_succeeded : LifecycleEvent
  start_outcome_uncertain ready_proven ready_observed post_start_proof_failed : LifecycleEvent
  status_running_proven status_stopped_proven stop_command_issued : LifecycleEvent
  stop_outcome_uncertain unexpected_process_exit : LifecycleEvent

unfoldable pub lifecycle_machine : Chart LifecycleDetail LifecycleEvent
lifecycle_machine LifecycleDetail.stopped start_command_issued =
    some LifecycleDetail.start_command_pending
lifecycle_machine LifecycleDetail.stopped ready_observed = some LifecycleDetail.ready
lifecycle_machine LifecycleDetail.start_command_pending start_command_succeeded =
    some LifecycleDetail.started_pending_ready
lifecycle_machine LifecycleDetail.start_command_pending LifecycleEvent.start_outcome_uncertain =
    some LifecycleDetail.start_outcome_uncertain
lifecycle_machine LifecycleDetail.started_pending_ready ready_proven = some LifecycleDetail.ready
lifecycle_machine LifecycleDetail.started_pending_ready post_start_proof_failed =
    some LifecycleDetail.process_uncertain
lifecycle_machine LifecycleDetail.ready restart_command_issued =
    some LifecycleDetail.start_command_pending
lifecycle_machine LifecycleDetail.ready stop_command_issued = some LifecycleDetail.stopping
lifecycle_machine LifecycleDetail.ready unexpected_process_exit =
    some LifecycleDetail.process_uncertain
lifecycle_machine LifecycleDetail.stopping status_stopped_proven = some LifecycleDetail.stopped
lifecycle_machine LifecycleDetail.stopping stop_outcome_uncertain =
    some LifecycleDetail.process_uncertain
lifecycle_machine LifecycleDetail.start_outcome_uncertain status_running_proven =
    some LifecycleDetail.running_observed_uncertain
lifecycle_machine LifecycleDetail.running_observed_uncertain stop_command_issued =
    some LifecycleDetail.stopping
lifecycle_machine LifecycleDetail.process_uncertain status_running_proven =
    some LifecycleDetail.running_observed_uncertain
lifecycle_machine LifecycleDetail.process_uncertain status_stopped_proven =
    some LifecycleDetail.stopped
lifecycle_machine _ _ = none

unfoldable pub semantic_state_by_detail : LifecycleDetail → LifecycleState
semantic_state_by_detail LifecycleDetail.stopped = LifecycleState.stopped
semantic_state_by_detail LifecycleDetail.start_command_pending = LifecycleState.starting
semantic_state_by_detail LifecycleDetail.started_pending_ready = LifecycleState.starting
semantic_state_by_detail LifecycleDetail.ready = LifecycleState.ready
semantic_state_by_detail LifecycleDetail.stopping = LifecycleState.stopping
semantic_state_by_detail LifecycleDetail.start_outcome_uncertain = LifecycleState.uncertain
semantic_state_by_detail LifecycleDetail.running_observed_uncertain = LifecycleState.uncertain
semantic_state_by_detail LifecycleDetail.process_uncertain = LifecycleState.uncertain

abbrev is_stopped_proof : LifecycleEvent → Bool
is_stopped_proof status_stopped_proven = true
is_stopped_proof _ = false

abbrev pub has_stopped_proof : List LifecycleEvent → Bool
has_stopped_proof [] = false
has_stopped_proof (e ∷ es) = is_stopped_proof e || has_stopped_proof es

-- The details in which a process may be left that no proof accounts for.
abbrev pub IsDoubtful : LifecycleDetail → Type 0
IsDoubtful d =
    (semantic_state_by_detail d ≡ LifecycleState.uncertain) ⊎ (d ≡ LifecycleDetail.stopping)

doubt_kept :
    (s t : LifecycleDetail) (e : LifecycleEvent)
    → IsDoubtful s
    → lifecycle_machine s e ≡ some t
    → is_stopped_proof e ≡ false
    → IsDoubtful t
unfolding lifecycle_machine semantic_state_by_detail
doubt_kept s t e h k n = grind arith

module _ (x : Interpreter LifecycleDetail LifecycleEvent) where
  abbrev pub tracker_run : LifecycleDetail → List LifecycleEvent → LifecycleDetail
  tracker_run = run x lifecycle_machine

  -- While an outcome is uncertain or a stop is under way, no run of events makes the cluster READY,
  -- STARTING or STOPPED unless STATUS_STOPPED_PROVEN is among them.
  pub doubt_needs_proof :
      (s : LifecycleDetail) (es : List LifecycleEvent)
      → IsDoubtful s
      → has_stopped_proof es ≡ false
      → IsDoubtful (tracker_run s es)
  unfolding run
  doubt_needs_proof s [] h n = h
  doubt_needs_proof s (e ∷ es) h n =
      let (p, q) = or-false (is_stopped_proof e) (has_stopped_proof es) n in
      doubt_needs_proof (after x lifecycle_machine s e) es
        (elim (after_cases x lifecycle_machine s e) [
          | inl (no_edge, same) ↦ rw same h
          | inr (t, edge, moved) ↦ rw moved (doubt_kept s t e h edge p)
        ])
        q
