-- ===== src/WorkQueue/Tests.antt =====
-- Concrete runs of the work queue, and its theorems at inputs that meet their hypotheses.
use heptalogos.Prelude.{
  ◌≡◌, refl, true, false, Bool, ltb, ◌⊎◌, [], ◌∷◌, none, some, arith, All, is_some,
}
use heptalogos.Prelude.{str_eq}
use heptalogos.WorkQueue.Admission.{
  RawInstant, RawAdmission, Texts, apply_work_admission_decision, IsNotBefore,
  admission_keeps_times,
}
use heptalogos.WorkQueue.Item.{
  transient, WorkItemState, pending, running, latest_compatible_at_attempt, restore_safe,
  WorkItemOutcome, WorkSpec, WorkItem, WorkItemState-discrete,
}
use heptalogos.WorkQueue.Row.{
  ok, err, port_failed, IsCoherent, check_spec, check_attempt, check_terminal, check_kind,
  check_failed, check_unclassified, check_retry_wait, check_intents, parse_persisted_work_item,
}
use heptalogos.WorkQueue.Store.{
  no_hook, applied, update_guard, guard_clause, apply_cas, mutation_context, update_where,
  cas_outcome, all_meet_checks,
}
use heptalogos.WorkQueue.Constraints.{
  meets_checks, meets_once, is_key, is_reason, is_binding, is_blank,
}
use heptalogos.WorkQueue.Updates.{
  unrequested, set_running, set_due, set_cancel, set_terminal, set_retry_wait, is_due,
}
use heptalogos.WorkQueue.Mutations.{
  Mutation, mark_running, mark_retry_wait, wake_due_retry, request_cancel, commit_terminal,
  extra_clause, set_list, mutate_within, mutate, run_history,
}
use heptalogos.WorkQueue.Guards.{Accepted, Left}
use heptalogos.WorkQueue.Lifecycle.{Rowwise, RowStep, mutate-RowStep}
use heptalogos.WorkQueue.Coherence.{mutate-IsCoherent}
use heptalogos.WorkQueue.History.{History, row_of, history-terminal, history-cancel_wins}
use heptalogos.WorkQueue.Claims.{claim_once, stale_revision_fenced}
use heptalogos.WorkQueue.Scan.{
  Cursor, reset_fair_scan_lane, select_lane_ceiling, select_lane_page, take, parse_all, last?,
  next_lane, read_through, read_fair_work_item_page, scan_cycle,
}
use heptalogos.WorkQueue.Scan.Cycle.{scan_cycle_complete}

abbrev pub sample_spec : WorkSpec
sample_spec = record {
  work_item_id = "w1";
  handler = record {
    product_generation_id = "g1";
    micro_system_id = "mail";
    contribution_id = "send";
    package_generation_id = "p1";
    payload_version = 1;
  };
  payload = "{}";
  queue_profile_id = "default";
  resource_admission_class = "light";
  partition_key = none;
  priority = 5;
  dedup_key = some "k";
  created_continuity_epoch_id = "e1";
  lineage_context_ref = "{}";
  configuration_binding = latest_compatible_at_attempt;
  restore_replay_class = restore_safe;
  created_at = 100;
}

abbrev pub queued : WorkItem
queued = record {
  spec = sample_spec;
  not_before = none;
  dispatch_revision = 1;
  active_attempt_id = none;
  state = pending;
  retry_class = none;
  state_reason_code = none;
  cancel_requested_at = none;
  cancellation_reason_code = none;
  superseded_by = none;
  outcome = none;
  updated_at = 100;
}

unfoldable pub runs : Unit {0}
unfolding run_history mutate mutate_within mutation_context update_guard guard_clause apply_cas
    update_where cas_outcome extra_clause set_list set_running set_due set_cancel set_terminal
    set_retry_wait is_due unrequested parse_persisted_work_item check_spec check_attempt
    check_terminal check_kind check_failed check_unclassified check_retry_wait check_intents
    WorkItemState-discrete all_meet_checks meets_checks meets_once is_key is_reason is_binding
    is_blank
runs = tt

abbrev pub claim : Mutation
claim = mark_running "w1" 1 "a1" 110

abbrev pub claimed : WorkItem
claimed = record queued { state = running; active_attempt_id = some "a1"; updated_at = 110 }

claim_applies :
    mutate claim no_hook (queued ∷ [])
    ≡ (claimed ∷ [], ok (record { status = applied; item = some claimed }))
unfolding runs
claim_applies = refl

-- A running item whose cancellation is requested ends as CANCELLED, although its handler succeeds.
abbrev cancel_then_commit : History
cancel_then_commit =
    (request_cancel "w1" 1 running (some "a1") 120 "user", no_hook)
    ∷ (commit_terminal "w1" 1 running (some "a1") (WorkItemOutcome.succeeded "1") 130, no_hook)
    ∷ []

cancel_then_commit_ends :
    (run_history cancel_then_commit (claimed ∷ []))
    ≡ record claimed {
      state = WorkItemState.cancelled;
      active_attempt_id = none;
      state_reason_code = some "user";
      cancel_requested_at = some 120;
      cancellation_reason_code = some "user";
      outcome = some (WorkItemOutcome.cancelled "user");
      updated_at = 130;
    }
      ∷ []
unfolding runs
cancel_then_commit_ends = refl

pub queued-IsCoherent : IsCoherent queued
unfolding runs
queued-IsCoherent = ground arith

abbrev pub running_cancelled : WorkItem
running_cancelled = record claimed {
  cancel_requested_at = some 120;
  cancellation_reason_code = some "user";
}

abbrev pub done : WorkItem
done = record queued {
  state = WorkItemState.succeeded;
  outcome = some (WorkItemOutcome.succeeded "1");
}

abbrev retry_then_due : History
retry_then_due =
    (mark_retry_wait "w1" 1 running (some "a1") transient "busy" 200 120, no_hook)
    ∷ (wake_due_retry "w1" 1 250 250, no_hook)
    ∷ []

mutate-RowStep_example :
    Rowwise (λ w v. (v ≡ w) ⊎ RowStep w v) (queued ∷ []) (mutate claim no_hook (queued ∷ [])).0
mutate-RowStep_example = mutate-RowStep claim no_hook (queued ∷ []) tt

mutate-IsCoherent_example : All IsCoherent (mutate claim no_hook (queued ∷ [])).0
mutate-IsCoherent_example = mutate-IsCoherent claim no_hook (queued ∷ []) tt (queued-IsCoherent, tt)

claim-Accepted : Accepted claim
unfolding update_guard
claim-Accepted = record { revision = refl; attempt = refl }

abbrev retry : Mutation
retry = mark_retry_wait "w1" 1 running (some "a1") transient "busy" 200 120

-- The database refuses a blank reason code.
blank_reason_refused :
    mutate (mark_retry_wait "w1" 1 running (some "a1") transient " " 200 120) no_hook (claimed ∷ [])
    ≡ (claimed ∷ [], err port_failed)
unfolding runs
blank_reason_refused = refl

history-terminal_example : row_of "w1" (run_history cancel_then_commit (done ∷ [])) ≡ some done
history-terminal_example =
    history-terminal cancel_then_commit (done ∷ []) "w1" (refl, (refl, tt)) refl refl

history-cancel_wins_example :
    (v : WorkItem) × (row_of "w1" (run_history cancel_then_commit (running_cancelled ∷ []))
      ≡ some v)
    × (is_some v.cancel_requested_at ≡ true)
    × ((v.state ≡ running) ⊎ (v.state ≡ WorkItemState.cancelled))
history-cancel_wins_example =
    history-cancel_wins cancel_then_commit (running_cancelled ∷ []) "w1" (refl, (refl, tt)) refl
      refl

stale_revision_fenced_example :
    let u = run_history cancel_then_commit (record claimed { dispatch_revision = 2 } ∷ []) in
    Left u (
      mutate
        (commit_terminal "w1" 1 running (some "a1") (WorkItemOutcome.succeeded "1") 130)
        no_hook
        u)
stale_revision_fenced_example =
    stale_revision_fenced cancel_then_commit (record claimed { dispatch_revision = 2 } ∷ [])
      (commit_terminal "w1" 1 running (some "a1") (WorkItemOutcome.succeeded "1") 130) no_hook
      (tt, tt) (refl, (refl, tt)) refl (omega arith)

claim_once_example :
    let u = run_history retry_then_due (mutate claim no_hook (queued ∷ [])).0 in
    Left u (mutate (mark_running "w1" 1 "a9" 300) no_hook u)
unfolding runs
claim_once_example =
    claim_once retry_then_due (queued ∷ []) "w1" 1 "a1" "a9" 110 300 no_hook no_hook (tt, tt)
      (refl, (tt, tt)) (unfold runs in refl) refl

abbrev queued_later : WorkItem
queued_later = record queued {
  spec = record sample_spec { created_at = 101; work_item_id = "w2"; dedup_key = none };
}

abbrev earlier : Cursor → Cursor → Bool
earlier a b = ltb a.created_at b.created_at

earlier_asymmetric : (a b : Cursor) → earlier a b ≡ true → earlier b a ≡ false
earlier_asymmetric a b e = ground (arith, e)

queued_later-IsCoherent : IsCoherent queued_later
unfolding runs
queued_later-IsCoherent = ground arith

-- Pages of one item, with a row of another state between.
scan_cycle_complete_example :
    scan_cycle earlier 3 pending (queued ∷ claimed ∷ queued_later ∷ []) 1 reset_fair_scan_lane
    ≡ (reset_fair_scan_lane, ok (queued ∷ queued_later ∷ []))
unfolding WorkItemState-discrete
scan_cycle_complete_example =
    scan_cycle_complete earlier earlier_asymmetric pending (queued ∷ claimed ∷ queued_later ∷ []) 1
      ((refl, tt), (tt, tt)) (queued-IsCoherent, (queued_later-IsCoherent, tt)) refl

pages_run :
    scan_cycle earlier 3 pending (queued ∷ claimed ∷ queued_later ∷ []) 1 reset_fair_scan_lane
    ≡ (reset_fair_scan_lane, ok (queued ∷ queued_later ∷ []))
unfolding runs scan_cycle read_fair_work_item_page read_through select_lane_ceiling select_lane_page
    take parse_all last? next_lane WorkItemState-discrete
pages_run = refl

abbrev plain_texts : Texts
plain_texts = record { is_blank = λ s. str_eq s ""; byte_length = λ s. 1 }

abbrev throttled : RawAdmission
throttled = record {
  decision = "THROTTLE";
  reason_code = some "busy";
  not_before = RawInstant.instant 7;
}

admission_keeps_times_example : IsNotBefore (some 5) (some 7) × IsNotBefore (some 7) (some 7)
unfolding apply_work_admission_decision
admission_keeps_times_example =
    admission_keeps_times plain_texts (some 5) (some throttled) (some 7) refl
