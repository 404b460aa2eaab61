-- ===== src/WorkQueue/Storable.antt =====
-- packages/execution/work-queue/src/repository.ts and the constraints of work_item: the updates keep the
-- keys, the configuration binding and the reason codes that the table admits, if the call's own reason
-- code is admitted.
use heptalogos.Prelude.{ℕ, ◌≡◌, refl, ap, ◌∙◌, Bool, true, false, String, Option, none, some, arith}
use heptalogos.WorkQueue.Item.{outcome_reason, WorkItem}
use heptalogos.WorkQueue.Constraints.{is_key, is_reason, is_binding, is_blank, IsStorable}
use heptalogos.WorkQueue.Updates.{
  by_intent, by_parked, is_parked, coalesce, cancellation_code, set_running, set_waiting_dependency,
  set_woken, set_retry_wait, set_due, set_cancel, set_supersede, set_terminal,
}
use heptalogos.WorkQueue.Mutations.{
  Mutation, mark_running, mark_waiting_dependency, wake_dependency, mark_retry_wait, wake_due_retry,
  request_cancel, request_supersede, commit_terminal, set_list,
}

-- The reason code that a call is given, if it writes one.
abbrev pub given_reason : Mutation → Option String
given_reason (mark_retry_wait id rev s a c reason nb at) = some reason
given_reason (request_cancel id rev s a at reason) = some reason
given_reason (commit_terminal id rev s a o at) = outcome_reason o
given_reason _ = none

by_intent-is_reason :
    (w : WorkItem) (a b c : Option String)
    → is_reason a ≡ true
    → is_reason b ≡ true
    → is_reason c ≡ true
    → is_reason (by_intent w a b c) ≡ true
by_intent-is_reason w a b c h k l = by_columns w.cancel_requested_at w.superseded_by
  where
    by_columns :
        (x : Option ℕ) (y : Option String)
        → is_reason (elim x [ some _ ↦ a | none ↦ elim y [ some _ ↦ b | none ↦ c ] ]) ≡ true
    by_columns (some x) y = h
    by_columns none (some y) = k
    by_columns none none = l

by_parked-is_reason :
    (w : WorkItem) (a b : Option String)
    → is_reason a ≡ true
    → is_reason b ≡ true
    → is_reason (by_parked w a b) ≡ true
by_parked-is_reason w a b h k = parked (is_parked w.state)
  where
    parked : (x : Bool) → is_reason (elim x [ true ↦ a | false ↦ b ]) ≡ true
    parked true = h
    parked false = k

cancellation_code-is_reason :
    (w : WorkItem)
    → is_reason w.cancellation_reason_code ≡ true
    → is_reason (some (cancellation_code w)) ≡ true
unfolding is_reason is_blank
cancellation_code-is_reason w h = recorded w.cancellation_reason_code h
  where
    recorded :
        (o : Option String)
        → is_reason o ≡ true
        → is_reason (some (coalesce o "cancellation-requested")) ≡ true
    recorded none k = refl
    recorded (some r) k = k

-- The codes that the statements write themselves.
abbrev LiteralCodes : Type 0
LiteralCodes =
    (is_reason none ≡ true)
    × (is_reason (some "handler-unavailable") ≡ true)
    × (is_reason (some "superseded-by-request") ≡ true)

literal_reasons : LiteralCodes
unfolding is_reason is_blank
literal_reasons = (refl, refl, refl)

set_list-state_reason :
    (m : Mutation) (w : WorkItem)
    → is_reason (given_reason m) ≡ true
    → IsStorable w
    → is_reason (set_list m w).state_reason_code ≡ true
unfolding set_list set_running set_waiting_dependency set_woken set_retry_wait set_due set_cancel
    set_supersede set_terminal
set_list-state_reason (mark_running id rev a at) w g s = literal_reasons.0
set_list-state_reason (mark_waiting_dependency id rev at) w g s = literal_reasons.1
set_list-state_reason (wake_dependency id rev at) w g s = literal_reasons.0
set_list-state_reason (mark_retry_wait id rev e a c reason nb at) w g s =
    by_intent-is_reason w (some (cancellation_code w)) (some "superseded-by-request") (some reason)
      (cancellation_code-is_reason w s.cancellation_reason) literal_reasons.2 g
set_list-state_reason (wake_due_retry id rev now at) w g s = literal_reasons.0
set_list-state_reason (request_cancel id rev e a at reason) w g s =
    by_parked-is_reason w (some reason) w.state_reason_code g s.state_reason
set_list-state_reason (request_supersede id rev e a at by) w g s =
    by_parked-is_reason w (some "superseded-by-request") w.state_reason_code literal_reasons.2
      s.state_reason
set_list-state_reason (commit_terminal id rev e a o at) w g s =
    by_intent-is_reason w (some (cancellation_code w)) (some "superseded-by-request")
      (outcome_reason o) (cancellation_code-is_reason w s.cancellation_reason) literal_reasons.2 g

set_list-cancellation_reason :
    (m : Mutation) (w : WorkItem)
    → is_reason (given_reason m) ≡ true
    → IsStorable w
    → is_reason (set_list m w).cancellation_reason_code ≡ true
unfolding set_list set_running set_waiting_dependency set_woken set_retry_wait set_due set_cancel
    set_supersede set_terminal
set_list-cancellation_reason (request_cancel id rev e a at reason) w g s = g
set_list-cancellation_reason _ w g s = s.cancellation_reason

set_list-spec : (m : Mutation) (w : WorkItem) → (set_list m w).spec ≡ w.spec
unfolding set_list set_running set_waiting_dependency set_woken set_retry_wait set_due set_cancel
    set_supersede set_terminal
set_list-spec m w = ground arith

pub set_list-IsStorable :
    (m : Mutation) (w : WorkItem)
    → is_reason (given_reason m) ≡ true
    → IsStorable w
    → IsStorable (set_list m w)
set_list-IsStorable m w g s =
    let e = set_list-spec m w in
    record {
      partition_key = ap (λ z. is_key z.partition_key) e ∙ s.partition_key;
      dedup_key = ap (λ z. is_key z.dedup_key) e ∙ s.dedup_key;
      binding = ap (λ z. is_binding z.configuration_binding) e ∙ s.binding;
      state_reason = set_list-state_reason m w g s;
      cancellation_reason = set_list-cancellation_reason m w g s;
    }
