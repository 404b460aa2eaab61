-- ===== src/Attempt/Ports.antt =====
-- packages/execution/work-queue/src/attempt-executor.ts: what an attempt is given (handler lease,
-- classifier, lineage, clock, digests), and the state that it and the other actors share. What the
-- other actors do to the table before a call of the repository is the history of that call's site.
use heptalogos.Prelude.{ℕ, Bool, String, List, Option}
use heptalogos.WorkQueue.Item.{RetryClass, WorkHandlerTarget, WorkItem}
use heptalogos.WorkQueue.Row.{Result}
use heptalogos.WorkQueue.Store.{Table, MutationResult, MutationAppliedHook}
use heptalogos.WorkQueue.Mutations.{Mutation, mutate, run_history}
use heptalogos.WorkQueue.History.{History}

-- What a callback throws: a ProblemError with its code, or anything else.
pub data Thrown : Type 0 where
  problem : String → Thrown
  exception : Thrown

pub data Outcome {ℓ} (A : Type ℓ) : Type ℓ where
  returned : A → Outcome A
  threw : Thrown → Outcome A

-- The classifier's answer, before it is checked: an unsupported retry class, a reason that is no
-- text or a time that is no Instant is none.
pub data DecisionKind : Type 0 where
  retry terminal unsupported : DecisionKind

pub record RawDecision : Type 0 where
  pub decision_kind : DecisionKind
  pub raw_retry_class : Option RetryClass
  pub raw_reason_code : Option String
  pub raw_not_before : Option ℕ

-- The handler lease: its payload check and its handler answer JSON, which is none where it has no
-- canonical form, and its text where it has.
pub record Lease : Type 0 where
  pub validate_payload : ℕ → String → Outcome (Option String)
  pub reserve_invocation : Outcome (Unit {0})
  pub execute_handler : String → ℕ → ℕ → String → Outcome (Option String)

pub data ActivityOutcome : Type 0 where
  succeeded failed cancelled : ActivityOutcome

-- The places of `execute` that call the repository or read the clock.
pub data Site : Type 0 where
  read_item wait_dependency requested_commit invalid_commit not_due reserve_wait : Site
  claim raced_commit retry_failure commit_failure commit_success : Site

pub record Ports : Type 0 where
  pub attempt_id : String → ℕ → String
  pub resolve : WorkHandlerTarget → Option Lease
  pub classify : WorkItem → String → Option RawDecision
  pub is_blank : String → Bool
  pub retain_current : Result (Unit {0})
  pub complete_current : ActivityOutcome → Option String → Result (Unit {0})
  pub now : Site → ℕ
  pub others : Site → History
  pub max_outcome_bytes : ℕ

-- A call of the handler, and the end of an Activity, as they are recorded.
pub record Invocation : Type 0 where
  pub work_item_id : String
  pub dispatch_revision : ℕ
  pub attempt : String
  pub payload : String

pub record World : Type 0 where
  pub table : Table
  pub invocations : List Invocation
  pub held_reservations : ℕ

-- A call of the repository at a site: the others' calls, then this one.
unfoldable pub perform :
    Ports → Site → Mutation → MutationAppliedHook → World → World × Result MutationResult
perform p site m hook w =
    let (t, r) = mutate m hook (run_history (p.others site) w.table) in (record w { table = t }, r)
