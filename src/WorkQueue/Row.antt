-- ===== src/WorkQueue/Row.antt =====
-- packages/execution/work-queue/src/repository.ts: the checks that every row read back from
-- work_item passes before it becomes a WorkItem. The columns are already decoded by type; what
-- stands here are the bounds and the coherence checks of parsePersistedWorkItem.
use Prim.Native.String.{len}
use heptalogos.Prelude.{
  ℕ, ◌≡◌, refl, Bool, true, false, not, ◌&&◌, String, Option, none, some, leb, is_some,
}
use heptalogos.WorkQueue.Item.{
  RetryClass, RetryClass-discrete, WorkItemState, WorkItemState-discrete, running, retry_wait,
  same_state, is_terminal, WorkItemOutcome, kind, WorkSpec, WorkItem,
}

-- The problem codes that the repository and the attempt executor raise.
pub data WorkQueueProblem : Type 0 where
  invalid_work_item insert_conflict invalid_options : WorkQueueProblem
  active_attempt_mismatch handler_generation_missing : WorkQueueProblem
  hook_failed port_failed : WorkQueueProblem

pub data Result {ℓ} (A : Type ℓ) : Type ℓ where
  ok : A → Result A
  err : WorkQueueProblem → Result A

-- What follows a call runs only if the call did not throw.
abbrev pub and_then {ℓ κ} : {T : Type ℓ} {U : Type κ} → (T → Result U) → Result T → Result U
and_then next (err problem) = err problem
and_then next (ok value) = next value

infixl 5 ◌>>=◌ ◌>>◌
abbrev pub ◌>>=◌ {ℓ κ} : {T : Type ℓ} {U : Type κ} → Result T → (T → Result U) → Result U
call >>= next = and_then next call

abbrev pub ◌>>◌ {ℓ} : {U : Type ℓ} → Result (Unit {0}) → Result U → Result U
check >> next = and_then (λ _. next) check

-- `if (!test) throw problem`
abbrev pub require : Bool → WorkQueueProblem → Result (Unit {0})
require true e = ok tt
require false e = err e

abbrev pub postgres_integer_max : ℕ
postgres_integer_max = 2_147_483_647

-- Number.MAX_SAFE_INTEGER
abbrev pub max_safe_integer : ℕ
max_safe_integer = 9_007_199_254_740_991

abbrev pub is_positive_safe : ℕ → Bool
is_positive_safe n = leb 1 n && leb n max_safe_integer

abbrev fits_256 : Option String → Bool
fits_256 none = true
fits_256 (some s) = leb (len s) 256

-- The bounds of the columns that are written once.
unfoldable pub check_spec : WorkSpec → Bool
check_spec s =
    leb 1 s.handler.payload_version
    && leb s.handler.payload_version postgres_integer_max
    && leb 1 s.priority
    && leb s.priority 2_147_483_647
    && fits_256 s.partition_key
    && fits_256 s.dedup_key

-- `(activeAttemptId !== undefined) !== (state === "RUNNING")` is refused.
unfoldable pub check_attempt : WorkItemState → Option String → Bool
check_attempt running a = is_some a
check_attempt _ a = not (is_some a)

-- `TERMINAL_STATES.has(state) !== (outcome !== undefined)` is refused.
unfoldable pub check_terminal : WorkItemState → Option WorkItemOutcome → Bool
check_terminal s none = not (is_terminal s)
check_terminal s (some o) = is_terminal s

-- `outcome !== undefined && outcome.kind !== state` is refused.
unfoldable pub check_kind : WorkItemState → Option WorkItemOutcome → Bool
unfolding WorkItemState-discrete
check_kind s none = true
check_kind s (some o) = same_state (kind o) s

abbrev same_class : Option RetryClass → RetryClass → Bool
same_class none d = false
same_class (some c) d = elim (RetryClass-discrete c d) [ yes _ ↦ true | no _ ↦ false ]

-- A FAILED row has a FAILED outcome with the row's own retry class.
unfoldable pub check_failed : WorkItemState → Option RetryClass → Option WorkItemOutcome → Bool
unfolding RetryClass-discrete
check_failed WorkItemState.failed c none = false
check_failed WorkItemState.failed c (some (WorkItemOutcome.failed d r)) = same_class c d
check_failed WorkItemState.failed c (some _) = false
check_failed _ c o = true

-- SUCCEEDED, CANCELLED and SUPERSEDED rows carry no retry class.
unfoldable pub check_unclassified : WorkItemState → Option RetryClass → Bool
check_unclassified WorkItemState.succeeded c = not (is_some c)
check_unclassified WorkItemState.cancelled c = not (is_some c)
check_unclassified WorkItemState.superseded c = not (is_some c)
check_unclassified _ c = true

-- RETRY_WAIT requires a retry class and a time.
unfoldable pub check_retry_wait : WorkItemState → Option RetryClass → Option ℕ → Bool
check_retry_wait retry_wait c t = is_some c && is_some t
check_retry_wait _ c t = true

-- Cancel and supersession intents are mutually exclusive.
unfoldable pub check_intents : Option ℕ → Option String → Bool
check_intents (some t) (some s) = false
check_intents _ _ = true

unfoldable pub parse_persisted_work_item : WorkItem → Result WorkItem
parse_persisted_work_item w = do
  require (check_spec w.spec) invalid_work_item
  require (check_attempt w.state w.active_attempt_id) invalid_work_item
  require (check_terminal w.state w.outcome) invalid_work_item
  require (check_kind w.state w.outcome) invalid_work_item
  require (check_failed w.state w.retry_class w.outcome) invalid_work_item
  require (check_unclassified w.state w.retry_class) invalid_work_item
  require (check_retry_wait w.state w.retry_class w.not_before) invalid_work_item
  require (check_intents w.cancel_requested_at w.superseded_by) invalid_work_item
  require (is_positive_safe w.dispatch_revision) invalid_work_item
  ok w

-- What those checks say of a row.
pub record IsCoherent (w : WorkItem) : Type 0 where
  pub spec_bounds : check_spec w.spec ≡ true
  pub attempt : check_attempt w.state w.active_attempt_id ≡ true
  pub terminal : check_terminal w.state w.outcome ≡ true
  pub kind_state : check_kind w.state w.outcome ≡ true
  pub failed_class : check_failed w.state w.retry_class w.outcome ≡ true
  pub unclassified : check_unclassified w.state w.retry_class ≡ true
  pub retry_timed : check_retry_wait w.state w.retry_class w.not_before ≡ true
  pub one_intent : check_intents w.cancel_requested_at w.superseded_by ≡ true
  pub revision_safe : is_positive_safe w.dispatch_revision ≡ true

pub parse-IsCoherent : (w : WorkItem) → IsCoherent w → parse_persisted_work_item w ≡ ok w
unfolding parse_persisted_work_item
parse-IsCoherent w c = rw (
  c.spec_bounds, c.attempt, c.terminal, c.kind_state, c.failed_class, c.unclassified, c.retry_timed,
  c.one_intent, c.revision_safe,
)

pub require-eq-ok {ℓ} :
    {A : Type ℓ} (b : Bool) (e : WorkQueueProblem) (m : Result A) {a : A}
    → (require b e >> m) ≡ ok a
    → (b ≡ true) × (m ≡ ok a)
require-eq-ok true e m h = (refl, h)
require-eq-ok false e m h = cc

-- A row that the checks pass is coherent, and is returned as it is.
pub parse-eq-ok : (w v : WorkItem) → parse_persisted_work_item w ≡ ok v → IsCoherent w × (v ≡ w)
unfolding parse_persisted_work_item
parse-eq-ok w v h =
    let a = require-eq-ok _ _ _ h in
    let b = require-eq-ok _ _ _ a.1 in
    let c = require-eq-ok _ _ _ b.1 in
    let d = require-eq-ok _ _ _ c.1 in
    let e = require-eq-ok _ _ _ d.1 in
    let f = require-eq-ok _ _ _ e.1 in
    let g = require-eq-ok _ _ _ f.1 in
    let i = require-eq-ok _ _ _ g.1 in
    let j = require-eq-ok _ _ _ i.1 in
    let last = j.1 in
    (
      record {
        spec_bounds = a.0;
        attempt = b.0;
        terminal = c.0;
        kind_state = d.0;
        failed_class = e.0;
        unclassified = f.0;
        retry_timed = g.0;
        one_intent = i.0;
        revision_safe = j.0;
      },
      cc,
    )
