-- ===== src/WorkQueue/Constraints.antt =====
-- packages/data/canonical-schema/src/migrations/0001-foundation-baseline.ts: the CHECK constraints of
-- the table work_item, which an INSERT and every row that an UPDATE writes must meet. Those on the
-- shapes of identifiers and on the words of enumerations are met by the types of the columns. A text is
-- one that a text column can hold.
mod Tests
use Prim.Native.String.{len, [], ◌∷◌}
use Prim.Native.Char.{code}
use heptalogos.Prelude.{
  ℕ, ◌≡◌, refl, Bool, true, false, not, ◌&&◌, String, Option, none, some, leb, ◌==◌, arith,
}
use heptalogos.WorkQueue.Item.{ConfigurationBinding, config_pinned, WorkSpec, WorkItem}
use heptalogos.WorkQueue.Row.{
  check_spec, check_attempt, check_terminal, check_kind, check_failed, check_unclassified,
  check_retry_wait, check_intents, IsCoherent, is_positive_safe,
}

-- btrim(s) = '': nothing but spaces.
unfoldable pub is_blank : String → Bool
is_blank [] = true
is_blank (c ∷ s) = code c == 32 && is_blank s

-- octet_length(s) BETWEEN 1 AND 256
abbrev is_sized : String → Bool
is_sized s = leb 1 (len s) && leb (len s) 256

-- work_item_partition_key_check and work_item_dedup_key_check
unfoldable pub is_key : Option String → Bool
is_key none = true
is_key (some s) = is_sized s

-- The two columns of work_item_reason_code_check.
unfoldable pub is_reason : Option String → Bool
unfolding is_blank
is_reason none = true
is_reason (some s) = not (is_blank s) && is_sized s

-- work_item_configuration_binding_check and work_item_config_revision_ref_check
unfoldable pub is_binding : ConfigurationBinding → Bool
unfolding is_blank
is_binding (config_pinned ref) = not (is_blank ref) && is_sized ref
is_binding _ = true

-- The columns that are written once.
unfoldable pub meets_once : WorkSpec → Bool
meets_once s =
    leb 1 s.handler.payload_version
    && leb s.handler.payload_version 2_147_483_647
    && is_key s.partition_key
    && leb 1 s.priority
    && leb s.priority 2_147_483_647
    && is_key s.dedup_key
    && is_binding s.configuration_binding

unfoldable pub meets_checks : WorkItem → Bool
unfolding meets_once
meets_checks w =
    meets_once w.spec
    && leb 1 w.dispatch_revision
    && check_attempt w.state w.active_attempt_id
    && check_retry_wait w.state w.retry_class w.not_before
    && is_reason w.state_reason_code
    && is_reason w.cancellation_reason_code
    && check_intents w.cancel_requested_at w.superseded_by
    && check_terminal w.state w.outcome
    && check_kind w.state w.outcome
    && check_failed w.state w.retry_class w.outcome
    && check_unclassified w.state w.retry_class

-- What the constraints ask beyond the checks of parsePersistedWorkItem.
pub record IsStorable (w : WorkItem) : Type 0 where
  pub partition_key : is_key w.spec.partition_key ≡ true
  pub dedup_key : is_key w.spec.dedup_key ≡ true
  pub binding : is_binding w.spec.configuration_binding ≡ true
  pub state_reason : is_reason w.state_reason_code ≡ true
  pub cancellation_reason : is_reason w.cancellation_reason_code ≡ true

meets_once-true :
    (s : WorkSpec)
    → check_spec s ≡ true
    → is_key s.partition_key ≡ true
    → is_key s.dedup_key ≡ true
    → is_binding s.configuration_binding ≡ true
    → meets_once s ≡ true
unfolding check_spec meets_once
meets_once-true s c p d b = rw (p, d, b) (ground arith)

-- A coherent row whose keys, binding and reason codes are admitted meets the constraints.
pub meets_checks-true : (w : WorkItem) → IsCoherent w → IsStorable w → meets_checks w ≡ true
unfolding meets_checks
meets_checks-true w c s =
    let once = meets_once-true w.spec c.spec_bounds s.partition_key s.dedup_key s.binding in
    let positive : leb 1 w.dispatch_revision ≡ true =
      let safe = c.revision_safe in ground (arith, safe) in
    rw (
      once, positive, c.attempt, c.retry_timed, s.state_reason, s.cancellation_reason, c.one_intent,
      c.terminal, c.kind_state, c.failed_class, c.unclassified,
    )
