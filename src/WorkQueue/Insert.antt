-- ===== src/WorkQueue/Insert.antt =====
-- packages/execution/work-queue/src/repository.ts: insertWorkItem with its deduplication. The partial
-- unique index work_item_dedup_unique and the primary key are what the INSERT runs against.
pub mod Unique
pub mod Answers
mod Tests
use heptalogos.Prelude.{
  Bool, true, false, ◌&&◌, String, List, [], ◌∷◌, ◌++◌, Option, none, some, str_eq, is_some, find,
}
use heptalogos.WorkQueue.Item.{
  WorkItemState, pending, running, waiting_dependency, retry_wait, waiting_restore_reconciliation,
  WorkItem,
}
use heptalogos.WorkQueue.Row.{
  insert_conflict, invalid_work_item, is_positive_safe, port_failed, Result, ok, err, ◌>>=◌, ◌>>◌,
  require, parse_persisted_work_item,
}
use heptalogos.WorkQueue.Constraints.{meets_checks}
use heptalogos.WorkQueue.Store.{Table, mutation_context}

-- state IN ('PENDING', 'RUNNING', 'WAITING_DEPENDENCY', 'RETRY_WAIT', 'WAITING_RESTORE_RECONCILIATION')
abbrev pub is_open : WorkItemState → Bool
is_open pending = true
is_open running = true
is_open waiting_dependency = true
is_open retry_wait = true
is_open waiting_restore_reconciliation = true
is_open _ = false

-- A NULL key equals none.
abbrev pub same_key : Option String → Option String → Bool
same_key none b = false
same_key (some a) none = false
same_key (some a) (some b) = str_eq a b

-- The WHERE clause that looks up an open row of the item's handler and key.
unfoldable pub dedup_matches : WorkItem → WorkItem → Bool
dedup_matches item w =
    str_eq item.handler.micro_system_id w.handler.micro_system_id
    && str_eq item.handler.contribution_id w.handler.contribution_id
    && same_key item.dedup_key w.dedup_key
    && is_open w.state

-- Two rows that the partial unique index does not let stand together.
abbrev pub conflicts : WorkItem → WorkItem → Bool
conflicts item w = is_open item.state && dedup_matches item w

pub data InsertStatus : Type 0 where
  inserted existing : InsertStatus

pub record InsertResult : Type 0 where
  pub status : InsertStatus
  pub item : WorkItem

abbrev pub InsertHook : Type 0
InsertHook = InsertResult → Result (Unit {0})

abbrev pub insert_unkeyed : WorkItem → Table → Bool → Result (Table × Option WorkItem)
insert_unkeyed item t true = err port_failed
insert_unkeyed item t false = ok (t ++ (item ∷ []), some item)

abbrev pub insert_against : WorkItem → Table → Option WorkItem → Result (Table × Option WorkItem)
insert_against item t (some w) = ok (t, none)
insert_against item t none =
    insert_unkeyed item t (is_some (find (λ v. str_eq v.work_item_id item.work_item_id) t))

-- serializeItem, and INSERT … ON CONFLICT … DO NOTHING RETURNING: a row that does not meet the
-- constraints of the table is refused before the conflict is looked for, and a taken primary key is a
-- thrown error.
unfoldable pub insert_row : WorkItem → Table → Result (Table × Option WorkItem)
unfolding dedup_matches
insert_row item t = do
  require (is_positive_safe item.dispatch_revision) invalid_work_item
  require (meets_checks item) port_failed
  insert_against item t (find (conflicts item) t)

-- `findNonTerminalDedup`, and the same query after a conflict. The rows that it may find are at most
-- one, so that its order does not matter.
unfoldable pub select_dedup : WorkItem → Table → Option WorkItem
unfolding dedup_matches
select_dedup item t = find (dedup_matches item) t

abbrev pub report_insert :
    InsertHook → Table → InsertStatus → WorkItem → Result (InsertResult × Table)
report_insert hook t status w = parse_persisted_work_item w >>= λ v.
    hook (record { status = status; item = v }) >>= λ u.
    ok (record { status = status; item = v }, t)

abbrev pub report_existing : InsertHook → Table → Option WorkItem → Result (InsertResult × Table)
report_existing hook t none = err insert_conflict
report_existing hook t (some w) = report_insert hook t existing w

-- An item without a key has no row to look up.
abbrev pub reconcile : InsertHook → WorkItem → Table → Option String → Result (InsertResult × Table)
reconcile hook item t none = err insert_conflict
reconcile hook item t (some key) = report_existing hook t (select_dedup item t)

abbrev pub settle_insert :
    InsertHook → WorkItem → Table × Option WorkItem → Result (InsertResult × Table)
settle_insert hook item (t, some w) = report_insert hook t inserted w
settle_insert hook item (t, none) = reconcile hook item t item.dedup_key

unfoldable pub insert_within : WorkItem → InsertHook → Table → Result (InsertResult × Table)
unfolding insert_row select_dedup parse_persisted_work_item
insert_within item hook t = insert_row item t >>= λ r. settle_insert hook item r

unfoldable pub insert_work_item : WorkItem → InsertHook → Table → Table × Result InsertResult
unfolding insert_within mutation_context
insert_work_item item hook t = mutation_context (insert_within item hook) t
