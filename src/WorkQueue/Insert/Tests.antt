-- ===== src/WorkQueue/Insert/Tests.antt =====
-- Concrete inserts, and the theorems on inserts at inputs that meet their hypotheses.
use heptalogos.Prelude.{◌≡◌, refl, [], ◌∷◌, some}
use heptalogos.WorkQueue.Item.{WorkItem}
use heptalogos.WorkQueue.Row.{ok, err, port_failed}
use heptalogos.WorkQueue.Store.{no_hook, mutation_context, settle}
use heptalogos.WorkQueue.Mutations.{run_history}
use heptalogos.WorkQueue.Insert.{
  dedup_matches, existing, InsertHook, insert_row, select_dedup, insert_within, insert_work_item,
}
use heptalogos.WorkQueue.Insert.Unique.{IsDeduped, insert-IsDeduped}
use heptalogos.WorkQueue.Tests.{sample_spec, queued, claim, runs}

-- The same handler and key under another identity.
abbrev queued_again : WorkItem
queued_again = record queued { spec = record sample_spec { work_item_id = "w3" } }

abbrev no_insert_hook : InsertHook
no_insert_hook r = ok tt

-- An empty key is refused by the table.
empty_key_refused :
    insert_work_item
      (record queued { spec = record sample_spec { dedup_key = some "" } })
      no_insert_hook
      []
    ≡ ([], err port_failed)
unfolding runs insert_work_item insert_within insert_row mutation_context settle
empty_key_refused = refl

insert_finds_existing :
    insert_work_item queued_again no_insert_hook (queued ∷ [])
    ≡ (queued ∷ [], ok (record { status = existing; item = queued }))
unfolding runs insert_work_item insert_within insert_row select_dedup dedup_matches mutation_context
    settle
insert_finds_existing = refl

insert-IsDeduped_example : IsDeduped (
    run_history
      ((claim, no_hook) ∷ [])
      (insert_work_item queued_again no_insert_hook (queued ∷ [])).0)
insert-IsDeduped_example =
    insert-IsDeduped queued_again no_insert_hook ((claim, no_hook) ∷ []) (queued ∷ []) (tt, tt)
      (tt, tt)
