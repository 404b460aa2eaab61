-- ===== src/WorkQueue/Catalog/Tests.antt =====
-- A concrete catalog, and its theorem at it.
use heptalogos.Prelude.{◌≡◌, refl, true, Bool, String, [], ◌∷◌, none, some, All}
use heptalogos.WorkQueue.Catalog.{
  Profile, Catalog, clone_definition, clone_all, register_all, create_work_queue_profile_catalog,
  get,
}
use heptalogos.WorkQueue.Catalog.Limits.{IsLimited}
use heptalogos.WorkQueue.Catalog.Lookup.{catalog_holds}

abbrev mail : Profile
mail = record {
  profile_id = "mail";
  global_concurrency = some 8;
  worker_concurrency = some 4;
  rate_limit = none;
  partition =
      some (record { concurrency = some 4; worker_concurrency = some 2; rate_limit = none });
  min_polling_interval_ms = 100;
}

abbrev chat : Profile
chat = record mail { profile_id = "chat"; partition = none }

abbrev any_id : String → Bool
any_id s = true

abbrev two : Catalog
two = record { by_id = mail ∷ chat ∷ []; list = mail ∷ chat ∷ [] }

two_created : create_work_queue_profile_catalog any_id (mail ∷ chat ∷ []) ≡ some two
unfolding create_work_queue_profile_catalog clone_all clone_definition register_all
two_created = refl

catalog_holds_example :
    (two.list ≡ mail ∷ chat ∷ [])
    × All (λ d. (any_id d.profile_id ≡ true) × IsLimited d) (mail ∷ chat ∷ [])
    × All (λ d. get d.profile_id two ≡ some d) (mail ∷ chat ∷ [])
catalog_holds_example = catalog_holds any_id (mail ∷ chat ∷ []) two_created

-- A partition's worker limit above the profile's own is refused.
abbrev greedy : Profile
greedy = record mail {
  partition =
      some (record { concurrency = some 6; worker_concurrency = some 5; rate_limit = none });
}

greedy_refused : create_work_queue_profile_catalog any_id (mail ∷ greedy ∷ []) ≡ none
unfolding create_work_queue_profile_catalog clone_all clone_definition
greedy_refused = refl
