-- ===== src/WorkQueue/Catalog.antt =====
-- packages/execution/work-queue/src/contracts.ts: the catalog of queue profiles. Its one problem,
-- work.queue.profile_invalid, is none. The checks that a value is an object or an array are the
-- types'; `is_id` is parseMicroSystemId of packages/foundation/foundation-contracts.
pub mod Limits
pub mod Lookup
mod Tests
use heptalogos.Prelude.{
  ℕ, Bool, true, false, ◌&&◌, String, List, [], ◌∷◌, ◌++◌, Option, none, some, leb, str_eq, is_some,
  find, ◌||◌, not, ltb,
}

pub record RateLimit : Type 0 where
  pub limit_per_period : ℕ
  pub period_seconds : ℕ

pub record PartitionLimits : Type 0 where
  pub concurrency : Option ℕ
  pub worker_concurrency : Option ℕ
  pub rate_limit : Option RateLimit

pub record Profile : Type 0 where
  pub profile_id : String
  pub global_concurrency : Option ℕ
  pub worker_concurrency : Option ℕ
  pub rate_limit : Option RateLimit
  pub partition : Option PartitionLimits
  pub min_polling_interval_ms : ℕ

-- `by_id` is the Map, in the order of insertion.
pub record Catalog : Type 0 where
  pub by_id : List Profile
  pub list : List Profile

-- What follows a check runs only if it did not raise the problem.
infixl 5 ◌>>=◌ ◌>>◌
abbrev pub ◌>>=◌ : {T U : Type 0} → Option T → (T → Option U) → Option U
none >>= next = none
some value >>= next = next value

abbrev pub ◌>>◌ : {U : Type 0} → Option (Unit {0}) → Option U → Option U
check >> next = check >>= λ _. next

abbrev pub require : Bool → Option (Unit {0})
require true = some tt
require false = none

abbrev pub positive_safe_integer : ℕ → Option ℕ
positive_safe_integer n = do require (leb 1 n && leb n 9_007_199_254_740_991); some n

abbrev pub optional_positive_safe_integer : Option ℕ → Option (Option ℕ)
optional_positive_safe_integer none = some none
optional_positive_safe_integer (some n) = do value ← positive_safe_integer n; some (some value)

abbrev pub clone_rate_limit : Option RateLimit → Option (Option RateLimit)
clone_rate_limit none = some none
clone_rate_limit (some r) = do
  limit ← positive_safe_integer r.limit_per_period
  period ← positive_safe_integer r.period_seconds
  some (some (record { limit_per_period = limit; period_seconds = period }))

-- Unless both limits are given and the first exceeds the second.
abbrev pub does_not_exceed : Option ℕ → Option ℕ → Bool
does_not_exceed (some a) (some b) = not (ltb b a)
does_not_exceed _ _ = true

-- The partition is copied under the profile's global and worker limits.
abbrev pub clone_partition :
    Option ℕ → Option ℕ → Option PartitionLimits → Option (Option PartitionLimits)
clone_partition global worker none = some none
clone_partition global worker (some q) = do
  concurrency ← optional_positive_safe_integer q.concurrency
  partition_worker ← optional_positive_safe_integer q.worker_concurrency
  rate ← clone_rate_limit q.rate_limit
  require (does_not_exceed concurrency global)
  require (does_not_exceed partition_worker concurrency)
  require (does_not_exceed partition_worker worker)
  require (does_not_exceed partition_worker global)
  some (
      some (record {
        concurrency = concurrency;
        worker_concurrency = partition_worker;
        rate_limit = rate;
      }))

unfoldable pub clone_definition : (String → Bool) → Profile → Option Profile
clone_definition is_id d = do
  require (is_id d.profile_id)
  global ← optional_positive_safe_integer d.global_concurrency
  worker ← optional_positive_safe_integer d.worker_concurrency
  rate ← clone_rate_limit d.rate_limit
  interval ← positive_safe_integer d.min_polling_interval_ms
  require (does_not_exceed worker global)
  partition ← clone_partition global worker d.partition
  some (record {
    profile_id = d.profile_id;
    global_concurrency = global;
    worker_concurrency = worker;
    rate_limit = rate;
    partition = partition;
    min_polling_interval_ms = interval;
  })

abbrev pub cons_clone : Option Profile → Option (List Profile) → Option (List Profile)
cons_clone none rest = none
cons_clone (some d) none = none
cons_clone (some d) (some ds) = some (d ∷ ds)

unfoldable pub clone_all : (String → Bool) → List Profile → Option (List Profile)
unfolding clone_definition
clone_all is_id [] = some []
clone_all is_id (d ∷ ds) = cons_clone (clone_definition is_id d) (clone_all is_id ds)

abbrev pub lookup : String → List Profile → Option Profile
lookup id = find (λ d. str_eq d.profile_id id)

-- The loop that fills the Map and refuses a second profile of an identity.
unfoldable pub register_all : List Profile → List Profile → Option (List Profile)
register_all seen [] = some seen
register_all seen (d ∷ ds) =
    let rest = register_all (seen ++ (d ∷ [])) ds in
    elim (is_some (lookup d.profile_id seen)) [ true ↦ none | false ↦ rest ]

abbrev pub catalog_of : List Profile → Option (List Profile) → Option Catalog
catalog_of normalized none = none
catalog_of normalized (some map) = some (record { by_id = map; list = normalized })

abbrev pub register : Option (List Profile) → Option Catalog
register none = none
register (some normalized) = catalog_of normalized (register_all [] normalized)

unfoldable pub create_work_queue_profile_catalog : (String → Bool) → List Profile → Option Catalog
unfolding clone_all register_all
create_work_queue_profile_catalog is_id definitions = register (clone_all is_id definitions)

unfoldable pub get : String → Catalog → Option Profile
get id c = lookup id c.by_id

abbrev limited : Option PartitionLimits → Bool
limited none = false
limited (some q) = is_some q.concurrency || is_some q.worker_concurrency || is_some q.rate_limit

unfoldable pub is_work_queue_profile_partitioned : Profile → Bool
is_work_queue_profile_partitioned d = limited d.partition
