-- ===== src/WorkQueue/Catalog/Limits.antt =====
-- packages/execution/work-queue/src/contracts.ts: the limits that an accepted profile keeps, and that
-- its copy has the fields of the definition.
use heptalogos.Prelude.{
  ℕ, ◌≤◌, ◌≡◌, refl, ap, Bool, true, String, Option, none, some, arith, some_inj, leb, ◌&&◌, ◌∙◌,
  false, subst, sym,
}
use heptalogos.WorkQueue.Catalog.{
  RateLimit, PartitionLimits, Profile, ◌>>=◌, ◌>>◌, require, positive_safe_integer,
  optional_positive_safe_integer, clone_rate_limit, does_not_exceed, clone_partition,
  clone_definition,
}

-- From 1 up to Number.MAX_SAFE_INTEGER.
abbrev pub IsPositiveSafe : ℕ → Type 0
IsPositiveSafe n = (1 ≤ n) × (n ≤ 9_007_199_254_740_991)

abbrev pub IsPositiveIfGiven : Option ℕ → Type 0
IsPositiveIfGiven none = Unit
IsPositiveIfGiven (some n) = IsPositiveSafe n

abbrev pub IsRate : Option RateLimit → Type 0
IsRate none = Unit
IsRate (some r) = IsPositiveSafe r.limit_per_period × IsPositiveSafe r.period_seconds

-- Of two limits that are both given, the first is at most the second.
abbrev pub IsWithin : Option ℕ → Option ℕ → Type 0
IsWithin (some a) (some b) = a ≤ b
IsWithin _ _ = Unit

abbrev pub IsPartition : Option ℕ → Option ℕ → Option PartitionLimits → Type 0
IsPartition global worker none = Unit
IsPartition global worker (some q) =
    IsPositiveIfGiven q.concurrency
    × IsPositiveIfGiven q.worker_concurrency
    × IsRate q.rate_limit
    × IsWithin q.concurrency global
    × IsWithin q.worker_concurrency q.concurrency
    × IsWithin q.worker_concurrency worker
    × IsWithin q.worker_concurrency global

abbrev pub IsLimited : Profile → Type 0
IsLimited d =
    IsPositiveIfGiven d.global_concurrency
    × IsPositiveIfGiven d.worker_concurrency
    × IsRate d.rate_limit
    × IsPositiveSafe d.min_polling_interval_ms
    × IsWithin d.worker_concurrency d.global_concurrency
    × IsPartition d.global_concurrency d.worker_concurrency d.partition

>>=-eq-some :
    {T U : Type 0} (m : Option T) (f : T → Option U) {b : U}
    → (m >>= f) ≡ some b
    → (a : T) × (m ≡ some a) × (f a ≡ some b)
>>=-eq-some none f h = absurd (ground (arith, h))
>>=-eq-some (some a) f h = (a, refl, h)

require-eq-some :
    {U : Type 0} (b : Bool) (m : Option U) {u : U}
    → (require b >> m) ≡ some u
    → (b ≡ true) × (m ≡ some u)
require-eq-some true m h = (refl, h)
require-eq-some false m h = absurd (ground (arith, h))

positive_safe_integer-IsPositiveSafe :
    (n : ℕ) {v : ℕ} → positive_safe_integer n ≡ some v → IsPositiveSafe n × (n ≡ v)
positive_safe_integer-IsPositiveSafe n h =
    let (e, f) = require-eq-some (leb 1 n && leb n 9_007_199_254_740_991) (some n) h in
    ((ground (arith, e), ground (arith, e)), some_inj f)

optional_positive_safe_integer-some :
    (o : Option ℕ) {v : Option ℕ}
    → optional_positive_safe_integer o ≡ some v
    → IsPositiveIfGiven o × (o ≡ v)
optional_positive_safe_integer-some none h = (tt, some_inj h)
optional_positive_safe_integer-some (some n) h =
    let (v, e, f) = >>=-eq-some (positive_safe_integer n) (λ v. some (some v)) h in
    let (p, same) = positive_safe_integer-IsPositiveSafe n e in
    (p, ap (λ z. some z) same ∙ some_inj f)

clone_rate_limit-IsRate :
    (o : Option RateLimit) {v : Option RateLimit} → clone_rate_limit o ≡ some v → IsRate o × (o ≡ v)
clone_rate_limit-IsRate none h = (tt, some_inj h)
clone_rate_limit-IsRate (some r) h =
    let (a, e, f) = >>=-eq-some (positive_safe_integer r.limit_per_period) _ h in
    let (b, g, k) = >>=-eq-some (positive_safe_integer r.period_seconds) _ f in
    let (p, same_a) = positive_safe_integer-IsPositiveSafe r.limit_per_period e in
    let (q, same_b) = positive_safe_integer-IsPositiveSafe r.period_seconds g in
    (
      (p, q),
      ap (λ z. some (record { limit_per_period = z; period_seconds = r.period_seconds })) same_a
          ∙ ap (λ z. some (record { limit_per_period = a; period_seconds = z })) same_b
          ∙ some_inj k,
    )

does_not_exceed-IsWithin : (a b : Option ℕ) → does_not_exceed a b ≡ true → IsWithin a b
does_not_exceed-IsWithin (some a) (some b) h = ground (arith, h)
does_not_exceed-IsWithin (some a) none h = tt
does_not_exceed-IsWithin none (some b) h = tt
does_not_exceed-IsWithin none none h = tt

clone_partition-IsPartition :
    (global worker : Option ℕ) (o : Option PartitionLimits) {v : Option PartitionLimits}
    → clone_partition global worker o ≡ some v
    → IsPartition global worker o × (o ≡ v)
clone_partition-IsPartition global worker none h = (tt, some_inj h)
clone_partition-IsPartition global worker (some q) h =
    let (c, e, f) = >>=-eq-some (optional_positive_safe_integer q.concurrency) _ h in
    let (w, g, k) = >>=-eq-some (optional_positive_safe_integer q.worker_concurrency) _ f in
    let (r, l, m) = >>=-eq-some (clone_rate_limit q.rate_limit) _ k in
    let (in_global, m1) = require-eq-some (does_not_exceed c global) _ m in
    let (in_partition, m2) = require-eq-some (does_not_exceed w c) _ m1 in
    let (in_worker, m3) = require-eq-some (does_not_exceed w worker) _ m2 in
    let (worker_in_global, last) = require-eq-some (does_not_exceed w global) _ m3 in
    let (p, same_c) = optional_positive_safe_integer-some q.concurrency e in
    let (p', same_w) = optional_positive_safe_integer-some q.worker_concurrency g in
    let (p'', same_r) = clone_rate_limit-IsRate q.rate_limit l in
    (
      (
        p,
        p',
        p'',
        subst (λ z. IsWithin z global) (sym same_c) (does_not_exceed-IsWithin c global in_global),
        subst (λ z. IsWithin z q.concurrency) (sym same_w)
            (subst (λ z. IsWithin w z) (sym same_c) (does_not_exceed-IsWithin w c in_partition)),
        subst (λ z. IsWithin z worker) (sym same_w) (does_not_exceed-IsWithin w worker in_worker),
        subst (λ z. IsWithin z global) (sym same_w)
            (does_not_exceed-IsWithin w global worker_in_global),
      ),
      ap
            (λ z. some (record {
              concurrency = z;
              worker_concurrency = q.worker_concurrency;
              rate_limit = q.rate_limit;
            }))
            same_c
          ∙ ap
              (λ z.
                some
                  (record { concurrency = c; worker_concurrency = z; rate_limit = q.rate_limit }))
              same_w
          ∙ ap (λ z. some (record { concurrency = c; worker_concurrency = w; rate_limit = z }))
              same_r
          ∙ some_inj last,
    )

-- The copy of an accepted definition has all its fields, and those are within their limits.
pub clone_definition-IsLimited :
    (is_id : String → Bool) (d : Profile) {e : Profile}
    → clone_definition is_id d ≡ some e
    → (is_id d.profile_id ≡ true) × IsLimited d × (d ≡ e)
unfolding clone_definition
clone_definition-IsLimited is_id d h =
    let (known, h1) = require-eq-some (is_id d.profile_id) _ h in
    let (g, e, f) = >>=-eq-some (optional_positive_safe_integer d.global_concurrency) _ h1 in
    let (w, e', f') = >>=-eq-some (optional_positive_safe_integer d.worker_concurrency) _ f in
    let (r, l, m) = >>=-eq-some (clone_rate_limit d.rate_limit) _ f' in
    let (i, l', m') = >>=-eq-some (positive_safe_integer d.min_polling_interval_ms) _ m in
    let (inside, n) = require-eq-some (does_not_exceed w g) _ m' in
    let (q, o, last) = >>=-eq-some (clone_partition g w d.partition) _ n in
    let (p1, same_g) = optional_positive_safe_integer-some d.global_concurrency e in
    let (p2, same_w) = optional_positive_safe_integer-some d.worker_concurrency e' in
    let (p3, same_r) = clone_rate_limit-IsRate d.rate_limit l in
    let (p4, same_i) = positive_safe_integer-IsPositiveSafe d.min_polling_interval_ms l' in
    let (p5, same_q) = clone_partition-IsPartition g w d.partition o in
    (
      known,
      (
        p1,
        p2,
        p3,
        p4,
        subst (λ z. IsWithin z d.global_concurrency) (sym same_w)
            (subst (λ z. IsWithin w z) (sym same_g) (does_not_exceed-IsWithin w g inside)),
        subst (λ z. IsPartition z d.worker_concurrency d.partition) (sym same_g)
            (subst (λ z. IsPartition g z d.partition) (sym same_w) p5),
      ),
      ap (λ z. record d { global_concurrency = z }) same_g
          ∙ ap (λ z. record d { global_concurrency = g; worker_concurrency = z }) same_w
          ∙ ap (λ z. record d { global_concurrency = g; worker_concurrency = w; rate_limit = z })
              same_r
          ∙ ap
              (λ z. record d {
                global_concurrency = g;
                worker_concurrency = w;
                rate_limit = r;
                min_polling_interval_ms = z;
              })
              same_i
          ∙ ap
              (λ z. record d {
                global_concurrency = g;
                worker_concurrency = w;
                rate_limit = r;
                min_polling_interval_ms = i;
                partition = z;
              })
              same_q
          ∙ some_inj last,
    )
