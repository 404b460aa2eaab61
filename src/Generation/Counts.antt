-- ===== src/Generation/Counts.antt =====
-- packages/runtime/runtime-kernel/src/generation/generation-fence.ts: the number of open reservations
-- and how a change of one reservation changes it.
use heptalogos.Prelude.{
  ℕ, zero, suc, ◌≡◌, refl, true, false, if◌then◌else◌, List, [], ◌∷◌, ◌++◌, some, arith, All,
}
use heptalogos.Generation.Fence.{Reservation, reservation_at, change_at}

unfoldable pub open_count : List Reservation → ℕ
open_count [] = 0
open_count (r ∷ rs) = if r.settled then open_count rs else suc (open_count rs)

-- A released reservation is settled and was not started.
abbrev pub Fits : Reservation → Type 0
Fits r = r.released ≡ true → (r.settled ≡ true) × (r.started ≡ false)

pub open_count-admit :
    (rs : List Reservation) (r : Reservation)
    → r.settled ≡ false
    → open_count (rs ++ (r ∷ [])) ≡ suc (open_count rs)
unfolding open_count
open_count-admit [] r e = ground arith
open_count-admit (x ∷ rs) r e = let ih = open_count-admit rs r e in ground (arith, ih)

pub open_count-kept :
    (i : ℕ) (f : Reservation → Reservation) (rs : List Reservation)
    → ((r : Reservation) → (f r).settled ≡ r.settled)
    → open_count (change_at i f rs) ≡ open_count rs
unfolding open_count change_at
open_count-kept i f [] h = refl
open_count-kept zero f (r ∷ rs) h = let e = h r in ground (arith, e)
open_count-kept (suc i) f (r ∷ rs) h = let ih = open_count-kept i f rs h in ground (arith, ih)

pub open_count-closed :
    (i : ℕ) (f : Reservation → Reservation) (rs : List Reservation) {r : Reservation}
    → ((x : Reservation) → (f x).settled ≡ true)
    → reservation_at i rs ≡ some r
    → r.settled ≡ false
    → suc (open_count (change_at i f rs)) ≡ open_count rs
unfolding open_count change_at reservation_at
open_count-closed i f [] h e unsettled = cc
open_count-closed zero f (x ∷ rs) h e unsettled =
    let closed = h x in ground (arith, closed, e, unsettled)
open_count-closed (suc i) f (x ∷ rs) h e unsettled =
    let ih = open_count-closed i f rs h e unsettled in ground (arith, ih)

pub Fits-change_at :
    (i : ℕ) (f : Reservation → Reservation) (rs : List Reservation)
    → ((r : Reservation) → reservation_at i rs ≡ some r → Fits r → Fits (f r))
    → All Fits rs
    → All Fits (change_at i f rs)
unfolding change_at reservation_at
Fits-change_at i f [] h all = all
Fits-change_at zero f (r ∷ rs) h all = (h r refl all.0, all.1)
Fits-change_at (suc i) f (r ∷ rs) h all = (all.0, Fits-change_at i f rs h all.1)

pub Fits-admit :
    (rs : List Reservation) (r : Reservation) → Fits r → All Fits rs → All Fits (rs ++ (r ∷ []))
Fits-admit [] r h all = (h, tt)
Fits-admit (x ∷ rs) r h all = (all.0, Fits-admit rs r h all.1)
