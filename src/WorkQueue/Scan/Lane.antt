-- ===== src/WorkQueue/Scan/Lane.antt =====
-- packages/execution/work-queue/src/fair-scan.ts: where a lane stands after a page.
use heptalogos.Prelude.{
  ℕ, ◌≡◌, refl, ◌∙◌, ap, Bool, true, false, ◌||◌, List, [], ◌∷◌, ◌++◌, none, some, arith, All, ltb,
  length, str_eq-true,
}
use heptalogos.WorkQueue.Item.{WorkItem}
use heptalogos.WorkQueue.Scan.{
  Cursor, FairScanLane, reset_fair_scan_lane, item_cursor, same_cursor, last?, lane_after,
  next_lane, is_past, is_within,
}
use heptalogos.WorkQueue.Scan.Pages.{All-append, IsSorted}

pub append_assoc : (xs ys zs : List WorkItem) → (xs ++ ys) ++ zs ≡ xs ++ (ys ++ zs)
append_assoc [] ys zs = refl
append_assoc (x ∷ xs) ys zs = ap (λ ws. x ∷ ws) (append_assoc xs ys zs)

pub append_nil : (xs : List WorkItem) → xs ++ [] ≡ xs
append_nil [] = refl
append_nil (x ∷ xs) = ap (λ ws. x ∷ ws) (append_nil xs)

pub All-past :
    (before : Cursor → Cursor → Bool) (xs : List WorkItem)
    → All (λ x. is_past before none x ≡ true) xs
All-past before [] = tt
All-past before (x ∷ xs) = (refl, All-past before xs)

pub next_lane-none :
    (limit : ℕ) (c : Cursor) (lane : FairScanLane) (page : List WorkItem)
    → last? page ≡ none
    → next_lane limit c lane page ≡ reset_fair_scan_lane
unfolding next_lane
next_lane-none limit c lane page e = ap (lane_after limit c lane page) e

pub next_lane-reset :
    (limit : ℕ) (c : Cursor) (lane : FairScanLane) (page : List WorkItem) {v : WorkItem}
    → last? page ≡ some v
    → ltb (length page) limit || same_cursor (item_cursor v) c ≡ true
    → next_lane limit c lane page ≡ reset_fair_scan_lane
unfolding next_lane
next_lane-reset limit c lane page e h = ap (lane_after limit c lane page) e ∙ ground (arith, h)

pub next_lane-advance :
    (limit : ℕ) (c : Cursor) (lane : FairScanLane) (page : List WorkItem) {v : WorkItem}
    → last? page ≡ some v
    → ltb (length page) limit || same_cursor (item_cursor v) c ≡ false
    → next_lane limit c lane page ≡ record lane { after = some (item_cursor v) }
unfolding next_lane
next_lane-advance limit c lane page e h = ap (lane_after limit c lane page) e ∙ ground (arith, h)

pub last_within :
    (before : Cursor → Cursor → Bool) (p : List WorkItem) (v : WorkItem)
    → IsSorted before (p ++ (v ∷ []))
    → All (λ x. is_within before (item_cursor v) x ≡ true) (p ++ (v ∷ []))
last_within before [] v s =
    let same = str_eq-true v.work_item_id v.work_item_id refl in (ground (arith, same), tt)
last_within before (x ∷ p) v s =
    let (_, (earlier, _)) =
      All-append (λ y. before (item_cursor x) (item_cursor y) ≡ true) p (v ∷ []) s.0 in
    (ground (arith, earlier), last_within before p v s.1)
