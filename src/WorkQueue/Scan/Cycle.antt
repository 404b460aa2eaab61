-- ===== src/WorkQueue/Scan/Cycle.antt =====
-- packages/execution/work-queue/src/fair-scan.ts: a whole cycle of a lane on an unchanged table.
use heptalogos.Prelude.{
  ℕ, zero, suc, ◌<◌, ◌≡◌, refl, sym, ◌∙◌, ap, subst, Bool, true, false, ◌||◌, inl, inr, Bool-cases,
  List, [], ◌∷◌, ◌++◌, Option, none, some, arith, All, ltb, length, select,
}
use heptalogos.WorkQueue.Item.{WorkItemState, WorkItem}
use heptalogos.WorkQueue.Row.{Result, ok, IsCoherent, is_positive_safe}
use heptalogos.WorkQueue.Store.{Table}
use heptalogos.WorkQueue.Scan.{
  Cursor, FairScanLane, reset_fair_scan_lane, item_cursor, same_cursor, last?, take, settle_page,
  continue_cycle, next_lane, lane_rows, is_past, is_within, select_lane_page, select_lane_ceiling,
  ceiling_of, begin_cycle, read_through, read_fair_work_item_page, scan_cycle,
}
use heptalogos.WorkQueue.Scan.Lane.{
  append_assoc, append_nil, All-past, next_lane-none, next_lane-reset, next_lane-advance,
  last_within,
}
use heptalogos.WorkQueue.Scan.Pages.{
  drop, take-drop, take-short, take-nothing, length-drop_less, last?-none, last?-some,
  same_cursor-eq, All-append, All-take, All-select, select-All, select-holds, parse_all-IsCoherent,
  IsSorted, IsSorted-select, IsSorted-after, select-is_past,
}

-- The lane has read these rows and no more.
abbrev Stands : List WorkItem → Option Cursor → Type 0
Stands front none = front ≡ []
Stands front (some k) =
    (p : List WorkItem) × (w : WorkItem) × (front ≡ p ++ (w ∷ [])) × (k ≡ item_cursor w)

module _ (before : Cursor → Cursor → Bool)
    (asymmetric : (a b : Cursor) → before a b ≡ true → before b a ≡ false) (state : WorkItemState)
    (t : Table) (limit : ℕ) (c : Cursor) (sorted : IsSorted before (lane_rows state t))
    (coherent : All IsCoherent (lane_rows state t)) (positive : is_positive_safe limit ≡ true) where
  -- The rows of the cycle.
  abbrev Rows : List WorkItem → Type 0
  Rows rows = select (is_within before c) (lane_rows state t) ≡ rows

  past_front :
      (front ys : List WorkItem) (after : Option Cursor)
      → Stands front after
      → Rows (front ++ ys)
      → select (is_past before after) (select (is_within before c) (lane_rows state t)) ≡ ys
  past_front front ys none s e = select-All _ _ (All-past before _) ∙ e ∙ ap (λ z. z ++ ys) s
  past_front front ys (some k) (p, w, s, h) e =
      let whole = e ∙ ap (λ z. z ++ ys) s ∙ append_assoc p (w ∷ []) ys in
      let ordered =
        subst (IsSorted before) whole
          (IsSorted-select before (is_within before c) (lane_rows state t) sorted) in
      ap (λ z. select (is_past before (some z)) (select (is_within before c) (lane_rows state t))) h
      ∙ ap (select (is_past before (some (item_cursor w)))) whole
      ∙ select-is_past before asymmetric p w ys ordered

  page_read :
      (front ys : List WorkItem) (after : Option Cursor)
      → Stands front after
      → Rows (front ++ ys)
      → select_lane_page before state t after c limit ≡ ok (take limit ys)
  unfolding select_lane_page
  page_read front ys after s e =
      let rest = past_front front ys after s e in
      let whole =
        subst (All IsCoherent) rest
          (All-select IsCoherent _ _ (All-select IsCoherent _ _ coherent)) in
      rw (positive, rest) (parse_all-IsCoherent _ (All-take IsCoherent limit ys whole))

  not_within : (k : Cursor) → before c k ≡ true → ¬ (before k c || same_cursor k c ≡ true)
  not_within k past within = elim (Bool-cases (same_cursor k c)) [
    | inl e ↦
        let self = subst (λ z. before c z ≡ true) (same_cursor-eq k c e) past in
        let never = asymmetric c c self in cc
    | inr e ↦ let never = asymmetric c k past in ground (arith, within, never, e)
  ]

  -- At the ceiling nothing of the cycle is left.
  nothing_left :
      (p : List WorkItem) (v : WorkItem) (ys : List WorkItem)
      → Rows (p ++ (v ∷ ys))
      → same_cursor (item_cursor v) c ≡ true
      → ys ≡ []
  nothing_left p v [] e same = refl
  nothing_left p v (d ∷ ys) e same = absurd (
      let ordered = IsSorted-after before p v (d ∷ ys) (
        subst (IsSorted before) e
          (IsSorted-select before (is_within before c) (lane_rows state t) sorted)) in
      let (_, (_, within)) =
        All-append (λ x. is_within before c x ≡ true) p (v ∷ (d ∷ ys))
          (subst (All (λ x. is_within before c x ≡ true)) e
            (select-holds (is_within before c) (lane_rows state t))) in
      let past : before c (item_cursor d) ≡ true =
        subst (λ k. before k (item_cursor d) ≡ true) (same_cursor-eq _ _ same) ordered.0 in
      not_within (item_cursor d) past within.0)

  -- What a lane that has read `front` does with its next page.
  data Next (front ys : List WorkItem) (after : Option Cursor) : Type 0 where
    ends :
        take limit ys ≡ ys
        → next_lane limit c (record { after = after; through = some c }) (take limit ys)
          ≡ reset_fair_scan_lane
        → Next front ys after
    goes_on :
        (k : Cursor)
        → next_lane limit c (record { after = after; through = some c }) (take limit ys)
          ≡ record { after = some k; through = some c }
        → Stands (front ++ take limit ys) (some k)
        → Rows ((front ++ take limit ys) ++ drop limit ys)
        → length (drop limit ys) < length ys
        → Next front ys after

  Next-page :
      (front ys : List WorkItem) (after : Option Cursor) (o : Option WorkItem)
      → Rows (front ++ ys)
      → last? (take limit ys) ≡ o
      → Next front ys after
  Next-page front ys after none e l =
      let read = last?-none _ l in
      ends (read ∙ sym (take-nothing limit ys (ground (arith, positive)) read))
        (next_lane-none limit c _ _ l)
  Next-page front ys after (some v) e l =
      let (p, q) = last?-some _ l in
      elim (Bool-cases (ltb (length (take limit ys)) limit)) [
        | inl short ↦
            ends (take-short limit ys short) (next_lane-reset limit c _ _ l (ground (arith, short)))
        | inr full ↦ elim (Bool-cases (same_cursor (item_cursor v) c)) [
          | inl same ↦
              let split =
                e
                ∙ ap (λ z. front ++ z) (take-drop limit ys ∙ ap (λ z. z ++ drop limit ys) q)
                ∙ ap (λ z. front ++ z) (append_assoc p (v ∷ []) (drop limit ys))
                ∙ sym (append_assoc front p (v ∷ drop limit ys)) in
              let nothing = nothing_left (front ++ p) v (drop limit ys) split same in
              ends
                (sym (append_nil (take limit ys))
                  ∙ ap (λ z. take limit ys ++ z) (sym nothing)
                  ∙ sym (take-drop limit ys))
                (next_lane-reset limit c _ _ l (ground (arith, full, same)))
          | inr more ↦
              goes_on (item_cursor v) (next_lane-advance limit c _ _ l (ground (arith, full, more)))
                (front ++ p, v, ap (λ z. front ++ z) q ∙ sym (append_assoc front p (v ∷ [])), refl)
                (e
                  ∙ ap (λ z. front ++ z) (take-drop limit ys)
                  ∙ sym (append_assoc front (take limit ys) (drop limit ys)))
                (length-drop_less limit ys l)
        ]
      ]

  page_of_lane :
      (front ys : List WorkItem) (after : Option Cursor) (ceiling : Result (Option Cursor))
      → Stands front after
      → Rows (front ++ ys)
      → read_fair_work_item_page ceiling
          (select_lane_page before state t)
          limit
          (record { after = after; through = some c })
        ≡ (
          next_lane limit c (record { after = after; through = some c }) (take limit ys),
          ok (take limit ys),
        )
  unfolding read_fair_work_item_page read_through
  page_of_lane front ys after ceiling s e =
      ap (settle_page limit c (record { after = after; through = some c }))
        (page_read front ys after s e)

  Next-cycle :
      (fuel : ℕ) (front ys : List WorkItem) (after : Option Cursor)
      → ((k : Cursor)
          → Stands (front ++ take limit ys) (some k)
          → Rows ((front ++ take limit ys) ++ drop limit ys)
          → length (drop limit ys) < length ys
          → scan_cycle before fuel state t limit (record { after = some k; through = some c })
            ≡ (reset_fair_scan_lane, ok (drop limit ys)))
      → Next front ys after
      → (let next =
            next_lane limit c (record { after = after; through = some c }) (take limit ys) in
          continue_cycle next.through next
            (ok (take limit ys))
            (scan_cycle before fuel state t limit next))
        ≡ (reset_fair_scan_lane, ok ys)
  Next-cycle fuel front ys after ih (ends all reset) =
      ap
        (λ z.
          continue_cycle z.through z (ok (take limit ys)) (scan_cycle before fuel state t limit z))
        reset
      ∙ ap (λ z. (reset_fair_scan_lane, ok z)) all
  Next-cycle fuel front ys after ih (goes_on k next stands rows shorter) =
      ap
        (λ z.
          continue_cycle z.through z (ok (take limit ys)) (scan_cycle before fuel state t limit z))
        next
      ∙ ap
          (continue_cycle (some c) (record { after = some k; through = some c })
            (ok (take limit ys)))
          (ih k stands rows shorter)
      ∙ ap (λ z. (reset_fair_scan_lane, ok z)) (sym (take-drop limit ys))

  rest_of_cycle :
      (fuel : ℕ) (front ys : List WorkItem) (after : Option Cursor)
      → Stands front after
      → Rows (front ++ ys)
      → length ys < fuel
      → scan_cycle before fuel state t limit (record { after = after; through = some c })
        ≡ (reset_fair_scan_lane, ok ys)
  unfolding scan_cycle
  rest_of_cycle zero front ys after s e less = absurd (omega (arith, less))
  rest_of_cycle (suc fuel) front ys after s e less =
      ap (λ z. continue_cycle z.0.through z.0 z.1 (scan_cycle before fuel state t limit z.0))
        (page_of_lane front ys after (ok (select_lane_ceiling state t)) s e)
      ∙ Next-cycle fuel front ys after
          (λ k stands rows shorter.
            rest_of_cycle fuel (front ++ take limit ys) (drop limit ys) (some k) stands rows
              (omega (arith, shorter, less)))
          (Next-page front ys after (last? (take limit ys)) e refl)

module _ (before : Cursor → Cursor → Bool) (state : WorkItemState) (t : Table)
    (limit fuel : ℕ) where
  -- What the cycle is where its lane is reset and this is the ceiling.
  abbrev begun : Option Cursor → FairScanLane × Result (List WorkItem)
  begun ceiling =
      let read =
        begin_cycle (select_lane_page before state t) limit reset_fair_scan_lane (ok ceiling) in
      continue_cycle read.0.through read.0 read.1 (scan_cycle before fuel state t limit read.0)

  cycle_from :
      (c : Cursor)
      → select_lane_ceiling state t ≡ some c
      → scan_cycle before (suc fuel) state t limit reset_fair_scan_lane
        ≡ scan_cycle before (suc fuel) state t limit (record { after = none; through = some c })
  unfolding scan_cycle read_fair_work_item_page
  cycle_from c e = ap begun e

  cycle_of_none :
      select_lane_ceiling state t ≡ none
      → scan_cycle before (suc fuel) state t limit reset_fair_scan_lane
        ≡ (reset_fair_scan_lane, ok [])
  unfolding scan_cycle read_fair_work_item_page
  cycle_of_none e = ap begun e

module _ (before : Cursor → Cursor → Bool)
    (asymmetric : (a b : Cursor) → before a b ≡ true → before b a ≡ false) where
  cycle_by_last :
      (state : WorkItemState) (t : Table) (limit : ℕ) (o : Option WorkItem)
      → last? (lane_rows state t) ≡ o
      → IsSorted before (lane_rows state t)
      → All IsCoherent (lane_rows state t)
      → is_positive_safe limit ≡ true
      → scan_cycle before (suc (length (lane_rows state t))) state t limit reset_fair_scan_lane
        ≡ (reset_fair_scan_lane, ok (lane_rows state t))
  unfolding select_lane_ceiling
  cycle_by_last state t limit none e s k h =
      cycle_of_none before state t limit _ (ap ceiling_of e)
      ∙ ap (λ z. (reset_fair_scan_lane, ok z)) (sym (last?-none _ e))
  cycle_by_last state t limit (some v) e s k h =
      let (p, q) = last?-some _ e in
      cycle_from before state t limit _ (item_cursor v) (ap ceiling_of e)
      ∙ rest_of_cycle before asymmetric state t limit (item_cursor v) s k h _ [] (lane_rows state t)
          none refl
          (select-All _ _ (
            subst (All (λ x. is_within before (item_cursor v) x ≡ true)) (sym q)
              (last_within before p v (subst (IsSorted before) q s))))
          (omega arith)

  -- On an unchanged table whose rows of a state are coherent and lie in the order of their cursors,
  -- a reset lane reads in one cycle every row of that state once and in that order, whatever the page
  -- size, and the cycle ends with the lane reset.
  pub scan_cycle_complete :
      (state : WorkItemState) (t : Table) (limit : ℕ)
      → IsSorted before (lane_rows state t)
      → All IsCoherent (lane_rows state t)
      → is_positive_safe limit ≡ true
      → scan_cycle before (suc (length (lane_rows state t))) state t limit reset_fair_scan_lane
        ≡ (reset_fair_scan_lane, ok (lane_rows state t))
  scan_cycle_complete state t limit = cycle_by_last state t limit (last? (lane_rows state t)) refl
