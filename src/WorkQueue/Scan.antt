-- ===== src/WorkQueue/Scan.antt =====
-- packages/execution/work-queue/src/fair-scan.ts, and the lane queries of repository.ts: a lane reads
-- its rows page by page up to the ceiling that it took when its cycle began. The order of the
-- cursors is the database's, `before` in what follows.
pub mod Pages
pub mod Lane
pub mod Cycle
use heptalogos.Prelude.{
  ℕ, zero, suc, Bool, true, false, ◌&&◌, ◌||◌, String, List, [], ◌∷◌, ◌++◌, Option, none, some, ltb,
  ◌==◌, str_eq, if◌then◌else◌, length, select,
}
use heptalogos.WorkQueue.Item.{WorkItemState, WorkItemState-discrete, same_state, WorkItem}
use heptalogos.WorkQueue.Row.{
  WorkQueueProblem, invalid_options, Result, ok, err, ◌>>=◌, ◌>>◌, require, is_positive_safe,
  parse_persisted_work_item,
}
use heptalogos.WorkQueue.Store.{Table}

pub record Cursor : Type 0 where
  pub created_at : ℕ
  pub work_item_id : String

pub record FairScanLane : Type 0 where
  pub after : Option Cursor
  pub through : Option Cursor

abbrev pub reset_fair_scan_lane : FairScanLane
reset_fair_scan_lane = record { after = none; through = none }

abbrev pub item_cursor : WorkItem → Cursor
item_cursor w = record { created_at = w.created_at; work_item_id = w.work_item_id }

abbrev pub same_cursor : Cursor → Cursor → Bool
same_cursor a b = a.created_at == b.created_at && str_eq a.work_item_id b.work_item_id

-- `page.at(-1)`
unfoldable pub last? : List WorkItem → Option WorkItem
last? [] = none
last? (x ∷ []) = some x
last? (x ∷ (y ∷ ys)) = last? (y ∷ ys)

unfoldable pub take : ℕ → List WorkItem → List WorkItem
take zero xs = []
take (suc n) [] = []
take (suc n) (x ∷ xs) = x ∷ take n xs

unfoldable pub parse_all : List WorkItem → Result (List WorkItem)
parse_all [] = ok []
parse_all (w ∷ ws) = parse_persisted_work_item w >>= λ v. parse_all ws >>= λ vs. ok (v ∷ vs)

-- The page's last item ends the cycle, or is where the next page begins.
abbrev pub lane_after : ℕ → Cursor → FairScanLane → List WorkItem → Option WorkItem → FairScanLane
lane_after limit through lane page none = reset_fair_scan_lane
lane_after limit through lane page (some last) =
    if ltb (length page) limit || same_cursor (item_cursor last) through
    then reset_fair_scan_lane
    else record lane { after = some (item_cursor last) }

unfoldable pub next_lane : ℕ → Cursor → FairScanLane → List WorkItem → FairScanLane
unfolding last?
next_lane limit through lane page = lane_after limit through lane page (last? page)

abbrev pub ReadPage : Type 0
ReadPage = Option Cursor → Cursor → ℕ → Result (List WorkItem)

-- A page that was read moves the lane; a problem leaves it.
abbrev pub settle_page :
    ℕ → Cursor → FairScanLane → Result (List WorkItem) → FairScanLane × Result (List WorkItem)
settle_page limit through lane (err problem) = (lane, err problem)
settle_page limit through lane (ok page) = (next_lane limit through lane page, ok page)

unfoldable pub read_through :
    ReadPage → ℕ → Cursor → FairScanLane → FairScanLane × Result (List WorkItem)
unfolding next_lane
read_through read_page limit through lane =
    settle_page limit through lane (read_page lane.after through limit)

abbrev pub begin_cycle :
    ReadPage → ℕ → FairScanLane → Result (Option Cursor) → FairScanLane × Result (List WorkItem)
begin_cycle read_page limit lane (err problem) = (lane, err problem)
begin_cycle read_page limit lane (ok none) = (lane, ok [])
begin_cycle read_page limit lane (ok (some ceiling)) =
    read_through read_page limit ceiling (record { after = none; through = some ceiling })

abbrev pub read_lane :
    Result (Option Cursor)
    → ReadPage
    → ℕ
    → FairScanLane
    → Option Cursor
    → FairScanLane × Result (List WorkItem)
read_lane snapshot read_page limit lane none = begin_cycle read_page limit lane snapshot
read_lane snapshot read_page limit lane (some through) = read_through read_page limit through lane

unfoldable pub read_fair_work_item_page :
    Result (Option Cursor) → ReadPage → ℕ → FairScanLane → FairScanLane × Result (List WorkItem)
unfolding read_through
read_fair_work_item_page snapshot read_page limit lane =
    read_lane snapshot read_page limit lane lane.through

-- The lane queries, on rows that the database holds in the order of their cursors.
abbrev pub lane_rows : WorkItemState → Table → List WorkItem
lane_rows state = select (λ w. same_state w.state state)

abbrev pub ceiling_of : Option WorkItem → Option Cursor
ceiling_of none = none
ceiling_of (some w) = some (item_cursor w)

unfoldable pub select_lane_ceiling : WorkItemState → Table → Option Cursor
unfolding last? WorkItemState-discrete
select_lane_ceiling state t = ceiling_of (last? (lane_rows state t))

-- A cycle ends where its lane is reset.
abbrev pub continue_cycle :
    Option Cursor
    → FairScanLane
    → Result (List WorkItem)
    → FairScanLane × Result (List WorkItem)
    → FairScanLane × Result (List WorkItem)
continue_cycle none next page rest = (next, page)
continue_cycle (some c) next page (last, rest) =
    (last, page >>= λ rows. rest >>= λ more. ok (rows ++ more))

module _ (before : Cursor → Cursor → Bool) where
  -- `$1 IS NULL OR (created_at, work_item_id) > ($1, $2)`
  abbrev pub is_past : Option Cursor → WorkItem → Bool
  is_past none w = true
  is_past (some c) w = before c (item_cursor w)

  -- `(created_at, work_item_id) <= ($3, $4)`
  abbrev pub is_within : Cursor → WorkItem → Bool
  is_within c w = before (item_cursor w) c || same_cursor (item_cursor w) c

  unfoldable pub select_lane_page :
      WorkItemState → Table → Option Cursor → Cursor → ℕ → Result (List WorkItem)
  unfolding take parse_all WorkItemState-discrete
  select_lane_page state t after through limit = do
    require (is_positive_safe limit) invalid_options
    parse_all (take limit (select (is_past after) (select (is_within through) (lane_rows state t))))

  -- Pages of one lane on an unchanged table, until the lane is reset or the fuel is spent.
  unfoldable pub scan_cycle :
      ℕ → WorkItemState → Table → ℕ → FairScanLane → FairScanLane × Result (List WorkItem)
  unfolding read_fair_work_item_page select_lane_ceiling select_lane_page
  scan_cycle zero state t limit lane = (lane, ok [])
  scan_cycle (suc fuel) state t limit lane =
      let (next, page) =
        read_fair_work_item_page (ok (select_lane_ceiling state t)) (select_lane_page state t) limit
          lane in
      continue_cycle next.through next page (scan_cycle fuel state t limit next)
