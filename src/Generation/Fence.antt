-- ===== src/Generation/Fence.antt =====
-- packages/runtime/runtime-kernel/src/generation/generation-fence.ts: the fence with the reservations
-- it has handed out, and its operations as functions on that state. A reservation is named by its
-- place in the order in which they were made. A call that runs in a reservation is two events: it
-- begins, and it settles, with any other events between, also those that the call makes itself.
use Prim.Native.String.{len}
use heptalogos.Prelude.{
  ℕ, zero, suc, ◌-◌, Bool, true, false, not, ◌&&◌, ◌||◌, String, List, [], ◌∷◌, Option, none, some,
  ◌++◌, leb, str_eq, ◌==◌, if◌then◌else◌, is_some, length,
}

pub data GenerationFenceState : Type 0 where
  active retiring retired : GenerationFenceState

-- The variables of a reservation's closure.
pub record Reservation : Type 0 where
  pub started : Bool
  pub released : Bool
  pub settled : Bool

-- What became of the promise that `retire` returns.
pub data Retirement : Type 0 where
  pending resolved timed_out : Retirement

-- `idle_watched` is a defined resolveIdle, `timer` is an armed timeout.
pub record Fence : Type 0 where
  pub current_state : GenerationFenceState
  pub in_flight : ℕ
  pub idle_watched : Bool
  pub retirement_promise : Option Retirement
  pub timer : Bool
  pub reservations : List Reservation

pub data FenceProblem : Type 0 where
  invalid_operation_id generation_retired invalid_reservation invalid_settle_timeout : FenceProblem

-- The state and the problem that the operation threw, if it threw one.
abbrev pub Answer : Type 0
Answer = Fence × Option FenceProblem

abbrev pub create_generation_fence : Fence
create_generation_fence = record {
  current_state = active;
  in_flight = 0;
  idle_watched = false;
  retirement_promise = none;
  timer = false;
  reservations = [];
}

abbrev pub is_active : GenerationFenceState → Bool
is_active active = true
is_active _ = false

abbrev pub is_retiring : GenerationFenceState → Bool
is_retiring retiring = true
is_retiring _ = false

abbrev pub is_retired : GenerationFenceState → Bool
is_retired retired = true
is_retired _ = false

unfoldable pub reservation_at : ℕ → List Reservation → Option Reservation
reservation_at i [] = none
reservation_at zero (r ∷ rs) = some r
reservation_at (suc i) (r ∷ rs) = reservation_at i rs

unfoldable pub change_at : ℕ → (Reservation → Reservation) → List Reservation → List Reservation
change_at i f [] = []
change_at zero f (r ∷ rs) = f r ∷ rs
change_at (suc i) f (r ∷ rs) = r ∷ change_at i f rs

-- `complete`: resolving a promise that was rejected changes nothing.
abbrev pub resolve : Option Retirement → Option Retirement
resolve (some timed_out) = some timed_out
resolve _ = some resolved

abbrev pub completed : Fence → Fence
completed f = record f {
  current_state = retired;
  idle_watched = false;
  retirement_promise = resolve f.retirement_promise;
  timer = false;
}

unfoldable pub complete : Fence → Fence
complete f = if not (is_retiring f.current_state) || not (f.in_flight == 0) then f else completed f

unfoldable pub finish_invocation : Fence → Fence
unfolding complete
finish_invocation f =
    let g = record f { in_flight = f.in_flight - 1 } in
    if g.in_flight == 0 && g.idle_watched then complete g else g

abbrev pub settle : Reservation → Reservation
settle r = record r { settled = true }

abbrev pub start : Reservation → Reservation
start r = record r { started = true }

abbrev pub discard : Reservation → Reservation
discard r = record r { released = true; settled = true }

-- A new reservation of an active generation.
unfoldable pub admit : Fence → Fence
admit f = record f {
  in_flight = suc f.in_flight;
  reservations =
      f.reservations ++ (record { started = false; released = false; settled = false } ∷ []);
}

-- validateOperationId: non-empty and at most 256 in UTF-8.
abbrev pub is_operation_id : String → Bool
is_operation_id operation_id = not (str_eq operation_id "") && leb (len operation_id) 256

unfoldable pub reserve : String → Fence → Answer
unfolding admit
reserve operation_id f =
    if is_operation_id operation_id
    then (if is_active f.current_state then (admit f, none) else (f, some generation_retired))
    else (f, some invalid_operation_id)

-- `run` up to the call: the call starts unless the reservation was run or released.
abbrev pub run_reserved : ℕ → Fence → Option Reservation → Answer
run_reserved i f none = (f, some invalid_reservation)
run_reserved i f (some r) =
    if r.started || r.released
    then (f, some invalid_reservation)
    else (record f { reservations = change_at i start f.reservations }, none)

unfoldable pub run : ℕ → Fence → Answer
run i f = run_reserved i f (reservation_at i f.reservations)

-- The call returned, threw, or its promise settled: `finish`.
abbrev pub finish_reserved : ℕ → Fence → Option Reservation → Fence
finish_reserved i f none = f
finish_reserved i f (some r) =
    if not r.started || r.settled
    then f
    else finish_invocation (record f { reservations = change_at i settle f.reservations })

unfoldable pub call_settles : ℕ → Fence → Fence
unfolding finish_invocation
call_settles i f = finish_reserved i f (reservation_at i f.reservations)

abbrev pub release_reserved : ℕ → Fence → Option Reservation → Fence
release_reserved i f none = f
release_reserved i f (some r) =
    if r.released || r.settled || r.started
    then f
    else finish_invocation (record f { reservations = change_at i discard f.reservations })

unfoldable pub release : ℕ → Fence → Fence
unfolding finish_invocation
release i f = release_reserved i f (reservation_at i f.reservations)

unfoldable pub begin_retirement : Fence → Fence
begin_retirement f = if is_active f.current_state then record f { current_state = retiring } else f

-- The promise is made and the watcher installed; an idle generation is retired at once, any other
-- has a timeout.
unfoldable pub watch_idle : Fence → Fence
unfolding complete
watch_idle f =
    let g = record f { idle_watched = true; retirement_promise = some pending } in
    if g.in_flight == 0 then complete g else record g { timer = true }

-- The timeout is none where it is no non-negative safe integer.
-- `retire` has nothing to do: it resolves at once, or returns the promise that it made before.
abbrev pub was_asked : Fence → Bool
was_asked f = is_retired f.current_state || is_some f.retirement_promise

unfoldable pub retire : Option ℕ → Fence → Answer
unfolding watch_idle begin_retirement
retire settle_timeout_ms f =
    if was_asked f
    then (f, none)
    else if is_some settle_timeout_ms
    then (watch_idle (begin_retirement f), none)
    else (f, some invalid_settle_timeout)

-- The armed timeout fires: the promise is rejected and the watcher stays.
unfoldable pub timeout_fires : Fence → Fence
timeout_fires f =
    if f.timer then record f { timer = false; retirement_promise = some timed_out } else f

pub data Event : Type 0 where
  reserves : String → Event
  runs settles releases : ℕ → Event
  retires : Option ℕ → Event
  begins_retirement times_out : Event

unfoldable pub step : Event → Fence → Answer
unfolding reserve run call_settles release begin_retirement retire timeout_fires
step (reserves operation_id) f = reserve operation_id f
step (runs i) f = run i f
step (settles i) f = (call_settles i f, none)
step (releases i) f = (release i f, none)
step begins_retirement f = (begin_retirement f, none)
step (retires ms) f = retire ms f
step times_out f = (timeout_fires f, none)

unfoldable pub steps : List Event → Fence → Fence
unfolding step
steps [] f = f
steps (e ∷ es) f = steps es (step e f).0

-- `invoke`: a reservation that is run at once.
unfoldable pub invoke : String → Fence → Answer
unfolding reserve run
invoke operation_id f =
    let (g, problem) = reserve operation_id f in
    elim problem [ none ↦ run (length f.reservations) g | some p ↦ (g, some p) ]
