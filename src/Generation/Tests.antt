-- ===== src/Generation/Tests.antt =====
-- Concrete runs of the generation fence, and its theorems at inputs that meet their hypotheses.
use heptalogos.Prelude.{◌==◌, ◌≡◌, refl, true, false, List, [], ◌∷◌, none, some, if◌then◌else◌}
use heptalogos.Generation.Fence.{
  retiring, retired, is_operation_id, is_retired, was_asked, invalid_operation_id,
  generation_retired, invalid_reservation, timed_out, Fence, create_generation_fence, admit,
  reserve, run, finish_invocation, change_at, reservation_at, call_settles, release,
  begin_retirement, watch_idle, complete, retire, timeout_fires, Event, reserves, runs, settles,
  releases, retires, times_out, step, steps,
}
use heptalogos.Generation.Counts.{open_count}
use heptalogos.Generation.Retirement.{no_readmission, retired_when_idle}
use heptalogos.Generation.Runs.{run_once}

unfoldable evaluates : Unit {0}
unfolding steps step admit reserve run finish_invocation change_at reservation_at call_settles
    release begin_retirement watch_idle complete retire timeout_fires open_count
evaluates = tt

-- Retirement times out while a call is in flight, and the call settles after that.
abbrev late_settlement : List Event
late_settlement =
    reserves "send" ∷ runs 0 ∷ retires (some 100) ∷ times_out ∷ settles 0 ∷ releases 0 ∷ []

abbrev drained_late : Fence
drained_late = record {
  current_state = retired;
  in_flight = 0;
  idle_watched = false;
  retirement_promise = some timed_out;
  timer = false;
  reservations = record { started = true; released = false; settled = true } ∷ [];
}

late_settlement-retires : steps late_settlement create_generation_fence ≡ drained_late
unfolding evaluates
late_settlement-retires = refl

abbrev retiring_fence : Fence
retiring_fence = record create_generation_fence { current_state = retiring }

no_readmission_example : reserve "send" (steps late_settlement retiring_fence) ≡ (
  steps late_settlement retiring_fence,
  some (if is_operation_id "send" then generation_retired else invalid_operation_id),
)
no_readmission_example = no_readmission late_settlement "send" retiring_fence refl

abbrev reserved_fence : Fence
reserved_fence = record create_generation_fence {
  in_flight = 1;
  reservations = record { started = false; released = false; settled = false } ∷ [];
}

reserved_runs : (run 0 reserved_fence).1 ≡ none
unfolding evaluates
reserved_runs = refl

run_once_example :
    (run 0 (steps late_settlement (run 0 reserved_fence).0)).1 ≡ some invalid_reservation
run_once_example = run_once 0 late_settlement reserved_fence reserved_runs

late_was_asked : was_asked (steps late_settlement create_generation_fence) ≡ true
unfolding evaluates
late_was_asked = refl

retired_when_idle_example :
    is_retired (steps late_settlement create_generation_fence).current_state
    ≡ (open_count (steps late_settlement create_generation_fence).reservations == 0)
retired_when_idle_example = retired_when_idle late_settlement late_was_asked
