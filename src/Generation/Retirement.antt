-- ===== src/Generation/Retirement.antt =====
-- packages/runtime/runtime-kernel/src/generation/generation-fence.ts: what holds over any sequence of
-- events: a retiring generation admits nothing, and retirement is the end of the last open
-- reservation.
use heptalogos.Prelude.{
  ℕ, ◌≡◌, ◌≢◌, ◌∙◌, true, false, not, ◌||◌, ◌==◌, if◌then◌else◌, List, [], ◌∷◌, Option, none, some,
  String, arith, if_cases,
}
use heptalogos.Generation.Fence.{
  is_active, is_retired, is_operation_id, was_asked, invalid_operation_id, generation_retired,
  Reservation, Fence, create_generation_fence, settle, discard, admit, reserve, run,
  finish_reserved, finish_invocation, change_at, call_settles, release_reserved, release,
  begin_retirement, watch_idle, complete, retire, timeout_fires, Event, reserves, runs, settles,
  releases, begins_retirement, retires, times_out, step, steps,
}
use heptalogos.Generation.Counts.{open_count}
use heptalogos.Generation.Sound.{
  Phase, admitting, closing, draining, drained, create_generation_fence-IsSound,
}
use heptalogos.Generation.Steps.{steps-IsSound}

-- The generation admits nothing.
abbrev IsClosed : Fence → Type 0
IsClosed f = is_active f.current_state ≡ false

finish_invocation-IsClosed : (f : Fence) → IsClosed f → IsClosed (finish_invocation f)
unfolding finish_invocation complete
finish_invocation-IsClosed f e = ground (arith, e)

retire-IsClosed : (ms : Option ℕ) (f : Fence) → IsClosed f → IsClosed (retire ms f).0
unfolding retire watch_idle begin_retirement complete
retire-IsClosed ms f e = ground (arith, e)

finish_reserved-IsClosed :
    (i : ℕ) (f : Fence) (o : Option Reservation) → IsClosed f → IsClosed (finish_reserved i f o)
finish_reserved-IsClosed i f none e = e
finish_reserved-IsClosed i f (some r) e =
    if_cases IsClosed (not r.started || r.settled) f
      (finish_invocation (record f { reservations = change_at i settle f.reservations })) (λ _. e)
      (λ _. finish_invocation-IsClosed _ e)

release_reserved-IsClosed :
    (i : ℕ) (f : Fence) (o : Option Reservation) → IsClosed f → IsClosed (release_reserved i f o)
release_reserved-IsClosed i f none e = e
release_reserved-IsClosed i f (some r) e =
    if_cases IsClosed (r.released || r.settled || r.started) f
      (finish_invocation (record f { reservations = change_at i discard f.reservations })) (λ _. e)
      (λ _. finish_invocation-IsClosed _ e)

step-IsClosed : (e : Event) (f : Fence) → IsClosed f → IsClosed (step e f).0
unfolding step reserve run call_settles release begin_retirement timeout_fires admit
step-IsClosed (reserves op) f e = ground (arith, e)
step-IsClosed (runs i) f e = ground (arith, e)
step-IsClosed (settles i) f e = finish_reserved-IsClosed i f _ e
step-IsClosed (releases i) f e = release_reserved-IsClosed i f _ e
step-IsClosed begins_retirement f e = ground (arith, e)
step-IsClosed (retires ms) f e = retire-IsClosed ms f e
step-IsClosed times_out f e = ground (arith, e)

steps-IsClosed : (es : List Event) (f : Fence) → IsClosed f → IsClosed (steps es f)
unfolding steps
steps-IsClosed [] f e = e
steps-IsClosed (x ∷ es) f e = steps-IsClosed es _ (step-IsClosed x f e)

reserve-closed :
    (op : String) (f : Fence)
    → is_active f.current_state ≡ false
    → reserve op f
      ≡ (f, some (if is_operation_id op then generation_retired else invalid_operation_id))
unfolding reserve
reserve-closed op f e = ground (arith, e)

-- Once a generation is not ACTIVE, after any events it refuses every reservation and is unchanged.
pub no_readmission :
    (es : List Event) (op : String) (f : Fence)
    → is_active f.current_state ≡ false
    → reserve op (steps es f)
      ≡ (steps es f, some (if is_operation_id op then generation_retired else invalid_operation_id))
no_readmission es op f e = reserve-closed op (steps es f) (steps-IsClosed es f e)

Phase-idle :
    (f : Fence)
    → f.in_flight ≡ open_count f.reservations
    → was_asked f ≡ true
    → Phase f
    → is_retired f.current_state ≡ (open_count f.reservations == 0)
Phase-idle f n asked (admitting a b c d) = absurd (ground (arith, a, b, asked))
Phase-idle f n asked (closing a b c d) = absurd (ground (arith, a, b, asked))
Phase-idle f n asked (draining a b c d) =
    let busy : open_count f.reservations ≢ 0 = λ idle. d (n ∙ idle) in ground (arith, a, busy)
Phase-idle f n asked (drained a b c d g) = ground (arith, a, n, g)

-- From its creation and through any events, a fence that was asked to retire is RETIRED exactly when
-- all its reservations are settled, also when the retirement has timed out.
pub retired_when_idle :
    (es : List Event)
    → was_asked (steps es create_generation_fence) ≡ true
    → is_retired (steps es create_generation_fence).current_state
      ≡ (open_count (steps es create_generation_fence).reservations == 0)
retired_when_idle es asked =
    let s = steps-IsSound es _ create_generation_fence-IsSound in
    Phase-idle _ s.counted asked s.phase
