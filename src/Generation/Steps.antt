-- ===== src/Generation/Steps.antt =====
-- packages/runtime/runtime-kernel/src/generation/generation-fence.ts: every event keeps the fence
-- sound.
use heptalogos.Prelude.{
  ℕ, suc, subst, ◌≡◌, refl, sym, ◌∙◌, ap, inl, inr, true, false, not, ◌||◌, ◌==◌, if◌then◌else◌,
  List, [], ◌∷◌, Option, none, some, String, arith, is_some, if_cases,
}
use heptalogos.Generation.Fence.{
  retiring, Reservation, pending, timed_out, Fence, Answer, is_active, is_operation_id, was_asked,
  completed, invalid_operation_id, generation_retired, invalid_settle_timeout, settle, start,
  discard, admit, reserve, run_reserved, run, finish_reserved, reservation_at, call_settles,
  release_reserved, release, begin_retirement, watch_idle, complete, retire, timeout_fires, Event,
  reserves, runs, settles, releases, begins_retirement, retires, times_out, step, steps,
}
use heptalogos.Generation.Counts.{open_count-admit, open_count-kept, Fits-change_at, Fits-admit}
use heptalogos.Generation.Sound.{
  Phase, admitting, closing, draining, drained, IsSound, moved, closed-IsSound,
}

admit-Phase : (f : Fence) → is_active f.current_state ≡ true → Phase f → Phase (admit f)
unfolding admit
admit-Phase f e (admitting a b c d) = admitting a b c d
admit-Phase f e (closing a b c d) = absurd (ground (arith, e, a))
admit-Phase f e (draining a b c d) = absurd (ground (arith, e, a))
admit-Phase f e (drained a b c d g) = absurd (ground (arith, e, a))

admit-IsSound : (f : Fence) → is_active f.current_state ≡ true → IsSound f → IsSound (admit f)
unfolding admit
admit-IsSound f e s = record {
  counted = ap suc s.counted ∙ sym (open_count-admit f.reservations _ refl);
  fitting = Fits-admit f.reservations _ (λ h. ground (arith, h)) s.fitting;
  phase = admit-Phase f e s.phase;
}

reserve-IsSound : (op : String) (f : Fence) → IsSound f → IsSound (reserve op f).0
unfolding reserve
reserve-IsSound op f s =
    if_cases (λ (a : Answer). IsSound a.0) (is_operation_id op)
      (if is_active f.current_state then (admit f, none) else (f, some generation_retired))
      (f, some invalid_operation_id)
      (λ _.
        if_cases (λ (a : Answer). IsSound a.0) (is_active f.current_state) (admit f, none)
          (f, some generation_retired) (λ e. admit-IsSound f e s) (λ _. s))
      (λ _. s)

run-IsSound :
    (i : ℕ) (f : Fence) (o : Option Reservation)
    → reservation_at i f.reservations ≡ o
    → IsSound f
    → IsSound (run_reserved i f o).0
run-IsSound i f none e s = s
run-IsSound i f (some r) e s =
    if_cases (λ (a : Answer). IsSound a.0) (r.started || r.released) _ _ (λ _. s)
      (λ free. record {
        counted = s.counted ∙ sym (open_count-kept i start f.reservations (λ x. refl));
        fitting =
            Fits-change_at i start f.reservations (λ x at h g. ground (arith, free, at, e, g))
              s.fitting;
        phase = moved _ s.phase;
      })

call_settles-IsSound :
    (i : ℕ) (f : Fence) (o : Option Reservation)
    → reservation_at i f.reservations ≡ o
    → IsSound f
    → IsSound (finish_reserved i f o)
call_settles-IsSound i f none e s = s
call_settles-IsSound i f (some r) e s =
    if_cases IsSound (not r.started || r.settled) _ _ (λ _. s)
      (λ unsettled.
        closed-IsSound f i settle (λ x. refl) (λ h g. ground (arith, unsettled, h, g)) e
          (ground (arith, unsettled)) s)

release-IsSound :
    (i : ℕ) (f : Fence) (o : Option Reservation)
    → reservation_at i f.reservations ≡ o
    → IsSound f
    → IsSound (release_reserved i f o)
release-IsSound i f none e s = s
release-IsSound i f (some r) e s =
    if_cases IsSound (r.released || r.settled || r.started) _ _ (λ _. s)
      (λ unused.
        closed-IsSound f i discard (λ x. refl) (λ h g. ground (arith, unused, h)) e
          (ground (arith, unused)) s)

begin_retirement-Phase :
    (f : Fence)
    → is_active f.current_state ≡ true
    → Phase f
    → Phase (record f { current_state = retiring })
begin_retirement-Phase f e (admitting a b c d) = closing refl b c d
begin_retirement-Phase f e (closing a b c d) = absurd (ground (arith, e, a))
begin_retirement-Phase f e (draining a b c d) = absurd (ground (arith, e, a))
begin_retirement-Phase f e (drained a b c d g) = absurd (ground (arith, e, a))

begin_retirement-IsSound : (f : Fence) → IsSound f → IsSound (begin_retirement f)
unfolding begin_retirement
begin_retirement-IsSound f s =
    if_cases IsSound (is_active f.current_state) _ _
      (λ e. record {
        counted = s.counted;
        fitting = s.fitting;
        phase = begin_retirement-Phase f e s.phase;
      })
      (λ _. s)

-- The fence is not watched and no timeout is armed.
abbrev Unwatched : Fence → Type 0
Unwatched f = (f.current_state ≡ retiring) × (f.timer ≡ false)

begin_retirement-Unwatched :
    (f : Fence) → was_asked f ≡ false → Phase f → Unwatched (begin_retirement f)
unfolding begin_retirement
begin_retirement-Unwatched f e (admitting a b c d) = (ground (arith, a), ground (arith, a, d))
begin_retirement-Unwatched f e (closing a b c d) = (ground (arith, a), ground (arith, a, d))
begin_retirement-Unwatched f e (draining a (inl (b, t)) c d) = absurd (ground (arith, e, a, b))
begin_retirement-Unwatched f e (draining a (inr (b, t)) c d) = absurd (ground (arith, e, a, b))
begin_retirement-Unwatched f e (drained a b c d g) = absurd (ground (arith, e, a))

complete-eq-completed :
    (f : Fence) → f.current_state ≡ retiring → f.in_flight ≡ 0 → complete f ≡ completed f
unfolding complete
complete-eq-completed f e n = ground (arith, e, n)

watch_idle-IsSound : (f : Fence) → Unwatched f → IsSound f → IsSound (watch_idle f)
unfolding watch_idle
watch_idle-IsSound f (e, t) s =
    let g = record f { idle_watched = true; retirement_promise = some pending } in
    if_cases IsSound (f.in_flight == 0) (complete g) (record g { timer = true })
      (λ z.
        let idle : f.in_flight ≡ 0 = ground (arith, z) in
        subst IsSound (sym (complete-eq-completed g e idle)) (record {
          counted = s.counted;
          fitting = s.fitting;
          phase = drained refl (inl refl) refl refl idle;
        }))
      (λ nz. record {
        counted = s.counted;
        fitting = s.fitting;
        phase = draining e (inl (refl, refl)) refl (ground (arith, nz));
      })

retire-IsSound : (ms : Option ℕ) (f : Fence) → IsSound f → IsSound (retire ms f).0
unfolding retire
retire-IsSound ms f s =
    if_cases (λ (a : Answer). IsSound a.0) (was_asked f) (f, none)
      (if is_some ms
        then (watch_idle (begin_retirement f), none)
        else (f, some invalid_settle_timeout))
      (λ _. s)
      (λ fresh.
        if_cases (λ (a : Answer). IsSound a.0) (is_some ms) (watch_idle (begin_retirement f), none)
          (f, some invalid_settle_timeout)
          (λ _.
            watch_idle-IsSound (begin_retirement f) (begin_retirement-Unwatched f fresh s.phase)
              (begin_retirement-IsSound f s))
          (λ _. s))

timeout_fires-Phase :
    (f : Fence)
    → f.timer ≡ true
    → Phase f
    → Phase (record f { timer = false; retirement_promise = some timed_out })
timeout_fires-Phase f e (admitting a b c d) = absurd (ground (arith, e, d))
timeout_fires-Phase f e (closing a b c d) = absurd (ground (arith, e, d))
timeout_fires-Phase f e (draining a b c d) = draining a (inr (refl, refl)) c d
timeout_fires-Phase f e (drained a b c d g) = absurd (ground (arith, e, d))

timeout_fires-IsSound : (f : Fence) → IsSound f → IsSound (timeout_fires f)
unfolding timeout_fires
timeout_fires-IsSound f s =
    if_cases IsSound f.timer _ _
      (λ e. record {
        counted = s.counted;
        fitting = s.fitting;
        phase = timeout_fires-Phase f e s.phase;
      })
      (λ _. s)

step-IsSound : (e : Event) (f : Fence) → IsSound f → IsSound (step e f).0
unfolding step run call_settles release
step-IsSound (reserves op) f s = reserve-IsSound op f s
step-IsSound (runs i) f s = run-IsSound i f _ refl s
step-IsSound (settles i) f s = call_settles-IsSound i f _ refl s
step-IsSound (releases i) f s = release-IsSound i f _ refl s
step-IsSound begins_retirement f s = begin_retirement-IsSound f s
step-IsSound (retires ms) f s = retire-IsSound ms f s
step-IsSound times_out f s = timeout_fires-IsSound f s

pub steps-IsSound : (es : List Event) (f : Fence) → IsSound f → IsSound (steps es f)
unfolding steps
steps-IsSound [] f s = s
steps-IsSound (e ∷ es) f s = steps-IsSound es _ (step-IsSound e f s)
