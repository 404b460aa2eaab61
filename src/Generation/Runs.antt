-- ===== src/Generation/Runs.antt =====
-- packages/runtime/runtime-kernel/src/generation/generation-fence.ts: a reservation is run at most
-- once, over any events.
use heptalogos.Prelude.{
  ℕ, zero, suc, ◌≡◌, refl, sym, ◌∙◌, ap, subst, true, not, ◌||◌, if◌then◌else◌, List, [], ◌∷◌, ◌++◌,
  Option, none, some, String, arith, if_cases, some_inj,
}
use heptalogos.Generation.Fence.{
  is_active, is_operation_id, invalid_operation_id, generation_retired, invalid_reservation,
  Reservation, Fence, Answer, settle, start, discard, admit, reserve, run_reserved, run,
  finish_reserved, finish_invocation, change_at, reservation_at, call_settles, release_reserved,
  release, begin_retirement, watch_idle, complete, retire, timeout_fires, Event, reserves, runs,
  settles, releases, begins_retirement, retires, times_out, step, steps,
}

-- The reservation was run.
abbrev StartedAt : ℕ → List Reservation → Type 0
StartedAt i rs = (r : Reservation) × (reservation_at i rs ≡ some r) × (r.started ≡ true)

change_at-StartedAt :
    (i j : ℕ) (change : Reservation → Reservation) (rs : List Reservation)
    → ((r : Reservation) → r.started ≡ true → (change r).started ≡ true)
    → StartedAt i rs
    → StartedAt i (change_at j change rs)
unfolding change_at reservation_at
change_at-StartedAt i j change [] h s = s
change_at-StartedAt zero zero change (x ∷ rs) h (r, e, s) =
    (change x, refl, h x (ap (λ z. z.started) (some_inj e) ∙ s))
change_at-StartedAt zero (suc j) change (x ∷ rs) h s = s
change_at-StartedAt (suc i) zero change (x ∷ rs) h s = s
change_at-StartedAt (suc i) (suc j) change (x ∷ rs) h s = change_at-StartedAt i j change rs h s

append-StartedAt : (i : ℕ) (rs more : List Reservation) → StartedAt i rs → StartedAt i (rs ++ more)
unfolding reservation_at
append-StartedAt i [] more (r, e, s) = cc
append-StartedAt zero (x ∷ rs) more s = s
append-StartedAt (suc i) (x ∷ rs) more s = append-StartedAt i rs more s

finish_invocation-reservations : (f : Fence) → (finish_invocation f).reservations ≡ f.reservations
unfolding finish_invocation complete
finish_invocation-reservations f = ground arith

finish_reserved-kept :
    (i j : ℕ) (f : Fence) (o : Option Reservation)
    → StartedAt i f.reservations
    → StartedAt i (finish_reserved j f o).reservations
finish_reserved-kept i j f none s = s
finish_reserved-kept i j f (some r) s =
    if_cases (λ (g : Fence). StartedAt i g.reservations) (not r.started || r.settled) f
      (finish_invocation (record f { reservations = change_at j settle f.reservations })) (λ _. s)
      (λ _.
        subst (StartedAt i) (sym (finish_invocation-reservations _))
          (change_at-StartedAt i j settle f.reservations (λ x e. e) s))

release_reserved-kept :
    (i j : ℕ) (f : Fence) (o : Option Reservation)
    → StartedAt i f.reservations
    → StartedAt i (release_reserved j f o).reservations
release_reserved-kept i j f none s = s
release_reserved-kept i j f (some r) s =
    if_cases (λ (g : Fence). StartedAt i g.reservations) (r.released || r.settled || r.started) f
      (finish_invocation (record f { reservations = change_at j discard f.reservations })) (λ _. s)
      (λ _.
        subst (StartedAt i) (sym (finish_invocation-reservations _))
          (change_at-StartedAt i j discard f.reservations (λ x e. e) s))

run_reserved-kept :
    (i j : ℕ) (f : Fence) (o : Option Reservation)
    → StartedAt i f.reservations
    → StartedAt i (run_reserved j f o).0.reservations
run_reserved-kept i j f none s = s
run_reserved-kept i j f (some r) s =
    if_cases (λ (a : Answer). StartedAt i a.0.reservations) (r.started || r.released)
      (f, some invalid_reservation)
      (record f { reservations = change_at j start f.reservations }, none) (λ _. s)
      (λ _. change_at-StartedAt i j start f.reservations (λ x e. refl) s)

reserve-kept :
    (i : ℕ) (op : String) (f : Fence)
    → StartedAt i f.reservations
    → StartedAt i (reserve op f).0.reservations
unfolding reserve admit
reserve-kept i op f s =
    if_cases (λ (a : Answer). StartedAt i a.0.reservations) (is_operation_id op)
      (if is_active f.current_state then (admit f, none) else (f, some generation_retired))
      (f, some invalid_operation_id)
      (λ _.
        if_cases (λ (a : Answer). StartedAt i a.0.reservations) (is_active f.current_state)
          (admit f, none) (f, some generation_retired) (λ _. append-StartedAt i f.reservations _ s)
          (λ _. s))
      (λ _. s)

retire-reservations : (ms : Option ℕ) (f : Fence) → (retire ms f).0.reservations ≡ f.reservations
unfolding retire watch_idle begin_retirement complete
retire-reservations ms f = ground arith

begin_retirement-reservations : (f : Fence) → (begin_retirement f).reservations ≡ f.reservations
unfolding begin_retirement
begin_retirement-reservations f = ground arith

timeout_fires-reservations : (f : Fence) → (timeout_fires f).reservations ≡ f.reservations
unfolding timeout_fires
timeout_fires-reservations f = ground arith

step-kept :
    (i : ℕ) (e : Event) (f : Fence)
    → StartedAt i f.reservations
    → StartedAt i (step e f).0.reservations
unfolding step run call_settles release begin_retirement timeout_fires
step-kept i (reserves op) f s = reserve-kept i op f s
step-kept i (runs j) f s = run_reserved-kept i j f _ s
step-kept i (settles j) f s = finish_reserved-kept i j f _ s
step-kept i (releases j) f s = release_reserved-kept i j f _ s
step-kept i begins_retirement f s = subst (StartedAt i) (sym (begin_retirement-reservations f)) s
step-kept i (retires ms) f s = subst (StartedAt i) (sym (retire-reservations ms f)) s
step-kept i times_out f s = subst (StartedAt i) (sym (timeout_fires-reservations f)) s

steps-kept :
    (i : ℕ) (es : List Event) (f : Fence)
    → StartedAt i f.reservations
    → StartedAt i (steps es f).reservations
unfolding steps
steps-kept i [] f s = s
steps-kept i (x ∷ es) f s = steps-kept i es _ (step-kept i x f s)

change_at-start :
    (i : ℕ) (rs : List Reservation) {r : Reservation}
    → reservation_at i rs ≡ some r
    → StartedAt i (change_at i start rs)
unfolding reservation_at change_at
change_at-start i [] e = cc
change_at-start zero (x ∷ rs) e = (start x, refl, refl)
change_at-start (suc i) (x ∷ rs) e = change_at-start i rs e

run_reserved-StartedAt :
    (i : ℕ) (f : Fence) (o : Option Reservation)
    → reservation_at i f.reservations ≡ o
    → (run_reserved i f o).1 ≡ none
    → StartedAt i (run_reserved i f o).0.reservations
run_reserved-StartedAt i f none e h = absurd (ground (arith, h))
run_reserved-StartedAt i f (some r) e h =
    if_cases (λ (a : Answer). a.1 ≡ none → StartedAt i a.0.reservations) (r.started || r.released)
      (f, some invalid_reservation)
      (record f { reservations = change_at i start f.reservations }, none)
      (λ _ refused. absurd (ground (arith, refused))) (λ _ _. change_at-start i f.reservations e) h

run_started-refused :
    (i : ℕ) (f : Fence) (o : Option Reservation) {r : Reservation}
    → o ≡ some r
    → r.started ≡ true
    → (run_reserved i f o).1 ≡ some invalid_reservation
run_started-refused i f none e s = cc
run_started-refused i f (some x) e s =
    let same : x.started ≡ true = ap (λ z. z.started) (some_inj e) ∙ s in ground (arith, same)

-- A reservation that was run is refused when it is run again, after any events.
pub run_once :
    (i : ℕ) (es : List Event) (f : Fence)
    → (run i f).1 ≡ none
    → (run i (steps es (run i f).0)).1 ≡ some invalid_reservation
unfolding run
run_once i es f h =
    let (r, e, s) =
      steps-kept i es (run_reserved i f (reservation_at i f.reservations)).0
        (run_reserved-StartedAt i f _ refl h) in
    run_started-refused i (steps es (run i f).0) _ e s
