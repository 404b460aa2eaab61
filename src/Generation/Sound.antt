-- ===== src/Generation/Sound.antt =====
-- packages/runtime/runtime-kernel/src/generation/generation-fence.ts: the invariant of the fence.
use heptalogos.Prelude.{
  ℕ, zero, suc, ◌≡◌, ◌≢◌, refl, sym, ◌∙◌, ap, ◌⊎◌, inl, inr, true, false, List, none, some, arith,
  All, some_inj, subst,
}
use heptalogos.Generation.Fence.{
  active, retiring, retired, Reservation, pending, resolved, timed_out, change_at, reservation_at,
  Fence, create_generation_fence, complete, finish_invocation,
}
use heptalogos.Generation.Counts.{open_count, Fits, open_count-closed, Fits-change_at}

-- What the fence keeps in each state. It retires as soon as it is watched and idle.
pub data Phase (f : Fence) : Type 0 where
  admitting :
      f.current_state ≡ active
      → f.retirement_promise ≡ none
      → f.idle_watched ≡ false
      → f.timer ≡ false
      → Phase f
  closing :
      f.current_state ≡ retiring
      → f.retirement_promise ≡ none
      → f.idle_watched ≡ false
      → f.timer ≡ false
      → Phase f
  draining :
      f.current_state ≡ retiring
      → (f.retirement_promise ≡ some pending × f.timer ≡ true)
        ⊎ (f.retirement_promise ≡ some timed_out × f.timer ≡ false)
      → f.idle_watched ≡ true
      → f.in_flight ≢ 0
      → Phase f
  drained :
      f.current_state ≡ retired
      → (f.retirement_promise ≡ some resolved) ⊎ (f.retirement_promise ≡ some timed_out)
      → f.idle_watched ≡ false
      → f.timer ≡ false
      → f.in_flight ≡ 0
      → Phase f

-- The fence counts its open reservations, each of which fits, and is in one of the phases.
pub record IsSound (f : Fence) : Type 0 where
  pub counted : f.in_flight ≡ open_count f.reservations
  pub fitting : All Fits f.reservations
  pub phase : Phase f

pub create_generation_fence-IsSound : IsSound create_generation_fence
unfolding open_count
create_generation_fence-IsSound = record {
  counted = refl;
  fitting = tt;
  phase = admitting refl refl refl refl;
}

finish_keeps :
    (f : Fence) (n : ℕ)
    → f.in_flight ≡ suc n
    → ((finish_invocation f).in_flight ≡ n) × ((finish_invocation f).reservations ≡ f.reservations)
unfolding finish_invocation complete
finish_keeps f n e = ground (arith, e)

-- The last reservation that settles retires a fence that is watched.
finish-Phase : (f : Fence) (n : ℕ) → f.in_flight ≡ suc n → Phase f → Phase (finish_invocation f)
unfolding finish_invocation complete
finish-Phase f n e (admitting a b c d) =
    admitting (ground (arith, a, c)) (ground (arith, b, c)) (ground (arith, c))
      (ground (arith, c, d))
finish-Phase f n e (closing a b c d) =
    closing (ground (arith, a, c)) (ground (arith, b, c)) (ground (arith, c)) (ground (arith, c, d))
finish-Phase f zero e (draining a (inl (b, t)) c d) =
    drained (ground (arith, a, c, e)) (inl (ground (arith, a, b, c, e))) (ground (arith, a, c, e))
      (ground (arith, a, c, e)) (ground (arith, e))
finish-Phase f zero e (draining a (inr (b, t)) c d) =
    drained (ground (arith, a, c, e)) (inr (ground (arith, a, b, c, e))) (ground (arith, a, c, e))
      (ground (arith, a, c, e)) (ground (arith, e))
finish-Phase f (suc n) e (draining a (inl (b, t)) c d) =
    draining (ground (arith, a, e)) (inl (ground (arith, b, e), ground (arith, t, e)))
      (ground (arith, c, e)) (ground (arith, e))
finish-Phase f (suc n) e (draining a (inr (b, t)) c d) =
    draining (ground (arith, a, e)) (inr (ground (arith, b, e), ground (arith, t, e)))
      (ground (arith, c, e)) (ground (arith, e))
finish-Phase f n e (drained a b c d g) = absurd (ground (arith, e, g))

pub moved : {f : Fence} (rs : List Reservation) → Phase f → Phase (record f { reservations = rs })
moved rs (admitting a b c d) = admitting a b c d
moved rs (closing a b c d) = closing a b c d
moved rs (draining a b c d) = draining a b c d
moved rs (drained a b c d g) = drained a b c d g

-- One open reservation is closed by `change`.
pub closed-IsSound :
    (f : Fence) (i : ℕ) (change : Reservation → Reservation) {r : Reservation}
    → ((x : Reservation) → (change x).settled ≡ true)
    → (Fits r → Fits (change r))
    → reservation_at i f.reservations ≡ some r
    → r.settled ≡ false
    → IsSound f
    → IsSound (finish_invocation (record f { reservations = change_at i change f.reservations }))
closed-IsSound f i change {r} h k e unsettled s =
    let fewer = open_count-closed i change f.reservations h e unsettled in
    let now : f.in_flight ≡ suc (open_count (change_at i change f.reservations)) =
      s.counted ∙ sym fewer in
    let (n, same) =
      finish_keeps (record f { reservations = change_at i change f.reservations }) _ now in
    record {
      counted = n ∙ sym (ap open_count same);
      fitting = rw same (
          Fits-change_at i change f.reservations
            (λ x at fits. subst (λ z. Fits z → Fits (change z)) (some_inj (sym e ∙ at)) k fits)
            s.fitting);
      phase =
          finish-Phase (record f { reservations = change_at i change f.reservations }) _ now
            (moved _ s.phase);
    }
