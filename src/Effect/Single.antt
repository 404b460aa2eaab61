-- ===== src/Effect/Single.antt =====
-- packages/execution/effect-operation/src/service.ts: the service calls the adapter of an effect at most
-- once.
use heptalogos.Prelude.{
  ◌+◌, ◌≡◌, ◌≤◌, refl, sym, ap, subst, ◌∙◌, inl, inr, Bool, true, false, String, arith, str_eq,
  true-str_eq, if◌then◌else◌,
}
use heptalogos.Prelude.Except.{return, throw}
use heptalogos.Effect.Operation.{EffectState, EffectOperation, Result}
use heptalogos.Effect.Store.{Hit}
use heptalogos.Effect.Calls.{begins, transact}
use heptalogos.Effect.Once.{is_admitted, begin_again, transact-IsAdmitted}
use heptalogos.Effect.Ports.{
  admitting, Options, EffectDispatchPort, World, begin_rest, require_effect_operation_id,
}
use heptalogos.Effect.Program.{Program, proceed, ◌>>=◌, lift, at_site, get, perform}
use heptalogos.Effect.Service.{
  call_adapter, dispatch_admitted, dispatch_if_admitted, dispatch_found, dispatch, check_found,
  look_up,
}
use heptalogos.Effect.Calling.{
  count_calls, admissions, Paid, Paid-refl, admissions-IsAdmitted, not-IsAdmitted, lift-Paid,
  proceed-Paid, then-Paid, at_site-Paid, get-Paid, perform-Paid, transact-admissions,
}

-- `u` follows `v` by the transaction that admits the effect `id`.
pub record Admitting (id key : String) (v u : World) : Type 0 where
  pub same_calls : u.dispatches ≡ v.dispatches
  pub grows : admissions (v.table key) ≤ admissions (u.table key)
  pub unadmitted : admissions (v.table id) ≡ 0
  pub admitted : admissions (u.table id) ≡ 1

module _ (s : Options) (key : String) where
  count_of_calls :
      (v u : World)
      → u.dispatches ≡ v.dispatches
      → count_calls key u.dispatches ≡ count_calls key v.dispatches
  count_of_calls v u e = ap (count_calls key) e

  called-Paid :
      (id : String) (b : Bool) (v u : World)
      → str_eq id key ≡ b
      → Admitting id key v u
      → (if b then 1 else 0) + count_calls key u.dispatches + admissions (v.table key)
        ≤ count_calls key v.dispatches + admissions (u.table key)
  called-Paid id true v u e a =
      let k = true-str_eq id key e in
      omega (
        arith,
        count_of_calls v u a.same_calls,
        subst (λ z. admissions (v.table z) ≡ 0) k a.unadmitted,
        subst (λ z. admissions (u.table z) ≡ 1) k a.admitted,
      )
  called-Paid id false v u e a = omega (arith, count_of_calls v u a.same_calls, a.grows)

  call_adapter-Paid :
      (id : String) (port : EffectDispatchPort) (aborted : Bool) (operation : EffectOperation)
      (v u : World)
      → Admitting id key v u
      → Paid key v (call_adapter s id port aborted operation u).0
  unfolding call_adapter
  call_adapter-Paid id port true operation v u a = record {
    admitted = a.grows;
    called = omega (arith, count_of_calls v u a.same_calls, a.grows);
  }
  call_adapter-Paid id port false operation v u a = record {
    admitted = a.grows;
    called = unfold count_calls in called-Paid id (str_eq id key) v u refl a;
  }

  dispatch_admitted-Paid :
      (id : String) (port : EffectDispatchPort) (aborted : Bool) (operation : EffectOperation)
      (v u : World)
      → Admitting id key v u
      → Paid key v (dispatch_admitted s id port aborted operation u).0
  dispatch_admitted-Paid id port aborted operation v u a =
      let r = call_adapter s id port aborted operation u in
      proceed-Paid key
        (λ outcome. perform s _ _ _ >>= λ completed. lift (return completed.operation)) v r.0 r.1
        (call_adapter-Paid id port aborted operation v u a)
        (λ outcome.
          then-Paid key (perform s _ _ _) (λ completed. lift (return completed.operation))
            (perform-Paid key s _ _ _) (λ completed. lift-Paid key (return completed.operation)))

  zero_or_admitted :
      (id : String) (t : World) (b : Bool)
      → is_admitted
          (transact (begins (s.token admitting) id (s.now admitting)) (begin_rest s) t.table).1
        ≡ true
      → admissions (t.table id) ≡ 0
  zero_or_admitted id t b e = elim (not-IsAdmitted (t.table id)) [
    | inl z ↦ z
    | inr a ↦
        let c : true ≡ false =
          sym e ∙ begin_again (s.token admitting) id (s.now admitting) (begin_rest s) t.table a in
        cc
  ]

  -- The admission at its site.
  admission_of : String → Program Hit
  admission_of id =
      perform s admitting (begins (s.token admitting) id (s.now admitting)) (begin_rest s)

  admits-Admitting :
      (id : String) (w : World)
      → is_admitted (admission_of id w).1 ≡ true
      → Admitting id key w (admission_of id w).0
  unfolding perform admission_of
  admits-Admitting id w e =
      let u = at_site s admitting w in
      let z = zero_or_admitted id u true e in
      let p = at_site-Paid key s admitting w in
      let q = at_site-Paid id s admitting w in
      record {
        same_calls = refl;
        grows = omega (
          arith,
          p.admitted,
          transact-admissions (begins (s.token admitting) id (s.now admitting)) (begin_rest s)
              u.table key,
        );
        unadmitted = omega (arith, q.admitted, z);
        admitted =
            admissions-IsAdmitted _ (
              transact-IsAdmitted (s.token admitting) id (s.now admitting) (begin_rest s) u.table
                e);
      }

  if_admitted-Paid :
      (id : String) (port : EffectDispatchPort) (aborted : Bool) (h : Hit) (b : Bool) (v u : World)
      → Paid key v u
      → (b ≡ true → Admitting id key v u)
      → Paid key v
          ((if b
              then dispatch_admitted s id port aborted h.operation
              else lift (return h.operation))
            u).0
  if_admitted-Paid id port aborted h true v u p a =
      dispatch_admitted-Paid id port aborted h.operation v u (a refl)
  if_admitted-Paid id port aborted h false v u p a = p

  after_admission :
      (id : String) (port : EffectDispatchPort) (aborted : Bool) (r : Result Hit) (v u : World)
      → Paid key v u
      → (is_admitted r ≡ true → Admitting id key v u)
      → Paid key v (proceed (dispatch_if_admitted s id port aborted) u r).0
  after_admission id port aborted (return h) v u p a =
      if_admitted-Paid id port aborted h h.hit v u p a
  after_admission id port aborted (throw problem) v u p a = p

  dispatch_found-Paid :
      (id : String) (port : EffectDispatchPort) (aborted : Bool) (operation : EffectOperation)
      (state : EffectState) (w : World)
      → Paid key w (dispatch_found s id port aborted operation state w).0
  unfolding admission_of
  dispatch_found-Paid id port aborted operation EffectState.prepared w =
      let r = admission_of id w in
      after_admission id port aborted r.1 w r.0
        (perform-Paid key s admitting (begins (s.token admitting) id (s.now admitting))
          (begin_rest s) w)
        (admits-Admitting id w)
  dispatch_found-Paid id port aborted operation EffectState.dispatching w = Paid-refl key w
  dispatch_found-Paid id port aborted operation EffectState.succeeded w = Paid-refl key w
  dispatch_found-Paid id port aborted operation EffectState.failed w = Paid-refl key w
  dispatch_found-Paid id port aborted operation EffectState.uncertain w = Paid-refl key w

  pub look_up-Paid :
      (effect_operation_id : String) (port : EffectDispatchPort) (w : World)
      → Paid key w (look_up s effect_operation_id port w).0
  unfolding look_up
  look_up-Paid effect_operation_id port =
      then-Paid key (lift (require_effect_operation_id s effect_operation_id))
        (λ id. get s id >>= λ found. lift (check_found s port id found))
        (lift-Paid key (require_effect_operation_id s effect_operation_id))
        (λ id.
          then-Paid key (get s id) (λ found. lift (check_found s port id found)) (get-Paid key s id)
            (λ found. lift-Paid key (check_found s port id found)))

  pub dispatch-Paid :
      (effect_operation_id : String) (port : EffectDispatchPort) (aborted : Bool) (w : World)
      → Paid key w (dispatch s effect_operation_id port aborted w).0
  unfolding dispatch
  dispatch-Paid effect_operation_id port aborted =
      then-Paid key (look_up s effect_operation_id port)
        (λ r. dispatch_found s r.0 port aborted r.1 r.1.state)
        (look_up-Paid effect_operation_id port)
        (λ r. dispatch_found-Paid r.0 port aborted r.1 r.1.state)
