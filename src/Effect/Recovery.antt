-- ===== src/Effect/Recovery.antt =====
-- packages/execution/effect-operation/src/service.ts: what `recoverDispatch` answers.
use heptalogos.Prelude.{
  ℕ, ◌≡◌, ◌≤◌, ◌<◌, refl, sym, ap, subst, ◌∙◌, inl, inr, Bool, true, false, String, Option, none,
  some, arith, some_inj,
}
use heptalogos.Prelude.Except.{return, return-injective, >>=-eq-return}
use heptalogos.Effect.Operation.{
  EffectState, EffectOutcome, EffectOperation, parse_effect_operation_row,
}
use heptalogos.Effect.Store.{
  Table, Hit, conclude, observed, select_existing, required, is_dispatching, update_hit, update_row,
  update_where, recover_dispatch_as_uncertain,
}
use heptalogos.Effect.Calls.{recovers, run_call, mutate, with_rest, Rest, transact}
use heptalogos.Effect.Later.{rank, LaterIn, run_history-LaterIn}
use heptalogos.Effect.Ports.{Options, recovering, World, recover_rest}
use heptalogos.Effect.Program.{lift, at_site, get, perform}
use heptalogos.Effect.Service.{
  recovery_id, recover_current, recover_read, recover_by, recovery_detail, recover_found,
  recover_dispatch,
}
use heptalogos.Effect.Reading.{
  parse-state, select_existing-state, proceed-answers, settle-answers, ParsesAsIs, get_reads,
}

-- Neither PREPARED nor DISPATCHING.
abbrev pub IsKnown : EffectOperation → Type 0
IsKnown v = 2 ≤ rank v.state

past_dispatching :
    (w : EffectOperation) → 0 < rank w.state → is_dispatching w.state ≡ false → IsKnown w
past_dispatching w h e = ground (arith, h, e)

module _ (id : String) (problem : Option String) (at : ℕ) where
  hit-IsKnown :
      (w : EffectOperation) (b : Bool) (t : Table) (r : Hit × Table)
      → t id ≡ some w
      → 0 < rank w.state
      → is_dispatching w.state ≡ b
      → update_hit id (conclude (EffectOutcome.uncertain problem) at) w b (observed id) t ≡ return r
      → IsKnown r.0.operation
  hit-IsKnown w true t r e h d k =
      let c = conclude (EffectOutcome.uncertain problem) at w in
      let (v, p, q) = >>=-eq-return (parse_effect_operation_row c) _ k in
      subst (λ z. 2 ≤ rank z)
        (sym (parse-state c p) ∙ ap (λ z. z.0.operation.state) (return-injective q)) (omega arith)
  hit-IsKnown w false t r e h d k =
      let (v, p, q) = >>=-eq-return (select_existing id t) _ k in
      subst (λ z. 2 ≤ rank z)
        (sym (select_existing-state id t w v e p)
          ∙ ap (λ z. z.0.operation.state) (return-injective q))
        (past_dispatching w h d)

  row-IsKnown :
      (o : Option EffectOperation) (w : EffectOperation) (t : Table) (r : Hit × Table)
      → t id ≡ o
      → o ≡ some w
      → 0 < rank w.state
      → update_row id
          (λ x. is_dispatching x.state)
          (conclude (EffectOutcome.uncertain problem) at)
          (observed id)
          o
          t
        ≡ return r
      → IsKnown r.0.operation
  row-IsKnown none w t r e f h k = cc
  row-IsKnown (some x) w t r e f h k =
      hit-IsKnown x (is_dispatching x.state) t r e
        (subst (λ z. 0 < rank z.state) (sym (some_inj f)) h) refl k

  recover-IsKnown :
      (w : EffectOperation) (t : Table) (r : Hit × Table)
      → t id ≡ some w
      → 0 < rank w.state
      → recover_dispatch_as_uncertain id problem at t ≡ return r
      → IsKnown r.0.operation
  unfolding recover_dispatch_as_uncertain update_where
  recover-IsKnown w t r e h k = row-IsKnown (t id) w t r refl e h k

later_of :
    (w : EffectOperation) (o : Option EffectOperation)
    → 0 < rank w.state
    → LaterIn (some w) o
    → (v : EffectOperation) × (o ≡ some v) × (0 < rank v.state)
later_of w none h l = absurd l
later_of w (some v) h l = (
  v,
  refl,
  elim l.advance [ inl e ↦ subst (λ z. 0 < rank z.state) (sym e) h | inr k ↦ omega (arith, k) ],
)

transact-IsKnown :
    (id : String) (problem : Option String) (at : ℕ) (rest : Rest) (t : Table) (w : EffectOperation)
    {h : Hit}
    → t id ≡ some w
    → 0 < rank w.state
    → (transact (recovers id problem at) rest t).1 ≡ return h
    → IsKnown h.operation
unfolding transact mutate run_call
transact-IsKnown id problem at rest t w e k a =
    let (r, p, q) = settle-answers t (with_rest (run_call (recovers id problem at)) rest t) a in
    let (c, p', q') = >>=-eq-return (run_call (recovers id problem at) t) _ p in
    let (u, p'', q'') = >>=-eq-return (rest c.0) _ q' in
    subst IsKnown (ap (λ z. z.0.operation) (return-injective q'') ∙ ap (λ z. z.operation) q)
      (recover-IsKnown id problem at w t c e k p')

perform-IsKnown :
    (s : Options) (id : String) (problem : Option String) (at : ℕ) (rest : Rest) (u : World)
    (w : EffectOperation) {h : Hit}
    → u.table id ≡ some w
    → 0 < rank w.state
    → (perform s recovering (recovers id problem at) rest u).1 ≡ return h
    → IsKnown h.operation
unfolding perform
perform-IsKnown s id problem at rest u w e k a =
    let t = (at_site s recovering u).table in
    let (v, p, q) =
      later_of w (t id) k
        (subst (λ o. LaterIn o (t id)) e (run_history-LaterIn (s.others recovering) u.table id)) in
    transact-IsKnown id problem at rest t v p q a

found-IsKnown :
    (s : Options) (id : String) (current : EffectOperation) (state : EffectState) (u : World)
    (w v : EffectOperation)
    → u.table id ≡ some w
    → w.state ≡ state
    → current.state ≡ state
    → (recover_found s id current state u).1 ≡ return v
    → IsKnown v
found-IsKnown s id current EffectState.prepared u w v e d c a = cc
found-IsKnown s id current EffectState.dispatching u w v e d c a =
    let r =
      perform s recovering
        (recovers id (some (s.uncertain_problem recovery_detail)) (s.now recovering))
        (recover_rest s) u in
    let (h, p, q) = proceed-answers (λ (x : Hit). lift (return x.operation)) r.0 r.1 a in
    subst IsKnown (return-injective q) (
      perform-IsKnown s id (some (s.uncertain_problem recovery_detail)) (s.now recovering)
        (recover_rest s) u w e (subst (λ z. 0 < rank z) (sym d) (omega arith)) p)
found-IsKnown s id current EffectState.succeeded u w v e d c a =
    subst IsKnown (return-injective a) (subst (λ z. 2 ≤ rank z) (sym c) (omega arith))
found-IsKnown s id current EffectState.failed u w v e d c a =
    subst IsKnown (return-injective a) (subst (λ z. 2 ≤ rank z) (sym c) (omega arith))
found-IsKnown s id current EffectState.uncertain u w v e d c a =
    subst IsKnown (return-injective a) (subst (λ z. 2 ≤ rank z) (sym c) (omega arith))

-- Where recoverDispatch answers an operation, its dispatch is no longer open: the operation is
-- UNCERTAIN, SUCCEEDED or FAILED, whatever the other actors did between the reading and the recovery.
pub recover_dispatch-IsKnown :
    (s : Options) (id : String) (w : World) (v : EffectOperation)
    → ParsesAsIs s
    → (recover_dispatch s id w).1 ≡ return v
    → IsKnown v
unfolding recover_dispatch
recover_dispatch-IsKnown s id w v as_is a =
    let (key, p, q) = proceed-answers (recover_by s) w (recovery_id s id) a in
    let g = get s key w in
    let (found, p', q') = proceed-answers (recover_read s key) g.0 g.1 q in
    let (current, p'', q'') = proceed-answers (recover_current s key) g.0 (required found) q' in
    let (row, e, d) = get_reads s key w found current as_is p' p'' in
    found-IsKnown s key current current.state g.0 row v e d refl q''
