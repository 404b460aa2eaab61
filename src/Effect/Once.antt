-- ===== src/Effect/Once.antt =====
-- packages/execution/effect-operation/src/repository.ts: the admission of a dispatch is the only one.
use heptalogos.Prelude.{
  ℕ, ◌≡◌, ◌<◌, refl, sym, ap, subst, ◌∙◌, inl, inr, Bool, true, false, String, Option, none, some,
  arith, str_eq-true,
}
use heptalogos.Prelude.Except.{return, throw, return-injective, >>=-eq-return}
use heptalogos.Effect.Operation.{EffectOperation, Result, parse_effect_operation_row}
use heptalogos.Effect.Store.{
  Table, put_row, Hit, update_where, update_row, update_hit, is_prepared, select_existing, observed,
  admit, begin_dispatch,
}
use heptalogos.Effect.Calls.{
  begins, run_call, mutate, settle, with_rest, Rest, transact, History, run_history,
}
use heptalogos.Effect.Later.{rank, LaterIn, run_history-LaterIn}

-- Whether a transaction's dispatch was admitted.
abbrev pub is_admitted : Result Hit → Bool
is_admitted (return h) = h.hit
is_admitted (throw problem) = false

-- The row is there and is not PREPARED.
abbrev pub IsAdmitted : Option EffectOperation → Type 0
IsAdmitted none = ⊥
IsAdmitted (some w) = 0 < rank w.state

pub put_row-same : (id : String) (v : EffectOperation) (t : Table) → put_row id v t id ≡ some v
put_row-same id v t = rw (str_eq-true id id refl) refl

IsAdmitted-LaterIn : (o p : Option EffectOperation) → IsAdmitted o → LaterIn o p → IsAdmitted p
IsAdmitted-LaterIn none p a l = absurd a
IsAdmitted-LaterIn (some w) none a l = l
IsAdmitted-LaterIn (some w) (some v) a l = elim l.advance [
  | inl e ↦ subst (λ z. 0 < rank z.state) (sym e) a
  | inr h ↦ omega (arith, h)
]

observed-misses :
    (id : String) (t : Table) (r : Hit × Table) → observed id t ≡ return r → r.0.hit ≡ false
observed-misses id t r e =
    let (w, p, q) = >>=-eq-return (select_existing id t) _ e in
    ap (λ z. z.0.hit) (sym (return-injective q))

module _ (token : String) (id : String) (at : ℕ) where
  hit-IsAdmitted :
      (w : EffectOperation) (b : Bool) (t : Table) (r : Hit × Table)
      → update_hit id (admit token at) w b (observed id) t ≡ return r
      → r.0.hit ≡ true
      → IsAdmitted (r.1 id)
  hit-IsAdmitted w true t r e h =
      let (v, p, q) = >>=-eq-return (parse_effect_operation_row (admit token at w)) _ e in
      subst (λ z. IsAdmitted (z.1 id)) (return-injective q)
        (subst IsAdmitted (sym (put_row-same id (admit token at w) t)) (omega arith))
  hit-IsAdmitted w false t r e h = let c : true ≡ false = sym h ∙ observed-misses id t r e in cc

  row-IsAdmitted :
      (o : Option EffectOperation) (t : Table) (r : Hit × Table)
      → update_row id (λ w. is_prepared w.state) (admit token at) (observed id) o t ≡ return r
      → r.0.hit ≡ true
      → IsAdmitted (r.1 id)
  row-IsAdmitted none t r e h = let c : true ≡ false = sym h ∙ observed-misses id t r e in cc
  row-IsAdmitted (some w) t r e h = hit-IsAdmitted w (is_prepared w.state) t r e h

  begin_dispatch-IsAdmitted :
      (t : Table) (r : Hit × Table)
      → begin_dispatch token id at t ≡ return r
      → r.0.hit ≡ true
      → IsAdmitted (r.1 id)
  unfolding begin_dispatch update_where
  begin_dispatch-IsAdmitted t r e h = row-IsAdmitted (t id) t r e h

  observed_later :
      (w : EffectOperation) (b : Bool) (t : Table) (r : Hit × Table)
      → 0 < rank w.state
      → is_prepared w.state ≡ b
      → update_hit id (admit token at) w b (observed id) t ≡ return r
      → r.0.hit ≡ false
  observed_later w true t r a p e = let c : ⊥ = ground (arith, a, p) in absurd c
  observed_later w false t r a p e = observed-misses id t r e

  begin_at_admitted :
      (o : Option EffectOperation) (t : Table) (r : Hit × Table)
      → IsAdmitted o
      → update_row id (λ w. is_prepared w.state) (admit token at) (observed id) o t ≡ return r
      → r.0.hit ≡ false
  begin_at_admitted none t r a e = absurd a
  begin_at_admitted (some w) t r a e = observed_later w (is_prepared w.state) t r a refl e

  settle_unadmitted :
      (t : Table) (m : Result (Hit × Table))
      → ((r : Hit × Table) → m ≡ return r → r.0.hit ≡ false)
      → is_admitted (settle t m).1 ≡ false
  settle_unadmitted t (return r) f = f r refl
  settle_unadmitted t (throw problem) f = refl

  pub begin_again :
      (rest : Rest) (t : Table)
      → IsAdmitted (t id)
      → is_admitted (transact (begins token id at) rest t).1 ≡ false
  unfolding transact mutate run_call begin_dispatch update_where
  begin_again rest t a =
      settle_unadmitted t (with_rest (run_call (begins token id at)) rest t) (λ s e.
        let (r, p, q) = >>=-eq-return (run_call (begins token id at) t) _ e in
        let (u, p', q') = >>=-eq-return (rest r.0) _ q in
        ap (λ z. z.0.hit) (sym (return-injective q')) ∙ begin_at_admitted (t id) t r a p)

  settle-IsAdmitted :
      (t : Table) (m : Result (Hit × Table))
      → ((r : Hit × Table) → m ≡ return r → r.0.hit ≡ true → IsAdmitted (r.1 id))
      → is_admitted (settle t m).1 ≡ true
      → IsAdmitted ((settle t m).0 id)
  settle-IsAdmitted t (return r) f h = f r refl h
  settle-IsAdmitted t (throw problem) f h = cc

  pub transact-IsAdmitted :
      (rest : Rest) (t : Table)
      → is_admitted (transact (begins token id at) rest t).1 ≡ true
      → IsAdmitted ((transact (begins token id at) rest t).0 id)
  unfolding transact mutate run_call
  transact-IsAdmitted rest t h =
      settle-IsAdmitted t (with_rest (run_call (begins token id at)) rest t)
        (λ s e g.
          let (r, p, q) = >>=-eq-return (run_call (begins token id at) t) _ e in
          let (u, p', q') = >>=-eq-return (rest r.0) _ q in
          let d = return-injective q' in
          subst (λ z. IsAdmitted (z.1 id)) d
            (begin_dispatch-IsAdmitted t r p (ap (λ z. z.0.hit) d ∙ g)))
        h

-- Once a transaction has committed the admission of an effect's dispatch, no later transaction
-- admits it again, under any token, whatever transactions commit or fail in between.
pub begin_dispatch_once :
    (token again : String) (id : String) (at at' : ℕ) (rest rest' : Rest) (h : History) (t : Table)
    → is_admitted (transact (begins token id at) rest t).1 ≡ true
    → is_admitted
        (transact
          (begins again id at')
          rest'
          (run_history h (transact (begins token id at) rest t).0)).1
      ≡ false
begin_dispatch_once token again id at at' rest rest' h t e =
    let u = (transact (begins token id at) rest t).0 in
    begin_again again id at' rest' (run_history h u) (
      IsAdmitted-LaterIn (u id) (run_history h u id) (transact-IsAdmitted token id at rest t e)
        (run_history-LaterIn h u id))
