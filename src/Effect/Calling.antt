-- ===== src/Effect/Calling.antt =====
-- packages/execution/effect-operation/src/service.ts: how often the adapter of an effect is called,
-- whatever runs of the service and transactions of others are interleaved.
use heptalogos.Prelude.{
  ℕ, ◌+◌, ◌≡◌, ◌≤◌, ◌<◌, refl, ap, inl, inr, ◌⊎◌, String, List, [], ◌∷◌, Option, none, some, arith,
  str_eq, if◌then◌else◌,
}
use heptalogos.Prelude.Except.{return, throw}
use heptalogos.Effect.Operation.{prepared, EffectOperation, Result}
use heptalogos.Effect.Store.{Table}
use heptalogos.Effect.Calls.{Call, Rest, transact, History, run_history}
use heptalogos.Effect.Later.{Later, LaterIn, rank, run_history-LaterIn}
use heptalogos.Effect.Once.{IsAdmitted}
use heptalogos.Effect.Ports.{Site, Options, ExternalRequest, World, require_effect_operation_id}
use heptalogos.Effect.Program.{Program, proceed, ◌>>=◌, lift, at_site, get, perform, read_operation}

-- The calls about an effect.
unfoldable pub count_calls : String → List ExternalRequest → ℕ
count_calls id [] = 0
count_calls id (r ∷ rs) = (if str_eq r.effect_operation_id id then 1 else 0) + count_calls id rs

-- 1 once the row is there and no longer PREPARED.
abbrev pub admissions : Option EffectOperation → ℕ
admissions none = 0
admissions (some w) = elim w.state [ prepared ↦ 0 | _ ↦ 1 ]

-- Every call about the effect is paid for by its admission.
pub record Paid (id : String) (w u : World) : Type 0 where
  pub admitted : admissions (w.table id) ≤ admissions (u.table id)
  pub called :
      count_calls id u.dispatches + admissions (w.table id)
      ≤ count_calls id w.dispatches + admissions (u.table id)

pub Paid-refl : (id : String) (w : World) → Paid id w w
Paid-refl id w = record { admitted = omega arith; called = omega arith }

pub Paid-trans : (id : String) (w v u : World) → Paid id w v → Paid id v u → Paid id w u
Paid-trans id w v u a b = record {
  admitted = omega (arith, a.admitted, b.admitted);
  called = omega (arith, a.called, b.called, a.admitted, b.admitted);
}

admissions-rank : (w : EffectOperation) → 0 < rank w.state → admissions (some w) ≡ 1
admissions-rank w h = ground (arith, h)

pub admissions-IsAdmitted : (o : Option EffectOperation) → IsAdmitted o → admissions o ≡ 1
admissions-IsAdmitted none a = absurd a
admissions-IsAdmitted (some w) a = admissions-rank w a

rank-le_one : (w : EffectOperation) → (admissions (some w) ≡ 0) ⊎ (0 < rank w.state)
rank-le_one w = ground arith

pub not-IsAdmitted : (o : Option EffectOperation) → (admissions o ≡ 0) ⊎ IsAdmitted o
not-IsAdmitted none = inl refl
not-IsAdmitted (some w) = rank-le_one w

pub admissions_bound : (o : Option EffectOperation) → admissions o ≤ 1
admissions_bound none = omega arith
admissions_bound (some w) = ground arith

Later-admissions : (w v : EffectOperation) → Later w v → admissions (some w) ≤ admissions (some v)
Later-admissions w v l = elim l.advance [
  | inl e ↦ omega (arith, ap (λ z. admissions (some z)) e)
  | inr h ↦ omega (arith, admissions-rank v (omega (arith, h)), admissions_bound (some w))
]

LaterIn-admissions : (o p : Option EffectOperation) → LaterIn o p → admissions o ≤ admissions p
LaterIn-admissions none p l = omega arith
LaterIn-admissions (some w) none l = absurd l
LaterIn-admissions (some w) (some v) l = Later-admissions w v l

history-admissions :
    (h : History) (t : Table) (id : String) → admissions (t id) ≤ admissions (run_history h t id)
history-admissions h t id = LaterIn-admissions (t id) _ (run_history-LaterIn h t id)

pub transact-admissions :
    (c : Call) (rest : Rest) (t : Table) (id : String)
    → admissions (t id) ≤ admissions ((transact c rest t).0 id)
unfolding run_history
transact-admissions c rest t id = history-admissions ((c, rest) ∷ []) t id

-- What holds of a program's end, whatever it answers.
module _ (id : String) where
  pub lift-Paid : {A : Type 0} (r : Result A) (w : World) → Paid id w (lift r w).0
  lift-Paid r w = Paid-refl id w

  pub proceed-Paid :
      {A B : Type 0} (k : A → Program B) (v w : World) (r : Result A)
      → Paid id v w
      → ((a : A) (u : World) → Paid id u (k a u).0)
      → Paid id v (proceed k w r).0
  proceed-Paid k v w (return a) p f = Paid-trans id v w (k a w).0 p (f a w)
  proceed-Paid k v w (throw problem) p f = p

  pub then-Paid :
      {A B : Type 0} (m : Program A) (k : A → Program B)
      → ((w : World) → Paid id w (m w).0)
      → ((a : A) (u : World) → Paid id u (k a u).0)
      → (w : World) → Paid id w ((m >>= k) w).0
  then-Paid m k p f w = proceed-Paid k w (m w).0 (m w).1 (p w) f

  pub at_site-Paid : (s : Options) (site : Site) (w : World) → Paid id w (at_site s site w)
  at_site-Paid s site w =
      let h = history-admissions (s.others site) w.table id in
      record { admitted = h; called = omega (arith, h) }

  read_operation-Paid :
      (s : Options) (key : String) (w : World) → Paid id w (read_operation s key w).0
  unfolding read_operation
  read_operation-Paid s key w = at_site-Paid s _ w

  pub get-Paid : (s : Options) (key : String) (w : World) → Paid id w (get s key w).0
  get-Paid s key =
      then-Paid (lift (require_effect_operation_id s key)) (read_operation s)
        (lift-Paid (require_effect_operation_id s key)) (read_operation-Paid s)

  pub perform-Paid :
      (s : Options) (site : Site) (c : Call) (rest : Rest) (w : World)
      → Paid id w (perform s site c rest w).0
  unfolding perform
  perform-Paid s site c rest w =
      let u = at_site s site w in
      let h = transact-admissions c rest u.table id in
      Paid-trans id w u (perform s site c rest w).0 (at_site-Paid s site w)
        (record { admitted = h; called = omega (arith, h) })
