-- ===== src/Effect/Later.antt =====
-- packages/execution/effect-operation/src/repository.ts: rows over a history of transactions.
use heptalogos.Prelude.{
  ℕ, ◌≡◌, ◌≢◌, ◌<◌, refl, sym, ap, subst, ◌∙◌, ◌⊎◌, inl, inr, Bool, true, false, String, [], ◌∷◌,
  Option, none, some, arith,
}
use heptalogos.Effect.Operation.{EffectState, prepared, EffectOutcome, EffectOperation}
use heptalogos.Effect.Store.{Table, DefiniteOutcome}
use heptalogos.Effect.Calls.{transact, History, run_history}
use heptalogos.Effect.Steps.{◌⟶◌, admission, completion, refinement, RowStep, Grows, transact-Grows}

-- How far an effect has come.
abbrev pub rank : EffectState → ℕ
rank EffectState.prepared = 0
rank EffectState.dispatching = 1
rank EffectState.uncertain = 2
rank EffectState.succeeded = 3
rank EffectState.failed = 3

abbrev pub is_final : EffectState → Bool
is_final EffectState.succeeded = true
is_final EffectState.failed = true
is_final _ = false

-- `v` is the row that `w` was at an earlier time.
pub record Later (w v : EffectOperation) : Type 0 where
  pub same_request : v.prepared_request ≡ w.prepared_request
  pub advance : (v ≡ w) ⊎ (rank w.state < rank v.state)
  pub token_kept :
      w.state ≢ prepared → v.dispatch_host_ownership_token ≡ w.dispatch_host_ownership_token

abbrev pub LaterIn : Option EffectOperation → Option EffectOperation → Type 0
LaterIn none o = Unit {0}
LaterIn (some w) none = ⊥
LaterIn (some w) (some v) = Later w v

Later-refl : (w : EffectOperation) → Later w w
Later-refl w = record { same_request = refl; advance = inl refl; token_kept = λ _. refl }

pub rank-⟶ : {s r : EffectState} → s ⟶ r → rank s < rank r
rank-⟶ admission = omega arith
rank-⟶ (completion (EffectOutcome.succeeded receipt)) = omega arith
rank-⟶ (completion (EffectOutcome.failed problem)) = omega arith
rank-⟶ (completion (EffectOutcome.uncertain problem)) = omega arith
rank-⟶ (refinement (DefiniteOutcome.succeeded receipt)) = omega arith
rank-⟶ (refinement (DefiniteOutcome.failed problem)) = omega arith

pub not_prepared : (s : EffectState) → 0 < rank s → s ≢ prepared
not_prepared s h e = omega (arith, subst (λ x. 0 < rank x) e h)

prepared_or_later : (s : EffectState) → (s ≡ prepared) ⊎ (0 < rank s)
prepared_or_later EffectState.prepared = inl refl
prepared_or_later EffectState.dispatching = inr (omega arith)
prepared_or_later EffectState.uncertain = inr (omega arith)
prepared_or_later EffectState.succeeded = inr (omega arith)
prepared_or_later EffectState.failed = inr (omega arith)

RowStep-Later : {w v : EffectOperation} → RowStep w v → Later w v
RowStep-Later s = record {
  same_request = s.same_request;
  advance = inr (rank-⟶ s.edge);
  token_kept = s.token_kept;
}

Grows-LaterIn : (o p : Option EffectOperation) → Grows o p → LaterIn o p
Grows-LaterIn none p g = tt
Grows-LaterIn (some w) none g = g
Grows-LaterIn (some w) (some v) (inl e) = subst (λ z. Later w z) (sym e) (Later-refl w)
Grows-LaterIn (some w) (some v) (inr s) = RowStep-Later s

advance-state :
    {w v : EffectOperation}
    → (v ≡ w) ⊎ (rank w.state < rank v.state)
    → w.state ≢ prepared
    → v.state ≢ prepared
advance-state {w} (inl e) n = subst (λ z. z.state ≢ prepared) (sym e) n
advance-state {w} {v} (inr h) n = not_prepared v.state (omega (arith, h))

advance_trans :
    {w v u : EffectOperation}
    → (v ≡ w) ⊎ (rank w.state < rank v.state)
    → (u ≡ v) ⊎ (rank v.state < rank u.state)
    → (u ≡ w) ⊎ (rank w.state < rank u.state)
advance_trans (inl e) (inl d) = inl (d ∙ e)
advance_trans {w} {v} {u} (inl e) (inr h) = inr (subst (λ z. rank z.state < rank u.state) e h)
advance_trans {w} {v} {u} (inr h) (inl d) = inr (subst (λ z. rank w.state < rank z.state) (sym d) h)
advance_trans (inr h) (inr k) = inr (omega (arith, h, k))

Later-trans : {w v u : EffectOperation} → Later w v → Later v u → Later w u
Later-trans a b = record {
  same_request = b.same_request ∙ a.same_request;
  advance = advance_trans a.advance b.advance;
  token_kept = λ n. b.token_kept (advance-state a.advance n) ∙ a.token_kept n;
}

LaterIn-trans : (o p q : Option EffectOperation) → LaterIn o p → LaterIn p q → LaterIn o q
LaterIn-trans none p q a b = tt
LaterIn-trans (some w) none q a b = absurd a
LaterIn-trans (some w) (some v) none a b = b
LaterIn-trans (some w) (some v) (some u) a b = Later-trans a b

LaterIn-refl : (o : Option EffectOperation) → LaterIn o o
LaterIn-refl none = tt
LaterIn-refl (some w) = Later-refl w

-- Over any history of transactions a row is never lost: it is the same row or one whose state has
-- moved forward along PREPARED, DISPATCHING, UNCERTAIN, SUCCEEDED or FAILED, with the request that was
-- prepared and, from the admission on, the token that was admitted.
pub run_history-LaterIn :
    (h : History) (t : Table) (id : String) → LaterIn (t id) (run_history h t id)
unfolding run_history
run_history-LaterIn [] t id = LaterIn-refl (t id)
run_history-LaterIn ((c, rest) ∷ cs) t id =
    LaterIn-trans (t id) ((transact c rest t).0 id) (run_history ((c, rest) ∷ cs) t id)
      (Grows-LaterIn (t id) _ (transact-Grows c rest t id))
      (run_history-LaterIn cs (transact c rest t).0 id)

top_rank : (s : EffectState) → rank s < 4
top_rank s = ground arith

final_rank : (s : EffectState) → is_final s ≡ true → rank s ≡ 3
final_rank s e = ground (arith, e)

final_kept :
    (w : EffectOperation) (o : Option EffectOperation)
    → is_final w.state ≡ true
    → LaterIn (some w) o
    → o ≡ some w
final_kept w none f l = absurd l
final_kept w (some v) f l = elim l.advance [
  | inl e ↦ ap some e
  | inr h ↦ let c : ⊥ = omega (arith, h, final_rank w.state f, top_rank v.state) in absurd c
]

-- A row that has SUCCEEDED or FAILED is the same row after any history of transactions.
pub run_history-final :
    (h : History) (t : Table) (id : String) (w : EffectOperation)
    → t id ≡ some w
    → is_final w.state ≡ true
    → run_history h t id ≡ some w
run_history-final h t id w e f =
    final_kept w (run_history h t id) f
      (subst (λ o. LaterIn o (run_history h t id)) e (run_history-LaterIn h t id))
