-- ===== src/Effect/Calls.antt =====
-- packages/execution/effect-operation/src/repository.ts: the calls of the repository as data, and
-- histories of transactions. Each transaction is one call and the rest of its body, which may throw.
use heptalogos.Prelude.{ℕ, String, List, [], ◌∷◌, Option}
use heptalogos.Prelude.Except.{return, throw, ◌>>=◌, ◌>>◌}
use heptalogos.Effect.Operation.{EffectOutcome, EffectRequest, Result}
use heptalogos.Effect.Store.{
  Table, Transaction, Hit, insert_prepared, begin_dispatch, complete_dispatch,
  recover_dispatch_as_uncertain, DefiniteOutcome, refine_uncertain, resolve_uncertain,
}

pub data Call : Type 0 where
  prepares : EffectRequest → String → ℕ → Call
  begins : String → String → ℕ → Call
  completes : String → String → EffectOutcome → ℕ → Call
  recovers : String → Option String → ℕ → Call
  refines : String → DefiniteOutcome → ℕ → Call
  resolves : String → Option DefiniteOutcome → ℕ → Call

unfoldable pub run_call : Call → Transaction Hit
unfolding insert_prepared begin_dispatch complete_dispatch recover_dispatch_as_uncertain
    refine_uncertain resolve_uncertain
run_call (prepares input lineage at) = insert_prepared input lineage at
run_call (begins token id at) = begin_dispatch token id at
run_call (completes token id o at) = complete_dispatch token id o at
run_call (recovers id problem at) = recover_dispatch_as_uncertain id problem at
run_call (refines id o at) = refine_uncertain id o at
run_call (resolves id o at) = resolve_uncertain id o at

-- `persistence.mutate(body)`: what the body threw leaves the table as it was.
abbrev pub settle : {A : Type 0} → Table → Result (A × Table) → Table × Result A
settle t (return (a, u)) = (u, return a)
settle t (throw problem) = (t, throw problem)

unfoldable pub mutate : {A : Type 0} → Transaction A → Table → Table × Result A
mutate body t = settle t (body t)

-- The rest of a transaction's body, given what its call answered.
abbrev pub Rest : Type 0
Rest = Hit → Result (Unit {0})

abbrev pub with_rest : {A : Type 0} → Transaction A → (A → Result (Unit {0})) → Transaction A
with_rest body rest t = body t >>= λ r. rest r.0 >> return r

unfoldable pub transact : Call → Rest → Table → Table × Result Hit
unfolding mutate run_call
transact c rest t = mutate (with_rest (run_call c) rest) t

abbrev pub History : Type 0
History = List (Call × Rest)

unfoldable pub run_history : History → Table → Table
unfolding transact
run_history [] t = t
run_history ((c, rest) ∷ cs) t = run_history cs (transact c rest t).0
