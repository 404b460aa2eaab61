-- ===== src/Effect/Program.antt =====
-- packages/execution/effect-operation/src/service.ts: programs over the shared state that may throw.
-- Before each of the service's own transactions the other actors' transactions run: the history of
-- that site.
use heptalogos.Prelude.{String, Option}
use heptalogos.Prelude.Except.{return, throw}
use heptalogos.Effect.Operation.{EffectOperation, Result}
use heptalogos.Effect.Store.{Hit, select_by_id}
use heptalogos.Effect.Calls.{Call, Rest, transact, run_history}
use heptalogos.Effect.Ports.{Site, reading, Options, World, require_effect_operation_id}

abbrev pub Program : Type 0 → Type 0
Program A = World → World × Result A

abbrev pub proceed : {A B : Type 0} → (A → Program B) → World → Result A → World × Result B
proceed k w (return a) = k a w
proceed k w (throw problem) = (w, throw problem)

infixl 5 ◌>>=◌ ◌>>◌
abbrev pub ◌>>=◌ : {A B : Type 0} → Program A → (A → Program B) → Program B
◌>>=◌ m k w = let r = m w in proceed k r.0 r.1

abbrev pub ◌>>◌ : {A B : Type 0} → Program A → Program B → Program B
m >> k = m >>= λ _. k

-- A check that reads nothing of the shared state.
abbrev pub lift : {A : Type 0} → Result A → Program A
lift r w = (w, r)

-- The others' transactions at a site.
abbrev pub at_site : Options → Site → World → World
at_site s site w = record w { table = run_history (s.others site) w.table }

-- `persistence.read((context) => repository.get(context, id))`
unfoldable pub read_operation : Options → String → Program (Option EffectOperation)
unfolding select_by_id
read_operation s id w = let u = at_site s reading w in (u, select_by_id id u.table)

-- `get`
abbrev pub get : Options → String → Program (Option EffectOperation)
get s id = do key ← lift (require_effect_operation_id s id); read_operation s key

-- `persistence.mutate(…)` at a site.
unfoldable pub perform : Options → Site → Call → Rest → Program Hit
unfolding transact
perform s site call rest w =
    let r = transact call rest (at_site s site w).table in (record w { table = r.0 }, r.1)
