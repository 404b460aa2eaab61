-- ===== src/Effect/Fenced.antt =====
-- packages/execution/effect-operation/src/repository.ts: a dispatch is completed by the host that
-- admitted it.
use heptalogos.Prelude.{ℕ, ◌≡◌, ap, ◌∙◌, false, ◌&&◌, String, some, str_eq}
use heptalogos.Prelude.Except.{return, throw, ◌>>=◌, ◌>>◌}
use heptalogos.Effect.Operation.{dispatching, EffectOutcome, EffectOperation, host_fence}
use heptalogos.Effect.Store.{
  Table, update_row, update_hit, update_where, select_row, select_by_id, required, select_existing,
  is_dispatching, holds_token, is_held, conclude, refuse_completion, complete_dispatch,
}
use heptalogos.Effect.Calls.{completes, run_call, mutate, settle, Rest, transact}
use heptalogos.Effect.Coherent.{IsCoherent}

module _ (token id : String) (o : EffectOutcome) (at : ℕ) (t : Table) (w : EffectOperation)
    (there : t id ≡ some w) (coherent : IsCoherent w) (open_ : w.state ≡ dispatching) where
  existing_read : select_existing id t ≡ return w
  unfolding select_existing select_by_id
  existing_read =
      ap (λ r. select_row r >>= required) there
      ∙ ap (λ r. (r >>= λ v. return (some v)) >>= required) coherent

  refused : refuse_completion w ≡ throw host_fence
  refused = ap (λ s. refuse_completion (record w { state = s })) open_

  unheld :
      (held : String)
      → w.dispatch_host_ownership_token ≡ some held
      → str_eq held token ≡ false
      → is_held token w ≡ false
  unheld held e f =
      ap (λ s. is_dispatching s && holds_token w.dispatch_host_ownership_token token) open_
      ∙ ap (λ k. holds_token k token) e
      ∙ f

  completion_thrown :
      (held : String)
      → w.dispatch_host_ownership_token ≡ some held
      → str_eq held token ≡ false
      → complete_dispatch token id o at t ≡ throw host_fence
  unfolding complete_dispatch update_where
  completion_thrown held e f =
      let otherwise = λ (u : Table). select_existing id u >>= refuse_completion in
      ap (λ r. update_row id (is_held token) (conclude o at) otherwise r t) there
      ∙ ap (λ b. update_hit id (conclude o at) w b otherwise t) (unheld held e f)
      ∙ ap (λ r. r >>= refuse_completion) existing_read
      ∙ refused

-- A completion of a DISPATCHING row that passes the checks of parseEffectOperationRow, under another
-- token than the one that was admitted, throws host_fence and leaves the table as it was.
pub complete_dispatch_fenced :
    (token held : String) (id : String) (o : EffectOutcome) (at : ℕ) (rest : Rest) (t : Table)
    (w : EffectOperation)
    → t id ≡ some w
    → IsCoherent w
    → w.state ≡ dispatching
    → w.dispatch_host_ownership_token ≡ some held
    → str_eq held token ≡ false
    → transact (completes token id o at) rest t ≡ (t, throw host_fence)
unfolding transact mutate run_call
complete_dispatch_fenced token held id o at rest t w there coherent open_ e f =
    ap (λ m. settle t (m >>= λ r. rest r.0 >> return r))
      (completion_thrown token id o at t w there coherent open_ held e f)
