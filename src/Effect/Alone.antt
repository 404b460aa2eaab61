-- ===== src/Effect/Alone.antt =====
-- packages/execution/effect-operation/src/service.ts: what runs where no other actor's transaction
-- intervenes, and lineage and evidence accept what they are given.
use heptalogos.Prelude.{◌≡◌, sym, ap, subst, ◌∙◌, Bool, true, String, [], Option, some, leb}
use heptalogos.Prelude.Except.{return, unless_throw, ◌>>=◌, ◌>>◌}
use heptalogos.Effect.Operation.{
  EffectOutcome, EffectOperation, invalid_row, Result, is_fitting, normalized_outcome,
  parse_effect_operation_row,
}
use heptalogos.Effect.Store.{
  Table, Transaction, Hit, hit_by, put_row, update_hit, update_row, update_where, select_row,
  select_by_id,
}
use heptalogos.Effect.Calls.{Call, run_call, mutate, settle, Rest, transact, run_history}
use heptalogos.Effect.Ports.{
  Site, reading, EvidenceDraft, Options, World, require_effect_operation_id,
}
use heptalogos.Effect.Program.{
  Program, proceed, ◌>>=◌ as chain, at_site, get, read_operation, perform,
}

pub record Alone (s : Options) : Type 0 where
  pub undisturbed : (site : Site) → s.others site ≡ []
  pub retains : (site : Site) → s.retain_current site ≡ return tt
  pub records : (draft : EvidenceDraft) → s.record_required draft ≡ return tt
  pub completes : (operation : EffectOperation) → s.complete_current operation ≡ return tt

-- A row that passes the checks as it is.
pub parse_fits :
    (w : EffectOperation)
    → leb 1 w.request_version ≡ true
    → normalized_outcome w.state w.outcome ≡ w.outcome
    → is_fitting w.state w.dispatch_host_ownership_token w.outcome ≡ true
    → parse_effect_operation_row w ≡ return w
unfolding parse_effect_operation_row
parse_fits w v n f =
    let k = λ (o : Option EffectOutcome).
      ◌≡◌ {A = Result EffectOperation}
        (unless_throw (leb 1 w.request_version) invalid_row
          >> (unless_throw (is_fitting w.state w.dispatch_host_ownership_token o) invalid_row
              >> return (record w { outcome = o })))
        (return w) in
    subst k (sym n) (
      ap
        (λ b.
          unless_throw b invalid_row
          >> (unless_throw (is_fitting w.state w.dispatch_host_ownership_token w.outcome)
                invalid_row
              >> return w))
        v
      ∙ ap (λ b. unless_throw b invalid_row >> return w) f)

pub update_where_hits :
    (id : String) (p : EffectOperation → Bool) (f : EffectOperation → EffectOperation)
    (otherwise : Transaction Hit) (t : Table) (w : EffectOperation)
    → t id ≡ some w
    → p w ≡ true
    → parse_effect_operation_row (f w) ≡ return (f w)
    → update_where id p f otherwise t ≡ return (hit_by (f w), put_row id (f w) t)
unfolding update_where
update_where_hits id p f otherwise t w e h k =
    ap (λ o. update_row id p f otherwise o t) e
    ∙ ap (λ b. update_hit id f w b otherwise t) h
    ∙ ap (λ r. r >>= λ v. return (hit_by v, put_row id (f w) t)) k

transact_returns :
    (c : Call) (rest : Rest) (t u : Table) (h : Hit)
    → run_call c t ≡ return (h, u)
    → rest h ≡ return tt
    → transact c rest t ≡ (u, return h)
unfolding transact mutate
transact_returns c rest t u h e r =
    ap (λ z. settle t (z >>= λ q. rest q.0 >> return q)) e
    ∙ ap (λ z. settle t (z >> return (h, u))) r

pub at_site_alone : (s : Options) (site : Site) (w : World) → Alone s → at_site s site w ≡ w
unfolding run_history
at_site_alone s site w a = ap (λ h. record w { table = run_history h w.table }) (a.undisturbed site)

pub perform_returns :
    (s : Options) (site : Site) (c : Call) (rest : Rest) (w : World) (u : Table) (h : Hit)
    → Alone s
    → run_call c w.table ≡ return (h, u)
    → rest h ≡ return tt
    → perform s site c rest w ≡ (record w { table = u }, return h)
unfolding perform
perform_returns s site c rest w u h a e r =
    ap (λ (x : World). let q = transact c rest x.table in (record w { table = q.0 }, q.1))
      (at_site_alone s site w a)
    ∙ ap (λ q. (record w { table = q.0 }, q.1)) (transact_returns c rest w.table u h e r)

-- A chain whose first program answers.
pub chain_answers :
    {A B : Type 0} (m : Program A) (k : A → Program B) (w u : World) (a : A)
    → m w ≡ (u, return a)
    → chain m k w ≡ k a u
chain_answers m k w u a e = ap (λ r. proceed k r.0 r.1) e

pub get_returns :
    (s : Options) (id : String) (w : World) (v : EffectOperation)
    → Alone s
    → require_effect_operation_id s id ≡ return id
    → w.table id ≡ some v
    → parse_effect_operation_row v ≡ return v
    → get s id w ≡ (w, return (some v))
unfolding read_operation select_by_id
get_returns s id w v a r e p =
    ap (λ z. proceed (read_operation s) w z) r
    ∙ ap (λ (x : World). (x, select_row (x.table id))) (at_site_alone s reading w a)
    ∙ ap (λ o. (w, select_row o)) e
    ∙ ap (λ z. (w, z >>= λ x. return (some x))) p
