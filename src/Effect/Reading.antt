-- ===== src/Effect/Reading.antt =====
-- packages/execution/effect-operation/src/service.ts: what the service reads.
use heptalogos.Prelude.{◌≡◌, refl, sym, ap, ◌∙◌, String, Option, none, some, leb, some_inj}
use heptalogos.Prelude.Except.{return, throw, ◌>>=◌, unless_throw, return-injective, >>=-eq-return}
use heptalogos.Effect.Operation.{
  EffectOperation, invalid_row, invalid_id, Result, is_fitting, normalized_outcome,
  parse_effect_operation_row,
}
use heptalogos.Effect.Store.{Table, select_row, select_by_id, select_existing, required}
use heptalogos.Effect.Calls.{settle}
use heptalogos.Effect.Ports.{Options, reading, World, parsed, require_effect_operation_id}
use heptalogos.Effect.Program.{Program, proceed, at_site, get, read_operation}

-- A row that is parsed keeps its state.
pub parse-state :
    (w : EffectOperation) {v : EffectOperation}
    → parse_effect_operation_row w ≡ return v
    → v.state ≡ w.state
unfolding parse_effect_operation_row
parse-state w {v} e =
    let o = normalized_outcome w.state w.outcome in
    let (u, p, q) = >>=-eq-return (unless_throw (leb 1 w.request_version) invalid_row) _ e in
    let (u', p', q') =
      >>=-eq-return
        (unless_throw (is_fitting w.state w.dispatch_host_ownership_token o) invalid_row) _ q in
    ap (λ z. z.state) (sym (return-injective q'))

select_row-state :
    (o : Option EffectOperation) (w v : EffectOperation)
    → o ≡ some w
    → (select_row o >>= required) ≡ return v
    → v.state ≡ w.state
select_row-state none w v e k = cc
select_row-state (some x) w v e k =
    let (f, p, q) = >>=-eq-return (select_row (some x)) required k in
    let (y, p', q') = >>=-eq-return (parse_effect_operation_row x) _ p in
    let s : ◌≡◌ {A = Result EffectOperation} (return y) (return v) =
      ap required (return-injective q') ∙ q in
    ap (λ z. z.state) (sym (return-injective s)) ∙ parse-state x p' ∙ ap (λ z. z.state) (some_inj e)

pub select_existing-state :
    (id : String) (t : Table) (w v : EffectOperation)
    → t id ≡ some w
    → select_existing id t ≡ return v
    → v.state ≡ w.state
unfolding select_existing select_by_id
select_existing-state id t w v e k = select_row-state (t id) w v e k

-- The part of a chain of programs that answered.
pub proceed-answers :
    {A B : Type 0} (k : A → Program B) (w : World) (r : Result A) {b : B}
    → (proceed k w r).1 ≡ return b
    → (a : A) × (r ≡ return a) × ((k a w).1 ≡ return b)
proceed-answers k w (return a) e = (a, refl, e)
proceed-answers k w (throw problem) e = cc

pub settle-answers :
    {A : Type 0} (t : Table) (m : Result (A × Table)) {a : A}
    → (settle t m).1 ≡ return a
    → (r : A × Table) × (m ≡ return r) × (r.0 ≡ a)
settle-answers t (return r) e = (r, refl, return-injective e)
settle-answers t (throw problem) e = cc

-- parseEffectOperationId checks an identity and answers it as it is.
abbrev pub ParsesAsIs : Options → Type 0
ParsesAsIs s = (id key : String) → s.parse_effect_operation_id id ≡ some key → key ≡ id

required_id :
    (s : Options) (id key : String) (o : Option String)
    → s.parse_effect_operation_id id ≡ o
    → parsed invalid_id o ≡ return key
    → s.parse_effect_operation_id id ≡ some key
required_id s id key none e k = cc
required_id s id key (some x) e k = e ∙ ap some (return-injective k)

required_as_is :
    (s : Options) (id key : String)
    → ParsesAsIs s
    → require_effect_operation_id s id ≡ return key
    → key ≡ id
unfolding require_effect_operation_id
required_as_is s id key as_is e =
    as_is id key (required_id s id key (s.parse_effect_operation_id id) refl e)

select_row-some :
    (o : Option EffectOperation) (v : EffectOperation)
    → (select_row o >>= required) ≡ return v
    → (w : EffectOperation) × (o ≡ some w) × (w.state ≡ v.state)
select_row-some none v e = cc
select_row-some (some w) v e = (w, refl, sym (select_row-state (some w) w v refl e))

read_found :
    (id : String) (t : Table) (found : Option EffectOperation) (v : EffectOperation)
    → select_by_id id t ≡ return found
    → required found ≡ return v
    → (w : EffectOperation) × (t id ≡ some w) × (w.state ≡ v.state)
unfolding select_by_id
read_found id t found v e k = select_row-some (t id) v (ap (λ z. z >>= required) e ∙ k)

-- What `get` answered was read at its site.
pub get_reads :
    (s : Options) (id : String) (w : World) (found : Option EffectOperation) (v : EffectOperation)
    → ParsesAsIs s
    → (get s id w).1 ≡ return found
    → required found ≡ return v
    → (row : EffectOperation) × ((get s id w).0.table id ≡ some row) × (row.state ≡ v.state)
unfolding read_operation
get_reads s id w found v as_is a k =
    let (key, p, q) = proceed-answers (read_operation s) w (require_effect_operation_id s id) a in
    let u = at_site s reading w in
    let f = required_as_is s id key as_is p in
    let (row, e, d) = read_found key u.table found v q k in
    (
      row,
      ap (λ z. (proceed (read_operation s) w z).0.table id) p ∙ ap (λ z. u.table z) (sym f) ∙ e,
      d,
    )
