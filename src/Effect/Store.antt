-- ===== src/Effect/Store.antt =====
-- packages/execution/effect-operation/src/repository.ts: the effect_operation table by its primary key,
-- and the statements of the repository. Each runs in a transaction: where it throws, the table stays as
-- it was.
use heptalogos.Prelude.{
  ℕ, Bool, true, false, ◌&&◌, String, Option, none, some, str_eq, ◌==◌, if◌then◌else◌,
}
use heptalogos.Prelude.Except.{return, throw, ◌>>=◌, ◌>>◌, unless_throw}
use heptalogos.Effect.Operation.{
  EffectState, prepared, dispatching, EffectOutcome, EffectRequest, EffectOperation,
  identity_conflict, not_found, invalid_transition, host_fence, Result, status_of,
  parse_effect_operation_row,
}

abbrev pub Table : Type 0
Table = String → Option EffectOperation

-- What runs in a transaction.
abbrev pub Transaction : Type 0 → Type 0
Transaction A = Table → Result (A × Table)

abbrev pub put_row : String → EffectOperation → Table → Table
put_row id w t j = if str_eq id j then some w else t j

-- The row that a statement returned is parsed.
abbrev pub returning : {A : Type 0} → (EffectOperation → A) → EffectOperation → Transaction A
returning answer w t = parse_effect_operation_row w >>= λ v. return (answer v, t)

abbrev pub select_row : Option EffectOperation → Result (Option EffectOperation)
select_row none = return none
select_row (some w) = parse_effect_operation_row w >>= λ v. return (some v)

unfoldable pub select_by_id : String → Table → Result (Option EffectOperation)
unfolding parse_effect_operation_row
select_by_id id t = select_row (t id)

-- `const existing = await selectById(…); if (existing === undefined) throw effectNotFoundProblem();`
abbrev pub required : Option EffectOperation → Result EffectOperation
required none = throw not_found
required (some w) = return w

unfoldable pub select_existing : String → Table → Result EffectOperation
unfolding select_by_id
select_existing id t = select_by_id id t >>= required

unfoldable pub same_immutable_request : EffectOperation → EffectRequest → Bool
same_immutable_request w input =
    str_eq w.effect_operation_id input.effect_operation_id
    && str_eq w.effect_kind input.effect_kind
    && w.request_version == input.request_version
    && str_eq w.request input.request

-- CREATED or EXISTING, ADMITTED or OBSERVED, changed or not: whether the statement hit.
pub record Hit : Type 0 where
  pub hit : Bool
  pub operation : EffectOperation

abbrev pub hit_by : EffectOperation → Hit
hit_by w = record { hit = true; operation = w }

abbrev pub missed : EffectOperation → Hit
missed w = record { hit = false; operation = w }

abbrev pub prepared_row : EffectRequest → String → ℕ → EffectOperation
prepared_row input lineage at = record {
  prepared_request = input;
  state = prepared;
  lineage_context_ref = lineage;
  dispatch_host_ownership_token = none;
  outcome = none;
  created_at = at;
  updated_at = at;
}

-- INSERT … ON CONFLICT (effect_operation_id) DO NOTHING, then the check of an existing identity.
abbrev pub insert_at : EffectRequest → String → ℕ → Option EffectOperation → Transaction Hit
insert_at input lineage at none t =
    let w = prepared_row input lineage at in
    returning hit_by w (put_row input.effect_operation_id w t)
insert_at input lineage at (some existing) t = do
  w ← select_existing input.effect_operation_id t
  unless_throw (same_immutable_request w input) identity_conflict
  return (missed w, t)

unfoldable pub insert_prepared : EffectRequest → String → ℕ → Transaction Hit
unfolding select_existing same_immutable_request
insert_prepared input lineage at t = insert_at input lineage at (t input.effect_operation_id) t

-- UPDATE … SET f WHERE effect_operation_id = id AND p, or what the code does where no row is hit.
abbrev pub update_hit :
    String
    → (EffectOperation → EffectOperation)
    → EffectOperation
    → Bool
    → Transaction Hit
    → Transaction Hit
update_hit id f w true otherwise t = returning hit_by (f w) (put_row id (f w) t)
update_hit id f w false otherwise t = otherwise t

abbrev pub update_row :
    String
    → (EffectOperation → Bool)
    → (EffectOperation → EffectOperation)
    → Transaction Hit
    → Option EffectOperation
    → Transaction Hit
update_row id p f otherwise none t = otherwise t
update_row id p f otherwise (some w) t = update_hit id f w (p w) otherwise t

unfoldable pub update_where :
    String
    → (EffectOperation → Bool)
    → (EffectOperation → EffectOperation)
    → Transaction Hit
    → Transaction Hit
unfolding parse_effect_operation_row
update_where id p f otherwise t = update_row id p f otherwise (t id) t

abbrev pub observed : String → Transaction Hit
observed id t = select_existing id t >>= λ w. return (missed w, t)

abbrev pub is_prepared : EffectState → Bool
is_prepared prepared = true
is_prepared _ = false

abbrev pub is_dispatching : EffectState → Bool
is_dispatching dispatching = true
is_dispatching _ = false

abbrev pub is_uncertain : EffectState → Bool
is_uncertain EffectState.uncertain = true
is_uncertain _ = false

abbrev pub admit : String → ℕ → EffectOperation → EffectOperation
admit token at w = record w {
  state = dispatching;
  dispatch_host_ownership_token = some token;
  updated_at = at;
}

abbrev pub conclude : EffectOutcome → ℕ → EffectOperation → EffectOperation
conclude o at w = record w { state = status_of o; outcome = some o; updated_at = at }

unfoldable pub begin_dispatch : String → String → ℕ → Transaction Hit
unfolding update_where select_existing
begin_dispatch token id at =
    update_where id (λ w. is_prepared w.state) (admit token at) (observed id)

-- `dispatch_host_ownership_token = $2` is not true of a NULL column.
abbrev pub holds_token : Option String → String → Bool
holds_token none token = false
holds_token (some held) token = str_eq held token

abbrev pub is_held : String → EffectOperation → Bool
is_held token w = is_dispatching w.state && holds_token w.dispatch_host_ownership_token token

abbrev pub refuse_completion : EffectOperation → Result (Hit × Table)
refuse_completion w = throw (if is_dispatching w.state then host_fence else invalid_transition)

unfoldable pub complete_dispatch : String → String → EffectOutcome → ℕ → Transaction Hit
unfolding update_where select_existing
complete_dispatch token id o at =
    update_where id (is_held token) (conclude o at)
      (λ t. select_existing id t >>= refuse_completion)

unfoldable pub recover_dispatch_as_uncertain : String → Option String → ℕ → Transaction Hit
unfolding update_where select_existing
recover_dispatch_as_uncertain id problem at =
    update_where id (λ w. is_dispatching w.state) (conclude (EffectOutcome.uncertain problem) at)
      (observed id)

-- Extract<EffectOutcome, { status: "SUCCEEDED" | "FAILED" }>
pub data DefiniteOutcome : Type 0 where
  succeeded : Option String → DefiniteOutcome
  failed : String → DefiniteOutcome

abbrev pub outcome_of : DefiniteOutcome → EffectOutcome
outcome_of (DefiniteOutcome.succeeded receipt) = EffectOutcome.succeeded receipt
outcome_of (DefiniteOutcome.failed problem) = EffectOutcome.failed problem

abbrev pub refuse_refinement : Table → EffectOperation → Result (Hit × Table)
refuse_refinement t w =
    if is_uncertain w.state then return (missed w, t) else throw invalid_transition

unfoldable pub refine_uncertain : String → DefiniteOutcome → ℕ → Transaction Hit
unfolding update_where select_existing
refine_uncertain id o at =
    update_where id (λ w. is_uncertain w.state) (conclude (outcome_of o) at)
      (λ t. select_existing id t >>= refuse_refinement t)

-- The body of `reconcile`'s transaction: the row is read, and refined where it is still UNCERTAIN and
-- the observation was definite.
abbrev pub refine_current : String → Option DefiniteOutcome → ℕ → EffectOperation → Transaction Hit
refine_current id none at w t = return (missed w, t)
refine_current id (some o) at w t =
    if is_uncertain w.state then refine_uncertain id o at t else return (missed w, t)

unfoldable pub resolve_uncertain : String → Option DefiniteOutcome → ℕ → Transaction Hit
unfolding select_existing refine_uncertain
resolve_uncertain id refinement at t =
    select_existing id t >>= λ w. refine_current id refinement at w t
