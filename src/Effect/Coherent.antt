-- ===== src/Effect/Coherent.antt =====
-- packages/execution/effect-operation/src: the rows of the table pass the checks that every read makes.
use heptalogos.Prelude.{◌≡◌, String, Option, none, some}
use heptalogos.Prelude.Except.{return}
use heptalogos.Effect.Operation.{EffectOperation, parse_effect_operation_row}
use heptalogos.Effect.Store.{Table, put_row}

-- The checks accept the row and answer it as it is.
abbrev pub IsCoherent : EffectOperation → Type 0
IsCoherent w = parse_effect_operation_row w ≡ return w

abbrev pub IsCoherentIn : Option EffectOperation → Type 0
IsCoherentIn none = Unit {0}
IsCoherentIn (some w) = IsCoherent w

abbrev pub AreCoherent : Table → Type 0
AreCoherent t = (id : String) → IsCoherentIn (t id)

-- The table that a call leaves is the one that it found, or has a coherent row written.
data Kept (id : String) (t u : Table) : Type 0 where
  left : t ≡ u → Kept id t u
  wrote : (v : EffectOperation) → IsCoherent v → put_row id v t ≡ u → Kept id t u
