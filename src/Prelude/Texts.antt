-- ===== src/Prelude/Texts.antt =====
-- Equality of texts as a Boolean test.
use text.Mathlib.Text.{◌==◌ as text_eq}
use text.Mathlib.TextEquality.{eq_iff}
use Prim.Native.String.{String}
use mathlib.Core.Path.{◌≡◌}
use mathlib.Core.Logic.{◌≢◌, inl, inr}
use mathlib.Core.Bool.{Bool, true, false}
use heptalogos.Prelude.Tests.{Bool-cases}

abbrev pub str_eq : String → String → Bool
str_eq s t = text_eq s t

pub str_eq-true : (s t : String) → s ≡ t → str_eq s t ≡ true
str_eq-true s t e = (eq_iff s t).1 e

pub true-str_eq : (s t : String) → str_eq s t ≡ true → s ≡ t
true-str_eq s t e = (eq_iff s t).0 e

pub str_eq-false : (s t : String) → s ≢ t → str_eq s t ≡ false
str_eq-false s t n = elim (Bool-cases (str_eq s t)) [
  | inl e ↦ absurd (n (true-str_eq s t e))
  | inr e ↦ e
]
