-- ===== src/Prelude/Lists.antt =====
-- Lists measured by native numbers, and the predicates by recursion that the components share.
use Prim.Native.Nat.{ℕ, suc}
use mathlib.Core.Path.{◌≡◌, refl, sym, subst, ◌∙◌}
use mathlib.Core.Logic.{inl, inr}
use heptalogos.Prelude.Tests.{Bool-cases}
use mathlib.Core.Bool.{Bool, true, false}
use mathlib.Core.List.{List, [], ◌∷◌}
use mathlib.Core.Option.{Option, none, some}
use native.Mathlib.Omega.{arith}

module _ {ℓ} {A : Type ℓ} where
  abbrev pub length : List A → ℕ
  length [] = 0
  length (x ∷ xs) = suc (length xs)

  abbrev pub is_some : Option A → Bool
  is_some none = false
  is_some (some a) = true

  -- The elements that pass a test, in order (`Array.prototype.filter`).
  abbrev pub select : (A → Bool) → List A → List A
  select p [] = []
  select p (x ∷ xs) = elim (p x) [ true ↦ x ∷ select p xs | false ↦ select p xs ]

  -- The first element that passes a test (`Array.prototype.find`).
  abbrev pub find : (A → Bool) → List A → Option A
  find p [] = none
  find p (x ∷ xs) = elim (p x) [ true ↦ some x | false ↦ find p xs ]

  abbrev pub first? : List A → Option A
  first? [] = none
  first? (x ∷ xs) = some x

abbrev pub All {ℓ κ} : {A : Type ℓ} → (A → Type κ) → List A → Type κ
All P [] = Unit
All P (x ∷ xs) = P x × All P xs

pub first?-select {ℓ} : {A : Type ℓ} (p : A → Bool) (xs : List A) → first? (select p xs) ≡ find p xs
first?-select p [] = refl
first?-select p (x ∷ xs) = ground (arith, first?-select p xs)

pub some_inj {ℓ} : {A : Type ℓ} {a b : A} → some a ≡ some b → a ≡ b
some_inj h = cc

module _ {ℓ κ} {A : Type ℓ} (Q : A → Type κ) where
  pub All-find :
      (p : A → Bool) (xs : List A) {x : A} → All Q xs → find p xs ≡ some x → Q x × (p x ≡ true)
  All-find p [] h e = cc
  All-find p (y ∷ ys) {x} h e = elim (Bool-cases (p y)) [
    | inl hit ↦
        let same : y ≡ x = some_inj (rw (hit, find) at e) in
        (subst Q same h.0, subst (λ z. p z ≡ true) same hit)
    | inr miss ↦ All-find p ys h.1 (rw (miss, find) at e)
  ]

  pub All-first? :
      (p : A → Bool) (xs : List A) {x : A}
      → All Q xs
      → first? (select p xs) ≡ some x
      → Q x × (p x ≡ true)
  All-first? p xs h e = All-find p xs h (sym (first?-select p xs) ∙ e)
