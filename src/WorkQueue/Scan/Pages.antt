-- ===== src/WorkQueue/Scan/Pages.antt =====
-- packages/execution/work-queue/src/fair-scan.ts: lists in the order of their cursors, and how a page
-- splits them.
use heptalogos.Prelude.{
  ℕ, zero, suc, ◌<◌, ◌≤◌, ◌≡◌, ◌≢◌, refl, sym, ◌∙◌, ap, subst, Bool, true, false, inl, inr,
  Bool-cases, List, [], ◌∷◌, ◌++◌, none, some, arith, All, some_inj, ltb, length, select,
  true-str_eq,
}
use heptalogos.WorkQueue.Item.{WorkItem}
use heptalogos.WorkQueue.Row.{ok, IsCoherent, parse-IsCoherent}
use heptalogos.WorkQueue.Scan.{Cursor, item_cursor, same_cursor, last?, take, parse_all, is_past}

pub drop : ℕ → List WorkItem → List WorkItem
drop zero xs = xs
drop (suc n) [] = []
drop (suc n) (x ∷ xs) = drop n xs

pub take-drop : (n : ℕ) (xs : List WorkItem) → xs ≡ take n xs ++ drop n xs
unfolding take drop
take-drop zero xs = refl
take-drop (suc n) [] = refl
take-drop (suc n) (x ∷ xs) = ap (λ ys. x ∷ ys) (take-drop n xs)

pub length-drop : (n : ℕ) (xs : List WorkItem) → length (drop n xs) ≤ length xs
unfolding drop
length-drop zero xs = omega arith
length-drop (suc n) [] = omega arith
length-drop (suc n) (x ∷ xs) = let ih = length-drop n xs in omega (arith, ih)

-- A page shorter than its limit is all there was.
pub take-short : (n : ℕ) (xs : List WorkItem) → ltb (length (take n xs)) n ≡ true → take n xs ≡ xs
unfolding take
take-short zero xs e = absurd (ground (arith, e))
take-short (suc n) [] e = refl
take-short (suc n) (x ∷ xs) e = ap (λ ys. x ∷ ys) (take-short n xs (ground (arith, e)))

pub last?-none : (xs : List WorkItem) → last? xs ≡ none → xs ≡ []
unfolding last?
last?-none [] e = refl
last?-none (x ∷ []) e = absurd (cc)
last?-none (x ∷ (y ∷ ys)) e = let ih = last?-none (y ∷ ys) e in cc

pub last?-some :
    (xs : List WorkItem) {v : WorkItem}
    → last? xs ≡ some v
    → (p : List WorkItem) × (xs ≡ p ++ (v ∷ []))
unfolding last?
last?-some [] e = cc
last?-some (x ∷ []) e = ([], ap (λ z. z ∷ []) (some_inj e))
last?-some (x ∷ (y ∷ ys)) e = let (p, q) = last?-some (y ∷ ys) e in (x ∷ p, ap (λ zs. x ∷ zs) q)

pub take-nothing : (n : ℕ) (xs : List WorkItem) → n ≢ 0 → take n xs ≡ [] → xs ≡ []
unfolding take
take-nothing zero xs p e = absurd (p refl)
take-nothing (suc n) [] p e = refl
take-nothing (suc n) (x ∷ xs) p e = absurd (ground (arith, e))

-- A page with a last item leaves less to read.
pub length-drop_less :
    (n : ℕ) (xs : List WorkItem) {v : WorkItem}
    → last? (take n xs) ≡ some v
    → length (drop n xs) < length xs
unfolding take drop last?
length-drop_less zero xs e = absurd (ground (arith, e))
length-drop_less (suc n) [] e = absurd (ground (arith, e))
length-drop_less (suc n) (x ∷ xs) e = let le = length-drop n xs in omega (arith, le)

pub same_cursor-eq : (a b : Cursor) → same_cursor a b ≡ true → a ≡ b
same_cursor-eq a b e =
    let at : a.created_at ≡ b.created_at = ground (arith, e) in
    let id : a.work_item_id ≡ b.work_item_id = true-str_eq _ _ (ground (arith, e)) in cc

select-true :
    (p : WorkItem → Bool) (x : WorkItem) (xs : List WorkItem)
    → p x ≡ true
    → select p (x ∷ xs) ≡ x ∷ select p xs
select-true p x xs e = ground (arith, e)

select-false :
    (p : WorkItem → Bool) (x : WorkItem) (xs : List WorkItem)
    → p x ≡ false
    → select p (x ∷ xs) ≡ select p xs
select-false p x xs e = ground (arith, e)

pub All-append :
    (P : WorkItem → Type 0) (xs ys : List WorkItem) → All P (xs ++ ys) → All P xs × All P ys
All-append P [] ys h = (tt, h)
All-append P (x ∷ xs) ys h = let (a, b) = All-append P xs ys h.1 in ((h.0, a), b)

pub All-take : (P : WorkItem → Type 0) (n : ℕ) (xs : List WorkItem) → All P xs → All P (take n xs)
unfolding take
All-take P zero xs h = tt
All-take P (suc n) [] h = tt
All-take P (suc n) (x ∷ xs) h = (h.0, All-take P n xs h.1)

pub All-select :
    (P : WorkItem → Type 0) (p : WorkItem → Bool) (xs : List WorkItem)
    → All P xs
    → All P (select p xs)
All-select P p [] h = tt
All-select P p (x ∷ xs) h = elim (Bool-cases (p x)) [
  | inl e ↦ subst (All P) (sym (select-true p x xs e)) (h.0, All-select P p xs h.1)
  | inr e ↦ subst (All P) (sym (select-false p x xs e)) (All-select P p xs h.1)
]

pub select-All :
    (p : WorkItem → Bool) (xs : List WorkItem) → All (λ x. p x ≡ true) xs → select p xs ≡ xs
select-All p [] h = refl
select-All p (x ∷ xs) h = select-true p x xs h.0 ∙ ap (λ ys. x ∷ ys) (select-All p xs h.1)

pub select-holds : (p : WorkItem → Bool) (xs : List WorkItem) → All (λ x. p x ≡ true) (select p xs)
select-holds p [] = tt
select-holds p (x ∷ xs) = elim (Bool-cases (p x)) [
  | inl e ↦ subst (All (λ y. p y ≡ true)) (sym (select-true p x xs e)) (e, select-holds p xs)
  | inr e ↦ subst (All (λ y. p y ≡ true)) (sym (select-false p x xs e)) (select-holds p xs)
]

pub parse_all-IsCoherent : (xs : List WorkItem) → All IsCoherent xs → parse_all xs ≡ ok xs
unfolding parse_all
parse_all-IsCoherent [] h = refl
parse_all-IsCoherent (x ∷ xs) h = rw (parse-IsCoherent x h.0, parse_all-IsCoherent xs h.1) refl

module _ (before : Cursor → Cursor → Bool) where
  -- Each row's cursor is before those of the rows that follow it.
  abbrev pub IsSorted : List WorkItem → Type 0
  IsSorted [] = Unit {0}
  IsSorted (x ∷ xs) = All (λ y. before (item_cursor x) (item_cursor y) ≡ true) xs × IsSorted xs

  pub IsSorted-select :
      (p : WorkItem → Bool) (xs : List WorkItem) → IsSorted xs → IsSorted (select p xs)
  IsSorted-select p [] h = tt
  IsSorted-select p (x ∷ xs) h = elim (Bool-cases (p x)) [
    | inl e ↦ subst IsSorted (sym (select-true p x xs e)) (
      All-select (λ y. before (item_cursor x) (item_cursor y) ≡ true) p xs h.0,
      IsSorted-select p xs h.1,
    )
    | inr e ↦ subst IsSorted (sym (select-false p x xs e)) (IsSorted-select p xs h.1)
  ]

  pub IsSorted-after :
      (p : List WorkItem) (w : WorkItem) (ys : List WorkItem)
      → IsSorted (p ++ (w ∷ ys))
      → All (λ y. before (item_cursor w) (item_cursor y) ≡ true) ys
  IsSorted-after [] w ys h = h.0
  IsSorted-after (x ∷ p) w ys h = IsSorted-after p w ys h.1

  module _ (asymmetric : (a b : Cursor) → before a b ≡ true → before b a ≡ false) where
    -- What is past a row of an ordered list is what follows it.
    pub select-is_past :
        (p : List WorkItem) (w : WorkItem) (ys : List WorkItem)
        → IsSorted (p ++ (w ∷ ys))
        → select (is_past before (some (item_cursor w))) (p ++ (w ∷ ys)) ≡ ys
    select-is_past [] w ys h = select-false _ w ys (self (item_cursor w)) ∙ select-All _ ys h.0
      where
        self : (c : Cursor) → before c c ≡ false
        self c = elim (Bool-cases (before c c)) [ inl e ↦ asymmetric c c e | inr e ↦ e ]
    select-is_past (x ∷ p) w ys h =
        let (_, later) =
          All-append (λ y. before (item_cursor x) (item_cursor y) ≡ true) p (w ∷ ys) h.0 in
        select-false _ x (p ++ (w ∷ ys)) (asymmetric _ _ later.0) ∙ select-is_past p w ys h.1
