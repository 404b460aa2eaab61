-- ===== src/WorkQueue/Admission.antt =====
-- packages/execution/work-queue/src/admission.ts: the decisions of the WorkAdmission port, as they are
-- answered and before they are checked. Whether a text is blank and its length in UTF-8 bytes are
-- parameters; instants are numbers.
use heptalogos.Prelude.{
  ℕ, ◌≡◌, ◌≤◌, subst, Bool, true, false, not, ◌&&◌, String, Option, none, some, arith, leb, leb→le,
  str_eq, if◌then◌else◌, Bool-cases, inl, inr,
}
use heptalogos.Prelude.Except.{
  Except, return, throw, ◌>>=◌, ◌>>◌, unless_throw, return-injective, >>=-eq-return,
}

pub data AdmissionProblem : Type 0 where
  invalid_decision rejected_optional rejected_new_work : AdmissionProblem

-- A time that is absent, is no Instant, or is one.
pub data RawInstant : Type 0 where
  absent improper : RawInstant
  instant : ℕ → RawInstant

-- A reason that is no text is none.
pub record RawAdmission : Type 0 where
  pub decision : String
  pub reason_code : Option String
  pub not_before : RawInstant

pub record Texts : Type 0 where
  pub is_blank : String → Bool
  pub byte_length : String → ℕ

abbrev pub is_reason : Texts → Option String → Bool
is_reason t none = false
is_reason t (some reason) = not (t.is_blank reason) && leb (t.byte_length reason) 256

abbrev pub assert_reason_code : Texts → RawAdmission → Except AdmissionProblem (Unit {0})
assert_reason_code t d = unless_throw (is_reason t d.reason_code) invalid_decision

abbrev pub assert_not_before : RawInstant → Except AdmissionProblem ℕ
assert_not_before RawInstant.absent = throw invalid_decision
assert_not_before RawInstant.improper = throw invalid_decision
assert_not_before (RawInstant.instant at) = return at

abbrev pub later_instant : Option ℕ → ℕ → ℕ
later_instant none right = right
later_instant (some left) right = if leb right left then left else right

abbrev pub delayed : Texts → Option ℕ → RawAdmission → Except AdmissionProblem (Option ℕ)
delayed t requested d = do
  assert_reason_code t d
  at ← assert_not_before d.not_before
  return (some (later_instant requested at))

abbrev pub decide : Texts → Option ℕ → RawAdmission → Except AdmissionProblem (Option ℕ)
decide t requested d =
    if str_eq d.decision "ALLOW"
    then return requested
    else if str_eq d.decision "DELAY"
    then delayed t requested d
    else if str_eq d.decision "THROTTLE"
    then delayed t requested d
    else if str_eq d.decision "REJECT_OPTIONAL"
    then (assert_reason_code t d >> throw rejected_optional)
    else if str_eq d.decision "REJECT_NEW_WORK"
    then (assert_reason_code t d >> throw rejected_new_work)
    else throw invalid_decision

-- An answer that is no object is none.
unfoldable pub apply_work_admission_decision :
    Texts → Option ℕ → Option RawAdmission → Except AdmissionProblem (Option ℕ)
apply_work_admission_decision t requested none = throw invalid_decision
apply_work_admission_decision t requested (some d) = decide t requested d

abbrev pub decide_dispatch : Texts → RawAdmission → Except AdmissionProblem Bool
decide_dispatch t d =
    if str_eq d.decision "ALLOW"
    then return true
    else if str_eq d.decision "DELAY"
    then (assert_reason_code t d >> return false)
    else if str_eq d.decision "THROTTLE"
    then (assert_reason_code t d >> return false)
    else throw invalid_decision

unfoldable pub apply_work_dispatch_admission_decision :
    Texts → Option RawAdmission → Except AdmissionProblem Bool
apply_work_dispatch_admission_decision t none = throw invalid_decision
apply_work_dispatch_admission_decision t (some d) = decide_dispatch t d

-- The time of the policy, if it set one.
abbrev pub instant_of : RawInstant → Option ℕ
instant_of RawInstant.absent = none
instant_of RawInstant.improper = none
instant_of (RawInstant.instant at) = some at

abbrev pub policy_time : Option RawAdmission → Option ℕ
policy_time none = none
policy_time (some d) = if str_eq d.decision "ALLOW" then none else instant_of d.not_before

-- A time that is set is not before the bound, and is set if the bound is.
abbrev pub IsNotBefore : Option ℕ → Option ℕ → Type 0
IsNotBefore none at = Unit {0}
IsNotBefore (some bound) none = ⊥
IsNotBefore (some bound) (some at) = bound ≤ at

IsNotBefore-refl : (o : Option ℕ) → IsNotBefore o o
IsNotBefore-refl none = tt
IsNotBefore-refl (some n) = omega arith

-- Not before what was requested, nor before what the policy says.
abbrev pub AreKept : Option ℕ → Option ℕ → Option ℕ → Type 0
AreKept requested policy at = IsNotBefore requested at × IsNotBefore policy at

later_instant-AreKept :
    (requested : Option ℕ) (at : ℕ)
    → AreKept requested (some at) (some (later_instant requested at))
later_instant-AreKept none at = (tt, omega arith)
later_instant-AreKept (some left) at = elim (Bool-cases (leb at left)) [
  | inl t ↦ rw t (omega arith, leb→le at left t)
  | inr f ↦ ground (arith, f)
]

delayed-AreKept :
    (t : Texts) (requested : Option ℕ) (d : RawAdmission) (at : Option ℕ)
    → delayed t requested d ≡ return at
    → AreKept requested (instant_of d.not_before) at
delayed-AreKept t requested d at e =
    let (u, p, q) = >>=-eq-return (assert_reason_code t d) _ e in
    let (n, p', q') = >>=-eq-return (assert_not_before d.not_before) _ q in
    subst (λ o. AreKept requested (instant_of d.not_before) o) (return-injective q')
      (set (d.not_before) n p')
  where
    set :
        (r : RawInstant) (n : ℕ)
        → assert_not_before r ≡ return n
        → AreKept requested (instant_of r) (some (later_instant requested n))
    set RawInstant.absent n e = absurd (ground (arith, e))
    set RawInstant.improper n e = absurd (ground (arith, e))
    set (RawInstant.instant m) n e =
        subst (λ z. AreKept requested (some m) (some (later_instant requested z)))
          (return-injective e) (later_instant-AreKept requested m)

module _ (t : Texts) (requested : Option ℕ) (d : RawAdmission) (at : Option ℕ) where
  rejected :
      (problem : AdmissionProblem) (T : Type 0)
      → ◌≡◌ {A = Except AdmissionProblem (Option ℕ)}
          (assert_reason_code t d >> throw problem)
          (return at)
      → T
  rejected problem T e =
      let (u, p, q) = >>=-eq-return (assert_reason_code t d) (λ _. throw problem) e in
      absurd (ground (arith, q))

  kept :
      (allow delay throttle optional_ new : Bool)
      → (if allow
          then return requested
          else if delay
          then delayed t requested d
          else if throttle
          then delayed t requested d
          else if optional_
          then (assert_reason_code t d >> throw rejected_optional)
          else if new
          then (assert_reason_code t d >> throw rejected_new_work)
          else throw invalid_decision)
        ≡ return at
      → AreKept requested (if allow then none else instant_of d.not_before) at
  kept true delay throttle optional_ new e =
      (subst (IsNotBefore requested) (return-injective e) (IsNotBefore-refl requested), tt)
  kept false true throttle optional_ new e = delayed-AreKept t requested d at e
  kept false false true optional_ new e = delayed-AreKept t requested d at e
  kept false false false true new e = rejected rejected_optional _ e
  kept false false false false true e = rejected rejected_new_work _ e
  kept false false false false false e = absurd (ground (arith, e))

-- A creation that is admitted runs no earlier than it was requested to, and no earlier than the time
-- of a policy that delays or throttles it.
pub admission_keeps_times :
    (t : Texts) (requested : Option ℕ) (decision : Option RawAdmission) (at : Option ℕ)
    → apply_work_admission_decision t requested decision ≡ return at
    → IsNotBefore requested at × IsNotBefore (policy_time decision) at
unfolding apply_work_admission_decision
admission_keeps_times t requested none at e = absurd (ground (arith, e))
admission_keeps_times t requested (some d) at e =
    kept t requested d at (str_eq d.decision "ALLOW") (str_eq d.decision "DELAY")
      (str_eq d.decision "THROTTLE") (str_eq d.decision "REJECT_OPTIONAL")
      (str_eq d.decision "REJECT_NEW_WORK") e
