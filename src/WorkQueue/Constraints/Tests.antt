-- ===== src/WorkQueue/Constraints/Tests.antt =====
-- Concrete texts against the constraints on reason codes and keys.
use heptalogos.Prelude.{◌≡◌, refl, true, false, some}
use heptalogos.WorkQueue.Constraints.{is_blank, is_key, is_reason}

blank_refused : is_reason (some "   ") ≡ false
unfolding is_reason is_blank
blank_refused = refl

empty_refused : is_key (some "") ≡ false
unfolding is_key
empty_refused = refl

word_admitted : is_reason (some " busy ") ≡ true
unfolding is_reason is_blank
word_admitted = refl
