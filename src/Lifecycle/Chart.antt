-- ===== src/Lifecycle/Chart.antt =====
-- The part of XState that the two trackers rely on, as a parameter: for a flat chart with no guards
-- and no actions, `can` says whether the state has a transition for the event, and `transition`
-- takes it. `send` is the trackers' own code.
use heptalogos.Prelude.{
  ◌≡◌, refl, ap, ◌∙◌, Bool, true, false, List, [], ◌∷◌, Option, none, some, is_some, inl, inr, ◌⊎◌,
  Option-cases,
}

abbrev pub Chart : Type 0 → Type 0 → Type 0
Chart S E = S → E → Option S

pub record Interpreter (S E : Type 0) : Type 0 where
  pub can : Chart S E → S → E → Bool
  pub transition : Chart S E → S → E → S
  pub can_lem : (c : Chart S E) (s : S) (e : E) → can c s e ≡ is_some (c s e)
  pub transition_lem : (c : Chart S E) (s t : S) (e : E) → c s e ≡ some t → transition c s e ≡ t

-- The value or the problem of a call.
pub data Sent (S : Type 0) : Type 0 where
  ok : S → Sent S
  invalid_transition : Sent S

-- The snapshot after a call, which a refusal leaves unassigned.
abbrev snapshot : {S : Type 0} → S → Sent S → S
snapshot s (ok t) = t
snapshot s invalid_transition = s

module _ {S E : Type 0} (x : Interpreter S E) (c : Chart S E) where
  -- `if (!snapshot.can(event)) throw invalidTransition(…); snapshot = transition(…)`
  unfoldable pub send : S → E → Sent S
  send s e = elim (x.can c s e) [ true ↦ ok (x.transition c s e) | false ↦ invalid_transition ]

  unfoldable pub after : S → E → S
  after s e = snapshot s (send s e)

  unfoldable pub run : S → List E → S
  run s [] = s
  run s (e ∷ es) = run (after s e) es

abbrev pub sent : {S : Type 0} → Option S → Sent S
sent none = invalid_transition
sent (some t) = ok t

module _ {S E : Type 0} (x : Interpreter S E) (c : Chart S E) where
  -- The tracker follows the chart: it takes the chart's transition or refuses.
  pub send-chart : (s : S) (e : E) → send x c s e ≡ sent (c s e)
  unfolding send
  send-chart s e = go (c s e) refl
    where
      go : (o : Option S) → c s e ≡ o → send x c s e ≡ sent o
      go none h = rw (x.can_lem c s e ∙ ap is_some h, send)
      go (some t) h = rw (x.can_lem c s e ∙ ap is_some h, send) (ap ok (x.transition_lem c s t e h))

  -- An event is taken along the chart, or changes nothing.
  pub after_cases :
      (s : S) (e : E)
      → ((c s e ≡ none) × (after x c s e ≡ s)) ⊎ ((t : S) × (c s e ≡ some t) × (after x c s e ≡ t))
  unfolding after
  after_cases s e = elim (Option-cases (c s e)) [
    | inl h ↦ inl (h, ap (snapshot s) (send-chart s e ∙ ap sent h))
    | inr (t, h) ↦ inr (t, h, ap (snapshot s) (send-chart s e ∙ ap sent h))
  ]

  -- What the chart's transitions keep, every run keeps.
  pub run_inv :
      (P : S → Type 0)
      → ((s t : S) (e : E) → P s → c s e ≡ some t → P t)
      → (s : S) (es : List E) → P s
      → P (run x c s es)
  unfolding run
  run_inv P keep s [] h = h
  run_inv P keep s (e ∷ es) h = run_inv P keep (after x c s e) es (elim (after_cases s e) [
    | inl (no_edge, same) ↦ rw same h
    | inr (t, edge, moved) ↦ rw moved (keep s t e h edge)
  ])
