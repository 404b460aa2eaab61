-- ===== src/WorkQueue/History.antt =====
-- packages/execution/work-queue/src/repository.ts: what holds of a row over any history of calls.
use text.Mathlib.Text.{◌==◌ as str_eq}
use heptalogos.Prelude.{
  ◌≤◌, ◌<◌, ◌≡◌, ◌≢◌, refl, ap, subst, ◌∙◌, true, false, ◌⊎◌, inl, inr, List, [], ◌∷◌, Option, some,
  arith, is_some, Bool-cases, String, All, find, some_inj,
}
use heptalogos.WorkQueue.Item.{
  WorkItemState, WorkItemState-discrete, pending, is_terminal, WorkItem, WorkSpec,
}
use heptalogos.WorkQueue.Store.{Table, MutationAppliedHook}
use heptalogos.WorkQueue.Mutations.{Mutation, IsTyped, mutate, run_history}
use heptalogos.WorkQueue.Lifecycle.{
  ◌⟶◌, claim, park, wake, due, delay, back_off, record_intent, finish, RowStep, Rowwise,
  mutate-RowStep, Rowwise-refl,
}

-- What a row may have become after any number of steps.
pub record Later (w v : WorkItem) : Type 0 where
  pub same_spec : v.spec ≡ w.spec
  pub revision_grows : w.dispatch_revision ≤ v.dispatch_revision
  pub terminal_kept : is_terminal w.state ≡ true → v ≡ w
  pub cancel_kept : is_some w.cancel_requested_at ≡ true → is_some v.cancel_requested_at ≡ true
  pub cancel_wins :
      is_some w.cancel_requested_at ≡ true
      → (v.state ≡ w.state) ⊎ (v.state ≡ WorkItemState.cancelled)
  pub pending_renewed :
      w.state ≢ pending → v.state ≡ pending → w.dispatch_revision < v.dispatch_revision

edge_live : {s t : WorkItemState} → s ⟶ t → is_terminal s ≡ false
edge_live claim = refl
edge_live park = refl
edge_live wake = refl
edge_live due = refl
edge_live delay = refl
edge_live back_off = refl
edge_live (record_intent h) = h
edge_live (finish h k) = h

Later-refl : (w : WorkItem) → Later w w
Later-refl w = ground arith

RowStep-Later : (w v : WorkItem) → RowStep w v → Later w v
RowStep-Later w v s = record {
  same_spec = s.same_spec;
  revision_grows = ground arith;
  terminal_kept = λ h. cc (h, edge_live s.edge);
  cancel_kept = s.cancel_kept;
  cancel_wins = s.cancel_wins;
  pending_renewed = ground arith;
}

pending_or_not : (s : WorkItemState) → (s ≡ pending) ⊎ (s ≢ pending)
pending_or_not s = elim (WorkItemState-discrete s pending) [ yes e ↦ inl e | no n ↦ inr n ]

Later-trans : (w v u : WorkItem) → Later w v → Later v u → Later w u
Later-trans w v u a b = record {
  same_spec = b.same_spec ∙ a.same_spec;
  revision_grows = omega (arith, a.revision_grows, b.revision_grows);
  terminal_kept =
      λ h. let e = a.terminal_kept h in b.terminal_kept (ap (λ x. is_terminal x.state) e ∙ h) ∙ e;
  cancel_kept = λ h. b.cancel_kept (a.cancel_kept h);
  cancel_wins =
      λ h. ground (arith, a.cancel_kept h, a.cancel_wins h, b.cancel_wins (a.cancel_kept h));
  pending_renewed = λ h k. elim (pending_or_not v.state) [
    | inl p ↦ omega (arith, a.pending_renewed h p, b.revision_grows)
    | inr n ↦ omega (arith, b.pending_renewed n k, a.revision_grows)
  ];
}

Rowwise-map :
    (R S : WorkItem → WorkItem → Type 0)
    → ((w v : WorkItem) → R w v → S w v)
    → (t u : Table) → Rowwise R t u
    → Rowwise S t u
Rowwise-map R S f [] [] h = tt
Rowwise-map R S f [] (v ∷ u) h = absurd h
Rowwise-map R S f (w ∷ t) [] h = absurd h
Rowwise-map R S f (w ∷ t) (v ∷ u) h = (f w v h.0, Rowwise-map R S f t u h.1)

Rowwise-Later-trans : (s t u : Table) → Rowwise Later s t → Rowwise Later t u → Rowwise Later s u
Rowwise-Later-trans [] [] [] h k = tt
Rowwise-Later-trans [] [] (x ∷ u) h k = absurd k
Rowwise-Later-trans [] (v ∷ t) u h k = absurd h
Rowwise-Later-trans (w ∷ s) [] u h k = absurd h
Rowwise-Later-trans (w ∷ s) (v ∷ t) [] h k = absurd k
Rowwise-Later-trans (w ∷ s) (v ∷ t) (x ∷ u) h k =
    (Later-trans w v x h.0 k.0, Rowwise-Later-trans s t u h.1 k.1)

pub mutate-Later :
    (m : Mutation) (hook : MutationAppliedHook) (t : Table)
    → IsTyped m
    → Rowwise Later t (mutate m hook t).0
mutate-Later m hook t h =
    Rowwise-map (λ w v. (v ≡ w) ⊎ RowStep w v) Later
      (λ w v c. elim c [ inl e ↦ rw e (Later-refl w) | inr s ↦ RowStep-Later w v s ]) t _
      (mutate-RowStep m hook t h)

abbrev pub History : Type 0
History = List (Mutation × MutationAppliedHook)

abbrev pub AllTyped : History → Type 0
AllTyped = All (λ c. IsTyped c.0)

-- A history of calls takes every row to a later version of itself.
pub run_history-Later :
    (ms : History) (t : Table) → AllTyped ms → Rowwise Later t (run_history ms t)
unfolding run_history
run_history-Later [] t h = Rowwise-refl Later Later-refl t
run_history-Later ((m, hook) ∷ ms) t h =
    Rowwise-Later-trans t _ _ (mutate-Later m hook t h.0) (run_history-Later ms _ h.1)

abbrev pub row_of : String → Table → Option WorkItem
row_of id t = find (λ w. str_eq w.work_item_id id) t

-- The row of an identity in a later table is a later version of its row before.
pub Later-row_of :
    (id : String) (t u : Table) {w : WorkItem}
    → Rowwise Later t u
    → row_of id t ≡ some w
    → (v : WorkItem) × (row_of id u ≡ some v) × Later w v
Later-row_of id [] u h e = cc
Later-row_of id (x ∷ t) [] h e = absurd h
Later-row_of id (x ∷ t) (y ∷ u) {w} h e = elim (Bool-cases (str_eq x.work_item_id id)) [
  | inl hit ↦
      (y, rw (same_id h.0 ∙ hit, find), subst (λ z. Later z y) (some_inj (rw (hit, find) at e)) h.0)
  | inr miss ↦
      let (v, p, q) = Later-row_of id t u h.1 (rw (miss, find) at e) in
      (v, rw (same_id h.0 ∙ miss, find) p, q)
]
  where
    same_id : Later x y → str_eq y.work_item_id id ≡ str_eq x.work_item_id id
    same_id l = ap (λ (s : WorkSpec). str_eq s.work_item_id id) l.same_spec

-- A terminal row is final: over every history of calls, the row of its identity stays as it is.
pub history-terminal :
    (ms : History) (t : Table) (id : String) {w : WorkItem}
    → AllTyped ms
    → row_of id t ≡ some w
    → is_terminal w.state ≡ true
    → row_of id (run_history ms t) ≡ some w
history-terminal ms t id h e k =
    let (v, p, l) = Later-row_of id t _ (run_history-Later ms t h) e in
    p ∙ ap some (l.terminal_kept k)

-- A recorded cancellation wins: over every history, the row stays in its state or is CANCELLED, and
-- its request stays recorded.
pub history-cancel_wins :
    (ms : History) (t : Table) (id : String) {w : WorkItem}
    → AllTyped ms
    → row_of id t ≡ some w
    → is_some w.cancel_requested_at ≡ true
    → (v : WorkItem) × (row_of id (run_history ms t) ≡ some v)
      × (is_some v.cancel_requested_at ≡ true)
      × ((v.state ≡ w.state) ⊎ (v.state ≡ WorkItemState.cancelled))
history-cancel_wins ms t id h e k =
    let (v, p, l) = Later-row_of id t _ (run_history-Later ms t h) e in
    (v, p, l.cancel_kept k, l.cancel_wins k)
