-- ===== src/Event/Lifecycle.antt =====
-- The life of an event (services/event/internal/domain/event.go): the edges that its methods follow,
-- what an error leaves behind, and what a finished event still accepts.
use even_flow.Prelude.{ℕ, ◌≡◌, refl, ◌≢◌, true, false, none, some, List, [], ◌∷◌, arith}
use even_flow.Prelude.Text.{Unicode}
use even_flow.Event.Tier.{Error}
use even_flow.Event.Aggregate.{
  EventStatus, draft, pending_review, scheduled, on_sale, sold_out, closed, completed, rejected,
  cancelled, Event, Call, updates_details, adds_tier, updates_tier_quota, submits, approves,
  overrides, opens, rejects, sells_out, closes, completes, cancels, is_terminal, step, run,
  update_details, add_tier, update_tier_quota, submit_for_review, approve, approve_override, reject,
  open_sale, mark_sold_out, close_sale, complete, cancel,
}

infix 40 ◌⟶◌
pub data ◌⟶◌ : EventStatus → EventStatus → Type 0 where
  stay : (s : EventStatus) → s ⟶ s
  submit : draft ⟶ pending_review
  resubmit : rejected ⟶ pending_review
  accept : pending_review ⟶ scheduled
  overturn : rejected ⟶ scheduled
  refuse : pending_review ⟶ rejected
  open_up : scheduled ⟶ on_sale
  sell_out : on_sale ⟶ sold_out
  restock : sold_out ⟶ on_sale
  end_sale : on_sale ⟶ closed
  end_sold_out : sold_out ⟶ closed
  finish : closed ⟶ completed
  finish_sold_out : sold_out ⟶ completed
  call_off : (s : EventStatus) → is_terminal s ≡ false → s ⟶ cancelled

ruleset edges = (
  stay, submit, resubmit, accept, overturn, refuse, open_up, sell_out, restock, end_sale,
  end_sold_out, finish, finish_sold_out, call_off,
)

module _ (u : Unicode) (lead : ℕ) where
  -- Every call, with whatever result, follows an edge of the diagram.
  pub step-⟶ : (clock : ℕ) (c : Call) (e : Event) → e.status ⟶ (step u lead clock c e).0.status
  unfolding step update_details add_tier update_tier_quota submit_for_review approve
      approve_override reject open_sale mark_sold_out close_sale complete cancel
  step-⟶ clock (updates_details d) e = grind (arith, edges)
  step-⟶ clock (adds_tier t) e = grind (arith, edges)
  step-⟶ clock (updates_tier_quota i q) e = grind (arith, edges)
  step-⟶ clock submits e = grind (arith, edges)
  step-⟶ clock (approves now) e = grind (arith, edges)
  step-⟶ clock (overrides now) e = grind (arith, edges)
  step-⟶ clock (opens now) e = grind (arith, edges)
  step-⟶ clock rejects e = grind (arith, edges)
  step-⟶ clock sells_out e = grind (arith, edges)
  step-⟶ clock closes e = grind (arith, edges)
  step-⟶ clock completes e = grind (arith, edges)
  step-⟶ clock cancels e = grind (arith, edges)

  -- A call that returns an error leaves the event as it was.
  step_error_unchanged :
      (clock : ℕ) (c : Call) (e : Event) {x : Error}
      → (step u lead clock c e).1 ≡ some x
      → (step u lead clock c e).0 ≡ e
  unfolding step update_details add_tier update_tier_quota submit_for_review approve
      approve_override reject open_sale mark_sold_out close_sale complete cancel
  step_error_unchanged clock (updates_details d) e h = ground arith
  step_error_unchanged clock (adds_tier t) e h = ground arith
  step_error_unchanged clock (updates_tier_quota i q) e h = ground arith
  step_error_unchanged clock submits e h = ground arith
  step_error_unchanged clock (approves now) e h = ground arith
  step_error_unchanged clock (overrides now) e h = ground arith
  step_error_unchanged clock (opens now) e h = ground arith
  step_error_unchanged clock rejects e h = ground arith
  step_error_unchanged clock sells_out e h = ground arith
  step_error_unchanged clock closes e h = ground arith
  step_error_unchanged clock completes e h = ground arith
  step_error_unchanged clock cancels e h = ground arith

  step-IsTerminal :
      (clock : ℕ) (c : Call) (e : Event)
      → is_terminal e.status ≡ true
      → ((step u lead clock c e).0 ≡ e) × ((step u lead clock c e).1 ≢ none)
  unfolding step update_details add_tier update_tier_quota submit_for_review approve
      approve_override reject open_sale mark_sold_out close_sale complete cancel
  step-IsTerminal clock (updates_details d) e h = (ground arith, ground arith)
  step-IsTerminal clock (adds_tier t) e h = (ground arith, ground arith)
  step-IsTerminal clock (updates_tier_quota i q) e h = (ground arith, ground arith)
  step-IsTerminal clock submits e h = (ground arith, ground arith)
  step-IsTerminal clock (approves now) e h = (ground arith, ground arith)
  step-IsTerminal clock (overrides now) e h = (ground arith, ground arith)
  step-IsTerminal clock (opens now) e h = (ground arith, ground arith)
  step-IsTerminal clock rejects e h = (ground arith, ground arith)
  step-IsTerminal clock sells_out e h = (ground arith, ground arith)
  step-IsTerminal clock closes e h = (ground arith, ground arith)
  step-IsTerminal clock completes e h = (ground arith, ground arith)
  step-IsTerminal clock cancels e h = (ground arith, ground arith)

  -- A completed or cancelled event is the same after any history of calls.
  terminal_absorbs :
      (cs : List (ℕ × Call)) (e : Event) → is_terminal e.status ≡ true → run u lead cs e ≡ e
  unfolding run
  terminal_absorbs [] e h = refl
  terminal_absorbs ((clock, c) ∷ cs) e h =
      rw ((step-IsTerminal clock c e h).0) (terminal_absorbs cs e h)
