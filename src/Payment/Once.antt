-- ===== src/Payment/Once.antt =====
-- At most one `order.paid` event for an order (BR-O6), over every history of the repository
-- (services/payment/internal/adapter/postgres/memory_repository.go), and what errors leave behind.
use even_flow.Prelude.{
  ℕ, ◌+◌, ◌≤◌, ◌≡◌, refl, inl, inr, Bool, true, false, ◌&&◌, ◌||◌, Option, none, some, String, List,
  [], ◌∷◌, ◌++◌, arith, ◌==◌, ==_iff, string_Eq, if◌then◌else◌, count_of, count_of-append,
  Bool-cases,
}
use even_flow.Prelude.Map.{lookup, insert, lookup-insert}
use even_flow.Payment.Types.{
  OrderStatus, OrderView, ProcessWebhookParams, CancelOrderParams, ProcessRefundParams, is_held,
  is_payment_pending,
}
use even_flow.Payment.Store.{
  Store, OutboxEvent, process_payment_failed_tx, mark_paid, paid_event, settle_payment,
}
use even_flow.Payment.Inbox.{
  save_payment_inbox, mark_payment_inbox_processed, increment_payment_inbox_attempts,
}
use even_flow.Payment.Orders.{
  process_refund_failed_tx, cancelled_store, refunded_store, released_event, refunded_event,
}
use even_flow.Payment.Cases.{
  create_cases, success_cases, cancel_cases, refunding_cases, refund_cases,
}
use even_flow.Payment.History.{
  Call, creates, succeeds, fails, saves, processes, increments, cancels, starts_refund, refunds,
  fails_refund, step, run,
}

abbrev pub is_paid_event : String → OutboxEvent → Bool
is_paid_event k ev = ev.routing_key == "order.paid" && ev.aggregate_id == k

-- How many `order.paid` events an outbox holds for an order.
abbrev pub paid_events : String → List OutboxEvent → ℕ
paid_events k = count_of (is_paid_event k)

-- 1 for an order that can still be paid.
abbrev pub payable : Option OrderView → ℕ
payable none = 0
payable (some o) = if is_held o.status || is_payment_pending o.status then 1 else 0

pub record Inv (s : Store) : Type 0 where
  pub keyed : (k : String) (o : OrderView) → lookup k s.orders ≡ some o → o.id ≡ k
  pub once : (k : String) → paid_events k s.outbox + payable (lookup k s.orders) ≤ 1

-- The orders and the outbox are all that the invariant reads.
Inv-same : (s s' : Store) → Inv s → s'.orders ≡ s.orders → s'.outbox ≡ s.outbox → Inv s'
Inv-same s s' v o b = record {
  keyed = λ k w h. v.keyed k w (rw (← o) h);
  once = λ k. rw (o, b) (v.once k);
}

-- One order is replaced, and events are added for that order only.
Inv-set :
    (s s' : Store) (k : String) (o o' : OrderView)
    → Inv s
    → lookup k s.orders ≡ some o
    → s'.orders ≡ insert k o' s.orders
    → o'.id ≡ k
    → ((j : String) → (k == j) ≡ false → paid_events j s'.outbox ≡ paid_events j s.outbox)
    → paid_events k s'.outbox + payable (some o') ≤ paid_events k s.outbox + payable (some o)
    → Inv s'
Inv-set s s' k o o' v h e i others here = record {
  keyed = λ j w l. elim (Bool-cases (k == j)) [
    | inl same ↦ ground (arith, lookup-insert k j o' s.orders, (==_iff k j).0 same)
    | inr other ↦ ground (arith, lookup-insert k j o' s.orders, v.keyed j w)
  ];
  once = λ j. elim (Bool-cases (k == j)) [
    | inl same ↦ ground (arith, lookup-insert k j o' s.orders, (==_iff k j).0 same, v.once k)
    | inr other ↦ ground (arith, lookup-insert k j o' s.orders, others j other, v.once j)
  ];
}

-- An event about order `k` does not count for another order.
paid_events-append_other :
    (j : String) (evs : List OutboxEvent) (ev : OutboxEvent)
    → is_paid_event j ev ≡ false
    → paid_events j (evs ++ ev ∷ []) ≡ paid_events j evs
paid_events-append_other j evs ev h =
    ground (arith, count_of-append (is_paid_event j) evs (ev ∷ []))

paid_events-append_le :
    (j : String) (evs : List OutboxEvent) (ev : OutboxEvent)
    → paid_events j (evs ++ ev ∷ []) ≤ paid_events j evs + 1
paid_events-append_le j evs ev = ground (arith, count_of-append (is_paid_event j) evs (ev ∷ []))

mark_paid-Inv :
    (now : ℕ) (params : ProcessWebhookParams) (k : String) (o : OrderView) (s : Store)
    → Inv s
    → lookup k s.orders ≡ some o
    → (is_held o.status || is_payment_pending o.status) ≡ true
    → Inv (mark_paid now params o s).0
unfolding mark_paid
mark_paid-Inv now params k o s v there u =
    Inv-set s _ k o (record o { status = OrderStatus.paid }) v there (rw id_is_k refl) id_is_k
      (λ j other. paid_events-append_other j s.outbox _ (rw id_is_k other))
      (ground (
        arith,
        paid_events-append_le k s.outbox
            (paid_event now params o (settle_payment now params o s.payments).0),
      ))
  where
    id_is_k : o.id ≡ k
    id_is_k = v.keyed k o there

payable_le : (o : Option OrderView) → 0 + payable o ≤ 1
payable_le none = omega arith
payable_le (some o) = ground arith

-- An event other than `order.paid` counts for no order.
quiet_event :
    (j : String) (evs : List OutboxEvent) (ev : OutboxEvent)
    → (ev.routing_key == "order.paid") ≡ false
    → paid_events j (evs ++ ev ∷ []) ≡ paid_events j evs
quiet_event j evs ev h = paid_events-append_other j evs ev (rw h)

cancelled-Inv :
    (now : ℕ) (params : CancelOrderParams) (k : String) (o : OrderView) (s : Store)
    → Inv s
    → lookup k s.orders ≡ some o
    → Inv (cancelled_store now params o s)
unfolding cancelled_store
cancelled-Inv now params k o s v there =
    Inv-set s _ k o (record o { status = OrderStatus.cancelled }) v there
      (rw (v.keyed k o there) refl) (v.keyed k o there)
      (λ j _. quiet_event j s.outbox (released_event now params o) refl)
      (ground (arith, quiet_event k s.outbox (released_event now params o) refl))

refunded-Inv :
    (rfc3339 : ℕ → String) (now : ℕ) (params : ProcessRefundParams) (k : String) (o : OrderView)
    (s : Store)
    → Inv s
    → lookup k s.orders ≡ some o
    → Inv (refunded_store rfc3339 now params o s)
unfolding refunded_store
refunded-Inv rfc3339 now params k o s v there =
    Inv-set s _ k o (record o { status = OrderStatus.refunded; updated_at = now }) v there
      (rw (v.keyed k o there) refl) (v.keyed k o there)
      (λ j _. quiet_event j s.outbox (refunded_event now params o) refl)
      (ground (arith, quiet_event k s.outbox (refunded_event now params o) refl))

-- The calls that leave the orders and the outbox alone.
abbrev pub is_quiet : Call → Bool
is_quiet (fails params) = true
is_quiet (saves item) = true
is_quiet (processes id t) = true
is_quiet (increments id) = true
is_quiet (fails_refund o p reason) = true
is_quiet _ = false

pub quiet_step :
    (rfc3339 : ℕ → String) (now : ℕ) (c : Call) (s : Store)
    → is_quiet c ≡ true
    → ((step rfc3339 now c s).0.orders ≡ s.orders) × ((step rfc3339 now c s).0.outbox ≡ s.outbox)
unfolding step process_payment_failed_tx save_payment_inbox mark_payment_inbox_processed
    increment_payment_inbox_attempts process_refund_failed_tx
quiet_step rfc3339 now (fails params) s q = (ground arith, ground arith)
quiet_step rfc3339 now (saves item) s q = (ground arith, ground arith)
quiet_step rfc3339 now (processes id t) s q = (ground arith, ground arith)
quiet_step rfc3339 now (increments id) s q = (ground arith, ground arith)
quiet_step rfc3339 now (fails_refund o p reason) s q = (refl, refl)
quiet_step rfc3339 now _ s q = cc

module _ (rfc3339 : ℕ → String) where
  quiet-Inv :
      (now : ℕ) (c : Call) (s : Store) → is_quiet c ≡ true → Inv s → Inv (step rfc3339 now c s).0
  quiet-Inv now c s q v =
      let same = quiet_step rfc3339 now c s q in Inv-same s (step rfc3339 now c s).0 v same.0 same.1

  pub step-Inv : (now : ℕ) (c : Call) (s : Store) → Inv s → Inv (step rfc3339 now c s).0
  unfolding step
  step-Inv now (creates p) s v = create_cases Inv p s v λ o there t.
      Inv-set s _ p.order_id o (record o { status = OrderStatus.payment_pending }) v there refl
        (v.keyed p.order_id o there) (λ j _. refl) (ground arith)
  step-Inv now (succeeds params) s v =
      success_cases Inv now params s v
        λ o there u. mark_paid-Inv now params params.order_id o s v there u
  step-Inv now (cancels params) s v =
      cancel_cases Inv now params s v
        λ o there t. cancelled-Inv now params params.order_id o s v there
  step-Inv now (starts_refund id) s v = refunding_cases Inv now id s v λ o there t.
      Inv-set s _ id o (record o { status = OrderStatus.refunding; updated_at = now }) v there refl
        (v.keyed id o there) (λ j _. refl) (ground arith)
  step-Inv now (refunds params) s v =
      refund_cases Inv rfc3339 now params s v
        λ o there t. refunded-Inv rfc3339 now params params.order_id o s v there
  step-Inv now (fails params) s v = quiet-Inv now (fails params) s refl v
  step-Inv now (saves item) s v = quiet-Inv now (saves item) s refl v
  step-Inv now (processes id t) s v = quiet-Inv now (processes id t) s refl v
  step-Inv now (increments id) s v = quiet-Inv now (increments id) s refl v
  step-Inv now (fails_refund o p reason) s v = quiet-Inv now (fails_refund o p reason) s refl v

  pub run-Inv : (cs : List (ℕ × Call)) (s : Store) → Inv s → Inv (run rfc3339 cs s)
  unfolding run
  run-Inv [] s v = v
  run-Inv ((now, c) ∷ cs) s v = run-Inv cs (step rfc3339 now c s).0 (step-Inv now c s v)

  -- From a repository whose orders stand under their own ids and whose outbox is empty, no history
  -- of calls publishes `order.paid` twice for one order.
  pub paid_at_most_once :
      (cs : List (ℕ × Call)) (s : Store) (k : String)
      → ((j : String) (o : OrderView) → lookup j s.orders ≡ some o → o.id ≡ j)
      → s.outbox ≡ []
      → paid_events k (run rfc3339 cs s).outbox ≤ 1
  paid_at_most_once cs s k ids empty = omega (arith, (run-Inv cs s start).once k)
    where
      start : Inv s
      start = record { keyed = ids; once = λ j. rw empty (payable_le (lookup j s.orders)) }
