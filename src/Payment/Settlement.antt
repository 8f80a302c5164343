-- ===== src/Payment/Settlement.antt =====
-- What a payment webhook does to the repository (services/payment/internal/adapter/postgres/
-- memory_repository.go): repeated webhooks, the amount that a webhook reports, and failures.
use even_flow.Prelude.{
  ℕ, ◌≡◌, refl, ◌⊎◌, inl, inr, Bool, true, false, not, ◌&&◌, some, String, [], ◌∷◌, ◌++◌, arith,
  string_Eq, Option-cases,
}
use even_flow.Prelude.Int.{ℤ}
use even_flow.Prelude.Map.{lookup, insert, find_entry, lookup-insert_self}
use even_flow.Payment.Types.{
  PaymentStatus, OrderStatus, OrderView, Payment, ProcessWebhookParams, WebhookProcessResult,
  Result, ok, err,
}
use even_flow.Payment.Store.{
  Store, process_payment_success_tx, process_payment_failed_tx, is_recorded, pay_order, mark_paid,
  settle_payment, is_concerned, paid_event,
}

-- Whether a webhook was found to be done before.
abbrev pub is_done : Result WebhookProcessResult → Bool
is_done (ok w) = w.already_done
is_done (err e) = false

-- Whether a webhook was applied.
abbrev pub is_applied : Result WebhookProcessResult → Bool
is_applied (ok w) = w.success && not w.already_done
is_applied (err e) = false

-- An order that is paid absorbs every webhook about it.
pub paid_absorbs :
    (now : ℕ) (params : ProcessWebhookParams) (s : Store) {o : OrderView}
    → lookup params.order_id s.orders ≡ some o
    → o.status ≡ OrderStatus.paid
    → let r = process_payment_success_tx now params s in (r.0 ≡ s) × (is_done r.1 ≡ true)
unfolding process_payment_success_tx pay_order
paid_absorbs now params s h p = (ground arith, ground arith)

-- An applied webhook leaves the order paid.
pub applied_pays :
    (now : ℕ) (params : ProcessWebhookParams) (s : Store)
    → ((k : String) (o : OrderView) → lookup k s.orders ≡ some o → o.id ≡ k)
    → is_applied (process_payment_success_tx now params s).1 ≡ true
    → (o : OrderView) × (lookup params.order_id (process_payment_success_tx now params s).0.orders
        ≡ some o)
      × (o.status ≡ OrderStatus.paid)
unfolding process_payment_success_tx pay_order mark_paid
applied_pays now params s ids h = elim (Option-cases (lookup params.order_id s.orders)) [
  | inl missing ↦ ground arith
  | inr (o, there) ↦ (
    record o { status = OrderStatus.paid },
    ground (
      arith,
      ids params.order_id o there,
      lookup-insert_self params.order_id (record o { status = OrderStatus.paid }) s.orders,
    ),
    refl,
  )
]

-- What the first application does: the order is paid, the others are as they were, and one event is
-- added, about this order and for the order's total.
applied_effect :
    (now : ℕ) (params : ProcessWebhookParams) (s : Store)
    → is_applied (process_payment_success_tx now params s).1 ≡ true
    → (o : OrderView) × (payment_id : String) × (lookup params.order_id s.orders ≡ some o)
      × ((o.status ≡ OrderStatus.held) ⊎ (o.status ≡ OrderStatus.payment_pending))
      × ((process_payment_success_tx now params s).0.orders
          ≡ insert o.id (record o { status = OrderStatus.paid }) s.orders)
      × ((process_payment_success_tx now params s).0.outbox
          ≡ s.outbox ++ paid_event now params o payment_id ∷ [])
      × ((process_payment_success_tx now params s).0.inbox ≡ s.inbox)
unfolding process_payment_success_tx pay_order mark_paid
applied_effect now params s h = elim (Option-cases (lookup params.order_id s.orders)) [
  | inl missing ↦ ground arith
  | inr (o, there) ↦ (
    o,
    (settle_payment now params o s.payments).0,
    there,
    ground arith,
    ground arith,
    ground arith,
    ground arith,
  )
]

-- The amount that the webhook reports has no effect: the order is paid whatever was paid for it.
amount_ignored :
    (now : ℕ) (params : ProcessWebhookParams) (a : ℤ) (s : Store)
    → process_payment_success_tx now (record params { amount_cents = a }) s
      ≡ process_payment_success_tx now params s
unfolding process_payment_success_tx pay_order mark_paid settle_payment is_recorded
amount_ignored now params a s = refl

-- A failure reported for a paid order whose first payment is found marks that payment as failed,
-- also when it had succeeded; the order stays paid, and a repeated success webhook leaves it so.
pub late_failure :
    (now later : ℕ) (params params' : ProcessWebhookParams) (s : Store) {o : OrderView}
    {id : String} {p : Payment}
    → lookup params.order_id s.orders ≡ some o
    → o.status ≡ OrderStatus.paid
    → find_entry (is_concerned params) s.payments ≡ some (id, p)
    → params'.order_id ≡ params.order_id
    → let s' = (process_payment_failed_tx now params s).0 in
      (lookup params.order_id s'.orders ≡ some o)
      × (lookup id s'.payments
          ≡ some (record p { status = PaymentStatus.failed; raw_payload = params.raw_payload }))
      × ((process_payment_success_tx later params' s').0 ≡ s')
unfolding process_payment_failed_tx
late_failure now later params params' s {o} {id} {p} there paid found same = (
  ground arith,
  ground (
    arith,
    lookup-insert_self id
        (record p { status = PaymentStatus.failed; raw_payload = params.raw_payload }) s.payments,
  ),
  (paid_absorbs later params' (process_payment_failed_tx now params s).0 {o = o}
      (rw same (ground arith)) paid).0,
)
