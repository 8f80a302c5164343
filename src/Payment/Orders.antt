-- ===== src/Payment/Orders.antt =====
-- services/payment/internal/adapter/postgres/memory_repository.go: the cancellation of a stuck order,
-- the refund of a paid one, and the scans that find such orders. `now` is the time that the method
-- reads, and `rfc3339` stands for `time.Time.Format(time.RFC3339)`.
use even_flow.Prelude.{
  ℕ, ◌+◌, Bool, true, false, not, ◌&&◌, ◌||◌, Option, none, some, String, List, [], ◌∷◌, ◌++◌, leb,
  nat_eq, ◌==◌, string_Eq, nat_Eq, if◌then◌else◌,
}
use even_flow.Prelude.Int.{ℤ}
use even_flow.Prelude.Map.{Map, lookup, insert, find_entry, update_all, values}
use even_flow.Prelude.Sort.{sort_by, cap_at}
use even_flow.Prelude.Text.{text_Eq}
use even_flow.Payment.Types.{
  Provider, PaymentStatus, OrderStatus, str, Payment, OrderView, CancelOrderParams,
  CancelOrderResult, ProcessRefundParams, ProcessRefundResult, hold_released, payment_refunded,
  Error, order_not_found, order_not_refundable, Result, ok, err, is_payment_pending, is_refunded,
  is_refundable,
}
use even_flow.Payment.Store.{Store, OutboxEvent}

-- What a scan reports of an order, with its first payment if it has one: `StaleOrderInfo` and
-- `RefundOrderInfo`, whose provider is the empty text where there is no payment.
pub record OrderInfo : Type 0 where
  pub order : OrderView
  pub payment_id : String
  pub provider : Provider
  pub provider_txn_id : String

unfoldable pub order_info : Map String Payment → OrderView → OrderInfo
order_info payments order = elim (find_entry (λ p. p.order_id == order.id) payments) [
  | none ↦ record { order = order; payment_id = ""; provider = []; provider_txn_id = "" }
  | some (id, p) ↦ record {
    order = order;
    payment_id = p.id;
    provider = p.provider;
    provider_txn_id = p.provider_txn_id;
  }
]

-- The loop that collects the orders that pass a test.
unfoldable pub order_infos :
    (OrderView → Bool) → Map String Payment → List OrderView → List OrderInfo
order_infos test payments [] = []
order_infos test payments (o ∷ os) =
    let rest = order_infos test payments os in if test o then order_info payments o ∷ rest else rest

-- `!orderTime.After(now.Add(-olderThan))`, for an age that is not negative
unfoldable pub is_stuck : ℕ → ℕ → OrderView → Bool
is_stuck now older_than o =
    is_payment_pending o.status
    && leb ((if nat_eq o.updated_at 0 then o.created_at else o.updated_at) + older_than) now

unfoldable pub get_stale_pending_orders : ℕ → ℕ → ℤ → Store → List OrderInfo
unfolding order_infos
get_stale_pending_orders now older_than limit s = cap_at limit (
    sort_by (λ i. i.order.created_at)
      (order_infos (is_stuck now older_than) s.payments (values s.orders)))

unfoldable pub is_refund_due : String → OrderView → Bool
is_refund_due event_id o = o.event_id == event_id && is_refundable o.status

unfoldable pub get_paid_orders_by_event : String → ℤ → Store → List OrderInfo
unfolding order_infos
get_paid_orders_by_event event_id limit s = cap_at limit (
    sort_by (λ i. i.order.created_at)
      (order_infos (is_refund_due event_id) s.payments (values s.orders)))

-- `Status == "CANCELLED" || Status == "EXPIRED"`, and `Status == "PAID" || Status == "ISSUED"`: both
-- return the order as it is, marked as done.
abbrev pub is_cancellable : OrderStatus → Bool
is_cancellable OrderStatus.cancelled = false
is_cancellable OrderStatus.expired = false
is_cancellable OrderStatus.paid = false
is_cancellable OrderStatus.issued = false
is_cancellable _ = true

-- The `hold.released` event.
unfoldable pub released_event : ℕ → CancelOrderParams → OrderView → OutboxEvent
released_event now params order = record {
  aggregate_type = "order";
  aggregate_id = order.id;
  routing_key = "hold.released";
  payload = hold_released order.id order.event_id params.reason now;
  trace_id = params.trace_id;
  created_at = now;
}

-- The repository after a cancellation.
unfoldable pub cancelled_store : ℕ → CancelOrderParams → OrderView → Store → Store
unfolding released_event
cancelled_store now params order s = record s {
  orders = insert order.id (record order { status = OrderStatus.cancelled }) s.orders;
  payments =
      update_all (λ p. p.order_id == order.id) (λ p. record p { status = PaymentStatus.failed })
        s.payments;
  outbox = s.outbox ++ released_event now params order ∷ [];
}

cancel_order : ℕ → CancelOrderParams → OrderView → Store → Store × Result CancelOrderResult
cancel_order now params order s =
    if not (is_cancellable order.status)
    then (
      s,
      ok (record {
        order_id = order.id;
        already_done = true;
        holds_released = 0;
        tickets_returned = 0;
        status = order.status;
      }),
    )
    else (
      cancelled_store now params order s,
      ok (record {
        order_id = order.id;
        already_done = false;
        holds_released = 1;
        tickets_returned = 1;
        status = OrderStatus.cancelled;
      }),
    )

unfoldable pub process_order_cancellation_tx :
    ℕ → CancelOrderParams → Store → Store × Result CancelOrderResult
unfolding cancel_order
process_order_cancellation_tx now params s = elim (lookup params.order_id s.orders) [
  | none ↦ (s, err order_not_found)
  | some order ↦ cancel_order now params order s
]

unfoldable pub mark_order_refunding_tx : ℕ → String → Store → Store × Option Error
mark_order_refunding_tx now order_id s = elim (lookup order_id s.orders) [
  | none ↦ (s, some order_not_found)
  | some order ↦
      if is_refunded order.status
      then (s, none)
      else if not (is_refundable order.status)
      then (s, some order_not_refundable)
      else (
        record s {
          orders =
              insert order_id (record order { status = OrderStatus.refunding; updated_at = now })
                s.orders;
        },
        none,
      )
]

-- `p.OrderID == orderID || (paymentID != "" && p.ID == paymentID)`
unfoldable pub is_of_refund : String → String → Payment → Bool
is_of_refund order_id payment_id p =
    p.order_id == order_id || not (payment_id == "") && p.id == payment_id

-- The `payment.refunded` event.
unfoldable pub refunded_event : ℕ → ProcessRefundParams → OrderView → OutboxEvent
refunded_event now params order = record {
  aggregate_type = "payment";
  aggregate_id = order.id;
  routing_key = "payment.refunded";
  payload =
      payment_refunded order.id order.event_id order.identity_id params.payment_id params.provider
        params.refund_txn_id params.amount_cents order.currency params.reason now;
  trace_id = params.trace_id;
  created_at = now;
}

module _ (rfc3339 : ℕ → String) where
  -- The repository after a refund.
  unfoldable pub refunded_store : ℕ → ProcessRefundParams → OrderView → Store → Store
  unfolding refunded_event
  refunded_store now params order s = record s {
    orders =
        insert order.id (record order { status = OrderStatus.refunded; updated_at = now }) s.orders;
    payments =
        update_all (is_of_refund order.id params.payment_id)
          (λ p. record p {
            status = PaymentStatus.refunded;
            raw_payload = insert "refunded_at" (str (rfc3339 now)) (
                insert "refund_reason" (str params.reason)
                  (insert "refund_txn_id" (str params.refund_txn_id) p.raw_payload));
          })
          s.payments;
    outbox = s.outbox ++ refunded_event now params order ∷ [];
  }

  refund_order : ℕ → ProcessRefundParams → OrderView → Store → Store × Result ProcessRefundResult
  refund_order now params order s =
      if is_refunded order.status
      then (
        s,
        ok (record {
          order_id = order.id;
          payment_id = params.payment_id;
          already_done = true;
          tickets_refunded = 1;
          status = OrderStatus.refunded;
        }),
      )
      else (
        refunded_store now params order s,
        ok (record {
          order_id = order.id;
          payment_id = params.payment_id;
          already_done = false;
          tickets_refunded = 1;
          status = OrderStatus.refunded;
        }),
      )

  unfoldable pub process_refund_success_tx :
      ℕ → ProcessRefundParams → Store → Store × Result ProcessRefundResult
  unfolding refund_order
  process_refund_success_tx now params s = elim (lookup params.order_id s.orders) [
    | none ↦ (s, err order_not_found)
    | some order ↦ refund_order now params order s
  ]

  -- Never fails: an order with no payment is left alone.
  unfoldable pub process_refund_failed_tx : ℕ → String → String → String → Store → Store
  process_refund_failed_tx now order_id payment_id reason s = record s {
    payments =
        update_all (is_of_refund order_id payment_id)
          (λ p. record p {
            raw_payload =
                insert "refund_attempt_at" (str (rfc3339 now))
                  (insert "refund_last_error" (str reason) p.raw_payload);
          })
          s.payments;
  }
