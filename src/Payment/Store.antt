-- ===== src/Payment/Store.antt =====
-- services/payment/internal/adapter/postgres/memory_repository.go: the repository that the service
-- runs on locally. Each method takes the lock, so it is one step on the state. A `range` loop visits
-- a map in the order of its list; the theorems hold for every list, so for every order of Go's.
-- `now` is the time that the method reads, from the system clock or the injected one.
use Prim.Native.String.{◌++◌ as join}
use even_flow.Prelude.{
  ℕ, Bool, true, false, not, ◌&&◌, ◌||◌, Option, none, some, String, List, [], ◌∷◌, ◌++◌, ◌==◌,
  string_Eq, nat_Eq, if◌then◌else◌,
}
use even_flow.Prelude.Map.{Map, lookup, insert, find_entry}
use even_flow.Prelude.Text.{text_Eq}
use even_flow.Payment.Types.{
  PaymentStatus, OrderStatus, Payment, OrderView, PaymentInboxItem, WebhookProcessResult,
  ProcessWebhookParams, OutboxPayload, order_paid, Error, order_not_found, order_not_held,
  not_found, Result, ok, err, is_succeeded, is_held, is_payment_pending, is_paid,
}

pub record OutboxEvent : Type 0 where
  pub aggregate_type : String
  pub aggregate_id : String
  pub routing_key : String
  pub payload : OutboxPayload
  pub trace_id : String
  pub created_at : ℕ

pub record Store : Type 0 where
  pub orders : Map String OrderView
  pub payments : Map String Payment
  pub outbox : List OutboxEvent
  pub inbox : Map ℕ PaymentInboxItem
  pub next_inbox_id : ℕ

unfoldable pub new_memory_repository : Store
new_memory_repository = record {
  orders = [];
  payments = [];
  outbox = [];
  inbox = [];
  next_inbox_id = 0;
}

unfoldable pub seed_order : OrderView → Store → Store
seed_order order s = record s { orders = insert order.id order s.orders }

unfoldable pub seed_payment : Payment → Store → Store
seed_payment payment s = record s { payments = insert payment.id payment s.payments }

abbrev or_fail {ℓ} : {A : Type ℓ} → Option A → Error → Result A
or_fail none e = err e
or_fail (some a) e = ok a

unfoldable pub get_order : String → Store → Result OrderView
get_order order_id s = or_fail (lookup order_id s.orders) order_not_found

unfoldable pub get_payment : String → Store → Result Payment
get_payment payment_id s = or_fail (lookup payment_id s.payments) not_found

unfoldable pub get_payment_by_order : String → Store → Result Payment
get_payment_by_order order_id s = elim (find_entry (λ p. p.order_id == order_id) s.payments) [
  | none ↦ err not_found
  | some (id, p) ↦ ok p
]

unfoldable pub create_payment_and_mark_pending : Payment → Store → Store × Option Error
create_payment_and_mark_pending p s = elim (lookup p.order_id s.orders) [
  | none ↦ (s, some order_not_found)
  | some order ↦ if not (is_held order.status) then (s, some order_not_held) else (
    record s {
      orders = insert p.order_id (record order { status = OrderStatus.payment_pending }) s.orders;
      payments = insert p.id p s.payments;
    },
    none,
  )
]

-- The payment that already records this transaction as succeeded.
unfoldable pub is_recorded : ProcessWebhookParams → Payment → Bool
is_recorded params p =
    p.provider == params.provider
    && p.provider_txn_id == params.provider_txn_id
    && is_succeeded p.status

already_recorded : Payment → WebhookProcessResult
already_recorded p = record {
  success = true;
  already_done = true;
  stored_in_inbox = false;
  order_id = p.order_id;
  payment_id = p.id;
  provider_txn_id = p.provider_txn_id;
  status = PaymentStatus.succeeded;
  message = "giao dich da duoc ghi nhan thanh cong truoc do (idempotent)";
}

already_paid : ProcessWebhookParams → OrderView → WebhookProcessResult
already_paid params order = record {
  success = true;
  already_done = true;
  stored_in_inbox = false;
  order_id = order.id;
  payment_id = params.payment_id;
  provider_txn_id = params.provider_txn_id;
  status = PaymentStatus.succeeded;
  message = "don hang da o trang thai PAID truoc do";
}

-- Step 4 of `ProcessPaymentSuccessTx`: the first payment of the order is completed, or one is made.
unfoldable pub settle_payment :
    ℕ → ProcessWebhookParams → OrderView → Map String Payment → String × Map String Payment
settle_payment now params order payments =
    elim (find_entry (λ p. p.order_id == order.id) payments) [
      | some (id, p) ↦ (
        id,
        insert id
            (record p {
              status = PaymentStatus.succeeded;
              provider_txn_id = params.provider_txn_id;
              raw_payload = params.raw_payload;
            })
            payments,
      )
      | none ↦
          let payment_id =
            if params.payment_id == ""
            then join "pay-" params.provider_txn_id
            else params.payment_id in
          (
            payment_id,
            insert payment_id
                (record {
                  id = payment_id;
                  order_id = order.id;
                  provider = params.provider;
                  provider_txn_id = params.provider_txn_id;
                  amount_cents = order.total_cents;
                  currency = order.currency;
                  status = PaymentStatus.succeeded;
                  raw_payload = params.raw_payload;
                  created_at = now;
                })
                payments,
          )
    ]

-- The `order.paid` event of step 5.
unfoldable pub paid_event : ℕ → ProcessWebhookParams → OrderView → String → OutboxEvent
paid_event now params order payment_id = record {
  aggregate_type = "order";
  aggregate_id = order.id;
  routing_key = "order.paid";
  payload =
      order_paid order.id order.event_id order.identity_id payment_id params.provider
        params.provider_txn_id order.total_cents order.currency now;
  trace_id = params.trace_id;
  created_at = now;
}

-- Steps 3 to 5 of `ProcessPaymentSuccessTx`.
unfoldable pub mark_paid :
    ℕ → ProcessWebhookParams → OrderView → Store → Store × Result WebhookProcessResult
unfolding paid_event
mark_paid now params order s =
    let settled = settle_payment now params order s.payments in
    (
      record s {
        orders = insert order.id (record order { status = OrderStatus.paid }) s.orders;
        payments = settled.1;
        outbox = s.outbox ++ paid_event now params order settled.0 ∷ [];
      },
      ok (record {
        success = true;
        already_done = false;
        stored_in_inbox = false;
        order_id = order.id;
        payment_id = settled.0;
        provider_txn_id = params.provider_txn_id;
        status = PaymentStatus.succeeded;
        message = "thanh toan thanh cong, don da sang PAID va ghi outbox";
      }),
    )

-- Step 2: the order's status decides.
unfoldable pub pay_order :
    ℕ → ProcessWebhookParams → OrderView → Store → Store × Result WebhookProcessResult
unfolding already_paid
pay_order now params order s =
    if is_paid order.status
    then (s, ok (already_paid params order))
    else if not (is_held order.status || is_payment_pending order.status)
    then (s, err order_not_held)
    else mark_paid now params order s

unfoldable pub process_payment_success_tx :
    ℕ → ProcessWebhookParams → Store → Store × Result WebhookProcessResult
unfolding already_recorded
process_payment_success_tx now params s = elim (find_entry (is_recorded params) s.payments) [
  | some (id, p) ↦ (s, ok (already_recorded p))
  | none ↦ elim (lookup params.order_id s.orders) [
    | none ↦ (s, err order_not_found)
    | some order ↦ pay_order now params order s
  ]
]

failed_result : String → String → ProcessWebhookParams → WebhookProcessResult
failed_result order_id payment_id params = record {
  success = false;
  already_done = false;
  stored_in_inbox = false;
  order_id = order_id;
  payment_id = payment_id;
  provider_txn_id = params.provider_txn_id;
  status = PaymentStatus.failed;
  message = "da ghi nhan thanh toan that bai";
}

unfoldable pub is_concerned : ProcessWebhookParams → Payment → Bool
is_concerned params p =
    p.order_id == params.order_id
    || p.provider == params.provider && p.provider_txn_id == params.provider_txn_id

unfoldable pub process_payment_failed_tx :
    ℕ → ProcessWebhookParams → Store → Store × Result WebhookProcessResult
unfolding failed_result
process_payment_failed_tx now params s = elim (find_entry (is_concerned params) s.payments) [
  | some (id, p) ↦ (
    record s {
      payments =
          insert id (record p { status = PaymentStatus.failed; raw_payload = params.raw_payload })
            s.payments;
    },
    ok (failed_result p.order_id p.id params),
  )
  | none ↦
      let payment_id =
        if params.payment_id == ""
        then join "pay-fail-" params.provider_txn_id
        else params.payment_id in
      (
        record s {
          payments =
              insert payment_id
                (record {
                  id = payment_id;
                  order_id = params.order_id;
                  provider = params.provider;
                  provider_txn_id = params.provider_txn_id;
                  amount_cents = params.amount_cents;
                  currency = params.currency;
                  status = PaymentStatus.failed;
                  raw_payload = params.raw_payload;
                  created_at = now;
                })
                s.payments;
        },
        ok (failed_result params.order_id payment_id params),
      )
]
