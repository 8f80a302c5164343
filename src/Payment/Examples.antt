-- ===== src/Payment/Examples.antt =====
-- The theorems about the payment repository at concrete inputs, and runs of its calls.
use even_flow.Prelude.{
  ℕ, ◌+◌, ◌≤◌, ◌≡◌, refl, inl, inr, true, Option, none, some, String, List, [], ◌∷◌, arith, ◌==◌,
  ==_iff, string_Eq, Bool-cases,
}
use even_flow.Prelude.Int.{pos}
use even_flow.Prelude.Map.{lookup, insert, find_entry, update_all}
use even_flow.Payment.Types.{
  CancelOrderParams, PaymentStatus, OrderStatus, OrderView, Payment, ProcessWebhookParams,
  CancelOrderParams, ProcessRefundParams, order_not_found, stripe,
}
use even_flow.Payment.Store.{
  Store, process_payment_success_tx, process_payment_failed_tx, is_recorded, is_concerned,
  pay_order, mark_paid, settle_payment, create_payment_and_mark_pending,
}
use even_flow.Payment.Orders.{process_refund_success_tx, refunded_store}
use even_flow.Payment.History.{Call, creates, succeeds, fails, cancels, refunds, step, run}
use even_flow.Payment.Once.{Inv, paid_events, paid_at_most_once, payable}
use even_flow.Payment.Repeated.{applied_once}
use even_flow.Payment.Settlement.{is_done, is_applied, late_failure}
use even_flow.Payment.Lifecycle.{Moves, call_error_unchanged, order_follows_edges}

abbrev stamp : ℕ → String
stamp t = "2026-01-01T00:00:00Z"

abbrev order_in : OrderStatus → OrderView
order_in s = record {
  id = "o1";
  event_id = "e1";
  identity_id = "u1";
  status = s;
  total_cents = pos 500;
  currency = "VND";
  expires_at = 600;
  created_at = 1;
  updated_at = 1;
}

abbrev payment_in : PaymentStatus → Payment
payment_in s = record {
  id = "p1";
  order_id = "o1";
  provider = stripe;
  provider_txn_id = "t1";
  amount_cents = pos 500;
  currency = "VND";
  status = s;
  raw_payload = [];
  created_at = 2;
}

abbrev store_of : OrderStatus → List (String × Payment) → Store
store_of s payments = record {
  orders = ("o1", order_in s) ∷ [];
  payments = payments;
  outbox = [];
  inbox = [];
  next_inbox_id = 0;
}

abbrev held_store : Store
held_store = store_of OrderStatus.held []

abbrev webhook : ProcessWebhookParams
webhook = record {
  provider = stripe;
  provider_txn_id = "t1";
  order_id = "o1";
  payment_id = "";
  amount_cents = pos 500;
  currency = "VND";
  status = PaymentStatus.succeeded;
  raw_payload = [];
  trace_id = "x";
  timestamp = 5;
}

abbrev refund_params : ProcessRefundParams
refund_params = record {
  order_id = "o1";
  payment_id = "p1";
  provider = stripe;
  refund_txn_id = "r1";
  amount_cents = pos 500;
  reason = "cancelled";
  trace_id = "x";
  timestamp = 9;
}

abbrev cancel_params : CancelOrderParams
cancel_params = record { order_id = "o1"; trace_id = "x"; reason = "stuck"; payment_id = "" }

-- The orders of a store with one order stand under their ids.
one_order-keyed :
    (s : OrderStatus) (k : String) (o : OrderView)
    → lookup k (("o1", order_in s) ∷ []) ≡ some o
    → o.id ≡ k
unfolding lookup
one_order-keyed s k o h = elim (Bool-cases ("o1" == k)) [
  | inl same ↦ ground (arith, (==_iff "o1" k).0 same)
  | inr other ↦ ground arith
]

one_order-Inv : (s : OrderStatus) (ps : List (String × Payment)) → Inv (store_of s ps)
one_order-Inv s ps = record {
  keyed = one_order-keyed s;
  once = λ k. payable_le_one (lookup k (("o1", order_in s) ∷ []));
}
  where
    payable_le_one : (o : Option OrderView) → 0 + payable o ≤ 1
    payable_le_one none = omega arith
    payable_le_one (some o) = ground arith

-- A payment is created, reported twice as paid, and refunded.
abbrev sale : List (ℕ × Call)
sale =
    (2, creates (payment_in PaymentStatus.pending))
    ∷ (5, succeeds webhook)
    ∷ (6, succeeds webhook)
    ∷ (9, refunds refund_params)
    ∷ []

sale_publishes_once : paid_events "o1" (run stamp sale held_store).outbox ≡ 1
unfolding run step create_payment_and_mark_pending process_payment_success_tx pay_order mark_paid
    settle_payment is_recorded process_refund_success_tx refunded_store lookup insert find_entry
    update_all
sale_publishes_once = refl

paid_at_most_once_example : paid_events "o1" (run stamp sale held_store).outbox ≤ 1
paid_at_most_once_example =
    paid_at_most_once stamp sale held_store "o1" (one_order-keyed OrderStatus.held) refl

webhook_applied : is_applied (process_payment_success_tx 5 webhook held_store).1 ≡ true
unfolding process_payment_success_tx pay_order mark_paid settle_payment is_recorded lookup
    find_entry
webhook_applied = refl

-- The webhook comes again after a cancellation and a failure of the same order.
abbrev cancellation : CancelOrderParams
cancellation = record { order_id = "o1"; trace_id = "t"; reason = "late"; payment_id = "p1" }

abbrev later_calls : List (ℕ × Call)
later_calls = (6, cancels cancellation) ∷ (7, fails webhook) ∷ []

applied_once_example :
    let s' = run stamp later_calls (process_payment_success_tx 5 webhook held_store).0 in
    let r = process_payment_success_tx 7 webhook s' in (r.0 ≡ s') × (is_done r.1 ≡ true)
applied_once_example =
    applied_once stamp 5 7 webhook webhook later_calls held_store
      (one_order-Inv OrderStatus.held []) webhook_applied (refl, (refl, tt)) refl

abbrev paid_store : Store
paid_store = store_of OrderStatus.paid (("p1", payment_in PaymentStatus.succeeded) ∷ [])

late_failure_example :
    let s' = (process_payment_failed_tx 8 webhook paid_store).0 in
    (lookup "o1" s'.orders ≡ some (order_in OrderStatus.paid))
    × (lookup "p1" s'.payments
        ≡ some (record (payment_in PaymentStatus.succeeded) {
          status = PaymentStatus.failed;
          raw_payload = [];
        }))
    × ((process_payment_success_tx 9 webhook s').0 ≡ s')
late_failure_example =
    late_failure 8 9 webhook webhook paid_store {o = order_in OrderStatus.paid} {id = "p1"}
      {p = payment_in PaymentStatus.succeeded} (unfold lookup in refl) refl
      (unfold find_entry is_concerned in refl) refl

call_error_unchanged_example :
    (step stamp 5 (succeeds (record webhook { order_id = "o2" })) held_store).0 ≡ held_store
call_error_unchanged_example =
    call_error_unchanged stamp 5 (succeeds (record webhook { order_id = "o2" })) held_store
      {e = order_not_found} (unfold step process_payment_success_tx lookup find_entry in refl)

order_follows_edges_example :
    (o' : OrderView) × (lookup "o1" (step stamp 5 (succeeds webhook) held_store).0.orders ≡ some o')
    × Moves OrderStatus.held o'.status
order_follows_edges_example =
    order_follows_edges stamp 5 (succeeds webhook) held_store "o1" (order_in OrderStatus.held)
      (one_order-Inv OrderStatus.held []) (unfold lookup in refl)
