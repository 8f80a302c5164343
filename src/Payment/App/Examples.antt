-- ===== src/Payment/App/Examples.antt =====
-- Tests of the payment use cases, and their theorems at concrete values.
use even_flow.Prelude.{
  ◌≤◌, ◌≡◌, refl, ◌⊎◌, inl, inr, true, false, some, String, [], ◌∷◌, arith, ◌==◌, ==_iff, string_Eq,
  Bool-cases,
}
use even_flow.Prelude.Int.{pos, ◌+ℤ◌}
use even_flow.Prelude.Map.{lookup, insert, find_entry, update_all}
use even_flow.Prelude.Text.{ascii, text, trim_space}
use even_flow.Payment.Types.{
  PaymentStatus, OrderStatus, OrderView, ok, normalize_provider, is_valid_provider, sandbox,
}
use even_flow.Payment.Store.{Store, seed_order}
use even_flow.Payment.Orders.{
  mark_order_refunding_tx, process_refund_success_tx, refunded_store, get_paid_orders_by_event,
  order_info, is_refund_due,
}
use even_flow.Prelude.Sort.{sort_by, cap_at}
use even_flow.Payment.Once.{paid_events}
use even_flow.Payment.App.Ports.{CallbackResult, PaymentGateway, GatewayRegistry}
use even_flow.Payment.App.Webhook.{
  ProcessWebhookInput, WebhookTimes, default_window, process_webhook, read_callback, refusal,
  resolve_order_id,
}
use even_flow.Payment.App.InitiatePayment.{InitiatePaymentInput, initiate_payment}
use even_flow.Payment.App.ReplayInbox.{default_replay_config, replay_inbox}
use even_flow.Payment.App.RefundEvent.{
  RefundCancelledEventInput, RefundCancelledEventOutput, refund_cancelled_event, with_defaults,
  refund_orders, refund_one, refund_marked, refund_provider, send_refund, store_refund,
  refund_params, mark_first, count_refund,
}
use even_flow.Payment.App.UseCases.{
  UseCase, webhook, replay, refund_event, Library, execute_all, published_once,
}
use even_flow.Payment.App.Authentic.{IsAuthentic, has_error, webhook-IsAuthentic_or_refused}
use even_flow.Payment.App.Starting.{Started, is_ok, initiated_or_unchanged}
use even_flow.Payment.App.EarlyWebhook.{IsPaid}
use even_flow.Payment.App.LateOrder.{Early, late_order-IsPaid}

-- A sandbox that verifies and accepts everything.
abbrev success_callback : CallbackResult
success_callback = record {
  valid = true;
  provider_txn_id = "t1";
  order_id = "o1";
  payment_id = "";
  status = PaymentStatus.succeeded;
  amount_cents = pos 500;
  timestamp = 1000;
  raw_payload = [];
  message = "";
}

abbrev gateway : PaymentGateway
gateway = record {
  provider = sandbox;
  initiate_payment = λ r. ok (record {
    payment_id = r.payment_id;
    order_id = r.order_id;
    redirect_url = "url";
    status = "PENDING";
    provider_txn_id = "t1";
    raw_response = [];
  });
  verify_callback = λ params. ok success_callback;
  query_payment = λ r. ok (record {
    provider_txn_id = "t1";
    status = PaymentStatus.succeeded;
    amount_cents = pos 500;
    raw_response = [];
    message = "";
  });
  refund_payment = λ r. ok (record {
    refund_txn_id = "r1";
    status = PaymentStatus.refunded;
    amount_cents = r.amount_cents;
    raw_response = [];
    message = "";
  });
}

abbrev registry : GatewayRegistry
registry = record { get = λ p. ok gateway; default_provider = sandbox }

abbrev order_in : OrderStatus → OrderView
order_in status = record {
  id = "o1";
  event_id = "e1";
  identity_id = "u1";
  status = status;
  total_cents = pos 500;
  currency = "VND";
  expires_at = 2000;
  created_at = 1;
  updated_at = 1;
}

abbrev empty_store : Store
empty_store = record { orders = []; payments = []; outbox = []; inbox = []; next_inbox_id = 0 }

abbrev store_of : OrderStatus → Store
store_of status = record empty_store { orders = ("o1", order_in status) ∷ [] }

abbrev times : WebhookTimes
times = record { checked_at = 1100; stored_at = 1100; saved_at = 1100 }

abbrev callback_input : ProcessWebhookInput
callback_input = record { provider = text "sandbox"; params = []; trace_id = "x" }

abbrev unknown_input : ProcessWebhookInput
unknown_input = record { provider = text "paypal"; params = []; trace_id = "x" }

abbrev pay_input : InitiatePaymentInput
pay_input = record {
  event_id = "e1";
  order_id = "o1";
  hold_id = "h1";
  amount_cents = pos 500;
  currency = "";
  method = sandbox;
  buyer_name = "";
  buyer_email = "";
  buyer_phone = "";
  return_url = "";
  client_ip = "";
}

abbrev refund_input : RefundCancelledEventInput
refund_input = record { event_id = "e1"; reason = ""; trace_id = "x"; batch_size = pos 0 }

abbrev lib : Library
lib = record {
  unicode = ascii;
  parse_int = λ s. pos 0;
  float_to_int = λ b. pos 0;
  decimal = λ n. "1";
  rfc3339 = λ n. "2026-01-01T00:00:00Z";
  error_text = λ e. "error";
  trace_of = λ id t. id;
  reason_of = λ p m. m;
}

abbrev early_store : Store
early_store = (process_webhook ascii registry default_window times callback_input empty_store).0

abbrev replay_once : UseCase
replay_once =
    replay default_replay_config (λ id. record { stored_at = 9; processed_at = 9 }) 9 (pos 5)

abbrev refund_all : UseCase
refund_all =
    refund_event registry (λ id. record { marked_at = 8; sent_at = 8; stored_at = 8 }) (λ id. false)
      "x" refund_input

-- The orders of a store with one order stand under their ids.
one_order-keyed :
    (status : OrderStatus) (k : String) (o : OrderView)
    → lookup k (("o1", order_in status) ∷ []) ≡ some o
    → o.id ≡ k
unfolding lookup
one_order-keyed status k o h = elim (Bool-cases ("o1" == k)) [
  | inl same ↦ ground (arith, (==_iff "o1" k).0 same)
  | inr other ↦ ground arith
]

published_once_example :
    paid_events "o1"
      (execute_all lib
        (webhook registry default_window times callback_input ∷ replay_once ∷ refund_all ∷ [])
        (store_of OrderStatus.held)).outbox
    ≤ 1
published_once_example =
    published_once lib
      (webhook registry default_window times callback_input ∷ replay_once ∷ refund_all ∷ [])
      (store_of OrderStatus.held) "o1" (one_order-keyed OrderStatus.held) refl

webhook-IsAuthentic_or_refused_example :
    let (s', out) =
      process_webhook ascii registry default_window times unknown_input
        (store_of OrderStatus.held) in
    ((s' ≡ store_of OrderStatus.held) × (has_error out ≡ true))
    ⊎ IsAuthentic ascii registry default_window 1100 unknown_input
webhook-IsAuthentic_or_refused_example =
    webhook-IsAuthentic_or_refused ascii registry default_window times unknown_input
      (store_of OrderStatus.held)

initiated_or_unchanged_example :
    let (s', r) = initiate_payment registry 1100 "p1" pay_input (store_of OrderStatus.held) in
    (s' ≡ store_of OrderStatus.held)
    ⊎ (Started 1100 "p1" pay_input (store_of OrderStatus.held) s' × (is_ok r ≡ true))
initiated_or_unchanged_example =
    initiated_or_unchanged registry 1100 "p1" pay_input (store_of OrderStatus.held)

early : Early ascii registry default_window times callback_input success_callback "o1" empty_store
early = (
  unfold is_valid_provider normalize_provider trim_space in refl,
  unfold read_callback in refl,
  unfold refusal in refl,
  refl,
  unfold resolve_order_id in refl,
  refl,
  unfold lookup in refl,
  unfold find_entry in refl,
  refl,
)

late_order-IsPaid_example :
    IsPaid "o1"
      (replay_inbox lib.parse_int lib.float_to_int lib.decimal default_replay_config
        (λ id. record { stored_at = 9; processed_at = 9 })
        9
        (pos 5)
        (seed_order (order_in OrderStatus.held) early_store)).0.orders
late_order-IsPaid_example =
    late_order-IsPaid ascii registry lib.parse_int lib.float_to_int lib.decimal default_window times
      callback_input success_callback "o1" empty_store (order_in OrderStatus.held) 4
      default_replay_config (λ id. record { stored_at = 9; processed_at = 9 }) 9 (pos 5) early refl
      refl refl

-- The report of a run over one paid order.
abbrev refund_report : RefundCancelledEventOutput
refund_report = record {
  event_id = "e1";
  total_orders = 1;
  refunded_count = 1;
  failed_count = 0;
  skipped_count = 0;
  total_amount = pos 500;
  order_results =
      record {
        order_id = "o1";
        payment_id = "";
        already_done = false;
        tickets_refunded = 1;
        status = OrderStatus.refunded;
      }
      ∷ [];
}

refund_run :
    (refund_cancelled_event lib.rfc3339 lib.error_text registry
      (λ id. record { marked_at = 8; sent_at = 8; stored_at = 8 })
      (λ id. false)
      "x"
      refund_input
      (store_of OrderStatus.paid)).1
    ≡ ok (refund_report, false)
unfolding refund_cancelled_event with_defaults refund_orders refund_one refund_marked
    refund_provider send_refund store_refund refund_params mark_first mark_order_refunding_tx
    process_refund_success_tx refunded_store get_paid_orders_by_event order_info is_refund_due
    sort_by cap_at lookup insert find_entry update_all count_refund ◌+ℤ◌
refund_run = refl
