-- ===== src/Payment/App/RefundEvent.antt =====
-- services/payment/internal/app/refund_event.go: the paid orders of a cancelled event are refunded.
-- The providers, the clock and the texts of errors are arguments; the loop stops when the context is
-- done at an order's turn. The duration that the output reports is left out.
use even_flow.Prelude.{
  ℕ, suc, Bool, true, false, Option, none, some, String, List, [], ◌∷◌, ◌++◌, ◌==◌, string_Eq,
  if◌then◌else◌, length,
}
use Prim.Native.String.{◌++◌ as join}
use even_flow.Prelude.Int.{ℤ, pos, leb_ℤ, ◌+ℤ◌}
use even_flow.Prelude.Text.{text_Eq}
use even_flow.Payment.Types.{
  Provider, OrderStatus, ProcessRefundParams, ProcessRefundResult, Error, invalid_input, Result, ok,
  err, is_refunded, is_failed,
}
use even_flow.Payment.Store.{Store}
use even_flow.Payment.Orders.{
  OrderInfo, get_paid_orders_by_event, mark_order_refunding_tx, process_refund_success_tx,
  process_refund_failed_tx,
}
use even_flow.Payment.App.Ports.{
  PaymentRefundRequest, PaymentRefundResult, PaymentGateway, GatewayRegistry,
}

pub record RefundCancelledEventInput : Type 0 where
  pub event_id : String
  pub reason : String
  pub trace_id : String
  pub batch_size : ℤ

pub record RefundCancelledEventOutput : Type 0 where
  pub event_id : String
  pub total_orders : ℕ
  pub refunded_count : ℕ
  pub failed_count : ℕ
  pub skipped_count : ℕ
  pub total_amount : ℤ
  pub order_results : List ProcessRefundResult

-- What one order comes to: the counter that it raises, and the result that is reported.
pub data RefundOutcome : Type 0 where
  refunds skips : ProcessRefundResult → RefundOutcome
  fails : RefundOutcome

unfoldable pub count_refund :
    ℤ → RefundOutcome → RefundCancelledEventOutput → RefundCancelledEventOutput
count_refund amount (refunds res) out = record out {
  refunded_count = suc out.refunded_count;
  total_amount = out.total_amount +ℤ amount;
  order_results = out.order_results ++ res ∷ [];
}
count_refund amount (skips res) out = record out {
  skipped_count = suc out.skipped_count;
  order_results = out.order_results ++ res ∷ [];
}
count_refund amount fails out = record out { failed_count = suc out.failed_count }

-- What the use case reads of the clock while it handles an order.
pub record RefundTimes : Type 0 where
  pub marked_at : ℕ
  pub sent_at : ℕ
  pub stored_at : ℕ

abbrev pub is_refunding : OrderStatus → Bool
is_refunding OrderStatus.refunding = true
is_refunding _ = false

-- `order.Status != "REFUNDING"`: the order is marked first.
unfoldable pub mark_first : ℕ → OrderInfo → Store → Store × Option Error
mark_first now info s =
    if is_refunding info.order.status
    then (s, none)
    else mark_order_refunding_tx now info.order.id s

unfoldable pub refund_request : String → OrderInfo → PaymentRefundRequest
refund_request reason info = record {
  payment_id = info.payment_id;
  order_id = info.order.id;
  provider_txn_id = info.provider_txn_id;
  amount_cents = info.order.total_cents;
  currency = info.order.currency;
  reason = reason;
  refund_id = join "ref-" info.order.id;
}

-- What the request says, with the defaults for an empty reason, trace or batch size.
unfoldable pub with_defaults : String → RefundCancelledEventInput → RefundCancelledEventInput
with_defaults fresh_trace input = record input {
  reason = if input.reason == "" then "Sự kiện bị hủy bởi ban tổ chức" else input.reason;
  trace_id = if input.trace_id == "" then fresh_trace else input.trace_id;
  batch_size = if leb_ℤ input.batch_size (pos 0) then pos 50 else input.batch_size;
}

skipped_result : OrderInfo → ProcessRefundResult
skipped_result info = record {
  order_id = info.order.id;
  payment_id = info.payment_id;
  already_done = true;
  tickets_refunded = 0;
  status = OrderStatus.refunded;
}

abbrev pub no_refunds : String → ℕ → RefundCancelledEventOutput
no_refunds event_id total = record {
  event_id = event_id;
  total_orders = total;
  refunded_count = 0;
  failed_count = 0;
  skipped_count = 0;
  total_amount = pos 0;
  order_results = [];
}

module _ (rfc3339 : ℕ → String) (error_text : Error → String) (registry : GatewayRegistry) where
  -- `order.Provider`, or the default one.
  unfoldable pub refund_provider : OrderInfo → Provider
  refund_provider info = if info.provider == [] then registry.default_provider else info.provider

  unfoldable pub refund_params :
      ℕ → RefundCancelledEventInput → OrderInfo → PaymentRefundResult → ProcessRefundParams
  refund_params sent_at input info res = record {
    order_id = info.order.id;
    payment_id = info.payment_id;
    provider = refund_provider info;
    refund_txn_id = res.refund_txn_id;
    amount_cents = info.order.total_cents;
    reason = input.reason;
    trace_id = join input.trace_id (join "-" info.order.id);
    timestamp = sent_at;
  }

  abbrev refund_failed : RefundTimes → OrderInfo → String → Store → Store × RefundOutcome
  refund_failed t info message s =
      (process_refund_failed_tx rfc3339 t.stored_at info.order.id info.payment_id message s, fails)

  -- `REFUNDED` is stored only after the provider's answer.
  unfoldable pub store_refund :
      RefundTimes
      → RefundCancelledEventInput
      → OrderInfo
      → PaymentRefundResult
      → Store
      → Store × RefundOutcome
  store_refund t input info res s =
      let (s', stored) =
        process_refund_success_tx rfc3339 t.stored_at (refund_params t.sent_at input info res) s in
      (
        s',
        elim stored [
          | err e ↦ fails
          | ok done ↦ if done.already_done then skips done else refunds done
        ],
      )

  -- The call of the provider and what follows it.
  unfoldable pub send_refund :
      RefundTimes
      → RefundCancelledEventInput
      → OrderInfo
      → PaymentGateway
      → Store
      → Store × RefundOutcome
  send_refund t input info gw s = elim (gw.refund_payment (refund_request input.reason info)) [
    | err e ↦ refund_failed t info (error_text e) s
    | ok res ↦
        if is_failed res.status
        then refund_failed t info
            (if res.message == "" then "cong thanh toan tu choi hoan tien" else res.message) s
        else store_refund t input info res s
  ]

  -- The rest of the body, for an order that is marked: the choice of the provider, then its call.
  unfoldable pub refund_marked :
      RefundTimes → RefundCancelledEventInput → OrderInfo → Store → Store × RefundOutcome
  refund_marked t input info s = elim (registry.get (refund_provider info)) [
    | err e ↦ refund_failed t info (error_text e) s
    | ok gw ↦ send_refund t input info gw s
  ]

  -- The body of the loop.
  unfoldable pub refund_one :
      RefundTimes → RefundCancelledEventInput → OrderInfo → Store → Store × RefundOutcome
  unfolding skipped_result
  refund_one t input info s =
      if is_refunded info.order.status
      then (s, skips (skipped_result info))
      else let (s', marked) = mark_first t.marked_at info s in
        elim marked [ some e ↦ (s', fails) | none ↦ refund_marked t input info s' ]

  -- The loop. `times` and `is_cancelled` give the clock and the context at an order's turn, by its
  -- id; the Boolean of the result says whether the context ended it.
  unfoldable pub refund_orders :
      (String → RefundTimes)
      → (String → Bool)
      → RefundCancelledEventInput
      → List OrderInfo
      → Store
      → RefundCancelledEventOutput
      → Store × RefundCancelledEventOutput × Bool
  refund_orders times is_cancelled input [] s out = (s, out, false)
  refund_orders times is_cancelled input (info ∷ infos) s out =
      let (s', outcome) = refund_one (times info.order.id) input info s in
      let rest =
        refund_orders times is_cancelled input infos s'
          (count_refund info.order.total_cents outcome out) in
      if is_cancelled info.order.id then (s, out, true) else rest

  -- An empty event id is refused; the Boolean is true where the context's error is returned.
  unfoldable pub refund_cancelled_event :
      (String → RefundTimes)
      → (String → Bool)
      → String
      → RefundCancelledEventInput
      → Store
      → Store × Result (RefundCancelledEventOutput × Bool)
  refund_cancelled_event times is_cancelled fresh_trace input s =
      if input.event_id == ""
      then (s, err invalid_input)
      else let full = with_defaults fresh_trace input in
        let infos = get_paid_orders_by_event full.event_id full.batch_size s in
        let (s', out, stopped) =
          refund_orders times is_cancelled full infos s (no_refunds full.event_id (length infos)) in
        (s', ok (out, stopped))
