-- ===== src/Payment/App/Reconcile.antt =====
-- services/payment/internal/app/reconcile_orders.go: orders that stay PAYMENT_PENDING are looked up at
-- their provider and healed. The providers, the clock and the form of a status are arguments; the
-- metrics only count what the result counts and are left out, with the duration.
use even_flow.Prelude.{
  ℕ, suc, Bool, true, false, String, List, [], ◌∷◌, ◌==◌, string_Eq, if◌then◌else◌, length,
}
use even_flow.Prelude.Int.{ℤ}
use even_flow.Prelude.Text.{text_Eq}
use even_flow.Payment.Types.{
  PaymentStatus, Provider, CancelOrderParams, CancelOrderResult, WebhookProcessResult,
  ProcessWebhookParams, Result, ok, err,
}
use even_flow.Payment.Store.{Store, process_payment_success_tx}
use even_flow.Payment.Orders.{OrderInfo, get_stale_pending_orders, process_order_cancellation_tx}
use even_flow.Payment.App.Ports.{PaymentQueryRequest, PaymentQueryResult, GatewayRegistry}
use even_flow.Payment.App.ReplayInbox.{limit_or_default}

pub record ReconciliationResult : Type 0 where
  pub total_scanned : ℕ
  pub healed_paid : ℕ
  pub healed_cancelled : ℕ
  pub still_pending : ℕ
  pub skipped : ℕ
  pub errors : ℕ

-- What one order comes to: the counter that it raises.
pub data Healing : Type 0 where
  paid cancelled pending skips fails : Healing

unfoldable pub count_healing : Healing → ReconciliationResult → ReconciliationResult
count_healing Healing.paid r = record r { healed_paid = suc r.healed_paid }
count_healing Healing.cancelled r = record r { healed_cancelled = suc r.healed_cancelled }
count_healing Healing.pending r = record r { still_pending = suc r.still_pending }
count_healing Healing.skips r = record r { skipped = suc r.skipped }
count_healing Healing.fails r = record r { errors = suc r.errors }

-- What is read of the clock while an order is handled: for the trace, for the parameters of the
-- transaction, and in the repository.
pub record HealingTimes : Type 0 where
  pub traced_at : ℕ
  pub sent_at : ℕ
  pub stored_at : ℕ

abbrev healing_of_cancel : Result CancelOrderResult → Healing
healing_of_cancel (err e) = Healing.fails
healing_of_cancel (ok res) = if res.already_done then Healing.skips else Healing.cancelled

abbrev healing_of_success : Result WebhookProcessResult → Healing
healing_of_success (err e) = Healing.fails
healing_of_success (ok res) = if res.already_done then Healing.skips else Healing.paid

unfoldable pub heal_cancelled : HealingTimes → CancelOrderParams → Store → Store × Healing
heal_cancelled t params s =
    let (s', r) = process_order_cancellation_tx t.stored_at params s in (s', healing_of_cancel r)

unfoldable pub success_params : ℕ → String → OrderInfo → PaymentQueryResult → ProcessWebhookParams
success_params sent_at trace_id info res = record {
  provider = info.provider;
  provider_txn_id = if res.provider_txn_id == "" then info.provider_txn_id else res.provider_txn_id;
  order_id = info.order.id;
  payment_id = info.payment_id;
  amount_cents = info.order.total_cents;
  currency = info.order.currency;
  status = PaymentStatus.succeeded;
  raw_payload = res.raw_response;
  trace_id = trace_id;
  timestamp = sent_at;
}

unfoldable pub heal_paid : HealingTimes → ProcessWebhookParams → Store → Store × Healing
heal_paid t params s =
    let (s', r) = process_payment_success_tx t.stored_at params s in (s', healing_of_success r)

unfoldable pub query_request : OrderInfo → PaymentQueryRequest
query_request info = record {
  order_id = info.order.id;
  payment_id = info.payment_id;
  provider_txn_id = info.provider_txn_id;
}

abbrev pub nothing_healed : ℕ → ReconciliationResult
nothing_healed n = record {
  total_scanned = n;
  healed_paid = 0;
  healed_cancelled = 0;
  still_pending = 0;
  skipped = 0;
  errors = 0;
}

-- The trace id of an order at a time, and the reason of a cancellation, as `fmt.Sprintf` forms them.
module _ (trace_of : String → ℕ → String) (reason_of : Provider → String → String) where
  -- The switch on the provider's answer.
  unfoldable pub heal_by_answer :
      HealingTimes → OrderInfo → PaymentQueryResult → Store → Store × Healing
  heal_by_answer t info res s = elim res.status [
    | PaymentStatus.succeeded ↦
        heal_paid t (success_params t.sent_at (trace_of info.order.id t.traced_at) info res) s
    | PaymentStatus.failed ↦
        heal_cancelled t
          (record {
            order_id = info.order.id;
            trace_id = trace_of info.order.id t.traced_at;
            reason = reason_of info.provider res.message;
            payment_id = info.payment_id;
          })
          s
    | PaymentStatus.pending ↦ (s, Healing.pending)
    | PaymentStatus.refunded ↦ (s, Healing.skips)
    | PaymentStatus.unknown text ↦ (s, Healing.skips)
  ]

  module _ (registry : GatewayRegistry) where
    -- The body of the loop.
    unfoldable pub heal_one : HealingTimes → OrderInfo → Store → Store × Healing
    heal_one t info s =
        if info.provider == []
        then heal_cancelled t
            (record {
              order_id = info.order.id;
              trace_id = trace_of info.order.id t.traced_at;
              reason = "don hang treo qua 15 phut khong co giao dich thanh toan";
              payment_id = "";
            })
            s
        else elim (registry.get info.provider) [
          | err e ↦ (s, Healing.fails)
          | ok gw ↦ elim (gw.query_payment (query_request info)) [
            | err e ↦ (s, Healing.skips)
            | ok res ↦ heal_by_answer t info res s
          ]
        ]

    -- The loop; it stops when the context is done at an order's turn, which the Boolean says.
    unfoldable pub heal_orders :
        (String → HealingTimes)
        → (String → Bool)
        → List OrderInfo
        → Store
        → ReconciliationResult
        → Store × ReconciliationResult × Bool
    heal_orders times is_cancelled [] s r = (s, r, false)
    heal_orders times is_cancelled (info ∷ infos) s r =
        let (s', healing) = heal_one (times info.order.id) info s in
        let rest = heal_orders times is_cancelled infos s' (count_healing healing r) in
        if is_cancelled info.order.id then (s, r, true) else rest

    -- `now` is when the repository reads the stuck orders; the threshold is 15 minutes by default.
    unfoldable pub reconcile_stale_orders :
        (String → HealingTimes)
        → (String → Bool)
        → ℕ
        → ℕ
        → ℤ
        → Store
        → Store × ReconciliationResult × Bool
    reconcile_stale_orders times is_cancelled now stale_threshold limit s =
        let infos = get_stale_pending_orders now stale_threshold (limit_or_default limit) s in
        heal_orders times is_cancelled infos s (nothing_healed (length infos))
