-- ===== src/Payment/App/Refunded.antt =====
-- An order is refunded only after its provider took the refund
-- (services/payment/internal/app/refund_event.go).
use even_flow.Prelude.{
  ℕ, ◌≡◌, ◌⊎◌, true, false, some, if◌then◌else◌, String, List, [], ◌∷◌, ◌==◌, string_Eq,
}
use even_flow.Prelude.Map.{Map, lookup, values}
use Prim.Native.String.{◌++◌ as join}
use even_flow.Prelude.Text.{text_Eq}
use even_flow.Payment.Types.{OrderView, Error, ok, is_refunded, is_refundable, is_failed}
use even_flow.Payment.Store.{Store}
use even_flow.Payment.Orders.{OrderInfo, order_info}
use even_flow.Payment.App.Ports.{PaymentGateway, PaymentRefundResult, GatewayRegistry}
use even_flow.Payment.App.RefundEvent.{RefundTimes, RefundCancelledEventInput}

-- The order of this key, if there is one, is not refunded.
abbrev pub NotRefunded : String → Map String OrderView → Type 0
NotRefunded k orders = (o : OrderView) → lookup k orders ≡ some o → is_refunded o.status ≡ false

abbrev pub IsListed : OrderView → List OrderView → Type 0
IsListed o [] = ⊥
IsListed o (w ∷ os) = (o ≡ w) ⊎ IsListed o os

-- What is read of a row of the repository: an order of the event to be refunded, with its first
-- payment.
abbrev pub FromRepository : String → Store → OrderInfo → Type 0
FromRepository event_id s info =
    (o : OrderView) × IsListed o (values s.orders)
    × (o.event_id ≡ event_id)
    × (is_refundable o.status ≡ true)
    × (info ≡ order_info s.payments o)

module _ (rfc3339 : ℕ → String) (error_text : Error → String) (registry : GatewayRegistry) where
  -- The provider of this order's payment, or the default one where there is none, was asked to refund
  -- that payment in full and did not answer with a failure.
  abbrev pub Refunds : OrderInfo → String → Type 0
  Refunds info reason =
      (gw : PaymentGateway) × (res : PaymentRefundResult) × (registry.get
          (if info.provider == [] then registry.default_provider else info.provider)
        ≡ ok gw)
      × (gw.refund_payment (record {
        payment_id = info.payment_id;
        order_id = info.order.id;
        provider_txn_id = info.provider_txn_id;
        amount_cents = info.order.total_cents;
        currency = info.order.currency;
        reason = reason;
        refund_id = join "ref-" info.order.id;
      })
          ≡ ok res)
      × (is_failed res.status ≡ false)

  -- An order of this id was refunded by its provider; `Q` says where the order comes from.
  abbrev pub Accepted : (OrderInfo → Type 0) → String → String → Type 0
  Accepted Q k reason = (info : OrderInfo) × Q info × (info.order.id ≡ k) × Refunds info reason

  module _ (Q : OrderInfo → Type 0) (k : String) (input : RefundCancelledEventInput)
      (t : RefundTimes) (info : OrderInfo) (known : Q info) where
    abbrev Outcome : Store → Type 0
    Outcome s = NotRefunded k s.orders ⊎ Accepted Q k input.reason
