-- ===== src/Payment/App/InitiatePayment.antt =====
-- services/payment/internal/app/initiate_payment.go and get_payment.go: a buyer starts the payment of
-- a held order. The provider, the clock and the new identifier are arguments.
use even_flow.Prelude.{
  ℕ, Bool, not, ◌||◌, Option, none, some, String, ◌==◌, string_Eq, if◌then◌else◌,
}
use even_flow.Prelude.Int.{ℤ, pos, leb_ℤ, int_Eq}
use even_flow.Payment.Types.{
  Provider, PaymentStatus, Payment, OrderView, invalid_input, order_not_held, hold_expired,
  amount_mismatch, gateway_communication, Result, ok, err, is_held, is_payment_pending, is_expired,
}
use even_flow.Payment.Store.{
  Store, get_order, get_payment, get_payment_by_order, create_payment_and_mark_pending,
}
use even_flow.Payment.App.Ports.{
  PaymentRequest, PaymentResult, PaymentGateway, GatewayRegistry, status_text,
}

pub record InitiatePaymentInput : Type 0 where
  pub event_id : String
  pub order_id : String
  pub hold_id : String
  pub amount_cents : ℤ
  pub currency : String
  pub method : Provider
  pub buyer_name : String
  pub buyer_email : String
  pub buyer_phone : String
  pub return_url : String
  pub client_ip : String

pub record InitiatePaymentOutput : Type 0 where
  pub payment_id : String
  pub order_id : String
  pub redirect_url : String
  pub status : String
  pub provider_txn_id : String

unfoldable pub payment_request : InitiatePaymentInput → String → ℤ → String → PaymentRequest
payment_request input payment_id amount_cents currency = record {
  event_id = input.event_id;
  order_id = input.order_id;
  hold_id = input.hold_id;
  payment_id = payment_id;
  amount_cents = amount_cents;
  currency = currency;
  buyer_name = input.buyer_name;
  buyer_email = input.buyer_email;
  buyer_phone = input.buyer_phone;
  return_url = input.return_url;
  client_ip = input.client_ip;
}

-- The currency of the request, else of the order, else VND.
unfoldable pub currency_of : InitiatePaymentInput → OrderView → String
currency_of input order =
    if input.currency == ""
    then (if order.currency == "" then "VND" else order.currency)
    else input.currency

-- Step 1.
unfoldable pub is_invalid_request : InitiatePaymentInput → Bool
is_invalid_request input =
    input.order_id == "" || input.event_id == "" || leb_ℤ input.amount_cents (pos 0)

unfoldable pub pending_payment :
    ℕ → String → InitiatePaymentInput → OrderView → Provider → PaymentResult → Payment
pending_payment now payment_id input order provider res = record {
  id = payment_id;
  order_id = input.order_id;
  provider = provider;
  provider_txn_id = res.provider_txn_id;
  amount_cents = input.amount_cents;
  currency = currency_of input order;
  status = PaymentStatus.pending;
  raw_payload = res.raw_response;
  created_at = now;
}

-- Steps 7 and 8: the provider is asked, then the payment is stored and the order marked.
unfoldable pub start_payment :
    ℕ
    → String
    → InitiatePaymentInput
    → OrderView
    → PaymentGateway
    → Store
    → Store × Result InitiatePaymentOutput
start_payment now payment_id input order gw s =
    elim (gw.initiate_payment
      (payment_request input payment_id input.amount_cents (currency_of input order))) [
        | err e ↦ (s, err gateway_communication)
        | ok res ↦
            let (s', failure) =
              create_payment_and_mark_pending
                (pending_payment now payment_id input order gw.provider res) s in
            (
              s',
              elim failure [
                | some e ↦ err e
                | none ↦ ok (record {
                  payment_id = payment_id;
                  order_id = input.order_id;
                  redirect_url = res.redirect_url;
                  status = res.status;
                  provider_txn_id = res.provider_txn_id;
                })
              ],
            )
      ]

module _ (registry : GatewayRegistry) where
  -- Step 3, for an order that is PAYMENT_PENDING: its payment is offered again.
  unfoldable pub resume_payment : InitiatePaymentInput → Store → Option InitiatePaymentOutput
  resume_payment input s = elim (get_payment_by_order input.order_id s) [
    | err e ↦ none
    | ok p ↦ if p.id == "" then none else elim (registry.get p.provider) [
      | err e ↦ none
      | ok gw ↦ elim (gw.initiate_payment (payment_request input p.id p.amount_cents p.currency)) [
        | err e ↦ none
        | ok res ↦ some (record {
          payment_id = p.id;
          order_id = input.order_id;
          redirect_url = res.redirect_url;
          status = status_text p.status;
          provider_txn_id = p.provider_txn_id;
        })
      ]
    ]
  ]

  -- Step 3, for an order that is not HELD.
  unfoldable pub not_held : InitiatePaymentInput → OrderView → Store → Result InitiatePaymentOutput
  not_held input order s =
      if is_payment_pending order.status
      then elim (resume_payment input s) [ none ↦ err order_not_held | some out ↦ ok out ]
      else err order_not_held

  -- Steps 3 to 8, on the order that the repository returns.
  unfoldable pub initiate_for_order :
      ℕ → String → InitiatePaymentInput → OrderView → Store → Store × Result InitiatePaymentOutput
  initiate_for_order now payment_id input order s =
      if not (order.event_id == input.event_id)
      then (s, err invalid_input)
      else if not (is_held order.status)
      then (s, not_held input order s)
      else if is_expired order now
      then (s, err hold_expired)
      else if not (input.amount_cents == order.total_cents)
      then (s, err amount_mismatch)
      else elim (registry.get input.method) [
        | err e ↦ (s, err e)
        | ok gw ↦ start_payment now payment_id input order gw s
      ]

  unfoldable pub initiate_payment :
      ℕ → String → InitiatePaymentInput → Store → Store × Result InitiatePaymentOutput
  initiate_payment now payment_id input s =
      if is_invalid_request input
      then (s, err invalid_input)
      else elim (get_order input.order_id s) [
        | err e ↦ (s, err e)
        | ok order ↦ initiate_for_order now payment_id input order s
      ]

-- get_payment.go
unfoldable pub get_payment_use_case : String → Store → Result Payment
get_payment_use_case payment_id s =
    if payment_id == "" then err invalid_input else get_payment payment_id s
