-- ===== src/Payment/App/Cases.antt =====
-- How the start of a payment (services/payment/internal/app/initiate_payment.go) can end: refused with
-- the repository as it was, or at the provider with every guard passed.
use even_flow.Prelude.{
  ℕ, ◌≡◌, inl, inr, true, false, some, String, ◌==◌, string_Eq, Bool-cases, Option-cases,
}
use even_flow.Prelude.Int.{int_Eq}
use even_flow.Prelude.Map.{lookup}
use even_flow.Payment.Types.{OrderView, Result, Result-cases, is_held, is_expired}
use even_flow.Payment.Store.{Store, get_order}
use even_flow.Payment.App.Ports.{PaymentGateway, GatewayRegistry}
use even_flow.Payment.App.InitiatePayment.{
  InitiatePaymentInput, InitiatePaymentOutput, initiate_payment, initiate_for_order, start_payment,
  is_invalid_request,
}

module _ {ℓ} (P : Store × Result InitiatePaymentOutput → Type ℓ) (registry : GatewayRegistry)
    (now : ℕ) (payment_id : String) (input : InitiatePaymentInput) (s : Store)
    (refused : (r : Result InitiatePaymentOutput) → P (s, r)) where
  initiate_for_order_cases :
      (o : OrderView)
      → ((gw : PaymentGateway)
          → (o.event_id == input.event_id) ≡ true
          → is_held o.status ≡ true
          → is_expired o now ≡ false
          → (input.amount_cents == o.total_cents) ≡ true
          → P (start_payment now payment_id input o gw s))
      → P (initiate_for_order registry now payment_id input o s)
  unfolding initiate_for_order
  initiate_for_order_cases o started = elim (Bool-cases (o.event_id == input.event_id)) [
    | inr other ↦ rw other (refused _)
    | inl same ↦ elim (Bool-cases (is_held o.status)) [
      | inr not_held ↦ rw same (rw not_held (refused _))
      | inl held ↦ elim (Bool-cases (is_expired o now)) [
        | inl expired ↦ rw same (rw held (rw expired (refused _)))
        | inr live ↦ elim (Bool-cases (input.amount_cents == o.total_cents)) [
          | inr differs ↦ rw same (rw held (rw live (rw differs (refused _))))
          | inl equal ↦ rw same (
              rw held (
                rw live (
                  rw equal (elim (Result-cases (registry.get input.method)) [
                    | inr (e, missing) ↦ rw missing (refused _)
                    | inl (gw, there) ↦ rw there (started gw same held live equal)
                  ]))))
        ]
      ]
    ]
  ]

  pub initiate_cases :
      ((o : OrderView) (gw : PaymentGateway)
        → is_invalid_request input ≡ false
        → lookup input.order_id s.orders ≡ some o
        → (o.event_id == input.event_id) ≡ true
        → is_held o.status ≡ true
        → is_expired o now ≡ false
        → (input.amount_cents == o.total_cents) ≡ true
        → P (start_payment now payment_id input o gw s))
      → P (initiate_payment registry now payment_id input s)
  unfolding initiate_payment get_order
  initiate_cases started = elim (Bool-cases (is_invalid_request input)) [
    | inl invalid ↦ rw invalid (refused _)
    | inr valid ↦ elim (Option-cases (lookup input.order_id s.orders)) [
      | inl missing ↦ rw valid (rw (missing, initiate_payment) (refused _))
      | inr (o, there) ↦ rw valid (
          rw (there, initiate_payment)
            (initiate_for_order_cases o
              λ gw same held live equal. started o gw valid there same held live equal))
    ]
  ]
