-- ===== src/Payment/App/Starting.antt =====
-- Which requests start a payment, and what that does (services/payment/internal/app/initiate_payment.go).
use even_flow.Prelude.{
  ℕ, ◌≡◌, refl, ◌⊎◌, inl, inr, Bool, true, false, some, String, arith, ◌==◌, ==_iff, string_Eq,
}
use even_flow.Prelude.Int.{int_Eq, pos, ◌<ℤ◌}
use even_flow.Prelude.Map.{lookup, lookup-insert_self}
use even_flow.Payment.Types.{
  PaymentStatus, OrderStatus, OrderView, Payment, Result, Result-cases, ok, err, is_held,
  is_expired,
}
use even_flow.Payment.Store.{Store, create_payment_and_mark_pending}
use even_flow.Payment.App.Ports.{PaymentGateway, GatewayRegistry}
use even_flow.Payment.App.Cases.{initiate_cases}
use even_flow.Payment.App.InitiatePayment.{
  InitiatePaymentInput, initiate_payment, start_payment, is_invalid_request, payment_request,
  currency_of, pending_payment,
}

-- The order was held, live and of the event and the amount of the request; it is now waiting for
-- exactly this payment, of which the provider was asked.
abbrev pub Started : ℕ → String → InitiatePaymentInput → Store → Store → Type 0
Started now payment_id input s s' =
    (o : OrderView) × (p : Payment) × (lookup input.order_id s.orders ≡ some o)
    × (is_held o.status ≡ true)
    × (o.event_id ≡ input.event_id)
    × (is_expired o now ≡ false)
    × (input.amount_cents ≡ o.total_cents)
    × (pos 0 <ℤ input.amount_cents)
    × (lookup input.order_id s'.orders ≡ some (record o { status = OrderStatus.payment_pending }))
    × (lookup payment_id s'.payments ≡ some p)
    × (p.order_id ≡ input.order_id)
    × (p.amount_cents ≡ o.total_cents)
    × (p.status ≡ PaymentStatus.pending)

abbrev pub is_ok {ℓ} : {A : Type ℓ} → Result A → Bool
is_ok (ok a) = true
is_ok (err e) = false

module _ (registry : GatewayRegistry) (now : ℕ) (payment_id : String)
    (input : InitiatePaymentInput) where
  start_payment-Started :
      (o : OrderView) (gw : PaymentGateway) (s : Store)
      → is_invalid_request input ≡ false
      → lookup input.order_id s.orders ≡ some o
      → is_held o.status ≡ true
      → (o.event_id == input.event_id) ≡ true
      → is_expired o now ≡ false
      → (input.amount_cents == o.total_cents) ≡ true
      → let (s', r) = start_payment now payment_id input o gw s in
        (s' ≡ s) ⊎ (Started now payment_id input s s' × (is_ok r ≡ true))
  unfolding start_payment create_payment_and_mark_pending is_invalid_request pending_payment
  start_payment-Started o gw s valid there held event live amount =
      elim (Result-cases (
        gw.initiate_payment
          (payment_request input payment_id input.amount_cents (currency_of input o)))) [
            | inr (e, refused) ↦ inl (ground (arith, refused))
            | inl (res, accepted) ↦
                let p = pending_payment now payment_id input o gw.provider res in
                let amounts : input.amount_cents ≡ o.total_cents =
                  (==_iff input.amount_cents o.total_cents).0 amount in
                inr (
                  (
                    o,
                    p,
                    there,
                    held,
                    (==_iff o.event_id input.event_id).0 event,
                    live,
                    amounts,
                    ground (arith, valid),
                    ground (
                      arith,
                      accepted,
                      lookup-insert_self input.order_id
                          (record o { status = OrderStatus.payment_pending }) s.orders,
                    ),
                    ground (arith, accepted, lookup-insert_self payment_id p s.payments),
                    refl,
                    amounts,
                    refl,
                  ),
                  ground (arith, accepted),
                )
          ]

  -- A request to pay either leaves the repository as it was, or it is answered with success and the
  -- order was held, not expired, of the stated event and of exactly the stated amount, and is now
  -- PAYMENT_PENDING with a pending payment of that amount.
  pub initiated_or_unchanged :
      (s : Store)
      → let (s', r) = initiate_payment registry now payment_id input s in
        (s' ≡ s) ⊎ (Started now payment_id input s s' × (is_ok r ≡ true))
  initiated_or_unchanged s =
      initiate_cases
        (λ out. (out.0 ≡ s) ⊎ (Started now payment_id input s out.0 × (is_ok out.1 ≡ true)))
        registry now payment_id input s (λ r. inl refl)
        λ o gw valid there event held live amount.
          start_payment-Started o gw s valid there held event live amount
