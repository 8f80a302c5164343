-- ===== src/Payment/Cases.antt =====
-- How the calls that touch orders can end (services/payment/internal/adapter/postgres/
-- memory_repository.go): with the repository as it was, or with the one change that they make.
use even_flow.Prelude.{
  ℕ, ◌≡◌, inl, inr, true, false, ◌||◌, some, String, string_Eq, Bool-cases, Option-cases,
}
use even_flow.Prelude.Map.{lookup, insert, find_entry}
use even_flow.Payment.Types.{
  OrderStatus, OrderView, Payment, ProcessWebhookParams, CancelOrderParams, ProcessRefundParams,
  is_held, is_payment_pending, is_paid, is_refunded, is_refundable,
}
use even_flow.Payment.Store.{
  Store, create_payment_and_mark_pending, process_payment_success_tx, is_recorded, pay_order,
  mark_paid,
}
use even_flow.Payment.Orders.{
  process_order_cancellation_tx, mark_order_refunding_tx, process_refund_success_tx, is_cancellable,
  cancelled_store, refunded_store,
}

module _ {ℓ} (P : Store → Type ℓ) where
  pub create_cases :
      (p : Payment) (s : Store)
      → P s
      → ((o : OrderView)
          → lookup p.order_id s.orders ≡ some o
          → is_held o.status ≡ true
          → P (record s {
            orders = insert p.order_id (record o { status = OrderStatus.payment_pending }) s.orders;
            payments = insert p.id p s.payments;
          }))
      → P (create_payment_and_mark_pending p s).0
  unfolding create_payment_and_mark_pending
  create_cases p s same changed = elim (Option-cases (lookup p.order_id s.orders)) [
    | inl e ↦ rw (e, create_payment_and_mark_pending) same
    | inr (o, e) ↦ elim (Bool-cases (is_held o.status)) [
      | inl t ↦ rw (e, create_payment_and_mark_pending) (rw t (changed o e t))
      | inr f ↦ rw (e, create_payment_and_mark_pending) (rw f same)
    ]
  ]

  pay_order_cases :
      (now : ℕ) (params : ProcessWebhookParams) (o : OrderView) (s : Store)
      → P s
      → ((is_held o.status || is_payment_pending o.status) ≡ true → P (mark_paid now params o s).0)
      → P (pay_order now params o s).0
  unfolding pay_order
  pay_order_cases now params o s same changed = elim (Bool-cases (is_paid o.status)) [
    | inl t ↦ rw t same
    | inr f ↦ elim (Bool-cases (is_held o.status || is_payment_pending o.status)) [
      | inl u ↦ rw f (rw u (changed u))
      | inr g ↦ rw f (rw g same)
    ]
  ]

  pub success_cases :
      (now : ℕ) (params : ProcessWebhookParams) (s : Store)
      → P s
      → ((o : OrderView)
          → lookup params.order_id s.orders ≡ some o
          → (is_held o.status || is_payment_pending o.status) ≡ true
          → P (mark_paid now params o s).0)
      → P (process_payment_success_tx now params s).0
  unfolding process_payment_success_tx
  success_cases now params s same changed =
      elim (Option-cases (find_entry (is_recorded params) s.payments)) [
        | inr (e, found) ↦ rw (found, process_payment_success_tx) same
        | inl new ↦ elim (Option-cases (lookup params.order_id s.orders)) [
          | inl missing ↦
              rw (new, process_payment_success_tx) (rw (missing, process_payment_success_tx) same)
          | inr (o, there) ↦
              rw (new, process_payment_success_tx)
                (rw (there, process_payment_success_tx)
                  (pay_order_cases now params o s same (changed o there)))
        ]
      ]

  pub cancel_cases :
      (now : ℕ) (params : CancelOrderParams) (s : Store)
      → P s
      → ((o : OrderView)
          → lookup params.order_id s.orders ≡ some o
          → is_cancellable o.status ≡ true
          → P (cancelled_store now params o s))
      → P (process_order_cancellation_tx now params s).0
  unfolding process_order_cancellation_tx
  cancel_cases now params s same changed = elim (Option-cases (lookup params.order_id s.orders)) [
    | inl e ↦ rw (e, process_order_cancellation_tx) same
    | inr (o, e) ↦ elim (Bool-cases (is_cancellable o.status)) [
      | inl t ↦ rw (e, process_order_cancellation_tx) (rw t (changed o e t))
      | inr f ↦ rw (e, process_order_cancellation_tx) (rw f same)
    ]
  ]

  pub refunding_cases :
      (now : ℕ) (id : String) (s : Store)
      → P s
      → ((o : OrderView)
          → lookup id s.orders ≡ some o
          → is_refundable o.status ≡ true
          → P (record s {
            orders =
                insert id (record o { status = OrderStatus.refunding; updated_at = now }) s.orders;
          }))
      → P (mark_order_refunding_tx now id s).0
  unfolding mark_order_refunding_tx
  refunding_cases now id s same changed = elim (Option-cases (lookup id s.orders)) [
    | inl e ↦ rw (e, mark_order_refunding_tx) same
    | inr (o, e) ↦ elim (Bool-cases (is_refunded o.status)) [
      | inl t ↦ rw (e, mark_order_refunding_tx) (rw t same)
      | inr f ↦ elim (Bool-cases (is_refundable o.status)) [
        | inl u ↦ rw (e, mark_order_refunding_tx) (rw f (rw u (changed o e u)))
        | inr g ↦ rw (e, mark_order_refunding_tx) (rw f (rw g same))
      ]
    ]
  ]

  pub refund_cases :
      (rfc3339 : ℕ → String) (now : ℕ) (params : ProcessRefundParams) (s : Store)
      → P s
      → ((o : OrderView)
          → lookup params.order_id s.orders ≡ some o
          → is_refunded o.status ≡ false
          → P (refunded_store rfc3339 now params o s))
      → P (process_refund_success_tx rfc3339 now params s).0
  unfolding process_refund_success_tx
  refund_cases rfc3339 now params s same changed =
      elim (Option-cases (lookup params.order_id s.orders)) [
        | inl e ↦ rw (e, process_refund_success_tx) same
        | inr (o, e) ↦ elim (Bool-cases (is_refunded o.status)) [
          | inl t ↦ rw (e, process_refund_success_tx) (rw t same)
          | inr f ↦ rw (e, process_refund_success_tx) (rw f (changed o e f))
        ]
      ]
