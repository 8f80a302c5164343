-- ===== src/Payment/History.antt =====
-- The calls that change the repository (services/payment/internal/adapter/postgres/memory_repository.go)
-- as one step function, and their histories. A call that reports a missing order or an illegal
-- status gives that error; the results of the others are those of the method itself.
use even_flow.Prelude.{ℕ, Option, none, some, String, List, [], ◌∷◌}
use even_flow.Payment.Types.{
  Payment, PaymentInboxItem, ProcessWebhookParams, CancelOrderParams, ProcessRefundParams, Error,
  Result, ok, err,
}
use even_flow.Payment.Store.{
  Store, create_payment_and_mark_pending, process_payment_success_tx, process_payment_failed_tx,
}
use even_flow.Payment.Inbox.{
  save_payment_inbox, mark_payment_inbox_processed, increment_payment_inbox_attempts,
}
use even_flow.Payment.Orders.{
  process_order_cancellation_tx, mark_order_refunding_tx, process_refund_success_tx,
  process_refund_failed_tx,
}

pub data Call : Type 0 where
  creates : Payment → Call
  succeeds fails : ProcessWebhookParams → Call
  saves : PaymentInboxItem → Call
  processes : ℕ → ℕ → Call
  increments : ℕ → Call
  cancels : CancelOrderParams → Call
  starts_refund : String → Call
  refunds : ProcessRefundParams → Call
  fails_refund : String → String → String → Call

abbrev pub error_of {ℓ} : {A : Type ℓ} → Result A → Option Error
error_of (ok a) = none
error_of (err e) = some e

module _ (rfc3339 : ℕ → String) where
  unfoldable pub step : ℕ → Call → Store → Store × Option Error
  step now (creates p) s = create_payment_and_mark_pending p s
  step now (succeeds params) s =
      let (s', r) = process_payment_success_tx now params s in (s', error_of r)
  step now (fails params) s =
      let (s', r) = process_payment_failed_tx now params s in (s', error_of r)
  step now (saves item) s = ((save_payment_inbox now item s).0, none)
  step now (processes id t) s = mark_payment_inbox_processed now id t s
  step now (increments id) s = increment_payment_inbox_attempts id s
  step now (cancels params) s =
      let (s', r) = process_order_cancellation_tx now params s in (s', error_of r)
  step now (starts_refund id) s = mark_order_refunding_tx now id s
  step now (refunds params) s =
      let (s', r) = process_refund_success_tx rfc3339 now params s in (s', error_of r)
  step now (fails_refund o p reason) s = (process_refund_failed_tx rfc3339 now o p reason s, none)

  -- A history of calls, each at its time.
  unfoldable pub run : List (ℕ × Call) → Store → Store
  run [] s = s
  run ((now, c) ∷ cs) s = run cs (step now c s).0
