-- ===== src/Payment/App/EarlyWebhook.antt =====
-- A webhook that comes before its order is not lost (BR-O6): the composition of process_webhook.go, the
-- inbox of the in-memory repository, and replay_inbox.go (services/payment/internal).
use even_flow.Prelude.{
  ℕ, ◌≡◌, refl, inl, inr, Bool, true, false, ◌||◌, none, some, String, List, [], ◌∷◌, arith, ◌==◌,
  string_Eq, nat_Eq, Bool-cases,
}
use even_flow.Prelude.Int.{ℤ}
use even_flow.Prelude.Map.{Map, lookup, find_entry, lookup-insert, lookup-insert_self}
use even_flow.Payment.Types.{
  PaymentStatus, OrderStatus, OrderView, PaymentInboxItem, ProcessWebhookParams,
  WebhookProcessResult, Result, ok, err, is_held, is_payment_pending, is_succeeded,
}
use even_flow.Payment.Store.{
  Store, process_payment_success_tx, process_payment_failed_tx, mark_paid, pay_order, is_recorded,
}
use even_flow.Payment.Inbox.{
  mark_payment_inbox_processed, increment_payment_inbox_attempts, get_pending_payment_inbox,
}
use even_flow.Payment.Cases.{success_cases}
use even_flow.Payment.App.ReplayInbox.{
  ReplayConfig, ReplayTimes, ReplayInboxResult, replay_params, replay_item, replay_items,
  replay_inbox, settle_item, raise_attempts, payload_order_id, payload_status, limit_or_default,
}

-- The order of this key is paid.
abbrev pub IsPaid : String → Map String OrderView → Type 0
IsPaid k orders = (o : OrderView) × (lookup k orders ≡ some o) × (o.status ≡ OrderStatus.paid)

-- No webhook unpays an order.
success_keeps :
    (k : String) (now : ℕ) (params : ProcessWebhookParams) (s : Store)
    → IsPaid k s.orders
    → IsPaid k (process_payment_success_tx now params s).0.orders
unfolding mark_paid
success_keeps k now params s (o, there, paid) =
    success_cases (λ s'. IsPaid k s'.orders) now params s (o, there, paid)
      λ w found payable. elim (Bool-cases (w.id == k)) [
        | inl same ↦ (
          record w { status = OrderStatus.paid },
          ground
              (arith, same, lookup-insert w.id k (record w { status = OrderStatus.paid }) s.orders),
          refl,
        )
        | inr other ↦ (
          o,
          ground (
            arith,
            other,
            there,
            lookup-insert w.id k (record w { status = OrderStatus.paid }) s.orders,
          ),
          paid,
        )
      ]

settle_item-orders :
    (t : ReplayTimes) (tally : Bool) (id : ℕ) (out : Store × Result WebhookProcessResult)
    → (settle_item t tally id out).0.orders ≡ out.0.orders
unfolding settle_item mark_payment_inbox_processed increment_payment_inbox_attempts
settle_item-orders t tally id (s, ok res) = ground arith
settle_item-orders t tally id (s, err e) = ground arith

failed-orders :
    (now : ℕ) (params : ProcessWebhookParams) (s : Store)
    → (process_payment_failed_tx now params s).0.orders ≡ s.orders
unfolding process_payment_failed_tx
failed-orders now params s = ground arith

raise-orders : (id : ℕ) (s : Store) → (raise_attempts id s).orders ≡ s.orders
unfolding increment_payment_inbox_attempts
raise-orders id s = ground arith

module _ (parse_int : String → ℤ) (float_to_int : ℕ → ℤ) (decimal : ℕ → String) where
  replay_item_keeps :
      (k : String) (t : ReplayTimes) (item : PaymentInboxItem) (s : Store)
      → IsPaid k s.orders
      → IsPaid k (replay_item parse_int float_to_int decimal t item s).0.orders
  unfolding replay_item
  replay_item_keeps k t item s paid = elim (Bool-cases (payload_order_id item.payload == "")) [
    | inl missing ↦ rw missing (rw (raise-orders item.id s) paid)
    | inr named ↦ elim (Bool-cases (is_succeeded (payload_status item.payload))) [
      | inl succeeded ↦ rw named (
          rw succeeded (
            rw (settle_item-orders t true item.id _) (
              success_keeps k t.stored_at (replay_params parse_int float_to_int decimal item) s
                paid)))
      | inr failed ↦ rw named (
          rw failed (
            rw (settle_item-orders t false item.id _) (
              rw (failed-orders t.stored_at (replay_params parse_int float_to_int decimal item) s)
                paid)))
    ]
  ]

  replay_items_keep :
      (k : String) (times : ℕ → ReplayTimes) (items : List PaymentInboxItem) (s : Store)
      (r : ReplayInboxResult)
      → IsPaid k s.orders
      → IsPaid k (replay_items parse_int float_to_int decimal times items s r).0.orders
  unfolding replay_items
  replay_items_keep k times [] s r paid = paid
  replay_items_keep k times (item ∷ items) s r paid =
      replay_items_keep k times items _ _ (replay_item_keeps k (times item.id) item s paid)

  replay_item_pays :
      (k : String) (t : ReplayTimes) (item : PaymentInboxItem) (o : OrderView) (s : Store)
      → payload_order_id item.payload ≡ k
      → (k == "") ≡ false
      → payload_status item.payload ≡ PaymentStatus.succeeded
      → lookup k s.orders ≡ some o
      → o.id ≡ k
      → (is_held o.status || is_payment_pending o.status) ≡ true
      → find_entry (is_recorded (replay_params parse_int float_to_int decimal item)) s.payments
        ≡ none
      → IsPaid k (replay_item parse_int float_to_int decimal t item s).0.orders
  unfolding replay_item process_payment_success_tx pay_order mark_paid replay_params
  replay_item_pays k t item o s about named succeeded there id payable new = (
    record o { status = OrderStatus.paid },
    ground (
      arith,
      settle_item-orders t true item.id (
          process_payment_success_tx t.stored_at (replay_params parse_int float_to_int decimal item)
            s),
      lookup-insert_self k (record o { status = OrderStatus.paid }) s.orders,
    ),
    refl,
  )

  -- The oldest webhook that is due pays its order, if the order can be paid, whatever other webhooks
  -- are replayed after it.
  pub oldest_webhook_pays :
      (config : ReplayConfig) (times : ℕ → ReplayTimes) (stale_at : ℕ) (limit : ℤ) (s : Store)
      (k : String) (item : PaymentInboxItem) (rest : List PaymentInboxItem) (o : OrderView)
      → get_pending_payment_inbox (limit_or_default limit) config.max_attempts s ≡ item ∷ rest
      → payload_order_id item.payload ≡ k
      → (k == "") ≡ false
      → payload_status item.payload ≡ PaymentStatus.succeeded
      → lookup k s.orders ≡ some o
      → o.id ≡ k
      → (is_held o.status || is_payment_pending o.status) ≡ true
      → find_entry (is_recorded (replay_params parse_int float_to_int decimal item)) s.payments
        ≡ none
      → IsPaid k
          (replay_inbox parse_int float_to_int decimal config times stale_at limit s).0.orders
  unfolding replay_inbox replay_items
  oldest_webhook_pays config times stale_at limit s k item rest o due about named succeeded there id
        payable new =
      rw due (
        replay_items_keep k times rest _ _
          (replay_item_pays k (times item.id) item o s about named succeeded there id payable new))
