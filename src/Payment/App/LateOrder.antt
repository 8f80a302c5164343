-- ===== src/Payment/App/LateOrder.antt =====
-- A webhook that comes before its order is not lost (BR-O6), from end to end: process_webhook.go
-- stores it, the order appears, and replay_inbox.go (services/payment/internal/app) pays it.
use even_flow.Prelude.{
  ℕ, zero, suc, ◌≡◌, refl, true, false, none, some, ◌||◌, String, [], ◌∷◌, arith, ◌==◌, string_Eq,
  nat_Eq,
}
use even_flow.Prelude.Int.{ℤ, pos, negsuc}
use even_flow.Prelude.Map.{lookup, insert, find_entry, lookup-insert_self, lookup-insert_ne}
use even_flow.Prelude.Sort.{sort_by, cap_at}
use even_flow.Prelude.Text.{Unicode}
use even_flow.Payment.Types.{
  Provider, PaymentStatus, OrderView, PaymentInboxItem, Payload, str, int64, ok, is_held,
  is_payment_pending, is_valid_provider, normalize_provider,
}
use even_flow.Payment.Store.{Store, process_payment_success_tx, is_recorded, seed_order}
use even_flow.Payment.Inbox.{save_payment_inbox, get_pending_payment_inbox, is_due}
use even_flow.Payment.App.Ports.{CallbackResult, GatewayRegistry, status_text, payment_status}
use even_flow.Payment.App.Webhook.{
  ProcessWebhookInput, ReplayWindow, WebhookTimes, inbox_payload, add_missing, inbox_item,
  webhook_params, keep_for_later, apply_callback, take_callback, refusal, resolve_order_id,
  read_callback, process_webhook,
}
use even_flow.Payment.App.ReplayInbox.{
  ReplayConfig, ReplayTimes, replay_params, replay_inbox, payload_order_id, payload_status,
  limit_or_default,
}
use even_flow.Payment.App.EarlyWebhook.{IsPaid, oldest_webhook_pays}

-- What a replay reads back from a stored payload is what the webhook said.
read_order_id :
    (k : String) (payload : Payload)
    → lookup "order_id" payload ≡ some (str k)
    → payload_order_id payload ≡ k
unfolding payload_order_id
read_order_id k payload h = ground (arith, h)

stored_order_id :
    (cb : CallbackResult) (k : String) (base : Payload)
    → payload_order_id (inbox_payload cb k base) ≡ k
unfolding inbox_payload
stored_order_id cb k base =
    let m0 = insert "order_id" (str k) base in
    let m1 = insert "provider_txn_id" (str cb.provider_txn_id) m0 in
    let m2 = insert "amount_cents" (int64 cb.amount_cents) m1 in
    read_order_id k (insert "status" (str (status_text cb.status)) m2) (
      rw (lookup-insert_ne "status" "order_id" (str (status_text cb.status)) m2 refl) (
        rw (lookup-insert_ne "amount_cents" "order_id" (int64 cb.amount_cents) m1 refl) (
          rw (lookup-insert_ne "provider_txn_id" "order_id" (str cb.provider_txn_id) m0 refl)
            (lookup-insert_self "order_id" (str k) base))))

read_status :
    (payload : Payload)
    → lookup "status" payload ≡ some (str "SUCCEEDED")
    → payload_status payload ≡ PaymentStatus.succeeded
unfolding payload_status payment_status
read_status payload h = ground (arith, h)

stored_status :
    (cb : CallbackResult) (k : String) (base : Payload)
    → cb.status ≡ PaymentStatus.succeeded
    → payload_status (inbox_payload cb k base) ≡ PaymentStatus.succeeded
unfolding inbox_payload status_text
stored_status cb k base h =
    let m0 = insert "order_id" (str k) base in
    let m1 = insert "provider_txn_id" (str cb.provider_txn_id) m0 in
    let m2 = insert "amount_cents" (int64 cb.amount_cents) m1 in
    read_status (insert "status" (str (status_text cb.status)) m2)
      (rw (lookup-insert_self "status" (str (status_text cb.status)) m2) (rw h refl))

-- One webhook that has not been tried is what a replay reads from an inbox that holds no other.
one_due :
    (limit : ℤ) (m : ℕ) (s : Store) (id : ℕ) (item : PaymentInboxItem)
    → s.inbox ≡ (id, item) ∷ []
    → item.processed_at ≡ none
    → item.attempts ≡ 0
    → get_pending_payment_inbox (limit_or_default limit) (pos (suc m)) s ≡ item ∷ []
unfolding get_pending_payment_inbox is_due limit_or_default sort_by cap_at
one_due limit m s id item only fresh untried =
    rw (only, get_pending_payment_inbox) (rw (due, get_pending_payment_inbox) (cap_one limit))
  where
    due : is_due (pos (suc m)) item ≡ true
    due = ground (arith, fresh, untried)

    cap_one : (limit : ℤ) → cap_at (limit_or_default limit) (item ∷ []) ≡ item ∷ []
    cap_one (pos zero) = refl
    cap_one (pos (suc zero)) = ground arith
    cap_one (pos (suc (suc n))) = ground arith
    cap_one (negsuc n) = ground arith

-- The row that is stored for a webhook that came before its order.
abbrev kept : ℕ → Provider → CallbackResult → String → ProcessWebhookInput → ℕ → PaymentInboxItem
kept saved_at provider cb k input id =
    record (inbox_item saved_at provider cb
      (inbox_payload cb k (add_missing input.params cb.raw_payload))) { id = id }

module _ (u : Unicode) (registry : GatewayRegistry) where
  -- A verified and timely success of an order that does not exist, for a transaction that is not
  -- recorded, when the inbox is empty.
  abbrev pub Early :
      ReplayWindow → WebhookTimes → ProcessWebhookInput → CallbackResult → String → Store → Type 0
  Early w t input cb k s =
      let provider = normalize_provider u input.provider in
      (is_valid_provider provider ≡ true)
      × (read_callback u registry provider input.params ≡ ok cb)
      × (refusal w t.checked_at cb ≡ none)
      × (cb.status ≡ PaymentStatus.succeeded)
      × (resolve_order_id cb input.params s ≡ k)
      × ((k == "") ≡ false)
      × (lookup k s.orders ≡ none)
      × (find_entry (is_recorded (webhook_params provider cb k input.trace_id)) s.payments ≡ none)
      × (s.inbox ≡ [])

  callback_stored :
      (t : WebhookTimes) (provider : Provider) (input : ProcessWebhookInput) (cb : CallbackResult)
      (k : String) (s : Store)
      → cb.status ≡ PaymentStatus.succeeded
      → lookup k s.orders ≡ none
      → find_entry (is_recorded (webhook_params provider cb k input.trace_id)) s.payments ≡ none
      → s.inbox ≡ []
      → (apply_callback t provider cb k input s).0 ≡ record s {
        next_inbox_id = suc s.next_inbox_id;
        inbox =
            (suc s.next_inbox_id, kept t.saved_at provider cb k input (suc s.next_inbox_id)) ∷ [];
      }
  unfolding apply_callback keep_for_later process_payment_success_tx webhook_params
      save_payment_inbox find_entry insert
  callback_stored t provider input cb k s paid missing unrecorded empty =
      ground (arith, paid, missing, unrecorded, empty)

  Early-stored :
      (w : ReplayWindow) (t : WebhookTimes) (input : ProcessWebhookInput) (cb : CallbackResult)
      (k : String) (s : Store)
      → Early w t input cb k s
      → (process_webhook u registry w t input s).0 ≡ record s {
        next_inbox_id = suc s.next_inbox_id;
        inbox =
            (
              suc s.next_inbox_id,
              kept t.saved_at
                  (normalize_provider u input.provider)
                  cb
                  k
                  input
                  (suc s.next_inbox_id),
            )
            ∷ [];
      }
  unfolding process_webhook take_callback
  Early-stored w t input cb k s
        (known, read, fresh, paid, about, named, missing, unrecorded, empty) =
      let provider = normalize_provider u input.provider in
      ground (
        arith,
        known,
        read,
        fresh,
        about,
        named,
        callback_stored t provider input cb k s paid missing unrecorded empty,
      )

  -- A verified success that comes before its order pays the order when it appears: the webhook is
  -- stored, and once the order exists, HELD or PAYMENT_PENDING, one replay makes it PAID. The
  -- transaction must not be recorded as paid before, and the inbox holds no other webhook.
  pub late_order-IsPaid :
      (parse_int : String → ℤ) (float_to_int : ℕ → ℤ) (decimal : ℕ → String) (w : ReplayWindow)
      (t : WebhookTimes) (input : ProcessWebhookInput) (cb : CallbackResult) (k : String)
      (s : Store) (o : OrderView) (max_before : ℕ) (config : ReplayConfig) (times : ℕ → ReplayTimes)
      (stale_at : ℕ) (limit : ℤ)
      → Early w t input cb k s
      → o.id ≡ k
      → (is_held o.status || is_payment_pending o.status) ≡ true
      → config.max_attempts ≡ pos (suc max_before)
      → let s1 = seed_order o (process_webhook u registry w t input s).0 in
        IsPaid k
          (replay_inbox parse_int float_to_int decimal config times stale_at limit s1).0.orders
  unfolding seed_order replay_params is_recorded webhook_params
  late_order-IsPaid parse_int float_to_int decimal w t input cb k s o max_before config times
        stale_at limit early id payable tries =
      let (known, read, fresh, paid, about, named, missing, unrecorded, empty) = early in
      let item =
        kept t.saved_at (normalize_provider u input.provider) cb k input (suc s.next_inbox_id) in
      rw (Early-stored w t input cb k s early) (
        oldest_webhook_pays parse_int float_to_int decimal config times stale_at limit
          (seed_order o (record s {
            next_inbox_id = suc s.next_inbox_id;
            inbox = (suc s.next_inbox_id, item) ∷ [];
          }))
          k item [] o
          (rw tries (one_due limit max_before _ (suc s.next_inbox_id) item refl refl refl))
          (stored_order_id cb k _) named (stored_status cb k _ paid)
          (rw (← id) (lookup-insert_self o.id o s.orders)) id payable unrecorded)
