-- ===== src/Payment/App/Webhook.antt =====
-- services/payment/internal/app/process_webhook.go: a provider reports a payment. The log lines are
-- left out. Saving to the inbox cannot fail on the in-memory repository.
use even_flow.Prelude.{
  ℕ, ◌+◌, Bool, true, false, not, ◌&&◌, Option, none, some, String, [], ◌∷◌, ◌==◌, string_Eq,
  if◌then◌else◌, ltb, nat_eq,
}
use even_flow.Prelude.Int.{int_Eq}
use even_flow.Prelude.Map.{Map, lookup, insert}
use even_flow.Prelude.Text.{Text, Unicode}
use even_flow.Payment.Types.{
  Provider, PaymentStatus, Payload, str, int64, PaymentInboxItem, WebhookProcessResult,
  ProcessWebhookParams, Error, order_not_found, unsupported_provider, gateway_communication,
  invalid_signature, replay_detected, invalid_input, Result, ok, err, is_succeeded,
  normalize_provider, is_valid_provider,
}
use even_flow.Payment.Store.{
  Store, get_payment, process_payment_success_tx, process_payment_failed_tx,
}
use even_flow.Payment.Inbox.{save_payment_inbox}
use even_flow.Payment.App.Ports.{CallbackResult, GatewayRegistry, status_text}

pub record ProcessWebhookInput : Type 0 where
  pub provider : Text
  pub params : Map String String
  pub trace_id : String

-- The two durations that the use case is configured with.
pub record ReplayWindow : Type 0 where
  pub replay_window : ℕ
  pub clock_skew_max : ℕ

-- The constructor's window: 300 and 60 seconds.
abbrev pub default_window : ReplayWindow
default_window = record { replay_window = 300000000000; clock_skew_max = 60000000000 }

-- When one execution reads the clock: for the check of the timestamp, in the repository's
-- transaction, and for the row of the inbox.
pub record WebhookTimes : Type 0 where
  pub checked_at : ℕ
  pub stored_at : ℕ
  pub saved_at : ℕ

-- A result and an error, either of which may be its type's zero value.
abbrev pub Outcome : Type 0
Outcome = WebhookProcessResult × Option Error

abbrev pub no_result : WebhookProcessResult
no_result = record {
  success = false;
  already_done = false;
  stored_in_inbox = false;
  order_id = "";
  payment_id = "";
  provider_txn_id = "";
  status = PaymentStatus.unknown "";
  message = "";
}

abbrev refused : String → Error → Outcome
refused message e = (record no_result { status = PaymentStatus.failed; message = message }, some e)

-- Steps 3 and 4 on a callback: its signature, its age and its skew.
unfoldable pub refusal : ReplayWindow → ℕ → CallbackResult → Option Outcome
refusal w now cb =
    if not cb.valid
    then some (refused cb.message invalid_signature)
    else if nat_eq cb.timestamp 0
    then none
    else if ltb (cb.timestamp + w.replay_window) now
    then some
        (refused "webhook qua cua so thoi gian cho phep (phat hien replay attack)" replay_detected)
    else if ltb (now + w.clock_skew_max) cb.timestamp
    then some (refused "timestamp webhook vuot qua dung sai clock skew tuong lai" replay_detected)
    else none

-- `in.Params[key]`
abbrev pub param : String → Map String String → String
param key params = elim (lookup key params) [ none ↦ "" | some v ↦ v ]

-- `if orderID == "" && other != "" { orderID = other }`
abbrev or_else : String → String → String
or_else id other = if id == "" && not (other == "") then other else id

-- Step 5: the order that the webhook is about.
unfoldable pub resolve_order_id : CallbackResult → Map String String → Store → String
resolve_order_id cb params s =
    let by_payment =
      if cb.order_id == "" && not (cb.payment_id == "")
      then elim (get_payment cb.payment_id s) [ ok p ↦ p.order_id | err e ↦ cb.order_id ]
      else cb.order_id in
    or_else (or_else (or_else by_payment (param "order_id" params)) (param "orderId" params))
      (param "vnp_OrderInfo" params)

-- The loop that adds the parameters whose keys the payload does not have.
unfoldable pub add_missing : Map String String → Payload → Payload
add_missing [] payload = payload
add_missing ((k, v) ∷ params) payload =
    add_missing params
      (elim (lookup k payload) [ none ↦ insert k (str v) payload | some w ↦ payload ])

unfoldable pub inbox_payload : CallbackResult → String → Payload → Payload
inbox_payload cb order_id base = insert "status" (str (status_text cb.status)) (
    insert "amount_cents" (int64 cb.amount_cents)
      (insert "provider_txn_id" (str cb.provider_txn_id) (insert "order_id" (str order_id) base)))

abbrev pub inbox_item : ℕ → Provider → CallbackResult → Payload → PaymentInboxItem
inbox_item saved_at provider cb payload = record {
  id = 0;
  provider = provider;
  provider_txn_id = cb.provider_txn_id;
  payload = payload;
  received_at = saved_at;
  processed_at = none;
  attempts = 0;
}

stored_result : CallbackResult → String → String → WebhookProcessResult
stored_result cb order_id message = record {
  success = true;
  already_done = false;
  stored_in_inbox = true;
  order_id = order_id;
  payment_id = "";
  provider_txn_id = cb.provider_txn_id;
  status = PaymentStatus.pending;
  message = message;
}

abbrev pub is_order_not_found : Error → Bool
is_order_not_found order_not_found = true
is_order_not_found _ = false

-- What follows the repository's call: an order that is not there yet puts the webhook, with the
-- given payload, into the inbox.
unfoldable pub keep_for_later :
    ℕ
    → Provider
    → CallbackResult
    → String
    → Payload
    → String
    → Store × Result WebhookProcessResult
    → Store × Outcome
unfolding stored_result
keep_for_later saved_at provider cb order_id payload message (s, ok res) = (s, (res, none))
keep_for_later saved_at provider cb order_id payload message (s, err e) =
    if is_order_not_found e
    then (
      (save_payment_inbox saved_at (inbox_item saved_at provider cb payload) s).0,
      (stored_result cb order_id message, none),
    )
    else (s, (no_result, some e))

unfoldable pub webhook_params : Provider → CallbackResult → String → String → ProcessWebhookParams
webhook_params provider cb order_id trace_id = record {
  provider = provider;
  provider_txn_id = cb.provider_txn_id;
  order_id = order_id;
  payment_id = cb.payment_id;
  amount_cents = cb.amount_cents;
  currency = "VND";
  status = cb.status;
  raw_payload = cb.raw_payload;
  trace_id = trace_id;
  timestamp = cb.timestamp;
}

-- Step 6, for a webhook about an order.
unfoldable pub apply_callback :
    WebhookTimes
    → Provider
    → CallbackResult
    → String
    → ProcessWebhookInput
    → Store
    → Store × Outcome
apply_callback t provider cb order_id input s =
    let params = webhook_params provider cb order_id input.trace_id in
    if is_succeeded cb.status
    then keep_for_later t.saved_at provider cb order_id
        (inbox_payload cb order_id (add_missing input.params cb.raw_payload))
        "webhook lưu vào payment_inbox thành công, chờ đơn xuất hiện để replay (BR-O6)"
        (process_payment_success_tx t.stored_at params s)
    else keep_for_later t.saved_at provider cb order_id (inbox_payload cb order_id cb.raw_payload)
        "webhook failed lưu vào payment_inbox thành công để chờ đơn (BR-O6)"
        (process_payment_failed_tx t.stored_at params s)

-- Steps 4 to 6, on a callback that the provider's adapter has read.
unfoldable pub take_callback :
    ReplayWindow
    → WebhookTimes
    → Provider
    → CallbackResult
    → ProcessWebhookInput
    → Store
    → Store × Outcome
take_callback w t provider cb input s = elim (refusal w t.checked_at cb) [
  | some outcome ↦ (s, outcome)
  | none ↦
      let order_id = resolve_order_id cb input.params s in
      if order_id == ""
      then (s, (no_result, some invalid_input))
      else apply_callback t provider cb order_id input s
]

module _ (u : Unicode) (registry : GatewayRegistry) where
  -- Steps 2 and 3: the provider's adapter reads and verifies the parameters.
  unfoldable pub read_callback : Provider → Map String String → Result CallbackResult
  read_callback provider params = elim (registry.get provider) [
    | err e ↦ err e
    | ok gw ↦ elim (gw.verify_callback params) [ err e ↦ err gateway_communication | ok cb ↦ ok cb ]
  ]

  unfoldable pub process_webhook :
      ReplayWindow → WebhookTimes → ProcessWebhookInput → Store → Store × Outcome
  process_webhook w t input s =
      let provider = normalize_provider u input.provider in
      if not (is_valid_provider provider)
      then (s, (no_result, some unsupported_provider))
      else elim (read_callback provider input.params) [
        | err e ↦ (s, (no_result, some e))
        | ok cb ↦ take_callback w t provider cb input s
      ]
