-- ===== src/Payment/Types.antt =====
-- services/payment/internal/domain/payment.go and errors.go: the records and status tests. Order
-- statuses are those that migrations/0001_core.sql admits. Times are nanoseconds since Go's zero
-- time, which is 0; amounts are `int64` as integers. An error keeps its sentinel, not its text.
use even_flow.Prelude.{
  ◌≡◌, refl, ◌⊎◌, inl, inr, ℕ, ◌+◌, Bool, true, false, not, ◌||◌, Option, none, some, String, ltb,
  ◌==◌, string_Eq, if◌then◌else◌,
}
use even_flow.Prelude.Int.{ℤ}
use even_flow.Prelude.Map.{Map}
use even_flow.Prelude.Text.{Text, text, text_Eq, Unicode, to_lower, trim_space}

abbrev pub Provider : Type 0
Provider = Text

abbrev pub sandbox : Provider
sandbox = text "sandbox"

abbrev pub vn_pay : Provider
vn_pay = text "vnpay"

abbrev pub mo_mo : Provider
mo_mo = text "momo"

abbrev pub stripe : Provider
stripe = text "stripe"

unfoldable pub normalize_provider : Unicode → Text → Provider
normalize_provider u s = to_lower u (trim_space s)

unfoldable pub is_valid_provider : Provider → Bool
is_valid_provider p = p == sandbox || p == vn_pay || p == mo_mo || p == stripe

pub data PaymentStatus : Type 0 where
  pending succeeded failed refunded : PaymentStatus
  unknown : String → PaymentStatus  -- any other text

unfoldable pub is_terminal : PaymentStatus → Bool
is_terminal PaymentStatus.succeeded = true
is_terminal PaymentStatus.failed = true
is_terminal PaymentStatus.refunded = true
is_terminal _ = false

abbrev pub is_succeeded : PaymentStatus → Bool
is_succeeded PaymentStatus.succeeded = true
is_succeeded _ = false

abbrev pub is_pending : PaymentStatus → Bool
is_pending PaymentStatus.pending = true
is_pending _ = false

abbrev pub is_failed : PaymentStatus → Bool
is_failed PaymentStatus.failed = true
is_failed _ = false

pub data OrderStatus : Type 0 where
  held payment_pending paid issued expired cancelled refunding refunded : OrderStatus

-- A JSON value of a raw payload; a float is its bit pattern.
pub data Value : Type 0 where
  str : String → Value
  int64 int : ℤ → Value
  float64 : ℕ → Value

abbrev pub Payload : Type 0
Payload = Map String Value

pub record Payment : Type 0 where
  pub id : String
  pub order_id : String
  pub provider : Provider
  pub provider_txn_id : String
  pub amount_cents : ℤ
  pub currency : String
  pub status : PaymentStatus
  pub raw_payload : Payload  -- a nil map reads as the empty one
  pub created_at : ℕ

unfoldable pub can_be_processed : Payment → Bool
can_be_processed p = is_pending p.status

pub record OrderView : Type 0 where
  pub id : String
  pub event_id : String
  pub identity_id : String
  pub status : OrderStatus
  pub total_cents : ℤ
  pub currency : String
  pub expires_at : ℕ
  pub created_at : ℕ
  pub updated_at : ℕ

abbrev pub is_held : OrderStatus → Bool
is_held OrderStatus.held = true
is_held _ = false

abbrev pub is_payment_pending : OrderStatus → Bool
is_payment_pending OrderStatus.payment_pending = true
is_payment_pending _ = false

abbrev pub is_paid : OrderStatus → Bool
is_paid OrderStatus.paid = true
is_paid _ = false

abbrev pub is_refunded : OrderStatus → Bool
is_refunded OrderStatus.refunded = true
is_refunded _ = false

-- `Status == "PAID" || Status == "ISSUED" || Status == "REFUNDING"`
abbrev pub is_refundable : OrderStatus → Bool
is_refundable OrderStatus.paid = true
is_refundable OrderStatus.issued = true
is_refundable OrderStatus.refunding = true
is_refundable _ = false

unfoldable pub is_expired : OrderView → ℕ → Bool
is_expired o now = not (ltb now o.expires_at)

pub record PaymentInboxItem : Type 0 where
  pub id : ℕ
  pub provider : Provider
  pub provider_txn_id : String
  pub payload : Payload
  pub received_at : ℕ
  pub processed_at : Option ℕ
  pub attempts : ℕ

abbrev pub is_processed : PaymentInboxItem → Bool
is_processed item = elim item.processed_at [ none ↦ false | some t ↦ true ]

-- `now.Sub(receivedAt) > threshold`, for a threshold that is not negative
unfoldable pub is_stale : PaymentInboxItem → ℕ → ℕ → Bool
is_stale item now threshold =
    if is_processed item then false else ltb (item.received_at + threshold) now

pub record WebhookProcessResult : Type 0 where
  pub success : Bool
  pub already_done : Bool
  pub stored_in_inbox : Bool
  pub order_id : String
  pub payment_id : String
  pub provider_txn_id : String
  pub status : PaymentStatus
  pub message : String

pub record ProcessWebhookParams : Type 0 where
  pub provider : Provider
  pub provider_txn_id : String
  pub order_id : String
  pub payment_id : String
  pub amount_cents : ℤ
  pub currency : String
  pub status : PaymentStatus
  pub raw_payload : Payload
  pub trace_id : String
  pub timestamp : ℕ

pub record CancelOrderParams : Type 0 where
  pub order_id : String
  pub trace_id : String
  pub reason : String
  pub payment_id : String

pub record CancelOrderResult : Type 0 where
  pub order_id : String
  pub already_done : Bool
  pub holds_released : ℕ
  pub tickets_returned : ℕ
  pub status : OrderStatus

pub record ProcessRefundParams : Type 0 where
  pub order_id : String
  pub payment_id : String
  pub provider : Provider
  pub refund_txn_id : String
  pub amount_cents : ℤ
  pub reason : String
  pub trace_id : String
  pub timestamp : ℕ

pub record ProcessRefundResult : Type 0 where
  pub order_id : String
  pub payment_id : String
  pub already_done : Bool
  pub tickets_refunded : ℕ
  pub status : OrderStatus

-- The payloads of the events that the service publishes.
pub data OutboxPayload : Type 0 where
  order_paid :
      (order_id event_id identity_id payment_id : String) (provider : Provider)
      (provider_txn_id : String) (amount_cents : ℤ) (currency : String) (paid_at : ℕ)
      → OutboxPayload
  hold_released : (order_id event_id reason : String) (released_at : ℕ) → OutboxPayload
  payment_refunded :
      (order_id event_id identity_id payment_id : String) (provider : Provider)
      (refund_txn_id : String) (amount_cents : ℤ) (currency reason : String) (refunded_at : ℕ)
      → OutboxPayload

pub data Error : Type 0 where
  hold_expired order_not_found order_not_held amount_mismatch currency_mismatch : Error
  unsupported_provider provider_disabled invalid_input payment_already_processed : Error
  gateway_communication invalid_signature replay_detected duplicate_webhook : Error
  order_not_refundable refund_failed already_refunded : Error
  not_found : Error  -- an error with no sentinel: a payment or an inbox item is missing

pub data Result {ℓ} (A : Type ℓ) : Type ℓ where
  ok : A → Result A
  err : Error → Result A

pub Result-cases {ℓ} :
    {A : Type ℓ} (r : Result A) → ((a : A) × (r ≡ ok a)) ⊎ ((e : Error) × (r ≡ err e))
Result-cases (ok a) = inl (a, refl)
Result-cases (err e) = inr (e, refl)
