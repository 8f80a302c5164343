-- ===== src/Payment/App/Ports.antt =====
-- services/payment/internal/port/gateway.go: what the use cases ask of a payment provider. A provider
-- is a record of functions, which the use cases take as an argument.
use even_flow.Prelude.{ℕ, Bool, String, ◌==◌, string_Eq, if◌then◌else◌}
use even_flow.Prelude.Int.{ℤ}
use even_flow.Prelude.Map.{Map}
use even_flow.Payment.Types.{Provider, PaymentStatus, Payload, Result}

pub record PaymentRequest : Type 0 where
  pub event_id : String
  pub order_id : String
  pub hold_id : String
  pub payment_id : String
  pub amount_cents : ℤ
  pub currency : String
  pub buyer_name : String
  pub buyer_email : String
  pub buyer_phone : String
  pub return_url : String
  pub client_ip : String

pub record PaymentResult : Type 0 where
  pub payment_id : String
  pub order_id : String
  pub redirect_url : String
  pub status : String
  pub provider_txn_id : String
  pub raw_response : Payload

pub record CallbackResult : Type 0 where
  pub valid : Bool
  pub provider_txn_id : String
  pub order_id : String
  pub payment_id : String
  pub status : PaymentStatus
  pub amount_cents : ℤ
  pub timestamp : ℕ
  pub raw_payload : Payload
  pub message : String

pub record PaymentQueryRequest : Type 0 where
  pub order_id : String
  pub payment_id : String
  pub provider_txn_id : String

pub record PaymentQueryResult : Type 0 where
  pub provider_txn_id : String
  pub status : PaymentStatus
  pub amount_cents : ℤ
  pub raw_response : Payload
  pub message : String

pub record PaymentRefundRequest : Type 0 where
  pub payment_id : String
  pub order_id : String
  pub provider_txn_id : String
  pub amount_cents : ℤ
  pub currency : String
  pub reason : String
  pub refund_id : String

pub record PaymentRefundResult : Type 0 where
  pub refund_txn_id : String
  pub status : PaymentStatus
  pub amount_cents : ℤ
  pub raw_response : Payload
  pub message : String

pub record PaymentGateway : Type 0 where
  pub provider : Provider
  pub initiate_payment : PaymentRequest → Result PaymentResult
  pub verify_callback : Map String String → Result CallbackResult
  pub query_payment : PaymentQueryRequest → Result PaymentQueryResult
  pub refund_payment : PaymentRefundRequest → Result PaymentRefundResult

pub record GatewayRegistry : Type 0 where
  pub get : Provider → Result PaymentGateway
  pub default_provider : Provider

-- `domain.PaymentStatus(text)`, and the text of a status.
unfoldable pub payment_status : String → PaymentStatus
payment_status t =
    if t == "PENDING"
    then PaymentStatus.pending
    else if t == "SUCCEEDED"
    then PaymentStatus.succeeded
    else if t == "FAILED"
    then PaymentStatus.failed
    else if t == "REFUNDED"
    then PaymentStatus.refunded
    else PaymentStatus.unknown t

unfoldable pub status_text : PaymentStatus → String
status_text PaymentStatus.pending = "PENDING"
status_text PaymentStatus.succeeded = "SUCCEEDED"
status_text PaymentStatus.failed = "FAILED"
status_text PaymentStatus.refunded = "REFUNDED"
status_text (PaymentStatus.unknown t) = t
