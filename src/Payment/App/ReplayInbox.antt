-- ===== src/Payment/App/ReplayInbox.antt =====
-- services/payment/internal/app/replay_inbox.go: webhooks that came before their order are tried
-- again. The clock, and the readings of numbers that Go's library makes, are arguments.
use even_flow.Prelude.{
  ℕ, suc, Bool, true, false, Option, none, some, String, List, [], ◌∷◌, ◌==◌, string_Eq,
  if◌then◌else◌, length,
}
use Prim.Native.String.{◌++◌ as join}
use even_flow.Prelude.Int.{ℤ, pos, leb_ℤ}
use even_flow.Prelude.Map.{lookup}
use even_flow.Payment.Types.{
  PaymentStatus, str, int64, int, float64, Payload, PaymentInboxItem, WebhookProcessResult,
  ProcessWebhookParams, Result, ok, err, is_succeeded,
}
use even_flow.Payment.Store.{Store, process_payment_success_tx, process_payment_failed_tx}
use even_flow.Payment.Inbox.{
  get_pending_payment_inbox, mark_payment_inbox_processed, increment_payment_inbox_attempts,
  get_stale_payment_inbox,
}
use even_flow.Payment.App.Ports.{payment_status}
use even_flow.Payment.App.Webhook.{is_order_not_found}

pub record ReplayInboxResult : Type 0 where
  pub total_scanned : ℕ
  pub succeeded : ℕ
  pub already_done : ℕ
  pub still_pending : ℕ
  pub failed : ℕ
  pub stale_detected : ℕ

-- The use case's configuration; the constructor sets 5 attempts and 15 minutes.
pub record ReplayConfig : Type 0 where
  pub max_attempts : ℤ
  pub stale_threshold : ℕ

abbrev pub default_replay_config : ReplayConfig
default_replay_config = record { max_attempts = pos 5; stale_threshold = 900000000000 }

-- `if limit <= 0 { limit = 50 }`
unfoldable pub limit_or_default : ℤ → ℤ
limit_or_default limit = if leb_ℤ limit (pos 0) then pos 50 else limit

-- `payload[key].(string)`
abbrev pub string_at : String → Payload → Option String
string_at key payload = elim (lookup key payload) [
  | none ↦ none
  | some v ↦ elim v [ str s ↦ some s | int64 n ↦ none | int n ↦ none | float64 b ↦ none ]
]

abbrev pub first_of : Option String → String → String
first_of none s = s
first_of (some t) s = t

unfoldable pub payload_order_id : Payload → String
payload_order_id payload =
    first_of (string_at "order_id" payload)
      (first_of (string_at "orderId" payload) (first_of (string_at "vnp_OrderInfo" payload) ""))

unfoldable pub payload_status : Payload → PaymentStatus
payload_status payload = elim (string_at "status" payload) [
  | none ↦ PaymentStatus.succeeded
  | some s ↦ if s == "" then PaymentStatus.succeeded else payment_status s
]

-- What one item comes to: the counter that it raises.
pub data ReplayOutcome : Type 0 where
  done already pending failing : ReplayOutcome

-- The times that the repository and the use case read while an item is replayed.
pub record ReplayTimes : Type 0 where
  pub stored_at : ℕ
  pub processed_at : ℕ

unfoldable pub count_outcome : ReplayOutcome → ReplayInboxResult → ReplayInboxResult
count_outcome ReplayOutcome.done r = record r { succeeded = suc r.succeeded }
count_outcome ReplayOutcome.already r = record r { already_done = suc r.already_done }
count_outcome ReplayOutcome.pending r = record r { still_pending = suc r.still_pending }
count_outcome ReplayOutcome.failing r = record r { failed = suc r.failed }

abbrev pub raise_attempts : ℕ → Store → Store
raise_attempts id s = (increment_payment_inbox_attempts id s).0

-- After the repository's call: an error raises the attempts, a result marks the item as processed.
-- A failed payment that was recorded counts as a success of the replay (`tally` is false for it).
unfoldable pub settle_item :
    ReplayTimes → Bool → ℕ → Store × Result WebhookProcessResult → Store × ReplayOutcome
settle_item t tally id (s, err e) = (
  raise_attempts id s,
  if is_order_not_found e then ReplayOutcome.pending else ReplayOutcome.failing,
)
settle_item t tally id (s, ok res) = (
  (mark_payment_inbox_processed t.stored_at id t.processed_at s).0,
  if tally
      then (if res.already_done then ReplayOutcome.already else ReplayOutcome.done)
      else ReplayOutcome.done,
)

abbrev pub scanned : ℕ → ReplayInboxResult
scanned n = record {
  total_scanned = n;
  succeeded = 0;
  already_done = 0;
  still_pending = 0;
  failed = 0;
  stale_detected = 0;
}

-- `strconv.ParseInt` with its error dropped, Go's conversion of a float, and a number's decimals.
module _ (parse_int : String → ℤ) (float_to_int : ℕ → ℤ) (decimal : ℕ → String) where
  unfoldable pub payload_amount : Payload → ℤ
  payload_amount payload = elim (lookup "amount_cents" payload) [
    | none ↦ pos 0
    | some v ↦ elim v [ int64 n ↦ n | float64 b ↦ float_to_int b | int n ↦ n | str s ↦ parse_int s ]
  ]

  unfoldable pub replay_params : PaymentInboxItem → ProcessWebhookParams
  replay_params item = record {
    provider = item.provider;
    provider_txn_id = item.provider_txn_id;
    order_id = payload_order_id item.payload;
    payment_id = "";
    amount_cents = payload_amount item.payload;
    currency = "VND";
    status = payload_status item.payload;
    raw_payload = item.payload;
    trace_id = join "replay-inbox-" (decimal item.id);
    timestamp = item.received_at;
  }

  -- The body of the loop.
  unfoldable pub replay_item : ReplayTimes → PaymentInboxItem → Store → Store × ReplayOutcome
  replay_item t item s =
      if payload_order_id item.payload == ""
      then (raise_attempts item.id s, ReplayOutcome.failing)
      else if is_succeeded (payload_status item.payload)
      then settle_item t true item.id
          (process_payment_success_tx t.stored_at (replay_params item) s)
      else settle_item t false item.id
          (process_payment_failed_tx t.stored_at (replay_params item) s)

  -- The loop; `times` gives the clock's readings at each item, by its id.
  unfoldable pub replay_items :
      (ℕ → ReplayTimes)
      → List PaymentInboxItem
      → Store
      → ReplayInboxResult
      → Store × ReplayInboxResult
  replay_items times [] s r = (s, r)
  replay_items times (item ∷ items) s r =
      let (s', outcome) = replay_item (times item.id) item s in
      replay_items times items s' (count_outcome outcome r)

  -- `CheckStaleRecords` only reads; `stale_at` is when it does.
  unfoldable pub replay_inbox :
      ReplayConfig → (ℕ → ReplayTimes) → ℕ → ℤ → Store → Store × ReplayInboxResult
  replay_inbox config times stale_at limit s =
      let items = get_pending_payment_inbox (limit_or_default limit) config.max_attempts s in
      let (s', r) = replay_items times items s (scanned (length items)) in
      (
        s',
        record r {
          stale_detected =
              length (
                get_stale_payment_inbox stale_at config.stale_threshold (limit_or_default limit)
                  s');
        },
      )
