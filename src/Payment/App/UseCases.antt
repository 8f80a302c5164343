-- ===== src/Payment/App/UseCases.antt =====
-- The use cases of services/payment/internal/app that change the repository, as one step: each
-- execution has its own providers, clock readings and cancellation. What they do together, in terms
-- of the calls of services/payment/internal/adapter/postgres/memory_repository.go.
use even_flow.Prelude.{ℕ, ◌≤◌, ◌≡◌, Bool, String, List, [], ◌∷◌, some, string_Eq}
use even_flow.Prelude.Int.{ℤ}
use even_flow.Prelude.Map.{lookup}
use even_flow.Prelude.Text.{Unicode}
use even_flow.Payment.Types.{Provider, OrderView, Error}
use even_flow.Payment.Store.{Store}
use even_flow.Payment.History.{Call, run}
use even_flow.Payment.Once.{paid_events, paid_at_most_once}
use even_flow.Payment.App.Ports.{GatewayRegistry}
use even_flow.Payment.App.Webhook.{ProcessWebhookInput, ReplayWindow, WebhookTimes, process_webhook}
use even_flow.Payment.App.InitiatePayment.{InitiatePaymentInput, initiate_payment}
use even_flow.Payment.App.ReplayInbox.{ReplayConfig, ReplayTimes, replay_inbox}
use even_flow.Payment.App.RefundEvent.{
  RefundTimes, RefundCancelledEventInput, refund_cancelled_event,
}
use even_flow.Payment.App.Reconcile.{HealingTimes, reconcile_stale_orders}
use even_flow.Payment.App.Reach.{
  Reaches, reach_refl, reach_trans, initiate_payment_reach, process_webhook_reach,
}
use even_flow.Payment.App.ReachJobs.{
  replay_inbox_reach, refund_cancelled_event_reach, reconcile_reach,
}

pub data UseCase : Type 0 where
  webhook : GatewayRegistry → ReplayWindow → WebhookTimes → ProcessWebhookInput → UseCase
  initiate : GatewayRegistry → ℕ → String → InitiatePaymentInput → UseCase
  replay : ReplayConfig → (ℕ → ReplayTimes) → ℕ → ℤ → UseCase
  refund_event :
      GatewayRegistry
      → (String → RefundTimes)
      → (String → Bool)
      → String
      → RefundCancelledEventInput
      → UseCase
  reconcile : GatewayRegistry → (String → HealingTimes) → (String → Bool) → ℕ → ℕ → ℤ → UseCase

-- The library functions that the use cases call: see the modules of the use cases.
pub record Library : Type 0 where
  pub unicode : Unicode
  pub parse_int : String → ℤ
  pub float_to_int : ℕ → ℤ
  pub decimal : ℕ → String
  pub rfc3339 : ℕ → String
  pub error_text : Error → String
  pub trace_of : String → ℕ → String
  pub reason_of : Provider → String → String

module _ (lib : Library) where
  unfoldable pub execute : UseCase → Store → Store
  execute (webhook registry w t input) s = (process_webhook lib.unicode registry w t input s).0
  execute (initiate registry now id input) s = (initiate_payment registry now id input s).0
  execute (replay config times stale_at limit) s =
      (replay_inbox lib.parse_int lib.float_to_int lib.decimal config times stale_at limit s).0
  execute (refund_event registry times is_cancelled fresh_trace input) s =
      (refund_cancelled_event lib.rfc3339 lib.error_text registry times is_cancelled fresh_trace
        input s).0
  execute (reconcile registry times is_cancelled now threshold limit) s =
      (reconcile_stale_orders lib.trace_of lib.reason_of registry times is_cancelled now threshold
        limit s).0

  unfoldable pub execute_all : List UseCase → Store → Store
  execute_all [] s = s
  execute_all (c ∷ cs) s = execute_all cs (execute c s)

  -- Every execution of a use case, whatever the providers answer, is a history of calls of the
  -- repository.
  execute-Reaches :
      (c : UseCase) (s : Store)
      → (calls : List (ℕ × Call)) × (run lib.rfc3339 calls s ≡ execute c s)
  unfolding execute
  execute-Reaches (webhook registry w t input) s =
      process_webhook_reach lib.rfc3339 lib.unicode registry w t input s
  execute-Reaches (initiate registry now id input) s =
      initiate_payment_reach lib.rfc3339 registry now id input s
  execute-Reaches (replay config times stale_at limit) s =
      replay_inbox_reach lib.rfc3339 lib.parse_int lib.float_to_int lib.decimal config times
        stale_at limit s
  execute-Reaches (refund_event registry times is_cancelled fresh_trace input) s =
      refund_cancelled_event_reach lib.rfc3339 lib.error_text registry times is_cancelled
        fresh_trace input s
  execute-Reaches (reconcile registry times is_cancelled now threshold limit) s =
      reconcile_reach lib.rfc3339 lib.trace_of lib.reason_of registry times is_cancelled now
        threshold limit s

  execute_all-Reaches : (cs : List UseCase) (s : Store) → Reaches lib.rfc3339 s (execute_all cs s)
  unfolding execute_all
  execute_all-Reaches [] s = reach_refl lib.rfc3339 s
  execute_all-Reaches (c ∷ cs) s =
      reach_trans lib.rfc3339 s (execute c s) _ (execute-Reaches c s)
        (execute_all-Reaches cs (execute c s))

  -- From a repository whose orders stand under their own ids and whose outbox is empty, no sequence
  -- of use cases publishes `order.paid` twice for one order, whatever the providers answer.
  pub published_once :
      (cs : List UseCase) (s : Store) (k : String)
      → ((j : String) (o : OrderView) → lookup j s.orders ≡ some o → o.id ≡ j)
      → s.outbox ≡ []
      → paid_events k (execute_all cs s).outbox ≤ 1
  published_once cs s k ids empty =
      let (calls, e) = execute_all-Reaches cs s in
      rw (← e) (paid_at_most_once lib.rfc3339 calls s k ids empty)
