-- ===== src/Payment/App/ReachJobs.antt =====
-- What the jobs over many webhooks or orders (services/payment/internal/app/replay_inbox.go,
-- refund_event.go and reconcile_orders.go) do in terms of the repository's calls.
use even_flow.Prelude.{
  ℕ, ◌≡◌, refl, inl, inr, Bool, true, false, String, List, [], ◌∷◌, ◌==◌, string_Eq, Bool-cases,
  Option-cases,
}
use even_flow.Prelude.Int.{ℤ, int_Eq}
use even_flow.Prelude.Text.{text_Eq}
use even_flow.Payment.Types.{
  Provider, PaymentStatus, PaymentInboxItem, ProcessWebhookParams, WebhookProcessResult,
  CancelOrderParams, Error, Result, Result-cases, ok, err, is_succeeded, is_failed, is_refunded,
}
use even_flow.Payment.Store.{Store}
use even_flow.Payment.Orders.{OrderInfo, process_refund_failed_tx}
use even_flow.Payment.History.{
  processes, increments, cancels, starts_refund, refunds, fails_refund, step,
}
use even_flow.Payment.App.Ports.{
  PaymentGateway, PaymentRefundResult, PaymentQueryResult, GatewayRegistry,
}
use even_flow.Payment.App.ReplayInbox.{
  ReplayConfig, ReplayTimes, ReplayInboxResult, settle_item, replay_item, replay_items,
  replay_inbox, payload_order_id, payload_status,
}
use even_flow.Payment.App.RefundEvent.{
  RefundTimes, RefundCancelledEventInput, RefundCancelledEventOutput, is_refunding, mark_first,
  store_refund, send_refund, refund_marked, refund_one, refund_orders, refund_cancelled_event,
  refund_request, refund_provider,
}
use even_flow.Payment.App.Reconcile.{
  HealingTimes, ReconciliationResult, heal_cancelled, heal_paid, heal_by_answer, heal_one,
  heal_orders, reconcile_stale_orders, query_request,
}
use even_flow.Payment.App.Reach.{
  Reaches, reach_refl, reach_call, reach_trans, success_reach, failure_reach,
}

module _ (rfc3339 : ℕ → String) where
  settle_item_reach :
      (t : ReplayTimes) (tally : Bool) (id : ℕ) (s : Store)
      (out : Store × Result WebhookProcessResult)
      → Reaches rfc3339 s out.0
      → Reaches rfc3339 s (settle_item t tally id out).0
  unfolding settle_item step
  settle_item_reach t tally id s (s', err e) h =
      reach_trans rfc3339 s s' _ h (reach_call rfc3339 t.stored_at (increments id) s')
  settle_item_reach t tally id s (s', ok res) h =
      reach_trans rfc3339 s s' _ h (reach_call rfc3339 t.stored_at (processes id t.processed_at) s')

  pub mark_first_reach :
      (now : ℕ) (info : OrderInfo) (s : Store) → Reaches rfc3339 s (mark_first now info s).0
  unfolding mark_first step
  mark_first_reach now info s = elim (Bool-cases (is_refunding info.order.status)) [
    | inl done ↦ rw done (reach_refl rfc3339 s)
    | inr todo ↦ rw todo (reach_call rfc3339 now (starts_refund info.order.id) s)
  ]

  heal_cancelled_reach :
      (t : HealingTimes) (params : CancelOrderParams) (s : Store)
      → Reaches rfc3339 s (heal_cancelled t params s).0
  unfolding heal_cancelled step
  heal_cancelled_reach t params s = reach_call rfc3339 t.stored_at (cancels params) s

  heal_paid_reach :
      (t : HealingTimes) (params : ProcessWebhookParams) (s : Store)
      → Reaches rfc3339 s (heal_paid t params s).0
  unfolding heal_paid
  heal_paid_reach t params s = success_reach rfc3339 t.stored_at params s

  module _ (parse_int : String → ℤ) (float_to_int : ℕ → ℤ) (decimal : ℕ → String) where
    replay_item_reach :
        (t : ReplayTimes) (item : PaymentInboxItem) (s : Store)
        → Reaches rfc3339 s (replay_item parse_int float_to_int decimal t item s).0
    unfolding replay_item step
    replay_item_reach t item s = elim (Bool-cases (payload_order_id item.payload == "")) [
      | inl missing ↦ rw missing (reach_call rfc3339 t.stored_at (increments item.id) s)
      | inr there ↦ elim (Bool-cases (is_succeeded (payload_status item.payload))) [
        | inl paid ↦
            rw there (
              rw paid
                (settle_item_reach t true item.id s _ (success_reach rfc3339 t.stored_at _ s)))
        | inr failed ↦ rw there (
            rw failed
              (settle_item_reach t false item.id s _ (failure_reach rfc3339 t.stored_at _ s)))
      ]
    ]

    replay_items_reach :
        (times : ℕ → ReplayTimes) (items : List PaymentInboxItem) (s : Store)
        (r : ReplayInboxResult)
        → Reaches rfc3339 s (replay_items parse_int float_to_int decimal times items s r).0
    unfolding replay_items
    replay_items_reach times [] s r = reach_refl rfc3339 s
    replay_items_reach times (item ∷ items) s r =
        reach_trans rfc3339 s (replay_item parse_int float_to_int decimal (times item.id) item s).0
          _ (replay_item_reach (times item.id) item s) (replay_items_reach times items _ _)

    pub replay_inbox_reach :
        (config : ReplayConfig) (times : ℕ → ReplayTimes) (stale_at : ℕ) (limit : ℤ) (s : Store)
        → Reaches rfc3339 s
            (replay_inbox parse_int float_to_int decimal config times stale_at limit s).0
    unfolding replay_inbox
    replay_inbox_reach config times stale_at limit s = replay_items_reach times _ s _

  module _ (error_text : Error → String) (registry : GatewayRegistry) where
    store_refund_reach :
        (t : RefundTimes) (input : RefundCancelledEventInput) (info : OrderInfo)
        (res : PaymentRefundResult) (s : Store)
        → Reaches rfc3339 s (store_refund rfc3339 error_text registry t input info res s).0
    unfolding store_refund step
    store_refund_reach t input info res s = reach_call rfc3339 t.stored_at (refunds _) s

    failed_refund_reach :
        (now : ℕ) (order_id payment_id reason : String) (s : Store)
        → Reaches rfc3339 s (process_refund_failed_tx rfc3339 now order_id payment_id reason s)
    unfolding step
    failed_refund_reach now order_id payment_id reason s =
        reach_call rfc3339 now (fails_refund order_id payment_id reason) s

    send_refund_reach :
        (t : RefundTimes) (input : RefundCancelledEventInput) (info : OrderInfo)
        (gw : PaymentGateway) (s : Store)
        → Reaches rfc3339 s (send_refund rfc3339 error_text registry t input info gw s).0
    unfolding send_refund
    send_refund_reach t input info gw s =
        elim (Result-cases (gw.refund_payment (refund_request input.reason info))) [
          | inr (e, lost) ↦
              rw (lost, send_refund) (failed_refund_reach t.stored_at info.order.id _ _ s)
          | inl (res, answer) ↦ elim (Bool-cases (is_failed res.status)) [
            | inl refused ↦
                rw (answer, send_refund)
                  (rw refused (failed_refund_reach t.stored_at info.order.id _ _ s))
            | inr taken ↦
                rw (answer, send_refund) (rw taken (store_refund_reach t input info res s))
          ]
        ]

    refund_marked_reach :
        (t : RefundTimes) (input : RefundCancelledEventInput) (info : OrderInfo) (s : Store)
        → Reaches rfc3339 s (refund_marked rfc3339 error_text registry t input info s).0
    unfolding refund_marked
    refund_marked_reach t input info s =
        elim (Result-cases (registry.get (refund_provider rfc3339 error_text registry info))) [
          | inr (e, missing) ↦
              rw (missing, refund_marked) (failed_refund_reach t.stored_at info.order.id _ _ s)
          | inl (gw, there) ↦ rw (there, refund_marked) (send_refund_reach t input info gw s)
        ]

    pub refund_one_reach :
        (t : RefundTimes) (input : RefundCancelledEventInput) (info : OrderInfo) (s : Store)
        → Reaches rfc3339 s (refund_one rfc3339 error_text registry t input info s).0
    unfolding refund_one
    refund_one_reach t input info s = elim (Bool-cases (is_refunded info.order.status)) [
      | inl done ↦ rw done (reach_refl rfc3339 s)
      | inr todo ↦ rw todo (elim (Option-cases (mark_first t.marked_at info s).1) [
        | inr (e, unmarked) ↦ rw (unmarked, refund_one) (mark_first_reach t.marked_at info s)
        | inl marked ↦
            rw (marked, refund_one)
              (reach_trans rfc3339 s (mark_first t.marked_at info s).0 _
                (mark_first_reach t.marked_at info s) (refund_marked_reach t input info _))
      ])
    ]

    refund_orders_reach :
        (times : String → RefundTimes) (is_cancelled : String → Bool)
        (input : RefundCancelledEventInput) (infos : List OrderInfo) (s : Store)
        (out : RefundCancelledEventOutput)
        → Reaches rfc3339 s
            (refund_orders rfc3339 error_text registry times is_cancelled input infos s out).0
    unfolding refund_orders
    refund_orders_reach times is_cancelled input [] s out = reach_refl rfc3339 s
    refund_orders_reach times is_cancelled input (info ∷ infos) s out =
        elim (Bool-cases (is_cancelled info.order.id)) [
          | inl stopped ↦ rw stopped (reach_refl rfc3339 s)
          | inr going ↦ rw going (
              reach_trans rfc3339 s
                (refund_one rfc3339 error_text registry (times info.order.id) input info s).0 _
                (refund_one_reach (times info.order.id) input info s)
                (refund_orders_reach times is_cancelled input infos _ _))
        ]

    pub refund_cancelled_event_reach :
        (times : String → RefundTimes) (is_cancelled : String → Bool) (fresh_trace : String)
        (input : RefundCancelledEventInput) (s : Store)
        → Reaches rfc3339 s
            (refund_cancelled_event rfc3339 error_text registry times is_cancelled fresh_trace input
              s).0
    unfolding refund_cancelled_event
    refund_cancelled_event_reach times is_cancelled fresh_trace input s =
        elim (Bool-cases (input.event_id == "")) [
          | inl missing ↦ rw missing (reach_refl rfc3339 s)
          | inr named ↦ rw named (refund_orders_reach times is_cancelled _ _ s _)
        ]

  module _ (trace_of : String → ℕ → String) (reason_of : Provider → String → String)
      (registry : GatewayRegistry) where
    heal_by_answer_reach :
        (t : HealingTimes) (info : OrderInfo) (res : PaymentQueryResult) (s : Store)
        (status : PaymentStatus)
        → res.status ≡ status
        → Reaches rfc3339 s (heal_by_answer trace_of reason_of t info res s).0
    unfolding heal_by_answer
    heal_by_answer_reach t info res s PaymentStatus.succeeded e =
        rw (e, heal_by_answer) (heal_paid_reach t _ s)
    heal_by_answer_reach t info res s PaymentStatus.failed e =
        rw (e, heal_by_answer) (heal_cancelled_reach t _ s)
    heal_by_answer_reach t info res s PaymentStatus.pending e =
        rw (e, heal_by_answer) (reach_refl rfc3339 s)
    heal_by_answer_reach t info res s PaymentStatus.refunded e =
        rw (e, heal_by_answer) (reach_refl rfc3339 s)
    heal_by_answer_reach t info res s (PaymentStatus.unknown text) e =
        rw (e, heal_by_answer) (reach_refl rfc3339 s)

    heal_one_reach :
        (t : HealingTimes) (info : OrderInfo) (s : Store)
        → Reaches rfc3339 s (heal_one trace_of reason_of registry t info s).0
    unfolding heal_one
    heal_one_reach t info s = elim (Bool-cases (info.provider == [])) [
      | inl none_chosen ↦ rw none_chosen (heal_cancelled_reach t _ s)
      | inr chosen ↦ rw chosen (elim (Result-cases (registry.get info.provider)) [
        | inr (e, missing) ↦ rw (missing, heal_one) (reach_refl rfc3339 s)
        | inl (gw, there) ↦
            rw (there, heal_one)
              (elim (Result-cases (gw.query_payment (query_request info))) [
                | inr (e, lost) ↦ rw (lost, heal_one) (reach_refl rfc3339 s)
                | inl (res, answer) ↦
                    rw (answer, heal_one) (heal_by_answer_reach t info res s res.status refl)
              ])
      ])
    ]

    heal_orders_reach :
        (times : String → HealingTimes) (is_cancelled : String → Bool) (infos : List OrderInfo)
        (s : Store) (r : ReconciliationResult)
        → Reaches rfc3339 s (heal_orders trace_of reason_of registry times is_cancelled infos s r).0
    unfolding heal_orders
    heal_orders_reach times is_cancelled [] s r = reach_refl rfc3339 s
    heal_orders_reach times is_cancelled (info ∷ infos) s r =
        elim (Bool-cases (is_cancelled info.order.id)) [
          | inl stopped ↦ rw stopped (reach_refl rfc3339 s)
          | inr going ↦ rw going (
              reach_trans rfc3339 s
                (heal_one trace_of reason_of registry (times info.order.id) info s).0 _
                (heal_one_reach (times info.order.id) info s)
                (heal_orders_reach times is_cancelled infos _ _))
        ]

    pub reconcile_reach :
        (times : String → HealingTimes) (is_cancelled : String → Bool) (now threshold : ℕ)
        (limit : ℤ) (s : Store)
        → Reaches rfc3339 s
            (reconcile_stale_orders trace_of reason_of registry times is_cancelled now threshold
              limit s).0
    unfolding reconcile_stale_orders
    reconcile_reach times is_cancelled now threshold limit s =
        heal_orders_reach times is_cancelled _ s _
