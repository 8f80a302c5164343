-- ===== src/Payment/App/Reach.antt =====
-- What a webhook and the start of a payment (services/payment/internal/app/process_webhook.go and
-- initiate_payment.go) do in terms of the repository's calls.
use even_flow.Prelude.{
  ℕ, ◌≡◌, refl, inl, inr, String, List, [], ◌∷◌, ◌++◌, ◌==◌, string_Eq, Bool-cases, Option-cases,
}
use even_flow.Prelude.Int.{int_Eq}
use even_flow.Prelude.Text.{Unicode, text_Eq}
use even_flow.Payment.Types.{
  Provider, Payload, OrderView, ProcessWebhookParams, WebhookProcessResult, Result, Result-cases,
  ok, err, is_succeeded, is_valid_provider, normalize_provider,
}
use even_flow.Payment.Store.{Store, process_payment_success_tx, process_payment_failed_tx}
use even_flow.Payment.History.{Call, creates, succeeds, fails, saves, step, run}
use even_flow.Payment.App.Ports.{CallbackResult, PaymentGateway, GatewayRegistry}
use even_flow.Payment.App.Webhook.{
  ProcessWebhookInput, ReplayWindow, WebhookTimes, is_order_not_found, inbox_item, keep_for_later,
  apply_callback, take_callback, refusal, resolve_order_id, read_callback, process_webhook,
}
use even_flow.Payment.App.Cases.{initiate_cases}
use even_flow.Payment.App.InitiatePayment.{
  InitiatePaymentInput, start_payment, initiate_payment, payment_request, currency_of,
  pending_payment,
}

module _ (rfc3339 : ℕ → String) where
  -- Some history of repository calls leads from one store to the other.
  abbrev pub Reaches : Store → Store → Type 0
  Reaches s s' = (cs : List (ℕ × Call)) × (run rfc3339 cs s ≡ s')

  pub reach_refl : (s : Store) → Reaches s s
  unfolding run
  reach_refl s = ([], refl)

  pub reach_call : (now : ℕ) (c : Call) (s : Store) → Reaches s (step rfc3339 now c s).0
  unfolding run
  reach_call now c s = ((now, c) ∷ [], refl)

  run-append :
      (cs ds : List (ℕ × Call)) (s : Store)
      → run rfc3339 (cs ++ ds) s ≡ run rfc3339 ds (run rfc3339 cs s)
  unfolding run
  run-append [] ds s = refl
  run-append ((now, c) ∷ cs) ds s = run-append cs ds (step rfc3339 now c s).0

  pub reach_trans : (a b c : Store) → Reaches a b → Reaches b c → Reaches a c
  reach_trans a b c (cs, e) (ds, f) = (cs ++ ds, rw (run-append cs ds a) (rw e f))

  pub success_reach :
      (now : ℕ) (params : ProcessWebhookParams) (s : Store)
      → Reaches s (process_payment_success_tx now params s).0
  unfolding step
  success_reach now params s = reach_call now (succeeds params) s

  pub failure_reach :
      (now : ℕ) (params : ProcessWebhookParams) (s : Store)
      → Reaches s (process_payment_failed_tx now params s).0
  unfolding step
  failure_reach now params s = reach_call now (fails params) s

  keep_for_later_reach :
      (saved_at : ℕ) (provider : Provider) (cb : CallbackResult) (id : String) (payload : Payload)
      (message : String) (s : Store) (out : Store × Result WebhookProcessResult)
      → Reaches s out.0
      → Reaches s (keep_for_later saved_at provider cb id payload message out).0
  unfolding keep_for_later step
  keep_for_later_reach saved_at provider cb id payload message s (s', ok res) h = h
  keep_for_later_reach saved_at provider cb id payload message s (s', err e) h =
      elim (Bool-cases (is_order_not_found e)) [
        | inl early ↦ rw early (
            reach_trans s s' _ h
              (reach_call saved_at (saves (inbox_item saved_at provider cb payload)) s'))
        | inr other ↦ rw other h
      ]

  apply_callback_reach :
      (t : WebhookTimes) (provider : Provider) (cb : CallbackResult) (id : String)
      (input : ProcessWebhookInput) (s : Store)
      → Reaches s (apply_callback t provider cb id input s).0
  unfolding apply_callback
  apply_callback_reach t provider cb id input s = elim (Bool-cases (is_succeeded cb.status)) [
    | inl paid ↦
        rw paid
          (keep_for_later_reach t.saved_at provider cb id _ _ s _ (success_reach t.stored_at _ s))
    | inr failed ↦
        rw failed
          (keep_for_later_reach t.saved_at provider cb id _ _ s _ (failure_reach t.stored_at _ s))
  ]

  take_callback_reach :
      (w : ReplayWindow) (t : WebhookTimes) (provider : Provider) (cb : CallbackResult)
      (input : ProcessWebhookInput) (s : Store)
      → Reaches s (take_callback w t provider cb input s).0
  unfolding take_callback
  take_callback_reach w t provider cb input s = elim (Option-cases (refusal w t.checked_at cb)) [
    | inr (outcome, e) ↦ rw (e, take_callback) (reach_refl s)
    | inl e ↦ elim (Bool-cases (resolve_order_id cb input.params s == "")) [
      | inl missing ↦ rw (e, take_callback) (rw missing (reach_refl s))
      | inr found ↦ rw (e, take_callback) (rw found (apply_callback_reach t provider cb _ input s))
    ]
  ]

  start_payment_reach :
      (now : ℕ) (id : String) (input : InitiatePaymentInput) (o : OrderView) (gw : PaymentGateway)
      (s : Store)
      → Reaches s (start_payment now id input o gw s).0
  unfolding start_payment step
  start_payment_reach now id input o gw s =
      elim (Result-cases
        (gw.initiate_payment (payment_request input id input.amount_cents (currency_of input o)))) [
          | inr (e, refused) ↦ rw (refused, start_payment) (reach_refl s)
          | inl (res, accepted) ↦
              rw (accepted, start_payment)
                (reach_call now (creates (pending_payment now id input o gw.provider res)) s)
        ]

  pub initiate_payment_reach :
      (registry : GatewayRegistry) (now : ℕ) (id : String) (input : InitiatePaymentInput)
      (s : Store)
      → Reaches s (initiate_payment registry now id input s).0
  initiate_payment_reach registry now id input s =
      initiate_cases (λ out. Reaches s out.0) registry now id input s (λ r. reach_refl s)
        λ o gw valid there event held live amount. start_payment_reach now id input o gw s

  pub process_webhook_reach :
      (u : Unicode) (registry : GatewayRegistry) (w : ReplayWindow) (t : WebhookTimes)
      (input : ProcessWebhookInput) (s : Store)
      → Reaches s (process_webhook u registry w t input s).0
  unfolding process_webhook
  process_webhook_reach u registry w t input s =
      let provider = normalize_provider u input.provider in
      elim (Bool-cases (is_valid_provider provider)) [
        | inr unknown ↦ rw unknown (reach_refl s)
        | inl known ↦ elim (Result-cases (read_callback u registry provider input.params)) [
          | inr (e, unread) ↦ rw (unread, process_webhook) (rw known (reach_refl s))
          | inl (cb, read) ↦
              rw (read, process_webhook) (rw known (take_callback_reach w t provider cb input s))
        ]
      ]
