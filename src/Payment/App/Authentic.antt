-- ===== src/Payment/App/Authentic.antt =====
-- Which webhooks have an effect (services/payment/internal/app/process_webhook.go).
use even_flow.Prelude.{
  ℕ, ◌+◌, ◌≤◌, ◌≡◌, refl, ◌⊎◌, inl, inr, Bool, true, false, none, some, arith, string_Eq, nat_eq,
  Bool-cases, Option-cases,
}
use even_flow.Prelude.Int.{int_Eq}
use even_flow.Prelude.Text.{Unicode}
use even_flow.Payment.Types.{Provider, Result-cases, ok, is_valid_provider, normalize_provider}
use even_flow.Payment.Store.{Store}
use even_flow.Payment.App.Ports.{PaymentGateway, CallbackResult, GatewayRegistry}
use even_flow.Payment.App.Webhook.{
  ProcessWebhookInput, ReplayWindow, WebhookTimes, Outcome, read_callback, refusal, take_callback,
  process_webhook,
}

-- The provider is known and enabled, its adapter verified the signature, and the time that the
-- callback states, if it states one, is within the window and the tolerated skew.
abbrev pub IsAuthentic : Unicode → GatewayRegistry → ReplayWindow → ℕ → ProcessWebhookInput → Type 0
IsAuthentic u registry w now input =
    let provider = normalize_provider u input.provider in
    (gw : PaymentGateway) × (cb : CallbackResult) × (is_valid_provider provider ≡ true)
    × (registry.get provider ≡ ok gw)
    × (gw.verify_callback input.params ≡ ok cb)
    × (cb.valid ≡ true)
    × ((cb.timestamp ≡ 0)
        ⊎ ((now ≤ cb.timestamp + w.replay_window) × (cb.timestamp ≤ now + w.clock_skew_max)))

abbrev pub has_error : Outcome → Bool
has_error (res, none) = false
has_error (res, some e) = true

-- A refusal comes with an error; a callback that is not refused is verified and fresh.
refusal-error :
    (w : ReplayWindow) (now : ℕ) (cb : CallbackResult) (out : Outcome)
    → refusal w now cb ≡ some out
    → has_error out ≡ true
unfolding refusal
refusal-error w now cb out h = ground arith

refusal-none :
    (w : ReplayWindow) (now : ℕ) (cb : CallbackResult)
    → refusal w now cb ≡ none
    → (cb.valid ≡ true)
      × ((cb.timestamp ≡ 0)
          ⊎ ((now ≤ cb.timestamp + w.replay_window) × (cb.timestamp ≤ now + w.clock_skew_max)))
unfolding refusal
refusal-none w now cb h = (
  ground arith,
  elim (Bool-cases (nat_eq cb.timestamp 0)) [
    | inl zero_time ↦ inl (ground arith)
    | inr stated ↦ inr (ground arith, ground arith)
  ],
)

module _ (u : Unicode) (registry : GatewayRegistry) where
  read_callback-ok :
      (provider : Provider) (input : ProcessWebhookInput) (cb : CallbackResult)
      → read_callback u registry provider input.params ≡ ok cb
      → (gw : PaymentGateway) × (registry.get provider ≡ ok gw)
        × (gw.verify_callback input.params ≡ ok cb)
  unfolding read_callback
  read_callback-ok provider input cb h = elim (Result-cases (registry.get provider)) [
    | inr (e, missing) ↦ ground (arith, missing, h)
    | inl (gw, there) ↦ elim (Result-cases (gw.verify_callback input.params)) [
      | inr (e, lost) ↦ ground (arith, there, lost, h)
      | inl (cb', read) ↦ (gw, there, ground (arith, there, read, h))
    ]
  ]

  -- A webhook that is not authentic is answered with an error and leaves the repository as it was:
  -- an unknown or disabled provider, a wrong signature, a time too old or too far ahead.
  pub webhook-IsAuthentic_or_refused :
      (w : ReplayWindow) (t : WebhookTimes) (input : ProcessWebhookInput) (s : Store)
      → let (s', out) = process_webhook u registry w t input s in
        ((s' ≡ s) × (has_error out ≡ true)) ⊎ IsAuthentic u registry w t.checked_at input
  unfolding process_webhook take_callback
  webhook-IsAuthentic_or_refused w t input s =
      let provider = normalize_provider u input.provider in
      elim (Bool-cases (is_valid_provider provider)) [
        | inr unknown ↦ rw unknown (inl (refl, refl))
        | inl known ↦ elim (Result-cases (read_callback u registry provider input.params)) [
          | inr (e, unread) ↦ rw (unread, process_webhook) (rw known (inl (refl, refl)))
          | inl (cb, read) ↦ elim (Option-cases (refusal w t.checked_at cb)) [
            | inr (out, refused) ↦ inl (
              ground (arith, known, read, refused),
              ground (arith, known, read, refused, refusal-error w t.checked_at cb out refused),
            )
            | inl fresh ↦
                let (gw, there, verified) = read_callback-ok provider input cb read in
                let (valid, timely) = refusal-none w t.checked_at cb fresh in
                inr (gw, cb, known, there, verified, valid, timely)
          ]
        ]
      ]
