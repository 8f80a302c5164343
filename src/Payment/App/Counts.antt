-- ===== src/Payment/App/Counts.antt =====
-- The reports of the jobs of services/payment/internal/app/replay_inbox.go, refund_event.go and
-- reconcile_orders.go account for every webhook or order that was read.
use even_flow.Prelude.{
  ℕ, ◌+◌, ◌≡◌, refl, inl, inr, Bool, false, String, List, [], ◌∷◌, arith, length, length-append,
  Bool-cases, ◌==◌, string_Eq,
}
use even_flow.Prelude.Int.{ℤ}
use even_flow.Payment.Types.{Provider, PaymentInboxItem, Error, ok}
use even_flow.Payment.Store.{Store}
use even_flow.Payment.Inbox.{get_pending_payment_inbox}
use even_flow.Payment.Orders.{OrderInfo, get_paid_orders_by_event, get_stale_pending_orders}
use even_flow.Payment.App.Ports.{GatewayRegistry}
use even_flow.Payment.App.ReplayInbox.{
  ReplayConfig, ReplayTimes, ReplayOutcome, ReplayInboxResult, count_outcome, replay_item,
  limit_or_default, scanned, replay_items, replay_inbox,
}
use even_flow.Payment.App.RefundEvent.{
  RefundTimes, RefundOutcome, refunds, skips, fails, RefundCancelledEventInput,
  RefundCancelledEventOutput, count_refund, no_refunds, with_defaults, refund_one, refund_orders,
  refund_cancelled_event,
}
use even_flow.Payment.App.Reconcile.{
  HealingTimes, Healing, ReconciliationResult, count_healing, heal_one, heal_orders, nothing_healed,
  reconcile_stale_orders,
}

abbrev replayed : ReplayInboxResult → ℕ
replayed r = r.succeeded + r.already_done + r.still_pending + r.failed

count_outcome_one :
    (o : ReplayOutcome) (r : ReplayInboxResult)
    → (replayed (count_outcome o r) ≡ replayed r + 1)
      × ((count_outcome o r).total_scanned ≡ r.total_scanned)
unfolding count_outcome
count_outcome_one ReplayOutcome.done r = (omega arith, refl)
count_outcome_one ReplayOutcome.already r = (omega arith, refl)
count_outcome_one ReplayOutcome.pending r = (omega arith, refl)
count_outcome_one ReplayOutcome.failing r = (omega arith, refl)

module _ (parse_int : String → ℤ) (float_to_int : ℕ → ℤ) (decimal : ℕ → String) where
  replay_items_count :
      (times : ℕ → ReplayTimes) (items : List PaymentInboxItem) (s : Store) (r : ReplayInboxResult)
      → let r' = (replay_items parse_int float_to_int decimal times items s r).1 in
        (replayed r' ≡ replayed r + length items) × (r'.total_scanned ≡ r.total_scanned)
  unfolding replay_items
  replay_items_count times [] s r = (omega arith, refl)
  replay_items_count times (item ∷ items) s r =
      let (s', o) = replay_item parse_int float_to_int decimal (times item.id) item s in
      let one = count_outcome_one o r in
      let rest = replay_items_count times items s' (count_outcome o r) in
      (omega (arith, one.0, rest.0), omega (arith, one.1, rest.1))

  -- A replay's report adds up: every webhook that it read is counted once, as succeeded, done
  -- before, still pending or failed.
  replay_counts_all :
      (config : ReplayConfig) (times : ℕ → ReplayTimes) (stale_at : ℕ) (limit : ℤ) (s : Store)
      → let r = (replay_inbox parse_int float_to_int decimal config times stale_at limit s).1 in
        r.succeeded + r.already_done + r.still_pending + r.failed ≡ r.total_scanned
  unfolding replay_inbox
  replay_counts_all config times stale_at limit s =
      let items = get_pending_payment_inbox (limit_or_default limit) config.max_attempts s in
      let all = replay_items_count times items s (scanned (length items)) in
      omega (arith, all.0, all.1)

abbrev handled : RefundCancelledEventOutput → ℕ
handled out = out.refunded_count + out.failed_count + out.skipped_count

-- What a loop over orders preserves of a report.
abbrev Tallied : ℕ → RefundCancelledEventOutput → RefundCancelledEventOutput → Type 0
Tallied n out out' =
    (handled out' ≡ handled out + n)
    × (out'.total_orders ≡ out.total_orders)
    × (length out'.order_results + out.refunded_count + out.skipped_count
        ≡ length out.order_results + out'.refunded_count + out'.skipped_count)

count_refund_one :
    (amount : ℤ) (o : RefundOutcome) (out : RefundCancelledEventOutput)
    → Tallied 1 out (count_refund amount o out)
unfolding count_refund
count_refund_one amount (refunds res) out =
    (omega arith, refl, omega (arith, length-append out.order_results (res ∷ [])))
count_refund_one amount (skips res) out =
    (omega arith, refl, omega (arith, length-append out.order_results (res ∷ [])))
count_refund_one amount fails out = (omega arith, refl, omega arith)

module _ (rfc3339 : ℕ → String) (error_text : Error → String) (registry : GatewayRegistry) where
  refund_orders_count :
      (times : String → RefundTimes) (is_cancelled : String → Bool)
      (input : RefundCancelledEventInput) (infos : List OrderInfo) (s : Store)
      (out : RefundCancelledEventOutput)
      → let (s', out', stopped) =
          refund_orders rfc3339 error_text registry times is_cancelled input infos s out in
        stopped ≡ false → Tallied (length infos) out out'
  unfolding refund_orders
  refund_orders_count times is_cancelled input [] s out h = (omega arith, refl, omega arith)
  refund_orders_count times is_cancelled input (info ∷ infos) s out h =
      elim (Bool-cases (is_cancelled info.order.id)) [
        | inl stop ↦ ground (arith, stop, h)
        | inr going ↦
            let (s', o) =
              refund_one rfc3339 error_text registry (times info.order.id) input info s in
            let out1 = count_refund info.order.total_cents o out in
            let one = count_refund_one info.order.total_cents o out in
            let rest =
              refund_orders_count times is_cancelled input infos s' out1
                (ground (arith, going, h)) in
            rw going (omega (arith, one, rest), omega (arith, one, rest), omega (arith, one, rest))
      ]

  -- The report of a refund that ran to its end adds up: every order that it read is counted once,
  -- as refunded, failed or skipped, and has a result in the report unless it failed.
  refund_counts_all :
      (times : String → RefundTimes) (is_cancelled : String → Bool) (fresh_trace : String)
      (input : RefundCancelledEventInput) (s : Store) (out : RefundCancelledEventOutput)
      → (refund_cancelled_event rfc3339 error_text registry times is_cancelled fresh_trace input
          s).1
        ≡ ok (out, false)
      → (out.refunded_count + out.failed_count + out.skipped_count ≡ out.total_orders)
        × (length out.order_results ≡ out.refunded_count + out.skipped_count)
  unfolding refund_cancelled_event
  refund_counts_all times is_cancelled fresh_trace input s out h =
      elim (Bool-cases (input.event_id == "")) [
        | inl missing ↦ ground (arith, missing, h)
        | inr named ↦
            let full = with_defaults fresh_trace input in
            let infos = get_paid_orders_by_event full.event_id full.batch_size s in
            let start = no_refunds full.event_id (length infos) in
            let (s', out', stopped) =
              refund_orders rfc3339 error_text registry times is_cancelled full infos s start in
            let all =
              refund_orders_count times is_cancelled full infos s start
                (ground (arith, named, h)) in
            (ground (arith, all, named, h), ground (arith, all, named, h))
      ]

abbrev healed : ReconciliationResult → ℕ
healed r = r.healed_paid + r.healed_cancelled + r.still_pending + r.skipped + r.errors

count_healing_one :
    (o : Healing) (r : ReconciliationResult)
    → (healed (count_healing o r) ≡ healed r + 1)
      × ((count_healing o r).total_scanned ≡ r.total_scanned)
unfolding count_healing
count_healing_one Healing.paid r = (omega arith, refl)
count_healing_one Healing.cancelled r = (omega arith, refl)
count_healing_one Healing.pending r = (omega arith, refl)
count_healing_one Healing.skips r = (omega arith, refl)
count_healing_one Healing.fails r = (omega arith, refl)

module _ (trace_of : String → ℕ → String) (reason_of : Provider → String → String)
    (registry : GatewayRegistry) where
  heal_orders_count :
      (times : String → HealingTimes) (is_cancelled : String → Bool) (infos : List OrderInfo)
      (s : Store) (r : ReconciliationResult)
      → let (s', r', stopped) =
          heal_orders trace_of reason_of registry times is_cancelled infos s r in
        stopped ≡ false
        → (healed r' ≡ healed r + length infos) × (r'.total_scanned ≡ r.total_scanned)
  unfolding heal_orders
  heal_orders_count times is_cancelled [] s r h = (omega arith, refl)
  heal_orders_count times is_cancelled (info ∷ infos) s r h =
      elim (Bool-cases (is_cancelled info.order.id)) [
        | inl stop ↦ ground (arith, stop, h)
        | inr going ↦
            let (s', o) = heal_one trace_of reason_of registry (times info.order.id) info s in
            let one = count_healing_one o r in
            let rest =
              heal_orders_count times is_cancelled infos s' (count_healing o r)
                (ground (arith, going, h)) in
            rw going (omega (arith, one, rest), omega (arith, one, rest))
      ]

  -- The report of a reconciliation that ran to its end adds up: every order that it read is counted
  -- once, as healed to paid or cancelled, still pending, skipped or in error.
  pub reconcile_counts_all :
      (times : String → HealingTimes) (is_cancelled : String → Bool) (now threshold : ℕ) (limit : ℤ)
      (s : Store)
      → let (s', r, stopped) =
          reconcile_stale_orders trace_of reason_of registry times is_cancelled now threshold limit
            s in
        stopped ≡ false
        → r.healed_paid + r.healed_cancelled + r.still_pending + r.skipped + r.errors
          ≡ r.total_scanned
  unfolding reconcile_stale_orders
  reconcile_counts_all times is_cancelled now threshold limit s h =
      let infos = get_stale_pending_orders now threshold (limit_or_default limit) s in
      let start = nothing_healed (length infos) in
      let all = heal_orders_count times is_cancelled infos s start h in omega (arith, all.0, all.1)
