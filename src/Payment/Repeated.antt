-- ===== src/Payment/Repeated.antt =====
-- A payment webhook that is repeated after other calls of the repository (services/payment/internal/
-- adapter/postgres/memory_repository.go).
use even_flow.Prelude.{
  ℕ, ◌≡◌, refl, inl, inr, Bool, true, false, some, String, List, [], ◌∷◌, arith, string_Eq, ◌==◌,
  ==_iff, Bool-cases,
}
use even_flow.Prelude.Map.{Map, lookup, insert, lookup-insert}
use even_flow.Payment.Types.{OrderStatus, OrderView, ProcessWebhookParams}
use even_flow.Payment.Store.{Store, process_payment_success_tx, mark_paid}
use even_flow.Payment.Orders.{cancelled_store}
use even_flow.Payment.Cases.{create_cases, success_cases, cancel_cases}
use even_flow.Payment.History.{
  Call, creates, succeeds, fails, saves, processes, increments, cancels, starts_refund, refunds,
  fails_refund, step, run,
}
use even_flow.Payment.Once.{Inv, quiet_step, is_quiet, step-Inv}
use even_flow.Payment.Settlement.{is_done, is_applied, applied_pays, paid_absorbs}

-- The calls that start or store a refund.
abbrev pub is_refund : Call → Bool
is_refund (starts_refund id) = true
is_refund (refunds params) = true
is_refund _ = false

abbrev pub NoRefund : List (ℕ × Call) → Type 0
NoRefund [] = Unit
NoRefund ((now, c) ∷ cs) = (is_refund c ≡ false) × NoRefund cs

-- The order of this key is there and paid.
abbrev PaidAt : String → Map String OrderView → Type 0
PaidAt k m = (o : OrderView) × (lookup k m ≡ some o) × (o.status ≡ OrderStatus.paid)

PaidAt-insert :
    (k i j : String) (o o' : OrderView) (m : Map String OrderView)
    → lookup j m ≡ some o
    → i ≡ j
    → (o.status ≡ OrderStatus.paid → o'.status ≡ OrderStatus.paid)
    → PaidAt k m
    → PaidAt k (insert i o' m)
PaidAt-insert k i j o o' m there e keeps (w, h, paid) = elim (Bool-cases (i == k)) [
  | inl same ↦ (
    o',
    ground (arith, lookup-insert i k o' m, same),
    keeps (ground (arith, (==_iff i k).0 same, e, there, h, paid)),
  )
  | inr other ↦ (w, ground (arith, lookup-insert i k o' m, other, h), paid)
]

module _ (rfc3339 : ℕ → String) (k : String) where
  quiet-PaidAt :
      (now : ℕ) (c : Call) (s : Store)
      → is_quiet c ≡ true
      → PaidAt k s.orders
      → PaidAt k (step rfc3339 now c s).0.orders
  quiet-PaidAt now c s q h = rw ((quiet_step rfc3339 now c s q).0) h

  step-PaidAt :
      (now : ℕ) (c : Call) (s : Store)
      → Inv s
      → is_refund c ≡ false
      → PaidAt k s.orders
      → PaidAt k (step rfc3339 now c s).0.orders
  unfolding step mark_paid cancelled_store
  step-PaidAt now (creates p) s v n h =
      create_cases (λ t. PaidAt k t.orders) p s h
        λ o there t.
          PaidAt-insert k p.order_id p.order_id o _ s.orders there refl
            (λ paid. ground (arith, t, paid)) h
  step-PaidAt now (succeeds params) s v n h =
      success_cases (λ t. PaidAt k t.orders) now params s h
        λ o there t.
          PaidAt-insert k o.id params.order_id o _ s.orders there (v.keyed params.order_id o there)
            (λ paid. refl) h
  step-PaidAt now (cancels params) s v n h =
      cancel_cases (λ t. PaidAt k t.orders) now params s h
        λ o there t.
          PaidAt-insert k o.id params.order_id o _ s.orders there (v.keyed params.order_id o there)
            (λ paid. ground (arith, t, paid)) h
  step-PaidAt now (starts_refund id) s v n h = cc
  step-PaidAt now (refunds params) s v n h = cc
  step-PaidAt now (fails params) s v n h = quiet-PaidAt now (fails params) s refl h
  step-PaidAt now (saves item) s v n h = quiet-PaidAt now (saves item) s refl h
  step-PaidAt now (processes id t) s v n h = quiet-PaidAt now (processes id t) s refl h
  step-PaidAt now (increments id) s v n h = quiet-PaidAt now (increments id) s refl h
  step-PaidAt now (fails_refund o p reason) s v n h =
      quiet-PaidAt now (fails_refund o p reason) s refl h

  run-PaidAt :
      (cs : List (ℕ × Call)) (s : Store)
      → Inv s
      → NoRefund cs
      → PaidAt k s.orders
      → PaidAt k (run rfc3339 cs s).orders
  unfolding run
  run-PaidAt [] s v n h = h
  run-PaidAt ((now, c) ∷ cs) s v n h =
      run-PaidAt cs (step rfc3339 now c s).0 (step-Inv rfc3339 now c s v) n.1
        (step-PaidAt now c s v n.0 h)

success-Inv :
    (now : ℕ) (params : ProcessWebhookParams) (s : Store)
    → Inv s
    → Inv (process_payment_success_tx now params s).0
unfolding step
success-Inv now params s v = step-Inv (λ t. "") now (succeeds params) s v

-- When a success webhook has been applied, every later one about the same order, of whatever provider
-- and transaction, is reported as done and changes nothing, whatever calls of the repository come in
-- between that neither start nor store a refund.
pub applied_once :
    (rfc3339 : ℕ → String) (now later : ℕ) (params params' : ProcessWebhookParams)
    (between : List (ℕ × Call)) (s : Store)
    → Inv s
    → is_applied (process_payment_success_tx now params s).1 ≡ true
    → NoRefund between
    → params'.order_id ≡ params.order_id
    → let s' = run rfc3339 between (process_payment_success_tx now params s).0 in
      let r = process_payment_success_tx later params' s' in (r.0 ≡ s') × (is_done r.1 ≡ true)
applied_once rfc3339 now later params params' between s v h none_between same =
    let applied = applied_pays now params s v.keyed h in
    let v' = success-Inv now params s v in
    let (o, there, paid) =
      run-PaidAt rfc3339 params.order_id between (process_payment_success_tx now params s).0 v'
        none_between applied in
    paid_absorbs later params' (run rfc3339 between (process_payment_success_tx now params s).0)
      {o = o} (rw same there) paid
