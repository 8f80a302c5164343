-- ===== src/Payment/Lifecycle.antt =====
-- The life of an order in the payment service (services/payment/internal/adapter/postgres/
-- memory_repository.go): the edges that the repository's calls follow, and what errors leave behind.
use even_flow.Prelude.{
  ℕ, ◌≡◌, refl, subst, ◌⊎◌, inl, inr, Bool, true, false, ◌||◌, none, some, String, arith, ◌==◌,
  ==_iff, string_Eq, Bool-cases, Option-cases,
}
use even_flow.Prelude.Map.{Map, lookup, insert, lookup-insert, lookup-insert_self}
use even_flow.Payment.Types.{
  OrderStatus, OrderView, Error, CancelOrderParams, CancelOrderResult, ProcessRefundParams,
  ProcessRefundResult, Result, ok, err, is_held, is_payment_pending, is_refunded, is_refundable,
}
use even_flow.Payment.Store.{
  Store, create_payment_and_mark_pending, process_payment_success_tx, process_payment_failed_tx,
  pay_order, mark_paid,
}
use even_flow.Payment.Inbox.{
  save_payment_inbox, mark_payment_inbox_processed, increment_payment_inbox_attempts,
}
use even_flow.Payment.Orders.{
  process_order_cancellation_tx, mark_order_refunding_tx, process_refund_success_tx,
  process_refund_failed_tx, is_cancellable, cancelled_store, refunded_store,
}
use even_flow.Payment.Cases.{
  create_cases, success_cases, cancel_cases, refunding_cases, refund_cases,
}
use even_flow.Payment.Once.{Inv, quiet_step, is_quiet}
use even_flow.Payment.History.{
  Call, creates, succeeds, fails, saves, processes, increments, cancels, starts_refund, refunds,
  fails_refund, step, error_of,
}

-- The arrows of docs/01-nghiep-vu.md, 2.3, that a call of the repository can take.
infix 40 ◌⟶◌ ◌⇢◌
pub data ◌⟶◌ : OrderStatus → OrderStatus → Type 0 where
  start_payment : OrderStatus.held ⟶ OrderStatus.payment_pending
  pay : OrderStatus.payment_pending ⟶ OrderStatus.paid
  cancel : OrderStatus.payment_pending ⟶ OrderStatus.cancelled
  start_refund : OrderStatus.issued ⟶ OrderStatus.refunding
  refund : OrderStatus.refunding ⟶ OrderStatus.refunded

-- What the code does beyond them: it pays or cancels an order without a payment under way, cancels one
-- whose refund has started or is done, starts the refund of one that is paid but has no tickets, and
-- stores a refund without a start.
pub data ◌⇢◌ : OrderStatus → OrderStatus → Type 0 where
  pay_held : OrderStatus.held ⇢ OrderStatus.paid
  cancel_held : OrderStatus.held ⇢ OrderStatus.cancelled
  cancel_refunding : OrderStatus.refunding ⇢ OrderStatus.cancelled
  cancel_refunded : OrderStatus.refunded ⇢ OrderStatus.cancelled
  refunding_paid : OrderStatus.paid ⇢ OrderStatus.refunding
  refund_held : OrderStatus.held ⇢ OrderStatus.refunded
  refund_pending : OrderStatus.payment_pending ⇢ OrderStatus.refunded
  refund_paid : OrderStatus.paid ⇢ OrderStatus.refunded
  refund_issued : OrderStatus.issued ⇢ OrderStatus.refunded
  refund_expired : OrderStatus.expired ⇢ OrderStatus.refunded
  refund_cancelled : OrderStatus.cancelled ⇢ OrderStatus.refunded

-- The status stays, or moves along one of them.
abbrev pub Moves : OrderStatus → OrderStatus → Type 0
Moves s t = (s ≡ t) ⊎ ((s ⟶ t) ⊎ (s ⇢ t))

Moves-to_paid :
    (s : OrderStatus) → (is_held s || is_payment_pending s) ≡ true → Moves s OrderStatus.paid
Moves-to_paid OrderStatus.held h = inr (inr pay_held)
Moves-to_paid OrderStatus.payment_pending h = inr (inl pay)
Moves-to_paid _ h = cc

Moves-to_cancelled : (s : OrderStatus) → is_cancellable s ≡ true → Moves s OrderStatus.cancelled
Moves-to_cancelled OrderStatus.held h = inr (inr cancel_held)
Moves-to_cancelled OrderStatus.payment_pending h = inr (inl cancel)
Moves-to_cancelled OrderStatus.refunding h = inr (inr cancel_refunding)
Moves-to_cancelled OrderStatus.refunded h = inr (inr cancel_refunded)
Moves-to_cancelled _ h = cc

Moves-to_refunding : (s : OrderStatus) → is_refundable s ≡ true → Moves s OrderStatus.refunding
Moves-to_refunding OrderStatus.paid h = inr (inr refunding_paid)
Moves-to_refunding OrderStatus.issued h = inr (inl start_refund)
Moves-to_refunding OrderStatus.refunding h = inl refl
Moves-to_refunding _ h = cc

Moves-to_refunded : (s : OrderStatus) → Moves s OrderStatus.refunded
Moves-to_refunded OrderStatus.held = inr (inr refund_held)
Moves-to_refunded OrderStatus.payment_pending = inr (inr refund_pending)
Moves-to_refunded OrderStatus.paid = inr (inr refund_paid)
Moves-to_refunded OrderStatus.issued = inr (inr refund_issued)
Moves-to_refunded OrderStatus.expired = inr (inr refund_expired)
Moves-to_refunded OrderStatus.cancelled = inr (inr refund_cancelled)
Moves-to_refunded OrderStatus.refunding = inr (inl refund)
Moves-to_refunded OrderStatus.refunded = inl refl

abbrev pub is_refund_done : Result ProcessRefundResult → Bool
is_refund_done (ok r) = r.already_done
is_refund_done (err e) = false

abbrev pub is_cancel_done : Result CancelOrderResult → Bool
is_cancel_done (ok r) = r.already_done
is_cancel_done (err e) = false

refunded_absorbs :
    (rfc3339 : ℕ → String) (now : ℕ) (params : ProcessRefundParams) (s : Store) {o : OrderView}
    → lookup params.order_id s.orders ≡ some o
    → o.status ≡ OrderStatus.refunded
    → let r = process_refund_success_tx rfc3339 now params s in
      (r.0 ≡ s) × (is_refund_done r.1 ≡ true)
unfolding process_refund_success_tx
refunded_absorbs rfc3339 now params s h p = (ground arith, ground arith)

refund_refunds :
    (rfc3339 : ℕ → String) (now : ℕ) (params : ProcessRefundParams) (s : Store)
    → Inv s
    → error_of (process_refund_success_tx rfc3339 now params s).1 ≡ none
    → (o : OrderView) × (lookup params.order_id
          (process_refund_success_tx rfc3339 now params s).0.orders
        ≡ some o)
      × (o.status ≡ OrderStatus.refunded)
unfolding process_refund_success_tx refunded_store
refund_refunds rfc3339 now params s v h = elim (Option-cases (lookup params.order_id s.orders)) [
  | inl missing ↦ ground arith
  | inr (o, there) ↦ elim (Bool-cases (is_refunded o.status)) [
    | inl before ↦ (o, ground arith, ground arith)
    | inr first ↦ (
      record o { status = OrderStatus.refunded; updated_at = now },
      ground (
        arith,
        v.keyed params.order_id o there,
        lookup-insert_self params.order_id
            (record o { status = OrderStatus.refunded; updated_at = now }) s.orders,
      ),
      refl,
    )
  ]
]

settled_absorbs :
    (now : ℕ) (params : CancelOrderParams) (s : Store) {o : OrderView}
    → lookup params.order_id s.orders ≡ some o
    → is_cancellable o.status ≡ false
    → let r = process_order_cancellation_tx now params s in (r.0 ≡ s) × (is_cancel_done r.1 ≡ true)
unfolding process_order_cancellation_tx
settled_absorbs now params s h p = (ground arith, ground arith)

cancel_settles :
    (now : ℕ) (params : CancelOrderParams) (s : Store)
    → Inv s
    → error_of (process_order_cancellation_tx now params s).1 ≡ none
    → (o : OrderView) × (lookup params.order_id
          (process_order_cancellation_tx now params s).0.orders
        ≡ some o)
      × (is_cancellable o.status ≡ false)
unfolding process_order_cancellation_tx cancelled_store
cancel_settles now params s v h = elim (Option-cases (lookup params.order_id s.orders)) [
  | inl missing ↦ ground arith
  | inr (o, there) ↦ elim (Bool-cases (is_cancellable o.status)) [
    | inr before ↦ (o, ground arith, before)
    | inl first ↦ (
      record o { status = OrderStatus.cancelled },
      ground (
        arith,
        v.keyed params.order_id o there,
        lookup-insert_self params.order_id (record o { status = OrderStatus.cancelled }) s.orders,
      ),
      refl,
    )
  ]
]

-- Each order of the first repository is in the second, whose status stays or moves.
abbrev pub Follows : Map String OrderView → Map String OrderView → Type 0
Follows m m' =
    (k : String) (o : OrderView)
    → lookup k m ≡ some o
    → (o' : OrderView) × (lookup k m' ≡ some o') × Moves o.status o'.status

Follows-same : (m m' : Map String OrderView) → m' ≡ m → Follows m m'
Follows-same m m' e k o h = (o, rw e h, inl refl)

Follows-set :
    (m m' : Map String OrderView) (i : String) (o o' : OrderView)
    → lookup i m ≡ some o
    → m' ≡ insert i o' m
    → Moves o.status o'.status
    → Follows m m'
Follows-set m m' i o o' there e edge k w h = elim (Bool-cases (i == k)) [
  | inl same ↦ (
    o',
    ground (arith, lookup-insert i k o' m),
    subst (λ x. Moves x.status o'.status) (one_order same) edge,
  )
  | inr other ↦ (w, ground (arith, lookup-insert i k o' m), inl refl)
]
  where
    one_order : (i == k) ≡ true → o ≡ w
    one_order same = ground (arith, (==_iff i k).0 same)

module _ (rfc3339 : ℕ → String) where
  quiet-Follows :
      (now : ℕ) (c : Call) (s : Store)
      → is_quiet c ≡ true
      → Follows s.orders (step rfc3339 now c s).0.orders
  quiet-Follows now c s q =
      Follows-same s.orders (step rfc3339 now c s).0.orders (quiet_step rfc3339 now c s q).0

  pub step-Follows :
      (now : ℕ) (c : Call) (s : Store) → Inv s → Follows s.orders (step rfc3339 now c s).0.orders
  unfolding step mark_paid cancelled_store refunded_store
  step-Follows now (creates p) s v =
      create_cases (λ t. Follows s.orders t.orders) p s (Follows-same s.orders s.orders refl)
        λ o there t.
          Follows-set s.orders _ p.order_id o (record o { status = OrderStatus.payment_pending })
            there refl (from_held o.status t)
    where
      from_held : (t : OrderStatus) → is_held t ≡ true → Moves t OrderStatus.payment_pending
      from_held OrderStatus.held h = inr (inl start_payment)
      from_held _ h = cc
  step-Follows now (succeeds params) s v =
      success_cases (λ t. Follows s.orders t.orders) now params s
        (Follows-same s.orders s.orders refl)
        λ o there u.
          Follows-set s.orders _ params.order_id o (record o { status = OrderStatus.paid }) there
            (rw (v.keyed params.order_id o there) refl) (Moves-to_paid o.status u)
  step-Follows now (cancels params) s v =
      cancel_cases (λ t. Follows s.orders t.orders) now params s
        (Follows-same s.orders s.orders refl)
        λ o there t.
          Follows-set s.orders _ params.order_id o (record o { status = OrderStatus.cancelled })
            there (rw (v.keyed params.order_id o there) refl) (Moves-to_cancelled o.status t)
  step-Follows now (starts_refund id) s v =
      refunding_cases (λ t. Follows s.orders t.orders) now id s
        (Follows-same s.orders s.orders refl)
        λ o there t.
          Follows-set s.orders _ id o
            (record o { status = OrderStatus.refunding; updated_at = now }) there refl
            (Moves-to_refunding o.status t)
  step-Follows now (refunds params) s v =
      refund_cases (λ t. Follows s.orders t.orders) rfc3339 now params s
        (Follows-same s.orders s.orders refl)
        λ o there t.
          Follows-set s.orders _ params.order_id o
            (record o { status = OrderStatus.refunded; updated_at = now }) there
            (rw (v.keyed params.order_id o there) refl) (Moves-to_refunded o.status)
  step-Follows now (fails params) s v = quiet-Follows now (fails params) s refl
  step-Follows now (saves item) s v = quiet-Follows now (saves item) s refl
  step-Follows now (processes id t) s v = quiet-Follows now (processes id t) s refl
  step-Follows now (increments id) s v = quiet-Follows now (increments id) s refl
  step-Follows now (fails_refund o p reason) s v =
      quiet-Follows now (fails_refund o p reason) s refl

  -- No call loses an order: each is still there under its key, and its status stays, moves along an
  -- arrow of the documented diagram, or makes one of the listed moves beyond it.
  pub order_follows_edges :
      (now : ℕ) (c : Call) (s : Store) (k : String) (o : OrderView)
      → Inv s
      → lookup k s.orders ≡ some o
      → (o' : OrderView) × (lookup k (step rfc3339 now c s).0.orders ≡ some o')
        × Moves o.status o'.status
  order_follows_edges now c s k o v h = step-Follows now c s v k o h

-- A cancellation or a refund that has been made is reported as done when it is repeated, and changes
-- nothing more.
refund_again :
    (rfc3339 : ℕ → String) (now later : ℕ) (params params' : ProcessRefundParams) (s : Store)
    → Inv s
    → error_of (process_refund_success_tx rfc3339 now params s).1 ≡ none
    → params'.order_id ≡ params.order_id
    → let s' = (process_refund_success_tx rfc3339 now params s).0 in
      let r = process_refund_success_tx rfc3339 later params' s' in
      (r.0 ≡ s') × (is_refund_done r.1 ≡ true)
refund_again rfc3339 now later params params' s v h same =
    let (o, there, p) = refund_refunds rfc3339 now params s v h in
    refunded_absorbs rfc3339 later params' (process_refund_success_tx rfc3339 now params s).0
      {o = o} (rw same there) p

cancel_again :
    (now later : ℕ) (params params' : CancelOrderParams) (s : Store)
    → Inv s
    → error_of (process_order_cancellation_tx now params s).1 ≡ none
    → params'.order_id ≡ params.order_id
    → let s' = (process_order_cancellation_tx now params s).0 in
      let r = process_order_cancellation_tx later params' s' in
      (r.0 ≡ s') × (is_cancel_done r.1 ≡ true)
cancel_again now later params params' s v h same =
    let (o, there, p) = cancel_settles now params s v h in
    settled_absorbs later params' (process_order_cancellation_tx now params s).0 {o = o}
      (rw same there) p

-- A call that returns an error leaves the repository as it was.
pub call_error_unchanged :
    (rfc3339 : ℕ → String) (now : ℕ) (c : Call) (s : Store) {e : Error}
    → (step rfc3339 now c s).1 ≡ some e
    → (step rfc3339 now c s).0 ≡ s
unfolding step create_payment_and_mark_pending process_payment_success_tx process_payment_failed_tx
    save_payment_inbox mark_payment_inbox_processed increment_payment_inbox_attempts
    process_order_cancellation_tx mark_order_refunding_tx process_refund_success_tx
    process_refund_failed_tx pay_order mark_paid
call_error_unchanged rfc3339 now (creates p) s h = ground arith
call_error_unchanged rfc3339 now (succeeds params) s h = ground arith
call_error_unchanged rfc3339 now (fails params) s h = ground arith
call_error_unchanged rfc3339 now (saves item) s h = cc
call_error_unchanged rfc3339 now (processes id t) s h = ground arith
call_error_unchanged rfc3339 now (increments id) s h = ground arith
call_error_unchanged rfc3339 now (cancels params) s h = ground arith
call_error_unchanged rfc3339 now (starts_refund id) s h = ground arith
call_error_unchanged rfc3339 now (refunds params) s h = ground arith
call_error_unchanged rfc3339 now (fails_refund o p reason) s h = cc
