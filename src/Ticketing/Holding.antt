-- ===== src/Ticketing/Holding.antt =====
-- What a run of CreateHold promises on all its paths.
use even_flow.Prelude.{◌≡◌, refl, ◌⊎◌, inl, inr, true, false, none, string_Eq, arith, Bool-cases}
use even_flow.Prelude.Int.{ℤ, pos, ◌+ℤ◌, ◌≤ℤ◌}
use even_flow.Prelude.Map.{lookup}
use even_flow.Ticketing.Inventory.{Error, Result, ok, err}
use even_flow.Ticketing.Limits.{quantity_refused, identity_refused}
use even_flow.Ticketing.Gate.{Gate}
use even_flow.Ticketing.CreateHold.{
  SaleConfig, HoldView, Repository, CreateHoldInput, Circumstances, reserve, check_limits, execute,
}
use even_flow.Ticketing.Compensation.{
  CanRelease, HoldAnswered, Result-cases, SameStock, SameStock-refl, reserve_compensates,
}

at_least_one : (q m : ℤ) → quantity_refused q m ≡ false → pos 1 ≤ℤ q
unfolding quantity_refused
at_least_one q m h = ground (arith, h)

at_most : (q m : ℤ) → quantity_refused q m ≡ false → q ≤ℤ m
unfolding quantity_refused
at_most q m h = ground (arith, h)

within_identity : (b q m : ℤ) → identity_refused b q m ≡ false → b +ℤ q ≤ℤ m
unfolding identity_refused
within_identity b q m h = ground (arith, h)

module _ {R : Type 0} (repo : Repository R) (at : Circumstances) (req : CreateHoldInput) (g : Gate)
    (r : R) where
  -- The buyer was let in, the event is on sale, and the quantity is within the limits of the sale.
  unfoldable pub Allowed : SaleConfig → ℤ → Type 0
  Allowed ev bought =
      (at.is_admitted ≡ ok true)
      × (repo.get_sale_config req.event_id req.ticket_type_id r ≡ ok ev)
      × (repo.count_purchased req.event_id req.identity_id r ≡ ok bought)
      × (pos 1 ≤ℤ req.quantity)
      × (req.quantity ≤ℤ ev.max_per_order)
      × (bought +ℤ req.quantity ≤ℤ ev.max_per_identity)

  limits_cases :
      (P : (Gate × R) × Result HoldView → Type 0) (ev : SaleConfig)
      → at.is_admitted ≡ ok true
      → repo.get_sale_config req.event_id req.ticket_type_id r ≡ ok ev
      → ((x : Result HoldView) → P ((g, r), x))
      → ((bought : ℤ) → Allowed ev bought → P (reserve repo at req ev g r))
      → P (check_limits repo at req ev g r)
  unfolding check_limits Allowed
  limits_cases P ev a c same go =
      elim (Bool-cases (quantity_refused req.quantity ev.max_per_order)) [
        | inl bad ↦ rw (bad, check_limits) (same _)
        | inr good ↦ elim (Result-cases (repo.count_purchased req.event_id req.identity_id r)) [
          | inr (e, n) ↦ rw (good, check_limits) (rw n (same _))
          | inl (bought, n) ↦
              elim (Bool-cases (identity_refused bought req.quantity ev.max_per_identity)) [
                | inl over ↦ rw (good, check_limits) (rw n (rw over (same _)))
                | inr within ↦
                    rw (good, check_limits)
                      (rw n (
                        rw within (
                          go bought (
                            a,
                            c,
                            n,
                            at_least_one req.quantity ev.max_per_order good,
                            at_most req.quantity ev.max_per_order good,
                            within_identity bought req.quantity ev.max_per_identity within,
                          ))))
              ]
        ]
      ]

  execute_cases :
      (P : (Gate × R) × Result HoldView → Type 0)
      → ((x : Result HoldView) → P ((g, r), x))
      → ((ev : SaleConfig) (bought : ℤ) → Allowed ev bought → P (reserve repo at req ev g r))
      → P (execute repo at req g r)
  unfolding execute
  execute_cases P same go = elim (Result-cases at.is_admitted) [
    | inr (e, a) ↦ rw (a, execute) (same _)
    | inl (admitted, a) ↦ elim (Bool-cases admitted) [
      | inr no_entry ↦ rw (a, execute) (rw no_entry (same _))
      | inl entry ↦ elim (Result-cases (repo.get_sale_config req.event_id req.ticket_type_id r)) [
        | inr (e, c) ↦ rw (a, execute) (rw entry (rw c (same _)))
        | inl (ev, c) ↦
            rw (a, execute)
              (rw entry (rw c (limits_cases P ev (rw a (rw entry refl)) c same (go ev))))
      ]
    ]
  ]

  -- On every error, when the script that releases the hold runs if it is called, no reply of the script
  -- that takes stock is lost, and the identifier of the hold is new, each bucket in Redis has as many
  -- tickets available and held as before.
  pub execute_compensates :
      (e : Error)
      → CanRelease at
      → HoldAnswered at
      → lookup at.hold_id g.holds ≡ none
      → (execute repo at req g r).1 ≡ err e
      → SameStock g (execute repo at req g r).0.0
  execute_compensates e can_release answered fresh =
      execute_cases (λ p. p.1 ≡ err e → SameStock g p.0.0) (λ x h. SameStock-refl g)
        (λ ev bought allowed. reserve_compensates repo at req r can_release answered ev g e fresh)

  -- A run leaves Redis and the database as they were, unless the buyer was let in, the event is on sale,
  -- and the quantity is at least one and within the limits per order and, with what the identity has
  -- bought, per identity.
  pub execute_guards :
      ((execute repo at req g r).0 ≡ (g, r))
      ⊎ ((ev : SaleConfig) × ((bought : ℤ) × Allowed ev bought))
  execute_guards =
      execute_cases (λ p. (p.0 ≡ (g, r)) ⊎ ((ev : SaleConfig) × ((bought : ℤ) × Allowed ev bought)))
        (λ x. inl refl) (λ ev bought allowed. inr (ev, (bought, allowed)))
