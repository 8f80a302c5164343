-- ===== src/Event/ManageTiers.antt =====
-- services/event/internal/app/manage_tiers.go: the use cases that add a tier and change its quota. The
-- stock of a tier and the event are written one after the other, and an error of the second write is
-- dropped.
use even_flow.Prelude.{ℕ, Bool, Option, none, some, nat_Eq, if◌then◌else◌}
use even_flow.Prelude.Int.{ℤ}
use even_flow.Prelude.Text.{Text, Unicode}
use even_flow.Event.Tier.{TicketTier, Error, tier_not_found, ok, err, new_ticket_tier}
use even_flow.Event.Aggregate.{Event, add_tier, update_tier_quota}
use even_flow.Event.Repository.{EventDb, add_tier_row, find_tier, update_tier, update_event}
use even_flow.Event.UseCases.{Faults, Step, domain, database, load, owned_by}

-- `repo.AddTier` after the checks of the aggregate.
unfoldable pub store_tier : Faults → TicketTier → Event × Option Error → EventDb → Step
store_tier f t (e, some x) db = (db, some (domain x))
store_tier f t (e, none) db = if f.writes then (db, some database) else (add_tier_row t db, none)

-- `repo.Update` after `repo.UpdateTier`; the flag tells whether it fails.
unfoldable pub store_quota : Bool → Faults → Event → TicketTier → EventDb → Step
store_quota second_fails f e t db =
    if f.writes then (db, some database) else elim (update_tier t db) [
      | none ↦ (db, some database)
      | some db' ↦ (if second_fails then db' else update_event e db', none)
    ]

-- UpdateTierQuota from the aggregate's answer: the search for the tier and the two writes.
unfoldable pub requote : Bool → Faults → ℕ → Event × Option Error → EventDb → Step
requote second_fails f tier_id (e, some x) db = (db, some (domain x))
requote second_fails f tier_id (e, none) db = elim (find_tier tier_id e.tiers) [
  | none ↦ (db, some (domain tier_not_found))
  | some t ↦ store_quota second_fails f e t db
]

module _ (f : Faults) where
  -- AddTier
  unfoldable pub create_tier : Unicode → ℕ → ℕ → ℕ → Text → ℤ → ℤ → ℕ → EventDb → Step
  create_tier u new_id clock organizer_id name price_cents quota id db =
      load f id
        (λ e.
          owned_by organizer_id e
            (elim (new_ticket_tier new_id clock id name price_cents quota) [
              | err x ↦ (db, some (domain x))
              | ok t ↦ store_tier f t (add_tier u clock t e) db
            ])
            db)
        db

  -- UpdateTierQuota
  unfoldable pub change_quota : Bool → ℕ → ℕ → ℕ → ℤ → ℕ → EventDb → Step
  change_quota second_fails clock organizer_id tier_id q id db =
      load f id
        (λ e.
          owned_by organizer_id e
            (requote second_fails f tier_id (update_tier_quota clock tier_id q e) db) db)
        db
