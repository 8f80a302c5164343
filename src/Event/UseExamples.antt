-- ===== src/Event/UseExamples.antt =====
-- The use cases of the event service at concrete inputs.
use even_flow.Prelude.{◌≡◌, refl, some, arith, false, none, [], ◌∷◌}
use even_flow.Prelude.Int.{pos}
use even_flow.Prelude.Text.{text}
use even_flow.Event.Tier.{TicketTier, effective_buckets}
use even_flow.Event.Aggregate.{EventStatus, sold_out, Event}
use even_flow.Event.Repository.{update_tier, find_tier, buckets_of, EventDb}
use even_flow.Event.UseCases.{Faults}
use even_flow.Prelude.Map.{lookup}
use even_flow.Event.Restock.{total_available, update_tier-stock}
use even_flow.Event.Governed.{Governed}

abbrev standing : TicketTier
standing = record {
  id = 7;
  event_id = 1;
  name = text "Standing";
  price_cents = pos 5000;
  currency = text "VND";
  quota = pos 4;
  bucket_count = pos 2;
  created_at = 10;
}

abbrev gala : EventStatus → Event
gala s = record {
  id = 1;
  organizer_id = 2;
  slug = text "gala";
  title = text "Gala";
  description = [];
  venue = [];
  starts_at = 5000;
  sale_start_at = 3000;
  sale_end_at = none;
  status = s;
  max_per_identity = 4;
  max_per_order = 4;
  hold_ttl_seconds = 600;
  created_at = 10;
  updated_at = 10;
  tiers = [];
}

abbrev tables : EventStatus → EventDb
tables s = record {
  events = (1, gala s) ∷ [];
  tiers = standing ∷ [];
  inventory =
      (7, record { capacity = 2; available = 0 } ∷ record { capacity = 2; available = 0 } ∷ [])
      ∷ [];
  outbox = [];
}

abbrev healthy : Faults
healthy = record { reads = false; tier_reads = false; reloads = false; writes = false }

-- A sold-out tier of four is cut to two, and two tickets are for sale again.
update_tier-stock_example :
    (db' : EventDb) × (update_tier (record standing { quota = pos 2 }) (tables sold_out) ≡ some db')
    × (total_available (buckets_of 7 db') ≡ 2)
unfolding effective_buckets
update_tier-stock_example =
    update_tier-stock (record standing { quota = pos 2 }) standing 2 4 (tables sold_out)
      (unfold find_tier in refl) refl refl (omega arith) (unfold lookup effective_buckets in refl)
