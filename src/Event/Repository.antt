-- ===== src/Event/Repository.antt =====
-- services/event/internal/adapter/postgres/event_repo.go: the tables of events, tiers, stock and outbox,
-- and the statements on them. A statement or transaction that fails is an argument of its caller and
-- changes nothing.
use even_flow.Prelude.{
  ℕ, ◌+◌, Bool, Option, none, some, List, [], ◌∷◌, ◌++◌, nat_Eq, ◌==◌, if◌then◌else◌, keep,
}
use even_flow.Prelude.Int.{ℤ, pos, ◌-ℤ◌, ltb_ℤ, pos_part}
use even_flow.Prelude.Map.{Map, lookup, insert}
use even_flow.Prelude.Sort.{sort_by}
use even_flow.Event.Tier.{TicketTier, distribute_quota, distribute_additional_quota}
use even_flow.Event.Aggregate.{Event}

-- The messages that the service writes, by what their payload says of the event.
pub data OutboxMessage : Type 0 where
  moderation_job event_cancelled : Event → OutboxMessage

pub record Bucket : Type 0 where
  pub capacity : ℕ
  pub available : ℕ

-- The tiers of a row of `events` stand in the table of tiers, not in the row.
pub record EventDb : Type 0 where
  pub events : Map ℕ Event
  pub tiers : List TicketTier
  pub inventory : Map ℕ (List Bucket)
  pub outbox : List OutboxMessage

unfoldable pub create_event : Event → EventDb → EventDb
create_event e db = record db { events = insert e.id (record e { tiers = [] }) db.events }

-- `ORDER BY price_cents`; prices are not negative.
unfoldable pub get_tiers_by_event_id : ℕ → EventDb → List TicketTier
get_tiers_by_event_id event_id db =
    sort_by (λ t. pos_part t.price_cents) (keep (λ t. t.event_id == event_id) db.tiers)

-- The first argument tells whether the read of the tiers fails, an error that the code drops.
unfoldable pub get_by_id : Bool → ℕ → EventDb → Option Event
get_by_id tiers_fail id db = elim (lookup id db.events) [
  | none ↦ none
  | some row ↦ some (record row { tiers = if tiers_fail then [] else get_tiers_by_event_id id db })
]

-- The columns that `updateEvent` writes.
unfoldable pub updated_row : Event → Event → Event
updated_row e row = record row {
  title = e.title;
  description = e.description;
  venue = e.venue;
  starts_at = e.starts_at;
  sale_start_at = e.sale_start_at;
  sale_end_at = e.sale_end_at;
  status = e.status;
  updated_at = e.updated_at;
}

-- `updateEvent`: no row with this id is no error.
unfoldable pub update_event : Event → EventDb → EventDb
update_event e db = elim (lookup e.id db.events) [
  | none ↦ db
  | some row ↦ record db { events = insert e.id (updated_row e row) db.events }
]

unfoldable pub update_with_outbox : Event → List OutboxMessage → EventDb → EventDb
update_with_outbox e msgs db =
    let db' = update_event e db in record db' { outbox = db'.outbox ++ msgs }

-- The rows of stock that a quota makes.
fresh_buckets : List ℕ → List Bucket
fresh_buckets [] = []
fresh_buckets (q ∷ qs) = record { capacity = q; available = q } ∷ fresh_buckets qs

-- Each bucket grows by its share; shares without a bucket have no row to change.
unfoldable pub grow_buckets : List ℕ → List Bucket → List Bucket
grow_buckets [] bs = bs
grow_buckets (q ∷ qs) [] = []
grow_buckets (q ∷ qs) (b ∷ bs) =
    record { capacity = b.capacity + q; available = b.available + q } ∷ grow_buckets qs bs

-- Each bucket is set to its share.
unfoldable pub set_buckets : List ℕ → List Bucket → List Bucket
set_buckets [] bs = bs
set_buckets (q ∷ qs) [] = []
set_buckets (q ∷ qs) (b ∷ bs) = record { capacity = q; available = q } ∷ set_buckets qs bs

abbrev pub buckets_of : ℕ → EventDb → List Bucket
buckets_of id db = elim (lookup id db.inventory) [ none ↦ [] | some bs ↦ bs ]

-- `ON CONFLICT DO NOTHING`: stock that is there stays.
unfoldable pub add_tier_row : TicketTier → EventDb → EventDb
unfolding fresh_buckets
add_tier_row t db = record db {
  tiers = db.tiers ++ t ∷ [];
  inventory = elim (lookup t.id db.inventory) [
    | some bs ↦ db.inventory
    | none ↦ insert t.id (fresh_buckets (distribute_quota t)) db.inventory
  ];
}

-- The first tier row with this id.
unfoldable pub find_tier : ℕ → List TicketTier → Option TicketTier
find_tier id [] = none
find_tier id (t ∷ ts) = if t.id == id then some t else find_tier id ts

unfoldable pub set_tier_row : TicketTier → List TicketTier → List TicketTier
set_tier_row t [] = []
set_tier_row t (r ∷ rs) =
    let rest = set_tier_row t rs in
    if r.id == t.id
    then (record r { name = t.name; price_cents = t.price_cents; quota = t.quota }) ∷ rest
    else r ∷ rest

-- How the change of a quota changes the stock.
unfoldable pub restocked : TicketTier → ℤ → List Bucket → List Bucket
unfolding grow_buckets set_buckets
restocked t old_quota bs =
    let delta = t.quota -ℤ old_quota in
    if ltb_ℤ (pos 0) delta
    then grow_buckets (distribute_additional_quota t delta) bs
    else if ltb_ℤ delta (pos 0)
    then set_buckets (distribute_quota t) bs
    else bs

-- `none` when the tier has no row.
unfoldable pub update_tier : TicketTier → EventDb → Option EventDb
update_tier t db = elim (find_tier t.id db.tiers) [
  | none ↦ none
  | some row ↦ some (record db {
    tiers = set_tier_row t db.tiers;
    inventory =
        insert t.id
          (restocked (record t { bucket_count = row.bucket_count }) row.quota (buckets_of t.id db))
          db.inventory;
  })
]
