-- ===== src/Ticketing/Ledger.antt =====
-- services/ticketing/internal/adapter/postgres/repository.go: the stock, the orders and the holds in
-- Postgres, which have the last word. A transaction that fails changes nothing; `fault` is its error,
-- if the database fails. The checks of the tables are those of migrations/0001_core.sql. Holds are
-- keyed by their UUID, which toUUID only writes in another form. An order has one item here, as
-- PersistHold writes it, and its quantity stands in the order.
use even_flow.Prelude.{
  ℕ, zero, suc, ◌+◌, ◌-◌, Bool, true, false, not, ◌&&◌, ◌||◌, Option, none, some, List, [], ◌∷◌,
  ◌++◌, if◌then◌else◌, String, ◌==◌, string_Eq, leb,
}
use even_flow.Prelude.Int.{ℤ, pos, negsuc, ◌+ℤ◌, leb_ℤ, ltb_ℤ}
use even_flow.Prelude.Map.{Map, lookup, insert}
use even_flow.Ticketing.Inventory.{Result, ok, err}
use even_flow.Ticketing.Inventory.Error.{inventory_exhausted, per_identity_limit, other}
use even_flow.Ticketing.Gate.{Cell, cell_Eq}
use even_flow.Ticketing.CreateHold.{PersistHoldParams, HoldView}

pub record InventoryRow : Type 0 where
  pub capacity : ℕ
  pub available : ℕ

pub record OrderRow : Type 0 where
  pub event_id : String
  pub identity_id : String
  pub status : String
  pub quantity : ℕ
  pub unit_cents : ℤ
  pub expires_at : ℕ

pub record SeatHoldRow : Type 0 where
  pub order_id : String
  pub cell : Cell
  pub quantity : ℕ
  pub expires_at : ℕ
  pub released : Bool
  pub consumed : Bool

pub record Ledger : Type 0 where
  pub inventory : Map Cell InventoryRow
  pub orders : Map String OrderRow
  pub seat_holds : Map String SeatHoldRow
  pub hold_created : List String  -- the orders of the outbox rows `ticketing.hold.created`

-- domain.QuotaOrderStatuses
unfoldable pub takes_quota : String → Bool
takes_quota s =
    s == "HELD" || s == "PAYMENT_PENDING" || s == "PAID" || s == "ISSUED" || s == "REFUNDING"

-- countTicketsQuery with domain.QuotaOrderStatuses
unfoldable pub used_by : String → String → Map String OrderRow → ℕ
unfolding takes_quota
used_by event_id identity_id [] = 0
used_by event_id identity_id ((k, o) ∷ os) =
    let rest = used_by event_id identity_id os in
    if o.event_id == event_id && o.identity_id == identity_id && takes_quota o.status
    then o.quantity + rest
    else rest

-- uq_active_order_per_identity_event
unfoldable pub has_active : String → String → Map String OrderRow → Bool
has_active event_id identity_id [] = false
has_active event_id identity_id ((k, o) ∷ os) =
    o.event_id == event_id
      && o.identity_id == identity_id
      && (o.status == "HELD" || o.status == "PAYMENT_PENDING")
    || has_active event_id identity_id os

abbrev pub is_taken {ℓ} : {A : Type ℓ} → Option A → Bool
is_taken none = false
is_taken (some a) = true

-- Steps 2 to 4, once the row of the bucket has been decremented: the inserts and the commit.
unfoldable pub insert_hold :
    String → PersistHoldParams → ℕ → InventoryRow → Ledger → Ledger × Result HoldView
insert_hold order_id p qty row l =
    let cell : Cell = (p.ticket_type_id, p.bucket) in
    if has_active p.event_id p.identity_id l.orders
    then (l, err per_identity_limit)
    else if ltb_ℤ p.unit_cents (pos 0)
    then (l, err (other "order_items_unit_cents_check"))
    else if is_taken (lookup p.hold_id l.seat_holds) || is_taken (lookup order_id l.orders)
    then (l, err (other "unique_violation"))
    else (
      record {
        inventory = insert cell (record row { available = row.available - qty }) l.inventory;
        orders =
            insert order_id
              (record {
                event_id = p.event_id;
                identity_id = p.identity_id;
                status = "HELD";
                quantity = qty;
                unit_cents = p.unit_cents;
                expires_at = p.expires_at;
              })
              l.orders;
        seat_holds =
            insert p.hold_id
              (record {
                order_id = order_id;
                cell = cell;
                quantity = qty;
                expires_at = p.expires_at;
                released = false;
                consumed = false;
              })
              l.seat_holds;
        hold_created = l.hold_created ++ order_id ∷ [];
      },
      ok (record {
        order_id = order_id;
        hold_id = p.hold_id;
        bucket = p.bucket;
        expires_at = p.expires_at;
      }),
    )

-- The end of a transaction whose quantity is not positive: the order is inserted, its item is refused.
unfoldable pub refuse_item : PersistHoldParams → Ledger → Ledger × Result HoldView
unfolding has_active
refuse_item p l =
    if has_active p.event_id p.identity_id l.orders
    then (l, err per_identity_limit)
    else (l, err (other "order_items_quantity_check"))

-- Step 1 and what follows. A quantity that is not positive passes the condition of the UPDATE, for a row
-- whose check available >= 0 holds, and may break the check available <= capacity.
unfoldable pub decrement :
    String → PersistHoldParams → ℤ → InventoryRow → Ledger → Ledger × Result HoldView
unfolding insert_hold refuse_item
decrement order_id p (negsuc n) row l =
    if leb (row.available + suc n) row.capacity
    then refuse_item p l
    else (l, err (other "inv_available_le_capacity"))
decrement order_id p (pos zero) row l = refuse_item p l
decrement order_id p (pos (suc n)) row l =
    if leb (suc n) row.available
    then insert_hold order_id p (suc n) row l
    else (l, err inventory_exhausted)

-- PersistHold. `order_id` is the identifier that the database makes.
unfoldable pub persist_hold :
    String → Option String → PersistHoldParams → Ledger → Ledger × Result HoldView
unfolding decrement used_by has_active
persist_hold order_id (some m) p l = (l, err (other m))
persist_hold order_id none p l =
    if leb_ℤ p.max_per_identity (pos 0)
    then (l, err (other "thieu max_per_identity"))
    else if ltb_ℤ p.max_per_identity (pos (used_by p.event_id p.identity_id l.orders) +ℤ p.quantity)
    then (l, err per_identity_limit)
    else elim (lookup (p.ticket_type_id, p.bucket) l.inventory) [
      | none ↦ (l, err inventory_exhausted)
      | some row ↦ decrement order_id p p.quantity row l
    ]

-- `UPDATE orders SET status = 'EXPIRED' ... WHERE id = $1 AND status = 'HELD'`
unfoldable pub expire_order : String → Map String OrderRow → Map String OrderRow
expire_order id os = elim (lookup id os) [
  | none ↦ os
  | some o ↦ if o.status == "HELD" then insert id (record o { status = "EXPIRED" }) os else os
]

-- The hold is marked, its order expires, and the row of its bucket becomes as given.
unfoldable pub mark_released : String → SeatHoldRow → Map Cell InventoryRow → Ledger → Ledger
unfolding expire_order
mark_released id h inventory l = record l {
  inventory = inventory;
  orders = expire_order h.order_id l.orders;
  seat_holds = insert id (record h { released = true }) l.seat_holds;
}

-- The restoring UPDATE of a hold that is still open, with the check available <= capacity.
unfoldable pub restore : String → SeatHoldRow → Ledger → Ledger × Result Bool
unfolding mark_released
restore id h l = elim (lookup h.cell l.inventory) [
  | none ↦ (mark_released id h l.inventory l, ok true)
  | some row ↦
      if leb (row.available + h.quantity) row.capacity
      then (
        mark_released id h
            (insert h.cell (record row { available = row.available + h.quantity }) l.inventory) l,
        ok true,
      )
      else (l, err (other "inv_available_le_capacity"))
]

-- ReleaseHold, and whether it gave stock back.
unfoldable pub release_hold : Option String → String → Ledger → Ledger × Result Bool
unfolding restore
release_hold (some m) id l = (l, err (other m))
release_hold none id l = elim (lookup id l.seat_holds) [
  | none ↦ (l, ok false)
  | some h ↦ if h.released || h.consumed then (l, ok false) else restore id h l
]

-- The UPDATE of IssueTicketsTx in ticket_repository.go that marks the holds of an order as consumed.
unfoldable pub consume_rows : String → Map String SeatHoldRow → Map String SeatHoldRow
consume_rows order_id [] = []
consume_rows order_id ((k, h) ∷ m) =
    let rest = consume_rows order_id m in
    if h.order_id == order_id && not h.consumed && not h.released
    then (k, record h { consumed = true }) ∷ rest
    else (k, h) ∷ rest
