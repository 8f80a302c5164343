-- ===== src/Ticketing/Tables.antt =====
-- The statements of services/ticketing/internal/adapter/postgres/ticket_repository.go that write.
use even_flow.Prelude.{
  ℕ, Bool, true, false, not, ◌&&◌, ◌||◌, Option, none, some, List, [], ◌∷◌, ◌++◌, if◌then◌else◌,
  String, ◌==◌, string_Eq, find_first, ltb, count_of, length,
}
use even_flow.Ticketing.Inventory.{Error, Result, ok, err}
use Error.{order_not_found, ticket_not_found, ticket_already_used, order_not_paid, other}
use even_flow.Ticketing.Ticket.{
  is_none, TicketStatus, Ticket, OrderIssuanceInfo, SeatHold, OutboxTicketIssuedPayload, Db,
}

-- Equality of the status column.
abbrev pub same_status : TicketStatus → TicketStatus → Bool
same_status TicketStatus.issued TicketStatus.issued = true
same_status TicketStatus.checked_in TicketStatus.checked_in = true
same_status TicketStatus.void TicketStatus.void = true
same_status TicketStatus.refunded TicketStatus.refunded = true
same_status (TicketStatus.unknown s) (TicketStatus.unknown r) = s == r
same_status _ _ = false

-- `WHERE id = $3::uuid AND status = $4`
abbrev pub matches : String → TicketStatus → Ticket → Bool
matches id status t = t.id == id && same_status t.status status

-- `UPDATE tickets SET status = $1, checked_in_at = $2 WHERE ...`
unfoldable pub set_status :
    String → TicketStatus → TicketStatus → Option ℕ → List Ticket → List Ticket
set_status id current next at [] = []
set_status id current next at (t ∷ ts) =
    let rest = set_status id current next at ts in
    if matches id current t
    then (record t { status = next; checked_in_at = at }) ∷ rest
    else t ∷ rest

-- `exec_fault` is the error of the UPDATE, if it fails; `check_fails` says that the query for the row
-- fails, whose error the code drops: the row then counts as absent.
unfoldable pub update_ticket_status :
    (String → Bool)
    → Option String
    → Bool
    → String
    → TicketStatus
    → TicketStatus
    → Option ℕ
    → Db
    → Db × Option Error
unfolding set_status
update_ticket_status is_uuid exec_fault check_fails id current next at db =
    if not (is_uuid id) then (db, some ticket_not_found) else elim exec_fault [
      | some m ↦ (db, some (other m))
      | none ↦
          if ltb 0 (count_of (matches id current) db.tickets)
          then (record db { tickets = set_status id current next at db.tickets }, none)
          else if check_fails || not (ltb 0 (count_of (λ t. t.id == id) db.tickets))
          then (db, some ticket_not_found)
          else (db, some ticket_already_used)
    ]

-- `INSERT INTO tickets`, row after row: `id` is the primary key and `jti` is unique.
unfoldable pub insert_tickets : List Ticket → List Ticket → Option (List Ticket)
insert_tickets table [] = some table
insert_tickets table (t ∷ ts) =
    let rest = insert_tickets (table ++ t ∷ []) ts in
    if ltb 0 (count_of (λ r. r.id == t.id || r.jti == t.jti) table) then none else rest

-- `UPDATE seat_holds SET consumed_at = now() WHERE order_id = $1 AND ... IS NULL`
unfoldable pub consume_holds_of : String → ℕ → List SeatHold → List SeatHold
consume_holds_of order_id now [] = []
consume_holds_of order_id now (h ∷ hs) =
    let rest = consume_holds_of order_id now hs in
    if h.order_id == order_id && is_none h.consumed_at && is_none h.released_at
    then (record h { consumed_at = some now }) ∷ rest
    else h ∷ rest

-- `UPDATE orders SET status = 'ISSUED' WHERE id = $1`
unfoldable pub set_order_issued : String → List OrderIssuanceInfo → List OrderIssuanceInfo
set_order_issued order_id [] = []
set_order_issued order_id (o ∷ os) =
    let rest = set_order_issued order_id os in
    if o.order_id == order_id then (record o { status = "ISSUED" }) ∷ rest else o ∷ rest

unfoldable pub issued_payload : OrderIssuanceInfo → List Ticket → ℕ → OutboxTicketIssuedPayload
issued_payload order tickets now = record {
  order_id = order.order_id;
  event_id = order.event_id;
  identity_id = order.identity_id;
  ticket_count = length tickets;
  tickets = tickets;
  issued_at = now;
}

-- Steps 3 to 7: the writes, then the commit. `write_fault` is the first error among them.
unfoldable pub write_tickets :
    ℕ → Option String → OrderIssuanceInfo → List Ticket → Db → Db × Result Bool
unfolding insert_tickets consume_holds_of set_order_issued issued_payload
write_tickets now (some m) order tickets db = (db, err (other m))
write_tickets now none order tickets db = elim (insert_tickets db.tickets tickets) [
  | none ↦ (db, err (other "unique_violation"))
  | some rows ↦ (
    record {
      orders = set_order_issued order.order_id db.orders;
      tickets = rows;
      seat_holds = consume_holds_of order.order_id now db.seat_holds;
      outbox = db.outbox ++ issued_payload order tickets now ∷ [];
    },
    ok false,
  )
]

-- The calls of IssueTicketsTx that fail: the begin, the query that counts the tickets, whose error the
-- code drops, the commit of an order that has its tickets, and the first of the writes.
pub record TxFaults : Type 0 where
  pub begin_fault : Option String
  pub count_fails : Bool
  pub commit_fault : Option String
  pub write_fault : Option String

-- IssueTicketsTx. The result says whether the order had its tickets already.
unfoldable pub issue_tickets_tx :
    (String → Bool) → ℕ → TxFaults → OrderIssuanceInfo → List Ticket → Db → Db × Result Bool
unfolding write_tickets
issue_tickets_tx is_uuid now f order tickets db =
    if not (is_uuid order.order_id) then (db, err order_not_found) else elim f.begin_fault [
      | some m ↦ (db, err (other m))
      | none ↦ elim (find_first (λ o. o.order_id == order.order_id) db.orders) [
        | none ↦ (db, err order_not_found)
        | some row ↦
            if row.status == "ISSUED"
              && not f.count_fails
              && ltb 0 (count_of (λ t. t.order_id == order.order_id) db.tickets)
            then (db, elim f.commit_fault [ none ↦ ok true | some m ↦ err (other m) ])
            else if not (row.status == "PAID") && not (row.status == "ISSUED")
            then (db, err order_not_paid)
            else write_tickets now f.write_fault order tickets db
      ]
    ]
