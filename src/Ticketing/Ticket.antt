-- ===== src/Ticketing/Ticket.antt =====
-- services/ticketing/internal/domain/ticket.go, and the tables and statements of
-- services/ticketing/internal/adapter/postgres/ticket_repository.go. A table is the list of its rows;
-- a transaction that fails leaves the tables as they were. Whether a text has the form of a UUID, the
-- time of the database and its failures are arguments.
use even_flow.Prelude.{
  ℕ, Bool, true, false, not, Option, none, some, List, [], if◌then◌else◌, String, ◌==◌, string_Eq,
  find_first, keep,
}
use even_flow.Prelude.Int.{ℤ}
use even_flow.Prelude.Sort.{sort_by}
use even_flow.Ticketing.Inventory.{Error, Result, ok, err}
use Error.{
  order_not_found, ticket_not_found, ticket_already_used, ticket_void, ticket_refunded,
  invalid_ticket_status, other,
}

abbrev pub is_none {ℓ} : {A : Type ℓ} → Option A → Bool
is_none none = true
is_none (some a) = false

-- A text in the program: the four statuses, or `unknown`.
pub data TicketStatus : Type 0 where
  issued checked_in void refunded : TicketStatus
  unknown : String → TicketStatus

unfoldable pub is_valid_ticket_status : TicketStatus → Bool
is_valid_ticket_status (TicketStatus.unknown s) = false
is_valid_ticket_status _ = true

pub record Ticket : Type 0 where
  pub id : String
  pub order_id : String
  pub ticket_type_id : String
  pub jti : String
  pub qr_sig : String
  pub status : TicketStatus
  pub checked_in_at : Option ℕ
  pub created_at : ℕ

unfoldable pub can_admit : Ticket → Option Error
can_admit t = elim t.status [
  | TicketStatus.issued ↦ none
  | TicketStatus.checked_in ↦ some ticket_already_used
  | TicketStatus.void ↦ some ticket_void
  | TicketStatus.refunded ↦ some ticket_refunded
  | TicketStatus.unknown s ↦ some invalid_ticket_status
]

abbrev pub is_issued : TicketStatus → Bool
is_issued TicketStatus.issued = true
is_issued _ = false

pub record OrderIssuanceItem : Type 0 where
  pub ticket_type_id : String
  pub quantity : ℤ
  pub unit_cents : ℤ

pub record OrderIssuanceInfo : Type 0 where
  pub order_id : String
  pub event_id : String
  pub identity_id : String
  pub status : String
  pub expires_at : ℕ
  pub items : List OrderIssuanceItem

pub record SeatHold : Type 0 where
  pub id : String
  pub order_id : String
  pub consumed_at : Option ℕ
  pub released_at : Option ℕ

pub record OutboxTicketIssuedPayload : Type 0 where
  pub order_id : String
  pub event_id : String
  pub identity_id : String
  pub ticket_count : ℕ
  pub tickets : List Ticket
  pub issued_at : ℕ

-- The rows of `orders` with their `order_items`, and the other tables that the statements touch.
pub record Db : Type 0 where
  pub orders : List OrderIssuanceInfo
  pub tickets : List Ticket
  pub seat_holds : List SeatHold
  pub outbox : List OutboxTicketIssuedPayload

-- `fault` is the error of a query, if one fails.
unfoldable pub get_order_for_issuance :
    (String → Bool) → Option String → String → Db → Result OrderIssuanceInfo
get_order_for_issuance is_uuid fault order_id db =
    if not (is_uuid order_id) then err order_not_found else elim fault [
      | some m ↦ err (other m)
      | none ↦ elim (find_first (λ o. o.order_id == order_id) db.orders) [
        | none ↦ err order_not_found
        | some o ↦ ok o
      ]
    ]

-- `WHERE order_id = $1 ORDER BY created_at ASC`
unfoldable pub get_tickets_by_order_id :
    (String → Bool) → Option String → String → Db → Result (List Ticket)
get_tickets_by_order_id is_uuid fault order_id db =
    if not (is_uuid order_id) then ok [] else elim fault [
      | some m ↦ err (other m)
      | none ↦ ok (sort_by (λ t. t.created_at) (keep (λ t. t.order_id == order_id) db.tickets))
    ]

unfoldable pub get_ticket_by_jti : String → Db → Result Ticket
get_ticket_by_jti jti db = elim (find_first (λ t. t.jti == jti) db.tickets) [
  | none ↦ err ticket_not_found
  | some t ↦ ok t
]
