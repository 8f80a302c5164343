-- ===== src/Ticketing/Issuing.antt =====
-- What the check of a ticket and the issuing of tickets promise.
use even_flow.Prelude.{
  ◌≡◌, refl, ◌⊎◌, inl, inr, Bool, false, Option, none, some, arith, String, ◌==◌, ==_iff, string_Eq,
  Bool-cases,
}
use even_flow.Ticketing.Inventory.{Error, Result, ok, err}
use even_flow.Ticketing.Ticket.{TicketStatus, Ticket, Db, can_admit, get_ticket_by_jti}
use even_flow.Ticketing.Tables.{TxFaults}
use even_flow.Ticketing.Scan.{
  TicketClaims, QrCheck, genuine, expired, rejected, check_ticket, find_and_check, verify_ticket,
}

can_admit-issued : (t : Ticket) → can_admit t ≡ none → t.status ≡ TicketStatus.issued
unfolding can_admit
can_admit-issued t h = ground (arith, h)

check_ticket_passes :
    (claims : TicketClaims) (ticket : Ticket)
    → (check_ticket claims ticket).1 ≡ none
    → (ticket.id ≡ claims.ticket_id)
      × (ticket.order_id ≡ claims.order_id)
      × (ticket.status ≡ TicketStatus.issued)
unfolding check_ticket
check_ticket_passes claims ticket h = elim (Bool-cases (ticket.id == claims.ticket_id)) [
  | inr other ↦ ground (arith, other, h)
  | inl same ↦ elim (Bool-cases (ticket.order_id == claims.order_id)) [
    | inr other ↦ ground (arith, other, h)
    | inl order ↦ (
      (==_iff ticket.id claims.ticket_id).0 same,
      (==_iff ticket.order_id claims.order_id).0 order,
      can_admit-issued ticket (ground (arith, same, order, h)),
    )
  ]
]

QrCheck-cases :
    (c : QrCheck)
    → ((x : TicketClaims) × (c ≡ genuine x))
      ⊎ (((x : TicketClaims) × (c ≡ expired x)) ⊎ (c ≡ rejected))
QrCheck-cases (genuine x) = inl (x, refl)
QrCheck-cases (expired x) = inr (inl (x, refl))
QrCheck-cases rejected = inr (inr refl)

Result-cases : (r : Result Ticket) → ((t : Ticket) × (r ≡ ok t)) ⊎ ((e : Error) × (r ≡ err e))
Result-cases (ok t) = inl (t, refl)
Result-cases (err e) = inr (e, refl)

find_and_check_passes :
    (fault : Option String) (claims : TicketClaims) (db : Db)
    → (find_and_check fault claims db).1 ≡ none
    → (ticket : Ticket) × (get_ticket_by_jti claims.jti db ≡ ok ticket)
      × ((check_ticket claims ticket).1 ≡ none)
unfolding find_and_check
find_and_check_passes (some m) claims db h = ground (arith, h)
find_and_check_passes none claims db h = elim (Result-cases (get_ticket_by_jti claims.jti db)) [
  | inl (t, e) ↦ (t, e, ground (arith, e, h))
  | inr (x, e) ↦ ground (arith, e, h)
]

-- A check that reports no error was given a genuine code, whose ticket is in the table under its token,
-- is the ticket and the order of the claims, and has not been used, voided or refunded.
pub verified_is_genuine :
    (verify : String → QrCheck) (fault : Option String) (qr : String) (db : Db)
    → (verify_ticket verify fault qr db).1 ≡ none
    → (claims : TicketClaims) × ((ticket : Ticket) × (verify qr ≡ genuine claims)
        × (get_ticket_by_jti claims.jti db ≡ ok ticket)
        × (ticket.id ≡ claims.ticket_id)
        × (ticket.order_id ≡ claims.order_id)
        × (ticket.status ≡ TicketStatus.issued))
unfolding verify_ticket
verified_is_genuine verify fault qr db h = elim (Bool-cases (qr == "")) [
  | inl empty ↦ ground (arith, empty, h)
  | inr given ↦ elim (QrCheck-cases (verify qr)) [
    | inl (claims, e) ↦
        let (ticket, found, passes) =
          find_and_check_passes fault claims db (ground (arith, given, e, h)) in
        let (id, order, status) = check_ticket_passes claims ticket passes in
        (claims, (ticket, e, found, id, order, status))
    | inr (inl (claims, e)) ↦ ground (arith, given, e, h)
    | inr (inr e) ↦ ground (arith, given, e, h)
  ]
]

module _ (is_uuid : String → Bool) where
  -- The attempt reads and commits without a fault.
  abbrev pub Answers : TxFaults → Type 0
  Answers w = (w.begin_fault ≡ none) × (w.count_fails ≡ false) × (w.commit_fault ≡ none)
