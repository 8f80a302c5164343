-- ===== src/Ticketing/Scan.antt =====
-- services/ticketing/internal/app/verify_ticket.go and check_in_ticket.go. The check of the QR code
-- (port.QRSigner) is an argument; logging is left out.
use even_flow.Prelude.{
  ℕ, Bool, true, false, not, ◌||◌, Option, none, some, if◌then◌else◌, String, ◌==◌, string_Eq,
}
use even_flow.Prelude.Int.{ℤ}
use even_flow.Ticketing.Inventory.{Error, ok, err}
use even_flow.Ticketing.Inventory.Error.{
  ticket_not_found, tampered_qr, ticket_already_used, ticket_expired, ticket_void, ticket_refunded,
  other,
}
use even_flow.Ticketing.Ticket.{TicketStatus, Ticket, can_admit, Db, get_ticket_by_jti}
use even_flow.Ticketing.Tables.{update_ticket_status}

pub record TicketClaims : Type 0 where
  pub ticket_id : String
  pub order_id : String
  pub event_id : String
  pub ticket_type_id : String
  pub identity_id : String
  pub jti : String
  pub issued_at : ℤ
  pub expires_at : ℤ

-- What QRSigner.Verify returns: claims, the error for an expired code beside its claims, or another.
pub data QrCheck : Type 0 where
  genuine : TicketClaims → QrCheck
  expired : TicketClaims → QrCheck
  rejected : QrCheck

-- `none` is the zero value of the ticket or the claims.
pub record VerifyTicketResult : Type 0 where
  pub valid : Bool
  pub message : String
  pub ticket : Option Ticket
  pub claims : Option TicketClaims

abbrev empty_result : VerifyTicketResult
empty_result = record { valid = false; message = ""; ticket = none; claims = none }

-- A refusal, with what it shows of the ticket and the claims.
abbrev refusal : String → Option Ticket → Option TicketClaims → VerifyTicketResult
refusal message ticket claims = record {
  valid = false;
  message = message;
  ticket = ticket;
  claims = claims;
}

abbrev admit_message : Error → String
admit_message ticket_already_used = "ve da duoc su dung de vao cua truoc do"
admit_message ticket_void = "ve da bi vo hieu hoa"
admit_message ticket_refunded = "ve da duoc hoan tien"
admit_message _ = "ve khong hop le de vao cua"

-- Steps 3 and 4, on the ticket found: whether it is the ticket of the claims, and its status.
unfoldable pub check_ticket : TicketClaims → Ticket → VerifyTicketResult × Option Error
check_ticket claims ticket =
    if not (ticket.id == claims.ticket_id) || not (ticket.order_id == claims.order_id)
    then (
      refusal "du lieu ve khong khop voi he thong" (some ticket) (some claims),
      some tampered_qr,
    )
    else elim (can_admit ticket) [
      | some e ↦ (refusal (admit_message e) (some ticket) (some claims), some e)
      | none ↦ (
        record {
          valid = true;
          message = "ve hop le, duoc phep vao cua";
          ticket = some ticket;
          claims = some claims;
        },
        none,
      )
    ]

-- Step 2. `lookup_fault` is the error of the query, if it fails.
unfoldable pub find_and_check :
    Option String → TicketClaims → Db → VerifyTicketResult × Option Error
unfolding check_ticket
find_and_check (some m) claims db = (empty_result, some (other m))
find_and_check none claims db = elim (get_ticket_by_jti claims.jti db) [
  | err e ↦ (refusal "khong tim thay ve trong he thong" none (some claims), some ticket_not_found)
  | ok ticket ↦ check_ticket claims ticket
]

-- VerifyTicketUseCase.Execute.
unfoldable pub verify_ticket :
    (String → QrCheck) → Option String → String → Db → VerifyTicketResult × Option Error
unfolding find_and_check
verify_ticket verify lookup_fault qr_payload db =
    if qr_payload == ""
    then (
      refusal "chuoi QR khong duoc de trong" none none,
      some (other "verify_ticket: chuoi QR rong"),
    )
    else elim (verify qr_payload) [
      | expired claims ↦
          (refusal "ma QR da het han su dung" none (some claims), some ticket_expired)
      | rejected ↦ (refusal "ma QR gia mao hoac chu ky khong hop le" none none, some tampered_qr)
      | genuine claims ↦ find_and_check lookup_fault claims db
    ]

abbrev is_already_used : Error → Bool
is_already_used ticket_already_used = true
is_already_used _ = false

-- The result of the second half of CheckInTicketUseCase.Execute, by the outcome of UpdateTicketStatus.
unfoldable pub after_update :
    ℕ → VerifyTicketResult → Ticket → Db × Option Error → Db × (VerifyTicketResult × Option Error)
after_update now res ticket (db, none) =
    let admitted = record ticket { status = TicketStatus.checked_in; checked_in_at = some now } in
    (db, (record res { ticket = some admitted; message = "check-in thanh cong" }, none))
after_update now res ticket (db, some e) =
    let refused =
      if is_already_used e
      then refusal "ve da duoc su dung de vao cua truoc do" (some ticket) res.claims
      else empty_result in
    (db, (refused, some e))

-- The second half of CheckInTicketUseCase.Execute: the change of status, for the result `res` of a
-- check that passed. Between the check and this step other scanners may have run.
unfoldable pub admit :
    (String → Bool)
    → Option String
    → Bool
    → ℕ
    → VerifyTicketResult
    → Ticket
    → Db
    → Db × (VerifyTicketResult × Option Error)
unfolding after_update
admit is_uuid exec_fault check_fails now res ticket db = after_update now res ticket (
    update_ticket_status is_uuid exec_fault check_fails ticket.id TicketStatus.issued
      TicketStatus.checked_in (some now) db)

-- CheckInTicketUseCase.Execute, when nothing runs between the check and the change of status. A check
-- without an error carries its ticket.
unfoldable pub check_in :
    (String → Bool)
    → (String → QrCheck)
    → Option String
    → Option String
    → Bool
    → ℕ
    → String
    → Db
    → Db × (VerifyTicketResult × Option Error)
unfolding verify_ticket admit
check_in is_uuid verify lookup_fault exec_fault check_fails now qr_payload db =
    let (res, error) = verify_ticket verify lookup_fault qr_payload db in
    elim error [
      | some e ↦ (db, (res, some e))
      | none ↦ elim res.ticket [
        | none ↦ (db, (res, none))
        | some ticket ↦ admit is_uuid exec_fault check_fails now res ticket db
      ]
    ]
