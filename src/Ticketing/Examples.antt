-- ===== src/Ticketing/Examples.antt =====
-- Tests of the ticketing service, and its theorems at concrete values.
use even_flow.Prelude.{
  ℕ, ◌≤◌, ◌≡◌, refl, ◌↔◌, Bool, true, false, ◌||◌, none, some, List, [], ◌∷◌, arith, String,
  string_Eq,
}
use even_flow.Prelude.Int.{pos, ◌≤ℤ◌}
use even_flow.Prelude.Text.{text}
use even_flow.Event.Tier as Tier
use even_flow.Event.Tier.{TicketTier}
use even_flow.Ticketing.Inventory.{
  ok, BucketInventory, bucket_count_or_default, distribute_quota, AvailabilityLevel, level_of,
  max_selectable,
}
use even_flow.Distribution.{fill_buckets}
use even_flow.Ticketing.Fairness.{IsFair, distribute_quota-IsFair, tier_buckets_agree}
use even_flow.Ticketing.Limits.{quantity_refused, identity_refused, offered_iff}
use even_flow.Ticketing.Ticket.{
  TicketStatus, Ticket, OrderIssuanceInfo, Db, can_admit, get_ticket_by_jti,
}
use even_flow.Ticketing.Tables.{TxFaults, issue_tickets_tx, update_ticket_status}
use even_flow.Ticketing.Scan.{
  TicketClaims, QrCheck, genuine, VerifyTicketResult, verify_ticket, admit,
}
use even_flow.Ticketing.Admission.{Move, scan, issue, admissions, admitted_at_most_once}
use even_flow.Ticketing.Issuing.{verified_is_genuine}

split_ten : distribute_quota (pos 10) (pos 4) ≡ ok (3 ∷ 3 ∷ 2 ∷ 2 ∷ [])
unfolding distribute_quota fill_buckets
split_ten = refl

distribute_quota-IsFair_example :
    (bs : List ℕ) × (distribute_quota (pos 10) (pos 4) ≡ ok bs)
    × IsFair 10 (bucket_count_or_default (pos 4)) bs
distribute_quota-IsFair_example = distribute_quota-IsFair 10 (pos 4)

abbrev standing : TicketTier
standing = record {
  id = 1;
  event_id = 2;
  name = text "Standing";
  price_cents = pos 500;
  currency = text "VND";
  quota = pos 10;
  bucket_count = pos 4;
  created_at = 7;
}

tier_buckets_agree_example : distribute_quota (pos 10) (pos 4) ≡ ok (Tier.distribute_quota standing)
tier_buckets_agree_example = tier_buckets_agree standing 10 refl

abbrev first_bucket : BucketInventory
first_bucket = record { bucket = pos 0; capacity = pos 5; available = pos 2 }

abbrev second_bucket : BucketInventory
second_bucket = record { bucket = pos 1; capacity = pos 5; available = pos 4 }

few_of_hundred : level_of (pos 10) (pos 100) ≡ AvailabilityLevel.few_left
unfolding level_of
few_of_hundred = refl

offered_iff_example :
    ((quantity_refused (pos 2) (pos 4) || identity_refused (pos 3) (pos 2) (pos 6)) ≡ false)
    ↔ (pos 2 ≤ℤ max_selectable (pos 4) (pos 6) (pos 3))
offered_iff_example = offered_iff (pos 2) (pos 4) (pos 6) (pos 3) (omega arith)

abbrev is_uuid : String → Bool
is_uuid s = true

abbrev seat : Ticket
seat = record {
  id = "t1";
  order_id = "o1";
  ticket_type_id = "tt1";
  jti = "j1";
  qr_sig = "s1";
  status = TicketStatus.issued;
  checked_in_at = none;
  created_at = 5;
}

abbrev paid_order : OrderIssuanceInfo
paid_order = record {
  order_id = "o1";
  event_id = "e1";
  identity_id = "p1";
  status = "PAID";
  expires_at = 0;
  items = [];
}

abbrev before : Db
before = record { orders = paid_order ∷ []; tickets = []; seat_holds = []; outbox = [] }

abbrev after : Db
after = record { orders = paid_order ∷ []; tickets = seat ∷ []; seat_holds = []; outbox = [] }

abbrev claims : TicketClaims
claims = record {
  ticket_id = "t1";
  order_id = "o1";
  event_id = "e1";
  ticket_type_id = "tt1";
  identity_id = "p1";
  jti = "j1";
  issued_at = pos 5;
  expires_at = pos 0;
}

-- A verifier to which each code is that of the one ticket.
abbrev verify : String → QrCheck
verify s = genuine claims

abbrev passed : VerifyTicketResult
passed = record { valid = true; message = ""; ticket = some seat; claims = some claims }

-- Two scanners that both saw the ticket issued.
abbrev no_faults : TxFaults
no_faults = record {
  begin_fault = none;
  count_fails = false;
  commit_fault = none;
  write_fault = none;
}

abbrev race : List Move
race =
    issue 6 no_faults paid_order (seat ∷ [])
    ∷ scan none false 7 passed seat
    ∷ scan none false 8 passed seat
    ∷ []

one_enters : admissions is_uuid "t1" race before ≡ 1
unfolding admissions admit update_ticket_status issue_tickets_tx
one_enters = refl

admitted_at_most_once_example : admissions is_uuid "t1" race before ≤ 1
admitted_at_most_once_example = admitted_at_most_once is_uuid "t1" race before

verified_is_genuine_example :
    (c : TicketClaims) × ((ticket : Ticket) × (verify "qr" ≡ genuine c)
      × (get_ticket_by_jti c.jti after ≡ ok ticket)
      × (ticket.id ≡ c.ticket_id)
      × (ticket.order_id ≡ c.order_id)
      × (ticket.status ≡ TicketStatus.issued))
unfolding verify_ticket get_ticket_by_jti can_admit
verified_is_genuine_example = verified_is_genuine verify none "qr" after refl
