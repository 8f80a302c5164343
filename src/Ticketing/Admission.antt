-- ===== src/Ticketing/Admission.antt =====
-- How often a ticket admits its holder, whatever the order in which scanners and issuing run.
use even_flow.Prelude.{
  ℕ, suc, ◌≤◌, ◌<◌, ◌≡◌, refl, subst, inl, inr, Bool, true, false, Option, none, some, List, [],
  ◌∷◌, arith, if◌then◌else◌, String, ◌==◌, ==_iff, string_Eq, count_of, Bool-cases,
}
use even_flow.Ticketing.Inventory.{Error, Result}
use even_flow.Ticketing.Ticket.{TicketStatus, Ticket, OrderIssuanceInfo, Db}
use even_flow.Ticketing.Tables.{TxFaults, matches, set_status, issue_tickets_tx}
use even_flow.Ticketing.Cases.{write_cases, issue_cases, update_cases}
use even_flow.Ticketing.Scan.{VerifyTicketResult, admit, after_update}
use even_flow.Ticketing.Spent.{
  IsSpent, IsSpent-after_scan, IsSpent-kept_by_scan, IsSpent-insert, spent_other,
}

-- The steps that touch tickets. A scanner admits with a result and a ticket that it read at any earlier
-- time.
pub data Move : Type 0 where
  scan : Option String → Bool → ℕ → VerifyTicketResult → Ticket → Move
  issue : ℕ → TxFaults → OrderIssuanceInfo → List Ticket → Move

module _ (is_uuid : String → Bool) where
  unfoldable pub play : Move → Db → Db
  play (scan fault check_fails now res ticket) db =
      (admit is_uuid fault check_fails now res ticket db).0
  play (issue now f order tickets) db = (issue_tickets_tx is_uuid now f order tickets db).0

  -- Whether the move lets the holder of ticket `id` in.
  unfoldable pub admits : String → Move → Db → Bool
  admits id (scan fault check_fails now res ticket) db =
      elim (admit is_uuid fault check_fails now res ticket db).1.1 [
        | none ↦ ticket.id == id
        | some e ↦ false
      ]
  admits id (issue now f order tickets) db = false

  unfoldable pub admissions : String → List Move → Db → ℕ
  unfolding play admits
  admissions id [] db = 0
  admissions id (m ∷ ms) db =
      let rest = admissions id ms (play m db) in if admits id m db then suc rest else rest

IsSpent-kept_by_issue :
    (is_uuid : String → Bool) (id : String) (now : ℕ) (f : TxFaults) (order : OrderIssuanceInfo)
    (ts : List Ticket) (db : Db)
    → IsSpent id db.tickets
    → IsSpent id (issue_tickets_tx is_uuid now f order ts db).0.tickets
IsSpent-kept_by_issue is_uuid id now f order ts db h =
    let P = λ (r : Db × Result Bool). IsSpent id r.0.tickets in
    issue_cases is_uuid db P now f order ts (λ e. h) (λ row found i. h)
      (λ row u found.
        write_cases is_uuid db P now f.write_fault order ts (λ e. h)
          (λ rows e. IsSpent-insert id db.tickets ts rows e h))

-- What a scan does: nobody enters and nothing changes, or the holder enters and the rows are marked.
admit_cases :
    (is_uuid : String → Bool) (db : Db) (P : Db × (VerifyTicketResult × Option Error) → Type 0)
    (fault : Option String) (check_fails : Bool) (now : ℕ) (res : VerifyTicketResult)
    (ticket : Ticket)
    → ((r : VerifyTicketResult) (e : Error) → P (db, (r, some e)))
    → ((r : VerifyTicketResult)
        → 0 < count_of (matches ticket.id TicketStatus.issued) db.tickets
        → P (
          record db {
            tickets =
                set_status ticket.id TicketStatus.issued TicketStatus.checked_in
                  (some now)
                  db.tickets;
          },
          (r, none),
        ))
    → P (admit is_uuid fault check_fails now res ticket db)
unfolding admit after_update
admit_cases is_uuid db P fault check_fails now res ticket refused entered =
    update_cases is_uuid db (λ r. P (after_update now res ticket r)) fault check_fails ticket.id
      TicketStatus.issued TicketStatus.checked_in (some now) (λ e. refused _ e) (λ h. entered _ h)

-- A ticket that is spent stays spent, and admits nobody.
play-IsSpent :
    (is_uuid : String → Bool) (id : String) (m : Move) (db : Db)
    → IsSpent id db.tickets
    → IsSpent id (play is_uuid m db).tickets × (admits is_uuid id m db ≡ false)
unfolding play admits
play-IsSpent is_uuid id (issue now f order ts) db h =
    (IsSpent-kept_by_issue is_uuid id now f order ts db h, refl)
play-IsSpent is_uuid id (scan fault check_fails now res ticket) db h =
    admit_cases is_uuid db
      (λ r.
        IsSpent id r.0.tickets
        × (elim r.1.1 as (λ x. Bool) [ none ↦ ticket.id == id | some e ↦ false ] ≡ false))
      fault check_fails now res ticket (λ r e. (h, refl))
      (λ r matched. (
        IsSpent-kept_by_scan id ticket.id (some now) db.tickets h,
        spent_other id ticket.id db.tickets h matched,
      ))

-- A ticket that admits its holder is spent.
admits_spends :
    (is_uuid : String → Bool) (id : String) (m : Move) (db : Db)
    → admits is_uuid id m db ≡ true
    → IsSpent id (play is_uuid m db).tickets
unfolding play admits
admits_spends is_uuid id (issue now f order ts) db = λ h. ground (arith, h)
admits_spends is_uuid id (scan fault check_fails now res ticket) db =
    admit_cases is_uuid db
      (λ r.
        (elim r.1.1 as (λ x. Bool) [ none ↦ ticket.id == id | some e ↦ false ] ≡ true)
        → IsSpent id r.0.tickets)
      fault check_fails now res ticket (λ r e h. ground (arith, h))
      (λ r matched same.
        subst
          (λ x. IsSpent x (
            set_status ticket.id TicketStatus.issued TicketStatus.checked_in (some now) db.tickets))
          ((==_iff ticket.id id).0 same)
          (IsSpent-after_scan ticket.id (some now) db.tickets matched))

spent_admits_none :
    (is_uuid : String → Bool) (id : String) (ms : List Move) (db : Db)
    → IsSpent id db.tickets
    → admissions is_uuid id ms db ≡ 0
unfolding admissions
spent_admits_none is_uuid id [] db h = refl
spent_admits_none is_uuid id (m ∷ ms) db h =
    let now = play-IsSpent is_uuid id m db h in
    rw (now.1) (spent_admits_none is_uuid id ms (play is_uuid m db) now.0)

-- Whatever the tables hold at first, however scanners and the issuing of tickets interleave, and
-- whichever statements fail, a ticket admits at most once.
pub admitted_at_most_once :
    (is_uuid : String → Bool) (id : String) (ms : List Move) (db : Db)
    → admissions is_uuid id ms db ≤ 1
unfolding admissions
admitted_at_most_once is_uuid id [] db = omega arith
admitted_at_most_once is_uuid id (m ∷ ms) db = elim (Bool-cases (admits is_uuid id m db)) [
  | inl enters ↦
      rw
        (
          enters,
          spent_admits_none is_uuid id ms (play is_uuid m db)
              (admits_spends is_uuid id m db enters),
        )
        (omega arith)
  | inr stays ↦ rw stays (admitted_at_most_once is_uuid id ms (play is_uuid m db))
]
