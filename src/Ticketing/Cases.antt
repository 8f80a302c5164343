-- ===== src/Ticketing/Cases.antt =====
-- The ways in which the transactions and the scanner end, as one lemma each.
use even_flow.Prelude.{
  ℕ, ◌<◌, ◌≡◌, inl, inr, Bool, true, false, not, ◌||◌, ◌&&◌, Option, none, some, List, [], ◌∷◌,
  ◌++◌, arith, ltb, String, ◌==◌, string_Eq, count_of, Bool-cases, Option-cases, find_first,
}
use even_flow.Ticketing.Inventory.{Error, Result, ok, err}
use even_flow.Ticketing.Ticket.{TicketStatus, Ticket, OrderIssuanceInfo, Db}
use even_flow.Ticketing.Tables.{
  TxFaults, matches, set_status, update_ticket_status, insert_tickets, consume_holds_of,
  set_order_issued, issued_payload, write_tickets, issue_tickets_tx,
}

module _ (is_uuid : String → Bool) (db : Db) where
  pub write_cases :
      (P : Db × Result Bool → Type 0) (now : ℕ) (w : Option String) (order : OrderIssuanceInfo)
      (ts : List Ticket)
      → ((e : Error) → P (db, err e))
      → ((rows : List Ticket)
          → insert_tickets db.tickets ts ≡ some rows
          → P (
            record {
              orders = set_order_issued order.order_id db.orders;
              tickets = rows;
              seat_holds = consume_holds_of order.order_id now db.seat_holds;
              outbox = db.outbox ++ issued_payload order ts now ∷ [];
            },
            ok false,
          ))
      → P (write_tickets now w order ts db)
  unfolding write_tickets
  write_cases P now (some m) order ts refused written = refused _
  write_cases P now none order ts refused written =
      elim (Option-cases (insert_tickets db.tickets ts)) [
        | inl e ↦ rw (e, write_tickets) (refused _)
        | inr (rows, e) ↦ rw (e, write_tickets) (written rows e)
      ]

  pub issue_cases :
      (P : Db × Result Bool → Type 0) (now : ℕ) (f : TxFaults) (order : OrderIssuanceInfo)
      (ts : List Ticket)
      → ((e : Error) → P (db, err e))
      → ((row : OrderIssuanceInfo)
          → find_first (λ o. o.order_id == order.order_id) db.orders ≡ some row
          → (row.status == "ISSUED") ≡ true
          → P (db, ok true))
      → ((row : OrderIssuanceInfo)
          → is_uuid order.order_id ≡ true
          → find_first (λ o. o.order_id == order.order_id) db.orders ≡ some row
          → P (write_tickets now f.write_fault order ts db))
      → P (issue_tickets_tx is_uuid now f order ts db)
  unfolding issue_tickets_tx
  issue_cases P now f order ts refused issued written =
      elim (Bool-cases (not (is_uuid order.order_id))) [
        | inl bad ↦ rw bad (refused _)
        | inr good ↦ rw good (elim (Option-cases f.begin_fault) [
          | inr (m, broken) ↦ rw broken (refused _)
          | inl begun ↦
              rw begun
                (elim (Option-cases (find_first (λ o. o.order_id == order.order_id) db.orders)) [
                  | inl absent ↦ rw absent (refused _)
                  | inr (row, found) ↦
                      rw found
                        (elim (Bool-cases (
                          row.status == "ISSUED"
                          && not f.count_fails
                          && ltb 0 (count_of (λ t. t.order_id == order.order_id) db.tickets))) [
                            | inl done ↦ rw done (elim (Option-cases f.commit_fault) [
                              | inr (m, lost) ↦ rw lost (refused _)
                              | inl kept ↦ rw kept (issued row found (ground (arith, done)))
                            ])
                            | inr todo ↦
                                rw todo
                                  (elim (Bool-cases
                                    (not (row.status == "PAID") && not (row.status == "ISSUED"))) [
                                      | inl unpaid ↦ rw unpaid (refused _)
                                      | inr paid ↦
                                          rw paid (written row (ground (arith, good)) found)
                                    ])
                          ])
                ])
        ])
      ]

  -- A change of status happens to a row that matches, or nothing changes and there is an error.
  pub update_cases :
      (P : Db × Option Error → Type 0) (fault : Option String) (check_fails : Bool) (id : String)
      (current next : TicketStatus) (at : Option ℕ)
      → ((e : Error) → P (db, some e))
      → (0 < count_of (matches id current) db.tickets
          → P (record db { tickets = set_status id current next at db.tickets }, none))
      → P (update_ticket_status is_uuid fault check_fails id current next at db)
  unfolding update_ticket_status
  update_cases P fault check_fails id current next at refused changed =
      elim (Bool-cases (not (is_uuid id))) [
        | inl bad ↦ rw bad (refused _)
        | inr good ↦ rw good (elim (Option-cases fault) [
          | inr (m, f) ↦ rw f (refused _)
          | inl f ↦ rw f (elim (Bool-cases (ltb 0 (count_of (matches id current) db.tickets))) [
            | inl some_row ↦ rw some_row (changed (ground (arith, some_row)))
            | inr no_row ↦
                rw no_row
                  (elim (Bool-cases
                    (check_fails || not (ltb 0 (count_of (λ t. t.id == id) db.tickets)))) [
                      | inl gone ↦ rw gone (refused _)
                      | inr there ↦ rw there (refused _)
                    ])
          ])
        ])
      ]
