-- ===== src/Ticketing/Expiry.antt =====
-- What a release does to orders.
use even_flow.Prelude.{
  ◌≡◌, sym, ap, ◌∙◌, inl, inr, false, ◌||◌, Option, none, some, String, string_Eq, ◌==◌, ==_iff,
  leb, ◌+◌, arith, Bool-cases, Option-cases,
}
use even_flow.Prelude.Map.{Map, lookup, lookup-insert_ne}
use even_flow.Ticketing.Gate.{cell_Eq}
use even_flow.Ticketing.Ledger.{
  OrderRow, SeatHoldRow, Ledger, expire_order, mark_released, restore, release_hold,
}

same_row : (a b : OrderRow) → some a ≡ some b → a ≡ b
same_row a b e = cc

expire_order_keeps :
    (id j : String) (o : OrderRow) (os : Map String OrderRow)
    → lookup j os ≡ some o
    → (o.status == "HELD") ≡ false
    → lookup j (expire_order id os) ≡ some o
unfolding expire_order
expire_order_keeps id j o os found settled = elim (Option-cases (lookup id os)) [
  | inl absent ↦ rw (absent, expire_order) found
  | inr (x, here) ↦ elim (Bool-cases (x.status == "HELD")) [
    | inr other ↦ rw (here, expire_order) (rw other found)
    | inl is_held ↦ elim (Bool-cases (id == j)) [
      | inl same ↦
          let one = (==_iff id j).0 same in
          let row = same_row x o (sym here ∙ ap (λ k. lookup k os) one ∙ found) in
          let clash = ap (λ (r : OrderRow). r.status == "HELD") row in
          ground (arith, is_held, settled, clash)
      | inr apart ↦
          rw (here, expire_order)
            (rw is_held
              (rw (lookup-insert_ne id j (record x { status = "EXPIRED" }) os apart) found))
    ]
  ]
]

restore_keeps :
    (id j : String) (h : SeatHoldRow) (o : OrderRow) (l : Ledger)
    → lookup j l.orders ≡ some o
    → (o.status == "HELD") ≡ false
    → lookup j (restore id h l).0.orders ≡ some o
unfolding restore mark_released
restore_keeps id j h o l found settled =
    let kept = expire_order_keeps h.order_id j o l.orders found settled in
    elim (Option-cases (lookup h.cell l.inventory)) [
      | inl absent ↦ rw (absent, restore) kept
      | inr (row, here) ↦ elim (Bool-cases (leb (row.available + h.quantity) row.capacity)) [
        | inl fits ↦ rw (here, restore) (rw fits kept)
        | inr over ↦ rw (here, restore) (rw over found)
      ]
    ]

-- A release changes no order that is not HELD, whether it is paid, issued or waits for its payment.
pub release_keeps_order :
    (fault : Option String) (id j : String) (o : OrderRow) (l : Ledger)
    → lookup j l.orders ≡ some o
    → (o.status == "HELD") ≡ false
    → lookup j (release_hold fault id l).0.orders ≡ some o
unfolding release_hold
release_keeps_order (some m) id j o l found settled = found
release_keeps_order none id j o l found settled = elim (Option-cases (lookup id l.seat_holds)) [
  | inl absent ↦ rw (absent, release_hold) found
  | inr (h, here) ↦ elim (Bool-cases (h.released || h.consumed)) [
    | inl done ↦ rw (here, release_hold) (rw done found)
    | inr todo ↦ rw (here, release_hold) (rw todo (restore_keeps id j h o l found settled))
  ]
]
