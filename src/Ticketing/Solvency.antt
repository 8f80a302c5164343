-- ===== src/Ticketing/Solvency.antt =====
-- No transaction of the ledger breaks the balance of its stock.
use even_flow.Prelude.{
  ℕ, zero, suc, ◌+◌, ◌-◌, ◌≤◌, ◌≡◌, refl, ap, inl, inr, Bool, false, ◌||◌, Option, none, some,
  String, string_Eq, ◌==◌, ==_iff, leb, arith, if◌then◌else◌, Bool-cases, Option-cases,
}
use even_flow.Prelude.Int.{ℤ, pos, negsuc, leb_ℤ, ltb_ℤ, ◌+ℤ◌}
use even_flow.Prelude.Map.{Map, lookup, insert}
use even_flow.Ticketing.Gate.{Cell, cell_Eq}
use even_flow.Ticketing.CreateHold.{PersistHoldParams}
use even_flow.Ticketing.Ledger.{
  InventoryRow, SeatHoldRow, Ledger, used_by, has_active, is_taken, insert_hold, refuse_item,
  decrement, persist_hold,
}
use even_flow.Ticketing.Balance.{
  amount_of, outstanding, free_of, capacity_of, IsBalanced, outstanding-insert_new, free-insert,
  capacity-insert,
}

not_taken {ℓ} : {A : Type ℓ} (p : Bool) (x : Option A) → (is_taken x || p) ≡ false → x ≡ none
not_taken p none h = refl
not_taken p (some a) h = ground (arith, h)

pub free_of_row :
    (c : Cell) (row : InventoryRow) (inv : Map Cell InventoryRow)
    → lookup c inv ≡ some row
    → free_of c inv ≡ row.available
unfolding free_of
free_of_row c row inv e = rw (e, free_of) refl

pub capacity_of_row :
    (c : Cell) (row : InventoryRow) (inv : Map Cell InventoryRow)
    → lookup c inv ≡ some row
    → capacity_of c inv ≡ row.capacity
unfolding capacity_of
capacity_of_row c row inv e = rw (e, capacity_of) refl

abbrev new_row : String → PersistHoldParams → ℕ → SeatHoldRow
new_row order_id p n = record {
  order_id = order_id;
  cell = (p.ticket_type_id, p.bucket);
  quantity = n;
  expires_at = p.expires_at;
  released = false;
  consumed = false;
}

-- What a row gains, the holds lose, or the other way round.
pub balance-insert :
    (c cell : Cell) (row : InventoryRow) (inv : Map Cell InventoryRow) (before after : ℕ) (a : ℕ)
    → lookup cell inv ≡ some row
    → free_of c inv + before ≡ capacity_of c inv
    → (if cell == c then row.available else 0) + before ≡ (if cell == c then a else 0) + after
    → free_of c (insert cell (record row { available = a }) inv) + after
      ≡ capacity_of c (insert cell (record row { available = a }) inv)
balance-insert c cell row inv before after a found balanced moved =
    let free = free-insert c cell (record row { available = a }) inv in
    let capacity = capacity-insert c cell (record row { available = a }) inv in
    elim (Bool-cases (cell == c)) [
      | inl same ↦
          let is_c = (==_iff cell c).0 same in
          let one = ap (λ x. free_of x inv) is_c in
          let two = ap (λ x. capacity_of x inv) is_c in
          ground (
            arith,
            same,
            free,
            capacity,
            one,
            two,
            free_of_row cell row inv found,
            capacity_of_row cell row inv found,
            balanced,
            moved,
          )
      | inr other ↦ ground (arith, other, free, capacity, balanced, moved)
    ]

insert_hold-IsBalanced :
    (order_id : String) (p : PersistHoldParams) (n : ℕ) (row : InventoryRow) (l : Ledger)
    → n ≤ row.available
    → lookup (p.ticket_type_id, p.bucket) l.inventory ≡ some row
    → IsBalanced l
    → IsBalanced (insert_hold order_id p n row l).0
unfolding insert_hold IsBalanced amount_of
insert_hold-IsBalanced order_id p n row l enough found h c =
    elim (Bool-cases (has_active p.event_id p.identity_id l.orders)) [
      | inl active ↦ rw (active, insert_hold) (h c)
      | inr idle ↦ elim (Bool-cases (ltb_ℤ p.unit_cents (pos 0))) [
        | inl negative ↦ rw (idle, insert_hold) (rw negative (h c))
        | inr priced ↦
            elim (Bool-cases
              (is_taken (lookup p.hold_id l.seat_holds) || is_taken (lookup order_id l.orders))) [
                | inl used ↦ rw (idle, insert_hold) (rw priced (rw used (h c)))
                | inr fresh ↦
                    rw (idle, insert_hold)
                      (rw priced (
                        rw fresh (
                          balance-insert c (p.ticket_type_id, p.bucket) row l.inventory
                            (outstanding c l.seat_holds) _ (row.available - n) found (h c)
                            (ground (
                              arith,
                              enough,
                              outstanding-insert_new c p.hold_id (new_row order_id p n) l.seat_holds
                                  (not_taken (is_taken (lookup order_id l.orders))
                                    (lookup p.hold_id l.seat_holds) fresh),
                            )))))
              ]
      ]
    ]

refuse_item-IsBalanced :
    (p : PersistHoldParams) (l : Ledger) → IsBalanced l → IsBalanced (refuse_item p l).0
unfolding refuse_item
refuse_item-IsBalanced p l h = elim (Bool-cases (has_active p.event_id p.identity_id l.orders)) [
  | inl active ↦ rw (active, refuse_item) h
  | inr idle ↦ rw (idle, refuse_item) h
]

decrement-IsBalanced :
    (order_id : String) (p : PersistHoldParams) (z : ℤ) (row : InventoryRow) (l : Ledger)
    → lookup (p.ticket_type_id, p.bucket) l.inventory ≡ some row
    → IsBalanced l
    → IsBalanced (decrement order_id p z row l).0
unfolding decrement
decrement-IsBalanced order_id p (negsuc n) row l found h =
    elim (Bool-cases (leb (row.available + suc n) row.capacity)) [
      | inl fits ↦ rw (fits, decrement) (refuse_item-IsBalanced p l h)
      | inr over ↦ rw (over, decrement) h
    ]
decrement-IsBalanced order_id p (pos zero) row l found h = refuse_item-IsBalanced p l h
decrement-IsBalanced order_id p (pos (suc n)) row l found h =
    elim (Bool-cases (leb (suc n) row.available)) [
      | inl enough ↦
          rw (enough, decrement)
            (insert_hold-IsBalanced order_id p (suc n) row l (ground (arith, enough)) found h)
      | inr short ↦ rw (short, decrement) h
    ]

pub persist_hold-IsBalanced :
    (order_id : String) (fault : Option String) (p : PersistHoldParams) (l : Ledger)
    → IsBalanced l
    → IsBalanced (persist_hold order_id fault p l).0
unfolding persist_hold
persist_hold-IsBalanced order_id (some m) p l h = h
persist_hold-IsBalanced order_id none p l h = elim (Bool-cases (leb_ℤ p.max_per_identity (pos 0))) [
  | inl unset ↦ rw (unset, persist_hold) h
  | inr given ↦
      elim (Bool-cases (
        ltb_ℤ p.max_per_identity (pos (used_by p.event_id p.identity_id l.orders) +ℤ p.quantity))) [
          | inl over ↦ rw (given, persist_hold) (rw over h)
          | inr within ↦ elim (Option-cases (lookup (p.ticket_type_id, p.bucket) l.inventory)) [
            | inl absent ↦ rw (given, persist_hold) (rw within (rw absent h))
            | inr (row, found) ↦
                rw (given, persist_hold)
                  (rw within (rw found (decrement-IsBalanced order_id p p.quantity row l found h)))
          ]
        ]
]
