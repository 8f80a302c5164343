-- ===== src/Ticketing/Balance.antt =====
-- The stock in Postgres adds up, over every sequence of transactions.
use even_flow.Prelude.{
  ℕ, ◌+◌, ◌≡◌, refl, ap, inl, inr, none, some, [], ◌∷◌, String, string_Eq, ◌==◌, arith,
  if◌then◌else◌, Bool-cases,
}
use even_flow.Prelude.Map.{Map, lookup, insert, lookup-insert}
use even_flow.Ticketing.Gate.{Cell, cell_Eq}
use even_flow.Ticketing.Ledger.{InventoryRow, SeatHoldRow, Ledger, consume_rows}

-- What a hold has of a bucket, until it is released.
unfoldable pub amount_of : Cell → SeatHoldRow → ℕ
amount_of c h = if h.cell == c then if h.released then 0 else h.quantity else 0

unfoldable pub outstanding : Cell → Map String SeatHoldRow → ℕ
unfolding amount_of
outstanding c [] = 0
outstanding c ((k, h) ∷ m) = amount_of c h + outstanding c m

-- A bucket without a row has no tickets.
unfoldable pub free_of : Cell → Map Cell InventoryRow → ℕ
free_of c inv = elim (lookup c inv) [ none ↦ 0 | some row ↦ row.available ]

unfoldable pub capacity_of : Cell → Map Cell InventoryRow → ℕ
capacity_of c inv = elim (lookup c inv) [ none ↦ 0 | some row ↦ row.capacity ]

-- In every bucket, the tickets available and those of holds that are not released, paid or not, add up
-- to the capacity.
unfoldable pub IsBalanced : Ledger → Type 0
unfolding outstanding free_of capacity_of
IsBalanced l =
    (c : Cell) → free_of c l.inventory + outstanding c l.seat_holds ≡ capacity_of c l.inventory

pub outstanding-insert_new :
    (c : Cell) (id : String) (h : SeatHoldRow) (m : Map String SeatHoldRow)
    → lookup id m ≡ none
    → outstanding c (insert id h m) ≡ outstanding c m + amount_of c h
unfolding outstanding insert lookup
outstanding-insert_new c id h [] e = omega arith
outstanding-insert_new c id h ((k, g) ∷ m) e = elim (Bool-cases (k == id)) [
  | inl same ↦ ground (arith, same, e)
  | inr other ↦ rw other (omega (arith, outstanding-insert_new c id h m (ground (arith, other, e))))
]

row_is : (a b : SeatHoldRow) → some a ≡ some b → a ≡ b
row_is a b e = cc

pub outstanding-insert_old :
    (c : Cell) (id : String) (h g : SeatHoldRow) (m : Map String SeatHoldRow)
    → lookup id m ≡ some g
    → outstanding c (insert id h m) + amount_of c g ≡ outstanding c m + amount_of c h
unfolding outstanding insert lookup
outstanding-insert_old c id h g [] e = ground (arith, e)
outstanding-insert_old c id h g ((k, x) ∷ m) e = elim (Bool-cases (k == id)) [
  | inl same ↦
      let found = ap (amount_of c) (row_is x g (ground (arith, same, e))) in
      rw same (omega (arith, found))
  | inr other ↦
      rw other (omega (arith, outstanding-insert_old c id h g m (ground (arith, other, e))))
]

pub outstanding-consume :
    (c : Cell) (order_id : String) (m : Map String SeatHoldRow)
    → outstanding c (consume_rows order_id m) ≡ outstanding c m
unfolding outstanding amount_of consume_rows
outstanding-consume c order_id [] = refl
outstanding-consume c order_id ((k, h) ∷ m) = ground (arith, outstanding-consume c order_id m)

pub free-insert :
    (c d : Cell) (row : InventoryRow) (inv : Map Cell InventoryRow)
    → free_of c (insert d row inv) ≡ (if d == c then row.available else free_of c inv)
unfolding free_of
free-insert c d row inv =
    rw (lookup-insert d c row inv, free_of)
      (elim (Bool-cases (d == c)) [ inl same ↦ rw same refl | inr other ↦ rw other refl ])

pub capacity-insert :
    (c d : Cell) (row : InventoryRow) (inv : Map Cell InventoryRow)
    → capacity_of c (insert d row inv) ≡ (if d == c then row.capacity else capacity_of c inv)
unfolding capacity_of
capacity-insert c d row inv =
    rw (lookup-insert d c row inv, capacity_of)
      (elim (Bool-cases (d == c)) [ inl same ↦ rw same refl | inr other ↦ rw other refl ])
