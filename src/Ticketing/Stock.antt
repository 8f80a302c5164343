-- ===== src/Ticketing/Stock.antt =====
-- The stock of an event in Redis, over every sequence of holds, releases and consumed holds.
use even_flow.Prelude.{
  ℕ, zero, suc, ◌+◌, ◌-◌, ◌%◌, ◌≤◌, ◌≡◌, refl, ap, subst, inl, inr, none, some, [], ◌∷◌,
  if◌then◌else◌, String, ◌==◌, ==_iff, string_Eq, leb, arith, Bool-cases, Option-cases,
}
use even_flow.Prelude.Map.{Map, lookup, insert, lookup-insert}
use even_flow.Ticketing.Gate.{
  Cell, cell_Eq, HoldEntry, Gate, remove, available_in, choose_bucket, take_stock, release, consume,
}

unfoldable pub amount_at : Cell → HoldEntry → ℕ
amount_at c h = if h.cell == c then h.qty else 0

-- The tickets of a bucket that are held.
unfoldable pub held : Cell → Map String HoldEntry → ℕ
unfolding amount_at
held c [] = 0
held c ((k, h) ∷ m) = amount_at c h + held c m

-- What the holder of a stored hold has of a bucket.
unfoldable pub held_by : Cell → String → Map String HoldEntry → ℕ
unfolding amount_at
held_by c id m = elim (lookup id m) [ none ↦ 0 | some h ↦ amount_at c h ]

pub held-remove :
    (c : Cell) (id : String) (m : Map String HoldEntry)
    → held c m ≡ held c (remove id m) + held_by c id m
unfolding held held_by remove lookup
held-remove c id [] = refl
held-remove c id ((k, h) ∷ m) = ground (arith, held-remove c id m)

pub held-insert_new :
    (c : Cell) (id : String) (h : HoldEntry) (m : Map String HoldEntry)
    → lookup id m ≡ none
    → held c (insert id h m) ≡ held c m + amount_at c h
unfolding held insert lookup
held-insert_new c id h [] e = omega arith
held-insert_new c id h ((k, g) ∷ m) e = elim (Bool-cases (k == id)) [
  | inl same ↦ ground (arith, same, e)
  | inr other ↦ rw other (omega (arith, held-insert_new c id h m (ground (arith, other, e))))
]

pub available-insert :
    (c d : Cell) (n : ℕ) (inv : Map Cell ℕ)
    → available_in c (insert d n inv) ≡ (if d == c then n else available_in c inv)
unfolding available_in
available-insert c d n inv =
    rw (lookup-insert d c n inv, available_in)
      (elim (Bool-cases (d == c)) [ inl same ↦ rw same refl | inr other ↦ rw other refl ])

here_is : (a b : ℕ) → some a ≡ some b → a ≡ b
here_is a b e = cc

-- The bucket that the scan chooses has enough.
pub choose_bucket_enough :
    (inv : Map Cell ℕ) (tt : String) (qty n start i left b : ℕ)
    → choose_bucket inv tt qty n start i left ≡ some b
    → qty ≤ available_in (tt, b) inv
unfolding choose_bucket
choose_bucket_enough inv tt qty n start i zero b e = ground (arith, e)
choose_bucket_enough inv tt qty n start i (suc left) b e =
    let here = (start + i) % n in
    elim (Bool-cases (leb qty (available_in (tt, here) inv))) [
      | inl enough ↦
          subst (λ x. qty ≤ available_in (tt, x) inv) (here_is here b (ground (arith, enough, e)))
            (ground (arith, enough))
      | inr short ↦
          choose_bucket_enough inv tt qty n start (suc i) left b (ground (arith, short, e))
    ]

-- What a bucket has available and held.
unfoldable pub stock : Cell → Gate → ℕ
unfolding held
stock c g = available_in c g.inventory + held c g.holds

pub stock-take_stock :
    (c : Cell) (expire_at : ℕ) (hold_id identity : String) (cell : Cell) (qty : ℕ) (g : Gate)
    → qty ≤ available_in cell g.inventory
    → lookup hold_id g.holds ≡ none
    → stock c (take_stock expire_at hold_id identity cell qty g) ≡ stock c g
unfolding stock take_stock
stock-take_stock c expire_at hold_id identity cell qty g enough fresh =
    let entry : HoldEntry = record {
      cell = cell;
      qty = qty;
      identity = identity;
      expire_at = expire_at;
    } in
    let left = available-insert c cell (available_in cell g.inventory - qty) g.inventory in
    let grown = held-insert_new c hold_id entry g.holds fresh in
    elim (Bool-cases (cell == c)) [
      | inl same ↦
          let one = ap (λ x. available_in x g.inventory) ((==_iff cell c).0 same) in
          ground (arith, same, left, grown, one, enough)
      | inr other ↦ ground (arith, other, left, grown)
    ]

pub stock-release : (c : Cell) (id : String) (g : Gate) → stock c (release id g).0 ≡ stock c g
unfolding stock release held_by amount_at
stock-release c id g = elim (Option-cases (lookup id g.holds)) [
  | inl e ↦ rw (e, release) refl
  | inr (h, e) ↦
      let back = available-insert c h.cell (available_in h.cell g.inventory + h.qty) g.inventory in
      let less = held-remove c id g.holds in
      elim (Bool-cases (h.cell == c)) [
        | inl same ↦
            let one = ap (λ x. available_in x g.inventory) ((==_iff h.cell c).0 same) in
            rw (e, release) (ground (arith, e, same, back, less, one))
        | inr other ↦ rw (e, release) (ground (arith, e, other, back, less))
      ]
]

pub stock-consume :
    (c : Cell) (id : String) (g : Gate) → stock c (consume id g) + held_by c id g.holds ≡ stock c g
unfolding stock consume
stock-consume c id g = omega (arith, held-remove c id g.holds)
