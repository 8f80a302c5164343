-- ===== src/Ticketing/NoOversell.antt =====
-- Releases and histories of the ledger: in every bucket of Postgres what is
-- available and what unreleased holds take make up its capacity.
use even_flow.Prelude.{
  ℕ, ◌+◌, ◌≡◌, refl, ap, inl, inr, Bool, true, false, ◌||◌, Option, none, some, List, [], ◌∷◌,
  String, string_Eq, ◌==◌, ==_iff, ==_refl, leb, arith, if◌then◌else◌, Bool-cases, Option-cases,
}
use even_flow.Prelude.Map.{Map, lookup, insert}
use even_flow.Ticketing.Inventory.{ok}
use even_flow.Ticketing.Gate.{Cell, cell_Eq}
use even_flow.Ticketing.CreateHold.{PersistHoldParams}
use even_flow.Ticketing.Ledger.{
  InventoryRow, SeatHoldRow, Ledger, persist_hold, mark_released, restore, release_hold,
  consume_rows,
}
use even_flow.Ticketing.Balance.{
  amount_of, outstanding, free_of, capacity_of, IsBalanced, outstanding-insert_old,
  outstanding-consume,
}
use even_flow.Ticketing.Solvency.{
  balance-insert, persist_hold-IsBalanced, free_of_row, capacity_of_row,
}

-- Marking an open hold as released takes its tickets from those outstanding.
outstanding-release :
    (c : Cell) (id : String) (h : SeatHoldRow) (m : Map String SeatHoldRow)
    → lookup id m ≡ some h
    → h.released ≡ false
    → outstanding c (insert id (record h { released = true }) m)
        + (if h.cell == c then h.quantity else 0)
      ≡ outstanding c m
unfolding amount_of
outstanding-release c id h m found unreleased =
    ground (arith, outstanding-insert_old c id (record h { released = true }) h m found, unreleased)

free_absent : (c : Cell) (inv : Map Cell InventoryRow) → lookup c inv ≡ none → free_of c inv ≡ 0
unfolding free_of
free_absent c inv e = rw (e, free_of) refl

capacity_absent :
    (c : Cell) (inv : Map Cell InventoryRow) → lookup c inv ≡ none → capacity_of c inv ≡ 0
unfolding capacity_of
capacity_absent c inv e = rw (e, capacity_of) refl

-- A bucket without a row has no open holds to release.
balance_absent :
    (c cell : Cell) (inv : Map Cell InventoryRow) (before after n : ℕ)
    → lookup cell inv ≡ none
    → free_of c inv + before ≡ capacity_of c inv
    → after + (if cell == c then n else 0) ≡ before
    → free_of c inv + after ≡ capacity_of c inv
balance_absent c cell inv before after n absent balanced fewer = elim (Bool-cases (cell == c)) [
  | inl same ↦
      let one = ap (λ x. free_of x inv) ((==_iff cell c).0 same) in
      let two = ap (λ x. capacity_of x inv) ((==_iff cell c).0 same) in
      ground (
        arith,
        same,
        one,
        two,
        free_absent cell inv absent,
        capacity_absent cell inv absent,
        balanced,
        fewer,
      )
  | inr other ↦ ground (arith, other, balanced, fewer)
]

restore-IsBalanced :
    (id : String) (h : SeatHoldRow) (l : Ledger)
    → lookup id l.seat_holds ≡ some h
    → h.released ≡ false
    → IsBalanced l
    → IsBalanced (restore id h l).0
unfolding restore IsBalanced mark_released
restore-IsBalanced id h l found unreleased balanced c =
    let fewer = outstanding-release c id h l.seat_holds found unreleased in
    elim (Option-cases (lookup h.cell l.inventory)) [
      | inl absent ↦
          rw (absent, restore)
            (balance_absent c h.cell l.inventory (outstanding c l.seat_holds) _ h.quantity absent
              (balanced c) fewer)
      | inr (row, here) ↦ elim (Bool-cases (leb (row.available + h.quantity) row.capacity)) [
        | inr over ↦ rw (here, restore) (rw over (balanced c))
        | inl fits ↦
            rw (here, restore)
              (rw fits (
                balance-insert c h.cell row l.inventory (outstanding c l.seat_holds) _
                  (row.available + h.quantity) here (balanced c) (ground (arith, fewer))))
      ]
    ]

release_hold-IsBalanced :
    (fault : Option String) (id : String) (l : Ledger)
    → IsBalanced l
    → IsBalanced (release_hold fault id l).0
unfolding release_hold
release_hold-IsBalanced (some m) id l balanced = balanced
release_hold-IsBalanced none id l balanced = elim (Option-cases (lookup id l.seat_holds)) [
  | inl absent ↦ rw (absent, release_hold) balanced
  | inr (h, found) ↦ elim (Bool-cases (h.released || h.consumed)) [
    | inl done ↦ rw (found, release_hold) (rw done balanced)
    | inr todo ↦
        rw (found, release_hold)
          (rw todo (restore-IsBalanced id h l found (ground (arith, todo)) balanced))
  ]
]

-- The transactions on the stock: a new hold, a release, and the tickets of a paid order.
pub data Transaction : Type 0 where
  persist_tx : String → Option String → PersistHoldParams → Transaction
  release_tx : Option String → String → Transaction
  consume_tx : String → Transaction

unfoldable pub commit : Transaction → Ledger → Ledger
commit (persist_tx order_id fault p) l = (persist_hold order_id fault p l).0
commit (release_tx fault id) l = (release_hold fault id l).0
commit (consume_tx order_id) l = record l { seat_holds = consume_rows order_id l.seat_holds }

unfoldable pub commit_all : List Transaction → Ledger → Ledger
unfolding commit
commit_all [] l = l
commit_all (t ∷ ts) l = commit_all ts (commit t l)

consume-IsBalanced :
    (order_id : String) (l : Ledger)
    → IsBalanced l
    → IsBalanced (record l { seat_holds = consume_rows order_id l.seat_holds })
unfolding IsBalanced
consume-IsBalanced order_id l balanced c =
    omega (arith, balanced c, outstanding-consume c order_id l.seat_holds)

-- Every sequence of transactions, whichever fail, keeps the stock balanced: in every bucket the
-- tickets available and those of holds that are not released add up to the capacity.
pub commit_all-IsBalanced :
    (ts : List Transaction) (l : Ledger) → IsBalanced l → IsBalanced (commit_all ts l)
unfolding commit_all commit
commit_all-IsBalanced [] l balanced = balanced
commit_all-IsBalanced (persist_tx order_id fault p ∷ ts) l balanced =
    commit_all-IsBalanced ts _ (persist_hold-IsBalanced order_id fault p l balanced)
commit_all-IsBalanced (release_tx fault id ∷ ts) l balanced =
    commit_all-IsBalanced ts _ (release_hold-IsBalanced fault id l balanced)
commit_all-IsBalanced (consume_tx order_id ∷ ts) l balanced =
    commit_all-IsBalanced ts _ (consume-IsBalanced order_id l balanced)

restore_accepted :
    (id : String) (h : SeatHoldRow) (l : Ledger)
    → lookup id l.seat_holds ≡ some h
    → h.released ≡ false
    → IsBalanced l
    → (restore id h l).1 ≡ ok true
unfolding restore IsBalanced
restore_accepted id h l found unreleased balanced =
    let fewer = outstanding-release h.cell id h l.seat_holds found unreleased in
    elim (Option-cases (lookup h.cell l.inventory)) [
      | inl absent ↦ rw (absent, restore) refl
      | inr (row, here) ↦
          let fits : leb (row.available + h.quantity) row.capacity ≡ true = ground (
            arith,
            fewer,
            ==_refl h.cell,
            balanced h.cell,
            free_of_row h.cell row l.inventory here,
            capacity_of_row h.cell row l.inventory here,
          ) in
          rw (here, restore) (rw fits refl)
    ]

-- In a balanced ledger the restoring UPDATE of a release never breaks the check against giving back
-- too much: when the database does not fail, a release has no error.
release_never_refused :
    (id : String) (l : Ledger)
    → IsBalanced l
    → (released : Bool) × ((release_hold none id l).1 ≡ ok released)
unfolding release_hold
release_never_refused id l balanced = elim (Option-cases (lookup id l.seat_holds)) [
  | inl absent ↦ (false, rw (absent, release_hold) refl)
  | inr (h, found) ↦ elim (Bool-cases (h.released || h.consumed)) [
    | inl done ↦ (false, rw (found, release_hold) (rw done refl))
    | inr todo ↦ (
      true,
      rw (found, release_hold)
          (rw todo (restore_accepted id h l found (ground (arith, todo)) balanced)),
    )
  ]
]
