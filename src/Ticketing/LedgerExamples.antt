-- ===== src/Ticketing/LedgerExamples.antt =====
-- Tests of the ledger in Postgres, and its theorems at concrete values.
use even_flow.Prelude.{◌≡◌, refl, false, none, some, List, [], ◌∷◌, String, string_Eq, arith}
use even_flow.Prelude.Int.{pos, ◌+ℤ◌}
use even_flow.Ticketing.Gate.{Cell, cell_Eq}
use even_flow.Ticketing.CreateHold.{PersistHoldParams}
use even_flow.Ticketing.Ledger.{OrderRow, Ledger, persist_hold, release_hold, consume_rows}
use even_flow.Prelude.Map.{lookup, insert}
use even_flow.Ticketing.Expiry.{release_keeps_order}
use even_flow.Ticketing.Balance.{IsBalanced, free_of, outstanding, capacity_of}
use even_flow.Ticketing.NoOversell.{
  Transaction, persist_tx, release_tx, consume_tx, commit_all, commit_all-IsBalanced,
}

abbrev stalls : Cell
stalls = ("tt1", 0)

abbrev opening : Ledger
opening = record {
  inventory = (stalls, record { capacity = 5; available = 5 }) ∷ [];
  orders = [];
  seat_holds = [];
  hold_created = [];
}

opening-IsBalanced : IsBalanced opening
unfolding IsBalanced outstanding free_of capacity_of lookup
opening-IsBalanced c = ground arith

abbrev buy : String → String → PersistHoldParams
buy hold identity = record {
  event_id = "e1";
  ticket_type_id = "tt1";
  identity_id = identity;
  hold_id = hold;
  bucket = 0;
  quantity = pos 2;
  unit_cents = pos 100;
  expires_at = 600;
  max_per_identity = pos 4;
}

-- Two buyers hold, the first one's tickets are issued, the second one's hold is released twice.
abbrev night : List Transaction
night =
    persist_tx "o1" none (buy "h1" "p1")
    ∷ persist_tx "o2" none (buy "h2" "p2")
    ∷ consume_tx "o1"
    ∷ release_tx none "h2"
    ∷ release_tx none "h2"
    ∷ []

three_left : free_of stalls (commit_all night opening).inventory ≡ 3
unfolding commit_all free_of lookup release_hold consume_rows persist_hold ◌+ℤ◌ insert
three_left = refl

commit_all-IsBalanced_example : IsBalanced (commit_all night opening)
commit_all-IsBalanced_example = commit_all-IsBalanced night opening opening-IsBalanced

-- An order that waits for its payment when its hold runs out.
abbrev late_order : OrderRow
late_order = record {
  event_id = "e1";
  identity_id = "p1";
  status = "PAYMENT_PENDING";
  quantity = 2;
  unit_cents = pos 100;
  expires_at = 600;
}

abbrev late : Ledger
late = record {
  inventory = (stalls, record { capacity = 2; available = 0 }) ∷ [];
  orders = ("o1", late_order) ∷ [];
  seat_holds =
      (
        "h1",
        record {
          order_id = "o1";
          cell = stalls;
          quantity = 2;
          expires_at = 600;
          released = false;
          consumed = false;
        },
      )
      ∷ [];
  hold_created = [];
}

late_stock_returns : free_of stalls (release_hold none "h1" late).0.inventory ≡ 2
unfolding free_of lookup release_hold insert
late_stock_returns = refl

release_keeps_order_example : lookup "o1" (release_hold none "h1" late).0.orders ≡ some late_order
unfolding lookup
release_keeps_order_example = release_keeps_order none "h1" "o1" late_order late refl refl
