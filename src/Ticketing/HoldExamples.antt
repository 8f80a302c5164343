-- ===== src/Ticketing/HoldExamples.antt =====
-- Tests of the stock in Redis and of CreateHold, and their theorems at concrete values.
use even_flow.Prelude.{◌+◌, ◌≡◌, refl, ◌⊎◌, Bool, true, none, List, [], ◌∷◌, String, string_Eq}
use even_flow.Prelude.Int.{ℤ, pos, ◌+ℤ◌}
use even_flow.Prelude.Map.{lookup, insert}
use even_flow.Ticketing.Inventory.{Error, ok, err}
use even_flow.Ticketing.Gate.{Cell, Gate, HoldRequest, hold, live_hold, available_in, remove}
use even_flow.Ticketing.Limits.{quantity_refused, identity_refused}
use even_flow.Ticketing.Stock.{held_by, stock}
use even_flow.Ticketing.Conservation.{
  Call, hold_call, release_call, consume_call, run_all, sold, FreshIds, stock_conserved,
}
use even_flow.Ticketing.CreateHold.{
  SaleConfig, Repository, CreateHoldInput, Circumstances, hold_request, execute,
}
use even_flow.Ticketing.Compensation.{SameStock}
use even_flow.Ticketing.Holding.{Allowed, execute_compensates, execute_guards}

abbrev floor : Cell
floor = ("tt1", 0)

abbrev five_left : Gate
five_left = record { inventory = (floor, 5) ∷ []; holds = []; expiries = []; user_holds = [] }

abbrev ask : String → String → HoldRequest
ask id identity = record {
  ticket_type_id = "tt1";
  identity_id = identity;
  hold_id = id;
  quantity = pos 2;
  ttl = 600;
  bucket_count = 1;
  start_bucket = 0;
}

-- Two buyers hold; one pays, the other's hold is released twice.
abbrev evening : List Call
evening =
    hold_call 10 (ask "h1" "p1")
    ∷ hold_call 11 (ask "h2" "p2")
    ∷ consume_call "h1"
    ∷ release_call "h2"
    ∷ release_call "h2"
    ∷ []

two_sold : sold floor evening five_left ≡ 2
unfolding sold held_by lookup hold live_hold available_in insert remove
two_sold = refl

stock_conserved_example :
    stock floor (run_all evening five_left) + sold floor evening five_left ≡ stock floor five_left
unfolding FreshIds lookup hold live_hold available_in insert
stock_conserved_example = stock_conserved floor evening five_left (refl, (refl, tt))

-- A database that has the event on sale and refuses every hold.
abbrev refusing : Repository Bool
refusing = record {
  get_sale_config = λ event tt r. ok (record {
    price_cents = pos 100;
    bucket_count = 1;
    hold_ttl_seconds = 600;
    max_per_order = pos 4;
    max_per_identity = pos 4;
  });
  count_purchased = λ event identity r. ok (pos 1);
  get_active_hold = λ event identity r. err Error.order_not_found;
  persist_hold = λ p r. (r, err Error.inventory_exhausted);
}

abbrev one_run : Circumstances
one_run = record {
  is_admitted = ok true;
  hold_fault = none;
  release_fault = none;
  hold_id = "h1";
  start_bucket = 0;
  now_ms = 10;
  now = 10;
}

abbrev two_tickets : CreateHoldInput
two_tickets = record {
  event_id = "e1";
  ticket_type_id = "tt1";
  identity_id = "p1";
  quantity = pos 2;
}

execute_compensates_example :
    SameStock five_left (execute refusing one_run two_tickets five_left true).0.0
unfolding execute lookup quantity_refused identity_refused ◌+ℤ◌ hold hold_request live_hold
    available_in
execute_compensates_example =
    execute_compensates refusing one_run two_tickets five_left true Error.sold_out (λ m e. cc)
      (λ m e. cc) refl refl

execute_guards_example :
    ((execute refusing one_run two_tickets five_left true).0 ≡ (five_left, true))
    ⊎ ((ev : SaleConfig) × ((bought : ℤ) × Allowed refusing one_run two_tickets five_left true ev
            bought))
execute_guards_example = execute_guards refusing one_run two_tickets five_left true
