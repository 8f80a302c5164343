-- ===== src/Ticketing/Conservation.antt =====
-- The stock of an event in Redis, over every sequence of holds, releases and consumed holds.
use even_flow.Prelude.{
  ℕ, zero, suc, ◌+◌, ◌≡◌, refl, inl, inr, none, List, [], ◌∷◌, String, string_Eq, ltb, arith,
  if◌then◌else◌, Option-cases,
}
use even_flow.Prelude.Int.{ℤ, pos, negsuc}
use even_flow.Prelude.Map.{lookup}
use even_flow.Ticketing.Gate.{
  Cell, Gate, HoldRequest, remove, live_hold, choose_bucket, hold_fresh, hold, release, consume,
}
use even_flow.Ticketing.Stock.{
  held_by, stock, choose_bucket_enough, stock-take_stock, stock-release, stock-consume,
}

stock-hold_fresh :
    (c : Cell) (now : ℕ) (req : HoldRequest) (qty : ℕ) (g : Gate)
    → lookup req.hold_id g.holds ≡ none
    → stock c (hold_fresh now req qty g).0 ≡ stock c g
unfolding hold_fresh
stock-hold_fresh c now req qty g fresh =
    let rounds = if ltb req.bucket_count 3 then req.bucket_count else 3 in
    let n = req.bucket_count in
    let tt = req.ticket_type_id in
    elim (Option-cases (choose_bucket g.inventory tt qty n req.start_bucket 0 rounds)) [
      | inl e ↦ rw (e, hold_fresh) refl
      | inr (b, e) ↦
          rw (e, hold_fresh)
            (stock-take_stock c (now + req.ttl) req.hold_id req.identity_id (tt, b) qty g
              (choose_bucket_enough g.inventory tt qty n req.start_bucket 0 rounds b e) fresh)
    ]

stock-hold_quantity :
    (c : Cell) (now : ℕ) (req : HoldRequest) (g : Gate) (z : ℤ)
    → req.quantity ≡ z
    → lookup req.hold_id g.holds ≡ none
    → stock c (hold now req g).0 ≡ stock c g
unfolding hold stock
stock-hold_quantity c now req g (negsuc n) e fresh = rw (e, hold) refl
stock-hold_quantity c now req g (pos zero) e fresh = rw (e, hold) refl
stock-hold_quantity c now req g (pos (suc n)) e fresh =
    elim (Option-cases (live_hold now req.identity_id g)) [
      | inr (prev, live) ↦ rw (e, hold) (rw (live, hold) refl)
      | inl gone ↦
          rw (e, hold)
            (rw (gone, hold)
              (stock-hold_fresh c now req (suc n)
                (record g { user_holds = remove req.identity_id g.user_holds }) fresh))
    ]

-- The calls that change the stock.
pub data Call : Type 0 where
  hold_call : ℕ → HoldRequest → Call
  release_call : String → Call
  consume_call : String → Call

unfoldable pub run : Call → Gate → Gate
run (hold_call now req) g = (hold now req g).0
run (release_call id) g = (release id g).0
run (consume_call id) g = consume id g

unfoldable pub run_all : List Call → Gate → Gate
unfolding run
run_all [] g = g
run_all (x ∷ xs) g = run_all xs (run x g)

-- How many tickets of a bucket a call takes out for good: those of a hold that is paid.
unfoldable pub sold_by : Cell → Call → Gate → ℕ
sold_by c (hold_call now req) g = 0
sold_by c (release_call id) g = 0
sold_by c (consume_call id) g = held_by c id g.holds

unfoldable pub sold : Cell → List Call → Gate → ℕ
unfolding run sold_by
sold c [] g = 0
sold c (x ∷ xs) g = sold_by c x g + sold c xs (run x g)

-- Every hold asks under an identifier that no hold in Redis has.
unfoldable pub FreshIds : List Call → Gate → Type 0
unfolding run
FreshIds [] g = Unit
FreshIds (hold_call now req ∷ xs) g =
    (lookup req.hold_id g.holds ≡ none) × FreshIds xs (run (hold_call now req) g)
FreshIds (release_call id ∷ xs) g = FreshIds xs (run (release_call id) g)
FreshIds (consume_call id ∷ xs) g = FreshIds xs (run (consume_call id) g)

-- Over every sequence of calls whose holds have new identifiers, what a bucket has available, held and
-- sold adds up to what it had available and held at the start.
pub stock_conserved :
    (c : Cell) (calls : List Call) (g : Gate)
    → FreshIds calls g
    → stock c (run_all calls g) + sold c calls g ≡ stock c g
unfolding run_all run sold sold_by FreshIds
stock_conserved c [] g h = omega arith
stock_conserved c (hold_call now req ∷ xs) g h = omega (
  arith,
  stock_conserved c xs (hold now req g).0 h.1,
  stock-hold_quantity c now req g req.quantity refl h.0,
)
stock_conserved c (release_call id ∷ xs) g h =
    omega (arith, stock_conserved c xs (release id g).0 h, stock-release c id g)
stock_conserved c (consume_call id ∷ xs) g h =
    omega (arith, stock_conserved c xs (consume id g) h, stock-consume c id g)
