-- ===== src/Ticketing/Gate.antt =====
-- services/ticketing/internal/adapter/redis/gate.go with the scripts hold.lua and release.lua that it
-- runs: the stock of one event in Redis. Each call is one atomic step. A hold is stored as a text that
-- release.lua takes apart; identifiers are not empty and have no quotation mark, so that it gets back
-- what hold.lua wrote, and the stored hold is a record here.
use even_flow.Prelude.{
  ℕ, zero, suc, ◌+◌, ◌-◌, ◌%◌, ◌≡◌, refl, Bool, true, false, ◌&&◌, Option, none, some, [], ◌∷◌,
  if◌then◌else◌, String, Eq, ◌==◌, ==_iff, ==_refl, string_Eq, nat_Eq, ltb, leb, arith,
}
use even_flow.Prelude.Int.{ℤ, pos, negsuc}
use even_flow.Prelude.Map.{Map, lookup, insert}

-- A ticket type and a bucket.
abbrev pub Cell : Type 0
Cell = String × ℕ

abbrev pub same_cell : Cell → Cell → Bool
same_cell (a, n) (b, k) = (a == b) && (n == k)

pub same_cell_sound : (c d : Cell) → same_cell c d ≡ true → c ≡ d
same_cell_sound (a, n) (b, k) h =
    rw ((==_iff a b).0 (ground (arith, h)), (==_iff n k).0 (ground (arith, h))) refl

instance abbrev pub cell_Eq : Eq Cell
cell_Eq = record {
  same = same_cell;
  same_refl = λ (a, n). rw (==_refl a) (==_refl n);
  same_sound = same_cell_sound;
}

pub record HoldEntry : Type 0 where
  pub cell : Cell
  pub qty : ℕ
  pub identity : String
  pub expire_at : ℕ

-- `inv:{ev}:tt:<id>`, `hold:{ev}:h`, `hold:{ev}:z` and `uhold:{ev}`.
pub record Gate : Type 0 where
  pub inventory : Map Cell ℕ
  pub holds : Map String HoldEntry
  pub expiries : Map String ℕ
  pub user_holds : Map String String

-- HDEL and ZREM
unfoldable pub remove {ℓ} : {V : Type ℓ} → String → Map String V → Map String V
remove k [] = []
remove k ((j, v) ∷ m) = let rest = remove k m in if j == k then m else (j, v) ∷ rest

-- `tonumber(redis.call('HGET', ...) or '0')`
unfoldable pub available_in : Cell → Map Cell ℕ → ℕ
available_in c inv = elim (lookup c inv) [ none ↦ 0 | some n ↦ n ]

pub data HoldReply : Type 0 where
  hold_ok : String → ℕ → ℕ → HoldReply
  already_holding : String → HoldReply
  sold_out bad_qty : HoldReply

-- The holder's previous hold, if it has not expired.
unfoldable pub live_hold : ℕ → String → Gate → Option String
live_hold now identity g = elim (lookup identity g.user_holds) [
  | none ↦ none
  | some prev ↦ elim (lookup prev g.expiries) [
    | none ↦ none
    | some exp ↦ if ltb now exp then some prev else none
  ]
]

-- The scan of at most three buckets in a circle: `left` rounds from round `i`.
unfoldable pub choose_bucket : Map Cell ℕ → String → ℕ → ℕ → ℕ → ℕ → ℕ → Option ℕ
choose_bucket inv tt qty nbuckets start i zero = none
choose_bucket inv tt qty nbuckets start i (suc left) =
    let rest = choose_bucket inv tt qty nbuckets start (suc i) left in
    let b = (start + i) % nbuckets in if leb qty (available_in (tt, b) inv) then some b else rest

-- The writes of a hold that found a bucket.
unfoldable pub take_stock : ℕ → String → String → Cell → ℕ → Gate → Gate
take_stock expire_at hold_id identity cell qty g = record {
  inventory = insert cell (available_in cell g.inventory - qty) g.inventory;
  holds =
      insert hold_id (record { cell = cell; qty = qty; identity = identity; expire_at = expire_at })
        g.holds;
  expiries = insert hold_id expire_at g.expiries;
  user_holds = insert identity hold_id g.user_holds;
}

pub record HoldRequest : Type 0 where
  pub ticket_type_id : String
  pub identity_id : String
  pub hold_id : String
  pub quantity : ℤ
  pub ttl : ℕ
  pub bucket_count : ℕ
  pub start_bucket : ℕ

-- The part of hold.lua after the test of the quantity and of the previous hold.
unfoldable pub hold_fresh : ℕ → HoldRequest → ℕ → Gate → Gate × HoldReply
unfolding choose_bucket take_stock
hold_fresh now req qty g =
    let rounds = if ltb req.bucket_count 3 then req.bucket_count else 3 in
    elim (choose_bucket g.inventory req.ticket_type_id qty req.bucket_count req.start_bucket 0
      rounds) [
        | none ↦ (g, sold_out)
        | some b ↦ (
          take_stock (now + req.ttl) req.hold_id req.identity_id (req.ticket_type_id, b) qty g,
          hold_ok req.hold_id b (now + req.ttl),
        )
      ]

-- Gate.Hold
unfoldable pub hold : ℕ → HoldRequest → Gate → Gate × HoldReply
unfolding hold_fresh
hold now req g = elim req.quantity [
  | negsuc q ↦ (g, bad_qty)
  | pos q ↦ elim q [
    | zero ↦ (g, bad_qty)
    | suc n ↦ elim (live_hold now req.identity_id g) [
      | some prev ↦ (g, already_holding prev)
      | none ↦
          hold_fresh now req (suc n) (record g { user_holds = remove req.identity_id g.user_holds })
    ]
  ]
]

-- `if redis.call('HGET', KEYS[3], identity) == hold_id then HDEL`
abbrev points_to : String → Option String → Bool
points_to hold_id none = false
points_to hold_id (some id) = id == hold_id

-- Gate.Release, and whether it gave stock back.
unfoldable pub release : String → Gate → Gate × Bool
unfolding remove
release hold_id g = elim (lookup hold_id g.holds) [
  | none ↦ (g, false)
  | some h ↦ (
    record {
      inventory = insert h.cell (available_in h.cell g.inventory + h.qty) g.inventory;
      holds = remove hold_id g.holds;
      expiries = remove hold_id g.expiries;
      user_holds =
          if points_to hold_id (lookup h.identity g.user_holds)
          then remove h.identity g.user_holds
          else g.user_holds;
    },
    true,
  )
]

-- Gate.Consume
unfoldable pub consume : String → Gate → Gate
unfolding remove
consume hold_id g = record g {
  holds = remove hold_id g.holds;
  expiries = remove hold_id g.expiries;
}
