-- ===== src/WaitingRoom/Supervisor.antt =====
-- services/waitingroom/internal/app/event_supervisor.go: one running controller for every listed event.
-- A controller that runs is the number of its start; `is_done` says which ones have ended by
-- themselves, and `cancelled` collects those that the supervisor stops.
use even_flow.Prelude.{
  ℕ, suc, ◌≡◌, Bool, true, false, not, ◌||◌, Option, none, some, String, List, [], ◌∷◌, ◌==◌,
  string_Eq, if◌then◌else◌,
}
use even_flow.Prelude.Map.{Map, lookup, insert}

pub record Supervisor : Type 0 where
  pub running : Map String ℕ
  pub next_start : ℕ
  pub cancelled : List ℕ

unfoldable pub new_event_supervisor : Supervisor
new_event_supervisor = record { running = []; next_start = 0; cancelled = [] }

-- `want[id]`
unfoldable pub is_listed : String → List String → Bool
is_listed id [] = false
is_listed id (x ∷ xs) = x == id || is_listed id xs

-- `for id, r := range s.running { if test { delete(s.running, id) } }`
unfoldable pub delete_if : (String → ℕ → Bool) → Map String ℕ → Map String ℕ
delete_if test [] = []
delete_if test ((id, r) ∷ m) =
    let rest = delete_if test m in if test id r then rest else (id, r) ∷ rest

-- The controllers of the events that left the list, in the order of the loop.
unfoldable pub stopped : List String → Map String ℕ → List ℕ
stopped ids [] = []
stopped ids ((id, r) ∷ m) = let rest = stopped ids m in if is_listed id ids then rest else r ∷ rest

-- The loop that starts what is listed and does not run, unless the context is done.
unfoldable pub start_missing : Bool → List String → Supervisor → Supervisor
start_missing ctx_done [] s = s
start_missing ctx_done (id ∷ ids) s = elim (lookup id s.running) [
  | some r ↦ start_missing ctx_done ids s
  | none ↦ start_missing ctx_done ids (
      if ctx_done
      then s
      else record s { running = insert id s.next_start s.running; next_start = suc s.next_start })
]

-- A list that cannot be read (`none`) changes nothing.
unfoldable pub sync : (ℕ → Bool) → Bool → Option (List String) → Supervisor → Supervisor
sync is_done ctx_done none s = s
sync is_done ctx_done (some ids) s =
    let alive = delete_if (λ id r. is_done r) s.running in
    start_missing ctx_done ids (record s {
      running = delete_if (λ id r. not (is_listed id ids)) alive;
      cancelled = stopped ids alive;
    })

-- `stopAll`: every controller is cancelled.
unfoldable pub stop_all : Supervisor → Supervisor
stop_all s = record s { running = []; cancelled = stopped [] s.running }

abbrev pub runs : String → Map String ℕ → Bool
runs id m = elim (lookup id m) [ none ↦ false | some r ↦ true ]

-- `Running()`: the event has a controller that has not ended.
abbrev pub is_active : (ℕ → Bool) → String → Map String ℕ → Bool
is_active is_done id m = elim (lookup id m) [ none ↦ false | some r ↦ not (is_done r) ]

-- What is found under this name has not ended.
abbrev AllGoing : (ℕ → Bool) → String → Map String ℕ → Type 0
AllGoing is_done id m = (r : ℕ) → lookup id m ≡ some r → is_done r ≡ false
