-- ===== src/Event/Relay.antt =====
-- services/event/internal/worker/outbox_relay.go: one round of the relay that publishes the outbox. The
-- rows stand in the order of their ids, which the database hands out in increasing order.
use Prim.Native.String.{String}
use even_flow.Prelude.{
  ℕ, Bool, true, false, not, ◌&&◌, none, some, List, [], ◌∷◌, nat_Eq, string_Eq, ◌==◌,
  if◌then◌else◌, keep, take,
}
use even_flow.Prelude.Map.{Map, lookup}

pub record OutboxRow : Type 0 where
  pub id : ℕ
  pub aggregate_type : String
  pub routing_key : String
  pub payload : String
  pub published : Bool

-- From routing keys to exchanges.
abbrev pub Routes : Type 0
Routes = Map String String

abbrev pub default_routes : Routes
default_routes = ("moderation", "ai.direct") ∷ []

pub record OutboxRelayConfig : Type 0 where
  pub batch : ℕ
  pub aggregate_type : String

abbrev pub default_outbox_relay_config : OutboxRelayConfig
default_outbox_relay_config = record { batch = 100; aggregate_type = "event" }

-- What answers a round: whether another instance has a row locked, the broker refuses it, its mark
-- fails, and the commit fails.
pub record World : Type 0 where
  pub locked : ℕ → Bool
  pub refuses : OutboxRow → Bool
  pub mark_fails : ℕ → Bool
  pub commit_fails : Bool

-- What the broker took, the ids that were marked, and whether the round ended with an error.
pub record Delivery : Type 0 where
  pub sent : List (String × OutboxRow)
  pub marked : List ℕ
  pub failed : Bool

unfoldable pub is_due : World → OutboxRelayConfig → OutboxRow → Bool
is_due w cfg r = not r.published && r.aggregate_type == cfg.aggregate_type && not (w.locked r.id)

unfoldable pub due_rows : World → OutboxRelayConfig → List OutboxRow → List OutboxRow
due_rows w cfg rows = take cfg.batch (keep (is_due w cfg) rows)

-- The loop over the batch. A row without a route is passed over; a refusal ends the batch.
unfoldable pub deliver : World → Routes → List OutboxRow → Delivery
deliver w routes [] = record { sent = []; marked = []; failed = false }
deliver w routes (it ∷ items) =
    let rest = deliver w routes items in
    elim (lookup it.routing_key routes) [
      | none ↦ rest
      | some exchange ↦
          if w.refuses it
          then record { sent = []; marked = []; failed = false }
          else if w.mark_fails it.id
          then record { sent = (exchange, it) ∷ []; marked = []; failed = true }
          else record {
            sent = (exchange, it) ∷ rest.sent;
            marked = it.id ∷ rest.marked;
            failed = rest.failed;
          }
    ]

unfoldable pub has_id : ℕ → List ℕ → Bool
has_id i [] = false
has_id i (j ∷ js) = if i == j then true else has_id i js

unfoldable pub mark_published : List ℕ → List OutboxRow → List OutboxRow
mark_published ids [] = []
mark_published ids (r ∷ rows) =
    (if has_id r.id ids then record r { published = true } else r) ∷ mark_published ids rows

-- What is sent, and the table after the round. An error rolls every mark back.
unfoldable pub relay :
    World → Routes → OutboxRelayConfig → List OutboxRow → List (String × OutboxRow) × List OutboxRow
relay w routes cfg rows =
    let d = deliver w routes (due_rows w cfg rows) in
    (
      d.sent,
      if d.failed then rows else if w.commit_fails then rows else mark_published d.marked rows,
    )
