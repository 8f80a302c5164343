-- ===== src/Event/RelayExamples.antt =====
-- The relay of the event service at concrete outboxes.
use even_flow.Prelude.{ℕ, ◌≡◌, refl, true, false, List, [], ◌∷◌, String}
use even_flow.Prelude.Map.{lookup}
use even_flow.Event.Relay.{
  OutboxRow, OutboxRelayConfig, World, default_routes, default_outbox_relay_config, relay, due_rows,
  is_due, deliver, mark_published, has_id,
}
use even_flow.Event.Relaying.{IsRouted, MarksOnly, sent_ids, relay_marks_sent, unrouted_blocks}

abbrev outbox_row : ℕ → String → OutboxRow
outbox_row i key = record {
  id = i;
  aggregate_type = "event";
  routing_key = key;
  payload = "{}";
  published = false;
}

abbrev cancellation_first : List OutboxRow
cancellation_first = outbox_row 1 "event.cancelled" ∷ outbox_row 2 "moderation" ∷ []

abbrev calm : World
calm = record {
  locked = λ i. false;
  refuses = λ r. false;
  mark_fails = λ i. false;
  commit_fails = false;
}

abbrev one_at_a_time : OutboxRelayConfig
one_at_a_time = record { batch = 1; aggregate_type = "event" }

-- The job is sent and marked, the cancellation stays.
cancellation_stays : relay calm default_routes default_outbox_relay_config cancellation_first ≡ (
  ("ai.direct", outbox_row 2 "moderation") ∷ [],
  outbox_row 1 "event.cancelled" ∷ record (outbox_row 2 "moderation") { published = true } ∷ [],
)
unfolding relay due_rows is_due deliver mark_published has_id lookup
cancellation_stays = refl

relay_marks_sent_example :
    IsRouted default_routes
      (relay calm default_routes default_outbox_relay_config cancellation_first).0
    × MarksOnly
        (sent_ids (relay calm default_routes default_outbox_relay_config cancellation_first).0)
        cancellation_first
        (relay calm default_routes default_outbox_relay_config cancellation_first).1
relay_marks_sent_example =
    relay_marks_sent calm default_routes default_outbox_relay_config cancellation_first

-- One cancellation fills a batch of one, and the job behind it is not sent.
unrouted_blocks_example :
    relay calm default_routes one_at_a_time cancellation_first ≡ ([], cancellation_first)
unrouted_blocks_example =
    unrouted_blocks calm default_routes one_at_a_time cancellation_first
      (unfold due_rows is_due lookup in (refl, tt))
