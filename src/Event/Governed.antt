-- ===== src/Event/Governed.antt =====
-- What a use case of the event service may do to a stored event (services/event/internal/app).
use even_flow.Prelude.{ℕ, ◌≡◌, ◌≢◌, ◌⊎◌, false, none, some, List, [], ◌∷◌, nat_Eq}
use even_flow.Prelude.Text.{Text, Unicode, is_empty, trim_space}
use even_flow.Event.Aggregate.{Event, Call, step}
use even_flow.Event.Lifecycle.{◌⟶◌}
use even_flow.Event.Repository.{
  EventDb, OutboxMessage, moderation_job, event_cancelled, get_by_id, update_with_outbox,
}
use even_flow.Event.UseCases.{
  Faults, Step, UseCase, updates, submits, cancels, approves, publishes, moderator_approves,
  rejects, moderator_rejects, reload_tiers,
}

-- An error with the tables as they were, or success on an event `e`, as the repository read it, whose
-- row becomes that of `e'`, along an edge of the life cycle, while the messages are appended; `P` says
-- what relates them.
abbrev pub Governed :
    (Event → Event → List OutboxMessage → Type 0) → Faults → ℕ → EventDb → Step → Type 0
Governed P f id db s =
    ((s.0 ≡ db) × (s.1 ≢ none))
    ⊎ ((e : Event) × (e' : Event) × (msgs : List OutboxMessage) × (get_by_id f.tier_reads id db
          ≡ some e)
        × P e e' msgs
        × (e.status ⟶ e'.status)
        × (s ≡ (update_with_outbox e' msgs db, none)))

module _ (u : Unicode) (lead : ℕ) (f : Faults) (clock id : ℕ) (db : EventDb) where
  -- The call of the event's method succeeds with the new state.
  abbrev pub Does : Call → Event → Event → Type 0
  Does c e e' = step u lead clock c e ≡ (e', none)

  -- Who may make the use case, the method that it calls, and the messages that it sends.
  abbrev pub Writes : UseCase → Event → Event → List OutboxMessage → Type 0
  Writes (updates organizer_id d) e e' msgs =
      (e.organizer_id ≡ organizer_id) × Does (Call.updates_details d) e e' × (msgs ≡ [])
  Writes (submits organizer_id) e e' msgs =
      (e.organizer_id ≡ organizer_id)
      × Does Call.submits (record e { tiers = reload_tiers f id db e.tiers }) e'
      × (msgs ≡ moderation_job e' ∷ [])
  Writes (cancels organizer_id) e e' msgs =
      (e.organizer_id ≡ organizer_id) × Does Call.cancels e e' × (msgs ≡ event_cancelled e' ∷ [])
  Writes (approves now) e e' msgs = Does (Call.approves now) e e' × (msgs ≡ [])
  Writes (publishes now) e e' msgs = Does (Call.opens now) e e' × (msgs ≡ [])
  Writes (moderator_approves now) e e' msgs = Does (Call.overrides now) e e' × (msgs ≡ [])
  Writes rejects e e' msgs = Does Call.rejects e e' × (msgs ≡ [])
  Writes (moderator_rejects reason) e e' msgs =
      (is_empty (trim_space reason) ≡ false) × Does Call.rejects e e' × (msgs ≡ [])
