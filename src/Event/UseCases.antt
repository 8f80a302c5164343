-- ===== src/Event/UseCases.antt =====
-- services/event/internal/app: the use cases that change events, on the tables of event_repo.go. What
-- fails in the database, the clock and new identifiers are arguments; the review and audit tables,
-- which nothing here reads, are left out.
use even_flow.Prelude.{ℕ, Bool, not, Option, none, some, List, [], ◌∷◌, nat_Eq, ◌==◌, if◌then◌else◌}
use even_flow.Prelude.Text.{Text, Unicode, is_empty, trim_space}
use even_flow.Event.Tier.{TicketTier, Error, ok, err}
use even_flow.Event.Aggregate.{
  Event, Details, new_event, update_details, submit_for_review, approve, approve_override, reject,
  open_sale, cancel,
}
use even_flow.Event.Repository.{
  EventDb, OutboxMessage, moderation_job, event_cancelled, create_event, get_by_id,
  get_tiers_by_event_id, update_with_outbox,
}

pub data AppError : Type 0 where
  domain : Error → AppError
  event_not_found unauthorized_organizer reject_reason_required : AppError
  database : AppError

-- Which calls of the database fail in an execution: the read of the event, the read of its tiers
-- with it, SubmitForReview's second read of them, and the write.
pub record Faults : Type 0 where
  pub reads : Bool
  pub tier_reads : Bool
  pub reloads : Bool
  pub writes : Bool

abbrev pub Step : Type 0
Step = EventDb × Option AppError

-- `GetByID`
unfoldable pub load : Faults → ℕ → (Event → Step) → EventDb → Step
load f id rest db =
    if f.reads
    then (db, some database)
    else elim (get_by_id f.tier_reads id db) [ none ↦ (db, some event_not_found) | some e ↦ rest e ]

-- The organizer's guard.
unfoldable pub owned_by : ℕ → Event → Step → EventDb → Step
owned_by organizer_id e rest db =
    if not (e.organizer_id == organizer_id) then (db, some unauthorized_organizer) else rest

-- `Update` or `UpdateWithOutbox` after a method of the event.
unfoldable pub store : Faults → List OutboxMessage → Event × Option Error → EventDb → Step
store f msgs (e, some x) db = (db, some (domain x))
store f msgs (e, none) db =
    if f.writes then (db, some database) else (update_with_outbox e msgs db, none)

-- SubmitForReview reads the tiers again when the event has none, and drops the error.
unfoldable pub reload_tiers : Faults → ℕ → EventDb → List TicketTier → List TicketTier
reload_tiers f id db [] = if f.reloads then [] else get_tiers_by_event_id id db
reload_tiers f id db (t ∷ ts) = t ∷ ts

-- A use case on an event that is stored, with the organizer, times and input that it is given.
pub data UseCase : Type 0 where
  updates : ℕ → Details → UseCase
  submits cancels : ℕ → UseCase
  approves publishes moderator_approves : ℕ → UseCase
  rejects : UseCase
  moderator_rejects : Text → UseCase

module _ (u : Unicode) (lead : ℕ) (f : Faults) where
  -- create_event.go
  unfoldable pub create : ℕ → ℕ → ℕ → Text → Details → EventDb → Step
  create new_id clock organizer_id slug d db = elim (new_event u new_id clock organizer_id slug d) [
    | err x ↦ (db, some (domain x))
    | ok e ↦ if f.writes then (db, some database) else (create_event e db, none)
  ]

  -- update_event.go
  unfoldable pub update : ℕ → ℕ → ℕ → Details → EventDb → Step
  update clock organizer_id id d db =
      load f id (λ e. owned_by organizer_id e (store f [] (update_details clock d e) db) db) db

  -- transition_state.go, SubmitForReview
  unfoldable pub submit : ℕ → ℕ → ℕ → EventDb → Step
  submit clock organizer_id id db =
      load f id
        (λ e.
          let r = submit_for_review clock (record e { tiers = reload_tiers f id db e.tiers }) in
          owned_by organizer_id e (store f (moderation_job r.0 ∷ []) r db) db)
        db

  -- transition_state.go, Approve
  unfoldable pub approve_event : ℕ → ℕ → ℕ → EventDb → Step
  approve_event clock now id db = load f id (λ e. store f [] (approve lead clock now e) db) db

  -- transition_state.go, Reject
  unfoldable pub reject_event : ℕ → ℕ → EventDb → Step
  reject_event clock id db = load f id (λ e. store f [] (reject clock e) db) db

  -- transition_state.go, Publish
  unfoldable pub publish : ℕ → ℕ → ℕ → EventDb → Step
  publish clock now id db = load f id (λ e. store f [] (open_sale clock now e) db) db

  -- transition_state.go, Cancel
  unfoldable pub cancel_event : ℕ → ℕ → ℕ → EventDb → Step
  cancel_event clock organizer_id id db =
      load f id
        (λ e.
          let r = cancel clock e in
          owned_by organizer_id e (store f (event_cancelled r.0 ∷ []) r db) db)
        db

  -- moderation_action.go
  unfoldable pub moderator_approve : ℕ → ℕ → ℕ → EventDb → Step
  moderator_approve clock now id db =
      load f id (λ e. store f [] (approve_override lead clock now e) db) db

  unfoldable pub moderator_reject : ℕ → Text → ℕ → EventDb → Step
  moderator_reject clock reason id db =
      if is_empty (trim_space reason)
      then (db, some reject_reason_required)
      else reject_event clock id db

  unfoldable pub execute : ℕ → UseCase → ℕ → EventDb → Step
  execute clock (updates organizer_id d) id db = update clock organizer_id id d db
  execute clock (submits organizer_id) id db = submit clock organizer_id id db
  execute clock (cancels organizer_id) id db = cancel_event clock organizer_id id db
  execute clock (approves now) id db = approve_event clock now id db
  execute clock (publishes now) id db = publish clock now id db
  execute clock (moderator_approves now) id db = moderator_approve clock now id db
  execute clock rejects id db = reject_event clock id db
  execute clock (moderator_rejects reason) id db = moderator_reject clock reason id db
