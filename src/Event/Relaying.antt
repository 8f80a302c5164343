-- ===== src/Event/Relaying.antt =====
-- What a round of services/event/internal/worker/outbox_relay.go publishes, and what it leaves.
use even_flow.Prelude.{
  ℕ, ◌≡◌, refl, ap, ◌⊎◌, inl, inr, Bool, true, false, none, some, String, List, [], ◌∷◌, arith,
  nat_Eq, string_Eq, if◌then◌else◌, Bool-cases, Option-cases, All,
}
use even_flow.Prelude.Map.{lookup}
use even_flow.Event.Relay.{
  OutboxRow, Routes, OutboxRelayConfig, World, due_rows, deliver, has_id, mark_published, relay,
}

abbrev pub sent_ids : List (String × OutboxRow) → List ℕ
sent_ids [] = []
sent_ids ((exchange, r) ∷ sent) = r.id ∷ sent_ids sent

-- Row for row, a table after a round: the row as it was, or marked when its id was sent.
abbrev pub MarksOnly : List ℕ → List OutboxRow → List OutboxRow → Type 0
MarksOnly ids [] [] = Unit
MarksOnly ids (r ∷ rows) (r' ∷ rows') =
    ((r' ≡ r) ⊎ ((has_id r.id ids ≡ true) × (r' ≡ record r { published = true })))
    × MarksOnly ids rows rows'
MarksOnly ids _ _ = ⊥

-- Every row was sent to the exchange of its routing key.
abbrev pub IsRouted : Routes → List (String × OutboxRow) → Type 0
IsRouted routes sent = All (λ s. lookup s.1.routing_key routes ≡ some s.0) sent

MarksOnly-refl : (ids : List ℕ) (rows : List OutboxRow) → MarksOnly ids rows rows
MarksOnly-refl ids [] = tt
MarksOnly-refl ids (r ∷ rows) = (inl refl, MarksOnly-refl ids rows)

MarksOnly-mark :
    (ids marked : List ℕ) (rows : List OutboxRow)
    → ((i : ℕ) → has_id i marked ≡ true → has_id i ids ≡ true)
    → MarksOnly ids rows (mark_published marked rows)
unfolding mark_published
MarksOnly-mark ids marked [] h = tt
MarksOnly-mark ids marked (r ∷ rows) h = (
  elim (Bool-cases (has_id r.id marked)) [
    | inl listed ↦ inr (h r.id listed, rw listed)
    | inr other ↦ inl (rw other)
  ],
  MarksOnly-mark ids marked rows h,
)

holds-if :
    (P : List OutboxRow → Type 0) (b : Bool) (on off : List OutboxRow)
    → P on
    → P off
    → P (if b then on else off)
holds-if P true on off h k = h
holds-if P false on off h k = k

mark_published-nil : (rows : List OutboxRow) → mark_published [] rows ≡ rows
unfolding mark_published has_id
mark_published-nil [] = refl
mark_published-nil (r ∷ rows) = ap (λ t. r ∷ t) (mark_published-nil rows)

module _ (w : World) (routes : Routes) where
  deliver-marked_sent :
      (items : List OutboxRow) (i : ℕ)
      → has_id i (deliver w routes items).marked ≡ true
      → has_id i (sent_ids (deliver w routes items).sent) ≡ true
  unfolding deliver has_id
  deliver-marked_sent [] i h = h
  deliver-marked_sent (it ∷ items) i h = ground (arith, deliver-marked_sent items i)

  deliver-IsRouted : (items : List OutboxRow) → IsRouted routes (deliver w routes items).sent
  unfolding deliver
  deliver-IsRouted [] = tt
  deliver-IsRouted (it ∷ items) = elim (Option-cases (lookup it.routing_key routes)) [
    | inl missing ↦ rw (missing, deliver) (deliver-IsRouted items)
    | inr (exchange, at) ↦
        rw (at, deliver)
          (elim (Bool-cases (w.refuses it)) [
            | inl refused ↦ rw refused tt
            | inr taken ↦ rw taken (elim (Bool-cases (w.mark_fails it.id)) [
              | inl unmarked ↦ rw unmarked (at, tt)
              | inr marked ↦ rw marked (at, deliver-IsRouted items)
            ])
          ])
  ]

  deliver-unrouted :
      (items : List OutboxRow)
      → All (λ r. lookup r.routing_key routes ≡ none) items
      → deliver w routes items ≡ record { sent = []; marked = []; failed = false }
  unfolding deliver
  deliver-unrouted [] h = refl
  deliver-unrouted (it ∷ items) h = rw (h.0, deliver) (deliver-unrouted items h.1)

  -- A round sends rows to the exchanges of their routing keys, and changes the table by nothing but the
  -- mark of rows whose ids it sent, whatever fails.
  pub relay_marks_sent :
      (cfg : OutboxRelayConfig) (rows : List OutboxRow)
      → let (sent, rows') = relay w routes cfg rows in
        IsRouted routes sent × MarksOnly (sent_ids sent) rows rows'
  unfolding relay
  relay_marks_sent cfg rows =
      let items = due_rows w cfg rows in
      let d = deliver w routes items in
      let only = MarksOnly (sent_ids d.sent) rows in
      (
        deliver-IsRouted items,
        holds-if only d.failed rows _ (MarksOnly-refl (sent_ids d.sent) rows) (
            holds-if only w.commit_fails rows _ (MarksOnly-refl (sent_ids d.sent) rows)
              (MarksOnly-mark (sent_ids d.sent) d.marked rows (deliver-marked_sent items))),
      )

  -- When no row of the batch has a route, the round sends nothing and leaves the table as it was, with
  -- whatever stands behind the batch.
  pub unrouted_blocks :
      (cfg : OutboxRelayConfig) (rows : List OutboxRow)
      → All (λ r. lookup r.routing_key routes ≡ none) (due_rows w cfg rows)
      → relay w routes cfg rows ≡ ([], rows)
  unfolding relay
  unrouted_blocks cfg rows h =
      rw (deliver-unrouted (due_rows w cfg rows) h) (elim (Bool-cases w.commit_fails) [
        | inl lost ↦ rw lost
        | inr kept ↦ rw kept (ap (λ t. ([], t)) (mark_published-nil rows))
      ])
