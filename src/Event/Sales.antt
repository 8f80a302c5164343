-- ===== src/Event/Sales.antt =====
-- The sale rules of an event (services/event/internal/domain/event.go): BR-E2, the lead time between
-- approval and the sale, and BR-E3, no smaller quota once tickets are on sale.
use even_flow.Prelude.{
  ℕ, ◌+◌, ◌≤◌, ◌<◌, ◌≡◌, ◌↔◌, ◌⊎◌, inl, inr, Bool, true, false, ◌&&◌, ◌||◌, Option, none, some,
  List, [], ◌∷◌, arith, nat_eq, Bool-cases, Option-cases, if◌then◌else◌,
}
use even_flow.Prelude.Int.{ℤ, pos, leb_ℤ, ltb_ℤ, ◌≤ℤ◌}
use even_flow.Prelude.Text.{Text, is_empty, trim_space, Unicode}
use even_flow.Event.Tier.{TicketTier, Error, err, invalid_event_dates, cannot_reduce_quota_on_sale}
use even_flow.Event.Aggregate.{
  EventStatus, draft, pending_review, scheduled, on_sale, sold_out, closed, completed, rejected,
  Event, Details, Call, updates_details, adds_tier, updates_tier_quota, submits, approves,
  overrides, opens, rejects, sells_out, closes, completes, cancels, step, run, new_event,
  update_details, add_tier, update_tier_quota, submit_for_review, approve, approve_override, reject,
  open_sale, mark_sold_out, close_sale, complete, cancel, find_quota, set_quota, is_editable,
}

abbrev is_past_review : EventStatus → Bool
is_past_review scheduled = true
is_past_review on_sale = true
is_past_review sold_out = true
is_past_review closed = true
is_past_review completed = true
is_past_review _ = false

abbrev pub is_approval : Call → Bool
is_approval (approves now) = true
is_approval (overrides now) = true
is_approval _ = false

abbrev pub succeeded : Option Error → Bool
succeeded none = true
succeeded (some x) = false

find_quota-set_quota :
    (i j : ℕ) (q : ℤ) (ts : List TicketTier) {a b : ℤ}
    → find_quota i ts ≡ some a
    → find_quota j ts ≡ some b
    → find_quota j (set_quota i q ts) ≡ some (if nat_eq i j then q else b)
unfolding find_quota set_quota
find_quota-set_quota i j q [] h k = cc
find_quota-set_quota i j q (t ∷ ts) {a} {b} h k =
    ground (arith, find_quota-set_quota i j q ts {a = a} {b = b})

find_quota_of_set :
    (i : ℕ) (q : ℤ) (ts : List TicketTier) {a : ℤ}
    → find_quota i ts ≡ some a
    → find_quota i (set_quota i q ts) ≡ some q
find_quota_of_set i q ts h = ground (arith, find_quota-set_quota i i q ts h h)

module _ (u : Unicode) (lead : ℕ) where
  -- Whether a history of an event holds an approval, by the review or by a moderator, that succeeded.
  abbrev pub has_approval : List (ℕ × Call) → Event → Bool
  has_approval [] e = false
  has_approval ((clock, c) ∷ cs) e =
      is_approval c && succeeded (step u lead clock c e).1
      || has_approval cs (step u lead clock c e).0

  step_no_approval :
      (clock : ℕ) (c : Call) (e : Event)
      → (is_approval c && succeeded (step u lead clock c e).1) ≡ false
      → is_past_review e.status ≡ false
      → is_past_review (step u lead clock c e).0.status ≡ false
  unfolding step update_details add_tier update_tier_quota submit_for_review approve
      approve_override reject open_sale mark_sold_out close_sale complete cancel
  step_no_approval clock (updates_details d) e a h = ground arith
  step_no_approval clock (adds_tier t) e a h = ground arith
  step_no_approval clock (updates_tier_quota i q) e a h = ground arith
  step_no_approval clock submits e a h = ground arith
  step_no_approval clock (approves now) e a h = ground arith
  step_no_approval clock (overrides now) e a h = ground arith
  step_no_approval clock (opens now) e a h = ground arith
  step_no_approval clock rejects e a h = ground arith
  step_no_approval clock sells_out e a h = ground arith
  step_no_approval clock closes e a h = ground arith
  step_no_approval clock completes e a h = ground arith
  step_no_approval clock cancels e a h = ground arith

  no_approval :
      (cs : List (ℕ × Call)) (e : Event)
      → has_approval cs e ≡ false
      → is_past_review e.status ≡ false
      → is_past_review (run u lead cs e).status ≡ false
  unfolding run
  no_approval [] e a h = h
  no_approval ((clock, c) ∷ cs) e a h =
      no_approval cs (step u lead clock c e).0 (ground (arith, a))
        (step_no_approval clock c e (ground (arith, a)) h)

  -- A draft that after some history is on sale was approved in it, by a call that succeeded.
  pub on_sale_needs_approval :
      (cs : List (ℕ × Call)) (e : Event)
      → e.status ≡ draft
      → (run u lead cs e).status ≡ on_sale
      → has_approval cs e ≡ true
  on_sale_needs_approval cs e d s = elim (Bool-cases (has_approval cs e)) [
    | inl yes_it_has ↦ yes_it_has
    | inr none_has ↦ ground (arith, no_approval cs e none_has (ground arith))
  ]

  update_tier_quota_mono :
      (clock i j : ℕ) (q : ℤ) (e : Event) {b : ℤ}
      → e.status ≡ on_sale
      → find_quota j e.tiers ≡ some b
      → (b' : ℤ) × (find_quota j (update_tier_quota clock i q e).0.tiers ≡ some b') × (b ≤ℤ b')
  unfolding update_tier_quota
  update_tier_quota_mono clock i j q e {b} s h = elim (Option-cases (find_quota i e.tiers)) [
    | inl missing ↦ (b, ground arith, omega arith)
    | inr (a, found) ↦ elim (Bool-cases (leb_ℤ q (pos 0) || ltb_ℤ q a)) [
      | inl refused ↦ (b, ground arith, omega arith)
      | inr allowed ↦ (
        if nat_eq i j then q else b,
        ground (arith, find_quota-set_quota i j q e.tiers found h),
        ground arith,
      )
    ]
  ]

  -- On sale, a call changes no tier's quota but to raise it, and loses no tier.
  pub on_sale_quota_mono :
      (clock : ℕ) (c : Call) (e : Event) (j : ℕ) {b : ℤ}
      → e.status ≡ on_sale
      → find_quota j e.tiers ≡ some b
      → (b' : ℤ) × (find_quota j (step u lead clock c e).0.tiers ≡ some b') × (b ≤ℤ b')
  unfolding step update_details add_tier update_tier_quota submit_for_review approve
      approve_override reject open_sale mark_sold_out close_sale complete cancel
  on_sale_quota_mono clock (updates_details d) e j {b} s h = (b, ground arith, omega arith)
  on_sale_quota_mono clock (adds_tier t) e j {b} s h = (b, ground arith, omega arith)
  on_sale_quota_mono clock (updates_tier_quota i q) e j s h =
      update_tier_quota_mono clock i j q e s h
  on_sale_quota_mono clock submits e j {b} s h = (b, ground arith, omega arith)
  on_sale_quota_mono clock (approves now) e j {b} s h = (b, ground arith, omega arith)
  on_sale_quota_mono clock (overrides now) e j {b} s h = (b, ground arith, omega arith)
  on_sale_quota_mono clock (opens now) e j {b} s h = (b, ground arith, omega arith)
  on_sale_quota_mono clock rejects e j {b} s h = (b, ground arith, omega arith)
  on_sale_quota_mono clock sells_out e j {b} s h = (b, ground arith, omega arith)
  on_sale_quota_mono clock closes e j {b} s h = (b, ground arith, omega arith)
  on_sale_quota_mono clock completes e j {b} s h = (b, ground arith, omega arith)
  on_sale_quota_mono clock cancels e j {b} s h = (b, ground arith, omega arith)

-- A review approves an event exactly when the event waits for review and its sale starts at least the
-- lead time after the decision.
approve_iff :
    (lead clock now : ℕ) (e : Event)
    → ((approve lead clock now e).1 ≡ none)
      ↔ ((e.status ≡ pending_review) × (now + lead ≤ e.sale_start_at))
unfolding approve
approve_iff lead clock now e = (λ h. (ground arith, ground arith), λ h. ground arith)

-- A moderator approves an event exactly when the event waits for review or was rejected, and its sale
-- starts at least the lead time after the decision.
approve_override_iff :
    (lead clock now : ℕ) (e : Event)
    → ((approve_override lead clock now e).1 ≡ none)
      ↔ (((e.status ≡ pending_review) ⊎ (e.status ≡ rejected)) × (now + lead ≤ e.sale_start_at))
unfolding approve_override
approve_override_iff lead clock now e = (λ h. (ground arith, ground arith), λ h. ground arith)

-- Details whose dates are out of order are refused for a new event, while an edit of an editable
-- event by the same details reports success and changes nothing.
bad_dates_silent :
    (u : Unicode) (new_id clock organizer_id : ℕ) (slug : Text) (d : Details) (e : Event)
    → is_editable e.status ≡ true
    → is_empty (trim_space d.new_title) ≡ false
    → d.new_starts_at ≤ d.new_sale_start_at
    → (new_event u new_id clock organizer_id slug d ≡ err invalid_event_dates)
      × (update_details clock d e ≡ (e, none))
unfolding new_event update_details
bad_dates_silent u new_id clock organizer_id slug d e h b o = (ground arith, ground arith)

-- A scheduled event's sale can be moved to a time that has come, and opened at once: the lead time
-- is checked at the approval only.
pub reschedule_opens_at_once :
    (clock now : ℕ) (d : Details) (e : Event)
    → e.status ≡ scheduled
    → is_empty (trim_space d.new_title) ≡ false
    → d.new_sale_start_at < d.new_starts_at
    → d.new_sale_start_at ≤ now
    → let e' = (update_details clock d e).0 in
      ((open_sale clock now e').1 ≡ none) × ((open_sale clock now e').0.status ≡ on_sale)
unfolding update_details open_sale
reschedule_opens_at_once clock now d e s b o r = (ground arith, ground arith)

-- A smaller positive quota for a tier is refused while the event is on sale, but once the event is
-- marked as sold out the same call succeeds, and the event stays sold out.
sold_out_quota_falls :
    (clock i : ℕ) (q a : ℤ) (e : Event)
    → e.status ≡ on_sale
    → find_quota i e.tiers ≡ some a
    → leb_ℤ q (pos 0) ≡ false
    → ltb_ℤ q a ≡ true
    → let r = update_tier_quota clock i q (mark_sold_out clock e).0 in
      (update_tier_quota clock i q e ≡ (e, some cannot_reduce_quota_on_sale))
      × (r.1 ≡ none)
      × (r.0.status ≡ sold_out)
      × (find_quota i r.0.tiers ≡ some q)
unfolding update_tier_quota mark_sold_out
sold_out_quota_falls clock i q a e s h p l =
    (ground arith, ground arith, ground arith, ground (arith, find_quota_of_set i q e.tiers h))
