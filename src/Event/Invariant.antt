-- ===== src/Event/Invariant.antt =====
-- What holds of an event between two calls of its methods (services/event/internal/domain/event.go):
-- its title and dates, the names of its tiers, and the tiers that the review asks for.
use even_flow.Prelude.{ℕ, ◌<◌, ◌≡◌, Bool, true, false, List, [], ◌∷◌, ◌++◌, arith, All}
use even_flow.Prelude.Int.{ℤ, pos, leb_ℤ}
use even_flow.Prelude.Text.{Text, is_empty, Unicode, equal_fold}
use even_flow.Event.Tier.{TicketTier, ok}
use even_flow.Event.Aggregate.{
  EventStatus, draft, cancelled, Event, Details, Call, updates_details, adds_tier,
  updates_tier_quota, submits, approves, overrides, opens, rejects, sells_out, closes, completes,
  cancels, step, run, new_event, update_details, add_tier, update_tier_quota, submit_for_review,
  approve, approve_override, reject, open_sale, mark_sold_out, close_sale, complete, cancel,
  has_name, set_quota, has_valid_tier,
}

-- No tier's name equals, up to case, the name of a later one.
abbrev pub DistinctNames : Unicode → List TicketTier → Type 0
DistinctNames u [] = Unit
DistinctNames u (t ∷ ts) = All (λ r. equal_fold u t.name r.name ≡ false) ts × DistinctNames u ts

-- A draft may lack tiers, and a cancelled event may have been one.
abbrev pub was_reviewed : EventStatus → Bool
was_reviewed draft = false
was_reviewed cancelled = false
was_reviewed _ = true

pub record Inv (u : Unicode) (e : Event) : Type 0 where
  pub titled : is_empty e.title ≡ false
  pub dated : e.sale_start_at < e.starts_at
  pub names : DistinctNames u e.tiers
  pub sellable : was_reviewed e.status ≡ true → has_valid_tier e.tiers ≡ true

module _ (u : Unicode) where
  DistinctNames-add :
      (t : TicketTier) (ts : List TicketTier)
      → has_name u t.name ts ≡ false
      → DistinctNames u ts
      → DistinctNames u (ts ++ t ∷ [])
  unfolding has_name
  DistinctNames-add t [] h d = (tt, tt)
  DistinctNames-add t (x ∷ ts) h d =
      (later ts d.0 (ground arith), DistinctNames-add t ts (ground arith) d.1)
    where
      later :
          (rs : List TicketTier)
          → All (λ r. equal_fold u x.name r.name ≡ false) rs
          → equal_fold u x.name t.name ≡ false
          → All (λ r. equal_fold u x.name r.name ≡ false) (rs ++ t ∷ [])
      later [] a e = (e, tt)
      later (r ∷ rs) a e = (a.0, later rs a.1 e)

  All-set_quota :
      (i : ℕ) (q : ℤ) (n : Text) (ts : List TicketTier)
      → All (λ r. equal_fold u n r.name ≡ false) ts
      → All (λ r. equal_fold u n r.name ≡ false) (set_quota i q ts)
  unfolding set_quota
  All-set_quota i q n [] a = tt
  All-set_quota i q n (t ∷ ts) a = ground (arith, All-set_quota i q n ts a.1)

  DistinctNames-set_quota :
      (i : ℕ) (q : ℤ) (ts : List TicketTier)
      → DistinctNames u ts
      → DistinctNames u (set_quota i q ts)
  unfolding set_quota
  DistinctNames-set_quota i q [] d = tt
  DistinctNames-set_quota i q (t ∷ ts) d =
      ground (arith, All-set_quota i q t.name ts d.0, DistinctNames-set_quota i q ts d.1)

has_valid_tier-append :
    (ts rs : List TicketTier) → has_valid_tier ts ≡ true → has_valid_tier (ts ++ rs) ≡ true
unfolding has_valid_tier
has_valid_tier-append [] rs h = cc
has_valid_tier-append (t ∷ ts) rs h = ground (arith, has_valid_tier-append ts rs)

has_valid_tier-set_quota :
    (i : ℕ) (q : ℤ) (ts : List TicketTier)
    → leb_ℤ q (pos 0) ≡ false
    → has_valid_tier ts ≡ true
    → has_valid_tier (set_quota i q ts) ≡ true
unfolding has_valid_tier set_quota
has_valid_tier-set_quota i q [] p h = h
has_valid_tier-set_quota i q (t ∷ ts) p h = ground (arith, has_valid_tier-set_quota i q ts p)

-- A new event satisfies the invariant.
pub new_event-Inv :
    (u : Unicode) (new_id clock organizer_id : ℕ) (slug : Text) (d : Details) {e : Event}
    → new_event u new_id clock organizer_id slug d ≡ ok e
    → Inv u e
unfolding new_event
new_event-Inv u new_id clock organizer_id slug d h = ground arith

module _ (u : Unicode) (lead : ℕ) where
  -- Every call keeps the invariant.
  pub step-Inv : (clock : ℕ) (c : Call) (e : Event) → Inv u e → Inv u (step u lead clock c e).0
  unfolding step update_details add_tier update_tier_quota submit_for_review approve
      approve_override reject open_sale mark_sold_out close_sale complete cancel
  step-Inv clock (updates_details d) e v = ground arith
  step-Inv clock (adds_tier t) e v =
      ground (arith, DistinctNames-add u t e.tiers, has_valid_tier-append e.tiers (t ∷ []))
  step-Inv clock (updates_tier_quota i q) e v =
      ground (arith, DistinctNames-set_quota u i q e.tiers, has_valid_tier-set_quota i q e.tiers)
  step-Inv clock submits e v = ground arith
  step-Inv clock (approves now) e v = ground arith
  step-Inv clock (overrides now) e v = ground arith
  step-Inv clock (opens now) e v = ground arith
  step-Inv clock rejects e v = ground arith
  step-Inv clock sells_out e v = ground arith
  step-Inv clock closes e v = ground arith
  step-Inv clock completes e v = ground arith
  step-Inv clock cancels e v = ground arith

  pub run-Inv : (cs : List (ℕ × Call)) (e : Event) → Inv u e → Inv u (run u lead cs e)
  unfolding run
  run-Inv [] e v = v
  run-Inv ((clock, c) ∷ cs) e v = run-Inv cs (step u lead clock c e).0 (step-Inv clock c e v)

  -- After any history of a new event, its title and dates are sound, its tiers' names differ up to
  -- case, and unless it is a draft or cancelled it has a tier with a positive quota and a price
  -- that is not negative.
  pub history-Inv :
      (new_id clock organizer_id : ℕ) (slug : Text) (d : Details) {e : Event} (cs : List (ℕ × Call))
      → new_event u new_id clock organizer_id slug d ≡ ok e
      → Inv u (run u lead cs e)
  history-Inv new_id clock organizer_id slug d {e} cs h =
      run-Inv cs e (new_event-Inv u new_id clock organizer_id slug d h)
