-- ===== src/Event/Aggregate.antt =====
-- services/event/internal/domain/event.go. A method that changes its receiver returns the new event
-- beside the error; `clock` stands for `time.Now().UTC()` and `lead` for `MinSaleLead()`, which is
-- set once when the process starts. Times are nanoseconds since Go's zero time.
use even_flow.Prelude.{
  ℕ, ◌+◌, Bool, true, false, not, ◌&&◌, ◌||◌, Option, none, some, List, [], ◌∷◌, ◌++◌, ltb, nat_eq,
  nat_Eq, if◌then◌else◌,
}
use even_flow.Prelude.Int.{ℤ, pos, negsuc, leb_ℤ, ltb_ℤ}
use even_flow.Prelude.Text.{Text, is_empty, trim_space, dash_spaces, Unicode, to_lower, equal_fold}
use even_flow.Event.Tier.{
  TicketTier, Error, Result, ok, err, tier_not_found, invalid_state_transition,
  no_valid_ticket_tiers, sale_start_time_too_early, cannot_reduce_quota_on_sale,
  duplicate_tier_name, event_not_editable, invalid_quota, invalid_event_dates, invalid_title,
}

pub data EventStatus : Type 0 where
  draft pending_review scheduled on_sale sold_out closed completed rejected cancelled : EventStatus

pub record Event : Type 0 where
  pub id : ℕ  -- a UUID as its 128-bit number
  pub organizer_id : ℕ
  pub slug : Text
  pub title : Text
  pub description : Text
  pub venue : Text
  pub starts_at : ℕ
  pub sale_start_at : ℕ
  pub sale_end_at : Option ℕ
  pub status : EventStatus
  pub max_per_identity : ℕ
  pub max_per_order : ℕ
  pub hold_ttl_seconds : ℕ
  pub created_at : ℕ
  pub updated_at : ℕ
  pub tiers : List TicketTier

-- `SetMinSaleLead` clamps a negative duration to 0.
unfoldable pub set_min_sale_lead : ℤ → ℕ
set_min_sale_lead (pos d) = d
set_min_sale_lead (negsuc d) = 0

-- What an organizer writes about an event.
pub record Details : Type 0 where
  pub new_title : Text
  pub new_description : Text
  pub new_venue : Text
  pub new_starts_at : ℕ
  pub new_sale_start_at : ℕ
  pub new_sale_end_at : Option ℕ

unfoldable pub new_event : Unicode → ℕ → ℕ → ℕ → Text → Details → Result Event
unfolding trim_space dash_spaces
new_event u new_id clock organizer_id slug d =
    let trimmed_title = trim_space d.new_title in
    if is_empty trimmed_title
    then err invalid_title
    else let trimmed_slug = trim_space slug in
      if not (ltb d.new_sale_start_at d.new_starts_at)
      then err invalid_event_dates
      else ok (record {
        id = new_id;
        organizer_id = organizer_id;
        slug =
            if is_empty trimmed_slug then to_lower u (dash_spaces trimmed_title) else trimmed_slug;
        title = trimmed_title;
        description = d.new_description;
        venue = d.new_venue;
        starts_at = d.new_starts_at;
        sale_start_at = d.new_sale_start_at;
        sale_end_at = d.new_sale_end_at;
        status = draft;
        max_per_identity = 4;
        max_per_order = 4;
        hold_ttl_seconds = 600;
        created_at = clock;
        updated_at = clock;
        tiers = [];
      })

-- `e.Status != StatusDraft && e.Status != StatusScheduled && e.Status != StatusRejected` negated.
abbrev pub is_editable : EventStatus → Bool
is_editable draft = true
is_editable scheduled = true
is_editable rejected = true
is_editable _ = false

unfoldable pub update_details : ℕ → Details → Event → Event × Option Error
update_details clock d e =
    if not (is_editable e.status)
    then (e, some event_not_editable)
    else let trimmed_title = trim_space d.new_title in
      if is_empty trimmed_title
      then (e, some invalid_title)
      else if not (ltb d.new_sale_start_at d.new_starts_at)
      then (e, none)
      else (
        record e {
          title = trimmed_title;
          description = d.new_description;
          venue = d.new_venue;
          starts_at = d.new_starts_at;
          sale_start_at = d.new_sale_start_at;
          sale_end_at = d.new_sale_end_at;
          updated_at = clock;
        },
        none,
      )

-- The loop that looks for a tier of the same name.
unfoldable pub has_name : Unicode → Text → List TicketTier → Bool
has_name u name [] = false
has_name u name (existing ∷ rest) = equal_fold u existing.name name || has_name u name rest

unfoldable pub add_tier : Unicode → ℕ → TicketTier → Event → Event × Option Error
unfolding has_name
add_tier u clock tier e =
    if not (is_editable e.status)
    then (e, some event_not_editable)
    else if has_name u tier.name e.tiers
    then (e, some duplicate_tier_name)
    else (record e { tiers = e.tiers ++ tier ∷ []; updated_at = clock }, none)

-- The quota of the first tier with that id: the search for `tierIndex`.
unfoldable pub find_quota : ℕ → List TicketTier → Option ℤ
find_quota tier_id [] = none
find_quota tier_id (t ∷ rest) =
    if nat_eq t.id tier_id then some t.quota else find_quota tier_id rest

-- `e.Tiers[tierIndex].Quota = newQuota`
unfoldable pub set_quota : ℕ → ℤ → List TicketTier → List TicketTier
set_quota tier_id q [] = []
set_quota tier_id q (t ∷ rest) =
    if nat_eq t.id tier_id then record t { quota = q } ∷ rest else t ∷ set_quota tier_id q rest

-- The status check of `UpdateTierQuota`: the status after it, or the error.
quota_status : EventStatus → ℤ → ℤ → Result EventStatus
quota_status on_sale current q =
    if ltb_ℤ q current then err cannot_reduce_quota_on_sale else ok on_sale
quota_status sold_out current q = ok (if ltb_ℤ current q then on_sale else sold_out)
quota_status draft current q = ok draft
quota_status scheduled current q = ok scheduled
quota_status rejected current q = ok rejected
quota_status _ current q = err event_not_editable

quota_result : ℕ → ℕ → ℤ → Event → Option ℤ → Event × Option Error
unfolding quota_status set_quota
quota_result clock tier_id q e none = (e, some tier_not_found)
quota_result clock tier_id q e (some current) = elim (quota_status e.status current q) [
  | err x ↦ (e, some x)
  | ok s ↦ (record e { status = s; tiers = set_quota tier_id q e.tiers; updated_at = clock }, none)
]

unfoldable pub update_tier_quota : ℕ → ℕ → ℤ → Event → Event × Option Error
unfolding quota_result find_quota
update_tier_quota clock tier_id q e =
    if leb_ℤ q (pos 0)
    then (e, some invalid_quota)
    else quota_result clock tier_id q e (find_quota tier_id e.tiers)

-- Every transition that succeeds sets the status and the time of the update.
abbrev move_to : ℕ → EventStatus → Event → Event × Option Error
move_to clock s e = (record e { status = s; updated_at = clock }, none)

abbrev refuse : Error → Event → Event × Option Error
refuse x e = (e, some x)

unfoldable pub has_valid_tier : List TicketTier → Bool
has_valid_tier [] = false
has_valid_tier (t ∷ rest) =
    ltb_ℤ (pos 0) t.quota && leb_ℤ (pos 0) t.price_cents || has_valid_tier rest

abbrev is_submittable : EventStatus → Bool
is_submittable draft = true
is_submittable rejected = true
is_submittable _ = false

unfoldable pub submit_for_review : ℕ → Event → Event × Option Error
unfolding has_valid_tier
submit_for_review clock e =
    if not (is_submittable e.status)
    then refuse invalid_state_transition e
    else if not (has_valid_tier e.tiers)
    then refuse no_valid_ticket_tiers e
    else move_to clock pending_review e

abbrev is_pending : EventStatus → Bool
is_pending pending_review = true
is_pending _ = false

unfoldable pub approve : ℕ → ℕ → ℕ → Event → Event × Option Error
approve lead clock now e =
    if not (is_pending e.status)
    then refuse invalid_state_transition e
    else if ltb e.sale_start_at (now + lead)
    then refuse sale_start_time_too_early e
    else move_to clock scheduled e

abbrev is_overridable : EventStatus → Bool
is_overridable pending_review = true
is_overridable rejected = true
is_overridable _ = false

unfoldable pub approve_override : ℕ → ℕ → ℕ → Event → Event × Option Error
approve_override lead clock now e =
    if not (is_overridable e.status)
    then refuse invalid_state_transition e
    else if ltb e.sale_start_at (now + lead)
    then refuse sale_start_time_too_early e
    else move_to clock scheduled e

unfoldable pub reject : ℕ → Event → Event × Option Error
reject clock e =
    if not (is_pending e.status)
    then refuse invalid_state_transition e
    else move_to clock rejected e

abbrev is_scheduled : EventStatus → Bool
is_scheduled scheduled = true
is_scheduled _ = false

unfoldable pub open_sale : ℕ → ℕ → Event → Event × Option Error
open_sale clock now e =
    if not (is_scheduled e.status)
    then refuse invalid_state_transition e
    else if ltb now e.sale_start_at
    then refuse invalid_state_transition e
    else move_to clock on_sale e

abbrev is_on_sale : EventStatus → Bool
is_on_sale on_sale = true
is_on_sale _ = false

abbrev is_sold_out : EventStatus → Bool
is_sold_out sold_out = true
is_sold_out _ = false

unfoldable pub mark_sold_out : ℕ → Event → Event × Option Error
mark_sold_out clock e =
    if not (is_on_sale e.status)
    then refuse invalid_state_transition e
    else move_to clock sold_out e

unfoldable pub close_sale : ℕ → Event → Event × Option Error
close_sale clock e =
    if not (is_on_sale e.status || is_sold_out e.status)
    then refuse invalid_state_transition e
    else move_to clock closed e

abbrev is_closed : EventStatus → Bool
is_closed closed = true
is_closed _ = false

unfoldable pub complete : ℕ → Event → Event × Option Error
complete clock e =
    if not (is_closed e.status || is_sold_out e.status)
    then refuse invalid_state_transition e
    else move_to clock completed e

abbrev pub is_terminal : EventStatus → Bool
is_terminal completed = true
is_terminal cancelled = true
is_terminal _ = false

unfoldable pub cancel : ℕ → Event → Event × Option Error
cancel clock e =
    if is_terminal e.status then refuse invalid_state_transition e else move_to clock cancelled e

-- A call of one method of an event.
pub data Call : Type 0 where
  updates_details : Details → Call
  adds_tier : TicketTier → Call
  updates_tier_quota : ℕ → ℤ → Call
  submits : Call
  approves overrides opens : ℕ → Call
  rejects sells_out closes completes cancels : Call

module _ (u : Unicode) (lead : ℕ) where
  unfoldable pub step : ℕ → Call → Event → Event × Option Error
  step clock (updates_details d) e = update_details clock d e
  step clock (adds_tier t) e = add_tier u clock t e
  step clock (updates_tier_quota i q) e = update_tier_quota clock i q e
  step clock submits e = submit_for_review clock e
  step clock (approves now) e = approve lead clock now e
  step clock (overrides now) e = approve_override lead clock now e
  step clock (opens now) e = open_sale clock now e
  step clock rejects e = reject clock e
  step clock sells_out e = mark_sold_out clock e
  step clock closes e = close_sale clock e
  step clock completes e = complete clock e
  step clock cancels e = cancel clock e

  -- A history of calls, each at its time.
  unfoldable pub run : List (ℕ × Call) → Event → Event
  run [] e = e
  run ((clock, c) ∷ cs) e = run cs (step clock c e).0
