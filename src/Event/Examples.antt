-- ===== src/Event/Examples.antt =====
-- The theorems about events at concrete inputs, and runs of the methods.
use even_flow.Prelude.{ℕ, ◌≡◌, refl, true, none, some, List, [], ◌∷◌, arith}
use even_flow.Prelude.Int.{ℤ, pos, ◌≤ℤ◌}
use even_flow.Prelude.Text.{text, ascii, trim_space}
use even_flow.Event.Tier.{TicketTier, ok}
use even_flow.Event.Aggregate.{
  EventStatus, draft, pending_review, scheduled, on_sale, Event, Details, Call, adds_tier,
  updates_tier_quota, submits, approves, opens, step, run, new_event, update_details,
  update_tier_quota, approve, open_sale, add_tier, submit_for_review, find_quota,
}
use even_flow.Event.Lifecycle.{◌⟶◌, step-⟶}
use even_flow.Event.Invariant.{Inv, history-Inv}
use even_flow.Event.Sales.{
  has_approval, on_sale_needs_approval, on_sale_quota_mono, reschedule_opens_at_once,
}

abbrev gala_details : Details
gala_details = record {
  new_title = text " Gala ";
  new_description = [];
  new_venue = [];
  new_starts_at = 5000;
  new_sale_start_at = 3000;
  new_sale_end_at = none;
}

abbrev standing : TicketTier
standing = record {
  id = 7;
  event_id = 1;
  name = text "Standing";
  price_cents = pos 5000;
  currency = text "VND";
  quota = pos 100;
  bucket_count = pos 32;
  created_at = 10;
}

abbrev gala : Event
gala = record {
  id = 1;
  organizer_id = 2;
  slug = text "gala";
  title = text "Gala";
  description = [];
  venue = [];
  starts_at = 5000;
  sale_start_at = 3000;
  sale_end_at = none;
  status = draft;
  max_per_identity = 4;
  max_per_order = 4;
  hold_ttl_seconds = 600;
  created_at = 10;
  updated_at = 10;
  tiers = [];
}

abbrev gala_in : EventStatus → Event
gala_in s = record gala { status = s; tiers = standing ∷ [] }

-- A new event, from its tiers to the sale.
abbrev to_sale : List (ℕ × Call)
to_sale =
    (20, adds_tier standing)
    ∷ (30, submits)
    ∷ (40, approves 40)
    ∷ (3000, opens 3000)
    ∷ (3100, updates_tier_quota 7 (pos 120))
    ∷ []

new_gala : new_event ascii 1 10 2 (text "gala") gala_details ≡ ok gala
unfolding new_event
new_gala = refl

to_sale_sells : (run ascii 1800 to_sale gala).status ≡ on_sale
unfolding run step add_tier submit_for_review approve open_sale update_tier_quota
to_sale_sells = refl

step-⟶_example : pending_review ⟶ scheduled
unfolding step approve
step-⟶_example = step-⟶ ascii 1800 40 (approves 40) (gala_in pending_review)

history-Inv_example : Inv ascii (run ascii 1800 to_sale gala)
history-Inv_example = history-Inv ascii 1800 1 10 2 (text "gala") gala_details to_sale new_gala

on_sale_needs_approval_example : has_approval ascii 1800 to_sale gala ≡ true
on_sale_needs_approval_example = on_sale_needs_approval ascii 1800 to_sale gala refl to_sale_sells

on_sale_quota_mono_example :
    (b : ℤ) × (find_quota 7
        (step ascii 1800 3100 (updates_tier_quota 7 (pos 120)) (gala_in on_sale)).0.tiers
      ≡ some b)
    × (pos 100 ≤ℤ b)
unfolding find_quota
on_sale_quota_mono_example =
    on_sale_quota_mono ascii 1800 3100 (updates_tier_quota 7 (pos 120)) (gala_in on_sale) 7 refl
      refl

abbrev late_details : Details
late_details = record gala_details { new_starts_at = 100 }

abbrev early_details : Details
early_details = record gala_details { new_sale_start_at = 41 }

reschedule_opens_at_once_example :
    let e' = (update_details 50 early_details (gala_in scheduled)).0 in
    ((open_sale 50 50 e').1 ≡ none) × ((open_sale 50 50 e').0.status ≡ on_sale)
reschedule_opens_at_once_example =
    reschedule_opens_at_once 50 50 early_details (gala_in scheduled) refl
      (unfold trim_space in refl) (omega arith) (omega arith)
