-- ===== src/Event/Tier.antt =====
-- services/event/internal/domain/ticket_tier.go and errors.go. A method that changes its receiver
-- returns the new record beside the error. `uuid.New()` and `time.Now()` are arguments.
use even_flow.Prelude.{ℕ, zero, suc, ◌/◌, ◌%◌, Option, none, some, List, if◌then◌else◌, replicate}
use even_flow.Prelude.Int.{ℤ, pos, negsuc, leb_ℤ, ltb_ℤ}
use even_flow.Prelude.Text.{Text, text, is_empty, trim_space}
use even_flow.Distribution.{fill_buckets}

pub data Error : Type 0 where
  tier_not_found invalid_state_transition no_valid_ticket_tiers sale_start_time_too_early : Error
  cannot_reduce_quota_on_sale duplicate_tier_name event_not_editable invalid_quota : Error
  invalid_price invalid_event_dates invalid_title : Error

pub data Result {ℓ} (A : Type ℓ) : Type ℓ where
  ok : A → Result A
  err : Error → Result A

pub record TicketTier : Type 0 where
  pub id : ℕ  -- a UUID as its 128-bit number
  pub event_id : ℕ
  pub name : Text
  pub price_cents : ℤ
  pub currency : Text
  pub quota : ℤ
  pub bucket_count : ℤ
  pub created_at : ℕ

unfoldable pub new_ticket_tier : ℕ → ℕ → ℕ → Text → ℤ → ℤ → Result TicketTier
unfolding trim_space
new_ticket_tier new_id clock event_id name price_cents quota =
    let trimmed_name = trim_space name in
    if is_empty trimmed_name
    then err duplicate_tier_name
    else if ltb_ℤ price_cents (pos 0)
    then err invalid_price
    else if leb_ℤ quota (pos 0)
    then err invalid_quota
    else ok (record {
      id = new_id;
      event_id = event_id;
      name = trimmed_name;
      price_cents = price_cents;
      currency = text "VND";
      quota = quota;
      bucket_count = pos 32;
      created_at = clock;
    })

unfoldable pub update : TicketTier → Text → ℤ → ℤ → TicketTier × Option Error
update t name price_cents new_quota =
    let trimmed_name = trim_space name in
    if is_empty trimmed_name
    then (t, some duplicate_tier_name)
    else if ltb_ℤ price_cents (pos 0)
    then (t, some invalid_price)
    else if leb_ℤ new_quota (pos 0)
    then (t, some invalid_quota)
    else (record t { name = trimmed_name; price_cents = price_cents; quota = new_quota }, none)

-- `bucketCount <= 0` falls back to 32
unfoldable pub effective_buckets : ℤ → ℕ
effective_buckets (pos zero) = 32
effective_buckets (pos (suc n)) = suc n
effective_buckets (negsuc n) = 32

unfoldable pub spread : ℕ → ℤ → List ℕ
spread n (negsuc q) = replicate n 0
spread n (pos zero) = replicate n 0
spread n (pos (suc q)) = fill_buckets (suc q / n) (suc q % n) 0 n

unfoldable pub distribute_quota : TicketTier → List ℕ
unfolding spread effective_buckets
distribute_quota t = spread (effective_buckets t.bucket_count) t.quota

unfoldable pub distribute_additional_quota : TicketTier → ℤ → List ℕ
unfolding spread effective_buckets
distribute_additional_quota t delta_quota = spread (effective_buckets t.bucket_count) delta_quota
