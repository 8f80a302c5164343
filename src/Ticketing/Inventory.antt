-- ===== src/Ticketing/Inventory.antt =====
-- services/ticketing/internal/domain: inventory.go, availability.go and purchase_limit.go, with the
-- errors of errors.go. A Go `int` is an integer; the numbers of tickets are columns of 32 bits, so
-- that no product or sum below leaves the 64 bits of the type.
use even_flow.Prelude.{
  ℕ, zero, suc, ◌*◌, ◌/◌, ◌%◌, ◌||◌, Option, none, some, List, [], ◌∷◌, if◌then◌else◌, length,
  replicate,
}
use even_flow.Prelude.Int.{ℤ, pos, negsuc, ◌+ℤ◌, ◌-ℤ◌, leb_ℤ}
use even_flow.Distribution.{fill_buckets, share}
use Prim.Native.String.{String}

-- The sentinel errors. `other` is any error that comes from the database, Redis or the signer.
pub data Error : Type 0 where
  sold_out inventory_exhausted not_admitted quantity_not_allowed per_identity_limit : Error
  hold_expired order_not_found event_not_found order_not_paid ticket_not_found : Error
  tampered_qr ticket_already_used ticket_expired ticket_void ticket_refunded : Error
  invalid_ticket_status invalid_bucket_count negative_quota : Error
  other : String → Error

pub data Result {ℓ} (A : Type ℓ) : Type ℓ where
  ok : A → Result A
  err : Error → Result A

pub record BucketInventory : Type 0 where
  pub bucket : ℤ
  pub capacity : ℤ
  pub available : ℤ

-- `if bucketCount <= 0 { bucketCount = DefaultBucketCount }`
unfoldable pub bucket_count_or_default : ℤ → ℕ
bucket_count_or_default (pos zero) = 32
bucket_count_or_default (pos (suc n)) = suc n
bucket_count_or_default (negsuc n) = 32

unfoldable pub distribute_quota : ℤ → ℤ → Result (List ℕ)
unfolding bucket_count_or_default
distribute_quota (negsuc q) bucket_count = err negative_quota
distribute_quota (pos zero) bucket_count = ok (replicate (bucket_count_or_default bucket_count) 0)
distribute_quota (pos (suc q)) bucket_count =
    let n = bucket_count_or_default bucket_count in ok (fill_buckets (suc q / n) (suc q % n) 0 n)

-- The loop of DistributeAdditionalQuota from index `i`.
unfoldable pub add_shares : ℕ → ℕ → ℕ → List BucketInventory → List BucketInventory
add_shares base rem i [] = []
add_shares base rem i (b ∷ bs) =
    (record b {
      capacity = b.capacity +ℤ pos (share base rem i);
      available = b.available +ℤ pos (share base rem i);
    })
    ∷ add_shares base rem (suc i) bs

-- Both results: the slice, and the error or nil. On a refused delta the slice is the caller's own.
unfoldable pub distribute_additional_quota :
    List BucketInventory → ℤ → List BucketInventory × Option Error
unfolding add_shares
distribute_additional_quota current (negsuc d) = (current, some quantity_not_allowed)
distribute_additional_quota current (pos zero) = (current, some quantity_not_allowed)
distribute_additional_quota [] (pos (suc d)) = ([], some invalid_bucket_count)
distribute_additional_quota (b ∷ bs) (pos (suc d)) =
    let n = suc (length bs) in (add_shares (suc d / n) (suc d % n) 0 (b ∷ bs), none)

pub data AvailabilityLevel : Type 0 where
  available few_left sold_out : AvailabilityLevel

abbrev few_left_percent : ℕ
few_left_percent = 10

-- `k * a`
abbrev times : ℕ → ℤ → ℤ
times k (pos n) = pos (n * k)
times k (negsuc n) = pos 0 -ℤ pos (suc n * k)

unfoldable pub level_of : ℤ → ℤ → AvailabilityLevel
level_of left size =
    if leb_ℤ left (pos 0) || leb_ℤ size (pos 0)
    then AvailabilityLevel.sold_out
    else if leb_ℤ (times 100 left) (times few_left_percent size)
    then few_left
    else AvailabilityLevel.available

abbrev min_ℤ : ℤ → ℤ → ℤ
min_ℤ a b = if leb_ℤ a b then a else b

abbrev max_ℤ : ℤ → ℤ → ℤ
max_ℤ a b = if leb_ℤ b a then a else b

unfoldable pub max_selectable : ℤ → ℤ → ℤ → ℤ
max_selectable max_per_order max_per_identity used =
    max_ℤ (pos 0) (min_ℤ max_per_order (max_per_identity -ℤ used))
