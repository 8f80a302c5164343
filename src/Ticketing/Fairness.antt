-- ===== src/Ticketing/Fairness.antt =====
-- How services/ticketing/internal/domain spreads a quota over buckets, and what it tells buyers.
use even_flow.Prelude.{
  ℕ, zero, suc, ◌+◌, ◌/◌, ◌%◌, ◌≤◌, ◌<◌, ◌≡◌, refl, ap, List, [], ◌∷◌, arith, length, replicate,
  All,
}
use even_flow.Prelude.Int.{ℤ, pos, pos_part, neg_part, ◌+ℤ◌, +ℤ_parts, eq_of_parts}
use even_flow.Distribution.{
  fill_buckets, share, sum, length-fill_buckets, sum-fill_buckets_all, fill_buckets-within,
}
use even_flow.Event.Tier as Tier
use even_flow.Event.Tier.{TicketTier}
use even_flow.Ticketing.Inventory.{
  ok, BucketInventory, bucket_count_or_default, distribute_quota, add_shares,
  distribute_additional_quota,
}

positive_buckets : (c : ℤ) → 0 < bucket_count_or_default c
unfolding bucket_count_or_default
positive_buckets c = ground arith

length-replicate : (n : ℕ) → length {A = ℕ} (replicate n 0) ≡ n
length-replicate zero = refl
length-replicate (suc n) = ap suc (length-replicate n)

sum-replicate : (n : ℕ) → sum (replicate n 0) ≡ 0
sum-replicate zero = refl
sum-replicate (suc n) = omega (arith, sum-replicate n)

All-replicate : (n : ℕ) → All (λ b. (0 ≤ b) × (b ≤ 1)) (replicate n 0)
All-replicate zero = tt
All-replicate (suc n) = (omega arith, All-replicate n)

-- A fair split of `q` into `n`: as many buckets, the whole quota, no two more than one apart.
pub IsFair : ℕ → ℕ → List ℕ → Type 0
IsFair q n bs =
    (length bs ≡ n) × (sum bs ≡ q) × ((base : ℕ) × All (λ b. (base ≤ b) × (b ≤ suc base)) bs)

fill_buckets-IsFair : (q n : ℕ) → 0 < n → IsFair q n (fill_buckets (q / n) (q % n) 0 n)
unfolding IsFair
fill_buckets-IsFair q n h = (
  length-fill_buckets (q / n) (q % n) 0 n,
  sum-fill_buckets_all q n h,
  (q / n, fill_buckets-within (q / n) (q % n) 0 n),
)

-- A quota that is not negative is split fairly over the buckets asked for, or 32 when that count is
-- not positive.
pub distribute_quota-IsFair :
    (q : ℕ) (c : ℤ)
    → (bs : List ℕ) × (distribute_quota (pos q) c ≡ ok bs) × IsFair q (bucket_count_or_default c) bs
unfolding distribute_quota IsFair
distribute_quota-IsFair zero c =
    let n = bucket_count_or_default c in
    (replicate n 0, refl, (length-replicate n, sum-replicate n, (0, All-replicate n)))
distribute_quota-IsFair (suc q) c =
    let n = bucket_count_or_default c in
    (
      fill_buckets (suc q / n) (suc q % n) 0 n,
      refl,
      fill_buckets-IsFair (suc q) n (positive_buckets c),
    )

-- Each result of the event service's split of a quota that is not negative is the ticketing service's.
pub tier_buckets_agree :
    (t : TicketTier) (q : ℕ)
    → t.quota ≡ pos q
    → distribute_quota t.quota t.bucket_count ≡ ok (Tier.distribute_quota t)
unfolding distribute_quota bucket_count_or_default Tier.distribute_quota Tier.effective_buckets
    Tier.spread
tier_buckets_agree t q h = ground arith

-- A number of the buckets, added up.
pub total : (BucketInventory → ℤ) → List BucketInventory → ℤ
total f [] = pos 0
total f (b ∷ bs) = f b +ℤ total f bs

module _ (f : BucketInventory → ℤ)
    (f_adds : (b : BucketInventory) (n : ℕ)
      → f (record b { capacity = b.capacity +ℤ pos n; available = b.available +ℤ pos n })
        ≡ f b +ℤ pos n) where
  total-add_shares :
      (base rem i : ℕ) (bs : List BucketInventory)
      → pos_part (total f (add_shares base rem i bs)) + neg_part (total f bs)
        ≡ neg_part (total f (add_shares base rem i bs))
          + pos_part (total f bs)
          + sum (fill_buckets base rem i (length bs))
  unfolding total add_shares fill_buckets
  total-add_shares base rem i [] = omega arith
  total-add_shares base rem i (b ∷ bs) =
      let n = share base rem i in
      let rest = add_shares base rem (suc i) bs in
      rw (f_adds b n) (
        omega (
          arith,
          total-add_shares base rem (suc i) bs,
          +ℤ_parts (f b +ℤ pos n) (total f rest),
          +ℤ_parts (f b) (pos n),
          +ℤ_parts (f b) (total f bs),
        ))

  total-distribute_additional :
      (b : BucketInventory) (bs : List BucketInventory) (d : ℕ)
      → total f (distribute_additional_quota (b ∷ bs) (pos (suc d))).0
        ≡ total f (b ∷ bs) +ℤ pos (suc d)
  unfolding distribute_additional_quota
  total-distribute_additional b bs d =
      let n = suc (length bs) in
      eq_of_parts _ _ (
        omega (
          arith,
          total-add_shares (suc d / n) (suc d % n) 0 (b ∷ bs),
          sum-fill_buckets_all (suc d) n (omega arith),
          +ℤ_parts (total f (b ∷ bs)) (pos (suc d)),
        ))

-- When a tier that has buckets gets `d + 1` more tickets, the capacities and the tickets available
-- each grow by `d + 1` in all.
additional_quota_added :
    (b : BucketInventory) (bs : List BucketInventory) (d : ℕ)
    → (total (λ c. c.available) (distribute_additional_quota (b ∷ bs) (pos (suc d))).0
        ≡ total (λ c. c.available) (b ∷ bs) +ℤ pos (suc d))
      × (total (λ c. c.capacity) (distribute_additional_quota (b ∷ bs) (pos (suc d))).0
          ≡ total (λ c. c.capacity) (b ∷ bs) +ℤ pos (suc d))
additional_quota_added b bs d = (
  total-distribute_additional (λ c. c.available) (λ c n. refl) b bs d,
  total-distribute_additional (λ c. c.capacity) (λ c n. refl) b bs d,
)
