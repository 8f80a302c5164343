-- ===== src/Distribution.antt =====
-- The loop that spreads a quota over buckets. services/ticketing/internal/domain/inventory.go and
-- services/event/internal/domain/ticket_tier.go hold the same loop:
-- `for i := 0; i < n; i++ { buckets[i] = base; if i < rem { buckets[i]++ } }`.
use even_flow.Prelude.{
  ℕ, zero, suc, ◌+◌, ◌-◌, ◌*◌, ◌/◌, ◌%◌, ◌≤◌, ◌<◌, ◌≡◌, refl, ap, List, [], ◌∷◌, arith, ltb,
  if◌then◌else◌, length, All,
}

-- What bucket `i` receives.
abbrev pub share : ℕ → ℕ → ℕ → ℕ
share base rem i = if ltb i rem then suc base else base

-- The loop from index `i`, with `left` rounds to go.
unfoldable pub fill_buckets : ℕ → ℕ → ℕ → ℕ → List ℕ
fill_buckets base rem i zero = []
fill_buckets base rem i (suc left) = share base rem i ∷ fill_buckets base rem (suc i) left

abbrev pub sum : List ℕ → ℕ
sum [] = 0
sum (x ∷ xs) = x + sum xs

pub length-fill_buckets : (base rem i left : ℕ) → length (fill_buckets base rem i left) ≡ left
unfolding fill_buckets
length-fill_buckets base rem i zero = refl
length-fill_buckets base rem i (suc left) = ap suc (length-fill_buckets base rem (suc i) left)

-- `min left (rem - i)` of the remaining buckets get one more.
pub sum-fill_buckets :
    (base rem i left : ℕ)
    → rem ≤ i + left
    → sum (fill_buckets base rem i left) ≡ left * base + (rem - i)
unfolding fill_buckets
sum-fill_buckets base rem i zero h = omega arith
sum-fill_buckets base rem i (suc left) h = ground (arith, sum-fill_buckets base rem (suc i) left)

pub fill_buckets-within :
    (base rem i left : ℕ) → All (λ b. (base ≤ b) × (b ≤ suc base)) (fill_buckets base rem i left)
unfolding fill_buckets
fill_buckets-within base rem i zero = tt
fill_buckets-within base rem i (suc left) =
    (ground arith, fill_buckets-within base rem (suc i) left)

-- Over all buckets the shares add up to the quota.
pub sum-fill_buckets_all : (q n : ℕ) → 0 < n → sum (fill_buckets (q / n) (q % n) 0 n) ≡ q
sum-fill_buckets_all q n h = grind (arith, sum-fill_buckets (q / n) (q % n) 0 n)
