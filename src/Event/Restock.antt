-- ===== src/Event/Restock.antt =====
-- What a change of quota does to a tier's stock (services/event/internal/adapter/postgres/event_repo.go).
use even_flow.Prelude.{
  ℕ, zero, suc, ◌+◌, ◌-◌, ◌<◌, ◌/◌, ◌%◌, ◌≡◌, refl, ap, some, List, [], ◌∷◌, arith, length, nat_Eq,
  Bool-cases, inl, inr, ltb, if◌then◌else◌,
}
use even_flow.Prelude.Int.{ℤ, pos, ◌-ℤ◌}
use even_flow.Prelude.Map.{insert, lookup-insert_self}
use even_flow.Distribution.{sum, length-fill_buckets, sum-fill_buckets_all}
use even_flow.Event.Tier.{
  TicketTier, effective_buckets, spread, distribute_quota, distribute_additional_quota,
}
use even_flow.Event.Repository.{
  EventDb, Bucket, grow_buckets, set_buckets, restocked, buckets_of, find_tier, set_tier_row,
  update_tier,
}

abbrev pub total_available : List Bucket → ℕ
total_available [] = 0
total_available (b ∷ bs) = b.available + total_available bs

total-grow :
    (qs : List ℕ) (bs : List Bucket)
    → length qs ≡ length bs
    → total_available (grow_buckets qs bs) ≡ total_available bs + sum qs
unfolding grow_buckets
total-grow [] bs h = omega arith
total-grow (q ∷ qs) [] h = omega arith
total-grow (q ∷ qs) (b ∷ bs) h = omega (arith, total-grow qs bs)

total-set :
    (qs : List ℕ) (bs : List Bucket)
    → length qs ≡ length bs
    → total_available (set_buckets qs bs) ≡ sum qs
unfolding set_buckets
total-set [] [] h = refl
total-set [] (b ∷ bs) h = omega arith
total-set (q ∷ qs) [] h = omega arith
total-set (q ∷ qs) (b ∷ bs) h = omega (arith, total-set qs bs)

-- Every quota that is not zero is spread over all buckets without a rest.
spread-exact :
    (n q : ℕ) → 0 < n → 0 < q → (length (spread n (pos q)) ≡ n) × (sum (spread n (pos q)) ≡ q)
unfolding spread
spread-exact n zero hn hq = omega arith
spread-exact n (suc q) hn hq =
    (length-fill_buckets (suc q / n) (suc q % n) 0 n, sum-fill_buckets_all (suc q) n hn)

-- The stock after a quota went from `old` to `q` when `a` tickets were available.
abbrev pub stock_after : ℕ → ℕ → ℕ → ℕ
stock_after old q a = if ltb old q then a + (q - old) else if ltb q old then q else a

restocked-raised :
    (t : TicketTier) (q old : ℕ) (bs : List Bucket)
    → t.quota ≡ pos q
    → old < q
    → restocked t (pos old) bs
      ≡ grow_buckets (spread (effective_buckets t.bucket_count) (pos (q - old))) bs
unfolding restocked ◌-ℤ◌ distribute_additional_quota
restocked-raised t q old bs hq h = rw hq (ground arith)

restocked-lowered :
    (t : TicketTier) (q old : ℕ) (bs : List Bucket)
    → t.quota ≡ pos q
    → q < old
    → restocked t (pos old) bs ≡ set_buckets (spread (effective_buckets t.bucket_count) (pos q)) bs
unfolding restocked ◌-ℤ◌ distribute_quota
restocked-lowered t q old bs hq h = rw hq (ground arith)

restocked-same :
    (t : TicketTier) (q old : ℕ) (bs : List Bucket)
    → t.quota ≡ pos q
    → q ≡ old
    → restocked t (pos old) bs ≡ bs
unfolding restocked ◌-ℤ◌
restocked-same t q old bs hq same = rw hq (ground arith)

effective_buckets-positive : (c : ℤ) → 0 < effective_buckets c
unfolding effective_buckets
effective_buckets-positive c = ground arith

total-restocked :
    (t : TicketTier) (q old : ℕ) (bs : List Bucket)
    → t.quota ≡ pos q
    → 0 < q
    → length bs ≡ effective_buckets t.bucket_count
    → total_available (restocked t (pos old) bs) ≡ stock_after old q (total_available bs)
total-restocked t q old bs hq some_quota hl =
    let n = effective_buckets t.bucket_count in
    let pos_n = effective_buckets-positive t.bucket_count in
    elim (Bool-cases (ltb old q)) [
      | inl raised ↦
          let (hlen, hsum) = spread-exact n (q - old) pos_n (ground arith) in
          rw raised (
            rw (restocked-raised t q old bs hq (ground arith)) (
              omega
                (arith, total-grow (spread n (pos (q - old))) bs (omega (arith, hlen, hl)), hsum)))
      | inr kept ↦ elim (Bool-cases (ltb q old)) [
        | inl lowered ↦
            let (hlen, hsum) = spread-exact n q pos_n some_quota in
            rw (kept, lowered)
              (rw (restocked-lowered t q old bs hq (ground arith))
                (omega (arith, total-set (spread n (pos q)) bs (omega (arith, hlen, hl)), hsum)))
        | inr same ↦
            rw (kept, same) (ap total_available (restocked-same t q old bs hq (ground arith)))
      ]
    ]

-- `UpdateTier` of a tier that has a row and as many rows of stock as buckets, to a quota that is not
-- zero: a larger quota adds the difference to the tickets that are available, and a smaller one makes
-- all of the new quota available, whatever was sold.
pub update_tier-stock :
    (t row : TicketTier) (q old : ℕ) (db : EventDb)
    → find_tier t.id db.tiers ≡ some row
    → row.quota ≡ pos old
    → t.quota ≡ pos q
    → 0 < q
    → length (buckets_of t.id db) ≡ effective_buckets row.bucket_count
    → (db' : EventDb) × (update_tier t db ≡ some db')
      × (total_available (buckets_of t.id db')
          ≡ stock_after old q (total_available (buckets_of t.id db)))
unfolding update_tier
update_tier-stock t row q old db at hold hq some_quota hl =
    let bs =
      restocked (record t { bucket_count = row.bucket_count }) row.quota (buckets_of t.id db) in
    (
      record db { tiers = set_tier_row t db.tiers; inventory = insert t.id bs db.inventory },
      rw (at, update_tier),
      rw (lookup-insert_self t.id bs db.inventory, total_available, buckets_of)
          (rw hold (
            total-restocked (record t { bucket_count = row.bucket_count }) q old
              (buckets_of t.id db) hq some_quota hl)),
    )
