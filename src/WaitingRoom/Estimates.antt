-- ===== src/WaitingRoom/Estimates.antt =====
-- What services/waitingroom/internal/domain/position.go tells a waiting buyer.
use even_flow.Prelude.{ℕ, suc, ◌-◌, ◌%◌, ◌≡◌, true, false}
use even_flow.WaitingRoom.Float.{Float}

module _ (F : Float) (least : F.Carrier) (positive : F.le least F.zero_rate ≡ false) where
  -- A multiple of 15 seconds against a wait: less than a second below it, and at most 14 above.
  abbrev pub IsEstimate : ℕ → F.Carrier → Type 0
  IsEstimate n wait =
      (n % 15 ≡ 0) × (F.le (F.of_nat (suc n)) wait ≡ false) × (F.le (F.of_nat (n - 14)) wait ≡ true)
