-- ===== src/WaitingRoom/Position.antt =====
-- services/waitingroom/internal/domain/position.go: what a waiting buyer is told. Durations are
-- milliseconds.
use even_flow.Prelude.{ℕ, ◌+◌, ◌*◌, ◌/◌, Bool, not, ◌||◌, if◌then◌else◌}
use even_flow.Prelude.Int.{ℤ, pos, negsuc, pos_part, leb_ℤ, ltb_ℤ}
use even_flow.WaitingRoom.Float.{Float}

pub data State : Type 0 where
  lobby queued admitted expired sold_out unknown : State

pub record Position (R : Type 0) : Type 0 where
  pub state : State
  pub rank : ℤ
  pub queue_depth : ℤ
  pub admit_rate : R
  pub eta_seconds : ℤ
  pub poll_after_ms : ℕ
  pub expires_at : ℤ

abbrev pub poll_near : ℕ
poll_near = 3000

abbrev pub poll_mid : ℕ
poll_mid = 10000

abbrev pub poll_far : ℕ
poll_far = 30000

abbrev pub poll_lobby : ℕ
poll_lobby = 15000

unfoldable pub poll_interval : State → ℤ → ℕ
poll_interval State.lobby rank = poll_lobby
poll_interval State.admitted rank = poll_near
poll_interval State.expired rank = poll_near
poll_interval State.sold_out rank = poll_far
poll_interval State.queued rank =
    if leb_ℤ rank (pos 0) || ltb_ℤ rank (pos 500)
    then poll_near
    else if ltb_ℤ rank (pos 10000)
    then poll_mid
    else poll_far
poll_interval State.unknown rank = poll_far

-- `((eta + round - 1) / round) * round` with rounds of 15 seconds
abbrev pub round_up : ℕ → ℕ
round_up eta = (eta + 14) / 15 * 15

-- `least` is the lowest rate for which an estimate is made.
module _ (F : Float) (least : F.Carrier) where
  -- `admitRate < minAdmitRate`, of numbers
  abbrev pub is_slow : F.Carrier → Bool
  is_slow admit_rate = not (F.le least admit_rate)

  -- `float64(rank) / admitRate`, for a rank that is positive
  abbrev pub wait_of : ℤ → F.Carrier → F.Carrier
  wait_of rank admit_rate = F.div (F.of_nat (pos_part rank)) admit_rate

  unfoldable pub estimate_eta : ℤ → F.Carrier → ℤ
  estimate_eta rank admit_rate =
      if leb_ℤ rank (pos 0) || is_slow admit_rate
      then negsuc 0
      else pos (round_up (F.to_nat (wait_of rank admit_rate)))

  unfoldable pub build : State → ℤ → ℤ → F.Carrier → ℤ → Position F.Carrier
  build state rank depth admit_rate expires_at = record {
    state = state;
    rank = rank;
    queue_depth = depth;
    admit_rate = admit_rate;
    eta_seconds = estimate_eta rank admit_rate;
    poll_after_ms = poll_interval state rank;
    expires_at = expires_at;
  }
