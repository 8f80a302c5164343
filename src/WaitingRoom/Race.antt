-- ===== src/WaitingRoom/Race.antt =====
-- services/waitingroom/internal/app/admit_controller.go: an operator's SetRateOverride while `adjust`
-- runs. Each step is one access to the atomic `rate` or `override`; a schedule says whose step is next.
use even_flow.Prelude.{ℕ, Bool, true, false, List, [], ◌∷◌, nat_eq, if◌then◌else◌}

-- Where `adjust` stands: before it reads the rate, before it reads the flag, before it swaps, or done.
pub data AdjustAt : Type 0 where
  starts finished : AdjustAt
  loaded checked : ℕ → AdjustAt

-- Where SetRateOverride stands: before it sets the flag, before it stores the rate, or done.
pub data OpsAt : Type 0 where
  idle flagged stored : OpsAt

pub record Shared : Type 0 where
  pub rate : ℕ
  pub overridden : Bool
  pub adjust_at : AdjustAt
  pub ops_at : OpsAt

-- `next` is the rate that `adjust` computes, `target` the one that the operator sets.
module _ (next : ℕ → ℕ) (target : ℕ) where
  adjust_from : AdjustAt → Shared → Shared
  adjust_from AdjustAt.starts s = record s { adjust_at = AdjustAt.loaded s.rate }
  adjust_from (AdjustAt.loaded old) s = record s {
    adjust_at = if s.overridden then AdjustAt.finished else AdjustAt.checked old;
  }
  adjust_from (AdjustAt.checked old) s = record s {
    rate = if nat_eq s.rate old then next old else s.rate;
    adjust_at = AdjustAt.finished;
  }
  adjust_from AdjustAt.finished s = s

  ops_from : OpsAt → Shared → Shared
  ops_from OpsAt.idle s = record s { overridden = true; ops_at = OpsAt.flagged }
  ops_from OpsAt.flagged s = record s { rate = target; ops_at = OpsAt.stored }
  ops_from OpsAt.stored s = s

  unfoldable pub adjust_step : Shared → Shared
  unfolding adjust_from
  adjust_step s = adjust_from s.adjust_at s

  unfoldable pub ops_step : Shared → Shared
  unfolding ops_from
  ops_step s = ops_from s.ops_at s

  -- A schedule: `true` for a step of the operator, `false` for one of `adjust`.
  unfoldable pub race : List Bool → Shared → Shared
  race [] s = s
  race (true ∷ turns) s = race turns (ops_step s)
  race (false ∷ turns) s = race turns (adjust_step s)

abbrev pub before_race : ℕ → Shared
before_race rate = record {
  rate = rate;
  overridden = false;
  adjust_at = AdjustAt.starts;
  ops_at = OpsAt.idle;
}
