-- ===== src/WaitingRoom/Examples.antt =====
-- Tests of the waiting room, and its theorems at concrete values. The rates are numbers of thousandths.
use even_flow.Prelude.{
  ℕ, suc, ◌+◌, ◌*◌, ◌/◌, ◌≤◌, ◌≡◌, refl, true, false, none, some, List, [], ◌∷◌, arith, leb,
  string_Eq,
}
use even_flow.Prelude.Int.{ℤ, pos}
use even_flow.WaitingRoom.Float.{Float, clamp, min, max}
use even_flow.WaitingRoom.Controller.{
  Controller, AdmitConfig, got, failed, TickAnswers, Event, ticks, sets, restores, clears,
  new_admit_controller, set_rate_override, next_raw, after_swap, is_healthy, happen_all, adjust,
}
use even_flow.WaitingRoom.Race.{race, adjust_step, ops_step, before_race}
use even_flow.WaitingRoom.Rates.{highest, lowest, NoRateSet}
use even_flow.WaitingRoom.Recovery.{tick_all, StepsUp, healthy_reaches_max}
use even_flow.WaitingRoom.Override.{override_wins, override_is_kept}
use even_flow.WaitingRoom.Config.{validate, validated_rate_within}
use even_flow.WaitingRoom.Supervisor.{Supervisor}

milli_total : (a b : ℕ) → leb a b ≡ false → leb b a ≡ true
milli_total a b h = ground (arith, h)

milli_trans : (a b c : ℕ) → leb a b ≡ true → leb b c ≡ true → leb a c ≡ true
milli_trans a b c h k = ground (arith, h, k)

milli_refl : (a : ℕ) → leb a a ≡ true
milli_refl a = ground arith

milli_mono : (a b : ℕ) → leb 0 a ≡ true → leb a b ≡ true → a ≤ b
milli_mono a b h k = ground (arith, k)

milli_of_mono : (m n : ℕ) → m ≤ n → leb (m * 1000) (n * 1000) ≡ true
milli_of_mono m n h = ground (arith, h)

milli_nonneg : (n : ℕ) → leb 0 n ≡ true
milli_nonneg n = ground arith

milli_cut : (v : ℕ) → leb (v / 1000 * 1000) v ≡ true
milli_cut v = ground arith

milli_cut_suc : (v : ℕ) → leb (suc (v / 1000) * 1000) v ≡ false
milli_cut_suc v = ground arith

abbrev milli : Float
milli = record {
  Carrier = ℕ;
  le = leb;
  add = ◌+◌;
  mul = λ a b. a * b / 1000;
  zero_rate = 0;
  of_milli = λ n. n;
  to_milli = λ n. n;
  of_nat = λ n. n * 1000;
  div = λ a b. a * 1000 / b;
  to_nat = λ v. v / 1000;
  le_refl = milli_refl;
  le_total = milli_total;
  le_trans = milli_trans;
  to_milli_mono = milli_mono;
  of_nat_mono = milli_of_mono;
  of_nat_nonneg = λ n. milli_nonneg (n * 1000);
  div_nonneg = λ a b h k. milli_nonneg (a * 1000 / b);
  to_nat_le = λ v h. milli_cut v;
  to_nat_suc = λ v h. milli_cut_suc v;
}

-- The default configuration.
abbrev cfg : AdmitConfig milli
cfg = record {
  min_rate = 5000;
  max_rate = 500000;
  step_up = 10000;
  backoff = 700;
  p99_budget = 800;
  error_budget = 20;
  pool_budget = 800;
  decrease_cooldown = pos 5;
}

abbrev well : TickAnswers milli
well = record {
  stored = none;
  health = got (record { checkout_p99 = 100; error_rate = 0; db_pool_usage = 100 });
  rate_taken = true;
  admit_taken = true;
}

-- The store answers that no override is in force.
abbrev asked : TickAnswers milli
asked = record well { stored = some (got none) }

abbrev blind : TickAnswers milli
blind = record { stored = none; health = failed; rate_taken = true; admit_taken = true }

abbrev batch_of : ℕ → ℤ
batch_of n = pos ((n + 500) / 1000)

abbrev day : List (Event milli batch_of)
day =
    restores (some (got (some 900000)))
    ∷ ticks well
    ∷ sets 0
    ∷ ticks blind
    ∷ clears
    ∷ ticks well
    ∷ []

-- After a decrease the controller waits, then climbs.
falls_and_waits :
    (adjust milli cfg false (record {
      rate = 100000;
      cooldown = pos 0;
      override_from_store = false;
      overridden = false;
    })).0
    ≡ record { rate = 70000; cooldown = pos 5; override_from_store = false; overridden = false }
unfolding adjust next_raw clamp min max after_swap
falls_and_waits = refl

-- An operator who sets the rate that the adjustment has just read loses to it.
same_rate_loses :
    (race (λ n. n + 10) 100 (false ∷ false ∷ true ∷ true ∷ false ∷ []) (before_race 100)).rate ≡ 110
unfolding race adjust_step ops_step
same_rate_loses = refl

validated_rate_within_example :
    let c' = happen_all milli batch_of cfg day (new_admit_controller milli cfg) in
    (c'.rate ≤ highest milli cfg) × (NoRateSet milli cfg batch_of day → lowest milli cfg ≤ c'.rate)
validated_rate_within_example =
    validated_rate_within milli 1000 cfg (pos 900) batch_of day (unfold validate in refl)

abbrev near_top : Controller
near_top = record {
  rate = 499998;
  cooldown = pos 1;
  override_from_store = false;
  overridden = false;
}

steps : StepsUp milli cfg
steps n h = (ground arith, ground arith)

healthy_reaches_max_example :
    (tick_all milli cfg batch_of (well ∷ asked ∷ well ∷ []) near_top).rate ≡ highest milli cfg
healthy_reaches_max_example =
    healthy_reaches_max milli cfg batch_of (well ∷ asked ∷ well ∷ []) near_top 1 (refl, refl) steps
      (
        (λ r e. cc, unfold is_healthy in refl),
        ((λ r e. cc, unfold is_healthy in refl), ((λ r e. cc, unfold is_healthy in refl), tt)),
      )
      refl refl (omega arith) (omega arith)

override_wins_example :
    let s = race (λ n. n + 10) 0 (false ∷ false ∷ true ∷ false ∷ true ∷ []) (before_race 100) in
    (s.rate ≡ 0) × (s.overridden ≡ true)
override_wins_example =
    override_wins (λ n. n + 10) 0 100 (false ∷ false ∷ true ∷ false ∷ true ∷ []) refl
      (unfold race adjust_step ops_step in refl)

override_is_kept_example :
    (tick_all milli cfg batch_of (well ∷ blind ∷ []) (set_rate_override milli cfg 0 near_top)).rate
    ≡ clamp milli 0 0 500000
override_is_kept_example =
    override_is_kept milli cfg batch_of 0 near_top (well ∷ blind ∷ []) (λ r e. cc, (λ r e. cc, tt))
      refl

abbrev two_running : Supervisor
two_running = record { running = ("a", 0) ∷ ("b", 1) ∷ []; next_start = 2; cancelled = [] }
