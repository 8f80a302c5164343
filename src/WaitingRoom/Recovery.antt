-- ===== src/WaitingRoom/Recovery.antt =====
-- The admission controller comes back to full speed (services/waitingroom/internal/app/
-- admit_controller.go): after a finite number of healthy ticks the rate is the maximum.
use even_flow.Prelude.{
  ℕ, zero, suc, ◌+◌, ◌-◌, ◌≤◌, ◌≡◌, refl, ◌⊎◌, inl, inr, true, false, some, none, Bool-cases, List,
  [], ◌∷◌, arith, length, All,
}
use even_flow.Prelude.Int.{ℤ, pos, ◌-ℤ◌}
use even_flow.WaitingRoom.Float.{Float, clamp, max_ge, min_cases}
use even_flow.WaitingRoom.Controller.{
  Controller, AdmitConfig, failed, got, StoredOverride, TickAnswers, next_raw, after_swap, adjust,
  is_healthy_answer, decide, sync_override, tick,
}
use even_flow.WaitingRoom.Rates.{IsValid, highest, next_raw_le}

module _ (F : Float) (cfg : AdmitConfig F) where
  -- A step up is worth at least a thousandth, up to the maximum.
  abbrev pub StepsUp : Type 0
  StepsUp =
      (n : ℕ)
      → n ≤ highest F cfg
      → (F.le F.zero_rate (F.add (F.of_milli n) cfg.step_up) ≡ true)
        × (suc n ≤ F.to_milli (F.add (F.of_milli n) cfg.step_up))

  next_raw_rises :
      (n : ℕ)
      → IsValid F cfg
      → StepsUp
      → n ≤ highest F cfg
      → (suc n ≤ next_raw F cfg true n) ⊎ (highest F cfg ≤ next_raw F cfg true n)
  unfolding next_raw clamp
  next_raw_rises n (floor, ends) steps h =
      let v = F.add (F.of_milli n) cfg.step_up in
      let (above, more) = steps n h in
      let ceiling = F.le_trans F.zero_rate cfg.min_rate cfg.max_rate floor ends in
      elim (min_cases F cfg.max_rate v) [
        | inl capped ↦ inr (
            rw (capped, next_raw, clamp)
              (F.to_milli_mono cfg.max_rate _ ceiling (max_ge F cfg.min_rate cfg.max_rate)))
        | inr below ↦ inl (
            rw (below, next_raw, clamp)
              (let mono = F.to_milli_mono v _ above (max_ge F cfg.min_rate v) in
                omega (arith, more, mono)))
      ]

  -- The store sets no rate: there is none, it fails, or it answers that no override is in force.
  abbrev pub IsSilent : TickAnswers F → Type 0
  IsSilent a = (r : F.Carrier) → a.stored ≡ some (got (some r)) → ⊥

  adjust_cools :
      (c : Controller) (k : ℕ) {n : ℕ}
      → c.cooldown ≡ pos (suc k)
      → c.rate ≡ n
      → c.overridden ≡ false
      → ((adjust F cfg true c).0.rate ≡ n)
        × ((adjust F cfg true c).0.cooldown ≡ pos k)
        × ((adjust F cfg true c).0.overridden ≡ false)
  unfolding adjust ◌-ℤ◌
  adjust_cools c k e r free =
      (ground (arith, e, r, free), ground (arith, e, r, free), ground (arith, e, r, free))

  adjust_climbs :
      (c : Controller) {n : ℕ}
      → c.cooldown ≡ pos zero
      → c.rate ≡ n
      → c.overridden ≡ false
      → n ≤ next_raw F cfg true n
      → ((adjust F cfg true c).0.rate ≡ next_raw F cfg true n)
        × ((adjust F cfg true c).0.cooldown ≡ pos zero)
        × ((adjust F cfg true c).0.overridden ≡ false)
  unfolding adjust after_swap
  adjust_climbs c e r free up = (
    ground (arith, e, r, free, up),
    ground (arith, e, r, free, up),
    ground (arith, e, r, free, up),
  )

  sync_silent :
      (o : StoredOverride F) (c : Controller)
      → ((r : F.Carrier) → o ≡ some (got (some r)) → ⊥)
      → c.overridden ≡ false
      → ((sync_override F cfg o c).rate ≡ c.rate)
        × ((sync_override F cfg o c).cooldown ≡ c.cooldown)
        × ((sync_override F cfg o c).overridden ≡ false)
  unfolding sync_override
  sync_silent none c silent free = (refl, refl, free)
  sync_silent (some failed) c silent free = (refl, refl, free)
  sync_silent (some (got (some r))) c silent free = elim (silent r refl) [ ]
  sync_silent (some (got none)) c silent free = elim (Bool-cases c.override_from_store) [
    | inl mine ↦ rw mine (refl, refl, refl)
    | inr other ↦ rw other (refl, refl, free)
  ]

  -- A tick whose store sets no rate, on a controller that no operator holds.
  module _ (a : TickAnswers F) (c : Controller) (silent : IsSilent a)
      (healthy : is_healthy_answer F cfg a.health ≡ true) (free : c.overridden ≡ false) where
    decide_free : decide F cfg a c ≡ adjust F cfg true (sync_override F cfg a.stored c)
    unfolding decide
    decide_free = rw ((sync_silent a.stored c silent free).2) (rw healthy refl)

    tick_cools :
        (k : ℕ)
        → c.cooldown ≡ pos (suc k)
        → ((decide F cfg a c).0.rate ≡ c.rate)
          × ((decide F cfg a c).0.cooldown ≡ pos k)
          × ((decide F cfg a c).0.overridden ≡ false)
    tick_cools k e =
        let (rate, cool, held) = sync_silent a.stored c silent free in
        rw decide_free (adjust_cools (sync_override F cfg a.stored c) k (rw cool e) rate held)

    tick_climbs :
        c.cooldown ≡ pos zero
        → c.rate ≤ next_raw F cfg true c.rate
        → ((decide F cfg a c).0.rate ≡ next_raw F cfg true c.rate)
          × ((decide F cfg a c).0.cooldown ≡ pos zero)
          × ((decide F cfg a c).0.overridden ≡ false)
    tick_climbs e up =
        let (rate, cool, held) = sync_silent a.stored c silent free in
        rw decide_free (adjust_climbs (sync_override F cfg a.stored c) (rw cool e) rate held up)

  module _ (batch_of : ℕ → ℤ) where
    unfoldable pub tick_all : List (TickAnswers F) → Controller → Controller
    tick_all [] c = c
    tick_all (a ∷ rest) c = tick_all rest (tick F batch_of cfg a c).0

    -- The store sets no rate and the services are healthy.
    abbrev pub IsGood : TickAnswers F → Type 0
    IsGood a = IsSilent a × (is_healthy_answer F cfg a.health ≡ true)

    -- With 0 <= min <= max and steps of at least a thousandth, a controller that no operator holds
    -- reaches the maximum rate after as many healthy ticks in which the store sets no rate as its
    -- cooldown and the thousandths that it lacks, and keeps it for as long as the ticks are such.
    pub healthy_reaches_max :
        (rest : List (TickAnswers F)) (c : Controller) (k : ℕ)
        → IsValid F cfg
        → StepsUp
        → All IsGood rest
        → c.overridden ≡ false
        → c.cooldown ≡ pos k
        → c.rate ≤ highest F cfg
        → k + (highest F cfg - c.rate) ≤ length rest
        → (tick_all rest c).rate ≡ highest F cfg
    unfolding tick_all tick
    healthy_reaches_max [] c k v steps good free cool h enough = omega arith
    healthy_reaches_max (a ∷ rest) c zero v steps good free cool h enough =
        let rises = next_raw_rises c.rate v steps h in
        let top = next_raw_le F cfg true c.rate v in
        let (rate, cool', free') =
          tick_climbs a c good.0.0 good.0.1 free cool (ground (arith, rises, h)) in
        healthy_reaches_max rest (decide F cfg a c).0 zero v steps good.1 free' cool'
          (omega (arith, rate, top)) (ground (arith, rate, rises, top, enough))
    healthy_reaches_max (a ∷ rest) c (suc k) v steps good free cool h enough =
        let (rate, cool', free') = tick_cools a c good.0.0 good.0.1 free k cool in
        healthy_reaches_max rest (decide F cfg a c).0 k v steps good.1 free' cool' (rw rate h)
          (rw rate (omega (arith, enough)))
