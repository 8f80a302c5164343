-- ===== src/WaitingRoom/Rates.antt =====
-- Bounds on the rate of the admission controller (services/waitingroom/internal/app/
-- admit_controller.go), and how it recovers.
use even_flow.Prelude.{
  ℕ, ◌≤◌, ◌≡◌, refl, inl, inr, Bool, true, Option, none, some, List, [], ◌∷◌, arith, ltb,
  Bool-cases,
}
use even_flow.Prelude.Int.{ℤ, pos, ltb_ℤ}
use even_flow.WaitingRoom.Float.{Float, clamp, clamp_ge, clamp_le}
use even_flow.WaitingRoom.Controller.{
  Controller, AdmitConfig, Answer, failed, got, StoredOverride, TickAnswers, Event, ticks, sets,
  restores, clears, new_admit_controller, set_rate, set_rate_override, restore, clear_rate_override,
  sync_override, next_raw, after_swap, adjust, is_healthy_answer, decide, tick, happen, happen_all,
}

module _ (F : Float) (cfg : AdmitConfig F) where
  -- What the configuration check admits of the two ends: 0 < min <= max.
  abbrev pub IsValid : Type 0
  IsValid = (F.le F.zero_rate cfg.min_rate ≡ true) × (F.le cfg.min_rate cfg.max_rate ≡ true)

  abbrev pub lowest : ℕ
  lowest = F.to_milli cfg.min_rate

  abbrev pub highest : ℕ
  highest = F.to_milli cfg.max_rate

  next_raw_ge : (healthy : Bool) (old : ℕ) → IsValid → lowest ≤ next_raw F cfg healthy old
  unfolding next_raw
  next_raw_ge healthy old (floor, ends) =
      F.to_milli_mono cfg.min_rate _ floor (clamp_ge F _ cfg.min_rate cfg.max_rate)

  pub next_raw_le : (healthy : Bool) (old : ℕ) → IsValid → next_raw F cfg healthy old ≤ highest
  unfolding next_raw
  next_raw_le healthy old (floor, ends) =
      F.to_milli_mono _ cfg.max_rate
        (F.le_trans F.zero_rate cfg.min_rate _ floor (clamp_ge F _ cfg.min_rate cfg.max_rate))
        (clamp_le F _ cfg.min_rate cfg.max_rate ends)

  set_rate_override_le :
      (r : F.Carrier) (c : Controller) → IsValid → (set_rate_override F cfg r c).rate ≤ highest
  unfolding set_rate_override set_rate
  set_rate_override_le r c (floor, ends) =
      let ceiling = F.le_trans F.zero_rate cfg.min_rate cfg.max_rate floor ends in
      F.to_milli_mono _ cfg.max_rate (clamp_ge F r F.zero_rate cfg.max_rate)
        (clamp_le F r F.zero_rate cfg.max_rate ceiling)

  restore_cases :
      (P : ℕ → Type 0) (stored : Option (Answer (Option F.Carrier))) (c : Controller)
      → P c.rate
      → ((r : F.Carrier) → P (F.to_milli (clamp F r cfg.min_rate cfg.max_rate)))
      → P (restore F cfg stored c).rate
  unfolding restore set_rate
  restore_cases P none c same set = same
  restore_cases P (some failed) c same set = same
  restore_cases P (some (got none)) c same set = same
  restore_cases P (some (got (some r))) c same set = elim (Bool-cases (F.le r F.zero_rate)) [
    | inl blank ↦ rw blank same
    | inr stored ↦ rw stored (set r)
  ]

  clamped_ge : (r : F.Carrier) → IsValid → lowest ≤ F.to_milli (clamp F r cfg.min_rate cfg.max_rate)
  clamped_ge r (floor, ends) =
      F.to_milli_mono cfg.min_rate _ floor (clamp_ge F r cfg.min_rate cfg.max_rate)

  clamped_le :
      (r : F.Carrier) → IsValid → F.to_milli (clamp F r cfg.min_rate cfg.max_rate) ≤ highest
  clamped_le r (floor, ends) =
      F.to_milli_mono _ cfg.max_rate
        (F.le_trans F.zero_rate cfg.min_rate _ floor (clamp_ge F r cfg.min_rate cfg.max_rate))
        (clamp_le F r cfg.min_rate cfg.max_rate ends)

  -- What a step of the automatic adjustment makes of the rate.
  adjust_rate_cases :
      (P : ℕ → Type 0) (healthy : Bool) (c : Controller)
      → P c.rate
      → P (next_raw F cfg healthy c.rate)
      → P (adjust F cfg healthy c).0.rate
  unfolding adjust after_swap
  adjust_rate_cases P healthy c same next = elim (Bool-cases (ltb_ℤ (pos 0) c.cooldown)) [
    | inl cooling ↦ rw cooling same
    | inr ready ↦ elim (Bool-cases c.overridden) [
      | inl held ↦ rw ready (rw (held, adjust) same)
      | inr free ↦ elim (Bool-cases (ltb (next_raw F cfg healthy c.rate) c.rate)) [
        | inl falls ↦ rw ready (rw (free, adjust) (rw falls next))
        | inr rises ↦ rw ready (rw (free, adjust) (rw rises next))
      ]
    ]
  ]

  -- What the operators' store makes of the rate.
  sync_override_rate_cases :
      (P : ℕ → Type 0) (o : StoredOverride F) (c : Controller)
      → P c.rate
      → ((r : F.Carrier) → o ≡ some (got (some r)) → P (set_rate_override F cfg r c).rate)
      → P (sync_override F cfg o c).rate
  unfolding sync_override
  sync_override_rate_cases P none c same set = same
  sync_override_rate_cases P (some failed) c same set = same
  sync_override_rate_cases P (some (got (some r))) c same set = set r refl
  sync_override_rate_cases P (some (got none)) c same set =
      elim (Bool-cases c.override_from_store) [
        | inl mine ↦ rw mine same
        | inr other ↦ rw other same
      ]

  decide_rate_cases :
      (P : ℕ → Type 0) (a : TickAnswers F) (c : Controller)
      → P c.rate
      → ((r : F.Carrier) → a.stored ≡ some (got (some r)) → P (set_rate_override F cfg r c).rate)
      → ((healthy : Bool) (old : ℕ) → P old → P (next_raw F cfg healthy old))
      → P (decide F cfg a c).0.rate
  unfolding decide
  decide_rate_cases P a c same set next =
      let synced = sync_override_rate_cases P a.stored c same set in
      elim (Bool-cases (sync_override F cfg a.stored c).overridden) [
        | inl held ↦ rw (held, decide) synced
        | inr free ↦
            rw (free, decide)
              (adjust_rate_cases P (is_healthy_answer F cfg a.health) _ synced (next _ _ synced))
      ]

  module _ (batch_of : ℕ → ℤ) where
    happen_le :
        (e : Event F batch_of) (c : Controller)
        → IsValid
        → c.rate ≤ highest
        → (happen F batch_of cfg e c).rate ≤ highest
    unfolding happen tick clear_rate_override
    happen_le (ticks a) c v h =
        decide_rate_cases (λ n. n ≤ highest) a c h (λ r e. set_rate_override_le r c v)
          λ healthy old l. next_raw_le healthy old v
    happen_le (sets r) c v h = set_rate_override_le r c v
    happen_le (restores stored) c v h =
        restore_cases (λ n. n ≤ highest) stored c h (λ r. clamped_le r v)
    happen_le clears c v h = h

    happen_all_le :
        (es : List (Event F batch_of)) (c : Controller)
        → IsValid
        → c.rate ≤ highest
        → (happen_all F batch_of cfg es c).rate ≤ highest
    unfolding happen_all
    happen_all_le [] c v h = h
    happen_all_le (e ∷ es) c v h =
        happen_all_le es (happen F batch_of cfg e c) v (happen_le e c v h)

    -- No operator sets a rate: no call does, and no tick finds one in the store.
    abbrev pub NoRateSet : List (Event F batch_of) → Type 0
    NoRateSet [] = Unit
    NoRateSet (ticks a ∷ es) = ((r : F.Carrier) → a.stored ≡ some (got (some r)) → ⊥) × NoRateSet es
    NoRateSet (sets r ∷ es) = ⊥
    NoRateSet (restores stored ∷ es) = NoRateSet es
    NoRateSet (clears ∷ es) = NoRateSet es

    happen_all_ge :
        (es : List (Event F batch_of)) (c : Controller)
        → IsValid
        → NoRateSet es
        → lowest ≤ c.rate
        → lowest ≤ (happen_all F batch_of cfg es c).rate
    unfolding happen_all happen tick clear_rate_override
    happen_all_ge [] c v q h = h
    happen_all_ge (ticks a ∷ es) c v q h = happen_all_ge es (decide F cfg a c).0 v q.1 (
        decide_rate_cases (λ n. lowest ≤ n) a c h (λ r e. elim (q.0 r e) [ ])
          λ healthy old l. next_raw_ge healthy old v)
    happen_all_ge (sets r ∷ es) c v q h = elim q [ ]
    happen_all_ge (restores stored ∷ es) c v q h =
        happen_all_ge es (restore F cfg stored c) v q
          (restore_cases (λ n. lowest ≤ n) stored c h (λ r. clamped_ge r v))
    happen_all_ge (clears ∷ es) c v q h = happen_all_ge es (clear_rate_override F c) v q h

    -- Whatever the health of the services, the store, the rate that the last leader left and the operators do, the rate never exceeds
    -- the configured maximum; and unless an operator sets a rate it never falls below the minimum.
    -- The configuration has 0 <= min <= max.
    pub rate_within :
        (es : List (Event F batch_of))
        → IsValid
        → let c = happen_all F batch_of cfg es (new_admit_controller F cfg) in
          (c.rate ≤ highest) × (NoRateSet es → lowest ≤ c.rate)
    unfolding new_admit_controller
    rate_within es v = (
      happen_all_le es (new_admit_controller F cfg) v
          (F.to_milli_mono cfg.min_rate cfg.max_rate v.0 v.1),
      λ q. happen_all_ge es (new_admit_controller F cfg) v q (omega arith),
    )
