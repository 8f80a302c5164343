-- ===== src/WaitingRoom/Override.antt =====
-- The operators' override of the admission rate (services/waitingroom/internal/app/
-- admit_controller.go): it wins against an adjustment that runs at the same time, and it is kept.
use even_flow.Prelude.{
  ℕ, ◌≡◌, refl, Bool, true, false, none, some, List, [], ◌∷◌, arith, nat_eq, All,
}
use even_flow.Prelude.Int.{ℤ}
use even_flow.WaitingRoom.Float.{Float, clamp}
use even_flow.WaitingRoom.Controller.{
  Controller, AdmitConfig, failed, got, StoredOverride, TickAnswers, set_rate, set_rate_override,
  sync_override, decide, tick,
}
use even_flow.WaitingRoom.Recovery.{tick_all}
use even_flow.WaitingRoom.Race.{AdjustAt, OpsAt, Shared, adjust_step, ops_step, race, before_race}

module _ (next : ℕ → ℕ) (target initial : ℕ) where
  -- The rate that `adjust` has read, if it can still swap it.
  abbrev Read : AdjustAt → Type 0
  Read (AdjustAt.checked old) = old ≡ initial
  Read _ = Unit

  abbrev ReadIdle : ℕ → AdjustAt → Type 0
  ReadIdle rate AdjustAt.starts = rate ≡ initial
  ReadIdle rate (AdjustAt.loaded old) = old ≡ initial
  ReadIdle rate (AdjustAt.checked old) = old ≡ initial
  ReadIdle rate AdjustAt.finished = Unit

  abbrev InvAt : ℕ → Bool → AdjustAt → OpsAt → Type 0
  InvAt rate overridden at OpsAt.idle = ReadIdle rate at
  InvAt rate overridden at OpsAt.flagged = (overridden ≡ true) × Read at
  InvAt rate overridden at OpsAt.stored = (overridden ≡ true) × (rate ≡ target) × Read at

  abbrev RaceInv : Shared → Type 0
  RaceInv s = InvAt s.rate s.overridden s.adjust_at s.ops_at

  abbrev shared : ℕ → Bool → AdjustAt → OpsAt → Shared
  shared rate overridden at ops = record {
    rate = rate;
    overridden = overridden;
    adjust_at = at;
    ops_at = ops;
  }

  adjust_step-RaceInv :
      (rate : ℕ) (overridden : Bool) (at : AdjustAt) (ops : OpsAt)
      → nat_eq target initial ≡ false
      → InvAt rate overridden at ops
      → RaceInv (adjust_step next target (shared rate overridden at ops))
  unfolding adjust_step
  adjust_step-RaceInv rate overridden AdjustAt.starts OpsAt.idle ne v = v
  adjust_step-RaceInv rate overridden AdjustAt.starts OpsAt.flagged ne v = v
  adjust_step-RaceInv rate overridden AdjustAt.starts OpsAt.stored ne v = v
  adjust_step-RaceInv rate true (AdjustAt.loaded old) OpsAt.idle ne v = tt
  adjust_step-RaceInv rate false (AdjustAt.loaded old) OpsAt.idle ne v = v
  adjust_step-RaceInv rate true (AdjustAt.loaded old) OpsAt.flagged ne v = (refl, tt)
  adjust_step-RaceInv rate false (AdjustAt.loaded old) OpsAt.flagged ne v = cc
  adjust_step-RaceInv rate true (AdjustAt.loaded old) OpsAt.stored ne v = (refl, v.1, tt)
  adjust_step-RaceInv rate false (AdjustAt.loaded old) OpsAt.stored ne v = cc
  adjust_step-RaceInv rate overridden (AdjustAt.checked old) OpsAt.idle ne v = tt
  adjust_step-RaceInv rate overridden (AdjustAt.checked old) OpsAt.flagged ne v = (v.0, tt)
  adjust_step-RaceInv rate overridden (AdjustAt.checked old) OpsAt.stored ne v =
      (v.0, ground (arith, ne, v.1, v.2), tt)
  adjust_step-RaceInv rate overridden AdjustAt.finished OpsAt.idle ne v = v
  adjust_step-RaceInv rate overridden AdjustAt.finished OpsAt.flagged ne v = v
  adjust_step-RaceInv rate overridden AdjustAt.finished OpsAt.stored ne v = v

  ops_step-RaceInv :
      (rate : ℕ) (overridden : Bool) (at : AdjustAt) (ops : OpsAt)
      → InvAt rate overridden at ops
      → RaceInv (ops_step next target (shared rate overridden at ops))
  unfolding ops_step
  ops_step-RaceInv rate overridden AdjustAt.starts OpsAt.idle v = (refl, tt)
  ops_step-RaceInv rate overridden (AdjustAt.loaded old) OpsAt.idle v = (refl, tt)
  ops_step-RaceInv rate overridden (AdjustAt.checked old) OpsAt.idle v = (refl, v)
  ops_step-RaceInv rate overridden AdjustAt.finished OpsAt.idle v = (refl, tt)
  ops_step-RaceInv rate overridden at OpsAt.flagged v = (v.0, refl, v.1)
  ops_step-RaceInv rate overridden at OpsAt.stored v = v

  race-RaceInv :
      (turns : List Bool) (s : Shared)
      → nat_eq target initial ≡ false
      → RaceInv s
      → RaceInv (race next target turns s)
  unfolding race
  race-RaceInv [] s ne v = v
  race-RaceInv (true ∷ turns) s ne v =
      race-RaceInv turns (ops_step next target s) ne
        (ops_step-RaceInv s.rate s.overridden s.adjust_at s.ops_at v)
  race-RaceInv (false ∷ turns) s ne v =
      race-RaceInv turns (adjust_step next target s) ne
        (adjust_step-RaceInv s.rate s.overridden s.adjust_at s.ops_at ne v)

  stored-rate :
      (rate : ℕ) (overridden : Bool) (at : AdjustAt) (ops : OpsAt)
      → InvAt rate overridden at ops
      → ops ≡ OpsAt.stored
      → (rate ≡ target) × (overridden ≡ true)
  stored-rate rate overridden at OpsAt.idle v e = cc
  stored-rate rate overridden at OpsAt.flagged v e = cc
  stored-rate rate overridden at OpsAt.stored v e = (v.1, v.0)

  -- However the steps of SetRateOverride and of an adjustment interleave, once SetRateOverride is done
  -- the rate is the operator's, whatever the adjustment computed, and stays so; the operator's rate
  -- must differ from the rate before the race.
  pub override_wins :
      (turns : List Bool)
      → nat_eq target initial ≡ false
      → let s = race next target turns (before_race initial) in
        s.ops_at ≡ OpsAt.stored → (s.rate ≡ target) × (s.overridden ≡ true)
  override_wins turns ne done =
      let s = race next target turns (before_race initial) in
      stored-rate s.rate s.overridden s.adjust_at s.ops_at
        (race-RaceInv turns (before_race initial) ne refl) done

module _ (F : Float) (cfg : AdmitConfig F) (batch_of : ℕ → ℤ) where
  -- No override is in the store at this tick, or the store cannot be read.
  abbrev pub IsSilent : TickAnswers F → Type 0
  IsSilent a = (r : F.Carrier) → a.stored ≡ some (got (some r)) → ⊥

  sync_override_keeps :
      (o : StoredOverride F) (c : Controller)
      → ((r : F.Carrier) → o ≡ some (got (some r)) → ⊥)
      → c.override_from_store ≡ false
      → sync_override F cfg o c ≡ c
  unfolding sync_override
  sync_override_keeps none c silent own = refl
  sync_override_keeps (some failed) c silent own = refl
  sync_override_keeps (some (got none)) c silent own = rw own refl
  sync_override_keeps (some (got (some r))) c silent own = elim (silent r refl) [ ]

  silent_keeps :
      (a : TickAnswers F) (c : Controller)
      → IsSilent a
      → c.overridden ≡ true
      → c.override_from_store ≡ false
      → (tick F batch_of cfg a c).0 ≡ c
  unfolding tick decide
  silent_keeps a c silent held own =
      let synced = sync_override_keeps a.stored c silent own in ground (arith, synced, held)

  tick_all_keeps :
      (ticks : List (TickAnswers F)) (c : Controller)
      → All IsSilent ticks
      → c.overridden ≡ true
      → c.override_from_store ≡ false
      → tick_all F cfg batch_of ticks c ≡ c
  unfolding tick_all
  tick_all_keeps [] c silent held own = refl
  tick_all_keeps (a ∷ ticks) c silent held own =
      rw (silent_keeps a c silent.0 held own) (tick_all_keeps ticks c silent.1 held own)

  -- The rate that an operator sets, cut to between 0 and the maximum, is kept by every number of
  -- ticks that find no override in the store, whatever the services report; the flag that says that
  -- the store set an override must be down.
  pub override_is_kept :
      (r : F.Carrier) (c : Controller) (ticks : List (TickAnswers F))
      → All IsSilent ticks
      → c.override_from_store ≡ false
      → (tick_all F cfg batch_of ticks (set_rate_override F cfg r c)).rate
        ≡ F.to_milli (clamp F r F.zero_rate cfg.max_rate)
  unfolding set_rate_override set_rate
  override_is_kept r c ticks silent own =
      rw (tick_all_keeps ticks (set_rate_override F cfg r c) silent refl own) refl

  -- With that flag up, because an override was in the store before, the first tick that finds the
  -- store's override gone also ends the override that an operator set on the controller itself.
  store_ends_override :
      (r : F.Carrier) (c : Controller)
      → c.override_from_store ≡ true
      → (sync_override F cfg (some (got none)) (set_rate_override F cfg r c)).overridden ≡ false
  unfolding sync_override set_rate_override set_rate
  store_ends_override r c own = rw own refl
