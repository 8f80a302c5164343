-- ===== src/WaitingRoom/Controller.antt =====
-- services/waitingroom/internal/app/admit_controller.go: the controller that decides how many buyers are
-- let in. A rate is kept in thousandths, as the code keeps it. The queue, the probe and the store that
-- the controller calls are the answers that they give; a missing store gives no answer.
use even_flow.Prelude.{
  ℕ, Bool, true, false, not, ◌&&◌, ◌||◌, Option, none, some, List, [], ◌∷◌, ltb, leb, if◌then◌else◌,
}
use even_flow.Prelude.Int.{ℤ, pos, ◌-ℤ◌, ltb_ℤ, leb_ℤ}
use even_flow.WaitingRoom.Float.{Float, clamp}

-- "increase", "decrease", "hold" and "override"
pub data Action : Type 0 where
  increase decrease hold override : Action

pub record Controller : Type 0 where
  pub rate : ℕ
  pub cooldown : ℤ
  pub override_from_store : Bool
  pub overridden : Bool

-- The answer of a call that can fail: `failed`, or a value.
pub data Answer (A : Type 0) : Type 0 where
  failed : Answer A
  got : A → Answer A

module _ (F : Float) where
  pub record Health : Type 0 where
    pub checkout_p99 : ℕ
    pub error_rate : F.Carrier
    pub db_pool_usage : F.Carrier

  pub record AdmitConfig : Type 0 where
    pub min_rate : F.Carrier
    pub max_rate : F.Carrier
    pub step_up : F.Carrier
    pub backoff : F.Carrier
    pub p99_budget : ℕ
    pub error_budget : F.Carrier
    pub pool_budget : F.Carrier
    pub decrease_cooldown : ℤ

  -- What the store says of the operators' override: nothing, none in force, or a rate.
  abbrev pub StoredOverride : Type 0
  StoredOverride = Option (Answer (Option F.Carrier))

  unfoldable pub set_rate : F.Carrier → Controller → Controller
  set_rate r c = record c { rate = F.to_milli r }

  unfoldable pub new_admit_controller : AdmitConfig → Controller
  new_admit_controller cfg = record {
    rate = F.to_milli cfg.min_rate;
    cooldown = pos 0;
    override_from_store = false;
    overridden = false;
  }

  unfoldable pub set_rate_override : AdmitConfig → F.Carrier → Controller → Controller
  set_rate_override cfg r c =
      set_rate (clamp F r F.zero_rate cfg.max_rate) (record c { overridden = true })

  unfoldable pub clear_rate_override : Controller → Controller
  clear_rate_override c = record c { overridden = false }

  -- The rate that the last leader stored; `r > 0` is that `r <= 0` does not hold.
  unfoldable pub restore :
      AdmitConfig → Option (Answer (Option F.Carrier)) → Controller → Controller
  restore cfg none c = c
  restore cfg (some failed) c = c
  restore cfg (some (got none)) c = c
  restore cfg (some (got (some r))) c =
      if F.le r F.zero_rate then c else set_rate (clamp F r cfg.min_rate cfg.max_rate) c

  unfoldable pub sync_override : AdmitConfig → StoredOverride → Controller → Controller
  sync_override cfg none c = c
  sync_override cfg (some failed) c = c
  sync_override cfg (some (got (some r))) c = record (set_rate_override cfg r c) {
    override_from_store = true;
  }
  sync_override cfg (some (got none)) c =
      if c.override_from_store
      then record c { overridden = false; override_from_store = false }
      else c

  unfoldable pub is_healthy : AdmitConfig → Health → Bool
  is_healthy cfg h =
      leb h.checkout_p99 cfg.p99_budget
      && F.le h.error_rate cfg.error_budget
      && F.le h.db_pool_usage cfg.pool_budget

  -- The rate, in thousandths, that follows one in thousandths.
  unfoldable pub next_raw : AdmitConfig → Bool → ℕ → ℕ
  next_raw cfg healthy old = F.to_milli (
      clamp F
        (if healthy then F.add (F.of_milli old) cfg.step_up else F.mul (F.of_milli old) cfg.backoff)
        cfg.min_rate cfg.max_rate)

  -- The switch after the new rate is stored.
  unfoldable pub after_swap : AdmitConfig → ℕ → ℕ → Controller → Controller × Action
  after_swap cfg old next c =
      if ltb next old
      then (record c { rate = next; cooldown = cfg.decrease_cooldown }, Action.decrease)
      else (record c { rate = next }, if ltb old next then Action.increase else Action.hold)

  -- `adjust`, when no operator interferes: the module Race has the interleavings.
  unfoldable pub adjust : AdmitConfig → Bool → Controller → Controller × Action
  adjust cfg healthy c =
      if ltb_ℤ (pos 0) c.cooldown
      then (record c { cooldown = c.cooldown -ℤ pos 1 }, Action.hold)
      else if c.overridden
      then (c, Action.override)
      else after_swap cfg c.rate (next_raw cfg healthy c.rate) c

  -- The answers of one tick: of the store, the probe, and the two calls of the queue.
  pub record TickAnswers : Type 0 where
    pub stored : StoredOverride
    pub health : Answer Health
    pub rate_taken : Bool
    pub admit_taken : Bool

  abbrev pub is_healthy_answer : AdmitConfig → Answer Health → Bool
  is_healthy_answer cfg failed = false
  is_healthy_answer cfg (got h) = is_healthy cfg h

  -- The decision of a tick.
  unfoldable pub decide : AdmitConfig → TickAnswers → Controller → Controller × Action
  decide cfg a c =
      let c' = sync_override cfg a.stored c in
      if c'.overridden
      then (c', Action.override)
      else adjust cfg (is_healthy_answer cfg a.health) c'

  pub record TickReport : Type 0 where
    pub action : Action
    pub published : ℕ
    pub asked_for : ℤ  -- how many the queue is asked to let in, 0 if it is not asked
    pub is_error : Bool

  -- `int(math.Round(rate * Tick.Seconds()))`
  module _ (batch_of : ℕ → ℤ) where
    unfoldable pub tick : AdmitConfig → TickAnswers → Controller → Controller × TickReport
    tick cfg a c =
        let (c', action) = decide cfg a c in
        (
          c',
          record {
            action = action;
            published = c'.rate;
            asked_for =
                if not a.rate_taken || leb_ℤ (batch_of c'.rate) (pos 0)
                then pos 0
                else batch_of c'.rate;
            is_error =
                not a.rate_taken || not (leb_ℤ (batch_of c'.rate) (pos 0)) && not a.admit_taken;
          },
        )

    -- What can happen to a controller between its construction and its end.
    pub data Event : Type 0 where
      ticks : TickAnswers → Event
      sets : F.Carrier → Event
      restores : Option (Answer (Option F.Carrier)) → Event
      clears : Event

    unfoldable pub happen : AdmitConfig → Event → Controller → Controller
    happen cfg (ticks a) c = (tick cfg a c).0
    happen cfg (sets r) c = set_rate_override cfg r c
    happen cfg (restores stored) c = restore cfg stored c
    happen cfg clears c = clear_rate_override c

    unfoldable pub happen_all : AdmitConfig → List Event → Controller → Controller
    happen_all cfg [] c = c
    happen_all cfg (e ∷ es) c = happen_all cfg es (happen cfg e c)
