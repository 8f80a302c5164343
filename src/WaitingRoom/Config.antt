-- ===== src/WaitingRoom/Config.antt =====
-- services/waitingroom/internal/config/admit.go: the checks of the configuration at start-up. Reading
-- numbers and cutting texts are arguments; durations are nanoseconds.
use even_flow.Prelude.{
  ℕ, ◌≤◌, ◌≡◌, Bool, not, ◌||◌, Option, none, some, String, List, [], ◌∷◌, arith, ◌==◌, string_Eq,
  if◌then◌else◌,
}
use even_flow.Prelude.Int.{ℤ, pos, ◌+ℤ◌, ◌≤ℤ◌, ◌<ℤ◌, ltb_ℤ, leb_ℤ}
use even_flow.WaitingRoom.Float.{Float}
use even_flow.WaitingRoom.Controller.{AdmitConfig, Event, new_admit_controller, happen_all}
use even_flow.WaitingRoom.Rates.{IsValid, lowest, highest, NoRateSet, rate_within}

-- A setting that is refused.
pub data ConfigError : Type 0 where
  not_a_number bad_min_rate bad_max_rate bad_step_up bad_backoff bad_ttl bad_cooldown : ConfigError
  not_positive renew_too_slow bad_mode bad_age : ConfigError

pub data Checked (A : Type 0) : Type 0 where
  accepted : A → Checked A
  refused : ConfigError → Checked A

-- `validate`, with the time to live beside the rates, and 1 as a rate.
module _ (F : Float) (one : F.Carrier) where
  unfoldable pub validate : AdmitConfig F → ℤ → Option ConfigError
  validate c ttl =
      if F.le c.min_rate F.zero_rate
      then some bad_min_rate
      else if not (F.le c.min_rate c.max_rate)
      then some bad_max_rate
      else if F.le c.step_up F.zero_rate
      then some bad_step_up
      else if F.le c.backoff F.zero_rate || F.le one c.backoff
      then some bad_backoff
      else if leb_ℤ ttl (pos 0)
      then some bad_ttl
      else if ltb_ℤ c.decrease_cooldown (pos 0)
      then some bad_cooldown
      else none

pub record Leader : Type 0 where
  pub ttl : ℤ
  pub renew_every : ℤ

-- A variable: absent or blank, not a number, or a number of seconds: whether it is positive, and the
-- whole nanoseconds.
pub data Setting : Type 0 where
  blank unreadable : Setting
  number : Bool → ℤ → Setting

-- `read`
unfoldable pub read_duration : Setting → ℤ → Checked ℤ
read_duration blank default = accepted default
read_duration unreadable default = refused not_a_number
read_duration (number p n) default = accepted n

-- The switch of `LeaderConfig`.
unfoldable pub check_leader : Leader → Checked Leader
check_leader l =
    if leb_ℤ l.ttl (pos 0) || leb_ℤ l.renew_every (pos 0)
    then refused not_positive
    else if ltb_ℤ l.ttl (l.renew_every +ℤ l.renew_every)
    then refused renew_too_slow
    else accepted l

unfoldable pub leader_config : Setting → Setting → Checked Leader
leader_config ttl renew = elim (read_duration ttl (pos 5000000000)) [
  | refused e ↦ refused e
  | accepted t ↦ elim (read_duration renew (pos 1000000000)) [
    | refused e ↦ refused e
    | accepted r ↦ check_leader (record { ttl = t; renew_every = r })
  ]
]

pub record HealthSource : Type 0 where
  pub static : Bool
  pub max_age : ℤ

-- `HealthConfig`, on the mode in lower case and without spaces; an age must be a positive number.
unfoldable pub health_config : String → Setting → Checked HealthSource
health_config mode age =
    if not (mode == "" || mode == "signal" || mode == "static")
    then refused bad_mode
    else elim age [
      | blank ↦ accepted (record { static = mode == "static"; max_age = pos 3000000000 })
      | unreadable ↦ refused bad_age
      | number is_positive n ↦
          if not is_positive
          then refused bad_age
          else accepted (record { static = mode == "static"; max_age = n })
    ]

-- `SplitCSV`
module _ (split : String → List String) (trim : String → String) where
  keep_named : List String → List String
  keep_named [] = []
  keep_named (p ∷ ps) = let rest = keep_named ps in if trim p == "" then rest else trim p ∷ rest

  unfoldable pub split_csv : String → List String
  unfolding keep_named
  split_csv s = keep_named (split s)

module _ (F : Float) (one : F.Carrier) where
  -- What `validate` accepts has a positive minimum that is at most the maximum.
  pub validate-IsValid :
      (c : AdmitConfig F) (admit_ttl : ℤ) → validate F one c admit_ttl ≡ none → IsValid F c
  unfolding validate
  validate-IsValid c admit_ttl h =
      (F.le_total c.min_rate F.zero_rate (ground (arith, h)), ground (arith, h))

  -- With a configuration that the start-up check accepts, whatever the health of the services, the
  -- store, the rate that the last leader left in it and the operators do, the rate never exceeds the
  -- configured maximum; and unless an operator sets a rate, by a call or through the store, it never
  -- falls below the minimum.
  pub validated_rate_within :
      (c : AdmitConfig F) (admit_ttl : ℤ) (batch_of : ℕ → ℤ) (es : List (Event F batch_of))
      → validate F one c admit_ttl ≡ none
      → let c' = happen_all F batch_of c es (new_admit_controller F c) in
        (c'.rate ≤ highest F c) × (NoRateSet F c batch_of es → lowest F c ≤ c'.rate)
  validated_rate_within c admit_ttl batch_of es ok =
      rate_within F c batch_of es (validate-IsValid c admit_ttl ok)

-- A lease that is accepted is positive and renewed at least twice before it ends.
pub leader_renews_twice :
    (ttl renew : Setting) (l : Leader)
    → leader_config ttl renew ≡ accepted l
    → (pos 0 <ℤ l.renew_every) × (l.renew_every +ℤ l.renew_every ≤ℤ l.ttl)
unfolding leader_config check_leader read_duration ◌+ℤ◌
leader_renews_twice blank blank l h = (ground (arith, h), ground (arith, h))
leader_renews_twice blank (number q r) l h = (ground (arith, h), ground (arith, h))
leader_renews_twice (number p t) blank l h = (ground (arith, h), ground (arith, h))
leader_renews_twice (number p t) (number q r) l h = (ground (arith, h), ground (arith, h))
leader_renews_twice unreadable renew l h = cc
leader_renews_twice blank unreadable l h = cc
leader_renews_twice (number p t) unreadable l h = cc
