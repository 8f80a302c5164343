-- ===== src/Ticketing/CreateHold.antt =====
-- services/ticketing/internal/app/create_hold.go, on the stock in Redis of Gate and on a repository
-- (port.Repository) that is an argument. Metrics, spans and log lines are left out. The identifier of
-- the hold, the first bucket of the scan, the times and the failures of Redis are arguments.
use even_flow.Prelude.{
  ℕ, ◌+◌, ◌*◌, Bool, true, false, not, Option, none, some, if◌then◌else◌, String,
}
use even_flow.Prelude.Int.{ℤ}
use even_flow.Ticketing.Inventory.{Error, Result, ok, err}
use even_flow.Ticketing.Inventory.Error.{
  inventory_exhausted, not_admitted, quantity_not_allowed, per_identity_limit, order_not_found,
  other,
}
use even_flow.Ticketing.Limits.{quantity_refused, identity_refused}
use even_flow.Ticketing.Gate.{
  Gate, HoldReply, hold_ok, already_holding, bad_qty, HoldRequest, hold, release,
}

pub record SaleConfig : Type 0 where
  pub price_cents : ℤ
  pub bucket_count : ℕ
  pub hold_ttl_seconds : ℕ
  pub max_per_order : ℤ
  pub max_per_identity : ℤ

pub record PersistHoldParams : Type 0 where
  pub event_id : String
  pub ticket_type_id : String
  pub identity_id : String
  pub hold_id : String
  pub bucket : ℕ
  pub quantity : ℤ
  pub unit_cents : ℤ
  pub expires_at : ℕ
  pub max_per_identity : ℤ

pub record HoldView : Type 0 where
  pub order_id : String
  pub hold_id : String
  pub bucket : ℕ
  pub expires_at : ℕ

-- port.Repository, as far as CreateHold uses it, over the state `R` of the database.
pub record Repository (R : Type 0) : Type 0 where
  pub get_sale_config : String → String → R → Result SaleConfig
  pub count_purchased : String → String → R → Result ℤ
  pub get_active_hold : String → String → R → Result HoldView
  pub persist_hold : PersistHoldParams → R → R × Result HoldView

pub record CreateHoldInput : Type 0 where
  pub event_id : String
  pub ticket_type_id : String
  pub identity_id : String
  pub quantity : ℤ

-- An error of a call of Redis: the script has not run, or it has and its reply is lost.
pub data RedisFault : Type 0 where
  not_run reply_lost : String → RedisFault

-- What one run meets outside: IsAdmitted's answer, the errors of the two Redis scripts if they fail,
-- the fresh values and the clock.
pub record Circumstances : Type 0 where
  pub is_admitted : Result Bool
  pub hold_fault : Option RedisFault
  pub release_fault : Option RedisFault
  pub hold_id : String
  pub start_bucket : ℕ
  pub now_ms : ℕ
  pub now : ℕ

abbrev is_exhausted : Error → Bool
is_exhausted inventory_exhausted = true
is_exhausted _ = false

module _ {R : Type 0} (repo : Repository R) where
  -- The answer when the identity has reached its limit: the hold that it has, if any.
  unfoldable pub over_limit : CreateHoldInput → R → Result HoldView
  over_limit req r = elim (repo.get_active_hold req.event_id req.identity_id r) [
    | ok view ↦ ok view
    | err order_not_found ↦ err per_identity_limit
    | err e ↦ err e
  ]

  -- The compensation: release what Redis took, unless that script does not run.
  unfoldable pub give_back : Circumstances → Gate → Gate
  give_back at g = elim at.release_fault [
    | none ↦ (release at.hold_id g).0
    | some (not_run m) ↦ g
    | some (reply_lost m) ↦ (release at.hold_id g).0
  ]

  -- What follows the transaction in Postgres.
  unfoldable pub after_persist :
      Circumstances → Gate → R × Result HoldView → (Gate × R) × Result HoldView
  unfolding give_back
  after_persist at g (r, ok view) = ((g, r), ok view)
  after_persist at g (r, err e) =
      ((give_back at g, r), err (if is_exhausted e then Error.sold_out else e))

  unfoldable pub persist_params :
      Circumstances → CreateHoldInput → SaleConfig → ℕ → PersistHoldParams
  persist_params at req ev bucket = record {
    event_id = req.event_id;
    ticket_type_id = req.ticket_type_id;
    identity_id = req.identity_id;
    hold_id = at.hold_id;
    bucket = bucket;
    quantity = req.quantity;
    unit_cents = ev.price_cents;
    expires_at = at.now + ev.hold_ttl_seconds * 1000000000;
    max_per_identity = ev.max_per_identity;
  }

  -- Step 2 and what follows from the answer of Redis.
  unfoldable pub after_gate :
      Circumstances
      → CreateHoldInput
      → SaleConfig
      → R
      → Gate × HoldReply
      → (Gate × R) × Result HoldView
  unfolding after_persist persist_params
  after_gate at req ev r (g, HoldReply.sold_out) = ((g, r), err Error.sold_out)
  after_gate at req ev r (g, already_holding prev) =
      ((g, r), repo.get_active_hold req.event_id req.identity_id r)
  after_gate at req ev r (g, bad_qty) = ((g, r), err (other "redis gate tra ve trang thai la"))
  after_gate at req ev r (g, hold_ok id bucket expire_at) =
      after_persist at g (repo.persist_hold (persist_params at req ev bucket) r)

  unfoldable pub hold_request : Circumstances → CreateHoldInput → SaleConfig → HoldRequest
  hold_request at req ev = record {
    ticket_type_id = req.ticket_type_id;
    identity_id = req.identity_id;
    hold_id = at.hold_id;
    quantity = req.quantity;
    ttl = ev.hold_ttl_seconds * 1000;
    bucket_count = ev.bucket_count;
    start_bucket = at.start_bucket;
  }

  unfoldable pub reserve :
      Circumstances → CreateHoldInput → SaleConfig → Gate → R → (Gate × R) × Result HoldView
  unfolding after_gate
  reserve at req ev g r = elim at.hold_fault [
    | some (not_run m) ↦ ((g, r), err (other m))
    | some (reply_lost m) ↦ (((hold at.now_ms (hold_request at req ev) g).0, r), err (other m))
    | none ↦ after_gate at req ev r (hold at.now_ms (hold_request at req ev) g)
  ]

  -- Step 1: the limits of the sale, before the stock is touched.
  unfoldable pub check_limits :
      Circumstances → CreateHoldInput → SaleConfig → Gate → R → (Gate × R) × Result HoldView
  unfolding reserve over_limit
  check_limits at req ev g r =
      if quantity_refused req.quantity ev.max_per_order
      then ((g, r), err quantity_not_allowed)
      else elim (repo.count_purchased req.event_id req.identity_id r) [
        | err e ↦ ((g, r), err e)
        | ok bought ↦
            if identity_refused bought req.quantity ev.max_per_identity
            then ((g, r), over_limit req r)
            else reserve at req ev g r
      ]

  -- CreateHold.execute
  unfoldable pub execute : Circumstances → CreateHoldInput → Gate → R → (Gate × R) × Result HoldView
  unfolding check_limits
  execute at req g r = elim at.is_admitted [
    | err e ↦ ((g, r), err e)
    | ok admitted ↦
        if not admitted
        then ((g, r), err not_admitted)
        else elim (repo.get_sale_config req.event_id req.ticket_type_id r) [
          | err e ↦ ((g, r), err e)
          | ok ev ↦ check_limits at req ev g r
        ]
  ]
