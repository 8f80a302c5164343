-- ===== src/Ticketing/Limits.antt =====
-- services/ticketing/internal/app/get_purchase_limit.go, and the two limits that create_hold.go checks.
use even_flow.Prelude.{ℕ, ◌≤◌, ◌≡◌, ◌↔◌, Bool, false, ◌||◌, arith, if◌then◌else◌}
use even_flow.Prelude.Int.{ℤ, pos, negsuc, ◌+ℤ◌, ◌-ℤ◌, ◌≤ℤ◌, leb_ℤ, ltb_ℤ}
use even_flow.Ticketing.Inventory.{Result, ok, err, AvailabilityLevel, level_of, max_selectable}

pub record PurchaseLimit : Type 0 where
  pub max_per_order : ℤ
  pub max_per_identity : ℤ
  pub used : ℤ
  pub max_selectable : ℤ
  pub has_active_hold : Bool

-- `Execute`, on what the database returns.
unfoldable pub get_purchase_limit : Result PurchaseLimit → Result PurchaseLimit
get_purchase_limit (err e) = err e
get_purchase_limit (ok l) = ok (record l {
  max_selectable =
      if l.has_active_hold then pos 0 else max_selectable l.max_per_order l.max_per_identity l.used;
})

-- The guards of CreateHold.execute, as the conditions of the two `if`.
unfoldable pub quantity_refused : ℤ → ℤ → Bool
quantity_refused quantity max_per_order = leb_ℤ quantity (pos 0) || ltb_ℤ max_per_order quantity

unfoldable pub identity_refused : ℤ → ℤ → ℤ → Bool
identity_refused bought quantity max_per_identity = ltb_ℤ max_per_identity (bought +ℤ quantity)

-- A quantity above 0 passes both guards exactly when it is at most what the selection page offers for
-- the same number of tickets used.
pub offered_iff :
    (quantity max_per_order max_per_identity used : ℤ)
    → pos 1 ≤ℤ quantity
    → ((quantity_refused quantity max_per_order || identity_refused used quantity max_per_identity)
        ≡ false)
      ↔ (quantity ≤ℤ max_selectable max_per_order max_per_identity used)
unfolding quantity_refused identity_refused max_selectable ◌+ℤ◌ ◌-ℤ◌
offered_iff q o i u h = (λ e. ground arith, λ e. ground arith)

-- A level as a number: the better the more.
pub rank : AvailabilityLevel → ℕ
rank AvailabilityLevel.sold_out = 0
rank AvailabilityLevel.few_left = 1
rank AvailabilityLevel.available = 2

-- For one capacity, more tickets never show a worse level.
level_of_mono : (a b size : ℤ) → a ≤ℤ b → rank (level_of a size) ≤ rank (level_of b size)
unfolding rank level_of
level_of_mono (pos a) (pos b) (pos n) h = ground arith
level_of_mono (negsuc a) b size h = ground arith
level_of_mono (pos a) (pos b) (negsuc n) h = ground arith
level_of_mono (pos a) (negsuc b) size h = ground arith
