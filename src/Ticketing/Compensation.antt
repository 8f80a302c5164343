-- ===== src/Ticketing/Compensation.antt =====
-- What CreateHold leaves in Redis when it fails.
use even_flow.Prelude.{
  ℕ, zero, suc, ◌+◌, ◌-◌, ◌≤◌, ◌≡◌, refl, ap, ◌⊎◌, inl, inr, none, some, String, string_Eq, ◌==◌,
  ==_iff, ==_refl, ltb, arith, if◌then◌else◌, Option-cases, Bool-cases,
}
use even_flow.Prelude.Int.{ℤ, pos, negsuc}
use even_flow.Prelude.Map.{Map, lookup, insert, lookup-insert_self}
use even_flow.Ticketing.Inventory.{Error, Result, ok, err}
use even_flow.Ticketing.Gate.{
  Cell, cell_Eq, HoldEntry, Gate, HoldReply, hold_ok, already_holding, sold_out, bad_qty,
  HoldRequest, remove, available_in, live_hold, choose_bucket, take_stock, hold_fresh, hold,
  release,
}
use even_flow.Ticketing.Stock.{
  amount_at, held, held_by, choose_bucket_enough, held-remove, held-insert_new, available-insert,
}
use even_flow.Ticketing.CreateHold.{
  SaleConfig, HoldView, Repository, CreateHoldInput, Circumstances, not_run, reply_lost, give_back,
  after_persist, after_gate, hold_request, reserve,
}

-- In every bucket as many tickets are available and held as before.
unfoldable pub SameStock : Gate → Gate → Type 0
SameStock g h =
    (c : Cell)
    → (available_in c h.inventory ≡ available_in c g.inventory) × (held c h.holds ≡ held c g.holds)

-- The ways in which a hold ends.
hold_cases :
    (P : Gate × HoldReply → Type 0) (now : ℕ) (req : HoldRequest) (g : Gate)
    → P (g, bad_qty)
    → ((prev : String) → P (g, already_holding prev))
    → ((m : Map String String) → P (record g { user_holds = m }, sold_out))
    → ((m : Map String String) (n b : ℕ)
        → n ≤ available_in (req.ticket_type_id, b) g.inventory
        → P (
          take_stock
              (now + req.ttl)
              req.hold_id
              req.identity_id
              (req.ticket_type_id, b)
              n
              (record g { user_holds = m }),
          hold_ok req.hold_id b (now + req.ttl),
        ))
    → (z : ℤ) → req.quantity ≡ z
    → P (hold now req g)
unfolding hold
hold_cases P now req g bad already out took (negsuc n) e = rw (e, hold) bad
hold_cases P now req g bad already out took (pos zero) e = rw (e, hold) bad
hold_cases P now req g bad already out took (pos (suc n)) e =
    let rounds = if ltb req.bucket_count 3 then req.bucket_count else 3 in
    let k = req.bucket_count in
    let tt = req.ticket_type_id in
    elim (Option-cases (live_hold now req.identity_id g)) [
      | inr (prev, live) ↦ rw (e, hold) (rw (live, hold) (already prev))
      | inl gone ↦
          elim (Option-cases (choose_bucket g.inventory tt (suc n) k req.start_bucket 0 rounds)) [
            | inl none_left ↦ rw (e, hold) (rw (gone, hold) (rw (none_left, hold_fresh) (out _)))
            | inr (b, chosen) ↦
                rw (e, hold)
                  (rw (gone, hold)
                    (rw (chosen, hold_fresh)
                      (took _ (suc n) b (
                        choose_bucket_enough g.inventory tt (suc n) k req.start_bucket 0 rounds b
                          chosen))))
          ]
    ]

restored_available :
    (c cell : Cell) (n : ℕ) (inv : Map Cell ℕ)
    → n ≤ available_in cell inv
    → available_in c (
        insert cell
          (available_in cell (insert cell (available_in cell inv - n) inv) + n)
          (insert cell (available_in cell inv - n) inv))
      ≡ available_in c inv
restored_available c cell n inv enough =
    let rest = available_in cell inv - n in
    let taken = insert cell rest inv in
    let twice = available-insert c cell (available_in cell taken + n) taken in
    let once = available-insert c cell rest inv in
    let inner = available-insert cell cell rest inv in
    elim (Bool-cases (cell == c)) [
      | inl same ↦
          let one = ap (λ x. available_in x inv) ((==_iff cell c).0 same) in
          ground (arith, same, twice, inner, ==_refl cell, one, enough)
      | inr other ↦ ground (arith, other, twice, once)
    ]

held_by-insert :
    (c : Cell) (id : String) (h : HoldEntry) (m : Map String HoldEntry)
    → held_by c id (insert id h m) ≡ amount_at c h
unfolding held_by
held_by-insert c id h m = rw (lookup-insert_self id h m, held_by) refl

restored_held :
    (c : Cell) (id : String) (h : HoldEntry) (m : Map String HoldEntry)
    → lookup id m ≡ none
    → held c (remove id (insert id h m)) ≡ held c m
restored_held c id h m fresh = omega (
  arith,
  held-insert_new c id h m fresh,
  held-remove c id (insert id h m),
  held_by-insert c id h m,
)

-- A release undoes the hold that was just made under a new identifier.
release-take_stock :
    (expire_at : ℕ) (id identity : String) (cell : Cell) (n : ℕ) (g : Gate)
    → n ≤ available_in cell g.inventory
    → lookup id g.holds ≡ none
    → SameStock g (release id (take_stock expire_at id identity cell n g)).0
unfolding SameStock release take_stock
release-take_stock expire_at id identity cell n g enough fresh c =
    let entry : HoldEntry = record {
      cell = cell;
      qty = n;
      identity = identity;
      expire_at = expire_at;
    } in
    rw (lookup-insert_self id entry g.holds, release)
      (restored_available c cell n g.inventory enough, restored_held c id entry g.holds fresh)

pub Result-cases {ℓ} :
    {A : Type ℓ} (r : Result A) → ((a : A) × (r ≡ ok a)) ⊎ ((e : Error) × (r ≡ err e))
Result-cases (ok a) = inl (a, refl)
Result-cases (err e) = inr (e, refl)

pub SameStock-refl : (g : Gate) → SameStock g g
unfolding SameStock
SameStock-refl g c = (refl, refl)

-- The script that releases runs.
abbrev pub CanRelease : Circumstances → Type 0
CanRelease at = (m : String) → at.release_fault ≡ some (not_run m) → ⊥

-- A script that took stock is heard of.
abbrev pub HoldAnswered : Circumstances → Type 0
HoldAnswered at = (m : String) → at.hold_fault ≡ some (reply_lost m) → ⊥

give_back-releases :
    {R : Type 0} (repo : Repository R) (at : Circumstances) (g : Gate)
    → CanRelease at
    → give_back repo at g ≡ (release at.hold_id g).0
unfolding give_back
give_back-releases repo at g can_release = elim (Option-cases at.release_fault) [
  | inl fine ↦ rw (fine, give_back) refl
  | inr (not_run m, f) ↦ elim (can_release m f) [ ]
  | inr (reply_lost m, f) ↦ rw (f, give_back) refl
]

module _ {R : Type 0} (repo : Repository R) (at : Circumstances) (req : CreateHoldInput) (r : R)
    (can_release : CanRelease at) (answered : HoldAnswered at) where
  -- Postgres refuses what Redis took: it is given back.
  persist_compensates :
      (expire_at n : ℕ) (identity : String) (cell : Cell) (g : Gate) (e : Error)
      → n ≤ available_in cell g.inventory
      → lookup at.hold_id g.holds ≡ none
      → (p : R × Result HoldView)
      → (after_persist repo at (take_stock expire_at at.hold_id identity cell n g) p).1 ≡ err e
      → SameStock g
          (after_persist repo at (take_stock expire_at at.hold_id identity cell n g) p).0.0
  unfolding after_persist
  persist_compensates expire_at n identity cell g e enough fresh (r, ok v) h = ground (arith, h)
  persist_compensates expire_at n identity cell g e enough fresh (r, err x) h =
      rw (give_back-releases repo at _ can_release)
        (release-take_stock expire_at at.hold_id identity cell n g enough fresh)

  pub reserve_compensates :
      (ev : SaleConfig) (g : Gate) (e : Error)
      → lookup at.hold_id g.holds ≡ none
      → (reserve repo at req ev g r).1 ≡ err e
      → SameStock g (reserve repo at req ev g r).0.0
  unfolding reserve after_gate SameStock hold_request
  reserve_compensates ev g e fresh = elim (Option-cases at.hold_fault) [
    | inr (not_run m, f) ↦ rw (f, reserve) (λ h. SameStock-refl g)
    | inr (reply_lost m, f) ↦ elim (answered m f) [ ]
    | inl f ↦
        rw (f, reserve)
          (hold_cases
            (λ p.
              (after_gate repo at req ev r p).1 ≡ err e
              → SameStock g (after_gate repo at req ev r p).0.0)
            at.now_ms (hold_request repo at req ev) g (λ h. SameStock-refl g)
            (λ prev h. SameStock-refl g) (λ m h c. (refl, refl))
            (λ m n b enough.
              persist_compensates _ n req.identity_id (req.ticket_type_id, b)
                (record g { user_holds = m }) e enough fresh _)
            req.quantity refl)
  ]
