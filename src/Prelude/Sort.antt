-- ===== src/Prelude/Sort.antt =====
-- `sort.Slice` by a number that each element carries, as an insertion sort. Go does not fix the order
-- of equal elements; this sort keeps it.
use Prim.Native.Nat.{ℕ, zero, suc, ◌≤◌}
use mathlib.Core.List.{List, [], ◌∷◌, Perm}
use mathlib.Core.List.Perm
use mathlib.Core.Logic.{inl, inr}
use native.Mathlib.Omega.{arith}
use even_flow.Prelude.Tests.{leb, if◌then◌else◌, Bool-cases}
use even_flow.Prelude.Lists.{All, All-take, length, length-take_le, take}
use even_flow.Prelude.Int.{ℤ, pos, negsuc}

module _ {ℓ} {A : Type ℓ} (key : A → ℕ) where
  insert_by : A → List A → List A
  insert_by a [] = a ∷ []
  insert_by a (b ∷ bs) =
      let rest = insert_by a bs in if leb (key a) (key b) then a ∷ b ∷ bs else b ∷ rest

  unfoldable pub sort_by : List A → List A
  unfolding insert_by
  sort_by [] = []
  sort_by (a ∷ xs) = insert_by a (sort_by xs)

  -- Each element's key is at most the later ones'.
  abbrev pub IsSorted : List A → Type 0
  IsSorted [] = Unit
  IsSorted (a ∷ xs) = All (λ b. key a ≤ key b) xs × IsSorted xs

  All-insert_by {κ} :
      (P : A → Type κ) (a : A) (bs : List A) → P a → All P bs → All P (insert_by a bs)
  unfolding insert_by
  All-insert_by P a [] h hs = (h, tt)
  All-insert_by P a (b ∷ bs) h hs = elim (Bool-cases (leb (key a) (key b))) [
    | inl le ↦ rw le (h, hs)
    | inr gt ↦ rw gt (hs.0, All-insert_by P a bs h hs.1)
  ]

  All-le :
      (a b : A) (bs : List A)
      → key a ≤ key b
      → All (λ c. key b ≤ key c) bs
      → All (λ c. key a ≤ key c) bs
  All-le a b [] h hs = tt
  All-le a b (c ∷ cs) h hs = (omega arith, All-le a b cs h hs.1)

  insert_by-IsSorted : (a : A) (bs : List A) → IsSorted bs → IsSorted (insert_by a bs)
  unfolding insert_by
  insert_by-IsSorted a [] s = (tt, tt)
  insert_by-IsSorted a (b ∷ bs) s = elim (Bool-cases (leb (key a) (key b))) [
    | inl le ↦ rw le ((ground arith, All-le a b bs (ground arith) s.0), s)
    | inr gt ↦
        rw gt
          (All-insert_by (λ c. key b ≤ key c) a bs (ground arith) s.0, insert_by-IsSorted a bs s.1)
  ]

  pub sort_by-IsSorted : (xs : List A) → IsSorted (sort_by xs)
  unfolding sort_by
  sort_by-IsSorted [] = tt
  sort_by-IsSorted (a ∷ xs) = insert_by-IsSorted a (sort_by xs) (sort_by-IsSorted xs)

  insert_by-perm : (a : A) (bs : List A) → Perm (insert_by a bs) (a ∷ bs)
  unfolding insert_by
  insert_by-perm a [] = Perm.refl (a ∷ [])
  insert_by-perm a (b ∷ bs) = elim (Bool-cases (leb (key a) (key b))) [
    | inl le ↦ rw le (Perm.refl (a ∷ b ∷ bs))
    | inr gt ↦ rw gt (Perm.trans (Perm.cons b (insert_by-perm a bs)) (Perm.swap a b bs))
  ]

  pub sort_by-perm : (xs : List A) → Perm (sort_by xs) xs
  unfolding sort_by
  sort_by-perm [] = Perm.refl []
  sort_by-perm (a ∷ xs) = Perm.trans (insert_by-perm a (sort_by xs)) (Perm.cons a (sort_by-perm xs))

  pub All-sort_by {κ} : (P : A → Type κ) (xs : List A) → All P xs → All P (sort_by xs)
  unfolding sort_by
  All-sort_by P [] h = tt
  All-sort_by P (a ∷ xs) h = All-insert_by P a (sort_by xs) h.0 (All-sort_by P xs h.1)

  pub take-IsSorted : (n : ℕ) (xs : List A) → IsSorted xs → IsSorted (take n xs)
  take-IsSorted zero xs s = tt
  take-IsSorted (suc n) [] s = tt
  take-IsSorted (suc n) (a ∷ xs) s =
      (All-take (λ b. key a ≤ key b) n xs s.0, take-IsSorted n xs s.1)

-- `if limit > 0 && len(xs) > limit { xs = xs[:limit] }`
module _ {ℓ} {A : Type ℓ} where
  unfoldable pub cap_at : ℤ → List A → List A
  cap_at (pos zero) xs = xs
  cap_at (pos (suc n)) xs = take (suc n) xs
  cap_at (negsuc n) xs = xs

  pub length-cap_at_le : (n : ℕ) (xs : List A) → length (cap_at (pos (suc n)) xs) ≤ suc n
  unfolding cap_at
  length-cap_at_le n xs = length-take_le (suc n) xs

  pub All-cap_at {κ} : (P : A → Type κ) (l : ℤ) (xs : List A) → All P xs → All P (cap_at l xs)
  unfolding cap_at
  All-cap_at P (pos zero) xs h = h
  All-cap_at P (pos (suc n)) xs h = All-take P (suc n) xs h
  All-cap_at P (negsuc n) xs h = h

  pub cap_at-IsSorted :
      (key : A → ℕ) (l : ℤ) (xs : List A) → IsSorted key xs → IsSorted key (cap_at l xs)
  unfolding cap_at
  cap_at-IsSorted key (pos zero) xs s = s
  cap_at-IsSorted key (pos (suc n)) xs s = take-IsSorted key (suc n) xs s
  cap_at-IsSorted key (negsuc n) xs s = s
