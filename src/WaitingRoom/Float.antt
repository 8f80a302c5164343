-- ===== src/WaitingRoom/Float.antt =====
-- Go's float64 as the waiting room uses it: rates per second. The operations are those of the language;
-- the laws are documented ones, for numbers that are not NaN and far from the ends of the range.
use even_flow.Prelude.{
  ℕ, suc, ◌≤◌, ◌≡◌, refl, ◌⊎◌, inl, inr, Bool, true, false, if◌then◌else◌, Bool-cases,
}

pub record Float : Type 1 where
  pub Carrier : Type 0
  pub le : Carrier → Carrier → Bool
  pub add : Carrier → Carrier → Carrier
  pub mul : Carrier → Carrier → Carrier
  pub zero_rate : Carrier
  pub of_milli : ℕ → Carrier  -- `float64(n) / 1000.0`
  pub to_milli : Carrier → ℕ  -- `uint64(v * 1000)`, which cuts off
  pub of_nat : ℕ → Carrier  -- `float64(n)`
  pub div : Carrier → Carrier → Carrier
  pub to_nat : Carrier → ℕ  -- `int64(v)` of a number that is not negative, which cuts off
  pub le_refl : (a : Carrier) → le a a ≡ true
  pub le_total : (a b : Carrier) → le a b ≡ false → le b a ≡ true
  pub le_trans : (a b c : Carrier) → le a b ≡ true → le b c ≡ true → le a c ≡ true
  pub to_milli_mono :
      (a b : Carrier) → le zero_rate a ≡ true → le a b ≡ true → to_milli a ≤ to_milli b
  pub of_nat_mono : (m n : ℕ) → m ≤ n → le (of_nat m) (of_nat n) ≡ true
  pub of_nat_nonneg : (n : ℕ) → le zero_rate (of_nat n) ≡ true
  pub div_nonneg :
      (a b : Carrier)
      → le zero_rate a ≡ true
      → le b zero_rate ≡ false
      → le zero_rate (div a b) ≡ true
  pub to_nat_le : (v : Carrier) → le zero_rate v ≡ true → le (of_nat (to_nat v)) v ≡ true
  pub to_nat_suc : (v : Carrier) → le zero_rate v ≡ true → le (of_nat (suc (to_nat v))) v ≡ false

module _ (F : Float) where
  -- `math.Min` and `math.Max`
  unfoldable pub min : F.Carrier → F.Carrier → F.Carrier
  min a b = if F.le a b then a else b

  unfoldable pub max : F.Carrier → F.Carrier → F.Carrier
  max a b = if F.le a b then b else a

  unfoldable pub clamp : F.Carrier → F.Carrier → F.Carrier → F.Carrier
  clamp v lo hi = max lo (min hi v)

  pub clamp_ge : (v lo hi : F.Carrier) → F.le lo (clamp v lo hi) ≡ true
  unfolding clamp max
  clamp_ge v lo hi = elim (Bool-cases (F.le lo (min hi v))) [
    | inl le ↦ rw le le
    | inr gt ↦ rw gt (F.le_refl lo)
  ]

  min_le : (a b : F.Carrier) → F.le (min a b) a ≡ true
  unfolding min
  min_le a b = elim (Bool-cases (F.le a b)) [
    | inl le ↦ rw le (F.le_refl a)
    | inr gt ↦ rw gt (F.le_total a b gt)
  ]

  pub clamp_le : (v lo hi : F.Carrier) → F.le lo hi ≡ true → F.le (clamp v lo hi) hi ≡ true
  unfolding clamp max
  clamp_le v lo hi h = elim (Bool-cases (F.le lo (min hi v))) [
    | inl le ↦ rw le (min_le hi v)
    | inr gt ↦ rw gt h
  ]

  pub max_ge : (a b : F.Carrier) → F.le b (max a b) ≡ true
  unfolding max
  max_ge a b = elim (Bool-cases (F.le a b)) [
    | inl le ↦ rw le (F.le_refl b)
    | inr gt ↦ rw gt (F.le_total a b gt)
  ]

  pub min_cases : (a b : F.Carrier) → (min a b ≡ a) ⊎ (min a b ≡ b)
  unfolding min
  min_cases a b = elim (Bool-cases (F.le a b)) [
    | inl le ↦ inl (rw le refl)
    | inr gt ↦ inr (rw gt refl)
  ]
