-- ===== src/Prelude/Map.antt =====
-- Go maps as association lists. The order of the list is the order in which a `range` loop visits
-- the entries; what is proved of all lists is proved of every order that Go may choose.
use even_flow.Prelude.Tests.{if◌then◌else◌, Eq, ◌==◌, ==_iff, ==_refl, Bool-cases}
use mathlib.Core.Path.{◌≡◌}
use mathlib.Core.Logic.{inl, inr}
use mathlib.Core.Bool.{Bool, true, false}
use mathlib.Core.Option.{Option, none, some}
use mathlib.Core.List.{List, [], ◌∷◌}
use native.Mathlib.Omega.{arith}

abbrev pub Map {ℓ κ} : Type ℓ → Type κ → Type (ℓ ⊔ κ)
Map K V = List (K × V)

module _ {ℓ κ} {K : Type ℓ} {V : Type κ} ⦃e : Eq K⦄ where
  -- `v, exists := m[k]`
  unfoldable pub lookup : K → Map K V → Option V
  lookup k [] = none
  lookup k ((j, v) ∷ m) = if j == k then some v else lookup k m

  -- `m[k] = v`
  unfoldable pub insert : K → V → Map K V → Map K V
  insert k v [] = (k, v) ∷ []
  insert k v ((j, w) ∷ m) = if j == k then (k, v) ∷ m else (j, w) ∷ insert k v m

  pub lookup-insert_self : (k : K) (v : V) (m : Map K V) → lookup k (insert k v m) ≡ some v
  unfolding lookup insert
  lookup-insert_self k v [] = rw (==_refl k)
  lookup-insert_self k v ((j, w) ∷ m) = elim (Bool-cases (j == k)) [
    | inl same ↦ rw same (rw (==_refl k))
    | inr other ↦ rw other (rw other (lookup-insert_self k v m))
  ]

  pub lookup-insert_ne :
      (k j : K) (v : V) (m : Map K V) → (k == j) ≡ false → lookup j (insert k v m) ≡ lookup j m
  unfolding lookup insert
  lookup-insert_ne k j v [] h = rw h
  lookup-insert_ne k j v ((i, w) ∷ m) h = elim (Bool-cases (i == k)) [
    | inl same ↦ rw same (rw (h, (==_iff i k).0 same) (rw h))
    | inr other ↦ rw other (ground (arith, lookup-insert_ne k j v m h))
  ]

module _ {ℓ κ} {K : Type ℓ} {V : Type κ} where
  -- `for k, v := range m { if test(v) { ...; break } }`: the first entry that passes.
  unfoldable pub find_entry : (V → Bool) → Map K V → Option (K × V)
  find_entry p [] = none
  find_entry p ((k, v) ∷ m) = if p v then some (k, v) else find_entry p m

  -- `for k, v := range m { if test(v) { change v; m[k] = v } }`
  unfoldable pub update_all : (V → Bool) → (V → V) → Map K V → Map K V
  update_all p f [] = []
  update_all p f ((k, v) ∷ m) = (k, if p v then f v else v) ∷ update_all p f m

  abbrev pub values : Map K V → List V
  values [] = []
  values ((k, v) ∷ m) = v ∷ values m

module _ {ℓ κ} {K : Type ℓ} {V : Type κ} ⦃e : Eq K⦄ where
  pub lookup-insert :
      (k j : K) (v : V) (m : Map K V)
      → lookup j (insert k v m) ≡ (if k == j then some v else lookup j m)
  lookup-insert k j v m = elim (Bool-cases (k == j)) [
    | inl same ↦ rw same (rw (← (==_iff k j).0 same) (lookup-insert_self k v m))
    | inr other ↦ rw other (lookup-insert_ne k j v m other)
  ]

  -- A new entry that alone passes the test is the one found.
  pub find_entry-insert_new :
      (p : V → Bool) (k : K) (v : V) (m : Map K V)
      → find_entry p m ≡ none
      → p v ≡ true
      → find_entry p (insert k v m) ≡ some (k, v)
  unfolding find_entry insert
  find_entry-insert_new p k v [] h t = rw t
  find_entry-insert_new p k v ((j, w) ∷ m) h t = elim (Bool-cases (p w)) [
    | inl passes ↦ ground arith
    | inr fails ↦ elim (Bool-cases (j == k)) [
      | inl same ↦ rw same (rw t)
      | inr other ↦ rw other (rw fails (find_entry-insert_new p k v m (ground arith) t))
    ]
  ]

module _ {ℓ κ} {K : Type ℓ} {V : Type κ} where
  -- What is found passes the test.
  pub find_entry_passes :
      (p : V → Bool) (m : Map K V) {k : K} {v : V} → find_entry p m ≡ some (k, v) → p v ≡ true
  unfolding find_entry
  find_entry_passes p [] h = cc
  find_entry_passes p ((j, w) ∷ m) {k} {v} h = elim (Bool-cases (p w)) [
    | inl passes ↦ ground arith
    | inr fails ↦ find_entry_passes p m {k = k} {v = v} (ground arith)
  ]
