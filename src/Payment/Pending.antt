-- ===== src/Payment/Pending.antt =====
-- Which webhooks of the inbox a replay gets (services/payment/internal/adapter/postgres/
-- memory_repository.go, GetPendingPaymentInbox).
use even_flow.Prelude.{
  ℕ, zero, suc, ◌≤◌, ◌≡◌, refl, ap, ◌⊎◌, inl, inr, Bool, true, false, not, none, List, [], ◌∷◌,
  ◌++◌, arith, length, take, keep, All, Bool-cases,
}
use mathlib.Core.List.{Perm}
use mathlib.Core.List.Perm
use even_flow.Prelude.Int.{ℤ, pos, negsuc, ◌≤ℤ◌, ◌<ℤ◌, leb_ℤ}
use even_flow.Prelude.Map.{values}
use even_flow.Prelude.Sort.{sort_by, IsSorted, sort_by-IsSorted, sort_by-perm, All-sort_by, cap_at}
use even_flow.Payment.Types.{PaymentInboxItem}
use even_flow.Payment.Store.{Store}
use even_flow.Payment.Inbox.{is_due, get_pending_payment_inbox}

-- An item that waits: it is not processed, and attempts are left, of which a maximum that is not
-- positive allows any number.
abbrev pub Waits : ℤ → PaymentInboxItem → Type 0
Waits max_attempts it =
    (it.processed_at ≡ none) × ((max_attempts ≤ℤ pos 0) ⊎ (pos it.attempts <ℤ max_attempts))

is_due-Waits : (m : ℤ) (it : PaymentInboxItem) → is_due m it ≡ true → Waits m it
unfolding is_due
is_due-Waits m it h = (
  ground (arith, h),
  elim (Bool-cases (leb_ℤ m (pos 0))) [
    | inl any ↦ inl (ground (arith, any))
    | inr bounded ↦ inr (ground (arith, bounded, h))
  ],
)

is_due-none : (m : ℤ) (it : PaymentInboxItem) → is_due m it ≡ false → Waits m it → ⊥
unfolding is_due
is_due-none m it h (fresh, inl any) = ground (arith, h, fresh, any)
is_due-none m it h (fresh, inr left) = ground (arith, h, fresh, left)

append_nil : (xs : List PaymentInboxItem) → xs ++ [] ≡ xs
append_nil [] = refl
append_nil (x ∷ xs) = ap (λ t. x ∷ t) (append_nil xs)

take_split :
    (n : ℕ) (xs : List PaymentInboxItem)
    → (left : List PaymentInboxItem) × (take n xs ++ left ≡ xs)
      × (length (take n xs) ≤ n)
      × ((left ≡ []) ⊎ (length (take n xs) ≡ n))
take_split zero xs = (xs, refl, omega arith, inr refl)
take_split (suc n) [] = ([], refl, omega arith, inl refl)
take_split (suc n) (x ∷ xs) =
    let (left, parts, short, full) = take_split n xs in
    (
      left,
      ap (λ t. x ∷ t) parts,
      omega (arith, short),
      elim full [ inl none_left ↦ inl none_left | inr e ↦ inr (omega (arith, e)) ],
    )

-- A limit that is positive is kept, and used up if anything is left.
abbrev pub WithinLimit : ℤ → List PaymentInboxItem → List PaymentInboxItem → Type 0
WithinLimit limit got left =
    ((limit ≤ℤ pos 0) × (left ≡ []))
    ⊎ ((n : ℕ) × (limit ≡ pos n) × (length got ≤ n) × ((left ≡ []) ⊎ (length got ≡ n)))

cap_split :
    (limit : ℤ) (xs : List PaymentInboxItem)
    → (left : List PaymentInboxItem) × (cap_at limit xs ++ left ≡ xs)
      × WithinLimit limit (cap_at limit xs) left
unfolding cap_at
cap_split (pos zero) xs = ([], append_nil xs, inl (omega arith, refl))
cap_split (pos (suc n)) xs =
    let (left, parts, short, full) = take_split (suc n) xs in
    (left, parts, inr (suc n, refl, short, full))
cap_split (negsuc n) xs = ([], append_nil xs, inl (omega arith, refl))

perm_middle :
    (x : PaymentInboxItem) (xs ys : List PaymentInboxItem) → Perm (xs ++ x ∷ ys) (x ∷ xs ++ ys)
perm_middle x [] ys = Perm.refl (x ∷ ys)
perm_middle x (y ∷ xs) ys =
    Perm.trans (Perm.cons y (perm_middle x xs ys)) (Perm.swap x y (xs ++ ys))

keep-perm :
    (p : PaymentInboxItem → Bool) (xs : List PaymentInboxItem)
    → Perm (keep p xs ++ keep (λ x. not (p x)) xs) xs
keep-perm p [] = Perm.refl []
keep-perm p (x ∷ xs) = elim (Bool-cases (p x)) [
  | inl passes ↦ rw passes (Perm.cons x (keep-perm p xs))
  | inr fails ↦ rw fails (
      Perm.trans (perm_middle x (keep p xs) (keep (λ y. not (p y)) xs))
        (Perm.cons x (keep-perm p xs)))
]

All-keep :
    (p : PaymentInboxItem → Bool) (P : PaymentInboxItem → Type 0) (xs : List PaymentInboxItem)
    → ((x : PaymentInboxItem) → p x ≡ true → P x)
    → All P (keep p xs)
All-keep p P [] h = tt
All-keep p P (x ∷ xs) h = elim (Bool-cases (p x)) [
  | inl passes ↦ rw passes (h x passes, All-keep p P xs h)
  | inr fails ↦ rw fails (All-keep p P xs h)
]

-- The inbox falls into the items that a replay gets, those that the limit leaves for later, and the
-- others: the first two wait and stand in the order of receipt, so that none of those left is older
-- than one of those got; the others do not wait; and a positive limit is kept, and used up if anything
-- is left.
pub pending_splits :
    (limit max_attempts : ℤ) (s : Store)
    → let got = get_pending_payment_inbox limit max_attempts s in
      (left : List PaymentInboxItem) × (others : List PaymentInboxItem) × Perm
        ((got ++ left) ++ others)
        (values s.inbox)
      × IsSorted (λ it. it.received_at) (got ++ left)
      × All (Waits max_attempts) (got ++ left)
      × All (λ it. Waits max_attempts it → ⊥) others
      × WithinLimit limit got left
unfolding get_pending_payment_inbox
pending_splits limit max_attempts s =
    let items = values s.inbox in
    let due = keep (is_due max_attempts) items in
    let others = keep (λ it. not (is_due max_attempts it)) items in
    let sorted = sort_by (λ it. it.received_at) due in
    let (left, parts, within) = cap_split limit sorted in
    (
      left,
      others,
      rw parts (
          Perm.trans (Perm.append_right others (sort_by-perm (λ it. it.received_at) due))
            (keep-perm (is_due max_attempts) items)),
      rw parts (sort_by-IsSorted (λ it. it.received_at) due),
      rw parts (
          All-sort_by (λ it. it.received_at) (Waits max_attempts) due
            (All-keep (is_due max_attempts) (Waits max_attempts) items
              (is_due-Waits max_attempts))),
      All-keep (λ it. not (is_due max_attempts it)) (λ it. Waits max_attempts it → ⊥) items
          (λ it h. is_due-none max_attempts it (ground (arith, h))),
      within,
    )
