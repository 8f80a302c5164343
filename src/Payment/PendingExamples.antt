-- ===== src/Payment/PendingExamples.antt =====
-- The payment inbox at concrete values.
use even_flow.Prelude.{ℕ, ◌≡◌, refl, none, some, Option, List, [], ◌∷◌, ◌++◌, All}
use mathlib.Core.List.{Perm}
use even_flow.Prelude.Int.{pos}
use even_flow.Prelude.Map.{values}
use even_flow.Prelude.Sort.{IsSorted, sort_by, cap_at}
use even_flow.Prelude.Text.{text}
use even_flow.Payment.Types.{PaymentInboxItem}
use even_flow.Payment.Store.{Store}
use even_flow.Payment.Inbox.{is_due, get_pending_payment_inbox}
use even_flow.Payment.Pending.{Waits, WithinLimit, pending_splits}

abbrev webhook_at : ℕ → ℕ → Option ℕ → ℕ → PaymentInboxItem
webhook_at i at done tries = record {
  id = i;
  provider = text "momo";
  provider_txn_id = "txn";
  payload = [];
  received_at = at;
  processed_at = done;
  attempts = tries;
}

-- One that is processed, one without attempts left, and two that wait.
abbrev inbox_of_four : Store
inbox_of_four = record {
  orders = [];
  payments = [];
  outbox = [];
  inbox =
      (1, webhook_at 1 10 (some 11) 0)
      ∷ (2, webhook_at 2 12 none 3)
      ∷ (3, webhook_at 3 20 none 1)
      ∷ (4, webhook_at 4 15 none 0)
      ∷ [];
  next_inbox_id = 4;
}

oldest_is_got :
    get_pending_payment_inbox (pos 1) (pos 3) inbox_of_four ≡ webhook_at 4 15 none 0 ∷ []
unfolding get_pending_payment_inbox is_due sort_by cap_at
oldest_is_got = refl

pending_splits_example :
    let got = get_pending_payment_inbox (pos 1) (pos 3) inbox_of_four in
    (left : List PaymentInboxItem) × (others : List PaymentInboxItem) × Perm
      ((got ++ left) ++ others)
      (values inbox_of_four.inbox)
    × IsSorted (λ it. it.received_at) (got ++ left)
    × All (Waits (pos 3)) (got ++ left)
    × All (λ it. Waits (pos 3) it → ⊥) others
    × WithinLimit (pos 1) got left
pending_splits_example = pending_splits (pos 1) (pos 3) inbox_of_four
