-- ===== src/Payment/Replay.antt =====
-- The payment inbox of memory_repository.go: a webhook is kept once.
use even_flow.Prelude.{
  ℕ, suc, ◌≡◌, refl, inl, inr, true, none, some, ==_refl, string_Eq, nat_Eq, if◌then◌else◌,
  Option-cases,
}
use even_flow.Prelude.Map.{find_entry, insert, find_entry-insert_new}
use even_flow.Prelude.Text.{text_Eq}
use even_flow.Payment.Types.{PaymentInboxItem}
use even_flow.Payment.Store.{Store}
use even_flow.Payment.Inbox.{same_webhook, is_zero, save_payment_inbox}

saved_already :
    (now : ℕ) (item it : PaymentInboxItem) (s : Store) (id : ℕ)
    → find_entry (same_webhook item) s.inbox ≡ some (id, it)
    → save_payment_inbox now item s ≡ (s, id)
unfolding save_payment_inbox
saved_already now item it s id found = rw (found, save_payment_inbox) refl

-- What is stored for a webhook that is new.
abbrev stored : ℕ → PaymentInboxItem → Store → PaymentInboxItem
stored now item s = record item {
  id = suc s.next_inbox_id;
  received_at = if is_zero item.received_at then now else item.received_at;
}

abbrev with_stored : ℕ → PaymentInboxItem → Store → Store
with_stored now item s = record s {
  next_inbox_id = suc s.next_inbox_id;
  inbox = insert (suc s.next_inbox_id) (stored now item s) s.inbox;
}

saved_new :
    (now : ℕ) (item : PaymentInboxItem) (s : Store)
    → find_entry (same_webhook item) s.inbox ≡ none
    → save_payment_inbox now item s ≡ (with_stored now item s, suc s.next_inbox_id)
unfolding save_payment_inbox
saved_new now item s absent = rw (absent, save_payment_inbox) refl

same_webhook-stored :
    (now : ℕ) (item : PaymentInboxItem) (s : Store) → same_webhook item (stored now item s) ≡ true
unfolding same_webhook
same_webhook-stored now item s = rw (==_refl item.provider) (==_refl item.provider_txn_id)

-- A webhook that was saved is not saved again: a second save changes nothing and returns the
-- identifier of the first.
save_again :
    (now later : ℕ) (item : PaymentInboxItem) (s : Store)
    → save_payment_inbox later item (save_payment_inbox now item s).0
      ≡ save_payment_inbox now item s
save_again now later item s = elim (Option-cases (find_entry (same_webhook item) s.inbox)) [
  | inr ((id, it), found) ↦
      rw (saved_already now item it s id found) (saved_already later item it s id found)
  | inl absent ↦ rw (saved_new now item s absent) (
      saved_already later item (stored now item s) (with_stored now item s) (suc s.next_inbox_id) (
        find_entry-insert_new (same_webhook item) (suc s.next_inbox_id) (stored now item s) s.inbox
          absent (same_webhook-stored now item s)))
]
