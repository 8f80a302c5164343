-- ===== src/Payment/Inbox.antt =====
-- services/payment/internal/adapter/postgres/memory_repository.go, the payment inbox: webhooks that
-- came before their order, kept for a replay (BR-O6). `now` is the time that the method reads.
use even_flow.Prelude.{
  ℕ, suc, ◌-◌, Bool, not, ◌&&◌, ◌||◌, Option, none, some, String, List, [], ◌∷◌, nat_eq, ◌==◌,
  string_Eq, nat_Eq, if◌then◌else◌, keep,
}
use even_flow.Prelude.Int.{ℤ, pos, ltb_ℤ, leb_ℤ}
use even_flow.Prelude.Map.{lookup, insert, find_entry, values}
use even_flow.Prelude.Sort.{sort_by, cap_at}
use even_flow.Prelude.Text.{text_Eq}
use even_flow.Payment.Types.{Provider, PaymentInboxItem, Error, not_found, is_processed, is_stale}
use even_flow.Payment.Store.{Store}

-- Another webhook of the same provider and transaction.
unfoldable pub same_webhook : PaymentInboxItem → PaymentInboxItem → Bool
same_webhook item it = it.provider == item.provider && it.provider_txn_id == item.provider_txn_id

-- Go's `IsZero` on a time.
abbrev pub is_zero : ℕ → Bool
is_zero t = nat_eq t 0

unfoldable pub save_payment_inbox : ℕ → PaymentInboxItem → Store → Store × ℕ
save_payment_inbox now item s = elim (find_entry (same_webhook item) s.inbox) [
  | some (id, it) ↦ (s, id)
  | none ↦
      let id = suc s.next_inbox_id in
      (
        record s {
          next_inbox_id = id;
          inbox =
              insert id
                (record item {
                  id = id;
                  received_at = if is_zero item.received_at then now else item.received_at;
                })
                s.inbox;
        },
        id,
      )
]

-- `it.ProcessedAt == nil && (maxAttempts <= 0 || it.Attempts < maxAttempts)`
unfoldable pub is_due : ℤ → PaymentInboxItem → Bool
is_due max_attempts it =
    not (is_processed it) && (leb_ℤ max_attempts (pos 0) || ltb_ℤ (pos it.attempts) max_attempts)

unfoldable pub get_pending_payment_inbox : ℤ → ℤ → Store → List PaymentInboxItem
get_pending_payment_inbox limit max_attempts s =
    cap_at limit (sort_by (λ it. it.received_at) (keep (is_due max_attempts) (values s.inbox)))

unfoldable pub mark_payment_inbox_processed : ℕ → ℕ → ℕ → Store → Store × Option Error
mark_payment_inbox_processed now id processed_at s = elim (lookup id s.inbox) [
  | none ↦ (s, some not_found)
  | some it ↦ (
    record s {
      inbox =
          insert id
            (record it { processed_at = some (if is_zero processed_at then now else processed_at) })
            s.inbox;
    },
    none,
  )
]

unfoldable pub increment_payment_inbox_attempts : ℕ → Store → Store × Option Error
increment_payment_inbox_attempts id s = elim (lookup id s.inbox) [
  | none ↦ (s, some not_found)
  | some it ↦
      (record s { inbox = insert id (record it { attempts = suc it.attempts }) s.inbox }, none)
]

pub record StaleInboxRecord : Type 0 where
  pub id : ℕ
  pub provider : Provider
  pub provider_txn_id : String
  pub received_at : ℕ
  pub age : ℕ
  pub attempts : ℕ

stale_record : ℕ → PaymentInboxItem → StaleInboxRecord
stale_record now it = record {
  id = it.id;
  provider = it.provider;
  provider_txn_id = it.provider_txn_id;
  received_at = it.received_at;
  age = now - it.received_at;
  attempts = it.attempts;
}

-- The loop that collects the stale records.
stale_records : ℕ → ℕ → List PaymentInboxItem → List StaleInboxRecord
unfolding stale_record
stale_records now older_than [] = []
stale_records now older_than (it ∷ rest) =
    let records = stale_records now older_than rest in
    if not (is_processed it) && is_stale it now older_than
    then stale_record now it ∷ records
    else records

unfoldable pub get_stale_payment_inbox : ℕ → ℕ → ℤ → Store → List StaleInboxRecord
unfolding stale_records
get_stale_payment_inbox now older_than limit s =
    cap_at limit (sort_by (λ r. r.received_at) (stale_records now older_than (values s.inbox)))
