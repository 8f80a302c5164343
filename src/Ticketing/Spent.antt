-- ===== src/Ticketing/Spent.antt =====
-- Tickets that cannot be checked in any more, and the statements that keep them so.
use even_flow.Prelude.{
  ℕ, ◌≤◌, ◌<◌, ◌≡◌, refl, subst, sym, inl, inr, Bool, true, false, ◌||◌, Option, some, List, [],
  ◌∷◌, ◌++◌, arith, ltb, String, ◌==◌, ==_iff, string_Eq, count_of, count_of-append, Bool-cases,
}
use even_flow.Ticketing.Ticket.{TicketStatus, Ticket}
use even_flow.Ticketing.Tables.{matches, set_status, insert_tickets}

unfoldable pub has_id : String → Ticket → Bool
has_id id t = t.id == id

-- The ticket exists, and no row of it can be checked in.
unfoldable pub IsSpent : String → List Ticket → Type 0
unfolding has_id
IsSpent id ts = (0 < count_of (has_id id) ts) × (count_of (matches id TicketStatus.issued) ts ≡ 0)

count_matches_le :
    (id : String) (s : TicketStatus) (ts : List Ticket)
    → count_of (matches id s) ts ≤ count_of (has_id id) ts
unfolding has_id
count_matches_le id s [] = omega arith
count_matches_le id s (t ∷ ts) = ground (arith, count_matches_le id s ts)

count_id-set_status :
    (id j : String) (s n : TicketStatus) (at : Option ℕ) (ts : List Ticket)
    → count_of (has_id id) (set_status j s n at ts) ≡ count_of (has_id id) ts
unfolding has_id set_status
count_id-set_status id j s n at [] = refl
count_id-set_status id j s n at (t ∷ ts) = ground (arith, count_id-set_status id j s n at ts)

matches-set_status_self :
    (id : String) (at : Option ℕ) (ts : List Ticket)
    → count_of
        (matches id TicketStatus.issued)
        (set_status id TicketStatus.issued TicketStatus.checked_in at ts)
      ≡ 0
unfolding set_status
matches-set_status_self id at [] = refl
matches-set_status_self id at (t ∷ ts) = ground (arith, matches-set_status_self id at ts)

matches-set_status_le :
    (id j : String) (at : Option ℕ) (ts : List Ticket)
    → count_of
        (matches id TicketStatus.issued)
        (set_status j TicketStatus.issued TicketStatus.checked_in at ts)
      ≤ count_of (matches id TicketStatus.issued) ts
unfolding set_status
matches-set_status_le id j at [] = omega arith
matches-set_status_le id j at (t ∷ ts) = ground (arith, matches-set_status_le id j at ts)

pub IsSpent-after_scan :
    (id : String) (at : Option ℕ) (ts : List Ticket)
    → 0 < count_of (matches id TicketStatus.issued) ts
    → IsSpent id (set_status id TicketStatus.issued TicketStatus.checked_in at ts)
unfolding IsSpent
IsSpent-after_scan id at ts h = (
  omega (
    arith,
    count_id-set_status id id TicketStatus.issued TicketStatus.checked_in at ts,
    count_matches_le id TicketStatus.issued ts,
  ),
  matches-set_status_self id at ts,
)

pub IsSpent-kept_by_scan :
    (id j : String) (at : Option ℕ) (ts : List Ticket)
    → IsSpent id ts
    → IsSpent id (set_status j TicketStatus.issued TicketStatus.checked_in at ts)
unfolding IsSpent
IsSpent-kept_by_scan id j at ts h = (
  omega (arith, count_id-set_status id j TicketStatus.issued TicketStatus.checked_in at ts, h.0),
  omega (arith, matches-set_status_le id j at ts, h.1),
)

count_or_le :
    (p : Ticket → Bool) (q : Ticket → Bool) (ts : List Ticket)
    → count_of p ts ≤ count_of (λ t. p t || q t) ts
count_or_le p q [] = omega arith
count_or_le p q (t ∷ ts) = ground (arith, count_or_le p q ts)

not_fresh :
    (t : Ticket) (ts : List Ticket)
    → 0 < count_of (has_id t.id) ts
    → ltb 0 (count_of (λ r. r.id == t.id || r.jti == t.jti) ts) ≡ true
unfolding has_id
not_fresh t ts h = ground (arith, count_or_le (λ r. r.id == t.id) (λ r. r.jti == t.jti) ts, h)

-- A row that could be inserted is not of a ticket that exists.
IsSpent-append :
    (id : String) (ts : List Ticket) (t : Ticket)
    → ltb 0 (count_of (λ r. r.id == t.id || r.jti == t.jti) ts) ≡ false
    → IsSpent id ts
    → IsSpent id (ts ++ t ∷ [])
unfolding IsSpent has_id
IsSpent-append id ts t fresh h = elim (Bool-cases (t.id == id)) [
  | inl same ↦
      let spent = subst (λ x. IsSpent x ts) (sym ((==_iff t.id id).0 same)) h in
      ground (arith, not_fresh t ts spent.0, fresh)
  | inr other ↦ (
    ground (arith, count_of-append (λ r. r.id == id) ts (t ∷ []), h.0),
    ground (arith, count_of-append (matches id TicketStatus.issued) ts (t ∷ []), h.1, other),
  )
]

pub IsSpent-insert :
    (id : String) (table ts : List Ticket) (rows : List Ticket)
    → insert_tickets table ts ≡ some rows
    → IsSpent id table
    → IsSpent id rows
unfolding insert_tickets
IsSpent-insert id table [] rows e h = subst (λ x. IsSpent id x) (cc) h
IsSpent-insert id table (t ∷ ts) rows e h =
    elim (Bool-cases (ltb 0 (count_of (λ r. r.id == t.id || r.jti == t.jti) table))) [
      | inl used ↦ ground (arith, used)
      | inr fresh ↦
          IsSpent-insert id (table ++ t ∷ []) ts rows (ground (arith, fresh))
            (IsSpent-append id table t fresh h)
    ]

pub spent_other :
    (id j : String) (ts : List Ticket)
    → IsSpent id ts
    → 0 < count_of (matches j TicketStatus.issued) ts
    → (j == id) ≡ false
unfolding IsSpent
spent_other id j ts h matched = elim (Bool-cases (j == id)) [
  | inl same ↦
      let there =
        subst (λ x. 0 < count_of (matches x TicketStatus.issued) ts) ((==_iff j id).0 same)
          matched in
      ground (arith, h.1, there)
  | inr other ↦ other
]
