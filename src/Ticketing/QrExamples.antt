-- ===== src/Ticketing/QrExamples.antt =====
-- The theorems about QR codes at a concrete library: a text is a list of blocks, each the claims in
-- clear, or a hash of a key with the length of a text.
use even_flow.Prelude.{
  ℕ, ◌+◌, ◌≡◌, refl, ap, ◌&&◌, ◌==◌, ==_iff, ==_refl, string_Eq, Bool, true, false, Option, none,
  some, List, [], ◌∷◌, ◌++◌, nat_eq, arith, length,
}
use even_flow.Prelude.Int.{pos, int_Eq}
use even_flow.Ticketing.Scan.{TicketClaims}
use even_flow.Ticketing.Qr.{
  QrLibrary, HasSignature, lacks_claims, has_expired, verified, stamped, sign, verify, verify_parts,
  check_claims, verify-sign, verified_is_signed,
}

data Block : Type 0 where
  plain : TicketClaims → Block
  hash : ℕ → Block

abbrev read_plain : Block → Option TicketClaims
read_plain (plain c) = some c
read_plain (hash n) = none

abbrev one_block : List Block → Option Block
one_block (b ∷ []) = some b
one_block _ = none

abbrev blocks : List Block → List (List Block)
blocks [] = []
blocks (b ∷ bs) = (b ∷ []) ∷ blocks bs

abbrev is_blank : List Block → Bool
is_blank [] = true
is_blank (b ∷ bs) = false

abbrev hashed : Block → List Block → Block
hashed (hash k) t = hash (k + length t)
hashed (plain c) t = hash (length t)

abbrev same_claims : TicketClaims → TicketClaims → Bool
same_claims a b =
    a.ticket_id == b.ticket_id
    && a.order_id == b.order_id
    && a.event_id == b.event_id
    && a.ticket_type_id == b.ticket_type_id
    && a.identity_id == b.identity_id
    && a.jti == b.jti
    && a.issued_at == b.issued_at
    && a.expires_at == b.expires_at

abbrev same_block : Block → Block → Bool
same_block (hash a) (hash b) = nat_eq a b
same_block (plain a) (plain b) = same_claims a b
same_block _ _ = false

same_claims_eq : (a b : TicketClaims) → same_claims a b ≡ true → a ≡ b
same_claims_eq a b h = λ i. record {
  ticket_id = (==_iff a.ticket_id b.ticket_id).0 (ground (arith, h)) i;
  order_id = (==_iff a.order_id b.order_id).0 (ground (arith, h)) i;
  event_id = (==_iff a.event_id b.event_id).0 (ground (arith, h)) i;
  ticket_type_id = (==_iff a.ticket_type_id b.ticket_type_id).0 (ground (arith, h)) i;
  identity_id = (==_iff a.identity_id b.identity_id).0 (ground (arith, h)) i;
  jti = (==_iff a.jti b.jti).0 (ground (arith, h)) i;
  issued_at = (==_iff a.issued_at b.issued_at).0 (ground (arith, h)) i;
  expires_at = (==_iff a.expires_at b.expires_at).0 (ground (arith, h)) i;
}

same_claims_refl : (a : TicketClaims) → same_claims a a ≡ true
same_claims_refl a = ground (
  arith,
  ==_refl a.ticket_id,
  ==_refl a.order_id,
  ==_refl a.event_id,
  ==_refl a.ticket_type_id,
  ==_refl a.identity_id,
  ==_refl a.jti,
  ==_refl a.issued_at,
  ==_refl a.expires_at,
)

same_block_eq : (a b : Block) → same_block a b ≡ true → a ≡ b
same_block_eq (hash a) (hash b) h = ground (arith, h)
same_block_eq (plain a) (plain b) h = ap plain (same_claims_eq a b h)
same_block_eq (hash a) (plain b) h = cc
same_block_eq (plain a) (hash b) h = cc

same_block_refl : (a : Block) → same_block a a ≡ true
same_block_refl (hash n) = ground arith
same_block_refl (plain c) = same_claims_refl c

mac_not_blank : (k : Block) (t : List Block) → is_blank (hashed k t ∷ []) ≡ false
mac_not_blank k t = refl

abbrev lib : QrLibrary
lib = record {
  Bytes = Block;
  Chars = List Block;
  size = λ b. 16;
  is_empty = is_blank;
  marshal = plain;
  unmarshal = read_plain;
  encode = λ b. b ∷ [];
  decode = one_block;
  mac = hashed;
  same_bytes = same_block;
  dotted = ◌++◌;
  split = blocks;
  unmarshal-marshal = λ c. refl;
  decode-encode = λ b. refl;
  same_bytes_iff = λ a b. (same_block_eq a b, λ e. rw e (same_block_refl b));
  split-dotted = λ a b. refl;
  marshal_nonempty = λ c. refl;
  mac_nonempty = mac_not_blank;
}

abbrev claims : TicketClaims
claims = record {
  ticket_id = "t1";
  order_id = "o1";
  event_id = "e1";
  ticket_type_id = "k1";
  identity_id = "u1";
  jti = "j1";
  issued_at = pos 0;
  expires_at = pos 900;
}

abbrev issued : TicketClaims
issued = record claims { issued_at = pos 100 }

abbrev code : List Block
code = plain issued ∷ hash 8 ∷ []

verify-sign_example : verify lib (hash 7) (pos 200) code ≡ verified (stamped (pos 100) claims)
verify-sign_example =
    verify-sign lib (hash 7) (pos 100) (pos 200) claims code (hash 8 ∷ [])
      (unfold sign stamped in refl) (unfold stamped in refl)

verified_is_signed_example :
    (p : List Block) × (s : List Block) × (blocks code ≡ p ∷ s ∷ [])
    × HasSignature lib (hash 7) p s issued
    × (lacks_claims issued ≡ false)
    × (has_expired (pos 200) issued ≡ false)
verified_is_signed_example =
    verified_is_signed lib (hash 7) (pos 200) code issued
      (unfold verify verify_parts check_claims in refl)
