-- ===== src/Ticketing/Qr.antt =====
-- libs/go/authx/qr.go: tickets as signed QR codes. JSON, base64url, HMAC-SHA256, the comparison and the
-- splitting of texts are Go's library, an interface with the laws that the code relies on.
use even_flow.Prelude.{
  ℕ, ◌≡◌, refl, ap, ◌↔◌, inl, inr, Bool, true, false, not, ◌&&◌, ◌||◌, Option, none, some, List, [],
  ◌∷◌, arith, ◌==◌, string_Eq, if◌then◌else◌, ltb, Bool-cases, Option-cases,
}
use even_flow.Prelude.Int.{ℤ, pos, ltb_ℤ, int_Eq}
use even_flow.Ticketing.Scan.{TicketClaims, QrCheck, genuine, expired, rejected}

-- `Chars` is the type of the texts that carry a code.
pub record QrLibrary : Type 1 where
  pub Bytes : Type 0
  pub Chars : Type 0
  pub size : Bytes → ℕ
  pub is_empty : Chars → Bool
  pub marshal : TicketClaims → Bytes
  pub unmarshal : Bytes → Option TicketClaims
  pub encode : Bytes → Chars
  pub decode : Chars → Option Bytes
  pub mac : Bytes → Chars → Bytes  -- the secret, then the text
  pub same_bytes : Bytes → Bytes → Bool
  pub dotted : Chars → Chars → Chars  -- `p + "." + s`
  pub split : Chars → List Chars  -- `strings.Split(s, ".")`
  pub unmarshal-marshal : (c : TicketClaims) → unmarshal (marshal c) ≡ some c
  pub decode-encode : (b : Bytes) → decode (encode b) ≡ some b
  -- `hmac.Equal` compares the bytes.
  pub same_bytes_iff : (a b : Bytes) → (same_bytes a b ≡ true) ↔ (a ≡ b)
  -- The alphabet of base64url has no dot.
  pub split-dotted : (a b : Bytes) → split (dotted (encode a) (encode b)) ≡ encode a ∷ encode b ∷ []
  -- A JSON object and a hash are not empty.
  pub marshal_nonempty : (c : TicketClaims) → is_empty (encode (marshal c)) ≡ false
  pub mac_nonempty : (k : Bytes) (t : Chars) → is_empty (encode (mac k t)) ≡ false

pub data QrError : Type 0 where
  invalid_secret invalid_format tampered missing_claims : QrError

pub data QrOutcome : Type 0 where
  verified expired_code : TicketClaims → QrOutcome
  failed : QrError → QrOutcome

-- What the use case that scans a ticket sees of it.
abbrev pub qr_check : QrOutcome → QrCheck
qr_check (verified c) = genuine c
qr_check (expired_code c) = expired c
qr_check (failed e) = rejected

abbrev pub lacks_claims : TicketClaims → Bool
lacks_claims c = c.ticket_id == "" || c.order_id == "" || c.event_id == "" || c.jti == ""

-- `claims.ExpiresAt > 0 && now > claims.ExpiresAt`
abbrev pub has_expired : ℤ → TicketClaims → Bool
has_expired now c = ltb_ℤ (pos 0) c.expires_at && ltb_ℤ c.expires_at now

-- The claims as they are signed: with the time of issue.
unfoldable pub stamped : ℤ → TicketClaims → TicketClaims
stamped now c = if c.issued_at == pos 0 then record c { issued_at = now } else c

module _ (lib : QrLibrary) where
  -- `NewQREngine`: the secret, if it is long enough.
  unfoldable pub new_qr_engine : lib.Bytes → Option lib.Bytes
  new_qr_engine secret = if ltb (lib.size secret) 16 then none else some secret

  -- The QR code and its signature, or an error.
  unfoldable pub sign : lib.Bytes → ℤ → TicketClaims → Option (lib.Chars × lib.Chars)
  sign secret now claims =
      let payload = lib.encode (lib.marshal (stamped now claims)) in
      let signature = lib.encode (lib.mac secret payload) in
      if lacks_claims claims then none else some (lib.dotted payload signature, signature)

  -- The last steps of `Verify`, on the claims that are read.
  unfoldable pub check_claims : ℤ → TicketClaims → QrOutcome
  check_claims now claims =
      if lacks_claims claims
      then failed missing_claims
      else if has_expired now claims
      then expired_code claims
      else verified claims

  -- `Verify` on the two parts.
  unfoldable pub verify_parts : lib.Bytes → ℤ → lib.Chars → lib.Chars → QrOutcome
  verify_parts secret now payload signature = elim (lib.decode signature) [
    | none ↦ failed tampered
    | some sig ↦
        if not (lib.same_bytes sig (lib.mac secret payload))
        then failed tampered
        else elim (lib.decode payload) [
          | none ↦ failed tampered
          | some bytes ↦ elim (lib.unmarshal bytes) [
            | none ↦ failed tampered
            | some claims ↦ check_claims now claims
          ]
        ]
  ]

  abbrev verify_split : lib.Bytes → ℤ → List lib.Chars → QrOutcome
  verify_split secret now [] = failed invalid_format
  verify_split secret now (p ∷ []) = failed invalid_format
  verify_split secret now (p ∷ s ∷ []) =
      if lib.is_empty p || lib.is_empty s
      then failed invalid_format
      else verify_parts secret now p s
  verify_split secret now (p ∷ s ∷ t ∷ ts) = failed invalid_format

  unfoldable pub verify : lib.Bytes → ℤ → lib.Chars → QrOutcome
  verify secret now qr = verify_split secret now (lib.split qr)

  lacks_claims-stamped :
      (now : ℤ) (c : TicketClaims) → lacks_claims (stamped now c) ≡ lacks_claims c
  unfolding stamped
  lacks_claims-stamped now c = elim (Bool-cases (c.issued_at == pos 0)) [
    | inl unset ↦ rw unset refl
    | inr set ↦ rw set refl
  ]

  -- A signed code is read back: verified with the same secret before it expires, it gives the claims
  -- that were signed, with the time of issue.
  pub verify-sign :
      (secret : lib.Bytes) (signed_at now : ℤ) (claims : TicketClaims) (qr signature : lib.Chars)
      → sign secret signed_at claims ≡ some (qr, signature)
      → has_expired now (stamped signed_at claims) ≡ false
      → verify secret now qr ≡ verified (stamped signed_at claims)
  unfolding sign verify verify_parts check_claims
  verify-sign secret signed_at now claims qr signature h fresh =
      let c = stamped signed_at claims in
      let payload = lib.encode (lib.marshal c) in
      ground (
        arith,
        h,
        fresh,
        lacks_claims-stamped signed_at claims,
        lib.split-dotted (lib.marshal c) (lib.mac secret payload),
        lib.marshal_nonempty c,
        lib.mac_nonempty secret payload,
        lib.decode-encode (lib.mac secret payload),
        (lib.same_bytes_iff (lib.mac secret payload) (lib.mac secret payload)).1 refl,
        lib.decode-encode (lib.marshal c),
        lib.unmarshal-marshal c,
      )

  check_claims_passes :
      (now : ℤ) (c claims : TicketClaims)
      → check_claims now c ≡ verified claims
      → (c ≡ claims) × (lacks_claims c ≡ false) × (has_expired now c ≡ false)
  unfolding check_claims
  check_claims_passes now c claims h = elim (Bool-cases (lacks_claims c)) [
    | inl lacking ↦ ground (arith, lacking, h)
    | inr whole ↦ elim (Bool-cases (has_expired now c)) [
      | inl late ↦ ground (arith, whole, late, h)
      | inr fresh ↦ (ground (arith, whole, fresh, h), whole, fresh)
    ]
  ]

  -- The two parts: a payload and the encoding of its keyed hash under the secret.
  abbrev pub HasSignature : lib.Bytes → lib.Chars → lib.Chars → TicketClaims → Type 0
  HasSignature secret p s claims =
      (lib.decode s ≡ some (lib.mac secret p))
      × ((bytes : lib.Bytes) × (lib.decode p ≡ some bytes) × (lib.unmarshal bytes ≡ some claims))

  parts_are_signed :
      (secret : lib.Bytes) (now : ℤ) (p s : lib.Chars) (claims : TicketClaims)
      → verify_parts secret now p s ≡ verified claims
      → HasSignature secret p s claims
        × (lacks_claims claims ≡ false)
        × (has_expired now claims ≡ false)
  unfolding verify_parts
  parts_are_signed secret now p s claims g = elim (Option-cases (lib.decode s)) [
    | inl bad ↦ absurd (ground (arith, bad, g))
    | inr (sig, read) ↦ elim (Bool-cases (lib.same_bytes sig (lib.mac secret p))) [
      | inr other ↦ absurd (ground (arith, read, other, g))
      | inl same ↦ elim (Option-cases (lib.decode p)) [
        | inl bad ↦ absurd (ground (arith, read, same, bad, g))
        | inr (bytes, body) ↦ elim (Option-cases (lib.unmarshal bytes)) [
          | inl bad ↦ absurd (ground (arith, read, same, body, bad, g))
          | inr (c, parsed) ↦
              let (is_c, whole, fresh) =
                check_claims_passes now c claims (ground (arith, read, same, body, parsed, g)) in
              (
                (
                  rw read (ap some ((lib.same_bytes_iff sig (lib.mac secret p)).0 same)),
                  (bytes, body, rw parsed (ap some is_c)),
                ),
                rw (← is_c) whole,
                rw (← is_c) fresh,
              )
        ]
      ]
    ]
  ]

  split_is_signed :
      (secret : lib.Bytes) (now : ℤ) (claims : TicketClaims) (parts : List lib.Chars)
      → verify_split secret now parts ≡ verified claims
      → (p : lib.Chars) × (s : lib.Chars) × (parts ≡ p ∷ s ∷ [])
        × HasSignature secret p s claims
        × (lacks_claims claims ≡ false)
        × (has_expired now claims ≡ false)
  split_is_signed secret now claims [] g = cc
  split_is_signed secret now claims (p ∷ []) g = cc
  split_is_signed secret now claims (p ∷ s ∷ []) g =
      elim (Bool-cases (lib.is_empty p || lib.is_empty s)) [
        | inl blank ↦ ground (arith, blank, g)
        | inr both ↦
            let (signed, whole, fresh) =
              parts_are_signed secret now p s claims (ground (arith, both, g)) in
            (p, s, refl, signed, whole, fresh)
      ]
  split_is_signed secret now claims (p ∷ s ∷ t ∷ ts) g = cc

  -- A code that is accepted consists of two parts: the second decodes to the keyed hash of the first
  -- under the secret, and the first to the claims that are returned, which have all that is required
  -- and have not expired.
  pub verified_is_signed :
      (secret : lib.Bytes) (now : ℤ) (qr : lib.Chars) (claims : TicketClaims)
      → verify secret now qr ≡ verified claims
      → (p : lib.Chars) × (s : lib.Chars) × (lib.split qr ≡ p ∷ s ∷ [])
        × HasSignature secret p s claims
        × (lacks_claims claims ≡ false)
        × (has_expired now claims ≡ false)
  unfolding verify
  verified_is_signed secret now qr claims h = split_is_signed secret now claims (lib.split qr) h
