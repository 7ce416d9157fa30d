-- ===== src/Codec/RoundTrip.antt =====
-- Encoding and decoding an `UnsignedRoundChange`.
use rbft.Base.{
  ℕ, ◌+◌, ◌≤◌, ◌<◌, ◌^◌, ◌≡◌, refl, sym, ap, subst, [], ◌∷◌, ◌++◌, Option, none, some, true, false,
  ◌==◌, ltb, ok, panic, length, take, drop, length-append, arith,
}
use mathlib.Core.List.{append-nil, append_assoc}
use rbft.Types.{Bytes, Hash, UnsignedRoundChange}
use rbft.Codec.{
  Rlp, Decoder, encoded_round, decoded_round, value_bytes, value_length, round_bytes, round_length,
  payload, payload_length, encode_unsigned_round_change, decode_optional, decode_fields,
  decode_unsigned_round_change,
}

take-append : (xs ys : Bytes) → take (length xs) (xs ++ ys) ≡ xs
take-append [] ys = refl
take-append (x ∷ xs) ys = ap (◌∷◌ x) (take-append xs ys)

drop-append : (xs ys : Bytes) → drop (length xs) (xs ++ ys) ≡ ys
drop-append [] ys = refl
drop-append (x ∷ xs) ys = drop-append xs ys

-- A round change whose numbers are in range.
abbrev pub InRange : UnsignedRoundChange → Type 0
InRange u =
    (u.height < 2 ^ 64)
    × (u.round < 2 ^ 64)
    × ((h : Hash) → u.prepared_value ≡ some h → h < 2 ^ 256)
    × ((r : ℕ) → u.prepared_round ≡ some r → r + 1 < 2 ^ 64)

-- A field that does not start with the code of the empty string is read as present.
decode_optional-present :
    {A : Type 0} (d : Decoder A) (a : A) (bytes rest : Bytes) (c : ℕ) (bs : Bytes)
    → bytes ≡ c ∷ bs
    → (c == 128) ≡ false
    → d (bytes ++ rest) ≡ some (a, rest)
    → decode_optional d (bytes ++ rest) ≡ some (some a, rest)
unfolding decode_optional
decode_optional-present d a [] rest c bs e n r = cc
decode_optional-present d a (b ∷ bytes) rest c bs e n r =
    let other : (b == 128) ≡ false = ground arith in rw (other, r)

-- What is written for a prepared round, and what is read for it.
encoded_round_lem :
    (p : Option ℕ)
    → ((r : ℕ) → p ≡ some r → r + 1 < 2 ^ 64)
    → (e : Option ℕ) × (encoded_round p ≡ ok e)
      × (decoded_round e ≡ p)
      × ((n : ℕ) → e ≡ some n → (0 < n) × (n < 2 ^ 64))
encoded_round_lem none h = (none, refl, refl, λ n e. cc)
encoded_round_lem (some r) h =
    (some (r + 1), ground (arith, h r), ground arith, λ n e. ground (arith, h r))

module _ ⦃rlp : Rlp⦄ where
  value_bytes-length :
      (v : Option Hash) (r : Option ℕ) → value_length v r ≡ length (value_bytes v r)
  value_bytes-length (some v) r = rlp.hash_length v
  value_bytes-length none none = refl
  value_bytes-length none (some r) = refl

  round_bytes-length : (r : Option ℕ) → round_length r ≡ length (round_bytes r)
  round_bytes-length none = refl
  round_bytes-length (some r) = rlp.u64_length r

  -- The length that the header announces is that of the payload.
  payload_length_lem :
      (u : UnsignedRoundChange) (r : Option ℕ) → payload_length u r ≡ length (payload u r)
  payload_length_lem u r = omega (
    arith,
    rlp.u64_length u.height,
    rlp.u64_length u.round,
    value_bytes-length u.prepared_value r,
    round_bytes-length r,
    length-append (rlp.encode_u64 u.height)
        (rlp.encode_u64 u.round ++ (value_bytes u.prepared_value r ++ round_bytes r)),
    length-append (rlp.encode_u64 u.round) (value_bytes u.prepared_value r ++ round_bytes r),
    length-append (value_bytes u.prepared_value r) (round_bytes r),
  )

  value_bytes-read :
      (v : Option Hash) (r : Option ℕ)
      → ((h : Hash) → v ≡ some h → h < 2 ^ 256)
      → decode_optional rlp.decode_hash (value_bytes v r ++ round_bytes r) ≡ some (v, round_bytes r)
  unfolding decode_optional
  value_bytes-read none none h = refl
  value_bytes-read none (some r) h = refl
  value_bytes-read (some v) r h =
      let (c, bs, e, n) = rlp.hash_head v in
      decode_optional-present rlp.decode_hash v (rlp.encode_hash v) (round_bytes r) c bs e n
        (rlp.hash_read v (round_bytes r) (h v refl))

  round_bytes-read :
      (r : Option ℕ)
      → ((n : ℕ) → r ≡ some n → (0 < n) × (n < 2 ^ 64))
      → decode_optional rlp.decode_u64 (round_bytes r) ≡ some (r, [])
  unfolding decode_optional
  round_bytes-read none h = refl
  round_bytes-read (some r) h =
      let (c, bs, e, n) = rlp.u64_head r (h r refl).0 in
      subst (λ b. decode_optional rlp.decode_u64 b ≡ some (some r, []))
        (append-nil (rlp.encode_u64 r))
        (decode_optional-present rlp.decode_u64 r (rlp.encode_u64 r) [] c bs e n
          (rlp.u64_read r [] (h r refl).1))

  -- The payload of a round change is read back.
  payload-read :
      (u : UnsignedRoundChange) (r : Option ℕ)
      → InRange u
      → decoded_round r ≡ u.prepared_round
      → ((n : ℕ) → r ≡ some n → (0 < n) × (n < 2 ^ 64))
      → decode_fields (payload u r) ≡ some u
  unfolding decode_fields
  payload-read u r (h, k, v, _) back small = rw (
    rlp.u64_read u.height
        (rlp.encode_u64 u.round ++ (value_bytes u.prepared_value r ++ round_bytes r)) h,
    rlp.u64_read u.round (value_bytes u.prepared_value r ++ round_bytes r) k,
    value_bytes-read u.prepared_value r v,
    round_bytes-read r small,
    back,
  )

  frame-read :
      (p rest : Bytes) (u : UnsignedRoundChange)
      → decode_fields p ≡ some u
      → decode_unsigned_round_change ((rlp.encode_header true (length p) ++ p) ++ rest)
        ≡ ok (some (u, rest))
  unfolding decode_unsigned_round_change
  frame-read p rest u e =
      let fits : length p ≤ length (p ++ rest) = omega (arith, length-append p rest) in
      let long_enough : ltb (length (p ++ rest)) (length p) ≡ false = ground arith in
      rw (
        append_assoc (rlp.encode_header true (length p)) p rest,
        rlp.header_read (length p) (p ++ rest) fits,
        long_enough,
        take-append p rest,
        drop-append p rest,
        e,
      )

  -- A round change whose height, round and prepared value are in range, and whose prepared round is
  -- below 2^64 - 1, is encoded, and decoding gives it back from the front of any buffer, with the rest of
  -- the buffer.
  pub decode-encode :
      (u : UnsignedRoundChange) (rest : Bytes)
      → InRange u
      → (bytes : Bytes) × (encode_unsigned_round_change u ≡ ok bytes)
        × (decode_unsigned_round_change (bytes ++ rest) ≡ ok (some (u, rest)))
  unfolding encode_unsigned_round_change decode_unsigned_round_change
  decode-encode u rest h =
      let (r, e, back, small) = encoded_round_lem u.prepared_round h.3 in
      let read = payload-read u r h back small in
      (
        rlp.encode_header true (payload_length u r) ++ payload u r,
        rw e refl,
        subst
            (λ n.
              decode_unsigned_round_change ((rlp.encode_header true n ++ payload u r) ++ rest)
              ≡ ok (some (u, rest)))
            (sym (payload_length_lem u r)) (frame-read (payload u r) rest u read),
      )

  -- Where the prepared round is the largest u64, encoding panics.
  encode-overflow :
      (u : UnsignedRoundChange)
      → u.prepared_round ≡ some 18446744073709551615
      → encode_unsigned_round_change u ≡ panic
  unfolding encode_unsigned_round_change
  encode-overflow u e = rw e refl
