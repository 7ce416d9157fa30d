-- ===== src/Codec.antt =====
-- The encodings that crates/rbft writes by hand: `UnsignedRoundChange` in src/types.rs and the tag of a
-- `QbftMessage` in src/types/qbft_message.rs. alloy_rlp gives the encoding of a u64, a hash and a
-- header, and its derive macros those of the other payloads.
pub mod RoundTrip
pub mod Messages
use rbft.Base.{
  ℕ, ◌+◌, ◌-◌, ◌≤◌, ◌<◌, ◌^◌, ◌≡◌, ◌≢◌, List, [], ◌∷◌, ◌++◌, Option, none, some, Bool, true, false,
  not, ◌==◌, ltb, if◌then◌else◌, ◌>>=◌, Exec, ok, panic, length, take, drop, is_empty, is_some,
}
use rbft.Types.{
  Hash, Bytes, UnsignedRoundChange, Proposal, Prepare, Commit, RoundChange, SignedNewBlock,
  BlockRequest, BlockResponse, QbftMessage, proposal, prepare, commit, round_change, new_block,
  block_request, block_response,
}

-- A decoder takes its value off the front of the buffer; none is its error.
abbrev pub Decoder : Type 0 → Type 0
Decoder A = Bytes → Option (A × Bytes)

-- `alloy_rlp::EMPTY_STRING_CODE`.
abbrev pub empty_string_code : ℕ
empty_string_code = 128

-- What alloy_rlp does: each encoding is read back from the front of a buffer, a header only if the
-- payload that it announces is there; a number above 0 does not start with the code of the empty
-- string, nor does the string of the 32 bytes of a hash.
pub record Rlp : Type 0 where
  pub encode_u64 : ℕ → Bytes
  pub length_u64 : ℕ → ℕ
  pub decode_u64 : Decoder ℕ
  pub encode_hash : Hash → Bytes
  pub length_hash : Hash → ℕ
  pub decode_hash : Decoder Hash
  -- Whether it is a list, and the length of the payload.
  pub encode_header : Bool → ℕ → Bytes
  pub decode_header : Decoder (Bool × ℕ)
  pub u64_read :
      (n : ℕ) (rest : Bytes) → n < 2 ^ 64 → decode_u64 (encode_u64 n ++ rest) ≡ some (n, rest)
  pub u64_length : (n : ℕ) → length_u64 n ≡ length (encode_u64 n)
  pub u64_head :
      (n : ℕ) → 0 < n → (c : ℕ) × (bs : Bytes) × (encode_u64 n ≡ c ∷ bs) × ((c == 128) ≡ false)
  pub hash_read :
      (h : Hash) (rest : Bytes) → h < 2 ^ 256 → decode_hash (encode_hash h ++ rest) ≡ some (h, rest)
  pub hash_length : (h : Hash) → length_hash h ≡ length (encode_hash h)
  pub hash_head :
      (h : Hash) → (c : ℕ) × (bs : Bytes) × (encode_hash h ≡ c ∷ bs) × ((c == 128) ≡ false)
  pub header_read :
      (n : ℕ) (rest : Bytes)
      → n ≤ length rest
      → decode_header (encode_header true n ++ rest) ≡ some ((true, n), rest)

-- `x?` on a decoder.
abbrev pub and_decode {ℓ κ} :
    {A : Type ℓ} {B : Type κ} → Option (A × Bytes) → (A → Bytes → Option B) → Option B
and_decode none f = none
and_decode (some (a, rest)) f = f a rest

-- `round.checked_add(1).expect(..)`.
abbrev pub encoded_round : Option ℕ → Exec (Option ℕ)
encoded_round none = ok none
encoded_round (some r) = if ltb r 18446744073709551615 then ok (some (r + 1)) else panic

-- The way back: 0 stands for no round.
abbrev pub decoded_round : Option ℕ → Option ℕ
decoded_round none = none
decoded_round (some v) = if v == 0 then none else some (v - 1)

-- An optional field: absent at the end of the list, or the code of the empty string.
unfoldable pub decode_optional : {A : Type 0} → Decoder A → Decoder (Option A)
decode_optional d [] = some (none, [])
decode_optional d (c ∷ bs) =
    if c == empty_string_code
    then some (none, bs)
    else and_decode (d (c ∷ bs)) λ a rest. some (some a, rest)

abbrev pub with_rest {ℓ} : {A : Type ℓ} → Option A → Bytes → Option (A × Bytes)
with_rest none rest = none
with_rest (some a) rest = some (a, rest)

module _ ⦃rlp : Rlp⦄ where
  abbrev pub value_bytes : Option Hash → Option ℕ → Bytes
  value_bytes (some v) r = rlp.encode_hash v
  value_bytes none r = if is_some r then empty_string_code ∷ [] else []

  abbrev pub value_length : Option Hash → Option ℕ → ℕ
  value_length (some v) r = rlp.length_hash v
  value_length none r = if is_some r then 1 else 0

  abbrev pub round_bytes : Option ℕ → Bytes
  round_bytes none = []
  round_bytes (some r) = rlp.encode_u64 r

  abbrev pub round_length : Option ℕ → ℕ
  round_length none = 0
  round_length (some r) = rlp.length_u64 r

  abbrev pub payload_length : UnsignedRoundChange → Option ℕ → ℕ
  payload_length u r =
      rlp.length_u64 u.height
      + rlp.length_u64 u.round
      + value_length u.prepared_value r
      + round_length r

  abbrev pub payload : UnsignedRoundChange → Option ℕ → Bytes
  payload u r =
      rlp.encode_u64 u.height
      ++ (rlp.encode_u64 u.round ++ (value_bytes u.prepared_value r ++ round_bytes r))

  -- `UnsignedRoundChange::encode`.
  unfoldable pub encode_unsigned_round_change : UnsignedRoundChange → Exec Bytes
  encode_unsigned_round_change u = do
    r ← encoded_round u.prepared_round
    ok (rlp.encode_header true (payload_length u r) ++ payload u r)

  unfoldable pub decode_fields : Bytes → Option UnsignedRoundChange
  decode_fields inner = and_decode (rlp.decode_u64 inner) λ height b1.
      and_decode (rlp.decode_u64 b1) λ round b2.
        and_decode (decode_optional rlp.decode_hash b2) λ value b3.
          and_decode (decode_optional rlp.decode_u64 b3) λ encoded b4.
            if is_empty b4
            then some (record {
              height = height;
              round = round;
              prepared_value = value;
              prepared_round = decoded_round encoded;
            })
            else none

  -- The slice `buf[..payload_length]` panics where the buffer is shorter.
  abbrev pub decode_payload :
      Option ((Bool × ℕ) × Bytes) → Exec (Option (UnsignedRoundChange × Bytes))
  decode_payload none = ok none
  decode_payload (some ((is_list, n), rest)) =
      if not is_list
      then ok none
      else if ltb (length rest) n
      then panic
      else ok (with_rest (decode_fields (take n rest)) (drop n rest))

  -- `UnsignedRoundChange::decode`.
  unfoldable pub decode_unsigned_round_change : Bytes → Exec (Option (UnsignedRoundChange × Bytes))
  decode_unsigned_round_change buf = decode_payload (rlp.decode_header buf)
