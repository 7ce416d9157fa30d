-- ===== src/Tests/CodecExamples.antt =====
-- The theorems on the encodings, over small encodings: a number is a marker and itself.
use rbft.Base.{
  ℕ, zero, suc, ◌<◌, ◌≤◌, ◌≡◌, refl, [], ◌∷◌, ◌++◌, none, some, Bool, true, false, ◌==◌, leb,
  length, if◌then◌else◌, arith, ok,
}
use rbft.Types.{Bytes, UnsignedRoundChange, Prepare}
use rbft.Codec.{Rlp, Decoder, encode_unsigned_round_change, decode_unsigned_round_change}
use rbft.Codec.RoundTrip.{InRange, decode-encode}
use rbft.Codec.Messages.{Payload, Payloads, message, encoded, decode_frame, decode_frame-encoded}
use rbft.Tests.{prepare_in}

abbrev decode_number : Decoder ℕ
decode_number [] = none
decode_number (c ∷ []) = if c == 128 then some (0, []) else none
decode_number (c ∷ n ∷ rest) = if c == 128 then some (0, n ∷ rest) else some (n, rest)

abbrev decode_marked : Decoder ℕ
decode_marked (c ∷ n ∷ rest) = some (n, rest)
decode_marked _ = none

abbrev decode_fitting : Decoder (Bool × ℕ)
decode_fitting (c ∷ n ∷ rest) = if leb n (length rest) then some ((c == 192, n), rest) else none
decode_fitting _ = none

abbrev encode_number : ℕ → Bytes
encode_number zero = 128 ∷ []
encode_number (suc n) = 1 ∷ suc n ∷ []

number_read : (n : ℕ) (rest : Bytes) → decode_number (encode_number n ++ rest) ≡ some (n, rest)
number_read zero [] = refl
number_read zero (b ∷ rest) = refl
number_read (suc n) rest = refl

number_head :
    (n : ℕ) → 0 < n → (c : ℕ) × (bs : Bytes) × (encode_number n ≡ c ∷ bs) × ((c == 128) ≡ false)
number_head zero pos = absurd (omega arith)
number_head (suc n) pos = (1, suc n ∷ [], refl, refl)

fitting_read :
    (n : ℕ) (rest : Bytes)
    → n ≤ length rest
    → decode_fitting (192 ∷ n ∷ rest) ≡ some ((true, n), rest)
fitting_read n rest fits = ground arith

instance abbrev small_rlp : Rlp
small_rlp = record {
  encode_u64 = encode_number;
  length_u64 = λ n. length (encode_number n);
  decode_u64 = decode_number;
  encode_hash = λ h. 160 ∷ h ∷ [];
  length_hash = λ h. 2;
  decode_hash = decode_marked;
  encode_header = λ l n. (if l then 192 else 128) ∷ n ∷ [];
  decode_header = decode_fitting;
  u64_read = λ n rest h. number_read n rest;
  u64_length = λ n. refl;
  u64_head = number_head;
  hash_read = λ h rest small. refl;
  hash_length = λ h. refl;
  hash_head = λ h. (160, h ∷ [], refl, refl);
  header_read = fitting_read;
}

-- Prepared in round 0, whose encoding is 1.
abbrev prepared_change : UnsignedRoundChange
prepared_change = record { height = 5; round = 2; prepared_value = some 9; prepared_round = some 0 }

prepared_change-InRange : InRange prepared_change
prepared_change-InRange = (omega arith, omega arith, λ h e. ground arith, λ r e. ground arith)

decode-encode_example :
    (bytes : Bytes) × (encode_unsigned_round_change prepared_change ≡ ok bytes)
    × (decode_unsigned_round_change (bytes ++ (7 ∷ [])) ≡ ok (some (prepared_change, 7 ∷ [])))
decode-encode_example = decode-encode prepared_change (7 ∷ []) prepared_change-InRange

not_valid : {P : Type 0} → false ≡ true → P
not_valid e = absurd cc

-- A payload that is never encoded here.
abbrev no_payload : {A : Type 0} → Payload A
no_payload = record {
  encode = λ a. [];
  decode = λ buf. none;
  is_valid = λ a. false;
  read = λ a rest v. not_valid v;
}

abbrev decode_prepare : Decoder Prepare
decode_prepare (h ∷ r ∷ d ∷ a ∷ s ∷ rest) = some (
  record {
    prepare_payload = record {
      unsigned_payload = record { height = h; round = r; digest = d };
      signature = record { author = a; signature = s };
    };
  },
  rest,
)
decode_prepare _ = none

abbrev encode_prepare : Prepare → Bytes
encode_prepare p =
    let u = p.prepare_payload.unsigned_payload in
    let s = p.prepare_payload.signature in
    u.height ∷ u.round ∷ u.digest ∷ s.author ∷ s.signature ∷ []

instance abbrev test_payloads : Payloads
test_payloads = record {
  tag = record {
    encode = λ n. n ∷ [];
    decode = λ buf. elim buf [ [] ↦ none | n ∷ rest ↦ some (n, rest) ];
    is_valid = λ n. true;
    read = λ n rest v. refl;
  };
  proposals = no_payload;
  prepares = record {
    encode = encode_prepare;
    decode = decode_prepare;
    is_valid = λ p. true;
    read = λ p rest v. refl;
  };
  commits = no_payload;
  round_changes = no_payload;
  new_blocks = no_payload;
  block_requests = no_payload;
  block_responses = no_payload;
  transactions = no_payload;
  tag_valid = λ n small. refl;
}

decode_frame-encoded_example :
    decode_frame (encoded (message (prepare_in 1 3)) ++ (7 ∷ []))
    ≡ some (message (prepare_in 1 3), 7 ∷ [])
decode_frame-encoded_example = decode_frame-encoded (message (prepare_in 1 3)) (7 ∷ []) refl
