-- ===== src/Codec/Messages.antt =====
-- The tagged encodings: a `QbftMessage` (crates/rbft/src/types/qbft_message.rs), and around it the
-- `Message` that peers exchange (crates/rbft-node/src/rbft_consensus/rbft_protocol.rs).
use mathlib.Core.List.{append_assoc}
use rbft.Base.{
  ℕ, ◌<◌, ◌≡◌, List, [], ◌∷◌, ◌++◌, Option, none, some, Bool, true, ◌==◌, if◌then◌else◌, arith,
}
use rbft.Types.{
  Bytes, Proposal, Prepare, Commit, RoundChange, SignedNewBlock, BlockRequest, BlockResponse,
  QbftMessage, proposal, prepare, commit, round_change, new_block, block_request, block_response,
}
use rbft.Codec.{Decoder, and_decode}

-- What a derive macro gives for a payload: its encoding, if valid, is read back from the front of a
-- buffer.
pub record Payload (A : Type 0) : Type 0 where
  pub encode : A → Bytes
  pub decode : Decoder A
  pub is_valid : A → Bool
  pub read : (a : A) (rest : Bytes) → is_valid a ≡ true → decode (encode a ++ rest) ≡ some (a, rest)

abbrev pub map_decoded : {A B : Type 0} → (A → B) → Option (A × Bytes) → Option (B × Bytes)
map_decoded f none = none
map_decoded f (some (a, rest)) = some (f a, rest)

-- `Ok(constructor(Decodable::decode(buf)?))`.
abbrev pub decode_as : {A B : Type 0} → Payload A → (A → B) → Decoder B
decode_as p f buf = map_decoded f (p.decode buf)

pub record Payloads : Type 0 where
  pub tag : Payload ℕ
  pub proposals : Payload Proposal
  pub prepares : Payload Prepare
  pub commits : Payload Commit
  pub round_changes : Payload RoundChange
  pub new_blocks : Payload SignedNewBlock
  pub block_requests : Payload BlockRequest
  pub block_responses : Payload BlockResponse
  -- `Vec<Bytes>`.
  pub transactions : Payload (List Bytes)
  pub tag_valid : (n : ℕ) → n < 256 → tag.is_valid n ≡ true

module _ ⦃d : Payloads⦄ where
  -- `QbftMessage::encode`.
  unfoldable pub encode_message : QbftMessage → Bytes
  encode_message (proposal p) = d.tag.encode 0 ++ d.proposals.encode p
  encode_message (prepare p) = d.tag.encode 1 ++ d.prepares.encode p
  encode_message (commit c) = d.tag.encode 2 ++ d.commits.encode c
  encode_message (round_change rc) = d.tag.encode 3 ++ d.round_changes.encode rc
  encode_message (new_block b) = d.tag.encode 4 ++ d.new_blocks.encode b
  encode_message (block_request r) = d.tag.encode 5 ++ d.block_requests.encode r
  encode_message (block_response r) = d.tag.encode 6 ++ d.block_responses.encode r

  abbrev pub decode_tagged : ℕ → Decoder QbftMessage
  decode_tagged t buf =
      if t == 0
      then decode_as d.proposals proposal buf
      else if t == 1
      then decode_as d.prepares prepare buf
      else if t == 2
      then decode_as d.commits commit buf
      else if t == 3
      then decode_as d.round_changes round_change buf
      else if t == 4
      then decode_as d.new_blocks new_block buf
      else if t == 5
      then decode_as d.block_requests block_request buf
      else if t == 6
      then decode_as d.block_responses block_response buf
      else none

  -- `QbftMessage::decode`.
  unfoldable pub decode_message : Decoder QbftMessage
  decode_message buf = and_decode (d.tag.decode buf) decode_tagged

  -- The payload of the message can be encoded.
  abbrev pub has_valid_payload : QbftMessage → Bool
  has_valid_payload (proposal p) = d.proposals.is_valid p
  has_valid_payload (prepare p) = d.prepares.is_valid p
  has_valid_payload (commit c) = d.commits.is_valid c
  has_valid_payload (round_change rc) = d.round_changes.is_valid rc
  has_valid_payload (new_block b) = d.new_blocks.is_valid b
  has_valid_payload (block_request r) = d.block_requests.is_valid r
  has_valid_payload (block_response r) = d.block_responses.is_valid r

  decode-tag :
      (t : ℕ) (payload rest : Bytes)
      → t < 256
      → decode_message ((d.tag.encode t ++ payload) ++ rest) ≡ decode_tagged t (payload ++ rest)
  unfolding decode_message
  decode-tag t payload rest small = rw (
    append_assoc (d.tag.encode t) payload rest,
    d.tag.read t (payload ++ rest) (d.tag_valid t small),
  )

  -- A message whose payload can be encoded is decoded as itself, with the rest of the buffer.
  pub decode_message-encode_message :
      (m : QbftMessage) (rest : Bytes)
      → has_valid_payload m ≡ true
      → decode_message (encode_message m ++ rest) ≡ some (m, rest)
  unfolding encode_message
  decode_message-encode_message (proposal p) rest v =
      rw (decode-tag 0 (d.proposals.encode p) rest (omega arith), d.proposals.read p rest v)
  decode_message-encode_message (prepare p) rest v =
      rw (decode-tag 1 (d.prepares.encode p) rest (omega arith), d.prepares.read p rest v)
  decode_message-encode_message (commit c) rest v =
      rw (decode-tag 2 (d.commits.encode c) rest (omega arith), d.commits.read c rest v)
  decode_message-encode_message (round_change rc) rest v =
      rw (
        decode-tag 3 (d.round_changes.encode rc) rest (omega arith),
        d.round_changes.read rc rest v,
      )
  decode_message-encode_message (new_block b) rest v =
      rw (decode-tag 4 (d.new_blocks.encode b) rest (omega arith), d.new_blocks.read b rest v)
  decode_message-encode_message (block_request r) rest v =
      rw (
        decode-tag 5 (d.block_requests.encode r) rest (omega arith),
        d.block_requests.read r rest v,
      )
  decode_message-encode_message (block_response r) rest v = rw (
    decode-tag 6 (d.block_responses.encode r) rest (omega arith),
    d.block_responses.read r rest v,
  )

-- `MessageKind`, which fixes the `MessageId`: both constructors of a message set the two together.
pub data MessageKind : Type 0 where
  message : QbftMessage → MessageKind
  transactions : List Bytes → MessageKind

-- `message_type as u8`.
abbrev pub message_id : MessageKind → ℕ
message_id (message m) = 0
message_id (transactions txs) = 1

module _ ⦃d : Payloads⦄ where
  abbrev encode_kind : MessageKind → Bytes
  encode_kind (message m) = encode_message m
  encode_kind (transactions txs) = d.transactions.encode txs

  -- `Message::encoded`: the id is one raw byte.
  unfoldable pub encoded : MessageKind → Bytes
  encoded m = message_id m ∷ encode_kind m

  -- `Message::decode_message`; what stands after the message in the buffer is left in it.
  unfoldable pub decode_frame : Decoder MessageKind
  decode_frame [] = none
  decode_frame (id ∷ buf) =
      if id == 0
      then map_decoded message (decode_message buf)
      else if id == 1
      then decode_as d.transactions transactions buf
      else none

  abbrev pub has_valid_kind : MessageKind → Bool
  has_valid_kind (message m) = has_valid_payload m
  has_valid_kind (transactions txs) = d.transactions.is_valid txs

  -- What one peer sends, the other receives: a frame whose payload can be encoded is decoded as itself.
  pub decode_frame-encoded :
      (m : MessageKind) (rest : Bytes)
      → has_valid_kind m ≡ true
      → decode_frame (encoded m ++ rest) ≡ some (m, rest)
  unfolding encoded decode_frame
  decode_frame-encoded (message m) rest v = rw (decode_message-encode_message m rest v)
  decode_frame-encoded (transactions txs) rest v = rw (d.transactions.read txs rest v)
