-- ===== src/Driver/Screening.antt =====
-- The checks of a proposal before consensus sees it: `validate_proposal_with_validator` of
-- crates/rbft-node/src/rbft_consensus.rs, and the reading of raw RLP that it ends with.
use rbft.Base.{
  ℕ, ◌≡◌, refl, List, [], ◌∷◌, Option, none, some, Bool, true, false, ◌&&◌, ◌==◌, leb,
  if◌then◌else◌, length, get_elem?, is_empty, arith, inl, inr, ◌⊎◌, Option-cases,
}
use rbft.Types.{Address, Bytes, Proposal}
use rbft.Driver.Reth.{Reth, SealedBlock}

-- `alloy_rlp::PayloadView`.
pub data PayloadView : Type 0 where
  text : Bytes → PayloadView
  items : List Bytes → PayloadView

-- `Header::decode_raw` and `decode_exact` of alloy_rlp.
pub record RawRlp : Type 0 where
  pub decode_raw : Bytes → Option (PayloadView × Bytes)
  pub decode_exact_u64 : Bytes → Option ℕ
  pub decode_exact_address : Bytes → Option Address

-- An error, no metadata for a payload that is no list, or the number, time and proposer.
pub data Metadata : Type 0 where
  error : Metadata
  absent : Metadata
  found : ℕ → ℕ → Address → Metadata

abbrev found_if : Option ℕ → Option ℕ → Option Address → Metadata
found_if (some number) (some timestamp) (some proposer) = found number timestamp proposer
found_if _ _ _ = error

abbrev decode_field : {A : Type 0} → (Bytes → Option A) → Option Bytes → Option A
decode_field decode none = none
decode_field decode (some bytes) = decode bytes

module _ ⦃raw : RawRlp⦄ where
  -- The fields 8, 11 and 2 of a header that has more than 11.
  abbrev header_metadata : Option (PayloadView × Bytes) → Metadata
  header_metadata none = error
  header_metadata (some (text t, rest)) = error
  header_metadata (some (items fields, rest)) =
      if leb (length fields) 11
      then error
      else found_if (decode_field raw.decode_exact_u64 (get_elem? fields 8))
          (decode_field raw.decode_exact_u64 (get_elem? fields 11))
          (decode_field raw.decode_exact_address (get_elem? fields 2))

  abbrev first_metadata : List Bytes → Metadata
  first_metadata [] = error
  first_metadata (header ∷ others) = header_metadata (raw.decode_raw header)

  abbrev payload_metadata : Option (PayloadView × Bytes) → Metadata
  payload_metadata none = error
  payload_metadata (some (text t, rest)) = absent
  payload_metadata (some (items fields, rest)) =
      if is_empty rest then first_metadata fields else error

  unfoldable pub extract_rlp_block_metadata : Bytes → Metadata
  extract_rlp_block_metadata body = payload_metadata (raw.decode_raw body)

  abbrev agrees : Metadata → ℕ → ℕ → Address → Bool
  agrees error height timestamp proposer = false
  agrees absent height timestamp proposer = true
  agrees (found n t p) height timestamp proposer = n == height && t == timestamp && p == proposer

  unfoldable pub validate_block_payload_metadata : Bytes → ℕ → ℕ → Address → Bool
  validate_block_payload_metadata body height timestamp proposer =
      agrees (extract_rlp_block_metadata body) height timestamp proposer

  module _ ⦃reth : Reth⦄ where
    -- In round 0 the beneficiary must be the proposer; later the block may be an earlier proposer's.
    abbrev validate_decoded : Proposal → Option (SealedBlock × Bytes) → Bool
    validate_decoded p none = false
    validate_decoded p (some (sealed, rest)) =
        let h = p.proposed_block.header in
        is_empty rest
        && sealed.number == h.height
        && sealed.timestamp == h.timestamp
        && (if h.round_number == 0 then sealed.beneficiary == h.proposer else true)
        && reth.validate_header sealed
        && validate_block_payload_metadata p.proposed_block.body h.height h.timestamp
            (if h.round_number == 0 then h.proposer else sealed.beneficiary)

    unfoldable pub validate_proposal_with_validator : Proposal → Bool
    validate_proposal_with_validator p =
        validate_decoded p (reth.decode_sealed p.proposed_block.body)

    -- What is known of a proposal that passes.
    pub record IsScreened (p : Proposal) : Type 0 where
      pub sealed : SealedBlock
      pub decoded : reth.decode_sealed p.proposed_block.body ≡ some (sealed, [])
      pub number : sealed.number ≡ p.proposed_block.header.height
      pub timestamp : sealed.timestamp ≡ p.proposed_block.header.timestamp
      pub beneficiary :
          p.proposed_block.header.round_number ≡ 0
          → sealed.beneficiary ≡ p.proposed_block.header.proposer
      pub valid : reth.validate_header sealed ≡ true
      pub metadata :
          (extract_rlp_block_metadata p.proposed_block.body ≡ absent)
          ⊎ (extract_rlp_block_metadata p.proposed_block.body
              ≡ found sealed.number sealed.timestamp sealed.beneficiary)

    agrees-found :
        (m : Metadata) (h t : ℕ) (a : Address)
        → agrees m h t a ≡ true
        → (m ≡ absent) ⊎ (m ≡ found h t a)
    agrees-found error h t a e = cc
    agrees-found absent h t a e = inl refl
    agrees-found (found n s p) h t a e = inr (ground arith)

    agrees_subst :
        (m : Metadata) {h h2 t t2 : ℕ} {a a2 : Address}
        → h2 ≡ h
        → t2 ≡ t
        → a ≡ a2
        → agrees m h t a ≡ true
        → agrees m h2 t2 a2 ≡ true
    agrees_subst m eh et ea e = cc

    screened :
        (p : Proposal) (sealed : SealedBlock) (rest : Bytes)
        → reth.decode_sealed p.proposed_block.body ≡ some (sealed, rest)
        → validate_decoded p (some (sealed, rest)) ≡ true
        → IsScreened p
    unfolding validate_block_payload_metadata
    screened p sealed rest d e =
        let empty : rest ≡ [] = ground arith in
        let h = p.proposed_block.header in
        let beneficiary : (if h.round_number == 0 then h.proposer else sealed.beneficiary)
            ≡ sealed.beneficiary =
          ground arith in
        let number : sealed.number ≡ h.height = ground arith in
        let timestamp : sealed.timestamp ≡ h.timestamp = ground arith in
        let checked : agrees (extract_rlp_block_metadata p.proposed_block.body) h.height h.timestamp
              (if h.round_number == 0 then h.proposer else sealed.beneficiary)
            ≡ true =
          ground arith in
        record {
          sealed = sealed;
          decoded = rw empty at d;
          number = number;
          timestamp = timestamp;
          beneficiary = λ z. ground arith;
          valid = ground arith;
          metadata =
              agrees-found (extract_rlp_block_metadata p.proposed_block.body) sealed.number
                sealed.timestamp sealed.beneficiary
                (agrees_subst (extract_rlp_block_metadata p.proposed_block.body) number timestamp
                  beneficiary checked);
        }

    -- A proposal that the execution layer's check lets through has a body that is a block and nothing
    -- more: its number and time are those of the proposal's header, its header is valid, in round 0 its
    -- beneficiary is the proposer; and the raw fields of the body, if it is a list, are those of the block.
    pub validate_proposal-IsScreened :
        (p : Proposal) → validate_proposal_with_validator p ≡ true → IsScreened p
    unfolding validate_proposal_with_validator
    validate_proposal-IsScreened p e =
        elim (Option-cases (reth.decode_sealed p.proposed_block.body)) [
          | inl n ↦ ground arith
          | inr ((sealed, rest), n) ↦ screened p sealed rest n (rw n at e)
        ]
