-- ===== src/Driver/Advance/Total.antt =====
-- The reading of the configuration and the answering of requests, with which a tick begins, do not panic.
use rbft.Base.{
  max, ◌-◌, ◌==◌, ok, u64, ℕ, ◌+◌, ◌≡◌, refl, List, [], ◌∷◌, Gives, inl, inr, Bool-cases,
}
use rbft.Types.{BlockRequest, BlockResponse, QbftMessage}
use rbft.Env.{Env}
use rbft.Driver.Reth.{Reth}
use rbft.Driver.Sync.{World, gather}
use rbft.Driver.Contract.Total.{HasEpochs, get_on_chain_config-Gives}
use rbft.Driver.Sync.Answers.{handle_block_request-Gives}
use rbft.Driver.Screening.{RawRlp, validate_proposal_with_validator}
use rbft.Driver.Advance.{advance, refresh_config, answer_each, advance_with}
use rbft.Driver.Commit.{Turn}

module _ ⦃env : Env⦄ ⦃reth : Reth⦄ where
  refresh_config-Gives :
      (node_height : ℕ) (r : reth.State) (turn : Turn)
      → HasEpochs (reth.provider r)
      → (fresh : Turn) × (refresh_config node_height r turn ≡ ok fresh)
  unfolding refresh_config
  refresh_config-Gives nh r turn epochs = elim (Bool-cases (turn.cached_config_height == nh)) [
    | inl e ↦ rw e (turn, refl)
    | inr e ↦
        let (config, f) = get_on_chain_config-Gives (reth.provider r) (max (nh - 1) 1) epochs in
        rw (e, f) (_, refl)
  ]

  answer_each-Gives :
      (r : reth.State) (qs : List BlockRequest)
      → HasEpochs (reth.provider r)
      → (answers : List BlockResponse) × (answer_each r qs ≡ ok answers)
  unfolding answer_each
  answer_each-Gives r [] epochs = ([], refl)
  answer_each-Gives r (q ∷ qs) epochs =
      let (o, e) = handle_block_request-Gives r q epochs in
      let (answers, f) = answer_each-Gives r qs epochs in rw (e, answer_each, f) (_, refl)

  -- What is left to show of a tick, where the epoch lengths of the contract are above 0.
  pub advance-Gives {κ} :
      ⦃raw : RawRlp⦄
      → (P : World × List QbftMessage × Turn → Type κ) (turn : Turn) (w : World)
        (messages : List QbftMessage)
      → HasEpochs (reth.provider w.0)
      → ((fresh : Turn) (answers : List BlockResponse)
          → Gives
              (advance_with
                (u64 (reth.best_block_number w.0 + 1))
                fresh
                w
                (gather validate_proposal_with_validator messages)
                answers)
              P)
      → Gives (advance turn w messages) P
  unfolding advance
  advance-Gives P turn w messages epochs rest =
      let come = gather validate_proposal_with_validator messages in
      let (fresh, e) =
        refresh_config-Gives (u64 (reth.best_block_number w.0 + 1)) w.0 turn epochs in
      let (answers, f) = answer_each-Gives w.0 come.block_requests epochs in
      rw (e, f) (rest fresh answers)
