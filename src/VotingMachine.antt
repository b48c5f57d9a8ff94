-- ===== src/VotingMachine.antt =====
-- overhead/consensus/votingmachine.go: the votes that a leader collects until they make a quorum
-- certificate. Votes are verified in the call (ShouldVerifyVotesSync); with the other setting a
-- goroutine does the same later, under the same mutex.
pub mod Votes
use optilog_artifacts.Prelude.{
  ℕ, Bool, true, false, Option, none, some, List, [], ◌∷◌, ◌++◌, ltb, leb, if◌then◌else◌, length,
}
use optilog_artifacts.Prelude.Dict.{Dict, lookup, insert, delete}
use optilog_artifacts.Types.{
  Block, PartialCert, QuorumCert, VoteMsg, NewViewMsg, Complaint, complaint, no_proof, suspicion,
  new_sync_info, with_qc,
}
use optilog_artifacts.Chain.{Chain, get, local_get}
use optilog_artifacts.Crypto.{create_quorum_cert, verify_partial_cert}
use optilog_artifacts.Consensus.{Config}

-- What goes to the event loop and the ranking, newest first.
pub data Event : Type 0 where
  delay_until_proposal : VoteMsg → Event
  add_complaint : Complaint → Event
  new_view : NewViewMsg → Event

pub record VotingMachine : Type 0 where
  pub chain : Chain
  pub verified_votes : Dict (List PartialCert)
  pub out : List Event

abbrev pub votes_for : ℕ → Dict (List PartialCert) → List PartialCert
votes_for h m = elim (lookup h m) [ none ↦ [] | some votes ↦ votes ]

-- The deferred function: votes for blocks that are unknown or not above the highest certificate go.
unfoldable pub sweep : Chain → ℕ → Dict (List PartialCert) → Dict (List PartialCert)
sweep c high [] = []
sweep c high ((h, votes) ∷ m) =
    let rest = sweep c high m in
    elim (local_get h c) [
      | none ↦ rest
      | some b ↦ if leb b.view high then rest else (h, votes) ∷ rest
    ]

unfoldable pub clean : ℕ → VotingMachine → VotingMachine
unfolding sweep
clean high vm = record vm { verified_votes = sweep vm.chain high vm.verified_votes }

module _ (config : Config) where
  unfoldable pub certify : PartialCert → Option QuorumCert → VotingMachine → VotingMachine
  certify cert none vm = vm
  certify cert (some qc) vm = record vm {
    verified_votes = delete cert.block_hash vm.verified_votes;
    out = new_view (record { id = config.id; sync_info = with_qc new_sync_info qc }) ∷ vm.out;
  }

  -- The vote is added, and with a quorum the certificate is made.
  unfoldable pub add_vote : PartialCert → Block → VotingMachine → VotingMachine
  unfolding certify
  add_vote cert block vm =
      let votes = votes_for cert.block_hash vm.verified_votes ++ (cert ∷ []) in
      let vm' : VotingMachine = record vm {
        verified_votes = insert cert.block_hash votes vm.verified_votes;
      } in
      if ltb (length votes) (config.quorum block.view)
      then vm'
      else certify cert (create_quorum_cert config.base config.genesis config.quorum block votes)
          vm'

  -- `high` is the view of the synchronizer's highest certificate.
  unfoldable pub verify_cert : ℕ → PartialCert → Block → VotingMachine → VotingMachine
  unfolding clean add_vote
  verify_cert high cert block vm =
      let (ok, c) =
        verify_partial_cert config.base config.genesis config.quorum config.fetch cert vm.chain in
      let vm' : VotingMachine = record vm { chain = c } in
      if ok then clean high (add_vote cert block vm') else vm'

  unfoldable pub complain : VoteMsg → VotingMachine → VotingMachine
  complain vote vm =
      if config.has_ranking
      then record vm {
        out = add_complaint (complaint 0 vote.id config.id suspicion no_proof) ∷ vm.out;
      }
      else vm

  unfoldable pub count_vote : ℕ → VoteMsg → Block → VotingMachine → VotingMachine
  unfolding verify_cert complain
  count_vote high vote block vm =
      if leb block.view high then complain vote vm else verify_cert high vote.partial_cert block vm

  -- A vote for a block that is not known yet waits for the next proposal, and is then fetched.
  unfoldable pub on_vote : ℕ → VoteMsg → VotingMachine → VotingMachine
  unfolding count_vote
  on_vote high vote vm =
      let (fetched, c) = get config.fetch vote.partial_cert.block_hash vm.chain in
      if vote.deferred
      then elim fetched [
        | none ↦ record vm { chain = c }
        | some block ↦ count_vote high vote block (record vm { chain = c })
      ]
      else elim (local_get vote.partial_cert.block_hash vm.chain) [
        | none ↦ record vm { out = delay_until_proposal (record vote { deferred = true }) ∷ vm.out }
        | some block ↦ count_vote high vote block vm
      ]
