-- ===== src/LeaderRotation/Carousel.antt =====
-- overhead/leaderrotation/carousel.go: a leader among those whose votes the committed head carries.
--
-- `random` is the number that math/rand gives for a seed; the genesis block is known by its hash.
pub mod Elected
use optilog_artifacts.Prelude.{
  ℕ, zero, suc, ◌+◌, ◌-◌, ◌%◌, Bool, true, false, not, Option, none, some, List, [], ◌∷◌, ◌==◌, leb,
  if◌then◌else◌, keep, get_or, length,
}
use optilog_artifacts.Prelude.Sort.{sort}
use optilog_artifacts.Prelude.Words.{u64_mod, add_u64, sub_u64}
use optilog_artifacts.Types.{Block, QuorumSignature, num_faulty}
use optilog_artifacts.Types.IdSet.{IdSet, new_id_set, contains, add}
use optilog_artifacts.Chain.{Chain, Network, get}
use optilog_artifacts.LeaderRotation.{choose_round_robin}

unfoldable pub candidates : List ℕ → IdSet → List ℕ
unfolding contains sort
candidates participants authors = sort (keep (λ id. not (contains id authors)) participants)

unfoldable pub pick : ℕ → List ℕ → Option ℕ
pick number [] = none
pick number (x ∷ xs) = some (get_or (x ∷ xs) (number % length (x ∷ xs)) x)

module _ (fetch : Network) (genesis : ℕ) where
  -- At most `i` rounds, from a block that may be missing.
  unfoldable pub last_authors : ℕ → Option Block → IdSet → Chain → IdSet × Chain
  unfolding add
  last_authors zero block authors c = (authors, c)
  last_authors (suc i) none authors c = (authors, c)
  last_authors (suc i) (some block) authors c =
      let (parent, c') = get fetch block.parent c in
      let further = last_authors i parent (add block.proposer authors) c' in
      if block.hash == genesis then (authors, c) else further

  module _ (n chain_length seed : ℕ) (random : ℕ → ℕ) where
    unfoldable pub elect : Block → QuorumSignature → ℕ → Chain → Option ℕ × Chain
    unfolding last_authors candidates pick
    elect head sig round c =
        let (authors, c') = last_authors (num_faulty n) (some head) new_id_set c in
        (pick (random (add_u64 seed round)) (candidates sig.participants authors), c')

    unfoldable pub elect_signed : Block → Option QuorumSignature → ℕ → Chain → Option ℕ × Chain
    unfolding elect choose_round_robin
    elect_signed head none round c = (choose_round_robin round n, c)
    elect_signed head (some sig) round c =
        let elected = elect head sig round c in
        if head.view == sub_u64 round chain_length then elected else (choose_round_robin round n, c)

    unfoldable pub carousel : Block → ℕ → Chain → Option ℕ × Chain
    unfolding elect_signed
    carousel head round c = elect_signed head head.cert.signature round c
