-- ===== src/Consensus/Quiet.antt =====
-- Calls of overhead/consensus/consensus.go that sign nothing: committing, above all.
use optilog_artifacts.Prelude.{
  ℕ, zero, suc, ◌≤◌, ◌<◌, ◌≡◌, refl, Option, none, some, List, [], ◌∷◌, leb, ltb, arith, Bool-cases,
  inl, inr, Option-cases, ◌∙◌,
}
use optilog_artifacts.Types.{Block}
use optilog_artifacts.Chain.{Chain, Network, prune_to_height}
use optilog_artifacts.Consensus.{
  Rules, Acceptor, ConsensusBase, Effect, fork, signed, emit, get_block, chain_of, put_chain,
  stop_voting,
}
use optilog_artifacts.Consensus.Commit.{
  Outcome, done, failed, endless, after_parent, commit_inner, handle_forks, after_prune,
  after_commit, commit,
}
use optilog_artifacts.Consensus.Rounds.{commit_inner_old, commit_inner_missing, commit_inner_parent}

-- The views of the signed blocks are below `n` and fall from the newest on.
abbrev pub SignedBelow : ℕ → List Effect → Type 0
SignedBelow n [] = Unit {0}
SignedBelow n (signed b ∷ es) = (b.view < n) × SignedBelow b.view es
SignedBelow n (_ ∷ es) = SignedBelow n es

pub SignedBelow-mono : (m n : ℕ) (es : List Effect) → m ≤ n → SignedBelow m es → SignedBelow n es
SignedBelow-mono m n [] h b = tt
SignedBelow-mono m n (signed a ∷ es) h b = (omega arith, b.1)
SignedBelow-mono m n (_ ∷ es) h b = SignedBelow-mono m n es h b

module _ {R : Rules} {A : Acceptor} {Sync : Type 0} where
  -- All signed views are at most the last voted view, and no two are the same.
  pub record IsOrdered (cs : ConsensusBase R A Sync) : Type 0 where
    pub ordered : SignedBelow (suc cs.last_vote) cs.out

  -- The call neither votes nor forgets a vote.
  pub record IsQuiet (cs cs' : ConsensusBase R A Sync) : Type 0 where
    pub same_vote : cs'.last_vote ≡ cs.last_vote
    pub keeps : (n : ℕ) → SignedBelow n cs.out → SignedBelow n cs'.out

  pub quiet : (cs cs' : ConsensusBase R A Sync) → IsQuiet cs cs' → IsOrdered cs → IsOrdered cs'
  quiet cs cs' q o = record { ordered = rw q.same_vote (q.keeps _ o.ordered) }

  pub IsQuiet-trans : (a b c : ConsensusBase R A Sync) → IsQuiet a b → IsQuiet b c → IsQuiet a c
  IsQuiet-trans a b c p q = record {
    same_vote = q.same_vote ∙ p.same_vote;
    keeps = λ n h. q.keeps n (p.keeps n h);
  }

  pub IsQuiet-refl : (cs : ConsensusBase R A Sync) → IsQuiet cs cs
  IsQuiet-refl cs = record { same_vote = refl; keeps = λ n h. h }

  pub get_block-IsQuiet :
      (fetch : Network) (h : ℕ) (cs : ConsensusBase R A Sync) → IsQuiet cs (get_block fetch h cs).1
  unfolding get_block
  get_block-IsQuiet fetch h cs = record { same_vote = refl; keeps = λ n h. h }

  after_parent-IsQuiet :
      (fetch : Network) (block : Block) (cs : ConsensusBase R A Sync)
      (r : Outcome × ConsensusBase R A Sync)
      → IsQuiet cs r.1
      → IsQuiet cs (after_parent fetch block r).1
  unfolding after_parent
  after_parent-IsQuiet fetch block cs (done, d) q = record {
    same_vote = q.same_vote;
    keeps = q.keeps;
  }
  after_parent-IsQuiet fetch block cs (failed, d) q = q
  after_parent-IsQuiet fetch block cs (endless, d) q = q

  commit_inner-IsQuiet :
      (fetch : Network) (f : ℕ) (block : Block) (cs : ConsensusBase R A Sync)
      → IsQuiet cs (commit_inner fetch f block cs).1
  commit_inner-IsQuiet fetch zero block cs = unfold commit_inner in IsQuiet-refl cs
  commit_inner-IsQuiet fetch (suc f) block cs = elim (Bool-cases (leb block.view cs.b_exec.view)) [
    | inl e ↦ rw (commit_inner_old fetch f block cs e) (IsQuiet-refl cs)
    | inr e ↦
        let started = get_block-IsQuiet fetch block.parent cs in
        elim (Option-cases (get_block fetch block.parent cs).0) [
          | inl g ↦ rw (commit_inner_missing fetch f block cs e g) started
          | inr (p, g) ↦ rw (commit_inner_parent fetch f block cs p e g) (
              after_parent-IsQuiet fetch block cs _ (
                IsQuiet-trans cs _ _ started
                  (commit_inner-IsQuiet fetch f p (get_block fetch block.parent cs).1)))
        ]
  ]

  handle_forks-IsQuiet :
      (fetch : Network) (bs : List Block) (cs d : ConsensusBase R A Sync)
      → IsQuiet cs d
      → IsQuiet cs (handle_forks fetch bs d)
  unfolding handle_forks
  handle_forks-IsQuiet fetch [] cs d q = q
  handle_forks-IsQuiet fetch (b ∷ bs) cs d q =
      handle_forks-IsQuiet fetch bs cs (emit (fork b) d)
        (record { same_vote = q.same_vote; keeps = q.keeps })

  after_prune-IsQuiet :
      (fetch : Network) (o : Option (List Block × Chain)) (cs : ConsensusBase R A Sync)
      → IsQuiet cs (after_prune fetch o cs)
  unfolding after_prune
  after_prune-IsQuiet fetch none cs = record { same_vote = refl; keeps = λ n h. h }
  after_prune-IsQuiet fetch (some (bs, c)) cs =
      handle_forks-IsQuiet fetch bs cs (put_chain c cs)
        (record { same_vote = refl; keeps = λ n h. h })

  after_commit-IsQuiet :
      (fetch : Network) (block : Block) (cs : ConsensusBase R A Sync)
      (r : Outcome × ConsensusBase R A Sync)
      → IsQuiet cs r.1
      → IsQuiet cs (after_commit fetch block r)
  unfolding after_commit
  after_commit-IsQuiet fetch block cs (done, d) q =
      IsQuiet-trans cs d _ q
        (after_prune-IsQuiet fetch (prune_to_height d.b_exec block.view (chain_of d)) d)
  after_commit-IsQuiet fetch block cs (failed, d) q = q
  after_commit-IsQuiet fetch block cs (endless, d) q = record {
    same_vote = q.same_vote;
    keeps = q.keeps;
  }

  pub commit-IsQuiet :
      (fetch : Network) (block : Block) (cs : ConsensusBase R A Sync)
      → IsQuiet cs (commit fetch block cs)
  unfolding commit
  commit-IsQuiet fetch block cs =
      after_commit-IsQuiet fetch block cs _ (commit_inner-IsQuiet fetch (suc block.view) block cs)

  pub stop_voting-IsOrdered :
      (view : ℕ) (cs : ConsensusBase R A Sync) → IsOrdered cs → IsOrdered (stop_voting view cs)
  unfolding stop_voting
  stop_voting-IsOrdered view cs o = elim (Bool-cases (ltb cs.last_vote view)) [
    | inl e ↦
        rw (e, stop_voting)
          (record {
            ordered =
                SignedBelow-mono (suc cs.last_vote) (suc view) cs.out (ground arith) o.ordered;
          })
    | inr e ↦ rw (e, stop_voting) o
  ]
