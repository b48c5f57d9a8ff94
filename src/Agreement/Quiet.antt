-- ===== src/Agreement/Quiet.antt =====
-- Calls of overhead/consensus/consensus.go that vote for nothing, for a replica with the simple
-- rules: the votes, the last voted view and the lock stay, and it holds only existing blocks.
use optilog_artifacts.Prelude.{
  ℕ, zero, suc, ◌≡◌, refl, Option, none, some, List, [], ◌∷◌, leb, Bool-cases, inl, inr,
  Option-cases,
}
use optilog_artifacts.Types.{Block}
use optilog_artifacts.Chain.{Chain, prune_to_height, store}
use optilog_artifacts.Chain.Known.{
  Universe, IsHashed, IsFaithful, IsKnown, get-Answers, store-IsKnown,
}
use optilog_artifacts.Chain.Kept.{prune_to_height-IsKnown}
use optilog_artifacts.Consensus.{
  Acceptor, Config, fork, emit, get_block, store_block, chain_of, put_chain,
}
use optilog_artifacts.Consensus.Commit.{
  Outcome, done, failed, endless, after_parent, commit_inner, handle_forks, after_prune,
  after_commit, commit,
}
use optilog_artifacts.Consensus.Rounds.{commit_inner_old, commit_inner_missing, commit_inner_parent}
use optilog_artifacts.Agreement.{Replica}
use optilog_artifacts.Agreement.History.{Stays}

module _ (u : Universe) (config : Config) (hashed : IsHashed u)
    (faithful : IsFaithful u config.fetch) (A : Acceptor) (Sync : Type 0) (V : List Block)
    (n l : ℕ) where
  abbrev S : Replica config.fetch A Sync → Type 0
  S = Stays u config V n l

  pub put_chain-Stays :
      (c : Chain) (cs : Replica config.fetch A Sync) → IsKnown u c → S cs → S (put_chain c cs)
  unfolding put_chain
  put_chain-Stays c cs known s = record {
    last = s.last;
    votes = s.votes;
    lock = s.lock;
    sound = record { exists = s.sound.exists; known = known };
  }

  pub get_block-Stays :
      (h : ℕ) (cs : Replica config.fetch A Sync) → S cs → S (get_block config.fetch h cs).1
  unfolding get_block chain_of
  get_block-Stays h cs s =
      put_chain-Stays _ cs
        (get-Answers u config.fetch h (cs.rules).chain hashed faithful s.sound.known).known s

  pub get_block-found :
      (h : ℕ) (b : Block) (cs : Replica config.fetch A Sync)
      → S cs
      → (get_block config.fetch h cs).0 ≡ some b
      → u h ≡ some b
  unfolding get_block chain_of
  get_block-found h b cs s e =
      (get-Answers u config.fetch h (cs.rules).chain hashed faithful s.sound.known).found b e

  pub store_block-Stays :
      (b : Block) (cs : Replica config.fetch A Sync)
      → u b.hash ≡ some b
      → S cs
      → S (store_block b cs)
  unfolding store_block chain_of
  store_block-Stays b cs e s =
      put_chain-Stays (store b (cs.rules).chain) cs
        (store-IsKnown u b (cs.rules).chain e s.sound.known) s

  after_parent-Stays :
      (block : Block) (r : Outcome × Replica config.fetch A Sync)
      → S r.1
      → S (after_parent config.fetch block r).1
  unfolding after_parent
  after_parent-Stays block (done, d) s = record {
    last = s.last;
    votes = s.votes;
    lock = s.lock;
    sound = s.sound;
  }
  after_parent-Stays block (failed, d) s = s
  after_parent-Stays block (endless, d) s = s

  commit_inner-Stays :
      (f : ℕ) (block : Block) (cs : Replica config.fetch A Sync)
      → S cs
      → S (commit_inner config.fetch f block cs).1
  commit_inner-Stays zero block cs s = unfold commit_inner in s
  commit_inner-Stays (suc f) block cs s = elim (Bool-cases (leb block.view cs.b_exec.view)) [
    | inl e ↦ rw (commit_inner_old config.fetch f block cs e) s
    | inr e ↦
        let started = get_block-Stays block.parent cs s in
        elim (Option-cases (get_block config.fetch block.parent cs).0) [
          | inl g ↦ rw (commit_inner_missing config.fetch f block cs e g) started
          | inr (p, g) ↦ rw (commit_inner_parent config.fetch f block cs p e g) (
              after_parent-Stays block _
                (commit_inner-Stays f p (get_block config.fetch block.parent cs).1 started))
        ]
  ]

  handle_forks-Stays :
      (bs : List Block) (cs : Replica config.fetch A Sync)
      → S cs
      → S (handle_forks config.fetch bs cs)
  unfolding handle_forks
  handle_forks-Stays [] cs s = s
  handle_forks-Stays (b ∷ bs) cs s =
      handle_forks-Stays bs (emit (fork b) cs)
        (record { last = s.last; votes = s.votes; lock = s.lock; sound = s.sound })

  after_prune-Stays :
      (o : Option (List Block × Chain)) (cs : Replica config.fetch A Sync)
      → ((bs : List Block) (c : Chain) → o ≡ some (bs, c) → IsKnown u c)
      → S cs
      → S (after_prune config.fetch o cs)
  unfolding after_prune
  after_prune-Stays none cs known s = record {
    last = s.last;
    votes = s.votes;
    lock = s.lock;
    sound = s.sound;
  }
  after_prune-Stays (some (bs, c)) cs known s =
      handle_forks-Stays bs (put_chain c cs) (put_chain-Stays c cs (known bs c refl) s)

  after_commit-Stays :
      (block : Block) (r : Outcome × Replica config.fetch A Sync)
      → S r.1
      → S (after_commit config.fetch block r)
  unfolding after_commit chain_of
  after_commit-Stays block (done, d) s =
      after_prune-Stays (prune_to_height d.b_exec block.view (d.rules).chain) d
        (λ bs c e.
          prune_to_height-IsKnown u d.b_exec block.view (d.rules).chain c bs s.sound.known e)
        s
  after_commit-Stays block (failed, d) s = s
  after_commit-Stays block (endless, d) s = record {
    last = s.last;
    votes = s.votes;
    lock = s.lock;
    sound = s.sound;
  }

  -- Commit votes for nothing, and moves no lock.
  pub commit-Stays :
      (block : Block) (cs : Replica config.fetch A Sync) → S cs → S (commit config.fetch block cs)
  unfolding commit
  commit-Stays block cs s =
      after_commit-Stays block _ (commit_inner-Stays (suc block.view) block cs s)
