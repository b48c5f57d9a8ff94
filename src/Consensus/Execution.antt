-- ===== src/Consensus/Execution.antt =====
-- What commitInner of overhead/consensus/consensus.go executes.
use optilog_artifacts.Prelude.{
  ℕ, zero, suc, max, ◌≤◌, ◌<◌, ◌≡◌, ◌≢◌, refl, ap, ◌∙◌, ◌⊎◌, some, List, [], ◌∷◌, leb, arith,
  Bool-cases, Option-cases, inl, inr,
}
use optilog_artifacts.Types.{Block}
use optilog_artifacts.Chain.{Chain, Network, get}
use optilog_artifacts.Chain.Known.{
  Universe, IsHashed, IsFaithful, IsKnown, Answers, Descends, get-Answers,
}
use optilog_artifacts.Consensus.{
  Rules, Acceptor, ConsensusBase, Effect, exec, get_block, chain_of, put_chain,
}
use optilog_artifacts.Consensus.Commit.{
  Outcome, done, failed, endless, execute, after_parent, commit_inner,
}
use optilog_artifacts.Consensus.Rounds.{commit_inner_old, commit_inner_missing, commit_inner_parent}

-- The views of the executed blocks are below `n` and fall from the newest on.
abbrev pub ExecBelow : ℕ → List Effect → Type 0
ExecBelow n [] = Unit {0}
ExecBelow n (exec b ∷ es) = (b.view < n) × ExecBelow b.view es
ExecBelow n (_ ∷ es) = ExecBelow n es

ExecBelow-mono : (m n : ℕ) (es : List Effect) → m ≤ n → ExecBelow m es → ExecBelow n es
ExecBelow-mono m n [] h b = tt
ExecBelow-mono m n (exec a ∷ es) h b = (omega arith, b.1)
ExecBelow-mono m n (_ ∷ es) h b = ExecBelow-mono m n es h b

-- What the rules are asked to do with the chain that they hold: give back the one that was put in.
abbrev pub HoldsChain : Rules → Type 0
HoldsChain R = (c : Chain) (s : R.State) → R.chain (R.set_chain c s) ≡ c

outcome :
    (block : Block) (o : Outcome) (v : ℕ)
    → (o ≡ done → block.view ≤ v)
    → o ≢ endless
    → (o ≡ failed) ⊎ ((o ≡ done) × (block.view ≤ v))
outcome block done v reached ends = inr (refl, reached refl)
outcome block failed v reached ends = inl refl
outcome block endless v reached ends = absurd (ends refl)

module _ {R : Rules} {A : Acceptor} {Sync : Type 0} where
  -- An error leaves the committed block and the executed ones as they were.
  record Untouched (cs : ConsensusBase R A Sync) (r : Outcome × ConsensusBase R A Sync)
      : Type 0 where
    same_head : r.0 ≡ failed → r.1.b_exec ≡ cs.b_exec
    same_out : r.0 ≡ failed → r.1.out ≡ cs.out

  after_parent-Untouched :
      (fetch : Network) (block : Block) (cs : ConsensusBase R A Sync)
      (r : Outcome × ConsensusBase R A Sync)
      → Untouched cs r
      → Untouched cs (after_parent fetch block r)
  unfolding after_parent
  after_parent-Untouched fetch block cs (done, d) q = record {
    same_head = λ e. absurd (cc);
    same_out = λ e. absurd (cc);
  }
  after_parent-Untouched fetch block cs (failed, d) q = q
  after_parent-Untouched fetch block cs (endless, d) q = record {
    same_head = λ e. absurd (cc);
    same_out = λ e. absurd (cc);
  }

  Untouched-get_block :
      (fetch : Network) (h : ℕ) (cs : ConsensusBase R A Sync) (r : Outcome × ConsensusBase R A Sync)
      → Untouched (get_block fetch h cs).1 r
      → Untouched cs r
  unfolding get_block put_chain
  Untouched-get_block fetch h cs r q = record { same_head = q.same_head; same_out = q.same_out }

  commit_inner-Untouched :
      (fetch : Network) (f : ℕ) (block : Block) (cs : ConsensusBase R A Sync)
      → Untouched cs (commit_inner fetch f block cs)
  commit_inner-Untouched fetch zero block cs =
      unfold commit_inner in (record { same_head = λ e. refl; same_out = λ e. refl })
  commit_inner-Untouched fetch (suc f) block cs =
      elim (Bool-cases (leb block.view cs.b_exec.view)) [
        | inl e ↦
            rw (commit_inner_old fetch f block cs e)
              (record { same_head = λ e. refl; same_out = λ e. refl })
        | inr e ↦ elim (Option-cases (get_block fetch block.parent cs).0) [
          | inl g ↦ rw (commit_inner_missing fetch f block cs e g) (
              unfold get_block put_chain in
              (record { same_head = λ e. refl; same_out = λ e. refl }))
          | inr (p, g) ↦ rw (commit_inner_parent fetch f block cs p e g) (
              after_parent-Untouched fetch block cs _ (
                Untouched-get_block fetch block.parent cs _
                  (commit_inner-Untouched fetch f p (get_block fetch block.parent cs).1)))
        ]
      ]

  -- A commit that fails, for want of an ancestor, executes nothing, and the committed block stays.
  pub commit_inner_failed :
      (fetch : Network) (f : ℕ) (block : Block) (cs : ConsensusBase R A Sync)
      → (commit_inner fetch f block cs).0 ≡ failed
      → ((commit_inner fetch f block cs).1.b_exec ≡ cs.b_exec)
        × ((commit_inner fetch f block cs).1.out ≡ cs.out)
  commit_inner_failed fetch f block cs e =
      let q = commit_inner-Untouched fetch f block cs in (q.same_head e, q.same_out e)

  module _ (u : Universe) (fetch : Network) (hashed : IsHashed u) (faithful : IsFaithful u fetch)
      (falls : Descends u) (lens : HoldsChain R) where
    -- The executed views rise up to the committed block's, and the replica knows existing blocks.
    pub record IsExecuted (cs : ConsensusBase R A Sync) : Type 0 where
      pub order : ExecBelow (suc cs.b_exec.view) cs.out
      pub known : IsKnown u (chain_of cs)

    -- After committing `block`.
    record Committed (block : Block) (cs : ConsensusBase R A Sync)
        (r : Outcome × ConsensusBase R A Sync) : Type 0 where
      executed : IsExecuted r.1
      bounded : r.1.b_exec.view ≤ max block.view cs.b_exec.view
      reached : r.0 ≡ done → block.view ≤ r.1.b_exec.view
      ends : r.0 ≢ endless

    get_block-IsExecuted :
        (h : ℕ) (cs : ConsensusBase R A Sync)
        → IsExecuted cs
        → Answers u h ((get_block fetch h cs).0, chain_of (get_block fetch h cs).1)
          × IsExecuted (get_block fetch h cs).1
          × ((get_block fetch h cs).1.b_exec ≡ cs.b_exec)
    unfolding get_block put_chain chain_of
    get_block-IsExecuted h cs e =
        let answers = get-Answers u fetch h (R.chain cs.rules) hashed faithful e.known in
        let same = lens (get fetch h (R.chain cs.rules)).1 cs.rules in
        (
          record { found = answers.found; known = rw same answers.known },
          record { order = e.order; known = rw same answers.known },
          refl,
        )

    -- One level of the recursion, over what it did for the parent `p`.
    after_parent-Committed :
        (block p : Block) (cs d : ConsensusBase R A Sync) (r : Outcome × ConsensusBase R A Sync)
        → cs.b_exec.view < block.view
        → p.view < block.view
        → d.b_exec ≡ cs.b_exec
        → Committed p d r
        → Committed block cs (after_parent fetch block r)
    unfolding after_parent execute chain_of
    after_parent-Committed block p cs d (done, e) above lower same q = record {
      executed = record {
        order = (
          omega arith,
          ExecBelow-mono (suc e.b_exec.view) block.view e.out
              (omega (arith, q.bounded, ap (λ (b : Block). b.view) same)) q.executed.order,
        );
        known = q.executed.known;
      };
      bounded = omega arith;
      reached = λ _. omega arith;
      ends = λ e. cc;
    }
    after_parent-Committed block p cs d (failed, e) above lower same q = record {
      executed = q.executed;
      bounded = omega (arith, q.bounded, ap (λ (b : Block). b.view) same);
      reached = λ e. absurd (cc);
      ends = λ e. cc;
    }
    after_parent-Committed block p cs d (endless, e) above lower same q = absurd (q.ends refl)

    commit_inner-Committed :
        (f : ℕ) (block : Block) (cs : ConsensusBase R A Sync)
        → u block.hash ≡ some block
        → block.view < f
        → IsExecuted cs
        → Committed block cs (commit_inner fetch f block cs)
    commit_inner-Committed zero block cs exists h e = absurd (omega arith)
    commit_inner-Committed (suc f) block cs exists h e =
        elim (Bool-cases (leb block.view cs.b_exec.view)) [
          | inl old ↦ rw (commit_inner_old fetch f block cs old) (record {
            executed = e;
            bounded = omega arith;
            reached = λ _. ground arith;
            ends = λ e. cc;
          })
          | inr new ↦
              let (answers, started, same) = get_block-IsExecuted block.parent cs e in
              elim (Option-cases (get_block fetch block.parent cs).0) [
                | inl g ↦ rw (commit_inner_missing fetch f block cs new g) (record {
                  executed = started;
                  bounded = omega (arith, ap (λ (b : Block). b.view) same);
                  reached = λ e. absurd (cc);
                  ends = λ e. cc;
                })
                | inr (p, g) ↦
                    let found = answers.found p g in
                    let lower : p.view < block.view = falls block p exists found in
                    rw (commit_inner_parent fetch f block cs p new g) (
                      after_parent-Committed block p cs _ _ (ground arith) lower same (
                        commit_inner-Committed f p (get_block fetch block.parent cs).1
                          (ap u (hashed _ p found) ∙ found) (omega arith) started))
              ]
        ]

    -- Committing an existing block with the fuel that its view gives keeps the executed views
    -- strictly rising, and either fails, or ends with the committed block at the view of the given
    -- block or above, if every existing block stands under its own hash and has a higher view than
    -- its parent, the network answers with the block asked for, the rules give back the chain that
    -- is put into them, and the replica holds only existing blocks and has executed its blocks in
    -- the order of their views, none above the committed block.
    pub commit_inner-rises :
        (block : Block) (cs : ConsensusBase R A Sync)
        → u block.hash ≡ some block
        → IsExecuted cs
        → let r = commit_inner fetch (suc block.view) block cs in
          IsExecuted r.1 × ((r.0 ≡ failed) ⊎ ((r.0 ≡ done) × (block.view ≤ r.1.b_exec.view)))
    commit_inner-rises block cs exists e =
        let q = commit_inner-Committed (suc block.view) block cs exists (omega arith) e in
        (q.executed, outcome block _ _ q.reached q.ends)
