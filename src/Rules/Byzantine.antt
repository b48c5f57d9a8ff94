-- ===== src/Rules/Byzantine.antt =====
-- overhead/consensus/byzantine/byzantine.go: rule sets that misbehave, for experiments.
use optilog_artifacts.Prelude.{ℕ, ◌≡◌, ap, ◌∙◌, none, some, List, [], if◌then◌else◌, arith}
use optilog_artifacts.Types.{Block, QuorumCert, ProposeMsg, SyncInfo, new_block}
use optilog_artifacts.Chain.{Chain, Network, get}
use optilog_artifacts.Chain.Known.{Universe, IsHashed, IsFaithful, IsKnown, get-Answers}
use optilog_artifacts.Rules.Step.{Step, ◌>>=◌, pure, Holds, >>=-Holds, pure-Holds}
use optilog_artifacts.Consensus.{Rules, Config}

-- Silence has a ProposeRule that never proposes, over the rules that it wraps.
unfoldable pub wrap_silence : Rules → Rules
wrap_silence R = record R { propose_rule = some (λ cert cmd s. none) }

unfoldable pub get_block : Network → ℕ → Step Chain Block
get_block fetch h c = get fetch h c

module _ (config : Config) where
  -- The message on `base`, by its hash and its own certificate.
  unfoldable pub fork_message : SyncInfo → List ℕ → ℕ → Block → ProposeMsg
  unfolding new_block
  fork_message cert cmd view base = record {
    id = config.id;
    block = new_block config.sha256 base.hash base.cert cmd view config.id config.now;
    aggregate_qc = if config.use_agg_qc then cert.agg_qc else none;
    complaints = [];
  }

  -- ProposeRule of fork: `high` is the synchronizer's high certificate and `view` its view.
  unfoldable pub fork_propose : QuorumCert → ℕ → SyncInfo → List ℕ → Step Chain ProposeMsg
  unfolding get_block fork_message
  fork_propose high view cert cmd = do
    block ← get_block config.fetch high.hash
    parent ← get_block config.fetch block.parent
    grandparent ← get_block config.fetch parent.hash
    pure (fork_message cert cmd view grandparent)

-- A proposal beside the certified block: on that block's parent, with the parent's certificate.
pub record IsBeside (u : Universe) (high : QuorumCert) (p : ProposeMsg) : Type 0 where
  pub block : Block
  pub parent : Block
  pub certified : u high.hash ≡ some block
  pub above : u block.parent ≡ some parent
  pub same_parent : p.block.parent ≡ block.parent
  pub same_cert : p.block.cert ≡ parent.cert

-- What fork proposes is on the parent of the block of the highest certificate, beside that block,
-- with the certificate of that parent, from a replica that holds only existing blocks.
pub fork_propose-IsBeside :
    (u : Universe) (config : Config) (high : QuorumCert) (view : ℕ) (cert : SyncInfo) (cmd : List ℕ)
    → IsHashed u
    → IsFaithful u config.fetch
    → Holds (IsKnown u) (IsBeside u high) (fork_propose config high view cert cmd)
unfolding fork_propose fork_message
fork_propose-IsBeside u config high view cert cmd hashed faithful =
    >>=-Holds I _ C _ _ (found high.hash) λ block e1.
      >>=-Holds I _ C _ _ (found block.parent) λ parent e2.
        >>=-Holds I _ C _ _ (found parent.hash) λ base e3. pure-Holds I C _ (record {
          block = block;
          parent = parent;
          certified = e1;
          above = e2;
          same_parent = hashed parent.hash base e3 ∙ hashed block.parent parent e2;
          same_cert = ground (arith, ap u (hashed block.parent parent e2));
        })
  where
    I : Chain → Type 0
    I = IsKnown u

    C : ProposeMsg → Type 0
    C = IsBeside u high

    found : (h : ℕ) → Holds I (λ b. u h ≡ some b) (get_block config.fetch h)
    found h c known =
        let a = get-Answers u config.fetch h c hashed faithful known in
        unfold get_block in (record { keeps = a.known; gives = a.found })
