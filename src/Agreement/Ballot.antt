-- ===== src/Agreement/Ballot.antt =====
-- The vote at the end of OnPropose of overhead/consensus/consensus.go, with the simple rules.
use optilog_artifacts.Prelude.{
  suc, ◌≤◌, ◌<◌, ◌≡◌, sym, subst, not, true, false, Bool, Option, none, some, leb, arith,
  Bool-cases, inl, inr, In, ◌==◌, if◌then◌else◌,
}
use optilog_artifacts.Prelude.Words.{add_u64}
use optilog_artifacts.Types.{Block, PartialCert, ProposeMsg}
use optilog_artifacts.Chain.Known.{Universe}
use optilog_artifacts.Crypto.{create_partial_cert}
use optilog_artifacts.Rules.Step.{◌>>=◌, ◌>>◌, guard, modify, Step, Triple}
use optilog_artifacts.Consensus.{Rules, Acceptor, Config}
use optilog_artifacts.Consensus.Propose.{sign_block, deliver}
use optilog_artifacts.Agreement.{simple_rules, Replica, votes_of}
use optilog_artifacts.Agreement.History.{
  IsAccepted, scheme_of, IsOwn, IsHistory, IsHistory-mono, IsVoter,
}

module _ (u : Universe) (config : Config) {A : Acceptor} {Sync : Type 0} where
  -- What is asked of AdvanceView for a certificate of p, since it may propose and vote itself: it
  -- forgets no vote, lowers no lock, and votes for no block over one that is locked above p.
  pub record Advanced (p : Block) (cs cs' : Replica config.fetch A Sync) : Type 0 where
    pub voter : IsVoter u config cs'
    pub more : (b : Block) → In b (votes_of cs.out) → In b (votes_of cs'.out)
    pub lock_rises : (cs.rules).locked.view ≤ (cs'.rules).locked.view
    pub bounded :
        IsHistory u config (suc cs.last_vote) p.view (votes_of cs.out)
        → IsHistory u config (suc cs'.last_vote) p.view (votes_of cs'.out)

  -- A proposal of an existing block, whose certificate has this replica's signature only if it has
  -- made it.
  pub record Fits (proposal : ProposeMsg) (cs : Replica config.fetch A Sync) : Type 0 where
    pub exists : u proposal.block.hash ≡ some proposal.block
    pub own : IsOwn u config (votes_of cs.out) proposal.block.cert

  -- What OnPropose has established when it comes to the vote.
  pub record Ready (block p : Block) (cs : Replica config.fetch A Sync) : Type 0 where
    pub voter : IsVoter u config cs
    pub bounded : IsHistory u config (suc cs.last_vote) p.view (votes_of cs.out)
    pub own : IsOwn u config (votes_of cs.out) block.cert
    pub locked : (gp : Block) → u p.cert.hash ≡ some gp → gp.view ≤ (cs.rules).locked.view

module _ (u : Universe) (config : Config) (A : Acceptor) (Sync : Type 0) where
  abbrev Rep : Type 0
  Rep = Replica config.fetch A Sync

  abbrev W : Replica config.fetch A Sync → Type 0
  W = IsVoter u config

  abbrev R : Rules
  R = simple_rules config.fetch

  deliver-IsVoter : (pc : PartialCert) (cs : Rep) → W cs → W (deliver R A Sync config pc cs)
  unfolding deliver
  deliver-IsVoter pc cs w =
      either config.has_handel _ _ (record { sound = w.sound; history = w.history })
        (either (config.leader (add_u64 cs.last_vote 1) == config.id) _ _
          (record { sound = w.sound; history = w.history })
          (either (config.has_replica (config.leader (add_u64 cs.last_vote 1))) _ _
            (record { sound = w.sound; history = w.history }) w))
    where
      either : (b : Bool) (x y : Rep) → W x → W y → W (if b then x else y)
      either true x y h k = h
      either false x y h k = k

  sign-IsVoter :
      (o : Option PartialCert) (block p : Block) (cs : Rep)
      → IsAccepted u (scheme_of config) block.cert p
      → Ready u config block p cs
      → cs.last_vote < block.view
      → W ((sign_block R A Sync config o block >>= λ pc. modify (deliver R A Sync config pc)) cs).1
  unfolding sign_block
  sign-IsVoter none block p cs a r new = r.voter
  sign-IsVoter (some pc) block p cs a r new = deliver-IsVoter pc _ (record {
    sound = r.voter.sound;
    history = (
      (
        omega arith,
        (
          record { p = p; positive = omega arith; accepted = a; own = r.own },
          r.bounded.1,
          (IsHistory-mono u config (suc cs.last_vote) block.view p.view p.view (votes_of cs.out) new
              (omega arith) r.bounded).0,
        ),
      ),
      (locks, r.voter.history.1),
    );
  })
    where
      locks :
          (q gp : Block)
          → u block.cert.hash ≡ some q
          → u q.cert.hash ≡ some gp
          → gp.view ≤ (cs.rules).locked.view
      locks q gp e f =
          let same : p ≡ q = ground (arith, a.found) in
          r.locked gp (subst (λ (x : Block). u x.cert.hash ≡ some gp) (sym same) f)

  -- The end of OnPropose, from the test of the last voted view on.
  abbrev pub vote : Block → Step (Replica config.fetch A Sync) (Unit {0})
  vote block = (λ cs. guard (not (leb block.view cs.last_vote)) cs) >> do
    pc ←
        sign_block R A Sync config
          (create_partial_cert config.base config.genesis config.quorum block config.now) block
    modify (deliver R A Sync config pc)

  pub vote-Triple :
      (block p : Block)
      → IsAccepted u (scheme_of config) block.cert p
      → Triple
          (Ready u config block p)
          (λ _. Unit {0})
          (IsVoter u config)
          (IsVoter u config)
          (vote block)
  vote-Triple block p a cs r = elim (Bool-cases (leb block.view cs.last_vote)) [
    | inl old ↦ rw old (record { early = λ _. r.voter; late = λ a e. absurd (cc) })
    | inr new ↦ rw new (
        let signed =
          sign-IsVoter
            (create_partial_cert config.base config.genesis config.quorum block config.now) block p
            cs a r (ground arith) in
        record { early = λ _. signed; late = λ _ _. (tt, signed) })
  ]
