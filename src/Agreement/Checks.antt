-- ===== src/Agreement/Checks.antt =====
-- The checks of OnPropose of overhead/consensus/consensus.go before the vote, with the simple rules:
-- what they establish, and that they vote for nothing.
use optilog_artifacts.Prelude.{
  ℕ, ◌≤◌, ◌≡◌, refl, Bool, true, false, Option, none, some, List, [], ◌∷◌, length, arith, ◌⊎◌, inl,
  inr, if◌then◌else◌,
}
use optilog_artifacts.Types.{
  Block, QuorumCert, QuorumSignature, AggregateQc, ProposeMsg, Complaint, block_bytes, qc_equals,
}
use optilog_artifacts.Chain.Known.{Universe, IsHashed, IsFaithful}
use optilog_artifacts.Crypto.Certificates.{verify_quorum_cert_sound}
use optilog_artifacts.Crypto.Known.{verify_quorum_cert-IsKnown, verify_aggregate_qc-IsKnown}
use optilog_artifacts.Rules.Step.{Result, Holds, guard}
use optilog_artifacts.Rules.Simple.{vote_rule, commit_rule}
use optilog_artifacts.Rules.Simple.Commit.{commit_rule-ViewChain}
use optilog_artifacts.Rules.Simple.Locks.{vote_rule-Vetted, vote_rule-accepted}
use optilog_artifacts.Consensus.{Rules, Acceptor, Config, chain_of}
use optilog_artifacts.Consensus.Propose.{
  answer, answer_high, check_high, check_aggregate, report_complaints, check_cert, answer_vote,
  check_vote, mark_proposed, previous_proposed, check_command, commit_if, apply_commit_rule,
}
use optilog_artifacts.Agreement.{simple_rules, Replica}
use optilog_artifacts.Agreement.History.{Stays, IsAccepted, scheme_of}
use optilog_artifacts.Agreement.Quiet.{put_chain-Stays, get_block-Stays, commit-Stays}

-- What VerifyQuorumCert has established where it answers true: the certificate is for the genesis
-- block, or validly signed by a quorum.
abbrev pub Verified : Universe → Config → QuorumCert → Type 0
Verified u config qc =
    (qc.hash ≡ config.genesis)
    ⊎ ((sig : QuorumSignature) × (b : Block) × (qc.signature ≡ some sig)
        × (u qc.hash ≡ some b)
        × (config.quorum qc.view ≤ length sig.participants)
        × (config.base.verify sig (block_bytes b) ≡ true))

pub Verified-IsAccepted :
    (u : Universe) (config : Config) (qc : QuorumCert) (p : Block)
    → u qc.hash ≡ some p
    → Verified u config qc
    → IsAccepted u (scheme_of config) qc p
Verified-IsAccepted u config qc p e (inl g) = record { found = e; signed_by = inl g }
Verified-IsAccepted u config qc p e (inr (sig, b, q, f, many, valid)) = record {
  found = e;
  signed_by = inr (sig, q, many, ground arith);
}

module _ (u : Universe) (config : Config) (hashed : IsHashed u)
    (faithful : IsFaithful u config.fetch) (A : Acceptor) (Sync : Type 0) (V : List Block)
    (n l : ℕ) where
  abbrev Rep : Type 0
  Rep = Replica config.fetch A Sync

  abbrev S : Replica config.fetch A Sync → Type 0
  S = Stays u config V n l

  abbrev R : Rules
  R = simple_rules config.fetch

  guard-Holds : (b : Bool) → Holds S (λ _. Unit {0}) (guard b)
  guard-Holds true cs s = record { keeps = s; gives = λ _ _. tt }
  guard-Holds false cs s = record { keeps = s; gives = λ _ _. tt }

  -- An answer of the crypto module, which is true where the handler goes on.
  answer-Result :
      (o : Option Bool) (cs : Rep)
      → S cs
      → Result S (λ _. o ≡ some true) (answer R A Sync config o cs)
  unfolding answer
  answer-Result none cs s = record {
    keeps = record { last = s.last; votes = s.votes; lock = s.lock; sound = s.sound };
    gives = λ a e. absurd (cc);
  }
  answer-Result (some true) cs s = record { keeps = s; gives = λ a e. refl }
  answer-Result (some false) cs s = record { keeps = s; gives = λ a e. absurd (cc) }

  answer_high-Result :
      (cert : QuorumCert) (o : Option (Option QuorumCert)) (cs : Rep)
      → S cs
      → Result S (λ _. Unit {0}) (answer_high R A Sync config cert o cs)
  unfolding answer_high
  answer_high-Result cert none cs s = record {
    keeps = record { last = s.last; votes = s.votes; lock = s.lock; sound = s.sound };
    gives = λ _ _. tt;
  }
  answer_high-Result cert (some none) cs s = record { keeps = s; gives = λ _ _. tt }
  answer_high-Result cert (some (some high)) cs s = guard-Holds (qc_equals cert high) cs s

  check_high-Holds :
      (cert : QuorumCert) (agg : AggregateQc)
      → Holds S (λ _. Unit {0}) (check_high R A Sync config cert agg)
  unfolding check_high chain_of
  check_high-Holds cert agg cs s =
      let known =
        verify_aggregate_qc-IsKnown config.base config.genesis config.quorum u config.fetch hashed
          faithful agg (cs.rules).chain s.sound.known in
      answer_high-Result cert _ _
        (put_chain-Stays u config hashed faithful A Sync V n l _ cs known s)

  if-Result :
      (b : Bool) (x y : Option (Unit {0}) × Rep)
      → Result S (λ _. Unit {0}) x
      → Result S (λ _. Unit {0}) y
      → Result S (λ _. Unit {0}) (if b then x else y)
  if-Result true x y h k = h
  if-Result false x y h k = k

  pub if-Stays : (b : Bool) (x y : Replica config.fetch A Sync) → S x → S y → S (if b then x else y)
  if-Stays true x y h k = h
  if-Stays false x y h k = k

  aggregate-Result :
      (proposal : ProposeMsg) (o : Option AggregateQc) (cs : Rep)
      → S cs
      → Result S
          (λ _. Unit {0})
          (check_aggregate R A Sync config (record proposal { aggregate_qc = o }) cs)
  unfolding check_aggregate
  aggregate-Result proposal none cs s = record { keeps = s; gives = λ _ _. tt }
  aggregate-Result proposal (some agg) cs s =
      if-Result config.use_agg_qc _ _ (check_high-Holds proposal.block.cert agg cs s)
        (record { keeps = s; gives = λ _ _. tt })

  pub check_aggregate-Holds :
      (proposal : ProposeMsg) → Holds S (λ _. Unit {0}) (check_aggregate R A Sync config proposal)
  check_aggregate-Holds proposal cs s = aggregate-Result proposal proposal.aggregate_qc cs s

  pub report_complaints-Stays :
      (proposal : ProposeMsg) (xs : List Complaint) (cs : Replica config.fetch A Sync)
      → S cs
      → S (report_complaints R A Sync config proposal xs cs)
  unfolding report_complaints
  report_complaints-Stays proposal [] cs s = s
  report_complaints-Stays proposal (x ∷ xs) cs s =
      if-Stays config.has_ranking _ cs
        (record { last = s.last; votes = s.votes; lock = s.lock; sound = s.sound }) s

  pub check_cert-Holds :
      (cert : QuorumCert) → Holds S (λ _. Verified u config cert) (check_cert R A Sync config cert)
  unfolding check_cert chain_of
  check_cert-Holds cert cs s =
      let known =
        verify_quorum_cert-IsKnown config.base config.genesis config.quorum u config.fetch hashed
          faithful cert (cs.rules).chain s.sound.known in
      let r =
        answer-Result _ _ (put_chain-Stays u config hashed faithful A Sync V n l _ cs known s) in
      record {
        keeps = r.keeps;
        gives = λ a e.
            verify_quorum_cert_sound config.base config.genesis config.quorum u config.fetch cert
              (cs.rules).chain hashed faithful s.sound.known (r.gives a e);
      }

  answer_vote-Result :
      (o : Option Bool) (cs : Rep)
      → S cs
      → Result S (λ _. o ≡ some true) (answer_vote R A Sync config o cs)
  unfolding answer_vote
  answer_vote-Result none cs s = record {
    keeps = record { last = s.last; votes = s.votes; lock = s.lock; sound = s.sound };
    gives = λ a e. absurd (cc);
  }
  answer_vote-Result (some true) cs s = record { keeps = s; gives = λ a e. refl }
  answer_vote-Result (some false) cs s = record { keeps = s; gives = λ a e. absurd (cc) }

  -- Beyond the test of the vote rule, the certified block exists and is not below the lock.
  pub check_vote-Holds :
      (view_of : Sync → ℕ) (proposal : ProposeMsg)
      → Holds S
          (λ _. (p : Block) × (u proposal.block.cert.hash ≡ some p) × (l ≤ p.view))
          (λ cs. check_vote R A Sync config (view_of cs.sync) proposal cs)
  unfolding check_vote
  check_vote-Holds view_of proposal cs s =
      let hs = cs.rules in
      let view = view_of cs.sync in
      let v = vote_rule-Vetted u config.fetch hashed faithful view proposal hs s.sound in
      let r =
        answer_vote-Result (some (vote_rule config.fetch view proposal hs).0)
          (record cs { rules = (vote_rule config.fetch view proposal hs).1 })
          (record {
            last = s.last;
            votes = s.votes;
            lock = rw v.same_lock s.lock;
            sound = v.sound;
          }) in
      record {
        keeps = r.keeps;
        gives = λ a e.
            let (p, q, lock) =
              vote_rule-accepted u config.fetch hashed faithful view proposal hs s.sound
                (ground (arith, r.gives a e)) in
            (p, q, omega (arith, s.lock));
      }

  mark_proposed-Stays :
      (o : Option Block) (cs : Rep) → S cs → S (mark_proposed R A Sync config o cs)
  unfolding mark_proposed
  mark_proposed-Stays none cs s = s
  mark_proposed-Stays (some b) cs s = record {
    last = s.last;
    votes = s.votes;
    lock = s.lock;
    sound = s.sound;
  }

  pub previous_proposed-Stays :
      (h : ℕ) (cs : Replica config.fetch A Sync) → S cs → S (previous_proposed R A Sync config h cs)
  unfolding previous_proposed
  previous_proposed-Stays h cs s =
      mark_proposed-Stays _ _ (get_block-Stays u config hashed faithful A Sync V n l h cs s)

  pub check_command-Holds :
      (cmd : List ℕ) → Holds S (λ _. Unit {0}) (check_command R A Sync config cmd)
  unfolding check_command
  check_command-Holds cmd cs s = guard-Holds (A.accept cmd cs.acceptor) cs s

  commit_if-Stays : (o : Option Block) (cs : Rep) → S cs → S (commit_if R A Sync config o cs)
  unfolding commit_if
  commit_if-Stays none cs s = s
  commit_if-Stays (some b) cs s = commit-Stays u config hashed faithful A Sync V n l b cs s

  -- The lock reaches what CommitRule raises it to, whatever is committed then.
  pub apply_commit_rule-Stays :
      (k : ℕ) (block : Block) (cs : Replica config.fetch A Sync)
      → Stays u config V n k cs
      → l ≤ (commit_rule config.fetch block cs.rules).1.locked.view
      → S (apply_commit_rule R A Sync config block cs)
  unfolding apply_commit_rule
  apply_commit_rule-Stays k block cs s reached =
      commit_if-Stays (commit_rule config.fetch block cs.rules).0
        (record cs { rules = (commit_rule config.fetch block cs.rules).1 })
        (record {
          last = s.last;
          votes = s.votes;
          lock = reached;
          sound =
              (commit_rule-ViewChain u config.fetch hashed faithful block cs.rules s.sound).keeps;
        })
