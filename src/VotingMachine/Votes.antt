-- ===== src/VotingMachine/Votes.antt =====
-- What the voting machine of overhead/consensus/votingmachine.go keeps, and what it certifies.
use optilog_artifacts.Prelude.{
  ℕ, ◌≤◌, ◌≡◌, refl, ◌∙◌, ◌==◌, map, Bool, true, false, Option, none, some, List, [], ◌∷◌, ◌++◌,
  ltb, leb, if◌then◌else◌, length, All, arith, Bool-cases, Option-cases, inl, inr,
}
use optilog_artifacts.Prelude.Dict.{
  Dict, lookup, insert, Entries, insert-Entries, delete-Entries, lookup-Entries,
}
use optilog_artifacts.Types.{
  Block, PartialCert, QuorumCert, VoteMsg, block_bytes, with_qc, new_sync_info, complaint,
  suspicion, no_proof,
}
use optilog_artifacts.Chain.{Chain, get, local_get}
use optilog_artifacts.Chain.Known.{Universe, IsHashed, IsFaithful, IsKnown, Answers, get-Answers}
use optilog_artifacts.Crypto.{create_quorum_cert, verify_partial_cert}
use optilog_artifacts.Consensus.{Config}
use optilog_artifacts.VotingMachine.{
  VotingMachine, Event, delay_until_proposal, add_complaint, new_view, votes_for, sweep, clean,
  certify, add_vote, verify_cert, complain, count_vote, on_vote,
}

module _ (config : Config) (u : Universe) where
  -- A vote for the existing block of hash `h`, with a signature that is valid for its bytes.
  pub record IsVote (h : ℕ) (cert : PartialCert) : Type 0 where
    pub hash : cert.block_hash ≡ h
    pub valid :
        (b : Block) → u h ≡ some b → config.base.verify cert.signature (block_bytes b) ≡ true

  abbrev pub AreKept : Dict (List PartialCert) → Type 0
  AreKept m = Entries (λ h votes. All (IsVote h) votes) m

  -- The certificate is for the existing block of a hash, and was created for it from a quorum of
  -- such votes for that hash.
  pub record IsBacked (qc : QuorumCert) : Type 0 where
    pub block : Block
    pub votes : List PartialCert
    pub hash : ℕ
    pub same_hash : qc.hash ≡ hash
    pub exists : u hash ≡ some block
    pub are_votes : All (IsVote hash) votes
    pub enough : config.quorum block.view ≤ length votes
    pub made : create_quorum_cert config.base config.genesis config.quorum block votes ≡ some qc

  abbrev pub IsHonest : Event → Type 0
  IsHonest (delay_until_proposal vote) = Unit {0}
  IsHonest (add_complaint c) = Unit {0}
  IsHonest (new_view msg) = (qc : QuorumCert) × (msg.sync_info.qc ≡ some qc) × IsBacked qc

  pub record IsSound (vm : VotingMachine) : Type 0 where
    pub kept : AreKept vm.verified_votes
    pub sent : All IsHonest vm.out

  All-snoc :
      {A : Type 0} (P : A → Type 0) (xs : List A) (x : A) → All P xs → P x → All P (xs ++ (x ∷ []))
  All-snoc P [] x h p = (p, tt)
  All-snoc P (y ∷ ys) x h p = (h.0, All-snoc P ys x h.1 p)

  votes_for-All : (h : ℕ) (m : Dict (List PartialCert)) → AreKept m → All (IsVote h) (votes_for h m)
  votes_for-All h m old = go (lookup h m) refl
    where
      go :
          (o : Option (List PartialCert))
          → lookup h m ≡ o
          → All (IsVote h) (elim o [ none ↦ [] | some votes ↦ votes ])
      go none e = tt
      go (some ws) e = lookup-Entries (λ k votes. All (IsVote k) votes) h ws m e old

  sweep-AreKept :
      (c : Chain) (high : ℕ) (m : Dict (List PartialCert)) → AreKept m → AreKept (sweep c high m)
  unfolding sweep
  sweep-AreKept c high [] k = tt
  sweep-AreKept c high ((h, votes) ∷ m) k = elim (Option-cases (local_get h c)) [
    | inl e ↦ rw (e, sweep) (sweep-AreKept c high m k.1)
    | inr (b, e) ↦ elim (Bool-cases (leb b.view high)) [
      | inl q ↦ rw (e, q, sweep) (sweep-AreKept c high m k.1)
      | inr q ↦ rw (e, q, sweep) ((k.0, sweep-AreKept c high m k.1))
    ]
  ]

  clean-IsSound : (high : ℕ) (vm : VotingMachine) → IsSound vm → IsSound (clean high vm)
  unfolding clean
  clean-IsSound high vm s = record {
    kept = sweep-AreKept vm.chain high vm.verified_votes s.kept;
    sent = s.sent;
  }

  local_get-exists :
      (h : ℕ) (b : Block) (c : Chain) → IsKnown u c → local_get h c ≡ some b → u h ≡ some b
  unfolding local_get
  local_get-exists h b c known e = known.by_hash h b e

  created-hash :
      (block : Block) (votes : List PartialCert) (qc : QuorumCert)
      → create_quorum_cert config.base config.genesis config.quorum block votes ≡ some qc
      → qc.hash ≡ block.hash
  unfolding create_quorum_cert
  created-hash block votes qc e = elim (Bool-cases (block.hash == config.genesis)) [
    | inl g ↦ ground arith
    | inr g ↦
        elim (Option-cases (config.base.combine (map (λ (pc : PartialCert). pc.signature) votes))) [
          | inl w ↦ absurd (ground arith)
          | inr (sig, w) ↦ ground arith
        ]
  ]

  module _ (cert : PartialCert) (block : Block) (vm : VotingMachine) where
    abbrev new_votes : List PartialCert
    new_votes = votes_for cert.block_hash vm.verified_votes ++ (cert ∷ [])

    certify-IsSound :
        (o : Option QuorumCert) (w : VotingMachine)
        → IsSound w
        → ((qc : QuorumCert) → o ≡ some qc → IsBacked qc)
        → IsSound (certify config cert o w)
    unfolding certify with_qc new_sync_info
    certify-IsSound none w s b = s
    certify-IsSound (some qc) w s b = record {
      kept =
          delete-Entries (λ k votes. All (IsVote k) votes) cert.block_hash w.verified_votes s.kept;
      sent = ((qc, refl, b qc refl), s.sent);
    }

    add_vote-IsSound :
        u cert.block_hash ≡ some block
        → block.hash ≡ cert.block_hash
        → IsVote cert.block_hash cert
        → IsSound vm
        → IsSound (add_vote config cert block vm)
    unfolding add_vote
    add_vote-IsSound found same v s =
        elim (Bool-cases (ltb (length new_votes) (config.quorum block.view))) [
          | inl e ↦ rw (e, add_vote) added
          | inr e ↦
              rw (e, add_vote)
                (certify-IsSound
                  (create_quorum_cert config.base config.genesis config.quorum block new_votes)
                  (record vm {
                    verified_votes = insert cert.block_hash new_votes vm.verified_votes;
                  })
                  added (λ qc q. backed qc e q))
        ]
      where
        all_votes : All (IsVote cert.block_hash) new_votes
        all_votes =
            All-snoc (IsVote cert.block_hash) (votes_for cert.block_hash vm.verified_votes) cert
              (votes_for-All cert.block_hash vm.verified_votes s.kept) v

        added :
            IsSound
              (record vm { verified_votes = insert cert.block_hash new_votes vm.verified_votes })
        added = record {
          kept =
              insert-Entries (λ k votes. All (IsVote k) votes) cert.block_hash new_votes
                vm.verified_votes all_votes s.kept;
          sent = s.sent;
        }

        backed :
            (qc : QuorumCert)
            → ltb (length new_votes) (config.quorum block.view) ≡ false
            → create_quorum_cert config.base config.genesis config.quorum block new_votes ≡ some qc
            → IsBacked qc
        backed qc e q = record {
          block = block;
          votes = new_votes;
          hash = cert.block_hash;
          same_hash = created-hash block new_votes qc q ∙ same;
          exists = found;
          are_votes = all_votes;
          enough = ground arith;
          made = q;
        }

  module _ (hashed : IsHashed u) (faithful : IsFaithful u config.fetch) where
    verified-IsVote :
        (cert : PartialCert) (c : Chain)
        → IsKnown u c
        → (verify_partial_cert config.base config.genesis config.quorum config.fetch cert c).0
          ≡ true
        → IsVote cert.block_hash cert
    unfolding verify_partial_cert
    verified-IsVote cert c known e = elim (Option-cases (get config.fetch cert.block_hash c).0) [
      | inl q ↦ absurd (ground arith)
      | inr (b, q) ↦ record { hash = refl; valid = λ a w. ground (arith, answers.found b q) }
    ]
      where
        answers : Answers u cert.block_hash (get config.fetch cert.block_hash c)
        answers = get-Answers u config.fetch cert.block_hash c hashed faithful known

    verify_cert-IsSound :
        (high : ℕ) (cert : PartialCert) (block : Block) (vm : VotingMachine)
        → u cert.block_hash ≡ some block
        → IsKnown u vm.chain
        → IsSound vm
        → IsSound (verify_cert config high cert block vm)
    unfolding verify_cert
    verify_cert-IsSound high cert block vm found known s =
        elim (Bool-cases
          (verify_partial_cert config.base config.genesis config.quorum config.fetch cert
            vm.chain).0) [
              | inl e ↦
                  rw (e, verify_cert)
                    (clean-IsSound high _ (
                      add_vote-IsSound cert block _ found (hashed cert.block_hash block found)
                        (verified-IsVote cert vm.chain known e) moved))
              | inr e ↦ rw (e, verify_cert) moved
            ]
      where
        moved : IsSound (record vm {
          chain =
              (verify_partial_cert config.base config.genesis config.quorum config.fetch cert
                vm.chain).1;
        })
        moved = record { kept = s.kept; sent = s.sent }

    complain-IsSound :
        (vote : VoteMsg) (vm : VotingMachine) → IsSound vm → IsSound (complain config vote vm)
    unfolding complain
    complain-IsSound vote vm s = go config.has_ranking
      where
        go :
            (x : Bool)
            → IsSound (
                if x
                then record vm {
                  out = add_complaint (complaint 0 vote.id config.id suspicion no_proof) ∷ vm.out;
                }
                else vm)
        go true = record { kept = s.kept; sent = (tt, s.sent) }
        go false = s

    count_vote-IsSound :
        (high : ℕ) (vote : VoteMsg) (block : Block) (vm : VotingMachine)
        → u vote.partial_cert.block_hash ≡ some block
        → IsKnown u vm.chain
        → IsSound vm
        → IsSound (count_vote config high vote block vm)
    unfolding count_vote
    count_vote-IsSound high vote block vm found known s = elim (Bool-cases (leb block.view high)) [
      | inl e ↦ rw (e, count_vote) (complain-IsSound vote vm s)
      | inr e ↦
          rw (e, count_vote) (verify_cert-IsSound high vote.partial_cert block vm found known s)
    ]

    -- A vote keeps the voting machine sound, from a replica that holds only existing blocks: all
    -- votes kept are verified votes for the hash that they stand under, and every certificate sent
    -- is for the existing block of such a hash and was created for it from a quorum of verified
    -- votes for that hash, if the blocks stand under their own hashes and the network answers with
    -- the block asked for.
    pub on_vote-IsSound :
        (high : ℕ) (vote : VoteMsg) (vm : VotingMachine)
        → IsKnown u vm.chain
        → IsSound vm
        → IsSound (on_vote config high vote vm)
    unfolding on_vote
    on_vote-IsSound high vote vm known s = elim (Bool-cases vote.deferred) [
      | inl d ↦ elim (Option-cases (get config.fetch vote.partial_cert.block_hash vm.chain).0) [
        | inl e ↦ rw (d, e, on_vote) moved
        | inr (b, e) ↦
            rw (d, e, on_vote)
              (count_vote-IsSound high vote b _ (answers.found b e) answers.known moved)
      ]
      | inr d ↦ elim (Option-cases (local_get vote.partial_cert.block_hash vm.chain)) [
        | inl e ↦ rw (d, e, on_vote) (record { kept = s.kept; sent = (tt, s.sent) })
        | inr (b, e) ↦
            rw (d, e, on_vote)
              (count_vote-IsSound high vote b vm (local_get-exists _ b vm.chain known e) known s)
      ]
    ]
      where
        answers :
            Answers u vote.partial_cert.block_hash
              (get config.fetch vote.partial_cert.block_hash vm.chain)
        answers =
            get-Answers u config.fetch vote.partial_cert.block_hash vm.chain hashed faithful known

        moved :
            IsSound
              (record vm { chain = (get config.fetch vote.partial_cert.block_hash vm.chain).1 })
        moved = record { kept = s.kept; sent = s.sent }
