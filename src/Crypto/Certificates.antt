-- ===== src/Crypto/Certificates.antt =====
-- Quorum and timeout certificates of overhead/crypto/crypto.go: created, and verified.
use optilog_artifacts.Prelude.{
  ℕ, ◌+◌, ◌≤◌, ◌≡◌, refl, true, Option, none, some, List, [], ◌∷◌, ◌==◌, map, length, All, arith,
  ◌⊎◌, inl, inr, Option-cases, Bool-cases, suc, ap,
}
use optilog_artifacts.Types.{
  Block, QuorumSignature, PartialCert, QuorumCert, TimeoutCert, TimeoutMsg, view_bytes, block_bytes,
}
use optilog_artifacts.Chain.{Chain, Network, get, local_get}
use optilog_artifacts.Chain.Known.{Universe, IsHashed, IsFaithful, IsKnown, Answers, get-Answers}
use optilog_artifacts.Chain.Lookup.{get-local}
use optilog_artifacts.Crypto.{
  CryptoBase, create_quorum_cert, create_timeout_cert, verify_quorum_cert, verify_timeout_cert,
}

abbrev pub total_participants : List QuorumSignature → ℕ
total_participants [] = 0
total_participants (s ∷ ss) = length s.participants + total_participants ss

-- What Combine of the signature schemes promises: a combined signature is valid for a message for
-- which each part is, and no participant is counted twice (overlapping parts are an error).
pub record Combines (base : CryptoBase) : Type 0 where
  pub valid :
      (ss : List QuorumSignature) (s : QuorumSignature) (m : List ℕ)
      → base.combine ss ≡ some s
      → All (λ (t : QuorumSignature). base.verify t m ≡ true) ss
      → base.verify s m ≡ true
  pub counts :
      (ss : List QuorumSignature) (s : QuorumSignature)
      → base.combine ss ≡ some s
      → length s.participants ≡ total_participants ss

-- The votes are signatures of one replica each, valid for the message.
abbrev pub AreVotes : CryptoBase → List ℕ → List QuorumSignature → Type 0
AreVotes base m =
    All (λ (t : QuorumSignature). (base.verify t m ≡ true) × (length t.participants ≡ 1))

votes-total :
    (base : CryptoBase) (m : List ℕ) (ss : List QuorumSignature)
    → AreVotes base m ss
    → total_participants ss ≡ length ss
votes-total base m [] h = refl
votes-total base m (s ∷ ss) h = omega (arith, votes-total base m ss h.1)

votes-valid :
    (base : CryptoBase) (m : List ℕ) (ss : List QuorumSignature)
    → AreVotes base m ss
    → All (λ (t : QuorumSignature). base.verify t m ≡ true) ss
votes-valid base m [] h = tt
votes-valid base m (s ∷ ss) h = (h.0.0, votes-valid base m ss h.1)

length-map {ℓ κ} :
    {A : Type ℓ} {B : Type κ} (f : A → B) (xs : List A) → length (map f xs) ≡ length xs
length-map f [] = refl
length-map f (x ∷ xs) = ap suc (length-map f xs)

module _ (base : CryptoBase) (genesis : ℕ) (quorum : ℕ → ℕ) where
  -- A quorum certificate that is accepted is for the genesis block, or has a quorum of
  -- participants and a signature that is valid for the bytes of the existing block of its hash, if
  -- the network answers with the block asked for.
  pub verify_quorum_cert_sound :
      (u : Universe) (fetch : Network) (qc : QuorumCert) (c : Chain)
      → IsHashed u
      → IsFaithful u fetch
      → IsKnown u c
      → (verify_quorum_cert base genesis quorum fetch qc c).0 ≡ some true
      → (qc.hash ≡ genesis)
        ⊎ ((sig : QuorumSignature) × (b : Block) × (qc.signature ≡ some sig)
            × (u qc.hash ≡ some b)
            × (quorum qc.view ≤ length sig.participants)
            × (base.verify sig (block_bytes b) ≡ true))
  unfolding verify_quorum_cert
  verify_quorum_cert_sound u fetch qc c hashed faithful known e =
      elim (Bool-cases (qc.hash == genesis)) [
        | inl g ↦ inl (ground arith)
        | inr g ↦ elim (Option-cases qc.signature) [
          | inl q ↦ absurd (ground arith)
          | inr (sig, q) ↦ elim (Option-cases (get fetch qc.hash c).0) [
            | inl w ↦ absurd (ground arith)
            | inr (b, w) ↦ inr (sig, b, q, answers.found b w, ground arith, ground arith)
          ]
        ]
      ]
    where
      answers : Answers u qc.hash (get fetch qc.hash c)
      answers = get-Answers u fetch qc.hash c hashed faithful known

  -- A quorum certificate created from a quorum of valid votes for a block that is held locally is
  -- accepted without asking the network, if Combine of the signature scheme joins valid signatures
  -- and counts their participants.
  pub verify-create_quorum_cert :
      (fetch : Network) (block : Block) (votes : List PartialCert) (qc : QuorumCert) (c : Chain)
      → Combines base
      → AreVotes base (block_bytes block) (map (λ (pc : PartialCert). pc.signature) votes)
      → quorum block.view ≤ length votes
      → local_get block.hash c ≡ some block
      → create_quorum_cert base genesis quorum block votes ≡ some qc
      → verify_quorum_cert base genesis quorum fetch qc c ≡ (some true, c)
  unfolding verify_quorum_cert create_quorum_cert
  verify-create_quorum_cert fetch block votes qc c combines valid enough held e =
      elim (Bool-cases (block.hash == genesis)) [
        | inl g ↦ ground arith
        | inr g ↦ elim (Option-cases (base.combine sigs)) [
          | inl q ↦ absurd (ground arith)
          | inr (sig, q) ↦ ground (
            arith,
            get-local fetch block.hash block c held,
            combines.valid sigs sig (block_bytes block) q
                (votes-valid base (block_bytes block) sigs valid),
            combines.counts sigs sig q,
            votes-total base (block_bytes block) sigs valid,
            length-map (λ (pc : PartialCert). pc.signature) votes,
          )
        ]
      ]
    where
      sigs : List QuorumSignature
      sigs = map (λ (pc : PartialCert). pc.signature) votes

  -- The same for timeout certificates of a view.
  pub verify-create_timeout_cert :
      (view : ℕ) (timeouts : List TimeoutMsg) (tc : TimeoutCert)
      → Combines base
      → AreVotes base (view_bytes view) (map (λ (t : TimeoutMsg). t.view_signature) timeouts)
      → quorum view ≤ length timeouts
      → create_timeout_cert base genesis quorum view timeouts ≡ some tc
      → (verify_timeout_cert base genesis quorum tc ≡ some true) × (tc.view ≡ view)
  unfolding verify_timeout_cert create_timeout_cert
  verify-create_timeout_cert view timeouts tc combines valid enough e =
      elim (Bool-cases (view == 0)) [
        | inl g ↦ ground arith
        | inr g ↦ elim (Option-cases (base.combine sigs)) [
          | inl q ↦ absurd (ground arith)
          | inr (sig, q) ↦ ground (
            arith,
            combines.valid sigs sig (view_bytes view) q
                (votes-valid base (view_bytes view) sigs valid),
            combines.counts sigs sig q,
            votes-total base (view_bytes view) sigs valid,
            length-map (λ (t : TimeoutMsg). t.view_signature) timeouts,
          )
        ]
      ]
    where
      sigs : List QuorumSignature
      sigs = map (λ (t : TimeoutMsg). t.view_signature) timeouts

  -- VerifyQuorumCert answers alike for two certificates that differ only in their views, if the
  -- quorums at the two views are the same.
  pub verify_quorum_cert_any_view :
      (fetch : Network) (qc : QuorumCert) (v : ℕ) (c : Chain)
      → quorum v ≡ quorum qc.view
      → verify_quorum_cert base genesis quorum fetch (record qc { view = v }) c
        ≡ verify_quorum_cert base genesis quorum fetch qc c
  unfolding verify_quorum_cert
  verify_quorum_cert_any_view fetch qc v c e = go qc.signature
    where
      go :
          (o : Option QuorumSignature)
          → verify_quorum_cert base genesis quorum fetch (record qc { signature = o; view = v }) c
            ≡ verify_quorum_cert base genesis quorum fetch (record qc { signature = o }) c
      go none = refl
      go (some sig) = rw e refl
