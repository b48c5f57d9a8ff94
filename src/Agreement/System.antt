-- ===== src/Agreement/System.antt =====
-- Certified blocks (overhead/crypto/crypto.go) in a system of replicas of which some are faulty: one in
-- a view, and each over another of a lower view.
use optilog_artifacts.Prelude.{
  ℕ, ◌≤◌, ◌<◌, ◌≡◌, sym, ap, ◌∙◌, subst, true, false, none, some, List, arith, In, inl, inr, length,
  ◌⊎◌,
}
use optilog_artifacts.Types.{
  Block, QuorumCert, QuorumSignature, block_bytes, num_faulty, quorum_size,
}
use optilog_artifacts.Types.IdSet.{IdSet, contains, AreDistinct}
use optilog_artifacts.Chain.Known.{Universe}
use optilog_artifacts.Agreement.History.{Scheme, IsAccepted}
use optilog_artifacts.Agreement.Contract.{IsVoting}
use optilog_artifacts.Agreement.Quorums.{IsWithin, quorums_meet}

-- The genesis block is at view 0 and its certificate is for no block.
pub record IsOrigin (u : Universe) (scheme : Scheme) (origin : Block) : Type 0 where
  pub found : u scheme.genesis ≡ some origin
  pub lowest : origin.view ≡ 0
  pub first : u origin.cert.hash ≡ none

-- The replicas: at least one, no more of them faulty than NumFaulty allows, with the QuorumSize that
-- the configuration computes. A signature that is valid for an existing block has each of its
-- participants once, all of them replicas, and those that are not faulty have voted for the block.
pub record IsGenuine (u : Universe) (scheme : Scheme) (ids faulty : IdSet) (votes : ℕ → List Block)
    : Type 0 where
  pub nonempty : 0 < length ids
  pub few : length faulty ≤ num_faulty (length ids)
  pub quorum : (view : ℕ) → scheme.quorum view ≡ quorum_size (length ids)
  pub distinct :
      (sig : QuorumSignature) (m : List ℕ)
      → scheme.verify sig m ≡ true
      → AreDistinct sig.participants
  pub within :
      (sig : QuorumSignature) (m : List ℕ)
      → scheme.verify sig m ≡ true
      → IsWithin sig.participants ids
  pub unforged :
      (sig : QuorumSignature) (h i : ℕ) (b : Block)
      → u h ≡ some b
      → scheme.verify sig (block_bytes b) ≡ true
      → contains i sig.participants ≡ true
      → contains i faulty ≡ false
      → In b (votes i)

-- b certifies, over any number of blocks, the block a.
pub data RestsOn (u : Universe) (a : Block) : Block → Type 0 where
  here : {b : Block} → b ≡ a → RestsOn u a b
  over : {b : Block} (p : Block) → u b.cert.hash ≡ some p → RestsOn u a p → RestsOn u a b

-- All that the replicas are asked for.
pub record Setting (u : Universe) (scheme : Scheme) (origin : Block) (ids faulty : IdSet)
    (votes : ℕ → List Block) : Type 0 where
  pub start : IsOrigin u scheme origin
  pub genuine : IsGenuine u scheme ids faulty votes
  pub honest :
      (i : ℕ) → contains i ids ≡ true → contains i faulty ≡ false → IsVoting u scheme i (votes i)

-- A quorum has signed b.
pub record Quorum (u : Universe) (scheme : Scheme) (ids : IdSet) (b : Block) : Type 0 where
  pub sig : QuorumSignature
  pub hash : ℕ
  pub exists : u hash ≡ some b
  pub enough : quorum_size (length ids) ≤ length sig.participants
  pub valid : scheme.verify sig (block_bytes b) ≡ true

pub record Certified (u : Universe) (scheme : Scheme) (origin : Block) (ids : IdSet) (b : Block)
    : Type 0 where
  pub certified : (b ≡ origin) ⊎ Quorum u scheme ids b

module _ {u : Universe} {scheme : Scheme} {origin : Block} {ids faulty : IdSet}
    {votes : ℕ → List Block} (sys : Setting u scheme origin ids faulty votes) where
  pub accepted-Certified :
      (qc : QuorumCert) (b : Block) → IsAccepted u scheme qc b → Certified u scheme origin ids b
  accepted-Certified qc b a = elim a.signed_by [
    | inl e ↦ record { certified = inl (ground (arith, a.found, sys.start.found)) }
    | inr (sig, e, enough, valid) ↦ record {
      certified = inr (record {
        sig = sig;
        hash = qc.hash;
        exists = a.found;
        enough = rw⁻¹ (sys.genuine.quorum qc.view) enough;
        valid = valid;
      });
    }
  ]

  -- A replica that is not faulty and has signed both.
  pub record Witness (a b : Block) (q : Quorum u scheme ids a) : Type 0 where
    pub id : ℕ
    pub is_honest : contains id faulty ≡ false
    pub signed_a : contains id q.sig.participants ≡ true
    pub voting : IsVoting u scheme id (votes id)
    pub voted_a : In a (votes id)
    pub voted_b : In b (votes id)

  pub meet : (a b : Block) (q : Quorum u scheme ids a) → Quorum u scheme ids b → Witness a b q
  meet a b q r =
      let (i, ia, ib, good) =
        quorums_meet ids faulty q.sig.participants r.sig.participants sys.genuine.nonempty
          sys.genuine.few (sys.genuine.distinct q.sig _ q.valid)
          (sys.genuine.distinct r.sig _ r.valid) (sys.genuine.within q.sig _ q.valid)
          (sys.genuine.within r.sig _ r.valid) q.enough r.enough in
      record {
        id = i;
        is_honest = good;
        signed_a = ia;
        voting = sys.honest i (sys.genuine.within q.sig _ q.valid i ia) good;
        voted_a = sys.genuine.unforged q.sig q.hash i a q.exists q.valid ia good;
        voted_b = sys.genuine.unforged r.sig r.hash i b r.exists r.valid ib good;
      }

  pub Quorum-positive : (b : Block) → Quorum u scheme ids b → 0 < b.view
  Quorum-positive b q = let w = meet b b q q in w.voting.positive b w.voted_a

  -- One certified block in a view.
  pub Certified-once :
      (a b : Block)
      → Certified u scheme origin ids a
      → Certified u scheme origin ids b
      → a.view ≡ b.view
      → a ≡ b
  Certified-once a b p q e = elim p.certified [
    | inl x ↦ elim q.certified [
      | inl y ↦ x ∙ sym y
      | inr s ↦
          absurd
            (omega (arith, Quorum-positive b s, sys.start.lowest, ap (λ (y : Block). y.view) x))
    ]
    | inr r ↦ elim q.certified [
      | inl y ↦
          absurd
            (omega (arith, Quorum-positive a r, sys.start.lowest, ap (λ (z : Block). z.view) y))
      | inr s ↦ let w = meet a b r s in w.voting.once a b w.voted_a w.voted_b e
    ]
  ]

  -- A certified block rests on a certified block of a lower view.
  pub record Parent (b p : Block) : Type 0 where
    pub certified_p : Certified u scheme origin ids p
    pub lower : p.view < b.view

  pub parent : (b p : Block) → Quorum u scheme ids b → u b.cert.hash ≡ some p → Parent b p
  parent b p q e =
      let w = meet b b q q in
      let (p', a) = w.voting.accepted b w.voted_a in
      let same : p' ≡ p = ground (arith, a.found) in
      subst (Parent b) same (record {
        certified_p = accepted-Certified b.cert p' a;
        lower = elim a.signed_by [
          | inl g ↦
              let first : p' ≡ origin = ground (arith, a.found, sys.start.found) in
              omega (arith, Quorum-positive b q, sys.start.lowest, ap (λ (x : Block). x.view) first)
          | inr (sig, s, enough, valid) ↦
              let r : Quorum u scheme ids p' = record {
                sig = sig;
                hash = b.cert.hash;
                exists = a.found;
                enough = rw⁻¹ (sys.genuine.quorum b.cert.view) enough;
                valid = valid;
              } in
              let v = meet p' b r q in v.voting.rises b p' sig v.voted_b s a.found valid v.signed_a
        ];
      })

  pub Certified-Quorum :
      (b p : Block)
      → Certified u scheme origin ids b
      → u b.cert.hash ≡ some p
      → Quorum u scheme ids b
  Certified-Quorum b p c e = elim c.certified [
    | inl x ↦
        absurd (ground (arith, sys.start.first, subst (λ (y : Block). u y.cert.hash ≡ some p) x e))
    | inr q ↦ q
  ]
