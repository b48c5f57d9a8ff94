-- ===== src/Agreement/Contract.antt =====
-- What a replica promises to the others by its votes, apart from how
-- overhead/consensus/consensus.go and the simple rules keep to it.
use optilog_artifacts.Prelude.{
  ℕ, ◌≤◌, ◌<◌, ◌≡◌, sym, ap, ◌∙◌, subst, true, some, List, [], ◌∷◌, arith, In, inl, inr,
}
use optilog_artifacts.Types.{Block, QuorumSignature, block_bytes}
use optilog_artifacts.Types.IdSet.{contains}
use optilog_artifacts.Chain.Known.{Universe}
use optilog_artifacts.Consensus.{Config}
use optilog_artifacts.Agreement.History.{Scheme, scheme_of, IsAccepted, LocksBelow, IsLine, Support}

pub record IsVoting (u : Universe) (scheme : Scheme) (id : ℕ) (votes : List Block) : Type 0 where
  -- A vote is above the genesis block, for a block whose certificate is accepted,
  pub positive : (b : Block) → In b votes → 0 < b.view
  pub accepted : (b : Block) → In b votes → (p : Block) × IsAccepted u scheme b.cert p
  -- once in a view,
  pub once : (a b : Block) → In a votes → In b votes → a.view ≡ b.view → a ≡ b
  -- above the certified block, if the replica has signed that,
  pub rises :
      (b p : Block) (sig : QuorumSignature)
      → In b votes
      → b.cert.signature ≡ some sig
      → u b.cert.hash ≡ some p
      → scheme.verify sig (block_bytes p) ≡ true
      → contains id sig.participants ≡ true
      → p.view < b.view
  -- and over no block that is below what an earlier vote locked.
  pub locked :
      (a b p g gg : Block)
      → In a votes
      → In b votes
      → a.view < b.view
      → u a.cert.hash ≡ some g
      → u g.cert.hash ≡ some gg
      → u b.cert.hash ≡ some p
      → gg.view ≤ p.view

module _ (u : Universe) (config : Config) where
  below : (n : ℕ) (bs : List Block) (b : Block) → IsLine u config n bs → In b bs → b.view < n
  below n [] b line i = absurd i
  below n (a ∷ bs) b line (inl e) = ground (arith, line.0)
  below n (a ∷ bs) b line (inr i) = omega (arith, below a.view bs b line.1.2 i, line.0)

  -- The moment of a vote: the votes before it.
  record Entry (bs : List Block) (b : Block) : Type 0 where
    earlier : List Block
    support : Support u config b earlier
    locks : LocksBelow u config support.p.view earlier
    line : IsLine u config b.view earlier
    before : (a : Block) → In a bs → a.view < b.view → In a earlier

  entry : (n : ℕ) (bs : List Block) (b : Block) → IsLine u config n bs → In b bs → Entry bs b
  entry n [] b line i = absurd i
  entry n (a ∷ bs) b line (inl e) = subst (Entry (a ∷ bs)) (sym e) (record {
    earlier = bs;
    support = line.1.0;
    locks = line.1.1;
    line = line.1.2;
    before = older;
  })
    where
      older : (c : Block) → In c (a ∷ bs) → c.view < a.view → In c bs
      older c (inl q) h = absurd (omega (arith, ap (λ (y : Block). y.view) q))
      older c (inr i) h = i
  entry n (a ∷ bs) b line (inr i) =
      let r = entry a.view bs b line.1.2 i in
      record {
        earlier = r.earlier;
        support = r.support;
        locks = r.locks;
        line = r.line;
        before = older r;
      }
    where
      older : (r : Entry bs b) (c : Block) → In c (a ∷ bs) → c.view < b.view → In c r.earlier
      older r c (inl q) h =
          absurd (omega (arith, below a.view bs b line.1.2 i, ap (λ (y : Block). y.view) q))
      older r c (inr j) h = r.before c j h

  locks-In :
      (l : ℕ) (bs : List Block) (b p gp : Block)
      → LocksBelow u config l bs
      → In b bs
      → u b.cert.hash ≡ some p
      → u p.cert.hash ≡ some gp
      → gp.view ≤ l
  locks-In l [] b p gp h i e f = absurd i
  locks-In l (a ∷ bs) b p gp h (inl q) e f =
      h.0 p gp (subst (λ (x : Block). u x.cert.hash ≡ some p) q e) f
  locks-In l (a ∷ bs) b p gp h (inr i) e f = locks-In l bs b p gp h.1 i e f

  line-once :
      (n : ℕ) (bs : List Block) (a b : Block)
      → IsLine u config n bs
      → In a bs
      → In b bs
      → a.view ≡ b.view
      → a ≡ b
  line-once n [] a b line i j e = absurd i
  line-once n (x ∷ bs) a b line (inl p) (inl q) e = p ∙ sym q
  line-once n (x ∷ bs) a b line (inl p) (inr j) e =
      absurd (omega (arith, below x.view bs b line.1.2 j, ap (λ (y : Block). y.view) p))
  line-once n (x ∷ bs) a b line (inr i) (inl q) e =
      absurd (omega (arith, below x.view bs a line.1.2 i, ap (λ (y : Block). y.view) q))
  line-once n (x ∷ bs) a b line (inr i) (inr j) e = line-once x.view bs a b line.1.2 i j e

  -- A history of votes keeps the promises.
  pub line-IsVoting :
      (n : ℕ) (bs : List Block) → IsLine u config n bs → IsVoting u (scheme_of config) config.id bs
  line-IsVoting n bs line = record {
    positive = λ b i. (entry n bs b line i).support.positive;
    accepted = λ b i. let s = (entry n bs b line i).support in (s.p, s.accepted);
    once = λ a b i j e. line-once n bs a b line i j e;
    rises = λ b p sig i q e valid mine.
        let r = entry n bs b line i in
        below b.view r.earlier p r.line (r.support.own sig p q e valid mine);
    locked = λ a b p g gg i j h ea eg eb.
        let r = entry n bs b line j in
        let top = locks-In r.support.p.view r.earlier a g gg r.locks (r.before a i h) ea eg in
        ground (arith, r.support.accepted.found);
  }
