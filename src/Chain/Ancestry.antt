-- ===== src/Chain/Ancestry.antt =====
-- `Extends` of overhead/blockchain/blockchain.go against the ancestor relation of the blocks that
-- exist.
use optilog_artifacts.Prelude.{
  ℕ, zero, suc, ◌≤◌, ◌<◌, ◌≡◌, refl, ap, ◌∙◌, Bool, true, false, none, some, arith, ◌==◌, ltb,
  Option-cases, Bool-cases, inl, inr, ==_refl,
}
use optilog_artifacts.Types.{Block}
use optilog_artifacts.Chain.{Chain, Network, local_get, get, extends_from, extends}
use optilog_artifacts.Chain.Known.{Universe, IsHashed, IsFaithful, IsKnown, Descends, get-Answers}
use optilog_artifacts.Chain.Lookup.{get-local}

-- `target` is the block or one of its ancestors.
pub data IsAncestor (u : Universe) (target : Block) : Block → Type 0 where
  same : (b : Block) → b.hash ≡ target.hash → IsAncestor u target b
  above : (b p : Block) → u b.parent ≡ some p → IsAncestor u target p → IsAncestor u target b

-- The same along blocks that are all held locally.
pub data IsHeld (c : Chain) (target : Block) : Block → Type 0 where
  last : (b : Block) → b.hash ≡ target.hash → IsHeld c target b
  via : (b p : Block) → local_get b.parent c ≡ some p → IsHeld c target p → IsHeld c target b

-- The two cases of a round of the loop.
module _ (fetch : Network) (f : ℕ) (current target : Block) (c : Chain) where
  round_up :
      ltb target.view current.view ≡ true
      → extends_from fetch (suc f) (some current) target c
        ≡ extends_from fetch f (get fetch current.parent c).0 target (get fetch current.parent c).1
  unfolding extends_from
  round_up e = rw e

  round_stop :
      ltb target.view current.view ≡ false
      → extends_from fetch (suc f) (some current) target c ≡ (some (current.hash == target.hash), c)
  unfolding extends_from
  round_stop e = rw e

not_extends_none :
    (fetch : Network) (f : ℕ) (target : Block) (c : Chain)
    → (extends_from fetch f none target c).0 ≡ some true
    → ⊥
unfolding extends_from
not_extends_none fetch zero target c e = cc
not_extends_none fetch (suc f) target c e = cc

none_total :
    (fetch : Network) (f : ℕ) (target : Block) (c : Chain)
    → 0 < f
    → (r : Bool) × ((extends_from fetch f none target c).0 ≡ some r)
unfolding extends_from
none_total fetch zero target c h = absurd (omega arith)
none_total fetch (suc f) target c h = (false, refl)

module _ (u : Universe) (fetch : Network) (hashed : IsHashed u)
    (faithful : IsFaithful u fetch) where
  -- The loop says true only of an ancestor, with any fuel.
  extends_from_sound :
      (f : ℕ) (current target : Block) (c : Chain)
      → IsKnown u c
      → (extends_from fetch f (some current) target c).0 ≡ some true
      → IsAncestor u target current
  unfolding extends_from
  extends_from_sound zero current target c known e = cc
  extends_from_sound (suc f) current target c known e =
      elim (Bool-cases (ltb target.view current.view)) [
        | inl more ↦
            let answers = get-Answers u fetch current.parent c hashed faithful known in
            elim (Option-cases (get fetch current.parent c).0) [
              | inl q ↦ absurd (
                  not_extends_none fetch f target (get fetch current.parent c).1
                    (rw (round_up fetch f current target c more, q) at e))
              | inr (p, q) ↦ above current p (answers.found p q) (
                  extends_from_sound f p target (get fetch current.parent c).1 answers.known
                    (rw (round_up fetch f current target c more, q) at e))
            ]
        | inr stop ↦ same current (
            let e' : (current.hash == target.hash) ≡ true =
              ground (arith, round_stop fetch f current target c stop, e) in
            ground arith)
      ]

  -- If Extends says true, the target is an ancestor of the block, or the block itself, among the
  -- existing blocks, from a replica that holds only those.
  pub extends_sound :
      (block target : Block) (c : Chain)
      → IsKnown u c
      → (extends fetch block target c).0 ≡ some true
      → IsAncestor u target block
  unfolding extends
  extends_sound block target c = extends_from_sound (suc (suc block.view)) block target c

  extends_from-total :
      (f : ℕ) (current target : Block) (c : Chain)
      → Descends u
      → u current.hash ≡ some current
      → IsKnown u c
      → current.view < f
      → (r : Bool) × ((extends_from fetch f (some current) target c).0 ≡ some r)
  extends_from-total zero current target c falls exists known h = absurd (omega arith)
  extends_from-total (suc f) current target c falls exists known h =
      elim (Bool-cases (ltb target.view current.view)) [
        | inl more ↦
            let answers = get-Answers u fetch current.parent c hashed faithful known in
            elim (Option-cases (get fetch current.parent c).0) [
              | inl q ↦
                  rw (round_up fetch f current target c more, q)
                    (none_total fetch f target (get fetch current.parent c).1 (ground arith))
              | inr (p, q) ↦
                  let lower : p.view < current.view = falls current p exists (answers.found p q) in
                  rw (round_up fetch f current target c more, q)
                    (extends_from-total f p target (get fetch current.parent c).1 falls
                      (ap u (hashed _ p (answers.found p q)) ∙ answers.found p q) answers.known
                      (omega arith))
            ]
        | inr stop ↦ rw (round_stop fetch f current target c stop) (_, refl)
      ]

  -- Where views fall from block to parent, the loop of `Extends` ends.
  pub extends_total :
      (block target : Block) (c : Chain)
      → Descends u
      → u block.hash ≡ some block
      → IsKnown u c
      → (r : Bool) × ((extends fetch block target c).0 ≡ some r)
  unfolding extends
  extends_total block target c falls exists known =
      extends_from-total (suc (suc block.view)) block target c falls exists known (omega arith)

module _ (u : Universe) (falls : Descends u) (hashed : IsHashed u) (target : Block)
    (exists_target : u target.hash ≡ some target) (c : Chain) (known : IsKnown u c) where
  held-view : (b : Block) → u b.hash ≡ some b → IsHeld c target b → target.view ≤ b.view
  unfolding local_get
  held-view b exists (last _ e) = ground (arith, ap u e)
  held-view b exists (via _ p e rest) =
      let found = known.by_hash b.parent p e in
      let lower : p.view < b.view = falls b p exists found in
      omega (arith, held-view p (ap u (hashed _ p found) ∙ found) rest)

  extends_from_complete :
      (fetch : Network) (f : ℕ) (b : Block)
      → u b.hash ≡ some b
      → IsHeld c target b
      → b.view < f
      → extends_from fetch f (some b) target c ≡ (some true, c)
  extends_from_complete fetch zero b exists held h = absurd (omega arith)
  extends_from_complete fetch (suc f) b exists (last _ e) h =
      let v : b.view ≡ target.view = ground (arith, ap u e) in
      rw (round_stop fetch f b target c (ground arith)) (rw e (rw ==_refl))
  extends_from_complete fetch (suc f) b exists (via _ p e rest) h =
      let found : u b.parent ≡ some p = unfold local_get in (known.by_hash b.parent p e) in
      let lower : p.view < b.view = falls b p exists found in
      let own : u p.hash ≡ some p = ap u (hashed _ p found) ∙ found in
      let reach : target.view ≤ p.view = held-view p own rest in
      rw (round_up fetch f b target c (ground arith), get-local fetch b.parent p c e)
        (extends_from_complete fetch f p own rest (omega arith))

  -- If all blocks from an existing block down to an existing target are held locally, Extends says
  -- true and changes nothing, if parents have lower views.
  pub extends_complete :
      (fetch : Network) (b : Block)
      → u b.hash ≡ some b
      → IsHeld c target b
      → extends fetch b target c ≡ (some true, c)
  unfolding extends
  extends_complete fetch b exists held =
      extends_from_complete fetch (suc (suc b.view)) b exists held (omega arith)
