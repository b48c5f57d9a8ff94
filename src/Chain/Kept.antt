-- ===== src/Chain/Kept.antt =====
-- Pruning of overhead/blockchain/blockchain.go only forgets, and a network that supplies every
-- existing block makes `Get` find it.
use optilog_artifacts.Prelude.{ℕ, ◌≡◌, subst, List, some, Option-cases, inl, inr, arith}
use optilog_artifacts.Prelude.Dict.{lookup}
use optilog_artifacts.Types.{Block}
use optilog_artifacts.Chain.{Chain, Network, get, fetch_block, after_fetch, prune_to_height}
use optilog_artifacts.Chain.Known.{Universe, IsKnown}
use optilog_artifacts.Chain.Pruning.{prune_to_height-lookup}

-- After pruning, a replica that held only existing blocks still does.
pub prune_to_height-IsKnown :
    (u : Universe) (committed : Block) (height : ℕ) (c c' : Chain) (bs : List Block)
    → IsKnown u c
    → prune_to_height committed height c ≡ some (bs, c')
    → IsKnown u c'
prune_to_height-IsKnown u committed height c c' bs known e = record {
  by_hash = λ h b q.
      let after = prune_to_height-lookup committed height c c' bs e h in
      known.by_hash h b (subst (λ m. lookup h m ≡ some b) after.1 q);
  at_view = λ v b q.
      let after = prune_to_height-lookup committed height c c' bs e v in
      known.at_view v b (ground (arith, after.0));
}

-- The network answers with every block that exists.
abbrev pub Supplies : Universe → Network → Type 0
Supplies u fetch = (n h : ℕ) (b : Block) → u h ≡ some b → (fetch n h).result ≡ some b

pub get-supplied :
    (u : Universe) (fetch : Network) (h : ℕ) (b : Block) (c : Chain)
    → Supplies u fetch
    → IsKnown u c
    → u h ≡ some b
    → (get fetch h c).0 ≡ some b
unfolding get fetch_block after_fetch
get-supplied u fetch h b c supplies known e = elim (Option-cases (lookup h c.blocks)) [
  | inl q ↦ ground (arith, supplies c.fetches h b e)
  | inr (a, q) ↦ ground (arith, known.by_hash h a q)
]
