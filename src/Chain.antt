-- ===== src/Chain.antt =====
-- overhead/blockchain/blockchain.go: the blocks that a replica knows, and pruning.
--
-- The map pendingFetch holds for each hash the number of the fetch in flight; calling its cancel
-- function adds that number to `cancelled`. The network is the parameter `fetch`: the answer to
-- the n-th fetch, of the given hash, with the blocks that other goroutines stored while the mutex
-- was released.
pub mod Known
pub mod Lookup
pub mod Ancestry
pub mod Pruning
pub mod Kept
use optilog_artifacts.Prelude.{
  ℕ, zero, suc, ◌+◌, ◌-◌, Bool, true, false, not, ◌||◌, Option, none, some, List, [], ◌∷◌, ◌++◌,
  ◌==◌, ltb, if◌then◌else◌,
}
use optilog_artifacts.Prelude.Dict.{Dict, lookup, insert, delete}
use optilog_artifacts.Types.{Block}

pub record Chain : Type 0 where
  pub prune_height : ℕ
  pub blocks : Dict Block
  pub block_at_height : Dict Block
  pub pending_fetch : Dict ℕ
  pub cancelled : List ℕ
  pub fetches : ℕ

pub record Fetched : Type 0 where
  pub arrived : List Block
  pub result : Option Block

abbrev pub Network : Type 0
Network = ℕ → ℕ → Fetched

abbrev cancel : Option ℕ → List ℕ → List ℕ
cancel none ns = ns
cancel (some n) ns = n ∷ ns

unfoldable pub store : Block → Chain → Chain
store b c = record c {
  blocks = insert b.hash b c.blocks;
  block_at_height = insert b.view b c.block_at_height;
  cancelled = cancel (lookup b.hash c.pending_fetch) c.cancelled;
}

unfoldable pub store_all : List Block → Chain → Chain
store_all [] c = c
store_all (b ∷ bs) c = store_all bs (store b c)

abbrev empty : Chain
empty = record {
  prune_height = 0;
  blocks = [];
  block_at_height = [];
  pending_fetch = [];
  cancelled = [];
  fetches = 0;
}

unfoldable pub new : Block → Chain
unfolding store
new genesis = store genesis empty

unfoldable pub local_get : ℕ → Chain → Option Block
local_get h c = lookup h c.blocks

-- What follows once the mutex is held again.
unfoldable pub after_fetch : ℕ → Option Block → Chain → Option Block × Chain
after_fetch h none c = (lookup h c.blocks, c)
after_fetch h (some b) c = (
  some b,
  record c { blocks = insert h b c.blocks; block_at_height = insert b.view b c.block_at_height },
)

abbrev pub begin_fetch : ℕ → Chain → Chain
begin_fetch h c = record c {
  pending_fetch = insert h c.fetches c.pending_fetch;
  fetches = c.fetches + 1;
}

abbrev pub end_fetch : ℕ → Chain → Chain
end_fetch h c = record c { pending_fetch = delete h c.pending_fetch }

module _ (fetch : Network) where
  unfoldable pub fetch_block : ℕ → Chain → Option Block × Chain
  fetch_block h c =
      let reply = fetch c.fetches h in
      after_fetch h reply.result (end_fetch h (store_all reply.arrived (begin_fetch h c)))

  unfoldable pub get : ℕ → Chain → Option Block × Chain
  get h c = elim (lookup h c.blocks) [ some b ↦ (some b, c) | none ↦ fetch_block h c ]

  -- The loop of Extends on fuel; `none` means that the fuel ran out.
  unfoldable pub extends_from : ℕ → Option Block → Block → Chain → Option Bool × Chain
  extends_from zero current target c = (none, c)
  extends_from (suc f) none target c = (some false, c)
  extends_from (suc f) (some current) target c =
      let further = (let (parent, c') = get current.parent c in extends_from f parent target c') in
      if ltb target.view current.view then further else (some (current.hash == target.hash), c)

  -- With views that fall from block to parent, the view of the block bounds the rounds.
  unfoldable pub extends : Block → Block → Chain → Option Bool × Chain
  unfolding extends_from
  extends block target c = extends_from (suc (suc block.view)) (some block) target c

-- A round of the first loop of PruneToHeight, at height `h`: the view of the parent to go on
-- with, or none where the loop ends.
unfoldable pub next_view : ℕ → Chain → Option ℕ
next_view h c = if ltb h c.prune_height then none else elim (lookup h c.block_at_height) [
  | none ↦ none
  | some block ↦ elim (lookup block.parent c.blocks) [
    | none ↦ none
    | some parent ↦ if ltb parent.view c.prune_height then none else some parent.view
  ]
]

-- The loop: the views of the ancestors that it finds. `none` means that the fuel ran out.
unfoldable pub committed_views : ℕ → ℕ → Chain → Option (List ℕ)
committed_views zero h c = none
committed_views (suc f) h c = elim (next_view h c) [
  | none ↦ some []
  | some v ↦ elim (committed_views f v c) [ none ↦ none | some vs ↦ some (v ∷ vs) ]
]

unfoldable pub has_view : ℕ → List ℕ → Bool
has_view h [] = false
has_view h (v ∷ vs) = (v == h) || has_view h vs

abbrev pub as_list : Bool → Option Block → List Block
as_list true o = []
as_list false none = []
as_list false (some b) = b ∷ []

-- The second loop, from the height prune_height + n down: the forked blocks in the order in which
-- they are found, and the map with the heights deleted.
unfoldable pub prune_loop : ℕ → ℕ → List ℕ → Dict Block → List Block × Dict Block
prune_loop zero low committed m = ([], m)
prune_loop (suc n) low committed m =
    let h = low + suc n in
    let (forked, m') = prune_loop n low committed (delete h m) in
    (as_list (has_view h committed) (lookup h m) ++ forked, m')

unfoldable pub prune_to_height : Block → ℕ → Chain → Option (List Block × Chain)
unfolding next_view committed_views prune_loop has_view
prune_to_height committed height c = elim (committed_views (suc committed.view) committed.view c) [
  | none ↦ none
  | some views ↦
      let (forked, m) =
        prune_loop (height - c.prune_height) c.prune_height (committed.view ∷ views)
          c.block_at_height in
      some (forked, record c { block_at_height = m; prune_height = height })
]
