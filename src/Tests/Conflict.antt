-- ===== src/Tests/Conflict.antt =====
-- The rules of overhead/consensus/chainedhotstuff on two branches that grow in turn.
use optilog_artifacts.Prelude.{ℕ, ◌+◌, ◌≡◌, refl, true, Bool, Option, none, some, List, [], ◌∷◌}
use optilog_artifacts.Prelude.Dict.{lookup, insert}
use optilog_artifacts.Types.{Block}
use optilog_artifacts.Chain.{Network, get, extends, extends_from, store_all, store}
use optilog_artifacts.Rules.Chained.{ChainedHotStuff, commit_rule, vote_rule}
use optilog_artifacts.Tests.World.{cert_of, genesis}

-- A block with the hash `10 + view`, over the block that its certificate is for.
abbrev over : ℕ → ℕ → Block
over view parent = record {
  hash = 10 + view;
  parent = 10 + parent;
  proposer = 1;
  cmd = [];
  cert = cert_of parent (10 + parent);
  view = view;
  time = 0;
}

-- In the order of their views: 1, 2, 5 and 7 on one branch, and 3, 4, 6 and 8 on the other.
abbrev blocks : List Block
blocks = over 1 0 ∷ over 2 1 ∷ over 3 0 ∷ over 4 3 ∷ over 5 2 ∷ over 6 4 ∷ over 7 5 ∷ over 8 6 ∷ []

abbrev silent : Network
silent n h = record { arrived = []; result = none }

abbrev start : ChainedHotStuff
start = record {
  b_lock = genesis;
  chain = store_all (genesis ∷ blocks) (record {
    prune_height = 0;
    blocks = [];
    block_at_height = [];
    pending_fetch = [];
    cancelled = [];
    fetches = 0;
  });
}

receive : List Block → ChainedHotStuff → List (Option Bool × Option Block)
receive [] hs = []
receive (b ∷ bs) hs =
    let (vote, voted) =
      vote_rule silent (record { id = 1; block = b; aggregate_qc = none; complaints = [] }) hs in
    let (committed, next) = commit_rule silent b voted in (vote, committed) ∷ receive bs next

-- The replica votes for every block, and then commits a block of each branch.
both_committed :
    receive blocks start
    ≡ (some true, none)
      ∷ (some true, none)
      ∷ (some true, none)
      ∷ (some true, none)
      ∷ (some true, some genesis)
      ∷ (some true, some genesis)
      ∷ (some true, some (over 1 0))
      ∷ (some true, some (over 3 0))
      ∷ []
unfolding receive vote_rule commit_rule extends extends_from get lookup store_all store insert
both_committed = refl
