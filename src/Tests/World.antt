-- ===== src/Tests/World.antt =====
-- The data: the genesis block, four blocks above it, each certifying its parent, and a replica that
-- knows them.
use optilog_artifacts.Prelude.{
  ℕ, ◌+◌, ◌-◌, ◌≡◌, refl, true, false, none, some, List, [], ◌∷◌, ◌++◌, ◌==◌, if◌then◌else◌, arith,
  length, length-append,
}
use optilog_artifacts.Prelude.Dict.{lookup_nil}
use optilog_artifacts.Types.{QuorumSignature, QuorumCert, Block}
use optilog_artifacts.Chain.{Chain, Network, store_all}
use optilog_artifacts.Chain.Known.{
  Universe, IsHashed, Descends, IsFaithful, IsKnown, store_all-IsKnown,
}
use optilog_artifacts.Crypto.{CryptoBase}
use optilog_artifacts.Crypto.Certificates.{Combines, total_participants}
use optilog_artifacts.Consensus.{Config}

abbrev pub sig_of : List ℕ → QuorumSignature
sig_of ids = record { bytes = 7 ∷ []; participants = ids }

abbrev pub cert_of : ℕ → ℕ → QuorumCert
cert_of view hash = record {
  signature = some (sig_of (1 ∷ 2 ∷ 3 ∷ []));
  view = view;
  hash = hash;
  latency_vector = [];
}

abbrev pub block_of : ℕ → Block
block_of view = record {
  hash = 10 + view;
  parent = 9 + view;
  proposer = 1;
  cmd = 5 ∷ [];
  cert = cert_of (view - 1) (9 + view);
  view = view;
  time = 0;
}

abbrev pub genesis : Block
genesis = record {
  hash = 10;
  parent = 0;
  proposer = 0;
  cmd = [];
  cert = record { signature = none; view = 0; hash = 0; latency_vector = [] };
  view = 0;
  time = 0;
}

abbrev pub world : Universe
world h =
    if h == 10
    then some genesis
    else if h == 11
    then some (block_of 1)
    else if h == 12
    then some (block_of 2)
    else if h == 13
    then some (block_of 3)
    else if h == 14
    then some (block_of 4)
    else none

pub world-IsHashed : IsHashed world
world-IsHashed h b e = ground arith

pub world-Descends : Descends world
world-Descends b p e f = ground arith

abbrev pub network : Network
network n h = record { arrived = []; result = world h }

pub network-IsFaithful : IsFaithful world network
network-IsFaithful = record { arrives = λ n h. tt; answers = λ n h b e. e }

abbrev blank : Chain
blank = record {
  prune_height = 0;
  blocks = [];
  block_at_height = [];
  pending_fetch = [];
  cancelled = [];
  fetches = 0;
}

blank-IsKnown : IsKnown world blank
blank-IsKnown = record {
  by_hash = λ h b e. absurd (ground (arith, lookup_nil {V = Block} h));
  at_view = λ v b e. absurd (ground (arith, lookup_nil {V = Block} v));
}

abbrev all_blocks : List Block
all_blocks = genesis ∷ block_of 1 ∷ block_of 2 ∷ block_of 3 ∷ block_of 4 ∷ []

abbrev pub chain : Chain
chain = store_all all_blocks blank

pub chain-IsKnown : IsKnown world chain
chain-IsKnown =
    store_all-IsKnown world all_blocks blank (refl, (refl, (refl, (refl, (refl, tt)))))
      blank-IsKnown

abbrev participants_of : List QuorumSignature → List ℕ
participants_of [] = []
participants_of (s ∷ ss) = s.participants ++ participants_of ss

abbrev pub base : CryptoBase
base = record {
  sign = λ m. some (sig_of (1 ∷ []));
  combine = λ ss. some (sig_of (participants_of ss));
  verify = λ s m. true;
  batch_verify = λ s ms. true;
}

abbrev pub config : Config
config = record {
  fetch = network;
  base = base;
  genesis = 10;
  quorum = λ v. 3;
  sha256 = λ bytes. length bytes;
  id = 1;
  use_agg_qc = false;
  has_ranking = false;
  has_handel = false;
  leader = λ v. 1;
  has_replica = λ i. true;
  now = 0;
}

length-participants_of :
    (ss : List QuorumSignature) → length (participants_of ss) ≡ total_participants ss
length-participants_of [] = refl
length-participants_of (s ∷ ss) =
    omega (arith, length-append s.participants (participants_of ss), length-participants_of ss)

pub base-Combines : Combines base
base-Combines = record {
  valid = λ ss s m e h. refl;
  counts = λ ss s e. ground (arith, length-participants_of ss);
}
