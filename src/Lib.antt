-- ===== src/Lib.antt =====
-- A verification of the core of the HotStuff implementation in overhead/.
--
-- A replica (overhead/replica/replica.go) is a set of modules that an event loop drives:
--   * The event loop takes events from a bounded ring.
--       EventLoop/Queue: overhead/eventloop/queue.go. EventLoop/Queue/Refinement has it against a
--       list. EventLoop/Guarded and EventLoop/Loop: overhead/eventloop/eventloop.go.
--       EventLoop/Loop/Specification is what it promises, Refinement and Ticks the code against it.
--   * Consensus (overhead/consensus/consensus.go) proposes, votes and commits. It asks a rule set
--     whether to vote and what to commit, and keeps blocks in the block chain.
--       Consensus: the state and the modules that it calls; Consensus/Commit: Commit, commitInner;
--       Consensus/Propose: OnPropose; Consensus/Lead: Propose, and histories of calls.
--       Rules/Chained, Rules/Simple, Rules/Fast: CommitRule and VoteRule of
--       overhead/consensus/chainedhotstuff, simplehotstuff and fasthotstuff. Rules/Byzantine:
--       overhead/consensus/byzantine. Rules/Step is the monad in which they are written: a state, and
--       an early return.
--       Chain: overhead/blockchain/blockchain.go.
--       Agreement: replicas with the rules of overhead/consensus/simplehotstuff. Agreement/History,
--       Ballot, Proposal and Runs follow one replica through its calls, Agreement/Contract is what
--       its votes promise, and Agreement/System, Safety and Agreed have several replicas, of which
--       some are faulty and sign what they like.
--   * Crypto creates and verifies certificates over a signature scheme.
--       Crypto: overhead/crypto/crypto.go. Crypto/Cache: overhead/crypto/cache.go, the signatures
--       that are known to be valid. Crypto/Bitfield: overhead/crypto/bitfield.go, sets of IDs.
--   * The voting machine makes votes into quorum certificates and the synchronizer moves from view
--     to view with quorum and timeout certificates.
--       VotingMachine: overhead/consensus/votingmachine.go.
--       Synchronizer, Synchronizer/Advance, Timeout and Checkpoint:
--       overhead/synchronizer/synchronizer.go.
--   * CmdCache: overhead/replica/cmdcache.go, from which the leader takes its batches.
--   * LeaderRotation: overhead/leaderrotation/roundrobin.go and fixed.go; LeaderRotation/Carousel:
--     carousel.go. Who leads a view.
--   * Ranking: overhead/ranking/complaint.go, the complaints about replicas.
--   * Handel/Module: overhead/handel/handel.go; Handel/Session: overhead/handel/session.go, the
--     aggregation of one signature by levels, its choice of contributions (Score, Pending, Choose),
--     their verification (Verify) and what is passed on (Outgoing, Calls). Handel/Partitioner:
--     overhead/handel/partitioner.go, the levels.
--   * Kauri/Tree: overhead/kauri/tree.go, the overlay tree of the replicas. Kauri/Aggregation and
--     Kauri/Positions: overhead/kauri/kauri.go, votes joined along the tree, and who stands where.
--   * Types: the values that the modules exchange, of overhead/types.go, block.go, events.go,
--     genesis.go, helper.go and hotstuff.go, and the bytes that are signed and hashed.
--   * Twins: overhead/twins/scenario.go, the verdict on a simulated run. Twins/Generator:
--     overhead/twins/generator.go, the scenarios that are run.
-- Prelude has the names and the lemmas that all share, Tests runs of the theorems on data.
--
-- State is passed explicitly: an operation takes the state of its module and returns the new one.
-- A call of another module that is not followed is recorded in a list, newest first. IDs, views
-- and hashes are numbers, and the sums that the source takes on 64 bits wrap. Parameters stand for
-- what is outside the repository: sha256, the signature scheme (CryptoBase), the answers of the
-- network (Network) and the encoding of a batch (Codec).
--
-- Loops over a branch of blocks run on fuel. Extends and commitInner start with more than the view
-- of their block, which is enough where a parent has a lower view than its child. CreateTree starts
-- with the number of positions. The loop of performCheckPoint and the walk over a subtree answer
-- `none` where the fuel given runs out. The loop of the round-robin rotation starts with twice the
-- number of replicas, which tries every ID even where the view overflows. The binary search of a
-- session's contributions starts with one more than their number, and each round halves the range.
--
-- Not modelled: goroutines and locks (each handler runs as one step, but blocks may arrive while Get
-- waits for the network), timers, contexts and logging, the network back end, the
-- pseudorandom shuffles, the rotation by reputation, which computes with floats, and the search for
-- trees.
pub mod Prelude
pub mod Types
pub mod Chain
pub mod Rules
pub mod Crypto
pub mod Consensus
pub mod EventLoop
pub mod CmdCache
pub mod VotingMachine
pub mod Synchronizer
pub mod Kauri
pub mod Tests
pub mod LeaderRotation
pub mod Handel
pub mod Ranking
pub mod Twins
pub mod Agreement
