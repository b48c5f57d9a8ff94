-- ===== src/Kauri/Aggregation/Rounds.antt =====
-- The certificates that any calls of overhead/kauri/kauri.go give the event loop.
use optilog_artifacts.Prelude.{
  ℕ, ◌≡◌, true, not, ◌&&◌, ◌||◌, some, List, [], ◌∷◌, ◌==◌, leb, All, length, if◌then◌else◌,
}
use optilog_artifacts.Types.{
  Block, QuorumSignature, PartialCert, ProposeMsg, block_bytes, is_faulty,
}
use optilog_artifacts.Chain.Known.{Universe, IsHashed, IsFaithful}
use optilog_artifacts.Kauri.Tree.{FaultFreeTree, get_children}
use optilog_artifacts.Kauri.Aggregation.{
  Config, propose_to, Kauri, emit, sent, reset, send_contribution_to_parent, on_contribution_recv,
  send_proposal_to_children, aggregate_and_send, begin_with,
}
use optilog_artifacts.Kauri.Aggregation.Joined.{
  IsSound, verified, if-IsSound, emit-IsSound, send-IsSound, on_contribution_recv-IsSound,
}

pub data Call : Type 0 where
  begins : FaultFreeTree → PartialCert → ProposeMsg → Call
  receives : ℕ → ℕ → QuorumSignature → Call
  waits : ℕ → Call

module _ (config : Config) where
  abbrev pub answer : Call → Kauri → Kauri
  unfolding begin_with on_contribution_recv aggregate_and_send
  answer (begins tree pc p) k = begin_with config tree pc p k
  answer (receives view sender sig) k = on_contribution_recv config view sender sig k
  answer (waits view) k = aggregate_and_send config view k

  unfoldable pub answer_all : List Call → Kauri → Kauri
  unfolding answer
  answer_all [] k = k
  answer_all (x ∷ xs) k = answer_all xs (answer x k)

  -- The replica's own vote is a valid signature for an existing block.
  abbrev pub IsOwn : Universe → Call → Type 0
  IsOwn u (begins tree pc p) =
      (b : Block) × (u pc.block_hash ≡ some b)
      × (config.base.verify pc.signature (block_bytes b) ≡ true)
  IsOwn u (receives view sender sig) = Unit {0}
  IsOwn u (waits view) = Unit {0}

  module _ (u : Universe) (hashed : IsHashed u) (faithful : IsFaithful u config.fetch) where
    propose-IsSound :
        (p : ProposeMsg) (k : Kauri)
        → IsSound config u k
        → IsSound config u (send_proposal_to_children config p k)
    unfolding send_proposal_to_children
    propose-IsSound p k s =
        let t = send-IsSound config u k s in
        let children = get_children k.tree in
        if-IsSound config u (length children == 0) (sent config k)
          (if config.has_config children then emit (propose_to children p) k else k)
          (record { known = t.known; aggregate = t.aggregate; honest = t.honest })
          (if-IsSound config u (config.has_config children) (emit (propose_to children p) k) k
            (emit-IsSound config u (propose_to children p) k tt s) s)

    answer-IsSound :
        (x : Call) (k : Kauri) → IsOwn u x → IsSound config u k → IsSound config u (answer x k)
    unfolding answer begin_with aggregate_and_send reset
    answer-IsSound (begins tree pc p) k (b, e, v) s =
        let k' : Kauri = record (reset k) {
          tree = tree;
          block_hash = pc.block_hash;
          current_view = p.block.view;
          aggregated_contribution = some pc.signature;
        } in
        let s' : IsSound config u k' = record {
          known = s.known;
          aggregate = verified pc.signature b e v;
          honest = s.honest;
        } in
        if-IsSound config u
          (is_faulty config.faulty_nodes config.id && leb config.id config.fault_number) k'
          (send_proposal_to_children config p k') s' (propose-IsSound p k' s')
    answer-IsSound (receives view sender sig) k own s =
        on_contribution_recv-IsSound config u hashed faithful view sender sig k s
    answer-IsSound (waits view) k own s =
        if-IsSound config u (not (k.current_view == view) || k.is_aggregation_sent) k
          (send_contribution_to_parent config k) s (send-IsSound config u k s)

    -- Over any calls of the aggregation from a sound state, each certificate that it gives the
    -- event loop has a quorum of participants and a signature that was verified for the block of
    -- its hash or joined of such signatures in which no replica takes part twice, if the replica's
    -- own votes are valid and the network answers with the block asked for.
    pub answer_all-IsSound :
        (calls : List Call) (k : Kauri)
        → All (IsOwn u) calls
        → IsSound config u k
        → IsSound config u (answer_all calls k)
    unfolding answer_all
    answer_all-IsSound [] k own s = s
    answer_all-IsSound (x ∷ xs) k own s =
        answer_all-IsSound xs (answer x k) own.1 (answer-IsSound x k own.0 s)
