-- ===== src/Kauri/Aggregation.antt =====
-- overhead/kauri/kauri.go: proposals go down the tree, and the votes are aggregated on the way up.
--
-- The handlers run as single steps; the wait before the aggregate is sent is a call of
-- `aggregate_and_send`, and so is the end of the goroutine that Begin starts. Calls of the other
-- modules stand in `out`, newest first. A contribution is a signature that is not nil.
pub mod Joined
pub mod Rounds
use optilog_artifacts.Prelude.{
  ℕ, zero, suc, Bool, true, false, not, ◌&&◌, ◌||◌, Option, none, some, List, [], ◌∷◌, ◌++◌, ◌==◌,
  leb, if◌then◌else◌, length, keep,
}
use optilog_artifacts.Prelude.Dict.{Dict}
use optilog_artifacts.Types.{
  Block, QuorumSignature, QuorumCert, PartialCert, ProposeMsg, Complaint, complaint, no_proof,
  suspicion, block_bytes, is_faulty,
}
use optilog_artifacts.Types.IdSet.{contains}
use optilog_artifacts.Chain.{Chain, Network, get}
use optilog_artifacts.Crypto.{CryptoBase}
use optilog_artifacts.Kauri.Tree.{FaultFreeTree, get_parent, get_children, get_sub_tree_nodes}

pub record Config : Type 0 where
  pub base : CryptoBase
  pub fetch : Network
  pub quorum : ℕ → ℕ
  pub id : ℕ
  pub has_ranking : Bool
  pub has_node : ℕ → Bool
  pub has_config : List ℕ → Bool
  pub walk_fuel : ℕ
  pub faulty_nodes : List ℕ
  pub fault_number : ℕ

-- `stuck` is a walk over the subtree that has no end within its fuel, `panic` a call of a nil ranking.
pub data Effect : Type 0 where
  propose_to : List ℕ → ProposeMsg → Effect
  send_contribution : ℕ → Option QuorumSignature → ℕ → Effect
  add_complaint : Complaint → Effect
  new_view : QuorumCert → Effect
  stuck panic : Effect

pub record Kauri : Type 0 where
  pub tree : FaultFreeTree
  pub aggregated_contribution : Option QuorumSignature
  pub block_hash : ℕ
  pub current_view : ℕ
  pub senders : List ℕ
  pub is_aggregation_sent : Bool
  pub chain : Chain
  pub out : List Effect

abbrev pub emit : Effect → Kauri → Kauri
emit e k = record k { out = e ∷ k.out }

-- What is in the first list and not in the second, and whether that is nothing.
unfoldable pub is_sub_set : List ℕ → List ℕ → List ℕ × Bool
unfolding contains
is_sub_set [] b = ([], true)
is_sub_set (id ∷ a) b =
    let (remaining, ok) = is_sub_set a b in
    if contains id b then (remaining, ok) else (id ∷ remaining, false)

-- Neither is nil, and no ID is in both.
unfoldable pub shares : List ℕ → List ℕ → Bool
unfolding contains
shares [] b = false
shares (id ∷ a) b = contains id b || shares a b

unfoldable pub can_merge_contributions : QuorumSignature → QuorumSignature → Bool
unfolding shares
can_merge_contributions a b = not (shares a.participants b.participants)

unfoldable pub reset : Kauri → Kauri
reset k = record k { aggregated_contribution = none; senders = []; is_aggregation_sent = false }

module _ (config : Config) where
  open config use {
    base, fetch, quorum, id, has_ranking, has_node, has_config, walk_fuel, faulty_nodes,
    fault_number,
  }

  abbrev pub check_block : QuorumSignature → Option Block × Chain → Bool × Chain
  check_block signature (none, c) = (false, c)
  check_block signature (some b, c) = (base.verify signature (block_bytes b), c)

  unfoldable pub verify_contribution : QuorumSignature → ℕ → Chain → Bool × Chain
  verify_contribution signature hash c = check_block signature (get fetch hash c)

  abbrev pub complete : QuorumSignature → Kauri → Kauri
  complete new k =
      let k' : Kauri = record k { aggregated_contribution = some new } in
      if leb (quorum k.current_view) (length new.participants)
      then emit
          (new_view (record {
            signature = some new;
            view = k.current_view;
            hash = k.block_hash;
            latency_vector = [];
          }))
          k'
      else k'

  abbrev pub combined : Option QuorumSignature → Kauri → Bool × Kauri
  combined none k = (false, k)
  combined (some new) k = (true, complete new k)

  -- The answer tells that there is no error.
  unfoldable pub merge_verified : QuorumSignature → Option QuorumSignature → Kauri → Bool × Kauri
  unfolding can_merge_contributions
  merge_verified current none k = (true, record k { aggregated_contribution = some current })
  merge_verified current (some old) k =
      let joined = combined (base.combine (current ∷ old ∷ [])) k in
      if can_merge_contributions current old then joined else (false, k)

  unfoldable pub merge_checked : QuorumSignature → Kauri → Bool × Chain → Bool × Kauri
  unfolding merge_verified
  merge_checked current k (false, c) = (false, record k { chain = c })
  merge_checked current k (true, c) =
      merge_verified current k.aggregated_contribution (record k { chain = c })

  unfoldable pub merge_with_contribution : QuorumSignature → Kauri → Bool × Kauri
  unfolding verify_contribution merge_checked
  merge_with_contribution current k =
      merge_checked current k (verify_contribution current k.block_hash k.chain)

  -- A nil ranking is called for every child that has not sent a contribution.
  abbrev pub suspect_all : List ℕ → Kauri → Kauri
  suspect_all [] k = k
  suspect_all (child ∷ remaining) k = suspect_all remaining (
      emit (if has_ranking then add_complaint (complaint 0 id child suspicion no_proof) else panic)
        k)

  unfoldable pub send_contribution_to_parent : Kauri → Kauri
  unfolding is_sub_set
  send_contribution_to_parent k =
      let (parent, ok) = get_parent k.tree in
      let k' = suspect_all (is_sub_set (get_children k.tree) k.senders).0 k in
      if ok && has_node parent
      then emit (send_contribution parent k.aggregated_contribution k.current_view) k'
      else k'

  abbrev pub sent : Kauri → Kauri
  unfolding send_contribution_to_parent
  sent k = record (send_contribution_to_parent k) { is_aggregation_sent = true }

  unfoldable pub send_if_all : Option (List ℕ) → Kauri → Kauri
  unfolding sent is_sub_set
  send_if_all none k = emit stuck k
  send_if_all (some nodes) k = if (is_sub_set nodes k.senders).1 then sent k else k

  unfoldable pub add_sender : ℕ → Bool × Kauri → Kauri
  unfolding send_if_all get_sub_tree_nodes
  add_sender sender (false, k) = k
  add_sender sender (true, k) =
      send_if_all (get_sub_tree_nodes k.tree walk_fuel)
        (record k { senders = k.senders ++ sender ∷ [] })

  -- A contribution of a replica for a view.
  unfoldable pub on_contribution_recv : ℕ → ℕ → QuorumSignature → Kauri → Kauri
  unfolding merge_with_contribution add_sender
  on_contribution_recv view sender signature k =
      let merged = add_sender sender (merge_with_contribution signature k) in
      if k.current_view == view then merged else k

  unfoldable pub send_proposal_to_children : ProposeMsg → Kauri → Kauri
  unfolding sent
  send_proposal_to_children p k =
      let children = get_children k.tree in
      if length children == 0
      then sent k
      else if has_config children
      then emit (propose_to children p) k
      else k

  -- What the goroutine of Begin does once its time is over.
  unfoldable pub aggregate_and_send : ℕ → Kauri → Kauri
  unfolding send_contribution_to_parent
  aggregate_and_send view k =
      let k' = send_contribution_to_parent k in
      if not (k.current_view == view) || k.is_aggregation_sent then k else k'

  -- Begin once the configuration is there, up to where it starts the goroutine. `new_tree` is the
  -- tree with the positions that the source gives the replicas where it changes them. The number
  -- of faults, an int, is compared on 32 bits, on which -1 is the highest.
  unfoldable pub begin_with : FaultFreeTree → PartialCert → ProposeMsg → Kauri → Kauri
  unfolding reset send_proposal_to_children is_faulty
  begin_with new_tree pc p k =
      let k' : Kauri = record (reset k) {
        tree = new_tree;
        block_hash = pc.block_hash;
        current_view = p.block.view;
        aggregated_contribution = some pc.signature;
      } in
      let going = send_proposal_to_children p k' in
      if is_faulty faulty_nodes id && leb id fault_number then k' else going
