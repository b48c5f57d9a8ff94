-- ===== src/Kauri/Aggregation/Joined.antt =====
-- What the aggregates of overhead/kauri/kauri.go are made of.
use optilog_artifacts.Prelude.{
  ℕ, ◌≤◌, ◌≡◌, refl, subst, Bool, true, false, ◌&&◌, Option, none, some, List, [], ◌∷◌, ◌++◌, ◌==◌,
  leb, All, arith, length, Bool-cases, inl, inr, if◌then◌else◌,
}
use optilog_artifacts.Types.{
  Block, QuorumSignature, QuorumCert, block_bytes, complaint, no_proof, suspicion,
}
use optilog_artifacts.Chain.{Chain, get}
use optilog_artifacts.Chain.Known.{Universe, IsHashed, IsFaithful, IsKnown, Answers, get-Answers}
use optilog_artifacts.Kauri.Tree.{get_parent, get_children, get_sub_tree_nodes}
use optilog_artifacts.Kauri.Aggregation.{
  Config, Effect, propose_to, send_contribution, add_complaint, new_view, stuck, panic, Kauri, emit,
  is_sub_set, can_merge_contributions, verify_contribution, complete, combined, merge_verified,
  merge_with_contribution, merge_checked, check_block, suspect_all, send_contribution_to_parent,
  sent, send_if_all, add_sender, on_contribution_recv,
}

module _ (config : Config) (u : Universe) where
  -- A signature that was verified for the block of the hash, or was combined of two such
  -- signatures in which no replica takes part twice.
  pub data IsAggregate (h : ℕ) : QuorumSignature → Type 0 where
    verified :
        (sig : QuorumSignature) (b : Block)
        → u h ≡ some b
        → config.base.verify sig (block_bytes b) ≡ true
        → IsAggregate h sig
    joined :
        (s t r : QuorumSignature)
        → IsAggregate h s
        → IsAggregate h t
        → can_merge_contributions s t ≡ true
        → config.base.combine (s ∷ t ∷ []) ≡ some r
        → IsAggregate h r

  abbrev pub IsJoined : ℕ → Option QuorumSignature → Type 0
  IsJoined h none = Unit {0}
  IsJoined h (some sig) = IsAggregate h sig

  abbrev pub IsComplete : QuorumCert → Option QuorumSignature → Type 0
  IsComplete qc none = ⊥
  IsComplete qc (some sig) =
      (config.quorum qc.view ≤ length sig.participants) × IsAggregate qc.hash sig

  abbrev pub IsHonest : Effect → Type 0
  IsHonest (new_view qc) = IsComplete qc qc.signature
  IsHonest (propose_to ids p) = Unit {0}
  IsHonest (send_contribution parent sig view) = Unit {0}
  IsHonest (add_complaint c) = Unit {0}
  IsHonest stuck = Unit {0}
  IsHonest panic = Unit {0}

  pub record IsSound (k : Kauri) : Type 0 where
    pub known : IsKnown u k.chain
    pub aggregate : IsJoined k.block_hash k.aggregated_contribution
    pub honest : All IsHonest k.out

  pub emit-IsSound : (e : Effect) (k : Kauri) → IsHonest e → IsSound k → IsSound (emit e k)
  emit-IsSound e k h s = record { known = s.known; aggregate = s.aggregate; honest = (h, s.honest) }

  suspicion-IsHonest :
      (has : Bool) (child : ℕ)
      → IsHonest
          (if has then add_complaint (complaint 0 config.id child suspicion no_proof) else panic)
  suspicion-IsHonest true child = tt
  suspicion-IsHonest false child = tt

  suspect-IsSound :
      (children : List ℕ) (k : Kauri) → IsSound k → IsSound (suspect_all config children k)
  suspect-IsSound [] k s = s
  suspect-IsSound (child ∷ remaining) k s =
      suspect-IsSound remaining
        (emit
          (if config.has_ranking
            then add_complaint (complaint 0 config.id child suspicion no_proof)
            else panic)
          k)
        (emit-IsSound
          (if config.has_ranking
            then add_complaint (complaint 0 config.id child suspicion no_proof)
            else panic)
          k (suspicion-IsHonest config.has_ranking child) s)

  pub if-IsSound :
      (b : Bool) (k k' : Kauri) → IsSound k → IsSound k' → IsSound (if b then k else k')
  if-IsSound true k k' s s' = s
  if-IsSound false k k' s s' = s'

  pub send-IsSound : (k : Kauri) → IsSound k → IsSound (send_contribution_to_parent config k)
  unfolding send_contribution_to_parent
  send-IsSound k s =
      let (parent, ok) = get_parent k.tree in
      let k' = suspect_all config (is_sub_set (get_children k.tree) k.senders).0 k in
      let s' = suspect-IsSound (is_sub_set (get_children k.tree) k.senders).0 k s in
      if-IsSound (ok && config.has_node parent)
        (emit (send_contribution parent k.aggregated_contribution k.current_view) k') k'
        (emit-IsSound (send_contribution parent k.aggregated_contribution k.current_view) k' tt s')
        s'

  send_if_all-IsSound :
      (o : Option (List ℕ)) (k : Kauri) → IsSound k → IsSound (send_if_all config o k)
  unfolding send_if_all
  send_if_all-IsSound none k s = emit-IsSound stuck k tt s
  send_if_all-IsSound (some nodes) k s =
      let t = send-IsSound k s in
      if-IsSound (is_sub_set nodes k.senders).1 (sent config k) k
        (record { known = t.known; aggregate = t.aggregate; honest = t.honest }) s

  add_sender-IsSound :
      (sender : ℕ) (r : Bool × Kauri) → IsSound r.1 → IsSound (add_sender config sender r)
  unfolding add_sender
  add_sender-IsSound sender (false, k) s = s
  add_sender-IsSound sender (true, k) s =
      send_if_all-IsSound (get_sub_tree_nodes k.tree config.walk_fuel)
        (record k { senders = k.senders ++ sender ∷ [] })
        (record { known = s.known; aggregate = s.aggregate; honest = s.honest })

  complete-IsSound :
      (new : QuorumSignature) (k : Kauri)
      → IsAggregate k.block_hash new
      → IsSound k
      → IsSound (complete config new k)
  complete-IsSound new k a s =
      elim (Bool-cases (leb (config.quorum k.current_view) (length new.participants))) [
        | inl e ↦
            rw e (record { known = s.known; aggregate = a; honest = ((ground arith, a), s.honest) })
        | inr e ↦ rw e (record { known = s.known; aggregate = a; honest = s.honest })
      ]

  merge_verified-IsSound :
      (current : QuorumSignature) (old : Option QuorumSignature) (k : Kauri)
      → IsAggregate k.block_hash current
      → k.aggregated_contribution ≡ old
      → IsSound k
      → IsSound (merge_verified config current old k).1
  unfolding merge_verified
  merge_verified-IsSound current none k a e s = record {
    known = s.known;
    aggregate = a;
    honest = s.honest;
  }
  merge_verified-IsSound current (some old) k a e s =
      elim (Bool-cases (can_merge_contributions current old)) [
        | inl m ↦ rw (m, merge_verified) (go (config.base.combine (current ∷ old ∷ [])) refl m)
        | inr m ↦ rw (m, merge_verified) s
      ]
    where
      go :
          (o : Option QuorumSignature)
          → config.base.combine (current ∷ old ∷ []) ≡ o
          → can_merge_contributions current old ≡ true
          → IsSound (combined config o k).1
      go none f m = s
      go (some new) f m =
          complete-IsSound new k
            (joined current old new a (subst (IsJoined k.block_hash) e s.aggregate) m f) s

  module _ (hashed : IsHashed u) (faithful : IsFaithful u config.fetch) where
    merge-IsSound :
        (current : QuorumSignature) (k : Kauri)
        → IsSound k
        → IsSound (merge_with_contribution config current k).1
    unfolding merge_with_contribution verify_contribution merge_checked
    merge-IsSound current k s =
        go (get config.fetch k.block_hash k.chain)
          (get-Answers u config.fetch k.block_hash k.chain hashed faithful s.known)
      where
        with_block :
            (b : Block) (c : Chain) (ok : Bool)
            → config.base.verify current (block_bytes b) ≡ ok
            → u k.block_hash ≡ some b
            → IsKnown u c
            → IsSound (merge_checked config current k (ok, c)).1
        with_block b c false e f kn = record {
          known = kn;
          aggregate = s.aggregate;
          honest = s.honest;
        }
        with_block b c true e f kn =
            merge_verified-IsSound current k.aggregated_contribution (record k { chain = c })
              (verified current b f e) refl
              (record { known = kn; aggregate = s.aggregate; honest = s.honest })

        go :
            (r : Option Block × Chain)
            → Answers u k.block_hash r
            → IsSound (merge_checked config current k (check_block config current r)).1
        go (none, c) a = record { known = a.known; aggregate = s.aggregate; honest = s.honest }
        go (some b, c) a =
            with_block b c (config.base.verify current (block_bytes b)) refl (a.found b refl)
              a.known

    pub on_contribution_recv-IsSound :
        (view sender : ℕ) (signature : QuorumSignature) (k : Kauri)
        → IsSound k
        → IsSound (on_contribution_recv config view sender signature k)
    unfolding on_contribution_recv
    on_contribution_recv-IsSound view sender signature k s =
        if-IsSound (k.current_view == view)
          (add_sender config sender (merge_with_contribution config signature k)) k
          (add_sender-IsSound sender (merge_with_contribution config signature k)
            (merge-IsSound signature k s))
          s
