-- ===== src/Kauri/Tree/Shape.antt =====
-- Parents and children in the tree of overhead/kauri/tree.go.
use optilog_artifacts.Prelude.{
  ℕ, ◌+◌, ◌*◌, ◌<◌, ◌≡◌, refl, sym, ap, ◌∙◌, ◌⊎◌, ◌↔◌, inl, inr, true, arith, In,
}
use optilog_artifacts.Kauri.Tree.{
  FaultFreeTree, read, get_parent, parent_pos, children_from, get_children_of_node,
}

-- The replicas have the positions below the length, each position its own replica.
pub record IsPlaced (t : FaultFreeTree) : Type 0 where
  pub pos_below : (i : ℕ) → read t.id_to_pos_mapping i < t.configuration_length
  pub pos_of_id :
      (p : ℕ)
      → p < t.configuration_length
      → read t.id_to_pos_mapping (read t.pos_to_id_mapping p) ≡ p

children-In :
    (t : FaultFreeTree) (p c : ℕ)
    → In c (children_from t p 2 1)
    → (2 * p + 1 < t.configuration_length × (c ≡ read t.pos_to_id_mapping (2 * p + 1)))
      ⊎ (2 * p + 2 < t.configuration_length × (c ≡ read t.pos_to_id_mapping (2 * p + 2)))
unfolding children_from
children-In t p c m = ground arith

In-children :
    (t : FaultFreeTree) (p c q : ℕ)
    → (q ≡ 2 * p + 1) ⊎ (q ≡ 2 * p + 2)
    → q < t.configuration_length
    → c ≡ read t.pos_to_id_mapping q
    → In c (children_from t p 2 1)
unfolding children_from
In-children t p c q e b w = ground arith

module _ (t : FaultFreeTree) (placed : IsPlaced t) where
  parent_at :
      (c q p : ℕ)
      → q < t.configuration_length
      → c ≡ read t.pos_to_id_mapping q
      → (q ≡ 2 * p + 1) ⊎ (q ≡ 2 * p + 2)
      → get_parent (record t { id = c }) ≡ (read t.pos_to_id_mapping p, true)
  unfolding get_parent
  parent_at c q p b e w = ground (arith, placed.pos_of_id q b, ap (read t.id_to_pos_mapping) e)

  parent-pos :
      (c n : ℕ)
      → get_parent (record t { id = c }) ≡ (n, true)
      → (0 < read t.id_to_pos_mapping c)
        × (read t.pos_to_id_mapping (parent_pos (read t.id_to_pos_mapping c)) ≡ n)
  unfolding get_parent
  parent-pos c n e = ground arith

  halves : (q p : ℕ) → 0 < q → p ≡ parent_pos q → (q ≡ 2 * p + 1) ⊎ (q ≡ 2 * p + 2)
  halves q p b e = ground arith

  -- A replica is listed among the children of another exactly if that other is its parent, in a
  -- tree where each position below the length has its own replica, both replicas having their own
  -- positions.
  pub get_children_of_node-get_parent :
      (n c : ℕ)
      → read t.pos_to_id_mapping (read t.id_to_pos_mapping n) ≡ n
      → read t.pos_to_id_mapping (read t.id_to_pos_mapping c) ≡ c
      → In c (get_children_of_node t n) ↔ (get_parent (record t { id = c }) ≡ (n, true))
  unfolding get_children_of_node
  get_children_of_node-get_parent n c hn hc =
      (λ m. down (children-In t (read t.id_to_pos_mapping n) c m), λ e. up e)
    where
      p : ℕ
      p = read t.id_to_pos_mapping n

      down :
          (2 * p + 1 < t.configuration_length × (c ≡ read t.pos_to_id_mapping (2 * p + 1)))
            ⊎ (2 * p + 2 < t.configuration_length × (c ≡ read t.pos_to_id_mapping (2 * p + 2)))
          → get_parent (record t { id = c }) ≡ (n, true)
      down (inl (b, e)) = parent_at c (2 * p + 1) p b e (inl refl) ∙ ap (λ k. (k, true)) hn
      down (inr (b, e)) = parent_at c (2 * p + 2) p b e (inr refl) ∙ ap (λ k. (k, true)) hn

      below :
          0 < read t.id_to_pos_mapping c
          → parent_pos (read t.id_to_pos_mapping c) < t.configuration_length
      below b = ground (arith, placed.pos_below c)

      up : get_parent (record t { id = c }) ≡ (n, true) → In c (children_from t p 2 1)
      up e =
          let (b, w) = parent-pos c n e in
          In-children t p c (read t.id_to_pos_mapping c)
            (halves (read t.id_to_pos_mapping c) p b (
              ap (read t.id_to_pos_mapping) (sym w)
              ∙ placed.pos_of_id (parent_pos (read t.id_to_pos_mapping c)) (below b)))
            (placed.pos_below c) (sym hc)
