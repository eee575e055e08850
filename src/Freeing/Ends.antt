-- ===== src/Freeing/Ends.antt =====
-- The loops that free a tree end, and free what is in it.
use dedup.Prelude.{◌≡◌, refl, ◌∙◌, ap, Option, some, List, [], ◌∷◌, ◌++◌, All, length, Ordering}
use dedup.Rb.{Ops, IsKeyed, find, erase, RbTree, IsRbTree}
use dedup.Rb.Laws.{own_key}
use dedup.Freeing.{Block, free_nodes}

-- The blocks of all nodes, in their order.
abbrev pub blocks_of : {N : Type 0} → (N → List Block) → List N → List Block
blocks_of blocks [] = []
blocks_of blocks (n ∷ ns) = blocks n ++ blocks_of blocks ns

module _ (rb : RbTree) (L : IsRbTree rb) {N K : Type 0} (ops : Ops N K) (keyed : IsKeyed ops) where
  -- The least node is found, and removing it leaves the others.
  nodes-remove_first :
      (t : rb.Tree N) (n : N) (ns : List N)
      → rb.nodes t ≡ n ∷ ns
      → rb.nodes (rb.rb_tree_remove_node ops t n) ≡ ns
  nodes-remove_first t n ns at_nodes =
      let here : find ops (n ∷ ns) (keyed.key n) ≡ some n = rw (own_key ops keyed n) refl in
      let same : ops.compare_nodes n n ≡ Ordering.eq =
        keyed.by_nodes n n ∙ keyed.order.cmp_self (keyed.key n) in
      L.nodes-remove ops keyed t n (
        L.find-nodes ops keyed t (keyed.key n)
        ∙ ap (λ ms. find ops ms (keyed.key n)) at_nodes
        ∙ here)
      ∙ ap (λ ms. erase ops ms n) at_nodes
      ∙ rw same refl

  -- As many rounds as there are nodes are enough.
  free_nodes-rounds :
      (free_node : N → Option (List Block)) (blocks : N → List Block) (ns : List N) (t : rb.Tree N)
      → rb.nodes t ≡ ns
      → All (λ n. free_node n ≡ some (blocks n)) ns
      → free_nodes rb ops free_node (length ns) t ≡ some (blocks_of blocks ns)
  unfolding free_nodes
  free_nodes-rounds free_node blocks [] t at_nodes each = rw (L.min-nodes t, at_nodes) refl
  free_nodes-rounds free_node blocks (n ∷ ns) t at_nodes (here, each) = rw (
    free_nodes,
    L.min-nodes t,
    at_nodes,
    here,
    free_nodes-rounds free_node blocks ns (rb.rb_tree_remove_node ops t n)
        (nodes-remove_first t n ns at_nodes) each,
  )

  pub free_nodes_lem :
      (free_node : N → Option (List Block)) (blocks : N → List Block) (t : rb.Tree N)
      → All (λ n. free_node n ≡ some (blocks n)) (rb.nodes t)
      → free_nodes rb ops free_node (rb.rb_tree_count t) t ≡ some (blocks_of blocks (rb.nodes t))
  free_nodes_lem free_node blocks t each =
      rw (L.count-nodes t) (free_nodes-rounds free_node blocks (rb.nodes t) t refl each)
