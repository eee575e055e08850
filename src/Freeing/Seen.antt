-- ===== src/Freeing/Seen.antt =====
-- What `free_visited_tree` frees.
use dedup.Prelude.{◌≡◌, refl, none, some, List, [], ◌∷◌, ◌++◌, All, Option-cases, inl, inr}
use dedup.Rb.{RbTree, IsRbTree}
use dedup.Visited.Keys.{
  FileMetadataNode, CharNode, SizeNode, DeviceNode, device_ops, size_ops, char_ops, sha256_ops,
  device_ops-IsKeyed, size_ops-IsKeyed, char_ops-IsKeyed, sha256_ops-IsKeyed,
}
use dedup.Visited.{LastNode, LastTree, FirstTree, SizeTree, VisitedTree}
use dedup.Freeing.{
  Block, string, metadata, metadata_node, char_node, size_node, device_node, tree, free_metadata,
  free_metadata_node, free_last_node, free_first_node, free_size_node, free_device_node,
  free_visited_tree,
}
use dedup.Freeing.Ends.{blocks_of, free_nodes_lem}

module _ (rb : RbTree) where
  -- The blocks that a node owns, those below it first.
  abbrev pub file_blocks : FileMetadataNode → List Block
  file_blocks n = string n.fm.path ∷ metadata_node n.fm.sha256 ∷ []

  abbrev pub last_blocks : LastNode rb → List Block
  last_blocks ln =
      elim ln.fm [ none ↦ [] | some fm ↦ string fm.path ∷ metadata fm ∷ [] ]
      ++ (blocks_of file_blocks (rb.nodes ln.children) ++ char_node ln.c ∷ [])

  abbrev pub first_blocks : CharNode (LastTree rb) → List Block
  first_blocks fn = blocks_of last_blocks (rb.nodes fn.children) ++ char_node fn.c ∷ []

  abbrev pub size_blocks : SizeNode (FirstTree rb) → List Block
  size_blocks sn = blocks_of first_blocks (rb.nodes sn.children) ++ size_node sn.s ∷ []

  abbrev pub device_blocks : DeviceNode (SizeTree rb) → List Block
  device_blocks dn = blocks_of size_blocks (rb.nodes dn.children) ++ device_node dn.d ∷ []

  abbrev pub visited_blocks : VisitedTree rb → List Block
  visited_blocks t = blocks_of device_blocks (rb.nodes t) ++ tree ∷ []

every : {N : Type 0} {P : N → Type 0} → ((n : N) → P n) → (ns : List N) → All P ns
every p [] = tt
every p (n ∷ ns) = (p n, every p ns)

module _ (rb : RbTree) (L : IsRbTree rb) where
  free_last_node_lem : (ln : LastNode rb) → free_last_node rb ln ≡ some (last_blocks rb ln)
  unfolding free_last_node free_metadata free_metadata_node
  free_last_node_lem ln =
      rw
        (free_nodes_lem rb L sha256_ops sha256_ops-IsKeyed _ (file_blocks rb) ln.children
          (every (λ n. refl) (rb.nodes ln.children)))
        (elim (Option-cases ln.fm) [
          | inl absent ↦ rw absent refl
          | inr (fm, there) ↦ rw there refl
        ])

  free_first_node_lem :
      (fn : CharNode (LastTree rb)) → free_first_node rb fn ≡ some (first_blocks rb fn)
  unfolding free_first_node
  free_first_node_lem fn =
      rw
        (free_nodes_lem rb L char_ops char_ops-IsKeyed _ (last_blocks rb) fn.children
          (every free_last_node_lem (rb.nodes fn.children)))
        refl

  free_size_node_lem :
      (sn : SizeNode (FirstTree rb)) → free_size_node rb sn ≡ some (size_blocks rb sn)
  unfolding free_size_node
  free_size_node_lem sn =
      rw
        (free_nodes_lem rb L char_ops char_ops-IsKeyed _ (first_blocks rb) sn.children
          (every free_first_node_lem (rb.nodes sn.children)))
        refl

  free_device_node_lem :
      (dn : DeviceNode (SizeTree rb)) → free_device_node rb dn ≡ some (device_blocks rb dn)
  unfolding free_device_node
  free_device_node_lem dn =
      rw
        (free_nodes_lem rb L size_ops size_ops-IsKeyed _ (size_blocks rb) dn.children
          (every free_size_node_lem (rb.nodes dn.children)))
        refl

  -- Freeing the visited tree ends, and frees each block of it once: below each node the nodes in
  -- their order, and then the node itself.
  pub free_visited_tree_lem :
      (t : VisitedTree rb) → free_visited_tree rb t ≡ some (visited_blocks rb t)
  unfolding free_visited_tree
  free_visited_tree_lem t =
      rw
        (free_nodes_lem rb L device_ops device_ops-IsKeyed _ (device_blocks rb) t
          (every free_device_node_lem (rb.nodes t)))
        refl
