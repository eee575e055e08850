-- ===== src/Freeing.antt =====
-- map.c, alist.c and queue.c: what the functions that free memory give back, in their order.
pub mod Ends
pub mod Seen
pub mod Listed
pub mod Scanned
use dedup.Prelude.{ℕ, zero, suc, ◌+◌, Option, none, some, List, [], ◌∷◌, ◌++◌}
use dedup.Prelude.Int.{ℤ}
use dedup.AList.{AList, alist_size, alist_get, alist_set}
use dedup.Rb.{Ops, RbTree}
use dedup.Metadata.{CString, Sha256, FileMetadata, Pointer}
use dedup.Entry.{FileEntry}
use dedup.Visited.Keys.{
  FileMetadataNode, CharNode, SizeNode, DeviceNode, device_ops, size_ops, char_ops, sha256_ops,
}
use dedup.Visited.{LastNode, LastTree, FirstTree, SizeTree, VisitedTree}
use dedup.Duplicates.{Sha256ListNode, DuplicateTree, sha256_list_ops}
use dedup.CloneIds.{IdCountNode, CountTree, id_count_ops}

-- A block that malloc gave, by what it was for; the node of a tree by its key.
pub data Block : Type 0 where
  string : CString → Block
  metadata : FileMetadata → Block
  metadata_node : Sha256 → Block
  char_node : ℤ → Block
  size_node : ℕ → Block
  device_node : ℤ → Block
  list_node : Sha256 → Block
  id_count_node : ℕ → Block
  elements : Block
  list : Block
  tree : Block
  queue : Block
  file_entry : FileEntry → Block

-- The calls of free(3) in a row, or `none` where a NULL is dereferenced or a loop has not ended.
infixr 5 ◌+>◌
abbrev pub ◌+>◌ : Option (List Block) → Option (List Block) → Option (List Block)
none +> after = none
(some before) +> none = none
(some before) +> (some after) = some (before ++ after)

unfoldable pub free_metadata : FileMetadata → List Block
free_metadata fm = string fm.path ∷ metadata fm ∷ []

unfoldable pub free_metadata_node : FileMetadataNode → List Block
free_metadata_node fm_node = string fm_node.fm.path ∷ metadata_node fm_node.fm.sha256 ∷ []

unfoldable pub free_alist : List Block
free_alist = elements ∷ list ∷ []

unfoldable pub free_file_entry_queue : List Block
free_file_entry_queue = queue ∷ []

unfoldable pub file_entry_free : FileEntry → List Block
file_entry_free fe = string fe.path ∷ file_entry fe ∷ []

-- The loop of `free_sha256_list_node`, which reads each item, which must
-- not be NULL, and overwrites it by NULL.
unfoldable pub free_items : ℕ → ℕ → AList Pointer → Option (List Block)
unfolding free_metadata
free_items zero i items = some []
free_items (suc rounds) i items = elim (alist_get items i) [
  | none ↦ none
  | some fm ↦ some (free_metadata fm.target) +> free_items rounds (i + 1) (alist_set items i none)
]

unfoldable pub free_sha256_list_node : Sha256ListNode → Option (List Block)
unfolding free_items free_alist
free_sha256_list_node n =
    free_items (alist_size n.list) 0 n.list +> some (free_alist ++ list_node n.sha256 ∷ [])

module _ (rb : RbTree) where
  -- `while ((node = RB_TREE_MIN(t))) { rb_tree_remove_node(t, node); free_node(node); }`
  unfoldable pub free_nodes :
      {N K : Type 0} → Ops N K → (N → Option (List Block)) → ℕ → rb.Tree N → Option (List Block)
  free_nodes ops free_node zero t = elim (rb.rb_tree_min t) [ none ↦ some [] | some node ↦ none ]
  free_nodes ops free_node (suc rounds) t = elim (rb.rb_tree_min t) [
    | none ↦ some []
    | some node ↦
        free_node node +> free_nodes ops free_node rounds (rb.rb_tree_remove_node ops t node)
  ]

  -- Each loop has as many rounds as the tree has nodes.
  unfoldable pub free_last_node : LastNode rb → Option (List Block)
  unfolding free_metadata free_metadata_node free_nodes
  free_last_node last_node =
      some (elim last_node.fm [ none ↦ [] | some fm ↦ free_metadata fm ])
      +> free_nodes sha256_ops (λ n. some (free_metadata_node n))
          (rb.rb_tree_count last_node.children) last_node.children
      +> some (char_node last_node.c ∷ [])

  unfoldable pub free_first_node : CharNode (LastTree rb) → Option (List Block)
  unfolding free_last_node free_nodes
  free_first_node first_node =
      free_nodes char_ops free_last_node (rb.rb_tree_count first_node.children) first_node.children
      +> some (char_node first_node.c ∷ [])

  unfoldable pub free_size_node : SizeNode (FirstTree rb) → Option (List Block)
  unfolding free_first_node free_nodes
  free_size_node node =
      free_nodes char_ops free_first_node (rb.rb_tree_count node.children) node.children
      +> some (size_node node.s ∷ [])

  unfoldable pub free_device_node : DeviceNode (SizeTree rb) → Option (List Block)
  unfolding free_size_node free_nodes
  free_device_node node =
      free_nodes size_ops free_size_node (rb.rb_tree_count node.children) node.children
      +> some (device_node node.d ∷ [])

  unfoldable pub free_visited_tree : VisitedTree rb → Option (List Block)
  unfolding free_device_node free_nodes
  free_visited_tree t =
      free_nodes device_ops free_device_node (rb.rb_tree_count t) t +> some (tree ∷ [])

  unfoldable pub free_duplicate_tree : DuplicateTree rb → Option (List Block)
  unfolding free_sha256_list_node free_nodes
  free_duplicate_tree t =
      free_nodes sha256_list_ops free_sha256_list_node (rb.rb_tree_count t) t +> some (tree ∷ [])

  unfoldable pub free_clone_id_counts : CountTree rb → Option (List Block)
  unfolding free_nodes
  free_clone_id_counts t =
      free_nodes id_count_ops (λ n. some (id_count_node n.id ∷ [])) (rb.rb_tree_count t) t
      +> some (tree ∷ [])
