-- ===== src/Duplicates.antt =====
-- map.h and map.c: the tree of duplicates, `sha256 -> list of files`, over any rbtree(3).
pub mod Lists
use dedup.Prelude.{ℕ, ◌+◌, ◌%◌, refl, List, [], ◌∷◌, Ordering}
use dedup.AList.{AList, size_mod, new_alist_with_capacity, alist_size}
use dedup.Rb.{Ops, IsKeyed, RbTree, Ref, find_or_create}
use dedup.Rb.Order.{memcmp, memcmp-IsOrder}
use dedup.Metadata.{Sha256, FileMetadata, Pointer}

pub record Sha256ListNode : Type 0 where
  pub list : AList Pointer
  pub sha256 : Sha256

unfoldable pub compare_metadata_sha256_list_node : Sha256ListNode → Sha256ListNode → Ordering
compare_metadata_sha256_list_node a b = memcmp 32 a.sha256 b.sha256

unfoldable pub compare_metadata_sha256_list_key : Sha256ListNode → Sha256 → Ordering
compare_metadata_sha256_list_key a sha256 = memcmp 32 a.sha256 sha256

abbrev pub sha256_list_ops : Ops Sha256ListNode Sha256
sha256_list_ops = record {
  compare_nodes = compare_metadata_sha256_list_node;
  compare_key = compare_metadata_sha256_list_key;
}

unfoldable pub sha256_list_ops-IsKeyed : IsKeyed sha256_list_ops
unfolding compare_metadata_sha256_list_node compare_metadata_sha256_list_key
sha256_list_ops-IsKeyed = record {
  key = λ n. n.sha256;
  cmp = memcmp 32;
  order = memcmp-IsOrder 32;
  by_nodes = λ a b. refl;
  by_key = λ n k. refl;
}

-- The loop of `duplicate_tree_count`.
unfoldable pub count_loop : ℕ → List Sha256ListNode → ℕ
count_loop count [] = count
count_loop count (node ∷ nodes) = count_loop ((count + alist_size node.list) % size_mod) nodes

module _ (rb : RbTree) where
  abbrev pub DuplicateTree : Type 0
  DuplicateTree = rb.Tree Sha256ListNode

  unfoldable pub new_duplicate_tree : DuplicateTree
  new_duplicate_tree = rb.rb_tree_init

  -- The pointer to a list that it returns: what stands there, and what a write to it does.
  unfoldable pub duplicate_tree_find :
      DuplicateTree → FileMetadata → Ref (AList Pointer) DuplicateTree
  duplicate_tree_find tree fm =
      let list_node =
        find_or_create rb sha256_list_ops tree fm.sha256
          (record { list = new_alist_with_capacity 2; sha256 = fm.sha256 }) in
      record {
        value = list_node.value.list;
        write = λ list. list_node.write (record list_node.value { list = list });
      }

  unfoldable pub duplicate_tree_count : DuplicateTree → ℕ
  unfolding count_loop
  duplicate_tree_count vis_tree = count_loop 0 (rb.nodes vis_tree)
