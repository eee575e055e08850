-- ===== src/CloneIds.antt =====
-- map.c: how often each clone id occurs among the files of a set, over any rbtree(3).
pub mod Counts
pub mod Most
use dedup.Prelude.{
  ℕ, ◌+◌, ◌%◌, ◌^◌, refl, Option, none, some, List, [], ◌∷◌, Ordering, ltb, if◌then◌else◌,
}
use dedup.AList.{size_mod}
use dedup.Rb.{Ops, IsKeyed, RbTree, find_or_create}
use dedup.Rb.Order.{compare_int, compare_int-IsOrder}
use dedup.Metadata.{Pointer}

pub record IdCountNode : Type 0 where
  pub fm : Pointer
  pub id : ℕ
  pub count : ℕ

unfoldable pub compare_metadata_clone_id_node : IdCountNode → IdCountNode → Ordering
compare_metadata_clone_id_node a b = compare_int a.id b.id

unfoldable pub compare_metadata_clone_id_key : IdCountNode → ℕ → Ordering
compare_metadata_clone_id_key a id = compare_int a.id id

abbrev pub id_count_ops : Ops IdCountNode ℕ
id_count_ops = record {
  compare_nodes = compare_metadata_clone_id_node;
  compare_key = compare_metadata_clone_id_key;
}

unfoldable pub id_count_ops-IsKeyed : IsKeyed id_count_ops
unfolding compare_metadata_clone_id_node compare_metadata_clone_id_key
id_count_ops-IsKeyed = record {
  key = λ n. n.id;
  cmp = compare_int;
  order = compare_int-IsOrder;
  by_nodes = λ a b. refl;
  by_key = λ n k. refl;
}

-- The loop of `clone_id_tree_max`, with its variables `max` and `fm`.
unfoldable pub max_loop : ℕ → Option Pointer → List IdCountNode → Option Pointer
max_loop max fm [] = fm
max_loop max fm (node ∷ nodes) =
    let more = ltb max node.count in
    max_loop (if more then node.count else max) (if more then some node.fm else fm) nodes

module _ (rb : RbTree) where
  abbrev pub CountTree : Type 0
  CountTree = rb.Tree IdCountNode

  unfoldable pub new_clone_id_counts : CountTree
  new_clone_id_counts = rb.rb_tree_init

  -- The count that it returns, and the tree.
  unfoldable pub clone_id_tree_increment : CountTree → Pointer → ℕ × CountTree
  unfolding find_or_create
  clone_id_tree_increment tree fm =
      let node =
        find_or_create rb id_count_ops tree fm.target.clone_id
          (record { fm = fm; id = fm.target.clone_id; count = 0 }) in
      let count = (node.value.count + 1) % size_mod in
      (count, node.write (record node.value { count = count }))

  unfoldable pub clone_id_tree_max : CountTree → Option Pointer
  unfolding max_loop
  clone_id_tree_max tree = max_loop 0 none (rb.nodes tree)

  -- The loop of `deduplicate` that counts the files of a set.
  unfoldable pub count_clones : CountTree → List Pointer → CountTree
  unfolding clone_id_tree_increment
  count_clones tree [] = tree
  count_clones tree (fm ∷ fms) = count_clones (clone_id_tree_increment tree fm).1 fms
