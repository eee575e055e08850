-- ===== src/Rb/Sorted.antt =====
-- The least tree that keeps to rbtree(3): the list of its nodes.
use dedup.Prelude.{refl, [], List, length}
use dedup.Rb.{find, insert, assign, erase, first, RbTree, IsRbTree}

abbrev pub sorted_list : RbTree
sorted_list = record {
  Tree = λ N. List N;
  rb_tree_init = [];
  rb_tree_find_node = λ ops t k. find ops t k;
  rb_tree_insert_node = λ ops t n. insert ops t n;
  write_node = λ ops t k n. assign ops t k n;
  rb_tree_count = λ t. length t;
  rb_tree_min = λ t. first t;
  rb_tree_remove_node = λ ops t n. erase ops t n;
  nodes = λ t. t;
}

pub sorted_list-IsRbTree : IsRbTree sorted_list
sorted_list-IsRbTree = record {
  nodes-init = refl;
  find-nodes = λ ops keyed t k. refl;
  nodes-insert = λ ops keyed t n absent. refl;
  nodes-write = λ ops keyed t k n same. refl;
  min-nodes = λ t. refl;
  nodes-remove = λ ops keyed t n inside. refl;
  count-nodes = λ t. refl;
}
