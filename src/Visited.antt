-- ===== src/Visited.antt =====
-- map.c: the visited tree, `device -> size -> first char -> last char -> sha256`, over any rbtree(3).
pub mod Keys
pub mod Classes
pub mod Place
pub mod Hashing
pub mod View
pub mod Refine
pub mod Correct
pub mod Keeps
use dedup.Prelude.{
  ℕ, ◌+◌, ◌%◌, ◌^◌, Bool, true, false, Option, none, some, List, [], ◌∷◌, Ordering, ◌==◌,
  if◌then◌else◌,
}
use dedup.Prelude.Int.{ℤ}
use dedup.AList.{size_mod}
use dedup.Rb.{Ops, RbTree, Ref, find_or_create}
use dedup.Rb.Order.{is_eq, compare_int, compare_signed, memcmp}
use dedup.Metadata.{FileMetadata, Sha256, Digester, populate_sha256_if_empty, could_not_hash}
use Keys.{
  FileMetadataNode, CharNode, SizeNode, DeviceNode, device_ops, size_ops, char_ops, sha256_ops,
}

-- What a call of `visited_tree_insert` returns, and what it leaves in the tree and in its argument.
pub record Inserted (T : Type 0) : Type 0 where
  pub result : Option FileMetadata
  pub tree : T
  pub fm : FileMetadata

module _ (rb : RbTree) where
  abbrev pub Sha256Tree : Type 0
  Sha256Tree = rb.Tree FileMetadataNode

  abbrev pub LastNode : Type 0
  LastNode = CharNode Sha256Tree

  abbrev pub LastTree : Type 0
  LastTree = rb.Tree LastNode

  abbrev pub FirstTree : Type 0
  FirstTree = rb.Tree (CharNode LastTree)

  abbrev pub SizeTree : Type 0
  SizeTree = rb.Tree (SizeNode FirstTree)

  abbrev pub VisitedTree : Type 0
  VisitedTree = rb.Tree (DeviceNode SizeTree)

  unfoldable pub new_visited_tree : VisitedTree
  new_visited_tree = rb.rb_tree_init

  -- A pointer to the tree of last characters; a write through it changes the nodes above in place.
  unfoldable pub visited_tree_find_or_create_last_tree :
      VisitedTree → FileMetadata → Ref LastTree VisitedTree
  unfolding find_or_create
  visited_tree_find_or_create_last_tree tree fm =
      let device_node =
        find_or_create rb device_ops tree fm.device
          (record { children = rb.rb_tree_init; d = fm.device }) in
      let size_node =
        find_or_create rb size_ops device_node.value.children fm.size
          (record { children = rb.rb_tree_init; s = fm.size }) in
      let first_node =
        find_or_create rb char_ops size_node.value.children fm.first
          (record { children = rb.rb_tree_init; fm = none; c = fm.first }) in
      record {
        value = first_node.value.children;
        write = λ last_tree. device_node.write (record device_node.value {
          children = size_node.write (record size_node.value {
            children = first_node.write (record first_node.value { children = last_tree });
          });
        });
      }

  unfoldable pub visited_tree_find_or_create_last_node :
      VisitedTree → FileMetadata → Ref LastNode VisitedTree
  unfolding visited_tree_find_or_create_last_tree find_or_create
  visited_tree_find_or_create_last_node tree fm =
      let last_tree = visited_tree_find_or_create_last_tree tree fm in
      let last_node =
        find_or_create rb char_ops last_tree.value fm.last
          (record { children = rb.rb_tree_init; fm = none; c = fm.last }) in
      record { value = last_node.value; write = λ node. last_tree.write (last_node.write node) }

  -- The branch in which the node holds a shortcut, `stashed`.
  unfoldable pub insert_at_shortcut :
      Digester → Ref LastNode VisitedTree → FileMetadata → FileMetadata → Inserted VisitedTree
  insert_at_shortcut env last_node stashed fm =
      let node = last_node.value in
      let hashed = populate_sha256_if_empty env stashed in
      let hashed_fm = populate_sha256_if_empty env fm in
      let s = hashed.1 in
      let f = hashed_fm.1 in
      if could_not_hash hashed
      then record { result = none; tree = last_node.write (record node { fm = some fm }); fm = fm }
      else if could_not_hash hashed_fm
      then record { result = none; tree = last_node.write (record node { fm = some s }); fm = f }
      else if is_eq (memcmp 32 s.sha256 f.sha256)
      then record { result = some s; tree = last_node.write (record node { fm = some s }); fm = f }
      else record {
        result = none;
        tree = last_node.write (record node {
          children =
              rb.rb_tree_insert_node sha256_ops
                (rb.rb_tree_insert_node sha256_ops node.children (record { fm = s }))
                (record { fm = f });
          fm = none;
        });
        fm = f;
      }

  -- The part behind the shortcut, where the node holds a tree of digests.
  unfoldable pub insert_at_digest :
      Digester → Ref LastNode VisitedTree → FileMetadata → Inserted VisitedTree
  insert_at_digest env last_node fm =
      let node = last_node.value in
      let hashed_fm = populate_sha256_if_empty env fm in
      let f = hashed_fm.1 in
      if could_not_hash hashed_fm
      then record { result = none; tree = last_node.write node; fm = f }
      else elim (rb.rb_tree_find_node sha256_ops node.children f.sha256) [
        | some existing ↦ record { result = some existing.fm; tree = last_node.write node; fm = f }
        | none ↦ record {
          result = none;
          tree = last_node.write (record node {
            children = rb.rb_tree_insert_node sha256_ops node.children (record { fm = f });
          });
          fm = f;
        }
      ]

  unfoldable pub visited_tree_insert : Digester → VisitedTree → FileMetadata → Inserted VisitedTree
  unfolding insert_at_shortcut insert_at_digest
  visited_tree_insert env tree fm =
      let last_node = visited_tree_find_or_create_last_node tree fm in
      if rb.rb_tree_count last_node.value.children == 0
      then elim last_node.value.fm [
        | none ↦ record {
          result = none;
          tree = last_node.write (record last_node.value { fm = some fm });
          fm = fm;
        }
        | some stashed ↦ insert_at_shortcut env last_node stashed fm
      ]
      else insert_at_digest env last_node fm

  -- The loops of `visited_tree_count`, the innermost first, with its variable `count`.
  unfoldable pub count_last : ℕ → List LastNode → ℕ
  count_last count [] = count
  count_last count (ln ∷ lns) = count_last ((count + rb.rb_tree_count ln.children) % size_mod) lns

  unfoldable pub count_first : ℕ → List (CharNode LastTree) → ℕ
  unfolding count_last
  count_first count [] = count
  count_first count (fn ∷ fns) = count_first (count_last count (rb.nodes fn.children)) fns

  unfoldable pub count_size : ℕ → List (SizeNode FirstTree) → ℕ
  unfolding count_first
  count_size count [] = count
  count_size count (sn ∷ sns) = count_size (count_first count (rb.nodes sn.children)) sns

  unfoldable pub count_device : ℕ → List (DeviceNode SizeTree) → ℕ
  unfolding count_size
  count_device count [] = count
  count_device count (dn ∷ dns) = count_device (count_size count (rb.nodes dn.children)) dns

  unfoldable pub visited_tree_count : VisitedTree → ℕ
  unfolding count_device
  visited_tree_count dup_tree = count_device 0 (rb.nodes dup_tree)
