-- ===== src/Visited/Classes.antt =====
-- The classes of files that agree on device, size, first and last character, and the node that the
-- visited tree has for a class.
use dedup.Prelude.{ℕ, ◌≡◌, Bool, ◌&&◌, Option, none}
use dedup.Prelude.Int.{ℤ}
use dedup.Rb.{RbTree, IsRbTree}
use dedup.Rb.Order.{is_eq, compare_int, compare_signed}
use dedup.Rb.Laws.{descend, find_node-init}
use dedup.Metadata.{FileMetadata}
use dedup.Visited.{LastNode, LastTree, FirstTree, SizeTree, VisitedTree, new_visited_tree}
use dedup.Visited.Keys.{
  CharNode, SizeNode, DeviceNode, device_ops, size_ops, char_ops, device_ops-IsKeyed,
  size_ops-IsKeyed, char_ops-IsKeyed,
}

pub record Class : Type 0 where
  pub device : ℤ
  pub size : ℕ
  pub first : ℤ
  pub last : ℤ

abbrev pub class_of : FileMetadata → Class
class_of fm = record { device = fm.device; size = fm.size; first = fm.first; last = fm.last }

abbrev pub same_class : Class → Class → Bool
same_class a b =
    is_eq (compare_signed a.device b.device)
    && (is_eq (compare_int a.size b.size)
        && (is_eq (compare_signed a.first b.first) && is_eq (compare_signed a.last b.last)))

module _ (rb : RbTree) where
  unfoldable pub look_last : LastTree rb → Class → Option (LastNode rb)
  look_last t k = rb.rb_tree_find_node char_ops t k.last

  unfoldable pub look_first : FirstTree rb → Class → Option (LastNode rb)
  unfolding look_last
  look_first t k =
      descend (λ (n : CharNode (LastTree rb)). n.children) (λ c. look_last c k)
        (rb.rb_tree_find_node char_ops t k.first)

  unfoldable pub look_size : SizeTree rb → Class → Option (LastNode rb)
  unfolding look_first
  look_size t k =
      descend (λ (n : SizeNode (FirstTree rb)). n.children) (λ c. look_first c k)
        (rb.rb_tree_find_node size_ops t k.size)

  -- The node of a class, if there is one.
  unfoldable pub look : VisitedTree rb → Class → Option (LastNode rb)
  unfolding look_size
  look t k =
      descend (λ (n : DeviceNode (SizeTree rb)). n.children) (λ c. look_size c k)
        (rb.rb_tree_find_node device_ops t k.device)

module _ (rb : RbTree) (L : IsRbTree rb) where
  pub look_last-init : (k : Class) → look_last rb rb.rb_tree_init k ≡ none
  unfolding look_last
  look_last-init k = find_node-init rb L char_ops char_ops-IsKeyed rb.rb_tree_init k.last

  pub look_first-init : (k : Class) → look_first rb rb.rb_tree_init k ≡ none
  unfolding look_first
  look_first-init k = rw (find_node-init rb L char_ops char_ops-IsKeyed rb.rb_tree_init k.first)

  pub look_size-init : (k : Class) → look_size rb rb.rb_tree_init k ≡ none
  unfolding look_size
  look_size-init k = rw (find_node-init rb L size_ops size_ops-IsKeyed rb.rb_tree_init k.size)

  pub look-new_visited_tree : (k : Class) → look rb (new_visited_tree rb) k ≡ none
  unfolding look new_visited_tree
  look-new_visited_tree k =
      rw (find_node-init rb L device_ops device_ops-IsKeyed rb.rb_tree_init k.device)
