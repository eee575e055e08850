-- ===== src/Visited/Place.antt =====
-- Where the visited tree keeps a file: a node for each class of files that agree on device, size,
-- first and last character. A write through the pointer of one class changes that class alone.
use dedup.Prelude.{
  ◌≡◌, ◌∙◌, ap, Bool, ◌&&◌, Option, none, some, Ordering, arith, subst, if◌then◌else◌,
}
use dedup.Rb.{RbTree, IsRbTree, find_or_create}
use dedup.Rb.Order.{
  is_eq, compare_int, compare_int-eq, compare_int-IsOrder, compare_signed, compare_signed-eq,
  compare_signed-IsOrder,
}
use dedup.Rb.Laws.{
  descend-find_or_create, find_node-find_or_create, find_or_create_key, value-find_or_create,
}
use dedup.Metadata.{FileMetadata}
use dedup.Visited.{
  LastNode, LastTree, FirstTree, SizeTree, VisitedTree, visited_tree_find_or_create_last_tree,
  visited_tree_find_or_create_last_node,
}
use dedup.Visited.Keys.{
  CharNode, SizeNode, DeviceNode, device_ops, size_ops, char_ops, device_ops-IsKeyed,
  size_ops-IsKeyed, char_ops-IsKeyed, compare_device_key, compare_size_key, compare_char_key,
}
use dedup.Visited.Classes.{
  Class, class_of, same_class, look_last, look_first, look_size, look, look_last-init,
  look_first-init, look_size-init,
}

module _ (rb : RbTree) (L : IsRbTree rb) where
  look_first-write_children :
      (t : FirstTree rb) (fm : FileMetadata) (below : LastTree rb) (k : Class) (here : Bool)
      (x : LastNode rb)
      → let at_node =
          find_or_create rb char_ops t fm.first
            (record { children = rb.rb_tree_init; fm = none; c = fm.first }) in
        look_last rb below k ≡ (if here then some x else look_last rb at_node.value.children k)
        → look_first rb (at_node.write (record at_node.value { children = below })) k
          ≡ (if is_eq (compare_signed fm.first k.first) && here then some x else look_first rb t k)
  unfolding look_first compare_char_key
  look_first-write_children t fm below k here x h =
      let fresh : CharNode (LastTree rb) = record {
        children = rb.rb_tree_init;
        fm = none;
        c = fm.first;
      } in
      let new : compare_signed fm.first fm.first ≡ Ordering.eq =
        compare_signed-IsOrder.cmp_self fm.first in
      let found = find_or_create_key rb L char_ops char_ops-IsKeyed t fresh fm.first new in
      let node = find_or_create rb char_ops t fm.first fresh in
      let named : node.value.c ≡ fm.first = compare_signed-eq node.value.c fm.first found in
      subst
        (λ c.
          look_first rb (node.write (record node.value { children = below })) k
          ≡ (if is_eq (compare_signed c k.first) && here then some x else look_first rb t k))
        named
        (descend-find_or_create rb L char_ops char_ops-IsKeyed t fresh (λ n. n.children)
          (λ c. look_last rb c k) fm.first k.first (record node.value { children = below }) here x
          new found (look_last-init rb L k) h)

  look_size-write_children :
      (t : SizeTree rb) (fm : FileMetadata) (below : FirstTree rb) (k : Class) (here : Bool)
      (x : LastNode rb)
      → let at_node =
          find_or_create rb size_ops t fm.size
            (record { children = rb.rb_tree_init; s = fm.size }) in
        look_first rb below k ≡ (if here then some x else look_first rb at_node.value.children k)
        → look_size rb (at_node.write (record at_node.value { children = below })) k
          ≡ (if is_eq (compare_int fm.size k.size) && here then some x else look_size rb t k)
  unfolding look_size compare_size_key
  look_size-write_children t fm below k here x h =
      let fresh : SizeNode (FirstTree rb) = record { children = rb.rb_tree_init; s = fm.size } in
      let new : compare_int fm.size fm.size ≡ Ordering.eq = compare_int-IsOrder.cmp_self fm.size in
      let found = find_or_create_key rb L size_ops size_ops-IsKeyed t fresh fm.size new in
      let node = find_or_create rb size_ops t fm.size fresh in
      let named : node.value.s ≡ fm.size = compare_int-eq node.value.s fm.size found in
      subst
        (λ c.
          look_size rb (node.write (record node.value { children = below })) k
          ≡ (if is_eq (compare_int c k.size) && here then some x else look_size rb t k))
        named
        (descend-find_or_create rb L size_ops size_ops-IsKeyed t fresh (λ n. n.children)
          (λ c. look_first rb c k) fm.size k.size (record node.value { children = below }) here x
          new found (look_first-init rb L k) h)

  look-write_children :
      (t : VisitedTree rb) (fm : FileMetadata) (below : SizeTree rb) (k : Class) (here : Bool)
      (x : LastNode rb)
      → let at_node =
          find_or_create rb device_ops t fm.device
            (record { children = rb.rb_tree_init; d = fm.device }) in
        look_size rb below k ≡ (if here then some x else look_size rb at_node.value.children k)
        → look rb (at_node.write (record at_node.value { children = below })) k
          ≡ (if is_eq (compare_signed fm.device k.device) && here then some x else look rb t k)
  unfolding look compare_device_key
  look-write_children t fm below k here x h =
      let fresh : DeviceNode (SizeTree rb) = record { children = rb.rb_tree_init; d = fm.device } in
      let new : compare_signed fm.device fm.device ≡ Ordering.eq =
        compare_signed-IsOrder.cmp_self fm.device in
      let found = find_or_create_key rb L device_ops device_ops-IsKeyed t fresh fm.device new in
      let node = find_or_create rb device_ops t fm.device fresh in
      let named : node.value.d ≡ fm.device = compare_signed-eq node.value.d fm.device found in
      subst
        (λ c.
          look rb (node.write (record node.value { children = below })) k
          ≡ (if is_eq (compare_signed c k.device) && here then some x else look rb t k))
        named
        (descend-find_or_create rb L device_ops device_ops-IsKeyed t fresh (λ n. n.children)
          (λ c. look_size rb c k) fm.device k.device (record node.value { children = below }) here x
          new found (look_size-init rb L k) h)

  look_last-write :
      (t : LastTree rb) (fm : FileMetadata) (node : LastNode rb) (k : Class)
      → node.c ≡ fm.last
      → let at_node =
          find_or_create rb char_ops t fm.last
            (record { children = rb.rb_tree_init; fm = none; c = fm.last }) in
        look_last rb (at_node.write node) k
        ≡ (if is_eq (compare_signed fm.last k.last) then some node else look_last rb t k)
  unfolding look_last compare_char_key
  look_last-write t fm node k same =
      let fresh : LastNode rb = record { children = rb.rb_tree_init; fm = none; c = fm.last } in
      let new : compare_signed fm.last fm.last ≡ Ordering.eq =
        compare_signed-IsOrder.cmp_self fm.last in
      let at_node = find_or_create rb char_ops t fm.last fresh in
      subst
        (λ c. rb.rb_tree_find_node char_ops (at_node.write node) k.last ≡ (
          if is_eq (compare_signed c k.last)
          then some node
          else rb.rb_tree_find_node char_ops t k.last))
        same
        (find_node-find_or_create rb L char_ops char_ops-IsKeyed t fresh node fm.last k.last new
          (ap (λ c. compare_signed c fm.last) same ∙ new))

  -- A write through the pointer of a file's class shows under that class, and nowhere else.
  pub look-write :
      (tree : VisitedTree rb) (fm : FileMetadata) (node : LastNode rb) (k : Class)
      → node.c ≡ fm.last
      → look rb ((visited_tree_find_or_create_last_node rb tree fm).write node) k
        ≡ (if same_class (class_of fm) k then some node else look rb tree k)
  unfolding visited_tree_find_or_create_last_node
  look-write tree fm node k same =
      (look-write_children tree fm _ k _ node (
        look_size-write_children _ fm _ k _ node
          (look_first-write_children _ fm _ k _ node (look_last-write _ fm node k same))))

  look_first-value :
      (t : FirstTree rb) (fm : FileMetadata)
      → look_last rb
          (find_or_create rb char_ops t fm.first
            (record { children = rb.rb_tree_init; fm = none; c = fm.first })).value.children
          (class_of fm)
        ≡ look_first rb t (class_of fm)
  unfolding look_first
  look_first-value t fm =
      let fresh : CharNode (LastTree rb) = record {
        children = rb.rb_tree_init;
        fm = none;
        c = fm.first;
      } in
      rw (value-find_or_create rb L char_ops char_ops-IsKeyed t fresh fm.first)
        (ground (arith, look_last-init rb L (class_of fm)))

  look_size-value :
      (t : SizeTree rb) (fm : FileMetadata)
      → look_first rb
          (find_or_create rb size_ops t fm.size
            (record { children = rb.rb_tree_init; s = fm.size })).value.children
          (class_of fm)
        ≡ look_size rb t (class_of fm)
  unfolding look_size
  look_size-value t fm =
      let fresh : SizeNode (FirstTree rb) = record { children = rb.rb_tree_init; s = fm.size } in
      rw (value-find_or_create rb L size_ops size_ops-IsKeyed t fresh fm.size)
        (ground (arith, look_first-init rb L (class_of fm)))

  look-value :
      (t : VisitedTree rb) (fm : FileMetadata)
      → look_size rb
          (find_or_create rb device_ops t fm.device
            (record { children = rb.rb_tree_init; d = fm.device })).value.children
          (class_of fm)
        ≡ look rb t (class_of fm)
  unfolding look
  look-value t fm =
      let fresh : DeviceNode (SizeTree rb) = record { children = rb.rb_tree_init; d = fm.device } in
      rw (value-find_or_create rb L device_ops device_ops-IsKeyed t fresh fm.device)
        (ground (arith, look_size-init rb L (class_of fm)))

  -- The pointer is to the node of the class. Of a class that is not there yet it is to a new node,
  -- which holds neither a file nor a digest.
  pub value-visited_tree_find_or_create_last_node :
      (tree : VisitedTree rb) (fm : FileMetadata)
      → (visited_tree_find_or_create_last_node rb tree fm).value
        ≡ elim (look rb tree (class_of fm)) [
          | none ↦ record { children = rb.rb_tree_init; fm = none; c = fm.last }
          | some node ↦ node
        ]
  unfolding visited_tree_find_or_create_last_node look_last
  value-visited_tree_find_or_create_last_node tree fm =
      let last_tree = visited_tree_find_or_create_last_tree rb tree fm in
      let seen : look_last rb last_tree.value (class_of fm) ≡ look rb tree (class_of fm) =
        look_first-value _ fm ∙ look_size-value _ fm ∙ look-value tree fm in
      value-find_or_create rb L char_ops char_ops-IsKeyed last_tree.value
        (record { children = rb.rb_tree_init; fm = none; c = fm.last }) fm.last
      ∙ ap
          (λ (o : Option (LastNode rb)). elim o [
            | none ↦ record { children = rb.rb_tree_init; fm = none; c = fm.last }
            | some node ↦ node
          ])
          seen

  -- The node that is pointed to carries the last character of the file.
  pub last_node-c :
      (tree : VisitedTree rb) (fm : FileMetadata)
      → (visited_tree_find_or_create_last_node rb tree fm).value.c ≡ fm.last
  unfolding visited_tree_find_or_create_last_node compare_char_key
  last_node-c tree fm = compare_signed-eq _ fm.last (
      find_or_create_key rb L char_ops char_ops-IsKeyed
        (visited_tree_find_or_create_last_tree rb tree fm).value
        (record { children = rb.rb_tree_init; fm = none; c = fm.last }) fm.last
        (compare_signed-IsOrder.cmp_self fm.last))
