-- ===== src/CloneIds/Counts.antt =====
-- The tree of counts knows how often each clone id was seen.
use dedup.Prelude.{
  ℕ, suc, ◌+◌, ◌%◌, ◌≤◌, ◌<◌, ◌≡◌, ◌∙◌, ap, subst, none, some, List, [], ◌∷◌, Ordering, arith,
  if◌then◌else◌, length,
}
use dedup.AList.{size_mod}
use dedup.Rb.{RbTree, IsRbTree, find_or_create}
use dedup.Rb.Order.{is_eq, compare_int, compare_int-eq, compare_int-IsOrder}
use dedup.Rb.Laws.{
  find_node-find_or_create, find_node-init, find_or_create_key, value-find_or_create,
}
use dedup.Metadata.{Pointer}
use dedup.CloneIds.{
  IdCountNode, id_count_ops, id_count_ops-IsKeyed, compare_metadata_clone_id_key, CountTree,
  new_clone_id_counts, clone_id_tree_increment, count_clones,
}

-- How many files of a list have a clone id.
abbrev pub occurrences : ℕ → List Pointer → ℕ
occurrences id [] = 0
occurrences id (fm ∷ fms) =
    if is_eq (compare_int fm.target.clone_id id)
    then suc (occurrences id fms)
    else occurrences id fms

module _ (rb : RbTree) where
  unfoldable pub count_of : CountTree rb → ℕ → ℕ
  count_of tree id = elim (rb.rb_tree_find_node id_count_ops tree id) [
    | none ↦ 0
    | some n ↦ n.count
  ]

module _ (rb : RbTree) (L : IsRbTree rb) where
  module _ (tree : CountTree rb) (fm : Pointer) where
    abbrev fresh : IdCountNode
    fresh = record { fm = fm; id = fm.target.clone_id; count = 0 }

    new : compare_int fm.target.clone_id fm.target.clone_id ≡ Ordering.eq
    new = compare_int-IsOrder.cmp_self fm.target.clone_id

    abbrev node : IdCountNode
    node = (find_or_create rb id_count_ops tree fm.target.clone_id fresh).value

    node-id : node.id ≡ fm.target.clone_id
    unfolding compare_metadata_clone_id_key
    node-id = compare_int-eq node.id fm.target.clone_id (
        find_or_create_key rb L id_count_ops id_count_ops-IsKeyed tree fresh fm.target.clone_id new)

    node-count : node.count ≡ count_of rb tree fm.target.clone_id
    unfolding count_of
    node-count =
        rw
          (value-find_or_create rb L id_count_ops id_count_ops-IsKeyed tree fresh
            fm.target.clone_id)
          (ground arith)

    -- After an increment the file's clone id has the node with the count that was returned, and the
    -- other ids have the nodes that they had.
    pub find_node-increment :
        (id : ℕ)
        → rb.rb_tree_find_node id_count_ops (clone_id_tree_increment rb tree fm).1 id ≡ (
            if is_eq (compare_int fm.target.clone_id id)
            then some (record node { count = (node.count + 1) % size_mod })
            else rb.rb_tree_find_node id_count_ops tree id)
    unfolding clone_id_tree_increment compare_metadata_clone_id_key
    find_node-increment id =
        let changed : IdCountNode = record node { count = (node.count + 1) % size_mod } in
        subst
          (λ k. rb.rb_tree_find_node id_count_ops (clone_id_tree_increment rb tree fm).1 id ≡ (
            if is_eq (compare_int k id)
            then some changed
            else rb.rb_tree_find_node id_count_ops tree id))
          node-id
          (find_node-find_or_create rb L id_count_ops id_count_ops-IsKeyed tree fresh changed
            fm.target.clone_id id new (ap (λ k. compare_int k fm.target.clone_id) node-id ∙ new))

    -- One more file of a clone id is one more for that id, and for no other.
    count_of-increment :
        (id : ℕ)
        → count_of rb tree fm.target.clone_id + 1 < size_mod
        → count_of rb (clone_id_tree_increment rb tree fm).1 id ≡ (
            if is_eq (compare_int fm.target.clone_id id)
            then suc (count_of rb tree id)
            else count_of rb tree id)
    unfolding count_of
    count_of-increment id small =
        rw (find_node-increment id, count_of)
          (ground (arith, node-count, compare_int-eq fm.target.clone_id id))

  count_of-new_clone_id_counts : (id : ℕ) → count_of rb (new_clone_id_counts rb) id ≡ 0
  unfolding count_of new_clone_id_counts
  count_of-new_clone_id_counts id =
      rw (find_node-init rb L id_count_ops id_count_ops-IsKeyed rb.rb_tree_init id, count_of)

  count_of-count_clones_from :
      (tree : CountTree rb) (fms : List Pointer) (bound : ℕ)
      → ((id : ℕ) → count_of rb tree id + length fms ≤ bound)
      → bound < size_mod
      → (id : ℕ)
      → count_of rb (count_clones rb tree fms) id ≡ count_of rb tree id + occurrences id fms
  unfolding count_clones
  count_of-count_clones_from tree [] bound h small id = omega arith
  count_of-count_clones_from tree (fm ∷ fms) bound h small id =
      let here = count_of-increment tree fm id (omega (arith, h fm.target.clone_id)) in
      count_of-count_clones_from (clone_id_tree_increment rb tree fm).1 fms bound
        (λ j.
          ground (arith, h j, count_of-increment tree fm j (omega (arith, h fm.target.clone_id))))
        small id
      ∙ ground (arith, here)

  -- The counts of a set are the occurrences of its clone ids.
  pub count_of-count_clones :
      (fms : List Pointer) (id : ℕ)
      → length fms < size_mod
      → count_of rb (count_clones rb (new_clone_id_counts rb) fms) id ≡ occurrences id fms
  count_of-count_clones fms id small =
      count_of-count_clones_from (new_clone_id_counts rb) fms (length fms)
        (λ j. omega (arith, count_of-new_clone_id_counts j)) small id
      ∙ omega (arith, count_of-new_clone_id_counts id)
