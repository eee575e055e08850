-- ===== src/Duplicates/Lists.antt =====
-- What the tree of duplicates means: for each digest, the list of files that stands there.
use mathlib.Core.Option.{some-injective}
use mathlib.Core.List.{Memᴰ}
use dedup.Prelude.{
  subst, Bool-cases, ℕ, ◌≤◌, ◌≡◌, sym, ◌∙◌, ap, Option, none, some, List, [], arith, inl, inr,
  Option-cases, if◌then◌else◌, Ordering,
}
use dedup.AList.{AList, new_alist_with_capacity}
use dedup.AList.View.{IsAList, to_list, new_alist-IsAList}
use dedup.Rb.{RbTree, IsRbTree, find_or_create}
use dedup.Rb.Order.{is_eq, memcmp, memcmp_same, memcmp_self}
use dedup.Rb.Laws.{
  find_node-init, find_node-find_or_create, value-find_or_create, find_or_create_key,
}
use dedup.Rb.Distinct.{IsDistinct, find-Memᴰ, find_or_create-IsDistinct}
use dedup.Metadata.{Sha256, FileMetadata, Pointer}
use dedup.Duplicates.{
  Sha256ListNode, sha256_list_ops, sha256_list_ops-IsKeyed, compare_metadata_sha256_list_key,
  DuplicateTree, new_duplicate_tree, duplicate_tree_find,
}

module _ (rb : RbTree) where
  -- The list of a digest; without a node it is empty.
  abbrev pub duplicates_of : DuplicateTree rb → Sha256 → List (Option Pointer)
  duplicates_of tree sha = elim (rb.rb_tree_find_node sha256_list_ops tree sha) [
    | none ↦ []
    | some node ↦ to_list node.list
  ]

  -- Every list of the tree is in good order, and has at most that many files; no two lists have the
  -- same digest.
  pub record IsDuplicates (bound : ℕ) (tree : DuplicateTree rb) : Type 0 where
    pub lists :
        (sha : Sha256) (node : Sha256ListNode)
        → rb.rb_tree_find_node sha256_list_ops tree sha ≡ some node
        → IsAList node.list × (node.list.size ≤ bound)
    pub distinct : IsDistinct sha256_list_ops sha256_list_ops-IsKeyed (rb.nodes tree)

  pub IsDuplicates-le :
      (bound more : ℕ) (tree : DuplicateTree rb)
      → bound ≤ more
      → IsDuplicates bound tree
      → IsDuplicates more tree
  IsDuplicates-le bound more tree le valid = record {
    lists = λ sha node found. let old = valid.lists sha node found in (old.0, omega (arith, old.1));
    distinct = valid.distinct;
  }

module _ (rb : RbTree) (L : IsRbTree rb) where
  pub duplicates_of-new : (sha : Sha256) → duplicates_of rb (new_duplicate_tree rb) sha ≡ []
  unfolding new_duplicate_tree
  duplicates_of-new sha = rw (
    duplicates_of,
    find_node-init rb L sha256_list_ops sha256_list_ops-IsKeyed rb.rb_tree_init sha,
  )

  pub new_duplicate_tree-IsDuplicates : IsDuplicates rb 0 (new_duplicate_tree rb)
  unfolding new_duplicate_tree
  new_duplicate_tree-IsDuplicates = record {
    lists = λ sha node found.
        let e = find_node-init rb L sha256_list_ops sha256_list_ops-IsKeyed rb.rb_tree_init sha in
        cc (e, found);
    distinct = subst (IsDistinct sha256_list_ops sha256_list_ops-IsKeyed) (sym L.nodes-init) tt;
  }

  module _ (tree : DuplicateTree rb) (fm : FileMetadata) where
    abbrev fresh : Sha256ListNode
    fresh = record { list = new_alist_with_capacity 2; sha256 = fm.sha256 }

    abbrev list_node : Sha256ListNode
    list_node = (find_or_create rb sha256_list_ops tree fm.sha256 fresh).value

    list_node_key : memcmp 32 list_node.sha256 fm.sha256 ≡ Ordering.eq
    unfolding compare_metadata_sha256_list_key
    list_node_key =
        find_or_create_key rb L sha256_list_ops sha256_list_ops-IsKeyed tree fresh fm.sha256
          (memcmp_self 32 fm.sha256)

    -- A write through the pointer is seen under its digest, and under no other.
    find_node-duplicate_tree_find :
        (list : AList Pointer) (sha : Sha256)
        → rb.rb_tree_find_node sha256_list_ops ((duplicate_tree_find rb tree fm).write list) sha ≡ (
            if is_eq (memcmp 32 fm.sha256 sha)
            then some (record list_node { list = list })
            else rb.rb_tree_find_node sha256_list_ops tree sha)
    unfolding duplicate_tree_find compare_metadata_sha256_list_key
    find_node-duplicate_tree_find list sha =
        find_node-find_or_create rb L sha256_list_ops sha256_list_ops-IsKeyed tree fresh
          (record list_node { list = list }) fm.sha256 sha (memcmp_self 32 fm.sha256) list_node_key
        ∙ ap
            (λ o.
              if is_eq o
              then some (record list_node { list = list })
              else rb.rb_tree_find_node sha256_list_ops tree sha)
            (memcmp_same 32 list_node.sha256 fm.sha256 sha list_node_key)

    found_list : AList Pointer
    found_list = elim (rb.rb_tree_find_node sha256_list_ops tree fm.sha256) [
      | none ↦ new_alist_with_capacity 2
      | some node ↦ node.list
    ]

    value_lem : (duplicate_tree_find rb tree fm).value ≡ found_list
    unfolding duplicate_tree_find found_list
    value_lem =
        ap (λ (n : Sha256ListNode). n.list)
          (value-find_or_create rb L sha256_list_ops sha256_list_ops-IsKeyed tree fresh fm.sha256)
        ∙ ground arith

    pub duplicates_of-value :
        to_list (duplicate_tree_find rb tree fm).value ≡ duplicates_of rb tree fm.sha256
    unfolding found_list new_alist_with_capacity
    duplicates_of-value = rw value_lem (ground arith)

    pub duplicates_of-write :
        (list : AList Pointer) (sha : Sha256)
        → duplicates_of rb ((duplicate_tree_find rb tree fm).write list) sha
          ≡ (if is_eq (memcmp 32 fm.sha256 sha) then to_list list else duplicates_of rb tree sha)
    duplicates_of-write list sha =
        rw (duplicates_of, find_node-duplicate_tree_find list sha) (ground arith)

    module _ (bound : ℕ) (valid : IsDuplicates rb bound tree) where
      -- A pointer is to a list in good order.
      pub value-IsAList :
          IsAList (duplicate_tree_find rb tree fm).value
          × ((duplicate_tree_find rb tree fm).value.size ≤ bound)
      unfolding found_list new_alist_with_capacity
      value-IsAList = elim (Option-cases (rb.rb_tree_find_node sha256_list_ops tree fm.sha256)) [
        | inl absent ↦
            rw (value_lem, found_list, absent)
              (new_alist-IsAList 2 (omega arith) (omega arith), omega arith)
        | inr (node, found) ↦ rw (value_lem, found_list, found) (valid.lists fm.sha256 node found)
      ]

      -- The keys stay apart, since a write changes none of them.
      pub IsDuplicates-write :
          (list : AList Pointer) (more : ℕ)
          → IsAList list
          → list.size ≤ more
          → bound ≤ more
          → IsDuplicates rb more ((duplicate_tree_find rb tree fm).write list)
      unfolding duplicate_tree_find compare_metadata_sha256_list_key
      IsDuplicates-write list more good size le = record {
        lists = λ sha node found. elim (Bool-cases (is_eq (memcmp 32 fm.sha256 sha))) [
          | inl same ↦
              let e : some (record list_node { list = list }) ≡ some node =
                rw same at (sym (find_node-duplicate_tree_find list sha) ∙ found) in
              subst (λ (n : Sha256ListNode). IsAList n.list × (n.list.size ≤ more))
                (some-injective _ node e) (good, size)
          | inr differ ↦
              let old =
                valid.lists sha node
                  (rw differ at (sym (find_node-duplicate_tree_find list sha) ∙ found)) in
              (old.0, omega (arith, old.1))
        ];
        distinct =
            find_or_create-IsDistinct rb L sha256_list_ops sha256_list_ops-IsKeyed tree fresh
              (record list_node { list = list }) fm.sha256 (memcmp_self 32 fm.sha256) list_node_key
              valid.distinct;
      }

  find-node :
      (tree : DuplicateTree rb) (bound : ℕ)
      → IsDuplicates rb bound tree
      → (node : Sha256ListNode) → Memᴰ node (rb.nodes tree)
      → rb.rb_tree_find_node sha256_list_ops tree node.sha256 ≡ some node
  unfolding sha256_list_ops-IsKeyed
  find-node tree bound valid node m =
      L.find-nodes sha256_list_ops sha256_list_ops-IsKeyed tree node.sha256
      ∙ find-Memᴰ sha256_list_ops sha256_list_ops-IsKeyed (rb.nodes tree) node valid.distinct m

  -- What holds of each list of the tree, by its digest, holds of the list of each node.
  pub duplicates_of-node :
      (tree : DuplicateTree rb) (bound : ℕ)
      → IsDuplicates rb bound tree
      → (node : Sha256ListNode) → Memᴰ node (rb.nodes tree)
      → duplicates_of rb tree node.sha256 ≡ to_list node.list
  duplicates_of-node tree bound valid node m = rw (duplicates_of, find-node tree bound valid node m)

  pub node-IsAList :
      (tree : DuplicateTree rb) (bound : ℕ)
      → IsDuplicates rb bound tree
      → (node : Sha256ListNode) → Memᴰ node (rb.nodes tree)
      → IsAList node.list
  node-IsAList tree bound valid node m =
      (valid.lists node.sha256 node (find-node tree bound valid node m)).0
