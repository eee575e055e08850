-- ===== src/Replacing/Found.antt =====
-- The search for an origin does not come to NULL.
use dedup.Prelude.{
  ℕ, ◌≤◌, ◌<◌, ◌≡◌, ◌≢◌, suc, true, refl, sym, ◌∙◌, false, Option, none, some, List, [], ◌∷◌, All,
  Ordering, ap, arith, ◌==◌, Bool-cases, Option-cases, inl, inr, length,
}
use dedup.AList.{size_mod}
use dedup.Rb.{RbTree, IsRbTree}
use dedup.Rb.Order.{compare_int, compare_int-IsOrder}
use dedup.Rb.Every.{find-All}
use dedup.Metadata.{Pointer}
use dedup.CloneIds.{
  IdCountNode, id_count_ops, id_count_ops-IsKeyed, CountTree, new_clone_id_counts,
  clone_id_tree_max, count_clones,
}
use dedup.CloneIds.Counts.{occurrences, count_of, count_of-count_clones}
use dedup.CloneIds.Most.{clone_id_tree_max-IsMost}
use dedup.Replacing.{
  to_choice, most_cloned, is_null_origin, first_uncompressed, most_hardlinks, choose_by_clones,
  choose_origin,
}

module _ (rb : RbTree) (L : IsRbTree rb) where
  count_of-zero :
      (tree : CountTree rb) (id : ℕ)
      → All (λ (n : IdCountNode). n.count ≤ 0) (rb.nodes tree)
      → count_of rb tree id ≡ 0
  unfolding count_of
  count_of-zero tree id all = elim (Option-cases (rb.rb_tree_find_node id_count_ops tree id)) [
    | inl absent ↦ rw (absent, count_of) refl
    | inr (n, found) ↦
        let small : n.count ≤ 0 =
          find-All id_count_ops (λ (n : IdCountNode). n.count ≤ 0) (rb.nodes tree) id n all
            (sym (L.find-nodes id_count_ops id_count_ops-IsKeyed tree id) ∙ found) in
        rw (found, count_of) (omega arith)
  ]

  -- The counts of some files are not all 0.
  clone_id_tree_max_some :
      (fm : Pointer) (fms : List Pointer)
      → length (fm ∷ fms) < size_mod
      → clone_id_tree_max rb (count_clones rb (new_clone_id_counts rb) (fm ∷ fms)) ≢ none
  clone_id_tree_max_some fm fms small absent =
      let tree = count_clones rb (new_clone_id_counts rb) (fm ∷ fms) in
      let id : ℕ = fm.target.clone_id in
      let counted : count_of rb tree id ≡ occurrences id (fm ∷ fms) =
        count_of-count_clones rb L (fm ∷ fms) id small in
      let own : compare_int id id ≡ Ordering.eq = compare_int-IsOrder.cmp_self id in
      elim (clone_id_tree_max-IsMost rb tree) [
        | inl (none_most, all) ↦
            let zeros = count_of-zero tree id all in
            let seen : occurrences id (fm ∷ fms) ≡ suc (occurrences id fms) = rw own refl in
            absurd (omega (arith, counted, zeros, seen))
        | inr (node, m, at, lt, all) ↦ cc (absent, at)
      ]

  -- No files have no clone ids, so that the counts tell them apart.
  apart_or_some :
      (fms : List Pointer)
      → (rb.rb_tree_count (count_clones rb (new_clone_id_counts rb) fms) == length fms) ≡ false
      → length fms < size_mod
      → clone_id_tree_max rb (count_clones rb (new_clone_id_counts rb) fms) ≢ none
  unfolding count_clones new_clone_id_counts
  apart_or_some [] shared small =
      let empty : rb.rb_tree_count (new_clone_id_counts rb) ≡ 0 =
        L.count-nodes (new_clone_id_counts rb) ∙ ap length L.nodes-init in
      let none_left : true ≡ false = rw empty at shared in cc none_left
  apart_or_some (fm ∷ fms) shared small = clone_id_tree_max_some fm fms small

  to_choice-not_null : (o : Option Pointer) → is_null_origin (to_choice o) ≡ false
  to_choice-not_null none = refl
  to_choice-not_null (some fm) = refl

  most_cloned-not_null : (o : Option Pointer) → o ≢ none → is_null_origin (most_cloned o) ≡ false
  most_cloned-not_null none there = absurd (there refl)
  most_cloned-not_null (some fm) there = refl

  choose_by_clones-not_null :
      (fms : List Pointer)
      → length fms < size_mod
      → is_null_origin (choose_by_clones rb fms) ≡ false
  unfolding choose_by_clones
  choose_by_clones-not_null fms small =
      let counts : CountTree rb = count_clones rb (new_clone_id_counts rb) fms in
      elim (Bool-cases (rb.rb_tree_count counts == 1)) [
        | inl one ↦ rw (one, choose_by_clones) refl
        | inr many ↦ elim (Bool-cases (rb.rb_tree_count counts == length fms)) [
          | inl apart ↦
              rw (many, apart, choose_by_clones) (to_choice-not_null (first_uncompressed fms))
          | inr shared ↦
              rw (many, shared, choose_by_clones)
                (most_cloned-not_null (clone_id_tree_max rb counts)
                  (apart_or_some fms shared small))
        ]
      ]

  -- No set of fewer than 2^64 files has NULL for its origin.
  pub choose_origin-not_null :
      (fms : List Pointer) → length fms < size_mod → is_null_origin (choose_origin rb fms) ≡ false
  unfolding choose_origin
  choose_origin-not_null fms small = elim (Option-cases (most_hardlinks none fms)) [
    | inl none_linked ↦ rw (none_linked, choose_origin) (choose_by_clones-not_null fms small)
    | inr (x, linked) ↦ rw (linked, choose_origin) refl
  ]
