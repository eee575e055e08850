-- ===== src/Replacing/Origin.antt =====
-- Which file of a set `deduplicate` takes as the origin.
use mathlib.Core.Option.{some-injective}
use dedup.Prelude.{
  ltb→lt, ℕ, ◌≤◌, ◌<◌, ◌≡◌, ◌⊎◌, inl, inr, sym, ◌∙◌, subst, false, ◌&&◌, Option, none, some, List,
  [], ◌∷◌, Ordering, arith, ltb, ◌==◌, if◌then◌else◌, Bool-cases, Option-cases, All, length,
}
use dedup.Rb.{RbTree, IsRbTree, find_or_create}
use dedup.Rb.Order.{compare_int, compare_int-IsOrder}
use dedup.Rb.Laws.{find_or_create_key}
use dedup.Rb.Every.{value-All, find_or_create-All}
use dedup.Metadata.{Pointer}
use dedup.CloneIds.{
  IdCountNode, id_count_ops, id_count_ops-IsKeyed, compare_metadata_clone_id_key, CountTree,
  new_clone_id_counts, clone_id_tree_increment, clone_id_tree_max, count_clones, max_loop,
}
use dedup.Replacing.{
  chosen, to_choice, most_cloned, is_compressed, better_linked, most_hardlinks, first_uncompressed,
  choose_by_clones, choose_origin,
}

-- What the loop knows of its origin: it has more than one link, and no file seen has more.
abbrev IsMostLinked : Option Pointer → Pointer → Type 0
IsMostLinked none fm = fm.target.nlink ≤ 1
IsMostLinked (some origin) fm = fm.target.nlink ≤ origin.target.nlink

abbrev IsLinked : Option Pointer → Type 0
IsLinked none = Unit
IsLinked (some origin) = 1 < origin.target.nlink

abbrev next_linked : Option Pointer → Pointer → Option Pointer
next_linked origin x = if better_linked origin x then some x else origin

next_linked_lem :
    (origin : Option Pointer) (x : Pointer)
    → IsLinked origin
    → IsLinked (next_linked origin x) × IsMostLinked (next_linked origin x) x
unfolding better_linked
next_linked_lem none x linked = elim (Bool-cases (ltb 1 x.target.nlink)) [
  | inl more ↦ rw more (ltb→lt _ _ more, omega arith)
  | inr few ↦ rw few (tt, ground arith)
]
next_linked_lem (some origin) x linked =
    elim (Bool-cases (ltb 1 x.target.nlink && ltb origin.target.nlink x.target.nlink)) [
      | inl more ↦ rw more (ground arith, omega arith)
      | inr few ↦ rw few (linked, ground arith)
    ]

next_linked_mono :
    (origin : Option Pointer) (x fm : Pointer)
    → IsMostLinked origin fm
    → IsMostLinked (next_linked origin x) fm
unfolding better_linked
next_linked_mono none x fm h = elim (Bool-cases (ltb 1 x.target.nlink)) [
  | inl more ↦ rw more (ground arith)
  | inr few ↦ rw few h
]
next_linked_mono (some origin) x fm h =
    elim (Bool-cases (ltb 1 x.target.nlink && ltb origin.target.nlink x.target.nlink)) [
      | inl more ↦ rw more (ground arith)
      | inr few ↦ rw few h
    ]

most_hardlinks_mono :
    (origin : Option Pointer) (fms : List Pointer) (fm : Pointer)
    → IsMostLinked origin fm
    → IsMostLinked (most_hardlinks origin fms) fm
unfolding most_hardlinks
most_hardlinks_mono origin [] fm h = h
most_hardlinks_mono origin (x ∷ fms) fm h =
    most_hardlinks_mono (next_linked origin x) fms fm (next_linked_mono origin x fm h)

most_hardlinks_from :
    (origin : Option Pointer) (fms : List Pointer)
    → IsLinked origin
    → IsLinked (most_hardlinks origin fms) × All (IsMostLinked (most_hardlinks origin fms)) fms
unfolding most_hardlinks
most_hardlinks_from origin [] linked = (linked, tt)
most_hardlinks_from origin (x ∷ fms) linked =
    let (linked', most) = next_linked_lem origin x linked in
    let (rest, all) = most_hardlinks_from (next_linked origin x) fms linked' in
    (rest, (most_hardlinks_mono (next_linked origin x) fms x most, all))

most_hardlinks-All :
    (Q : Pointer → Type 0) (origin : Option Pointer) (fms : List Pointer)
    → All Q fms
    → ((fm : Pointer) → origin ≡ some fm → Q fm)
    → (fm : Pointer) → most_hardlinks origin fms ≡ some fm
    → Q fm
unfolding most_hardlinks
most_hardlinks-All Q origin [] all known fm found = known fm found
most_hardlinks-All Q origin (x ∷ fms) all known fm found =
    most_hardlinks-All Q (next_linked origin x) fms all.1
      (λ y e. elim (Bool-cases (better_linked origin x)) [
        | inl better ↦ subst Q (some-injective x y (rw better at e)) all.0
        | inr worse ↦ known y (rw worse at e)
      ])
      fm found

first_uncompressed-All :
    (Q : Pointer → Type 0) (fms : List Pointer)
    → All Q fms
    → (fm : Pointer) → first_uncompressed fms ≡ some fm
    → Q fm × (is_compressed fm ≡ false)
unfolding first_uncompressed
first_uncompressed-All Q [] all fm found = cc
first_uncompressed-All Q (x ∷ fms) all fm found = elim (Bool-cases (is_compressed x)) [
  | inl packed ↦ first_uncompressed-All Q fms all.1 fm (rw packed at found)
  | inr plain ↦
      let e : x ≡ fm = some-injective x fm (rw plain at found) in
      (subst Q e all.0, subst (λ y. is_compressed y ≡ false) e plain)
]

max_loop-All :
    (Q : Pointer → Type 0) (max : ℕ) (best : Option Pointer) (nodes : List IdCountNode)
    → All (λ n. Q n.fm) nodes
    → ((fm : Pointer) → best ≡ some fm → Q fm)
    → (fm : Pointer) → max_loop max best nodes ≡ some fm
    → Q fm
unfolding max_loop
max_loop-All Q max best [] all known fm found = known fm found
max_loop-All Q max best (n ∷ nodes) all known fm found =
    max_loop-All Q (if ltb max n.count then n.count else max)
      (if ltb max n.count then some n.fm else best) nodes all.1
      (λ y e. elim (Bool-cases (ltb max n.count)) [
        | inl more ↦ subst Q (some-injective n.fm y (rw more at e)) all.0
        | inr less ↦ known y (rw less at e)
      ])
      fm found

module _ (rb : RbTree) (L : IsRbTree rb) (Q : Pointer → Type 0) where
  increment-All :
      (tree : CountTree rb) (fm : Pointer)
      → All (λ n. Q n.fm) (rb.nodes tree)
      → Q fm
      → All (λ n. Q n.fm) (rb.nodes (clone_id_tree_increment rb tree fm).1)
  unfolding clone_id_tree_increment compare_metadata_clone_id_key
  increment-All tree fm all q =
      let id : ℕ = fm.target.clone_id in
      let fresh : IdCountNode = record { fm = fm; id = id; count = 0 } in
      let new : compare_int id id ≡ Ordering.eq = compare_int-IsOrder.cmp_self id in
      let node = find_or_create rb id_count_ops tree id fresh in
      find_or_create-All rb L id_count_ops id_count_ops-IsKeyed (λ n. Q n.fm) tree id fresh _ new
        (find_or_create_key rb L id_count_ops id_count_ops-IsKeyed tree fresh id new) all q
        (value-All rb L id_count_ops id_count_ops-IsKeyed (λ n. Q n.fm) tree id fresh all q)

  count_clones-All :
      (tree : CountTree rb) (fms : List Pointer)
      → All (λ n. Q n.fm) (rb.nodes tree)
      → All Q fms
      → All (λ n. Q n.fm) (rb.nodes (count_clones rb tree fms))
  unfolding count_clones
  count_clones-All tree [] all q = all
  count_clones-All tree (fm ∷ fms) all q =
      count_clones-All (clone_id_tree_increment rb tree fm).1 fms (increment-All tree fm all q.0)
        q.1

  to_choice-chosen : (o : Option Pointer) (fm : Pointer) → to_choice o ≡ chosen fm → o ≡ some fm
  to_choice-chosen o fm h = ground arith

  most_cloned-chosen : (o : Option Pointer) (fm : Pointer) → most_cloned o ≡ chosen fm → o ≡ some fm
  most_cloned-chosen o fm h = ground arith

  clone_id_tree_max-All :
      (fms : List Pointer) (fm : Pointer)
      → All Q fms
      → clone_id_tree_max rb (count_clones rb (new_clone_id_counts rb) fms) ≡ some fm
      → Q fm
  unfolding clone_id_tree_max new_clone_id_counts
  clone_id_tree_max-All fms fm all found =
      max_loop-All Q 0 none _
        (count_clones-All (new_clone_id_counts rb) fms
          (subst (All (λ n. Q n.fm)) (sym L.nodes-init) tt) all)
        (λ y e. cc) fm found

  choose_by_clones-All :
      (fms : List Pointer) (fm : Pointer) → All Q fms → choose_by_clones rb fms ≡ chosen fm → Q fm
  unfolding choose_by_clones
  choose_by_clones-All fms fm all h =
      let counts : CountTree rb = count_clones rb (new_clone_id_counts rb) fms in
      elim (Bool-cases (rb.rb_tree_count counts == 1)) [
        | inl one ↦ cc (rw one at h)
        | inr many ↦ elim (Bool-cases (rb.rb_tree_count counts == length fms)) [
          | inl apart ↦
              (first_uncompressed-All Q fms all fm
                (to_choice-chosen _ fm (rw (many, apart) at h))).0
          | inr shared ↦
              clone_id_tree_max-All fms fm all (most_cloned-chosen _ fm (rw (many, shared) at h))
        ]
      ]

  -- What holds of every file of the set holds of the origin: it is one of them.
  pub choose_origin-All :
      (fms : List Pointer) (fm : Pointer) → All Q fms → choose_origin rb fms ≡ chosen fm → Q fm
  unfolding choose_origin
  choose_origin-All fms fm all h = elim (Option-cases (most_hardlinks none fms)) [
    | inl none_linked ↦ choose_by_clones-All fms fm all (rw (none_linked, choose_origin) at h)
    | inr (x, linked) ↦
        most_hardlinks-All Q none fms all (λ y e. cc) fm
          (linked ∙ to_choice-chosen (some x) fm (rw (linked, choose_origin) at h))
  ]

-- If no file of the set has more than one link, clones decide. Otherwise the origin is a file with
-- more than one link, and no file of the set has more links than it.
pub choose_origin-most_linked :
    (rb : RbTree) (fms : List Pointer)
    → (All (λ x. x.target.nlink ≤ 1) fms × (choose_origin rb fms ≡ choose_by_clones rb fms))
      ⊎ ((fm : Pointer) × (choose_origin rb fms ≡ chosen fm)
          × (1 < fm.target.nlink)
          × All (λ x. x.target.nlink ≤ fm.target.nlink) fms)
unfolding choose_origin
choose_origin-most_linked rb fms =
    let (linked, all) = most_hardlinks_from none fms tt in
    elim (Option-cases (most_hardlinks none fms)) [
      | inl free ↦ inl (rw free at all, rw (free, choose_origin))
      | inr (fm, found) ↦ inr (fm, rw (found, choose_origin), rw found at linked, rw found at all)
    ]
