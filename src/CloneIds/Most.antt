-- ===== src/CloneIds/Most.antt =====
-- `clone_id_tree_max` finds a node that has the highest count.
use mathlib.Core.List.{Memᴰ}
use dedup.Prelude.{
  ℕ, ◌≤◌, ◌<◌, ◌≡◌, refl, ◌⊎◌, inl, inr, Option, none, some, List, [], ◌∷◌, All, arith, ltb,
  Bool-cases,
}
use dedup.Rb.{RbTree}
use dedup.Metadata.{Pointer}
use dedup.CloneIds.{IdCountNode, CountTree, max_loop, clone_id_tree_max}

-- A node of the list has the answer and a count above the bound, and no node has a higher count.
abbrev pub IsMost : ℕ → Option Pointer → List IdCountNode → Type 0
IsMost max answer nodes =
    (node : IdCountNode) × Memᴰ node nodes
    × (answer ≡ some node.fm)
    × (max < node.count)
    × All (λ (n : IdCountNode). n.count ≤ node.count) nodes

max_loop-IsMost :
    (max : ℕ) (fm : Option Pointer) (nodes : List IdCountNode)
    → ((max_loop max fm nodes ≡ fm) × All (λ (n : IdCountNode). n.count ≤ max) nodes)
      ⊎ IsMost max (max_loop max fm nodes) nodes
unfolding max_loop
max_loop-IsMost max fm [] = inl (refl, tt)
max_loop-IsMost max fm (node ∷ nodes) = elim (Bool-cases (ltb max node.count)) [
  | inl more ↦ elim (max_loop-IsMost node.count (some node.fm) nodes) [
    | inl (same, all) ↦
        inr (node, Memᴰ.head refl, rw (max_loop, more) same, ground arith, (omega arith, all))
    | inr (n, m, at, lt, all) ↦
        inr (n, Memᴰ.tail m, rw (max_loop, more) at, ground arith, (omega arith, all))
  ]
  | inr not_more ↦ elim (max_loop-IsMost max fm nodes) [
    | inl (same, all) ↦ inl (rw (max_loop, not_more) same, (ground arith, all))
    | inr (n, m, at, lt, all) ↦
        inr (n, Memᴰ.tail m, rw (max_loop, not_more) at, lt, (ground arith, all))
  ]
]

-- Either every count of the tree is 0 and there is no answer, or the answer is the file of a node
-- with a count above 0, and no node of the tree has a higher count.
pub clone_id_tree_max-IsMost :
    (rb : RbTree) (tree : CountTree rb)
    → ((clone_id_tree_max rb tree ≡ none) × All (λ (n : IdCountNode). n.count ≤ 0) (rb.nodes tree))
      ⊎ IsMost 0 (clone_id_tree_max rb tree) (rb.nodes tree)
unfolding clone_id_tree_max
clone_id_tree_max-IsMost rb tree = max_loop-IsMost 0 none (rb.nodes tree)
