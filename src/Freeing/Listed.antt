-- ===== src/Freeing/Listed.antt =====
-- What `free_sha256_list_node` and `free_duplicate_tree` free.
use mathlib.Core.Option.{some-injective}
use dedup.Prelude.{
  ℕ, zero, suc, ◌+◌, ◌≡◌, ◌<◌, refl, sym, ◌∙◌, ap, Option, none, some, List, [], ◌∷◌, ◌++◌, arith,
  All, length, set, get_or, Option-cases, inl, inr, subst, length-set, length-take,
}
use dedup.AList.{AList, alist_set, alist_size}
use dedup.AList.View.{IsAList, to_list, alist_get-to_list, alist_set-to_list}
use dedup.Rb.{RbTree, IsRbTree}
use dedup.Metadata.{Pointer}
use dedup.Main.{metadata_set}
use dedup.Duplicates.{Sha256ListNode, DuplicateTree, sha256_list_ops, sha256_list_ops-IsKeyed}
use dedup.Freeing.{
  Block, string, metadata, elements, list, list_node, tree, free_metadata, free_alist, free_items,
  free_sha256_list_node, free_duplicate_tree,
}
use dedup.Freeing.Ends.{blocks_of, free_nodes_lem}

-- The list from an index on.
abbrev from : {A : Type 0} → ℕ → List A → List A
from zero xs = xs
from (suc i) [] = []
from (suc i) (x ∷ xs) = from i xs

from-get_or :
    {A : Type 0} (i : ℕ) (xs : List A) (d : A)
    → i < length xs
    → from i xs ≡ get_or xs i d ∷ from (suc i) xs
from-get_or i [] d h = absurd (omega arith)
from-get_or zero (x ∷ xs) d h = refl
from-get_or (suc i) (x ∷ xs) d h = from-get_or i xs d (omega arith)

from-set : {A : Type 0} (i : ℕ) (xs : List A) (v : A) → from (suc i) (set xs i v) ≡ from (suc i) xs
from-set i [] v = refl
from-set zero (x ∷ xs) v = refl
from-set (suc i) (x ∷ xs) v = from-set i xs v

abbrev pub pointer_blocks : Pointer → List Block
pointer_blocks fm = string fm.target.path ∷ metadata fm.target ∷ []

metadata_set-cons :
    (slot : Option Pointer) (slots : List (Option Pointer)) (fms : List Pointer)
    → metadata_set (slot ∷ slots) ≡ some fms
    → (fm : Pointer) × (rest : List Pointer) × (slot ≡ some fm)
      × (metadata_set slots ≡ some rest)
      × (fms ≡ fm ∷ rest)
unfolding metadata_set
metadata_set-cons none slots fms h = absurd cc
metadata_set-cons (some fm) slots fms h = elim (Option-cases (metadata_set slots)) [
  | inl bad ↦ absurd (cc (rw (metadata_set, bad) at h))
  | inr (rest, good) ↦
      (fm, rest, refl, good, sym (some-injective _ _ (rw (metadata_set, good) at h)))
]

from_end : {A : Type 0} (i : ℕ) (xs : List A) → length xs ≡ i → from i xs ≡ []
from_end zero [] h = refl
from_end zero (x ∷ xs) h = absurd (omega arith)
from_end (suc i) [] h = refl
from_end (suc i) (x ∷ xs) h = from_end i xs (omega arith)

-- From an index on, the loop frees the files of the list.
free_items_lem :
    (rounds i : ℕ) (items : AList Pointer) (fms : List Pointer)
    → IsAList items
    → length (to_list items) ≡ i + rounds
    → metadata_set (from i (to_list items)) ≡ some fms
    → free_items rounds i items ≡ some (blocks_of pointer_blocks fms)
unfolding free_items free_metadata metadata_set
free_items_lem zero i items fms valid size run =
    let none_left : metadata_set [] ≡ some fms =
      subst (λ xs. metadata_set xs ≡ some fms) (from_end i (to_list items) (omega (arith, size)))
        run in
    rw (sym (some-injective [] fms none_left)) refl
free_items_lem (suc rounds) i items fms valid size run =
    let slot = get_or (to_list items) i none in
    let (fm, rest, here, run', whole) = metadata_set-cons slot (from (suc i) (to_list items)) fms (
      subst (λ xs. metadata_set xs ≡ some fms)
        (from-get_or i (to_list items) none (omega (arith, size))) run) in
    let (valid', written) = alist_set-to_list items i none valid in
    let items' = alist_set items i none in
    let size' : length (to_list items') ≡ i + 1 + rounds =
      omega (arith, ap length written ∙ length-set (to_list items) i none, size) in
    let next : i + 1 ≡ suc i = omega arith in
    let rest_there : metadata_set (from (i + 1) (to_list items')) ≡ some rest =
      ap (λ xs. metadata_set (from (i + 1) xs)) written
      ∙ ap metadata_set
          (ap (λ k. from k (set (to_list items) i none)) next ∙ from-set i (to_list items) none)
      ∙ run' in
    rw (
      free_items,
      alist_get-to_list items i valid,
      here,
      free_items_lem rounds (i + 1) items' rest valid' size' rest_there,
      whole,
    )

free_sha256_list_node_lem :
    (n : Sha256ListNode) (fms : List Pointer)
    → IsAList n.list
    → metadata_set (to_list n.list) ≡ some fms
    → free_sha256_list_node n
      ≡ some (blocks_of pointer_blocks fms ++ elements ∷ list ∷ list_node n.sha256 ∷ [])
unfolding free_sha256_list_node free_alist alist_size
free_sha256_list_node_lem n fms valid run =
    rw
      (free_items_lem n.list.size 0 n.list fms valid
        (omega (
          arith,
          length-take n.list.size n.list.elements (omega (arith, valid.allocated, valid.fits)),
        ))
        run)
      refl

-- The blocks of the files of a list, and those of a node of the tree of duplicates.
abbrev pub slot_blocks : List (Option Pointer) → List Block
slot_blocks [] = []
slot_blocks (none ∷ slots) = slot_blocks slots
slot_blocks (some fm ∷ slots) = pointer_blocks fm ++ slot_blocks slots

abbrev pub node_blocks : Sha256ListNode → List Block
node_blocks n = slot_blocks (to_list n.list) ++ elements ∷ list ∷ list_node n.sha256 ∷ []

slot_blocks-metadata_set :
    (slots : List (Option Pointer)) (fms : List Pointer)
    → metadata_set slots ≡ some fms
    → slot_blocks slots ≡ blocks_of pointer_blocks fms
unfolding metadata_set
slot_blocks-metadata_set [] fms run = rw (sym (some-injective [] fms run)) refl
slot_blocks-metadata_set (slot ∷ slots) fms run =
    let (fm, rest, here, run', whole) = metadata_set-cons slot slots fms run in
    rw (here, whole, slot_blocks-metadata_set slots rest run') refl

-- The list of a node is in good order and holds no NULL.
abbrev pub IsFull : Sha256ListNode → Type 0
IsFull n = IsAList n.list × ((fms : List Pointer) × (metadata_set (to_list n.list) ≡ some fms))

IsFull-free :
    (ns : List Sha256ListNode)
    → All IsFull ns
    → All (λ n. free_sha256_list_node n ≡ some (node_blocks n)) ns
IsFull-free [] full = tt
IsFull-free (n ∷ ns) ((valid, (fms, run)), full) = (
  free_sha256_list_node_lem n fms valid run
      ∙ ap (λ bs. some (bs ++ elements ∷ list ∷ list_node n.sha256 ∷ []))
          (sym (slot_blocks-metadata_set (to_list n.list) fms run)),
  IsFull-free ns full,
)

pub free_duplicate_tree_lem :
    (rb : RbTree)
    → IsRbTree rb
    → (t : DuplicateTree rb) → All IsFull (rb.nodes t)
    → free_duplicate_tree rb t ≡ some (blocks_of node_blocks (rb.nodes t) ++ tree ∷ [])
unfolding free_duplicate_tree
free_duplicate_tree_lem rb L t full =
    rw
      (free_nodes_lem rb L sha256_list_ops sha256_list_ops-IsKeyed free_sha256_list_node node_blocks
        t (IsFull-free (rb.nodes t) full))
      refl
