-- ===== src/Rb.antt =====
-- The interface of rbtree(3), which map.c uses and does not implement. A tree is any type that, by
-- way of RB_TREE_FOREACH, is a list of nodes in the order of their keys.
pub mod Order
pub mod Laws
pub mod Sorted
pub mod Every
pub mod Distinct
use dedup.Prelude.{
  ℕ, ◌≡◌, Bool, true, false, Option, none, some, List, [], ◌∷◌, Ordering, length, if◌then◌else◌,
}
use Order.{is_eq, is_lt, IsOrder}

-- `rb_tree_ops_t`: the sign of the number that a comparison returns is an `Ordering`.
pub record Ops (N K : Type 0) : Type 0 where
  pub compare_nodes : N → N → Ordering
  pub compare_key : N → K → Ordering

-- rbtree(3) asks of its comparisons that they order nodes by a key.
pub record IsKeyed {N K : Type 0} (ops : Ops N K) : Type 0 where
  pub key : N → K
  pub cmp : K → K → Ordering
  pub order : IsOrder cmp
  pub by_nodes : (a b : N) → ops.compare_nodes a b ≡ cmp (key a) (key b)
  pub by_key : (n : N) (k : K) → ops.compare_key n k ≡ cmp (key n) k

module _ {N K : Type 0} (ops : Ops N K) where
  -- The first node of the key.
  abbrev pub find : List N → K → Option N
  find [] k = none
  find (n ∷ ns) k = if is_eq (ops.compare_key n k) then some n else find ns k

  -- A new node before the first one that is greater.
  abbrev pub insert : List N → N → List N
  insert [] n = n ∷ []
  insert (m ∷ ns) n = if is_lt (ops.compare_nodes n m) then n ∷ m ∷ ns else m ∷ insert ns n

  -- An assignment to the fields of the node of a key.
  abbrev pub assign : List N → K → N → List N
  assign [] k n = []
  assign (m ∷ ns) k n = if is_eq (ops.compare_key m k) then n ∷ ns else m ∷ assign ns k n

  -- The list without the node of the key of the one given.
  abbrev pub erase : List N → N → List N
  erase [] n = []
  erase (m ∷ ns) n = if is_eq (ops.compare_nodes m n) then ns else m ∷ erase ns n

abbrev pub first : {N : Type 0} → List N → Option N
first [] = none
first (n ∷ ns) = some n

pub record RbTree : Type 1 where
  pub Tree : Type 0 → Type 0
  pub rb_tree_init : {N : Type 0} → Tree N
  pub rb_tree_find_node : {N K : Type 0} → Ops N K → Tree N → K → Option N
  pub rb_tree_insert_node : {N K : Type 0} → Ops N K → Tree N → N → Tree N
  -- A write to the node that `rb_tree_find_node` points to.
  pub write_node : {N K : Type 0} → Ops N K → Tree N → K → N → Tree N
  pub rb_tree_count : {N : Type 0} → Tree N → ℕ
  -- RB_TREE_MIN
  pub rb_tree_min : {N : Type 0} → Tree N → Option N
  pub rb_tree_remove_node : {N K : Type 0} → Ops N K → Tree N → N → Tree N
  -- The nodes in the order of RB_TREE_FOREACH.
  pub nodes : {N : Type 0} → Tree N → List N

-- What rbtree(3) documents. A node is inserted only if no node has its key, and a write keeps the
-- key of its node.
pub record IsRbTree (rb : RbTree) : Type 1 where
  pub nodes-init : {N : Type 0} → rb.nodes (rb.rb_tree_init {N = N}) ≡ []
  pub find-nodes :
      {N K : Type 0} (ops : Ops N K)
      → IsKeyed ops
      → (t : rb.Tree N) (k : K) → rb.rb_tree_find_node ops t k ≡ find ops (rb.nodes t) k
  pub nodes-insert :
      {N K : Type 0} (ops : Ops N K) (keyed : IsKeyed ops) (t : rb.Tree N) (n : N)
      → rb.rb_tree_find_node ops t (keyed.key n) ≡ none
      → rb.nodes (rb.rb_tree_insert_node ops t n) ≡ insert ops (rb.nodes t) n
  pub nodes-write :
      {N K : Type 0} (ops : Ops N K)
      → IsKeyed ops
      → (t : rb.Tree N) (k : K) (n : N) → ops.compare_key n k ≡ Ordering.eq
      → rb.nodes (rb.write_node ops t k n) ≡ assign ops (rb.nodes t) k n
  pub min-nodes : {N : Type 0} (t : rb.Tree N) → rb.rb_tree_min t ≡ first (rb.nodes t)
  -- A node is removed from the tree in which it is.
  pub nodes-remove :
      {N K : Type 0} (ops : Ops N K) (keyed : IsKeyed ops) (t : rb.Tree N) (n : N)
      → rb.rb_tree_find_node ops t (keyed.key n) ≡ some n
      → rb.nodes (rb.rb_tree_remove_node ops t n) ≡ erase ops (rb.nodes t) n
  pub count-nodes : {N : Type 0} (t : rb.Tree N) → rb.rb_tree_count t ≡ length (rb.nodes t)

-- A pointer into a tree: what it points to, and the tree after a write through it.
pub record Ref (N T : Type 0) : Type 0 where
  pub value : N
  pub write : N → T

-- The idiom of map.c: find the node of a key, or insert a new one, and go on with a pointer to it.
unfoldable pub find_or_create :
    (rb : RbTree) {N K : Type 0} → Ops N K → rb.Tree N → K → N → Ref N (rb.Tree N)
find_or_create rb ops t k fresh = elim (rb.rb_tree_find_node ops t k) [
  | some n ↦ record { value = n; write = λ m. rb.write_node ops t k m }
  | none ↦ record {
    value = fresh;
    write = λ m. rb.write_node ops (rb.rb_tree_insert_node ops t fresh) k m;
  }
]
