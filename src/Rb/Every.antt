-- ===== src/Rb/Every.antt =====
-- What holds of every node of a tree, through insertions and writes.
use mathlib.Core.Option.{some-injective}
use dedup.Prelude.{
  ◌≡◌, sym, ◌∙◌, subst, none, some, List, [], ◌∷◌, Ordering, All, Bool-cases, Option-cases, inl,
  inr,
}
use dedup.Rb.{Ops, IsKeyed, find, insert, assign, RbTree, IsRbTree, find_or_create}
use dedup.Rb.Order.{is_eq, is_lt}
use dedup.Rb.Laws.{own_key, find_same}

module _ {N K : Type 0} (ops : Ops N K) (Q : N → Type 0) where
  pub find-All : (ns : List N) (k : K) (n : N) → All Q ns → find ops ns k ≡ some n → Q n
  find-All [] k n h found = cc
  find-All (m ∷ ns) k n h found = elim (Bool-cases (is_eq (ops.compare_key m k))) [
    | inl here ↦ subst Q (some-injective m n (rw here at found)) h.0
    | inr later ↦ find-All ns k n h.1 (rw later at found)
  ]

  insert-All : (ns : List N) (n : N) → All Q ns → Q n → All Q (insert ops ns n)
  insert-All [] n h q = (q, tt)
  insert-All (m ∷ ns) n h q = elim (Bool-cases (is_lt (ops.compare_nodes n m))) [
    | inl before ↦ rw before (q, h)
    | inr after ↦ rw after (h.0, insert-All ns n h.1 q)
  ]

  assign-All : (ns : List N) (k : K) (n : N) → All Q ns → Q n → All Q (assign ops ns k n)
  assign-All [] k n h q = tt
  assign-All (m ∷ ns) k n h q = elim (Bool-cases (is_eq (ops.compare_key m k))) [
    | inl here ↦ rw here (q, h.1)
    | inr later ↦ rw later (h.0, assign-All ns k n h.1 q)
  ]

module _ (rb : RbTree) (L : IsRbTree rb) {N K : Type 0} (ops : Ops N K) (keyed : IsKeyed ops)
    (Q : N → Type 0) (t : rb.Tree N) (k : K) (fresh : N) where
  pub value-All : All Q (rb.nodes t) → Q fresh → Q (find_or_create rb ops t k fresh).value
  unfolding find_or_create
  value-All h q = elim (Option-cases (rb.rb_tree_find_node ops t k)) [
    | inl absent ↦ rw (absent, find_or_create) q
    | inr (n, found) ↦
        rw (found, find_or_create)
          (find-All ops Q (rb.nodes t) k n h (sym (L.find-nodes ops keyed t k) ∙ found))
  ]

  -- A write through the pointer keeps what holds of every node, if the written node has it.
  pub find_or_create-All :
      (m : N)
      → ops.compare_key fresh k ≡ Ordering.eq
      → ops.compare_key m k ≡ Ordering.eq
      → All Q (rb.nodes t)
      → Q fresh
      → Q m
      → All Q (rb.nodes ((find_or_create rb ops t k fresh).write m))
  unfolding find_or_create
  find_or_create-All m new same h q r = elim (Option-cases (rb.rb_tree_find_node ops t k)) [
    | inl absent ↦
        let absent' : rb.rb_tree_find_node ops t (keyed.key fresh) ≡ none =
          L.find-nodes ops keyed t _
          ∙ find_same ops keyed (rb.nodes t) fresh (keyed.key fresh) k (own_key ops keyed fresh) new
          ∙ sym (L.find-nodes ops keyed t k)
          ∙ absent in
        rw (absent, find_or_create)
          (subst (All Q)
            (sym (L.nodes-write ops keyed (rb.rb_tree_insert_node ops t fresh) k m same))
            (assign-All ops Q _ k m
              (subst (All Q) (sym (L.nodes-insert ops keyed t fresh absent'))
                (insert-All ops Q (rb.nodes t) fresh h q))
              r))
    | inr (n, found) ↦
        rw (found, find_or_create)
          (subst (All Q) (sym (L.nodes-write ops keyed t k m same))
            (assign-All ops Q (rb.nodes t) k m h r))
  ]
