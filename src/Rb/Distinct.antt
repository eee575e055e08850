-- ===== src/Rb/Distinct.antt =====
-- No two nodes of a tree have the same key, through insertions and writes.
use mathlib.Core.List.Memᴰ
use mathlib.Core.List.{Memᴰ}
use dedup.Prelude.{
  ◌≡◌, refl, sym, ◌∙◌, ap, subst, none, some, List, [], ◌∷◌, Ordering, Bool-cases, Option-cases,
  arith, true, inl, inr,
}
use dedup.Rb.{Ops, IsKeyed, find, insert, assign, RbTree, IsRbTree, find_or_create}
use dedup.Rb.Order.{is_eq, is_lt}
use dedup.Rb.Laws.{own_key, find_same, same_key, find-insert, find-assign}

module _ {N K : Type 0} (ops : Ops N K) (keyed : IsKeyed ops) where
  abbrev pub IsDistinct : List N → Type 0
  IsDistinct [] = Unit {0}
  IsDistinct (m ∷ ns) = (find ops ns (keyed.key m) ≡ none) × IsDistinct ns

  pub find-Memᴰ :
      (ns : List N) (n : N) → IsDistinct ns → Memᴰ n ns → find ops ns (keyed.key n) ≡ some n
  find-Memᴰ [] n distinct m = absurd (Memᴰ.not-nil m)
  find-Memᴰ (x ∷ ns) n distinct (Memᴰ.head e) =
      let same : ops.compare_key x (keyed.key n) ≡ Ordering.eq =
        subst (λ y. ops.compare_key x (keyed.key y) ≡ Ordering.eq) (sym e) (own_key ops keyed x) in
      rw same (ap some (sym e))
  find-Memᴰ (x ∷ ns) n (absent, distinct) (Memᴰ.tail m) =
      let later = find-Memᴰ ns n distinct m in
      elim (Bool-cases (is_eq (ops.compare_key x (keyed.key n)))) [
        | inl same ↦ absurd (
            ground (
              arith,
              later,
              find_same ops keyed ns x (keyed.key x) (keyed.key n) (own_key ops keyed x),
            ))
        | inr differ ↦ rw differ later
      ]

  -- A node that no other has the key of.
  insert-IsDistinct :
      (ns : List N) (n : N)
      → find ops ns (keyed.key n) ≡ none
      → IsDistinct ns
      → IsDistinct (insert ops ns n)
  insert-IsDistinct [] n absent distinct = (refl, tt)
  insert-IsDistinct (m ∷ ns) n absent (alone, distinct) =
      elim (Bool-cases (is_lt (ops.compare_nodes n m))) [
        | inl before ↦ rw before (absent, (alone, distinct))
        | inr after ↦ rw after (
          ground (
            arith,
            own_key ops keyed m,
            own_key ops keyed n,
            same_key ops keyed n m (keyed.key m) (keyed.key n),
            find-insert ops keyed ns n (keyed.key m),
          ),
          insert-IsDistinct ns n (ground arith) distinct,
        )
      ]

  assign-absent : (ns : List N) (k : K) (n : N) → find ops ns k ≡ none → assign ops ns k n ≡ ns
  assign-absent [] k n absent = refl
  assign-absent (m ∷ ns) k n absent = ground (arith, assign-absent ns k n)

  -- Two nodes of one key: each has the other's.
  alike :
      (m n : N) (k : K)
      → is_eq (ops.compare_key m k) ≡ true
      → ops.compare_key n k ≡ Ordering.eq
      → ops.compare_key m (keyed.key n) ≡ Ordering.eq
  alike m n k h g = ground (arith, same_key ops keyed m n k (keyed.key n), own_key ops keyed n)

  -- A write that keeps the key.
  assign-IsDistinct :
      (ns : List N) (k : K) (n : N)
      → ops.compare_key n k ≡ Ordering.eq
      → IsDistinct ns
      → IsDistinct (assign ops ns k n)
  assign-IsDistinct [] k n same distinct = tt
  assign-IsDistinct (m ∷ ns) k n same (alone, distinct) =
      elim (Bool-cases (is_eq (ops.compare_key m k))) [
        | inl here ↦ rw here (
          find_same ops keyed ns m (keyed.key n) (keyed.key m) (alike m n k here same)
                (own_key ops keyed m)
              ∙ alone,
          distinct,
        )
        | inr later ↦ rw later (
          elim (Option-cases (find ops ns k)) [
            | inl absent ↦ rw (assign-absent ns k n absent) alone
            | inr (x, found) ↦ ground (
              arith,
              find-assign ops keyed ns k n x (keyed.key m) same found,
              own_key ops keyed m,
              same_key ops keyed n m (keyed.key m) k,
            )
          ],
          assign-IsDistinct ns k n same distinct,
        )
      ]

module _ (rb : RbTree) (L : IsRbTree rb) {N K : Type 0} (ops : Ops N K) (keyed : IsKeyed ops)
    (t : rb.Tree N) (fresh : N) where
  -- A write through the pointer keeps the keys apart.
  pub find_or_create-IsDistinct :
      (m : N) (k : K)
      → ops.compare_key fresh k ≡ Ordering.eq
      → ops.compare_key m k ≡ Ordering.eq
      → IsDistinct ops keyed (rb.nodes t)
      → IsDistinct ops keyed (rb.nodes ((find_or_create rb ops t k fresh).write m))
  unfolding find_or_create
  find_or_create-IsDistinct m k new same distinct =
      elim (Option-cases (rb.rb_tree_find_node ops t k)) [
        | inl absent ↦
            let absent' : find ops (rb.nodes t) (keyed.key fresh) ≡ none =
              find_same ops keyed (rb.nodes t) fresh (keyed.key fresh) k (own_key ops keyed fresh)
                new
              ∙ sym (L.find-nodes ops keyed t k)
              ∙ absent in
            rw (absent, find_or_create)
              (subst (IsDistinct ops keyed)
                (sym (L.nodes-write ops keyed (rb.rb_tree_insert_node ops t fresh) k m same))
                (assign-IsDistinct ops keyed _ k m same (
                  subst (IsDistinct ops keyed)
                    (sym (L.nodes-insert ops keyed t fresh (L.find-nodes ops keyed t _ ∙ absent')))
                    (insert-IsDistinct ops keyed (rb.nodes t) fresh absent' distinct))))
        | inr (n, found) ↦
            rw (found, find_or_create)
              (subst (IsDistinct ops keyed) (sym (L.nodes-write ops keyed t k m same))
                (assign-IsDistinct ops keyed (rb.nodes t) k m same distinct))
      ]
