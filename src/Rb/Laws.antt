-- ===== src/Rb/Laws.antt =====
-- What a tree answers after an insertion or a write, for every tree that keeps to rbtree(3).
use dedup.Prelude.{
  ◌≡◌, refl, sym, ◌∙◌, ap, Option, none, some, List, [], ◌∷◌, Ordering, arith, Option-cases, inl,
  inr, Bool, ◌&&◌, length, if◌then◌else◌,
}
use dedup.Rb.{Ops, IsKeyed, find, insert, assign, RbTree, IsRbTree, find_or_create}
use dedup.Rb.Order.{is_eq, cmp_same_right}

-- A search that goes on in what hangs under the node that was found.
abbrev pub descend : {N C X : Type 0} → (N → C) → (C → Option X) → Option N → Option X
descend children sub none = none
descend children sub (some n) = sub (children n)

module _ {N K : Type 0} (ops : Ops N K) (keyed : IsKeyed ops) where
  -- Two nodes of one key compare alike with every key.
  pub same_key :
      (m n : N) (k j : K)
      → ops.compare_key m k ≡ Ordering.eq
      → ops.compare_key n k ≡ Ordering.eq
      → ops.compare_key m j ≡ ops.compare_key n j
  same_key m n k j h g =
      keyed.by_key m j
      ∙ keyed.order.cmp_same (keyed.key m) k j (sym (keyed.by_key m k) ∙ h)
      ∙ sym (keyed.order.cmp_same (keyed.key n) k j (sym (keyed.by_key n k) ∙ g))
      ∙ sym (keyed.by_key n j)

  pub own_key : (n : N) → ops.compare_key n (keyed.key n) ≡ Ordering.eq
  own_key n = keyed.by_key n (keyed.key n) ∙ keyed.order.cmp_self (keyed.key n)

  pub find-insert :
      (ns : List N) (n : N) (j : K)
      → find ops ns (keyed.key n) ≡ none
      → find ops (insert ops ns n) j
        ≡ (if is_eq (ops.compare_key n j) then some n else find ops ns j)
  find-insert [] n j absent = refl
  find-insert (m ∷ ns) n j absent =
      ground (arith, own_key n, same_key m n j (keyed.key n), find-insert ns n j)

  pub find-assign :
      (ns : List N) (k : K) (n x : N) (j : K)
      → ops.compare_key n k ≡ Ordering.eq
      → find ops ns k ≡ some x
      → find ops (assign ops ns k n) j
        ≡ (if is_eq (ops.compare_key n j) then some n else find ops ns j)
  find-assign [] k n x j same found = cc
  find-assign (m ∷ ns) k n x j same found =
      ground (arith, same_key m n k j, same_key m n j k, find-assign ns k n x j)

  -- What is found under a key has that key.
  pub find_key :
      (ns : List N) (k : K) (n : N) → find ops ns k ≡ some n → ops.compare_key n k ≡ Ordering.eq
  find_key [] k n found = cc
  find_key (m ∷ ns) k n found = ground (arith, find_key ns k n)

  pub find_same :
      (ns : List N) (m : N) (k j : K)
      → ops.compare_key m k ≡ Ordering.eq
      → ops.compare_key m j ≡ Ordering.eq
      → find ops ns k ≡ find ops ns j
  find_same [] m k j h g = refl
  find_same (n ∷ ns) m k j h g =
      ground (arith, same_key m n k j, same_key m n j k, find_same ns m k j)

  -- Keys that compare as equal find the same node.
  pub find_cong :
      (ns : List N) (k j : K) → keyed.cmp k j ≡ Ordering.eq → find ops ns k ≡ find ops ns j
  find_cong [] k j same = refl
  find_cong (n ∷ ns) k j same =
      let alike : ops.compare_key n k ≡ ops.compare_key n j =
        keyed.by_key n k
        ∙ cmp_same_right keyed.cmp keyed.order k j (keyed.key n) same
        ∙ sym (keyed.by_key n j) in
      rw (alike, find_cong ns k j same)

module _ (rb : RbTree) (L : IsRbTree rb) {N K : Type 0} (ops : Ops N K) (keyed : IsKeyed ops)
    (t : rb.Tree N) where
  pub find_node_cong :
      (k j : K)
      → keyed.cmp k j ≡ Ordering.eq
      → rb.rb_tree_find_node ops t k ≡ rb.rb_tree_find_node ops t j
  find_node_cong k j same =
      L.find-nodes ops keyed t k
      ∙ find_cong ops keyed (rb.nodes t) k j same
      ∙ sym (L.find-nodes ops keyed t j)

  pub find_node-init : (k : K) → rb.rb_tree_find_node ops rb.rb_tree_init k ≡ none
  find_node-init k = L.find-nodes ops keyed _ k ∙ ap (λ ns. find ops ns k) L.nodes-init

  pub find_node-insert :
      (n : N) (j : K)
      → rb.rb_tree_find_node ops t (keyed.key n) ≡ none
      → rb.rb_tree_find_node ops (rb.rb_tree_insert_node ops t n) j
        ≡ (if is_eq (ops.compare_key n j) then some n else rb.rb_tree_find_node ops t j)
  find_node-insert n j absent =
      L.find-nodes ops keyed _ j
      ∙ ap (λ ns. find ops ns j) (L.nodes-insert ops keyed t n absent)
      ∙ find-insert ops keyed (rb.nodes t) n j (sym (L.find-nodes ops keyed t _) ∙ absent)
      ∙ ap (λ o. if is_eq (ops.compare_key n j) then some n else o)
          (sym (L.find-nodes ops keyed t j))

  pub find_node-write :
      (k : K) (n x : N) (j : K)
      → ops.compare_key n k ≡ Ordering.eq
      → rb.rb_tree_find_node ops t k ≡ some x
      → rb.rb_tree_find_node ops (rb.write_node ops t k n) j
        ≡ (if is_eq (ops.compare_key n j) then some n else rb.rb_tree_find_node ops t j)
  find_node-write k n x j same found =
      L.find-nodes ops keyed _ j
      ∙ ap (λ ns. find ops ns j) (L.nodes-write ops keyed t k n same)
      ∙ find-assign ops keyed (rb.nodes t) k n x j same (sym (L.find-nodes ops keyed t k) ∙ found)
      ∙ ap (λ o. if is_eq (ops.compare_key n j) then some n else o)
          (sym (L.find-nodes ops keyed t j))

module _ (rb : RbTree) (L : IsRbTree rb) {N K : Type 0} (ops : Ops N K) (keyed : IsKeyed ops)
    (t : rb.Tree N) (fresh : N) where
  -- A write through the pointer is seen under its key, and nowhere else.
  pub find_node-find_or_create :
      (m : N) (k j : K)
      → ops.compare_key fresh k ≡ Ordering.eq
      → ops.compare_key m k ≡ Ordering.eq
      → rb.rb_tree_find_node ops ((find_or_create rb ops t k fresh).write m) j
        ≡ (if is_eq (ops.compare_key m j) then some m else rb.rb_tree_find_node ops t j)
  unfolding find_or_create
  find_node-find_or_create m k j new same = elim (Option-cases (rb.rb_tree_find_node ops t k)) [
    | inl absent ↦
        let absent' : rb.rb_tree_find_node ops t (keyed.key fresh) ≡ none =
          L.find-nodes ops keyed t _
          ∙ find_same ops keyed (rb.nodes t) fresh (keyed.key fresh) k (own_key ops keyed fresh) new
          ∙ sym (L.find-nodes ops keyed t k)
          ∙ absent in
        let t' : rb.Tree N = rb.rb_tree_insert_node ops t fresh in
        let found : rb.rb_tree_find_node ops t' k ≡ some fresh =
          rw new at (find_node-insert rb L ops keyed t fresh k absent') in
        rw (absent, find_or_create)
          (ground (
            arith,
            find_node-write rb L ops keyed t' k m fresh j same found,
            find_node-insert rb L ops keyed t fresh j absent',
            same_key ops keyed m fresh k j same new,
          ))
    | inr (x, found) ↦
        rw (found, find_or_create) (find_node-write rb L ops keyed t k m x j same found)
  ]

  -- The pointer is to the node of the key, or to the new one.
  pub value-find_or_create :
      (k : K)
      → (find_or_create rb ops t k fresh).value
        ≡ elim (rb.rb_tree_find_node ops t k) [ none ↦ fresh | some n ↦ n ]
  unfolding find_or_create
  value-find_or_create k = ground arith

  pub find_or_create_key :
      (k : K)
      → ops.compare_key fresh k ≡ Ordering.eq
      → ops.compare_key (find_or_create rb ops t k fresh).value k ≡ Ordering.eq
  unfolding find_or_create
  find_or_create_key k new = elim (Option-cases (rb.rb_tree_find_node ops t k)) [
    | inl absent ↦ rw (absent, find_or_create) new
    | inr (n, found) ↦
        rw (found, find_or_create)
          (find_key ops keyed (rb.nodes t) k n (sym (L.find-nodes ops keyed t k) ∙ found))
  ]

  find_node_same :
      (m : N) (k j : K)
      → ops.compare_key m k ≡ Ordering.eq
      → ops.compare_key m j ≡ Ordering.eq
      → rb.rb_tree_find_node ops t k ≡ rb.rb_tree_find_node ops t j
  find_node_same m k j h g =
      L.find-nodes ops keyed t k
      ∙ find_same ops keyed (rb.nodes t) m k j h g
      ∙ sym (L.find-nodes ops keyed t j)

  module _ {C X : Type 0} (children : N → C) (sub : C → Option X) where
    -- If a write below changes one answer of the search below, so does the search from here.
    pub descend-find_or_create :
        (k j : K) (m : N) (here : Bool) (x : X)
        → ops.compare_key fresh k ≡ Ordering.eq
        → ops.compare_key m k ≡ Ordering.eq
        → sub (children fresh) ≡ none
        → sub (children m)
          ≡ (if here then some x else sub (children (find_or_create rb ops t k fresh).value))
        → descend children sub
            (rb.rb_tree_find_node ops ((find_or_create rb ops t k fresh).write m) j)
          ≡ (if is_eq (ops.compare_key m j) && here
              then some x
              else descend children sub (rb.rb_tree_find_node ops t j))
    descend-find_or_create k j m here x new same empty below =
        let below' = rw (value-find_or_create k) at below in
        rw (find_node-find_or_create m k j new same)
          (ground (arith, below', empty, find_node_same m k j same))

pub find-nil_of_length :
    {N K : Type 0} (ops : Ops N K) (ns : List N) (k : K) → length ns ≡ 0 → find ops ns k ≡ none
find-nil_of_length ops [] k h = refl
find-nil_of_length ops (n ∷ ns) k h = absurd (omega arith)
