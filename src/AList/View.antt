-- ===== src/AList/View.antt =====
-- What an `AList` means, and what its operations do to that: the list of its first `size` slots.
use dedup.Prelude.{
  ℕ, zero, suc, ◌+◌, ◌*◌, ◌^◌, ◌≤◌, ◌<◌, ◌≡◌, refl, sym, ◌∙◌, ap, Option, none, some, List, [], ◌∷◌,
  ◌++◌, arith, ltb, ltb→lt, Bool-cases, inl, inr, length, get_or, set, take, length-set,
  length-replicate, get_or-take, get_or-short, set-short, length-take, leb, leb→le, true, ◌%◌,
  lt→ltb, take-set_end, take-set,
}
use dedup.AList.{
  AList, size_mod, realloc, grow, new_alist_with_capacity, ensure_loop, alist_ensure, alist_get,
  alist_add, alist_set,
}

-- The bytes of a block are counted without wrapping, and the slots in use lie in the block.
pub record IsAList {ℓ} {A : Type ℓ} (list : AList A) : Type ℓ where
  pub positive : 0 < list.capacity
  pub fits : list.size ≤ list.capacity
  pub countable : list.capacity < 2 ^ 61
  pub allocated : length list.elements ≡ list.capacity

module _ {ℓ} {A : Type ℓ} where
  abbrev pub to_list : AList A → List (Option A)
  to_list list = take list.size list.elements

  length-realloc : (n : ℕ) (es : List (Option A)) → length (realloc n es) ≡ n
  unfolding realloc
  length-realloc zero es = refl
  length-realloc (suc n) [] = ap suc (length-realloc n [])
  length-realloc (suc n) (e ∷ es) = ap suc (length-realloc n es)

  take-realloc :
      (k n : ℕ) (es : List (Option A)) → k ≤ n → k ≤ length es → take k (realloc n es) ≡ take k es
  unfolding realloc
  take-realloc zero n es h g = refl
  take-realloc (suc k) zero es h g = absurd (omega arith)
  take-realloc (suc k) (suc n) [] h g = absurd (omega arith)
  take-realloc (suc k) (suc n) (e ∷ es) h g =
      ap (λ r. e ∷ r) (take-realloc k n es (omega arith) (omega arith))

  pub new_alist-IsAList : (n : ℕ) → 0 < n → n < 2 ^ 61 → IsAList (new_alist_with_capacity {A = A} n)
  unfolding new_alist_with_capacity
  new_alist-IsAList n h g = record {
    positive = h;
    fits = omega arith;
    countable = g;
    allocated = length-replicate _ _ ∙ omega arith;
  }

  -- One round keeps the meaning and doubles the capacity.
  grow-IsAList : (list : AList A) → IsAList list → list.capacity < 2 ^ 60 → IsAList (grow list)
  unfolding grow
  grow-IsAList list v h = record {
    positive = omega arith;
    fits = omega arith;
    countable = omega arith;
    allocated = length-realloc _ list.elements ∙ omega arith;
  }

  grow-capacity :
      (list : AList A) → list.capacity < 2 ^ 60 → (grow list).capacity ≡ list.capacity * 2
  unfolding grow
  grow-capacity list h = omega arith

  grow-size : (list : AList A) → (grow list).size ≡ list.size
  unfolding grow
  grow-size list = refl

  to_list-grow :
      (list : AList A) → IsAList list → list.capacity < 2 ^ 60 → to_list (grow list) ≡ to_list list
  unfolding grow
  to_list-grow list v h =
      take-realloc list.size _ list.elements (omega arith) (omega (arith, v.allocated))

  -- What `alist_ensure` promises of the list that it leaves.
  pub record IsEnsured (list : AList A) (required : ℕ) (grown : AList A) : Type ℓ where
    pub valid : IsAList grown
    pub roomy : required ≤ grown.capacity
    pub same_size : grown.size ≡ list.size
    pub same_list : to_list grown ≡ to_list list

  ensure_loop-IsEnsured :
      (rounds : ℕ) (list : AList A) (required : ℕ)
      → IsAList list
      → required ≤ 2 ^ 60
      → required < rounds + list.capacity
      → 0 < rounds
      → (grown : AList A) × (ensure_loop rounds list required ≡ some grown)
        × IsEnsured list required grown
  unfolding ensure_loop
  ensure_loop-IsEnsured zero list required v small enough some_round = absurd (omega arith)
  ensure_loop-IsEnsured (suc rounds) list required v small enough some_round =
      elim (Bool-cases (ltb list.capacity required)) [
        | inl more ↦
            let lt : list.capacity < required = ltb→lt _ _ more in
            let wide : list.capacity < 2 ^ 60 = omega arith in
            let cap : (grow list).capacity ≡ list.capacity * 2 = grow-capacity list wide in
            let (grown, run, good) =
              ensure_loop-IsEnsured rounds (grow list) required (grow-IsAList list v wide) small
                (omega (arith, v.positive)) (omega (arith, v.positive)) in
            (
              grown,
              rw more run,
              record {
                valid = good.valid;
                roomy = good.roomy;
                same_size = good.same_size ∙ grow-size list;
                same_list = good.same_list ∙ to_list-grow list v wide;
              },
            )
        | inr done ↦ (
          list,
          rw done,
          record { valid = v; roomy = ground arith; same_size = refl; same_list = refl },
        )
      ]

  -- `alist_ensure` ends, for every list in good order.
  pub alist_ensure-IsEnsured :
      (list : AList A) (required : ℕ)
      → IsAList list
      → required ≤ 2 ^ 60
      → (grown : AList A) × (alist_ensure list required ≡ some grown)
        × IsEnsured list required grown
  unfolding alist_ensure
  alist_ensure-IsEnsured list required v small =
      ensure_loop-IsEnsured (suc required) list required v small (omega (arith, v.positive))
        (omega arith)

  -- A list with no capacity is never given any, whatever the number of rounds.
  pub ensure_loop-no_capacity :
      (rounds : ℕ) (list : AList A) (required : ℕ)
      → list.capacity ≡ 0
      → 0 < required
      → ensure_loop rounds list required ≡ none
  unfolding ensure_loop
  ensure_loop-no_capacity zero list required empty some_required = refl
  ensure_loop-no_capacity (suc rounds) list required empty some_required =
      rw (lt→ltb list.capacity required (omega arith))
        (ensure_loop-no_capacity rounds (grow list) required (omega arith) some_required)

  alist_add_of_ensured :
      (list grown : AList A) (item : Option A)
      → alist_ensure list ((list.size + 1) % size_mod) ≡ some grown
      → alist_add list item
        ≡ some (record grown {
          elements = set grown.elements grown.size item;
          size = (grown.size + 1) % size_mod;
        })
  unfolding alist_add
  alist_add_of_ensured list grown item run = rw (run, alist_add)

  -- Appending always succeeds, keeps the list in good order and adds one item at the end.
  pub alist_add_lem :
      (list : AList A) (item : Option A)
      → IsAList list
      → list.size < 2 ^ 59
      → (longer : AList A) × (alist_add list item ≡ some longer)
        × IsAList longer
        × (to_list longer ≡ to_list list ++ item ∷ [])
        × (longer.size ≡ list.size + 1)
  alist_add_lem list item v small =
      let word : (list.size + 1) % size_mod ≡ list.size + 1 = omega arith in
      let (grown, run, good) =
        alist_ensure-IsEnsured list ((list.size + 1) % size_mod) v (omega arith) in
      let size : grown.size ≡ list.size = good.same_size in
      let next : (grown.size + 1) % size_mod ≡ suc grown.size = omega arith in
      let room : grown.size < length grown.elements =
        omega (arith, good.roomy, good.valid.allocated) in
      (
        record grown {
          elements = set grown.elements grown.size item;
          size = (grown.size + 1) % size_mod;
        },
        alist_add_of_ensured list grown item run,
        record {
          positive = good.valid.positive;
          fits = omega (arith, good.roomy);
          countable = good.valid.countable;
          allocated = length-set grown.elements grown.size item ∙ good.valid.allocated;
        },
        rw next (
            take-set_end grown.size grown.elements item room
            ∙ ap (λ r. r ++ item ∷ []) good.same_list),
        omega (arith, size),
      )

  -- An index out of range is behind the list.
  pub short :
      (list : AList A) (index : ℕ)
      → IsAList list
      → leb list.size index ≡ true
      → length (to_list list) ≤ index
  short list index v out = omega (
    arith,
    length-take list.size list.elements (omega (arith, v.allocated)),
    leb→le list.size index out,
  )

  -- Reading is reading the list, and NULL out of range.
  pub alist_get-to_list :
      (list : AList A) (index : ℕ)
      → IsAList list
      → alist_get list index ≡ get_or (to_list list) index none
  unfolding alist_get
  alist_get-to_list list index v = elim (Bool-cases (leb list.size index)) [
    | inl out ↦ rw out (sym (get_or-short (to_list list) index none (short list index v out)))
    | inr inside ↦ rw inside (sym (get_or-take list.size list.elements index none (ground arith)))
  ]

  -- Writing is writing to the list, and nothing out of range.
  pub alist_set-to_list :
      (list : AList A) (index : ℕ) (item : Option A)
      → IsAList list
      → IsAList (alist_set list index item)
        × (to_list (alist_set list index item) ≡ set (to_list list) index item)
  unfolding alist_set
  alist_set-to_list list index item v = elim (Bool-cases (leb list.size index)) [
    | inl out ↦ rw out (v, sym (set-short (to_list list) index item (short list index v out)))
    | inr inside ↦ rw inside (
      record {
        positive = v.positive;
        fits = v.fits;
        countable = v.countable;
        allocated = length-set list.elements index item ∙ v.allocated;
      },
      take-set list.size list.elements index item,
    )
  ]
