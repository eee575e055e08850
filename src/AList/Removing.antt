-- ===== src/AList/Removing.antt =====
-- `alist_remove`, whose loop moves the later items down by one.
use dedup.Prelude.{
  ℕ, zero, suc, ◌+◌, ◌-◌, ◌≤◌, ◌<◌, ◌≡◌, refl, sym, ◌∙◌, ap, Option, none, List, [], ◌∷◌, arith,
  Bool-cases, inl, inr, length, get_or, take, remove_at, length-set, get_or-take, get_or-short,
  remove_at-short, leb,
}
use dedup.AList.{AList, shift_loop, alist_remove}
use dedup.AList.View.{IsAList, to_list, short}

module _ {ℓ} {A : Type ℓ} where
  length-shift_loop : (k i : ℕ) (es : List (Option A)) → length (shift_loop k i es) ≡ length es
  unfolding shift_loop
  length-shift_loop zero i es = refl
  length-shift_loop (suc k) i es = length-shift_loop k (i + 1) _ ∙ length-set es (i - 1) _

  shift_loop-cons :
      (k j : ℕ) (e : Option A) (es : List (Option A))
      → shift_loop k (suc (suc j)) (e ∷ es) ≡ e ∷ shift_loop k (suc j) es
  unfolding shift_loop
  shift_loop-cons zero j e es = refl
  shift_loop-cons (suc k) j e es =
      let up : suc (suc j) + 1 ≡ suc (suc (suc j)) = omega arith in
      let down : suc (suc j) - 1 ≡ suc j = omega arith in
      let up' : suc j + 1 ≡ suc (suc j) = omega arith in
      let down' : suc j - 1 ≡ j = omega arith in
      rw (up, down, up', down') (shift_loop-cons k (suc j) e _)

  take-shift_loop :
      (k : ℕ) (e : Option A) (es : List (Option A))
      → k ≤ length es
      → take k (shift_loop k 1 (e ∷ es)) ≡ take k es
  unfolding shift_loop
  take-shift_loop zero e es h = refl
  take-shift_loop (suc k) e [] h = absurd (omega arith)
  take-shift_loop (suc k) e (f ∷ es) h =
      rw (shift_loop-cons k 0 f (f ∷ es)) (ap (λ r. f ∷ r) (take-shift_loop k f es (omega arith)))

  take-shift_loop_from :
      (m i : ℕ) (es : List (Option A))
      → i ≤ m
      → m < length es
      → take m (shift_loop (m - i) (suc i) es) ≡ remove_at i (take (suc m) es)
  take-shift_loop_from m i [] h g = absurd (omega arith)
  take-shift_loop_from m zero (e ∷ es) h g =
      let all : m - 0 ≡ m = omega arith in rw all (take-shift_loop m e es (omega arith))
  take-shift_loop_from zero (suc i) (e ∷ es) h g = absurd (omega arith)
  take-shift_loop_from (suc m) (suc i) (e ∷ es) h g =
      let same : suc m - suc i ≡ m - i = omega arith in
      rw (same, shift_loop-cons (m - i) i e es)
        (ap (λ r. e ∷ r) (take-shift_loop_from m i es (omega arith) (omega arith)))

  -- Removing gives back the item, and leaves the list without it and in good order. Out of range
  -- it gives NULL and changes nothing.
  pub alist_remove-to_list :
      (list : AList A) (index : ℕ)
      → IsAList list
      → ((alist_remove list index).0 ≡ get_or (to_list list) index none)
        × IsAList (alist_remove list index).1
        × (to_list (alist_remove list index).1 ≡ remove_at index (to_list list))
  unfolding alist_remove
  alist_remove-to_list list index v = elim (Bool-cases (leb list.size index)) [
    | inl out ↦ rw out (
      sym (get_or-short (to_list list) index none (short list index v out)),
      v,
      sym (remove_at-short (to_list list) index (short list index v out)),
    )
    | inr inside ↦
        let lt : index < list.size = ground arith in
        let rounds : list.size - (index + 1) ≡ list.size - 1 - index = omega arith in
        let from : index + 1 ≡ suc index = omega arith in
        let size : suc (list.size - 1) ≡ list.size = omega arith in
        rw inside (
          sym (get_or-take list.size list.elements index none lt),
          record {
            positive = v.positive;
            fits = omega arith;
            countable = v.countable;
            allocated =
                length-shift_loop (list.size - (index + 1)) (index + 1) list.elements ∙ v.allocated;
          },
          rw (rounds, from)
              (take-shift_loop_from (list.size - 1) index list.elements (omega arith) (omega arith)
                ∙ ap (λ n. remove_at index (take n list.elements)) size),
        )
  ]
