-- ===== src/AList.antt =====
-- alist.c, alist.h: the growable array `AList`. A `void *` is an `Option A`, and NULL is `none`.
-- `malloc` and `realloc` are taken to succeed; a slot that nothing has written reads as NULL.
pub mod View
pub mod Removing
use dedup.Prelude.{
  ℕ, zero, suc, ◌+◌, ◌-◌, ◌*◌, ◌/◌, ◌%◌, ◌^◌, Bool, Option, none, some, List, [], ◌∷◌, ltb, leb,
  ◌==◌, if◌then◌else◌, get_or, set, replicate,
}

-- Values of `size_t` lie below this.
abbrev pub size_mod : ℕ
size_mod = 2 ^ 64

-- The pointers that fit into `sizeof(void *) * n` bytes, the product being one of `size_t`.
abbrev pub slots : ℕ → ℕ
slots n = 8 * n % size_mod / 8

pub record AList {ℓ} (A : Type ℓ) : Type ℓ where
  pub size : ℕ
  pub capacity : ℕ
  pub elements : List (Option A)

abbrev pub default_capacity : ℕ
default_capacity = 8

module _ {ℓ} {A : Type ℓ} where
  -- What `realloc` keeps of a block of pointers, and the unwritten slots it adds.
  unfoldable pub realloc : ℕ → List (Option A) → List (Option A)
  realloc zero es = []
  realloc (suc n) [] = none ∷ realloc n []
  realloc (suc n) (e ∷ es) = e ∷ realloc n es

  unfoldable pub new_alist_with_capacity : ℕ → AList A
  new_alist_with_capacity initial = record {
    size = 0;
    capacity = initial;
    elements = replicate (slots initial) none;
  }

  unfoldable pub new_alist : AList A
  unfolding new_alist_with_capacity
  new_alist = new_alist_with_capacity default_capacity

  -- One round of the loop of `alist_ensure`.
  unfoldable pub grow : AList A → AList A
  unfolding realloc
  grow list =
      let new_capacity : ℕ = list.capacity * 2 % size_mod in
      record list { elements = realloc (slots new_capacity) list.elements; capacity = new_capacity }

  -- `none` means that the rounds given did not suffice.
  unfoldable pub ensure_loop : ℕ → AList A → ℕ → Option (AList A)
  unfolding grow
  ensure_loop zero list required = none
  ensure_loop (suc rounds) list required =
      let rest = ensure_loop rounds (grow list) required in
      if ltb list.capacity required then rest else some list

  -- A capacity that is not 0 doubles in each round, so that more rounds are never needed.
  unfoldable pub alist_ensure : AList A → ℕ → Option (AList A)
  unfolding ensure_loop
  alist_ensure list required = ensure_loop (suc required) list required

  unfoldable pub alist_size : AList A → ℕ
  alist_size list = list.size

  unfoldable pub alist_empty : AList A → Bool
  alist_empty list = list.size == 0

  unfoldable pub alist_get : AList A → ℕ → Option A
  alist_get list index = if leb list.size index then none else get_or list.elements index none

  unfoldable pub alist_add : AList A → Option A → Option (AList A)
  alist_add list item = elim (alist_ensure list ((list.size + 1) % size_mod)) [
    | none ↦ none
    | some grown ↦ some (record grown {
      elements = set grown.elements grown.size item;
      size = (grown.size + 1) % size_mod;
    })
  ]

  unfoldable pub alist_set : AList A → ℕ → Option A → AList A
  alist_set list index item =
      if leb list.size index then list else record list { elements = set list.elements index item }

  -- `for (i = index + 1; i < size; i++) elements[i - 1] = elements[i]`, by the rounds left.
  unfoldable pub shift_loop : ℕ → ℕ → List (Option A) → List (Option A)
  shift_loop zero i es = es
  shift_loop (suc rounds) i es = shift_loop rounds (i + 1) (set es (i - 1) (get_or es i none))

  unfoldable pub alist_remove : AList A → ℕ → Option A × AList A
  unfolding shift_loop
  alist_remove list index = if leb list.size index then (none, list) else (
    get_or list.elements index none,
    record list {
      elements = shift_loop (list.size - (index + 1)) (index + 1) list.elements;
      size = list.size - 1;
    },
  )
