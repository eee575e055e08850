-- ===== src/Rb/Order.antt =====
-- What a comparison function has to be, and the two kinds of comparison that map.c makes.
use dedup.Prelude.{
  ℕ, zero, suc, ◌≡◌, refl, sym, ◌∙◌, ap, Bool, true, false, List, [], ◌∷◌, Ordering, arith, ltb,
  if◌then◌else◌,
}
use dedup.Prelude.Int.{ℤ, ltb_ℤ}

abbrev pub is_eq : Ordering → Bool
is_eq o = elim o [ Ordering.eq ↦ true | _ ↦ false ]

abbrev pub is_lt : Ordering → Bool
is_lt o = elim o [ Ordering.lt ↦ true | _ ↦ false ]

abbrev pub reverse_order : Ordering → Ordering
reverse_order o = elim o [
  | Ordering.lt ↦ Ordering.gt
  | Ordering.eq ↦ Ordering.eq
  | Ordering.gt ↦ Ordering.lt
]

-- A total order, up to the keys that compare as equal.
pub record IsOrder {K : Type 0} (cmp : K → K → Ordering) : Type 0 where
  pub cmp_self : (a : K) → cmp a a ≡ Ordering.eq
  pub cmp_reverse : (a b : K) → cmp b a ≡ reverse_order (cmp a b)
  pub cmp_same : (a b c : K) → cmp a b ≡ Ordering.eq → cmp a c ≡ cmp b c
  pub cmp_trans :
      (a b c : K) → cmp a b ≡ Ordering.lt → cmp b c ≡ Ordering.lt → cmp a c ≡ Ordering.lt

-- Keys that compare as equal compare alike with every key, on the other side as well.
pub cmp_same_right :
    {K : Type 0} (cmp : K → K → Ordering)
    → IsOrder cmp
    → (a b c : K) → cmp a b ≡ Ordering.eq
    → cmp c a ≡ cmp c b
cmp_same_right cmp order a b c h =
    order.cmp_reverse a c ∙ ap reverse_order (order.cmp_same a b c h) ∙ sym (order.cmp_reverse b c)

-- COMPARE_INT at an unsigned type.
unfoldable pub compare_int : ℕ → ℕ → Ordering
compare_int x y = if ltb x y then Ordering.lt else if ltb y x then Ordering.gt else Ordering.eq

-- COMPARE_INT at a signed type.
unfoldable pub compare_signed : ℤ → ℤ → Ordering
compare_signed x y =
    if ltb_ℤ x y then Ordering.lt else if ltb_ℤ y x then Ordering.gt else Ordering.eq

-- memcmp(3) of the first bytes of two arrays, by the sign of its result.
unfoldable pub memcmp : ℕ → List ℕ → List ℕ → Ordering
memcmp zero xs ys = Ordering.eq
memcmp (suc n) [] [] = Ordering.eq
memcmp (suc n) [] (y ∷ ys) = Ordering.lt
memcmp (suc n) (x ∷ xs) [] = Ordering.gt
memcmp (suc n) (x ∷ xs) (y ∷ ys) = elim (compare_int x y) [
  | Ordering.lt ↦ Ordering.lt
  | Ordering.eq ↦ memcmp n xs ys
  | Ordering.gt ↦ Ordering.gt
]

pub compare_int-eq : (a b : ℕ) → compare_int a b ≡ Ordering.eq → a ≡ b
unfolding compare_int
compare_int-eq a b h = ground arith

pub compare_signed-eq : (a b : ℤ) → compare_signed a b ≡ Ordering.eq → a ≡ b
unfolding compare_signed
compare_signed-eq a b h = ground arith

compare_int_trans :
    (a b c : ℕ)
    → compare_int a b ≡ Ordering.lt
    → compare_int b c ≡ Ordering.lt
    → compare_int a c ≡ Ordering.lt
unfolding compare_int
compare_int_trans a b c h g = ground arith

compare_int_self : (a : ℕ) → compare_int a a ≡ Ordering.eq
unfolding compare_int
compare_int_self a = ground arith

compare_int_reverse : (a b : ℕ) → compare_int b a ≡ reverse_order (compare_int a b)
unfolding compare_int
compare_int_reverse a b = ground arith

compare_int_same : (a b c : ℕ) → compare_int a b ≡ Ordering.eq → compare_int a c ≡ compare_int b c
compare_int_same a b c h = rw (compare_int-eq a b h)

pub compare_int-IsOrder : IsOrder compare_int
compare_int-IsOrder = record {
  cmp_self = compare_int_self;
  cmp_reverse = compare_int_reverse;
  cmp_same = compare_int_same;
  cmp_trans = compare_int_trans;
}

compare_signed_trans :
    (a b c : ℤ)
    → compare_signed a b ≡ Ordering.lt
    → compare_signed b c ≡ Ordering.lt
    → compare_signed a c ≡ Ordering.lt
unfolding compare_signed
compare_signed_trans a b c h g = ground arith

compare_signed_self : (a : ℤ) → compare_signed a a ≡ Ordering.eq
unfolding compare_signed
compare_signed_self a = ground arith

compare_signed_reverse : (a b : ℤ) → compare_signed b a ≡ reverse_order (compare_signed a b)
unfolding compare_signed
compare_signed_reverse a b = ground arith

compare_signed_same :
    (a b c : ℤ) → compare_signed a b ≡ Ordering.eq → compare_signed a c ≡ compare_signed b c
compare_signed_same a b c h = rw (compare_signed-eq a b h)

pub compare_signed-IsOrder : IsOrder compare_signed
compare_signed-IsOrder = record {
  cmp_self = compare_signed_self;
  cmp_reverse = compare_signed_reverse;
  cmp_same = compare_signed_same;
  cmp_trans = compare_signed_trans;
}

pub memcmp_self : (n : ℕ) (xs : List ℕ) → memcmp n xs xs ≡ Ordering.eq
unfolding memcmp
memcmp_self zero xs = refl
memcmp_self (suc n) [] = refl
memcmp_self (suc n) (x ∷ xs) = rw (compare_int_self x, memcmp) (memcmp_self n xs)

pub memcmp_reverse : (n : ℕ) (xs ys : List ℕ) → memcmp n ys xs ≡ reverse_order (memcmp n xs ys)
unfolding memcmp
memcmp_reverse zero xs ys = refl
memcmp_reverse (suc n) [] [] = refl
memcmp_reverse (suc n) [] (y ∷ ys) = refl
memcmp_reverse (suc n) (x ∷ xs) [] = refl
memcmp_reverse (suc n) (x ∷ xs) (y ∷ ys) =
    ground (arith, compare_int_reverse x y, memcmp_reverse n xs ys)

pub memcmp_same :
    (n : ℕ) (xs ys zs : List ℕ) → memcmp n xs ys ≡ Ordering.eq → memcmp n xs zs ≡ memcmp n ys zs
unfolding memcmp
memcmp_same zero xs ys zs h = refl
memcmp_same (suc n) [] [] zs h = refl
memcmp_same (suc n) [] (y ∷ ys) zs h = cc
memcmp_same (suc n) (x ∷ xs) [] zs h = cc
memcmp_same (suc n) (x ∷ xs) (y ∷ ys) [] h = refl
memcmp_same (suc n) (x ∷ xs) (y ∷ ys) (z ∷ zs) h =
    ground (arith, compare_int_same x y z, memcmp_same n xs ys zs)

pub memcmp_trans :
    (n : ℕ) (xs ys zs : List ℕ)
    → memcmp n xs ys ≡ Ordering.lt
    → memcmp n ys zs ≡ Ordering.lt
    → memcmp n xs zs ≡ Ordering.lt
unfolding memcmp
memcmp_trans zero xs ys zs h g = cc
memcmp_trans (suc n) [] [] zs h g = cc
memcmp_trans (suc n) [] (y ∷ ys) [] h g = cc
memcmp_trans (suc n) [] (y ∷ ys) (z ∷ zs) h g = refl
memcmp_trans (suc n) (x ∷ xs) [] zs h g = cc
memcmp_trans (suc n) (x ∷ xs) (y ∷ ys) [] h g = cc
memcmp_trans (suc n) (x ∷ xs) (y ∷ ys) (z ∷ zs) h g = ground (
  arith,
  compare_int-eq x y,
  compare_int-eq y z,
  compare_int_trans x y z,
  compare_int_same x y z,
  memcmp_trans n xs ys zs,
)

-- memcmp(3) orders byte arrays, at every length.
pub memcmp-IsOrder : (n : ℕ) → IsOrder (memcmp n)
memcmp-IsOrder n = record {
  cmp_self = memcmp_self n;
  cmp_reverse = memcmp_reverse n;
  cmp_same = memcmp_same n;
  cmp_trans = memcmp_trans n;
}
