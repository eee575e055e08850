-- ===== src/Double/Rounding.antt =====
-- Rounding to 53 bits keeps the order of numbers.
use native.Mathlib.Nat.{
  le-div_iff_mul-le, div-lt_iff_lt-mul, mul_comm, pow-suc, mul-lt-mul_of_pos_left, mul-mod_right,
  mul-div_cancel, mod-eq-sub-div-mul, div-mul-le_self,
}
use dedup.Prelude.{
  ℕ, zero, suc, ◌+◌, ◌*◌, ◌/◌, ◌%◌, ◌^◌, ◌≤◌, ◌<◌, ◌≡◌, true, refl, lt→ltb, ◌∙◌, false, ltb, arith,
  Bool-cases, inl, inr, ap, ltb→lt,
}
use dedup.Double.{round_even, round_53}

-- The rounded number is the quotient or the next one.
round_even-bounds : (n d : ℕ) → (n / d ≤ round_even n d) × (round_even n d ≤ n / d + 1)
unfolding round_even
round_even-bounds n d = (ground arith, ground arith)

-- With one quotient, the greater remainder is not rounded to less.
same_quotient : (n m d : ℕ) → n / d ≡ m / d → n % d ≤ m % d → round_even n d ≤ round_even m d
unfolding round_even
same_quotient n m d quotients le = ground arith

pub quotient_mono : (n m d : ℕ) → 0 < d → n ≤ m → n / d ≤ m / d
quotient_mono n m d pos le =
    (le-div_iff_mul-le {k = d} {x = n / d} {y = m} pos).1 (omega (arith, div-mul-le_self n d))

pub round_even_mono : (n m d : ℕ) → 0 < d → n ≤ m → round_even n d ≤ round_even m d
round_even_mono n m d pos le = elim (Bool-cases (ltb (n / d) (m / d))) [
  | inl less ↦
      omega
        (arith, (round_even-bounds n d).1, (round_even-bounds m d).0, ltb→lt (n / d) (m / d) less)
  | inr same ↦
      let quotients : n / d ≡ m / d = ground (arith, quotient_mono n m d pos le) in
      same_quotient n m d quotients
        (omega (arith, mod-eq-sub-div-mul n d, mod-eq-sub-div-mul m d, ap (λ q. q * d) quotients))
]

round_even-le : (n d k : ℕ) → 0 < d → n < d * k → round_even n d ≤ k
round_even-le n d k pos less =
    let small : n / d < k = (div-lt_iff_lt-mul {k = d} {x = n} {y = k} pos).1 (grind arith) in
    omega (arith, (round_even-bounds n d).1, small)

le-round_even : (n d k : ℕ) → 0 < d → d * k ≤ n → k ≤ round_even n d
le-round_even n d k pos le =
    let large : k ≤ n / d = (le-div_iff_mul-le {k = d} {x = k} {y = n} pos).1 (grind arith) in
    omega (arith, (round_even-bounds n d).0, large)

-- What is not below 2^52 is not rounded below it.
le-round_53 : (rounds n d : ℕ) → 0 < d → d * 2 ^ 52 ≤ n → 2 ^ 52 ≤ round_53 rounds n d
unfolding round_53
le-round_53 zero n d pos le = le-round_even n d (2 ^ 52) pos le
le-round_53 (suc rounds) n d pos le = elim (Bool-cases (ltb n (d * 2 ^ 53))) [
  | inl small ↦ rw small (le-round_even n d (2 ^ 52) pos le)
  | inr large ↦
      rw large (
        let rest = le-round_53 rounds n (2 * d) (omega arith) (ground arith) in omega (arith, rest))
]

pub round_53_mono : (rounds n m d : ℕ) → 0 < d → n ≤ m → round_53 rounds n d ≤ round_53 rounds m d
unfolding round_53
round_53_mono zero n m d pos le = round_even_mono n m d pos le
round_53_mono (suc rounds) n m d pos le = elim (Bool-cases (ltb n (d * 2 ^ 53))) [
  | inl small ↦ elim (Bool-cases (ltb m (d * 2 ^ 53))) [
    | inl small' ↦ rw (small, small') (round_even_mono n m d pos le)
    | inr large' ↦
        let rest = le-round_53 rounds m (2 * d) (omega arith) (ground arith) in
        let below = round_even-le n d (2 ^ 53) pos (ltb→lt n (d * 2 ^ 53) small) in
        rw (small, large') (omega (arith, rest, below))
  ]
  | inr large ↦
      let large' : ltb m (d * 2 ^ 53) ≡ false = ground arith in
      rw (large, large') (omega (arith, round_53_mono rounds n m (2 * d) (omega arith) le))
]

pub round_even-exact : (d x : ℕ) → 0 < d → round_even (d * x) d ≡ x
unfolding round_even
round_even-exact d x pos =
    let quotient : d * x / d ≡ x = ap (λ n. n / d) (mul_comm d x) ∙ mul-div_cancel x pos in
    let rest : d * x % d ≡ 0 = mul-mod_right d x in rw (quotient, rest, lt→ltb 0 d pos) refl

regroup : (d c p : ℕ) → d * (c * (p * 2)) ≡ 2 * d * (c * p)
regroup d c p = grind arith

-- What has 53 significant bits is not rounded.
pub round_53-exact :
    (rounds d c k : ℕ) → 0 < d → c < 2 ^ 53 → round_53 rounds (d * (c * 2 ^ k)) d ≡ c * 2 ^ k
unfolding round_53
round_53-exact zero d c k pos few = round_even-exact d (c * 2 ^ k) pos
round_53-exact (suc rounds) d c zero pos few =
    let small : ltb (d * (c * 2 ^ 0)) (d * 2 ^ 53) ≡ true =
      lt→ltb _ _
        (mul-lt-mul_of_pos_left {m = c * 2 ^ 0} {n = 2 ^ 53} {k = d} (omega (arith, few)) pos) in
    rw small (round_even-exact d (c * 2 ^ 0) pos)
round_53-exact (suc rounds) d c (suc k) pos few =
    elim (Bool-cases (ltb (d * (c * 2 ^ suc k)) (d * 2 ^ 53))) [
      | inl small ↦ rw small (round_even-exact d (c * 2 ^ suc k) pos)
      | inr large ↦
          let doubled : d * (c * 2 ^ suc k) ≡ 2 * d * (c * 2 ^ k) =
            rw (pow-suc 2 k) (regroup d c (2 ^ k)) in
          rw (large, doubled, round_53-exact rounds (2 * d) c k (omega arith) few)
            (rw (pow-suc 2 k) (omega (arith, regroup 1 c (2 ^ k))))
    ]
