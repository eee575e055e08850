-- ===== src/Progress/Part.antt =====
-- The rounded quotient of the units, and what is made of it: columns and percent.
use dedup.Prelude.{ℕ, ◌*◌, ◌/◌, ◌^◌, ◌≤◌, ◌<◌, ◌≡◌, refl, ◌∙◌, ap, arith}
use native.Mathlib.Nat.{mul-div_cancel}
use dedup.Double.{round_53, round_even}
use dedup.Double.Rounding.{quotient_mono, round_53_mono, round_53-exact, round_even_mono}
use dedup.Progress.{one, whole, whole_percent}

-- The part of `total` units that `completed` are, where there are any.
abbrev pub part : ℕ → ℕ → ℕ
part total completed = round_53 128 (whole completed * one) (whole total)

pub whole_pos : (n : ℕ) → 0 < n → 0 < whole n
whole_pos n pos = omega (
  arith,
  round_53-exact 12 1 1 0 (omega arith) (omega arith),
  round_53_mono 12 1 n 1 (omega arith) (omega (arith, pos)),
)

pub part_mono :
    (total completed later : ℕ)
    → 0 < total
    → completed ≤ later
    → part total completed ≤ part total later
part_mono total completed later pos le =
    round_53_mono 128 (whole completed * one) (whole later * one) (whole total)
      (whole_pos total pos) (omega (arith, round_53_mono 12 completed later 1 (omega arith) le))

pub part_all : (total : ℕ) → 0 < total → part total total ≡ one
part_all total pos = round_53-exact 128 (whole total) 1 116 (whole_pos total pos) (omega arith)

-- A number of columns or percent, of which `p` is the part.
abbrev pub scaled : ℕ → ℕ → ℕ
scaled width p = round_53 128 (width * p) 1

pub scaled_mono : (width p q : ℕ) → p ≤ q → scaled width p ≤ scaled width q
scaled_mono width p q le = round_53_mono 128 (width * p) (width * q) 1 (omega arith) (grind arith)

pub scaled_all : (width : ℕ) → width < 2 ^ 53 → scaled width one ≡ width * one
scaled_all width small =
    ap (λ n. round_53 128 n 1) (omega arith) ∙ round_53-exact 128 1 width 116 (omega arith) small

pub columns_mono : (width p q : ℕ) → p ≤ q → scaled width p / one ≤ scaled width q / one
columns_mono width p q le =
    quotient_mono (scaled width p) (scaled width q) one (omega arith) (scaled_mono width p q le)

pub columns_all : (width : ℕ) → width < 2 ^ 53 → scaled width one / one ≡ width
columns_all width small =
    ap (λ n. n / one) (scaled_all width small) ∙ mul-div_cancel width (omega arith)

pub whole_percent_mono : (p q : ℕ) → p ≤ q → whole_percent p ≤ whole_percent q
unfolding whole_percent
whole_percent_mono p q le =
    round_even_mono (round_53 128 (p * 100) 1) (round_53 128 (q * 100) 1) one (omega arith)
      (round_53_mono 128 (p * 100) (q * 100) 1 (omega arith) (omega (arith, le)))

pub whole_percent_all : whole_percent one ≡ 100
unfolding whole_percent round_53 round_even
whole_percent_all = refl
