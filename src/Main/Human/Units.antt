-- ===== src/Main/Human/Units.antt =====
-- The unit that print_human_bytes gives.
use dedup.Prelude.{
  ℕ, ◌+◌, ◌*◌, ◌^◌, ◌≤◌, ◌<◌, ◌≡◌, refl, true, false, ltb, leb, arith, Bool-cases, inl, inr,
  if◌then◌else◌, ◌≢◌, sym, ◌∙◌, ap, subst,
}
use dedup.Main.Human.{
  one, to_double, thousandth, is_above_1000, ByteUnit, bytes_unit, kb_unit, mb_unit, gb_unit,
  tb_unit, scale, print_human_bytes,
}
use dedup.Double.{round_even, round_53}
use dedup.Double.Rounding.{round_53_mono}

to_double_mono : (a b : ℕ) → a ≤ b → to_double a ≤ to_double b
unfolding to_double
to_double_mono a b le = round_53_mono 64 (a * one) (b * one) 1 (omega arith) (omega arith)

thousandth_mono : (a b : ℕ) → a ≤ b → thousandth a ≤ thousandth b
unfolding thousandth
thousandth_mono a b le = round_53_mono 64 a b 1000 (omega arith) le

-- The largest unit of which there is more than one in the bytes, counted in whole numbers.
abbrev pub unit_of : ℕ → ByteUnit
unit_of bytes =
    if leb bytes 1000
    then bytes_unit
    else if leb bytes (1000 ^ 2)
    then kb_unit
    else if leb bytes (1000 ^ 3)
    then mb_unit
    else if leb bytes (1000 ^ 4)
    then gb_unit
    else tb_unit

-- A test of a rounded number, where rounding keeps the order, is a test of the number.
is_above_mono :
    (f : ℕ → ℕ) (limit : ℕ)
    → ((a b : ℕ) → a ≤ b → f a ≤ f b)
    → f limit ≤ 1000 * one
    → 1000 * one < f (limit + 1)
    → (bytes : ℕ) → is_above_1000 (f bytes) ≡ ltb limit bytes
is_above_mono f limit mono at above bytes = ground (arith, mono bytes limit, mono (limit + 1) bytes)

abbrev divided : ℕ → ℕ
divided bytes = thousandth (to_double bytes)

abbrev divided_twice : ℕ → ℕ
divided_twice bytes = thousandth (divided bytes)

abbrev divided_thrice : ℕ → ℕ
divided_thrice bytes = thousandth (divided_twice bytes)

divided_mono : (a b : ℕ) → a ≤ b → divided a ≤ divided b
divided_mono a b le = thousandth_mono _ _ (to_double_mono a b le)

divided_twice_mono : (a b : ℕ) → a ≤ b → divided_twice a ≤ divided_twice b
divided_twice_mono a b le = thousandth_mono _ _ (divided_mono a b le)

divided_thrice_mono : (a b : ℕ) → a ≤ b → divided_thrice a ≤ divided_thrice b
divided_thrice_mono a b le = thousandth_mono _ _ (divided_twice_mono a b le)

above_bytes : (bytes : ℕ) → is_above_1000 (to_double bytes) ≡ ltb 1000 bytes
unfolding to_double round_53 round_even
above_bytes = is_above_mono to_double 1000 to_double_mono (omega arith) (omega arith)

above_kb : (bytes : ℕ) → is_above_1000 (divided bytes) ≡ ltb (1000 ^ 2) bytes
unfolding to_double thousandth round_53 round_even
above_kb = is_above_mono divided (1000 ^ 2) divided_mono (omega arith) (omega arith)

above_mb : (bytes : ℕ) → is_above_1000 (divided_twice bytes) ≡ ltb (1000 ^ 3) bytes
unfolding to_double thousandth round_53 round_even
above_mb = is_above_mono divided_twice (1000 ^ 3) divided_twice_mono (omega arith) (omega arith)

above_gb : (bytes : ℕ) → is_above_1000 (divided_thrice bytes) ≡ ltb (1000 ^ 4) bytes
unfolding to_double thousandth round_53 round_even
above_gb = is_above_mono divided_thrice (1000 ^ 4) divided_thrice_mono (omega arith) (omega arith)

-- The number and the unit for the bytes, by the unit.
abbrev pub HasUnit : ℕ → ℕ × ByteUnit → Type 0
HasUnit bytes (v, unit) = (unit ≡ unit_of bytes) × (unit ≢ tb_unit → v ≤ 1000 * one)

scale_above :
    (next unit : ByteUnit) (v : ℕ)
    → is_above_1000 v ≡ true
    → scale next (v, unit) ≡ (thousandth v, next)
scale_above next unit v above = rw above refl

scale_below :
    (next unit : ByteUnit) (v : ℕ) → is_above_1000 v ≡ false → scale next (v, unit) ≡ (v, unit)
scale_below next unit v below = rw below refl

abbrev last_two : ℕ × ByteUnit → ℕ × ByteUnit
last_two x = scale tb_unit (scale gb_unit x)

abbrev last_three : ℕ × ByteUnit → ℕ × ByteUnit
last_three x = last_two (scale mb_unit x)

last_two_below :
    (unit : ByteUnit) (v : ℕ) → is_above_1000 v ≡ false → last_two (v, unit) ≡ (v, unit)
last_two_below unit v below =
    ap (scale tb_unit) (scale_below gb_unit unit v below) ∙ scale_below tb_unit unit v below

last_three_below :
    (unit : ByteUnit) (v : ℕ) → is_above_1000 v ≡ false → last_three (v, unit) ≡ (v, unit)
last_three_below unit v below =
    ap last_two (scale_below mb_unit unit v below) ∙ last_two_below unit v below

-- The unit holds where no later test succeeds.
HasUnit-below :
    (bytes v : ℕ) (unit : ByteUnit)
    → unit ≡ unit_of bytes
    → is_above_1000 v ≡ false
    → HasUnit bytes (v, unit)
HasUnit-below bytes v unit right below = (right, λ _. ground arith)

tb_test-HasUnit :
    (bytes : ℕ)
    → ltb (1000 ^ 3) bytes ≡ true
    → HasUnit bytes (scale tb_unit (divided_thrice bytes, gb_unit))
tb_test-HasUnit bytes more = elim (Bool-cases (ltb (1000 ^ 4) bytes)) [
  | inr small ↦
      let stop = above_gb bytes ∙ small in
      subst (HasUnit bytes) (sym (scale_below tb_unit gb_unit (divided_thrice bytes) stop))
        (HasUnit-below bytes (divided_thrice bytes) gb_unit (ground arith) stop)
  | inl most ↦
      subst (HasUnit bytes)
        (sym (scale_above tb_unit gb_unit (divided_thrice bytes) (above_gb bytes ∙ most)))
        (ground arith, λ apart. absurd (apart refl))
]

gb_test-HasUnit :
    (bytes : ℕ)
    → ltb (1000 ^ 2) bytes ≡ true
    → HasUnit bytes (last_two (divided_twice bytes, mb_unit))
gb_test-HasUnit bytes more = elim (Bool-cases (ltb (1000 ^ 3) bytes)) [
  | inr small ↦
      let stop = above_mb bytes ∙ small in
      subst (HasUnit bytes) (sym (last_two_below mb_unit (divided_twice bytes) stop))
        (HasUnit-below bytes (divided_twice bytes) mb_unit (ground arith) stop)
  | inl most ↦
      subst (HasUnit bytes)
        (sym (
          ap (scale tb_unit)
            (scale_above gb_unit mb_unit (divided_twice bytes) (above_mb bytes ∙ most))))
        (tb_test-HasUnit bytes most)
]

mb_test-HasUnit :
    (bytes : ℕ) → ltb 1000 bytes ≡ true → HasUnit bytes (last_three (divided bytes, kb_unit))
mb_test-HasUnit bytes more = elim (Bool-cases (ltb (1000 ^ 2) bytes)) [
  | inr small ↦
      let stop = above_kb bytes ∙ small in
      subst (HasUnit bytes) (sym (last_three_below kb_unit (divided bytes) stop))
        (HasUnit-below bytes (divided bytes) kb_unit (ground arith) stop)
  | inl most ↦
      subst (HasUnit bytes)
        (sym (ap last_two (scale_above mb_unit kb_unit (divided bytes) (above_kb bytes ∙ most))))
        (gb_test-HasUnit bytes most)
]

unit_of_few : (bytes : ℕ) → ltb 1000 bytes ≡ false → bytes_unit ≡ unit_of bytes
unit_of_few bytes small = ground arith

-- Although each division is rounded, the unit is the largest one of which there is more than one in
-- the bytes; and unless that is the last unit, the number that is printed is at most 1000.
pub print_human_bytes_lem : (bytes : ℕ) → HasUnit bytes (print_human_bytes bytes)
unfolding print_human_bytes
print_human_bytes_lem bytes = elim (Bool-cases (ltb 1000 bytes)) [
  | inr small ↦
      let stop = above_bytes bytes ∙ small in
      subst (HasUnit bytes)
        (sym (
          ap last_three (scale_below kb_unit bytes_unit (to_double bytes) stop)
          ∙ last_three_below bytes_unit (to_double bytes) stop))
        (HasUnit-below bytes (to_double bytes) bytes_unit (unit_of_few bytes small) stop)
  | inl most ↦
      subst (HasUnit bytes)
        (sym (
          ap last_three
            (scale_above kb_unit bytes_unit (to_double bytes) (above_bytes bytes ∙ most))))
        (mb_test-HasUnit bytes most)
]
