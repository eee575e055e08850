-- ===== src/Main/Human.antt =====
-- dedup.c: print_human_bytes. The doubles that come up are 0 or at least 1, so that they are whole
-- multiples of 2^-52: a double is the number of these. What printf(3) makes of the number is left out.
pub mod Units
use dedup.Prelude.{ℕ, ◌*◌, ◌^◌, Bool, ltb, if◌then◌else◌}
use dedup.Double.{round_53}

abbrev pub one : ℕ
one = 2 ^ 52

-- `double v = bytes`
unfoldable pub to_double : ℕ → ℕ
unfolding round_53
to_double bytes = round_53 64 (bytes * one) 1

-- `v / 1000.0`
unfoldable pub thousandth : ℕ → ℕ
unfolding round_53
thousandth v = round_53 64 v 1000

-- `v > 1000.0`
abbrev pub is_above_1000 : ℕ → Bool
is_above_1000 v = ltb (1000 * one) v

pub data ByteUnit : Type 0 where
  bytes_unit kb_unit mb_unit gb_unit tb_unit : ByteUnit

-- One of the four tests, with the unit that it sets.
abbrev pub scale : ByteUnit → ℕ × ByteUnit → ℕ × ByteUnit
scale next (v, unit) = if is_above_1000 v then (thousandth v, next) else (v, unit)

-- The number and the unit that are printed.
unfoldable pub print_human_bytes : ℕ → ℕ × ByteUnit
unfolding to_double thousandth
print_human_bytes bytes =
    scale tb_unit (scale gb_unit (scale mb_unit (scale kb_unit (to_double bytes, bytes_unit))))
