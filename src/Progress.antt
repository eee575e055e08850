-- ===== src/Progress.antt =====
-- progress.c: the bar and the percentage that display_progress draws. The width of the terminal is what
-- ioctl(2) gives, and a double is the number of 2^-116 that it is a multiple of, which holds of every
-- quotient of two numbers below 2^64. `none` is what C leaves undefined: 0 of 0 units is no number.
pub mod Drawn
pub mod Part
pub mod Bar
use dedup.Prelude.{
  ℕ, zero, suc, ◌+◌, ◌-◌, ◌*◌, ◌/◌, ◌%◌, ◌^◌, Option, none, some, List, [], ◌∷◌, length, ltb, leb,
  ◌==◌, if◌then◌else◌,
}
use dedup.Metadata.{CString}
use dedup.Double.{round_53, round_even}

-- The field `context` is never set.
pub record Progress : Type 0 where
  pub total_unit_count : ℕ
  pub completed_unit_count : ℕ
  pub note : Option CString

-- What is seen on the terminal: the characters between the brackets, and what stands beside them.
pub record Shown : Type 0 where
  pub bar : CString
  pub percent : ℕ
  pub completed : ℕ
  pub total : ℕ
  pub text : CString

abbrev pub one : ℕ
one = 2 ^ 116

abbrev pub min : ℕ → ℕ → ℕ
min x y = if ltb x y then x else y

-- `progress->note ? strlen(progress->note) : 6`
abbrev pub note_width : Progress → ℕ
note_width p = elim p.note [ none ↦ 6 | some note ↦ length note ]

-- `w.ws_col - 23` is an int, and is converted to size_t before the last subtraction.
unfoldable pub bar_width : ℕ → Progress → ℕ
bar_width ws_col p = min ((2 ^ 64 + ws_col - 23 + (2 ^ 64 - note_width p)) % 2 ^ 64) 80

-- A uint64_t as a double, which is a whole number.
abbrev pub whole : ℕ → ℕ
whole n = round_53 12 n 1

unfoldable pub percent_complete : Progress → Option ℕ
percent_complete p =
    let total = whole p.total_unit_count in
    let completed = whole p.completed_unit_count in
    if total == 0 then none else some (round_53 128 (completed * one) total)

-- `width * percent_complete`, cut off to a whole number. A greater one does not fit into a size_t.
unfoldable pub complete_part : ℕ → ℕ → Option ℕ
complete_part width percent =
    let part = round_53 128 (width * percent) 1 / one in
    if ltb part (2 ^ 64) then some part else none

-- The loop, from `i` on, with the number of rounds that are left.
unfoldable pub draw : ℕ → ℕ → ℕ → CString
draw zero i complete = []
draw (suc rounds) i complete =
    (if leb i complete then b'#' else b' ') ∷ draw rounds (suc i) complete

-- `%.0f` of `percent_complete * 100.0`
unfoldable pub whole_percent : ℕ → ℕ
whole_percent percent = round_even (round_53 128 (percent * 100) 1) one

-- `progress->note ?: ""`
abbrev pub note_text : Progress → CString
note_text p = elim p.note [ none ↦ [] | some note ↦ note ]

unfoldable pub display_progress : ℕ → Progress → Option Shown
unfolding bar_width percent_complete complete_part draw whole_percent
display_progress ws_col p = elim (percent_complete p) [
  | none ↦ none
  | some percent ↦
      let width = bar_width ws_col p in
      elim (complete_part width percent) [
        | none ↦ none
        | some complete ↦ some (record {
          bar = draw width 0 complete;
          percent = whole_percent percent;
          completed = p.completed_unit_count;
          total = p.total_unit_count;
          text = note_text p;
        })
      ]
]
