-- ===== src/Tests/Showing.antt =====
-- What display_progress shows, at concrete numbers.
use dedup.Prelude.{ℕ, ◌≡◌, refl, none, some, [], arith}
use dedup.Double.{round_53, round_even}
use dedup.Progress.{
  Progress, Shown, bar_width, percent_complete, complete_part, draw, whole_percent,
  display_progress,
}
use dedup.Progress.Drawn.{width_of, bar_of}
use dedup.Progress.Bar.{completed_later, all_shown, IsGrowing, display_progress_lem}

abbrev counted : ℕ → ℕ → Progress
counted total completed = record {
  total_unit_count = total;
  completed_unit_count = completed;
  note = none;
}

display_progress_example :
    (first : Shown) × (second : Shown) × (display_progress 39 (counted 3 1) ≡ some first)
    × (display_progress 39 (completed_later (counted 3 1) 2) ≡ some second)
    × IsGrowing (width_of 39 (counted 3 1)) first second
    × (display_progress 39 (completed_later (counted 3 1) 3) ≡ some (all_shown 10 (counted 3 1)))
display_progress_example =
    display_progress_lem (counted 3 1) 39 (omega arith) (omega arith) (omega arith) 2 (omega arith)
      (omega arith)

-- Two of three units, in ten columns.
two_thirds :
    display_progress 39 (counted 3 2)
    ≡ some (record { bar = bar_of 10 7; percent = 67; completed = 2; total = 3; text = [] })
unfolding display_progress bar_width percent_complete complete_part draw whole_percent round_53
    round_even
two_thirds = refl

-- The bar alone is wider than the terminal.
too_narrow : display_progress 20 (counted 3 3) ≡ some (all_shown 80 (counted 3 1))
unfolding display_progress bar_width percent_complete complete_part draw whole_percent round_53
    round_even
too_narrow = refl

-- main shows the progress when it warns of an entry, also before it has counted one.
nothing_counted : display_progress 80 (counted 0 0) ≡ none
unfolding display_progress percent_complete round_53 round_even
nothing_counted = refl
