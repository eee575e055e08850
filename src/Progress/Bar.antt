-- ===== src/Progress/Bar.antt =====
-- What display_progress shows as a scan goes on.
use dedup.Prelude.{
  ℕ, ◌+◌, ◌/◌, ◌^◌, ◌≤◌, ◌<◌, ◌≡◌, refl, ◌∙◌, ap, true, false, some, ltb, ◌==◌, arith, lt→ltb,
}
use dedup.Progress.{
  Progress, Shown, one, min, note_width, note_text, whole, percent_complete, complete_part, draw,
  whole_percent, display_progress,
}
use dedup.Progress.Drawn.{
  width_of, bar_width_lem, bar_of, draw_all, min_mono, min_le, min-suc_self, width_of-bounds,
}
use dedup.Progress.Part.{
  part, whole_pos, part_mono, part_all, scaled, columns_mono, columns_all, whole_percent_mono,
  whole_percent_all,
}

-- The columns, rounded and cut off, that are complete.
abbrev columns : ℕ → Progress → ℕ
columns width p = scaled width (part p.total_unit_count p.completed_unit_count) / one

abbrev hashes_of : ℕ → Progress → ℕ
hashes_of width p = min width (columns width p + 1)

abbrev shown_at : ℕ → Progress → Shown
shown_at width p = record {
  bar = bar_of width (hashes_of width p);
  percent = whole_percent (part p.total_unit_count p.completed_unit_count);
  completed = p.completed_unit_count;
  total = p.total_unit_count;
  text = note_text p;
}

module _ (p : Progress) (some_units : 0 < p.total_unit_count)
    (within : p.completed_unit_count ≤ p.total_unit_count) where
  part-bounds : part p.total_unit_count p.completed_unit_count ≤ one
  part-bounds = omega (
    arith,
    part_mono p.total_unit_count _ _ some_units within,
    part_all p.total_unit_count some_units,
  )

  columns-bounds : (width : ℕ) → width ≤ 80 → columns width p ≤ width
  columns-bounds width small =
      omega (arith, columns_mono width _ one part-bounds, columns_all width (omega (arith, small)))

  percent_complete-part : percent_complete p ≡ some (part p.total_unit_count p.completed_unit_count)
  unfolding percent_complete
  percent_complete-part =
      let some_whole : (whole p.total_unit_count == 0) ≡ false =
        ground (arith, whole_pos p.total_unit_count some_units) in
      rw some_whole refl

  complete_part-columns :
      (width : ℕ)
      → width ≤ 80
      → complete_part width (part p.total_unit_count p.completed_unit_count)
        ≡ some (columns width p)
  unfolding complete_part
  complete_part-columns width small =
      let fits : ltb (columns width p) (2 ^ 64) ≡ true =
        lt→ltb (columns width p) (2 ^ 64) (omega (arith, columns-bounds width small, small)) in
      rw fits refl

  display_progress-shown_at :
      (ws_col : ℕ)
      → ws_col < 2 ^ 16
      → note_width p < 2 ^ 63
      → display_progress ws_col p ≡ some (shown_at (width_of ws_col p) p)
  unfolding display_progress
  display_progress-shown_at ws_col narrow short =
      let width = width_of ws_col p in
      rw
        (
          display_progress,
          percent_complete-part,
          bar_width_lem ws_col p narrow short,
          complete_part-columns width (width_of-bounds ws_col p),
        )
        (ap (λ cs. some (record (shown_at width p) { bar = cs }))
          (ap (λ w. draw w 0 (columns width p)) (bar_width_lem ws_col p narrow short)
            ∙ draw_all width (columns width p)))

abbrev pub completed_later : Progress → ℕ → Progress
completed_later p later = record p { completed_unit_count = later }

-- The bar with no space left, and 100 percent.
abbrev pub all_shown : ℕ → Progress → Shown
all_shown width p = record {
  bar = bar_of width width;
  percent = 100;
  completed = p.total_unit_count;
  total = p.total_unit_count;
  text = note_text p;
}

-- A bar of `width` characters and a percentage, and what is shown later in their place.
pub record IsGrowing (width : ℕ) (first second : Shown) : Type 0 where
  pub hashes_first : ℕ
  pub hashes_second : ℕ
  pub bar_first : first.bar ≡ bar_of width hashes_first
  pub bar_second : second.bar ≡ bar_of width hashes_second
  pub begun : min width 1 ≤ hashes_first
  pub grows : hashes_first ≤ hashes_second
  pub fits : hashes_second ≤ width
  pub percent_grows : first.percent ≤ second.percent
  pub percent_fits : second.percent ≤ 100

module _ (p : Progress) (ws_col : ℕ) (some_units : 0 < p.total_unit_count)
    (narrow : ws_col < 2 ^ 16) (short : note_width p < 2 ^ 63) where
  display_progress_all :
      display_progress ws_col (completed_later p p.total_unit_count)
      ≡ some (all_shown (width_of ws_col p) p)
  display_progress_all =
      let width = width_of ws_col p in
      let done = part_all p.total_unit_count some_units in
      let whole_bar = columns_all width (omega (arith, width_of-bounds ws_col p)) in
      let hashes : hashes_of width (completed_later p p.total_unit_count) ≡ width =
        ap (λ q. min width (scaled width q / one + 1)) done
        ∙ ap (λ n. min width (n + 1)) whole_bar
        ∙ min-suc_self width in
      display_progress-shown_at (completed_later p p.total_unit_count) some_units (omega arith)
        ws_col narrow short
      ∙ ap
          (λ n. some (record (shown_at width (completed_later p p.total_unit_count)) {
            bar = bar_of width n;
          }))
          hashes
      ∙ ap (λ q. some (record (all_shown width p) { percent = q }))
          (ap whole_percent done ∙ whole_percent_all)

  module _ (later : ℕ) (le : p.completed_unit_count ≤ later)
      (within : later ≤ p.total_unit_count) where
    shown_at-IsGrowing :
        IsGrowing
          (width_of ws_col p)
          (shown_at (width_of ws_col p) p)
          (shown_at (width_of ws_col p) (completed_later p later))
    shown_at-IsGrowing =
        let width = width_of ws_col p in
        let parts = part_mono p.total_unit_count p.completed_unit_count later some_units le in
        let most = part-bounds (completed_later p later) some_units within in
        record {
          hashes_first = hashes_of width p;
          hashes_second = hashes_of width (completed_later p later);
          bar_first = refl;
          bar_second = refl;
          begun = min_mono width 0 (columns width p) (omega arith);
          grows = min_mono width _ _ (columns_mono width _ _ parts);
          fits = min_le width _;
          percent_grows = whole_percent_mono _ _ parts;
          percent_fits = omega (arith, whole_percent_mono _ one most, whole_percent_all);
        }

    -- For at least one unit in total, a terminal of fewer than 2^16 columns and a note of fewer than
    -- 2^63 characters: the bar has 80 characters, or as many as are left beside the rest of the line
    -- if these are fewer, but 80 if the rest of the line alone is too long. They are #, at least one,
    -- and then spaces. As units are completed, neither the # nor the percentage become fewer, and
    -- the percentage is at most 100; with all units it is 100, and no space is left.
    pub display_progress_lem :
        (first : Shown) × (second : Shown) × (display_progress ws_col p ≡ some first)
        × (display_progress ws_col (completed_later p later) ≡ some second)
        × IsGrowing (width_of ws_col p) first second
        × (display_progress ws_col (completed_later p p.total_unit_count)
            ≡ some (all_shown (width_of ws_col p) p))
    display_progress_lem = (
      shown_at (width_of ws_col p) p,
      shown_at (width_of ws_col p) (completed_later p later),
      display_progress-shown_at p some_units (omega (arith, le, within)) ws_col narrow short,
      display_progress-shown_at (completed_later p later) some_units within ws_col narrow short,
      shown_at-IsGrowing,
      display_progress_all,
    )
