-- ===== src/Progress/Drawn.antt =====
-- The width of the bar that display_progress draws, and its characters.
use dedup.Prelude.{
  ℕ, zero, suc, ◌+◌, ◌-◌, ◌^◌, ◌≤◌, ◌<◌, ◌≡◌, refl, ◌∙◌, ap, ◌∷◌, ◌++◌, replicate, ltb, leb,
  if◌then◌else◌, arith, Bool-cases, inl, inr,
}
use dedup.Metadata.{CString}
use dedup.Progress.{Progress, min, note_width, bar_width, draw}

-- A terminal that is too narrow for a bar gets the widest one.
abbrev pub width_of : ℕ → Progress → ℕ
width_of ws_col p =
    if ltb ws_col (23 + note_width p) then 80 else min (ws_col - 23 - note_width p) 80

pub bar_width_lem :
    (ws_col : ℕ) (p : Progress)
    → ws_col < 2 ^ 16
    → note_width p < 2 ^ 63
    → bar_width ws_col p ≡ width_of ws_col p
unfolding bar_width
bar_width_lem ws_col p narrow short = ground arith

-- `hashes` of `width` characters are filled, those from the left.
abbrev pub bar_of : ℕ → ℕ → CString
bar_of width hashes = replicate hashes b'#' ++ replicate (width - hashes) b' '

bar_of-suc : (width hashes : ℕ) → bar_of (suc width) (suc hashes) ≡ b'#' ∷ bar_of width hashes
bar_of-suc width hashes =
    let less : suc width - suc hashes ≡ width - hashes = omega arith in rw less refl

bar_of-blank : (width : ℕ) → bar_of (suc width) 0 ≡ b' ' ∷ bar_of width 0
bar_of-blank width = let all : suc width - 0 ≡ suc (width - 0) = omega arith in rw all refl

draw_lem :
    (rounds i complete : ℕ) → draw rounds i complete ≡ bar_of rounds (min rounds (complete + 1 - i))
unfolding draw
draw_lem zero i complete =
    let none_filled : min 0 (complete + 1 - i) ≡ 0 = ground arith in rw none_filled refl
draw_lem (suc rounds) i complete = elim (Bool-cases (leb i complete)) [
  | inl filled ↦
      let next : min (suc rounds) (complete + 1 - i) ≡ suc (min rounds (complete + 1 - suc i)) =
        ground arith in
      rw (filled, next, bar_of-suc rounds (min rounds (complete + 1 - suc i)))
        (ap (λ cs. b'#' ∷ cs) (draw_lem rounds (suc i) complete))
  | inr blank ↦
      let here : min (suc rounds) (complete + 1 - i) ≡ 0 = ground arith in
      let next : min rounds (complete + 1 - suc i) ≡ 0 = ground arith in
      rw (blank, here, bar_of-blank rounds)
        (ap (λ cs. b' ' ∷ cs) (draw_lem rounds (suc i) complete ∙ ap (bar_of rounds) next))
]

pub draw_all :
    (width complete : ℕ) → draw width 0 complete ≡ bar_of width (min width (complete + 1))
draw_all width complete =
    draw_lem width 0 complete ∙ ap (λ n. bar_of width (min width n)) (omega arith)

pub min_mono : (width a b : ℕ) → a ≤ b → min width (a + 1) ≤ min width (b + 1)
min_mono width a b le = ground arith

pub min_le : (width a : ℕ) → min width a ≤ width
min_le width a = ground arith

pub min-suc_self : (width : ℕ) → min width (width + 1) ≡ width
min-suc_self width = ground arith

pub width_of-bounds : (ws_col : ℕ) (p : Progress) → width_of ws_col p ≤ 80
width_of-bounds ws_col p = ground arith
