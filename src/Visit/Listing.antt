-- ===== src/Visit/Listing.antt =====
-- How `visit_entry` puts a file on a list of duplicates, and what it knows of the file by then.
use dedup.Prelude.{
  ℕ, zero, suc, ◌+◌, ◌^◌, ◌≤◌, ◌<◌, ◌≡◌, refl, ◌∙◌, ap, Option, some, List, [], ◌∷◌, ◌++◌, arith,
  inl, inr, Bool-cases, ◌==◌, if◌then◌else◌, length, take,
}
use dedup.AList.{AList, alist_empty}
use dedup.AList.View.{IsAList, to_list, alist_add_lem}
use dedup.Rb.{RbTree}
use dedup.Metadata.{FileMetadata, Digester, Pointer}
use dedup.Visited.{VisitedTree, visited_tree_insert, insert_at_shortcut, insert_at_digest}
use dedup.Visited.Hashing.{
  Digests, IsHashing, IsRead, hashed, populate_lem, populate-could_not_hash,
}
use dedup.Visit.{add_duplicate}

-- A list that is empty starts with the file that was there first.
abbrev pub seed : ℕ → FileMetadata → List (Option Pointer) → List (Option Pointer)
seed address old [] = some (record { address = address; target = old }) ∷ []
seed address old (d ∷ ds) = d ∷ ds

seed_of_alist :
    (address : ℕ) (old : FileMetadata) (size : ℕ) (es : List (Option Pointer))
    → size ≤ length es
    → seed address old (take size es)
      ≡ (if size == 0 then some (record { address = address; target = old }) ∷ [] else take size es)
seed_of_alist address old zero es h = refl
seed_of_alist address old (suc n) [] h = absurd (omega arith)
seed_of_alist address old (suc n) (e ∷ es) h = ground arith

-- For a list in good order, the file stands at its end from then on.
pub add_duplicate_lem :
    (address : ℕ) (old : FileMetadata) (fm : Pointer) (list : AList Pointer)
    → IsAList list
    → list.size + 1 < 2 ^ 59
    → (longer : AList Pointer) × (add_duplicate address old fm list ≡ some longer)
      × IsAList longer
      × (to_list longer ≡ seed address old (to_list list) ++ some fm ∷ [])
      × (longer.size ≤ list.size + 2)
unfolding add_duplicate alist_empty
add_duplicate_lem address old fm list valid small =
    let first : Pointer = record { address = address; target = old } in
    let none_yet : list.size ≡ 0 → to_list list ≡ [] = λ e. ap (λ n. take n list.elements) e in
    let seeding =
      seed_of_alist address old list.size list.elements
        (omega (arith, valid.fits, valid.allocated)) in
    elim (Bool-cases (list.size == 0)) [
      | inl empty ↦
          let (seeded, run, good, is, size) = alist_add_lem list (some first) valid (omega arith) in
          let (longer, run', good', is', size') =
            alist_add_lem seeded (some fm) good (omega (arith, size)) in
          (
            longer,
            rw (add_duplicate, alist_empty, empty, run) run',
            good',
            is'
                ∙ ap (λ ds. ds ++ some fm ∷ [])
                    (is
                      ∙ ap (λ ds. ds ++ some first ∷ []) (none_yet (ground arith))
                      ∙ rw (seeding, empty) refl),
            omega (arith, size, size'),
          )
      | inr filled ↦
          let (longer, run, good, is, size) = alist_add_lem list (some fm) valid (omega arith) in
          (
            longer,
            rw (add_duplicate, alist_empty, filled) run,
            good,
            is ∙ ap (λ ds. ds ++ some fm ∷ []) (rw (seeding, filled) refl),
            omega (arith, size),
          )
    ]

-- A file that is found to be a duplicate has its digest by then.
pub found_fm :
    (rb : RbTree) {env : Digester} {digest : Digests} (H : IsHashing env digest)
    (tree : VisitedTree rb) (fm old : FileMetadata)
    → IsRead digest fm
    → (visited_tree_insert rb env tree fm).result ≡ some old
    → (visited_tree_insert rb env tree fm).fm ≡ hashed digest fm
unfolding visited_tree_insert insert_at_shortcut insert_at_digest
found_fm rb {digest = digest} H tree fm old read h = elim (Bool-cases (digest.can_hash fm.path)) [
  | inl can ↦ ground (arith, populate_lem H fm read can)
  | inr cannot ↦ absurd (ground (arith, populate-could_not_hash H fm read cannot))
]
