-- ===== src/Visit/Appending.antt =====
-- The part of `visit_entry` that is done with the tree of duplicates locked.
use dedup.Prelude.{ℕ, ◌+◌, ◌^◌, ◌<◌, ◌≡◌, ◌∙◌, ap, some, [], ◌∷◌, ◌++◌, arith, if◌then◌else◌}
use dedup.AList.{AList}
use dedup.Rb.{RbTree, IsRbTree}
use dedup.Rb.Order.{is_eq, memcmp}
use dedup.Metadata.{Sha256, FileMetadata, Pointer}
use dedup.Duplicates.{DuplicateTree, duplicate_tree_find}
use dedup.Duplicates.Lists.{
  duplicates_of, IsDuplicates, duplicates_of-value, duplicates_of-write, value-IsAList,
  IsDuplicates-write,
}
use dedup.Visit.{add_duplicate}
use dedup.Visit.Listing.{seed, add_duplicate_lem}

module _ (rb : RbTree) (L : IsRbTree rb) where
  -- The lists of a tree before and after a file was put on the list of its digest.
  abbrev pub Appended : ℕ → FileMetadata → Pointer → DuplicateTree rb → DuplicateTree rb → Type 0
  Appended address old fm tree tree' =
      (sha : Sha256)
      → duplicates_of rb tree' sha ≡ (
          if is_eq (memcmp 32 fm.target.sha256 sha)
          then seed address old (duplicates_of rb tree fm.target.sha256) ++ some fm ∷ []
          else duplicates_of rb tree sha)

  -- The file goes to the end of the list of its digest, and no other list changes.
  pub append_duplicate :
      (address : ℕ) (old : FileMetadata) (fm : Pointer) (tree : DuplicateTree rb) (bound : ℕ)
      → IsDuplicates rb bound tree
      → bound + 1 < 2 ^ 59
      → let list = duplicate_tree_find rb tree fm.target in
        (longer : AList Pointer) × (add_duplicate address old fm list.value ≡ some longer)
        × Appended address old fm tree (list.write longer)
        × IsDuplicates rb (bound + 2) (list.write longer)
  append_duplicate address old fm tree bound valid small =
      let f = fm.target in
      let (is, size) = value-IsAList rb L tree f bound valid in
      let list = duplicate_tree_find rb tree f in
      let (longer, run, is', listed, size') =
        add_duplicate_lem address old fm list.value is (omega (arith, size)) in
      (
        longer,
        run,
        λ sha.
            duplicates_of-write rb L tree f longer sha
            ∙ ap (λ ds. if is_eq (memcmp 32 f.sha256 sha) then ds else duplicates_of rb tree sha)
                (listed
                  ∙ ap (λ ds. seed address old ds ++ some fm ∷ [])
                      (duplicates_of-value rb L tree f)),
        IsDuplicates-write rb L tree f bound valid longer (bound + 2) is'
            (omega (arith, size, size')) (omega arith),
      )
