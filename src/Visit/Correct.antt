-- ===== src/Visit/Correct.antt =====
-- `visit_entry` against its specification: the map from class and digest to the file seen first, and
-- the list of the files of each digest.
use dedup.Prelude.{
  true, refl, ℕ, ◌+◌, ◌^◌, ◌<◌, ◌≡◌, sym, ◌∙◌, Option, none, some, [], ◌∷◌, ◌++◌, arith, inl, inr,
  Option-cases, if◌then◌else◌, ◌&&◌,
}
use dedup.Rb.{RbTree, IsRbTree}
use dedup.Metadata.{Sha256, FileMetadata, Digester, Pointer}
use dedup.Visited.{VisitedTree, Inserted, visited_tree_insert}
use dedup.Visited.Hashing.{Digests, IsHashing, IsRead, hashed}
use dedup.Visited.Classes.{Class, class_of, same_class}
use dedup.Visited.View.{IsVisited, view, same_digest}
use dedup.Visited.Correct.{IsInsert, found-can_hash, visited_tree_insert-view}
use dedup.Duplicates.{duplicate_tree_find}
use dedup.Duplicates.Lists.{IsDuplicates-le, duplicates_of, IsDuplicates}
use dedup.Visit.{count_found, VisitContext, visit_entry}
use dedup.Visit.Appending.{append_duplicate}
use dedup.Visit.Listing.{seed, found_fm}

module _ (rb : RbTree) (digest : Digests) where
  -- The file that was seen first among those of the class and digest of another, which can be hashed.
  abbrev pub first_of : VisitContext rb → FileMetadata → Option FileMetadata
  first_of ctx fm =
      if digest.can_hash fm.path
      then view rb digest ctx.visited (class_of fm) (digest.of_path fm.path)
      else none

  pub first_of-view :
      (ctx : VisitContext rb) (fm : FileMetadata)
      → digest.can_hash fm.path ≡ true
      → first_of ctx fm ≡ view rb digest ctx.visited (class_of fm) (digest.of_path fm.path)
  first_of-view ctx fm can = rw can refl

  pub first_of-can_hash :
      (ctx : VisitContext rb) (fm old : FileMetadata)
      → first_of ctx fm ≡ some old
      → digest.can_hash fm.path ≡ true
  first_of-can_hash ctx fm old again = ground arith

  -- The trees are in good order, and no list is longer than the bound.
  pub record IsContext (bound : ℕ) (ctx : VisitContext rb) : Type 0 where
    pub visited : IsVisited rb digest ctx.visited
    pub duplicates : IsDuplicates rb bound ctx.duplicates

  -- What a visit of a file comes to.
  pub record IsVisit (address : ℕ) (fm : Pointer) (ctx after : VisitContext rb) : Type 0 where
    pub seen :
        (k : Class) (sha : Sha256)
        → view rb digest after.visited k sha ≡ elim (first_of ctx fm.target) [
          | some old ↦ view rb digest ctx.visited k sha
          | none ↦
              if same_class (class_of fm.target) k && same_digest rb digest fm.target sha
              then some (hashed digest fm.target)
              else view rb digest ctx.visited k sha
        ]
    pub listed :
        (sha : Sha256)
        → duplicates_of rb after.duplicates sha ≡ elim (first_of ctx fm.target) [
          | none ↦ duplicates_of rb ctx.duplicates sha
          | some old ↦
              if same_digest rb digest fm.target sha
              then seed address old
                  (duplicates_of rb ctx.duplicates (digest.of_path fm.target.path))
                ++ some (record fm { target = hashed digest fm.target }) ∷ []
              else duplicates_of rb ctx.duplicates sha
        ]
    pub counted : after.found ≡ elim (first_of ctx fm.target) [
      | none ↦ ctx.found
      | some old ↦ count_found old fm.target ctx.found
    ]

module _ (rb : RbTree) (L : IsRbTree rb) {env : Digester} {digest : Digests}
    (H : IsHashing env digest) (address : ℕ) (fm : Pointer) (read : IsRead digest fm.target)
    (ctx : VisitContext rb) (bound : ℕ) (good : IsContext rb digest bound ctx)
    (small : bound + 1 < 2 ^ 59) where
  abbrev inserted : Inserted (VisitedTree rb)
  inserted = visited_tree_insert rb env ctx.visited fm.target

  insertion : IsInsert rb digest ctx.visited fm.target inserted
  insertion = visited_tree_insert-view rb L H ctx.visited good.visited fm.target read

  abbrev Visits : Type 0
  Visits =
      (after : VisitContext rb) × (visit_entry rb env address (some fm) ctx ≡ some after)
      × IsVisit rb digest address fm ctx after
      × IsContext rb digest (bound + 2) after

  visit_first : inserted.result ≡ none → Visits
  unfolding visit_entry
  visit_first first =
      let first' : first_of rb digest ctx fm.target ≡ none = sym insertion.answer ∙ first in
      (
        record ctx { visited = inserted.tree },
        rw (visit_entry, first),
        record {
          seen = λ k sha. rw (sym insertion.answer) (insertion.after k sha);
          listed = λ sha. rw first';
          counted = rw first';
        },
        record {
          visited = insertion.valid;
          duplicates =
              IsDuplicates-le rb bound (bound + 2) ctx.duplicates (omega arith) good.duplicates;
        },
      )

  visit_again : (old : FileMetadata) → inserted.result ≡ some old → Visits
  unfolding visit_entry count_found
  visit_again old again =
      let can = found-can_hash rb digest ctx.visited fm.target inserted insertion old again in
      let again' : first_of rb digest ctx fm.target ≡ some old = sym insertion.answer ∙ again in
      let is_hashed : inserted.fm ≡ hashed digest fm.target =
        found_fm rb H ctx.visited fm.target old read again in
      let f : FileMetadata = hashed digest fm.target in
      let pointer : Pointer = record fm { target = f } in
      let (longer, run, listed, valid) =
        append_duplicate rb L address old pointer ctx.duplicates bound good.duplicates small in
      (
        record {
          visited = inserted.tree;
          duplicates = (duplicate_tree_find rb ctx.duplicates f).write longer;
          found = count_found old f ctx.found;
        },
        rw (visit_entry, again, is_hashed, run, is_hashed),
        record {
          seen = λ k sha. rw (sym insertion.answer) (insertion.after k sha);
          listed = λ sha. rw (again', can) (listed sha);
          counted = rw (again', count_found);
        },
        record { visited = insertion.valid; duplicates = valid },
      )

  -- Where the files, and whether they can be opened, mapped with their sizes and hashed, do not
  -- change, for a file whose size is that of its content, and lists short of 2^59 items:
  -- visit_entry ends. If no file of the class (device, size, first and last character) and the
  -- digest of the new file was seen, or the new file cannot be hashed, no list changes, and the
  -- file is recorded as seen if it can be hashed; otherwise nothing is recorded, the file is
  -- counted if its clone id is another, and it is put at the end of the list of its digest, behind
  -- the file seen first where the list was empty; no other list changes.
  pub visit_entry-IsVisit : Visits
  visit_entry-IsVisit = elim (Option-cases inserted.result) [
    | inl first ↦ visit_first first
    | inr (old, again) ↦ visit_again old again
  ]
