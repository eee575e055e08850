-- ===== src/Visit.antt =====
-- dedup.c: `visit_entry`, which enters a file into the visited tree, and into the tree of duplicates
-- if an equal file was there. The mutexes make each of its parts one step; here it is one step as a
-- whole. What it prints is left out.
pub mod Listing
pub mod Appending
pub mod Correct
pub mod Gathering
pub mod Complete
pub mod Exact
pub mod Order
use dedup.Prelude.{ℕ, ◌+◌, ◌%◌, Bool, not, Option, none, some, List, [], ◌∷◌, ◌==◌, if◌then◌else◌}
use dedup.AList.{AList, size_mod, alist_empty, alist_add}
use dedup.Rb.{RbTree}
use dedup.Metadata.{FileMetadata, Digester, Pointer}
use dedup.Visited.{VisitedTree, new_visited_tree, visited_tree_insert}
use dedup.Duplicates.{DuplicateTree, new_duplicate_tree, duplicate_tree_find}

-- What is done to the list: `address` is where `metadata_dup` puts the copy of `old`.
unfoldable pub add_duplicate : ℕ → FileMetadata → Pointer → AList Pointer → Option (AList Pointer)
add_duplicate address old fm list =
    let seeded =
      if alist_empty list
      then alist_add list (some (record { address = address; target = old }))
      else some list in
    elim seeded [ none ↦ none | some seeded ↦ alist_add seeded (some fm) ]

-- The files that are new by their clone ids are counted.
unfoldable pub count_found : FileMetadata → FileMetadata → ℕ → ℕ
count_found old fm found =
    if not (fm.clone_id == old.clone_id) then (found + 1) % size_mod else found

module _ (rb : RbTree) where
  -- The fields of `DedupContext` that `visit_entry` uses.
  pub record VisitContext : Type 0 where
    pub visited : VisitedTree rb
    pub duplicates : DuplicateTree rb
    pub found : ℕ

  unfoldable pub new_context : VisitContext
  new_context = record {
    visited = new_visited_tree rb;
    duplicates = new_duplicate_tree rb;
    found = 0;
  }

  -- `fm` is what `metadata_from_entry` returned, NULL included.
  unfoldable pub visit_entry : Digester → ℕ → Option Pointer → VisitContext → Option VisitContext
  visit_entry env address none ctx = some ctx
  visit_entry env address (some fm) ctx =
      let inserted = visited_tree_insert rb env ctx.visited fm.target in
      let visited_ctx : VisitContext = record ctx { visited = inserted.tree } in
      elim inserted.result [
        | none ↦ some visited_ctx
        | some old ↦
            let list = duplicate_tree_find rb ctx.duplicates inserted.fm in
            elim (add_duplicate address old (record fm { target = inserted.fm }) list.value) [
              | none ↦ none
              | some longer ↦ some (record visited_ctx {
                duplicates = list.write longer;
                found = count_found old inserted.fm ctx.found;
              })
            ]
      ]

  -- One file after another, each with the address that its visit is given for a copy.
  unfoldable pub visit_all :
      Digester → List (ℕ × Option Pointer) → VisitContext → Option VisitContext
  unfolding visit_entry
  visit_all env [] ctx = some ctx
  visit_all env ((address, fm) ∷ entries) ctx = elim (visit_entry env address fm ctx) [
    | none ↦ none
    | some ctx' ↦ visit_all env entries ctx'
  ]
