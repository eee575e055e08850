-- ===== src/Main.antt =====
-- dedup.c: main. Its end, where each list of duplicates is handed to `deduplicate`.
pub mod Options
pub mod Traversal
pub mod Serial
pub mod Contents
pub mod Program
pub mod Human
pub mod Parallel
use dedup.Prelude.{Option, none, some, List, [], ◌∷◌, if◌then◌else◌}
use dedup.Rb.{RbTree}
use dedup.Metadata.{Pointer}
use dedup.Os.{Os}
use dedup.AList.View.{to_list}
use dedup.Duplicates.{Sha256ListNode}
use dedup.Replacing.{Context, is_null_origin, choose_origin, deduplicate}

-- The files that `deduplicate` reads from a list, item by item; it dereferences each of them.
unfoldable pub metadata_set : List (Option Pointer) → Option (List Pointer)
metadata_set [] = some []
metadata_set (none ∷ slots) = none
metadata_set (some fm ∷ slots) = elim (metadata_set slots) [
  | none ↦ none
  | some fms ↦ some (fm ∷ fms)
]

-- The loop of main over the nodes of the tree of duplicates. `none` is a NULL that is dereferenced:
-- an item of a list, or the origin that `deduplicate` chose.
unfoldable pub deduplicate_all :
    (os : Os) → RbTree → List Sha256ListNode → Context → os.State → Option (Context × os.State)
unfolding metadata_set
deduplicate_all os rb [] ctx s = some (ctx, s)
deduplicate_all os rb (duplicate_set ∷ nodes) ctx s =
    elim (metadata_set (to_list duplicate_set.list)) [
      | none ↦ none
      | some fms ↦
          let (ctx', s') = deduplicate os rb fms ctx s in
          let rest = deduplicate_all os rb nodes ctx' s' in
          if is_null_origin (choose_origin rb fms) then none else rest
    ]
