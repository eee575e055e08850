-- ===== src/Tests/Deduplicating.antt =====
-- Runs of the choice of an origin and of the replacement, and their results at concrete data.
use dedup.Prelude.{
  ℕ, ◌≤◌, ◌<◌, ◌≡◌, ◌⊎◌, refl, Bool, true, false, ◌==◌, leb, none, some, List, [], ◌∷◌, arith, All,
  if◌then◌else◌,
}
use dedup.Metadata.{CString-discrete, CString, Pointer}
use dedup.Rb.Order.{compare_int}
use dedup.Rb.Sorted.{sorted_list, sorted_list-IsRbTree}
use dedup.CloneIds.{new_clone_id_counts, count_clones}
use dedup.CloneIds.Counts.{count_of, count_of-count_clones}
use dedup.Os.Memory.{Memory, memory_os, memory_os-IsPosix, write}
use dedup.Clone.{replace_with_clone, replace_with_link}
use dedup.Clone.Replace.{IsReplacement, replace_with_clone-IsReplacement, replace_with_link-fails}
use dedup.Replacing.{
  Context, chosen, dedup_clone, most_hardlinks, choose_origin, choose_by_clones, deduplicate,
}
use dedup.Replacing.Origin.{choose_origin-most_linked}
use dedup.Replacing.Dry.{deduplicate_dry}
use dedup.Replacing.Keeps.{SameContent, deduplicate-SameContent}
use dedup.CloneIds.Most.{IsMost, clone_id_tree_max-IsMost}
use dedup.CloneIds.{clone_id_tree_max, IdCountNode}
use dedup.Tests.{named, file_a, copy_of_a}

abbrev pub pointers : List Pointer
pointers =
    record { address = 1; target = file_a }
    ∷ record { address = 2; target = copy_of_a }
    ∷ record { address = 3; target = named b'a' 1 11 }
    ∷ []

count_of-count_clones_example :
    count_of sorted_list (count_clones sorted_list (new_clone_id_counts sorted_list) pointers) 11
    ≡ 2
unfolding compare_int
count_of-count_clones_example =
    count_of-count_clones sorted_list sorted_list-IsRbTree pointers 11 (omega arith)

clone_id_tree_max-IsMost_example :
    let counts = count_clones sorted_list (new_clone_id_counts sorted_list) pointers in
    ((clone_id_tree_max sorted_list counts ≡ none)
      × All (λ (n : IdCountNode). n.count ≤ 0) (sorted_list.nodes counts))
    ⊎ IsMost 0 (clone_id_tree_max sorted_list counts) (sorted_list.nodes counts)
clone_id_tree_max-IsMost_example =
    clone_id_tree_max-IsMost sorted_list
      (count_clones sorted_list (new_clone_id_counts sorted_list) pointers)

abbrev linked_pointers : List Pointer
linked_pointers = record { address = 4; target = named b'a' 3 12 } ∷ pointers

choose_origin-most_linked_example :
    (All (λ x. x.target.nlink ≤ 1) linked_pointers
      × (choose_origin sorted_list linked_pointers ≡ choose_by_clones sorted_list linked_pointers))
    ⊎ ((fm : Pointer) × (choose_origin sorted_list linked_pointers ≡ chosen fm)
        × (1 < fm.target.nlink)
        × All (λ x. x.target.nlink ≤ fm.target.nlink) linked_pointers)
choose_origin-most_linked_example = choose_origin-most_linked sorted_list linked_pointers

choose_origin-most_linked_run :
    choose_origin sorted_list linked_pointers
    ≡ chosen (record { address = 4; target = named b'a' 3 12 })
unfolding choose_origin most_hardlinks
choose_origin-most_linked_run = refl

abbrev pub same_path : CString → CString → Bool
same_path [] [] = true
same_path (a ∷ p) (b ∷ q) = if a == b then same_path p q else false
same_path _ _ = false

-- Two files with blocks of their own, and one that is a clone of the second.
abbrev pub disk : Memory
disk = record {
  files = λ p.
      if same_path p (b'a' ∷ 10 ∷ [])
      then some (record { blocks = 1; size = 1; attributes = 7 })
      else if same_path p (b'a' ∷ 11 ∷ [])
      then some (record { blocks = 2; size = 1; attributes = 8 })
      else none;
  error = 0;
}

abbrev pub context : Bool → Context
context dry = record {
  saved = 0;
  already_saved = 0;
  dry_run = dry;
  force = false;
  preserve_parent_mtime = true;
  replace_mode = dedup_clone;
}

replace_with_clone_example :
    IsReplacement memory_os
      (b'a' ∷ 11 ∷ [])
      (b'a' ∷ 10 ∷ [])
      disk
      (replace_with_clone memory_os (b'a' ∷ 11 ∷ []) (b'a' ∷ 10 ∷ []) true disk)
replace_with_clone_example =
    replace_with_clone-IsReplacement memory_os memory_os-IsPosix (b'a' ∷ 11 ∷ []) (b'a' ∷ 10 ∷ [])
      true disk

-- The source of the link is not there, and the file that was to be replaced is gone.
replace_with_link-fails_example :
    memory_os.file
      (replace_with_link memory_os (b'x' ∷ []) (b'a' ∷ 10 ∷ []) disk).1
      (b'a' ∷ 10 ∷ [])
    ≡ none
unfolding replace_with_link write CString-discrete
replace_with_link-fails_example =
    replace_with_link-fails memory_os memory_os-IsPosix (b'x' ∷ []) (b'a' ∷ 10 ∷ []) disk
      (λ e. absurd (omega arith)) refl

-- The blocks 1 and 2 hold the same.
abbrev pub same_pair : ℕ → ℕ
same_pair b = if leb b 2 then 0 else b

deduplicate_dry_example : (deduplicate memory_os sorted_list pointers (context true) disk).1 ≡ disk
deduplicate_dry_example = deduplicate_dry memory_os sorted_list pointers (context true) disk refl

deduplicate-SameContent_example :
    SameContent memory_os same_pair disk
      (deduplicate memory_os sorted_list pointers (context false) disk).1
deduplicate-SameContent_example =
    deduplicate-SameContent memory_os same_pair memory_os-IsPosix sorted_list sorted_list-IsRbTree
      pointers (context false) 0 disk refl
      (
        (record { blocks = 1; size = 1; attributes = 7 }, refl, refl),
        (
          (record { blocks = 2; size = 1; attributes = 8 }, refl, refl),
          ((record { blocks = 2; size = 1; attributes = 8 }, refl, refl), tt),
        ),
      )
