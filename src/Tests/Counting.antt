-- ===== src/Tests/Counting.antt =====
-- What `deduplicate` counts, links and loses, at concrete data.
use dedup.Prelude.{
  ℕ, ◌≡◌, ◌≢◌, ◌≤◌, ◌^◌, ◌+◌, ◌*◌, ◌-◌, refl, true, false, none, [], ◌∷◌, get_or, length,
  Option-cases, inl, inr,
}
use dedup.Metadata.{CString-discrete, CString}
use dedup.Rb.Order.{compare_int}
use dedup.Rb.Sorted.{sorted_list, sorted_list-IsRbTree}
use dedup.Os.Memory.{Memory, memory_os, memory_os-IsPosix, write}
use dedup.Clone.{replace_with_link}
use dedup.Symlink.{replace_with_symlink, path_relative_to}
use dedup.Symlink.Fails.{replace_with_symlink-unresolved}
use dedup.Replacing.{
  Context, dedup_link, most_hardlinks, choose_origin, choose_by_clones, deduplicate,
  deduplicate_one, replace,
}
use dedup.CloneIds.{
  new_clone_id_counts, clone_id_tree_max, count_clones, clone_id_tree_increment,
  compare_metadata_clone_id_key, compare_metadata_clone_id_node,
}
use dedup.Replacing.Links.{SameBytes, deduplicate-SameBytes}
use dedup.Replacing.Forecast.{dry, is_clean, is_clean_loop, deduplicate_forecast}
use dedup.Replacing.Bounds.{total, deduplicate-total}
use dedup.Main.Human.{mb_unit, print_human_bytes, to_double, thousandth}
use dedup.Double.{round_53, round_even}
use dedup.Main.Human.Units.{HasUnit, print_human_bytes_lem}
use dedup.Utils.{get_clone_id}
use dedup.Tests.Deduplicating.{pointers, disk, context, same_pair}

links :
    (src dst : CString) (s : Memory)
    → s.files src ≢ none
    → s.files dst ≡ none
    → (memory_os.link src dst s).0 ≡ 0
links src dst s there free = elim (Option-cases (s.files src)) [
  | inl absent ↦ absurd (there absent)
  | inr (f, found) ↦ rw found refl
]

abbrev by_links : Context
by_links = record (context false) { replace_mode = dedup_link }

abbrev second_byte : CString → ℕ
second_byte p = get_or p 1 0

deduplicate-SameBytes_example :
    SameBytes memory_os same_pair disk (deduplicate memory_os sorted_list pointers by_links disk).1
deduplicate-SameBytes_example =
    deduplicate-SameBytes memory_os memory_os-IsPosix links same_pair second_byte 0 sorted_list
      sorted_list-IsRbTree pointers by_links disk refl
      (
        (record { blocks = 1; size = 1; attributes = 7 }, refl, refl, refl),
        (
          (record { blocks = 2; size = 1; attributes = 8 }, refl, refl, refl),
          ((record { blocks = 2; size = 1; attributes = 8 }, refl, refl, refl), tt),
        ),
      )

no_failure : is_clean memory_os sorted_list pointers by_links disk ≡ true
unfolding is_clean is_clean_loop choose_origin most_hardlinks choose_by_clones replace
    replace_with_link write CString-discrete compare_int new_clone_id_counts clone_id_tree_max
    count_clones clone_id_tree_increment deduplicate_one get_clone_id compare_metadata_clone_id_key
    compare_metadata_clone_id_node
no_failure = refl

deduplicate_forecast_example :
    (deduplicate memory_os sorted_list pointers (dry by_links) disk).0
    ≡ dry (deduplicate memory_os sorted_list pointers by_links disk).0
deduplicate_forecast_example =
    deduplicate_forecast memory_os sorted_list pointers by_links disk refl no_failure

deduplicate-total_example :
    total (deduplicate memory_os sorted_list pointers by_links disk).0
    ≤ total by_links + 1 * (length pointers - 1)
deduplicate-total_example =
    deduplicate-total memory_os 1 sorted_list sorted_list-IsRbTree pointers by_links disk
      (refl, (refl, (refl, tt)))

-- There is no file to link to, and the file that was to be replaced is gone.
replace_with_symlink-unresolved_example :
    let dst : CString = b'a' ∷ 10 ∷ [] in
    let after = replace_with_symlink memory_os (b'x' ∷ []) dst disk in
    (after.0 ≢ 0)
    × (memory_os.file after.1 dst ≡ none)
    × ((p : CString) → p ≢ dst → memory_os.file after.1 p ≡ memory_os.file disk p)
unfolding path_relative_to write
replace_with_symlink-unresolved_example =
    replace_with_symlink-unresolved memory_os memory_os-IsPosix (b'x' ∷ []) (b'a' ∷ 10 ∷ []) disk
      refl refl

print_human_bytes_example : HasUnit 1_500_000 (print_human_bytes 1_500_000)
print_human_bytes_example = print_human_bytes_lem 1_500_000

-- 1.5 MB, in multiples of 2^-52.
print_human_bytes_run : print_human_bytes 1_500_000 ≡ (2 ^ 51 * 3, mb_unit)
unfolding print_human_bytes to_double thousandth round_53 round_even
print_human_bytes_run = refl
