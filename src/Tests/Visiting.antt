-- ===== src/Tests/Visiting.antt =====
-- Runs of `visit_entry` on small inputs, and its results at concrete data.
use dedup.Prelude.{Option, ℕ, ◌≡◌, refl, none, some, List, [], ◌∷◌, arith, All, length}
use dedup.Metadata.{Pointer}
use dedup.Rb.Sorted.{sorted_list, sorted_list-IsRbTree}
use dedup.Duplicates.Lists.{new_duplicate_tree-IsDuplicates}
use dedup.Visit.{VisitContext, new_context, visit_entry, visit_all}
use dedup.Visit.Correct.{IsContext, IsVisit, visit_entry-IsVisit}
use dedup.Visit.Gathering.{
  IsGathered, visit_all-IsGathered, new_context-IsContext, new_context-IsGathered,
}
use dedup.Visit.Complete.{IsFoundEntry, visit_all-IsFound}
use dedup.Tests.{
  byte_digest, bytes, bytes-IsHashing, file_a, copy_of_a, unread, one_file, one_file-IsVisited,
}

-- One file was visited.
abbrev one_visited : VisitContext sorted_list
one_visited = record (new_context sorted_list) { visited = one_file }

one_visited-IsContext : IsContext sorted_list byte_digest 0 one_visited
unfolding new_context
one_visited-IsContext = record {
  visited = one_file-IsVisited;
  duplicates = new_duplicate_tree-IsDuplicates sorted_list sorted_list-IsRbTree;
}

visit_entry_example :
    (after : VisitContext sorted_list) × (visit_entry sorted_list bytes 101
        (some (record { address = 100; target = copy_of_a }))
        one_visited
      ≡ some after)
    × IsVisit sorted_list byte_digest 101
        (record { address = 100; target = copy_of_a })
        one_visited
        after
    × IsContext sorted_list byte_digest 2 after
visit_entry_example =
    visit_entry-IsVisit sorted_list sorted_list-IsRbTree bytes-IsHashing 101
      (record { address = 100; target = copy_of_a }) (unread copy_of_a refl refl) one_visited 0
      one_visited-IsContext (omega arith)

abbrev three_entries : List (ℕ × Option Pointer)
three_entries =
    (201, some (record { address = 200; target = file_a }))
    ∷ (203, none)
    ∷ (205, some (record { address = 204; target = copy_of_a }))
    ∷ []

visit_all_example :
    (after : VisitContext sorted_list) × (visit_all sorted_list bytes three_entries
        (new_context sorted_list)
      ≡ some after)
    × IsContext sorted_list byte_digest 6 after
    × IsGathered sorted_list byte_digest (λ p. length p ≡ 2) after
visit_all_example =
    visit_all-IsGathered sorted_list sorted_list-IsRbTree bytes-IsHashing (λ p. length p ≡ 2)
      three_entries (new_context sorted_list) 0
      (unread file_a refl refl, (tt, (unread copy_of_a refl refl, tt))) (refl, (tt, (refl, tt)))
      (new_context-IsContext sorted_list sorted_list-IsRbTree byte_digest)
      (new_context-IsGathered sorted_list sorted_list-IsRbTree byte_digest (λ p. length p ≡ 2))
      (omega arith)

three_run :
    (after : VisitContext sorted_list) × (visit_all sorted_list bytes three_entries
        (new_context sorted_list)
      ≡ some after)
three_run =
    let (after, run, _, _) =
      visit_all-IsGathered sorted_list sorted_list-IsRbTree bytes-IsHashing (λ p. Unit)
        three_entries (new_context sorted_list) 0
        (unread file_a refl refl, (tt, (unread copy_of_a refl refl, tt))) (tt, (tt, (tt, tt)))
        (new_context-IsContext sorted_list sorted_list-IsRbTree byte_digest)
        (new_context-IsGathered sorted_list sorted_list-IsRbTree byte_digest (λ p. Unit))
        (omega arith) in
    (after, run)

visit_all-IsFound_example : All (IsFoundEntry sorted_list byte_digest three_run.0) three_entries
visit_all-IsFound_example =
    visit_all-IsFound sorted_list sorted_list-IsRbTree bytes-IsHashing three_entries
      (new_context sorted_list) 0 (unread file_a refl refl, (tt, (unread copy_of_a refl refl, tt)))
      (new_context-IsContext sorted_list sorted_list-IsRbTree byte_digest) (omega arith) three_run.0
      three_run.1
