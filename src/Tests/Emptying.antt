-- ===== src/Tests/Emptying.antt =====
-- What is freed, at concrete data.
use dedup.Prelude.{◌≡◌, ◌++◌, some, [], ◌∷◌, arith}
use dedup.Rb.Sorted.{sorted_list, sorted_list-IsRbTree}
use dedup.Os.Memory.{memory_os}
use dedup.Freeing.{tree, free_visited_tree, free_duplicate_tree}
use dedup.Freeing.Ends.{blocks_of}
use dedup.Freeing.Seen.{visited_blocks, free_visited_tree_lem}
use dedup.Freeing.Listed.{node_blocks}
use dedup.Freeing.Scanned.{Reach-free_duplicate_tree}
use dedup.Tests.{bytes, byte_digest, bytes-IsHashing, one_file}
use dedup.Tests.Reading.{names}
use dedup.Tests.Scanning.{both-IsSized, list_queue, list_queue-IsStailq, memory, both, scanned}

free_visited_tree_example :
    free_visited_tree sorted_list one_file ≡ some (visited_blocks sorted_list one_file)
free_visited_tree_example = free_visited_tree_lem sorted_list sorted_list-IsRbTree one_file

Reach-free_duplicate_tree_example :
    free_duplicate_tree sorted_list scanned.0.shared.ctx.duplicates
    ≡ some (blocks_of node_blocks scanned.0.shared.ctx.duplicates ++ tree ∷ [])
Reach-free_duplicate_tree_example =
    Reach-free_duplicate_tree sorted_list memory_os names list_queue bytes byte_digest memory
      list_queue-IsStailq sorted_list-IsRbTree bytes-IsHashing 1 both (omega arith) both-IsSized
      scanned.1
