-- ===== src/Tests/Scanning.antt =====
-- Two files, and main with a worker that scans them.
use dedup.Workers.Linear.{IsSized}
use dedup.Prelude.{
  All, if◌then◌else◌, ℕ, ◌≡◌, refl, true, false, Option, none, some, List, [], ◌∷◌, ◌++◌, arith,
  inl, inr, Option-cases, get_elem?, zero, suc,
}
use mathlib.Core.List.{foldl}
use dedup.Rb.Sorted.{sorted_list}
use dedup.Os.Memory.{Memory, memory_os}
use dedup.Entry.{FileEntry}
use dedup.Queue.{Stailq, IsStailq}
use dedup.Queue.Fifo.{List-cases}
use dedup.Workers.{Worker, exited, dedup_work, System, append, all_queued, work, Reach, here, next}
use dedup.Workers.Safety.{AllExited}
use dedup.AList.{alist_size, alist_empty, alist_add, alist_ensure, new_alist_with_capacity}
use dedup.Rb.{find_or_create}
use dedup.Rb.Order.{compare_signed, compare_int, memcmp}
use dedup.Metadata.{populate_sha256_if_empty, could_not_hash, sha_is_empty}
use dedup.Visited.{new_visited_tree, visited_tree_insert, visited_tree_find_or_create_last_node}
use dedup.Visited.Keys.{
  compare_device_key, compare_size_key, compare_char_key, compare_device_node, compare_size_node,
  compare_char_node,
}
use dedup.Duplicates.{
  duplicate_tree_count, new_duplicate_tree, duplicate_tree_find, compare_metadata_sha256_list_key,
}
use dedup.Visit.{new_context, add_duplicate, count_found}
use dedup.Entry.{metadata_from_entry, read_ends, fill, is_negative, to_char}
use dedup.Utils.{get_clone_id}
use dedup.Queue.{new_file_entry_queue, file_entry_queue_append, file_entry_next}
use mathlib.Core.Option.{some-injective}
use dedup.Prelude.{subst, sym}
use dedup.Tests.{byte_digest, bytes}
use dedup.Tests.Reading.{names, ab_entry}
use dedup.Tests.Deduplicating.{same_path}
use dedup.Main.Serial.{Placed}

-- A list is a queue.
abbrev pub list_queue : Stailq
list_queue = record {
  Head = List FileEntry;
  stailq_init = [];
  stailq_empty = λ es. elim es [ [] ↦ true | e ∷ rest ↦ false ];
  stailq_first = λ es. elim es [ [] ↦ none | e ∷ rest ↦ some e ];
  stailq_insert_tail = λ es e. es ++ e ∷ [];
  stailq_remove = λ es e. elim es [ [] ↦ [] | e ∷ rest ↦ rest ];
}

unfoldable pub list_queue-IsStailq : IsStailq list_queue
list_queue-IsStailq = record {
  entries = λ es. es;
  entries-init = refl;
  empty = λ es none_there. ground arith;
  filled = λ es e rest there. ground arith;
  entries-insert = λ es e. refl;
}

abbrev pub ax_entry : FileEntry
ax_entry = record ab_entry { size = 1; path = b'a' ∷ b'x' ∷ [] }

-- Of the same class and content as the first.
abbrev pub ayx_entry : FileEntry
ayx_entry = record ab_entry { size = 1; path = b'a' ∷ b'y' ∷ b'x' ∷ []; inode = 8 }

abbrev pub both : List FileEntry
both = ax_entry ∷ ayx_entry ∷ []

pub both-IsSized : All (IsSized byte_digest) both
both-IsSized = (refl, (refl, tt))

-- Two files with blocks of their own, and no other.
abbrev pub memory : Memory
memory = record {
  files = λ p.
      if same_path p ax_entry.path
      then some (record { blocks = 1; size = 2; attributes = 7 })
      else if same_path p ayx_entry.path
      then some (record { blocks = 2; size = 2; attributes = 8 })
      else none;
  error = 0;
}

abbrev pub Threads : Type 0
Threads =
    (x : System sorted_list memory_os names list_queue) × Reach sorted_list memory_os names
      list_queue bytes memory 1 both x

-- main goes on: it queues an entry, or sets `done`.
abbrev main_step : Threads → Threads
main_step (x, r) = elim (List-cases x.todo) [
  | inl none_left ↦ (_, next r (all_queued none_left))
  | inr (fe, rest, todo) ↦ (_, next r (append fe rest todo))
]

abbrev worker_step : ℕ → Threads → Threads
worker_step address (x, r) = elim (Option-cases (get_elem? x.workers 0)) [
  | inl no_worker ↦ (x, r)
  | inr (w, at) ↦
      elim (Option-cases
        (dedup_work sorted_list memory_os names list_queue bytes memory address x.shared w)) [
          | inl stuck ↦ (x, r)
          | inr ((shared, w'), run) ↦ (_, next r (work 0 address w w' shared at run))
        ]
]

abbrev pub started : Threads
started = (_, here (omega arith))

-- `none` is a step of main, and an address one of the worker.
turn : Threads → Option ℕ → Threads
turn t none = main_step t
turn t (some address) = worker_step address t

-- main queues both and sets `done`, and the worker has begun.
pub begun : Threads
unfolding turn
begun = foldl turn started (none ∷ none ∷ some 1 ∷ none ∷ [])

pub begun-done : begun.0.shared.done ≡ true
unfolding begun Option-cases List-cases dedup_work
begun-done = refl

-- main queues both, the worker visits both, and returns when `done` is set.
pub scanned : Threads
unfolding turn
scanned = foldl turn started (
    none
    ∷ none
    ∷ some 1
    ∷ some 2
    ∷ some 3
    ∷ some 4
    ∷ some 5
    ∷ some 6
    ∷ some 7
    ∷ none
    ∷ some 8
    ∷ some 9
    ∷ [])

pub scanned_workers :
    (scanned.0.workers ≡ exited ∷ [])
    × (duplicate_tree_count sorted_list scanned.0.shared.ctx.duplicates ≡ 2)
    × (scanned.0.shared.queue ≡ [])
    × (scanned.0.todo ≡ [])
unfolding scanned Option-cases List-cases dedup_work file_entry_next file_entry_queue_append
    compare_metadata_sha256_list_key new_file_entry_queue new_context metadata_from_entry read_ends
    fill is_negative to_char get_clone_id visited_tree_insert new_visited_tree new_duplicate_tree
    visited_tree_find_or_create_last_node compare_device_key compare_size_key compare_char_key
    compare_device_node compare_size_node compare_char_node compare_signed compare_int memcmp
    populate_sha256_if_empty could_not_hash sha_is_empty duplicate_tree_find add_duplicate
    count_found alist_empty alist_add alist_ensure find_or_create new_alist_with_capacity
    duplicate_tree_count alist_size
scanned_workers = (refl, refl, refl, refl)

pub scanned_emptied : list_queue-IsStailq.entries scanned.0.shared.queue ≡ []
unfolding list_queue-IsStailq
scanned_emptied = scanned_workers.2

pub scanned-AllExited :
    AllExited sorted_list memory_os names list_queue bytes byte_digest memory list_queue-IsStailq
      scanned.0
scanned-AllExited i w at = alone i w (subst (λ ws. get_elem? ws i ≡ some w) scanned_workers.0 at)
  where
    alone : (i : ℕ) (w : Worker) → get_elem? (exited ∷ []) i ≡ some w → w ≡ exited
    alone zero w at = sym (some-injective exited w at)
    alone (suc i) w at = absurd (ground arith)

abbrev pub both_placed : List Placed
both_placed =
    record { entry = ax_entry; own = 1; copy = 2 }
    ∷ record { entry = ayx_entry; own = 3; copy = 4 }
    ∷ []
