-- ===== src/Tests/Threads.antt =====
-- What is shown of the threads, of a run of main with a worker.
use dedup.Metadata.{CString}
use dedup.Prelude.{
  ◌+◌, ◌≤◌, ◌∙◌, ℕ, ◌≡◌, refl, false, some, List, [], ◌∷◌, arith, inl, inr, Option-cases, All,
}
use dedup.Rb.Sorted.{sorted_list, sorted_list-IsRbTree}
use dedup.Os.Memory.{Memory, memory_os}
use dedup.Entry.{FileEntry}
use dedup.Workers.{Worker, starting, exited, dedup_work, System, Reach}
use dedup.Workers.Safety.{AllExited, IsFinished, Reach-IsOf, Reach-IsFinished, dedup_work_steps}
use dedup.Visit.{new_context}
use dedup.Queue.{new_file_entry_queue}
use dedup.Prelude.{sym}
use dedup.Visit.Gathering.{IsOf}
use dedup.Workers.Linear.{IsOpened}
use dedup.Duplicates.Lists.{duplicates_of}
use dedup.Workers.{Shared}
use dedup.Workers.Lost.{Reach-unvisited}
use dedup.Tests.{byte_digest, bytes, bytes-IsHashing}
use dedup.Tests.Reading.{names}
use dedup.Tests.Deduplicating.{same_pair, context}
use dedup.Os.{File}
use dedup.Os.Memory.{memory_os-IsPosix}
use dedup.Replacing.{Context}
use dedup.Replacing.Keeps.{SameContent}
use dedup.Main.{deduplicate_all}
use dedup.Visit.{VisitContext}
use dedup.Main.Serial.{scan_serial, IsScanned, scan_serial-IsScanned}
use dedup.Main.Contents.{Reach-SameContent}
use dedup.Workers.Ends.{Running, still_here, steps_left, Reach-Ends}
use dedup.Tests.Scanning.{
  both-IsSized, begun, begun-done, list_queue, list_queue-IsStailq, ax_entry, both, memory, started,
  scanned, scanned-AllExited, both_placed,
}

Reach-IsFinished_example :
    IsFinished sorted_list memory_os names list_queue bytes byte_digest memory list_queue-IsStailq
      both scanned.0
Reach-IsFinished_example =
    Reach-IsFinished sorted_list memory_os names list_queue bytes byte_digest memory
      list_queue-IsStailq sorted_list-IsRbTree bytes-IsHashing 1 both (omega arith) both-IsSized
      scanned.1 scanned-AllExited

Reach-IsOf_example :
    All
      (IsOf sorted_list byte_digest
        (IsOpened sorted_list memory_os names bytes byte_digest memory)
        (byte_digest.of_path ax_entry.path))
      (duplicates_of sorted_list scanned.0.shared.ctx.duplicates
        (byte_digest.of_path ax_entry.path))
Reach-IsOf_example =
    Reach-IsOf sorted_list memory_os names list_queue bytes byte_digest memory list_queue-IsStailq
      sorted_list-IsRbTree bytes-IsHashing 1 both (omega arith) both-IsSized scanned.1
      (byte_digest.of_path ax_entry.path)

dedup_work_steps_example :
    (o : Shared sorted_list memory_os names list_queue × Worker) × (dedup_work sorted_list memory_os
        names list_queue bytes memory 50 started.0.shared starting
      ≡ some o)
dedup_work_steps_example =
    dedup_work_steps sorted_list memory_os names list_queue bytes byte_digest memory
      list_queue-IsStailq sorted_list-IsRbTree bytes-IsHashing 1 both (omega arith) both-IsSized
      started.1 0 50 starting refl

Reach-Ends_example :
    (m : ℕ) × (z : System sorted_list memory_os names list_queue) × Running sorted_list memory_os
      names list_queue bytes memory m begun.0 z
    × AllExited sorted_list memory_os names list_queue bytes byte_digest memory list_queue-IsStailq
        z
    × (0 + m
        ≤ steps_left sorted_list memory_os names list_queue bytes memory list_queue-IsStailq
            begun.0)
Reach-Ends_example =
    Reach-Ends sorted_list memory_os names list_queue bytes byte_digest memory list_queue-IsStailq
      sorted_list-IsRbTree bytes-IsHashing 1 both (omega arith) both-IsSized begun.1 begun-done
      (still_here begun.0)

Reach-unvisited_example :
    (x : System sorted_list memory_os names list_queue) × Reach sorted_list memory_os names
      list_queue bytes memory 2 both x
    × (x.todo ≡ [])
    × (x.workers ≡ exited ∷ exited ∷ [])
    × (x.shared.ctx ≡ new_context sorted_list)
    × (x.shared.queue ≡ both)
unfolding list_queue-IsStailq
Reach-unvisited_example =
    Reach-unvisited sorted_list memory_os names list_queue bytes memory list_queue-IsStailq 2 both
      (omega arith)

pub names-there :
    (p : CString) (stream : List ℕ × ℕ)
    → names.fopen p memory ≡ some stream
    → (f : File) × (memory.files p ≡ some f)
names-there p stream opened = elim (Option-cases (memory.files p)) [
  | inl absent ↦ absurd (ground arith)
  | inr there ↦ there
]

pub one_content : (p : CString) (f : File) → memory.files p ≡ some f → same_pair f.blocks ≡ 0
one_content p f there = ground arith

Reach-SameContent_example :
    (out : Context × Memory) × (deduplicate_all memory_os sorted_list
        scanned.0.shared.ctx.duplicates
        (context false)
        memory
      ≡ some out)
    × SameContent memory_os same_pair memory out.1
Reach-SameContent_example =
    Reach-SameContent memory_os names sorted_list sorted_list-IsRbTree same_pair byte_digest memory
      names-there (λ p q f g at_p at_q same. one_content p f at_p ∙ sym (one_content q g at_q))
      memory_os-IsPosix list_queue list_queue-IsStailq bytes bytes-IsHashing 1 both (omega arith)
      both-IsSized scanned.1 (context false) refl

scan_serial-IsScanned_example :
    (out : List FileEntry × VisitContext sorted_list) × (scan_serial sorted_list memory_os names
        list_queue memory bytes 1 both_placed []
        (new_context sorted_list)
      ≡ some out)
    × IsScanned sorted_list memory_os names list_queue memory sorted_list-IsRbTree bytes byte_digest
        bytes-IsHashing list_queue-IsStailq both_placed out
unfolding new_file_entry_queue
scan_serial-IsScanned_example =
    scan_serial-IsScanned sorted_list memory_os names list_queue memory sorted_list-IsRbTree bytes
      byte_digest bytes-IsHashing list_queue-IsStailq 0 both_placed (omega arith) both-IsSized
