-- ===== src/Tests/Agreement.antt =====
-- The files of Threads, scanned by a worker and without threads.
use mathlib.Core.List.{Permᴰ}
use mathlib.Core.Option.{some-injective}
use dedup.Prelude.{◌≡◌, refl, true, some, List, arith, All, ap, ◌∙◌, map, sym}
use dedup.Prelude.Int.{pos}
use dedup.Metadata.{FileMetadata, Sha256}
use dedup.Rb.Order.{compare_int, compare_signed}
use dedup.Rb.Sorted.{sorted_list, sorted_list-IsRbTree}
use dedup.Os.Memory.{memory_os}
use dedup.Entry.{FileEntry, metadata_from_entry, read_ends, fill, is_negative, to_char}
use dedup.Utils.{get_clone_id}
use dedup.Queue.{new_file_entry_queue}
use dedup.Duplicates.Lists.{duplicates_of}
use dedup.Visited.Classes.{Class, class_of, same_class}
use dedup.Visit.{VisitContext, new_context}
use dedup.Visit.Exact.{targets}
use dedup.Workers.Accounts.{queued}
use dedup.Workers.Readings.{MetReading}
use dedup.Main.Serial.{scan_serial}
use dedup.Main.Parallel.{Reach-scan_serial}
use dedup.Tests.{byte_digest, bytes, bytes-IsHashing}
use dedup.Tests.Reading.{names}
use dedup.Tests.Scanning.{
  both-IsSized, ax_entry, list_queue, list_queue-IsStailq, memory, both, scanned, scanned_workers,
  scanned_emptied, scanned-AllExited, both_placed,
}

-- The class of both entries that main queues in Threads.
abbrev class_ax : Class
class_ax = record {
  device = ax_entry.device;
  size = ax_entry.size;
  first = pos b'a';
  last = pos b'x';
}

abbrev OfClass : FileMetadata → Type 0
OfClass f = class_of f ≡ class_ax

OfClass-same_class :
    (f g : FileMetadata) → OfClass f → OfClass g → same_class (class_of f) (class_of g) ≡ true
unfolding compare_int compare_signed
OfClass-same_class f g a b =
    ap (λ k. same_class k (class_of g)) a ∙ ap (λ k. same_class class_ax k) b

both-OfClass :
    All
      (MetReading sorted_list byte_digest
        (λ fe. metadata_from_entry memory_os names fe memory)
        OfClass)
      (map queued both)
unfolding metadata_from_entry read_ends fill is_negative to_char get_clone_id
both-OfClass = (
  λ f readable. ap class_of (sym (some-injective _ f readable)),
  (λ f readable. ap class_of (sym (some-injective _ f readable)), tt),
)

Reach-scan_serial_example :
    (out : List FileEntry × VisitContext sorted_list) × (scan_serial sorted_list memory_os names
        list_queue memory bytes 1 both_placed
        (new_file_entry_queue list_queue)
        (new_context sorted_list)
      ≡ some out)
    × ((sha : Sha256)
        → Permᴰ
            (targets (duplicates_of sorted_list scanned.0.shared.ctx.duplicates sha))
            (targets (duplicates_of sorted_list out.1.duplicates sha)))
Reach-scan_serial_example =
    Reach-scan_serial sorted_list memory_os names list_queue bytes byte_digest memory
      list_queue-IsStailq sorted_list-IsRbTree bytes-IsHashing OfClass
      (λ f g a b _. OfClass-same_class f g a b) both (omega arith) both-IsSized both-OfClass 1
      scanned.1 scanned-AllExited scanned_emptied scanned_workers.3 0 both_placed refl
