-- ===== src/Tests/Running.antt =====
-- main from the command line to its status, at concrete data.
use dedup.Prelude.{ℕ, ◌∙◌, ◌≡◌, refl, sym, true, some, List, [], ◌∷◌, arith}
use dedup.Rb.Sorted.{sorted_list, sorted_list-IsRbTree}
use dedup.Os.Memory.{Memory, memory_os, memory_os-IsPosix}
use dedup.Os.{SameFiles}
use dedup.Entry.{is_negative, FileEntry}
use dedup.Replacing.Keeps.{SameContent}
use dedup.Visit.{VisitContext, new_context}
use dedup.Workers.{here}
use dedup.Main.Options.{Opt, Options, parse_options, parse_option, parse_threads, default_options}
use dedup.Main.Traversal.{Ftsent, fts_f}
use dedup.Main.Program.{begin, check_access, main}
use dedup.Main.Program.Safe.{main_dry, IsSound, main-SameContent}
use dedup.Tests.{byte_digest, bytes, bytes-IsHashing}
use dedup.Tests.Deduplicating.{same_pair}
use dedup.Tests.Options.{atoi}
use dedup.Tests.Reading.{names}
use dedup.Tests.Scanning.{ax_entry, ayx_entry, memory, list_queue, list_queue-IsStailq}
use dedup.Tests.Threads.{names-there, one_content}
use dedup.Tests.Traversing.{volumes}
use dedup.Workers.Linear.{IsSized}
use dedup.Main.Traversal.{traverse, new_traversal}
use dedup.Main.Traversal.Wanted.{traverse-All}
use dedup.Prelude.{All, subst, length, ◌<◌, ◌^◌}
use mathlib.Core.Option.{some-injective}

-- -t 0
abbrev no_threads : List Opt
no_threads = record { ch = b't'; optarg = 0 ∷ [] } ∷ []

abbrev of_entry : FileEntry → Ftsent
of_entry fe = record {
  fts_errno = 0;
  fts_path = fe.path;
  fts_level = fe.level;
  fts_info = fts_f;
  st_dev = fe.device;
  st_ino = fe.inode;
  st_nlink = fe.nlink;
  st_flags = fe.flags;
  st_size = fe.size;
}

-- Threads that have done nothing yet.
abbrev idle : Options → List FileEntry → Memory → VisitContext sorted_list
idle o entries s = new_context sorted_list

memory-IsSound :
    IsSound memory_os sorted_list names list_queue sorted_list-IsRbTree memory_os-IsPosix
      list_queue-IsStailq bytes byte_digest bytes-IsHashing same_pair
      (λ n. n)
      0
      idle
      memory
memory-IsSound = record {
  there = names-there;
  collision_free = λ p q f g at_p at_q same. one_content p f at_p ∙ sym (one_content q g at_q);
  scheduled = λ o entries some_thread. (_, here some_thread, refl);
}

files-AreSized :
    (o : Options)
    → All
        (IsSized byte_digest)
        (traverse volumes o (of_entry ax_entry ∷ of_entry ayx_entry ∷ []) new_traversal)
files-AreSized o =
    traverse-All (IsSized byte_digest) volumes o (of_entry ax_entry ∷ of_entry ayx_entry ∷ [])
      new_traversal (refl, (refl, tt))

-- What Program.Safe asks of the two entries.
files-IsListing :
    (o : Options) (found : List Ftsent)
    → some (of_entry ax_entry ∷ of_entry ayx_entry ∷ []) ≡ some found
    → (length found < 2 ^ 57) × All (IsSized byte_digest) (traverse volumes o found new_traversal)
files-IsListing o found at =
    subst
      (λ es. (length es < 2 ^ 57) × All (IsSized byte_digest) (traverse volumes o es new_traversal))
      (some-injective _ found at) (omega arith, files-AreSized o)

main-SameContent_example :
    (status : ℕ) × (u : Memory) × (main memory_os sorted_list names list_queue bytes
        (λ n. n)
        1
        idle
        volumes
        (λ xdev args s. some (of_entry ax_entry ∷ of_entry ayx_entry ∷ []))
        atoi
        4
        true
        no_threads
        (ax_entry.path ∷ ayx_entry.path ∷ [])
        memory
      ≡ some (status, u))
    × SameContent memory_os same_pair memory u
unfolding begin check_access parse_options parse_option parse_threads default_options is_negative
main-SameContent_example =
    main-SameContent memory_os sorted_list names list_queue sorted_list-IsRbTree memory_os-IsPosix
      list_queue-IsStailq bytes byte_digest bytes-IsHashing same_pair (λ n. n) 0 idle volumes
      (λ xdev args s. some (of_entry ax_entry ∷ of_entry ayx_entry ∷ [])) atoi 4 true no_threads
      (ax_entry.path ∷ ayx_entry.path ∷ []) memory refl memory-IsSound
      (λ o args found at. files-IsListing o found at)

-- -s -n
abbrev dry_links : List Opt
dry_links = record { ch = b's'; optarg = [] } ∷ record { ch = b'n'; optarg = [] } ∷ []

main_dry_example :
    (status : ℕ) × (u : Memory) × (main memory_os sorted_list names list_queue bytes
        (λ n. n)
        1
        idle
        volumes
        (λ xdev args s. some (of_entry ax_entry ∷ of_entry ayx_entry ∷ []))
        atoi
        0
        true
        dry_links
        (ax_entry.path ∷ ayx_entry.path ∷ [])
        memory
      ≡ some (status, u))
    × SameFiles memory_os memory u
unfolding begin check_access parse_options parse_option parse_threads default_options is_negative
main_dry_example =
    main_dry memory_os sorted_list names list_queue sorted_list-IsRbTree memory_os-IsPosix
      list_queue-IsStailq bytes byte_digest bytes-IsHashing same_pair (λ n. n) 0 idle volumes
      (λ xdev args s. some (of_entry ax_entry ∷ of_entry ayx_entry ∷ [])) atoi 0 true dry_links
      (ax_entry.path ∷ ayx_entry.path ∷ []) memory refl memory-IsSound
      (λ o args found at. files-IsListing o found at)
