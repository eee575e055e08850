-- ===== src/Tests/Reading.antt =====
-- `metadata_from_entry` at concrete data.
use mathlib.Core.Option.{some-injective}
use dedup.Prelude.{
  arith, Option-cases, inl, inr, ℕ, ◌-◌, ◌≡◌, refl, false, Option, none, some, List, [], ◌∷◌,
  length, suc,
}
use dedup.Prelude.Int.{pos}
use dedup.Metadata.{CString}
use dedup.Os.Memory.{Memory, memory_os, write}
use dedup.Entry.{FileEntry, Stdio, metadata_from_entry}
use dedup.Entry.Ends.{IsStdio, byte_at, metadata_of, metadata_from_entry_lem}

-- A file that exists holds its own name. A stream is those bytes and a position.
abbrev own_name : Memory → CString → Option (List ℕ)
own_name s p = elim (s.files p) [ none ↦ none | some f ↦ some p ]

abbrev pub names : Stdio Memory
names = record {
  Stream = List ℕ × ℕ;
  fopen = λ p s. elim (s.files p) [ none ↦ none | some f ↦ some (p, 0) ];
  fgetc = λ f. (byte_at f.0 f.1, (f.0, suc f.1));
  fseek_last = λ f. (0, (f.0, length f.0 - 1));
}

pub names-IsStdio : IsStdio names own_name
names-IsStdio = record {
  bytes = λ f. f.0;
  position = λ f. f.1;
  opens = λ s p bs there. open_name s p bs there;
  opens_not = λ s p absent. ground arith;
  gets = λ f. refl;
  bytes-gets = λ f. refl;
  seeks = λ f some_byte. (refl, refl, refl);
}
  where
    open_name :
        (s : Memory) (p : CString) (bs : List ℕ)
        → own_name s p ≡ some bs
        → (f : List ℕ × ℕ) × (names.fopen p s ≡ some f) × (f.0 ≡ bs) × (f.1 ≡ 0)
    open_name s p bs there = elim (Option-cases (s.files p)) [
      | inl absent ↦ absurd (ground arith)
      | inr (f, exists) ↦
          ((p, 0), rw exists, some-injective p bs (rw (exists, own_name) at there), refl)
    ]

abbrev pub ab_entry : FileEntry
ab_entry = record {
  path = b'a' ∷ b'b' ∷ [];
  device = pos 1;
  inode = 7;
  nlink = 1;
  flags = 0;
  size = 2;
  acls_supported = false;
  level = pos 0;
}

abbrev ab_memory : Memory
ab_memory =
    write ab_entry.path (some (record { blocks = 1; size = 2; attributes = 0 }))
      (record { files = λ p. none; error = 0 })

metadata_from_entry_example :
    metadata_from_entry memory_os names ab_entry ab_memory
    ≡ metadata_of memory_os ab_entry ab_memory (own_name ab_memory ab_entry.path)
metadata_from_entry_example =
    metadata_from_entry_lem memory_os names own_name names-IsStdio ab_entry ab_memory
