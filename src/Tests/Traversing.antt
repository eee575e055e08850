-- ===== src/Tests/Traversing.antt =====
-- The loop of main over the entries of fts(3), at concrete data.
use dedup.Prelude.{ℕ, ◌≡◌, refl, Bool, false, none, some, List, [], ◌∷◌, arith, ◌==◌, if◌then◌else◌}
use dedup.Prelude.Int.{ℤ, pos, negsuc}
use dedup.Metadata.{CString}
use dedup.Os.Memory.{Memory, memory_os}
use dedup.Clone.{tmp_name, join_tmp, claim_name}
use dedup.Main.Options.{default_options}
use dedup.Main.Traversal.{
  Volumes, is_clonefile_supported, is_vol_cap_supported, Ftsent, FtsInfo, fts_d, fts_f,
  new_traversal, to_file_entry, traverse, read_entry, ask_volume, leaves_volume, judge,
  looks_staged,
}
use dedup.Main.Traversal.Wanted.{wanted_entries, traverse_lem}
use dedup.Main.Traversal.Staged.{staging_file-queued}

-- Paths that begin with a slash are on a volume that cannot clone.
abbrev pub volumes : Volumes
volumes = record {
  statfs = λ p. some p;
  vol_interfaces = λ p. elim p [ [] ↦ none | c ∷ rest ↦ if c == b'/' then some 4 else some 5 ];
  vol_cap_int_clone = 1;
}

-- The slash is device 2.
abbrev can_clone : ℤ → Bool
can_clone (pos dev) = dev == 1
can_clone (negsuc dev) = false

abbrev entry : CString → FtsInfo → ℤ → ℕ → Ftsent
entry path info dev size = record {
  fts_errno = 0;
  fts_path = path;
  fts_level = pos 1;
  fts_info = info;
  st_dev = dev;
  st_ino = 5;
  st_nlink = 1;
  st_flags = 0;
  st_size = size;
}

abbrev entries : List Ftsent
entries =
    entry (b'd' ∷ []) fts_d (pos 1) 64
    ∷ entry (b'd' ∷ b'/' ∷ b'a' ∷ []) fts_f (pos 1) 3
    ∷ entry (b'/' ∷ b'b' ∷ []) fts_f (pos 2) 3
    ∷ entry (b'd' ∷ b'/' ∷ b'c' ∷ []) fts_f (pos 1) 0
    ∷ record (entry [] fts_f (negsuc 0) 3) { fts_errno = 13 }
    ∷ []

traverse_run :
    traverse volumes (default_options 4) entries new_traversal
    ≡ to_file_entry (entry (b'd' ∷ b'/' ∷ b'a' ∷ []) fts_f (pos 1) 3) ∷ []
unfolding traverse read_entry ask_volume leaves_volume judge looks_staged default_options
    is_clonefile_supported is_vol_cap_supported
traverse_run = refl

traverse_lem_example :
    traverse volumes (default_options 4) entries new_traversal
    ≡ wanted_entries can_clone (default_options 4) entries
unfolding is_clonefile_supported is_vol_cap_supported
traverse_lem_example = traverse_lem volumes can_clone (default_options 4) entries (
  (λ fine. (refl, λ e. absurd (ground arith))),
  (
    (λ fine. (refl, λ e. absurd (ground arith))),
    (
      (λ fine. (refl, λ e. absurd (ground arith))),
      ((λ fine. (refl, λ e. absurd (ground arith))), ((λ fine. absurd (omega (arith, fine))), tt)),
    ),
  ),
)

abbrev empty_disk : Memory
empty_disk = record { files = λ p. none; error = 0 }

-- "./.~.a"
abbrev staging_path : CString
staging_path = b'.' ∷ b'/' ∷ b'.' ∷ b'~' ∷ b'.' ∷ b'a' ∷ []

staging_path_run : (tmp_name memory_os (b'a' ∷ []) 1024 empty_disk).0 ≡ some staging_path
unfolding tmp_name join_tmp claim_name
staging_path_run = refl

staging_file-queued_example :
    traverse volumes (default_options 4) (entry staging_path fts_f (pos 1) 3 ∷ []) new_traversal
    ≡ to_file_entry (entry staging_path fts_f (pos 1) 3) ∷ []
unfolding default_options is_clonefile_supported is_vol_cap_supported
staging_file-queued_example =
    staging_file-queued memory_os (b'a' ∷ []) (b'.' ∷ []) 1024 empty_disk volumes
      (default_options 4) (entry staging_path fts_f (pos 1) 3) refl refl staging_path_run refl refl
      refl (λ e. absurd (omega (arith, e))) (λ e. absurd (ground arith)) refl
