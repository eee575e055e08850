-- ===== src/Entry.antt =====
-- utils.c: `metadata_from_entry`, which reads the first and the last character of a file. A `FILE` is
-- passed from call to call, and the state of the system is not changed; closing is left out.
pub mod Ends
use dedup.Prelude.{ℕ, ◌-◌, ◌%◌, ◌^◌, Bool, Option, none, some, ltb, leb, if◌then◌else◌}
use dedup.Prelude.Int.{ℤ, pos, negsuc}
use dedup.Metadata.{CString, FileMetadata, empty_sha256}
use dedup.Os.{Os}
use dedup.Utils.{get_clone_id}

-- queue.h: what main knows of a file that it queues.
pub record FileEntry : Type 0 where
  pub path : CString
  pub device : ℤ
  pub inode : ℕ
  pub nlink : ℕ
  pub flags : ℕ
  pub size : ℕ
  pub acls_supported : Bool
  pub level : ℤ

-- The calls of stdio(3). For `fgetc`, `none` is EOF, and all else is a byte; `fseek_last` is
-- `fseek(f, -1, SEEK_END)`, and gives an `int` by its bits.
pub record Stdio (State : Type 0) : Type 1 where
  pub Stream : Type 0
  pub fopen : CString → State → Option Stream
  pub fgetc : Stream → Option ℕ × Stream
  pub fseek_last : Stream → ℕ × Stream

-- What is left of an `int` in a `char`, which is signed.
unfoldable pub to_char : ℕ → ℤ
to_char c = if ltb (c % 2 ^ 8) (2 ^ 7) then pos (c % 2 ^ 8) else negsuc (2 ^ 8 - 1 - c % 2 ^ 8)

-- An `int` is below 0.
unfoldable pub is_negative : ℕ → Bool
is_negative i = leb (2 ^ 31) (i % 2 ^ 32)

-- The metadata of an entry with the two characters read.
unfoldable pub fill : FileEntry → ℕ → Option (ℤ × ℤ) → Option FileMetadata
fill fe clone_id none = none
fill fe clone_id (some (first, last)) = some (record {
  device = fe.device;
  inode = fe.inode;
  nlink = fe.nlink;
  flags = fe.flags;
  clone_id = clone_id;
  size = fe.size;
  path = fe.path;
  sha256 = empty_sha256;
  first = first;
  last = last;
})

module _ (os : Os) (stdio : Stdio os.State) where
  -- The part that follows the call of fopen: the first character, then the last one.
  unfoldable pub read_ends : stdio.Stream → Option (ℤ × ℤ)
  read_ends f =
      let (first, f') = stdio.fgetc f in
      let (result, f'') = stdio.fseek_last f' in
      elim first [
        | none ↦ none
        | some c ↦
            if is_negative result
            then none
            else elim (stdio.fgetc f'').0 [ none ↦ none | some d ↦ some (to_char c, to_char d) ]
      ]

  unfoldable pub metadata_from_entry : FileEntry → os.State → Option FileMetadata
  unfolding read_ends fill
  metadata_from_entry fe s = elim (stdio.fopen fe.path s) [
    | none ↦ none
    | some f ↦ fill fe (get_clone_id os fe.path s) (read_ends f)
  ]
