-- ===== src/Main/Traversal.antt =====
-- dedup.c, main: which of the entries that fts_read(3) gives are queued. The entries come one after
-- another; that FTS_SKIP keeps fts_read from descending is seen in which entries come later.
pub mod Wanted
pub mod Staged
use Prim.Native.Nat.{bit_and}
use dedup.Prelude.{
  ℕ, ◌+◌, Bool, true, false, not, ◌&&◌, ◌||◌, Option, none, some, List, [], ◌∷◌, ◌==◌,
  if◌then◌else◌,
}
use dedup.Prelude.Int.{ℤ, pos, negsuc, ltb_ℤ}
use dedup.Metadata.{CString}
use dedup.Entry.{FileEntry}
use dedup.Replacing.{is_clone_mode}
use dedup.Main.Options.{Options}

-- statfs(2), with the mount point, and getattrlist(2) of the capabilities of the interfaces of a
-- volume; `none` is an error. The number of a capability is the system's.
pub record Volumes : Type 0 where
  pub statfs : CString → Option CString
  pub vol_interfaces : CString → Option ℕ
  pub vol_cap_int_clone : ℕ

unfoldable pub is_vol_cap_supported : Volumes → CString → ℕ → Bool
is_vol_cap_supported volumes path vol_cap = elim (volumes.statfs path) [
  | none ↦ false
  | some mntonname ↦ elim (volumes.vol_interfaces mntonname) [
    | none ↦ false
    | some interfaces ↦ not (bit_and interfaces vol_cap == 0)
  ]
]

unfoldable pub is_clonefile_supported : Volumes → CString → Bool
unfolding is_vol_cap_supported
is_clonefile_supported volumes path = is_vol_cap_supported volumes path volumes.vol_cap_int_clone

pub data FtsInfo : Type 0 where
  fts_d fts_dc fts_default fts_dnr fts_dot fts_dp fts_err fts_f fts_ns fts_nsok fts_sl fts_slnone :
      FtsInfo

pub record Ftsent : Type 0 where
  pub fts_errno : ℕ
  pub fts_path : CString
  pub fts_level : ℤ
  pub fts_info : FtsInfo
  pub st_dev : ℤ
  pub st_ino : ℕ
  pub st_nlink : ℕ
  pub st_flags : ℕ
  pub st_size : ℕ

-- The variables of the loop.
pub record Traversal : Type 0 where
  pub current_dev : ℤ
  pub clonefile_supported : Bool

abbrev pub new_traversal : Traversal
new_traversal = record { current_dev = negsuc 0; clonefile_supported = false }

pub data Verdict : Type 0 where
  passed_over : Verdict
  -- FTS_SKIP was set
  pruned : Verdict
  -- handed to `file_entry_queue_append`
  queued : FileEntry → Verdict

abbrev pub is_directory : FtsInfo → Bool
is_directory info = elim info [
  | fts_d ↦ true
  | fts_dc ↦ true
  | fts_dnr ↦ true
  | fts_dot ↦ true
  | fts_dp ↦ true
  | _ ↦ false
]

abbrev pub is_fts_f : FtsInfo → Bool
is_fts_f info = elim info [ fts_f ↦ true | _ ↦ false ]

-- The test for the name of a failed clone.
unfoldable pub looks_staged : CString → Bool
looks_staged (a ∷ b ∷ c ∷ d ∷ rest) = a == b'.' && (b == b'~' && c == b'.')
looks_staged _ = false

-- What main hands to `file_entry_queue_append`, as that fills a `FileEntry`.
abbrev pub to_file_entry : Ftsent → FileEntry
to_file_entry entry = record {
  path = entry.fts_path;
  device = entry.st_dev;
  inode = entry.st_ino;
  nlink = entry.st_nlink;
  flags = entry.st_flags;
  size = entry.st_size;
  acls_supported = false;
  level = entry.fts_level;
}

abbrev pub same_dev : ℤ → ℤ → Bool
same_dev a b = not (ltb_ℤ a b) && not (ltb_ℤ b a)

-- The part of the body of the loop that asks for the capability of a volume.
unfoldable pub ask_volume : Volumes → Options → Ftsent → Traversal → Traversal
unfolding is_clonefile_supported
ask_volume volumes o entry t =
    if is_clone_mode o.replace_mode && not (same_dev t.current_dev entry.st_dev)
    then record {
      current_dev = entry.st_dev;
      clonefile_supported = is_clonefile_supported volumes entry.fts_path;
    }
    else t

-- FTS_SKIP is set where the volume was just asked, cannot clone, and no other can be reached.
unfoldable pub leaves_volume : Options → Ftsent → Traversal → Traversal → Bool
leaves_volume o entry t t' =
    is_clone_mode o.replace_mode
    && (not (same_dev t.current_dev entry.st_dev) && (not t'.clonefile_supported && o.xdev))

-- The tests that follow.
unfoldable pub judge : Options → Ftsent → Traversal → Verdict
unfolding looks_staged
judge o entry t =
    if is_clone_mode o.replace_mode && not t.clonefile_supported
    then passed_over
    else if is_directory entry.fts_info
    then passed_over
    else if not (is_fts_f entry.fts_info)
    then passed_over
    else if entry.st_size == 0
    then passed_over
    else if looks_staged entry.fts_path
    then passed_over
    else queued (to_file_entry entry)

-- The body of the loop.
unfoldable pub read_entry : Volumes → Options → Ftsent → Traversal → Verdict × Traversal
unfolding ask_volume leaves_volume judge
read_entry volumes o entry t =
    if not (entry.fts_errno == 0)
    then (passed_over, t)
    else if ltb_ℤ (pos (o.max_depth + 1)) entry.fts_level
    then (pruned, t)
    else let t' = ask_volume volumes o entry t in
      if leaves_volume o entry t t' then (pruned, t') else (judge o entry t', t')

-- The loop: the entries that it queues.
unfoldable pub traverse : Volumes → Options → List Ftsent → Traversal → List FileEntry
unfolding read_entry
traverse volumes o [] t = []
traverse volumes o (entry ∷ entries) t =
    let (verdict, t') = read_entry volumes o entry t in
    let rest = traverse volumes o entries t' in elim verdict [ queued fe ↦ fe ∷ rest | _ ↦ rest ]
