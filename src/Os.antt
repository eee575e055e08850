-- ===== src/Os.antt =====
-- The interface of the operating system: the calls that clone.c and utils.c make, over a state that
-- the source does not see, and what those calls are documented to do to files.
pub mod Memory
use dedup.Prelude.{
  ℕ, ◌+◌, ◌-◌, ◌^◌, ◌≡◌, ◌≢◌, Bool, true, Option, none, some, List, ◌++◌, length, take,
}
use dedup.Metadata.{CString}

-- What a path leads to: the blocks that hold its data, and its metadata.
pub record File : Type 0 where
  pub blocks : ℕ
  pub size : ℕ
  pub attributes : ℕ

-- An `int` is its bit pattern.
abbrev pub minus_one : ℕ
minus_one = 2 ^ 32 - 1

pub record Os : Type 1 where
  pub State : Type 0
  pub file : State → CString → Option File
  pub errno : State → ℕ
  pub set_errno : ℕ → State → State
  pub dirname_r : CString → State → Option CString × State
  pub basename_r : CString → State → Option CString × State
  -- access(2), for existence and for writing
  pub access_f_ok : CString → State → ℕ × State
  pub access_w_ok : CString → State → ℕ × State
  -- stat(2), with `st_size`
  pub stat : CString → State → ℕ × ℕ × State
  pub clonefile : CString → CString → State → ℕ × State
  -- copyfile(3) with COPYFILE_CHECK | COPYFILE_METADATA, and with COPYFILE_METADATA
  pub copyfile_check : CString → CString → State → ℕ × State
  pub copyfile_metadata : CString → CString → State → ℕ × State
  pub rename : CString → CString → State → ℕ × State
  pub unlink : CString → State → ℕ × State
  pub link : CString → CString → State → ℕ × State
  -- symlink(2), of which the first argument may be NULL
  pub symlink : Option CString → CString → State → ℕ × State
  pub realpath : CString → State → Option CString × State
  -- What becomes of a write past the end of a buffer, of which nothing is known.
  pub overrun : CString → CString → State → CString × State
  -- open(2) for reading, fstat(2) with `st_mtimespec`, futimens(2) of an mtime, close(2)
  pub open_read : CString → State → Option ℕ × State
  pub fstat_mtime : ℕ → State → Option ℕ × State
  pub futimens : ℕ → ℕ → State → ℕ × State
  pub close : ℕ → State → State
  -- getattrlist(2) of one extended attribute, or `none` for an error
  pub clone_id_attr : CString → State → Option ℕ
  pub private_size_attr : CString → State → Option ℕ
  pub ext_flags_attr : CString → State → Option ℕ

module _ (os : Os) where
  -- The files of a state are those of another.
  abbrev pub SameFiles : os.State → os.State → Type 0
  SameFiles s t = (p : CString) → os.file t p ≡ os.file s p

  -- All files but that of one path are the same.
  abbrev pub SameBut : CString → os.State → os.State → Type 0
  SameBut q s t = (p : CString) → p ≢ q → os.file t p ≡ os.file s p

  -- The manual pages of the calls, as far as files go.
  pub record IsPosix : Type 0 where
    pub set_errno-files : (e : ℕ) (s : os.State) → SameFiles s (os.set_errno e s)
    pub errno-set_errno : (e : ℕ) (s : os.State) → os.errno (os.set_errno e s) ≡ e
    -- A call that fails leaves its error in `errno`, and none sets it back to 0.
    pub dirname_r_fails :
        (p : CString) (s : os.State)
        → (os.dirname_r p s).0 ≡ none
        → os.errno (os.dirname_r p s).1 ≢ 0
    pub basename_r_fails :
        (p : CString) (s : os.State)
        → (os.basename_r p s).0 ≡ none
        → os.errno (os.basename_r p s).1 ≢ 0
    pub open_read_fails :
        (p : CString) (s : os.State)
        → (os.open_read p s).0 ≡ none
        → os.errno (os.open_read p s).1 ≢ 0
    pub fstat_mtime_fails :
        (fd : ℕ) (s : os.State)
        → (os.fstat_mtime fd s).0 ≡ none
        → os.errno (os.fstat_mtime fd s).1 ≢ 0
    pub close-errno : (fd : ℕ) (s : os.State) → os.errno s ≢ 0 → os.errno (os.close fd s) ≢ 0
    pub dirname_r-files : (p : CString) (s : os.State) → SameFiles s (os.dirname_r p s).1
    pub basename_r-files : (p : CString) (s : os.State) → SameFiles s (os.basename_r p s).1
    pub access_f_ok-files : (p : CString) (s : os.State) → SameFiles s (os.access_f_ok p s).1
    pub access_f_ok_exists :
        (p : CString) (s : os.State) → os.file s p ≢ none → (os.access_f_ok p s).0 ≡ 0
    pub access_w_ok-files : (p : CString) (s : os.State) → SameFiles s (os.access_w_ok p s).1
    pub stat-files : (p : CString) (s : os.State) → SameFiles s (os.stat p s).2
    pub clonefile-other :
        (src dst : CString) (s : os.State) → SameBut dst s (os.clonefile src dst s).1
    pub clonefile_done :
        (src dst : CString) (s : os.State) (f : File)
        → (os.clonefile src dst s).0 ≡ 0
        → os.file s src ≡ some f
        → os.file (os.clonefile src dst s).1 dst ≡ some f
    pub copyfile_check-files :
        (src dst : CString) (s : os.State) → SameFiles s (os.copyfile_check src dst s).1
    pub copyfile_metadata-other :
        (src dst : CString) (s : os.State) → SameBut dst s (os.copyfile_metadata src dst s).1
    pub copyfile_metadata_done :
        (src dst : CString) (s : os.State) (f g : File)
        → (os.copyfile_metadata src dst s).0 ≡ 0
        → os.file s src ≡ some f
        → os.file s dst ≡ some g
        → os.file (os.copyfile_metadata src dst s).1 dst
          ≡ some (record g { attributes = f.attributes })
    pub rename_done :
        (src dst p : CString) (s : os.State)
        → (os.rename src dst s).0 ≡ 0
        → p ≢ src
        → p ≢ dst
        → os.file (os.rename src dst s).1 p ≡ os.file s p
    pub rename_moves :
        (src dst : CString) (s : os.State)
        → (os.rename src dst s).0 ≡ 0
        → os.file (os.rename src dst s).1 dst ≡ os.file s src
    pub rename_fails :
        (src dst : CString) (s : os.State)
        → (os.rename src dst s).0 ≢ 0
        → SameFiles s (os.rename src dst s).1
    pub unlink-other : (p : CString) (s : os.State) → SameBut p s (os.unlink p s).1
    pub unlink_done :
        (p : CString) (s : os.State) → (os.unlink p s).0 ≡ 0 → os.file (os.unlink p s).1 p ≡ none
    pub unlink_fails :
        (p : CString) (s : os.State) → (os.unlink p s).0 ≢ 0 → SameFiles s (os.unlink p s).1
    pub link-other : (src dst : CString) (s : os.State) → SameBut dst s (os.link src dst s).1
    pub link_done :
        (src dst : CString) (s : os.State)
        → (os.link src dst s).0 ≡ 0
        → os.file (os.link src dst s).1 dst ≡ os.file s src
    pub link_fails :
        (src dst : CString) (s : os.State)
        → (os.link src dst s).0 ≢ 0
        → SameFiles s (os.link src dst s).1
    -- symlink(2) takes no NULL: it fails with EFAULT.
    pub symlink_null : (dst : CString) (s : os.State) → (os.symlink none dst s).0 ≢ 0
    pub symlink_fails :
        (src : Option CString) (dst : CString) (s : os.State)
        → (os.symlink src dst s).0 ≢ 0
        → SameFiles s (os.symlink src dst s).1
    pub realpath-files : (p : CString) (s : os.State) → SameFiles s (os.realpath p s).1
    pub open_read-files : (p : CString) (s : os.State) → SameFiles s (os.open_read p s).1
    pub fstat_mtime-files : (fd : ℕ) (s : os.State) → SameFiles s (os.fstat_mtime fd s).1
    pub futimens-files : (fd t : ℕ) (s : os.State) → SameFiles s (os.futimens fd t s).1
    pub close-files : (fd : ℕ) (s : os.State) → SameFiles s (os.close fd s)

-- Calls in a row, each on the state that the one before left.
abbrev pub M : Type 0 → Type 0 → Type 0
M S A = S → A × S

abbrev pub pure : {S A : Type 0} → A → M S A
pure a s = (a, s)

infixl 5 ◌>>=◌ ◌>>◌
abbrev pub ◌>>=◌ : {S A B : Type 0} → M S A → (A → M S B) → M S B
◌>>=◌ m f s = let (a, s') = m s in f a s'

abbrev pub ◌>>◌ : {S A B : Type 0} → M S A → M S B → M S B
m >> k = m >>= λ _. k
