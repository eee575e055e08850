-- ===== src/Clone.antt =====
-- clone.c, over any operating system: a file is replaced by a clone of another, by a hard link to it
-- or by a symbolic link. Messages to stderr are left out.
pub mod Staging
pub mod Replace
use dedup.Prelude.{
  ℕ, ◌+◌, ◌-◌, ◌/◌, ◌%◌, ◌≡◌, Bool, true, false, not, ◌||◌, Option, none, some, List, [], ◌∷◌, ◌++◌,
  ◌==◌, leb, if◌then◌else◌, length, take,
}
use dedup.Metadata.{CString}
use dedup.Os.{Os, M, pure, ◌>>=◌, ◌>>◌, minus_one}

abbrev pub path_max : ℕ
path_max = 1024

-- The numbers that macOS gives the errors.
abbrev pub enoent : ℕ
enoent = 2

abbrev pub eexist : ℕ
eexist = 17

abbrev pub enametoolong : ℕ
enametoolong = 63

-- strlcat(3): the length that it tried to make, and what fits into the buffer with its NUL.
abbrev pub strlcat : CString → CString → ℕ → ℕ × CString
strlcat dst src size = (length dst + length src, take (size - 1) (dst ++ src))

-- "/.~."
abbrev pub staging_prefix : CString
staging_prefix = b'/' ∷ b'.' ∷ b'~' ∷ b'.' ∷ []

-- The three calls of strlcat(3), of which the first that truncates ends the chain.
unfoldable pub join_tmp : CString → CString → ℕ → Option CString
join_tmp dir base size =
    let (n, out) = strlcat [] dir size in
    if leb size n
    then none
    else let (n', out') = strlcat out staging_prefix size in
      if leb size n'
      then none
      else let (n'', out'') = strlcat out' base size in if leb size n'' then none else some out''

module _ (os : Os) where
  unfoldable pub find_zero_file : CString → M os.State ℕ
  find_zero_file path = do
    denied ← os.access_w_ok path
    if not (denied == 0) then pure 1 else λ s.
        let (failed, size, s') = os.stat path s in
        (if not (failed == 0) then 2 else if size == 0 then 3 else 0, s')

  -- The end of `tmp_name`: the name is taken if there is a file of that name.
  unfoldable pub claim_name : CString → M os.State (Option CString)
  claim_name out = do
    found ← os.access_f_ok out
    if found == 0 then (λ s. (none, os.set_errno eexist s)) else pure (some out)

  unfoldable pub tmp_name : CString → ℕ → M os.State (Option CString)
  tmp_name path size = do
    dir ← os.dirname_r path
    elim dir [
      | none ↦ pure none
      | some d ↦ do
        base ← os.basename_r path
        elim base [
          | none ↦ pure none
          | some b ↦ elim (join_tmp d b size) [
            | none ↦ λ s. (none, os.set_errno enametoolong s)
            | some out ↦ claim_name out
          ]
        ]
    ]

  -- `genfile_clone`, on macOS
  unfoldable pub genfile_clone : CString → CString → M os.State ℕ
  genfile_clone src dst = os.clonefile src dst

  -- The descriptor and the mtime of the parent directory, or `none` for -1.
  unfoldable pub dir_mtime : CString → M os.State (Option (ℕ × ℕ))
  dir_mtime path = do
    parent ← os.dirname_r path
    elim parent [
      | none ↦ pure none
      | some dir ↦ do
        opened ← os.open_read dir
        elim opened [
          | none ↦ pure none
          | some fd ↦ do
            st ← os.fstat_mtime fd
            elim st [ none ↦ λ s. (none, os.close fd s) | some mtime ↦ pure (some (fd, mtime)) ]
        ]
    ]

  unfoldable pub restore_dir_mtime : ℕ → ℕ → os.State → os.State
  restore_dir_mtime fd mtime s = os.close fd (os.futimens fd mtime s).1

  -- `unlink(path); result = r; goto cleanup`
  unfoldable pub give_up : CString → ℕ → M os.State ℕ
  give_up path result s = (result, (os.unlink path s).1)

  -- The copy of the metadata and the rename, with the checks between them.
  unfoldable pub install : CString → CString → M os.State ℕ
  install path dst = do
    result ← os.copyfile_metadata dst path
    if not (result == 0) then give_up path result else do
      invalid ← find_zero_file path
      if not (invalid == 0) then give_up path enoent else do
        renamed ← os.rename path dst
        if not (renamed == 0) then give_up path renamed else pure 0

  -- What follows the name of the staging file.
  unfoldable pub stage : CString → CString → CString → M os.State ℕ
  stage src path dst = do
    result ← genfile_clone src path
    if not (result == 0) then give_up path result else do
      invalid ← find_zero_file path
      if not (invalid == 0) then give_up path enoent else do
        check ← os.copyfile_check dst path
        -- check & COPYFILE_DATA
        if check / 8 % 2 == 1 then give_up path check else install path dst

  -- `result = errno` if there is no name
  unfoldable pub replace_named : CString → CString → Option CString → M os.State ℕ
  replace_named src dst none s = (os.errno s, s)
  replace_named src dst (some path) s = stage src path dst (os.set_errno 0 s)

  -- What stands between the two parts on the parent's mtime.
  unfoldable pub replace_body : CString → CString → M os.State ℕ
  unfolding replace_named
  replace_body src dst = do name ← tmp_name dst path_max; replace_named src dst name

  unfoldable pub replace_saved : CString → CString → Option (ℕ × ℕ) → M os.State ℕ
  replace_saved src dst none s = (os.errno s, s)
  replace_saved src dst (some (fd, mtime)) s =
      let (result, s') = replace_body src dst s in (result, restore_dir_mtime fd mtime s')

  unfoldable pub replace_with_clone : CString → CString → Bool → M os.State ℕ
  unfolding replace_saved
  replace_with_clone src dst false = replace_body src dst
  replace_with_clone src dst true = do saved ← dir_mtime dst; replace_saved src dst saved

  unfoldable pub replace_with_link : CString → CString → M os.State ℕ
  replace_with_link src dst = do
    failed ← os.unlink dst
    if not (failed == 0) then pure 1 else os.link src dst
