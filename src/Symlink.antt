-- ===== src/Symlink.antt =====
-- clone.c: `path_relative_to` and `replace_with_symlink`. The buffer of the result holds PATH_MAX
-- bytes, and nothing in the source keeps the result below that: what a longer one does is left to the
-- interface, which says nothing of it.
pub mod Names
pub mod Leads
pub mod Fails
use dedup.Prelude.{
  ℕ, zero, suc, ◌-◌, ltb, Bool, true, false, not, Option, none, some, [], ◌∷◌, ◌++◌, ◌==◌,
  if◌then◌else◌, length,
}
use dedup.Metadata.{CString}
use dedup.Os.{Os, M, pure, ◌>>=◌}

abbrev pub slash : ℕ
slash = b'/'

-- strchr(3) for a slash: the string from the first one on.
unfoldable pub strchr_slash : CString → Option CString
strchr_slash [] = none
strchr_slash (c ∷ cs) = if c == slash then some (c ∷ cs) else strchr_slash cs

-- The bytes before the first slash, and those behind it.
unfoldable pub split_slash : CString → Option (CString × CString)
split_slash [] = none
split_slash (c ∷ cs) =
    if c == slash
    then some ([], cs)
    else elim (split_slash cs) [ none ↦ none | some (dir, rest) ↦ some (c ∷ dir, rest) ]

-- strncmp(3) of two names of one length.
unfoldable pub same_name : CString → CString → Bool
same_name [] [] = true
same_name [] (d ∷ ds) = false
same_name (c ∷ cs) [] = false
same_name (c ∷ cs) (d ∷ ds) = if c == d then same_name cs ds else false

unfoldable pub consume_root : CString → CString
consume_root [] = []
consume_root (c ∷ cs) = if c == slash then cs else c ∷ cs

-- The loop that consumes common directories. Each round takes at least one byte off both paths, so
-- that as many rounds as the first has bytes are enough.
unfoldable pub consume_common : ℕ → CString → CString → CString × CString
consume_common zero src dst = (src, dst)
consume_common (suc rounds) src dst = elim (split_slash src) [
  | none ↦ (src, dst)
  | some (src_dir, src_rest) ↦ elim (split_slash dst) [
    | none ↦ (src, dst)
    | some (dst_dir, dst_rest) ↦ elim (same_name src_dir dst_dir) [
      | true ↦ consume_common rounds src_rest dst_rest
      | false ↦ (src, dst)
    ]
  ]
]

-- `for (end = real_src; end != NULL && *end != '\0'; end = strchr(end, '/')) { end++; depth++; }`
unfoldable pub depth_loop : ℕ → CString → ℕ
depth_loop zero end = 0
depth_loop (suc rounds) [] = 0
depth_loop (suc rounds) (c ∷ cs) = elim (strchr_slash cs) [
  | none ↦ 1
  | some end ↦ suc (depth_loop rounds end)
]

-- "../", so often
unfoldable pub parents : ℕ → CString
parents zero = []
parents (suc depth) = b'.' ∷ b'.' ∷ b'/' ∷ parents depth

-- The bytes of the buffer, PATH_MAX of macOS
abbrev pub path_max : ℕ
path_max = 1024

-- A string for which the buffer has room, with its NUL.
abbrev pub within_buffer : CString → Option CString
within_buffer path = if ltb (length path) path_max then some path else none

-- The string in the buffer, from the two canonical paths; `none` if it does not end in the buffer.
unfoldable pub relative_path : CString → CString → Option CString
unfolding consume_root consume_common depth_loop parents split_slash same_name strchr_slash
relative_path real_src real_dst =
    let src = consume_root real_src in
    let dst = consume_root real_dst in
    let (src', dst') = consume_common (length src) src dst in
    within_buffer (parents (depth_loop (length src') src' - 1) ++ dst')

module _ (os : Os) where
  unfoldable pub path_relative_to : CString → CString → M os.State (Option CString)
  unfolding relative_path
  path_relative_to src dst = do
    real_src ← os.realpath src
    elim real_src [
      | none ↦ pure none
      | some s ↦ do
        real_dst ← os.realpath dst
        elim real_dst [
          | none ↦ pure none
          | some d ↦ elim (relative_path s d) [
            | none ↦ do path ← os.overrun s d; pure (some path)
            | some path ↦ pure (some path)
          ]
        ]
    ]

  unfoldable pub replace_with_symlink : CString → CString → M os.State ℕ
  replace_with_symlink src dst = do
    path ← path_relative_to dst src
    failed ← os.unlink dst
    if not (failed == 0) then pure 1 else os.symlink path dst
