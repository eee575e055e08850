-- ===== src/Symlink/Fails.antt =====
-- What `replace_with_symlink` leaves where it has no path to write.
use dedup.Prelude.{◌≡◌, ◌≢◌, ◌∙◌, none, Option-cases, inl, inr}
use dedup.Metadata.{CString}
use dedup.Os.{Os, IsPosix, SameFiles, ◌>>=◌}
use dedup.Symlink.{relative_path, path_relative_to, replace_with_symlink}

module _ (os : Os) (P : IsPosix os) where
  -- NULL comes of a path that cannot be resolved, and nothing was written then.
  path_relative_to-files :
      (src dst : CString) (s : os.State)
      → (path_relative_to os src dst s).0 ≡ none
      → SameFiles os s (path_relative_to os src dst s).1
  unfolding path_relative_to
  path_relative_to-files src dst s absent p =
      let first = os.realpath src s in
      elim (Option-cases first.0) [
        | inl unknown ↦ rw (unknown, path_relative_to, ◌>>=◌) (P.realpath-files src s p)
        | inr (real, at_src) ↦
            let second = os.realpath dst first.1 in
            let same = P.realpath-files dst first.1 p ∙ P.realpath-files src s p in
            elim (Option-cases second.0) [
              | inl unknown ↦ rw (at_src, path_relative_to, ◌>>=◌, unknown) same
              | inr (real', at_dst) ↦ elim (Option-cases (relative_path real real')) [
                | inl long ↦ cc (rw (at_src, path_relative_to, ◌>>=◌, at_dst, long) at absent)
                | inr (path, written) ↦
                    cc (rw (at_src, path_relative_to, ◌>>=◌, at_dst, written) at absent)
              ]
            ]
      ]

  -- If one of the two paths cannot be resolved, `replace_with_symlink` unlinks `dst` all the same,
  -- and fails: the file is gone, and all others are as they were.
  pub replace_with_symlink-unresolved :
      (src dst : CString) (s : os.State)
      → (path_relative_to os dst src s).0 ≡ none
      → (os.unlink dst (path_relative_to os dst src s).1).0 ≡ 0
      → ((replace_with_symlink os src dst s).0 ≢ 0)
        × (os.file (replace_with_symlink os src dst s).1 dst ≡ none)
        × ((p : CString) → p ≢ dst → os.file (replace_with_symlink os src dst s).1 p ≡ os.file s p)
  unfolding replace_with_symlink
  replace_with_symlink-unresolved src dst s absent unlinked =
      let looked = path_relative_to os dst src s in
      let gone = os.unlink dst looked.1 in
      let same : SameFiles os gone.1 (os.symlink none dst gone.1).1 =
        P.symlink_fails none dst gone.1 (P.symlink_null dst gone.1) in
      rw (replace_with_symlink, ◌>>=◌, absent, unlinked)
        (
          P.symlink_null dst gone.1,
          same dst ∙ P.unlink_done dst looked.1 unlinked,
          λ p far.
              same p
              ∙ P.unlink-other dst looked.1 p far
              ∙ path_relative_to-files dst src s absent p,
        )
