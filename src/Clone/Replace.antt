-- ===== src/Clone/Replace.antt =====
-- `replace_with_clone` replaces a file whole or not at all; `replace_with_link` may lose it.
use dedup.Prelude.{
  ℕ, ◌≡◌, ◌≢◌, refl, sym, ◌∙◌, subst, Bool, true, false, Option, none, some, Option-cases, inl, inr,
}
use dedup.Metadata.{CString}
use dedup.Os.{◌>>=◌, Os, IsPosix, File, SameFiles}
use dedup.Clone.{
  tmp_name, path_max, replace_body, replace_named, replace_saved, dir_mtime, restore_dir_mtime,
  replace_with_clone, replace_with_link,
}
use dedup.Clone.Staging.{IsStaged, stage-IsStaged, IsNamed, tmp_name-IsNamed}

module _ (os : Os) where
  -- From a state to a result and a state: the file at `dst` gets the blocks of `src` and keeps its
  -- attributes, or it stays; every other file stays.
  pub record IsReplacement (src dst : CString) (s : os.State) (o : ℕ × os.State) : Type 0 where
    pub other : (p : CString) → os.file s p ≢ none → p ≢ dst → os.file o.1 p ≡ os.file s p
    pub failed : o.0 ≢ 0 → (p : CString) → os.file s p ≢ none → os.file o.1 p ≡ os.file s p
    pub done :
        o.0 ≡ 0
        → (f g : File) → os.file s src ≡ some f
        → os.file s dst ≡ some g
        → os.file o.1 dst ≡ some (record f { attributes = g.attributes })

module _ (os : Os) (P : IsPosix os) where
  module _ (src dst : CString) where
    unchanged-IsReplacement :
        (s : os.State) (o : ℕ × os.State)
        → SameFiles os s o.1
        → o.0 ≢ 0
        → IsReplacement os src dst s o
    unchanged-IsReplacement s o same bad = record {
      other = λ p _ _. same p;
      failed = λ _ p _. same p;
      done = λ zero. absurd (bad zero);
    }

    -- The staging name had no file, so none of the files that were there is the staging file.
    staged-IsReplacement :
        (path : CString) (s t : os.State) (o : ℕ × os.State)
        → SameFiles os s t
        → os.file s path ≡ none
        → IsStaged os P path dst src t o
        → IsReplacement os src dst s o
    staged-IsReplacement path s t o same free staged =
        let apart : (p : CString) → os.file s p ≢ none → p ≢ path =
          λ p there e. there (subst (λ q. os.file s q ≡ none) (sym e) free) in
        record {
          other = λ p there g. staged.other p (apart p there) g ∙ same p;
          failed = λ bad p there. staged.failed bad p (apart p there) ∙ same p;
          done = λ zero f g at_src at_dst.
              staged.done zero f g (same src ∙ at_src) (same dst ∙ at_dst)
                (apart dst (λ n. cc (n, at_dst)));
        }

    replace_named-IsReplacement :
        (s : os.State) (name : Option CString) (t : os.State)
        → IsNamed os P s (name, t)
        → IsReplacement os src dst s (replace_named os src dst name t)
    unfolding replace_named
    replace_named-IsReplacement s none t named =
        unchanged-IsReplacement s _ named.files (named.error refl)
    replace_named-IsReplacement s (some path) t named =
        staged-IsReplacement path s (os.set_errno 0 t) _
          (λ p. P.set_errno-files 0 t p ∙ named.files p) (named.free path refl)
          (stage-IsStaged os P path dst src (os.set_errno 0 t))

    replace_body-IsReplacement :
        (s : os.State) → IsReplacement os src dst s (replace_body os src dst s)
    unfolding replace_body
    replace_body-IsReplacement s =
        let name = tmp_name os dst path_max s in
        replace_named-IsReplacement s name.0 name.1 (tmp_name-IsNamed os P dst path_max s)

    -- After a replacement from a state with the same files, and before one with the same files.
    IsReplacement-between :
        (s t : os.State) (r : ℕ) (u v : os.State)
        → SameFiles os s t
        → SameFiles os u v
        → IsReplacement os src dst t (r, u)
        → IsReplacement os src dst s (r, v)
    IsReplacement-between s t r u v before after replaced =
        let there : (p : CString) → os.file s p ≢ none → os.file t p ≢ none =
          λ p h e. h (sym (before p) ∙ e) in
        record {
          other = λ p h g. after p ∙ replaced.other p (there p h) g ∙ before p;
          failed = λ bad p h. after p ∙ replaced.failed bad p (there p h) ∙ before p;
          done = λ zero f g at_src at_dst.
              after dst ∙ replaced.done zero f g (before src ∙ at_src) (before dst ∙ at_dst);
        }

    restore_dir_mtime-files :
        (fd mtime : ℕ) (s : os.State) → SameFiles os s (restore_dir_mtime os fd mtime s)
    unfolding restore_dir_mtime
    restore_dir_mtime-files fd mtime s p =
        P.close-files fd (os.futimens fd mtime s).1 p ∙ P.futimens-files fd mtime s p

    -- The look at the parent directory changes no file, and says in `errno` why it failed.
    record IsLook (s : os.State) (o : Option (ℕ × ℕ) × os.State) : Type 0 where
      files : SameFiles os s o.1
      error : o.0 ≡ none → os.errno o.1 ≢ 0

    dir_mtime-IsLook : (path : CString) (s : os.State) → IsLook s (dir_mtime os path s)
    unfolding dir_mtime
    dir_mtime-IsLook path s =
        let dir = os.dirname_r path s in
        elim (Option-cases dir.0) [
          | inl absent ↦ rw absent record {
            files = P.dirname_r-files path s;
            error = λ _. P.dirname_r_fails path s absent;
          }
          | inr (d, at_dir) ↦
              let opened = os.open_read d dir.1 in
              let same : SameFiles os s opened.1 =
                λ p. P.open_read-files d dir.1 p ∙ P.dirname_r-files path s p in
              rw at_dir (elim (Option-cases opened.0) [
                | inl shut ↦
                    rw (shut, ◌>>=◌)
                      record { files = same; error = λ _. P.open_read_fails d dir.1 shut }
                | inr (fd, at_fd) ↦
                    let st = os.fstat_mtime fd opened.1 in
                    let same' : SameFiles os s st.1 =
                      λ p. P.fstat_mtime-files fd opened.1 p ∙ same p in
                    rw (at_fd, ◌>>=◌)
                      (elim (Option-cases st.0) [
                        | inl bad ↦
                            rw (bad, ◌>>=◌)
                              record {
                                files = λ p. P.close-files fd st.1 p ∙ same' p;
                                error = λ _.
                                    P.close-errno fd st.1 (P.fstat_mtime_fails fd opened.1 bad);
                              }
                        | inr (mtime, at_mtime) ↦
                            rw (at_mtime, ◌>>=◌) record { files = same'; error = λ e. cc }
                      ])
              ])
        ]

    replace_saved-IsReplacement :
        (s : os.State) (saved : Option (ℕ × ℕ)) (t : os.State)
        → IsLook s (saved, t)
        → IsReplacement os src dst s (replace_saved os src dst saved t)
    unfolding replace_saved
    replace_saved-IsReplacement s none t looked =
        unchanged-IsReplacement s _ looked.files (looked.error refl)
    replace_saved-IsReplacement s (some (fd, mtime)) t looked =
        let body = replace_body os src dst t in
        IsReplacement-between s t body.0 body.1 _ looked.files
          (restore_dir_mtime-files fd mtime body.1) (replace_body-IsReplacement t)

    -- If `replace_with_clone` returns 0, the file at `dst` has the blocks of `src` and the metadata
    -- that it had. If it returns anything else, every file that was there is as it was. In both
    -- cases no file but the one at `dst` is touched.
    pub replace_with_clone-IsReplacement :
        (preserve_parent_mtime : Bool) (s : os.State)
        → IsReplacement os src dst s (replace_with_clone os src dst preserve_parent_mtime s)
    unfolding replace_with_clone
    replace_with_clone-IsReplacement false s = replace_body-IsReplacement s
    replace_with_clone-IsReplacement true s =
        let saved = dir_mtime os dst s in
        replace_saved-IsReplacement s saved.0 saved.1 (dir_mtime-IsLook dst s)

    -- If the link cannot be made, the file that was to be replaced is gone all the same: what
    -- `replace_with_link` leaves of it is nothing, unless it could not even be unlinked.
    pub replace_with_link-fails :
        (s : os.State)
        → (replace_with_link os src dst s).0 ≢ 0
        → (os.unlink dst s).0 ≡ 0
        → os.file (replace_with_link os src dst s).1 dst ≡ none
    unfolding replace_with_link
    replace_with_link-fails s failed unlinked =
        let gone = os.unlink dst s in
        rw (unlinked, replace_with_link)
          (P.link_fails src dst gone.1 (rw (unlinked, replace_with_link) at failed) dst
            ∙ P.unlink_done dst s unlinked)
