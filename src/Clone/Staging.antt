-- ===== src/Clone/Staging.antt =====
-- The staging file of `replace_with_clone`: how its name is found, and what is done to it before it
-- takes the place of the file that is replaced.
use mathlib.Core.Option.{some-injective}
use dedup.Prelude.{
  ℕ, ◌/◌, ◌%◌, subst, ◌≡◌, ◌≢◌, refl, sym, ◌∙◌, true, false, not, Option, none, some, arith, ◌==◌,
  Bool-cases, Option-cases, inl, inr,
}
use dedup.Metadata.{CString}
use dedup.Os.{◌>>=◌, Os, IsPosix, File, SameFiles, SameBut}
use dedup.Clone.{
  find_zero_file, claim_name, tmp_name, join_tmp, eexist, enametoolong, give_up, install, stage,
  genfile_clone, enoent,
}

module _ (os : Os) (P : IsPosix os) where
  find_zero_file-files : (p : CString) (s : os.State) → SameFiles os s (find_zero_file os p s).1
  unfolding find_zero_file
  find_zero_file-files p s q = elim (Bool-cases (not ((os.access_w_ok p s).0 == 0))) [
    | inl denied ↦ rw denied (P.access_w_ok-files p s q)
    | inr allowed ↦ rw allowed (P.stat-files p (os.access_w_ok p s).1 q ∙ P.access_w_ok-files p s q)
  ]

  module _ (path dst : CString) where
    -- What may be done from a state to a result and a state, where the staging file `path` takes
    -- its blocks from the file `from`.
    pub record IsStaged (from : CString) (s : os.State) (o : ℕ × os.State) : Type 0 where
      pub other : (p : CString) → p ≢ path → p ≢ dst → os.file o.1 p ≡ os.file s p
      pub failed : o.0 ≢ 0 → SameBut os path s o.1
      pub done :
          o.0 ≡ 0
          → (f g : File) → os.file s from ≡ some f
          → os.file s dst ≡ some g
          → dst ≢ path
          → os.file o.1 dst ≡ some (record f { attributes = g.attributes })

    give_up-IsStaged :
        (from : CString) (s t : os.State) (e : ℕ)
        → SameBut os path s t
        → e ≢ 0
        → IsStaged from s (give_up os path e t)
    unfolding give_up
    give_up-IsStaged from s t e same bad = record {
      other = λ p h g. P.unlink-other path t p h ∙ same p h;
      failed = λ _ p h. P.unlink-other path t p h ∙ same p h;
      done = λ zero. absurd (bad zero);
    }

    nonzero : (n : ℕ) → not (n == 0) ≡ true → n ≢ 0
    nonzero n h = ground arith

    is_zero : (n : ℕ) → not (n == 0) ≡ false → n ≡ 0
    is_zero n h = ground arith

    -- The rename that succeeds puts the staging file in place.
    renamed-IsStaged :
        (s t : os.State)
        → SameBut os path s t
        → ((f g : File)
            → os.file s path ≡ some f
            → os.file s dst ≡ some g
            → os.file t path ≡ some (record f { attributes = g.attributes }))
        → (os.rename path dst t).0 ≡ 0
        → IsStaged path s (0, (os.rename path dst t).1)
    renamed-IsStaged s t same ready done = record {
      other = λ p h g. P.rename_done path dst p t done h g ∙ same p h;
      failed = λ bad. absurd (bad refl);
      done =
          λ _ f g at_path at_dst apart. P.rename_moves path dst t done ∙ ready f g at_path at_dst;
    }

    install-IsStaged : (s : os.State) → IsStaged path s (install os path dst s)
    unfolding install
    install-IsStaged s =
        let copied = os.copyfile_metadata dst path s in
        let checked = find_zero_file os path copied.1 in
        let renamed = os.rename path dst checked.1 in
        let same : SameBut os path s copied.1 = P.copyfile_metadata-other dst path s in
        let same' : SameBut os path s checked.1 =
          λ p h. find_zero_file-files path copied.1 p ∙ same p h in
        elim (Bool-cases (not (copied.0 == 0))) [
          | inl bad ↦ rw bad (give_up-IsStaged path s copied.1 copied.0 same (nonzero _ bad))
          | inr good ↦ rw good (elim (Bool-cases (not (checked.0 == 0))) [
            | inl bad ↦
                rw (bad, ◌>>=◌) (give_up-IsStaged path s checked.1 enoent same' (omega arith))
            | inr fine ↦
                rw (fine, ◌>>=◌)
                  (elim (Bool-cases (not (renamed.0 == 0))) [
                    | inl bad ↦
                        rw (bad, ◌>>=◌)
                          (give_up-IsStaged path s renamed.1 renamed.0
                            (λ p h. P.rename_fails path dst checked.1 (nonzero _ bad) p ∙ same' p h)
                            (nonzero _ bad))
                    | inr moved ↦
                        rw (moved, ◌>>=◌)
                          (renamed-IsStaged s checked.1 same'
                            (λ f g at_path at_dst.
                              find_zero_file-files path copied.1 path
                              ∙ P.copyfile_metadata_done dst path s g f (is_zero _ good) at_dst
                                  at_path)
                            (is_zero _ moved))
                  ])
          ])
        ]

    -- A stage that begins in another state, where the staging file is the clone of `from`.
    IsStaged-from :
        (from : CString) (s t : os.State) (o : ℕ × os.State)
        → SameBut os path s t
        → ((f : File) → os.file s from ≡ some f → os.file t path ≡ some f)
        → IsStaged path t o
        → IsStaged from s o
    IsStaged-from from s t o same cloned staged = record {
      other = λ p h g. staged.other p h g ∙ same p h;
      failed = λ bad p h. staged.failed bad p h ∙ same p h;
      done = λ zero f g at_from at_dst apart.
          staged.done zero f g (cloned f at_from) (same dst apart ∙ at_dst) apart;
    }

    pub stage-IsStaged : (src : CString) (s : os.State) → IsStaged src s (stage os src path dst s)
    unfolding stage genfile_clone
    stage-IsStaged src s =
        let cloned = os.clonefile src path s in
        let valid = find_zero_file os path cloned.1 in
        let check = os.copyfile_check dst path valid.1 in
        let same : SameBut os path s cloned.1 = P.clonefile-other src path s in
        let same' : SameBut os path s valid.1 =
          λ p h. find_zero_file-files path cloned.1 p ∙ same p h in
        let same'' : SameBut os path s check.1 =
          λ p h. P.copyfile_check-files dst path valid.1 p ∙ same' p h in
        elim (Bool-cases (not (cloned.0 == 0))) [
          | inl bad ↦ rw bad (give_up-IsStaged src s cloned.1 cloned.0 same (nonzero _ bad))
          | inr good ↦ rw good (elim (Bool-cases (not (valid.0 == 0))) [
            | inl bad ↦ rw (bad, ◌>>=◌) (give_up-IsStaged src s valid.1 enoent same' (omega arith))
            | inr fine ↦
                rw (fine, ◌>>=◌)
                  (elim (Bool-cases (check.0 / 8 % 2 == 1)) [
                    | inl copies ↦
                        rw (copies, ◌>>=◌)
                          (give_up-IsStaged src s check.1 check.0 same'' (λ e. ground arith))
                    | inr keeps ↦
                        rw (keeps, ◌>>=◌)
                          (IsStaged-from src s check.1 _ same''
                            (λ f at_src.
                              P.copyfile_check-files dst path valid.1 path
                              ∙ find_zero_file-files path cloned.1 path
                              ∙ P.clonefile_done src path s f (is_zero _ good) at_src)
                            (install-IsStaged check.1))
                  ])
          ])
        ]

  -- What is known of a staging name: nothing has that name, and looking for it changes no file.
  pub record IsNamed (s : os.State) (o : Option CString × os.State) : Type 0 where
    pub files : SameFiles os s o.1
    pub free : (out : CString) → o.0 ≡ some out → os.file s out ≡ none
    pub error : o.0 ≡ none → os.errno o.1 ≢ 0

  claim_name-IsNamed : (out : CString) (s : os.State) → IsNamed s (claim_name os out s)
  unfolding claim_name
  claim_name-IsNamed out s = elim (Bool-cases ((os.access_f_ok out s).0 == 0)) [
    | inl taken ↦ rw taken record {
      files = λ p. P.set_errno-files eexist _ p ∙ P.access_f_ok-files out s p;
      free = λ x e. cc;
      error = λ _. rw P.errno-set_errno (omega arith);
    }
    | inr unused ↦ rw unused record {
      files = P.access_f_ok-files out s;
      free = λ x e. elim (Option-cases (os.file s out)) [
        | inl absent ↦ subst (λ q. os.file s q ≡ none) (some-injective out x e) absent
        | inr (f, there) ↦
            let zero = P.access_f_ok_exists out s (λ n. cc (n, there)) in absurd (ground arith)
      ];
      error = λ e. cc;
    }
  ]

  IsNamed-from :
      (s t : os.State) (o : Option CString × os.State)
      → SameFiles os s t
      → IsNamed t o
      → IsNamed s o
  IsNamed-from s t o same named = record {
    files = λ p. named.files p ∙ same p;
    free = λ out e. sym (same out) ∙ named.free out e;
    error = named.error;
  }

  pub tmp_name-IsNamed :
      (path : CString) (size : ℕ) (s : os.State) → IsNamed s (tmp_name os path size s)
  unfolding tmp_name
  tmp_name-IsNamed path size s =
      let dir = os.dirname_r path s in
      let base = os.basename_r path dir.1 in
      elim (Option-cases dir.0) [
        | inl absent ↦ rw absent record {
          files = P.dirname_r-files path s;
          free = λ x e. cc;
          error = λ _. P.dirname_r_fails path s absent;
        }
        | inr (d, at_dir) ↦ rw at_dir (elim (Option-cases base.0) [
          | inl absent ↦
              rw (absent, ◌>>=◌)
                (IsNamed-from s dir.1 _ (P.dirname_r-files path s) record {
                  files = P.basename_r-files path dir.1;
                  free = λ x e. cc;
                  error = λ _. P.basename_r_fails path dir.1 absent;
                })
          | inr (b, at_base) ↦
              let same : SameFiles os s base.1 =
                λ p. P.basename_r-files path dir.1 p ∙ P.dirname_r-files path s p in
              rw (at_base, ◌>>=◌)
                (elim (Option-cases (join_tmp d b size)) [
                  | inl long ↦ rw long (
                      IsNamed-from s base.1 _ same record {
                        files = P.set_errno-files enametoolong base.1;
                        free = λ x e. cc;
                        error = λ _. rw P.errno-set_errno (omega arith);
                      })
                  | inr (out, joined) ↦
                      rw joined (IsNamed-from s base.1 _ same (claim_name-IsNamed out base.1))
                ])
        ])
      ]
