-- ===== src/Os/Memory.antt =====
-- An operating system in memory, which shows that the documented behaviour of the calls can be met.
-- A file is where its path says, and has no other name.
use mathlib.Core.Logic.{ite, if_pos, if_neg}
use dedup.Prelude.{
  ℕ, ◌≡◌, ◌≢◌, refl, ◌∙◌, Option, none, some, [], ◌∷◌, arith, Option-cases, inl, inr,
}
use dedup.Metadata.{CString, CString-discrete}
use dedup.Os.{Os, IsPosix, File, minus_one}

pub record Memory : Type 0 where
  pub files : CString → Option File
  pub error : ℕ

unfoldable pub write : CString → Option File → Memory → Memory
write p o s = record s { files = λ q. ite (CString-discrete q p) o (s.files q) }

abbrev pub memory_os : Os
memory_os = record {
  State = Memory;
  file = λ s p. s.files p;
  errno = λ s. s.error;
  set_errno = λ e s. record s { error = e };
  dirname_r = λ p s. (some (b'.' ∷ []), s);
  basename_r = λ p s. (some p, s);
  access_f_ok = λ p s. (elim (s.files p) [ none ↦ minus_one | some f ↦ 0 ], s);
  access_w_ok = λ p s. (0, s);
  stat = λ p s. elim (s.files p) [ none ↦ (minus_one, 0, s) | some f ↦ (0, f.size, s) ];
  clonefile = λ src dst s. elim (s.files src) [
    | none ↦ (minus_one, s)
    | some f ↦ (0, write dst (some f) s)
  ];
  copyfile_check = λ src dst s. (0, s);
  copyfile_metadata = λ src dst s. elim (s.files src) [
    | none ↦ (minus_one, s)
    | some f ↦ elim (s.files dst) [
      | none ↦ (minus_one, s)
      | some g ↦ (0, write dst (some (record g { attributes = f.attributes })) s)
    ]
  ];
  rename = λ src dst s. elim (s.files src) [
    | none ↦ (minus_one, s)
    | some f ↦ (0, write dst (some f) (write src none s))
  ];
  unlink = λ p s. elim (s.files p) [ none ↦ (minus_one, s) | some f ↦ (0, write p none s) ];
  link = λ src dst s. elim (s.files src) [
    | none ↦ (minus_one, s)
    | some f ↦ (0, write dst (some f) s)
  ];
  symlink = λ src dst s. elim src [
    | none ↦ (minus_one, s)
    | some path ↦ (0, write dst (some (record { blocks = 0; size = 1; attributes = 0 })) s)
  ];
  realpath = λ p s. elim (s.files p) [ none ↦ (none, s) | some f ↦ (some p, s) ];
  overrun = λ src dst s. (dst, s);
  open_read = λ p s. (some 3, s);
  fstat_mtime = λ fd s. (some 0, s);
  futimens = λ fd t s. (0, s);
  close = λ fd s. s;
  clone_id_attr = λ p s. elim (s.files p) [ none ↦ none | some f ↦ some f.blocks ];
  private_size_attr = λ p s. some 0;
  ext_flags_attr = λ p s. some 0;
}

files-write_self : (p : CString) (o : Option File) (s : Memory) → (write p o s).files p ≡ o
unfolding write
files-write_self p o s = if_pos (CString-discrete p p) refl o (s.files p)

files-write_ne :
    (p q : CString) (o : Option File) (s : Memory) → q ≢ p → (write p o s).files q ≡ s.files q
unfolding write
files-write_ne p q o s apart = if_neg (CString-discrete q p) apart o (s.files q)

one-ne-zero : {A : Type 0} → minus_one ≡ 0 → A
one-ne-zero e = absurd (omega arith)

clonefile-other :
    (src dst : CString) (s : Memory) (p : CString)
    → p ≢ dst
    → (memory_os.clonefile src dst s).1.files p ≡ s.files p
clonefile-other src dst s p apart = elim (Option-cases (s.files src)) [
  | inl e ↦ rw e
  | inr (f, e) ↦ rw e (files-write_ne dst p (some f) s apart)
]

pub memory_os-IsPosix : IsPosix memory_os
memory_os-IsPosix = record {
  set_errno-files = λ e s p. refl;
  errno-set_errno = λ e s. refl;
  dirname_r_fails = λ p s h. cc;
  basename_r_fails = λ p s h. cc;
  open_read_fails = λ p s h. cc;
  fstat_mtime_fails = λ fd s h. cc;
  close-errno = λ fd s h. h;
  dirname_r-files = λ p s q. refl;
  basename_r-files = λ p s q. refl;
  access_f_ok-files = λ p s q. refl;
  access_f_ok_exists = λ p s h. ground arith;
  access_w_ok-files = λ p s q. refl;
  stat-files = λ p s q. ground arith;
  clonefile-other = clonefile-other;
  clonefile_done = λ src dst s f done there. rw there (files-write_self dst (some f) s);
  copyfile_check-files = λ src dst s q. refl;
  copyfile_metadata-other = λ src dst s p apart. elim (Option-cases (s.files src)) [
    | inl e ↦ rw e
    | inr (f, e) ↦ elim (Option-cases (s.files dst)) [
      | inl e' ↦ rw (e, e')
      | inr (g, e') ↦ rw (e, e') (files-write_ne dst p _ s apart)
    ]
  ];
  copyfile_metadata_done =
      λ src dst s f g done there here. rw (there, here) (files-write_self dst _ s);
  rename_done = λ src dst p s done a b. elim (Option-cases (s.files src)) [
    | inl e ↦ rw e
    | inr (f, e) ↦
        rw e (files-write_ne dst p (some f) (write src none s) b ∙ files-write_ne src p none s a)
  ];
  rename_moves = λ src dst s done. elim (Option-cases (s.files src)) [
    | inl e ↦ one-ne-zero (rw e at done)
    | inr (f, e) ↦ rw e (files-write_self dst (some f) (write src none s))
  ];
  rename_fails = λ src dst s bad p. ground arith;
  unlink-other = λ p s q apart. elim (Option-cases (s.files p)) [
    | inl e ↦ rw e
    | inr (f, e) ↦ rw e (files-write_ne p q none s apart)
  ];
  unlink_done = λ p s done. elim (Option-cases (s.files p)) [
    | inl e ↦ one-ne-zero (rw e at done)
    | inr (f, e) ↦ rw e (files-write_self p none s)
  ];
  unlink_fails = λ p s bad q. ground arith;
  link-other = λ src dst s p apart. elim (Option-cases (s.files src)) [
    | inl e ↦ rw e
    | inr (f, e) ↦ rw e (files-write_ne dst p (some f) s apart)
  ];
  link_done = λ src dst s done. elim (Option-cases (s.files src)) [
    | inl e ↦ one-ne-zero (rw e at done)
    | inr (f, e) ↦ rw e (files-write_self dst (some f) s)
  ];
  link_fails = λ src dst s bad p. ground arith;
  symlink_null = λ dst s e. one-ne-zero e;
  symlink_fails = λ src dst s bad p. ground arith;
  realpath-files = λ p s q. ground arith;
  open_read-files = λ p s q. refl;
  fstat_mtime-files = λ fd s q. refl;
  futimens-files = λ fd t s q. refl;
  close-files = λ fd s q. refl;
}
