-- ===== src/Main/Program/Begin.antt =====
-- How main begins: the options that it goes on with, and that it touches no file.
use dedup.Prelude.{
  ℕ, ◌≡◌, ◌||◌, ◌⊎◌, refl, ◌∙◌, Bool, false, List, [], ◌∷◌, arith, ◌==◌, Bool-cases, inl, inr,
  if◌then◌else◌,
}
use dedup.Metadata.{CString}
use dedup.Os.{Os, IsPosix, SameFiles}
use dedup.Replacing.{dedup_clone}
use dedup.Main.Options.{Opt, Options, default_options}
use dedup.Main.Options.Last.{or_else, has, last_mode, parse_options_lem}
use dedup.Main.Program.{paths, begun, ended, check_access, begin}

module _ (os : Os) (P : IsPosix os) where
  check_access-files :
      (args : List CString) (s : os.State) → SameFiles os s (check_access os args s).1
  unfolding check_access
  check_access-files [] s p = refl
  check_access-files (arg ∷ args) s p = elim (Bool-cases ((os.access_f_ok arg s).0 == 0)) [
    | inl found ↦
        rw found (check_access-files args (os.access_f_ok arg s).1 p ∙ P.access_f_ok-files arg s p)
    | inr missing ↦ rw missing (P.access_f_ok-files arg s p)
  ]

  module _ (atoi : CString → ℕ) (cpus : ℕ) (tty : Bool) (opts : List Opt) (argv : List CString)
      (s : os.State) where
    -- main ends, or goes on with the mode and the dry run that the options ask for.
    pub begin_lem :
        ((status : ℕ) × (t : os.State) × (begin os atoi cpus tty opts argv s ≡ (ended status, t))
          × SameFiles os s t)
        ⊎ ((o : Options) × (args : List CString) × (t : os.State) × (begin os atoi cpus tty opts
                argv s
              ≡ (begun o args, t))
            × (o.replace_mode ≡ or_else (last_mode opts) dedup_clone)
            × (o.dry_run ≡ (has b'n' opts || false))
            × SameFiles os s t)
    unfolding begin default_options
    begin_lem = elim (parse_options_lem atoi opts (default_options cpus) (omega arith)) [
      | inl (rejected, stops) ↦ inl (1, s, rw (begin, stops), λ p. refl)
      | inr (all, (o, run, d)) ↦
          let same = check_access-files argv s in
          elim (Bool-cases (check_access os argv s).0) [
            | inl found ↦ inr (
              if tty then o else record o { progress = false },
              paths argv,
              (check_access os argv s).1,
              rw (begin, run, found),
              ground (arith, d.replace_mode),
              ground (arith, d.dry_run),
              same,
            )
            | inr missing ↦ inl (1, (check_access os argv s).1, rw (begin, run, missing), same)
          ]
    ]
