-- ===== src/Main/Options/Last.antt =====
-- What the options of a command line come to: the last of each kind, whatever stands between.
use dedup.Prelude.{
  ℕ, ◌+◌, ◌%◌, ◌^◌, ◌<◌, ◌≡◌, ◌⊎◌, refl, ◌∙◌, Bool, true, false, not, ◌&&◌, ◌||◌, Option, none,
  some, List, [], ◌∷◌, arith, ◌==◌, if◌then◌else◌, Bool-cases, inl, inr,
}
use dedup.Metadata.{CString}
use dedup.Entry.{is_negative}
use dedup.Replacing.{ReplaceMode, dedup_link, dedup_symlink}
use dedup.Main.Options.{
  Opt, Options, parsed, exits, is_short_negative, parse_depth, parse_threads, parse_option,
  parse_options,
}

-- The letter stands among the options.
abbrev pub has : ℕ → List Opt → Bool
has letter [] = false
has letter (opt ∷ opts) = (opt.ch == letter) || has letter opts

-- How often it stands there.
abbrev pub occurrences : ℕ → List Opt → ℕ
occurrences letter [] = 0
occurrences letter (opt ∷ opts) = (if opt.ch == letter then 1 else 0) + occurrences letter opts

-- The argument of its last occurrence.
abbrev pub last_arg : ℕ → List Opt → Option CString
last_arg letter [] = none
last_arg letter (opt ∷ opts) = elim (last_arg letter opts) [
  | some arg ↦ some arg
  | none ↦ if opt.ch == letter then some opt.optarg else none
]

-- The mode of the last `-l` or `-s`.
abbrev pub last_mode : List Opt → Option ReplaceMode
last_mode [] = none
last_mode (opt ∷ opts) = elim (last_mode opts) [
  | some mode ↦ some mode
  | none ↦
      if opt.ch == b'l'
      then some dedup_link
      else if opt.ch == b's'
      then some dedup_symlink
      else none
]

abbrev pub or_else : {A : Type 0} → Option A → A → A
or_else none a = a
or_else (some b) a = b

module _ (atoi : CString → ℕ) where
  -- An option that the program knows, with an argument that it takes.
  abbrev pub is_accepted : Opt → Bool
  is_accepted opt =
      opt.ch == b'I'
      || opt.ch == b'P'
      || opt.ch == b'c'
      || opt.ch == b'h'
      || opt.ch == b'l'
      || opt.ch == b'm'
      || opt.ch == b'n'
      || opt.ch == b's'
      || opt.ch == b'v'
      || opt.ch == b'x'
      || (opt.ch == b'd' && not (is_short_negative (atoi opt.optarg)))
      || (opt.ch == b't' && not (is_negative (atoi opt.optarg)))

  abbrev pub all_accepted : List Opt → Bool
  all_accepted [] = true
  all_accepted (opt ∷ opts) = is_accepted opt && all_accepted opts

  abbrev as_depth : Option CString → ℕ → ℕ
  as_depth none d = d
  as_depth (some arg) d = atoi arg % 2 ^ 16

  abbrev as_threads : Option CString → ℕ → ℕ
  as_threads none t = t
  as_threads (some arg) t = atoi arg % 2 ^ 8

  -- What each option does to what was there before.
  pub record IsDescribed (opts : List Opt) (o o' : Options) : Type 0 where
    pub progress : o'.progress ≡ (o.progress && not (has b'P' opts))
    pub max_depth : o'.max_depth ≡ as_depth (last_arg b'd' opts) o.max_depth
    pub xdev : o'.xdev ≡ (has b'x' opts || o.xdev)
    pub human_readable : o'.human_readable ≡ (has b'h' opts || o.human_readable)
    pub dry_run : o'.dry_run ≡ (has b'n' opts || o.dry_run)
    pub verbosity : o'.verbosity ≡ (o.verbosity + occurrences b'v' opts) % 2 ^ 8
    pub preserve_parent_mtime :
        o'.preserve_parent_mtime ≡ (has b'm' opts || o.preserve_parent_mtime)
    pub replace_mode : o'.replace_mode ≡ or_else (last_mode opts) o.replace_mode
    pub thread_count : o'.thread_count ≡ as_threads (last_arg b't' opts) o.thread_count

  pub parse_option-rejects :
      (opt : Opt) (o : Options) → is_accepted opt ≡ false → parse_option atoi opt o ≡ exits 1
  unfolding parse_option parse_depth parse_threads
  parse_option-rejects opt o rejected = ground arith

  -- What one option does to each variable.
  abbrev pub applied : Opt → Options → Options
  applied opt o = record {
    progress = if opt.ch == b'P' then false else o.progress;
    max_depth = if opt.ch == b'd' then atoi opt.optarg % 2 ^ 16 else o.max_depth;
    xdev = if opt.ch == b'x' then true else o.xdev;
    human_readable = if opt.ch == b'h' then true else o.human_readable;
    dry_run = if opt.ch == b'n' then true else o.dry_run;
    verbosity = if opt.ch == b'v' then (o.verbosity + 1) % 2 ^ 8 else o.verbosity;
    preserve_parent_mtime = if opt.ch == b'm' then true else o.preserve_parent_mtime;
    replace_mode =
        if opt.ch == b'l'
        then dedup_link
        else if opt.ch == b's'
        then dedup_symlink
        else o.replace_mode;
    thread_count = if opt.ch == b't' then atoi opt.optarg % 2 ^ 8 else o.thread_count;
  }

  pub parse_option-accepts :
      (opt : Opt) (o : Options)
      → is_accepted opt ≡ true
      → parse_option atoi opt o ≡ parsed (applied opt o)
  unfolding parse_option parse_depth parse_threads
  parse_option-accepts opt o accepted = ground arith

  IsDescribed-step :
      (opt : Opt) (opts : List Opt) (o o' : Options)
      → o.verbosity < 2 ^ 8
      → IsDescribed opts (applied opt o) o'
      → IsDescribed (opt ∷ opts) o o'
  IsDescribed-step opt opts o o' small d = record {
    progress = d.progress ∙ ground arith;
    max_depth = d.max_depth ∙ ground arith;
    xdev = d.xdev ∙ ground arith;
    human_readable = d.human_readable ∙ ground arith;
    dry_run = d.dry_run ∙ ground arith;
    verbosity = d.verbosity ∙ ground arith;
    preserve_parent_mtime = d.preserve_parent_mtime ∙ ground arith;
    replace_mode = d.replace_mode ∙ ground arith;
    thread_count = d.thread_count ∙ ground arith;
  }

  -- If one option is unknown, is `-V`, or has an argument that is not taken, the program ends with
  -- status 1. Otherwise each variable is what the last option for it says; the depth is cut to 16
  -- bits, the number of threads to 8, and -v counts modulo 2^8.
  pub parse_options_lem :
      (opts : List Opt) (o : Options)
      → o.verbosity < 2 ^ 8
      → ((all_accepted opts ≡ false) × (parse_options atoi opts o ≡ exits 1))
        ⊎ ((all_accepted opts ≡ true)
            × ((o' : Options) × (parse_options atoi opts o ≡ parsed o') × IsDescribed opts o o'))
  unfolding parse_options
  parse_options_lem [] o small = inr (
    refl,
    (
      o,
      refl,
      record {
        progress = ground arith;
        max_depth = refl;
        xdev = refl;
        human_readable = refl;
        dry_run = refl;
        verbosity = omega (arith, small);
        preserve_parent_mtime = refl;
        replace_mode = refl;
        thread_count = refl;
      },
    ),
  )
  parse_options_lem (opt ∷ opts) o small = elim (Bool-cases (is_accepted opt)) [
    | inl accepted ↦
        let run = parse_option-accepts opt o accepted in
        elim (parse_options_lem opts (applied opt o) (ground (arith, small))) [
          | inl (rejected, rest) ↦ inl (rw accepted rejected, rw (parse_options, run) rest)
          | inr (all, (o', rest, d)) ↦ inr (
            rw accepted all,
            (o', rw (parse_options, run) rest, IsDescribed-step opt opts o o' small d),
          )
        ]
    | inr rejected ↦ inl (rw rejected, rw (parse_options, parse_option-rejects opt o rejected))
  ]
