-- ===== src/Tests/Options.antt =====
-- The options of a command line at concrete data. `atoi` reads one digit, or two bytes that stand for
-- more.
use dedup.Prelude.{ℕ, ◌+◌, ◌*◌, ◌≡◌, ◌⊎◌, refl, false, true, List, [], ◌∷◌, arith}
use dedup.Metadata.{CString}
use dedup.Entry.{is_negative}
use dedup.Replacing.{dedup_symlink}
use dedup.Main.Options.{
  Opt, Options, parsed, exits, default_options, parse_option, parse_depth, parse_threads,
  parse_options,
}
use dedup.Main.Options.Range.{IsInRange, parse_options-IsInRange, default_options-IsInRange}
use dedup.Main.Options.Last.{IsDescribed, all_accepted, parse_options_lem}

abbrev pub atoi : CString → ℕ
atoi [] = 0
atoi (d ∷ []) = d
atoi (d ∷ e ∷ rest) = d * 256 + e

abbrev plain : ℕ → Opt
plain letter = record { ch = letter; optarg = [] }

-- -v -l -t 256 -s -v -d 3
abbrev several : List Opt
several =
    plain b'v'
    ∷ plain b'l'
    ∷ record { ch = b't'; optarg = 1 ∷ 0 ∷ [] }
    ∷ plain b's'
    ∷ plain b'v'
    ∷ record { ch = b'd'; optarg = 3 ∷ [] }
    ∷ []

several_options : Options
several_options = record (default_options 8) {
  max_depth = 3;
  verbosity = 2;
  replace_mode = dedup_symlink;
  thread_count = 0;
}

several_run : parse_options atoi several (default_options 8) ≡ parsed several_options
unfolding parse_options parse_option parse_depth parse_threads is_negative default_options
    several_options
several_run = refl

parse_options_example :
    ((all_accepted atoi several ≡ false)
      × (parse_options atoi several (default_options 8) ≡ exits 1))
    ⊎ ((all_accepted atoi several ≡ true)
        × ((o : Options) × (parse_options atoi several (default_options 8) ≡ parsed o)
            × IsDescribed atoi several (default_options 8) o))
unfolding default_options
parse_options_example = parse_options_lem atoi several (default_options 8) (omega arith)

parse_options-IsInRange_example : IsInRange several_options
parse_options-IsInRange_example =
    parse_options-IsInRange atoi several (default_options 8) several_options
      (default_options-IsInRange 8) several_run
