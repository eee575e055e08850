-- ===== src/Main/Options.antt =====
-- dedup.c, main: the options, as getopt_long(3) gives them one by one.
pub mod Last
pub mod Range
use dedup.Prelude.{
  ℕ, ◌+◌, ◌-◌, ◌%◌, ◌^◌, Bool, true, false, List, [], ◌∷◌, leb, ◌==◌, if◌then◌else◌,
}
use dedup.Metadata.{CString}
use dedup.Entry.{is_negative}
use dedup.Replacing.{ReplaceMode, dedup_clone, dedup_link, dedup_symlink}

-- `ch` and `optarg`, which is empty where the option takes no argument.
pub record Opt : Type 0 where
  pub ch : ℕ
  pub optarg : CString

-- The variables and the fields of `DedupContext` that the options set. `xdev` is FTS_XDEV in
-- `user_fts_options`.
pub record Options : Type 0 where
  pub progress : Bool
  pub max_depth : ℕ
  pub xdev : Bool
  pub human_readable : Bool
  pub dry_run : Bool
  pub verbosity : ℕ
  pub preserve_parent_mtime : Bool
  pub replace_mode : ReplaceMode
  pub thread_count : ℕ

pub data Parse : Type 0 where
  parsed : Options → Parse
  -- the status with which the program ends
  exits : ℕ → Parse

-- Before the first option. `cpus` is what `cpu_count` gives, an `int32_t` by its bits.
unfoldable pub default_options : ℕ → Options
default_options cpus = record {
  progress = true;
  max_depth = 2 ^ 16 - 1;
  xdev = false;
  human_readable = false;
  dry_run = false;
  verbosity = 0;
  preserve_parent_mtime = false;
  replace_mode = dedup_clone;
  thread_count = cpus % 2 ^ 8;
}

-- A `short` is below 0.
abbrev pub is_short_negative : ℕ → Bool
is_short_negative d = leb (2 ^ 15) (d % 2 ^ 16)

-- atoi(3) gives an `int` by its bits.
module _ (atoi : CString → ℕ) where
  unfoldable pub parse_depth : CString → Options → Parse
  parse_depth optarg o =
      let d : ℕ = atoi optarg % 2 ^ 16 in
      if is_short_negative d then exits 1 else parsed (record o { max_depth = d })

  unfoldable pub parse_threads : CString → Options → Parse
  parse_threads optarg o =
      let t : ℕ = atoi optarg in
      if is_negative t then exits 1 else parsed (record o { thread_count = t % 2 ^ 8 })

  -- The body of the loop.
  unfoldable pub parse_option : Opt → Options → Parse
  parse_option opt o =
      if opt.ch == b'I'
      then parsed o
      else if opt.ch == b'P'
      then parsed (record o { progress = false })
      else if opt.ch == b'V'
      then exits 1
      else if opt.ch == b'c'
      then parsed o
      else if opt.ch == b'd'
      then parse_depth opt.optarg o
      else if opt.ch == b'h'
      then parsed (record o { human_readable = true })
      else if opt.ch == b'l'
      then parsed (record o { replace_mode = dedup_link })
      else if opt.ch == b'm'
      then parsed (record o { preserve_parent_mtime = true })
      else if opt.ch == b'n'
      then parsed (record o { dry_run = true })
      else if opt.ch == b's'
      then parsed (record o { replace_mode = dedup_symlink })
      else if opt.ch == b't'
      then parse_threads opt.optarg o
      else if opt.ch == b'v'
      then parsed (record o { verbosity = (o.verbosity + 1) % 2 ^ 8 })
      else if opt.ch == b'x'
      then parsed (record o { xdev = true })
      else exits 1

  unfoldable pub parse_options : List Opt → Options → Parse
  unfolding parse_option
  parse_options [] o = parsed o
  parse_options (opt ∷ opts) o = elim (parse_option opt o) [
    | parsed o' ↦ parse_options opts o'
    | exits status ↦ exits status
  ]
