-- ===== src/Main/Options/Range.antt =====
-- The values that options can have.
use dedup.Prelude.{
  ℕ, ◌^◌, ◌<◌, ◌-◌, ◌≡◌, ◌⊎◌, refl, ap, subst, List, [], ◌∷◌, arith, Bool-cases, inl, inr,
}
use dedup.Metadata.{CString}
use dedup.Main.Options.{
  default_options, Opt, Options, Parse, parsed, exits, parse_depth, parse_threads, parse_option,
  parse_options,
}
use dedup.Main.Options.Last.{is_accepted, applied, parse_option-rejects, parse_option-accepts}

-- The variables keep to their types, and `max_depth` is what a `short` can hold unless it was not
-- set.
pub record IsInRange (o : Options) : Type 0 where
  pub max_depth : (o.max_depth < 2 ^ 15) ⊎ (o.max_depth ≡ 2 ^ 16 - 1)
  pub verbosity : o.verbosity < 2 ^ 8
  pub thread_count : o.thread_count < 2 ^ 8

pub default_options-IsInRange : (cpus : ℕ) → IsInRange (default_options cpus)
unfolding default_options
default_options-IsInRange cpus = record {
  max_depth = inr refl;
  verbosity = omega arith;
  thread_count = omega arith;
}

module _ (atoi : CString → ℕ) where
  parse_option-IsInRange :
      (opt : Opt) (o o' : Options)
      → IsInRange o
      → parse_option atoi opt o ≡ parsed o'
      → IsInRange o'
  unfolding parse_option parse_depth parse_threads
  parse_option-IsInRange opt o o' range run = record {
    max_depth = ground (arith, range.max_depth);
    verbosity = ground (arith, range.verbosity);
    thread_count = ground (arith, range.thread_count);
  }

  -- Whatever the command line, the options that come of it keep to their types: the depth is below
  -- 2^15 or was not set, and the verbosity and the number of threads are below 2^8.
  pub parse_options-IsInRange :
      (opts : List Opt) (o o' : Options)
      → IsInRange o
      → parse_options atoi opts o ≡ parsed o'
      → IsInRange o'
  unfolding parse_options
  parse_options-IsInRange [] o o' range run =
      subst IsInRange (ap (λ (p : Parse). elim p [ parsed x ↦ x | exits status ↦ o ]) run) range
  parse_options-IsInRange (opt ∷ opts) o o' range run = elim (Bool-cases (is_accepted atoi opt)) [
    | inl accepted ↦
        let step = parse_option-accepts atoi opt o accepted in
        parse_options-IsInRange opts (applied atoi opt o) o'
          (parse_option-IsInRange opt o (applied atoi opt o) range step)
          (rw (parse_options, step) at run)
    | inr rejected ↦
        absurd (ground (arith, rw (parse_options, parse_option-rejects atoi opt o rejected) at run))
  ]
