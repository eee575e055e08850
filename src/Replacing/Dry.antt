-- ===== src/Replacing/Dry.antt =====
-- A dry run of `deduplicate` changes nothing.
use dedup.Prelude.{ℕ, ◌≡◌, refl, ◌∙◌, true, List, [], ◌∷◌, arith}
use dedup.Rb.{RbTree}
use dedup.Metadata.{Pointer}
use dedup.Os.{Os}
use dedup.Replacing.{
  Choice, no_origin, null_origin, already_cloned, chosen, Context, choose_origin, deduplicate_one,
  deduplicate_loop, deduplicate_from, deduplicate,
}

module _ (os : Os) where
  deduplicate_one_dry :
      (origin : Pointer) (id : ℕ) (fm : Pointer) (ctx : Context) (s : os.State)
      → ctx.dry_run ≡ true
      → ((deduplicate_one os origin id fm ctx s).1 ≡ s)
        × ((deduplicate_one os origin id fm ctx s).0.dry_run ≡ true)
  unfolding deduplicate_one
  deduplicate_one_dry origin id fm ctx s dry = ground arith

  deduplicate_loop_dry :
      (origin : Pointer) (id : ℕ) (fms : List Pointer) (ctx : Context) (s : os.State)
      → ctx.dry_run ≡ true
      → (deduplicate_loop os origin id fms ctx s).1 ≡ s
  unfolding deduplicate_loop
  deduplicate_loop_dry origin id [] ctx s dry = refl
  deduplicate_loop_dry origin id (fm ∷ fms) ctx s dry =
      let (same, dry') = deduplicate_one_dry origin id fm ctx s dry in
      deduplicate_loop_dry origin id fms _ _ dry' ∙ same

  deduplicate_from_dry :
      (fms : List Pointer) (ctx : Context) (choice : Choice) (s : os.State)
      → ctx.dry_run ≡ true
      → (deduplicate_from os fms ctx choice s).1 ≡ s
  unfolding deduplicate_from
  deduplicate_from_dry fms ctx no_origin s dry = refl
  deduplicate_from_dry fms ctx null_origin s dry = refl
  deduplicate_from_dry fms ctx already_cloned s dry = refl
  deduplicate_from_dry fms ctx (chosen fm) s dry = deduplicate_loop_dry fm _ fms ctx s dry

  -- A dry run leaves the system in the state in which it was.
  pub deduplicate_dry :
      (rb : RbTree) (fms : List Pointer) (ctx : Context) (s : os.State)
      → ctx.dry_run ≡ true
      → (deduplicate os rb fms ctx s).1 ≡ s
  unfolding deduplicate
  deduplicate_dry rb fms ctx s dry = deduplicate_from_dry fms ctx (choose_origin rb fms) s dry

  deduplicate_loop-dry_run :
      (origin : Pointer) (id : ℕ) (fms : List Pointer) (ctx : Context) (s : os.State)
      → ctx.dry_run ≡ true
      → (deduplicate_loop os origin id fms ctx s).0.dry_run ≡ true
  unfolding deduplicate_loop
  deduplicate_loop-dry_run origin id [] ctx s dry = dry
  deduplicate_loop-dry_run origin id (fm ∷ fms) ctx s dry =
      deduplicate_loop-dry_run origin id fms _ _ (deduplicate_one_dry origin id fm ctx s dry).1

  pub deduplicate-dry_run :
      (rb : RbTree) (fms : List Pointer) (ctx : Context) (s : os.State)
      → ctx.dry_run ≡ true
      → (deduplicate os rb fms ctx s).0.dry_run ≡ true
  unfolding deduplicate deduplicate_from
  deduplicate-dry_run rb fms ctx s dry =
      elim (choose_origin rb fms)
        as (λ choice. (deduplicate_from os fms ctx choice s).0.dry_run ≡ true) [
          | no_origin ↦ dry
          | null_origin ↦ dry
          | already_cloned ↦ dry
          | chosen fm ↦ deduplicate_loop-dry_run fm _ fms ctx s dry
        ]
