-- ===== src/Replacing/Rounds.antt =====
-- The rounds of `deduplicate`: what each one does, and what carries over to all of them.
use dedup.Prelude.{
  ◌||◌, ℕ, ◌≡◌, refl, ◌∙◌, Bool, true, false, not, ◌&&◌, List, [], ◌∷◌, arith, ltb, ◌==◌, All,
}
use dedup.Rb.{RbTree, IsRbTree}
use dedup.Metadata.{Pointer}
use dedup.Os.{Os}
use dedup.Replacing.{
  ReplaceMode, Choice, no_origin, null_origin, already_cloned, chosen, Context, already_replaced,
  is_immutable, choose_origin, replace, deduplicate_one, deduplicate_loop, deduplicate_from,
  deduplicate,
}
use dedup.Replacing.Origin.{choose_origin-All}

-- A file is left alone if it is the origin, has several links and these are not to be broken, is
-- a clone of the origin or a link to it already, or is immutable.
abbrev pub is_skipped : Pointer → Context → Pointer → Bool
is_skipped origin ctx fm =
    fm.address == origin.address
    || (not ctx.force && ltb 1 fm.target.nlink
        || (already_replaced ctx.replace_mode origin fm || is_immutable fm))

module _ (os : Os) where
  -- What is left alone, or only counted in a dry run.
  pub deduplicate_one_still :
      (origin : Pointer) (id : ℕ) (fm : Pointer) (ctx : Context) (s : os.State)
      → (is_skipped origin ctx fm || ctx.dry_run) ≡ true
      → (deduplicate_one os origin id fm ctx s).1 ≡ s
  unfolding deduplicate_one
  deduplicate_one_still origin id fm ctx s still = ground arith

  -- Any other file is replaced.
  pub deduplicate_one_moves :
      (origin : Pointer) (id : ℕ) (fm : Pointer) (ctx : Context) (s : os.State)
      → (is_skipped origin ctx fm || ctx.dry_run) ≡ false
      → (deduplicate_one os origin id fm ctx s).1
        ≡ (replace os ctx origin.target.path fm.target.path s).1
  unfolding deduplicate_one
  deduplicate_one_moves origin id fm ctx s moves = ground arith

  deduplicate_one-mode :
      (origin : Pointer) (id : ℕ) (fm : Pointer) (ctx : Context) (s : os.State)
      → (deduplicate_one os origin id fm ctx s).0.replace_mode ≡ ctx.replace_mode
  unfolding deduplicate_one
  deduplicate_one-mode origin id fm ctx s = ground arith

  deduplicate_loop-mode :
      (origin : Pointer) (id : ℕ) (fms : List Pointer) (ctx : Context) (s : os.State)
      → (deduplicate_loop os origin id fms ctx s).0.replace_mode ≡ ctx.replace_mode
  unfolding deduplicate_loop
  deduplicate_loop-mode origin id [] ctx s = refl
  deduplicate_loop-mode origin id (fm ∷ fms) ctx s =
      deduplicate_loop-mode origin id fms _ _ ∙ deduplicate_one-mode origin id fm ctx s

  -- The mode stays what it is.
  pub deduplicate-mode :
      (rb : RbTree) (fms : List Pointer) (ctx : Context) (s : os.State)
      → (deduplicate os rb fms ctx s).0.replace_mode ≡ ctx.replace_mode
  unfolding deduplicate deduplicate_from
  deduplicate-mode rb fms ctx s =
      elim (choose_origin rb fms)
        as (λ choice. (deduplicate_from os fms ctx choice s).0.replace_mode ≡ ctx.replace_mode) [
          | no_origin ↦ refl
          | null_origin ↦ refl
          | already_cloned ↦ refl
          | chosen fm ↦ deduplicate_loop-mode fm _ fms ctx s
        ]

  -- A relation between states that holds from before to after each round, in which the origin and
  -- the file are as they should be, holds from before to after all of them.
  module _ (mode : ReplaceMode) (Kept : os.State → os.State → Type 0)
      (Kept-refl : (s : os.State) → Kept s s)
      (Kept-trans : (s t u : os.State) → Kept s t → Kept t u → Kept s u)
      (Good : os.State → Pointer → Type 0)
      (Good-Kept : (s t : os.State) (fm : Pointer) → Kept s t → Good s fm → Good t fm)
      (each : (origin : Pointer) (id : ℕ) (fm : Pointer) (ctx : Context) (s : os.State)
        → ctx.replace_mode ≡ mode
        → Good s origin
        → Good s fm
        → Kept s (deduplicate_one os origin id fm ctx s).1) where
    All-Good :
        (s t : os.State) (fms : List Pointer) → Kept s t → All (Good s) fms → All (Good t) fms
    All-Good s t [] kept all = tt
    All-Good s t (fm ∷ fms) kept all = (Good-Kept s t fm kept all.0, All-Good s t fms kept all.1)

    deduplicate_loop-Kept :
        (origin : Pointer) (id : ℕ) (fms : List Pointer) (ctx : Context) (s : os.State)
        → ctx.replace_mode ≡ mode
        → Good s origin
        → All (Good s) fms
        → Kept s (deduplicate_loop os origin id fms ctx s).1
    unfolding deduplicate_loop
    deduplicate_loop-Kept origin id [] ctx s at_mode at_origin at_fms = Kept-refl s
    deduplicate_loop-Kept origin id (fm ∷ fms) ctx s at_mode at_origin at_fms =
        let after = deduplicate_one os origin id fm ctx s in
        let kept : Kept s after.1 = each origin id fm ctx s at_mode at_origin at_fms.0 in
        Kept-trans s after.1 _ kept (
          deduplicate_loop-Kept origin id fms after.0 after.1
            (deduplicate_one-mode origin id fm ctx s ∙ at_mode)
            (Good-Kept s after.1 origin kept at_origin) (All-Good s after.1 fms kept at_fms.1))

    deduplicate_from-Kept :
        (fms : List Pointer) (ctx : Context) (choice : Choice) (s : os.State)
        → ctx.replace_mode ≡ mode
        → All (Good s) fms
        → ((fm : Pointer) → choice ≡ chosen fm → Good s fm)
        → Kept s (deduplicate_from os fms ctx choice s).1
    unfolding deduplicate_from
    deduplicate_from-Kept fms ctx no_origin s at_mode at_fms known = Kept-refl s
    deduplicate_from-Kept fms ctx null_origin s at_mode at_fms known = Kept-refl s
    deduplicate_from-Kept fms ctx already_cloned s at_mode at_fms known = Kept-refl s
    deduplicate_from-Kept fms ctx (chosen fm) s at_mode at_fms known =
        deduplicate_loop-Kept fm _ fms ctx s at_mode (known fm refl) at_fms

    pub deduplicate-Kept :
        (rb : RbTree) (L : IsRbTree rb) (fms : List Pointer) (ctx : Context) (s : os.State)
        → ctx.replace_mode ≡ mode
        → All (Good s) fms
        → Kept s (deduplicate os rb fms ctx s).1
    unfolding deduplicate
    deduplicate-Kept rb L fms ctx s at_mode at_fms =
        deduplicate_from-Kept fms ctx (choose_origin rb fms) s at_mode at_fms
          (λ fm h. choose_origin-All rb L (Good s) fms fm at_fms h)
