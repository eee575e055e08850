-- ===== src/Replacing/Forecast.antt =====
-- dedup.c: the counters of `deduplicate`, `saved` and `already_saved`.
use dedup.Prelude.{
  ℕ, ◌≡◌, refl, ◌∙◌, Bool, true, false, not, ◌&&◌, ◌||◌, List, [], ◌∷◌, arith, ◌==◌,
}
use dedup.Rb.{RbTree}
use dedup.Metadata.{Pointer}
use dedup.Os.{Os}
use dedup.Utils.{get_clone_id}
use dedup.Replacing.{
  Choice, no_origin, null_origin, already_cloned, chosen, Context, is_clone_mode, choose_origin,
  replace, account, deduplicate_one, deduplicate_loop, deduplicate_from, deduplicate,
}
use dedup.Replacing.Rounds.{is_skipped}

abbrev pub dry : Context → Context
dry ctx = record ctx { dry_run = true }

module _ (os : Os) where
  -- The round skips the file, or replaces it with no error and, where it clones, the file then has
  -- the origin's clone id.
  abbrev is_clean_one : Pointer → ℕ → Pointer → Context → os.State → Bool
  is_clean_one origin origin_clone_id fm ctx s =
      is_skipped origin ctx fm
      || (let (result, s') = replace os ctx origin.target.path fm.target.path s in
          result == 0
          && not (
              is_clone_mode ctx.replace_mode
              && not (origin_clone_id == get_clone_id os fm.target.path s')))

  unfoldable pub is_clean_loop : Pointer → ℕ → List Pointer → Context → os.State → Bool
  is_clean_loop origin origin_clone_id [] ctx s = true
  is_clean_loop origin origin_clone_id (fm ∷ fms) ctx s =
      let (ctx', s') = deduplicate_one os origin origin_clone_id fm ctx s in
      is_clean_one origin origin_clone_id fm ctx s
      && is_clean_loop origin origin_clone_id fms ctx' s'

  -- No round of `deduplicate` fails.
  unfoldable pub is_clean : RbTree → List Pointer → Context → os.State → Bool
  is_clean rb fms ctx s = elim (choose_origin rb fms) [
    | no_origin ↦ true
    | null_origin ↦ true
    | already_cloned ↦ true
    | chosen fm ↦ is_clean_loop fm (get_clone_id os fm.target.path s) fms ctx s
  ]

  deduplicate_one-dry :
      (origin : Pointer) (id : ℕ) (fm : Pointer) (ctx : Context) (s t : os.State)
      → ctx.dry_run ≡ false
      → is_clean_one origin id fm ctx s ≡ true
      → (deduplicate_one os origin id fm (dry ctx) t).0
        ≡ dry (deduplicate_one os origin id fm ctx s).0
  unfolding deduplicate_one account
  deduplicate_one-dry origin id fm ctx s t real clean = ground arith

  deduplicate_one-real :
      (origin : Pointer) (id : ℕ) (fm : Pointer) (ctx : Context) (s : os.State)
      → (deduplicate_one os origin id fm ctx s).0.dry_run ≡ ctx.dry_run
  unfolding deduplicate_one
  deduplicate_one-real origin id fm ctx s = ground arith

  deduplicate_loop-dry :
      (origin : Pointer) (id : ℕ) (fms : List Pointer) (ctx : Context) (s t : os.State)
      → ctx.dry_run ≡ false
      → is_clean_loop origin id fms ctx s ≡ true
      → (deduplicate_loop os origin id fms (dry ctx) t).0
        ≡ dry (deduplicate_loop os origin id fms ctx s).0
  unfolding deduplicate_loop is_clean_loop
  deduplicate_loop-dry origin id [] ctx s t real clean = refl
  deduplicate_loop-dry origin id (fm ∷ fms) ctx s t real clean =
      let here : is_clean_one origin id fm ctx s ≡ true = ground arith in
      rw (deduplicate_loop, deduplicate_one-dry origin id fm ctx s t real here)
        (deduplicate_loop-dry origin id fms _ _ _ (deduplicate_one-real origin id fm ctx s ∙ real)
          (ground arith))

  deduplicate_from-dry :
      (fms : List Pointer) (ctx : Context) (choice : Choice) (s t : os.State)
      → ctx.dry_run ≡ false
      → ((fm : Pointer)
          → choice ≡ chosen fm
          → is_clean_loop fm (get_clone_id os fm.target.path s) fms ctx s ≡ true)
      → (deduplicate_from os fms (dry ctx) choice s).0
        ≡ dry (deduplicate_from os fms ctx choice s).0
  unfolding deduplicate_from
  deduplicate_from-dry fms ctx no_origin s t real clean = refl
  deduplicate_from-dry fms ctx null_origin s t real clean = refl
  deduplicate_from-dry fms ctx already_cloned s t real clean = refl
  deduplicate_from-dry fms ctx (chosen fm) s t real clean =
      deduplicate_loop-dry fm _ fms ctx s s real (clean fm refl)

  -- A dry run foretells the counters: if no replacement fails in a run, then a dry run from the
  -- same state gives the same context as the run, up to `dry_run` itself.
  pub deduplicate_forecast :
      (rb : RbTree) (fms : List Pointer) (ctx : Context) (s : os.State)
      → ctx.dry_run ≡ false
      → is_clean rb fms ctx s ≡ true
      → (deduplicate os rb fms (dry ctx) s).0 ≡ dry (deduplicate os rb fms ctx s).0
  unfolding deduplicate is_clean
  deduplicate_forecast rb fms ctx s real clean =
      deduplicate_from-dry fms ctx (choose_origin rb fms) s s real
        (λ fm h. rw (h, is_clean) at clean)
