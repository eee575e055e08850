-- ===== src/Replacing/Bounds.antt =====
-- dedup.c: how much `deduplicate` can add to its counters.
use mathlib.Core.List.{Memᴰ}
use dedup.Prelude.{
  ◌+◌, ◌-◌, ◌*◌, ◌≤◌, ◌<◌, ℕ, ◌≡◌, refl, List, [], ◌∷◌, arith, ◌==◌, if◌then◌else◌, All, length,
  All-of-Memᴰ,
}
use dedup.Rb.{RbTree, IsRbTree}
use dedup.Metadata.{Pointer}
use dedup.Os.{Os}
use dedup.Utils.{get_clone_id}
use dedup.Replacing.{
  Choice, no_origin, null_origin, already_cloned, chosen, Context, choose_origin, account,
  deduplicate_one, deduplicate_loop, deduplicate_from, deduplicate,
}
use dedup.Replacing.Origin.{choose_origin-All}

abbrev pub total : Context → ℕ
total ctx = ctx.saved + ctx.already_saved

-- The files of the list that are not at the address.
abbrev others : ℕ → List Pointer → ℕ
others address [] = 0
others address (fm ∷ fms) = (if fm.address == address then 0 else 1) + others address fms

others-le : (address : ℕ) (fms : List Pointer) → others address fms ≤ length fms
others-le address [] = omega arith
others-le address (fm ∷ fms) = ground (arith, others-le address fms)

-- The file at the address is not one of the others.
others-lt :
    (origin : Pointer) (fms : List Pointer)
    → Memᴰ origin fms
    → others origin.address fms < length fms
others-lt origin [] m = elim m [ ]
others-lt origin (fm ∷ fms) (Memᴰ.head e) = ground (arith, others-le origin.address fms, e)
others-lt origin (fm ∷ fms) (Memᴰ.tail m) = ground (arith, others-lt origin fms m)

module _ (os : Os) (c : ℕ) where
  deduplicate_one-total :
      (origin : Pointer) (id : ℕ) (fm : Pointer) (ctx : Context) (s : os.State)
      → fm.target.size ≡ c
      → total (deduplicate_one os origin id fm ctx s).0
        ≤ total ctx + (if fm.address == origin.address then 0 else c)
  unfolding deduplicate_one account
  deduplicate_one-total origin id fm ctx s size = ground arith

  deduplicate_loop-total :
      (origin : Pointer) (id : ℕ) (fms : List Pointer) (ctx : Context) (s : os.State)
      → All (λ fm. fm.target.size ≡ c) fms
      → total (deduplicate_loop os origin id fms ctx s).0
        ≤ total ctx + c * others origin.address fms
  unfolding deduplicate_loop
  deduplicate_loop-total origin id [] ctx s sizes = omega arith
  deduplicate_loop-total origin id (fm ∷ fms) ctx s sizes =
      let after = deduplicate_one os origin id fm ctx s in
      grind (
        arith,
        deduplicate_one-total origin id fm ctx s sizes.0,
        deduplicate_loop-total origin id fms after.0 after.1 sizes.1,
      )

  deduplicate_from-total :
      (fms : List Pointer) (ctx : Context) (choice : Choice) (s : os.State)
      → All (λ fm. fm.target.size ≡ c) fms
      → ((fm : Pointer) → choice ≡ chosen fm → others fm.address fms ≤ length fms - 1)
      → total (deduplicate_from os fms ctx choice s).0 ≤ total ctx + c * (length fms - 1)
  unfolding deduplicate_from
  deduplicate_from-total fms ctx no_origin s sizes inside = omega arith
  deduplicate_from-total fms ctx null_origin s sizes inside = omega arith
  deduplicate_from-total [] ctx already_cloned s sizes inside = ground arith
  deduplicate_from-total (fm ∷ fms) ctx already_cloned s sizes inside = ground (arith, sizes.0)
  deduplicate_from-total fms ctx (chosen fm) s sizes inside = grind (
    arith,
    deduplicate_loop-total fm (get_clone_id os fm.target.path s) fms ctx s sizes,
    inside fm refl,
  )

  -- Where all files of the set have one size, a run adds to the two counters at most the size of
  -- all files but one.
  pub deduplicate-total :
      (rb : RbTree) (L : IsRbTree rb) (fms : List Pointer) (ctx : Context) (s : os.State)
      → All (λ fm. fm.target.size ≡ c) fms
      → total (deduplicate os rb fms ctx s).0 ≤ total ctx + c * (length fms - 1)
  unfolding deduplicate
  deduplicate-total rb L fms ctx s sizes =
      deduplicate_from-total fms ctx (choose_origin rb fms) s sizes (λ fm h.
        (let inside : Memᴰ fm fms =
            choose_origin-All rb L (λ x. Memᴰ x fms) fms fm
              (All-of-Memᴰ (λ x. Memᴰ x fms) fms (λ x m. m)) h in
          omega (arith, others-lt fm fms inside)))
