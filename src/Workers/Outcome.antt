-- ===== src/Workers/Outcome.antt =====
-- What the trees of the threads hold, as the sequence of visits that explains them does.
use mathlib.Core.Option.{some-injective}
use dedup.Prelude.{
  ℕ, ◌*◌, ◌^◌, ◌<◌, ◌≡◌, sym, ◌∙◌, ap, subst, Option, some, List, [], ◌∷◌, arith, inl, inr, length,
}
use dedup.Rb.{RbTree, IsRbTree}
use dedup.Metadata.{Sha256, Digester, Pointer}
use dedup.Os.{Os}
use dedup.Entry.{Stdio}
use dedup.Visited.Hashing.{Digests, IsHashing}
use dedup.Visited.Classes.{class_of}
use dedup.Visit.{VisitContext, new_context}
use dedup.Visit.Gathering.{new_context-IsContext}
use dedup.Workers.{Worker}
use dedup.Workers.Linear.{IsLinear, IsOpened}
use mathlib.Core.List.Memᴰ
use dedup.Duplicates.Lists.{duplicates_of}
use dedup.Visit.Complete.{IsFound}
use mathlib.Core.List.{Memᴰ}
use dedup.Visit.Gathering.{IsOf, visit_all-IsGathered, new_context-IsGathered}
use dedup.Visit.Complete.{slot, IsFoundEntry, visit_all-IsFound}
use dedup.Prelude.{All, false, ◌⊎◌}
use dedup.Visit.Correct.{first_of-view, first_of-can_hash}
use dedup.Visited.Hashing.{hashed}

All-mem {ℓ} : {A : Type 0} (P : A → Type ℓ) (xs : List A) (x : A) → All P xs → Memᴰ x xs → P x
All-mem P [] x all m = absurd (Memᴰ.not-nil m)
All-mem P (y ∷ ys) x (one, rest) (Memᴰ.head e) = subst P (sym e) one
All-mem P (y ∷ ys) x (one, rest) (Memᴰ.tail m) = All-mem P ys x rest m

module _ (rb : RbTree) (os : Os) (stdio : Stdio os.State) (env : Digester) (digest : Digests)
    (s : os.State) (L : IsRbTree rb) (H : IsHashing env digest) {log : List (ℕ × Option Pointer)}
    {ctx : VisitContext rb} {ws : List Worker} (lin : IsLinear rb os stdio env digest s log ctx ws)
    (few : 2 * length log < 2 ^ 59) where
  pub IsLinear-IsOf :
      (sha : Sha256)
      → All
          (IsOf rb digest (IsOpened rb os stdio env digest s) sha)
          (duplicates_of rb ctx.duplicates sha)
  IsLinear-IsOf sha =
      let (seq, run, good, gathered) =
        visit_all-IsGathered rb L H (IsOpened rb os stdio env digest s) log (new_context rb) 0
          lin.reads lin.opened (new_context-IsContext rb L digest)
          (new_context-IsGathered rb L digest _) (omega (arith, few)) in
      let same : seq ≡ lin.seq = some-injective seq lin.seq (sym run ∙ lin.run) in
      subst (All (IsOf rb digest (IsOpened rb os stdio env digest s) sha))
        (ap (λ (c : VisitContext rb). duplicates_of rb c.duplicates sha) same ∙ sym (lin.lists sha))
        (gathered.listed sha)

  -- A file that was visited is found.
  pub IsLinear-IsFound :
      (address : ℕ) (fm : Pointer)
      → Memᴰ (address, some fm) log
      → (digest.can_hash fm.target.path ≡ false) ⊎ IsFound rb digest ctx fm
  IsLinear-IsFound address fm m =
      let found =
        visit_all-IsFound rb L H log (new_context rb) 0 lin.reads
          (new_context-IsContext rb L digest) (omega (arith, few)) lin.seq lin.run in
      elim (All-mem (IsFoundEntry rb digest lin.seq) log (address, some fm) found m) [
        | inl cannot ↦ inl cannot
        | inr (inl first) ↦
            let can =
              first_of-can_hash rb digest lin.seq fm.target (hashed digest fm.target) first in
            inr (
              inl (
                first_of-view rb digest ctx fm.target can
                ∙ lin.seen (class_of fm.target) (digest.of_path fm.target.path)
                ∙ sym (first_of-view rb digest lin.seq fm.target can)
                ∙ first))
        | inr (inr listed) ↦ inr (
            inr (
              subst (Memᴰ (slot digest fm)) (sym (lin.lists (digest.of_path fm.target.path)))
                listed))
      ]
