-- ===== src/Visit/Order.antt =====
-- The order of the visits does not matter: the lists of duplicates hold the same files, up to their
-- order, whichever file is visited first.
use mathlib.Core.Option.{some-injective}
use mathlib.Core.List.{Permᴰ, append_assoc, append-nil}
use mathlib.Core.List.Permᴰ
use dedup.Prelude.{
  ℕ, ◌+◌, ◌*◌, ◌^◌, ◌<◌, ◌≡◌, refl, sym, ap, subst, true, Option, none, some, List, [], ◌∷◌, ◌++◌,
  arith, inl, inr, Bool-cases, All, length,
}
use dedup.Rb.{RbTree, IsRbTree}
use dedup.Metadata.{Sha256, FileMetadata, Digester, Pointer}
use dedup.Visited.Hashing.{Digests, IsHashing, hashed}
use dedup.Visited.Classes.{look-new_visited_tree, class_of, same_class}
use dedup.Visited.View.{view, same_digest}
use dedup.Duplicates.Lists.{duplicates_of, duplicates_of-new}
use dedup.Visit.{VisitContext, new_context, visit_entry, visit_all}
use dedup.Visit.Gathering.{IsReadEntry, new_context-IsContext}
use dedup.Visit.Correct.{IsContext, visit_entry-IsVisit}
use dedup.Visit.Exact.{
  IsExact, MetEntry, files, targets, if_several, of_digest, listed_as, visit-IsExact,
}

module _ (rb : RbTree) (L : IsRbTree rb) {env : Digester} {digest : Digests}
    (H : IsHashing env digest) (Met : FileMetadata → Type 0)
    -- Of the files that are visited, those of one digest have one class.
    (one_class : (f g : FileMetadata)
      → Met f
      → Met g
      → same_digest rb digest f (digest.of_path g.path) ≡ true
      → same_class (class_of f) (class_of g) ≡ true) where
  new_context-IsExact : IsExact rb digest Met [] (new_context rb)
  unfolding new_context view
  new_context-IsExact = record {
    seen = λ fm met. ground (arith, look-new_visited_tree rb L (class_of fm));
    listed = λ sha. ap targets (duplicates_of-new rb L sha);
  }

  visit_all-IsExact :
      (entries : List (ℕ × Option Pointer)) (ctx : VisitContext rb) (bound : ℕ)
      (done : List FileMetadata)
      → All (IsReadEntry rb digest) entries
      → All (MetEntry rb digest Met) entries
      → IsContext rb digest bound ctx
      → IsExact rb digest Met done ctx
      → bound + 2 * length entries < 2 ^ 59
      → (after : VisitContext rb) → visit_all rb env entries ctx ≡ some after
      → IsExact rb digest Met (done ++ files rb digest entries) after
  unfolding visit_all visit_entry
  visit_all-IsExact [] ctx bound done read met good exact small after run =
      subst (λ fs. IsExact rb digest Met fs after) (sym (append-nil done))
        (subst (λ c. IsExact rb digest Met done c) (some-injective ctx after run) exact)
  visit_all-IsExact ((address, none) ∷ entries) ctx bound done (_, read) (_, met) good exact small
        after run =
      visit_all-IsExact entries ctx bound done read met good exact (omega arith) after run
  visit_all-IsExact ((address, some fm) ∷ entries) ctx bound done (r, read) (m, met) good exact
        small after run =
      let (next, step, visit, good') =
        visit_entry-IsVisit rb L H address fm r ctx bound good (omega arith) in
      subst (λ fs. IsExact rb digest Met fs after)
        (append_assoc done (hashed digest fm.target ∷ []) (files rb digest entries))
        (visit_all-IsExact entries next (bound + 2) (done ++ hashed digest fm.target ∷ []) read met
          good' (visit-IsExact rb digest Met one_class address fm m ctx next visit done exact)
          (omega arith) after (rw (visit_all, step) at run))

  -- Where the files, and whether they can be hashed, do not change during the scan, and the size of
  -- each is that of its content: if of the visited files that can be hashed those of one digest
  -- have one device, size, first and last character, then after a run from empty trees that cannot
  -- fill a list with 2^59 items, the list of a digest holds all visited files that can be hashed
  -- and have that digest, in the order of their visits, if they are two or more, and nothing
  -- otherwise.
  pub visit_all-listed :
      (entries : List (ℕ × Option Pointer))
      → All (IsReadEntry rb digest) entries
      → All (MetEntry rb digest Met) entries
      → 2 * length entries < 2 ^ 59
      → (after : VisitContext rb) → visit_all rb env entries (new_context rb) ≡ some after
      → (sha : Sha256)
      → targets (duplicates_of rb after.duplicates sha)
        ≡ listed_as (if_several (of_digest rb digest sha (files rb digest entries)))
  visit_all-listed entries read met small after run sha =
      (visit_all-IsExact entries (new_context rb) 0 [] read met (new_context-IsContext rb L digest)
          new_context-IsExact (omega (arith, small)) after run).listed
        sha

module _ (rb : RbTree) (digest : Digests) (sha : Sha256) where
  pub perm-of_digest :
      {fs gs : List FileMetadata}
      → Permᴰ fs gs
      → Permᴰ (of_digest rb digest sha fs) (of_digest rb digest sha gs)
  perm-of_digest Permᴰ.nil = Permᴰ.nil
  perm-of_digest (Permᴰ.cons {a = a} e d) = elim (Bool-cases (same_digest rb digest a sha)) [
    | inl same ↦ rw (sym e, same) (Permᴰ.cons refl (perm-of_digest d))
    | inr differ ↦ rw (sym e, differ) (perm-of_digest d)
  ]
  perm-of_digest (Permᴰ.swap {a = a} {b = b} e e') =
      elim (Bool-cases (same_digest rb digest a sha)) [
        | inl same ↦ elim (Bool-cases (same_digest rb digest b sha)) [
          | inl same' ↦ rw (sym e, sym e', same, same') (Permᴰ.swap refl refl)
          | inr differ ↦ rw (sym e, sym e', same, differ) (Permᴰ.refl _)
        ]
        | inr differ ↦ rw (sym e, sym e', differ) (Permᴰ.refl _)
      ]
  perm-of_digest (Permᴰ.trans d d') = Permᴰ.trans (perm-of_digest d) (perm-of_digest d')

pub perm-if_several :
    (fs gs : List FileMetadata) → Permᴰ fs gs → Permᴰ (if_several fs) (if_several gs)
perm-if_several [] [] d = Permᴰ.nil
perm-if_several (f ∷ []) (g ∷ []) d = Permᴰ.nil
perm-if_several (f ∷ f' ∷ fs) (g ∷ g' ∷ gs) d = d
perm-if_several [] (g ∷ gs) d = absurd (cc (Permᴰ.length-eq d))
perm-if_several (f ∷ fs) [] d = absurd (cc (Permᴰ.length-eq d))
perm-if_several (f ∷ []) (g ∷ g' ∷ gs) d = absurd (cc (Permᴰ.length-eq d))
perm-if_several (f ∷ f' ∷ fs) (g ∷ []) d = absurd (cc (Permᴰ.length-eq d))

pub perm-listed_as : {fs gs : List FileMetadata} → Permᴰ fs gs → Permᴰ (listed_as fs) (listed_as gs)
perm-listed_as Permᴰ.nil = Permᴰ.nil
perm-listed_as (Permᴰ.cons e d) = Permᴰ.cons (ap some e) (perm-listed_as d)
perm-listed_as (Permᴰ.swap e e') = Permᴰ.swap (ap some e) (ap some e')
perm-listed_as (Permᴰ.trans d d') = Permᴰ.trans (perm-listed_as d) (perm-listed_as d')

module _ (rb : RbTree) (L : IsRbTree rb) {env : Digester} {digest : Digests}
    (H : IsHashing env digest) (Met : FileMetadata → Type 0)
    (one_class : (f g : FileMetadata)
      → Met f
      → Met g
      → same_digest rb digest f (digest.of_path g.path) ≡ true
      → same_class (class_of f) (class_of g) ≡ true) where
  -- Where the files, and whether they can be hashed, do not change during the scan, and the size of
  -- each is that of its content: if of the visited files that can be hashed those of one digest
  -- have one device, size, first and last character, then two runs from empty trees that visit the
  -- same files, each in an order of its own, and cannot fill a list with 2^59 items, leave the same
  -- files on the list of each digest, up to their order.
  pub visit_all-unordered :
      (entries entries' : List (ℕ × Option Pointer))
      → All (IsReadEntry rb digest) entries
      → All (IsReadEntry rb digest) entries'
      → All (MetEntry rb digest Met) entries
      → All (MetEntry rb digest Met) entries'
      → 2 * length entries < 2 ^ 59
      → 2 * length entries' < 2 ^ 59
      → Permᴰ (files rb digest entries) (files rb digest entries')
      → (after after' : VisitContext rb) → visit_all rb env entries (new_context rb) ≡ some after
      → visit_all rb env entries' (new_context rb) ≡ some after'
      → (sha : Sha256)
      → Permᴰ
          (targets (duplicates_of rb after.duplicates sha))
          (targets (duplicates_of rb after'.duplicates sha))
  visit_all-unordered entries entries' read read' met met' small small' d after after' run run'
        sha =
      rw
        (
          visit_all-listed rb L H Met one_class entries read met small after run sha,
          visit_all-listed rb L H Met one_class entries' read' met' small' after' run' sha,
        )
        (perm-listed_as (perm-if_several _ _ (perm-of_digest rb digest sha d)))
