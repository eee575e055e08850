-- ===== src/Visit/Gathering.antt =====
-- A run of `visit_entry` over all files: what is on the lists of duplicates at its end.
use dedup.Prelude.{
  ℕ, ◌+◌, ◌*◌, ◌^◌, ◌<◌, ◌≤◌, ◌≡◌, refl, sym, ◌∙◌, subst, Option, none, some, List, [], ◌∷◌, ◌++◌,
  true, arith, inl, inr, Option-cases, Bool-cases, All, length,
}
use dedup.Rb.{RbTree, IsRbTree}
use dedup.Rb.Order.{memcmp, memcmp_same, memcmp_self, is_eq}
use dedup.Metadata.{CString, Sha256, FileMetadata, Digester, Pointer}
use dedup.Visited.Hashing.{Digests, IsHashing, IsRead, hashed}
use dedup.Visited.Classes.{look-new_visited_tree, Class, class_of}
use dedup.Visited.View.{view, same_digest, same_digest-is_eq}
use dedup.Visited.Correct.{new_visited_tree-IsVisited}
use dedup.Duplicates.Lists.{
  IsDuplicates-le, duplicates_of, duplicates_of-new, new_duplicate_tree-IsDuplicates,
}
use dedup.Visit.{VisitContext, new_context, visit_entry, visit_all}
use dedup.Visit.Listing.{seed}
use dedup.Visit.Correct.{
  IsContext, IsVisit, first_of, first_of-view, first_of-can_hash, visit_entry-IsVisit,
}

module _ (rb : RbTree) (digest : Digests) where
  -- The metadata of an entry could not be read, or are as `metadata_from_entry` leaves them.
  abbrev pub IsReadEntry : ℕ × Option Pointer → Type 0
  IsReadEntry (address, none) = Unit
  IsReadEntry (address, some fm) = IsRead digest fm.target

-- What holds of the path of the file that is visited, if its metadata could be read.
abbrev pub OfEntry : (CString → Type 0) → ℕ × Option Pointer → Type 0
OfEntry Q (address, none) = Unit
OfEntry Q (address, some fm) = Q fm.target.path

-- `Q` is what holds of the paths of the files that are visited.
module _ (rb : RbTree) (digest : Digests) (Q : CString → Type 0) where
  -- A slot of a list holds a file that was visited, and the content of that file has the digest.
  abbrev pub IsOf : Sha256 → Option Pointer → Type 0
  IsOf sha slot =
      (fm : Pointer) × (slot ≡ some fm)
      × (same_digest rb digest fm.target sha ≡ true)
      × Q fm.target.path

  -- A file is seen under its own digest, and listed under its own digest.
  pub record IsGathered (ctx : VisitContext rb) : Type 0 where
    pub seen :
        (k : Class) (sha : Sha256) (f : FileMetadata)
        → view rb digest ctx.visited k sha ≡ some f
        → (same_digest rb digest f sha ≡ true) × Q f.path
    pub listed : (sha : Sha256) → All (IsOf sha) (duplicates_of rb ctx.duplicates sha)

  same_digest_trans :
      (fm : FileMetadata) (sha sha' : Sha256)
      → same_digest rb digest fm sha ≡ true
      → is_eq (memcmp 32 sha sha') ≡ true
      → same_digest rb digest fm sha' ≡ true
  same_digest_trans fm sha sha' h g =
      ground (arith, memcmp_same 32 (digest.of_path fm.path) sha sha')

  IsOf-same :
      (sha sha' : Sha256) (ds : List (Option Pointer))
      → is_eq (memcmp 32 sha sha') ≡ true
      → All (IsOf sha) ds
      → All (IsOf sha') ds
  IsOf-same sha sha' [] same all = tt
  IsOf-same sha sha' (d ∷ ds) same ((fm, e, of, q), all) =
      ((fm, e, same_digest_trans fm.target sha sha' of same, q), IsOf-same sha sha' ds same all)

  All-seed :
      (sha : Sha256) (address : ℕ) (old : FileMetadata) (last : Option Pointer)
      (ds : List (Option Pointer))
      → (same_digest rb digest old sha ≡ true) × Q old.path
      → IsOf sha last
      → All (IsOf sha) ds
      → All (IsOf sha) (seed address old ds ++ last ∷ [])
  All-seed sha address old last [] of of_last all =
      ((record { address = address; target = old }, refl, of.0, of.1), (of_last, tt))
  All-seed sha address old last (d ∷ ds) of of_last (of_d, all) = (of_d, All-end ds all)
    where
      All-end : (es : List (Option Pointer)) → All (IsOf sha) es → All (IsOf sha) (es ++ last ∷ [])
      All-end [] none_more = (of_last, tt)
      All-end (e ∷ es) (of_e, rest) = (of_e, All-end es rest)

  module _ (address : ℕ) (fm : Pointer) (ctx after : VisitContext rb)
      (visit : IsVisit rb digest address fm ctx after) (good : IsGathered ctx)
      (own : Q fm.target.path) where
    visit-seen :
        (k : Class) (sha : Sha256) (f : FileMetadata)
        → view rb digest after.visited k sha ≡ some f
        → (same_digest rb digest f sha ≡ true) × Q f.path
    visit-seen k sha f at = ground (arith, visit.seen k sha, good.seen k sha f)

    visit-listed : (sha : Sha256) → All (IsOf sha) (duplicates_of rb after.duplicates sha)
    visit-listed sha = elim (Option-cases (first_of rb digest ctx fm.target)) [
      | inl first ↦ subst (All (IsOf sha)) (sym (rw first at (visit.listed sha))) (good.listed sha)
      | inr (old, again) ↦ elim (Bool-cases (same_digest rb digest fm.target sha)) [
        | inl same ↦
            let sha' : Sha256 = digest.of_path fm.target.path in
            let can = first_of-can_hash rb digest ctx fm.target old again in
            let at_old = sym (first_of-view rb digest ctx fm.target can) ∙ again in
            let self : same_digest rb digest fm.target sha' ≡ true =
              rw (can, memcmp_self 32 sha') in
            subst (All (IsOf sha)) (sym (rw (again, same) at (visit.listed sha))) (
              IsOf-same sha' sha _ (same_digest-is_eq rb digest fm.target sha same) (
                All-seed sha' address old _ (duplicates_of rb ctx.duplicates sha')
                  (good.seen (class_of fm.target) sha' old at_old)
                  (record fm { target = hashed digest fm.target }, refl, self, own)
                  (good.listed sha')))
        | inr differ ↦
            subst (All (IsOf sha)) (sym (rw (again, differ) at (visit.listed sha)))
              (good.listed sha)
      ]
    ]

    visit-IsGathered : IsGathered after
    visit-IsGathered = record { seen = visit-seen; listed = visit-listed }

module _ (rb : RbTree) (L : IsRbTree rb) (digest : Digests) where
  pub new_context-IsContext : IsContext rb digest 0 (new_context rb)
  unfolding new_context
  new_context-IsContext = record {
    visited = new_visited_tree-IsVisited rb L digest;
    duplicates = new_duplicate_tree-IsDuplicates rb L;
  }

  pub new_context-IsGathered : (Q : CString → Type 0) → IsGathered rb digest Q (new_context rb)
  unfolding new_context view
  new_context-IsGathered Q = record {
    seen =
        λ k sha f at. let absent = look-new_visited_tree rb L k in absurd (ground (arith, absent));
    listed = λ sha. rw (duplicates_of-new rb L sha) tt;
  }

pub IsContext-le :
    (rb : RbTree) (digest : Digests) (bound more : ℕ) (ctx : VisitContext rb)
    → bound ≤ more
    → IsContext rb digest bound ctx
    → IsContext rb digest more ctx
IsContext-le rb digest bound more ctx le good = record {
  visited = good.visited;
  duplicates = IsDuplicates-le rb bound more ctx.duplicates le good.duplicates;
}

module _ (rb : RbTree) (L : IsRbTree rb) {env : Digester} {digest : Digests}
    (H : IsHashing env digest) where
  -- Where the files, and whether they can be hashed, do not change during the scan, and the size of
  -- each is that of its content: a run of visit_entry over files whose metadata could be read or
  -- not ends, if it cannot fill a list with 2^59 items. If each list of the tree of duplicates held
  -- only visited files that can be hashed and have its digest before, as the empty tree does, then
  -- it holds only files that were visited, can be hashed and whose content has the digest of that
  -- list, and no NULL; what was visited is any property of the paths of the visited files.
  pub visit_all-IsGathered :
      (Q : CString → Type 0) (entries : List (ℕ × Option Pointer)) (ctx : VisitContext rb)
      (bound : ℕ)
      → All (IsReadEntry rb digest) entries
      → All (OfEntry Q) entries
      → IsContext rb digest bound ctx
      → IsGathered rb digest Q ctx
      → bound + 2 * length entries < 2 ^ 59
      → (after : VisitContext rb) × (visit_all rb env entries ctx ≡ some after)
        × IsContext rb digest (bound + 2 * length entries) after
        × IsGathered rb digest Q after
  unfolding visit_all visit_entry
  visit_all-IsGathered Q [] ctx bound read own good gathered small =
      (ctx, refl, IsContext-le rb digest bound _ ctx (omega arith) good, gathered)
  visit_all-IsGathered Q ((address, none) ∷ entries) ctx bound (_, read) (_, own) good gathered
        small =
      let le : bound ≤ bound + 2 = omega arith in
      let (after, rest, good'', gathered') =
        visit_all-IsGathered Q entries ctx (bound + 2) read own
          (IsContext-le rb digest bound (bound + 2) ctx le good) gathered (omega arith) in
      (after, rest, IsContext-le rb digest _ _ after (omega arith) good'', gathered')
  visit_all-IsGathered Q ((address, some fm) ∷ entries) ctx bound (r, read) (q, own) good gathered
        small =
      let (next, run, visit, good') =
        visit_entry-IsVisit rb L H address fm r ctx bound good (omega arith) in
      let (after, rest, good'', gathered') =
        visit_all-IsGathered Q entries next (bound + 2) read own good'
          (visit-IsGathered rb digest Q address fm ctx next visit gathered q) (omega arith) in
      (
        after,
        rw (visit_all, run) rest,
        IsContext-le rb digest _ _ after (omega arith) good'',
        gathered',
      )
