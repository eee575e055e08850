-- ===== src/Visit/Complete.antt =====
-- A run of `visit_entry` loses no file: each one is the file seen first of its class and digest, or
-- stands on the list of its digest.
use mathlib.Core.List.{Memᴰ}
use mathlib.Core.List.Memᴰ
use mathlib.Core.Option.{some-injective}
use dedup.Prelude.{
  ℕ, ◌+◌, ◌*◌, ◌^◌, ◌<◌, ◌≡◌, refl, sym, ◌∙◌, subst, Option, none, some, List, [], ◌∷◌, ◌++◌, true,
  false, arith, inl, inr, ◌⊎◌, Option-cases, Bool-cases, All, length, Ordering,
}
use dedup.Rb.{RbTree, IsRbTree}
use dedup.Rb.Order.{memcmp, memcmp_self, compare_int-IsOrder, compare_signed-IsOrder}
use dedup.Rb.Laws.{find_node_cong}
use dedup.Metadata.{Sha256, FileMetadata, Digester, Pointer}
use dedup.Visited.Hashing.{Digests, IsHashing, hashed}
use dedup.Visited.Classes.{Class, class_of, same_class}
use dedup.Visited.View.{same_digest, same_digest-is_eq}
use dedup.Visited.Keeps.{view-keeps}
use dedup.Duplicates.{sha256_list_ops, sha256_list_ops-IsKeyed}
use dedup.Duplicates.Lists.{duplicates_of}
use dedup.Visit.{VisitContext, visit_entry, visit_all}
use dedup.Visit.Listing.{seed}
use dedup.Visit.Gathering.{IsReadEntry}
use dedup.Visit.Correct.{
  IsContext, IsVisit, first_of, first_of-view, first_of-can_hash, visit_entry-IsVisit,
}

-- The slot that a file is given on a list.
abbrev pub slot : Digests → Pointer → Option Pointer
slot digest fm = some (record fm { target = hashed digest fm.target })

module _ (rb : RbTree) (digest : Digests) where
  -- A file is the one seen first of its class and digest, or stands on the list of its digest.
  abbrev pub IsFound : VisitContext rb → Pointer → Type 0
  IsFound ctx fm =
      (first_of rb digest ctx fm.target ≡ some (hashed digest fm.target))
      ⊎ Memᴰ (slot digest fm) (duplicates_of rb ctx.duplicates (digest.of_path fm.target.path))

  -- An entry whose metadata could be read cannot be hashed, or is found.
  abbrev pub IsFoundEntry : VisitContext rb → ℕ × Option Pointer → Type 0
  IsFoundEntry ctx (address, none) = Unit
  IsFoundEntry ctx (address, some fm) = (digest.can_hash fm.target.path ≡ false) ⊎ IsFound ctx fm

module _ (rb : RbTree) (L : IsRbTree rb) (digest : Digests) where
  same_class_self : (k : Class) → same_class k k ≡ true
  same_class_self k = rw (
    compare_signed-IsOrder.cmp_self k.device,
    compare_int-IsOrder.cmp_self k.size,
    compare_signed-IsOrder.cmp_self k.first,
    compare_signed-IsOrder.cmp_self k.last,
  )

  same_digest_self :
      (fm : FileMetadata)
      → digest.can_hash fm.path ≡ true
      → same_digest rb digest fm (digest.of_path fm.path) ≡ true
  same_digest_self fm can = rw (can, memcmp_self 32 (digest.of_path fm.path))

  pub duplicates_of_cong :
      (ctx : VisitContext rb) (sha sha' : Sha256)
      → memcmp 32 sha sha' ≡ Ordering.eq
      → duplicates_of rb ctx.duplicates sha ≡ duplicates_of rb ctx.duplicates sha'
  unfolding sha256_list_ops-IsKeyed
  duplicates_of_cong ctx sha sha' same = rw (
    duplicates_of,
    find_node_cong rb L sha256_list_ops sha256_list_ops-IsKeyed ctx.duplicates sha sha' same,
  )

  mem_seed :
      (x : Option Pointer) (address : ℕ) (old : FileMetadata) (ds es : List (Option Pointer))
      → Memᴰ x ds
      → Memᴰ x (seed address old ds ++ es)
  mem_seed x address old [] es m = absurd (Memᴰ.not-nil m)
  mem_seed x address old (d ∷ ds) es m = Memᴰ.append_left es m

  module _ (address : ℕ) (fm : Pointer) (ctx after : VisitContext rb)
      (visit : IsVisit rb digest address fm ctx after) where
    abbrev own : Sha256
    own = digest.of_path fm.target.path

    visit-IsFound : digest.can_hash fm.target.path ≡ true → IsFound rb digest after fm
    visit-IsFound can = elim (Option-cases (first_of rb digest ctx fm.target)) [
      | inl first ↦ inl (
          rw can (
            rw (first, same_class_self (class_of fm.target), same_digest_self fm.target can) at
              (visit.seen (class_of fm.target) own)))
      | inr (old, again) ↦ inr (
          subst (Memᴰ (slot digest fm))
            (sym (rw (again, same_digest_self fm.target can) at (visit.listed own)))
            (Memᴰ.append_right (seed address old (duplicates_of rb ctx.duplicates own))
              (Memᴰ.head refl)))
    ]

    -- What was found stays found.
    visit-keeps : (p : Pointer) → IsFound rb digest ctx p → IsFound rb digest after p
    visit-keeps p (inl seen) =
        let can = first_of-can_hash rb digest ctx p.target (hashed digest p.target) seen in
        inl (
          first_of-view rb digest after p.target can
          ∙ view-keeps rb L digest ctx.visited after.visited fm.target visit.seen
              (class_of p.target) (digest.of_path p.target.path) (hashed digest p.target)
              (sym (first_of-view rb digest ctx p.target can) ∙ seen))
    visit-keeps p (inr listed) = elim (Option-cases (first_of rb digest ctx fm.target)) [
      | inl first ↦ inr (
          subst (Memᴰ (slot digest p))
            (sym (rw first at (visit.listed (digest.of_path p.target.path)))) listed)
      | inr (old, again) ↦
          elim (Bool-cases (same_digest rb digest fm.target (digest.of_path p.target.path))) [
            | inl same ↦ inr (
                subst (Memᴰ (slot digest p))
                  (sym (rw (again, same) at (visit.listed (digest.of_path p.target.path))))
                  (mem_seed (slot digest p) address old (duplicates_of rb ctx.duplicates own)
                    (slot digest fm ∷ [])
                    (subst (Memᴰ (slot digest p))
                      (sym (
                        duplicates_of_cong ctx own (digest.of_path p.target.path) (
                          ground (
                            arith,
                            same_digest-is_eq rb digest fm.target (digest.of_path p.target.path)
                                same,
                          ))))
                      listed)))
            | inr differ ↦ inr (
                subst (Memᴰ (slot digest p))
                  (sym (rw (again, differ) at (visit.listed (digest.of_path p.target.path))))
                  listed)
          ]
    ]

module _ (rb : RbTree) (L : IsRbTree rb) {env : Digester} {digest : Digests}
    (H : IsHashing env digest) where
  -- What a run finds is found at its end.
  visit_all-keeps :
      (entries : List (ℕ × Option Pointer)) (ctx : VisitContext rb) (bound : ℕ)
      → All (IsReadEntry rb digest) entries
      → IsContext rb digest bound ctx
      → bound + 2 * length entries < 2 ^ 59
      → (after : VisitContext rb) → visit_all rb env entries ctx ≡ some after
      → (p : Pointer) → IsFound rb digest ctx p
      → IsFound rb digest after p
  unfolding visit_all visit_entry
  visit_all-keeps [] ctx bound read good small after run p found =
      subst (λ c. IsFound rb digest c p) (some-injective ctx after run) found
  visit_all-keeps ((address, none) ∷ entries) ctx bound (_, read) good small after run p found =
      visit_all-keeps entries ctx bound read good (omega arith) after run p found
  visit_all-keeps ((address, some fm) ∷ entries) ctx bound (r, read) good small after run p found =
      let (next, step, visit, good') =
        visit_entry-IsVisit rb L H address fm r ctx bound good (omega arith) in
      visit_all-keeps entries next (bound + 2) read good' (omega arith) after
        (rw (visit_all, step) at run) p (visit-keeps rb L digest address fm ctx next visit p found)

  -- Where the files, and whether they can be hashed, do not change during the scan, and the size of
  -- each is that of its content: at the end of a run of visit_entry that cannot fill a list with
  -- 2^59 items, each file whose metadata could be read cannot be hashed, or is the file seen first
  -- of its device, size, first and last character and digest, or stands on the list of its digest
  -- in the tree of duplicates.
  pub visit_all-IsFound :
      (entries : List (ℕ × Option Pointer)) (ctx : VisitContext rb) (bound : ℕ)
      → All (IsReadEntry rb digest) entries
      → IsContext rb digest bound ctx
      → bound + 2 * length entries < 2 ^ 59
      → (after : VisitContext rb) → visit_all rb env entries ctx ≡ some after
      → All (IsFoundEntry rb digest after) entries
  unfolding visit_all visit_entry
  visit_all-IsFound [] ctx bound read good small after run = tt
  visit_all-IsFound ((address, none) ∷ entries) ctx bound (_, read) good small after run =
      (tt, visit_all-IsFound entries ctx bound read good (omega arith) after run)
  visit_all-IsFound ((address, some fm) ∷ entries) ctx bound (r, read) good small after run =
      let (next, step, visit, good') =
        visit_entry-IsVisit rb L H address fm r ctx bound good (omega arith) in
      let rest : visit_all rb env entries next ≡ some after = rw (visit_all, step) at run in
      (
        elim (Bool-cases (digest.can_hash fm.target.path)) [
          | inr cannot ↦ inl cannot
          | inl can ↦ inr (
              visit_all-keeps entries next (bound + 2) read good' (omega arith) after rest fm
                (visit-IsFound rb L digest address fm ctx next visit can))
        ],
        visit_all-IsFound entries next (bound + 2) read good' (omega arith) after rest,
      )
