-- ===== src/Visit/Exact.antt =====
-- What the lists of duplicates hold after a run of `visit_entry`, file by file: all files of a digest
-- in the order of their visits, if there are two of them.
use mathlib.Core.Option
use mathlib.Core.Option.{some-injective}
use dedup.Prelude.{
  ℕ, ◌≡◌, refl, sym, ◌∙◌, ap, true, Option, none, some, List, [], ◌∷◌, ◌++◌, arith, inl, inr,
  Option-cases, Bool-cases, if◌then◌else◌, ◌&&◌,
}
use dedup.Rb.{RbTree}
use dedup.Rb.Order.{is_eq, memcmp, memcmp-IsOrder, cmp_same_right}
use dedup.Metadata.{Sha256, FileMetadata, Pointer}
use dedup.Visited.Hashing.{Digests, hashed}
use dedup.Visited.Classes.{class_of, same_class}
use dedup.Visited.View.{view, same_digest, same_digest-is_eq, same_digest-can_hash}
use dedup.Duplicates.Lists.{duplicates_of}
use dedup.Visit.{VisitContext}
use dedup.Visit.Listing.{seed}
use dedup.Visit.Correct.{IsVisit, first_of, first_of-view}

-- The metadata in the slots of a list.
abbrev pub targets : List (Option Pointer) → List (Option FileMetadata)
targets [] = []
targets (slot ∷ slots) = Option.map (λ (p : Pointer). p.target) slot ∷ targets slots

-- One file alone is no duplicate.
abbrev pub if_several : List FileMetadata → List FileMetadata
if_several [] = []
if_several (f ∷ []) = []
if_several (f ∷ g ∷ fs) = f ∷ g ∷ fs

abbrev pub head : List FileMetadata → Option FileMetadata
head [] = none
head (f ∷ fs) = some f

abbrev pub listed_as : List FileMetadata → List (Option FileMetadata)
listed_as [] = []
listed_as (f ∷ fs) = some f ∷ listed_as fs

module _ (rb : RbTree) (digest : Digests) where
  -- The files of the list that have the digest.
  abbrev pub of_digest : Sha256 → List FileMetadata → List FileMetadata
  of_digest sha [] = []
  of_digest sha (f ∷ fs) =
      if same_digest rb digest f sha then f ∷ of_digest sha fs else of_digest sha fs

  -- The files that are visited, with their digests.
  abbrev pub files : List (ℕ × Option Pointer) → List FileMetadata
  files [] = []
  files ((address, none) ∷ entries) = files entries
  files ((address, some fm) ∷ entries) = hashed digest fm.target ∷ files entries

  -- `Met` is what is known of the files that are visited.
  module _ (Met : FileMetadata → Type 0) where
    abbrev pub MetEntry : ℕ × Option Pointer → Type 0
    MetEntry (address, none) = Unit
    MetEntry (address, some fm) = Met fm.target

    -- The trees hold the files of the list, which were visited in its order.
    pub record IsExact (done : List FileMetadata) (ctx : VisitContext rb) : Type 0 where
      pub seen :
          (fm : FileMetadata)
          → Met fm
          → view rb digest ctx.visited (class_of fm) (digest.of_path fm.path)
            ≡ head (of_digest (digest.of_path fm.path) done)
      pub listed :
          (sha : Sha256)
          → targets (duplicates_of rb ctx.duplicates sha)
            ≡ listed_as (if_several (of_digest sha done))

  of_digest-append :
      (sha : Sha256) (fs : List FileMetadata) (f : FileMetadata)
      → of_digest sha (fs ++ f ∷ [])
        ≡ (if same_digest rb digest f sha then of_digest sha fs ++ f ∷ [] else of_digest sha fs)
  of_digest-append sha [] f = ground arith
  of_digest-append sha (g ∷ fs) f = ground (arith, of_digest-append sha fs f)

  -- Digests that compare as equal have the same files.
  of_digest_cong :
      (sha sha' : Sha256) (fs : List FileMetadata)
      → is_eq (memcmp 32 sha sha') ≡ true
      → of_digest sha fs ≡ of_digest sha' fs
  of_digest_cong sha sha' [] same = refl
  of_digest_cong sha sha' (f ∷ fs) same =
      let alike : same_digest rb digest f sha ≡ same_digest rb digest f sha' =
        ap (λ o. digest.can_hash f.path && is_eq o)
          (cmp_same_right (memcmp 32) (memcmp-IsOrder 32) sha sha' (digest.of_path f.path)
            (ground arith)) in
      rw (alike, of_digest_cong sha sha' fs same)

head-cons :
    (fs : List FileMetadata) (f : FileMetadata)
    → head fs ≡ some f
    → (gs : List FileMetadata) × (fs ≡ f ∷ gs)
head-cons [] f h = absurd cc
head-cons (g ∷ gs) f h = (gs, ap (λ x. x ∷ gs) (some-injective g f h))

head-nil : (fs : List FileMetadata) → head fs ≡ none → fs ≡ []
head-nil [] h = refl
head-nil (g ∷ gs) h = absurd cc

targets-append :
    (slots : List (Option Pointer)) (p : Pointer)
    → targets (slots ++ some p ∷ []) ≡ targets slots ++ some p.target ∷ []
targets-append [] p = refl
targets-append (slot ∷ slots) p =
    ap (λ r. Option.map (λ (q : Pointer). q.target) slot ∷ r) (targets-append slots p)

listed_as-append :
    (fs : List FileMetadata) (f : FileMetadata)
    → listed_as (fs ++ f ∷ []) ≡ listed_as fs ++ some f ∷ []
listed_as-append [] f = refl
listed_as-append (g ∷ fs) f = ap (λ r. some g ∷ r) (listed_as-append fs f)

-- A list that holds the files seen so far, if they are several, holds them and the next one.
targets-seed :
    (address : ℕ) (old : FileMetadata) (fs : List FileMetadata) (slots : List (Option Pointer))
    (p : Pointer)
    → targets slots ≡ listed_as (if_several (old ∷ fs))
    → targets (seed address old slots ++ some p ∷ [])
      ≡ listed_as (if_several ((old ∷ fs) ++ p.target ∷ []))
targets-seed address old [] [] p h = refl
targets-seed address old [] (slot ∷ slots) p h = absurd cc
targets-seed address old (f ∷ fs) [] p h = absurd cc
targets-seed address old (f ∷ fs) (slot ∷ slots) p h =
    targets-append (slot ∷ slots) p
    ∙ ap (λ r. r ++ some p.target ∷ []) h
    ∙ sym (listed_as-append (old ∷ f ∷ fs) p.target)

head-append : (f : FileMetadata) (fs gs : List FileMetadata) → head ((f ∷ fs) ++ gs) ≡ some f
head-append f fs gs = refl

module _ (rb : RbTree) (digest : Digests) (Met : FileMetadata → Type 0)
    -- Of the files that are visited, those of one digest have one class.
    (one_class : (f g : FileMetadata)
      → Met f
      → Met g
      → same_digest rb digest f (digest.of_path g.path) ≡ true
      → same_class (class_of f) (class_of g) ≡ true)
    (address : ℕ) (fm : Pointer) (met : Met fm.target) (ctx after : VisitContext rb)
    (visit : IsVisit rb digest address fm ctx after) (done : List FileMetadata)
    (exact : IsExact rb digest Met done ctx) where
  abbrev here : FileMetadata
  here = hashed digest fm.target

  abbrev own : Sha256
  own = digest.of_path fm.target.path

  -- The files of a digest that compares as equal with that of the file.
  of_own :
      (sha : Sha256)
      → same_digest rb digest fm.target sha ≡ true
      → of_digest rb digest sha done ≡ of_digest rb digest own done
  of_own sha same =
      sym (of_digest_cong rb digest own sha done (same_digest-is_eq rb digest fm.target sha same))

  -- What was seen first of the class and the digest of the file, if it can be hashed.
  before :
      digest.can_hash fm.target.path ≡ true
      → first_of rb digest ctx fm.target ≡ head (of_digest rb digest own done)
  before can = first_of-view rb digest ctx fm.target can ∙ exact.seen fm.target met

  visit-seen :
      (g : FileMetadata)
      → Met g
      → view rb digest after.visited (class_of g) (digest.of_path g.path)
        ≡ head (of_digest rb digest (digest.of_path g.path) (done ++ here ∷ []))
  visit-seen g met_g =
      let sha : Sha256 = digest.of_path g.path in
      let seen = visit.seen (class_of g) sha in
      let can : same_digest rb digest fm.target sha ≡ true → digest.can_hash fm.target.path ≡ true =
        same_digest-can_hash rb digest fm.target sha in
      rw (of_digest-append rb digest sha done here)
        (elim (Bool-cases (same_digest rb digest fm.target sha)) [
          | inl same ↦ elim (Option-cases (first_of rb digest ctx fm.target)) [
            | inl first ↦
                rw (same, of_own sha same, head-nil _ (sym (before (can same)) ∙ first))
                  (rw (first, one_class fm.target g met met_g same, same) at seen)
            | inr (old, again) ↦
                let (fs, shape) = head-cons _ old (sym (before (can same)) ∙ again) in
                rw (same, of_own sha same, shape)
                  ((rw again at seen) ∙ exact.seen g met_g ∙ rw (of_own sha same, shape) refl)
          ]
          | inr differ ↦ rw differ (elim (Option-cases (first_of rb digest ctx fm.target)) [
            | inl first ↦ ground (arith, rw (first, differ) at seen, exact.seen g met_g)
            | inr (old, again) ↦ (rw again at seen) ∙ exact.seen g met_g
          ])
        ])

  visit-listed :
      (sha : Sha256)
      → targets (duplicates_of rb after.duplicates sha)
        ≡ listed_as (if_several (of_digest rb digest sha (done ++ here ∷ [])))
  visit-listed sha =
      let listed = visit.listed sha in
      let can : same_digest rb digest fm.target sha ≡ true → digest.can_hash fm.target.path ≡ true =
        same_digest-can_hash rb digest fm.target sha in
      rw (of_digest-append rb digest sha done here)
        (elim (Bool-cases (same_digest rb digest fm.target sha)) [
          | inl same ↦ elim (Option-cases (first_of rb digest ctx fm.target)) [
            | inl first ↦
                let none_yet = head-nil _ (sym (before (can same)) ∙ first) in
                rw (same, of_own sha same, none_yet)
                  (ap targets (rw first at listed)
                    ∙ exact.listed sha
                    ∙ rw (of_own sha same, none_yet) refl)
            | inr (old, again) ↦
                let (fs, shape) = head-cons _ old (sym (before (can same)) ∙ again) in
                rw (same, of_own sha same, shape)
                  (ap targets (rw (again, same) at listed)
                    ∙ targets-seed address old fs (duplicates_of rb ctx.duplicates own)
                        (record fm { target = here }) (exact.listed own ∙ rw shape refl))
          ]
          | inr differ ↦ rw differ (elim (Option-cases (first_of rb digest ctx fm.target)) [
            | inl first ↦ ap targets (rw first at listed) ∙ exact.listed sha
            | inr (old, again) ↦ ap targets (rw (again, differ) at listed) ∙ exact.listed sha
          ])
        ])

  pub visit-IsExact : IsExact rb digest Met (done ++ here ∷ []) after
  visit-IsExact = record { seen = visit-seen; listed = visit-listed }
