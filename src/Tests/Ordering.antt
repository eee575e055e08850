-- ===== src/Tests/Ordering.antt =====
-- Runs over the same files in two orders.
use mathlib.Core.List.{Permᴰ}
use dedup.Prelude.{
  ℕ, ◌≡◌, refl, true, Option, some, List, [], ◌∷◌, arith, All, length, ◌*◌, ◌<◌, ◌^◌, ap, ◌∙◌,
}
use dedup.Metadata.{FileMetadata, Pointer}
use dedup.Rb.Order.{compare_int, compare_signed, memcmp}
use dedup.Rb.Sorted.{sorted_list, sorted_list-IsRbTree}
use dedup.Duplicates.Lists.{duplicates_of}
use dedup.Visited.Classes.{class_of, same_class}
use dedup.Visit.{VisitContext, new_context, visit_all}
use dedup.Visit.Gathering.{
  IsReadEntry, OfEntry, visit_all-IsGathered, new_context-IsContext, new_context-IsGathered,
}
use dedup.Visit.Exact.{targets, listed_as, if_several, of_digest, files}
use dedup.Visit.Order.{visit_all-listed, visit_all-unordered}
use dedup.Tests.{file_a, copy_of_a, unread, byte_digest, bytes, bytes-IsHashing}

abbrev one : ℕ × Option Pointer
one = (11, some (record { address = 10; target = file_a }))

abbrev other : ℕ × Option Pointer
other = (13, some (record { address = 12; target = copy_of_a }))

abbrev entries : List (ℕ × Option Pointer)
entries = one ∷ other ∷ []

abbrev reversed : List (ℕ × Option Pointer)
reversed = other ∷ one ∷ []

-- Every file is of the class of `file_a`.
abbrev Alike : FileMetadata → Type 0
Alike f = class_of f ≡ class_of file_a

Alike-same_class :
    (f g : FileMetadata) → Alike f → Alike g → same_class (class_of f) (class_of g) ≡ true
unfolding compare_int compare_signed
Alike-same_class f g a b =
    ap (λ k. same_class k (class_of g)) a ∙ ap (λ k. same_class (class_of file_a) k) b

run :
    (es : List (ℕ × Option Pointer))
    → All (IsReadEntry sorted_list byte_digest) es
    → All (OfEntry (λ p. Unit)) es
    → 2 * length es < 2 ^ 59
    → (after : VisitContext sorted_list) × (visit_all sorted_list bytes es (new_context sorted_list)
        ≡ some after)
run es read own small =
    let (after, at_end, _, _) =
      visit_all-IsGathered sorted_list sorted_list-IsRbTree bytes-IsHashing (λ p. Unit) es
        (new_context sorted_list) 0 read own
        (new_context-IsContext sorted_list sorted_list-IsRbTree byte_digest)
        (new_context-IsGathered sorted_list sorted_list-IsRbTree byte_digest (λ p. Unit))
        (omega (arith, small)) in
    (after, at_end)

entries-read : All (IsReadEntry sorted_list byte_digest) entries
entries-read = (unread file_a refl refl, (unread copy_of_a refl refl, tt))

reversed-read : All (IsReadEntry sorted_list byte_digest) reversed
reversed-read = (unread copy_of_a refl refl, (unread file_a refl refl, tt))

forth :
    (after : VisitContext sorted_list) × (visit_all sorted_list bytes entries
        (new_context sorted_list)
      ≡ some after)
forth = run entries entries-read (tt, (tt, tt)) (omega arith)

back :
    (after : VisitContext sorted_list) × (visit_all sorted_list bytes reversed
        (new_context sorted_list)
      ≡ some after)
back = run reversed reversed-read (tt, (tt, tt)) (omega arith)

visit_all-listed_example :
    targets (duplicates_of sorted_list forth.0.duplicates (byte_digest.of_path file_a.path))
    ≡ listed_as (
        if_several (
          of_digest sorted_list byte_digest
            (byte_digest.of_path file_a.path)
            (files sorted_list byte_digest entries)))
visit_all-listed_example =
    visit_all-listed sorted_list sorted_list-IsRbTree bytes-IsHashing Alike
      (λ f g a b _. Alike-same_class f g a b) entries entries-read (refl, (refl, tt)) (omega arith)
      forth.0 forth.1 (byte_digest.of_path file_a.path)

-- The list of the two files, by its computed value.
both_listed :
    listed_as (
      if_several (
        of_digest sorted_list byte_digest
          (byte_digest.of_path file_a.path)
          (files sorted_list byte_digest entries)))
    ≡ some (record file_a { sha256 = byte_digest.of_path file_a.path })
      ∷ some (record copy_of_a { sha256 = byte_digest.of_path file_a.path })
      ∷ []
unfolding compare_int memcmp
both_listed = refl

visit_all-unordered_example :
    Permᴰ
      (targets (duplicates_of sorted_list forth.0.duplicates (byte_digest.of_path file_a.path)))
      (targets (duplicates_of sorted_list back.0.duplicates (byte_digest.of_path file_a.path)))
visit_all-unordered_example =
    visit_all-unordered sorted_list sorted_list-IsRbTree bytes-IsHashing Alike
      (λ f g a b _. Alike-same_class f g a b) entries reversed entries-read reversed-read
      (refl, (refl, tt)) (refl, (refl, tt)) (omega arith) (omega arith) (Permᴰ.swap refl refl)
      forth.0 back.0 forth.1 back.1 (byte_digest.of_path file_a.path)
