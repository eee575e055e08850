-- ===== src/Visited/Keeps.antt =====
-- What the visited tree holds, it keeps; and it does not tell digests of the same 32 bytes apart.
use dedup.Prelude.{
  ◌≡◌, sym, ◌∙◌, ap, none, some, arith, inl, inr, Option-cases, Bool-cases, if◌then◌else◌, ◌&&◌,
  Ordering,
}
use dedup.Rb.{RbTree, IsRbTree}
use dedup.Rb.Order.{memcmp, memcmp-IsOrder, cmp_same_right}
use dedup.Rb.Laws.{find_node_cong}
use dedup.Metadata.{Sha256, FileMetadata}
use dedup.Visited.{LastNode, VisitedTree}
use dedup.Visited.Keys.{sha256_ops, sha256_ops-IsKeyed}
use dedup.Visited.Hashing.{Digests, hashed}
use dedup.Visited.Classes.{Class, class_of, same_class, look}
use dedup.Visited.View.{same_digest-can_hash, same_digest-is_eq, view, held, same_digest}
use dedup.Visited.Correct.{same_class-eq}

module _ (rb : RbTree) (L : IsRbTree rb) (digest : Digests) where
  held_cong :
      (node : LastNode rb) (sha sha' : Sha256)
      → memcmp 32 sha sha' ≡ Ordering.eq
      → held rb digest node sha ≡ held rb digest node sha'
  unfolding held sha256_ops-IsKeyed
  held_cong node sha sha' same = elim (Option-cases node.fm) [
    | inl no_shortcut ↦
        rw (
          no_shortcut,
          find_node_cong rb L sha256_ops sha256_ops-IsKeyed node.children sha sha' same,
        )
    | inr (s, stashed) ↦ rw (
      stashed,
      cmp_same_right (memcmp 32) (memcmp-IsOrder 32) sha sha' (digest.of_path s.path) same,
    )
  ]

  pub view_cong :
      (tree : VisitedTree rb) (k : Class) (sha sha' : Sha256)
      → memcmp 32 sha sha' ≡ Ordering.eq
      → view rb digest tree k sha ≡ view rb digest tree k sha'
  unfolding view
  view_cong tree k sha sha' same = elim (Option-cases (look rb tree k)) [
    | inl absent ↦ rw (view, absent)
    | inr (node, found) ↦ rw (view, found) (held_cong node sha sha' same)
  ]

  -- What a visit of a file does to the files that are seen.
  abbrev pub Seen : VisitedTree rb → FileMetadata → VisitedTree rb → Type 0
  Seen tree fm tree' =
      (k : Class) (sha : Sha256)
      → view rb digest tree' k sha
        ≡ elim (if digest.can_hash fm.path
            then view rb digest tree (class_of fm) (digest.of_path fm.path)
            else none) [
              | some old ↦ view rb digest tree k sha
              | none ↦
                  if same_class (class_of fm) k && same_digest rb digest fm sha
                  then some (hashed digest fm)
                  else view rb digest tree k sha
            ]

  -- A file that is seen stays seen: the new one does not stand in its place.
  pub view-keeps :
      (tree tree' : VisitedTree rb) (fm : FileMetadata)
      → Seen tree fm tree'
      → (k : Class) (sha : Sha256) (f : FileMetadata) → view rb digest tree k sha ≡ some f
      → view rb digest tree' k sha ≡ some f
  view-keeps tree tree' fm seen k sha f at =
      elim (Option-cases (
        if digest.can_hash fm.path
        then view rb digest tree (class_of fm) (digest.of_path fm.path)
        else none)) [
          | inr (old, again) ↦ rw again at (seen k sha) ∙ at
          | inl first ↦
              elim (Bool-cases (same_class (class_of fm) k && same_digest rb digest fm sha)) [
                | inl same ↦
                    let can = same_digest-can_hash rb digest fm sha (ground arith) in
                    let same_k : class_of fm ≡ k = same_class-eq (class_of fm) k (ground arith) in
                    let unseen : view rb digest tree k sha ≡ none =
                      ap (λ (c : Class). view rb digest tree c sha) (sym same_k)
                      ∙ sym (
                          view_cong tree (class_of fm) (digest.of_path fm.path) sha
                            (ground (arith, same_digest-is_eq rb digest fm sha)))
                      ∙ rw can at first in
                    cc (unseen, at)
                | inr differ ↦ rw (first, differ) at (seen k sha) ∙ at
              ]
        ]
