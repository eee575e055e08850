-- ===== src/Visited/Correct.antt =====
-- `visited_tree_insert` implements the map from class and digest to the file seen first.
use mathlib.Core.Option.{some-injective}
use dedup.Prelude.{
  subst, ◌≡◌, sym, ◌∙◌, ap, true, false, ◌&&◌, Option, none, some, arith, if◌then◌else◌, Bool-cases,
  Option-cases, inl, inr, ◌==◌,
}
use dedup.Rb.{RbTree, IsRbTree, Ref}
use dedup.Rb.Order.{compare_int-eq, compare_signed-eq}
use dedup.Rb.Laws.{find_node-init}
use dedup.Metadata.{Sha256, FileMetadata, Digester}
use dedup.Visited.{
  LastNode, VisitedTree, Inserted, new_visited_tree, visited_tree_insert,
  visited_tree_find_or_create_last_node,
}
use dedup.Visited.Keys.{sha256_ops, sha256_ops-IsKeyed}
use dedup.Visited.Hashing.{Digests, IsHashing, hashed, IsRead}
use dedup.Visited.Classes.{Class, class_of, same_class, look, look-new_visited_tree}
use dedup.Visited.Place.{look-write, last_node-c, value-visited_tree_find_or_create_last_node}
use dedup.Visited.View.{same_digest, held, view, ShortcutIsAlone, IsVisited, IsNodeInsert}
use dedup.Visited.Refine.{empty_node, shortcut_node, digest_node}

-- Files of one class agree in all that the class records.
pub same_class-eq : (a b : Class) → same_class a b ≡ true → a ≡ b
same_class-eq a b h = ground (
  arith,
  compare_signed-eq a.device b.device,
  compare_int-eq a.size b.size,
  compare_signed-eq a.first b.first,
  compare_signed-eq a.last b.last,
)

-- An insertion, against the map from class and digest to file that the tree stands for.
pub record IsInsert (rb : RbTree) (digest : Digests) (tree : VisitedTree rb) (fm : FileMetadata)
    (inserted : Inserted (VisitedTree rb)) : Type 0 where
  pub answer : inserted.result ≡ (
      if digest.can_hash fm.path
      then view rb digest tree (class_of fm) (digest.of_path fm.path)
      else none)
  pub after :
      (k : Class) (sha : Sha256)
      → view rb digest inserted.tree k sha ≡ elim inserted.result [
        | some old ↦ view rb digest tree k sha
        | none ↦
            if same_class (class_of fm) k && same_digest rb digest fm sha
            then some (hashed digest fm)
            else view rb digest tree k sha
      ]
  pub valid : IsVisited rb digest inserted.tree

module _ (rb : RbTree) (L : IsRbTree rb) {env : Digester} {digest : Digests}
    (H : IsHashing env digest) (tree : VisitedTree rb) (valid : IsVisited rb digest tree)
    (fm : FileMetadata) (read : IsRead digest fm) where
  abbrev last_node : Ref (LastNode rb) (VisitedTree rb)
  last_node = visited_tree_find_or_create_last_node rb tree fm

  node_alone : ShortcutIsAlone rb digest last_node.value
  node_alone = elim (Option-cases (look rb tree (class_of fm))) [
    | inl absent ↦ rw (value-visited_tree_find_or_create_last_node rb L tree fm, absent) tt
    | inr (node, found) ↦
        rw (value-visited_tree_find_or_create_last_node rb L tree fm, found)
          (valid.alone (class_of fm) node found)
  ]

  view_of_look :
      (t : VisitedTree rb) (k : Class) (node : LastNode rb) (sha : Sha256)
      → look rb t k ≡ some node
      → view rb digest t k sha ≡ held rb digest node sha
  unfolding view
  view_of_look t k node sha found = rw (found, view)

  view_same_look :
      (t u : VisitedTree rb) (k : Class) (sha : Sha256)
      → look rb t k ≡ look rb u k
      → view rb digest t k sha ≡ view rb digest u k sha
  unfolding view
  view_same_look t u k sha same = rw (same, view)

  held-view :
      (sha : Sha256) → held rb digest last_node.value sha ≡ view rb digest tree (class_of fm) sha
  unfolding view
  held-view sha = elim (Option-cases (look rb tree (class_of fm))) [
    | inl absent ↦
        rw (value-visited_tree_find_or_create_last_node rb L tree fm, absent)
          (rw (absent, view, find_node-init rb L sha256_ops sha256_ops-IsKeyed rb.rb_tree_init sha))
    | inr (node, found) ↦
        rw (value-visited_tree_find_or_create_last_node rb L tree fm, found)
          (sym (view_of_look tree (class_of fm) node sha found))
  ]

  no_shortcut : (rb.rb_tree_count last_node.value.children == 0) ≡ false → last_node.value.fm ≡ none
  no_shortcut some_count = elim (Option-cases last_node.value.fm) [
    | inl free ↦ free
    | inr (s, stashed) ↦
        let (empty, _) = rw (stashed, ShortcutIsAlone) at node_alone in absurd (ground arith)
  ]

  insert_node :
      (node' : LastNode rb) × ((visited_tree_insert rb env tree fm).tree ≡ last_node.write node')
      × IsNodeInsert rb digest last_node.value fm (visited_tree_insert rb env tree fm).result node'
  unfolding visited_tree_insert
  insert_node = elim (Bool-cases (rb.rb_tree_count last_node.value.children == 0)) [
    | inl zero_count ↦ elim (Option-cases last_node.value.fm) [
      | inl free ↦ (
        record last_node.value { fm = some fm },
        rw (zero_count, free),
        rw (zero_count, free) (empty_node rb L H last_node fm read node_alone (ground arith) free),
      )
      | inr (s, stashed) ↦
          rw (zero_count, stashed) (shortcut_node rb L H last_node fm read node_alone s stashed)
    ]
    | inr some_count ↦
        rw some_count (digest_node rb L H last_node fm read node_alone (no_shortcut some_count))
  ]

  view-same_class :
      (k : Class) (sha : Sha256)
      → same_class (class_of fm) k ≡ true
      → view rb digest tree (class_of fm) sha ≡ view rb digest tree k sha
  view-same_class k sha same =
      ap (λ (c : Class). view rb digest tree c sha) (same_class-eq (class_of fm) k same)

  module _ (node' : LastNode rb) (result : Option FileMetadata)
      (good : IsNodeInsert rb digest last_node.value fm result node') where
    same_c : node'.c ≡ fm.last
    same_c = good.same_c ∙ last_node-c rb L tree fm

    view-write :
        (k : Class) (sha : Sha256)
        → view rb digest (last_node.write node') k sha ≡ elim result [
          | some old ↦ view rb digest tree k sha
          | none ↦
              if same_class (class_of fm) k && same_digest rb digest fm sha
              then some (hashed digest fm)
              else view rb digest tree k sha
        ]
    view-write k sha = elim (Bool-cases (same_class (class_of fm) k)) [
      | inl same ↦
          view_of_look _ k node' sha (look-write rb L tree fm node' k same_c ∙ rw same)
          ∙ subst
              (λ (v : Option FileMetadata). held rb digest node' sha ≡ elim result [
                | some old ↦ v
                | none ↦
                    if same_class (class_of fm) k && same_digest rb digest fm sha
                    then some (hashed digest fm)
                    else v
              ])
              (held-view sha ∙ view-same_class k sha same) (ground (arith, good.after sha))
      | inr differ ↦
          view_same_look _ tree k sha (look-write rb L tree fm node' k same_c ∙ rw differ)
          ∙ ground arith
    ]

    IsVisited-write : IsVisited rb digest (last_node.write node')
    IsVisited-write = record {
      alone = λ k n found. elim (Bool-cases (same_class (class_of fm) k)) [
        | inl same ↦
            let e : some node' ≡ some n =
              sym (look-write rb L tree fm node' k same_c ∙ rw same) ∙ found in
            subst (λ x. ShortcutIsAlone rb digest x) (some-injective node' n e) good.alone
        | inr differ ↦
            valid.alone k n (sym (look-write rb L tree fm node' k same_c ∙ rw differ) ∙ found)
      ];
    }

  -- Where the files, and whether they can be opened, mapped with their sizes and hashed, do not
  -- change, for a file whose size is that of its content: visited_tree_insert answers with the file
  -- that the tree held for its device, size, first and last character and SHA-256 if it can be
  -- hashed, and with NULL otherwise. If the answer is NULL and the file can be hashed, the tree
  -- holds it for these from now on; it holds nothing else that it did not hold, and nothing for a
  -- file that cannot be hashed. The lazy computation of digests is not seen.
  pub visited_tree_insert-view : IsInsert rb digest tree fm (visited_tree_insert rb env tree fm)
  visited_tree_insert-view =
      let (node', run, good) = insert_node in
      record {
        answer =
            good.answer
            ∙ ap (λ v. if digest.can_hash fm.path then v else none)
                (held-view (digest.of_path fm.path));
        after = rw run (view-write node' (visited_tree_insert rb env tree fm).result good);
        valid = rw run (IsVisited-write node' (visited_tree_insert rb env tree fm).result good);
      }

-- A file that is answered with another can be hashed.
pub found-can_hash :
    (rb : RbTree) (digest : Digests) (tree : VisitedTree rb) (fm : FileMetadata)
    (inserted : Inserted (VisitedTree rb)) (insertion : IsInsert rb digest tree fm inserted)
    (old : FileMetadata)
    → inserted.result ≡ some old
    → digest.can_hash fm.path ≡ true
found-can_hash rb digest tree fm inserted insertion old again =
    elim (Bool-cases (digest.can_hash fm.path)) [
      | inl can ↦ can
      | inr cannot ↦ absurd (cc (again, rw cannot at insertion.answer))
    ]

-- A tree that holds nothing is in good order, and holds no file.
pub new_visited_tree-IsVisited :
    (rb : RbTree) → IsRbTree rb → (digest : Digests) → IsVisited rb digest (new_visited_tree rb)
new_visited_tree-IsVisited rb L digest = record {
  alone = λ k node found. cc (look-new_visited_tree rb L k);
}
