-- ===== src/Visited/Refine.antt =====
-- `visited_tree_insert` against its specification: a map from a class and a digest to the file that
-- was seen first, although digests are computed only when a class has a second file.
use dedup.Prelude.{
  subst, ◌≡◌, refl, sym, ◌∙◌, ap, inl, inr, true, false, Option, none, some, arith, Bool-cases,
  Option-cases,
}
use dedup.Rb.Order.{is_eq, memcmp}
use dedup.Rb.{RbTree, IsRbTree, Ref}
use dedup.Rb.Laws.{find_node-insert, find-nil_of_length}
use dedup.Metadata.{populate_sha256_if_empty, Sha256, FileMetadata, Digester}
use dedup.Visited.{LastNode, VisitedTree, Inserted, insert_at_shortcut, insert_at_digest}
use dedup.Visited.Keys.{
  FileMetadataNode, sha256_ops, sha256_ops-IsKeyed, compare_metadata_sha256_key,
}
use dedup.Visited.Hashing.{
  Digests, IsHashing, hashed, IsRead, populate_lem, populate-could_not_hash, hashed-could_hash,
}
use dedup.Visited.View.{held, ShortcutIsAlone, IsNodeInsert}

module _ (rb : RbTree) (L : IsRbTree rb) {env : Digester} {digest : Digests}
    (H : IsHashing env digest) (last_node : Ref (LastNode rb) (VisitedTree rb)) (fm : FileMetadata)
    (read : IsRead digest fm) (alone : ShortcutIsAlone rb digest last_node.value) where
  abbrev pub node : LastNode rb
  node = last_node.value

  find-no_children :
      (sha : Sha256)
      → rb.rb_tree_count node.children ≡ 0
      → rb.rb_tree_find_node sha256_ops node.children sha ≡ none
  find-no_children sha empty =
      L.find-nodes sha256_ops sha256_ops-IsKeyed node.children sha
      ∙ find-nil_of_length sha256_ops (rb.nodes node.children) sha
          (sym (L.count-nodes node.children) ∙ empty)

  -- A node with neither shortcut nor digests.
  pub empty_node :
      rb.rb_tree_count node.children ≡ 0
      → node.fm ≡ none
      → IsNodeInsert rb digest node fm none (record node { fm = some fm })
  unfolding held
  empty_node empty free = record {
    answer = rw (free, find-no_children (digest.of_path fm.path) empty) (ground arith);
    after = λ sha. rw (free, find-no_children sha empty);
    alone = (empty, read);
    same_c = refl;
  }

  module _ (s : FileMetadata) (empty : rb.rb_tree_count node.children ≡ 0)
      (stashed : node.fm ≡ some s) (s_read : IsRead digest s) where
    -- The shortcut cannot be hashed: the file takes its place.
    shortcut_lost :
        digest.can_hash s.path ≡ false
        → (insert_at_shortcut rb env last_node s fm ≡ record {
          result = none;
          tree = last_node.write (record node { fm = some fm });
          fm = fm;
        })
          × IsNodeInsert rb digest node fm none (record node { fm = some fm })
    unfolding insert_at_shortcut held
    shortcut_lost cannot = (
      rw (populate-could_not_hash H s s_read cannot),
      record {
        answer = rw (stashed, cannot) (ground arith);
        after = λ sha. rw (stashed, cannot);
        alone = (empty, read);
        same_c = refl;
      },
    )

    -- The file cannot be hashed: the shortcut stays, with its digest.
    shortcut_kept :
        digest.can_hash s.path ≡ true
        → digest.can_hash fm.path ≡ false
        → (insert_at_shortcut rb env last_node s fm ≡ record {
          result = none;
          tree = last_node.write (record node { fm = some (hashed digest s) });
          fm = (populate_sha256_if_empty env fm).1;
        })
          × IsNodeInsert rb digest node fm none (record node { fm = some (hashed digest s) })
    unfolding insert_at_shortcut held
    shortcut_kept can_s cannot = (
      rw (
        populate_lem H s s_read can_s,
        hashed-could_hash H s can_s,
        populate-could_not_hash H fm read cannot,
      ),
      record {
        answer = rw cannot;
        after = λ sha. rw (stashed, cannot);
        alone = (empty, (s_read.0, inr (refl, can_s)));
        same_c = refl;
      },
    )

    abbrev s_node : FileMetadataNode
    s_node = record { fm = hashed digest s }

    abbrev f_node : FileMetadataNode
    f_node = record { fm = hashed digest fm }

    abbrev split_node : LastNode rb
    split_node = record node {
      children =
          rb.rb_tree_insert_node sha256_ops (rb.rb_tree_insert_node sha256_ops node.children s_node)
            f_node;
      fm = none;
    }

    -- The two files are the same: the shortcut stays, with its digest.
    shortcut_same :
        digest.can_hash s.path ≡ true
        → digest.can_hash fm.path ≡ true
        → is_eq (memcmp 32 (digest.of_path s.path) (digest.of_path fm.path)) ≡ true
        → (insert_at_shortcut rb env last_node s fm ≡ record {
          result = some (hashed digest s);
          tree = last_node.write (record node { fm = some (hashed digest s) });
          fm = hashed digest fm;
        })
          × IsNodeInsert rb digest node fm
              (some (hashed digest s))
              (record node { fm = some (hashed digest s) })
    unfolding insert_at_shortcut held
    shortcut_same can_s can same = (
      rw (
        populate_lem H s s_read can_s,
        populate_lem H fm read can,
        hashed-could_hash H s can_s,
        hashed-could_hash H fm can,
        same,
      ),
      record {
        answer = rw (can, stashed, can_s, same);
        after = λ sha. rw stashed;
        alone = (empty, (s_read.0, inr (refl, can_s)));
        same_c = refl;
      },
    )

    -- They differ: both go into the tree of digests.
    shortcut_different :
        digest.can_hash s.path ≡ true
        → digest.can_hash fm.path ≡ true
        → is_eq (memcmp 32 (digest.of_path s.path) (digest.of_path fm.path)) ≡ false
        → let node' : LastNode rb = split_node in
          (insert_at_shortcut rb env last_node s fm
            ≡ record { result = none; tree = last_node.write node'; fm = hashed digest fm })
          × IsNodeInsert rb digest node fm none node'
    unfolding insert_at_shortcut held compare_metadata_sha256_key sha256_ops-IsKeyed
    shortcut_different can_s can differ =
        let children = rb.rb_tree_insert_node sha256_ops node.children s_node in
        let found = find_node-insert rb L sha256_ops sha256_ops-IsKeyed node.children s_node in
        let absent : rb.rb_tree_find_node sha256_ops children (digest.of_path fm.path) ≡ none =
          found (digest.of_path fm.path) (find-no_children _ empty)
          ∙ rw differ (find-no_children (digest.of_path fm.path) empty) in
        (
          rw (
            populate_lem H s s_read can_s,
            populate_lem H fm read can,
            hashed-could_hash H s can_s,
            hashed-could_hash H fm can,
            differ,
          ),
          record {
            answer = rw (can, stashed, can_s, differ);
            after = λ sha.
                rw
                  (
                    find_node-insert rb L sha256_ops sha256_ops-IsKeyed children f_node sha absent,
                    found sha (find-no_children _ empty),
                    stashed,
                    can_s,
                    can,
                    find-no_children sha empty,
                  )
                  (ground arith);
            alone = tt;
            same_c = refl;
          },
        )

  at_node :
      (i : Inserted (VisitedTree rb)) (result : Option FileMetadata) (f : FileMetadata)
      (node' : LastNode rb)
      → i ≡ record { result = result; tree = last_node.write node'; fm = f }
      → IsNodeInsert rb digest node fm result node'
      → (n : LastNode rb) × (i.tree ≡ last_node.write n) × IsNodeInsert rb digest node fm i.result n
  at_node i result f node' run good = (
    node',
    ap (λ x. x.tree) run,
    subst (λ x. IsNodeInsert rb digest node fm x node') (ap (λ x. x.result) (sym run)) good,
  )

  pub shortcut_node :
      (s : FileMetadata)
      → node.fm ≡ some s
      → (node' : LastNode rb) × ((insert_at_shortcut rb env last_node s fm).tree
          ≡ last_node.write node')
        × IsNodeInsert rb digest node fm (insert_at_shortcut rb env last_node s fm).result node'
  shortcut_node s stashed =
      let (empty, s_read) = rw stashed at alone in
      elim (Bool-cases (digest.can_hash s.path)) [
        | inr cannot ↦
            let (run, good) = shortcut_lost s empty stashed s_read cannot in
            at_node _ _ _ (record node { fm = some fm }) run good
        | inl can_s ↦ elim (Bool-cases (digest.can_hash fm.path)) [
          | inr cannot ↦
              let (run, good) = shortcut_kept s empty stashed s_read can_s cannot in
              at_node _ _ _ (record node { fm = some (hashed digest s) }) run good
          | inl can ↦
              elim (Bool-cases
                (is_eq (memcmp 32 (digest.of_path s.path) (digest.of_path fm.path)))) [
                  | inl same ↦
                      let (run, good) = shortcut_same s empty stashed s_read can_s can same in
                      at_node _ _ _ (record node { fm = some (hashed digest s) }) run good
                  | inr differ ↦
                      let (run, good) =
                        shortcut_different s empty stashed s_read can_s can differ in
                      at_node _ _ _ (split_node s empty stashed s_read) run good
                ]
        ]
      ]

  -- A digest that the node knows: the file that is there is the answer.
  digest_hit :
      (old : FileMetadataNode)
      → digest.can_hash fm.path ≡ true
      → node.fm ≡ none
      → rb.rb_tree_find_node sha256_ops node.children (digest.of_path fm.path) ≡ some old
      → (insert_at_digest rb env last_node fm
          ≡ record { result = some old.fm; tree = last_node.write node; fm = hashed digest fm })
        × IsNodeInsert rb digest node fm (some old.fm) node
  unfolding insert_at_digest held
  digest_hit old can free found = (
    rw (populate_lem H fm read can, hashed-could_hash H fm can, found, populate_lem H fm read can),
    record {
      answer = rw (can, free, found);
      after = λ sha. refl;
      alone = rw free tt;
      same_c = refl;
    },
  )

  -- The file cannot be hashed: the node stays as it is.
  digest_skip :
      digest.can_hash fm.path ≡ false
      → node.fm ≡ none
      → (insert_at_digest rb env last_node fm ≡ record {
        result = none;
        tree = last_node.write node;
        fm = (populate_sha256_if_empty env fm).1;
      })
        × IsNodeInsert rb digest node fm none node
  unfolding insert_at_digest held
  digest_skip cannot free = (
    rw (populate-could_not_hash H fm read cannot),
    record { answer = rw cannot; after = λ sha. rw cannot; alone = rw free tt; same_c = refl },
  )

  abbrev longer_node : LastNode rb
  longer_node = record node {
    children = rb.rb_tree_insert_node sha256_ops node.children (record { fm = hashed digest fm });
  }

  -- A new digest: the file becomes the one of its digest.
  digest_miss :
      digest.can_hash fm.path ≡ true
      → node.fm ≡ none
      → rb.rb_tree_find_node sha256_ops node.children (digest.of_path fm.path) ≡ none
      → let node' : LastNode rb = longer_node in
        (insert_at_digest rb env last_node fm
          ≡ record { result = none; tree = last_node.write node'; fm = hashed digest fm })
        × IsNodeInsert rb digest node fm none node'
  unfolding insert_at_digest held compare_metadata_sha256_key sha256_ops-IsKeyed
  digest_miss can free absent = (
    rw (populate_lem H fm read can, hashed-could_hash H fm can, absent, populate_lem H fm read can),
    record {
      answer = rw (can, free, absent);
      after = λ sha.
          rw
            (
              free,
              can,
              find_node-insert rb L sha256_ops sha256_ops-IsKeyed node.children
                  (record { fm = hashed digest fm }) sha absent,
            )
            (ground arith);
      alone = rw free tt;
      same_c = refl;
    },
  )

  pub digest_node :
      node.fm ≡ none
      → (node' : LastNode rb) × ((insert_at_digest rb env last_node fm).tree
          ≡ last_node.write node')
        × IsNodeInsert rb digest node fm (insert_at_digest rb env last_node fm).result node'
  digest_node free = elim (Bool-cases (digest.can_hash fm.path)) [
    | inr cannot ↦ let (run, good) = digest_skip cannot free in at_node _ _ _ node run good
    | inl can ↦
        elim (Option-cases
          (rb.rb_tree_find_node sha256_ops node.children (digest.of_path fm.path))) [
            | inl absent ↦
                let (run, good) = digest_miss can free absent in at_node _ _ _ longer_node run good
            | inr (old, found) ↦
                let (run, good) = digest_hit old can free found in at_node _ _ _ node run good
          ]
  ]
