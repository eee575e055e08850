-- ===== src/Visited/View.antt =====
-- The specification of the visited tree: a map from a class and a digest to the file that was seen
-- first.
use mathlib.Core.Option
use dedup.Prelude.{true, arith, ◌≡◌, Bool, ◌&&◌, Option, none, some, if◌then◌else◌}
use dedup.Rb.{RbTree}
use dedup.Rb.Order.{is_eq, memcmp}
use dedup.Metadata.{Sha256, FileMetadata}
use dedup.Visited.{LastNode, VisitedTree}
use dedup.Visited.Keys.{FileMetadataNode, sha256_ops}
use dedup.Visited.Hashing.{Digests, hashed, IsRead}
use dedup.Visited.Classes.{Class, look}

module _ (rb : RbTree) (digest : Digests) where
  -- The file can be hashed, and has the digest.
  abbrev pub same_digest : FileMetadata → Sha256 → Bool
  same_digest fm sha = digest.can_hash fm.path && is_eq (memcmp 32 (digest.of_path fm.path) sha)

  pub same_digest-can_hash :
      (fm : FileMetadata) (sha : Sha256)
      → same_digest fm sha ≡ true
      → digest.can_hash fm.path ≡ true
  same_digest-can_hash fm sha same = ground arith

  pub same_digest-is_eq :
      (fm : FileMetadata) (sha : Sha256)
      → same_digest fm sha ≡ true
      → is_eq (memcmp 32 (digest.of_path fm.path) sha) ≡ true
  same_digest-is_eq fm sha same = ground arith

  -- The file that a node holds for a digest: its shortcut, or one of its tree.
  unfoldable pub held : LastNode rb → Sha256 → Option FileMetadata
  held node sha = elim node.fm [
    | some s ↦ if same_digest s sha then some (hashed digest s) else none
    | none ↦
        Option.map (λ (n : FileMetadataNode). n.fm)
          (rb.rb_tree_find_node sha256_ops node.children sha)
  ]

  -- The file that the tree holds for a class and a digest.
  unfoldable pub view : VisitedTree rb → Class → Sha256 → Option FileMetadata
  unfolding held
  view tree k sha = elim (look rb tree k) [ none ↦ none | some node ↦ held node sha ]

  -- A shortcut stands alone.
  abbrev pub ShortcutIsAlone : LastNode rb → Type 0
  ShortcutIsAlone node = elim node.fm [
    | none ↦ Unit {0}
    | some s ↦ (rb.rb_tree_count node.children ≡ 0) × IsRead digest s
  ]

  pub record IsVisited (tree : VisitedTree rb) : Type 0 where
    pub alone : (k : Class) (node : LastNode rb) → look rb tree k ≡ some node → ShortcutIsAlone node

  -- What an insertion does to the node of its class.
  pub record IsNodeInsert (node : LastNode rb) (fm : FileMetadata) (result : Option FileMetadata)
      (node' : LastNode rb) : Type 0 where
    pub answer :
        result ≡ (if digest.can_hash fm.path then held node (digest.of_path fm.path) else none)
    pub after :
        (sha : Sha256)
        → held node' sha ≡ elim result [
          | some old ↦ held node sha
          | none ↦ if same_digest fm sha then some (hashed digest fm) else held node sha
        ]
    pub alone : ShortcutIsAlone node'
    pub same_c : node'.c ≡ node.c
