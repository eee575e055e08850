-- ===== src/Freeing/Scanned.antt =====
-- What main frees after a scan by threads.
use dedup.Prelude.{ℕ, ◌^◌, ◌<◌, ◌≡◌, some, List, [], ◌∷◌, ◌++◌, subst, All, length, All-of-Memᴰ}
use dedup.Rb.{RbTree, IsRbTree}
use dedup.Metadata.{Digester}
use dedup.Os.{Os}
use dedup.Entry.{FileEntry, Stdio}
use dedup.Queue.{Stailq, IsStailq}
use dedup.AList.View.{to_list}
use dedup.Duplicates.{Sha256ListNode}
use dedup.Duplicates.Lists.{duplicates_of-node, node-IsAList}
use dedup.Visited.Hashing.{Digests, IsHashing}
use dedup.Visit.Gathering.{IsOf}
use dedup.Workers.{System, Reach}
use dedup.Workers.Linear.{IsSized, IsOpened}
use dedup.Workers.Safety.{Reach-IsRun, Reach-IsOf}
use dedup.Main.Contents.{metadata_set-IsOf}
use dedup.Freeing.{tree, free_duplicate_tree}
use dedup.Freeing.Ends.{blocks_of}
use dedup.Freeing.Listed.{node_blocks, IsFull, free_duplicate_tree_lem}

module _ (rb : RbTree) (os : Os) (stdio : Stdio os.State) (stailq : Stailq) (env : Digester)
    (digest : Digests) (s : os.State) (Q : IsStailq stailq) (L : IsRbTree rb)
    (H : IsHashing env digest) (threads : ℕ) (all : List FileEntry) (few : length all < 2 ^ 57)
    (sized : All (IsSized digest) all) where
  Reach-IsFull :
      {x : System rb os stdio stailq}
      → Reach rb os stdio stailq env s threads all x
      → All IsFull (rb.nodes x.shared.ctx.duplicates)
  Reach-IsFull {x} r =
      let duplicates = x.shared.ctx.duplicates in
      let inv = Reach-IsRun rb os stdio stailq env digest s Q L H threads all few sized r in
      let good = inv.linear.good.duplicates in
      let opened = IsOpened rb os stdio env digest s in
      All-of-Memᴰ IsFull (rb.nodes duplicates) (λ (node : Sha256ListNode) m.
        (let (fms, run, _) = metadata_set-IsOf rb digest opened node.sha256 (to_list node.list) (
            subst (All (IsOf rb digest opened node.sha256))
              (duplicates_of-node rb L duplicates _ good node m)
              (Reach-IsOf rb os stdio stailq env digest s Q L H threads all few sized r
                node.sha256)) in
          (node-IsAList rb L duplicates _ good node m, (fms, run))))

  -- Where the files, and whether they can be hashed, do not change during the scan, and the size of
  -- each is that of its content: in every state that main and the workers reach, with fewer than
  -- 2^57 files, freeing the tree of duplicates dereferences no NULL and ends, and it frees for each
  -- node, in their order, the path and the metadata of each file of its list, the list and the
  -- node, each of them once.
  pub Reach-free_duplicate_tree :
      {x : System rb os stdio stailq}
      → Reach rb os stdio stailq env s threads all x
      → free_duplicate_tree rb x.shared.ctx.duplicates
        ≡ some (blocks_of node_blocks (rb.nodes x.shared.ctx.duplicates) ++ tree ∷ [])
  Reach-free_duplicate_tree {x} r =
      free_duplicate_tree_lem rb L x.shared.ctx.duplicates (Reach-IsFull r)
