-- ===== src/Main/Contents.antt =====
-- From the scan to the end of main: no file loses its content.
use mathlib.Core.List.{Memᴰ}
use dedup.Prelude.{
  ℕ, suc, ◌^◌, ◌<◌, ◌≡◌, sym, ap, none, Option-cases, inl, inr, length-take, refl, ◌∙◌, subst,
  Option, some, List, [], ◌∷◌, true, arith, All, length, All-of-Memᴰ,
}
use dedup.Rb.{RbTree, IsRbTree}
use dedup.Rb.Order.{is_eq, memcmp, memcmp_same, memcmp_self}
use dedup.Metadata.{CString, Sha256, Digester, Pointer}
use dedup.Os.{Os, IsPosix, File}
use dedup.Entry.{FileEntry, Stdio}
use dedup.Queue.{Stailq, IsStailq}
use dedup.AList.View.{to_list}
use dedup.Duplicates.{DuplicateTree, Sha256ListNode}
use dedup.Duplicates.Lists.{duplicates_of, IsDuplicates, duplicates_of-node, node-IsAList}
use dedup.Visited.Hashing.{Digests, IsHashing}
use dedup.Visited.View.{same_digest, same_digest-is_eq}
use dedup.Visit.Gathering.{IsOf}
use dedup.Replacing.{Context, dedup_clone, deduplicate}
use dedup.Replacing.Keeps.{
  SameContent, Holds, SameContent-refl, SameContent-trans, All-Holds, deduplicate-SameContent,
}
use dedup.Replacing.Rounds.{deduplicate-mode}
use dedup.Replacing.Dry.{deduplicate_dry, deduplicate-dry_run}
use dedup.Freeing.{Block, free_duplicate_tree}
use dedup.Freeing.Listed.{IsFull, free_duplicate_tree_lem}
use dedup.Workers.{System, Reach}
use dedup.Workers.Linear.{IsSized, IsOpened}
use dedup.Workers.Safety.{Reach-IsRun, Reach-IsOf}
use dedup.Replacing.Found.{choose_origin-not_null}
use dedup.AList.{size_mod}
use mathlib.Core.Option.{some-injective}
use dedup.Main.{metadata_set, deduplicate_all}

pub length-metadata_set :
    (slots : List (Option Pointer)) (fms : List Pointer)
    → metadata_set slots ≡ some fms
    → length fms ≡ length slots
unfolding metadata_set
length-metadata_set [] fms run = sym (ap length (some-injective _ fms run))
length-metadata_set (none ∷ slots) fms run = cc
length-metadata_set (some fm ∷ slots) fms run = elim (Option-cases (metadata_set slots)) [
  | inl null ↦ cc (rw null at run)
  | inr (rest, there) ↦
      sym (ap length (some-injective _ fms (rw there at run)))
      ∙ ap suc (length-metadata_set slots rest there)
]

-- The files of a list that has no NULL.
pub metadata_set-IsOf :
    (rb : RbTree) (digest : Digests) (Q : CString → Type 0) (sha : Sha256)
    (slots : List (Option Pointer))
    → All (IsOf rb digest Q sha) slots
    → (fms : List Pointer) × (metadata_set slots ≡ some fms)
      × All (λ (fm : Pointer). (same_digest rb digest fm.target sha ≡ true) × Q fm.target.path) fms
unfolding metadata_set
metadata_set-IsOf rb digest Q sha [] all = ([], refl, tt)
metadata_set-IsOf rb digest Q sha (slot ∷ slots) ((fm, is, same, q), all) =
    let (fms, run, rest) = metadata_set-IsOf rb digest Q sha slots all in
    (fm ∷ fms, rw (is, metadata_set, run), ((same, q), rest))

module _ (os : Os) (P : IsPosix os) (rb : RbTree) (L : IsRbTree rb) {X : Type 0} (content : ℕ → X)
    (s : os.State) where
  -- The files of a list are there and have one content, and a size_t counts them.
  abbrev OneContent : Sha256ListNode → Type 0
  OneContent node =
      (fms : List Pointer) × (metadata_set (to_list node.list) ≡ some fms)
      × ((c : X) × All (Holds os content s c) fms)
      × (length fms < size_mod)

  deduplicate_all-SameContent :
      (nodes : List Sha256ListNode) (ctx : Context) (t : os.State)
      → ctx.replace_mode ≡ dedup_clone
      → All OneContent nodes
      → SameContent os content s t
      → (out : Context × os.State) × (deduplicate_all os rb nodes ctx t ≡ some out)
        × SameContent os content s out.1
  unfolding deduplicate_all
  deduplicate_all-SameContent [] ctx t mode all kept = ((ctx, t), refl, kept)
  deduplicate_all-SameContent (node ∷ nodes) ctx t mode ((fms, run, (c, holds), small), all) kept =
      let after = deduplicate os rb fms ctx t in
      let kept' : SameContent os content t after.1 =
        deduplicate-SameContent os content P rb L fms ctx c t mode
          (All-Holds os content s t c fms kept holds) in
      let (out, rest, same) =
        deduplicate_all-SameContent nodes after.0 after.1 (deduplicate-mode os rb fms ctx t ∙ mode)
          all (SameContent-trans os content s t after.1 kept kept') in
      (out, rw (deduplicate_all, run, choose_origin-not_null rb L fms small) rest, same)

-- In a dry run the loop leaves the system in the state in which it was.
deduplicate_all_dry :
    (os : Os) (P : IsPosix os) (rb : RbTree) (L : IsRbTree rb) {X : Type 0} (content : ℕ → X)
    (s : os.State) (nodes : List Sha256ListNode) (ctx : Context)
    → ctx.dry_run ≡ true
    → All (OneContent os P rb L content s) nodes
    → (out : Context × os.State) × (deduplicate_all os rb nodes ctx s ≡ some out) × (out.1 ≡ s)
unfolding deduplicate_all
deduplicate_all_dry os P rb L content s [] ctx dry all = ((ctx, s), refl, refl)
deduplicate_all_dry os P rb L content s (node ∷ nodes) ctx dry ((fms, run, _, small), all) =
    let same : (deduplicate os rb fms ctx s).1 ≡ s = deduplicate_dry os rb fms ctx s dry in
    let (out, rest, still) =
      deduplicate_all_dry os P rb L content s nodes (deduplicate os rb fms ctx s).0
        (deduplicate-dry_run os rb fms ctx s dry) all in
    (out, rw (deduplicate_all, run, choose_origin-not_null rb L fms small, same) rest, still)

module _ (os : Os) (stdio : Stdio os.State) (rb : RbTree) (L : IsRbTree rb) {X : Type 0}
    (content : ℕ → X) (digest : Digests) (s : os.State)
    -- fopen(3) opens files that are there.
    (there : (p : CString) (stream : stdio.Stream)
      → stdio.fopen p s ≡ some stream
      → (f : File) × (os.file s p ≡ some f))
    -- No two contents have one digest.
    (collision_free : (p q : CString) (f g : File)
      → os.file s p ≡ some f
      → os.file s q ≡ some g
      → is_eq (memcmp 32 (digest.of_path p) (digest.of_path q)) ≡ true
      → content f.blocks ≡ content g.blocks) where
  -- The file could be opened, and its content has the digest.
  abbrev Listed : Sha256 → Pointer → Type 0
  Listed sha fm =
      (same_digest rb digest fm.target sha ≡ true)
      × ((stream : stdio.Stream) × (stdio.fopen fm.target.path s ≡ some stream))

  same_digests :
      (p q : CString) (sha : Sha256)
      → is_eq (memcmp 32 (digest.of_path p) sha) ≡ true
      → is_eq (memcmp 32 (digest.of_path q) sha) ≡ true
      → is_eq (memcmp 32 (digest.of_path p) (digest.of_path q)) ≡ true
  same_digests p q sha at_p at_q = ground (
    arith,
    memcmp_same 32 (digest.of_path p) sha (digest.of_path q),
    memcmp_same 32 (digest.of_path q) sha (digest.of_path q),
    memcmp_self 32 (digest.of_path q),
  )

  Listed-Holds :
      (sha : Sha256) (first : Pointer) (f : File)
      → os.file s first.target.path ≡ some f
      → same_digest rb digest first.target sha ≡ true
      → (fms : List Pointer) → All (Listed sha) fms
      → All (Holds os content s (content f.blocks)) fms
  Listed-Holds sha first f at_first same [] all = tt
  Listed-Holds sha first f at_first same (fm ∷ fms) ((same', (stream, opened)), all) =
      let (g, at_fm) = there fm.target.path stream opened in
      (
        (
          g,
          at_fm,
          collision_free fm.target.path first.target.path g f at_fm at_first (
              same_digests fm.target.path first.target.path sha
                (same_digest-is_eq rb digest fm.target sha same')
                (same_digest-is_eq rb digest first.target sha same)),
        ),
        Listed-Holds sha first f at_first same fms all,
      )

  -- The files of one digest have one content.
  one_content :
      (sha : Sha256) (fms : List Pointer)
      → All (Listed sha) fms
      → (c : X) × All (Holds os content s c) fms
  one_content sha [] all = (content 0, tt)
  one_content sha (fm ∷ fms) (first, all) =
      let (f, at_fm) = there fm.target.path first.1.0 first.1.1 in
      (content f.blocks, Listed-Holds sha fm f at_fm first.0 (fm ∷ fms) (first, all))

  -- The tree of duplicates as a scan leaves it: each list holds only files of its digest that could
  -- be opened, and there is one list for a digest.
  abbrev pub IsSafe : Digester → DuplicateTree rb → Type 0
  IsSafe env tree =
      (bound : ℕ) × IsDuplicates rb bound tree
      × ((sha : Sha256)
          → All (IsOf rb digest (IsOpened rb os stdio env digest s) sha)
              (duplicates_of rb tree sha))

  module _ (P : IsPosix os) (env : Digester) where
    node-OneContent :
        (tree : DuplicateTree rb)
        → IsSafe env tree
        → (node : Sha256ListNode) → Memᴰ node (rb.nodes tree)
        → OneContent os P rb L content s node
    node-OneContent tree (bound, good, each) node m =
        let listed =
          subst (All (IsOf rb digest (IsOpened rb os stdio env digest s) node.sha256))
            (duplicates_of-node rb L tree bound good node m) (each node.sha256) in
        let (fms, run, holds) =
          metadata_set-IsOf rb digest (IsOpened rb os stdio env digest s) node.sha256
            (to_list node.list) listed in
        let valid = node-IsAList rb L tree bound good node m in
        let size =
          length-take node.list.size node.list.elements
            (omega (arith, valid.fits, valid.allocated)) in
        (
          fms,
          run,
          one_content node.sha256 fms holds,
          omega (
            arith,
            valid.fits,
            valid.countable,
            size,
            length-metadata_set (to_list node.list) fms run,
          ),
        )

    -- Freeing such a tree meets no NULL and ends.
    pub IsSafe-free :
        (duplicates : DuplicateTree rb)
        → IsSafe env duplicates
        → (freed : List Block) × (free_duplicate_tree rb duplicates ≡ some freed)
    IsSafe-free duplicates (bound, good, each) = (
      _,
      free_duplicate_tree_lem rb L duplicates (
          All-of-Memᴰ IsFull (rb.nodes duplicates) (λ (node : Sha256ListNode) m.
            (let (fms, run, _, _) = node-OneContent duplicates (bound, good, each) node m in
              (node-IsAList rb L duplicates bound good node m, (fms, run))))),
    )

    pub IsSafe-SameContent :
        (tree : DuplicateTree rb) (ctx : Context)
        → IsSafe env tree
        → ctx.replace_mode ≡ dedup_clone
        → (out : Context × os.State) × (deduplicate_all os rb (rb.nodes tree) ctx s ≡ some out)
          × SameContent os content s out.1
    IsSafe-SameContent tree ctx safe mode =
        deduplicate_all-SameContent os P rb L content s (rb.nodes tree) ctx s mode
          (All-of-Memᴰ (OneContent os P rb L content s) (rb.nodes tree) (node-OneContent tree safe))
          (SameContent-refl os content s)

    pub IsSafe-dry :
        (tree : DuplicateTree rb) (ctx : Context)
        → IsSafe env tree
        → ctx.dry_run ≡ true
        → (out : Context × os.State) × (deduplicate_all os rb (rb.nodes tree) ctx s ≡ some out)
          × (out.1 ≡ s)
    IsSafe-dry tree ctx safe dry =
        deduplicate_all_dry os P rb L content s (rb.nodes tree) ctx dry
          (All-of-Memᴰ (OneContent os P rb L content s) (rb.nodes tree) (node-OneContent tree safe))

  module _ (P : IsPosix os) (stailq : Stailq) (Q : IsStailq stailq) (env : Digester)
      (H : IsHashing env digest) (threads : ℕ) (all : List FileEntry) (few : length all < 2 ^ 57)
      (sized : All (IsSized digest) all) where
    pub Reach-IsSafe :
        {x : System rb os stdio stailq}
        → Reach rb os stdio stailq env s threads all x
        → IsSafe env x.shared.ctx.duplicates
    Reach-IsSafe r =
        let inv = Reach-IsRun rb os stdio stailq env digest s Q L H threads all few sized r in
        (
          _,
          inv.linear.good.duplicates,
          λ sha. Reach-IsOf rb os stdio stailq env digest s Q L H threads all few sized r sha,
        )

    -- Where the files, and whether they can be hashed, do not change during the scan, and the size
    -- of each is that of its content: in clone mode, if fopen opens only files that are there, no
    -- two contents of the files there have one digest, and there are fewer than 2^57 files, then
    -- whatever the interleaving of the threads that scanned them, the loop over the tree of
    -- duplicates meets no NULL, for an item of a list or for an origin, and every file that there
    -- was, scanned or not, is there at its end, with its attributes and its content.
    pub Reach-SameContent :
        {x : System rb os stdio stailq}
        → Reach rb os stdio stailq env s threads all x
        → (ctx : Context) → ctx.replace_mode ≡ dedup_clone
        → (out : Context × os.State) × (deduplicate_all os rb
              (rb.nodes x.shared.ctx.duplicates)
              ctx
              s
            ≡ some out)
          × SameContent os content s out.1
    Reach-SameContent {x} r ctx mode =
        IsSafe-SameContent P env x.shared.ctx.duplicates ctx (Reach-IsSafe r) mode
