-- ===== src/Workers/Linear.antt =====
-- A state of the workers against a sequence of whole visits: what the threads have done to the trees
-- is what `visit_entry` does, one file after another, in some order.
use dedup.Prelude.{
  true, ℕ, ◌+◌, ◌*◌, ◌%◌, ◌<◌, ◌≤◌, ◌≡◌, sym, ◌∙◌, ap, subst, Option, none, some, List, [], ◌∷◌,
  ◌++◌, arith, inl, inr, All, length, get_elem?, set, length-append,
}
use dedup.AList.{size_mod}
use dedup.Rb.{RbTree, IsRbTree}
use dedup.Metadata.{CString, Sha256, FileMetadata, Digester, Pointer}
use dedup.Os.{Os}
use dedup.Entry.{FileEntry, Stdio, metadata_from_entry}
use dedup.Visited.{VisitedTree}
use dedup.Visited.Hashing.{Digests, IsHashing, hashed}
use dedup.Visited.Classes.{Class, class_of}
use dedup.Visited.View.{view}
use dedup.Duplicates.Lists.{duplicates_of}
use dedup.Visit.{VisitContext, new_context, visit_entry, visit_all}
use dedup.Visit.Correct.{IsContext}
use dedup.Visit.Gathering.{IsReadEntry, OfEntry, IsContext-le}
use dedup.Workers.{visiting, Worker, looping, listing}
use dedup.Workers.Flight.{total, total-set, get_elem?-set, owed}
use dedup.Workers.Log.{visit_all-snoc, All-snoc}

-- The size of the entry is that of the content.
abbrev pub IsSized : Digests → FileEntry → Type 0
IsSized digest fe = fe.size ≡ length (digest.content fe.path)

module _ (rb : RbTree) (os : Os) (stdio : Stdio os.State) (env : Digester) (digest : Digests)
    (s : os.State) where
  -- The file at the path could be opened.
  abbrev pub IsOpened : CString → Type 0
  IsOpened p = (f : stdio.Stream) × (stdio.fopen p s ≡ some f)

  -- What is known of the file that a worker has in hand, and is about to put on a list.
  abbrev pub Known : VisitedTree rb → Worker → Type 0
  Known tree (visiting fe) = IsSized digest fe
  Known tree (listing fe fm old) =
      (f : FileMetadata) × (metadata_from_entry os stdio fe s ≡ some f)
      × (fm.target ≡ hashed digest f)
      × (view rb digest tree (class_of f) (digest.of_path f.path) ≡ some old)
      × (digest.can_hash f.path ≡ true)
      × IsSized digest fe
  Known tree w = Unit {0}

  -- The trees of the threads hold what those of a run of whole visits hold; what is still to be done
  -- for a file in hand is known.
  pub record IsLinear (log : List (ℕ × Option Pointer)) (ctx : VisitContext rb) (ws : List Worker)
      : Type 0 where
    pub seq : VisitContext rb
    pub run : visit_all rb env log (new_context rb) ≡ some seq
    pub reads : All (IsReadEntry rb digest) log
    pub opened : All (OfEntry IsOpened) log
    pub seq_good : IsContext rb digest (2 * length log) seq
    pub seen :
        (k : Class) (sha : Sha256)
        → view rb digest ctx.visited k sha ≡ view rb digest seq.visited k sha
    pub lists :
        (sha : Sha256) → duplicates_of rb ctx.duplicates sha ≡ duplicates_of rb seq.duplicates sha
    pub good : IsContext rb digest (2 * length log) ctx
    pub word : ctx.found < size_mod
    pub found : (ctx.found + total owed ws) % size_mod ≡ seq.found
    pub known : (i : ℕ) (w : Worker) → get_elem? ws i ≡ some w → Known ctx.visited w

  module _ (L : IsRbTree rb) (H : IsHashing env digest) {log : List (ℕ × Option Pointer)}
      {ctx : VisitContext rb} {ws : List Worker} (lin : IsLinear log ctx ws) (i : ℕ) (w : Worker)
      (at : get_elem? ws i ≡ some w) where
    pub found_still :
        (w' : Worker)
        → owed w' ≡ owed w
        → (ctx.found + total owed (set ws i w')) % size_mod ≡ lin.seq.found
    found_still w' same =
        ap (λ n. (ctx.found + n) % size_mod) (omega (arith, total-set owed ws i w w' at))
        ∙ lin.found

    pub Known-set :
        (tree : VisitedTree rb) (w' : Worker)
        → ((j : ℕ) (v : Worker) → get_elem? ws j ≡ some v → Known tree v)
        → Known tree w'
        → (j : ℕ) (v : Worker) → get_elem? (set ws i w') j ≡ some v
        → Known tree v
    Known-set tree w' all one j v there = elim (get_elem?-set ws i j v w' there) [
      | inl here ↦ subst (Known tree) here one
      | inr before ↦ all j v before
    ]

    -- A step that touches neither tree.
    pub IsLinear-still :
        (w' : Worker) → owed w' ≡ owed w → Known ctx.visited w' → IsLinear log ctx (set ws i w')
    IsLinear-still w' same one = record {
      seq = lin.seq;
      run = lin.run;
      reads = lin.reads;
      opened = lin.opened;
      seq_good = lin.seq_good;
      seen = lin.seen;
      lists = lin.lists;
      good = lin.good;
      word = lin.word;
      found = found_still w' same;
      known = Known-set ctx.visited w' lin.known one;
    }

    -- A file whose metadata cannot be read is a visit that does nothing.
    pub IsLinear-unreadable : owed w ≡ 0 → IsLinear (log ++ (0, none) ∷ []) ctx (set ws i looping)
    unfolding visit_entry
    IsLinear-unreadable none_owed =
        let more : 2 * length log ≤ 2 * length (log ++ (0, none) ∷ []) =
          omega (arith, length-append {0} log ((0, none) ∷ [])) in
        record {
          seq = lin.seq;
          run = visit_all-snoc rb env log 0 none (new_context rb) lin.seq lin.run;
          reads = All-snoc (IsReadEntry rb digest) log (0, none) lin.reads tt;
          opened = All-snoc (OfEntry IsOpened) log (0, none) lin.opened tt;
          seq_good = IsContext-le rb digest _ _ lin.seq more lin.seq_good;
          seen = lin.seen;
          lists = lin.lists;
          good = IsContext-le rb digest _ _ ctx more lin.good;
          word = lin.word;
          found = found_still looping (sym none_owed);
          known = Known-set ctx.visited looping lin.known tt;
        }
