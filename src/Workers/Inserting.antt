-- ===== src/Workers/Inserting.antt =====
-- A worker's step that inserts a file into the visited tree, against a whole visit of the file.
use dedup.Prelude.{
  ℕ, ◌+◌, ◌*◌, ◌^◌, ◌<◌, ◌≡◌, sym, ◌∙◌, ap, Option, none, some, List, [], ◌∷◌, ◌++◌, arith,
  if◌then◌else◌, ◌&&◌, All, length, get_elem?, set, length-append,
}
use dedup.Rb.{RbTree, IsRbTree}
use dedup.Metadata.{Sha256, FileMetadata, Digester, Pointer}
use dedup.Os.{Os}
use dedup.Entry.{FileEntry, Stdio, metadata_from_entry}
use dedup.Visited.{VisitedTree, Inserted, visited_tree_insert}
use dedup.Visited.Hashing.{Digests, IsHashing, IsRead, hashed}
use dedup.Visited.Classes.{Class, class_of, same_class}
use dedup.Visited.View.{view, same_digest}
use dedup.Visited.Correct.{IsInsert, found-can_hash, visited_tree_insert-view}
use dedup.Visited.Keeps.{view-keeps}
use dedup.Duplicates.Lists.{IsDuplicates-le}
use dedup.Visit.{VisitContext, new_context, visit_entry, visit_all}
use dedup.Visit.Listing.{found_fm}
use dedup.Visit.Correct.{IsContext, IsVisit, first_of, visit_entry-IsVisit}
use dedup.Visit.Gathering.{IsReadEntry, OfEntry, IsContext-le}
use dedup.Workers.{Worker, starting, looping, idle, visiting, listing, counting, exited}
use dedup.Workers.Flight.{owed}
use dedup.Workers.Log.{visit_all-snoc, All-snoc}
use dedup.Workers.Linear.{IsSized, IsOpened, Known, IsLinear, found_still, Known-set}

module _ (rb : RbTree) (os : Os) (stdio : Stdio os.State) (env : Digester) (digest : Digests)
    (s : os.State) (L : IsRbTree rb) (H : IsHashing env digest) {log : List (ℕ × Option Pointer)}
    {ctx : VisitContext rb} {ws : List Worker} (lin : IsLinear rb os stdio env digest s log ctx ws)
    (i : ℕ) (w : Worker) (at : get_elem? ws i ≡ some w) where
  -- What the sequence of visits does with a file that a worker has read.
  module _ (fe : FileEntry) (pointer : Pointer) (address : ℕ) (read : IsRead digest pointer.target)
      (own : (IsOpened rb os stdio env digest s) pointer.target.path)
      (small : 2 * length log + 1 < 2 ^ 59) where
    abbrev pub f : FileMetadata
    f = pointer.target

    pub visits :
        (after : VisitContext rb) × (visit_entry rb env address (some pointer) lin.seq ≡ some after)
        × IsVisit rb digest address pointer lin.seq after
        × IsContext rb digest (2 * length log + 2) after
    visits =
        visit_entry-IsVisit rb L H address pointer read lin.seq (2 * length log) lin.seq_good small

    abbrev inserted : Inserted (VisitedTree rb)
    inserted = visited_tree_insert rb env ctx.visited f

    abbrev ctx' : VisitContext rb
    ctx' = record ctx { visited = inserted.tree }

    insertion : IsInsert rb digest ctx.visited f inserted
    insertion = visited_tree_insert-view rb L H ctx.visited lin.good.visited f read

    keeps :
        (v : Worker)
        → Known rb os stdio env digest s ctx.visited v
        → Known rb os stdio env digest s inserted.tree v
    keeps (listing fe' fm old) (g, readable, is, at_old, can, sized) = (
      g,
      readable,
      is,
      view-keeps rb L digest ctx.visited inserted.tree f
          (λ k sha. rw (sym insertion.answer) (insertion.after k sha)) (class_of g)
          (digest.of_path g.path) old at_old,
      can,
      sized,
    )
    keeps starting known = tt
    keeps looping known = tt
    keeps idle known = tt
    keeps (visiting e) known = known
    keeps (counting g old) known = tt
    keeps exited known = tt

    known' :
        (j : ℕ) (v : Worker)
        → get_elem? ws j ≡ some v
        → Known rb os stdio env digest s inserted.tree v
    known' j v there = keeps v (lin.known j v there)

    pub longer : 2 * length (log ++ (address, some pointer) ∷ []) ≡ 2 * length log + 2
    longer = omega (arith, length-append {0} log ((address, some pointer) ∷ []))

    pub reads' : All (IsReadEntry rb digest) (log ++ (address, some pointer) ∷ [])
    reads' = All-snoc (IsReadEntry rb digest) log (address, some pointer) lin.reads read

    pub opened' :
        All (OfEntry (IsOpened rb os stdio env digest s)) (log ++ (address, some pointer) ∷ [])
    opened' =
        All-snoc (OfEntry (IsOpened rb os stdio env digest s)) log (address, some pointer)
          lin.opened own

    pub run' :
        visit_all rb env (log ++ (address, some pointer) ∷ []) (new_context rb) ≡ some visits.0
    run' =
        visit_all-snoc rb env log address (some pointer) (new_context rb) lin.seq lin.run ∙ visits.1

    -- The file is the first of its class and digest: its visit is done.
    pub IsLinear-first :
        inserted.result ≡ none
        → owed w ≡ 0
        → IsLinear rb os stdio env digest s
            (log ++ (address, some pointer) ∷ [])
            ctx'
            (set ws i looping)
    IsLinear-first first none_owed =
        let (after, run, visit, good) = visits in
        let unseen : first_of rb digest lin.seq f ≡ none =
          ap (λ v. if digest.can_hash f.path then v else none)
            (sym (lin.seen (class_of f) (digest.of_path f.path)))
          ∙ sym insertion.answer
          ∙ first in
        record {
          seq = after;
          run = run';
          reads = reads';
          opened = opened';
          seq_good = IsContext-le rb digest _ _ after (omega (arith, longer)) good;
          seen = λ k sha.
              rw first at (insertion.after k sha)
              ∙ ap
                  (λ v.
                    if same_class (class_of f) k && same_digest rb digest f sha
                    then some (hashed digest f)
                    else v)
                  (lin.seen k sha)
              ∙ sym (rw unseen at (visit.seen k sha));
          lists = λ sha. lin.lists sha ∙ sym (rw unseen at (visit.listed sha));
          good = record {
            visited = insertion.valid;
            duplicates =
                IsDuplicates-le rb _ _ ctx.duplicates (omega (arith, longer)) lin.good.duplicates;
          };
          word = lin.word;
          found =
              found_still rb os stdio env digest s L H lin i w at looping (sym none_owed)
              ∙ sym (rw unseen at (visit.counted));
          known = Known-set rb os stdio env digest s L H lin i w at inserted.tree looping known' tt;
        }

    -- An older file is there: the visit goes on.
    pub IsLinear-again :
        (old : FileMetadata) (a : ℕ)
        → inserted.result ≡ some old
        → metadata_from_entry os stdio fe s ≡ some f
        → IsSized digest fe
        → owed w ≡ 0
        → IsLinear rb os stdio env digest s log ctx'
            (set ws i (listing fe (record { address = a; target = inserted.fm }) old))
    IsLinear-again old a again readable sized none_owed =
        let can = found-can_hash rb digest ctx.visited f inserted insertion old again in
        let is_hashed : inserted.fm ≡ hashed digest f =
          found_fm rb H ctx.visited f old read again in
        let w' : Worker = listing fe (record { address = a; target = inserted.fm }) old in
        let same : (k : Class) (sha : Sha256)
            → view rb digest inserted.tree k sha ≡ view rb digest ctx.visited k sha =
          λ k sha. rw again at (insertion.after k sha) in
        let at_old : view rb digest inserted.tree (class_of f) (digest.of_path f.path) ≡ some old =
          same (class_of f) (digest.of_path f.path) ∙ rw can at (sym insertion.answer) ∙ again in
        record {
          seq = lin.seq;
          run = lin.run;
          reads = lin.reads;
          opened = lin.opened;
          seq_good = lin.seq_good;
          seen = λ k sha. same k sha ∙ lin.seen k sha;
          lists = lin.lists;
          good = record { visited = insertion.valid; duplicates = lin.good.duplicates };
          word = lin.word;
          found = found_still rb os stdio env digest s L H lin i w at w' (sym none_owed);
          known =
              Known-set rb os stdio env digest s L H lin i w at inserted.tree w' known'
                (f, readable, is_hashed, at_old, can, sized);
        }
