-- ===== src/Workers/Safety.antt =====
-- What holds in every state that main and the workers reach, however their steps interleave.
use mathlib.Core.Option.{some-injective}
use dedup.Prelude.{
  false, ◌⊎◌, zero, ℕ, suc, ◌^◌, ◌<◌, ◌≡◌, refl, sym, ◌∙◌, ap, subst, Option, none, some, List, [],
  ◌∷◌, ◌++◌, map, arith, inl, inr, length, get_elem?, set, replicate,
}
use dedup.Rb.{RbTree, IsRbTree}
use dedup.Metadata.{Sha256, FileMetadata, Digester, Pointer}
use dedup.Os.{Os}
use dedup.Entry.{FileEntry, Stdio, metadata_from_entry}
use dedup.Queue.{Stailq, IsStailq, new_file_entry_queue}
use dedup.Visited.Hashing.{Digests, IsHashing}
use dedup.Visit.{VisitContext, new_context, visit_all}
use dedup.Visit.Gathering.{new_context-IsContext}
use dedup.Workers.{
  Worker, starting, exited, Shared, dedup_work, System, append, all_queued, work, init, Reach, here,
  next,
}
use dedup.Workers.Flight.{total, total-replicate, held, owed}
use dedup.Workers.Linear.{IsSized, IsOpened, Known}
use dedup.Workers.Accounts.{queued, Holds}
use dedup.Workers.Run.{IsRun, small}
use dedup.Workers.Rounds.{Steps-worker}
use dedup.Workers.Outcome.{IsLinear-IsOf, IsLinear-IsFound}
use dedup.Prelude.{All}
use dedup.Visit.Gathering.{IsOf}
use dedup.Workers.Accounts.{IsVisitOf}
use dedup.Workers.Run.{read, IsRun-append}
use mathlib.Core.List.Memᴰ
use dedup.Workers.Accounts.{IsDone}
use dedup.Visited.Classes.{Class}
use dedup.Visited.View.{view}
use dedup.Duplicates.Lists.{duplicates_of}
use dedup.Visit.Complete.{IsFound}
use mathlib.Core.List.{Memᴰ, Permᴰ}
use mathlib.Core.List.Permᴰ
use dedup.Workers.Hands.{hand, hands-none}

get_elem?-replicate : (n i : ℕ) (v w : Worker) → get_elem? (replicate n v) i ≡ some w → v ≡ w
get_elem?-replicate zero i v w at = absurd (ground arith)
get_elem?-replicate (suc n) zero v w at = some-injective v w at
get_elem?-replicate (suc n) (suc i) v w at = get_elem?-replicate n i v w at

total_exited :
    (f : Worker → ℕ) (ws : List Worker)
    → f exited ≡ 0
    → ((i : ℕ) (w : Worker) → get_elem? ws i ≡ some w → w ≡ exited)
    → total f ws ≡ 0
total_exited f [] zero_at all_exited = refl
total_exited f (w ∷ ws) zero_at all_exited = omega (
  arith,
  ap f (all_exited 0 w refl),
  zero_at,
  total_exited f ws zero_at (λ i v at. all_exited (suc i) v at),
)

module _ (rb : RbTree) (os : Os) (stdio : Stdio os.State) (stailq : Stailq) (env : Digester)
    (digest : Digests) (s : os.State) (Q : IsStailq stailq) where
  -- All threads have returned from `dedup_work`.
  abbrev pub AllExited : System rb os stdio stailq → Type 0
  AllExited x = (i : ℕ) (w : Worker) → get_elem? x.workers i ≡ some w → w ≡ exited

  -- A sequence of whole visits explains what the threads did: the trees and the count are those that
  -- it gives, and it visits each entry that was taken.
  pub record IsFinished (all : List FileEntry) (x : System rb os stdio stailq) : Type 0 where
    pub log : List (ℕ × Option Pointer)
    pub taken : List FileEntry
    pub seq : VisitContext rb
    pub run : visit_all rb env log (new_context rb) ≡ some seq
    pub seen :
        (k : Class) (sha : Sha256)
        → view rb digest x.shared.ctx.visited k sha ≡ view rb digest seq.visited k sha
    pub lists :
        (sha : Sha256)
        → duplicates_of rb x.shared.ctx.duplicates sha ≡ duplicates_of rb seq.duplicates sha
    pub found : x.shared.ctx.found ≡ seq.found
    pub placed :
        (fe : FileEntry) (f : FileMetadata)
        → Memᴰ fe taken
        → metadata_from_entry os stdio fe s ≡ some f
        → (digest.can_hash f.path ≡ false)
          ⊎ ((address : ℕ) × IsFound rb digest x.shared.ctx
                (record { address = address; target = f }))
    pub visited :
        (fe : FileEntry) → Memᴰ fe taken → IsDone (read rb os stdio stailq env digest s Q) log fe
    pub once : length log ≡ length taken
    pub fifo : map queued all ≡ taken ++ (Q.entries x.shared.queue ++ map queued x.todo)

  module _ (L : IsRbTree rb) (H : IsHashing env digest) (threads : ℕ) (all : List FileEntry)
      (few : length all < 2 ^ 57) (sized : All (IsSized digest) all) where
    init-IsRun : IsRun rb os stdio stailq env digest s Q all (init rb os stdio stailq threads all)
    unfolding new_context new_file_entry_queue visit_all
    init-IsRun = record {
      log = [];
      taken = [];
      linear = record {
        seq = new_context rb;
        run = refl;
        reads = tt;
        opened = tt;
        seq_good = new_context-IsContext rb L digest;
        seen = λ k sha. refl;
        lists = λ sha. refl;
        good = new_context-IsContext rb L digest;
        word = omega arith;
        found = rw (total-replicate owed threads starting refl);
        known = λ i w at.
            subst (Known rb os stdio env digest s (new_context rb).visited)
              (get_elem?-replicate threads i starting w at) tt;
      };
      accounts = record {
        each = λ fe m. absurd (Memᴰ.not-nil m);
        count = omega (arith, total-replicate held threads starting refl);
        entries = [];
        of_entries = tt;
        perm =
            subst (λ es. Permᴰ es [])
              (sym (
                hands-none (replicate threads starting)
                  (λ i w at. ap hand (sym (get_elem?-replicate threads i starting w at)))))
              (Permᴰ.refl []);
      };
      fifo = ap (λ es. es ++ map queued all) (sym Q.entries-init);
    }

    -- However the steps interleave, a sequence of whole visits explains what the threads have done.
    pub Reach-IsRun :
        {x : System rb os stdio stailq}
        → Reach rb os stdio stailq env s threads all x
        → IsRun rb os stdio stailq env digest s Q all x
    Reach-IsRun (here some_thread) = init-IsRun
    Reach-IsRun (next {x} r (append fe rest todo)) =
        IsRun-append rb os stdio stailq env digest s Q L H few (Reach-IsRun r) fe rest todo
    Reach-IsRun (next r (all_queued todo)) =
        let inv = Reach-IsRun r in
        record {
          log = inv.log;
          taken = inv.taken;
          linear = inv.linear;
          accounts = inv.accounts;
          fifo = inv.fifo;
        }
    Reach-IsRun (next {x} r (work i address w w' shared at run)) =
        let (o, run', inv) =
          Steps-worker rb os stdio stailq env digest s Q L H few sized (Reach-IsRun r) i address w
            at in
        subst
          (λ (o : Shared rb os stdio stailq × Worker).
            IsRun rb os stdio stailq env digest s Q all
              (record x { shared = o.0; workers = set x.workers i o.1 }))
          (some-injective o (shared, w') (sym run' ∙ run)) inv

    -- Where the files, and whether they can be hashed, do not change during the scan, and the size
    -- of each is that of its content: in every state that main and the workers reach, with fewer
    -- than 2^57 files, each list of the tree of duplicates holds only files that could be opened,
    -- can be hashed and whose content has the digest of that list, and no NULL.
    pub Reach-IsOf :
        {x : System rb os stdio stailq}
        → Reach rb os stdio stailq env s threads all x
        → (sha : Sha256)
        → All
            (IsOf rb digest (IsOpened rb os stdio env digest s) sha)
            (duplicates_of rb x.shared.ctx.duplicates sha)
    Reach-IsOf r =
        let inv = Reach-IsRun r in
        IsLinear-IsOf rb os stdio env digest s L H inv.linear
          (omega (arith, small rb os stdio stailq env digest s Q L H few inv))

    -- Where the files, and whether they can be hashed, do not change during the scan, and the size
    -- of each is that of its content: in every state that main and the workers reach, with fewer
    -- than 2^57 files and whatever address malloc gives, the next step of each worker is defined.
    pub dedup_work_steps :
        {x : System rb os stdio stailq}
        → Reach rb os stdio stailq env s threads all x
        → (i address : ℕ) (w : Worker) → get_elem? x.workers i ≡ some w
        → (o : Shared rb os stdio stailq × Worker) × (dedup_work rb os stdio stailq env s address
              x.shared w
            ≡ some o)
    dedup_work_steps r i address w at =
        let (o, run, inv) =
          Steps-worker rb os stdio stailq env digest s Q L H few sized (Reach-IsRun r) i address w
            at in
        (o, run)

    placed_by :
        {x : System rb os stdio stailq} (fe : FileEntry) (f : FileMetadata)
        → metadata_from_entry os stdio fe s ≡ some f
        → (inv : IsRun rb os stdio stailq env digest s Q all x) (visit : ℕ × Option Pointer)
        → Memᴰ visit inv.log
        → IsVisitOf (read rb os stdio stailq env digest s Q) fe visit
        → (digest.can_hash f.path ≡ false)
          ⊎ ((address : ℕ) × IsFound rb digest x.shared.ctx
                (record { address = address; target = f }))
    placed_by fe f readable inv (address, none) m of = cc (of, readable)
    placed_by {x} fe f readable inv (address, some fm) m of =
        let same : fm.target ≡ f = some-injective fm.target f (sym of ∙ readable) in
        elim (IsLinear-IsFound rb os stdio env digest s L H inv.linear
          (omega (arith, small rb os stdio stailq env digest s Q L H few inv)) address fm m) [
            | inl cannot ↦
                inl (ap (λ (g : FileMetadata). digest.can_hash g.path) (sym same) ∙ cannot)
            | inr found ↦ inr (
              fm.address,
              subst
                  (λ g.
                    IsFound rb digest x.shared.ctx (record { address = fm.address; target = g }))
                  same found,
            )
          ]

    -- Where the files, and whether they can be hashed, do not change during the scan, and the size
    -- of each is that of its content: for every number of threads and fewer than 2^57 files,
    -- whichever way the steps of main and of the workers interleave: when all threads have
    -- returned, there is a sequence of whole calls of visit_entry, one for each entry that a worker
    -- took, that gives the trees and the count that the threads left. Each file that was taken and
    -- whose metadata could be read cannot be hashed, or is the first of its class and digest, or
    -- stands on its list. The entries taken are the first that main queued, and the others are
    -- still in the queue.
    pub Reach-IsFinished :
        {x : System rb os stdio stailq}
        → Reach rb os stdio stailq env s threads all x
        → AllExited x
        → IsFinished all x
    Reach-IsFinished {x} r exits =
        let inv = Reach-IsRun r in
        let lin = inv.linear in
        let visited : (fe : FileEntry)
            → Memᴰ fe inv.taken
            → IsDone (read rb os stdio stailq env digest s Q) inv.log fe =
          λ fe m. elim (inv.accounts.each fe m) [
            | inl done ↦ done
            | inr (i, w, at, holds) ↦ absurd (subst (λ v. Holds v fe) (exits i w at) holds)
          ] in
        let none_owed : total owed x.workers ≡ 0 = total_exited owed x.workers refl exits in
        let none_held : total held x.workers ≡ 0 = total_exited held x.workers refl exits in
        record {
          log = inv.log;
          taken = inv.taken;
          seq = lin.seq;
          run = lin.run;
          seen = lin.seen;
          lists = lin.lists;
          found = omega (arith, none_owed, lin.found, lin.word);
          visited = visited;
          placed = λ fe f m readable.
              let (visit, there, of) = visited fe m in placed_by fe f readable inv visit there of;
          once = omega (arith, inv.accounts.count, none_held);
          fifo = inv.fifo;
        }
