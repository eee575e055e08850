-- ===== src/Main/Serial.antt =====
-- dedup.c: main without threads, which calls `dedup_work` itself after each file that it queues.
use mathlib.Core.Option.{some-injective}
use dedup.Prelude.{
  ℕ, zero, suc, ◌*◌, ◌^◌, ◌<◌, ◌≡◌, sym, ◌∙◌, ap, subst, Bool, true, false, Option, none, some,
  List, [], ◌∷◌, ◌++◌, map, All, arith, length, Option-cases, inl, inr,
}
use dedup.Rb.{RbTree, IsRbTree}
use dedup.Metadata.{Digester, Pointer}
use dedup.Os.{Os}
use dedup.Entry.{FileEntry, Stdio, metadata_from_entry}
use dedup.Entry.Ends.{metadata_from_entry-opens}
use dedup.Queue.{Stailq, IsStailq, new_file_entry_queue, file_entry_queue_append, file_entry_next}
use dedup.Queue.Fifo.{file_entry_next-entries}
use dedup.Visited.Hashing.{Digests, IsHashing}
use dedup.Visit.{VisitContext, new_context, visit_entry, visit_all}
use dedup.Visit.Correct.{IsContext}
use dedup.Visit.Gathering.{
  IsReadEntry, OfEntry, IsGathered, visit_all-IsGathered, new_context-IsContext,
  new_context-IsGathered,
}
use dedup.Visit.Complete.{IsFoundEntry, visit_all-IsFound}
use dedup.Workers.Accounts.{queued}
use dedup.Workers.Linear.{IsOpened, IsSized}
use dedup.Workers.Run.{IsRead-entry, length-map}

-- An entry that main queues, and where malloc puts its metadata and a copy of an older file's.
pub record Placed : Type 0 where
  pub entry : FileEntry
  pub own : ℕ
  pub copy : ℕ

module _ (rb : RbTree) (os : Os) (stdio : Stdio os.State) (stailq : Stailq) (s : os.State) where
  -- What `visit_entry` is called with.
  abbrev pub visit_of : Placed → ℕ × Option Pointer
  visit_of placed = elim (metadata_from_entry os stdio (queued placed.entry) s) [
    | none ↦ (placed.copy, none)
    | some f ↦ (placed.copy, some (record { address = placed.own; target = f }))
  ]

  module _ (env : Digester) where
    -- `dedup_work` where `thread_count` is 0, with as many rounds of its loop. `done` does not change
    -- meanwhile, since it is main that calls.
    unfoldable pub dedup_work_serial :
        ℕ → Bool → Placed → stailq.Head → VisitContext rb → Option (stailq.Head × VisitContext rb)
    dedup_work_serial zero done placed queue ctx = none
    dedup_work_serial (suc rounds) done placed queue ctx = elim done [
      | true ↦ some (queue, ctx)
      | false ↦
          let (fe, queue') = file_entry_next stailq queue in
          elim fe [
            | none ↦ dedup_work_serial rounds false placed queue' ctx
            | some e ↦
                let (address, fm) = visit_of (record placed { entry = e }) in
                elim (visit_entry rb env address fm ctx) [
                  | none ↦ none
                  | some ctx' ↦ some (queue', ctx')
                ]
          ]
    ]

    -- The loop of main over the entries that pass its tests.
    unfoldable pub scan_serial :
        ℕ → List Placed → stailq.Head → VisitContext rb → Option (stailq.Head × VisitContext rb)
    unfolding dedup_work_serial
    scan_serial rounds [] queue ctx = some (queue, ctx)
    scan_serial rounds (placed ∷ rest) queue ctx =
        let fe : FileEntry = placed.entry in
        let queue' =
          file_entry_queue_append stailq queue fe.path fe.device fe.inode fe.nlink fe.flags fe.size
            fe.level in
        elim (dedup_work_serial rounds false placed queue' ctx) [
          | none ↦ none
          | some (queue'', ctx') ↦ scan_serial rounds rest queue'' ctx'
        ]

    module _ (Q : IsStailq stailq) (rounds : ℕ) where
      -- A file that was just queued is taken and visited in the first round.
      dedup_work_serial_lem :
          (placed : Placed) (queue : stailq.Head) (ctx after : VisitContext rb)
          → Q.entries queue ≡ queued placed.entry ∷ []
          → visit_entry rb env (visit_of placed).0 (visit_of placed).1 ctx ≡ some after
          → (queue' : stailq.Head) × (Q.entries queue' ≡ [])
            × (dedup_work_serial (suc rounds) false placed queue ctx ≡ some (queue', after))
      unfolding dedup_work_serial
      dedup_work_serial_lem placed queue ctx after one run =
          elim (file_entry_next-entries stailq Q queue) [
            | inl (empty, next) ↦ absurd (ground (arith, empty, one))
            | inr (e, queue', next, entries) ↦
                let all : e ∷ Q.entries queue' ≡ queued placed.entry ∷ [] = sym entries ∙ one in
                let same : e ≡ queued placed.entry = cc all in
                let visited =
                  subst
                    (λ fe.
                      visit_entry rb env (visit_of (record placed { entry = fe })).0
                        (visit_of (record placed { entry = fe })).1 ctx
                      ≡ some after)
                    (sym same) run in
                (queue', cc all, rw (dedup_work_serial, next, visited, next))
          ]

      -- What `visit_all` does with the files, one call of `dedup_work` after another does.
      scan_serial-visit_all :
          (files : List Placed) (queue : stailq.Head) (ctx after : VisitContext rb)
          → Q.entries queue ≡ []
          → visit_all rb env (map visit_of files) ctx ≡ some after
          → (queue' : stailq.Head) × (Q.entries queue' ≡ [])
            × (scan_serial (suc rounds) files queue ctx ≡ some (queue', after))
      unfolding scan_serial visit_all file_entry_queue_append
      scan_serial-visit_all [] queue ctx after empty run =
          (queue, empty, ap (λ c. some (queue, c)) (some-injective ctx after run))
      scan_serial-visit_all (placed ∷ files) queue ctx after empty run =
          let queue1 = stailq.stailq_insert_tail queue (queued placed.entry) in
          let one : Q.entries queue1 ≡ queued placed.entry ∷ [] =
            Q.entries-insert queue (queued placed.entry)
            ∙ ap (λ es. es ++ queued placed.entry ∷ []) empty in
          elim (Option-cases (visit_entry rb env (visit_of placed).0 (visit_of placed).1 ctx)) [
            | inl stuck ↦ cc (rw (visit_all, stuck) at run)
            | inr (next, step) ↦
                let (queue2, empty2, works) =
                  dedup_work_serial_lem placed queue1 ctx next one step in
                let (queue3, empty3, rest) =
                  scan_serial-visit_all files queue2 next after empty2
                    (rw (visit_all, step) at run) in
                (queue3, empty3, rw (scan_serial, works) rest)
          ]

  module _ (L : IsRbTree rb) (env : Digester) (digest : Digests) (H : IsHashing env digest)
      (Q : IsStailq stailq) where
    pub visits-IsReadEntry :
        (files : List Placed)
        → All (IsSized digest) (map (λ (p : Placed). p.entry) files)
        → All (IsReadEntry rb digest) (map visit_of files)
    visits-IsReadEntry [] sized = tt
    visits-IsReadEntry (placed ∷ files) (one, sized) =
        elim (Option-cases (metadata_from_entry os stdio (queued placed.entry) s)) [
          | inl unread ↦ rw (unread, IsReadEntry) (tt, visits-IsReadEntry files sized)
          | inr (f, readable) ↦
              rw (readable, IsReadEntry)
                (
                  IsRead-entry os stdio digest s (queued placed.entry) f readable one,
                  visits-IsReadEntry files sized,
                )
        ]

    visits-IsOpened :
        (files : List Placed)
        → All (OfEntry (IsOpened rb os stdio env digest s)) (map visit_of files)
    visits-IsOpened [] = tt
    visits-IsOpened (placed ∷ files) =
        elim (Option-cases (metadata_from_entry os stdio (queued placed.entry) s)) [
          | inl unread ↦ rw (unread, OfEntry) (tt, visits-IsOpened files)
          | inr (f, readable) ↦
              rw (readable, OfEntry)
                (
                  metadata_from_entry-opens os stdio (queued placed.entry) s f readable,
                  visits-IsOpened files,
                )
        ]

    -- What main comes to without threads: the queue is empty, the trees and the count are those of
    -- the visits of all files in their order, and each file that could be read is found.
    pub record IsScanned (files : List Placed) (out : stailq.Head × VisitContext rb) : Type 0 where
      pub emptied : Q.entries out.0 ≡ []
      pub run : visit_all rb env (map visit_of files) (new_context rb) ≡ some out.1
      pub found : All (IsFoundEntry rb digest out.1) (map visit_of files)
      pub context : IsContext rb digest (2 * length files) out.1
      pub gathered : IsGathered rb digest (IsOpened rb os stdio env digest s) out.1

    -- Where the files, and whether they can be hashed, do not change during the scan, and the size
    -- of each is that of its content: without threads, and with fewer than 2^57 files, the scan
    -- ends if each call of dedup_work may make one round: the queue is empty, the trees and the
    -- count are those of the visits of all files in their order, each file whose metadata could be
    -- read cannot be hashed, or is the first of its class and digest, or stands on its list, and
    -- each list holds only files of its digest that could be opened and can be hashed.
    pub scan_serial-IsScanned :
        (rounds : ℕ) (files : List Placed)
        → length files < 2 ^ 57
        → All (IsSized digest) (map (λ (p : Placed). p.entry) files)
        → (out : stailq.Head × VisitContext rb) × (scan_serial env
              (suc rounds)
              files
              (new_file_entry_queue stailq)
              (new_context rb)
            ≡ some out)
          × IsScanned files out
    unfolding new_file_entry_queue
    scan_serial-IsScanned rounds files few sized =
        let visits = map visit_of files in
        let size : length visits ≡ length files = length-map visit_of files in
        let (after, run, good, gathered) =
          visit_all-IsGathered rb L H (IsOpened rb os stdio env digest s) visits (new_context rb) 0
            (visits-IsReadEntry files sized) (visits-IsOpened files)
            (new_context-IsContext rb L digest) (new_context-IsGathered rb L digest _)
            (omega (arith, size)) in
        let (queue, emptied, scans) =
          scan_serial-visit_all env Q rounds files stailq.stailq_init (new_context rb) after
            Q.entries-init run in
        (
          (queue, after),
          scans,
          record {
            emptied = emptied;
            run = run;
            found =
                visit_all-IsFound rb L H visits (new_context rb) 0 (visits-IsReadEntry files sized)
                  (new_context-IsContext rb L digest) (omega (arith, size)) after run;
            context = subst (λ n. IsContext rb digest n after) (omega (arith, size)) good;
            gathered = gathered;
          },
        )
