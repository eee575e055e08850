-- ===== src/Workers.antt =====
-- dedup.c: `dedup_work`, which runs in several threads while main fills the queue. What a worker does
-- while it holds one mutex is one step; the steps of the workers and of main interleave freely. The
-- files do not change meanwhile: `s` is the state of the system during the scan.
pub mod Flight
pub mod Hands
pub mod Log
pub mod Linear
pub mod Inserting
pub mod Listing
pub mod Accounts
pub mod Readings
pub mod Run
pub mod Turns
pub mod Rounds
pub mod Safety
pub mod Outcome
pub mod Ends
pub mod Lost
use dedup.Prelude.{
  ℕ, ◌<◌, ◌≡◌, Bool, true, false, Option, none, some, List, [], ◌∷◌, get_elem?, set, replicate,
}
use dedup.Rb.{RbTree}
use dedup.Metadata.{FileMetadata, Digester, Pointer}
use dedup.Os.{Os}
use dedup.Entry.{FileEntry, Stdio, metadata_from_entry}
use dedup.Queue.{Stailq, new_file_entry_queue, file_entry_queue_append, file_entry_next}
use dedup.Visited.{visited_tree_insert}
use dedup.Duplicates.{duplicate_tree_find}
use dedup.Visit.{VisitContext, new_context, add_duplicate, count_found}

-- Where a worker stands, with the local variables that are live there.
pub data Worker : Type 0 where
  -- before the first read of `done`
  starting : Worker
  -- at the head of the loop, where `done` is 0
  looping : Worker
  -- before the read of `done`, with no entry in hand
  idle : Worker
  -- in visit_entry, before the mutex of the visited tree
  visiting : FileEntry → Worker
  -- in visit_entry, with an older file, before the mutex of the tree of duplicates
  listing : FileEntry → Pointer → FileMetadata → Worker
  -- in visit_entry, before the mutex of the metrics
  counting : FileMetadata → FileMetadata → Worker
  exited : Worker

module _ (rb : RbTree) (os : Os) (stdio : Stdio os.State) (stailq : Stailq) where
  -- The fields of `DedupContext` that the threads share.
  pub record Shared : Type 0 where
    pub queue : stailq.Head
    pub done : Bool
    pub ctx : VisitContext rb

  -- One step of a worker, of which there is at least one: `thread_count` is not 0. `address` is what
  -- malloc gives, if it is called.
  unfoldable pub dedup_work : Digester → os.State → ℕ → Shared → Worker → Option (Shared × Worker)
  dedup_work env s address shared starting = elim shared.done [
    | true ↦ some (shared, exited)
    | false ↦ some (shared, looping)
  ]
  dedup_work env s address shared looping =
      let (fe, queue) = file_entry_next stailq shared.queue in
      elim fe [
        | none ↦ some (record shared { queue = queue }, idle)
        | some e ↦ some (record shared { queue = queue }, visiting e)
      ]
  dedup_work env s address shared idle = elim shared.done [
    | true ↦ some (shared, exited)
    | false ↦ some (shared, looping)
  ]
  dedup_work env s address shared (visiting fe) = elim (metadata_from_entry os stdio fe s) [
    | none ↦ some (shared, looping)
    | some fm ↦
        let inserted = visited_tree_insert rb env shared.ctx.visited fm in
        let ctx : VisitContext rb = record shared.ctx { visited = inserted.tree } in
        elim inserted.result [
          | none ↦ some (record shared { ctx = ctx }, looping)
          | some old ↦ some (
            record shared { ctx = ctx },
            listing fe (record { address = address; target = inserted.fm }) old,
          )
        ]
  ]
  dedup_work env s address shared (listing fe fm old) =
      let list = duplicate_tree_find rb shared.ctx.duplicates fm.target in
      elim (add_duplicate address old fm list.value) [
        | none ↦ none
        | some longer ↦
            let ctx : VisitContext rb = record shared.ctx { duplicates = list.write longer } in
            some (record shared { ctx = ctx }, counting fm.target old)
      ]
  dedup_work env s address shared (counting fm old) =
      let ctx : VisitContext rb = record shared.ctx {
        found = count_found old fm shared.ctx.found;
      } in
      some (record shared { ctx = ctx }, looping)
  dedup_work env s address shared exited = some (shared, exited)

  -- `todo` are the entries that main has yet to queue.
  pub record System : Type 0 where
    pub shared : Shared
    pub workers : List Worker
    pub todo : List FileEntry

  pub data Step (env : Digester) (s : os.State) (x : System) : System → Type 0 where
    append :
        (fe : FileEntry) (rest : List FileEntry)
        → x.todo ≡ fe ∷ rest
        → Step env s x (record x {
          shared = record x.shared {
            queue =
                file_entry_queue_append stailq x.shared.queue fe.path fe.device fe.inode fe.nlink
                  fe.flags fe.size fe.level;
          };
          todo = rest;
        })
    all_queued : x.todo ≡ [] → Step env s x (record x { shared = record x.shared { done = true } })
    work :
        (i address : ℕ) (w w' : Worker) (shared : Shared)
        → get_elem? x.workers i ≡ some w
        → dedup_work env s address x.shared w ≡ some (shared, w')
        → Step env s x (record x { shared = shared; workers = set x.workers i w' })

  -- main, when it has made its threads.
  abbrev pub init : ℕ → List FileEntry → System
  init threads all = record {
    shared = record { queue = new_file_entry_queue stailq; done = false; ctx = new_context rb };
    workers = replicate threads starting;
    todo = all;
  }

  pub data Reach (env : Digester) (s : os.State) (threads : ℕ) (all : List FileEntry)
      : System → Type 0 where
    -- With no thread, main calls `dedup_work` itself.
    here : 0 < threads → Reach env s threads all (init threads all)
    next : {x y : System} → Reach env s threads all x → Step env s x y → Reach env s threads all y
