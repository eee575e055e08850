-- ===== src/Workers/Lost.antt =====
-- Entries that no worker visits: a thread that starts late finds `done` set and looks no further.
use mathlib.Core.List.{append_assoc, append-nil}
use dedup.Prelude.{
  ℕ, zero, ◌<◌, suc, ◌≡◌, refl, sym, ◌∙◌, ap, some, List, [], ◌∷◌, ◌++◌, true, map, length,
  get_elem?, set, replicate, arith,
}
use dedup.Rb.{RbTree}
use dedup.Metadata.{Digester}
use dedup.Os.{Os}
use dedup.Entry.{FileEntry, Stdio}
use dedup.Queue.{Stailq, IsStailq, new_file_entry_queue, file_entry_queue_append}
use dedup.Visit.{new_context}
use dedup.Workers.{
  Worker, Shared, starting, exited, dedup_work, System, append, all_queued, work, init, Reach, here,
  next,
}
use dedup.Workers.Accounts.{queued}

get_elem?-middle :
    (ws us : List Worker) (w : Worker) → get_elem? (ws ++ w ∷ us) (length ws) ≡ some w
get_elem?-middle [] us w = refl
get_elem?-middle (v ∷ ws) us w = get_elem?-middle ws us w

set-middle : (ws us : List Worker) (v w : Worker) → set (ws ++ v ∷ us) (length ws) w ≡ ws ++ w ∷ us
set-middle [] us v w = refl
set-middle (x ∷ ws) us v w = ap (λ vs. x ∷ vs) (set-middle ws us v w)

replicate_end :
    (n : ℕ) (w : Worker) (us : List Worker) → replicate n w ++ w ∷ us ≡ w ∷ (replicate n w ++ us)
replicate_end zero w us = refl
replicate_end (suc n) w us = ap (λ vs. w ∷ vs) (replicate_end n w us)

module _ (rb : RbTree) (os : Os) (stdio : Stdio os.State) (stailq : Stailq) (env : Digester)
    (s : os.State) (Q : IsStailq stailq) (threads : ℕ) (all : List FileEntry) where
  abbrev Reached : System rb os stdio stailq → Type 0
  Reached = Reach rb os stdio stailq env s threads all

  -- main queues all that it has yet to queue.
  queues :
      (rest : List FileEntry) (x : System rb os stdio stailq)
      → x.todo ≡ rest
      → Reached x
      → (y : System rb os stdio stailq) × Reached y
        × (y.todo ≡ [])
        × (y.workers ≡ x.workers)
        × (y.shared.ctx ≡ x.shared.ctx)
        × (Q.entries y.shared.queue ≡ Q.entries x.shared.queue ++ map queued rest)
  unfolding file_entry_queue_append
  queues [] x todo r = (x, r, todo, refl, refl, sym (append-nil _))
  queues (fe ∷ rest) x todo r =
      let (y, r', none_left, same, same_ctx, entries) =
        queues rest _ refl (next r (append fe rest todo)) in
      (
        y,
        r',
        none_left,
        same,
        same_ctx,
        entries
            ∙ ap (λ es. es ++ map queued rest) (Q.entries-insert x.shared.queue (queued fe))
            ∙ append_assoc (Q.entries x.shared.queue) (queued fe ∷ []) (map queued rest),
      )

  -- The threads that have not started return at once.
  exits :
      (n k : ℕ) (x : System rb os stdio stailq)
      → x.workers ≡ replicate k exited ++ replicate n starting
      → x.shared.done ≡ true
      → Reached x
      → (y : System rb os stdio stailq) × Reached y
        × (y.shared ≡ x.shared)
        × (y.todo ≡ x.todo)
        × (y.workers ≡ replicate k exited ++ replicate n exited)
  unfolding dedup_work
  exits zero k x ws done r = (x, r, refl, refl, ws)
  exits (suc n) k x ws done r =
      let i : ℕ = length (replicate k exited) in
      let at : get_elem? x.workers i ≡ some starting =
        rw ws (get_elem?-middle (replicate k exited) (replicate n starting) starting) in
      let returns : dedup_work rb os stdio stailq env s 0 x.shared starting
          ≡ some (x.shared, exited) =
        ground (arith, done) in
      let ws' : set x.workers i exited ≡ replicate (suc k) exited ++ replicate n starting =
        ap (λ vs. set vs i exited) ws
        ∙ set-middle (replicate k exited) (replicate n starting) starting exited
        ∙ replicate_end k exited (replicate n starting) in
      let (y, r', same, todo, all_out) =
        exits n (suc k) (record x { workers = set x.workers i exited }) ws' done
          (next r (work i 0 starting exited x.shared at returns)) in
      (y, r', same, todo, all_out ∙ sym (replicate_end k exited (replicate n exited)))

  -- Whatever the number of threads, at least one, and the files: there is a run in which all threads return, main
  -- has queued every file, and no file was visited.
  pub Reach-unvisited :
      0 < threads
      → (x : System rb os stdio stailq) × Reached x
        × (x.todo ≡ [])
        × (x.workers ≡ replicate threads exited)
        × (x.shared.ctx ≡ new_context rb)
        × (Q.entries x.shared.queue ≡ map queued all)
  unfolding new_file_entry_queue
  Reach-unvisited some_thread =
      let (y, r', none_left, same, same_ctx, entries) =
        queues all (init rb os stdio stailq threads all) refl (here some_thread) in
      let (z, r'', same_shared, todo, all_out) =
        exits threads 0 (record y { shared = record y.shared { done = true } }) same refl
          (next r' (all_queued none_left)) in
      (
        z,
        r'',
        todo ∙ none_left,
        all_out,
        ap (λ (h : Shared rb os stdio stailq). h.ctx) same_shared ∙ same_ctx,
        ap (λ (h : Shared rb os stdio stailq). Q.entries h.queue) same_shared
            ∙ entries
            ∙ ap (λ es. es ++ map queued all) Q.entries-init,
      )
