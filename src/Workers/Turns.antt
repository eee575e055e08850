-- ===== src/Workers/Turns.antt =====
-- The steps of a worker that touch neither tree are defined, and keep the account of the visits.
use mathlib.Core.List.{append_assoc}
use dedup.Prelude.{
  All, subst, ℕ, ◌+◌, ◌*◌, ◌^◌, ◌<◌, ◌≡◌, refl, sym, ◌∙◌, ap, Option, some, List, [], ◌∷◌, ◌++◌,
  map, arith, inl, inr, Bool-cases, length, get_elem?, set,
}
use dedup.Rb.{RbTree, IsRbTree}
use dedup.Metadata.{FileMetadata, Digester}
use dedup.Os.{Os}
use dedup.Entry.{FileEntry, Stdio, metadata_from_entry}
use dedup.Queue.{Stailq, IsStailq}
use dedup.Queue.Fifo.{file_entry_next-entries}
use dedup.Visited.Hashing.{Digests, IsHashing}
use dedup.Workers.{Worker, starting, looping, idle, visiting, exited, Shared, dedup_work, System}
use dedup.Workers.Flight.{held, owed}
use dedup.Workers.Hands.{hand}
use dedup.Workers.Linear.{IsSized, Known, IsLinear-still}
use dedup.Workers.Accounts.{queued, Holds, IsAccounted-keeps, IsAccounted-takes}
use dedup.Workers.Run.{IsRun, queued-IsSized, All-right, small}

module _ (rb : RbTree) (os : Os) (stdio : Stdio os.State) (stailq : Stailq) (env : Digester)
    (digest : Digests) (s : os.State) (Q : IsStailq stailq) (L : IsRbTree rb)
    (H : IsHashing env digest) {all : List FileEntry} (few : length all < 2 ^ 57)
    (sized : All (IsSized digest) all) {x : System rb os stdio stailq}
    (inv : IsRun rb os stdio stailq env digest s Q all x) where
  abbrev pub reading : FileEntry → Option FileMetadata
  reading fe = metadata_from_entry os stdio fe s

  pub few_visits : 2 * length inv.log + 1 < 2 ^ 59
  few_visits = small rb os stdio stailq env digest s Q L H few inv

  -- The entry that is next in the queue is one that main queued.
  next-IsSized :
      (e : FileEntry) (rest : List FileEntry)
      → Q.entries x.shared.queue ≡ e ∷ rest
      → IsSized digest e
  next-IsSized e rest entries =
      let there = subst (All (IsSized digest)) inv.fifo (queued-IsSized digest all sized) in
      let behind =
        All-right (IsSized digest) inv.taken (Q.entries x.shared.queue ++ map queued x.todo)
          there in
      (subst (λ es. All (IsSized digest) (es ++ map queued x.todo)) entries behind).0

  -- What a step of a worker gives.
  abbrev pub Steps : ℕ → ℕ → Worker → Type 0
  Steps i address w =
      (o : Shared rb os stdio stailq × Worker) × (dedup_work rb os stdio stailq env s address
          x.shared w
        ≡ some o)
      × IsRun rb os stdio stailq env digest s Q all
          (record x { shared = o.0; workers = set x.workers i o.1 })

  module _ (i address : ℕ) where
    pub still :
        (w w' : Worker)
        → get_elem? x.workers i ≡ some w
        → owed w' ≡ owed w
        → Known rb os stdio env digest s x.shared.ctx.visited w'
        → held w' ≡ held w
        → ((fe : FileEntry) → Holds w fe → Holds w' fe)
        → hand w' ≡ hand w
        → IsRun rb os stdio stailq env digest s Q all (record x { workers = set x.workers i w' })
    still w w' at same one same_held keeps same_hand = record {
      log = inv.log;
      taken = inv.taken;
      linear = IsLinear-still rb os stdio env digest s L H inv.linear i w at w' same one;
      accounts = IsAccounted-keeps reading inv.accounts i w w' at same_held keeps same_hand;
      fifo = inv.fifo;
    }

    pub Steps-starting : get_elem? x.workers i ≡ some starting → Steps i address starting
    unfolding dedup_work
    Steps-starting at = elim (Bool-cases x.shared.done) [
      | inl done ↦
          ((x.shared, exited), ground arith, still starting exited at refl tt refl (λ fe h. h) refl)
      | inr more ↦ (
        (x.shared, looping),
        ground arith,
        still starting looping at refl tt refl (λ fe h. h) refl,
      )
    ]

    pub Steps-idle : get_elem? x.workers i ≡ some idle → Steps i address idle
    unfolding dedup_work
    Steps-idle at = elim (Bool-cases x.shared.done) [
      | inl done ↦
          ((x.shared, exited), ground arith, still idle exited at refl tt refl (λ fe h. h) refl)
      | inr more ↦
          ((x.shared, looping), ground arith, still idle looping at refl tt refl (λ fe h. h) refl)
    ]

    pub Steps-looping : get_elem? x.workers i ≡ some looping → Steps i address looping
    unfolding dedup_work
    Steps-looping at = elim (file_entry_next-entries stailq Q x.shared.queue) [
      | inl (empty, run) ↦ (
        (x.shared, idle),
        rw (dedup_work, run, run),
        still looping idle at refl tt refl (λ fe h. h) refl,
      )
      | inr (e, queue, run, entries) ↦ (
        (record x.shared { queue = queue }, visiting e),
        rw (dedup_work, run, run),
        record {
          log = inv.log;
          taken = inv.taken ++ e ∷ [];
          linear =
              IsLinear-still rb os stdio env digest s L H inv.linear i looping at (visiting e) refl
                (next-IsSized e (Q.entries queue) entries);
          accounts =
              IsAccounted-takes reading inv.accounts i looping (visiting e) at e refl refl
                (λ fe h. h) refl refl refl;
          fifo =
              inv.fifo
              ∙ ap (λ es. inv.taken ++ (es ++ map queued x.todo)) entries
              ∙ sym (append_assoc inv.taken (e ∷ []) (Q.entries queue ++ map queued x.todo));
        },
      )
    ]
