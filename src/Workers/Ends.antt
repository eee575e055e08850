-- ===== src/Workers/Ends.antt =====
-- Once main has queued all files, the workers come to an end, in whatever order they step.
use mathlib.Core.Option.{some-injective}
use dedup.Prelude.{
  All, ℕ, zero, suc, ◌+◌, ◌*◌, ◌^◌, ◌<◌, ◌≤◌, ◌≡◌, ◌⊎◌, refl, sym, ◌∙◌, ap, subst, true, some, List,
  [], ◌∷◌, arith, inl, inr, Option-cases, length, get_elem?, set,
}
use dedup.Rb.{RbTree, IsRbTree}
use dedup.Metadata.{Digester}
use dedup.Os.{Os}
use dedup.Entry.{FileEntry, Stdio, metadata_from_entry}
use dedup.Queue.{Stailq, IsStailq}
use dedup.Queue.Fifo.{file_entry_next-entries}
use dedup.Visited.{visited_tree_insert}
use dedup.Visited.Hashing.{Digests, IsHashing}
use dedup.Duplicates.{duplicate_tree_find}
use dedup.Visit.{add_duplicate}
use dedup.Workers.Linear.{IsSized}
use dedup.Workers.{
  Worker, starting, looping, idle, visiting, listing, counting, exited, Shared, dedup_work, System,
  Reach, next, work,
}
use dedup.Workers.Flight.{total, total-set}
use dedup.Workers.Safety.{AllExited, dedup_work_steps}

-- The most steps that a worker takes before it is at the head of its loop again, and two more.
abbrev pub stage : Worker → ℕ
stage exited = 0
stage starting = 1
stage idle = 1
stage looping = 2
stage (counting fm old) = 3
stage (listing fe fm old) = 4
stage (visiting fe) = 5

Stage-cases : (w : Worker) → (w ≡ exited) ⊎ (0 < stage w)
Stage-cases exited = inl refl
Stage-cases starting = inr (omega arith)
Stage-cases idle = inr (omega arith)
Stage-cases looping = inr (omega arith)
Stage-cases (counting fm old) = inr (omega arith)
Stage-cases (listing fe fm old) = inr (omega arith)
Stage-cases (visiting fe) = inr (omega arith)

exited_all :
    (v : Worker) (ws : List Worker)
    → v ≡ exited
    → ((i : ℕ) (w : Worker) → get_elem? ws i ≡ some w → w ≡ exited)
    → (i : ℕ) (w : Worker) → get_elem? (v ∷ ws) i ≡ some w
    → w ≡ exited
exited_all v ws gone all zero w at = sym (some-injective v w at) ∙ gone
exited_all v ws gone all (suc i) w at = all i w at

-- A worker that has not returned, or none.
unexited :
    (ws : List Worker)
    → ((i : ℕ) (w : Worker) → get_elem? ws i ≡ some w → w ≡ exited)
      ⊎ ((i : ℕ) × (w : Worker) × (get_elem? ws i ≡ some w) × (0 < stage w))
unexited [] = inl (λ i w at. absurd (ground arith))
unexited (v ∷ ws) = elim (Stage-cases v) [
  | inr going ↦ inr (0, v, refl, going)
  | inl gone ↦ elim (unexited ws) [
    | inr (i, w, at, going) ↦ inr (suc i, w, at, going)
    | inl all ↦ inl (λ i w at. exited_all v ws gone all i w at)
  ]
]

module _ (rb : RbTree) (os : Os) (stdio : Stdio os.State) (stailq : Stailq) (env : Digester)
    (s : os.State) where
  -- Steps of workers that have not returned, and how many.
  pub data Running : ℕ → System rb os stdio stailq → System rb os stdio stailq → Type 0 where
    still_here : (x : System rb os stdio stailq) → Running 0 x x
    turn :
        {n : ℕ} {x y : System rb os stdio stailq} (i address : ℕ) (w w' : Worker)
        (shared : Shared rb os stdio stailq)
        → get_elem? x.workers i ≡ some w
        → 0 < stage w
        → dedup_work rb os stdio stailq env s address x.shared w ≡ some (shared, w')
        → Running n (record x { shared = shared; workers = set x.workers i w' }) y
        → Running (suc n) x y

  module _ (Q : IsStailq stailq) where
    -- What is left to do when main has queued all files.
    abbrev pub steps_left : System rb os stdio stailq → ℕ
    steps_left x = 5 * length (Q.entries x.shared.queue) + total stage x.workers

    abbrev Less : Shared rb os stdio stailq → Worker → Shared rb os stdio stailq × Worker → Type 0
    Less shared w o =
        (o.0.done ≡ true)
        × (5 * length (Q.entries o.0.queue) + stage o.1
            < 5 * length (Q.entries shared.queue) + stage w)

    Less-at :
        (address : ℕ) (shared : Shared rb os stdio stailq) (w : Worker)
        (a o : Shared rb os stdio stailq × Worker)
        → dedup_work rb os stdio stailq env s address shared w ≡ some a
        → Less shared w a
        → dedup_work rb os stdio stailq env s address shared w ≡ some o
        → Less shared w o
    Less-at address shared w a o step less run =
        subst (Less shared w) (some-injective a o (sym step ∙ run)) less

    -- When main has queued all files, a step of a worker leaves less to do.
    dedup_work-Less :
        (address : ℕ) (shared : Shared rb os stdio stailq) (w : Worker)
        (o : Shared rb os stdio stailq × Worker)
        → shared.done ≡ true
        → 0 < stage w
        → dedup_work rb os stdio stailq env s address shared w ≡ some o
        → Less shared w o
    unfolding dedup_work
    dedup_work-Less address shared starting o done going run =
        Less-at address shared starting (shared, exited) o (ground arith) (done, omega arith) run
    dedup_work-Less address shared idle o done going run =
        Less-at address shared idle (shared, exited) o (ground arith) (done, omega arith) run
    dedup_work-Less address shared looping o done going run =
        elim (file_entry_next-entries stailq Q shared.queue) [
          | inl (empty, taken) ↦
              Less-at address shared looping (shared, idle) o (rw (dedup_work, taken, taken))
                (done, omega arith) run
          | inr (e, queue, taken, entries) ↦
              Less-at address shared looping (record shared { queue = queue }, visiting e) o
                (rw (dedup_work, taken, taken)) (done, omega (arith, ap length entries)) run
        ]
    dedup_work-Less address shared (visiting fe) o done going run =
        elim (Option-cases (metadata_from_entry os stdio fe s)) [
          | inl unread ↦
              Less-at address shared (visiting fe) (shared, looping) o (rw (dedup_work, unread))
                (done, omega arith) run
          | inr (f, readable) ↦
              let inserted = visited_tree_insert rb env shared.ctx.visited f in
              let after = record shared { ctx = record shared.ctx { visited = inserted.tree } } in
              elim (Option-cases inserted.result) [
                | inl first ↦
                    Less-at address shared (visiting fe) (after, looping) o
                      (rw (dedup_work, readable, first)) (done, omega arith) run
                | inr (old, again) ↦
                    Less-at address shared (visiting fe)
                      (after, listing fe (record { address = address; target = inserted.fm }) old) o
                      (rw (dedup_work, readable, again)) (done, omega arith) run
              ]
        ]
    dedup_work-Less address shared (listing fe fm old) o done going run =
        let list = duplicate_tree_find rb shared.ctx.duplicates fm.target in
        elim (Option-cases (add_duplicate address old fm list.value)) [
          | inl stuck ↦ absurd (cc (rw (dedup_work, stuck) at run))
          | inr (longer, added) ↦
              Less-at address shared (listing fe fm old)
                (
                  record shared { ctx = record shared.ctx { duplicates = list.write longer } },
                  counting fm.target old,
                )
                o (rw (dedup_work, added)) (done, omega arith) run
        ]
    dedup_work-Less address shared (counting fm old) o done going run =
        subst (Less shared (counting fm old)) (some-injective _ o run) (done, omega arith)
    dedup_work-Less address shared exited o done going run = absurd (omega (arith, going))

    -- Each step takes one off what is left to do.
    Running-steps_left :
        {n : ℕ} {x y : System rb os stdio stailq}
        → x.shared.done ≡ true
        → Running n x y
        → (y.shared.done ≡ true) × (n + steps_left y ≤ steps_left x)
    Running-steps_left done (still_here x) = (done, omega arith)
    Running-steps_left done (turn {n} {x} {y} i address w w' shared at going run rest) =
        let (done', less) = dedup_work-Less address x.shared w (shared, w') done going run in
        let (done'', left) = Running-steps_left done' rest in
        (done'', omega (arith, less, left, total-set stage x.workers i w w' at))

module _ (rb : RbTree) (os : Os) (stdio : Stdio os.State) (stailq : Stailq) (env : Digester)
    (digest : Digests) (s : os.State) (Q : IsStailq stailq) (L : IsRbTree rb)
    (H : IsHashing env digest) (threads : ℕ) (all : List FileEntry) (few : length all < 2 ^ 57)
    (sized : All (IsSized digest) all) where
  Reach-Running :
      {n : ℕ} {x y : System rb os stdio stailq}
      → Reach rb os stdio stailq env s threads all x
      → Running rb os stdio stailq env s n x y
      → Reach rb os stdio stailq env s threads all y
  Reach-Running r (still_here x) = r
  Reach-Running r (turn i address w w' shared at going run rest) =
      Reach-Running (next r (work i address w w' shared at run)) rest

  abbrev left : System rb os stdio stailq → ℕ
  left x = steps_left rb os stdio stailq env s Q x

  -- The workers that have not returned step in some order until there is none.
  abbrev pub Ends : System rb os stdio stailq → Type 0
  Ends x =
      (n : ℕ) × (y : System rb os stdio stailq) × Running rb os stdio stailq env s n x y
      × AllExited rb os stdio stailq env digest s Q y

  -- A worker that has not returned has a step, which leaves less to do.
  advance :
      (x : System rb os stdio stailq)
      → Reach rb os stdio stailq env s threads all x
      → x.shared.done ≡ true
      → (i : ℕ) (w : Worker) → get_elem? x.workers i ≡ some w
      → 0 < stage w
      → (x' : System rb os stdio stailq) × Reach rb os stdio stailq env s threads all x'
        × (x'.shared.done ≡ true)
        × (left x' < left x)
        × (Ends x' → Ends x)
  advance x r done i w at going =
      let ((shared, w'), run) =
        dedup_work_steps rb os stdio stailq env digest s Q L H threads all few sized r i 0 w at in
      let (done', less) =
        dedup_work-Less rb os stdio stailq env s Q 0 x.shared w (shared, w') done going run in
      (
        record x { shared = shared; workers = set x.workers i w' },
        next r (work i 0 w w' shared at run),
        done',
        omega (arith, less, total-set stage x.workers i w w' at),
        λ (n, y, rest, gone). (suc n, y, turn i 0 w w' shared at going run rest, gone),
      )

  ends :
      (fuel : ℕ) (x : System rb os stdio stailq)
      → Reach rb os stdio stailq env s threads all x
      → x.shared.done ≡ true
      → left x ≤ fuel
      → Ends x
  ends zero x r done enough = elim (unexited x.workers) [
    | inl gone ↦ (0, x, still_here x, gone)
    | inr (i, w, at, going) ↦
        let (x', r', done', less, before) = advance x r done i w at going in
        absurd (omega (arith, enough, less))
  ]
  ends (suc fuel) x r done enough = elim (unexited x.workers) [
    | inl gone ↦ (0, x, still_here x, gone)
    | inr (i, w, at, going) ↦
        let (x', r', done', less, before) = advance x r done i w at going in
        before (ends fuel x' r' done' (omega (arith, enough, less)))
  ]

  -- Where the files, and whether they can be hashed, do not change during the scan, and the size of
  -- each is that of its content: in every state that main and the workers reach, once main has set
  -- done, with fewer than 2^57 files, whatever steps the workers that have not returned have made
  -- since then, in any order, they can go on until all have returned, and all these steps together
  -- are at most five for each entry that was in the queue, and for each worker those that its place
  -- in the code leaves it.
  pub Reach-Ends :
      {n : ℕ} {x y : System rb os stdio stailq}
      → Reach rb os stdio stailq env s threads all x
      → x.shared.done ≡ true
      → Running rb os stdio stailq env s n x y
      → (m : ℕ) × (z : System rb os stdio stailq) × Running rb os stdio stailq env s m y z
        × AllExited rb os stdio stailq env digest s Q z
        × (n + m ≤ steps_left rb os stdio stailq env s Q x)
  Reach-Ends {n} {x} {y} r done before =
      let (done', so_far) = Running-steps_left rb os stdio stailq env s Q done before in
      let (m, z, rest, gone) = ends (left y) y (Reach-Running r before) done' (omega arith) in
      let (done'', last) = Running-steps_left rb os stdio stailq env s Q done' rest in
      (m, z, rest, gone, omega (arith, so_far, last))
