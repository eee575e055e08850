-- ===== src/Main/Program/Safe.antt =====
-- Where no option asks for links, no run of main changes what a file holds.
use dedup.Prelude.{
  All, map, Option, Option-cases, ℕ, suc, ◌+◌, ◌^◌, ◌<◌, ◌≡◌, refl, ◌∙◌, ap, Bool, true, none, some,
  List, [], ◌∷◌, arith, length, ◌==◌, Bool-cases, inl, inr,
}
use dedup.Rb.{RbTree, IsRbTree}
use dedup.Rb.Order.{is_eq, memcmp}
use dedup.Metadata.{CString, Digester}
use dedup.Os.{Os, IsPosix, File, SameFiles}
use dedup.Entry.{FileEntry, Stdio}
use dedup.Queue.{Stailq, IsStailq}
use dedup.Visited.Hashing.{Digests, IsHashing}
use dedup.Visit.{VisitContext}
use dedup.Replacing.{dedup_clone}
use dedup.Replacing.Keeps.{SameContent, SameContent-refl, SameContent-trans}
use dedup.Workers.{System, Reach}
use dedup.Main.Options.{Opt, Options}
use dedup.Main.Options.Last.{has, last_mode}
use dedup.Main.Traversal.{Volumes, Ftsent, new_traversal, traverse}
use dedup.Main.Traversal.Wanted.{length-traverse}
use dedup.Workers.Linear.{IsSized}
use dedup.Main.Serial.{Placed, scan_serial-IsScanned}
use dedup.Main.Contents.{IsSafe, IsSafe-SameContent, IsSafe-dry, IsSafe-free, Reach-IsSafe}
use dedup.Freeing.Seen.{free_visited_tree_lem}
use dedup.Main.Program.Begin.{begin_lem}
use dedup.Main.Program.{begun, begin, place, scan, finish, proceed, main, to_context}

SameFiles-SameContent :
    (os : Os) {X : Type 0} (content : ℕ → X) (s t : os.State)
    → SameFiles os s t
    → SameContent os content s t
SameFiles-SameContent os content s t same = record {
  kept = λ p f there. (f, same p ∙ there, refl, refl);
}

module _ (os : Os) (rb : RbTree) (stdio : Stdio os.State) (stailq : Stailq) (L : IsRbTree rb)
    (P : IsPosix os) (Q : IsStailq stailq) (env : Digester) (digest : Digests)
    (H : IsHashing env digest) {X : Type 0} (content : ℕ → X) (malloc : ℕ → ℕ) (rounds : ℕ)
    (schedule : Options → List FileEntry → os.State → VisitContext rb) where
  map-place : (n : ℕ) (entries : List FileEntry) → length (place malloc n entries) ≡ length entries
  map-place n [] = refl
  map-place n (fe ∷ fes) = ap suc (map-place (n + 2) fes)

  place-IsSized :
      (n : ℕ) (entries : List FileEntry)
      → All (IsSized digest) entries
      → All (IsSized digest) (map (λ (p : Placed). p.entry) (place malloc n entries))
  place-IsSized n [] sized = tt
  place-IsSized n (fe ∷ fes) (one, sized) = (one, place-IsSized (n + 2) fes sized)

  -- In a state of the system, fopen opens only files that are there, no two contents of the files
  -- there have one digest, and the threads come to a state that their steps reach.
  pub record IsSound (s : os.State) : Type 0 where
    pub there :
        (p : CString) (stream : stdio.Stream)
        → stdio.fopen p s ≡ some stream
        → (f : File) × (os.file s p ≡ some f)
    pub collision_free :
        (p q : CString) (f g : File)
        → os.file s p ≡ some f
        → os.file s q ≡ some g
        → is_eq (memcmp 32 (digest.of_path p) (digest.of_path q)) ≡ true
        → content f.blocks ≡ content g.blocks
    pub scheduled :
        (o : Options) (entries : List FileEntry)
        → 0 < o.thread_count
        → (x : System rb os stdio stailq) × Reach rb os stdio stailq env s o.thread_count entries x
          × (schedule o entries s ≡ x.shared.ctx)

  module _ (s : os.State) (sound : IsSound s) where
    -- With threads or without, the scan ends with a tree of duplicates that is safe to work on.
    scan-IsSafe :
        (o : Options) (entries : List FileEntry)
        → length entries < 2 ^ 57
        → All (IsSized digest) entries
        → (ctx : VisitContext rb) × (scan os rb stdio stailq env malloc
              (suc rounds)
              schedule
              o
              entries
              s
            ≡ some ctx)
          × IsSafe os stdio rb L content digest s sound.there sound.collision_free env
              ctx.duplicates
    unfolding scan
    scan-IsSafe o entries few sized = elim (Bool-cases (o.thread_count == 0)) [
      | inl serial ↦
          let size : length (place malloc 0 entries) ≡ length entries = map-place 0 entries in
          let (out, run, scanned) =
            scan_serial-IsScanned rb os stdio stailq s L env digest H Q rounds
              (place malloc 0 entries) (omega (arith, size)) (place-IsSized 0 entries sized) in
          (
            out.1,
            rw (serial, run),
            (_, scanned.context.duplicates, λ sha. scanned.gathered.listed sha),
          )
      | inr some_threads ↦
          let (x, reached, is) = sound.scheduled o entries (ground arith) in
          (
            x.shared.ctx,
            rw (some_threads, is),
            Reach-IsSafe os stdio rb L content digest s sound.there sound.collision_free P stailq Q
                env H o.thread_count entries few sized reached,
          )
    ]

    finish-SameContent :
        (o : Options) (ctx : VisitContext rb)
        → o.replace_mode ≡ dedup_clone
        → IsSafe os stdio rb L content digest s sound.there sound.collision_free env ctx.duplicates
        → (t : os.State) × (finish os rb stdio stailq o (some ctx) s ≡ some (0, t))
          × SameContent os content s t
    unfolding finish
    finish-SameContent o ctx mode safe =
        let (out, run, same) =
          IsSafe-SameContent os stdio rb L content digest s sound.there sound.collision_free P env
            ctx.duplicates (to_context o) safe mode in
        (
          out.1,
          rw
              (
                finish,
                free_visited_tree_lem rb L ctx.visited,
                run,
                (IsSafe-free os stdio rb L content digest s sound.there sound.collision_free P env
                    ctx.duplicates safe).1,
              )
              refl,
          same,
        )

  module _ (volumes : Volumes) (fts : Bool → List CString → os.State → Option (List Ftsent))
      (atoi : CString → ℕ) (cpus : ℕ) (tty : Bool) (opts : List Opt) (argv : List CString)
      (s : os.State) where
    -- The sizes of the files that main queues are those of their contents.
    abbrev pub AreSized : Options → List Ftsent → Type 0
    AreSized o entries = All (IsSized digest) (traverse volumes o entries new_traversal)

    -- What is asked of the entries that fts(3) gives, if fts_open(3) does not fail: there are fewer
    -- than 2^57, and their sizes are those of the contents.
    abbrev pub IsListing : Options → Option (List Ftsent) → Type 0
    IsListing o found =
        (entries : List Ftsent)
        → found ≡ some entries
        → (length entries < 2 ^ 57) × AreSized o entries

    proceed-SameContent :
        (t : os.State) (o : Options) (args : List CString)
        → IsSound t
        → o.replace_mode ≡ dedup_clone
        → IsListing o (fts o.xdev args t)
        → (status : ℕ) × (u : os.State) × (proceed os rb stdio stailq env malloc
              (suc rounds)
              schedule
              volumes
              fts
              (begun o args)
              t
            ≡ some (status, u))
          × SameContent os content t u
    unfolding proceed
    proceed-SameContent t o args sound mode listing = elim (Option-cases (fts o.xdev args t)) [
      | inl failed ↦ (1, t, rw (proceed, failed) refl, SameContent-refl os content t)
      | inr (found, opened) ↦
          let entries = traverse volumes o found new_traversal in
          let (few, sized) = listing found opened in
          let (ctx, scans, safe) =
            scan-IsSafe t sound o entries
              (omega (arith, length-traverse volumes o found new_traversal)) sized in
          let (u, ends, same) = finish-SameContent t sound o ctx mode safe in
          (0, u, rw (proceed, opened, scans) ends, same)
    ]

    proceed_dry :
        (t : os.State) (o : Options) (args : List CString)
        → IsSound t
        → o.dry_run ≡ true
        → IsListing o (fts o.xdev args t)
        → (status : ℕ) × (proceed os rb stdio stailq env malloc
              (suc rounds)
              schedule
              volumes
              fts
              (begun o args)
              t
            ≡ some (status, t))
    unfolding proceed finish
    proceed_dry t o args sound dry listing = elim (Option-cases (fts o.xdev args t)) [
      | inl failed ↦ (1, rw (proceed, failed) refl)
      | inr (found, opened) ↦
          let entries = traverse volumes o found new_traversal in
          let (few, sized) = listing found opened in
          let (ctx, scans, safe) =
            scan-IsSafe t sound o entries
              (omega (arith, length-traverse volumes o found new_traversal)) sized in
          let (out, run, still) =
            IsSafe-dry os stdio rb L content digest t sound.there sound.collision_free P env
              ctx.duplicates (to_context o) safe dry in
          (
            0,
            rw
                (
                  proceed,
                  opened,
                  scans,
                  finish,
                  free_visited_tree_lem rb L ctx.visited,
                  run,
                  (IsSafe-free os stdio rb L content digest t sound.there sound.collision_free P env
                      ctx.duplicates safe).1,
                  still,
                )
                refl,
          )
    ]

    -- If no option is -l or -s, the state of the system is sound once the options are read (fopen
    -- opens only files that are there, no two contents there have one digest, the threads come to a
    -- state that their steps reach), the files, and whether they can be hashed, do not change
    -- during the scan, and fts(3), unless fts_open(3) fails, gives fewer than 2^57 entries, each
    -- queued one with the size of its content: main meets no NULL and returns, and every file that
    -- there was when it began is there at its end, with its attributes and its content.
    pub main-SameContent :
        last_mode opts ≡ none
        → IsSound (begin os atoi cpus tty opts argv s).1
        → ((o : Options) (args : List CString)
            → IsListing o (fts o.xdev args (begin os atoi cpus tty opts argv s).1))
        → (status : ℕ) × (u : os.State) × (main os rb stdio stailq env malloc
              (suc rounds)
              schedule
              volumes
              fts
              atoi
              cpus
              tty
              opts
              argv
              s
            ≡ some (status, u))
          × SameContent os content s u
    unfolding main
    main-SameContent no_mode sound listing = elim (begin_lem os P atoi cpus tty opts argv s) [
      | inl (status, t, stops, same) ↦
          (status, t, rw (main, stops, proceed), SameFiles-SameContent os content s t same)
      | inr (o, args, t, goes_on, mode, dry, same) ↦
          let (status, u, run, kept) =
            proceed-SameContent t o args (rw goes_on at sound) (rw no_mode at mode)
              (rw goes_on at (listing o args)) in
          (
            status,
            u,
            rw (main, goes_on) run,
            SameContent-trans os content s t u (SameFiles-SameContent os content s t same) kept,
          )
    ]

    -- If -n is among the options, whatever the mode, the state of the system is sound once the
    -- options are read (as for a run that is not dry), the files, and whether they can be hashed,
    -- do not change during the scan, and fts(3), unless fts_open(3) fails, gives fewer than 2^57
    -- entries, each queued one with the size of its content: main meets no NULL and returns, and no
    -- path leads to anything else than when it began.
    pub main_dry :
        has b'n' opts ≡ true
        → IsSound (begin os atoi cpus tty opts argv s).1
        → ((o : Options) (args : List CString)
            → IsListing o (fts o.xdev args (begin os atoi cpus tty opts argv s).1))
        → (status : ℕ) × (u : os.State) × (main os rb stdio stailq env malloc
              (suc rounds)
              schedule
              volumes
              fts
              atoi
              cpus
              tty
              opts
              argv
              s
            ≡ some (status, u))
          × SameFiles os s u
    unfolding main
    main_dry asked sound listing = elim (begin_lem os P atoi cpus tty opts argv s) [
      | inl (status, t, stops, same) ↦ (status, t, rw (main, stops, proceed), same)
      | inr (o, args, t, goes_on, mode, dry, same) ↦
          let (status, run) =
            proceed_dry t o args (rw goes_on at sound) (rw asked at dry)
              (rw goes_on at (listing o args)) in
          (status, t, rw (main, goes_on) run, same)
    ]
