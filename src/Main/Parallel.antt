-- ===== src/Main/Parallel.antt =====
-- The scan by threads against the scan without: when nothing is left in the queue, both leave the
-- same files on the lists of duplicates.
use mathlib.Core.List.{Permᴰ, append-nil}
use mathlib.Core.List.Permᴰ
use dedup.Prelude.{
  ℕ, suc, ◌^◌, ◌<◌, ◌≡◌, sym, ◌∙◌, ap, subst, true, Option, some, List, [], ◌∷◌, ◌++◌, map, arith,
  inl, inr, Option-cases, All, length,
}
use dedup.Rb.{RbTree, IsRbTree}
use dedup.Metadata.{Sha256, FileMetadata, Digester}
use dedup.Os.{Os}
use dedup.Entry.{FileEntry, Stdio, metadata_from_entry}
use dedup.Queue.{Stailq, IsStailq, new_file_entry_queue}
use dedup.Visited.Hashing.{Digests, IsHashing}
use dedup.Visited.Classes.{class_of, same_class}
use dedup.Visited.View.{same_digest}
use dedup.Duplicates.Lists.{duplicates_of}
use dedup.Visit.{VisitContext, new_context}
use dedup.Visit.Exact.{targets, if_several, of_digest, listed_as}
use dedup.Visit.Order.{visit_all-listed, perm-of_digest, perm-if_several, perm-listed_as}
use dedup.Workers.Linear.{IsSized}
use dedup.Workers.{System, Reach}
use dedup.Workers.Accounts.{queued, IsVisitOf, AreVisits}
use dedup.Workers.Hands.{hand, hands, hands-none}
use dedup.Workers.Readings.{
  All-perm, readings, perm-readings, files-readings, MetReading, AreVisits-MetEntry,
}
use dedup.Workers.Run.{length-map, small}
use dedup.Workers.Safety.{AllExited, Reach-IsRun}
use dedup.Main.Serial.{
  Placed, visit_of, scan_serial, IsScanned, visits-IsReadEntry, scan_serial-IsScanned,
}

module _ (rb : RbTree) (os : Os) (stdio : Stdio os.State) (stailq : Stailq) (env : Digester)
    (digest : Digests) (s : os.State) (Q : IsStailq stailq) (L : IsRbTree rb)
    (H : IsHashing env digest) (Met : FileMetadata → Type 0)
    -- Of the files that are visited, those of one digest have one class.
    (one_class : (f g : FileMetadata)
      → Met f
      → Met g
      → same_digest rb digest f (digest.of_path g.path) ≡ true
      → same_class (class_of f) (class_of g) ≡ true) where
  abbrev pub reading : FileEntry → Option FileMetadata
  reading fe = metadata_from_entry os stdio fe s

  -- The files on a list, as the files that can be read and have its digest.
  abbrev pub expected : List FileEntry → Sha256 → List (Option FileMetadata)
  expected all sha =
      listed_as (if_several (of_digest rb digest sha (readings rb digest reading (map queued all))))

  serial-AreVisits :
      (placed : List Placed)
      → AreVisits reading
          (map (visit_of rb os stdio stailq s) placed)
          (map queued (map (λ (p : Placed). p.entry) placed))
  serial-AreVisits [] = tt
  serial-AreVisits (p ∷ placed) = elim (Option-cases (reading (queued p.entry))) [
    | inl unread ↦ (rw (unread, IsVisitOf) unread, serial-AreVisits placed)
    | inr (f, readable) ↦ (rw (readable, IsVisitOf) readable, serial-AreVisits placed)
  ]

  -- The lists that a run over visits of the entries leaves.
  perm-expected :
      (taken all : List FileEntry) (sha : Sha256)
      → Permᴰ taken (map queued all)
      → Permᴰ
          (listed_as (if_several (of_digest rb digest sha (readings rb digest reading taken))))
          (expected all sha)
  perm-expected taken all sha d =
      perm-listed_as
        (perm-if_several _ _ (perm-of_digest rb digest sha (perm-readings rb digest reading d)))

  module _ (all : List FileEntry) (few : length all < 2 ^ 57) (sized : All (IsSized digest) all)
      (met : All (MetReading rb digest reading Met) (map queued all)) where
    Reach-expected :
        (threads : ℕ) {x : System rb os stdio stailq}
        → Reach rb os stdio stailq env s threads all x
        → AllExited rb os stdio stailq env digest s Q x
        → Q.entries x.shared.queue ≡ []
        → x.todo ≡ []
        → (sha : Sha256)
        → Permᴰ (targets (duplicates_of rb x.shared.ctx.duplicates sha)) (expected all sha)
    Reach-expected threads {x} r exits emptied queued_all sha =
        let inv = Reach-IsRun rb os stdio stailq env digest s Q L H threads all few sized r in
        let acc = inv.accounts in
        let no_hands : hands x.workers ≡ [] =
          hands-none x.workers (λ i w at. ap hand (exits i w at)) in
        let all_taken : inv.taken ≡ map queued all =
          sym (append-nil inv.taken)
          ∙ sym (
              inv.fifo
              ∙ ap (λ es. inv.taken ++ (es ++ map queued x.todo)) emptied
              ∙ ap (λ t. inv.taken ++ map queued t) queued_all) in
        let perm : Permᴰ acc.entries (map queued all) = subst (Permᴰ acc.entries) all_taken (
          subst (λ es. Permᴰ es inv.taken)
            (ap (λ es. acc.entries ++ es) no_hands ∙ append-nil acc.entries) acc.perm) in
        let met_log =
          AreVisits-MetEntry rb digest reading Met inv.log acc.entries acc.of_entries
            (All-perm (MetReading rb digest reading Met) (Permᴰ.symm perm) met) in
        let few_visits = small rb os stdio stailq env digest s Q L H few inv in
        rw
          (
            inv.linear.lists sha,
            visit_all-listed rb L H Met one_class inv.log inv.linear.reads met_log
                (omega (arith, few_visits)) inv.linear.seq inv.linear.run sha,
            files-readings rb digest reading inv.log acc.entries acc.of_entries,
          )
          (perm-expected acc.entries all sha perm)

    scan_serial-expected :
        (placed : List Placed) (out : stailq.Head × VisitContext rb)
        → map (λ (p : Placed). p.entry) placed ≡ all
        → IsScanned rb os stdio stailq s L env digest H Q placed out
        → (sha : Sha256) → targets (duplicates_of rb out.1.duplicates sha) ≡ expected all sha
    scan_serial-expected placed out same scanned sha =
        let visits = map (visit_of rb os stdio stailq s) placed in
        let fes = map queued (map (λ (p : Placed). p.entry) placed) in
        let of = serial-AreVisits placed in
        let met' : All (MetReading rb digest reading Met) fes =
          subst (λ es. All (MetReading rb digest reading Met) (map queued es)) (sym same) met in
        let size : length visits ≡ length all =
          length-map (visit_of rb os stdio stailq s) placed
          ∙ sym (length-map (λ (p : Placed). p.entry) placed)
          ∙ ap length same in
        visit_all-listed rb L H Met one_class visits
          (visits-IsReadEntry rb os stdio stailq s L env digest H Q placed
            (subst (All (IsSized digest)) (sym same) sized))
          (AreVisits-MetEntry rb digest reading Met visits fes of met') (omega (arith, size, few))
          out.1 scanned.run sha
        ∙ ap (λ fs. listed_as (if_several (of_digest rb digest sha fs)))
            (files-readings rb digest reading visits fes of)
        ∙ ap (λ es. expected es sha) same

    -- Where the files, and whether they can be hashed, do not change during the scan, and the size
    -- of each is that of its content: if of the files that main queues, whose metadata can be read
    -- and that can be hashed, those of one digest have one device, size, first and last character,
    -- and there are fewer than 2^57 entries, then whatever the number of threads above 0 and the
    -- interleaving of their steps, when all have returned and have left nothing in the queue, the
    -- list of each digest holds the same files, up to their order, as after the scan of the same
    -- entries without threads, which ends.
    pub Reach-scan_serial :
        (threads : ℕ) {x : System rb os stdio stailq}
        → Reach rb os stdio stailq env s threads all x
        → AllExited rb os stdio stailq env digest s Q x
        → Q.entries x.shared.queue ≡ []
        → x.todo ≡ []
        → (rounds : ℕ) (placed : List Placed) → map (λ (p : Placed). p.entry) placed ≡ all
        → (out : stailq.Head × VisitContext rb) × (scan_serial rb os stdio stailq s env
              (suc rounds)
              placed
              (new_file_entry_queue stailq)
              (new_context rb)
            ≡ some out)
          × ((sha : Sha256)
              → Permᴰ
                  (targets (duplicates_of rb x.shared.ctx.duplicates sha))
                  (targets (duplicates_of rb out.1.duplicates sha)))
    Reach-scan_serial threads {x} r exits emptied queued_all rounds placed same =
        let size : length placed ≡ length all =
          sym (length-map (λ (p : Placed). p.entry) placed) ∙ ap length same in
        let (out, run, scanned) =
          scan_serial-IsScanned rb os stdio stailq s L env digest H Q rounds placed
            (omega (arith, size, few)) (subst (All (IsSized digest)) (sym same) sized) in
        (
          out,
          run,
          λ sha.
              subst (Permᴰ (targets (duplicates_of rb x.shared.ctx.duplicates sha)))
                (sym (scan_serial-expected placed out same scanned sha))
                (Reach-expected threads r exits emptied queued_all sha),
        )
