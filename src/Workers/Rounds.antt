-- ===== src/Workers/Rounds.antt =====
-- Each step of a worker is defined, and keeps the account of the visits: those that visit a file, and
-- all together.
use dedup.Prelude.{
  All, ℕ, ◌^◌, ◌<◌, ◌≡◌, refl, sym, ◌∙◌, ap, none, some, List, [], ◌∷◌, ◌++◌, inl, inr,
  Option-cases, length, get_elem?,
}
use dedup.Rb.{RbTree, IsRbTree}
use dedup.Metadata.{FileMetadata, Digester, Pointer}
use dedup.Os.{Os}
use dedup.Entry.{FileEntry, Stdio}
use dedup.Queue.{Stailq, IsStailq}
use dedup.Visited.{visited_tree_insert}
use dedup.Visited.Hashing.{Digests, IsHashing}
use dedup.Visited.Classes.{class_of}
use dedup.Duplicates.{duplicate_tree_find}
use dedup.Visit.Correct.{first_of, first_of-view}
use dedup.Visit.{count_found}
use dedup.Workers.{
  Worker, starting, looping, idle, visiting, listing, counting, exited, dedup_work, System,
}
use dedup.Entry.Ends.{metadata_from_entry-opens}
use dedup.Workers.Inserting.{IsLinear-first, IsLinear-again}
use dedup.Workers.Linear.{IsSized, IsLinear-unreadable}
use dedup.Workers.Listing.{appended, IsLinear-listed, IsLinear-counted}
use dedup.Workers.Accounts.{IsAccounted-keeps, IsAccounted-done}
use dedup.Workers.Run.{IsRun, IsRead-entry}
use dedup.Workers.Turns.{
  reading, few_visits, Steps, still, Steps-starting, Steps-idle, Steps-looping,
}

module _ (rb : RbTree) (os : Os) (stdio : Stdio os.State) (stailq : Stailq) (env : Digester)
    (digest : Digests) (s : os.State) (Q : IsStailq stailq) (L : IsRbTree rb)
    (H : IsHashing env digest) {all : List FileEntry} (few : length all < 2 ^ 57)
    (sized : All (IsSized digest) all) {x : System rb os stdio stailq}
    (inv : IsRun rb os stdio stailq env digest s Q all x) where
  module _ (i address : ℕ) where
    Steps-visiting :
        (fe : FileEntry)
        → get_elem? x.workers i ≡ some (visiting fe)
        → Steps rb os stdio stailq env digest s Q L H few sized inv i address (visiting fe)
    unfolding dedup_work
    Steps-visiting fe at =
        elim (Option-cases ((reading rb os stdio stailq env digest s Q L H few sized inv) fe)) [
          | inl unread ↦ (
            (x.shared, looping),
            rw (dedup_work, unread),
            record {
              log = inv.log ++ (0, none) ∷ [];
              taken = inv.taken;
              linear =
                  IsLinear-unreadable rb os stdio env digest s L H inv.linear i (visiting fe) at
                    refl;
              accounts =
                  IsAccounted-done (reading rb os stdio stailq env digest s Q L H few sized inv)
                    inv.accounts i (visiting fe) looping at (0, none) refl refl
                    (λ e same.
                      ap (reading rb os stdio stailq env digest s Q L H few sized inv) (sym same)
                      ∙ unread)
                    fe refl refl unread;
              fifo = inv.fifo;
            },
          )
          | inr (f, readable) ↦
              let fe_sized = inv.linear.known i (visiting fe) at in
              let pointer : Pointer = record { address = address; target = f } in
              let inserted = visited_tree_insert rb env x.shared.ctx.visited f in
              let is_read = IsRead-entry os stdio digest s fe f readable fe_sized in
              let own = metadata_from_entry-opens os stdio fe s f readable in
              elim (Option-cases inserted.result) [
                | inl first ↦ (
                  (
                    record x.shared { ctx = record x.shared.ctx { visited = inserted.tree } },
                    looping,
                  ),
                  rw (dedup_work, readable, first),
                  record {
                    log = inv.log ++ (address, some pointer) ∷ [];
                    taken = inv.taken;
                    linear =
                        IsLinear-first rb os stdio env digest s L H inv.linear i (visiting fe) at fe
                          pointer address is_read own
                          (few_visits rb os stdio stailq env digest s Q L H few sized inv) first
                          refl;
                    accounts =
                        IsAccounted-done
                          (reading rb os stdio stailq env digest s Q L H few sized inv) inv.accounts
                          i (visiting fe) looping at (address, some pointer) refl refl
                          (λ e same.
                            ap (reading rb os stdio stailq env digest s Q L H few sized inv)
                              (sym same)
                            ∙ readable)
                          fe refl refl readable;
                    fifo = inv.fifo;
                  },
                )
                | inr (old, again) ↦ (
                  (
                    record x.shared { ctx = record x.shared.ctx { visited = inserted.tree } },
                    listing fe (record { address = address; target = inserted.fm }) old,
                  ),
                  rw (dedup_work, readable, again),
                  record {
                    log = inv.log;
                    taken = inv.taken;
                    linear =
                        IsLinear-again rb os stdio env digest s L H inv.linear i (visiting fe) at fe
                          pointer address is_read own
                          (few_visits rb os stdio stailq env digest s Q L H few sized inv) old
                          address again readable fe_sized refl;
                    accounts =
                        IsAccounted-keeps
                          (reading rb os stdio stailq env digest s Q L H few sized inv) inv.accounts
                          i (visiting fe)
                          (listing fe (record { address = address; target = inserted.fm }) old) at
                          refl (λ e h. h) refl;
                    fifo = inv.fifo;
                  },
                )
              ]
        ]

    Steps-listing :
        (fe : FileEntry) (fm : Pointer) (old : FileMetadata)
        → get_elem? x.workers i ≡ some (listing fe fm old)
        → Steps rb os stdio stailq env digest s Q L H few sized inv i address (listing fe fm old)
    unfolding dedup_work
    Steps-listing fe fm old at =
        let (f, readable, is_hashed, at_old, can, fe_sized) =
          inv.linear.known i (listing fe fm old) at in
        let is_read = IsRead-entry os stdio digest s fe f readable fe_sized in
        let own = metadata_from_entry-opens os stdio fe s f readable in
        let pointer : Pointer = record { address = fm.address; target = f } in
        let again : first_of rb digest inv.linear.seq f ≡ some old =
          first_of-view rb digest inv.linear.seq f can
          ∙ sym (inv.linear.seen (class_of f) (digest.of_path f.path))
          ∙ at_old in
        let (longer, run, lists, valid) =
          appended rb os stdio env digest s L H inv.linear i fe fm old at f is_hashed can is_read
            own address (few_visits rb os stdio stailq env digest s Q L H few sized inv) in
        (
          (
            record x.shared {
              ctx = record x.shared.ctx {
                duplicates =
                    (duplicate_tree_find rb x.shared.ctx.duplicates fm.target).write longer;
              };
            },
            counting fm.target old,
          ),
          rw (dedup_work, run),
          record {
            log = inv.log ++ (address, some pointer) ∷ [];
            taken = inv.taken;
            linear =
                IsLinear-listed rb os stdio env digest s L H inv.linear i fe fm old at f is_hashed
                  can is_read own address
                  (few_visits rb os stdio stailq env digest s Q L H few sized inv) again;
            accounts =
                IsAccounted-done (reading rb os stdio stailq env digest s Q L H few sized inv)
                  inv.accounts i (listing fe fm old) (counting fm.target old) at
                  (address, some pointer) refl refl
                  (λ e same.
                    ap (reading rb os stdio stailq env digest s Q L H few sized inv) (sym same)
                    ∙ readable)
                  fe refl refl readable;
            fifo = inv.fifo;
          },
        )

    -- No worker is ever stuck, and each step of a worker keeps the account.
    pub Steps-worker :
        (w : Worker)
        → get_elem? x.workers i ≡ some w
        → Steps rb os stdio stailq env digest s Q L H few sized inv i address w
    unfolding dedup_work
    Steps-worker starting at =
        Steps-starting rb os stdio stailq env digest s Q L H few sized inv i address at
    Steps-worker looping at =
        Steps-looping rb os stdio stailq env digest s Q L H few sized inv i address at
    Steps-worker idle at =
        Steps-idle rb os stdio stailq env digest s Q L H few sized inv i address at
    Steps-worker (visiting fe) at = Steps-visiting fe at
    Steps-worker (listing fe fm old) at = Steps-listing fe fm old at
    Steps-worker (counting g old) at = (
      (
        record x.shared {
          ctx = record x.shared.ctx { found = count_found old g x.shared.ctx.found };
        },
        looping,
      ),
      refl,
      record {
        log = inv.log;
        taken = inv.taken;
        linear = IsLinear-counted rb os stdio env digest s L H inv.linear i g old at;
        accounts =
            IsAccounted-keeps (reading rb os stdio stailq env digest s Q L H few sized inv)
              inv.accounts i (counting g old) looping at refl (λ fe h. h) refl;
        fifo = inv.fifo;
      },
    )
    Steps-worker exited at = (
      (x.shared, exited),
      refl,
      still rb os stdio stailq env digest s Q L H few sized inv i address exited exited at refl tt
          refl (λ fe h. h) refl,
    )
