-- ===== src/Workers/Run.antt =====
-- Every state that the threads reach, against a sequence of whole visits.
use mathlib.Core.List.{append_assoc}
use dedup.Prelude.{
  All, [], ℕ, suc, ◌+◌, ◌*◌, ◌^◌, ◌<◌, ◌≡◌, refl, sym, ◌∙◌, ap, Option, some, List, [], ◌∷◌, ◌++◌,
  map, arith, inl, length, length-append,
}
use dedup.Rb.{RbTree, IsRbTree}
use dedup.Metadata.{FileMetadata, Digester, Pointer, sha_is_empty, empty_sha256}
use dedup.Os.{Os}
use dedup.Entry.{FileEntry, Stdio, metadata_from_entry}
use dedup.Entry.Ends.{metadata_from_entry-sha256, metadata_from_entry-size}
use dedup.Rb.Order.{memcmp_self}
use dedup.Queue.{Stailq, IsStailq, file_entry_queue_append}
use dedup.Visited.Hashing.{Digests, IsHashing, IsRead}
use dedup.Workers.{System}
use dedup.Workers.Linear.{IsSized, IsLinear}
use dedup.Workers.Accounts.{queued, IsAccounted}

pub length-map {ℓ} : {A B : Type ℓ} (f : A → B) (xs : List A) → length (map f xs) ≡ length xs
length-map f [] = refl
length-map f (x ∷ xs) = ap suc (length-map f xs)

pub IsRead-entry :
    (os : Os) (stdio : Stdio os.State) (digest : Digests) (s : os.State) (fe : FileEntry)
    (f : FileMetadata)
    → metadata_from_entry os stdio fe s ≡ some f
    → IsSized digest fe
    → IsRead digest f
unfolding sha_is_empty
IsRead-entry os stdio digest s fe f readable sized =
    let (size, path) = metadata_from_entry-size os stdio fe s f readable in
    (
      size ∙ sized ∙ ap (λ p. length (digest.content p)) (sym path),
      inl (rw (metadata_from_entry-sha256 os stdio fe s f readable, memcmp_self 32 empty_sha256)),
    )

pub queued-IsSized :
    (digest : Digests) (all : List FileEntry)
    → All (IsSized digest) all
    → All (IsSized digest) (map queued all)
queued-IsSized digest [] sized = tt
queued-IsSized digest (fe ∷ all) (one, rest) = (one, queued-IsSized digest all rest)

pub All-right {ℓ} : {A : Type 0} (P : A → Type ℓ) (xs ys : List A) → All P (xs ++ ys) → All P ys
All-right P [] ys all = all
All-right P (x ∷ xs) ys (one, rest) = All-right P xs ys rest

module _ (rb : RbTree) (os : Os) (stdio : Stdio os.State) (stailq : Stailq) (env : Digester)
    (digest : Digests) (s : os.State) (Q : IsStailq stailq) where
  abbrev pub read : FileEntry → Option FileMetadata
  read fe = metadata_from_entry os stdio fe s

  -- The visits that were done, in an order that explains the trees; the entries that workers took
  -- are the first ones that main queued, and each is visited or in the hands of a worker.
  pub record IsRun (all : List FileEntry) (x : System rb os stdio stailq) : Type 0 where
    pub log : List (ℕ × Option Pointer)
    pub taken : List FileEntry
    pub linear : IsLinear rb os stdio env digest s log x.shared.ctx x.workers
    pub accounts : IsAccounted read taken log x.workers
    pub fifo : map queued all ≡ taken ++ (Q.entries x.shared.queue ++ map queued x.todo)

  module _ (L : IsRbTree rb) (H : IsHashing env digest) {all : List FileEntry}
      (few : length all < 2 ^ 57) {x : System rb os stdio stailq} (inv : IsRun all x) where
    pub small : 2 * length inv.log + 1 < 2 ^ 59
    small = omega (
      arith,
      few,
      length-map queued all,
      ap length inv.fifo,
      length-append {0} inv.taken (Q.entries x.shared.queue ++ map queued x.todo),
      inv.accounts.count,
    )

    pub IsRun-append :
        (fe : FileEntry) (rest : List FileEntry)
        → x.todo ≡ fe ∷ rest
        → IsRun all (record x {
          shared = record x.shared {
            queue =
                file_entry_queue_append stailq x.shared.queue fe.path fe.device fe.inode fe.nlink
                  fe.flags fe.size fe.level;
          };
          todo = rest;
        })
    unfolding file_entry_queue_append
    IsRun-append fe rest todo = record {
      log = inv.log;
      taken = inv.taken;
      linear = inv.linear;
      accounts = inv.accounts;
      fifo =
          inv.fifo
          ∙ ap (λ t. inv.taken ++ (Q.entries x.shared.queue ++ map queued t)) todo
          ∙ ap (λ es. inv.taken ++ es)
              (sym (append_assoc (Q.entries x.shared.queue) (queued fe ∷ []) (map queued rest))
                ∙ ap (λ es. es ++ map queued rest)
                    (sym (Q.entries-insert x.shared.queue (queued fe))));
    }
