-- ===== src/Queue.antt =====
-- queue.c, queue.h: the queue between main and the workers, over the macros of sys/queue.h.
pub mod Fifo
use dedup.Prelude.{ℕ, ◌≡◌, Bool, true, false, Option, none, some, List, [], ◌∷◌, ◌++◌}
use dedup.Prelude.Int.{ℤ}
use dedup.Metadata.{CString}
use dedup.Entry.{FileEntry}

-- The macros of a singly linked tail queue. An element that is removed is the one pointed to.
pub record Stailq : Type 1 where
  pub Head : Type 0
  pub stailq_init : Head
  pub stailq_empty : Head → Bool
  pub stailq_first : Head → Option FileEntry
  pub stailq_insert_tail : Head → FileEntry → Head
  pub stailq_remove : Head → FileEntry → Head

-- What their manual page says of the elements, from the head to the tail.
pub record IsStailq (stailq : Stailq) : Type 0 where
  pub entries : stailq.Head → List FileEntry
  pub entries-init : entries stailq.stailq_init ≡ []
  pub empty : (h : stailq.Head) → entries h ≡ [] → stailq.stailq_empty h ≡ true
  pub filled :
      (h : stailq.Head) (e : FileEntry) (es : List FileEntry)
      → entries h ≡ e ∷ es
      → (stailq.stailq_empty h ≡ false)
        × (stailq.stailq_first h ≡ some e)
        × (entries (stailq.stailq_remove h e) ≡ es)
  pub entries-insert :
      (h : stailq.Head) (e : FileEntry)
      → entries (stailq.stailq_insert_tail h e) ≡ entries h ++ e ∷ []

module _ (stailq : Stailq) where
  unfoldable pub new_file_entry_queue : stailq.Head
  new_file_entry_queue = stailq.stailq_init

  unfoldable pub file_entry_queue_append :
      stailq.Head → CString → ℤ → ℕ → ℕ → ℕ → ℕ → ℤ → stailq.Head
  file_entry_queue_append queue path device inode nlink flags size level =
      stailq.stailq_insert_tail queue (record {
        path = path;
        device = device;
        inode = inode;
        nlink = nlink;
        flags = flags;
        size = size;
        acls_supported = false;
        level = level;
      })

  -- The entry that it returns, or NULL, and the queue.
  unfoldable pub file_entry_next : stailq.Head → Option FileEntry × stailq.Head
  file_entry_next queue = elim (stailq.stailq_empty queue) [
    | true ↦ (none, queue)
    | false ↦ elim (stailq.stailq_first queue) [
      | none ↦ (none, queue)
      | some e ↦ (some e, stailq.stailq_remove queue e)
    ]
  ]
