-- ===== src/Queue/Fifo.antt =====
-- What the queue does to the list of its entries.
use dedup.Prelude.{◌≡◌, ◌⊎◌, inl, inr, none, some, List, [], ◌∷◌, refl}
use dedup.Entry.{FileEntry}
use dedup.Queue.{Stailq, IsStailq, file_entry_next}

unfoldable pub List-cases {ℓ} :
    {A : Type ℓ} (xs : List A) → (xs ≡ []) ⊎ ((x : A) × (ys : List A) × (xs ≡ x ∷ ys))
List-cases [] = inl refl
List-cases (x ∷ xs) = inr (x, xs, refl)

module _ (stailq : Stailq) (Q : IsStailq stailq) (queue : stailq.Head) where
  -- The next entry is the first one, and is taken off; an empty queue has none.
  pub file_entry_next-entries :
      ((Q.entries queue ≡ []) × (file_entry_next stailq queue ≡ (none, queue)))
      ⊎ ((e : FileEntry) × (queue' : stailq.Head) × (file_entry_next stailq queue
            ≡ (some e, queue'))
          × (Q.entries queue ≡ e ∷ Q.entries queue'))
  unfolding file_entry_next
  file_entry_next-entries = elim (List-cases (Q.entries queue)) [
    | inl empty ↦ inl (empty, rw (file_entry_next, Q.empty queue empty))
    | inr (e, es, filled) ↦
        let (some_there, first, rest) = Q.filled queue e es filled in
        inr
          (e, stailq.stailq_remove queue e, rw (file_entry_next, some_there, first), rw rest filled)
  ]
