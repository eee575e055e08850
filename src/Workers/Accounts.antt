-- ===== src/Workers/Accounts.antt =====
-- Where each queued entry is: visited, in the hands of a worker, or still in the queue.
use mathlib.Core.List.Memᴰ
use mathlib.Core.List.{Memᴰ, Permᴰ, append_assoc}
use mathlib.Core.List.Permᴰ
use dedup.Prelude.{
  ℕ, ◌+◌, ◌≡◌, refl, sym, subst, Option, none, some, List, [], ◌∷◌, ◌++◌, false, arith, inl, inr,
  ◌⊎◌, length, length-append, get_elem?, set,
}
use dedup.Metadata.{FileMetadata, Pointer}
use dedup.Entry.{FileEntry}
use dedup.Workers.{Worker, visiting, listing}
use dedup.Workers.Hands.{hand, hands, hands-set_same, hands-set_free, hands-set_take}
use dedup.Workers.Flight.{total, total-set, get_elem?-set_self, get_elem?-unset, held}

-- What stands in the queue for an entry: the field that main does not set is cleared.
abbrev pub queued : FileEntry → FileEntry
queued fe = record fe { acls_supported = false }

abbrev pub Holds : Worker → FileEntry → Type 0
Holds (visiting e) fe = e ≡ fe
Holds (listing e fm old) fe = e ≡ fe
Holds w fe = ⊥

module _ (read : FileEntry → Option FileMetadata) where
  -- A visit is that of an entry.
  abbrev pub IsVisitOf : FileEntry → ℕ × Option Pointer → Type 0
  IsVisitOf fe (address, none) = read fe ≡ none
  IsVisitOf fe (address, some fm) = read fe ≡ some fm.target

  abbrev pub IsDone : List (ℕ × Option Pointer) → FileEntry → Type 0
  IsDone log fe = (visit : ℕ × Option Pointer) × Memᴰ visit log × IsVisitOf fe visit

  abbrev pub IsInHand : List Worker → FileEntry → Type 0
  IsInHand ws fe = (i : ℕ) × (w : Worker) × (get_elem? ws i ≡ some w) × Holds w fe

  -- The visits are those of the entries, one by one.
  abbrev pub AreVisits : List (ℕ × Option Pointer) → List FileEntry → Type 0
  AreVisits [] [] = Unit
  AreVisits (visit ∷ log) (fe ∷ es) = IsVisitOf fe visit × AreVisits log es
  AreVisits _ _ = ⊥

  AreVisits-append :
      (log : List (ℕ × Option Pointer)) (es : List FileEntry) (visit : ℕ × Option Pointer)
      (fe : FileEntry)
      → AreVisits log es
      → IsVisitOf fe visit
      → AreVisits (log ++ visit ∷ []) (es ++ fe ∷ [])
  AreVisits-append [] [] visit fe all one = (one, tt)
  AreVisits-append [] (e ∷ es) visit fe all one = elim all [ ]
  AreVisits-append (v ∷ log) [] visit fe all one = elim all [ ]
  AreVisits-append (v ∷ log) (e ∷ es) visit fe (of, all) one =
      (of, AreVisits-append log es visit fe all one)

  -- The entries that were taken, and the visits done.
  pub record IsAccounted (taken : List FileEntry) (log : List (ℕ × Option Pointer))
      (ws : List Worker) : Type 0 where
    pub each : (fe : FileEntry) → Memᴰ fe taken → IsDone log fe ⊎ IsInHand ws fe
    pub count : length log + total held ws ≡ length taken
    -- The entries of the visits in their order, which with those in hand are the ones taken.
    pub entries : List FileEntry
    pub of_entries : AreVisits log entries
    pub perm : Permᴰ (entries ++ hands ws) taken

  module _ {taken : List FileEntry} {log : List (ℕ × Option Pointer)} {ws : List Worker}
      (acc : IsAccounted taken log ws) (i : ℕ) (w w' : Worker) (at : get_elem? ws i ≡ some w) where
    moves :
        (log' : List (ℕ × Option Pointer)) (fe : FileEntry)
        → ((e : FileEntry) → IsDone log e → IsDone log' e)
        → (Holds w fe → IsDone log' fe ⊎ Holds w' fe)
        → IsDone log fe ⊎ IsInHand ws fe
        → IsDone log' fe ⊎ IsInHand (set ws i w') fe
    moves log' fe more one (inl done) = inl (more fe done)
    moves log' fe more one (inr (j, v, at_j, holds)) =
        elim (get_elem?-unset ws i j w v w' at at_j) [
          | inr there ↦ inr (j, v, there, holds)
          | inl (same, here) ↦ elim (one (subst (λ x. Holds x fe) (sym same) holds)) [
            | inl done ↦ inl done
            | inr still ↦ inr (i, w', here, still)
          ]
        ]

    -- A step by which a worker keeps what it has in hand.
    pub IsAccounted-keeps :
        held w' ≡ held w
        → ((fe : FileEntry) → Holds w fe → Holds w' fe)
        → hand w' ≡ hand w
        → IsAccounted taken log (set ws i w')
    IsAccounted-keeps same one same_hand = record {
      entries = acc.entries;
      of_entries = acc.of_entries;
      perm =
          Permᴰ.trans (Permᴰ.append_left acc.entries (hands-set_same ws i w w' at same_hand))
            acc.perm;
      each = λ fe m. moves log fe (λ e done. done) (λ h. inr (one fe h)) (acc.each fe m);
      count = omega (arith, total-set held ws i w w' at, acc.count);
    }

    -- A step by which a visit is done.
    pub IsAccounted-done :
        (visit : ℕ × Option Pointer)
        → held w ≡ 1
        → held w' ≡ 0
        → ((fe : FileEntry) → Holds w fe → IsVisitOf fe visit)
        → (e : FileEntry) → hand w ≡ e ∷ []
        → hand w' ≡ []
        → IsVisitOf e visit
        → IsAccounted taken (log ++ visit ∷ []) (set ws i w')
    IsAccounted-done visit one none_left is e was now of_e = record {
      entries = acc.entries ++ e ∷ [];
      of_entries = AreVisits-append log acc.entries visit e acc.of_entries of_e;
      perm =
          Permᴰ.trans
            (subst (λ es. Permᴰ es (acc.entries ++ hands ws))
              (sym (append_assoc acc.entries (e ∷ []) (hands (set ws i w'))))
              (Permᴰ.append_left acc.entries (Permᴰ.symm (hands-set_free ws i w w' e at was now))))
            acc.perm;
      each = λ fe m.
          moves (log ++ visit ∷ []) fe
            (λ e (v, there, of). (v, Memᴰ.append_left (visit ∷ []) there, of))
            (λ h. inl (visit, Memᴰ.append_right log (Memᴰ.head refl), is fe h)) (acc.each fe m);
      count =
          omega (arith, total-set held ws i w w' at, acc.count, length-append {0} log (visit ∷ []));
    }

    -- A step by which a worker takes an entry.
    pub IsAccounted-takes :
        (e : FileEntry)
        → held w ≡ 0
        → held w' ≡ 1
        → ((fe : FileEntry) → ¬ (Holds w fe))
        → Holds w' e
        → hand w ≡ []
        → hand w' ≡ e ∷ []
        → IsAccounted (taken ++ e ∷ []) log (set ws i w')
    IsAccounted-takes e free one none_held holds was now = record {
      entries = acc.entries;
      of_entries = acc.of_entries;
      perm = Permᴰ.trans (Permᴰ.append_left acc.entries (hands-set_take ws i w w' e at was now)) (
          Permᴰ.trans (Permᴰ.middle e acc.entries (hands ws))
            (Permᴰ.trans (Permᴰ.cons refl acc.perm) (Permᴰ.append_comm (e ∷ []) taken)));
      each = λ fe m. elim (Memᴰ.append_cases taken m) [
        | inl before ↦
            moves log fe (λ x done. done) (λ h. absurd (none_held fe h)) (acc.each fe before)
        | inr last ↦ inr (
          i,
          w',
          get_elem?-set_self ws i w w' at,
          subst (Holds w') (sym (Memᴰ.eq_of_singleton last)) holds,
        )
      ];
      count =
          omega (arith, total-set held ws i w w' at, acc.count, length-append {0} taken (e ∷ []));
    }
