-- ===== src/Workers/Readings.antt =====
-- The files that a list of entries stands for, and the visits of entries as visits of these files.
use mathlib.Core.List.{Permᴰ}
use mathlib.Core.List.Permᴰ
use dedup.Prelude.{
  ℕ, ◌≡◌, refl, sym, ap, subst, Option, none, some, List, [], ◌∷◌, inl, inr, Option-cases, All,
}
use dedup.Rb.{RbTree}
use dedup.Metadata.{FileMetadata, Pointer}
use dedup.Entry.{FileEntry}
use dedup.Visited.Hashing.{Digests, hashed}
use dedup.Visit.Exact.{MetEntry, files}
use dedup.Workers.Accounts.{AreVisits}

module _ {ℓ} {A : Type 0} (P : A → Type ℓ) where
  pub All-perm : {xs ys : List A} → Permᴰ xs ys → All P xs → All P ys
  All-perm Permᴰ.nil all = tt
  All-perm (Permᴰ.cons e d) (x, all) = (subst P e x, All-perm d all)
  All-perm (Permᴰ.swap e e') (x, (y, all)) = (subst P e' y, (subst P e x, all))
  All-perm (Permᴰ.trans d d') all = All-perm d' (All-perm d all)

module _ (rb : RbTree) (digest : Digests) (reading : FileEntry → Option FileMetadata) where
  -- The files of the entries that can be read, with their digests.
  abbrev pub readings : List FileEntry → List FileMetadata
  readings [] = []
  readings (fe ∷ fes) = elim (reading fe) [
    | none ↦ readings fes
    | some f ↦ hashed digest f ∷ readings fes
  ]

  readings_swap :
      (a b : FileEntry) (fes : List FileEntry)
      → Permᴰ (readings (a ∷ b ∷ fes)) (readings (b ∷ a ∷ fes))
  readings_swap a b fes = elim (Option-cases (reading a)) [
    | inl unread ↦ elim (Option-cases (reading b)) [
      | inl unread' ↦ rw (readings, unread, unread', readings, unread) (Permᴰ.refl _)
      | inr (g, readable) ↦ rw (readings, unread, readable, readings, unread) (Permᴰ.refl _)
    ]
    | inr (f, readable) ↦ elim (Option-cases (reading b)) [
      | inl unread ↦ rw (readings, readable, unread, readable) (Permᴰ.refl _)
      | inr (g, readable') ↦ rw (readings, readable, readable', readable) (Permᴰ.swap refl refl)
    ]
  ]

  pub perm-readings :
      {fes ges : List FileEntry} → Permᴰ fes ges → Permᴰ (readings fes) (readings ges)
  perm-readings Permᴰ.nil = Permᴰ.nil
  perm-readings (Permᴰ.cons {a = a} e d) = elim (Option-cases (reading a)) [
    | inl unread ↦ rw (sym e, readings, unread) (perm-readings d)
    | inr (f, readable) ↦ rw (sym e, readings, readable) (Permᴰ.cons refl (perm-readings d))
  ]
  perm-readings (Permᴰ.swap {a = a} {b = b} {b' = b'} {l = l} e e') =
      subst (λ c. Permᴰ (readings (a ∷ b ∷ l)) (readings (c ∷ b' ∷ l))) e'
        (subst (λ c. Permᴰ (readings (a ∷ b ∷ l)) (readings (b ∷ c ∷ l))) e (readings_swap a b l))
  perm-readings (Permᴰ.trans d d') = Permᴰ.trans (perm-readings d) (perm-readings d')

  -- The visits of entries are visits of the files that can be read.
  pub files-readings :
      (log : List (ℕ × Option Pointer)) (fes : List FileEntry)
      → AreVisits reading log fes
      → files rb digest log ≡ readings fes
  files-readings [] [] all = refl
  files-readings [] (fe ∷ fes) all = elim all [ ]
  files-readings (visit ∷ log) [] all = elim all [ ]
  files-readings ((address, none) ∷ log) (fe ∷ fes) (of, all) =
      rw (of, readings) (files-readings log fes all)
  files-readings ((address, some fm) ∷ log) (fe ∷ fes) (of, all) =
      rw (of, readings) (ap (λ fs. hashed digest fm.target ∷ fs) (files-readings log fes all))

  module _ (Met : FileMetadata → Type 0) where
    -- What is known of the file of an entry, if it can be read.
    abbrev pub MetReading : FileEntry → Type 0
    MetReading fe = (f : FileMetadata) → reading fe ≡ some f → Met f

    pub AreVisits-MetEntry :
        (log : List (ℕ × Option Pointer)) (fes : List FileEntry)
        → AreVisits reading log fes
        → All MetReading fes
        → All (MetEntry rb digest Met) log
    AreVisits-MetEntry [] [] all met = tt
    AreVisits-MetEntry [] (fe ∷ fes) all met = elim all [ ]
    AreVisits-MetEntry (visit ∷ log) [] all met = elim all [ ]
    AreVisits-MetEntry ((address, none) ∷ log) (fe ∷ fes) (of, all) (m, met) =
        (tt, AreVisits-MetEntry log fes all met)
    AreVisits-MetEntry ((address, some fm) ∷ log) (fe ∷ fes) (of, all) (m, met) =
        (m fm.target of, AreVisits-MetEntry log fes all met)
