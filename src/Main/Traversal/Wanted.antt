-- ===== src/Main/Traversal/Wanted.antt =====
-- The entries that main queues, told without the device that it remembers.
use dedup.Prelude.{
  ltb, subst, length, suc, ◌≤◌, ◌+◌, ◌≡◌, ◌≢◌, ◌⊎◌, refl, sym, ◌∙◌, ap, Bool, true, false, not,
  ◌&&◌, ◌||◌, List, [], ◌∷◌, ◌++◌, All, arith, ◌==◌, Bool-cases, inl, inr, if◌then◌else◌,
}
use dedup.Prelude.Int.{ℤ, pos, negsuc, ltb_ℤ}
use dedup.Metadata.{CString}
use dedup.Entry.{FileEntry}
use dedup.Replacing.{is_clone_mode}
use dedup.Main.Options.{Options}
use dedup.Main.Traversal.{
  Volumes, is_clonefile_supported, Ftsent, Traversal, new_traversal, Verdict, passed_over, pruned,
  queued, FtsInfo, is_directory, is_fts_f, looks_staged, to_file_entry, same_dev, ask_volume,
  leaves_volume, judge, read_entry, traverse,
}

abbrev pub is_prefix : CString → CString → Bool
is_prefix [] path = true
is_prefix (c ∷ prefix) [] = false
is_prefix (c ∷ prefix) (d ∷ path) = d == c && is_prefix prefix path

-- The path begins with .~. and goes on. Whether the name of the file does so plays no part.
abbrev pub path_is_staged : CString → Bool
path_is_staged path = ltb 3 (length path) && is_prefix (b'.' ∷ b'~' ∷ b'.' ∷ []) path

pub looks_staged-path_is_staged : (path : CString) → looks_staged path ≡ path_is_staged path
unfolding looks_staged
looks_staged-path_is_staged [] = refl
looks_staged-path_is_staged (a ∷ []) = refl
looks_staged-path_is_staged (a ∷ b ∷ []) = ground arith
looks_staged-path_is_staged (a ∷ b ∷ c ∷ []) = ground arith
looks_staged-path_is_staged (a ∷ b ∷ c ∷ d ∷ rest) = ground arith

-- A regular file with a byte in it, of however many links, that can be read, is not too deep, whose
-- path does not begin with .~. and whose device can clone if clones are asked for.
abbrev pub is_wanted : (ℤ → Bool) → Options → Ftsent → Bool
is_wanted can_clone o entry =
    entry.fts_errno == 0
    && (not (ltb_ℤ (pos (o.max_depth + 1)) entry.fts_level)
        && ((not (is_clone_mode o.replace_mode) || can_clone entry.st_dev)
            && (is_fts_f entry.fts_info
                && (not (entry.st_size == 0) && not (path_is_staged entry.fts_path)))))

same_dev-eq : (a b : ℤ) → same_dev a b ≡ true → a ≡ b
same_dev-eq (pos a) (pos b) h = ap pos (ground arith)
same_dev-eq (pos a) (negsuc b) h = absurd (ground arith)
same_dev-eq (negsuc a) (pos b) h = absurd (ground arith)
same_dev-eq (negsuc a) (negsuc b) h = ap negsuc (ground arith)

file-not_directory : (info : FtsInfo) → is_fts_f info ≡ true → is_directory info ≡ false
file-not_directory info file = ground arith

-- The entries that are wanted, as `file_entry_queue_append` takes them.
abbrev pub wanted_entries : (ℤ → Bool) → Options → List Ftsent → List FileEntry
wanted_entries can_clone o [] = []
wanted_entries can_clone o (entry ∷ entries) =
    if is_wanted can_clone o entry
    then to_file_entry entry ∷ wanted_entries can_clone o entries
    else wanted_entries can_clone o entries

module _ (volumes : Volumes) (can_clone : ℤ → Bool) (o : Options) where
  -- What the volume of the entry answers depends on the device only, and no device is -1.
  abbrev pub IsOnDevice : Ftsent → Type 0
  IsOnDevice entry =
      (is_clonefile_supported volumes entry.fts_path ≡ can_clone entry.st_dev)
      × (entry.st_dev ≢ negsuc 0)

  -- What is remembered is the answer for the device, unless none was asked for.
  abbrev Remembers : Traversal → Type 0
  Remembers t = (t.current_dev ≡ negsuc 0) ⊎ (t.clonefile_supported ≡ can_clone t.current_dev)

  ask_volume-Remembers :
      (entry : Ftsent) (t : Traversal)
      → IsOnDevice entry
      → Remembers t
      → Remembers (ask_volume volumes o entry t)
        × (is_clone_mode o.replace_mode ≡ true
            → (ask_volume volumes o entry t).clonefile_supported ≡ can_clone entry.st_dev)
  unfolding ask_volume
  ask_volume-Remembers entry t on remembers = elim (Bool-cases (is_clone_mode o.replace_mode)) [
    | inr other ↦ rw other (remembers, λ clone. absurd (ground arith))
    | inl clone ↦ elim (Bool-cases (same_dev t.current_dev entry.st_dev)) [
      | inr moved ↦ rw (clone, moved) (inr on.0, λ yes. on.0)
      | inl same ↦
          let here : t.current_dev ≡ entry.st_dev = same_dev-eq t.current_dev entry.st_dev same in
          rw (clone, same)
            (
              remembers,
              λ yes. elim remembers [
                | inl none_asked ↦ absurd (on.1 (sym here ∙ none_asked))
                | inr known ↦ known ∙ ap can_clone here
              ],
            )
    ]
  ]

  -- The entry, if it is queued.
  abbrev to_list : Verdict → List FileEntry
  to_list verdict = elim verdict [ queued fe ↦ fe ∷ [] | _ ↦ [] ]

  -- The tests after the volume was asked.
  judged :
      (entry : Ftsent) (t t' : Traversal)
      → (is_clone_mode o.replace_mode ≡ true → t'.clonefile_supported ≡ can_clone entry.st_dev)
      → to_list (if leaves_volume o entry t t' then pruned else judge o entry t') ≡ (
          if (not (is_clone_mode o.replace_mode) || can_clone entry.st_dev)
            && (is_fts_f entry.fts_info
                && (not (entry.st_size == 0) && not (path_is_staged entry.fts_path)))
          then to_file_entry entry ∷ []
          else [])
  unfolding leaves_volume judge
  judged entry t t' answer =
      rw (sym (looks_staged-path_is_staged entry.fts_path))
        (elim (Bool-cases (is_clone_mode o.replace_mode)) [
          | inr other ↦ rw other (ground (arith, file-not_directory entry.fts_info))
          | inl clone ↦ rw (clone, answer clone) (ground (arith, file-not_directory entry.fts_info))
        ])

  -- One entry: it is queued if it is wanted, and what is remembered stays true.
  read_entry_lem :
      (entry : Ftsent) (t : Traversal)
      → (entry.fts_errno ≡ 0 → IsOnDevice entry)
      → Remembers t
      → Remembers (read_entry volumes o entry t).1
        × (to_list (read_entry volumes o entry t).0
            ≡ (if is_wanted can_clone o entry then to_file_entry entry ∷ [] else []))
  unfolding read_entry
  read_entry_lem entry t on remembers = elim (Bool-cases (entry.fts_errno == 0)) [
    | inr error ↦ rw error (remembers, refl)
    | inl fine ↦ elim (Bool-cases (ltb_ℤ (pos (o.max_depth + 1)) entry.fts_level)) [
      | inl deep ↦ rw (fine, deep) (remembers, refl)
      | inr shallow ↦
          let (remembers', answer) = ask_volume-Remembers entry t (on (ground arith)) remembers in
          let verdict = judged entry t (ask_volume volumes o entry t) answer in
          elim (Bool-cases (leaves_volume o entry t (ask_volume volumes o entry t))) [
            | inl leaves ↦ rw (fine, shallow, leaves) (remembers', rw leaves at verdict)
            | inr stays ↦ rw (fine, shallow, stays) (remembers', rw stays at verdict)
          ]
    ]
  ]

  abbrev AllOnDevice : List Ftsent → Type 0
  AllOnDevice entries = All (λ (entry : Ftsent). entry.fts_errno ≡ 0 → IsOnDevice entry) entries

  added :
      (verdict : Verdict) (rest : List FileEntry)
      → elim verdict [ queued fe ↦ fe ∷ rest | _ ↦ rest ] ≡ to_list verdict ++ rest
  added passed_over rest = refl
  added pruned rest = refl
  added (queued fe) rest = refl

  traverse-Remembers :
      (entries : List Ftsent) (t : Traversal)
      → AllOnDevice entries
      → Remembers t
      → traverse volumes o entries t ≡ wanted_entries can_clone o entries
  unfolding traverse
  traverse-Remembers [] t on remembers = refl
  traverse-Remembers (entry ∷ entries) t (on, ons) remembers =
      let (remembers', one) = read_entry_lem entry t on remembers in
      let rest = traverse-Remembers entries (read_entry volumes o entry t).1 ons remembers' in
      added (read_entry volumes o entry t).0 _
      ∙ ap (λ es. es ++ traverse volumes o entries (read_entry volumes o entry t).1) one
      ∙ ap (λ es. (if is_wanted can_clone o entry then to_file_entry entry ∷ [] else []) ++ es) rest
      ∙ ground arith

  -- If the answer of a volume depends only on the device of the entry, and no device is -1, main
  -- queues exactly the entries that are regular files with a byte in them, can be read, are not too
  -- deep, whose path is not .~. with more behind it (whatever the name of the file is, and however
  -- many links it has), and that are on a device that can clone if clones are asked for, in their
  -- order, although it asks a volume only when the device changes.
  pub traverse_lem :
      (entries : List Ftsent)
      → AllOnDevice entries
      → traverse volumes o entries new_traversal ≡ wanted_entries can_clone o entries
  traverse_lem entries on = traverse-Remembers entries new_traversal on (inl refl)

-- No more is queued than fts(3) gives.
pub length-traverse :
    (volumes : Volumes) (o : Options) (entries : List Ftsent) (t : Traversal)
    → length (traverse volumes o entries t) ≤ length entries
unfolding traverse
length-traverse volumes o [] t = omega arith
length-traverse volumes o (entry ∷ entries) t =
    let rest = length-traverse volumes o entries (read_entry volumes o entry t).1 in
    elim (read_entry volumes o entry t).0
      as (λ v.
        length (elim v as (λ _. List FileEntry) [
          | queued fe ↦ fe ∷ traverse volumes o entries (read_entry volumes o entry t).1
          | _ ↦ traverse volumes o entries (read_entry volumes o entry t).1
        ])
        ≤ suc (length entries)) [
          | passed_over ↦ omega (arith, rest)
          | pruned ↦ omega (arith, rest)
          | queued fe ↦ omega (arith, rest)
        ]

-- What is queued is an entry that fts(3) gave.
read_entry-queued :
    (volumes : Volumes) (o : Options) (entry : Ftsent) (t : Traversal) (fe : FileEntry)
    → (read_entry volumes o entry t).0 ≡ queued fe
    → fe ≡ to_file_entry entry
unfolding read_entry judge
read_entry-queued volumes o entry t fe is = ground arith

All-verdict {ℓ} :
    (P : FileEntry → Type ℓ) (verdict : Verdict) (rest : List FileEntry)
    → ((fe : FileEntry) → verdict ≡ queued fe → P fe)
    → All P rest
    → All P (elim verdict as (λ _. List FileEntry) [ queued fe ↦ fe ∷ rest | _ ↦ rest ])
All-verdict P passed_over rest one all = all
All-verdict P pruned rest one all = all
All-verdict P (queued fe) rest one all = (one fe refl, all)

pub traverse-All {ℓ} :
    (P : FileEntry → Type ℓ) (volumes : Volumes) (o : Options) (entries : List Ftsent)
    (t : Traversal)
    → All (λ (entry : Ftsent). P (to_file_entry entry)) entries
    → All P (traverse volumes o entries t)
unfolding traverse
traverse-All P volumes o [] t all = tt
traverse-All P volumes o (entry ∷ entries) t (one, all) =
    All-verdict P (read_entry volumes o entry t).0 _
      (λ fe is. subst P (sym (read_entry-queued volumes o entry t fe is)) one)
      (traverse-All P volumes o entries (read_entry volumes o entry t).1 all)
