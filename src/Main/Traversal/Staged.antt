-- ===== src/Main/Traversal/Staged.antt =====
-- The names that `tmp_name` gives, against main's test for the name of a failed clone.
use mathlib.Core.Option.{some-injective}
use dedup.Prelude.{
  ℕ, zero, suc, ◌+◌, ◌-◌, ◌≤◌, ◌≡◌, ◌≢◌, refl, sym, ◌∙◌, ap, subst, Bool, true, false, ◌&&◌, some,
  [], ◌∷◌, ◌++◌, arith, ◌==◌, leb, length, length-append, take, Option-cases, Bool-cases, inl, inr,
}
use dedup.Prelude.Int.{pos, negsuc, ltb_ℤ}
use dedup.Metadata.{CString}
use dedup.Os.{Os, ◌>>=◌}
use dedup.Clone.{strlcat, staging_prefix, join_tmp, claim_name, tmp_name}
use dedup.Main.Options.{Options}
use dedup.Main.Traversal.{
  Volumes, is_clonefile_supported, Ftsent, new_traversal, fts_f, looks_staged, to_file_entry,
  traverse,
}
use dedup.Main.Traversal.Wanted.{traverse_lem, is_wanted, looks_staged-path_is_staged}

take-all : (n : ℕ) (xs : CString) → length xs ≤ n → take n xs ≡ xs
take-all zero [] small = refl
take-all zero (x ∷ xs) small = absurd (omega arith)
take-all (suc n) [] small = refl
take-all (suc n) (x ∷ xs) small = ap (λ ys. x ∷ ys) (take-all n xs (omega arith))

strlcat_lem :
    (dst src : CString) (size : ℕ)
    → leb size (strlcat dst src size).0 ≡ false
    → (strlcat dst src size).1 ≡ dst ++ src
strlcat_lem dst src size fits =
    take-all (size - 1) (dst ++ src) (ground (arith, length-append dst src))

-- The name of the staging file.
pub join_tmp_lem :
    (dir base : CString) (size : ℕ) (out : CString)
    → join_tmp dir base size ≡ some out
    → out ≡ (dir ++ staging_prefix) ++ base
unfolding join_tmp
join_tmp_lem dir base size out joined = elim (Bool-cases (leb size (0 + length dir))) [
  | inl long ↦ cc (rw (join_tmp, long) at joined)
  | inr first ↦
      let out1 : take (size - 1) dir ≡ dir = strlcat_lem [] dir size first in
      elim (Bool-cases (leb size (length dir + length staging_prefix))) [
        | inl long ↦ cc (rw (join_tmp, first, out1, long) at joined)
        | inr second ↦
            let out2 : take (size - 1) (dir ++ staging_prefix) ≡ dir ++ staging_prefix =
              strlcat_lem dir staging_prefix size second in
            elim (Bool-cases (leb size (length (dir ++ staging_prefix) + length base))) [
              | inl long ↦ cc (rw (join_tmp, first, out1, second, out2, long) at joined)
              | inr third ↦
                  let out3 = strlcat_lem (dir ++ staging_prefix) base size third in
                  some-injective _ _
                    (sym (rw (join_tmp, first, out1, second, out2, third, out3) at joined))
            ]
      ]
]

-- ".~."
abbrev pub begins_staged : CString → Bool
begins_staged (a ∷ b ∷ c ∷ rest) = a == b'.' && (b == b'~' && c == b'.')
begins_staged _ = false

looks_staged-dir :
    (dir base : CString)
    → begins_staged dir ≡ false
    → looks_staged ((dir ++ staging_prefix) ++ base) ≡ false
unfolding looks_staged
looks_staged-dir [] base other = refl
looks_staged-dir (a ∷ []) base other = ground arith
looks_staged-dir (a ∷ b ∷ []) base other = ground arith
looks_staged-dir (a ∷ b ∷ c ∷ []) base other = other
looks_staged-dir (a ∷ b ∷ c ∷ d ∷ rest) base other = other

module _ (os : Os) where
  claim_name_same :
      (name out : CString) (s : os.State) → (claim_name os name s).0 ≡ some out → name ≡ out
  unfolding claim_name
  claim_name_same name out s h = elim (Bool-cases ((os.access_f_ok name s).0 == 0)) [
    | inl taken ↦ cc (rw (claim_name, taken) at h)
    | inr free ↦ some-injective name out (rw (claim_name, free) at h)
  ]

  -- The name of no staging file passes the test, unless its directory does.
  tmp_name-looks_staged :
      (path dir : CString) (size : ℕ) (s : os.State) (out : CString)
      → (os.dirname_r path s).0 ≡ some dir
      → begins_staged dir ≡ false
      → (tmp_name os path size s).0 ≡ some out
      → looks_staged out ≡ false
  unfolding tmp_name
  tmp_name-looks_staged path dir size s out at_dir other named =
      let dir' = os.dirname_r path s in
      elim (Option-cases (os.basename_r path dir'.1).0) [
        | inl no_base ↦ cc (rw (at_dir, ◌>>=◌, no_base) at named)
        | inr (base, at_base) ↦ elim (Option-cases (join_tmp dir base size)) [
          | inl long ↦ cc (rw (at_dir, ◌>>=◌, at_base, ◌>>=◌, long) at named)
          | inr (joined, run) ↦
              let own : joined ≡ out =
                claim_name_same joined out _ (rw (at_dir, ◌>>=◌, at_base, ◌>>=◌, run) at named) in
              subst (λ p. looks_staged p ≡ false)
                (sym (join_tmp_lem dir base size joined run) ∙ own)
                (looks_staged-dir dir base other)
        ]
      ]

  -- The test for the name of a failed clone does not find one: a file at a name that `tmp_name` gave,
  -- in a directory that is not itself named so, is queued like any other regular file.
  pub staging_file-queued :
      (path dir : CString) (size : ℕ) (s : os.State) (volumes : Volumes) (o : Options)
      (entry : Ftsent)
      → (os.dirname_r path s).0 ≡ some dir
      → begins_staged dir ≡ false
      → (tmp_name os path size s).0 ≡ some entry.fts_path
      → entry.fts_errno ≡ 0
      → entry.fts_info ≡ fts_f
      → ltb_ℤ (pos (o.max_depth + 1)) entry.fts_level ≡ false
      → entry.st_size ≢ 0
      → entry.st_dev ≢ negsuc 0
      → is_clonefile_supported volumes entry.fts_path ≡ true
      → traverse volumes o (entry ∷ []) new_traversal ≡ to_file_entry entry ∷ []
  staging_file-queued path dir size s volumes o entry at_dir other named fine file level some_byte
        dev clones =
      let unseen =
        sym (looks_staged-path_is_staged entry.fts_path)
        ∙ tmp_name-looks_staged path dir size s entry.fts_path at_dir other named in
      let not_empty : (entry.st_size == 0) ≡ false = ground arith in
      let wanted : is_wanted (λ d. true) o entry ≡ true =
        ground (arith, unseen, fine, file, level, not_empty) in
      traverse_lem volumes (λ d. true) o (entry ∷ []) ((λ _. (clones, dev)), tt) ∙ rw wanted
