-- ===== src/Symlink/Names.antt =====
-- Canonical paths by their names, and how the loops of `path_relative_to` read them.
use dedup.Prelude.{
  ℕ, zero, suc, ◌<◌, ◌≡◌, refl, ap, true, false, none, some, List, [], ◌∷◌, ◌++◌, arith, All,
  length, length-append, ◌==◌, Bool-cases, inl, inr,
}
use dedup.Metadata.{CString}
use dedup.Symlink.{slash, strchr_slash, split_slash, same_name, depth_loop}

-- A name in a canonical path: not empty, without a slash, and neither "." nor "..".
pub record IsName (n : CString) : Type 0 where
  pub bytes : 0 < length n
  pub no_slash : All (λ c. (c == slash) ≡ false) n
  pub not_dot : same_name n (b'.' ∷ []) ≡ false
  pub not_parent : same_name n (b'.' ∷ b'.' ∷ []) ≡ false

-- A path from its names.
abbrev pub render : List CString → CString
render [] = []
render (n ∷ []) = n
render (n ∷ m ∷ ns) = n ++ slash ∷ render (m ∷ ns)

pub split_slash_name :
    (n rest : CString)
    → All (λ c. (c == slash) ≡ false) n
    → split_slash (n ++ slash ∷ rest) ≡ some (n, rest)
unfolding split_slash
split_slash_name [] rest none_there = refl
split_slash_name (c ∷ cs) rest (other, others) = rw (other, split_slash_name cs rest others)

pub split_slash_last : (n : CString) → All (λ c. (c == slash) ≡ false) n → split_slash n ≡ none
unfolding split_slash
split_slash_last [] none_there = refl
split_slash_last (c ∷ cs) (other, others) = rw (other, split_slash_last cs others)

strchr_slash_name :
    (n rest : CString)
    → All (λ c. (c == slash) ≡ false) n
    → strchr_slash (n ++ slash ∷ rest) ≡ some (slash ∷ rest)
unfolding strchr_slash
strchr_slash_name [] rest none_there = refl
strchr_slash_name (c ∷ cs) rest (other, others) = rw other (strchr_slash_name cs rest others)

strchr_slash_last : (n : CString) → All (λ c. (c == slash) ≡ false) n → strchr_slash n ≡ none
unfolding strchr_slash
strchr_slash_last [] none_there = refl
strchr_slash_last (c ∷ cs) (other, others) = rw other (strchr_slash_last cs others)

pub same_name_eq : (n m : CString) → same_name n m ≡ true → n ≡ m
unfolding same_name
same_name_eq [] [] h = refl
same_name_eq [] (d ∷ ds) h = absurd (ground arith)
same_name_eq (c ∷ cs) [] h = absurd (ground arith)
same_name_eq (c ∷ cs) (d ∷ ds) h = elim (Bool-cases (c == d)) [
  | inl same ↦ ground (arith, same_name_eq cs ds (rw same at h))
  | inr differ ↦ absurd (ground (arith, rw differ at h))
]

-- The number of names is what the loop counts.
depth_loop_lem :
    (rounds x : ℕ) (n : CString) (ns : List CString)
    → All (λ c. (c == slash) ≡ false) n
    → All IsName ns
    → length ns < rounds
    → depth_loop rounds (x ∷ render (n ∷ ns)) ≡ suc (length ns)
unfolding depth_loop
depth_loop_lem zero x n ns plain names enough = absurd (omega arith)
depth_loop_lem (suc rounds) x n [] plain names enough = rw (depth_loop, strchr_slash_last n plain)
depth_loop_lem (suc rounds) x n (m ∷ ns) plain (name, names) enough =
    rw (depth_loop, strchr_slash_name n (render (m ∷ ns)) plain)
      (ap suc (depth_loop_lem rounds slash m ns name.no_slash names (omega arith)))

length-render :
    (n : CString) (ns : List CString) → All IsName (n ∷ ns) → length ns < length (render (n ∷ ns))
length-render n [] (name, names) = name.bytes
length-render n (m ∷ ns) (name, names) =
    omega (arith, length-append n (slash ∷ render (m ∷ ns)), length-render m ns names)

-- The number of names of a path that is left.
pub depth-render :
    (n : CString) (ns : List CString)
    → All IsName (n ∷ ns)
    → depth_loop (length (render (n ∷ ns))) (render (n ∷ ns)) ≡ suc (length ns)
depth-render [] ns (name, names) = absurd (omega (arith, name.bytes))
depth-render (c ∷ cs) [] (name, names) =
    depth_loop_lem (length (c ∷ cs)) c cs [] name.no_slash.1 tt (omega arith)
depth-render (c ∷ cs) (m ∷ ns) (name, names) =
    depth_loop_lem (length (render ((c ∷ cs) ∷ m ∷ ns))) c cs (m ∷ ns) name.no_slash.1 names
      (length-render (c ∷ cs) (m ∷ ns) (name, names))
