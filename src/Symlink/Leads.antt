-- ===== src/Symlink/Leads.antt =====
-- Where the path that `path_relative_to` returns leads.
use dedup.Prelude.{
  ℕ, zero, suc, ◌+◌, ◌-◌, ◌*◌, ◌≤◌, ◌<◌, ◌≡◌, refl, sym, ◌∙◌, ap, subst, some, List, [], ◌∷◌, ◌++◌,
  arith, All, length, Bool-cases, inl, inr, length-append,
}
use dedup.Metadata.{CString}
use dedup.Os.{Os, ◌>>=◌}
use dedup.Symlink.{
  path_relative_to, path_max, within_buffer, slash, same_name, consume_common, depth_loop, parents,
  relative_path,
}
use dedup.Symlink.Names.{
  IsName, render, split_slash_name, split_slash_last, same_name_eq, depth-render,
}

-- The walk along a relative path, from a directory to a file. Both are the names above them, the
-- nearest first.
pub data Leads (file : List CString) : List CString → CString → Type 0 where
  up :
      (name : CString) (above : List CString) (rest : CString)
      → Leads file above rest
      → Leads file (name ∷ above) (b'.' ∷ b'.' ∷ b'/' ∷ rest)
  down :
      (dir : List CString) (name rest : CString)
      → IsName name
      → Leads file (name ∷ dir) rest
      → Leads file dir (name ++ slash ∷ rest)
  arrives :
      (dir : List CString) (name : CString) → IsName name → file ≡ name ∷ dir → Leads file dir name

-- The directory in which the file of these names stands, and the file.
abbrev pub directory : List CString → List CString → List CString
directory above [] = above
directory above (n ∷ []) = above
directory above (n ∷ m ∷ ns) = directory (n ∷ above) (m ∷ ns)

abbrev pub below : List CString → List CString → List CString
below above [] = above
below above (n ∷ ns) = below (n ∷ above) ns

Leads-down :
    (dir : List CString) (n : CString) (ns : List CString)
    → All IsName (n ∷ ns)
    → Leads (below dir (n ∷ ns)) dir (render (n ∷ ns))
Leads-down dir n [] (name, names) = arrives dir n name refl
Leads-down dir n (m ∷ ns) (name, names) =
    down dir n (render (m ∷ ns)) name (Leads-down (n ∷ dir) m ns names)

parents_swap :
    (k : ℕ) (rest : CString)
    → parents k ++ b'.' ∷ b'.' ∷ b'/' ∷ rest ≡ b'.' ∷ b'.' ∷ b'/' ∷ (parents k ++ rest)
unfolding parents
parents_swap zero rest = refl
parents_swap (suc k) rest = ap (λ p. b'.' ∷ b'.' ∷ b'/' ∷ p) (parents_swap k rest)

-- Up through the directories of a path, all but its last name.
Leads-up :
    (dir : List CString) (n : CString) (ns : List CString) (rest : CString) (file : List CString)
    → Leads file dir rest
    → Leads file (directory dir (n ∷ ns)) (parents (length ns) ++ rest)
unfolding parents
Leads-up dir n [] rest file leads = leads
Leads-up dir n (m ∷ ns) rest file leads =
    subst (Leads file (directory (n ∷ dir) (m ∷ ns))) (parents_swap (length ns) rest)
      (Leads-up (n ∷ dir) m ns (b'.' ∷ b'.' ∷ b'/' ∷ rest) file (up n dir rest leads))

-- What the loop leaves of two paths is what follows some names that they begin with.
pub record IsRest (src dst : List CString) (above : List CString) (o : CString × CString)
    : Type 0 where
  pub common : List CString
  pub s : CString
  pub ss : List CString
  pub d : CString
  pub ds : List CString
  pub src_rest : o.0 ≡ render (s ∷ ss)
  pub dst_rest : o.1 ≡ render (d ∷ ds)
  pub src_names : All IsName (s ∷ ss)
  pub dst_names : All IsName (d ∷ ds)
  pub from : directory above src ≡ directory common (s ∷ ss)
  pub to : below above dst ≡ below common (d ∷ ds)
  pub fewer : length (s ∷ ss) ≤ length src
  pub shorter : length (render (d ∷ ds)) ≤ length (render dst)

-- Where the loop stops at once.
stops :
    (above : List CString) (s : CString) (ss : List CString) (d : CString) (ds : List CString)
    → All IsName (s ∷ ss)
    → All IsName (d ∷ ds)
    → IsRest (s ∷ ss) (d ∷ ds) above (render (s ∷ ss), render (d ∷ ds))
stops above s ss d ds names names' = record {
  common = above;
  s = s;
  ss = ss;
  d = d;
  ds = ds;
  src_rest = refl;
  dst_rest = refl;
  src_names = names;
  dst_names = names';
  from = refl;
  to = refl;
  fewer = omega arith;
  shorter = omega arith;
}

IsRest-below :
    (above : List CString) (n s d : CString) (ss ds : List CString) (o : CString × CString)
    → n ≡ d
    → IsRest ss ds (n ∷ above) o
    → directory above (s ∷ ss) ≡ directory (n ∷ above) ss
    → length (render ds) ≤ length (render (d ∷ ds))
    → IsRest (s ∷ ss) (d ∷ ds) above o
IsRest-below above n s d ss ds o same rest goes less = record {
  common = rest.common;
  s = rest.s;
  ss = rest.ss;
  d = rest.d;
  ds = rest.ds;
  src_rest = rest.src_rest;
  dst_rest = rest.dst_rest;
  src_names = rest.src_names;
  dst_names = rest.dst_names;
  from = goes ∙ rest.from;
  to = ap (λ m. below (m ∷ above) ds) (sym same) ∙ rest.to;
  fewer = omega (arith, rest.fewer);
  shorter = omega (arith, rest.shorter);
}

consume_common-IsRest :
    (rounds : ℕ) (above : List CString) (s : CString) (ss : List CString) (d : CString)
    (ds : List CString)
    → All IsName (s ∷ ss)
    → All IsName (d ∷ ds)
    → IsRest (s ∷ ss) (d ∷ ds) above (consume_common rounds (render (s ∷ ss)) (render (d ∷ ds)))
unfolding consume_common
consume_common-IsRest zero above s ss d ds names names' = stops above s ss d ds names names'
consume_common-IsRest (suc rounds) above s [] d ds names names' =
    rw (consume_common, split_slash_last s names.0.no_slash) (stops above s [] d ds names names')
consume_common-IsRest (suc rounds) above s (s' ∷ ss) d [] names names' =
    rw
      (
        consume_common,
        split_slash_name s (render (s' ∷ ss)) names.0.no_slash,
        split_slash_last d names'.0.no_slash,
      )
      (stops above s (s' ∷ ss) d [] names names')
consume_common-IsRest (suc rounds) above s (s' ∷ ss) d (d' ∷ ds) (name, names) (name', names') =
    let split = split_slash_name s (render (s' ∷ ss)) name.no_slash in
    let split' = split_slash_name d (render (d' ∷ ds)) name'.no_slash in
    elim (Bool-cases (same_name s d)) [
      | inl same ↦
          rw (consume_common, split, split', same)
            (IsRest-below above s s d (s' ∷ ss) (d' ∷ ds) _ (same_name_eq s d same)
              (consume_common-IsRest rounds (s ∷ above) s' ss d' ds names names') refl
              (omega (arith, length-append d (slash ∷ render (d' ∷ ds)))))
      | inr differ ↦
          rw (consume_common, split, split', differ)
            (stops above s (s' ∷ ss) d (d' ∷ ds) (name, names) (name', names'))
    ]

length-parents : (k : ℕ) → length (parents k) ≡ 3 * k
unfolding parents
length-parents zero = refl
length-parents (suc k) = omega (arith, length-parents k)

-- The path that is written for two canonical paths leads from the directory of the first to the
-- file of the second, and the buffer has room for it.
relative_path-Leads :
    (s : CString) (ss : List CString) (d : CString) (ds : List CString)
    → All IsName (s ∷ ss)
    → All IsName (d ∷ ds)
    → 3 * length ss + length (render (d ∷ ds)) < path_max
    → (path : CString) × (relative_path (slash ∷ render (s ∷ ss)) (slash ∷ render (d ∷ ds))
        ≡ some path)
      × Leads (below [] (d ∷ ds)) (directory [] (s ∷ ss)) path
unfolding relative_path
relative_path-Leads s ss d ds names names' room =
    let src : CString = render (s ∷ ss) in
    let dst : CString = render (d ∷ ds) in
    let o = consume_common (length src) src dst in
    let rest = consume_common-IsRest (length src) [] s ss d ds names names' in
    let count : depth_loop (length o.0) o.0 - 1 ≡ length rest.ss = omega (
      arith,
      ap (λ p. depth_loop (length p) p) rest.src_rest,
      depth-render rest.s rest.ss rest.src_names,
    ) in
    let file : List CString = below rest.common (rest.d ∷ rest.ds) in
    let path : CString = parents (length rest.ss) ++ render (rest.d ∷ rest.ds) in
    let text : relative_path (slash ∷ src) (slash ∷ dst) ≡ within_buffer path =
      ap (λ k. within_buffer (parents k ++ o.1)) count
      ∙ ap (λ p. within_buffer (parents (length rest.ss) ++ p)) rest.dst_rest in
    let small : length path < path_max = omega (
      arith,
      length-append (parents (length rest.ss)) (render (rest.d ∷ rest.ds)),
      length-parents (length rest.ss),
      rest.fewer,
      rest.shorter,
    ) in
    let leads =
      Leads-up rest.common rest.s rest.ss (render (rest.d ∷ rest.ds)) file
        (Leads-down rest.common rest.d rest.ds rest.dst_names) in
    (
      path,
      text ∙ within_buffer_lem path small,
      subst (λ f. Leads f (directory [] (s ∷ ss)) path) (sym rest.to)
          (subst (λ dir. Leads file dir path) (sym rest.from) leads),
    )
  where
    within_buffer_lem : (path : CString) → length path < path_max → within_buffer path ≡ some path
    within_buffer_lem path small = ground arith

-- Where realpath gives the canonical paths of both files, and three bytes for each directory of the
-- first and the bytes of the second stay below PATH_MAX together, path_relative_to returns a path
-- that leads from the directory of the first file to the second file, up and down through
-- directories.
pub path_relative_to-Leads :
    (os : Os) (src dst : CString) (st : os.State) (s : CString) (ss : List CString) (d : CString)
    (ds : List CString)
    → (os.realpath src st).0 ≡ some (slash ∷ render (s ∷ ss))
    → (os.realpath dst (os.realpath src st).1).0 ≡ some (slash ∷ render (d ∷ ds))
    → All IsName (s ∷ ss)
    → All IsName (d ∷ ds)
    → 3 * length ss + length (render (d ∷ ds)) < path_max
    → (path : CString) × ((path_relative_to os src dst st).0 ≡ some path)
      × Leads (below [] (d ∷ ds)) (directory [] (s ∷ ss)) path
unfolding path_relative_to
path_relative_to-Leads os src dst st s ss d ds at_src at_dst names names' room =
    let (path, written, leads) = relative_path-Leads s ss d ds names names' room in
    (path, rw (path_relative_to, at_src, ◌>>=◌, at_dst, written) refl, leads)
