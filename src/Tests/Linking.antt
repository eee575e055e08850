-- ===== src/Tests/Linking.antt =====
-- `path_relative_to` at concrete paths.
use dedup.Prelude.{◌≡◌, ℕ, ◌==◌, false, refl, some, List, [], ◌∷◌, arith}
use dedup.Metadata.{CString}
use dedup.Os.Memory.{Memory, memory_os}
use dedup.Symlink.{
  slash, same_name, relative_path, consume_root, consume_common, split_slash, strchr_slash,
  depth_loop, parents, path_relative_to,
}
use dedup.Symlink.Names.{IsName, render}
use dedup.Symlink.Leads.{directory, below, Leads, path_relative_to-Leads}

-- "/a/b/x" and "/a/c/y"
abbrev link : List CString
link = (b'a' ∷ []) ∷ (b'b' ∷ []) ∷ (b'x' ∷ []) ∷ []

abbrev target : List CString
target = (b'a' ∷ []) ∷ (b'c' ∷ []) ∷ (b'y' ∷ []) ∷ []

relative_path_run :
    relative_path (slash ∷ render link) (slash ∷ render target)
    ≡ some (b'.' ∷ b'.' ∷ b'/' ∷ b'c' ∷ b'/' ∷ b'y' ∷ [])
unfolding relative_path consume_root consume_common split_slash strchr_slash depth_loop parents
    same_name
relative_path_run = refl

abbrev disk : Memory
disk = record { files = λ p. some (record { blocks = 1; size = 1; attributes = 0 }); error = 0 }

path_relative_to_example :
    (path : CString) × ((path_relative_to memory_os
        (slash ∷ render link)
        (slash ∷ render target)
        disk).0
      ≡ some path)
    × Leads (below [] target) (directory [] link) path
unfolding same_name
path_relative_to_example =
    path_relative_to-Leads memory_os (slash ∷ render link) (slash ∷ render target) disk (b'a' ∷ [])
      ((b'b' ∷ []) ∷ (b'x' ∷ []) ∷ []) (b'a' ∷ []) ((b'c' ∷ []) ∷ (b'y' ∷ []) ∷ []) refl refl
      (a-IsName b'a' refl refl, (a-IsName b'b' refl refl, (a-IsName b'x' refl refl, tt)))
      (a-IsName b'a' refl refl, (a-IsName b'c' refl refl, (a-IsName b'y' refl refl, tt)))
      (omega arith)
  where
    a-IsName : (c : ℕ) → (c == slash) ≡ false → (c == b'.') ≡ false → IsName (c ∷ [])
    a-IsName c plain other = record {
      bytes = omega arith;
      no_slash = (plain, tt);
      not_dot = rw other;
      not_parent = rw other;
    }
