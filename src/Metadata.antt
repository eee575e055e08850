-- ===== src/Metadata.antt =====
-- map.h and map.c: `FileMetadata`, and the digest that is computed when it is first asked for.
-- A C string is the list of its bytes; `dev_t` and `char` are signed.
use native.Mathlib.Decide.{ℕ_discrete}
use dedup.Prelude.{ℕ, Bool, not, ◌||◌, Option, none, some, List, replicate, ◌==◌, if◌then◌else◌}
use dedup.Prelude.Int.{ℤ}
use dedup.Rb.Order.{is_eq, memcmp}

abbrev pub CString : Type 0
CString = List ℕ

unfoldable pub CString-discrete : Discrete CString
unfolding ℕ_discrete
CString-discrete = hlevel ℕ_discrete

abbrev pub Sha256 : Type 0
Sha256 = List ℕ

pub record FileMetadata : Type 0 where
  pub device : ℤ
  pub inode : ℕ
  pub nlink : ℕ
  pub flags : ℕ
  pub clone_id : ℕ
  pub size : ℕ
  pub path : CString
  pub sha256 : Sha256
  pub first : ℤ
  pub last : ℤ

abbrev pub empty_sha256 : Sha256
empty_sha256 = replicate 32 0

-- SHA_IS_EMPTY
unfoldable pub sha_is_empty : Sha256 → Bool
sha_is_empty sha = is_eq (memcmp 32 sha empty_sha256)

-- What `populate_sha256_if_empty` calls: open(2) for reading, mmap(2) of that many bytes of an
-- open file, and CommonCrypto, which returns 1 for success.
pub record Digester : Type 0 where
  pub open_read : CString → Option ℕ
  pub mmap : ℕ → ℕ → Option (List ℕ)
  pub sha256_update : List ℕ → ℕ
  pub sha256_final : List ℕ → ℕ × Sha256

-- The part from the call of CC_SHA256_Init on.
unfoldable pub sha256_of : Digester → List ℕ → FileMetadata → ℕ × FileMetadata
sha256_of env buffer fm =
    if not (env.sha256_update buffer == 1)
    then (3, fm)
    else let (r, digest) = env.sha256_final buffer in
      (if r == 0 then 1 else 0, record fm { sha256 = digest })

-- The `int` that it returns, and the metadata as it leaves them.
unfoldable pub populate_sha256_if_empty : Digester → FileMetadata → ℕ × FileMetadata
unfolding sha256_of
populate_sha256_if_empty env fm =
    if not (sha_is_empty fm.sha256) then (0, fm) else elim (env.open_read fm.path) [
      | none ↦ (2, fm)
      | some fd ↦ elim (env.mmap fd fm.size) [
        | none ↦ (2, fm)
        | some buffer ↦ sha256_of env buffer fm
      ]
    ]

-- The test that follows each call of `populate_sha256_if_empty`.
unfoldable pub could_not_hash : ℕ × FileMetadata → Bool
could_not_hash (r, fm) = not (r == 0) || sha_is_empty fm.sha256

-- A `FileMetadata *`: the address that `malloc` gave, and what stands there. Metadata that are on a
-- list of duplicates do not change any more.
pub record Pointer : Type 0 where
  pub address : ℕ
  pub target : FileMetadata
