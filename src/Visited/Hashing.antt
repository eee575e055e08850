-- ===== src/Visited/Hashing.antt =====
-- `populate_sha256_if_empty` against what open(2), mmap(2) and CommonCrypto do with each file.
use dedup.Prelude.{
  ℕ, ◌≡◌, refl, ap, ◌∙◌, ◌⊎◌, inl, inr, true, false, Bool, ◌==◌, none, some, List, length, arith,
}
use dedup.Metadata.{
  CString, Sha256, FileMetadata, Digester, sha_is_empty, sha256_of, populate_sha256_if_empty,
  could_not_hash,
}

-- The content of each file with its SHA-256, and whether the program can compute it.
pub record Digests : Type 0 where
  pub content : CString → List ℕ
  pub of_path : CString → Sha256
  pub can_hash : CString → Bool

-- The file can be opened, mapping as many bytes as it has gives its content, and CommonCrypto
-- succeeds with a digest that is not all zeros.
pub record IsHashed (env : Digester) (digest : Digests) (p : CString) : Type 0 where
  pub fd : ℕ
  pub opens : env.open_read p ≡ some fd
  pub maps : env.mmap fd (length (digest.content p)) ≡ some (digest.content p)
  pub updates : env.sha256_update (digest.content p) ≡ 1
  pub finishes : env.sha256_final (digest.content p) ≡ (1, digest.of_path p)
  pub nonempty : sha_is_empty (digest.of_path p) ≡ false

-- One of these fails.
pub data IsUnhashed (env : Digester) (digest : Digests) (p : CString) : Type 0 where
  not_opened : env.open_read p ≡ none → IsUnhashed env digest p
  not_mapped :
      (fd : ℕ)
      → env.open_read p ≡ some fd
      → env.mmap fd (length (digest.content p)) ≡ none
      → IsUnhashed env digest p
  not_computed :
      (fd : ℕ)
      → env.open_read p ≡ some fd
      → env.mmap fd (length (digest.content p)) ≡ some (digest.content p)
      → (env.sha256_update (digest.content p) == 1) ≡ false
      → IsUnhashed env digest p
  not_finished :
      (fd : ℕ) (r : ℕ) (sha : Sha256)
      → env.open_read p ≡ some fd
      → env.mmap fd (length (digest.content p)) ≡ some (digest.content p)
      → env.sha256_update (digest.content p) ≡ 1
      → env.sha256_final (digest.content p) ≡ (r, sha)
      → ((r == 0) ≡ true) ⊎ (sha_is_empty sha ≡ true)
      → IsUnhashed env digest p

-- The files do not change: whether a file can be hashed is the same at each call.
pub record IsHashing (env : Digester) (digest : Digests) : Type 0 where
  pub hashed : (p : CString) → digest.can_hash p ≡ true → IsHashed env digest p
  pub unhashed : (p : CString) → digest.can_hash p ≡ false → IsUnhashed env digest p

module _ (digest : Digests) where
  -- The metadata with their digest.
  abbrev pub hashed : FileMetadata → FileMetadata
  hashed fm = record fm { sha256 = digest.of_path fm.path }

  -- The size is that of the content, and the digest is not computed yet, or is that of the file.
  abbrev pub IsRead : FileMetadata → Type 0
  IsRead fm =
      (fm.size ≡ length (digest.content fm.path))
      × ((sha_is_empty fm.sha256 ≡ true)
          ⊎ ((fm.sha256 ≡ digest.of_path fm.path) × (digest.can_hash fm.path ≡ true)))

module _ {env : Digester} {digest : Digests} (H : IsHashing env digest) where
  pub populate_lem :
      (fm : FileMetadata)
      → IsRead digest fm
      → digest.can_hash fm.path ≡ true
      → populate_sha256_if_empty env fm ≡ (0, hashed digest fm)
  unfolding populate_sha256_if_empty sha256_of
  populate_lem fm (size, inl unread) can =
      let h = H.hashed fm.path can in
      let mapped = ap (env.mmap h.fd) size ∙ h.maps in
      rw (unread, h.opens) (rw mapped (rw (sha256_of, h.updates, h.finishes)))
  populate_lem fm (size, inr (read, _)) can =
      let h = H.hashed fm.path can in ground (arith, h.nonempty)

  pub hashed-could_hash :
      (fm : FileMetadata)
      → digest.can_hash fm.path ≡ true
      → could_not_hash (0, hashed digest fm) ≡ false
  unfolding could_not_hash
  hashed-could_hash fm can = let h = H.hashed fm.path can in rw (h.nonempty)

  -- A file that cannot be hashed is found out by the test after the call.
  pub populate-could_not_hash :
      (fm : FileMetadata)
      → IsRead digest fm
      → digest.can_hash fm.path ≡ false
      → could_not_hash (populate_sha256_if_empty env fm) ≡ true
  unfolding populate_sha256_if_empty sha256_of could_not_hash
  populate-could_not_hash fm (size, inr (read, can)) cannot = absurd (ground arith)
  populate-could_not_hash fm (size, inl unread) cannot = elim (H.unhashed fm.path cannot) [
    | not_opened opened ↦ rw (unread, opened)
    | not_mapped fd opened mapped ↦
        let mapped' = ap (env.mmap fd) size ∙ mapped in rw (unread, opened) (rw mapped' refl)
    | not_computed fd opened mapped updated ↦
        let mapped' = ap (env.mmap fd) size ∙ mapped in
        rw (unread, opened) (rw mapped' (rw (sha256_of, updated) refl))
    | not_finished fd r sha opened mapped updated final failed ↦
        let mapped' = ap (env.mmap fd) size ∙ mapped in
        rw (unread, opened) (rw mapped' (rw (sha256_of, updated, final) (ground arith)))
  ]
