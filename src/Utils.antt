-- ===== src/Utils.antt =====
-- utils.c: the attributes of a file, each read by getattrlist(2).
use Prim.Native.Nat.{bit_or}
use dedup.Prelude.{ℕ, ◌%◌, ◌^◌, none, some}
use dedup.AList.{size_mod}
use dedup.Metadata.{CString}
use dedup.Os.{Os}

-- EF_MAY_SHARE_BLOCKS
abbrev pub ef_may_share_blocks : ℕ
ef_may_share_blocks = 1

module _ (os : Os) where
  unfoldable pub get_clone_id : CString → os.State → ℕ
  get_clone_id path s = elim (os.clone_id_attr path s) [ none ↦ 0 | some value ↦ value ]

  -- The `int` that it returns, by its bits.
  unfoldable pub may_share_blocks : CString → os.State → ℕ
  may_share_blocks path s = elim (os.ext_flags_attr path s) [
    | none ↦ 0
    | some value ↦ bit_or value ef_may_share_blocks % 2 ^ 32
  ]

  unfoldable pub private_size : CString → os.State → ℕ
  private_size path s = elim (os.private_size_attr path s) [
    | none ↦ 0
    | some size ↦ size % size_mod
  ]
