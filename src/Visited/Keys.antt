-- ===== src/Visited/Keys.antt =====
-- The nodes of the visited tree, and the comparisons by which their trees are ordered.
use dedup.Prelude.{ℕ, refl, Option, Ordering}
use dedup.Prelude.Int.{ℤ}
use dedup.Rb.{Ops, IsKeyed}
use dedup.Rb.Order.{
  compare_int, compare_int-IsOrder, compare_signed, compare_signed-IsOrder, memcmp, memcmp-IsOrder,
}
use dedup.Metadata.{FileMetadata, Sha256}

pub record FileMetadataNode : Type 0 where
  pub fm : FileMetadata

-- `C` is the type of the tree below: a `CharNode` stands on two levels.
pub record CharNode (C : Type 0) : Type 0 where
  pub children : C
  pub fm : Option FileMetadata
  pub c : ℤ

pub record SizeNode (C : Type 0) : Type 0 where
  pub children : C
  pub s : ℕ

pub record DeviceNode (C : Type 0) : Type 0 where
  pub children : C
  pub d : ℤ

module _ {C : Type 0} where
  unfoldable pub compare_device_node : DeviceNode C → DeviceNode C → Ordering
  compare_device_node a b = compare_signed a.d b.d

  unfoldable pub compare_device_key : DeviceNode C → ℤ → Ordering
  compare_device_key a d = compare_signed a.d d

  abbrev pub device_ops : Ops (DeviceNode C) ℤ
  device_ops = record { compare_nodes = compare_device_node; compare_key = compare_device_key }

  unfoldable pub compare_size_node : SizeNode C → SizeNode C → Ordering
  compare_size_node a b = compare_int a.s b.s

  unfoldable pub compare_size_key : SizeNode C → ℕ → Ordering
  compare_size_key a s = compare_int a.s s

  abbrev pub size_ops : Ops (SizeNode C) ℕ
  size_ops = record { compare_nodes = compare_size_node; compare_key = compare_size_key }

  unfoldable pub compare_char_node : CharNode C → CharNode C → Ordering
  compare_char_node a b = compare_signed a.c b.c

  unfoldable pub compare_char_key : CharNode C → ℤ → Ordering
  compare_char_key a c = compare_signed a.c c

  abbrev pub char_ops : Ops (CharNode C) ℤ
  char_ops = record { compare_nodes = compare_char_node; compare_key = compare_char_key }

  unfoldable pub device_ops-IsKeyed : IsKeyed device_ops
  unfolding compare_device_node compare_device_key
  device_ops-IsKeyed = record {
    key = λ n. n.d;
    cmp = compare_signed;
    order = compare_signed-IsOrder;
    by_nodes = λ a b. refl;
    by_key = λ n k. refl;
  }

  unfoldable pub size_ops-IsKeyed : IsKeyed size_ops
  unfolding compare_size_node compare_size_key
  size_ops-IsKeyed = record {
    key = λ n. n.s;
    cmp = compare_int;
    order = compare_int-IsOrder;
    by_nodes = λ a b. refl;
    by_key = λ n k. refl;
  }

  unfoldable pub char_ops-IsKeyed : IsKeyed char_ops
  unfolding compare_char_node compare_char_key
  char_ops-IsKeyed = record {
    key = λ n. n.c;
    cmp = compare_signed;
    order = compare_signed-IsOrder;
    by_nodes = λ a b. refl;
    by_key = λ n k. refl;
  }

unfoldable pub compare_metadata_sha256_node : FileMetadataNode → FileMetadataNode → Ordering
compare_metadata_sha256_node a b = memcmp 32 a.fm.sha256 b.fm.sha256

unfoldable pub compare_metadata_sha256_key : FileMetadataNode → Sha256 → Ordering
compare_metadata_sha256_key a sha256 = memcmp 32 a.fm.sha256 sha256

abbrev pub sha256_ops : Ops FileMetadataNode Sha256
sha256_ops = record {
  compare_nodes = compare_metadata_sha256_node;
  compare_key = compare_metadata_sha256_key;
}

-- Digests are ordered by their 32 bytes.
unfoldable pub sha256_ops-IsKeyed : IsKeyed sha256_ops
unfolding compare_metadata_sha256_node compare_metadata_sha256_key
sha256_ops-IsKeyed = record {
  key = λ n. n.fm.sha256;
  cmp = memcmp 32;
  order = memcmp-IsOrder 32;
  by_nodes = λ a b. refl;
  by_key = λ n k. refl;
}
