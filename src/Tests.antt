-- ===== src/Tests.antt =====
-- Runs of the model on small inputs, and the theorems at concrete data.
mod Visiting
pub mod Reading
pub mod Deduplicating
pub mod Scanning
pub mod Threads
pub mod Options
pub mod Traversing
mod Running
mod Linking
mod Counting
mod Agreement
mod Ordering
mod Emptying
mod Showing
use dedup.Prelude.{
  false, if◌then◌else◌, ◌==◌, Bool, if◌then◌else◌, ℕ, ◌≡◌, refl, true, none, some, [], ◌∷◌, ◌++◌,
  arith, inl,
}
use dedup.Prelude.Int.{pos}
use dedup.AList.{AList, new_alist_with_capacity, ensure_loop, alist_ensure, alist_add, alist_remove}
use dedup.AList.Removing.{alist_remove-to_list}
use dedup.AList.View.{IsAList, to_list, alist_add_lem, ensure_loop-no_capacity}
use dedup.Metadata.{
  CString, Sha256, FileMetadata, Digester, sha_is_empty, empty_sha256, could_not_hash,
  populate_sha256_if_empty,
}
use dedup.Rb.Order.{is_eq, memcmp, memcmp_self, compare_int, compare_signed}
use dedup.Rb.Sorted.{sorted_list, sorted_list-IsRbTree}
use dedup.Visited.{
  VisitedTree, new_visited_tree, visited_tree_insert, visited_tree_find_or_create_last_node,
}
use dedup.Visited.Keys.{
  compare_device_key, compare_size_key, compare_char_key, compare_device_node, compare_size_node,
  compare_char_node,
}
use dedup.Visited.Hashing.{Digests, IsHashed, not_opened, IsHashing, IsRead}
use dedup.Visited.Classes.{class_of, same_class, look}
use dedup.Visited.Place.{look-write}
use dedup.Visited.View.{IsVisited}
use dedup.Visited.Correct.{IsInsert, visited_tree_insert-view, new_visited_tree-IsVisited}
use dedup.Os.Memory.{write}

abbrev two : AList ℕ
two = record { size = 2; capacity = 2; elements = some 5 ∷ some 6 ∷ [] }

two-IsAList : IsAList two
two-IsAList = record {
  positive = omega arith;
  fits = omega arith;
  countable = omega arith;
  allocated = refl;
}

grown_by_one :
    alist_add two (some 7)
    ≡ some (record { size = 3; capacity = 4; elements = some 5 ∷ some 6 ∷ some 7 ∷ none ∷ [] })
unfolding alist_add alist_ensure
grown_by_one = refl

alist_add_example :
    (longer : AList ℕ) × (alist_add two (some 7) ≡ some longer)
    × IsAList longer
    × (to_list longer ≡ to_list two ++ some 7 ∷ [])
    × (longer.size ≡ 3)
alist_add_example = alist_add_lem two (some 7) two-IsAList (omega arith)

alist_remove_example :
    ((alist_remove two 0).0 ≡ some 5)
    × IsAList (alist_remove two 0).1
    × (to_list (alist_remove two 0).1 ≡ some 6 ∷ [])
alist_remove_example = alist_remove-to_list two 0 two-IsAList

ensure_loop_example : ensure_loop 1000 (new_alist_with_capacity {A = ℕ} 0) 1 ≡ none
unfolding new_alist_with_capacity
ensure_loop_example = ensure_loop-no_capacity 1000 (new_alist_with_capacity 0) 1 refl (omega arith)

-- A file is one byte long, and that byte is the first of its name. Files without a name cannot be
-- opened.
abbrev first_byte : CString → ℕ
first_byte [] = 0
first_byte (c ∷ cs) = c

abbrev is_named : CString → Bool
is_named [] = false
is_named (c ∷ cs) = true

abbrev pub byte_digest : Digests
byte_digest = record {
  content = λ p. first_byte p ∷ [];
  of_path = λ p. 1 ∷ first_byte p ∷ [];
  can_hash = is_named;
}

abbrev pub bytes : Digester
bytes = record {
  open_read = λ p. if is_named p then some (first_byte p) else none;
  mmap = λ fd n. if n == 1 then some (fd ∷ []) else none;
  sha256_update = λ b. 1;
  sha256_final = λ b. (1, 1 ∷ b);
}

bytes-IsHashed : (p : CString) → is_named p ≡ true → IsHashed bytes byte_digest p
unfolding sha_is_empty memcmp compare_int
bytes-IsHashed p can = record {
  fd = first_byte p;
  opens = rw can refl;
  maps = refl;
  updates = refl;
  finishes = refl;
  nonempty = refl;
}

pub bytes-IsHashing : IsHashing bytes byte_digest
bytes-IsHashing = record {
  hashed = bytes-IsHashed;
  unhashed = λ p cannot. not_opened (rw cannot refl);
}

abbrev pub named : ℕ → ℕ → ℕ → FileMetadata
named byte links id = record {
  device = pos 1;
  inode = id;
  nlink = links;
  flags = 0;
  clone_id = id;
  size = 1;
  path = byte ∷ id ∷ [];
  sha256 = empty_sha256;
  first = pos 97;
  last = pos 97;
}

abbrev pub file_a : FileMetadata
file_a = named b'a' 1 10

abbrev pub copy_of_a : FileMetadata
copy_of_a = named b'a' 1 11

pub unread : (fm : FileMetadata) → fm.size ≡ 1 → fm.sha256 ≡ empty_sha256 → IsRead byte_digest fm
unfolding sha_is_empty
unread fm size e = (size, inl (rw e (memcmp_is_eq empty_sha256)))
  where
    memcmp_is_eq : (sha : Sha256) → is_eq (memcmp 32 sha sha) ≡ true
    memcmp_is_eq sha = rw (memcmp_self 32 sha)

unfoldable pub one_file : VisitedTree sorted_list
one_file = (visited_tree_insert sorted_list bytes (new_visited_tree sorted_list) file_a).tree

pub one_file-IsVisited : IsVisited sorted_list byte_digest one_file
unfolding one_file
one_file-IsVisited =
    (visited_tree_insert-view sorted_list sorted_list-IsRbTree bytes-IsHashing
      (new_visited_tree sorted_list)
      (new_visited_tree-IsVisited sorted_list sorted_list-IsRbTree byte_digest) file_a
      (unread file_a refl refl)).valid

visited_tree_insert_example :
    IsInsert sorted_list byte_digest one_file copy_of_a
      (visited_tree_insert sorted_list bytes one_file copy_of_a)
visited_tree_insert_example =
    visited_tree_insert-view sorted_list sorted_list-IsRbTree bytes-IsHashing one_file
      one_file-IsVisited copy_of_a (unread copy_of_a refl refl)

-- The copy finds the file, whose digest is known from then on.
copy_found :
    (visited_tree_insert sorted_list bytes one_file copy_of_a).result
    ≡ some (record file_a { sha256 = byte_digest.of_path file_a.path })
unfolding one_file visited_tree_insert new_visited_tree visited_tree_find_or_create_last_node
    compare_device_key compare_size_key compare_char_key compare_device_node compare_size_node
    compare_char_node compare_signed compare_int memcmp populate_sha256_if_empty could_not_hash
    sha_is_empty
copy_found = refl
