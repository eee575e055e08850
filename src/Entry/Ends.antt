-- ===== src/Entry/Ends.antt =====
-- What `metadata_from_entry` says of a file, where stdio(3) does what it documents.
use dedup.Prelude.{
  ℕ, zero, suc, ◌-◌, ◌<◌, ◌≡◌, refl, ◌∙◌, ap, inl, inr, Option-cases, Option, none, some, List, [],
  ◌∷◌, length, arith,
}
use dedup.Metadata.{CString, FileMetadata, empty_sha256}
use dedup.Os.{Os}
use dedup.Utils.{get_clone_id}
use dedup.Entry.{FileEntry, Stdio, to_char, is_negative, fill, read_ends, metadata_from_entry}

-- The byte at an index, as fgetc gives it.
abbrev pub byte_at : List ℕ → ℕ → Option ℕ
byte_at [] i = none
byte_at (b ∷ bs) zero = some b
byte_at (b ∷ bs) (suc i) = byte_at bs i

-- The last byte of a file that starts with a byte.
abbrev pub last_byte : ℕ → List ℕ → ℕ
last_byte b [] = b
last_byte b (c ∷ cs) = last_byte c cs

-- A stream stands at a position of the bytes of its file. It moves on by one with each byte, and
-- to the last byte if there is one.
pub record IsStdio {State : Type 0} (stdio : Stdio State)
    (content : State → CString → Option (List ℕ)) : Type 0 where
  pub bytes : stdio.Stream → List ℕ
  pub position : stdio.Stream → ℕ
  pub opens :
      (s : State) (p : CString) (bs : List ℕ)
      → content s p ≡ some bs
      → (f : stdio.Stream) × (stdio.fopen p s ≡ some f) × (bytes f ≡ bs) × (position f ≡ 0)
  pub opens_not : (s : State) (p : CString) → content s p ≡ none → stdio.fopen p s ≡ none
  pub gets : (f : stdio.Stream) → (stdio.fgetc f).0 ≡ byte_at (bytes f) (position f)
  pub bytes-gets : (f : stdio.Stream) → bytes (stdio.fgetc f).1 ≡ bytes f
  pub seeks :
      (f : stdio.Stream)
      → 0 < length (bytes f)
      → ((stdio.fseek_last f).0 ≡ 0)
        × (bytes (stdio.fseek_last f).1 ≡ bytes f)
        × (position (stdio.fseek_last f).1 ≡ length (bytes f) - 1)

byte_at-end : (b : ℕ) (bs : List ℕ) → byte_at (b ∷ bs) (length bs) ≡ some (last_byte b bs)
byte_at-end b [] = refl
byte_at-end b (c ∷ cs) = byte_at-end c cs

module _ (os : Os) where
  -- The metadata that a file with these bytes has; without a byte it has none.
  abbrev pub metadata_of : FileEntry → os.State → Option (List ℕ) → Option FileMetadata
  metadata_of fe s none = none
  metadata_of fe s (some []) = none
  metadata_of fe s (some (b ∷ bs)) = some (record {
    device = fe.device;
    inode = fe.inode;
    nlink = fe.nlink;
    flags = fe.flags;
    clone_id = get_clone_id os fe.path s;
    size = fe.size;
    path = fe.path;
    sha256 = empty_sha256;
    first = to_char b;
    last = to_char (last_byte b bs);
  })

module _ (os : Os) (stdio : Stdio os.State) (content : os.State → CString → Option (List ℕ))
    (P : IsStdio stdio content) where
  read_ends-empty : (f : stdio.Stream) → P.bytes f ≡ [] → read_ends os stdio f ≡ none
  unfolding read_ends
  read_ends-empty f empty =
      let at_end : (stdio.fgetc f).0 ≡ none =
        P.gets f ∙ ap (λ bs. byte_at bs (P.position f)) empty in
      rw (read_ends, at_end)

  read_ends_lem :
      (f : stdio.Stream) (b : ℕ) (bs : List ℕ)
      → P.bytes f ≡ b ∷ bs
      → P.position f ≡ 0
      → read_ends os stdio f ≡ some (to_char b, to_char (last_byte b bs))
  unfolding read_ends is_negative
  read_ends_lem f b bs is start =
      let f' : stdio.Stream = (stdio.fgetc f).1 in
      let is' : P.bytes f' ≡ b ∷ bs = P.bytes-gets f ∙ is in
      let some_byte : 0 < length (P.bytes f') = rw is' (omega arith) in
      let (sought, kept, at) = P.seeks f' some_byte in
      let length_bs : length (b ∷ bs) - 1 ≡ length bs = omega arith in
      let first : (stdio.fgetc f).0 ≡ some b = P.gets f ∙ rw (is, start) refl in
      let last : (stdio.fgetc (stdio.fseek_last f').1).0 ≡ some (last_byte b bs) =
        P.gets (stdio.fseek_last f').1 ∙ rw (at, kept, is', length_bs) (byte_at-end b bs) in
      rw (read_ends, first, sought, last)

  of_stream :
      (fe : FileEntry) (s : os.State) (f : stdio.Stream) (bs : List ℕ)
      → P.bytes f ≡ bs
      → P.position f ≡ 0
      → fill fe (get_clone_id os fe.path s) (read_ends os stdio f) ≡ metadata_of os fe s (some bs)
  unfolding fill
  of_stream fe s f [] is start = rw (read_ends-empty f is)
  of_stream fe s f (b ∷ bs) is start = rw (read_ends_lem f b bs is start)

  -- The metadata are those of the entry, with no digest, the clone id, and the first and the last
  -- byte of the file as signed characters. A file that is empty or cannot be opened gives NULL.
  pub metadata_from_entry_lem :
      (fe : FileEntry) (s : os.State)
      → metadata_from_entry os stdio fe s ≡ metadata_of os fe s (content s fe.path)
  unfolding metadata_from_entry
  metadata_from_entry_lem fe s = elim (Option-cases (content s fe.path)) [
    | inl absent ↦ rw (metadata_from_entry, P.opens_not s fe.path absent, absent)
    | inr (bs, there) ↦
        let (f, opened, is, start) = P.opens s fe.path bs there in
        rw (metadata_from_entry, opened, there) (of_stream fe s f bs is start)
  ]

-- A digest is not read with the metadata.
pub metadata_from_entry-sha256 :
    (os : Os) (stdio : Stdio os.State) (fe : FileEntry) (s : os.State) (f : FileMetadata)
    → metadata_from_entry os stdio fe s ≡ some f
    → f.sha256 ≡ empty_sha256
unfolding metadata_from_entry fill
metadata_from_entry-sha256 os stdio fe s f readable = ground arith

pub metadata_from_entry-size :
    (os : Os) (stdio : Stdio os.State) (fe : FileEntry) (s : os.State) (f : FileMetadata)
    → metadata_from_entry os stdio fe s ≡ some f
    → (f.size ≡ fe.size) × (f.path ≡ fe.path)
unfolding metadata_from_entry fill
metadata_from_entry-size os stdio fe s f readable = (ground arith, ground arith)

-- A file of which there are metadata was opened.
pub metadata_from_entry-opens :
    (os : Os) (stdio : Stdio os.State) (fe : FileEntry) (s : os.State) (f : FileMetadata)
    → metadata_from_entry os stdio fe s ≡ some f
    → (stream : stdio.Stream) × (stdio.fopen f.path s ≡ some stream)
unfolding metadata_from_entry fill
metadata_from_entry-opens os stdio fe s f readable = elim (Option-cases (stdio.fopen fe.path s)) [
  | inl not_opened ↦ absurd (ground (arith, not_opened))
  | inr (stream, opened) ↦
      let same : f.path ≡ fe.path = ground (arith, opened) in (stream, rw same opened)
]
