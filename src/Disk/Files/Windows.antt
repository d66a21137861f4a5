-- ===== src/Disk/Files/Windows.antt =====
-- Where the bytes of a torrent lie, and the windows of a block.
use libp2p_bittorrent_protoc.Base.{
  ℕ, suc, ◌+◌, ◌-◌, ◌==◌, ◌*◌, ◌≤◌, ◌<◌, ◌≡◌, refl, inl, inr, ◌&&◌, List, [], ◌∷◌, ok, err, done,
  panic, arith, ltb, leb, if◌then◌else◌, length, Bool-cases,
}
use libp2p_bittorrent_protoc.Hash.{ShaHash}
use libp2p_bittorrent_protoc.Disk.Block.{BlockMetadata}
use libp2p_bittorrent_protoc.Disk.Error.{bad_piece}
use libp2p_bittorrent_protoc.Disk.Files.{
  FileEntry, SubFileInfo, single, multi, new, entries, windows, files_for_block,
}

-- how many of the files hold a byte of the torrent
abbrev pub holding : ℕ → List FileEntry → ℕ
holding byte [] = 0
holding byte (f ∷ fs) =
    if leb f.offset byte && ltb byte (f.offset + f.size)
    then suc (holding byte fs)
    else holding byte fs

abbrev pub total : List SubFileInfo → ℕ
total [] = 0
total (f ∷ fs) = f.length + total fs

before-entries :
    (byte id index offset : ℕ) (files : List SubFileInfo)
    → byte < offset
    → holding byte (entries id index offset files) ≡ 0
unfolding entries
before-entries byte id index offset [] h = refl
before-entries byte id index offset (n ∷ ns) h =
    ground (arith, before-entries byte id (index + 1) (offset + n.length) ns)

holding-entries :
    (byte id index offset : ℕ) (files : List SubFileInfo)
    → offset ≤ byte
    → byte < offset + total files
    → holding byte (entries id index offset files) ≡ 1
unfolding entries
holding-entries byte id index offset [] l h = absurd (omega arith)
holding-entries byte id index offset (n ∷ ns) l h =
    elim (Bool-cases (ltb byte (offset + n.length))) [
      | inl y ↦ ground (arith, before-entries byte id (index + 1) (offset + n.length) ns)
      | inr y ↦ ground (arith, holding-entries byte id (index + 1) (offset + n.length) ns)
    ]

-- Every byte of a torrent of several files lies in exactly one of them.
pub holding-new :
    (byte id piece_length : ℕ) (pieces : List ShaHash) (files : List SubFileInfo)
    → byte < total files
    → holding byte (new id pieces piece_length (multi files)).files ≡ 1
unfolding new
holding-new byte id piece_length pieces files h =
    holding-entries byte id 0 0 files (omega arith) (omega arith)

-- In a torrent of one file, a block of a piece that ends within the file has one window: at the
-- place of the block in the torrent, and of its length. A block that is not within a piece is
-- refused.
pub files_for_block-single :
    (m : BlockMetadata) (id piece_length size : ℕ) (pieces : List ShaHash)
    → piece_length * m.piece_index + m.block_offset + m.block_length ≤ size
    → let t = new id pieces piece_length (single size) in
      files_for_block m t ≡ (
        if ltb m.piece_index (length pieces) && leb (m.block_offset + m.block_length) piece_length
        then done (
            ok (
              (
                record { id = record { torrent = id; file = 0 }; offset = 0; size = size },
                record {
                  offset = piece_length * m.piece_index + m.block_offset;
                  length = m.block_length;
                },
              )
              ∷ []))
        else done (err (bad_piece m.piece_index)))
unfolding new files_for_block windows
files_for_block-single m id piece_length size pieces h = ground arith

-- the entries of a torrent of two files, in their order
abbrev pub first_of : ℕ → ℕ → FileEntry
first_of id size = record { id = record { torrent = id; file = 0 }; offset = 0; size = size }

abbrev pub second_of : ℕ → ℕ → ℕ → FileEntry
second_of id before size = record {
  id = record { torrent = id; file = 1 };
  offset = before;
  size = size;
}

-- In a torrent of two files that are looked at in their order, for a block of a piece that ends
-- within the torrent: a block that ends in the first file, or begins where the second does, has one
-- window, of its place and its length; one that begins later in the second file makes the
-- computation overflow; and for one that lies in both files the window in the first is as long as
-- its offset, and there is a window in the second, of the block's end in it and of the file's size
-- together, only if the block ends where the torrent does.
pub files_for_block-two :
    (m : BlockMetadata) (id piece_length : ℕ) (f g : SubFileInfo) (pieces : List ShaHash)
    → m.piece_index < length pieces
    → m.block_offset + m.block_length ≤ piece_length
    → piece_length * m.piece_index + m.block_offset + m.block_length ≤ f.length + g.length
    → let start = piece_length * m.piece_index + m.block_offset in
      let end = start + m.block_length in
      let a = f.length in
      let b = g.length in
      files_for_block m (new id pieces piece_length (multi (f ∷ g ∷ []))) ≡ (
        if leb end a
        then done (ok ((first_of id a, record { offset = start; length = m.block_length }) ∷ []))
        else if ltb a start
        then panic
        else if a == start
        then done (ok ((second_of id a b, record { offset = 0; length = m.block_length }) ∷ []))
        else if end == a + b
        then done (
            ok (
              (first_of id a, record { offset = start; length = start })
              ∷ (second_of id a b, record { offset = 0; length = end - a + b })
              ∷ []))
        else done (ok ((first_of id a, record { offset = start; length = start }) ∷ [])))
unfolding new entries files_for_block windows
files_for_block-two m id piece_length f g pieces i p e = ground arith
