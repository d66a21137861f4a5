-- ===== src/Disk/Files.antt =====
-- `src/disk/file.rs`: the files of a torrent, and the files that a block lies in.
pub mod Windows
use libp2p_bittorrent_protoc.Base.{
  ℕ, ◌+◌, ◌-◌, ◌*◌, Bool, true, false, ◌&&◌, List, [], ◌∷◌, Option, none, some, Result, ok, err,
  Outcome, done, panic, bind, ltb, leb, if◌then◌else◌, length, get_elem?,
}
use libp2p_bittorrent_protoc.Base.Vec.{push}
use libp2p_bittorrent_protoc.Hash.{ShaHash, eq_hash}
use libp2p_bittorrent_protoc.Disk.Block.{BlockMetadata, Block}
use Prim.Native.String.{String}
use libp2p_bittorrent_protoc.Disk.Error.{TorrentError, bad_piece}

pub record TorrentFileId : Type 0 where
  pub torrent : ℕ
  pub file : ℕ

-- The path, by which the entries are hashed, is left out.
pub record FileEntry : Type 0 where
  pub id : TorrentFileId
  pub offset : ℕ
  pub size : ℕ

pub record FileWindow : Type 0 where
  pub offset : ℕ
  pub length : ℕ

-- A file of several. The last of the paths is its name, those before are directories.
pub record SubFileInfo : Type 0 where
  pub length : ℕ
  pub paths : List String

pub data InfoContent : Type 0 where
  single : ℕ → InfoContent
  multi : List SubFileInfo → InfoContent

-- The set of files is the list of its entries in the order in which it is iterated. Of the meta info
-- only what this file reads is kept.
pub record TorrentFile : Type 0 where
  pub id : ℕ
  pub pieces : List ShaHash
  pub piece_length : ℕ
  pub files : List FileEntry

-- the fold of `TorrentFile::new`, from a file and an offset on
unfoldable pub entries : ℕ → ℕ → ℕ → List SubFileInfo → List FileEntry
entries id file_index offset [] = []
entries id file_index offset (file ∷ files) =
    record { id = record { torrent = id; file = file_index }; offset = offset; size = file.length }
    ∷ entries id (file_index + 1) (offset + file.length) files

unfoldable pub new : ℕ → List ShaHash → ℕ → InfoContent → TorrentFile
unfolding entries
new id pieces piece_length (single size) = record {
  id = id;
  pieces = pieces;
  piece_length = piece_length;
  files = record { id = record { torrent = id; file = 0 }; offset = 0; size = size } ∷ [];
}
new id pieces piece_length (multi files) = record {
  id = id;
  pieces = pieces;
  piece_length = piece_length;
  files = entries id 0 0 files;
}

-- `digest` is `ShaHash::from_bytes`, the SHA-1 of a package.
unfoldable pub is_good_piece : (List ℕ → ShaHash) → Block → TorrentFile → Bool
is_good_piece digest block t = elim (get_elem? t.pieces block.metadata.piece_index) [
  | none ↦ false
  | some piece_hash ↦ eq_hash (digest block.block_data) piece_hash
]

-- The loop of `files_for_block`, with the windows so far. `offset + size - block_start` is taken of
-- numbers without a sign, and panics in a build that checks for overflow.
unfoldable pub windows :
    ℕ
    → ℕ
    → ℕ
    → List FileEntry
    → List (FileEntry × FileWindow)
    → Outcome (List (FileEntry × FileWindow))
windows block_start block_end block_length [] files = done files
windows block_start block_end block_length (file ∷ rest) files =
    let overlap = windows block_start block_end block_length rest (
      push files (
        file,
        record { offset = block_start - file.offset; length = block_start - file.offset },
      )) in
    let follows =
      windows block_start block_end block_length rest
        (push files (file, record { offset = 0; length = block_end - file.offset + file.size })) in
    let skip = windows block_start block_end block_length rest files in
    if leb file.offset block_start
    then (if leb block_end (file.offset + file.size)
        then done
            ((file, record { offset = block_start - file.offset; length = block_length }) ∷ [])
        else if ltb (file.offset + file.size) block_start
        then panic
        else overlap)
    else if leb (file.size + file.offset) block_end
    then follows
    else skip

unfoldable pub files_for_block :
    BlockMetadata → TorrentFile → Outcome (Result (List (FileEntry × FileWindow)) TorrentError)
unfolding windows
files_for_block metadata t =
    if ltb metadata.piece_index (length t.pieces)
      && leb (metadata.block_offset + metadata.block_length) t.piece_length
    then (let piece_start = t.piece_length * metadata.piece_index in
        let block_start = piece_start + metadata.block_offset in
        let block_end = piece_start + metadata.block_offset + metadata.block_length in
        bind (windows block_start block_end metadata.block_length t.files [])
          (λ files. done (ok files)))
    else done (err (bad_piece metadata.piece_index))
