-- ===== src/Disk/Finalize.antt =====
-- `src/disk/block.rs`, the second half: what becomes of a block that was read or written.
pub mod Overlap
use libp2p_bittorrent_protoc.Base.{
  ℕ, ◌-◌, ◌^◌, Bool, true, false, List, [], ◌∷◌, ◌++◌, Result, ok, err, ◌==◌, if◌then◌else◌, length,
}
use libp2p_bittorrent_protoc.Base.Vec.{push}
use libp2p_bittorrent_protoc.Disk.Block.{BlockMetadata, Block}
use libp2p_bittorrent_protoc.Disk.Files.{TorrentFileId, FileWindow}

pub record BlockFile (F : Type 0) : Type 0 where
  pub id : TorrentFileId
  pub inner : F

pub data BlockState : Type 0 where
  seek process ready : BlockState

pub record BlockFileRead (F : Type 0) : Type 0 where
  pub file : BlockFile F
  pub block : List ℕ
  pub file_window : FileWindow
  pub read : ℕ
  pub state : BlockState

pub record BlockFileWrite (F : Type 0) : Type 0 where
  pub file : BlockFile F
  pub written : ℕ
  pub block : List ℕ
  pub file_window : FileWindow
  pub state : BlockState

pub data BlockRead (F : Type 0) : Type 0 where
  single : BlockMetadata → BlockFileRead F → BlockRead F
  overlap : ℕ → BlockMetadata → List (BlockFileRead F) → BlockRead F

pub data BlockWrite (F : Type 0) : Type 0 where
  single : BlockMetadata → BlockFileWrite F → BlockWrite F
  overlap : ℕ → BlockMetadata → List (BlockFileWrite F) → BlockWrite F

pub data BlockJob (F : Type 0) : Type 0 where
  read : BlockRead F → BlockJob F
  write : BlockWrite F → BlockJob F

-- A mutable block that was read is the block of its bytes.
pub data BlockResult (F : Type 0) : Type 0 where
  read write : ℕ → List (BlockFile F) → Result Block BlockMetadata → BlockResult F

-- `!n` on a usize of 64 bits is the complement of its bits.
unfoldable pub complement : ℕ → ℕ
complement n = 2 ^ 64 - 1 - n

unfoldable pub block_if : Bool → BlockMetadata → List ℕ → Result Block BlockMetadata
block_if valid metadata octets =
    if valid then ok (record { metadata = metadata; block_data = octets }) else err metadata

module _ {F : Type 0} where
  -- The loop over the files of a read, with the flag and the bytes so far. As in the source, it is
  -- the complement of the length that is compared.
  unfoldable pub collect_read : List (BlockFileRead F) → Bool → List ℕ → Bool × List ℕ
  unfolding complement
  collect_read [] valid block = (valid, block)
  collect_read (file ∷ blocks) valid block =
      let still =
        if complement (length file.block) == file.file_window.length then valid else false in
      collect_read blocks still (if still then block ++ file.block else block)

  unfoldable pub collect_write : List (BlockFileWrite F) → Bool → List ℕ → Bool × List ℕ
  unfolding complement
  collect_write [] valid block = (valid, block)
  collect_write (file ∷ blocks) valid block =
      let still = if complement file.written == length file.block then valid else false in
      collect_write blocks still (if still then block ++ file.block else block)

  abbrev read_files : List (BlockFileRead F) → List (BlockFile F)
  read_files [] = []
  read_files (file ∷ blocks) = file.file ∷ read_files blocks

  abbrev written_files : List (BlockFileWrite F) → List (BlockFile F)
  written_files [] = []
  written_files (file ∷ blocks) = file.file ∷ written_files blocks

  unfoldable pub finalize_read : BlockRead F → BlockResult F
  unfolding collect_read block_if
  finalize_read (BlockRead.single metadata block) =
      BlockResult.read block.file.id.torrent (block.file ∷ [])
        (block_if (length block.block == block.file_window.length) metadata block.block)
  finalize_read (BlockRead.overlap torrent metadata blocks) =
      let (valid, octets) = collect_read blocks true [] in
      BlockResult.read torrent (read_files blocks) (block_if valid metadata octets)

  unfoldable pub finalize_write : BlockWrite F → BlockResult F
  unfolding collect_write block_if
  finalize_write (BlockWrite.single metadata block) =
      BlockResult.write block.file.id.torrent (block.file ∷ [])
        (block_if (block.written == block.file_window.length) metadata block.block)
  finalize_write (BlockWrite.overlap torrent metadata blocks) =
      let (valid, octets) = collect_write blocks true [] in
      BlockResult.write torrent (written_files blocks) (block_if valid metadata octets)

  unfoldable pub finalize : BlockJob F → BlockResult F
  unfolding finalize_read finalize_write
  finalize (BlockJob.read job) = finalize_read job
  finalize (BlockJob.write job) = finalize_write job
