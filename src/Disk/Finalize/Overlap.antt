-- ===== src/Disk/Finalize/Overlap.antt =====
-- Jobs that span files: every one of them is reported as failed.
use libp2p_bittorrent_protoc.Base.{ℕ, ◌^◌, ◌<◌, ◌≡◌, false, List, [], ◌∷◌, err, length, arith}
use libp2p_bittorrent_protoc.Disk.Block.{BlockMetadata}
use libp2p_bittorrent_protoc.Disk.Finalize.{
  BlockFileRead, BlockFileWrite, BlockRead, BlockWrite, BlockResult, collect_read, collect_write,
  block_if, complement, finalize_read, finalize_write, read_files, written_files,
}

module _ {F : Type 0} where
  collect_read-false :
      (blocks : List (BlockFileRead F)) (octets : List ℕ)
      → (collect_read blocks false octets).0 ≡ false
  unfolding collect_read
  collect_read-false [] octets = ground arith
  collect_read-false (f ∷ blocks) octets = ground (arith, collect_read-false blocks octets)

  collect_write-false :
      (blocks : List (BlockFileWrite F)) (octets : List ℕ)
      → (collect_write blocks false octets).0 ≡ false
  unfolding collect_write
  collect_write-false [] octets = ground arith
  collect_write-false (f ∷ blocks) octets = ground (arith, collect_write-false blocks octets)

  -- A read that spans files is reported as failed where its first file has given as many bytes as
  -- its window has, if these are fewer than half of what 64 bits can count.
  pub finalize_read-overlap :
      (torrent : ℕ) (m : BlockMetadata) (f : BlockFileRead F) (blocks : List (BlockFileRead F))
      → length f.block ≡ f.file_window.length
      → length f.block < 2 ^ 63
      → finalize_read (BlockRead.overlap torrent m (f ∷ blocks))
        ≡ BlockResult.read torrent (f.file ∷ read_files blocks) (err m)
  unfolding finalize_read collect_read block_if complement
  finalize_read-overlap torrent m f blocks h s = ground (arith, collect_read-false blocks [])

  -- A write that spans files is reported as failed where its first file was written to the end, if
  -- the bytes are fewer than half of what 64 bits can count.
  pub finalize_write-overlap :
      (torrent : ℕ) (m : BlockMetadata) (f : BlockFileWrite F) (blocks : List (BlockFileWrite F))
      → f.written ≡ length f.block
      → f.written < 2 ^ 63
      → finalize_write (BlockWrite.overlap torrent m (f ∷ blocks))
        ≡ BlockResult.write torrent (f.file ∷ written_files blocks) (err m)
  unfolding finalize_write collect_write block_if complement
  finalize_write-overlap torrent m f blocks h s = ground (arith, collect_write-false blocks [])
