-- ===== src/Disk/FileSystem.antt =====
-- The trait `FileSystem` of `src/disk/fs.rs`, as far as the transfers of blocks use it. A call may
-- change the file, and gives what it answers.
use libp2p_bittorrent_protoc.Base.{ℕ, List, Result, Poll}
use libp2p_bittorrent_protoc.Disk.Files.{FileEntry}

pub record FileSystem (F E : Type 0) : Type 0 where
  pub poll_seek : F → ℕ → F × Poll (Result ℕ E)
  -- the buffer that is read into, and then the file and the buffer
  pub poll_read_block : F → List ℕ → F × List ℕ × Poll (Result ℕ E)
  pub poll_write_block : F → List ℕ → F × Poll (Result ℕ E)

-- The calls that open a file, by the path that its entry stands for; `S` is what they change.
-- The error is not read.
pub record OpenFile (S F : Type 0) : Type 0 where
  pub poll_open_file : S → FileEntry → S × Poll (Result F (Unit {0}))
