-- ===== src/Disk/Manager/Tests.antt =====
-- The theorems on the disk manager at a torrent of one file.
use libp2p_bittorrent_protoc.Base.{
  ℕ, ◌+◌, ◌≡◌, ◌&&◌, ◌↔◌, refl, Bool, true, List, [], ◌∷◌, ok, done, pending, ready, nat_eq, arith,
  Eq, ◌==◌,
}
use libp2p_bittorrent_protoc.Base.Map
use libp2p_bittorrent_protoc.Crates.Instances.{map_cache}
use libp2p_bittorrent_protoc.Hash.{ShaHash, eq_hash}
use libp2p_bittorrent_protoc.Disk.Block.{Block}
use libp2p_bittorrent_protoc.Meta.Tests.{bare}
use libp2p_bittorrent_protoc.Disk.Files.{single, TorrentFileId, FileWindow, TorrentFile}
use libp2p_bittorrent_protoc.Disk.FileSystem.{FileSystem, OpenFile}
use libp2p_bittorrent_protoc.Disk.Finalize.{BlockFile, BlockJob, BlockWrite}
use libp2p_bittorrent_protoc.Disk.Message.{read_block, sync_torrent}
use libp2p_bittorrent_protoc.Disk.Transfer.{new_write}
use libp2p_bittorrent_protoc.Disk.Manager.{FileState, busy, DiskManager}
use libp2p_bittorrent_protoc.Disk.Manager.Jobs.{poll_create_block_write, drain, waits}
use libp2p_bittorrent_protoc.Disk.Manager.Waits.{IsRequeued, drain-waits}
use libp2p_bittorrent_protoc.Meta.{MetaInfo}

abbrev eq_file_id : TorrentFileId → TorrentFileId → Bool
eq_file_id a b = (a.torrent == b.torrent) && (a.file == b.file)

eq_file_id_iff : (a b : TorrentFileId) → (eq_file_id a b ≡ true) ↔ (a ≡ b)
eq_file_id_iff a b = ground arith

instance abbrev file_id_eq : Eq TorrentFileId
file_id_eq = record { eqb = eq_file_id; eqb_iff = eq_file_id_iff }

-- A file is a number, and opens at once.
instance abbrev opens : OpenFile (Unit {0}) ℕ
opens = record { poll_open_file = λ s file. (s, ready (ok 5)) }

abbrev files : FileSystem ℕ ℕ
files = record {
  poll_seek = λ f n. (f, ready (ok n));
  poll_read_block = λ f buf. (f, buf, pending);
  poll_write_block = λ f buf. (f, pending);
}

abbrev Cache : Type 0
Cache = List (TorrentFileId × FileState ℕ)

abbrev Manager : Type 0
Manager = DiskManager ℕ Cache (Unit {0}) MetaInfo

-- the sum of the bytes, in place of a digest
abbrev total : List ℕ → ℕ
total [] = 0
total (n ∷ ns) = n + total ns

abbrev digest : List ℕ → ShaHash
digest l = record { hash = total l ∷ [] }

abbrev meta : MetaInfo
meta =
    bare
      (record {
        name = "a";
        pieces = digest (1 ∷ 2 ∷ []) ∷ [];
        piece_length = 2;
        content = single 2;
      })
      (digest [])

abbrev the_file : TorrentFileId
the_file = record { torrent = 0; file = 0 }

abbrev torrent : TorrentFile
torrent = record {
  id = 0;
  pieces = meta.info.pieces;
  piece_length = 2;
  files = record { id = the_file; offset = 0; size = 2 } ∷ [];
}

abbrev manager : Manager
manager = record {
  active_blocks = [];
  file_cache = [];
  torrents = (0, (torrent, meta)) ∷ [];
  file_system = tt;
  queued_events = [];
}

abbrev whole : FileWindow
whole = record { offset = 0; length = 2 }

abbrev piece : Block
piece = record {
  metadata = record { piece_index = 0; block_offset = 0; block_length = 2 };
  block_data = 1 ∷ 2 ∷ [];
}

abbrev taken : Manager
taken = record manager { file_cache = (the_file, busy whole) ∷ [] }

abbrev handed : List (FileWindow × BlockFile ℕ)
handed = (whole, record { id = the_file; inner = 5 }) ∷ []

abbrev job : BlockJob ℕ
unfolding new_write
job = BlockJob.write (
    BlockWrite.single piece.metadata
      (new_write (record { id = the_file; inner = 5 }) piece.block_data whole))

makes_job : poll_create_block_write digest 0 piece manager ≡ done (taken, ready (ok job))
unfolding poll_create_block_write Map.get Map.insert Map.remove job eq_hash
makes_job = refl

-- the file is with a job: the read waits
abbrev waiting : Manager
waiting = record taken { queued_events = sync_torrent 0 ∷ read_block 0 piece.metadata ∷ [] }

waits_for_file :
    drain files digest (sync_torrent 0 ∷ read_block 0 piece.metadata ∷ sync_torrent 1 ∷ []) waiting
    ≡ done
        (record taken { queued_events = sync_torrent 1 ∷ read_block 0 piece.metadata ∷ [] }, waits)
unfolding drain Map.get Map.insert Map.remove
waits_for_file = refl

drain-waits_example :
    IsRequeued {M = MetaInfo}
      (sync_torrent 0 ∷ read_block 0 piece.metadata ∷ sync_torrent 1 ∷ [])
      (sync_torrent 1 ∷ read_block 0 piece.metadata ∷ [])
drain-waits_example =
    drain-waits files digest (sync_torrent 0 ∷ read_block 0 piece.metadata ∷ sync_torrent 1 ∷ [])
      waiting (record taken { queued_events = sync_torrent 1 ∷ read_block 0 piece.metadata ∷ [] })
      waits_for_file

abbrev the_block_file : BlockFile ℕ
the_block_file = record { id = the_file; inner = 5 }

abbrev three : FileWindow
three = record { offset = 0; length = 3 }
