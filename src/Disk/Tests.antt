-- ===== src/Disk/Tests.antt =====
-- The theorems on blocks at concrete values.
use libp2p_bittorrent_protoc.Base.{
  Poll, pending, ready, zero, suc, Result, ℕ, ◌+◌, ◌≡◌, ◌==◌, refl, List, [], ◌∷◌, ok, done, panic,
  arith, replicate, length, ltb, leb, if◌then◌else◌,
}
use libp2p_bittorrent_protoc.Wire.Message.{PeerRequest}
use libp2p_bittorrent_protoc.Disk.Block.{BlockMetadata, Block}
use libp2p_bittorrent_protoc.Hash.{ShaHash}
use libp2p_bittorrent_protoc.Disk.Files.{SubFileInfo, multi, new, files_for_block}
use libp2p_bittorrent_protoc.Disk.Files.Windows.{
  holding, holding-new, files_for_block-two, first_of, second_of,
}
use libp2p_bittorrent_protoc.Disk.FileSystem.{FileSystem}
use libp2p_bittorrent_protoc.Disk.Finalize.{
  BlockFileRead, BlockFileWrite, BlockRead, BlockResult, seek, process, finalize_read,
}
use libp2p_bittorrent_protoc.Disk.Finalize
use libp2p_bittorrent_protoc.Disk.Transfer.{poll_write}
use libp2p_bittorrent_protoc.Disk.Transfer.Written.{moved_to, poll_write-poll_write}

abbrev some_request : PeerRequest
some_request = record { index = 3; begin = 16384; length = 16384 }

abbrev two_bytes : Block
two_bytes = record {
  metadata = record { piece_index = 1; block_offset = 4; block_length = 2 };
  block_data = 8 ∷ 9 ∷ [];
}

abbrev sized : ℕ → SubFileInfo
sized n = record { length = n; paths = "a" ∷ [] }

-- a torrent of three files of 3, 4 and 5 bytes
holding-new_example : holding 6 (new 0 [] 12 (multi (sized 3 ∷ sized 4 ∷ sized 5 ∷ []))).files ≡ 1
holding-new_example = holding-new 6 0 12 [] (sized 3 ∷ sized 4 ∷ sized 5 ∷ []) (omega arith)

abbrev four_at_four : BlockMetadata
four_at_four = record { piece_index = 1; block_offset = 4; block_length = 4 }

abbrev some_hash : ShaHash
some_hash = record { hash = replicate 20 1 }

-- the second file begins at byte 10, and the block at byte 12
abbrev in_second : BlockMetadata
in_second = record { piece_index = 1; block_offset = 4; block_length = 3 }

files_for_block-two_example :
    files_for_block in_second
      (new 0 (some_hash ∷ some_hash ∷ []) 8 (multi (sized 10 ∷ sized 6 ∷ [])))
    ≡ (if leb 15 10
        then done (ok ((first_of 0 10, record { offset = 12; length = 3 }) ∷ []))
        else if ltb 10 12
        then panic
        else if 10 == 12
        then done (ok ((second_of 0 10 6, record { offset = 0; length = 3 }) ∷ []))
        else if 15 == 16
        then done (
            ok (
              (first_of 0 10, record { offset = 12; length = 12 })
              ∷ (second_of 0 10 6, record { offset = 0; length = 11 })
              ∷ []))
        else done (ok ((first_of 0 10, record { offset = 12; length = 12 }) ∷ [])))
files_for_block-two_example =
    files_for_block-two in_second 0 8 (sized 10) (sized 6) (some_hash ∷ some_hash ∷ [])
      (omega arith) (omega arith) (omega arith)

abbrev two_read : BlockFileRead ℕ
two_read = record {
  file = record { id = record { torrent = 0; file = 0 }; inner = 0 };
  block = 8 ∷ 9 ∷ [];
  file_window = record { offset = 0; length = 2 };
  read = 2;
  state = Finalize.ready;
}

-- a file system that writes one byte at a time, to a file that counts them
abbrev slow : FileSystem ℕ ℕ
slow = record {
  poll_seek = λ f at. (at, ready (ok at));
  poll_read_block = λ f octets. (f, octets, pending);
  poll_write_block = λ f octets. (f + 1, elim octets [ [] ↦ pending | x ∷ xs ↦ ready (ok 1) ]);
}

abbrev half_written : BlockFileWrite ℕ
half_written = record {
  file = record { id = record { torrent = 0; file = 0 }; inner = 1 };
  written = 1;
  block = 8 ∷ 9 ∷ [];
  file_window = record { offset = 0; length = 2 };
  state = process;
}

abbrev put_at : ℕ → ℕ → List ℕ → List ℕ
put_at at x [] = []
put_at zero x (y ∷ ys) = x ∷ ys
put_at (suc at) x (y ∷ ys) = y ∷ put_at at x ys

abbrev write_first : ℕ × List ℕ → List ℕ → (ℕ × List ℕ) × Poll (Result ℕ ℕ)
write_first file [] = (file, ready (ok 0))
write_first (at, bytes) (x ∷ xs) = ((at + 1, put_at at x bytes), ready (ok 1))

-- a file of bytes with a place in it, of which a call writes one
abbrev in_memory : FileSystem (ℕ × List ℕ) ℕ
in_memory = record {
  poll_seek = λ f at. ((at, f.1), ready (ok at));
  poll_read_block = λ f octets. (f, octets, pending);
  poll_write_block = write_first;
}

abbrev fresh_write : BlockFileWrite (ℕ × List ℕ)
fresh_write = record {
  file = record { id = record { torrent = 0; file = 0 }; inner = (0, 0 ∷ 0 ∷ []) };
  written = 0;
  block = 8 ∷ 9 ∷ [];
  file_window = record { offset = 0; length = 2 };
  state = seek;
}

-- the write of 8 and 9 is done, and the file holds 9 and 0
poll_write-poll_write_example :
    (poll_write in_memory fresh_write ≡ done (moved_to fresh_write (1, 8 ∷ 0 ∷ []) 1, pending))
    × (poll_write in_memory (moved_to fresh_write (1, 8 ∷ 0 ∷ []) 1)
        ≡ done (
          record (moved_to fresh_write (1, 9 ∷ 0 ∷ []) 2) { state = Finalize.ready },
          ready (ok tt),
        ))
poll_write-poll_write_example =
    poll_write-poll_write in_memory fresh_write (0, 0 ∷ 0 ∷ []) (1, 8 ∷ 0 ∷ []) (0, 8 ∷ 0 ∷ [])
      (1, 9 ∷ 0 ∷ []) 0 0 1 1 refl (omega arith) (omega arith) (omega arith) refl refl refl refl
