-- ===== src/Peer/Buffer.antt =====
-- `PieceBuffer` of `src/peer/piece.rs`: drives one piece to completion, block by block.
pub mod Layout
pub mod Tracked
pub mod Accept
pub mod Finish
pub mod Data
pub mod Runs
pub mod Overwrite
pub mod Blocks
use libp2p_bittorrent_protoc.Base.{
  ℕ, zero, suc, ◌+◌, ◌-◌, ◌*◌, ◌/◌, ◌%◌, Bool, true, false, List, [], ◌∷◌, ◌++◌, Option, none, some,
  Result, ok, err, ltb, ◌==◌, Eq, same, if◌then◌else◌, length,
}
use libp2p_bittorrent_protoc.Base.Map.{get, insert, remove, values}
use libp2p_bittorrent_protoc.Base.Vec.{push, pop, position, remove_at}
pub use libp2p_bittorrent_protoc.Disk.Error.{TorrentError, bad_piece}
use libp2p_bittorrent_protoc.Disk.Block.{
  BlockMetadata, Block, eq_metadata, new_metadata, is_correct_len,
}

abbrev pub block_size : ℕ
block_size = 16384

-- `BTreeMap<u64, Block>` is the list of its entries in the order of their keys.
unfoldable pub insert_block : ℕ → Block → List (ℕ × Block) → List (ℕ × Block)
insert_block k b [] = (k, b) ∷ []
insert_block k b ((j, c) ∷ m) =
    let rest = (j, c) ∷ insert_block k b m in
    if ltb k j then (k, b) ∷ (j, c) ∷ m else if k == j then (k, b) ∷ m else rest

pub record PieceBuffer (P : Type 0) : Type 0 where
  pub torrent_id : ℕ
  pub missing_blocks : List BlockMetadata
  pub pending_blocks : List (P × BlockMetadata)
  pub piece_index : ℕ
  pub blocks : List (ℕ × Block)
  pub peers : List P
  pub piece_length : ℕ
  pub total_blocks : ℕ
  pub last_block_size : ℕ

pub record NextBlock (P : Type 0) : Type 0 where
  pub torrent_id : ℕ
  pub block_metadata : BlockMetadata
  pub peer_id : P

-- `BlockErr` of `src/behavior.rs`
pub data BlockErr (P : Type 0) : Type 0 where
  not_requested : P → Block → BlockErr P
  invalid_block : P → BlockMetadata → Block → BlockErr P

-- the fold over `0..num_full_blocks`, from `index` on
unfoldable pub full_blocks : ℕ → ℕ → ℕ → List BlockMetadata
unfolding new_metadata
full_blocks piece_index index zero = []
full_blocks piece_index index (suc n) =
    new_metadata piece_index (index * block_size) block_size ∷ full_blocks piece_index (index + 1) n

-- the blocks of a piece, the last of which may be shorter
unfoldable pub layout : ℕ → ℕ → List BlockMetadata
unfolding full_blocks
layout piece_index piece_length =
    let num_full_blocks = piece_length / block_size in
    let last_block_size = piece_length % block_size in
    let missing = full_blocks piece_index 0 num_full_blocks in
    if ltb 0 last_block_size
    then push missing (new_metadata piece_index (piece_length - last_block_size) last_block_size)
    else missing

-- the loop over `blocks.values()`, with the bytes written so far
unfoldable pub gather : ℕ → List Block → List ℕ → Result (List ℕ) TorrentError
unfolding is_correct_len
gather piece_index [] buffer = ok buffer
gather piece_index (block ∷ rest) buffer =
    let more = gather piece_index rest (buffer ++ block.block_data) in
    if is_correct_len block then more else err (bad_piece piece_index)

module _ {P : Type 0} where
  unfoldable pub new : ℕ → ℕ → ℕ → List P → PieceBuffer P
  unfolding layout
  new piece_index piece_length torrent_id peers = record {
    torrent_id = torrent_id;
    missing_blocks = layout piece_index piece_length;
    pending_blocks = [];
    piece_index = piece_index;
    blocks = [];
    peers = peers;
    piece_length = piece_length;
    total_blocks = length (layout piece_index piece_length);
    last_block_size = piece_length % block_size;
  }

  unfoldable pub is_full_piece : PieceBuffer P → Bool
  is_full_piece b = length b.blocks == b.total_blocks

  unfoldable pub try_finalize_piece : PieceBuffer P → Result Block TorrentError
  unfolding gather new_metadata
  try_finalize_piece b = elim (gather b.piece_index (values b.blocks) []) [
    | ok buffer ↦
        ok (record { metadata = new_metadata b.piece_index 0 b.piece_length; block_data = buffer })
    | err e ↦ err e
  ]

module _ {P : Type 0} ⦃e : Eq P⦄ where
  unfoldable pub next : PieceBuffer P → PieceBuffer P × Option (NextBlock P)
  next b = elim (pop b.peers) [
    | none ↦ (b, none)
    | some (peers, peer) ↦ elim (pop b.missing_blocks) [
      | some (missing, block) ↦ (
        record b {
          peers = peers;
          missing_blocks = missing;
          pending_blocks = insert peer block b.pending_blocks;
        },
        some (record { torrent_id = b.torrent_id; block_metadata = block; peer_id = peer }),
      )
      | none ↦ (record b { peers = push peers peer }, none)
    ]
  ]

  unfoldable pub remove_peer : P → PieceBuffer P → PieceBuffer P × Option P
  remove_peer peer b = elim (position (λ x. same x peer) b.peers) [
    | some pos ↦ (record b { peers = remove_at b.peers pos }, some peer)
    | none ↦ elim (get peer b.pending_blocks) [
      | some block ↦ (
        record b {
          pending_blocks = remove peer b.pending_blocks;
          missing_blocks = push b.missing_blocks block;
        },
        some peer,
      )
      | none ↦ (b, none)
    ]
  ]

  unfoldable pub add_block :
      P → Block → PieceBuffer P → PieceBuffer P × Result BlockMetadata (BlockErr P)
  add_block peer block b = elim (get peer b.pending_blocks) [
    | some expected ↦
        if eq_metadata block.metadata expected
        then (
          record b {
            pending_blocks = remove peer b.pending_blocks;
            blocks = insert_block block.metadata.block_offset block b.blocks;
            peers = push b.peers peer;
          },
          ok expected,
        )
        else (
          record b {
            pending_blocks = remove peer b.pending_blocks;
            missing_blocks = push b.missing_blocks expected;
            peers = push b.peers peer;
          },
          err (invalid_block peer expected block),
        )
    | none ↦ (b, err (not_requested peer block))
  ]
