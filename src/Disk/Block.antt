-- ===== src/Disk/Block.antt =====
-- `src/disk/block.rs`, the first half: blocks of a piece and their metadata.
pub mod Convert
use libp2p_bittorrent_protoc.Base.{
  ℕ, ◌%◌, ◌^◌, ◌≡◌, ◌↔◌, Bool, true, ◌&&◌, List, [], arith, ◌==◌, Eq, length,
}
use libp2p_bittorrent_protoc.Crates.Bytes.{BytesMut}
use libp2p_bittorrent_protoc.Wire.Message.{PeerRequest, Piece}

-- u64, u64 and usize
pub record BlockMetadata : Type 0 where
  pub piece_index : ℕ
  pub block_offset : ℕ
  pub block_length : ℕ

-- `derive(PartialEq)`
abbrev pub eq_metadata : BlockMetadata → BlockMetadata → Bool
eq_metadata a b =
    (a.piece_index == b.piece_index)
    && ((a.block_offset == b.block_offset) && (a.block_length == b.block_length))

pub eq_metadata_iff : (a b : BlockMetadata) → (eq_metadata a b ≡ true) ↔ (a ≡ b)
eq_metadata_iff a b = ground arith

instance abbrev pub metadata_eq : Eq BlockMetadata
metadata_eq = record { eqb = eq_metadata; eqb_iff = eq_metadata_iff }

unfoldable pub new_metadata : ℕ → ℕ → ℕ → BlockMetadata
new_metadata piece_index block_offset block_length = record {
  piece_index = piece_index;
  block_offset = block_offset;
  block_length = block_length;
}

-- `From<PeerRequest> for BlockMetadata`: the casts widen.
unfoldable pub from_request : PeerRequest → BlockMetadata
from_request request = record {
  piece_index = request.index;
  block_offset = request.begin;
  block_length = request.length;
}

-- `Into<PeerRequest> for BlockMetadata`: the casts to u32 cut the high bits off.
unfoldable pub into_request : BlockMetadata → PeerRequest
into_request m = record {
  index = m.piece_index % 2 ^ 32;
  begin = m.block_offset % 2 ^ 32;
  length = m.block_length % 2 ^ 32;
}

pub record Block : Type 0 where
  pub metadata : BlockMetadata
  pub block_data : List ℕ

unfoldable pub is_correct_len : Block → Bool
is_correct_len b = length b.block_data == b.metadata.block_length

unfoldable pub is_valid_len : Block → Bool
is_valid_len b = b.metadata.block_length == length b.block_data

-- `From<Piece> for Block`
unfoldable pub from_piece : Piece → Block
unfolding new_metadata
from_piece piece = record {
  metadata = new_metadata piece.index piece.begin (length piece.block);
  block_data = piece.block;
}

-- `Into<Piece> for Block`
unfoldable pub into_piece : Block → Piece
into_piece b = record {
  index = b.metadata.piece_index % 2 ^ 32;
  begin = b.metadata.block_offset % 2 ^ 32;
  block = b.block_data;
}

-- a block in a buffer that can still be written
pub record BlockMut (B : Type 0) : Type 0 where
  pub metadata : BlockMetadata
  pub block_data : B

module _ {B : Type 0} ⦃b : BytesMut B⦄ where
  unfoldable pub empty_for_metadata : BlockMetadata → BlockMut B
  empty_for_metadata m = record { metadata = m; block_data = b.with_capacity m.block_length }

  -- `From<BlockMut> for Block`, by `freeze`
  unfoldable pub freeze : BlockMut B → Block
  freeze block = record { metadata = block.metadata; block_data = b.bytes block.block_data }

  unfoldable pub mut_into_piece : BlockMut B → Piece
  unfolding freeze into_piece
  mut_into_piece block = into_piece (freeze block)
