-- ===== src/Peer/Handler.antt =====
-- `TorrentPieceHandler` of `src/peer/piece.rs`: the pieces and the peers of one torrent.
pub mod Events
pub mod Select
pub mod Sound
pub mod Steps
pub mod Keeps
pub mod Runs
pub mod Seeds
pub mod Finish
pub mod Twice
use libp2p_bittorrent_protoc.Base.{
  ℕ, ◌+◌, ◌-◌, Bool, true, false, not, ◌&&◌, List, [], ◌∷◌, Option, none, some, Result, ok, err,
  ltb, ◌==◌, Eq, same, if◌then◌else◌, length,
}
use libp2p_bittorrent_protoc.Base.Map
use libp2p_bittorrent_protoc.Base.Vec.{push, position, remove_at}
use libp2p_bittorrent_protoc.Crates.BitVec.{BitVec}
use libp2p_bittorrent_protoc.Crates.Rng.{Rng}
use libp2p_bittorrent_protoc.Disk.Block.{BlockMetadata, Block, eq_metadata}
use libp2p_bittorrent_protoc.Wire.Message.{BitField}
use libp2p_bittorrent_protoc.Peer.State.{
  BitTorrentPeer, ChokeType, InterestType, choked, un_choked, remote_can_seed,
  remote_can_seed_piece, has_bitfield, add_piece, set_bitfield, unwrap_or_default,
}
use libp2p_bittorrent_protoc.Peer.Buffer.{
  PieceBuffer, NextBlock, BlockErr, TorrentError, not_requested, is_full_piece, try_finalize_piece,
}
use libp2p_bittorrent_protoc.Peer.Buffer

pub data PieceSelection : Type 0 where
  random rarest : PieceSelection

pub data TorrentPieceHandlerState (P : Type 0) : Type 0 where
  waiting_peers : TorrentPieceHandlerState P
  leech_block : Option (NextBlock P) → TorrentPieceHandlerState P
  piece_finished : Result Block TorrentError → TorrentPieceHandlerState P
  finished endgame seed : TorrentPieceHandlerState P

-- The request id is the u64 of the connection.
pub record TorrentPieceHandler (P V I : Type 0) : Type 0 where
  pub id : ℕ
  pub selection_strategy : PieceSelection
  pub piece_buffer : Option (PieceBuffer P)
  pub pending_seed_blocks : List (P × ℕ × BlockMetadata)
  pub bitfield : BitField V
  pub piece_length : ℕ
  pub last_piece_length : ℕ
  pub peers : List (P × BitTorrentPeer V I)
  pub endgame : Bool
  pub finished : Bool

module _ {P V I : Type 0} ⦃v : BitVec V⦄ where
  unfoldable pub new : ℕ → PieceSelection → BitField V → ℕ → ℕ → TorrentPieceHandler P V I
  new id selection_strategy bitfield piece_length last_piece_length = record {
    id = id;
    selection_strategy = selection_strategy;
    piece_buffer = none;
    pending_seed_blocks = [];
    bitfield = bitfield;
    piece_length = piece_length;
    last_piece_length = last_piece_length;
    peers = [];
    endgame = false;
    finished = v.all bitfield.inner;
  }

  unfoldable pub has_piece : ℕ → TorrentPieceHandler P V I → Bool
  has_piece piece_index h = unwrap_or_default (v.get h.bitfield.inner piece_index)

  unfoldable pub set_piece :
      ℕ → TorrentPieceHandler P V I → TorrentPieceHandler P V I × Result (Unit {0}) (Unit {0})
  set_piece piece_index h =
      if ltb piece_index (v.len h.bitfield.inner)
      then (
        record h { bitfield = record { inner = v.write h.bitfield.inner piece_index true } },
        ok tt,
      )
      else (h, err tt)

  unfoldable pub clear_piece :
      ℕ → TorrentPieceHandler P V I → TorrentPieceHandler P V I × Result (Unit {0}) (Unit {0})
  clear_piece piece_index h =
      if ltb piece_index (v.len h.bitfield.inner)
      then (
        record h { bitfield = record { inner = v.write h.bitfield.inner piece_index false } },
        ok tt,
      )
      else (h, err tt)

  unfoldable pub clear_buffer :
      TorrentPieceHandler P V I → TorrentPieceHandler P V I × Option (PieceBuffer P)
  clear_buffer h = (record h { piece_buffer = none }, h.piece_buffer)

  -- `len - 1` is taken of a field that is not empty
  unfoldable pub piece_length_of : ℕ → TorrentPieceHandler P V I → ℕ
  piece_length_of piece_index h =
      if piece_index == v.len h.bitfield.inner - 1 then h.last_piece_length else h.piece_length

  -- `map` and `collect` into an `Option`: one peer that cannot seed the piece makes it `none`.
  unfoldable pub collect_seeders : ℕ → List (P × BitTorrentPeer V I) → Option (List P)
  collect_seeders piece_index [] = some []
  collect_seeders piece_index ((id, peer) ∷ peers) = elim (collect_seeders piece_index peers) [
    | none ↦ none
    | some ids ↦ if remote_can_seed_piece piece_index peer then some (id ∷ ids) else none
  ]

abbrev pub is_current : Option ℕ → ℕ → Bool
is_current none i = false
is_current (some c) i = c == i

-- `iter().enumerate().filter(…).map(…)` over the bits, from bit `i` on
unfoldable pub missing_from : ℕ → Option ℕ → List Bool → List ℕ
missing_from i current [] = []
missing_from i current (bit ∷ bits) =
    let rest = missing_from (i + 1) current bits in
    if not bit && not (is_current current i) then i ∷ rest else rest

module _ {P V I : Type 0} ⦃v : BitVec V⦄ where
  unfoldable pub missing_piece_indices : TorrentPieceHandler P V I → List ℕ
  unfolding missing_from
  missing_piece_indices h =
      missing_from 0 (elim h.piece_buffer [ none ↦ none | some b ↦ some b.piece_index ])
        (v.iter h.bitfield.inner)

  unfoldable pub buffer_for : TorrentPieceHandler P V I → ℕ → List P → PieceBuffer P
  unfolding piece_length_of
  buffer_for h piece_index peers = Buffer.new piece_index (piece_length_of piece_index h) h.id peers

  -- the loop of `next_random_piece`
  unfoldable pub first_piece : TorrentPieceHandler P V I → List ℕ → Option (PieceBuffer P)
  unfolding collect_seeders buffer_for
  first_piece h [] = none
  first_piece h (piece_index ∷ missing) =
      let rest = first_piece h missing in
      elim (collect_seeders piece_index h.peers) [
        | some peers ↦ some (buffer_for h piece_index peers)
        | none ↦ rest
      ]

  -- the loop of `next_least_common_piece`, with the rarest piece so far
  unfoldable pub rarest_piece :
      TorrentPieceHandler P V I → List ℕ → Option (ℕ × List P) → Option (PieceBuffer P)
  unfolding collect_seeders buffer_for
  rarest_piece h [] best = elim best [
    | none ↦ none
    | some (piece_index, peers) ↦ some (buffer_for h piece_index peers)
  ]
  rarest_piece h (piece_index ∷ missing) best =
      let skip = rarest_piece h missing best in
      elim (collect_seeders piece_index h.peers) [
        | none ↦ skip
        | some peers ↦
            let take = rarest_piece h missing (some (piece_index, peers)) in
            if length peers == 1 then some (buffer_for h piece_index peers) else elim best [
              | none ↦ take
              | some (_, rare_peer) ↦ if ltb (length peers) (length rare_peer) then take else skip
            ]
      ]

  -- `peers.values().any(remote_can_seed)`
  unfoldable pub any_can_seed : List (P × BitTorrentPeer V I) → Bool
  any_can_seed [] = false
  any_can_seed ((id, peer) ∷ peers) = if remote_can_seed peer then true else any_can_seed peers

module _ {P V I R : Type 0} ⦃v : BitVec V⦄ ⦃r : Rng R⦄ where
  unfoldable pub next_random_piece : R → TorrentPieceHandler P V I → Option (PieceBuffer P)
  unfolding first_piece missing_piece_indices
  next_random_piece rnd h = first_piece h (r.shuffle rnd (missing_piece_indices h))

  unfoldable pub next_least_common_piece : R → TorrentPieceHandler P V I → Option (PieceBuffer P)
  unfolding rarest_piece missing_piece_indices any_can_seed
  next_least_common_piece rnd h =
      if not (any_can_seed h.peers)
      then none
      else rarest_piece h (r.shuffle rnd (missing_piece_indices h)) none

  unfoldable pub next_piece_buffer : R → TorrentPieceHandler P V I → Option (PieceBuffer P)
  unfolding next_random_piece next_least_common_piece
  next_piece_buffer rnd h = elim h.selection_strategy [
    | random ↦ next_random_piece rnd h
    | rarest ↦ next_least_common_piece rnd h
  ]
