-- ===== src/Peer/Pool.antt =====
-- `TorrentPool` of `src/peer/torrent.rs`: all the torrents, and the events of their peers.
pub mod Admission
pub mod Requests
pub mod Members
pub mod Trade
pub mod Served
pub mod Queries
pub mod Candidates
use libp2p_bittorrent_protoc.Base.{
  ℕ, ◌+◌, Bool, true, false, List, [], ◌∷◌, Option, none, some, Result, ok, err, Outcome, done, Eq,
  nat_eq, if◌then◌else◌, ltb,
}
use libp2p_bittorrent_protoc.Base.Map
use libp2p_bittorrent_protoc.Crates.BitVec.{BitVec}
use libp2p_bittorrent_protoc.Crates.Instant.{Instant}
use libp2p_bittorrent_protoc.Crates.Rng.{Rng}
use libp2p_bittorrent_protoc.Hash.{ShaHash, eq_hash}
use libp2p_bittorrent_protoc.Wire.Message.{BitField, Handshake, new_handshake}
use libp2p_bittorrent_protoc.Disk.Block.{BlockMetadata, Block}
use libp2p_bittorrent_protoc.Peer.State.{
  BitTorrentPeer, ChokeType, InterestType, interested, not_interested, new_peer, set_bitfield,
  is_having_missing_pieces_for,
}
use libp2p_bittorrent_protoc.Peer.Buffer.{BlockErr, not_requested}
use libp2p_bittorrent_protoc.Peer.Handler.{PieceSelection}
use libp2p_bittorrent_protoc.Peer.Handler
use libp2p_bittorrent_protoc.Peer.Handler.Events.{
  get_peer, update_peer, insert_peer, insert_block_seed, remove_pending_seed_by_request,
  clear_pending_seed_block,
}
use libp2p_bittorrent_protoc.Peer.Handler.Events
use libp2p_bittorrent_protoc.Peer.Torrent.{
  Torrent, TorrentState, active, paused, SeedLeechConfig, TorrentPoolState, idle, waiting,
  is_active, is_leeching, state_is_active, contains_peer, on_handler, can_seed_piece_to,
}
use libp2p_bittorrent_protoc.Peer.Torrent

-- `TorrentConfig` of `src/peer/builder.rs`
pub record TorrentConfig (V : Type 0) : Type 0 where
  pub info_hash : ShaHash
  pub state : TorrentState
  pub bitfield : BitField V
  pub piece_length : ℕ
  pub last_piece_length : ℕ
  pub seed_leech : SeedLeechConfig

-- `peer_timeout`, `max_simultaneous_downloads` and `move_completed_downloads` are never read.
pub record TorrentPool (P V I : Type 0) : Type 0 where
  pub local_peer_hash : ShaHash
  pub local_peer_id : P
  pub torrents : List (ℕ × Torrent P V I)
  pub max_active_torrents : ℕ
  pub initial_piece_selection_strategy : PieceSelection
  pub next_unique_torrent : ℕ

-- `HandshakeError` of `src/behavior.rs`
pub data HandshakeError (P : Type 0) : Type 0 where
  info_hash_mismatch invalid_peer : P → Option ℕ → HandshakeError P
  info_hash_not_found : P → ShaHash → HandshakeError P
  timeout : P → HandshakeError P

module _ {P V I : Type 0} where
  -- `values().any(|x| x.info_hash == …)`
  unfoldable pub has_info_hash : ShaHash → List (ℕ × Torrent P V I) → Bool
  has_info_hash info_hash [] = false
  has_info_hash info_hash ((id, t) ∷ m) =
      if eq_hash t.info_hash info_hash then true else has_info_hash info_hash m

  -- `iter_active().count()`
  unfoldable pub count_active : List (ℕ × Torrent P V I) → ℕ
  unfolding is_active
  count_active [] = 0
  count_active ((id, t) ∷ m) = if is_active t then count_active m + 1 else count_active m

  -- A loop over `values_mut()` that returns at the first torrent that answers.
  unfoldable pub first_mut :
      {A : Type 0}
      → (Torrent P V I → Torrent P V I × Option A)
      → List (ℕ × Torrent P V I)
      → List (ℕ × Torrent P V I) × Option (ℕ × A)
  first_mut f [] = ([], none)
  first_mut f ((id, t) ∷ m) =
      let (t', answer) = f t in
      let (m', later) = first_mut f m in
      elim answer [ some a ↦ ((id, t') ∷ m, some (t'.id, a)) | none ↦ ((id, t') ∷ m', later) ]

  -- such a loop, on the pool
  unfoldable pub at_first :
      {A : Type 0}
      → (Torrent P V I → Torrent P V I × Option A)
      → TorrentPool P V I
      → TorrentPool P V I × Option (ℕ × A)
  unfolding first_mut
  at_first f pool =
      let (torrents, answer) = first_mut f pool.torrents in
      (record pool { torrents = torrents }, answer)

  unfoldable pub get : ℕ → TorrentPool P V I → Option (Torrent P V I)
  get id pool = Map.get id pool.torrents

  -- a torrent changed where it stands
  unfoldable pub update : ℕ → Torrent P V I → TorrentPool P V I → TorrentPool P V I
  update id t pool = record pool { torrents = Map.insert id t pool.torrents }

module _ {P V I : Type 0} ⦃v : BitVec V⦄ where
  -- `created` is the instant of the call. The state that is answered is not the one that is stored,
  -- as in the source.
  unfoldable pub add_torrent :
      I
      → TorrentConfig V
      → TorrentPool P V I
      → TorrentPool P V I × Result (ℕ × TorrentState) ShaHash
  unfolding has_info_hash count_active state_is_active Torrent.new Handler.new
  add_torrent now torrent pool =
      if has_info_hash torrent.info_hash pool.torrents
      then (pool, err torrent.info_hash)
      else let state =
          if state_is_active torrent.state
          then (if ltb (count_active pool.torrents) pool.max_active_torrents
              then active
              else paused)
          else torrent.state in
        let id = pool.next_unique_torrent in
        let handler =
          Handler.new id pool.initial_piece_selection_strategy torrent.bitfield torrent.piece_length
            torrent.last_piece_length in
        let t = Torrent.new id torrent.info_hash handler torrent.seed_leech torrent.state now in
        (
          record pool { torrents = Map.insert id t pool.torrents; next_unique_torrent = id + 1 },
          ok (id, state),
        )

module _ {P V I : Type 0} ⦃e : Eq P⦄ where
  unfoldable pub associated : P → List (ℕ × Torrent P V I) → Bool
  unfolding contains_peer
  associated peer_id [] = false
  associated peer_id ((id, t) ∷ m) = if contains_peer peer_id t then true else associated peer_id m

  unfoldable pub is_associated : P → TorrentPool P V I → Bool
  unfolding associated
  is_associated peer_id pool = associated peer_id pool.torrents

module _ {P V I : Type 0} ⦃e : Eq P⦄ ⦃v : BitVec V⦄ where
  -- what the loop of `get_for_info_hash_mut` and the insertion do to one torrent
  unfoldable pub accept_peer :
      P → BitTorrentPeer V I → ShaHash → Torrent P V I → Torrent P V I × Option (Unit {0})
  unfolding on_handler
  accept_peer peer_id peer info_hash t =
      if eq_hash t.info_hash info_hash
      then ((on_handler (insert_peer peer_id peer) t).0, some tt)
      else (t, none)

  unfoldable pub on_handshake_request :
      I
      → I
      → P
      → Handshake
      → TorrentPool P V I
      → TorrentPool P V I × Result Handshake (HandshakeError P)
  unfolding is_associated at_first accept_peer new_peer new_handshake
  on_handshake_request now now' peer_id handshake pool =
      let peer = new_peer handshake.peer_id now now' in
      let (pool', accepted) = at_first (accept_peer peer_id peer handshake.info_hash) pool in
      if is_associated peer_id pool
      then (pool, err (invalid_peer peer_id none))
      else elim accepted [
        | some _ ↦ (pool', ok (new_handshake handshake.info_hash pool.local_peer_hash))
        | none ↦ (pool, err (info_hash_mismatch peer_id none))
      ]

  -- the peer and the client's field
  unfoldable pub on_handshake_response :
      I
      → I
      → P
      → ℕ
      → Handshake
      → TorrentPool P V I
      → TorrentPool P V I × Result (P × BitField V) (HandshakeError P)
  unfolding get update on_handler new_peer
  on_handshake_response now now' peer_id torrent_id handshake pool = elim (get torrent_id pool) [
    | none ↦ (pool, err (invalid_peer peer_id (some torrent_id)))
    | some t ↦
        if eq_hash t.info_hash handshake.info_hash
        then (let t' =
              (on_handler (insert_peer peer_id (new_peer handshake.peer_id now now')) t).0 in
            (update torrent_id t' pool, ok (peer_id, t'.piece_handler.bitfield)))
        else (pool, err (info_hash_mismatch peer_id (some torrent_id)))
  ]

  unfoldable pub is_remote_interesting : ℕ → P → TorrentPool P V I → Outcome Bool
  unfolding get get_peer is_leeching is_having_missing_pieces_for
  is_remote_interesting torrent_id peer_id pool = elim (get torrent_id pool) [
    | none ↦ done false
    | some t ↦
        if is_leeching t.seed_leech
        then elim (get_peer peer_id t.piece_handler) [
          | none ↦ done false
          | some peer ↦ is_having_missing_pieces_for t.piece_handler.bitfield.inner peer
        ]
        else done false
  ]
