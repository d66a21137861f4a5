-- ===== src/Peer/Pool/Requests.antt =====
-- The events of the peers of a pool, and its poll: `src/peer/torrent.rs`.
use libp2p_bittorrent_protoc.Base.{
  ℕ, Bool, true, false, List, [], ◌∷◌, Option, none, some, Result, ok, err, Eq, if◌then◌else◌,
}
use libp2p_bittorrent_protoc.Crates.BitVec.{BitVec}
use libp2p_bittorrent_protoc.Crates.Instant.{Instant}
use libp2p_bittorrent_protoc.Crates.Rng.{Rng}
use libp2p_bittorrent_protoc.Wire.Message.{BitField}
use libp2p_bittorrent_protoc.Disk.Block.{BlockMetadata, Block}
use libp2p_bittorrent_protoc.Peer.State.{
  BitTorrentPeer, ChokeType, InterestType, interested, not_interested, set_bitfield,
}
use libp2p_bittorrent_protoc.Peer.Buffer.{BlockErr, not_requested}
use libp2p_bittorrent_protoc.Peer.Handler.Events.{
  get_peer, update_peer, insert_block_seed, remove_pending_seed_by_request,
  clear_pending_seed_block,
}
use libp2p_bittorrent_protoc.Peer.Torrent.{
  Torrent, TorrentPoolState, idle, waiting, is_active, on_handler, can_seed_piece_to,
}
use libp2p_bittorrent_protoc.Peer.Torrent
use libp2p_bittorrent_protoc.Peer.Pool.{TorrentPool, at_first, get, update}

-- the answer without the torrent that gave it
abbrev pub answer_of : {A : Type 0} → Option (ℕ × A) → Option A
answer_of none = none
answer_of (some (id, a)) = some a

-- the torrent that answered
abbrev pub torrent_of : {A : Type 0} → Option (ℕ × A) → Result ℕ (Unit {0})
torrent_of none = err tt
torrent_of (some (id, a)) = ok id

module _ {P V I : Type 0} ⦃e : Eq P⦄ where
  unfoldable pub unchoke_remote : P → TorrentPool P V I → TorrentPool P V I × Result ℕ (Unit {0})
  unfolding at_first Torrent.unchoke_remote
  unchoke_remote peer_id pool =
      let (pool', answer) = at_first (Torrent.unchoke_remote peer_id) pool in
      (pool', torrent_of answer)

  unfoldable pub choke_remote : P → TorrentPool P V I → TorrentPool P V I × Result ℕ (Unit {0})
  unfolding at_first Torrent.choke_remote
  choke_remote peer_id pool =
      let (pool', answer) = at_first (Torrent.choke_remote peer_id) pool in
      (pool', torrent_of answer)

  unfoldable pub set_client_interest :
      ℕ → P → InterestType → TorrentPool P V I → TorrentPool P V I × Option InterestType
  unfolding get update Torrent.set_client_interest
  set_client_interest torrent_id peer_id interest pool = elim (get torrent_id pool) [
    | none ↦ (pool, none)
    | some t ↦
        let (t', old) = Torrent.set_client_interest peer_id interest t in
        (update torrent_id t' pool, old)
  ]

  -- the torrent and the heartbeat before this one
  unfoldable pub on_keep_alive_by_remote :
      P → I → TorrentPool P V I → TorrentPool P V I × Result (ℕ × I) P
  unfolding at_first Torrent.on_keep_alive_by_remote
  on_keep_alive_by_remote peer new_heartbeat pool =
      let (pool', answer) = at_first (Torrent.on_keep_alive_by_remote peer new_heartbeat) pool in
      (pool', elim answer [ none ↦ err peer | some a ↦ ok a ])

  -- the `match` in the loop of `on_interest_by_remote`
  unfoldable pub note_interest :
      P → InterestType → Torrent P V I → Torrent P V I × Option InterestType
  unfolding Torrent.on_remote_interested Torrent.on_remote_not_interested
  note_interest peer_id not_interested t = Torrent.on_remote_not_interested peer_id t
  note_interest peer_id interested t = Torrent.on_remote_interested peer_id t

  unfoldable pub on_interest_by_remote :
      P → InterestType → TorrentPool P V I → TorrentPool P V I × Result (InterestType × P) P
  unfolding at_first note_interest
  on_interest_by_remote peer_id interest pool =
      let (pool', answer) = at_first (note_interest peer_id interest) pool in
      (pool', elim answer [ none ↦ err peer_id | some a ↦ ok (interest, peer_id) ])

  unfoldable pub on_block_response :
      ℕ → P → Block → TorrentPool P V I → TorrentPool P V I × Result BlockMetadata (BlockErr P)
  unfolding get update Torrent.add_block
  on_block_response torrent_id peer_id block pool = elim (get torrent_id pool) [
    | none ↦ (pool, err (not_requested peer_id block))
    | some t ↦
        let (t', result) = Torrent.add_block peer_id block t in (update torrent_id t' pool, result)
  ]

  unfoldable pub set_peer_bitfield :
      P → ℕ → BitField V → TorrentPool P V I → TorrentPool P V I × Bool
  unfolding get update get_peer update_peer set_bitfield
  set_peer_bitfield peer_id torrent_id bitfield pool = elim (get torrent_id pool) [
    | none ↦ (pool, false)
    | some t ↦ elim (get_peer peer_id t.piece_handler) [
      | none ↦ (pool, false)
      | some peer ↦ (
        update torrent_id
            (record t {
              piece_handler = update_peer peer_id (set_bitfield bitfield peer).0 t.piece_handler;
            })
            pool,
        true,
      )
    ]
  ]

  -- what `on_bitfield_request` does at one torrent
  unfoldable pub exchange_bitfield :
      P → BitField V → Torrent P V I → Torrent P V I × Option (BitField V)
  unfolding get_peer update_peer set_bitfield
  exchange_bitfield peer_id bitfield t = elim (get_peer peer_id t.piece_handler) [
    | none ↦ (t, none)
    | some peer ↦ (
      record t {
        piece_handler = update_peer peer_id (set_bitfield bitfield peer).0 t.piece_handler;
      },
      some t.piece_handler.bitfield,
    )
  ]

  unfoldable pub on_bitfield_request :
      P → BitField V → TorrentPool P V I → TorrentPool P V I × Option (BitField V)
  unfolding at_first exchange_bitfield
  on_bitfield_request peer_id bitfield pool =
      let (pool', answer) = at_first (exchange_bitfield peer_id bitfield) pool in
      (pool', answer_of answer)

  unfoldable pub remove_peer :
      P → TorrentPool P V I → TorrentPool P V I × Option (BitTorrentPeer V I)
  unfolding at_first Torrent.remove_peer
  remove_peer peer_id pool =
      let (pool', answer) = at_first (Torrent.remove_peer peer_id) pool in (pool', answer_of answer)

module _ {P V I : Type 0} where
  unfoldable pub on_cancel_request :
      ℕ → TorrentPool P V I → TorrentPool P V I × Option (P × BlockMetadata)
  unfolding at_first on_handler
  on_cancel_request id pool =
      let (pool', answer) = at_first (on_handler (remove_pending_seed_by_request id)) pool in
      (pool', answer_of answer)

  unfoldable pub on_block_read :
      ℕ → BlockMetadata → TorrentPool P V I → TorrentPool P V I × Option (P × ℕ)
  unfolding get update on_handler
  on_block_read torrent_id block pool = elim (get torrent_id pool) [
    | none ↦ (pool, none)
    | some t ↦
        let (t', found) = on_handler (clear_pending_seed_block block) t in
        (update torrent_id t' pool, found)
  ]

module _ {P V I : Type 0} ⦃e : Eq P⦄ ⦃v : BitVec V⦄ where
  unfoldable pub on_choke_by_remote :
      P → ChokeType → TorrentPool P V I → TorrentPool P V I × Option (ℕ × ChokeType)
  unfolding at_first Torrent.on_choke_by_remote
  on_choke_by_remote peer_id choke pool = at_first (Torrent.on_choke_by_remote peer_id choke) pool

  unfoldable pub on_remote_have : P → ℕ → TorrentPool P V I → TorrentPool P V I × Option Bool
  unfolding at_first Torrent.on_remote_have
  on_remote_have peer_id piece_index pool =
      let (pool', answer) = at_first (Torrent.on_remote_have peer_id piece_index) pool in
      (pool', answer_of answer)

  -- what `on_piece_request` does at one torrent
  unfoldable pub queue_block :
      P → BlockMetadata → ℕ → Torrent P V I → Torrent P V I × Option (Unit {0})
  unfolding can_seed_piece_to insert_block_seed
  queue_block peer_id metadata request_id t =
      if can_seed_piece_to peer_id metadata.piece_index t
      then (
        record t { piece_handler = insert_block_seed peer_id metadata request_id t.piece_handler },
        some tt,
      )
      else (t, none)

  unfoldable pub on_piece_request :
      P
      → BlockMetadata
      → ℕ
      → TorrentPool P V I
      → TorrentPool P V I × Result (ℕ × BlockMetadata) (P × BlockMetadata × ℕ)
  unfolding at_first queue_block
  on_piece_request peer_id metadata request_id pool =
      let (pool', answer) = at_first (queue_block peer_id metadata request_id) pool in
      (
        pool',
        elim answer [
          | none ↦ err (peer_id, metadata, request_id)
          | some (id, _) ↦ ok (id, metadata)
        ],
      )

-- what the loop of `poll` stops at
unfoldable pub is_ready : {P : Type 0} → TorrentPoolState P → Bool
is_ready idle = false
is_ready (waiting id) = false
is_ready Torrent.unimplemented = true
is_ready (Torrent.piece_ready result) = true
is_ready (Torrent.finished id) = true
is_ready (Torrent.keep_alive id p) = true
is_ready (Torrent.timeout id p) = true
is_ready (Torrent.next_block block) = true

module _ {P V I R : Type 0} ⦃e : Eq P⦄ ⦃v : BitVec V⦄ ⦃i : Instant I⦄ ⦃r : Rng R⦄ where
  -- The loop over the active torrents. `clock` and `rnd` are what each torrent's own calls of
  -- `Instant::now()` and `thread_rng()` give.
  unfoldable pub poll_torrents :
      (ℕ → R)
      → I
      → (ℕ → I)
      → List (ℕ × Torrent P V I)
      → List (ℕ × Torrent P V I) × TorrentPoolState P
  unfolding is_active Torrent.poll is_ready
  poll_torrents rnd now clock [] = ([], idle)
  poll_torrents rnd now clock ((id, t) ∷ m) =
      let (m', later) = poll_torrents rnd now clock m in
      if is_active t
      then (let (t', state) = Torrent.poll (rnd id) now (clock id) t in
          if is_ready state then ((id, t') ∷ m, state) else ((id, t') ∷ m', later))
      else ((id, t) ∷ m', later)

  unfoldable pub poll :
      (ℕ → R) → I → (ℕ → I) → TorrentPool P V I → TorrentPool P V I × TorrentPoolState P
  unfolding poll_torrents
  poll rnd now clock pool =
      let (torrents, state) = poll_torrents rnd now clock pool.torrents in
      (record pool { torrents = torrents }, state)
