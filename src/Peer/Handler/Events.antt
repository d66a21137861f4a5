-- ===== src/Peer/Handler/Events.antt =====
-- The operations of `TorrentPieceHandler`: what happens to its peers, its blocks and its buffer.
use libp2p_bittorrent_protoc.Base.{
  ℕ, Bool, true, false, not, List, Option, none, some, Result, ok, err, ltb, ◌==◌, Eq, same,
  if◌then◌else◌, get_elem?,
}
use libp2p_bittorrent_protoc.Base.Map
use libp2p_bittorrent_protoc.Base.Vec.{push, position, remove_at}
use libp2p_bittorrent_protoc.Crates.BitVec.{BitVec}
use libp2p_bittorrent_protoc.Crates.Rng.{Rng}
use libp2p_bittorrent_protoc.Disk.Block.{BlockMetadata, Block, eq_metadata}
use libp2p_bittorrent_protoc.Peer.State.{
  BitTorrentPeer, ChokeType, InterestType, choked, un_choked, remote_can_seed_piece, has_bitfield,
  add_piece, set_bitfield,
}
use libp2p_bittorrent_protoc.Peer.Buffer.{
  PieceBuffer, BlockErr, TorrentError, not_requested, is_full_piece, try_finalize_piece, next,
}
use libp2p_bittorrent_protoc.Peer.Buffer
use libp2p_bittorrent_protoc.Peer.Handler.{
  TorrentPieceHandler, TorrentPieceHandlerState, waiting_peers, leech_block, piece_finished,
  finished, seed, set_piece, next_piece_buffer,
}

-- What `get_mut` and a write through it do: the peer is changed where it stands.
unfoldable pub update_peer :
    {P V I : Type 0} ⦃e : Eq P⦄
    → P
    → BitTorrentPeer V I
    → TorrentPieceHandler P V I
    → TorrentPieceHandler P V I
update_peer id peer h = record h { peers = Map.insert id peer h.peers }

module _ {P V I : Type 0} ⦃e : Eq P⦄ where
  unfoldable pub get_peer : P → TorrentPieceHandler P V I → Option (BitTorrentPeer V I)
  get_peer id h = Map.get id h.peers

  unfoldable pub set_client_choke_for_peer :
      P → ChokeType → TorrentPieceHandler P V I → TorrentPieceHandler P V I × Option ChokeType
  unfolding get_peer update_peer
  set_client_choke_for_peer id choke h = elim (get_peer id h) [
    | some peer ↦ (update_peer id (record peer { client_choke = choke }) h, some peer.client_choke)
    | none ↦ (h, none)
  ]

  unfoldable pub set_client_interest :
      P → InterestType → TorrentPieceHandler P V I → TorrentPieceHandler P V I × Option InterestType
  unfolding get_peer update_peer
  set_client_interest id interest h = elim (get_peer id h) [
    | some peer ↦
        (update_peer id (record peer { client_interest = interest }) h, some peer.client_interest)
    | none ↦ (h, none)
  ]

  unfoldable pub set_interest_on_remote :
      P → InterestType → TorrentPieceHandler P V I → TorrentPieceHandler P V I × Option InterestType
  unfolding get_peer update_peer
  set_interest_on_remote id interest h = elim (get_peer id h) [
    | some peer ↦
        (update_peer id (record peer { remote_interest = interest }) h, some peer.remote_interest)
    | none ↦ (h, none)
  ]

  unfoldable pub remove_peer :
      P → TorrentPieceHandler P V I → TorrentPieceHandler P V I × Option (BitTorrentPeer V I)
  unfolding get_peer
  remove_peer id h = elim (get_peer id h) [
    | none ↦ (h, none)
    | some peer ↦ (
      record h {
        peers = Map.remove id h.peers;
        piece_buffer = elim h.piece_buffer [
          | none ↦ none
          | some b ↦ some (Buffer.remove_peer id b).0
        ];
      },
      some peer,
    )
  ]

  -- `!pending_seed_blocks.iter().any(…)`
  unfoldable pub is_ready_to_seed_block : P → TorrentPieceHandler P V I → Bool
  is_ready_to_seed_block id h = elim (position (λ q. same q.0 id) h.pending_seed_blocks) [
    | none ↦ true
    | some i ↦ false
  ]

  unfoldable pub add_block :
      P
      → Block
      → TorrentPieceHandler P V I
      → TorrentPieceHandler P V I × Result BlockMetadata (BlockErr P)
  add_block id block h = elim h.piece_buffer [
    | none ↦ (h, err (not_requested id block))
    | some b ↦
        let (b', result) = Buffer.add_block id block b in
        (record h { piece_buffer = some b' }, result)
  ]

-- the entry at a position that `position` found
unfoldable pub entry_at :
    {P : Type 0} → List (P × ℕ × BlockMetadata) → ℕ → Option (P × ℕ × BlockMetadata)
entry_at = get_elem?

module _ {P V I : Type 0} where
  unfoldable pub insert_block_seed :
      P → BlockMetadata → ℕ → TorrentPieceHandler P V I → TorrentPieceHandler P V I
  insert_block_seed id block request_id h = record h {
    pending_seed_blocks = push h.pending_seed_blocks (id, request_id, block);
  }

  unfoldable pub remove_pending_seed_by_request :
      ℕ → TorrentPieceHandler P V I → TorrentPieceHandler P V I × Option (P × BlockMetadata)
  unfolding entry_at
  remove_pending_seed_by_request request_id h =
      elim (position (λ q. request_id == q.1) h.pending_seed_blocks) [
        | none ↦ (h, none)
        | some pos ↦ (
          record h { pending_seed_blocks = remove_at h.pending_seed_blocks pos },
          elim (entry_at h.pending_seed_blocks pos) [
            | none ↦ none
            | some (peer, request, block) ↦ some (peer, block)
          ],
        )
      ]

  unfoldable pub clear_pending_seed_block :
      BlockMetadata → TorrentPieceHandler P V I → TorrentPieceHandler P V I × Option (P × ℕ)
  unfolding entry_at
  clear_pending_seed_block block h =
      elim (position (λ q. eq_metadata q.2 block) h.pending_seed_blocks) [
        | none ↦ (h, none)
        | some pos ↦ (
          record h { pending_seed_blocks = remove_at h.pending_seed_blocks pos },
          elim (entry_at h.pending_seed_blocks pos) [
            | none ↦ none
            | some (peer, request, found) ↦ some (peer, request)
          ],
        )
      ]

module _ {P V I : Type 0} ⦃e : Eq P⦄ ⦃v : BitVec V⦄ where
  -- the peer that was there before
  unfoldable pub insert_peer :
      P
      → BitTorrentPeer V I
      → TorrentPieceHandler P V I
      → TorrentPieceHandler P V I × Option (BitTorrentPeer V I)
  unfolding get_peer update_peer
  insert_peer id peer h = (
    record h {
      peers = Map.insert id peer h.peers;
      piece_buffer = elim h.piece_buffer [
        | none ↦ none
        | some b ↦
            if remote_can_seed_piece b.piece_index peer
            then (if not (Map.contains_key id h.peers)
                then some (record b { peers = push b.peers id })
                else some b)
            else some b
      ];
    },
    get_peer id h,
  )

  unfoldable pub set_choke_on_remote :
      P → ChokeType → TorrentPieceHandler P V I → TorrentPieceHandler P V I × Option ChokeType
  unfolding get_peer update_peer
  set_choke_on_remote id choke h = elim (get_peer id h) [
    | none ↦ (h, none)
    | some old ↦
        let peer = record old { remote_choke = choke } in
        (
          record h {
            peers = Map.insert id peer h.peers;
            piece_buffer = elim h.piece_buffer [
              | none ↦ none
              | some b ↦ elim choke [
                | choked ↦ some (Buffer.remove_peer id b).0
                | un_choked ↦
                    if remote_can_seed_piece b.piece_index peer
                    then some (record b { peers = push b.peers id })
                    else some b
              ]
            ];
          },
          some old.remote_choke,
        )
  ]

  unfoldable pub set_peer_piece :
      P → ℕ → TorrentPieceHandler P V I → TorrentPieceHandler P V I × Option Bool
  unfolding get_peer update_peer
  set_peer_piece id piece_index h = elim (get_peer id h) [
    | none ↦ (h, none)
    | some peer ↦
        if has_bitfield peer
        then (let (peer', result) = add_piece piece_index peer in (update_peer id peer' h, result))
        else if ltb piece_index (v.len h.bitfield.inner)
        then (
          update_peer id
              (set_bitfield (record { inner = v.write (v.clear h.bitfield.inner) piece_index true })
                peer).0
              h,
          some true,
        )
        else (h, some false)
  ]

module _ {P V I R : Type 0} ⦃e : Eq P⦄ ⦃v : BitVec V⦄ ⦃r : Rng R⦄ where
  -- `poll`, with the generator that it takes from the thread
  unfoldable pub poll :
      R → TorrentPieceHandler P V I → TorrentPieceHandler P V I × TorrentPieceHandlerState P
  poll rnd h = elim h.piece_buffer [
    | some b ↦
        if is_full_piece b
        then elim (try_finalize_piece b) [
          | ok block ↦ (
            (set_piece block.metadata.piece_index (record h { piece_buffer = none })).0,
            piece_finished (ok block),
          )
          | err x ↦ (record h { piece_buffer = none }, piece_finished (err x))
        ]
        else (let (b', block) = next b in (record h { piece_buffer = some b' }, leech_block block))
    | none ↦
        if h.finished
        then (h, seed)
        else if v.all h.bitfield.inner
        then (record h { finished = true }, finished)
        else elim (next_piece_buffer rnd h) [
          | some b ↦
              let (b', block) = next b in (record h { piece_buffer = some b' }, leech_block block)
          | none ↦ (h, waiting_peers)
        ]
  ]
