-- ===== src/Behavior/Polls.antt =====
-- `src/behavior.rs`: the poll of the behaviour, which drains its queue, the torrents and the disk.
use libp2p_bittorrent_protoc.Base.{
  ℕ, zero, suc, ◌%◌, ◌^◌, List, [], ◌∷◌, Option, none, some, ok, err, Poll, pending, ready, Run,
  returns, panics, exhausted, Eq, nat_eq,
}
use libp2p_bittorrent_protoc.Base.Map.{keys}
use libp2p_bittorrent_protoc.Crates.BitVec.{BitVec}
use libp2p_bittorrent_protoc.Crates.Bytes.{BytesMut}
use libp2p_bittorrent_protoc.Crates.Instant.{Instant}
use libp2p_bittorrent_protoc.Crates.Rng.{Rng}
use libp2p_bittorrent_protoc.Disk.Block.{into_request, mut_into_piece}
use libp2p_bittorrent_protoc.Disk.Message.{
  DiskMessageOut, torrent_added, torrent_removed, moved_torrent, torrent_synced, block_read,
  piece_written, torrent_error, read_block_error, write_block_error,
}
use libp2p_bittorrent_protoc.Peer.Torrent.{
  TorrentPoolState, idle, waiting, piece_ready, next_block, on_handler,
}
use libp2p_bittorrent_protoc.Peer.Torrent
use libp2p_bittorrent_protoc.Peer.Pool.{get, update}
use libp2p_bittorrent_protoc.Peer.Pool.Requests.{on_block_read}
use libp2p_bittorrent_protoc.Peer.Pool.Requests
use libp2p_bittorrent_protoc.Meta.{MetaInfo}
use libp2p_bittorrent_protoc.Connection.Events.{BitTorrentHandlerIn}
use libp2p_bittorrent_protoc.Behavior.Events.{
  NetworkBehaviourAction, generate_event, send_event, BitTorrentEvent, disk_result,
  torrent_finished,
}
use libp2p_bittorrent_protoc.Behavior.{BitTorrent, Disk, notify, send}

module _ {P V I A D B : Type 0} where
  unfoldable pub on_remote_timeout : P → BitTorrent P V I A D B → Option (BitTorrentEvent P I B)
  on_remote_timeout peer_id b = none

  -- the `for` loop that announces a piece
  unfoldable pub send_have : ℕ → List P → BitTorrent P V I A D B → BitTorrent P V I A D B
  send_have index [] b = b
  send_have index (peer ∷ peers) b =
      send_have index peers (send peer (BitTorrentHandlerIn.have index) b)

  -- `queued_events.pop_front`, or pending where there is none. In the source the outer loop
  -- comes back to this test after its first round, and leaves it the same way.
  unfoldable pub next_action :
      BitTorrent P V I A D B → BitTorrent P V I A D B × Poll (NetworkBehaviourAction P V I B)
  next_action b = elim b.queued_events [
    | [] ↦ (b, pending)
    | action ∷ actions ↦ (record b { queued_events = actions }, ready action)
  ]

module _ {P V I A D B R : Type 0} ⦃e : Eq P⦄ ⦃v : BitVec V⦄ ⦃i : Instant I⦄ ⦃r : Rng R⦄
    ⦃k : Disk D B⦄ where
  -- The loop over the polls of the pool, on fuel, and the action that it returns with. `rnd` and
  -- `clock` are what the torrents of a round draw and read.
  unfoldable pub poll_pool :
      ℕ
      → (ℕ → ℕ → R)
      → I
      → (ℕ → ℕ → I)
      → BitTorrent P V I A D B
      → Run (BitTorrent P V I A D B × Option (NetworkBehaviourAction P V I B))
  unfolding Requests.poll on_remote_timeout
  poll_pool zero rnd now clock b = exhausted
  poll_pool (suc n) rnd now clock b =
      let (pool, state) = Requests.poll (rnd n) now (clock n) b.torrents in
      let b' = record b { torrents = pool } in
      elim state [
        | idle ↦ returns (b', none)
        | Torrent.unimplemented ↦ panics
        | Torrent.timeout torrent peer ↦ elim (on_remote_timeout peer b') [
          | some event ↦ returns (b', some (generate_event event))
          | none ↦ poll_pool n rnd now clock b'
        ]
        | piece_ready (ok (torrent_id, piece)) ↦
            poll_pool n rnd now clock
              (record b' { disk_manager = k.write_block b'.disk_manager torrent_id piece })
        | piece_ready (err error) ↦ poll_pool n rnd now clock b'
        | Torrent.keep_alive torrent peer_id ↦
            returns (b', some (send_event peer_id BitTorrentHandlerIn.keep_alive))
        | waiting torrent ↦ returns (b', none)
        | Torrent.finished torrent_id ↦
            returns (b', some (generate_event (torrent_finished torrent_id)))
        | next_block block ↦ returns (
          b',
          some (
              send_event block.peer_id (
                BitTorrentHandlerIn.get_piece_req (into_request block.block_metadata)
                  block.torrent_id)),
        )
      ]

module _ {P V I A D B : Type 0} ⦃e : Eq P⦄ ⦃v : BitVec V⦄ ⦃w : BytesMut B⦄ where
  -- what becomes of a message of the disk, and the action that it makes the poll return
  unfoldable pub on_disk_message :
      DiskMessageOut MetaInfo B
      → BitTorrent P V I A D B
      → BitTorrent P V I A D B × Option (NetworkBehaviourAction P V I B)
  unfolding on_block_read get update Torrent.set_piece send_have
  on_disk_message (torrent_added id) b = (b, none)
  on_disk_message (torrent_removed id meta) b = (b, none)
  on_disk_message (torrent_synced id) b = (notify (disk_result (ok (torrent_synced id))) b, none)
  on_disk_message (block_read torrent block) b =
      let (pool, found) = on_block_read torrent block.metadata b.torrents in
      let b' = record b { torrents = pool } in
      elim found [
        | none ↦ (b', none)
        | some (peer_id, request_id) ↦ (
          send peer_id (BitTorrentHandlerIn.get_piece_res (mut_into_piece block) request_id) b',
          none,
        )
      ]
  on_disk_message (piece_written torrent_id block) b = elim (get torrent_id b.torrents) [
    | none ↦ (b, none)
    | some torrent ↦
        let (torrent', result) = Torrent.set_piece block.metadata.piece_index torrent in
        (
          send_have (block.metadata.piece_index % 2 ^ 32) (keys torrent'.piece_handler.peers)
              (record b { torrents = update torrent_id torrent' b.torrents }),
          none,
        )
  ]
  on_disk_message (torrent_error id error) b = (b, none)
  on_disk_message (read_block_error id error) b =
      (b, some (generate_event (disk_result (ok (read_block_error id error)))))
  on_disk_message (write_block_error id error) b = (b, none)
  on_disk_message (moved_torrent id dest) b = (b, none)

  module _ ⦃k : Disk D B⦄ where
    -- The loop over the polls of the disk, on fuel, and the action that it returns with.
    unfoldable pub poll_disk :
        ℕ
        → BitTorrent P V I A D B
        → Run (BitTorrent P V I A D B × Option (NetworkBehaviourAction P V I B))
    unfolding on_disk_message
    poll_disk zero b = exhausted
    poll_disk (suc n) b = elim (k.poll b.disk_manager) [
      | panics ↦ panics
      | exhausted ↦ exhausted
      | returns (d, pending) ↦ returns (record b { disk_manager = d }, none)
      | returns (d, ready (err _)) ↦
          returns (record b { disk_manager = d }, some (generate_event (disk_result (err tt))))
      | returns (d, ready (ok event)) ↦
          let (b', action) = on_disk_message event (record b { disk_manager = d }) in
          elim action [ some a ↦ returns (b', some a) | none ↦ poll_disk n b' ]
    ]

    module _ {R : Type 0} ⦃i : Instant I⦄ ⦃r : Rng R⦄ where
      -- `fuel` bounds the rounds of each of the two inner loops.
      unfoldable pub poll :
          ℕ
          → (ℕ → ℕ → R)
          → I
          → (ℕ → ℕ → I)
          → BitTorrent P V I A D B
          → Run (BitTorrent P V I A D B × Poll (NetworkBehaviourAction P V I B))
      unfolding poll_pool poll_disk next_action
      poll fuel rnd now clock b =
          let (b0, queued) = next_action b in
          elim queued [
            | ready action ↦ returns (b0, ready action)
            | pending ↦ elim (poll_pool fuel rnd now clock b) [
              | panics ↦ panics
              | exhausted ↦ exhausted
              | returns (b1, some action) ↦ returns (b1, ready action)
              | returns (b1, none) ↦ elim (poll_disk fuel b1) [
                | panics ↦ panics
                | exhausted ↦ exhausted
                | returns (b2, some action) ↦ returns (b2, ready action)
                | returns (b2, none) ↦ returns (next_action b2)
              ]
            ]
          ]
