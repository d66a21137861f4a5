-- ===== src/Behavior/Nodes.antt =====
-- `src/behavior.rs`: what the behaviour makes of the events of a connection.
use libp2p_bittorrent_protoc.Base.{
  ℕ, Bool, true, false, Option, none, some, Result, ok, err, Outcome, done, panic, Eq,
}
use libp2p_bittorrent_protoc.Crates.BitVec.{BitVec}
use libp2p_bittorrent_protoc.Disk.Block.{BlockMetadata, from_request, from_piece}
use libp2p_bittorrent_protoc.Peer.State.{ChokeType, InterestType, interested}
use libp2p_bittorrent_protoc.Peer.Buffer.{BlockErr}
use libp2p_bittorrent_protoc.Wire.Message.{BitField, Handshake}
use libp2p_bittorrent_protoc.Peer.Pool.{
  TorrentPool, HandshakeError, on_handshake_request, on_handshake_response, is_remote_interesting,
}
use libp2p_bittorrent_protoc.Peer.Pool.Requests.{
  on_bitfield_request, set_peer_bitfield, set_client_interest, on_piece_request, on_block_response,
  on_cancel_request, on_choke_by_remote, on_interest_by_remote, on_remote_have,
  on_keep_alive_by_remote,
}
use libp2p_bittorrent_protoc.Connection.Events.{BitTorrentHandlerIn, BitTorrentHandlerEvent}
use libp2p_bittorrent_protoc.Behavior.Events.{
  PeerError, HaveErr, SeedBlockErr, cancelled_by_remote, remote_not_allowed, invalid_index, remote,
  handshake_result, bitfield_result, seed_block_result, leech_block_result, choke_result,
  interest_result, have_result, keep_alive_result,
}
use libp2p_bittorrent_protoc.Behavior.{BitTorrent, Disk, notify, send}

module _ {P V I A D B : Type 0} where
  -- Each of the next functions takes what the pool has become and answers, in the arms of
  -- `inject_node_event`.
  unfoldable pub handshake_requested :
      P
      → ℕ
      → TorrentPool P V I × Result Handshake (HandshakeError P)
      → BitTorrent P V I A D B
      → BitTorrent P V I A D B
  handshake_requested peer_id request_id (pool, ok handshake) b =
      send peer_id (BitTorrentHandlerIn.handshake_res handshake request_id)
        (record b { torrents = pool })
  handshake_requested peer_id request_id (pool, err error) b =
      send peer_id (BitTorrentHandlerIn.disconnect none)
        (notify (handshake_result (err error)) (record b { torrents = pool }))

  unfoldable pub handshake_responded :
      P
      → ℕ
      → TorrentPool P V I × Result (P × BitField V) (HandshakeError P)
      → BitTorrent P V I A D B
      → BitTorrent P V I A D B
  handshake_responded peer_id user_data (pool, ok (handshake, index_field)) b =
      notify (handshake_result (ok handshake)) (
        send peer_id (BitTorrentHandlerIn.bitfield_req index_field user_data)
          (record b { torrents = pool }))
  handshake_responded peer_id user_data (pool, err error) b =
      notify (handshake_result (err error)) (record b { torrents = pool })

  unfoldable pub bitfield_requested :
      P
      → ℕ
      → TorrentPool P V I × Option (BitField V)
      → BitTorrent P V I A D B
      → BitTorrent P V I A D B
  bitfield_requested peer_id request_id (pool, some index_field) b =
      send peer_id (BitTorrentHandlerIn.bitfield_res index_field request_id)
        (record b { torrents = pool })
  bitfield_requested peer_id request_id (pool, none) b =
      send peer_id (BitTorrentHandlerIn.disconnect none) (record b { torrents = pool })

  unfoldable pub block_responded :
      P
      → ℕ
      → TorrentPool P V I × Result BlockMetadata (BlockErr P)
      → BitTorrent P V I A D B
      → BitTorrent P V I A D B
  block_responded peer_id user_data (pool, ok block_metadata) b =
      notify
        (leech_block_result
          (ok (record { peer = peer_id; block_metadata = block_metadata; torrent = user_data })))
        (record b { torrents = pool })
  block_responded peer_id user_data (pool, err error) b =
      notify (leech_block_result (err error)) (record b { torrents = pool })

  unfoldable pub cancelled :
      P
      → BlockMetadata
      → TorrentPool P V I × Option (P × BlockMetadata)
      → BitTorrent P V I A D B
      → BitTorrent P V I A D B
  cancelled peer_id request (pool, some found) b =
      notify (seed_block_result (ok (cancelled_by_remote peer_id request)))
        (record b { torrents = pool })
  cancelled peer_id request (pool, none) b =
      notify (seed_block_result (err (SeedBlockErr.not_found peer_id)))
        (record b { torrents = pool })

  unfoldable pub choke_received :
      P
      → ChokeType
      → TorrentPool P V I × Option (ℕ × ChokeType)
      → BitTorrent P V I A D B
      → BitTorrent P V I A D B
  choke_received peer_id inner (pool, some (torrent_id, old_choke_ty)) b =
      notify
        (choke_result (
          ok (record {
            torrent = torrent_id;
            peer = peer_id;
            old_choke_ty = old_choke_ty;
            new_choke_ty = inner;
          })))
        (record b { torrents = pool })
  choke_received peer_id inner (pool, none) b =
      notify (choke_result (err (PeerError.not_found peer_id))) (record b { torrents = pool })

  -- `PeerError::NotFound` around the peer that the pool answers
  unfoldable pub interest_received :
      TorrentPool P V I × Result (InterestType × P) P
      → BitTorrent P V I A D B
      → BitTorrent P V I A D B
  interest_received (pool, ok interest) b =
      notify (interest_result (ok interest)) (record b { torrents = pool })
  interest_received (pool, err peer) b =
      notify (interest_result (err (PeerError.not_found peer))) (record b { torrents = pool })

  unfoldable pub have_received :
      P → ℕ → TorrentPool P V I × Option Bool → BitTorrent P V I A D B → BitTorrent P V I A D B
  have_received peer_id index (pool, some true) b =
      notify (have_result (ok (record { peer = peer_id; piece = index })))
        (record b { torrents = pool })
  have_received peer_id index (pool, some false) b =
      notify (have_result (err (invalid_index index))) (record b { torrents = pool })
  have_received peer_id index (pool, none) b =
      notify (have_result (err (HaveErr.not_found peer_id))) (record b { torrents = pool })

  -- the pool answers the torrent and the old heartbeat
  unfoldable pub keep_alive_received :
      P → I → TorrentPool P V I × Result (ℕ × I) P → BitTorrent P V I A D B → BitTorrent P V I A D B
  keep_alive_received peer_id timestamp (pool, ok (torrent, old_heartbeat)) b =
      notify (keep_alive_result (ok (remote torrent peer_id old_heartbeat timestamp)))
        (record b { torrents = pool })
  keep_alive_received peer_id timestamp (pool, err peer) b =
      notify (keep_alive_result (err (PeerError.not_found peer))) (record b { torrents = pool })

module _ {P V I A D B : Type 0} ⦃e : Eq P⦄ ⦃v : BitVec V⦄ where
  -- the inner test of the arm of a bitfield response
  unfoldable pub tell_interest :
      P
      → ℕ
      → TorrentPool P V I
      → Outcome Bool
      → BitTorrent P V I A D B
      → Outcome (BitTorrent P V I A D B)
  unfolding set_client_interest
  tell_interest peer_id user_data pool panic b = panic
  tell_interest peer_id user_data pool (done false) b = done (record b { torrents = pool })
  tell_interest peer_id user_data pool (done true) b = done (
      send peer_id (BitTorrentHandlerIn.interest interested) (
        notify (bitfield_result (ok (record { torrent = user_data; peer = peer_id })))
          (record b { torrents = (set_client_interest user_data peer_id interested pool).0 })))

  unfoldable pub bitfield_responded :
      P → ℕ → TorrentPool P V I × Bool → BitTorrent P V I A D B → Outcome (BitTorrent P V I A D B)
  unfolding is_remote_interesting tell_interest
  bitfield_responded peer_id user_data (pool, false) b =
      done (
        notify (bitfield_result (err (PeerError.not_found peer_id))) (record b { torrents = pool }))
  bitfield_responded peer_id user_data (pool, true) b =
      tell_interest peer_id user_data pool (is_remote_interesting user_data peer_id pool) b

  module _ ⦃k : Disk D B⦄ where
    unfoldable pub block_requested :
        TorrentPool P V I × Result (ℕ × BlockMetadata) (P × BlockMetadata × ℕ)
        → BitTorrent P V I A D B
        → BitTorrent P V I A D B
    block_requested (pool, ok (id, block_metadata)) b = record b {
      torrents = pool;
      disk_manager = k.read_block b.disk_manager id block_metadata;
    }
    block_requested (pool, err (peer_id, block_metadata, request_id)) b =
        notify (seed_block_result (err (remote_not_allowed peer_id block_metadata)))
          (send peer_id (BitTorrentHandlerIn.reset request_id) (record b { torrents = pool }))

    -- `now` and `now'` are the instants at which a new peer is created.
    unfoldable pub inject_node_event :
        {E X : Type 0}
        → I
        → I
        → P
        → BitTorrentHandlerEvent V ℕ I E X
        → BitTorrent P V I A D B
        → Outcome (BitTorrent P V I A D B)
    unfolding handshake_requested handshake_responded bitfield_requested bitfield_responded
        block_requested block_responded cancelled choke_received interest_received have_received
        keep_alive_received
    inject_node_event now now' peer_id (BitTorrentHandlerEvent.handshake_req handshake request_id)
          b =
        done (
          handshake_requested peer_id request_id
            (on_handshake_request now now' peer_id handshake b.torrents) b)
    inject_node_event now now' peer_id (BitTorrentHandlerEvent.handshake_res handshake user_data)
          b =
        done (
          handshake_responded peer_id user_data
            (on_handshake_response now now' peer_id user_data handshake b.torrents) b)
    inject_node_event now now' peer_id (BitTorrentHandlerEvent.bitfield_req index_field request_id)
          b =
        done (
          bitfield_requested peer_id request_id (on_bitfield_request peer_id index_field b.torrents)
            b)
    inject_node_event now now' peer_id (BitTorrentHandlerEvent.bitfield_res index_field user_data)
          b =
        bitfield_responded peer_id user_data
          (set_peer_bitfield peer_id user_data index_field b.torrents) b
    inject_node_event now now' peer_id (BitTorrentHandlerEvent.get_piece_req request request_id) b =
        done (
          block_requested (on_piece_request peer_id (from_request request) request_id b.torrents) b)
    inject_node_event now now' peer_id (BitTorrentHandlerEvent.get_piece_res piece user_data) b =
        done (
          block_responded peer_id user_data
            (on_block_response user_data peer_id (from_piece piece) b.torrents) b)
    inject_node_event now now' peer_id (BitTorrentHandlerEvent.cancel_piece request request_id) b =
        done (cancelled peer_id (from_request request) (on_cancel_request request_id b.torrents) b)
    inject_node_event now now' peer_id (BitTorrentHandlerEvent.choke inner) b =
        done (choke_received peer_id inner (on_choke_by_remote peer_id inner b.torrents) b)
    inject_node_event now now' peer_id (BitTorrentHandlerEvent.interest inner) b =
        done (interest_received (on_interest_by_remote peer_id inner b.torrents) b)
    inject_node_event now now' peer_id (BitTorrentHandlerEvent.have index) b =
        done (have_received peer_id index (on_remote_have peer_id index b.torrents) b)
    inject_node_event now now' peer_id (BitTorrentHandlerEvent.keep_alive timestamp) b = done (
        keep_alive_received peer_id timestamp (on_keep_alive_by_remote peer_id timestamp b.torrents)
          b)
    inject_node_event now now' peer_id (BitTorrentHandlerEvent.torrent_err error user_data) b =
        done b
