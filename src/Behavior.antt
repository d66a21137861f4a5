-- ===== src/Behavior.antt =====
-- `src/behavior.rs`: the behaviour, which joins the torrents, the connections and the disk.
pub mod Events
pub mod Nodes
pub mod Polls
pub mod Queue
pub mod Laws
pub mod Storage
mod Tests
use libp2p_bittorrent_protoc.Base.{
  ℕ, Bool, true, false, ◌||◌, List, [], ◌∷◌, Option, none, some, Result, ok, err, Outcome, done,
  panic, bind, Poll, Run, Eq, if◌then◌else◌,
}
use libp2p_bittorrent_protoc.Base.Map
use libp2p_bittorrent_protoc.Base.Sets
use libp2p_bittorrent_protoc.Base.Vec.{push}
use libp2p_bittorrent_protoc.Crates.BitVec.{BitVec}
use libp2p_bittorrent_protoc.Hash.{ShaHash, eq_hash, hash_eq}
use libp2p_bittorrent_protoc.Wire.Message.{new_handshake}
use libp2p_bittorrent_protoc.Disk.Block.{BlockMetadata, Block}
use libp2p_bittorrent_protoc.Disk.Message.{DiskMessageOut}
use libp2p_bittorrent_protoc.Peer.State.{choked, un_choked}
use libp2p_bittorrent_protoc.Peer.Torrent.{Torrent, TorrentState}
use libp2p_bittorrent_protoc.Peer.Pool.{TorrentPool, HandshakeError, info_hash_not_found}
use libp2p_bittorrent_protoc.Peer.Pool
use libp2p_bittorrent_protoc.Peer.Pool.Requests
use libp2p_bittorrent_protoc.Peer.Pool.Queries.{BitTorrentConfig}
use libp2p_bittorrent_protoc.Peer.Pool.Queries
use libp2p_bittorrent_protoc.Meta.{MetaInfo, new_leech, new_seed}
use libp2p_bittorrent_protoc.Connection.Events.{BitTorrentHandlerIn}
use libp2p_bittorrent_protoc.Behavior.Events.{
  PeerError, TorrentAddedOk, already_exist, NetworkBehaviourAction, generate_event, dial_peer,
  send_event, BitTorrentEvent, handshake_result, choke_result, torrent_added_result,
}

-- What the behaviour uses of the disk manager: the calls that queue work for it, and its poll.
-- `B` is the buffer of a block that was read.
pub record Disk (D B : Type 0) : Type 0 where
  pub add_torrent : D → ℕ → MetaInfo → D
  pub read_block : D → ℕ → BlockMetadata → D
  pub write_block : D → ℕ → Block → D
  pub poll : D → Run (D × Poll (Result (DiskMessageOut MetaInfo B) (Unit {0})))

-- `P` peers, `V` bits of a field, `I` instants, `A` addresses, `D` the disk manager
pub record BitTorrent (P V I A D B : Type 0) : Type 0 where
  pub disk_manager : D
  pub torrents : TorrentPool P V I
  pub connected_peers : List P
  pub queued_events : List (NetworkBehaviourAction P V I B)
  pub known_peers : List (P × (A × List ShaHash))
  pub pending_handshakes : List (P × ShaHash)

-- `ConnectedPoint` of libp2p, without the addresses that are not read
pub data ConnectedPoint (A : Type 0) : Type 0 where
  dialer : ConnectedPoint A
  listener : A → ConnectedPoint A

-- `TorrentPool::get_for_info_hash`
unfoldable pub get_for_info_hash :
    {P V I : Type 0} → ShaHash → List (ℕ × Torrent P V I) → Option (Torrent P V I)
get_for_info_hash info_hash [] = none
get_for_info_hash info_hash ((id, t) ∷ m) =
    if eq_hash t.info_hash info_hash then some t else get_for_info_hash info_hash m

module _ {P V I A D B : Type 0} where
  -- `queued_events.push_back`
  abbrev pub enqueue :
      NetworkBehaviourAction P V I B → BitTorrent P V I A D B → BitTorrent P V I A D B
  enqueue action b = record b { queued_events = push b.queued_events action }

  abbrev pub notify : BitTorrentEvent P I B → BitTorrent P V I A D B → BitTorrent P V I A D B
  notify event b = enqueue (generate_event event) b

  abbrev pub send : P → BitTorrentHandlerIn V ℕ I → BitTorrent P V I A D B → BitTorrent P V I A D B
  send peer_id event b = enqueue (send_event peer_id event) b

  unfoldable pub send_handshake : ShaHash → P → BitTorrent P V I A D B → BitTorrent P V I A D B
  unfolding get_for_info_hash
  send_handshake info_hash peer_id b = elim (get_for_info_hash info_hash b.torrents.torrents) [
    | some t ↦
        send peer_id
          (BitTorrentHandlerIn.handshake_req (new_handshake info_hash b.torrents.local_peer_hash)
            t.id)
          b
    | none ↦ notify (handshake_result (err (info_hash_not_found peer_id info_hash))) b
  ]

-- `disk_manager` is what `DiskManager::with_capacity` makes of the file system, and `random_hash` what
-- `ShaHash::random` gives.
unfoldable pub with_config :
    {P V I A D B F S : Type 0} → D → ShaHash → P → BitTorrentConfig F S → BitTorrent P V I A D B
unfolding Queries.new
with_config disk_manager random_hash peer_id config = record {
  disk_manager = disk_manager;
  torrents = Queries.new random_hash peer_id config;
  connected_peers = [];
  queued_events = [];
  known_peers = [];
  pending_handshakes = [];
}

module _ {P V I A D B : Type 0} ⦃e : Eq P⦄ where
  -- whether the peer was known
  unfoldable pub add_address_torrents :
      P → A → List ShaHash → BitTorrent P V I A D B → BitTorrent P V I A D B × Bool
  add_address_torrents peer address torrents b = elim (Map.get peer b.known_peers) [
    | some (know_address, know_torrents) ↦ (
      record b {
        known_peers = Map.insert peer (address, Sets.extend know_torrents torrents) b.known_peers;
      },
      true,
    )
    | none ↦ (
      record b { known_peers = Map.insert peer (address, Sets.extend [] torrents) b.known_peers },
      false,
    )
  ]

  unfoldable pub handshake_known_peer :
      P
      → ShaHash
      → BitTorrent P V I A D B
      → BitTorrent P V I A D B × Result (Unit {0}) (P × ShaHash)
  handshake_known_peer peer torrent b =
      if Map.contains_key peer b.pending_handshakes || Sets.contains peer b.connected_peers
      then (b, err (peer, torrent))
      else if Map.contains_key peer b.known_peers
      then (
        record b {
          queued_events = push b.queued_events (dial_peer peer);
          pending_handshakes = Map.insert peer torrent b.pending_handshakes;
        },
        ok tt,
      )
      else (b, err (peer, torrent))

  unfoldable pub choke_peer : P → BitTorrent P V I A D B → BitTorrent P V I A D B
  unfolding Requests.choke_remote
  choke_peer peer_id b =
      let (pool, result) = Requests.choke_remote peer_id b.torrents in
      let b' = record b { torrents = pool } in
      elim result [
        | ok id ↦ send peer_id (BitTorrentHandlerIn.choke choked) b'
        | err _ ↦ notify (choke_result (err (PeerError.not_found peer_id))) b'
      ]

  unfoldable pub unchoke_peer : P → BitTorrent P V I A D B → BitTorrent P V I A D B
  unfolding Requests.unchoke_remote
  unchoke_peer peer_id b =
      let (pool, result) = Requests.unchoke_remote peer_id b.torrents in
      let b' = record b { torrents = pool } in
      elim result [
        | ok id ↦ send peer_id (BitTorrentHandlerIn.choke un_choked) b'
        | err _ ↦ notify (choke_result (err (PeerError.not_found peer_id))) b'
      ]

  unfoldable pub addresses_of_peer : P → BitTorrent P V I A D B → List A
  addresses_of_peer peer_id b = elim (Map.get peer_id b.known_peers) [
    | some (addr, torrents) ↦ addr ∷ []
    | none ↦ []
  ]

  -- the `match` of `inject_connected`
  unfoldable pub at_endpoint :
      P → ConnectedPoint A → BitTorrent P V I A D B → BitTorrent P V I A D B
  unfolding send_handshake add_address_torrents
  at_endpoint peer_id dialer b = elim (Map.get peer_id b.pending_handshakes) [
    | some hash ↦
        send_handshake hash peer_id
          (record b { pending_handshakes = Map.remove peer_id b.pending_handshakes })
    | none ↦ b
  ]
  at_endpoint peer_id (listener send_back_addr) b =
      (add_address_torrents peer_id send_back_addr [] b).0

  unfoldable pub inject_connected :
      P → ConnectedPoint A → BitTorrent P V I A D B → BitTorrent P V I A D B
  unfolding at_endpoint
  inject_connected peer_id endpoint b =
      let b' = at_endpoint peer_id endpoint b in
      record b' { connected_peers = Sets.insert peer_id b'.connected_peers }

  unfoldable pub inject_disconnected : P → BitTorrent P V I A D B → BitTorrent P V I A D B
  unfolding Requests.remove_peer
  inject_disconnected peer_id b = record b {
    torrents = (Requests.remove_peer peer_id b.torrents).0;
    connected_peers = Sets.remove peer_id b.connected_peers;
  }

module _ {P V I A D B : Type 0} ⦃v : BitVec V⦄ ⦃k : Disk D B⦄ where
  -- what both additions do with the answer of the pool
  unfoldable pub torrent_added :
      (ℕ → TorrentState → TorrentAddedOk)
      → MetaInfo
      → TorrentPool P V I × Result (ℕ × TorrentState) ShaHash
      → BitTorrent P V I A D B
      → BitTorrent P V I A D B
  torrent_added added torrent (pool, ok (id, actual_state)) b =
      notify (torrent_added_result (ok (added id actual_state)))
        (record b { torrents = pool; disk_manager = k.add_torrent b.disk_manager id torrent })
  torrent_added added torrent (pool, err info_hash) b =
      notify (torrent_added_result (err (already_exist info_hash torrent)))
        (record b { torrents = pool })

  -- `now` is the instant at which the torrent is created.
  unfoldable pub add_leech :
      I → MetaInfo → TorrentState → BitTorrent P V I A D B → Outcome (BitTorrent P V I A D B)
  unfolding new_leech torrent_added Pool.add_torrent
  add_leech now torrent state b = bind (new_leech torrent state) (λ config.
      done
        (torrent_added TorrentAddedOk.new_leech torrent (Pool.add_torrent now config b.torrents) b))

  unfoldable pub add_seed :
      I → MetaInfo → TorrentState → BitTorrent P V I A D B → Outcome (BitTorrent P V I A D B)
  unfolding new_seed torrent_added Pool.add_torrent
  add_seed now seed state b = bind (new_seed seed state) (λ config.
      done (torrent_added TorrentAddedOk.new_seed seed (Pool.add_torrent now config b.torrents) b))
