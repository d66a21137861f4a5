-- ===== src/Behavior/Tests.antt =====
-- The theorems on the behaviour at a pool of one torrent with one peer.
use libp2p_bittorrent_protoc.Base.{
  ℕ, ◌≡◌, ◌-◌, refl, Bool, true, false, List, [], ◌∷◌, none, some, ok, done, pending, returns,
  exhausted, nat_eq, same, arith, if◌then◌else◌, All,
}
use libp2p_bittorrent_protoc.Base.Map.{keys}
use libp2p_bittorrent_protoc.Base.Map
use libp2p_bittorrent_protoc.Base.Sets
use libp2p_bittorrent_protoc.Crates.Instances.{list_bit_vec, list_bytes_mut, no_shuffle}
use libp2p_bittorrent_protoc.Crates.Instant.{seconds}
use libp2p_bittorrent_protoc.Wire.Message.{PeerRequest}
use libp2p_bittorrent_protoc.Disk.Block.{
  BlockMetadata, BlockMut, Block, from_request, mut_into_piece,
}
use libp2p_bittorrent_protoc.Disk.Message.{block_read, piece_written}
use libp2p_bittorrent_protoc.Peer.Handler.{has_piece}
use libp2p_bittorrent_protoc.Peer.Torrent.{Torrent, is_active, state_is_active}
use libp2p_bittorrent_protoc.Peer.State.{is_client_timeout, is_remote_timeout}
use libp2p_bittorrent_protoc.Peer.Pool.Served.{IsUnread}
use libp2p_bittorrent_protoc.Peer.Pool.{TorrentPool, get}
use libp2p_bittorrent_protoc.Peer.Pool.Requests.{on_piece_request}
use libp2p_bittorrent_protoc.Peer.Pool.Members.{holders}
use libp2p_bittorrent_protoc.Peer.Tests.{hash_of, sevens, peer_one}
use libp2p_bittorrent_protoc.Peer.Tests.Pools.{one_torrent, one_pool, silent}
use libp2p_bittorrent_protoc.Connection.Events.{BitTorrentHandlerIn, BitTorrentHandlerEvent}
use libp2p_bittorrent_protoc.Behavior.Events.{send_event}
use libp2p_bittorrent_protoc.Behavior.{
  BitTorrent, Disk, send, handshake_known_peer, inject_disconnected,
}
use libp2p_bittorrent_protoc.Behavior.Nodes.{inject_node_event}
use libp2p_bittorrent_protoc.Behavior.Polls.{on_disk_message, poll}
use libp2p_bittorrent_protoc.Behavior.Queue.{IsLater, inject_node_event-IsLater}
use libp2p_bittorrent_protoc.Behavior.Laws.{
  on_disk_message-inject_node_event, inject_disconnected_lem, on_disk_message-piece_written,
  poll-is_remote_timeout,
}

-- a disk that keeps what it is to read, and never answers
abbrev Reads : Type 0
Reads = List (ℕ × BlockMetadata)

instance abbrev reads_disk : Disk Reads (List ℕ)
reads_disk = record {
  add_torrent = λ d id meta. d;
  read_block = λ d id block. (id, block) ∷ d;
  write_block = λ d id block. d;
  poll = λ d. returns (d, pending);
}

abbrev Client : Type 0
Client = BitTorrent ℕ (List Bool) ℕ ℕ Reads (List ℕ)

-- peer 1 takes part in the torrent, peer 2 is only known
abbrev client : Client
client = record {
  disk_manager = [];
  torrents = one_pool;
  connected_peers = 1 ∷ [];
  queued_events = [];
  known_peers = (2, (80, [])) ∷ [];
  pending_handshakes = [];
}

abbrev a_request : PeerRequest
a_request = record { index = 1; begin = 0; length = 4 }

abbrev a_block : BlockMetadata
a_block = record { piece_index = 1; block_offset = 0; block_length = 4 }

abbrev asked_pool : TorrentPool ℕ (List Bool) ℕ
asked_pool = record one_pool {
  torrents =
      (
        0,
        record one_torrent {
          piece_handler = record one_torrent.piece_handler {
            pending_seed_blocks = (1, 7, a_block) ∷ [];
          };
        },
      )
      ∷ [];
}

abbrev asked : Client
asked = record client { torrents = asked_pool; disk_manager = (0, a_block) ∷ [] }

asks :
    inject_node_event {E = ℕ} {X = ℕ} 3 3 1
      (BitTorrentHandlerEvent.get_piece_req a_request 7)
      client
    ≡ done asked
unfolding inject_node_event on_piece_request from_request Map.get
asks = refl

granted : (on_piece_request 1 (from_request a_request) 7 one_pool).1 ≡ ok (0, a_block)
unfolding on_piece_request from_request Map.get
granted = refl

abbrev read : BlockMut (List ℕ)
read = record { metadata = a_block; block_data = 1 ∷ 2 ∷ 3 ∷ 4 ∷ [] }

nothing_read : All (IsUnread (from_request a_request)) one_pool.torrents
unfolding from_request
nothing_read = ((refl, refl), tt)

on_disk_message-inject_node_event_example :
    (asked.disk_manager ≡ (0, a_block) ∷ [])
    × (on_disk_message (block_read 0 read) asked ≡ (
      send 1
          (BitTorrentHandlerIn.get_piece_res (mut_into_piece read) 7)
          (record asked { torrents = one_pool }),
      none,
    ))
on_disk_message-inject_node_event_example =
    on_disk_message-inject_node_event ℕ ℕ 3 3 1 a_request 7 0 a_block read client asked nothing_read
      (λ n. ground arith) granted refl asks

inject_node_event-IsLater_example : IsLater client asked
inject_node_event-IsLater_example =
    inject_node_event-IsLater {E = ℕ} {X = ℕ} 3 3 1
      (BitTorrentHandlerEvent.get_piece_req a_request 7) client asked asks

inject_disconnected_lem_example :
    (Sets.contains 1 (inject_disconnected 1 client).connected_peers ≡ false)
    × ((q : ℕ)
        → holders q (inject_disconnected 1 client).torrents.torrents
          ≡ (if same 1 q then holders q one_pool.torrents - 1 else holders q one_pool.torrents))
inject_disconnected_lem_example = inject_disconnected_lem 1 client

begins : (handshake_known_peer 2 (hash_of 1) client).1 ≡ ok tt
unfolding handshake_known_peer Map.contains_key Sets.contains
begins = refl

abbrev written_piece : Block
written_piece = sevens (record { piece_index = 0; block_offset = 0; block_length = 5 })

found : get 0 one_pool ≡ some one_torrent
unfolding get Map.get
found = refl

on_disk_message-piece_written_example :
    ((on_disk_message (piece_written 0 written_piece) client).0.queued_events
      ≡ send_event 1 (BitTorrentHandlerIn.have 0) ∷ [])
    × (t' : Torrent ℕ (List Bool) ℕ) × (get 0
          (on_disk_message (piece_written 0 written_piece) client).0.torrents
        ≡ some t')
    × (has_piece 0 t'.piece_handler ≡ true)
on_disk_message-piece_written_example =
    on_disk_message-piece_written 0 written_piece one_torrent client found (omega arith)

abbrev with_silent : Client
with_silent = record client { torrents = record one_pool { torrents = (0, silent) ∷ [] } }

late : is_remote_timeout 121 (record peer_one { client_heartbeat = 60 }) ≡ true
unfolding is_remote_timeout
late = refl

not_due : is_client_timeout 121 (record peer_one { client_heartbeat = 60 }) ≡ false
unfolding is_client_timeout
not_due = refl

trades : is_active silent ≡ true
unfolding is_active state_is_active
trades = refl

poll-is_remote_timeout_example : poll 1000 (λ n j. tt {0}) 121 (λ n j. 122) with_silent ≡ exhausted
poll-is_remote_timeout_example =
    poll-is_remote_timeout 1000 (λ n j. tt {0}) 121 (λ n j. 122) 0 silent [] 1
      (record peer_one { client_heartbeat = 60 }) [] with_silent refl refl trades refl not_due late
