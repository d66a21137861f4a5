-- ===== src/Peer/Tests/Pools.antt =====
-- The theorems on torrents and pools at a pool of one torrent with one peer.
use libp2p_bittorrent_protoc.Base.{
  ℕ, ◌+◌, ◌≤◌, ◌≡◌, ◌≢◌, ◌⊎◌, refl, Bool, true, false, List, [], ◌∷◌, none, some, ok, err, arith,
  nat_eq, if◌then◌else◌, ltb,
}
use libp2p_bittorrent_protoc.Base.Map
use libp2p_bittorrent_protoc.Base.Map.{keys}
use libp2p_bittorrent_protoc.Base.Vec.{count, hit}
use libp2p_bittorrent_protoc.Crates.Instances.{list_bit_vec, no_shuffle}
use libp2p_bittorrent_protoc.Crates.Instant.{seconds}
use libp2p_bittorrent_protoc.Wire.Message.{Handshake, new_handshake}
use libp2p_bittorrent_protoc.Disk.Block.{BlockMetadata}
use libp2p_bittorrent_protoc.Peer.State.{is_client_timeout, is_remote_timeout}
use libp2p_bittorrent_protoc.Peer.Handler.{random}
use libp2p_bittorrent_protoc.Peer.Torrent.{
  Torrent, TorrentState, active, paused, seed_and_leech, keep_alive, timeout, can_seed_piece_to,
  poll, state_is_active,
}
use libp2p_bittorrent_protoc.Peer.Pool.{
  TorrentPool, TorrentConfig, HandshakeError, has_info_hash, count_active, add_torrent,
  on_handshake_request, get,
}
use libp2p_bittorrent_protoc.Peer.Pool.Requests.{on_piece_request, on_block_read}
use libp2p_bittorrent_protoc.Peer.Pool.Admission.{IsAdmitted, add_torrent_lem}
use libp2p_bittorrent_protoc.Peer.Pool.Members.{holders, on_handshake_request_lem}
use libp2p_bittorrent_protoc.Base.{not}
use libp2p_bittorrent_protoc.Base.Sets.{contains}
use libp2p_bittorrent_protoc.Hash.{eq_hash}
use libp2p_bittorrent_protoc.Peer.Pool.Queries.{iter_candidate_peer_ids}
use libp2p_bittorrent_protoc.Peer.Pool.Candidates.{on_handshake_request-iter_candidate_peer_ids}
use libp2p_bittorrent_protoc.Peer.Pool.Served.{on_block_read-on_piece_request}
use libp2p_bittorrent_protoc.Peer.Tests.{peer_one, second_only, five, hash_of}

abbrev pub one_torrent : Torrent ℕ (List Bool) ℕ
one_torrent = record {
  id = 0;
  info_hash = hash_of 1;
  piece_handler = record {
    id = 0;
    selection_strategy = random;
    piece_buffer = none;
    pending_seed_blocks = [];
    bitfield = second_only;
    piece_length = 5;
    last_piece_length = 5;
    peers = (1, peer_one) ∷ [];
    endgame = false;
    finished = false;
  };
  created = 0;
  seed_leech = seed_and_leech;
  state = active;
}

abbrev pub one_pool : TorrentPool ℕ (List Bool) ℕ
one_pool = record {
  local_peer_hash = hash_of 5;
  local_peer_id = 0;
  torrents = (0, one_torrent) ∷ [];
  max_active_torrents = 1;
  initial_piece_selection_strategy = random;
  next_unique_torrent = 1;
}

pub once : (q : ℕ) → count q (1 ∷ []) ≤ 1
once q = ground arith

writes_late : (poll tt 121 122 one_torrent).1 ≡ keep_alive 0 1
unfolding poll is_client_timeout
writes_late = refl

-- the client has written to the peer since it was last heard
abbrev pub silent : Torrent ℕ (List Bool) ℕ
silent = record one_torrent {
  piece_handler = record one_torrent.piece_handler {
    peers = (1, record peer_one { client_heartbeat = 60 }) ∷ [];
  };
}

heard_late : (poll tt 121 122 silent).1 ≡ timeout 0 1
unfolding poll is_client_timeout is_remote_timeout
heard_late = refl

one_pool-IsAdmitted : IsAdmitted one_pool
one_pool-IsAdmitted = record {
  fresh = (omega arith, tt);
  filed = (refl, tt);
  unique = λ x. ground arith;
}

abbrev another : TorrentConfig (List Bool)
another = record {
  info_hash = hash_of 2;
  state = active;
  bitfield = second_only;
  piece_length = 5;
  last_piece_length = 5;
  seed_leech = seed_and_leech;
}

add_torrent_lem_example :
    IsAdmitted (add_torrent 3 another one_pool).0
    × (((has_info_hash (hash_of 2) one_pool.torrents ≡ true)
          × (add_torrent 3 another one_pool ≡ (one_pool, err (hash_of 2))))
        ⊎ ((t : Torrent ℕ (List Bool) ℕ) × (state : TorrentState) × ((add_torrent 3 another
                one_pool).1
              ≡ ok (1, state))
            × (get 1 one_pool ≡ none)
            × (get 1 (add_torrent 3 another one_pool).0 ≡ some t)
            × (t.info_hash ≡ hash_of 2)
            × (t.state ≡ active)
            × (state ≡ (
                if state_is_active active
                then (if ltb (count_active one_pool.torrents) 1 then active else paused)
                else active))))
add_torrent_lem_example = add_torrent_lem 3 another one_pool one_pool-IsAdmitted

abbrev hello : Handshake
unfolding new_handshake
hello = new_handshake (hash_of 1) (hash_of 6)

on_handshake_request_lem_example :
    (((on_handshake_request 8 8 2 hello one_pool).1
        ≡ ok (new_handshake hello.info_hash (hash_of 5)))
      × (has_info_hash hello.info_hash one_pool.torrents ≡ true)
      × (holders 2 one_pool.torrents ≡ 0)
      × ((q : ℕ)
          → holders q (on_handshake_request 8 8 2 hello one_pool).0.torrents
            ≡ holders q one_pool.torrents + hit 2 q))
    ⊎ ((error : HandshakeError ℕ) × (on_handshake_request 8 8 2 hello one_pool
          ≡ (one_pool, err error))
        × ((holders 2 one_pool.torrents ≢ 0)
            ⊎ (has_info_hash hello.info_hash one_pool.torrents ≡ false)))
on_handshake_request_lem_example = on_handshake_request_lem 8 8 2 hello one_pool

greeting :
    (on_handshake_request 8 8 2 hello one_pool).1 ≡ ok (new_handshake (hash_of 1) (hash_of 5))
unfolding on_handshake_request hello Map.contains_key eq_hash
greeting = refl

on_handshake_request-iter_candidate_peer_ids_example :
    contains 2 (iter_candidate_peer_ids (hash_of 3) (on_handshake_request 8 8 2 hello one_pool).0)
    ≡ not (eq_hash hello.info_hash (hash_of 3))
on_handshake_request-iter_candidate_peer_ids_example =
    on_handshake_request-iter_candidate_peer_ids 8 8 2 hello (hash_of 3) one_pool
      (new_handshake (hash_of 1) (hash_of 5)) greeting

one_holder : holders 1 one_pool.torrents ≤ 1
one_holder = ground arith

abbrev second_piece : BlockMetadata
second_piece = record five { piece_index = 1 }

granted : (on_piece_request 1 second_piece 7 one_pool).1 ≡ ok (0, second_piece)
unfolding on_piece_request Map.get can_seed_piece_to
granted = refl

on_block_read-on_piece_request_example :
    on_block_read 0 second_piece (on_piece_request 1 second_piece 7 one_pool).0
    ≡ (one_pool, some (1, 7))
on_block_read-on_piece_request_example =
    on_block_read-on_piece_request 1 second_piece second_piece 7 0 one_pool ((refl, refl), tt)
      (λ n. ground arith) granted
