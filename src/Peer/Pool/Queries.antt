-- ===== src/Peer/Pool/Queries.antt =====
-- How a pool is set up, from a `BitTorrentConfig` of `src/behavior.rs`, and what is asked of it:
-- the iterators of `src/peer/torrent.rs`, and the questions to one torrent and to its way of trading.
use libp2p_bittorrent_protoc.Base.{
  ℕ, Bool, true, false, not, List, [], Option, none, some, Eq, filter, flat_map,
}
use libp2p_bittorrent_protoc.Base.Map.{values, keys}
use libp2p_bittorrent_protoc.Crates.BitVec.{BitVec}
use libp2p_bittorrent_protoc.Hash.{ShaHash, eq_hash}
use libp2p_bittorrent_protoc.Peer.State.{BitTorrentPeer, remote_can_seed_piece}
use libp2p_bittorrent_protoc.Peer.Handler.{PieceSelection, random}
use libp2p_bittorrent_protoc.Peer.Handler.Events.{get_peer, update_peer}
use libp2p_bittorrent_protoc.Peer.Torrent.{
  Torrent, TorrentState, active, paused, stopped, SeedLeechConfig, seed_only, leech_only,
  seed_and_leech,
}
use libp2p_bittorrent_protoc.Peer.Pool.{TorrentPool}

-- `F` is a path, and `S` a torrent file with the path of its content (`TorrentSeed`).
pub record BitTorrentConfig (F S : Type 0) : Type 0 where
  pub max_simultaneous_downloads : Option ℕ
  pub max_active_torrents : Option ℕ
  pub move_completed_downloads : Option F
  pub resume_leech : Option (List F)
  pub files_to_seed : Option (List S)
  pub initial_piece_selection : Option PieceSelection
  pub peer_hash : Option ShaHash

abbrev pub max_active : ℕ
max_active = 5

unfoldable pub default_selection : PieceSelection
default_selection = random

unfoldable pub default_config : {F S : Type 0} → BitTorrentConfig F S
unfolding default_selection
default_config = record {
  max_simultaneous_downloads = some max_active;
  max_active_torrents = some max_active;
  move_completed_downloads = none;
  resume_leech = none;
  files_to_seed = none;
  initial_piece_selection = some default_selection;
  peer_hash = none;
}

-- `random_hash` is what `ShaHash::random` gives. The fields of the pool that are never read are left
-- out, and with them what sets them.
unfoldable pub new : {P V I F S : Type 0} → ShaHash → P → BitTorrentConfig F S → TorrentPool P V I
unfolding default_selection
new random_hash local_peer_id config = record {
  local_peer_hash = elim config.peer_hash [ some hash ↦ hash | none ↦ random_hash ];
  local_peer_id = local_peer_id;
  torrents = [];
  max_active_torrents = elim config.max_active_torrents [ some count ↦ count | none ↦ max_active ];
  initial_piece_selection_strategy = elim config.initial_piece_selection [
    | some way ↦ way
    | none ↦ default_selection
  ];
  next_unique_torrent = 0;
}

unfoldable pub is_seed_only : SeedLeechConfig → Bool
is_seed_only seed_only = true
is_seed_only leech_only = false
is_seed_only seed_and_leech = false

unfoldable pub is_leech_only : SeedLeechConfig → Bool
is_leech_only seed_only = false
is_leech_only leech_only = true
is_leech_only seed_and_leech = false

unfoldable pub is_seed_and_leech : SeedLeechConfig → Bool
is_seed_and_leech seed_only = false
is_seed_and_leech leech_only = false
is_seed_and_leech seed_and_leech = true

unfoldable pub is_seeding : SeedLeechConfig → Bool
unfolding is_leech_only
is_seeding s = not (is_leech_only s)

unfoldable pub state_is_paused : TorrentState → Bool
state_is_paused active = false
state_is_paused paused = true
state_is_paused stopped = false

unfoldable pub state_is_stopped : TorrentState → Bool
state_is_stopped active = false
state_is_stopped paused = false
state_is_stopped stopped = true

module _ {P V I : Type 0} where
  unfoldable pub is_paused : Torrent P V I → Bool
  unfolding state_is_paused
  is_paused t = state_is_paused t.state

  unfoldable pub is_stopped : Torrent P V I → Bool
  unfolding state_is_stopped
  is_stopped t = state_is_stopped t.state

  unfoldable pub iter_peer_ids : Torrent P V I → List P
  iter_peer_ids t = keys t.piece_handler.peers

  unfoldable pub iter_peers : Torrent P V I → List (BitTorrentPeer V I)
  iter_peers t = values t.piece_handler.peers

  unfoldable pub iter : TorrentPool P V I → List (Torrent P V I)
  iter pool = values pool.torrents

  unfoldable pub iter_candidate_peers : ShaHash → TorrentPool P V I → List (BitTorrentPeer V I)
  unfolding iter_peers
  iter_candidate_peers info_hash pool =
      flat_map iter_peers (filter (λ t. not (eq_hash t.info_hash info_hash)) (values pool.torrents))

  unfoldable pub iter_candidate_peer_ids : ShaHash → TorrentPool P V I → List P
  unfolding iter_peer_ids
  iter_candidate_peer_ids info_hash pool =
      flat_map iter_peer_ids
        (filter (λ t. not (eq_hash t.info_hash info_hash)) (values pool.torrents))

  -- `seed_leech != SeedOnly`
  unfoldable pub iter_leeching : TorrentPool P V I → List (Torrent P V I)
  unfolding is_seed_only
  iter_leeching pool = filter (λ t. not (is_seed_only t.seed_leech)) (values pool.torrents)

  unfoldable pub iter_leeching_from : TorrentPool P V I → List P
  unfolding iter_leeching iter_peer_ids
  iter_leeching_from pool = flat_map iter_peer_ids (iter_leeching pool)

  -- `seed_leech != LeechOnly`
  unfoldable pub iter_seeding : TorrentPool P V I → List (Torrent P V I)
  unfolding is_leech_only
  iter_seeding pool = filter (λ t. not (is_leech_only t.seed_leech)) (values pool.torrents)

  unfoldable pub iter_seeding_to : TorrentPool P V I → List P
  unfolding iter_seeding iter_peer_ids
  iter_seeding_to pool = flat_map iter_peer_ids (iter_seeding pool)

  unfoldable pub iter_complete_seeds : TorrentPool P V I → List (Torrent P V I)
  unfolding is_seed_only
  iter_complete_seeds pool = filter (λ t. is_seed_only t.seed_leech) (values pool.torrents)

module _ {P V I : Type 0} ⦃e : Eq P⦄ where
  -- `Torrent::on_keep_alive_by_client`
  unfoldable pub on_keep_alive_by_client : P → I → Torrent P V I → Torrent P V I × Option I
  unfolding get_peer update_peer
  on_keep_alive_by_client peer_id heartbeat t = elim (get_peer peer_id t.piece_handler) [
    | none ↦ (t, none)
    | some peer ↦ (
      record t {
        piece_handler =
            update_peer peer_id (record peer { client_heartbeat = heartbeat }) t.piece_handler;
      },
      some peer.client_heartbeat,
    )
  ]

module _ {P V I : Type 0} ⦃e : Eq P⦄ ⦃v : BitVec V⦄ where
  unfoldable pub can_leech_piece_from : P → ℕ → Torrent P V I → Bool
  unfolding get_peer remote_can_seed_piece
  can_leech_piece_from peer_id piece_index t = elim (get_peer peer_id t.piece_handler) [
    | none ↦ false
    | some peer ↦ remote_can_seed_piece piece_index peer
  ]
