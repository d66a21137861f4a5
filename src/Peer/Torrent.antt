-- ===== src/Peer/Torrent.antt =====
-- `Torrent` of `src/peer/torrent.rs`: one torrent, its handler and the way it trades blocks.
pub mod Laws
use libp2p_bittorrent_protoc.Base.{
  ℕ, Bool, true, false, not, ◌&&◌, List, [], ◌∷◌, Option, none, some, Result, ok, err, Eq,
  if◌then◌else◌,
}
use libp2p_bittorrent_protoc.Base.Map
use libp2p_bittorrent_protoc.Crates.BitVec.{BitVec}
use libp2p_bittorrent_protoc.Crates.Instant.{Instant}
use libp2p_bittorrent_protoc.Crates.Rng.{Rng}
use libp2p_bittorrent_protoc.Hash.{ShaHash}
use libp2p_bittorrent_protoc.Disk.Block.{BlockMetadata, Block}
use libp2p_bittorrent_protoc.Peer.State.{
  BitTorrentPeer, ChokeType, InterestType, choked, un_choked, interested, not_interested,
  remote_can_leech, remote_can_seed_piece, is_client_timeout, is_remote_timeout, add_piece,
}
use libp2p_bittorrent_protoc.Peer.Buffer.{NextBlock, BlockErr, TorrentError}
use libp2p_bittorrent_protoc.Peer.Handler.{
  TorrentPieceHandler, TorrentPieceHandlerState, waiting_peers, leech_block, piece_finished,
  endgame, has_piece,
}
use libp2p_bittorrent_protoc.Peer.Handler
use libp2p_bittorrent_protoc.Peer.Handler.Events.{
  update_peer, get_peer, is_ready_to_seed_block, set_choke_on_remote, set_interest_on_remote,
}
use libp2p_bittorrent_protoc.Peer.Handler.Events

pub data TorrentState : Type 0 where
  active paused stopped : TorrentState

unfoldable pub state_is_active : TorrentState → Bool
state_is_active active = true
state_is_active paused = false
state_is_active stopped = false

-- `SeedLeechConfig` of `src/behavior.rs`
pub data SeedLeechConfig : Type 0 where
  seed_only leech_only seed_and_leech : SeedLeechConfig

unfoldable pub is_leeching : SeedLeechConfig → Bool
is_leeching seed_only = false
is_leeching leech_only = true
is_leeching seed_and_leech = true

pub record Torrent (P V I : Type 0) : Type 0 where
  pub id : ℕ
  pub info_hash : ShaHash
  pub piece_handler : TorrentPieceHandler P V I
  pub created : I
  pub seed_leech : SeedLeechConfig
  pub state : TorrentState

-- `Waiting` holds the torrent itself in the source; here its identifier. `unimplemented` is the panic of
-- a poll, and no state of the source.
pub data TorrentPoolState (P : Type 0) : Type 0 where
  idle : TorrentPoolState P
  unimplemented : TorrentPoolState P
  waiting : ℕ → TorrentPoolState P
  piece_ready : Result (ℕ × Block) TorrentError → TorrentPoolState P
  finished : ℕ → TorrentPoolState P
  keep_alive timeout : ℕ → P → TorrentPoolState P
  next_block : NextBlock P → TorrentPoolState P

module _ {P V I : Type 0} where
  unfoldable pub new :
      ℕ → ShaHash → TorrentPieceHandler P V I → SeedLeechConfig → TorrentState → I → Torrent P V I
  new id info_hash piece_handler seed_leech state now = record {
    id = id;
    info_hash = info_hash;
    piece_handler = piece_handler;
    created = now;
    seed_leech = seed_leech;
    state = state;
  }

  unfoldable pub is_active : Torrent P V I → Bool
  is_active t = state_is_active t.state

  -- an operation of the handler, on the torrent that owns it
  unfoldable pub on_handler :
      {A : Type 0}
      → (TorrentPieceHandler P V I → TorrentPieceHandler P V I × A)
      → Torrent P V I
      → Torrent P V I × A
  on_handler f t = let (h, a) = f t.piece_handler in (record t { piece_handler = h }, a)

module _ {P V I : Type 0} ⦃e : Eq P⦄ where
  unfoldable pub contains_peer : P → Torrent P V I → Bool
  contains_peer peer_id t = Map.contains_key peer_id t.piece_handler.peers

  unfoldable pub remove_peer : P → Torrent P V I → Torrent P V I × Option (BitTorrentPeer V I)
  unfolding on_handler
  remove_peer peer_id t = on_handler (Events.remove_peer peer_id) t

  unfoldable pub add_block :
      P → Block → Torrent P V I → Torrent P V I × Result BlockMetadata (BlockErr P)
  unfolding on_handler
  add_block peer_id block t = on_handler (Events.add_block peer_id block) t

  unfoldable pub on_keep_alive_by_remote : P → I → Torrent P V I → Torrent P V I × Option I
  unfolding get_peer update_peer
  on_keep_alive_by_remote peer_id heartbeat t = elim (get_peer peer_id t.piece_handler) [
    | none ↦ (t, none)
    | some peer ↦ (
      record t {
        piece_handler =
            update_peer peer_id (record peer { remote_heartbeat = heartbeat }) t.piece_handler;
      },
      some peer.remote_heartbeat,
    )
  ]

  unfoldable pub on_remote_interested : P → Torrent P V I → Torrent P V I × Option InterestType
  unfolding on_handler
  on_remote_interested peer_id t = on_handler (set_interest_on_remote peer_id interested) t

  unfoldable pub on_remote_not_interested : P → Torrent P V I → Torrent P V I × Option InterestType
  unfolding on_handler
  on_remote_not_interested peer_id t = on_handler (set_interest_on_remote peer_id not_interested) t

  unfoldable pub set_client_interest :
      P → InterestType → Torrent P V I → Torrent P V I × Option InterestType
  unfolding on_handler
  set_client_interest peer_id interest t =
      on_handler (Events.set_client_interest peer_id interest) t

  unfoldable pub set_choke_for_remote :
      P → ChokeType → Torrent P V I → Torrent P V I × Option ChokeType
  unfolding on_handler
  set_choke_for_remote peer_id choke t =
      on_handler (Events.set_client_choke_for_peer peer_id choke) t

  unfoldable pub unchoke_remote : P → Torrent P V I → Torrent P V I × Option ChokeType
  unfolding set_choke_for_remote
  unchoke_remote peer_id t = set_choke_for_remote peer_id un_choked t

  unfoldable pub choke_remote : P → Torrent P V I → Torrent P V I × Option ChokeType
  unfolding set_choke_for_remote
  choke_remote peer_id t = set_choke_for_remote peer_id choked t

module _ {P V I : Type 0} ⦃e : Eq P⦄ ⦃v : BitVec V⦄ where
  -- The piece is owned from now on.
  unfoldable pub set_piece : ℕ → Torrent P V I → Torrent P V I × Result (Unit {0}) (Unit {0})
  unfolding on_handler Handler.set_piece
  set_piece piece_index t = on_handler (Handler.set_piece piece_index) t

  unfoldable pub on_choked_by_remote : P → Torrent P V I → Torrent P V I × Option ChokeType
  unfolding on_handler
  on_choked_by_remote peer_id t = on_handler (set_choke_on_remote peer_id choked) t

  unfoldable pub on_unchoked_by_remote : P → Torrent P V I → Torrent P V I × Option ChokeType
  unfolding on_handler
  on_unchoked_by_remote peer_id t = on_handler (set_choke_on_remote peer_id un_choked) t

  unfoldable pub on_choke_by_remote :
      P → ChokeType → Torrent P V I → Torrent P V I × Option ChokeType
  unfolding on_choked_by_remote on_unchoked_by_remote
  on_choke_by_remote peer_id choke t = elim choke [
    | choked ↦ on_choked_by_remote peer_id t
    | un_choked ↦ on_unchoked_by_remote peer_id t
  ]

  unfoldable pub on_remote_have : P → ℕ → Torrent P V I → Torrent P V I × Option Bool
  unfolding get_peer update_peer
  on_remote_have peer_id piece_index t = elim (get_peer peer_id t.piece_handler) [
    | none ↦ (t, none)
    | some peer ↦
        let (peer', result) = add_piece piece_index peer in
        (record t { piece_handler = update_peer peer_id peer' t.piece_handler }, result)
  ]

  unfoldable pub can_seed_piece_to : P → ℕ → Torrent P V I → Bool
  unfolding get_peer has_piece remote_can_leech is_ready_to_seed_block
  can_seed_piece_to peer_id piece_index t = elim (get_peer peer_id t.piece_handler) [
    | none ↦ false
    | some peer ↦
        has_piece piece_index t.piece_handler
        && (remote_can_leech peer && is_ready_to_seed_block peer_id t.piece_handler)
  ]

-- The loop over the peers of a torrent: it stops at the first that has timed out. `clock` is the
-- instant that `Instant::now()` gives in it.
unfoldable pub heartbeats :
    {P V I : Type 0} ⦃i : Instant I⦄
    → I
    → I
    → ℕ
    → List (P × BitTorrentPeer V I)
    → List (P × BitTorrentPeer V I) × Option (TorrentPoolState P)
heartbeats now clock id [] = ([], none)
heartbeats now clock id ((p, peer) ∷ peers) =
    let (peers', found) = heartbeats now clock id peers in
    if is_client_timeout now peer
    then ((p, record peer { client_heartbeat = clock }) ∷ peers, some (keep_alive id p))
    else if is_remote_timeout now peer
    then ((p, peer) ∷ peers, some (timeout id p))
    else ((p, peer) ∷ peers', found)

-- What `Torrent::poll` makes of the handler's state. For the end game the source panics, by
-- `unimplemented!`.
unfoldable pub pool_state : {P : Type 0} → ℕ → TorrentPieceHandlerState P → TorrentPoolState P
pool_state id waiting_peers = waiting id
pool_state id (leech_block (some block)) = next_block block
pool_state id (leech_block none) = waiting id
pool_state id (piece_finished (ok block)) = piece_ready (ok (id, block))
pool_state id (piece_finished (err x)) = piece_ready (err x)
pool_state id Handler.finished = finished id
pool_state id endgame = unimplemented
pool_state id Handler.seed = idle

-- the torrent only seeds once it is finished
unfoldable pub seed_leech_after :
    {P : Type 0} → SeedLeechConfig → TorrentPieceHandlerState P → SeedLeechConfig
seed_leech_after s Handler.finished = seed_only
seed_leech_after s waiting_peers = s
seed_leech_after s (leech_block block) = s
seed_leech_after s (piece_finished result) = s
seed_leech_after s endgame = s
seed_leech_after s Handler.seed = s

module _ {P V I R : Type 0} ⦃e : Eq P⦄ ⦃v : BitVec V⦄ ⦃i : Instant I⦄ ⦃r : Rng R⦄ where
  unfoldable pub poll : R → I → I → Torrent P V I → Torrent P V I × TorrentPoolState P
  unfolding heartbeats pool_state seed_leech_after
  poll rnd now clock t =
      let h = t.piece_handler in
      let (peers, found) = heartbeats now clock t.id h.peers in
      elim found [
        | some event ↦ (record t { piece_handler = record h { peers = peers } }, event)
        | none ↦
            let (h', state) = Events.poll rnd h in
            (
              record t { piece_handler = h'; seed_leech = seed_leech_after t.seed_leech state },
              pool_state t.id state,
            )
      ]
