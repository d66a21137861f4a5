-- ===== src/Behavior/Events.antt =====
-- `src/behavior.rs`: what the behaviour tells its user, and what it queues.
use libp2p_bittorrent_protoc.Base.{ℕ, Result}
use libp2p_bittorrent_protoc.Hash.{ShaHash}
use libp2p_bittorrent_protoc.Disk.Block.{BlockMetadata}
use libp2p_bittorrent_protoc.Disk.Message.{DiskMessageOut}
use libp2p_bittorrent_protoc.Peer.State.{ChokeType, InterestType}
use libp2p_bittorrent_protoc.Peer.Buffer.{BlockErr}
use libp2p_bittorrent_protoc.Peer.Torrent.{TorrentState}
use libp2p_bittorrent_protoc.Peer.Pool.{HandshakeError}
use libp2p_bittorrent_protoc.Meta.{MetaInfo}
use libp2p_bittorrent_protoc.Connection.Events.{BitTorrentHandlerIn}

pub data PeerError (P : Type 0) : Type 0 where
  not_found : P → PeerError P

pub record BitfieldOk (P : Type 0) : Type 0 where
  pub torrent : ℕ
  pub peer : P

pub record ChokeOk (P : Type 0) : Type 0 where
  pub torrent : ℕ
  pub peer : P
  pub old_choke_ty : ChokeType
  pub new_choke_ty : ChokeType

-- the torrent, the peer, the old heartbeat and the new one
pub data KeepAliveOk (P I : Type 0) : Type 0 where
  remote client : ℕ → P → I → I → KeepAliveOk P I

pub record HaveOk (P : Type 0) : Type 0 where
  pub peer : P
  pub piece : ℕ

pub data HaveErr (P : Type 0) : Type 0 where
  not_found : P → HaveErr P
  invalid_index : ℕ → HaveErr P

pub record BlockOk (P : Type 0) : Type 0 where
  pub peer : P
  pub block_metadata : BlockMetadata
  pub torrent : ℕ

pub data SeedBlockOk (P : Type 0) : Type 0 where
  served : BlockOk P → SeedBlockOk P
  cancelled_by_remote : P → BlockMetadata → SeedBlockOk P

pub data SeedBlockErr (P : Type 0) : Type 0 where
  remote_not_allowed : P → BlockMetadata → SeedBlockErr P
  not_found : P → SeedBlockErr P

pub data TorrentAddedOk : Type 0 where
  new_seed new_leech : ℕ → TorrentState → TorrentAddedOk

pub data TorrentAddedErr : Type 0 where
  already_exist : ShaHash → MetaInfo → TorrentAddedErr

-- `HandshakeOk` is the peer. `InterestOk` is the interest and the peer.
pub data BitTorrentEvent (P I B : Type 0) : Type 0 where
  handshake_result : Result P (HandshakeError P) → BitTorrentEvent P I B
  leech_block_result : Result (BlockOk P) (BlockErr P) → BitTorrentEvent P I B
  bitfield_result : Result (BitfieldOk P) (PeerError P) → BitTorrentEvent P I B
  seed_block_result : Result (SeedBlockOk P) (SeedBlockErr P) → BitTorrentEvent P I B
  disk_result : Result (DiskMessageOut MetaInfo B) (Unit {0}) → BitTorrentEvent P I B
  keep_alive_result : Result (KeepAliveOk P I) (PeerError P) → BitTorrentEvent P I B
  choke_result : Result (ChokeOk P) (PeerError P) → BitTorrentEvent P I B
  interest_result : Result (InterestType × P) (PeerError P) → BitTorrentEvent P I B
  have_result : Result (HaveOk P) (HaveErr P) → BitTorrentEvent P I B
  torrent_finished : ℕ → BitTorrentEvent P I B
  torrent_added_result : Result TorrentAddedOk TorrentAddedErr → BitTorrentEvent P I B

-- `NetworkBehaviourAction` of libp2p, as far as the behaviour builds it; the user data of the
-- handler's requests are the torrents' identifiers.
pub data NetworkBehaviourAction (P V I B : Type 0) : Type 0 where
  generate_event : BitTorrentEvent P I B → NetworkBehaviourAction P V I B
  dial_peer : P → NetworkBehaviourAction P V I B
  send_event : P → BitTorrentHandlerIn V ℕ I → NetworkBehaviourAction P V I B
