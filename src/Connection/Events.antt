-- ===== src/Connection/Events.antt =====
-- `src/handler.rs`: the events that go into and come out of the handler of a connection.
use libp2p_bittorrent_protoc.Base.{ℕ, Option}
use libp2p_bittorrent_protoc.Wire.Message.{BitField, Handshake, PeerMessage, PeerRequest, Piece}
use libp2p_bittorrent_protoc.Peer.State.{ChokeType, InterestType}

-- `UniqueConnecId(u64)`; a `BitTorrentRequestId` is one of them.
abbrev pub UniqueConnecId : Type 0
UniqueConnecId = ℕ

abbrev pub BitTorrentRequestId : Type 0
BitTorrentRequestId = UniqueConnecId

-- `U` the user data of a request
pub data BitTorrentHandlerIn (V U I : Type 0) : Type 0 where
  disconnect : Option I → BitTorrentHandlerIn V U I
  reset : BitTorrentRequestId → BitTorrentHandlerIn V U I
  handshake_req : Handshake → U → BitTorrentHandlerIn V U I
  handshake_res : Handshake → BitTorrentRequestId → BitTorrentHandlerIn V U I
  bitfield_req : BitField V → U → BitTorrentHandlerIn V U I
  bitfield_res : BitField V → BitTorrentRequestId → BitTorrentHandlerIn V U I
  choke : ChokeType → BitTorrentHandlerIn V U I
  interest : InterestType → BitTorrentHandlerIn V U I
  get_piece_req : PeerRequest → U → BitTorrentHandlerIn V U I
  get_piece_res : Piece → BitTorrentRequestId → BitTorrentHandlerIn V U I
  cancel_piece : PeerRequest → BitTorrentRequestId → BitTorrentHandlerIn V U I
  have : ℕ → BitTorrentHandlerIn V U I
  keep_alive : BitTorrentHandlerIn V U I

-- `X` the error of a failed dial, `E` the error of a substream
pub data BitTorrentHandlerTorrentErr (V E X : Type 0) : Type 0 where
  upgrade : X → BitTorrentHandlerTorrentErr V E X
  unexpected_message : PeerMessage V → BitTorrentHandlerTorrentErr V E X
  io : E → BitTorrentHandlerTorrentErr V E X

pub data BitTorrentHandlerEvent (V U I E X : Type 0) : Type 0 where
  handshake_req : Handshake → BitTorrentRequestId → BitTorrentHandlerEvent V U I E X
  handshake_res : Handshake → U → BitTorrentHandlerEvent V U I E X
  bitfield_req : BitField V → BitTorrentRequestId → BitTorrentHandlerEvent V U I E X
  bitfield_res : BitField V → U → BitTorrentHandlerEvent V U I E X
  get_piece_req : PeerRequest → BitTorrentRequestId → BitTorrentHandlerEvent V U I E X
  get_piece_res : Piece → U → BitTorrentHandlerEvent V U I E X
  cancel_piece : PeerRequest → BitTorrentRequestId → BitTorrentHandlerEvent V U I E X
  choke : ChokeType → BitTorrentHandlerEvent V U I E X
  interest : InterestType → BitTorrentHandlerEvent V U I E X
  have : ℕ → BitTorrentHandlerEvent V U I E X
  torrent_err : BitTorrentHandlerTorrentErr V E X → Option U → BitTorrentHandlerEvent V U I E X
  keep_alive : I → BitTorrentHandlerEvent V U I E X

-- `ProtocolsHandlerEvent` of libp2p, as far as the handler builds it: the request of a substream to
-- the remote with the message to send on it, or an event for the behaviour.
pub data ProtocolsHandlerEvent (V U I E X : Type 0) : Type 0 where
  outbound_substream_request : PeerMessage V → Option U → ProtocolsHandlerEvent V U I E X
  custom : BitTorrentHandlerEvent V U I E X → ProtocolsHandlerEvent V U I E X
