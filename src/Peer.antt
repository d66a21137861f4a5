-- ===== src/Peer.antt =====
-- `src/peer/`: the state of remote peers, the pieces that are loaded from them, and the torrents.
pub mod Buffer
pub mod State
pub mod Handler
pub mod Torrent
pub mod Pool
pub mod Tests
