-- ===== src/Wire.antt =====
-- `src/proto/`: the peer wire protocol, its messages and the codec that frames them.
pub mod Message
pub mod Codec
mod Tests
