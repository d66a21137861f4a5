-- ===== src/Crates.antt =====
-- What the code uses of other packages, each as an interface: the operations that it calls and
-- what their documentation says of them. Every model is generic in these interfaces.
pub mod Bendy
pub mod BitVec
pub mod WalkDir
pub mod Bytes
pub mod ByteOrder
pub mod Instant
pub mod LruCache
pub mod Rng
pub mod StreamSink
pub mod Instances
