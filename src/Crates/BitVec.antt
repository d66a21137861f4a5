-- ===== src/Crates/BitVec.antt =====
-- `bit_vec::BitVec`, a growable vector of bits. `iter` is the view by which the rest is described.
mod Octets
unfoldable pub use Octets.{bits_of, bytes_of}
pub use Octets.{take-bits_of, length-bytes_of}
use libp2p_bittorrent_protoc.Base.{ℕ, ◌<◌, ◌≡◌, Bool, true, false, List, Option, length}
use libp2p_bittorrent_protoc.Base.{get_elem?, set, take, replicate, All}

pub record BitVec (V : Type 0) : Type 0 where
  pub iter : V → List Bool
  pub len : V → ℕ
  pub get : V → ℕ → Option Bool
  pub write : V → ℕ → Bool → V
  pub all : V → Bool
  pub clear : V → V
  pub truncate : V → ℕ → V
  pub from_elem : ℕ → Bool → V
  pub from_bytes : List ℕ → V
  pub to_bytes : V → List ℕ
  -- two vectors are equal when they have the same bits
  pub ext : (v w : V) → iter v ≡ iter w → v ≡ w
  pub len_lem : (v : V) → len v ≡ length (iter v)
  pub get_lem : (v : V) (i : ℕ) → get v i ≡ get_elem? (iter v) i
  -- `set`, which panics out of bounds
  pub iter-write : (v : V) (i : ℕ) (b : Bool) → i < len v → iter (write v i b) ≡ set (iter v) i b
  pub all_sound : (v : V) → all v ≡ true → All (λ b. b ≡ true) (iter v)
  pub all_complete : (v : V) → All (λ b. b ≡ true) (iter v) → all v ≡ true
  pub iter-clear : (v : V) → iter (clear v) ≡ replicate (len v) false
  pub iter-truncate : (v : V) (n : ℕ) → iter (truncate v n) ≡ take n (iter v)
  pub iter-from_elem : (n : ℕ) (b : Bool) → iter (from_elem n b) ≡ replicate n b
  -- the first bit is the high-order bit of the first byte, and the last byte is filled with zeros
  pub iter-from_bytes : (bs : List ℕ) → iter (from_bytes bs) ≡ bits_of bs
  pub to_bytes_lem : (v : V) → to_bytes v ≡ bytes_of (iter v)
