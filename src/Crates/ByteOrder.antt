-- ===== src/Crates/ByteOrder.antt =====
-- `byteorder::BigEndian`, the words of the wire format: the most significant byte comes first.
use libp2p_bittorrent_protoc.Base.{ℕ, ◌+◌, ◌*◌, ◌/◌, ◌%◌, ◌^◌, ◌<◌, ◌≡◌, List, [], ◌∷◌}

-- The reads take what their callers slice out; `read_u16` reads the first two bytes of a slice.
pub record ByteOrder : Type 0 where
  pub read_u32 : List ℕ → ℕ
  pub read_u16 : List ℕ → ℕ
  pub write_u32 : ℕ → List ℕ
  pub write_u16 : ℕ → List ℕ
  pub read_u32_lem :
      (a b c d : ℕ) (rest : List ℕ)
      → read_u32 (a ∷ b ∷ c ∷ d ∷ rest) ≡ a * 2 ^ 24 + b * 2 ^ 16 + c * 2 ^ 8 + d
  pub read_u16_lem : (a b : ℕ) (rest : List ℕ) → read_u16 (a ∷ b ∷ rest) ≡ a * 2 ^ 8 + b
  pub write_u32_lem :
      (n : ℕ)
      → n < 2 ^ 32
      → write_u32 n ≡ n / 2 ^ 24 ∷ n / 2 ^ 16 % 2 ^ 8 ∷ n / 2 ^ 8 % 2 ^ 8 ∷ n % 2 ^ 8 ∷ []
  pub write_u16_lem : (n : ℕ) → n < 2 ^ 16 → write_u16 n ≡ n / 2 ^ 8 ∷ n % 2 ^ 8 ∷ []
