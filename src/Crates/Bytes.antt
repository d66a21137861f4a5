-- ===== src/Crates/Bytes.antt =====
-- `bytes::BytesMut`, a growable byte buffer that is consumed from the front. `bytes` is the slice
-- that it derefs to. `Bytes`, its immutable form, is that slice itself in the models.
use libp2p_bittorrent_protoc.Base.{ℕ, ◌≤◌, ◌≡◌, List, [], ◌++◌, length, take, drop}

pub record BytesMut (B : Type 0) : Type 0 where
  pub bytes : B → List ℕ
  pub with_capacity : ℕ → B
  pub reserve : B → ℕ → B
  pub put : B → List ℕ → B
  -- `split_to` returns the front and leaves the rest
  pub split_to : B → ℕ → B × B
  pub advance : B → ℕ → B
  pub bytes-with_capacity : (n : ℕ) → bytes (with_capacity n) ≡ []
  pub bytes-reserve : (b : B) (n : ℕ) → bytes (reserve b n) ≡ bytes b
  pub bytes-put : (b : B) (s : List ℕ) → bytes (put b s) ≡ bytes b ++ s
  -- both panic past the end
  pub bytes-front :
      (b : B) (n : ℕ) → n ≤ length (bytes b) → bytes (split_to b n).0 ≡ take n (bytes b)
  pub bytes-rest :
      (b : B) (n : ℕ) → n ≤ length (bytes b) → bytes (split_to b n).1 ≡ drop n (bytes b)
  pub bytes-advance :
      (b : B) (n : ℕ) → n ≤ length (bytes b) → bytes (advance b n) ≡ drop n (bytes b)
