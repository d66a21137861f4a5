-- ===== src/Wire/Codec/Frames.antt =====
-- The length prefix: how `decode` comes to the arm of a frame.
use libp2p_bittorrent_protoc.Base.{
  ℕ, ◌-◌, ◌*◌, ◌/◌, ◌%◌, ◌^◌, ◌≤◌, ◌<◌, ◌≡◌, ◌≢◌, ◌∙◌, ap, List, [], ◌∷◌, ◌++◌, none, ok, done,
  arith, length, take, drop,
}
use libp2p_bittorrent_protoc.Crates.BitVec.{BitVec}
use libp2p_bittorrent_protoc.Crates.Bytes.{BytesMut}
use libp2p_bittorrent_protoc.Crates.ByteOrder.{ByteOrder}
use libp2p_bittorrent_protoc.Wire.Codec.{slice, slice_from, decode, decode_length}

pub slice_lem :
    (s : List ℕ) (lo hi : ℕ)
    → lo ≤ hi
    → hi ≤ length s
    → slice s lo hi ≡ done (take (hi - lo) (drop lo s))
unfolding slice
slice_lem s lo hi h k = ground arith

pub slice_from_lem : (s : List ℕ) (lo : ℕ) → lo ≤ length s → slice_from s lo ≡ done (drop lo s)
unfolding slice_from
slice_from_lem s lo h = ground arith

-- A prefix below this does not begin with the byte of a handshake.
abbrev pub handshake_word : ℕ
handshake_word = 19 * 2 ^ 24

-- The four bytes of a word.
abbrev pub be : ℕ → List ℕ
be n = (n / 2 ^ 24) ∷ (n / 2 ^ 16 % 2 ^ 8) ∷ (n / 2 ^ 8 % 2 ^ 8) ∷ (n % 2 ^ 8) ∷ []

module _ ⦃w : ByteOrder⦄ where
  pub read_u32-write_u32 :
      (n : ℕ) (rest : List ℕ) → n < 2 ^ 32 → w.read_u32 (w.write_u32 n ++ rest) ≡ n
  read_u32-write_u32 n rest h = rw (w.write_u32_lem n h) (rw w.read_u32_lem (omega arith))

  pub word_lem : (n : ℕ) → n < 2 ^ 32 → w.read_u32 (be n) ≡ n
  word_lem n h = rw w.read_u32_lem (omega arith)

  pub length-write_u32 : (n : ℕ) → n < 2 ^ 32 → length (w.write_u32 n) ≡ 4
  length-write_u32 n h = rw (w.write_u32_lem n h)

module _ {V B : Type 0} ⦃v : BitVec V⦄ ⦃b : BytesMut B⦄ ⦃w : ByteOrder⦄ where
  decode_word :
      (src : B) (p q r s : ℕ) (tail : List ℕ)
      → p ≢ 19
      → b.bytes src ≡ p ∷ q ∷ r ∷ s ∷ tail
      → decode {V = V} src ≡ decode_length src (w.read_u32 (p ∷ q ∷ r ∷ s ∷ []))
  unfolding decode
  decode_word src p q r s tail h e = rw e (ground arith)

  pub decode_frame :
      (src : B) (n : ℕ) (tail : List ℕ)
      → n < handshake_word
      → b.bytes src ≡ w.write_u32 n ++ tail
      → decode {V = V} src ≡ decode_length src n
  decode_frame src n tail h e =
      decode_word src (n / 2 ^ 24) (n / 2 ^ 16 % 2 ^ 8) (n / 2 ^ 8 % 2 ^ 8) (n % 2 ^ 8) tail
        (omega arith) (e ∙ ap (λ t. t ++ tail) (w.write_u32_lem n (omega arith)))
      ∙ ap (decode_length src) (rw w.read_u32_lem (omega arith))

  -- Fewer than four bytes are no message yet.
  pub decode_short : (src : B) → length (b.bytes src) < 4 → decode {V = V} src ≡ done (ok none, src)
  unfolding decode
  decode_short src h = ground arith
