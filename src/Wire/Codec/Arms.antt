-- ===== src/Wire/Codec/Arms.antt =====
-- Each arm of the decoder on a buffer that holds the whole frame.
use libp2p_bittorrent_protoc.Base.{
  ℕ, ◌+◌, ◌-◌, ◌/◌, ◌%◌, ◌^◌, ◌≤◌, ◌<◌, ◌≡◌, ◌≢◌, ◌⊎◌, refl, sym, ◌∙◌, ap, List, [], ◌∷◌, ◌++◌,
  some, ok, done, arith, length, take, drop, ltb, if◌then◌else◌, take-append, take_all, drop-append,
  length-append,
}
use mathlib.Core.List.{append_assoc}
use libp2p_bittorrent_protoc.Crates.BitVec.{
  BitVec, bits_of, bytes_of, take-bits_of, length-bytes_of,
}
use libp2p_bittorrent_protoc.Crates.Bytes.{BytesMut}
use libp2p_bittorrent_protoc.Crates.ByteOrder.{ByteOrder}
use libp2p_bittorrent_protoc.Wire.Message.{
  PeerMessage, PeerRequest, bitfield, handshake, bittorrent_identifier, choke, un_choke, interested,
  not_interested, have, piece, port,
}
use libp2p_bittorrent_protoc.Wire.Codec.{
  Decoded, decode_plain, decode_have, decode_request, decode_piece, decode_port, decode_bitfield,
  decode_handshake,
}
use libp2p_bittorrent_protoc.Wire.Codec.Frames.{word_lem, be}

-- The call returns the message and leaves a buffer that holds `rest`.
abbrev pub Yields : {V B : Type 0} ⦃b : BytesMut B⦄ → Decoded V B → PeerMessage V → List ℕ → Type 0
Yields {V} {B} ⦃b⦄ result m rest =
    (src' : B) × (result ≡ done (ok (some m), src')) × (b.bytes src' ≡ rest)

pub split_front :
    {B : Type 0} ⦃b : BytesMut B⦄ (src : B) (front rest : List ℕ) (n : ℕ)
    → n ≡ length front
    → b.bytes src ≡ front ++ rest
    → (b.bytes (b.split_to src n).0 ≡ front) × (b.bytes (b.split_to src n).1 ≡ rest)
split_front ⦃b⦄ src front rest n h e =
    let fits : n ≤ length (b.bytes src) = rw e (omega (arith, length-append front rest)) in
    (
      b.bytes-front src n fits ∙ ap (take n) e ∙ take-append n front rest (sym h),
      b.bytes-rest src n fits ∙ ap (drop n) e ∙ drop-append n front rest (sym h),
    )

bits_back :
    {V : Type 0} ⦃v : BitVec V⦄
    → (f : V) (n : ℕ) → n ≡ v.len f
    → v.truncate (v.from_bytes (v.to_bytes f)) n ≡ f
bits_back ⦃v⦄ f n h = v.ext _ f (
    v.iter-truncate _ n
    ∙ ap (take n) (v.iter-from_bytes _ ∙ ap bits_of (v.to_bytes_lem f))
    ∙ ap (λ t. take t (bits_of (bytes_of (v.iter f)))) (h ∙ v.len_lem f)
    ∙ take-bits_of (v.iter f))

handshake_fields :
    (reserved info peer : List ℕ)
    → length reserved ≡ 8
    → length info ≡ 20
    → length peer ≡ 20
    → let body = reserved ++ (info ++ peer) in
      (take 8 body ≡ reserved) × (take 20 (drop 8 body) ≡ info) × (take 20 (drop 28 body) ≡ peer)
handshake_fields reserved info peer hr hi hp = (
  take-append 8 reserved (info ++ peer) hr,
  ap (take 20) (drop-append 8 reserved (info ++ peer) hr) ∙ take-append 20 info peer hi,
  ap (λ t. take 20 (drop 28 t)) (sym (append_assoc reserved info peer))
      ∙ ap (take 20)
          (drop-append 28 (reserved ++ info) peer (omega (arith, length-append reserved info)))
      ∙ take_all 20 peer (omega arith),
)

module _ {V B : Type 0} ⦃v : BitVec V⦄ ⦃b : BytesMut B⦄ ⦃w : ByteOrder⦄ where
  pub have_arm :
      (src : B) (p q r s i : ℕ) (rest : List ℕ)
      → i < 2 ^ 32
      → b.bytes src ≡ p ∷ q ∷ r ∷ s ∷ 4 ∷ (be i ++ rest)
      → Yields {V = V} (decode_have src) (have i) rest
  unfolding decode_have
  have_arm src p q r s i rest hi e =
      let (f, g) = split_front src (p ∷ q ∷ r ∷ s ∷ 4 ∷ be i) rest 9 refl e in
      ((b.split_to src 9).1, rw e (ground (arith, word_lem i hi)), g)

  pub request_arm :
      (message : PeerRequest → PeerMessage V) (src : B) (p q r s k i j l : ℕ) (rest : List ℕ)
      → i < 2 ^ 32
      → j < 2 ^ 32
      → l < 2 ^ 32
      → b.bytes src ≡ p ∷ q ∷ r ∷ s ∷ k ∷ ((be i ++ (be j ++ be l)) ++ rest)
      → Yields {V = V}
          (decode_request src 17 message)
          (message (record { index = i; begin = j; length = l }))
          rest
  unfolding decode_request
  request_arm message src p q r s k i j l rest hi hj hl e =
      let (f, g) = split_front src (p ∷ q ∷ r ∷ s ∷ k ∷ (be i ++ (be j ++ be l))) rest 17 refl e in
      ((b.split_to src 17).1, rw (f, word_lem i hi, word_lem j hj, word_lem l hl), g)

  pub piece_arm :
      (src : B) (p q r s k i j : ℕ) (block rest : List ℕ)
      → i < 2 ^ 32
      → j < 2 ^ 32
      → b.bytes src ≡ p ∷ q ∷ r ∷ s ∷ k ∷ ((be i ++ (be j ++ block)) ++ rest)
      → Yields {V = V}
          (decode_piece src (13 + length block))
          (piece (record { index = i; begin = j; block = block }))
          rest
  unfolding decode_piece
  piece_arm src p q r s k i j block rest hi hj e =
      let n = 13 + length block in
      let (f, g) =
        split_front src (p ∷ q ∷ r ∷ s ∷ k ∷ (be i ++ (be j ++ block))) rest n (omega arith) e in
      ((b.split_to src n).1, rw f (ground (arith, word_lem i hi, word_lem j hj)), g)

  pub port_arm :
      (src : B) (p q r s n : ℕ) (rest : List ℕ)
      → n < 2 ^ 16
      → b.bytes src ≡ p ∷ q ∷ r ∷ s ∷ 9 ∷ (w.write_u16 n ++ rest)
      → Yields {V = V} (decode_port src 7) (port n) rest
  unfolding decode_port
  port_arm src p q r s n rest hn e =
      let e' = rw (w.write_u16_lem n hn) at e in
      let (f, g) =
        split_front src (p ∷ q ∷ r ∷ s ∷ 9 ∷ n / 2 ^ 8 ∷ n % 2 ^ 8 ∷ []) rest 7 refl e' in
      let read : w.read_u16 (n / 2 ^ 8 ∷ n % 2 ^ 8 ∷ []) ≡ n = rw w.read_u16_lem (omega arith) in
      ((b.split_to src 7).1, ground arith, g)

  pub plain_arm :
      (src : B) (p q r s k : ℕ) (rest : List ℕ) (m : PeerMessage V)
      → ((k ≡ 0) × (m ≡ choke))
        ⊎ ((k ≡ 1) × (m ≡ un_choke))
        ⊎ ((k ≡ 2) × (m ≡ interested))
        ⊎ ((k ≡ 3) × (m ≡ not_interested))
      → b.bytes src ≡ p ∷ q ∷ r ∷ s ∷ k ∷ rest
      → Yields {V = V} (decode_plain src) m rest
  unfolding decode_plain
  plain_arm src p q r s k rest m h e =
      let g : b.bytes (b.advance src 5) ≡ rest =
        b.bytes-advance src 5 (rw e (omega arith)) ∙ ap (drop 5) e in
      (b.advance src 5, rw e (ground arith), g)

  pub bitfield_arm :
      (src : B) (p q r s : ℕ) (f : V) (rest : List ℕ)
      → v.len f ≢ 0
      → b.bytes src ≡ p ∷ q ∷ r ∷ s ∷ 5 ∷ (v.to_bytes f ++ rest)
      → Yields {V = V} (decode_bitfield src (1 + v.len f)) (bitfield (record { inner = f })) rest
  unfolding decode_bitfield
  bitfield_arm src p q r s f rest h e =
      let size : (if ltb 0 (v.len f % 8) then v.len f / 8 + 1 else v.len f / 8)
          ≡ length (v.to_bytes f) =
        rw (v.len_lem f) (sym (ap length (v.to_bytes_lem f) ∙ length-bytes_of (v.iter f))) in
      let bits : 1 + v.len f - 1 ≡ v.len f = omega arith in
      let n = length (v.to_bytes f) + 5 in
      let (g, k) = split_front src (p ∷ q ∷ r ∷ s ∷ 5 ∷ v.to_bytes f) rest n (omega arith) e in
      (
        (b.split_to src n).1,
        rw (bits, size, g, e)
            (ground (arith, bits_back f (v.len f) refl, length-append (v.to_bytes f) rest)),
        k,
      )

  pub handshake_arm :
      (src : B) (reserved info peer rest : List ℕ)
      → length reserved ≡ 8
      → length info ≡ 20
      → length peer ≡ 20
      → b.bytes src ≡ 0x13 ∷ (bittorrent_identifier ++ ((reserved ++ (info ++ peer)) ++ rest))
      → Yields {V = V}
          (decode_handshake src)
          (handshake (record {
            reserved = reserved;
            info_hash = record { hash = info };
            peer_id = record { hash = peer };
          }))
          rest
  unfolding decode_handshake
  handshake_arm src reserved info peer rest hr hi hp e =
      let front : List ℕ = 0x13 ∷ (bittorrent_identifier ++ (reserved ++ (info ++ peer))) in
      let body = reserved ++ (info ++ peer) in
      let size : length body ≡ 48 =
        omega (arith, length-append reserved (info ++ peer), length-append info peer) in
      let (f, g) = split_front src front rest 68 (omega arith) e in
      let m : b.bytes (b.advance (b.split_to src 68).0 20) ≡ body =
        b.bytes-advance (b.split_to src 68).0 20 (rw f (omega arith)) ∙ ap (drop 20) f in
      let (one, two, three) = handshake_fields reserved info peer hr hi hp in
      (
        (b.split_to src 68).1,
        rw (e, m)
            (ground (
              arith,
              size,
              one,
              two,
              three,
              take_all 20 info (omega arith),
              take_all 20 peer (omega arith),
            )),
        g,
      )
