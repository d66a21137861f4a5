-- ===== src/Wire/Codec/RoundTrip.antt =====
-- `decode` after `as_bytes`, for every message that the two agree on.
use mathlib.Core.List.{append_assoc}
use libp2p_bittorrent_protoc.Base.{
  ℕ, ◌+◌, ◌%◌, ◌^◌, ◌<◌, ◌≡◌, ◌≢◌, refl, ap, ◌∙◌, ◌⊎◌, inl, inr, List, [], ◌∷◌, ◌++◌, Result, ok,
  arith, drop, length, length-append,
}
use libp2p_bittorrent_protoc.Crates.BitVec.{BitVec}
use libp2p_bittorrent_protoc.Crates.Bytes.{BytesMut}
use libp2p_bittorrent_protoc.Crates.ByteOrder.{ByteOrder}
use libp2p_bittorrent_protoc.Wire.Message.{
  PeerMessage, PeerRequest, IoError, Piece, Handshake, BitField, keep_alive, bitfield, handshake,
  bittorrent_identifier, choke, un_choke, interested, not_interested, have, piece, port, request,
  cancel, request_bytes, as_bytes,
}
use libp2p_bittorrent_protoc.Wire.Codec.{decode, decode_length, decode_payload}
use libp2p_bittorrent_protoc.Wire.Codec.Frames.{handshake_word, be, decode_frame}
use libp2p_bittorrent_protoc.Wire.Codec.Arms.{
  Yields, have_arm, plain_arm, request_arm, piece_arm, port_arm, bitfield_arm, handshake_arm,
}

module _ {V : Type 0} ⦃v : BitVec V⦄ where
  -- The fields have their machine widths; a bit field is not of 0 or 4 bits, and no length prefix
  -- begins with the byte of a handshake.
  abbrev pub IsMessage : PeerMessage V → Type 0
  IsMessage (have i) = i < 2 ^ 32
  IsMessage (bitfield f) =
      (v.len f.inner ≢ 0) × (v.len f.inner ≢ 4) × (1 + v.len f.inner < handshake_word)
  IsMessage (request r) = (r.index < 2 ^ 32) × (r.begin < 2 ^ 32) × (r.length < 2 ^ 32)
  IsMessage (cancel r) = (r.index < 2 ^ 32) × (r.begin < 2 ^ 32) × (r.length < 2 ^ 32)
  IsMessage (piece p) =
      (p.index < 2 ^ 32) × (p.begin < 2 ^ 32) × (9 + length p.block < handshake_word)
  IsMessage (handshake h) =
      (length h.reserved ≡ 8) × (length h.info_hash.hash ≡ 20) × (length h.peer_id.hash ≡ 20)
  IsMessage (port p) = p < 2 ^ 16
  IsMessage _ = Unit {0}

words :
    ⦃w : ByteOrder⦄ (r : PeerRequest)
    → (r.index < 2 ^ 32) × (r.begin < 2 ^ 32) × (r.length < 2 ^ 32)
    → request_bytes r ≡ be r.index ++ (be r.begin ++ be r.length)
words ⦃w⦄ r (hi, hb, hl) = rw (w.write_u32_lem _ hi, w.write_u32_lem _ hb, w.write_u32_lem _ hl)

pub written :
    {octets found src : List ℕ} (rest : List ℕ)
    → ◌≡◌ {A = Result (List ℕ) IoError} (ok found) (ok octets)
    → src ≡ octets ++ rest
    → src ≡ found ++ rest
written rest o e = e ∙ ap (λ t. t ++ rest) (cc)

module _ {V B : Type 0} ⦃v : BitVec V⦄ ⦃b : BytesMut B⦄ ⦃w : ByteOrder⦄ where
  -- From the bytes of the frame to the arm of its length.
  framed :
      (src : B) (n : ℕ) (body rest : List ℕ) (m : PeerMessage V)
      → n < handshake_word
      → b.bytes src ≡ (w.write_u32 n ++ body) ++ rest
      → (b.bytes src ≡ be n ++ (body ++ rest) → Yields (decode_length src n) m rest)
      → Yields (decode src) m rest
  framed src n body rest m h e k =
      let e' = e ∙ append_assoc (w.write_u32 n) body rest in
      rw (decode_frame src n (body ++ rest) h e')
        (k (e' ∙ ap (λ t. t ++ (body ++ rest)) (w.write_u32_lem n (omega arith))))

  plain_lem :
      (src : B) (k : ℕ) (rest : List ℕ) (m : PeerMessage V)
      → ((k ≡ 0) × (m ≡ choke))
        ⊎ ((k ≡ 1) × (m ≡ un_choke))
        ⊎ ((k ≡ 2) × (m ≡ interested))
        ⊎ ((k ≡ 3) × (m ≡ not_interested))
      → b.bytes src ≡ (w.write_u32 1 ++ k ∷ []) ++ rest
      → Yields (decode src) m rest
  unfolding decode_length
  plain_lem src k rest m h e =
      framed src 1 (k ∷ []) rest m (omega arith) e (λ g. plain_arm src _ _ _ _ k rest m h g)

  have_lem :
      (src : B) (i : ℕ) (rest : List ℕ)
      → i < 2 ^ 32
      → b.bytes src ≡ be 5 ++ ((4 ∷ w.write_u32 i) ++ rest)
      → Yields {V = V} (decode_length src 5) (have i) rest
  unfolding decode_length
  have_lem src i rest h k = have_arm src _ _ _ _ i rest h (rw (w.write_u32_lem i h) at k)

  bitfield_lem :
      (f : BitField V) (src : B) (rest : List ℕ)
      → IsMessage (bitfield f)
      → b.bytes src ≡ (w.write_u32 (1 + v.len f.inner) ++ 5 ∷ v.to_bytes f.inner) ++ rest
      → Yields (decode src) (bitfield f) rest
  unfolding decode_length decode_payload
  bitfield_lem f src rest (h0, h4, h) e =
      framed src (1 + v.len f.inner) (5 ∷ v.to_bytes f.inner) rest (bitfield f) h e (λ g.
        let (src', d, r) = bitfield_arm src _ _ _ _ f.inner rest h0 g in
        (src', rw g (ground arith), r))

  request_lem :
      (r : PeerRequest) (src : B) (rest : List ℕ)
      → (r.index < 2 ^ 32) × (r.begin < 2 ^ 32) × (r.length < 2 ^ 32)
      → b.bytes src ≡ (w.write_u32 13 ++ 6 ∷ request_bytes r) ++ rest
      → Yields {V = V} (decode src) (request r) rest
  unfolding decode_length decode_payload
  request_lem r src rest h e =
      framed src 13 (6 ∷ request_bytes r) rest (request r) (omega arith) e (λ g.
        let g' = rw (words r h) at g in
        let (src', d, l) =
          request_arm {V = V} request src _ _ _ _ 6 r.index r.begin r.length rest h.0 h.1 h.2 g' in
        (src', rw g' (ground arith), l))

  cancel_lem :
      (r : PeerRequest) (src : B) (rest : List ℕ)
      → (r.index < 2 ^ 32) × (r.begin < 2 ^ 32) × (r.length < 2 ^ 32)
      → b.bytes src ≡ (w.write_u32 13 ++ 8 ∷ request_bytes r) ++ rest
      → Yields {V = V} (decode src) (cancel r) rest
  unfolding decode_length decode_payload
  cancel_lem r src rest h e =
      framed src 13 (8 ∷ request_bytes r) rest (cancel r) (omega arith) e (λ g.
        let g' = rw (words r h) at g in
        let (src', d, l) =
          request_arm {V = V} cancel src _ _ _ _ 8 r.index r.begin r.length rest h.0 h.1 h.2 g' in
        (src', rw g' (ground arith), l))

  piece_lem :
      (p : Piece) (src : B) (rest : List ℕ)
      → IsMessage {V = V} (piece p)
      → b.bytes src
        ≡ (w.write_u32 (9 + length p.block)
            ++ 7 ∷ (w.write_u32 p.index ++ (w.write_u32 p.begin ++ p.block)))
          ++ rest
      → Yields {V = V} (decode src) (piece p) rest
  unfolding decode_length decode_payload
  piece_lem p src rest (hi, hb, h) e = framed src (9 + length p.block) _ rest (piece p) h e (λ g.
      let g' = rw (w.write_u32_lem p.index hi, w.write_u32_lem p.begin hb) at g in
      let (src', d, r) = piece_arm {V = V} src _ _ _ _ 7 p.index p.begin p.block rest hi hb g' in
      (src', rw g' (ground (arith, length-append p.block rest)), r))

  port_lem :
      (n : ℕ) (src : B) (rest : List ℕ)
      → n < 2 ^ 16
      → b.bytes src ≡ (w.write_u32 3 ++ 9 ∷ w.write_u16 n) ++ rest
      → Yields {V = V} (decode src) (port n) rest
  unfolding decode_length decode_payload
  port_lem n src rest h e = framed src 3 (9 ∷ w.write_u16 n) rest (port n) (omega arith) e (λ g.
      let g' = rw (w.write_u16_lem n h) at g in
      let (src', d, r) = port_arm {V = V} src _ _ _ _ n rest h g in (src', rw g' (ground arith), r))

  handshake_lem :
      (h : Handshake) (src : B) (rest : List ℕ)
      → IsMessage {V = V} (handshake h)
      → b.bytes src
        ≡ (0x13 ∷ (bittorrent_identifier ++ (h.reserved ++ (h.info_hash.hash ++ h.peer_id.hash))))
          ++ rest
      → Yields {V = V} (decode src) (handshake h) rest
  unfolding decode
  handshake_lem h src rest (hr, hi, hp) e =
      let (src', d, r) =
        handshake_arm {V = V} src h.reserved h.info_hash.hash h.peer_id.hash rest hr hi hp e in
      (src', rw e (ground arith), r)

  keep_alive_lem :
      (src : B) (rest : List ℕ)
      → b.bytes src ≡ w.write_u32 0 ++ rest
      → Yields {V = V} (decode src) keep_alive rest
  unfolding decode_length
  keep_alive_lem src rest e =
      let e' : b.bytes src ≡ be 0 ++ rest =
        e ∙ ap (λ t. t ++ rest) (w.write_u32_lem 0 (omega arith)) in
      rw (decode_frame src 0 rest (omega arith) e)
        (b.advance src 4, refl, b.bytes-advance src 4 (rw e' (omega arith)) ∙ ap (drop 4) e')

  -- Where the bytes of a message stand at the front of the buffer, `decode` returns the message
  -- and leaves what follows its bytes; for a message whose numbers and hashes have the widths of
  -- their fields, whose bit field has neither 0 nor 4 bits, and whose bit field or block is short
  -- enough that its length prefix does not reach the first byte of a handshake.
  pub decode-as_bytes :
      (m : PeerMessage V) (src : B) (octets rest : List ℕ)
      → IsMessage m
      → as_bytes m ≡ ok octets
      → b.bytes src ≡ octets ++ rest
      → Yields (decode src) m rest
  unfolding as_bytes
  decode-as_bytes keep_alive src octets rest h o e = keep_alive_lem src rest (written rest o e)
  decode-as_bytes choke src octets rest h o e =
      plain_lem src 0 rest choke (inl (refl, refl)) (written rest o e)
  decode-as_bytes un_choke src octets rest h o e =
      plain_lem src 1 rest un_choke (inr (inl (refl, refl))) (written rest o e)
  decode-as_bytes interested src octets rest h o e =
      plain_lem src 2 rest interested (inr (inr (inl (refl, refl)))) (written rest o e)
  decode-as_bytes not_interested src octets rest h o e =
      plain_lem src 3 rest not_interested (inr (inr (inr (refl, refl)))) (written rest o e)
  decode-as_bytes (have i) src octets rest h o e =
      framed src 5 (4 ∷ w.write_u32 i) rest (have i) (omega arith) (written rest o e)
        (λ k. have_lem src i rest h k)
  decode-as_bytes (bitfield f) src octets rest h o e =
      let n : (1 + v.len f.inner % 2 ^ 32) % 2 ^ 32 ≡ 1 + v.len f.inner = omega arith in
      bitfield_lem f src rest h (rw n at (written rest o e))
  decode-as_bytes (request r) src octets rest h o e = request_lem r src rest h (written rest o e)
  decode-as_bytes (cancel r) src octets rest h o e = cancel_lem r src rest h (written rest o e)
  decode-as_bytes (piece p) src octets rest h o e =
      let n : (9 + length p.block % 2 ^ 32) % 2 ^ 32 ≡ 9 + length p.block = omega arith in
      piece_lem p src rest h (rw n at (written rest o e))
  decode-as_bytes (handshake g) src octets rest h o e =
      handshake_lem g src rest h (written rest o e)
  decode-as_bytes (port n) src octets rest h o e = port_lem n src rest h (written rest o e)
