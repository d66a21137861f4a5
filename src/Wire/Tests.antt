-- ===== src/Wire/Tests.antt =====
-- Concrete runs of the codec, and its theorems at concrete buffers.
use libp2p_bittorrent_protoc.Base.{
  ℕ, ◌<◌, ◌≡◌, refl, Bool, true, false, List, [], ◌∷◌, ◌++◌, map, none, some, ok, err, done, arith,
  take, replicate,
}
use libp2p_bittorrent_protoc.Crates.Instances.{list_bit_vec, list_bytes_mut, big_endian}
use libp2p_bittorrent_protoc.Hash.{ShaHash}
use libp2p_bittorrent_protoc.Wire.Message.{
  PeerMessage, BitField, choke, have, bitfield, handshake, port, unexpected_message, as_bytes,
  new_handshake,
}
use libp2p_bittorrent_protoc.Wire.Codec.{
  decode, encode, decode_length, decode_have, decode_plain, decode_handshake,
}
use libp2p_bittorrent_protoc.Crates.BitVec.{bytes_of}
use libp2p_bittorrent_protoc.Wire.Codec.Arms.{Yields}
use libp2p_bittorrent_protoc.Wire.Codec.RoundTrip.{decode-as_bytes}
use libp2p_bittorrent_protoc.Wire.Codec.Streams.{encode_each, decode_each, decode_each-encode_each}
use libp2p_bittorrent_protoc.Wire.Codec.Progress.{decode_progress}

-- a concrete buffer
abbrev buf : List ℕ → List ℕ
buf s = s

abbrev Message : Type 0
Message = PeerMessage (List Bool)

abbrev nine_bits : Message
nine_bits =
    bitfield
      (record { inner = true ∷ false ∷ true ∷ false ∷ false ∷ false ∷ false ∷ false ∷ true ∷ [] })

abbrev four_bits : BitField (List Bool)
four_bits = record { inner = true ∷ false ∷ true ∷ true ∷ [] }

abbrev have_100 : List ℕ
have_100 = 0 ∷ 0 ∷ 0 ∷ 5 ∷ 4 ∷ 0 ∷ 0 ∷ 0 ∷ 100 ∷ []

abbrev hash_of : ℕ → ShaHash
hash_of n = record { hash = replicate 20 n }

hello : Message
unfolding new_handshake
hello = handshake (new_handshake (hash_of 7) (hash_of 8))

nine_bits_bytes : as_bytes nine_bits ≡ ok (0 ∷ 0 ∷ 0 ∷ 10 ∷ 5 ∷ 160 ∷ 128 ∷ [])
unfolding as_bytes bytes_of
nine_bits_bytes = refl

decode-have_100 : decode {V = List Bool} (have_100 ++ 9 ∷ []) ≡ done (ok (some (have 100)), 9 ∷ [])
unfolding decode decode_length decode_have decode_plain
decode-have_100 = refl

decode_nothing_yet : decode {V = List Bool} (take 8 have_100) ≡ done (ok none, take 8 have_100)
unfolding decode decode_length decode_have decode_plain
decode_nothing_yet = refl

decode_unknown :
    decode {V = List Bool} (buf (0 ∷ 0 ∷ 0 ∷ 1 ∷ 9 ∷ []))
    ≡ done (err (unexpected_message 1 9), 0 ∷ 0 ∷ 0 ∷ 1 ∷ 9 ∷ [])
unfolding decode decode_length decode_have decode_plain
decode_unknown = refl

decode-as_bytes_example :
    Yields (decode (buf (0 ∷ 0 ∷ 0 ∷ 10 ∷ 5 ∷ 160 ∷ 128 ∷ 1 ∷ []))) nine_bits (1 ∷ [])
decode-as_bytes_example =
    decode-as_bytes nine_bits (0 ∷ 0 ∷ 0 ∷ 10 ∷ 5 ∷ 160 ∷ 128 ∷ 1 ∷ [])
      (0 ∷ 0 ∷ 0 ∷ 10 ∷ 5 ∷ 160 ∷ 128 ∷ []) (1 ∷ []) (omega arith) nine_bits_bytes refl

abbrev three : List Message
three = have 100 ∷ choke ∷ port 8080 ∷ []

decode_each-encode_each_example :
    (src' : List ℕ) × (decode_each 3 (encode_each three (buf [])) ≡ done (map some three, src'))
    × (src' ≡ [])
decode_each-encode_each_example = decode_each-encode_each three (buf []) (omega arith) refl

four_bits_bytes : as_bytes (bitfield four_bits) ≡ ok (0 ∷ 0 ∷ 0 ∷ 5 ∷ 5 ∷ 176 ∷ [])
unfolding as_bytes bytes_of
four_bits_bytes = refl

decode_progress_example : 1 < 10
decode_progress_example =
    decode_progress {V = List Bool} (have 100) (have_100 ++ 9 ∷ []) (9 ∷ []) decode-have_100

hello_is_read_back : decode {V = List Bool} (encode hello (buf [])).1 ≡ done (ok (some hello), [])
unfolding decode decode_handshake encode hello
hello_is_read_back = refl
