-- ===== src/Meta/Tests/Bencode.antt =====
-- The theorems on bencoded torrent files at concrete ones.
use libp2p_bittorrent_protoc.Base.{
  ℕ, ◌≡◌, ◌≢◌, ◌↔◌, refl, List, [], ◌∷◌, none, some, Result, ok, err, arith,
}
use libp2p_bittorrent_protoc.Crates.Bendy.Values.{
  Value, int, value_encoder, value_reader, values_read_back,
}
use libp2p_bittorrent_protoc.Hash.{ShaHash}
use libp2p_bittorrent_protoc.Disk.Files.{single}
use libp2p_bittorrent_protoc.Peer.Tests.{hash_of}
use libp2p_bittorrent_protoc.Meta.{MetaInfo, TorrentInfo}
use libp2p_bittorrent_protoc.Meta.Encode.{encode_info, encode_meta, meta_to_bencode, sha1_hash}
use libp2p_bittorrent_protoc.Meta.Decode.{decode_info}
use libp2p_bittorrent_protoc.Meta.Decode.Whole.{decode_meta}
use libp2p_bittorrent_protoc.Meta.Order.{encode_meta_iff}
use libp2p_bittorrent_protoc.Meta.Depth.{meta_to_bencode-multi}
use libp2p_bittorrent_protoc.Meta.RoundTrip.{IsInfo, decode_info-encode_info}
use libp2p_bittorrent_protoc.Meta.RoundTrip.Whole.{decode_meta-encode_meta}
use libp2p_bittorrent_protoc.Meta.Tests.{bare, two_files, sized}
use Prim.Native.String.{String}

abbrev one_file : TorrentInfo
one_file = record {
  name = "debian.iso";
  pieces = hash_of 1 ∷ hash_of 2 ∷ [];
  piece_length = 16384;
  content = single 20000;
}

one_file-IsInfo : IsInfo one_file
one_file-IsInfo = record {
  pieces = (refl, (refl, tt));
  piece_length = omega arith;
  content = omega arith;
}

two_files-IsInfo : IsInfo two_files.info
two_files-IsInfo = record {
  pieces = (refl, (refl, (refl, tt)));
  piece_length = omega arith;
  content = (omega arith, (omega arith, tt));
}

-- a torrent file with trackers, whose info is set
abbrev debian : MetaInfo
debian = record (bare one_file (hash_of 9)) {
  announce = some "http://tracker";
  announce_list = "http://other" ∷ [];
  created_by = some "me";
  httpseeds = "http://seed" ∷ [];
}

abbrev no_text : List ℕ → String
no_text bs = "unknown"

abbrev digest : Value → ShaHash
digest v = hash_of 3

abbrev value_of : Result Value String → Value
value_of (ok v) = v
value_of (err e) = int 0

abbrev files_value : Value
unfolding encode_info
files_value = value_of (encode_info value_encoder two_files.info)

files_encoded : encode_info value_encoder two_files.info ≡ ok files_value
unfolding encode_info files_value
files_encoded = refl

decode_info-encode_info_example : decode_info value_reader no_text files_value ≡ ok two_files.info
decode_info-encode_info_example =
    decode_info-encode_info value_encoder value_reader (λ v. v) (λ v. v) values_read_back no_text
      two_files.info files_value files_encoded two_files-IsInfo

abbrev info_value : Value
unfolding encode_info
info_value = value_of (encode_info value_encoder one_file)

info_encoded : encode_info value_encoder one_file ≡ ok info_value
unfolding encode_info info_value
info_encoded = refl

abbrev meta_value : Value
unfolding encode_meta
meta_value = value_of (encode_meta value_encoder debian)

meta_encoded : encode_meta value_encoder debian ≡ ok meta_value
unfolding encode_meta meta_value
meta_encoded = refl

decode_meta-encode_meta_example :
    decode_meta value_reader no_text digest meta_value
    ≡ ok (record debian { announce_list = []; created_by = none; info_hash = hash_of 3 })
decode_meta-encode_meta_example =
    decode_meta-encode_meta value_encoder value_reader (λ v. v) (λ v. v) values_read_back no_text
      digest debian 20000 info_value meta_value refl info_encoded meta_encoded one_file-IsInfo

encode_meta_iff_example :
    ((v : Value) × (encode_meta value_encoder debian ≡ ok v))
    ↔ ((debian.nodes ≡ []) × (debian.webseeds ≡ []))
encode_meta_iff_example = encode_meta_iff value_encoder debian info_value info_encoded

meta_to_bencode-multi_example :
    (meta_to_bencode value_encoder two_files ≢ ok files_value)
    × (sha1_hash value_encoder digest two_files.info ≢ ok (hash_of 3))
meta_to_bencode-multi_example =
    meta_to_bencode-multi value_encoder two_files (sized 3) (sized 7 ∷ []) files_value digest
      (hash_of 3) refl
