-- ===== src/Tracker/Tests.antt =====
-- A request and the objects of a bencoder, and the theorems at them.
use libp2p_bittorrent_protoc.Base.{
  ℕ, ◌≡◌, ◌↔◌, refl, List, [], ◌∷◌, some, Result, ok, err, map, replicate,
}
use libp2p_bittorrent_protoc.Crates.Bendy.{Bendy, codes}
use libp2p_bittorrent_protoc.Hash.{ShaHash, try_from}
use libp2p_bittorrent_protoc.Tracker.{
  TrackerRequest, TrackerRequestBuilder, started, new, default_builder, build_request,
  with_info_hash, with_bittorrent_peer_id, with_libp2p_peer_id, with_uploaded, with_downloaded,
  with_left, with_event, decode_request,
}
use libp2p_bittorrent_protoc.Tracker.Laws.{build_request_iff}
use Prim.Native.String.{String}

-- the values that an encoder is given
data Emitted (P : Type 0) : Type 0 where
  bytes : List ℕ → Emitted P
  peer_bytes : P → Emitted P
  number : ℕ → Emitted P
  text : String → Emitted P

data Object : Type 0 where
  value : Emitted ℕ → Object
  dictionary : List (List ℕ × Emitted ℕ) → Object

abbrev pairs_of : Object → Result (List (Result (List ℕ × Object) String)) String
pairs_of (value x) = err "not a dictionary"
pairs_of (dictionary pairs) = ok (map (λ q. ok (q.0, value q.1)) pairs)

abbrev bytes_of : Emitted ℕ → Result (List ℕ) String
bytes_of (bytes bs) = ok bs
bytes_of (peer_bytes p) = err "not bytes"
bytes_of (number n) = err "not bytes"
bytes_of (text s) = err "not bytes"

abbrev text_of : Emitted ℕ → Result String String
text_of (bytes bs) = err "not a text"
text_of (peer_bytes p) = ok "a peer"
text_of (number n) = err "not a text"
text_of (text s) = ok s

abbrev number_of : Emitted ℕ → Result ℕ String
number_of (bytes bs) = err "not a number"
number_of (peer_bytes p) = err "not a number"
number_of (number n) = ok n
number_of (text s) = err "not a number"

abbrev on_value : {A : Type 0} → (Emitted ℕ → Result A String) → Object → Result A String
on_value f (value x) = f x
on_value f (dictionary pairs) = err "a dictionary"

abbrev bencoder : Bendy Object String
bencoder = record {
  try_into_dictionary = pairs_of;
  try_into_bytes = on_value bytes_of;
  decode_string = on_value text_of;
  decode_usize = on_value number_of;
  context = λ name e. e;
  unexpected_field = λ name. name;
  missing_field = λ name. name;
}

abbrev a_peer : String → Result ℕ String
a_peer name = ok 7

abbrev a_name : List ℕ → Result String String
a_name key = ok "unknown"

abbrev hash_of : ℕ → ShaHash
hash_of n = record { hash = replicate 20 n }

abbrev request : TrackerRequest ℕ
unfolding new
request = record (new (hash_of 1) (hash_of 2) 7 40) { downloaded = 5 }

-- all that a client sets, in order
abbrev builder : TrackerRequestBuilder ℕ
unfolding default_builder with_info_hash with_bittorrent_peer_id with_libp2p_peer_id with_uploaded
    with_downloaded with_event
builder = with_event started (
    with_downloaded 5 (
      with_uploaded 0 (
        with_libp2p_peer_id 7
          (with_bittorrent_peer_id (hash_of 2) (with_info_hash (hash_of 1) default_builder)))))

abbrev built : TrackerRequest ℕ
built = record request { left = 5; event = some started }

build_request-builder : build_request (with_left 40 builder) ≡ ok built
unfolding build_request with_left builder request
build_request-builder = refl

build_request_iff_example : (build_request (with_left 40 builder) ≡ ok built) ↔ (
    (builder.info_hash ≡ some built.info_hash)
    × (builder.bittorrent_peer_id ≡ some built.bittorrent_peer_id)
    × (builder.libp2p_peer_id ≡ some built.libp2p_peer_id)
    × (builder.uploaded ≡ some built.uploaded)
    × (builder.downloaded ≡ some built.downloaded)
    × (built.left ≡ built.downloaded)
    × (builder.event ≡ built.event))
build_request_iff_example = build_request_iff builder 40 built

-- the same pairs under the names that the decoder knows
abbrev renamed : Object
renamed = dictionary (
    (codes "info_hash", bytes (replicate 20 1))
    ∷ (codes "bittorrent_peer_id", bytes (replicate 20 2))
    ∷ (codes "libp2p_peer_ip", peer_bytes 7)
    ∷ (codes "uploaded", number 0)
    ∷ (codes "downloaded", number 5)
    ∷ (codes "left", number 40)
    ∷ [])

decode_request-renamed :
    decode_request bencoder a_peer a_name renamed ≡ ok (record request { left = 5 })
unfolding decode_request try_from build_request request
decode_request-renamed = refl

abbrev decoded : TrackerRequest ℕ
decoded = record request { left = 5 }
