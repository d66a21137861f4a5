-- ===== src/Tracker.antt =====
-- `src/tracker.rs`: the request of a peer to a tracker, its builder and its bencode.
pub mod Laws
mod Tests
use libp2p_bittorrent_protoc.Base.{
  ℕ, Bool, List, [], ◌∷◌, Option, none, some, Result, ok, err, ok_or, and_then, map_err, eq_bytes,
  if◌then◌else◌,
}
use libp2p_bittorrent_protoc.Crates.Bendy.{Bendy, Encoder, codes}
use libp2p_bittorrent_protoc.Hash.{ShaHash, try_from}
use Prim.Native.String.{String}

pub data PeerEvent : Type 0 where
  started completed stopped : PeerEvent

unfoldable pub as_str : PeerEvent → String
as_str started = "started"
as_str completed = "completed"
as_str stopped = "stopped"

-- `P` are the identifiers of `libp2p`.
pub record TrackerRequest (P : Type 0) : Type 0 where
  pub info_hash : ShaHash
  pub bittorrent_peer_id : ShaHash
  pub libp2p_peer_id : P
  pub uploaded : ℕ
  pub downloaded : ℕ
  pub left : ℕ
  pub event : Option PeerEvent

pub record PeerResponse (P : Type 0) : Type 0 where
  pub identifier : ShaHash
  pub peer_id : P

pub data TrackerResponse (P : Type 0) : Type 0 where
  success : ℕ → List (PeerResponse P) → TrackerResponse P
  failure : String → TrackerResponse P

pub record TrackerRequestBuilder (P : Type 0) : Type 0 where
  pub info_hash : Option ShaHash
  pub bittorrent_peer_id : Option ShaHash
  pub libp2p_peer_id : Option P
  pub uploaded : Option ℕ
  pub downloaded : Option ℕ
  pub left : Option ℕ
  pub event : Option PeerEvent

module _ {P : Type 0} where
  unfoldable pub new : ShaHash → ShaHash → P → ℕ → TrackerRequest P
  new info_hash bittorrent_peer_id libp2p_peer_id left = record {
    info_hash = info_hash;
    bittorrent_peer_id = bittorrent_peer_id;
    libp2p_peer_id = libp2p_peer_id;
    uploaded = 0;
    downloaded = 0;
    left = left;
    event = none;
  }

  unfoldable pub default_builder : TrackerRequestBuilder P
  default_builder = record {
    info_hash = none;
    bittorrent_peer_id = none;
    libp2p_peer_id = none;
    uploaded = none;
    downloaded = none;
    left = none;
    event = none;
  }

  unfoldable pub with_info_hash : ShaHash → TrackerRequestBuilder P → TrackerRequestBuilder P
  with_info_hash info_hash b = record b { info_hash = some info_hash }

  unfoldable pub with_bittorrent_peer_id :
      ShaHash → TrackerRequestBuilder P → TrackerRequestBuilder P
  with_bittorrent_peer_id bittorrent_peer_id b = record b {
    bittorrent_peer_id = some bittorrent_peer_id;
  }

  unfoldable pub with_libp2p_peer_id : P → TrackerRequestBuilder P → TrackerRequestBuilder P
  with_libp2p_peer_id libp2p_peer_id b = record b { libp2p_peer_id = some libp2p_peer_id }

  unfoldable pub with_uploaded : ℕ → TrackerRequestBuilder P → TrackerRequestBuilder P
  with_uploaded uploaded b = record b { uploaded = some uploaded }

  unfoldable pub with_downloaded : ℕ → TrackerRequestBuilder P → TrackerRequestBuilder P
  with_downloaded downloaded b = record b { downloaded = some downloaded }

  unfoldable pub with_left : ℕ → TrackerRequestBuilder P → TrackerRequestBuilder P
  with_left left b = record b { left = some left }

  unfoldable pub with_event : PeerEvent → TrackerRequestBuilder P → TrackerRequestBuilder P
  with_event event b = record b { event = some event }

  -- `left` is taken from `downloaded`, as in the source.
  unfoldable pub build_request : TrackerRequestBuilder P → Result (TrackerRequest P) String
  build_request b = and_then (ok_or b.info_hash "info_hash must be initialized.") (λ info_hash.
      and_then (ok_or b.bittorrent_peer_id "bittorrent_peer_id must be initialized.") (λ id.
        and_then (ok_or b.libp2p_peer_id "libp2p_peer_id must be initialized.") (λ peer.
          and_then (ok_or b.uploaded "uploaded must be initialized.") (λ uploaded.
            and_then (ok_or b.downloaded "downloaded must be initialized.") (λ downloaded.
              and_then (ok_or b.downloaded "left must be initialized.") (λ left. ok (record {
                info_hash = info_hash;
                bittorrent_peer_id = id;
                libp2p_peer_id = peer;
                uploaded = uploaded;
                downloaded = downloaded;
                left = left;
                event = b.event;
              })))))))

-- `peer_bytes` are the bytes of an identifier of `libp2p`.
module _ {P V B E : Type 0} (encoder : Encoder V B E) (peer_bytes : P → List ℕ) where
  -- the calls of `emit_pair`, in order
  unfoldable pub request_pairs : TrackerRequest P → List (List ℕ × V)
  unfolding as_str
  request_pairs r =
      (codes "info_hash", encoder.emit_bytes r.info_hash.hash)
      ∷ (codes "peer_id", encoder.emit_bytes r.bittorrent_peer_id.hash)
      ∷ (codes "libp2p_peer_ip", encoder.emit_bytes (peer_bytes r.libp2p_peer_id))
      ∷ (codes "uploaded", encoder.emit_int r.uploaded)
      ∷ (codes "downloaded", encoder.emit_int r.downloaded)
      ∷ (codes "left", encoder.emit_int r.downloaded)
      ∷ (codes "event", encoder.emit_str (elim r.event [ some x ↦ as_str x | none ↦ "empty" ]))
      ∷ []

  -- The results of `emit_pair` are not used, but the encoder keeps an error for the end of the dictionary.
  unfoldable pub encode_request : TrackerRequest P → Result V E
  unfolding request_pairs
  encode_request r = encoder.emit_dict (request_pairs r)

-- `parse` reads the identifier of a peer from a text, and `from_utf8` a text from bytes; the errors of
-- both are given as texts.
module _ {P O E : Type 0} (bendy : Bendy O E) (parse : String → Result P String)
    (from_utf8 : List ℕ → Result String String) where
  unfoldable pub decode_hash : O → Result ShaHash E
  unfolding try_from
  decode_hash value =
      and_then (bendy.try_into_bytes value)
        (λ slice. map_err (λ e. bendy.unexpected_field "malformed info_hash") (try_from slice))

  unfoldable pub decode_peer : O → Result P E
  decode_peer value =
      and_then (map_err (bendy.context "libp2p_peer_ip") (bendy.decode_string value))
        (λ name. map_err bendy.missing_field (parse name))

  unfoldable pub unknown_field : List ℕ → E
  unknown_field key = elim (from_utf8 key) [
    | ok s ↦ bendy.unexpected_field s
    | err e ↦ bendy.unexpected_field e
  ]

  unfoldable pub decode_field :
      List ℕ → O → TrackerRequestBuilder P → Result (TrackerRequestBuilder P) E
  unfolding decode_hash decode_peer unknown_field with_info_hash with_bittorrent_peer_id
      with_libp2p_peer_id with_uploaded with_downloaded with_left
  decode_field key value b =
      if eq_bytes key (codes "info_hash")
      then and_then (decode_hash value) (λ x. ok (with_info_hash x b))
      else if eq_bytes key (codes "bittorrent_peer_id")
      then and_then (decode_hash value) (λ x. ok (with_bittorrent_peer_id x b))
      else if eq_bytes key (codes "libp2p_peer_ip")
      then and_then (decode_peer value) (λ x. ok (with_libp2p_peer_id x b))
      else if eq_bytes key (codes "uploaded")
      then and_then (map_err (bendy.context "uploaded") (bendy.decode_usize value))
          (λ x. ok (with_uploaded x b))
      else if eq_bytes key (codes "downloaded")
      then and_then (map_err (bendy.context "downloaded") (bendy.decode_usize value))
          (λ x. ok (with_downloaded x b))
      else if eq_bytes key (codes "left")
      then and_then (map_err (bendy.context "left") (bendy.decode_usize value))
          (λ x. ok (with_left x b))
      else err (unknown_field key)

  unfoldable pub decode_fields :
      List (Result (List ℕ × O) E) → TrackerRequestBuilder P → Result (TrackerRequestBuilder P) E
  unfolding decode_field
  decode_fields [] b = ok b
  decode_fields (err e ∷ pairs) b = err e
  decode_fields (ok (key, value) ∷ pairs) b =
      and_then (decode_field key value b) (λ b'. decode_fields pairs b')

  unfoldable pub decode_request : O → Result (TrackerRequest P) E
  unfolding decode_fields default_builder build_request
  decode_request object = and_then (bendy.try_into_dictionary object) (λ pairs.
      and_then (decode_fields pairs default_builder)
        (λ b. map_err bendy.missing_field (build_request b)))
