-- ===== src/Tracker/Laws.antt =====
-- What the builder and the bencode of `src/tracker.rs` keep of a request.
use libp2p_bittorrent_protoc.Base.{
  ℕ, ◌≡◌, ◌≢◌, ◌↔◌, ◌∙◌, inl, inr, List, [], ◌∷◌, none, some, Result, ok, err, arith, Result-cases,
  IsIn,
}
use libp2p_bittorrent_protoc.Crates.Bendy.{Bendy, Encoder, codes}
use libp2p_bittorrent_protoc.Tracker.{
  TrackerRequest, TrackerRequestBuilder, default_builder, build_request, with_left, request_pairs,
  encode_request, decode_field, decode_fields, decode_request, decode_hash, decode_peer,
  with_info_hash, with_bittorrent_peer_id, with_libp2p_peer_id, with_uploaded, with_downloaded,
}
use mathlib.Core.Path.{subst}
use Prim.Native.String.{String}

module _ {P : Type 0} where
  -- A builder gives a request exactly if all its fields but `left` and the event are set, whatever
  -- `left` is: the request has these fields and the event, and its `left` is what was downloaded.
  pub build_request_iff :
      (b : TrackerRequestBuilder P) (n : ℕ) (r : TrackerRequest P)
      → (build_request (with_left n b) ≡ ok r) ↔ (
          (b.info_hash ≡ some r.info_hash)
          × (b.bittorrent_peer_id ≡ some r.bittorrent_peer_id)
          × (b.libp2p_peer_id ≡ some r.libp2p_peer_id)
          × (b.uploaded ≡ some r.uploaded)
          × (b.downloaded ≡ some r.downloaded)
          × (r.left ≡ r.downloaded)
          × (b.event ≡ r.event))
  unfolding build_request with_left
  build_request_iff b n r = ground arith

module _ {P O E : Type 0} (bendy : Bendy O E) (parse : String → Result P String)
    (from_utf8 : List ℕ → Result String String) where
  decode_field-peer_id :
      (v : O) (b b' : TrackerRequestBuilder P)
      → decode_field bendy parse from_utf8 (codes "peer_id") v b ≢ ok b'
  unfolding decode_field
  decode_field-peer_id v b b' h = absurd (ground arith)

  unknown_first :
      (v : O) (pairs : List (Result (List ℕ × O) E)) (b b' : TrackerRequestBuilder P)
      → decode_fields bendy parse from_utf8 (ok (codes "peer_id", v) ∷ pairs) b ≢ ok b'
  unfolding decode_fields
  unknown_first v pairs b b' h = absurd (ground arith)

  -- a field that the decoder does not know
  decode_fields-IsIn :
      (v : O) (pairs : List (Result (List ℕ × O) E)) (b b' : TrackerRequestBuilder P)
      → IsIn (ok (codes "peer_id", v)) pairs
      → decode_fields bendy parse from_utf8 pairs b ≢ ok b'
  unfolding decode_fields
  decode_fields-IsIn v [] b b' i h = absurd i
  decode_fields-IsIn v (err e ∷ pairs) b b' i h = absurd (ground arith)
  decode_fields-IsIn v (ok q ∷ pairs) b b' (inl same_pair) h =
      subst (λ x. decode_fields bendy parse from_utf8 (x ∷ pairs) b ≢ ok b') same_pair
        (unknown_first v pairs b b') h
  decode_fields-IsIn v (ok (key, value) ∷ pairs) b b' (inr later) h =
      elim (Result-cases (decode_field bendy parse from_utf8 key value b)) [
        | inl (e, k) ↦ absurd (ground arith)
        | inr (next, k) ↦ decode_fields-IsIn v pairs next b' later (ground arith)
      ]

  -- An object that has a pair of the name `peer_id`, under which a request is encoded, is not decoded.
  decode_request-peer_id :
      (r : TrackerRequest P) (v o : O) (pairs : List (Result (List ℕ × O) E))
      → bendy.try_into_dictionary o ≡ ok pairs
      → IsIn (ok (codes "peer_id", v)) pairs
      → decode_request bendy parse from_utf8 o ≢ ok r
  unfolding decode_request
  decode_request-peer_id r v o pairs given i h =
      elim (Result-cases (decode_fields bendy parse from_utf8 pairs default_builder)) [
        | inl (e, k) ↦ absurd (ground arith)
        | inr (b, k) ↦ decode_fields-IsIn v pairs default_builder b i k
      ]

  decode_field-event :
      (key : List ℕ) (v : O) (b b' : TrackerRequestBuilder P)
      → decode_field bendy parse from_utf8 key v b ≡ ok b'
      → b'.event ≡ b.event
  unfolding decode_field decode_hash decode_peer with_info_hash with_bittorrent_peer_id
      with_libp2p_peer_id with_uploaded with_downloaded with_left
  decode_field-event key v b b' h = ground arith

  decode_fields-event :
      (pairs : List (Result (List ℕ × O) E)) (b b' : TrackerRequestBuilder P)
      → decode_fields bendy parse from_utf8 pairs b ≡ ok b'
      → b'.event ≡ b.event
  unfolding decode_fields
  decode_fields-event [] b b' h = ground arith
  decode_fields-event (err e ∷ pairs) b b' h = absurd (ground arith)
  decode_fields-event (ok (key, value) ∷ pairs) b b' h =
      elim (Result-cases (decode_field bendy parse from_utf8 key value b)) [
        | inl (e, k) ↦ absurd (ground arith)
        | inr (next, k) ↦
            decode_fields-event pairs next b' (ground arith) ∙ decode_field-event key value b next k
      ]

  -- A decoded request has no event, and its `left` is what it says was downloaded.
  pub decode_request_lem :
      (o : O) (r : TrackerRequest P)
      → decode_request bendy parse from_utf8 o ≡ ok r
      → (r.event ≡ none) × (r.left ≡ r.downloaded)
  unfolding decode_request build_request default_builder
  decode_request_lem o r h = elim (Result-cases (bendy.try_into_dictionary o)) [
    | inl (e, k) ↦ absurd (ground arith)
    | inr (pairs, k) ↦
        elim (Result-cases (decode_fields bendy parse from_utf8 pairs default_builder)) [
          | inl (e, l) ↦ absurd (ground arith)
          | inr (b, l) ↦ ground (arith, decode_fields-event pairs default_builder b l)
        ]
  ]

module _ {P V B E : Type 0} (encoder : Encoder V B E) (peer_bytes : P → List ℕ) where
  -- A request is never encoded: its keys are not in order, `libp2p_peer_ip` after `peer_id`.
  encode_request_fails : (r : TrackerRequest P) (v : V) → encode_request encoder peer_bytes r ≢ ok v
  unfolding encode_request request_pairs
  encode_request_fails r v h =
      absurd (ground (arith, encoder.emit_dict-sorted (request_pairs encoder peer_bytes r) v h))
