-- ===== src/Connection/Injected.antt =====
-- What an event that is injected into a handler of `src/handler.rs` adds to its substreams, by any weight
-- of them that is 0 on the outbound ones.
use libp2p_bittorrent_protoc.Base.{
  ℕ, ◌≤◌, ◌≡◌, refl, inl, inr, Option, none, some, Option-cases, done, arith,
}
use libp2p_bittorrent_protoc.Base.Vec.{position, remove_at}
use libp2p_bittorrent_protoc.Base.Vec.Totals.{total, total-push, total-remove_at, position-some}
use libp2p_bittorrent_protoc.Crates.StreamSink.{StreamSink}
use libp2p_bittorrent_protoc.Wire.Message.{PeerMessage}
use libp2p_bittorrent_protoc.Connection.Events.{BitTorrentRequestId, BitTorrentHandlerIn}
use libp2p_bittorrent_protoc.Connection.{
  SubstreamState, in_waiting_user, in_pending_send, out_pending_open, BitTorrentHandler,
  is_waiting_user, answer, remove_waiting, request, choke_message, interest_message, inject_event,
}
use libp2p_bittorrent_protoc.Connection.Answers.{answer_lem}

module _ {S V U I E X : Type 0} where
  -- the request does not count, and an answer counts as its wait at most
  pub record IsWeight (f : SubstreamState S V U I E X → ℕ) : Type 0 where
    pub opens : (msg : PeerMessage V) (u : Option U) → f (out_pending_open msg u) ≡ 0
    pub answers :
        (id : BitTorrentRequestId) (s : S) (msg : PeerMessage V)
        → f (in_pending_send id s msg) ≤ f (in_waiting_user id s)

  module _ (f : SubstreamState S V U I E X → ℕ) (weight : IsWeight f) where
    -- the handler has gained nothing by the weight
    pub record IsNotHeavier (h h' : BitTorrentHandler S V U I E X) : Type 0 where
      pub fewer : total f h'.substreams ≤ total f h.substreams
      pub next_id : h'.next_connec_unique_id ≡ h.next_connec_unique_id

    answer-IsNotHeavier :
        (msg : PeerMessage V) (id : BitTorrentRequestId) (h h' : BitTorrentHandler S V U I E X)
        → answer msg id h ≡ done h'
        → IsNotHeavier h h'
    answer-IsNotHeavier msg id h h' e = elim (answer_lem msg id h) [
      | inl (q, z) ↦ record { fewer = ground arith; next_id = ground arith }
      | inr (pos, stream, found, z) ↦ record {
        fewer = ground (
          arith,
          weight.answers id stream msg,
          total-remove_at f h.substreams pos (in_waiting_user id stream) found,
          total-push f (remove_at h.substreams pos) (in_pending_send id stream msg),
        );
        next_id = ground arith;
      }
    ]

    module _ ⦃k : StreamSink S (PeerMessage V) E⦄ where
      remove_waiting-IsNotHeavier :
          (id : BitTorrentRequestId) (h : BitTorrentHandler S V U I E X)
          → IsNotHeavier h (remove_waiting id h).0
      unfolding remove_waiting
      remove_waiting-IsNotHeavier id h =
          elim (Option-cases (position (is_waiting_user id) h.substreams)) [
            | inl q ↦ record { fewer = ground arith; next_id = ground arith }
            | inr (pos, q) ↦
                let (s, found, waits) = position-some (is_waiting_user id) h.substreams pos q in
                record {
                  fewer = ground (arith, total-remove_at f h.substreams pos s found);
                  next_id = ground arith;
                }
          ]

      request-IsNotHeavier :
          (msg : PeerMessage V) (u : Option U) (h : BitTorrentHandler S V U I E X)
          → IsNotHeavier h (request msg u h)
      request-IsNotHeavier msg u h = record {
        fewer =
            omega (arith, weight.opens msg u, total-push f h.substreams (out_pending_open msg u));
        next_id = refl;
      }

      done-IsNotHeavier :
          (h k h' : BitTorrentHandler S V U I E X)
          → done k ≡ done h'
          → IsNotHeavier h k
          → IsNotHeavier h h'
      done-IsNotHeavier h k h' e q = record {
        fewer = ground (arith, q.fewer);
        next_id = ground (arith, q.next_id);
      }

      requested :
          (msg : PeerMessage V) (u : Option U) (h h' : BitTorrentHandler S V U I E X)
          → done (request msg u h) ≡ done h'
          → IsNotHeavier h h'
      requested msg u h h' e = done-IsNotHeavier h _ h' e (request-IsNotHeavier msg u h)

      pub inject_event-IsNotHeavier :
          (event : BitTorrentHandlerIn V U I) (h h' : BitTorrentHandler S V U I E X)
          → inject_event event h ≡ done h'
          → IsNotHeavier h h'
      unfolding inject_event
      inject_event-IsNotHeavier (BitTorrentHandlerIn.get_piece_res piece id) h h' e =
          answer-IsNotHeavier (PeerMessage.piece piece) id h h' e
      inject_event-IsNotHeavier (BitTorrentHandlerIn.handshake_res handshake id) h h' e =
          answer-IsNotHeavier (PeerMessage.handshake handshake) id h h' e
      inject_event-IsNotHeavier (BitTorrentHandlerIn.bitfield_res index_field id) h h' e =
          answer-IsNotHeavier (PeerMessage.bitfield index_field) id h h' e
      inject_event-IsNotHeavier (BitTorrentHandlerIn.disconnect (some t)) h h' e = record {
        fewer = ground arith;
        next_id = ground arith;
      }
      inject_event-IsNotHeavier (BitTorrentHandlerIn.disconnect none) h h' e = record {
        fewer = ground arith;
        next_id = ground arith;
      }
      inject_event-IsNotHeavier (BitTorrentHandlerIn.reset id) h h' e =
          done-IsNotHeavier h _ h' e (remove_waiting-IsNotHeavier id h)
      inject_event-IsNotHeavier (BitTorrentHandlerIn.cancel_piece peer_request id) h h' e =
          let r = remove_waiting-IsNotHeavier id h in
          let q =
            request-IsNotHeavier (PeerMessage.cancel peer_request) none (remove_waiting id h).0 in
          record { fewer = ground (arith, r.fewer, q.fewer); next_id = ground (arith, r.next_id) }
      inject_event-IsNotHeavier (BitTorrentHandlerIn.handshake_req handshake u) h h' e =
          requested (PeerMessage.handshake handshake) (some u) h h' e
      inject_event-IsNotHeavier (BitTorrentHandlerIn.bitfield_req index_field u) h h' e =
          requested (PeerMessage.bitfield index_field) (some u) h h' e
      inject_event-IsNotHeavier (BitTorrentHandlerIn.choke inner) h h' e =
          requested (choke_message inner) none h h' e
      inject_event-IsNotHeavier (BitTorrentHandlerIn.interest inner) h h' e =
          requested (interest_message inner) none h h' e
      inject_event-IsNotHeavier (BitTorrentHandlerIn.get_piece_req peer_request u) h h' e =
          requested (PeerMessage.request peer_request) (some u) h h' e
      inject_event-IsNotHeavier (BitTorrentHandlerIn.have index) h h' e =
          requested (PeerMessage.have index) none h h' e
      inject_event-IsNotHeavier BitTorrentHandlerIn.keep_alive h h' e =
          requested PeerMessage.keep_alive none h h' e
