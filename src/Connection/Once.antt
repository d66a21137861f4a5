-- ===== src/Connection/Once.antt =====
-- A request of a remote is answered once between two polls of its handler, in `src/handler.rs`.
use libp2p_bittorrent_protoc.Base.{
  ◌≡◌, refl, inl, inr, List, [], ◌∷◌, Outcome, done, bind, arith, Outcome-cases,
}
use libp2p_bittorrent_protoc.Base.Vec.Totals.{total}
use libp2p_bittorrent_protoc.Crates.StreamSink.{StreamSink}
use libp2p_bittorrent_protoc.Wire.Message.{PeerMessage}
use libp2p_bittorrent_protoc.Connection.Events.{BitTorrentRequestId, BitTorrentHandlerIn}
use libp2p_bittorrent_protoc.Connection.{BitTorrentHandler, is_waiting_user, answer, inject_event}
use libp2p_bittorrent_protoc.Connection.Answers.{
  waits, IsNumbered, answer-none, answer-waits, position-total,
}
use libp2p_bittorrent_protoc.Connection.Injected.{IsWeight, inject_event-IsNotHeavier}

module _ {S V U I E X : Type 0} where
  waits-IsWeight :
      (id : BitTorrentRequestId)
      → IsWeight (waits {S = S} {V = V} {U = U} {I = I} {E = E} {X = X} id)
  unfolding is_waiting_user
  waits-IsWeight id = record { opens = λ msg u. refl; answers = λ n s msg. omega arith }

  module _ ⦃k : StreamSink S (PeerMessage V) E⦄ where
    -- events that are injected one after the other
    unfoldable pub inject_each :
        List (BitTorrentHandlerIn V U I)
        → BitTorrentHandler S V U I E X
        → Outcome (BitTorrentHandler S V U I E X)
    inject_each [] h = done h
    inject_each (event ∷ events) h = bind (inject_event event h) (inject_each events)

    inject_each-waits :
        (id : BitTorrentRequestId) (events : List (BitTorrentHandlerIn V U I))
        (h h' : BitTorrentHandler S V U I E X)
        → inject_each events h ≡ done h'
        → total (waits id) h.substreams ≡ 0
        → total (waits id) h'.substreams ≡ 0
    unfolding inject_each
    inject_each-waits id [] h h' e z = ground arith
    inject_each-waits id (event ∷ events) h h' e z = elim (Outcome-cases (inject_event event h)) [
      | inl p ↦ absurd (ground arith)
      | inr (next, p) ↦
          let kept = inject_event-IsNotHeavier (waits id) (waits-IsWeight id) event h next p in
          inject_each-waits id events next h' (ground arith) (omega (arith, z, kept.fewer))
    ]

    -- Between two polls a request is answered once: after an answer to it, and any events that are
    -- injected after that, a second answer to it, whatever it says, changes nothing. The identifiers
    -- of the inbound substreams are distinct before.
    pub answer-inject_each :
        (msg again : PeerMessage V) (id : BitTorrentRequestId)
        (events : List (BitTorrentHandlerIn V U I)) (h h' h'' : BitTorrentHandler S V U I E X)
        → IsNumbered h
        → answer msg id h ≡ done h'
        → inject_each events h' ≡ done h''
        → answer again id h'' ≡ done h''
    answer-inject_each msg again id events h h' h'' numbers e i = answer-none again id h'' (
        position-total id h''.substreams
          (inject_each-waits id events h' h'' i (answer-waits msg id h h' numbers e)))
