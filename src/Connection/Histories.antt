-- ===== src/Connection/Histories.antt =====
-- Whole histories of a handler: its substreams keep distinct identifiers.
use libp2p_bittorrent_protoc.Base.{
  ℕ, ◌+◌, ◌^◌, ◌≤◌, ◌<◌, ◌≡◌, refl, sym, Option, none, some, done, Poll, returns, arith,
}
use libp2p_bittorrent_protoc.Base.Vec.Totals.{total, total-push}
use libp2p_bittorrent_protoc.Crates.Instant.{Instant}
use libp2p_bittorrent_protoc.Crates.StreamSink.{StreamSink}
use libp2p_bittorrent_protoc.Wire.Message.{PeerMessage}
use libp2p_bittorrent_protoc.Peer.Torrent.{SeedLeechConfig}
use libp2p_bittorrent_protoc.Connection.Events.{
  UniqueConnecId, BitTorrentHandlerIn, BitTorrentHandlerTorrentErr, ProtocolsHandlerEvent,
}
use libp2p_bittorrent_protoc.Connection.{
  SubstreamState, in_waiting_message, out_pending_send, out_report_error, BitTorrentHandler, answer,
  inject_event, add_substream, inject_fully_negotiated_inbound, inject_fully_negotiated_outbound,
  inject_dial_upgrade_error, with_seed_leech_config,
}
use libp2p_bittorrent_protoc.Connection.Advance.{poll}
use libp2p_bittorrent_protoc.Connection.Steps.{numbered}
use libp2p_bittorrent_protoc.Connection.Polls.{poll-numbered, poll-next_connec_unique_id}
use libp2p_bittorrent_protoc.Connection.Answers.{IsNumbered}
use libp2p_bittorrent_protoc.Connection.Injected.{IsWeight, inject_event-IsNotHeavier}

module _ {S V U I E X : Type 0} where
  -- the handler has gained no inbound substream
  record IsNotMore (h h' : BitTorrentHandler S V U I E X) : Type 0 where
    pub fewer :
        (n : UniqueConnecId) → total (numbered n) h'.substreams ≤ total (numbered n) h.substreams
    pub next_id : h'.next_connec_unique_id ≡ h.next_connec_unique_id

  IsNotMore-IsNumbered :
      (h h' : BitTorrentHandler S V U I E X) → IsNotMore h h' → IsNumbered h → IsNumbered h'
  unfolding IsNumbered
  IsNotMore-IsNumbered h h' q numbers n =
      let (once, fresh) = numbers n in
      let le = q.fewer n in
      let e = q.next_id in (omega arith, λ k. ground (arith, fresh (ground arith)))

  add_substream-IsNotMore :
      (s : SubstreamState S V U I E X) (h : BitTorrentHandler S V U I E X)
      → ((n : UniqueConnecId) → numbered n s ≡ 0)
      → IsNotMore h (add_substream s h)
  unfolding add_substream
  add_substream-IsNotMore s h outbound = record {
    fewer = λ n. ground (arith, outbound n, total-push (numbered n) h.substreams s);
    next_id = refl;
  }

  numbered-IsWeight :
      (n : UniqueConnecId) → IsWeight (numbered {S = S} {V = V} {U = U} {I = I} {E = E} {X = X} n)
  unfolding numbered
  numbered-IsWeight n = record { opens = λ msg u. refl; answers = λ id s msg. omega arith }

  module _ ⦃k : StreamSink S (PeerMessage V) E⦄ where
    IsNotMore-refl :
        (h h' : BitTorrentHandler S V U I E X)
        → h.substreams ≡ h'.substreams
        → h.next_connec_unique_id ≡ h'.next_connec_unique_id
        → IsNotMore h h'
    IsNotMore-refl h h' e q = record { fewer = λ n. ground arith; next_id = sym q }

    outbound-IsNotMore :
        (s : S) (msg : PeerMessage V) (u : Option U) (h : BitTorrentHandler S V U I E X)
        → IsNotMore h (inject_fully_negotiated_outbound s msg u h)
    unfolding inject_fully_negotiated_outbound numbered
    outbound-IsNotMore s msg u h = add_substream-IsNotMore (out_pending_send s msg u) h (λ n. refl)

    dial-IsNotMore :
        (u : Option U) (error : X) (h : BitTorrentHandler S V U I E X)
        → IsNotMore h (inject_dial_upgrade_error u error h)
    unfolding inject_dial_upgrade_error numbered
    dial-IsNotMore none error h = IsNotMore-refl h h refl refl
    dial-IsNotMore (some u) error h =
        add_substream-IsNotMore (out_report_error (BitTorrentHandlerTorrentErr.upgrade error) u) h
          (λ n. refl)

    inject_event-IsNotMore :
        (event : BitTorrentHandlerIn V U I) (h h' : BitTorrentHandler S V U I E X)
        → inject_event event h ≡ done h'
        → IsNotMore h h'
    inject_event-IsNotMore event h h' e = record {
      fewer = λ n.
          let kept = inject_event-IsNotHeavier (numbered n) (numbered-IsWeight n) event h h' e in
          kept.fewer;
      next_id =
          let kept = inject_event-IsNotHeavier (numbered 0) (numbered-IsWeight 0) event h h' e in
          kept.next_id;
    }

    -- What can happen to a handler. Fewer than 2^64 inbound substreams are opened.
    pub data ConnectionStep ⦃i : Instant I⦄
        : BitTorrentHandler S V U I E X → BitTorrentHandler S V U I E X → Type 0 where
      opened_by_remote :
          (h : BitTorrentHandler S V U I E X) (s : S)
          → h.next_connec_unique_id + 1 < 2 ^ 64
          → ConnectionStep h (inject_fully_negotiated_inbound s h)
      opened :
          (h : BitTorrentHandler S V U I E X) (s : S) (msg : PeerMessage V) (u : Option U)
          → ConnectionStep h (inject_fully_negotiated_outbound s msg u h)
      dial_failed :
          (h : BitTorrentHandler S V U I E X) (u : Option U) (error : X)
          → ConnectionStep h (inject_dial_upgrade_error u error h)
      injected :
          (h h' : BitTorrentHandler S V U I E X) (event : BitTorrentHandlerIn V U I)
          → inject_event event h ≡ done h'
          → ConnectionStep h h'
      polled :
          (h h' : BitTorrentHandler S V U I E X) (clock : ℕ → I) (now : I)
          (answer : Poll (ProtocolsHandlerEvent V U I E X))
          → poll clock now h ≡ returns (h', answer)
          → ConnectionStep h h'

    pub data ConnectionReach ⦃i : Instant I⦄ (h : BitTorrentHandler S V U I E X)
        : BitTorrentHandler S V U I E X → Type 0 where
      start : ConnectionReach h h
      and_then :
          {k l : BitTorrentHandler S V U I E X}
          → ConnectionReach h k
          → ConnectionStep k l
          → ConnectionReach h l

    module _ ⦃i : Instant I⦄ where
      inbound-IsNumbered :
          (s : S) (h : BitTorrentHandler S V U I E X)
          → h.next_connec_unique_id + 1 < 2 ^ 64
          → IsNumbered h
          → IsNumbered (inject_fully_negotiated_inbound s h)
      unfolding IsNumbered inject_fully_negotiated_inbound numbered
      inbound-IsNumbered s h bound numbers n =
          let (once, fresh) = numbers n in
          let pushed =
            total-push (numbered n) h.substreams (in_waiting_message h.next_connec_unique_id s) in
          (ground (arith, pushed, fresh), λ q. ground (arith, pushed, fresh (omega arith)))

      ConnectionStep-IsNumbered :
          {h h' : BitTorrentHandler S V U I E X}
          → ConnectionStep h h'
          → IsNumbered h
          → IsNumbered h'
      unfolding numbered
      ConnectionStep-IsNumbered (opened_by_remote h s bound) n = inbound-IsNumbered s h bound n
      ConnectionStep-IsNumbered (opened h s msg u) n =
          IsNotMore-IsNumbered h _ (outbound-IsNotMore s msg u h) n
      ConnectionStep-IsNumbered (dial_failed h u error) n =
          IsNotMore-IsNumbered h _ (dial-IsNotMore u error h) n
      ConnectionStep-IsNumbered (injected h h' event e) n =
          IsNotMore-IsNumbered h h' (inject_event-IsNotMore event h h' e) n
      ConnectionStep-IsNumbered (polled h h' clock now answer e) n =
          IsNotMore-IsNumbered h h'
            (record {
              fewer = λ m. poll-numbered m clock now h h' answer e;
              next_id = poll-next_connec_unique_id clock now h h' answer e;
            })
            n

      -- After any sequence of opened substreams, failed dials, injected events and polls, with
      -- fewer than 2^64 substreams opened by the remote, the inbound substreams have distinct
      -- identifiers, below the next one.
      pub ConnectionReach-IsNumbered :
          (config : SeedLeechConfig) (h : BitTorrentHandler S V U I E X)
          → ConnectionReach (with_seed_leech_config config) h
          → IsNumbered h
      unfolding with_seed_leech_config IsNumbered total
      ConnectionReach-IsNumbered config h start = λ n. (omega arith, λ q. refl)
      ConnectionReach-IsNumbered config h (and_then {k = k} q t) =
          ConnectionStep-IsNumbered t (ConnectionReach-IsNumbered config k q)
