-- ===== src/Connection.antt =====
-- `src/handler.rs`: the handler of one connection to a remote, its substreams and the events that are
-- injected into it. The protocol's name, the only configuration, is left out.
pub mod Events
pub mod Advance
pub mod Steps
pub mod Polls
pub mod Answers
pub mod Injected
pub mod Once
pub mod Histories
pub mod Phases
mod Tests
use libp2p_bittorrent_protoc.Base.{
  ℕ, ◌+◌, ◌%◌, ◌^◌, Bool, true, false, List, [], ◌∷◌, Option, none, some, Result, Outcome, done,
  panic, Poll, pending, ready, get_elem?, ◌==◌,
}
use mathlib.Core.Option
use libp2p_bittorrent_protoc.Base.Vec.{push, remove_at, position}
use libp2p_bittorrent_protoc.Crates.StreamSink.{StreamSink}
use libp2p_bittorrent_protoc.Wire.Message.{PeerMessage}
use libp2p_bittorrent_protoc.Peer.State.{
  ChokeType, choked, un_choked, InterestType, interested, not_interested,
}
use libp2p_bittorrent_protoc.Peer.Torrent.{SeedLeechConfig, seed_and_leech}
use libp2p_bittorrent_protoc.Connection.Events.{
  UniqueConnecId, BitTorrentRequestId, BitTorrentHandlerIn, BitTorrentHandlerTorrentErr,
}

-- `S` a substream, `V` the bits of a field, `U` the user data of a request, `I` instants, `E` the
-- errors of substreams, `X` those of dials
pub data SubstreamState (S V U I E X : Type 0) : Type 0 where
  out_pending_open : PeerMessage V → Option U → SubstreamState S V U I E X
  out_pending_send : S → PeerMessage V → Option U → SubstreamState S V U I E X
  out_pending_flush : S → Option U → SubstreamState S V U I E X
  out_waiting_answer : S → U → I → SubstreamState S V U I E X
  out_report_error : BitTorrentHandlerTorrentErr V E X → U → SubstreamState S V U I E X
  out_closing : S → SubstreamState S V U I E X
  in_waiting_message : UniqueConnecId → S → SubstreamState S V U I E X
  in_waiting_user : UniqueConnecId → S → SubstreamState S V U I E X
  in_pending_send : UniqueConnecId → S → PeerMessage V → SubstreamState S V U I E X
  in_pending_flush : UniqueConnecId → S → SubstreamState S V U I E X
  in_closing : S → SubstreamState S V U I E X

-- of libp2p
pub data KeepAlive (I : Type 0) : Type 0 where
  until : I → KeepAlive I
  yes no : KeepAlive I

pub record BitTorrentHandler (S V U I E X : Type 0) : Type 0 where
  pub substreams : List (SubstreamState S V U I E X)
  pub keep_alive : KeepAlive I
  pub seed_leech : SeedLeechConfig
  pub next_connec_unique_id : UniqueConnecId

-- both outcomes of a close count as closed
abbrev pub closed : {E : Type 0} → Poll (Result (Unit {0}) E) → Poll (Unit {0})
closed pending = pending
closed (ready result) = ready tt

abbrev pub choke_message : {V : Type 0} → ChokeType → PeerMessage V
choke_message choked = PeerMessage.choke
choke_message un_choked = PeerMessage.un_choke

abbrev pub interest_message : {V : Type 0} → InterestType → PeerMessage V
interest_message interested = PeerMessage.interested
interest_message not_interested = PeerMessage.not_interested

module _ {S V U I E X : Type 0} where
  -- The configuration given is not the one stored, as in the source.
  unfoldable pub with_seed_leech_config : SeedLeechConfig → BitTorrentHandler S V U I E X
  with_seed_leech_config seed_leech = record {
    substreams = [];
    keep_alive = yes;
    seed_leech = seed_and_leech;
    next_connec_unique_id = 0;
  }

  unfoldable pub add_substream :
      SubstreamState S V U I E X → BitTorrentHandler S V U I E X → BitTorrentHandler S V U I E X
  add_substream s h = record h { substreams = push h.substreams s }

  unfoldable pub inject_fully_negotiated_inbound :
      S → BitTorrentHandler S V U I E X → BitTorrentHandler S V U I E X
  unfolding add_substream
  inject_fully_negotiated_inbound protocol h =
      add_substream (in_waiting_message h.next_connec_unique_id protocol)
        (record h { next_connec_unique_id = (h.next_connec_unique_id + 1) % 2 ^ 64 })

  unfoldable pub inject_fully_negotiated_outbound :
      S → PeerMessage V → Option U → BitTorrentHandler S V U I E X → BitTorrentHandler S V U I E X
  unfolding add_substream
  inject_fully_negotiated_outbound protocol msg user_data h =
      add_substream (out_pending_send protocol msg user_data) h

  unfoldable pub inject_dial_upgrade_error :
      Option U → X → BitTorrentHandler S V U I E X → BitTorrentHandler S V U I E X
  unfolding add_substream
  inject_dial_upgrade_error none error h = h
  inject_dial_upgrade_error (some user_data) error h =
      add_substream (out_report_error (BitTorrentHandlerTorrentErr.upgrade error) user_data) h

  -- the test of the searches for the substream of a request
  unfoldable pub is_waiting_user : BitTorrentRequestId → SubstreamState S V U I E X → Bool
  is_waiting_user request_id (in_waiting_user conn_id s) = conn_id == request_id
  is_waiting_user request_id (out_pending_open msg u) = false
  is_waiting_user request_id (out_pending_send s msg u) = false
  is_waiting_user request_id (out_pending_flush s u) = false
  is_waiting_user request_id (out_waiting_answer s u t) = false
  is_waiting_user request_id (out_report_error e u) = false
  is_waiting_user request_id (out_closing s) = false
  is_waiting_user request_id (in_waiting_message conn_id s) = false
  is_waiting_user request_id (in_pending_send conn_id s msg) = false
  is_waiting_user request_id (in_pending_flush conn_id s) = false
  is_waiting_user request_id (in_closing s) = false

  -- the substream that is removed, with the answer to send on it; `unreachable!` otherwise
  unfoldable pub with_answer :
      PeerMessage V → Option (SubstreamState S V U I E X) → Outcome (SubstreamState S V U I E X)
  with_answer msg (some (in_waiting_user conn_id s)) = done (in_pending_send conn_id s msg)
  with_answer msg _ = panic

  -- the arms of the three answers
  unfoldable pub answer :
      PeerMessage V
      → BitTorrentRequestId
      → BitTorrentHandler S V U I E X
      → Outcome (BitTorrentHandler S V U I E X)
  unfolding with_answer is_waiting_user
  answer msg request_id h = elim (position (is_waiting_user request_id) h.substreams) [
    | none ↦ done h
    | some pos ↦ elim (with_answer msg (get_elem? h.substreams pos)) [
      | panic ↦ panic
      | done s ↦ done (record h { substreams = push (remove_at h.substreams pos) s })
    ]
  ]

  module _ ⦃k : StreamSink S (PeerMessage V) E⦄ where
    -- what the call does to the substream, and its answer
    unfoldable pub try_close :
        SubstreamState S V U I E X → SubstreamState S V U I E X × Poll (Unit {0})
    try_close (out_pending_open msg u) = (out_pending_open msg u, ready tt)
    try_close (out_report_error e u) = (out_report_error e u, ready tt)
    try_close (out_pending_send s msg u) =
        let (s', result) = k.poll_close s in (out_pending_send s' msg u, closed result)
    try_close (out_pending_flush s u) =
        let (s', result) = k.poll_close s in (out_pending_flush s' u, closed result)
    try_close (out_waiting_answer s u t) =
        let (s', result) = k.poll_close s in (out_waiting_answer s' u t, closed result)
    try_close (out_closing s) = let (s', result) = k.poll_close s in (out_closing s', closed result)
    try_close (in_waiting_message conn_id s) =
        let (s', result) = k.poll_close s in (in_waiting_message conn_id s', closed result)
    try_close (in_waiting_user conn_id s) =
        let (s', result) = k.poll_close s in (in_waiting_user conn_id s', closed result)
    try_close (in_pending_send conn_id s msg) =
        let (s', result) = k.poll_close s in (in_pending_send conn_id s' msg, closed result)
    try_close (in_pending_flush conn_id s) =
        let (s', result) = k.poll_close s in (in_pending_flush conn_id s', closed result)
    try_close (in_closing s) = let (s', result) = k.poll_close s in (in_closing s', closed result)

    -- The removal of `Reset` and `CancelPiece`, and the substream that it removes and drops, after its
    -- one call of `try_close`.
    unfoldable pub remove_waiting :
        BitTorrentRequestId
        → BitTorrentHandler S V U I E X
        → BitTorrentHandler S V U I E X × Option (SubstreamState S V U I E X)
    unfolding is_waiting_user try_close
    remove_waiting request_id h = elim (position (is_waiting_user request_id) h.substreams) [
      | none ↦ (h, none)
      | some pos ↦ (
        record h { substreams = remove_at h.substreams pos },
        Option.map (λ s. (try_close s).0) (get_elem? h.substreams pos),
      )
    ]

  -- a message to the remote on a new substream
  abbrev pub request :
      PeerMessage V → Option U → BitTorrentHandler S V U I E X → BitTorrentHandler S V U I E X
  request msg user_data h = record h {
    substreams = push h.substreams (out_pending_open msg user_data);
  }

  module _ ⦃k : StreamSink S (PeerMessage V) E⦄ where
    unfoldable pub inject_event :
        BitTorrentHandlerIn V U I
        → BitTorrentHandler S V U I E X
        → Outcome (BitTorrentHandler S V U I E X)
    unfolding answer remove_waiting
    inject_event (BitTorrentHandlerIn.disconnect (some timeout)) h =
        done (record h { keep_alive = until timeout })
    inject_event (BitTorrentHandlerIn.disconnect none) h = done (record h { keep_alive = no })
    inject_event (BitTorrentHandlerIn.reset request_id) h = done (remove_waiting request_id h).0
    inject_event (BitTorrentHandlerIn.handshake_req handshake user_data) h =
        done (request (PeerMessage.handshake handshake) (some user_data) h)
    inject_event (BitTorrentHandlerIn.bitfield_req index_field user_data) h =
        done (request (PeerMessage.bitfield index_field) (some user_data) h)
    inject_event (BitTorrentHandlerIn.choke inner) h = done (request (choke_message inner) none h)
    inject_event (BitTorrentHandlerIn.interest inner) h =
        done (request (interest_message inner) none h)
    inject_event (BitTorrentHandlerIn.get_piece_req peer_request user_data) h =
        done (request (PeerMessage.request peer_request) (some user_data) h)
    inject_event (BitTorrentHandlerIn.get_piece_res piece request_id) h =
        answer (PeerMessage.piece piece) request_id h
    inject_event (BitTorrentHandlerIn.cancel_piece peer_request request_id) h =
        let (h', found) = remove_waiting request_id h in
        elim found [
          | some removed ↦ done h'
          | none ↦ done (request (PeerMessage.cancel peer_request) none h')
        ]
    inject_event (BitTorrentHandlerIn.have index) h = done (request (PeerMessage.have index) none h)
    inject_event BitTorrentHandlerIn.keep_alive h = done (request PeerMessage.keep_alive none h)
    inject_event (BitTorrentHandlerIn.handshake_res handshake request_id) h =
        answer (PeerMessage.handshake handshake) request_id h
    inject_event (BitTorrentHandlerIn.bitfield_res index_field request_id) h =
        answer (PeerMessage.bitfield index_field) request_id h
