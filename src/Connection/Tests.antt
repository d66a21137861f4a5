-- ===== src/Connection/Tests.antt =====
-- The theorems on the handler of a connection at a handler of two substreams.
use libp2p_bittorrent_protoc.Base.{
  ℕ, ◌+◌, ◌≡◌, refl, Bool, List, [], ◌∷◌, Option, none, some, Result, ok, done, Poll, pending,
  ready, returns, arith,
}
use libp2p_bittorrent_protoc.Base.Vec.Totals.{total}
use libp2p_bittorrent_protoc.Crates.Instances.{list_bit_vec}
use libp2p_bittorrent_protoc.Crates.Instant.{seconds}
use libp2p_bittorrent_protoc.Crates.StreamSink.{StreamSink}
use libp2p_bittorrent_protoc.Wire.Message.{PeerMessage, PeerRequest, Piece}
use libp2p_bittorrent_protoc.Peer.Torrent.{seed_and_leech}
use libp2p_bittorrent_protoc.Connection.Events.{
  BitTorrentHandlerIn, BitTorrentHandlerEvent, ProtocolsHandlerEvent, custom,
}
use libp2p_bittorrent_protoc.Connection.{
  SubstreamState, out_pending_open, inject_event, out_pending_send, in_waiting_message,
  in_waiting_user, in_pending_send, BitTorrentHandler, yes, answer, inject_fully_negotiated_inbound,
  with_seed_leech_config,
}
use libp2p_bittorrent_protoc.Connection.Advance.{drive, poll}
use libp2p_bittorrent_protoc.Connection.Steps.{owed, carried, numbered}
use libp2p_bittorrent_protoc.Connection.Polls.{of_poll, poll_returns, poll-owed}
use libp2p_bittorrent_protoc.Connection.Answers.{IsNumbered}
use libp2p_bittorrent_protoc.Connection.Once.{inject_each, answer-inject_each}
use libp2p_bittorrent_protoc.Connection.Histories.{
  opened_by_remote, polled, start, and_then, ConnectionReach, ConnectionReach-IsNumbered,
}
use libp2p_bittorrent_protoc.Connection.Phases.{PhaseRun, phase, phase_after, drive-PhaseRun}

-- A stream that takes every message, and delivers blocks and then requests.
record Script : Type 0 where
  pieces : List Piece
  requests : List PeerRequest

abbrev deliver : Script → Script × Poll (Option (Result (PeerMessage (List Bool)) ℕ))
deliver s = elim s.pieces [
  | p ∷ rest ↦ (record s { pieces = rest }, ready (some (ok (PeerMessage.piece p))))
  | [] ↦ elim s.requests [
    | [] ↦ (s, pending)
    | r ∷ rest ↦ (record s { requests = rest }, ready (some (ok (PeerMessage.request r))))
  ]
]

instance abbrev script_sink : StreamSink Script (PeerMessage (List Bool)) ℕ
script_sink = record {
  poll_ready = λ s. (s, ready (ok tt));
  start_send = λ s msg. (s, ok tt);
  poll_flush = λ s. (s, ready (ok tt));
  poll_close = λ s. (s, ready (ok tt));
  poll_next = deliver;
  unexpected_eof = 0;
}

deliver-ne-port : (s : Script) (p : ℕ) → (deliver s).1 ≡ ready (some (ok (PeerMessage.port p))) → ⊥
deliver-ne-port s p h = ground arith

abbrev Handler : Type 0
Handler = BitTorrentHandler Script (List Bool) ℕ ℕ ℕ ℕ

abbrev Substream : Type 0
Substream = SubstreamState Script (List Bool) ℕ ℕ ℕ ℕ

abbrev a_request : PeerRequest
a_request = record { index = 1; begin = 0; length = 4 }

abbrev a_piece : Piece
a_piece = record { index = 1; begin = 0; block = 5 ∷ 6 ∷ 7 ∷ 8 ∷ [] }

abbrev silent : Script
silent = record { pieces = []; requests = [] }

abbrev asking : Script
asking = record { pieces = []; requests = a_request ∷ [] }

abbrev answering : Script
answering = record { pieces = a_piece ∷ []; requests = [] }

-- a request of ours with the user data 9, not yet sent, and a remote that asks
abbrev two_substreams : Handler
two_substreams = record {
  substreams =
      out_pending_send answering (PeerMessage.request a_request) (some 9)
      ∷ in_waiting_message 0 asking
      ∷ [];
  keep_alive = yes;
  seed_leech = seed_and_leech;
  next_connec_unique_id = 1;
}

abbrev after_first_poll : Handler
after_first_poll = record two_substreams {
  substreams =
      out_pending_send answering (PeerMessage.request a_request) (some 9)
      ∷ in_waiting_user 0 silent
      ∷ [];
}

abbrev waits_for_user : Handler
waits_for_user = record two_substreams { substreams = in_waiting_user 0 silent ∷ [] }

first_poll :
    poll (λ n. n) 30 two_substreams
    ≡ returns (after_first_poll, ready (custom (BitTorrentHandlerEvent.get_piece_req a_request 0)))
unfolding poll
first_poll = refl

abbrev closed_after : Handler
closed_after = record two_substreams {
  substreams = in_waiting_user 0 silent ∷ SubstreamState.out_closing silent ∷ [];
}

-- the second poll sends the request and finds its answer at once
second_poll :
    (poll (λ n. n) 30 after_first_poll)
    ≡ returns (closed_after, ready (custom (BitTorrentHandlerEvent.get_piece_res a_piece 9)))
unfolding poll
second_poll = refl

poll_returns_example :
    (result : Handler × Poll (ProtocolsHandlerEvent (List Bool) ℕ ℕ ℕ ℕ)) × (poll
        (λ n. n)
        30
        two_substreams
      ≡ returns result)
poll_returns_example = poll_returns deliver-ne-port (λ n. n) 30 two_substreams

poll-owed_example :
    total (owed (λ u. u)) after_first_poll.substreams
    ≡ total (owed (λ u. u)) closed_after.substreams
      + of_poll
          (carried {V = List Bool} {I = ℕ} {E = ℕ} {X = ℕ} (λ u. u))
          (ready (custom (BitTorrentHandlerEvent.get_piece_res a_piece 9)))
poll-owed_example =
    poll-owed (λ u. u) (λ n. n) 30 after_first_poll closed_after
      (ready (custom (BitTorrentHandlerEvent.get_piece_res a_piece 9))) second_poll

idle_poll : poll (λ n. n) 30 waits_for_user ≡ returns (waits_for_user, pending)
unfolding poll
idle_poll = refl

waits_for_user-IsNumbered : IsNumbered waits_for_user
unfolding IsNumbered total numbered
waits_for_user-IsNumbered n = ground arith

abbrev answered_once : Handler
answered_once = record two_substreams {
  substreams = in_pending_send 0 silent (PeerMessage.piece a_piece) ∷ [];
}

first_answer : answer (PeerMessage.piece a_piece) 0 waits_for_user ≡ done answered_once
unfolding answer
first_answer = refl

-- the user says that it has a piece, and answers once more
abbrev told : Handler
told = record answered_once {
  substreams =
      in_pending_send 0 silent (PeerMessage.piece a_piece)
      ∷ out_pending_open (PeerMessage.have 3) none
      ∷ [];
}

told_after : inject_each (BitTorrentHandlerIn.have 3 ∷ []) answered_once ≡ done told
unfolding inject_each inject_event
told_after = refl

answer-inject_each_example : answer PeerMessage.keep_alive 0 told ≡ done told
answer-inject_each_example =
    answer-inject_each (PeerMessage.piece a_piece) PeerMessage.keep_alive 0
      (BitTorrentHandlerIn.have 3 ∷ []) waits_for_user answered_once told waits_for_user-IsNumbered
      first_answer told_after

abbrev fresh : Handler
fresh = record {
  substreams = [];
  keep_alive = yes;
  seed_leech = seed_and_leech;
  next_connec_unique_id = 0;
}

abbrev opened_once : Handler
opened_once = record fresh {
  substreams = in_waiting_message 0 asking ∷ [];
  next_connec_unique_id = 1;
}

opened_once-poll :
    poll (λ n. n) 30 opened_once
    ≡ returns (waits_for_user, ready (custom (BitTorrentHandlerEvent.get_piece_req a_request 0)))
unfolding poll
opened_once-poll = refl

opened_once_lem : ConnectionReach fresh opened_once
unfolding inject_fully_negotiated_inbound
opened_once_lem = and_then start (opened_by_remote fresh asking (omega arith))

fresh_lem : ConnectionReach (with_seed_leech_config seed_and_leech) waits_for_user
unfolding with_seed_leech_config
fresh_lem =
    and_then opened_once_lem (polled opened_once waits_for_user (λ n. n) 30 _ opened_once-poll)

ConnectionReach-IsNumbered_example : IsNumbered waits_for_user
ConnectionReach-IsNumbered_example =
    ConnectionReach-IsNumbered seed_and_leech waits_for_user fresh_lem

abbrev first_substream : Substream
first_substream = out_pending_send answering (PeerMessage.request a_request) (some 9)

first_drive :
    drive 3 5 first_substream
    ≡ returns (
      some (SubstreamState.out_closing silent),
      some (custom (BitTorrentHandlerEvent.get_piece_res a_piece 9)),
    )
unfolding drive
first_drive = refl

drive-PhaseRun_example :
    PhaseRun {V = List Bool} {I = ℕ} {E = ℕ} {X = ℕ}
      (phase first_substream)
      (some (custom (BitTorrentHandlerEvent.get_piece_res a_piece 9)))
      (phase_after {S = Script} {V = List Bool} {I = ℕ} {E = ℕ} {X = ℕ}
        (some (SubstreamState.out_closing silent)))
drive-PhaseRun_example =
    drive-PhaseRun 3 5 first_substream (some (SubstreamState.out_closing silent))
      (some (custom (BitTorrentHandlerEvent.get_piece_res a_piece 9))) first_drive
