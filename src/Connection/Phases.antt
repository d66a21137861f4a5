-- ===== src/Connection/Phases.antt =====
-- The protocol of one substream, without its stream, and that the handler follows it: an outbound
-- substream sends one message and reports one outcome to whoever asked for it, an inbound one takes
-- turns with the remote.
use mathlib.Core.Path.{subst}
use libp2p_bittorrent_protoc.Base.{
  ℕ, zero, suc, ◌≡◌, refl, inl, inr, ◌⊎◌, Bool, true, false, arith, Option, none, some, Result, ok,
  err, Outcome, done, panic, Outcome-cases, Poll, pending, ready, returns,
}
use libp2p_bittorrent_protoc.Crates.StreamSink.{StreamSink}
use libp2p_bittorrent_protoc.Wire.Message.{PeerMessage}
use libp2p_bittorrent_protoc.Connection.Events.{
  UniqueConnecId, BitTorrentHandlerEvent, ProtocolsHandlerEvent, outbound_substream_request, custom,
}
use libp2p_bittorrent_protoc.Connection.{
  SubstreamState, out_pending_open, out_pending_send, out_pending_flush, out_waiting_answer,
  out_report_error, out_closing, in_waiting_message, in_waiting_user, in_pending_send,
  in_pending_flush, in_closing,
}
use libp2p_bittorrent_protoc.Connection.Advance.{
  Advanced, process_btt_in, process_btt_out, failed, started_out, sent_out, flushed_out, answered,
  received, started_in, sent_in, flushed_in, closing, advance_substream, drive,
}

-- What a substream is doing; `gone` after its end.
pub data Phase (U : Type 0) : Type 0 where
  opening sending : Option U → Phase U
  waiting reporting : U → Phase U
  leaving gone : Phase U
  listening asked replying : UniqueConnecId → Phase U

module _ {V U I E X : Type 0} where
  -- an event that tells whoever asked for `u` of its outcome
  unfoldable pub Concludes : U → BitTorrentHandlerEvent V U I E X → Type 0
  Concludes u (BitTorrentHandlerEvent.handshake_res handshake v) = v ≡ u
  Concludes u (BitTorrentHandlerEvent.bitfield_res index_field v) = v ≡ u
  Concludes u (BitTorrentHandlerEvent.get_piece_res piece v) = v ≡ u
  Concludes u (BitTorrentHandlerEvent.torrent_err error v) = v ≡ some u
  Concludes u _ = ⊥

  -- an event of the remote, which names no request but the substream's own
  unfoldable pub Asks : UniqueConnecId → BitTorrentHandlerEvent V U I E X → Type 0
  Asks id (BitTorrentHandlerEvent.handshake_req handshake n) = n ≡ id
  Asks id (BitTorrentHandlerEvent.bitfield_req index_field n) = n ≡ id
  Asks id (BitTorrentHandlerEvent.get_piece_req peer_request n) = n ≡ id
  Asks id (BitTorrentHandlerEvent.cancel_piece peer_request n) = n ≡ id
  Asks id (BitTorrentHandlerEvent.torrent_err error v) = v ≡ none
  Asks id (BitTorrentHandlerEvent.choke inner) = Unit
  Asks id (BitTorrentHandlerEvent.interest inner) = Unit
  Asks id (BitTorrentHandlerEvent.have index) = Unit
  Asks id (BitTorrentHandlerEvent.keep_alive now) = Unit
  Asks id _ = ⊥

  pub data PhaseStep : Phase U → Option (ProtocolsHandlerEvent V U I E X) → Phase U → Type 0 where
    stays : (p : Phase U) → PhaseStep p none p
    dials :
        (msg : PeerMessage V) (u : Option U)
        → PhaseStep (opening u) (some (outbound_substream_request msg u)) gone
    asks_remote : (u : U) → PhaseStep (sending (some u)) none (waiting u)
    tells_remote : PhaseStep (sending none) none leaving
    sends_in_vain : PhaseStep (sending none) none gone
    cannot_ask :
        (u : U) (event : BitTorrentHandlerEvent V U I E X)
        → Concludes u event
        → PhaseStep (sending (some u)) (some (custom event)) gone
    is_answered :
        (u : U) (event : BitTorrentHandlerEvent V U I E X)
        → Concludes u event
        → PhaseStep (waiting u) (some (custom event)) leaving
    hears_nothing :
        (u : U) (event : BitTorrentHandlerEvent V U I E X)
        → Concludes u event
        → PhaseStep (waiting u) (some (custom event)) gone
    reports :
        (u : U) (event : BitTorrentHandlerEvent V U I E X)
        → Concludes u event
        → PhaseStep (reporting u) (some (custom event)) gone
    closes : PhaseStep leaving none gone
    is_asked :
        (id : UniqueConnecId) (event : BitTorrentHandlerEvent V U I E X)
        → Asks id event
        → PhaseStep (listening id) (some (custom event)) (asked id)
    ends : (id : UniqueConnecId) → PhaseStep (listening id) none gone
    has_replied : (id : UniqueConnecId) → PhaseStep (replying id) none (listening id)
    cannot_reply : (id : UniqueConnecId) → PhaseStep (replying id) none gone

  -- steps without an event, and a last one with the event given
  pub data PhaseRun : Phase U → Option (ProtocolsHandlerEvent V U I E X) → Phase U → Type 0 where
    last :
        {p q : Phase U} {event : Option (ProtocolsHandlerEvent V U I E X)}
        → PhaseStep p event q
        → PhaseRun p event q
    more :
        {p q r : Phase U} {event : Option (ProtocolsHandlerEvent V U I E X)}
        → PhaseStep p none q
        → PhaseRun q event r
        → PhaseRun p event r

module _ {S V U I E X : Type 0} where
  unfoldable pub phase : SubstreamState S V U I E X → Phase U
  phase (out_pending_open msg u) = opening u
  phase (out_pending_send s msg u) = sending u
  phase (out_pending_flush s u) = sending u
  phase (out_waiting_answer s u instant) = waiting u
  phase (out_report_error error u) = reporting u
  phase (out_closing s) = leaving
  phase (in_waiting_message id s) = listening id
  phase (in_waiting_user id s) = asked id
  phase (in_pending_send id s msg) = replying id
  phase (in_pending_flush id s) = replying id
  phase (in_closing s) = leaving

  unfoldable pub phase_after : Option (SubstreamState S V U I E X) → Phase U
  unfolding phase
  phase_after none = gone
  phase_after (some s) = phase s

  -- the step that an outcome of `advance_substream` is, if it is not a panic
  unfoldable pub Follows : Phase U → Outcome (Advanced S V U I E X) → Type 0
  unfolding phase_after
  Follows p panic = Unit
  Follows p (done (new_state, event, again)) = PhaseStep p event (phase_after new_state)

module _ (S V U I E X : Type 0) ⦃k : StreamSink S (PeerMessage V) E⦄ where
  failed-Follows :
      (error : E) (u : Option U)
      → Follows {S = S} {V = V} {I = I} {E = E} {X = X}
          (sending u)
          (done (none, failed error u, false))
  unfolding Follows failed Concludes phase_after
  failed-Follows error none = sends_in_vain
  failed-Follows error (some u) = cannot_ask u _ refl

  started_out-Follows :
      (u : Option U) (r : S × Result (Unit {0}) E)
      → Follows {V = V} {I = I} {X = X} (sending u) (done (started_out u r))
  unfolding Follows started_out phase_after
  started_out-Follows u (s, ok x) = stays (sending u)
  started_out-Follows u (s, err error) = failed-Follows error u

  sent_out-Follows :
      (msg : PeerMessage V) (u : Option U) (r : S × Poll (Result (Unit {0}) E))
      → Follows {I = I} {X = X} (sending u) (done (sent_out msg u r))
  unfolding Follows sent_out phase_after
  sent_out-Follows msg u (s, pending) = stays (sending u)
  sent_out-Follows msg u (s, ready (err error)) = failed-Follows error u
  sent_out-Follows msg u (s, ready (ok x)) = started_out-Follows u (k.start_send s msg)

  flushed_out-Follows :
      (now : I) (u : Option U) (r : S × Poll (Result (Unit {0}) E))
      → Follows {V = V} {X = X} (sending u) (done (flushed_out now u r))
  unfolding Follows flushed_out phase_after
  flushed_out-Follows now u (s, pending) = stays (sending u)
  flushed_out-Follows now u (s, ready (err error)) = failed-Follows error u
  flushed_out-Follows now none (s, ready (ok x)) = tells_remote
  flushed_out-Follows now (some u) (s, ready (ok x)) = asks_remote u

  answered-Follows :
      (u : U) (instant : I) (r : S × Poll (Option (Result (PeerMessage V) E)))
      → Follows {X = X} (waiting u) (answered u instant r)
  unfolding Follows answered phase_after failed process_btt_out Concludes
  answered-Follows u instant (s, pending) = stays (waiting u)
  answered-Follows u instant (s, ready none) = hears_nothing u _ refl
  answered-Follows u instant (s, ready (some (err error))) = hears_nothing u _ refl
  answered-Follows u instant (s, ready (some (ok PeerMessage.keep_alive))) = is_answered u _ refl
  answered-Follows u instant (s, ready (some (ok PeerMessage.choke))) = is_answered u _ refl
  answered-Follows u instant (s, ready (some (ok PeerMessage.un_choke))) = is_answered u _ refl
  answered-Follows u instant (s, ready (some (ok PeerMessage.interested))) = is_answered u _ refl
  answered-Follows u instant (s, ready (some (ok PeerMessage.not_interested))) =
      is_answered u _ refl
  answered-Follows u instant (s, ready (some (ok (PeerMessage.have index)))) = is_answered u _ refl
  answered-Follows u instant (s, ready (some (ok (PeerMessage.bitfield index_field)))) =
      is_answered u _ refl
  answered-Follows u instant (s, ready (some (ok (PeerMessage.request peer_request)))) =
      is_answered u _ refl
  answered-Follows u instant (s, ready (some (ok (PeerMessage.cancel peer_request)))) =
      is_answered u _ refl
  answered-Follows u instant (s, ready (some (ok (PeerMessage.piece piece)))) = is_answered u _ refl
  answered-Follows u instant (s, ready (some (ok (PeerMessage.handshake handshake)))) =
      is_answered u _ refl
  answered-Follows u instant (s, ready (some (ok (PeerMessage.port p)))) = tt

  received-Follows :
      (now : I) (id : UniqueConnecId) (r : S × Poll (Option (Result (PeerMessage V) E)))
      → Follows {U = U} {X = X} (listening id) (received now id r)
  unfolding Follows received phase_after process_btt_in Asks
  received-Follows now id (s, pending) = stays (listening id)
  received-Follows now id (s, ready none) = ends id
  received-Follows now id (s, ready (some (err error))) = ends id
  received-Follows now id (s, ready (some (ok PeerMessage.keep_alive))) = is_asked id _ tt
  received-Follows now id (s, ready (some (ok PeerMessage.choke))) = is_asked id _ tt
  received-Follows now id (s, ready (some (ok PeerMessage.un_choke))) = is_asked id _ tt
  received-Follows now id (s, ready (some (ok PeerMessage.interested))) = is_asked id _ tt
  received-Follows now id (s, ready (some (ok PeerMessage.not_interested))) = is_asked id _ tt
  received-Follows now id (s, ready (some (ok (PeerMessage.have index)))) = is_asked id _ tt
  received-Follows now id (s, ready (some (ok (PeerMessage.bitfield index_field)))) =
      is_asked id _ refl
  received-Follows now id (s, ready (some (ok (PeerMessage.request peer_request)))) =
      is_asked id _ refl
  received-Follows now id (s, ready (some (ok (PeerMessage.cancel peer_request)))) =
      is_asked id _ refl
  received-Follows now id (s, ready (some (ok (PeerMessage.piece piece)))) = is_asked id _ refl
  received-Follows now id (s, ready (some (ok (PeerMessage.handshake handshake)))) =
      is_asked id _ refl
  received-Follows now id (s, ready (some (ok (PeerMessage.port p)))) = tt

  started_in-Follows :
      (id : UniqueConnecId) (r : S × Result (Unit {0}) E)
      → Follows {V = V} {U = U} {I = I} {X = X} (replying id) (done (started_in id r))
  unfolding Follows started_in phase_after
  started_in-Follows id (s, ok x) = stays (replying id)
  started_in-Follows id (s, err error) = cannot_reply id

  sent_in-Follows :
      (id : UniqueConnecId) (msg : PeerMessage V) (r : S × Poll (Result (Unit {0}) E))
      → Follows {U = U} {I = I} {X = X} (replying id) (done (sent_in id msg r))
  unfolding Follows sent_in phase_after
  sent_in-Follows id msg (s, pending) = stays (replying id)
  sent_in-Follows id msg (s, ready (err error)) = cannot_reply id
  sent_in-Follows id msg (s, ready (ok x)) = started_in-Follows id (k.start_send s msg)

  flushed_in-Follows :
      (id : UniqueConnecId) (r : S × Poll (Result (Unit {0}) E))
      → Follows {V = V} {U = U} {I = I} {X = X} (replying id) (done (flushed_in id r))
  unfolding Follows flushed_in phase_after
  flushed_in-Follows id (s, pending) = stays (replying id)
  flushed_in-Follows id (s, ready (err error)) = cannot_reply id
  flushed_in-Follows id (s, ready (ok x)) = has_replied id

  out_closing-Follows :
      (r : S × Poll (Result (Unit {0}) E))
      → Follows {V = V} {U = U} {I = I} {X = X} leaving (done (closing out_closing r))
  unfolding Follows closing phase_after
  out_closing-Follows (s, pending) = stays leaving
  out_closing-Follows (s, ready x) = closes

  in_closing-Follows :
      (r : S × Poll (Result (Unit {0}) E))
      → Follows {V = V} {U = U} {I = I} {X = X} leaving (done (closing in_closing r))
  unfolding Follows closing phase_after
  in_closing-Follows (s, pending) = stays leaving
  in_closing-Follows (s, ready x) = closes

  advance_substream-Follows :
      (now : I) (s : SubstreamState S V U I E X) → Follows (phase s) (advance_substream now s)
  unfolding Follows advance_substream phase phase_after Concludes
  advance_substream-Follows now (out_pending_open msg u) = dials msg u
  advance_substream-Follows now (out_pending_send s msg u) = sent_out-Follows msg u (k.poll_ready s)
  advance_substream-Follows now (out_pending_flush s u) = flushed_out-Follows now u (k.poll_flush s)
  advance_substream-Follows now (out_waiting_answer s u instant) =
      answered-Follows u instant (k.poll_next s)
  advance_substream-Follows now (out_report_error error u) = reports u _ refl
  advance_substream-Follows now (out_closing s) = out_closing-Follows (k.poll_close s)
  advance_substream-Follows now (in_waiting_message id s) = received-Follows now id (k.poll_next s)
  advance_substream-Follows now (in_waiting_user id s) = stays (asked id)
  advance_substream-Follows now (in_pending_send id s msg) = sent_in-Follows id msg (k.poll_ready s)
  advance_substream-Follows now (in_pending_flush id s) = flushed_in-Follows id (k.poll_flush s)
  advance_substream-Follows now (in_closing s) = in_closing-Follows (k.poll_close s)

module _ {S V U I E X : Type 0} ⦃k : StreamSink S (PeerMessage V) E⦄ where
  advance_substream-PhaseStep :
      (now : I) (s : SubstreamState S V U I E X) (a : Advanced S V U I E X)
      → advance_substream now s ≡ done a
      → PhaseStep (phase s) a.1 (phase_after a.0)
  unfolding Follows
  advance_substream-PhaseStep now s a e =
      subst (Follows (phase s)) e (advance_substream-Follows S V U I E X now s)

  drive-zero :
      (now : I) (s : SubstreamState S V U I E X) (new_state : Option (SubstreamState S V U I E X))
      (event : Option (ProtocolsHandlerEvent V U I E X))
      → drive 0 now s ≡ returns (new_state, event)
      → ⊥
  unfolding drive
  drive-zero now s new_state event e = ground arith

  drive-stop :
      (fuel : ℕ) (now : I) (s : SubstreamState S V U I E X)
      (new_state : Option (SubstreamState S V U I E X))
      (event : Option (ProtocolsHandlerEvent V U I E X))
      → drive (suc fuel) now s ≡ returns (new_state, event)
      → ((again : Bool) × (advance_substream now s ≡ done (new_state, event, again)))
        ⊎ ((t : SubstreamState S V U I E X) × (advance_substream now s ≡ done (some t, none, true))
            × (drive fuel now t ≡ returns (new_state, event)))
  unfolding drive
  drive-stop fuel now s new_state event e = elim (Outcome-cases (advance_substream now s)) [
    | inl q ↦ absurd (ground arith)
    | inr ((some t, none, true), q) ↦ inr (t, q, ground arith)
    | inr ((n, x, again), q) ↦ inl (again, ground arith)
  ]

  -- The inner loop of a poll takes a substream through steps of the protocol of one substream: it
  -- ends in the phase that the protocol reaches, and of its steps only the last has an event, the
  -- event that the loop ends with.
  pub drive-PhaseRun :
      (fuel : ℕ) (now : I) (s : SubstreamState S V U I E X)
      (new_state : Option (SubstreamState S V U I E X))
      (event : Option (ProtocolsHandlerEvent V U I E X))
      → drive fuel now s ≡ returns (new_state, event)
      → PhaseRun (phase s) event (phase_after new_state)
  unfolding phase_after phase
  drive-PhaseRun zero now s new_state event e = absurd (drive-zero now s new_state event e)
  drive-PhaseRun (suc fuel) now s new_state event e =
      elim (drive-stop fuel now s new_state event e) [
        | inl (again, q) ↦ last (advance_substream-PhaseStep now s (new_state, event, again) q)
        | inr (t, q, rest) ↦
            more (advance_substream-PhaseStep now s (some t, none, true) q)
              (drive-PhaseRun fuel now t new_state event rest)
      ]
