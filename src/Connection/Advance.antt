-- ===== src/Connection/Advance.antt =====
-- `src/handler.rs`: one step of a substream, and the poll of the handler.
use libp2p_bittorrent_protoc.Base.{
  ℕ, zero, suc, Bool, true, false, List, [], ◌∷◌, Option, none, some, Result, ok, err, Outcome,
  done, panic, Poll, pending, ready, Run, returns, panics, exhausted, length,
}
use libp2p_bittorrent_protoc.Base.Vec.{push, swap_remove}
use libp2p_bittorrent_protoc.Crates.Instant.{Instant}
use libp2p_bittorrent_protoc.Crates.StreamSink.{StreamSink}
use libp2p_bittorrent_protoc.Wire.Message.{PeerMessage}
use libp2p_bittorrent_protoc.Peer.State.{choked, un_choked, interested, not_interested}
use libp2p_bittorrent_protoc.Connection.Events.{
  UniqueConnecId, BitTorrentHandlerEvent, ProtocolsHandlerEvent, outbound_substream_request, custom,
  io, unexpected_message,
}
use libp2p_bittorrent_protoc.Connection.{
  SubstreamState, out_pending_open, out_pending_send, out_pending_flush, out_waiting_answer,
  out_report_error, out_closing, in_waiting_message, in_waiting_user, in_pending_send,
  in_pending_flush, in_closing, BitTorrentHandler, until, yes,
}

module _ {V U I E X : Type 0} where
  -- `now` is the instant of the call. For a port message the source panics, by `unimplemented!`.
  unfoldable pub process_btt_in :
      I → PeerMessage V → UniqueConnecId → Outcome (BitTorrentHandlerEvent V U I E X)
  process_btt_in now (PeerMessage.handshake handshake) connec_unique_id =
      done (BitTorrentHandlerEvent.handshake_req handshake connec_unique_id)
  process_btt_in now (PeerMessage.bitfield index_field) connec_unique_id =
      done (BitTorrentHandlerEvent.bitfield_req index_field connec_unique_id)
  process_btt_in now PeerMessage.keep_alive connec_unique_id =
      done (BitTorrentHandlerEvent.keep_alive now)
  process_btt_in now PeerMessage.choke connec_unique_id = done (BitTorrentHandlerEvent.choke choked)
  process_btt_in now PeerMessage.un_choke connec_unique_id =
      done (BitTorrentHandlerEvent.choke un_choked)
  process_btt_in now PeerMessage.interested connec_unique_id =
      done (BitTorrentHandlerEvent.interest interested)
  process_btt_in now PeerMessage.not_interested connec_unique_id =
      done (BitTorrentHandlerEvent.interest not_interested)
  process_btt_in now (PeerMessage.have index) connec_unique_id =
      done (BitTorrentHandlerEvent.have index)
  process_btt_in now (PeerMessage.request request) connec_unique_id =
      done (BitTorrentHandlerEvent.get_piece_req request connec_unique_id)
  process_btt_in now (PeerMessage.cancel request) connec_unique_id =
      done (BitTorrentHandlerEvent.cancel_piece request connec_unique_id)
  process_btt_in now (PeerMessage.piece piece) connec_unique_id =
      done (BitTorrentHandlerEvent.torrent_err (unexpected_message (PeerMessage.piece piece)) none)
  process_btt_in now (PeerMessage.port port) connec_unique_id = panic

  -- the error that the arms of unexpected messages build
  abbrev pub unexpected : PeerMessage V → U → Outcome (BitTorrentHandlerEvent V U I E X)
  unexpected msg user_data =
      done (BitTorrentHandlerEvent.torrent_err (unexpected_message msg) (some user_data))

  unfoldable pub process_btt_out : PeerMessage V → U → Outcome (BitTorrentHandlerEvent V U I E X)
  process_btt_out PeerMessage.keep_alive user_data = unexpected PeerMessage.keep_alive user_data
  process_btt_out PeerMessage.choke user_data = unexpected PeerMessage.choke user_data
  process_btt_out PeerMessage.un_choke user_data = unexpected PeerMessage.un_choke user_data
  process_btt_out PeerMessage.interested user_data = unexpected PeerMessage.interested user_data
  process_btt_out PeerMessage.not_interested user_data =
      unexpected PeerMessage.not_interested user_data
  process_btt_out (PeerMessage.have index) user_data = unexpected (PeerMessage.have index) user_data
  process_btt_out (PeerMessage.bitfield index_field) user_data =
      done (BitTorrentHandlerEvent.bitfield_res index_field user_data)
  process_btt_out (PeerMessage.request request) user_data =
      unexpected (PeerMessage.request request) user_data
  process_btt_out (PeerMessage.cancel request) user_data =
      unexpected (PeerMessage.cancel request) user_data
  process_btt_out (PeerMessage.piece piece) user_data =
      done (BitTorrentHandlerEvent.get_piece_res piece user_data)
  process_btt_out (PeerMessage.handshake handshake) user_data =
      done (BitTorrentHandlerEvent.handshake_res handshake user_data)
  process_btt_out (PeerMessage.port port) user_data = panic

  -- the event of a request that an error of the substream ends
  unfoldable pub failed : E → Option U → Option (ProtocolsHandlerEvent V U I E X)
  failed error none = none
  failed error (some user_data) =
      some (custom (BitTorrentHandlerEvent.torrent_err (io error) (some user_data)))

-- the new state, the event, and whether to poll again
abbrev pub Advanced : (S V U I E X : Type 0) → Type 0
Advanced S V U I E X =
    Option (SubstreamState S V U I E X) × Option (ProtocolsHandlerEvent V U I E X) × Bool

module _ {S V U I E X : Type 0} ⦃k : StreamSink S (PeerMessage V) E⦄ where
  -- after the call of `start_send` for a message of ours
  unfoldable pub started_out : Option U → S × Result (Unit {0}) E → Advanced S V U I E X
  unfolding failed
  started_out user_data (s, ok _) = (some (out_pending_flush s user_data), none, true)
  started_out user_data (s, err error) = (none, failed error user_data, false)

  -- after the call of `poll_ready` for it
  unfoldable pub sent_out :
      PeerMessage V → Option U → S × Poll (Result (Unit {0}) E) → Advanced S V U I E X
  unfolding failed started_out
  sent_out msg user_data (s, pending) = (some (out_pending_send s msg user_data), none, false)
  sent_out msg user_data (s, ready (err error)) = (none, failed error user_data, false)
  sent_out msg user_data (s, ready (ok _)) = started_out user_data (k.start_send s msg)

  unfoldable pub flushed_out : I → Option U → S × Poll (Result (Unit {0}) E) → Advanced S V U I E X
  unfolding failed
  flushed_out now user_data (s, pending) = (some (out_pending_flush s user_data), none, false)
  flushed_out now user_data (s, ready (err error)) = (none, failed error user_data, false)
  flushed_out now none (s, ready (ok _)) = (some (out_closing s), none, true)
  flushed_out now (some user_data) (s, ready (ok _)) =
      (some (out_waiting_answer s user_data now), none, true)

  unfoldable pub answered :
      U → I → S × Poll (Option (Result (PeerMessage V) E)) → Outcome (Advanced S V U I E X)
  unfolding failed process_btt_out
  answered user_data instant (s, pending) =
      done (some (out_waiting_answer s user_data instant), none, false)
  answered user_data instant (s, ready none) =
      done (none, failed k.unexpected_eof (some user_data), false)
  answered user_data instant (s, ready (some (err error))) =
      done (none, failed error (some user_data), false)
  answered user_data instant (s, ready (some (ok msg))) = elim (process_btt_out msg user_data) [
    | panic ↦ panic
    | done event ↦ done (some (out_closing s), some (custom event), true)
  ]

  unfoldable pub received :
      I
      → UniqueConnecId
      → S × Poll (Option (Result (PeerMessage V) E))
      → Outcome (Advanced S V U I E X)
  unfolding process_btt_in
  received now id (s, pending) = done (some (in_waiting_message id s), none, false)
  received now id (s, ready none) = done (none, none, false)
  received now id (s, ready (some (err error))) = done (none, none, false)
  received now id (s, ready (some (ok msg))) = elim (process_btt_in now msg id) [
    | panic ↦ panic
    | done event ↦ done (some (in_waiting_user id s), some (custom event), false)
  ]

  -- after the call of `start_send` for an answer
  unfoldable pub started_in : UniqueConnecId → S × Result (Unit {0}) E → Advanced S V U I E X
  started_in id (s, ok _) = (some (in_pending_flush id s), none, true)
  started_in id (s, err error) = (none, none, false)

  -- after the call of `poll_ready` for it
  unfoldable pub sent_in :
      UniqueConnecId → PeerMessage V → S × Poll (Result (Unit {0}) E) → Advanced S V U I E X
  unfolding started_in
  sent_in id msg (s, pending) = (some (in_pending_send id s msg), none, false)
  sent_in id msg (s, ready (err error)) = (none, none, false)
  sent_in id msg (s, ready (ok _)) = started_in id (k.start_send s msg)

  unfoldable pub flushed_in : UniqueConnecId → S × Poll (Result (Unit {0}) E) → Advanced S V U I E X
  flushed_in id (s, pending) = (some (in_pending_flush id s), none, false)
  flushed_in id (s, ready (err error)) = (none, none, false)
  flushed_in id (s, ready (ok _)) = (some (in_waiting_message id s), none, true)

  unfoldable pub closing :
      (S → SubstreamState S V U I E X) → S × Poll (Result (Unit {0}) E) → Advanced S V U I E X
  closing state (s, pending) = (some (state s), none, false)
  closing state (s, ready result) = (none, none, false)

  -- `now` is the instant of the call of `Instant::now()` in it.
  unfoldable pub advance_substream : I → SubstreamState S V U I E X → Outcome (Advanced S V U I E X)
  unfolding sent_out flushed_out answered received sent_in flushed_in closing
  advance_substream now (out_pending_open msg user_data) =
      done (none, some (outbound_substream_request msg user_data), false)
  advance_substream now (out_pending_send s msg user_data) =
      done (sent_out msg user_data (k.poll_ready s))
  advance_substream now (out_pending_flush s user_data) =
      done (flushed_out now user_data (k.poll_flush s))
  advance_substream now (out_waiting_answer s user_data instant) =
      answered user_data instant (k.poll_next s)
  advance_substream now (out_report_error error user_data) =
      done (none, some (custom (BitTorrentHandlerEvent.torrent_err error (some user_data))), false)
  advance_substream now (out_closing s) = done (closing out_closing (k.poll_close s))
  advance_substream now (in_waiting_message id s) = received now id (k.poll_next s)
  advance_substream now (in_waiting_user id s) = done (some (in_waiting_user id s), none, false)
  advance_substream now (in_pending_send id s msg) = done (sent_in id msg (k.poll_ready s))
  advance_substream now (in_pending_flush id s) = done (flushed_in id (k.poll_flush s))
  advance_substream now (in_closing s) = done (closing in_closing (k.poll_close s))

  -- The inner loop, on fuel: what becomes of the substream, and the event that it ends with.
  unfoldable pub drive :
      ℕ
      → I
      → SubstreamState S V U I E X
      → Run (Option (SubstreamState S V U I E X) × Option (ProtocolsHandlerEvent V U I E X))
  unfolding advance_substream
  drive zero now substream = exhausted
  drive (suc fuel) now substream = elim (advance_substream now substream) [
    | panic ↦ panics
    | done (new_state, some event, again) ↦ returns (new_state, some event)
    | done (some new_state, none, false) ↦ returns (some new_state, none)
    | done (some new_state, none, true) ↦ drive fuel now new_state
    | done (none, none, again) ↦ returns (none, none)
  ]

-- one more than the steps that a substream can take without an event or a wait
abbrev pub loop_fuel : ℕ
loop_fuel = 3

-- the substream that is put back
abbrev pub push_some : {A : Type 0} → List A → Option A → List A
push_some xs none = xs
push_some xs (some x) = push xs x

module _ {S V U I E X : Type 0} ⦃k : StreamSink S (PeerMessage V) E⦄ where
  -- The outer loop, for the positions below `n`, from the last on. `clock` is what
  -- `Instant::now()` gives for a position. `swap_remove` panics out of bounds.
  unfoldable pub poll_substreams :
      (ℕ → I)
      → ℕ
      → List (SubstreamState S V U I E X)
      → Run (List (SubstreamState S V U I E X) × Option (ProtocolsHandlerEvent V U I E X))
  unfolding drive
  poll_substreams clock zero substreams = returns (substreams, none)
  poll_substreams clock (suc n) substreams = elim (swap_remove substreams n) [
    | none ↦ panics
    | some (substream, others) ↦ elim (drive loop_fuel (clock n) substream) [
      | panics ↦ panics
      | exhausted ↦ exhausted
      | returns (new_state, some event) ↦ returns (push_some others new_state, some event)
      | returns (new_state, none) ↦ poll_substreams clock n (push_some others new_state)
    ]
  ]

  -- `now` is the instant of the call after the loop.
  unfoldable pub poll :
      ⦃i : Instant I⦄
      → (ℕ → I)
      → I
      → BitTorrentHandler S V U I E X
      → Run (BitTorrentHandler S V U I E X × Poll (ProtocolsHandlerEvent V U I E X))
  unfolding poll_substreams
  poll ⦃i⦄ clock now h = elim (poll_substreams clock (length h.substreams) h.substreams) [
    | panics ↦ panics
    | exhausted ↦ exhausted
    | returns (substreams, some event) ↦ returns (record h { substreams = substreams }, ready event)
    | returns ([], none) ↦
        returns (record h { substreams = []; keep_alive = until (i.add_secs now 20) }, pending)
    | returns (s ∷ rest, none) ↦
        returns (record h { substreams = s ∷ rest; keep_alive = yes }, pending)
  ]
