-- ===== src/Connection/Steps.antt =====
-- What one step of a substream and the inner loop of the poll do: the loop ends, and no user data of
-- a request is lost.
use libp2p_bittorrent_protoc.Base.{
  ℕ, zero, suc, ◌+◌, ◌≤◌, ◌≡◌, refl, inl, inr, true, Option, none, some, Result, ok, done, panic,
  Outcome-cases, Poll, ready, returns, panics, exhausted, arith, ◌==◌, if◌then◌else◌,
}
use libp2p_bittorrent_protoc.Crates.StreamSink.{StreamSink}
use libp2p_bittorrent_protoc.Wire.Message.{PeerMessage}
use libp2p_bittorrent_protoc.Connection.Events.{
  UniqueConnecId, BitTorrentHandlerEvent, ProtocolsHandlerEvent, outbound_substream_request, custom,
}
use libp2p_bittorrent_protoc.Connection.{
  SubstreamState, out_pending_open, out_pending_send, out_pending_flush, out_waiting_answer,
  out_report_error, in_waiting_message, in_waiting_user, in_pending_send, in_pending_flush,
}
use libp2p_bittorrent_protoc.Connection.Advance.{
  Advanced, process_btt_in, process_btt_out, answered, received, advance_substream, drive,
  loop_fuel,
}

abbrev pub of_option : {A : Type 0} → (A → ℕ) → Option A → ℕ
of_option f none = 0
of_option f (some a) = f a

module _ {V U I E X : Type 0} where
  -- the weight of the user data that an event hands back
  abbrev pub returned : (U → ℕ) → BitTorrentHandlerEvent V U I E X → ℕ
  returned w (BitTorrentHandlerEvent.handshake_res handshake u) = w u
  returned w (BitTorrentHandlerEvent.bitfield_res index_field u) = w u
  returned w (BitTorrentHandlerEvent.get_piece_res piece u) = w u
  returned w (BitTorrentHandlerEvent.torrent_err error u) = of_option w u
  returned w _ = 0

  -- a request of a substream carries the user data to the dial
  abbrev pub carried : (U → ℕ) → ProtocolsHandlerEvent V U I E X → ℕ
  carried w (outbound_substream_request msg u) = of_option w u
  carried w (custom event) = returned w event

module _ {S V U I E X : Type 0} where
  -- the weight of the user data that a substream holds
  unfoldable pub owed : (U → ℕ) → SubstreamState S V U I E X → ℕ
  owed w (out_pending_open msg u) = of_option w u
  owed w (out_pending_send s msg u) = of_option w u
  owed w (out_pending_flush s u) = of_option w u
  owed w (out_waiting_answer s u instant) = w u
  owed w (out_report_error error u) = w u
  owed w _ = 0

  -- 1 for an inbound substream of the identifier
  unfoldable pub numbered : UniqueConnecId → SubstreamState S V U I E X → ℕ
  numbered n (in_waiting_message id s) = if id == n then 1 else 0
  numbered n (in_waiting_user id s) = if id == n then 1 else 0
  numbered n (in_pending_send id s msg) = if id == n then 1 else 0
  numbered n (in_pending_flush id s) = if id == n then 1 else 0
  numbered n _ = 0

  -- the steps that a substream can take before it waits or ends
  unfoldable pub rank : SubstreamState S V U I E X → ℕ
  rank (out_pending_send s msg u) = 3
  rank (out_pending_flush s u) = 2
  rank (in_pending_send id s msg) = 3
  rank (in_pending_flush id s) = 2
  rank _ = 1

module _ {S V U I E X : Type 0} ⦃k : StreamSink S (PeerMessage V) E⦄ where
  -- A step keeps the user data in the substream or hands it over.
  pub advance_substream-owed :
      (w : U → ℕ) (now : I) (s : SubstreamState S V U I E X) (a : Advanced S V U I E X)
      → advance_substream now s ≡ done a
      → owed w s ≡ of_option (owed w) a.0 + of_option (carried w) a.1
  unfolding advance_substream owed
  advance_substream-owed w now s a h = ground arith

  -- A step keeps the identifier of an inbound substream.
  advance_substream-numbered :
      (n : UniqueConnecId) (now : I) (s : SubstreamState S V U I E X) (a : Advanced S V U I E X)
      → advance_substream now s ≡ done a
      → of_option (numbered n) a.0 ≤ numbered n s
  unfolding advance_substream numbered
  advance_substream-numbered n now s a h = ground arith

  -- A step that asks to be polled again without an event comes closer to a wait.
  advance_substream-rank :
      (now : I) (s s' : SubstreamState S V U I E X)
      → advance_substream now s ≡ done (some s', none, true)
      → rank s' + 1 ≤ rank s
  unfolding advance_substream rank
  advance_substream-rank now s s' h = ground arith

  rank_pos : (s : SubstreamState S V U I E X) → 1 ≤ rank s
  unfolding rank
  rank_pos s = ground arith

  drive_ends :
      (fuel : ℕ) (now : I) (s : SubstreamState S V U I E X)
      → rank s ≤ fuel
      → drive fuel now s ≡ exhausted
      → ⊥
  unfolding drive
  drive_ends zero now s h e = ground (arith, rank_pos s)
  drive_ends (suc fuel) now s h e = elim (Outcome-cases (advance_substream now s)) [
    | inl q ↦ ground arith
    | inr ((some t, none, true), q) ↦
        ground (arith, advance_substream-rank now s t q, drive_ends fuel now t)
    | inr (a, q) ↦ ground arith
  ]

  pub drive-loop_fuel :
      (now : I) (s : SubstreamState S V U I E X) → drive loop_fuel now s ≡ exhausted → ⊥
  unfolding rank
  drive-loop_fuel now s e = drive_ends 3 now s (ground arith) e

  pub drive-owed :
      (w : U → ℕ) (fuel : ℕ) (now : I) (s : SubstreamState S V U I E X)
      (new_state : Option (SubstreamState S V U I E X))
      (event : Option (ProtocolsHandlerEvent V U I E X))
      → drive fuel now s ≡ returns (new_state, event)
      → owed w s ≡ of_option (owed w) new_state + of_option (carried w) event
  unfolding drive
  drive-owed w zero now s new_state event h = ground arith
  drive-owed w (suc fuel) now s new_state event h = elim (Outcome-cases (advance_substream now s)) [
    | inl q ↦ ground arith
    | inr ((some t, none, true), q) ↦ ground (
      arith,
      advance_substream-owed w now s (some t, none, true) q,
      drive-owed w fuel now t new_state event,
    )
    | inr (a, q) ↦ ground (arith, advance_substream-owed w now s a q)
  ]

  pub drive-numbered :
      (n : UniqueConnecId) (fuel : ℕ) (now : I) (s : SubstreamState S V U I E X)
      (new_state : Option (SubstreamState S V U I E X))
      (event : Option (ProtocolsHandlerEvent V U I E X))
      → drive fuel now s ≡ returns (new_state, event)
      → of_option (numbered n) new_state ≤ numbered n s
  unfolding drive
  drive-numbered n zero now s new_state event h = ground arith
  drive-numbered n (suc fuel) now s new_state event h =
      elim (Outcome-cases (advance_substream now s)) [
        | inl q ↦ ground arith
        | inr ((some t, none, true), q) ↦ ground (
          arith,
          advance_substream-numbered n now s (some t, none, true) q,
          drive-numbered n fuel now t new_state event,
        )
        | inr (a, q) ↦ ground (arith, advance_substream-numbered n now s a q)
      ]

  answered-panic :
      (user_data : U) (instant : I) (s : S) (answer : Poll (Option (Result (PeerMessage V) E)))
      → answered {X = X} user_data instant (s, answer) ≡ panic
      → (p : ℕ) × (answer ≡ ready (some (ok (PeerMessage.port p))))
  unfolding answered process_btt_out
  answered-panic user_data instant s (ready (some (ok (PeerMessage.port p)))) e = (p, refl)
  answered-panic user_data instant s _ e = ground arith

  received-panic :
      (now : I) (id : UniqueConnecId) (s : S) (message : Poll (Option (Result (PeerMessage V) E)))
      → received {U = U} {X = X} now id (s, message) ≡ panic
      → (p : ℕ) × (message ≡ ready (some (ok (PeerMessage.port p))))
  unfolding received process_btt_in
  received-panic now id s (ready (some (ok (PeerMessage.port p)))) e = (p, refl)
  received-panic now id s _ e = ground arith

  advance_substream-panic :
      ((s : S) (p : ℕ) → (k.poll_next s).1 ≡ ready (some (ok (PeerMessage.port p))) → ⊥)
      → (now : I) (s : SubstreamState S V U I E X) → advance_substream now s ≡ panic
      → ⊥
  unfolding advance_substream
  advance_substream-panic no_port now (out_waiting_answer s user_data instant) e =
      let (p, h) = answered-panic user_data instant (k.poll_next s).0 (k.poll_next s).1 e in
      no_port s p h
  advance_substream-panic no_port now (in_waiting_message id s) e =
      let (p, h) = received-panic now id (k.poll_next s).0 (k.poll_next s).1 e in no_port s p h
  advance_substream-panic no_port now _ e = ground arith

  -- A substream panics only where it delivers a port message.
  pub drive-panics :
      ((s : S) (p : ℕ) → (k.poll_next s).1 ≡ ready (some (ok (PeerMessage.port p))) → ⊥)
      → (fuel : ℕ) (now : I) (s : SubstreamState S V U I E X) → drive fuel now s ≡ panics
      → ⊥
  unfolding drive
  drive-panics no_port zero now s e = ground arith
  drive-panics no_port (suc fuel) now s e = elim (Outcome-cases (advance_substream now s)) [
    | inl q ↦ advance_substream-panic no_port now s q
    | inr ((some t, none, true), q) ↦ ground (arith, drive-panics no_port fuel now t)
    | inr (a, q) ↦ ground arith
  ]
