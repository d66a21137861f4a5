-- ===== src/Connection/Polls.antt =====
-- The poll of a handler: it returns, and what it does to the user data and the identifiers of the
-- substreams.
use libp2p_bittorrent_protoc.Base.{
  ℕ, zero, suc, ◌+◌, ◌≤◌, ◌≡◌, ◌≢◌, ◌⊎◌, inl, inr, List, [], ◌∷◌, Option, none, some, Option-cases,
  ok, Poll, pending, ready, returns, panics, exhausted, Run-cases, arith, length,
}
use libp2p_bittorrent_protoc.Base.Vec.{swap_remove}
use libp2p_bittorrent_protoc.Base.Vec.Totals.{
  total, total-push, total-length, total-swap_remove, swap_remove-lt,
}
use libp2p_bittorrent_protoc.Crates.Instant.{Instant}
use libp2p_bittorrent_protoc.Crates.StreamSink.{StreamSink}
use libp2p_bittorrent_protoc.Wire.Message.{PeerMessage}
use libp2p_bittorrent_protoc.Connection.Events.{UniqueConnecId, ProtocolsHandlerEvent}
use libp2p_bittorrent_protoc.Connection.{SubstreamState, BitTorrentHandler, until, yes}
use libp2p_bittorrent_protoc.Connection.Advance.{drive, loop_fuel, push_some, poll_substreams, poll}
use libp2p_bittorrent_protoc.Connection.Steps.{
  of_option, owed, carried, numbered, drive-loop_fuel, drive-owed, drive-numbered, drive-panics,
}

total-push_some :
    {A : Type 0} (f : A → ℕ) (xs : List A) (o : Option A)
    → total f (push_some xs o) ≡ total f xs + of_option f o
total-push_some f xs none = omega arith
total-push_some f xs (some x) = total-push f xs x

-- what `poll` reports
abbrev pub of_poll : {A : Type 0} → (A → ℕ) → Poll A → ℕ
of_poll f pending = 0
of_poll f (ready a) = f a

module _ {S V U I E X : Type 0} ⦃k : StreamSink S (PeerMessage V) E⦄ where
  -- the inner loops always end, since each has enough fuel
  poll_substreams-exhausted :
      (clock : ℕ → I) (n : ℕ) (substreams : List (SubstreamState S V U I E X))
      → poll_substreams clock n substreams ≡ exhausted
      → ⊥
  unfolding poll_substreams
  poll_substreams-exhausted clock zero substreams e = ground arith
  poll_substreams-exhausted clock (suc n) substreams e =
      elim (Option-cases (swap_remove substreams n)) [
        | inl q ↦ ground arith
        | inr ((s, others), q) ↦ elim (Run-cases (drive loop_fuel (clock n) s)) [
          | inl z ↦ ground arith
          | inr (inl z) ↦ drive-loop_fuel (clock n) s z
          | inr (inr ((t, some event), z)) ↦ ground arith
          | inr (inr ((t, none), z)) ↦
              ground (arith, poll_substreams-exhausted clock n (push_some others t))
        ]
      ]

  poll_substreams-owed :
      (w : U → ℕ) (clock : ℕ → I) (n : ℕ) (substreams left : List (SubstreamState S V U I E X))
      (event : Option (ProtocolsHandlerEvent V U I E X))
      → poll_substreams clock n substreams ≡ returns (left, event)
      → total (owed w) substreams ≡ total (owed w) left + of_option (carried w) event
  unfolding poll_substreams
  poll_substreams-owed w clock zero substreams left event e = ground arith
  poll_substreams-owed w clock (suc n) substreams left event e =
      elim (Option-cases (swap_remove substreams n)) [
        | inl q ↦ ground arith
        | inr ((s, others), q) ↦ elim (Run-cases (drive loop_fuel (clock n) s)) [
          | inl z ↦ ground arith
          | inr (inl z) ↦ ground arith
          | inr (inr ((t, some event'), z)) ↦ ground (
            arith,
            total-swap_remove (owed w) substreams n s others q,
            drive-owed w loop_fuel (clock n) s t (some event') z,
            total-push_some (owed w) others t,
          )
          | inr (inr ((t, none), z)) ↦ ground (
            arith,
            total-swap_remove (owed w) substreams n s others q,
            drive-owed w loop_fuel (clock n) s t none z,
            total-push_some (owed w) others t,
            poll_substreams-owed w clock n (push_some others t) left event,
          )
        ]
      ]

  poll_substreams-numbered :
      (i : UniqueConnecId) (clock : ℕ → I) (n : ℕ)
      (substreams left : List (SubstreamState S V U I E X))
      (event : Option (ProtocolsHandlerEvent V U I E X))
      → poll_substreams clock n substreams ≡ returns (left, event)
      → total (numbered i) left ≤ total (numbered i) substreams
  unfolding poll_substreams
  poll_substreams-numbered i clock zero substreams left event e = ground arith
  poll_substreams-numbered i clock (suc n) substreams left event e =
      elim (Option-cases (swap_remove substreams n)) [
        | inl q ↦ ground arith
        | inr ((s, others), q) ↦ elim (Run-cases (drive loop_fuel (clock n) s)) [
          | inl z ↦ ground arith
          | inr (inl z) ↦ ground arith
          | inr (inr ((t, some event'), z)) ↦ ground (
            arith,
            total-swap_remove (numbered i) substreams n s others q,
            drive-numbered i loop_fuel (clock n) s t (some event') z,
            total-push_some (numbered i) others t,
          )
          | inr (inr ((t, none), z)) ↦ ground (
            arith,
            total-swap_remove (numbered i) substreams n s others q,
            drive-numbered i loop_fuel (clock n) s t none z,
            total-push_some (numbered i) others t,
            poll_substreams-numbered i clock n (push_some others t) left event,
          )
        ]
      ]

  -- the positions that the loop has left are in bounds
  others-length :
      (substreams others : List (SubstreamState S V U I E X)) (n : ℕ)
      (s : SubstreamState S V U I E X) (t : Option (SubstreamState S V U I E X))
      → suc n ≤ length substreams
      → swap_remove substreams n ≡ some (s, others)
      → n ≤ length (push_some others t)
  others-length substreams others n s t h q = ground (
    arith,
    total-length substreams,
    total-length (push_some others t),
    total-length others,
    total-push_some (λ x. 1) others t,
    total-swap_remove (λ x. 1) substreams n s others q,
  )

  poll_substreams-panics :
      ((s : S) (p : ℕ) → (k.poll_next s).1 ≡ ready (some (ok (PeerMessage.port p))) → ⊥)
      → (clock : ℕ → I) (n : ℕ) (substreams : List (SubstreamState S V U I E X))
      → n ≤ length substreams
      → poll_substreams clock n substreams ≡ panics
      → ⊥
  unfolding poll_substreams
  poll_substreams-panics no_port clock zero substreams h e = ground arith
  poll_substreams-panics no_port clock (suc n) substreams h e =
      elim (Option-cases (swap_remove substreams n)) [
        | inl q ↦ swap_remove-lt substreams n h q
        | inr ((s, others), q) ↦ elim (Run-cases (drive loop_fuel (clock n) s)) [
          | inl z ↦ drive-panics no_port loop_fuel (clock n) s z
          | inr (inl z) ↦ ground arith
          | inr (inr ((t, some event), z)) ↦ ground arith
          | inr (inr ((t, none), z)) ↦
              poll_substreams-panics no_port clock n (push_some others t)
                (others-length substreams others n s t h q) (ground arith)
        ]
      ]

  module _ ⦃i : Instant I⦄ where
    -- Where no substream delivers a port message, a poll returns.
    pub poll_returns :
        ((s : S) (p : ℕ) → (k.poll_next s).1 ≡ ready (some (ok (PeerMessage.port p))) → ⊥)
        → (clock : ℕ → I) (now : I) (h : BitTorrentHandler S V U I E X)
        → (result : BitTorrentHandler S V U I E X × Poll (ProtocolsHandlerEvent V U I E X)) × (poll
              clock now h
            ≡ returns result)
    unfolding poll
    poll_returns no_port clock now h =
        elim (Run-cases (poll_substreams clock (length h.substreams) h.substreams)) [
          | inl z ↦ absurd (
              poll_substreams-panics no_port clock (length h.substreams) h.substreams (omega arith)
                z)
          | inr (inl z) ↦
              absurd (poll_substreams-exhausted clock (length h.substreams) h.substreams z)
          | inr (inr ((substreams, some event), z)) ↦
              ((record h { substreams = substreams }, ready event), ground arith)
          | inr (inr (([], none), z)) ↦ (
            (record h { substreams = []; keep_alive = until (i.add_secs now 20) }, pending),
            ground arith,
          )
          | inr (inr ((s ∷ rest, none), z)) ↦
              ((record h { substreams = s ∷ rest; keep_alive = yes }, pending), ground arith)
        ]

    poll-substreams :
        (clock : ℕ → I) (now : I) (h h' : BitTorrentHandler S V U I E X)
        (answer : Poll (ProtocolsHandlerEvent V U I E X))
        → poll clock now h ≡ returns (h', answer)
        → poll_substreams clock (length h.substreams) h.substreams
          ≡ returns (h'.substreams, elim answer [ pending ↦ none | ready event ↦ some event ])
    unfolding poll
    poll-substreams clock now h h' answer e =
        elim (Run-cases (poll_substreams clock (length h.substreams) h.substreams)) [
          | inl z ↦ ground arith
          | inr (inl z) ↦ ground arith
          | inr (inr ((substreams, some event), z)) ↦ ground arith
          | inr (inr (([], none), z)) ↦ ground arith
          | inr (inr ((s ∷ rest, none), z)) ↦ ground arith
        ]

    -- A poll that returns loses and duplicates no user data: what the substreams held before it, by
    -- any weight of user data, is what they hold after it and what the event carries.
    pub poll-owed :
        (w : U → ℕ) (clock : ℕ → I) (now : I) (h h' : BitTorrentHandler S V U I E X)
        (answer : Poll (ProtocolsHandlerEvent V U I E X))
        → poll clock now h ≡ returns (h', answer)
        → total (owed w) h.substreams ≡ total (owed w) h'.substreams + of_poll (carried w) answer
    poll-owed w clock now h h' answer e = ground (
      arith,
      poll_substreams-owed w clock (length h.substreams) h.substreams h'.substreams
          (elim answer [ pending ↦ none | ready event ↦ some event ])
          (poll-substreams clock now h h' answer e),
    )

    -- A poll that returns pending has kept the connection alive: without end while there are
    -- substreams, and for twenty seconds more where there are none.
    pub poll-pending :
        (clock : ℕ → I) (now : I) (h h' : BitTorrentHandler S V U I E X)
        → poll clock now h ≡ returns (h', pending)
        → ((h'.substreams ≡ []) × (h'.keep_alive ≡ until (i.add_secs now 20)))
          ⊎ ((h'.substreams ≢ []) × (h'.keep_alive ≡ yes))
    unfolding poll
    poll-pending clock now h h' e =
        elim (Run-cases (poll_substreams clock (length h.substreams) h.substreams)) [
          | inl z ↦ ground arith
          | inr (inl z) ↦ ground arith
          | inr (inr ((substreams, some event), z)) ↦ ground arith
          | inr (inr (([], none), z)) ↦ inl (ground arith)
          | inr (inr ((s ∷ rest, none), z)) ↦ inr (ground arith)
        ]

    pub poll-numbered :
        (n : UniqueConnecId) (clock : ℕ → I) (now : I) (h h' : BitTorrentHandler S V U I E X)
        (answer : Poll (ProtocolsHandlerEvent V U I E X))
        → poll clock now h ≡ returns (h', answer)
        → total (numbered n) h'.substreams ≤ total (numbered n) h.substreams
    poll-numbered n clock now h h' answer e =
        poll_substreams-numbered n clock (length h.substreams) h.substreams h'.substreams
          (elim answer [ pending ↦ none | ready event ↦ some event ])
          (poll-substreams clock now h h' answer e)

    pub poll-next_connec_unique_id :
        (clock : ℕ → I) (now : I) (h h' : BitTorrentHandler S V U I E X)
        (answer : Poll (ProtocolsHandlerEvent V U I E X))
        → poll clock now h ≡ returns (h', answer)
        → h'.next_connec_unique_id ≡ h.next_connec_unique_id
    unfolding poll
    poll-next_connec_unique_id clock now h h' answer e =
        elim (Run-cases (poll_substreams clock (length h.substreams) h.substreams)) [
          | inl z ↦ ground arith
          | inr (inl z) ↦ ground arith
          | inr (inr ((substreams, some event), z)) ↦ ground arith
          | inr (inr (([], none), z)) ↦ ground arith
          | inr (inr ((s ∷ rest, none), z)) ↦ ground arith
        ]
