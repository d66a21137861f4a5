-- ===== src/Connection/Answers.antt =====
-- The answers that are injected into a handler: each goes to the substream that waits for it.
use libp2p_bittorrent_protoc.Base.{
  ℕ, ◌≤◌, ◌≡◌, refl, inl, inr, ◌⊎◌, true, List, [], ◌∷◌, none, some, Option-cases, done, arith,
  get_elem?, if◌then◌else◌,
}
use libp2p_bittorrent_protoc.Base.Vec.{push, position, remove_at}
use libp2p_bittorrent_protoc.Base.Vec.Totals.{total, total-push, total-remove_at, position-some}
use libp2p_bittorrent_protoc.Wire.Message.{PeerMessage}
use libp2p_bittorrent_protoc.Connection.Events.{UniqueConnecId, BitTorrentRequestId}
use libp2p_bittorrent_protoc.Connection.{
  SubstreamState, in_waiting_user, in_pending_send, BitTorrentHandler, is_waiting_user, with_answer,
  answer,
}
use libp2p_bittorrent_protoc.Connection.Steps.{numbered}

module _ {S V U I E X : Type 0} where
  is_waiting_user_lem :
      (id : BitTorrentRequestId) (s : SubstreamState S V U I E X)
      → is_waiting_user id s ≡ true
      → (stream : S) × (s ≡ in_waiting_user id stream)
  unfolding is_waiting_user
  is_waiting_user_lem id (in_waiting_user n stream) h = (stream, ground arith)
  is_waiting_user_lem id _ h = absurd (ground arith)

  -- Where no substream waits for the answer it is dropped; otherwise one that waits sends it, in
  -- place of its wait. `unreachable!` is not reached.
  pub answer_lem :
      (msg : PeerMessage V) (id : BitTorrentRequestId) (h : BitTorrentHandler S V U I E X)
      → ((position (is_waiting_user id) h.substreams ≡ none) × (answer msg id h ≡ done h))
        ⊎ ((pos : ℕ) × (stream : S) × (get_elem? h.substreams pos
              ≡ some (in_waiting_user id stream))
            × (answer msg id h
                ≡ done (record h {
                  substreams = push (remove_at h.substreams pos) (in_pending_send id stream msg);
                })))
  unfolding answer with_answer
  answer_lem msg id h = elim (Option-cases (position (is_waiting_user id) h.substreams)) [
    | inl q ↦ inl (q, ground arith)
    | inr (pos, q) ↦
        let (s, found, waits) = position-some (is_waiting_user id) h.substreams pos q in
        let (stream, e) = is_waiting_user_lem id s waits in
        inr (pos, stream, ground arith, ground arith)
  ]

  -- the substreams that wait for the answer to a request
  abbrev pub waits : BitTorrentRequestId → SubstreamState S V U I E X → ℕ
  waits id s = if is_waiting_user id s then 1 else 0

  total-waits :
      (id : BitTorrentRequestId) (l : List (SubstreamState S V U I E X))
      → total (waits id) l ≤ total (numbered id) l
  unfolding total is_waiting_user numbered
  total-waits id [] = omega arith
  total-waits id (s ∷ l) = ground (arith, total-waits id l)

  pub position-total :
      (id : BitTorrentRequestId) (l : List (SubstreamState S V U I E X))
      → total (waits id) l ≡ 0
      → position (is_waiting_user id) l ≡ none
  unfolding total
  position-total id [] h = refl
  position-total id (s ∷ l) h = ground (arith, position-total id l)

  none-total :
      (id : BitTorrentRequestId) (l : List (SubstreamState S V U I E X))
      → position (is_waiting_user id) l ≡ none
      → total (waits id) l ≡ 0
  unfolding total
  none-total id [] h = refl
  none-total id (s ∷ l) h = ground (arith, none-total id l)

  -- Identifiers are distinct, and below the next one.
  unfoldable pub IsNumbered : BitTorrentHandler S V U I E X → Type 0
  IsNumbered h =
      (n : UniqueConnecId)
      → (total (numbered n) h.substreams ≤ 1)
        × (h.next_connec_unique_id ≤ n → total (numbered n) h.substreams ≡ 0)

  pub answer-none :
      (msg : PeerMessage V) (id : BitTorrentRequestId) (h : BitTorrentHandler S V U I E X)
      → position (is_waiting_user id) h.substreams ≡ none
      → answer msg id h ≡ done h
  unfolding answer
  answer-none msg id h e = ground arith

  -- after an answer no substream waits for one
  pub answer-waits :
      (msg : PeerMessage V) (id : BitTorrentRequestId) (h h' : BitTorrentHandler S V U I E X)
      → IsNumbered h
      → answer msg id h ≡ done h'
      → total (waits id) h'.substreams ≡ 0
  unfolding is_waiting_user IsNumbered
  answer-waits msg id h h' numbers e = elim (answer_lem msg id h) [
    | inl (q, z) ↦ ground (arith, none-total id h.substreams q)
    | inr (pos, stream, found, z) ↦ ground (
      arith,
      (numbers id).0,
      total-waits id h.substreams,
      total-remove_at (waits id) h.substreams pos (in_waiting_user id stream) found,
      total-push (waits id) (remove_at h.substreams pos) (in_pending_send id stream msg),
    )
  ]
