-- ===== src/Peer/Buffer/Runs.antt =====
-- Whole downloads: any interleaving of events, and a download from peers that answer.
use libp2p_bittorrent_protoc.Base.{
  ℕ, zero, suc, ◌≤◌, ◌<◌, ◌≡◌, refl, ap, ◌∙◌, inl, inr, List, [], none, some, ok, arith, length, Eq,
  same_iff, same_refl, Option-cases, true,
}
use libp2p_bittorrent_protoc.Base.Map.{get, insert, remove, values}
use libp2p_bittorrent_protoc.Base.Vec.{
  count, push, pop, pop-none, count-push, length-pop, length-push,
}
use libp2p_bittorrent_protoc.Disk.Block.{
  BlockMetadata, Block, eq_metadata_iff, is_correct_len, new_metadata,
}
use libp2p_bittorrent_protoc.Peer.Buffer.{
  PieceBuffer, layout, new, next, add_block, remove_peer, insert_block, is_full_piece,
  try_finalize_piece,
}
use libp2p_bittorrent_protoc.Peer.Buffer.Tracked.{
  IsTracked, roles, new-IsTracked, next-IsTracked, remove_peer-IsTracked,
}
use libp2p_bittorrent_protoc.Peer.Buffer.Accept.{add_block-IsTracked}
use libp2p_bittorrent_protoc.Peer.Buffer.Data.{
  IsCorrect, Placed, insert_block-IsCorrect, try_finalize_piece-ok,
}

module _ {P : Type 0} ⦃e : Eq P⦄ where
  -- What can happen to a buffer. A peer joins only if it has no role yet.
  pub data Step : PieceBuffer P → PieceBuffer P → Type 0 where
    asks : (b : PieceBuffer P) → Step b (next b).0
    answers : (b : PieceBuffer P) (peer : P) (block : Block) → Step b (add_block peer block b).0
    leaves : (b : PieceBuffer P) (peer : P) → Step b (remove_peer peer b).0
    joins :
        (b : PieceBuffer P) (peer : P)
        → roles peer b ≡ 0
        → Step b (record b { peers = push b.peers peer })

  pub data Reach (b : PieceBuffer P) : PieceBuffer P → Type 0 where
    here : Reach b b
    and_then : {c d : PieceBuffer P} → Reach b c → Step c d → Reach b d

  pub joined :
      (b : PieceBuffer P) (peer : P)
      → IsTracked b
      → roles peer b ≡ 0
      → IsTracked (record b { peers = push b.peers peer })
  joined b peer t h = record {
    once = λ p. ground (arith, t.once p, count-push p b.peers peer, same_iff peer p);
    whole = t.whole;
    sizes = t.sizes;
    total = t.total;
    filed = t.filed;
  }

  Step-IsTracked : {b c : PieceBuffer P} → Step b c → IsTracked b → IsTracked c
  Step-IsTracked (asks b) t = next-IsTracked b t
  Step-IsTracked (answers b peer block) t = add_block-IsTracked peer block b t
  Step-IsTracked (leaves b peer) t = remove_peer-IsTracked peer b t
  Step-IsTracked (joins b peer h) t = joined b peer t h

  -- After any sequence of requests, answers, departures and arrivals, in which only a peer without
  -- a role in the buffer arrives, every block of the piece is in exactly one place, and no peer has
  -- two roles. The peers that the buffer starts with are distinct.
  pub Reach-IsTracked :
      (i len id : ℕ) (peers : List P) (b : PieceBuffer P)
      → ((p : P) → count p peers ≤ 1)
      → Reach (new i len id peers) b
      → IsTracked b
  Reach-IsTracked i len id peers b h here = new-IsTracked i len id peers h
  Reach-IsTracked i len id peers b h (and_then {c = c} r s) =
      Step-IsTracked s (Reach-IsTracked i len id peers c h r)

module _ {P : Type 0} ⦃e : Eq P⦄ (serve : BlockMetadata → Block) where
  -- one request, and the answer to it
  pub round : PieceBuffer P → PieceBuffer P
  round b =
      let (b', request) = next b in
      elim request [ none ↦ b' | some r ↦ (add_block r.peer_id (serve r.block_metadata) b').0 ]

  pub rounds : ℕ → PieceBuffer P → PieceBuffer P
  rounds zero b = b
  rounds (suc n) b = rounds n (round b)

-- The answers are the blocks that were asked for, of the right length.
abbrev pub IsHonest : (BlockMetadata → Block) → Type 0
IsHonest serve = (m : BlockMetadata) → ((serve m).metadata ≡ m) × (is_correct_len (serve m) ≡ true)

module _ {P : Type 0} ⦃e : Eq P⦄ (serve : BlockMetadata → Block) (honest : IsHonest serve) where
  round-sent :
      (b : PieceBuffer P) (peers : List P) (peer : P) (missing : List BlockMetadata)
      (m : BlockMetadata)
      → b.pending_blocks ≡ []
      → pop b.peers ≡ some (peers, peer)
      → pop b.missing_blocks ≡ some (missing, m)
      → round serve b ≡ record b {
        peers = push peers peer;
        missing_blocks = missing;
        pending_blocks = [];
        blocks = insert_block m.block_offset (serve m) b.blocks;
      }
  unfolding round next add_block get insert remove
  round-sent b peers peer missing m w p q =
      let self = same_refl peer in
      let served = honest m in ground (arith, self, served, eq_metadata_iff m m)

  round-IsTracked : (b : PieceBuffer P) → IsTracked b → IsTracked (round serve b)
  unfolding round
  round-IsTracked b t = elim (Option-cases (next b).1) [
    | inl p ↦ rw (p, round) (next-IsTracked b t)
    | inr (r, p) ↦
        rw (p, round)
          (add_block-IsTracked r.peer_id (serve r.block_metadata) (next b).0 (next-IsTracked b t))
  ]

  -- What a download needs in order to go on for `n` more rounds.
  record IsReady (n : ℕ) (b : PieceBuffer P) : Type 0 where
    tracked : IsTracked b
    quiet : b.pending_blocks ≡ []
    correct : IsCorrect b.blocks
    staffed : 0 < length b.peers
    open_blocks : length b.missing_blocks ≡ n

  round-IsReady :
      (n : ℕ) (b : PieceBuffer P)
      → IsReady (suc n) b
      → IsReady n (round serve b)
        × ((round serve b).piece_index ≡ b.piece_index)
        × ((round serve b).piece_length ≡ b.piece_length)
  round-IsReady n b h = elim (Option-cases (pop b.peers)) [
    | inl p ↦ absurd (omega (arith, h.staffed, ap length (pop-none b.peers p)))
    | inr ((peers, peer), p) ↦ elim (Option-cases (pop b.missing_blocks)) [
      | inl q ↦ absurd (omega (arith, h.open_blocks, ap length (pop-none b.missing_blocks q)))
      | inr ((missing, m), q) ↦
          let s = round-sent b peers peer missing m h.quiet p q in
          (
            record {
              tracked = round-IsTracked b h.tracked;
              quiet = rw s;
              correct =
                  rw s (
                    insert_block-IsCorrect m.block_offset (serve m) b.blocks (honest m).1
                      h.correct);
              staffed = rw s (omega (arith, length-push peers peer));
              open_blocks =
                  rw s (omega (arith, h.open_blocks, length-pop b.missing_blocks missing m q));
            },
            rw s,
            rw s,
          )
    ]
  ]

  rounds-IsReady :
      (n : ℕ) (b : PieceBuffer P)
      → IsReady n b
      → IsReady 0 (rounds serve n b)
        × ((rounds serve n b).piece_index ≡ b.piece_index)
        × ((rounds serve n b).piece_length ≡ b.piece_length)
  unfolding rounds
  rounds-IsReady zero b h = (h, refl, refl)
  rounds-IsReady (suc n) b h =
      let (h', i, l) = round-IsReady n b h in
      let (h'', i', l') = rounds-IsReady n (round serve b) h' in (h'', i' ∙ i, l' ∙ l)

  start :
      (i len id : ℕ) (peers : List P)
      → ((p : P) → count p peers ≤ 1)
      → 0 < length peers
      → IsReady (length (layout i len)) (new i len id peers)
        × ((new i len id peers).piece_index ≡ i)
        × ((new i len id peers).piece_length ≡ len)
  unfolding new
  start i len id peers h s = (
    record {
      tracked = new-IsTracked i len id peers h;
      quiet = refl;
      correct = tt;
      staffed = s;
      open_blocks = refl;
    },
    refl,
    refl,
  )

  ready-is_full_piece : (b : PieceBuffer P) → IsReady 0 b → is_full_piece b ≡ true
  unfolding is_full_piece
  ready-is_full_piece b r =
      let quiet : values b.pending_blocks ≡ [] = ap values r.quiet in
      ground (arith, r.tracked.sizes, r.open_blocks, ap length quiet)

  -- A download from peers that answer what they are asked ends: after as many rounds as the piece
  -- has blocks the buffer is full, and it is turned into the whole piece, each block's bytes at
  -- the block's offset.
  pub rounds_finish :
      (i len id : ℕ) (peers : List P)
      → ((p : P) → count p peers ≤ 1)
      → 0 < length peers
      → let b = rounds serve (length (layout i len)) (new i len id peers) in
        (is_full_piece b ≡ true)
        × ((whole : List ℕ) × (try_finalize_piece b
              ≡ ok (record { metadata = new_metadata i 0 len; block_data = whole }))
            × (length whole ≡ len)
            × Placed whole b.blocks)
  rounds_finish i len id peers h s =
      let b = rounds serve (length (layout i len)) (new i len id peers) in
      let (ready, ei, el) = start i len id peers h s in
      let (r, fi, fl) = rounds-IsReady (length (layout i len)) (new i len id peers) ready in
      let full = ready-is_full_piece b r in
      let (whole, f, l, placed) = try_finalize_piece-ok b r.tracked full r.correct in
      (full, (whole, f ∙ rw (fi ∙ ei, fl ∙ el), l ∙ fl ∙ el, placed))
