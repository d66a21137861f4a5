-- ===== src/Meta/Lengths.antt =====
-- The configuration of a torrent describes the whole of its content.
use libp2p_bittorrent_protoc.Base.{
  ℕ, ◌+◌, ◌-◌, ◌*◌, ◌≡◌, inl, inr, true, false, done, Outcome-cases, arith, length, replicate,
}
use libp2p_bittorrent_protoc.Crates.BitVec.{BitVec}
use libp2p_bittorrent_protoc.Peer.Torrent.{TorrentState}
use libp2p_bittorrent_protoc.Peer.Pool.{TorrentConfig}
use libp2p_bittorrent_protoc.Meta.{
  MetaInfo, TorrentInfo, content_length, last_piece_length, into_leech, into_seed, build, new_leech,
  new_seed,
}

last_piece_length_lem :
    (info : TorrentInfo) (n : ℕ)
    → last_piece_length info ≡ done n
    → (length info.pieces - 1) * info.piece_length + n ≡ content_length info.content
unfolding last_piece_length
last_piece_length_lem info n h = ground arith

module _ {V : Type 0} ⦃v : BitVec V⦄ where
  -- A torrent that is made of a torrent file, to download it or to seed it, has a bit for every piece,
  -- none of them set for a download and all of them for a seed, and the lengths of its pieces add up
  -- to the length of the content.
  pub new_leech_lem :
      (torrent : MetaInfo) (state : TorrentState) (leech seed : TorrentConfig V)
      → new_leech torrent state ≡ done leech
      → new_seed torrent state ≡ done seed
      → (v.iter leech.bitfield.inner ≡ replicate (length torrent.info.pieces) false)
        × (v.iter seed.bitfield.inner ≡ replicate (length torrent.info.pieces) true)
        × ((length torrent.info.pieces - 1) * leech.piece_length + leech.last_piece_length
            ≡ content_length torrent.info.content)
        × ((length torrent.info.pieces - 1) * seed.piece_length + seed.last_piece_length
            ≡ content_length torrent.info.content)
  unfolding new_leech new_seed into_leech into_seed build
  new_leech_lem torrent state leech seed h k =
      let n = length torrent.info.pieces in
      elim (Outcome-cases (last_piece_length torrent.info)) [
        | inl z ↦ absurd (ground arith)
        | inr (last, z) ↦ (
          ground (arith, v.iter-from_elem n false),
          ground (arith, v.iter-from_elem n true),
          ground (arith, last_piece_length_lem torrent.info last z),
          ground (arith, last_piece_length_lem torrent.info last z),
        )
      ]
