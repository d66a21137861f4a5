-- ===== src/Peer/State.antt =====
-- `src/peer/mod.rs`: what the client knows of one remote peer.
pub mod Laws
use libp2p_bittorrent_protoc.Base.{
  ℕ, ◌+◌, Bool, true, false, not, ◌&&◌, List, [], ◌∷◌, Option, none, some, Result, ok, err, Outcome,
  done, panic, bind, index, ltb, ◌==◌, if◌then◌else◌,
}
use libp2p_bittorrent_protoc.Crates.BitVec.{BitVec}
use libp2p_bittorrent_protoc.Crates.Instant.{Instant}
use libp2p_bittorrent_protoc.Hash.{ShaHash}
use libp2p_bittorrent_protoc.Wire.Message.{BitField}

pub data ChokeType : Type 0 where
  choked un_choked : ChokeType

pub data InterestType : Type 0 where
  not_interested interested : InterestType

pub record PeerStats : Type 0 where
  pub received_good_blocks : ℕ
  pub received_bad_blocks : ℕ
  pub send_blocks : ℕ

-- `derive(Default)`
abbrev pub no_stats : PeerStats
no_stats = record { received_good_blocks = 0; received_bad_blocks = 0; send_blocks = 0 }

pub record BitTorrentPeer (V I : Type 0) : Type 0 where
  pub bittorrent_id : ShaHash
  pub bitfield : Option (BitField V)
  pub stats : PeerStats
  pub remote_choke : ChokeType
  pub remote_interest : InterestType
  pub client_choke : ChokeType
  pub client_interest : InterestType
  pub remote_heartbeat : I
  pub client_heartbeat : I

abbrev pub unwrap_or_default : Option Bool → Bool
unwrap_or_default none = false
unwrap_or_default (some b) = b

-- `derive(PartialEq)` of the two enums
abbrev pub is_choked : ChokeType → Bool
is_choked choked = true
is_choked un_choked = false

abbrev pub is_un_choked : ChokeType → Bool
is_un_choked choked = false
is_un_choked un_choked = true

abbrev pub is_interested : InterestType → Bool
is_interested not_interested = false
is_interested interested = true

module _ {V I : Type 0} where
  -- the two instants are those of the two calls of `Instant::now()`
  unfoldable pub new_peer : ShaHash → I → I → BitTorrentPeer V I
  new_peer peer_btt_id now now' = record {
    bittorrent_id = peer_btt_id;
    bitfield = none;
    stats = no_stats;
    remote_choke = choked;
    remote_interest = not_interested;
    client_choke = choked;
    client_interest = not_interested;
    remote_heartbeat = now;
    client_heartbeat = now';
  }

  unfoldable pub new_with_bitfield : ShaHash → BitField V → I → I → BitTorrentPeer V I
  new_with_bitfield peer_btt_id piece_field now now' = record {
    bittorrent_id = peer_btt_id;
    bitfield = some piece_field;
    stats = no_stats;
    remote_choke = choked;
    remote_interest = not_interested;
    client_choke = choked;
    client_interest = not_interested;
    remote_heartbeat = now;
    client_heartbeat = now';
  }

  unfoldable pub has_bitfield : BitTorrentPeer V I → Bool
  has_bitfield p = elim p.bitfield [ none ↦ false | some f ↦ true ]

  unfoldable pub is_remote_interested : BitTorrentPeer V I → Bool
  is_remote_interested p = is_interested p.remote_interest

  -- As in the source, this is the test for `Interested`.
  unfoldable pub is_remote_not_interested : BitTorrentPeer V I → Bool
  is_remote_not_interested p = is_interested p.remote_interest

  unfoldable pub is_client_choked_on_remote : BitTorrentPeer V I → Bool
  is_client_choked_on_remote p = is_choked p.remote_choke

  unfoldable pub is_client_unchoked_on_remote : BitTorrentPeer V I → Bool
  is_client_unchoked_on_remote p = is_un_choked p.remote_choke

  unfoldable pub is_client_interested : BitTorrentPeer V I → Bool
  is_client_interested p = is_interested p.client_interest

  -- As in the source, this is the test for `Interested`.
  unfoldable pub is_client_not_interested : BitTorrentPeer V I → Bool
  is_client_not_interested p = is_interested p.client_interest

  unfoldable pub is_remote_choked_on_client : BitTorrentPeer V I → Bool
  is_remote_choked_on_client p = is_choked p.client_choke

  unfoldable pub is_remote_unchoked_on_client : BitTorrentPeer V I → Bool
  is_remote_unchoked_on_client p = is_un_choked p.client_choke

  unfoldable pub remote_can_seed : BitTorrentPeer V I → Bool
  unfolding is_client_unchoked_on_remote is_client_interested has_bitfield
  remote_can_seed p = is_client_unchoked_on_remote p && (is_client_interested p && has_bitfield p)

  unfoldable pub remote_can_leech : BitTorrentPeer V I → Bool
  unfolding is_remote_unchoked_on_client is_remote_interested
  remote_can_leech p = is_remote_unchoked_on_client p && is_remote_interested p

  -- the field that was there before
  unfoldable pub set_bitfield :
      BitField V → BitTorrentPeer V I → BitTorrentPeer V I × Option (BitField V)
  set_bitfield field p = (record p { bitfield = some field }, p.bitfield)

module _ {V I : Type 0} ⦃t : Instant I⦄ where
  unfoldable pub is_remote_timeout : I → BitTorrentPeer V I → Bool
  is_remote_timeout timestamp p =
      if ltb 120 (t.secs_since timestamp p.remote_heartbeat) then true else false

  unfoldable pub is_client_timeout : I → BitTorrentPeer V I → Bool
  is_client_timeout timestamp p =
      if ltb 120 (t.secs_since timestamp p.client_heartbeat) then true else false

-- the loop over `bitfield.iter().enumerate()` from bit `i` on
unfoldable pub any_missing : {V : Type 0} ⦃v : BitVec V⦄ → ℕ → List Bool → V → Outcome Bool
any_missing i [] other = done false
any_missing ⦃v⦄ i (bit ∷ bits) other =
    let more = any_missing (i + 1) bits other in
    if bit
    then bind (index (v.get other i)) (λ owned. if not owned then done true else more)
    else more

module _ {V I : Type 0} ⦃v : BitVec V⦄ where
  unfoldable pub is_having_missing_pieces_for : V → BitTorrentPeer V I → Outcome Bool
  unfolding any_missing
  is_having_missing_pieces_for other p = elim p.bitfield [
    | none ↦ done false
    | some f ↦
        if not (v.len f.inner == v.len other)
        then done false
        else any_missing 0 (v.iter f.inner) other
  ]

  unfoldable pub has_piece : ℕ → BitTorrentPeer V I → Option Bool
  has_piece piece_index p = elim p.bitfield [ none ↦ none | some f ↦ v.get f.inner piece_index ]

  unfoldable pub remote_can_seed_piece : ℕ → BitTorrentPeer V I → Bool
  unfolding remote_can_seed has_piece
  remote_can_seed_piece piece_index p =
      remote_can_seed p && unwrap_or_default (has_piece piece_index p)

  unfoldable pub add_piece : ℕ → BitTorrentPeer V I → BitTorrentPeer V I × Option Bool
  add_piece piece_index p = elim p.bitfield [
    | none ↦ (p, none)
    | some f ↦
        if ltb piece_index (v.len f.inner)
        then (
          record p { bitfield = some (record { inner = v.write f.inner piece_index true }) },
          some true,
        )
        else (p, some false)
  ]

  unfoldable pub remove_piece :
      ℕ → BitTorrentPeer V I → BitTorrentPeer V I × Option (Result (Unit {0}) (Unit {0}))
  remove_piece piece_index p = elim p.bitfield [
    | none ↦ (p, none)
    | some f ↦
        if ltb piece_index (v.len f.inner)
        then (
          record p { bitfield = some (record { inner = v.write f.inner piece_index false }) },
          some (ok tt),
        )
        else (p, some (err tt))
  ]
