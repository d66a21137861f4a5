-- ===== src/Crates/Instances.antt =====
-- The interfaces are satisfiable: lists of bits, lists of bytes, and words by arithmetic.
use libp2p_bittorrent_protoc.Base.{
  ℕ, ◌+◌, ◌*◌, ◌/◌, ◌%◌, ◌^◌, ◌≡◌, refl, Bool, true, false, ◌&&◌, List, [], ◌∷◌, ◌++◌, arith, Eq,
  same_refl, same_ne, inl, ◌∙◌, length, get_elem?, set, take, drop, replicate, All, ◌≤◌, suc,
}
use libp2p_bittorrent_protoc.Base.Map
use libp2p_bittorrent_protoc.Base.Map.{get-insert, get-remove}
use libp2p_bittorrent_protoc.Crates.LruCache.{LruCache}
use libp2p_bittorrent_protoc.Crates.BitVec.{BitVec, bits_of, bytes_of}
use libp2p_bittorrent_protoc.Crates.Bytes.{BytesMut}
use libp2p_bittorrent_protoc.Crates.ByteOrder.{ByteOrder}
use libp2p_bittorrent_protoc.Crates.Rng.{Rng}

abbrev pub every : List Bool → Bool
every [] = true
every (b ∷ bs) = b && every bs

pub every_sound : (l : List Bool) → every l ≡ true → All (λ b. b ≡ true) l
every_sound [] h = tt
every_sound (b ∷ bs) h = ground (arith, every_sound bs)

pub every_complete : (l : List Bool) → All (λ b. b ≡ true) l → every l ≡ true
every_complete [] h = refl
every_complete (b ∷ bs) h = ground (arith, every_complete bs h.1)

instance abbrev pub list_bit_vec : BitVec (List Bool)
list_bit_vec = record {
  iter = λ v. v;
  len = length;
  get = get_elem?;
  write = set;
  all = every;
  clear = λ v. replicate (length v) false;
  truncate = λ v n. take n v;
  from_elem = replicate;
  from_bytes = bits_of;
  to_bytes = bytes_of;
  ext = λ v w h. h;
  len_lem = λ v. refl;
  get_lem = λ v i. refl;
  iter-write = λ v i b h. refl;
  all_sound = every_sound;
  all_complete = every_complete;
  iter-clear = λ v. refl;
  iter-truncate = λ v n. refl;
  iter-from_elem = λ n b. refl;
  iter-from_bytes = λ bs. refl;
  to_bytes_lem = λ v. refl;
}

instance abbrev pub list_bytes_mut : BytesMut (List ℕ)
list_bytes_mut = record {
  bytes = λ b. b;
  with_capacity = λ n. [];
  reserve = λ b n. b;
  put = λ b s. b ++ s;
  split_to = λ b n. (take n b, drop n b);
  advance = λ b n. drop n b;
  bytes-with_capacity = λ n. refl;
  bytes-reserve = λ b n. refl;
  bytes-put = λ b s. refl;
  bytes-front = λ b n h. refl;
  bytes-rest = λ b n h. refl;
  bytes-advance = λ b n h. refl;
}

abbrev read_u32 : List ℕ → ℕ
read_u32 (a ∷ b ∷ c ∷ d ∷ rest) = a * 2 ^ 24 + b * 2 ^ 16 + c * 2 ^ 8 + d
read_u32 rest = 0

abbrev read_u16 : List ℕ → ℕ
read_u16 (a ∷ b ∷ rest) = a * 2 ^ 8 + b
read_u16 rest = 0

instance abbrev pub big_endian : ByteOrder
big_endian = record {
  read_u32 = read_u32;
  read_u16 = read_u16;
  write_u32 = λ n. (n / 2 ^ 24) ∷ (n / 2 ^ 16 % 2 ^ 8) ∷ (n / 2 ^ 8 % 2 ^ 8) ∷ (n % 2 ^ 8) ∷ [];
  write_u16 = λ n. (n / 2 ^ 8) ∷ (n % 2 ^ 8) ∷ [];
  read_u32_lem = λ a b c d rest. refl;
  read_u16_lem = λ a b rest. refl;
  write_u32_lem = λ n h. refl;
  write_u16_lem = λ n h. refl;
}

-- the shuffle that leaves every element where it is
instance abbrev pub no_shuffle : Rng (Unit {0})
no_shuffle = record { shuffle = λ r l. l; count-shuffle = λ r a l. refl }

pub length-insert :
    {K V : Type 0} ⦃e : Eq K⦄ (k : K) (v : V) (m : List (K × V))
    → length (Map.insert k v m) ≤ suc (length m)
unfolding Map.insert
length-insert k v [] = omega arith
length-insert k v ((j, w) ∷ m) = ground (arith, length-insert k v m)

pub length-remove :
    {K V : Type 0} ⦃e : Eq K⦄ (k : K) (m : List (K × V)) → length (Map.remove k m) ≤ length m
unfolding Map.remove
length-remove k [] = omega arith
length-remove k ((j, w) ∷ m) = ground (arith, length-remove k m)

-- a cache that never drops an entry, of a capacity that is not used
instance abbrev pub map_cache : {K V : Type 0} ⦃e : Eq K⦄ → LruCache (List (K × V)) K V
map_cache = record {
  peek = Map.get;
  insert = Map.insert;
  remove = λ k m. (Map.remove k m, Map.get k m);
  peek-insert = λ k v m. get-insert k k v m ∙ rw (same_refl k) refl;
  peek-insert_other = λ k j v m n. inl (get-insert k j v m ∙ rw (same_ne k j n) refl);
  remove_lem = λ k m. refl;
  peek-remove = λ k m. get-remove k k m ∙ rw (same_refl k) refl;
  peek-remove_other = λ k j m n. get-remove k j m ∙ rw (same_ne k j n) refl;
  len = length;
  capacity = λ m. 16;
  len-insert = length-insert;
  len-remove = length-remove;
  capacity-insert = λ k v m. refl;
  capacity-remove = λ k m. refl;
  peek-insert_room = λ k j v m r n. get-insert k j v m ∙ rw (same_ne k j n) refl;
}
