-- ===== src/Crates/LruCache.antt =====
-- `lru_cache::LruCache`: a map of bounded size that drops what was used least recently.
use libp2p_bittorrent_protoc.Base.{ℕ, suc, ◌≡◌, ◌≤◌, ◌<◌, ◌⊎◌, Option, none, some}

-- `peek` is the view by which the rest is described. The capacity is not 0.
pub record LruCache (C K V : Type 0) : Type 0 where
  pub peek : K → C → Option V
  pub insert : K → V → C → C
  pub remove : K → C → C × Option V
  pub peek-insert : (k : K) (v : V) (c : C) → peek k (insert k v c) ≡ some v
  -- another entry stays, or is dropped to make room
  pub peek-insert_other :
      (k j : K) (v : V) (c : C)
      → (k ≡ j → ⊥)
      → (peek j (insert k v c) ≡ peek j c) ⊎ (peek j (insert k v c) ≡ none)
  pub remove_lem : (k : K) (c : C) → (remove k c).1 ≡ peek k c
  pub peek-remove : (k : K) (c : C) → peek k (remove k c).0 ≡ none
  pub peek-remove_other : (k j : K) (c : C) → (k ≡ j → ⊥) → peek j (remove k c).0 ≡ peek j c
  pub len : C → ℕ
  pub capacity : C → ℕ
  pub len-insert : (k : K) (v : V) (c : C) → len (insert k v c) ≤ suc (len c)
  pub len-remove : (k : K) (c : C) → len (remove k c).0 ≤ len c
  pub capacity-insert : (k : K) (v : V) (c : C) → capacity (insert k v c) ≡ capacity c
  pub capacity-remove : (k : K) (c : C) → capacity (remove k c).0 ≡ capacity c
  -- where there is room nothing is dropped
  pub peek-insert_room :
      (k j : K) (v : V) (c : C)
      → len c < capacity c
      → (k ≡ j → ⊥)
      → peek j (insert k v c) ≡ peek j c
