-- ===== src/Crates/Rng.antt =====
-- `rand`: the shuffle of a vector by `thread_rng()`, of which only the elements are known.
use libp2p_bittorrent_protoc.Base.{ℕ, ◌≡◌, List, nat_eq}
use libp2p_bittorrent_protoc.Base.Vec.{count}

pub record Rng (R : Type 0) : Type 0 where
  pub shuffle : R → List ℕ → List ℕ
  pub count-shuffle : (r : R) (a : ℕ) (l : List ℕ) → count a (shuffle r l) ≡ count a l
