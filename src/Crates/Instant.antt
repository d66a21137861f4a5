-- ===== src/Crates/Instant.antt =====
-- `wasm_timer::Instant`. Each call of `Instant::now()` is an argument of the model.
use libp2p_bittorrent_protoc.Base.{ℕ, ◌+◌, ◌-◌}

pub record Instant (I : Type 0) : Type 0 where
  -- `later.duration_since(earlier).as_secs()`
  pub secs_since : I → I → ℕ
  -- `instant + Duration::from_secs(secs)`
  pub add_secs : I → ℕ → I

-- seconds since some start
instance abbrev pub seconds : Instant ℕ
seconds = record {
  secs_since = λ later earlier. later - earlier;
  add_secs = λ instant secs. instant + secs;
}
